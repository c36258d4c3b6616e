-- ===== src/PacketParser/Ready.antt =====
-- Whether a parser is ready for the next bytes, and sequences of chunks.
use thero_logic_server.Base.{
  ℕ, zero, suc, ◌+◌, ◌-◌, ◌<◌, ◌≡◌, refl, sym, ap, ◌∙◌, ◌⊎◌, inl, inr, Bool, true, false, ltb, leb,
  ltb→lt, leb_false→ltb, if◌then◌else◌, Bool-cases, some, List, [], ◌∷◌, ◌++◌, length,
  length-write_at, arith,
}
use mathlib.Core.Path.{subst}
use thero_logic_server.Base.Int.{ℤ, pos, negsuc}
use thero_logic_server.Packet.{packet_header_size, packet_buffer_size}
use thero_logic_server.PacketParser.{
  req_body, PacketParser, OnPacket, put_byte, Result, parse_packet, parse_header,
}
use thero_logic_server.PacketParser.Bytes.{
  Fed, running, ended, grown, result, hand_over, header_fed, body_fed, feed, feed_all, then_feed,
  feed_all-append, feed_all-cons, InBody, IsReady,
}
use thero_logic_server.PacketParser.Body.{
  KeepsBlock, parse_header-SetsLength, reset-InHeader, grown-InBody, put_byte-InHeader,
}
use thero_logic_server.PacketParser.Header.{opened-InBody}
use thero_logic_server.PacketParser.Chunks.{parse_packet-feed_all}

-- A parser that goes on is ready, and one that has returned has returned a negative number.
abbrev pub Goes : {H : Type 0} → Fed H → Type 0
Goes (running p h) = IsReady p
Goes (ended r p h) = (n : ℕ) × (r ≡ negsuc n)

abbrev Coded : ℤ → Type 0
Coded r = (r ≡ pos 0) ⊎ ((n : ℕ) × (r ≡ negsuc n))

four_codes :
    (a b c d : Bool) (p q : PacketParser)
    → let r : ℤ × PacketParser =
        if a
        then (negsuc 0, p)
        else if b
        then (negsuc 1, p)
        else if c
        then (negsuc 2, p)
        else (if d then pos 0 else negsuc 3, q) in
      Coded r.0
four_codes true b c d p q = inr (0, refl)
four_codes false true c d p q = inr (1, refl)
four_codes false false true d p q = inr (2, refl)
four_codes false false false true p q = inl refl
four_codes false false false false p q = inr (3, refl)

parse_header-Coded : (p : PacketParser) → Coded (parse_header p).0
unfolding parse_header
parse_header-Coded p = four_codes _ _ _ _ p _

module _ {H : Type 0} (on_packet : OnPacket H) (keeps : KeepsBlock on_packet) where
  hand_over-Goes :
      (p : PacketParser) (h : H)
      → length p.packet.buf ≡ packet_buffer_size
      → Goes (hand_over on_packet p h)
  hand_over-Goes p h k = elim (Bool-cases (on_packet p.packet h).0) [
    | inl refused ↦ rw refused (0, refl)
    | inr taken ↦ rw taken (
        inl (
          reset-InHeader on_packet parse_header parse_header-SetsLength keeps
            (record p { packet = (on_packet p.packet h).1 }) (keeps p.packet h k)))
  ]

  body_fed-Goes :
      (p : PacketParser) (h : H) (b : ℕ) → InBody p → Goes (body_fed on_packet (grown p (b ∷ [])) h)
  body_fed-Goes p h b v = elim (Bool-cases (ltb (p.packet_pos + 1) (p.body_len + 2))) [
    | inl more ↦ rw more (inr (grown-InBody p (b ∷ []) v (ltb→lt _ _ more)))
    | inr done ↦
        rw done
          (hand_over-Goes (grown p (b ∷ [])) h (length-write_at p.packet.buf _ _ ∙ v.valid.block))
  ]

  header_fed-Goes :
      (p : PacketParser) (h : H)
      → length p.packet.buf ≡ packet_buffer_size
      → p.packet_pos ≡ packet_header_size
      → p.packet.packet_size ≡ packet_header_size
      → p.packet.buf_pos ≡ packet_header_size
      → Goes (header_fed on_packet (parse_header p) h)
  header_fed-Goes p h b c s u =
      go (parse_header p) (parse_header-Coded p) (parse_header-SetsLength p)
    where
      opened :
          (m : ℕ)
          → m < packet_buffer_size - 2
          → Goes (header_fed on_packet (pos 0, record p { body_len = m }) h)
      opened m small = elim (Bool-cases (leb (m + 2) packet_header_size)) [
        | inl short ↦ rw short (hand_over-Goes (record p { status = req_body; body_len = m }) h b)
        | inr long ↦ rw long (
            inr (
              opened-InBody on_packet parse_header parse_header-SetsLength keeps p m b c s u small
                (ltb→lt _ _ (leb_false→ltb (m + 2) packet_header_size long))))
      ]

      go :
          (r : ℤ × PacketParser)
          → Coded r.0
          → (r.0 ≡ pos 0
              → (m : ℕ) × (m < packet_buffer_size - 2) × (r ≡ (pos 0, record p { body_len = m })))
          → Goes (header_fed on_packet r h)
      go (pos zero, q) e k = let (m, small, d) = k refl in rw (ap (λ r. r.1) d) (opened m small)
      go (pos (suc n), q) (inl e) k = absurd (cc)
      go (pos (suc n), q) (inr (m, e)) k = absurd (cc)
      go (negsuc n, q) e k = (n, refl)

  feed-Goes :
      (p : PacketParser) (h : H) (b : ℕ)
      → IsReady p
      → Goes (feed on_packet parse_header p.status p h b)
  unfolding feed
  feed-Goes p h b (inr v) =
      subst (λ t. Goes (feed on_packet parse_header t p h b)) (sym v.status) (body_fed-Goes p h b v)
  feed-Goes p h b (inl v) =
      subst (λ t. Goes (feed on_packet parse_header t p h b)) (sym v.status)
        (elim (Bool-cases (ltb (p.packet_pos + 1) packet_header_size)) [
          | inl more ↦ rw more (inl (put_byte-InHeader p b v (ltb→lt _ _ more)))
          | inr done ↦ rw done (
              header_fed-Goes (put_byte p b) h (length-write_at p.packet.buf _ _ ∙ v.block)
                (full done) v.size v.cursor)
        ])
    where
      full :
          ltb (p.packet_pos + 1) packet_header_size ≡ false → p.packet_pos + 1 ≡ packet_header_size
      full done = ground (arith, v.within)

  then_feed-Goes :
      (bytes : List ℕ) (f : Fed H)
      → ((p : PacketParser) (h : H) → IsReady p → Goes (feed_all on_packet parse_header p h bytes))
      → Goes f
      → Goes (then_feed on_packet parse_header f bytes)
  then_feed-Goes bytes (running p h) ih g = ih p h g
  then_feed-Goes bytes (ended r p h) ih g = g

  pub feed_all-Goes :
      (bytes : List ℕ) (p : PacketParser) (h : H)
      → IsReady p
      → Goes (feed_all on_packet parse_header p h bytes)
  unfolding feed_all
  feed_all-Goes [] p h v = v
  feed_all-Goes (b ∷ bytes) p h v =
      rw (feed_all-cons on_packet parse_header b bytes p h)
        (then_feed-Goes bytes _ (feed_all-Goes bytes) (feed-Goes p h b v))

-- A caller that parses one chunk after another, as long as the result is 0.
abbrev pub and_then : {H : Type 0} → Result H → (PacketParser → H → Result H) → Result H
and_then (some (pos zero, p, h)) next = next p h
and_then r next = r

pub parse_chunks : {H : Type 0} → OnPacket H → PacketParser → H → List (List ℕ) → Result H
parse_chunks on_packet p h [] = some (pos 0, p, h)
parse_chunks on_packet p h (c ∷ chunks) =
    and_then (parse_packet on_packet p h c) (λ p' h'. parse_chunks on_packet p' h' chunks)

abbrev pub joined : List (List ℕ) → List ℕ
joined [] = []
joined (c ∷ chunks) = c ++ joined chunks

module _ {H : Type 0} (on_packet : OnPacket H) (keeps : KeepsBlock on_packet) where
  chunks_feed :
      (chunks : List (List ℕ)) (p : PacketParser) (h : H)
      → IsReady p
      → parse_chunks on_packet p h chunks
        ≡ result (feed_all on_packet parse_header p h (joined chunks))
  unfolding parse_chunks feed_all
  chunks_feed [] p h v = refl
  chunks_feed (c ∷ chunks) p h v =
      ap (λ r. and_then r (λ p' h'. parse_chunks on_packet p' h' chunks))
        (parse_packet-feed_all on_packet p h c keeps v)
      ∙ go (feed_all on_packet parse_header p h c) (feed_all-Goes on_packet keeps c p h v)
          (chunks_feed chunks)
      ∙ ap result (sym (feed_all-append on_packet parse_header c (joined chunks) p h))
    where
      go :
          (f : Fed H)
          → Goes f
          → ((p' : PacketParser) (h' : H)
              → IsReady p'
              → parse_chunks on_packet p' h' chunks
                ≡ result (feed_all on_packet parse_header p' h' (joined chunks)))
          → and_then (result f) (λ p' h'. parse_chunks on_packet p' h' chunks)
            ≡ result (then_feed on_packet parse_header f (joined chunks))
      go (running p' h') g ih = ih p' h' g
      go (ended (pos n) p' h') (m, e) ih = absurd (cc)
      go (ended (negsuc n) p' h') g ih = refl

  -- How the stream is cut into chunks makes no difference: parsing chunks one after another, as long as
  -- the result is 0, is parsing them joined to one. The packets that the handler is given, the
  -- result, and the parser's state are the same. The conditions are that the parser is in the middle of
  -- a header or of a body, and that the handler keeps the length of the packet's array.
  pub parse_chunks-joined :
      (p : PacketParser) (h : H) (chunks : List (List ℕ))
      → IsReady p
      → parse_chunks on_packet p h chunks ≡ parse_packet on_packet p h (joined chunks)
  parse_chunks-joined p h chunks v =
      chunks_feed chunks p h v ∙ sym (parse_packet-feed_all on_packet p h (joined chunks) keeps v)
