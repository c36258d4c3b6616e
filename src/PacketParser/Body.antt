-- ===== src/PacketParser/Body.antt =====
-- The parser's body phase on a chunk of bytes, against the bytewise parser.
use thero_logic_server.Base.{
  ℕ, zero, suc, ◌+◌, ◌-◌, ◌≤◌, ◌<◌, ◌≡◌, refl, sym, ap, ◌∙◌, inl, inr, true, false, not, ltb,
  if◌then◌else◌, lt→ltb, ltb→lt, Bool-cases, Option, some, ◌>>=◌, List, [], ◌∷◌, ◌++◌, min, length,
  length-append, arith, length-write_at, take, drop, take-append-drop, length-take, length-drop,
}
use thero_logic_server.Base.Int.{ℤ, pos}
use thero_logic_server.Packet.{
  Packet, write, get_body_length, packet_header_size, packet_buffer_size,
}
use thero_logic_server.Packet.Access.{appended, appended-IsValid, appended-appended, write_fits}
use thero_logic_server.PacketParser.{
  req_body, PacketParser, OnPacket, put_byte, reset, needed, parse_body, Round, go_on, return,
  deliver, in_body, short_to_size, Result, parse_loop, parse_header, parse_proxy_header,
}
use thero_logic_server.PacketParser.Bytes.{
  running, grown, result, hand_over, body_fed, feed, feed_all, then_feed, feed_all-append,
  feed_all_at, then_feed_nil, InHeader, InBody, IsReady,
}

-- What a header check does on success: it sets the body's length, within the buffer.
abbrev pub SetsLength : (PacketParser → ℤ × PacketParser) → Type 0
SetsLength header =
    (p : PacketParser)
    → (header p).0 ≡ pos 0
    → (n : ℕ) × (n < packet_buffer_size - 2) × (header p ≡ (pos 0, record p { body_len = n }))

pub parse_header-SetsLength : SetsLength parse_header
unfolding parse_header
parse_header-SetsLength p h = (short_to_size (get_body_length p.packet), ground arith, ground arith)

pub parse_proxy_header-SetsLength : SetsLength parse_proxy_header
unfolding parse_proxy_header
parse_proxy_header-SetsLength p h =
    (short_to_size (get_body_length p.packet), ground arith, ground arith)

-- A handler cannot change how long the packet's array is.
abbrev pub KeepsBlock : {H : Type 0} → OnPacket H → Type 0
KeepsBlock {H} on_packet =
    (r : Packet) (h : H)
    → length r.buf ≡ packet_buffer_size
    → length (on_packet r h).1.buf ≡ packet_buffer_size

pub grown-grown : (p : PacketParser) (xs ys : List ℕ) → grown (grown p xs) ys ≡ grown p (xs ++ ys)
grown-grown p xs ys = ground (arith, appended-appended p.packet xs ys, length-append xs ys)

pub grown-InBody :
    (p : PacketParser) (xs : List ℕ)
    → InBody p
    → p.packet_pos + length xs < p.body_len + 2
    → InBody (grown p xs)
grown-InBody p xs v h = record {
  status = v.status;
  within = h;
  bounded = v.bounded;
  size = omega (arith, v.size);
  valid = appended-IsValid p.packet xs v.valid (omega (arith, v.size, v.bounded));
}

pub put_byte-InHeader :
    (p : PacketParser) (b : ℕ)
    → InHeader p
    → p.packet_pos + 1 < packet_header_size
    → InHeader (put_byte p b)
put_byte-InHeader p b v h = record {
  status = v.status;
  within = h;
  block = length-write_at p.packet.buf p.packet_pos (b ∷ []) ∙ v.block;
  size = v.size;
  cursor = v.cursor;
}

module _ {H : Type 0} (on_packet : OnPacket H) (header : PacketParser → ℤ × PacketParser) where
  -- what the loop makes of a round, with so much fuel left
  abbrev pub resume : ℕ → Option (Round H) → Result H
  resume fuel r = r >>= λ r. elim r [
    | go_on p' h' bytes' ↦ parse_loop on_packet header fuel p' h' bytes'
    | return ret p' h' ↦ some (ret, p', h')
  ]

  -- with so much fuel, the loop does as the bytewise parser on at most `n` bytes
  abbrev pub Follows : ℕ → ℕ → Type 0
  Follows fuel n =
      (bytes : List ℕ) (p : PacketParser) (h : H)
      → IsReady p
      → length bytes ≤ n
      → parse_loop on_packet header fuel p h bytes ≡ result (feed_all on_packet header p h bytes)

module _ {H : Type 0} (on_packet : OnPacket H) (header : PacketParser → ℤ × PacketParser)
    (sets : SetsLength header) (keeps : KeepsBlock on_packet) where
  pub feed_body :
      (x : ℕ) (xs : List ℕ) (p : PacketParser) (h : H)
      → InBody p
      → p.packet_pos + length (x ∷ xs) ≤ p.body_len + 2
      → feed_all on_packet header p h (x ∷ xs) ≡ body_fed on_packet (grown p (x ∷ xs)) h
  unfolding feed_all feed
  feed_body x [] p h v k =
      feed_all_at on_packet header x [] p h req_body v.status
      ∙ then_feed_nil on_packet header (body_fed on_packet (grown p (x ∷ [])) h)
  feed_body x (y ∷ xs) p h v k =
      feed_all_at on_packet header x (y ∷ xs) p h req_body v.status
      ∙ rw (lt→ltb (p.packet_pos + 1) (p.body_len + 2) (omega arith)) (
          feed_body y xs (grown p (x ∷ [])) h (grown-InBody p (x ∷ []) v (omega arith))
            (omega arith)
          ∙ ap (λ q. body_fed on_packet q h) (grown-grown p (x ∷ []) (y ∷ xs)))

  pub reset-InHeader :
      (p : PacketParser) → length p.packet.buf ≡ packet_buffer_size → InHeader (reset p)
  reset-InHeader p k = record {
    status = refl;
    within = omega arith;
    block = k;
    size = refl;
    cursor = refl;
  }

  pub deliver_lem :
      (fuel n : ℕ) (bytes : List ℕ) (p : PacketParser) (h : H)
      → length p.packet.buf ≡ packet_buffer_size
      → length bytes ≤ n
      → Follows on_packet header fuel n
      → resume on_packet header fuel (some (deliver on_packet p h bytes))
        ≡ result (then_feed on_packet header (hand_over on_packet p h) bytes)
  deliver_lem fuel n bytes p h k l ih = elim (Bool-cases (on_packet p.packet h).0) [
    | inl refused ↦ rw refused
    | inr taken ↦ rw taken (
        ih bytes (reset (record p { packet = (on_packet p.packet h).1 })) (on_packet p.packet h).2
          (inl
            (reset-InHeader (record p { packet = (on_packet p.packet h).1 }) (keeps p.packet h k)))
          l)
  ]

  -- The body's case of the switch, on the bytes that are left: `n` of them belong to the packet.
  parse_body_lem :
      (b : ℕ) (bytes : List ℕ) (p : PacketParser) (n : ℕ)
      → InBody p
      → n ≡ min (length (b ∷ bytes)) (p.body_len + 2 - p.packet_pos)
      → parse_body p (b ∷ bytes)
        ≡ some (
          not (ltb (p.packet_pos + n) (p.body_len + 2)),
          grown p (take n (b ∷ bytes)),
          drop n (b ∷ bytes),
        )
  unfolding parse_body
  parse_body_lem b bytes p n v e = ground (arith, written, taken_length, copied)
    where
      taken_length : length (take n (b ∷ bytes)) ≡ n
      taken_length = omega (arith, length-take n (b ∷ bytes))

      written :
          write p.packet (take n (b ∷ bytes)) ≡ some (true, appended p.packet (take n (b ∷ bytes)))
      written =
          write_fits p.packet (take n (b ∷ bytes)) v.valid
            (omega (arith, taken_length, v.size, v.bounded))

      copied : (if ltb (length (b ∷ bytes)) (needed p) then length (b ∷ bytes) else needed p) ≡ n
      copied = ground arith

  feed_taken :
      (b : ℕ) (bytes : List ℕ) (p : PacketParser) (h : H) (k : ℕ)
      → InBody p
      → 0 < k
      → k ≤ length (b ∷ bytes)
      → p.packet_pos + k ≤ p.body_len + 2
      → feed_all on_packet header p h (b ∷ bytes)
        ≡ then_feed on_packet header
            (body_fed on_packet (grown p (take k (b ∷ bytes))) h)
            (drop k (b ∷ bytes))
  feed_taken b bytes p h zero v z l m = absurd (omega arith)
  feed_taken b bytes p h (suc k) v z l m =
      ap (λ t. feed_all on_packet header p h (b ∷ t)) (sym (take-append-drop k bytes))
      ∙ feed_all-append on_packet header (b ∷ take k bytes) (drop k bytes) p h
      ∙ ap (λ f. then_feed on_packet header f (drop k bytes))
          (feed_body b (take k bytes) p h v (omega (arith, length-take k bytes)))

  pub in_body_lem :
      (fuel n b : ℕ) (bytes : List ℕ) (p : PacketParser) (h : H)
      → InBody p
      → length (b ∷ bytes) ≤ suc n
      → Follows on_packet header fuel n
      → resume on_packet header fuel (in_body on_packet p h (b ∷ bytes))
        ≡ result (feed_all on_packet header p h (b ∷ bytes))
  in_body_lem fuel n b bytes p h v l ih =
      rw (parse_body_lem b bytes p k v refl)
        (elim (Bool-cases (ltb (p.packet_pos + k) (p.body_len + 2))) [
          | inl more ↦ rw more (
              ih rest q h
                (inr (grown-InBody p taken v (omega (arith, taken_length, ltb→lt _ _ more))))
                rest_length
              ∙ ap result
                  (sym (split ∙ ap (λ f. then_feed on_packet header f rest) (unfinished more))))
          | inr done ↦ rw done (
              deliver_lem fuel n rest q h block rest_length ih
              ∙ ap result
                  (sym (split ∙ ap (λ f. then_feed on_packet header f rest) (finished done))))
        ])
    where
      k : ℕ
      k = min (length (b ∷ bytes)) (p.body_len + 2 - p.packet_pos)

      taken : List ℕ
      taken = take k (b ∷ bytes)

      rest : List ℕ
      rest = drop k (b ∷ bytes)

      q : PacketParser
      q = grown p taken

      taken_length : length taken ≡ k
      taken_length = omega (arith, length-take k (b ∷ bytes))

      rest_length : length rest ≤ n
      rest_length = omega (arith, length-drop k (b ∷ bytes))

      block : length q.packet.buf ≡ packet_buffer_size
      block = length-write_at p.packet.buf p.packet.packet_size taken ∙ v.valid.block

      split :
          feed_all on_packet header p h (b ∷ bytes)
          ≡ then_feed on_packet header (body_fed on_packet q h) rest
      split = feed_taken b bytes p h k v (omega arith) (omega arith) (omega arith)

      unfinished :
          ltb (p.packet_pos + k) (p.body_len + 2) ≡ true → body_fed on_packet q h ≡ running q h
      unfinished more = rw (taken_length, more)

      finished :
          ltb (p.packet_pos + k) (p.body_len + 2) ≡ false
          → body_fed on_packet q h ≡ hand_over on_packet q h
      finished done = rw (taken_length, done)
