-- ===== src/PacketParser/Header.antt =====
-- The parser's header phase on a chunk of bytes, against the bytewise parser.
use thero_logic_server.Base.{
  ℕ, zero, suc, ◌+◌, ◌-◌, ◌≤◌, ◌<◌, ◌≡◌, refl, sym, ap, ◌∙◌, inl, inr, Bool, true, false, ltb, leb,
  if◌then◌else◌, lt→ltb, ltb→lt, leb→le, leb_false→ltb, Bool-cases, some, List, [], ◌∷◌, length,
  arith, length-write_at,
}
use thero_logic_server.Base.Int.{ℤ, pos, negsuc}
use thero_logic_server.Packet.{packet_header_size, packet_buffer_size}
use thero_logic_server.PacketParser.{
  req_request, req_body, PacketParser, OnPacket, put_byte, read_header_loop, parse_body, in_body,
  header_parsed, in_header,
}
use thero_logic_server.PacketParser.Bytes.{
  running, result, header_fed, feed, feed_all, then_feed, feed_all_at, InHeader, InBody,
}
use thero_logic_server.PacketParser.Body.{
  SetsLength, KeepsBlock, resume, Follows, put_byte-InHeader, deliver_lem, in_body_lem,
}

module _ {H : Type 0} (on_packet : OnPacket H) (header : PacketParser → ℤ × PacketParser)
    (sets : SetsLength header) (keeps : KeepsBlock on_packet) where
  pub opened-InBody :
      (p : PacketParser) (len : ℕ)
      → length p.packet.buf ≡ packet_buffer_size
      → p.packet_pos ≡ packet_header_size
      → p.packet.packet_size ≡ packet_header_size
      → p.packet.buf_pos ≡ packet_header_size
      → len < packet_buffer_size - 2
      → packet_header_size < len + 2
      → InBody (record p { status = req_body; body_len = len })
  opened-InBody p len b c s u m k = record {
    status = refl;
    within = omega arith;
    bounded = m;
    size = omega arith;
    valid = record {
      block = b;
      header = omega arith;
      size_in = omega arith;
      pos_from = omega arith;
      pos_in = omega arith;
    };
  }

  waits : (p : PacketParser) → InBody p → parse_body p [] ≡ some (false, p, [])
  unfolding parse_body
  waits p v = ground arith

  parse_body_none :
      (p : PacketParser) (bytes : List ℕ)
      → p.packet_pos ≡ packet_header_size
      → p.body_len + 2 ≤ packet_header_size
      → parse_body p bytes ≡ some (true, p, bytes)
  unfolding parse_body
  parse_body_none p bytes e h = ground arith

  opened_large :
      (fuel n : ℕ) (bytes : List ℕ) (p : PacketParser) (h : H)
      → InBody p
      → length bytes ≤ n
      → Follows on_packet header fuel n
      → resume on_packet header fuel (in_body on_packet p h bytes)
        ≡ result (feed_all on_packet header p h bytes)
  opened_large fuel n [] p h v l ih = rw (waits p v) (ih [] p h (inr v) l)
  opened_large fuel n (b ∷ bytes) p h v l ih =
      in_body_lem on_packet header sets keeps fuel n b bytes p h v (omega arith) ih

  -- the body's case right behind the header
  opened_lem :
      (fuel n : ℕ) (bytes : List ℕ) (p : PacketParser) (h : H) (len : ℕ)
      → length p.packet.buf ≡ packet_buffer_size
      → p.packet_pos ≡ packet_header_size
      → p.packet.packet_size ≡ packet_header_size
      → p.packet.buf_pos ≡ packet_header_size
      → len < packet_buffer_size - 2
      → length bytes ≤ n
      → Follows on_packet header fuel n
      → resume on_packet header fuel
          (in_body on_packet (record p { status = req_body; body_len = len }) h bytes)
        ≡ result (
            then_feed on_packet header
              (header_fed on_packet (pos 0, record p { body_len = len }) h)
              bytes)
  opened_lem fuel n bytes p h len b c s u m l ih =
      elim (Bool-cases (leb (len + 2) packet_header_size)) [
        | inl small ↦
            rw (small, parse_body_none q bytes c (leb→le (len + 2) packet_header_size small))
              (deliver_lem on_packet header sets keeps fuel n bytes q h b l ih)
        | inr large ↦ rw large (
            opened_large fuel n bytes q h
              (opened-InBody p len b c s u m (
                ltb→lt packet_header_size (len + 2)
                  (leb_false→ltb (len + 2) packet_header_size large)))
              l ih)
      ]
    where
      q : PacketParser
      q = record p { status = req_body; body_len = len }

  header_done_lem :
      (fuel n : ℕ) (bytes : List ℕ) (p : PacketParser) (h : H)
      → length p.packet.buf ≡ packet_buffer_size
      → p.packet_pos ≡ packet_header_size
      → p.packet.packet_size ≡ packet_header_size
      → p.packet.buf_pos ≡ packet_header_size
      → length bytes ≤ n
      → Follows on_packet header fuel n
      → resume on_packet header fuel (header_parsed on_packet (header p) h bytes)
        ≡ result (then_feed on_packet header (header_fed on_packet (header p) h) bytes)
  header_done_lem fuel n bytes p h b c s u l ih = go (header p) (sets p)
    where
      go :
          (r : ℤ × PacketParser)
          → (r.0 ≡ pos 0
              → (m : ℕ) × (m < packet_buffer_size - 2) × (r ≡ (pos 0, record p { body_len = m })))
          → resume on_packet header fuel (header_parsed on_packet r h bytes)
            ≡ result (then_feed on_packet header (header_fed on_packet r h) bytes)
      go (pos zero, q) k =
          let (m, small, e) = k refl in
          rw (ap (λ r. r.1) e) (opened_lem fuel n bytes p h m b c s u small l ih)
      go (pos (suc c), q) k = refl
      go (negsuc c, q) k = refl

  header_read :
      (p : PacketParser) (bytes : List ℕ)
      → packet_header_size ≤ p.packet_pos
      → read_header_loop p bytes ≡ (p, bytes)
  unfolding read_header_loop
  header_read p [] h = refl
  header_read p (b ∷ bytes) h = ground arith

  header_nil : (p : PacketParser) → read_header_loop p [] ≡ (p, [])
  unfolding read_header_loop
  header_nil p = refl

  header_step :
      (p : PacketParser) (b : ℕ) (bytes : List ℕ)
      → p.packet_pos < packet_header_size
      → read_header_loop p (b ∷ bytes) ≡ read_header_loop (put_byte p b) bytes
  unfolding read_header_loop
  header_step p b bytes h = rw (lt→ltb p.packet_pos packet_header_size h)

  feed_header :
      (b : ℕ) (bytes : List ℕ) (p : PacketParser) (h : H) (t : Bool)
      → InHeader p
      → ltb (p.packet_pos + 1) packet_header_size ≡ t
      → feed_all on_packet header p h (b ∷ bytes)
        ≡ then_feed on_packet header
            (if t then running (put_byte p b) h else header_fed on_packet (header (put_byte p b)) h)
            bytes
  unfolding feed
  feed_header b bytes p h t v e =
      feed_all_at on_packet header b bytes p h req_request v.status
      ∙ ap
          (λ t.
            then_feed on_packet header
              (if t
                then running (put_byte p b) h
                else header_fed on_packet (header (put_byte p b)) h)
              bytes)
          e

  -- a header that these bytes do not complete
  header_more_lem :
      (fuel n b : ℕ) (bytes : List ℕ) (p : PacketParser) (h : H)
      → InHeader p
      → ltb (p.packet_pos + 1) packet_header_size ≡ true
      → resume on_packet header fuel
          (in_header on_packet header h (read_header_loop (put_byte p b) bytes))
        ≡ result (feed_all on_packet header (put_byte p b) h bytes)
      → resume on_packet header fuel (in_header on_packet header h (read_header_loop p (b ∷ bytes)))
        ≡ result (feed_all on_packet header p h (b ∷ bytes))
  header_more_lem fuel n b bytes p h v more ih =
      rw (header_step p b bytes v.within)
        (ih ∙ ap result (sym (feed_header b bytes p h true v more)))

  -- a header that its next byte completes
  header_full_lem :
      (fuel n b : ℕ) (bytes : List ℕ) (p : PacketParser) (h : H)
      → InHeader p
      → ltb (p.packet_pos + 1) packet_header_size ≡ false
      → length bytes ≤ n
      → Follows on_packet header fuel n
      → resume on_packet header fuel (in_header on_packet header h (read_header_loop p (b ∷ bytes)))
        ≡ result (feed_all on_packet header p h (b ∷ bytes))
  header_full_lem fuel n b bytes p h v done l ih =
      rw (header_step p b bytes v.within, header_read q bytes (omega (arith, full)), done)
        (header_done_lem fuel n bytes q h
            (length-write_at p.packet.buf p.packet_pos (b ∷ []) ∙ v.block) full v.size v.cursor l ih
          ∙ ap result (sym (feed_header b bytes p h false v done)))
    where
      q : PacketParser
      q = put_byte p b

      full : p.packet_pos + 1 ≡ packet_header_size
      full = ground (arith, v.within)

  pub in_header_lem :
      (fuel n b : ℕ) (bytes : List ℕ) (p : PacketParser) (h : H)
      → InHeader p
      → length (b ∷ bytes) ≤ suc n
      → Follows on_packet header fuel n
      → resume on_packet header fuel (in_header on_packet header h (read_header_loop p (b ∷ bytes)))
        ≡ result (feed_all on_packet header p h (b ∷ bytes))
  in_header_lem fuel n b [] p h v l ih =
      elim (Bool-cases (ltb (p.packet_pos + 1) packet_header_size)) [
        | inr done ↦ header_full_lem fuel n b [] p h v done (omega arith) ih
        | inl more ↦ header_more_lem fuel n b [] p h v more (
            rw (header_nil (put_byte p b), more)
              (ih [] (put_byte p b) h (inl (put_byte-InHeader p b v (ltb→lt _ _ more)))
                (omega arith)))
      ]
  in_header_lem fuel n b (c ∷ bytes) p h v l ih =
      elim (Bool-cases (ltb (p.packet_pos + 1) packet_header_size)) [
        | inr done ↦ header_full_lem fuel n b (c ∷ bytes) p h v done (omega arith) ih
        | inl more ↦ header_more_lem fuel n b (c ∷ bytes) p h v more (
            in_header_lem fuel n c bytes (put_byte p b) h
              (put_byte-InHeader p b v (ltb→lt _ _ more)) (omega arith) ih)
      ]
