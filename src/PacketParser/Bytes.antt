-- ===== src/PacketParser/Bytes.antt =====
-- The parser as it would be if it took its bytes one at a time: the description that `ParsePacket`,
-- which takes whole chunks, is compared with.
use thero_logic_server.Base.{
  ℕ, zero, ◌+◌, ◌-◌, ◌<◌, ◌≡◌, refl, sym, ap, ◌∙◌, ◌⊎◌, ltb, leb, if◌then◌else◌, some, List, [],
  ◌∷◌, ◌++◌, length,
}
use thero_logic_server.Base.Int.{ℤ, pos, negsuc}
use thero_logic_server.Packet.{packet_header_size, packet_buffer_size}
use thero_logic_server.Packet.Access.{IsValid, appended}
use thero_logic_server.PacketParser.{
  Status, req_request, req_body, req_done, req_error, PacketParser, OnPacket, put_byte, reset,
  Result,
}

-- The parser goes on, or it has returned.
pub data Fed (H : Type 0) : Type 0 where
  running : PacketParser → H → Fed H
  ended : ℤ → PacketParser → H → Fed H

abbrev pub grown : PacketParser → List ℕ → PacketParser
grown p xs = record p { packet = appended p.packet xs; packet_pos = p.packet_pos + length xs }

module _ {H : Type 0} where
  abbrev pub result : Fed H → Result H
  result (running p h) = some (pos 0, p, h)
  result (ended r p h) = some (r, p, h)

  abbrev pub hand_over : OnPacket H → PacketParser → H → Fed H
  hand_over on_packet p h =
      let (refused, r, h') = on_packet p.packet h in
      let done = record p { status = req_done; packet = r } in
      if refused then ended (negsuc 0) done h' else running (reset done) h'

  -- a packet with a length of 7 or less ends with its header
  abbrev pub header_fed : OnPacket H → ℤ × PacketParser → H → Fed H
  header_fed on_packet (pos zero, p) h =
      let q = record p { status = req_body } in
      if leb (p.body_len + 2) packet_header_size then hand_over on_packet q h else running q h
  header_fed on_packet (ret, p) h = ended ret (record p { status = req_error }) h

  abbrev pub body_fed : OnPacket H → PacketParser → H → Fed H
  body_fed on_packet p h =
      if ltb p.packet_pos (p.body_len + 2) then running p h else hand_over on_packet p h

  unfoldable pub feed :
      OnPacket H → (PacketParser → ℤ × PacketParser) → Status → PacketParser → H → ℕ → Fed H
  feed on_packet header req_request p h b =
      let q = put_byte p b in
      if ltb q.packet_pos packet_header_size then running q h else header_fed on_packet (header q) h
  feed on_packet header req_body p h b = body_fed on_packet (grown p (b ∷ [])) h
  feed on_packet header _ p h b = ended (negsuc 0) p h

  unfoldable pub feed_all :
      OnPacket H → (PacketParser → ℤ × PacketParser) → PacketParser → H → List ℕ → Fed H
  feed_all on_packet header p h [] = running p h
  feed_all on_packet header p h (b ∷ bytes) = elim (feed on_packet header p.status p h b) [
    | running p' h' ↦ feed_all on_packet header p' h' bytes
    | ended r p' h' ↦ ended r p' h'
  ]

  -- what follows some bytes that were fed
  abbrev pub then_feed : OnPacket H → (PacketParser → ℤ × PacketParser) → Fed H → List ℕ → Fed H
  then_feed on_packet header (running p h) bytes = feed_all on_packet header p h bytes
  then_feed on_packet header (ended r p h) bytes = ended r p h

  pub feed_all-cons :
      (on_packet : OnPacket H) (header : PacketParser → ℤ × PacketParser) (b : ℕ) (bytes : List ℕ)
      (p : PacketParser) (h : H)
      → feed_all on_packet header p h (b ∷ bytes)
        ≡ then_feed on_packet header (feed on_packet header p.status p h b) bytes
  unfolding feed_all
  feed_all-cons on_packet header b bytes p h = go (feed on_packet header p.status p h b)
    where
      go :
          (f : Fed H)
          → (elim f as (λ _. Fed H) [
            | running p' h' ↦ feed_all on_packet header p' h' bytes
            | ended r p' h' ↦ ended r p' h'
          ])
            ≡ then_feed on_packet header f bytes
      go (running p' h') = refl
      go (ended r p' h') = refl

  pub feed_all_at :
      (on_packet : OnPacket H) (header : PacketParser → ℤ × PacketParser) (b : ℕ) (bytes : List ℕ)
      (p : PacketParser) (h : H) (s : Status)
      → p.status ≡ s
      → feed_all on_packet header p h (b ∷ bytes)
        ≡ then_feed on_packet header (feed on_packet header s p h b) bytes
  feed_all_at on_packet header b bytes p h s e =
      feed_all-cons on_packet header b bytes p h
      ∙ ap (λ t. then_feed on_packet header (feed on_packet header t p h b) bytes) e

  pub then_feed_nil :
      (on_packet : OnPacket H) (header : PacketParser → ℤ × PacketParser) (f : Fed H)
      → then_feed on_packet header f [] ≡ f
  unfolding feed_all
  then_feed_nil on_packet header (running p h) = refl
  then_feed_nil on_packet header (ended r p h) = refl

  pub feed_all-append :
      (on_packet : OnPacket H) (header : PacketParser → ℤ × PacketParser) (xs ys : List ℕ)
      (p : PacketParser) (h : H)
      → feed_all on_packet header p h (xs ++ ys)
        ≡ then_feed on_packet header (feed_all on_packet header p h xs) ys
  unfolding feed_all
  feed_all-append on_packet header [] ys p h = refl
  feed_all-append on_packet header (x ∷ xs) ys p h =
      feed_all-cons on_packet header x (xs ++ ys) p h
      ∙ go (feed on_packet header p.status p h x) (feed_all-append on_packet header xs ys)
      ∙ ap (λ f. then_feed on_packet header f ys) (sym (feed_all-cons on_packet header x xs p h))
    where
      go :
          (f : Fed H)
          → ((p : PacketParser) (h : H)
              → feed_all on_packet header p h (xs ++ ys)
                ≡ then_feed on_packet header (feed_all on_packet header p h xs) ys)
          → then_feed on_packet header f (xs ++ ys)
            ≡ then_feed on_packet header (then_feed on_packet header f xs) ys
      go (running p' h') ih = ih p' h'
      go (ended r p' h') ih = refl

-- A parser in the middle of a header, and one in the middle of a body.
pub record InHeader (p : PacketParser) : Type 0 where
  pub status : p.status ≡ req_request
  pub within : p.packet_pos < packet_header_size
  pub block : length p.packet.buf ≡ packet_buffer_size
  pub size : p.packet.packet_size ≡ packet_header_size
  pub cursor : p.packet.buf_pos ≡ packet_header_size

pub record InBody (p : PacketParser) : Type 0 where
  pub status : p.status ≡ req_body
  pub within : p.packet_pos < p.body_len + 2
  pub bounded : p.body_len < packet_buffer_size - 2
  pub size : p.packet.packet_size ≡ p.packet_pos
  pub valid : IsValid p.packet

abbrev pub IsReady : PacketParser → Type 0
IsReady p = InHeader p ⊎ InBody p
