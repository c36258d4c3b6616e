-- ===== src/PacketParser/Chunks.antt =====
-- `ParsePacket` on a chunk of any length, against the bytewise parser, and the cut of a stream into chunks.
use thero_logic_server.Base.{
  ℕ, zero, suc, ◌+◌, ◌<◌, ◌≡◌, refl, ap, ◌∙◌, inl, inr, true, false, some, List, [], ◌∷◌, length,
  arith,
}
use thero_logic_server.Base.Int.{ℤ, pos}
use thero_logic_server.PacketParser.{
  Status, req_request, req_body, PacketParser, OnPacket, round, Result, stopped, parse_loop,
  parse_packet, parse_header, parse_proxy_header, parse_proxy_packet,
}
use thero_logic_server.PacketParser.Bytes.{result, feed_all, IsReady}
use thero_logic_server.PacketParser.Body.{
  SetsLength, KeepsBlock, parse_header-SetsLength, parse_proxy_header-SetsLength, resume, Follows,
  in_body_lem,
}
use thero_logic_server.PacketParser.Header.{in_header_lem}

module _ {H : Type 0} (on_packet : OnPacket H) (header : PacketParser → ℤ × PacketParser)
    (sets : SetsLength header) (keeps : KeepsBlock on_packet) where
  loop_step :
      (fuel b : ℕ) (bytes : List ℕ) (p : PacketParser) (h : H) (s : Status)
      → p.status ≡ s
      → parse_loop on_packet header (suc fuel) p h (b ∷ bytes)
        ≡ (elim (stopped s) as (λ _. Result H) [
          | true ↦ some (pos 0, p, h)
          | false ↦ resume on_packet header fuel (round on_packet header s p h (b ∷ bytes))
        ])
  unfolding parse_loop
  loop_step fuel b bytes p h s e =
      ap
        (λ t. elim (stopped t) as (λ _. Result H) [
          | true ↦ some (pos 0, p, h)
          | false ↦ resume on_packet header fuel (round on_packet header t p h (b ∷ bytes))
        ])
        e

  loop_nil :
      (fuel : ℕ) (p : PacketParser) (h : H)
      → parse_loop on_packet header fuel p h [] ≡ result (feed_all on_packet header p h [])
  unfolding parse_loop feed_all
  loop_nil zero p h = refl
  loop_nil (suc fuel) p h = refl

  -- With more fuel than bytes the loop ends, and as the bytewise parser does.
  parse_loop-Follows : (fuel n : ℕ) → n < fuel → Follows on_packet header fuel n
  unfolding round
  parse_loop-Follows fuel n k [] p h v l = loop_nil fuel p h
  parse_loop-Follows zero n k (b ∷ bytes) p h v l = absurd (omega arith)
  parse_loop-Follows (suc fuel) zero k (b ∷ bytes) p h v l = absurd (omega arith)
  parse_loop-Follows (suc fuel) (suc n) k (b ∷ bytes) p h (inl v) l =
      loop_step fuel b bytes p h req_request v.status
      ∙ in_header_lem on_packet header sets keeps fuel n b bytes p h v l
          (parse_loop-Follows fuel n (omega arith))
  parse_loop-Follows (suc fuel) (suc n) k (b ∷ bytes) p h (inr v) l =
      loop_step fuel b bytes p h req_body v.status
      ∙ in_body_lem on_packet header sets keeps fuel n b bytes p h v l
          (parse_loop-Follows fuel n (omega arith))

pub parse_packet-feed_all :
    {H : Type 0} (on_packet : OnPacket H) (p : PacketParser) (h : H) (bytes : List ℕ)
    → KeepsBlock on_packet
    → IsReady p
    → parse_packet on_packet p h bytes ≡ result (feed_all on_packet parse_header p h bytes)
unfolding parse_packet
parse_packet-feed_all on_packet p h bytes keeps v =
    parse_loop-Follows on_packet parse_header parse_header-SetsLength keeps (length bytes + 1)
      (length bytes) (omega arith) bytes p h v (omega arith)

-- `ParseProxyPacket`, which tests nothing of the header but the length, ends on every chunk, and does
-- what the bytewise parser with that test does.
pub parse_proxy_packet-feed_all :
    {H : Type 0} (on_packet : OnPacket H) (p : PacketParser) (h : H) (bytes : List ℕ)
    → KeepsBlock on_packet
    → IsReady p
    → parse_proxy_packet on_packet p h bytes
      ≡ result (feed_all on_packet parse_proxy_header p h bytes)
unfolding parse_proxy_packet
parse_proxy_packet-feed_all on_packet p h bytes keeps v =
    parse_loop-Follows on_packet parse_proxy_header parse_proxy_header-SetsLength keeps
      (length bytes + 1) (length bytes) (omega arith) bytes p h v (omega arith)
