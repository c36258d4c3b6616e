-- ===== src/PacketParser/Handlers.antt =====
-- What the parser leaves of a state that its handler keeps.
use thero_logic_server.Base.{
  ℕ, zero, suc, ◌+◌, ltb, leb, inl, inr, Bool-cases, if_elim, List, [], ◌∷◌,
}
use thero_logic_server.Base.Int.{ℤ, pos, negsuc}
use thero_logic_server.Packet.{Packet, packet_header_size}
use thero_logic_server.PacketParser.{
  Status, req_request, req_header, req_body, req_done, req_process, req_error, PacketParser,
  OnPacket, put_byte, parse_header,
}
use thero_logic_server.PacketParser.Bytes.{
  Fed, running, ended, grown, hand_over, header_fed, feed, feed_all, then_feed, feed_all-cons,
}

module _ {H : Type 0} (on_packet : OnPacket H) (P : H → Type 0)
    (keeps : (p : Packet) (h : H) → P h → P ((on_packet p h).2)) where
  abbrev pub Holds : Fed H → Type 0
  Holds (running p h) = P h
  Holds (ended r p h) = P h

  hand_over-Holds : (p : PacketParser) (h : H) → P h → Holds (hand_over on_packet p h)
  hand_over-Holds p h v = elim (Bool-cases (on_packet p.packet h).0) [
    | inl refused ↦ rw refused (keeps p.packet h v)
    | inr taken ↦ rw taken (keeps p.packet h v)
  ]

  header_fed-Holds : (r : ℤ × PacketParser) (h : H) → P h → Holds (header_fed on_packet r h)
  header_fed-Holds (pos zero, p) h v =
      if_elim Holds (leb (p.body_len + 2) packet_header_size) _ _
        (λ _. hand_over-Holds (record p { status = req_body }) h v) (λ _. v)
  header_fed-Holds (pos (suc n), p) h v = v
  header_fed-Holds (negsuc n, p) h v = v

  feed-Holds :
      (s : Status) (p : PacketParser) (h : H) (b : ℕ)
      → P h
      → Holds (feed on_packet parse_header s p h b)
  unfolding feed
  feed-Holds req_request p h b v =
      if_elim Holds (ltb (p.packet_pos + 1) packet_header_size) _ _ (λ _. v)
        (λ _. header_fed-Holds (parse_header (put_byte p b)) h v)
  feed-Holds req_body p h b v =
      if_elim Holds (ltb (p.packet_pos + 1) (p.body_len + 2)) _ _ (λ _. v)
        (λ _. hand_over-Holds (grown p (b ∷ [])) h v)
  feed-Holds req_header p h b v = v
  feed-Holds req_done p h b v = v
  feed-Holds req_process p h b v = v
  feed-Holds req_error p h b v = v

  then_feed-Holds :
      (bytes : List ℕ) (f : Fed H)
      → ((p : PacketParser) (h : H) → P h → Holds (feed_all on_packet parse_header p h bytes))
      → Holds f
      → Holds (then_feed on_packet parse_header f bytes)
  then_feed-Holds bytes (running p h) ih v = ih p h v
  then_feed-Holds bytes (ended r p h) ih v = v

  pub feed_all-Holds :
      (bytes : List ℕ) (p : PacketParser) (h : H)
      → P h
      → Holds (feed_all on_packet parse_header p h bytes)
  unfolding feed_all
  feed_all-Holds [] p h v = v
  feed_all-Holds (b ∷ bytes) p h v =
      rw (feed_all-cons on_packet parse_header b bytes p h)
        (then_feed-Holds bytes _ (feed_all-Holds bytes) (feed-Holds p.status p h b v))
