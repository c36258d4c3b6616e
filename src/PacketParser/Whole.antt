-- ===== src/PacketParser/Whole.antt =====
-- `ParsePacket` on a chunk that begins with a whole frame.
use thero_logic_server.Base.{
  ℕ, ◌-◌, ◌<◌, ◌≡◌, refl, sym, ap, ◌∙◌, inl, inr, Bool, Bool-cases, if◌then◌else◌, some, List, ◌++◌,
  length, length-write_at,
}
use thero_logic_server.Base.Int.{negsuc}
use thero_logic_server.Packet.{Packet, packet_buffer_size}
use thero_logic_server.Packet.Frames.{frame}
use thero_logic_server.PacketParser.{
  req_done, PacketParser, OnPacket, Result, parse_header, reset, parse_packet,
}
use thero_logic_server.PacketParser.Bytes.{result, hand_over, then_feed}
use thero_logic_server.PacketParser.Body.{KeepsBlock, parse_header-SetsLength, reset-InHeader}
use thero_logic_server.PacketParser.Chunks.{parse_packet-feed_all}
use thero_logic_server.PacketParser.Frames.{IsFresh, received, feed_all-frame}

module _ {H : Type 0} (on_packet : OnPacket H) where
  -- what `ParsePacket` does with the handler's answer, and with the bytes behind the packet
  abbrev pub handed : PacketParser → List ℕ → Bool × Packet × H → Result H
  handed p rest (refused, q, h) =
      let done = record p { status = req_done; packet = q } in
      if refused then some (negsuc 0, done, h) else parse_packet on_packet (reset done) h rest

module _ {H : Type 0} (on_packet : OnPacket H) (keeps : KeepsBlock on_packet) where
  handed_lem :
      (p : PacketParser) (h : H) (rest : List ℕ)
      → length p.packet.buf ≡ packet_buffer_size
      → result (then_feed on_packet parse_header (hand_over on_packet p h) rest)
        ≡ handed on_packet p rest (on_packet p.packet h)
  handed_lem p h rest k = elim (Bool-cases (on_packet p.packet h).0) [
    | inl refused ↦ rw refused refl
    | inr taken ↦ rw taken (
        sym (
          parse_packet-feed_all on_packet _ _ rest keeps (
            inl (
              reset-InHeader on_packet parse_header parse_header-SetsLength keeps
                (record p { packet = (on_packet p.packet h).1 }) (keeps p.packet h k)))))
  ]

  -- `ParsePacket` of a chunk that begins with a whole frame gives that frame to the handler, in the buffer from its front
  -- on and with the cursor behind the header. If the handler refuses it, `ParsePacket` returns -1 and leaves the bytes
  -- behind the frame; otherwise it does what it does with these bytes alone, once the parser has been reset. The
  -- conditions are that the parser waits for a packet, that the command is from 1 to 31999, that the buffer can hold the
  -- frame, and that the handler keeps the length of the packet's array.
  pub parse_packet-frame :
      (p : PacketParser) (h : H) (cmd code : ℕ) (body rest : List ℕ)
      → IsFresh p
      → 0 < cmd
      → cmd < 32000
      → length body < packet_buffer_size - 9
      → parse_packet on_packet p h (frame cmd code body ++ rest)
        ≡ handed on_packet
            (received p (frame cmd code body))
            rest
            (on_packet (received p (frame cmd code body)).packet h)
  parse_packet-frame p h cmd code body rest v c d s =
      parse_packet-feed_all on_packet p h _ keeps (inl v.header)
      ∙ ap result (feed_all-frame on_packet keeps p h cmd code body rest v c d s)
      ∙ handed_lem (received p (frame cmd code body)) h rest
          (length-write_at p.packet.buf 0 _ ∙ v.header.block)
