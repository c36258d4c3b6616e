-- ===== src/SocketHandler/Delivery.antt =====
-- From `BuildPackage` and `EncryptBuffer` on one side to the server's `ProcessPacket` on the other.
use thero_logic_server.Base.{
  ℕ, ◌≡◌, refl, sym, ap, ◌∙◌, inl, Option, none, false, some, List, [], ◌∷◌, ◌++◌, append_assoc,
  append-nil, map, length, length-map, length-write_at, arith,
}
use thero_logic_server.Base.Int.{pos}
use thero_logic_server.Packet.{packet_buffer_size}
use thero_logic_server.Packet.Fields.{encode_all}
use thero_logic_server.Packet.Reads.{Kind}
use thero_logic_server.EncryptDecrypt.{map_send_byte}
use thero_logic_server.EncryptDecrypt.Frames.{code_of}
use thero_logic_server.PacketParser.{PacketParser, parse_header, reset}
use thero_logic_server.PacketParser.Bytes.{running, feed_all}
use thero_logic_server.PacketParser.Body.{KeepsBlock}
use thero_logic_server.PacketParser.Ready.{joined}
use thero_logic_server.PacketParser.Frames.{IsFresh, received, feed_all-frame}
use thero_logic_server.SocketHandler.Blocks.{on_packet_complete-KeepsBlock}
use thero_logic_server.SocketHandler.{SocketHandler, on_packet_complete}
use thero_logic_server.SocketHandler.Reads.{AllPlain, opened, after, reads, reads-feed_all}
use thero_logic_server.SocketHandler.Messages.{
  Message, transmitted_all, Log, note_packet, IsSendable, wire_of, transmitted_lem, decrypted,
  entry, completed,
}

reset-IsFresh : (p : PacketParser) → length p.packet.buf ≡ packet_buffer_size → IsFresh (reset p)
reset-IsFresh p b = record {
  header = record { status = refl; within = omega arith; block = b; size = refl; cursor = refl };
  start = refl;
}

note_packet-KeepsBlock :
    (kinds : ℕ → List Kind) → KeepsBlock (on_packet_complete (note_packet kinds))
note_packet-KeepsBlock kinds =
    on_packet_complete-KeepsBlock (note_packet kinds) (unfold note_packet in λ p s e. e)

-- One message: the parser goes on with the message noted.
message_lem :
    (kinds : ℕ → List Kind) (m : Message) (rest : List ℕ) (p : PacketParser) (h : SocketHandler)
    (log : Log)
    → IsSendable kinds m
    → IsFresh p
    → (p' : PacketParser) × IsFresh p'
      × (feed_all
            (on_packet_complete (note_packet kinds))
            parse_header
            p
            (some (h, log))
            (wire_of m ++ rest)
          ≡ feed_all
              (on_packet_complete (note_packet kinds))
              parse_header
              p'
              (some (h, log ++ (entry m ∷ [])))
              rest)
message_lem kinds m rest p h log v f = (
  p',
  reset-IsFresh (record (received p (wire_of m)) { packet = decrypted m p.packet.buf })
      (length-write_at p.packet.buf 0 _ ∙ f.header.block),
  feed_all-frame (on_packet_complete (note_packet kinds)) (note_packet-KeepsBlock kinds) p
        (some (h, log)) m.cmd (code_of (encode_all m.fields))
        (map map_send_byte (encode_all m.fields)) rest f v.some_cmd v.legal_cmd
        (omega (arith, v.room, length-map (encode_all m.fields) map_send_byte))
      ∙ rw
          (completed kinds m v p.packet.buf f.header.block h log (length (wire_of m))
            (omega (arith, length-map (encode_all m.fields) map_send_byte)))
          refl,
)
  where
    p' : PacketParser
    p' = reset (record (received p (wire_of m)) { packet = decrypted m p.packet.buf })

-- the bytes on the wire, or none
abbrev bytes_of : Option (List ℕ) → List ℕ
bytes_of none = []
bytes_of (some bytes) = bytes

some_injective : {xs ys : List ℕ} → some xs ≡ some ys → xs ≡ ys
some_injective e = ap bytes_of e

abbrev pub AllSendable : (ℕ → List Kind) → List Message → Type 0
AllSendable kinds [] = Unit {0}
AllSendable kinds (m ∷ ms) = IsSendable kinds m × AllSendable kinds ms

abbrev pub all_wires : List Message → List ℕ
all_wires [] = []
all_wires (m ∷ ms) = wire_of m ++ all_wires ms

-- The bytes of packets that are built by `BuildPackage` and encrypted are whole frames, one after
-- another: length, "BY", version, sub-version, command, the check code of the encoded fields, and
-- these fields mapped byte by byte. The conditions are those of a packet that can be sent.
pub transmitted_all_lem :
    (kinds : ℕ → List Kind) (ms : List Message)
    → AllSendable kinds ms
    → transmitted_all ms ≡ some (all_wires ms)
unfolding transmitted_all
transmitted_all_lem kinds [] v = refl
transmitted_all_lem kinds (m ∷ ms) v =
    rw (transmitted_lem kinds m v.0, transmitted_all_lem kinds ms v.1) refl

messages_lem :
    (kinds : ℕ → List Kind) (ms : List Message) (p : PacketParser) (h : SocketHandler) (log : Log)
    → AllSendable kinds ms
    → IsFresh p
    → (p' : PacketParser) × IsFresh p'
      × (feed_all
            (on_packet_complete (note_packet kinds))
            parse_header
            p
            (some (h, log))
            (all_wires ms)
          ≡ running p' (some (h, log ++ map entry ms)))
unfolding feed_all
messages_lem kinds [] p h log v f = (p, f, ap (λ t. running p (some (h, t))) (sym (append-nil log)))
messages_lem kinds (m ∷ ms) p h log v f =
    let (p1, f1, e1) = message_lem kinds m (all_wires ms) p h log v.0 f in
    let (p2, f2, e2) = messages_lem kinds ms p1 h (log ++ (entry m ∷ [])) v.1 f1 in
    (
      p2,
      f2,
      e1 ∙ e2 ∙ ap (λ t. running p2 (some (h, t))) (append_assoc log (entry m ∷ []) (map entry ms)),
    )

-- What is sent arrives: packets that are built by `BuildPackage`, encrypted and sent one after another, whose bytes are
-- cut into chunks on the way, and received by a call of `handle_read` for each chunk, arrive at the server's
-- `ProcessPacket` each once, in order, with its command and, read by the kinds that go with the command, its fields. No
-- call fails, the parser waits for a packet behind the last one, and the connection is as it was but for its status and
-- its stopped timer. The conditions are that each command is from 1 to 31999, that the fields fit in the packet and are
-- values that the wire carries, that the receiver waits for a packet and its connection is not full, and that no chunk is
-- empty or has 23 bytes that begin with "<p", which `OnParser` takes for a request for the policy file.
pub sent-arrives :
    (kinds : ℕ → List Kind) (ms : List Message) (memory : List ℕ) (chunks : List (List ℕ))
    (p : PacketParser) (h : SocketHandler) (log : Log)
    → AllSendable kinds ms
    → IsFresh p
    → h.tcp.full ≡ false
    → AllPlain chunks
    → transmitted_all ms ≡ some (joined chunks)
    → (p' : PacketParser) × IsFresh p'
      × (reads (note_packet kinds) memory chunks (some p) h log
          ≡ some (pos 0, some p', after chunks h, log ++ map entry ms))
sent-arrives kinds ms memory chunks p h log v f full plain e =
    let (p', f', g) = messages_lem kinds ms p (opened h) log v f in
    (
      p',
      f',
      reads-feed_all kinds (note_packet-KeepsBlock kinds) memory chunks p p' h log
          (log ++ map entry ms) (inl f.header) full plain
          (ap
              (feed_all (on_packet_complete (note_packet kinds)) parse_header p
                (some (opened h, log)))
              (some_injective (sym e ∙ transmitted_all_lem kinds ms v))
            ∙ g),
    )
