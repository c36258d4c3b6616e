-- ===== src/SocketHandler/Messages.antt =====
-- Packets to send, and a server that notes what it is given: what one packet becomes on its way from
-- `BuildPackage` and `EncryptBuffer` to the server's `ProcessPacket`.
use thero_logic_server.Base.{
  ℕ, ◌+◌, ◌-◌, ◌≤◌, ◌<◌, ◌≡◌, refl, ◌∙◌, false, ◌==◌, Option, some, ◌>>=◌, List, [], ◌∷◌, ◌++◌, map,
  length, length-map, write_at, copy_from, length-write_at, slice-write_at, arith,
}
use thero_logic_server.Base.Int.{pos}
use thero_logic_server.Base.Words.{minus_one}
use thero_logic_server.Packet.{Packet, packet_buffer_size, get_cmd_type}
use thero_logic_server.Packet.Output.{OutputPacket, Field, build_package}
use thero_logic_server.Packet.Access.{IsValid}
use thero_logic_server.Packet.Fields.{encode_all}
use thero_logic_server.Packet.Reads.{Kind, kind_of, read_fields, AllInRange, Holds, read_fields_lem}
use thero_logic_server.Packet.Frames.{
  frame, build_package_lem, get_cmd_type-frame, get_body_length-frame, body-frame,
}
use thero_logic_server.EncryptDecrypt.{map_send_byte, encrypt_buffer, data_size}
use thero_logic_server.EncryptDecrypt.RoundTrip.{AllBytes}
use thero_logic_server.EncryptDecrypt.Frames.{code_of, encrypt_buffer-frame, decrypt_buffer-frame}
use thero_logic_server.SocketHandler.{SocketHandler, Process, on_packet_complete, packet_bytes}

-- A package to send: the packet object that it is built in, its command and its fields.
pub record Message : Type 0 where
  pub packet : OutputPacket
  pub cmd : ℕ
  pub fields : List Field

-- the bytes that the socket is given
unfoldable pub transmitted : Message → Option (List ℕ)
transmitted m = do o ← build_package m.packet m.cmd m.fields; e ← encrypt_buffer o; packet_bytes e.1

unfoldable pub transmitted_all : List Message → Option (List ℕ)
unfolding transmitted
transmitted_all [] = some []
transmitted_all (m ∷ ms) = do first ← transmitted m; rest ← transmitted_all ms; some (first ++ rest)

abbrev pub Log : Type 0
Log = List (ℕ × Option (List Field))

-- A server that notes each packet's command and, read by the kinds that go with the command, its fields.
unfoldable pub note_packet : (ℕ → List Kind) → Process Log
note_packet kinds p (h, log) = (
  pos 0,
  p,
  h,
  log ++ ((get_cmd_type p, read_fields (kinds (get_cmd_type p)) p >>= λ r. some r.0) ∷ []),
)

-- the packet is a whole block, the command is legal, the fields fit, and can be read back
pub record IsSendable (kinds : ℕ → List Kind) (m : Message) : Type 0 where
  pub block : length m.packet.packet.buf ≡ packet_buffer_size
  pub some_cmd : 0 < m.cmd
  pub legal_cmd : m.cmd < 32000
  pub room : length (encode_all m.fields) < packet_buffer_size - 9
  pub bytes : AllBytes (encode_all m.fields)
  pub in_range : AllInRange m.fields
  pub known : kinds m.cmd ≡ map kind_of m.fields

abbrev pub wire_of : Message → List ℕ
wire_of m = frame m.cmd (code_of (encode_all m.fields)) (map map_send_byte (encode_all m.fields))

copy_whole :
    (m xs : List ℕ) (n : ℕ)
    → n ≡ length xs
    → length xs ≤ length m
    → copy_from (write_at m 0 xs) 0 n ≡ some xs
copy_whole m xs n e h = ground (arith, length-write_at m 0 xs, slice-write_at m 0 xs)

pub transmitted_lem :
    (kinds : ℕ → List Kind) (m : Message) → IsSendable kinds m → transmitted m ≡ some (wire_of m)
unfolding transmitted
transmitted_lem kinds m v =
    let (r, e) =
      encrypt_buffer-frame m.packet.packet.buf (9 + length (encode_all m.fields)) 9 m.cmd 0
        (encode_all m.fields) v.block (omega (arith, v.room)) v.bytes in
    rw (build_package_lem m.packet m.cmd m.fields v.block (omega (arith, v.room)), e)
      (copy_whole m.packet.packet.buf (wire_of m) _
        (omega (arith, length-map (encode_all m.fields) map_send_byte))
        (omega (arith, v.room, length-map (encode_all m.fields) map_send_byte, v.block)))

-- the packet that `ProcessPacket` is given
abbrev pub decrypted : Message → List ℕ → Packet
decrypted m memory = record {
  buf = write_at memory 0 (frame m.cmd (code_of (encode_all m.fields)) (encode_all m.fields));
  packet_size = 9 + length (encode_all m.fields);
  buf_pos = 9;
}

abbrev pub entry : Message → ℕ × Option (List Field)
entry m = (m.cmd, some m.fields)

module _ (kinds : ℕ → List Kind) (m : Message) (v : IsSendable kinds m) (memory : List ℕ)
    (block : length memory ≡ packet_buffer_size) where
  code : ℕ
  code = code_of (encode_all m.fields)

  size_lem : (data_size (decrypted m memory) == minus_one) ≡ false
  size_lem =
      rw
        (get_body_length-frame (decrypted m memory) memory (length (encode_all m.fields)) m.cmd
          (code_of (encode_all m.fields)) (encode_all m.fields) refl (omega (arith, v.room))
          (omega (arith, v.room)))
        (ground (arith, v.room))

  cmd_lem : get_cmd_type (decrypted m memory) ≡ m.cmd
  cmd_lem =
      get_cmd_type-frame (decrypted m memory) memory (length (encode_all m.fields)) m.cmd
        (code_of (encode_all m.fields)) (encode_all m.fields) refl (omega (arith, v.room))
        (omega (arith, v.legal_cmd))

  decrypted-IsValid : IsValid (decrypted m memory)
  decrypted-IsValid = record {
    block = length-write_at memory 0 _ ∙ block;
    header = omega arith;
    size_in = omega (arith, v.room);
    pos_from = omega arith;
    pos_in = omega arith;
  }

  decrypted-Holds : Holds (decrypted m memory) (encode_all m.fields)
  decrypted-Holds = (
    body-frame (decrypted m memory) memory (length (encode_all m.fields)) m.cmd
        (code_of (encode_all m.fields)) (encode_all m.fields) refl (omega (arith, v.room)),
    omega arith,
  )

  noted :
      (h : SocketHandler) (log : Log)
      → note_packet kinds (decrypted m memory) (h, log)
        ≡ (pos 0, decrypted m memory, h, log ++ (entry m ∷ []))
  unfolding note_packet
  noted h log =
      rw
        (
          cmd_lem,
          v.known,
          read_fields_lem m.fields (decrypted m memory) decrypted-IsValid v.in_range
              decrypted-Holds,
        )
        refl

  pub completed :
      (h : SocketHandler) (log : Log) (s : ℕ)
      → s ≡ 9 + length (encode_all m.fields)
      → on_packet_complete
          (note_packet kinds)
          (record { buf = write_at memory 0 (wire_of m); packet_size = s; buf_pos = 9 })
          (some (h, log))
        ≡ (false, decrypted m memory, some (h, log ++ (entry m ∷ [])))
  unfolding on_packet_complete
  completed h log s e =
      rw
        (
          e,
          on_packet_complete,
          decrypt_buffer-frame memory (9 + length (encode_all m.fields)) 9 m.cmd
              (encode_all m.fields) block (omega (arith, v.room)) v.bytes,
          size_lem,
          noted h log,
        )
        refl
