-- ===== src/EncryptDecrypt.antt =====
-- GameLib/EncryptDecrypt.cpp: bytes are replaced by a table, and a check code is added.
-- A loop that leaves the packet's buffer is a fault, `none`.
mod Tables
pub mod RoundTrip
pub mod Packets
pub mod Frames
mod Tests
pub use Tables.{send_byte_map, recv_byte_map}
use thero_logic_server.Base.{
  ℕ, zero, suc, ◌+◌, ◌-◌, ◌%◌, ◌^◌, ◌≡◌, Bool, true, false, not, ◌==◌, if◌then◌else◌, Option, none,
  some, ◌>>=◌, List, [], ◌∷◌, get_elem?, get_or, write_at,
}
use thero_logic_server.Base.Words.{int_sub, int_lt, short_to_int, minus_one}
use thero_logic_server.Packet.{Packet, packet_header_size, get_body_length, get_check_code}
use thero_logic_server.Packet.Output.{OutputPacket, write_check_code}

-- `MapSendByte` and `MapRecvByte`
unfoldable pub map_send_byte : ℕ → ℕ
map_send_byte b = get_or send_byte_map b 0

unfoldable pub map_recv_byte : ℕ → ℕ
map_recv_byte b = get_or recv_byte_map b 0

-- `GetBodyLength() - 7`, and the rounds of a loop up to it
abbrev pub data_size : Packet → ℕ
data_size p = int_sub (short_to_int (get_body_length p)) 7

abbrev pub rounds : ℕ → ℕ
rounds size = if int_lt 0 size then size else 0

-- the loop of `EncryptBuffer`, from byte `i` on: the check code and the buffer
unfoldable pub encrypt_loop : ℕ → ℕ → ℕ → List ℕ → Option (ℕ × List ℕ)
encrypt_loop zero i code buf = some (code, buf)
encrypt_loop (suc n) i code buf = elim (get_elem? buf i) [
  | none ↦ none
  | some b ↦ encrypt_loop n (suc i) ((code + b) % 256) (write_at buf i (map_send_byte b ∷ []))
]

-- `EncryptBuffer`: the result and the packet
unfoldable pub encrypt_buffer : OutputPacket → Option (ℕ × OutputPacket)
unfolding encrypt_loop get_body_length
encrypt_buffer o = if o.is_check_code then some (0, o) else (do
  let size = data_size o.packet
  r ← encrypt_loop (rounds size) packet_header_size 0 o.packet.buf
  let p = o.packet
  some (size, write_check_code (record o { packet = record p { buf = r.1 } }) (256 - r.0)))

-- the loop of `DecryptBuffer`
unfoldable pub decrypt_loop : ℕ → ℕ → ℕ → List ℕ → Option (ℕ × List ℕ)
decrypt_loop zero i code buf = some (code, buf)
decrypt_loop (suc n) i code buf = elim (get_elem? buf i) [
  | none ↦ none
  | some b ↦
      decrypt_loop n (suc i) ((code + map_recv_byte b) % 256)
        (write_at buf i (map_recv_byte b ∷ []))
]

-- `DecryptBuffer`: the result, -1 if the sum is not 0, and the packet, which is decrypted either way
unfoldable pub decrypt_buffer : Packet → Option (ℕ × Packet)
unfolding decrypt_loop get_body_length get_check_code
decrypt_buffer p = do
  let size = data_size p
  r ← decrypt_loop (rounds size) packet_header_size (get_check_code p) p.buf
  some (if not (r.0 == 0) then minus_one else size, record p { buf = r.1 })
