-- ===== src/Packet/Output.antt =====
-- GameLib/PacketBase.h, class `NETOutputPacket`: the typed writes, and `BuildPackage`.
use thero_logic_server.Base.{
  ℕ, ◌+◌, ◌%◌, Bool, true, false, if◌then◌else◌, Option, some, ◌>>=◌, List, [], ◌∷◌, ◌++◌, length,
}
use thero_logic_server.Base.Words.{be16, be32}
use thero_logic_server.Packet.{
  Packet, write, write_zero, write_header, insert, begin, end, old_end, server_packet_default_ver,
  server_packet_default_subver,
}

-- the packet, and `m_isCheckCode`: whether the check code is in it
pub record OutputPacket : Type 0 where
  pub packet : Packet
  pub is_check_code : Bool

abbrev pub write_int : Packet → ℕ → Option (Bool × Packet)
write_int p n = write p (be32 n)

abbrev pub write_short : Packet → ℕ → Option (Bool × Packet)
write_short p n = write p (be16 n)

abbrev pub write_byte : Packet → ℕ → Option (Bool × Packet)
write_byte p n = write p (n % 256 ∷ [])

-- `htonl` keeps the low half, which stands first in the 8 bytes
abbrev pub write_ulong : Packet → ℕ → Option (Bool × Packet)
write_ulong p n = write p (be32 n ++ (0 ∷ 0 ∷ 0 ∷ 0 ∷ []))

abbrev pub insert_int : Packet → ℕ → Option (Bool × Packet)
insert_int p n = insert p (be32 n)

abbrev pub insert_byte : Packet → ℕ → Option (Bool × Packet)
insert_byte p n = insert p (n % 256 ∷ [])

-- `WriteString`: the result of `WriteInt` is dropped, and `_writezero` runs only after `_Write`
unfoldable pub write_string : Packet → List ℕ → Option (Bool × Packet)
write_string p s = do
  r ← write_int p (length s + 1)
  q ← write r.1 s
  if q.0 then write_zero q.1 else some (false, q.1)

-- `WriteBinary`
unfoldable pub write_binary : Packet → List ℕ → Option (Bool × Packet)
write_binary p bytes = do r ← write_int p (length bytes); write r.1 bytes

-- `Begin`, with its default arguments
unfoldable pub begin_packet : OutputPacket → ℕ → OutputPacket
unfolding begin
begin_packet o cmd = record {
  packet = begin o.packet cmd server_packet_default_ver server_packet_default_subver;
  is_check_code = false;
}

-- `End`
unfoldable pub end_packet : OutputPacket → OutputPacket
unfolding end
end_packet o = record { packet = end o.packet; is_check_code = false }

-- `oldEnd`
unfoldable pub old_end_packet : OutputPacket → OutputPacket
unfolding old_end
old_end_packet o = record { packet = old_end o.packet; is_check_code = false }

-- `WritecbCheckCode`
abbrev pub write_check_code : OutputPacket → ℕ → OutputPacket
write_check_code o code = record {
  packet = write_header o.packet 8 (code % 256 ∷ []);
  is_check_code = true;
}

-- A value that `BuildPackage` takes from its arguments, by the letter of the format that asks for it.
pub data Field : Type 0 where
  int : ℕ → Field
  short : ℕ → Field
  ulong : ℕ → Field
  str : List ℕ → Field

-- the body of the loop of `BuildPackage`
unfoldable pub write_field : Packet → Field → Option (Bool × Packet)
unfolding write_string
write_field p (int n) = write_int p n
write_field p (short n) = write_short p n
write_field p (ulong n) = write_ulong p n
write_field p (str s) = write_string p s

-- The loop: results are dropped. A format and its arguments are the list of the fields that it names;
-- other letters behind `%`, and all text between, write nothing.
unfoldable pub write_fields : Packet → List Field → Option Packet
unfolding write_field
write_fields p [] = some p
write_fields p (f ∷ fs) = write_field p f >>= λ r. write_fields r.1 fs

-- `BuildPackage`; a NULL format is the empty list
unfoldable pub build_package : OutputPacket → ℕ → List Field → Option OutputPacket
unfolding write_fields begin_packet end_packet
build_package o cmd fields = do
  let b = begin_packet o cmd
  p ← write_fields b.packet fields
  some (end_packet (record b { packet = p }))
