-- ===== src/Packet.antt =====
-- GameLib/PacketBase.h, class `PacketBase`: the packet's buffer, its two cursors, and the reads and
-- writes below the typed ones.
-- `m_nPacketSize` and `m_nBufPos` are `int`s, so bit patterns whose sums wrap. A `memcpy` or an access
-- outside `m_strBuf`, or with a negative size, is a fault, `none`. Where a `memcpy` overlaps itself,
-- in `_ReadDel` and `_Insert`, it is taken to copy as `memmove` does.
pub mod Input
pub mod Output
pub mod Access
pub mod Fields
pub mod Frames
pub mod Reads
mod Tests
use thero_logic_server.Base.{
  ℕ, ◌+◌, ◌-◌, ◌*◌, ◌^◌, Bool, true, false, ◌&&◌, ◌||◌, not, ltb, leb, ◌==◌, if◌then◌else◌, Option,
  none, some, ◌>>=◌, List, [], ◌∷◌, ◌++◌, length, take, drop, slice, write_at, copy_from, copy_to,
}
use thero_logic_server.Base.Words.{int_add, int_sub, int_lt, be16, be32, of_be, short_to_int}

pub record Packet : Type 0 where
  pub buf : List ℕ
  pub packet_size : ℕ
  pub buf_pos : ℕ

abbrev pub packet_header_size : ℕ
packet_header_size = 9

abbrev pub packet_buffer_size : ℕ
packet_buffer_size = 1024 * 4

abbrev pub server_packet_default_ver : ℕ
server_packet_default_ver = 1

abbrev pub server_packet_default_subver : ℕ
server_packet_default_subver = 1

-- `_reset`
abbrev pub reset : Packet → Packet
reset p = record p { packet_size = packet_header_size; buf_pos = packet_header_size }

-- `_copy`; the assertion at its end is a fault where it fails
unfoldable pub copy : Packet → List ℕ → Option (Bool × Packet)
copy p src =
    if ltb packet_buffer_size (length src)
    then some (false, p)
    else if ltb (length src) packet_header_size
    then none
    else (do
      m ← copy_to p.buf 0 src
      some (true, record p { buf = m; packet_size = length src; buf_pos = packet_header_size }))

-- the test of `_readHeader` and `_writeHeader`
abbrev pub in_header : ℕ → ℕ → Bool
in_header len at = ltb 0 at || ltb (at + len) packet_header_size

-- `_writeHeader`. Every call writes inside the first 9 bytes.
abbrev pub write_header : Packet → ℕ → List ℕ → Packet
write_header p at src =
    if in_header (length src) at then record p { buf = write_at p.buf at src } else p

-- `_readHeader`; a call that fails the test leaves the caller's variable uninitialised, and none does
abbrev pub read_header : Packet → ℕ → ℕ → List ℕ
read_header p len at = if in_header len at then slice p.buf at len else []

-- `_begin`
unfoldable pub begin : Packet → ℕ → ℕ → ℕ → Packet
begin p cmd version sub_version =
    let p1 = write_header (reset p) 2 (b'B' ∷ b'Y' ∷ []) in
    let p2 = write_header p1 4 (version ∷ []) in
    let p3 = write_header p2 5 (sub_version ∷ []) in write_header p3 6 (be16 cmd)

-- `_SetBegin`
unfoldable pub set_begin : Packet → ℕ → Packet
set_begin p cmd = write_header p 6 (be16 cmd)

-- `_SetProxyId`
unfoldable pub set_proxy_id : Packet → ℕ → Packet
set_proxy_id p id = write_header p 2 (be32 id)

unfoldable pub get_cmd_type : Packet → ℕ
get_cmd_type p = of_be (read_header p 2 6) 0

unfoldable pub get_proxy_id : Packet → ℕ
get_proxy_id p = of_be (read_header p 4 2) 0

unfoldable pub get_version : Packet → ℕ
get_version p = of_be (read_header p 1 4) 0

unfoldable pub get_sub_version : Packet → ℕ
get_sub_version p = of_be (read_header p 1 5) 0

-- a `short`: 0xffff stands for -1
unfoldable pub get_body_length : Packet → ℕ
get_body_length p = of_be (read_header p 2 0) 0

unfoldable pub get_check_code : Packet → ℕ
get_check_code p = of_be (read_header p 1 8) 0

-- `_end`
unfoldable pub end : Packet → Packet
end p = let p1 = write_header p 0 (be16 (int_sub p.packet_size 2)) in write_header p1 8 (0 ∷ [])

-- `_oldend`; `ntohs` is `htons`
unfoldable pub old_end : Packet → Packet
old_end p = write_header p 0 (be16 (int_sub p.packet_size 2))

-- the `memcpy` that follows a test: from an offset, of a size, both `int`s
abbrev pub fetch : Packet → ℕ → ℕ → Option (List ℕ)
fetch p at len = if ltb at (2 ^ 31) && ltb len (2 ^ 31) then copy_from p.buf at len else none

-- `_Read`: `false` if what is asked for reaches behind the packet. What goes through `pOut` is the
-- inner option, and `none` there is the result `false`.
unfoldable pub read : Packet → ℕ → Option (Option (List ℕ) × Packet)
read p len =
    if int_lt p.packet_size (int_add len p.buf_pos)
      || int_lt packet_buffer_size (int_add len p.buf_pos)
    then some (none, p)
    else (do
      out ← fetch p p.buf_pos len
      some (some out, record p { buf_pos = int_add p.buf_pos len }))

-- `_ReadDel`: what was read is cut out of the buffer
unfoldable pub read_del : Packet → ℕ → Option (Option (List ℕ) × Packet)
unfolding end
read_del p len = do
  r ← read p len
  elim r.0 [
    | none ↦ some (none, r.1)
    | some out ↦ (do
      let q = r.1
      moved ← fetch q q.buf_pos (int_sub packet_buffer_size q.buf_pos)
      m ← copy_to q.buf (int_sub q.buf_pos len) moved
      some (
        some out,
        end (record q {
          buf = m;
          buf_pos = int_sub q.buf_pos len;
          packet_size = int_sub q.packet_size len;
        }),
      ))
  ]

-- `_readundo`
abbrev pub read_undo : Packet → ℕ → Packet
read_undo p len = record p { buf_pos = int_sub p.buf_pos len }

-- `_readpoint`: the offset of the returned pointer, `none` for NULL
unfoldable pub read_point : Packet → ℕ → Option ℕ × Packet
read_point p len =
    if int_lt p.packet_size (int_add len p.buf_pos)
    then (none, p)
    else (some p.buf_pos, record p { buf_pos = int_add p.buf_pos len })

-- `_Write` of a buffer; its length is never negative
unfoldable pub write : Packet → List ℕ → Option (Bool × Packet)
write p src =
    if int_lt p.packet_size 0 || int_lt packet_buffer_size (int_add (length src) p.packet_size)
    then some (false, p)
    else (do
      m ← copy_to p.buf p.packet_size src
      some (true, record p { buf = m; packet_size = int_add p.packet_size (length src) }))

-- `_Insert`: a value in front of the body
unfoldable pub insert : Packet → List ℕ → Option (Bool × Packet)
unfolding end
insert p src =
    if int_lt packet_buffer_size (int_add (length src) p.packet_size) then some (false, p) else (do
      body ← fetch p packet_header_size (int_sub p.packet_size packet_header_size)
      m ← copy_to p.buf (packet_header_size + length src) body
      m' ← copy_to m packet_header_size src
      some (true, end (record p { buf = m'; packet_size = int_add p.packet_size (length src) })))

-- `_writezero`
unfoldable pub write_zero : Packet → Option (Bool × Packet)
write_zero p = if int_lt packet_buffer_size (int_add p.packet_size 1) then some (false, p) else (do
  m ← copy_to p.buf p.packet_size (0 ∷ [])
  some (true, record p { buf = m; packet_size = int_add p.packet_size 1 }))
