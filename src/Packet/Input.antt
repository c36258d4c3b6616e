-- ===== src/Packet/Input.antt =====
-- GameLib/PacketBase.h, class `NETInputPacket`: the typed reads. A read that is refused gives what the
-- variable was initialised with, turned by `ntohl` or `ntohs` as the code does.
-- `unsigned long` has 8 bytes, the least significant first in memory.
use thero_logic_server.Base.{
  ℕ, ◌^◌, ◌-◌, ◌==◌, if◌then◌else◌, Option, none, some, ◌>>=◌, List, [], ◌∷◌, take, drop,
}
use thero_logic_server.Base.Words.{int_lt, minus_one, of_be}
use thero_logic_server.Packet.{Packet, read, read_del, read_undo, read_point}

abbrev pub read_number : ℕ → ℕ → Packet → Option (ℕ × Packet)
read_number width refused p = do
  r ← read p width
  elim r.0 [ none ↦ some (refused, r.1) | some out ↦ some (of_be out 0, r.1) ]

unfoldable pub read_int : Packet → Option (ℕ × Packet)
read_int = read_number 4 minus_one

-- `nValue` is 0 if the read is refused
unfoldable pub read_uint : Packet → Option (ℕ × Packet)
read_uint = read_number 4 0

unfoldable pub read_short : Packet → Option (ℕ × Packet)
read_short = read_number 2 (2 ^ 16 - 1)

unfoldable pub read_byte : Packet → Option (ℕ × Packet)
read_byte = read_number 1 255

-- `ntohl` keeps the low half of the 8 bytes, which stands first, and -1 becomes 0xffffffff
unfoldable pub read_ulong : Packet → Option (ℕ × Packet)
read_ulong p = do
  r ← read p 8
  elim r.0 [ none ↦ some (minus_one, r.1) | some out ↦ some (of_be (take 4 out) 0, r.1) ]

unfoldable pub read_int_del : Packet → Option (ℕ × Packet)
read_int_del p = do
  r ← read_del p 4
  elim r.0 [ none ↦ some (minus_one, r.1) | some out ↦ some (of_be out 0, r.1) ]

-- `ReadString(char *, int)`: what goes through `pOutString`, `none` for the result `false`
unfoldable pub read_string_into : Packet → ℕ → Option (Option (List ℕ) × Packet)
unfolding read_int
read_string_into p max_len = do
  r ← read_int p
  if r.0 == minus_one
      then some (none, r.1)
      else if int_lt max_len r.0
      then some (none, read_undo r.1 2)
      else read r.1 r.0

-- `ReadChar`: the offset of the returned pointer, `none` for NULL
unfoldable pub read_char : Packet → Option (Option ℕ × Packet)
unfolding read_int
read_char p = do
  r ← read_int p
  if r.0 == minus_one then some (none, r.1) else some (read_point r.1 r.0)

-- the C string at the head of some bytes: up to the first 0. With none there, the reader leaves the
-- buffer.
unfoldable pub c_string : List ℕ → Option (List ℕ)
c_string [] = none
c_string (b ∷ bs) =
    let rest = (c_string bs >>= λ s. some (b ∷ s)) in if b == 0 then some [] else rest

-- `ReadString(void)`
unfoldable pub read_string : Packet → Option (List ℕ × Packet)
unfolding read_char c_string
read_string p = do
  r ← read_char p
  elim r.0 [ none ↦ some ([], r.1) | some at ↦ (c_string (drop at r.1.buf) >>= λ s. some (s, r.1)) ]

-- `ReadBinary`: the result, -1 or 0 if nothing is copied, and what goes through `pBuf`
unfoldable pub read_binary : Packet → ℕ → Option (ℕ × List ℕ × Packet)
unfolding read_int
read_binary p max_len = do
  r ← read_int p
  if r.0 == minus_one
      then some (minus_one, [], r.1)
      else if int_lt max_len r.0
      then some (minus_one, [], read_undo r.1 4)
      else (do
        s ← read r.1 r.0
        elim s.0 [ none ↦ some (0, [], s.1) | some out ↦ some (r.0, out, s.1) ])
