-- ===== src/Packet/Access.antt =====
-- The reads and writes below the typed ones, on a packet within its buffer.
use thero_logic_server.Base.{
  ℕ, ◌+◌, ◌-◌, ◌^◌, ◌≤◌, ◌<◌, ◌≡◌, refl, true, false, none, some, List, [], ◌∷◌, ◌++◌, length, ◌∙◌,
  le→leb, length-write_at, length-append, write_at-append, slice, write_at, arith, leb,
  if◌then◌else◌,
}
use thero_logic_server.Packet.{
  Packet, packet_buffer_size, packet_header_size, read, write, write_zero,
}

-- The buffer is whole, and both cursors are behind the header and within it.
pub record IsValid (p : Packet) : Type 0 where
  pub block : length p.buf ≡ packet_buffer_size
  pub header : packet_header_size ≤ p.packet_size
  pub size_in : p.packet_size ≤ packet_buffer_size
  pub pos_from : packet_header_size ≤ p.buf_pos
  pub pos_in : p.buf_pos ≤ p.packet_size

-- `_Write` appends, if there is room, and otherwise changes nothing.
pub write_lem :
    (p : Packet) (src : List ℕ)
    → IsValid p
    → length src < 2 ^ 31 - packet_buffer_size
    → write p src ≡ (
        if leb (p.packet_size + length src) packet_buffer_size
        then some (
          true,
          record p {
            buf = write_at p.buf p.packet_size src;
            packet_size = p.packet_size + length src;
          },
        )
        else some (false, p))
unfolding write
write_lem p src v h = ground arith

pub write_zero_lem :
    (p : Packet)
    → IsValid p
    → write_zero p ≡ (
        if leb (p.packet_size + 1) packet_buffer_size
        then some (
          true,
          record p { buf = write_at p.buf p.packet_size (0 ∷ []); packet_size = p.packet_size + 1 },
        )
        else some (false, p))
unfolding write_zero
write_zero_lem p v = ground arith

-- `_Read` of a size that is not negative gives the next bytes, if the packet has them, and otherwise
-- changes nothing.
pub read_lem :
    (p : Packet) (n : ℕ)
    → IsValid p
    → n < 2 ^ 31 - packet_buffer_size
    → read p n ≡ (
        if leb (p.buf_pos + n) p.packet_size
        then some (some (slice p.buf p.buf_pos n), record p { buf_pos = p.buf_pos + n })
        else some (none, p))
unfolding read
read_lem p n v h = ground arith

-- A negative size passes both tests of `_Read`, and its `memcpy` then faults.
pub read_negative : (p : Packet) (n : ℕ) → IsValid p → 2 ^ 31 ≤ n → n < 2 ^ 32 → read p n ≡ none
unfolding read
read_negative p n v h k = ground arith

-- the packet with bytes written behind its last one
abbrev pub appended : Packet → List ℕ → Packet
appended p xs = record p {
  buf = write_at p.buf p.packet_size xs;
  packet_size = p.packet_size + length xs;
}

pub appended-IsValid :
    (p : Packet) (xs : List ℕ)
    → IsValid p
    → p.packet_size + length xs ≤ packet_buffer_size
    → IsValid (appended p xs)
appended-IsValid p xs v h = omega (arith, length-write_at p.buf p.packet_size xs)

pub appended-appended :
    (p : Packet) (xs ys : List ℕ) → appended (appended p xs) ys ≡ appended p (xs ++ ys)
appended-appended p xs ys = ground (
  arith,
  write_at-append p.buf p.packet_size (p.packet_size + length xs) xs ys refl,
  length-append xs ys,
)

pub write_fits :
    (p : Packet) (xs : List ℕ)
    → IsValid p
    → p.packet_size + length xs ≤ packet_buffer_size
    → write p xs ≡ some (true, appended p xs)
write_fits p xs v h = write_lem p xs v (omega arith) ∙ rw (le→leb _ _ h)

pub write_zero_fits :
    (p : Packet)
    → IsValid p
    → p.packet_size + 1 ≤ packet_buffer_size
    → write_zero p ≡ some (true, appended p (0 ∷ []))
write_zero_fits p v h = write_zero_lem p v ∙ rw (le→leb _ _ h)

pub read_fits :
    (p : Packet) (n : ℕ)
    → IsValid p
    → p.buf_pos + n ≤ p.packet_size
    → read p n ≡ some (some (slice p.buf p.buf_pos n), record p { buf_pos = p.buf_pos + n })
read_fits p n v h = read_lem p n v (omega arith) ∙ rw (le→leb _ _ h)
