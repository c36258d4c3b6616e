-- ===== src/LoopBuffer/Bounds.antt =====
-- The ring's well-formedness, its counts, and its capacity.
use thero_logic_server.Base.{
  ℕ, ◌+◌, ◌-◌, ◌≤◌, ◌<◌, ◌≡◌, leb, if◌then◌else◌, List, ◌++◌, length, slice, arith, length-append,
  length-slice, length-replicate,
}
use thero_logic_server.LoopBuffer.{LoopBuffer, hptr, init, free_count, data_count, capacity}

-- The block has `count_` bytes, both pointers lie in it, and one byte at least stays free.
pub record IsValid (b : LoopBuffer) : Type 0 where
  pub block : length b.buf ≡ b.count
  pub write_in : b.wptr ≤ b.count
  pub read_in : b.rptr ≤ b.count
  pub gap : b.wptr < b.count + b.rptr

-- The bytes held, oldest first.
abbrev pub contents : LoopBuffer → List ℕ
contents b =
    if leb b.rptr b.wptr
    then slice b.buf b.rptr (b.wptr - b.rptr)
    else slice b.buf b.rptr (b.count - b.rptr) ++ slice b.buf (hptr b) b.wptr

pub init-IsValid : (n : ℕ) → IsValid (init n)
unfolding init
init-IsValid n = omega (arith, length-replicate (n + 1) (let z : ℕ = 0 in z))

-- `DataCount` and `FreeCount` make up `Count`, and `DataCount` is the number of bytes held.
pub counts_lem :
    (b : LoopBuffer)
    → IsValid b
    → (data_count b + free_count b ≡ capacity b) × (length (contents b) ≡ data_count b)
unfolding data_count free_count
counts_lem b v = ground (
  arith,
  length-slice b.buf b.rptr (b.wptr - b.rptr),
  length-slice b.buf b.rptr (b.count - b.rptr),
  length-slice b.buf 0 b.wptr,
  length-append (slice b.buf b.rptr (b.count - b.rptr)) (slice b.buf 0 b.wptr),
)
