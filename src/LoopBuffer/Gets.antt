-- ===== src/LoopBuffer/Gets.antt =====
-- What `Get`, `Peek` and `Erase` take out.
use thero_logic_server.Base.{
  ℕ, ◌+◌, ◌-◌, ◌≤◌, ◌<◌, ◌≡◌, refl, sym, ap, ◌∙◌, some, List, ◌++◌, length, take, drop, slice, min,
  arith, length-append, length-slice, take-append_le, take-append_ge, drop-append_le,
  drop-append_ge, take-slice, drop-slice, take-slice-min, drop-slice-min, slice_eq,
}
use mathlib.Core.Path.{subst}
use native.Mathlib.Decide.{dec_lt}
use thero_logic_server.LoopBuffer.{LoopBuffer, get, peek, erase}
use thero_logic_server.LoopBuffer.Bounds.{IsValid, contents}

-- What the three operations do with a request for `n` bytes.
abbrev pub Takes : LoopBuffer → ℕ → Type 0
Takes b n =
    (b' : LoopBuffer) × (get b n ≡ some (take n (contents b), b'))
    × (peek b n ≡ some (take n (contents b)))
    × (erase b n ≡ (b', length (take n (contents b))))
    × IsValid b'
    × (contents b' ≡ drop n (contents b))

module _ (b : LoopBuffer) (n : ℕ) (v : IsValid b) where
  take_straight : b.rptr ≤ b.wptr → Takes b n
  unfolding get peek erase
  take_straight h = (
    record b { rptr = b.rptr + k },
    ground (arith, taken, held),
    ground (arith, taken, held),
    ground (arith, taken, held, length-slice b.buf b.rptr k),
    record { block = v.block; write_in = v.write_in; read_in = omega arith; gap = omega arith },
    ground (
      arith,
      dropped,
      held,
      slice_eq b.buf _ _ (b.wptr - (b.rptr + k)) (b.wptr - b.rptr - k) refl (omega arith),
    ),
  )
    where
      k : ℕ
      k = min n (b.wptr - b.rptr)

      held : contents b ≡ slice b.buf b.rptr (b.wptr - b.rptr)
      held = ground arith

      taken : take n (slice b.buf b.rptr (b.wptr - b.rptr)) ≡ slice b.buf b.rptr k
      taken = take-slice-min b.buf b.rptr (b.wptr - b.rptr) n (omega arith)

      dropped :
          drop n (slice b.buf b.rptr (b.wptr - b.rptr))
          ≡ slice b.buf (b.rptr + k) (b.wptr - b.rptr - k)
      dropped = drop-slice-min b.buf b.rptr (b.wptr - b.rptr) n (omega arith)

  -- the request ends before the end of the block, and the bytes held go round it
  take_before_end : b.wptr < b.rptr → n ≤ b.count - b.rptr → Takes b n
  unfolding get peek erase
  take_before_end h k = (
    record b { rptr = b.rptr + n },
    ground (arith, taken, held),
    ground (arith, taken, held),
    ground (arith, taken, held, length-slice b.buf b.rptr n),
    record { block = v.block; write_in = v.write_in; read_in = omega arith; gap = omega arith },
    ground (arith, dropped, held),
  )
    where
      tail : List ℕ
      tail = slice b.buf b.rptr (b.count - b.rptr)

      tail_length : length tail ≡ b.count - b.rptr
      tail_length = omega (arith, length-slice b.buf b.rptr (b.count - b.rptr))

      held : contents b ≡ tail ++ slice b.buf 0 b.wptr
      held = ground arith

      taken : take n (tail ++ slice b.buf 0 b.wptr) ≡ slice b.buf b.rptr n
      taken =
          take-append_le n tail (slice b.buf 0 b.wptr) (omega (arith, tail_length))
          ∙ take-slice b.buf b.rptr (b.count - b.rptr) n k

      dropped :
          drop n (tail ++ slice b.buf 0 b.wptr)
          ≡ slice b.buf (b.rptr + n) (b.count - (b.rptr + n)) ++ slice b.buf 0 b.wptr
      dropped =
          drop-append_le n tail (slice b.buf 0 b.wptr) (omega (arith, tail_length))
          ∙ ap (λ t. t ++ slice b.buf 0 b.wptr)
              (drop-slice b.buf b.rptr (b.count - b.rptr) n k
                ∙ slice_eq b.buf _ _ (b.count - b.rptr - n) (b.count - (b.rptr + n)) refl
                    (omega arith))

  -- the request goes round the end of the block
  take_round : b.wptr < b.rptr → b.count - b.rptr < n → Takes b n
  unfolding get peek erase
  take_round h k = (
    record b { rptr = m },
    ground (arith, taken, held),
    ground (arith, taken, held),
    ground (
      arith,
      taken,
      held,
      tail_length,
      length-append tail (slice b.buf 0 m),
      length-slice b.buf 0 m,
    ),
    record { block = v.block; write_in = v.write_in; read_in = omega arith; gap = omega arith },
    ground (arith, dropped, held),
  )
    where
      m : ℕ
      m = min (n - (b.count - b.rptr)) b.wptr

      tail : List ℕ
      tail = slice b.buf b.rptr (b.count - b.rptr)

      tail_length : length tail ≡ b.count - b.rptr
      tail_length = omega (arith, length-slice b.buf b.rptr (b.count - b.rptr))

      held : contents b ≡ tail ++ slice b.buf 0 b.wptr
      held = ground arith

      rest : n - length tail ≡ n - (b.count - b.rptr)
      rest = omega (arith, tail_length)

      taken : take n (tail ++ slice b.buf 0 b.wptr) ≡ tail ++ slice b.buf 0 m
      taken =
          take-append_ge n tail (slice b.buf 0 b.wptr) (omega (arith, tail_length))
          ∙ ap (λ j. tail ++ take j (slice b.buf 0 b.wptr)) rest
          ∙ ap (λ t. tail ++ t) (take-slice-min b.buf 0 b.wptr _ (omega arith))

      dropped : drop n (tail ++ slice b.buf 0 b.wptr) ≡ slice b.buf m (b.wptr - m)
      dropped =
          drop-append_ge n tail (slice b.buf 0 b.wptr) (omega (arith, tail_length))
          ∙ ap (λ j. drop j (slice b.buf 0 b.wptr)) rest
          ∙ drop-slice-min b.buf 0 b.wptr _ (omega arith)
          ∙ slice_eq b.buf (0 + m) m (b.wptr - m) _ (omega arith) refl

-- `Get` copies out the oldest bytes, as many as are asked for or are there, and removes them; `Peek`
-- copies the same bytes and removes none; `Erase` leaves the ring that `Get` leaves and returns
-- how many bytes that removes.
pub takes_lem : (b : LoopBuffer) (n : ℕ) → IsValid b → Takes b n
takes_lem b n v = elim (dec_lt b.wptr b.rptr) [
  | no h ↦ take_straight b n v (omega arith)
  | yes h ↦ elim (dec_lt (b.count - b.rptr) n) [
    | no k ↦ take_before_end b n v h (omega arith)
    | yes k ↦ take_round b n v h k
  ]
]

pub peek-take : (b : LoopBuffer) (n : ℕ) → IsValid b → peek b n ≡ some (take n (contents b))
peek-take b n v = let (b', g, p, e, v', d) = takes_lem b n v in p

pub erase-drop :
    (b : LoopBuffer) (n : ℕ)
    → IsValid b
    → IsValid (erase b n).0 × (contents (erase b n).0 ≡ drop n (contents b))
erase-drop b n v =
    let (b', g, p, e, v', d) = takes_lem b n v in
    (subst (λ r. IsValid r.0) (sym e) v', ap (λ r. contents r.0) e ∙ d)
