-- ===== src/LoopBuffer/Puts.antt =====
-- What `Put` stores.
use thero_logic_server.Base.{
  ℕ, ◌+◌, ◌-◌, ◌≤◌, ◌<◌, ◌≡◌, refl, ap, ◌∙◌, ◌⊎◌, inl, inr, leb, Bool-cases, true, false, none,
  some, List, ◌++◌, append_assoc, length, take, drop, slice, write_at, arith, length-append,
  length-write_at, length-take, take_all, take_add, slice_add, slice_eq, slice-write_at,
  slice-write_at_before, slice-write_at_after,
}
use thero_logic_server.LoopBuffer.{LoopBuffer, put, put_wrapped, free_count, data_count, capacity}
use thero_logic_server.LoopBuffer.Bounds.{IsValid, contents}

-- A run of bytes that is written to its end is that run and the written bytes.
slice-write_at_end :
    (buf : List ℕ) (r w : ℕ) (xs : List ℕ)
    → r ≤ w
    → w + length xs ≤ length buf
    → slice (write_at buf w xs) r (w + length xs - r) ≡ slice buf r (w - r) ++ xs
slice-write_at_end buf r w xs h k =
    slice_eq _ r r (w + length xs - r) (w - r + length xs) refl (omega arith)
    ∙ slice_add (write_at buf w xs) r (w - r) (length xs)
    ∙ rw (slice-write_at_before buf r w (w - r) xs (omega arith)) (
        ap (λ t. slice buf r (w - r) ++ t)
          (slice_eq (write_at buf w xs) (r + (w - r)) w (length xs) (length xs) (omega arith) refl
            ∙ slice-write_at buf w xs k))

-- `put b src` stores `xs` behind the bytes held.
abbrev pub Stores : LoopBuffer → List ℕ → List ℕ → Type 0
Stores b src xs =
    (b' : LoopBuffer) × (put b src ≡ some (b', length xs))
    × IsValid b'
    × (contents b' ≡ contents b ++ xs)

put_straight :
    (b : LoopBuffer) (src : List ℕ)
    → IsValid b
    → b.rptr ≤ b.wptr
    → length src ≤ b.count - b.wptr
    → b.wptr + length src < b.count + b.rptr
    → Stores b src src
unfolding put
put_straight b src v h k g = (
  record b { buf = write_at b.buf b.wptr src; wptr = b.wptr + length src },
  ground arith,
  record {
    block = omega (arith, length-write_at b.buf b.wptr src);
    write_in = omega arith;
    read_in = omega arith;
    gap = omega arith;
  },
  ground (arith, slice-write_at_end b.buf b.rptr b.wptr src h (omega arith)),
)

put_before_reader :
    (b : LoopBuffer) (src xs : List ℕ)
    → IsValid b
    → b.wptr < b.rptr
    → xs ≡ take (b.rptr - b.wptr - 1) src
    → Stores b src xs
unfolding put
put_before_reader b src xs v h e = (
  record b { buf = write_at b.buf b.wptr xs; wptr = b.wptr + length xs },
  ground (arith, take_all (b.rptr - b.wptr - 1) src, fits),
  record {
    block = omega (arith, length-write_at b.buf b.wptr xs);
    write_in = omega (arith, fits);
    read_in = omega arith;
    gap = omega (arith, fits);
  },
  ground (
    arith,
    fits,
    slice-write_at_after b.buf b.rptr b.wptr (b.count - b.rptr) xs,
    slice-write_at_end b.buf 0 b.wptr xs,
    append_assoc (slice b.buf b.rptr (b.count - b.rptr)) (slice b.buf 0 b.wptr) xs,
  ),
)
  where
    fits : length xs ≤ b.rptr - b.wptr - 1
    fits = ground (arith, length-take (b.rptr - b.wptr - 1) src)

put_round :
    (b : LoopBuffer) (src : List ℕ)
    → IsValid b
    → b.rptr ≤ b.wptr
    → b.count - b.wptr < length src
    → 0 < b.rptr
    → Stores b src (take (b.count - b.wptr) src ++ take (b.rptr - 1) (drop (b.count - b.wptr) src))
unfolding put put_wrapped
put_round b src v h k g = (
  record b { buf = write_at (write_at b.buf b.wptr first) 0 rest; wptr = length rest },
  ground (
    arith,
    first_length,
    take_all (b.rptr - 1) (drop (b.count - b.wptr) src),
    length-append first rest,
    length-write_at b.buf b.wptr first,
    fits,
  ),
  record {
    block = omega (
      arith,
      length-write_at (write_at b.buf b.wptr first) 0 rest,
      length-write_at b.buf b.wptr first,
    );
    write_in = omega (arith, fits);
    read_in = omega arith;
    gap = omega (arith, fits);
  },
  ground (
    arith,
    fits,
    first_length,
    length-write_at b.buf b.wptr first,
    slice-write_at_after (write_at b.buf b.wptr first) b.rptr 0 (b.count - b.rptr) rest,
    slice-write_at (write_at b.buf b.wptr first) 0 rest,
    slice-write_at_end b.buf b.rptr b.wptr first,
    append_assoc (slice b.buf b.rptr (b.wptr - b.rptr)) first rest,
  ),
)
  where
    first : List ℕ
    first = take (b.count - b.wptr) src

    rest : List ℕ
    rest = take (b.rptr - 1) (drop (b.count - b.wptr) src)

    fits : length rest ≤ b.rptr - 1
    fits = ground (arith, length-take (b.rptr - 1) (drop (b.count - b.wptr) src))

    first_length : length first ≡ b.count - b.wptr
    first_length = ground (arith, length-take (b.count - b.wptr) src)

-- `Put` stores as many bytes as `FreeCount` says, from the front of what it is given, behind the
-- bytes held, and returns their number, if `rptr_` is not at the head or all the bytes fit.
pub put-Stores :
    (b : LoopBuffer) (src : List ℕ)
    → IsValid b
    → (0 < b.rptr) ⊎ (length src ≤ free_count b)
    → Stores b src (take (free_count b) src)
put-Stores b src v room = elim (Bool-cases (leb b.rptr b.wptr)) [
  | inr before ↦ put_before_reader b src _ v (ground arith) (unfold free_count in rw before)
  | inl behind ↦ elim (Bool-cases (leb (length src) (b.count - b.wptr))) [
    | inl straight ↦
        rw (all_free behind straight room)
          (put_straight b src v (ground arith) (ground arith) (unfold free_count in ground arith))
    | inr round ↦
        rw (split behind round room)
          (put_round b src v (ground arith) (ground arith) (unfold free_count in ground arith))
  ]
]
  where
    all_free :
        leb b.rptr b.wptr ≡ true
        → leb (length src) (b.count - b.wptr) ≡ true
        → (0 < b.rptr) ⊎ (length src ≤ free_count b)
        → take (free_count b) src ≡ src
    all_free p q r = take_all (free_count b) src (unfold free_count in ground arith)

    count :
        leb b.rptr b.wptr ≡ true
        → leb (length src) (b.count - b.wptr) ≡ false
        → (0 < b.rptr) ⊎ (length src ≤ free_count b)
        → free_count b ≡ b.count - b.wptr + (b.rptr - 1)
    count p q r = unfold free_count in ground arith

    split :
        leb b.rptr b.wptr ≡ true
        → leb (length src) (b.count - b.wptr) ≡ false
        → (0 < b.rptr) ⊎ (length src ≤ free_count b)
        → take (free_count b) src
          ≡ take (b.count - b.wptr) src ++ take (b.rptr - 1) (drop (b.count - b.wptr) src)
    split p q r = ap (λ k. take k src) (count p q r) ∙ take_add (b.count - b.wptr) (b.rptr - 1) src

-- With room for all of it, `Put` stores all of it.
pub put_all :
    (b : LoopBuffer) (src : List ℕ) → IsValid b → length src ≤ free_count b → Stores b src src
put_all b src v room = rw (take_all (free_count b) src room) at (put-Stores b src v (inr room))

-- With `rptr_` at the head, a `Put` of one byte more than `FreeCount` says stores them all, and the ring
-- then holds one byte more than `Count` says.
pub put_overruns :
    (b : LoopBuffer) (src : List ℕ)
    → IsValid b
    → b.rptr ≡ 0
    → length src ≡ free_count b + 1
    → (b' : LoopBuffer) × (put b src ≡ some (b', length src)) × (data_count b' ≡ capacity b + 1)
unfolding put put_wrapped free_count data_count
put_overruns b src v at_head one = (
  record b { buf = write_at b.buf b.wptr src; wptr = b.wptr + length src },
  ground arith,
  ground arith,
)

-- With `rptr_` at the head, a `Put` of at least two bytes more than `FreeCount` says calls `memcpy` with
-- a negative size, which faults.
pub put_faults :
    (b : LoopBuffer) (src : List ℕ)
    → IsValid b
    → b.rptr ≡ 0
    → free_count b + 1 < length src
    → put b src ≡ none
unfolding put put_wrapped free_count
put_faults b src v at_head more = ground (arith, length-take (b.count - b.wptr) src)
