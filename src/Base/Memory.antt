-- ===== src/Base/Memory.antt =====
-- A block of memory as the list of its bytes: a read and a write of a run of bytes, and their laws.
use Prim.Native.Nat.{ℕ, zero, suc, ◌+◌, ◌-◌, ◌≤◌, ◌<◌, min}
use mathlib.Core.Path.{◌≡◌, refl, sym, ap, ap₂, ◌∙◌}
use mathlib.Core.List.{List, [], ◌∷◌, ◌++◌}
use mathlib.Core.Option.{Option, none, some}
use native.Mathlib.Omega.{arith}
use thero_logic_server.Base.Tests.{leb, if◌then◌else◌}
use native.Mathlib.Decide.{dec_le}
use thero_logic_server.Base.Lists.{length, take, drop, take_all, drop_all, get_elem?, get_or}

module _ {ℓ} {A : Type ℓ} where
  -- `n` cells from index `i` on; what lies behind the end of the block is left out
  abbrev pub slice : List A → ℕ → ℕ → List A
  slice [] i n = []
  slice (b ∷ bs) (suc i) n = slice bs i n
  slice (b ∷ bs) zero zero = []
  slice (b ∷ bs) zero (suc n) = b ∷ slice bs zero n

  -- the block with `xs` written from index `i` on; what lies behind its end is not written
  abbrev pub write_at : List A → ℕ → List A → List A
  write_at [] i xs = []
  write_at (b ∷ bs) (suc i) xs = b ∷ write_at bs i xs
  write_at (b ∷ bs) zero [] = b ∷ bs
  write_at (b ∷ bs) zero (x ∷ xs) = x ∷ write_at bs zero xs

omega_suc : (n m : ℕ) → suc n + m ≡ suc (n + m)
omega_suc n m = omega arith

zero_suc : (n : ℕ) → 0 + suc n ≡ suc n
zero_suc n = omega arith

module _ {ℓ} {A : Type ℓ} where
  pub length-write_at : (bs : List A) (i : ℕ) (xs : List A) → length (write_at bs i xs) ≡ length bs
  length-write_at [] i xs = refl
  length-write_at (b ∷ bs) (suc i) xs = ap suc (length-write_at bs i xs)
  length-write_at (b ∷ bs) zero [] = refl
  length-write_at (b ∷ bs) zero (x ∷ xs) = ap suc (length-write_at bs zero xs)

  pub length-slice : (bs : List A) (i n : ℕ) → length (slice bs i n) ≡ min n (length bs - i)
  length-slice [] i n = omega arith
  length-slice (b ∷ bs) (suc i) n = omega (arith, length-slice bs i n)
  length-slice (b ∷ bs) zero zero = omega arith
  length-slice (b ∷ bs) zero (suc n) = omega (arith, length-slice bs zero n)

  pub slice_zero : (bs : List A) (i : ℕ) → slice bs i 0 ≡ []
  slice_zero [] i = refl
  slice_zero (b ∷ bs) (suc i) = slice_zero bs i
  slice_zero (b ∷ bs) zero = refl

  pub write_at_nil : (bs : List A) (i : ℕ) → write_at bs i [] ≡ bs
  write_at_nil [] i = refl
  write_at_nil (b ∷ bs) (suc i) = ap (◌∷◌ b) (write_at_nil bs i)
  write_at_nil (b ∷ bs) zero = refl

  pub slice_eq : (bs : List A) (i j n m : ℕ) → i ≡ j → n ≡ m → slice bs i n ≡ slice bs j m
  slice_eq bs i j n m p q = ap₂ (slice bs) p q

  slice-suc_add :
      (b : A) (bs : List A) (n m : ℕ)
      → slice bs 0 (n + m) ≡ slice bs 0 n ++ slice bs (0 + n) m
      → slice (b ∷ bs) 0 (suc n + m) ≡ b ∷ (slice bs 0 n ++ slice (b ∷ bs) (0 + suc n) m)
  slice-suc_add b bs n m ih =
      rw (omega_suc n m, zero_suc n, ih)
        (ap (λ t. b ∷ (slice bs 0 n ++ t)) (slice_eq bs (0 + n) n m m (omega arith) refl))

  pub slice_add :
      (bs : List A) (i n m : ℕ) → slice bs i (n + m) ≡ slice bs i n ++ slice bs (i + n) m
  slice_add [] i n m = refl
  slice_add (b ∷ bs) (suc i) n m = rw (slice_add bs i n m) (
      ap (λ t. slice bs i n ++ t)
        (slice_eq (b ∷ bs) (suc (i + n)) (suc i + n) m m (omega arith) refl))
  slice_add (b ∷ bs) zero zero m = slice_eq (b ∷ bs) 0 (0 + 0) (0 + m) m (omega arith) (omega arith)
  slice_add (b ∷ bs) zero (suc n) m = slice-suc_add b bs n m (slice_add bs zero n m)

  pub slice-write_at :
      (bs : List A) (i : ℕ) (xs : List A)
      → i + length xs ≤ length bs
      → slice (write_at bs i xs) i (length xs) ≡ xs
  slice-write_at [] i [] h = refl
  slice-write_at [] i (x ∷ xs) h = absurd (omega arith)
  slice-write_at (b ∷ bs) (suc i) xs h = slice-write_at bs i xs (omega arith)
  slice-write_at (b ∷ bs) zero [] h = refl
  slice-write_at (b ∷ bs) zero (x ∷ xs) h = ap (◌∷◌ x) (slice-write_at bs zero xs (omega arith))

  pub slice-write_at_before :
      (bs : List A) (i j n : ℕ) (xs : List A)
      → i + n ≤ j
      → slice (write_at bs j xs) i n ≡ slice bs i n
  slice-write_at_before [] i j n xs h = refl
  slice-write_at_before (b ∷ bs) (suc i) (suc j) n xs h =
      slice-write_at_before bs i j n xs (omega arith)
  slice-write_at_before (b ∷ bs) (suc i) zero n xs h = absurd (omega arith)
  slice-write_at_before (b ∷ bs) zero (suc j) zero xs h = refl
  slice-write_at_before (b ∷ bs) zero (suc j) (suc n) xs h =
      ap (◌∷◌ b) (slice-write_at_before bs zero j n xs (omega arith))
  slice-write_at_before (b ∷ bs) zero zero zero xs h = slice_zero (write_at (b ∷ bs) zero xs) zero
  slice-write_at_before (b ∷ bs) zero zero (suc n) xs h = absurd (omega arith)

  pub slice-write_at_after :
      (bs : List A) (i j n : ℕ) (xs : List A)
      → j + length xs ≤ i
      → slice (write_at bs j xs) i n ≡ slice bs i n
  slice-write_at_after [] i j n xs h = refl
  slice-write_at_after (b ∷ bs) (suc i) (suc j) n xs h =
      slice-write_at_after bs i j n xs (omega arith)
  slice-write_at_after (b ∷ bs) i zero n [] h = refl
  slice-write_at_after (b ∷ bs) (suc i) zero n (x ∷ xs) h =
      slice-write_at_after bs i zero n xs (omega arith)
  slice-write_at_after (b ∷ bs) zero zero n (x ∷ xs) h = absurd (omega arith)
  slice-write_at_after (b ∷ bs) zero (suc j) n xs h = absurd (omega arith)

  pub write_at-append :
      (bs : List A) (i j : ℕ) (xs ys : List A)
      → j ≡ i + length xs
      → write_at (write_at bs i xs) j ys ≡ write_at bs i (xs ++ ys)
  write_at-append [] i j xs ys h = refl
  write_at-append (b ∷ bs) (suc i) (suc j) xs ys h =
      ap (◌∷◌ b) (write_at-append bs i j xs ys (omega arith))
  write_at-append (b ∷ bs) (suc i) zero xs ys h = absurd (omega arith)
  write_at-append (b ∷ bs) zero zero [] ys h = refl
  write_at-append (b ∷ bs) zero (suc j) [] ys h = absurd (omega arith)
  write_at-append (b ∷ bs) zero zero (x ∷ xs) ys h = absurd (omega arith)
  write_at-append (b ∷ bs) zero (suc j) (x ∷ xs) ys h =
      ap (◌∷◌ x) (write_at-append bs zero j xs ys (omega arith))

  pub take-slice : (bs : List A) (i n m : ℕ) → m ≤ n → take m (slice bs i n) ≡ slice bs i m
  take-slice [] i n zero h = refl
  take-slice [] i n (suc m) h = refl
  take-slice (b ∷ bs) (suc i) n m h = take-slice bs i n m h
  take-slice (b ∷ bs) zero n zero h = refl
  take-slice (b ∷ bs) zero zero (suc m) h = absurd (omega arith)
  take-slice (b ∷ bs) zero (suc n) (suc m) h = ap (◌∷◌ b) (take-slice bs zero n m (omega arith))

  pub drop-slice :
      (bs : List A) (i n m : ℕ) → m ≤ n → drop m (slice bs i n) ≡ slice bs (i + m) (n - m)
  drop-slice [] i n zero h = refl
  drop-slice [] i n (suc m) h = refl
  drop-slice (b ∷ bs) (suc i) n m h =
      rw (drop-slice bs i n m h)
        (slice_eq (b ∷ bs) (suc (i + m)) (suc i + m) (n - m) (n - m) (omega arith) refl)
  drop-slice (b ∷ bs) zero n zero h = ap (slice (b ∷ bs) 0) (omega arith)
  drop-slice (b ∷ bs) zero zero (suc m) h = absurd (omega arith)
  drop-slice (b ∷ bs) zero (suc n) (suc m) h = rw (drop-slice bs zero n m (omega arith)) (
      slice_eq (b ∷ bs) (suc (0 + m)) (0 + suc m) (n - m) (suc n - suc m) (omega arith)
        (omega arith))

module _ {ℓ} {A : Type ℓ} where
  pub take-slice-min :
      (bs : List A) (i n m : ℕ) → i + n ≤ length bs → take m (slice bs i n) ≡ slice bs i (min m n)
  take-slice-min bs i n m h = elim (dec_le m n) [
    | yes p ↦ take-slice bs i n m p ∙ slice_eq bs i i m (min m n) refl (omega arith)
    | no p ↦
        take_all m (slice bs i n) (omega (arith, length-slice bs i n))
        ∙ slice_eq bs i i n (min m n) refl (omega arith)
  ]

  pub drop-slice-min :
      (bs : List A) (i n m : ℕ)
      → i + n ≤ length bs
      → drop m (slice bs i n) ≡ slice bs (i + min m n) (n - min m n)
  drop-slice-min bs i n m h = elim (dec_le m n) [
    | yes p ↦
        drop-slice bs i n m p
        ∙ slice_eq bs (i + m) (i + min m n) (n - m) (n - min m n) (omega arith) (omega arith)
    | no p ↦
        drop_all m (slice bs i n) (omega (arith, length-slice bs i n))
        ∙ sym (slice_zero bs (i + min m n))
        ∙ slice_eq bs (i + min m n) (i + min m n) 0 (n - min m n) refl (omega arith)
  ]

-- `memcpy` of `n` bytes out of a block, and of bytes into it. Outside the block it is a fault, `none`.
abbrev pub copy_from : List ℕ → ℕ → ℕ → Option (List ℕ)
copy_from buf off n = if leb (off + n) (length buf) then some (slice buf off n) else none

abbrev pub copy_to : List ℕ → ℕ → List ℕ → Option (List ℕ)
copy_to buf off xs = if leb (off + length xs) (length buf) then some (write_at buf off xs) else none

pub slice-take-drop {ℓ} : {A : Type ℓ} (bs : List A) (i n : ℕ) → slice bs i n ≡ take n (drop i bs)
slice-take-drop [] zero zero = refl
slice-take-drop [] zero (suc n) = refl
slice-take-drop [] (suc i) zero = refl
slice-take-drop [] (suc i) (suc n) = refl
slice-take-drop (b ∷ bs) (suc i) n = slice-take-drop bs i n
slice-take-drop (b ∷ bs) zero zero = refl
slice-take-drop (b ∷ bs) zero (suc n) = ap (◌∷◌ b) (slice-take-drop bs zero n)

module _ {ℓ} {A : Type ℓ} where
  -- writes that do not overlap
  pub write_at_comm :
      (bs : List A) (i j : ℕ) (xs ys : List A)
      → i + length xs ≤ j
      → write_at (write_at bs i xs) j ys ≡ write_at (write_at bs j ys) i xs
  write_at_comm [] i j xs ys h = refl
  write_at_comm (b ∷ bs) (suc i) (suc j) xs ys h =
      ap (◌∷◌ b) (write_at_comm bs i j xs ys (omega arith))
  write_at_comm (b ∷ bs) (suc i) zero xs ys h = absurd (omega arith)
  write_at_comm (b ∷ bs) zero j [] ys h =
      ap (λ t. write_at t j ys) (write_at_nil (b ∷ bs) 0)
      ∙ sym (write_at_nil (write_at (b ∷ bs) j ys) 0)
  write_at_comm (b ∷ bs) zero zero (x ∷ xs) ys h = absurd (omega arith)
  write_at_comm (b ∷ bs) zero (suc j) (x ∷ xs) ys h =
      ap (◌∷◌ x) (write_at_comm bs zero j xs ys (omega arith))

  -- a write over another of the same size
  pub write_at_over :
      (bs : List A) (i : ℕ) (xs ys : List A)
      → length xs ≡ length ys
      → write_at (write_at bs i xs) i ys ≡ write_at bs i ys
  write_at_over [] i xs ys h = refl
  write_at_over (b ∷ bs) (suc i) xs ys h = ap (◌∷◌ b) (write_at_over bs i xs ys h)
  write_at_over (b ∷ bs) zero [] [] h = refl
  write_at_over (b ∷ bs) zero [] (y ∷ ys) h = absurd (omega arith)
  write_at_over (b ∷ bs) zero (x ∷ xs) [] h = absurd (omega arith)
  write_at_over (b ∷ bs) zero (x ∷ xs) (y ∷ ys) h =
      ap (◌∷◌ y) (write_at_over bs zero xs ys (omega arith))

  -- writing back what stands there
  pub write_at-slice : (bs : List A) (i n : ℕ) → write_at bs i (slice bs i n) ≡ bs
  write_at-slice [] i n = refl
  write_at-slice (b ∷ bs) (suc i) n = ap (◌∷◌ b) (write_at-slice bs i n)
  write_at-slice (b ∷ bs) zero zero = refl
  write_at-slice (b ∷ bs) zero (suc n) = ap (◌∷◌ b) (write_at-slice bs zero n)

  -- the first byte of a run
  pub slice-get_elem? :
      (bs : List A) (i n : ℕ)
      → i < length bs
      → (b : A) × (get_elem? bs i ≡ some b) × (slice bs i (suc n) ≡ b ∷ slice bs (suc i) n)
  slice-get_elem? [] i n h = absurd (omega arith)
  slice-get_elem? (b ∷ bs) zero n h = (b, refl, refl)
  slice-get_elem? (b ∷ bs) (suc i) n h = slice-get_elem? bs i n (omega arith)

  pub write_at-cons :
      (bs : List A) (i : ℕ) (x : A) (xs : List A)
      → write_at (write_at bs i (x ∷ [])) (suc i) xs ≡ write_at bs i (x ∷ xs)
  write_at-cons bs i x xs = write_at-append bs i (suc i) (x ∷ []) xs (omega arith)

-- What was written is read back, in whole or in part.
module _ {ℓ} {A : Type ℓ} where
  pub slice-write_at_in :
      (bs : List A) (xs : List A) (i n : ℕ)
      → i + n ≤ length xs
      → length xs ≤ length bs
      → slice (write_at bs 0 xs) i n ≡ slice xs i n
  slice-write_at_in bs xs i n h k =
      sym (take-slice written i (length xs - i) n (omega arith))
      ∙ ap (take n) (
          slice_eq written i (0 + i) _ _ (omega arith) refl
          ∙ sym (drop-slice written 0 (length xs) i (omega arith))
          ∙ ap (drop i) (slice-write_at bs 0 xs (omega arith)))
      ∙ sym (slice-take-drop xs i n)
    where
      written : List A
      written = write_at bs 0 xs

  pub get_or-write_at :
      (bs : List A) (xs : List A) (i : ℕ) (d : A)
      → i < length xs
      → length xs ≤ length bs
      → get_or (write_at bs 0 xs) i d ≡ get_or xs i d
  get_or-write_at [] [] i d h k = refl
  get_or-write_at [] (x ∷ xs) i d h k = absurd (omega arith)
  get_or-write_at (b ∷ bs) [] i d h k = absurd (omega arith)
  get_or-write_at (b ∷ bs) (x ∷ xs) zero d h k = refl
  get_or-write_at (b ∷ bs) (x ∷ xs) (suc i) d h k =
      get_or-write_at bs xs i d (omega arith) (omega arith)
