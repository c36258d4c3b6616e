-- ===== src/Base/Maps.antt =====
-- A `std::map` from numbers, as the list of its entries.
use Prim.Native.Nat.{ℕ, suc, ◌≤◌, ◌<◌}
use mathlib.Core.Path.{◌≡◌, refl}
use mathlib.Core.Logic.{◌≢◌}
use mathlib.Core.Option.{Option, none, some}
use mathlib.Core.List.{List, [], ◌∷◌}
use native.Mathlib.Omega.{arith}
use thero_logic_server.Base.Tests.{◌==◌, leb, if◌then◌else◌}
use thero_logic_server.Base.Lists.{length}

module _ {ℓ} {A : Type ℓ} where
  -- `find`
  abbrev pub find : ℕ → List (ℕ × A) → Option A
  find k [] = none
  find k ((j, a) ∷ m) = if k == j then some a else find k m

  -- `insert` of a key that is not there
  abbrev pub insert : ℕ → A → List (ℕ × A) → List (ℕ × A)
  insert k a m = (k, a) ∷ m

  -- `erase`
  abbrev pub erase : ℕ → List (ℕ × A) → List (ℕ × A)
  erase k [] = []
  erase k ((j, a) ∷ m) = if k == j then erase k m else (j, a) ∷ erase k m

  -- a write through the iterator that `find` returned
  abbrev pub assign : ℕ → A → List (ℕ × A) → List (ℕ × A)
  assign k b [] = []
  assign k b ((j, a) ∷ m) = if k == j then (j, b) ∷ m else (j, a) ∷ assign k b m

  pub find-insert : (k : ℕ) (a : A) (m : List (ℕ × A)) → find k (insert k a m) ≡ some a
  find-insert k a m = ground arith

  pub find-insert_other :
      (j k : ℕ) (a : A) (m : List (ℕ × A)) → j ≢ k → find j (insert k a m) ≡ find j m
  find-insert_other j k a m h = ground arith

  pub find-erase : (k : ℕ) (m : List (ℕ × A)) → find k (erase k m) ≡ none
  find-erase k [] = refl
  find-erase k ((j, a) ∷ m) = ground (arith, find-erase k m)

  pub find-erase_other : (j k : ℕ) (m : List (ℕ × A)) → j ≢ k → find j (erase k m) ≡ find j m
  find-erase_other j k [] h = refl
  find-erase_other j k ((i, a) ∷ m) h = ground (arith, find-erase_other j k m h)

  pub erase_absent : (k : ℕ) (m : List (ℕ × A)) → find k m ≡ none → erase k m ≡ m
  erase_absent k [] h = refl
  erase_absent k ((j, a) ∷ m) h = ground (arith, erase_absent k m)

  pub erase-insert :
      (k : ℕ) (a : A) (m : List (ℕ × A)) → find k m ≡ none → erase k (insert k a m) ≡ m
  erase-insert k a m h = ground (arith, erase_absent k m h)

  pub erase-assign : (k : ℕ) (a : A) (m : List (ℕ × A)) → erase k (assign k a m) ≡ erase k m
  erase-assign k a [] = refl
  erase-assign k a ((j, b) ∷ m) = ground (arith, erase-assign k a m)

  pub assign-assign :
      (k : ℕ) (a b : A) (m : List (ℕ × A)) → assign k b (assign k a m) ≡ assign k b m
  assign-assign k a b [] = refl
  assign-assign k a b ((j, c) ∷ m) = ground (arith, assign-assign k a b m)

  pub find-assign :
      (k : ℕ) (a b : A) (m : List (ℕ × A)) → find k m ≡ some a → find k (assign k b m) ≡ some b
  find-assign k a b [] h = absurd cc
  find-assign k a b ((j, c) ∷ m) h = ground (arith, find-assign k a b m)

  pub find-assign_other :
      (j k : ℕ) (b : A) (m : List (ℕ × A)) → j ≢ k → find j (assign k b m) ≡ find j m
  find-assign_other j k b [] h = refl
  find-assign_other j k b ((i, a) ∷ m) h = ground (arith, find-assign_other j k b m h)

  -- how many keys are `k` or larger
  abbrev pub keys_from : ℕ → List (ℕ × A) → ℕ
  keys_from k [] = 0
  keys_from k ((j, a) ∷ m) = if leb k j then suc (keys_from k m) else keys_from k m

  pub keys_from_le : (k : ℕ) (m : List (ℕ × A)) → keys_from k m ≤ length m
  keys_from_le k [] = omega arith
  keys_from_le k ((j, a) ∷ m) = ground (arith, keys_from_le k m)

  pub keys_from_step : (k : ℕ) (m : List (ℕ × A)) → keys_from (suc k) m ≤ keys_from k m
  keys_from_step k [] = omega arith
  keys_from_step k ((j, a) ∷ m) = ground (arith, keys_from_step k m)

  pub keys_from_found :
      (k : ℕ) (a : A) (m : List (ℕ × A)) → find k m ≡ some a → keys_from (suc k) m < keys_from k m
  keys_from_found k a [] h = absurd cc
  keys_from_found k a ((j, b) ∷ m) h = ground (arith, keys_from_found k a m, keys_from_step k m)
