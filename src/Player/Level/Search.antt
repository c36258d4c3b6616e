-- ===== src/Player/Level/Search.antt =====
-- The search and the count of the table's entries.
use thero_logic_server.Base.{
  ℕ, zero, suc, ◌+◌, ◌-◌, ◌/◌, ◌≤◌, ◌<◌, ◌≡◌, refl, sym, ap, ◌⊎◌, inl, inr, Bool, true, false, not,
  ◌&&◌, ltb, ◌==◌, if◌then◌else◌, Bool-cases, le→ltb_false, ltb→lt, Option, none, some, ◌>>=◌, List,
  [], ◌∷◌, get_or, length, drop, all_below, all_below_sound, arith,
}
use mathlib.Core.Path.{subst}
use thero_logic_server.Base.Int.{ℤ, pos, ltb_ℤ}
use thero_logic_server.Player.Level.{
  levels, level_at, Range, Step, found, narrower, narrow, search_loop, chosen, calc_level,
}

-- how many of the thresholds are reached
abbrev pub reached : ℤ → List ℕ → ℕ
reached points [] = 0
reached points (t ∷ ts) =
    if ltb_ℤ points (pos t) then reached points ts else suc (reached points ts)

-- each entry is larger than the one before it
abbrev AscFrom : ℕ → List ℕ → Type 0
AscFrom t [] = Unit {0}
AscFrom t (u ∷ us) = (t < u) × AscFrom u us

asc_le :
    (t : ℕ) (ts : List ℕ) (i : ℕ) → AscFrom t ts → i < length (t ∷ ts) → t ≤ get_or (t ∷ ts) i 0
asc_le t ts zero a h = omega arith
asc_le t [] (suc i) a h = absurd (omega arith)
asc_le t (u ∷ us) (suc i) a h = omega (arith, a.0, asc_le u us i a.1 (omega arith))

reached_none :
    (p : ℤ) (t : ℕ) (ts : List ℕ) → AscFrom t ts → ltb_ℤ p (pos t) ≡ true → reached p (t ∷ ts) ≡ 0
reached_none p t [] a h = ground arith
reached_none p t (u ∷ us) a h = ground (arith, a.0, reached_none p u us a.1)

reached_at :
    (p : ℤ) (t : ℕ) (ts : List ℕ) (i : ℕ)
    → AscFrom t ts
    → i < length (t ∷ ts)
    → ltb_ℤ p (pos (get_or (t ∷ ts) i 0)) ≡ false
    → (suc i ≡ length (t ∷ ts)) ⊎ (ltb_ℤ p (pos (get_or (t ∷ ts) (suc i) 0)) ≡ true)
    → reached p (t ∷ ts) ≡ suc i
reached_at p t [] zero a h r n = ground arith
reached_at p t [] (suc i) a h r n = absurd (omega arith)
reached_at p t (u ∷ us) zero a h r (inl e) = absurd (omega arith)
reached_at p t (u ∷ us) zero a h r (inr e) = rw (r, reached_none p u us a.1 e) refl
reached_at p t (u ∷ us) (suc i) a h r n =
    ground (
      arith,
      a.0,
      asc_le u us i a.1 (omega arith),
      reached_at p u us i a.1 (omega arith) r (next n),
    )
  where
    next :
        (suc (suc i) ≡ length (t ∷ u ∷ us))
          ⊎ (ltb_ℤ p (pos (get_or (t ∷ u ∷ us) (suc (suc i)) 0)) ≡ true)
        → (suc i ≡ length (u ∷ us)) ⊎ (ltb_ℤ p (pos (get_or (u ∷ us) (suc i) 0)) ≡ true)
    next (inl e) = inl (omega arith)
    next (inr e) = inr e

-- where the search has to end
abbrev Lands : ℤ → Option Range → Type 0
Lands p none = ⊥
Lands p (some q) =
    (chosen q < 39)
    × (ltb_ℤ p (level_at (chosen q)) ≡ false)
    × (ltb_ℤ p (level_at (suc (chosen q))) ≡ true)

ascending : all_below 39 (λ i. ltb (get_or levels i 0) (get_or levels (suc i) 0)) ≡ true
ascending = refl

level_step : (i : ℕ) → i < 39 → get_or levels i 0 < get_or levels (suc i) 0
level_step i h = ground (
  arith,
  all_below_sound 39 (λ i. ltb (get_or levels i 0) (get_or levels (suc i) 0)) i ascending h,
)

between : (p : ℤ) (a b : ℕ) → a < b → ltb_ℤ (pos a) p ≡ false → ltb_ℤ p (pos b) ≡ true
between p a b h m = ground arith

next_above :
    (p : ℤ) (i : ℕ) → i < 39 → ltb_ℤ (level_at i) p ≡ false → ltb_ℤ p (level_at (suc i)) ≡ true
unfolding level_at
next_above p i h m = between p (get_or levels i 0) (get_or levels (suc i) 0) (level_step i h) m

abbrev Brackets : ℤ → Range → Type 0
Brackets p r =
    (r.begin < r.end)
    × (r.end < 40)
    × (ltb_ℤ p (level_at r.begin) ≡ false)
    × (ltb_ℤ p (level_at r.end) ≡ true)

one_wide : (p : ℤ) (r : Range) → Brackets p r → r.end - r.begin ≤ 1 → Lands p (some r)
one_wide p r (b, e, low, high) h =
    rw one (omega arith, low, subst (λ k. ltb_ℤ p (level_at k) ≡ true) (omega arith) high)
  where
    one : (r.end - r.begin == 1) ≡ true
    one = ground arith

-- what a round has to give
abbrev Narrows : ℤ → Range → Step → Type 0
Narrows p r (found q) = Lands p (some q)
Narrows p r (narrower q) = Brackets p q × (q.end - q.begin < r.end - r.begin)

narrow_lem : (p : ℤ) (r : Range) → Brackets p r → 1 < r.end - r.begin → Narrows p r (narrow p r)
unfolding narrow
narrow_lem p r (b, e, low, high) wide = elim (Bool-cases (ltb_ℤ p (level_at i))) [
  | inl less ↦ rw less ((omega arith, omega arith, low, less), omega arith)
  | inr least ↦ elim (Bool-cases (ltb_ℤ (level_at i) p)) [
    | inl more ↦ rw (least, more) ((omega arith, e, least, high), omega arith)
    | inr most ↦ rw (least, most, several) (omega arith, least, next_above p i (omega arith) most)
  ]
]
  where
    i : ℕ
    i = (r.end - r.begin) / 2 + r.begin

    several : (r.end - r.begin == 1) ≡ false
    several = ground arith

search_step :
    (fuel : ℕ) (p : ℤ) (r : Range) (b : Bool)
    → ltb 1 (r.end - r.begin) ≡ b
    → search_loop (suc fuel) p r ≡ (elim b as (λ _. Option Range) [
      | false ↦ some r
      | true ↦ elim (narrow p r) as (λ _. Option Range) [
        | found q ↦ some q
        | narrower q ↦ search_loop fuel p q
      ]
    ])
unfolding search_loop
search_step fuel p r b e =
    ap
      (λ b. elim b as (λ _. Option Range) [
        | false ↦ some r
        | true ↦ elim (narrow p r) as (λ _. Option Range) [
          | found q ↦ some q
          | narrower q ↦ search_loop fuel p q
        ]
      ])
      e

search_lem :
    (fuel : ℕ) (p : ℤ) (r : Range)
    → Brackets p r
    → r.end - r.begin ≤ suc fuel
    → Lands p (search_loop fuel p r)
unfolding search_loop
search_lem zero p r b h = rw (le→ltb_false 1 (r.end - r.begin) h) (one_wide p r b h)
search_lem (suc fuel) p r b h = elim (Bool-cases (ltb 1 (r.end - r.begin))) [
  | inr thin ↦
      subst (Lands p) (sym (search_step fuel p r false thin)) (one_wide p r b (ground arith))
  | inl wide ↦
      subst (Lands p) (sym (search_step fuel p r true wide))
        (go (narrow p r) (narrow_lem p r b (ltb→lt 1 _ wide)) (search_lem fuel p))
]
  where
    go :
        (s : Step)
        → Narrows p r s
        → ((q : Range) → Brackets p q → q.end - q.begin ≤ suc fuel → Lands p (search_loop fuel p q))
        → Lands p
            (elim s as (λ _. Option Range) [ found q ↦ some q | narrower q ↦ search_loop fuel p q ])
    go (found q) l ih = l
    go (narrower q) (l, k) ih = ih q l (omega arith)

-- `AscFrom` by a test
abbrev asc_from : ℕ → List ℕ → Bool
asc_from t [] = true
asc_from t (u ∷ us) = ltb t u && asc_from u us

asc_sound : (t : ℕ) (ts : List ℕ) → asc_from t ts ≡ true → AscFrom t ts
asc_sound t [] h = tt
asc_sound t (u ∷ us) h = (ground arith, asc_sound u us (ground arith))

levels_asc : AscFrom 480 (drop 1 levels)
levels_asc = asc_sound 480 (drop 1 levels) refl

-- the count, by where the points lie
abbrev Reaches : Option Range → ℕ → Type 0
Reaches none n = ⊥
Reaches (some r) n = n ≡ suc (chosen r)

decided :
    (a b : Bool) (o : Option Range) (n : ℕ)
    → (a ≡ true → n ≡ 0)
    → (a ≡ false → b ≡ false → n ≡ 40)
    → (a ≡ false → b ≡ true → Reaches o n)
    → (if a then some 1 else if not b then some 41 else (o >>= λ r. some (chosen r + 2)))
      ≡ some (1 + n)
decided true b o n x y z = ap some (omega (arith, x refl))
decided false false o n x y z = ap some (omega (arith, y refl refl))
decided false true none n x y z = absurd (z refl refl)
decided false true (some r) n x y z = ap some (omega (arith, z refl refl))

Lands-Reaches : (p : ℤ) (o : Option Range) → Lands p o → Reaches o (reached p levels)
unfolding level_at
Lands-Reaches p none l = l
Lands-Reaches p (some r) (h, low, high) =
    reached_at p 480 (drop 1 levels) (chosen r) levels_asc (omega arith) low (inr high)

-- The level that `CalcLevel` gives is one more than the number of thresholds that the points reach, for
-- every number of points: the search ends, with the entry that a count would find.
pub calc_level_lem : (points : ℤ) → calc_level points ≡ some (1 + reached points levels)
unfolding calc_level
calc_level_lem p =
    decided (ltb_ℤ p (level_at 0)) (ltb_ℤ p (level_at 39)) (search_loop 39 p start)
      (reached p levels)
      (λ below. unfold level_at in reached_none p 480 (drop 1 levels) levels_asc below)
      (λ above past.
        unfold level_at in
        reached_at p 480 (drop 1 levels) 39 levels_asc (omega arith) past (inl refl))
      (λ above within.
        Lands-Reaches p (search_loop 39 p start)
          (search_lem 39 p start (omega arith, omega arith, above, within) (omega arith)))
  where
    start : Range
    start = record { middle = 0; begin = 0; end = 39 }
