-- ===== src/Player/Level.antt =====
-- Server/Player.cpp, `CPlayer::CalcLevel`: the level that goes with a number of points.
-- The fuel of the search is the width of the range it starts with, which each round narrows.
pub mod Search
mod Tests
use thero_logic_server.Base.{
  ℕ, zero, suc, ◌+◌, ◌-◌, ◌/◌, ltb, ◌==◌, if◌then◌else◌, Option, none, some, ◌>>=◌, List, [], ◌∷◌,
  get_or, length, Bool, true, false, not,
}
use thero_logic_server.Base.Int.{ℤ, pos, negsuc, ltb_ℤ}

-- `s_nLevel`
abbrev pub levels : List ℕ
levels =
    480 ∷ 1200 ∷ 2160 ∷ 3360 ∷ 4880 ∷ 6720 ∷ 8880 ∷ 11360 ∷ 14160 ∷ 17280 ∷ 26880 ∷ 41280 ∷ 60480
    ∷ 84480 ∷ 113280 ∷ 148480 ∷ 190080 ∷ 238080 ∷ 292480 ∷ 353280 ∷ 506613 ∷ 673280 ∷ 853280
    ∷ 1046613 ∷ 1253280 ∷ 1473280 ∷ 1706613 ∷ 1953280 ∷ 2213280 ∷ 2486613 ∷ 3019947 ∷ 3585280
    ∷ 4182613 ∷ 4811947 ∷ 5473280 ∷ 6166613 ∷ 6891947 ∷ 7649280 ∷ 8438613 ∷ 2147483647 ∷ []

-- `s_nLevel[i]`, at an index within
unfoldable pub level_at : ℕ → ℤ
level_at i = pos (get_or levels i 0)

-- where the search stands: `i`, `nBegin` and `nEnd`
pub record Range : Type 0 where
  pub middle : ℕ
  pub begin : ℕ
  pub end : ℕ

-- one round of the loop: the entry is found, or the range is narrowed
pub data Step : Type 0 where
  found : Range → Step
  narrower : Range → Step

unfoldable pub narrow : ℤ → Range → Step
unfolding level_at
narrow points r =
    let i = (r.end - r.begin) / 2 + r.begin in
    if ltb_ℤ points (level_at i)
    then narrower (record { middle = i; begin = r.begin; end = i })
    else if ltb_ℤ (level_at i) points
    then narrower (record { middle = i; begin = i; end = r.end })
    else found (record { middle = i; begin = r.begin; end = r.end })

-- the loop; `none` is that the fuel ran out
unfoldable pub search_loop : ℕ → ℤ → Range → Option Range
unfolding narrow
search_loop zero points r = if ltb 1 (r.end - r.begin) then none else some r
search_loop (suc fuel) points r = elim (ltb 1 (r.end - r.begin)) [
  | false ↦ some r
  | true ↦ elim (narrow points r) [ found q ↦ some q | narrower q ↦ search_loop fuel points q ]
]

-- the index that the search ends with
abbrev pub chosen : Range → ℕ
chosen r = if r.end - r.begin == 1 then r.begin else r.middle

-- `CalcLevel`
unfoldable pub calc_level : ℤ → Option ℕ
unfolding search_loop level_at
calc_level points =
    let last = length levels - 1 in
    if ltb_ℤ points (level_at 0)
    then some 1
    else if not (ltb_ℤ points (level_at last))
    then some (last + 2)
    else (do
      r ← search_loop last points (record { middle = 0; begin = 0; end = last })
      some (chosen r + 2))
