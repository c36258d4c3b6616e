-- ===== src/Player/Pow/Tests.antt =====
-- Writes to valid and to other types.
use thero_logic_server.Base.{ℕ, ◌≡◌, refl, List, [], ◌∷◌}
use thero_logic_server.Player.Pow.{Pow, set_pow, get_pow}
use thero_logic_server.Player.Pow.Writes.{set_all}

abbrev start : Pow
start = record { pow_a = 1; pow_b = 2; pow_c = 3; pow_d = 4; pow_e = 5 }

abbrev writes : List (ℕ × ℕ)
writes = (2, 20) ∷ (6, 60) ∷ (2, 21) ∷ (4, 40) ∷ []

get_pow_other : get_pow start 6 ≡ 0
unfolding get_pow
get_pow_other = refl

writes_run : get_pow (set_all writes start) 2 ≡ 21
unfolding get_pow set_pow
writes_run = refl
