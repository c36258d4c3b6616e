-- ===== src/Player/Level/Tests.antt =====
-- Levels of some numbers of points.
use thero_logic_server.Base.{◌+◌, ◌≡◌, refl, some}
use thero_logic_server.Base.Int.{pos, negsuc}
use thero_logic_server.Player.Level.{levels, calc_level}
use thero_logic_server.Player.Level.Search.{reached, calc_level_lem}

calc_level_runs :
    (calc_level (negsuc 4) ≡ some 1)
    × (calc_level (pos 479) ≡ some 1)
    × (calc_level (pos 480) ≡ some 2)
    × (calc_level (pos 8438612) ≡ some 39)
    × (calc_level (pos 8438613) ≡ some 40)
    × (calc_level (pos 2147483647) ≡ some 41)
unfolding calc_level
calc_level_runs = (refl, refl, refl, refl, refl, refl)

calc_level_lem_example : calc_level (pos 5000) ≡ some (1 + reached (pos 5000) levels)
calc_level_lem_example = calc_level_lem (pos 5000)
