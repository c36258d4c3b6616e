-- ===== src/Player/Check/Tests.antt =====
-- Checks of concrete mechines.
use thero_logic_server.Base.{◌≡◌, refl, arith}
use thero_logic_server.GameServer.Actions.{next}
use thero_logic_server.Player.Check.{tick_collect, set_status}
use thero_logic_server.Player.Check.Collected.{ticks, at_time, ticks_lem}
use thero_logic_server.GameServer.Sample.{tables, collected, world, four}

-- after 24 checks 295 of 300 seconds have passed
ticks_lem_example : (ticks 25 tables collected (world four)).0 ≡ next (at_time collected 305)
ticks_lem_example =
    ticks_lem 24 tables collected (world four) refl (ground arith) (ground arith) (ground arith)

complete_stays :
    (tick_collect tables (at_time collected 305) (world four)).0 ≡ next (at_time collected 305)
unfolding tick_collect set_status
complete_stays = refl
