-- ===== src/Player/Timers/Tests.antt =====
-- The timers of a concrete player.
use thero_logic_server.Base.{◌≡◌, refl, arith, [], ◌∷◌}
use thero_logic_server.GameServer.{failed, update_info_collect}
use thero_logic_server.Player.Check.Keeping.{Same}
use thero_logic_server.Player.Timers.{process_mechine_require, process_mechine_write_db}
use thero_logic_server.Player.Timers.Keeping.{process_mechine_require-Same}
use thero_logic_server.Player.Timers.Levels.{instor_levels_lem}
use thero_logic_server.GameServer.{World}
use thero_logic_server.GameServer.Mechines.{comfor_instor}
use thero_logic_server.Base.Words.{int_add}
use thero_logic_server.Player.Timers.Writes.{Asks, write_db_lem}
use thero_logic_server.GameServer.Sample.{
  mechine, player, tables, collected, produced_record, world, four,
}

process_mechine_require-Same_example :
    Same
      (world four)
      (process_mechine_require collected produced_record 0 tables 10700 (world four)).1
process_mechine_require-Same_example =
    process_mechine_require-Same collected produced_record 0 tables 10700 (world four)

write_db_lem_example :
    Asks process_mechine_write_db (update_info_collect collected ∷ []) (world (failed ∷ []))
write_db_lem_example = write_db_lem (world (failed ∷ []))

-- the instructor waits until 900
abbrev waiting : World
waiting = record (world (failed ∷ [])) {
  player = record player { instor_mechine = mechine 2 202 3 900 };
}

instor_levels_lem_example :
    let checked = (process_mechine_require collected produced_record 0 tables 901 waiting).1 in
    (checked.player.instor_mechine.level ≡ int_add waiting.player.instor_mechine.level 1)
    × (checked.player.instor_mechine.status ≡ 4)
    × ((comfor_instor tables 2 checked).1.player.instor_mechine.level
        ≡ int_add (int_add waiting.player.instor_mechine.level 1) 1)
instor_levels_lem_example =
    instor_levels_lem collected produced_record 0 tables 901 2 waiting refl (ground arith)
