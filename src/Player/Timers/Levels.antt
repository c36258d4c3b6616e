-- ===== src/Player/Timers/Levels.antt =====
-- The instructor's level behind the check of the mechines, and its confirmation by Server/GameServer.cpp.
use thero_logic_server.Base.{ℕ, ◌≡◌, ap, ◌∙◌, true, arith}
use thero_logic_server.Base.Words.{int_add}
use thero_logic_server.GameServer.{InfoCollect, ResourceProduc, Tables, World}
use thero_logic_server.GameServer.Actions.{store_mechine}
use thero_logic_server.GameServer.Mechines.{comfor_instor}
use thero_logic_server.Player.Check.{int_ge, check_instor}
use thero_logic_server.Player.Check.Keeping.{>>=-instor}
use thero_logic_server.Player.Timers.{process_mechine_require}
use thero_logic_server.Player.Timers.Keeping.{from_mechines, from_mechines-Kept}

check_instor-raised :
    (now : ℕ) (w : World)
    → w.player.instor_mechine.status ≡ 3
    → int_ge now w.player.instor_mechine.endtime ≡ true
    → let i = (check_instor now w).1.player.instor_mechine in
      (i.level ≡ int_add w.player.instor_mechine.level 1) × (i.status ≡ 4)
unfolding check_instor store_mechine
check_instor-raised now w s over = ground (arith, s, over)

comfor_instor-raised :
    (t : Tables) (pid : ℕ) (w : World)
    → w.player.instor_mechine.status ≡ 4
    → (comfor_instor t pid w).1.player.instor_mechine.level
      ≡ int_add w.player.instor_mechine.level 1
unfolding comfor_instor store_mechine
comfor_instor-raised t pid w s = ground (arith, s)

-- The instructor gains two levels for one wait: when the wait is over, the check of the mechines raises its level and
-- asks for the confirmation, and the confirmation raises the level again. This holds for the whole check, whatever the
-- database answers to it and to the confirmation, and whatever uninitialised fields hold. The conditions are that the
-- instructor waits for its next level, and that the time of the check is not before the end of the wait.
pub instor_levels_lem :
    (junk : InfoCollect) (junk_produc : ResourceProduc) (junk_time : ℕ) (t : Tables) (now pid : ℕ)
    (w : World)
    → w.player.instor_mechine.status ≡ 3
    → int_ge now w.player.instor_mechine.endtime ≡ true
    → let checked = (process_mechine_require junk junk_produc junk_time t now w).1 in
      (checked.player.instor_mechine.level ≡ int_add w.player.instor_mechine.level 1)
      × (checked.player.instor_mechine.status ≡ 4)
      × ((comfor_instor t pid checked).1.player.instor_mechine.level
          ≡ int_add (int_add w.player.instor_mechine.level 1) 1)
unfolding process_mechine_require
instor_levels_lem junk junk_produc junk_time t now pid w s over = (
  level,
  status,
  comfor_instor-raised t pid (process_mechine_require junk junk_produc junk_time t now w).1 status
      ∙ ap (λ l. int_add l 1) level,
)
  where
    kept :
        (process_mechine_require junk junk_produc junk_time t now w).1.player.instor_mechine
        ≡ (check_instor now w).1.player.instor_mechine
    kept =
        >>=-instor (check_instor now) (λ _. from_mechines junk junk_produc junk_time t now) w
          (λ _. from_mechines-Kept junk junk_produc junk_time t now)

    level :
        (process_mechine_require junk junk_produc junk_time t now w).1.player.instor_mechine.level
        ≡ int_add w.player.instor_mechine.level 1
    level = ap (λ i. i.level) kept ∙ (check_instor-raised now w s over).0

    status :
        (process_mechine_require junk junk_produc junk_time t now w).1.player.instor_mechine.status
        ≡ 4
    status = ap (λ i. i.status) kept ∙ (check_instor-raised now w s over).1
