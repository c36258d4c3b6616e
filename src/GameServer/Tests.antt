-- ===== src/GameServer/Tests.antt =====
-- Requests at concrete tables and players.
use thero_logic_server.Base.{
  ◌+◌, ◌-◌, ◌≡◌, refl, true, some, List, [], ◌∷◌, ltb, if◌then◌else◌, arith,
}
use thero_logic_server.Base.Words.{int_add}
use thero_logic_server.Packet.Output.{int, short}
use thero_logic_server.Player.Pow.{get_pow}
use thero_logic_server.GameServer.{World, failed, done}
use thero_logic_server.GameServer.Lookups.{
  first, get_user_mechine, get_info_collect, get_power_up_value,
}
use thero_logic_server.GameServer.Actions.{
  returned, balance, pay, set_account, store_mechine, price, int_div, int_rem,
}
use thero_logic_server.GameServer.Shop.{handle_buy_production, add_bought}
use thero_logic_server.GameServer.Mechines.{
  pay_for_instor, instor_cost, speed_mechine, speed_instor, speed_reply, mechine_status_reply,
}
use thero_logic_server.GameServer.Mechines.Prices.{speed_instor_early, speed_mechine_gains, gain}
use thero_logic_server.GameServer.Collecting.{handle_collect_speed, status_of_collect}
use thero_logic_server.GameServer.Collecting.Dues.{collect_speed_lem, due, LastIs}
use thero_logic_server.GameServer.Collecting.Resources.{IsReady, collect, collects_twice}
use thero_logic_server.GameServer.Balance.{IsSolvent, IsPriced}
use thero_logic_server.GameServer.Balance.Runs.{
  Request, buy, edit, up_next_level, speed, collect_coin, check, run, run-IsSolvent,
}
use thero_logic_server.GameServer.Sample.{
  mechine, tables, raising, collecting, limited, producing, raised, ready, power, collected,
  produced_record, player, world, four,
}

bought_run :
    let w' =
      (handle_buy_production tables 100 201 1 0 3 4 (world (done (21 ∷ []) ∷ done [] ∷ []))).1 in
    (balance w'.player ≡ (500, 50)) × (w'.account ≡ (500, 50))
unfolding handle_buy_production add_bought pay set_account first
bought_run = (refl, refl)

-- the payment fails: the goods are in the database, and the balance is as before
unpaid_run :
    let w' =
      (handle_buy_production tables 100 201 1 0 3 4 (world (done (21 ∷ []) ∷ failed ∷ []))).1 in
    (balance w'.player ≡ (1000, 50)) × (w'.account ≡ (1000, 50))
unfolding handle_buy_production add_bought pay set_account first
unpaid_run = (refl, refl)

abbrev requests : List Request
requests =
    edit 11 2 0 0 0
    ∷ buy 100 201 1 0 3 4
    ∷ up_next_level 100 201 1 11
    ∷ speed 400 201 1 11
    ∷ collect_coin 201 1 11
    ∷ check collected produced_record 0 700
    ∷ []

priced : IsPriced tables
priced = ground arith

run-IsSolvent_example : IsSolvent (run tables requests (world (done (201 ∷ 1 ∷ []) ∷ four)))
run-IsSolvent_example =
    run-IsSolvent tables requests (world (done (201 ∷ 1 ∷ []) ∷ four)) priced (ground arith)
      (ground arith)

found : get_user_mechine player.mechines 11 ≡ some raised
unfolding first
found = refl

-- 600 seconds before the end, one money for each of the ten minutes
speed_mechine_gains_example :
    let w' = (speed_mechine tables 10000 201 1 11 (world four)).1 in
    let p = w'.player in
    (p.money ≡ 50 + gain 600 60)
    × (p.coin ≡ 1000)
    × (get_user_mechine p.mechines 11
        ≡ some (record raised { endtime = 0; status = 4; is_dirty = true }))
    × (w'.answers ≡ done [] ∷ done [] ∷ [])
unfolding first
speed_mechine_gains_example =
    speed_mechine_gains tables 10000 600 201 1 11 (world four) raised raising [] []
      (done [] ∷ done [] ∷ []) refl refl refl refl (ground arith) (ground arith) (ground arith)
      (ground arith) refl

collect_speed_lem_example :
    let p = (handle_collect_speed tables 201 1 11 (world four)).1.player in
    (p.money ≡ (if ltb 50 (due 245 60) then 50 else 50 - due 245 60))
    × (get_info_collect p.info_collects 11
        ≡ some (record collected { left_time = 300; status = 2; is_dirty = true }))
    × LastIs
        (status_of_collect tables 201 1 11 (world four)).1.sent
        mechine_status_reply
        (int 11 ∷ short 0 ∷ int 245 ∷ int (due 245 60) ∷ [])
unfolding first
collect_speed_lem_example =
    collect_speed_lem tables 201 1 11 245 (world four) raised collected collecting refl refl refl
      refl (ground arith) (ground arith) (ground arith) [] (done [] ∷ done [] ∷ done [] ∷ []) refl
      (ground arith) refl

ready_to_collect : IsReady tables 1 12 ready power produced_record producing limited player
unfolding first
ready_to_collect = record {
  mechine = refl;
  ready = refl;
  power = refl;
  record_found = refl;
  kind = refl;
  limits = refl;
}

collects_twice_example :
    let w' = collect tables 1 12 (collect tables 1 12 (world four)) in
    (get_pow w'.player.pow 1 ≡ int_add (int_add (get_pow player.pow 1) 5) 5)
    × IsReady tables 1 12 ready power produced_record producing limited
        (collect tables 1 12 (world four)).player
    × (w'.player ≡ record player { pow = w'.player.pow })
unfolding get_pow get_power_up_value
collects_twice_example =
    collects_twice tables 1 12 ready power produced_record producing limited (world four)
      ready_to_collect refl refl refl refl

abbrev waiting : World
waiting = record (world four) { player = record player { instor_mechine = mechine 2 202 3 900 } }

speed_instor_early_example : speed_instor tables 500 2 waiting ≡ (
  returned,
  record waiting { sent = record { command = speed_reply; fields = int 2 ∷ short 1 ∷ [] } ∷ [] },
)
speed_instor_early_example = speed_instor_early tables 500 2 waiting (ground arith) (ground arith)

-- once it is over, the player pays for the time since
late_run : (speed_instor tables 1000 2 waiting).1.player.money ≡ 48
unfolding speed_instor instor_cost pay_for_instor pay set_account store_mechine price int_div
    int_rem first
late_run = refl
