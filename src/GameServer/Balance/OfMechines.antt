-- ===== src/GameServer/Balance/OfMechines.antt =====
-- The balance under the requests of Server/GameServer.cpp on the levels of mechines.
use thero_logic_server.Base.{ℕ, arith}
use thero_logic_server.GameServer.{Tables, World, Mechine}
use thero_logic_server.GameServer.Actions.{set_account, pay, store_mechine}
use thero_logic_server.GameServer.Mechines.{
  instor_cost, mechine_cost, pay_for_instor, pay_for_mechine,
}
use thero_logic_server.GameServer.Balance.{IsSolvent, request-IsSolvent, >>=-IsSolvent, price-world}
use thero_logic_server.GameServer.Mechines.{
  handle_up_next_level, up_next_instor, up_next_mechine, handle_up_level, handle_comfor,
  comfor_instor, comfor_mechine, handle_speed, speed_instor, speed_mechine, set_collecting,
  up_next_level_reply, comfor_reply, speed_reply,
}

pub up_next_instor-IsSolvent :
    (t : Tables) (now pid : ℕ) (w : World) → IsSolvent w → IsSolvent (up_next_instor t now pid w).1
unfolding up_next_instor pay set_account store_mechine
up_next_instor-IsSolvent t now pid w h = ground arith

pub up_next_mechine-IsSolvent :
    (t : Tables) (now pcate pframe pid : ℕ) (w : World)
    → IsSolvent w
    → IsSolvent (up_next_mechine t now pcate pframe pid w).1
unfolding up_next_mechine pay set_account store_mechine set_collecting
up_next_mechine-IsSolvent t now pcate pframe pid w h = ground arith

pub comfor_instor-IsSolvent :
    (t : Tables) (pid : ℕ) (w : World) → IsSolvent w → IsSolvent (comfor_instor t pid w).1
unfolding comfor_instor store_mechine
comfor_instor-IsSolvent t pid w h = ground arith

pub comfor_mechine-IsSolvent :
    (t : Tables) (pid : ℕ) (w : World) → IsSolvent w → IsSolvent (comfor_mechine t pid w).1
unfolding comfor_mechine store_mechine set_collecting
comfor_mechine-IsSolvent t pid w h = ground arith

pay_for_instor-IsSolvent :
    (pid cost : ℕ) (w : World) → IsSolvent w → IsSolvent (pay_for_instor pid cost w).1
unfolding pay_for_instor pay set_account store_mechine
pay_for_instor-IsSolvent pid cost w h = ground arith

pay_for_mechine-IsSolvent :
    (m : Mechine) (pid cost : ℕ) (w : World)
    → IsSolvent w
    → IsSolvent (pay_for_mechine m pid cost w).1
unfolding pay_for_mechine pay set_account store_mechine
pay_for_mechine-IsSolvent m pid cost w h = ground arith

instor_cost-IsSolvent :
    (t : Tables) (now pid : ℕ) (w : World) → IsSolvent w → IsSolvent (instor_cost t now pid w).1
unfolding instor_cost
instor_cost-IsSolvent t now pid w h = grind (arith, price-world)

mechine_cost-IsSolvent :
    (t : Tables) (now pcate pframe pid : ℕ) (w : World)
    → IsSolvent w
    → IsSolvent (mechine_cost t now pcate pframe pid w).1
unfolding mechine_cost
mechine_cost-IsSolvent t now pcate pframe pid w h = grind (arith, price-world)

pub speed_instor-IsSolvent :
    (t : Tables) (now pid : ℕ) (w : World) → IsSolvent w → IsSolvent (speed_instor t now pid w).1
unfolding speed_instor
speed_instor-IsSolvent t now pid w h =
    >>=-IsSolvent (instor_cost t now pid) (pay_for_instor pid) w
      (instor_cost-IsSolvent t now pid w h) (pay_for_instor-IsSolvent pid)

pub speed_mechine-IsSolvent :
    (t : Tables) (now pcate pframe pid : ℕ) (w : World)
    → IsSolvent w
    → IsSolvent (speed_mechine t now pcate pframe pid w).1
unfolding speed_mechine
speed_mechine-IsSolvent t now pcate pframe pid w h =
    >>=-IsSolvent (mechine_cost t now pcate pframe pid)
      (λ found. pay_for_mechine found.0 pid found.1) w
      (mechine_cost-IsSolvent t now pcate pframe pid w h)
      (λ found v. pay_for_mechine-IsSolvent found.0 pid found.1 v)

pub handle_up_level-IsSolvent :
    (t : Tables) (pcate pframe pid : ℕ) (w : World)
    → IsSolvent w
    → IsSolvent (handle_up_level t pcate pframe pid w).1
unfolding handle_up_level
handle_up_level-IsSolvent t pcate pframe pid w h = ground arith

pub handle_up_next_level-IsSolvent :
    (t : Tables) (now pcate pframe pid : ℕ) (w : World)
    → IsSolvent w
    → IsSolvent (handle_up_next_level t now pcate pframe pid w).1
unfolding handle_up_next_level
handle_up_next_level-IsSolvent t now pcate pframe pid w h =
    request-IsSolvent t.experiment_type t.instor_type pcate pframe up_next_level_reply pid
      (up_next_instor t now pid) (up_next_mechine t now pcate pframe pid) w h
      (up_next_instor-IsSolvent t now pid w h)
      (up_next_mechine-IsSolvent t now pcate pframe pid w h)

pub handle_comfor-IsSolvent :
    (t : Tables) (pcate pframe pid : ℕ) (w : World)
    → IsSolvent w
    → IsSolvent (handle_comfor t pcate pframe pid w).1
unfolding handle_comfor
handle_comfor-IsSolvent t pcate pframe pid w h =
    request-IsSolvent t.experiment_type t.instor_type pcate pframe comfor_reply pid
      (comfor_instor t pid) (comfor_mechine t pid) w h (comfor_instor-IsSolvent t pid w h)
      (comfor_mechine-IsSolvent t pid w h)

pub handle_speed-IsSolvent :
    (t : Tables) (now pcate pframe pid : ℕ) (w : World)
    → IsSolvent w
    → IsSolvent (handle_speed t now pcate pframe pid w).1
unfolding handle_speed
handle_speed-IsSolvent t now pcate pframe pid w h =
    request-IsSolvent t.experiment_type t.instor_type pcate pframe speed_reply pid
      (speed_instor t now pid) (speed_mechine t now pcate pframe pid) w h
      (speed_instor-IsSolvent t now pid w h) (speed_mechine-IsSolvent t now pcate pframe pid w h)
