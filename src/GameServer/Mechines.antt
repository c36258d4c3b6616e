-- ===== src/GameServer/Mechines.antt =====
-- Server/GameServer.cpp, the requests on mechines: raising their level, shortening the wait for it, and
-- confirming the new level. `t` is the server's tables and `now` the time; the other arguments are the numbers
-- read from the packet.
pub mod Prices
use thero_logic_server.Base.{
  ℕ, ◌+◌, ◌-◌, Bool, true, false, not, ◌&&◌, ◌||◌, ltb, ◌==◌, if◌then◌else◌, Option, none, some,
  List, [], ◌∷◌, length,
}
use thero_logic_server.Base.Words.{int_mod, int_add, int_sub, int_lt}
use thero_logic_server.Packet.Output.{Field, int, short}
use thero_logic_server.GameServer.{
  MechineType, Mechine, InfoCollect, InstorUpLevel, MechineUpLevel, Tables, Player,
  update_info_collect,
}
use thero_logic_server.GameServer.Lookups.{
  get_user_mechine, change_user_mechine, get_info_collect, change_info_collect, get_need_user_level,
  get_instor_up_level, get_mechine_up_level, get_collect_item,
}
use thero_logic_server.GameServer.Actions.{
  Action, Done, ◌>>=◌, ◌>>◌, pure, gets, modify, send, edit_reply, status_reply, refuse_if,
  found_or, or_crash, user_or, call_ok, pay, store_mechine, is_neg, price,
}

abbrev pub up_level_reply : ℕ
up_level_reply = 1038

abbrev pub up_next_level_reply : ℕ
up_next_level_reply = 1039

abbrev pub mechine_status_reply : ℕ
mechine_status_reply = 1041

abbrev pub speed_reply : ℕ
speed_reply = 1050

abbrev pub comfor_reply : ℕ
comfor_reply = 1051

abbrev pub is_type : MechineType → ℕ → ℕ → Bool
is_type m pcate pframe = pcate == m.pcate && pframe == m.pframe

abbrev pub set_instor : Mechine → Action Done
set_instor m = modify (λ p. record p { instor_mechine = m })

abbrev pub set_mechine : Mechine → Action Done
set_mechine m = modify (λ p. record p { mechines = change_user_mechine p.mechines m })

-- the level of the last entry of `m_instorUpLevelList`
abbrev pub max_level : List InstorUpLevel → Option ℕ
max_level [] = none
max_level (r ∷ []) = some r.level
max_level (r ∷ s ∷ rs) = max_level (s ∷ rs)

-- `UpdateUserMechineTable(pUser->m_userInstorMechine)`, the reply that follows, and `return` if it failed
abbrev pub store_instor : ℕ → ℕ → Action Done
store_instor cmd pid = do
  i ← gets (λ p. p.instor_mechine)
  r ← store_mechine i
  set_instor r.1
  refuse_if (not r.0) (edit_reply cmd pid 1)
  edit_reply cmd pid 0

-- `UpdateUserMechineTable(MechineItem)`, `return` if it fails, the entry of the list, and the reply
abbrev pub store_item : Mechine → ℕ → ℕ → Action Done
store_item m cmd pid = do
  r ← store_mechine m
  refuse_if (not r.0) (edit_reply cmd pid 1)
  set_mechine r.1
  edit_reply cmd pid 0

-- an information mechine stops (0) or takes up (1) its collecting
unfoldable pub set_collecting : Tables → Mechine → ℕ → Action Done
set_collecting t m status =
    if is_type t.info_type m.pcate m.pframe
    then (do
      p ← gets (λ p. p)
      elim (get_info_collect p.info_collects m.gid) [
        | none ↦ pure tt
        | some c ↦ (do
          let d = record c { status = status }
          modify (λ p. record p { info_collects = change_info_collect p.info_collects d })
          ok ← call_ok (update_info_collect d)
          pure tt)
      ])
    else pure tt

-- `Handle_User_Require_Mechine_UpNextLevel`, the instructor; the user's level is unsigned
unfoldable pub up_next_instor : Tables → ℕ → ℕ → Action Done
unfolding pay store_mechine
up_next_instor t now pid = do
  let refuse = edit_reply up_next_level_reply pid 1
  top ← or_crash (max_level t.instor_up_levels)
  p ← gets (λ p. p)
  refuse_if (not (int_lt p.instor_mechine.level top)) refuse
  let level = int_add p.instor_mechine.level 1
  let need = get_need_user_level t level
  r ← found_or (get_instor_up_level t level) refuse
  refuse_if (need == 0 || ltb p.level need) refuse
  let coin = int_sub p.coin r.coin
  refuse_if (is_neg coin) refuse
  pay coin p.money refuse
  set_instor (record p.instor_mechine { endtime = int_add now r.time; status = 3 })
  store_instor up_next_level_reply pid

-- `Handle_User_Require_Mechine_UpNextLevel`, any other mechine
unfoldable pub up_next_mechine : Tables → ℕ → ℕ → ℕ → ℕ → Action Done
unfolding pay store_mechine set_collecting
up_next_mechine t now pcate pframe pid = do
  let refuse = edit_reply up_next_level_reply pid 1
  p ← gets (λ p. p)
  m ← found_or (get_user_mechine p.mechines pid) refuse
  r ← found_or (get_mechine_up_level t pcate pframe (int_add m.level 1)) refuse
  refuse_if (int_lt p.instor_mechine.level m.level) refuse
  let coin = int_sub p.coin r.coin
  refuse_if (is_neg coin) refuse
  pay coin p.money refuse
  let raised = record m { endtime = int_add now r.time; status = 3 }
  store_item raised up_next_level_reply pid
  set_collecting t raised 0

-- `Handle_User_Require_Mechine_UpNextLevel`
unfoldable pub handle_up_next_level : Tables → ℕ → ℕ → ℕ → ℕ → Action Done
unfolding up_next_instor up_next_mechine
handle_up_next_level t now pcate pframe pid = do
  user_or (edit_reply up_next_level_reply pid 1)
  refuse_if (is_type t.experiment_type pcate pframe) (edit_reply up_next_level_reply pid 1)
  if is_type t.instor_type pcate pframe
      then up_next_instor t now pid
      else up_next_mechine t now pcate pframe pid

-- `SendInstorUpLevelReply`, of what a level takes
abbrev pub up_level_answer : ℕ → ℕ → ℕ → ℕ → ℕ → Action Done
up_level_answer pid need coin money_time time =
    send up_level_reply
      (int pid ∷ short 0 ∷ int 0 ∷ int need ∷ int coin ∷ int money_time ∷ int time ∷ [])

-- `Handle_User_Require_Mechine_UpLevel`, which asks what the next level takes
unfoldable pub handle_up_level : Tables → ℕ → ℕ → ℕ → Action Done
handle_up_level t pcate pframe pid = do
  let refuse = edit_reply up_level_reply pid 1
  user_or refuse
  refuse_if (is_type t.experiment_type pcate pframe) refuse
  p ← gets (λ p. p)
  if is_type t.instor_type pcate pframe
      then (do
        let need = get_need_user_level t (int_add p.instor_mechine.level 1)
        r ← found_or (get_instor_up_level t (int_add p.instor_mechine.level 1)) refuse
        refuse_if (need == 0) refuse
        up_level_answer pid need r.coin r.money_time r.time)
      else (do
        m ← found_or (get_user_mechine p.mechines pid) refuse
        r ← found_or (get_mechine_up_level t pcate pframe (int_add m.level 1)) refuse
        up_level_answer pid p.instor_mechine.level r.coin r.money_time r.time)

-- `Handle_User_Require_Mechine_Comfor`, the instructor
unfoldable pub comfor_instor : Tables → ℕ → Action Done
unfolding store_mechine
comfor_instor t pid = do
  i ← gets (λ p. p.instor_mechine)
  refuse_if (not (i.status == 4)) (edit_reply comfor_reply pid 1)
  let level = int_add i.level 1
  set_instor (record i { level = level; status = 0 })
  top ← or_crash (max_level t.instor_up_levels)
  set_instor (record i { level = level; status = if top == level then 11 else 0 })
  store_instor comfor_reply pid

-- `Handle_User_Require_Mechine_Comfor`, any other mechine
unfoldable pub comfor_mechine : Tables → ℕ → Action Done
unfolding store_mechine set_collecting
comfor_mechine t pid = do
  let refuse = edit_reply comfor_reply pid 1
  p ← gets (λ p. p)
  m ← found_or (get_user_mechine p.mechines pid) refuse
  refuse_if (not (m.status == 4)) refuse
  let raised = record m { level = int_add m.level 1; status = 0 }
  store_item raised comfor_reply pid
  set_collecting t raised 1

-- `Handle_User_Require_Mechine_Comfor`
unfoldable pub handle_comfor : Tables → ℕ → ℕ → ℕ → Action Done
unfolding comfor_instor comfor_mechine
handle_comfor t pcate pframe pid = do
  user_or (edit_reply comfor_reply pid 1)
  refuse_if (is_type t.experiment_type pcate pframe) (edit_reply comfor_reply pid 1)
  if is_type t.instor_type pcate pframe then comfor_instor t pid else comfor_mechine t pid

-- the end of `Handle_User_Require_Mechine_Speed` for the instructor, who is ready for this money
unfoldable pub pay_for_instor : ℕ → ℕ → Action Done
unfolding pay store_mechine
pay_for_instor pid cost = do
  let refuse = edit_reply speed_reply pid 1
  p ← gets (λ p. p)
  let money = int_sub p.money cost
  refuse_if (is_neg money) refuse
  pay p.coin money refuse
  set_instor (record p.instor_mechine { endtime = 0; status = 4 })
  store_instor speed_reply pid

-- the end of `Handle_User_Require_Mechine_Speed` for any other mechine
unfoldable pub pay_for_mechine : Mechine → ℕ → ℕ → Action Done
unfolding pay store_mechine
pay_for_mechine m pid cost = do
  let refuse = edit_reply speed_reply pid 1
  p ← gets (λ p. p)
  let money = int_sub p.money cost
  refuse_if (is_neg money) refuse
  pay p.coin money refuse
  store_item (record m { endtime = 0; status = 4 }) speed_reply pid

-- its beginning: what the rest of the wait for the instructor costs
unfoldable pub instor_cost : Tables → ℕ → ℕ → Action ℕ
unfolding price
instor_cost t now pid = do
  let refuse = edit_reply speed_reply pid 1
  p ← gets (λ p. p)
  refuse_if (not (p.instor_mechine.status == 3)) refuse
  let left = int_sub now p.instor_mechine.endtime
  r ← found_or (get_instor_up_level t (int_add p.instor_mechine.level 1)) refuse
  refuse_if (not (int_lt 0 left)) refuse
  price left r.money_time

-- and for any other mechine, which is looked up
unfoldable pub mechine_cost : Tables → ℕ → ℕ → ℕ → ℕ → Action (Mechine × ℕ)
unfolding price
mechine_cost t now pcate pframe pid = do
  let refuse = edit_reply speed_reply pid 1
  p ← gets (λ p. p)
  m ← found_or (get_user_mechine p.mechines pid) refuse
  refuse_if (not (m.status == 3)) refuse
  r ← found_or (get_mechine_up_level t pcate pframe (int_add m.level 1)) refuse
  cost ← price (int_sub now m.endtime) r.money_time
  pure (m, cost)

-- `Handle_User_Require_Mechine_Speed`, the instructor
unfoldable pub speed_instor : Tables → ℕ → ℕ → Action Done
unfolding instor_cost pay_for_instor
speed_instor t now pid = do cost ← instor_cost t now pid; pay_for_instor pid cost

-- `Handle_User_Require_Mechine_Speed`, any other mechine
unfoldable pub speed_mechine : Tables → ℕ → ℕ → ℕ → ℕ → Action Done
unfolding mechine_cost pay_for_mechine
speed_mechine t now pcate pframe pid = do
  found ← mechine_cost t now pcate pframe pid
  pay_for_mechine found.0 pid found.1

-- `Handle_User_Require_Mechine_Speed`
unfoldable pub handle_speed : Tables → ℕ → ℕ → ℕ → ℕ → Action Done
unfolding speed_instor speed_mechine
handle_speed t now pcate pframe pid = do
  user_or (edit_reply speed_reply pid 1)
  refuse_if (is_type t.experiment_type pcate pframe) (edit_reply speed_reply pid 1)
  if is_type t.instor_type pcate pframe
      then speed_instor t now pid
      else speed_mechine t now pcate pframe pid
