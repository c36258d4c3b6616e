-- ===== src/GameServer/Collecting.antt =====
-- Server/GameServer.cpp, the requests on what mechines collect and produce, and the one that asks how long a
-- mechine still takes. `t` is the server's tables and `now` the time; the other arguments are the numbers read
-- from the packet.
pub mod Dues
pub mod Resources
use thero_logic_server.Base.{
  ℕ, ◌+◌, Bool, true, false, not, ◌&&◌, ◌||◌, ltb, ◌==◌, if◌then◌else◌, Option, none, some, List,
  [], ◌∷◌,
}
use thero_logic_server.Base.Words.{int_add, int_sub, int_lt}
use thero_logic_server.Packet.Output.{Field, int, short}
use thero_logic_server.Player.Pow.{get_pow, set_pow}
use thero_logic_server.GameServer.{
  MechineType, Mechine, InfoCollect, ResourceProduc, CollectItem, ResourceType, Tables, Player,
  update_produc,
}
use thero_logic_server.GameServer.Lookups.{
  get_user_mechine, get_mechine_of_type, get_info_collect, change_info_collect, get_res_produc,
  get_resource_type, get_resource_mechine, get_power_up, get_power_up_value, get_instor_up_level,
  get_mechine_up_level, get_collect_item, get_collect_time,
}
use thero_logic_server.GameServer.Actions.{
  Action, Done, ◌>>=◌, ◌>>◌, pure, gets, modify, send, edit_reply, status_reply, refuse_if,
  found_or, user_or, call_ok, pay, store_mechine, is_neg, price,
}
use thero_logic_server.GameServer.Mechines.{is_type, mechine_status_reply}

abbrev pub info_can_collect_reply : ℕ
info_can_collect_reply = 1042

abbrev pub collect_info_reply : ℕ
collect_info_reply = 1043

abbrev pub resource_produc_reply : ℕ
resource_produc_reply = 1044

abbrev pub collect_speed_reply : ℕ
collect_speed_reply = 1052

abbrev pub resource_collect_reply : ℕ
resource_collect_reply = 1054

abbrev pub set_collect : InfoCollect → Action Done
set_collect c = modify (λ p. record p { info_collects = change_info_collect p.info_collects c })

-- a negative time is none
abbrev pub at_least_zero : ℕ → ℕ
at_least_zero left = if int_lt 0 left then left else 0

-- `Handle_User_Info_Mechine_CollectSpeed`
unfoldable pub handle_collect_speed : Tables → ℕ → ℕ → ℕ → Action Done
unfolding pay price
handle_collect_speed t pcate pframe pid = do
  let refuse = edit_reply collect_speed_reply pid 1
  user_or refuse
  p ← gets (λ p. p)
  m ← found_or (get_user_mechine p.mechines pid) refuse
  c ← found_or (get_info_collect p.info_collects pid) refuse
  r ← found_or (get_collect_item t pcate pframe m.level) refuse
  set_collect (record c { status = 2; left_time = c.need_time })
  send info_can_collect_reply (int c.gid ∷ short 0 ∷ [])
  cost ← price (at_least_zero (int_sub c.need_time c.left_time)) r.money_time
  let money = int_sub p.money cost
  refuse_if (is_neg money) refuse
  pay p.coin money refuse
  edit_reply collect_speed_reply pid 0

-- `Handle_User_Info_Mechine_CollectCoin`
unfoldable pub handle_collect_coin : Tables → ℕ → ℕ → ℕ → Action Done
unfolding pay
handle_collect_coin t pcate pframe pid = do
  let refuse = edit_reply collect_info_reply pid 1
  user_or refuse
  p ← gets (λ p. p)
  c ← found_or (get_info_collect p.info_collects pid) refuse
  m ← found_or (get_user_mechine p.mechines pid) refuse
  r ← found_or (get_collect_item t pcate pframe m.level) refuse
  set_collect (get_collect_time t (record c { status = 1; left_time = 0 }) m.level).1
  let coin = int_add p.coin r.ear_coin
  refuse_if (is_neg coin) refuse
  pay coin p.money refuse
  edit_reply collect_info_reply pid 0

-- the end of `Handle_User_Require_Mechine_Status`: the time that is left, and its price
abbrev pub answer_status : ℕ → ℕ → ℕ → Action Done
answer_status pid left money_time = do
  cost ← price (at_least_zero left) money_time
  status_reply mechine_status_reply pid 0 (at_least_zero left) cost

-- `Handle_User_Require_Mechine_Status`, flag 1: a mechine whose level is being raised
unfoldable pub status_of_upgrade : Tables → ℕ → ℕ → ℕ → ℕ → Action Done
unfolding price
status_of_upgrade t now pcate pframe pid = do
  let refuse = edit_reply mechine_status_reply pid 1
  p ← gets (λ p. p)
  refuse_if (is_type t.experiment_type pcate pframe) refuse
  if is_type t.instor_type pcate pframe
      then (do
        refuse_if (not (p.instor_mechine.status == 3)) refuse
        r ← found_or (get_instor_up_level t (int_add p.instor_mechine.level 1)) refuse
        answer_status pid (int_sub now p.instor_mechine.endtime) r.money_time)
      else (do
        m ← found_or (get_user_mechine p.mechines pid) refuse
        refuse_if (not (m.status == 3)) refuse
        r ← found_or (get_mechine_up_level t pcate pframe (int_add m.level 1)) refuse
        answer_status pid (int_sub now m.endtime) r.money_time)

-- `Handle_User_Require_Mechine_Status`, flag 2: an information mechine that collects
unfoldable pub status_of_collect : Tables → ℕ → ℕ → ℕ → Action Done
unfolding price
status_of_collect t pcate pframe pid = do
  let refuse = edit_reply mechine_status_reply pid 1
  p ← gets (λ p. p)
  m ← found_or (get_user_mechine p.mechines pid) refuse
  c ← found_or (get_info_collect p.info_collects pid) refuse
  r ← found_or (get_collect_item t pcate pframe m.level) refuse
  answer_status pid (int_sub c.need_time c.left_time) r.money_time

-- `Handle_User_Require_Mechine_Status`
unfoldable pub handle_status : Tables → ℕ → ℕ → ℕ → ℕ → ℕ → Action Done
unfolding status_of_upgrade status_of_collect
handle_status t now pcate pframe pid flag = do
  user_or (edit_reply mechine_status_reply pid 1)
  if flag == 1
      then status_of_upgrade t now pcate pframe pid
      else if flag == 2
      then status_of_collect t pcate pframe pid
      else pure tt

-- `Handle_Mechine_ResourceProduc`. The record that is stored is a local one, of which the numbers of the
-- mechine and of the user are never set: `gid` and `mid` stand for what it happens to hold there.
unfoldable pub handle_resource_produc : Tables → ℕ → ℕ → ℕ → ℕ → Action Done
unfolding pay
handle_resource_produc t gid mid pid mode = do
  let refuse = edit_reply resource_produc_reply pid 1
  user_or refuse
  p ← gets (λ p. p)
  m ← found_or (get_user_mechine p.mechines pid) refuse
  refuse_if (int_lt m.level mode || not (m.status == 0)) refuse
  r ← found_or (get_resource_mechine t m.pcate m.pframe m.level mode) refuse
  refuse_if (int_lt p.coin r.coin) refuse
  let coin = int_sub p.coin r.coin
  refuse_if (is_neg coin) refuse
  pay coin p.money refuse
  ok ← call_ok (
      update_produc (record {
        gid = gid;
        mid = mid;
        pcate = r.pcate;
        pframe = r.pframe;
        pmode = r.pype;
        level = r.level;
        state = 12;
        usetime = 0;
        is_dirty = false;
      }))
  refuse_if (not ok) refuse
  edit_reply resource_produc_reply pid 0

-- `Handdle_Mechine_ResourceCollect`; the mechine and the record that it sets back are copies
unfoldable pub handle_resource_collect : Tables → ℕ → ℕ → ℕ → Action Done
unfolding store_mechine
handle_resource_collect t pcate pframe pid = do
  let refuse = edit_reply resource_collect_reply pid 1
  user_or refuse
  p ← gets (λ p. p)
  m ← found_or (get_user_mechine p.mechines pid) (edit_reply resource_produc_reply pid 1)
  refuse_if (not (t.resource_type.pcate == pcate)) refuse
  refuse_if (pcate == m.pcate && pframe == m.pframe && not (m.status == 7)) refuse
  k ← found_or (get_mechine_of_type p.mechines t.power_type) refuse
  c ← found_or (get_res_produc pid p.mid p.producs) refuse
  r ← found_or (get_resource_type t pcate pframe c.pmode c.level) refuse
  l ← found_or (get_power_up t k.level) refuse
  let limit = get_power_up_value l r.pype
  refuse_if (limit == 0) refuse
  let power = get_pow p.pow r.pype
  refuse_if (not (int_lt power limit)) refuse
  modify (λ p. record p { pow = set_pow r.pype (int_add power r.power) p.pow })
  stored ← store_mechine (record m { status = 12 })
  refuse_if (not stored.0) refuse
  ok ← call_ok (update_produc (record c { state = 12 }))
  refuse_if (not ok) refuse
  edit_reply resource_collect_reply pid 0
