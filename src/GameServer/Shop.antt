-- ===== src/GameServer/Shop.antt =====
-- Server/GameServer.cpp, the requests that buy, move and sell goods, and that enlarge the base.
-- The arguments behind the tables are the time and the numbers read from the packet.
use thero_logic_server.Base.{
  ℕ, ◌*◌, ◌%◌, ◌^◌, true, false, not, ◌||◌, ltb, ◌==◌, if◌then◌else◌, List, [], ◌∷◌, ◌++◌, get_or,
}
use thero_logic_server.Base.Words.{int_mod, int_add, int_sub, int_lt}
use thero_logic_server.Packet.Output.{int, short}
use thero_logic_server.GameServer.{
  Mechine, Enlarge, BaseInfo, Tables, buy_production, del_production, change_dir_location,
  change_house, get_production_type, check_user_base, update_user_base,
}
use thero_logic_server.GameServer.Lookups.{get_production, get_construct_time, get_enlarge}
use thero_logic_server.GameServer.Actions.{
  Action, Done, ◌>>=◌, ◌>>◌, pure, gets, modify, send, edit_reply, flag_reply, refuse_if, found_or,
  user_or, call_ok, values_or, pay,
}

abbrev pub buy_goods_reply : ℕ
buy_goods_reply = 1031

abbrev pub edit_goods_reply : ℕ
edit_goods_reply = 1032

-- `SendBuyFlagMsgReply`
abbrev pub buy_reply : ℕ → ℕ → ℕ → ℕ → ℕ → ℕ → Action Done
buy_reply flag pid pcate pframe x y =
    send buy_goods_reply (short flag ∷ int pid ∷ int pcate ∷ int pframe ∷ int x ∷ int y ∷ [])

-- a short of this `int`
abbrev pub to_short : ℕ → ℕ
to_short n = n % 2 ^ 16

-- the mechine that a bought one becomes
abbrev pub bought : ℕ → ℕ → ℕ → ℕ → ℕ → ℕ → ℕ → ℕ → Mechine
bought gid pcate pframe dir x y status endtime = record {
  gid = gid;
  pcate = pcate;
  pframe = pframe;
  position = 1;
  level = 1;
  cur_dir = dir;
  positionx = to_short x;
  positiony = to_short y;
  status = status;
  endtime = endtime;
  is_dirty = false;
}

abbrev pub push_mechine : Mechine → Action Done
push_mechine m = modify (λ p. record p { mechines = p.mechines ++ (m ∷ []) })

-- the end of `Handle_User_Buy_Production`: mechines of three kinds join the player's list
unfoldable pub add_bought : Tables → ℕ → ℕ → ℕ → ℕ → ℕ → ℕ → ℕ → Action Done
add_bought t now gid pcate pframe dir x y =
    if pcate == t.info_type.pcate || pcate == t.resource_type.pcate
    then push_mechine
        (bought gid pcate pframe dir x y 2 (int_add (get_construct_time t pcate pframe) now))
    else if pcate == t.power_type.pcate
    then push_mechine (bought gid pcate pframe dir x y 0 0)
    else pure tt

-- `Handle_User_Buy_Production`
unfoldable pub handle_buy_production : Tables → ℕ → ℕ → ℕ → ℕ → ℕ → ℕ → Action Done
unfolding add_bought pay
handle_buy_production t now pcate pframe dir x y = do
  let refuse = buy_reply 1 0 pcate pframe x y
  g ← found_or (get_production t pcate pframe) refuse
  user_or refuse
  p ← gets (λ p. p)
  refuse_if (int_lt p.coin g.coin || int_lt p.money g.money) refuse
  values ←
      values_or
        (buy_production (record {
          mid = p.mid;
          pcate = pcate;
          pframe = pframe;
          locationx = to_short x;
          locationy = to_short y;
          cur_dir = dir;
          position = 1;
        }))
        refuse
  pay (int_sub p.coin g.coin) (int_sub p.money g.money) refuse
  buy_reply 0 (get_or values 0 0) pcate pframe x y
  add_bought t now (get_or values 0 0) pcate pframe dir x y

-- `Handle_User_Edit_Production`, operation 2: the goods are sold
unfoldable pub sell_production : Tables → ℕ → Action Done
unfolding pay
sell_production t pid = do
  let refuse = edit_reply edit_goods_reply pid 1
  values ← values_or (get_production_type pid) refuse
  g ← found_or (get_production t (get_or values 0 0) (get_or values 1 0)) refuse
  user_or refuse
  p ← gets (λ p. p)
  pay (int_add p.coin g.sell_coin) p.money refuse
  ok ← call_ok (del_production pid)
  refuse_if (not ok) refuse
  edit_reply edit_goods_reply pid 0

-- `Handle_User_Edit_Production`
unfoldable pub handle_edit_production : Tables → ℕ → ℕ → ℕ → ℕ → ℕ → Action Done
unfolding sell_production
handle_edit_production t pid operator dir x y =
    if operator == 1
    then (do
      ok ← call_ok (change_dir_location pid dir x y)
      edit_reply edit_goods_reply pid (if ok then 0 else 1))
    else if operator == 2
    then sell_production t pid
    else if operator == 3
    then (do
      ok ← call_ok (change_house pid 3)
      edit_reply edit_goods_reply pid (if ok then 0 else 1))
    else pure tt

-- the coins and the money that an enlargement costs: `playtype` 1 takes coins, 2 takes money
unfoldable pub enlarge_cost : Enlarge → ℕ → Action (ℕ × ℕ)
enlarge_cost e playtype =
    if playtype == 1
    then (do
      p ← gets (λ p. p)
      refuse_if (int_lt p.coin e.coin) (flag_reply edit_goods_reply 1)
      pure (e.coin, 0))
    else if playtype == 2
    then (do
      p ← gets (λ p. p)
      refuse_if (int_lt p.money e.money) (flag_reply edit_goods_reply 2)
      pure (0, e.money))
    else (do refuse_if true (flag_reply edit_goods_reply 7); pure (0, 0))

-- the row of the base that `CheckUserBase` hands out
abbrev pub base_of : List ℕ → BaseInfo
base_of v = record {
  ibasew = get_or v 0 0;
  ibaseh = get_or v 1 0;
  iwallw = get_or v 2 0;
  iwallh = get_or v 3 0;
  istatus = get_or v 4 0;
  lefttime = get_or v 5 0;
  iebasew = get_or v 6 0;
  iebaseh = get_or v 7 0;
}

-- the base as it is while it is enlarged
abbrev pub enlarging : ℕ → Enlarge → BaseInfo → BaseInfo
enlarging now e b = record b {
  istatus = 1;
  iebasew = e.sizex;
  iebaseh = e.sizey;
  lefttime = int_add now (e.ctime * 60 % int_mod);
}

-- the rest of `Handle_User_Buy_Enlarge_Table`, at a new balance; the level is compared as an unsigned number
unfoldable pub start_enlarge : ℕ → Enlarge → ℕ → ℕ → Action Done
unfolding pay
start_enlarge now e coin money = do
  let refuse = flag_reply edit_goods_reply
  p ← gets (λ p. p)
  refuse_if (ltb p.level e.nlevel) (refuse 5)
  values ← values_or (check_user_base p.mid) (refuse 6)
  refuse_if ((base_of values).istatus == 1) (refuse 3)
  ok ← call_ok (update_user_base (enlarging now e (base_of values)) p.mid)
  refuse_if (not ok) (refuse 3)
  pay coin money (refuse 8)
  refuse 0

-- `Handle_User_Buy_Enlarge_Table`
unfoldable pub handle_buy_enlarge_table : Tables → ℕ → ℕ → Action Done
unfolding enlarge_cost start_enlarge
handle_buy_enlarge_table t now playtype = do
  user_or (flag_reply edit_goods_reply 4)
  p ← gets (λ p. p)
  e ← found_or (get_enlarge t (int_add p.base_w 1)) (flag_reply edit_goods_reply 4)
  cost ← enlarge_cost e playtype
  start_enlarge now e (int_sub p.coin cost.0) (int_sub p.money cost.1)
