-- ===== src/GameServer/Lookups.antt =====
-- Server/GameServer.cpp, the lookups: each loop returns the first entry that fits, and the writes change
-- the first entry with the number of their argument.
use thero_logic_server.Base.{
  ℕ, Bool, true, false, ◌&&◌, not, ◌==◌, if◌then◌else◌, Option, none, some, List, [], ◌∷◌,
}
use thero_logic_server.Player.Pow.{get_pow}
use thero_logic_server.GameServer.{
  MechineType, Mechine, InfoCollect, ResourceProduc, Goods, Enlarge, InstorUpLevel, MechineUpLevel,
  CollectItem, PowerUpLevel, ResourceType, Tables,
}

module _ {A : Type 0} where
  -- a loop with `break` at the first entry that passes the test
  unfoldable pub first : (A → Bool) → List A → Option A
  first test [] = none
  first test (x ∷ xs) = if test x then some x else first test xs

  -- such a loop that changes the entry
  unfoldable pub change_first : (A → Bool) → (A → A) → List A → List A
  change_first test f [] = []
  change_first test f (x ∷ xs) = if test x then f x ∷ xs else x ∷ change_first test f xs

-- `getUserMechine_By_Pid`
abbrev pub get_user_mechine : List Mechine → ℕ → Option Mechine
get_user_mechine ms gid = first (λ m. m.gid == gid) ms

-- `getPowUpMechine_By_Pcate_Pframe`, and `getUserMechineInfoByPcatePframe` on the list of a player
abbrev pub get_mechine_of_type : List Mechine → MechineType → Option Mechine
get_mechine_of_type ms t = first (λ m. t.pcate == m.pcate && t.pframe == m.pframe) ms

-- `ChangeUserMechine_By_Pid`: the number and the type stay, and the entry is dirty
abbrev pub change_user_mechine : List Mechine → Mechine → List Mechine
change_user_mechine ms new =
    change_first (λ m. m.gid == new.gid)
      (λ m. record m {
        cur_dir = new.cur_dir;
        endtime = new.endtime;
        level = new.level;
        position = new.position;
        positionx = new.positionx;
        positiony = new.positiony;
        status = new.status;
        is_dirty = true;
      })
      ms

-- `ChangUserResMechineProduc`
abbrev pub change_res_produc : List ResourceProduc → ResourceProduc → List ResourceProduc
change_res_produc ps new =
    change_first (λ p. p.gid == new.gid && p.mid == new.mid) (λ p. record new { is_dirty = true })
      ps

-- `getUserInfoMechineCollect_By_Pid`
abbrev pub get_info_collect : List InfoCollect → ℕ → Option InfoCollect
get_info_collect cs gid = first (λ c. c.gid == gid) cs

-- `getUserResMechineCollect_By_Pid`
abbrev pub get_res_collect : List ResourceProduc → ℕ → Option ResourceProduc
get_res_collect ps gid = first (λ p. p.gid == gid) ps

-- `CPlayer::getUserResourceProducInfo`
abbrev pub get_res_produc : ℕ → ℕ → List ResourceProduc → Option ResourceProduc
get_res_produc gid usid ps = first (λ p. gid == p.gid && usid == p.mid) ps

-- `ChangeUserInfoMechineCollect_By_Pid`: the time needed stays
abbrev pub change_info_collect : List InfoCollect → InfoCollect → List InfoCollect
change_info_collect cs new =
    change_first (λ c. c.gid == new.gid)
      (λ c. record c { left_time = new.left_time; status = new.status; is_dirty = true }) cs

-- `get_production_price_by_pcate` and `get_production_sellprice_by_pcate`, which read other fields of it
abbrev pub get_production : Tables → ℕ → ℕ → Option Goods
get_production t pcate pframe = first (λ g. pcate == g.pcate && pframe == g.pframe) t.goods

-- `getResourceType`
abbrev pub get_resource_type : Tables → ℕ → ℕ → ℕ → ℕ → Option ResourceType
get_resource_type t pcate pframe mode level =
    first (λ r. r.pcate == pcate && r.pframe == pframe && r.pype == mode && r.level == level)
      t.resource_types

-- `getResourceMechine_By_pacte_pfram_level`: the mode is an argument, and is not looked at
abbrev pub get_resource_mechine : Tables → ℕ → ℕ → ℕ → ℕ → Option ResourceType
get_resource_mechine t pcate pframe level mode =
    first (λ r. pcate == r.pcate && pframe == r.pframe && level == r.level) t.resource_types

-- `getPowerUp_By_Level`
abbrev pub get_power_up : Tables → ℕ → Option PowerUpLevel
get_power_up t level = first (λ p. level == p.level) t.power_up_levels

-- `getPowerUpValue`: the limits are read as `GetPow` reads the resources
unfoldable pub get_power_up_value : PowerUpLevel → ℕ → ℕ
unfolding get_pow
get_power_up_value p res_type = get_pow p.limits res_type

-- `getNeedUserLevel`, 0 if there is no entry
abbrev pub get_need_user_level : Tables → ℕ → ℕ
get_need_user_level t instor_level =
    elim (first (λ r. instor_level == r.instor_level) t.instor_users) [
      | none ↦ 0
      | some r ↦ r.user_level
    ]

-- `getInstorUplevelComsum`
abbrev pub get_instor_up_level : Tables → ℕ → Option InstorUpLevel
get_instor_up_level t instor_level = first (λ r. instor_level == r.level) t.instor_up_levels

-- `getMechineUplevelComsum`
abbrev pub get_mechine_up_level : Tables → ℕ → ℕ → ℕ → Option MechineUpLevel
get_mechine_up_level t pcate pframe level =
    first (λ r. level == r.level && pcate == r.pcate && pframe == r.pframe) t.mechine_up_levels

-- `getCollectItemByPcateLevel`
abbrev pub get_collect_item : Tables → ℕ → ℕ → ℕ → Option CollectItem
get_collect_item t pcate pframe level =
    first (λ r. level == r.level && pcate == r.pcate && pframe == r.pframe) t.collect_items

-- `getCollectTimeByCollItem`: whether there is an entry, and the item with its time, or 0
abbrev pub get_collect_time : Tables → InfoCollect → ℕ → Bool × InfoCollect
get_collect_time t c level = elim (get_collect_item t c.pcate c.pframe level) [
  | none ↦ (false, record c { need_time = 0 })
  | some r ↦ (true, record c { need_time = r.time })
]

-- `ConfigMgr::getComStructTimeBy_Pcate_Pframe`: of the frame it asks only that the entry's is not 0
abbrev pub get_construct_time : Tables → ℕ → ℕ → ℕ
get_construct_time t pcate pframe =
    elim (first (λ (m, time). m.pcate == pcate && not (m.pframe == 0)) t.construct_times) [
      | none ↦ 0
      | some (m, time) ↦ time
    ]

-- the entry for the base one wider than `base_w`, which both requests on the table of enlargements find
abbrev pub get_enlarge : Tables → ℕ → Option Enlarge
get_enlarge t wider = first (λ e. e.sizex == wider) t.enlarges
