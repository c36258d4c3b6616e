-- ===== src/GameServer.antt =====
-- The data of Server/GameServer.cpp: the structs of Server/Player.h, Server/DBOperator.h and
-- Server/GameData.h that the requests work on, the tables that the server loads, and what a request sees
-- and changes. Numbers are bit patterns: an `int` of 32 bits, a `short` of 16.
pub mod Lookups
pub mod Actions
pub mod Shop
pub mod Mechines
pub mod Collecting
pub mod Balance
pub mod Sample
mod Tests
use thero_logic_server.Base.{ℕ, Bool, List}
use thero_logic_server.Packet.Output.{Field}
use thero_logic_server.Player.Pow.{Pow}

-- `MechineType_PcatePframe_T`
pub record MechineType : Type 0 where
  pub pcate : ℕ
  pub pframe : ℕ

-- `User_Experiment_Mechine_t`
pub record Mechine : Type 0 where
  pub gid : ℕ
  pub pcate : ℕ
  pub pframe : ℕ
  pub position : ℕ
  pub level : ℕ
  pub cur_dir : ℕ
  pub positionx : ℕ
  pub positiony : ℕ
  pub status : ℕ
  pub endtime : ℕ
  pub is_dirty : Bool

-- `UserInfoMechineCollect_T`
pub record InfoCollect : Type 0 where
  pub gid : ℕ
  pub mid : ℕ
  pub pcate : ℕ
  pub pframe : ℕ
  pub left_time : ℕ
  pub need_time : ℕ
  pub status : ℕ
  pub is_dirty : Bool

-- `ResourceProducTable_T`
pub record ResourceProduc : Type 0 where
  pub gid : ℕ
  pub mid : ℕ
  pub pcate : ℕ
  pub pframe : ℕ
  pub pmode : ℕ
  pub level : ℕ
  pub state : ℕ
  pub usetime : ℕ
  pub is_dirty : Bool

-- `OrmenGoodsStruct_t`, the fields that the requests read
pub record Goods : Type 0 where
  pub pcate : ℕ
  pub pframe : ℕ
  pub coin : ℕ
  pub money : ℕ
  pub is_can_sell : ℕ
  pub sell_coin : ℕ

-- `EnlargeTableStruct_t`
pub record Enlarge : Type 0 where
  pub nlevel : ℕ
  pub coin : ℕ
  pub money : ℕ
  pub sizex : ℕ
  pub sizey : ℕ
  pub ctime : ℕ

-- `InstorUserLevelRelation_T`
pub record InstorUserLevel : Type 0 where
  pub instor_level : ℕ
  pub user_level : ℕ

-- `InstrutorUpLevelTable_T`
pub record InstorUpLevel : Type 0 where
  pub level : ℕ
  pub time : ℕ
  pub coin : ℕ
  pub money_time : ℕ

-- `MechineUpLevelComsumTable_T`
pub record MechineUpLevel : Type 0 where
  pub pcate : ℕ
  pub pframe : ℕ
  pub level : ℕ
  pub time : ℕ
  pub coin : ℕ
  pub money_time : ℕ

-- `InfoMechineCollectTable_T`
pub record CollectItem : Type 0 where
  pub pcate : ℕ
  pub pframe : ℕ
  pub level : ℕ
  pub time : ℕ
  pub ear_coin : ℕ
  pub money_time : ℕ

-- `PowerMechineUpLevelTable_T`, the level and the limits
pub record PowerUpLevel : Type 0 where
  pub level : ℕ
  pub limits : Pow

-- `ResourceMechineProductype_T`
pub record ResourceType : Type 0 where
  pub pcate : ℕ
  pub pframe : ℕ
  pub pype : ℕ
  pub level : ℕ
  pub need_time : ℕ
  pub coin : ℕ
  pub power : ℕ

-- `BaseInfo_Struct_t`
pub record BaseInfo : Type 0 where
  pub ibasew : ℕ
  pub ibaseh : ℕ
  pub iwallw : ℕ
  pub iwallh : ℕ
  pub istatus : ℕ
  pub lefttime : ℕ
  pub iebasew : ℕ
  pub iebaseh : ℕ

-- `UserOrmenGoodsStruct_t`
pub record UserGoods : Type 0 where
  pub mid : ℕ
  pub pcate : ℕ
  pub pframe : ℕ
  pub locationx : ℕ
  pub locationy : ℕ
  pub cur_dir : ℕ
  pub position : ℕ

-- the tables of `CGameServer`, and what the requests ask of `ConfigMgr`
pub record Tables : Type 0 where
  pub goods : List Goods
  pub enlarges : List Enlarge
  pub instor_users : List InstorUserLevel
  pub instor_up_levels : List InstorUpLevel
  pub mechine_up_levels : List MechineUpLevel
  pub collect_items : List CollectItem
  pub power_up_levels : List PowerUpLevel
  pub resource_types : List ResourceType
  pub construct_times : List (MechineType × ℕ)
  pub experiment_type : MechineType
  pub instor_type : MechineType
  pub info_type : MechineType
  pub resource_type : MechineType
  pub power_type : MechineType
  pub check_time : ℕ

-- `CPlayer`, the fields that the requests and the timers work on
pub record Player : Type 0 where
  pub mid : ℕ
  pub level : ℕ
  pub base_w : ℕ
  pub coin : ℕ
  pub money : ℕ
  pub experiment_mechine : Mechine
  pub instor_mechine : Mechine
  pub mechines : List Mechine
  pub info_collects : List InfoCollect
  pub producs : List ResourceProduc
  pub pow : Pow

-- a packet that is sent: the command, and the fields that are written
pub record Message : Type 0 where
  pub command : ℕ
  pub fields : List Field

-- a call of `CDBOperator`
pub data Call : Type 0 where
  update_user_money : ℕ → ℕ → ℕ → Call
  update_user_mechine : Mechine → Call
  update_info_collect : InfoCollect → Call
  update_produc : ResourceProduc → Call
  update_res_produc : ResourceProduc → Call
  check_info_collect : InfoCollect → Call
  insert_resource_record : ResourceProduc → Call
  buy_production : UserGoods → Call
  del_production : ℕ → Call
  change_dir_location : ℕ → ℕ → ℕ → ℕ → Call
  change_house : ℕ → ℕ → Call
  get_production_type : ℕ → Call
  check_user_base : ℕ → Call
  update_user_base : BaseInfo → ℕ → Call

-- what the database does with a call: it fails, it finds no row to change, or it succeeds and hands out
-- these numbers
pub data Answer : Type 0 where
  failed : Answer
  unchanged : Answer
  done : List ℕ → Answer

-- what a request sees and changes: the player, unless the connection has none; the balance (coins, money)
-- in the row of `Player_Account`; the answers that the database will give; the calls and the packets so
-- far, the last one first
pub record World : Type 0 where
  pub logged_in : Bool
  pub player : Player
  pub account : ℕ × ℕ
  pub answers : List Answer
  pub calls : List Call
  pub sent : List Message
