-- ===== src/GameServer/Balance/OfCollecting.antt =====
-- The balance under the requests of Server/GameServer.cpp on what mechines collect and produce.
use thero_logic_server.Base.{ℕ, arith}
use thero_logic_server.GameServer.{Tables, World}
use thero_logic_server.GameServer.Actions.{set_account, pay, store_mechine, price}
use thero_logic_server.GameServer.Balance.{IsSolvent}
use thero_logic_server.GameServer.Collecting.{
  handle_collect_speed, handle_collect_coin, handle_status, status_of_upgrade, status_of_collect,
  handle_resource_produc, handle_resource_collect,
}

pub handle_collect_speed-IsSolvent :
    (t : Tables) (pcate pframe pid : ℕ) (w : World)
    → IsSolvent w
    → IsSolvent (handle_collect_speed t pcate pframe pid w).1
unfolding handle_collect_speed pay set_account price
handle_collect_speed-IsSolvent t pcate pframe pid w h = ground arith

pub handle_collect_coin-IsSolvent :
    (t : Tables) (pcate pframe pid : ℕ) (w : World)
    → IsSolvent w
    → IsSolvent (handle_collect_coin t pcate pframe pid w).1
unfolding handle_collect_coin pay set_account
handle_collect_coin-IsSolvent t pcate pframe pid w h = ground arith

pub handle_status-IsSolvent :
    (t : Tables) (now pcate pframe pid flag : ℕ) (w : World)
    → IsSolvent w
    → IsSolvent (handle_status t now pcate pframe pid flag w).1
unfolding handle_status status_of_upgrade status_of_collect price
handle_status-IsSolvent t now pcate pframe pid flag w h = ground arith

pub handle_resource_produc-IsSolvent :
    (t : Tables) (gid mid pid mode : ℕ) (w : World)
    → IsSolvent w
    → IsSolvent (handle_resource_produc t gid mid pid mode w).1
unfolding handle_resource_produc pay set_account
handle_resource_produc-IsSolvent t gid mid pid mode w h = ground arith

pub handle_resource_collect-IsSolvent :
    (t : Tables) (pcate pframe pid : ℕ) (w : World)
    → IsSolvent w
    → IsSolvent (handle_resource_collect t pcate pframe pid w).1
unfolding handle_resource_collect store_mechine
handle_resource_collect-IsSolvent t pcate pframe pid w h = ground arith
