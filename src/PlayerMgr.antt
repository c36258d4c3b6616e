-- ===== src/PlayerMgr.antt =====
-- Server/PlayerMgr.cpp, class `PlayerMgr`: the map of the players that are on this server.
-- A failed assertion is `none`. The database is the stub of Server/DBOperator.cpp, which keeps nothing.
pub mod Presence
mod Tests
use thero_logic_server.Base.{
  ℕ, Bool, true, false, ◌==◌, if◌then◌else◌, Option, none, some, List, [], ◌∷◌, length,
}
use thero_logic_server.Base.Maps.{find, insert, erase}

pub record PlayerMgr (C : Type 0) : Type 0 where
  pub players : List (ℕ × C)

-- what the centre is asked to pass on: the server, the user there, and the packet for the user
pub record Route : Type 0 where
  pub server_id : ℕ
  pub user_id : ℕ
  pub packet : List ℕ

-- where a message goes
pub data Sent (C : Type 0) : Type 0 where
  nowhere : Sent C
  to_player : C → List ℕ → Sent C
  to_center : Route → Sent C

-- `CDBOperator::GetUserServerID`
unfoldable pub db_user_server_id : ℕ → ℕ
db_user_server_id user_id = 1

-- `CDBOperator::GetUserState`
unfoldable pub db_user_state : ℕ → ℕ
db_user_state user_id = 0

module _ {C : Type 0} where
  -- `GetPlayer`
  unfoldable pub get_player : PlayerMgr C → ℕ → Option C
  get_player s user_id = find user_id s.players

  -- `IsExist`
  unfoldable pub is_exist : PlayerMgr C → ℕ → Bool
  is_exist s user_id = elim (find user_id s.players) [ none ↦ false | some p ↦ true ]

  -- `GetPlayerNum`, which is also what `UpdateStress2DB` reports
  unfoldable pub get_player_num : PlayerMgr C → ℕ
  get_player_num s = length s.players

  -- `AddPlayer`, of a player with this `getID`
  unfoldable pub add_player : (C → ℕ) → PlayerMgr C → C → Option (PlayerMgr C)
  unfolding is_exist
  add_player get_id s p =
      if is_exist s (get_id p)
      then none
      else some (record s { players = insert (get_id p) p s.players })

  -- `DelPlayer`
  unfoldable pub del_player : PlayerMgr C → ℕ → Bool × PlayerMgr C
  del_player s user_id = elim (find user_id s.players) [
    | none ↦ (false, s)
    | some p ↦ (true, record s { players = erase user_id s.players })
  ]

  -- `GetUserServerID`, on the server with the first number
  unfoldable pub get_user_server_id : ℕ → PlayerMgr C → ℕ → ℕ
  unfolding db_user_server_id
  get_user_server_id own s user_id = elim (find user_id s.players) [
    | none ↦ db_user_server_id user_id
    | some p ↦ own
  ]

  -- `GetUserState`, of players with this `getStatus`
  unfoldable pub get_user_state : (C → ℕ) → PlayerMgr C → ℕ → ℕ
  unfolding db_user_state
  get_user_state get_status s user_id = elim (find user_id s.players) [
    | none ↦ db_user_state user_id
    | some p ↦ get_status p
  ]

  -- `SendMsgToUser`: where the message goes, and what the call returns
  unfoldable pub send_msg_to_user : ℕ → PlayerMgr C → List ℕ → ℕ → Bool → Sent C × Bool
  unfolding get_player get_user_server_id
  send_msg_to_user own s packet user_id rout = elim (get_player s user_id) [
    | some p ↦ (to_player p packet, true)
    | none ↦
        if rout
        then (let server = get_user_server_id own s user_id in
            if server == 0 then (nowhere, false) else (
              to_center (record { server_id = server; user_id = user_id; packet = packet }),
              true,
            ))
        else (nowhere, true)
  ]
