-- ===== src/SocketServer.antt =====
-- GameLib/SocketServer.cpp, class `SocketServer`: the map of the connections by identifier.
-- A failed assertion is `none`, and so is the overflow of `m_nMaxID`, an `int`.
pub mod Sessions
mod Tests
use thero_logic_server.Base.{
  ℕ, zero, suc, ◌+◌, ◌-◌, ◌^◌, Bool, true, false, ltb, if◌then◌else◌, Option, none, some, ◌>>=◌,
  List, [], ◌∷◌, length,
}
use thero_logic_server.Base.Maps.{find, insert, erase}

pub record SocketServer (H : Type 0) : Type 0 where
  pub max_id : ℕ
  pub handler_map : List (ℕ × H)

module _ {H : Type 0} where
  -- `SocketServer::SocketServer`
  abbrev pub create : SocketServer H
  create = record { max_id = 0; handler_map = [] }

  -- the loop of `GetUseID`, from `id` on
  unfoldable pub use_id_loop : ℕ → ℕ → List (ℕ × H) → Option ℕ
  use_id_loop zero id m = none
  use_id_loop (suc fuel) id m =
      if ltb id (2 ^ 31)
      then (elim (find id m) as (λ _. Option ℕ) [
        | none ↦ some id
        | some h ↦ use_id_loop fuel (suc id) m
      ])
      else none

  -- `GetUseID`; more rounds than the map has entries are enough
  unfoldable pub get_use_id : SocketServer H → Option (ℕ × SocketServer H)
  unfolding use_id_loop
  get_use_id s = do
    id ← use_id_loop (length s.handler_map + 1) (s.max_id + 1) s.handler_map
    some (id, record s { max_id = id })

  -- `CreateHandler`, of a handler that is made from its identifier
  unfoldable pub create_handler : (ℕ → H) → SocketServer H → Option (H × SocketServer H)
  unfolding get_use_id
  create_handler new s = do r ← get_use_id s; some (new r.0, r.1)

  -- `OnConnect`
  unfoldable pub on_connect : (H → ℕ) → SocketServer H → H → Option (SocketServer H)
  on_connect handler_id s h = elim (find (handler_id h) s.handler_map) [
    | none ↦ some (record s { handler_map = insert (handler_id h) h s.handler_map })
    | some old ↦ none
  ]

  -- `OnDisconnect`
  unfoldable pub on_disconnect : (H → ℕ) → SocketServer H → H → Option (SocketServer H)
  on_disconnect handler_id s h = elim (find (handler_id h) s.handler_map) [
    | none ↦ none
    | some old ↦ some (record s { handler_map = erase (handler_id h) s.handler_map })
  ]

  -- `FindHandler`
  unfoldable pub find_handler : SocketServer H → ℕ → Option H
  find_handler s id = find id s.handler_map
