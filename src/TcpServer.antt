-- ===== src/TcpServer.antt =====
-- GameLib/TcpServer.cpp: the table of handlers by descriptor, and the dispatch of epoll's events.
-- epoll is the map of the descriptors that it watches. What a handler does with its connection is an
-- argument: functions of its state, which say whether the result was -1. A failed assertion is `none`.
-- A pointer to a handler is compared by the handler's generation, which is what tells handlers apart.
pub mod Table
pub mod Events
pub mod Others
pub mod Stale
mod Tests
use thero_logic_server.Base.{
  ℕ, ◌+◌, ◌-◌, ◌*◌, ◌/◌, ◌%◌, ◌^◌, Bool, true, false, not, ltb, ◌==◌, if◌then◌else◌, Option, none,
  some, ◌>>=◌, List, [], ◌∷◌,
}
use thero_logic_server.Base.Maps.{find, insert, erase, assign}

abbrev pub max_descriptors : ℕ
max_descriptors = 100000

pub data Interest : Type 0 where
  want_read want_write : Interest

-- a handler: its descriptor, its generation, and the rest
pub record Handler (H : Type 0) : Type 0 where
  pub fd : ℕ
  pub fd_index : ℕ
  pub state : H

pub record TcpServer (H : Type 0) : Type 0 where
  pub fds : List (ℕ × Handler H)
  pub count_fd : ℕ
  pub fd_index : ℕ
  pub epoll : List (ℕ × (ℕ × Interest))

-- the flags of an event
pub record Flags : Type 0 where
  pub hang_up : Bool
  pub input : Bool
  pub output : Bool

-- `ev.data.u64`: the generation in the upper 32 bits, the descriptor in the lower
abbrev pub event_data : ℕ → ℕ → ℕ
event_data fd index = fd % 2 ^ 32 + index % 2 ^ 32 * 2 ^ 32

abbrev pub data_fd : ℕ → ℕ
data_fd u = u % 2 ^ 32

abbrev pub data_index : ℕ → ℕ
data_index u = u / 2 ^ 32 % 2 ^ 32

-- `epoll_ctl` with EPOLL_CTL_ADD, of which the result is dropped
abbrev pub epoll_add : ℕ → ℕ × Interest → List (ℕ × (ℕ × Interest)) → List (ℕ × (ℕ × Interest))
epoll_add fd e m = elim (find fd m) [ none ↦ insert fd e m | some old ↦ m ]

module _ {H : Type 0} where
  -- `TcpServer::TcpServer`
  unfoldable pub create : TcpServer H
  create = record { fds = []; count_fd = 0; fd_index = 0; epoll = [] }

  -- `AddSocket`
  unfoldable pub add_socket : TcpServer H → ℕ → H → Option (TcpServer H)
  add_socket s fd state =
      let index = (s.fd_index + 1) % 2 ^ 32 in
      if ltb fd max_descriptors
      then (elim (find fd s.fds) as (λ _. Option (TcpServer H)) [
        | some old ↦ none
        | none ↦ some (record {
          fds = insert fd (record { fd = fd; fd_index = index; state = state }) s.fds;
          count_fd = s.count_fd + 1;
          fd_index = index;
          epoll = epoll_add fd (event_data fd index, want_read) s.epoll;
        })
      ])
      else none

  -- `RemoveSocket`
  unfoldable pub remove_socket : TcpServer H → Handler H → Option (TcpServer H)
  remove_socket s h = elim (find h.fd s.fds) [
    | none ↦ none
    | some there ↦
        if there.fd_index == h.fd_index
        then some (record s {
          fds = erase h.fd s.fds;
          count_fd = s.count_fd - 1;
          epoll = erase h.fd s.epoll;
        })
        else none
  ]

  -- `WantWrite` and `WantRead`
  abbrev pub want : TcpServer H → Handler H → Interest → TcpServer H
  want s h i = record s { epoll = assign h.fd (event_data h.fd h.fd_index, i) s.epoll }

  -- the handler's state is changed in place
  abbrev pub put_handler : TcpServer H → Handler H → H → TcpServer H
  put_handler s h state = record s { fds = assign h.fd (record h { state = state }) s.fds }

-- what a handler does: `handle_read`, `handle_output`, `Writable`, `handle_close`
pub record Callbacks (H : Type 0) : Type 0 where
  pub handle_read : H → Bool × H
  pub handle_output : H → Bool × H
  pub writable : H → Bool
  pub on_close : H → H

module _ {H : Type 0} (c : Callbacks H) where
  -- `handle_close`; the handler is deleted
  unfoldable pub handle_close : TcpServer H → Handler H → Option (TcpServer H)
  unfolding remove_socket
  handle_close s h = remove_socket (put_handler s h (c.on_close h.state)) h

  -- the branches of the event loop for a handler that is current
  unfoldable pub handle_event : TcpServer H → Handler H → Flags → Option (TcpServer H)
  unfolding handle_close
  handle_event s h f =
      if f.hang_up
      then handle_close s h
      else if f.input
      then (let (failed, state) = c.handle_read h.state in
          let s1 = put_handler s h state in
          let h1 = record h { state = state } in
          if failed
          then handle_close s1 h1
          else some (if c.writable state then want s1 h1 want_write else s1))
      else if f.output
      then (let (failed, state) = c.handle_output h.state in
          let s1 = put_handler s h state in
          let h1 = record h { state = state } in
          if failed
          then handle_close s1 h1
          else some (if not (c.writable state) then want s1 h1 want_read else s1))
      else some s

  -- an event of `epoll_wait` that is not the listener's
  unfoldable pub dispatch : TcpServer H → ℕ → Flags → Option (TcpServer H)
  unfolding handle_event
  dispatch s u f = elim (find (data_fd u) s.fds) [
    | none ↦ some s
    | some h ↦ if h.fd_index == data_index u then handle_event s h f else some s
  ]
