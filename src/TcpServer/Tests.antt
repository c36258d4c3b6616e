-- ===== src/TcpServer/Tests.antt =====
-- A descriptor that is closed and used again.
use thero_logic_server.Base.{◌≡◌, refl, Bool, true, false, some, [], ◌∷◌, arith}
use thero_logic_server.TcpServer.{
  TcpServer, Flags, Callbacks, want_read, event_data, remove_socket, dispatch,
}
use thero_logic_server.TcpServer.Table.{IsValid}
use thero_logic_server.TcpServer.Stale.{
  accepts, event, run, run_op, Admissible, Gone, stale_event_lem,
}

-- a handler whose state is whether its next read fails
abbrev callbacks : Callbacks Bool
callbacks = record {
  handle_read = λ b. (b, b);
  handle_output = λ b. (false, b);
  writable = λ b. false;
  on_close = λ b. b;
}

abbrev empty : TcpServer Bool
empty = record { fds = []; count_fd = 0; fd_index = 4; epoll = [] }

abbrev one : TcpServer Bool
one = record {
  fds = (7, record { fd = 7; fd_index = 5; state = true }) ∷ [];
  count_fd = 1;
  fd_index = 5;
  epoll = (7, (event_data 7 5, want_read)) ∷ [];
}

abbrev readable : Flags
readable = record { hang_up = false; input = true; output = false }

-- the read fails, so the connection is closed
dispatch_run :
    dispatch callbacks one (event_data 7 5) readable ≡ some (record empty { fd_index = 5 })
unfolding dispatch remove_socket
dispatch_run = refl

dispatch_stale : dispatch callbacks one (event_data 7 4) readable ≡ some one
unfolding dispatch
dispatch_stale = refl

empty-IsValid : IsValid empty
empty-IsValid = record { small = omega arith; at = λ k. refl }

empty-Gone : Gone callbacks empty 7 3
empty-Gone = record { given = omega arith; replaced = λ h e. absurd cc }

-- the descriptor 7 is accepted, read from and closed, and accepted again
ops-Admissible :
    Admissible callbacks empty
      (accepts 7 true ∷ event (event_data 7 5) readable ∷ accepts 7 false ∷ [])
unfolding Admissible run_op remove_socket
ops-Admissible = ((omega arith, refl, omega arith), (tt, ((omega arith, refl, omega arith), tt)))

stale_event_lem_example :
    (s' : TcpServer Bool) × (run callbacks empty
        (accepts 7 true ∷ event (event_data 7 5) readable ∷ accepts 7 false ∷ [])
      ≡ some s')
    × IsValid s'
    × (dispatch callbacks s' (event_data 7 3) readable ≡ some s')
stale_event_lem_example =
    stale_event_lem callbacks empty
      (accepts 7 true ∷ event (event_data 7 5) readable ∷ accepts 7 false ∷ []) 7 3 readable
      empty-IsValid (omega arith) (omega arith) empty-Gone ops-Admissible
