-- ===== src/TcpServer/Events.antt =====
-- The dispatch of events and the assertions of the server.
use thero_logic_server.Base.{
  ℕ, ◌≡◌, refl, sym, inl, Bool, not, ◌==◌, if◌then◌else◌, if_elim, Option, none, some, arith,
}
use mathlib.Core.Path.{subst}
use thero_logic_server.Base.Maps.{find}
use thero_logic_server.TcpServer.{
  Interest, want_read, want_write, Handler, TcpServer, Flags, data_fd, data_index, want,
  put_handler, Callbacks, handle_close, handle_event, dispatch,
}
use thero_logic_server.TcpServer.Table.{
  IsValid, At, Later, Later-trans, Leads, remove_socket-Leads, put_handler-Leads, want-Leads,
}

module _ {H : Type 0} (c : Callbacks H) where
  -- a second step, on what the first one led to
  Leads-trans :
      (s s1 : TcpServer H) (o : Option (TcpServer H)) → Later s s1 → Leads s1 o → Leads s o
  Leads-trans s s1 none l d = d
  Leads-trans s s1 (some s2) l (v, m) = (v, Later-trans s s1 s2 l m)

  Leads-refl : (s : TcpServer H) → IsValid s → Leads s (some s)
  Leads-refl s v = (v, record { counter = omega arith; source = λ j h e. inl (h, e, refl) })

  close-Leads :
      (s : TcpServer H) (h : Handler H)
      → IsValid s
      → find h.fd s.fds ≡ some h
      → Leads s (handle_close c s h)
  unfolding handle_close
  close-Leads s h v e =
      let ((w, l), there) = put_handler-Leads s h (c.on_close h.state) v e in
      Leads-trans s (put_handler s h (c.on_close h.state)) _ l
        (remove_socket-Leads (put_handler s h (c.on_close h.state)) h _ w there refl)

  -- what follows the read or the write of a handler
  after-Leads :
      (s : TcpServer H) (h : Handler H) (failed wants : Bool) (state : H) (i : Interest)
      → IsValid s
      → find h.fd s.fds ≡ some h
      → Leads s (
          if failed
          then handle_close c (put_handler s h state) (record h { state = state })
          else some (
              if wants
              then want (put_handler s h state) (record h { state = state }) i
              else put_handler s h state))
  after-Leads s h failed wants state i v e =
      let ((w, l), there) = put_handler-Leads s h state v e in
      Leads-trans s (put_handler s h state) _ l (
        if_elim (Leads (put_handler s h state)) failed _ _
          (λ _. close-Leads (put_handler s h state) (record h { state = state }) w there)
          (λ _.
            if_elim (λ t. Leads (put_handler s h state) (some t)) wants _ _
              (λ _. want-Leads (put_handler s h state) (record h { state = state }) i w there)
              (λ _. Leads-refl (put_handler s h state) w)))

  event-Leads :
      (s : TcpServer H) (h : Handler H) (f : Flags)
      → IsValid s
      → find h.fd s.fds ≡ some h
      → Leads s (handle_event c s h f)
  unfolding handle_event
  event-Leads s h f v e =
      if_elim (Leads s) f.hang_up _ _ (λ _. close-Leads s h v e)
        (λ _.
          if_elim (Leads s) f.input _ _
            (λ _.
              after-Leads s h (c.handle_read h.state).0 (c.writable (c.handle_read h.state).1)
                (c.handle_read h.state).1 want_write v e)
            (λ _.
              if_elim (Leads s) f.output _ _
                (λ _.
                  after-Leads s h (c.handle_output h.state).0
                    (not (c.writable (c.handle_output h.state).1)) (c.handle_output h.state).1
                    want_read v e)
                (λ _. Leads-refl s v)))

  -- an event leads to a valid table
  pub dispatch-Leads :
      (s : TcpServer H) (u : ℕ) (f : Flags) → IsValid s → Leads s (dispatch c s u f)
  unfolding dispatch
  dispatch-Leads s u f v = go (find (data_fd u) s.fds) refl (v.at (data_fd u))
    where
      go :
          (o : Option (Handler H))
          → find (data_fd u) s.fds ≡ o
          → At s (data_fd u) o
          → Leads s (elim o as (λ _. Option (TcpServer H)) [
            | none ↦ some s
            | some h ↦ if h.fd_index == data_index u then handle_event c s h f else some s
          ])
      go none e a = Leads-refl s v
      go (some h) e a =
          if_elim (Leads s) (h.fd_index == data_index u) _ _
            (λ _. event-Leads s h f v (subst (λ k. find k s.fds ≡ some h) (sym a.0) e))
            (λ _. Leads-refl s v)
