-- ===== src/TcpServer/Table.antt =====
-- The table's invariant and the operations.
use thero_logic_server.Base.{
  ℕ, ◌+◌, ◌-◌, ◌%◌, ◌^◌, ◌≤◌, ◌<◌, ◌≡◌, ◌≢◌, refl, sym, ap, ap₂, ◌∙◌, ◌⊎◌, inl, inr, true, lt→ltb,
  ◌==◌, Option, none, some, arith,
}
use native.Mathlib.Decide.{ℕ_discrete}
use mathlib.Core.Path.{subst}
use thero_logic_server.Base.Maps.{
  find, insert, erase, find-insert, find-insert_other, find-erase, find-erase_other, find-assign,
  find-assign_other,
}
use thero_logic_server.TcpServer.{
  max_descriptors, Interest, want_read, Handler, TcpServer, event_data, epoll_add, add_socket,
  remove_socket, want, put_handler,
}

-- a handler stands at its own descriptor, with a generation given out already, and epoll watches the
-- descriptor with the handler's generation
abbrev pub IsEntry : {H : Type 0} → TcpServer H → ℕ → Handler H → Type 0
IsEntry s k h =
    (h.fd ≡ k)
    × (h.fd_index ≤ s.fd_index)
    × (k < max_descriptors)
    × ((i : Interest) × (find k s.epoll ≡ some (event_data k h.fd_index, i)))

-- what there has to be at a descriptor, for what the table has there
abbrev pub At : {H : Type 0} → TcpServer H → ℕ → Option (Handler H) → Type 0
At s k none = find k s.epoll ≡ none
At s k (some h) = IsEntry s k h

pub record IsValid {H : Type 0} (s : TcpServer H) : Type 0 where
  pub small : s.fd_index < 2 ^ 32
  pub at : (k : ℕ) → At s k (find k s.fds)

module _ {H : Type 0} where
  -- Every handler of the later table was in the earlier one, or has a generation that was not given out.
  abbrev pub Source : TcpServer H → ℕ → Handler H → Type 0
  Source s j h =
      ((h0 : Handler H) × (find j s.fds ≡ some h0) × (h0.fd_index ≡ h.fd_index))
      ⊎ (s.fd_index < h.fd_index)

  pub record Later (s s' : TcpServer H) : Type 0 where
    pub counter : s.fd_index ≤ s'.fd_index
    pub source : (j : ℕ) (h : Handler H) → find j s'.fds ≡ some h → Source s j h

  pub Later-trans : (s s' s'' : TcpServer H) → Later s s' → Later s' s'' → Later s s''
  Later-trans s s' s'' l m = record {
    counter = omega (arith, l.counter, m.counter);
    source = λ j h e. go j h (m.source j h e);
  }
    where
      go : (j : ℕ) (h : Handler H) → Source s' j h → Source s j h
      go j h (inr n) = inr (omega (arith, l.counter))
      go j h (inl (h0, f, e)) = back (l.source j h0 f)
        where
          back : Source s j h0 → Source s j h
          back (inl (h1, g, d)) = inl (h1, g, d ∙ e)
          back (inr n) = inr (omega arith)

  -- what a step has to lead to
  abbrev pub Leads : TcpServer H → Option (TcpServer H) → Type 0
  Leads s none = ⊥
  Leads s (some s') = IsValid s' × Later s s'

  others :
      (s s' : TcpServer H) (k : ℕ) (o : Option (Handler H))
      → find k s'.epoll ≡ find k s.epoll
      → s.fd_index ≤ s'.fd_index
      → At s k o
      → At s' k o
  others s s' k none e c a = e ∙ a
  others s s' k (some h) e c (d, l, m, (i, f)) = (d, omega arith, m, (i, e ∙ f))

  -- an operation that changes one descriptor
  step-IsValid :
      (s s' : TcpServer H) (fd : ℕ)
      → IsValid s
      → s.fd_index ≤ s'.fd_index
      → s'.fd_index < 2 ^ 32
      → At s' fd (find fd s'.fds)
      → ((j : ℕ) → j ≢ fd → find j s'.fds ≡ find j s.fds)
      → ((j : ℕ) → j ≢ fd → find j s'.epoll ≡ find j s.epoll)
      → IsValid s'
  step-IsValid s s' fd v c b a f e = record {
    small = b;
    at = λ k. elim (ℕ_discrete k fd) [
      | yes same ↦ subst (λ k. At s' k (find k s'.fds)) (sym same) a
      | no other ↦
          subst (At s' k) (sym (f k other)) (others s s' k (find k s.fds) (e k other) c (v.at k))
    ];
  }

  step-Later :
      (s s' : TcpServer H) (fd : ℕ)
      → s.fd_index ≤ s'.fd_index
      → ((h : Handler H) → find fd s'.fds ≡ some h → Source s fd h)
      → ((j : ℕ) → j ≢ fd → find j s'.fds ≡ find j s.fds)
      → Later s s'
  step-Later s s' fd c a f = record {
    counter = c;
    source = λ j h e. elim (ℕ_discrete j fd) [
      | yes same ↦
          subst (λ k. Source s k h) (sym same) (a h (subst (λ k. find k s'.fds ≡ some h) same e))
      | no other ↦ inl (h, sym (f j other) ∙ e, refl)
    ];
  }

  abbrev added : TcpServer H → ℕ → H → TcpServer H
  added s fd state = record {
    fds = insert fd (record { fd = fd; fd_index = s.fd_index + 1; state = state }) s.fds;
    count_fd = s.count_fd + 1;
    fd_index = s.fd_index + 1;
    epoll = insert fd (event_data fd (s.fd_index + 1), want_read) s.epoll;
  }

  add_socket_lem :
      (s : TcpServer H) (fd : ℕ) (state : H)
      → fd < max_descriptors
      → find fd s.fds ≡ none
      → find fd s.epoll ≡ none
      → s.fd_index + 1 < 2 ^ 32
      → add_socket s fd state ≡ some (added s fd state)
  unfolding add_socket
  add_socket_lem s fd state m e w c =
      rw (lt→ltb fd max_descriptors m, e)
        (ap₂
          (λ i es. some (record {
            fds = insert fd (record { fd = fd; fd_index = i; state = state }) s.fds;
            count_fd = s.count_fd + 1;
            fd_index = i;
            epoll = es;
          }))
          index (ap (λ i. epoll_add fd (event_data fd i, want_read) s.epoll) index ∙ unwatched))
    where
      index : (s.fd_index + 1) % 2 ^ 32 ≡ s.fd_index + 1
      index = omega arith

      unwatched :
          epoll_add fd (event_data fd (s.fd_index + 1), want_read) s.epoll
          ≡ insert fd (event_data fd (s.fd_index + 1), want_read) s.epoll
      unwatched = rw (epoll_add, w) refl

  -- `AddSocket` of a descriptor that no handler has: the handler gets a new generation.
  pub add_socket-Leads :
      (s : TcpServer H) (fd : ℕ) (state : H)
      → IsValid s
      → fd < max_descriptors
      → find fd s.fds ≡ none
      → s.fd_index + 1 < 2 ^ 32
      → Leads s (add_socket s fd state)
  add_socket-Leads s fd state v m e c =
      subst (Leads s) (sym (add_socket_lem s fd state m e (subst (At s fd) e (v.at fd)) c)) (
        step-IsValid s t fd v (omega arith) c
            (subst (At t fd) (sym there)
              (refl, omega arith, m, (want_read, find-insert fd _ s.epoll)))
            (λ j n. find-insert_other j fd _ s.fds n) (λ j n. find-insert_other j fd _ s.epoll n),
        step-Later s t fd (omega arith) (λ h f. inr (omega (arith, ap index_of (sym f ∙ there))))
            (λ j n. find-insert_other j fd _ s.fds n),
      )
    where
      t : TcpServer H
      t = added s fd state

      there : find fd t.fds ≡ some (record { fd = fd; fd_index = s.fd_index + 1; state = state })
      there = find-insert fd (record { fd = fd; fd_index = s.fd_index + 1; state = state }) s.fds

      index_of : Option (Handler H) → ℕ
      index_of none = 0
      index_of (some h) = h.fd_index

  abbrev pub removed : TcpServer H → Handler H → TcpServer H
  removed s h = record s {
    fds = erase h.fd s.fds;
    count_fd = s.count_fd - 1;
    epoll = erase h.fd s.epoll;
  }

  pub remove_socket_lem :
      (s : TcpServer H) (h k : Handler H)
      → find h.fd s.fds ≡ some k
      → k.fd_index ≡ h.fd_index
      → remove_socket s h ≡ some (removed s h)
  unfolding remove_socket
  remove_socket_lem s h k e d = rw (remove_socket, e, same) refl
    where
      same : (k.fd_index == h.fd_index) ≡ true
      same = ground arith

  -- `RemoveSocket` of a handler that is in the table
  pub remove_socket-Leads :
      (s : TcpServer H) (h k : Handler H)
      → IsValid s
      → find h.fd s.fds ≡ some k
      → k.fd_index ≡ h.fd_index
      → Leads s (remove_socket s h)
  remove_socket-Leads s h k v e d = subst (Leads s) (sym (remove_socket_lem s h k e d)) (
    step-IsValid s t h.fd v (omega arith) v.small
        (subst (At t h.fd) (sym (find-erase h.fd s.fds)) (find-erase h.fd s.epoll))
        (λ j n. find-erase_other j h.fd s.fds n) (λ j n. find-erase_other j h.fd s.epoll n),
    step-Later s t h.fd (omega arith) (λ k f. absurd (no_some (sym (find-erase h.fd s.fds) ∙ f)))
        (λ j n. find-erase_other j h.fd s.fds n),
  )
    where
      t : TcpServer H
      t = removed s h

      no_some : {k : Handler H} → none ≡ some k → ⊥
      no_some f = absurd cc

  -- the handler's state is changed
  pub put_handler-Leads :
      (s : TcpServer H) (h : Handler H) (state : H)
      → IsValid s
      → find h.fd s.fds ≡ some h
      → Leads s (some (put_handler s h state))
        × (find h.fd (put_handler s h state).fds ≡ some (record h { state = state }))
  put_handler-Leads s h state v e = (
    (
      step-IsValid s t h.fd v (omega arith) v.small
          (subst (At t h.fd) (sym there) (subst (At s h.fd) e (v.at h.fd)))
          (λ j n. find-assign_other j h.fd _ s.fds n) (λ j n. refl),
      step-Later s t h.fd (omega arith) (λ k f. inl (h, e, ap index_of (some_eq (sym there ∙ f))))
          (λ j n. find-assign_other j h.fd _ s.fds n),
    ),
    there,
  )
    where
      t : TcpServer H
      t = put_handler s h state

      there : find h.fd t.fds ≡ some (record h { state = state })
      there = find-assign h.fd h (record h { state = state }) s.fds e

      index_of : Handler H → ℕ
      index_of k = k.fd_index

      some_eq : {k l : Handler H} → some k ≡ some l → k ≡ l
      some_eq {k} {l} f = ap (or_else k) f
        where
          or_else : Handler H → Option (Handler H) → Handler H
          or_else d none = d
          or_else d (some x) = x

  -- epoll's registration is changed
  pub want-Leads :
      (s : TcpServer H) (h : Handler H) (i : Interest)
      → IsValid s
      → find h.fd s.fds ≡ some h
      → Leads s (some (want s h i))
  want-Leads s h i v e = (
    step-IsValid s t h.fd v (omega arith) v.small
        (subst (At t h.fd) (sym e) (watch (subst (At s h.fd) e (v.at h.fd)))) (λ j n. refl)
        (λ j n. find-assign_other j h.fd _ s.epoll n),
    step-Later s t h.fd (omega arith) (λ k f. inl (k, f, refl)) (λ j n. refl),
  )
    where
      t : TcpServer H
      t = want s h i

      watch : IsEntry s h.fd h → IsEntry t h.fd h
      watch (d, l, m, (j, f)) =
          (d, l, m, (i, find-assign h.fd _ (event_data h.fd h.fd_index, i) s.epoll f))
