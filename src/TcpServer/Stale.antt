-- ===== src/TcpServer/Stale.antt =====
-- Events left over from a connection that is gone, and the serial number that guards against them.
use thero_logic_server.Base.{
  ℕ, ◌+◌, ◌^◌, ◌≤◌, ◌<◌, ◌≡◌, ◌≢◌, refl, ap₂, ◌∙◌, inl, inr, false, ◌==◌, if◌then◌else◌, Option,
  none, some, ◌>>=◌, List, [], ◌∷◌, arith,
}
use thero_logic_server.Base.Maps.{find}
use thero_logic_server.TcpServer.{
  max_descriptors, Handler, TcpServer, Flags, event_data, data_fd, data_index, add_socket,
  Callbacks, handle_event, dispatch,
}
use thero_logic_server.TcpServer.Table.{IsValid, Later, Source, Leads, add_socket-Leads}
use thero_logic_server.TcpServer.Events.{dispatch-Leads}

module _ {H : Type 0} (c : Callbacks H) where
  -- what the server does: it accepts a connection, or dispatches an event
  pub data Op : Type 0 where
    accepts : ℕ → H → Op
    event : ℕ → Flags → Op

  unfoldable pub run_op : TcpServer H → Op → Option (TcpServer H)
  unfolding add_socket dispatch
  run_op s (accepts fd state) = add_socket s fd state
  run_op s (event u f) = dispatch c s u f

  unfoldable pub run : TcpServer H → List Op → Option (TcpServer H)
  unfolding run_op
  run s [] = some s
  run s (o ∷ os) = run_op s o >>= λ s'. run s' os

  -- The descriptor of a new connection is not in use, and the generations do not run out.
  abbrev pub Allowed : TcpServer H → Op → Type 0
  Allowed s (accepts fd state) =
      (fd < max_descriptors) × (find fd s.fds ≡ none) × (s.fd_index + 1 < 2 ^ 32)
  Allowed s (event u f) = Unit {0}

  unfoldable pub Admissible : TcpServer H → List Op → Type 0
  Admissible s [] = Unit {0}
  Admissible s (o ∷ os) =
      Allowed s o
      × (elim (run_op s o) as (λ _. Type 0) [ none ↦ Unit {0} | some s' ↦ Admissible s' os ])

  -- a generation that was given out, and is not that of the descriptor's handler
  pub record Gone (s : TcpServer H) (fd index : ℕ) : Type 0 where
    pub given : index ≤ s.fd_index
    pub replaced : (h : Handler H) → find fd s.fds ≡ some h → h.fd_index ≢ index

  Gone-Later : (s s' : TcpServer H) (fd index : ℕ) → Gone s fd index → Later s s' → Gone s' fd index
  Gone-Later s s' fd index g l = record {
    given = omega (arith, g.given, l.counter);
    replaced = λ h e. go h (l.source fd h e);
  }
    where
      go : (h : Handler H) → Source s fd h → h.fd_index ≢ index
      go h (inl (h0, f, d)) = λ e. g.replaced h0 f (d ∙ e)
      go h (inr n) = λ e. absurd (omega (arith, g.given))

  run_op-Leads : (s : TcpServer H) (o : Op) → IsValid s → Allowed s o → Leads s (run_op s o)
  unfolding run_op
  run_op-Leads s (accepts fd state) v (m, e, n) = add_socket-Leads s fd state v m e n
  run_op-Leads s (event u f) v a = dispatch-Leads c s u f v

  abbrev Ends : TcpServer H → ℕ → ℕ → Option (TcpServer H) → Type 0
  Ends s fd index none = ⊥
  Ends s fd index (some s') = IsValid s' × Gone s' fd index

  run-Ends :
      (ops : List Op) (s : TcpServer H) (fd index : ℕ)
      → IsValid s
      → Gone s fd index
      → Admissible s ops
      → Ends s fd index (run s ops)
  unfolding run Admissible
  run-Ends [] s fd index v g a = (v, g)
  run-Ends (o ∷ ops) s fd index v g a = go (run_op s o) (run_op-Leads s o v a.0) a.1 (run-Ends ops)
    where
      go :
          (r : Option (TcpServer H))
          → Leads s r
          → (elim r as (λ _. Type 0) [ none ↦ Unit {0} | some s' ↦ Admissible s' ops ])
          → ((s : TcpServer H) (fd index : ℕ)
              → IsValid s
              → Gone s fd index
              → Admissible s ops
              → Ends s fd index (run s ops))
          → Ends s fd index (r >>= λ s'. run s' ops)
      go none l a ih = l
      go (some s') (w, l) a ih = ih s' fd index w (Gone-Later s s' fd index g l) a

  dispatch-Gone :
      (s : TcpServer H) (fd index : ℕ) (f : Flags)
      → fd < 2 ^ 32
      → index < 2 ^ 32
      → Gone s fd index
      → dispatch c s (event_data fd index) f ≡ some s
  unfolding dispatch
  dispatch-Gone s fd index f m n g =
      ap₂
        (λ k i. elim (find k s.fds) as (λ _. Option (TcpServer H)) [
          | none ↦ some s
          | some h ↦ if h.fd_index == i then handle_event c s h f else some s
        ])
        decoded.0 decoded.1
      ∙ go (find fd s.fds) refl
    where
      decoded : (data_fd (event_data fd index) ≡ fd) × (data_index (event_data fd index) ≡ index)
      decoded = omega arith

      go :
          (o : Option (Handler H))
          → find fd s.fds ≡ o
          → (elim o as (λ _. Option (TcpServer H)) [
            | none ↦ some s
            | some h ↦ if h.fd_index == index then handle_event c s h f else some s
          ])
            ≡ some s
      go none e = refl
      go (some h) e = rw (other h e) refl
        where
          other : (h : Handler H) → find fd s.fds ≡ some h → (h.fd_index == index) ≡ false
          other h e = ground (arith, g.replaced h e)

  -- An event of epoll that was registered for a connection that is gone is ignored: after any sequence
  -- of accepted connections and dispatched events, which never fails an assertion, dispatching it
  -- changes nothing, though the descriptor may belong to another connection by then. The conditions
  -- are that accepted descriptors are not in use and that the generations, which have 32 bits, do not
  -- run out.
  pub stale_event_lem :
      (s : TcpServer H) (ops : List Op) (fd index : ℕ) (f : Flags)
      → IsValid s
      → fd < 2 ^ 32
      → index < 2 ^ 32
      → Gone s fd index
      → Admissible s ops
      → (s' : TcpServer H) × (run s ops ≡ some s')
        × IsValid s'
        × (dispatch c s' (event_data fd index) f ≡ some s')
  stale_event_lem s ops fd index f v m n g a = go (run s ops) refl (run-Ends ops s fd index v g a)
    where
      go :
          (r : Option (TcpServer H))
          → run s ops ≡ r
          → Ends s fd index r
          → (s' : TcpServer H) × (run s ops ≡ some s')
            × IsValid s'
            × (dispatch c s' (event_data fd index) f ≡ some s')
      go none e d = absurd d
      go (some s') e (w, h) = (s', e, w, dispatch-Gone s' fd index f m n h)
