-- ===== src/SocketServer/Sessions.antt =====
-- Identifiers, and finding a connection by its identifier.
use thero_logic_server.Base.{
  ℕ, zero, suc, ◌+◌, ◌^◌, ◌≤◌, ◌<◌, ◌≡◌, refl, ap, ◌∙◌, lt→ltb, Option, none, some, ◌>>=◌, List,
  length, arith,
}
use thero_logic_server.Base.Maps.{
  find, insert, find-insert, erase-insert, keys_from, keys_from_le, keys_from_found,
}
use thero_logic_server.SocketServer.{
  SocketServer, use_id_loop, get_use_id, create_handler, on_connect, on_disconnect, find_handler,
}

module _ {H : Type 0} where
  abbrev Frees : ℕ → ℕ → List (ℕ × H) → Option ℕ → Type 0
  Frees fuel id m none = ⊥
  Frees fuel id m (some r) = (find r m ≡ none) × (id ≤ r) × (r < id + fuel)

  use_id_loop_lem :
      (fuel id : ℕ) (m : List (ℕ × H))
      → keys_from id m < fuel
      → id + fuel ≤ 2 ^ 31
      → Frees fuel id m (use_id_loop fuel id m)
  unfolding use_id_loop
  use_id_loop_lem zero id m k b = absurd (omega arith)
  use_id_loop_lem (suc fuel) id m k b =
      rw (lt→ltb id (2 ^ 31) (omega arith)) (go (find id m) refl (use_id_loop_lem fuel (suc id) m))
    where
      wider : (o : Option ℕ) → Frees fuel (suc id) m o → Frees (suc fuel) id m o
      wider none f = f
      wider (some r) (f, a, c) = (f, omega arith, omega arith)

      go :
          (o : Option H)
          → find id m ≡ o
          → (keys_from (suc id) m < fuel
              → suc id + fuel ≤ 2 ^ 31
              → Frees fuel (suc id) m (use_id_loop fuel (suc id) m))
          → Frees
              (suc fuel)
              id
              m
              (elim o as (λ _. Option ℕ) [ none ↦ some id | some h ↦ use_id_loop fuel (suc id) m ])
      go none e ih = (e, omega arith, omega arith)
      go (some h) e ih = wider _ (ih (omega (arith, keys_from_found id h m e)) (omega arith))

  -- `GetUseID` ends, with an identifier that is larger than the last one, and that no connection has, as
  -- long as identifiers do not run out.
  pub get_use_id_lem :
      (s : SocketServer H)
      → s.max_id + length s.handler_map + 2 ≤ 2 ^ 31
      → (id : ℕ) × (get_use_id s ≡ some (id, record s { max_id = id }))
        × (s.max_id < id)
        × (find_handler s id ≡ none)
  unfolding get_use_id find_handler
  get_use_id_lem s b = go (use_id_loop (length s.handler_map + 1) (s.max_id + 1) s.handler_map) (
      use_id_loop_lem (length s.handler_map + 1) (s.max_id + 1) s.handler_map
        (omega (arith, keys_from_le (s.max_id + 1) s.handler_map)) (omega arith))
    where
      go :
          (o : Option ℕ)
          → Frees (length s.handler_map + 1) (s.max_id + 1) s.handler_map o
          → (id : ℕ) × (◌>>=◌ {B = ℕ × SocketServer H} o (λ id. some (id, record s { max_id = id }))
              ≡ some (id, record s { max_id = id }))
            × (s.max_id < id)
            × (find id s.handler_map ≡ none)
      go none f = absurd f
      go (some id) (f, a, c) = (id, refl, omega arith, f)

  -- the life of a connection: it is found while it lasts, and its end leaves the server as it was
  abbrev pub Session : (H → ℕ) → SocketServer H → H → Type 0
  Session handler_id s h =
      (s1 : SocketServer H) × (on_connect handler_id s h ≡ some s1)
      × (find_handler s1 (handler_id h) ≡ some h)
      × (on_disconnect handler_id s1 h ≡ some s)

  Session-of :
      (handler_id : H → ℕ) (s : SocketServer H) (h : H)
      → find (handler_id h) s.handler_map ≡ none
      → Session handler_id s h
  unfolding on_connect on_disconnect find_handler
  Session-of handler_id s h e = (
    record s { handler_map = insert (handler_id h) h s.handler_map },
    rw (on_connect, e) refl,
    there,
    rw (on_disconnect, there, erase-insert (handler_id h) h s.handler_map e) refl,
  )
    where
      there : find (handler_id h) (insert (handler_id h) h s.handler_map) ≡ some h
      there = find-insert (handler_id h) h s.handler_map

  -- A handler that `CreateHandler` makes can connect and disconnect without failing an assertion; from
  -- the one to the other it is found by its identifier, and behind that the server is as it was. The
  -- conditions are that identifiers do not run out, and that a handler keeps the identifier that it is
  -- made with.
  pub session_lem :
      (handler_id : H → ℕ) (new : ℕ → H) (s : SocketServer H)
      → s.max_id + length s.handler_map + 2 ≤ 2 ^ 31
      → ((id : ℕ) → handler_id (new id) ≡ id)
      → (h : H) × (s' : SocketServer H) × (create_handler new s ≡ some (h, s'))
        × Session handler_id s' h
  unfolding create_handler
  session_lem handler_id new s b k =
      let (id, e, l, f) = get_use_id_lem s b in
      (
        new id,
        record s { max_id = id },
        rw e refl,
        Session-of handler_id (record s { max_id = id }) (new id)
            (ap (λ j. find j s.handler_map) (k id) ∙ unfold find_handler in f),
      )
