-- ===== src/PlayerMgr/Presence.antt =====
-- Sequences of arrivals and departures of players, and where messages go meanwhile.
use thero_logic_server.Base.{
  ℕ, suc, ◌≡◌, refl, ap, Option-cases, inl, inr, ◌∙◌, Bool, true, false, ◌==◌, if◌then◌else◌,
  Option, none, some, ◌>>=◌, List, [], ◌∷◌, arith,
}
use thero_logic_server.Base.Maps.{
  find, insert, erase, find-insert, find-erase, find-erase_other, erase-insert,
}
use thero_logic_server.PlayerMgr.{
  PlayerMgr, nowhere, to_player, to_center, get_player, is_exist, get_player_num, add_player,
  del_player, get_user_server_id, db_user_server_id, send_msg_to_user,
}

-- a call that changes who is there
pub data Call (C : Type 0) : Type 0 where
  arrive : C → Call C
  leave : ℕ → Call C

module _ {C : Type 0} where
  -- the calls one after another, on the manager
  unfoldable pub run : (C → ℕ) → List (Call C) → PlayerMgr C → Option (PlayerMgr C)
  run get_id [] s = some s
  run get_id (arrive p ∷ calls) s = do s' ← add_player get_id s p; run get_id calls s'
  run get_id (leave u ∷ calls) s = run get_id calls (del_player s u).1

  -- who is there, as a function of the user
  abbrev pub put : ℕ → Option C → (ℕ → Option C) → ℕ → Option C
  put k o f u = if u == k then o else f u

  -- the same calls on such a function
  abbrev pub expected : (C → ℕ) → List (Call C) → (ℕ → Option C) → Option (ℕ → Option C)
  expected get_id [] f = some f
  expected get_id (arrive p ∷ calls) f = elim (f (get_id p)) as (λ _. Option (ℕ → Option C)) [
    | none ↦ expected get_id calls (put (get_id p) (some p) f)
    | some q ↦ none
  ]
  expected get_id (leave u ∷ calls) f = expected get_id calls (put u none f)

  abbrev pub Shows : PlayerMgr C → (ℕ → Option C) → Type 0
  Shows s f = (u : ℕ) → get_player s u ≡ f u

  abbrev pub Agree : Option (PlayerMgr C) → Option (ℕ → Option C) → Type 0
  Agree none none = Unit {0}
  Agree (some s) (some f) = Shows s f
  Agree _ _ = ⊥

  find-erase_if : (u k : ℕ) (m : List (ℕ × C)) → find u (erase k m) ≡ put k none (λ v. find v m) u
  find-erase_if u k m = ground (arith, find-erase k m, find-erase_other u k m)

  find_if : (u k : ℕ) (m : List (ℕ × C)) → find k m ≡ none → find u m ≡ put k none (λ v. find v m) u
  find_if u k m e = ground (arith, e)

  del_player-Shows :
      (s : PlayerMgr C) (f : ℕ → Option C) (k : ℕ)
      → Shows s f
      → Shows (del_player s k).1 (put k none f)
  unfolding get_player del_player
  del_player-Shows s f k h u = elim (Option-cases (find k s.players)) [
    | inl e ↦
        rw (e, del_player) (find_if u k s.players e ∙ ap (λ o. if u == k then none else o) (h u))
    | inr (p, e) ↦
        rw (e, del_player)
          (find-erase_if u k s.players ∙ ap (λ o. if u == k then none else o) (h u))
  ]

  add_player-Shows :
      (get_id : C → ℕ) (s : PlayerMgr C) (f : ℕ → Option C) (p : C)
      → Shows s f
      → Shows (record s { players = insert (get_id p) p s.players }) (put (get_id p) (some p) f)
  unfolding get_player
  add_player-Shows get_id s f p h u = ap (λ o. if u == get_id p then some p else o) (h u)

  -- After any sequence of arrivals and departures, `GetPlayer` finds each user just as a map from users
  -- to players does under the same calls; and `AddPlayer` fails its assertion exactly where that map has
  -- the user already.
  pub run_lem :
      (get_id : C → ℕ) (calls : List (Call C)) (s : PlayerMgr C) (f : ℕ → Option C)
      → Shows s f
      → Agree (run get_id calls s) (expected get_id calls f)
  unfolding run add_player is_exist
  run_lem get_id [] s f h = h
  run_lem get_id (leave k ∷ calls) s f h =
      run_lem get_id calls (del_player s k).1 (put k none f) (del_player-Shows s f k h)
  run_lem get_id (arrive p ∷ calls) s f h = elim (Option-cases (f (get_id p))) [
    | inl e ↦
        rw (expected, e, add_player, is_exist, shown ∙ e)
          (run_lem get_id calls (record s { players = insert (get_id p) p s.players })
            (put (get_id p) (some p) f) (add_player-Shows get_id s f p h))
    | inr (q, e) ↦ rw (expected, e, add_player, is_exist, shown ∙ e) tt
  ]
    where
      shown : find (get_id p) s.players ≡ f (get_id p)
      shown = unfold get_player in h (get_id p)

  -- While a player is there, a message to the player's number is sent to that player and to no server;
  -- once `DelPlayer` has removed the player, the manager is as it was before, a message with `rout` goes
  -- to the centre for the server that the database names, and without `rout` it goes nowhere, though the
  -- call returns true. The condition is that nobody with the number was there before.
  pub presence_lem :
      (get_id : C → ℕ) (own : ℕ) (s : PlayerMgr C) (p : C) (packet : List ℕ) (rout : Bool)
      → get_player s (get_id p) ≡ none
      → (s1 : PlayerMgr C) × (add_player get_id s p ≡ some s1)
        × (get_player_num s1 ≡ suc (get_player_num s))
        × (send_msg_to_user own s1 packet (get_id p) rout ≡ (to_player p packet, true))
        × (del_player s1 (get_id p) ≡ (true, s))
        × (send_msg_to_user own s packet (get_id p) true
            ≡ (to_center (record { server_id = 1; user_id = get_id p; packet = packet }), true))
        × (send_msg_to_user own s packet (get_id p) false ≡ (nowhere, true))
  unfolding get_player is_exist get_player_num add_player del_player get_user_server_id
      db_user_server_id send_msg_to_user
  presence_lem get_id own s p packet rout e = (
    record s { players = insert (get_id p) p s.players },
    rw (add_player, is_exist, absent) refl,
    refl,
    rw (send_msg_to_user, there) refl,
    rw (del_player, there, erase-insert (get_id p) p s.players e) refl,
    rw (send_msg_to_user, absent, named) refl,
    rw (send_msg_to_user, absent) refl,
  )
    where
      absent : find (get_id p) s.players ≡ none
      absent = unfold get_player in e

      named : get_user_server_id own s (get_id p) ≡ 1
      named = rw (get_user_server_id, absent) refl

      there : find (get_id p) (insert (get_id p) p s.players) ≡ some p
      there = find-insert (get_id p) p s.players
