-- ===== src/PlayerMgr/Tests.antt =====
-- Players are numbers with themselves as their identifiers.
use thero_logic_server.Base.{ℕ, suc, ◌+◌, ◌≡◌, refl, true, false, none, some, List, [], ◌∷◌}
use thero_logic_server.PlayerMgr.{
  PlayerMgr, nowhere, to_player, to_center, get_player, is_exist, get_player_num, add_player,
  del_player, get_user_state, db_user_state, send_msg_to_user,
}
use thero_logic_server.PlayerMgr.Presence.{
  Call, arrive, leave, run, expected, Agree, Shows, run_lem, presence_lem,
}

abbrev itself : ℕ → ℕ
itself n = n

abbrev nobody : PlayerMgr ℕ
nobody = record { players = [] }

abbrev two : PlayerMgr ℕ
two = record { players = (7, 7) ∷ (4, 4) ∷ [] }

abbrev calls : List (Call ℕ)
calls = arrive 4 ∷ arrive 7 ∷ leave 4 ∷ arrive 4 ∷ []

add_player_again : add_player itself two 4 ≡ none
unfolding add_player is_exist
add_player_again = refl

del_player_absent : del_player two 5 ≡ (false, two)
unfolding del_player
del_player_absent = refl

get_user_state_runs :
    (get_user_state (λ p. p + 1) two 4 ≡ 5) × (get_user_state (λ p. p + 1) two 5 ≡ 0)
unfolding get_user_state db_user_state
get_user_state_runs = (refl, refl)

nobody-Shows : Shows nobody (λ u. none)
unfolding get_player
nobody-Shows u = refl

run_lem_example : Agree (run itself calls nobody) (expected itself calls (λ u. none))
run_lem_example = run_lem itself calls nobody (λ u. none) nobody-Shows

absent-two : get_player two (itself 5) ≡ none
unfolding get_player
absent-two = refl

presence_lem_example :
    (s1 : PlayerMgr ℕ) × (add_player itself two 5 ≡ some s1)
    × (get_player_num s1 ≡ suc (get_player_num two))
    × (send_msg_to_user 3 s1 (1 ∷ 2 ∷ []) 5 true ≡ (to_player 5 (1 ∷ 2 ∷ []), true))
    × (del_player s1 5 ≡ (true, two))
    × (send_msg_to_user 3 two (1 ∷ 2 ∷ []) 5 true
        ≡ (to_center (record { server_id = 1; user_id = 5; packet = 1 ∷ 2 ∷ [] }), true))
    × (send_msg_to_user 3 two (1 ∷ 2 ∷ []) 5 false ≡ (nowhere, true))
presence_lem_example = presence_lem itself 3 two 5 (1 ∷ 2 ∷ []) true absent-two
