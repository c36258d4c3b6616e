-- ===== src/GameServer/Balance/Runs.antt =====
-- Sequences of the requests of Server/GameServer.cpp and of the checks of Server/Player.cpp, and the balance.
use mathlib.Core.Path.{subst}
use thero_logic_server.Base.{
  ℕ, ◌<◌, ◌^◌, ap, inl, inr, Bool-cases, ◌==◌, if◌then◌else◌, List, [], ◌∷◌, arith,
}
use thero_logic_server.GameServer.{InfoCollect, ResourceProduc, Tables, World}
use thero_logic_server.GameServer.Actions.{Action, Done}
use thero_logic_server.GameServer.Shop.{
  handle_edit_production, handle_buy_production, handle_buy_enlarge_table,
}
use thero_logic_server.GameServer.Mechines.{
  handle_up_next_level, handle_up_level, handle_comfor, handle_speed,
}
use thero_logic_server.GameServer.Collecting.{
  handle_collect_speed, handle_collect_coin, handle_status, handle_resource_produc,
  handle_resource_collect,
}
use thero_logic_server.Player.Timers.{process_mechine_require}
use thero_logic_server.Player.Timers.Keeping.{process_mechine_require-Same}
use thero_logic_server.GameServer.Balance.{IsSolvent, IsPriced}
use thero_logic_server.GameServer.Balance.OfShop.{
  handle_buy_production-IsSolvent, handle_buy_enlarge_table-IsSolvent, sell_production-IsSolvent,
}
use thero_logic_server.GameServer.Balance.OfMechines.{
  handle_up_next_level-IsSolvent, handle_up_level-IsSolvent, handle_comfor-IsSolvent,
  handle_speed-IsSolvent,
}
use thero_logic_server.GameServer.Balance.OfCollecting.{
  handle_collect_speed-IsSolvent, handle_collect_coin-IsSolvent, handle_status-IsSolvent,
  handle_resource_produc-IsSolvent, handle_resource_collect-IsSolvent,
}

-- a request with its numbers, or a check of the mechines
pub data Request : Type 0 where
  buy : ℕ → ℕ → ℕ → ℕ → ℕ → ℕ → Request
  edit : ℕ → ℕ → ℕ → ℕ → ℕ → Request
  enlarge : ℕ → ℕ → Request
  up_next_level : ℕ → ℕ → ℕ → ℕ → Request
  up_level : ℕ → ℕ → ℕ → Request
  comfor : ℕ → ℕ → ℕ → Request
  speed : ℕ → ℕ → ℕ → ℕ → Request
  collect_speed : ℕ → ℕ → ℕ → Request
  collect_coin : ℕ → ℕ → ℕ → Request
  status : ℕ → ℕ → ℕ → ℕ → ℕ → Request
  resource_produc : ℕ → ℕ → ℕ → ℕ → Request
  resource_collect : ℕ → ℕ → ℕ → Request
  check : InfoCollect → ResourceProduc → ℕ → ℕ → Request

unfoldable pub handle : Tables → Request → Action Done
handle t (buy now a b c d e) = handle_buy_production t now a b c d e
handle t (edit a b c d e) = handle_edit_production t a b c d e
handle t (enlarge now a) = handle_buy_enlarge_table t now a
handle t (up_next_level now a b c) = handle_up_next_level t now a b c
handle t (up_level a b c) = handle_up_level t a b c
handle t (comfor a b c) = handle_comfor t a b c
handle t (speed now a b c) = handle_speed t now a b c
handle t (collect_speed a b c) = handle_collect_speed t a b c
handle t (collect_coin a b c) = handle_collect_coin t a b c
handle t (status now a b c d) = handle_status t now a b c d
handle t (resource_produc a b c d) = handle_resource_produc t a b c d
handle t (resource_collect a b c) = handle_resource_collect t a b c
handle t (check a b c now) = process_mechine_require a b c t now

-- one request after another, whatever each ends with
unfoldable pub run : Tables → List Request → World → World
unfolding handle
run t [] w = w
run t (r ∷ rs) w = run t rs (handle t r w).1

-- at a sale the player has fewer than 2 ^ 30 coins
abbrev pub Fits : Request → World → Type 0
Fits (edit pid operator c d e) w = if operator == 2 then (w.player.coin < 2 ^ 30) else Unit {0}
Fits _ w = Unit {0}

abbrev pub AllFit : Tables → List Request → World → Type 0
AllFit t [] w = Unit {0}
AllFit t (r ∷ rs) w = Fits r w × AllFit t rs (handle t r w).1

edit-IsSolvent :
    (t : Tables) (pid operator dir x y : ℕ) (w : World)
    → IsPriced t
    → Fits (edit pid operator dir x y) w
    → IsSolvent w
    → IsSolvent (handle_edit_production t pid operator dir x y w).1
unfolding handle_edit_production
edit-IsSolvent t pid operator dir x y w p f h = elim (Bool-cases (operator == 1)) [
  | inl one ↦ ground (arith, one)
  | inr other ↦ elim (Bool-cases (operator == 2)) [
    | inl two ↦
        rw (handle_edit_production, other, two)
          (sell_production-IsSolvent t pid w p
            (subst (λ (A : Type 0). A)
              (ap (λ b. if b then (w.player.coin < 2 ^ 30) else Unit {0}) two) f)
            h)
    | inr neither ↦ ground (arith, other, neither)
  ]
]

handle-IsSolvent :
    (t : Tables) (r : Request) (w : World)
    → IsPriced t
    → Fits r w
    → IsSolvent w
    → IsSolvent (handle t r w).1
unfolding handle
handle-IsSolvent t (buy now a b c d e) w p f h =
    handle_buy_production-IsSolvent t now a b c d e w p h
handle-IsSolvent t (edit a b c d e) w p f h = edit-IsSolvent t a b c d e w p f h
handle-IsSolvent t (enlarge now a) w p f h = handle_buy_enlarge_table-IsSolvent t now a w p h
handle-IsSolvent t (up_next_level now a b c) w p f h =
    handle_up_next_level-IsSolvent t now a b c w h
handle-IsSolvent t (up_level a b c) w p f h = handle_up_level-IsSolvent t a b c w h
handle-IsSolvent t (comfor a b c) w p f h = handle_comfor-IsSolvent t a b c w h
handle-IsSolvent t (speed now a b c) w p f h = handle_speed-IsSolvent t now a b c w h
handle-IsSolvent t (collect_speed a b c) w p f h = handle_collect_speed-IsSolvent t a b c w h
handle-IsSolvent t (collect_coin a b c) w p f h = handle_collect_coin-IsSolvent t a b c w h
handle-IsSolvent t (status now a b c d) w p f h = handle_status-IsSolvent t now a b c d w h
handle-IsSolvent t (resource_produc a b c d) w p f h =
    handle_resource_produc-IsSolvent t a b c d w h
handle-IsSolvent t (resource_collect a b c) w p f h = handle_resource_collect-IsSolvent t a b c w h
handle-IsSolvent t (check a b c now) w p f h =
    ground (arith, process_mechine_require-Same a b c t now w)

-- After any sequence of requests and checks, however the database answers, the balance in memory is the one
-- in the database and is not negative, if it was so before. The conditions are that no price in the tables is
-- negative, that none that is paid for goods reaches 2 ^ 30, and that at each sale the player has fewer than
-- 2 ^ 30 coins.
pub run-IsSolvent :
    (t : Tables) (rs : List Request) (w : World)
    → IsPriced t
    → AllFit t rs w
    → IsSolvent w
    → IsSolvent (run t rs w)
unfolding run
run-IsSolvent t [] w p f h = h
run-IsSolvent t (r ∷ rs) w p f h =
    run-IsSolvent t rs (handle t r w).1 p f.1 (handle-IsSolvent t r w p f.0 h)
