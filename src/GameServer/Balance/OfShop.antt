-- ===== src/GameServer/Balance/OfShop.antt =====
-- The balance under the requests of Server/GameServer.cpp that buy and sell.
use thero_logic_server.Base.{ℕ, ◌≡◌, refl, inl, inr, Option-cases, arith}
use thero_logic_server.GameServer.{Tables, World}
use thero_logic_server.GameServer.Actions.{set_account, pay}
use thero_logic_server.GameServer.Balance.{IsSolvent, IsPriced, GoodsPrice, EnlargePrice, first-All}
use thero_logic_server.GameServer.Lookups.{get_production, get_enlarge}
use thero_logic_server.Base.Words.{int_add, int_sub}
use thero_logic_server.Base.{get_or, ◌<◌, ◌^◌, none, some, List, [], ◌∷◌}
use thero_logic_server.GameServer.{Goods, Enlarge, Answer, failed, unchanged, done}
use thero_logic_server.GameServer.Shop.{
  sell_production, handle_buy_production, handle_buy_enlarge_table, start_enlarge, enlarge_cost,
  add_bought,
}

pub handle_buy_production-IsSolvent :
    (t : Tables) (now pcate pframe dir x y : ℕ) (w : World)
    → IsPriced t
    → IsSolvent w
    → IsSolvent (handle_buy_production t now pcate pframe dir x y w).1
unfolding handle_buy_production add_bought pay set_account
handle_buy_production-IsSolvent t now pcate pframe dir x y w p h =
    elim (Option-cases (get_production t pcate pframe)) [
      | inl e ↦ ground (arith, e)
      | inr (g, e) ↦ ground (arith, e, first-All GoodsPrice _ t.goods g p.0 e)
    ]

start_enlarge-IsSolvent :
    (now coin money : ℕ) (e : Enlarge) (w : World)
    → coin < 2 ^ 31
    → money < 2 ^ 31
    → IsSolvent w
    → IsSolvent (start_enlarge now e coin money w).1
unfolding start_enlarge pay set_account
start_enlarge-IsSolvent now coin money e w c m h = ground arith

enlarge-IsSolvent :
    (t : Tables) (now playtype : ℕ) (w : World) (e : Enlarge)
    → get_enlarge t (int_add w.player.base_w 1) ≡ some e
    → e.coin < 2 ^ 31
    → e.money < 2 ^ 31
    → IsSolvent w
    → IsSolvent (handle_buy_enlarge_table t now playtype w).1
unfolding handle_buy_enlarge_table enlarge_cost
enlarge-IsSolvent t now playtype w e found c m h = ground (
  arith,
  found,
  start_enlarge-IsSolvent now (int_sub w.player.coin e.coin) (int_sub w.player.money 0) e w,
  start_enlarge-IsSolvent now (int_sub w.player.coin 0) (int_sub w.player.money e.money) e w,
)

pub handle_buy_enlarge_table-IsSolvent :
    (t : Tables) (now playtype : ℕ) (w : World)
    → IsPriced t
    → IsSolvent w
    → IsSolvent (handle_buy_enlarge_table t now playtype w).1
unfolding handle_buy_enlarge_table
handle_buy_enlarge_table-IsSolvent t now playtype w p h =
    elim (Option-cases (get_enlarge t (int_add w.player.base_w 1))) [
      | inl e ↦ absent e
      | inr (e, found) ↦
          (let cheap = first-All EnlargePrice _ t.enlarges e p.1 found in
            enlarge-IsSolvent t now playtype w e found cheap.0 cheap.1 h)
    ]
  where
    absent :
        get_enlarge t (int_add w.player.base_w 1) ≡ none
        → IsSolvent (handle_buy_enlarge_table t now playtype w).1
    absent e = ground (arith, e)

sold-IsSolvent :
    (t : Tables) (pid : ℕ) (w : World) (v : List ℕ) (rest : List Answer) (g : Goods)
    → w.answers ≡ done v ∷ rest
    → get_production t (get_or v 0 0) (get_or v 1 0) ≡ some g
    → g.sell_coin < 2 ^ 30
    → w.player.coin < 2 ^ 30
    → IsSolvent w
    → IsSolvent (sell_production t pid w).1
unfolding sell_production pay set_account
sold-IsSolvent t pid w v rest g a e cheap few h = ground (arith, a, e)

-- a sale, of a player who has fewer than 2 ^ 30 coins
pub sell_production-IsSolvent :
    (t : Tables) (pid : ℕ) (w : World)
    → IsPriced t
    → w.player.coin < 2 ^ 30
    → IsSolvent w
    → IsSolvent (sell_production t pid w).1
unfolding sell_production
sell_production-IsSolvent t pid w p few h = go w.answers refl
  where
    found :
        (v : List ℕ) (rest : List Answer)
        → w.answers ≡ done v ∷ rest
        → IsSolvent (sell_production t pid w).1
    found v rest a = elim (Option-cases (get_production t (get_or v 0 0) (get_or v 1 0))) [
      | inl e ↦ ground (arith, a, e)
      | inr (g, e) ↦
          sold-IsSolvent t pid w v rest g a e (first-All GoodsPrice _ t.goods g p.0 e).2 few h
    ]

    go : (answers : List Answer) → w.answers ≡ answers → IsSolvent (sell_production t pid w).1
    go [] a = ground (arith, a)
    go (failed ∷ rest) a = ground (arith, a)
    go (unchanged ∷ rest) a = ground (arith, a)
    go (done v ∷ rest) a = found v rest a
