-- ===== src/GameServer/Balance.antt =====
-- The player's balance, in memory and in the database, and the prices of the tables.
pub mod OfShop
pub mod OfMechines
pub mod OfCollecting
pub mod Runs
use mathlib.Core.Path.{subst}
use thero_logic_server.Base.{
  ℕ, ◌≡◌, ◌⊎◌, ◌==◌, refl, inl, inr, Bool, Bool-cases, true, false, Option, none, some, List, [],
  ◌∷◌, ◌<◌, ◌^◌, if◌then◌else◌, arith,
}
use thero_logic_server.GameServer.{MechineType, Tables, World, Goods, Enlarge}
use thero_logic_server.Base.Words.{int_add}
use thero_logic_server.GameServer.Mechines.{is_type}
use thero_logic_server.GameServer.Lookups.{first}
use thero_logic_server.GameServer.Actions.{
  Action, Done, Outcome, next, returned, crashed, ◌>>=◌, ◌>>◌, user_or, refuse_if, edit_reply,
  balance, price,
}

-- the balance in memory is that of the database, and it is not negative
abbrev pub IsSolvent : World → Type 0
IsSolvent w = (w.account ≡ balance w.player) × (w.player.coin < 2 ^ 31) × (w.player.money < 2 ^ 31)

abbrev pub All : {A : Type 0} → (A → Type 0) → List A → Type 0
All P [] = Unit {0}
All P (x ∷ xs) = P x × All P xs

abbrev pub GoodsPrice : Goods → Type 0
GoodsPrice g = (g.coin < 2 ^ 31) × (g.money < 2 ^ 31) × (g.sell_coin < 2 ^ 30)

abbrev pub EnlargePrice : Enlarge → Type 0
EnlargePrice e = (e.coin < 2 ^ 31) × (e.money < 2 ^ 31)

-- no price is negative, and none that is paid for goods reaches 2 ^ 30
abbrev pub IsPriced : Tables → Type 0
IsPriced t = All GoodsPrice t.goods × All EnlargePrice t.enlarges

-- what holds of all entries holds of the one that is found
pub first-All :
    {A : Type 0} (P : A → Type 0) (test : A → Bool) (xs : List A) (a : A)
    → All P xs
    → first test xs ≡ some a
    → P a
unfolding first
first-All P test [] a h e = cc
first-All P test (x ∷ xs) a h e = elim (Bool-cases (test x)) [
  | inl k ↦ subst P (ground (arith, k, e)) h.0
  | inr k ↦ first-All P test xs a h.1 (ground (arith, k, e))
]

-- the frame of the requests on the level of a mechine
pub request-IsSolvent :
    (experiment instor : MechineType) (pcate pframe cmd pid : ℕ) (m n : Action Done) (w : World)
    → IsSolvent w
    → IsSolvent (m w).1
    → IsSolvent (n w).1
    → IsSolvent
        ((do
          user_or (edit_reply cmd pid 1)
          refuse_if (is_type experiment pcate pframe) (edit_reply cmd pid 1)
          if is_type instor pcate pframe then m else n)
          w).1
request-IsSolvent experiment instor pcate pframe cmd pid m n w h k l = ground arith

-- one action after another
pub >>=-IsSolvent :
    {A B : Type 0} (m : Action A) (f : A → Action B) (w : World)
    → IsSolvent (m w).1
    → ((a : A) (v : World) → IsSolvent v → IsSolvent (f a v).1)
    → IsSolvent ((m >>= f) w).1
>>=-IsSolvent {A} m f w k l = go (m w).0 (m w).1 k
  where
    go : (o : Outcome A) (v : World) → IsSolvent v → IsSolvent (((λ _. (o, v)) >>= f) w).1
    go (next a) v h = l a v h
    go returned v h = h
    go crashed v h = h

-- a price changes nothing
pub price-world : (a b : ℕ) (w : World) → (price a b w).1 ≡ w
unfolding price
price-world a b w = ground arith
