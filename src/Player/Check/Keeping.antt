-- ===== src/Player/Check/Keeping.antt =====
-- What the check of the mechines leaves alone: the balance, and the numbers and types of the mechines.
use thero_logic_server.Base.{
  ℕ, zero, suc, ◌≡◌, refl, ◌∙◌, false, Option, none, some, List, [], ◌∷◌, map, get_elem?, arith,
}
use thero_logic_server.GameServer.{Mechine, InfoCollect, ResourceProduc, Tables, World}
use thero_logic_server.GameServer.Lookups.{change_first, change_user_mechine}
use thero_logic_server.GameServer.Actions.{
  Action, Done, Outcome, next, returned, crashed, ◌>>=◌, ◌>>◌, pure, balance, store_mechine,
}
use thero_logic_server.Player.Check.{
  raise, check_instor, finish_raise, finish_info, finish_resource, ensure_collect, ensure_produc,
  check_mechine, check_mechines, set_status, tick_collect, tick_collects,
}

-- the number and the type
abbrev pub identity : Mechine → ℕ × ℕ × ℕ
identity m = (m.gid, m.pcate, m.pframe)

abbrev pub identities : World → List (ℕ × ℕ × ℕ)
identities w = map identity w.player.mechines

-- the balances, the player's number and the identities are the same
abbrev pub Same : World → World → Type 0
Same w v =
    (v.account ≡ w.account)
    × (balance v.player ≡ balance w.player)
    × (v.player.mid ≡ w.player.mid)
    × (identities v ≡ identities w)

-- and so is the instructor
abbrev pub Kept : World → World → Type 0
Kept w v =
    (v.account ≡ w.account)
    × (balance v.player ≡ balance w.player)
    × (v.player.mid ≡ w.player.mid)
    × (identities v ≡ identities w)
    × (v.player.instor_mechine ≡ w.player.instor_mechine)

pub Kept-Same : (w v : World) → Kept w v → Same w v
Kept-Same w v (a, b, m, i, k) = (a, b, m, i)

pub Same-trans : (u v w : World) → Same u v → Same v w → Same u w
Same-trans u v w (a, b, m, i) (a', b', m', i') = (a' ∙ a, b' ∙ b, m' ∙ m, i' ∙ i)

-- one action after another
pub >>=-Same :
    {A B : Type 0} (m : Action A) (f : A → Action B) (w : World)
    → Same w (m w).1
    → ((a : A) (v : World) → Same v (f a v).1)
    → Same w ((m >>= f) w).1
>>=-Same {A} m f w h k = go (m w).0 (m w).1 h
  where
    go : (o : Outcome A) (v : World) → Same w v → Same w (((λ _. (o, v)) >>= f) w).1
    go (next a) v h = Same-trans w v (f a v).1 h (k a v)
    go returned v h = h
    go crashed v h = h

Kept-trans : (u v w : World) → Kept u v → Kept v w → Kept u w
Kept-trans u v w (a, b, m, i, k) (a', b', m', i', k') = (a' ∙ a, b' ∙ b, m' ∙ m, i' ∙ i, k' ∙ k)

pub >>=-Kept :
    {A B : Type 0} (m : Action A) (f : A → Action B) (w : World)
    → Kept w (m w).1
    → ((a : A) (v : World) → Kept v (f a v).1)
    → Kept w ((m >>= f) w).1
>>=-Kept {A} m f w h k = go (m w).0 (m w).1 h
  where
    go : (o : Outcome A) (v : World) → Kept w v → Kept w (((λ _. (o, v)) >>= f) w).1
    go (next a) v h = Kept-trans w v (f a v).1 h (k a v)
    go returned v h = h
    go crashed v h = h

-- what comes behind an action keeps the instructor
pub >>=-instor :
    {A B : Type 0} (m : Action A) (f : A → Action B) (w : World)
    → ((a : A) (v : World) → Kept v (f a v).1)
    → ((m >>= f) w).1.player.instor_mechine ≡ (m w).1.player.instor_mechine
>>=-instor {A} m f w k = go (m w).0 (m w).1
  where
    go :
        (o : Outcome A) (v : World)
        → (((λ _. (o, v)) >>= f) w).1.player.instor_mechine ≡ v.player.instor_mechine
    go (next a) v = (k a v).4
    go returned v = refl
    go crashed v = refl

pub identity-change :
    (ms : List Mechine) (m : Mechine) → map identity (change_user_mechine ms m) ≡ map identity ms
unfolding change_first
identity-change [] m = refl
identity-change (x ∷ xs) m = ground (arith, identity-change xs m)

pub check_instor-Same : (now : ℕ) (w : World) → Same w (check_instor now w).1
unfolding check_instor store_mechine
check_instor-Same now w = ground arith

finish_raise-Kept : (now : ℕ) (m : Mechine) (w : World) → Kept w (finish_raise now m w).1
unfolding finish_raise store_mechine
finish_raise-Kept now m w = ground (
  arith,
  identity-change w.player.mechines (raise m),
  identity-change w.player.mechines (record (raise m) { is_dirty = false }),
)

pub set_status-Kept : (gid status : ℕ) (w : World) → Kept w (set_status gid status w).1
unfolding set_status
set_status-Kept gid status w = grind (arith, identity-change)

tick_collect-Kept : (t : Tables) (c : InfoCollect) (w : World) → Kept w (tick_collect t c w).1
unfolding tick_collect
tick_collect-Kept t c w =
    ground (arith, set_status-Kept c.gid 8 w, set_status-Kept c.gid 9 (set_status c.gid 8 w).1)

pub tick_collects-Kept :
    (t : Tables) (cs : List InfoCollect) (w : World) → Kept w (tick_collects t cs w).1
unfolding tick_collects
tick_collects-Kept t [] w = (refl, refl, refl, refl, refl)
tick_collects-Kept t (c ∷ cs) w =
    ground (arith, tick_collect-Kept t c w, tick_collects-Kept t cs (tick_collect t c w).1)

module _ (junk : InfoCollect) (junk_produc : ResourceProduc) (t : Tables) where
  finish_info-Kept :
      (now : ℕ) (m : Mechine) (w : World) → Kept w (finish_info junk junk_produc t now m w).1
  unfolding finish_info store_mechine
  finish_info-Kept now m w = ground (
    arith,
    identity-change w.player.mechines (record m { endtime = 0; status = 8 }),
    identity-change w.player.mechines (record m { endtime = 0; status = 8; is_dirty = false }),
  )

  finish_resource-Kept :
      (now : ℕ) (m : Mechine) (w : World) → Kept w (finish_resource junk junk_produc t now m w).1
  unfolding finish_resource store_mechine
  finish_resource-Kept now m w = ground (
    arith,
    identity-change w.player.mechines (record m { status = 0 }),
    identity-change w.player.mechines (record m { status = 0; is_dirty = false }),
  )

  ensure_collect-Kept : (m : Mechine) (w : World) → Kept w (ensure_collect junk junk_produc t m w).1
  unfolding ensure_collect
  ensure_collect-Kept m w = ground arith

  ensure_produc-Kept : (m : Mechine) (w : World) → Kept w (ensure_produc junk junk_produc t m w).1
  unfolding ensure_produc
  ensure_produc-Kept m w = ground arith

  -- the body of the loop from its second, third and fourth step on
  abbrev from_ensure : ℕ → Mechine → Action Done
  from_ensure now m = do ensure_collect junk junk_produc t m; ensure_produc junk junk_produc t m

  abbrev from_resource : ℕ → Mechine → Action Done
  from_resource now m = do c ← finish_resource junk junk_produc t now m; from_ensure now c

  abbrev from_info : ℕ → Mechine → Action Done
  from_info now m = do b ← finish_info junk junk_produc t now m; from_resource now b

  from_ensure-Kept : (now : ℕ) (m : Mechine) (w : World) → Kept w (from_ensure now m w).1
  from_ensure-Kept now m w =
      >>=-Kept (ensure_collect junk junk_produc t m) (λ _. ensure_produc junk junk_produc t m) w
        (ensure_collect-Kept m w) (λ _ v. ensure_produc-Kept m v)

  from_resource-Kept : (now : ℕ) (m : Mechine) (w : World) → Kept w (from_resource now m w).1
  from_resource-Kept now m w =
      >>=-Kept (finish_resource junk junk_produc t now m) (from_ensure now) w
        (finish_resource-Kept now m w) (from_ensure-Kept now)

  from_info-Kept : (now : ℕ) (m : Mechine) (w : World) → Kept w (from_info now m w).1
  from_info-Kept now m w =
      >>=-Kept (finish_info junk junk_produc t now m) (from_resource now) w
        (finish_info-Kept now m w) (from_resource-Kept now)

  check_mechine-Kept :
      (now : ℕ) (m : Mechine) (w : World) → Kept w (check_mechine junk junk_produc t now m w).1
  unfolding check_mechine
  check_mechine-Kept now m w =
      >>=-Kept (finish_raise now m) (from_info now) w (finish_raise-Kept now m w)
        (from_info-Kept now)

  at_index-Kept :
      (now i : ℕ) (w : World)
      → Kept w
          (elim (get_elem? w.player.mechines i) as (λ _. Action Done) [
            | none ↦ pure tt
            | some m ↦ check_mechine junk junk_produc t now m
          ]
            w).1
  at_index-Kept now i w = go (get_elem? w.player.mechines i)
    where
      go :
          (o : Option Mechine)
          → Kept w
              (elim o as (λ _. Action Done) [
                | none ↦ pure tt
                | some m ↦ check_mechine junk junk_produc t now m
              ]
                w).1
      go none = (refl, refl, refl, refl, refl)
      go (some m) = check_mechine-Kept now m w

  pub check_mechines-Kept :
      (now rounds i : ℕ) (w : World) → Kept w (check_mechines junk junk_produc t now rounds i w).1
  unfolding check_mechines
  check_mechines-Kept now zero i w = (refl, refl, refl, refl, refl)
  check_mechines-Kept now (suc rounds) i w =
      >>=-Kept
        (λ v.
          elim (get_elem? v.player.mechines i) as (λ _. Action Done) [
            | none ↦ pure tt
            | some m ↦ check_mechine junk junk_produc t now m
          ]
            v)
        (λ _. check_mechines junk junk_produc t now rounds (suc i)) w (at_index-Kept now i w)
        (λ _. check_mechines-Kept now rounds (suc i))
