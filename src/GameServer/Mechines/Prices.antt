-- ===== src/GameServer/Mechines/Prices.antt =====
-- What a shorter wait costs.
use mathlib.Core.Path.{subst}
use thero_logic_server.Base.{
  sym, ℕ, ◌+◌, ◌-◌, ◌/◌, ◌%◌, ◌^◌, ◌≤◌, ◌<◌, ◌≡◌, refl, ap, ◌∙◌, Bool, true, false, ◌==◌,
  if◌then◌else◌, some, List, [], ◌∷◌, arith,
}
use thero_logic_server.Base.Words.{int_add, int_sub}
use thero_logic_server.GameServer.{World, Tables, Mechine, MechineUpLevel, Answer, done}
use thero_logic_server.GameServer.Lookups.{
  first, change_first, get_user_mechine, change_user_mechine, get_mechine_up_level,
}
use thero_logic_server.GameServer.Actions.{
  ◌>>=◌, returned, next, int_div, int_rem, price, set_account, pay, store_mechine,
}
use thero_logic_server.GameServer.Mechines.{
  pay_for_mechine, mechine_cost, instor_cost, speed_mechine, speed_instor, speed_reply,
}
use thero_logic_server.Packet.Output.{int, short}

-- a wait of `d` seconds that is still to come, as the difference that the code computes
abbrev pub early : ℕ → ℕ
early d = 2 ^ 32 - d

-- the money that is handed out for it
abbrev pub gain : ℕ → ℕ → ℕ
gain d k = if d % k == 0 then d / k else d / k - 1

div_bounds : (d k : ℕ) → 0 < k → k ≤ d → (1 ≤ d / k) × (d / k ≤ d)
div_bounds d k p h = grind arith

int_div-early : (d k : ℕ) → 0 < k → k ≤ d → d < 2 ^ 31 → int_div (early d) k ≡ 2 ^ 32 - d / k
unfolding int_div
int_div-early d k p h l = ground (arith, div_bounds d k)

int_rem-early : (d k : ℕ) → 0 < k → k ≤ d → d < 2 ^ 31 → (int_rem (early d) k == 0) ≡ (d % k == 0)
unfolding int_rem
int_rem-early d k p h l = ground arith

price-early :
    (d k : ℕ) (w : World)
    → 0 < k
    → k ≤ d
    → d < 2 ^ 31
    → price (early d) k w
      ≡ (next (if d % k == 0 then early (d / k) else early (d / k - 1) % 2 ^ 32), w)
unfolding price
price-early d k w p h l = ground (arith, div_bounds d k, int_div-early d k, int_rem-early d k)

int_sub-gain :
    (d k money : ℕ)
    → 0 < k
    → k ≤ d
    → d < 2 ^ 31
    → money + gain d k < 2 ^ 31
    → int_sub money (if d % k == 0 then early (d / k) else early (d / k - 1) % 2 ^ 32)
      ≡ money + gain d k
int_sub-gain d k money p h l f = ground (arith, div_bounds d k)

pub change_first-first :
    {A : Type 0} (test : A → Bool) (f : A → A) (xs : List A) (a : A)
    → first test xs ≡ some a
    → test (f a) ≡ true
    → first test (change_first test f xs) ≡ some (f a)
unfolding first change_first
change_first-first test f [] a e k = absurd cc
change_first-first test f (x ∷ xs) a e k = ground (arith, e, k, change_first-first test f xs a)

pub first-test :
    {A : Type 0} (test : A → Bool) (xs : List A) (a : A) → first test xs ≡ some a → test a ≡ true
unfolding first
first-test test [] a e = cc
first-test test (x ∷ xs) a e = ground (arith, first-test test xs a)

-- the mechine with a number, behind a change of it
pub change-found :
    (ms : List Mechine) (pid : ℕ) (m new : Mechine)
    → get_user_mechine ms pid ≡ some m
    → new.gid ≡ m.gid
    → get_user_mechine (change_user_mechine ms new) pid
      ≡ some (record m {
        cur_dir = new.cur_dir;
        endtime = new.endtime;
        level = new.level;
        position = new.position;
        positionx = new.positionx;
        positiony = new.positiony;
        status = new.status;
        is_dirty = true;
      })
change-found ms pid m new e g = rw same (change_first-first (λ x. x.gid == pid) _ ms m e k)
  where
    k : (m.gid == pid) ≡ true
    k = first-test (λ x. x.gid == pid) ms m e

    same : new.gid ≡ pid
    same = ground (arith, k, g)

-- the money for the wait, as the code computes it
abbrev early_price : ℕ → ℕ → ℕ
early_price d k = if d % k == 0 then early (d / k) else early (d / k - 1) % 2 ^ 32

-- what is changed once the price is known
abbrev Paid : ℕ → ℕ → Mechine → List Answer → World → World → Type 0
Paid money pid m rest w v =
    (v.player.money ≡ money)
    × (v.player.coin ≡ w.player.coin)
    × (get_user_mechine v.player.mechines pid
        ≡ some (record m { endtime = 0; status = 4; is_dirty = true }))
    × (v.answers ≡ rest)

pay_for_mechine-Paid :
    (pid cost money : ℕ) (w : World) (m : Mechine) (u v : List ℕ) (rest : List Answer)
    → get_user_mechine w.player.mechines pid ≡ some m
    → int_sub w.player.money cost ≡ money
    → money < 2 ^ 31
    → w.answers ≡ done u ∷ done v ∷ rest
    → Paid money pid m rest w (pay_for_mechine m pid cost w).1
unfolding pay_for_mechine pay set_account store_mechine
pay_for_mechine-Paid pid cost money w m u v rest found e small a = ground (
  arith,
  found,
  e,
  a,
  change-found w.player.mechines pid m (record m { endtime = 0; status = 4; is_dirty = false })
      found refl,
)

mechine_cost-early :
    (t : Tables) (now d pcate pframe pid : ℕ) (w : World) (m : Mechine) (r : MechineUpLevel)
    → get_user_mechine w.player.mechines pid ≡ some m
    → m.status ≡ 3
    → get_mechine_up_level t pcate pframe (int_add m.level 1) ≡ some r
    → price (int_sub now m.endtime) r.money_time w ≡ (next (early_price d r.money_time), w)
    → mechine_cost t now pcate pframe pid w ≡ (next (m, early_price d r.money_time), w)
unfolding mechine_cost
mechine_cost-early t now d pcate pframe pid w m r found s entry cost =
    ground (arith, found, s, entry, cost)

speed_mechine-early :
    (t : Tables) (now d pcate pframe pid : ℕ) (w : World) (m : Mechine) (r : MechineUpLevel)
    → get_user_mechine w.player.mechines pid ≡ some m
    → m.status ≡ 3
    → get_mechine_up_level t pcate pframe (int_add m.level 1) ≡ some r
    → price (int_sub now m.endtime) r.money_time w ≡ (next (early_price d r.money_time), w)
    → speed_mechine t now pcate pframe pid w ≡ pay_for_mechine m pid (early_price d r.money_time) w
unfolding speed_mechine
speed_mechine-early t now d pcate pframe pid w m r found s entry cost =
    ap (λ x. ((λ _. x) >>= λ found. pay_for_mechine found.0 pid found.1) w)
      (mechine_cost-early t now d pcate pframe pid w m r found s entry cost)

-- Speeding up a mechine whose new level is still to come takes no money: it hands out one for each whole
-- `money_time` of the `d` seconds that are left, less one if they do not come out even. The mechine is ready at
-- once, the coins stay, and two statements are all that the database is asked for. The conditions are that the mechine is found and is being raised, that its
-- next level has an entry with a `money_time` of at most `d` seconds, that the sum of the money fits, and that
-- the database accepts both statements.
pub speed_mechine_gains :
    (t : Tables) (now d pcate pframe pid : ℕ) (w : World) (m : Mechine) (r : MechineUpLevel)
    (u v : List ℕ) (rest : List Answer)
    → get_user_mechine w.player.mechines pid ≡ some m
    → m.status ≡ 3
    → get_mechine_up_level t pcate pframe (int_add m.level 1) ≡ some r
    → now + d ≡ m.endtime
    → m.endtime < 2 ^ 31
    → 0 < r.money_time
    → r.money_time ≤ d
    → w.player.money + gain d r.money_time < 2 ^ 31
    → w.answers ≡ done u ∷ done v ∷ rest
    → let w' = (speed_mechine t now pcate pframe pid w).1 in
      let p = w'.player in
      (p.money ≡ w.player.money + gain d r.money_time)
      × (p.coin ≡ w.player.coin)
      × (get_user_mechine p.mechines pid
          ≡ some (record m { endtime = 0; status = 4; is_dirty = true }))
      × (w'.answers ≡ rest)
speed_mechine_gains t now d pcate pframe pid w m r u v rest found s entry e l pos le fits a =
    subst (λ x. Paid (w.player.money + gain d r.money_time) pid m rest w x.1)
      (sym (speed_mechine-early t now d pcate pframe pid w m r found s entry cost))
      (pay_for_mechine-Paid pid (early_price d r.money_time) (w.player.money + gain d r.money_time)
        w m u v rest found (int_sub-gain d r.money_time w.player.money pos le (omega arith) fits)
        fits a)
  where
    cost : price (int_sub now m.endtime) r.money_time w ≡ (next (early_price d r.money_time), w)
    cost =
        ap (λ b. price b r.money_time w) (omega arith)
        ∙ price-early d r.money_time w pos le (omega arith)

-- The wait for a new level of the instructor cannot be shortened: as long as it lasts, and at its end, the request is
-- refused, whatever the tables and the database are, and nothing is changed, asked for or paid.
pub speed_instor_early :
    (t : Tables) (now pid : ℕ) (w : World)
    → now ≤ w.player.instor_mechine.endtime
    → w.player.instor_mechine.endtime < 2 ^ 31
    → speed_instor t now pid w ≡ (
      returned,
      record w {
        sent = record { command = speed_reply; fields = int pid ∷ short 1 ∷ [] } ∷ w.sent;
      },
    )
unfolding speed_instor instor_cost
speed_instor_early t now pid w e l = ground arith
