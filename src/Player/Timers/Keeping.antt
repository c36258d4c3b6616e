-- ===== src/Player/Timers/Keeping.antt =====
-- What `ProcessMechineRequire` leaves alone.
use thero_logic_server.Base.{
  ℕ, zero, suc, ◌==◌, refl, Bool, true, false, if◌then◌else◌, Option, none, some, length, get_elem?,
  arith,
}
use thero_logic_server.Base.Words.{int_add}
use thero_logic_server.GameServer.{InfoCollect, ResourceProduc, Tables, World}
use thero_logic_server.GameServer.Actions.{Action, Done, ◌>>=◌, ◌>>◌, pure, gets, modify}
use thero_logic_server.Player.Check.{
  int_ge, check_instor, check_mechines, set_status, tick_collects,
}
use thero_logic_server.Player.Check.Keeping.{
  Same, >>=-Same, Kept-Same, Kept, >>=-Kept, check_instor-Same, set_status-Kept,
  check_mechines-Kept, tick_collects-Kept,
}
use thero_logic_server.Player.Timers.{
  store_produc, time_needed, produced, tick_produc, tick_producs, process_mechine_require,
}

produced-Kept : (c : ResourceProduc) (i : ℕ) (w : World) → Kept w (produced c i w).1
unfolding produced
produced-Kept c i w = ground (arith, set_status-Kept c.gid 7 w)

abbrev ticked : Tables → ResourceProduc → ResourceProduc
ticked t c = record c { usetime = int_add c.usetime t.check_time; state = 12 }

-- the body behind the write of the status, and its last test
abbrev reaching : Tables → ℕ → ℕ → ResourceProduc → Action Done
reaching t junk i c =
    if int_ge c.usetime (time_needed t junk c) then produced (ticked t c) i else pure tt

abbrev storing : Tables → ResourceProduc → Bool → Action Done
storing t c found = if found then store_produc (ticked t c) else pure tt

reaching-Kept :
    (t : Tables) (junk i : ℕ) (c : ResourceProduc) (w : World) → Kept w (reaching t junk i c w).1
reaching-Kept t junk i c w = ground (arith, produced-Kept (ticked t c) i w)

storing-Kept :
    (t : Tables) (c : ResourceProduc) (found : Bool) (w : World) → Kept w (storing t c found w).1
storing-Kept t c true w = (refl, refl, refl, refl, refl)
storing-Kept t c false w = (refl, refl, refl, refl, refl)

ticking-Kept :
    (t : Tables) (junk i : ℕ) (c : ResourceProduc) (w : World)
    → Kept w ((set_status c.gid 12 >>= λ found. storing t c found >> reaching t junk i c) w).1
ticking-Kept t junk i c w =
    >>=-Kept (set_status c.gid 12) (λ found. storing t c found >> reaching t junk i c) w
      (set_status-Kept c.gid 12 w)
      (λ found v.
        >>=-Kept (storing t c found) (λ _. reaching t junk i c) v (storing-Kept t c found v)
          (λ _. reaching-Kept t junk i c))

tick_produc-Kept :
    (t : Tables) (junk i : ℕ) (c : ResourceProduc) (w : World) → Kept w (tick_produc t junk i c w).1
unfolding tick_produc
tick_produc-Kept t junk i c w = go (c.state == 12)
  where
    go :
        (b : Bool)
        → Kept w
            ((if b
                then (set_status c.gid 12 >>= λ found. storing t c found >> reaching t junk i c)
                else pure tt)
              w).1
    go true = ticking-Kept t junk i c w
    go false = (refl, refl, refl, refl, refl)

abbrev at_index : Tables → ℕ → ℕ → Action Done
at_index t junk i v =
    elim (get_elem? v.player.producs i) as (λ _. Action Done) [
      | none ↦ pure tt
      | some c ↦ tick_produc t junk i c
    ]
      v

at_index-Kept : (t : Tables) (junk i : ℕ) (w : World) → Kept w (at_index t junk i w).1
at_index-Kept t junk i w = go (get_elem? w.player.producs i)
  where
    go :
        (o : Option ResourceProduc)
        → Kept w
            (elim o as (λ _. Action Done) [ none ↦ pure tt | some c ↦ tick_produc t junk i c ] w).1
    go none = (refl, refl, refl, refl, refl)
    go (some c) = tick_produc-Kept t junk i c w

tick_producs-Kept :
    (t : Tables) (junk rounds i : ℕ) (w : World) → Kept w (tick_producs t junk rounds i w).1
unfolding tick_producs
tick_producs-Kept t junk zero i w = (refl, refl, refl, refl, refl)
tick_producs-Kept t junk (suc rounds) i w =
    >>=-Kept (at_index t junk i) (λ _. tick_producs t junk rounds (suc i)) w
      (at_index-Kept t junk i w) (λ _. tick_producs-Kept t junk rounds (suc i))

-- the check from its second, third and fourth loop on
abbrev from_producs : Tables → ℕ → Action Done
from_producs t junk_time = do ps ← gets (λ p. p.producs); tick_producs t junk_time (length ps) 0

abbrev from_collects : Tables → ℕ → Action Done
from_collects t junk_time = do
  cs ← gets (λ p. p.info_collects)
  ds ← tick_collects t cs
  modify (λ p. record p { info_collects = ds })
  from_producs t junk_time

abbrev pub from_mechines : InfoCollect → ResourceProduc → ℕ → Tables → ℕ → Action Done
from_mechines junk junk_produc junk_time t now = do
  ms ← gets (λ p. p.mechines)
  check_mechines junk junk_produc t now (length ms) 0
  from_collects t junk_time

from_collects-Kept :
    (t : Tables) (junk_time : ℕ) (w : World) → Kept w (from_collects t junk_time w).1
from_collects-Kept t junk_time w =
    >>=-Kept (tick_collects t w.player.info_collects)
      (λ ds. modify (λ p. record p { info_collects = ds }) >> from_producs t junk_time) w
      (tick_collects-Kept t w.player.info_collects w)
      (λ ds v.
        tick_producs-Kept t junk_time (length v.player.producs) 0
          (record v { player = record v.player { info_collects = ds } }))

pub from_mechines-Kept :
    (junk : InfoCollect) (junk_produc : ResourceProduc) (junk_time : ℕ) (t : Tables) (now : ℕ)
    (w : World)
    → Kept w (from_mechines junk junk_produc junk_time t now w).1
from_mechines-Kept junk junk_produc junk_time t now w =
    >>=-Kept (check_mechines junk junk_produc t now (length w.player.mechines) 0)
      (λ _. from_collects t junk_time) w
      (check_mechines-Kept junk junk_produc t now (length w.player.mechines) 0 w)
      (λ _. from_collects-Kept t junk_time)

-- A check of the mechines changes neither the balance in memory nor that in the database, and every mechine
-- of the list keeps its place, its number and its type, however the database answers and whatever
-- uninitialised fields hold.
pub process_mechine_require-Same :
    (junk : InfoCollect) (junk_produc : ResourceProduc) (junk_time : ℕ) (t : Tables) (now : ℕ)
    (w : World)
    → Same w (process_mechine_require junk junk_produc junk_time t now w).1
unfolding process_mechine_require
process_mechine_require-Same junk junk_produc junk_time t now w =
    >>=-Same (check_instor now) (λ _. from_mechines junk junk_produc junk_time t now) w
      (check_instor-Same now w)
      (λ _ v.
        Kept-Same v (from_mechines junk junk_produc junk_time t now v).1
          (from_mechines-Kept junk junk_produc junk_time t now v))
