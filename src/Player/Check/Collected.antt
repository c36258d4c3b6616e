-- ===== src/Player/Check/Collected.antt =====
-- How many checks it takes until what an information mechine collects can be fetched.
use thero_logic_server.Base.{
  ℕ, zero, suc, ◌+◌, ◌*◌, ◌^◌, ◌<◌, ◌≡◌, ◌∙◌, ap, true, ltb, if◌then◌else◌, arith,
}
use thero_logic_server.GameServer.{World, Tables, InfoCollect}
use thero_logic_server.GameServer.Actions.{Action, next, ◌>>=◌, pure}
use thero_logic_server.Player.Check.{set_status, tick_collect}

-- one check after another, on one record
abbrev pub ticks : ℕ → Tables → InfoCollect → Action InfoCollect
ticks zero t c = pure c
ticks (suc n) t c = tick_collect t c >>= ticks n t

-- the record with this time, complete or not
abbrev pub at_time : InfoCollect → ℕ → InfoCollect
at_time c left = record c {
  left_time = left;
  status = if ltb left c.need_time then 1 else 2;
  is_dirty = true;
}

tick_collect_lem :
    (t : Tables) (c : InfoCollect) (w : World)
    → c.status ≡ 1
    → c.need_time < 2 ^ 31
    → c.left_time + t.check_time < 2 ^ 31
    → (tick_collect t c w).0 ≡ next (at_time c (c.left_time + t.check_time))
unfolding tick_collect set_status
tick_collect_lem t c w s need fits = ground (arith, s)

goes_on :
    {A B : Type 0} (m : Action A) (f : A → Action B) (a : A) (w : World)
    → (m w).0 ≡ next a
    → ((m >>= f) w).0 ≡ (f a (m w).1).0
goes_on m f a w e = ground (arith, e)

-- An information mechine that collects is complete at the first check at which the time it has collected for, which
-- grows by the time between checks, reaches the time needed, and not before: `n` checks that do not reach it and one
-- more leave the record with the grown time, complete (status 2) if that reaches the time needed and collecting
-- (status 1) if not. The conditions are that the record is collecting and that the times are not negative numbers.
pub ticks_lem :
    (n : ℕ) (t : Tables) (c : InfoCollect) (w : World)
    → c.status ≡ 1
    → c.need_time < 2 ^ 31
    → c.left_time + n * t.check_time < c.need_time
    → c.left_time + (n * t.check_time + t.check_time) < 2 ^ 31
    → (ticks (suc n) t c w).0 ≡ next (at_time c (c.left_time + (n * t.check_time + t.check_time)))
ticks_lem zero t c w s need before fits =
    goes_on (tick_collect t c) pure (at_time c (c.left_time + t.check_time)) w
      (tick_collect_lem t c w s need (omega arith))
    ∙ ap (λ l. next (at_time c l)) (omega arith)
ticks_lem (suc n) t c w s need before fits =
    goes_on (tick_collect t c) (ticks (suc n) t) first w
      (tick_collect_lem t c w s need (omega arith))
    ∙ ticks_lem n t first (tick_collect t c w).1 (ground arith) need (omega arith) (omega arith)
    ∙ ap (λ l. next (at_time c l)) (omega arith)
  where
    first : InfoCollect
    first = at_time c (c.left_time + t.check_time)
