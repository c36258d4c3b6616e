-- ===== src/Player/Timers.antt =====
-- Server/Player.cpp, the timers of `CPlayer`: the rest of `ProcessMechineRequire`, `ProcessMechineWriteDB`, and
-- `ProcessOnTimerOut`, which calls them.
pub mod Keeping
pub mod Levels
pub mod Writes
mod Tests
use thero_logic_server.Base.{
  ℕ, zero, suc, ◌+◌, Bool, true, false, not, ◌&&◌, ◌==◌, if◌then◌else◌, Option, none, some, List,
  [], ◌∷◌, length, get_elem?,
}
use thero_logic_server.Base.Words.{int_add}
use thero_logic_server.Packet.Output.{Field, int, short}
use thero_logic_server.GameServer.{
  Mechine, InfoCollect, ResourceProduc, ResourceType, Tables, Player, Answer, failed, unchanged,
  done, update_info_collect, update_res_produc,
}
use thero_logic_server.GameServer.Lookups.{change_res_produc, get_resource_mechine}
use thero_logic_server.GameServer.Actions.{
  Action, Done, ◌>>=◌, ◌>>◌, pure, gets, modify, send, ask, store_mechine,
}
use thero_logic_server.GameServer.Mechines.{set_instor}
use thero_logic_server.GameServer.Collecting.{info_can_collect_reply}
use thero_logic_server.Player.Check.{
  int_ge, check_instor, check_mechines, set_status, tick_collects,
}

-- a write to the element at an index, which is within
abbrev pub set_at :
    List ResourceProduc → ℕ → (ResourceProduc → ResourceProduc) → List ResourceProduc
set_at [] i f = []
set_at (x ∷ xs) zero f = f x ∷ xs
set_at (x ∷ xs) (suc i) f = x ∷ set_at xs i f

-- `ChangUserResMechineProduc` on the player's list
abbrev pub store_produc : ResourceProduc → Action Done
store_produc r = modify (λ p. record p { producs = change_res_produc p.producs r })

-- the time that the table has for a record, or what an unset field holds
abbrev pub time_needed : Tables → ℕ → ResourceProduc → ℕ
time_needed t junk_time c = elim (get_resource_mechine t c.pcate c.pframe c.level c.pmode) [
  | none ↦ junk_time
  | some r ↦ r.need_time
]

-- the end of the body, once the time is reached: the message names the record at the index
unfoldable pub produced : ResourceProduc → ℕ → Action Done
unfolding set_status
produced ticked i = do
  found ← set_status ticked.gid 7
  if found then store_produc (record ticked { state = 7 }) else pure tt
  modify (λ p. record p {
    producs = set_at p.producs i (λ c. record c { state = 12; is_dirty = true });
  })
  ps ← gets (λ p. p.producs)
  elim (get_elem? ps i) [
    | none ↦ pure tt
    | some c ↦ send info_can_collect_reply (int c.gid ∷ short 0 ∷ [])
  ]

-- the body of the loop over the records of what is produced, at index `i`
unfoldable pub tick_produc : Tables → ℕ → ℕ → ResourceProduc → Action Done
unfolding set_status produced
tick_produc t junk_time i c =
    if c.state == 12
    then (do
      let ticked = record c { usetime = int_add c.usetime t.check_time; state = 12 }
      found ← set_status c.gid 12
      if found then store_produc ticked else pure tt
      if int_ge c.usetime (time_needed t junk_time c) then produced ticked i else pure tt)
    else pure tt

-- the loop, at index `i` with so many rounds to go
unfoldable pub tick_producs : Tables → ℕ → ℕ → ℕ → Action Done
unfolding tick_produc
tick_producs t junk_time zero i = pure tt
tick_producs t junk_time (suc rounds) i = do
  ps ← gets (λ p. p.producs)
  elim (get_elem? ps i) [ none ↦ pure tt | some c ↦ tick_produc t junk_time i c ]
  tick_producs t junk_time rounds (suc i)

-- `ProcessMechineRequire`, with what unset fields hold
unfoldable pub process_mechine_require : InfoCollect → ResourceProduc → ℕ → Tables → ℕ → Action Done
unfolding check_instor check_mechines tick_collects tick_producs
process_mechine_require junk junk_produc junk_time t now = do
  check_instor now
  ms ← gets (λ p. p.mechines)
  check_mechines junk junk_produc t now (length ms) 0
  cs ← gets (λ p. p.info_collects)
  ds ← tick_collects t cs
  modify (λ p. record p { info_collects = ds })
  ps ← gets (λ p. p.producs)
  tick_producs t junk_time (length ps) 0

-- an executed statement clears the flag, also if it changed no row
abbrev pub executed : Answer → Bool
executed failed = false
executed unchanged = true
executed (done values) = true

unfoldable pub write_collect : InfoCollect → Action InfoCollect
write_collect c =
    if c.is_dirty
    then (do a ← ask (update_info_collect c); pure (record c { is_dirty = not (executed a) }))
    else pure c

unfoldable pub write_mechine : Mechine → Action Mechine
unfolding store_mechine
write_mechine m = if m.is_dirty then (do r ← store_mechine m; pure r.1) else pure m

unfoldable pub write_produc : ResourceProduc → Action ResourceProduc
write_produc c =
    if c.is_dirty
    then (do a ← ask (update_res_produc c); pure (record c { is_dirty = not (executed a) }))
    else pure c

module _ {A : Type 0} where
  -- a loop that writes each entry of a list
  unfoldable pub write_all : (A → Action A) → List A → Action (List A)
  write_all write [] = pure []
  write_all write (x ∷ xs) = do y ← write x; ys ← write_all write xs; pure (y ∷ ys)

-- `ProcessMechineWriteDB`
unfoldable pub process_mechine_write_db : Action Done
unfolding write_collect write_mechine write_produc write_all
process_mechine_write_db = do
  p ← gets (λ p. p)
  cs ← write_all write_collect p.info_collects
  modify (λ p. record p { info_collects = cs })
  ms ← write_all write_mechine p.mechines
  modify (λ p. record p { mechines = ms })
  e ← write_mechine p.experiment_mechine
  modify (λ p. record p { experiment_mechine = e })
  i ← write_mechine p.instor_mechine
  set_instor i
  rs ← write_all write_produc p.producs
  modify (λ p. record p { producs = rs })

-- the timer that `ProcessOnTimerOut` starts again, with its seconds
pub data Started : Type 0 where
  nothing : Started
  user_timer : ℕ → Started
  user_db_timer : ℕ → Started

abbrev pub timer_check_something : ℕ
timer_check_something = 1

abbrev pub timer_writedb_something : ℕ
timer_writedb_something = 2

abbrev pub write_db_time : ℕ
write_db_time = 300

-- `ProcessOnTimerOut`
unfoldable pub process_on_timer_out :
    InfoCollect → ResourceProduc → ℕ → Tables → ℕ → ℕ → Action Started
unfolding process_mechine_require process_mechine_write_db
process_on_timer_out junk junk_produc junk_time t now timer_id =
    if timer_id == timer_check_something
    then (do
      process_mechine_require junk junk_produc junk_time t now
      pure (user_timer t.check_time))
    else if timer_id == timer_writedb_something
    then (do process_mechine_write_db; pure (user_db_timer write_db_time))
    else pure nothing
