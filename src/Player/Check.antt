-- ===== src/Player/Check.antt =====
-- Server/Player.cpp, `CPlayer::ProcessMechineRequire`, which a timer calls every few seconds: levels that are
-- raised, mechines that are built, and what mechines collect and produce. One time stands for the clock
-- readings of a call.
pub mod Keeping
pub mod Collected
mod Tests
use thero_logic_server.Base.{
  ℕ, zero, suc, ◌+◌, Bool, true, false, not, ◌&&◌, ◌||◌, ltb, ◌==◌, if◌then◌else◌, Option, none,
  some, List, [], ◌∷◌, ◌++◌, length, get_elem?, get_or,
}
use thero_logic_server.Base.Words.{int_add, int_lt}
use thero_logic_server.Packet.Output.{Field, int, short}
use thero_logic_server.GameServer.{
  MechineType, Mechine, InfoCollect, ResourceProduc, ResourceType, Tables, Player, Answer, failed,
  unchanged, done, check_info_collect, insert_resource_record,
}
use thero_logic_server.GameServer.Lookups.{
  get_user_mechine, get_info_collect, get_res_collect, change_res_produc, get_collect_time,
  get_resource_mechine,
}
use thero_logic_server.GameServer.Actions.{
  Action, Done, ◌>>=◌, ◌>>◌, pure, gets, modify, send, ask, succeeded, store_mechine,
}
use thero_logic_server.GameServer.Mechines.{set_instor, set_mechine}
use thero_logic_server.GameServer.Collecting.{info_can_collect_reply}

abbrev pub comstruct_reply : ℕ
comstruct_reply = 1037

abbrev pub up_next_level_complete : ℕ
up_next_level_complete = 1040

-- `a >= b`
abbrev pub int_ge : ℕ → ℕ → Bool
int_ge a b = not (int_lt a b)

-- the wait is over: `status == 3` and `unixtime >= endtime`
abbrev pub is_raised : ℕ → Mechine → Bool
is_raised now m = m.status == 3 && int_ge now m.endtime

-- a mechine of this kind is built
abbrev pub is_built : MechineType → ℕ → Mechine → Bool
is_built kind now m = m.status == 1 && kind.pcate == m.pcate && int_ge now m.endtime

abbrev pub raise : Mechine → Mechine
raise m = record m { endtime = 0; level = int_add m.level 1; status = 4 }

-- the instructor
unfoldable pub check_instor : ℕ → Action Done
unfolding store_mechine
check_instor now = do
  i ← gets (λ p. p.instor_mechine)
  if is_raised now i
      then (do
        r ← store_mechine (raise i)
        set_instor r.1
        send up_next_level_complete (int i.gid ∷ int (int_add i.level 1) ∷ []))
      else pure tt

-- the level of a mechine; the result is the local copy of it
unfoldable pub finish_raise : ℕ → Mechine → Action Mechine
unfolding store_mechine
finish_raise now m =
    if is_raised now m
    then (do
      r ← store_mechine (raise m)
      set_mechine r.1
      send up_next_level_complete (int m.gid ∷ int (int_add m.level 1) ∷ [])
      pure r.1)
    else pure m

-- the row that `CheckUserInfoCollect` reads into its argument
abbrev pub read_collect : Answer → InfoCollect → InfoCollect
read_collect failed c = c
read_collect unchanged c = c
read_collect (done v) c = record c {
  gid = get_or v 0 0;
  mid = get_or v 1 0;
  left_time = get_or v 2 0;
  need_time = get_or v 3 0;
  status = get_or v 4 0;
  pcate = get_or v 5 0;
  pframe = get_or v 6 0;
}

-- the row that `InsertUserResourceMechineRecord` reads into its argument
abbrev pub read_produc : Answer → ResourceProduc → ResourceProduc
read_produc failed p = p
read_produc unchanged p = p
read_produc (done v) p = record p {
  gid = get_or v 0 0;
  pcate = get_or v 1 0;
  pframe = get_or v 2 0;
  pmode = get_or v 3 0;
  level = get_or v 4 0;
  state = get_or v 5 0;
  usetime = get_or v 6 0;
}

abbrev pub push_collect : InfoCollect → Action Done
push_collect c = modify (λ p. record p { info_collects = p.info_collects ++ (c ∷ []) })

abbrev pub push_produc : ResourceProduc → Action Done
push_produc r = modify (λ p. record p { producs = p.producs ++ (r ∷ []) })

-- what the fields of a local record hold that nothing has set
module _ (junk : InfoCollect) (junk_produc : ResourceProduc) (t : Tables) where
  -- an information mechine that is built begins to collect
  unfoldable pub finish_info : ℕ → Mechine → Action Mechine
  unfolding store_mechine
  finish_info now m =
      if is_built t.info_type now m
      then (do
        mid ← gets (λ p. p.mid)
        let found =
            get_collect_time t
              (record junk {
                gid = m.gid;
                mid = mid;
                left_time = 0;
                pcate = m.pcate;
                pframe = m.pframe;
                status = 1;
              })
              m.level
        a ← ask (check_info_collect found.1)
        if succeeded a && found.0
            then (do
              r ← store_mechine (record m { endtime = 0; status = 8 })
              set_mechine r.1
              push_collect (read_collect a found.1)
              send comstruct_reply (int m.gid ∷ short 8 ∷ [])
              pure r.1)
            else pure m)
      else pure m

  -- a resource mechine that is built is idle; the local copy is, also if the insertion fails
  unfoldable pub finish_resource : ℕ → Mechine → Action Mechine
  unfolding store_mechine
  finish_resource now m =
      if is_built t.resource_type now m
      then (do
        mid ← gets (λ p. p.mid)
        let new = record junk_produc {
          gid = m.gid;
          mid = mid;
          pcate = m.pcate;
          pframe = m.pframe;
          pmode = 1;
          level = m.level;
          state = 0;
          usetime = 0;
        }
        a ← ask (insert_resource_record new)
        if succeeded a
            then (do
              r ← store_mechine (record m { status = 0 })
              set_mechine r.1
              push_produc (read_produc a new)
              send comstruct_reply (int m.gid ∷ short 0 ∷ [])
              pure r.1)
            else pure (record m { status = 0 }))
      else pure m

  -- an information mechine without a record gets one
  unfoldable pub ensure_collect : Mechine → Action Done
  ensure_collect m = do
    p ← gets (λ p. p)
    if not (m.status == 1) && m.pcate == t.info_type.pcate
        then elim (get_info_collect p.info_collects m.gid) [
          | some c ↦ pure tt
          | none ↦ (do
            let new = record junk { gid = m.gid; mid = p.mid }
            a ← ask (check_info_collect new)
            if succeeded a then push_collect (read_collect a new) else pure tt)
        ]
        else pure tt

  -- a resource mechine without a record gets one
  unfoldable pub ensure_produc : Mechine → Action Done
  ensure_produc m = do
    p ← gets (λ p. p)
    if not (m.status == 1) && m.pcate == t.resource_type.pcate
        then elim (get_res_collect p.producs m.gid) [
          | some c ↦ pure tt
          | none ↦ (do
            let new = record junk_produc { gid = m.gid; mid = p.mid }
            a ← ask (insert_resource_record new)
            if succeeded a then push_produc (read_produc a new) else pure tt)
        ]
        else pure tt

  -- the body of the loop over the mechines
  unfoldable pub check_mechine : ℕ → Mechine → Action Done
  unfolding finish_raise finish_info finish_resource ensure_collect ensure_produc
  check_mechine now m = do
    m1 ← finish_raise now m
    m2 ← finish_info now m1
    m3 ← finish_resource now m2
    ensure_collect m3
    ensure_produc m3

  -- the loop, at index `i` with so many rounds to go
  unfoldable pub check_mechines : ℕ → ℕ → ℕ → Action Done
  unfolding check_mechine
  check_mechines now zero i = pure tt
  check_mechines now (suc rounds) i = do
    ms ← gets (λ p. p.mechines)
    elim (get_elem? ms i) [ none ↦ pure tt | some m ↦ check_mechine now m ]
    check_mechines now rounds (suc i)

-- the status of the mechine with this number, if there is one
unfoldable pub set_status : ℕ → ℕ → Action Bool
set_status gid status = do
  ms ← gets (λ p. p.mechines)
  elim (get_user_mechine ms gid) [
    | none ↦ pure false
    | some m ↦ (do set_mechine (record m { status = status }); pure true)
  ]

-- the body of the loop over the records of what is collected
unfoldable pub tick_collect : Tables → InfoCollect → Action InfoCollect
unfolding set_status
tick_collect t c = if c.status == 0 || c.status == 2 then pure c else (do
  let left = int_add c.left_time t.check_time
  let ticked = record c { left_time = left; status = 1; is_dirty = true }
  found ← set_status c.gid 8
  if int_ge left c.need_time
      then (do
        again ← set_status c.gid 9
        send info_can_collect_reply (int c.gid ∷ short 0 ∷ [])
        pure (record ticked { status = 2 }))
      else pure ticked)

unfoldable pub tick_collects : Tables → List InfoCollect → Action (List InfoCollect)
unfolding tick_collect
tick_collects t [] = pure []
tick_collects t (c ∷ cs) = do d ← tick_collect t c; ds ← tick_collects t cs; pure (d ∷ ds)
