-- ===== src/Player/Timers/Writes.antt =====
-- What `ProcessMechineWriteDB` asks the database for.
use thero_logic_server.Base.{
  ◌≡◌, refl, sym, ◌∙◌, ap, Bool, if◌then◌else◌, List, [], ◌∷◌, ◌++◌, append-nil, arith,
}
use thero_logic_server.GameServer.{
  World, Call, Mechine, InfoCollect, ResourceProduc, Player, update_info_collect,
  update_user_mechine, update_res_produc,
}
use thero_logic_server.GameServer.Actions.{
  Action, Done, Outcome, next, returned, crashed, ◌>>=◌, ◌>>◌, pure, modify, store_mechine,
}
use thero_logic_server.GameServer.Mechines.{set_instor}
use thero_logic_server.Player.Timers.{
  write_collect, write_mechine, write_produc, write_all, process_mechine_write_db,
}

-- these calls behind the earlier ones, which stand with the last one first
abbrev pub asked : List Call → List Call → List Call
asked [] before = before
asked (c ∷ cs) before = asked cs (c ∷ before)

abbrev pub IsNext : {A : Type 0} → Outcome A → Type 0
IsNext (next a) = Unit {0}
IsNext returned = ⊥
IsNext crashed = ⊥

-- the action goes on, and asks for these calls
abbrev pub Asks : {A : Type 0} → Action A → List Call → World → Type 0
Asks m cs w = IsNext (m w).0 × ((m w).1.calls ≡ asked cs w.calls)

asked-++ : (cs ds before : List Call) → asked (cs ++ ds) before ≡ asked ds (asked cs before)
asked-++ [] ds before = refl
asked-++ (c ∷ cs) ds before = asked-++ cs ds (c ∷ before)

>>=-Asks :
    {A B : Type 0} (m : Action A) (f : A → Action B) (cs ds : List Call) (w : World)
    → Asks m cs w
    → ((a : A) (v : World) → Asks (f a) ds v)
    → Asks (m >>= f) (cs ++ ds) w
>>=-Asks {A} m f cs ds w (n, c) k = go (m w).0 (m w).1 n c
  where
    go :
        (o : Outcome A) (v : World)
        → IsNext o
        → v.calls ≡ asked cs w.calls
        → Asks ((λ _. (o, v)) >>= f) (cs ++ ds) w
    go (next a) v n c = ((k a v).0, (k a v).1 ∙ ap (asked ds) c ∙ rw (asked-++ cs ds w.calls) refl)
    go returned v n c = absurd n
    go crashed v n c = absurd n

module _ {A : Type 0} (is_dirty : A → Bool) (call : A → Call) where
  -- the call for an entry, if it is dirty
  abbrev pub due_for : A → List Call
  due_for x = if is_dirty x then call x ∷ [] else []

  -- those for the entries of a list
  abbrev pub due : List A → List Call
  due [] = []
  due (x ∷ xs) = due_for x ++ due xs

  write_all-Asks :
      (write : A → Action A) (xs : List A) (w : World)
      → ((x : A) (v : World) → Asks (write x) (due_for x) v)
      → Asks (write_all write xs) (due xs) w
  unfolding write_all
  write_all-Asks write [] w h = (tt, refl)
  write_all-Asks write (x ∷ xs) w h =
      >>=-Asks (write x) (λ y. write_all write xs >>= λ ys. pure (y ∷ ys)) (due_for x) (due xs) w
        (h x w)
        (λ y v. rw (sym (append-nil (due xs))) (
          >>=-Asks (write_all write xs) (λ ys. pure (y ∷ ys)) (due xs) [] v
            (write_all-Asks write xs v h) (λ ys u. (tt, refl))))

write_collect-Asks :
    (c : InfoCollect) (w : World)
    → Asks (write_collect c) (due_for (λ c. c.is_dirty) update_info_collect c) w
unfolding write_collect
write_collect-Asks c w = ground arith

write_mechine-Asks :
    (m : Mechine) (w : World)
    → Asks (write_mechine m) (due_for (λ m. m.is_dirty) update_user_mechine m) w
unfolding write_mechine store_mechine
write_mechine-Asks m w = ground arith

write_produc-Asks :
    (r : ResourceProduc) (w : World)
    → Asks (write_produc r) (due_for (λ r. r.is_dirty) update_res_produc r) w
unfolding write_produc
write_produc-Asks r w = ground arith

-- a list is written, and then stored
write_then :
    {A B : Type 0} (m : Action A) (store : A → Player → Player) (k : Action B) (cs ds : List Call)
    (w : World)
    → Asks m cs w
    → ((v : World) → Asks k ds v)
    → Asks (m >>= λ a. modify (store a) >> k) (cs ++ ds) w
write_then m store k cs ds w h l =
    >>=-Asks m (λ a. modify (store a) >> k) cs ds w h
      (λ a v. l (record v { player = store a v.player }))

-- `ProcessMechineWriteDB` on what the player held at its beginning, and its later parts
module _ (p : Player) where
  abbrev pub write_producs : Action Done
  write_producs = write_all write_produc p.producs >>= λ rs. modify (λ q. record q { producs = rs })

  abbrev pub from_instor : Action Done
  from_instor = write_mechine p.instor_mechine >>= λ i. set_instor i >> write_producs

  abbrev pub from_experiment : Action Done
  from_experiment = write_mechine p.experiment_mechine >>= λ e.
      modify (λ q. record q { experiment_mechine = e }) >> from_instor

  abbrev pub from_mechines : Action Done
  from_mechines = write_all write_mechine p.mechines >>= λ ms.
      modify (λ q. record q { mechines = ms }) >> from_experiment

  -- the calls for the entries that are dirty
  abbrev pub due_producs : List Call
  due_producs = due (λ r. r.is_dirty) update_res_produc p.producs

  abbrev pub due_from_instor : List Call
  due_from_instor = due_for (λ m. m.is_dirty) update_user_mechine p.instor_mechine ++ due_producs

  abbrev pub due_from_experiment : List Call
  due_from_experiment =
      due_for (λ m. m.is_dirty) update_user_mechine p.experiment_mechine ++ due_from_instor

  abbrev pub due_from_mechines : List Call
  due_from_mechines = due (λ m. m.is_dirty) update_user_mechine p.mechines ++ due_from_experiment

  -- all of them: the records of what is collected come first
  abbrev pub due_of : List Call
  due_of = due (λ c. c.is_dirty) update_info_collect p.info_collects ++ due_from_mechines

  write_producs-Asks : (w : World) → Asks write_producs due_producs w
  write_producs-Asks w = rw (sym (append-nil due_producs)) (
      >>=-Asks (write_all write_produc p.producs) (λ rs. modify (λ q. record q { producs = rs }))
        due_producs [] w
        (write_all-Asks (λ r. r.is_dirty) update_res_produc write_produc p.producs w
          write_produc-Asks)
        (λ rs v. (tt, refl)))

  from_instor-Asks : (w : World) → Asks from_instor due_from_instor w
  from_instor-Asks w =
      write_then (write_mechine p.instor_mechine) (λ i q. record q { instor_mechine = i })
        write_producs (due_for (λ m. m.is_dirty) update_user_mechine p.instor_mechine) due_producs w
        (write_mechine-Asks p.instor_mechine w) write_producs-Asks

  from_experiment-Asks : (w : World) → Asks from_experiment due_from_experiment w
  from_experiment-Asks w =
      write_then (write_mechine p.experiment_mechine) (λ e q. record q { experiment_mechine = e })
        from_instor (due_for (λ m. m.is_dirty) update_user_mechine p.experiment_mechine)
        due_from_instor w (write_mechine-Asks p.experiment_mechine w) from_instor-Asks

  from_mechines-Asks : (w : World) → Asks from_mechines due_from_mechines w
  from_mechines-Asks w =
      write_then (write_all write_mechine p.mechines) (λ ms q. record q { mechines = ms })
        from_experiment (due (λ m. m.is_dirty) update_user_mechine p.mechines) due_from_experiment w
        (write_all-Asks (λ m. m.is_dirty) update_user_mechine write_mechine p.mechines w
          write_mechine-Asks)
        from_experiment-Asks

-- However the database answers, `ProcessMechineWriteDB` ends, and asks it for one statement for each entry that was
-- dirty when it began, with the entry as it was then, and for no other: first the records of what is collected,
-- then the mechines, the mechine for experiments, the instructor, and the records of what is produced.
pub write_db_lem : (w : World) → Asks process_mechine_write_db (due_of w.player) w
unfolding process_mechine_write_db
write_db_lem w =
    write_then (write_all write_collect w.player.info_collects)
      (λ cs q. record q { info_collects = cs }) (from_mechines w.player)
      (due (λ c. c.is_dirty) update_info_collect w.player.info_collects)
      (due_from_mechines w.player) w
      (write_all-Asks (λ c. c.is_dirty) update_info_collect write_collect w.player.info_collects w
        write_collect-Asks)
      (from_mechines-Asks w.player)
