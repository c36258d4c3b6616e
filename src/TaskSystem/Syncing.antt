-- ===== src/TaskSystem/Syncing.antt =====
-- What the synchronisation writes.
use thero_logic_server.Base.{
  ℕ, ◌+◌, ◌≡◌, refl, sym, ap, ◌∙◌, inl, inr, true, false, if◌then◌else◌, Bool-cases, some, List, [],
  ◌∷◌, ◌++◌, map, arith,
}
use thero_logic_server.Base.Maps.{find, erase, assign, find-assign, erase-assign, assign-assign}
use thero_logic_server.TaskSystem.{
  Task, Write, FightTask, sync_task, sync_tasks, sync_user, unload_tasks,
}

-- the tasks that were changed since they were last written, in order
abbrev pub changed : List Task → List Task
changed [] = []
changed (t ∷ ts) = if t.update then t ∷ changed ts else changed ts

-- they are written one after another, to the database and not only to the cache
abbrev pub noted : ℕ → List Task → List Write → List Write
noted uuid [] w = w
noted uuid (t ∷ ts) w = noted uuid ts (record { uuid = uuid; task = t; only_memcached = false } ∷ w)

abbrev pub settled : Task → Task
settled t = record t { update = false }

abbrev pub completed : List Task → ℕ
completed [] = 0
completed (t ∷ ts) = (if t.is_complete then 1 else 0) + completed ts

abbrev Synced : Type 0
Synced = Task × List Write × ℕ

-- what the helper does with a task that was changed
abbrev written_off : ℕ → Task → Synced
written_off uuid t = (
  settled t,
  record { uuid = uuid; task = t; only_memcached = false } ∷ [],
  if t.is_complete then 1 else 0,
)

sync_changed : (uuid : ℕ) (t : Task) → t.update ≡ true → sync_task uuid true t ≡ written_off uuid t
unfolding sync_task
sync_changed uuid t u = ap (λ b. if◌then◌else◌ {A = Synced} b (written_off uuid t) (t, [], 0)) u

sync_unchanged :
    (uuid : ℕ) (t : Task) → t.update ≡ false → sync_task uuid true t ≡ (settled t, [], 0)
unfolding sync_task
sync_unchanged uuid t u =
    ap (λ b. if◌then◌else◌ {A = Synced} b (written_off uuid t) (t, [], 0)) u
    ∙ ap (λ b. (record t { update = b }, [], 0)) u

abbrev Result : Type 0
Result = List Task × List Write × ℕ

abbrev expected : ℕ → List Task → List Task → List Write → Result
expected uuid ts cs w = (map settled ts, noted uuid cs w, completed cs)

sync_tasks_lem :
    (uuid : ℕ) (ts : List Task) (w : List Write)
    → sync_tasks uuid true ts w ≡ expected uuid ts (changed ts) w
unfolding sync_tasks
sync_tasks_lem uuid [] w = refl
sync_tasks_lem uuid (t ∷ ts) w = elim (Bool-cases t.update) [
  | inl u ↦
      ap (joined w) (sync_changed uuid t u)
      ∙ ap (λ (r : Result). (settled t ∷ r.0, r.1, (if t.is_complete then 1 else 0) + r.2))
          (sync_tasks_lem uuid ts (record { uuid = uuid; task = t; only_memcached = false } ∷ w))
      ∙ ap (λ cs. expected uuid (t ∷ ts) cs w)
          (sym (ap (λ b. if b then t ∷ changed ts else changed ts) u))
  | inr u ↦
      ap (joined w) (sync_unchanged uuid t u)
      ∙ ap (λ (r : Result). (settled t ∷ r.0, r.1, 0 + r.2)) (sync_tasks_lem uuid ts w)
      ∙ ap (λ n. (settled t ∷ map settled ts, noted uuid (changed ts) w, n))
          (zero_add (completed (changed ts)))
      ∙ ap (λ cs. expected uuid (t ∷ ts) cs w)
          (sym (ap (λ b. if b then t ∷ changed ts else changed ts) u))
]
  where
    joined : List Write → Synced → Result
    joined w (t', calls, n) =
        let (ts', written', k) = sync_tasks uuid true ts (calls ++ w) in (t' ∷ ts', written', n + k)

    zero_add : (n : ℕ) → 0 + n ≡ n
    zero_add n = omega arith

no_changed : (ts : List Task) → changed (map settled ts) ≡ []
no_changed [] = refl
no_changed (t ∷ ts) = no_changed ts

map-settled : (ts : List Task) → map settled (map settled ts) ≡ map settled ts
map-settled [] = refl
map-settled (t ∷ ts) = ap (◌∷◌ (settled t)) (map-settled ts)

sync_user_lem :
    (f : FightTask) (uuid : ℕ) (ts : List Task)
    → find uuid f.tasks ≡ some ts
    → sync_user f uuid true ≡ (
      completed (changed ts),
      record {
        tasks = assign uuid (map settled ts) f.tasks;
        written = noted uuid (changed ts) f.written;
      },
    )
unfolding sync_user
sync_user_lem f uuid ts e =
    rw (sync_user, e)
      (ap (λ r. (r.2, record { tasks = assign uuid r.0 f.tasks; written = r.1 }))
        (sync_tasks_lem uuid ts f.written))

-- A full synchronisation that follows another one writes nothing, counts no task, and leaves the state
-- as it is.
pub sync_user_twice :
    (f : FightTask) (uuid : ℕ) (ts : List Task)
    → find uuid f.tasks ≡ some ts
    → sync_user (sync_user f uuid true).1 uuid true ≡ (0, (sync_user f uuid true).1)
sync_user_twice f uuid ts e =
    ap (λ r. sync_user r.1 uuid true) (sync_user_lem f uuid ts e)
    ∙ sync_user_lem g uuid (map settled ts) (find-assign uuid ts (map settled ts) f.tasks e)
    ∙ again (changed (map settled ts)) (map settled (map settled ts)) (no_changed ts)
        (map-settled ts)
    ∙ ap (λ r. (0, r.1)) (sym (sync_user_lem f uuid ts e))
  where
    g : FightTask
    g = record {
      tasks = assign uuid (map settled ts) f.tasks;
      written = noted uuid (changed ts) f.written;
    }

    again :
        (cs us : List Task)
        → cs ≡ []
        → us ≡ map settled ts
        → (◌≡◌ {A = ℕ × FightTask}
            (
              completed cs,
              record { tasks = assign uuid us g.tasks; written = noted uuid cs g.written },
            )
            (0, g))
    again cs us c d =
        ap
          (λ cs. (
            completed cs,
            record { tasks = assign uuid us g.tasks; written = noted uuid cs g.written },
          ))
          c
        ∙ ap (λ us. (0, record { tasks = assign uuid us g.tasks; written = g.written })) d
        ∙ ap (λ m. (0, record { tasks = m; written = g.written }))
            (assign-assign uuid (map settled ts) (map settled ts) f.tasks)

-- `UnloadTasks` writes the tasks of the user that were changed since they were last written, each once, in
-- order, to the database and not only to the cache, and then forgets the user's tasks.
pub unload_tasks_lem :
    (f : FightTask) (uuid : ℕ) (ts : List Task)
    → find uuid f.tasks ≡ some ts
    → unload_tasks f uuid
      ≡ record { tasks = erase uuid f.tasks; written = noted uuid (changed ts) f.written }
unfolding unload_tasks
unload_tasks_lem f uuid ts e =
    rw (unload_tasks, e)
      (ap (λ r. record { tasks = erase uuid r.1.tasks; written = r.1.written })
          (sync_user_lem f uuid ts e)
        ∙ ap (λ m. record { tasks = m; written = noted uuid (changed ts) f.written })
            (erase-assign uuid (map settled ts) f.tasks))
