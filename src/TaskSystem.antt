-- ===== src/TaskSystem.antt =====
-- Server/TaskSystem.cpp, class `CFightTask`, with the tasks of Server/TaskHandler.h.
-- The database (`CDBOperator`) is what it is told: `written` lists the calls of `updateTask`, the last one
-- first, with the flag `bOnlyMemcached`. `getUseTaskInfo` is an argument. A failed assertion is `none`.
pub mod Counting
pub mod Syncing
mod Tests
use thero_logic_server.Base.{
  ℕ, zero, suc, ◌+◌, ◌%◌, ◌^◌, Bool, true, false, not, ◌&&◌, ◌||◌, ltb, ◌==◌, if◌then◌else◌, Option,
  none, some, ◌>>=◌, List, [], ◌∷◌, ◌++◌, map,
}
use thero_logic_server.Base.Maps.{find, insert, erase, assign}

-- `SubTaskInfo`
pub record SubTask : Type 0 where
  pub id : ℕ
  pub task_id : ℕ
  pub count : ℕ
  pub target : ℕ
  pub action_code : ℕ
  pub pcate : ℕ
  pub pframe : ℕ

-- `TaskInfo`
pub record Task : Type 0 where
  pub update : Bool
  pub is_complete : Bool
  pub id : ℕ
  pub sub_id : ℕ
  pub status : ℕ
  pub time_tag : List ℕ
  pub sub_tasks : List SubTask

-- what happened: `actioncode`, `pcate`, `pframe`
pub record Event : Type 0 where
  pub action_code : ℕ
  pub pcate : ℕ
  pub pframe : ℕ

-- the condition of `CUpdateTaskCount` without the count
abbrev pub concerns : Event → SubTask → Bool
concerns e s = s.pcate == e.pcate && s.pframe == e.pframe && s.action_code == e.action_code

abbrev pub counts : Event → SubTask → Bool
counts e s = concerns e s && ltb s.count s.target

abbrev pub count_sub_task : Event → SubTask → SubTask
count_sub_task e s = if counts e s then record s { count = (s.count + 1) % 2 ^ 32 } else s

-- whether the loop over the subtasks sets `task.update`
abbrev pub any_counts : Event → List SubTask → Bool
any_counts e [] = false
any_counts e (s ∷ ss) = counts e s || any_counts e ss

-- no subtask satisfies `isNoComplete`
abbrev pub all_complete : List SubTask → Bool
all_complete [] = true
all_complete (s ∷ ss) = s.target == s.count && all_complete ss

-- `CUpdateTaskCount::operator()`
unfoldable pub count_task : Event → Task → Task
count_task e t =
    let subs = map (count_sub_task e) t.sub_tasks in
    let done = all_complete subs in
    record t {
      update = t.update || any_counts e t.sub_tasks;
      is_complete = done;
      status = if done then 1 else 0;
      sub_tasks = subs;
    }

-- a call of `updateTask`: the user, the task and `bOnlyMemcached`
pub record Write : Type 0 where
  pub uuid : ℕ
  pub task : Task
  pub only_memcached : Bool

-- `CSyncTaskRecordHelper::operator()`: the task, what is written, and what is added to the count
unfoldable pub sync_task : ℕ → Bool → Task → Task × List Write × ℕ
sync_task uuid sync_all t =
    let completed = if t.is_complete then 1 else 0 in
    if t.update
    then (if sync_all || t.is_complete
        then (
          record t { update = false },
          record { uuid = uuid; task = t; only_memcached = false } ∷ [],
          completed,
        )
        else (t, record { uuid = uuid; task = t; only_memcached = true } ∷ [], completed))
    else (t, [], 0)

-- `for_each` with the helper: the tasks, the calls so far, and the count
unfoldable pub sync_tasks : ℕ → Bool → List Task → List Write → List Task × List Write × ℕ
unfolding sync_task
sync_tasks uuid sync_all [] written = ([], written, 0)
sync_tasks uuid sync_all (t ∷ ts) written =
    let (t', calls, n) = sync_task uuid sync_all t in
    let (ts', written', k) = sync_tasks uuid sync_all ts (calls ++ written) in
    (t' ∷ ts', written', n + k)

pub record FightTask : Type 0 where
  pub tasks : List (ℕ × List Task)
  pub written : List Write

-- `updateTaskCount`, which `OnTaskEvent` calls
unfoldable pub update_task_count : FightTask → ℕ → Event → Option FightTask
unfolding count_task
update_task_count f uuid e = elim (find uuid f.tasks) [
  | none ↦ none
  | some ts ↦ some (record f { tasks = assign uuid (map (count_task e) ts) f.tasks })
]

-- `OnUseProp`
unfoldable pub on_use_prop : FightTask → ℕ → ℕ → Option FightTask
unfolding update_task_count
on_use_prop f uuid props =
    update_task_count f uuid
      (record { action_code = 101; pcate = 0; pframe = if props == 4 then 10 else props })

-- `update_`: the count of completed tasks, and the state
unfoldable pub sync_user : FightTask → ℕ → Bool → ℕ × FightTask
unfolding sync_tasks
sync_user f uuid sync_all = elim (find uuid f.tasks) [
  | none ↦ (0, f)
  | some ts ↦
      let (ts', written, n) = sync_tasks uuid sync_all ts f.written in
      (n, record { tasks = assign uuid ts' f.tasks; written = written })
]

-- `LoadUseTasks`, of the tasks that the database has for the user
unfoldable pub load_use_tasks : FightTask → ℕ → List Task → Option FightTask
load_use_tasks f uuid stored = elim (find uuid f.tasks) [
  | some ts ↦ none
  | none ↦ some (record f { tasks = insert uuid stored f.tasks })
]

-- `UnloadTasks`
unfoldable pub unload_tasks : FightTask → ℕ → FightTask
unfolding sync_user
unload_tasks f uuid = elim (find uuid f.tasks) [
  | none ↦ f
  | some ts ↦ (let (n, g) = sync_user f uuid true in record g { tasks = erase uuid g.tasks })
]

-- `update`
unfoldable pub update : FightTask → ℕ → Bool → List Task → Option (ℕ × FightTask)
unfolding sync_user unload_tasks load_use_tasks
update f uuid sync_all stored =
    let (n, g) = sync_user f uuid sync_all in
    if ltb 0 n
    then (load_use_tasks (unload_tasks g uuid) uuid stored >>= λ h. some (n, h))
    else some (n, g)

-- `refreshTask`
unfoldable pub refresh_task : FightTask → ℕ → List Task → Option FightTask
unfolding unload_tasks load_use_tasks
refresh_task f uuid stored = load_use_tasks (unload_tasks f uuid) uuid stored
