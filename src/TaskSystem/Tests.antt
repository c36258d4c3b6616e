-- ===== src/TaskSystem/Tests.antt =====
-- A user with two tasks.
use thero_logic_server.Base.{ℕ, ◌≡◌, refl, true, false, none, some, [], ◌∷◌, map, arith}
use thero_logic_server.Base.Maps.{erase}
use thero_logic_server.TaskSystem.{
  SubTask, Task, Event, FightTask, count_task, update_task_count, sync_user, unload_tasks,
  sync_tasks, sync_task, update, load_use_tasks,
}
use thero_logic_server.TaskSystem.Counting.{IsValid, count_times, bounded, count_times_lem}
use thero_logic_server.TaskSystem.Syncing.{sync_user_twice, noted, changed, unload_tasks_lem}

abbrev win : Event
win = record { action_code = 7; pcate = 1; pframe = 2 }

abbrev sub_task : ℕ → SubTask
sub_task count = record {
  id = 1;
  task_id = 2;
  count = count;
  target = 3;
  action_code = 7;
  pcate = 1;
  pframe = 2;
}

abbrev open_task : Task
open_task = record {
  update = false;
  is_complete = false;
  id = 1;
  sub_id = 2;
  status = 0;
  time_tag = [];
  sub_tasks = sub_task 1 ∷ record (sub_task 3) { action_code = 9 } ∷ [];
}

abbrev done_task : Task
done_task = record open_task {
  update = true;
  is_complete = true;
  status = 1;
  sub_tasks = sub_task 3 ∷ [];
}

abbrev user : FightTask
user = record { tasks = (12, open_task ∷ done_task ∷ []) ∷ []; written = [] }

open_task-IsValid : IsValid open_task
open_task-IsValid = record {
  in_target = (omega arith, omega arith, (omega arith, omega arith, tt));
  flag = refl;
  status = refl;
}

count_runs :
    (count_task win open_task ≡ record open_task {
      update = true;
      sub_tasks = sub_task 2 ∷ record (sub_task 3) { action_code = 9 } ∷ [];
    })
    × (update_task_count user 13 win ≡ none)
unfolding count_task update_task_count
count_runs = (refl, refl)

-- the completed task is written, and the user's tasks are loaded again
update_run :
    update user 12 false (open_task ∷ [])
    ≡ some (
      1,
      record {
        tasks = (12, open_task ∷ []) ∷ [];
        written = record { uuid = 12; task = done_task; only_memcached = false } ∷ [];
      },
    )
unfolding update load_use_tasks unload_tasks sync_user sync_tasks sync_task
update_run = refl

count_times_lem_example :
    IsValid (count_times 5 win open_task)
    × ((count_times 5 win open_task).sub_tasks ≡ map (bounded 5 win) open_task.sub_tasks)
count_times_lem_example = count_times_lem 5 win open_task open_task-IsValid

sync_user_twice_example :
    sync_user (sync_user user 12 true).1 12 true ≡ (0, (sync_user user 12 true).1)
sync_user_twice_example = sync_user_twice user 12 (open_task ∷ done_task ∷ []) refl

unload_tasks_lem_example : unload_tasks user 12 ≡ record {
  tasks = erase 12 user.tasks;
  written = noted 12 (changed (open_task ∷ done_task ∷ [])) [];
}
unload_tasks_lem_example = unload_tasks_lem user 12 (open_task ∷ done_task ∷ []) refl
