-- ===== src/TaskSystem/Counting.antt =====
-- What counting an event does to a task.
use thero_logic_server.Base.{
  ℕ, zero, suc, ◌+◌, ◌^◌, ◌≤◌, ◌<◌, ◌≡◌, refl, sym, ap, ap₂, ◌∙◌, ltb, if◌then◌else◌, Bool-cases,
  inl, inr, min, List, [], ◌∷◌, map, arith,
}
use thero_logic_server.TaskSystem.{
  SubTask, Task, Event, concerns, counts, count_sub_task, all_complete, count_task,
}

-- no subtask's count is larger than its target, which has 32 bits
abbrev pub InTarget : List SubTask → Type 0
InTarget [] = Unit {0}
InTarget (s ∷ ss) = (s.count ≤ s.target) × (s.target < 2 ^ 32) × InTarget ss

-- a task whose flags say whether its subtasks are complete
pub record IsValid (t : Task) : Type 0 where
  pub in_target : InTarget t.sub_tasks
  pub flag : t.is_complete ≡ all_complete t.sub_tasks
  pub status : t.status ≡ (if t.is_complete then 1 else 0)

abbrev pub count_times : ℕ → Event → Task → Task
count_times zero e t = t
count_times (suc n) e t = count_times n e (count_task e t)

-- the subtasks after `n` events of a kind, as a bound says
abbrev pub bounded : ℕ → Event → SubTask → SubTask
bounded n e s = if concerns e s then record s { count = min (s.count + n) s.target } else s

count_sub_task_lem :
    (n : ℕ) (e : Event) (s : SubTask)
    → s.count ≤ s.target
    → s.target < 2 ^ 32
    → bounded n e (count_sub_task e s) ≡ bounded (suc n) e s
count_sub_task_lem n e s h k = elim (Bool-cases (concerns e s)) [
  | inr c ↦ rw (c, c) refl
  | inl c ↦ elim (Bool-cases (ltb s.count s.target)) [
    | inl l ↦ rw (c, l, c) (ap (λ k. record s { count = k }) (ground arith))
    | inr l ↦ rw (c, l, c) (ap (λ k. record s { count = k }) (ground arith))
  ]
]

bounded_zero : (e : Event) (s : SubTask) → s.count ≤ s.target → bounded 0 e s ≡ s
bounded_zero e s h = elim (Bool-cases (concerns e s)) [
  | inr c ↦ rw c refl
  | inl c ↦ rw c (ap (λ k. record s { count = k }) (omega arith))
]

map-bounded_zero : (e : Event) (ss : List SubTask) → InTarget ss → map (bounded 0 e) ss ≡ ss
map-bounded_zero e [] v = refl
map-bounded_zero e (s ∷ ss) (h, k, v) = ap₂ ◌∷◌ (bounded_zero e s h) (map-bounded_zero e ss v)

map-bounded :
    (n : ℕ) (e : Event) (ss : List SubTask)
    → InTarget ss
    → map (bounded n e) (map (count_sub_task e) ss) ≡ map (bounded (suc n) e) ss
map-bounded n e [] v = refl
map-bounded n e (s ∷ ss) (h, k, v) = ap₂ ◌∷◌ (count_sub_task_lem n e s h k) (map-bounded n e ss v)

count_sub_task-InTarget :
    (e : Event) (ss : List SubTask) → InTarget ss → InTarget (map (count_sub_task e) ss)
count_sub_task-InTarget e [] v = tt
count_sub_task-InTarget e (s ∷ ss) (h, k, v) = elim (Bool-cases (counts e s)) [
  | inr c ↦ rw c (h, k, count_sub_task-InTarget e ss v)
  | inl c ↦ rw c (ground arith, k, count_sub_task-InTarget e ss v)
]

count_task-IsValid : (e : Event) (t : Task) → IsValid t → IsValid (count_task e t)
unfolding count_task
count_task-IsValid e t v = record {
  in_target = count_sub_task-InTarget e t.sub_tasks v.in_target;
  flag = refl;
  status = refl;
}

-- After `n` events of a kind, the count of each subtask that the kind concerns has grown by `n`, but not
-- past its target; the other subtasks are as they were; and the task's flag and status say whether
-- all its subtasks have reached their targets.
pub count_times_lem :
    (n : ℕ) (e : Event) (t : Task)
    → IsValid t
    → IsValid (count_times n e t) × ((count_times n e t).sub_tasks ≡ map (bounded n e) t.sub_tasks)
unfolding count_task
count_times_lem zero e t v = (v, sym (map-bounded_zero e t.sub_tasks v.in_target))
count_times_lem (suc n) e t v =
    let (w, s) = count_times_lem n e (count_task e t) (count_task-IsValid e t v) in
    (w, s ∙ map-bounded n e t.sub_tasks v.in_target)
