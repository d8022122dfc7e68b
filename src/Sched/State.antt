-- ===== src/Sched/State.antt =====
-- src/kernel/sched_private.h with the tasks that its lists link: the scheduler's state and the list
-- operations of include/list.h that it makes. A task is its address, 0 for NULL. A list is the
-- sequence of the tasks linked into it; its head is a number: 0 to 31 for the ready lists by
-- priority, 32 for the deleted tasks, the rest for wait queues.
use tiny_rt.Base.{
  ℕ, ◌+◌, Bool, true, false, Option, none, some, List, [], ◌∷◌, ◌++◌, ◌==◌, if◌then◌else◌, remove,
}
use tiny_rt.Task.{TaskState, Task, WaitResult}

-- RTOS_PRIORITY_MAX.
abbrev pub priority_max : ℕ
priority_max = 31

abbrev pub deleted_head : ℕ
deleted_head = 32

abbrev pub wait_head : ℕ → ℕ
wait_head w = 33 + w

abbrev pub update {ℓ} : {A : Type ℓ} → (ℕ → A) → ℕ → A → ℕ → A
update f i v j = if i == j then v else f j

-- `scheduler_t`, the task control blocks, `tick_count` of the timer interrupt, and whether a trap
-- is being handled (`arch_in_isr`).
pub record Sched : Type 0 where
  pub current_task : ℕ
  pub idle_task : ℕ
  pub master_task_list : List ℕ
  pub timeout_task_list : List ℕ
  pub lists : ℕ → List ℕ
  pub mask : ℕ
  pub time_slice_ticks : ℕ
  pub initialized : Bool
  pub started : Bool
  pub lock_count : ℕ
  pub resched_pending : Bool
  pub tasks : ℕ → Task
  pub tick_count : ℕ
  pub in_isr : Bool

abbrev pub modify : Sched → ℕ → (Task → Task) → Sched
modify k t f = record k { tasks = update k.tasks t (f (k.tasks t)) }

abbrev pub set_state : TaskState → Task → Task
set_state s task = record task { state = s }

abbrev pub set_result : WaitResult → Task → Task
set_result r task = record task { wait_result = r }

abbrev pub set_link : Option ℕ → Task → Task
set_link l task = record task { state_list = l }

-- `list_empty(&task->state_list)`.
abbrev pub is_unlinked : Task → Bool
is_unlinked task = elim task.state_list [ none ↦ true | some h ↦ false ]

-- `list_add_tail(&task->state_list, head)`.
abbrev pub link_tail : Sched → ℕ → ℕ → Sched
link_tail k t h = record (modify k t (set_link (some h))) {
  lists = update k.lists h (k.lists h ++ t ∷ []);
}

-- `list_del_init(&task->state_list)`.
abbrev pub unlink : Sched → ℕ → Sched
unlink k t = elim (k.tasks t).state_list [
  | none ↦ k
  | some h ↦ record (modify k t (set_link none)) { lists = update k.lists h (remove t (k.lists h)) }
]
