-- ===== src/Task.antt =====
-- src/kernel/task_private.h: the task control block, its states and its wait results.
use tiny_rt.Base.{ℕ, Bool, false, Option, none, ◌==◌}

-- `task_state_t`.
pub data TaskState : Type 0 where
  unused ready running blocked deleted : TaskState

abbrev pub state_code : TaskState → ℕ
state_code unused = 0
state_code ready = 1
state_code running = 2
state_code blocked = 3
state_code deleted = 4

abbrev pub state_eq : TaskState → TaskState → Bool
state_eq a b = state_code a == state_code b

-- `task_wait_result_t`.
pub data WaitResult : Type 0 where
  nothing object timeout destroyed : WaitResult

-- `task_t`, less what the scheduler hands on unread (name, entry, arg and the copies of the priority). A list node is told by the list that it is linked into: `state_list` by the number of
-- that list's head, none for a node that points at itself, and the other two by whether they are in
-- the one list that they serve.
pub record Task : Type 0 where
  pub sp : ℕ
  pub stack_base : ℕ
  pub stack_size : ℕ
  pub wakeup : ℕ
  pub waiting_on_timer : Bool
  pub wait_result : WaitResult
  pub state : TaskState
  pub priority : ℕ
  pub handle : ℕ
  pub master_list : Bool
  pub state_list : Option ℕ
  pub timeout_list : Bool

abbrev pub blank_task : Task
blank_task = record {
  sp = 0;
  stack_base = 0;
  stack_size = 0;
  wakeup = 0;
  waiting_on_timer = false;
  wait_result = nothing;
  state = unused;
  priority = 0;
  handle = 0;
  master_list = false;
  state_list = none;
  timeout_list = false;
}
