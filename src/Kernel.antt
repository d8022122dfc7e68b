-- ===== src/Kernel.antt =====
-- The state that the kernel's objects share: the scheduler, the handle table, the heap, and the
-- semaphores, mutexes, message queues and timers by their addresses, with the list of timers, and
-- the statics of task.c. An object that is freed stays as it is.
-- A C `int` is its 32-bit word.
use tiny_rt.Base.{ℕ, ◌+◌, ◌%◌, ◌^◌, Bool, List, leb, ltb}
use tiny_rt.Sched.State.{Sched}
use tiny_rt.Handle.{Table, right_wait, right_post, right_destroy}
use tiny_rt.Heap.{Heap}

-- `trt_sem_t`, less its wait queue.
pub record Sem : Type 0 where
  pub cnt : ℕ
  pub max : ℕ
  pub destroyed : Bool

-- `trt_mutex_t`, less its wait queue.
pub record Mutex : Type 0 where
  pub owner : ℕ
  pub lock_count : ℕ
  pub destroyed : Bool

-- `trt_msg_q_t`, less its two wait queues. The messages are bytes of the heap, from `buf` on.
pub record MsgQ : Type 0 where
  pub buf : ℕ
  pub cap : ℕ
  pub qlen : ℕ
  pub head : ℕ
  pub tail : ℕ
  pub destroyed : Bool

-- `timer_t`, less its node. A callback is the address of a function.
pub record Timer : Type 0 where
  pub deadline : ℕ
  pub period : ℕ
  pub callback : ℕ
  pub arg : ℕ
  pub active : Bool

pub record Kernel : Type 0 where
  pub sched : Sched
  pub handles : Table
  pub heap : Heap
  pub sems : ℕ → Sem
  pub mutexes : ℕ → Mutex
  pub queues : ℕ → MsgQ
  pub timers : ℕ → Timer
  pub timer_list : List ℕ
  pub task_count : ℕ
  pub task_initialized : Bool

-- The address of the member `waiters`, which follows two words and a byte in both structs, and the
-- size of both.
abbrev pub waiters : ℕ → ℕ
waiters object = object + 12

abbrev pub object_size : ℕ
object_size = 20

-- The rights of a semaphore's or a mutex's handle.
abbrev pub object_rights : ℕ
object_rights = right_wait + right_post + right_destroy

-- Signed comparison of words.
abbrev pub is_negative : ℕ → Bool
is_negative n = leb (2 ^ 31) n

abbrev pub int_ltb : ℕ → ℕ → Bool
int_ltb a b = ltb ((a + 2 ^ 31) % 2 ^ 32) ((b + 2 ^ 31) % 2 ^ 32)

-- A result of the scheduler's with the state around it.
abbrev pub with_sched {ℓ} : {A : Type ℓ} → Kernel → A × Sched → A × Kernel
with_sched k (a, s) = (a, record k { sched = s })
