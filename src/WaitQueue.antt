-- ===== src/WaitQueue.antt =====
-- src/kernel/wait_queue.c: lists of waiting tasks, of which each has one of the scheduler's heads. A
-- function that blocks is in two parts, around the trap of `task_yield`: the part before it runs in
-- one step, and `..._resume` is what the task returns when it runs again.
pub mod Inv
pub mod Yield
pub mod WakeAll
pub mod Timed
pub mod Tests
use tiny_rt.Base.{
  ℕ, zero, suc, ◌+◌, ◌-◌, ◌%◌, ◌^◌, Bool, true, false, not, ◌&&◌, ◌||◌, List, [], ◌∷◌, ◌==◌,
  if◌then◌else◌, is_empty, length,
}
use tiny_rt.Error.{Err}
use tiny_rt.Task.{Task, WaitResult}
use tiny_rt.Sched.{sched_block_current, sched_timeout_insert, sched_wake_one}
use tiny_rt.Sched.State.{Sched, wait_head, update, modify, set_result}
use tiny_rt.Sched.Switch.{sched_is_locked, sched_set_pending, sched_request_from_isr, task_yield}
use tiny_rt.Time.{forever_us, timer_us_to_ticks}

-- What a blocking call has come to: it has returned, or its task waits in the trap.
pub data Reply : Type 0 where
  done : Err → Reply
  waits : Reply

abbrev pub result_of : Sched → WaitResult
result_of k = (k.tasks k.current_task).wait_result

unfoldable pub trt_wait_q_init : Sched → ℕ → Sched
trt_wait_q_init k wq = record k { lists = update k.lists (wait_head wq) [] }

unfoldable pub trt_wait_q_empty : Sched → ℕ → Bool
trt_wait_q_empty k wq = is_empty (k.lists (wait_head wq))

-- A queue is its address, 0 for NULL.
unfoldable pub trt_wait_q_block_locked : Sched → ℕ → Err × Sched
unfolding sched_is_locked sched_set_pending
trt_wait_q_block_locked k wq =
    if (wq == 0) || ((k.current_task == 0) || sched_is_locked k)
    then (if (wq == 0) || (k.current_task == 0) then Err.inval else Err.locked, sched_set_pending k)
    else let k1 = modify k k.current_task (set_result WaitResult.nothing) in
      (Err.ok, sched_block_current k1 (wait_head wq))

abbrev pub timed : ℕ → Task → Task
timed wakeup task = record task {
  wakeup = wakeup;
  waiting_on_timer = true;
  wait_result = WaitResult.nothing;
}

-- The rest of `trt_wait_q_block_ticks_locked`, after it has blocked.
abbrev pub with_timeout : ℕ → Err × Sched → Err × Sched
with_timeout ticks (Err.ok, k) = (
  Err.ok,
  sched_timeout_insert (modify k k.current_task (timed ((k.tick_count + ticks) % 2 ^ 32)))
      k.current_task,
)
with_timeout ticks (e, k) = (e, k)

unfoldable pub trt_wait_q_block_ticks_locked : Sched → ℕ → ℕ → Err × Sched
trt_wait_q_block_ticks_locked k wq ticks =
    if ticks == 0 then (Err.timeout, k) else with_timeout ticks (trt_wait_q_block_locked k wq)

unfoldable pub trt_wait_q_block_timeout_locked : Sched → ℕ → ℕ → Err × Sched
trt_wait_q_block_timeout_locked k wq us =
    if us == forever_us
    then trt_wait_q_block_locked k wq
    else trt_wait_q_block_ticks_locked k wq (timer_us_to_ticks us)

-- A call that has blocked goes on to `task_yield`; `resume` is what it returns when it runs on.
abbrev pub yielding : (Sched → Err) → Err × Sched → Reply × Sched
yielding resume (Err.ok, k) =
    let (k1, trapped) = task_yield k in if trapped then (waits, k1) else (done (resume k1), k1)
yielding resume (e, k) = (done e, k)

unfoldable pub trt_wait_q_block_resume : Sched → Err
trt_wait_q_block_resume k = elim (result_of k) [
  | WaitResult.object ↦ Err.ok
  | WaitResult.destroyed ↦ Err.destroyed
  | _ ↦ Err.state
]

unfoldable pub trt_wait_q_block : Sched → ℕ → Reply × Sched
trt_wait_q_block k wq = yielding trt_wait_q_block_resume (trt_wait_q_block_locked k wq)

unfoldable pub trt_wait_q_block_ticks_resume : Sched → Err
trt_wait_q_block_ticks_resume k = elim (result_of k) [
  | WaitResult.object ↦ Err.ok
  | WaitResult.destroyed ↦ Err.destroyed
  | _ ↦ Err.timeout
]

unfoldable pub trt_wait_q_block_ticks : Sched → ℕ → ℕ → Reply × Sched
trt_wait_q_block_ticks k wq ticks =
    yielding trt_wait_q_block_ticks_resume (trt_wait_q_block_ticks_locked k wq ticks)

unfoldable pub trt_wait_q_block_timeout : Sched → ℕ → ℕ → Reply × Sched
trt_wait_q_block_timeout k wq us =
    if us == forever_us
    then trt_wait_q_block k wq
    else trt_wait_q_block_ticks k wq (timer_us_to_ticks us)

-- The task that was woken, 0 for none.
unfoldable pub trt_wait_q_wake_one_result_locked : Sched → ℕ → WaitResult → ℕ × Sched
unfolding sched_is_locked sched_set_pending
trt_wait_q_wake_one_result_locked k wq result =
    if wq == 0
    then (0, k)
    else let (t, k1) = sched_wake_one k (wait_head wq) in
      let k2 = if not (t == 0) && sched_is_locked k1 then sched_set_pending k1 else k1 in
      (t, if not (t == 0) then modify k2 t (set_result result) else k2)

unfoldable pub trt_wait_q_wake_one_locked : Sched → ℕ → ℕ × Sched
trt_wait_q_wake_one_locked k wq = trt_wait_q_wake_one_result_locked k wq WaitResult.object

-- In a critical section, as every caller of the function above.
unfoldable pub trt_wait_q_wake_one : Sched → ℕ → ℕ × Sched
trt_wait_q_wake_one k wq = trt_wait_q_wake_one_locked k wq

unfoldable pub trt_wait_q_wake_one_from_isr : Sched → ℕ → ℕ × Sched
unfolding sched_request_from_isr
trt_wait_q_wake_one_from_isr k wq =
    if not k.in_isr
    then (0, k)
    else let (t, k1) = trt_wait_q_wake_one_locked k wq in
      (t, if not (t == 0) then sched_request_from_isr k1 else k1)

-- Each round but the last wakes a task, so one round more than the queue is long is fuel enough.
unfoldable pub wake_all_loop : ℕ → Sched → ℕ → WaitResult → ℕ → ℕ × Sched
wake_all_loop zero k wq result n = (n, k)
wake_all_loop (suc fuel) k wq result n =
    let (t, k1) = trt_wait_q_wake_one_result_locked k wq result in
    elim (t == 0) [ true ↦ (n, k1) | false ↦ wake_all_loop fuel k1 wq result (n + 1) ]

unfoldable pub trt_wait_q_wake_all_result_locked : Sched → ℕ → WaitResult → ℕ × Sched
unfolding wake_all_loop
trt_wait_q_wake_all_result_locked k wq result =
    if wq == 0 then (0, k) else wake_all_loop (length (k.lists (wait_head wq)) + 1) k wq result 0

unfoldable pub trt_wait_q_wake_all_locked : Sched → ℕ → ℕ × Sched
trt_wait_q_wake_all_locked k wq = trt_wait_q_wake_all_result_locked k wq WaitResult.object

unfoldable pub trt_wait_q_wake_all : Sched → ℕ → ℕ × Sched
trt_wait_q_wake_all k wq = trt_wait_q_wake_all_locked k wq

unfoldable pub trt_wait_q_wake_all_from_isr : Sched → ℕ → ℕ × Sched
unfolding sched_request_from_isr
trt_wait_q_wake_all_from_isr k wq =
    if not k.in_isr
    then (0, k)
    else let (n, k1) = trt_wait_q_wake_all_locked k wq in
      (n, if not (n == 0) then sched_request_from_isr k1 else k1)
