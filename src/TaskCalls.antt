-- ===== src/TaskCalls.antt =====
-- src/kernel/task.c, but for `task_yield`, which is in Sched/Switch.antt: creation, deletion and
-- clean-up of tasks, and delays. The name and the entry of a task and the words of its first
-- frame, which only the context switch and the log read, are left out. A call that ends its own task answers `waits`.
pub mod Delay
pub mod Delete
pub mod Cleanup
pub mod Tests
use tiny_rt.Base.{
  ℕ, zero, suc, ◌+◌, ◌-◌, ◌*◌, ◌/◌, ◌%◌, ◌^◌, Bool, true, false, not, ◌&&◌, ◌||◌, ◌==◌, ltb, leb,
  if◌then◌else◌, Option, none, some, length,
}
use tiny_rt.Error.{Err, Res, val, err}
use tiny_rt.Task.{TaskState, state_eq, Task, WaitResult}
use tiny_rt.Sched.{
  sched_init, sched_add_task, sched_mark_deleted, sched_pop_deleted, sched_ready_remove,
  sched_timeout_insert, timer_expired,
}
use tiny_rt.Sched.State.{Sched, priority_max, deleted_head, modify, update}
use tiny_rt.Sched.Switch.{sched_is_locked, sched_set_pending, task_yield}
use tiny_rt.Handle.{
  Table, ObjType, right_destroy, trt_handle_alloc, trt_handle_lookup, trt_handle_close,
}
use tiny_rt.Heap.{malloc, free}
use tiny_rt.Time.{timer_us_to_ticks}
use tiny_rt.WaitQueue.{Reply, done, waits}
use tiny_rt.Kernel.{Kernel}

-- RTOS_TASK_MAX, ARCH_TASK_CONTEXT_SIZE and the size of `task_t`.
abbrev pub task_max : ℕ
task_max = 20

abbrev pub context_size : ℕ
context_size = 144

abbrev pub task_size : ℕ
task_size = 96

unfoldable pub task_init : Kernel → Kernel
unfolding sched_init
task_init k =
    if k.task_initialized
    then k
    else record k { sched = sched_init k.sched; task_count = 0; task_initialized = true }

unfoldable pub task_lookup : Kernel → ℕ → ℕ → Res ℕ × Kernel
task_lookup k handle rights =
    let (r, t) = trt_handle_lookup k.handles handle ObjType.task rights 1 in
    (r, record k { handles = t })

-- `(stack_size + 15u) & ~15u`.
abbrev pub stack_align : ℕ → ℕ
stack_align size = (size + 15) % 2 ^ 32 / 16 * 16

-- The result of `arch_task_init_frame`, which writes the words of the frame.
abbrev pub frame_of : ℕ → ℕ → ℕ
frame_of stack stack_size = (stack + stack_size) % 2 ^ 32 / 16 * 16 - context_size

abbrev pub new_task : ℕ → ℕ → ℕ → Task
new_task stack stack_size priority = record {
  sp = frame_of stack stack_size;
  stack_base = stack;
  stack_size = stack_size;
  wakeup = 0;
  waiting_on_timer = false;
  wait_result = WaitResult.nothing;
  state = TaskState.ready;
  priority = priority;
  handle = 0;
  master_list = false;
  state_list = none;
  timeout_list = false;
}

-- From the point where both blocks are allocated.
unfoldable pub task_setup : Kernel → ℕ → ℕ → ℕ → ℕ → Kernel
unfolding sched_add_task
task_setup k task stack stack_size priority = record k {
  sched = sched_add_task (modify k.sched task (λ _. new_task stack stack_size priority)) task;
  task_count = (k.task_count + 1) % 2 ^ 32;
}

-- The result 0 is NULL; `none` stands for what `free` makes of a pointer that is no block's. `entry`
-- is the address of a function.
unfoldable pub task_create_kernel : Kernel → ℕ → ℕ → ℕ → Option (ℕ × Kernel)
unfolding malloc free task_setup
task_create_kernel k entry stack_size priority =
    if (entry == 0) || (ltb stack_size context_size || ltb priority_max priority)
    then some (0, k)
    else if leb task_max k.task_count
    then some (0, k)
    else let size = stack_align stack_size in
      let (task, u) = malloc k.heap task_size in
      if task == 0
      then some (0, record k { heap = u })
      else let (stack, w) = malloc u size in
        if stack == 0
        then elim (free w task) [ none ↦ none | some x ↦ some (0, record k { heap = x }) ]
        else some (task, task_setup (record k { heap = w }) task stack size priority)

-- `task_delete_obj` from its guards on: the task's handle is closed and the task is marked.
unfoldable pub delete_marked : Kernel → ℕ → Kernel
unfolding trt_handle_close sched_mark_deleted
delete_marked k task =
    let k1 =
      if not ((k.sched.tasks task).handle == 0)
      then record k {
        handles = (trt_handle_close k.handles (k.sched.tasks task).handle).1;
        sched = modify k.sched task (λ t. record t { handle = 0 });
      }
      else k in
    record k1 {
      sched = sched_mark_deleted k1.sched task;
      task_count = if not (k1.task_count == 0) then k1.task_count - 1 else k1.task_count;
    }

abbrev pub request : Sched → Sched
request s = record s { resched_pending = true }

-- A task that is not NULL.
unfoldable pub delete_task : Kernel → ℕ → Reply × Kernel
unfolding sched_is_locked delete_marked
delete_task k task =
    let self = task == k.sched.current_task in
    if (task == 0) || (task == k.sched.idle_task)
    then (done Err.inval, k)
    else if state_eq (k.sched.tasks task).state TaskState.deleted
    then (done Err.state, k)
    else if self && sched_is_locked k.sched
    then (done Err.locked, k)
    else let k1 = delete_marked k task in
      if self then (waits, record k1 { sched = request k1.sched }) else (done Err.ok, k1)

-- 0 stands for the current task.
unfoldable pub task_delete_obj : Kernel → ℕ → Reply × Kernel
unfolding delete_task
task_delete_obj k task = delete_task k (if task == 0 then k.sched.current_task else task)

unfoldable pub task_delete_kernel : Kernel → ℕ → Reply × Kernel
unfolding task_delete_obj
task_delete_kernel k task = task_delete_obj k task

-- The end of `task_create`, after `trt_handle_alloc` has answered.
unfoldable pub task_granted : ℕ → Kernel → Res ℕ × Table → ℕ × Kernel
unfolding task_delete_kernel
task_granted task k (val h, t) =
    (h, record k { handles = t; sched = modify k.sched task (λ x. record x { handle = h }) })
task_granted task k (err e, t) = (0, (task_delete_kernel (record k { handles = t }) task).1)

-- The result 0 is TRT_HANDLE_INVALID.
unfoldable pub task_create : Kernel → ℕ → ℕ → ℕ → Option (ℕ × Kernel)
unfolding task_create_kernel task_granted
task_create k entry stack_size priority = elim (task_create_kernel k entry stack_size priority) [
  | none ↦ none
  | some (task, k1) ↦
      if task == 0
      then some (0, k1)
      else some
          (task_granted task k1 (trt_handle_alloc k1.handles task ObjType.task right_destroy 1))
]

unfoldable pub task_delete : Kernel → ℕ → Reply × Kernel
unfolding task_lookup task_delete_obj
task_delete k handle =
    let (r, k1) = task_lookup k handle right_destroy in
    elim r [ err e ↦ (done e, k1) | val task ↦ task_delete_obj k1 task ]

-- The task then yields for ever.
unfoldable pub task_exit : Kernel → Kernel
unfolding task_delete_obj
task_exit k = (task_delete_obj k 0).1

-- `free(task->stack_base)` and `free(task)`; `none` as above.
unfoldable pub free_task : Kernel → ℕ → Option Kernel
unfolding free
free_task k task = elim (free k.heap (k.sched.tasks task).stack_base) [
  | none ↦ none
  | some u ↦ elim (free u task) [ none ↦ none | some w ↦ some (record k { heap = w }) ]
]

-- On fuel, one round for each deleted task and one more; `none` also when it is used up.
unfoldable pub cleanup_loop : ℕ → Kernel → Option Kernel
unfolding sched_pop_deleted free_task
cleanup_loop zero k = none
cleanup_loop (suc fuel) k =
    let (task, s) = sched_pop_deleted k.sched in
    let k1 = record k { sched = s } in
    elim (task == 0) [
      | true ↦ some k1
      | false ↦ elim (free_task k1 task) [ none ↦ none | some k2 ↦ cleanup_loop fuel k2 ]
    ]

unfoldable pub task_cleanup_deleted : Kernel → Option Kernel
unfolding cleanup_loop
task_cleanup_deleted k = cleanup_loop (length (k.sched.lists deleted_head) + 1) k

-- The body of the loop of `task_delay_ticks` in its critical section.
unfoldable pub delay_current : Sched → ℕ → Sched
unfolding sched_ready_remove sched_timeout_insert
delay_current s wakeup =
    let t = s.current_task in
    let s1 = modify s t (λ task. record task {
      wakeup = wakeup;
      waiting_on_timer = true;
      wait_result = WaitResult.nothing;
      state = TaskState.blocked;
    }) in
    sched_timeout_insert (sched_ready_remove s1 t) t

-- The loop, on fuel: `none` when it is used up. It goes on after the trap of `task_yield` when the
-- task runs again, with the same `wakeup`.
unfoldable pub delay_loop : ℕ → Sched → ℕ → Option (Bool × Sched)
unfolding delay_current task_yield
delay_loop zero s wakeup = none
delay_loop (suc fuel) s wakeup =
    if timer_expired s.tick_count wakeup
    then some (false, s)
    else let (s1, trapped) = task_yield (delay_current s wakeup) in
      let rest = delay_loop fuel s1 wakeup in if trapped then some (true, s1) else rest

-- Whether the task waits in the trap; with one unit of fuel.
unfoldable pub task_delay_ticks : Sched → ℕ → Option (Bool × Sched)
unfolding sched_is_locked sched_set_pending delay_loop
task_delay_ticks s ticks =
    if s.current_task == 0
    then some (false, s)
    else if sched_is_locked s
    then some (false, sched_set_pending s)
    else delay_loop 1 s ((s.tick_count + ticks) % 2 ^ 32)

unfoldable pub task_sleep : Sched → ℕ → Option (Bool × Sched)
unfolding task_delay_ticks
task_sleep s us = task_delay_ticks s (timer_us_to_ticks us)
