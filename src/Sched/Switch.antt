-- ===== src/Sched/Switch.antt =====
-- src/kernel/sched.c: the choice of the next task, the tick, the timeouts and the scheduler lock,
-- and `task_yield` of src/kernel/task.c, which the lock calls.
use tiny_rt.Base.{
  ℕ, zero, suc, ◌+◌, ◌-◌, ◌%◌, ◌^◌, Bool, true, false, not, ◌&&◌, ◌||◌, Option, none, some, [], ◌∷◌,
  ◌==◌, ltb, leb, if◌then◌else◌, is_empty, length, remove, bit_and,
}
use tiny_rt.Base.Bits.{bit_not, clz}
use tiny_rt.Task.{TaskState, state_eq, WaitResult}
use tiny_rt.Sched.State.{Sched, priority_max, modify, set_state, is_unlinked, unlink}
use tiny_rt.Sched.{sched_ready_enqueue, cleared, timer_expired, time_slice_max}

-- The result 0 is NULL; `none` is the branch of a corrupt ready list, which loops for ever.
unfoldable pub sched_ready_pop_highest : Sched → Option (ℕ × Sched)
sched_ready_pop_highest k =
    if k.mask == 0
    then some (0, k)
    else let priority = 31 - clz 32 k.mask in
      elim (k.lists priority) [ [] ↦ none | t ∷ ts ↦ some (t, cleared (unlink k t) priority) ]

-- The running task goes back to its ready list; the idle task is never in one.
unfoldable pub requeue_current : Sched → Sched
unfolding sched_ready_enqueue
requeue_current k =
    if not (k.current_task == 0) && state_eq (k.tasks k.current_task).state TaskState.running
    then (let k1 = modify k k.current_task (set_state TaskState.ready) in
        if k.current_task == k.idle_task then k1 else sched_ready_enqueue k1 k.current_task)
    else k

-- What follows the pop: the popped task runs, else the idle task, else the previous one goes on.
unfoldable pub choose : ℕ → Option (ℕ × Sched) → Option (ℕ × Sched)
choose previous none = none
choose previous (some (t, k)) =
    if not (t == 0)
    then some (t, modify k t (set_state TaskState.running))
    else if not (k.idle_task == 0)
    then some (k.idle_task, modify k k.idle_task (set_state TaskState.running))
    else some (previous, k)

unfoldable pub sched_pick_next : Sched → Option (ℕ × Sched)
unfolding sched_ready_pop_highest requeue_current choose
sched_pick_next k = choose k.current_task (sched_ready_pop_highest (requeue_current k))

-- `scheduler.current_task = sched_pick_next()`.
unfoldable pub switch : Sched → Option Sched
unfolding sched_pick_next
switch k = elim (sched_pick_next k) [
  | none ↦ none
  | some (t, k') ↦ some (record k' { current_task = t })
]

unfoldable pub sched_current_is_idle : Sched → Bool
sched_current_is_idle k = not (k.current_task == 0) && (k.current_task == k.idle_task)

-- `ready_tasks.mask & ~((1u << (p + 1)) - 1)` is not 0.
unfoldable pub has_above : ℕ → ℕ → Bool
has_above mask p = not (bit_and mask (bit_not 32 (2 ^ (p + 1) - 1)) == 0)

-- Built with RTOS_SCHED_PREEMPTIVE and RTOS_SCHED_ROUND_ROBIN.
unfoldable pub sched_on_tick : Sched → Bool × Sched
unfolding sched_current_is_idle has_above
sched_on_tick k =
    let p = (k.tasks k.current_task).priority in
    if k.current_task == 0
    then (false, k)
    else if not (state_eq (k.tasks k.current_task).state TaskState.running)
        || sched_current_is_idle k
    then (true, record k { time_slice_ticks = 0 })
    else if k.mask == 0
    then (false, k)
    else if ltb p priority_max && has_above k.mask p
    then (true, record k { time_slice_ticks = 0 })
    else if is_empty (k.lists p)
    then (false, k)
    else let n = (k.time_slice_ticks + 1) % 2 ^ 32 in
      if leb time_slice_max n
      then (true, record k { time_slice_ticks = 0 })
      else (false, record k { time_slice_ticks = n })

-- The body of the loop of `sched_wake_expired`, for a task whose time has come.
unfoldable pub wake_expired_task : Sched → ℕ → Sched
unfolding sched_ready_enqueue
wake_expired_task k t =
    let k1 = record (modify k t (λ task. record task { timeout_list = false })) {
      timeout_task_list = remove t k.timeout_task_list;
    } in
    if not (state_eq (k.tasks t).state TaskState.blocked) || not (k.tasks t).waiting_on_timer
    then k1
    else let k2 =
        modify k1 t
          (λ task. record task { waiting_on_timer = false; wait_result = WaitResult.timeout }) in
      let k3 = if is_unlinked (k2.tasks t) then k2 else unlink k2 t in
      sched_ready_enqueue (modify k3 t (set_state TaskState.ready)) t

-- Each round takes a task off the list, so its length is fuel enough.
unfoldable pub wake_expired_loop : ℕ → ℕ → Sched → Sched
unfolding wake_expired_task
wake_expired_loop zero now k = k
wake_expired_loop (suc fuel) now k = elim k.timeout_task_list [
  | [] ↦ k
  | t ∷ ts ↦ elim (timer_expired now (k.tasks t).wakeup) [
    | false ↦ k
    | true ↦ wake_expired_loop fuel now (wake_expired_task k t)
  ]
]

unfoldable pub sched_wake_expired : Sched → Sched
unfolding wake_expired_loop
sched_wake_expired k = wake_expired_loop (length k.timeout_task_list) k.tick_count k

unfoldable pub sched_is_locked : Sched → Bool
sched_is_locked k = not (k.lock_count == 0)

unfoldable pub sched_set_pending : Sched → Sched
sched_set_pending k = record k { resched_pending = true }

unfoldable pub sched_request_from_isr : Sched → Sched
unfolding sched_set_pending
sched_request_from_isr k = sched_set_pending k

unfoldable pub sched_lock : Sched → Sched
sched_lock k = record k { lock_count = (k.lock_count + 1) % 2 ^ 32 }

-- `task_yield` up to `arch_yield`; the flag says that the trap of `arch_yield` follows.
unfoldable pub task_yield : Sched → Sched × Bool
unfolding sched_is_locked sched_set_pending sched_current_is_idle sched_ready_enqueue
task_yield k =
    if sched_is_locked k
    then (sched_set_pending k, false)
    else if not (k.current_task == 0)
        && (not (sched_current_is_idle k)
            && state_eq (k.tasks k.current_task).state TaskState.running)
    then (
      sched_ready_enqueue (modify k k.current_task (set_state TaskState.ready)) k.current_task,
      true,
    )
    else (k, true)

unfoldable pub sched_unlock : Sched → Sched × Bool
unfolding task_yield
sched_unlock k =
    if k.lock_count == 0
    then (k, false)
    else let k1 = record k { lock_count = k.lock_count - 1 } in
      if (k1.lock_count == 0) && k1.resched_pending
      then (let k2 = record k1 { resched_pending = false } in
          if k2.started && not (k2.current_task == 0) then task_yield k2 else (k2, false))
      else (k1, false)

unfoldable pub sched_has_higher_priority_ready : Sched → Bool
unfolding has_above
sched_has_higher_priority_ready k =
    let p = (k.tasks k.current_task).priority in
    if (k.current_task == 0) || leb priority_max p then false else has_above k.mask p

-- `none` as in `sched_pick_next`.
unfoldable pub sched_try_reschedule_from_trap : Sched → Option (Bool × Sched)
unfolding sched_current_is_idle sched_has_higher_priority_ready switch
sched_try_reschedule_from_trap k =
    if k.started && (not (k.current_task == 0) && (k.resched_pending && (k.lock_count == 0)))
    then (let k1 = record k { resched_pending = false } in
        if not (state_eq (k1.tasks k1.current_task).state TaskState.running)
          || (sched_current_is_idle k1 || sched_has_higher_priority_ready k1)
        then elim (switch k1) [ none ↦ none | some k2 ↦ some (true, k2) ]
        else some (false, k1))
    else some (false, k)
