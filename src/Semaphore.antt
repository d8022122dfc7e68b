-- ===== src/Semaphore.antt =====
-- src/kernel/semaphore.c. A function that takes a handle looks the semaphore up and goes on with its
-- `_obj` function. One that blocks is in two parts, as in WaitQueue.antt.
pub mod Count
pub mod Waits
pub mod Transfer
pub mod Create
pub mod Tests
use tiny_rt.Base.{
  ℕ, zero, ◌+◌, ◌-◌, ◌%◌, ◌^◌, Bool, true, false, not, ◌==◌, if◌then◌else◌, Option, none, some,
}
use tiny_rt.Error.{Err, Res, val, err}
use tiny_rt.Task.{WaitResult}
use tiny_rt.Sched.State.{Sched, update}
use tiny_rt.Sched.Switch.{sched_is_locked, sched_set_pending, sched_request_from_isr, task_yield}
use tiny_rt.Handle.{
  Table, ObjType, right_wait, right_post, right_destroy, trt_handle_alloc, trt_handle_lookup,
  trt_handle_close,
}
use tiny_rt.Heap.{malloc, free}
use tiny_rt.Time.{forever_us}
use tiny_rt.WaitQueue.{
  Reply, done, waits, yielding, trt_wait_q_init, trt_wait_q_empty, trt_wait_q_block_locked,
  trt_wait_q_block_timeout_locked, trt_wait_q_block_resume, trt_wait_q_block_ticks_resume,
  trt_wait_q_wake_one_locked, trt_wait_q_wake_one_from_isr, trt_wait_q_wake_all_result_locked,
}
use tiny_rt.Kernel.{
  Kernel, Sem, waiters, object_size, object_rights, is_negative, int_ltb, with_sched,
}

unfoldable pub sem_lookup : Kernel → ℕ → ℕ → Res ℕ × Kernel
sem_lookup k handle rights =
    let (r, t) = trt_handle_lookup k.handles handle ObjType.sem rights 1 in
    (r, record k { handles = t })

-- What a call does with the outcome of its lookup.
abbrev pub with_object {ℓ} :
    {A : Type ℓ} → (Err → A) → (ℕ → Kernel → A × Kernel) → Res ℕ × Kernel → A × Kernel
with_object fail go (val object, k) = go object k
with_object fail go (err e, k) = (fail e, k)

abbrev pub set_sem : Kernel → ℕ → Sem → Kernel
set_sem k s sem = record k { sems = update k.sems s sem }

unfoldable pub sem_init_obj : Kernel → ℕ → ℕ → ℕ → Kernel
unfolding trt_wait_q_init
sem_init_obj k s max cnt =
    record (set_sem k s (record {
      cnt = if is_negative cnt then 0 else cnt;
      max = if int_ltb max cnt then cnt else max;
      destroyed = false;
    })) { sched = trt_wait_q_init k.sched (waiters s) }

-- The end of `trt_sem_create`, after `trt_handle_alloc` has answered. `none` stands for what `free`
-- makes of a pointer that is no block's.
unfoldable pub granted : ℕ → Kernel → Res ℕ × Table → Option (ℕ × Kernel)
unfolding free
granted object k (val h, t) = some (h, record k { handles = t })
granted object k (err e, t) = elim (free k.heap object) [
  | none ↦ none
  | some u ↦ some (0, record k { handles = t; heap = u })
]

unfoldable pub give_handle : ObjType → ℕ → Kernel → Option (ℕ × Kernel)
unfolding granted
give_handle type object k =
    granted object k (trt_handle_alloc k.handles object type object_rights 1)

-- The result 0 is TRT_HANDLE_INVALID.
unfoldable pub trt_sem_create : Kernel → ℕ → ℕ → Option (ℕ × Kernel)
unfolding malloc sem_init_obj give_handle
trt_sem_create k max cnt =
    let (s, u) = malloc k.heap object_size in
    if s == 0
    then some (0, record k { heap = u })
    else give_handle ObjType.sem s (sem_init_obj (record k { heap = u }) s max cnt)

-- With the number of tasks that it wakes.
unfoldable pub sem_destroy_obj : Kernel → ℕ → (Err × ℕ) × Kernel
unfolding trt_wait_q_wake_all_result_locked
sem_destroy_obj k s =
    if s == 0
    then ((Err.inval, 0), k)
    else if (k.sems s).destroyed
    then ((Err.state, 0), k)
    else let (n, sched) =
        trt_wait_q_wake_all_result_locked k.sched (waiters s) WaitResult.destroyed in
      (
        (Err.ok, n),
        record (set_sem k s (record (k.sems s) { cnt = 0; destroyed = true })) { sched = sched },
      )

-- The end of a destruction: the handle is closed, the object freed, and the processor yielded if a
-- task was woken. `none` as in `give_handle`. The reply says whether a trap follows.
unfoldable pub discard : ℕ → ℕ → (Err × ℕ) × Kernel → Option (Reply × Kernel)
unfolding trt_handle_close free task_yield
discard handle object ((Err.ok, woken), k) =
    let (_, t) = trt_handle_close k.handles handle in
    elim (free k.heap object) [
      | none ↦ none
      | some u ↦
          let k1 = record k { handles = t; heap = u } in
          if woken == 0
          then some (done Err.ok, k1)
          else let (sched, trapped) = task_yield k1.sched in
            some (if trapped then waits else done Err.ok, record k1 { sched = sched })
    ]
discard handle object ((e, woken), k) = some (done e, k)

unfoldable pub trt_sem_destroy : Kernel → ℕ → Option (Reply × Kernel)
unfolding sem_lookup sem_destroy_obj discard
trt_sem_destroy k handle =
    if k.sched.in_isr
    then some (done Err.state, k)
    else let (r, k1) = sem_lookup k handle right_destroy in
      elim r [ err e ↦ some (done e, k1) | val s ↦ discard handle s (sem_destroy_obj k1 s) ]

unfoldable pub sem_post_obj : Kernel → ℕ → Err × Kernel
unfolding trt_wait_q_empty trt_wait_q_wake_one_locked
sem_post_obj k s =
    let sem = k.sems s in
    if s == 0
    then (Err.inval, k)
    else if sem.destroyed
    then (Err.destroyed, k)
    else if not (trt_wait_q_empty k.sched (waiters s))
    then (Err.ok, record k { sched = (trt_wait_q_wake_one_locked k.sched (waiters s)).1 })
    else if sem.cnt == sem.max
    then (Err.busy, k)
    else (Err.ok, set_sem k s (record sem { cnt = (sem.cnt + 1) % 2 ^ 32 }))

unfoldable pub trt_sem_post : Kernel → ℕ → Err × Kernel
unfolding sem_lookup sem_post_obj
trt_sem_post k handle =
    with_object (λ e. e) (λ s k1. sem_post_obj k1 s) (sem_lookup k handle right_post)

-- `sem_post_from_isr_obj` from its critical section on.
unfoldable pub post_in_isr : Kernel → ℕ → Err × Kernel
unfolding trt_wait_q_empty trt_wait_q_wake_one_from_isr sched_request_from_isr
post_in_isr k s =
    let sem = k.sems s in
    if s == 0
    then (Err.inval, k)
    else if sem.destroyed
    then (Err.destroyed, k)
    else if not (trt_wait_q_empty k.sched (waiters s))
    then (Err.ok, record k { sched = (trt_wait_q_wake_one_from_isr k.sched (waiters s)).1 })
    else if sem.cnt == sem.max
    then (Err.busy, k)
    else (
      Err.ok,
      record (set_sem k s (record sem { cnt = (sem.cnt + 1) % 2 ^ 32 })) {
        sched = sched_request_from_isr k.sched;
      },
    )

unfoldable pub sem_post_from_isr_obj : Kernel → ℕ → Err × Kernel
unfolding post_in_isr
sem_post_from_isr_obj k s = if not k.sched.in_isr then (Err.state, k) else post_in_isr k s

unfoldable pub trt_sem_post_from_isr : Kernel → ℕ → Err × Kernel
unfolding sem_lookup sem_post_from_isr_obj
trt_sem_post_from_isr k handle =
    with_object (λ e. e) (λ s k1. sem_post_from_isr_obj k1 s) (sem_lookup k handle right_post)

-- The common course of both waits: `block` puts the current task into the queue, and `resume` is
-- what it returns when it runs again.
unfoldable pub sem_take : (Sched → ℕ → Err × Sched) → (Sched → Err) → Kernel → ℕ → Reply × Kernel
unfolding sched_is_locked sched_set_pending
sem_take block resume k s =
    let sem = k.sems s in
    if s == 0
    then (done Err.inval, k)
    else if sem.destroyed
    then (done Err.destroyed, k)
    else if int_ltb 0 sem.cnt
    then (done Err.ok, set_sem k s (record sem { cnt = sem.cnt - 1 }))
    else if sched_is_locked k.sched
    then (done Err.locked, record k { sched = sched_set_pending k.sched })
    else with_sched k (yielding resume (block k.sched (waiters s)))

unfoldable pub sem_wait_obj : Kernel → ℕ → Reply × Kernel
unfolding sem_take trt_wait_q_block_locked trt_wait_q_block_resume
sem_wait_obj k s = sem_take trt_wait_q_block_locked trt_wait_q_block_resume k s

unfoldable pub trt_sem_wait : Kernel → ℕ → Reply × Kernel
unfolding sem_lookup sem_wait_obj
trt_sem_wait k handle =
    with_object done (λ s k1. sem_wait_obj k1 s) (sem_lookup k handle right_wait)

unfoldable pub sem_wait_timeout_obj : Kernel → ℕ → ℕ → Reply × Kernel
unfolding sem_wait_obj sem_take trt_wait_q_block_timeout_locked trt_wait_q_block_ticks_resume
sem_wait_timeout_obj k s us =
    if us == forever_us
    then sem_wait_obj k s
    else sem_take (λ sched wq. trt_wait_q_block_timeout_locked sched wq us)
        trt_wait_q_block_ticks_resume k s

unfoldable pub trt_sem_wait_timeout : Kernel → ℕ → ℕ → Reply × Kernel
unfolding sem_lookup sem_wait_timeout_obj
trt_sem_wait_timeout k handle us =
    with_object done (λ s k1. sem_wait_timeout_obj k1 s us) (sem_lookup k handle right_wait)

unfoldable pub sem_trywait_obj : Kernel → ℕ → Err × Kernel
sem_trywait_obj k s =
    let sem = k.sems s in
    if s == 0
    then (Err.inval, k)
    else if sem.destroyed
    then (Err.destroyed, k)
    else if sem.cnt == 0
    then (Err.busy, k)
    else (Err.ok, set_sem k s (record sem { cnt = (sem.cnt + 2 ^ 32 - 1) % 2 ^ 32 }))

unfoldable pub trt_sem_trywait : Kernel → ℕ → Err × Kernel
unfolding sem_lookup sem_trywait_obj
trt_sem_trywait k handle =
    with_object (λ e. e) (λ s k1. sem_trywait_obj k1 s) (sem_lookup k handle right_wait)
