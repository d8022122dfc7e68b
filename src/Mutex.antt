-- ===== src/Mutex.antt =====
-- src/kernel/mutex.c, in the form of Semaphore.antt.
pub mod Owner
pub mod Unlock
pub mod Lock
pub mod Reach
pub mod Tests
use tiny_rt.Base.{
  ℕ, ◌+◌, ◌-◌, ◌%◌, ◌^◌, Bool, true, false, not, ◌&&◌, ◌||◌, ◌==◌, if◌then◌else◌, Option, none,
  some,
}
use tiny_rt.Error.{Err, Res, val, err}
use tiny_rt.Task.{WaitResult}
use tiny_rt.Sched.State.{Sched, update}
use tiny_rt.Handle.{ObjType, right_wait, right_post, right_destroy, trt_handle_lookup}
use tiny_rt.Heap.{malloc}
use tiny_rt.Time.{forever_us}
use tiny_rt.WaitQueue.{
  Reply, done, waits, yielding, result_of, trt_wait_q_init, trt_wait_q_block_locked,
  trt_wait_q_block_timeout_locked, trt_wait_q_wake_one_locked, trt_wait_q_wake_all_result_locked,
}
use tiny_rt.Kernel.{Kernel, Mutex, waiters, object_size, with_sched}
use tiny_rt.Semaphore.{with_object, give_handle, discard}

unfoldable pub mutex_lookup : Kernel → ℕ → ℕ → Res ℕ × Kernel
mutex_lookup k handle rights =
    let (r, t) = trt_handle_lookup k.handles handle ObjType.mutex rights 1 in
    (r, record k { handles = t })

abbrev pub set_mutex : Kernel → ℕ → Mutex → Kernel
set_mutex k m mutex = record k { mutexes = update k.mutexes m mutex }

unfoldable pub mutex_init_obj : Kernel → ℕ → Kernel
unfolding trt_wait_q_init
mutex_init_obj k m =
    record (set_mutex k m (record { owner = 0; lock_count = 0; destroyed = false })) {
      sched = trt_wait_q_init k.sched (waiters m);
    }

-- The result 0 is TRT_HANDLE_INVALID.
unfoldable pub trt_mutex_create : Kernel → Option (ℕ × Kernel)
unfolding malloc mutex_init_obj give_handle
trt_mutex_create k =
    let (m, u) = malloc k.heap object_size in
    if m == 0
    then some (0, record k { heap = u })
    else give_handle ObjType.mutex m (mutex_init_obj (record k { heap = u }) m)

-- With the number of tasks that it wakes.
unfoldable pub mutex_destroy_obj : Kernel → ℕ → (Err × ℕ) × Kernel
unfolding trt_wait_q_wake_all_result_locked
mutex_destroy_obj k m =
    if m == 0
    then ((Err.inval, 0), k)
    else if (k.mutexes m).destroyed
    then ((Err.state, 0), k)
    else let (n, sched) =
        trt_wait_q_wake_all_result_locked k.sched (waiters m) WaitResult.destroyed in
      (
        (Err.ok, n),
        record (set_mutex k m (record { owner = 0; lock_count = 0; destroyed = true })) {
          sched = sched;
        },
      )

unfoldable pub trt_mutex_destroy : Kernel → ℕ → Option (Reply × Kernel)
unfolding mutex_lookup mutex_destroy_obj discard
trt_mutex_destroy k handle =
    if k.sched.in_isr
    then some (done Err.state, k)
    else let (r, k1) = mutex_lookup k handle right_destroy in
      elim r [ err e ↦ some (done e, k1) | val m ↦ discard handle m (mutex_destroy_obj k1 m) ]

-- What a lock call does, but for a mutex that another task owns: there it goes on with `busy`.
unfoldable pub acquire : Kernel → ℕ → Reply × Kernel → Reply × Kernel
acquire k m busy =
    let mutex = k.mutexes m in
    let current = k.sched.current_task in
    if (m == 0) || (current == 0)
    then (done Err.inval, k)
    else if mutex.destroyed
    then (done Err.destroyed, k)
    else if mutex.owner == 0
    then (done Err.ok, set_mutex k m (record mutex { owner = current; lock_count = 1 }))
    else if mutex.owner == current
    then (
      done Err.ok,
      set_mutex k m (record mutex { lock_count = (mutex.lock_count + 1) % 2 ^ 32 }),
    )
    else busy

unfoldable pub mutex_trylock_obj : Kernel → ℕ → Reply × Kernel
unfolding acquire
mutex_trylock_obj k m = acquire k m (done Err.busy, k)

unfoldable pub trt_mutex_trylock : Kernel → ℕ → Reply × Kernel
unfolding mutex_lookup mutex_trylock_obj
trt_mutex_trylock k handle =
    with_object done (λ m k1. mutex_trylock_obj k1 m) (mutex_lookup k handle right_wait)

-- What `mutex_lock_obj` returns when its task runs again, in the state of that time.
unfoldable pub mutex_lock_resume : Kernel → ℕ → Err
mutex_lock_resume k m = elim (result_of k.sched) [
  | WaitResult.destroyed ↦ Err.destroyed
  | _ ↦ if (k.mutexes m).owner == k.sched.current_task then Err.ok else Err.state
]

unfoldable pub mutex_lock_obj : Kernel → ℕ → Reply × Kernel
unfolding acquire trt_wait_q_block_locked mutex_lock_resume
mutex_lock_obj k m = acquire k m (
    with_sched k (
      yielding (λ s. mutex_lock_resume (record k { sched = s }) m)
        (trt_wait_q_block_locked k.sched (waiters m))))

unfoldable pub trt_mutex_lock : Kernel → ℕ → Reply × Kernel
unfolding mutex_lookup mutex_lock_obj
trt_mutex_lock k handle =
    with_object done (λ m k1. mutex_lock_obj k1 m) (mutex_lookup k handle right_wait)

unfoldable pub mutex_lock_timeout_resume : Kernel → ℕ → Err
mutex_lock_timeout_resume k m = elim (result_of k.sched) [
  | WaitResult.destroyed ↦ Err.destroyed
  | WaitResult.object ↦ if (k.mutexes m).owner == k.sched.current_task then Err.ok else Err.timeout
  | _ ↦ Err.timeout
]

unfoldable pub mutex_lock_timeout_obj : Kernel → ℕ → ℕ → Reply × Kernel
unfolding acquire mutex_lock_obj trt_wait_q_block_timeout_locked mutex_lock_timeout_resume
mutex_lock_timeout_obj k m us =
    if us == forever_us
    then mutex_lock_obj k m
    else acquire k m (
        with_sched k (
          yielding (λ s. mutex_lock_timeout_resume (record k { sched = s }) m)
            (trt_wait_q_block_timeout_locked k.sched (waiters m) us)))

unfoldable pub trt_mutex_lock_timeout : Kernel → ℕ → ℕ → Reply × Kernel
unfolding mutex_lookup mutex_lock_timeout_obj
trt_mutex_lock_timeout k handle us =
    with_object done (λ m k1. mutex_lock_timeout_obj k1 m us) (mutex_lookup k handle right_wait)

-- The last unlock hands the mutex to the first waiter.
unfoldable pub hand_over : Kernel → ℕ → Kernel
unfolding trt_wait_q_wake_one_locked
hand_over k m =
    let (next, sched) = trt_wait_q_wake_one_locked k.sched (waiters m) in
    record (set_mutex k m
      (record (k.mutexes m) { owner = next; lock_count = if next == 0 then 0 else 1 })) {
        sched = sched;
      }

unfoldable pub mutex_unlock_obj : Kernel → ℕ → Err × Kernel
unfolding hand_over
mutex_unlock_obj k m =
    let mutex = k.mutexes m in
    let current = k.sched.current_task in
    if (m == 0) || (current == 0)
    then (Err.inval, k)
    else if mutex.destroyed
    then (Err.destroyed, k)
    else if not (mutex.owner == current) || (mutex.lock_count == 0)
    then (Err.perm, k)
    else if not (mutex.lock_count - 1 == 0)
    then (Err.ok, set_mutex k m (record mutex { lock_count = mutex.lock_count - 1 }))
    else (Err.ok, hand_over k m)

unfoldable pub trt_mutex_unlock : Kernel → ℕ → Err × Kernel
unfolding mutex_lookup mutex_unlock_obj
trt_mutex_unlock k handle =
    with_object (λ e. e) (λ m k1. mutex_unlock_obj k1 m) (mutex_lookup k handle right_post)
