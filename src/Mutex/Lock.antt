-- ===== src/Mutex/Lock.antt =====
-- What the lock calls do.
use tiny_rt.Base.{
  ℕ, ◌+◌, ◌%◌, ◌^◌, ◌<◌, ◌≡◌, ◌≢◌, refl, false, true, ◌||◌, ◌==◌, arith, inl, inr, ◌⊎◌, Bool-cases,
  ap, ◌∙◌, ==→eq, ==-false→ne, subst, sym,
}
use tiny_rt.Error.{Err}
use tiny_rt.Task.{TaskState}
use tiny_rt.Sched.State.{Sched, wait_head}
use tiny_rt.Sched.Order.{IsRanked, Blocks}
use tiny_rt.WaitQueue.{Reply, done, waits, yielding, trt_wait_q_block_locked}
use tiny_rt.WaitQueue.Yield.{told_nothing, block-Blocks}
use tiny_rt.Kernel.{Kernel, waiters, with_sched}
use tiny_rt.Mutex.{set_mutex, acquire, mutex_trylock_obj, mutex_lock_obj, mutex_lock_resume}
use tiny_rt.Mutex.Owner.{IsOwned}

-- A mutex that nobody owns, that the caller owns, or that another task owns.
acquire_free :
    (k : Kernel) (m : ℕ) (busy : Reply × Kernel)
    → m ≢ 0
    → k.sched.current_task ≢ 0
    → (k.mutexes m).destroyed ≡ false
    → (k.mutexes m).owner ≡ 0
    → acquire k m busy ≡ (
      done Err.ok,
      set_mutex k m (record (k.mutexes m) { owner = k.sched.current_task; lock_count = 1 }),
    )
unfolding acquire
acquire_free k m busy nz cur live free =
    let a : ((m == 0) || (k.sched.current_task == 0)) ≡ false = ground arith in
    let b : ((k.mutexes m).owner == 0) ≡ true = ground arith in rw (a, live, b) refl

acquire_own :
    (k : Kernel) (m : ℕ) (busy : Reply × Kernel)
    → m ≢ 0
    → k.sched.current_task ≢ 0
    → (k.mutexes m).destroyed ≡ false
    → (k.mutexes m).owner ≡ k.sched.current_task
    → acquire k m busy ≡ (
      done Err.ok,
      set_mutex k m (record (k.mutexes m) { lock_count = ((k.mutexes m).lock_count + 1) % 2 ^ 32 }),
    )
unfolding acquire
acquire_own k m busy nz cur live own =
    let a : ((m == 0) || (k.sched.current_task == 0)) ≡ false = ground arith in
    let b : ((k.mutexes m).owner == 0) ≡ false = ground arith in
    let c : ((k.mutexes m).owner == k.sched.current_task) ≡ true = ground arith in
    rw (a, live, b, c) refl

acquire_busy :
    (k : Kernel) (m : ℕ) (busy : Reply × Kernel)
    → m ≢ 0
    → k.sched.current_task ≢ 0
    → (k.mutexes m).destroyed ≡ false
    → (k.mutexes m).owner ≢ 0
    → (k.mutexes m).owner ≢ k.sched.current_task
    → acquire k m busy ≡ busy
unfolding acquire
acquire_busy k m busy nz cur live taken other =
    let a : ((m == 0) || (k.sched.current_task == 0)) ≡ false = ground arith in
    let b : ((k.mutexes m).owner == 0) ≡ false = ground arith in
    let c : ((k.mutexes m).owner == k.sched.current_task) ≡ false = ground arith in
    rw (a, live, b, c) refl

-- On a live mutex that satisfies `IsOwned` and is locked fewer than 2^32 - 1 times, both the lock and
-- the attempt of a task answer ERR_OK and make it the owner with a count of 1, if there is none, or
-- count one lock more, if it is the owner; nothing else changes. If another task is the owner, the
-- attempt answers ERR_BUSY and changes nothing.
pub lock_lem :
    (k : Kernel) (m : ℕ)
    → IsOwned k m
    → k.sched.current_task ≢ 0
    → (k.mutexes m).destroyed ≡ false
    → (k.mutexes m).lock_count + 1 < 2 ^ 32
    → (((k.mutexes m).owner ≡ 0)
        × (let mine =
              set_mutex k m
                (record (k.mutexes m) { owner = k.sched.current_task; lock_count = 1 }) in
            (mutex_lock_obj k m ≡ (done Err.ok, mine))
            × (mutex_trylock_obj k m ≡ (done Err.ok, mine))))
      ⊎ (((k.mutexes m).owner ≡ k.sched.current_task)
          × (let more =
                set_mutex k m
                  (record (k.mutexes m) { lock_count = (k.mutexes m).lock_count + 1 }) in
              (mutex_lock_obj k m ≡ (done Err.ok, more))
              × (mutex_trylock_obj k m ≡ (done Err.ok, more))))
      ⊎ (((k.mutexes m).owner ≢ 0)
          × ((k.mutexes m).owner ≢ k.sched.current_task)
          × (mutex_trylock_obj k m ≡ (done Err.busy, k)))
unfolding mutex_lock_obj mutex_trylock_obj
lock_lem k m v cur live few = elim (Bool-cases ((k.mutexes m).owner == 0)) [
  | inl z ↦
      let free = ==→eq (k.mutexes m).owner 0 z in
      inl (
        free,
        (
          acquire_free k m _ v.real cur live free,
          acquire_free k m (done Err.busy, k) v.real cur live free,
        ),
      )
  | inr n ↦ elim (Bool-cases ((k.mutexes m).owner == k.sched.current_task)) [
    | inl mine ↦
        let own = ==→eq (k.mutexes m).owner k.sched.current_task mine in
        let small : ((k.mutexes m).lock_count + 1) % 2 ^ 32 ≡ (k.mutexes m).lock_count + 1 =
          omega arith in
        let counted =
          ap (λ c. (done Err.ok, set_mutex k m (record (k.mutexes m) { lock_count = c }))) small in
        inr (
          inl (
            own,
            (
              acquire_own k m _ v.real cur live own ∙ counted,
              acquire_own k m (done Err.busy, k) v.real cur live own ∙ counted,
            ),
          ))
    | inr foreign ↦
        let taken = ==-false→ne (k.mutexes m).owner 0 n in
        let other = ==-false→ne (k.mutexes m).owner k.sched.current_task foreign in
        inr (inr (taken, other, acquire_busy k m (done Err.busy, k) v.real cur live taken other))
  ]
]

-- The caller of a lock has blocked in the queue of the mutex.
pub record Waits (k : Kernel) (m : ℕ) (k' : Kernel) : Type 0 where
  pub blocks : Blocks (told_nothing k.sched) (wait_head (waiters m)) k'.sched
  pub counts : k'.mutexes ≡ k.mutexes

-- A lock by the running task on a live mutex that another task owns, while the scheduler is not
-- locked and the queue is ordered, traps with the task blocked in the mutex's queue, behind every
-- waiter of its priority or a higher one; the queue stays ordered, and neither the mutex nor another
-- task changes. The mutex satisfies `IsOwned` before.
pub lock-Waits :
    (k : Kernel) (m : ℕ)
    → IsOwned k m
    → (k.mutexes m).destroyed ≡ false
    → (k.mutexes m).owner ≢ 0
    → (k.mutexes m).owner ≢ k.sched.current_task
    → k.sched.lock_count ≡ 0
    → k.sched.current_task ≢ 0
    → (k.sched.tasks k.sched.current_task).state ≡ TaskState.running
    → IsRanked k.sched.tasks (k.sched.lists (wait_head (waiters m)))
    → ((mutex_lock_obj k m).0 ≡ waits) × Waits k m (mutex_lock_obj k m).1
unfolding mutex_lock_obj
lock-Waits k m v live taken other unlocked cur run r =
    let resume = λ (s : Sched). mutex_lock_resume (record k { sched = s }) m in
    let (trapped, b) =
      block-Blocks k.sched (waiters m) resume v.sound (omega arith) cur unlocked run r in
    subst (λ x. (x.0 ≡ waits) × Waits k m x.1)
      (sym (
        acquire_busy k m
          (with_sched k (yielding resume (trt_wait_q_block_locked k.sched (waiters m)))) v.real cur
          live taken other))
      (trapped, record { blocks = b; counts = refl })
