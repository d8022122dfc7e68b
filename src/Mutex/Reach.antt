-- ===== src/Mutex/Reach.antt =====
-- Any sequence of calls on a mutex.
use tiny_rt.Base.{ℕ, ◌+◌, ◌^◌, ◌<◌, ◌≡◌, []}
use tiny_rt.Sched.State.{wait_head}
use tiny_rt.Sched.Inv.{Inv}
use tiny_rt.WaitQueue.Inv.{IsCurrentRunning}
use tiny_rt.Kernel.{Kernel, waiters}
use tiny_rt.Mutex.{
  mutex_trylock_obj, mutex_lock_obj, mutex_lock_timeout_obj, mutex_unlock_obj, mutex_destroy_obj,
}
use tiny_rt.Mutex.Owner.{
  IsOwned, trylock-IsOwned, lock-IsOwned, lock_timeout-IsOwned, unlock-IsOwned, destroy-IsOwned,
}

-- A step of the system, seen from one mutex, as in Semaphore/Waits.antt. No task locks it 2^32 - 1
-- times.
pub data Step (m : ℕ) : Kernel → Kernel → Type 0 where
  tries : {k : Kernel} → (k.mutexes m).lock_count + 1 < 2 ^ 32 → Step m k (mutex_trylock_obj k m).1
  locks :
      {k : Kernel}
      → IsCurrentRunning k.sched
      → (k.mutexes m).lock_count + 1 < 2 ^ 32
      → Step m k (mutex_lock_obj k m).1
  locks_within :
      {k : Kernel} (us : ℕ)
      → IsCurrentRunning k.sched
      → (k.mutexes m).lock_count + 1 < 2 ^ 32
      → Step m k (mutex_lock_timeout_obj k m us).1
  unlocks : {k : Kernel} → Step m k (mutex_unlock_obj k m).1
  destroys : {k : Kernel} → Step m k (mutex_destroy_obj k m).1
  elsewhere :
      {k k' : Kernel}
      → k'.mutexes m ≡ k.mutexes m
      → Inv k'.sched
      → (k.sched.lists (wait_head (waiters m)) ≡ [] → k'.sched.lists (wait_head (waiters m)) ≡ [])
      → Step m k k'

pub data Reach (m : ℕ) : Kernel → Kernel → Type 0 where
  here : {k : Kernel} → Reach m k k
  next : {k k1 k2 : Kernel} → Step m k k1 → Reach m k1 k2 → Reach m k k2

Step-IsOwned : (m : ℕ) {k k' : Kernel} → IsOwned k m → Step m k k' → IsOwned k' m
Step-IsOwned m v (tries few) = trylock-IsOwned m v few
Step-IsOwned m v (locks run few) = lock-IsOwned m v run few
Step-IsOwned m v (locks_within us run few) = lock_timeout-IsOwned m us v run few
Step-IsOwned m v unlocks = unlock-IsOwned m v
Step-IsOwned m v destroys = destroy-IsOwned m v
Step-IsOwned m v (elsewhere e w q) = record {
  sound = w;
  real = v.real;
  small = rw e v.small;
  held = λ o. rw e (v.held (λ z. o (rw e z)));
  unheld = λ z. rw e (v.unheld (rw⁻¹ e z));
  idle = λ live z. q (v.idle (rw⁻¹ e live) (rw⁻¹ e z));
}

-- A mutex that satisfies `IsOwned` keeps doing so across any sequence of calls on it, with steps of
-- other tasks and interrupts in between, on these conditions: no lock call is made at a lock count of
-- 2^32 - 1, where the count would wrap, a call that may block is made by a running task, and the steps
-- in between leave the mutex alone, let nobody wait for it where nobody did, and keep the scheduler's
-- invariant. `IsOwned` says that the lock count is 0 exactly while the mutex has no owner, that no task
-- waits for a live mutex without an owner, and that the scheduler's invariant holds.
pub Reach-IsOwned : (m : ℕ) {k k' : Kernel} → IsOwned k m → Reach m k k' → IsOwned k' m
Reach-IsOwned m v here = v
Reach-IsOwned m v (next step rest) = Reach-IsOwned m (Step-IsOwned m v step) rest
