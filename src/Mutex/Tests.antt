-- ===== src/Mutex/Tests.antt =====
-- Runs of mutex.c on the kernel of Semaphore/Tests.antt: task 1 owns the mutex at 4096, and task 3
-- waits for it.
use tiny_rt.Base.{ℕ, ◌-◌, ◌<◌, ◌≡◌, ◌≢◌, refl, false, [], ◌∷◌, List, arith, ◌⊎◌}
use tiny_rt.Error.{Err}
use tiny_rt.Sched.{sched_ready_enqueue}
use tiny_rt.Sched.State.{wait_head}
use tiny_rt.Sched.Tests.{sample, sample-Inv}
use tiny_rt.Kernel.{waiters}
use tiny_rt.Semaphore.Tests.{kernel}
use tiny_rt.Kernel.{Kernel}
use tiny_rt.WaitQueue.{waits}
use tiny_rt.Sched.State.{Sched}
use tiny_rt.Mutex.Lock.{Waits, lock-Waits}
use tiny_rt.Mutex.Unlock.{resume-unlock}
use tiny_rt.Mutex.{
  mutex_lock_obj, mutex_lock_resume, mutex_lock_timeout_resume, set_mutex, mutex_trylock_obj,
  mutex_unlock_obj,
}
use tiny_rt.Mutex.Owner.{IsOwned}
use tiny_rt.Mutex.Unlock.{Passes, unlock_lem}
use tiny_rt.Mutex.Reach.{here, next, tries, unlocks, Reach-IsOwned}

kernel-IsOwned : IsOwned kernel 4096
kernel-IsOwned = record {
  sound = sample-Inv;
  real = ground arith;
  small = ground arith;
  held = λ o. ground arith;
  unheld = λ z. absurd (ground arith);
  idle = λ live z. absurd (ground arith);
}

Reach-IsOwned_example : IsOwned (mutex_unlock_obj (mutex_trylock_obj kernel 4096).1 4096).1 4096
Reach-IsOwned_example =
    Reach-IsOwned 4096 kernel-IsOwned (next (tries (ground arith)) (next unlocks here))

unlock_lem_example :
    (((kernel.mutexes 4096).owner ≢ kernel.sched.current_task)
      × (mutex_unlock_obj kernel 4096 ≡ (Err.perm, kernel)))
    ⊎ (((kernel.mutexes 4096).owner ≡ kernel.sched.current_task)
        × (1 < (kernel.mutexes 4096).lock_count)
        × (mutex_unlock_obj kernel 4096 ≡ (
          Err.ok,
          set_mutex kernel 4096 (record { owner = 1; lock_count = 1 - 1; destroyed = false }),
        )))
    ⊎ (((kernel.mutexes 4096).owner ≡ kernel.sched.current_task)
        × ((kernel.mutexes 4096).lock_count ≡ 1)
        × (kernel.sched.lists (wait_head (waiters 4096)) ≡ [])
        × (mutex_unlock_obj kernel 4096 ≡ (
          Err.ok,
          set_mutex kernel 4096 (record { owner = 0; lock_count = 0; destroyed = false }),
        )))
    ⊎ (((kernel.mutexes 4096).owner ≡ kernel.sched.current_task)
        × ((kernel.mutexes 4096).lock_count ≡ 1)
        × (t : ℕ) × (ts : List ℕ) × (kernel.sched.lists (wait_head (waiters 4096)) ≡ t ∷ ts)
        × ((mutex_unlock_obj kernel 4096).0 ≡ Err.ok)
        × Passes kernel 4096 t ts (mutex_unlock_obj kernel 4096).1)
unfolding sample sched_ready_enqueue
unlock_lem_example = unlock_lem kernel 4096 kernel-IsOwned (ground arith) refl

resume-unlock_example :
    let s : Sched = record (mutex_unlock_obj kernel 4096).1.sched { current_task = 3 } in
    let k' : Kernel = record (mutex_unlock_obj kernel 4096).1 { sched = s } in
    (mutex_lock_resume k' 4096 ≡ Err.ok)
    × (mutex_lock_timeout_resume k' 4096 ≡ Err.ok)
    × ((k'.mutexes 4096).owner ≡ s.current_task)
    × ((k'.mutexes 4096).lock_count ≡ 1)
unfolding sample sched_ready_enqueue
resume-unlock_example =
    resume-unlock kernel 4096 3 []
      (record (mutex_unlock_obj kernel 4096).1.sched { current_task = 3 }) kernel-IsOwned
      (ground arith) refl refl refl refl refl refl

-- The mutex belongs to another task.
abbrev lent : Kernel
lent = record kernel { mutexes = λ m. record { owner = 2; lock_count = 1; destroyed = false } }

lent-IsOwned : IsOwned lent 4096
lent-IsOwned = record {
  sound = sample-Inv;
  real = ground arith;
  small = ground arith;
  held = λ o. ground arith;
  unheld = λ z. absurd (ground arith);
  idle = λ live z. absurd (ground arith);
}

lock-Waits_example :
    ((mutex_lock_obj lent 4096).0 ≡ waits) × Waits lent 4096 (mutex_lock_obj lent 4096).1
unfolding sample sched_ready_enqueue
lock-Waits_example =
    lock-Waits lent 4096 lent-IsOwned refl (ground arith) (ground arith) refl (ground arith) refl
      (tt, tt)
