-- ===== src/Mutex/Unlock.antt =====
-- What an unlock does.
use tiny_rt.Base.{
  ℕ, ◌-◌, ◌<◌, ◌≡◌, ◌≢◌, false, ◌==◌, [], ◌∷◌, List, arith, inl, inr, ◌⊎◌, Bool-cases, ==→eq, ap,
  ◌∙◌, subst, sym, is_empty, eq-nil_of_empty, cons_of_not-empty,
}
use tiny_rt.Error.{Err}
use tiny_rt.Task.{WaitResult}
use tiny_rt.Sched.State.{Sched, wait_head}
use tiny_rt.Sched.Inv.{Inv}
use tiny_rt.WaitQueue.{trt_wait_q_wake_one_locked}
use tiny_rt.WaitQueue.Inv.{wake_step}
use tiny_rt.WaitQueue.WakeAll.{IsWoken}
use tiny_rt.Kernel.{Kernel, waiters}
use tiny_rt.Mutex.{
  mutex_lock_resume, mutex_lock_timeout_resume, set_mutex, hand_over, mutex_unlock_obj,
}
use tiny_rt.Mutex.Owner.{IsOwned, hand_over_first, hand_over_nobody, unlock_last}

-- The mutex has passed to its first waiter, who is ready and owns it once.
pub record Passes (k : Kernel) (m t : ℕ) (ts : List ℕ) (k' : Kernel) : Type 0 where
  pub owner : (k'.mutexes m).owner ≡ t
  pub once : (k'.mutexes m).lock_count ≡ 1
  pub woken : IsWoken WaitResult.object (k.sched.tasks t) (k'.sched.tasks t)
  pub left : k'.sched.lists (wait_head (waiters m)) ≡ ts
  pub others : (u : ℕ) → u ≢ t → k'.sched.tasks u ≡ k.sched.tasks u

pub hand_over-Passes :
    {k : Kernel} (m t : ℕ) (ts : List ℕ)
    → Inv k.sched
    → m ≢ 0
    → k.sched.lists (wait_head (waiters m)) ≡ t ∷ ts
    → Passes k m t ts (hand_over k m)
unfolding trt_wait_q_wake_one_locked
hand_over-Passes {k} m t ts v nz q =
    let (_, eq) = hand_over_first k m t ts v nz q in
    let (_, _, left, ready, told, queued, others, _) =
      wake_step k.sched (waiters m) t ts WaitResult.object v (omega arith) q in
    rw eq (record {
      owner = ground arith;
      once = ground arith;
      woken = record { ready = ready; told = told; queued = queued };
      left = left;
      others = others;
    })

unlock_kept :
    (k : Kernel) (m : ℕ)
    → m ≢ 0
    → k.sched.current_task ≢ 0
    → (k.mutexes m).destroyed ≡ false
    → ((k.mutexes m).owner ≢ k.sched.current_task → mutex_unlock_obj k m ≡ (Err.perm, k))
      × ((k.mutexes m).owner ≡ k.sched.current_task
          → 1 < (k.mutexes m).lock_count
          → mutex_unlock_obj k m ≡ (
            Err.ok,
            set_mutex k m (record (k.mutexes m) { lock_count = (k.mutexes m).lock_count - 1 }),
          ))
unfolding mutex_unlock_obj
unlock_kept k m nz cur live = (λ ne. ground (arith, live), λ e more. ground (arith, live))

unlock_once :
    (k : Kernel) (m : ℕ)
    → m ≢ 0
    → k.sched.current_task ≢ 0
    → (k.mutexes m).destroyed ≡ false
    → (k.mutexes m).owner ≡ k.sched.current_task
    → (k.mutexes m).lock_count ≡ 1
    → mutex_unlock_obj k m ≡ (Err.ok, hand_over k m)
unlock_once k m nz cur live own one =
    unlock_last k m (ground arith) live (ground arith) (ground arith)

-- An unlock by a task of a live mutex that satisfies `IsOwned`: it answers ERR_PERM and changes
-- nothing, if the task is not the owner; else it answers ERR_OK, and takes one off a lock count above
-- 1 and changes nothing else, or gives up a mutex that is locked once: without waiters it has no owner
-- and a count of 0, and with waiters the first of them leaves the queue, is ready with the result of
-- the object and owns the mutex with a count of 1, and no other task changes.
pub unlock_lem :
    (k : Kernel) (m : ℕ)
    → IsOwned k m
    → k.sched.current_task ≢ 0
    → (k.mutexes m).destroyed ≡ false
    → (((k.mutexes m).owner ≢ k.sched.current_task) × (mutex_unlock_obj k m ≡ (Err.perm, k)))
      ⊎ (((k.mutexes m).owner ≡ k.sched.current_task)
          × (1 < (k.mutexes m).lock_count)
          × (mutex_unlock_obj k m ≡ (
            Err.ok,
            set_mutex k m (record (k.mutexes m) { lock_count = (k.mutexes m).lock_count - 1 }),
          )))
      ⊎ (((k.mutexes m).owner ≡ k.sched.current_task)
          × ((k.mutexes m).lock_count ≡ 1)
          × (k.sched.lists (wait_head (waiters m)) ≡ [])
          × (mutex_unlock_obj k m
              ≡ (Err.ok, set_mutex k m (record (k.mutexes m) { owner = 0; lock_count = 0 }))))
      ⊎ (((k.mutexes m).owner ≡ k.sched.current_task)
          × ((k.mutexes m).lock_count ≡ 1)
          × (t : ℕ) × (ts : List ℕ) × (k.sched.lists (wait_head (waiters m)) ≡ t ∷ ts)
          × ((mutex_unlock_obj k m).0 ≡ Err.ok)
          × Passes k m t ts (mutex_unlock_obj k m).1)
unlock_lem k m v cur live = elim (Bool-cases ((k.mutexes m).owner == k.sched.current_task)) [
  | inr foreign ↦ inl (ground arith, (unlock_kept k m v.real cur live).0 (ground arith))
  | inl mine ↦
      let own : (k.mutexes m).owner ≡ k.sched.current_task =
        ==→eq (k.mutexes m).owner k.sched.current_task mine in
      let some_locks : (k.mutexes m).lock_count ≢ 0 = v.held (λ z. cur (sym own ∙ z)) in
      elim (Bool-cases ((k.mutexes m).lock_count == 1)) [
        | inr many ↦
            let more : 1 < (k.mutexes m).lock_count = ground arith in
            inr (inl (own, more, (unlock_kept k m v.real cur live).1 own more))
        | inl once ↦
            let one = ==→eq (k.mutexes m).lock_count 1 once in
            let last = unlock_once k m v.real cur live own one in
            elim (Bool-cases (is_empty (k.sched.lists (wait_head (waiters m))))) [
              | inl nobody ↦
                  let q = eq-nil_of_empty _ nobody in
                  inr
                    (inr (inl (own, one, q, last ∙ ap (λ u. (Err.ok, u)) (hand_over_nobody k m q))))
              | inr busy ↦
                  let (t, ts, q) = cons_of_not-empty _ busy in
                  inr (
                    inr (
                      inr (
                        own,
                        one,
                        t,
                        ts,
                        q,
                        ap (λ r. r.0) last,
                        subst (λ r. Passes k m t ts r.1) (sym last)
                            (hand_over-Passes m t ts v.sound v.real q),
                      )))
            ]
      ]
]

resumes :
    (k' k : Kernel) (m t : ℕ) (ts : List ℕ) (s : Sched)
    → Passes k m t ts k'
    → s.current_task ≡ t
    → (s.tasks t).wait_result ≡ (k'.sched.tasks t).wait_result
    → (mutex_lock_resume (record k' { sched = s }) m ≡ Err.ok)
      × (mutex_lock_timeout_resume (record k' { sched = s }) m ≡ Err.ok)
unfolding mutex_lock_resume mutex_lock_timeout_resume
resumes k' k m t ts s p cur told = (
  ground (arith, p.owner, p.woken.told, cur, told),
  ground (arith, p.owner, p.woken.told, cur, told),
)

-- If the owner of a live mutex that satisfies `IsOwned` and is locked once unlocks it, and task `t` is
-- the first waiter, then `t` gets it: when `t` runs again, both kinds of lock call answer ERR_OK and it
-- owns the mutex, with a lock count of 1, whatever the scheduler has done in between, as long as
-- neither the result of its wait nor the mutex has changed.
pub resume-unlock :
    (k : Kernel) (m t : ℕ) (ts : List ℕ) (s : Sched)
    → IsOwned k m
    → k.sched.current_task ≢ 0
    → (k.mutexes m).destroyed ≡ false
    → (k.mutexes m).owner ≡ k.sched.current_task
    → (k.mutexes m).lock_count ≡ 1
    → k.sched.lists (wait_head (waiters m)) ≡ t ∷ ts
    → s.current_task ≡ t
    → (s.tasks t).wait_result ≡ ((mutex_unlock_obj k m).1.sched.tasks t).wait_result
    → let k' = record (mutex_unlock_obj k m).1 { sched = s } in
      (mutex_lock_resume k' m ≡ Err.ok)
      × (mutex_lock_timeout_resume k' m ≡ Err.ok)
      × ((k'.mutexes m).owner ≡ s.current_task)
      × ((k'.mutexes m).lock_count ≡ 1)
resume-unlock k m t ts s v nz live own one q cur told =
    let passed = unlock_once k m v.real nz live own one in
    let p : Passes k m t ts (mutex_unlock_obj k m).1 =
      subst (λ r. Passes k m t ts r.1) (sym passed) (hand_over-Passes m t ts v.sound v.real q) in
    let (a, b) = resumes (mutex_unlock_obj k m).1 k m t ts s p cur told in
    (a, b, p.owner ∙ sym cur, p.once)
