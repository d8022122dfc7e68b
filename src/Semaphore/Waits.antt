-- ===== src/Semaphore/Waits.antt =====
-- The other calls on a semaphore and its count, and any sequence of them.
use tiny_rt.Base.{
  ℕ, ◌+◌, ◌-◌, ◌%◌, ◌^◌, ◌≡◌, refl, not, ◌==◌, [], arith, inl, inr, Bool-cases, eq-nil_of_empty,
  ne→==-false, if_either,
}
use tiny_rt.Error.{Err}
use tiny_rt.Task.{WaitResult}
use tiny_rt.Sched.State.{Sched, wait_head}
use tiny_rt.Sched.Switch.{sched_is_locked, sched_set_pending, sched_request_from_isr}
use tiny_rt.Sched.Inv.{Inv}
use tiny_rt.Time.{forever_us}
use tiny_rt.WaitQueue.{
  Reply, trt_wait_q_empty, trt_wait_q_block_locked, trt_wait_q_block_timeout_locked,
  trt_wait_q_block_resume, trt_wait_q_block_ticks_resume, trt_wait_q_wake_one_locked,
  trt_wait_q_wake_one_from_isr,
}
use tiny_rt.WaitQueue.Inv.{
  IsCurrentRunning, wake_one_result-Inv, block_locked-Inv, block_timeout_locked-Inv,
  set_pending-Inv,
}
use tiny_rt.WaitQueue.Yield.{yielding-Inv}
use tiny_rt.WaitQueue.WakeAll.{wake_all-WakesAll}
use tiny_rt.Kernel.{Kernel, waiters, int_ltb}
use tiny_rt.Semaphore.{
  sem_post_obj, sem_post_from_isr_obj, post_in_isr, sem_take, sem_wait_obj, sem_wait_timeout_obj,
  sem_trywait_obj, sem_destroy_obj,
}
use tiny_rt.Semaphore.Count.{
  IsCounted, recount, reschedule, zero_of_waiter, nobody_waits, trywait-IsCounted, post-IsCounted,
}

wake_from_isr-Inv : {k : Sched} (wq : ℕ) → Inv k → Inv (trt_wait_q_wake_one_from_isr k wq).1
unfolding trt_wait_q_wake_one_from_isr trt_wait_q_wake_one_locked sched_request_from_isr
wake_from_isr-Inv {k} wq v =
    let w = wake_one_result-Inv wq WaitResult.object v in
    if_either (λ (r : ℕ × Sched). Inv r.1) (not k.in_isr) v
      (if_either Inv (not ((trt_wait_q_wake_one_locked k wq).0 == 0)) (set_pending-Inv w) w)

pending_lists : (k : Sched) → (sched_set_pending k).lists ≡ k.lists
unfolding sched_set_pending
pending_lists k = refl

with_sched-IsCounted :
    {k : Kernel} (s : ℕ) (sched : Sched)
    → IsCounted k s
    → Inv sched
    → sched.lists ≡ k.sched.lists
    → IsCounted (record k { sched = sched }) s
with_sched-IsCounted {k} s sched v w e = record {
  sound = w;
  real = v.real;
  limit = v.limit;
  bounded = v.bounded;
  idle = λ live nz. rw e (v.idle live nz);
}

post_in_isr-IsCounted : {k : Kernel} (s : ℕ) → IsCounted k s → IsCounted (post_in_isr k s).1 s
unfolding post_in_isr sched_request_from_isr
post_in_isr-IsCounted {k} s v =
    let nz = ne→==-false s 0 v.real in
    elim (Bool-cases (k.sems s).destroyed) [
      | inl dead ↦ rw (nz, dead) v
      | inr live ↦ elim (Bool-cases (trt_wait_q_empty k.sched (waiters s))) [
        | inr wanted ↦
            rw (nz, live, wanted)
              (reschedule s _ v (zero_of_waiter s v wanted) (wake_from_isr-Inv (waiters s) v.sound))
        | inl nobody ↦ elim (Bool-cases ((k.sems s).cnt == (k.sems s).max)) [
          | inl full ↦ rw (nz, live, nobody, full) v
          | inr room ↦
              let w =
                recount s (((k.sems s).cnt + 1) % 2 ^ 32) v live
                  (ground (arith, v.limit live, v.bounded live))
                  (λ more. eq-nil_of_empty _ (nobody_waits k.sched (waiters s) nobody)) in
              rw (nz, live, nobody, room)
                (with_sched-IsCounted s (sched_set_pending k.sched) w (set_pending-Inv v.sound)
                  (pending_lists k.sched))
        ]
      ]
    ]

pub post_from_isr-IsCounted :
    {k : Kernel} (s : ℕ) → IsCounted k s → IsCounted (sem_post_from_isr_obj k s).1 s
unfolding sem_post_from_isr_obj
post_from_isr-IsCounted {k} s v =
    if_either (λ (r : Err × Kernel). IsCounted r.1 s) (not k.sched.in_isr) v
      (post_in_isr-IsCounted s v)

take-IsCounted :
    {k : Kernel} (s : ℕ) (block : Sched → ℕ → Err × Sched) (resume : Sched → Err)
    → IsCounted k s
    → Inv (block k.sched (waiters s)).1
    → IsCounted (sem_take block resume k s).1 s
unfolding sem_take
take-IsCounted {k} s block resume v w =
    let nz = ne→==-false s 0 v.real in
    elim (Bool-cases (k.sems s).destroyed) [
      | inl dead ↦ rw (nz, dead) v
      | inr live ↦ elim (Bool-cases (int_ltb 0 (k.sems s).cnt)) [
        | inl some_left ↦
            rw (nz, live, some_left)
              (recount s ((k.sems s).cnt - 1) v live (ground (arith, v.bounded live))
                (λ more. v.idle live (ground arith)))
        | inr none_left ↦ elim (Bool-cases (sched_is_locked k.sched)) [
          | inl locked ↦
              rw (nz, live, none_left, locked)
                (reschedule s _ v (λ l. ground (arith, v.limit live, v.bounded live, none_left))
                  (set_pending-Inv v.sound))
          | inr unlocked ↦
              rw (nz, live, none_left, unlocked)
                (reschedule s _ v (λ l. ground (arith, v.limit live, v.bounded live, none_left))
                  (yielding-Inv resume (block k.sched (waiters s)) w))
        ]
      ]
    ]

pub wait-IsCounted :
    {k : Kernel} (s : ℕ)
    → IsCounted k s
    → IsCurrentRunning k.sched
    → IsCounted (sem_wait_obj k s).1 s
unfolding sem_wait_obj
wait-IsCounted {k} s v run =
    take-IsCounted s trt_wait_q_block_locked trt_wait_q_block_resume v
      (block_locked-Inv (waiters s) v.sound run)

pub wait_timeout-IsCounted :
    {k : Kernel} (s us : ℕ)
    → IsCounted k s
    → IsCurrentRunning k.sched
    → IsCounted (sem_wait_timeout_obj k s us).1 s
unfolding sem_wait_timeout_obj
wait_timeout-IsCounted {k} s us v run =
    if_either (λ (r : Reply × Kernel). IsCounted r.1 s) (us == forever_us) (wait-IsCounted s v run)
      (take-IsCounted s (λ sched wq. trt_wait_q_block_timeout_locked sched wq us)
        trt_wait_q_block_ticks_resume v (block_timeout_locked-Inv (waiters s) us v.sound run))

pub destroy-IsCounted : {k : Kernel} (s : ℕ) → IsCounted k s → IsCounted (sem_destroy_obj k s).1 s
unfolding sem_destroy_obj
destroy-IsCounted {k} s v =
    let nz = ne→==-false s 0 v.real in
    elim (Bool-cases (k.sems s).destroyed) [
      | inl dead ↦ rw (nz, dead) v
      | inr live ↦
          rw (nz, live)
            (record {
              sound =
                  (wake_all-WakesAll k.sched (waiters s) WaitResult.destroyed v.sound
                    (omega arith)).1.inv;
              real = v.real;
              limit = λ l. absurd (ground arith);
              bounded = λ l. absurd (ground arith);
              idle = λ l. absurd (ground arith);
            })
    ]

-- A step of the system, seen from one semaphore: a call on it, where a call that may block comes
-- from a running task, or anything else that keeps the scheduler's invariant and puts no task into
-- the semaphore's queue.
pub data Step (s : ℕ) : Kernel → Kernel → Type 0 where
  posts : {k : Kernel} → Step s k (sem_post_obj k s).1
  posts_from_isr : {k : Kernel} → Step s k (sem_post_from_isr_obj k s).1
  tries : {k : Kernel} → Step s k (sem_trywait_obj k s).1
  takes : {k : Kernel} → IsCurrentRunning k.sched → Step s k (sem_wait_obj k s).1
  takes_within :
      {k : Kernel} (us : ℕ) → IsCurrentRunning k.sched → Step s k (sem_wait_timeout_obj k s us).1
  destroys : {k : Kernel} → Step s k (sem_destroy_obj k s).1
  elsewhere :
      {k k' : Kernel}
      → k'.sems s ≡ k.sems s
      → Inv k'.sched
      → (k.sched.lists (wait_head (waiters s)) ≡ [] → k'.sched.lists (wait_head (waiters s)) ≡ [])
      → Step s k k'

pub data Reach (s : ℕ) : Kernel → Kernel → Type 0 where
  here : {k : Kernel} → Reach s k k
  next : {k k1 k2 : Kernel} → Step s k k1 → Reach s k1 k2 → Reach s k k2

Step-IsCounted : (s : ℕ) {k k' : Kernel} → IsCounted k s → Step s k k' → IsCounted k' s
Step-IsCounted s v posts = post-IsCounted s v
Step-IsCounted s v posts_from_isr = post_from_isr-IsCounted s v
Step-IsCounted s v tries = trywait-IsCounted s v
Step-IsCounted s v (takes run) = wait-IsCounted s v run
Step-IsCounted s v (takes_within us run) = wait_timeout-IsCounted s us v run
Step-IsCounted s v destroys = destroy-IsCounted s v
Step-IsCounted s v (elsewhere e w q) = record {
  sound = w;
  real = v.real;
  limit = λ live. rw e (v.limit (rw⁻¹ e live));
  bounded = λ live. rw e (v.bounded (rw⁻¹ e live));
  idle = λ live nz. q (v.idle (rw⁻¹ e live) (λ z. nz (rw e z)));
}

-- A semaphore that satisfies `IsCounted` keeps doing so across any sequence of calls on it, with steps
-- of other tasks and interrupts in between, on these conditions: a call that may block is made by a
-- running task, and the steps in between leave the semaphore alone, let nobody wait for it where nobody
-- did, and keep the scheduler's invariant. `IsCounted` says that while the semaphore is not destroyed
-- its count is at most its maximum and no task waits in its queue while its count is not 0, and that
-- the scheduler's invariant holds.
pub Reach-IsCounted : (s : ℕ) {k k' : Kernel} → IsCounted k s → Reach s k k' → IsCounted k' s
Reach-IsCounted s v here = v
Reach-IsCounted s v (next step rest) = Reach-IsCounted s (Step-IsCounted s v step) rest
