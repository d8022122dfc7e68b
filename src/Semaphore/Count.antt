-- ===== src/Semaphore/Count.antt =====
-- The count of a semaphore, and that tasks wait only where it is 0.
use tiny_rt.Base.{
  ℕ, ◌+◌, ◌-◌, ◌%◌, ◌^◌, ◌≤◌, ◌<◌, ◌≡◌, ◌≢◌, true, false, ◌==◌, [], arith, inl, inr, Bool-cases,
  eq-nil_of_empty, is_empty, ne→==-false, ==→eq,
}
use tiny_rt.Task.{WaitResult}
use tiny_rt.Sched.State.{Sched, wait_head}
use tiny_rt.Sched.Inv.{Inv}
use tiny_rt.WaitQueue.{trt_wait_q_empty, trt_wait_q_wake_one_locked}
use tiny_rt.WaitQueue.Inv.{wake_one_result-Inv}
use tiny_rt.Kernel.{Kernel, waiters}
use tiny_rt.Semaphore.{set_sem, sem_post_obj, sem_trywait_obj}

-- A live semaphore counts up to its maximum, an `int` that is not negative, and has a count of 0
-- whenever a task waits for it.
pub record IsCounted (k : Kernel) (s : ℕ) : Type 0 where
  pub sound : Inv k.sched
  pub real : s ≢ 0
  pub limit : (k.sems s).destroyed ≡ false → (k.sems s).max < 2 ^ 31
  pub bounded : (k.sems s).destroyed ≡ false → (k.sems s).cnt ≤ (k.sems s).max
  pub idle :
      (k.sems s).destroyed ≡ false → (k.sems s).cnt ≢ 0 → k.sched.lists (wait_head (waiters s)) ≡ []

-- A new count, without a change of the scheduler's.
pub recount :
    {k : Kernel} (s n : ℕ)
    → IsCounted k s
    → (k.sems s).destroyed ≡ false
    → n ≤ (k.sems s).max
    → (n ≢ 0 → k.sched.lists (wait_head (waiters s)) ≡ [])
    → IsCounted (set_sem k s (record (k.sems s) { cnt = n; destroyed = false })) s
recount {k} s n v was_live le e = record {
  sound = v.sound;
  real = v.real;
  limit = λ live. ground (arith, v.limit was_live);
  bounded = λ live. ground arith;
  idle = λ live nz. ground (arith, e);
}

-- A change of the scheduler's, where the count is 0.
pub reschedule :
    {k : Kernel} (s : ℕ) (sched : Sched)
    → IsCounted k s
    → ((k.sems s).destroyed ≡ false → (k.sems s).cnt ≡ 0)
    → Inv sched
    → IsCounted (record k { sched = sched }) s
reschedule {k} s sched v z w = record {
  sound = w;
  real = v.real;
  limit = v.limit;
  bounded = v.bounded;
  idle = λ live nz. absurd (nz (z live));
}

pub trywait-IsCounted : {k : Kernel} (s : ℕ) → IsCounted k s → IsCounted (sem_trywait_obj k s).1 s
unfolding sem_trywait_obj
trywait-IsCounted {k} s v =
    let nz = ne→==-false s 0 v.real in
    elim (Bool-cases (k.sems s).destroyed) [
      | inl dead ↦ rw (nz, dead) v
      | inr live ↦ elim (Bool-cases ((k.sems s).cnt == 0)) [
        | inl none_left ↦ rw (nz, live, none_left) v
        | inr some_left ↦
            rw (nz, live, some_left)
              (recount s (((k.sems s).cnt + 2 ^ 32 - 1) % 2 ^ 32) v live
                (ground (arith, v.limit live, v.bounded live)) (λ more. v.idle live (ground arith)))
      ]
    ]

pub nobody_waits :
    (k : Sched) (wq : ℕ) → trt_wait_q_empty k wq ≡ true → is_empty (k.lists (wait_head wq)) ≡ true
unfolding trt_wait_q_empty
nobody_waits k wq e = e

-- A post that finds a waiter leaves the count at 0.
pub zero_of_waiter :
    {k : Kernel} (s : ℕ)
    → IsCounted k s
    → trt_wait_q_empty k.sched (waiters s) ≡ false
    → (k.sems s).destroyed ≡ false
    → (k.sems s).cnt ≡ 0
unfolding trt_wait_q_empty
zero_of_waiter {k} s v busy live = elim (Bool-cases ((k.sems s).cnt == 0)) [
  | inl z ↦ ==→eq (k.sems s).cnt 0 z
  | inr nz ↦ absurd (ground (arith, v.idle live, busy, nz))
]

pub post-IsCounted : {k : Kernel} (s : ℕ) → IsCounted k s → IsCounted (sem_post_obj k s).1 s
unfolding sem_post_obj trt_wait_q_wake_one_locked
post-IsCounted {k} s v =
    let nz = ne→==-false s 0 v.real in
    elim (Bool-cases (k.sems s).destroyed) [
      | inl dead ↦ rw (nz, dead) v
      | inr live ↦ elim (Bool-cases (trt_wait_q_empty k.sched (waiters s))) [
        | inr wanted ↦
            rw (nz, live, wanted)
              (reschedule s _ v (zero_of_waiter s v wanted)
                (wake_one_result-Inv (waiters s) WaitResult.object v.sound))
        | inl nobody ↦ elim (Bool-cases ((k.sems s).cnt == (k.sems s).max)) [
          | inl full ↦ rw (nz, live, nobody, full) v
          | inr room ↦
              rw (nz, live, nobody, room)
                (recount s (((k.sems s).cnt + 1) % 2 ^ 32) v live
                  (ground (arith, v.limit live, v.bounded live))
                  (λ more. eq-nil_of_empty _ (nobody_waits k.sched (waiters s) nobody)))
        ]
      ]
    ]
