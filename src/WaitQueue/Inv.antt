-- ===== src/WaitQueue/Inv.antt =====
-- The wait queues keep the scheduler's invariant, and wake whom they should.
use tiny_rt.Base.{
  ℕ, ◌+◌, ◌%◌, ◌^◌, ◌≤◌, ◌<◌, ◌≡◌, ◌≢◌, refl, Bool, true, false, not, ◌||◌, inl, inr, some, List,
  ◌∷◌, ◌==◌, if◌then◌else◌, arith, Bool-cases,
}
use tiny_rt.Error.{Err}
use tiny_rt.Task.{TaskState, WaitResult}
use tiny_rt.Sched.State.{Sched, wait_head, deleted_head, modify, set_result}
use tiny_rt.Sched.Switch.{sched_is_locked, sched_set_pending}
use tiny_rt.Sched.Inv.{Inv, Inv-of_eq}
use tiny_rt.Sched.Ready.{modify_kept-Inv}
use tiny_rt.Sched.Wake.{wake_one-Inv, wake_one_lem, head-linked}
use tiny_rt.Sched.Block.{block_current-Inv, timeout_insert-Inv}
use tiny_rt.Time.{forever_us, timer_us_to_ticks}
use tiny_rt.WaitQueue.{
  trt_wait_q_block_locked, trt_wait_q_block_ticks_locked, trt_wait_q_block_timeout_locked, timed,
  with_timeout, trt_wait_q_wake_one_result_locked,
}

-- A current task runs.
abbrev pub IsCurrentRunning : Sched → Type 0
IsCurrentRunning k = k.current_task ≢ 0 → (k.tasks k.current_task).state ≡ TaskState.running

pub set_pending-Inv : {k : Sched} → Inv k → Inv (sched_set_pending k)
unfolding sched_set_pending
set_pending-Inv v = Inv-of_eq v refl refl refl refl

-- The end of `trt_wait_q_wake_one_result_locked`.
signal-Inv :
    {k : Sched} (t : ℕ) (b : Bool) (result : WaitResult)
    → Inv k
    → Inv (
        if not (t == 0)
        then modify (if b then sched_set_pending k else k) t (set_result result)
        else (if b then sched_set_pending k else k))
signal-Inv {k} t true result v = elim (Bool-cases (t == 0)) [
  | inl z ↦ rw z (set_pending-Inv v)
  | inr nz ↦ rw nz (modify_kept-Inv t (set_result result) (set_pending-Inv v) refl refl refl refl)
]
signal-Inv {k} t false result v = elim (Bool-cases (t == 0)) [
  | inl z ↦ rw z v
  | inr nz ↦ rw nz (modify_kept-Inv t (set_result result) v refl refl refl refl)
]

pub wake_one_result-Inv :
    {k : Sched} (wq : ℕ) (result : WaitResult)
    → Inv k
    → Inv (trt_wait_q_wake_one_result_locked k wq result).1
unfolding trt_wait_q_wake_one_result_locked
wake_one_result-Inv {k} wq result v = elim (Bool-cases (wq == 0)) [
  | inl z ↦ rw z v
  | inr nz ↦ rw nz (signal-Inv _ _ result (wake_one-Inv (wait_head wq) v (omega arith)))
]

pub block_locked-Inv :
    {k : Sched} (wq : ℕ) → Inv k → IsCurrentRunning k → Inv (trt_wait_q_block_locked k wq).1
unfolding trt_wait_q_block_locked
block_locked-Inv {k} wq v run =
    elim (Bool-cases ((wq == 0) || ((k.current_task == 0) || sched_is_locked k))) [
      | inl bad ↦ rw bad (set_pending-Inv v)
      | inr good ↦
          let nz : k.current_task ≢ 0 = ground arith in
          rw good (
            block_current-Inv (wait_head wq)
              (modify_kept-Inv k.current_task (set_result WaitResult.nothing) v refl refl refl refl)
              nz (ground (arith, run nz)) (omega arith))
    ]

with_timeout-Inv : (ticks : ℕ) (r : Err × Sched) → Inv r.1 → Inv (with_timeout ticks r).1
with_timeout-Inv ticks (Err.ok, k) v =
    timeout_insert-Inv k.current_task (
      modify_kept-Inv k.current_task (timed ((k.tick_count + ticks) % 2 ^ 32)) v refl refl refl
        refl)
with_timeout-Inv ticks (e, k) v = v

pub block_ticks_locked-Inv :
    {k : Sched} (wq ticks : ℕ)
    → Inv k
    → IsCurrentRunning k
    → Inv (trt_wait_q_block_ticks_locked k wq ticks).1
unfolding trt_wait_q_block_ticks_locked
block_ticks_locked-Inv {k} wq ticks v run = elim (Bool-cases (ticks == 0)) [
  | inl z ↦ rw z v
  | inr nz ↦ rw nz (with_timeout-Inv ticks _ (block_locked-Inv wq v run))
]

-- `trt_wait_q_block_timeout_locked` keeps the invariant, on each of its branches, if the current
-- task, where there is one, is running.
pub block_timeout_locked-Inv :
    {k : Sched} (wq us : ℕ)
    → Inv k
    → IsCurrentRunning k
    → Inv (trt_wait_q_block_timeout_locked k wq us).1
unfolding trt_wait_q_block_timeout_locked
block_timeout_locked-Inv {k} wq us v run = elim (Bool-cases (us == forever_us)) [
  | inl z ↦ rw z (block_locked-Inv wq v run)
  | inr nz ↦ rw nz (block_ticks_locked-Inv wq (timer_us_to_ticks us) v run)
]

-- The first waiter is woken with the result given to it, and the others wait on.
pub wake_step :
    (k : Sched) (wq t : ℕ) (ts : List ℕ) (result : WaitResult)
    → Inv k
    → wq ≢ 0
    → k.lists (wait_head wq) ≡ t ∷ ts
    → let (s, k') = trt_wait_q_wake_one_result_locked k wq result in
      (s ≡ t)
      × (t ≢ 0)
      × (k'.lists (wait_head wq) ≡ ts)
      × ((k'.tasks t).state ≡ TaskState.ready)
      × ((k'.tasks t).wait_result ≡ result)
      × ((k.tasks t).priority ≤ 31 → (k'.tasks t).state_list ≡ some (k.tasks t).priority)
      × ((u : ℕ) → u ≢ t → k'.tasks u ≡ k.tasks u)
      × ((g : ℕ) → g ≢ wait_head wq → deleted_head < g → k'.lists g ≡ k.lists g)
unfolding trt_wait_q_wake_one_result_locked sched_set_pending
wake_step k wq t ts result v nz e =
    let (f0, f1, f2, f3, f4, f5, f6) = wake_one_lem k (wait_head wq) t ts v (omega arith) e in
    let (link, tz) = head-linked (wait_head wq) t v.linked e in
    (
      ground (arith, f0),
      tz,
      ground (arith, f1),
      ground (arith, f0, f2),
      ground (arith, f0),
      λ low. ground (arith, f0, f4 low),
      λ u ne. ground (arith, f0, f5 u ne),
      λ g ne low. ground (arith, f6 g ne low),
    )
