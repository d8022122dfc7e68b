-- ===== src/MsgQueue/Loop.antt =====
-- The loops of the calls of msg_queue.c that may block: a round never comes back for another one.
use tiny_rt.Base.{
  ℕ, suc, ◌+◌, ◌%◌, ◌^◌, ◌≡◌, ◌≢◌, refl, Bool, not, ◌||◌, ap, ◌∙◌, inl, inr, some, ◌==◌, arith,
  Bool-cases, if_either,
}
use tiny_rt.Error.{Err}
use tiny_rt.Task.{TaskState}
use tiny_rt.Sched.{sched_block_current, sched_timeout_insert, sched_ready_remove}
use tiny_rt.Sched.State.{Sched, wait_head, modify}
use tiny_rt.Sched.Switch.{sched_is_locked}
use tiny_rt.Time.{forever_us, timer_us_to_ticks}
use tiny_rt.WaitQueue.{
  Reply, done, waits, timed, with_timeout, trt_wait_q_block_locked, trt_wait_q_block_ticks_locked,
  trt_wait_q_block_timeout_locked,
}
use tiny_rt.WaitQueue.Yield.{yield_of_blocked, told_nothing}
use tiny_rt.Kernel.{Kernel}
use tiny_rt.MsgQueue.Calls.{Turn, ends, sleeps, again, pause, block_for, turn, msg_q_loop}

-- What a blocking function that has succeeded leaves: its task does not run on.
abbrev pub Stops : Err × Sched → Type 0
Stops (Err.ok, s) = (s.lock_count ≡ 0) × ((s.tasks s.current_task).state ≡ TaskState.blocked)
Stops (e, s) = Unit

abbrev pub stopped : Err → Turn
stopped Err.ok = sleeps
stopped e = ends e

pub pause_lem :
    (k : Kernel) (r : Err × Sched) → Stops r → pause k r ≡ (stopped r.0, record k { sched = r.1 })
unfolding pause
pause_lem k (Err.ok, s) (unlocked, blocked) = rw (yield_of_blocked s unlocked blocked) refl
pause_lem k (e, s) stops = refl

blocked-Stops :
    (k : Sched) (h : ℕ)
    → k.current_task ≢ 0
    → k.lock_count ≡ 0
    → Stops (Err.ok, sched_block_current k h)
unfolding sched_block_current sched_ready_remove
blocked-Stops k h nz unlocked = (ground (arith, unlocked), ground (arith, nz))

pub block_locked-Stops : (k : Sched) (wq : ℕ) → Stops (trt_wait_q_block_locked k wq)
unfolding trt_wait_q_block_locked sched_is_locked
block_locked-Stops k wq =
    elim (Bool-cases ((wq == 0) || ((k.current_task == 0) || sched_is_locked k))) [
      | inl bad ↦ rw bad (elim (Bool-cases ((wq == 0) || (k.current_task == 0))) [
        | inl null ↦ rw null tt
        | inr locked ↦ rw locked tt
      ])
      | inr good ↦
          rw good (blocked-Stops (told_nothing k) (wait_head wq) (ground arith) (ground arith))
    ]

timeout_insert-state :
    (k : Sched) (t u : ℕ) → ((sched_timeout_insert k t).tasks u).state ≡ (k.tasks u).state
unfolding sched_timeout_insert
timeout_insert-state k t u = ground arith

timeout_insert-rest :
    (k : Sched) (t : ℕ)
    → ((sched_timeout_insert k t).lock_count ≡ k.lock_count)
      × ((sched_timeout_insert k t).current_task ≡ k.current_task)
unfolding sched_timeout_insert
timeout_insert-rest k t = (ground arith, ground arith)

with_timeout-Stops : (ticks : ℕ) (r : Err × Sched) → Stops r → Stops (with_timeout ticks r)
with_timeout-Stops ticks (Err.ok, k) (unlocked, blocked) =
    let k1 = modify k k.current_task (timed ((k.tick_count + ticks) % 2 ^ 32)) in
    let (l, c) = timeout_insert-rest k1 k.current_task in
    (
      l ∙ unlocked,
      ap (λ t. ((sched_timeout_insert k1 k.current_task).tasks t).state) c
          ∙ timeout_insert-state k1 k.current_task k.current_task
          ∙ ground (arith, blocked),
    )
with_timeout-Stops ticks (e, k) stops = tt

pub block_timeout-Stops : (k : Sched) (wq us : ℕ) → Stops (trt_wait_q_block_timeout_locked k wq us)
unfolding trt_wait_q_block_timeout_locked trt_wait_q_block_ticks_locked
block_timeout-Stops k wq us = if_either Stops (us == forever_us) (block_locked-Stops k wq) (
    if_either Stops (timer_us_to_ticks us == 0) tt (
      with_timeout-Stops (timer_us_to_ticks us) (trt_wait_q_block_locked k wq)
        (block_locked-Stops k wq)))

pub block_for-Stops : (k : Sched) (wq us : ℕ) → Stops (block_for k wq us)
unfolding block_for
block_for-Stops k wq us =
    if_either Stops (us == forever_us) (block_locked-Stops k wq) (block_timeout-Stops k wq us)

stopped-again : (e : Err) → stopped e ≢ again
stopped-again e h = elim e [ Err.ok ↦ ground (arith, h) | _ ↦ ground (arith, h) ]

pub turn-again :
    (mq : ℕ) (blocked : Kernel → Bool) (act : Kernel → Kernel) (wq us : ℕ) (k : Kernel)
    → (turn mq blocked act wq us k).0 ≢ again
unfolding turn
turn-again mq blocked act wq us k =
    let P : Turn × Kernel → Type 0 = λ t. t.0 ≢ again in
    if_either P (k.queues mq).destroyed (stopped-again Err.destroyed) (
      if_either P (not (blocked k)) (λ e. ground (arith, e))
        (if_either P (us == 0) (stopped-again Err.busy) (
          if_either P (sched_is_locked k.sched) (stopped-again Err.locked) (
            rw (pause_lem k (block_for k.sched wq us) (block_for-Stops k.sched wq us))
              (stopped-again (block_for k.sched wq us).0)))))

abbrev pub reply : Turn → Reply
reply (ends e) = done e
reply sleeps = waits
reply again = waits

abbrev pub outcome : Turn × Kernel → Reply × Kernel
outcome (t, k) = (reply t, k)

pub loop_of_round :
    (fuel : ℕ) (round : Kernel → Turn × Kernel) (k : Kernel)
    → (round k).0 ≢ again
    → msg_q_loop (suc fuel) round k ≡ some (outcome (round k))
unfolding msg_q_loop
loop_of_round fuel round k ne = step (round k) ne
  where
    step :
        (r : Turn × Kernel)
        → r.0 ≢ again
        → elim r.0 [
          | ends e ↦ some (outcome (ends e, r.1))
          | sleeps ↦ some (outcome (sleeps, r.1))
          | again ↦ msg_q_loop fuel round r.1
        ]
          ≡ some (outcome r)
    step (ends e, k1) ne1 = refl
    step (sleeps, k1) ne1 = refl
    step (again, k1) ne1 = absurd (ne1 refl)
