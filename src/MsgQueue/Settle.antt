-- ===== src/MsgQueue/Settle.antt =====
-- How the calls of src/kernel/msg_queue.c that may block come to an end.
use tiny_rt.Base.{
  subst, sym, if_passes, ℕ, suc, ◌+◌, ◌%◌, ◌^◌, ◌≡◌, ◌≢◌, refl, Bool, true, false, ◌||◌, ap, ◌∙◌,
  inl, inr, some, ◌==◌, arith, Bool-cases, if_either,
}
use tiny_rt.Error.{Err}
use tiny_rt.Task.{TaskState}
use tiny_rt.Sched.{sched_block_current, sched_timeout_insert, sched_ready_remove}
use tiny_rt.Sched.State.{Sched, wait_head, modify}
use tiny_rt.Sched.Switch.{sched_is_locked, sched_set_pending}
use tiny_rt.Time.{forever_us, timer_us_to_ticks}
use tiny_rt.WaitQueue.{
  Reply, done, waits, timed, with_timeout, trt_wait_q_block_locked, trt_wait_q_block_ticks_locked,
  trt_wait_q_block_timeout_locked,
}
use tiny_rt.WaitQueue.Yield.{told_nothing}
use tiny_rt.Kernel.{Kernel}
use tiny_rt.MsgQueue.{readers, writers, msg_q_is_full_obj, msg_q_is_empty_obj}
use tiny_rt.MsgQueue.Calls.{
  Turn, ends, sleeps, again, block_for, turn, msg_q_loop, msg_q_resume, msg_q_wait_result,
  send_round, send_front_round, recv_round, peek_round,
}
use tiny_rt.MsgQueue.Loop.{stopped, pause_lem, block_for-Stops, loop_of_round, outcome}

-- The current task is blocked and linked into the wait queue.
abbrev pub Asleep : ℕ → Sched → Type 0
Asleep wq s =
    ((s.tasks s.current_task).state ≡ TaskState.blocked)
    × ((s.tasks s.current_task).state_list ≡ some (wait_head wq))

-- What a blocking function that has succeeded leaves.
abbrev Queues : ℕ → Err × Sched → Type 0
Queues wq (Err.ok, s) = Asleep wq s
Queues wq (e, s) = Unit

block_current-Asleep :
    (k : Sched) (wq : ℕ) → k.current_task ≢ 0 → Asleep wq (sched_block_current k (wait_head wq))
unfolding sched_block_current sched_ready_remove
block_current-Asleep k wq nz = (ground (arith, nz), ground (arith, nz))

block_locked-Queues : (k : Sched) (wq : ℕ) → Queues wq (trt_wait_q_block_locked k wq)
unfolding trt_wait_q_block_locked sched_is_locked
block_locked-Queues k wq =
    elim (Bool-cases ((wq == 0) || ((k.current_task == 0) || sched_is_locked k))) [
      | inl bad ↦ rw bad (elim (Bool-cases ((wq == 0) || (k.current_task == 0))) [
        | inl null ↦ rw null tt
        | inr locked ↦ rw locked tt
      ])
      | inr good ↦ rw good (block_current-Asleep (told_nothing k) wq (ground arith))
    ]

timeout_insert_task :
    (k : Sched) (t u : ℕ)
    → let k' = sched_timeout_insert k t in
      ((k'.tasks u).state ≡ (k.tasks u).state)
      × ((k'.tasks u).state_list ≡ (k.tasks u).state_list)
      × (k'.current_task ≡ k.current_task)
unfolding sched_timeout_insert
timeout_insert_task k t u = (ground arith, ground arith, ground arith)

with_timeout-Queues :
    (wq ticks : ℕ) (r : Err × Sched) → Queues wq r → Queues wq (with_timeout ticks r)
with_timeout-Queues wq ticks (Err.ok, k) (blocked, linked) =
    let k1 = modify k k.current_task (timed ((k.tick_count + ticks) % 2 ^ 32)) in
    let k2 = sched_timeout_insert k1 k.current_task in
    let (state, link, c) = timeout_insert_task k1 k.current_task k.current_task in
    (
      ap (λ t. (k2.tasks t).state) c ∙ state ∙ ground (arith, blocked),
      ap (λ t. (k2.tasks t).state_list) c ∙ link ∙ ground (arith, linked),
    )
with_timeout-Queues wq ticks (e, k) queued = tt

block_for-Queues : (k : Sched) (wq us : ℕ) → Queues wq (block_for k wq us)
unfolding block_for trt_wait_q_block_timeout_locked trt_wait_q_block_ticks_locked
block_for-Queues k wq us =
    let P = Queues wq in
    let locked = block_locked-Queues k wq in
    if_either P (us == forever_us) locked (
      if_either P (us == forever_us) locked (
        if_either P (timer_us_to_ticks us == 0) tt
          (with_timeout-Queues wq (timer_us_to_ticks us) (trt_wait_q_block_locked k wq) locked)))

ends-inj : {e e' : Err} → ends e ≡ ends e' → e ≡ e'
ends-inj {e} h = ap ending h
  where
    ending : Turn → Err
    ending (ends x) = x
    ending t = e

done-inj : {e e' : Err} → done e ≡ done e' → e ≡ e'
done-inj {e} h = ap answer h
  where
    answer : Reply → Err
    answer (done x) = x
    answer r = e

-- What the end of a round says of the queue, where `full` is what the round tests.
abbrev Tells : Bool → ℕ → Turn × Kernel → Type 0
Tells full wq (t, k) =
    (t ≢ again)
    × (t ≡ sleeps → (full ≡ true) × Asleep wq k.sched)
    × (t ≡ ends Err.ok → full ≡ false)

stopped-Tells :
    (full : Bool) (wq : ℕ) (k : Kernel) (r : Err × Sched)
    → full ≡ true
    → Queues wq r
    → Tells full wq (stopped r.0, record k { sched = r.1 })
stopped-Tells full wq k (Err.ok, s) e q =
    (λ h. ground (arith, h), λ h. (e, q), λ h. ground (arith, h))
stopped-Tells full wq k (x, s) e q =
    (λ h. ground (arith, h), λ h. ground (arith, h), λ h. ground (arith, h))

turn-Tells :
    (mq : ℕ) (blocked : Kernel → Bool) (act : Kernel → Kernel) (wq us : ℕ) (k : Kernel)
    → Tells (blocked k) wq (turn mq blocked act wq us k)
unfolding turn
turn-Tells mq blocked act wq us k =
    let P = Tells (blocked k) wq in
    let refuses : (e : Err) (s : Kernel) → e ≢ Err.ok → P (ends e, s) =
      λ e s ne. (λ h. ground (arith, h), λ h. ground (arith, h), λ h. absurd (ne (ends-inj h))) in
    if_either P (k.queues mq).destroyed (refuses Err.destroyed k (λ h. ground (arith, h)))
      (elim (Bool-cases (blocked k)) [
        | inr goes ↦ rw goes (λ h. ground (arith, h), λ h. ground (arith, h), λ h. refl)
        | inl full ↦ if_passes P _ full (
            if_either P (us == 0) (refuses Err.busy k (λ h. ground (arith, h))) (
              if_either P (sched_is_locked k.sched)
                (refuses Err.locked (record k { sched = sched_set_pending k.sched })
                  (λ h. ground (arith, h)))
                (subst P
                  (sym (pause_lem k (block_for k.sched wq us) (block_for-Stops k.sched wq us)))
                  (stopped-Tells (blocked k) wq k (block_for k.sched wq us) full
                    (block_for-Queues k.sched wq us)))))
      ])

-- What a call ends with: its task waits only for a queue that is full, for a sender, or empty, for a
-- receiver, and then it is blocked in the wait queue; and it answers ERR_OK only for another one.
abbrev pub IsEnd : Bool → ℕ → Reply × Kernel → Type 0
IsEnd full wq (r, k) =
    (r ≡ waits → (full ≡ true) × Asleep wq k.sched) × (r ≡ done Err.ok → full ≡ false)

-- A call of a round function comes to an end: a result that does not depend on the fuel, if there is
-- any, both when it starts and when its task runs on after a wait.
abbrev pub Settles : Bool → ℕ → (Kernel → Turn × Kernel) → Kernel → Type 0
Settles full wq round k =
    (r : Reply × Kernel) × (r' : Reply × Kernel) × ((fuel : ℕ)
      → msg_q_loop (suc fuel) round k ≡ some r)
    × ((fuel : ℕ) → msg_q_resume (suc fuel) round k ≡ some r')
    × IsEnd full wq r
    × IsEnd full wq r'

outcome-IsEnd :
    (full : Bool) (wq : ℕ) (t : Turn × Kernel) → Tells full wq t → IsEnd full wq (outcome t)
outcome-IsEnd full wq (ends e, k) (_, _, ok) =
    (λ h. ground (arith, h), λ h. ok (ap ends (done-inj h)))
outcome-IsEnd full wq (sleeps, k) (_, sleep, _) = (λ h. sleep refl, λ h. ground (arith, h))
outcome-IsEnd full wq (again, k) (ne, _, _) = absurd (ne refl)

resumed : Kernel → Reply × Kernel → Err → Reply × Kernel
resumed k r Err.ok = r
resumed k r e = (done e, k)

resumed-IsEnd :
    (full : Bool) (wq : ℕ) (k : Kernel) (r : Reply × Kernel) (e : Err)
    → IsEnd full wq r
    → IsEnd full wq (resumed k r e)
unfolding resumed
resumed-IsEnd full wq k r Err.ok v = v
resumed-IsEnd full wq k r e v = (λ h. ground (arith, h), λ h. ground (arith, h))

turn-Settles :
    (full : Bool) (wq : ℕ) (round : Kernel → Turn × Kernel) (k : Kernel)
    → Tells full wq (round k)
    → Settles full wq round k
unfolding msg_q_resume resumed
turn-Settles full wq round k tells =
    let r = outcome (round k) in
    let at = λ (fuel : ℕ). loop_of_round fuel round k tells.0 in
    let v = outcome-IsEnd full wq (round k) tells in
    (
      r,
      resumed k r (msg_q_wait_result k.sched),
      at,
      λ fuel.
          elim (msg_q_wait_result k.sched)
            as (λ e.
              elim e [ Err.ok ↦ msg_q_loop (suc fuel) round k | x ↦ some (done x, k) ]
              ≡ some (resumed k r e)) [ Err.ok ↦ at fuel | _ ↦ refl ],
      v,
      resumed-IsEnd full wq k r (msg_q_wait_result k.sched) v,
    )

-- The four calls that may block end, in any state of the kernel and on any arguments, both from
-- their start and from the return of `task_yield` on, and one round is enough: whatever the fuel, if
-- there is any, the loop has a result, which is a return or the task's wait in the trap. It is a wait
-- only if the queue is full, for the two that send, or empty, for the two that receive, and then the
-- current task is blocked and linked into the wait queue of the writers or of the readers. It is the
-- return of ERR_OK only if the queue is not full, or not empty.
pub rounds-Settles :
    (k : Kernel) (mq pointer size us : ℕ)
    → Settles (msg_q_is_full_obj k mq) (writers mq) (send_round mq pointer size us) k
      × Settles (msg_q_is_full_obj k mq) (writers mq) (send_front_round mq pointer size us) k
      × Settles (msg_q_is_empty_obj k mq) (readers mq) (recv_round mq pointer us) k
      × Settles (msg_q_is_empty_obj k mq) (readers mq) (peek_round mq pointer us) k
rounds-Settles k mq pointer size us =
    let full = msg_q_is_full_obj k mq in
    let none_held = msg_q_is_empty_obj k mq in
    (
      turn-Settles full (writers mq) (send_round mq pointer size us) k
          (turn-Tells mq _ _ (writers mq) us k),
      turn-Settles full (writers mq) (send_front_round mq pointer size us) k
          (turn-Tells mq _ _ (writers mq) us k),
      turn-Settles none_held (readers mq) (recv_round mq pointer us) k
          (turn-Tells mq _ _ (readers mq) us k),
      turn-Settles none_held (readers mq) (peek_round mq pointer us) k
          (turn-Tells mq _ _ (readers mq) us k),
    )
