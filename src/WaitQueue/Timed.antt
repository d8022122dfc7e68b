-- ===== src/WaitQueue/Timed.antt =====
-- Blocking with a timeout: the task is in its queue at its place, as without one.
use tiny_rt.Base.{
  ℕ, ◌-◌, ◌^◌, ◌≤◌, ◌≡◌, ◌≢◌, refl, ap, ◌∙◌, ◌⊎◌, inl, inr, arith, ◌==◌, false, ne→==-false,
}
use tiny_rt.Error.{Err}
use tiny_rt.Task.{TaskState}
use tiny_rt.Sched.{sched_timeout_insert}
use tiny_rt.Sched.Order.{IsRanked, Blocks, block_current-Blocks, IsRanked-ext}
use tiny_rt.Sched.State.{Sched, modify, wait_head}
use tiny_rt.Sched.Inv.{Inv}
use tiny_rt.Time.{forever_us, timer_us_to_ticks}
use tiny_rt.WaitQueue.{timed, trt_wait_q_block_ticks_locked, trt_wait_q_block_timeout_locked}
use tiny_rt.WaitQueue.Yield.{told_nothing, told-Inv, block_of_open, current-block}

insert_lem :
    (k : Sched) (t w : ℕ)
    → let k' = sched_timeout_insert (modify k t (timed w)) t in
      ((u : ℕ) → (k.tasks u).priority ≡ (k'.tasks u).priority)
      × ((k'.tasks t).state ≡ (k.tasks t).state)
      × ((k'.tasks t).state_list ≡ (k.tasks t).state_list)
      × ((u : ℕ) → u ≢ t → k'.tasks u ≡ k.tasks u)
      × ((g : ℕ) → k'.lists g ≡ k.lists g)
unfolding sched_timeout_insert
insert_lem k t w =
    (λ u. ground arith, ground arith, ground arith, λ u ne. ground arith, λ g. ground arith)

Blocks-timed :
    (k : Sched) (h t w : ℕ) (s : Sched)
    → t ≡ k.current_task
    → Blocks k h s
    → Blocks k h (sched_timeout_insert (modify s t (timed w)) t)
Blocks-timed k h t w s e b =
    let k' = sched_timeout_insert (modify s t (timed w)) t in
    let (priority, state, link, others, lists) = insert_lem s t w in
    record {
      place = rw (lists h) b.place;
      ranked = rw (lists h) (IsRanked-ext s.tasks k'.tasks (s.lists h) priority b.ranked);
      blocked = rw (← e) (state ∙ ap (λ u. (s.tasks u).state) e ∙ b.blocked);
      linked = rw (← e) (link ∙ ap (λ u. (s.tasks u).state_list) e ∙ b.linked);
      others = λ u ne. others u (λ d. ne (d ∙ e)) ∙ b.others u ne;
      lists = λ g ne. lists g ∙ b.lists g ne;
    }

-- A timeout that lasts: for ever, or so long that its ticks can be computed.
abbrev pub IsTimeout : ℕ → Type 0
IsTimeout us = (us ≡ forever_us) ⊎ ((us ≢ 0) × (us ≤ 2 ^ 64 - 1000))

ticks-ne_zero : (us : ℕ) → us ≢ 0 → us ≤ 2 ^ 64 - 1000 → timer_us_to_ticks us ≢ 0
unfolding timer_us_to_ticks
ticks-ne_zero us nz h e = ground (arith, e)

-- A running task that blocks on a queue, with or without a timeout, is in the queue at its place.
pub block_timeout-Blocks :
    (k : Sched) (wq us : ℕ)
    → Inv k
    → wq ≢ 0
    → k.current_task ≢ 0
    → k.lock_count ≡ 0
    → (k.tasks k.current_task).state ≡ TaskState.running
    → IsRanked k.tasks (k.lists (wait_head wq))
    → IsTimeout us
    → let r = trt_wait_q_block_timeout_locked k wq us in
      (r.0 ≡ Err.ok) × Blocks (told_nothing k) (wait_head wq) r.1
unfolding trt_wait_q_block_timeout_locked trt_wait_q_block_ticks_locked
block_timeout-Blocks k wq us v nz cur unlocked run r lasts =
    let k1 = told_nothing k in
    let (b, _, _) =
      block_current-Blocks k1 (wait_head wq) (told-Inv v) cur (ground arith)
        (IsRanked-ext k.tasks k1.tasks (k.lists (wait_head wq)) (λ u. ground arith) r) in
    let (c, _) = current-block k1 (wait_head wq) in
    let e = block_of_open k wq nz cur unlocked in
    elim lasts [
      | inl forever ↦ rw (forever, e) (refl, b)
      | inr (some_time, short) ↦
          let a : (us == forever_us) ≡ false = ground (arith, short) in
          let z : (timer_us_to_ticks us == 0) ≡ false =
            ne→==-false (timer_us_to_ticks us) 0 (ticks-ne_zero us some_time short) in
          rw (a, z, e) (refl, Blocks-timed k1 (wait_head wq) _ _ _ c b)
    ]
