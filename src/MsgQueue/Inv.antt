-- ===== src/MsgQueue/Inv.antt =====
-- What the message queues of msg_queue.c promise, and the parts of it that all calls share.
use tiny_rt.Base.{
  if-false, ℕ, ◌+◌, ◌*◌, ◌≤◌, ◌≡◌, ◌≢◌, refl, ap, ◌∙◌, ◌⊎◌, inl, inr, List, [], ◌∷◌, arith, ◌==◌,
  Bool-cases, is_empty, eq-nil_of_empty, cons_of_not-empty, Option, some, false, true, Bool,
}
use tiny_rt.Error.{Err}
use tiny_rt.Task.{TaskState, WaitResult}
use tiny_rt.Sched.Inv.{Inv}
use tiny_rt.Sched.Order.{IsRanked, Blocks}
use tiny_rt.Sched.State.{Sched, wait_head}
use tiny_rt.Sched.Switch.{sched_is_locked, sched_set_pending}
use tiny_rt.Time.{forever_us}
use tiny_rt.WaitQueue.{
  Reply, done, waits, trt_wait_q_wake_one_locked, trt_wait_q_block_timeout_locked,
}
use tiny_rt.WaitQueue.Inv.{wake_one_result-Inv, wake_step}
use tiny_rt.WaitQueue.WakeAll.{IsWoken, wake_one_result_none}
use tiny_rt.WaitQueue.Timed.{IsTimeout, block_timeout-Blocks}
use tiny_rt.WaitQueue.Yield.{told_nothing}
use tiny_rt.Kernel.{Kernel, MsgQ}
use tiny_rt.MsgQueue.{slot}
use tiny_rt.MsgQueue.Calls.{Turn, ends, block_for, turn, msg_q_loop}
use tiny_rt.MsgQueue.Loop.{pause_lem, block_for-Stops, loop_of_round, turn-again, outcome, stopped}
use tiny_rt.MsgQueue.Ring.{IsRing, messages, slot_lem}
use tiny_rt.MsgQueue.Bytes.{Apart}

-- A queue whose ring is in order, and the scheduler's invariant.
pub record IsQueue (k : Kernel) (mq : ℕ) : Type 0 where
  pub sound : Inv k.sched
  pub real : mq ≢ 0
  pub ring : IsRing (k.queues mq)

-- The messages that a queue holds.
abbrev pub contents : Kernel → ℕ → List (List ℕ)
contents k mq = messages k.heap.bytes (k.queues mq)

-- A region outside the storage of a queue's messages.
abbrev pub IsApart : MsgQ → ℕ → ℕ → Type 0
IsApart q p n = Apart q.buf ((q.qlen + 1) * q.cap) p n

pub Apart-slot :
    {q : MsgQ} (i p n : ℕ) → IsRing q → i ≤ q.qlen → IsApart q p n → Apart (slot q i) q.cap p n
Apart-slot {q} i p n v h apart =
    let (e, last) = slot_lem i v h in
    elim apart [ inl l ↦ inl (omega arith) | inr r ↦ inr (omega arith) ]

-- The first waiter of a queue, if there is one, is woken with the result of the object.
abbrev pub WakesFirst : ℕ → Sched → Sched → Type 0
WakesFirst wq s s' =
    ((s.lists (wait_head wq) ≡ []) × (s' ≡ s))
    ⊎ ((t : ℕ) × (ts : List ℕ) × (s.lists (wait_head wq) ≡ t ∷ ts)
        × IsWoken WaitResult.object (s.tasks t) (s'.tasks t)
        × (s'.lists (wait_head wq) ≡ ts)
        × ((u : ℕ) → u ≢ t → s'.tasks u ≡ s.tasks u))

pub wake-WakesFirst :
    (s : Sched) (wq : ℕ)
    → Inv s
    → wq ≢ 0
    → let s' = (trt_wait_q_wake_one_locked s wq).1 in Inv s' × WakesFirst wq s s'
unfolding trt_wait_q_wake_one_locked
wake-WakesFirst s wq v nz = (
  wake_one_result-Inv wq WaitResult.object v,
  elim (Bool-cases (is_empty (s.lists (wait_head wq)))) [
    | inl free ↦
        let q = eq-nil_of_empty (s.lists (wait_head wq)) free in
        inl (q, ap (λ r. r.1) (wake_one_result_none s wq WaitResult.object q))
    | inr busy ↦
        let (t, ts, q) = cons_of_not-empty (s.lists (wait_head wq)) busy in
        let (_, _, left, ready, told, queued, others, _) =
          wake_step s wq t ts WaitResult.object v nz q in
        inr (t, ts, q, record { ready = ready; told = told; queued = queued }, left, others)
  ],
)

-- What a call that cannot go on makes of the kernel, waiting in the queue `wq`: it gives up, is
-- refused while the scheduler is locked, or its task waits at its place among the waiters.
abbrev pub Declines : Kernel → ℕ → ℕ → Option (Reply × Kernel) → Type 0
Declines k wq us r =
    ((us ≡ 0) × (r ≡ some (done Err.busy, k)))
    ⊎ ((us ≢ 0)
        × (k.sched.lock_count ≢ 0)
        × (r ≡ some (done Err.locked, record k { sched = sched_set_pending k.sched })))
    ⊎ ((us ≢ 0)
        × (k.sched.lock_count ≡ 0)
        × ((s : Sched) × (r ≡ some (waits, record k { sched = s }))
            × Blocks (told_nothing k.sched) (wait_head wq) s))

-- The running task can make a call with this timeout that waits in `wq`.
pub record IsCaller (k : Kernel) (wq us : ℕ) : Type 0 where
  pub exists : k.sched.current_task ≢ 0
  pub running : (k.sched.tasks k.sched.current_task).state ≡ TaskState.running
  pub ranked : IsRanked k.sched.tasks (k.sched.lists (wait_head wq))
  pub timeout : us ≢ 0 → IsTimeout us

block_for_lem :
    (s : Sched) (wq us : ℕ) → block_for s wq us ≡ trt_wait_q_block_timeout_locked s wq us
unfolding block_for trt_wait_q_block_timeout_locked
block_for_lem s wq us = elim (Bool-cases (us == forever_us)) [
  | inl e ↦ rw e refl
  | inr ne ↦ rw ne refl
]

module _ (mq : ℕ) (blocked : Kernel → Bool) (act : Kernel → Kernel) (wq us : ℕ) (k : Kernel)
    (live : (k.queues mq).destroyed ≡ false) where
  turn-ready : blocked k ≡ false → turn mq blocked act wq us k ≡ (ends Err.ok, act k)
  unfolding turn
  turn-ready go = rw (live, go) refl

  turn-busy : blocked k ≡ true → (us == 0) ≡ true → turn mq blocked act wq us k ≡ (ends Err.busy, k)
  unfolding turn
  turn-busy stop z = rw (live, stop, z) refl

  turn-locked :
      blocked k ≡ true
      → (us == 0) ≡ false
      → sched_is_locked k.sched ≡ true
      → turn mq blocked act wq us k
        ≡ (ends Err.locked, record k { sched = sched_set_pending k.sched })
  unfolding turn
  turn-locked stop nz l = rw (live, stop, nz, l) refl

  turn-waits :
      blocked k ≡ true
      → (us == 0) ≡ false
      → sched_is_locked k.sched ≡ false
      → turn mq blocked act wq us k
        ≡ (stopped (block_for k.sched wq us).0, record k { sched = (block_for k.sched wq us).1 })
  unfolding turn
  turn-waits stop nz l =
      rw (live, stop)
        (if-false _ nz
          (if-false _ l (pause_lem k (block_for k.sched wq us) (block_for-Stops k.sched wq us))))

  loop_of_turn :
      {r : Turn × Kernel}
      → turn mq blocked act wq us k ≡ r
      → msg_q_loop 1 (turn mq blocked act wq us) k ≡ some (outcome r)
  loop_of_turn e =
      loop_of_round 0 (turn mq blocked act wq us) k (turn-again mq blocked act wq us k)
      ∙ ap (λ x. some (outcome x)) e

  abbrev Waiting : Err × Sched → Type 0
  Waiting r = (r.0 ≡ Err.ok) × Blocks (told_nothing k.sched) (wait_head wq) r.1

  pub ready_lem :
      blocked k ≡ false → msg_q_loop 1 (turn mq blocked act wq us) k ≡ some (done Err.ok, act k)
  ready_lem go = loop_of_turn (turn-ready go)

  pub declines_lem :
      blocked k ≡ true
      → Inv k.sched
      → wq ≢ 0
      → IsCaller k wq us
      → Declines k wq us (msg_q_loop 1 (turn mq blocked act wq us) k)
  unfolding sched_is_locked
  declines_lem stop v real c = elim (Bool-cases (us == 0)) [
    | inl z ↦ inl (ground arith, loop_of_turn (turn-busy stop z))
    | inr nz ↦ elim (Bool-cases (k.sched.lock_count == 0)) [
      | inr l ↦
          inr (inl (ground arith, ground arith, loop_of_turn (turn-locked stop nz (ground arith))))
      | inl u ↦
          let b =
            block_timeout-Blocks k.sched wq us v real c.exists (ground arith) c.running c.ranked
              (c.timeout (ground arith)) in
          let waited : Waiting (block_for k.sched wq us) = rw (block_for_lem k.sched wq us) b in
          inr (
            inr (
              ground arith,
              ground arith,
              (
                (block_for k.sched wq us).1,
                loop_of_turn (turn-waits stop nz (ground arith))
                    ∙ ap
                        (λ e.
                          some
                            (outcome (stopped e, record k { sched = (block_for k.sched wq us).1 })))
                        waited.0,
                waited.1,
              ),
            ))
    ]
  ]
