-- ===== src/MsgQueue/Destroy.antt =====
-- The destruction of a queue of msg_queue.c, and what its waiters and later calls are told.
use tiny_rt.Base.{
  Bool, ℕ, ◌+◌, ◌≡◌, ◌≢◌, refl, ap, ap₂, sym, subst, ◌∙◌, ◌⊎◌, inl, inr, [], length, arith, Option,
  some, false, true, ne→==-false,
}
use tiny_rt.Error.{Err}
use tiny_rt.Task.{WaitResult}
use tiny_rt.Sched.Inv.{Inv}
use tiny_rt.Sched.State.{Sched, wait_head}
use tiny_rt.WaitQueue.{Reply, done, trt_wait_q_wake_all_result_locked, trt_wait_q_wake_one_locked}
use tiny_rt.WaitQueue.WakeAll.{IsWoken, WakesAll, wake_all-WakesAll, ready-not-waiting}
use tiny_rt.Kernel.{Kernel}
use tiny_rt.MsgQueue.{
  readers, writers, set_queue, bad_message, bad_buffer, msg_q_destroy_obj, msg_q_is_full_obj,
  msg_q_is_empty_obj, put_back, put_front, take_out, look,
}
use tiny_rt.MsgQueue.Calls.{
  ends, turn, msg_q_loop, msg_q_send_obj, msg_q_send_front_obj, msg_q_recv_obj, msg_q_peek_obj,
}
use tiny_rt.MsgQueue.Loop.{loop_of_round, turn-again, outcome}

-- A task that waits in one of the two wait queues of a message queue.
abbrev pub IsWaiter : Kernel → ℕ → ℕ → Type 0
IsWaiter k mq t =
    ((k.sched.tasks t).state_list ≡ some (wait_head (readers mq)))
    ⊎ ((k.sched.tasks t).state_list ≡ some (wait_head (writers mq)))

-- All waiters are woken with the result of a destruction, and no other task changes.
pub record IsDestroyed (k : Kernel) (mq : ℕ) (k' : Kernel) : Type 0 where
  pub sound : Inv k'.sched
  pub marked : (k'.queues mq).destroyed ≡ true
  pub no_reader : k'.sched.lists (wait_head (readers mq)) ≡ []
  pub no_writer : k'.sched.lists (wait_head (writers mq)) ≡ []
  pub woken :
      (t : ℕ) → IsWaiter k mq t → IsWoken WaitResult.destroyed (k.sched.tasks t) (k'.sched.tasks t)
  pub others :
      (t : ℕ)
      → (k.sched.tasks t).state_list ≢ some (wait_head (readers mq))
      → (k.sched.tasks t).state_list ≢ some (wait_head (writers mq))
      → k'.sched.tasks t ≡ k.sched.tasks t

-- Two wait queues, of which all waiters are woken one after the other.
module _ (s s1 s2 : Sched) (r w : ℕ) (apart : r ≢ w) (a : WakesAll s r WaitResult.destroyed s1)
    (b : WakesAll s1 w WaitResult.destroyed s2) where
  IsWoken-first :
      (t : ℕ)
      → (s.tasks t).state_list ≡ some (wait_head r)
      → IsWoken WaitResult.destroyed (s.tasks t) (s2.tasks t)
  IsWoken-first t e =
      let x = a.woken t e in
      subst (IsWoken WaitResult.destroyed (s.tasks t))
        (sym (b.others t (ready-not-waiting t w a.inv x.ready))) x

  IsWoken-second :
      (t : ℕ)
      → (s.tasks t).state_list ≡ some (wait_head w)
      → IsWoken WaitResult.destroyed (s.tasks t) (s2.tasks t)
  IsWoken-second t e =
      let same = a.others t (λ d. absurd (ground (arith, d, e, apart))) in
      subst (λ task. IsWoken WaitResult.destroyed task (s2.tasks t)) same
        (b.woken t (ap (λ task. task.state_list) same ∙ e))

  others_kept :
      (t : ℕ)
      → (s.tasks t).state_list ≢ some (wait_head r)
      → (s.tasks t).state_list ≢ some (wait_head w)
      → s2.tasks t ≡ s.tasks t
  others_kept t nr nw =
      let same = a.others t nr in
      b.others t (λ d. nw (sym (ap (λ task. task.state_list) same) ∙ d)) ∙ same

-- With the scheduler's invariant, a queue that is live is destroyed with ERR_OK and the number of
-- its readers and writers that waited: they are all woken with the result of a destruction, the two
-- wait queues are empty, and nothing else changes in the tasks. A second destruction answers
-- ERR_STATE and changes nothing.
pub destroy_lem :
    (k : Kernel) (mq : ℕ)
    → Inv k.sched
    → mq ≢ 0
    → (k.queues mq).destroyed ≡ false
    → let n = length (k.sched.lists (wait_head (readers mq))) in
      let m = length (k.sched.lists (wait_head (writers mq))) in
      (k' : Kernel) × (msg_q_destroy_obj k mq ≡ ((Err.ok, n + m), k'))
      × IsDestroyed k mq k'
      × (msg_q_destroy_obj k' mq ≡ ((Err.state, 0), k'))
unfolding msg_q_destroy_obj
destroy_lem k mq v nz live =
    let null = ne→==-false mq 0 nz in
    let r = trt_wait_q_wake_all_result_locked k.sched (readers mq) WaitResult.destroyed in
    let w = trt_wait_q_wake_all_result_locked r.1 (writers mq) WaitResult.destroyed in
    let (n, a) = wake_all-WakesAll k.sched (readers mq) WaitResult.destroyed v (omega arith) in
    let (m, b) = wake_all-WakesAll r.1 (writers mq) WaitResult.destroyed a.inv (omega arith) in
    let k' : Kernel = record (set_queue k mq (record (k.queues mq) { destroyed = true })) {
      sched = w.1;
    } in
    let dead : (k'.queues mq).destroyed ≡ true = ground arith in
    let same = a.queues (wait_head (writers mq)) (omega arith) (omega arith) in
    let count : r.0 + w.0
        ≡ length (k.sched.lists (wait_head (readers mq)))
          + length (k.sched.lists (wait_head (writers mq))) =
      ap₂ ◌+◌ n (m ∙ ap length same) in
    (
      k',
      rw (null, live) (ap (λ c. ((Err.ok, c), k')) count),
      record {
        sound = b.inv;
        marked = dead;
        no_reader = b.queues (wait_head (readers mq)) (omega arith) (omega arith) ∙ a.empty;
        no_writer = b.empty;
        woken = λ t waiter. elim waiter [
          | inl e ↦ IsWoken-first k.sched r.1 w.1 (readers mq) (writers mq) (omega arith) a b t e
          | inr e ↦ IsWoken-second k.sched r.1 w.1 (readers mq) (writers mq) (omega arith) a b t e
        ];
        others = others_kept k.sched r.1 w.1 (readers mq) (writers mq) (omega arith) a b;
      },
      rw (null, dead) refl,
    )

turn_dead :
    (mq : ℕ) (blocked : Kernel → Bool) (act : Kernel → Kernel) (wq us : ℕ) (k : Kernel)
    → (k.queues mq).destroyed ≡ true
    → msg_q_loop 1 (turn mq blocked act wq us) k ≡ some (done Err.destroyed, k)
unfolding turn
turn_dead mq blocked act wq us k dead =
    let e : turn mq blocked act wq us k ≡ (ends Err.destroyed, k) = rw dead refl in
    loop_of_round 0 (turn mq blocked act wq us) k (turn-again mq blocked act wq us k)
    ∙ ap (λ x. some (outcome x)) e

-- On a queue that is destroyed, each call that may block, if it accepts its pointers and its size,
-- answers ERR_DESTROYED at once and changes nothing.
pub dead_lem :
    (k : Kernel) (mq message size buf us : ℕ)
    → (k.queues mq).destroyed ≡ true
    → bad_message k mq message size ≡ false
    → bad_buffer mq buf ≡ false
    → let told : Option (Reply × Kernel) = some (done Err.destroyed, k) in
      (msg_q_send_obj k mq message size us ≡ told)
      × (msg_q_send_front_obj k mq message size us ≡ told)
      × (msg_q_recv_obj k mq buf us ≡ told)
      × (msg_q_peek_obj k mq buf us ≡ told)
unfolding msg_q_send_obj msg_q_send_front_obj msg_q_recv_obj msg_q_peek_obj
dead_lem k mq message size buf us dead m b =
    let full = λ (x : Kernel). msg_q_is_full_obj x mq in
    let empty = λ (x : Kernel). msg_q_is_empty_obj x mq in
    let wake = trt_wait_q_wake_one_locked in
    (
      rw m (turn_dead mq full (put_back wake mq message size) (writers mq) us k dead),
      rw m (turn_dead mq full (put_front wake mq message size) (writers mq) us k dead),
      rw b (turn_dead mq empty (take_out wake mq buf) (readers mq) us k dead),
      rw b (turn_dead mq empty (look wake mq buf) (readers mq) us k dead),
    )
