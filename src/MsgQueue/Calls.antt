-- ===== src/MsgQueue/Calls.antt =====
-- src/kernel/msg_queue.c: the calls that may block. A call's loop is in rounds; a round that blocks
-- ends in the trap of `task_yield`, and `msg_q_resume` is how the call goes on when its task runs.
use tiny_rt.Base.{ℕ, zero, suc, Bool, true, false, not, ◌==◌, if◌then◌else◌, Option, none, some}
use tiny_rt.Error.{Err, Res, val, err}
use tiny_rt.Task.{WaitResult}
use tiny_rt.Sched.State.{Sched}
use tiny_rt.Sched.Switch.{sched_is_locked, sched_set_pending, task_yield}
use tiny_rt.Handle.{right_read, right_write}
use tiny_rt.Time.{forever_us}
use tiny_rt.WaitQueue.{
  Reply, done, waits, result_of, trt_wait_q_block_locked, trt_wait_q_block_timeout_locked,
  trt_wait_q_wake_one_locked,
}
use tiny_rt.Kernel.{Kernel}
use tiny_rt.Semaphore.{with_object}
use tiny_rt.MsgQueue.{
  readers, writers, msg_q_lookup, msg_q_is_full_obj, msg_q_is_empty_obj, msg_q_count_obj, put_back,
  put_front, take_out, look, bad_message, bad_buffer,
}

unfoldable pub msg_q_wait_result : Sched → Err
msg_q_wait_result k = elim (result_of k) [
  | WaitResult.object ↦ Err.ok
  | WaitResult.timeout ↦ Err.timeout
  | WaitResult.destroyed ↦ Err.destroyed
  | _ ↦ Err.state
]

-- How a round ends: the call returns, its task waits in the trap, or the loop goes on.
pub data Turn : Type 0 where
  ends : Err → Turn
  sleeps : Turn
  again : Turn

abbrev pub after_wait : Err → Turn
after_wait Err.ok = again
after_wait e = ends e

-- The end of a round, from the result of the blocking function on.
unfoldable pub pause : Kernel → Err × Sched → Turn × Kernel
unfolding msg_q_wait_result task_yield
pause k (Err.ok, sched) =
    let (s, trapped) = task_yield sched in
    (if trapped then sleeps else after_wait (msg_q_wait_result s), record k { sched = s })
pause k (e, sched) = (ends e, record k { sched = sched })

unfoldable pub block_for : Sched → ℕ → ℕ → Err × Sched
unfolding trt_wait_q_block_locked trt_wait_q_block_timeout_locked
block_for k wq us =
    if us == forever_us
    then trt_wait_q_block_locked k wq
    else trt_wait_q_block_timeout_locked k wq us

-- One round of a call on the queue `mq` that can go on if `blocked` is not true of the queue, by
-- `act`, and otherwise waits in `wq`.
unfoldable pub turn : ℕ → (Kernel → Bool) → (Kernel → Kernel) → ℕ → ℕ → Kernel → Turn × Kernel
unfolding sched_is_locked sched_set_pending block_for pause
turn mq blocked act wq us k =
    if (k.queues mq).destroyed
    then (ends Err.destroyed, k)
    else if not (blocked k)
    then (ends Err.ok, act k)
    else if us == 0
    then (ends Err.busy, k)
    else if sched_is_locked k.sched
    then (ends Err.locked, record k { sched = sched_set_pending k.sched })
    else pause k (block_for k.sched wq us)

-- `for (;;)`, on fuel: `none` when it is used up.
unfoldable pub msg_q_loop : ℕ → (Kernel → Turn × Kernel) → Kernel → Option (Reply × Kernel)
msg_q_loop zero round k = none
msg_q_loop (suc fuel) round k =
    let (t, k1) = round k in
    let rest = msg_q_loop fuel round k1 in
    elim t [ ends e ↦ some (done e, k1) | sleeps ↦ some (waits, k1) | again ↦ rest ]

-- A call from the return of `task_yield` on.
unfoldable pub msg_q_resume : ℕ → (Kernel → Turn × Kernel) → Kernel → Option (Reply × Kernel)
unfolding msg_q_wait_result msg_q_loop
msg_q_resume fuel round k = elim (msg_q_wait_result k.sched) [
  | Err.ok ↦ msg_q_loop fuel round k
  | e ↦ some (done e, k)
]

abbrev pub send_round : ℕ → ℕ → ℕ → ℕ → Kernel → Turn × Kernel
send_round mq message size us =
    turn mq (λ k. msg_q_is_full_obj k mq) (put_back trt_wait_q_wake_one_locked mq message size)
      (writers mq) us

abbrev pub send_front_round : ℕ → ℕ → ℕ → ℕ → Kernel → Turn × Kernel
send_front_round mq message size us =
    turn mq (λ k. msg_q_is_full_obj k mq) (put_front trt_wait_q_wake_one_locked mq message size)
      (writers mq) us

abbrev pub recv_round : ℕ → ℕ → ℕ → Kernel → Turn × Kernel
recv_round mq buf us =
    turn mq (λ k. msg_q_is_empty_obj k mq) (take_out trt_wait_q_wake_one_locked mq buf) (readers mq)
      us

abbrev pub peek_round : ℕ → ℕ → ℕ → Kernel → Turn × Kernel
peek_round mq buf us =
    turn mq (λ k. msg_q_is_empty_obj k mq) (look trt_wait_q_wake_one_locked mq buf) (readers mq) us

-- With one unit of fuel.
unfoldable pub msg_q_send_obj : Kernel → ℕ → ℕ → ℕ → ℕ → Option (Reply × Kernel)
unfolding msg_q_loop turn msg_q_is_full_obj put_back trt_wait_q_wake_one_locked
msg_q_send_obj k mq message size us =
    if bad_message k mq message size
    then some (done Err.inval, k)
    else msg_q_loop 1 (send_round mq message size us) k

unfoldable pub msg_q_send_front_obj : Kernel → ℕ → ℕ → ℕ → ℕ → Option (Reply × Kernel)
unfolding msg_q_loop turn msg_q_is_full_obj put_front trt_wait_q_wake_one_locked
msg_q_send_front_obj k mq message size us =
    if bad_message k mq message size
    then some (done Err.inval, k)
    else msg_q_loop 1 (send_front_round mq message size us) k

unfoldable pub msg_q_recv_obj : Kernel → ℕ → ℕ → ℕ → Option (Reply × Kernel)
unfolding msg_q_loop turn msg_q_is_empty_obj take_out trt_wait_q_wake_one_locked
msg_q_recv_obj k mq buf us =
    if bad_buffer mq buf then some (done Err.inval, k) else msg_q_loop 1 (recv_round mq buf us) k

unfoldable pub msg_q_peek_obj : Kernel → ℕ → ℕ → ℕ → Option (Reply × Kernel)
unfolding msg_q_loop turn msg_q_is_empty_obj look trt_wait_q_wake_one_locked
msg_q_peek_obj k mq buf us =
    if bad_buffer mq buf then some (done Err.inval, k) else msg_q_loop 1 (peek_round mq buf us) k

-- What a call does with the outcome of its lookup.
abbrev pub on_queue :
    (ℕ → Kernel → Option (Reply × Kernel)) → Res ℕ × Kernel → Option (Reply × Kernel)
on_queue go (val mq, k) = go mq k
on_queue go (err e, k) = some (done e, k)

unfoldable pub trt_msg_q_send : Kernel → ℕ → ℕ → ℕ → ℕ → Option (Reply × Kernel)
unfolding msg_q_lookup msg_q_send_obj
trt_msg_q_send k handle message size us =
    on_queue (λ mq k1. msg_q_send_obj k1 mq message size us) (msg_q_lookup k handle right_write)

unfoldable pub trt_msg_q_send_front : Kernel → ℕ → ℕ → ℕ → ℕ → Option (Reply × Kernel)
unfolding msg_q_lookup msg_q_send_front_obj
trt_msg_q_send_front k handle message size us =
    on_queue (λ mq k1. msg_q_send_front_obj k1 mq message size us)
      (msg_q_lookup k handle right_write)

unfoldable pub trt_msg_q_recv : Kernel → ℕ → ℕ → ℕ → Option (Reply × Kernel)
unfolding msg_q_lookup msg_q_recv_obj
trt_msg_q_recv k handle buf us =
    on_queue (λ mq k1. msg_q_recv_obj k1 mq buf us) (msg_q_lookup k handle right_read)

unfoldable pub trt_msg_q_peek : Kernel → ℕ → ℕ → ℕ → Option (Reply × Kernel)
unfolding msg_q_lookup msg_q_peek_obj
trt_msg_q_peek k handle buf us =
    on_queue (λ mq k1. msg_q_peek_obj k1 mq buf us) (msg_q_lookup k handle right_read)

unfoldable pub trt_msg_q_is_full : Kernel → ℕ → Bool × Kernel
unfolding msg_q_lookup msg_q_is_full_obj
trt_msg_q_is_full k handle =
    with_object (λ e. false) (λ mq k1. (msg_q_is_full_obj k1 mq, k1))
      (msg_q_lookup k handle right_write)

unfoldable pub trt_msg_q_is_empty : Kernel → ℕ → Bool × Kernel
unfolding msg_q_lookup msg_q_is_empty_obj
trt_msg_q_is_empty k handle =
    with_object (λ e. true) (λ mq k1. (msg_q_is_empty_obj k1 mq, k1))
      (msg_q_lookup k handle right_read)

unfoldable pub trt_msg_q_count : Kernel → ℕ → ℕ × Kernel
unfolding msg_q_lookup msg_q_count_obj
trt_msg_q_count k handle =
    with_object (λ e. 0) (λ mq k1. (msg_q_count_obj k1 mq, k1)) (msg_q_lookup k handle right_read)
