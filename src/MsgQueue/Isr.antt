-- ===== src/MsgQueue/Isr.antt =====
-- src/kernel/msg_queue.c: the calls from interrupts, which never block.
use tiny_rt.Base.{ℕ, not, Bool, if◌then◌else◌}
use tiny_rt.Error.{Err}
use tiny_rt.Handle.{right_read, right_write}
use tiny_rt.WaitQueue.{trt_wait_q_wake_one_from_isr}
use tiny_rt.Kernel.{Kernel}
use tiny_rt.Semaphore.{with_object}
use tiny_rt.MsgQueue.{
  msg_q_lookup, msg_q_is_full_obj, msg_q_is_empty_obj, put_back, take_out, look, bad_message,
  bad_buffer,
}

-- The critical section of the three: the guards, and `act`.
unfoldable pub in_isr_turn : ℕ → Bool → Bool → (Kernel → Kernel) → Kernel → Err × Kernel
in_isr_turn mq bad blocked act k =
    if bad
    then (Err.inval, k)
    else if (k.queues mq).destroyed
    then (Err.destroyed, k)
    else if blocked
    then (Err.busy, k)
    else (Err.ok, act k)

unfoldable pub msg_q_send_from_isr_obj : Kernel → ℕ → ℕ → ℕ → Err × Kernel
unfolding in_isr_turn msg_q_is_full_obj put_back trt_wait_q_wake_one_from_isr
msg_q_send_from_isr_obj k mq message size =
    if not k.sched.in_isr
    then (Err.state, k)
    else in_isr_turn mq (bad_message k mq message size) (msg_q_is_full_obj k mq)
        (put_back trt_wait_q_wake_one_from_isr mq message size) k

unfoldable pub trt_msg_q_send_from_isr : Kernel → ℕ → ℕ → ℕ → Err × Kernel
unfolding msg_q_lookup msg_q_send_from_isr_obj
trt_msg_q_send_from_isr k handle message size =
    with_object (λ e. e) (λ mq k1. msg_q_send_from_isr_obj k1 mq message size)
      (msg_q_lookup k handle right_write)

unfoldable pub msg_q_recv_from_isr_obj : Kernel → ℕ → ℕ → Err × Kernel
unfolding in_isr_turn msg_q_is_empty_obj take_out trt_wait_q_wake_one_from_isr
msg_q_recv_from_isr_obj k mq buf =
    if not k.sched.in_isr
    then (Err.state, k)
    else in_isr_turn mq (bad_buffer mq buf) (msg_q_is_empty_obj k mq)
        (take_out trt_wait_q_wake_one_from_isr mq buf) k

unfoldable pub trt_msg_q_recv_from_isr : Kernel → ℕ → ℕ → Err × Kernel
unfolding msg_q_lookup msg_q_recv_from_isr_obj
trt_msg_q_recv_from_isr k handle buf =
    with_object (λ e. e) (λ mq k1. msg_q_recv_from_isr_obj k1 mq buf)
      (msg_q_lookup k handle right_read)

unfoldable pub msg_q_peek_from_isr_obj : Kernel → ℕ → ℕ → Err × Kernel
unfolding in_isr_turn msg_q_is_empty_obj look trt_wait_q_wake_one_from_isr
msg_q_peek_from_isr_obj k mq buf =
    if not k.sched.in_isr
    then (Err.state, k)
    else in_isr_turn mq (bad_buffer mq buf) (msg_q_is_empty_obj k mq)
        (look trt_wait_q_wake_one_from_isr mq buf) k

unfoldable pub trt_msg_q_peek_from_isr : Kernel → ℕ → ℕ → Err × Kernel
unfolding msg_q_lookup msg_q_peek_from_isr_obj
trt_msg_q_peek_from_isr k handle buf =
    with_object (λ e. e) (λ mq k1. msg_q_peek_from_isr_obj k1 mq buf)
      (msg_q_lookup k handle right_read)
