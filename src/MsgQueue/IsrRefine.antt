-- ===== src/MsgQueue/IsrRefine.antt =====
-- The calls of msg_queue.c from interrupts do to a queue what the others do, but never wait.
use tiny_rt.Base.{
  ℕ, ◌≡◌, ◌≢◌, refl, ap, sym, ◌∙◌, ◌⊎◌, inl, inr, [], ◌∷◌, ◌++◌, length, ◌==◌, Bool-cases, false,
  true, Bool, ==→eq, ==-false→ne, if_passes,
}
use tiny_rt.Error.{Err}
use tiny_rt.Sched.Inv.{Inv}
use tiny_rt.Sched.State.{Sched, wait_head}
use tiny_rt.Task.{WaitResult}
use tiny_rt.WaitQueue.WakeAll.{wake_one_result_none}
use tiny_rt.Sched.Switch.{sched_request_from_isr}
use tiny_rt.WaitQueue.{trt_wait_q_wake_one_locked, trt_wait_q_wake_one_from_isr}
use tiny_rt.WaitQueue.Inv.{set_pending-Inv}
use tiny_rt.Kernel.{Kernel}
use tiny_rt.MsgQueue.{readers, put_back, take_out, look, msg_q_is_full_obj, msg_q_is_empty_obj}
use tiny_rt.MsgQueue.Bytes.{padded}
use tiny_rt.MsgQueue.Isr.{
  in_isr_turn, msg_q_send_from_isr_obj, msg_q_recv_from_isr_obj, msg_q_peek_from_isr_obj,
}
use tiny_rt.MsgQueue.Inv.{IsQueue, contents, WakesFirst, wake-WakesFirst}
use tiny_rt.MsgQueue.Accepts.{
  Accepts, Wakes, is_full_lem, is_empty_lem, put_back-Accepts, take_out-Accepts, look-Accepts,
}
use tiny_rt.MsgQueue.Refine.{
  IsMessage, IsBuffer, Receives, Peeks, good_message, good_buffer, nil_of_length,
}

-- The request for a switch touches no task and no list.
pending-WakesFirst :
    (s : Sched) (wq : ℕ)
    → s.lists (wait_head wq) ≢ []
    → (s1 : Sched) → WakesFirst wq s s1
    → WakesFirst wq s (sched_request_from_isr s1)
unfolding sched_request_from_isr
pending-WakesFirst s wq busy s1 (inl (q, same)) = absurd (busy q)
pending-WakesFirst s wq busy s1 (inr w) = inr w

woken_none :
    (s : Sched) (wq : ℕ) → s.lists (wait_head wq) ≡ [] → (trt_wait_q_wake_one_locked s wq).0 ≡ 0
unfolding trt_wait_q_wake_one_locked
woken_none s wq q = ap (λ r. r.0) (wake_one_result_none s wq WaitResult.object q)

request-Inv : {s : Sched} → Inv s → Inv (sched_request_from_isr s)
unfolding sched_request_from_isr
request-Inv v = set_pending-Inv v

-- `trt_wait_q_wake_one_from_isr` in an interrupt.
Wakes-from_isr : {s : Sched} → Inv s → s.in_isr ≡ true → Wakes trt_wait_q_wake_one_from_isr s
unfolding trt_wait_q_wake_one_from_isr
Wakes-from_isr {s} v isr wq nz =
    let (v1, w) = wake-WakesFirst s wq v nz in
    let r = trt_wait_q_wake_one_locked s wq in
    if_passes (λ (x : ℕ × Sched). Inv x.1 × WakesFirst wq s x.1) _ isr
      (elim (Bool-cases (r.0 == 0)) [
        | inl z ↦ rw z (v1, w)
        | inr some_task ↦ rw some_task (
          request-Inv v1,
          pending-WakesFirst s wq (λ q. ==-false→ne r.0 0 some_task (woken_none s wq q)) r.1 w,
        )
      ])

-- The outcomes of a call from an interrupt on a queue that `blocked` stops or not.
abbrev pub Answers : Kernel → Type 0 → (Kernel → Type 0) → Err × Kernel → Type 0
Answers k Stopped P r =
    ((k' : Kernel) × (r ≡ (Err.ok, k')) × P k') ⊎ (Stopped × (r ≡ (Err.busy, k)))

turn-Answers :
    (k : Kernel) (mq : ℕ) (act : Kernel → Kernel) (bad blocked : Bool) (Stopped : Type 0)
    (P : Kernel → Type 0)
    → (k.queues mq).destroyed ≡ false
    → bad ≡ false
    → (blocked ≡ true → Stopped)
    → (blocked ≡ false → P (act k))
    → Answers k Stopped P (in_isr_turn mq bad blocked act k)
unfolding in_isr_turn
turn-Answers k mq act bad true S P live good stop go = inr (stop refl, rw (good, live) refl)
turn-Answers k mq act bad false S P live good stop go = inl (act k, rw (good, live) refl, go refl)

-- In an interrupt, on a live queue, with the same conditions on the message or the buffer as for the
-- calls of tasks, but none on the running task or the lock: a send puts its message behind the
-- others, if there are not as many as the queue is long, a receive takes the first one out, a peek
-- copies it, if there is one, with the same effects on the queue, the buffer and the first waiter as
-- the calls of tasks, and answers ERR_OK. Otherwise each answers ERR_BUSY and changes nothing.
pub from_isr_lem :
    (k : Kernel) (mq message size buf : ℕ)
    → IsQueue k mq
    → (k.queues mq).destroyed ≡ false
    → k.sched.in_isr ≡ true
    → IsMessage k mq message size
    → IsBuffer k mq buf
    → let full = length (contents k mq) ≡ (k.queues mq).qlen in
      let sent = contents k mq ++ padded k.heap.bytes message size (k.queues mq).cap ∷ [] in
      Answers k full (Accepts k mq (readers mq) sent) (msg_q_send_from_isr_obj k mq message size)
      × Answers k (contents k mq ≡ []) (Receives k mq buf) (msg_q_recv_from_isr_obj k mq buf)
      × Answers k (contents k mq ≡ []) (Peeks k mq buf) (msg_q_peek_from_isr_obj k mq buf)
unfolding msg_q_send_from_isr_obj msg_q_recv_from_isr_obj msg_q_peek_from_isr_obj
from_isr_lem k mq message size buf v live isr m b =
    let wake = Wakes-from_isr v.sound isr in
    let w = trt_wait_q_wake_one_from_isr in
    let full = is_full_lem k mq v in
    let empty = is_empty_lem k mq v in
    let none_left : msg_q_is_empty_obj k mq ≡ true → contents k mq ≡ [] =
      λ e. nil_of_length (contents k mq) (==→eq (length (contents k mq)) 0 (sym empty ∙ e)) in
    let some_left : msg_q_is_empty_obj k mq ≡ false → length (contents k mq) ≢ 0 =
      λ e. ==-false→ne (length (contents k mq)) 0 (sym empty ∙ e) in
    let put = λ (e : msg_q_is_full_obj k mq ≡ false).
      put_back-Accepts w k mq message size v wake m.small m.apart
        (==-false→ne (length (contents k mq)) (k.queues mq).qlen (sym full ∙ e)) in
    (
      if_passes
          (Answers k (length (contents k mq) ≡ (k.queues mq).qlen) (Accepts k mq (readers mq) _)) _
          isr
          (turn-Answers k mq (put_back w mq message size) _ (msg_q_is_full_obj k mq) _ _ live
            (good_message k mq message size v m)
            (λ e. ==→eq (length (contents k mq)) (k.queues mq).qlen (sym full ∙ e)) put),
      if_passes (Answers k (contents k mq ≡ []) (Receives k mq buf)) _ isr (
          turn-Answers k mq (take_out w mq buf) _ (msg_q_is_empty_obj k mq) _ (Receives k mq buf)
            live (good_buffer k mq buf v b) none_left
            (λ e. take_out-Accepts w k mq buf v wake b.apart (some_left e))),
      if_passes (Answers k (contents k mq ≡ []) (Peeks k mq buf)) _ isr (
          turn-Answers k mq (look w mq buf) _ (msg_q_is_empty_obj k mq) _ (Peeks k mq buf) live
            (good_buffer k mq buf v b) none_left
            (λ e. look-Accepts w k mq buf v wake b.apart (some_left e))),
    )
