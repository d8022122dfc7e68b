-- ===== src/MsgQueue/Refine.antt =====
-- The calls of msg_queue.c that may block behave as on a bounded double-ended queue of messages.
use tiny_rt.Base.{
  ℕ, ◌≤◌, ◌≡◌, ◌≢◌, refl, ◌∙◌, sym, ◌⊎◌, inl, inr, List, [], ◌∷◌, ◌++◌, length, arith, ◌==◌,
  Bool-cases, Option, some, false, ==→eq, ==-false→ne, ne→==-false,
}
use tiny_rt.Error.{Err}
use tiny_rt.WaitQueue.{Reply, done, trt_wait_q_wake_one_locked}
use tiny_rt.Kernel.{Kernel}
use tiny_rt.MsgQueue.{
  readers, writers, put_back, put_front, take_out, look, msg_q_is_full_obj, msg_q_is_empty_obj,
  msg_q_count_obj, bad_message, bad_buffer,
}
use tiny_rt.MsgQueue.Bytes.{padded}
use tiny_rt.MsgQueue.Ring.{between_le}
use tiny_rt.MsgQueue.Calls.{
  turn, msg_q_loop, msg_q_send_obj, msg_q_send_front_obj, msg_q_recv_obj, msg_q_peek_obj,
}
use tiny_rt.MsgQueue.Inv.{
  IsQueue, contents, IsApart, Declines, IsCaller, wake-WakesFirst, ready_lem, declines_lem,
}
use tiny_rt.MsgQueue.Accepts.{
  Accepts, Wakes, length-contents, is_full_lem, is_empty_lem, put_back-Accepts, put_front-Accepts,
  take_out-Accepts, look-Accepts, received,
}

-- A message that can be sent.
pub record IsMessage (k : Kernel) (mq message size : ℕ) : Type 0 where
  pub real : message ≢ 0
  pub some_size : size ≢ 0
  pub small : size ≤ (k.queues mq).cap
  pub apart : IsApart (k.queues mq) message size

-- A buffer that a message can be copied to.
pub record IsBuffer (k : Kernel) (mq buf : ℕ) : Type 0 where
  pub real : buf ≢ 0
  pub apart : IsApart (k.queues mq) buf (k.queues mq).cap

-- The two outcomes of a call that puts a message into the queue, which then holds `ms`.
abbrev pub Puts : Kernel → ℕ → ℕ → List (List ℕ) → Option (Reply × Kernel) → Type 0
Puts k mq us ms r =
    ((length (contents k mq) ≢ (k.queues mq).qlen)
      × ((k' : Kernel) × (r ≡ some (done Err.ok, k')) × Accepts k mq (readers mq) ms k'))
    ⊎ ((length (contents k mq) ≡ (k.queues mq).qlen) × Declines k (writers mq) us r)

pub good_message :
    (k : Kernel) (mq message size : ℕ)
    → IsQueue k mq
    → IsMessage k mq message size
    → bad_message k mq message size ≡ false
good_message k mq message size v m = ground (arith, v.real, m.real, m.some_size, m.small)

pub good_buffer :
    (k : Kernel) (mq buf : ℕ) → IsQueue k mq → IsBuffer k mq buf → bad_buffer mq buf ≡ false
good_buffer k mq buf v b = ground (arith, v.real, b.real)

Wakes-locked : {k : Kernel} {mq : ℕ} → IsQueue k mq → Wakes trt_wait_q_wake_one_locked k.sched
Wakes-locked {k} v wq nz = wake-WakesFirst k.sched wq v.sound nz

pub nil_of_length : (xs : List (List ℕ)) → length xs ≡ 0 → xs ≡ []
nil_of_length [] e = refl
nil_of_length (x ∷ xs) e = absurd (omega arith)

puts_lem :
    (k : Kernel) (mq us : ℕ) (act : Kernel → Kernel) (ms : List (List ℕ))
    → IsQueue k mq
    → (k.queues mq).destroyed ≡ false
    → IsCaller k (writers mq) us
    → (length (contents k mq) ≢ (k.queues mq).qlen → Accepts k mq (readers mq) ms (act k))
    → Puts k mq us ms (msg_q_loop 1 (turn mq (λ x. msg_q_is_full_obj x mq) act (writers mq) us) k)
puts_lem k mq us act ms v live c go =
    let full = λ (x : Kernel). msg_q_is_full_obj x mq in
    let full_lem = is_full_lem k mq v in
    elim (Bool-cases (length (contents k mq) == (k.queues mq).qlen)) [
      | inl e ↦ inr (
        ==→eq (length (contents k mq)) (k.queues mq).qlen e,
        declines_lem mq full act (writers mq) us k live (full_lem ∙ e) v.sound (omega arith) c,
      )
      | inr ne ↦
          let room = ==-false→ne (length (contents k mq)) (k.queues mq).qlen ne in
          inl (room, (act k, ready_lem mq full act (writers mq) us k live (full_lem ∙ ne), go room))
    ]

-- The two outcomes of a call for a message, of which the kernel afterwards satisfies `P`.
abbrev pub Gets : Kernel → ℕ → ℕ → (Kernel → Type 0) → Option (Reply × Kernel) → Type 0
Gets k mq us P r =
    ((k' : Kernel) × (r ≡ some (done Err.ok, k')) × P k')
    ⊎ ((contents k mq ≡ []) × Declines k (readers mq) us r)

gets_lem :
    (k : Kernel) (mq us : ℕ) (act : Kernel → Kernel) (P : Kernel → Type 0)
    → IsQueue k mq
    → (k.queues mq).destroyed ≡ false
    → IsCaller k (readers mq) us
    → (length (contents k mq) ≢ 0 → P (act k))
    → Gets k mq us P (msg_q_loop 1 (turn mq (λ x. msg_q_is_empty_obj x mq) act (readers mq) us) k)
gets_lem k mq us act P v live c go =
    let empty = λ (x : Kernel). msg_q_is_empty_obj x mq in
    let empty_lem = is_empty_lem k mq v in
    elim (Bool-cases (length (contents k mq) == 0)) [
      | inl e ↦ inr (
        nil_of_length (contents k mq) (==→eq (length (contents k mq)) 0 e),
        declines_lem mq empty act (readers mq) us k live (empty_lem ∙ e) v.sound (omega arith) c,
      )
      | inr ne ↦
          let some_left = ==-false→ne (length (contents k mq)) 0 ne in
          inl (act k, ready_lem mq empty act (readers mq) us k live (empty_lem ∙ ne), go some_left)
    ]

-- `msg_q_send_obj` on a live queue with a message apart from the queue's storage, by the running
-- task. If the queue does not hold as many messages as its length, the call answers ERR_OK at once;
-- the message, with zeros up to the capacity, is behind the others, which are as they were, and the
-- first waiting reader is woken. If it does, nothing is written: without a timeout the call answers
-- ERR_BUSY, while the scheduler is locked ERR_LOCKED, and otherwise the task waits at its place
-- among the writers. A timeout within a millisecond of 2 ^ 64 microseconds, but not for ever, is
-- left out.
pub send_lem :
    (k : Kernel) (mq message size us : ℕ)
    → IsQueue k mq
    → (k.queues mq).destroyed ≡ false
    → IsMessage k mq message size
    → IsCaller k (writers mq) us
    → Puts k mq us
        (contents k mq ++ padded k.heap.bytes message size (k.queues mq).cap ∷ [])
        (msg_q_send_obj k mq message size us)
unfolding msg_q_send_obj
send_lem k mq message size us v live m c = rw (good_message k mq message size v m) (
    puts_lem k mq us (put_back trt_wait_q_wake_one_locked mq message size) _ v live c (
      put_back-Accepts trt_wait_q_wake_one_locked k mq message size v (Wakes-locked v) m.small
        m.apart))

-- `msg_q_send_front_obj` under the same conditions and with the same outcomes as `msg_q_send_obj`,
-- but the message is in front of the others.
pub send_front_lem :
    (k : Kernel) (mq message size us : ℕ)
    → IsQueue k mq
    → (k.queues mq).destroyed ≡ false
    → IsMessage k mq message size
    → IsCaller k (writers mq) us
    → Puts k mq us
        (padded k.heap.bytes message size (k.queues mq).cap ∷ contents k mq)
        (msg_q_send_front_obj k mq message size us)
unfolding msg_q_send_front_obj
send_front_lem k mq message size us v live m c = rw (good_message k mq message size v m) (
    puts_lem k mq us (put_front trt_wait_q_wake_one_locked mq message size) _ v live c (
      put_front-Accepts trt_wait_q_wake_one_locked k mq message size v (Wakes-locked v) m.small
        m.apart))

-- The buffer holds the first message, and the queue the others, or all of them.
abbrev pub Receives : Kernel → ℕ → ℕ → Kernel → Type 0
Receives k mq buf k' =
    (ms : List (List ℕ)) × (contents k mq ≡ received k' buf (k.queues mq).cap ∷ ms)
    × Accepts k mq (writers mq) ms k'

abbrev pub Peeks : Kernel → ℕ → ℕ → Kernel → Type 0
Peeks k mq buf k' =
    ((ms : List (List ℕ)) × (contents k mq ≡ received k' buf (k.queues mq).cap ∷ ms))
    × Accepts k mq (readers mq) (contents k mq) k'

-- `msg_q_recv_obj` on a live queue, by the running task, into a buffer apart from the queue's
-- storage. If the queue holds a message, the call answers ERR_OK at once; the buffer holds the first
-- message, the queue the others, and the first waiting writer is woken. If it holds none, nothing is
-- written: without a timeout the call answers ERR_BUSY, while the scheduler is locked ERR_LOCKED,
-- and otherwise the task waits at its place among the readers. A timeout within a millisecond of
-- 2 ^ 64 microseconds, but not for ever, is left out.
pub recv_lem :
    (k : Kernel) (mq buf us : ℕ)
    → IsQueue k mq
    → (k.queues mq).destroyed ≡ false
    → IsBuffer k mq buf
    → IsCaller k (readers mq) us
    → Gets k mq us (Receives k mq buf) (msg_q_recv_obj k mq buf us)
unfolding msg_q_recv_obj
recv_lem k mq buf us v live b c = rw (good_buffer k mq buf v b) (
    gets_lem k mq us (take_out trt_wait_q_wake_one_locked mq buf) (Receives k mq buf) v live c
      (take_out-Accepts trt_wait_q_wake_one_locked k mq buf v (Wakes-locked v) b.apart))

-- `msg_q_peek_obj` under the same conditions as `msg_q_recv_obj`: the buffer holds the first message,
-- and so does the queue, which has not changed; the first waiting reader is woken. Without a message
-- the outcomes are those of `msg_q_recv_obj`.
pub peek_lem :
    (k : Kernel) (mq buf us : ℕ)
    → IsQueue k mq
    → (k.queues mq).destroyed ≡ false
    → IsBuffer k mq buf
    → IsCaller k (readers mq) us
    → Gets k mq us (Peeks k mq buf) (msg_q_peek_obj k mq buf us)
unfolding msg_q_peek_obj
peek_lem k mq buf us v live b c = rw (good_buffer k mq buf v b) (
    gets_lem k mq us (look trt_wait_q_wake_one_locked mq buf) (Peeks k mq buf) v live c
      (look-Accepts trt_wait_q_wake_one_locked k mq buf v (Wakes-locked v) b.apart))

-- `msg_q_count_obj` counts the messages, of which there are at most as many as the queue is long;
-- `msg_q_is_full_obj` is true exactly if there are as many, `msg_q_is_empty_obj` if there is none.
pub count_lem :
    (k : Kernel) (mq : ℕ)
    → IsQueue k mq
    → let n = length (contents k mq) in
      (msg_q_count_obj k mq ≡ n)
      × (n ≤ (k.queues mq).qlen)
      × (msg_q_is_full_obj k mq ≡ (n == (k.queues mq).qlen))
      × (msg_q_is_empty_obj k mq ≡ (n == 0))
unfolding msg_q_count_obj
count_lem k mq v =
    let q = k.queues mq in
    let n = length-contents k mq in
    let most = between_le q.qlen q.head q.tail v.ring.words v.ring.head_in v.ring.tail_in in
    (
      rw (ne→==-false mq 0 v.real) (sym n),
      omega (arith, n, most),
      is_full_lem k mq v,
      is_empty_lem k mq v,
    )
