-- ===== src/MsgQueue.antt =====
-- src/kernel/msg_queue.c: the ring of message slots, and the creation and destruction of a queue. A
-- pointer to a message is an address of the heap's bytes. The calls that may block are in
-- MsgQueue/Calls.antt, those from interrupts in MsgQueue/Isr.antt.
pub mod Calls
pub mod Isr
pub mod Tests
pub mod Destroy
pub mod IsrRefine
pub mod Ring
pub mod Refine
pub mod Accepts
pub mod Inv
pub mod Loop
pub mod Settle
pub mod Contents
pub mod Bytes
use tiny_rt.Base.{
  ℕ, zero, suc, ◌+◌, ◌-◌, ◌*◌, ◌%◌, ◌^◌, Bool, true, false, not, ◌||◌, ◌==◌, ltb, leb,
  if◌then◌else◌, Option, none, some,
}
use tiny_rt.Error.{Err, Res, val, err}
use tiny_rt.Task.{WaitResult}
use tiny_rt.Sched.State.{Sched, update}
use tiny_rt.Sched.Switch.{sched_is_locked, sched_set_pending, task_yield}
use tiny_rt.Handle.{
  Table, ObjType, right_read, right_write, right_destroy, trt_handle_alloc, trt_handle_lookup,
  trt_handle_close,
}
use tiny_rt.Heap.{calloc, free}
use tiny_rt.Time.{forever_us}
use tiny_rt.WaitQueue.{
  Reply, done, waits, result_of, trt_wait_q_init, trt_wait_q_block_locked,
  trt_wait_q_block_timeout_locked, trt_wait_q_wake_one_locked, trt_wait_q_wake_all_result_locked,
}
use tiny_rt.Kernel.{Kernel, MsgQ}

-- The addresses of the members `readers` and `writers`, and the size of the struct.
abbrev pub readers : ℕ → ℕ
readers mq = mq + 24

abbrev pub writers : ℕ → ℕ
writers mq = mq + 32

abbrev pub queue_size : ℕ
queue_size = 40

abbrev pub queue_rights : ℕ
queue_rights = right_read + right_write + right_destroy

abbrev pub set_queue : Kernel → ℕ → MsgQ → Kernel
set_queue k mq q = record k { queues = update k.queues mq q }

abbrev pub set_bytes : Kernel → (ℕ → ℕ) → Kernel
set_bytes k bytes = record k { heap = record k.heap { bytes = bytes } }

unfoldable pub msg_q_lookup : Kernel → ℕ → ℕ → Res ℕ × Kernel
msg_q_lookup k handle rights =
    let (r, t) = trt_handle_lookup k.handles handle ObjType.msg_q rights 1 in
    (r, record k { handles = t })

unfoldable pub msg_q_next : MsgQ → ℕ → ℕ
msg_q_next q index = (index + 1) % 2 ^ 32 % ((q.qlen + 1) % 2 ^ 32)

-- The loops write one byte after the other.
unfoldable pub msg_q_zero : (ℕ → ℕ) → ℕ → ℕ → ℕ → ℕ
msg_q_zero bytes dst zero = bytes
msg_q_zero bytes dst (suc size) = update (msg_q_zero bytes dst size) (dst + size) 0

unfoldable pub msg_q_copy : (ℕ → ℕ) → ℕ → ℕ → ℕ → ℕ → ℕ
msg_q_copy bytes dst src zero = bytes
msg_q_copy bytes dst src (suc size) =
    let b = msg_q_copy bytes dst src size in update b (dst + size) (b (src + size))

-- A queue is its address, 0 for NULL.
unfoldable pub msg_q_is_full_obj : Kernel → ℕ → Bool
unfolding msg_q_next
msg_q_is_full_obj k mq =
    let q = k.queues mq in if mq == 0 then false else msg_q_next q q.head == q.tail

unfoldable pub msg_q_is_empty_obj : Kernel → ℕ → Bool
msg_q_is_empty_obj k mq = let q = k.queues mq in if mq == 0 then true else q.head == q.tail

-- `count` of `msg_q_count_obj`, from a queue's fields.
abbrev pub held : MsgQ → ℕ
held q =
    if leb q.tail q.head
    then q.head - q.tail
    else ((q.qlen + 1) % 2 ^ 32 + 2 ^ 32 - q.tail + q.head) % 2 ^ 32

unfoldable pub msg_q_count_obj : Kernel → ℕ → ℕ
msg_q_count_obj k mq = if mq == 0 then 0 else held (k.queues mq)

-- The address of a slot.
abbrev pub slot : MsgQ → ℕ → ℕ
slot q index = (q.buf + index * q.cap) % 2 ^ 32

-- What a call does to a queue that has room, or a message, for it. `wake` is the wait queues' function
-- for the caller's context.
unfoldable pub store : (ℕ → ℕ) → MsgQ → ℕ → ℕ → ℕ → ℕ → ℕ
unfolding msg_q_zero msg_q_copy
store bytes q index message size =
    msg_q_copy (msg_q_zero bytes (slot q index) q.cap) (slot q index) message size

unfoldable pub put_back : (Sched → ℕ → ℕ × Sched) → ℕ → ℕ → ℕ → Kernel → Kernel
unfolding store msg_q_next
put_back wake mq message size k =
    let q = k.queues mq in
    let k1 = set_bytes k (store k.heap.bytes q q.head message size) in
    record (set_queue k1 mq (record q { head = msg_q_next q q.head })) {
      sched = (wake k.sched (readers mq)).1;
    }

unfoldable pub put_front : (Sched → ℕ → ℕ × Sched) → ℕ → ℕ → ℕ → Kernel → Kernel
unfolding store
put_front wake mq message size k =
    let q = k.queues mq in
    let tail = if q.tail == 0 then q.qlen else q.tail - 1 in
    let k1 = set_bytes k (store k.heap.bytes q tail message size) in
    record (set_queue k1 mq (record q { tail = tail })) { sched = (wake k.sched (readers mq)).1 }

unfoldable pub take_out : (Sched → ℕ → ℕ × Sched) → ℕ → ℕ → Kernel → Kernel
unfolding msg_q_copy msg_q_next
take_out wake mq buf k =
    let q = k.queues mq in
    let k1 = set_bytes k (msg_q_copy k.heap.bytes buf (slot q q.tail) q.cap) in
    record (set_queue k1 mq (record q { tail = msg_q_next q q.tail })) {
      sched = (wake k.sched (writers mq)).1;
    }

unfoldable pub look : (Sched → ℕ → ℕ × Sched) → ℕ → ℕ → Kernel → Kernel
unfolding msg_q_copy
look wake mq buf k =
    let q = k.queues mq in
    record (set_bytes k (msg_q_copy k.heap.bytes buf (slot q q.tail) q.cap)) {
      sched = (wake k.sched (readers mq)).1;
    }

-- The guards on the arguments.
abbrev pub bad_message : Kernel → ℕ → ℕ → ℕ → Bool
bad_message k mq message size =
    (mq == 0) || ((message == 0) || ((size == 0) || ltb (k.queues mq).cap size))

abbrev pub bad_buffer : ℕ → ℕ → Bool
bad_buffer mq buf = (mq == 0) || (buf == 0)

-- `none` stands for what `free` makes of a pointer that is no block's, and `calloc` of a size that wraps.
unfoldable pub msg_q_create_obj : Kernel → ℕ → ℕ → Option (ℕ × Kernel)
unfolding calloc free trt_wait_q_init
msg_q_create_obj k cap qlen =
    if (cap == 0) || (qlen == 0) then some (0, k) else elim (calloc k.heap 1 queue_size) [
      | none ↦ none
      | some (mq, u) ↦
          if mq == 0
          then some (0, record k { heap = u })
          else elim (calloc u ((qlen + 1) % 2 ^ 32) cap) [
            | none ↦ none
            | some (buf, w) ↦
                if buf == 0
                then elim (free w mq) [ none ↦ none | some x ↦ some (0, record k { heap = x }) ]
                else some (
                  mq,
                  record (set_queue k mq (record {
                    buf = buf;
                    cap = cap;
                    qlen = qlen;
                    head = 0;
                    tail = 0;
                    destroyed = false;
                  })) {
                    heap = w;
                    sched = trt_wait_q_init (trt_wait_q_init k.sched (readers mq)) (writers mq);
                  },
                )
          ]
    ]

-- `free(mq->buf)` and `free(mq)`.
unfoldable pub free_queue : Kernel → ℕ → Option Kernel
unfolding free
free_queue k mq = elim (free k.heap (k.queues mq).buf) [
  | none ↦ none
  | some u ↦ elim (free u mq) [ none ↦ none | some w ↦ some (record k { heap = w }) ]
]

-- The end of `trt_msg_q_create`, after `trt_handle_alloc` has answered.
unfoldable pub queue_granted : ℕ → Kernel → Res ℕ × Table → Option (ℕ × Kernel)
unfolding free_queue
queue_granted mq k (val h, t) = some (h, record k { handles = t })
queue_granted mq k (err e, t) = elim (free_queue (record k { handles = t }) mq) [
  | none ↦ none
  | some k1 ↦ some (0, k1)
]

-- The result 0 is TRT_HANDLE_INVALID.
unfoldable pub trt_msg_q_create : Kernel → ℕ → ℕ → Option (ℕ × Kernel)
unfolding msg_q_create_obj queue_granted
trt_msg_q_create k cap qlen = elim (msg_q_create_obj k cap qlen) [
  | none ↦ none
  | some (mq, k1) ↦
      if mq == 0
      then some (0, k1)
      else queue_granted mq k1 (trt_handle_alloc k1.handles mq ObjType.msg_q queue_rights 1)
]

-- With the number of tasks that it wakes, as a C `int`.
unfoldable pub msg_q_destroy_obj : Kernel → ℕ → (Err × ℕ) × Kernel
unfolding trt_wait_q_wake_all_result_locked
msg_q_destroy_obj k mq =
    if mq == 0
    then ((Err.inval, 0), k)
    else if (k.queues mq).destroyed
    then ((Err.state, 0), k)
    else let (n, s) = trt_wait_q_wake_all_result_locked k.sched (readers mq) WaitResult.destroyed in
      let (m, s1) = trt_wait_q_wake_all_result_locked s (writers mq) WaitResult.destroyed in
      (
        (Err.ok, n + m),
        record (set_queue k mq (record (k.queues mq) { destroyed = true })) { sched = s1 },
      )

-- The end of `trt_msg_q_destroy`. The reply says whether a trap follows.
unfoldable pub queue_discarded : ℕ → ℕ → (Err × ℕ) × Kernel → Option (Reply × Kernel)
unfolding free_queue trt_handle_close task_yield
queue_discarded handle mq ((Err.ok, woken), k) =
    let (_, t) = trt_handle_close k.handles handle in
    elim (free_queue (record k { handles = t }) mq) [
      | none ↦ none
      | some k1 ↦
          if woken == 0
          then some (done Err.ok, k1)
          else let (sched, trapped) = task_yield k1.sched in
            some (if trapped then waits else done Err.ok, record k1 { sched = sched })
    ]
queue_discarded handle mq ((e, woken), k) = some (done e, k)

unfoldable pub trt_msg_q_destroy : Kernel → ℕ → Option (Reply × Kernel)
unfolding msg_q_lookup msg_q_destroy_obj queue_discarded
trt_msg_q_destroy k handle =
    if k.sched.in_isr
    then some (done Err.state, k)
    else let (r, k1) = msg_q_lookup k handle right_destroy in
      elim r [
        | err e ↦ some (done e, k1)
        | val mq ↦ queue_discarded handle mq (msg_q_destroy_obj k1 mq)
      ]
