-- ===== src/MsgQueue/Accepts.antt =====
-- What the calls of msg_queue.c do to a queue that has room, or a message, for them.
use tiny_rt.Base.{
  ℕ, ◌+◌, ◌-◌, ◌*◌, ◌^◌, ◌≤◌, ◌<◌, ◌≡◌, ◌≢◌, refl, ap, ◌∙◌, sym, inl, inr, List, [], ◌∷◌, ◌++◌,
  length, arith, ◌==◌, if◌then◌else◌, ne→==-false,
}
use tiny_rt.Sched.Inv.{Inv}
use tiny_rt.Sched.State.{Sched, update}
use tiny_rt.Kernel.{Kernel, MsgQ}
use tiny_rt.MsgQueue.{
  readers, writers, slot, held, msg_q_next, msg_q_copy, store, put_back, put_front, take_out, look,
  msg_q_is_full_obj, msg_q_is_empty_obj,
}
use tiny_rt.MsgQueue.Bytes.{
  message_at, padded, store-message, store-Outside, copy-message, copy-Outside, length-tabulate,
  Apart,
}
use tiny_rt.MsgQueue.Ring.{IsRing, messages, shift, next_lem, full_lem, empty_lem}
use tiny_rt.MsgQueue.Contents.{messages-back, messages-front, messages-drop, messages-ext}
use tiny_rt.MsgQueue.Inv.{IsQueue, contents, IsApart, Apart-slot, WakesFirst}

-- A function that wakes the first waiter of a queue.
abbrev pub Wakes : (Sched → ℕ → ℕ × Sched) → Sched → Type 0
Wakes wake s = (wq : ℕ) → wq ≢ 0 → Inv (wake s wq).1 × WakesFirst wq s (wake s wq).1

-- The outcome of a call that goes on: the queue holds `ms`, the first waiter of `wq` is woken, and
-- the queue keeps its storage and its bounds.
pub record Accepts (k : Kernel) (mq wq : ℕ) (ms : List (List ℕ)) (k' : Kernel) : Type 0 where
  pub queue : IsQueue k' mq
  pub holds : contents k' mq ≡ ms
  pub wakes : WakesFirst wq k.sched k'.sched
  pub shape :
      k'.queues mq ≡ record (k.queues mq) { head = (k'.queues mq).head; tail = (k'.queues mq).tail }
  pub others : (o : ℕ) → o ≢ mq → k'.queues o ≡ k.queues o

pub length-contents : (k : Kernel) (mq : ℕ) → length (contents k mq) ≡ held (k.queues mq)
length-contents k mq =
    let q = k.queues mq in
    length-tabulate (λ m. message_at k.heap.bytes (slot q (shift q.qlen q.tail m)) q.cap) (held q)

pub is_full_lem :
    (k : Kernel) (mq : ℕ)
    → IsQueue k mq
    → msg_q_is_full_obj k mq ≡ (length (contents k mq) == (k.queues mq).qlen)
unfolding msg_q_is_full_obj
is_full_lem k mq v =
    let q = k.queues mq in
    rw
      (ne→==-false mq 0 v.real, length-contents k mq, next_lem q q.head v.ring.words v.ring.head_in)
      (full_lem q.qlen q.head q.tail v.ring.words v.ring.head_in v.ring.tail_in)

pub is_empty_lem :
    (k : Kernel) (mq : ℕ) → IsQueue k mq → msg_q_is_empty_obj k mq ≡ (length (contents k mq) == 0)
unfolding msg_q_is_empty_obj
is_empty_lem k mq v =
    let q = k.queues mq in
    rw (ne→==-false mq 0 v.real, length-contents k mq)
      (empty_lem q.qlen q.head q.tail v.ring.words v.ring.head_in v.ring.tail_in)

next_in : (q : MsgQ) (i : ℕ) → q.qlen + 1 < 2 ^ 32 → i ≤ q.qlen → msg_q_next q i ≤ q.qlen
next_in q i words h = ground (arith, next_lem q i words h)

pub put_back-Accepts :
    (wake : Sched → ℕ → ℕ × Sched) (k : Kernel) (mq message n : ℕ)
    → IsQueue k mq
    → Wakes wake k.sched
    → n ≤ (k.queues mq).cap
    → IsApart (k.queues mq) message n
    → length (contents k mq) ≢ (k.queues mq).qlen
    → Accepts k mq
        (readers mq)
        (contents k mq ++ padded k.heap.bytes message n (k.queues mq).cap ∷ [])
        (put_back wake mq message n k)
unfolding put_back
put_back-Accepts wake k mq message n v wk small apart room =
    let q = k.queues mq in
    let r = v.ring in
    let b = store k.heap.bytes q q.head message n in
    let next = next_in q q.head r.words r.head_in in
    let (sound, wakes) = wk (readers mq) (omega arith) in
    let own : update k.queues mq (record q { head = msg_q_next q q.head }) mq
        ≡ record q { head = msg_q_next q q.head } =
      ground arith in
    record {
      queue = record {
        sound = sound;
        real = v.real;
        ring =
            rw own (record { words = r.words; head_in = next; tail_in = r.tail_in; fits = r.fits });
      };
      holds = rw own (
          messages-back k.heap.bytes b q (padded k.heap.bytes message n q.cap) r
            (λ e. room (length-contents k mq ∙ e))
            (store-message k.heap.bytes q q.head message n small
              (Apart-slot q.head message n r r.head_in apart))
            (λ a out. store-Outside k.heap.bytes q q.head message n a small out));
      wakes = wakes;
      shape = rw own refl;
      others = λ o ne. ground arith;
    }

pub put_front-Accepts :
    (wake : Sched → ℕ → ℕ × Sched) (k : Kernel) (mq message n : ℕ)
    → IsQueue k mq
    → Wakes wake k.sched
    → n ≤ (k.queues mq).cap
    → IsApart (k.queues mq) message n
    → length (contents k mq) ≢ (k.queues mq).qlen
    → Accepts k mq
        (readers mq)
        (padded k.heap.bytes message n (k.queues mq).cap ∷ contents k mq)
        (put_front wake mq message n k)
unfolding put_front
put_front-Accepts wake k mq message n v wk small apart room =
    let q = k.queues mq in
    let r = v.ring in
    let t = if q.tail == 0 then q.qlen else q.tail - 1 in
    let b = store k.heap.bytes q t message n in
    let t_in : t ≤ q.qlen = ground (arith, r.tail_in) in
    let (sound, wakes) = wk (readers mq) (omega arith) in
    let own : update k.queues mq (record q { tail = t }) mq ≡ record q { tail = t } =
      ground arith in
    record {
      queue = record {
        sound = sound;
        real = v.real;
        ring =
            rw own (record { words = r.words; head_in = r.head_in; tail_in = t_in; fits = r.fits });
      };
      holds = rw own (
          messages-front k.heap.bytes b q (padded k.heap.bytes message n q.cap) r
            (λ e. room (length-contents k mq ∙ e))
            (store-message k.heap.bytes q t message n small (Apart-slot t message n r t_in apart))
            (λ a out. store-Outside k.heap.bytes q t message n a small out));
      wakes = wakes;
      shape = rw own refl;
      others = λ o ne. ground arith;
    }

Apart-swap : (p m o n : ℕ) → Apart p m o n → Apart o n p m
Apart-swap p m o n (inl l) = inr l
Apart-swap p m o n (inr l) = inl l

-- The copy of the oldest message, with the messages as they were.
copy_oldest :
    (k : Kernel) (mq buf : ℕ)
    → IsQueue k mq
    → IsApart (k.queues mq) buf (k.queues mq).cap
    → let q = k.queues mq in
      let b = msg_q_copy k.heap.bytes buf (slot q q.tail) q.cap in
      (message_at b buf q.cap ≡ message_at k.heap.bytes (slot q q.tail) q.cap)
      × ((a : ℕ) → q.buf ≤ a → a < q.buf + (q.qlen + 1) * q.cap → b a ≡ k.heap.bytes a)
copy_oldest k mq buf v apart =
    let q = k.queues mq in
    (
      copy-message k.heap.bytes buf (slot q q.tail) q.cap (
          Apart-swap (slot q q.tail) q.cap buf q.cap
            (Apart-slot q.tail buf q.cap v.ring v.ring.tail_in apart)),
      λ a low high.
          copy-Outside k.heap.bytes buf (slot q q.tail) q.cap a
            (elim apart [ inl l ↦ inl (omega arith) | inr r ↦ inr (omega arith) ]),
    )

-- A message is received if it is what the buffer holds afterwards.
abbrev pub received : Kernel → ℕ → ℕ → List ℕ
received k buf n = message_at k.heap.bytes buf n

pub take_out-Accepts :
    (wake : Sched → ℕ → ℕ × Sched) (k : Kernel) (mq buf : ℕ)
    → IsQueue k mq
    → Wakes wake k.sched
    → IsApart (k.queues mq) buf (k.queues mq).cap
    → length (contents k mq) ≢ 0
    → let k' = take_out wake mq buf k in
      (ms : List (List ℕ)) × (contents k mq ≡ received k' buf (k.queues mq).cap ∷ ms)
      × Accepts k mq (writers mq) ms k'
unfolding take_out
take_out-Accepts wake k mq buf v wk apart some_left =
    let q = k.queues mq in
    let r = v.ring in
    let b = msg_q_copy k.heap.bytes buf (slot q q.tail) q.cap in
    let q' = record q { tail = msg_q_next q q.tail } in
    let (copied, same) = copy_oldest k mq buf v apart in
    let (sound, wakes) = wk (writers mq) (omega arith) in
    let own : update k.queues mq q' mq ≡ q' = ground arith in
    let r' : IsRing q' = record {
      words = r.words;
      head_in = r.head_in;
      tail_in = next_in q q.tail r.words r.tail_in;
      fits = r.fits;
    } in
    (
      messages k.heap.bytes q',
      messages-drop k.heap.bytes q r (λ e. some_left (length-contents k mq ∙ e))
          ∙ ap (λ m. m ∷ messages k.heap.bytes q') (sym copied),
      record {
        queue = record { sound = sound; real = v.real; ring = rw own r' };
        holds = rw own (messages-ext k.heap.bytes b q' r' same);
        wakes = wakes;
        shape = rw own refl;
        others = λ o ne. ground arith;
      },
    )

pub look-Accepts :
    (wake : Sched → ℕ → ℕ × Sched) (k : Kernel) (mq buf : ℕ)
    → IsQueue k mq
    → Wakes wake k.sched
    → IsApart (k.queues mq) buf (k.queues mq).cap
    → length (contents k mq) ≢ 0
    → let k' = look wake mq buf k in
      ((ms : List (List ℕ)) × (contents k mq ≡ received k' buf (k.queues mq).cap ∷ ms))
      × Accepts k mq (readers mq) (contents k mq) k'
unfolding look
look-Accepts wake k mq buf v wk apart some_left =
    let q = k.queues mq in
    let r = v.ring in
    let b = msg_q_copy k.heap.bytes buf (slot q q.tail) q.cap in
    let (copied, same) = copy_oldest k mq buf v apart in
    let (sound, wakes) = wk (readers mq) (omega arith) in
    let ms = messages k.heap.bytes (record q { tail = msg_q_next q q.tail }) in
    (
      (
        ms,
        messages-drop k.heap.bytes q r (λ e. some_left (length-contents k mq ∙ e))
            ∙ ap (λ m. m ∷ ms) (sym copied),
      ),
      record {
        queue = record { sound = sound; real = v.real; ring = r };
        holds = messages-ext k.heap.bytes b q r same;
        wakes = wakes;
        shape = refl;
        others = λ o ne. refl;
      },
    )
