-- ===== src/MsgQueue/Contents.antt =====
-- What the calls of msg_queue.c make of the messages of a ring.
use tiny_rt.Base.{
  ℕ, suc, ◌+◌, ◌-◌, ◌*◌, ◌≤◌, ◌<◌, ◌≡◌, ◌≢◌, ap, ap₂, ◌∙◌, sym, List, [], ◌∷◌, ◌++◌, arith, ◌==◌,
  if◌then◌else◌,
}
use tiny_rt.Kernel.{MsgQ}
use tiny_rt.MsgQueue.{slot, held, msg_q_next}
use tiny_rt.MsgQueue.Bytes.{
  Outside, message_at, message-ext, tabulate, tabulate-ext, tabulate-eq, tabulate-snoc,
}
use tiny_rt.MsgQueue.Ring.{
  IsRing, shift, messages, next_lem, between_le, between-next, between-prev, between-drop,
  shift-between, shift-prev, shift-next, shift-inj, shift-le, slot_lem, slot-Outside,
}

-- Messages at places that no write has touched.
kept :
    (bytes bytes' : ℕ → ℕ) (q : MsgQ) (i j : ℕ)
    → IsRing q
    → i ≤ q.qlen
    → j ≤ q.qlen
    → i ≢ j
    → ((a : ℕ) → Outside a (slot q j) q.cap → bytes' a ≡ bytes a)
    → message_at bytes' (slot q i) q.cap ≡ message_at bytes (slot q i) q.cap
kept bytes bytes' q i j v hi hj ne out =
    message-ext bytes bytes' (slot q i) q.cap
      (λ a low high. out a (slot-Outside i j a v hi hj ne low high))

pub messages-back :
    (bytes bytes' : ℕ → ℕ) (q : MsgQ) (m : List ℕ)
    → IsRing q
    → held q ≢ q.qlen
    → message_at bytes' (slot q q.head) q.cap ≡ m
    → ((a : ℕ) → Outside a (slot q q.head) q.cap → bytes' a ≡ bytes a)
    → messages bytes' (record q { head = msg_q_next q q.head }) ≡ messages bytes q ++ m ∷ []
messages-back bytes bytes' q m v ne new out =
    let n = held q in
    let at = between_le q.qlen q.head q.tail v.words v.head_in v.tail_in in
    let last = shift-between q.qlen q.head q.tail v.words v.head_in v.tail_in in
    let f : ℕ → List ℕ = λ i. message_at bytes' (slot q (shift q.qlen q.tail i)) q.cap in
    let g : ℕ → List ℕ = λ i. message_at bytes (slot q (shift q.qlen q.tail i)) q.cap in
    let count : held (record q { head = msg_q_next q q.head }) ≡ n + 1 =
      ap (λ h. held (record q { head = h })) (next_lem q q.head v.words v.head_in)
      ∙ between-next q.qlen q.head q.tail v.words v.head_in v.tail_in ne in
    let old : tabulate f n ≡ tabulate g n = tabulate-ext f g n (λ i lt.
      kept bytes bytes' q (shift q.qlen q.tail i) q.head v
        (shift-le q.qlen q.tail i v.tail_in (omega arith)) v.head_in
        (λ e.
          absurd
            (omega (arith, shift-inj q.qlen q.tail i n v.tail_in (omega arith) at (e ∙ sym last))))
        out) in
    tabulate-eq f (held (record q { head = msg_q_next q q.head })) (suc n) (omega (arith, count))
    ∙ tabulate-snoc f n
    ∙ ap₂ ◌++◌ old (ap (λ x. x ∷ []) (ap (λ i. message_at bytes' (slot q i) q.cap) last ∙ new))

pub messages-front :
    (bytes bytes' : ℕ → ℕ) (q : MsgQ) (m : List ℕ)
    → IsRing q
    → held q ≢ q.qlen
    → let t = if q.tail == 0 then q.qlen else q.tail - 1 in
      message_at bytes' (slot q t) q.cap ≡ m
      → ((a : ℕ) → Outside a (slot q t) q.cap → bytes' a ≡ bytes a)
      → messages bytes' (record q { tail = t }) ≡ m ∷ messages bytes q
messages-front bytes bytes' q m v ne new out =
    let n = held q in
    let t = if q.tail == 0 then q.qlen else q.tail - 1 in
    let at = between_le q.qlen q.head q.tail v.words v.head_in v.tail_in in
    let t_in : t ≤ q.qlen = ground (arith, v.tail_in) in
    let f : ℕ → List ℕ = λ i. message_at bytes' (slot q (shift q.qlen t i)) q.cap in
    let g : ℕ → List ℕ = λ i. message_at bytes (slot q (shift q.qlen q.tail i)) q.cap in
    let count = between-prev q.qlen q.head q.tail v.words v.head_in v.tail_in ne in
    let first : shift q.qlen t 0 ≡ t = ground (arith, t_in) in
    let old : tabulate (λ i. f (suc i)) n ≡ tabulate g n =
      tabulate-ext (λ i. f (suc i)) g n
        (λ i lt.
          let e = shift-prev q.qlen q.tail i v.tail_in (omega arith) (omega arith) in
          ap (λ j. message_at bytes' (slot q j) q.cap) e
          ∙ kept bytes bytes' q (shift q.qlen q.tail i) t v
              (shift-le q.qlen q.tail i v.tail_in (omega arith)) t_in
              (λ d. absurd (
                omega (
                  arith,
                  shift-inj q.qlen t (suc i) 0 t_in (omega arith) (omega arith) (e ∙ d ∙ sym first),
                )))
              out) in
    tabulate-eq f (held (record q { tail = t })) (suc n) (omega (arith, count))
    ∙ ap₂ ◌∷◌ (ap (λ i. message_at bytes' (slot q i) q.cap) first ∙ new) old

pub messages-drop :
    (bytes : ℕ → ℕ) (q : MsgQ)
    → IsRing q
    → held q ≢ 0
    → messages bytes q
      ≡ message_at bytes (slot q q.tail) q.cap
        ∷ messages bytes (record q { tail = msg_q_next q q.tail })
messages-drop bytes q v ne =
    let t = if q.tail == q.qlen then 0 else q.tail + 1 in
    let n = held (record q { tail = t }) in
    let at = between_le q.qlen q.head q.tail v.words v.head_in v.tail_in in
    let t_in : t ≤ q.qlen = ground (arith, v.tail_in) in
    let f : ℕ → List ℕ = λ i. message_at bytes (slot q (shift q.qlen q.tail i)) q.cap in
    let g : ℕ → List ℕ = λ i. message_at bytes (slot q (shift q.qlen t i)) q.cap in
    let count = between-drop q.qlen q.head q.tail v.words v.head_in v.tail_in ne in
    let first : shift q.qlen q.tail 0 ≡ q.tail = ground (arith, v.tail_in) in
    let rest : tabulate (λ i. f (suc i)) n ≡ tabulate g n =
      tabulate-ext (λ i. f (suc i)) g n
        (λ i lt.
          ap (λ j. message_at bytes (slot q j) q.cap)
            (shift-next q.qlen q.tail i v.tail_in (omega arith))) in
    tabulate-eq f (held q) (suc n) (omega (arith, count))
    ∙ ap₂ ◌∷◌ (ap (λ i. message_at bytes (slot q i) q.cap) first) (
        rest
        ∙ ap (λ i. messages bytes (record q { tail = i }))
            (sym (next_lem q q.tail v.words v.tail_in)))

-- The messages do not depend on the bytes outside the ring.
pub messages-ext :
    (bytes bytes' : ℕ → ℕ) (q : MsgQ)
    → IsRing q
    → ((a : ℕ) → q.buf ≤ a → a < q.buf + (q.qlen + 1) * q.cap → bytes' a ≡ bytes a)
    → messages bytes' q ≡ messages bytes q
messages-ext bytes bytes' q v out =
    let at = between_le q.qlen q.head q.tail v.words v.head_in v.tail_in in
    let f : ℕ → List ℕ = λ i. message_at bytes' (slot q (shift q.qlen q.tail i)) q.cap in
    let g : ℕ → List ℕ = λ i. message_at bytes (slot q (shift q.qlen q.tail i)) q.cap in
    tabulate-ext f g (held q) (λ i lt.
      let (e, last) =
        slot_lem (shift q.qlen q.tail i) v (shift-le q.qlen q.tail i v.tail_in (omega arith)) in
      message-ext bytes bytes' (slot q (shift q.qlen q.tail i)) q.cap
        (λ a low high. out a (omega arith) (omega arith)))
