-- ===== src/MsgQueue/Ring.antt =====
-- The ring of message slots of msg_queue.c, and the messages that it holds.
use tiny_rt.Base.{
  ℕ, suc, ◌+◌, ◌-◌, ◌*◌, ◌%◌, ◌^◌, ◌≤◌, ◌<◌, ◌≡◌, ◌≢◌, inl, inr, List, arith, leb, ◌==◌,
  if◌then◌else◌,
}
use native.Mathlib.Nat.{mul-le-mul_right, mod-eq_of_lt, mod_self}
use native.Mathlib.Decide.{dec_lt}
use tiny_rt.Kernel.{MsgQ}
use tiny_rt.MsgQueue.{slot, held, msg_q_next}
use tiny_rt.MsgQueue.Bytes.{Outside, message_at, tabulate}

-- The indices are in the ring, and the ring is in the address space.
pub record IsRing (q : MsgQ) : Type 0 where
  pub words : q.qlen + 1 < 2 ^ 32
  pub head_in : q.head ≤ q.qlen
  pub tail_in : q.tail ≤ q.qlen
  pub fits : q.buf + (q.qlen + 1) * q.cap < 2 ^ 32

-- The index `m` places after `t`.
abbrev pub shift : ℕ → ℕ → ℕ → ℕ
shift qlen t m = if leb (t + m) qlen then t + m else t + m - (qlen + 1)

-- The messages, from the oldest on.
abbrev pub messages : (ℕ → ℕ) → MsgQ → List (List ℕ)
messages bytes q = tabulate (λ m. message_at bytes (slot q (shift q.qlen q.tail m)) q.cap) (held q)

pub next_lem :
    (q : MsgQ) (i : ℕ)
    → q.qlen + 1 < 2 ^ 32
    → i ≤ q.qlen
    → msg_q_next q i ≡ (if i == q.qlen then 0 else i + 1)
unfolding msg_q_next
next_lem q i words lt =
    rw (mod-eq_of_lt {n = i + 1} {m = 2 ^ 32} (omega arith), mod-eq_of_lt words)
      (elim (dec_lt i q.qlen) [
        | yes less ↦ rw (mod-eq_of_lt {n = i + 1} {m = q.qlen + 1} (omega arith)) (ground arith)
        | no more ↦ ground (arith, mod_self (q.qlen + 1))
      ])

module _ (qlen head tail : ℕ) (words : qlen + 1 < 2 ^ 32) (h : head ≤ qlen) (t : tail ≤ qlen) where
  abbrev pub between : ℕ → ℕ → ℕ
  between tail head =
      if leb tail head then head - tail else ((qlen + 1) % 2 ^ 32 + 2 ^ 32 - tail + head) % 2 ^ 32

  abbrev pub next : ℕ → ℕ
  next i = if i == qlen then 0 else i + 1

  abbrev pub prev : ℕ → ℕ
  prev i = if i == 0 then qlen else i - 1

  pub between_le : between tail head ≤ qlen
  between_le = ground arith

  pub full_lem : (next head == tail) ≡ (between tail head == qlen)
  full_lem = ground arith

  pub empty_lem : (head == tail) ≡ (between tail head == 0)
  empty_lem = ground arith

  pub between-next : between tail head ≢ qlen → between tail (next head) ≡ between tail head + 1
  between-next ne = ground arith

  pub shift-between : shift qlen tail (between tail head) ≡ head
  shift-between = ground arith

  pub between-prev : between tail head ≢ qlen → between (prev tail) head ≡ between tail head + 1
  between-prev ne = ground arith

  pub between-drop : between tail head ≢ 0 → between tail head ≡ between (next tail) head + 1
  between-drop ne = ground arith

pub shift-prev :
    (qlen t m : ℕ)
    → t ≤ qlen
    → m ≤ qlen
    → m ≢ qlen
    → shift qlen (if t == 0 then qlen else t - 1) (suc m) ≡ shift qlen t m
shift-prev qlen t m h k ne = ground arith

pub shift-next :
    (qlen t m : ℕ)
    → t ≤ qlen
    → m < qlen
    → shift qlen t (suc m) ≡ shift qlen (if t == qlen then 0 else t + 1) m
shift-next qlen t m h k = ground arith

pub shift-inj :
    (qlen t m n : ℕ) → t ≤ qlen → m ≤ qlen → n ≤ qlen → shift qlen t m ≡ shift qlen t n → m ≡ n
shift-inj qlen t m n h k l e = ground arith

pub shift-le : (qlen t m : ℕ) → t ≤ qlen → m ≤ qlen → shift qlen t m ≤ qlen
shift-le qlen t m h k = ground arith

row : (i j c : ℕ) → i < j → i * c + c ≤ j * c
row i j c lt = omega (arith, mul-le-mul_right {m = suc i} {n = j} c lt)

pub slot_lem :
    {q : MsgQ} (i : ℕ)
    → IsRing q
    → i ≤ q.qlen
    → (slot q i ≡ q.buf + i * q.cap) × (slot q i + q.cap ≤ q.buf + (q.qlen + 1) * q.cap)
slot_lem {q} i v h =
    let r = row i (q.qlen + 1) q.cap (omega arith) in
    let f = v.fits in (ground (arith, r, f), ground (arith, r, f))

-- A byte of one slot is outside every other.
pub slot-Outside :
    {q : MsgQ} (i j a : ℕ)
    → IsRing q
    → i ≤ q.qlen
    → j ≤ q.qlen
    → i ≢ j
    → slot q i ≤ a
    → a < slot q i + q.cap
    → Outside a (slot q j) q.cap
slot-Outside {q} i j a v hi hj ne low high =
    let (ei, _) = slot_lem i v hi in
    let (ej, _) = slot_lem j v hj in
    elim (dec_lt i j) [
      | yes less ↦ let r = row i j q.cap less in inl (omega arith)
      | no more ↦ let r = row j i q.cap (omega arith) in inr (omega arith)
    ]
