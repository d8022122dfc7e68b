-- ===== src/MsgQueue/Bytes.antt =====
-- The bytes of the messages of msg_queue.c: what the loops of `msg_q_zero` and `msg_q_copy` write.
use tiny_rt.Base.{
  ℕ, zero, suc, ◌+◌, ◌-◌, ◌≤◌, ◌<◌, ◌≡◌, ◌≢◌, refl, ap, ap₂, ◌∙◌, ◌⊎◌, inl, inr, List, [], ◌∷◌,
  ◌++◌, length, replicate, arith,
}
use tiny_rt.Sched.State.{update}
use native.Mathlib.Decide.{dec_lt}
use tiny_rt.Kernel.{MsgQ}
use tiny_rt.MsgQueue.{msg_q_zero, msg_q_copy, slot, store}

-- The first `n` values of a function.
abbrev pub tabulate {ℓ} : {A : Type ℓ} → (ℕ → A) → ℕ → List A
tabulate f zero = []
tabulate f (suc n) = f 0 ∷ tabulate (λ i. f (suc i)) n

pub tabulate-snoc {ℓ} :
    {A : Type ℓ} (f : ℕ → A) (n : ℕ) → tabulate f (suc n) ≡ tabulate f n ++ f n ∷ []
tabulate-snoc f zero = refl
tabulate-snoc f (suc n) = ap (λ xs. f 0 ∷ xs) (tabulate-snoc (λ i. f (suc i)) n)

pub tabulate-ext {ℓ} :
    {A : Type ℓ} (f g : ℕ → A) (n : ℕ) → ((i : ℕ) → i < n → f i ≡ g i) → tabulate f n ≡ tabulate g n
tabulate-ext f g zero e = refl
tabulate-ext f g (suc n) e =
    ap₂ ◌∷◌ (e 0 (omega arith))
      (tabulate-ext (λ i. f (suc i)) (λ i. g (suc i)) n (λ i lt. e (suc i) (omega arith)))

pub tabulate-eq {ℓ} : {A : Type ℓ} (f : ℕ → A) (m n : ℕ) → m ≡ n → tabulate f m ≡ tabulate f n
tabulate-eq f m n e = ap (λ j. tabulate f j) e

pub tabulate-add {ℓ} :
    {A : Type ℓ} (f : ℕ → A) (m n : ℕ)
    → tabulate f (m + n) ≡ tabulate f m ++ tabulate (λ i. f (m + i)) n
tabulate-add f zero n = tabulate-eq f (0 + n) n (omega arith) ∙ shift_zero
  where
    shift_zero : tabulate f n ≡ tabulate (λ i. f (0 + i)) n
    shift_zero = tabulate-ext f (λ i. f (0 + i)) n (λ i lt. ap f (omega arith))
tabulate-add f (suc m) n =
    tabulate-eq f (suc m + n) (suc (m + n)) (omega arith)
    ∙ ap (λ xs. f 0 ∷ xs)
        (tabulate-add (λ i. f (suc i)) m n
          ∙ ap (λ ys. tabulate (λ i. f (suc i)) m ++ ys)
              (tabulate-ext (λ i. f (suc (m + i))) (λ i. f (suc m + i)) n
                (λ i lt. ap f (omega arith))))

tabulate-const {ℓ} :
    {A : Type ℓ} (f : ℕ → A) (n : ℕ) (a : A)
    → ((i : ℕ) → i < n → f i ≡ a)
    → tabulate f n ≡ replicate n a
tabulate-const f zero a e = refl
tabulate-const f (suc n) a e =
    ap₂ ◌∷◌ (e 0 (omega arith))
      (tabulate-const (λ i. f (suc i)) n a (λ i lt. e (suc i) (omega arith)))

pub length-tabulate {ℓ} : {A : Type ℓ} (f : ℕ → A) (n : ℕ) → length (tabulate f n) ≡ n
length-tabulate f zero = refl
length-tabulate f (suc n) = ap suc (length-tabulate (λ i. f (suc i)) n)

-- The `n` bytes from an address on.
abbrev pub message_at : (ℕ → ℕ) → ℕ → ℕ → List ℕ
message_at bytes p n = tabulate (λ i. bytes (p + i)) n

-- What the queue makes of a message of `n` bytes: zeros behind it, up to the capacity.
abbrev pub padded : (ℕ → ℕ) → ℕ → ℕ → ℕ → List ℕ
padded bytes p n cap = message_at bytes p n ++ replicate (cap - n) 0

-- Two regions that have no byte in common.
abbrev pub Apart : ℕ → ℕ → ℕ → ℕ → Type 0
Apart p m q n = (p + m ≤ q) ⊎ (q + n ≤ p)

-- An address outside a region.
abbrev pub Outside : ℕ → ℕ → ℕ → Type 0
Outside a p n = (a < p) ⊎ (p + n ≤ a)

update-ne : (f : ℕ → ℕ) (i v j : ℕ) → i ≢ j → update f i v j ≡ f j
update-ne f i v j ne = ground arith

update-eq : (f : ℕ → ℕ) (i v j : ℕ) → i ≡ j → update f i v j ≡ v
update-eq f i v j e = ground arith

pub zero-Outside : (bytes : ℕ → ℕ) (p n a : ℕ) → Outside a p n → msg_q_zero bytes p n a ≡ bytes a
unfolding msg_q_zero
zero-Outside bytes p zero a out = refl
zero-Outside bytes p (suc n) a out =
    update-ne (msg_q_zero bytes p n) (p + n) 0 a
      (elim out [ inl l ↦ omega arith | inr r ↦ omega arith ])
    ∙ zero-Outside bytes p n a (elim out [ inl l ↦ inl l | inr r ↦ inr (omega arith) ])

pub zero-inside : (bytes : ℕ → ℕ) (p n i : ℕ) → i < n → msg_q_zero bytes p n (p + i) ≡ 0
unfolding msg_q_zero
zero-inside bytes p zero i lt = absurd (omega arith)
zero-inside bytes p (suc n) i lt = elim (dec_lt i n) [
  | no e ↦ update-eq (msg_q_zero bytes p n) (p + n) 0 (p + i) (omega arith)
  | yes less ↦
      update-ne (msg_q_zero bytes p n) (p + n) 0 (p + i) (omega arith)
      ∙ zero-inside bytes p n i (omega arith)
]

pub copy-Outside :
    (bytes : ℕ → ℕ) (p q n a : ℕ) → Outside a p n → msg_q_copy bytes p q n a ≡ bytes a
unfolding msg_q_copy
copy-Outside bytes p q zero a out = refl
copy-Outside bytes p q (suc n) a out =
    update-ne (msg_q_copy bytes p q n) (p + n) (msg_q_copy bytes p q n (q + n)) a
      (elim out [ inl l ↦ omega arith | inr r ↦ omega arith ])
    ∙ copy-Outside bytes p q n a (elim out [ inl l ↦ inl l | inr r ↦ inr (omega arith) ])

-- Copied byte for byte, a region apart from the one it is read from is its copy.
pub copy-inside :
    (bytes : ℕ → ℕ) (p q n i : ℕ)
    → Apart p n q n
    → i < n
    → msg_q_copy bytes p q n (p + i) ≡ bytes (q + i)
unfolding msg_q_copy
copy-inside bytes p q zero i apart lt = absurd (omega arith)
copy-inside bytes p q (suc n) i apart lt = elim (dec_lt i n) [
  | no e ↦
      update-eq (msg_q_copy bytes p q n) (p + n) (msg_q_copy bytes p q n (q + n)) (p + i)
        (omega arith)
      ∙ copy-Outside bytes p q n (q + n)
          (elim apart [ inl l ↦ inr (omega arith) | inr r ↦ inl (omega arith) ])
      ∙ ap bytes (omega arith)
  | yes less ↦
      update-ne (msg_q_copy bytes p q n) (p + n) (msg_q_copy bytes p q n (q + n)) (p + i)
        (omega arith)
      ∙ copy-inside bytes p q n i
          (elim apart [ inl l ↦ inl (omega arith) | inr r ↦ inr (omega arith) ]) (omega arith)
]

-- A message of `n` bytes that is stored apart from its slot fills the slot, padded.
pub store-message :
    (bytes : ℕ → ℕ) (q : MsgQ) (index message n : ℕ)
    → n ≤ q.cap
    → Apart (slot q index) q.cap message n
    → message_at (store bytes q index message n) (slot q index) q.cap ≡ padded bytes message n q.cap
unfolding store
store-message bytes q index message n small apart =
    let p = slot q index in
    let zeroed = msg_q_zero bytes p q.cap in
    let b = store bytes q index message n in
    let start : (i : ℕ) → i < n → b (p + i) ≡ bytes (message + i) = λ i lt.
      copy-inside zeroed p message n i (elim apart [ inl l ↦ inl (omega arith) | inr r ↦ inr r ]) lt
      ∙ zero-Outside bytes p q.cap (message + i)
          (elim apart [ inl l ↦ inr (omega arith) | inr r ↦ inl (omega arith) ]) in
    let end : (i : ℕ) → i < q.cap - n → b (p + (n + i)) ≡ 0 = λ i lt.
      copy-Outside zeroed p message n (p + (n + i)) (inr (omega arith))
      ∙ zero-inside bytes p q.cap (n + i) (omega arith) in
    tabulate-eq (λ i. b (p + i)) q.cap (n + (q.cap - n)) (omega arith)
    ∙ tabulate-add (λ i. b (p + i)) n (q.cap - n)
    ∙ ap₂ ◌++◌ (tabulate-ext (λ i. b (p + i)) (λ i. bytes (message + i)) n start)
        (tabulate-const (λ i. b (p + (n + i))) (q.cap - n) 0 end)

pub store-Outside :
    (bytes : ℕ → ℕ) (q : MsgQ) (index message n a : ℕ)
    → n ≤ q.cap
    → Outside a (slot q index) q.cap
    → store bytes q index message n a ≡ bytes a
unfolding store
store-Outside bytes q index message n a small out =
    copy-Outside (msg_q_zero bytes (slot q index) q.cap) (slot q index) message n a
      (elim out [ inl l ↦ inl l | inr r ↦ inr (omega arith) ])
    ∙ zero-Outside bytes (slot q index) q.cap a out

pub copy-message :
    (bytes : ℕ → ℕ) (p q n : ℕ)
    → Apart p n q n
    → message_at (msg_q_copy bytes p q n) p n ≡ message_at bytes q n
copy-message bytes p q n apart =
    tabulate-ext (λ i. msg_q_copy bytes p q n (p + i)) (λ i. bytes (q + i)) n
      (λ i lt. copy-inside bytes p q n i apart lt)

-- A message that no write has touched.
pub message-ext :
    (bytes bytes' : ℕ → ℕ) (p n : ℕ)
    → ((a : ℕ) → p ≤ a → a < p + n → bytes' a ≡ bytes a)
    → message_at bytes' p n ≡ message_at bytes p n
message-ext bytes bytes' p n e =
    tabulate-ext (λ i. bytes' (p + i)) (λ i. bytes (p + i)) n
      (λ i lt. e (p + i) (omega arith) (omega arith))
