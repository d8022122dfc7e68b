-- ===== src/Sched/Ready.antt =====
-- The invariant across the operations on the ready lists.
use tiny_rt.Base.{
  ℕ, ◌^◌, ◌≤◌, ◌<◌, ◌≡◌, ◌≢◌, refl, not, ◌||◌, none, some, ◌==◌, ltb, arith, inl, inr, Option-cases,
  Bool-cases, is_empty, sym, ◌∙◌, count-remove, bit_or,
}
use tiny_rt.Task.{TaskState, state_eq, Task}
use tiny_rt.Sched.{cleared, sched_ready_enqueue, sched_ready_remove, sched_timeout_remove}
use tiny_rt.Sched.State.{Sched, priority_max, modify, link_tail, unlink, is_unlinked}
use tiny_rt.Sched.Inv.{
  IsLinked, IsPlaced, Fits, Inv, link_tail-IsLinked, unlink-IsLinked, modify-IsLinked,
  mask-IsLinked,
}
use tiny_rt.Sched.Mask.{
  IsMasked-of_eq, enqueue-IsMasked, cleared-IsMasked, unlink-IsMaskedBut, unlink-IsMasked,
  link_tail-IsMasked,
}

pub link_tail-IsPlaced :
    {k : Sched} (t h : ℕ) → IsPlaced k → Fits (k.tasks t) h → IsPlaced (link_tail k t h)
link_tail-IsPlaced {k} t h v f = record { fits = λ s g e. ground (arith, v.fits s g) }

pub unlink-IsPlaced : {k : Sched} (t : ℕ) → IsPlaced k → IsPlaced (unlink k t)
unlink-IsPlaced {k} t v = elim (Option-cases (k.tasks t).state_list) [
  | inl e ↦ rw (e, unlink) v
  | inr (h, e) ↦ rw (e, unlink) (record { fits = λ s g d. ground (arith, v.fits s g) })
]

pub mask-IsPlaced : {k : Sched} (m : ℕ) → IsPlaced k → IsPlaced (record k { mask = m })
mask-IsPlaced m v = record { fits = v.fits }

-- The branches of `sched_ready_enqueue`.
enqueue_cases {ℓ} :
    (P : Sched → Type ℓ) (k : Sched) (t : ℕ)
    → P k
    → (t ≢ 0
        → (k.tasks t).priority ≤ 31
        → (k.tasks t).state_list ≡ none
        → P (record (link_tail k t (k.tasks t).priority) {
          mask = bit_or k.mask (2 ^ (k.tasks t).priority);
        }))
    → P (sched_ready_enqueue k t)
unfolding sched_ready_enqueue
enqueue_cases P k t kept joined =
    elim (Bool-cases (
      t == 0
      || (ltb priority_max (k.tasks t).priority || state_eq (k.tasks t).state TaskState.deleted))) [
        | inl bad ↦ rw bad kept
        | inr good ↦ rw good (elim (Option-cases (k.tasks t).state_list) [
          | inr (h, e) ↦ rw (e, is_unlinked) kept
          | inl e ↦ rw (e, is_unlinked) (joined (ground arith) (ground arith) e)
        ])
      ]

-- `sched_ready_enqueue` of a ready task keeps the invariant.
pub enqueue-Inv :
    {k : Sched} (t : ℕ)
    → Inv k
    → (k.tasks t).state ≡ TaskState.ready
    → Inv (sched_ready_enqueue k t)
enqueue-Inv {k} t v r = enqueue_cases Inv k t v λ nz le free. record {
  linked = mask-IsLinked _ (link_tail-IsLinked t (k.tasks t).priority v.linked nz free);
  placed = mask-IsPlaced _ (link_tail-IsPlaced t (k.tasks t).priority v.placed (ground arith));
  masked = enqueue-IsMasked t (k.tasks t).priority v.masked (omega arith);
}

-- A task in no list may change its state.
pub modify_unlinked-Inv :
    {k : Sched} (t : ℕ) (f : Task → Task)
    → Inv k
    → (k.tasks t).state_list ≡ none
    → (f (k.tasks t)).state_list ≡ none
    → (f (k.tasks t)).timeout_list ≡ (k.tasks t).timeout_list
    → Inv (modify k t f)
modify_unlinked-Inv {k} t f v e d w = record {
  linked = modify-IsLinked t f v.linked (d ∙ sym e) w;
  placed = record { fits = λ s g q. ground (arith, v.placed.fits s g) };
  masked = IsMasked-of_eq v.masked refl (λ p lt. refl);
}

-- Any task may change what the lists do not depend on.
pub modify_kept-Inv :
    {k : Sched} (t : ℕ) (f : Task → Task)
    → Inv k
    → (f (k.tasks t)).state_list ≡ (k.tasks t).state_list
    → (f (k.tasks t)).timeout_list ≡ (k.tasks t).timeout_list
    → (f (k.tasks t)).state ≡ (k.tasks t).state
    → (f (k.tasks t)).priority ≡ (k.tasks t).priority
    → Inv (modify k t f)
modify_kept-Inv {k} t f v e d st pr = record {
  linked = modify-IsLinked t f v.linked e d;
  placed = record { fits = λ s g q. ground (arith, v.placed.fits s g, v.placed.fits t g) };
  masked = IsMasked-of_eq v.masked refl (λ p lt. refl);
}

pub unlink_wait-Inv :
    {k : Sched} (t h : ℕ) → Inv k → (k.tasks t).state_list ≡ some h → 32 ≤ h → Inv (unlink k t)
unlink_wait-Inv {k} t h v e ge = record {
  linked = unlink-IsLinked t v.linked;
  placed = unlink-IsPlaced t v.placed;
  masked = unlink-IsMasked t h v.masked e ge;
}

pub link_tail-Inv :
    {k : Sched} (t h : ℕ)
    → Inv k
    → t ≢ 0
    → (k.tasks t).state_list ≡ none
    → 32 ≤ h
    → Fits (k.tasks t) h
    → Inv (link_tail k t h)
link_tail-Inv {k} t h v nz e ge f = record {
  linked = link_tail-IsLinked t h v.linked nz e;
  placed = link_tail-IsPlaced t h v.placed f;
  masked = link_tail-IsMasked t h v.masked ge;
}

cleared-IsLinked : {k : Sched} (p : ℕ) → IsLinked k → IsLinked (cleared k p)
cleared-IsLinked {k} p v = elim (Bool-cases (is_empty (k.lists p))) [
  | inl e ↦ rw e (mask-IsLinked _ v)
  | inr e ↦ rw e v
]

cleared-IsPlaced : {k : Sched} (p : ℕ) → IsPlaced k → IsPlaced (cleared k p)
cleared-IsPlaced {k} p v = elim (Bool-cases (is_empty (k.lists p))) [
  | inl e ↦ rw e (mask-IsPlaced _ v)
  | inr e ↦ rw e v
]

-- A task leaves its ready list, and the mask follows.
pub unlink_ready-Inv :
    {k : Sched} (t p : ℕ)
    → Inv k
    → (k.tasks t).state_list ≡ some p
    → p < 32
    → Inv (cleared (unlink k t) p)
unlink_ready-Inv {k} t p v e lt = record {
  linked = cleared-IsLinked p (unlink-IsLinked t v.linked);
  placed = cleared-IsPlaced p (unlink-IsPlaced t v.placed);
  masked = cleared-IsMasked p lt (unlink-IsMaskedBut t p v e lt);
}

-- Where a task can be by its state.
pub running-unlinked :
    {k : Sched} (t : ℕ)
    → Inv k
    → (k.tasks t).state ≡ TaskState.running
    → (k.tasks t).state_list ≡ none
running-unlinked {k} t v r = elim (Option-cases (k.tasks t).state_list) [
  | inl e ↦ e
  | inr (h, e) ↦ absurd (ground (arith, v.placed.fits t h))
]

pub ready-place :
    {k : Sched} (t h : ℕ)
    → Inv k
    → (k.tasks t).state ≡ TaskState.ready
    → (k.tasks t).state_list ≡ some h
    → (h ≤ 31) × ((k.tasks t).priority ≡ h)
ready-place {k} t h v r e = ground (arith, v.placed.fits t h)

pub ready_remove-Inv :
    {k : Sched} (t : ℕ) → Inv k → (k.tasks t).state ≡ TaskState.ready → Inv (sched_ready_remove k t)
unfolding sched_ready_remove
ready_remove-Inv {k} t v r = elim (Bool-cases (t == 0 || ltb priority_max (k.tasks t).priority)) [
  | inl bad ↦ rw bad v
  | inr good ↦ rw good (elim (Option-cases (k.tasks t).state_list) [
    | inl e ↦ rw (e, is_unlinked) v
    | inr (h, e) ↦
        let (le, own) = ready-place t h v r e in
        rw (e, is_unlinked) (unlink_ready-Inv t (k.tasks t).priority v (rw own e) (omega arith))
  ])
]

pub timeout_remove-Inv : {k : Sched} (t : ℕ) → Inv k → Inv (sched_timeout_remove k t)
unfolding sched_timeout_remove
timeout_remove-Inv {k} t v = elim (Bool-cases (t == 0 || not (k.tasks t).timeout_list)) [
  | inl bad ↦ rw bad v
  | inr good ↦ rw good (record {
    linked = record {
      linked = λ s g. ground (arith, v.linked.linked s g);
      null = ground (arith, v.linked.null);
      timed = λ s. ground (arith, v.linked.timed s, count-remove s t k.timeout_task_list);
    };
    placed = record { fits = λ s g q. ground (arith, v.placed.fits s g) };
    masked = IsMasked-of_eq v.masked refl (λ p lt. refl);
  })
]
