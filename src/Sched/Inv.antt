-- ===== src/Sched/Inv.antt =====
-- The invariant of the scheduler's lists.
use tiny_rt.Base.{
  ℕ, ◌^◌, ◌≤◌, ◌<◌, ◌≡◌, ◌≢◌, Bool, true, false, not, Option, none, some, [], ◌∷◌, arith, inl, inr,
  Option-cases, is_empty, same, count, count-append, count-remove,
}
use tiny_rt.Base.Bits.{test_bit}
use tiny_rt.Task.{TaskState, Task}
use tiny_rt.Sched.State.{Sched, deleted_head, modify, link_tail, unlink}

-- How often a task linked so stands in the list of the head `h`.
abbrev pub at : Option ℕ → ℕ → ℕ
at none h = 0
at (some g) h = same g h

abbrev pub flag : Bool → ℕ
flag true = 1
flag false = 0

-- A node is in the one list that it is linked into, once; the null task in none.
pub record IsLinked (k : Sched) : Type 0 where
  pub linked : (t h : ℕ) → count t (k.lists h) ≡ at (k.tasks t).state_list h
  pub null : (k.tasks 0).state_list ≡ none
  pub timed : (t : ℕ) → count t k.timeout_task_list ≡ flag (k.tasks t).timeout_list

-- A task in a list has the state that goes with it: ready at its own priority, deleted or blocked.
abbrev pub Fits : Task → ℕ → Type 0
Fits task h =
    (h ≤ 31 → (task.state ≡ TaskState.ready) × (task.priority ≡ h))
    × (h ≡ deleted_head → task.state ≡ TaskState.deleted)
    × (deleted_head < h → task.state ≡ TaskState.blocked)

pub record IsPlaced (k : Sched) : Type 0 where
  pub fits : (t h : ℕ) → (k.tasks t).state_list ≡ some h → Fits (k.tasks t) h

-- The mask has the bits of the ready lists that are not empty.
pub record IsMasked (k : Sched) : Type 0 where
  pub small : k.mask < 2 ^ 32
  pub bits : (p : ℕ) → p < 32 → test_bit k.mask p ≡ not (is_empty (k.lists p))

pub record Inv (k : Sched) : Type 0 where
  pub linked : IsLinked k
  pub placed : IsPlaced k
  pub masked : IsMasked k

pub link_tail-IsLinked :
    {k : Sched} (t h : ℕ)
    → IsLinked k
    → t ≢ 0
    → (k.tasks t).state_list ≡ none
    → IsLinked (link_tail k t h)
unfolding count
link_tail-IsLinked {k} t h v nz free = record {
  linked = λ s g. ground (arith, v.linked s g, count-append s (k.lists h) (t ∷ []));
  null = ground (arith, v.null);
  timed = λ s. ground (arith, v.timed s);
}

pub unlink-IsLinked : {k : Sched} (t : ℕ) → IsLinked k → IsLinked (unlink k t)
unlink-IsLinked {k} t v = elim (Option-cases (k.tasks t).state_list) [
  | inl e ↦ rw (e, unlink) v
  | inr (h, e) ↦
      rw (e, unlink)
        (record {
          linked = λ s g. ground (arith, v.linked s g, v.linked t g, count-remove s t (k.lists h));
          null = ground (arith, v.null);
          timed = λ s. ground (arith, v.timed s);
        })
]

-- A change of a task that leaves its links alone.
pub modify-IsLinked :
    {k : Sched} (t : ℕ) (f : Task → Task)
    → IsLinked k
    → (f (k.tasks t)).state_list ≡ (k.tasks t).state_list
    → (f (k.tasks t)).timeout_list ≡ (k.tasks t).timeout_list
    → IsLinked (modify k t f)
modify-IsLinked {k} t f v e d = record {
  linked = λ s g. ground (arith, v.linked s g);
  null = ground (arith, v.null);
  timed = λ s. ground (arith, v.timed s);
}

pub not-empty_of_link :
    {k : Sched} (t h : ℕ)
    → IsLinked k
    → (k.tasks t).state_list ≡ some h
    → is_empty (k.lists h) ≡ false
unfolding count
not-empty_of_link {k} t h v e = ground (arith, v.linked t h)

-- The mask is no part of the links.
pub mask-IsLinked : {k : Sched} (m : ℕ) → IsLinked k → IsLinked (record k { mask = m })
mask-IsLinked m v = record { linked = v.linked; null = v.null; timed = v.timed }

-- Nor does the invariant read anything but the lists, the tasks and the mask.
pub Inv-of_eq :
    {k k' : Sched}
    → Inv k
    → k'.lists ≡ k.lists
    → k'.tasks ≡ k.tasks
    → k'.mask ≡ k.mask
    → k'.timeout_task_list ≡ k.timeout_task_list
    → Inv k'
Inv-of_eq {k} {k'} v el et em eq = record {
  linked = record {
    linked = λ t h. rw (el, et) (v.linked.linked t h);
    null = rw et v.linked.null;
    timed = λ t. rw (eq, et) (v.linked.timed t);
  };
  placed = record { fits = λ t h e. rw et (v.placed.fits t h (rw et at e)) };
  masked = record { small = rw em v.masked.small; bits = λ p lt. rw (em, el) (v.masked.bits p lt) };
}
