-- ===== src/Sched/Wake.antt =====
-- The invariant across waking, blocking and deleting a task.
use tiny_rt.Base.{
  ℕ, ◌≤◌, ◌<◌, ◌≡◌, ◌≢◌, refl, false, ◌||◌, none, some, List, [], ◌∷◌, ◌==◌, arith, inl, inr,
  Option-cases, Bool-cases, ◌∙◌, remove, count,
}
use tiny_rt.Task.{TaskState, state_eq, Task}
use tiny_rt.Sched.{
  sched_ready_enqueue, sched_ready_remove, sched_timeout_remove, sched_wake_one, sched_pop_deleted,
  sched_mark_deleted, detach, awake, doomed,
}
use tiny_rt.Sched.State.{Sched, deleted_head, unlink, is_unlinked}
use tiny_rt.Sched.Inv.{IsLinked, Inv}
use tiny_rt.Sched.Ready.{
  enqueue-Inv, modify_unlinked-Inv, modify_kept-Inv, unlink_wait-Inv, link_tail-Inv,
  ready_remove-Inv, timeout_remove-Inv,
}

-- The first task of a list is linked into it, and is not NULL.
pub head-linked :
    {k : Sched} (h t : ℕ) {ts : List ℕ}
    → IsLinked k
    → k.lists h ≡ t ∷ ts
    → ((k.tasks t).state_list ≡ some h) × (t ≢ 0)
unfolding count
head-linked {k} h t v e = ground (arith, v.linked t h, v.linked 0 h, v.null)

pub unlink-free : (k : Sched) (t : ℕ) → ((unlink k t).tasks t).state_list ≡ none
unlink-free k t = ground arith

pub timeout_remove-link :
    (k : Sched) (s t : ℕ) → ((sched_timeout_remove k s).tasks t).state_list ≡ (k.tasks t).state_list
unfolding sched_timeout_remove
timeout_remove-link k s t = ground arith

-- `sched_wake_one` keeps the invariant, on any list but a ready list.
pub wake_one-Inv : {k : Sched} (h : ℕ) → Inv k → 32 ≤ h → Inv (sched_wake_one k h).1
unfolding sched_wake_one
wake_one-Inv {k} h v ge = go (k.lists h) refl
  where
    go : (ws : List ℕ) → k.lists h ≡ ws → Inv (sched_wake_one k h).1
    go [] e = rw (e, sched_wake_one) v
    go (t ∷ ts) e =
        let link = head-linked h t v.linked e in
        let k1 = sched_timeout_remove (unlink k t) t in
        let v1 : Inv k1 = timeout_remove-Inv t (unlink_wait-Inv t h v link.0 ge) in
        let free : (k1.tasks t).state_list ≡ none =
          timeout_remove-link (unlink k t) t t ∙ unlink-free k t in
        rw (e, sched_wake_one)
          (enqueue-Inv t (modify_unlinked-Inv t awake v1 free free refl) (ground arith))

abbrev off_master : Task → Task
off_master task = record task { master_list = false }

pub pop_deleted-Inv : {k : Sched} → Inv k → Inv (sched_pop_deleted k).1
unfolding sched_pop_deleted
pop_deleted-Inv {k} v = go (k.lists deleted_head) refl
  where
    master-Inv : {q : Sched} (l : List ℕ) → Inv q → Inv (record q { master_task_list = l })
    master-Inv l w = record {
      linked = record { linked = w.linked.linked; null = w.linked.null; timed = w.linked.timed };
      placed = record { fits = w.placed.fits };
      masked = record { small = w.masked.small; bits = w.masked.bits };
    }

    go : (ws : List ℕ) → k.lists deleted_head ≡ ws → Inv (sched_pop_deleted k).1
    go [] e = rw (e, sched_pop_deleted) v
    go (t ∷ ts) e =
        let link = head-linked deleted_head t v.linked e in
        let v1 : Inv (unlink k t) = unlink_wait-Inv t deleted_head v link.0 (omega arith) in
        rw (e, sched_pop_deleted)
          (master-Inv _ (modify_kept-Inv t off_master v1 refl refl refl refl))

detach-Inv : {k : Sched} (t : ℕ) → Inv k → Inv (detach k t)
unfolding detach
detach-Inv {k} t v = elim (Option-cases (k.tasks t).state_list) [
  | inl e ↦ rw (e, is_unlinked) v
  | inr (h, e) ↦
      rw (e, is_unlinked)
        (elim (Bool-cases (state_eq (k.tasks t).state TaskState.ready)) [
          | inl r ↦ rw r (ready_remove-Inv t v (ground arith))
          | inr r ↦ rw r (unlink_wait-Inv t h v e (ground (arith, v.placed.fits t h)))
        ])
]

detach-free : {k : Sched} (t : ℕ) → Inv k → ((detach k t).tasks t).state_list ≡ none
unfolding detach sched_ready_remove
detach-free {k} t v = elim (Option-cases (k.tasks t).state_list) [
  | inl e ↦ ground arith
  | inr (h, e) ↦ ground (arith, v.placed.fits t h, v.linked.null)
]

-- `sched_mark_deleted` keeps the invariant: the task is in the list of the deleted tasks alone.
pub mark_deleted-Inv : {k : Sched} (t : ℕ) → Inv k → Inv (sched_mark_deleted k t)
unfolding sched_mark_deleted
mark_deleted-Inv {k} t v =
    elim (Bool-cases
      (t == 0 || (t == k.idle_task || state_eq (k.tasks t).state TaskState.deleted))) [
        | inl bad ↦ rw bad v
        | inr good ↦
            let k2 = sched_timeout_remove (detach k t) t in
            let v2 : Inv k2 = timeout_remove-Inv t (detach-Inv t v) in
            let free : (k2.tasks t).state_list ≡ none =
              timeout_remove-link (detach k t) t t ∙ detach-free t v in
            rw good (
              link_tail-Inv t deleted_head (modify_unlinked-Inv t doomed v2 free free refl)
                (ground arith) (ground arith) (omega arith) (ground arith))
      ]

-- What `sched_wake_one` does to a list of waiters that is not empty: the first task is taken off,
-- is ready and no longer waits for a timeout; it is in the ready list of its priority, if it has a
-- valid one. No other task and no other list of waiters changes.
pub wake_one_lem :
    (k : Sched) (h t : ℕ) (ts : List ℕ)
    → Inv k
    → deleted_head < h
    → k.lists h ≡ t ∷ ts
    → let (s, k') = sched_wake_one k h in
      (s ≡ t)
      × (k'.lists h ≡ ts)
      × ((k'.tasks t).state ≡ TaskState.ready)
      × ((k'.tasks t).waiting_on_timer ≡ false)
      × ((k.tasks t).priority ≤ 31 → (k'.tasks t).state_list ≡ some (k.tasks t).priority)
      × ((u : ℕ) → u ≢ t → k'.tasks u ≡ k.tasks u)
      × ((g : ℕ) → g ≢ h → deleted_head < g → k'.lists g ≡ k.lists g)
unfolding sched_wake_one sched_timeout_remove sched_ready_enqueue remove
wake_one_lem k h t ts v gt e =
    let (link, nz) = head-linked h t v.linked e in
    (
      ground arith,
      ground arith,
      ground arith,
      ground arith,
      ground arith,
      λ u ne. ground arith,
      λ g ne low. ground arith,
    )

pub wake_one_none : (k : Sched) (h : ℕ) → k.lists h ≡ [] → sched_wake_one k h ≡ (0, k)
unfolding sched_wake_one
wake_one_none k h e = rw (e, sched_wake_one)

pub wake_one-current :
    (k : Sched) (h : ℕ)
    → ((sched_wake_one k h).1.current_task ≡ k.current_task)
      × ((sched_wake_one k h).1.idle_task ≡ k.idle_task)
unfolding sched_wake_one sched_timeout_remove sched_ready_enqueue
wake_one-current k h = ground arith
