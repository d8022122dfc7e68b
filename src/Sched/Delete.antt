-- ===== src/Sched/Delete.antt =====
-- What `sched_mark_deleted` and `sched_pop_deleted` of src/kernel/sched.c do to the tasks.
use tiny_rt.Base.{
  ◌∙◌, ℕ, ◌≡◌, ◌≢◌, refl, inl, inr, false, some, none, arith, ◌==◌, ◌||◌, List, [], ◌∷◌, ◌++◌,
  Option-cases, remove,
}
use tiny_rt.Task.{TaskState, state_eq}
use tiny_rt.Sched.{
  sched_ready_remove, sched_timeout_remove, sched_mark_deleted, sched_pop_deleted, detach,
}
use tiny_rt.Sched.Inv.{Inv}
use tiny_rt.Sched.Wake.{head-linked}
use tiny_rt.Sched.State.{Sched, deleted_head}

detach-rest :
    (k : Sched) (t : ℕ)
    → Inv k
    → (k.tasks t).state ≢ TaskState.deleted
    → let k' = detach k t in
      (k'.lists deleted_head ≡ k.lists deleted_head)
      × ((u : ℕ) → u ≢ t → k'.tasks u ≡ k.tasks u)
      × ((k'.tasks t).stack_base ≡ (k.tasks t).stack_base)
unfolding detach sched_ready_remove
detach-rest k t v live = elim (Option-cases (k.tasks t).state_list) [
  | inl e ↦ (ground (arith, e), λ u ne. ground (arith, e), ground (arith, e))
  | inr (h, e) ↦
      let (ready, gone, blocked) = v.placed.fits t h e in
      (ground (arith, e, ready, gone, live), λ u ne. ground (arith, e), ground (arith, e))
]

timeout_remove-rest :
    (k : Sched) (t : ℕ)
    → t ≢ 0
    → let k' = sched_timeout_remove k t in
      ((h : ℕ) → k'.lists h ≡ k.lists h)
      × ((u : ℕ) → u ≢ t → k'.tasks u ≡ k.tasks u)
      × ((k'.tasks t).timeout_list ≡ false)
      × ((k'.tasks t).stack_base ≡ (k.tasks t).stack_base)
unfolding sched_timeout_remove
timeout_remove-rest k t nz = (λ h. ground arith, λ u ne. ground arith, ground arith, ground arith)

detach-master : (k : Sched) (t : ℕ) → (detach k t).master_task_list ≡ k.master_task_list
unfolding detach sched_ready_remove
detach-master k t = ground arith

timeout_remove-master :
    (k : Sched) (t : ℕ) → (sched_timeout_remove k t).master_task_list ≡ k.master_task_list
unfolding sched_timeout_remove
timeout_remove-master k t = ground arith

-- A task among the deleted ones.
pub record IsMarked (k : Sched) (t : ℕ) (k' : Sched) : Type 0 where
  pub last : k'.lists deleted_head ≡ k.lists deleted_head ++ t ∷ []
  pub deleted : (k'.tasks t).state ≡ TaskState.deleted
  pub linked : (k'.tasks t).state_list ≡ some deleted_head
  pub untimed : (k'.tasks t).timeout_list ≡ false
  pub stack : (k'.tasks t).stack_base ≡ (k.tasks t).stack_base
  pub master : k'.master_task_list ≡ k.master_task_list
  pub others : (u : ℕ) → u ≢ t → k'.tasks u ≡ k.tasks u

pub mark_deleted-IsMarked :
    (k : Sched) (t : ℕ)
    → Inv k
    → t ≢ 0
    → t ≢ k.idle_task
    → (k.tasks t).state ≢ TaskState.deleted
    → IsMarked k t (sched_mark_deleted k t)
unfolding sched_mark_deleted
mark_deleted-IsMarked k t v nz busy live =
    let k1 = detach k t in
    let k2 = sched_timeout_remove k1 t in
    let (l1, o1, s1) = detach-rest k t v live in
    let (l2, o2, f2, s2) = timeout_remove-rest k1 t nz in
    let g : (t == 0 || (t == k.idle_task || state_eq (k.tasks t).state TaskState.deleted)) ≡ false =
      ground (arith, nz, busy, live) in
    rw g (record {
      last = ground (arith, l1, l2 deleted_head);
      deleted = ground arith;
      linked = ground arith;
      untimed = ground (arith, f2);
      stack = ground (arith, s1, s2);
      master = timeout_remove-master k1 t ∙ detach-master k t;
      others = λ u ne. ground (arith, o1 u ne, o2 u ne, ne);
    })

-- The first of the deleted tasks is taken off their list.
pub pop_deleted_lem :
    (k : Sched) (t : ℕ) (ts : List ℕ)
    → Inv k
    → k.lists deleted_head ≡ t ∷ ts
    → let (s, k') = sched_pop_deleted k in
      (s ≡ t)
      × (t ≢ 0)
      × (k'.lists deleted_head ≡ ts)
      × ((k'.tasks t).state_list ≡ none)
      × ((k'.tasks t).stack_base ≡ (k.tasks t).stack_base)
      × ((u : ℕ) → u ≢ t → k'.tasks u ≡ k.tasks u)
unfolding sched_pop_deleted remove
pop_deleted_lem k t ts v e =
    let (link, nz) = head-linked deleted_head t v.linked e in
    rw (e, sched_pop_deleted)
      (
        refl,
        nz,
        ground (arith, link, e),
        ground (arith, link),
        ground (arith, link),
        λ u ne. ground (arith, link, ne),
      )
