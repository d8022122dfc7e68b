-- ===== src/Sched/Rotate.antt =====
-- Round robin: the running task goes behind the ready tasks of its priority.
use tiny_rt.Base.{
  ℕ, ◌≤◌, ◌<◌, ◌≡◌, ◌≢◌, sym, ap, ◌∙◌, remove, List, [], ◌∷◌, ◌++◌, some, arith, inl, inr,
  Bool-cases, ltb,
}
use tiny_rt.Task.{TaskState}
use tiny_rt.Sched.{sched_ready_enqueue, cleared}
use tiny_rt.Sched.State.{Sched, modify, set_state, unlink}
use tiny_rt.Sched.Switch.{sched_pick_next, requeue_current, choose}
use tiny_rt.Sched.Inv.{Inv}
use tiny_rt.Sched.Ready.{running-unlinked}
use tiny_rt.Sched.Wake.{head-linked}
use tiny_rt.Sched.Pick.{IsTop, pop_highest_cases, requeue_current-Inv}

requeued :
    (k : Sched)
    → Inv k
    → k.current_task ≢ 0
    → k.current_task ≢ k.idle_task
    → (k.tasks k.current_task).state ≡ TaskState.running
    → (k.tasks k.current_task).priority ≤ 31
    → let q = requeue_current k in
      let p = (k.tasks k.current_task).priority in
      (q.lists p ≡ k.lists p ++ k.current_task ∷ []) × ((g : ℕ) → g ≢ p → q.lists g ≡ k.lists g)
unfolding requeue_current sched_ready_enqueue
requeued k v nz other run le =
    let free = running-unlinked k.current_task v run in
    (ground (arith, free), λ g ne. ground (arith, free))

-- The task that is chosen and what is left of its list.
taken_lists :
    (q : Sched) (p t : ℕ) (ts : List ℕ)
    → (q.tasks t).state_list ≡ some p
    → q.lists p ≡ t ∷ ts
    → (cleared (unlink q t) p).lists p ≡ ts
unfolding remove
taken_lists q p t ts e first = ground (arith, e, first)

-- Only one priority is the top.
same_top :
    (q : Sched) (p p' t t' : ℕ) (ts ts' : List ℕ)
    → p < 32
    → q.lists p ≡ t ∷ ts
    → ((g : ℕ) → p < g → g < 32 → q.lists g ≡ [])
    → IsTop q p' t' ts'
    → (p' ≡ p) × (t' ≡ t) × (ts' ≡ ts)
same_top q p p' t t' ts ts' low first above top =
    let same : p' ≡ p = elim (Bool-cases (ltb p p')) [
      | inl lt ↦ absurd (ground (arith, above p' (ground arith) top.low, top.first))
      | inr ge ↦ elim (Bool-cases (ltb p' p)) [
        | inl gt ↦ absurd (ground (arith, top.above p (ground arith) low, first))
        | inr le ↦ ground arith
      ]
    ] in
    (same, ground (arith, same, first, top.first), ground (arith, same, first, top.first))

-- With the invariant, a running task other than the idle one, and `t` the first of the ready tasks of
-- its priority, while none of a higher priority is ready: `sched_pick_next` picks `t`, and the running
-- task then stands last in the ready list of its priority, behind all that stood there.
pub pick_next_rotates :
    (k : Sched) (t : ℕ) (ts : List ℕ)
    → Inv k
    → k.current_task ≢ 0
    → k.current_task ≢ k.idle_task
    → (k.tasks k.current_task).state ≡ TaskState.running
    → IsTop k (k.tasks k.current_task).priority t ts
    → (k' : Sched) × (sched_pick_next k ≡ some (t, k'))
      × (k'.lists (k.tasks k.current_task).priority ≡ ts ++ k.current_task ∷ [])
unfolding sched_pick_next choose
pick_next_rotates k t ts v nz other run top =
    let c = k.current_task in
    let p = (k.tasks c).priority in
    let q = requeue_current k in
    let w = requeue_current-Inv v in
    let (own, rest) = requeued k v nz other run (omega (arith, top.low)) in
    let list : q.lists p ≡ t ∷ (ts ++ c ∷ []) = own ∙ ap (λ l. l ++ c ∷ []) top.first in
    elim (pop_highest_cases w) [
      | inl (empty, e) ↦ absurd (ground (arith, list, empty p top.low))
      | inr (p', t', ts', top', e) ↦
          let (ep, et, els) =
            same_top q p p' t t' (ts ++ c ∷ []) ts' top.low list
              (λ g gt lt. rest g (λ eq. absurd (omega arith)) ∙ top.above g gt lt) top' in
          let link = head-linked p' t' w.linked top'.first in
          let q1 = cleared (unlink q t') p' in
          (
            modify q1 t' (set_state TaskState.running),
            ground (arith, e, link, et),
            ap q1.lists (sym ep) ∙ taken_lists q p' t' ts' link.0 top'.first ∙ els,
          )
    ]
