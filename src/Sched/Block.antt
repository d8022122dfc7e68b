-- ===== src/Sched/Block.antt =====
-- The invariant across blocking a task and setting its timeout, and where the task goes.
use tiny_rt.Base.{
  ℕ, ◌+◌, ◌<◌, ◌≡◌, ◌≢◌, refl, not, ◌||◌, none, some, List, [], ◌∷◌, ◌==◌, if◌then◌else◌, arith,
  inl, inr, Bool-cases, count-remove, remove, same, count,
}
use tiny_rt.Task.{TaskState, Task}
use tiny_rt.Sched.{
  sched_block_current, insert_waiter, sched_timeout_insert, insert_timeout, suspended,
}
use tiny_rt.Sched.State.{Sched, deleted_head, update, modify, set_link}
use tiny_rt.Sched.Inv.{Inv}
use tiny_rt.Sched.Mask.{IsMasked-of_eq}
use tiny_rt.Sched.Ready.{modify_unlinked-Inv, running-unlinked}

count-insert_waiter :
    (tasks : ℕ → Task) (s t : ℕ) (ws : List ℕ)
    → count s (insert_waiter tasks t ws) ≡ same s t + count s ws
unfolding count insert_waiter
count-insert_waiter tasks s t [] = omega arith
count-insert_waiter tasks s t (w ∷ ws) = ground (arith, count-insert_waiter tasks s t ws)

count-insert_timeout :
    (tasks : ℕ → Task) (s t : ℕ) (qs : List ℕ)
    → count s (insert_timeout tasks t qs) ≡ same s t + count s qs
unfolding count insert_timeout
count-insert_timeout tasks s t [] = omega arith
count-insert_timeout tasks s t (q ∷ qs) = ground (arith, count-insert_timeout tasks s t qs)

-- The current task, unlinked and blocked, goes into a wait list at the place of the loop.
abbrev pub enqueued : Sched → ℕ → ℕ → Sched
enqueued k t h = record (modify k t (set_link (some h))) {
  lists = update k.lists h (insert_waiter k.tasks t (k.lists h));
}

enqueued-Inv :
    {k : Sched} (t h : ℕ)
    → Inv k
    → t ≢ 0
    → (k.tasks t).state_list ≡ none
    → deleted_head < h
    → (k.tasks t).state ≡ TaskState.blocked
    → Inv (enqueued k t h)
enqueued-Inv {k} t h v nz free ge b = record {
  linked = record {
    linked =
        λ s g. ground (arith, v.linked.linked s g, count-insert_waiter k.tasks s t (k.lists h));
    null = ground (arith, v.linked.null);
    timed = λ s. ground (arith, v.linked.timed s);
  };
  placed = record { fits = λ s g e. ground (arith, v.placed.fits s g) };
  masked = IsMasked-of_eq v.masked refl (λ p lt. ground arith);
}

-- What `sched_block_current` does to a running task.
pub block_current_lem :
    {k : Sched} (h : ℕ)
    → Inv k
    → k.current_task ≢ 0
    → (k.tasks k.current_task).state ≡ TaskState.running
    → sched_block_current k h ≡ enqueued (modify k k.current_task suspended) k.current_task h
unfolding sched_block_current
block_current_lem {k} h v nz r = ground (arith, running-unlinked k.current_task v r)

-- `sched_block_current` keeps the invariant, if the current task is running and the list is one of
-- waiters.
pub block_current-Inv :
    {k : Sched} (h : ℕ)
    → Inv k
    → k.current_task ≢ 0
    → (k.tasks k.current_task).state ≡ TaskState.running
    → deleted_head < h
    → Inv (sched_block_current k h)
block_current-Inv {k} h v nz r ge =
    let t = k.current_task in
    let free = running-unlinked t v r in
    rw (block_current_lem h v nz r) (
      enqueued-Inv t h (modify_unlinked-Inv t suspended v free free refl) nz (ground arith) ge
        (ground arith))

-- `sched_timeout_insert` keeps the invariant.
pub timeout_insert-Inv : {k : Sched} (t : ℕ) → Inv k → Inv (sched_timeout_insert k t)
unfolding sched_timeout_insert
timeout_insert-Inv {k} t v = elim (Bool-cases (t == 0 || not (k.tasks t).waiting_on_timer)) [
  | inl bad ↦ rw bad v
  | inr good ↦
      let rest =
        if (k.tasks t).timeout_list then remove t k.timeout_task_list else k.timeout_task_list in
      rw good (record {
        linked = record {
          linked = λ s g. ground (arith, v.linked.linked s g);
          null = ground (arith, v.linked.null);
          timed = λ s. ground (
            arith,
            v.linked.timed s,
            v.linked.timed t,
            count-insert_timeout k.tasks s t rest,
            count-remove s t k.timeout_task_list,
          );
        };
        placed = record { fits = λ s g q. ground (arith, v.placed.fits s g) };
        masked = IsMasked-of_eq v.masked refl (λ p lt. refl);
      })
]
