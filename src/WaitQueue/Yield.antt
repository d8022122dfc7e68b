-- ===== src/WaitQueue/Yield.antt =====
-- `task_yield`, and what it makes of a task that has blocked.
use tiny_rt.Base.{ℕ, ◌≡◌, ◌≢◌, refl, true, not, ◌&&◌, ◌==◌, arith, inl, inr, Bool-cases, ap, ◌∙◌}
use tiny_rt.Error.{Err}
use tiny_rt.Task.{TaskState, state_eq, WaitResult}
use tiny_rt.Sched.{sched_block_current, sched_ready_remove}
use tiny_rt.Sched.Order.{IsRanked, Blocks, block_current-Blocks, IsRanked-ext}
use tiny_rt.Sched.State.{Sched, modify, set_state, set_result, wait_head}
use tiny_rt.Sched.Switch.{task_yield, sched_is_locked, sched_current_is_idle}
use tiny_rt.Sched.Inv.{Inv}
use tiny_rt.Sched.Ready.{enqueue-Inv, modify_kept-Inv, modify_unlinked-Inv, running-unlinked}
use tiny_rt.WaitQueue.{waits, yielding, trt_wait_q_block_locked}
use tiny_rt.WaitQueue.Inv.{set_pending-Inv}

pub task_yield-Inv : {k : Sched} → Inv k → Inv (task_yield k).0
unfolding task_yield
task_yield-Inv {k} v = elim (Bool-cases (sched_is_locked k)) [
  | inl locked ↦ rw locked (set_pending-Inv v)
  | inr unlocked ↦
      elim (Bool-cases (
        not (k.current_task == 0)
        && (not (sched_current_is_idle k)
            && state_eq (k.tasks k.current_task).state TaskState.running))) [
              | inl goes ↦
                  let t = k.current_task in
                  let free = running-unlinked t v (ground arith) in
                  rw (unlocked, goes)
                    (enqueue-Inv t
                      (modify_unlinked-Inv t (set_state TaskState.ready) v free free refl)
                      (ground arith))
              | inr stays ↦ rw (unlocked, stays) v
            ]
]

pub yielding-Inv : (resume : Sched → Err) (r : Err × Sched) → Inv r.1 → Inv (yielding resume r).1
yielding-Inv resume (Err.ok, k) v = elim (Bool-cases (task_yield k).1) [
  | inl trapped ↦ rw trapped (task_yield-Inv v)
  | inr returned ↦ rw returned (task_yield-Inv v)
]
yielding-Inv resume (e, k) v = v

-- A task that is not running any more traps as it is.
pub yield_of_blocked :
    (k : Sched)
    → k.lock_count ≡ 0
    → (k.tasks k.current_task).state ≡ TaskState.blocked
    → task_yield k ≡ (k, true)
unfolding task_yield sched_is_locked
yield_of_blocked k unlocked blocked = ground (arith, unlocked, blocked)

-- The running task's copy that goes to wait.
abbrev pub told_nothing : Sched → Sched
told_nothing k = modify k k.current_task (set_result WaitResult.nothing)

pub told-Inv : {k : Sched} → Inv k → Inv (told_nothing k)
told-Inv {k} v =
    modify_kept-Inv k.current_task (set_result WaitResult.nothing) v refl refl refl refl

pub block_of_open :
    (k : Sched) (wq : ℕ)
    → wq ≢ 0
    → k.current_task ≢ 0
    → k.lock_count ≡ 0
    → trt_wait_q_block_locked k wq ≡ (Err.ok, sched_block_current (told_nothing k) (wait_head wq))
unfolding trt_wait_q_block_locked sched_is_locked
block_of_open k wq nz cur unlocked = ground (arith, unlocked)

pub current-block :
    (k : Sched) (h : ℕ)
    → ((sched_block_current k h).current_task ≡ k.current_task)
      × ((sched_block_current k h).lock_count ≡ k.lock_count)
unfolding sched_block_current sched_ready_remove
current-block k h = ground arith

-- A running task that blocks on a queue traps, and is then in the queue at its place.
pub block-Blocks :
    (k : Sched) (wq : ℕ) (resume : Sched → Err)
    → Inv k
    → wq ≢ 0
    → k.current_task ≢ 0
    → k.lock_count ≡ 0
    → (k.tasks k.current_task).state ≡ TaskState.running
    → IsRanked k.tasks (k.lists (wait_head wq))
    → let (reply, k') = yielding resume (trt_wait_q_block_locked k wq) in
      (reply ≡ waits) × Blocks (told_nothing k) (wait_head wq) k'
block-Blocks k wq resume v nz cur unlocked run r =
    let k1 = told_nothing k in
    let (b, _, _) =
      block_current-Blocks k1 (wait_head wq) (told-Inv v) cur (ground arith)
        (IsRanked-ext k.tasks k1.tasks (k.lists (wait_head wq)) (λ u. ground arith) r) in
    let k2 = sched_block_current k1 (wait_head wq) in
    let (c, l) = current-block k1 (wait_head wq) in
    let y : task_yield k2 ≡ (k2, true) =
      yield_of_blocked k2 (l ∙ unlocked) (ap (λ t. (k2.tasks t).state) c ∙ b.blocked) in
    rw (block_of_open k wq nz cur unlocked, y) (refl, b)
