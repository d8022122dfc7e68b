-- ===== src/Semaphore/Transfer.antt =====
-- What a post and a wait do.
use tiny_rt.Base.{
  ℕ, ◌+◌, ◌-◌, ◌%◌, ◌^◌, ◌<◌, ◌≡◌, ◌≢◌, refl, false, not, ◌==◌, [], ◌∷◌, List, arith, inl, inr,
  Bool-cases, ltb, is_empty, cons_of_not-empty, eq-nil_of_empty, ◌⊎◌, ap, ◌∙◌, ne→==-false,
}
use tiny_rt.Error.{Err}
use tiny_rt.Task.{TaskState, WaitResult}
use tiny_rt.Sched.State.{wait_head}
use tiny_rt.Sched.Switch.{sched_is_locked}
use tiny_rt.Sched.Order.{IsRanked, Blocks}
use tiny_rt.WaitQueue.Yield.{told_nothing, block-Blocks}
use tiny_rt.WaitQueue.{
  done, waits, yielding, trt_wait_q_empty, trt_wait_q_wake_one_locked, trt_wait_q_block_locked,
  trt_wait_q_block_resume,
}
use tiny_rt.WaitQueue.Inv.{wake_step}
use tiny_rt.WaitQueue.WakeAll.{IsWoken}
use tiny_rt.Kernel.{Kernel, waiters, int_ltb, with_sched}
use tiny_rt.Semaphore.{set_sem, sem_post_obj, sem_take, sem_wait_obj, sem_trywait_obj}
use tiny_rt.Semaphore.Count.{IsCounted}

-- A post hands its unit to the first waiter `t`, whom nobody can overtake: the count does not change.
pub record Hands (k : Kernel) (s t : ℕ) (ts : List ℕ) (k' : Kernel) : Type 0 where
  pub woken : IsWoken WaitResult.object (k.sched.tasks t) (k'.sched.tasks t)
  pub left : k'.sched.lists (wait_head (waiters s)) ≡ ts
  pub others : (u : ℕ) → u ≢ t → k'.sched.tasks u ≡ k.sched.tasks u
  pub counts : k'.sems ≡ k.sems

post-Hands :
    {k : Kernel} (s t : ℕ) (ts : List ℕ)
    → IsCounted k s
    → (k.sems s).destroyed ≡ false
    → k.sched.lists (wait_head (waiters s)) ≡ t ∷ ts
    → ((sem_post_obj k s).0 ≡ Err.ok) × Hands k s t ts (sem_post_obj k s).1
unfolding sem_post_obj trt_wait_q_empty trt_wait_q_wake_one_locked
post-Hands {k} s t ts v live q =
    let nz = ne→==-false s 0 v.real in
    let (_, _, left, ready, told, queued, others, _) =
      wake_step k.sched (waiters s) t ts WaitResult.object v.sound (omega arith) q in
    let busy : trt_wait_q_empty k.sched (waiters s) ≡ false = ground (arith, q) in
    rw (nz, live, busy)
      (
        refl,
        record {
          woken = record { ready = ready; told = told; queued = queued };
          left = left;
          others = others;
          counts = refl;
        },
      )

post_nobody :
    (k : Kernel) (s : ℕ)
    → s ≢ 0
    → (k.sems s).destroyed ≡ false
    → k.sched.lists (wait_head (waiters s)) ≡ []
    → ((k.sems s).cnt < (k.sems s).max
        → sem_post_obj k s
          ≡ (Err.ok, set_sem k s (record (k.sems s) { cnt = ((k.sems s).cnt + 1) % 2 ^ 32 })))
      × ((k.sems s).cnt ≡ (k.sems s).max → sem_post_obj k s ≡ (Err.busy, k))
unfolding sem_post_obj trt_wait_q_empty
post_nobody k s nz live q = (λ lt. ground (arith, live, q), λ e. ground (arith, live, q))

-- The queue and the count of a live semaphore decide what a post on it does: if tasks wait, it
-- answers ERR_OK, the first of them is ready with the result of the object and leaves the queue, and
-- neither the count nor another task changes; if none waits and the count is below the maximum, it
-- answers ERR_OK and the count, without wrapping, is one more; if none waits and the count is the
-- maximum, it answers ERR_BUSY and nothing changes. The semaphore satisfies `IsCounted` before.
pub post_lem :
    (k : Kernel) (s : ℕ)
    → IsCounted k s
    → (k.sems s).destroyed ≡ false
    → ((t : ℕ) × (ts : List ℕ) × (k.sched.lists (wait_head (waiters s)) ≡ t ∷ ts)
        × ((sem_post_obj k s).0 ≡ Err.ok)
        × Hands k s t ts (sem_post_obj k s).1)
      ⊎ ((k.sched.lists (wait_head (waiters s)) ≡ [])
          × ((k.sems s).cnt < (k.sems s).max)
          × (sem_post_obj k s
              ≡ (Err.ok, set_sem k s (record (k.sems s) { cnt = (k.sems s).cnt + 1 }))))
      ⊎ ((k.sched.lists (wait_head (waiters s)) ≡ [])
          × ((k.sems s).cnt ≡ (k.sems s).max)
          × (sem_post_obj k s ≡ (Err.busy, k)))
post_lem k s v live = elim (Bool-cases (is_empty (k.sched.lists (wait_head (waiters s))))) [
  | inr busy ↦
      let (t, ts, q) = cons_of_not-empty (k.sched.lists (wait_head (waiters s))) busy in
      let (answer, hands) = post-Hands s t ts v live q in inl (t, ts, q, answer, hands)
  | inl free ↦
      let q = eq-nil_of_empty (k.sched.lists (wait_head (waiters s))) free in
      elim (Bool-cases (ltb (k.sems s).cnt (k.sems s).max)) [
        | inl lt ↦
            let small : ((k.sems s).cnt + 1) % 2 ^ 32 ≡ (k.sems s).cnt + 1 =
              omega (arith, v.limit live, v.bounded live) in
            inr (
              inl (
                q,
                ground arith,
                (post_nobody k s v.real live q).0 (ground arith)
                    ∙ ap (λ n. (Err.ok, set_sem k s (record (k.sems s) { cnt = n }))) small,
              ))
        | inr ge ↦
            let e : (k.sems s).cnt ≡ (k.sems s).max = ground (arith, v.bounded live) in
            inr (inr (q, e, (post_nobody k s v.real live q).1 e))
      ]
]

-- The caller of a wait has blocked in the queue of the semaphore.
pub record Waits (k : Kernel) (s : ℕ) (k' : Kernel) : Type 0 where
  pub blocks : Blocks (told_nothing k.sched) (wait_head (waiters s)) k'.sched
  pub counts : k'.sems ≡ k.sems

wait_some :
    (k : Kernel) (s : ℕ)
    → s ≢ 0
    → (k.sems s).destroyed ≡ false
    → (k.sems s).cnt ≢ 0
    → (k.sems s).cnt < 2 ^ 31
    → (sem_wait_obj k s
        ≡ (done Err.ok, set_sem k s (record (k.sems s) { cnt = (k.sems s).cnt - 1 })))
      × (sem_trywait_obj k s ≡ (
        Err.ok,
        set_sem k s (record (k.sems s) { cnt = ((k.sems s).cnt + 2 ^ 32 - 1) % 2 ^ 32 }),
      ))
unfolding sem_wait_obj sem_trywait_obj sem_take
wait_some k s nz live some_left small = (ground (arith, live), ground (arith, live))

wait_none :
    (k : Kernel) (s : ℕ)
    → s ≢ 0
    → (k.sems s).destroyed ≡ false
    → (k.sems s).cnt ≡ 0
    → k.sched.lock_count ≡ 0
    → sem_wait_obj k s
      ≡ with_sched k
          (yielding trt_wait_q_block_resume (trt_wait_q_block_locked k.sched (waiters s)))
unfolding sem_wait_obj sem_take sched_is_locked
wait_none k s nz live none_left unlocked =
    let a = ne→==-false s 0 nz in
    let b : int_ltb 0 (k.sems s).cnt ≡ false = ground arith in
    let c : not (k.sched.lock_count == 0) ≡ false = ground arith in rw (a, live, b, c) refl

trywait_none :
    (k : Kernel) (s : ℕ)
    → s ≢ 0
    → (k.sems s).destroyed ≡ false
    → (k.sems s).cnt ≡ 0
    → sem_trywait_obj k s ≡ (Err.busy, k)
unfolding sem_trywait_obj
trywait_none k s nz live z = ground (arith, live)

-- A wait by the running task on a live semaphore with a count of 0, while the scheduler is not
-- locked and the queue is ordered, traps with the task blocked in the semaphore's queue, behind
-- every waiter of its priority or a higher one; the queue stays ordered, and neither the count nor
-- another task changes. The semaphore satisfies `IsCounted` before.
pub wait-Waits :
    (k : Kernel) (s : ℕ)
    → IsCounted k s
    → (k.sems s).destroyed ≡ false
    → (k.sems s).cnt ≡ 0
    → k.sched.lock_count ≡ 0
    → k.sched.current_task ≢ 0
    → (k.sched.tasks k.sched.current_task).state ≡ TaskState.running
    → IsRanked k.sched.tasks (k.sched.lists (wait_head (waiters s)))
    → ((sem_wait_obj k s).0 ≡ waits) × Waits k s (sem_wait_obj k s).1
wait-Waits k s v live z unlocked cur run r =
    let (trapped, b) =
      block-Blocks k.sched (waiters s) trt_wait_q_block_resume v.sound (omega arith) cur unlocked
        run r in
    rw (wait_none k s v.real live z unlocked) (trapped, record { blocks = b; counts = refl })

-- On a live semaphore that satisfies `IsCounted`, a count above 0 makes both the wait and the attempt
-- answer ERR_OK, take one off the count and change nothing else, and a count of 0 makes the attempt
-- answer ERR_BUSY and change nothing.
pub wait_lem :
    (k : Kernel) (s : ℕ)
    → IsCounted k s
    → (k.sems s).destroyed ≡ false
    → (((k.sems s).cnt ≢ 0)
        × (let taken = set_sem k s (record (k.sems s) { cnt = (k.sems s).cnt - 1 }) in
            (sem_wait_obj k s ≡ (done Err.ok, taken)) × (sem_trywait_obj k s ≡ (Err.ok, taken))))
      ⊎ (((k.sems s).cnt ≡ 0) × (sem_trywait_obj k s ≡ (Err.busy, k)))
wait_lem k s v live = elim (Bool-cases ((k.sems s).cnt == 0)) [
  | inl z ↦ inr (ground arith, trywait_none k s v.real live (ground arith))
  | inr n ↦
      let nz : (k.sems s).cnt ≢ 0 = ground arith in
      let small : (k.sems s).cnt < 2 ^ 31 = omega (arith, v.limit live, v.bounded live) in
      let less : ((k.sems s).cnt + 2 ^ 32 - 1) % 2 ^ 32 ≡ (k.sems s).cnt - 1 = omega arith in
      let (w, t) = wait_some k s v.real live nz small in
      inl (nz, (w, t ∙ ap (λ n. (Err.ok, set_sem k s (record (k.sems s) { cnt = n }))) less))
]
