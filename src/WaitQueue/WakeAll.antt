-- ===== src/WaitQueue/WakeAll.antt =====
-- `trt_wait_q_wake_all_result_locked`: the loop ends, and every waiter is woken.
use tiny_rt.Base.{
  ℕ, zero, suc, ◌+◌, ◌≤◌, ◌<◌, ◌≡◌, ◌≢◌, refl, false, inl, inr, some, List, [], ◌∷◌, ◌==◌, arith,
  length, Bool-cases, ◌∙◌, ne→==-false, ==→eq, ==-false→ne,
}
use tiny_rt.Task.{TaskState, Task, WaitResult}
use tiny_rt.Sched.State.{Sched, wait_head, deleted_head}
use tiny_rt.Sched.Inv.{Inv, not-empty_of_link}
use tiny_rt.Sched.Wake.{wake_one_none, head-linked}
use tiny_rt.WaitQueue.{
  trt_wait_q_wake_one_result_locked, wake_all_loop, trt_wait_q_wake_all_result_locked,
}
use tiny_rt.WaitQueue.Inv.{wake_one_result-Inv, wake_step}

-- A task that has been woken with a result.
pub record IsWoken (result : WaitResult) (task task' : Task) : Type 0 where
  pub ready : task'.state ≡ TaskState.ready
  pub told : task'.wait_result ≡ result
  pub queued : task.priority ≤ 31 → task'.state_list ≡ some task.priority

-- All waiters of a queue are woken, and nobody else.
pub record WakesAll (k : Sched) (wq : ℕ) (result : WaitResult) (k' : Sched) : Type 0 where
  pub inv : Inv k'
  pub empty : k'.lists (wait_head wq) ≡ []
  pub woken :
      (t : ℕ)
      → (k.tasks t).state_list ≡ some (wait_head wq)
      → IsWoken result (k.tasks t) (k'.tasks t)
  pub others : (t : ℕ) → (k.tasks t).state_list ≢ some (wait_head wq) → k'.tasks t ≡ k.tasks t
  pub queues : (g : ℕ) → g ≢ wait_head wq → deleted_head < g → k'.lists g ≡ k.lists g

pub wake_one_result_none :
    (k : Sched) (wq : ℕ) (result : WaitResult)
    → k.lists (wait_head wq) ≡ []
    → trt_wait_q_wake_one_result_locked k wq result ≡ (0, k)
unfolding trt_wait_q_wake_one_result_locked
wake_one_result_none k wq result e = ground (arith, wake_one_none k (wait_head wq) e)

WakesAll-none :
    {k : Sched} (wq : ℕ) (result : WaitResult)
    → Inv k
    → k.lists (wait_head wq) ≡ []
    → WakesAll k wq result k
WakesAll-none {k} wq result v e = record {
  inv = v;
  empty = e;
  woken = λ t l. absurd (ground (arith, not-empty_of_link t (wait_head wq) v.linked l));
  others = λ t ne. refl;
  queues = λ g ne low. refl;
}

-- A ready task waits in no queue.
pub ready-not-waiting :
    {k : Sched} (t wq : ℕ)
    → Inv k
    → (k.tasks t).state ≡ TaskState.ready
    → (k.tasks t).state_list ≢ some (wait_head wq)
ready-not-waiting {k} t wq v r e = ground (arith, v.placed.fits t (wait_head wq) e)

loop_stop :
    (fuel : ℕ) (k : Sched) (wq : ℕ) (result : WaitResult) (n : ℕ)
    → trt_wait_q_wake_one_result_locked k wq result ≡ (0, k)
    → wake_all_loop (suc fuel) k wq result n ≡ (n, k)
unfolding wake_all_loop
loop_stop fuel k wq result n e = ground (arith, e)

loop_step :
    (fuel : ℕ) (k : Sched) (wq : ℕ) (result : WaitResult) (n : ℕ)
    → ((trt_wait_q_wake_one_result_locked k wq result).0 == 0) ≡ false
    → wake_all_loop (suc fuel) k wq result n
      ≡ wake_all_loop fuel (trt_wait_q_wake_one_result_locked k wq result).1 wq result (n + 1)
unfolding wake_all_loop
loop_step fuel k wq result n e = rw (e, wake_all_loop)

-- What the first step and the rest of the loop do together.
WakesAll-step :
    {k k1 k' : Sched} (wq t : ℕ) (ts : List ℕ) (result : WaitResult)
    → Inv k
    → Inv k1
    → k.lists (wait_head wq) ≡ t ∷ ts
    → (k1.tasks t).state ≡ TaskState.ready
    → IsWoken result (k.tasks t) (k1.tasks t)
    → ((u : ℕ) → u ≢ t → k1.tasks u ≡ k.tasks u)
    → ((g : ℕ) → g ≢ wait_head wq → deleted_head < g → k1.lists g ≡ k.lists g)
    → WakesAll k1 wq result k'
    → WakesAll k wq result k'
WakesAll-step {k} {k1} {k'} wq t ts result v v1 e r woken same_tasks same_lists rest = record {
  inv = rest.inv;
  empty = rest.empty;
  woken = λ u l. elim (Bool-cases (u == t)) [
    | inl own ↦
        let eq : u ≡ t = ==→eq u t own in rw (eq, rest.others t (ready-not-waiting t wq v1 r)) woken
    | inr other ↦
        let eq : k1.tasks u ≡ k.tasks u = same_tasks u (==-false→ne u t other) in
        rw eq at (rest.woken u (rw eq l))
  ];
  others = λ u ne. elim (Bool-cases (u == t)) [
    | inl own ↦ absurd (ne (rw (==→eq u t own) (head-linked (wait_head wq) t v.linked e).0))
    | inr other ↦
        let eq : k1.tasks u ≡ k.tasks u = same_tasks u (==-false→ne u t other) in
        rest.others u (rw eq ne) ∙ eq
  ];
  queues = λ g ne low. rest.queues g ne low ∙ same_lists g ne low;
}

wake_all_loop-WakesAll :
    (fuel : ℕ) (k : Sched) (wq : ℕ) (result : WaitResult) (n : ℕ) (ws : List ℕ)
    → Inv k
    → wq ≢ 0
    → k.lists (wait_head wq) ≡ ws
    → length ws < fuel
    → ((wake_all_loop fuel k wq result n).0 ≡ n + length ws)
      × WakesAll k wq result (wake_all_loop fuel k wq result n).1
wake_all_loop-WakesAll zero k wq result n ws v nz e lt = absurd (omega arith)
wake_all_loop-WakesAll (suc fuel) k wq result n [] v nz e lt =
    rw (loop_stop fuel k wq result n (wake_one_result_none k wq result e))
      (omega arith, WakesAll-none wq result v e)
wake_all_loop-WakesAll (suc fuel) k wq result n (t ∷ ts) v nz e lt =
    let (f0, tz, f1, f2, f3, f4, f5, f6) = wake_step k wq t ts result v nz e in
    let k1 = (trt_wait_q_wake_one_result_locked k wq result).1 in
    let v1 : Inv k1 = wake_one_result-Inv wq result v in
    let (total, rest) =
      wake_all_loop-WakesAll fuel k1 wq result (n + 1) ts v1 nz f1 (omega arith) in
    let woken : IsWoken result (k.tasks t) (k1.tasks t) = record {
      ready = f2;
      told = f3;
      queued = f4;
    } in
    rw (loop_step fuel k wq result n (ground (arith, f0)))
      (omega arith, WakesAll-step wq t ts result v v1 e f2 woken f5 f6 rest)

-- On a queue other than NULL, with the invariant, `trt_wait_q_wake_all_result_locked` ends. It
-- returns how many tasks waited and keeps the invariant. Afterwards the queue is empty; each task
-- that waited in it is ready, has the given result, and is in the ready list of its priority, if
-- that is valid; no other task and no other wait queue has changed.
pub wake_all-WakesAll :
    (k : Sched) (wq : ℕ) (result : WaitResult)
    → Inv k
    → wq ≢ 0
    → let (n, k') = trt_wait_q_wake_all_result_locked k wq result in
      (n ≡ length (k.lists (wait_head wq))) × WakesAll k wq result k'
unfolding trt_wait_q_wake_all_result_locked
wake_all-WakesAll k wq result v nz =
    let (total, all) =
      wake_all_loop-WakesAll (length (k.lists (wait_head wq)) + 1) k wq result 0
        (k.lists (wait_head wq)) v nz refl (omega arith) in
    rw (ne→==-false wq 0 nz) (omega (arith, total), all)
