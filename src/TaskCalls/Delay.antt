-- ===== src/TaskCalls/Delay.antt =====
-- Delays of src/kernel/task.c: a task sleeps until its time has come.
use tiny_rt.Base.{
  if-false, ℕ, suc, ◌+◌, ◌%◌, ◌^◌, ◌<◌, ◌≤◌, ◌≡◌, ◌≢◌, refl, ap, ◌∙◌, ◌⊎◌, inl, inr, true, false,
  not, some, arith, Bool-cases, ◌==◌, none, ◌||◌,
}
use tiny_rt.Task.{Task, TaskState, WaitResult}
use tiny_rt.Sched.{sched_ready_remove, sched_timeout_insert, timer_expired}
use tiny_rt.Sched.Inv.{Inv}
use tiny_rt.Sched.Ready.{modify_unlinked-Inv, running-unlinked}
use tiny_rt.Sched.Block.{timeout_insert-Inv}
use tiny_rt.Sched.State.{Sched, modify}
use tiny_rt.Sched.Switch.{sched_is_locked, task_yield}
use tiny_rt.WaitQueue.Yield.{yield_of_blocked}
use tiny_rt.TaskCalls.{delay_current, delay_loop, task_delay_ticks}

-- The current task sleeps until the tick `wakeup`.
pub record Sleeps (k : Sched) (wakeup : ℕ) (k' : Sched) : Type 0 where
  pub inv : Inv k'
  pub blocked : (k'.tasks k.current_task).state ≡ TaskState.blocked
  pub unlinked : (k'.tasks k.current_task).state_list ≡ none
  pub timed : (k'.tasks k.current_task).timeout_list ≡ true
  pub until : (k'.tasks k.current_task).wakeup ≡ wakeup
  pub waiting : (k'.tasks k.current_task).waiting_on_timer ≡ true
  pub others : (u : ℕ) → u ≢ k.current_task → k'.tasks u ≡ k.tasks u
  pub lists : k'.lists ≡ k.lists

ready_remove_free : (k : Sched) (t : ℕ) → (k.tasks t).state_list ≡ none → sched_ready_remove k t ≡ k
unfolding sched_ready_remove
ready_remove_free k t free = ground (arith, free)

abbrev asleep : ℕ → Task → Task
asleep wakeup task = record task {
  wakeup = wakeup;
  waiting_on_timer = true;
  wait_result = WaitResult.nothing;
  state = TaskState.blocked;
}

insert_lem :
    (k : Sched) (t : ℕ)
    → t ≢ 0
    → (k.tasks t).waiting_on_timer ≡ true
    → let k' = sched_timeout_insert k t in
      (k'.tasks t ≡ record (k.tasks t) { timeout_list = true })
      × ((u : ℕ) → u ≢ t → k'.tasks u ≡ k.tasks u)
      × (k'.lists ≡ k.lists)
      × (k'.lock_count ≡ k.lock_count)
      × (k'.current_task ≡ k.current_task)
unfolding sched_timeout_insert
insert_lem k t nz w =
    let c : (t == 0 || not (k.tasks t).waiting_on_timer) ≡ false = ground (arith, w) in
    rw c (ground arith, λ u ne. ground arith, refl, refl, refl)

delay_current-Sleeps :
    (k : Sched) (wakeup : ℕ)
    → Inv k
    → k.current_task ≢ 0
    → (k.tasks k.current_task).state ≡ TaskState.running
    → let k' = delay_current k wakeup in
      Sleeps k wakeup k' × (k'.lock_count ≡ k.lock_count) × (k'.current_task ≡ k.current_task)
unfolding delay_current
delay_current-Sleeps k wakeup v nz run =
    let t = k.current_task in
    let k1 = modify k t (asleep wakeup) in
    let free = running-unlinked t v run in
    let v1 : Inv k1 = modify_unlinked-Inv t (asleep wakeup) v free free refl in
    let same : sched_ready_remove k1 t ≡ k1 = ready_remove_free k1 t (ground (arith, free)) in
    let (own, others, lists, lock, current) = insert_lem k1 t nz (ground arith) in
    rw same (
      record {
        inv = timeout_insert-Inv t v1;
        blocked = ground (arith, own);
        unlinked = ground (arith, own, free);
        timed = ground (arith, own);
        until = ground (arith, own);
        waiting = ground (arith, own);
        others = λ u ne. others u ne ∙ ground (arith, ne);
        lists = lists;
      },
      lock,
      current,
    )

-- A round of the delay of the running task, the first or one after a wake-up, while the scheduler is
-- not locked: the call returns at once, and changes nothing, if its time has come; if not, the task
-- sleeps until then: it is blocked, in no list but that of the timeouts, and waits in the trap.
pub delay_loop_lem :
    (k : Sched) (wakeup fuel : ℕ)
    → Inv k
    → k.current_task ≢ 0
    → k.lock_count ≡ 0
    → (k.tasks k.current_task).state ≡ TaskState.running
    → ((timer_expired k.tick_count wakeup ≡ true)
        × (delay_loop (suc fuel) k wakeup ≡ some (false, k)))
      ⊎ ((timer_expired k.tick_count wakeup ≡ false)
          × ((k' : Sched) × (delay_loop (suc fuel) k wakeup ≡ some (true, k'))
              × Sleeps k wakeup k'))
unfolding delay_loop
delay_loop_lem k wakeup fuel v nz unlocked run =
    elim (Bool-cases (timer_expired k.tick_count wakeup)) [
      | inl over ↦ inl (over, rw over refl)
      | inr early ↦
          let k' = delay_current k wakeup in
          let (sleeps, lock, current) = delay_current-Sleeps k wakeup v nz run in
          let y : task_yield k' ≡ (k', true) =
            yield_of_blocked k' (lock ∙ unlocked)
              (ap (λ t. (k'.tasks t).state) current ∙ sleeps.blocked) in
          inr (early, (k', rw (early, y) refl, sleeps))
    ]

delay_starts :
    (k : Sched) (ticks : ℕ)
    → k.current_task ≢ 0
    → k.lock_count ≡ 0
    → task_delay_ticks k ticks ≡ delay_loop 1 k ((k.tick_count + ticks) % 2 ^ 32)
unfolding task_delay_ticks sched_is_locked
delay_starts k ticks nz unlocked =
    if-false {b = k.current_task == 0} _ (ground (arith, nz))
      (if-false {b = sched_is_locked k} _ (ground (arith, unlocked)) refl)

-- `task_delay_ticks` by the running task, while the scheduler is not locked: no ticks return at
-- once; with at most 2 ^ 31 ticks the task sleeps until so many ticks from now.
pub delay_ticks-Sleeps :
    (k : Sched) (ticks : ℕ)
    → Inv k
    → k.current_task ≢ 0
    → k.lock_count ≡ 0
    → (k.tasks k.current_task).state ≡ TaskState.running
    → k.tick_count < 2 ^ 32
    → ticks ≤ 2 ^ 31
    → ((ticks ≡ 0) × (task_delay_ticks k ticks ≡ some (false, k)))
      ⊎ ((ticks ≢ 0)
          × ((k' : Sched) × (task_delay_ticks k ticks ≡ some (true, k'))
              × Sleeps k ((k.tick_count + ticks) % 2 ^ 32) k'))
delay_ticks-Sleeps k ticks v nz unlocked run word short =
    let start = delay_starts k ticks nz unlocked in
    elim (delay_loop_lem k ((k.tick_count + ticks) % 2 ^ 32) 0 v nz unlocked run) [
      | inl (over, e) ↦ inl (ground (arith, over), start ∙ e)
      | inr (early, (k', e, sleeps)) ↦
          inr (λ z. absurd (ground (arith, early, z)), (k', start ∙ e, sleeps))
    ]
