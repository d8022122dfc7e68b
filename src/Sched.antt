-- ===== src/Sched.antt =====
-- src/kernel/sched.c: ready lists by priority with a bit mask, wait lists, the timeout list, the
-- choice of the next task, time slices and the scheduler lock. A critical section runs with the
-- interrupts off, so a function is one step on the state; log lines are left out.
pub mod State
pub mod Switch
pub mod Inv
pub mod Ready
pub mod Wake
pub mod Delete
pub mod Block
pub mod Pick
pub mod Preempt
pub mod Mask
pub mod Boot
pub mod Order
pub mod Timeout
pub mod Expire
pub mod Rotate
pub mod Tests
use tiny_rt.Base.{
  ℕ, zero, suc, ◌+◌, ◌-◌, ◌%◌, ◌^◌, Bool, true, false, not, ◌&&◌, ◌||◌, Option, none, some, List,
  [], ◌∷◌, ◌++◌, ◌==◌, ltb, leb, if◌then◌else◌, is_empty, length, remove, bit_and, bit_or,
}
use tiny_rt.Base.Bits.{bit_not, clz}
use tiny_rt.Task.{TaskState, state_eq, Task, WaitResult}
use State.{
  Sched, priority_max, deleted_head, update, modify, set_state, set_result, set_link, is_unlinked,
  link_tail, unlink,
}

-- RTOS_TIME_SLICE_TICKS.
abbrev pub time_slice_max : ℕ
time_slice_max = 10

-- `(int32_t)(a - b) < 0` on 32-bit words.
abbrev pub is_before : ℕ → ℕ → Bool
is_before a b = leb (2 ^ 31) ((a + 2 ^ 32 - b) % 2 ^ 32)

-- `timer_expired` of timer.c.
abbrev pub timer_expired : ℕ → ℕ → Bool
timer_expired now deadline = not (is_before now deadline)

-- The loop over the priorities below `n`.
unfoldable pub init_ready_lists : ℕ → (ℕ → List ℕ) → ℕ → List ℕ
init_ready_lists zero lists = lists
init_ready_lists (suc n) lists = update (init_ready_lists n lists) n []

unfoldable pub sched_init : Sched → Sched
unfolding init_ready_lists
sched_init k = if k.initialized then k else record k {
  master_task_list = [];
  lists = init_ready_lists 32 (update k.lists deleted_head []);
  timeout_task_list = [];
  mask = 0;
  idle_task = 0;
  time_slice_ticks = 0;
  current_task = 0;
  started = false;
  lock_count = 0;
  resched_pending = false;
  initialized = true;
}

unfoldable pub sched_ready_enqueue : Sched → ℕ → Sched
sched_ready_enqueue k t =
    if t == 0
      || (ltb priority_max (k.tasks t).priority || state_eq (k.tasks t).state TaskState.deleted)
    then k
    else if not (is_unlinked (k.tasks t))
    then k
    else record (link_tail k t (k.tasks t).priority) {
      mask = bit_or k.mask (2 ^ (k.tasks t).priority);
    }

unfoldable pub sched_add_task : Sched → ℕ → Sched
unfolding sched_ready_enqueue
sched_add_task k t =
    sched_ready_enqueue
      (record (modify k t (λ task. record task { master_list = true })) {
        master_task_list = k.master_task_list ++ t ∷ [];
      })
      t

unfoldable pub sched_set_idle_task : Sched → ℕ → Sched
sched_set_idle_task k t = record k { idle_task = t }

-- The mask once a task of priority `p` has left its list.
abbrev pub cleared : Sched → ℕ → Sched
cleared k p =
    if is_empty (k.lists p) then record k { mask = bit_and k.mask (bit_not 32 (2 ^ p)) } else k

unfoldable pub sched_ready_remove : Sched → ℕ → Sched
sched_ready_remove k t =
    if t == 0 || ltb priority_max (k.tasks t).priority
    then k
    else if is_unlinked (k.tasks t)
    then k
    else cleared (unlink k t) (k.tasks t).priority

unfoldable pub sched_timeout_remove : Sched → ℕ → Sched
sched_timeout_remove k t =
    if t == 0 || not (k.tasks t).timeout_list
    then k
    else record (modify k t (λ task. record task { timeout_list = false })) {
      timeout_task_list = remove t k.timeout_task_list;
    }

-- Out of the list that the task is in.
pub detach : Sched → ℕ → Sched
detach k t =
    if is_unlinked (k.tasks t)
    then k
    else if state_eq (k.tasks t).state TaskState.ready
    then sched_ready_remove k t
    else unlink k t

abbrev pub doomed : Task → Task
doomed task = record task {
  waiting_on_timer = false;
  wait_result = WaitResult.nothing;
  state = TaskState.deleted;
}

unfoldable pub sched_mark_deleted : Sched → ℕ → Sched
unfolding detach sched_timeout_remove
sched_mark_deleted k t =
    if t == 0 || (t == k.idle_task || state_eq (k.tasks t).state TaskState.deleted)
    then k
    else let k2 = sched_timeout_remove (detach k t) t in
      link_tail (modify k2 t doomed) t deleted_head

-- The result 0 is NULL.
unfoldable pub sched_pop_deleted : Sched → ℕ × Sched
sched_pop_deleted k = elim (k.lists deleted_head) [
  | [] ↦ (0, k)
  | t ∷ ts ↦ (
    t,
    record (modify (unlink k t) t (λ task. record task { master_list = false })) {
      master_task_list = remove t k.master_task_list;
    },
  )
]

-- The loop of `sched_block_current`: before the first waiter of lower priority, else at the end.
unfoldable pub insert_waiter : (ℕ → Task) → ℕ → List ℕ → List ℕ
insert_waiter tasks t [] = t ∷ []
insert_waiter tasks t (w ∷ ws) =
    if ltb (tasks w).priority (tasks t).priority then t ∷ w ∷ ws else w ∷ insert_waiter tasks t ws

abbrev pub suspended : Task → Task
suspended task = record task { state = TaskState.blocked; waiting_on_timer = false }

-- `waiters` is the number of a list's head, never NULL.
unfoldable pub sched_block_current : Sched → ℕ → Sched
unfolding sched_ready_remove insert_waiter
sched_block_current k waiters =
    if k.current_task == 0
    then k
    else let t = k.current_task in
      let k1 = modify k t suspended in
      let k2 = if is_unlinked (k1.tasks t) then k1 else sched_ready_remove k1 t in
      record (modify k2 t (set_link (some waiters))) {
        lists = update k2.lists waiters (insert_waiter k2.tasks t (k2.lists waiters));
      }

-- The loop of `sched_timeout_insert`: before the first task that wakes up later.
unfoldable pub insert_timeout : (ℕ → Task) → ℕ → List ℕ → List ℕ
insert_timeout tasks t [] = t ∷ []
insert_timeout tasks t (q ∷ qs) =
    if is_before (tasks t).wakeup (tasks q).wakeup
    then t ∷ q ∷ qs
    else q ∷ insert_timeout tasks t qs

unfoldable pub sched_timeout_insert : Sched → ℕ → Sched
unfolding insert_timeout
sched_timeout_insert k t =
    if t == 0 || not (k.tasks t).waiting_on_timer
    then k
    else let rest =
        if (k.tasks t).timeout_list then remove t k.timeout_task_list else k.timeout_task_list in
      record (modify k t (λ task. record task { timeout_list = true })) {
        timeout_task_list = insert_timeout k.tasks t rest;
      }

abbrev pub awake : Task → Task
awake task = record task { waiting_on_timer = false; state = TaskState.ready }

-- The task that was woken, 0 if there was none.
unfoldable pub sched_wake_one : Sched → ℕ → ℕ × Sched
unfolding sched_timeout_remove sched_ready_enqueue
sched_wake_one k waiters = elim (k.lists waiters) [
  | [] ↦ (0, k)
  | t ∷ ts ↦
      let k1 = sched_timeout_remove (unlink k t) t in (t, sched_ready_enqueue (modify k1 t awake) t)
]
