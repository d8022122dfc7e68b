-- ===== src/TaskCalls/Delete.antt =====
-- The deletion of a task in src/kernel/task.c.
use tiny_rt.Base.{
  count, ℕ, ◌-◌, ◌≡◌, ◌≢◌, refl, ◌∙◌, ◌⊎◌, inl, inr, true, false, not, some, arith, Bool-cases,
  ◌==◌, ◌||◌, [], ◌∷◌, ◌++◌, if◌then◌else◌, ==→eq, ==-false→ne,
}
use tiny_rt.Error.{Err}
use tiny_rt.Task.{TaskState, state_eq}
use tiny_rt.Sched.Inv.{Inv, Inv-of_eq}
use tiny_rt.Sched.Ready.{modify_kept-Inv}
use tiny_rt.Sched.Wake.{mark_deleted-Inv}
use tiny_rt.Sched.Delete.{mark_deleted-IsMarked}
use tiny_rt.Sched.State.{Sched, modify, deleted_head}
use tiny_rt.Sched.Switch.{sched_is_locked}
use tiny_rt.WaitQueue.{Reply, done, waits}
use tiny_rt.Handle.{trt_handle_close}
use tiny_rt.Kernel.{Kernel}
use tiny_rt.TaskCalls.{delete_marked, delete_task, task_delete_obj, request}

-- A task has been deleted: it is the last of the deleted tasks, in no ready or wait list, not in the
-- list of timeouts, and still where it was in the list of all tasks; its handle is closed, and no other
-- task changes.
pub record IsDeleted (k : Kernel) (t : ℕ) (k' : Kernel) : Type 0 where
  pub sound : Inv k'.sched
  pub last : k'.sched.lists deleted_head ≡ k.sched.lists deleted_head ++ t ∷ []
  pub deleted : (k'.sched.tasks t).state ≡ TaskState.deleted
  pub linked : (k'.sched.tasks t).state_list ≡ some deleted_head
  pub unlinked : (h : ℕ) → h ≢ deleted_head → count t (k'.sched.lists h) ≡ 0
  pub untimed : count t k'.sched.timeout_task_list ≡ 0
  pub master : k'.sched.master_task_list ≡ k.sched.master_task_list
  pub others : (u : ℕ) → u ≢ t → k'.sched.tasks u ≡ k.sched.tasks u
  pub closed : k'.handles ≡ (
      if (k.sched.tasks t).handle == 0
      then k.handles
      else (trt_handle_close k.handles (k.sched.tasks t).handle).1)
  pub counted : k'.task_count ≡ k.task_count - 1

-- What the closing of the handle leaves of the scheduler.
abbrev handle_cleared : Sched → ℕ → Sched
handle_cleared s t = modify s t (λ task. record task { handle = 0 })

count_down : (n : ℕ) → (if not (n == 0) then n - 1 else n) ≡ n - 1
count_down n = ground arith

unlinked_from :
    {s : Sched} (t h : ℕ)
    → Inv s
    → (s.tasks t).state_list ≡ some deleted_head
    → h ≢ deleted_head
    → count t (s.lists h) ≡ 0
unlinked_from t h v e ne = ground (arith, v.linked.linked t h, e, ne)

untimed_from :
    {s : Sched} (t : ℕ) → Inv s → (s.tasks t).timeout_list ≡ false → count t s.timeout_task_list ≡ 0
untimed_from t v e = ground (arith, v.linked.timed t, e)

delete_marked-IsDeleted :
    (k : Kernel) (t : ℕ)
    → Inv k.sched
    → t ≢ 0
    → t ≢ k.sched.idle_task
    → (k.sched.tasks t).state ≢ TaskState.deleted
    → IsDeleted k t (delete_marked k t)
unfolding delete_marked
delete_marked-IsDeleted k t v nz busy live = elim (Bool-cases ((k.sched.tasks t).handle == 0)) [
  | inl z ↦
      let m = mark_deleted-IsMarked k.sched t v nz busy live in
      let v' = mark_deleted-Inv t v in
      rw z (record {
        sound = v';
        last = m.last;
        deleted = m.deleted;
        linked = m.linked;
        unlinked = λ h ne. unlinked_from t h v' m.linked ne;
        untimed = untimed_from t v' m.untimed;
        master = m.master;
        others = m.others;
        closed = rw z refl;
        counted = count_down k.task_count;
      })
  | inr some_handle ↦
      let s = handle_cleared k.sched t in
      let v1 : Inv s =
        modify_kept-Inv t (λ task. record task { handle = 0 }) v refl refl refl refl in
      let m = mark_deleted-IsMarked s t v1 nz busy (ground (arith, live)) in
      let v' = mark_deleted-Inv t v1 in
      rw some_handle (record {
        sound = v';
        last = m.last;
        deleted = m.deleted;
        linked = m.linked;
        unlinked = λ h ne. unlinked_from t h v' m.linked ne;
        untimed = untimed_from t v' m.untimed;
        master = m.master;
        others = λ u ne. m.others u ne ∙ ground (arith, ne);
        closed = rw some_handle refl;
        counted = count_down k.task_count;
      })
]

-- The outcomes of a deletion of the task `t`.
abbrev pub Deletes : Kernel → ℕ → Reply × Kernel → Type 0
Deletes k t r =
    (((t ≡ 0) ⊎ (t ≡ k.sched.idle_task)) × (r ≡ (done Err.inval, k)))
    ⊎ (((k.sched.tasks t).state ≡ TaskState.deleted) × (r ≡ (done Err.state, k)))
    ⊎ ((t ≡ k.sched.current_task) × (k.sched.lock_count ≢ 0) × (r ≡ (done Err.locked, k)))
    ⊎ ((t ≢ 0)
        × (t ≢ k.sched.idle_task)
        × ((k.sched.tasks t).state ≢ TaskState.deleted)
        × ((t ≢ k.sched.current_task) ⊎ (k.sched.lock_count ≡ 0))
        × ((k' : Kernel) × (r ≡ (if t == k.sched.current_task then waits else done Err.ok, k'))
            × IsDeleted k t k'))

state_of_eq : (s : TaskState) → state_eq s TaskState.deleted ≡ true → s ≡ TaskState.deleted
state_of_eq s e = ground (arith, e)

requested-IsDeleted :
    {k : Kernel} (t : ℕ) (k' : Kernel)
    → IsDeleted k t k'
    → IsDeleted k t (record k' { sched = request k'.sched })
requested-IsDeleted t k' d = record {
  sound = Inv-of_eq d.sound refl refl refl refl;
  last = d.last;
  deleted = d.deleted;
  linked = d.linked;
  unlinked = d.unlinked;
  untimed = d.untimed;
  master = d.master;
  others = d.others;
  closed = d.closed;
  counted = d.counted;
}

null_or_idle : (t idle : ℕ) → ((t == 0) || (t == idle)) ≡ true → (t ≡ 0) ⊎ (t ≡ idle)
null_or_idle t idle e = elim (Bool-cases (t == 0)) [
  | inl z ↦ inl (==→eq t 0 z)
  | inr nz ↦ inr (ground (arith, e, nz))
]

delete_task-Deletes : (k : Kernel) (t : ℕ) → Inv k.sched → Deletes k t (delete_task k t)
unfolding delete_task sched_is_locked
delete_task-Deletes k t v = elim (Bool-cases ((t == 0) || (t == k.sched.idle_task))) [
  | inl bad ↦ inl (null_or_idle t k.sched.idle_task bad, rw bad refl)
  | inr good ↦ elim (Bool-cases (state_eq (k.sched.tasks t).state TaskState.deleted)) [
    | inl dead ↦ inr (inl (state_of_eq (k.sched.tasks t).state dead, rw (good, dead) refl))
    | inr live ↦
        let alive : (k.sched.tasks t).state ≢ TaskState.deleted = λ e. ground (arith, e, live) in
        let nz : t ≢ 0 = λ z. ground (arith, z, good) in
        let busy : t ≢ k.sched.idle_task = λ z. ground (arith, z, good) in
        let d = delete_marked-IsDeleted k t v nz busy alive in
        elim (Bool-cases (t == k.sched.current_task)) [
          | inr other ↦ inr (
              inr (
                inr (
                  nz,
                  busy,
                  alive,
                  inl (==-false→ne t k.sched.current_task other),
                  (delete_marked k t, rw (good, live, other) refl, d),
                )))
          | inl self ↦ elim (Bool-cases (k.sched.lock_count == 0)) [
            | inr locked ↦ inr (
                inr (
                  inl (
                    ==→eq t k.sched.current_task self,
                    ==-false→ne k.sched.lock_count 0 locked,
                    rw (good, live, self, locked) refl,
                  )))
            | inl unlocked ↦ inr (
                inr (
                  inr (
                    nz,
                    busy,
                    alive,
                    inr (==→eq k.sched.lock_count 0 unlocked),
                    (
                      record (delete_marked k t) { sched = request (delete_marked k t).sched },
                      rw (good, live, self, unlocked) refl,
                      requested-IsDeleted t (delete_marked k t) d,
                    ),
                  )))
          ]
        ]
  ]
]

-- `task_delete_obj` on a task, or on the current one for NULL, with the scheduler's invariant:
-- ERR_INVAL for the idle task or if there is no current task, ERR_STATE for a task that is already
-- deleted, and ERR_LOCKED for the current task while the scheduler is locked change nothing. Any
-- other task is deleted: it is the last of the deleted tasks, in no ready or wait list and not in the
-- list of timeouts, while the list of all tasks is as it was; its handle is closed, there is one task
-- less and no other task changes. The call answers ERR_OK, or traps for ever if the task is the
-- current one.
pub delete_obj-Deletes :
    (k : Kernel) (task : ℕ)
    → Inv k.sched
    → Deletes k (if task == 0 then k.sched.current_task else task) (task_delete_obj k task)
unfolding task_delete_obj
delete_obj-Deletes k task v =
    delete_task-Deletes k (if task == 0 then k.sched.current_task else task) v
