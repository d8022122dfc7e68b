-- ===== src/Sched/Timeout.antt =====
-- One round of `sched_wake_expired`.
use tiny_rt.Base.{
  ℕ, ◌≡◌, ◌≢◌, refl, true, false, not, ◌||◌, List, ◌∷◌, arith, inl, inr, Bool-cases, Option-cases,
  none, count, count-remove, remove, if◌then◌else◌,
}
use tiny_rt.Task.{Task, TaskState, WaitResult, state_eq}
use tiny_rt.Sched.{sched_ready_enqueue}
use tiny_rt.Sched.State.{Sched, modify, set_state, is_unlinked, unlink}
use tiny_rt.Sched.Switch.{wake_expired_task}
use tiny_rt.Sched.Inv.{Inv}
use tiny_rt.Sched.Mask.{IsMasked-of_eq}
use tiny_rt.Sched.Ready.{enqueue-Inv, modify_unlinked-Inv, modify_kept-Inv, unlink_wait-Inv}

abbrev untimed : Sched → ℕ → Sched
untimed k t = record (modify k t (λ task. record task { timeout_list = false })) {
  timeout_task_list = remove t k.timeout_task_list;
}

untimed-Inv : {k : Sched} (t : ℕ) → (k.tasks t).timeout_list ≡ true → Inv k → Inv (untimed k t)
untimed-Inv {k} t on v = record {
  linked = record {
    linked = λ s g. ground (arith, v.linked.linked s g);
    null = ground (arith, v.linked.null);
    timed = λ s. ground (arith, v.linked.timed s, count-remove s t k.timeout_task_list);
  };
  placed = record { fits = λ s g q. ground (arith, v.placed.fits s g) };
  masked = IsMasked-of_eq v.masked refl (λ p lt. refl);
}

abbrev timed_out : Task → Task
timed_out task = record task { waiting_on_timer = false; wait_result = WaitResult.timeout }

freed-Inv :
    {k : Sched} (t : ℕ)
    → Inv k
    → (k.tasks t).state ≡ TaskState.blocked
    → Inv (if is_unlinked (k.tasks t) then k else unlink k t)
      × (((if is_unlinked (k.tasks t) then k else unlink k t).tasks t).state_list ≡ none)
freed-Inv {k} t v b = elim (Option-cases (k.tasks t).state_list) [
  | inl e ↦ rw (e, is_unlinked) (v, e)
  | inr (h, e) ↦
      rw (e, is_unlinked)
        (unlink_wait-Inv t h v e (ground (arith, v.placed.fits t h)), ground arith)
]

wake_expired_task-Inv :
    {k : Sched} (t : ℕ) → Inv k → (k.tasks t).timeout_list ≡ true → Inv (wake_expired_task k t)
unfolding wake_expired_task
wake_expired_task-Inv {k} t v on =
    let v1 = untimed-Inv t on v in
    elim (Bool-cases
      (not (state_eq (k.tasks t).state TaskState.blocked) || not (k.tasks t).waiting_on_timer)) [
        | inl stays ↦ rw stays v1
        | inr wakes ↦
            let v2 = modify_kept-Inv t timed_out v1 refl refl refl refl in
            let (v3, free) = freed-Inv t v2 (ground arith) in
            rw wakes (
              enqueue-Inv t (modify_unlinked-Inv t (set_state TaskState.ready) v3 free free refl)
                (ground arith))
      ]

-- What the round for a task does.
pub record Round (k : Sched) (t : ℕ) (ts : List ℕ) (k' : Sched) : Type 0 where
  pub inv : Inv k'
  pub left : k'.timeout_task_list ≡ ts
  pub wakeup : (u : ℕ) → (k'.tasks u).wakeup ≡ (k.tasks u).wakeup
  pub woken :
      (k.tasks t).state ≡ TaskState.blocked
      → (k.tasks t).waiting_on_timer ≡ true
      → ((k'.tasks t).state ≡ TaskState.ready) × ((k'.tasks t).wait_result ≡ WaitResult.timeout)
  pub others : (u : ℕ) → u ≢ t → k'.tasks u ≡ k.tasks u

pub head-timed :
    {k : Sched} (t : ℕ) (ts : List ℕ)
    → Inv k
    → k.timeout_task_list ≡ t ∷ ts
    → ((k.tasks t).timeout_list ≡ true) × (count t ts ≡ 0)
unfolding count
head-timed {k} t ts v q = ground (arith, q, v.linked.timed t)

round_list :
    (k : Sched) (t : ℕ) (ts : List ℕ)
    → k.timeout_task_list ≡ t ∷ ts
    → (wake_expired_task k t).timeout_task_list ≡ ts
unfolding wake_expired_task sched_ready_enqueue remove
round_list k t ts q = ground (arith, q)

round_wakeup : (k : Sched) (t u : ℕ) → ((wake_expired_task k t).tasks u).wakeup ≡ (k.tasks u).wakeup
unfolding wake_expired_task sched_ready_enqueue
round_wakeup k t u = ground arith

round_woken :
    (k : Sched) (t : ℕ)
    → (k.tasks t).state ≡ TaskState.blocked
    → (k.tasks t).waiting_on_timer ≡ true
    → (((wake_expired_task k t).tasks t).state ≡ TaskState.ready)
      × (((wake_expired_task k t).tasks t).wait_result ≡ WaitResult.timeout)
unfolding wake_expired_task sched_ready_enqueue
round_woken k t b w = ground arith

pub round_others : (k : Sched) (t u : ℕ) → u ≢ t → (wake_expired_task k t).tasks u ≡ k.tasks u
unfolding wake_expired_task sched_ready_enqueue
round_others k t u ne = ground arith

pub wake_expired_task-Round :
    {k : Sched} (t : ℕ) (ts : List ℕ)
    → Inv k
    → k.timeout_task_list ≡ t ∷ ts
    → Round k t ts (wake_expired_task k t)
wake_expired_task-Round {k} t ts v q =
    let (on, _) = head-timed t ts v q in
    record {
      inv = wake_expired_task-Inv t v on;
      left = round_list k t ts q;
      wakeup = round_wakeup k t;
      woken = round_woken k t;
      others = round_others k t;
    }
