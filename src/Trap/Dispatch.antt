-- ===== src/Trap/Dispatch.antt =====
-- The task that the trap handler goes back to.
use tiny_rt.Base.{
  ◌≡◌, ◌≢◌, refl, ◌⊎◌, inl, inr, Bool, true, false, not, arith, Bool-cases, ◌==◌, ◌||◌,
}
use tiny_rt.Task.{TaskState, state_eq}
use tiny_rt.Sched.Inv.{Inv, Inv-of_eq}
use tiny_rt.Sched.Pick.{IsIdleAwake}
use tiny_rt.Sched.Preempt.{
  IsRunning, Unranked, Gives, switch_lem, try_reschedule_lem, on_tick_keeps, on_tick-Unranked,
}
use tiny_rt.Sched.State.{Sched}
use tiny_rt.Sched.Switch.{sched_current_is_idle, sched_on_tick, sched_is_locked, sched_set_pending}
use tiny_rt.Trap.{dispatch, on_tick}

-- With the lock free, a tick of a running task ends with the best task.
on_tick_lem :
    (s : Sched)
    → IsRunning s
    → Gives (λ s'. IsRunning s' × (s.lock_count ≡ 0 → Unranked s')) (on_tick s)
unfolding on_tick sched_is_locked sched_set_pending
on_tick_lem s r =
    let s1 = (sched_on_tick s).1 in
    let (el, et, em, eq, ec, ei, ek) = on_tick_keeps s in
    let v1 : Inv s1 = Inv-of_eq r.inv el et em eq in
    let awake1 : IsIdleAwake s1 = rw (ei, et) r.awake in
    let P = λ (s' : Sched). IsRunning s' × (s.lock_count ≡ 0 → Unranked s') in
    elim (Bool-cases (sched_on_tick s).0) [
      | inr stays ↦ (
        s1,
        rw (stays, on_tick) refl,
        (
          record {
            inv = v1;
            not_null = rw ec r.not_null;
            runs = rw (et, ec) r.runs;
            awake = awake1;
          },
          λ free. rw (et, ec) (on_tick-Unranked s r.inv r.not_null stays),
        ),
      )
      | inl over ↦ elim (Bool-cases (not (s1.lock_count == 0))) [
        | inl locked ↦ (
          record s1 { resched_pending = true },
          rw (over, locked, on_tick) refl,
          (
            record {
              inv = Inv-of_eq v1 refl refl refl refl;
              not_null = rw ec r.not_null;
              runs = rw (et, ec) r.runs;
              awake = awake1;
            },
            λ free. absurd (ground (arith, ek)),
          ),
        )
        | inr free ↦
            let (s', e, (r', u)) = switch_lem s1 v1 awake1 in
            (s', rw (over, free, on_tick, e) refl, (r', λ f. u))
      ]
    ]

-- A switch is due, and the lock lets it happen.
abbrev pub IsDue : Bool → Sched → Type 0
IsDue fired s =
    (s.lock_count ≡ 0) × ((fired ≡ true) ⊎ (s.started ≡ true) × (s.resched_pending ≡ true))

-- A task that goes on, unless a switch is due.
dispatch_running :
    (fired : Bool) (s : Sched)
    → IsRunning s
    → not (state_eq (s.tasks s.current_task).state TaskState.running) || sched_current_is_idle s
      ≡ false
    → Gives (λ s'. IsRunning s' × (IsDue fired s → Unranked s')) (dispatch fired s)
unfolding dispatch
dispatch_running true s r goes =
    let (s1, e, (r1, u)) = on_tick_lem s r in (s1, rw (goes, dispatch, e) refl, (r1, λ d. u d.0))
dispatch_running false s r goes =
    let (b, s2, e, r2, w) = try_reschedule_lem s r in
    let due = λ (d : IsDue false s).
      w (elim d.1 [ inl t ↦ absurd (ground (arith, t)) | inr c ↦ inr (c.0, c.1, d.0) ]) in
    (s2, rw (goes, dispatch, e) refl, (r2, due))

-- A task that cannot go on, or that another may replace.
dispatch_stopped :
    (fired : Bool) (s : Sched)
    → Inv s
    → IsIdleAwake s
    → not (state_eq (s.tasks s.current_task).state TaskState.running) || sched_current_is_idle s
      ≡ true
    → Gives (λ s'. IsRunning s' × Unranked s') (dispatch fired s)
unfolding dispatch
dispatch_stopped true s v a stops =
    let (s1, e, best) = switch_lem s v a in (s1, rw (stops, dispatch, e) refl, best)
dispatch_stopped false s v a stops =
    let (s1, e, (r, u)) = switch_lem s v a in
    let (b, s2, e2, r2, w) = try_reschedule_lem s1 r in
    (s2, rw (stops, dispatch, e, e2) refl, (r2, w (inl u)))

-- With the invariant, an idle task that is neither blocked nor deleted, and a current task, the trap
-- handler always finds a task to go back to, and keeps the invariant. That task is running; and
-- after a tick, or with a reschedule pending in a scheduler that has started, in both cases with the
-- lock free, no task in a ready list has a higher priority.
pub dispatch_lem :
    (fired : Bool) (s : Sched)
    → Inv s
    → IsIdleAwake s
    → s.current_task ≢ 0
    → Gives (λ s'. IsRunning s' × (IsDue fired s → Unranked s')) (dispatch fired s)
dispatch_lem fired s v a nz =
    elim (Bool-cases (
      not (state_eq (s.tasks s.current_task).state TaskState.running) || sched_current_is_idle s)) [
        | inl stops ↦
            let (s', e, (r, u)) = dispatch_stopped fired s v a stops in (s', e, (r, λ d. u))
        | inr goes ↦
            dispatch_running fired s
              (record { inv = v; not_null = nz; runs = ground arith; awake = a }) goes
      ]
