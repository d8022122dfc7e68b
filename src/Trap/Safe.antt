-- ===== src/Trap/Safe.antt =====
-- What the timeouts and the timers of a trap leave as it is.
use tiny_rt.Base.{
  some-injective, ℕ, zero, suc, ◌≡◌, ◌≢◌, refl, ap, sym, subst, if_either, ◌∙◌, some, Option, arith,
  inl, inr, Bool-cases, not, is_empty, eq-nil_of_empty, cons_of_not-empty, true, ◌==◌, ==→eq,
  ==-false→ne,
}
use tiny_rt.Task.{TaskState, state_eq}
use tiny_rt.Sched.State.{Sched}
use tiny_rt.Sched.Timeout.{round_others}
use tiny_rt.Sched.Inv.{Inv}
use tiny_rt.Sched.Pick.{IsIdleAwake}
use tiny_rt.Sched.{sched_ready_enqueue, timer_expired}
use tiny_rt.Sched.Switch.{wake_expired_task, wake_expired_loop, sched_wake_expired}
use tiny_rt.Sched.Expire.{loop_nil, loop_cons}
use tiny_rt.Timer.Expire.{loop_end, loop_step}
use tiny_rt.Kernel.{Kernel}
use tiny_rt.Timer.{fire, timer_run_expired, timer_insert_locked}

-- The idle task, the current task, the lock and the time.
pub record Keeps (s s' : Sched) : Type 0 where
  pub awake : IsIdleAwake s → IsIdleAwake s'
  pub current : s'.current_task ≡ s.current_task
  pub lock : s'.lock_count ≡ s.lock_count
  pub now : s'.tick_count ≡ s.tick_count

wake_expired_task_fields :
    (s : Sched) (t : ℕ)
    → ((wake_expired_task s t).idle_task ≡ s.idle_task)
      × ((wake_expired_task s t).current_task ≡ s.current_task)
      × ((wake_expired_task s t).lock_count ≡ s.lock_count)
      × ((wake_expired_task s t).tick_count ≡ s.tick_count)
unfolding wake_expired_task sched_ready_enqueue
wake_expired_task_fields s t = ground arith

-- A task that does not wait is not touched but for its place in the list.
awake_state :
    (s : Sched) (t : ℕ) (x : TaskState)
    → x ≢ TaskState.blocked
    → (s.tasks t).state ≡ x
    → ((wake_expired_task s t).tasks t).state ≡ x
unfolding wake_expired_task
awake_state s t x ne e =
    let off : not (state_eq (s.tasks t).state TaskState.blocked) ≡ true = ground arith in
    rw off (ground arith)

stays :
    (s : Sched) (t i : ℕ) (x : TaskState)
    → x ≢ TaskState.blocked
    → (s.tasks i).state ≡ x
    → ((wake_expired_task s t).tasks i).state ≡ x
stays s t i x ne e = elim (Bool-cases (i == t)) [
  | inl same ↦
      let q = ==→eq i t same in
      rw q (awake_state s t x ne (ap (λ u. (s.tasks u).state) (sym q) ∙ e))
  | inr other ↦ ap (λ a. a.state) (round_others s t i (==-false→ne i t other)) ∙ e
]

task-Keeps : (s : Sched) (t : ℕ) → Keeps s (wake_expired_task s t)
task-Keeps s t =
    let (ei, ec, el, en) = wake_expired_task_fields s t in
    record {
      awake = λ (nz, a). (
        rw ei nz,
        rw ei (elim a [
          | inl ready ↦ inl (stays s t s.idle_task TaskState.ready (ground arith) ready)
          | inr running ↦ inr (stays s t s.idle_task TaskState.running (ground arith) running)
        ]),
      );
      current = ec;
      lock = el;
      now = en;
    }

fire_sched : (k : Kernel) (t : ℕ) → (fire k t).sched ≡ k.sched
unfolding fire timer_insert_locked
fire_sched k t = ground arith

Keeps-trans : {s s1 s2 : Sched} → Keeps s s1 → Keeps s1 s2 → Keeps s s2
Keeps-trans a b = record {
  awake = λ h. b.awake (a.awake h);
  current = b.current ∙ a.current;
  lock = b.lock ∙ a.lock;
  now = b.now ∙ a.now;
}

Keeps-refl : (s : Sched) → Keeps s s
Keeps-refl s = record { awake = λ h. h; current = refl; lock = refl; now = refl }

loop-Keeps : (fuel now : ℕ) (s : Sched) → Keeps s (wake_expired_loop fuel now s)
unfolding wake_expired_loop
loop-Keeps zero now s = Keeps-refl s
loop-Keeps (suc fuel) now s = elim (Bool-cases (is_empty s.timeout_task_list)) [
  | inl nothing ↦
      rw (loop_nil fuel now s (eq-nil_of_empty s.timeout_task_list nothing)) (Keeps-refl s)
  | inr something ↦
      let (t, ts, q) = cons_of_not-empty s.timeout_task_list something in
      let s1 = wake_expired_task s t in
      rw (loop_cons fuel now s t ts q) (
        if_either (Keeps s) (timer_expired now (s.tasks t).wakeup)
          (Keeps-trans (task-Keeps s t) (loop-Keeps fuel now s1)) (Keeps-refl s))
]

pub wake_expired-Keeps : (s : Sched) → Keeps s (sched_wake_expired s)
unfolding sched_wake_expired
wake_expired-Keeps s = loop-Keeps _ s.tick_count s

-- The scheduler while a callback runs.
pub record IsSafe (n : ℕ) (s : Sched) : Type 0 where
  pub inv : Inv s
  pub awake : IsIdleAwake s
  pub not_null : s.current_task ≢ 0
  pub lock : s.lock_count ≡ n

-- What holds of the kernel when the timers are done.
abbrev Ends : ℕ → Option Kernel → Type 0
Ends n o = (k : Kernel) → o ≡ some k → IsSafe n k.sched

-- The timers keep what every callback keeps.
pub run_expired-IsSafe :
    (run : ℕ → ℕ → Kernel → Kernel) (n : ℕ)
    → ((c a : ℕ) (k : Kernel) → IsSafe n k.sched → IsSafe n (run c a k).sched)
    → (fuel : ℕ) (k : Kernel) → IsSafe n k.sched
    → Ends n (timer_run_expired run fuel k)
unfolding timer_run_expired
run_expired-IsSafe run n safe zero k v = λ k' e. absurd (ground (arith, e))
run_expired-IsSafe run n safe (suc fuel) k v = elim (Bool-cases (is_empty k.timer_list)) [
  | inl nothing ↦ rw (loop_end run fuel k (eq-nil_of_empty k.timer_list nothing)) (here k v)
  | inr something ↦
      let (t, ts, q) = cons_of_not-empty k.timer_list something in
      let timer = k.timers t in
      let v1 =
        safe timer.callback timer.arg (fire k t) (subst (IsSafe n) (sym (fire_sched k t)) v) in
      rw (loop_step run fuel k t ts q) (
        if_either (Ends n) (not (timer_expired k.sched.tick_count timer.deadline)) (here k v)
          (run_expired-IsSafe run n safe fuel (run timer.callback timer.arg (fire k t)) v1))
]
  where
    here : (k1 : Kernel) → IsSafe n k1.sched → Ends n (some k1)
    here k1 v1 k' e = subst (IsSafe n) (ap (λ k. k.sched) (some-injective e)) v1
