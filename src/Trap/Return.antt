-- ===== src/Trap/Return.antt =====
-- `do_trap` of boards/esp32c3/hal.c from the handler to the frame that it goes back to.
use tiny_rt.Base.{
  ℕ, ◌+◌, ◌-◌, ◌%◌, ◌^◌, ◌<◌, ◌≡◌, refl, sym, subst, Bool, true, false, some, ◌==◌, if-false,
  ne→==-false, inl, ◌∙◌,
}
use tiny_rt.Sched.Inv.{Inv-of_eq}
use tiny_rt.Sched.Switch.{sched_wake_expired}
use tiny_rt.Sched.Expire.{wake_expired-Serves}
use tiny_rt.Sched.Preempt.{IsRunning, Unranked}
use tiny_rt.Kernel.{Kernel}
use tiny_rt.Timer.Inv.{due, IsTimely}
use tiny_rt.Timer.Order.{key}
use tiny_rt.Timer.Fire.{late}
use tiny_rt.Timer.Expire.{IsQuiet, is_due, IsTimely-of_eq, run_expired-IsServed}
use tiny_rt.Trap.{Board, after_handler, leave, dispatch}
use tiny_rt.Trap.Safe.{IsSafe, wake_expired-Keeps, run_expired-IsSafe}
use tiny_rt.Trap.Dispatch.{dispatch_lem}

-- A callback that leaves the timers, the time and the lock as they are, and keeps the invariant of the
-- scheduler, a current task and an idle task that is neither blocked nor deleted.
pub record IsTame (run : ℕ → ℕ → Kernel → Kernel) : Type 0 where
  pub quiet : IsQuiet run
  pub safe : (n c a : ℕ) (k : Kernel) → IsSafe n k.sched → IsSafe n (run c a k).sched

-- What the trap handler returns with, for the board `b` after the handler of the interrupt.
pub record IsReturn (fired : Bool) (b : Board) (sp : ℕ) (b' : Board) : Type 0 where
  pub running : IsRunning b'.kernel.sched
  pub frame : sp ≡ (b'.kernel.sched.tasks b'.kernel.sched.current_task).sp
  pub best : b.kernel.sched.lock_count ≡ 0 → fired ≡ true → Unranked b'.kernel.sched
  pub none_due : (t : ℕ) → is_due b.kernel.sched.tick_count (b'.kernel.timers t) ≡ false
  pub nesting : b'.trap_nesting ≡ (b.trap_nesting + 2 ^ 32 - 1) % 2 ^ 32

-- The timeouts.
abbrev woken : Board → Kernel
woken b = record b.kernel { sched = sched_wake_expired b.kernel.sched }

after_wake :
    (b : Board) (n : ℕ)
    → IsSafe n b.kernel.sched
    → IsTimely b.kernel
    → IsSafe n (woken b).sched × IsTimely (woken b)
after_wake b n v t =
    let s = b.kernel.sched in
    let keeps = wake_expired-Keeps s in
    let v1 : IsSafe n (sched_wake_expired s) = record {
      inv = (wake_expired-Serves s v.inv).inv;
      awake = keeps.awake v.awake;
      not_null = rw keeps.current v.not_null;
      lock = keeps.lock ∙ v.lock;
    } in
    (v1, IsTimely-of_eq t refl refl keeps.now)

pub after_handler_lem :
    (run : ℕ → ℕ → Kernel → Kernel)
    → IsTame run
    → (fuel : ℕ) (fired : Bool) (task_sp : ℕ) (b : Board)
    → IsSafe b.kernel.sched.lock_count b.kernel.sched
    → IsTimely b.kernel
    → late (due b.kernel) b.kernel.timer_list < fuel
    → (sp : ℕ) × (b' : Board) × (after_handler run fuel fired task_sp b ≡ some (sp, b'))
      × IsReturn fired b sp b'
unfolding after_handler
after_handler_lem run tame fuel fired task_sp b v t enough =
    let n = b.kernel.sched.lock_count in
    let (v1, t1) = after_wake b n v t in
    let now : (woken b).sched.tick_count ≡ b.kernel.sched.tick_count =
      (wake_expired-Keeps b.kernel.sched).now in
    let few : late (due (woken b)) (woken b).timer_list < fuel =
      subst (λ m. late (λ x. key m (b.kernel.timers x).deadline) b.kernel.timer_list < fuel)
        (sym now) enough in
    let (k, ended, served) = run_expired-IsServed run tame.quiet fuel (woken b) t1 few in
    let v2 = run_expired-IsSafe run n (tame.safe n) fuel (woken b) v1 k ended in
    let (s, chosen, (r, u)) = dispatch_lem fired k.sched v2.inv v2.awake v2.not_null in
    let on : (b.kernel.sched.current_task == 0) ≡ false =
      ne→==-false b.kernel.sched.current_task 0 v.not_null in
    let b1 = record b { kernel = record k { sched = s } } in
    (
      (s.tasks s.current_task).sp,
      leave b1,
      if-false _ on (rw (ended, chosen, after_handler, dispatch) refl),
      record {
        running = record {
          inv = Inv-of_eq r.inv refl refl refl refl;
          not_null = r.not_null;
          runs = r.runs;
          awake = r.awake;
        };
        frame = refl;
        best = λ free tick. u (v2.lock ∙ free, inl tick);
        none_due = λ x. subst (λ m. is_due m (k.timers x) ≡ false) now (served.none_due x);
        nesting = refl;
      },
    )
