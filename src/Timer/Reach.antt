-- ===== src/Timer/Reach.antt =====
-- Any sequence of calls on the timers of src/kernel/timer.c.
use tiny_rt.Base.{some-injective, ℕ, ◌^◌, ◌<◌, ◌≡◌, ◌≢◌, false, true, some, subst, sym, ◌∙◌}
use tiny_rt.Kernel.{Kernel}
use tiny_rt.Timer.{
  timer_start_ticks_obj, timer_stop_obj, timer_destroy_obj, timer_setup_obj, timer_run_expired,
}
use tiny_rt.Timer.Inv.{
  IsTimely, due, start-IsTimely, stop-IsTimely, destroy-IsTimely, setup-IsTimely, ticked,
  tick-IsTimely,
}
use tiny_rt.Timer.Fire.{late}
use tiny_rt.Timer.Expire.{IsQuiet, IsTimely-of_eq, run_expired-IsServed}

-- A step: a call on a timer, with delays and periods of less than 2 ^ 30 ticks, the service of the
-- timers that are due, a tick while no timer is 2 ^ 30 ticks late, or anything else that leaves the
-- timers and the time as they are. A timer that is set up is not active.
pub data Step : Kernel → Kernel → Type 0 where
  starts :
      {k : Kernel} (t delay period : ℕ)
      → delay < 2 ^ 30
      → period < 2 ^ 30
      → Step k (timer_start_ticks_obj k t delay period)
  stops : {k : Kernel} (t : ℕ) → Step k (timer_stop_obj k t)
  destroys : {k : Kernel} (t : ℕ) → Step k (timer_destroy_obj k t).1
  sets_up :
      {k : Kernel} (t callback arg : ℕ)
      → (k.timers t).active ≡ false
      → Step k (timer_setup_obj k t callback arg)
  serves :
      {k k' : Kernel} (run : ℕ → ℕ → Kernel → Kernel) (fuel : ℕ)
      → IsQuiet run
      → late (due k) k.timer_list < fuel
      → timer_run_expired run fuel k ≡ some k'
      → Step k k'
  ticks : {k : Kernel} → ((t : ℕ) → (k.timers t).active ≡ true → due k t ≢ 0) → Step k (ticked k)
  elsewhere :
      {k k' : Kernel}
      → k'.timers ≡ k.timers
      → k'.timer_list ≡ k.timer_list
      → k'.sched.tick_count ≡ k.sched.tick_count
      → Step k k'

pub data Reach : Kernel → Kernel → Type 0 where
  here : {k : Kernel} → Reach k k
  next : {k k1 k2 : Kernel} → Step k k1 → Reach k1 k2 → Reach k k2

Step-IsTimely : {k k' : Kernel} → IsTimely k → Step k k' → IsTimely k'
Step-IsTimely v (starts t delay period hd hp) = start-IsTimely t delay period v hd hp
Step-IsTimely v (stops t) = stop-IsTimely t v
Step-IsTimely v (destroys t) = destroy-IsTimely t v
Step-IsTimely v (sets_up t callback arg off) = setup-IsTimely t callback arg v off
Step-IsTimely {k} v (serves run fuel quiet enough ended) =
    let (k1, e, served) = run_expired-IsServed run quiet fuel k v enough in
    subst IsTimely (some-injective (sym e ∙ ended)) served.timely
Step-IsTimely v (ticks recent) = tick-IsTimely v recent
Step-IsTimely v (elsewhere timers list now) = IsTimely-of_eq v timers list now

-- Timers that satisfy `IsTimely` keep doing so across any sequence of steps, on these conditions:
-- delays and periods are less than 2^30 ticks, the time goes on only while no timer is 2^30 ticks
-- late, a timer that is set up is not active, callbacks leave the timers and the time as they are, and
-- so does everything that is not a call on a timer. `IsTimely` says that a timer is in the list, and
-- once, if and only if it is active, and that the list is in the order of the deadlines.
pub Reach-IsTimely : {k k' : Kernel} → IsTimely k → Reach k k' → IsTimely k'
Reach-IsTimely v here = v
Reach-IsTimely v (next step rest) = Reach-IsTimely (Step-IsTimely v step) rest
