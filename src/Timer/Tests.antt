-- ===== src/Timer/Tests.antt =====
-- Runs of timer.c: a timer at address 5000, started for 3 ticks with a period of 2, in a kernel
-- without other timers, and served when 4 ticks have passed.
use tiny_rt.Base.{count, ◌==◌, if◌then◌else◌, ◌≡◌, refl, false, true, [], ◌∷◌, arith, some}
use tiny_rt.Kernel.{Kernel}
use tiny_rt.Semaphore.Tests.{kernel}
use tiny_rt.Timer.{timer_setup_obj, timer_start_ticks_obj, timer_stop_obj, timer_run_expired}
use tiny_rt.Timer.Inv.{IsTimely}
use tiny_rt.Timer.Expire.{IsQuiet, IsServed, run_expired-IsServed}
use tiny_rt.Timer.Reach.{here, next, sets_up, starts, stops, Reach-IsTimely}
use tiny_rt.Sched.Tests.{sample}
use tiny_rt.Sched.{sched_ready_enqueue}

kernel-IsTimely : IsTimely kernel
unfolding sample sched_ready_enqueue count
kernel-IsTimely = record {
  now_word = ground arith;
  linked = λ t. refl;
  null = refl;
  words = λ t on. absurd (ground (arith, on));
  window = λ t on. absurd (ground (arith, on));
  periods = λ t on. absurd (ground (arith, on));
  sorted = tt;
}

set_up : Kernel
set_up = timer_setup_obj kernel 5000 700 1

running : Kernel
running = timer_start_ticks_obj set_up 5000 3 2

Reach-IsTimely_example : IsTimely (timer_stop_obj running 5000)
unfolding set_up running
Reach-IsTimely_example = Reach-IsTimely kernel-IsTimely (
    next (sets_up 5000 700 1 refl)
      (next (starts 5000 3 2 (ground arith) (ground arith)) (next (stops 5000) here)))

-- Callbacks that do nothing.
quiet : IsQuiet (λ c a k. k)
quiet = record { timers = λ c a k. refl; timer_list = λ c a k. refl; now = λ c a k. refl }

-- The timer one tick late.
abbrev pub behind : Kernel
behind = record kernel {
  sched = record kernel.sched { tick_count = 4 };
  timers = λ t.
      if t == 5000
      then record { deadline = 3; period = 2; callback = 700; arg = 1; active = true }
      else record { deadline = 0; period = 0; callback = 0; arg = 0; active = false };
  timer_list = 5000 ∷ [];
}

pub behind-IsTimely : IsTimely behind
unfolding count
behind-IsTimely = record {
  now_word = ground arith;
  linked = λ t. ground arith;
  null = ground arith;
  words = λ t on. ground (arith, on);
  window = λ t on. ground (arith, on);
  periods = λ t on. ground (arith, on);
  sorted = (λ u c. absurd (c refl), tt);
}

run_expired-IsServed_example :
    (k' : Kernel) × (timer_run_expired (λ c a k. k) 3 behind ≡ some k') × IsServed behind k'
run_expired-IsServed_example =
    run_expired-IsServed (λ c a k. k) quiet 3 behind behind-IsTimely (ground arith)
