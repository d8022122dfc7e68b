-- ===== src/Time/Tests.antt =====
-- Delays and deadlines of timer.c.
use tiny_rt.Base.{◌+◌, ◌-◌, ◌%◌, ◌^◌, ◌≤◌, ◌<◌, ◌≡◌, refl, true, arith, ◌⊎◌, leb}
use tiny_rt.Sched.{timer_expired}
use tiny_rt.Time.{forever_us, timer_us_to_ticks, us_to_ticks_limits, expired-deadline}

us_to_ticks_runs :
    (timer_us_to_ticks 0 ≡ 0)
    × (timer_us_to_ticks 1 ≡ 1)
    × (timer_us_to_ticks 1000 ≡ 1)
    × (timer_us_to_ticks 1001 ≡ 2)
    × (timer_us_to_ticks forever_us ≡ 0)
unfolding timer_us_to_ticks
us_to_ticks_runs = (refl, refl, refl, refl, refl)

us_to_ticks_limits_example :
    ((2 ^ 64 - 1 ≤ 2 ^ 64 - 1000) × (timer_us_to_ticks (2 ^ 64 - 1) ≡ 2 ^ 32 - 1))
    ⊎ ((2 ^ 64 - 1000 < 2 ^ 64 - 1) × (timer_us_to_ticks (2 ^ 64 - 1) ≡ 0))
us_to_ticks_limits_example = us_to_ticks_limits (2 ^ 64 - 1) (ground arith) (ground arith)

-- The clock wraps before the deadline.
expired-deadline_example :
    ((20 ≤ 2 ^ 31)
      × (timer_expired ((2 ^ 32 - 10 + 15) % 2 ^ 32) ((2 ^ 32 - 10 + 20) % 2 ^ 32) ≡ leb 20 15))
    ⊎ ((2 ^ 31 < 20) × (timer_expired (2 ^ 32 - 10) ((2 ^ 32 - 10 + 20) % 2 ^ 32) ≡ true))
expired-deadline_example =
    expired-deadline (2 ^ 32 - 10) 20 15 (ground arith) (ground arith) (ground arith)
