-- ===== src/Time.antt =====
-- src/kernel/timer.c and include/timer.h: 64-bit microseconds to 32-bit ticks of one millisecond.
pub mod Tests
use tiny_rt.Base.{
  ℕ, ◌+◌, ◌-◌, ◌*◌, ◌/◌, ◌%◌, ◌^◌, ◌≤◌, ◌<◌, ◌≡◌, true, ◌==◌, ltb, leb, if◌then◌else◌, arith, ◌⊎◌,
  inl, inr, Bool-cases,
}
use tiny_rt.Sched.{timer_expired}

-- TRT_TIME_FOREVER_US.
abbrev pub forever_us : ℕ
forever_us = 2 ^ 64 - 1

-- TICK_PERIOD_US.
abbrev pub tick_period_us : ℕ
tick_period_us = 1000

-- The sum before the division is a `uint64_t`.
unfoldable pub timer_us_to_ticks : ℕ → ℕ
timer_us_to_ticks us =
    if us == 0
    then 0
    else let ticks = (us + tick_period_us - 1) % 2 ^ 64 / tick_period_us in
      if ltb (2 ^ 32 - 1) ticks then 2 ^ 32 - 1 else ticks

unfoldable pub timer_ms_to_ticks : ℕ → ℕ
timer_ms_to_ticks ms = timer_us_to_ticks (ms * 1000 % 2 ^ 64)

unfoldable pub timer_sec_to_ticks : ℕ → ℕ
timer_sec_to_ticks sec = timer_ms_to_ticks (sec * 1000 % 2 ^ 64)

-- A delay of at most 2 ^ 64 - 1000 microseconds that fits in 2 ^ 32 - 1 ticks is rounded up to
-- whole ticks: the ticks last at least the delay, and less than one tick longer.
pub us_to_ticks_rounds_up :
    (us : ℕ)
    → us ≤ 2 ^ 64 - 1000
    → us ≤ (2 ^ 32 - 1) * 1000
    → (us ≤ timer_us_to_ticks us * 1000) × (timer_us_to_ticks us * 1000 < us + 1000)
unfolding timer_us_to_ticks
us_to_ticks_rounds_up us h k = ground arith

-- A longer delay is cut to 2 ^ 32 - 1 ticks, if it is at most 2 ^ 64 - 1000 microseconds; from
-- there up to TRT_TIME_FOREVER_US the sum wraps, and the delay comes out as 0 ticks.
pub us_to_ticks_limits :
    (us : ℕ)
    → us < 2 ^ 64
    → (2 ^ 32 - 1) * 1000 < us
    → ((us ≤ 2 ^ 64 - 1000) × (timer_us_to_ticks us ≡ 2 ^ 32 - 1))
      ⊎ ((2 ^ 64 - 1000 < us) × (timer_us_to_ticks us ≡ 0))
unfolding timer_us_to_ticks
us_to_ticks_limits us h long = elim (Bool-cases (leb us (2 ^ 64 - 1000))) [
  | inl le ↦ inl (ground arith, ground arith)
  | inr gt ↦ inr (ground arith, ground arith)
]

-- A deadline set `n` ticks ahead of a 32-bit clock, with `n` at most 2 ^ 31: after `d` ticks, `d`
-- below 2 ^ 31, it has expired exactly if `d` is at least `n`, also when the clock wraps in
-- between. With `n` above 2 ^ 31 it counts as expired at once.
pub expired-deadline :
    (now n d : ℕ)
    → now < 2 ^ 32
    → n < 2 ^ 32
    → d < 2 ^ 31
    → ((n ≤ 2 ^ 31) × (timer_expired ((now + d) % 2 ^ 32) ((now + n) % 2 ^ 32) ≡ leb n d))
      ⊎ ((2 ^ 31 < n) × (timer_expired now ((now + n) % 2 ^ 32) ≡ true))
expired-deadline now n d h k l = elim (Bool-cases (leb n (2 ^ 31))) [
  | inl le ↦ inl (ground arith, ground arith)
  | inr gt ↦ inr (ground arith, ground arith)
]
