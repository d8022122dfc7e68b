-- ===== src/Trap.antt =====
-- `do_trap` of boards/esp32c3/hal.c: what the trap handler does to the kernel, and the frame that
-- it goes back to. The words of a frame, which the handler moves past an `ecall`, are left out. The
-- value of the hardware counter, the handlers in the table of interrupts, and the callbacks of timers
-- are parameters.
pub mod Dispatch
pub mod Safe
pub mod Return
pub mod Tick
pub mod Tests
use tiny_rt.Base.{
  ℕ, ◌+◌, ◌-◌, ◌*◌, ◌/◌, ◌%◌, ◌^◌, Bool, true, false, not, ◌&&◌, ◌||◌, ◌==◌, leb, if◌then◌else◌,
  Option, none, some,
}
use tiny_rt.Task.{TaskState, state_eq}
use tiny_rt.Sched.State.{Sched, modify}
use tiny_rt.Sched.Switch.{
  switch, sched_current_is_idle, sched_on_tick, sched_wake_expired, sched_is_locked,
  sched_set_pending, sched_try_reschedule_from_trap,
}
use tiny_rt.Kernel.{Kernel}
use tiny_rt.Timer.{timer_run_expired}

-- The kernel with the statics of hal.c.
pub record Board : Type 0 where
  pub kernel : Kernel
  pub trap_nesting : ℕ
  pub systimer_cpu_irq : ℕ
  pub systimer_initialized : Bool

-- TICK_PERIOD_TICKS.
abbrev pub tick_period_ticks : ℕ
tick_period_ticks = 16000

-- A change of `trap_nesting`, which `arch_in_isr` reads.
abbrev pub nested : Board → ℕ → Board
nested b n = record b {
  trap_nesting = n % 2 ^ 32;
  kernel = record b.kernel { sched = record b.kernel.sched { in_isr = not (n % 2 ^ 32 == 0) } };
}

abbrev pub enter : Board → Board
enter b = nested b (b.trap_nesting + 1)

abbrev pub leave : Board → Board
leave b = nested b (b.trap_nesting + 2 ^ 32 - 1)

-- `SysTick_Handler`, with the value of the counter.
abbrev pub sys_tick_handler : ℕ → Kernel → Kernel
sys_tick_handler counter k = record k {
  sched = record k.sched { tick_count = counter / tick_period_ticks % 2 ^ 32 };
}

abbrev pub is_tick : Board → ℕ → Bool
is_tick b id = b.systimer_initialized && (id == b.systimer_cpu_irq)

-- An interrupt with a valid number.
unfoldable pub interrupt : (ℕ → Option (Kernel → Kernel)) → ℕ → Board → ℕ → Board
interrupt handlers counter b id =
    if is_tick b id
    then record b { kernel = sys_tick_handler counter b.kernel }
    else elim (handlers id) [ none ↦ b | some f ↦ record b { kernel = f b.kernel } ]

-- The tick of a running task: its time slice may be over.
unfoldable pub on_tick : Sched → Option Sched
unfolding sched_on_tick sched_is_locked sched_set_pending switch
on_tick s =
    let (over, s1) = sched_on_tick s in
    if over
    then (if sched_is_locked s1 then some (sched_set_pending s1) else switch s1)
    else some s1

-- The choice of the task to go back to; `fired` says whether the tick has come. `none` as in
-- `sched_pick_next`.
unfoldable pub dispatch : Bool → Sched → Option Sched
unfolding switch sched_current_is_idle sched_try_reschedule_from_trap
dispatch fired s =
    elim (if not (state_eq (s.tasks s.current_task).state TaskState.running)
        || sched_current_is_idle s
      then switch s
      else if fired
      then on_tick s
      else some s) [
        | none ↦ none
        | some s1 ↦
            if fired
            then some s1
            else elim (sched_try_reschedule_from_trap s1) [ none ↦ none | some (_, s2) ↦ some s2 ]
      ]

-- From the end of the handlers on. `run` and `fuel` are those of `timer_run_expired`.
unfoldable pub after_handler : (ℕ → ℕ → Kernel → Kernel) → ℕ → Bool → ℕ → Board → Option (ℕ × Board)
unfolding sched_wake_expired timer_run_expired dispatch
after_handler run fuel fired task_sp b =
    if b.kernel.sched.current_task == 0
    then some (task_sp, leave b)
    else elim (timer_run_expired run fuel
        (record b.kernel { sched = sched_wake_expired b.kernel.sched })) [
          | none ↦ none
          | some k ↦ elim (dispatch fired k.sched) [
            | none ↦ none
            | some s ↦
                some (
                  (s.tasks s.current_task).sp,
                  leave (record b { kernel = record k { sched = s } }),
                )
          ]
        ]

-- `scheduler.current_task->sp = task_sp`.
unfoldable pub save_frame : ℕ → Board → Board
save_frame task_sp b =
    if not (b.kernel.sched.current_task == 0)
    then record b {
      kernel = record b.kernel {
        sched =
            modify b.kernel.sched b.kernel.sched.current_task
              (λ task. record task { sp = task_sp });
      };
    }
    else b

-- The frame to go back to; `none` also for an exception other than an `ecall`, where the handler
-- stops the system.
unfoldable pub do_trap :
    (ℕ → ℕ → Kernel → Kernel)
    → ℕ
    → (ℕ → Option (Kernel → Kernel))
    → ℕ
    → ℕ
    → ℕ
    → Board
    → Option (ℕ × Board)
unfolding interrupt after_handler save_frame
do_trap run fuel handlers counter task_sp cause b0 =
    let b = enter b0 in
    let is_interrupt = leb (2 ^ 31) cause in
    let id = cause % 256 in
    if not b.kernel.sched.started
    then some (
      task_sp,
      leave (if is_interrupt && not (leb 32 id) then interrupt handlers counter b id else b),
    )
    else let b1 = save_frame task_sp b in
      if is_interrupt
      then (if leb 32 id
          then some (task_sp, leave b1)
          else after_handler run fuel (is_tick b1 id) task_sp (interrupt handlers counter b1 id))
      else if cause % 2 ^ 31 == 11
      then after_handler run fuel false task_sp b1
      else none
