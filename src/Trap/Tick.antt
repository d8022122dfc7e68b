-- ===== src/Trap/Tick.antt =====
-- The tick: `do_trap` of boards/esp32c3/hal.c from the interrupt of the system timer to the frame
-- that it goes back to.
use tiny_rt.Base.{
  ℕ, ◌/◌, ◌%◌, ◌^◌, ◌<◌, ◌≤◌, ◌≡◌, ◌≢◌, refl, ap, true, false, some, arith, ◌==◌, leb, ne→==-false,
  ap₂, ◌⊎◌, ◌∙◌, Option,
}
use tiny_rt.Task.{TaskState}
use tiny_rt.Sched.State.{Sched, modify}
use tiny_rt.Sched.Inv.{Inv, Inv-of_eq, modify-IsLinked}
use tiny_rt.Sched.Mask.{IsMasked-of_eq}
use tiny_rt.Sched.Pick.{IsIdleAwake}
use tiny_rt.Sched.Preempt.{IsRunning, Unranked}
use tiny_rt.Kernel.{Kernel}
use tiny_rt.Timer.Inv.{due, IsTimely}
use tiny_rt.Timer.Fire.{late}
use tiny_rt.Timer.Expire.{is_due, IsTimely-of_eq}
use tiny_rt.Trap.{
  Board, enter, save_frame, interrupt, after_handler, do_trap, is_tick, tick_period_ticks,
  sys_tick_handler,
}
use tiny_rt.Trap.Safe.{IsSafe}
use tiny_rt.Trap.Return.{IsTame, after_handler_lem}

-- The invariant does not read where a frame is.
sp-Inv : {s : Sched} (t x : ℕ) → Inv s → Inv (modify s t (λ task. record task { sp = x }))
sp-Inv {s} t x v = record {
  linked = modify-IsLinked t (λ task. record task { sp = x }) v.linked refl refl;
  placed = record { fits = λ u g e. ground (arith, v.placed.fits u g) };
  masked = IsMasked-of_eq v.masked refl (λ p lt. refl);
}

sp_awake :
    (s : Sched) (t x : ℕ)
    → (((s.tasks s.idle_task).state ≡ TaskState.ready)
        ⊎ ((s.tasks s.idle_task).state ≡ TaskState.running))
    → let s1 = modify s t (λ task. record task { sp = x }) in
      ((s1.tasks s.idle_task).state ≡ TaskState.ready)
      ⊎ ((s1.tasks s.idle_task).state ≡ TaskState.running)
sp_awake s t x a = ground (arith, a)

-- The board with the frame of the current task, and then after `SysTick_Handler`.
abbrev saved : ℕ → Board → Board
saved task_sp b = record (enter b) {
  kernel = record (enter b).kernel {
    sched =
        modify (enter b).kernel.sched b.kernel.sched.current_task
          (λ task. record task { sp = task_sp });
  };
}

abbrev ticked : ℕ → ℕ → Board → Board
ticked counter task_sp b = record (saved task_sp b) {
  kernel = sys_tick_handler counter (saved task_sp b).kernel;
}

-- The interrupt of the system timer.
pub record IsTick (cause : ℕ) (b : Board) : Type 0 where
  pub started : b.kernel.sched.started ≡ true
  pub initialized : b.systimer_initialized ≡ true
  pub interrupts : 2 ^ 31 ≤ cause
  pub number : cause % 256 ≡ b.systimer_cpu_irq
  pub valid : cause % 256 < 32

-- What `do_trap` does once the scheduler has started, up to the handler.
do_trap-interrupt :
    (run : ℕ → ℕ → Kernel → Kernel) (fuel : ℕ) (handlers : ℕ → Option (Kernel → Kernel))
    (counter task_sp cause : ℕ) (b : Board)
    → b.kernel.sched.started ≡ true
    → 2 ^ 31 ≤ cause
    → cause % 256 < 32
    → let b1 = save_frame task_sp (enter b) in
      do_trap run fuel handlers counter task_sp cause b
      ≡ after_handler run fuel
          (is_tick b1 (cause % 256))
          task_sp
          (interrupt handlers counter b1 (cause % 256))
unfolding do_trap
do_trap-interrupt run fuel handlers counter task_sp cause b started high valid =
    let is_int : leb (2 ^ 31) cause ≡ true = ground (arith, high) in
    let low : leb 32 (cause % 256) ≡ false = ground (arith, valid) in rw (started, is_int, low) refl

save_frame_lem :
    (task_sp : ℕ) (b : Board)
    → b.kernel.sched.current_task ≢ 0
    → save_frame task_sp (enter b) ≡ saved task_sp b
unfolding save_frame
save_frame_lem task_sp b nz =
    let on : (b.kernel.sched.current_task == 0) ≡ false =
      ne→==-false b.kernel.sched.current_task 0 nz in
    rw on refl

interrupt_lem :
    (handlers : ℕ → Option (Kernel → Kernel)) (counter : ℕ) (b : Board) (id : ℕ)
    → is_tick b id ≡ true
    → interrupt handlers counter b id ≡ record b { kernel = sys_tick_handler counter b.kernel }
unfolding interrupt
interrupt_lem handlers counter b id hit = rw hit refl

do_trap-tick :
    (run : ℕ → ℕ → Kernel → Kernel) (fuel : ℕ) (handlers : ℕ → Option (Kernel → Kernel))
    (counter task_sp cause : ℕ) (b : Board)
    → IsTick cause b
    → b.kernel.sched.current_task ≢ 0
    → do_trap run fuel handlers counter task_sp cause b
      ≡ after_handler run fuel true task_sp (ticked counter task_sp b)
do_trap-tick run fuel handlers counter task_sp cause b tick nz =
    let id = cause % 256 in
    let e = save_frame_lem task_sp b nz in
    let hit : is_tick (saved task_sp b) id ≡ true =
      rw (tick.initialized, tick.number) (ground arith) in
    do_trap-interrupt run fuel handlers counter task_sp cause b tick.started tick.interrupts
      tick.valid
    ∙ ap (λ x. after_handler run fuel (is_tick x id) task_sp (interrupt handlers counter x id)) e
    ∙ ap₂ (λ f x. after_handler run fuel f task_sp x) hit
        (interrupt_lem handlers counter (saved task_sp b) id hit)

-- What the tick returns with: the frame `sp`, and the board `b'`.
pub record IsTicked (now : ℕ) (b : Board) (sp : ℕ) (b' : Board) : Type 0 where
  pub running : IsRunning b'.kernel.sched
  pub frame : sp ≡ (b'.kernel.sched.tasks b'.kernel.sched.current_task).sp
  pub best : b.kernel.sched.lock_count ≡ 0 → Unranked b'.kernel.sched
  pub none_due : (t : ℕ) → is_due now (b'.kernel.timers t) ≡ false
  pub nesting : b'.trap_nesting ≡ b.trap_nesting

-- In a scheduler that has started and keeps its invariant, with a current task and an idle task that
-- is neither blocked nor deleted, with timers in order at the new time, callbacks that leave timers,
-- time and lock alone and keep the invariant, a current task and such an idle task, and more fuel than
-- there are late ticks: the interrupt of the system timer returns from `do_trap` with the frame of a task that is running,
-- and keeps the invariant. Then no timer is due at the new time, `trap_nesting` is as it was, and
-- unless the scheduler is locked, no task in a ready list has a higher priority than the running one.
pub tick_lem :
    (run : ℕ → ℕ → Kernel → Kernel) (fuel : ℕ) (handlers : ℕ → Option (Kernel → Kernel))
    (counter task_sp cause : ℕ) (b : Board)
    → IsTame run
    → IsTick cause b
    → Inv b.kernel.sched
    → IsIdleAwake b.kernel.sched
    → b.kernel.sched.current_task ≢ 0
    → b.trap_nesting < 2 ^ 32
    → IsTimely (sys_tick_handler counter b.kernel)
    → late (due (sys_tick_handler counter b.kernel)) b.kernel.timer_list < fuel
    → (sp : ℕ) × (b' : Board) × (do_trap run fuel handlers counter task_sp cause b ≡ some (sp, b'))
      × IsTicked (counter / tick_period_ticks % 2 ^ 32) b sp b'
tick_lem run fuel handlers counter task_sp cause b tame tick v a nz small t enough =
    let s = b.kernel.sched in
    let w = sp-Inv s.current_task task_sp v in
    let safe : IsSafe s.lock_count (ticked counter task_sp b).kernel.sched = record {
      inv = Inv-of_eq w refl refl refl refl;
      awake = (a.0, sp_awake s s.current_task task_sp a.1);
      not_null = nz;
      lock = refl;
    } in
    let (sp, b', e, r) =
      after_handler_lem run tame fuel true task_sp (ticked counter task_sp b) safe
        (IsTimely-of_eq t refl refl refl) enough in
    (
      sp,
      b',
      do_trap-tick run fuel handlers counter task_sp cause b tick nz ∙ e,
      record {
        running = r.running;
        frame = r.frame;
        best = λ free. r.best free refl;
        none_due = r.none_due;
        nesting = r.nesting ∙ omega (arith, small);
      },
    )
