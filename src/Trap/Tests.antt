-- ===== src/Trap/Tests.antt =====
-- A tick of the board with a timer one tick late and a ready task of a higher priority.
use tiny_rt.Base.{false, remove, ◌≡◌, refl, true, some, none, arith, inl, Option, ℕ}
use tiny_rt.Kernel.{Kernel}
use tiny_rt.Sched.Tests.{sample, sample-Inv}
use tiny_rt.Sched.{sched_ready_enqueue}
use tiny_rt.Sched.Inv.{Inv-of_eq}
use tiny_rt.Sched.Switch.{sched_request_from_isr, sched_set_pending}
use tiny_rt.Timer.Tests.{behind, behind-IsTimely}
use tiny_rt.Sched.Preempt.{IsRunning, Unranked, Gives}
use tiny_rt.Base.Bits.{bit_not, clz, test_bit}
use tiny_rt.Trap.{Board, do_trap, dispatch, on_tick}
use tiny_rt.Trap.Dispatch.{IsDue, dispatch_lem}
use tiny_rt.Trap.Return.{IsTame}
use tiny_rt.Trap.Tick.{IsTicked, tick_lem}

-- A callback that asks for a reschedule.
abbrev ask : ℕ → ℕ → Kernel → Kernel
ask c a k = record k { sched = sched_request_from_isr k.sched }

ask-IsTame : IsTame ask
unfolding sched_request_from_isr sched_set_pending
ask-IsTame = record {
  quiet = record { timers = λ c a k. refl; timer_list = λ c a k. refl; now = λ c a k. refl };
  safe = λ n c a k v. record {
    inv = Inv-of_eq v.inv refl refl refl refl;
    awake = v.awake;
    not_null = v.not_null;
    lock = v.lock;
  };
}

abbrev board : Board
board = record {
  kernel = behind;
  trap_nesting = 0;
  systimer_cpu_irq = 3;
  systimer_initialized = true;
}

tick_lem_example :
    (sp : ℕ) × (b' : Board) × (do_trap ask 3 (λ id. none) 64000 9000 2147483651 board
      ≡ some (sp, b'))
    × IsTicked 4 board sp b'
unfolding sample sched_ready_enqueue
tick_lem_example =
    tick_lem ask 3 (λ id. none) 64000 9000 2147483651 board ask-IsTame
      (record {
        started = refl;
        initialized = refl;
        interrupts = ground arith;
        number = refl;
        valid = ground arith;
      })
      (Inv-of_eq sample-Inv refl refl refl refl) (ground arith, inl refl) (ground arith)
      (ground arith) behind-IsTimely (ground arith)

dispatch_lem_example :
    Gives (λ s'. IsRunning s' × (IsDue false sample → Unranked s')) (dispatch false sample)
unfolding sample sched_ready_enqueue
dispatch_lem_example = dispatch_lem false sample sample-Inv (ground arith, inl refl) (ground arith)

-- The task of the higher priority runs next.
next_task : Option (ℕ × Board) → ℕ
next_task none = 0
next_task (some (sp, b)) = b.kernel.sched.current_task

do_trap_runs : next_task (do_trap ask 3 (λ id. none) 64000 9000 2147483651 board) ≡ 2
unfolding sample sched_ready_enqueue do_trap next_task remove sched_request_from_isr on_tick bit_not
    clz test_bit
do_trap_runs = refl
