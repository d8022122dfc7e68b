-- ===== src/TaskCalls/Tests.antt =====
-- Runs of task.c: a delay and a deletion in the kernel of Semaphore/Tests, and the clean-up of a
-- deleted task with its control block at 4112 and its stack at 4224.
use tiny_rt.Base.{
  ℕ, ◌+◌, ◌%◌, ◌^◌, ◌≡◌, ◌≢◌, refl, true, false, some, [], ◌∷◌, arith, ◌⊎◌, ◌==◌, if◌then◌else◌,
  count,
}
use tiny_rt.Base.Bits.{zero-test_bit}
use tiny_rt.Task.{TaskState, blank_task}
use tiny_rt.Sched.{sched_ready_enqueue}
use tiny_rt.Sched.State.{Sched, deleted_head}
use tiny_rt.Sched.Inv.{Inv}
use tiny_rt.Sched.Tests.{sample, sample-Inv}
use tiny_rt.Heap.{find_block}
use tiny_rt.Kernel.{Kernel}
use tiny_rt.Semaphore.Tests.{kernel}
use tiny_rt.TaskCalls.{task_delay_ticks, task_delete_obj, task_cleanup_deleted}
use tiny_rt.TaskCalls.Delay.{Sleeps, delay_ticks-Sleeps}
use tiny_rt.TaskCalls.Delete.{Deletes, delete_obj-Deletes}
use tiny_rt.TaskCalls.Cleanup.{IsClean, cleanup-IsClean}

abbrev delay : ℕ
delay = 5

delay_ticks-Sleeps_example :
    ((delay ≡ 0) × (task_delay_ticks sample delay ≡ some (false, sample)))
    ⊎ ((delay ≢ 0)
        × ((k' : Sched) × (task_delay_ticks sample delay ≡ some (true, k'))
            × Sleeps sample ((sample.tick_count + delay) % 2 ^ 32) k'))
unfolding sample sched_ready_enqueue
delay_ticks-Sleeps_example =
    delay_ticks-Sleeps sample delay sample-Inv (ground arith) refl refl (ground arith)
      (ground arith)

delete_obj-Deletes_example : Deletes kernel 3 (task_delete_obj kernel 3)
delete_obj-Deletes_example = delete_obj-Deletes kernel 3 sample-Inv

abbrev buried : Sched
buried = record {
  current_task = 0;
  idle_task = 0;
  master_task_list = 4112 ∷ [];
  timeout_task_list = [];
  lists = λ h. if h == 32 then 4112 ∷ [] else [];
  mask = 0;
  time_slice_ticks = 0;
  initialized = true;
  started = true;
  lock_count = 0;
  resched_pending = false;
  tasks = λ t.
      if t == 4112
      then record blank_task {
        stack_base = 4224;
        state = TaskState.deleted;
        state_list = some deleted_head;
      }
      else blank_task;
  tick_count = 0;
  in_isr = false;
}

buried-Inv : Inv buried
unfolding count
buried-Inv = record {
  linked = record { linked = λ t h. ground arith; null = refl; timed = λ t. ground arith };
  placed = record { fits = λ t h e. ground arith };
  masked = record { small = ground arith; bits = λ p lt. ground (arith, zero-test_bit p) };
}

abbrev grave : Kernel
grave = record kernel {
  sched = buried;
  heap = record kernel.heap {
    heap_initialized = true;
    blocks =
        record { addr = 4096; size = 96; free = false }
        ∷ record { addr = 4208; size = 256; free = false }
        ∷ [];
  };
}

cleanup-IsClean_example :
    (k' : Kernel) × (task_cleanup_deleted grave ≡ some k') × IsClean grave (4112 ∷ []) k'
unfolding count find_block
cleanup-IsClean_example = cleanup-IsClean grave buried-Inv refl (
  (record { addr = 4208; size = 256; free = false }, refl, refl),
  ground arith,
  refl,
  ((record { addr = 4096; size = 96; free = false }, refl, refl), ground arith, refl, tt),
)
