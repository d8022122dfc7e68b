-- ===== src/Sched/Tests.antt =====
-- A scheduler with a running task, two ready ones and a waiting one, and runs of sched.c on it.
use tiny_rt.Base.{
  ℕ, ◌+◌, ◌≡◌, refl, true, false, some, [], ◌∷◌, arith, inl, ◌==◌, if◌then◌else◌, count, ◌^◌,
  remove,
}
use tiny_rt.Base.Bits.{zero-test_bit}
use tiny_rt.Task.{TaskState, Task, blank_task}
use tiny_rt.Sched.{
  sched_ready_enqueue, sched_wake_one, sched_block_current, sched_init, sched_timeout_remove,
  insert_waiter,
}
use tiny_rt.Sched.State.{Sched, wait_head}
use tiny_rt.Sched.Switch.{sched_pick_next}
use tiny_rt.Sched.Inv.{Inv}
use tiny_rt.Sched.Boot.{init-Inv}
use tiny_rt.Sched.Ready.{enqueue-Inv}
use tiny_rt.Sched.Order.{Blocks, block_current-Blocks}
use tiny_rt.Sched.Rotate.{pick_next_rotates}
use tiny_rt.Sched.Pick.{IsTop, IsChoice, pick_next-IsChoice}

abbrev tasks : ℕ → Task
tasks t =
    if t == 1
    then record blank_task { state = TaskState.running; priority = 5 }
    else if t == 2
    then record blank_task { state = TaskState.ready; priority = 7 }
    else if t == 3
    then record blank_task {
      state = TaskState.blocked;
      priority = 9;
      state_list = some (wait_head 4108);
    }
    else if t == 5
    then record blank_task { state = TaskState.ready; priority = 5 }
    else if t == 4
    then record blank_task { state = TaskState.ready }
    else blank_task

abbrev waiting : Sched
waiting = record {
  current_task = 1;
  idle_task = 4;
  master_task_list = 1 ∷ 2 ∷ 3 ∷ 4 ∷ [];
  timeout_task_list = [];
  lists = λ h. if h == 4141 then 3 ∷ [] else [];
  mask = 0;
  time_slice_ticks = 3;
  initialized = true;
  started = true;
  lock_count = 0;
  resched_pending = false;
  tasks = tasks;
  tick_count = 0;
  in_isr = false;
}

waiting-Inv : Inv waiting
unfolding count
waiting-Inv = record {
  linked = record { linked = λ t h. ground arith; null = refl; timed = λ t. ground arith };
  placed = record { fits = λ t h e. ground arith };
  masked = record { small = ground arith; bits = λ p lt. ground (arith, zero-test_bit p) };
}

unfoldable pub sample : Sched
sample = sched_ready_enqueue (sched_ready_enqueue waiting 2) 4

pub sample-Inv : Inv sample
unfolding sample sched_ready_enqueue
sample-Inv = enqueue-Inv 4 (enqueue-Inv 2 waiting-Inv refl) refl

abbrev after_wake : ℕ × Sched
after_wake = sched_wake_one sample 4141

wake_one_runs :
    (after_wake.0 ≡ 3)
    × (after_wake.1.lists 9 ≡ 3 ∷ [])
    × (after_wake.1.lists 4141 ≡ [])
    × (after_wake.1.mask ≡ 2 ^ 9 + 2 ^ 7 + 1)
unfolding sample sched_wake_one sched_ready_enqueue sched_timeout_remove remove
wake_one_runs = (refl, refl, refl, refl)

block_current_runs : (sched_block_current sample 4141).lists 4141 ≡ 3 ∷ 1 ∷ []
unfolding sample sched_block_current sched_ready_enqueue insert_waiter
block_current_runs = refl

init-Inv_example :
    Inv (
      sched_init (record waiting { initialized = false; tasks = λ t. blank_task; lists = λ h. [] }))
init-Inv_example = init-Inv _ refl (λ t. (refl, refl)) (λ h low. refl)

pick_next-IsChoice_example :
    (t : ℕ) × (k' : Sched) × (sched_pick_next sample ≡ some (t, k')) × IsChoice k' t
unfolding sample sched_ready_enqueue
pick_next-IsChoice_example = pick_next-IsChoice sample sample-Inv (ground arith, inl refl)

block_current-Blocks_example :
    let k' = sched_block_current sample 4141 in
    Blocks sample 4141 k'
    × (k'.tasks 1 ≡ record (sample.tasks 1) {
      state = TaskState.blocked;
      waiting_on_timer = false;
      state_list = some 4141;
    })
    × (k' ≡ record sample { tasks = k'.tasks; lists = k'.lists })
unfolding sample sched_ready_enqueue
block_current-Blocks_example =
    block_current-Blocks sample 4141 sample-Inv (ground arith) refl (tt, tt)

-- Task 5 has the priority of the running task.
unfoldable equals : Sched
equals = sched_ready_enqueue waiting 5

equals-Inv : Inv equals
unfolding equals
equals-Inv = enqueue-Inv 5 waiting-Inv refl

equals-IsTop : IsTop equals 5 5 []
unfolding equals sched_ready_enqueue
equals-IsTop = record { low = ground arith; first = refl; above = λ q gt lt. ground arith }

pick_next_rotates_example :
    (k' : Sched) × (sched_pick_next equals ≡ some (5, k')) × (k'.lists 5 ≡ 1 ∷ [])
unfolding equals sched_ready_enqueue
pick_next_rotates_example =
    pick_next_rotates equals 5 [] equals-Inv (ground arith) (ground arith) refl equals-IsTop
