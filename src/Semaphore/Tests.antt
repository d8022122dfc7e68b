-- ===== src/Semaphore/Tests.antt =====
-- Runs of semaphore.c: a semaphore at address 4096, for which task 3 waits.
use tiny_rt.Base.{ℕ, ◌+◌, ◌<◌, ◌≡◌, refl, false, true, [], ◌∷◌, List, arith, ◌⊎◌}
use tiny_rt.Error.{Err}
use tiny_rt.Sched.{sched_ready_enqueue}
use tiny_rt.Sched.State.{wait_head}
use tiny_rt.Sched.Tests.{sample, sample-Inv}
use tiny_rt.WaitQueue.{waits}
use tiny_rt.Kernel.{Kernel, waiters}
use tiny_rt.Semaphore.{set_sem, sem_post_obj, sem_wait_obj, sem_trywait_obj}
use tiny_rt.Semaphore.Create.{IsCreated, create_lem}
use tiny_rt.Handle.{handle_table_init_locked, Table}
use tiny_rt.Handle.Validity.{IsValid, init-IsValid}
use tiny_rt.Heap.{heap_init_once}
use tiny_rt.Heap.Promise.{IsBack}
use tiny_rt.Heap.Tests.{cold-IsHeap, cold}
use tiny_rt.Semaphore.{trt_sem_create}
use tiny_rt.Base.{some}
use tiny_rt.Semaphore.Count.{IsCounted}
use tiny_rt.Semaphore.Waits.{here, next, posts, tries, Reach-IsCounted}
use tiny_rt.Semaphore.Transfer.{Hands, Waits, post_lem, wait-Waits}

abbrev pub kernel : Kernel
kernel = record {
  sched = sample;
  handles = record { slots = []; initialized = false };
  heap = cold;
  sems = λ s. record { cnt = 0; max = 2; destroyed = false };
  mutexes = λ m. record { owner = 1; lock_count = 1; destroyed = false };
  queues = λ q. record { buf = 8192; cap = 4; qlen = 2; head = 1; tail = 0; destroyed = false };
  timers = λ t. record { deadline = 0; period = 0; callback = 0; arg = 0; active = false };
  timer_list = [];
  task_count = 5;
  task_initialized = true;
}

kernel-IsCounted : IsCounted kernel 4096
kernel-IsCounted = record {
  sound = sample-Inv;
  real = ground arith;
  limit = λ live. ground arith;
  bounded = λ live. ground arith;
  idle = λ live nz. absurd (nz refl);
}

Reach-IsCounted_example :
    IsCounted (sem_trywait_obj (sem_post_obj (sem_post_obj kernel 4096).1 4096).1 4096).1 4096
Reach-IsCounted_example =
    Reach-IsCounted 4096 kernel-IsCounted (next posts (next posts (next tries here)))

post_lem_example :
    ((t : ℕ) × (ts : List ℕ) × (kernel.sched.lists (wait_head (waiters 4096)) ≡ t ∷ ts)
      × ((sem_post_obj kernel 4096).0 ≡ Err.ok)
      × Hands kernel 4096 t ts (sem_post_obj kernel 4096).1)
    ⊎ ((kernel.sched.lists (wait_head (waiters 4096)) ≡ [])
        × ((kernel.sems 4096).cnt < (kernel.sems 4096).max)
        × (sem_post_obj kernel 4096
            ≡ (Err.ok, set_sem kernel 4096 (record { cnt = 0 + 1; max = 2; destroyed = false }))))
    ⊎ ((kernel.sched.lists (wait_head (waiters 4096)) ≡ [])
        × ((kernel.sems 4096).cnt ≡ (kernel.sems 4096).max)
        × (sem_post_obj kernel 4096 ≡ (Err.busy, kernel)))
post_lem_example = post_lem kernel 4096 kernel-IsCounted refl

wait-Waits_example :
    ((sem_wait_obj kernel 4096).0 ≡ waits) × Waits kernel 4096 (sem_wait_obj kernel 4096).1
unfolding sample sched_ready_enqueue
wait-Waits_example =
    wait-Waits kernel 4096 kernel-IsCounted refl refl refl (ground arith) refl (tt, tt)

table : Table
table = handle_table_init_locked (record { slots = []; initialized = false })

table-IsValid : IsValid table
unfolding table
table-IsValid =
    init-IsValid (record { slots = []; initialized = false }) (λ e. absurd (ground arith))

create_lem_example :
    let k : Kernel = record kernel { handles = table } in
    (h : ℕ) × (k' : Kernel) × (trt_sem_create k 2 1 ≡ some (h, k'))
    × (((h ≡ 0) × IsBack (heap_init_once k.heap) k'.heap) ⊎ ((s : ℕ) × IsCreated k 2 1 h s k'))
unfolding heap_init_once
create_lem_example =
    create_lem (record kernel { handles = table }) 2 1 cold-IsHeap (λ e. tt, tt) table-IsValid
