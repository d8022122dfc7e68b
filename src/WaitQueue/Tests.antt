-- ===== src/WaitQueue/Tests.antt =====
-- Runs of wait_queue.c on the scheduler of Sched/Tests.antt.
use tiny_rt.Base.{◌≡◌, refl, arith, length}
use tiny_rt.Task.{destroyed}
use tiny_rt.Sched.{sched_ready_enqueue}
use tiny_rt.Sched.State.{wait_head}
use tiny_rt.Sched.Inv.{Inv, Inv-of_eq}
use tiny_rt.Sched.Expire.{Serves, wake_expired-Serves}
use tiny_rt.Sched.Switch.{sched_wake_expired, wake_expired_loop, wake_expired_task, sched_is_locked}
use tiny_rt.Sched.{sched_block_current, sched_timeout_insert, insert_waiter, insert_timeout}
use tiny_rt.Time.{timer_us_to_ticks}
use tiny_rt.WaitQueue.{trt_wait_q_block_ticks_locked, trt_wait_q_block_locked}
use tiny_rt.Base.{remove, ◌∷◌, []}
use tiny_rt.Sched.State.{Sched}
use tiny_rt.Sched.Tests.{sample, sample-Inv}
use tiny_rt.WaitQueue.{trt_wait_q_wake_all_result_locked, trt_wait_q_block_timeout_locked}
use tiny_rt.WaitQueue.Inv.{block_timeout_locked-Inv}
use tiny_rt.WaitQueue.WakeAll.{WakesAll, wake_all-WakesAll}

wake_all-WakesAll_example :
    let (n, k') = trt_wait_q_wake_all_result_locked sample 4108 destroyed in
    (n ≡ length (sample.lists (wait_head 4108))) × WakesAll sample 4108 destroyed k'
wake_all-WakesAll_example = wake_all-WakesAll sample 4108 destroyed sample-Inv (ground arith)

block_timeout_locked-Inv_example : Inv (trt_wait_q_block_timeout_locked sample 4108 2500).1
unfolding sample sched_ready_enqueue
block_timeout_locked-Inv_example = block_timeout_locked-Inv 4108 2500 sample-Inv (λ nz. refl)

-- Task 1 blocks for three ticks, and five go by.
abbrev late : Sched
late = record (trt_wait_q_block_timeout_locked sample 4108 2500).1 { tick_count = 5 }

late-Inv : Inv late
unfolding sample sched_ready_enqueue
late-Inv =
    Inv-of_eq (block_timeout_locked-Inv 4108 2500 sample-Inv (λ nz. refl)) refl refl refl refl

wake_expired_runs :
    (late.timeout_task_list ≡ 1 ∷ [])
    × ((sched_wake_expired late).timeout_task_list ≡ [])
    × ((sched_wake_expired late).lists 5 ≡ 1 ∷ [])
    × ((sched_wake_expired late).lists 4141 ≡ 3 ∷ [])
unfolding sample sched_ready_enqueue trt_wait_q_block_timeout_locked trt_wait_q_block_ticks_locked
    trt_wait_q_block_locked sched_block_current sched_timeout_insert insert_waiter insert_timeout
    sched_wake_expired wake_expired_loop wake_expired_task timer_us_to_ticks remove sched_is_locked
wake_expired_runs = (refl, refl, refl, refl)

wake_expired-Serves_example : Serves late.tick_count late (sched_wake_expired late)
wake_expired-Serves_example = wake_expired-Serves late late-Inv
