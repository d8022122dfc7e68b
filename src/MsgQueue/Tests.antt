-- ===== src/MsgQueue/Tests.antt =====
-- Runs of msg_queue.c: a queue at address 4084 with one message of four bytes and room for another
-- one, in whose readers task 3 waits.
use tiny_rt.Base.{ℕ, ◌+◌, ◌≡◌, ◌≤◌, refl, true, [], ◌∷◌, ◌++◌, length, arith, ◌==◌, inl}
use tiny_rt.Error.{Err}
use tiny_rt.Sched.{sched_ready_enqueue}
use tiny_rt.Sched.Inv.{Inv-of_eq}
use tiny_rt.Sched.Tests.{sample, sample-Inv}
use tiny_rt.Kernel.{Kernel}
use tiny_rt.Semaphore.Tests.{kernel}
use tiny_rt.MsgQueue.{
  readers, writers, msg_q_is_full_obj, msg_q_is_empty_obj, msg_q_count_obj, msg_q_destroy_obj,
}
use tiny_rt.MsgQueue.Bytes.{padded}
use tiny_rt.MsgQueue.Calls.{
  send_round, send_front_round, recv_round, peek_round, msg_q_send_obj, msg_q_send_front_obj,
  msg_q_recv_obj,
}
use tiny_rt.MsgQueue.Isr.{msg_q_send_from_isr_obj, msg_q_recv_from_isr_obj, msg_q_peek_from_isr_obj}
use tiny_rt.MsgQueue.Settle.{Settles, rounds-Settles}
use tiny_rt.MsgQueue.Inv.{IsQueue, contents, IsCaller}
use tiny_rt.MsgQueue.Accepts.{Accepts}
use tiny_rt.MsgQueue.Refine.{
  IsMessage, IsBuffer, Puts, Gets, Receives, Peeks, send_lem, send_front_lem, recv_lem, count_lem,
}
use tiny_rt.MsgQueue.IsrRefine.{Answers, from_isr_lem}
use tiny_rt.MsgQueue.Destroy.{IsDestroyed, destroy_lem}

abbrev queue : ℕ
queue = 4084

kernel-IsQueue : IsQueue kernel queue
kernel-IsQueue = record {
  sound = sample-Inv;
  real = ground arith;
  ring = record {
    words = ground arith;
    head_in = ground arith;
    tail_in = ground arith;
    fits = ground arith;
  };
}

IsMessage-sent : IsMessage kernel queue 9000 3
IsMessage-sent = record {
  real = ground arith;
  some_size = ground arith;
  small = ground arith;
  apart = inl (ground arith);
}

IsBuffer-given : IsBuffer kernel queue 9000
IsBuffer-given = record { real = ground arith; apart = inl (ground arith) }

writer-IsCaller : IsCaller kernel (writers queue) 0
unfolding sample sched_ready_enqueue
writer-IsCaller = record {
  exists = ground arith;
  running = refl;
  ranked = tt;
  timeout = λ nz. absurd (nz refl);
}

reader-IsCaller : IsCaller kernel (readers queue) 0
unfolding sample sched_ready_enqueue
reader-IsCaller = record {
  exists = ground arith;
  running = refl;
  ranked = (tt, tt);
  timeout = λ nz. absurd (nz refl);
}

rounds-Settles_example :
    Settles (msg_q_is_full_obj kernel queue) (writers queue) (send_round queue 9000 3 0) kernel
    × Settles
        (msg_q_is_full_obj kernel queue)
        (writers queue)
        (send_front_round queue 9000 3 0)
        kernel
    × Settles (msg_q_is_empty_obj kernel queue) (readers queue) (recv_round queue 9000 0) kernel
    × Settles (msg_q_is_empty_obj kernel queue) (readers queue) (peek_round queue 9000 0) kernel
rounds-Settles_example = rounds-Settles kernel queue 9000 3 0

send_lem_example :
    Puts kernel queue 0
      (contents kernel queue ++ padded kernel.heap.bytes 9000 3 4 ∷ [])
      (msg_q_send_obj kernel queue 9000 3 0)
send_lem_example = send_lem kernel queue 9000 3 0 kernel-IsQueue refl IsMessage-sent writer-IsCaller

send_front_lem_example :
    Puts kernel queue 0
      (padded kernel.heap.bytes 9000 3 4 ∷ contents kernel queue)
      (msg_q_send_front_obj kernel queue 9000 3 0)
send_front_lem_example =
    send_front_lem kernel queue 9000 3 0 kernel-IsQueue refl IsMessage-sent writer-IsCaller

recv_lem_example :
    Gets kernel queue 0 (Receives kernel queue 9000) (msg_q_recv_obj kernel queue 9000 0)
recv_lem_example = recv_lem kernel queue 9000 0 kernel-IsQueue refl IsBuffer-given reader-IsCaller

count_lem_example :
    (msg_q_count_obj kernel queue ≡ length (contents kernel queue))
    × (length (contents kernel queue) ≤ 2)
    × (msg_q_is_full_obj kernel queue ≡ (length (contents kernel queue) == 2))
    × (msg_q_is_empty_obj kernel queue ≡ (length (contents kernel queue) == 0))
count_lem_example = count_lem kernel queue kernel-IsQueue

-- The same kernel in an interrupt.
abbrev interrupted : Kernel
interrupted = record kernel { sched = record kernel.sched { in_isr = true } }

interrupted-IsQueue : IsQueue interrupted queue
interrupted-IsQueue = record {
  sound = Inv-of_eq sample-Inv refl refl refl refl;
  real = ground arith;
  ring = kernel-IsQueue.ring;
}

from_isr_lem_example :
    Answers interrupted
      (length (contents kernel queue) ≡ 2)
      (Accepts interrupted queue
        (readers queue)
        (contents kernel queue ++ padded kernel.heap.bytes 9000 3 4 ∷ []))
      (msg_q_send_from_isr_obj interrupted queue 9000 3)
    × Answers interrupted
        (contents kernel queue ≡ [])
        (Receives interrupted queue 9000)
        (msg_q_recv_from_isr_obj interrupted queue 9000)
    × Answers interrupted
        (contents kernel queue ≡ [])
        (Peeks interrupted queue 9000)
        (msg_q_peek_from_isr_obj interrupted queue 9000)
from_isr_lem_example =
    from_isr_lem interrupted queue 9000 3 9000 interrupted-IsQueue refl refl
      (record {
        real = ground arith;
        some_size = ground arith;
        small = ground arith;
        apart = inl (ground arith);
      })
      (record { real = ground arith; apart = inl (ground arith) })

destroy_lem_example :
    (k' : Kernel) × (msg_q_destroy_obj kernel queue ≡ ((Err.ok, 1 + 0), k'))
    × IsDestroyed kernel queue k'
    × (msg_q_destroy_obj k' queue ≡ ((Err.state, 0), k'))
unfolding sample sched_ready_enqueue
destroy_lem_example = destroy_lem kernel queue sample-Inv (ground arith) refl
