-- ===== src/Lib.antt =====
-- TinyRT is a small real-time kernel for one core: tasks with 32 priorities, a handle table for the
-- kernel's objects, wait queues, semaphores, mutexes, message queues,
-- software timers and a heap. Callers hold 32-bit handles; a call
-- on an object looks it up in the table, changes it in a critical section, and
-- blocks or wakes tasks through the object's wait queue, which is a list of the scheduler's. Objects
-- are allocated on the heap.
--
-- The files, and what they model:
--
-- Base (Base/Lists, Base/Bits, Base/Tests): numbers, Boolean tests, lists, and the bit operations that
-- the mask of ready priorities and the rights of a handle need.
-- Error: include/error.h.
-- Handle: src/kernel/handle.c. A table is a list of 64 slots and the flag `handle_initialized`.
-- Handle/Validity, Handle/Map and Handle/Stale hold its invariant, the table as a map, and the handles
-- that are closed.
-- Task: src/kernel/task_private.h.
-- Sched (Sched/State, Sched/Switch): src/kernel/sched.c and `task_yield` of src/kernel/task.c. A task is
-- its address, and 0 is NULL; the lists of include/list.h are the sequences of the tasks that they
-- link, each named by a number for its head: 0 to 31 for the ready lists, 32 for the deleted tasks, and
-- 33 + w for the wait queue at address w. Sched/Inv has the invariant, Sched/Mask, Sched/Ready,
-- Sched/Wake, Sched/Block and Sched/Boot what keeps it, Sched/Pick the choice of the next task,
-- Sched/Rotate the turns of equals, Sched/Order the order of the waiters, and Sched/Timeout and Sched/Expire
-- the end of timeouts.
-- Time: the conversion of delays in src/kernel/timer.c.
-- WaitQueue: src/kernel/wait_queue.c, with WaitQueue/Inv, WaitQueue/WakeAll, WaitQueue/Yield and
-- WaitQueue/Timed.
-- Heap: src/kernel/malloc.c, with Heap/Tiles, Heap/Release, Heap/Frame, Heap/Headers, Heap/Roundtrip,
-- Heap/Calls, Heap/Run and Heap/Promise. A block is its address, size and flag, in the order of the
-- list; the bytes of the headers are written to the memory as well, and those of a header that leaves the
-- list stay there.
-- Kernel: the state around the scheduler that the objects share.
-- Semaphore: src/kernel/semaphore.c, with Semaphore/Count, Semaphore/Waits,
-- Semaphore/Transfer and Semaphore/Create.
-- Mutex: src/kernel/mutex.c, with Mutex/Owner, Mutex/Lock, Mutex/Unlock and Mutex/Reach.
-- MsgQueue: src/kernel/msg_queue.c; MsgQueue/Calls has the calls that may block, MsgQueue/Isr those from
-- interrupts. MsgQueue/Bytes is about the bytes of a message, MsgQueue/Ring and MsgQueue/Contents about
-- the ring of slots and the messages in it, MsgQueue/Loop and MsgQueue/Settle about the loops, MsgQueue/Inv,
-- MsgQueue/Accepts and MsgQueue/Refine about the calls of tasks, MsgQueue/IsrRefine about those from
-- interrupts, and MsgQueue/Destroy about the destruction. A pointer to a message is an address of the
-- heap's bytes, and the fields of the struct are apart from these.
-- Timer: the software timers of src/kernel/timer.c. Timer/Order is about the order of the list, Timer/Inv
-- about the invariant, Timer/Fire and Timer/Expire about the loop over the timers that are due, and
-- Timer/Reach about sequences of calls. What callbacks do is a parameter.
-- TaskCalls: the other functions of src/kernel/task.c, with TaskCalls/Delay, TaskCalls/Delete and
-- TaskCalls/Cleanup; Sched/Delete is about the lists of a task that is deleted.
-- Trap: `do_trap` of boards/esp32c3/hal.c, which the assembly of a trap calls with the place of the frame
-- and the cause. Sched/Preempt is about the tick, the switch and the second reschedule, Trap/Safe about what
-- timeouts and timers leave alone, Trap/Dispatch about the choice of the task, Trap/Return and
-- Trap/Tick about the trap as a whole. The handlers in the table of interrupts, the callbacks of timers
-- and the value of the hardware counter are parameters.
-- The modules called Tests hold runs on concrete states.
--
-- The functions keep the names of the C code. Words of 16, 32 and 64 bits wrap where the C code can
-- wrap them; an `int` is its 32-bit word. A critical section runs with the interrupts off, so it is one
-- step of the model. A call that blocks is in two parts: the part up to the trap of `task_yield`, which
-- answers `waits` if the trap follows, and a function named `..._resume` for what the task returns when
-- it runs again. A result of 0 for an address is NULL; `none` stands for what C leaves undefined, such
-- as `free` of a pointer that no block belongs to and a `calloc` that writes past its block, and for the
-- endless loop on a corrupt ready list.
--
-- Six kinds of loops run on fuel. The loop that wakes all waiters takes one task off the queue in each round but
-- the last, and has one round more than the queue has tasks. The loop over expired timeouts takes one
-- task off the list in each round, and has as many rounds as the list has tasks. The loop of a call on
-- a message queue goes on after a wait only when its task runs again, so that one round is enough each
-- time it starts or is resumed. The loop over the software timers takes at least one tick off their
-- lateness in each round, so that one round more than that is enough. The clean-up frees one deleted task
-- in each round but the last; a delay goes on after a wait as a call on a message queue does.
--
-- Not modelled: log lines, the saved registers, the words of a frame and the assembly of the context
-- switch, the device registers, the name and entry of a task, the start of the kernel, and the pointers of include/list.h below the sequences they stand for.
pub mod Base
pub mod Error
pub mod Handle
pub mod Task
pub mod Sched
pub mod Time
pub mod WaitQueue
pub mod Heap
pub mod Kernel
pub mod Semaphore
pub mod Mutex
pub mod MsgQueue
pub mod Timer
pub mod TaskCalls
pub mod Trap
