-- ===== src/Timer.antt =====
-- The software timers of src/kernel/timer.c. A timer is its address, 0 for NULL; the list of timers is
-- the sequence of those that it links, so that `list_del_init` of one that is not linked changes
-- nothing. A callback is a function of the program around the kernel, and a parameter of the loop.
pub mod Expire
pub mod Fire
pub mod Reach
pub mod Tests
pub mod Inv
pub mod Order
use tiny_rt.Base.{
  ℕ, zero, suc, ◌+◌, ◌%◌, ◌^◌, Bool, true, false, not, ◌&&◌, ◌||◌, ◌==◌, if◌then◌else◌, Option,
  none, some, List, [], ◌∷◌, count, remove,
}
use tiny_rt.Error.{Err, Res, val, err}
use tiny_rt.Sched.{is_before, timer_expired}
use tiny_rt.Sched.State.{update}
use tiny_rt.Handle.{
  ObjType, right_read, right_write, right_destroy, trt_handle_alloc, trt_handle_lookup,
  trt_handle_close,
}
use tiny_rt.Heap.{malloc, free}
use tiny_rt.Time.{forever_us, timer_us_to_ticks}
use tiny_rt.Kernel.{Kernel, Timer}
use tiny_rt.Semaphore.{granted, with_object}

abbrev pub timer_size : ℕ
timer_size = 28

abbrev pub timer_rights : ℕ
timer_rights = right_read + right_write + right_destroy

abbrev pub set_timer : Kernel → ℕ → Timer → Kernel
set_timer k t timer = record k { timers = update k.timers t timer }

-- Before the first timer with a later deadline.
unfoldable pub insert_timer : (ℕ → Timer) → ℕ → List ℕ → List ℕ
insert_timer timers t [] = t ∷ []
insert_timer timers t (q ∷ qs) =
    if is_before (timers t).deadline (timers q).deadline
    then t ∷ q ∷ qs
    else q ∷ insert_timer timers t qs

unfoldable pub timer_insert_locked : Kernel → ℕ → Kernel
unfolding insert_timer
timer_insert_locked k t = record k { timer_list = insert_timer k.timers t k.timer_list }

unfoldable pub timer_lookup : Kernel → ℕ → ℕ → Res ℕ × Kernel
timer_lookup k handle rights =
    let (r, t) = trt_handle_lookup k.handles handle ObjType.timer rights 1 in
    (r, record k { handles = t })

unfoldable pub timer_setup_obj : Kernel → ℕ → ℕ → ℕ → Kernel
timer_setup_obj k t callback arg =
    if t == 0
    then k
    else set_timer k t
        (record { deadline = 0; period = 0; callback = callback; arg = arg; active = false })

-- The result 0 is TRT_HANDLE_INVALID; `none` stands for what `free` makes of a pointer that is no
-- block's.
unfoldable pub trt_timer_create : Kernel → ℕ → ℕ → Option (ℕ × Kernel)
unfolding malloc timer_setup_obj granted
trt_timer_create k callback arg =
    if callback == 0
    then some (0, k)
    else let (t, u) = malloc k.heap timer_size in
      let k1 = record k { heap = u } in
      if t == 0
      then some (0, k1)
      else let k2 = timer_setup_obj k1 t callback arg in
        granted t k2 (trt_handle_alloc k2.handles t ObjType.timer timer_rights 1)

-- `list_del_init`.
abbrev pub unlink_timer : Kernel → ℕ → Kernel
unlink_timer k t = record k { timer_list = remove t k.timer_list }

unfoldable pub timer_start_ticks_obj : Kernel → ℕ → ℕ → ℕ → Kernel
unfolding timer_insert_locked
timer_start_ticks_obj k t delay_ticks period_ticks =
    if (t == 0) || ((k.timers t).callback == 0)
    then k
    else let k1 = if (k.timers t).active then unlink_timer k t else k in
      timer_insert_locked
        (set_timer k1 t (record (k1.timers t) {
          deadline = (k1.sched.tick_count + delay_ticks) % 2 ^ 32;
          period = period_ticks;
          active = true;
        }))
        t

-- A call without a result.
abbrev pub on_timer : (ℕ → Kernel → Kernel) → Res ℕ × Kernel → Kernel
on_timer go (val t, k) = go t k
on_timer go (err e, k) = k

unfoldable pub timer_start_ticks : Kernel → ℕ → ℕ → ℕ → Kernel
unfolding timer_lookup timer_start_ticks_obj
timer_start_ticks k handle delay_ticks period_ticks =
    on_timer (λ t k1. timer_start_ticks_obj k1 t delay_ticks period_ticks)
      (timer_lookup k handle right_write)

-- In microseconds.
unfoldable pub trt_timer_start : Kernel → ℕ → ℕ → ℕ → Kernel
unfolding timer_start_ticks
trt_timer_start k handle delay period =
    if (delay == forever_us) || (period == forever_us)
    then k
    else timer_start_ticks k handle (timer_us_to_ticks delay) (timer_us_to_ticks period)

unfoldable pub timer_stop_obj : Kernel → ℕ → Kernel
timer_stop_obj k t =
    if t == 0
    then k
    else if (k.timers t).active
    then set_timer (unlink_timer k t) t (record (k.timers t) { active = false })
    else k

unfoldable pub trt_timer_stop : Kernel → ℕ → Kernel
unfolding timer_lookup timer_stop_obj
trt_timer_stop k handle = on_timer (λ t k1. timer_stop_obj k1 t) (timer_lookup k handle right_write)

abbrev pub cleared_timer : Timer
cleared_timer = record { deadline = 0; period = 0; callback = 0; arg = 0; active = false }

unfoldable pub timer_destroy_obj : Kernel → ℕ → Err × Kernel
timer_destroy_obj k t =
    if t == 0
    then (Err.inval, k)
    else let k1 =
        if (k.timers t).active
        then unlink_timer k t
        else if not (count t k.timer_list == 0)
        then unlink_timer k t
        else k in
      (Err.ok, set_timer k1 t cleared_timer)

-- The end of a destruction.
unfoldable pub timer_discarded : ℕ → ℕ → Err × Kernel → Option (Err × Kernel)
unfolding trt_handle_close free
timer_discarded handle t (Err.ok, k) =
    let (_, table) = trt_handle_close k.handles handle in
    elim (free k.heap t) [
      | none ↦ none
      | some u ↦ some (Err.ok, record k { handles = table; heap = u })
    ]
timer_discarded handle t (e, k) = some (e, k)

unfoldable pub trt_timer_destroy : Kernel → ℕ → Option (Err × Kernel)
unfolding timer_lookup timer_destroy_obj timer_discarded
trt_timer_destroy k handle =
    if k.sched.in_isr
    then some (Err.state, k)
    else let (r, k1) = timer_lookup k handle right_destroy in
      elim r [ err e ↦ some (e, k1) | val t ↦ timer_discarded handle t (timer_destroy_obj k1 t) ]

unfoldable pub timer_active_obj : Kernel → ℕ → Bool
timer_active_obj k t = not (t == 0) && (k.timers t).active

unfoldable pub trt_timer_active : Kernel → ℕ → Bool × Kernel
unfolding timer_lookup timer_active_obj
trt_timer_active k handle =
    with_object (λ e. false) (λ t k1. (timer_active_obj k1 t, k1))
      (timer_lookup k handle right_read)

-- What the loop does to the first timer of the list, if its time has come, before its callback.
unfoldable pub fire : Kernel → ℕ → Kernel
unfolding timer_insert_locked
fire k t =
    let k1 = unlink_timer k t in
    let timer = k1.timers t in
    if not (timer.period == 0)
    then timer_insert_locked
        (set_timer k1 t (record timer { deadline = (timer.deadline + timer.period) % 2 ^ 32 })) t
    else set_timer k1 t (record timer { active = false })

-- On fuel: `none` when it is used up. `run` is what a callback with its argument does.
unfoldable pub timer_run_expired : (ℕ → ℕ → Kernel → Kernel) → ℕ → Kernel → Option Kernel
unfolding fire
timer_run_expired run zero k = none
timer_run_expired run (suc fuel) k = elim k.timer_list [
  | [] ↦ some k
  | t ∷ ts ↦
      let timer = k.timers t in
      let rest = timer_run_expired run fuel (run timer.callback timer.arg (fire k t)) in
      if not (timer_expired k.sched.tick_count timer.deadline) then some k else rest
]
