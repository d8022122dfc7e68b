-- ===== src/Handle/Tests.antt =====
-- Runs of handle.c on a new table.
use tiny_rt.Base.{
  ℕ, ◌+◌, ◌^◌, ◌<◌, ◌≡◌, ◌≢◌, refl, true, false, List, [], ◌∷◌, arith, ◌==◌, if◌then◌else◌, All,
  ◌⊎◌,
}
use tiny_rt.Error.{ok, inval, no_mem, perm, val, err}
use tiny_rt.Base.{get_elem?, some}
use tiny_rt.Handle.{
  Slot, Table, ObjType, any, sem, mutex, check_access, initial_slots, trt_handle_alloc,
  trt_handle_lookup, trt_handle_close, handle_get_slot_locked, handle_generation, handle_index,
  handle_make, handle_table_init_locked, first_free,
}
use tiny_rt.Handle.Validity.{
  IsUsable, IsValid, init-IsValid, Call, alloc, lookup, close, run, run-IsUsable, after-IsValid,
  after,
}
use tiny_rt.Handle.Map.{lookup-alloc, alloc-no_mem, lookup-close}
use tiny_rt.Handle.Stale.{closes, lookup-run_closed}

abbrev cold : Table
cold = record { slots = []; initialized = false }

unfoldable new : Table
new = handle_table_init_locked cold

new-IsValid : IsValid new
unfolding new
new-IsValid = init-IsValid cold (λ e. absurd (ground arith))

abbrev one : Table
one = (trt_handle_alloc new 4096 sem 28 1).1

one-IsValid : IsValid one
unfolding trt_handle_alloc after
one-IsValid = after-IsValid new (alloc 4096 sem 28 1) new-IsValid

-- The first handle has index 0 and generation 1.
alloc_runs :
    ((trt_handle_alloc new 4096 sem 28 1).0 ≡ val (2 ^ 16))
    × ((trt_handle_lookup one (2 ^ 16) sem 4 1).0 ≡ val 4096)
    × ((trt_handle_lookup one (2 ^ 16) mutex 4 1).0 ≡ err inval)
    × ((trt_handle_lookup one (2 ^ 16) any 1 1).0 ≡ err perm)
    × ((trt_handle_alloc one 8192 sem 28 1).0 ≡ val (2 ^ 16 + 1))
unfolding new trt_handle_alloc trt_handle_lookup handle_table_init_locked initial_slots first_free
    handle_make handle_get_slot_locked handle_index handle_generation
alloc_runs = (refl, refl, refl, refl, refl)

abbrev script : List Call
script = alloc 4096 sem 28 1 ∷ close (2 ^ 16) ∷ alloc 8192 mutex 28 1 ∷ lookup (2 ^ 16) sem 4 1 ∷ []

run-IsUsable_example : IsUsable (run cold script)
run-IsUsable_example = run-IsUsable cold script (λ e. absurd (ground arith))

lookup-alloc_example :
    (2 ^ 16 ≢ 0)
    × (2 ^ 16 < 2 ^ 32)
    × (handle_get_slot_locked new (2 ^ 16) ≡ err inval)
    × ((k : ℕ) (type' : ObjType) (rights' out' : ℕ)
        → k < 2 ^ 32
        → out' ≢ 0
        → (trt_handle_lookup one k type' rights' out').0 ≡ (
            if k == 2 ^ 16
            then check_access type' rights' (record {
              object = 4096;
              type = sem;
              rights = 28;
              generation = handle_generation (2 ^ 16);
              used = true;
            })
            else (trt_handle_lookup new k type' rights' out').0))
unfolding new trt_handle_alloc handle_table_init_locked initial_slots first_free handle_make
lookup-alloc_example = lookup-alloc new 4096 sem 28 1 new-IsValid refl

lookup-close_example :
    (((trt_handle_close one (2 ^ 16)).0 ≡ ok) ⊎ (trt_handle_close one (2 ^ 16) ≡ (inval, one)))
    × ((k : ℕ) (type : ObjType) (rights out : ℕ)
        → k < 2 ^ 32
        → out ≢ 0
        → (trt_handle_lookup (trt_handle_close one (2 ^ 16)).1 k type rights out).0
          ≡ (if k == 2 ^ 16 then err inval else (trt_handle_lookup one k type rights out).0))
lookup-close_example = lookup-close one (2 ^ 16) one-IsValid (ground arith)

alloc-no_mem_example :
    (All (λ s. s.used ≡ true) one.slots × (trt_handle_alloc one 8192 sem 28 1 ≡ (err no_mem, one)))
    ⊎ ((i : ℕ) × (s : Slot) × (get_elem? one.slots i ≡ some s)
        × (s.used ≡ false)
        × ((trt_handle_alloc one 8192 sem 28 1).0 ≡ val (handle_make i s.generation)))
alloc-no_mem_example = alloc-no_mem one 8192 sem 28 1 one-IsValid (ground arith) (ground arith) refl

-- The slot is given out again before the lookup.
lookup-run_closed_example :
    (trt_handle_lookup
      (run (trt_handle_close one (2 ^ 16)).1 (alloc 8192 sem 28 1 ∷ close 5 ∷ []))
      (2 ^ 16)
      sem
      4
      1).0
    ≡ err inval
unfolding new trt_handle_alloc trt_handle_close handle_table_init_locked initial_slots first_free
    handle_make handle_get_slot_locked handle_index handle_generation closes
lookup-run_closed_example =
    lookup-run_closed one (2 ^ 16) (alloc 8192 sem 28 1 ∷ close 5 ∷ []) sem 4 1 one-IsValid refl
      (ground arith) (ground arith)
