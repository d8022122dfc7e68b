-- ===== src/Handle.antt =====
-- src/kernel/handle.c and handle_private.h: the table that maps 32-bit handles to kernel objects.
-- A critical section runs with the interrupts off, so each call is one step on the table.
pub mod Validity
pub mod Map
pub mod Stale
pub mod Tests
use tiny_rt.Base.{
  ℕ, zero, suc, ◌+◌, ◌*◌, ◌/◌, ◌%◌, ◌^◌, ◌-◌, Bool, true, false, not, ◌&&◌, ◌||◌, ◌==◌, leb,
  if◌then◌else◌, Option, none, some, List, [], ◌∷◌, get_elem?, set, replicate, bit_and,
}
use tiny_rt.Error.{Err, ok, inval, no_mem, perm, Res, val, err}

-- RTOS_HANDLE_MAX.
abbrev pub handle_max : ℕ
handle_max = 64

-- `trt_obj_type_t`.
pub data ObjType : Type 0 where
  any task sem mutex msg_q timer : ObjType

abbrev pub type_code : ObjType → ℕ
type_code any = 0
type_code task = 1
type_code sem = 2
type_code mutex = 3
type_code msg_q = 4
type_code timer = 5

abbrev pub type_eq : ObjType → ObjType → Bool
type_eq a b = type_code a == type_code b

-- `TRT_RIGHT_*`.
abbrev pub right_read : ℕ
right_read = 1

abbrev pub right_write : ℕ
right_write = 2

abbrev pub right_wait : ℕ
right_wait = 4

abbrev pub right_post : ℕ
right_post = 8

abbrev pub right_destroy : ℕ
right_destroy = 16

-- `handle_slot_t`. The object is an address, 0 for NULL.
pub record Slot : Type 0 where
  pub object : ℕ
  pub type : ObjType
  pub rights : ℕ
  pub generation : ℕ
  pub used : Bool

-- `handle_table` and `handle_initialized`.
pub record Table : Type 0 where
  pub slots : List Slot
  pub initialized : Bool

unfoldable pub handle_index : ℕ → ℕ
handle_index handle = handle % 2 ^ 16

-- The cast to `uint16_t` follows the shift.
unfoldable pub handle_generation : ℕ → ℕ
handle_generation handle = handle / 2 ^ 16 % 2 ^ 16

-- The index is below 2 ^ 16, so `|` adds it.
unfoldable pub handle_make : ℕ → ℕ → ℕ
handle_make index generation = generation * 2 ^ 16 + index

abbrev pub empty_slot : Slot
empty_slot = record { object = 0; type = any; rights = 0; generation = 1; used = false }

unfoldable pub initial_slots : List Slot
initial_slots = replicate handle_max empty_slot

unfoldable pub handle_table_init_locked : Table → Table
handle_table_init_locked t =
    if t.initialized then t else record { slots = initial_slots; initialized = true }

-- What the slot says of a handle that points at it.
abbrev pub check_slot : ℕ → Slot → Res Slot
check_slot handle slot =
    if not slot.used || not (slot.generation == handle_generation handle)
    then err inval
    else val slot

unfoldable pub handle_get_slot_locked : Table → ℕ → Res Slot
unfolding handle_index handle_generation
handle_get_slot_locked t handle =
    if handle == 0
    then err inval
    else if leb handle_max (handle_index handle)
    then err inval
    else elim (get_elem? t.slots (handle_index handle)) [
      | none ↦ err inval
      | some slot ↦ check_slot handle slot
    ]

-- The loop of `trt_handle_alloc`: the first slot that is not used, with its index.
pub first_free : List Slot → ℕ → Option (ℕ × Slot)
first_free [] i = none
first_free (slot ∷ slots) i = if slot.used then first_free slots (i + 1) else some (i, slot)

abbrev pub taken : Slot → ℕ → ObjType → ℕ → Slot
taken slot object type rights = record slot {
  object = object;
  type = type;
  rights = rights;
  used = true;
}

-- `out` is the address of the result, tested for NULL alone.
unfoldable pub trt_handle_alloc : Table → ℕ → ObjType → ℕ → ℕ → Res ℕ × Table
unfolding first_free handle_table_init_locked handle_make
trt_handle_alloc t object type rights out =
    if object == 0 || (out == 0 || type_eq type any)
    then (err inval, t)
    else let u = handle_table_init_locked t in
      elim (first_free u.slots 0) [
        | none ↦ (err no_mem, u)
        | some (i, slot) ↦ (
          val (handle_make i slot.generation),
          record u { slots = set u.slots i (taken slot object type rights) },
        )
      ]

-- The tests that follow the slot's.
abbrev pub check_access : ObjType → ℕ → Slot → Res ℕ
check_access type rights slot =
    if not (type_eq type any) && not (type_eq slot.type type)
    then err inval
    else if not (bit_and slot.rights rights == rights)
    then err perm
    else val slot.object

abbrev pub access : ObjType → ℕ → Res Slot → Res ℕ
access type rights (err e) = err e
access type rights (val slot) = check_access type rights slot

unfoldable pub trt_handle_lookup : Table → ℕ → ObjType → ℕ → ℕ → Res ℕ × Table
unfolding handle_table_init_locked handle_get_slot_locked
trt_handle_lookup t handle type rights out =
    if out == 0
    then (err inval, t)
    else let u = handle_table_init_locked t in
      (access type rights (handle_get_slot_locked u handle), u)

-- `generation` is a `uint16_t`, and skips 0.
abbrev pub next_generation : ℕ → ℕ
next_generation g = let n = (g + 1) % 2 ^ 16 in if n == 0 then 1 else n

abbrev pub closed : Slot → Slot
closed slot = record {
  object = 0;
  type = any;
  rights = 0;
  generation = next_generation slot.generation;
  used = false;
}

unfoldable pub trt_handle_close : Table → ℕ → Err × Table
unfolding handle_table_init_locked handle_get_slot_locked handle_index
trt_handle_close t handle =
    let u = handle_table_init_locked t in
    elim (handle_get_slot_locked u handle) [
      | err e ↦ (e, u)
      | val slot ↦ (ok, record u { slots = set u.slots (handle_index handle) (closed slot) })
    ]

unfoldable pub trt_handle_valid : Table → ℕ → Bool × Table
unfolding trt_handle_lookup
trt_handle_valid t handle =
    let (r, u) = trt_handle_lookup t handle any 0 1 in (elim r [ val _ ↦ true | err _ ↦ false ], u)
