-- ===== src/Handle/Validity.antt =====
-- The invariant of the handle table, kept by every call.
use tiny_rt.Base.{
  ◌||◌, ◌==◌, ◌⊎◌, ℕ, suc, ◌+◌, ◌^◌, ◌≤◌, ◌<◌, ◌≡◌, ◌≢◌, refl, true, false, none, some, List, [],
  ◌∷◌, arith, get_elem?, set, length, length-set, All, All-get_elem?, All-set, All-replicate,
  Option-cases, Bool-cases, inl, inr, ◌-◌, ◌∙◌,
}
use tiny_rt.Error.{Err, inval, Res, val, err}
use tiny_rt.Handle.{
  handle_max, ObjType, type_eq, any, Slot, Table, handle_table_init_locked, handle_get_slot_locked,
  empty_slot, initial_slots, first_free, taken, closed, next_generation, handle_index,
  handle_generation, trt_handle_alloc, trt_handle_lookup, trt_handle_close,
}

-- A generation is a `uint16_t` other than 0, so that no handle is TRT_HANDLE_INVALID; a used slot
-- has an object, and a free one has none.
pub record IsSlot (s : Slot) : Type 0 where
  pub positive : 0 < s.generation
  pub fits : s.generation < 2 ^ 16
  pub holds : s.used ≡ true → s.object ≢ 0
  pub clear : s.used ≡ false → s.object ≡ 0

pub record IsValid (t : Table) : Type 0 where
  pub ready : t.initialized ≡ true
  pub size : length t.slots ≡ handle_max
  pub slots : All IsSlot t.slots

-- A table before its first call, or a valid one.
abbrev pub IsUsable : Table → Type 0
IsUsable t = t.initialized ≡ true → IsValid t

pub empty_slot-IsSlot : IsSlot empty_slot
empty_slot-IsSlot = grind arith

initial_slots-IsSlot : (length initial_slots ≡ handle_max) × All IsSlot initial_slots
unfolding initial_slots
initial_slots-IsSlot = (refl, All-replicate IsSlot handle_max empty_slot empty_slot-IsSlot)

pub init-IsValid : (t : Table) → IsUsable t → IsValid (handle_table_init_locked t)
unfolding handle_table_init_locked
init-IsValid t u = elim (Bool-cases t.initialized) [
  | inl e ↦ simp e (u e)
  | inr e ↦
      simp e
        (record { ready = refl; size = initial_slots-IsSlot.0; slots = initial_slots-IsSlot.1 })
]

pub init_of_IsValid : {t : Table} → IsValid t → handle_table_init_locked t ≡ t
unfolding handle_table_init_locked
init_of_IsValid v = rw v.ready

-- The loop finds a slot that is not used, at its index in the table.
pub first_free-some :
    (ss : List Slot) (k i : ℕ) (s : Slot)
    → first_free ss k ≡ some (i, s)
    → (k ≤ i) × (get_elem? ss (i - k) ≡ some s) × (s.used ≡ false)
unfolding first_free
first_free-some [] k i s e = absurd (ground arith)
first_free-some (x ∷ ss) k i s e = elim (Bool-cases x.used) [
  | inl busy ↦
      let (le, found, free) = first_free-some ss (k + 1) i s (ground arith) in
      let at : i - k ≡ suc (i - (k + 1)) = omega arith in (omega arith, rw at found, free)
  | inr free ↦
      let here : i ≡ k = ground arith in
      let at : i - k ≡ 0 = omega arith in (omega arith, rw at (ground arith), ground arith)
]

-- It fails only if every slot is used.
pub first_free-none :
    (ss : List Slot) (k : ℕ) → first_free ss k ≡ none → All (λ s. s.used ≡ true) ss
unfolding first_free
first_free-none [] k e = tt
first_free-none (x ∷ ss) k e = ground (arith, first_free-none ss (k + 1))

-- The calls of a client, in any order.
pub data Call : Type 0 where
  alloc : (object : ℕ) (type : ObjType) (rights out : ℕ) → Call
  lookup : (handle : ℕ) (type : ObjType) (rights out : ℕ) → Call
  close : (handle : ℕ) → Call

unfoldable pub after : Table → Call → Table
after t (alloc object type rights out) = (trt_handle_alloc t object type rights out).1
after t (lookup handle type rights out) = (trt_handle_lookup t handle type rights out).1
after t (close handle) = (trt_handle_close t handle).1

unfoldable pub run : Table → List Call → Table
run t [] = t
run t (c ∷ cs) = run (after t c) cs

pub set-IsValid :
    {t : Table} (i : ℕ) (s : Slot)
    → IsValid t
    → IsSlot s
    → IsValid (record t { slots = set t.slots i s })
set-IsValid {t} i s v w = record {
  ready = v.ready;
  size = length-set t.slots i s ∙ v.size;
  slots = All-set IsSlot t.slots i s v.slots w;
}

-- What `trt_handle_alloc` leaves, on each of its branches.
pub alloc_cases {ℓ} :
    (P : Table → Type ℓ) (t : Table) (object : ℕ) (type : ObjType) (rights out : ℕ)
    → P t
    → P (handle_table_init_locked t)
    → ((i : ℕ) (s : Slot)
        → first_free (handle_table_init_locked t).slots 0 ≡ some (i, s)
        → object ≢ 0
        → P (record (handle_table_init_locked t) {
          slots = set (handle_table_init_locked t).slots i (taken s object type rights);
        }))
    → P (trt_handle_alloc t object type rights out).1
unfolding trt_handle_alloc
alloc_cases P t object type rights out refused full found =
    elim (Bool-cases (object == 0 || (out == 0 || type_eq type any))) [
      | inl bad ↦ rw bad refused
      | inr good ↦ rw good (elim (Option-cases (first_free (handle_table_init_locked t).slots 0)) [
        | inl e ↦ rw (e, trt_handle_alloc) full
        | inr ((i, s), e) ↦ rw (e, trt_handle_alloc) (found i s e (ground arith))
      ])
    ]

pub alloc-IsUsable :
    (t : Table) (object : ℕ) (type : ObjType) (rights out : ℕ)
    → IsUsable t
    → IsUsable (trt_handle_alloc t object type rights out).1
alloc-IsUsable t object type rights out u =
    let v = init-IsValid t u in
    alloc_cases IsUsable t object type rights out u (λ _. v)
      λ i s e ne _.
        let (_, at, free) = first_free-some (handle_table_init_locked t).slots 0 i s e in
        let w : IsSlot s =
          All-get_elem? IsSlot (handle_table_init_locked t).slots (i - 0) v.slots at in
        set-IsValid i (taken s object type rights) v
          (record { positive = w.positive; fits = w.fits; holds = λ _. ne; clear = λ h. cc })

-- The slot that a live handle points at.
pub get_slot_val :
    (t : Table) (handle : ℕ) {s : Slot}
    → handle_get_slot_locked t handle ≡ val s
    → (get_elem? t.slots (handle_index handle) ≡ some s)
      × (s.used ≡ true)
      × (s.generation ≡ handle_generation handle)
      × (handle ≢ 0)
      × (handle_index handle < handle_max)
unfolding handle_get_slot_locked
get_slot_val t handle h = ground arith

-- A handle that is not live is answered with ERR_INVAL.
pub get_slot_err :
    (t : Table) (handle : ℕ) {e : Err} → handle_get_slot_locked t handle ≡ err e → e ≡ inval
unfolding handle_get_slot_locked
get_slot_err t handle h = ground arith

pub Res-cases {ℓ} : {A : Type ℓ} (r : Res A) → ((e : Err) × (r ≡ err e)) ⊎ ((a : A) × (r ≡ val a))
Res-cases (err e) = inl (e, refl)
Res-cases (val a) = inr (a, refl)

next_generation_range : (g : ℕ) → (0 < next_generation g) × (next_generation g < 2 ^ 16)
next_generation_range g = ground arith

pub closed-IsSlot : (s : Slot) → IsSlot (closed s)
closed-IsSlot s = record {
  positive = (next_generation_range s.generation).0;
  fits = (next_generation_range s.generation).1;
  holds = λ h. cc;
  clear = λ _. refl;
}

pub close-IsUsable : (t : Table) (handle : ℕ) → IsUsable t → IsUsable (trt_handle_close t handle).1
unfolding trt_handle_close
close-IsUsable t handle u =
    let w = handle_table_init_locked t in
    let v = init-IsValid t u in
    elim (Res-cases (handle_get_slot_locked w handle)) [
      | inl (e, no_slot) ↦ rw (no_slot, trt_handle_close) (λ _. v)
      | inr (s, found) ↦
          rw (found, trt_handle_close)
            (λ _. set-IsValid (handle_index handle) (closed s) v (closed-IsSlot s))
    ]

lookup-IsUsable :
    (t : Table) (handle : ℕ) (type : ObjType) (rights out : ℕ)
    → IsUsable t
    → IsUsable (trt_handle_lookup t handle type rights out).1
unfolding trt_handle_lookup
lookup-IsUsable t handle type rights out u = elim (Bool-cases (out == 0)) [
  | inl e ↦ rw e u
  | inr e ↦ rw e (λ _. init-IsValid t u)
]

pub after-IsUsable : (t : Table) (c : Call) → IsUsable t → IsUsable (after t c)
unfolding after
after-IsUsable t (alloc object type rights out) u = alloc-IsUsable t object type rights out u
after-IsUsable t (lookup handle type rights out) u = lookup-IsUsable t handle type rights out u
after-IsUsable t (close handle) u = close-IsUsable t handle u

lookup-ready :
    (t : Table) (handle : ℕ) (type : ObjType) (rights out : ℕ)
    → IsValid t
    → (trt_handle_lookup t handle type rights out).1.initialized ≡ true
unfolding trt_handle_lookup
lookup-ready t handle type rights out v = ground (arith, init_of_IsValid v)

close-ready :
    (t : Table) (handle : ℕ) → IsValid t → (trt_handle_close t handle).1.initialized ≡ true
unfolding trt_handle_close
close-ready t handle v = ground (arith, init_of_IsValid v)

after-ready : (t : Table) (c : Call) → IsValid t → (after t c).initialized ≡ true
unfolding after
after-ready t (alloc object type rights out) v =
    let e = init_of_IsValid v in
    alloc_cases (λ u. u.initialized ≡ true) t object type rights out v.ready (rw e v.ready)
      (λ i s found ne. rw e v.ready)
after-ready t (lookup handle type rights out) v = lookup-ready t handle type rights out v
after-ready t (close handle) v = close-ready t handle v

pub after-IsValid : (t : Table) (c : Call) → IsValid t → IsValid (after t c)
after-IsValid t c v = after-IsUsable t c (λ _. v) (after-ready t c v)

-- Whatever calls a client makes, in any order and with any arguments, a table that was valid or not
-- yet initialized is so afterwards. A valid table has 64 slots, each with a generation from 1 to
-- 65535; a used slot has an object other than NULL and a free slot has none.
pub run-IsUsable : (t : Table) (cs : List Call) → IsUsable t → IsUsable (run t cs)
unfolding run
run-IsUsable t [] u = u
run-IsUsable t (c ∷ cs) u = run-IsUsable (after t c) cs (after-IsUsable t c u)
