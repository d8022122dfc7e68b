-- ===== src/Handle/Map.antt =====
-- The table as a map: what each call does to the answer for every handle.
use tiny_rt.Base.{
  ℕ, ◌-◌, ◌^◌, ◌<◌, ◌≡◌, ◌≢◌, refl, ap, subst, true, false, ◌⊎◌, ◌==◌, if◌then◌else◌, some, arith,
  get_elem?, set, get_elem?-set, get_elem?-lt, All, All-get_elem?, Option-cases, inl, inr,
  ne→==-false,
}
use tiny_rt.Error.{ok, inval, no_mem, val, err}
use tiny_rt.Handle.{
  handle_max, ObjType, any, type_eq, Slot, Table, handle_get_slot_locked, first_free, taken, closed,
  check_slot, check_access, access, handle_index, handle_generation, handle_make, trt_handle_alloc,
  trt_handle_lookup, trt_handle_close,
}
use tiny_rt.Handle.Validity.{
  IsSlot, IsValid, IsUsable, alloc-IsUsable, set-IsValid, closed-IsSlot, init_of_IsValid,
  first_free-some, first_free-none, get_slot_val, get_slot_err, Res-cases,
}

make_fields :
    (i g : ℕ)
    → i < handle_max
    → 0 < g
    → g < 2 ^ 16
    → (handle_index (handle_make i g) ≡ i)
      × (handle_generation (handle_make i g) ≡ g)
      × (handle_make i g ≢ 0)
      × (handle_make i g < 2 ^ 32)
unfolding handle_index handle_generation handle_make
make_fields i g hi hg lt = omega arith

make_of_fields :
    (k i g : ℕ) → k < 2 ^ 32 → handle_index k ≡ i → handle_generation k ≡ g → k ≡ handle_make i g
unfolding handle_index handle_generation handle_make
make_of_fields k i g h hi hg = omega arith

-- A slot written at `i`: handles of other slots see what they saw.
get_slot-set :
    (t : Table) (i k : ℕ) (s : Slot)
    → IsValid t
    → i < handle_max
    → handle_get_slot_locked (record t { slots = set t.slots i s }) k ≡ (
        if handle_index k == i
        then (if k == 0 then err inval else check_slot k s)
        else handle_get_slot_locked t k)
unfolding handle_get_slot_locked
get_slot-set t i k s v lt =
    ground (arith, get_elem?-set t.slots i (handle_index k) s (omega (arith, v.size)))

-- What a successful `trt_handle_alloc` did.
alloc_val :
    (t : Table) (object : ℕ) (type : ObjType) (rights out : ℕ) {h : ℕ} {t' : Table}
    → IsValid t
    → trt_handle_alloc t object type rights out ≡ (val h, t')
    → (i : ℕ) × (s : Slot) × (get_elem? t.slots i ≡ some s)
      × (s.used ≡ false)
      × (h ≡ handle_make i s.generation)
      × (t' ≡ record t { slots = set t.slots i (taken s object type rights) })
unfolding trt_handle_alloc
alloc_val t object type rights out v e =
    let w = init_of_IsValid v in
    elim (Option-cases (first_free t.slots 0)) [
      | inl full ↦ absurd (ground (arith, w))
      | inr ((i, s), found) ↦
          let (_, at, free) = first_free-some t.slots 0 i s found in
          let z : i - 0 ≡ i = omega arith in
          (i, s, rw z at at, free, ground (arith, w), ground (arith, w))
    ]

-- A free slot answers no handle.
get_slot_free :
    (t : Table) (i k : ℕ) (s : Slot)
    → get_elem? t.slots i ≡ some s
    → s.used ≡ false
    → handle_index k ≡ i
    → handle_get_slot_locked t k ≡ err inval
unfolding handle_get_slot_locked
get_slot_free t i k s at free e = ground arith

-- Nor does a slot answer a handle of another generation.
get_slot_other :
    (t : Table) (h k : ℕ) (s : Slot)
    → get_elem? t.slots (handle_index h) ≡ some s
    → s.generation ≡ handle_generation h
    → handle_index k ≡ handle_index h
    → handle_generation k ≢ handle_generation h
    → handle_get_slot_locked t k ≡ err inval
unfolding handle_get_slot_locked
get_slot_other t h k s at gen e ne = ground arith

pub lookup-access :
    (t : Table) (k : ℕ) (type : ObjType) (rights out : ℕ)
    → IsValid t
    → out ≢ 0
    → (trt_handle_lookup t k type rights out).0 ≡ access type rights (handle_get_slot_locked t k)
unfolding trt_handle_lookup
lookup-access t k type rights out v ne = rw (ne→==-false out 0 ne, init_of_IsValid v)

-- After the write of a new slot, the table answers as before but for the new handle.
alloc_view :
    (t : Table) (i k : ℕ) (old s : Slot)
    → IsValid t
    → get_elem? t.slots i ≡ some old
    → old.used ≡ false
    → s.used ≡ true
    → s.generation ≡ old.generation
    → k < 2 ^ 32
    → handle_get_slot_locked (record t { slots = set t.slots i s }) k
      ≡ (if k == handle_make i old.generation then val s else handle_get_slot_locked t k)
alloc_view t i k old s v at free used gen small =
    let lt : i < handle_max = omega (arith, v.size, get_elem?-lt t.slots i at) in
    let w : IsSlot old = All-get_elem? IsSlot t.slots i v.slots at in
    ground (
      arith,
      get_slot-set t i k s v lt,
      get_slot_free t i k old at free,
      make_fields i old.generation lt w.positive w.fits,
      make_of_fields k i old.generation small,
    )

-- A successful `trt_handle_alloc` on a valid table gives a 32-bit handle other than
-- TRT_HANDLE_INVALID that was not live before. From then on `trt_handle_lookup` with that handle is
-- answered from the given object, type and rights, and with any other handle as before.
pub lookup-alloc :
    (t : Table) (object : ℕ) (type : ObjType) (rights out : ℕ) {h : ℕ} {t' : Table}
    → IsValid t
    → trt_handle_alloc t object type rights out ≡ (val h, t')
    → (h ≢ 0)
      × (h < 2 ^ 32)
      × (handle_get_slot_locked t h ≡ err inval)
      × ((k : ℕ) (type' : ObjType) (rights' out' : ℕ)
          → k < 2 ^ 32
          → out' ≢ 0
          → (trt_handle_lookup t' k type' rights' out').0 ≡ (
              if k == h
              then check_access type' rights' (record {
                object = object;
                type = type;
                rights = rights;
                generation = handle_generation h;
                used = true;
              })
              else (trt_handle_lookup t k type' rights' out').0))
lookup-alloc t object type rights out {h} {t'} v e =
    let (i, s, at, free, eh, et) = alloc_val t object type rights out v e in
    let lt : i < handle_max = omega (arith, v.size, get_elem?-lt t.slots i at) in
    let w : IsSlot s = All-get_elem? IsSlot t.slots i v.slots at in
    let (f0, f1, f2, f3) = make_fields i s.generation lt w.positive w.fits in
    let v' : IsValid t' =
      subst (λ r. IsUsable r.1) e (alloc-IsUsable t object type rights out (λ _. v))
        (ground (arith, et, v.ready)) in
    (
      rw eh f2,
      rw eh f3,
      rw eh (get_slot_free t i (handle_make i s.generation) s at free f0),
      λ k type' rights' out' small ne. ground (
        arith,
        et,
        eh,
        f1,
        lookup-access t' k type' rights' out' v' ne,
        lookup-access t k type' rights' out' v ne,
        alloc_view t i k s (taken s object type rights) v at free refl refl small,
      ),
    )

-- On a valid table `trt_handle_alloc` with an object, an out pointer and a type other than any
-- answers ERR_NO_MEM and leaves the table as it was, if every slot is used, and else gives a handle
-- of a slot that was free.
pub alloc-no_mem :
    (t : Table) (object : ℕ) (type : ObjType) (rights out : ℕ)
    → IsValid t
    → object ≢ 0
    → out ≢ 0
    → type_eq type any ≡ false
    → (All (λ s. s.used ≡ true) t.slots
        × (trt_handle_alloc t object type rights out ≡ (err no_mem, t)))
      ⊎ ((i : ℕ) × (s : Slot) × (get_elem? t.slots i ≡ some s)
          × (s.used ≡ false)
          × ((trt_handle_alloc t object type rights out).0 ≡ val (handle_make i s.generation)))
unfolding trt_handle_alloc
alloc-no_mem t object type rights out v has_object has_out ty =
    elim (Option-cases (first_free t.slots 0)) [
      | inl full ↦ inl (first_free-none t.slots 0 full, ground (arith, init_of_IsValid v, full))
      | inr ((i, s), e) ↦
          let (_, at, free) = first_free-some t.slots 0 i s e in
          inr (
            i,
            s,
            subst (λ n. get_elem? t.slots n ≡ some s) (omega arith) at,
            free,
            ground (arith, init_of_IsValid v, e),
          )
    ]

-- What `trt_handle_close` did.
pub close_cases :
    (t : Table) (h : ℕ)
    → IsValid t
    → (trt_handle_close t h ≡ (inval, t)) × (handle_get_slot_locked t h ≡ err inval)
      ⊎ ((s : Slot) × (handle_get_slot_locked t h ≡ val s)
          × (trt_handle_close t h
              ≡ (ok, record t { slots = set t.slots (handle_index h) (closed s) })))
unfolding trt_handle_close
close_cases t h v = elim (Res-cases (handle_get_slot_locked t h)) [
  | inl (e, dead) ↦
      let i : e ≡ inval = get_slot_err t h dead in
      inl (ground (arith, init_of_IsValid v), ground arith)
  | inr (s, live) ↦ inr (s, live, ground (arith, init_of_IsValid v))
]

-- After the write of a closed slot, the table answers as before but for the closed handle.
close_view :
    (t : Table) (h k : ℕ) (s : Slot)
    → IsValid t
    → handle_get_slot_locked t h ≡ val s
    → h < 2 ^ 32
    → k < 2 ^ 32
    → handle_get_slot_locked (record t { slots = set t.slots (handle_index h) (closed s) }) k
      ≡ (if k == h then err inval else handle_get_slot_locked t k)
close_view t h k s v live hs ks =
    let (at, used, gen, nz, lt) = get_slot_val t h live in
    ground (
      arith,
      get_slot-set t (handle_index h) k (closed s) v lt,
      get_slot_other t h k s at gen,
      make_of_fields h (handle_index h) (handle_generation h) hs,
      make_of_fields k (handle_index h) (handle_generation h) ks,
    )

-- `trt_handle_close` on a valid table answers ERR_OK or ERR_INVAL. With ERR_INVAL it leaves the
-- table as it was. In both cases a later `trt_handle_lookup` with the handle is answered with
-- ERR_INVAL, and one with any other handle as before.
pub lookup-close :
    (t : Table) (h : ℕ)
    → IsValid t
    → h < 2 ^ 32
    → (((trt_handle_close t h).0 ≡ ok) ⊎ (trt_handle_close t h ≡ (inval, t)))
      × ((k : ℕ) (type : ObjType) (rights out : ℕ)
          → k < 2 ^ 32
          → out ≢ 0
          → (trt_handle_lookup (trt_handle_close t h).1 k type rights out).0
            ≡ (if k == h then err inval else (trt_handle_lookup t k type rights out).0))
lookup-close t h v hs = elim (close_cases t h v) [
  | inl (same_table, dead) ↦ (
    inr same_table,
    λ k type rights out ks ne.
        rw same_table (ground (arith, dead, lookup-access t k type rights out v ne)),
  )
  | inr (s, live, done) ↦ (
    inl (ap (λ r. r.0) done),
    λ k type rights out ks ne. rw done (
        ground (
          arith,
          lookup-access t k type rights out v ne,
          lookup-access _ k type rights out
              (set-IsValid (handle_index h) (closed s) v (closed-IsSlot s)) ne,
          close_view t h k s v live hs ks,
        )),
  )
]
