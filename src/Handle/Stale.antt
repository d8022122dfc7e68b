-- ===== src/Handle/Stale.antt =====
-- How long a closed handle stays dead: its slot comes back under other generations, until the
-- 16-bit generation has gone all the way round.
use tiny_rt.Base.{
  ℕ, suc, ◌+◌, ◌-◌, ◌%◌, ◌^◌, ◌<◌, ◌≡◌, ◌≢◌, refl, ◌∙◌, ap, ◌⊎◌, inl, inr, none, some, List, [],
  ◌∷◌, arith, get_elem?, set, get_elem?-set, get_elem?-lt, All-get_elem?,
}
use tiny_rt.Error.{ok, inval, err}
use tiny_rt.Handle.{
  ObjType, Table, handle_get_slot_locked, taken, closed, next_generation, handle_index,
  handle_generation, trt_handle_alloc, trt_handle_lookup, trt_handle_close,
}
use tiny_rt.Handle.Validity.{
  IsSlot, IsValid, set-IsValid, closed-IsSlot, init_of_IsValid, alloc_cases, first_free-some,
  get_slot_val, Call, alloc, lookup, close, after, run, after-IsValid,
}
use tiny_rt.Handle.Map.{close_cases, lookup-access}

abbrev gen_at : Table → ℕ → ℕ
gen_at t i = elim (get_elem? t.slots i) [ none ↦ 0 | some s ↦ s.generation ]

-- The generation after `d` closes, from 1 to 65535.
advance : ℕ → ℕ → ℕ
advance g d = (g - 1 + d) % 65535 + 1

next-advance : (g d : ℕ) → 0 < g → next_generation (advance g d) ≡ advance g (d + 1)
unfolding advance
next-advance g d h = ground arith

advance-ne : (g d : ℕ) → 0 < g → g < 2 ^ 16 → 0 < d → d < 65535 → advance g d ≢ g
unfolding advance
advance-ne g d h k p q = omega arith

advance_one : (g : ℕ) → 0 < g → g < 2 ^ 16 → next_generation g ≡ advance g 1
unfolding advance
advance_one g h k = ground arith

gen_at-alloc :
    (t : Table) (i object : ℕ) (type : ObjType) (rights out : ℕ)
    → IsValid t
    → gen_at (trt_handle_alloc t object type rights out).1 i ≡ gen_at t i
gen_at-alloc t i object type rights out v =
    alloc_cases (λ u. gen_at u i ≡ gen_at t i) t object type rights out refl
      (ap (λ u. gen_at u i) (init_of_IsValid v))
      λ j s e _.
        let w = init_of_IsValid v in
        let (_, at, _) = first_free-some t.slots 0 j s (rw w at e) in
        let z : j - 0 ≡ j = omega arith in
        let at' : get_elem? t.slots j ≡ some s = rw z at at in
        rw w (
          ground (
            arith,
            get_elem?-set t.slots j i (taken s object type rights) (get_elem?-lt t.slots j at'),
          ))

gen_at-lookup :
    (t : Table) (handle : ℕ) (type : ObjType) (rights out : ℕ)
    → IsValid t
    → (trt_handle_lookup t handle type rights out).1 ≡ t
unfolding trt_handle_lookup
gen_at-lookup t handle type rights out v = ground (arith, init_of_IsValid v)

gen_at-close :
    (t : Table) (i h : ℕ)
    → IsValid t
    → (gen_at (trt_handle_close t h).1 i ≡ gen_at t i)
      ⊎ (gen_at (trt_handle_close t h).1 i ≡ next_generation (gen_at t i))
gen_at-close t i h v = elim (close_cases t h v) [
  | inl (e, dead) ↦ inl (ap (λ r. gen_at r.1 i) e)
  | inr (s, live, e) ↦
      let (at, _, _, _, _) = get_slot_val t h live in
      rw e (
        ground (
          arith,
          get_elem?-set t.slots (handle_index h) i (closed s)
              (get_elem?-lt t.slots (handle_index h) at),
        ))
]

unfoldable pub closes : List Call → ℕ
closes [] = 0
closes (close h ∷ cs) = suc (closes cs)
closes (c ∷ cs) = closes cs

-- The generations from 1 closes on that are not yet all the way round.
abbrev Later : ℕ → ℕ → ℕ → Type 0
Later g n x = (d : ℕ) × (x ≡ advance g d) × (0 < d) × (d + n < 65535)

-- One call takes a generation later by at most one step, a close alone by one.
after-Later :
    (t : Table) (c : Call) (g i n : ℕ)
    → IsValid t
    → 0 < g
    → Later g (closes (c ∷ []) + n) (gen_at t i)
    → Later g n (gen_at (after t c) i)
unfolding after closes
after-Later t (alloc object type rights out) g i n v p (d, at, pos, lt) =
    (d, gen_at-alloc t i object type rights out v ∙ at, pos, omega arith)
after-Later t (lookup handle type rights out) g i n v p (d, at, pos, lt) =
    (d, ap (λ u. gen_at u i) (gen_at-lookup t handle type rights out v) ∙ at, pos, omega arith)
after-Later t (close h) g i n v p (d, at, pos, lt) = elim (gen_at-close t i h v) [
  | inl e ↦ (d, e ∙ at, pos, omega arith)
  | inr e ↦ (d + 1, e ∙ ap next_generation at ∙ next-advance g d p, omega arith, omega arith)
]

closes-cons : (c : Call) (cs : List Call) → closes (c ∷ cs) ≡ closes (c ∷ []) + closes cs
unfolding closes
closes-cons (alloc object type rights out) cs = omega arith
closes-cons (lookup handle type rights out) cs = omega arith
closes-cons (close h) cs = omega arith

run-Later :
    (t : Table) (cs : List Call) (g i : ℕ)
    → IsValid t
    → 0 < g
    → Later g (closes cs) (gen_at t i)
    → IsValid (run t cs) × Later g 0 (gen_at (run t cs) i)
unfolding run
run-Later t [] g i v p (d, at, pos, lt) = (v, (d, at, pos, omega arith))
run-Later t (c ∷ cs) g i v p (d, at, pos, lt) =
    run-Later (after t c) cs g i (after-IsValid t c v) p
      (after-Later t c g i (closes cs) v p (d, at, pos, omega (arith, closes-cons c cs)))

-- A slot of another generation does not answer.
get_slot_gen :
    (t : Table) (h : ℕ)
    → gen_at t (handle_index h) ≢ handle_generation h
    → handle_get_slot_locked t h ≡ err inval
unfolding handle_get_slot_locked
get_slot_gen t h ne = ground arith

-- Once `trt_handle_close` has accepted a handle on a valid table, every `trt_handle_lookup` with
-- that handle is answered with ERR_INVAL, whatever calls come between, also when the slot has been
-- given out again, as long as fewer than 65534 of them are calls of `trt_handle_close`.
pub lookup-run_closed :
    (t : Table) (h : ℕ) (cs : List Call) (type : ObjType) (rights out : ℕ)
    → IsValid t
    → (trt_handle_close t h).0 ≡ ok
    → closes cs < 65534
    → out ≢ 0
    → (trt_handle_lookup (run (trt_handle_close t h).1 cs) h type rights out).0 ≡ err inval
lookup-run_closed t h cs type rights out v done few ne = elim (close_cases t h v) [
  | inl (e, dead) ↦ absurd (ground (arith, e))
  | inr (s, live, e) ↦
      let (at, _, gen, _, _) = get_slot_val t h live in
      let i = handle_index h in
      let t1 : Table = record t { slots = set t.slots i (closed s) } in
      let v1 : IsValid t1 = set-IsValid i (closed s) v (closed-IsSlot s) in
      let w : IsSlot s = All-get_elem? IsSlot t.slots i v.slots at in
      let g = s.generation in
      let start : gen_at t1 i ≡ advance g 1 = ground (
        arith,
        get_elem?-set t.slots i i (closed s) (get_elem?-lt t.slots i at),
        advance_one g w.positive w.fits,
      ) in
      let (v2, (d, at', pos, lt)) =
        run-Later t1 cs g i v1 w.positive (1, start, omega arith, omega arith) in
      let apart : advance g d ≢ g = advance-ne g d w.positive w.fits pos (omega arith) in
      rw e (
        ground
          (arith, lookup-access (run t1 cs) h type rights out v2 ne, get_slot_gen (run t1 cs) h))
]
