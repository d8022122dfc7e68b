-- ===== src/Heap/Calls.antt =====
-- The calls of malloc.c on a heap whose region does not start at address 0 or end at the top of the
-- address space.
use tiny_rt.Base.{
  ne→==-false, ap, some-injective, ◌∙◌, ℕ, ◌+◌, ◌-◌, ◌%◌, ◌^◌, ◌≤◌, ◌<◌, ◌≡◌, ◌≢◌, refl, sym, subst,
  true, false, Option, none, some, List, [], ◌∷◌, ◌==◌, leb, if◌then◌else◌, arith, inl, inr, ◌⊎◌,
  Bool-cases, Option-cases,
}
use tiny_rt.Heap.{
  Heap, Block, header, heap_align, align_size, align_up, align_down, heap_init_once, malloc, free,
  calloc, realloc, first_fit, release, with_blocks, put_unlinked, gone,
}
use tiny_rt.Heap.Tiles.{Tiles, first_fit-Tiles}
use tiny_rt.Heap.Release.{release-Tiles}

-- An initialized heap: its blocks tile the aligned region, or the region was too small for one.
pub record IsRegion (h : Heap) : Type 0 where
  pub ready : h.heap_initialized ≡ true
  pub low : 8 ≤ h.heap_start_addr
  pub aligned : h.heap_start_addr % heap_align ≡ 0
  pub fits : h.heap_end_addr < 2 ^ 32
  pub tiles : (h.blocks ≡ []) ⊎ Tiles h.heap_start_addr h.blocks h.heap_end_addr

-- The heap at any time after boot.
pub record IsHeap (h : Heap) : Type 0 where
  pub boot :
      h.heap_initialized ≡ false
      → (8 ≤ h.heap_start) × (h.heap_start ≤ 2 ^ 32 - 32) × (h.heap_end < 2 ^ 32)
  pub region : h.heap_initialized ≡ true → IsRegion h

pub IsRegion-IsHeap : {h : Heap} → IsRegion h → IsHeap h
IsRegion-IsHeap r = record { boot = λ e. absurd (ground (arith, r.ready)); region = λ _. r }

pub init_id : (h : Heap) → h.heap_initialized ≡ true → heap_init_once h ≡ h
unfolding heap_init_once
init_id h e = simp e

first-Tiles :
    (s e : ℕ)
    → s % heap_align ≡ 0
    → e % heap_align ≡ 0
    → s + header < 2 ^ 32
    → let bs : List Block =
        if leb e ((s + header) % 2 ^ 32)
        then []
        else record { addr = s; size = e - s - header; free = true } ∷ [] in
      (bs ≡ []) ⊎ Tiles s bs e
first-Tiles s e sa ea lt = elim (Bool-cases (leb e ((s + header) % 2 ^ 32))) [
  | inl small ↦ rw small (inl refl)
  | inr large ↦ rw large (inr (refl, ground arith, ground arith))
]

fresh-IsRegion : (h : Heap) → IsHeap h → h.heap_initialized ≡ false → IsRegion (heap_init_once h)
unfolding heap_init_once
fresh-IsRegion h v e =
    let (low, high, fits) = v.boot e in
    simp e (record {
      ready = refl;
      low = omega arith;
      aligned = omega arith;
      fits = omega arith;
      tiles =
          first-Tiles (align_up h.heap_start) (align_down h.heap_end) (omega arith) (omega arith)
            (omega arith);
    })

pub init-IsRegion : (h : Heap) → IsHeap h → IsRegion (heap_init_once h)
init-IsRegion h v = elim (Bool-cases h.heap_initialized) [
  | inl e ↦ subst IsRegion (sym (init_id h e)) (v.region e)
  | inr e ↦ fresh-IsRegion h v e
]

-- The calls, each with its arguments.
pub data Call : Type 0 where
  mallocs : (size : ℕ) → Call
  frees : (ptr : ℕ) → Call
  callocs : (count size : ℕ) → Call
  reallocs : (ptr size : ℕ) → Call

-- The heap after a call; `none` for a pointer that the heap does not know and for a `calloc` that
-- writes past its block.
unfoldable pub after : Heap → Call → Option Heap
after h (mallocs size) = some (malloc h size).1
after h (frees ptr) = free h ptr
after h (callocs count size) = elim (calloc h count size) [ none ↦ none | some (p, u) ↦ some u ]
after h (reallocs ptr size) = elim (realloc h ptr size) [ none ↦ none | some (p, u) ↦ some u ]

pub blocks-IsRegion :
    {h : Heap} (bs : List Block)
    → IsRegion h
    → ((h.blocks ≡ []) ⊎ Tiles h.heap_start_addr h.blocks h.heap_end_addr
        → (bs ≡ []) ⊎ Tiles h.heap_start_addr bs h.heap_end_addr)
    → IsRegion (with_blocks h bs)
blocks-IsRegion bs r step = record {
  ready = r.ready;
  low = r.low;
  aligned = r.aligned;
  fits = r.fits;
  tiles = step r.tiles;
}

pub align_size-aligned : (size : ℕ) → align_size size % heap_align ≡ 0
align_size-aligned size = omega arith

pub fitted_region :
    {h : Heap} (size p : ℕ) (bs : List Block)
    → IsRegion h
    → first_fit (align_size size) h.blocks ≡ some (p, bs)
    → (h.blocks ≡ []) ⊎ Tiles h.heap_start_addr h.blocks h.heap_end_addr
    → Tiles h.heap_start_addr bs h.heap_end_addr
unfolding first_fit
fitted_region {h} size p bs r found (inl empty) = absurd (ground arith)
fitted_region {h} size p bs r found (inr t) =
    first_fit-Tiles h.heap_start_addr h.heap_end_addr (align_size size) h.blocks p bs t r.low r.fits
      (align_size-aligned size) found

-- `malloc` on each of its branches.
pub malloc_cases {ℓ} :
    (P : ℕ × Heap → Type ℓ) (h : Heap) (size : ℕ)
    → P (0, h)
    → P (0, heap_init_once h)
    → ((p : ℕ) (bs : List Block)
        → size ≢ 0
        → first_fit (align_size size) (heap_init_once h).blocks ≡ some (p, bs)
        → P (p, with_blocks (heap_init_once h) bs))
    → P (malloc h size)
unfolding malloc
malloc_cases P h size nothing full found = elim (Bool-cases (size == 0)) [
  | inl z ↦ rw z nothing
  | inr nz ↦ rw nz (elim (Option-cases (first_fit (align_size size) (heap_init_once h).blocks)) [
    | inl e ↦ rw (e, malloc) full
    | inr ((p, bs), e) ↦ rw (e, malloc) (found p bs (ground arith) e)
  ])
]

pub malloc-IsHeap : (h : Heap) (size : ℕ) → IsHeap h → IsHeap (malloc h size).1
malloc-IsHeap h size v =
    let r = init-IsRegion h v in
    malloc_cases (λ x. IsHeap x.1) h size v (IsRegion-IsHeap r)
      λ p bs nz found.
        IsRegion-IsHeap (blocks-IsRegion bs r λ t. inr (fitted_region size p bs r found t))

released_region :
    {h : Heap} (ptr : ℕ) (bs : List Block)
    → IsRegion h
    → release ptr h.blocks ≡ some bs
    → (h.blocks ≡ []) ⊎ Tiles h.heap_start_addr h.blocks h.heap_end_addr
    → (bs ≡ []) ⊎ Tiles h.heap_start_addr bs h.heap_end_addr
unfolding release
released_region {h} ptr bs r found (inl empty) = absurd (ground arith)
released_region {h} ptr bs r found (inr t) =
    inr (release-Tiles h.heap_start_addr h.heap_end_addr ptr h.blocks bs t r.fits found)

-- The heap that `free` leaves.
abbrev pub freed_heap : Heap → ℕ → List Block → Heap
freed_heap h ptr bs =
    let u = heap_init_once h in
    with_blocks (record u { bytes = put_unlinked (gone ptr u.blocks) u.bytes }) bs

-- On an initialized heap.
pub free_ready :
    (h : Heap) (p : ℕ) (bs : List Block)
    → h.heap_initialized ≡ true
    → p ≢ 0
    → release p h.blocks ≡ some bs
    → free h p ≡ some (with_blocks (record h { bytes = put_unlinked (gone p h.blocks) h.bytes }) bs)
unfolding free
free_ready h p bs ready nz freed =
    let back : Heap → Option Heap = λ u. elim (release p u.blocks) [
      | none ↦ none
      | some xs ↦
          some (with_blocks (record u { bytes = put_unlinked (gone p u.blocks) u.bytes }) xs)
    ] in
    rw (ne→==-false p 0 nz) (ap back (init_id h ready) ∙ rw (freed, gone) refl)

pub bytes-IsRegion : {h : Heap} (f : ℕ → ℕ) → IsRegion h → IsRegion (record h { bytes = f })
bytes-IsRegion f r = record {
  ready = r.ready;
  low = r.low;
  aligned = r.aligned;
  fits = r.fits;
  tiles = r.tiles;
}

pub free-IsHeap : (h : Heap) (ptr : ℕ) (h' : Heap) → IsHeap h → free h ptr ≡ some h' → IsHeap h'
unfolding free
free-IsHeap h ptr h' v q = elim (Bool-cases (ptr == 0)) [
  | inl z ↦ subst IsHeap (ground arith) v
  | inr nz ↦ elim (Option-cases (release ptr (heap_init_once h).blocks)) [
    | inl e ↦ absurd (ground arith)
    | inr (bs, e) ↦
        let r = init-IsRegion h v in
        let back : free h ptr ≡ some (freed_heap h ptr bs) = rw (nz, e, free) refl in
        subst IsHeap (some-injective (sym back ∙ q))
          (IsRegion-IsHeap (blocks-IsRegion bs (bytes-IsRegion _ r) (released_region ptr bs r e)))
  ]
]
