-- ===== src/Heap/Run.antt =====
-- All calls of malloc.c: the invariant after any run of them, and what `malloc` and `free` promise.
use tiny_rt.Base.{
  ℕ, ◌-◌, ◌*◌, ◌/◌, ◌%◌, ◌^◌, ◌≤◌, ◌≡◌, subst, not, ◌&&◌, Option, none, some, List, [], ◌∷◌, ◌==◌,
  ltb, leb, if◌then◌else◌, arith, inl, inr, ◌⊎◌, Bool-cases, Option-cases,
}
use tiny_rt.Heap.{
  with_blocks, Heap, Block, align_size, malloc, free, calloc, realloc, find_block, shrink, move,
  copy_bytes, fill_zero,
}
use tiny_rt.Heap.Tiles.{Tiles}
use tiny_rt.Heap.Release.{shrink-Tiles}
use tiny_rt.Heap.Calls.{
  IsHeap, IsRegion, blocks-IsRegion, bytes-IsRegion, malloc-IsHeap, free-IsHeap, Call, mallocs,
  frees, callocs, reallocs, after, align_size-aligned,
}

bytes-IsHeap : {h : Heap} (f : ℕ → ℕ) → IsHeap h → IsHeap (record h { bytes = f })
bytes-IsHeap f v = record { boot = v.boot; region = λ e. bytes-IsRegion f (v.region e) }

calloc-IsHeap :
    (h : Heap) (count size p : ℕ) (h' : Heap)
    → IsHeap h
    → calloc h count size ≡ some (p, h')
    → IsHeap h'
unfolding calloc
calloc-IsHeap h count size p h' v q =
    let total = count * size % 2 ^ 32 in
    let m = malloc h total in
    let w = malloc-IsHeap h total v in
    elim (Bool-cases (not (count == 0) && ltb ((2 ^ 32 - 1) / count) size)) [
      | inl big ↦ subst IsHeap (ground arith) v
      | inr fine ↦ elim (Bool-cases (m.0 == 0)) [
        | inl z ↦ subst IsHeap (ground arith) w
        | inr nz ↦ elim (Option-cases (find_block m.0 m.1.blocks)) [
          | inl e ↦ absurd (ground arith)
          | inr (b, e) ↦ elim (Bool-cases (ltb b.size total)) [
            | inl over ↦ absurd (ground arith)
            | inr room ↦
                subst IsHeap (ground arith) (bytes-IsHeap (fill_zero m.1.bytes m.0 total) w)
          ]
        ]
      ]
    ]

move-IsHeap :
    (h : Heap) (ptr size old p : ℕ) (h' : Heap)
    → IsHeap h
    → move h ptr size old ≡ some (p, h')
    → IsHeap h'
unfolding move
move-IsHeap h ptr size old p h' v q =
    let m = malloc h size in
    let w = malloc-IsHeap h size v in
    let n = if ltb old size then old else size in
    let u = record m.1 { bytes = copy_bytes m.1.bytes m.0 ptr n } in
    elim (Bool-cases (m.0 == 0)) [
      | inl z ↦ subst IsHeap (ground arith) w
      | inr nz ↦ elim (Option-cases (free u ptr)) [
        | inl e ↦ absurd (ground arith)
        | inr (f, e) ↦ subst IsHeap (ground arith) (free-IsHeap u ptr f (bytes-IsHeap _ w) e)
      ]
    ]

shrunk_region :
    {h : Heap} (ptr size : ℕ) (b : Block)
    → IsRegion h
    → find_block ptr h.blocks ≡ some b
    → align_size size ≤ b.size
    → (h.blocks ≡ []) ⊎ Tiles h.heap_start_addr h.blocks h.heap_end_addr
    → (shrink ptr (align_size size) h.blocks ≡ [])
      ⊎ Tiles h.heap_start_addr (shrink ptr (align_size size) h.blocks) h.heap_end_addr
unfolding find_block
shrunk_region {h} ptr size b r found le (inl empty) = absurd (ground arith)
shrunk_region {h} ptr size b r found le (inr t) = inr (
    shrink-Tiles h.heap_start_addr h.heap_end_addr ptr (align_size size) h.blocks t r.low r.fits
      (align_size-aligned size) (λ c q. ground (arith, found, q, le)))

shrink-IsHeap :
    (h : Heap) (ptr size : ℕ) (b : Block)
    → IsHeap h
    → find_block ptr h.blocks ≡ some b
    → align_size size ≤ b.size
    → IsHeap (with_blocks h (shrink ptr (align_size size) h.blocks))
shrink-IsHeap h ptr size b v found le = record {
  boot = v.boot;
  region = λ e. let r = v.region e in blocks-IsRegion _ r (shrunk_region ptr size b r found le);
}

realloc-IsHeap :
    (h : Heap) (ptr size p : ℕ) (h' : Heap)
    → IsHeap h
    → realloc h ptr size ≡ some (p, h')
    → IsHeap h'
unfolding realloc
realloc-IsHeap h ptr size p h' v q = elim (Bool-cases (ptr == 0)) [
  | inl z ↦ subst IsHeap (ground arith) (malloc-IsHeap h size v)
  | inr nz ↦ elim (Bool-cases (size == 0)) [
    | inl zs ↦ elim (Option-cases (free h ptr)) [
      | inl e ↦ absurd (ground arith)
      | inr (u, e) ↦ subst IsHeap (ground arith) (free-IsHeap h ptr u v e)
    ]
    | inr nzs ↦ elim (Option-cases (find_block ptr h.blocks)) [
      | inl e ↦ absurd (ground arith)
      | inr (b, e) ↦ elim (Bool-cases (leb (align_size size) b.size)) [
        | inl small ↦ subst IsHeap (ground arith) (shrink-IsHeap h ptr size b v e (ground arith))
        | inr large ↦ move-IsHeap h ptr (align_size size) b.size p h' v (ground arith)
      ]
    ]
  ]
]

pub after-IsHeap : (h : Heap) (c : Call) (h' : Heap) → IsHeap h → after h c ≡ some h' → IsHeap h'
unfolding after
after-IsHeap h (mallocs size) h' v q = subst IsHeap (ground arith) (malloc-IsHeap h size v)
after-IsHeap h (frees ptr) h' v q = free-IsHeap h ptr h' v q
after-IsHeap h (callocs count size) h' v q = elim (Option-cases (calloc h count size)) [
  | inl e ↦ absurd (ground arith)
  | inr ((p, u), e) ↦ subst IsHeap (ground arith) (calloc-IsHeap h count size p u v e)
]
after-IsHeap h (reallocs ptr size) h' v q = elim (Option-cases (realloc h ptr size)) [
  | inl e ↦ absurd (ground arith)
  | inr ((p, u), e) ↦ subst IsHeap (ground arith) (realloc-IsHeap h ptr size p u v e)
]

-- The heap after a sequence of calls.
unfoldable pub run : Heap → List Call → Option Heap
run h [] = some h
run h (c ∷ cs) = elim (after h c) [ none ↦ none | some u ↦ run u cs ]
