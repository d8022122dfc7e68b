-- ===== src/Heap/Promise.antt =====
-- What a caller of `malloc` and `free` relies on.
use tiny_rt.Base.{
  ◌*◌, ◌/◌, not, ◌&&◌, ==-false→ne, ne→==-false, Option-cases, ℕ, ◌+◌, ◌%◌, ◌^◌, ◌≤◌, ◌<◌, ◌≡◌, ◌≢◌,
  refl, ap, true, false, some, List, arith, inl, inr, ◌⊎◌, Bool-cases, ◌==◌, ltb, ◌∷◌, ◌-◌, ◌∙◌,
}
use tiny_rt.Heap.{
  with_blocks, calloc, fill_zero, put_unlinked, put_headers, gone, Heap, Block, header, heap_align,
  align_size, heap_init_once, malloc, free, first_fit, split_block, find_block,
}
use tiny_rt.Heap.Tiles.{Tiles}
use tiny_rt.Heap.Headers.{payload-Off, put_headers-Off, put_unlinked-Off, gone-Off}
use tiny_rt.Heap.Frame.{
  find_block-aligned, find_block-bounds, first_fit-from, first_fit-gives, first_fit-keeps,
  first_fit-ge,
}
use tiny_rt.Heap.Roundtrip.{IsCoalesced, release-first_fit}
use tiny_rt.Heap.Calls.{IsHeap, IsRegion, init-IsRegion, malloc_cases, free_ready, fitted_region}

-- What `malloc` promises of its result, against the heap before and after it.
pub record IsGrant (h : Heap) (size : ℕ) (p : ℕ) (h' : Heap) : Type 0 where
  pub block : Block
  pub found : find_block p h'.blocks ≡ some block
  pub used : block.free ≡ false
  pub room : size ≤ block.size
  pub aligned : p % heap_align ≡ 0
  pub starts : h'.heap_start_addr ≤ p
  pub ends : p + block.size ≤ h'.heap_end_addr
  pub keeps :
      (q : ℕ) (c : Block)
      → find_block q h.blocks ≡ some c
      → c.free ≡ false
      → (q ≢ p) × (find_block q h'.blocks ≡ some c)

fit-IsGrant :
    {h : Heap} (size p : ℕ) (bs : List Block)
    → IsRegion h
    → size + 32 ≤ 2 ^ 32
    → first_fit (align_size size) h.blocks ≡ some (p, bs)
    → Tiles h.heap_start_addr h.blocks h.heap_end_addr
    → IsGrant h size p (with_blocks h bs)
fit-IsGrant {h} size p bs r small found t =
    let start = h.heap_start_addr in
    let end = h.heap_end_addr in
    let lt : align_size size + 24 < 2 ^ 32 = omega arith in
    let le : size ≤ align_size size = omega arith in
    let (c, here, used, room) =
      first_fit-gives start end (align_size size) h.blocks bs p t lt found in
    let (old, there, was_free) = first_fit-from start end (align_size size) h.blocks bs p t found in
    let t' = fitted_region {h = h} size p bs r found (inr t) in
    let (low, at, high, al) = find_block-bounds start end p bs c t' here in
    record {
      block = c;
      found = here;
      used = used;
      room = omega arith;
      aligned = find_block-aligned start end p bs c t' r.aligned here;
      starts = omega arith;
      ends = high;
      keeps = λ q d f u. (
        λ same. absurd (ground (arith, there, was_free, same, f, u)),
        first_fit-keeps start end q (align_size size) h.blocks bs p d t lt found f u,
      );
    }

region_of_fit :
    {h : Heap} (size p : ℕ) (bs : List Block)
    → IsRegion h
    → first_fit size h.blocks ≡ some (p, bs)
    → Tiles h.heap_start_addr h.blocks h.heap_end_addr
unfolding first_fit
region_of_fit {h} size p bs r found = elim r.tiles [ inl empty ↦ absurd (ground arith) | inr t ↦ t ]

-- For a size of at most 2^32 - 32, on a heap that satisfies `IsHeap`, `malloc` answers NULL or a
-- grant: an address that is a multiple of 8 and the payload of a block in use of at least that many
-- bytes, inside the heap's region; every other block that was in use still is, at another address,
-- unchanged.
pub malloc_gives :
    (h : Heap) (size : ℕ)
    → IsHeap h
    → size + 32 ≤ 2 ^ 32
    → ((malloc h size).0 ≡ 0) ⊎ IsGrant (heap_init_once h) size (malloc h size).0 (malloc h size).1
malloc_gives h size v small =
    let r = init-IsRegion h v in
    malloc_cases (λ x. (x.0 ≡ 0) ⊎ IsGrant (heap_init_once h) size x.0 x.1) h size (inl refl)
      (inl refl)
      λ p bs nz found.
        inr (fit-IsGrant size p bs r small found (region_of_fit (align_size size) p bs r found))

-- The heap that comes back from `free`: the same, down to the bytes of the blocks in use.
pub record IsBack (u h' : Heap) : Type 0 where
  pub same : h' ≡ record u { bytes = h'.bytes }
  pub payloads :
      (q x : ℕ) (c : Block)
      → find_block q u.blocks ≡ some c
      → c.free ≡ false
      → q ≤ x
      → x < q + c.size
      → h'.bytes x ≡ u.bytes x

free-fit :
    {h : Heap} (size p : ℕ) (bs : List Block)
    → IsRegion h
    → IsCoalesced h.blocks
    → size + 24 < 2 ^ 32
    → first_fit size h.blocks ≡ some (p, bs)
    → Tiles h.heap_start_addr h.blocks h.heap_end_addr
    → Tiles h.heap_start_addr bs h.heap_end_addr
    → (h' : Heap) × (free (with_blocks h bs) p ≡ some h') × IsBack h h'
free-fit {h} size p bs r co lt found t t' =
    let start = h.heap_start_addr in
    let end = h.heap_end_addr in
    let head = h.heap_blocks in
    let freed = release-first_fit start end size h.blocks bs p t r.fits co lt found in
    let low = first_fit-ge start end size h.blocks bs p t found in
    let taken = put_headers head head bs h.bytes in
    let f = put_unlinked (gone p bs) taken in
    (
      with_blocks (record h { bytes = f }) h.blocks,
      free_ready (with_blocks h bs) p h.blocks r.ready (omega arith) freed,
      record {
        same = refl;
        payloads = λ q x c here used above below.
            let there = first_fit-keeps start end q size h.blocks bs p c t lt found here used in
            let off' = payload-Off start end q x bs c t' there above below in
            put_headers-Off head head x h.blocks f
              (payload-Off start end q x h.blocks c t here above below)
            ∙ put_unlinked-Off x (gone p bs) taken (gone-Off x p bs off')
            ∙ put_headers-Off head head x bs h.bytes off';
      },
    )

-- For a size of at most 2^32 - 32, on a heap that satisfies `IsHeap` and where no free block follows
-- another, `malloc` answers NULL, or `free` of its result gives back the heap as it was once it had
-- been initialized: the same blocks, and the same bytes in those that were in use.
pub free-malloc :
    (h : Heap) (size : ℕ)
    → IsHeap h
    → size + 32 ≤ 2 ^ 32
    → IsCoalesced (heap_init_once h).blocks
    → ((malloc h size).0 ≡ 0)
      ⊎ ((h' : Heap) × (free (malloc h size).1 (malloc h size).0 ≡ some h')
          × IsBack (heap_init_once h) h')
free-malloc h size v small co =
    let r = init-IsRegion h v in
    let u = heap_init_once h in
    malloc_cases (λ x. (x.0 ≡ 0) ⊎ ((h' : Heap) × (free x.1 x.0 ≡ some h') × IsBack u h')) h size
      (inl refl) (inl refl)
      λ p bs nz found.
        let t = region_of_fit (align_size size) p bs r found in
        let t' = fitted_region {h = u} size p bs r found (inr t) in
        inr (free-fit {h = u} (align_size size) p bs r co (omega arith) found t t')

wrapped-first_fit :
    (b : Block) (bs : List Block)
    → b.free ≡ true
    → (c : Block) × (cs : List Block) × (first_fit 0 (b ∷ bs) ≡ some (b.addr + header, cs))
      × (find_block (b.addr + header) cs ≡ some c)
      × (c.size < 24)
unfolding first_fit find_block split_block
wrapped-first_fit b bs fr = elim (Bool-cases (ltb b.size 24)) [
  | inl whole ↦ (
    record b { free = false },
    record b { free = false } ∷ bs,
    ground arith,
    ground arith,
    ground arith,
  )
  | inr cuts ↦ (
    record b { free = false; size = 0 },
    record b { free = false; size = 0 }
        ∷ record { addr = b.addr + header; size = b.size - header; free = true }
        ∷ bs,
    ground arith,
    ground arith,
    ground arith,
  )
]

wrapped_size : (size : ℕ) → 2 ^ 32 < size + 8 → size < 2 ^ 32 → align_size size ≡ 0
wrapped_size size big lt = omega arith

-- For a size of more than 2^32 - 8 bytes, if the first block is free then `malloc` hands out its
-- payload, whatever its size is, as a block of less than 24 bytes: the size has wrapped to 0.
pub malloc_wraps :
    (h : Heap) (size : ℕ) (b : Block) (bs : List Block)
    → 2 ^ 32 < size + 8
    → size < 2 ^ 32
    → (heap_init_once h).blocks ≡ b ∷ bs
    → b.free ≡ true
    → ((malloc h size).0 ≡ b.addr + header)
      × (c : Block) × (find_block (b.addr + header) (malloc h size).1.blocks ≡ some c)
      × (c.size < 24)
unfolding malloc
malloc_wraps h size b bs big lt eq fr =
    let (c, cs, fit, found, small) = wrapped-first_fit b bs fr in
    let here : first_fit (align_size size) (heap_init_once h).blocks ≡ some (b.addr + header, cs) =
      ap (λ n. first_fit n (heap_init_once h).blocks) (wrapped_size size big lt)
      ∙ ap (first_fit 0) eq
      ∙ fit in
    let nz : (size == 0) ≡ false = ground arith in rw (nz, here, malloc) (refl, c, found, small)

-- A `malloc` of some bytes that answers NULL has only initialized the heap.
pub malloc_null :
    (h : Heap) (size : ℕ)
    → IsHeap h
    → size ≢ 0
    → (malloc h size).0 ≡ 0
    → (malloc h size).1 ≡ heap_init_once h
unfolding malloc
malloc_null h size v nz null =
    let u = heap_init_once h in
    let r = init-IsRegion h v in
    let z = ne→==-false size 0 nz in
    elim (Option-cases (first_fit (align_size size) u.blocks)) [
      | inl e ↦ rw (z, e) refl
      | inr ((p, bs), e) ↦
          let t = region_of_fit (align_size size) p bs r e in
          let low =
            first_fit-ge u.heap_start_addr u.heap_end_addr (align_size size) u.blocks bs p t e in
          let at : (malloc h size).0 ≡ p = rw (z, e) refl in absurd (omega (arith, at, null, low))
    ]

-- A `calloc` of at most 2^32 - 32 bytes never writes past its block: it answers NULL or a grant of
-- bytes that are all 0.
pub calloc_gives :
    (h : Heap) (count size : ℕ)
    → IsHeap h
    → count * size + 32 ≤ 2 ^ 32
    → (p : ℕ) × (h' : Heap) × (calloc h count size ≡ some (p, h'))
      × ((p ≡ 0)
          ⊎ (IsGrant (heap_init_once h) (count * size) p h'
              × ((x : ℕ) → p ≤ x → x < p + count * size → h'.bytes x ≡ 0)))
unfolding calloc
calloc_gives h count size v small =
    elim (Bool-cases (not (count == 0) && ltb ((2 ^ 32 - 1) / count) size)) [
      | inl big ↦ (0, h, rw big refl, inl refl)
      | inr fine ↦
          let total = count * size % 2 ^ 32 in
          let same : total ≡ count * size = omega arith in
          let m = malloc h total in
          elim (Bool-cases (m.0 == 0)) [
            | inl z ↦ (0, m.1, rw (fine, z) refl, inl refl)
            | inr nz ↦
                let g : IsGrant (heap_init_once h) total m.0 m.1 =
                  elim (malloc_gives h total v (omega arith)) [
                    | inl null ↦ absurd (==-false→ne m.0 0 nz null)
                    | inr g ↦ g
                  ] in
                let fits : ltb g.block.size total ≡ false = ground (arith, g.room) in
                let h' = record m.1 { bytes = fill_zero m.1.bytes m.0 total } in
                (
                  m.0,
                  h',
                  rw (fine, nz, g.found, fits, calloc) refl,
                  inr (
                    record {
                      block = g.block;
                      found = g.found;
                      used = g.used;
                      room = omega (arith, g.room);
                      aligned = g.aligned;
                      starts = g.starts;
                      ends = g.ends;
                      keeps = g.keeps;
                    },
                    λ x low high. ground (arith, low, high, same),
                  ),
                )
          ]
    ]
