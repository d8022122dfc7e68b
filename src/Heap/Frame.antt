-- ===== src/Heap/Frame.antt =====
-- What `malloc` hands out, and that it leaves the blocks in use alone.
use tiny_rt.Base.{
  ℕ, ◌+◌, ◌%◌, ◌^◌, ◌≤◌, ◌<◌, ◌≡◌, ◌≢◌, refl, ◌∙◌, ap, sym, subst, true, false, ◌&&◌, Option, none,
  some, List, [], ◌∷◌, ◌++◌, ◌==◌, arith, inl, inr, Bool-cases, Option-cases, ==→eq,
}
use tiny_rt.Heap.{
  Block, header, heap_align, split_block, blocks_are_adjacent, merge_with_next, mark_used,
  merge_prev, release, find_block, first_fit,
}
use tiny_rt.Heap.Tiles.{Tiles, Tiles-le, Tiles-append, end_of, first_fit-IsFit, split_cases}

abbrev pub or_else : Option Block → Option Block → Option Block
or_else none o = o
or_else (some b) o = some b

find_block-append :
    (q : ℕ) (xs ys : List Block)
    → find_block q (xs ++ ys) ≡ or_else (find_block q xs) (find_block q ys)
unfolding find_block
find_block-append q [] ys = refl
find_block-append q (x ∷ xs) ys = ground (arith, find_block-append q xs ys)

-- Where a block that is found lies.
pub find_block-bounds :
    (a e q : ℕ) (bs : List Block) (b : Block)
    → Tiles a bs e
    → find_block q bs ≡ some b
    → (a + header ≤ q) × (q ≡ b.addr + header) × (q + b.size ≤ e) × (b.size % heap_align ≡ 0)
unfolding find_block
find_block-bounds a e q [] b t f = absurd (ground arith)
find_block-bounds a e q (x ∷ xs) b t f = elim (Bool-cases (x.addr + header == q)) [
  | inl hit ↦
      let eq : x ≡ b = ground arith in
      let le = Tiles-le (a + header + x.size) xs e t.2 in
      subst
        (λ c.
          (a + header ≤ q) × (q ≡ c.addr + header) × (q + c.size ≤ e) × (c.size % heap_align ≡ 0))
        eq (let at = ==→eq (x.addr + header) q hit in (omega arith, omega arith, omega arith, t.1))
  | inr miss ↦
      let (f0, f1, f2, f3) = find_block-bounds (a + header + x.size) e q xs b t.2 (ground arith) in
      (omega arith, f1, f2, f3)
]

-- A used block is none of the two that a free block is cut into.
find-split :
    (m e q size : ℕ) (b c : Block) (bs : List Block)
    → Tiles m (b ∷ bs) e
    → b.free ≡ true
    → size ≤ b.size
    → size + 24 < 2 ^ 32
    → find_block q (b ∷ bs) ≡ some c
    → c.free ≡ false
    → find_block q (mark_used (split_block b size) ++ bs) ≡ some c
unfolding find_block
find-split m e q size b c bs t fr le lt f used = elim (Bool-cases (b.addr + header == q)) [
  | inl hit ↦ absurd (ground arith)
  | inr miss ↦
      let rest : find_block q bs ≡ some c = ground arith in
      let (low, _, _, _) = find_block-bounds (m + header + b.size) e q bs c t.2 rest in
      elim (split_cases b size lt) [
        | inl whole ↦ rw whole (ground arith)
        | inr (fits, two) ↦ rw two (ground arith)
      ]
]

pub first_fit-keeps :
    (a e q size : ℕ) (bs bs' : List Block) (p : ℕ) (c : Block)
    → Tiles a bs e
    → size + 24 < 2 ^ 32
    → first_fit size bs ≡ some (p, bs')
    → find_block q bs ≡ some c
    → c.free ≡ false
    → find_block q bs' ≡ some c
first_fit-keeps a e q size bs bs' p c t lt g f used =
    let w = first_fit-IsFit size bs p bs' g in
    let (front, back) =
      Tiles-append a e w.before (w.block ∷ w.behind) (subst (λ l. Tiles a l e) w.split t) in
    let old : or_else (find_block q w.before) (find_block q (w.block ∷ w.behind)) ≡ some c =
      sym (find_block-append q w.before (w.block ∷ w.behind))
      ∙ ap (find_block q) (sym w.split)
      ∙ f in
    let split =
      find-split (end_of a w.before) e q size w.block c w.behind back w.is_free w.fits lt in
    rw (w.result, find_block-append)
      (elim (Option-cases (find_block q w.before)) [
        | inl no_front ↦ ground (arith, split)
        | inr (d, found) ↦ ground arith
      ])

first_of_split :
    (p size : ℕ) (b : Block) (bs : List Block)
    → p ≡ b.addr + header
    → size ≤ b.size
    → size + 24 < 2 ^ 32
    → (c : Block) × (find_block p (mark_used (split_block b size) ++ bs) ≡ some c)
      × (c.free ≡ false)
      × (size ≤ c.size)
unfolding find_block
first_of_split p size b bs at le lt = elim (split_cases b size lt) [
  | inl whole ↦ rw whole (record b { free = false }, ground arith, refl, le)
  | inr (fits, two) ↦
      rw two (record b { size = size; free = false }, ground arith, refl, omega arith)
]

-- The block that `malloc` hands out is in use and large enough.
pub first_fit-gives :
    (a e size : ℕ) (bs bs' : List Block) (p : ℕ)
    → Tiles a bs e
    → size + 24 < 2 ^ 32
    → first_fit size bs ≡ some (p, bs')
    → (c : Block) × (find_block p bs' ≡ some c) × (c.free ≡ false) × (size ≤ c.size)
first_fit-gives a e size bs bs' p t lt g =
    let w = first_fit-IsFit size bs p bs' g in
    let m = end_of a w.before in
    let (front, back) =
      Tiles-append a e w.before (w.block ∷ w.behind) (subst (λ l. Tiles a l e) w.split t) in
    let not_before : find_block p w.before ≡ none = elim (Option-cases (find_block p w.before)) [
      | inl no_front ↦ no_front
      | inr (d, found) ↦
          absurd (omega (arith, find_block-bounds a m p w.before d front found, w.payload))
    ] in
    let (c, here, used, room) = first_of_split p size w.block w.behind w.payload w.fits lt in
    (c, rw (w.result, find_block-append, not_before) here, used, room)

-- It was a free block before.
pub first_fit-from :
    (a e size : ℕ) (bs bs' : List Block) (p : ℕ)
    → Tiles a bs e
    → first_fit size bs ≡ some (p, bs')
    → (c : Block) × (find_block p bs ≡ some c) × (c.free ≡ true)
unfolding find_block
first_fit-from a e size bs bs' p t g =
    let w = first_fit-IsFit size bs p bs' g in
    let m = end_of a w.before in
    let (front, back) =
      Tiles-append a e w.before (w.block ∷ w.behind) (subst (λ l. Tiles a l e) w.split t) in
    let not_before : find_block p w.before ≡ none = elim (Option-cases (find_block p w.before)) [
      | inl no_front ↦ no_front
      | inr (d, found) ↦
          absurd (omega (arith, find_block-bounds a m p w.before d front found, w.payload))
    ] in
    let here : find_block p (w.block ∷ w.behind) ≡ some w.block = ground (arith, w.payload) in
    (w.block, rw (w.split, find_block-append, not_before) here, w.is_free)

pub find_block-aligned :
    (a e q : ℕ) (bs : List Block) (b : Block)
    → Tiles a bs e
    → a % heap_align ≡ 0
    → find_block q bs ≡ some b
    → q % heap_align ≡ 0
unfolding find_block
find_block-aligned a e q [] b t al f = absurd (ground arith)
find_block-aligned a e q (x ∷ xs) b t al f = elim (Bool-cases (x.addr + header == q)) [
  | inl hit ↦ let at = ==→eq (x.addr + header) q hit in omega arith
  | inr miss ↦ find_block-aligned (a + header + x.size) e q xs b t.2 (omega arith) (ground arith)
]

pub first_fit-ge :
    (a e size : ℕ) (bs bs' : List Block) (p : ℕ)
    → Tiles a bs e
    → first_fit size bs ≡ some (p, bs')
    → a + header ≤ p
first_fit-ge a e size bs bs' p t g =
    let w = first_fit-IsFit size bs p bs' g in
    let (front, back) =
      Tiles-append a e w.before (w.block ∷ w.behind) (subst (λ l. Tiles a l e) w.split t) in
    omega (arith, Tiles-le a w.before (end_of a w.before) front, w.payload)

-- `free` leaves the other blocks in use alone.
merge-keeps :
    (q : ℕ) (b c : Block) (bs : List Block)
    → find_block q (b ∷ bs) ≡ some c
    → c.free ≡ false
    → b.free ≡ true
    → find_block q (merge_with_next b bs) ≡ some c
unfolding find_block merge_with_next
merge-keeps q b c [] f used fr = ground arith
merge-keeps q b c (next ∷ rest) f used fr = ground arith

merge_prev-keeps :
    (q ptr : ℕ) (b c : Block) (bs merged : List Block)
    → find_block q (b ∷ merged) ≡ some c
    → c.free ≡ false
    → find_block q (merge_prev ptr b bs merged) ≡ some c
merge_prev-keeps q ptr b c [] merged f used = f
merge_prev-keeps q ptr b c (block ∷ bs) merged f used =
    elim (Bool-cases (block.addr + header == ptr && (b.free && blocks_are_adjacent b block))) [
      | inl yes_merge ↦ rw yes_merge (merge-keeps q b c merged f used (ground arith))
      | inr no_merge ↦ rw no_merge f
    ]

pub release-keeps :
    (ptr q : ℕ) (bs bs' : List Block) (c : Block)
    → release ptr bs ≡ some bs'
    → q ≢ ptr
    → find_block q bs ≡ some c
    → c.free ≡ false
    → find_block q bs' ≡ some c
unfolding release find_block
release-keeps ptr q [] bs' c r ne f used = absurd (ground arith)
release-keeps ptr q (b ∷ bs) bs' c r ne f used = elim (Bool-cases (b.addr + header == ptr)) [
  | inl hit ↦
      let eq : bs' ≡ merge_with_next (record b { free = true }) bs = ground arith in
      rw eq (merge-keeps q (record b { free = true }) c bs (ground arith) used refl)
  | inr miss ↦ elim (Option-cases (release ptr bs)) [
    | inl no_block ↦ absurd (ground arith)
    | inr (merged, found) ↦
        let eq : bs' ≡ merge_prev ptr b bs merged = ground arith in
        rw eq (
          merge_prev-keeps q ptr b c bs merged
            (ground (arith, release-keeps ptr q bs merged c found ne)) used)
  ]
]

-- `free` accepts the payload of any block.
pub release_total :
    (ptr : ℕ) (bs : List Block) (b : Block)
    → find_block ptr bs ≡ some b
    → (bs' : List Block) × (release ptr bs ≡ some bs')
unfolding release find_block
release_total ptr [] b f = absurd (ground arith)
release_total ptr (x ∷ xs) b f = elim (Bool-cases (x.addr + header == ptr)) [
  | inl hit ↦ (merge_with_next (record x { free = true }) xs, ground arith)
  | inr miss ↦
      let (merged, found) = release_total ptr xs b (ground arith) in
      (merge_prev ptr x xs merged, ground (arith, found))
]
