-- ===== src/Heap/Release.antt =====
-- `free` and the shrinking branch of `realloc` keep the tiling.
use tiny_rt.Base.{
  ℕ, ◌+◌, ◌%◌, ◌^◌, ◌≤◌, ◌<◌, ◌≡◌, true, ◌&&◌, some, List, [], ◌∷◌, ◌==◌, arith, inl, inr,
  Bool-cases, Option-cases,
}
use tiny_rt.Heap.{
  Block, header, heap_align, blocks_are_adjacent, merge_with_next, merge_prev, release, shrink,
  find_block,
}
use tiny_rt.Heap.Tiles.{Tiles, Tiles-le, Tiles-at, split-Tiles}

merge-Tiles :
    (a e : ℕ) (b : Block) (bs : List Block)
    → Tiles a (b ∷ bs) e
    → e < 2 ^ 32
    → Tiles a (merge_with_next b bs) e
unfolding merge_with_next
merge-Tiles a e b [] t lt = t
merge-Tiles a e b (next ∷ rest) t lt =
    let le = Tiles-le (a + header + b.size + header + next.size) rest e t.2.2 in
    elim (Bool-cases (next.free && blocks_are_adjacent b next)) [
      | inl yes_merge ↦ rw yes_merge (t.0, omega arith, Tiles-at rest e t.2.2 (omega arith))
      | inr no_merge ↦ rw no_merge t
    ]

merge_prev-Tiles :
    (a e ptr : ℕ) (b : Block) (bs merged : List Block)
    → Tiles a (b ∷ merged) e
    → e < 2 ^ 32
    → Tiles a (merge_prev ptr b bs merged) e
merge_prev-Tiles a e ptr b [] merged t lt = t
merge_prev-Tiles a e ptr b (block ∷ bs) merged t lt =
    elim (Bool-cases (block.addr + header == ptr && (b.free && blocks_are_adjacent b block))) [
      | inl yes_merge ↦ rw yes_merge (merge-Tiles a e b merged t lt)
      | inr no_merge ↦ rw no_merge t
    ]

pub release-Tiles :
    (a e ptr : ℕ) (bs bs' : List Block)
    → Tiles a bs e
    → e < 2 ^ 32
    → release ptr bs ≡ some bs'
    → Tiles a bs' e
unfolding release
release-Tiles a e ptr [] bs' t lt q = absurd (ground arith)
release-Tiles a e ptr (b ∷ bs) bs' t lt q = elim (Bool-cases (b.addr + header == ptr)) [
  | inl hit ↦
      let eq : bs' ≡ merge_with_next (record b { free = true }) bs = ground arith in
      rw eq (merge-Tiles a e (record b { free = true }) bs t lt)
  | inr miss ↦ elim (Option-cases (release ptr bs)) [
    | inl no_block ↦ absurd (ground arith)
    | inr (merged, found) ↦
        let eq : bs' ≡ merge_prev ptr b bs merged = ground arith in
        rw eq (
          merge_prev-Tiles a e ptr b bs merged
            (t.0, t.1, release-Tiles (a + header + b.size) e ptr bs merged t.2 lt found) lt)
  ]
]

pub shrink-Tiles :
    (a e ptr size : ℕ) (bs : List Block)
    → Tiles a bs e
    → 8 ≤ a
    → e < 2 ^ 32
    → size % heap_align ≡ 0
    → ((b : Block) → find_block ptr bs ≡ some b → size ≤ b.size)
    → Tiles a (shrink ptr size bs) e
unfolding shrink find_block
shrink-Tiles a e ptr size [] t low lt al room = t
shrink-Tiles a e ptr size (b ∷ bs) t low lt al room = elim (Bool-cases (b.addr + header == ptr)) [
  | inl hit ↦ rw hit (split-Tiles {a = a} {e = e} size b bs t low lt (room b (ground arith)) al).0
  | inr miss ↦ rw miss (
    t.0,
    t.1,
    shrink-Tiles (a + header + b.size) e ptr size bs t.2 (omega arith) lt al
        (λ c found. room c (ground arith)),
  )
]
