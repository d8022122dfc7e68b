-- ===== src/Heap/Roundtrip.antt =====
-- `malloc` and then `free` of the same block: on a heap with no two free neighbours the blocks are
-- again what they were.
use tiny_rt.Base.{
  ℕ, ◌+◌, ◌^◌, ◌<◌, ◌≡◌, ◌≢◌, refl, true, false, ◌&&◌, some, List, [], ◌∷◌, ◌++◌, ◌==◌, leb, arith,
  inl, inr, Bool-cases, Option-cases,
}
use tiny_rt.Heap.{
  Block, header, split_block, blocks_are_adjacent, merge_with_next, mark_used, merge_prev, release,
  first_fit,
}
use tiny_rt.Heap.Tiles.{Tiles, Tiles-le, split_cases}
use tiny_rt.Heap.Frame.{first_fit-ge}

abbrev pub StartsUsed : List Block → Type 0
StartsUsed [] = Unit {0}
StartsUsed (b ∷ bs) = b.free ≡ false

-- No free block is followed by another.
abbrev pub IsCoalesced : List Block → Type 0
IsCoalesced [] = Unit {0}
IsCoalesced (b ∷ bs) = (b.free ≡ true → StartsUsed bs) × IsCoalesced bs

merge_id : (b : Block) (bs : List Block) → StartsUsed bs → merge_with_next b bs ≡ b ∷ bs
unfolding merge_with_next
merge_id b [] u = refl
merge_id b (next ∷ rest) u = ground arith

merge_prev_id :
    (ptr : ℕ) (b : Block) (xs bs : List Block)
    → (b.free ≡ true → StartsUsed bs)
    → merge_prev ptr b xs bs ≡ b ∷ bs
merge_prev_id ptr b [] bs u = refl
merge_prev_id ptr b (block ∷ xs) bs u =
    elim (Bool-cases (block.addr + header == ptr && (b.free && blocks_are_adjacent b block))) [
      | inl yes_merge ↦ rw yes_merge (merge_id b bs (u (ground arith)))
      | inr no_merge ↦ rw no_merge
    ]

-- A block that was just cut grows back.
release-split :
    (a e p size : ℕ) (b : Block) (bs : List Block)
    → Tiles a (b ∷ bs) e
    → e < 2 ^ 32
    → b.free ≡ true
    → StartsUsed bs
    → size + 24 < 2 ^ 32
    → p ≡ b.addr + header
    → release p (mark_used (split_block b size) ++ bs) ≡ some (b ∷ bs)
unfolding release
release-split a e p size b bs t lt fr u small at = elim (split_cases b size small) [
  | inl whole ↦ rw whole (ground (arith, merge_id b bs u))
  | inr (fits, two) ↦ let le = Tiles-le (a + header + b.size) bs e t.2 in rw two (ground arith)
]

-- The freed block lies behind `b`.
release-later :
    (p : ℕ) (b : Block) (bs' bs : List Block)
    → b.addr + header ≢ p
    → (b.free ≡ true → StartsUsed bs)
    → release p bs' ≡ some bs
    → release p (b ∷ bs') ≡ some (b ∷ bs)
unfolding release
release-later p b bs' bs ne u found = ground (arith, found, merge_prev_id p b bs' bs u)

pub release-first_fit :
    (a e size : ℕ) (bs bs' : List Block) (p : ℕ)
    → Tiles a bs e
    → e < 2 ^ 32
    → IsCoalesced bs
    → size + 24 < 2 ^ 32
    → first_fit size bs ≡ some (p, bs')
    → release p bs' ≡ some bs
unfolding first_fit
release-first_fit a e size [] bs' p t lt co small q = absurd (ground arith)
release-first_fit a e size (b ∷ bs) bs' p t lt co small q =
    elim (Bool-cases (b.free && leb size b.size)) [
      | inl hit ↦
          let at : p ≡ b.addr + header = ground arith in
          let eq : bs' ≡ mark_used (split_block b size) ++ bs = ground arith in
          let fr : b.free ≡ true = ground arith in
          rw eq (release-split a e p size b bs t lt fr (co.0 fr) small at)
      | inr miss ↦ elim (Option-cases (first_fit size bs)) [
        | inl no_block ↦ absurd (ground arith)
        | inr ((p1, bs1), found) ↦
            let at : p ≡ p1 = ground arith in
            let eq : bs' ≡ b ∷ bs1 = ground arith in
            let ih =
              release-first_fit (a + header + b.size) e size bs bs1 p1 t.2 lt co.1 small found in
            let later = first_fit-ge (a + header + b.size) e size bs bs1 p1 t.2 found in
            rw (eq, at) (release-later p1 b bs1 bs (omega arith) co.0 ih)
      ]
    ]
