-- ===== src/Heap/Headers.antt =====
-- The headers in memory: what is written to them stays out of the payloads of the blocks.
use tiny_rt.Base.{
  ℕ, ◌+◌, ◌≤◌, ◌<◌, ◌≡◌, refl, ◌∙◌, ◌⊎◌, inl, inr, true, ◌&&◌, Option, none, some, List, [], ◌∷◌,
  ◌++◌, ◌==◌, arith, Bool-cases, All, if_either,
}
use tiny_rt.Heap.{
  Block, header, put_header, put_headers, put_unlinked, node, next_node, gone, gone_next, gone_prev,
  release, find_block, merge_with_next, merge_prev, blocks_are_adjacent,
}
use tiny_rt.Heap.Tiles.{Tiles}
use tiny_rt.Heap.Frame.{find_block-bounds}

-- An address outside a header.
abbrev Off : ℕ → Block → Type 0
Off x b = (x < b.addr) ⊎ (b.addr + 16 ≤ x)

put_header-Off :
    (next prev : ℕ) (b : Block) (bytes : ℕ → ℕ) (x : ℕ)
    → Off x b
    → put_header next prev b bytes x ≡ bytes x
put_header-Off next prev b bytes x off = ground (arith, off)

pub put_headers-Off :
    (head prev x : ℕ) (bs : List Block) (bytes : ℕ → ℕ)
    → All (Off x) bs
    → put_headers head prev bs bytes x ≡ bytes x
put_headers-Off head prev x [] bytes off = refl
put_headers-Off head prev x (b ∷ bs) bytes (off, offs) =
    put_headers-Off head (node b) x bs (put_header (next_node head bs) prev b bytes) offs
    ∙ put_header-Off (next_node head bs) prev b bytes x off

pub put_unlinked-Off :
    (x : ℕ) (bs : List Block) (bytes : ℕ → ℕ) → All (Off x) bs → put_unlinked bs bytes x ≡ bytes x
put_unlinked-Off x [] bytes off = refl
put_unlinked-Off x (b ∷ bs) bytes (off, offs) =
    put_unlinked-Off x bs (put_header (node b) (node b) b bytes) offs
    ∙ put_header-Off (node b) (node b) b bytes x off

below-Off : (a e x : ℕ) (bs : List Block) → Tiles a bs e → x < a → All (Off x) bs
below-Off a e x [] t lt = tt
below-Off a e x (b ∷ bs) t lt =
    (inl (omega (arith, t.0)), below-Off (a + header + b.size) e x bs t.2 (omega arith))

-- The bytes of a block are outside all headers.
pub payload-Off :
    (a e q x : ℕ) (bs : List Block) (c : Block)
    → Tiles a bs e
    → find_block q bs ≡ some c
    → q ≤ x
    → x < q + c.size
    → All (Off x) bs
unfolding find_block
payload-Off a e q x [] c t f low high = tt
payload-Off a e q x (b ∷ bs) c t f low high = elim (Bool-cases (b.addr + header == q)) [
  | inl hit ↦ (inr (ground arith), below-Off (a + header + b.size) e x bs t.2 (ground arith))
  | inr miss ↦
      let f1 : find_block q bs ≡ some c = ground arith in
      let (far, _, _, _) = find_block-bounds (a + header + b.size) e q bs c t.2 f1 in
      (inr (omega (arith, t.0)), payload-Off (a + header + b.size) e q x bs c t.2 f1 low high)
]

All-append : (x : ℕ) (xs ys : List Block) → All (Off x) xs → All (Off x) ys → All (Off x) (xs ++ ys)
All-append x [] ys a b = b
All-append x (z ∷ xs) ys (h, a) b = (h, All-append x xs ys a b)

gone_next-Off :
    (x : ℕ) (b : Block) (bs : List Block) → All (Off x) bs → All (Off x) (gone_next b bs)
gone_next-Off x b [] off = tt
gone_next-Off x b (next ∷ rest) off =
    if_either (All (Off x)) (next.free && blocks_are_adjacent b next) (off.0, tt) tt

merge_with_next-Off :
    (x : ℕ) (b : Block) (bs : List Block)
    → Off x b
    → All (Off x) bs
    → All (Off x) (merge_with_next b bs)
unfolding merge_with_next
merge_with_next-Off x b [] here off = (here, tt)
merge_with_next-Off x b (next ∷ rest) here off =
    if_either (All (Off x)) (next.free && blocks_are_adjacent b next) (here, off.1) (here, off)

merge_prev-Off :
    (x ptr : ℕ) (b : Block) (bs merged : List Block)
    → Off x b
    → All (Off x) merged
    → All (Off x) (merge_prev ptr b bs merged)
merge_prev-Off x ptr b [] merged here off = (here, off)
merge_prev-Off x ptr b (block ∷ bs) merged here off =
    if_either (All (Off x)) (block.addr + header == ptr && (b.free && blocks_are_adjacent b block))
      (merge_with_next-Off x b merged here off) (here, off)

-- What holds of the list that `release` gives, if any.
abbrev Leaves : ℕ → Option (List Block) → Type 0
Leaves x none = Unit
Leaves x (some bs) = All (Off x) bs

release-Off : (x ptr : ℕ) (bs : List Block) → All (Off x) bs → Leaves x (release ptr bs)
unfolding release
release-Off x ptr [] off = tt
release-Off x ptr (b ∷ bs) (here, off) =
    if_either (Leaves x) (b.addr + header == ptr)
      (merge_with_next-Off x (record b { free = true }) bs here off)
      (rest (release ptr bs) (release-Off x ptr bs off))
  where
    rest :
        (o : Option (List Block))
        → Leaves x o
        → Leaves x (elim o [ none ↦ none | some merged ↦ some (merge_prev ptr b bs merged) ])
    rest none l = tt
    rest (some merged) l = merge_prev-Off x ptr b bs merged here l

gone_prev-Off :
    (x ptr : ℕ) (b : Block) (bs : List Block) (o : Option (List Block))
    → Leaves x o
    → All (Off x) (gone_prev ptr b bs o)
gone_prev-Off x ptr b [] o l = tt
gone_prev-Off x ptr b (block ∷ bs) none l = tt
gone_prev-Off x ptr b (block ∷ bs) (some merged) l =
    if_either (All (Off x)) (block.addr + header == ptr && (b.free && blocks_are_adjacent b block))
      (gone_next-Off x b merged l) tt

-- The headers that `free` takes off the list are among those that were there.
pub gone-Off : (x ptr : ℕ) (bs : List Block) → All (Off x) bs → All (Off x) (gone ptr bs)
unfolding gone
gone-Off x ptr [] off = tt
gone-Off x ptr (b ∷ bs) (here, off) =
    if_either (All (Off x)) (b.addr + header == ptr)
      (gone_next-Off x (record b { free = true }) bs off)
      (All-append x (gone ptr bs) (gone_prev ptr b bs (release ptr bs)) (gone-Off x ptr bs off)
        (gone_prev-Off x ptr b bs (release ptr bs) (release-Off x ptr bs off)))
