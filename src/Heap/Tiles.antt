-- ===== src/Heap/Tiles.antt =====
-- The blocks tile the region: each starts where the one before it ends, aligned, and the last one
-- ends where the region does. Every operation of the allocator keeps that.
use tiny_rt.Base.{
  ℕ, ◌+◌, ◌-◌, ◌%◌, ◌^◌, ◌≤◌, ◌<◌, ◌≡◌, refl, ap, sym, subst, Bool, true, false, ◌&&◌, some, List,
  [], ◌∷◌, ◌++◌, ltb, leb, arith, inl, inr, ◌⊎◌, Bool-cases, Option-cases, All,
}
use tiny_rt.Heap.{Block, header, heap_align, split_block, mark_used, first_fit}

abbrev pub Tiles : ℕ → List Block → ℕ → Type 0
Tiles a [] e = a ≡ e
Tiles a (b ∷ bs) e = (b.addr ≡ a) × (b.size % heap_align ≡ 0) × Tiles (a + header + b.size) bs e

pub Tiles-le : (a : ℕ) (bs : List Block) (e : ℕ) → Tiles a bs e → a ≤ e
Tiles-le a [] e t = omega arith
Tiles-le a (b ∷ bs) e t = omega (arith, Tiles-le (a + header + b.size) bs e t.2)

pub Tiles-at : {a c : ℕ} (bs : List Block) (e : ℕ) → Tiles a bs e → c ≡ a → Tiles c bs e
Tiles-at bs e t q = subst (λ x. Tiles x bs e) (sym q) t

-- Where the blocks of a list end.
abbrev pub end_of : ℕ → List Block → ℕ
end_of a [] = a
end_of a (b ∷ bs) = end_of (a + header + b.size) bs

pub Tiles-append :
    (a e : ℕ) (xs ys : List Block)
    → Tiles a (xs ++ ys) e
    → Tiles a xs (end_of a xs) × Tiles (end_of a xs) ys e
Tiles-append a e [] ys t = (refl, t)
Tiles-append a e (x ∷ xs) ys t =
    let (front, back) = Tiles-append (a + header + x.size) e xs ys t.2 in ((t.0, t.1, front), back)

pub append-Tiles :
    (a m e : ℕ) (xs ys : List Block) → Tiles a xs m → Tiles m ys e → Tiles a (xs ++ ys) e
append-Tiles a m e [] ys front back = Tiles-at ys e back front
append-Tiles a m e (x ∷ xs) ys front back =
    (front.0, front.1, append-Tiles (a + header + x.size) m e xs ys front.2 back)

-- A block cut in two covers the same bytes, whatever becomes of its flag.
abbrev pub cut : Block → ℕ → Bool → List Block → List Block
cut b size flag bs =
    record b { size = size; free = flag }
    ∷ record { addr = b.addr + header + size; size = b.size - size - header; free = true }
    ∷ bs

cut-Tiles :
    (a e size : ℕ) (flag : Bool) (b : Block) (bs : List Block)
    → Tiles a (b ∷ bs) e
    → size + header ≤ b.size
    → size % heap_align ≡ 0
    → Tiles a (cut b size flag bs) e
cut-Tiles a e size flag b bs t le al =
    (t.0, al, (omega arith, omega arith, Tiles-at bs e t.2 (omega arith)))

pub split_cases :
    (b : Block) (size : ℕ)
    → size + 24 < 2 ^ 32
    → (split_block b size ≡ b ∷ [])
      ⊎ ((size + 24 ≤ b.size) × (split_block b size ≡ cut b size b.free []))
unfolding split_block
split_cases b size lt = elim (Bool-cases (ltb b.size ((size + header + heap_align) % 2 ^ 32))) [
  | inl small ↦ inl (rw small)
  | inr big ↦ inr (ground arith, rw big)
]

pub split-Tiles :
    {a e : ℕ} (size : ℕ) (b : Block) (bs : List Block)
    → Tiles a (b ∷ bs) e
    → 8 ≤ a
    → e < 2 ^ 32
    → size ≤ b.size
    → size % heap_align ≡ 0
    → Tiles a (split_block b size ++ bs) e × Tiles a (mark_used (split_block b size) ++ bs) e
split-Tiles {a} {e} size b bs t low lt le al =
    let room = Tiles-le (a + header + b.size) bs e t.2 in
    elim (split_cases b size (omega arith)) [
      | inl whole ↦ rw whole (t, t)
      | inr (fits, two) ↦ rw two (
        cut-Tiles a e size b.free b bs t (omega arith) al,
        cut-Tiles a e size false b bs t (omega arith) al,
      )
    ]

-- What the loop of `malloc` finds: the first free block that is large enough.
pub record IsFit (size : ℕ) (bs : List Block) (p : ℕ) (bs' : List Block) : Type 0 where
  pub before : List Block
  pub block : Block
  pub behind : List Block
  pub passed : All (λ b. (b.free ≡ true) → b.size < size) before
  pub is_free : block.free ≡ true
  pub fits : size ≤ block.size
  pub split : bs ≡ before ++ (block ∷ behind)
  pub payload : p ≡ block.addr + header
  pub result : bs' ≡ before ++ (mark_used (split_block block size) ++ behind)

pub first_fit-IsFit :
    (size : ℕ) (bs : List Block) (p : ℕ) (bs' : List Block)
    → first_fit size bs ≡ some (p, bs')
    → IsFit size bs p bs'
unfolding first_fit
first_fit-IsFit size [] p bs' q = absurd (ground arith)
first_fit-IsFit size (b ∷ bs) p bs' q = elim (Bool-cases (b.free && leb size b.size)) [
  | inl hit ↦ record {
    before = [];
    block = b;
    behind = bs;
    passed = tt;
    is_free = ground arith;
    fits = ground arith;
    split = refl;
    payload = ground arith;
    result = ground arith;
  }
  | inr miss ↦ elim (Option-cases (first_fit size bs)) [
    | inl no_block ↦ absurd (ground arith)
    | inr ((p1, bs1), found) ↦
        let f = first_fit-IsFit size bs p1 bs1 found in
        record {
          before = b ∷ f.before;
          block = f.block;
          behind = f.behind;
          passed = (λ free. ground arith, f.passed);
          is_free = f.is_free;
          fits = f.fits;
          split = ap (◌∷◌ b) f.split;
          payload = ground (arith, f.payload);
          result = ground (arith, f.result);
        }
  ]
]

pub first_fit-Tiles :
    (a e size : ℕ) (bs : List Block) (p : ℕ) (bs' : List Block)
    → Tiles a bs e
    → 8 ≤ a
    → e < 2 ^ 32
    → size % heap_align ≡ 0
    → first_fit size bs ≡ some (p, bs')
    → Tiles a bs' e
first_fit-Tiles a e size bs p bs' t low lt al q =
    let f = first_fit-IsFit size bs p bs' q in
    let (front, back) =
      Tiles-append a e f.before (f.block ∷ f.behind) (subst (λ l. Tiles a l e) f.split t) in
    let m = end_of a f.before in
    let le = Tiles-le a f.before m front in
    rw f.result (
      append-Tiles a m e f.before _ front
        (split-Tiles {a = m} {e = e} size f.block f.behind back (omega arith) lt f.fits al).1)
