-- ===== src/Heap.antt =====
-- src/kernel/malloc.c: a first-fit heap over the region between two linker symbols. The blocks stand
-- in the order of the list of headers; a header is told by its address and takes 16 bytes, which the
-- payload follows. Addresses and sizes are 32-bit words. A critical section is one step.
pub mod Tiles
pub mod Release
pub mod Frame
pub mod Headers
pub mod Calls
pub mod Run
pub mod Roundtrip
pub mod Promise
pub mod Tests
use tiny_rt.Base.{
  ℕ, zero, suc, ◌+◌, ◌-◌, ◌*◌, ◌/◌, ◌%◌, ◌^◌, Bool, true, false, not, ◌&&◌, Option, none, some,
  List, [], ◌∷◌, ◌++◌, ◌==◌, ltb, leb, if◌then◌else◌,
}

-- `heap_block_t`.
pub record Block : Type 0 where
  pub addr : ℕ
  pub size : ℕ
  pub free : Bool

-- The state of the allocator, the address of its list head, the two linker symbols and the memory.
pub record Heap : Type 0 where
  pub heap_blocks : ℕ
  pub heap_start : ℕ
  pub heap_end : ℕ
  pub heap_initialized : Bool
  pub heap_start_addr : ℕ
  pub heap_end_addr : ℕ
  pub blocks : List Block
  pub bytes : ℕ → ℕ

-- The bytes of a header: the size, the flag, and the neighbours of its node, words with the low byte
-- first.
abbrev pub word_byte : ℕ → ℕ → ℕ
word_byte word i = word / 256 ^ i % 256

abbrev pub header_byte : ℕ → ℕ → Block → ℕ → ℕ
header_byte next prev b i =
    if ltb i 4
    then word_byte b.size i
    else if ltb i 8
    then word_byte (if b.free then 1 else 0) (i - 4)
    else if ltb i 12
    then word_byte next (i - 8)
    else word_byte prev (i - 12)

abbrev pub put_header : ℕ → ℕ → Block → (ℕ → ℕ) → ℕ → ℕ
put_header next prev b bytes a =
    if leb b.addr a && ltb a (b.addr + 16) then header_byte next prev b (a - b.addr) else bytes a

-- The address of the member `node`.
abbrev pub node : Block → ℕ
node b = b.addr + 8

abbrev pub next_node : ℕ → List Block → ℕ
next_node head [] = head
next_node head (b ∷ bs) = node b

-- The headers of a list in memory, behind the node `prev`.
abbrev pub put_headers : ℕ → ℕ → List Block → (ℕ → ℕ) → ℕ → ℕ
put_headers head prev [] bytes = bytes
put_headers head prev (b ∷ bs) bytes =
    put_headers head (node b) bs (put_header (next_node head bs) prev b bytes)

-- `list_del` on blocks that were free: each node points to itself.
abbrev pub put_unlinked : List Block → (ℕ → ℕ) → ℕ → ℕ
put_unlinked [] bytes = bytes
put_unlinked (b ∷ bs) bytes = put_unlinked bs (put_header (node b) (node b) b bytes)

-- The list and its headers in memory: the 16 bytes of a block that has been split off, inside what was
-- payload, and the headers that have changed. Any other header is written as it was.
abbrev pub with_blocks : Heap → List Block → Heap
with_blocks h bs = record h {
  blocks = bs;
  bytes = put_headers h.heap_blocks h.heap_blocks bs h.bytes;
}

-- HEAP_ALIGN, and the size of a header.
abbrev pub heap_align : ℕ
heap_align = 8

abbrev pub header : ℕ
header = 16

-- `x & ~(HEAP_ALIGN - 1)` drops the low three bits.
abbrev pub align_down : ℕ → ℕ
align_down value = value / heap_align * heap_align

abbrev pub align_up : ℕ → ℕ
align_up value = (value + heap_align - 1) % 2 ^ 32 / heap_align * heap_align

abbrev pub align_size : ℕ → ℕ
align_size size = (size + heap_align - 1) % 2 ^ 32 / heap_align * heap_align

unfoldable pub heap_init_once : Heap → Heap
heap_init_once h =
    if h.heap_initialized
    then h
    else let start = align_up h.heap_start in
      let end = align_down h.heap_end in
      with_blocks
        (record h { heap_start_addr = start; heap_end_addr = end; heap_initialized = true })
        (if leb end ((start + header) % 2 ^ 32)
          then []
          else record { addr = start; size = end - start - header; free = true } ∷ [])

-- The block of `size` bytes, and the free block that is left, if it is worth a header. The new header
-- comes into the memory by `with_blocks`, which every caller ends with.
unfoldable pub split_block : Block → ℕ → List Block
split_block b size =
    if ltb b.size ((size + header + heap_align) % 2 ^ 32)
    then b ∷ []
    else record b { size = size }
      ∷ record { addr = b.addr + header + size; size = b.size - size - header; free = true }
      ∷ []

abbrev pub blocks_are_adjacent : Block → Block → Bool
blocks_are_adjacent left right = (left.addr + header + left.size) % 2 ^ 32 == right.addr

-- A block with those that follow it in the list.
unfoldable pub merge_with_next : Block → List Block → List Block
merge_with_next b [] = b ∷ []
merge_with_next b (next ∷ rest) =
    if next.free && blocks_are_adjacent b next
    then record b { size = (b.size + (header + next.size)) % 2 ^ 32 } ∷ rest
    else b ∷ next ∷ rest

abbrev pub mark_used : List Block → List Block
mark_used [] = []
mark_used (b ∷ bs) = record b { free = false } ∷ bs

-- The loop of `malloc` over the blocks, for an aligned size: the payload's address and the blocks.
unfoldable pub first_fit : ℕ → List Block → Option (ℕ × List Block)
first_fit size [] = none
first_fit size (b ∷ bs) =
    let rest = first_fit size bs in
    if b.free && leb size b.size
    then some (b.addr + header, mark_used (split_block b size) ++ bs)
    else elim rest [ none ↦ none | some (p, bs') ↦ some (p, b ∷ bs') ]

-- The result 0 is NULL.
unfoldable pub malloc : Heap → ℕ → ℕ × Heap
unfolding heap_init_once first_fit split_block
malloc h size =
    if size == 0
    then (0, h)
    else let u = heap_init_once h in
      elim (first_fit (align_size size) u.blocks) [
        | none ↦ (0, u)
        | some (p, bs) ↦ (p, with_blocks u bs)
      ]

-- The end of `free`: the block before the freed one, in front of what `merge_with_next` has left of
-- the freed block and its followers.
abbrev pub merge_prev : ℕ → Block → List Block → List Block → List Block
merge_prev ptr prev [] merged = prev ∷ merged
merge_prev ptr prev (block ∷ bs) merged =
    if block.addr + header == ptr && (prev.free && blocks_are_adjacent prev block)
    then merge_with_next prev merged
    else prev ∷ merged

-- `free` on the list. `none` stands for a pointer that no block of the list belongs to, where the
-- code writes to memory that is no header.
unfoldable pub release : ℕ → List Block → Option (List Block)
unfolding merge_with_next
release ptr [] = none
release ptr (b ∷ bs) =
    let rest = release ptr bs in
    if b.addr + header == ptr
    then some (merge_with_next (record b { free = true }) bs)
    else elim rest [ none ↦ none | some merged ↦ some (merge_prev ptr b bs merged) ]

-- The blocks whose headers `free` takes off the list, as they were then.
abbrev pub gone_next : Block → List Block → List Block
gone_next b [] = []
gone_next b (next ∷ rest) = if next.free && blocks_are_adjacent b next then next ∷ [] else []

abbrev pub gone_prev : ℕ → Block → List Block → Option (List Block) → List Block
gone_prev ptr prev [] merged = []
gone_prev ptr prev (block ∷ bs) none = []
gone_prev ptr prev (block ∷ bs) (some merged) =
    if block.addr + header == ptr && (prev.free && blocks_are_adjacent prev block)
    then gone_next prev merged
    else []

unfoldable pub gone : ℕ → List Block → List Block
unfolding release
gone ptr [] = []
gone ptr (b ∷ bs) =
    let rest = gone ptr bs in
    if b.addr + header == ptr
    then gone_next (record b { free = true }) bs
    else rest ++ gone_prev ptr b bs (release ptr bs)

-- `none` as in `release`.
unfoldable pub free : Heap → ℕ → Option Heap
unfolding heap_init_once release gone
free h ptr =
    if ptr == 0
    then some h
    else let u = heap_init_once h in
      elim (release ptr u.blocks) [
        | none ↦ none
        | some bs ↦
            some (with_blocks (record u { bytes = put_unlinked (gone ptr u.blocks) u.bytes }) bs)
      ]

-- Bytes from `p` on: the loops of `calloc` and `realloc`.
abbrev pub fill_zero : (ℕ → ℕ) → ℕ → ℕ → ℕ → ℕ
fill_zero bytes p n a = if leb p a && ltb a (p + n) then 0 else bytes a

abbrev pub copy_bytes : (ℕ → ℕ) → ℕ → ℕ → ℕ → ℕ → ℕ
copy_bytes bytes dst src n a =
    if leb dst a && ltb a (dst + n) then bytes (src + (a - dst)) else bytes a

unfoldable pub find_block : ℕ → List Block → Option Block
find_block ptr [] = none
find_block ptr (b ∷ bs) = if b.addr + header == ptr then some b else find_block ptr bs

-- `none` where the loop writes past the block, over the headers behind it: `total` has wrapped in
-- `malloc`.
unfoldable pub calloc : Heap → ℕ → ℕ → Option (ℕ × Heap)
unfolding malloc find_block
calloc h count size =
    if not (count == 0) && ltb ((2 ^ 32 - 1) / count) size
    then some (0, h)
    else let total = count * size % 2 ^ 32 in
      let (p, u) = malloc h total in
      if p == 0 then some (0, u) else elim (find_block p u.blocks) [
        | none ↦ none
        | some b ↦
            if ltb b.size total
            then none
            else some (p, record u { bytes = fill_zero u.bytes p total })
      ]

-- The block of `ptr` made `size` bytes long in place.
unfoldable pub shrink : ℕ → ℕ → List Block → List Block
unfolding split_block
shrink ptr size [] = []
shrink ptr size (b ∷ bs) =
    if b.addr + header == ptr then split_block b size ++ bs else b ∷ shrink ptr size bs

-- The branch of `realloc` that moves the payload out of a block of `old` bytes.
unfoldable pub move : Heap → ℕ → ℕ → ℕ → Option (ℕ × Heap)
unfolding malloc free
move h ptr size old =
    let (p, u) = malloc h size in
    if p == 0
    then some (0, u)
    else let n = if ltb old size then old else size in
      elim (free (record u { bytes = copy_bytes u.bytes p ptr n }) ptr) [
        | none ↦ none
        | some w ↦ some (p, w)
      ]

unfoldable pub realloc : Heap → ℕ → ℕ → Option (ℕ × Heap)
unfolding malloc free find_block shrink move
realloc h ptr size =
    if ptr == 0
    then some (malloc h size)
    else if size == 0
    then elim (free h ptr) [ none ↦ none | some u ↦ some (0, u) ]
    else elim (find_block ptr h.blocks) [
      | none ↦ none
      | some b ↦
          if leb (align_size size) b.size
          then some (ptr, with_blocks h (shrink ptr (align_size size) h.blocks))
          else move h ptr (align_size size) b.size
    ]

unfoldable pub heap_total_size : Heap → ℕ × Heap
unfolding heap_init_once
heap_total_size h =
    let u = heap_init_once h in
    (
      if ltb u.heap_start_addr u.heap_end_addr
          then (u.heap_end_addr - u.heap_start_addr + 2 ^ 32 - header) % 2 ^ 32
          else 0,
      u,
    )

-- The loop of `heap_free_size`.
unfoldable pub sum_free : List Block → ℕ → ℕ
sum_free [] total = total
sum_free (b ∷ bs) total = sum_free bs (if b.free then (total + b.size) % 2 ^ 32 else total)

unfoldable pub heap_free_size : Heap → ℕ × Heap
unfolding heap_init_once sum_free
heap_free_size h = let u = heap_init_once h in (sum_free u.blocks 0, u)
