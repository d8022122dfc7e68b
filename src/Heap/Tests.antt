-- ===== src/Heap/Tests.antt =====
-- Runs of malloc.c on a small region.
use tiny_rt.Base.{
  ◌+◌, ◌-◌, ◌^◌, ◌<◌, ◌≡◌, refl, true, false, Option, some, List, [], ◌∷◌, arith, ◌⊎◌,
}
use tiny_rt.Heap.{
  Heap, Block, header, heap_init_once, malloc, free, first_fit, find_block, with_blocks,
  put_unlinked,
}
use tiny_rt.Heap.Calls.{IsHeap, Call, mallocs, frees, callocs, reallocs}
use tiny_rt.Heap.Run.{run}
use tiny_rt.Heap.Promise.{IsBack, IsGrant, malloc_gives, free-malloc, malloc_wraps}

abbrev pub cold : Heap
cold = record {
  heap_blocks = 900;
  heap_start = 1004;
  heap_end = 1300;
  heap_initialized = false;
  heap_start_addr = 0;
  heap_end_addr = 0;
  blocks = [];
  bytes = λ a. 0;
}

pub cold-IsHeap : IsHeap cold
cold-IsHeap = record { boot = λ e. ground arith; region = λ e. absurd (ground arith) }

-- The region is 1008 to 1296.
malloc_runs : (malloc cold 20).0 ≡ 1024
unfolding malloc heap_init_once first_fit
malloc_runs = refl

abbrev script : List Call
script = mallocs 20 ∷ callocs 3 10 ∷ reallocs 1024 40 ∷ frees 1064 ∷ frees 0 ∷ []

script_runs : Option Heap
script_runs = run cold script

-- After two allocations, the second of which is freed: its header and that of the rest stay in the
-- memory of the free block, and their nodes point to themselves.
abbrev final : Heap
final =
    let first : Block = record { addr = 1008; size = 24; free = false } in
    let second : Block = record { addr = 1048; size = 32; free = false } in
    let rest : Block = record { addr = 1096; size = 184; free = true } in
    let left : List Block = first ∷ record { addr = 1048; size = 232; free = true } ∷ [] in
    let u = heap_init_once cold in
    let a = with_blocks u (first ∷ record { addr = 1048; size = 232; free = true } ∷ []) in
    let b = with_blocks a (first ∷ second ∷ rest ∷ []) in
    with_blocks (record b { bytes = put_unlinked (rest ∷ []) b.bytes }) left

malloc_gives_example :
    ((malloc cold 20).0 ≡ 0)
    ⊎ IsGrant (heap_init_once cold) 20 (malloc cold 20).0 (malloc cold 20).1
malloc_gives_example = malloc_gives cold 20 cold-IsHeap (ground arith)

free-malloc_example :
    ((malloc cold 20).0 ≡ 0)
    ⊎ ((h' : Heap) × (free (malloc cold 20).1 (malloc cold 20).0 ≡ some h')
        × IsBack (heap_init_once cold) h')
unfolding heap_init_once
free-malloc_example = free-malloc cold 20 cold-IsHeap (ground arith) (λ e. tt, tt)

malloc_wraps_example :
    ((malloc cold (2 ^ 32 - 1)).0 ≡ 1008 + header)
    × (c : Block) × (find_block (1008 + header) (malloc cold (2 ^ 32 - 1)).1.blocks ≡ some c)
    × (c.size < 24)
unfolding heap_init_once
malloc_wraps_example =
    malloc_wraps cold (2 ^ 32 - 1) (record { addr = 1008; size = 272; free = true }) []
      (ground arith) (ground arith) refl refl
