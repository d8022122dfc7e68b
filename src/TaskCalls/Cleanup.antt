-- ===== src/TaskCalls/Cleanup.antt =====
-- `task_cleanup_deleted` of src/kernel/task.c, against the heap: the loop ends, and the blocks of all
-- deleted tasks are freed.
use tiny_rt.Base.{
  ℕ, suc, ◌+◌, ◌≡◌, ◌≢◌, refl, ap, ◌∙◌, sym, subst, true, false, some, arith, List, [], ◌∷◌, length,
  ◌==◌, count, ne→==-false, Option, inl, inr, Bool-cases, fun_ext, none, ==→eq, ==-false→ne,
}
use tiny_rt.Sched.{sched_pop_deleted}
use tiny_rt.Sched.Inv.{Inv}
use tiny_rt.Sched.Wake.{pop_deleted-Inv}
use tiny_rt.Sched.Delete.{pop_deleted_lem}
use tiny_rt.Sched.State.{Sched, deleted_head}
use tiny_rt.Heap.{Heap, Block, free, find_block, with_blocks, put_unlinked, gone}
use tiny_rt.Heap.Calls.{free_ready}
use tiny_rt.Heap.Frame.{release-keeps, release_total}
use tiny_rt.Kernel.{Kernel}
use tiny_rt.TaskCalls.{free_task, cleanup_loop, task_cleanup_deleted}

-- A pointer to the payload of a block in use.
abbrev pub IsUsed : Heap → ℕ → Type 0
IsUsed h p = (b : Block) × (find_block p h.blocks ≡ some b) × (b.free ≡ false)

free_lem :
    (h : Heap) (p : ℕ)
    → h.heap_initialized ≡ true
    → p ≢ 0
    → IsUsed h p
    → (u : Heap) × (free h p ≡ some u)
      × (u.heap_initialized ≡ true)
      × ((q : ℕ) → q ≢ p → IsUsed h q → IsUsed u q)
free_lem h p ready nz (b, found, used) =
    let (bs, freed) = release_total p h.blocks b found in
    (
      with_blocks (record h { bytes = put_unlinked (gone p h.blocks) h.bytes }) bs,
      free_ready h p bs ready nz freed,
      ready,
      λ q ne w.
          let (c, here, in_use) = w in
          (c, release-keeps p q h.blocks bs c freed ne here in_use, in_use),
    )

-- The blocks of the tasks of a list, of which `stack` gives the stacks.
abbrev pub blocks_of : (ℕ → ℕ) → List ℕ → List ℕ
blocks_of stack [] = []
blocks_of stack (t ∷ ts) = stack t ∷ t ∷ blocks_of stack ts

-- Freed one after the other.
unfoldable pub free_all : Heap → List ℕ → Option Heap
free_all h [] = some h
free_all h (p ∷ ps) = elim (free h p) [ none ↦ none | some u ↦ free_all u ps ]

-- Pointers to blocks in use, no two of them the same.
abbrev pub Owned : Heap → List ℕ → Type 0
Owned h [] = Unit
Owned h (p ∷ ps) = IsUsed h p × (p ≢ 0) × (count p ps ≡ 0) × Owned h ps

Owned-keeps :
    (h u : Heap) (ps : List ℕ) (p : ℕ)
    → count p ps ≡ 0
    → ((q : ℕ) → q ≢ p → IsUsed h q → IsUsed u q)
    → Owned h ps
    → Owned u ps
unfolding count
Owned-keeps h u [] p c keeps o = tt
Owned-keeps h u (q ∷ qs) p c keeps (used, nz, new, o) = (
  keeps q (λ e. absurd (ground (arith, c, e))) used,
  nz,
  new,
  Owned-keeps h u qs p (omega (arith, c)) keeps o,
)

-- The first block of a list is freed.
free_first :
    (h : Heap) (p : ℕ) (ps : List ℕ)
    → h.heap_initialized ≡ true
    → Owned h (p ∷ ps)
    → (u : Heap) × (free h p ≡ some u) × (u.heap_initialized ≡ true) × Owned u ps
free_first h p ps ready (used, nz, new, o) =
    let (u, freed, ready', keeps) = free_lem h p ready nz used in
    (u, freed, ready', Owned-keeps h u ps p new keeps o)

-- After the clean-up: no task is among the deleted ones, the heap is what the frees have made of it,
-- and the tasks that were not deleted are as they were.
pub record IsClean (k : Kernel) (ts : List ℕ) (k' : Kernel) : Type 0 where
  pub sound : Inv k'.sched
  pub none_left : k'.sched.lists deleted_head ≡ []
  pub freed : free_all k.heap (blocks_of (λ t. (k.sched.tasks t).stack_base) ts) ≡ some k'.heap
  pub others : (u : ℕ) → count u ts ≡ 0 → k'.sched.tasks u ≡ k.sched.tasks u

pop_none : (s : Sched) → s.lists deleted_head ≡ [] → sched_pop_deleted s ≡ (0, s)
unfolding sched_pop_deleted
pop_none s e = rw (e, sched_pop_deleted) refl

clean_end : (k : Kernel) → k.sched.lists deleted_head ≡ [] → cleanup_loop 1 k ≡ some k
unfolding cleanup_loop
clean_end k e =
    let none_left = pop_none k.sched e in
    let z : ((sched_pop_deleted k.sched).0 == 0) ≡ true = ap (λ r. r.0 == 0) none_left in
    rw (z, cleanup_loop) (ap (λ r. some (record k { sched = r.1 })) none_left)

clean_step :
    (fuel : ℕ) (k k2 : Kernel) (t : ℕ)
    → (sched_pop_deleted k.sched).0 ≡ t
    → t ≢ 0
    → free_task (record k { sched = (sched_pop_deleted k.sched).1 }) t ≡ some k2
    → cleanup_loop (suc fuel) k ≡ cleanup_loop fuel k2
unfolding cleanup_loop
clean_step fuel k k2 t e nz f =
    let p = sched_pop_deleted k.sched in
    let z : (p.0 == 0) ≡ false = ap (λ x. x == 0) e ∙ ne→==-false t 0 nz in
    let g : free_task (record k { sched = p.1 }) p.0 ≡ some k2 =
      ap (free_task (record k { sched = p.1 })) e ∙ f in
    rw (z, g, cleanup_loop) refl

free_task_lem :
    (k : Kernel) (t : ℕ) (u w : Heap)
    → free k.heap (k.sched.tasks t).stack_base ≡ some u
    → free u t ≡ some w
    → free_task k t ≡ some (record k { heap = w })
unfolding free_task
free_task_lem k t u w a b = rw (a, b, free_task) refl

free_all-step :
    (h u w : Heap) (p q : ℕ) (ps : List ℕ)
    → free h p ≡ some u
    → free u q ≡ some w
    → free_all h (p ∷ q ∷ ps) ≡ free_all w ps
unfolding free_all
free_all-step h u w p q ps a b = rw (a, b, free_all) refl

cleanup_from :
    (ts : List ℕ) (k : Kernel)
    → Inv k.sched
    → k.sched.lists deleted_head ≡ ts
    → k.heap.heap_initialized ≡ true
    → Owned k.heap (blocks_of (λ t. (k.sched.tasks t).stack_base) ts)
    → (k' : Kernel) × (cleanup_loop (suc (length ts)) k ≡ some k') × IsClean k ts k'
unfolding count free_all
cleanup_from [] k v e ready o =
    (k, clean_end k e, record { sound = v; none_left = e; freed = refl; others = λ u c. refl })
cleanup_from (t ∷ ts) k v e ready o =
    let s1 = (sched_pop_deleted k.sched).1 in
    let stack : ℕ → ℕ = λ x. (k.sched.tasks x).stack_base in
    let (first, nz, left, _, own, others) = pop_deleted_lem k.sched t ts v e in
    let same : (x : ℕ) → (s1.tasks x).stack_base ≡ stack x = λ x. elim (Bool-cases (x == t)) [
      | inl is ↦
          let xt = ==→eq x t is in ap (λ y. (s1.tasks y).stack_base) xt ∙ own ∙ ap stack (sym xt)
      | inr ne ↦ ap (λ task. task.stack_base) (others x (==-false→ne x t ne))
    ] in
    let (u, freed, ready1, o1) = free_first k.heap (stack t) (t ∷ blocks_of stack ts) ready o in
    let (w, freed1, ready2, o2) = free_first u t (blocks_of stack ts) ready1 o1 in
    let k2 = record k { sched = s1; heap = w } in
    let released =
      free_task_lem (record k { sched = s1 }) t u w (ap (free k.heap) (same t) ∙ freed) freed1 in
    let stacks : (λ (x : ℕ). (s1.tasks x).stack_base) ≡ stack = fun_ext same in
    let (k', ended, clean) =
      cleanup_from ts k2 (pop_deleted-Inv v) left ready2
        (subst (λ f. Owned w (blocks_of f ts)) (sym stacks) o2) in
    (
      k',
      clean_step (suc (length ts)) k k2 t first nz released ∙ ended,
      record {
        sound = clean.sound;
        none_left = clean.none_left;
        freed =
            free_all-step k.heap u w (stack t) t (blocks_of stack ts) freed freed1
            ∙ subst (λ f. free_all w (blocks_of f ts) ≡ some k'.heap) stacks clean.freed;
        others = λ x c.
            clean.others x (omega (arith, c)) ∙ others x (λ is. absurd (ground (arith, c, is)));
      },
    )

-- With the scheduler's invariant, an initialized heap, and two blocks in use for each deleted task,
-- all of them different, `task_cleanup_deleted` ends: one round for each deleted task and one more
-- are enough, and no `free` meets a pointer that no block belongs to. Afterwards no task is among the
-- deleted ones, the stacks and the control blocks have been freed in the order of the list, the
-- invariant holds, and the tasks that were not deleted are as they were.
pub cleanup-IsClean :
    (k : Kernel)
    → Inv k.sched
    → k.heap.heap_initialized ≡ true
    → Owned k.heap (blocks_of (λ t. (k.sched.tasks t).stack_base) (k.sched.lists deleted_head))
    → (k' : Kernel) × (task_cleanup_deleted k ≡ some k') × IsClean k (k.sched.lists deleted_head) k'
unfolding task_cleanup_deleted
cleanup-IsClean k v ready o =
    let ts = k.sched.lists deleted_head in
    let (k', ended, clean) = cleanup_from ts k v refl ready o in
    let more : length ts + 1 ≡ suc (length ts) = omega arith in
    (k', ap (λ n. cleanup_loop n k) more ∙ ended, clean)
