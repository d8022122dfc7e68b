-- ===== src/Sched/Boot.antt =====
-- The scheduler after `sched_init`.
use tiny_rt.Base.{
  ℕ, zero, suc, ◌<◌, ◌≤◌, ◌==◌, ◌≡◌, refl, false, none, [], List, arith, count, inl, inr,
  Bool-cases,
}
use tiny_rt.Base.Bits.{zero-test_bit}
use tiny_rt.Sched.{sched_init, init_ready_lists}
use tiny_rt.Sched.State.{Sched, deleted_head, update}
use tiny_rt.Sched.Inv.{Inv}

init_ready_lists_lem :
    (n : ℕ) (lists : ℕ → List ℕ) (h : ℕ) → (n ≤ h → lists h ≡ []) → init_ready_lists n lists h ≡ []
unfolding init_ready_lists
init_ready_lists_lem zero lists h e = e (ground arith)
init_ready_lists_lem (suc n) lists h e = elim (Bool-cases (n == h)) [
  | inl hit ↦ rw hit refl
  | inr miss ↦ rw miss (init_ready_lists_lem n lists h (λ le. e (ground arith)))
]

-- `sched_init`, called on a state where no task is linked and every wait queue is empty, sets up
-- the invariant.
pub init-Inv :
    (k : Sched)
    → k.initialized ≡ false
    → ((t : ℕ) → ((k.tasks t).state_list ≡ none) × ((k.tasks t).timeout_list ≡ false))
    → ((h : ℕ) → deleted_head < h → k.lists h ≡ [])
    → Inv (sched_init k)
unfolding sched_init count
init-Inv k fresh free empty =
    let nil = λ (h : ℕ). init_ready_lists_lem 32 (update k.lists deleted_head []) h (λ le.
      elim (Bool-cases (deleted_head == h)) [
        | inl hit ↦ rw hit refl
        | inr miss ↦ rw miss (empty h (ground arith))
      ]) in
    simp fresh (record {
      linked = record {
        linked = λ t h. ground (arith, nil h, free t);
        null = (free 0).0;
        timed = λ t. ground (arith, free t);
      };
      placed = record { fits = λ t h e. absurd (ground (arith, free t, e)) };
      masked = record {
        small = ground arith;
        bits = λ p lt. ground (arith, nil p, zero-test_bit p);
      };
    })
