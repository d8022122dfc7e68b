-- ===== src/Sched/Mask.antt =====
-- The mask of the ready lists: what a task that joins or leaves a list does to it.
use native.Mathlib.Nat.{lt_of_le_of_lt}
use tiny_rt.Base.{
  ℕ, ◌^◌, ◌≤◌, ◌<◌, ◌≡◌, ◌≢◌, true, not, some, arith, inl, inr, Bool-cases, is_empty,
  is_empty-append, bit_or,
}
use tiny_rt.Base.Bits.{
  test_bit, test_bit-or, test_bit-and, test_bit-not, test_bit-pow, bit_or-lt, bit_and-le, bit_not,
  pow-lt,
}
use tiny_rt.Sched.{cleared}
use tiny_rt.Sched.State.{Sched, link_tail, unlink}
use tiny_rt.Sched.Inv.{IsMasked, Inv, not-empty_of_link}

-- Only the ready lists count for the mask.
pub IsMasked-of_eq :
    {k k' : Sched}
    → IsMasked k
    → k'.mask ≡ k.mask
    → ((p : ℕ) → p < 32 → k'.lists p ≡ k.lists p)
    → IsMasked k'
IsMasked-of_eq {k} {k'} m e same_lists = record {
  small = rw e m.small;
  bits = λ p lt. rw (e, same_lists p lt) (m.bits p lt);
}

pub enqueue-IsMasked :
    {k : Sched} (t p : ℕ)
    → IsMasked k
    → p < 32
    → IsMasked (record (link_tail k t p) { mask = bit_or k.mask (2 ^ p) })
enqueue-IsMasked {k} t p m lt = record {
  small = bit_or-lt 32 k.mask (2 ^ p) m.small (pow-lt p 32 lt);
  bits = λ q h. ground (
    arith,
    m.bits q h,
    test_bit-or k.mask (2 ^ p) q,
    test_bit-pow p q,
    is_empty-append (k.lists p) t,
  );
}

-- While a task leaves the ready list `p`: the bit is still set, all other bits are right.
pub record IsMaskedBut (p : ℕ) (k : Sched) : Type 0 where
  pub small : k.mask < 2 ^ 32
  pub own : test_bit k.mask p ≡ true
  pub bits : (q : ℕ) → q < 32 → q ≢ p → test_bit k.mask q ≡ not (is_empty (k.lists q))

pub cleared-IsMasked : {k : Sched} (p : ℕ) → p < 32 → IsMaskedBut p k → IsMasked (cleared k p)
cleared-IsMasked {k} p lt m = elim (Bool-cases (is_empty (k.lists p))) [
  | inl e ↦ rw e (record {
    small = lt_of_le_of_lt (bit_and-le k.mask k.mask _ (omega arith)) m.small;
    bits = λ q h. ground (
      arith,
      m.bits q h,
      test_bit-and k.mask (bit_not 32 (2 ^ p)) q,
      test_bit-not 32 (2 ^ p) q (pow-lt p 32 lt) h,
      test_bit-pow p q,
    );
  })
  | inr e ↦ rw e (record { small = m.small; bits = λ q h. ground (arith, m.bits q h, m.own) })
]

pub unlink-IsMaskedBut :
    {k : Sched} (t p : ℕ)
    → Inv k
    → (k.tasks t).state_list ≡ some p
    → p < 32
    → IsMaskedBut p (unlink k t)
unlink-IsMaskedBut {k} t p v e lt =
    rw (e, unlink)
      (record {
        small = v.masked.small;
        own = ground (arith, v.masked.bits p lt, not-empty_of_link t p v.linked e);
        bits = λ q h ne. ground (arith, v.masked.bits q h);
      })

-- To leave a list that is no ready list does not touch the mask.
pub unlink-IsMasked :
    {k : Sched} (t h : ℕ)
    → IsMasked k
    → (k.tasks t).state_list ≡ some h
    → 32 ≤ h
    → IsMasked (unlink k t)
unlink-IsMasked {k} t h m e ge =
    rw (e, unlink) (record { small = m.small; bits = λ q lt. ground (arith, m.bits q lt) })

pub link_tail-IsMasked : {k : Sched} (t h : ℕ) → IsMasked k → 32 ≤ h → IsMasked (link_tail k t h)
link_tail-IsMasked {k} t h m ge = record {
  small = m.small;
  bits = λ q lt. ground (arith, m.bits q lt);
}
