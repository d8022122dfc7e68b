-- ===== src/Base/Bits.antt =====
-- The bits of a word: what `|`, `& ~` and a shifted one do to each bit, and the highest set bit.
use Prim.Native.Nat.{
  ℕ, zero, suc, ◌+◌, ◌-◌, ◌*◌, ◌/◌, ◌%◌, ◌^◌, ◌≤◌, ◌<◌, min, max, bit_and, bit_or, digits,
  bit_and-bitwise, bit_or-bitwise,
}
use mathlib.Core.Path.{◌≡◌, refl, ap}
use mathlib.Core.Logic.{◌≢◌, ◌⊎◌, inl, inr}
use mathlib.Core.Bool.{Bool, true, false, not, ◌&&◌, ◌||◌}
use native.Mathlib.Omega.{arith}
use native.Mathlib.Nat.{pow-suc}
use tiny_rt.Base.Tests.{◌==◌, if◌then◌else◌, Bool-cases, ==→eq, ==-false→ne}

-- Bit `k` of the word `m`.
unfoldable pub test_bit : ℕ → ℕ → Bool
test_bit m zero = m % 2 == 1
test_bit m (suc k) = test_bit (m / 2) k

-- A bitwise operation goes digit by digit: any count of digits that is enough gives its value.
module _ (z : ℕ → ℕ) (f : ℕ → ℕ → ℕ) where
  digits-enough : (n m a b : ℕ) → a ≤ n → a ≤ m → digits z f n a b ≡ digits z f m a b
  digits-enough zero zero a b p q = refl
  digits-enough zero (suc m) zero b p q = refl
  digits-enough zero (suc m) (suc a) b p q = absurd (omega arith)
  digits-enough (suc n) zero zero b p q = refl
  digits-enough (suc n) zero (suc a) b p q = absurd (omega arith)
  digits-enough (suc n) (suc m) zero b p q = refl
  digits-enough (suc n) (suc m) (suc a) b p q =
      ap (λ d. d * 2 + f (suc a % 2) (b % 2))
        (digits-enough n m (suc a / 2) (b / 2) (omega arith) (omega arith))

pub bit_or_step : (a b : ℕ) → bit_or a b ≡ bit_or (a / 2) (b / 2) * 2 + max (a % 2) (b % 2)
bit_or_step zero b = omega (arith, bit_or-bitwise 0 b, bit_or-bitwise 0 (b / 2))
bit_or_step (suc a) b = omega (
  arith,
  bit_or-bitwise (suc a) b,
  bit_or-bitwise (suc a / 2) (b / 2),
  digits-enough (λ d. d) max a (suc a / 2) (suc a / 2) (b / 2) (omega arith) (omega arith),
)

pub bit_and_step : (a b : ℕ) → bit_and a b ≡ bit_and (a / 2) (b / 2) * 2 + min (a % 2) (b % 2)
bit_and_step zero b = omega (arith, bit_and-bitwise 0 b, bit_and-bitwise 0 (b / 2))
bit_and_step (suc a) b = omega (
  arith,
  bit_and-bitwise (suc a) b,
  bit_and-bitwise (suc a / 2) (b / 2),
  digits-enough (λ d. 0) min a (suc a / 2) (suc a / 2) (b / 2) (omega arith) (omega arith),
)

pub test_bit-or : (a b k : ℕ) → test_bit (bit_or a b) k ≡ (test_bit a k || test_bit b k)
unfolding test_bit
test_bit-or a b zero = ground (arith, bit_or_step a b)
test_bit-or a b (suc k) =
    let half : bit_or a b / 2 ≡ bit_or (a / 2) (b / 2) = omega (arith, bit_or_step a b) in
    rw half (test_bit-or (a / 2) (b / 2) k)

pub test_bit-and : (a b k : ℕ) → test_bit (bit_and a b) k ≡ (test_bit a k && test_bit b k)
unfolding test_bit
test_bit-and a b zero = ground (arith, bit_and_step a b)
test_bit-and a b (suc k) =
    let half : bit_and a b / 2 ≡ bit_and (a / 2) (b / 2) = omega (arith, bit_and_step a b) in
    rw half (test_bit-and (a / 2) (b / 2) k)

pub zero-test_bit : (k : ℕ) → test_bit 0 k ≡ false
unfolding test_bit
zero-test_bit zero = refl
zero-test_bit (suc k) = zero-test_bit k

-- `1 << p` has the bit `p` alone.
pub test_bit-pow : (p k : ℕ) → test_bit (2 ^ p) k ≡ (p == k)
unfolding test_bit
test_bit-pow zero zero = refl
test_bit-pow zero (suc k) = rw (zero-test_bit k) (ground arith)
test_bit-pow (suc p) zero = ground (arith, pow-suc 2 p)
test_bit-pow (suc p) (suc k) =
    let half : 2 ^ suc p / 2 ≡ 2 ^ p = omega (arith, pow-suc 2 p) in
    rw (half, test_bit-pow p k) (ground arith)

pow-pos : (n : ℕ) → 0 < 2 ^ n
pow-pos zero = omega arith
pow-pos (suc n) = omega (arith, pow-suc 2 n, pow-pos n)

-- `(1 << n) - 1` has no bit from `n` on.
pub low-test_bit : (n k : ℕ) → n ≤ k → test_bit (2 ^ n - 1) k ≡ false
unfolding test_bit
low-test_bit zero k h = zero-test_bit k
low-test_bit (suc n) zero h = absurd (omega arith)
low-test_bit (suc n) (suc k) h =
    let half : (2 ^ suc n - 1) / 2 ≡ 2 ^ n - 1 = omega (arith, pow-suc 2 n, pow-pos n) in
    rw half (low-test_bit n k (omega arith))

pub pow-lt : (p n : ℕ) → p < n → 2 ^ p < 2 ^ n
pow-lt p zero h = absurd (omega arith)
pow-lt zero (suc n) h = omega (arith, pow-suc 2 n, pow-pos n)
pow-lt (suc p) (suc n) h = omega (arith, pow-suc 2 n, pow-suc 2 p, pow-lt p n)

-- `~m` on a word of `n` bits.
unfoldable pub bit_not : ℕ → ℕ → ℕ
bit_not n m = 2 ^ n - 1 - m

pub test_bit-not : (n m k : ℕ) → m < 2 ^ n → k < n → test_bit (bit_not n m) k ≡ not (test_bit m k)
unfolding test_bit bit_not
test_bit-not zero m k h lt = absurd (omega arith)
test_bit-not (suc n) m zero h lt = ground (arith, pow-suc 2 n)
test_bit-not (suc n) m (suc k) h lt =
    let half : (2 ^ suc n - 1 - m) / 2 ≡ 2 ^ n - 1 - m / 2 = omega (arith, pow-suc 2 n) in
    rw half (test_bit-not n (m / 2) k (omega (arith, pow-suc 2 n)) (omega arith))

pub bit_or-lt : (n a b : ℕ) → a < 2 ^ n → b < 2 ^ n → bit_or a b < 2 ^ n
bit_or-lt zero a b p q =
    let e : a ≡ 0 = omega arith in let d : b ≡ 0 = omega arith in rw (e, d) (omega arith)
bit_or-lt (suc n) a b p q = omega (
  arith,
  pow-suc 2 n,
  bit_or_step a b,
  bit_or-lt n (a / 2) (b / 2) (omega (arith, pow-suc 2 n)) (omega (arith, pow-suc 2 n)),
)

pub bit_and-le : (n a b : ℕ) → a ≤ n → bit_and a b ≤ a
bit_and-le zero zero b h = omega (arith, bit_and-bitwise 0 b)
bit_and-le zero (suc a) b h = absurd (omega arith)
bit_and-le (suc n) a b h =
    ground (arith, bit_and_step a b, bit_and-bitwise 0 b, bit_and-le n (a / 2) (b / 2))

-- `__builtin_clz` on a word of `n` bits: the zeros above the highest set bit.
unfoldable pub clz : ℕ → ℕ → ℕ
clz zero m = 0
clz (suc n) m = if test_bit m n then 0 else 1 + clz n m

-- A word of `n` bits with no bit set is 0.
eq-zero_of_bits : (n m : ℕ) → m < 2 ^ n → ((k : ℕ) → k < n → test_bit m k ≡ false) → m ≡ 0
unfolding test_bit
eq-zero_of_bits zero m h none_set = omega arith
eq-zero_of_bits (suc n) m h none_set = ground (
  arith,
  none_set 0 (omega arith),
  eq-zero_of_bits n (m / 2) (omega (arith, pow-suc 2 n)) (λ k lt. none_set (suc k) (omega arith)),
)

clz_cases :
    (n m : ℕ)
    → (clz n m < n) × (test_bit m (n - 1 - clz n m) ≡ true)
      ⊎ ((k : ℕ) → k < n → test_bit m k ≡ false)
unfolding clz
clz_cases zero m = inr (λ k lt. absurd (omega arith))
clz_cases (suc n) m = elim (Bool-cases (test_bit m n)) [
  | inl on ↦ let e : suc n - 1 - 0 ≡ n = omega arith in rw on (inl (omega arith, rw e on))
  | inr off ↦ rw off (elim (clz_cases n m) [
    | inl (lt, top) ↦
        let e : suc n - 1 - (1 + clz n m) ≡ n - 1 - clz n m = omega arith in
        inl (omega arith, rw e top)
    | inr clear ↦ inr (λ k lt. elim (Bool-cases (k == n)) [
      | inl same_bit ↦ rw (==→eq k n same_bit) off
      | inr other ↦ clear k (omega (arith, ==-false→ne k n other))
    ])
  ])
]

-- The highest set bit of a word that is not 0.
pub clz-highest :
    (n m : ℕ) → m < 2 ^ n → m ≢ 0 → (clz n m < n) × (test_bit m (n - 1 - clz n m) ≡ true)
clz-highest n m h ne = elim (clz_cases n m) [
  | inl top ↦ top
  | inr clear ↦ absurd (ne (eq-zero_of_bits n m h clear))
]

-- No bit above it is set.
pub clz-above : (n m q : ℕ) → n - 1 - clz n m < q → q < n → test_bit m q ≡ false
unfolding clz
clz-above zero m q above lt = absurd (omega arith)
clz-above (suc n) m q above lt = elim (Bool-cases (test_bit m n)) [
  | inl on ↦ absurd (ground arith)
  | inr off ↦ elim (Bool-cases (q == n)) [
    | inl same_bit ↦ rw (==→eq q n same_bit) off
    | inr other ↦ clz-above n m q (ground arith) (omega (arith, ==-false→ne q n other))
  ]
]
