-- ===== src/Base/Bits.antt =====
-- The bitwise operations on a word, digit by digit.
use Prim.Native.Nat.{
  ℕ, zero, suc, ◌+◌, ◌-◌, ◌*◌, ◌/◌, ◌%◌, ◌≤◌, ◌<◌, min, max, bit_and, bit_or, digits,
  bit_and-bitwise, bit_or-bitwise,
}
use mathlib.Core.Path.{◌≡◌, refl}
use native.Mathlib.Omega.{arith}
use mathlib.Core.Path.{ap}
use gc_lite.Base.Tests.{◌==◌, if◌then◌else◌}

-- An operation by digits, `z` its value once the first operand is used up.
module _ (z : ℕ → ℕ) (f : ℕ → ℕ → ℕ) (unit : (b : ℕ) → z b ≡ z (b / 2) * 2 + f 0 (b % 2)) where
  digits-enough : (n m a b : ℕ) → a ≤ n → a ≤ m → digits z f n a b ≡ digits z f m a b
  digits-enough zero zero a b le le' = refl
  digits-enough zero (suc m) zero b le le' = refl
  digits-enough zero (suc m) (suc a) b le le' = absurd (omega arith)
  digits-enough (suc n) zero zero b le le' = refl
  digits-enough (suc n) zero (suc a) b le le' = absurd (omega arith)
  digits-enough (suc n) (suc m) zero b le le' = refl
  digits-enough (suc n) (suc m) (suc a) b le le' =
      omega (arith, digits-enough n m (suc a / 2) (b / 2) (omega arith) (omega arith))

  digits-step :
      (a b : ℕ) → digits z f a a b ≡ digits z f (a / 2) (a / 2) (b / 2) * 2 + f (a % 2) (b % 2)
  digits-step zero b = unit b
  digits-step (suc a) b =
      omega (arith, digits-enough a (suc a / 2) (suc a / 2) (b / 2) (omega arith) (omega arith))

pub bit_and_halves : (a b : ℕ) → bit_and a b ≡ bit_and (a / 2) (b / 2) * 2 + min (a % 2) (b % 2)
bit_and_halves a b = omega (
  arith,
  bit_and-bitwise a b,
  bit_and-bitwise (a / 2) (b / 2),
  digits-step (λ b. zero) min (λ b. omega arith) a b,
)

pub nothing-bit_and : (b : ℕ) → bit_and 0 b ≡ 0
nothing-bit_and b = bit_and-bitwise 0 b

pub bit_or_halves : (a b : ℕ) → bit_or a b ≡ bit_or (a / 2) (b / 2) * 2 + max (a % 2) (b % 2)
bit_or_halves a b = omega (
  arith,
  bit_or-bitwise a b,
  bit_or-bitwise (a / 2) (b / 2),
  digits-step (λ b. b) max (λ b. omega arith) a b,
)

-- Bit `i` of a word.
unfoldable pub bit : ℕ → ℕ → ℕ
bit zero a = a % 2
bit (suc i) a = bit i (a / 2)

pub bit_small : (i a : ℕ) → bit i a ≤ 1
unfolding bit
bit_small zero a = omega arith
bit_small (suc i) a = bit_small i (a / 2)

pub bit-bit_and : (i a b : ℕ) → bit i (bit_and a b) ≡ min (bit i a) (bit i b)
unfolding bit
bit-bit_and zero a b = omega (arith, bit_and_halves a b)
bit-bit_and (suc i) a b =
    let half : bit_and a b / 2 ≡ bit_and (a / 2) (b / 2) = omega (arith, bit_and_halves a b) in
    rw half (bit-bit_and i (a / 2) (b / 2))

pub bit-bit_or : (i a b : ℕ) → bit i (bit_or a b) ≡ max (bit i a) (bit i b)
unfolding bit
bit-bit_or zero a b = omega (arith, bit_or_halves a b)
bit-bit_or (suc i) a b =
    let half : bit_or a b / 2 ≡ bit_or (a / 2) (b / 2) = omega (arith, bit_or_halves a b) in
    rw half (bit-bit_or i (a / 2) (b / 2))

-- A byte from its digits.
unfoldable pub byte : ℕ → ℕ → ℕ
byte zero a = 0
byte (suc k) a = a % 2 + byte k (a / 2) * 2

-- A word without its low bits.
unfoldable pub shr : ℕ → ℕ → ℕ
shr zero a = a
shr (suc k) a = shr k (a / 2)

-- The word of `k` ones, and the word whose only one is bit `k`.
unfoldable pub ones : ℕ → ℕ
ones zero = 0
ones (suc k) = ones k * 2 + 1

unfoldable pub one_at : ℕ → ℕ
one_at zero = 1
one_at (suc k) = one_at k * 2

zero-byte : (k : ℕ) → byte k 0 ≡ 0
unfolding byte
zero-byte zero = refl
zero-byte (suc k) = omega (arith, zero-byte k)

bit_and-zero : (n a : ℕ) → a ≤ n → bit_and a 0 ≡ 0
bit_and-zero n zero le = refl
bit_and-zero zero (suc a) le = absurd (omega arith)
bit_and-zero (suc n) (suc a) le =
    omega (arith, bit_and_halves (suc a) 0, bit_and-zero n (suc a / 2) (omega arith))

pub bit_and-ones : (k a : ℕ) → bit_and a (ones k) ≡ byte k a
unfolding ones byte
bit_and-ones zero a = bit_and-zero a a (omega arith)
bit_and-ones (suc k) a =
    let half : (ones k * 2 + 1) / 2 ≡ ones k = omega arith in
    omega (
      arith,
      bit_and_halves a (ones k * 2 + 1),
      bit_and-ones k (a / 2),
      ap (λ n. bit_and (a / 2) n) half,
    )

pub bit_and-one_at : (k a : ℕ) → bit_and a (one_at k) ≡ bit k a * one_at k
unfolding one_at bit
bit_and-one_at zero a =
    omega (arith, bit_and_halves a 1, bit_and-zero (a / 2) (a / 2) (omega arith))
bit_and-one_at (suc k) a =
    let half : one_at k * 2 / 2 ≡ one_at k = omega arith in
    let rest : bit_and (a / 2) (one_at k * 2 / 2) ≡ bit k (a / 2) * one_at k =
      rw half (bit_and-one_at k (a / 2)) in
    ground (arith, bit_and_halves a (one_at k * 2), rest)

pub byte-bit_and : (k a b : ℕ) → byte k b ≡ ones k → byte k (bit_and a b) ≡ byte k a
unfolding ones byte
byte-bit_and zero a b e = refl
byte-bit_and (suc k) a b e =
    let half : bit_and a b / 2 ≡ bit_and (a / 2) (b / 2) = omega (arith, bit_and_halves a b) in
    omega (
      arith,
      bit_and_halves a b,
      byte-bit_and k (a / 2) (b / 2) (omega arith),
      ap (λ n. byte k n) half,
    )

pub byte-bit_or : (k a b : ℕ) → byte k b ≡ 0 → byte k (bit_or a b) ≡ byte k a
unfolding byte
byte-bit_or zero a b e = refl
byte-bit_or (suc k) a b e =
    let half : bit_or a b / 2 ≡ bit_or (a / 2) (b / 2) = omega (arith, bit_or_halves a b) in
    omega (
      arith,
      bit_or_halves a b,
      byte-bit_or k (a / 2) (b / 2) (omega arith),
      ap (λ n. byte k n) half,
    )

pub byte-bit_or_left : (k a b : ℕ) → byte k a ≡ 0 → byte k (bit_or a b) ≡ byte k b
unfolding byte
byte-bit_or_left zero a b e = refl
byte-bit_or_left (suc k) a b e =
    let half : bit_or a b / 2 ≡ bit_or (a / 2) (b / 2) = omega (arith, bit_or_halves a b) in
    omega (
      arith,
      bit_or_halves a b,
      byte-bit_or_left k (a / 2) (b / 2) (omega arith),
      ap (λ n. byte k n) half,
    )

pub shr-bit_and : (k a b : ℕ) → shr k (bit_and a b) ≡ bit_and (shr k a) (shr k b)
unfolding shr
shr-bit_and zero a b = refl
shr-bit_and (suc k) a b =
    let half : bit_and a b / 2 ≡ bit_and (a / 2) (b / 2) = omega (arith, bit_and_halves a b) in
    rw half (shr-bit_and k (a / 2) (b / 2))

pub shr-bit_or : (k a b : ℕ) → shr k (bit_or a b) ≡ bit_or (shr k a) (shr k b)
unfolding shr
shr-bit_or zero a b = refl
shr-bit_or (suc k) a b =
    let half : bit_or a b / 2 ≡ bit_or (a / 2) (b / 2) = omega (arith, bit_or_halves a b) in
    rw half (shr-bit_or k (a / 2) (b / 2))

zero-bit : (k : ℕ) → bit k 0 ≡ 0
unfolding bit
zero-bit zero = refl
zero-bit (suc k) = zero-bit k

pub bit-one_at : (i k : ℕ) → bit i (one_at k) ≡ (if i == k then 1 else 0)
unfolding bit one_at
bit-one_at zero zero = refl
bit-one_at (suc i) zero = ground (arith, zero-bit i)
bit-one_at zero (suc k) = ground arith
bit-one_at (suc i) (suc k) =
    let half : one_at k * 2 / 2 ≡ one_at k = omega arith in
    let rest : bit i (one_at k * 2 / 2) ≡ (if i == k then 1 else 0) = rw half (bit-one_at i k) in
    ground (arith, rest)

-- The complement within `k` bits.
pub bit-complement : (k i m : ℕ) → i < k → m ≤ ones k → bit i (ones k - m) ≡ 1 - bit i m
unfolding bit ones
bit-complement zero i m lt le = absurd (omega arith)
bit-complement (suc k) zero m lt le = omega arith
bit-complement (suc k) (suc i) m lt le =
    let half : (ones k * 2 + 1 - m) / 2 ≡ ones k - m / 2 = omega arith in
    rw half (bit-complement k i (m / 2) (omega arith) (omega arith))
