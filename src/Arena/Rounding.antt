-- ===== src/Arena/Rounding.antt =====
-- The frontier rounded up to an alignment (src/arena.rs, `alloc`), as a bound.
use gc_lite.Base.{
  ℕ, zero, suc, ◌+◌, ◌-◌, ◌*◌, ◌/◌, ◌%◌, ◌^◌, ◌≤◌, ◌<◌, bit_and, ◌≡◌, refl, ap, arith, ◌∙◌,
}
use native.Mathlib.Nat.{mul_assoc}
use gc_lite.Base.Bits.{bit_and_halves, nothing-bit_and}
use gc_lite.Gctype.{align_up}

-- The last multiple of `2 ^ k` up to `x`.
pub record Rounded (k x r : ℕ) : Type 0 where
  pub below : r ≤ x
  pub close : x < r + 2 ^ k
  pub quotient : ℕ
  pub multiple : r ≡ quotient * 2 ^ k

positive : (k : ℕ) → 0 < 2 ^ k
positive zero = omega arith
positive (suc k) = omega (arith, positive k)

bit_and_low : (w x : ℕ) → x < 2 ^ w → bit_and x (2 ^ w - 1) ≡ x
bit_and_low zero zero lt = refl
bit_and_low zero (suc x) lt = absurd (omega arith)
bit_and_low (suc w) x lt =
    let halves : (2 ^ suc w - 1) / 2 ≡ 2 ^ w - 1 = omega (arith, positive w) in
    omega (
      arith,
      positive w,
      bit_and_halves x (2 ^ suc w - 1),
      bit_and_low w (x / 2) (omega arith),
      ap (λ n. bit_and (x / 2) n) halves,
    )

twice : (q k : ℕ) → q * 2 ^ k * 2 ≡ q * 2 ^ suc k
twice q k = mul_assoc q (2 ^ k) 2 ∙ ap (λ n. q * n) doubled
  where
    doubled : 2 ^ k * 2 ≡ 2 ^ suc k
    doubled = omega arith

bit_and-Rounded : (w k x : ℕ) → x < 2 ^ w → Rounded k x (bit_and x (2 ^ w - 2 ^ k))
bit_and-Rounded w zero x lt = record {
  below = omega (arith, bit_and_low w x lt);
  close = omega (arith, bit_and_low w x lt);
  quotient = x;
  multiple = omega (arith, bit_and_low w x lt);
}
bit_and-Rounded zero (suc k) zero lt = record {
  below = omega (arith, nothing-bit_and (2 ^ 0 - 2 ^ suc k));
  close = omega (arith, positive k);
  quotient = 0;
  multiple = omega (arith, nothing-bit_and (2 ^ 0 - 2 ^ suc k));
}
bit_and-Rounded zero (suc k) (suc x) lt = absurd (omega arith)
bit_and-Rounded (suc w) (suc k) x lt =
    let r = bit_and-Rounded w k (x / 2) (omega arith) in
    let halves : (2 ^ suc w - 2 ^ suc k) / 2 ≡ 2 ^ w - 2 ^ k = omega arith in
    let same = ap (λ n. bit_and (x / 2) n) halves in
    let doubled : bit_and x (2 ^ suc w - 2 ^ suc k) ≡ bit_and (x / 2) (2 ^ w - 2 ^ k) * 2 =
      omega (arith, bit_and_halves x (2 ^ suc w - 2 ^ suc k), same) in
    record {
      below = omega (arith, doubled, r.below);
      close = omega (arith, doubled, r.close);
      quotient = r.quotient;
      multiple = doubled ∙ ap (λ n. n * 2) r.multiple ∙ twice r.quotient k;
    }

pub align_up-Rounded :
    (value k : ℕ)
    → value + 2 ^ k ≤ 2 ^ 64
    → Rounded k (value + (2 ^ k - 1)) (align_up value (2 ^ k))
unfolding align_up
align_up-Rounded value k fits =
    let sum : (value + (2 ^ k - 1)) % 2 ^ 64 ≡ value + (2 ^ k - 1) = omega (arith, positive k) in
    let mask : 2 ^ 64 - 1 - (2 ^ k - 1) ≡ 2 ^ 64 - 2 ^ k = omega (arith, positive k) in
    rw (sum, mask) (bit_and-Rounded 64 k (value + (2 ^ k - 1)) (omega (arith, positive k)))
