-- ===== src/Base/Doubles.antt =====
-- Python's `float`, from zero up and below the largest: an IEEE double is a whole number of the least
-- subnormal, 2^-1074, with at most 53 significant binary digits. An operation rounds its exact
-- result to the nearest such number, to the even one of two.
use Prim.Native.Nat.{ℕ, zero, suc, ◌+◌, ◌-◌, ◌*◌, ◌/◌, ◌%◌, ◌^◌, ◌≤◌, ◌<◌}
use mathlib.Core.Path.{◌≡◌, sym, ap, ◌∙◌}
use mathlib.Core.Bool.{true, false}
use native.Mathlib.Omega.{arith, pow_step}
use native.Mathlib.Nat.{
  mul-le-mul_left, div-le_of_le-mul, div-add-mod, mul_assoc, mul_comm, zero-add, one-mul,
  one-le-pow, mul-lt-mul_of_pos_right, mul-le-mul_right, mul-pos,
}
use recoup_ai.Base.Tests.{ltb, if◌then◌else◌}

abbrev pub Double : Type 0
Double = ℕ

-- 1.0, in units of the least subnormal.
unfoldable pub one : Double
one = 2 ^ 1074

-- The binary digits of a number beyond its first 53, by halving; the number is fuel enough.
unfoldable pub excess_digits : ℕ → ℕ → ℕ
excess_digits zero n = 0
excess_digits (suc fuel) n = elim (ltb n (2 ^ 53)) [
  | true ↦ 0
  | false ↦ suc (excess_digits fuel (n / 2))
]

-- The nearest multiple of `step` to p / q, given q * step; the even one of two.
unfoldable pub nearest : ℕ → ℕ → ℕ
nearest p d =
    if ltb (2 * (p % d)) d
    then p / d
    else if ltb d (2 * (p % d))
    then p / d + 1
    else p / d + (p / d) % 2

-- The double nearest to p / q units.
unfoldable pub round_ratio : ℕ → ℕ → Double
unfolding nearest excess_digits
round_ratio p q = let step = 2 ^ excess_digits (p / q) (p / q) in nearest p (q * step) * step

-- `float(n)`
unfoldable pub of_nat : ℕ → Double
of_nat n = round_ratio (n * one) 1

-- A decimal literal, as a fraction of whole numbers.
unfoldable pub literal : ℕ → ℕ → Double
literal n m = round_ratio (n * one) m

unfoldable pub plus : Double → Double → Double
plus x y = round_ratio (x + y) 1

-- `x - y`, where y is at most x.
unfoldable pub minus : Double → Double → Double
minus x y = round_ratio (x - y) 1

unfoldable pub times : Double → Double → Double
times x y = round_ratio (x * y) one

-- `x / y`, where y is not zero.
unfoldable pub over : Double → Double → Double
over x y = round_ratio (x * one) y

-- `int(x)`
unfoldable pub truncate : Double → ℕ
truncate x = x / one

excess_digits_le : (fuel n k : ℕ) → n < 2 ^ 53 * 2 ^ k → excess_digits fuel n ≤ k
unfolding excess_digits
excess_digits_le zero n k h = omega arith
excess_digits_le (suc fuel) n zero h = ground arith
excess_digits_le (suc fuel) n (suc k) h =
    let half : n / 2 < 2 ^ 53 * 2 ^ k = omega (arith, pow_step 2 k) in
    ground (arith, excess_digits_le fuel (n / 2) k half)

nearest_le : (p d c : ℕ) → 0 < d → p ≤ d * c → nearest p d ≤ c
unfolding nearest
nearest_le p d c pos h =
    let below : p / d ≤ c = div-le_of_le-mul d h in
    let whole : c ≤ p / d → p % d ≡ 0 = λ g. omega (arith, mul-le-mul_left d g, div-add-mod p d) in
    ground (arith, below, whole)

pow_add : (i j : ℕ) → 2 ^ (i + j) ≡ 2 ^ i * 2 ^ j
pow_add zero j = rw (zero-add j) (sym (one-mul (2 ^ j)))
pow_add (suc i) j =
    let shifted : suc i + j ≡ suc (i + j) = omega arith in
    omega (
      arith,
      ap (λ e. 2 ^ e) shifted,
      pow_step 2 (i + j),
      pow_add i j,
      ap (λ x. x * 2 ^ j) (pow_step 2 i),
      mul_assoc 2 (2 ^ i) (2 ^ j),
    )

-- A power taken apart at a smaller exponent.
power_split : (b k s : ℕ) → s ≤ k → b * 2 ^ k ≡ b * 2 ^ (k - s) * 2 ^ s
power_split b k s h =
    let whole : 2 ^ k ≡ 2 ^ (k - s) * 2 ^ s = ap (λ i. 2 ^ i) (omega arith) ∙ pow_add (k - s) s in
    ap (λ x. b * x) whole ∙ sym (mul_assoc b (2 ^ (k - s)) (2 ^ s))

regroup : (q s c : ℕ) → q * (c * s) ≡ q * s * c
regroup q s c = ap (λ x. q * x) (mul_comm c s) ∙ sym (mul_assoc q s c)

-- A quotient that a double of few digits bounds is still bounded by it when it is rounded.
pub round_ratio_le :
    (p q b k : ℕ) → 0 < q → b < 2 ^ 53 → p ≤ q * (b * 2 ^ k) → round_ratio p q ≤ b * 2 ^ k
unfolding round_ratio
round_ratio_le p q b k pos few h =
    let n = p / q in
    let s = excess_digits n n in
    let digits : b * 2 ^ k < 2 ^ 53 * 2 ^ k =
      mul-lt-mul_of_pos_right few (one-le-pow k 2 (omega arith)) in
    let fits : s ≤ k = excess_digits_le n n k (omega (arith, digits, div-le_of_le-mul q h)) in
    let split = power_split b k s fits in
    let bound : p ≤ q * 2 ^ s * (b * 2 ^ (k - s)) =
      omega (arith, h, ap (λ x. q * x) split, regroup q (2 ^ s) (b * 2 ^ (k - s))) in
    omega (
      arith,
      split,
      mul-le-mul_right (2 ^ s) (
          nearest_le p (q * 2 ^ s) (b * 2 ^ (k - s)) (mul-pos pos (one-le-pow s 2 (omega arith)))
            bound),
    )

positive_one : 0 < one
unfolding one
positive_one = omega arith

pub over_le_one : (x y : Double) → 0 < y → x ≤ y → over x y ≤ one
unfolding over one
over_le_one x y pos h = round_ratio_le (x * one) y 1 1074 pos (omega arith) (omega (arith, h))

pub times_le : (x c : ℕ) → c < 2 ^ 53 → x ≤ one → times x (c * one) ≤ c * one
unfolding times one
times_le x c few h =
    round_ratio_le (x * (c * one)) one c 1074 positive_one few (mul-le-mul_right (c * one) h)

pub truncate_le : (x : Double) (c : ℕ) → x ≤ c * one → truncate x ≤ c
unfolding truncate
truncate_le x c h = div-le_of_le-mul one (omega (arith, h, mul_comm c one))

-- A whole number that a power of two bounds is bounded by it as a double.
pub of_nat_le : (n k : ℕ) → n ≤ 2 ^ k → of_nat n ≤ 2 ^ k * one
unfolding of_nat one
of_nat_le n k h = omega (
  arith,
  round_ratio_le (n * one) 1 1 (k + 1074) (omega arith) (omega arith)
      (omega (arith, pow_add k 1074, mul-le-mul_right (2 ^ 1074) h)),
  pow_add k 1074,
)
