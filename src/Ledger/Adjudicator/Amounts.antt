-- ===== src/Ledger/Adjudicator/Amounts.antt =====
-- The money in an outcome. A draw is at most 1.0, which rounding can reach.
use native.Mathlib.Nat.{mul-le-mul_left}
use recoup_ai.Base.{ℕ, ◌+◌, ◌*◌, ◌/◌, ◌%◌, ◌^◌, ◌≤◌, ◌<◌, max, ◌≡◌, refl, String, arith}
use recoup_ai.Base.Doubles.{
  one, of_nat, times, truncate, nearest, excess_digits, round_ratio, over_le_one, times_le,
  truncate_le, of_nat_le,
}
use recoup_ai.Domain.Models.Invoices.{Invoice}
use recoup_ai.Ledger.Adjudicator.{Platform, draw_key, uniform, partial_amount}

hash_range : of_nat (2 ^ 64) ≡ 2 ^ 64 * one
unfolding of_nat round_ratio nearest excess_digits one
hash_range = refl

percents : of_nat 52 ≡ 52 * one
unfolding of_nat round_ratio nearest excess_digits one
percents = refl

positive_range : 0 < of_nat (2 ^ 64)
unfolding of_nat round_ratio nearest excess_digits one
positive_range = omega arith

-- What a part payment may be of a balance, in whole paise: at least one, from 33 hundredths of it,
-- rounded down, to 85 hundredths, rounded down, or to one where that is more.
abbrev pub IsPart : ℕ → ℕ → Type 0
IsPart outstanding amount =
    (1 ≤ amount) × (outstanding * 33 / 100 ≤ amount) × (amount ≤ max 1 (outstanding * 85 / 100))

percent-IsPart :
    (outstanding d : ℕ) → d ≤ 52 → IsPart outstanding (max 1 (outstanding * (33 + d) / 100))
percent-IsPart outstanding d h =
    let low : outstanding * 33 ≤ outstanding * (33 + d) =
      mul-le-mul_left outstanding (omega arith) in
    let high : outstanding * (33 + d) ≤ outstanding * 85 =
      mul-le-mul_left outstanding (omega arith) in
    (omega arith, omega (arith, low), omega (arith, high))

module _ (m : Platform) (seed : ℕ) where
  pub uniform_le : (k : String) (tick : ℕ) (channel : String) → uniform m seed k tick channel ≤ one
  unfolding uniform
  uniform_le k tick channel =
      let drawn = m.blake2b (draw_key seed k tick channel) % 2 ^ 64 in
      let small : drawn ≤ 2 ^ 64 = omega arith in
      over_le_one (of_nat drawn) (of_nat (2 ^ 64)) positive_range
        (rw hash_range (of_nat_le drawn 64 small))

  pub partial_amount-IsPart :
      (r : Invoice) (tick outstanding : ℕ)
      → IsPart outstanding (partial_amount m seed r tick outstanding)
  unfolding partial_amount
  partial_amount-IsPart r tick outstanding =
      let u = uniform m seed r.invoice_id tick "amount" in
      percent-IsPart outstanding (truncate (times u (of_nat 52))) (
        rw percents (
          truncate_le (times u (52 * one)) 52
            (times_le u 52 (omega arith) (uniform_le r.invoice_id tick "amount"))))
