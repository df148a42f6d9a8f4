-- ===== src/Domain/Transfer/Tolerance.antt =====
-- src/domain/transfer_domain_service.cpp: the tolerance of rule 6 covers the rounding of a derived
-- incoming amount.
use personal_finance_hub.Prelude.{
  ℕ, ◌+◌, ◌*◌, ◌^◌, ◌≤◌, ◌<◌, ◌≡◌, refl, arith, true, false, ltb, lt→ltb, le→ltb_false, ◌∙◌,
}
use personal_finance_hub.Prelude.Int.{pos, ◌+ℤ◌}
use personal_finance_hub.Domain.Error.{ok}
use personal_finance_hub.Domain.Decimal
use personal_finance_hub.Domain.Decimal.{
  Decimal, scale_factor, storage_max, value_limit, u128_mod, checked_add, checked_mul,
}
use personal_finance_hub.Domain.Decimal.Checked.{add-eq}
use personal_finance_hub.Domain.Decimal.Division.{multiply-eq}
use personal_finance_hub.Domain.Decimal.Rounding.{half_even, half_even-HalfEven}
use personal_finance_hub.Domain.Decimal.Text
use personal_finance_hub.Domain.Transfer.{amount_rounding_unit, rate_rounding_unit, tolerance_for}

parse_amount_unit : Text.parse amount_rounding_unit ≡ ok (pos 100)
unfolding Text.parse Text.trim Text.parse_trimmed Text.parse_unsigned Text.scan Text.scan_char
    Text.build Text.push_digits Text.push_digit Text.rounds_up Text.fit_fraction checked_add
    checked_mul
parse_amount_unit = refl

parse_rate_unit : Text.parse rate_rounding_unit ≡ ok (pos 1)
unfolding Text.parse Text.trim Text.parse_trimmed Text.parse_unsigned Text.scan Text.scan_char
    Text.build Text.push_digits Text.push_digit Text.rounds_up Text.fit_fraction checked_add
    checked_mul
parse_rate_unit = refl

from_integer-one : Decimal.from_integer (pos 1) ≡ ok (pos scale_factor)
unfolding Decimal.from_integer
from_integer-one = refl

add_small : (a b : ℕ) → a < 10 ^ 30 → b < 10 ^ 30 → Decimal.add (pos a) (pos b) ≡ ok (pos (a + b))
unfolding ◌+ℤ◌
add_small a b ha hb = ground (arith, add-eq (pos a) (pos b))

abbrev hundredfold : ℕ → ℕ
hundredfold x = half_even (100 * x) scale_factor

abbrev onefold : ℕ → ℕ
onefold x = half_even (1 * x) scale_factor

hundredfold-bounds :
    (x : ℕ) → 10 ^ 10 ≤ x → x < 10 ^ 24 → (100 ≤ hundredfold x) × (hundredfold x < 10 ^ 29)
hundredfold-bounds x lo hi =
    let r = half_even-HalfEven (100 * x) scale_factor (omega arith) in
    let above = r.above in let below = r.below in (omega arith, omega arith)

onefold-bound : (x : ℕ) → x < 10 ^ 24 → onefold x < 10 ^ 29
onefold-bound x hi =
    let r = half_even-HalfEven (1 * x) scale_factor (omega arith) in
    let below = r.below in omega arith

multiply_amount_unit :
    (x : ℕ)
    → 10 ^ 10 ≤ x
    → x < 10 ^ 24
    → Decimal.multiply (pos 100) (pos x) ≡ ok (pos (hundredfold x))
multiply_amount_unit x lo hi =
    let bounds = hundredfold-bounds x lo hi in
    let small : ltb (100 * x) u128_mod ≡ true = lt→ltb _ _ (omega arith) in
    let fits : ltb value_limit (hundredfold x) ≡ false = le→ltb_false _ _ (omega (arith, bounds)) in
    multiply-eq (pos 100) (pos x) ∙ rw (small, fits) refl

multiply_rate_unit : (x : ℕ) → x < 10 ^ 24 → Decimal.multiply (pos 1) (pos x) ≡ ok (pos (onefold x))
multiply_rate_unit x hi =
    let bound = onefold-bound x hi in
    let small : ltb (1 * x) u128_mod ≡ true = lt→ltb _ _ (omega arith) in
    let fits : ltb value_limit (onefold x) ≡ false = le→ltb_false _ _ (omega (arith, bound)) in
    multiply-eq (pos 1) (pos x) ∙ rw (small, fits) refl

abs_pos : (n : ℕ) → Decimal.abs (pos n) ≡ pos n
unfolding Decimal.abs
abs_pos n = ground arith

-- The tolerance of amounts and rates that fit their columns is at least one unit of an amount.
pub tolerance_for-large :
    (o r : ℕ)
    → o < 10 ^ 22
    → r < 10 ^ 20
    → (t : ℕ) × (tolerance_for (pos o) (pos r) ≡ ok (pos t)) × (100 ≤ t)
unfolding tolerance_for
tolerance_for-large o r ho hr =
    let rate_plus = r + scale_factor in
    let out_plus = o + scale_factor in
    let rate_bounds = hundredfold-bounds rate_plus (omega arith) (omega arith) in
    let out_bound = onefold-bound out_plus (omega arith) in
    (
      hundredfold rate_plus + onefold out_plus,
      rw
          (
            parse_amount_unit,
            parse_rate_unit,
            from_integer-one,
            abs_pos r,
            add_small r scale_factor (omega arith) (omega arith),
            multiply_amount_unit rate_plus (omega arith) (omega arith),
            abs_pos o,
            add_small o scale_factor (omega arith) (omega arith),
            multiply_rate_unit out_plus (omega arith),
          )
          (add_small (hundredfold rate_plus) (onefold out_plus) (omega (arith, rate_bounds))
            (omega (arith, out_bound))),
      omega (arith, rate_bounds),
    )
