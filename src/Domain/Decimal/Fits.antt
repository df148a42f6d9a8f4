-- ===== src/Domain/Decimal/Fits.antt =====
-- src/domain/decimal.cpp: what fits the NUMERIC(20,8) and NUMERIC(20,10) columns, as arithmetic on
-- the scaled magnitude, and that a rounding to eight digits always meets the column's scale.
use personal_finance_hub.Prelude.{
  ℕ, zero, suc, ◌*◌, ◌%◌, ◌^◌, ◌≤◌, ◌≡◌, refl, sym, ◌∙◌, inl, inr, Bool-cases, Bool, true, false,
  ◌&&◌, arith, leb, ltb, ◌==◌, if◌then◌else◌,
}
use personal_finance_hub.Prelude.Int.{pos, magnitude, with_sign, is_neg}
use personal_finance_hub.Domain.Error.{ok, ok-injective, err-ne-ok}
use personal_finance_hub.Domain.Decimal.{
  Decimal, scale, storage_max, trailing_zeros, fractional_digits_used, fits_numeric_20_8,
  fits_numeric_20_10, round_to_scale,
}
use personal_finance_hub.Domain.Decimal.Scale.{rounded_value, round_to_scale-eq}
use personal_finance_hub.Domain.Decimal.Rounding.{half_even}

digits-le-scale : (m : ℕ) → fractional_digits_used m ≤ scale
unfolding fractional_digits_used
digits-le-scale m = ground arith

-- At least two zeros at the end are exactly divisibility by 100.
two_zeros : (left m : ℕ) → leb 2 (trailing_zeros (suc (suc left)) m) ≡ (m % 100 == 0)
unfolding trailing_zeros
two_zeros left m = ground arith

uses_eight : (m : ℕ) → ltb 8 (fractional_digits_used m) ≡ (if m % 100 == 0 then false else true)
unfolding fractional_digits_used
uses_eight m = ground (arith, two_zeros 8 m)

-- A value fits NUMERIC(20,8) exactly when its scaled magnitude is a multiple of 100 below 10^22.
pub fits_numeric_20_8-eq :
    (v : Decimal) → fits_numeric_20_8 v ≡ (magnitude v % 100 == 0 && ltb (magnitude v) (10 ^ 22))
unfolding fits_numeric_20_8
fits_numeric_20_8-eq v = ground (arith, uses_eight (magnitude v))

-- A value fits NUMERIC(20,10) exactly when its scaled magnitude is below 10^20.
pub fits_numeric_20_10-eq : (v : Decimal) → fits_numeric_20_10 v ≡ ltb (magnitude v) (10 ^ 20)
unfolding fits_numeric_20_10
fits_numeric_20_10-eq v = ground (arith, digits-le-scale (magnitude v))

magnitude-with_sign : (negative : Bool) (m : ℕ) → magnitude (with_sign negative m) ≡ m
magnitude-with_sign true zero = refl
magnitude-with_sign true (suc m) = refl
magnitude-with_sign false m = refl

rounded_value-magnitude :
    (v w : Decimal) (unit : ℕ)
    → rounded_value v unit ≡ ok w
    → magnitude w ≡ half_even (magnitude v) unit * unit
rounded_value-magnitude v w unit e =
    elim (Bool-cases (ltb storage_max (half_even (magnitude v) unit * unit))) [
      | inl over ↦ absurd (err-ne-ok (rw over at e))
      | inr fit ↦
          rw (← ok-injective (rw fit at e))
            (magnitude-with_sign (is_neg v) (half_even (magnitude v) unit * unit))
    ]

-- What rounding to eight digits returns has no digit below 10^-8.
pub round_to_scale_eight :
    (v w : Decimal)
    → magnitude v ≤ storage_max
    → round_to_scale v (pos 8) ≡ ok w
    → (magnitude w ≡ half_even (magnitude v) 100 * 100) × (magnitude w % 100 ≡ 0)
round_to_scale_eight v w h e =
    let result : rounded_value v 100 ≡ ok w = sym (round_to_scale-eq v 8 (omega arith) h) ∙ e in
    let m = rounded_value-magnitude v w 100 result in (m, omega (arith, m))
