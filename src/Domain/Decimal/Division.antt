-- ===== src/Domain/Decimal/Division.antt =====
-- src/domain/decimal.cpp: multiply, divide and round_to_scale round half to even, and refuse
-- exactly what leaves their range.
use mathlib.Core.Path.{subst}
use native.Mathlib.Nat.{mod-eq_of_lt, mod-lt, zero-div, zero-mod}
use personal_finance_hub.Prelude.{
  ℕ, ◌+◌, ◌*◌, ◌/◌, ◌%◌, ◌≤◌, ◌<◌, ◌≡◌, refl, sym, ap, ◌∙◌, ◌⊎◌, inl, inr, Bool, true, false, arith,
  ltb, ◌==◌, ==_iff, ==-ne, if◌then◌else◌, Bool-cases, xor,
}
use personal_finance_hub.Prelude.Int.{pos, magnitude, is_neg, with_sign, eqb_ℤ}
use personal_finance_hub.Domain.Error.{DomainResult, ok, err, overflow, division_by_zero}
use personal_finance_hub.Domain.Decimal.{
  Decimal, u128_mod, storage_max, scale_factor, multiply, divide, signed_result, round_at_half,
  round_at_twice,
}
use personal_finance_hub.Domain.Decimal.Checked.{InStorage}
use personal_finance_hub.Domain.Decimal.Rounding.{
  half_even, wrapped_product_fits, wrapped_product_overflows,
}

-- A rounded magnitude with its sign, if the exact value did not wrap and the result is in range.
abbrev pub range_checked : ℕ → Bool → ℕ → DomainResult Decimal
range_checked exact negative rounded =
    if ltb exact u128_mod then signed_result negative rounded else err overflow

round_at_half-eq :
    (q r : ℕ) → round_at_half q r (scale_factor / 2) ≡ round_at_twice q (r * 2) scale_factor
round_at_half-eq q r = ground arith

multiply-product :
    (a b : Decimal)
    → (magnitude a == 0) ≡ false
    → (magnitude b == 0) ≡ false
    → multiply a b
      ≡ range_checked
          (magnitude a * magnitude b)
          (xor (is_neg a) (is_neg b))
          (half_even (magnitude a * magnitude b) scale_factor)
unfolding multiply
multiply-product a b ha hb = elim (Bool-cases (ltb (magnitude a * magnitude b) u128_mod)) [
  | inl fit ↦
      let (whole, back) =
        wrapped_product_fits (magnitude a) (magnitude b) u128_mod (ground arith) (ground arith) in
      rw (
        ha,
        hb,
        back,
        whole,
        (==_iff (magnitude a) (magnitude a)).1 refl,
        fit,
        round_at_half-eq (magnitude a * magnitude b / scale_factor)
            (magnitude a * magnitude b % scale_factor),
      )
  | inr over ↦ rw (
    ha,
    hb,
    over,
    ==-ne _ _ (
        wrapped_product_overflows (magnitude a) (magnitude b) u128_mod (omega arith)
          (ground arith)),
  )
]

multiply-zero :
    (a b : Decimal)
    → ((magnitude a == 0) ≡ true) ⊎ ((magnitude b == 0) ≡ true)
    → multiply a b ≡ ok (pos 0)
unfolding multiply
multiply-zero a b h = ground arith

with_sign-zero : (negative : Bool) → with_sign negative 0 ≡ pos 0
with_sign-zero true = refl
with_sign-zero false = refl

pub half_even-zero : (d : ℕ) → half_even 0 d ≡ 0
half_even-zero d = ground (arith, zero-div d, zero-mod d)

range_checked-zero :
    (exact d : ℕ) (negative : Bool)
    → exact ≡ 0
    → range_checked exact negative (half_even exact d) ≡ ok (pos 0)
range_checked-zero exact d negative e =
    subst (λ t. range_checked t negative (half_even t d) ≡ ok (pos 0)) (sym e)
      (subst (λ t. range_checked 0 negative t ≡ ok (pos 0)) (sym (half_even-zero d))
        (ap ok (with_sign-zero negative)))

-- The product of two decimals is the exact one divided by the scale factor, rounded half to even;
-- it is refused exactly when the raw product wraps or the result is above 2^126.
pub multiply-eq :
    (a b : Decimal)
    → multiply a b
      ≡ range_checked
          (magnitude a * magnitude b)
          (xor (is_neg a) (is_neg b))
          (half_even (magnitude a * magnitude b) scale_factor)
multiply-eq a b = elim (Bool-cases (magnitude a == 0)) [
  | inl az ↦ multiply-zero a b (inl az) ∙ sym (zero_product (grind arith))
  | inr an ↦ elim (Bool-cases (magnitude b == 0)) [
    | inl bz ↦ multiply-zero a b (inr bz) ∙ sym (zero_product (grind arith))
    | inr bn ↦ multiply-product a b an bn
  ]
]
  where
    zero_product :
        magnitude a * magnitude b ≡ 0
        → range_checked
            (magnitude a * magnitude b)
            (xor (is_neg a) (is_neg b))
            (half_even (magnitude a * magnitude b) scale_factor)
          ≡ ok (pos 0)
    zero_product e =
        range_checked-zero (magnitude a * magnitude b) scale_factor (xor (is_neg a) (is_neg b)) e

pub twice_fits : (n d : ℕ) → 0 < d → d ≤ storage_max + 1 → (n % d * 2) % u128_mod ≡ n % d * 2
twice_fits n d pos_d h = mod-eq_of_lt (omega (arith, mod-lt n pos_d))

divide_by_zero : (a b : Decimal) → eqb_ℤ b (pos 0) ≡ true → divide a b ≡ err division_by_zero
unfolding divide
divide_by_zero a b bz = rw bz

divide_zero :
    (a b : Decimal) → eqb_ℤ a (pos 0) ≡ true → eqb_ℤ b (pos 0) ≡ false → divide a b ≡ ok (pos 0)
unfolding divide
divide_zero a b az bn = rw (az, bn)

divide-quotient :
    (a b : Decimal)
    → InStorage b
    → eqb_ℤ a (pos 0) ≡ false
    → eqb_ℤ b (pos 0) ≡ false
    → divide a b
      ≡ range_checked
          (magnitude a * scale_factor)
          (xor (is_neg a) (is_neg b))
          (half_even (magnitude a * scale_factor) (magnitude b))
unfolding divide
divide-quotient a b hb an bn = elim (Bool-cases (ltb (magnitude a * scale_factor) u128_mod)) [
  | inl fit ↦
      let (whole, back) =
        wrapped_product_fits (magnitude a) scale_factor u128_mod (omega arith) (ground arith) in
      rw (
        an,
        bn,
        back,
        whole,
        (==_iff (magnitude a) (magnitude a)).1 refl,
        fit,
        twice_fits (magnitude a * scale_factor) (magnitude b) (ground arith) (ground arith),
      )
  | inr over ↦ rw (
    an,
    bn,
    over,
    ==-ne _ _ (
        wrapped_product_overflows (magnitude a) scale_factor u128_mod (omega arith) (ground arith)),
  )
]

-- The quotient of two decimals is the exact one times the scale factor, rounded half to even; it
-- is refused exactly for the divisor zero, and when the scaled numerator wraps or the result is
-- above 2^126.
pub divide-eq :
    (a b : Decimal)
    → InStorage b
    → divide a b ≡ (
        if eqb_ℤ b (pos 0)
        then err division_by_zero
        else range_checked
            (magnitude a * scale_factor)
            (xor (is_neg a) (is_neg b))
            (half_even (magnitude a * scale_factor) (magnitude b)))
divide-eq a b hb = elim (Bool-cases (eqb_ℤ b (pos 0))) [
  | inl bz ↦ rw (divide_by_zero a b bz, bz)
  | inr bn ↦ elim (Bool-cases (eqb_ℤ a (pos 0))) [
    | inl az ↦
        rw (bn, divide_zero a b az bn)
          (sym (
            range_checked-zero (magnitude a * scale_factor) (magnitude b)
              (xor (is_neg a) (is_neg b)) (ground arith)))
    | inr an ↦ rw (divide-quotient a b hb an bn, bn)
  ]
]
