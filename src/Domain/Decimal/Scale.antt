-- ===== src/Domain/Decimal/Scale.antt =====
-- src/domain/decimal.cpp: round_to_scale rounds half to even to a multiple of its unit.
use native.Mathlib.Nat.{pow-suc, one-le-pow, pow-le-pow_right, mod-eq_of_lt, mul-one, zero-mul}
use personal_finance_hub.Prelude.{
  ℕ, zero, suc, ◌+◌, ◌-◌, ◌*◌, ◌^◌, ◌≤◌, ◌<◌, ◌≡◌, refl, inl, inr, ◌||◌, false, arith, ltb, ◌==◌,
  if◌then◌else◌, Bool-cases, ==_iff,
}
use personal_finance_hub.Prelude.Int.{
  ℤ, pos, negsuc, magnitude, is_neg, with_sign, eqb_ℤ, eqb_ℤ→eq, ltb_ℤ,
}
use personal_finance_hub.Domain.Error.{DomainResult, ok, err, overflow}
use personal_finance_hub.Domain.Decimal.{
  Decimal, u128_mod, storage_max, scale, scale_factor, round_to_scale, power_loop,
}
use personal_finance_hub.Domain.Decimal.Division.{twice_fits, half_even-zero}
use personal_finance_hub.Domain.Decimal.Rounding.{half_even, half_even-HalfEven}

power_loop-eq : (k f : ℕ) → power_loop k f ≡ f * 10 ^ k
unfolding power_loop
power_loop-eq zero f = grind arith
power_loop-eq (suc k) f = rw (power_loop-eq k (f * 10)) (rw (pow-suc 10 k) (grind arith))

power_loop-one : (k : ℕ) → power_loop k 1 ≡ 10 ^ k
power_loop-one k = omega (arith, power_loop-eq k 1)

-- The factor of a rounding to `digits` fractional digits.
abbrev pub unit_at : ℕ → ℕ
unit_at digits = 10 ^ (scale - digits)

unit_at_bounds : (k : ℕ) → k ≤ 10 → (0 < 10 ^ k) × (10 ^ k ≤ scale_factor)
unit_at_bounds k h = (one-le-pow k 10 (omega arith), pow-le-pow_right {n = 10} (omega arith) h)

with_sign-magnitude : (v : ℤ) → with_sign (is_neg v) (magnitude v) ≡ v
with_sign-magnitude (pos n) = refl
with_sign-magnitude (negsuc n) = refl

half_even-one : (m : ℕ) → half_even m 1 ≡ m
half_even-one m = ground arith

half_even-mul-le : (m f : ℕ) → 0 < f → half_even m f * f ≤ m + f
half_even-mul-le m f h = let r = half_even-HalfEven m f h in grind (arith, r.below)

-- The result of a rounding, without any wrapping.
abbrev pub rounded_value : Decimal → ℕ → DomainResult Decimal
rounded_value v unit =
    let m = half_even (magnitude v) unit * unit in
    if ltb storage_max m then err overflow else ok (with_sign (is_neg v) m)

round_inner :
    (v : Decimal) (digits : ℕ)
    → digits < scale
    → magnitude v ≤ storage_max
    → eqb_ℤ v (pos 0) ≡ false
    → round_to_scale v (pos digits) ≡ rounded_value v (unit_at digits)
unfolding round_to_scale
round_inner v digits h bound nz =
    let (some_unit, small_unit) = unit_at_bounds (scale - digits) (omega arith) in
    let bound' = half_even-mul-le (magnitude v) (unit_at digits) some_unit in
    let in_range : (ltb_ℤ (pos digits) (pos 0) || ltb_ℤ (pos scale) (pos digits)) ≡ false =
      ground arith in
    let inner : eqb_ℤ (pos digits) (pos scale) ≡ false = ground arith in
    rw (
      in_range,
      inner,
      nz,
      power_loop-one (scale - digits),
      twice_fits (magnitude v) (unit_at digits) some_unit (omega arith),
      mod-eq_of_lt {n = half_even (magnitude v) (unit_at digits) * unit_at digits} {m = u128_mod}
          (omega arith),
    )

round_whole :
    (v : Decimal) → magnitude v ≤ storage_max → round_to_scale v (pos scale) ≡ rounded_value v 1
unfolding round_to_scale
round_whole v bound =
    rw (half_even-one (magnitude v))
      (rw (mul-one (magnitude v)) (rw (with_sign-magnitude v) (ground arith)))

round_zero :
    (digits : ℕ)
    → digits ≤ scale
    → round_to_scale (pos 0) (pos digits) ≡ rounded_value (pos 0) (unit_at digits)
unfolding round_to_scale
round_zero digits h =
    let in_range : (ltb_ℤ (pos digits) (pos 0) || ltb_ℤ (pos scale) (pos digits)) ≡ false =
      ground arith in
    rw (in_range, half_even-zero (unit_at digits)) (rw (zero-mul (unit_at digits)) (ground arith))

-- Rounding to a scale of at most ten digits gives the nearest multiple of its unit, to even at a
-- tie, with the sign kept, and is refused exactly when that leaves 128 bits.
pub round_to_scale-eq :
    (v : Decimal) (digits : ℕ)
    → digits ≤ scale
    → magnitude v ≤ storage_max
    → round_to_scale v (pos digits) ≡ rounded_value v (unit_at digits)
round_to_scale-eq v digits h bound = elim (Bool-cases (eqb_ℤ v (pos 0))) [
  | inl z ↦ rw (eqb_ℤ→eq v (pos 0) z) (round_zero digits h)
  | inr nz ↦ elim (Bool-cases (digits == scale)) [
    | inl whole ↦ rw ((==_iff digits scale).0 whole) (round_whole v bound)
    | inr inner ↦ round_inner v digits (ground arith) bound nz
  ]
]
