-- ===== src/Domain/Decimal/Checked.antt =====
-- src/domain/decimal.cpp: the overflow checks of 128-bit sums and products are exact.
use personal_finance_hub.Prelude.{
  ℕ, zero, suc, ◌+◌, ◌*◌, ◌/◌, ◌%◌, ◌≤◌, ◌<◌, ◌≡◌, refl, inl, inr, Bool, true, false, not, ◌&&◌,
  some, none, arith, leb, ltb, ◌==◌, if◌then◌else◌, Bool-cases, ==_iff, ==-ne, xor,
}
use personal_finance_hub.Prelude.Int.{
  ℤ, pos, negsuc, pos_part, neg_part, magnitude, negate, is_neg, with_sign, eqb_ℤ, eqb_ℤ→eq, ◌+ℤ◌,
  ◌-ℤ◌, ◌*ℤ◌,
}
use personal_finance_hub.Domain.Error.{ok, err, overflow}
use personal_finance_hub.Domain.Decimal.{
  Decimal, u128_mod, storage_max, checked_add, checked_mul, place_product, add, subtract,
}
use personal_finance_hub.Domain.Decimal.Rounding.{wrapped_product_fits, wrapped_product_overflows}

-- The values of a signed 128-bit integer.
abbrev pub in_storage : ℤ → Bool
in_storage v = leb (pos_part v) storage_max && leb (neg_part v) (storage_max + 1)

abbrev pub InStorage : ℤ → Type 0
InStorage v = (pos_part v ≤ storage_max) × (neg_part v ≤ storage_max + 1)

pub checked_add-eq :
    (a b : ℤ)
    → InStorage a
    → InStorage b
    → checked_add a b ≡ (if in_storage (a +ℤ b) then some (a +ℤ b) else none)
unfolding checked_add ◌+ℤ◌
checked_add-eq (pos a) (pos b) ha hb = ground arith
checked_add-eq (pos a) (negsuc b) ha hb = ground arith
checked_add-eq (negsuc a) (pos b) ha hb = ground arith
checked_add-eq (negsuc a) (negsuc b) ha hb = ground arith

-- The sum is returned exactly when it fits 128 bits, and is refused as an overflow otherwise.
pub add-eq :
    (a b : Decimal)
    → InStorage a
    → InStorage b
    → add a b ≡ (if in_storage (a +ℤ b) then ok (a +ℤ b) else err overflow)
unfolding add
add-eq a b ha hb = ground (arith, checked_add-eq a b ha hb)

negate-InStorage :
    (b : ℤ) → InStorage b → eqb_ℤ b (negsuc storage_max) ≡ false → InStorage (negate b)
negate-InStorage (pos zero) h e = ground arith
negate-InStorage (pos (suc n)) h e = ground arith
negate-InStorage (negsuc n) h e = ground arith

+ℤ_negate : (a b : ℤ) → a +ℤ negate b ≡ a -ℤ b
unfolding ◌+ℤ◌ ◌-ℤ◌
+ℤ_negate a (pos zero) = refl
+ℤ_negate a (pos (suc n)) = refl
+ℤ_negate a (negsuc n) = refl

-- A difference is returned exactly when it fits 128 bits and the subtrahend is not the least value.
pub subtract-eq :
    (a b : Decimal)
    → InStorage a
    → InStorage b
    → subtract a b ≡ (
        if in_storage (a -ℤ b) && not (eqb_ℤ b (negsuc storage_max))
        then ok (a -ℤ b)
        else err overflow)
unfolding subtract
subtract-eq a b ha hb = elim (Bool-cases (eqb_ℤ b (negsuc storage_max))) [
  | inl least ↦ ground arith
  | inr other ↦
      rw (other, checked_add-eq a (negate b) ha (negate-InStorage b hb other), +ℤ_negate a b)
        (ground arith)
]

place_product-eq :
    (negative : Bool) (m : ℕ)
    → place_product negative m
      ≡ (if in_storage (with_sign negative m) then some (with_sign negative m) else none)
unfolding place_product
place_product-eq true zero = ground arith
place_product-eq true (suc m) = ground arith
place_product-eq false m = ground arith

with_sign_above :
    (negative : Bool) (m : ℕ) → u128_mod ≤ m → in_storage (with_sign negative m) ≡ false
with_sign_above true zero h = absurd (omega arith)
with_sign_above true (suc m) h = ground arith
with_sign_above false m h = ground arith

checked_product-eq :
    (negative : Bool) (ua ub : ℕ)
    → 0 < ub
    → (if not ((ua * ub) % u128_mod / ub == ua)
        then none
        else place_product negative ((ua * ub) % u128_mod))
      ≡ (if in_storage (with_sign negative (ua * ub))
          then some (with_sign negative (ua * ub))
          else none)
checked_product-eq negative ua ub h = elim (Bool-cases (ltb (ua * ub) u128_mod)) [
  | inl fit ↦
      let (whole, back) = wrapped_product_fits ua ub u128_mod h (ground arith) in
      rw (back, whole, (==_iff ua ua).1 refl) (place_product-eq negative (ua * ub))
  | inr over ↦ rw (
    with_sign_above negative (ua * ub) (ground arith),
    ==-ne _ _ (wrapped_product_overflows ua ub u128_mod (omega arith) (ground arith)),
  )
]

checked_mul-zero :
    (b : ℤ) → checked_mul (pos 0) b ≡ (if in_storage (pos 0 *ℤ b) then some (pos 0 *ℤ b) else none)
unfolding checked_mul ◌*ℤ◌
checked_mul-zero (pos n) = ground arith
checked_mul-zero (negsuc n) = ground arith

checked_mul-zero_right :
    (a : ℤ) → checked_mul a (pos 0) ≡ (if in_storage (a *ℤ pos 0) then some (a *ℤ pos 0) else none)
unfolding checked_mul ◌*ℤ◌
checked_mul-zero_right (pos n) = ground arith
checked_mul-zero_right (negsuc n) = ground arith

checked_mul-product :
    (a b : ℤ)
    → eqb_ℤ a (pos 0) ≡ false
    → eqb_ℤ b (pos 0) ≡ false
    → checked_mul a b ≡ (if in_storage (a *ℤ b) then some (a *ℤ b) else none)
unfolding checked_mul ◌*ℤ◌
checked_mul-product a b ha hb =
    rw (ha, hb)
      (checked_product-eq (xor (is_neg a) (is_neg b)) (magnitude a) (magnitude b) (ground arith))

-- The product is returned exactly when it fits 128 bits.
pub checked_mul-eq :
    (a b : ℤ) → checked_mul a b ≡ (if in_storage (a *ℤ b) then some (a *ℤ b) else none)
checked_mul-eq a b = elim (Bool-cases (eqb_ℤ a (pos 0))) [
  | inl az ↦ rw (eqb_ℤ→eq a (pos 0) az) (checked_mul-zero b)
  | inr an ↦ elim (Bool-cases (eqb_ℤ b (pos 0))) [
    | inl bz ↦ rw (eqb_ℤ→eq b (pos 0) bz) (checked_mul-zero_right a)
    | inr bn ↦ checked_mul-product a b an bn
  ]
]
