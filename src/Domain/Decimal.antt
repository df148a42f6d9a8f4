-- ===== src/Domain/Decimal.antt =====
-- include/pfh/domain/decimal.h and src/domain/decimal.cpp: fixed-point numbers of scale 10 over a
-- signed 128-bit integer. A Decimal is its one field, the scaled integer. Storage values are
-- integers, UStorage values are natural numbers, and every unsigned operation that can wrap is
-- taken modulo 2^128. Negating the least Storage value is undefined in C++; here it gives 2^127.
pub mod Rounding
pub mod Checked
pub mod Sums
pub mod Division
pub mod Scale
pub mod Fits
pub mod Text
mod Tests
use personal_finance_hub.Prelude.{
  ℕ, zero, suc, ◌+◌, ◌-◌, ◌*◌, ◌/◌, ◌%◌, ◌^◌, Bool, false, not, ◌&&◌, ◌||◌, xor, Option, none, some,
  ltb, leb, ◌==◌, if◌then◌else◌,
}
use personal_finance_hub.Prelude.Int.{
  ℤ, pos, negsuc, is_neg, magnitude, negate, with_sign, ltb_ℤ, eqb_ℤ,
}
use personal_finance_hub.Domain.Error.{
  DomainResult, ok, err, ◌>>◌, reject_if, or_fail, overflow, division_by_zero, invalid_amount,
}

abbrev pub Decimal : Type 0
Decimal = ℤ

abbrev pub scale : ℕ
scale = 10

abbrev pub scale_factor : ℕ
scale_factor = 10000000000

-- 2^128, the modulus of UStorage.
abbrev pub u128_mod : ℕ
u128_mod = 2 ^ 128

abbrev pub storage_max : ℕ
storage_max = 2 ^ 127 - 1

-- kInt128Max
abbrev pub value_limit : ℕ
value_limit = 2 ^ 126

-- The two's complement pattern of a Storage value, and back.
abbrev pub to_unsigned : ℤ → ℕ
to_unsigned (pos n) = n
to_unsigned (negsuc n) = u128_mod - suc n

abbrev pub to_signed : ℕ → ℤ
to_signed u = if leb u storage_max then pos u else negsuc (u128_mod - 1 - u)

-- The range check of `checked_mul` on the wrapped product.
unfoldable pub place_product : Bool → ℕ → Option ℤ
place_product negative product =
    if negative
    then if product == storage_max + 1
      then some (negsuc storage_max)
      else if ltb storage_max product
      then none
      else some (negate (pos product))
    else if ltb storage_max product
    then none
    else some (pos product)

unfoldable pub checked_mul : ℤ → ℤ → Option ℤ
unfolding place_product
checked_mul a b =
    let ua = magnitude a in
    let ub = magnitude b in
    let product = (ua * ub) % u128_mod in
    if eqb_ℤ a (pos 0) || eqb_ℤ b (pos 0)
    then some (pos 0)
    else if not (product / ub == ua)
    then none
    else place_product (xor (is_neg a) (is_neg b)) product

-- The sign bit of `(a ^ result) & (b ^ result)` is set if both operands' signs differ from the
-- result's.
unfoldable pub checked_add : ℤ → ℤ → Option ℤ
checked_add a b =
    let result = to_signed ((to_unsigned a + to_unsigned b) % u128_mod) in
    if xor (is_neg a) (is_neg result) && xor (is_neg b) (is_neg result) then none else some result

unfoldable pub from_integer : ℤ → DomainResult Decimal
unfolding checked_mul
from_integer value = or_fail (checked_mul value (pos scale_factor)) overflow

unfoldable pub add : Decimal → Decimal → DomainResult Decimal
unfolding checked_add
add a b = or_fail (checked_add a b) overflow

unfoldable pub subtract : Decimal → Decimal → DomainResult Decimal
unfolding checked_add
subtract a b = do
  reject_if (eqb_ℤ b (negsuc storage_max)) overflow
  or_fail (checked_add a (negate b)) overflow

-- The half-even step of `multiply`, which compares the remainder with half the divisor.
abbrev pub round_at_half : ℕ → ℕ → ℕ → ℕ
round_at_half quotient remainder half =
    if ltb half remainder || (remainder == half && not (quotient % 2 == 0))
    then quotient + 1
    else quotient

-- The half-even step of `divide` and `round_to_scale`, which compares twice the remainder.
abbrev pub round_at_twice : ℕ → ℕ → ℕ → ℕ
round_at_twice quotient twice_rem den =
    if ltb den twice_rem || (twice_rem == den && not (quotient % 2 == 0))
    then quotient + 1
    else quotient

-- The range check and the sign at the end of `multiply` and `divide`.
abbrev pub signed_result : Bool → ℕ → DomainResult Decimal
signed_result negative quotient =
    if ltb value_limit quotient then err overflow else ok (with_sign negative quotient)

unfoldable pub multiply : Decimal → Decimal → DomainResult Decimal
multiply a b =
    let lhs = magnitude a in
    let rhs = magnitude b in
    let product = (lhs * rhs) % u128_mod in
    let rounded =
      round_at_half (product / scale_factor) (product % scale_factor) (scale_factor / 2) in
    if not (lhs == 0) && not (rhs == 0)
    then if not (product / rhs == lhs)
      then err overflow
      else signed_result (xor (is_neg a) (is_neg b)) rounded
    else ok (pos 0)

unfoldable pub divide : Decimal → Decimal → DomainResult Decimal
divide a b =
    let num = magnitude a in
    let den = magnitude b in
    let scaled_num = (num * scale_factor) % u128_mod in
    let rounded = round_at_twice (scaled_num / den) ((scaled_num % den * 2) % u128_mod) den in
    if eqb_ℤ b (pos 0)
    then err division_by_zero
    else if eqb_ℤ a (pos 0)
    then ok (pos 0)
    else if not (scaled_num / scale_factor == num)
    then err overflow
    else signed_result (xor (is_neg a) (is_neg b)) rounded

-- `for (i = digits; i < kScale; ++i) factor *= 10`, on the rounds left.
unfoldable pub power_loop : ℕ → ℕ → ℕ
power_loop zero factor = factor
power_loop (suc k) factor = power_loop k (factor * 10)

unfoldable pub round_to_scale : Decimal → ℤ → DomainResult Decimal
unfolding power_loop
round_to_scale v digits =
    let factor = power_loop (scale - magnitude digits) 1 in
    let m = magnitude v in
    let quotient = round_at_twice (m / factor) ((m % factor * 2) % u128_mod) factor in
    let rounded = (quotient * factor) % u128_mod in
    if ltb_ℤ digits (pos 0) || ltb_ℤ (pos scale) digits
    then err invalid_amount
    else if eqb_ℤ digits (pos scale) || eqb_ℤ v (pos 0)
    then ok v
    else if ltb storage_max rounded
    then err overflow
    else ok (with_sign (is_neg v) rounded)

unfoldable pub negated : Decimal → Decimal
negated v = negate v

unfoldable pub abs : Decimal → Decimal
abs v = if ltb_ℤ v (pos 0) then negate v else v

unfoldable pub is_zero : Decimal → Bool
is_zero v = eqb_ℤ v (pos 0)

unfoldable pub is_negative : Decimal → Bool
is_negative v = ltb_ℤ v (pos 0)

unfoldable pub is_positive : Decimal → Bool
is_positive v = ltb_ℤ (pos 0) v

-- The `while` loop of `fractional_digits_used`, on the trailing zeros that may still be counted.
unfoldable pub trailing_zeros : ℕ → ℕ → ℕ
trailing_zeros zero v = 0
trailing_zeros (suc left) v =
    let more = suc (trailing_zeros left (v / 10)) in if v % 10 == 0 then more else 0

unfoldable pub fractional_digits_used : ℕ → ℕ
unfolding trailing_zeros
fractional_digits_used m = if m == 0 then 0 else scale - trailing_zeros scale m

unfoldable pub fits_numeric : ℤ → ℕ → ℕ → Bool
unfolding fractional_digits_used power_loop
fits_numeric value precision digits =
    if ltb digits (fractional_digits_used (magnitude value))
    then false
    else ltb (magnitude value / scale_factor) (power_loop (precision - digits) 1)

unfoldable pub fits_numeric_20_8 : Decimal → Bool
unfolding fits_numeric
fits_numeric_20_8 v = fits_numeric v 20 8

unfoldable pub fits_numeric_20_10 : Decimal → Bool
unfolding fits_numeric
fits_numeric_20_10 v = fits_numeric v 20 10
