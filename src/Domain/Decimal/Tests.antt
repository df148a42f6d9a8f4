-- ===== src/Domain/Decimal/Tests.antt =====
-- Runs of src/domain/decimal.cpp at concrete values, and its theorems at concrete inputs.
use personal_finance_hub.Prelude.{◌≡◌, refl, bytes, arith}
use personal_finance_hub.Prelude.Int.{pos, negsuc, ◌+ℤ◌}
use personal_finance_hub.Domain.Error.{ok, err, overflow}
use personal_finance_hub.Domain.Decimal.{
  checked_add, checked_mul, storage_max, scale_factor, add, multiply, divide,
}
use personal_finance_hub.Domain.Decimal.Checked.{add-eq}
use personal_finance_hub.Domain.Decimal.Division.{multiply-eq, divide-eq}
use personal_finance_hub.Domain.Decimal.Text.{
  parse, to_string, trim, parse_trimmed, parse_unsigned, scan, scan_char, build, push_digits,
  push_digit, rounds_up, fit_fraction, fraction_text, fraction_digits, u128_to_string, digits_loop,
  strip_zeros,
}
use personal_finance_hub.Domain.Decimal.Text.RoundTrip.{parse-to_string}

parse_negative : parse (bytes "  -12.34 ") ≡ ok (negsuc 123399999999)
unfolding parse trim parse_trimmed parse_unsigned scan scan_char build push_digits push_digit
    rounds_up fit_fraction checked_add checked_mul
parse_negative = refl

print_negative : to_string (negsuc 123399999999) ≡ bytes "-12.34"
unfolding to_string fraction_text fraction_digits u128_to_string digits_loop strip_zeros
print_negative = refl

-- Halfway beyond the tenth digit goes to the even neighbour.
parse_tie : parse (bytes "0.00000000015") ≡ ok (pos 2)
unfolding parse trim parse_trimmed parse_unsigned scan scan_char build push_digits push_digit
    rounds_up fit_fraction checked_add checked_mul
parse_tie = refl

parse-to_string_example : parse (to_string (negsuc 123399999999)) ≡ ok (negsuc 123399999999)
parse-to_string_example = parse-to_string (negsuc 123399999999) (omega arith)

add-eq_example : add (pos storage_max) (pos 1) ≡ err overflow
unfolding ◌+ℤ◌
add-eq_example =
    add-eq (pos storage_max) (pos 1) (omega arith, omega arith) (omega arith, omega arith)

-- 1.5 * 2.5 = 3.75
multiply-eq_example : multiply (pos 15000000000) (pos 25000000000) ≡ ok (pos 37500000000)
multiply-eq_example = multiply-eq (pos 15000000000) (pos 25000000000)

-- 1 / 3 = 0.3333333333
divide-eq_example : divide (pos scale_factor) (pos 30000000000) ≡ ok (pos 3333333333)
divide-eq_example = divide-eq (pos scale_factor) (pos 30000000000) (omega arith, omega arith)
