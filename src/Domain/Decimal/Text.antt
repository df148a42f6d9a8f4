-- ===== src/Domain/Decimal/Text.antt =====
-- src/domain/decimal.cpp: Decimal::parse with its NUMERIC variants, and Decimal::to_string, over
-- the bytes of a text. A loop over characters is a recursion on them.
pub mod Digits
pub mod Reading
pub mod RoundTrip
use personal_finance_hub.Prelude.{
  ℕ, zero, suc, ◌+◌, ◌-◌, ◌/◌, ◌%◌, Bool, true, false, not, ◌&&◌, ◌||◌, Option, none, some, List,
  [], ◌∷◌, ◌++◌, length, take, drop, replicate, Bytes, ltb, leb, ◌==◌, if◌then◌else◌,
}
use personal_finance_hub.Prelude.Int.{ℤ, pos, is_neg, magnitude, negate, ltb_ℤ, eqb_ℤ}
use personal_finance_hub.Domain.Error.{
  DomainResult, ok, err, ◌>>=◌, ◌>>◌, reject_if, or_fail, overflow, parse_error, invalid_amount,
  invalid_exchange_rate,
}
use personal_finance_hub.Domain.Decimal.{
  Decimal, scale, scale_factor, value_limit, checked_add, checked_mul, fits_numeric_20_8,
  fits_numeric_20_10,
}

abbrev pub is_blank : ℕ → Bool
is_blank c = c == b' ' || c == 9

unfoldable pub trim_left : Bytes → Bytes
trim_left [] = []
trim_left (c ∷ cs) = elim (is_blank c) [ true ↦ trim_left cs | false ↦ c ∷ cs ]

abbrev pub is_empty : Bytes → Bool
is_empty [] = true
is_empty (c ∷ cs) = false

unfoldable pub trim_right : Bytes → Bytes
trim_right [] = []
trim_right (c ∷ cs) =
    let rest = trim_right cs in if is_empty rest && is_blank c then [] else c ∷ rest

unfoldable pub trim : Bytes → Bytes
unfolding trim_left trim_right
trim text = trim_right (trim_left text)

pub record Scan : Type 0 where
  pub int_part : Bytes
  pub frac_part : Bytes
  pub seen_dot : Bool
  pub seen_digit : Bool

abbrev pub scan_start : Scan
scan_start = record { int_part = []; frac_part = []; seen_dot = false; seen_digit = false }

abbrev pub is_digit : ℕ → Bool
is_digit c = leb b'0' c && leb c b'9'

abbrev push_back : Scan → ℕ → Scan
push_back s c =
    if s.seen_dot
    then record s { frac_part = s.frac_part ++ c ∷ []; seen_digit = true }
    else record s { int_part = s.int_part ++ c ∷ []; seen_digit = true }

unfoldable pub scan_char : Scan → ℕ → DomainResult Scan
scan_char s c =
    if c == b'.'
    then if s.seen_dot then err parse_error else ok (record s { seen_dot = true })
    else if is_digit c
    then ok (push_back s c)
    else err parse_error

unfoldable pub scan : Bytes → Scan → DomainResult Scan
scan [] s = ok s
scan (c ∷ cs) s = scan_char s c >>= scan cs

unfoldable pub any_nonzero : Bytes → Bool
any_nonzero [] = false
any_nonzero (c ∷ cs) = not (c == b'0') || any_nonzero cs

abbrev last_kept : Bytes → ℕ
last_kept frac = elim (drop (scale - 1) frac) [ [] ↦ b'0' | c ∷ _ ↦ c ]

-- Whether the digits beyond the scale round the kept ones up.
unfoldable pub rounds_up : Bytes → Bool
unfolding any_nonzero
rounds_up frac = elim (drop scale frac) [
  | [] ↦ false
  | first ∷ rest ↦
      if ltb b'5' first || (first == b'5' && any_nonzero rest)
      then true
      else first == b'5' && not ((last_kept frac - b'0') % 2 == 0)
]

unfoldable pub fit_fraction : Bytes → Bytes
fit_fraction frac =
    if ltb scale (length frac)
    then take scale frac
    else frac ++ replicate (scale - length frac) b'0'

unfoldable pub push_digit : ℤ → ℕ → Option ℤ
push_digit m c = elim (checked_mul m (pos 10)) [
  | none ↦ none
  | some tmp ↦ checked_add tmp (pos (c - b'0'))
]

unfoldable pub push_digits : Bytes → ℤ → DomainResult ℤ
push_digits [] m = ok m
push_digits (c ∷ cs) m = or_fail (push_digit m c) overflow >>= push_digits cs

unfoldable pub build : Bool → Bytes → Bytes → DomainResult Decimal
build negative int_part frac_part = do
  whole ← push_digits int_part (pos 0)
  scaled ← push_digits (fit_fraction frac_part) whole
  m ← if rounds_up frac_part then or_fail (checked_add scaled (pos 1)) overflow else ok scaled
  reject_if (ltb_ℤ (pos value_limit) m) overflow
  ok (if negative then negate m else m)

unfoldable pub parse_unsigned : Bool → Bytes → DomainResult Decimal
parse_unsigned negative [] = err parse_error
parse_unsigned negative (c ∷ cs) = do
  s ← scan (c ∷ cs) scan_start
  reject_if (not s.seen_digit) parse_error
  build negative s.int_part s.frac_part

unfoldable pub parse_trimmed : Bytes → DomainResult Decimal
parse_trimmed [] = err parse_error
parse_trimmed (c ∷ cs) = parse_unsigned (c == b'-') (if c == b'+' || c == b'-' then cs else c ∷ cs)

unfoldable pub parse : Bytes → DomainResult Decimal
parse text = parse_trimmed (trim text)

-- The text behind the first dot, if there is one.
unfoldable pub after_dot : Bytes → Option Bytes
after_dot [] = none
after_dot (c ∷ cs) = let rest = after_dot cs in if c == b'.' then some cs else rest

unfoldable pub strip_zeros : Bytes → Bytes
strip_zeros [] = []
strip_zeros (c ∷ cs) =
    let rest = strip_zeros cs in if is_empty rest && c == b'0' then [] else c ∷ rest

unfoldable pub significant_fractional_digits : Bytes → ℕ
unfolding after_dot strip_zeros
significant_fractional_digits text = elim (after_dot (trim text)) [
  | none ↦ 0
  | some frac ↦ length (strip_zeros frac)
]

unfoldable pub parse_numeric_20_8 : Bytes → DomainResult Decimal
parse_numeric_20_8 text = do
  parsed ← parse text
  reject_if (ltb 8 (significant_fractional_digits text)) invalid_amount
  reject_if (not (fits_numeric_20_8 parsed)) invalid_amount
  ok parsed

unfoldable pub parse_numeric_20_10 : Bytes → DomainResult Decimal
parse_numeric_20_10 text = do
  parsed ← parse text
  reject_if (ltb 10 (significant_fractional_digits text)) invalid_exchange_rate
  reject_if (not (fits_numeric_20_10 parsed)) invalid_exchange_rate
  ok parsed

-- The `while` loop of `u128_to_string`: its buffer of 40 characters is the fuel.
unfoldable pub digits_loop : ℕ → ℕ → Bytes → Bytes
digits_loop zero v buf = buf
digits_loop (suc left) v buf =
    let more = digits_loop left (v / 10) ((b'0' + v % 10) ∷ buf) in if v == 0 then buf else more

unfoldable pub u128_to_string : ℕ → Bytes
u128_to_string v = if v == 0 then b'0' ∷ [] else digits_loop 40 v []

-- The fraction of `to_string`: padded to the scale, its zeros at the end dropped.
unfoldable pub fraction_digits : ℕ → Bytes
fraction_digits frac =
    let digits = u128_to_string frac in
    strip_zeros (replicate (scale - length digits) b'0' ++ digits)

unfoldable pub fraction_text : ℕ → Bytes
fraction_text frac =
    if frac == 0
    then []
    else if is_empty (fraction_digits frac)
    then []
    else b'.' ∷ fraction_digits frac

unfoldable pub to_string : Decimal → Bytes
to_string v =
    let m = magnitude v in
    let text = u128_to_string (m / scale_factor) ++ fraction_text (m % scale_factor) in
    if eqb_ℤ v (pos 0) then b'0' ∷ [] else if is_neg v then b'-' ∷ text else text
