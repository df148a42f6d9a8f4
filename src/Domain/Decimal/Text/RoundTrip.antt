-- ===== src/Domain/Decimal/Text/RoundTrip.antt =====
-- src/domain/decimal.cpp: parsing what `to_string` prints gives the value back.
use mathlib.Core.Path.{subst}
use personal_finance_hub.Prelude.{
  ℕ, zero, suc, ◌-◌, ◌/◌, ◌%◌, ◌≤◌, ◌<◌, ◌≡◌, refl, sym, ap, ◌∙◌, inl, inr, Bool, true, false, ◌&&◌,
  ◌||◌, [], ◌∷◌, ◌++◌, length, replicate, All, Bytes, arith, ◌==◌, if◌then◌else◌, Bool-cases,
  length-append, length-replicate, All-append, All-replicate, All-weaken, ==_iff,
}
use personal_finance_hub.Prelude.Int.{pos, negsuc, magnitude, negate, eqb_ℤ}
use personal_finance_hub.Domain.Error.{ok}
use personal_finance_hub.Domain.Decimal.{Decimal, value_limit, scale, scale_factor}
use personal_finance_hub.Domain.Decimal.Text.{
  is_blank, is_empty, trim, trim_left, trim_right, fit_fraction, parse_unsigned, parse_trimmed,
  parse, strip_zeros, u128_to_string, fraction_digits, fraction_text, to_string,
}
use personal_finance_hub.Domain.Decimal.Text.Reading.{
  dotted, parse_unsigned-eq, fit_fraction-short, build-eq,
}
use personal_finance_hub.Domain.Decimal.Text.Digits.{
  value_from, value_from-zeros, value_from-u128_to_string, IsDigit, u128_to_string-IsDigit,
  length-u128_to_string, length-u128_to_string_pos, strip_zeros-padded,
}

strip_zeros-IsDigit : (xs : Bytes) → All IsDigit xs → All IsDigit (strip_zeros xs)
unfolding strip_zeros
strip_zeros-IsDigit [] d = tt
strip_zeros-IsDigit (c ∷ xs) d = elim (Bool-cases (is_empty (strip_zeros xs) && c == b'0')) [
  | inl drops ↦ rw drops tt
  | inr keeps ↦ rw keeps (d.0, strip_zeros-IsDigit xs d.1)
]

length-strip_zeros : (xs : Bytes) → length (strip_zeros xs) ≤ length xs
unfolding strip_zeros
length-strip_zeros [] = omega arith
length-strip_zeros (c ∷ xs) = elim (Bool-cases (is_empty (strip_zeros xs) && c == b'0')) [
  | inl drops ↦ rw drops (omega arith)
  | inr keeps ↦ rw keeps (omega (arith, length-strip_zeros xs))
]

-- What a text for the fraction `k` must be for `parse` to read `k` back: the printed digits `f`,
-- and `p`, the same padded to the scale.
record IsFraction (k : ℕ) (f p : Bytes) : Type 0 where
  digits : All IsDigit f
  short : length f ≤ scale
  fit : fit_fraction f ≡ p
  padded_digits : All IsDigit p
  padded_length : length p ≡ scale
  padded_value : value_from 0 p ≡ k

abbrev padded : ℕ → Bytes
padded k = replicate (scale - length (u128_to_string k)) b'0' ++ u128_to_string k

padded-IsDigit : (k : ℕ) → All IsDigit (padded k)
padded-IsDigit k =
    All-append IsDigit _ _ (All-replicate IsDigit (scale - length (u128_to_string k)) b'0' refl)
      (u128_to_string-IsDigit k)

length-padded : (k : ℕ) → k < scale_factor → length (padded k) ≡ scale
length-padded k h = omega (
  arith,
  length-append (replicate (scale - length (u128_to_string k)) b'0') (u128_to_string k),
  length-replicate {A = ℕ} (scale - length (u128_to_string k)) b'0',
  length-u128_to_string 10 k (omega arith) h,
)

fraction_digits-IsFraction :
    (k : ℕ) → k < scale_factor → IsFraction k (fraction_digits k) (padded k)
unfolding fraction_digits
fraction_digits-IsFraction k h =
    let len = length-padded k h in
    let short : length (strip_zeros (padded k)) ≤ scale =
      omega (arith, len, length-strip_zeros (padded k)) in
    record {
      digits = strip_zeros-IsDigit (padded k) (padded-IsDigit k);
      short = short;
      fit = fit_fraction-short _ _ short (strip_zeros-padded (padded k) scale len);
      padded_digits = padded-IsDigit k;
      padded_length = len;
      padded_value =
          value_from-zeros (scale - length (u128_to_string k)) (u128_to_string k)
          ∙ value_from-u128_to_string k (omega arith);
    }

nil-IsFraction : IsFraction 0 [] (replicate scale b'0')
nil-IsFraction = record {
  digits = tt;
  short = omega arith;
  fit = fit_fraction-short [] (replicate scale b'0') (omega arith) refl;
  padded_digits = All-replicate IsDigit scale b'0' refl;
  padded_length = refl;
  padded_value = refl;
}

fraction_text-dotted : (k : ℕ) → (k == 0) ≡ false → fraction_text k ≡ dotted (fraction_digits k)
unfolding fraction_text
fraction_text-dotted k nz = rw nz (cases (fraction_digits k))
  where
    cases : (f : Bytes) → (if is_empty f then [] else b'.' ∷ f) ≡ dotted f
    cases [] = refl
    cases (c ∷ f) = refl

-- The text of every fraction reads back as that fraction.
fraction_text-IsFraction :
    (k : ℕ)
    → k < scale_factor
    → (f : Bytes) × (p : Bytes) × (fraction_text k ≡ dotted f) × IsFraction k f p
fraction_text-IsFraction k h = elim (Bool-cases (k == 0)) [
  | inl z ↦
      let e = (==_iff k 0).0 z in
      ([], replicate scale b'0', rw e (unfold fraction_text in refl), rw e nil-IsFraction)
  | inr nz ↦
      (fraction_digits k, padded k, fraction_text-dotted k nz, fraction_digits-IsFraction k h)
]

abbrev NotBlank : ℕ → Type 0
NotBlank c = is_blank c ≡ false

IsDigit-NotBlank : (c : ℕ) → IsDigit c → NotBlank c
IsDigit-NotBlank c d = ground arith

trim_right-eq : (xs : Bytes) → All NotBlank xs → trim_right xs ≡ xs
unfolding trim_right
trim_right-eq [] h = refl
trim_right-eq (c ∷ xs) h = rw (trim_right-eq xs h.1, h.0) (cases (is_empty xs))
  where
    cases : (b : Bool) → (if b && false then [] else c ∷ xs) ≡ c ∷ xs
    cases true = refl
    cases false = refl

trim_left-eq : (c : ℕ) (xs : Bytes) → NotBlank c → trim_left (c ∷ xs) ≡ c ∷ xs
unfolding trim_left
trim_left-eq c xs h = rw (h, trim_left)

trim-eq : (xs : Bytes) → All NotBlank xs → trim xs ≡ xs
unfolding trim
trim-eq [] h = refl
trim-eq (c ∷ xs) h = rw (trim_left-eq c xs h.0) (trim_right-eq (c ∷ xs) h)

dotted-NotBlank : (f : Bytes) → All IsDigit f → All NotBlank (dotted f)
dotted-NotBlank [] d = tt
dotted-NotBlank (c ∷ f) d = (refl, All-weaken IsDigit NotBlank IsDigit-NotBlank (c ∷ f) d)

-- The printed magnitude, without its sign.
abbrev magnitude_text : ℕ → Bytes
magnitude_text m = u128_to_string (m / scale_factor) ++ fraction_text (m % scale_factor)

magnitude_text-NotBlank : (m : ℕ) → All NotBlank (magnitude_text m)
magnitude_text-NotBlank m =
    let (f, p, text, ok_fraction) = fraction_text-IsFraction (m % scale_factor) (omega arith) in
    All-append NotBlank _ _
      (All-weaken IsDigit NotBlank IsDigit-NotBlank (u128_to_string (m / scale_factor))
        (u128_to_string-IsDigit (m / scale_factor)))
      (rw text (dotted-NotBlank f ok_fraction.digits))

read_magnitude :
    (negative : Bool) (m : ℕ) (i f : Bytes)
    → m ≤ value_limit
    → i ≡ u128_to_string (m / scale_factor)
    → fraction_text (m % scale_factor) ≡ dotted f
    → (p : Bytes) → IsFraction (m % scale_factor) f p
    → parse_unsigned negative (i ++ dotted f) ≡ ok (if negative then negate (pos m) else pos m)
read_magnitude negative m [] f h e text p fr =
    absurd (omega (arith, ap length e, length-u128_to_string_pos (m / scale_factor)))
read_magnitude negative m (c ∷ i) f h e text p fr =
    let di : All IsDigit (c ∷ i) =
      subst (All IsDigit) (sym e) (u128_to_string-IsDigit (m / scale_factor)) in
    parse_unsigned-eq negative c i f di fr.digits
    ∙ (build-eq negative (c ∷ i) f p (m / scale_factor) (m % scale_factor) di
          (ap (value_from 0) e ∙ value_from-u128_to_string (m / scale_factor) (omega arith))
          fr.short fr.fit fr.padded_digits fr.padded_length fr.padded_value (omega arith)
        ∙ ap (λ t. ok (if negative then negate (pos t) else pos t)) (omega arith))

read_unsigned :
    (negative : Bool) (m : ℕ)
    → m ≤ value_limit
    → parse_unsigned negative (magnitude_text m) ≡ ok (if negative then negate (pos m) else pos m)
read_unsigned negative m h =
    let (f, p, text, fr) = fraction_text-IsFraction (m % scale_factor) (omega arith) in
    ap (λ t. parse_unsigned negative (u128_to_string (m / scale_factor) ++ t)) text
    ∙ read_magnitude negative m (u128_to_string (m / scale_factor)) f h refl text p fr

digit_sign :
    (c : ℕ) (xs : Bytes)
    → IsDigit c
    → parse_unsigned (c == b'-') (if c == b'+' || c == b'-' then xs else c ∷ xs)
      ≡ parse_unsigned false (c ∷ xs)
digit_sign c xs d =
    let plus : (c == b'+') ≡ false = ground arith in
    let minus : (c == b'-') ≡ false = ground arith in rw (plus, minus)

-- A text that begins with a digit is read without a sign.
parse_trimmed-digit :
    (xs ys : Bytes)
    → All IsDigit xs
    → 0 < length xs
    → parse_trimmed (xs ++ ys) ≡ parse_unsigned false (xs ++ ys)
unfolding parse_trimmed
parse_trimmed-digit [] ys d h = absurd (omega arith)
parse_trimmed-digit (c ∷ xs) ys d h = digit_sign c (xs ++ ys) d.0

read_pos : (m : ℕ) → m ≤ value_limit → parse (magnitude_text m) ≡ ok (pos m)
unfolding parse
read_pos m h = rw (trim-eq (magnitude_text m) (magnitude_text-NotBlank m)) (
    parse_trimmed-digit (u128_to_string (m / scale_factor)) (fraction_text (m % scale_factor))
      (u128_to_string-IsDigit (m / scale_factor)) (length-u128_to_string_pos (m / scale_factor))
    ∙ read_unsigned false m h)

read_neg : (m : ℕ) → m ≤ value_limit → parse (b'-' ∷ magnitude_text m) ≡ ok (negate (pos m))
unfolding parse parse_trimmed
read_neg m h =
    rw (trim-eq (b'-' ∷ magnitude_text m) (refl, magnitude_text-NotBlank m))
      (read_unsigned true m h)

parse_zero : parse (b'0' ∷ []) ≡ ok (pos 0)
unfolding u128_to_string fraction_text
parse_zero = read_pos 0 (omega arith)

-- A value of magnitude at most 2^126 is printed as a text that parses to the same value.
pub parse-to_string : (v : Decimal) → magnitude v ≤ value_limit → parse (to_string v) ≡ ok v
unfolding to_string
parse-to_string (pos zero) h = parse_zero
parse-to_string (pos (suc n)) h =
    let nz : eqb_ℤ (pos (suc n)) (pos 0) ≡ false = ground arith in rw nz (read_pos (suc n) h)
parse-to_string (negsuc n) h =
    let nz : eqb_ℤ (negsuc n) (pos 0) ≡ false = ground arith in rw nz (read_neg (suc n) h)
