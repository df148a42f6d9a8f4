-- ===== src/Domain/Decimal/Text/Reading.antt =====
-- src/domain/decimal.cpp: what `parse` reads from an integer part and a fraction that it need not round.
use mathlib.Core.List.{append-nil, append_assoc}
use personal_finance_hub.Prelude.{
  ℕ, zero, suc, ◌+◌, ◌-◌, ◌*◌, ◌≤◌, ◌≡◌, refl, ap, ◌∙◌, Bool, true, false, List, [], ◌∷◌, ◌++◌,
  length, drop, replicate, All, Bytes, arith, ltb, if◌then◌else◌,
}
use personal_finance_hub.Prelude.Int.{pos, negate, ltb_ℤ}
use personal_finance_hub.Domain.Error.{ok}
use personal_finance_hub.Domain.Decimal.{value_limit, scale, scale_factor}
use personal_finance_hub.Domain.Decimal.Text.{
  Scan, scan, scan_char, build, rounds_up, fit_fraction, parse_unsigned,
}
use personal_finance_hub.Domain.Decimal.Text.Digits.{
  value_from, value_from-shift, IsDigit, push_digits-eq,
}

-- The state of a scan before and behind the dot.
abbrev in_int : Bytes → Bool → Scan
in_int i seen = record { int_part = i; frac_part = []; seen_dot = false; seen_digit = seen }

abbrev in_frac : Bytes → Bytes → Scan
in_frac i f = record { int_part = i; frac_part = f; seen_dot = true; seen_digit = true }

scan_char-int :
    (c : ℕ) (i : Bytes) (seen : Bool)
    → IsDigit c
    → scan_char (in_int i seen) c ≡ ok (in_int (i ++ c ∷ []) true)
unfolding scan_char
scan_char-int c i seen d = ground arith

scan_char-frac :
    (c : ℕ) (i f : Bytes) → IsDigit c → scan_char (in_frac i f) c ≡ ok (in_frac i (f ++ c ∷ []))
unfolding scan_char
scan_char-frac c i f d = ground arith

scan_char-dot : (i : Bytes) → scan_char (in_int i true) b'.' ≡ ok (in_frac i [])
unfolding scan_char
scan_char-dot i = refl

scan_int :
    (xs rest i : Bytes)
    → All IsDigit xs
    → scan (xs ++ rest) (in_int i true) ≡ scan rest (in_int (i ++ xs) true)
unfolding scan
scan_int [] rest i d = rw (append-nil i)
scan_int (c ∷ xs) rest i d = rw (scan_char-int c i true d.0) (
    scan_int xs rest (i ++ c ∷ []) d.1
    ∙ ap (λ t. scan rest (in_int t true)) (append_assoc i (c ∷ []) xs))

scan_frac : (xs i f : Bytes) → All IsDigit xs → scan xs (in_frac i f) ≡ ok (in_frac i (f ++ xs))
unfolding scan
scan_frac [] i f d = rw (append-nil f)
scan_frac (c ∷ xs) i f d =
    rw (scan_char-frac c i f d.0)
      (scan_frac xs i (f ++ c ∷ []) d.1 ∙ ap (λ t. ok (in_frac i t)) (append_assoc f (c ∷ []) xs))

-- The fraction with its dot, if there is any.
abbrev pub dotted : Bytes → Bytes
dotted [] = []
dotted (c ∷ cs) = b'.' ∷ c ∷ cs

pub parse_unsigned-eq :
    (negative : Bool) (c : ℕ) (i f : Bytes)
    → All IsDigit (c ∷ i)
    → All IsDigit f
    → parse_unsigned negative ((c ∷ i) ++ dotted f) ≡ build negative (c ∷ i) f
unfolding parse_unsigned scan
parse_unsigned-eq negative c i [] di df =
    rw (append-nil i, scan_char-int c [] false di.0)
      (rw (← append-nil i) (rw (scan_int i [] (c ∷ []) di.1) (rw (append-nil i))))
parse_unsigned-eq negative c i (f ∷ fs) di df = rw (scan_char-int c [] false di.0) (
    rw (scan_int i (dotted (f ∷ fs)) (c ∷ []) di.1)
      (rw (scan_char-dot (c ∷ i)) (rw (scan_frac (f ∷ fs) (c ∷ i) [] df))))

pub fit_fraction-short :
    (f p : Bytes)
    → length f ≤ scale
    → f ++ replicate (scale - length f) b'0' ≡ p
    → fit_fraction f ≡ p
unfolding fit_fraction
fit_fraction-short f p h e = let short : ltb scale (length f) ≡ false = ground arith in rw short e

drop-all {ℓ} : {A : Type ℓ} (n : ℕ) (xs : List A) → length xs ≤ n → drop n xs ≡ []
drop-all zero [] h = refl
drop-all zero (x ∷ xs) h = absurd (omega arith)
drop-all (suc n) [] h = refl
drop-all (suc n) (x ∷ xs) h = drop-all n xs (omega arith)

rounds_up-short : (f : Bytes) → length f ≤ scale → rounds_up f ≡ false
unfolding rounds_up
rounds_up-short f h = rw (drop-all scale f h, rounds_up)

-- The value built from an integer part and a padded fraction that need no rounding.
pub build-eq :
    (negative : Bool) (i f p : Bytes) (n k : ℕ)
    → All IsDigit i
    → value_from 0 i ≡ n
    → length f ≤ scale
    → fit_fraction f ≡ p
    → All IsDigit p
    → length p ≡ scale
    → value_from 0 p ≡ k
    → n * scale_factor + k ≤ value_limit
    → build negative i f
      ≡ ok (if negative then negate (pos (n * scale_factor + k)) else pos (n * scale_factor + k))
unfolding build
build-eq negative i f p n k di vi short fit dp len vp bound =
    let whole : value_from n p ≡ n * scale_factor + k =
      value_from-shift n p ∙ (rw (len, vp) refl) in
    rw
      (
        push_digits-eq i 0 di (omega (arith, vi)),
        vi,
        fit,
        push_digits-eq p n dp (omega (arith, whole)),
        whole,
        rounds_up-short f short,
      )
      (let within : ltb_ℤ (pos value_limit) (pos (n * scale_factor + k)) ≡ false = ground arith in
        rw within)
