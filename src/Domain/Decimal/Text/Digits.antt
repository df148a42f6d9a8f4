-- ===== src/Domain/Decimal/Text/Digits.antt =====
-- src/domain/decimal.cpp: what runs of digits stand for, and what the loops of `parse` and
-- `to_string` do with them.
use native.Mathlib.Nat.{pow-suc, pow-zero}
use personal_finance_hub.Prelude.{
  ℕ, zero, suc, ◌+◌, ◌-◌, ◌*◌, ◌/◌, ◌%◌, ◌^◌, ◌≤◌, ◌<◌, ◌≡◌, refl, ap, ◌∙◌, inl, inr, true, false,
  ◌&&◌, some, [], ◌∷◌, ◌++◌, length, replicate, All, Bytes, arith, ◌==◌, Bool-cases, ==_iff,
}
use personal_finance_hub.Prelude.Int.{pos, ◌+ℤ◌, ◌*ℤ◌}
use personal_finance_hub.Domain.Error.{ok}
use personal_finance_hub.Domain.Decimal.{storage_max, checked_add, checked_mul}
use personal_finance_hub.Domain.Decimal.Checked.{checked_add-eq, checked_mul-eq}
use personal_finance_hub.Domain.Decimal.Text.{
  is_digit, push_digit, push_digits, strip_zeros, is_empty, digits_loop, u128_to_string,
}

-- The number that a run of digits continues `m` with.
abbrev pub value_from : ℕ → Bytes → ℕ
value_from m [] = m
value_from m (c ∷ cs) = value_from (m * 10 + (c - b'0')) cs

abbrev pub IsDigit : ℕ → Type 0
IsDigit c = is_digit c ≡ true

pub value_from-append :
    (m : ℕ) (xs ys : Bytes) → value_from m (xs ++ ys) ≡ value_from (value_from m xs) ys
value_from-append m [] ys = refl
value_from-append m (c ∷ xs) ys = value_from-append (m * 10 + (c - b'0')) xs ys

pub value_from-zeros :
    (k : ℕ) (ys : Bytes) → value_from 0 (replicate k b'0' ++ ys) ≡ value_from 0 ys
value_from-zeros zero ys = refl
value_from-zeros (suc k) ys = value_from-zeros k ys

pub value_from-shift : (m : ℕ) (xs : Bytes) → value_from m xs ≡ m * 10 ^ length xs + value_from 0 xs
value_from-shift m [] = grind arith
value_from-shift m (c ∷ xs) = rw (pow-suc 10 (length xs)) (
    grind
      (arith, value_from-shift (m * 10 + (c - b'0')) xs, value_from-shift (0 * 10 + (c - b'0')) xs))

le-value_from : (m : ℕ) (xs : Bytes) → m ≤ value_from m xs
le-value_from m [] = omega arith
le-value_from m (c ∷ xs) = omega (arith, le-value_from (m * 10 + (c - b'0')) xs)

times_ten : (m : ℕ) → m * 10 ≤ storage_max → checked_mul (pos m) (pos 10) ≡ some (pos (m * 10))
unfolding ◌*ℤ◌
times_ten m h = ground (arith, checked_mul-eq (pos m) (pos 10))

plus_digit : (m d : ℕ) → m + d ≤ storage_max → checked_add (pos m) (pos d) ≡ some (pos (m + d))
unfolding ◌+ℤ◌
plus_digit m d h =
    ground
      (arith, checked_add-eq (pos m) (pos d) (omega arith, omega arith) (omega arith, omega arith))

push_digit-eq :
    (m c : ℕ)
    → IsDigit c
    → m * 10 + (c - b'0') ≤ storage_max
    → push_digit (pos m) c ≡ some (pos (m * 10 + (c - b'0')))
unfolding push_digit
push_digit-eq m c d h =
    rw (times_ten m (omega arith), push_digit) (plus_digit (m * 10) (c - b'0') h)

pub push_digits-eq :
    (xs : Bytes) (m : ℕ)
    → All IsDigit xs
    → value_from m xs ≤ storage_max
    → push_digits xs (pos m) ≡ ok (pos (value_from m xs))
unfolding push_digits
push_digits-eq [] m d h = refl
push_digits-eq (c ∷ xs) m d h =
    rw (push_digit-eq m c d.0 (omega (arith, le-value_from (m * 10 + (c - b'0')) xs)))
      (push_digits-eq xs (m * 10 + (c - b'0')) d.1 h)

-- The digits written before `buf` stand for `v`.
value_from-digits_loop :
    (left v : ℕ) (buf : Bytes)
    → v < 10 ^ left
    → value_from 0 (digits_loop left v buf) ≡ value_from v buf
unfolding digits_loop
value_from-digits_loop zero v buf h = ap (λ t. value_from t buf) (omega (arith, pow-zero 10))
value_from-digits_loop (suc left) v buf h = elim (Bool-cases (v == 0)) [
  | inl done ↦ rw done (ap (λ t. value_from t buf) (ground arith))
  | inr more ↦ rw more (
      value_from-digits_loop left (v / 10) ((b'0' + v % 10) ∷ buf) (omega (arith, pow-suc 10 left))
      ∙ ap (λ t. value_from t buf) (omega arith))
]

pub value_from-u128_to_string : (v : ℕ) → v < 10 ^ 40 → value_from 0 (u128_to_string v) ≡ v
unfolding u128_to_string
value_from-u128_to_string v h = elim (Bool-cases (v == 0)) [
  | inl z ↦ rw z (ground arith)
  | inr nz ↦ rw nz (value_from-digits_loop 40 v [] h)
]

last-IsDigit : (r : ℕ) → IsDigit (b'0' + r % 10)
last-IsDigit r = ground arith

digits_loop-IsDigit :
    (left v : ℕ) (buf : Bytes) → All IsDigit buf → All IsDigit (digits_loop left v buf)
unfolding digits_loop
digits_loop-IsDigit zero v buf d = d
digits_loop-IsDigit (suc left) v buf d = elim (Bool-cases (v == 0)) [
  | inl done ↦ rw done d
  | inr more ↦
      rw more (digits_loop-IsDigit left (v / 10) ((b'0' + v % 10) ∷ buf) (last-IsDigit v, d))
]

pub u128_to_string-IsDigit : (v : ℕ) → All IsDigit (u128_to_string v)
unfolding u128_to_string
u128_to_string-IsDigit v = elim (Bool-cases (v == 0)) [
  | inl z ↦ rw z (refl, tt)
  | inr nz ↦ rw nz (digits_loop-IsDigit 40 v [] tt)
]

length-digits_loop :
    (left k v : ℕ) (buf : Bytes) → v < 10 ^ k → length (digits_loop left v buf) ≤ k + length buf
unfolding digits_loop
length-digits_loop zero k v buf h = omega arith
length-digits_loop (suc left) zero v buf h =
    let z : (v == 0) ≡ true = (==_iff v 0).1 (omega (arith, pow-zero 10)) in rw z (omega arith)
length-digits_loop (suc left) (suc k) v buf h = elim (Bool-cases (v == 0)) [
  | inl done ↦ rw done (omega arith)
  | inr more ↦ rw more (
      omega (
        arith,
        length-digits_loop left k (v / 10) ((b'0' + v % 10) ∷ buf) (omega (arith, pow-suc 10 k)),
      ))
]

-- A number below 10^k has at most k digits, and one at least.
pub length-u128_to_string : (k v : ℕ) → 0 < k → v < 10 ^ k → length (u128_to_string v) ≤ k
unfolding u128_to_string
length-u128_to_string k v some_digit h = elim (Bool-cases (v == 0)) [
  | inl z ↦ rw z (omega arith)
  | inr nz ↦ rw nz (omega (arith, length-digits_loop 40 k v [] h))
]

le-length-digits_loop : (left v : ℕ) (buf : Bytes) → length buf ≤ length (digits_loop left v buf)
unfolding digits_loop
le-length-digits_loop zero v buf = omega arith
le-length-digits_loop (suc left) v buf = elim (Bool-cases (v == 0)) [
  | inl done ↦ rw done (omega arith)
  | inr more ↦ rw more (omega (arith, le-length-digits_loop left (v / 10) ((b'0' + v % 10) ∷ buf)))
]

digits_loop-pos : (left v : ℕ) → (v == 0) ≡ false → 0 < length (digits_loop (suc left) v [])
unfolding digits_loop
digits_loop-pos left v nz =
    rw nz (omega (arith, le-length-digits_loop left (v / 10) ((b'0' + v % 10) ∷ [])))

pub length-u128_to_string_pos : (v : ℕ) → 0 < length (u128_to_string v)
unfolding u128_to_string
length-u128_to_string_pos v = elim (Bool-cases (v == 0)) [
  | inl z ↦ rw z (omega arith)
  | inr nz ↦ rw nz (digits_loop-pos 39 v nz)
]

all_dropped :
    (c n : ℕ) (xs ys : Bytes)
    → (is_empty ys && c == b'0') ≡ true
    → ys ++ replicate (n - length ys) b'0' ≡ xs
    → replicate (suc n - 0) b'0' ≡ c ∷ xs
all_dropped c n xs [] z e =
    let outer : suc n - 0 ≡ suc n = omega arith in
    let inner : n ≡ n - 0 = omega arith in
    let zero_digit : b'0' ≡ c = ground arith in
    ap (λ t. replicate t b'0') outer
    ∙ (ap (◌∷◌ b'0') (ap (λ t. replicate t b'0') inner ∙ e) ∙ ap (λ t. t ∷ xs) zero_digit)
all_dropped c n xs (y ∷ ys) z e = cc

-- Dropped zeros come back when the text is padded to its length.
pub strip_zeros-padded :
    (xs : Bytes) (n : ℕ)
    → length xs ≡ n
    → strip_zeros xs ++ replicate (n - length (strip_zeros xs)) b'0' ≡ xs
unfolding strip_zeros
strip_zeros-padded [] zero h = refl
strip_zeros-padded (c ∷ xs) zero h = absurd (omega arith)
strip_zeros-padded [] (suc n) h = absurd (omega arith)
strip_zeros-padded (c ∷ xs) (suc n) h = elim (Bool-cases (is_empty (strip_zeros xs) && c == b'0')) [
  | inl drops ↦
      rw drops (all_dropped c n xs (strip_zeros xs) drops (strip_zeros-padded xs n (omega arith)))
  | inr keeps ↦ rw keeps (
      ap (λ t. c ∷ (strip_zeros xs ++ replicate t b'0')) (omega arith)
      ∙ ap (◌∷◌ c) (strip_zeros-padded xs n (omega arith)))
]
