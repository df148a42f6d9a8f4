-- ===== src/Domain/ExchangeRate/Source.antt =====
-- src/domain/exchange_rate.cpp: the label of an inverted rate.
use personal_finance_hub.Prelude.{
  ◌-◌, ◌≡◌, ap, true, false, ◌++◌, length, length-append, take, drop, Bytes, bytes_eq_refl, arith,
  ℕ, List, [], ◌∷◌, zero, suc, le→leb,
}
use personal_finance_hub.Domain.ExchangeRate.{suffix, ends_with, inverted_source}

module _ {ℓ} {A : Type ℓ} where
  drop-append : (xs ys : List A) (n : ℕ) → n ≡ length xs → drop n (xs ++ ys) ≡ ys
  drop-append [] ys n e = rw e
  drop-append (x ∷ xs) ys zero e = absurd (omega arith)
  drop-append (x ∷ xs) ys (suc n) e = drop-append xs ys n (omega arith)

  take-append : (xs ys : List A) (n : ℕ) → n ≡ length xs → take n (xs ++ ys) ≡ xs
  take-append [] ys n e = rw e
  take-append (x ∷ xs) ys zero e = absurd (omega arith)
  take-append (x ∷ xs) ys (suc n) e = ap (◌∷◌ x) (take-append xs ys n (omega arith))

ends_with-append : (s : Bytes) → ends_with (s ++ suffix) suffix ≡ true
unfolding ends_with
ends_with-append s =
    let len = length-append s suffix in
    let n : length (s ++ suffix) - length suffix ≡ length s = omega (arith, len) in
    rw
      (drop-append s suffix _ n, le→leb (length suffix) (length (s ++ suffix)) (omega (arith, len)))
      (bytes_eq_refl suffix)

-- Inverting the label twice restores a label that does not already end in the suffix.
pub inverted_source-twice :
    (s : Bytes) → ends_with s suffix ≡ false → inverted_source (inverted_source s) ≡ s
unfolding inverted_source
inverted_source-twice s fresh =
    let len = length-append s suffix in
    let n : length (s ++ suffix) - length suffix ≡ length s = omega (arith, len) in
    rw (fresh, ends_with-append s) (take-append s suffix _ n)
