-- ===== src/Domain/ExchangeRate/Rates.antt =====
-- src/domain/exchange_rate.cpp and src/domain/currency_conversion_service.cpp: the invariant of a
-- rate, and the exact results of inverting, crossing and converting.
use mathlib.Core.Path.{subst}
use personal_finance_hub.Prelude.{
  ℕ, zero, suc, ◌+◌, ◌*◌, ◌^◌, ◌≤◌, ◌<◌, ◌≡◌, refl, sym, ap, ◌∙◌, inl, inr, Bool, true, false, not,
  ◌&&◌, ◌||◌, Bytes, bytes, bytes_eq, bytes_eq→eq, arith, ltb, if◌then◌else◌, Bool-cases,
  le→ltb_false,
}
use personal_finance_hub.Prelude.Int.{pos, negsuc, magnitude, eqb_ℤ}
use personal_finance_hub.Domain.Error.{
  DomainResult, ok, err, ◌>>=◌, ◌>>◌, reject_if, invalid_exchange_rate, guard-eq-ok, >>=-eq-ok,
  ok-injective,
}
use personal_finance_hub.Domain.Decimal
use personal_finance_hub.Domain.Decimal.{Decimal, scale_factor, value_limit}
use personal_finance_hub.Domain.Decimal.Fits.{fits_numeric_20_10-eq}
use personal_finance_hub.Domain.Decimal.Division.{divide-eq}
use personal_finance_hub.Domain.Decimal.Rounding.{half_even, half_even-HalfEven}
use personal_finance_hub.Domain.Currency.{Currency, same_currency, pivot_code}
use personal_finance_hub.Domain.Money.Arithmetic.{same_currency_comm}
use personal_finance_hub.Domain.ExchangeRate.{
  ExchangeRate, TimePoint, create, latest, inverse, cross_rate, inverted_source,
}

-- Two currencies that differ, and a positive rate that fits its column.
pub record IsRate (r : ExchangeRate) : Type 0 where
  pub distinct : same_currency r.base r.target ≡ false
  pub positive : Decimal.is_positive r.rate ≡ true
  pub fits : Decimal.fits_numeric_20_10 r.rate ≡ true

abbrev built : Currency → Currency → Decimal → TimePoint → Bytes → ExchangeRate
built base target rate fetched_at source = record {
  base = base;
  target = target;
  rate = rate;
  fetched_at = fetched_at;
  source = source;
}

-- Every rate that `create` returns holds its arguments and satisfies the invariant.
pub create-IsRate :
    (base target : Currency) (rate : Decimal) (at : TimePoint) (source : Bytes) (r : ExchangeRate)
    → create base target rate at source ≡ ok r
    → (r ≡ built base target rate at source) × IsRate r
unfolding create
create-IsRate base target rate at source r e =
    let whole : DomainResult ExchangeRate = ok (built base target rate at source) in
    let fit = reject_if (not (Decimal.fits_numeric_20_10 rate)) invalid_exchange_rate >> whole in
    let positive = reject_if (not (Decimal.is_positive rate)) invalid_exchange_rate >> fit in
    let (distinct, e1) = guard-eq-ok (same_currency base target) invalid_exchange_rate positive e in
    let (pos_rate, e2) =
      guard-eq-ok (not (Decimal.is_positive rate)) invalid_exchange_rate fit e1 in
    let (fits_rate, e3) =
      guard-eq-ok (not (Decimal.fits_numeric_20_10 rate)) invalid_exchange_rate whole e2 in
    let same : built base target rate at source ≡ r = ok-injective e3 in
    (
      sym same,
      subst IsRate same
          (record { distinct = distinct; positive = ground arith; fits = ground arith }),
    )

create_refused :
    (base target : Currency) (rate : Decimal) (at : TimePoint) (source : Bytes)
    → Decimal.is_positive rate && Decimal.fits_numeric_20_10 rate ≡ false
    → create base target rate at source ≡ err invalid_exchange_rate
unfolding create
create_refused base target rate at source h = ground arith

create-ok :
    (base target : Currency) (rate : Decimal) (at : TimePoint) (source : Bytes)
    → same_currency base target ≡ false
    → Decimal.is_positive rate ≡ true
    → Decimal.fits_numeric_20_10 rate ≡ true
    → create base target rate at source ≡ ok (built base target rate at source)
unfolding create
create-ok base target rate at source d p f = rw (d, p, f)

pub positive_value :
    (v : Decimal)
    → Decimal.is_positive v ≡ true
    → Decimal.fits_numeric_20_10 v ≡ true
    → (n : ℕ) × (v ≡ pos n) × (0 < n) × (n < 10 ^ 20)
unfolding Decimal.is_positive
positive_value (pos n) p f = (n, refl, ground arith, ground (arith, fits_numeric_20_10-eq (pos n)))
positive_value (negsuc n) p f = absurd (ground arith)

from_integer-one : Decimal.from_integer (pos 1) ≡ ok (pos scale_factor)
unfolding Decimal.from_integer
from_integer-one = refl

quotient_bound : (q n c : ℕ) → 0 < n → 2 * q * n ≤ c + n → 2 * q ≤ c + 1
quotient_bound q zero c h le = absurd (omega arith)
quotient_bound zero (suc k) c h le = omega arith
quotient_bound (suc q) (suc k) c h le = omega arith

half_even_bound : (n : ℕ) → 0 < n → half_even (10 ^ 20) n ≤ value_limit
half_even_bound n h =
    let r = half_even-HalfEven (10 ^ 20) n h in
    omega (arith, quotient_bound (half_even (10 ^ 20) n) n (2 * 10 ^ 20) h r.below)

divide_one :
    (n : ℕ)
    → 0 < n
    → n < 10 ^ 20
    → Decimal.divide (pos scale_factor) (pos n) ≡ ok (pos (half_even (10 ^ 20) n))
divide_one n h lt =
    divide-eq (pos scale_factor) (pos n) (omega arith, omega arith)
    ∙ (let nz : eqb_ℤ (pos n) (pos 0) ≡ false = ground arith in
        let within : ltb value_limit (half_even (10 ^ 20) n) ≡ false =
          le→ltb_false _ _ (half_even_bound n h) in
        rw (nz, within))

abbrev usable : ℕ → Bool
usable h = ltb 0 h && ltb h (10 ^ 20)

usable_checks :
    (h : ℕ) → (Decimal.is_positive (pos h) && Decimal.fits_numeric_20_10 (pos h)) ≡ usable h
unfolding Decimal.is_positive
usable_checks h = ground (arith, fits_numeric_20_10-eq (pos h))

and-true : (a b : Bool) → (a && b) ≡ true → (a ≡ true) × (b ≡ true)
and-true a b h = (ground arith, ground arith)

create-usable :
    (base target : Currency) (h : ℕ) (at : TimePoint) (source : Bytes)
    → same_currency base target ≡ false
    → create base target (pos h) at source
      ≡ (if usable h then ok (built base target (pos h) at source) else err invalid_exchange_rate)
create-usable base target h at source d = elim (Bool-cases (usable h)) [
  | inl fine ↦
      let (p, f) = and-true _ _ (usable_checks h ∙ fine) in
      rw fine (create-ok base target (pos h) at source d p f)
  | inr bad ↦ rw bad (create_refused base target (pos h) at source (usable_checks h ∙ bad))
]

-- The inverse of a valid rate has the opposite direction and the rate 1 / rate, rounded half to
-- even at ten digits; it is refused exactly if that is zero or too large for its column.
pub inverse-eq :
    (r : ExchangeRate)
    → IsRate r
    → let h = half_even (10 ^ 20) (magnitude r.rate) in
      inverse r ≡ (
        if ltb 0 h && ltb h (10 ^ 20)
        then ok (record {
          base = r.target;
          target = r.base;
          rate = pos h;
          fetched_at = r.fetched_at;
          source = inverted_source r.source;
        })
        else err invalid_exchange_rate)
unfolding inverse
inverse-eq r v =
    let (n, e, some_rate, small) = positive_value r.rate v.positive v.fits in
    rw (from_integer-one) (
      subst
        (λ t.
          (Decimal.divide (pos scale_factor) t >>= λ inv.
          create r.target r.base inv r.fetched_at (inverted_source r.source))
          ≡ (if usable (half_even (10 ^ 20) (magnitude t))
              then ok (
                  built r.target r.base (pos (half_even (10 ^ 20) (magnitude t))) r.fetched_at
                    (inverted_source r.source))
              else err invalid_exchange_rate))
        (sym e)
        (rw (divide_one n some_rate small) (
          create-usable r.target r.base (half_even (10 ^ 20) n) r.fetched_at
            (inverted_source r.source) (sym (same_currency_comm r.base r.target) ∙ v.distinct))))

-- A cross rate leads from the first rate's target to the second one's, satisfies the invariant,
-- and comes from two rates based on the pivot, by one division of the decimals.
pub cross_rate-IsRate :
    (b t x : ExchangeRate)
    → cross_rate b t ≡ ok x
    → (b.base ≡ pivot_code)
      × (t.base ≡ pivot_code)
      × (x.base ≡ b.target)
      × (x.target ≡ t.target)
      × (Decimal.divide t.rate b.rate ≡ ok x.rate)
      × IsRate x
unfolding cross_rate
cross_rate-IsRate b t x e =
    let label = bytes "TriangularCalculation" in
    let at = latest b.fetched_at t.fetched_at in
    let make = λ (cross : Decimal). create b.target t.target cross at label in
    let off_pivot = not (bytes_eq b.base pivot_code) || not (bytes_eq t.base pivot_code) in
    let (pivots, e1) =
      guard-eq-ok off_pivot invalid_exchange_rate (Decimal.divide t.rate b.rate >>= make) e in
    let (cross, divided, e2) = >>=-eq-ok (Decimal.divide t.rate b.rate) make e1 in
    let (same, v) = create-IsRate b.target t.target cross at label x e2 in
    (
      bytes_eq→eq b.base pivot_code (ground arith),
      bytes_eq→eq t.base pivot_code (ground arith),
      ap (λ (r : ExchangeRate). r.base) same,
      ap (λ (r : ExchangeRate). r.target) same,
      divided ∙ ap (λ (r : ExchangeRate). ok r.rate) (sym same),
      v,
    )
