-- ===== src/Domain/Transfer/Complete.antt =====
-- src/domain/transfer_domain_service.cpp: a transfer that can be represented is built.
use personal_finance_hub.Prelude.{
  ℕ, ◌+◌, ◌*◌, ◌^◌, ◌≤◌, ◌<◌, ◌≡◌, refl, sym, ap, ◌∙◌, inr, true, false, not, none, some, [], Bytes,
  bytes_eq_refl, bytes_eq→eq, arith, ltb, Bool-cases, inl, le→ltb_false,
}
use personal_finance_hub.Prelude.Int.{pos, negsuc, ◌-ℤ◌, ltb_ℤ, eqb_ℤ_refl}
use personal_finance_hub.Domain.Error.{
  ok, ◌>>=◌, ok-injective, err-ne-ok, guard-eq-ok, >>=-eq-ok, currency_mismatch,
}
use personal_finance_hub.Domain.Currency.{same_currency}
use personal_finance_hub.Domain.Decimal
use personal_finance_hub.Domain.Decimal.{Decimal, scale_factor, storage_max, value_limit, u128_mod}
use personal_finance_hub.Domain.Decimal.Checked.{subtract-eq}
use personal_finance_hub.Domain.Decimal.Division.{range_checked, multiply-eq}
use personal_finance_hub.Domain.Decimal.Fits.{fits_numeric_20_8-eq}
use personal_finance_hub.Domain.Decimal.Rounding.{half_even, half_even-HalfEven}
use personal_finance_hub.Domain.Decimal.Scale.{round_to_scale-eq, rounded_value}
use personal_finance_hub.Domain.ExchangeRate
use personal_finance_hub.Domain.ExchangeRate.{ExchangeRate, TimePoint}
use personal_finance_hub.Domain.ExchangeRate.Rates.{IsRate, positive_value}
use personal_finance_hub.Domain.Ids.{TypedId, same_id}
use personal_finance_hub.Domain.Money
use personal_finance_hub.Domain.Money.{Money}
use personal_finance_hub.Domain.Transfer.{
  fits, is_same_currency, TransferAggregate, outgoing_and_rate,
}
use personal_finance_hub.Domain.Transfer.Build.{
  aggregate_of, assemble, make_fee_adjustments, build_from_outgoing_and_rate,
  make_transfer_transaction,
}
use personal_finance_hub.Domain.Transfer.Rules.{WithinTolerance, IsConsistent, validate_iff}
use personal_finance_hub.Domain.Transfer.Tolerance.{tolerance_for-large}

-- A positive amount that fits its column, as a number.
positive_amount :
    (v : Decimal)
    → Decimal.is_positive v ≡ true
    → Decimal.fits_numeric_20_8 v ≡ true
    → (n : ℕ) × (v ≡ pos n) × (n < 10 ^ 22)
unfolding Decimal.is_positive
positive_amount (pos n) p f = (n, refl, ground (arith, fits_numeric_20_8-eq (pos n)))
positive_amount (negsuc n) p f = absurd (ground arith)

multiply_pos-ok :
    (o r : ℕ) (x : Decimal)
    → Decimal.multiply (pos o) (pos r) ≡ ok x
    → (e : ℕ) × (x ≡ pos e) × (e ≤ value_limit)
multiply_pos-ok o r x h =
    let e = half_even (o * r) scale_factor in
    let computed : range_checked (o * r) false e ≡ ok x = sym (multiply-eq (pos o) (pos r)) ∙ h in
    elim (Bool-cases (ltb (o * r) u128_mod)) [
      | inl small ↦ elim (Bool-cases (ltb value_limit e)) [
        | inl over ↦ absurd (err-ne-ok (rw (small, over) at computed))
        | inr within ↦ (e, sym (ok-injective (rw (small, within) at computed)), ground arith)
      ]
      | inr large ↦ absurd (err-ne-ok (rw large at computed))
    ]

-- Rounding to eight digits moves a value by at most half a unit.
round_pos-close :
    (e : ℕ) (w : Decimal)
    → e ≤ value_limit
    → Decimal.round_to_scale (pos e) (pos 8) ≡ ok w
    → (n : ℕ) × (w ≡ pos n) × (n ≤ e + 50) × (e ≤ n + 50)
round_pos-close e w bound h =
    let q = half_even e 100 in
    let r = half_even-HalfEven e 100 (omega arith) in
    let above = r.above in
    let below = r.below in
    let computed : rounded_value (pos e) 100 ≡ ok w =
      sym (round_to_scale-eq (pos e) 8 (omega arith) (omega arith)) ∙ h in
    let within : ltb storage_max (q * 100) ≡ false = le→ltb_false _ _ (omega arith) in
    (q * 100, sym (ok-injective (rw within at computed)), omega arith, omega arith)

subtract_close :
    (w e : ℕ)
    → e ≤ value_limit
    → w ≤ e + 50
    → Decimal.subtract (pos w) (pos e) ≡ ok (pos w -ℤ pos e)
unfolding ◌-ℤ◌
subtract_close w e bound h = ground (arith, subtract-eq (pos w) (pos e))

abs_close :
    (w e t : ℕ)
    → w ≤ e + 50
    → e ≤ w + 50
    → 100 ≤ t
    → ltb_ℤ (pos t) (Decimal.abs (pos w -ℤ pos e)) ≡ false
unfolding Decimal.abs ◌-ℤ◌
abs_close w e t h k l = ground arith

-- The converted amount, of the currency of the rate's target.
convert-ok :
    (rate : ExchangeRate) (out exact : Money) (o r : ℕ)
    → out.amount ≡ pos o
    → rate.rate ≡ pos r
    → ExchangeRate.convert rate out ≡ ok exact
    → (same_currency out.currency rate.base ≡ true)
      × (exact.currency ≡ rate.target)
      × ((e : ℕ) × (exact.amount ≡ pos e) × (e ≤ value_limit))
unfolding ExchangeRate.convert
convert-ok rate out exact o r eo er h =
    let finish =
      λ (converted : Decimal). ok (record { amount = converted; currency = rate.target }) in
    let (same, h1) =
      guard-eq-ok (not (same_currency out.currency rate.base)) currency_mismatch
        (Decimal.multiply out.amount rate.rate >>= finish) h in
    let (x, h2, h3) = >>=-eq-ok (Decimal.multiply out.amount rate.rate) finish h1 in
    let built = ok-injective h3 in
    let (e, ex, bound) = multiply_pos-ok o r x (rw (eo, er) at h2) in
    (
      ground (arith, same),
      sym (ap (λ m. m.currency) built),
      (e, sym (ap (λ m. m.amount) built) ∙ ex, bound),
    )

-- The derived incoming amount is within the tolerance, whatever the amount and the rate.
pub derived-WithinTolerance :
    (rate : ExchangeRate) (out exact : Money) (rounded : Decimal)
    → IsRate rate
    → Decimal.is_positive out.amount ≡ true
    → fits out ≡ true
    → ExchangeRate.convert rate out ≡ ok exact
    → Decimal.round_to_scale exact.amount (pos 8) ≡ ok rounded
    → WithinTolerance out (record { amount = rounded; currency = exact.currency }) rate
unfolding Money.subtract
derived-WithinTolerance rate out exact rounded valid positive fit converted rounding =
    let (o, eo, small_o) = positive_amount out.amount positive fit in
    let (r, er, some_r, small_r) = positive_value rate.rate valid.positive valid.fits in
    let (_, currency, (e, ee, bound)) = convert-ok rate out exact o r eo er converted in
    let (w, ew, up, down) = round_pos-close e rounded bound (rw ee at rounding) in
    let (t, tolerated, large) = tolerance_for-large o r small_o small_r in
    record {
      expected = exact;
      converted = converted;
      diff = record { amount = pos w -ℤ pos e; currency = exact.currency };
      subtracted = rw (ew, ee, bytes_eq_refl exact.currency, subtract_close w e bound up) refl;
      tolerance = pos t;
      tolerated = rw (eo, er) tolerated;
      close = abs_close w e t up down large;
    }

module _ (source_account target_account user_id : TypedId) (occurred_at : TimePoint)
    (description : Bytes) (transfer_group_id : TypedId) (now : ℕ → TimePoint) where
  -- The aggregate of a transfer without a fee.
  abbrev pub plain : Money → Money → ExchangeRate → TransferAggregate
  plain out inc rate =
      aggregate_of source_account target_account user_id occurred_at description transfer_group_id
        now outgoing_and_rate out inc (some rate) []

  plain-IsConsistent :
      (rate : ExchangeRate) (out inc : Money)
      → same_id source_account target_account ≡ false
      → Decimal.is_positive out.amount ≡ true
      → Decimal.is_positive inc.amount ≡ true
      → fits out ≡ true
      → fits inc ≡ true
      → same_currency out.currency inc.currency ≡ false
      → WithinTolerance out inc rate
      → IsConsistent (plain out inc rate)
  unfolding make_transfer_transaction Money.is_positive is_same_currency
  plain-IsConsistent rate out inc apart p p' f f' crossed close = record {
    legs = record {
      outgoing_type = refl;
      incoming_type = refl;
      group = eqb_ℤ_refl transfer_group_id;
      accounts_differ = apart;
      user = eqb_ℤ_refl user_id;
      outgoing_positive = p;
      incoming_positive = p';
      outgoing_fits = f;
      incoming_fits = f';
    };
    adjustments = tt;
    amounts = inr (crossed, rate, refl, close);
  }

  -- From a positive outgoing amount that fits its column and a valid rate, a transfer between two
  -- accounts without a fee is built, whenever the converted amount does not overflow and its
  -- rounding is positive and fits its column: the tolerance never rejects a derived amount.
  pub build_from_outgoing_and_rate_complete :
      (rate : ExchangeRate) (out exact : Money) (rounded : Decimal)
      → IsRate rate
      → same_id source_account target_account ≡ false
      → Decimal.is_positive out.amount ≡ true
      → fits out ≡ true
      → ExchangeRate.convert rate out ≡ ok exact
      → Decimal.round_to_scale exact.amount (pos 8) ≡ ok rounded
      → Decimal.is_positive rounded ≡ true
      → Decimal.fits_numeric_20_8 rounded ≡ true
      → build_from_outgoing_and_rate source_account target_account user_id occurred_at description
          transfer_group_id now out rate none
        ≡ ok (plain out (record { amount = rounded; currency = exact.currency }) rate)
  unfolding build_from_outgoing_and_rate assemble make_fee_adjustments
  build_from_outgoing_and_rate_complete rate out exact rounded valid apart p f converted rounding p'
        f' =
      let inc : Money = record { amount = rounded; currency = exact.currency } in
      let (o, eo, _) = positive_amount out.amount p f in
      let (r, er, _, _) = positive_value rate.rate valid.positive valid.fits in
      let (base, currency, _) = convert-ok rate out exact o r eo er converted in
      let from_base = bytes_eq→eq out.currency rate.base base in
      let crossed : same_currency out.currency exact.currency ≡ false =
        rw (from_base, currency) valid.distinct in
      let consistent =
        plain-IsConsistent rate out inc apart p p' f f' crossed
          (derived-WithinTolerance rate out exact rounded valid p f converted rounding) in
      let accepted = (validate_iff (plain out inc rate)).1 consistent in
      rw (f, base, converted, rounding, f', accepted) refl
