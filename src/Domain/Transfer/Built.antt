-- ===== src/Domain/Transfer/Built.antt =====
-- src/domain/transfer_domain_service.cpp: the transfers that the three builders return.
use mathlib.Core.Path.{subst}
use personal_finance_hub.Prelude.{
  ℕ, ◌≡◌, ap, sym, ◌∙◌, inl, inr, not, ◌||◌, Bool-cases, Option, none, some, Bytes, bytes,
}
use personal_finance_hub.Prelude.Int.{pos}
use personal_finance_hub.Domain.Error.{
  ok, ◌>>=◌, ◌>>◌, reject_if, ok-injective, invalid_operation, invalid_amount, currency_mismatch,
  guard-eq-ok, >>=-eq-ok,
}
use personal_finance_hub.Domain.Currency.{same_currency}
use personal_finance_hub.Domain.Decimal
use personal_finance_hub.Domain.Decimal.{Decimal}
use personal_finance_hub.Domain.ExchangeRate
use personal_finance_hub.Domain.ExchangeRate.{ExchangeRate, TimePoint}
use personal_finance_hub.Domain.ExchangeRate.Rates.{create-IsRate}
use personal_finance_hub.Domain.Ids.{TypedId}
use personal_finance_hub.Domain.Money
use personal_finance_hub.Domain.Money.{Money}
use personal_finance_hub.Domain.Transfer.{
  outgoing_and_rate, outgoing_and_incoming, incoming_and_rate, TransferFee, TransferAggregate, fits,
}
use personal_finance_hub.Domain.Transfer.Build.{
  assemble, derived_rate, build_from_outgoing_and_rate, build_from_both_amounts,
  build_from_incoming_and_rate,
}
use personal_finance_hub.Domain.Transfer.Booked.{IsImplied, IsBuilt}
use personal_finance_hub.Domain.Transfer.Assembled.{assemble-ok}

module _ (source_account target_account user_id : TypedId) (occurred_at : TimePoint)
    (description : Bytes) (transfer_group_id : TypedId) (now : ℕ → TimePoint) where
  -- From the outgoing amount and a rate: the aggregate has its two sides on their accounts, the
  -- outgoing one with the given amount, the incoming one with the converted amount rounded to eight
  -- digits; it has the rate, exactly the requested fee, taken from its payer, and is consistent.
  pub build_from_outgoing_and_rate-ok :
      (out : Money) (rate : ExchangeRate) (fee : Option TransferFee) (a : TransferAggregate)
      → build_from_outgoing_and_rate source_account target_account user_id occurred_at description
          transfer_group_id now out rate fee
        ≡ ok a
      → (exact : Money) × (rounded : Decimal) × (ExchangeRate.convert rate out ≡ ok exact)
        × (Decimal.round_to_scale exact.amount (pos 8) ≡ ok rounded)
        × IsBuilt source_account target_account user_id occurred_at description transfer_group_id
            outgoing_and_rate out
            (record { amount = rounded; currency = exact.currency })
            (some rate)
            fee
            a
  unfolding build_from_outgoing_and_rate
  build_from_outgoing_and_rate-ok out rate fee a e =
      let end = λ (exact : Money) (rounded : Decimal).
        assemble source_account target_account user_id occurred_at description transfer_group_id now
          outgoing_and_rate out (record { amount = rounded; currency = exact.currency }) (some rate)
          fee in
      let checked = λ (exact : Money) (rounded : Decimal).
        reject_if (not (Decimal.fits_numeric_20_8 rounded)) invalid_amount >> end exact rounded in
      let round =
        λ (exact : Money). Decimal.round_to_scale exact.amount (pos 8) >>= checked exact in
      let convert = ExchangeRate.convert rate out >>= round in
      let direction =
        reject_if (not (same_currency out.currency rate.base)) currency_mismatch >> convert in
      let (_, e0) = guard-eq-ok (not (fits out)) invalid_amount direction e in
      let (_, e1) =
        guard-eq-ok (not (same_currency out.currency rate.base)) currency_mismatch convert e0 in
      let (exact, ex, e2) = >>=-eq-ok (ExchangeRate.convert rate out) round e1 in
      let (rounded, er, e3) =
        >>=-eq-ok (Decimal.round_to_scale exact.amount (pos 8)) (checked exact) e2 in
      let (_, e4) =
        guard-eq-ok (not (Decimal.fits_numeric_20_8 rounded)) invalid_amount (end exact rounded)
          e3 in
      (
        exact,
        rounded,
        ex,
        er,
        assemble-ok source_account target_account user_id occurred_at description transfer_group_id
            now outgoing_and_rate out (record { amount = rounded; currency = exact.currency })
            (some rate) fee a e4,
      )

  -- From the incoming amount and a rate: the aggregate has its two sides on their accounts, the
  -- incoming one with the given amount, the outgoing one with the quotient by the rate rounded to
  -- eight digits; it has the rate, exactly the requested fee, taken from its payer, and is
  -- consistent.
  pub build_from_incoming_and_rate-ok :
      (inc : Money) (rate : ExchangeRate) (fee : Option TransferFee) (a : TransferAggregate)
      → build_from_incoming_and_rate source_account target_account user_id occurred_at description
          transfer_group_id now inc rate fee
        ≡ ok a
      → (exact : Decimal) × (rounded : Decimal) × (Decimal.divide inc.amount rate.rate ≡ ok exact)
        × (Decimal.round_to_scale exact (pos 8) ≡ ok rounded)
        × IsBuilt source_account target_account user_id occurred_at description transfer_group_id
            incoming_and_rate
            (record { amount = rounded; currency = rate.base })
            inc
            (some rate)
            fee
            a
  unfolding build_from_incoming_and_rate
  build_from_incoming_and_rate-ok inc rate fee a e =
      let end = λ (rounded : Decimal).
        assemble source_account target_account user_id occurred_at description transfer_group_id now
          incoming_and_rate (record { amount = rounded; currency = rate.base }) inc (some rate)
          fee in
      let checked = λ (rounded : Decimal).
        reject_if (not (Decimal.fits_numeric_20_8 rounded)) invalid_amount >> end rounded in
      let round = λ (exact : Decimal). Decimal.round_to_scale exact (pos 8) >>= checked in
      let divide = Decimal.divide inc.amount rate.rate >>= round in
      let direction =
        reject_if (not (same_currency inc.currency rate.target)) currency_mismatch >> divide in
      let (_, e0) = guard-eq-ok (not (fits inc)) invalid_amount direction e in
      let (_, e1) =
        guard-eq-ok (not (same_currency inc.currency rate.target)) currency_mismatch divide e0 in
      let (exact, ex, e2) = >>=-eq-ok (Decimal.divide inc.amount rate.rate) round e1 in
      let (rounded, er, e3) = >>=-eq-ok (Decimal.round_to_scale exact (pos 8)) checked e2 in
      let (_, e4) =
        guard-eq-ok (not (Decimal.fits_numeric_20_8 rounded)) invalid_amount (end rounded) e3 in
      (
        exact,
        rounded,
        ex,
        er,
        assemble-ok source_account target_account user_id occurred_at description transfer_group_id
            now incoming_and_rate (record { amount = rounded; currency = rate.base }) inc
            (some rate) fee a e4,
      )

  derived_rate-IsImplied :
      (out inc : Money) (rate : Option ExchangeRate)
      → derived_rate source_account target_account user_id occurred_at description transfer_group_id
          now out inc
        ≡ ok rate
      → IsImplied out inc rate
  unfolding derived_rate
  derived_rate-IsImplied out inc rate e =
      elim (Bool-cases (same_currency out.currency inc.currency)) [
        | inl same ↦
            let (_, _, none_given) =
              >>=-eq-ok (reject_if (not (Money.equal out inc)) invalid_operation) (λ _. ok none)
                (rw same at e) in
            subst (IsImplied out inc) (ok-injective none_given) same
        | inr other ↦
            let make = λ (d : Decimal).
              ExchangeRate.create out.currency inc.currency d occurred_at
                (bytes "DerivedFromAmounts") in
            let (d, ed, e1) =
              >>=-eq-ok (Decimal.divide inc.amount out.amount) (λ d. make d >>= λ r. ok (some r))
                (rw other at e) in
            let (r, er, e2) = >>=-eq-ok (make d) (λ r. ok (some r)) e1 in
            let (whole, _) =
              create-IsRate out.currency inc.currency d occurred_at (bytes "DerivedFromAmounts") r
                er in
            subst (IsImplied out inc) (ok-injective e2) (
              other,
              ap (λ (x : ExchangeRate). x.base) whole,
              ap (λ (x : ExchangeRate). x.target) whole,
              ed ∙ ap (λ (x : ExchangeRate). ok x.rate) (sym whole),
            )
      ]

  -- From both amounts: the aggregate has its two sides on their accounts with these amounts, no
  -- rate in one currency and otherwise the quotient of the amounts from the outgoing currency to
  -- the incoming one, exactly the requested fee, taken from its payer, and is consistent.
  pub build_from_both_amounts-ok :
      (out inc : Money) (fee : Option TransferFee) (a : TransferAggregate)
      → build_from_both_amounts source_account target_account user_id occurred_at description
          transfer_group_id now out inc fee
        ≡ ok a
      → (rate : Option ExchangeRate) × IsImplied out inc rate
        × IsBuilt source_account target_account user_id occurred_at description transfer_group_id
            outgoing_and_incoming out inc rate fee a
  unfolding build_from_both_amounts
  build_from_both_amounts-ok out inc fee a e =
      let end = λ (rate : Option ExchangeRate).
        assemble source_account target_account user_id occurred_at description transfer_group_id now
          outgoing_and_incoming out inc rate fee in
      let derive =
        derived_rate source_account target_account user_id occurred_at description transfer_group_id
          now out inc in
      let (_, e0) =
        guard-eq-ok (not (fits out) || not (fits inc)) invalid_amount (derive >>= end) e in
      let (rate, er, e1) = >>=-eq-ok derive end e0 in
      (
        rate,
        derived_rate-IsImplied out inc rate er,
        assemble-ok source_account target_account user_id occurred_at description transfer_group_id
            now outgoing_and_incoming out inc rate fee a e1,
      )
