-- ===== src/Domain/Transfer/Build.antt =====
-- src/domain/transfer_domain_service.cpp: the fee adjustment and the three builders. The section's
-- parameters are the arguments that all of them share.
use personal_finance_hub.Prelude.{
  ℕ, not, ◌||◌, Option, none, some, List, [], ◌∷◌, ◌++◌, Bytes, bytes, if◌then◌else◌,
}
use personal_finance_hub.Prelude.Int.{pos}
use personal_finance_hub.Domain.Error.{
  DomainResult, ok, ◌>>=◌, ◌>>◌, reject_if, currency_mismatch, invalid_operation, invalid_amount,
}
use personal_finance_hub.Domain.Currency.{Currency, same_currency}
use personal_finance_hub.Domain.Decimal
use personal_finance_hub.Domain.Decimal.{Decimal}
use personal_finance_hub.Domain.ExchangeRate
use personal_finance_hub.Domain.ExchangeRate.{ExchangeRate, TimePoint}
use personal_finance_hub.Domain.Ids.{TypedId, is_valid, same_id, no_id}
use personal_finance_hub.Domain.Money
use personal_finance_hub.Domain.Money.{Money}
use personal_finance_hub.Domain.Transaction.{Transaction, transfer, adjustment}
use personal_finance_hub.Domain.Transfer.{
  TransferMode, outgoing_and_rate, outgoing_and_incoming, incoming_and_rate, FeeSource,
  source_account_fee, target_account_fee, third_party_fee, TransferFee, TransferAggregate, fits,
  validate,
}

-- The text of a fee adjustment.
abbrev pub fee_description : Bytes → Bytes
fee_description [] = bytes "Transfer fee"
fee_description (c ∷ cs) = bytes "Transfer fee: " ++ c ∷ cs

module _ (source_account target_account user_id : TypedId) (occurred_at : TimePoint)
    (description : Bytes) (transfer_group_id : TypedId) (now : ℕ → TimePoint) where
  unfoldable pub make_transfer_transaction : TypedId → Money → TimePoint → Transaction
  make_transfer_transaction account_id amount created_at = record {
    id = no_id;
    user_id = user_id;
    account_id = account_id;
    amount = amount;
    type = transfer;
    occurred_at = occurred_at;
    description = description;
    category_id = none;
    transfer_group_id = some transfer_group_id;
    created_at = created_at;
    deleted_at = none;
  }

  -- The `switch` over the fee's source.
  unfoldable pub check_fee_source :
      TransferFee → FeeSource → Currency → Currency → DomainResult (Unit {0})
  check_fee_source fee source_account_fee source_currency target_currency = do
    reject_if (not (same_id fee.account_id source_account)) invalid_operation
    reject_if (not (same_currency fee.amount.currency source_currency)) currency_mismatch
  check_fee_source fee target_account_fee source_currency target_currency = do
    reject_if (not (same_id fee.account_id target_account)) invalid_operation
    reject_if (not (same_currency fee.amount.currency target_currency)) currency_mismatch
  check_fee_source fee third_party_fee source_currency target_currency =
      reject_if (same_id fee.account_id source_account || same_id fee.account_id target_account)
        invalid_operation

  unfoldable pub fee_transaction : TransferFee → Transaction
  fee_transaction fee = record {
    id = no_id;
    user_id = user_id;
    account_id = fee.account_id;
    amount = Money.negated fee.amount;
    type = adjustment;
    occurred_at = occurred_at;
    description = fee_description description;
    category_id = none;
    transfer_group_id = some transfer_group_id;
    created_at = now 2;
    deleted_at = none;
  }

  unfoldable pub make_fee_adjustments :
      Option TransferFee → Currency → Currency → DomainResult (List Transaction)
  make_fee_adjustments none source_currency target_currency = ok []
  make_fee_adjustments (some fee) source_currency target_currency = do
    reject_if (not (is_valid fee.account_id)) invalid_operation
    reject_if (not (Decimal.is_positive fee.amount.amount)) invalid_amount
    reject_if (not (fits fee.amount)) invalid_amount
    check_fee_source fee fee.source source_currency target_currency
    ok (fee_transaction fee ∷ [])

  abbrev pub aggregate_of :
      TransferMode → Money → Money → Option ExchangeRate → List Transaction → TransferAggregate
  aggregate_of mode outgoing incoming rate adjustments = record {
    mode = mode;
    outgoing = make_transfer_transaction source_account outgoing (now 0);
    incoming = make_transfer_transaction target_account incoming (now 1);
    rate = rate;
    adjustments = adjustments;
  }

  -- The end that the three builders share: the legs, the fee, the aggregate and its validation.
  unfoldable pub assemble :
      TransferMode
      → Money
      → Money
      → Option ExchangeRate
      → Option TransferFee
      → DomainResult TransferAggregate
  assemble mode outgoing incoming rate fee = do
    adjustments ← make_fee_adjustments fee outgoing.currency incoming.currency
    let aggregate = aggregate_of mode outgoing incoming rate adjustments
    validate aggregate
    ok aggregate

  unfoldable pub build_from_outgoing_and_rate :
      Money → ExchangeRate → Option TransferFee → DomainResult TransferAggregate
  build_from_outgoing_and_rate outgoing rate fee = do
    reject_if (not (fits outgoing)) invalid_amount
    reject_if (not (same_currency outgoing.currency rate.base)) currency_mismatch
    incoming ← ExchangeRate.convert rate outgoing
    rounded ← Decimal.round_to_scale incoming.amount (pos 8)
    reject_if (not (Decimal.fits_numeric_20_8 rounded)) invalid_amount
    let persisted : Money = record { amount = rounded; currency = incoming.currency }
    assemble outgoing_and_rate outgoing persisted (some rate) fee

  -- The rate that two amounts imply: none in one currency, where the amounts must match.
  unfoldable pub derived_rate : Money → Money → DomainResult (Option ExchangeRate)
  derived_rate outgoing incoming =
      if same_currency outgoing.currency incoming.currency
      then reject_if (not (Money.equal outgoing incoming)) invalid_operation >> ok none
      else Decimal.divide incoming.amount outgoing.amount >>= λ rate.
          ExchangeRate.create outgoing.currency incoming.currency rate occurred_at
            (bytes "DerivedFromAmounts")
          >>= λ r. ok (some r)

  unfoldable pub build_from_both_amounts :
      Money → Money → Option TransferFee → DomainResult TransferAggregate
  build_from_both_amounts outgoing incoming fee = do
    reject_if (not (fits outgoing) || not (fits incoming)) invalid_amount
    rate ← derived_rate outgoing incoming
    assemble outgoing_and_incoming outgoing incoming rate fee

  unfoldable pub build_from_incoming_and_rate :
      Money → ExchangeRate → Option TransferFee → DomainResult TransferAggregate
  build_from_incoming_and_rate incoming rate fee = do
    reject_if (not (fits incoming)) invalid_amount
    reject_if (not (same_currency incoming.currency rate.target)) currency_mismatch
    outgoing ← Decimal.divide incoming.amount rate.rate
    rounded ← Decimal.round_to_scale outgoing (pos 8)
    reject_if (not (Decimal.fits_numeric_20_8 rounded)) invalid_amount
    let derived : Money = record { amount = rounded; currency = rate.base }
    assemble incoming_and_rate derived incoming (some rate) fee
