-- ===== src/Domain/Transfer.antt =====
-- include/pfh/domain/transfer_aggregate.h, include/pfh/domain/transfer_domain_service.h and
-- src/domain/transfer_domain_service.cpp: building a transfer in its three modes, and its
-- consistency rules. The default `created_at` of each new transaction is a reading of the clock:
-- `now 0`, `now 1` and `now 2` for the two legs and the fee.
pub mod Rules
pub mod Booked
pub mod Build
pub mod Assembled
pub mod Built
pub mod Tolerance
pub mod Complete
use personal_finance_hub.Prelude.{
  ℕ, Bool, true, false, not, ◌&&◌, ◌||◌, Option, none, some, List, [], ◌∷◌, ◌++◌, Bytes, bytes,
  if◌then◌else◌,
}
use personal_finance_hub.Prelude.Int.{ℤ, pos, ltb_ℤ, eqb_ℤ}
use personal_finance_hub.Domain.Error.{
  DomainResult, ok, err, ◌>>=◌, ◌>>◌, reject_if, or_fail, currency_mismatch, invalid_operation,
  invalid_amount,
}
use personal_finance_hub.Domain.Currency.{Currency, same_currency}
use personal_finance_hub.Domain.Decimal
use personal_finance_hub.Domain.Decimal.{Decimal}
use personal_finance_hub.Domain.Decimal.Text
use personal_finance_hub.Domain.ExchangeRate
use personal_finance_hub.Domain.ExchangeRate.{ExchangeRate, TimePoint}
use personal_finance_hub.Domain.Ids.{TypedId, is_valid, same_id, no_id}
use personal_finance_hub.Domain.Money
use personal_finance_hub.Domain.Money.{Money}
use personal_finance_hub.Domain.Transaction.{
  Transaction, TransactionType, income, expense, transfer, adjustment,
}

pub data TransferMode : Type 0 where
  outgoing_and_rate outgoing_and_incoming incoming_and_rate : TransferMode

pub data FeeSource : Type 0 where
  source_account_fee target_account_fee third_party_fee : FeeSource

pub record TransferFee : Type 0 where
  pub source : FeeSource
  pub account_id : TypedId
  pub amount : Money

pub record TransferAggregate : Type 0 where
  pub mode : TransferMode
  pub outgoing : Transaction
  pub incoming : Transaction
  pub rate : Option ExchangeRate
  pub adjustments : List Transaction

unfoldable pub is_same_currency : TransferAggregate → Bool
is_same_currency a = same_currency a.outgoing.amount.currency a.incoming.amount.currency

-- Comparison of two optional ids.
abbrev pub same_optional : Option TypedId → Option TypedId → Bool
same_optional none none = true
same_optional none (some b) = false
same_optional (some a) none = false
same_optional (some a) (some b) = same_id a b

abbrev pub is_transfer : TransactionType → Bool
is_transfer transfer = true
is_transfer _ = false

abbrev pub is_adjustment : TransactionType → Bool
is_adjustment adjustment = true
is_adjustment _ = false

abbrev pub fits : Money → Bool
fits m = Decimal.fits_numeric_20_8 m.amount

-- Rules 1 to 5 of `validate`, and the column check of the two amounts.
unfoldable pub validate_legs : Transaction → Transaction → DomainResult (Unit {0})
validate_legs out inc = do
  reject_if (not (is_transfer out.type)) invalid_operation
  reject_if (not (is_transfer inc.type)) invalid_operation
  reject_if (not (same_optional out.transfer_group_id inc.transfer_group_id)) invalid_operation
  reject_if (same_id out.account_id inc.account_id) invalid_operation
  reject_if (not (same_id out.user_id inc.user_id)) invalid_operation
  reject_if (not (Money.is_positive out.amount) || not (Money.is_positive inc.amount))
      invalid_operation
  reject_if (not (fits out.amount) || not (fits inc.amount)) invalid_amount

unfoldable pub validate_adjustment : Transaction → Transaction → DomainResult (Unit {0})
validate_adjustment out adj = do
  reject_if (not (is_adjustment adj.type)) invalid_operation
  reject_if (not (same_id adj.user_id out.user_id)) invalid_operation
  reject_if (not (same_optional adj.transfer_group_id out.transfer_group_id)) invalid_operation
  reject_if (not (eqb_ℤ adj.occurred_at out.occurred_at)) invalid_operation
  reject_if (Money.is_zero adj.amount) invalid_amount
  reject_if (not (fits adj.amount)) invalid_amount

unfoldable pub validate_adjustments : Transaction → List Transaction → DomainResult (Unit {0})
validate_adjustments out [] = ok tt
validate_adjustments out (adj ∷ adjs) = validate_adjustment out adj >> validate_adjustments out adjs

abbrev amount_rounding_unit : Bytes
amount_rounding_unit = bytes "0.00000001"

abbrev rate_rounding_unit : Bytes
rate_rounding_unit = bytes "0.0000000001"

-- The tolerance of rule 6 for an outgoing amount and a rate.
unfoldable pub tolerance_for : Decimal → Decimal → DomainResult Decimal
tolerance_for outgoing rate = do
  amount_unit ← Decimal.Text.parse amount_rounding_unit
  rate_unit ← Decimal.Text.parse rate_rounding_unit
  one ← Decimal.from_integer (pos 1)
  rate_plus_one ← Decimal.add (Decimal.abs rate) one
  amount_component ← Decimal.multiply amount_unit rate_plus_one
  outgoing_plus_one ← Decimal.add (Decimal.abs outgoing) one
  rate_component ← Decimal.multiply rate_unit outgoing_plus_one
  Decimal.add amount_component rate_component

unfoldable pub validate_cross : Money → Money → ExchangeRate → DomainResult (Unit {0})
validate_cross outgoing incoming rate = do
  expected ← ExchangeRate.convert rate outgoing
  diff ← Money.subtract incoming expected
  tolerance ← tolerance_for outgoing.amount rate.rate
  reject_if (ltb_ℤ tolerance (Decimal.abs diff.amount)) invalid_operation

abbrev pub has_rate : Option ExchangeRate → Bool
has_rate none = false
has_rate (some r) = true

-- Rule 6 of `validate`.
unfoldable pub validate_amounts : TransferAggregate → DomainResult (Unit {0})
validate_amounts a =
    if is_same_currency a
    then reject_if (not (Money.equal a.outgoing.amount a.incoming.amount)) invalid_operation
      >> reject_if (has_rate a.rate) invalid_operation
    else or_fail a.rate invalid_operation >>= validate_cross a.outgoing.amount a.incoming.amount

unfoldable pub validate : TransferAggregate → DomainResult (Unit {0})
validate a = do
  validate_legs a.outgoing a.incoming
  validate_adjustments a.outgoing a.adjustments
  validate_amounts a
