-- ===== src/Domain/Transfer/Booked.antt =====
-- What a transfer that a builder returns consists of, said without the builders' own records.
use personal_finance_hub.Prelude.{◌≡◌, true, false, Option, none, some, List, [], ◌∷◌, Bytes}
use personal_finance_hub.Prelude.Int.{pos, ltb_ℤ, magnitude}
use personal_finance_hub.Domain.Error.{ok}
use personal_finance_hub.Domain.Decimal
use personal_finance_hub.Domain.Currency.{Currency, same_currency}
use personal_finance_hub.Domain.ExchangeRate.{ExchangeRate, TimePoint}
use personal_finance_hub.Domain.Ids.{TypedId, same_id}
use personal_finance_hub.Domain.Money.{Money}
use personal_finance_hub.Domain.Transaction.{Transaction, transfer, adjustment}
use personal_finance_hub.Domain.Transfer.{
  TransferMode, FeeSource, source_account_fee, target_account_fee, third_party_fee, TransferFee,
  TransferAggregate,
}
use personal_finance_hub.Domain.Transfer.Rules.{IsConsistent}

-- What two amounts imply: no rate in one currency, and across currencies their quotient at ten
-- digits, which leads from the currency of the first to that of the second.
abbrev pub IsImplied : Money → Money → Option ExchangeRate → Type 0
IsImplied out inc none = same_currency out.currency inc.currency ≡ true
IsImplied out inc (some r) =
    (same_currency out.currency inc.currency ≡ false)
    × (r.base ≡ out.currency)
    × (r.target ≡ inc.currency)
    × (Decimal.divide inc.amount out.amount ≡ ok r.rate)

module _ (source_account target_account user_id : TypedId) (occurred_at : TimePoint)
    (description : Bytes) (transfer_group_id : TypedId) where
  -- A transaction of the transfer's user, time and group that is not deleted and has no category.
  pub record IsMember (tx : Transaction) : Type 0 where
    pub same_user : tx.user_id ≡ user_id
    pub same_time : tx.occurred_at ≡ occurred_at
    pub same_group : tx.transfer_group_id ≡ some transfer_group_id
    pub active : tx.deleted_at ≡ none
    pub plain : tx.category_id ≡ none

  -- One of the two sides of the transfer.
  pub record IsSide (account : TypedId) (amount : Money) (tx : Transaction) : Type 0 where
    pub moves : tx.type ≡ transfer
    pub on_account : tx.account_id ≡ account
    pub whole_amount : tx.amount ≡ amount
    pub described : tx.description ≡ description
    pub member : IsMember tx

  -- Who pays: the account on the side that the fee names, in that side's currency, or one that is
  -- on neither side.
  abbrev pub IsPayer : FeeSource → TypedId → Currency → Currency → Currency → Type 0
  IsPayer source_account_fee account paid out inc =
      (same_id account source_account ≡ true) × (same_currency paid out ≡ true)
  IsPayer target_account_fee account paid out inc =
      (same_id account target_account ≡ true) × (same_currency paid inc ≡ true)
  IsPayer third_party_fee account paid out inc =
      (same_id account source_account ≡ false) × (same_id account target_account ≡ false)

  -- The fee is taken from its payer: a negative adjustment of the fee's size.
  pub record IsFee (fee : TransferFee) (out inc : Currency) (tx : Transaction) : Type 0 where
    pub adjusts : tx.type ≡ adjustment
    pub on_payer : tx.account_id ≡ fee.account_id
    pub taken : ltb_ℤ tx.amount.amount (pos 0) ≡ true
    pub size : magnitude tx.amount.amount ≡ magnitude fee.amount.amount
    pub in_currency : tx.amount.currency ≡ fee.amount.currency
    pub payer : IsPayer fee.source fee.account_id fee.amount.currency out inc
    pub member : IsMember tx

  -- Without a fee there is no adjustment, with one there is that of the fee alone.
  abbrev pub AreFees : Option TransferFee → Currency → Currency → List Transaction → Type 0
  AreFees none out inc adjs = adjs ≡ []
  AreFees (some fee) out inc adjs = (tx : Transaction) × (adjs ≡ tx ∷ []) × IsFee fee out inc tx

  pub record IsBuilt (mode : TransferMode) (out inc : Money) (rate : Option ExchangeRate)
      (fee : Option TransferFee) (a : TransferAggregate) : Type 0 where
    pub in_mode : a.mode ≡ mode
    pub outgoing_side : IsSide source_account out a.outgoing
    pub incoming_side : IsSide target_account inc a.incoming
    pub at_rate : a.rate ≡ rate
    pub with_fee : AreFees fee out.currency inc.currency a.adjustments
    pub consistent : IsConsistent a
