-- ===== src/Domain/Balance.antt =====
-- include/pfh/domain/balance_calculation_service.h and
-- src/domain/balance_calculation_service.cpp: an account's balance, replayed from its transactions.
pub mod Replay
pub mod History
use personal_finance_hub.Prelude.{Bool, not, List, [], ◌∷◌, if◌then◌else◌}
use personal_finance_hub.Prelude.Int.{ℤ, pos, ltb_ℤ}
use personal_finance_hub.Domain.Error.{
  DomainResult, ok, err, ◌>>=◌, ◌>>◌, reject_if, currency_mismatch,
}
use personal_finance_hub.Domain.Currency.{Currency, same_currency}
use personal_finance_hub.Domain.Decimal
use personal_finance_hub.Domain.ExchangeRate.{TimePoint}
use personal_finance_hub.Domain.Ids.{TypedId, no_id}
use personal_finance_hub.Domain.Money
use personal_finance_hub.Domain.Money.{Money}
use personal_finance_hub.Domain.Transaction.{
  Transaction, TransactionType, income, expense, transfer, adjustment, is_deleted,
}

pub record BalanceSnapshot : Type 0 where
  pub account_id : TypedId
  pub balance : Money
  pub as_of : TimePoint
  pub last_transaction_id : TypedId

-- The `switch` of `apply_transaction`.
unfoldable pub signed_delta : TransactionType → Money → Money
signed_delta income m = if Money.is_negative m then Money.negated m else m
signed_delta expense m = if Money.is_negative m then m else Money.negated m
signed_delta transfer m = m
signed_delta adjustment m = m

unfoldable pub apply_transaction : Transaction → Currency → DomainResult Money
apply_transaction tx account_currency = do
  reject_if (not (same_currency tx.amount.currency account_currency)) currency_mismatch
  ok (signed_delta tx.type tx.amount)

-- The body of both loops for a transaction that is not skipped.
unfoldable pub apply_to : Money → Transaction → Currency → DomainResult Money
apply_to running tx currency = do delta ← apply_transaction tx currency; Money.add running delta

-- The loop of `calculate_balance`.
unfoldable pub balance_loop : List Transaction → Currency → Money → DomainResult Money
balance_loop [] currency running = ok running
balance_loop (tx ∷ txs) currency running =
    (if is_deleted tx then ok running else apply_to running tx currency)
    >>= balance_loop txs currency

-- The loop of `calculate_balance_at`.
unfoldable pub balance_at_loop :
    List Transaction → Currency → TimePoint → Money → DomainResult Money
balance_at_loop [] currency cutoff running = ok running
balance_at_loop (tx ∷ txs) currency cutoff running =
    (if is_deleted tx
      then ok running
      else if ltb_ℤ cutoff tx.occurred_at
      then ok running
      else apply_to running tx currency)
    >>= balance_at_loop txs currency cutoff

abbrev pub snapshot : TypedId → Money → TimePoint → BalanceSnapshot
snapshot account_id balance as_of = record {
  account_id = account_id;
  balance = balance;
  as_of = as_of;
  last_transaction_id = no_id;
}

unfoldable pub calculate_balance :
    TypedId → List Transaction → Currency → TimePoint → DomainResult BalanceSnapshot
calculate_balance account_id transactions currency as_of = do
  zero_amount ← Decimal.from_integer (pos 0)
  balance ←
      balance_loop transactions currency (record { amount = zero_amount; currency = currency })
  ok (snapshot account_id balance as_of)

unfoldable pub calculate_balance_at :
    TypedId → List Transaction → Currency → TimePoint → DomainResult BalanceSnapshot
calculate_balance_at account_id transactions currency cutoff = do
  zero_amount ← Decimal.from_integer (pos 0)
  balance ←
      balance_at_loop transactions currency cutoff
        (record { amount = zero_amount; currency = currency })
  ok (snapshot account_id balance cutoff)
