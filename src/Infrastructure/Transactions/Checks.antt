-- ===== src/Infrastructure/Transactions/Checks.antt =====
-- What the repository checks of a transaction before it is stored.
use personal_finance_hub.Prelude.{Bool, not, ◌&&◌, ◌||◌, Option, none, some, if◌then◌else◌}
use personal_finance_hub.Prelude.Int.{ℤ}
use personal_finance_hub.Prelude.IdMap
use personal_finance_hub.Prelude.IdMap.{IdMap, has_value, or_else, elem}
use personal_finance_hub.Domain.Account.{Account}
use personal_finance_hub.Domain.Category.{Category, category_is_deleted}
use personal_finance_hub.Domain.Currency.{same_currency}
use personal_finance_hub.Domain.Decimal
use personal_finance_hub.Domain.Ids.{TypedId, is_valid, same_id}
use personal_finance_hub.Domain.Money
use personal_finance_hub.Domain.Money.{Money}
use personal_finance_hub.Domain.Transaction.{
  Transaction, TransactionType, income, expense, transfer, adjustment, is_deleted, is_valid_for,
}
use personal_finance_hub.Domain.Transfer.{is_transfer}
use personal_finance_hub.Infrastructure.Repository.{
  RepositoryResult, success, failure, not_found, validation_error, conflict, database_error,
  reject_if, ◌>>=◌, ◌>>◌,
}
use personal_finance_hub.Infrastructure.Store.{InMemoryStore, InMemoryTransactionCorrection}
use personal_finance_hub.Infrastructure.Merged.{merged}
use personal_finance_hub.Infrastructure.Transactions.{find_by_id}

unfoldable pub validate_amount_for_storage : Money → RepositoryResult (Unit {0})
validate_amount_for_storage amount = do
  reject_if (Money.is_zero amount) validation_error
  reject_if (not (Decimal.fits_numeric_20_8 amount.amount)) validation_error

-- A row that is staged, else the committed one. Staged deletions are not looked at.
unfoldable pub staged_first : {V : Type 0} → Bool → ℤ → IdMap V → IdMap V → Option V
staged_first in_transaction id staged committed =
    or_else (if in_transaction then IdMap.find id staged else none) (IdMap.find id committed)

unfoldable pub account_matches : Transaction → Option Account → RepositoryResult (Unit {0})
account_matches tx none = failure not_found
account_matches tx (some account) = do
  reject_if (not (same_id account.owner tx.user_id)) validation_error
  reject_if (not (same_currency account.currency tx.amount.currency)) validation_error

unfoldable pub ensure_account_matches_transaction :
    Transaction → InMemoryStore → RepositoryResult (Unit {0})
ensure_account_matches_transaction tx s =
    account_matches tx
      (staged_first s.in_transaction tx.account_id s.staging.staged_accounts s.tables.accounts)

unfoldable pub category_matches : Transaction → Option Category → RepositoryResult (Unit {0})
category_matches tx none = failure not_found
category_matches tx (some category) = do
  reject_if (category_is_deleted category || not (same_id category.owner tx.user_id)) not_found
  reject_if (not (is_valid_for category.board tx.type)) validation_error

unfoldable pub ensure_category_matches_transaction :
    Transaction → InMemoryStore → RepositoryResult (Unit {0})
ensure_category_matches_transaction tx s = elim tx.category_id [
  | none ↦ success tt
  | some id ↦
      if s.in_transaction && elem id s.staging.staged_deleted_categories
      then failure not_found
      else category_matches tx
          (staged_first s.in_transaction id s.staging.staged_categories s.tables.categories)
]

-- The stored sign of an amount: an expense is negative.
unfoldable pub storage_amount : TransactionType → Money → RepositoryResult Money
storage_amount expense amount =
    if not (Money.is_positive amount)
    then failure validation_error
    else success (Money.negated amount)
storage_amount income amount =
    if not (Money.is_positive amount) then failure validation_error else success amount
storage_amount transfer amount = success amount
storage_amount adjustment amount = success amount

-- The checks of `save_single`, up to the amount that it stores. Its test for a type outside the
-- enumeration never holds.
unfoldable pub check_single : Transaction → InMemoryStore → RepositoryResult Money
check_single tx s = do
  reject_if (not s.in_transaction) database_error
  reject_if (is_valid tx.id || is_deleted tx) validation_error
  reject_if (has_value tx.transfer_group_id) validation_error
  reject_if (is_transfer tx.type) validation_error
  validate_amount_for_storage tx.amount
  ensure_account_matches_transaction tx s
  ensure_category_matches_transaction tx s
  storage_amount tx.type tx.amount

-- The transaction that `soft_delete` finds for its user.
unfoldable pub find_deletable : TypedId → TypedId → InMemoryStore → RepositoryResult Transaction
find_deletable id user_id s = do
  reject_if (not s.in_transaction) database_error
  existing ← find_by_id id s
  reject_if (not (same_id existing.user_id user_id)) not_found
  success existing

unfoldable pub merged_corrections : InMemoryStore → IdMap InMemoryTransactionCorrection
merged_corrections s =
    merged s.in_transaction s.staging.staged_transaction_corrections
      s.staging.staged_deleted_transaction_corrections s.tables.transaction_corrections

-- An error of the lookup is reported as a missing transaction.
unfoldable pub owned_by : TypedId → RepositoryResult Transaction → RepositoryResult Transaction
owned_by user_id (failure e) = failure not_found
owned_by user_id (success tx) = if same_id tx.user_id user_id then success tx else failure not_found

-- The checks of `save_correction` before it writes.
unfoldable pub check_correction :
    TypedId → Transaction → InMemoryStore → RepositoryResult (Unit {0})
check_correction original_id replacement s = do
  reject_if (not s.in_transaction) database_error
  original ← owned_by replacement.user_id (find_by_id original_id s)
  reject_if (is_deleted original) conflict
  reject_if (is_transfer original.type || has_value original.transfer_group_id) validation_error
  reject_if (IdMap.contains original_id (merged_corrections s)) conflict
