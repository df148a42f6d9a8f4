-- ===== src/Infrastructure/Transactions/Save.antt =====
-- Storing a transaction, deleting it, and replacing it by its correction.
pub mod Stored
pub mod Signs
use personal_finance_hub.Prelude.{
  Bool, true, false, not, ◌&&◌, ◌||◌, Option, none, some, List, [], ◌∷◌, ◌++◌, if◌then◌else◌,
}
use personal_finance_hub.Prelude.Int.{ℤ, pos, ◌+ℤ◌}
use personal_finance_hub.Prelude.IdMap
use personal_finance_hub.Prelude.IdMap.{IdMap, has_value}
use personal_finance_hub.Domain.ExchangeRate.{TimePoint}
use personal_finance_hub.Domain.Ids.{TypedId, same_id}
use personal_finance_hub.Domain.Money.{Money}
use personal_finance_hub.Domain.Transaction.{Transaction, is_deleted, mark_deleted}
use personal_finance_hub.Domain.Transfer.{is_transfer}
use personal_finance_hub.Infrastructure.Repository.{
  RepositoryResult, success, failure, not_found, validation_error, conflict, database_error,
  reject_if,
}
use personal_finance_hub.Infrastructure.Store.{InMemoryStore, InMemoryTransactionCorrection}
use personal_finance_hub.Infrastructure.Action.{Action, pure, reads, modify, ◌>>=◌, ◌>>◌}
use personal_finance_hub.Infrastructure.Merged.{merged}
use personal_finance_hub.Infrastructure.Transactions.{find_by_id}
use personal_finance_hub.Infrastructure.Transactions.Checks.{
  check_single, find_deletable, check_correction,
}

unfoldable pub stage_transaction : Transaction → InMemoryStore → InMemoryStore
stage_transaction tx s = record s {
  staging = record s.staging {
    staged_transactions = IdMap.insert_or_assign tx.id tx s.staging.staged_transactions;
  };
}

-- The balance of an account is computed again at its next reading.
unfoldable pub invalidate : TypedId → InMemoryStore → InMemoryStore
invalidate account_id s = record s {
  staging = record s.staging {
    staged_balance_cache = IdMap.erase account_id s.staging.staged_balance_cache;
    staged_deleted_balance_cache = s.staging.staged_deleted_balance_cache ++ account_id ∷ [];
  };
}

unfoldable pub next_transaction : InMemoryStore → InMemoryStore
next_transaction s = record s { next_transaction_id = s.next_transaction_id +ℤ pos 1 }

unfoldable pub stored : Transaction → Money → InMemoryStore → Transaction
stored tx amount s = record tx { id = s.next_transaction_id; amount = amount }

unfoldable pub save_checked : Transaction → RepositoryResult Money → Action Transaction
save_checked tx (failure e) s = (s, failure e)
save_checked tx (success amount) s = (
  invalidate tx.account_id (stage_transaction (stored tx amount s) (next_transaction s)),
  success (stored tx amount s),
)

unfoldable pub save_single : Transaction → Action Transaction
save_single tx s = save_checked tx (check_single tx s) s

unfoldable pub delete_found : TypedId → TimePoint → RepositoryResult Transaction → Action (Unit {0})
delete_found id deleted_at (failure e) s = (s, failure e)
delete_found id deleted_at (success existing) s = (
  invalidate existing.account_id (record s {
    staging = record s.staging {
      staged_transactions =
          IdMap.insert_or_assign id (mark_deleted deleted_at existing)
            s.staging.staged_transactions;
    };
  }),
  success tt,
)

unfoldable pub soft_delete : TypedId → TypedId → TimePoint → Action (Unit {0})
soft_delete id user_id deleted_at s = delete_found id deleted_at (find_deletable id user_id s) s

unfoldable pub stage_correction : InMemoryTransactionCorrection → InMemoryStore → InMemoryStore
stage_correction correction s = record s {
  staging = record s.staging {
    staged_transaction_corrections =
        IdMap.insert_or_assign correction.original_transaction_id correction
          s.staging.staged_transaction_corrections;
  };
}

unfoldable pub save_correction : TypedId → Transaction → TimePoint → Action Transaction
save_correction original_id replacement corrected_at = do
  reads (check_correction original_id replacement)
  saved ← save_single replacement
  soft_delete original_id replacement.user_id corrected_at
  modify (
      stage_correction (record {
        user_id = replacement.user_id;
        original_transaction_id = original_id;
        replacement_transaction_id = saved.id;
        corrected_at = corrected_at;
      }))
  pure saved
