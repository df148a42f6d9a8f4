-- ===== src/Infrastructure/Transactions/Transfers/Delete.antt =====
-- include/pfh/infrastructure/persistence/in_memory_transaction_repository.h: deleting and
-- correcting whole transfers, and removing the rows of an account.
use personal_finance_hub.Prelude.{not, List, [], ◌∷◌}
use personal_finance_hub.Prelude.IdMap
use personal_finance_hub.Prelude.IdMap.{has_value}
use personal_finance_hub.Domain.ExchangeRate.{TimePoint}
use personal_finance_hub.Domain.Ids.{TypedId}
use personal_finance_hub.Domain.Transaction.{Transaction, is_deleted, mark_deleted}
use personal_finance_hub.Domain.Transfer.{TransferAggregate}
use personal_finance_hub.Infrastructure.Repository.{success, conflict, database_error}
use personal_finance_hub.Infrastructure.Store.{InMemoryStore, InMemoryTransferCorrection}
use personal_finance_hub.Infrastructure.Action.{
  Action, pure, reads, modify, reject_when, ◌>>=◌, ◌>>◌,
}
use personal_finance_hub.Infrastructure.Transactions.Save.{stage_transaction, invalidate}
use personal_finance_hub.Infrastructure.Transactions.Transfers.{
  TransferPersistResult, save_transfer,
}
use personal_finance_hub.Infrastructure.Transactions.Transfers.Snapshot.{
  make_transfer_snapshot, merged_transfer_corrections,
}

-- What becomes of one member.
unfoldable pub delete_member : TimePoint → Transaction → InMemoryStore → InMemoryStore
delete_member at tx s = invalidate tx.account_id (stage_transaction (mark_deleted at tx) s)

-- The loop over the members, which stops at one that is deleted already.
unfoldable pub delete_members : TimePoint → List Transaction → Action (Unit {0})
delete_members at [] = pure tt
delete_members at (tx ∷ txs) = do
  reject_when (is_deleted tx) database_error
  modify (delete_member at tx)
  delete_members at txs

unfoldable pub soft_delete_transfer : TypedId → TypedId → TimePoint → Action (Unit {0})
soft_delete_transfer group user_id deleted_at = do
  running ← reads (λ s. success s.in_transaction)
  reject_when (not running) database_error
  snapshot ← reads (make_transfer_snapshot group user_id)
  reject_when (has_value snapshot.deleted_at) conflict
  delete_members deleted_at snapshot.transactions

unfoldable pub stage_transfer_correction :
    InMemoryTransferCorrection → InMemoryStore → InMemoryStore
stage_transfer_correction correction s = record s {
  staging = record s.staging {
    staged_transfer_corrections =
        IdMap.insert_or_assign correction.original_group_id correction
          s.staging.staged_transfer_corrections;
  };
}

unfoldable pub save_transfer_correction :
    TypedId → TransferAggregate → TimePoint → Action TransferPersistResult
save_transfer_correction original replacement corrected_at = do
  running ← reads (λ s. success s.in_transaction)
  reject_when (not running) database_error
  corrected ← reads (λ s. success (IdMap.contains original (merged_transfer_corrections s)))
  reject_when corrected conflict
  persisted ← save_transfer replacement
  soft_delete_transfer original replacement.outgoing.user_id corrected_at
  modify (
      stage_transfer_correction (record {
        user_id = replacement.outgoing.user_id;
        original_group_id = original;
        replacement_group_id = persisted.group_id;
        corrected_at = corrected_at;
      }))
  pure persisted
