-- ===== src/Infrastructure/Transactions/Transfers/Snapshot.antt =====
-- The read model of a transfer: its group, its members and its corrections.
use personal_finance_hub.Prelude.{
  Bool, true, not, ◌&&◌, Option, none, some, List, [], ◌∷◌, Bytes, if◌then◌else◌,
}
use personal_finance_hub.Prelude.Int.{ℤ, pos, eqb_ℤ, ltb_ℤ}
use personal_finance_hub.Prelude.IdMap
use personal_finance_hub.Prelude.IdMap.{IdMap}
use personal_finance_hub.Domain.Decimal.{Decimal}
use personal_finance_hub.Domain.ExchangeRate.{ExchangeRate, TimePoint}
use personal_finance_hub.Domain.Ids.{TypedId, same_id}
use personal_finance_hub.Domain.Transaction.{Transaction, is_deleted}
use personal_finance_hub.Domain.Transfer.{same_optional}
use personal_finance_hub.Infrastructure.Repository.{
  RepositoryResult, success, failure, not_found, database_error,
}
use personal_finance_hub.Infrastructure.Store.{
  InMemoryStore, InMemoryTransferGroup, InMemoryTransferCorrection,
}
use personal_finance_hub.Infrastructure.Merged.{merged}
use personal_finance_hub.Infrastructure.Transactions.{merge_transactions, filter}

pub record TransferSnapshot : Type 0 where
  pub group_id : TypedId
  pub user_id : TypedId
  pub transfer_mode : ℤ
  pub exchange_rate : Option Decimal
  pub note : Bytes
  pub occurred_at : TimePoint
  pub created_at : TimePoint
  pub deleted_at : Option TimePoint
  pub corrects_group_id : Option TypedId
  pub corrected_by_group_id : Option TypedId
  pub transactions : List Transaction

unfoldable pub merged_transfer_groups : InMemoryStore → IdMap InMemoryTransferGroup
merged_transfer_groups s =
    merged s.in_transaction s.staging.staged_transfer_groups
      s.staging.staged_deleted_transfer_groups s.tables.transfer_groups

unfoldable pub merged_transfer_corrections : InMemoryStore → IdMap InMemoryTransferCorrection
merged_transfer_corrections s =
    merged s.in_transaction s.staging.staged_transfer_corrections
      s.staging.staged_deleted_transfer_corrections s.tables.transfer_corrections

unfoldable pub in_group : TypedId → Transaction → Bool
in_group group tx = same_optional tx.transfer_group_id (some group)

-- The loop over the members: the earliest time, where 0 stands for none yet.
unfoldable pub earliest : TimePoint → List Transaction → TimePoint
earliest at [] = at
earliest at (tx ∷ txs) =
    earliest
      (if eqb_ℤ at (pos 0)
        then tx.occurred_at
        else if ltb_ℤ tx.occurred_at at
        then tx.occurred_at
        else at)
      txs

-- The loop over the members: the latest deletion.
unfoldable pub latest_deleted : Option TimePoint → List Transaction → Option TimePoint
latest_deleted latest [] = latest
latest_deleted latest (tx ∷ txs) =
    latest_deleted
      (elim tx.deleted_at [
        | none ↦ latest
        | some d ↦ elim latest [ none ↦ some d | some l ↦ if ltb_ℤ l d then some d else some l ]
      ])
      txs

unfoldable pub all_deleted : List Transaction → Bool
all_deleted [] = true
all_deleted (tx ∷ txs) = is_deleted tx && all_deleted txs

unfoldable pub insert_by_id : Transaction → List Transaction → List Transaction
insert_by_id tx [] = tx ∷ []
insert_by_id tx (t ∷ txs) =
    let later = insert_by_id tx txs in if ltb_ℤ t.id tx.id then t ∷ later else tx ∷ t ∷ txs

unfoldable pub sort_by_id : List Transaction → List Transaction
sort_by_id [] = []
sort_by_id (tx ∷ txs) = insert_by_id tx (sort_by_id txs)

-- The loops over the corrections, whose last match counts.
unfoldable pub corrected_by :
    TypedId → Option TypedId → List InMemoryTransferCorrection → Option TypedId
corrected_by group found [] = found
corrected_by group found (c ∷ cs) =
    corrected_by group
      (if same_id c.original_group_id group then some c.replacement_group_id else found) cs

unfoldable pub corrects :
    TypedId → Option TypedId → List InMemoryTransferCorrection → Option TypedId
corrects group found [] = found
corrects group found (c ∷ cs) =
    corrects group
      (if same_id c.replacement_group_id group then some c.original_group_id else found) cs

unfoldable pub members : TypedId → InMemoryStore → List Transaction
members group s = filter (in_group group) (IdMap.values (merge_transactions s))

unfoldable pub rate_of : Option ExchangeRate → Option Decimal
rate_of none = none
rate_of (some r) = some r.rate

unfoldable pub snapshot_of :
    TypedId
    → TypedId
    → InMemoryTransferGroup
    → List Transaction
    → InMemoryStore
    → RepositoryResult TransferSnapshot
snapshot_of group user_id g [] s = failure database_error
snapshot_of group user_id g (tx ∷ txs) s = success (record {
  group_id = group;
  user_id = user_id;
  transfer_mode = g.transfer_mode;
  exchange_rate = rate_of g.rate;
  note = g.note;
  occurred_at = earliest (pos 0) (tx ∷ txs);
  created_at = g.created_at;
  deleted_at = if all_deleted (tx ∷ txs) then latest_deleted none (tx ∷ txs) else none;
  corrects_group_id = corrects group none (IdMap.values (merged_transfer_corrections s));
  corrected_by_group_id = corrected_by group none (IdMap.values (merged_transfer_corrections s));
  transactions = sort_by_id (tx ∷ txs);
})

unfoldable pub group_found :
    TypedId
    → TypedId
    → Option InMemoryTransferGroup
    → InMemoryStore
    → RepositoryResult TransferSnapshot
group_found group user_id none s = failure not_found
group_found group user_id (some g) s =
    if not (same_id g.user_id user_id)
    then failure not_found
    else snapshot_of group user_id g (members group s) s

unfoldable pub make_transfer_snapshot :
    TypedId → TypedId → InMemoryStore → RepositoryResult TransferSnapshot
make_transfer_snapshot group user_id s =
    group_found group user_id (IdMap.find group (merged_transfer_groups s)) s

unfoldable pub find_transfer_by_group :
    TypedId → TypedId → InMemoryStore → RepositoryResult TransferSnapshot
find_transfer_by_group group user_id s = make_transfer_snapshot group user_id s

unfoldable pub find_transfer_by_group_for_update :
    TypedId → TypedId → InMemoryStore → RepositoryResult TransferSnapshot
find_transfer_by_group_for_update group user_id s =
    if not s.in_transaction then failure database_error else make_transfer_snapshot group user_id s
