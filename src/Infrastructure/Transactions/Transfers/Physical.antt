-- ===== src/Infrastructure/Transactions/Transfers/Physical.antt =====
-- include/pfh/infrastructure/persistence/in_memory_transaction_repository.h: removing the rows of an
-- account for good, its transfers as wholes.
use personal_finance_hub.Prelude.{
  Bool, false, not, ◌&&◌, ◌||◌, none, some, List, [], ◌∷◌, ◌++◌, if◌then◌else◌,
}
use personal_finance_hub.Prelude.Int.{ℤ, eqb_ℤ, ltb_ℤ}
use personal_finance_hub.Prelude.IdMap
use personal_finance_hub.Prelude.IdMap.{IdMap, elem}
use personal_finance_hub.Domain.Ids.{TypedId, is_valid, same_id}
use personal_finance_hub.Domain.Transaction.{Transaction}
use personal_finance_hub.Domain.Transfer.{is_transfer}
use personal_finance_hub.Infrastructure.Repository.{success, failure, database_error}
use personal_finance_hub.Infrastructure.Store.{
  InMemoryStore, InMemoryTransactionCorrection, InMemoryTransferCorrection,
}
use personal_finance_hub.Infrastructure.Action.{Action}
use personal_finance_hub.Infrastructure.Transactions.{merge_transactions}
use personal_finance_hub.Infrastructure.Transactions.Checks.{merged_corrections}
use personal_finance_hub.Infrastructure.Transactions.Save.{invalidate}
use personal_finance_hub.Infrastructure.Transactions.Transfers.Snapshot.{
  merged_transfer_corrections,
}

-- Whether a correction has a transaction on either side.
unfoldable pub corrections_of : ℤ → IdMap InMemoryTransactionCorrection → List ℤ
corrections_of id [] = []
corrections_of id ((original, c) ∷ rest) =
    let others = corrections_of id rest in
    if eqb_ℤ original id || same_id c.replacement_transaction_id id
    then original ∷ others
    else others

unfoldable pub transfer_corrections_of : ℤ → IdMap InMemoryTransferCorrection → List ℤ
transfer_corrections_of id [] = []
transfer_corrections_of id ((original, c) ∷ rest) =
    let others = transfer_corrections_of id rest in
    if eqb_ℤ original id || same_id c.replacement_group_id id then original ∷ others else others

unfoldable pub stage_correction_deletions_for : ℤ → InMemoryStore → InMemoryStore
stage_correction_deletions_for id s = record s {
  staging = record s.staging {
    staged_transaction_corrections =
        IdMap.erase_all (corrections_of id (merged_corrections s))
          s.staging.staged_transaction_corrections;
    staged_deleted_transaction_corrections =
        s.staging.staged_deleted_transaction_corrections
        ++ corrections_of id (merged_corrections s);
  };
}

unfoldable pub stage_transfer_correction_deletions_for : ℤ → InMemoryStore → InMemoryStore
stage_transfer_correction_deletions_for id s = record s {
  staging = record s.staging {
    staged_transfer_corrections =
        IdMap.erase_all (transfer_corrections_of id (merged_transfer_corrections s))
          s.staging.staged_transfer_corrections;
    staged_deleted_transfer_corrections =
        s.staging.staged_deleted_transfer_corrections
        ++ transfer_corrections_of id (merged_transfer_corrections s);
  };
}

-- A row is removed, with its corrections and its tags.
unfoldable pub remove_transaction : ℤ → InMemoryStore → InMemoryStore
remove_transaction id s =
    let t = stage_correction_deletions_for id s in
    record t {
      staging = record t.staging {
        staged_transactions = IdMap.erase id t.staging.staged_transactions;
        staged_deleted_transactions = t.staging.staged_deleted_transactions ++ id ∷ [];
        staged_transaction_tag_relations =
            IdMap.insert_or_assign id [] t.staging.staged_transaction_tag_relations;
      };
    }

-- The rows of the account that are no legs.
unfoldable pub plain_loop : TypedId → IdMap Transaction → InMemoryStore → InMemoryStore
plain_loop account_id [] s = s
plain_loop account_id ((id, tx) ∷ rest) s = plain_loop account_id rest (
    if same_id tx.account_id account_id && not (is_transfer tx.type)
    then remove_transaction id s
    else s)

unfoldable pub physical_delete_by_account : TypedId → Action (Unit {0})
physical_delete_by_account account_id s =
    if not s.in_transaction
    then (s, failure database_error)
    else (plain_loop account_id (merge_transactions s) s, success tt)

-- std::set::insert on a set of integers.
unfoldable pub insert_id : ℤ → List ℤ → List ℤ
insert_id id [] = id ∷ []
insert_id id (x ∷ xs) =
    let later = insert_id id xs in
    if eqb_ℤ x id then x ∷ xs else if ltb_ℤ id x then id ∷ x ∷ xs else x ∷ later

-- The groups with a member on the account.
unfoldable pub groups_touching : TypedId → IdMap Transaction → List ℤ → List ℤ
groups_touching account_id [] ids = ids
groups_touching account_id ((id, tx) ∷ rest) ids =
    groups_touching account_id rest (elim tx.transfer_group_id [
      | none ↦ ids
      | some g ↦ if same_id tx.account_id account_id && is_valid g then insert_id g ids else ids
    ])

unfoldable pub in_groups : List ℤ → Transaction → Bool
in_groups groups tx = elim tx.transfer_group_id [ none ↦ false | some g ↦ elem g groups ]

-- Every row of the groups, with the cached balance of its account.
unfoldable pub member_loop : List ℤ → IdMap Transaction → InMemoryStore → InMemoryStore
member_loop groups [] s = s
member_loop groups ((id, tx) ∷ rest) s =
    member_loop groups rest
      (if in_groups groups tx then invalidate tx.account_id (remove_transaction id s) else s)

unfoldable pub remove_group : ℤ → InMemoryStore → InMemoryStore
remove_group group s =
    let t = stage_transfer_correction_deletions_for group s in
    record t {
      staging = record t.staging {
        staged_transfer_groups = IdMap.erase group t.staging.staged_transfer_groups;
        staged_deleted_transfer_groups = t.staging.staged_deleted_transfer_groups ++ group ∷ [];
      };
    }

unfoldable pub group_loop : List ℤ → InMemoryStore → InMemoryStore
group_loop [] s = s
group_loop (group ∷ groups) s = group_loop groups (remove_group group s)

unfoldable pub physical_delete_transfers_touching_account : TypedId → Action (Unit {0})
physical_delete_transfers_touching_account account_id s =
    let groups = groups_touching account_id (merge_transactions s) [] in
    if not s.in_transaction
    then (s, failure database_error)
    else (group_loop groups (member_loop groups (merge_transactions s) s), success tt)
