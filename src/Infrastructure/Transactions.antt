-- ===== src/Infrastructure/Transactions.antt =====
-- include/pfh/infrastructure/persistence/in_memory_transaction_repository.h: the transactions of
-- the store, as a unit of work sees them.
pub mod Query
pub mod Checks
pub mod Save
pub mod Sorted
pub mod Ranges
pub mod Transfers
pub mod Ledger
use personal_finance_hub.Prelude.{
  Bool, true, false, not, ◌&&◌, ◌||◌, Option, none, some, List, [], ◌∷◌, if◌then◌else◌,
}
use personal_finance_hub.Prelude.Int.{ℤ, ltb_ℤ, leb_ℤ, eqb_ℤ}
use personal_finance_hub.Prelude.IdMap
use personal_finance_hub.Prelude.IdMap.{IdMap, elem}
use personal_finance_hub.Domain.ExchangeRate.{TimePoint}
use personal_finance_hub.Domain.Ids.{TypedId, same_id}
use personal_finance_hub.Domain.Transaction.{Transaction, is_deleted}
use personal_finance_hub.Infrastructure.Repository.{
  RepositoryResult, success, failure, not_found, database_error,
}
use personal_finance_hub.Infrastructure.Store.{InMemoryStore}
use personal_finance_hub.Infrastructure.Action.{required}
use personal_finance_hub.Infrastructure.Merged.{merged}

unfoldable pub merge_transactions : InMemoryStore → IdMap Transaction
merge_transactions s =
    merged s.in_transaction s.staging.staged_transactions s.staging.staged_deleted_transactions
      s.tables.transactions

unfoldable pub is_staged_deleted_tx : TypedId → InMemoryStore → Bool
is_staged_deleted_tx id s = s.in_transaction && elem id s.staging.staged_deleted_transactions

unfoldable pub find_by_id : TypedId → InMemoryStore → RepositoryResult Transaction
find_by_id id s =
    if is_staged_deleted_tx id s
    then failure not_found
    else elim (if s.in_transaction then IdMap.find id s.staging.staged_transactions else none) [
      | some tx ↦ success tx
      | none ↦ required (IdMap.find id s.tables.transactions) not_found
    ]

unfoldable pub find_by_id_for_update : TypedId → InMemoryStore → RepositoryResult Transaction
find_by_id_for_update id s =
    if not s.in_transaction then failure database_error else find_by_id id s

-- Whether a time lies in the half-open range that two optional bounds leave.
unfoldable pub in_range : Option TimePoint → Option TimePoint → TimePoint → Bool
in_range from to t =
    not (elim from [ none ↦ false | some f ↦ ltb_ℤ t f ])
    && not (elim to [ none ↦ false | some u ↦ leb_ℤ u t ])

-- Whether the loop of `find_by_account` keeps a transaction.
unfoldable pub of_account :
    TypedId → Option TimePoint → Option TimePoint → Bool → Transaction → Bool
of_account account_id from to include_deleted tx =
    same_id tx.account_id account_id
    && (include_deleted || not (is_deleted tx))
    && in_range from to tx.occurred_at

-- Whether the loop of `find_by_user_in_range` keeps a transaction.
unfoldable pub of_user : TypedId → Option TimePoint → Option TimePoint → Bool → Transaction → Bool
of_user user_id from to include_deleted tx =
    same_id tx.user_id user_id
    && (include_deleted || not (is_deleted tx))
    && in_range from to tx.occurred_at

unfoldable pub filter : (Transaction → Bool) → List Transaction → List Transaction
filter keep [] = []
filter keep (tx ∷ txs) = let rest = filter keep txs in if keep tx then tx ∷ rest else rest

-- The comparison by time, then by id.
unfoldable pub before : Transaction → Transaction → Bool
before a b =
    if not (eqb_ℤ a.occurred_at b.occurred_at)
    then ltb_ℤ a.occurred_at b.occurred_at
    else ltb_ℤ a.id b.id

unfoldable pub insert_sorted : Transaction → List Transaction → List Transaction
insert_sorted tx [] = tx ∷ []
insert_sorted tx (t ∷ txs) =
    let later = insert_sorted tx txs in if before t tx then t ∷ later else tx ∷ t ∷ txs

-- std::sort with `before`, which tells any two transactions with different ids apart.
unfoldable pub sort : List Transaction → List Transaction
sort [] = []
sort (tx ∷ txs) = insert_sorted tx (sort txs)

unfoldable pub find_by_account :
    TypedId
    → Option TimePoint
    → Option TimePoint
    → Bool
    → InMemoryStore
    → RepositoryResult (List Transaction)
find_by_account account_id from to include_deleted s = success (
    sort (
      filter (of_account account_id from to include_deleted) (IdMap.values (merge_transactions s))))

unfoldable pub find_by_user_in_range :
    TypedId
    → Option TimePoint
    → Option TimePoint
    → Bool
    → InMemoryStore
    → RepositoryResult (List Transaction)
find_by_user_in_range user_id from to include_deleted s =
    success (
      sort (filter (of_user user_id from to include_deleted) (IdMap.values (merge_transactions s))))

unfoldable pub find_by_user : TypedId → Bool → InMemoryStore → RepositoryResult (List Transaction)
find_by_user user_id include_deleted s = find_by_user_in_range user_id none none include_deleted s
