-- ===== src/Infrastructure/Accounts/Balances.antt =====
-- include/pfh/infrastructure/persistence/in_memory_account_repository.h: the balances of accounts,
-- from the cache or replayed from the transactions.
pub mod Coherence
pub mod Exact
pub mod Invalidated
pub mod Rebuild
use personal_finance_hub.Prelude.{
  ℕ, Bool, true, false, not, ◌&&◌, ◌||◌, Option, none, some, List, [], ◌∷◌, ◌++◌, Bytes, bytes_eq,
  if◌then◌else◌,
}
use personal_finance_hub.Prelude.Int.{ℤ, pos, ◌+ℤ◌, eqb_ℤ, ltb_ℤ, leb_ℤ}
use personal_finance_hub.Prelude.Dict
use personal_finance_hub.Prelude.IdMap
use personal_finance_hub.Prelude.IdMap.{IdMap}
use personal_finance_hub.Domain.Account.{Account}
use personal_finance_hub.Domain.Balance.{BalanceSnapshot, calculate_balance, calculate_balance_at}
use personal_finance_hub.Domain.Currency.{Currency}
use personal_finance_hub.Domain.Error.{DomainResult, ok, err}
use personal_finance_hub.Domain.ExchangeRate.{TimePoint}
use personal_finance_hub.Domain.Ids.{TypedId, is_valid, same_id, no_id}
use personal_finance_hub.Domain.Money.{Money}
use personal_finance_hub.Domain.Transaction.{Transaction}
use personal_finance_hub.Infrastructure.Repository.{
  RepositoryResult, success, failure, not_found, validation_error, database_error,
}
use personal_finance_hub.Infrastructure.Store.{
  InMemoryStore, InMemoryBalanceCache, InMemoryUserRecord,
}
use personal_finance_hub.Infrastructure.Action.{Action, reads, pure, fail, reject_when, ◌>>=◌, ◌>>◌}
use personal_finance_hub.Infrastructure.UnitOfWork.{TransactionContext}
use personal_finance_hub.Infrastructure.Idempotency.{has_tenant}
use personal_finance_hub.Infrastructure.Transactions.{find_by_account}
use personal_finance_hub.Infrastructure.Transactions.Checks.{staged_first}
use personal_finance_hub.Infrastructure.Accounts.{find_by_id, find_by_user, merged_accounts, filter}

-- The loop over the transactions: how many there are.
unfoldable pub source_version : List Transaction → ℤ
source_version [] = pos 0
source_version (tx ∷ txs) = pos 1 +ℤ source_version txs

-- The loop over the transactions: the greatest id so far.
unfoldable pub last_tx_id : TypedId → List Transaction → TypedId
last_tx_id last [] = last
last_tx_id last (tx ∷ txs) = last_tx_id (if ltb_ℤ last tx.id then tx.id else last) txs

-- The cached balance that is found first. A deletion of it that is staged is not looked at.
unfoldable pub cache_of : TypedId → InMemoryStore → Option InMemoryBalanceCache
cache_of id s =
    staged_first s.in_transaction id s.staging.staged_balance_cache s.tables.balance_cache

unfoldable pub next_cache_version : Option InMemoryBalanceCache → ℤ
next_cache_version none = pos 1
next_cache_version (some c) = c.cache_version +ℤ pos 1

-- The cache is written to the staging area in a transaction, and directly otherwise.
unfoldable pub write_back : TypedId → InMemoryBalanceCache → InMemoryStore → InMemoryStore
write_back id c s =
    if s.in_transaction
    then record s {
      staging = record s.staging {
        staged_balance_cache = IdMap.insert_or_assign id c s.staging.staged_balance_cache;
      };
    }
    else record s {
      tables = record s.tables {
        balance_cache = IdMap.insert_or_assign id c s.tables.balance_cache;
      };
    }

unfoldable pub rebuilt :
    List Transaction → Option InMemoryBalanceCache → BalanceSnapshot → InMemoryBalanceCache
rebuilt txs cache snapshot = record {
  balance = snapshot.balance;
  last_transaction_id = last_tx_id no_id txs;
  source_version = source_version txs;
  cache_version = next_cache_version cache;
  updated_at = snapshot.as_of;
}

-- The path of a cache that is missing or of another version.
unfoldable pub rebuild :
    TypedId
    → List Transaction
    → Option InMemoryBalanceCache
    → DomainResult BalanceSnapshot
    → Action BalanceSnapshot
rebuild id txs cache (err e) s = (s, failure database_error)
rebuild id txs cache (ok snapshot) s = (
  write_back id (rebuilt txs cache snapshot) s,
  success (record snapshot { last_transaction_id = last_tx_id no_id txs }),
)

unfoldable pub cached_snapshot : TypedId → InMemoryBalanceCache → BalanceSnapshot
cached_snapshot id c = record {
  account_id = id;
  balance = c.balance;
  as_of = c.updated_at;
  last_transaction_id = c.last_transaction_id;
}

unfoldable pub is_current : List Transaction → Option InMemoryBalanceCache → Bool
is_current txs none = false
is_current txs (some c) = eqb_ℤ c.source_version (source_version txs)

unfoldable pub from_cache :
    TypedId
    → List Transaction
    → Option InMemoryBalanceCache
    → DomainResult BalanceSnapshot
    → Action BalanceSnapshot
from_cache id txs none replayed s = rebuild id txs none replayed s
from_cache id txs (some c) replayed s =
    if is_current txs (some c)
    then (s, success (cached_snapshot id c))
    else rebuild id txs (some c) replayed s

unfoldable pub balance_of : TypedId → TimePoint → Action BalanceSnapshot
balance_of id now = do
  account ← reads (find_by_id id)
  txs ← reads (find_by_account id none none false)
  cache ← reads (λ s. success (cache_of id s))
  from_cache id txs cache (calculate_balance id txs account.currency now)
