-- ===== src/Infrastructure/Accounts/Balances/Rebuild.antt =====
-- include/pfh/infrastructure/persistence/in_memory_account_repository.h: rebuilding the cache,
-- historical balances, and the currencies in use.
use personal_finance_hub.Prelude.{
  Bool, true, false, not, ◌||◌, Option, none, some, List, [], ◌∷◌, ◌++◌, Bytes, if◌then◌else◌,
}
use personal_finance_hub.Prelude.Int.{ℤ, pos, ◌+ℤ◌, leb_ℤ}
use personal_finance_hub.Prelude.Dict
use personal_finance_hub.Prelude.IdMap
use personal_finance_hub.Prelude.IdMap.{IdMap}
use personal_finance_hub.Domain.Account.{Account}
use personal_finance_hub.Domain.Balance.{BalanceSnapshot, calculate_balance, calculate_balance_at}
use personal_finance_hub.Domain.Currency.{Currency}
use personal_finance_hub.Domain.Error.{DomainResult, ok, err}
use personal_finance_hub.Domain.ExchangeRate.{TimePoint}
use personal_finance_hub.Domain.Ids.{TypedId, is_valid, same_id, no_id}
use personal_finance_hub.Domain.Money.{Money}
use personal_finance_hub.Domain.Transaction.{Transaction}
use personal_finance_hub.Infrastructure.Repository.{
  RepositoryResult, success, failure, not_found, validation_error, database_error,
}
use personal_finance_hub.Infrastructure.Store.{
  InMemoryStore, InMemoryBalanceCache, InMemoryUserRecord,
}
use personal_finance_hub.Infrastructure.Action.{Action, reads, pure, fail, ◌>>=◌}
use personal_finance_hub.Infrastructure.UnitOfWork.{TransactionContext}
use personal_finance_hub.Infrastructure.Idempotency.{has_tenant}
use personal_finance_hub.Infrastructure.Transactions.{find_by_account}
use personal_finance_hub.Infrastructure.Transactions.Checks.{staged_first}
use personal_finance_hub.Infrastructure.Accounts.{find_by_user, merged_accounts, filter}
use personal_finance_hub.Infrastructure.Accounts.Balances.{source_version, last_tx_id}

pub record BalanceCacheRebuildResult : Type 0 where
  pub snapshot : BalanceSnapshot
  pub source_version : ℤ
  pub cache_version : ℤ

unfoldable pub previous_version : Option InMemoryBalanceCache → ℤ
previous_version none = pos 0
previous_version (some c) = c.cache_version

-- One account of `rebuild_balance_cache`.
unfoldable pub rebuild_one :
    TimePoint
    → Account
    → List Transaction
    → DomainResult BalanceSnapshot
    → Action BalanceCacheRebuildResult
rebuild_one rebuilt_at a txs (err e) s = (s, failure database_error)
rebuild_one rebuilt_at a txs (ok snapshot) s =
    let version =
      previous_version
        (staged_first true a.id s.staging.staged_balance_cache s.tables.balance_cache)
      +ℤ pos 1 in
    (
      record s {
        staging = record s.staging {
          staged_balance_cache =
              IdMap.insert_or_assign a.id
                (record {
                  balance = snapshot.balance;
                  last_transaction_id = last_tx_id no_id txs;
                  source_version = source_version txs;
                  cache_version = version;
                  updated_at = rebuilt_at;
                })
                s.staging.staged_balance_cache;
        };
      },
      success (record {
        snapshot = record snapshot { last_transaction_id = last_tx_id no_id txs };
        source_version = source_version txs;
        cache_version = version;
      }),
    )

unfoldable pub rebuild_loop : TimePoint → List Account → Action (List BalanceCacheRebuildResult)
rebuild_loop rebuilt_at [] = pure []
rebuild_loop rebuilt_at (a ∷ accounts) = do
  txs ← reads (find_by_account a.id none none false)
  result ← rebuild_one rebuilt_at a txs (calculate_balance a.id txs a.currency rebuilt_at)
  results ← rebuild_loop rebuilt_at accounts
  pure (result ∷ results)

-- The accounts that `rebuild_balance_cache` is asked for.
unfoldable pub only : Option TypedId → List Account → RepositoryResult (List Account)
only none accounts = success accounts
only (some id) accounts = elim (filter (λ a. same_id a.id id) accounts) [
  | [] ↦ failure not_found
  | ◌∷◌ a rest ↦ success (a ∷ rest)
]

unfoldable pub valid_option : Option TypedId → Bool
valid_option none = true
valid_option (some id) = is_valid id

unfoldable pub rebuild_balance_cache :
    TransactionContext
    → TypedId
    → Option TypedId
    → TimePoint
    → Action (List BalanceCacheRebuildResult)
rebuild_balance_cache tx user_id account_id rebuilt_at s =
    if not s.in_transaction || not (has_tenant user_id tx) || not (valid_option account_id)
    then (s, failure validation_error)
    else elim (find_by_user user_id none s) [
      | failure e ↦ (s, failure e)
      | success accounts ↦ elim (only account_id accounts) [
        | failure e ↦ (s, failure e)
        | success chosen ↦ rebuild_loop rebuilt_at chosen s
      ]
    ]

pub record AccountBalanceAt : Type 0 where
  pub account : Account
  pub balance : Money

unfoldable pub archived_by : TimePoint → Account → Bool
archived_by as_of a = elim a.archived_at [ none ↦ false | some t ↦ leb_ℤ t as_of ]

-- The loop of `balances_at`.
unfoldable pub balances_loop : TimePoint → List Account → Action (List AccountBalanceAt)
balances_loop as_of [] = pure []
balances_loop as_of (a ∷ accounts) =
    let later = balances_loop as_of accounts in
    if archived_by as_of a then later else do
      txs ← reads (find_by_account a.id none none false)
      elim (calculate_balance_at a.id txs a.currency as_of) [
        | err e ↦ fail database_error
        | ok snapshot ↦ do
          rest ← later
          pure ((record { account = a; balance = snapshot.balance }) ∷ rest)
      ]

unfoldable pub balances_at : TypedId → TimePoint → Action (List AccountBalanceAt)
balances_at user_id as_of = do
  accounts ← reads (find_by_user user_id none)
  balances_loop as_of accounts

-- The currencies of the accounts that are not archived.
unfoldable pub active_currencies : List Account → List Currency
active_currencies [] = []
active_currencies (a ∷ accounts) =
    let rest = active_currencies accounts in if a.is_archived then rest else a.currency ∷ rest

unfoldable pub base_currencies : List InMemoryUserRecord → List Currency
base_currencies [] = []
base_currencies (u ∷ users) = u.base_currency ∷ base_currencies users

-- Each code once, at its first occurrence.
unfoldable pub distinct : List Bytes → List Currency → List Currency
distinct seen [] = []
distinct seen (c ∷ cs) =
    let rest = distinct seen cs in
    let rest' = distinct (c ∷ seen) cs in if Dict.elem c seen then rest else c ∷ rest'

unfoldable pub list_active_currencies : InMemoryStore → RepositoryResult (List Currency)
list_active_currencies s = success (
    distinct [] (
      active_currencies (IdMap.values (merged_accounts s))
      ++ base_currencies (
          IdMap.values (
            if s.in_transaction
            then IdMap.insert_all s.staging.staged_users s.tables.users
            else s.tables.users))))
