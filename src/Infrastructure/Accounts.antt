-- ===== src/Infrastructure/Accounts.antt =====
-- include/pfh/infrastructure/persistence/in_memory_account_repository.h: the accounts of the store,
-- their optimistic lock, and the cache of their balances. `now` is the clock's reading.
pub mod Locking
pub mod Ownership
pub mod Balances
use personal_finance_hub.Prelude.{
  Bool, true, false, not, ◌&&◌, ◌||◌, Option, none, some, List, [], ◌∷◌, ◌++◌, length, bytes_eq,
  if◌then◌else◌,
}
use personal_finance_hub.Prelude.Int.{ℤ, pos, ◌+ℤ◌, eqb_ℤ, ltb_ℤ, leb_ℤ}
use personal_finance_hub.Prelude.IdMap
use personal_finance_hub.Prelude.IdMap.{IdMap, elem, has_value}
use personal_finance_hub.Domain.Account.{Account, AccountCategory, category}
use personal_finance_hub.Domain.Balance.{BalanceSnapshot, calculate_balance, calculate_balance_at}
use personal_finance_hub.Domain.Currency.{Currency, same_currency}
use personal_finance_hub.Domain.Error.{DomainResult, ok, err}
use personal_finance_hub.Domain.ExchangeRate.{TimePoint}
use personal_finance_hub.Domain.Ids.{TypedId, is_valid, same_id, no_id}
use personal_finance_hub.Domain.Money.{Money}
use personal_finance_hub.Domain.Transaction.{Transaction}
use personal_finance_hub.Infrastructure.Repository.{
  RepositoryResult, success, failure, not_found, validation_error, conflict, database_error,
}
use personal_finance_hub.Infrastructure.Store.{
  InMemoryStore, InMemoryBalanceCache, InMemoryUserRecord,
}
use personal_finance_hub.Infrastructure.Action.{Action, reads, pure, required, ◌>>=◌, ◌>>◌}
use personal_finance_hub.Infrastructure.Merged.{merged}
use personal_finance_hub.Infrastructure.Transactions
use personal_finance_hub.Infrastructure.Transactions.{find_by_account}
use personal_finance_hub.Infrastructure.Transactions.Checks.{staged_first}

unfoldable pub is_staged_deleted_account : TypedId → InMemoryStore → Bool
is_staged_deleted_account id s = s.in_transaction && elem id s.staging.staged_deleted_accounts

unfoldable pub user_exists : TypedId → InMemoryStore → Bool
user_exists user_id s =
    s.in_transaction && IdMap.contains user_id s.staging.staged_users
    || IdMap.contains user_id s.tables.users

unfoldable pub find_by_id : TypedId → InMemoryStore → RepositoryResult Account
find_by_id id s =
    if is_staged_deleted_account id s
    then failure not_found
    else required (staged_first s.in_transaction id s.staging.staged_accounts s.tables.accounts)
        not_found

-- An account of another user is not told apart from one that does not exist.
unfoldable pub owned : TypedId → RepositoryResult Account → RepositoryResult Account
owned user_id (failure e) = failure e
owned user_id (success account) =
    if not (same_id account.owner user_id) then failure not_found else success account

unfoldable pub find_by_id_for_user : TypedId → TypedId → InMemoryStore → RepositoryResult Account
find_by_id_for_user id user_id s = owned user_id (find_by_id id s)

unfoldable pub find_by_id_for_update : TypedId → TypedId → InMemoryStore → RepositoryResult Account
find_by_id_for_update id user_id s =
    if not s.in_transaction then failure database_error else find_by_id_for_user id user_id s

unfoldable pub merged_accounts : InMemoryStore → IdMap Account
merged_accounts s =
    merged s.in_transaction s.staging.staged_accounts s.staging.staged_deleted_accounts
      s.tables.accounts

unfoldable pub filter : (Account → Bool) → List Account → List Account
filter keep [] = []
filter keep (a ∷ accounts) = let rest = filter keep accounts in if keep a then a ∷ rest else rest

unfoldable pub same_flag : Bool → Bool → Bool
same_flag true b = b
same_flag false b = not b

-- The accounts of a user; archived ones, active ones, or both.
unfoldable pub of_user : TypedId → Option Bool → Account → Bool
of_user user_id archived a =
    same_id a.owner user_id
    && (elim archived [ none ↦ true | some flag ↦ same_flag a.is_archived flag ])

unfoldable pub find_by_user :
    TypedId → Option Bool → InMemoryStore → RepositoryResult (List Account)
find_by_user user_id archived s =
    success (filter (of_user user_id archived) (IdMap.values (merged_accounts s)))

unfoldable pub find_active_by_user : TypedId → InMemoryStore → RepositoryResult (List Account)
find_active_by_user user_id s = find_by_user user_id (some false) s

unfoldable pub any : List Transaction → Bool
any [] = false
any (tx ∷ txs) = true

unfoldable pub has_transactions : TypedId → InMemoryStore → RepositoryResult Bool
has_transactions id s =
    if not s.in_transaction
    then failure database_error
    else elim (find_by_account id none none true s) [
      | failure e ↦ failure e
      | success txs ↦ success (any txs)
    ]

-- An account is stored with a given id and version; a category of its own is kept.
unfoldable pub with_version : TypedId → ℤ → Account → Account
with_version id version a = record a {
  id = id;
  version = version;
  category_override = if has_value a.category_override then some (category a) else none;
}

unfoldable pub stage_account : ℤ → Account → InMemoryStore → InMemoryStore
stage_account id a s = record s {
  staging = record s.staging {
    staged_accounts = IdMap.insert_or_assign id a s.staging.staged_accounts;
  };
}

unfoldable pub create : Account → Action TypedId
create a s = (
  record s {
    next_account_id = s.next_account_id +ℤ pos 1;
    staging = record s.staging {
      staged_accounts =
          IdMap.emplace s.next_account_id (with_version s.next_account_id (pos 1) a)
            s.staging.staged_accounts;
    };
  },
  success s.next_account_id,
)

-- The account that an update replaces: the staged one, else the committed one.
unfoldable pub existing : TypedId → InMemoryStore → Option Account
existing id s = staged_first true id s.staging.staged_accounts s.tables.accounts

unfoldable pub update : Account → Option Account → Action TypedId
update a none s = (s, failure not_found)
update a (some old) s =
    if not (same_id a.owner old.owner)
    then (s, failure validation_error)
    else if not (eqb_ℤ a.version old.version)
    then (s, failure conflict)
    else (stage_account a.id (with_version a.id (a.version +ℤ pos 1) a) s, success a.id)

unfoldable pub save : Account → Action TypedId
save a s =
    if not s.in_transaction
    then (s, failure database_error)
    else if not (user_exists a.owner s)
    then (s, failure not_found)
    else if not (is_valid a.id)
    then create a s
    else update a (existing a.id s) s

unfoldable pub delete_balance_cache : TypedId → Action (Unit {0})
delete_balance_cache id s = if not s.in_transaction then (s, failure database_error) else (
  record s {
    staging = record s.staging {
      staged_balance_cache = IdMap.erase id s.staging.staged_balance_cache;
      staged_deleted_balance_cache = s.staging.staged_deleted_balance_cache ++ id ∷ [];
    };
  },
  success tt,
)

unfoldable pub physical_delete : TypedId → Action (Unit {0})
physical_delete id s = if not s.in_transaction then (s, failure database_error) else (
  record s {
    staging = record s.staging {
      staged_accounts = IdMap.erase id s.staging.staged_accounts;
      staged_deleted_accounts = s.staging.staged_deleted_accounts ++ id ∷ [];
    };
  },
  success tt,
)
