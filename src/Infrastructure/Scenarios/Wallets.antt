-- ===== src/Infrastructure/Scenarios/Wallets.antt =====
-- Runs of the account repository at concrete values.
use mathlib.Core.Logic.{inl}
use personal_finance_hub.Prelude.{◌≡◌, refl, bytes, bytes_eq}
use personal_finance_hub.Prelude.Int.{pos, negsuc, ◌+ℤ◌}
use personal_finance_hub.Prelude.IdMap
use personal_finance_hub.Domain.Account.{Account}
use personal_finance_hub.Domain.Transaction.{
  Transaction, TransactionType, income, expense, transfer,
}
use personal_finance_hub.Infrastructure.Repository.{failure, conflict}
use personal_finance_hub.Infrastructure.Store.{InMemoryStore, no_staging}
use personal_finance_hub.Infrastructure.Action.{◌>>=◌}
use personal_finance_hub.Domain.Balance.{BalanceSnapshot}
use personal_finance_hub.Domain.Decimal
use personal_finance_hub.Domain.Money
use personal_finance_hub.Infrastructure.Accounts
use personal_finance_hub.Infrastructure.Accounts.{find_by_id_for_user}
use personal_finance_hub.Infrastructure.Accounts.Locking
use personal_finance_hub.Infrastructure.Accounts.Locking.{save-conflict}
use personal_finance_hub.Infrastructure.Accounts.Balances.{balance_of, last_tx_id}
use personal_finance_hub.Infrastructure.Accounts.Balances.Coherence.{IsCoherent}
use personal_finance_hub.Infrastructure.Accounts.Balances.Exact.{
  IsReplayed, balance_of-exact, balance_of-IsCoherent,
}
use personal_finance_hub.Infrastructure.Accounts.Balances.Invalidated.{
  committed, uncached-IsCoherent, write-IsCoherent,
}
use personal_finance_hub.Infrastructure.Transactions
use personal_finance_hub.Infrastructure.Transactions.{
  find_by_account, filter, of_account, merge_transactions,
}
use personal_finance_hub.Infrastructure.Transactions.Save.{stage_transaction, save_single}
use personal_finance_hub.Infrastructure.UnitOfWork.{
  begin, finish, commit, commit_tables, stage_events,
}
use personal_finance_hub.Domain.Balance
use personal_finance_hub.Domain.Transaction
use personal_finance_hub.Infrastructure.Merged.{merged}
use personal_finance_hub.Infrastructure.Accounts.Balances
use personal_finance_hub.Infrastructure.Transactions.Checks
use personal_finance_hub.Infrastructure.Transactions.Save
use personal_finance_hub.Infrastructure.Scenarios.{cny, twelve, wallet, lunch, household}

abbrev running : InMemoryStore
running = begin household

abbrev with_lunch : InMemoryStore
with_lunch = (save_single lunch running).0

abbrev lunch_stored : Transaction
lunch_stored = record lunch {
  id = pos 21;
  amount = record { amount = negsuc 119999999999; currency = cny };
}

-- Two changes of one version of the wallet.
abbrev renamed : Account
renamed = record wallet { name = bytes "purse" }

abbrev described : Account
described = record wallet { description = bytes "cash at home" }

abbrev after_rename : InMemoryStore
after_rename = (Accounts.save renamed running).0

save-conflict_example :
    Accounts.save described (Locking.next after_rename)
    ≡ (Locking.next after_rename, failure conflict)
unfolding Accounts.save begin Accounts.user_exists IdMap.contains IdMap.find no_staging
    Accounts.update Accounts.existing Checks.staged_first Accounts.stage_account
    IdMap.insert_or_assign IdMap.elem finish commit commit_tables IdMap.insert_all stage_events
save-conflict_example =
    save-conflict renamed described running after_rename (pos 10) refl refl (tt, tt) refl refl refl
      refl refl

abbrev after_reading : InMemoryStore
after_reading = (balance_of (pos 10) (pos 30) household).0

abbrev wallet_balance : BalanceSnapshot
wallet_balance = record {
  account_id = pos 10;
  balance = record { amount = twelve; currency = cny };
  as_of = pos 30;
  last_transaction_id = pos 20;
}

balance_of-exact_example : IsReplayed (pos 10) (pos 30) household wallet_balance
unfolding Balances.cache_of Checks.staged_first IdMap.find balance_of ◌>>=◌ Accounts.find_by_id
    Accounts.is_staged_deleted_account find_by_account Balances.from_cache Balances.rebuild
    Balance.calculate_balance Decimal.from_integer Balance.balance_loop Transactions.sort filter
    IdMap.values merge_transactions Balance.apply_to Balance.apply_transaction Balance.signed_delta
    Decimal.add Decimal.checked_add Decimal.checked_mul Decimal.is_negative Decimal.negated
    Decimal.place_product Money.add Money.is_negative Money.negated Transaction.is_deleted
    Balances.cached_snapshot Balances.is_current last_tx_id Balances.next_cache_version
    Balances.rebuilt Balances.source_version Balances.write_back merged Transactions.before
    Transactions.in_range Transactions.insert_sorted of_account IdMap.insert_or_assign ◌+ℤ◌ bytes_eq
balance_of-exact_example =
    balance_of-exact (pos 10) (pos 30) household after_reading wallet_balance
      (uncached-IsCoherent (pos 10) household refl) refl

balance_of-IsCoherent_example : IsCoherent (pos 10) after_reading
unfolding Balances.cache_of Checks.staged_first IdMap.find balance_of ◌>>=◌ Accounts.find_by_id
    Accounts.is_staged_deleted_account find_by_account Balances.from_cache Balances.rebuild
    Balance.calculate_balance Decimal.from_integer Balance.balance_loop Transactions.sort filter
    IdMap.values merge_transactions Balance.apply_to Balance.apply_transaction Balance.signed_delta
    Decimal.add Decimal.checked_add Decimal.checked_mul Decimal.is_negative Decimal.negated
    Decimal.place_product Money.add Money.is_negative Money.negated Transaction.is_deleted
    Balances.cached_snapshot Balances.is_current last_tx_id Balances.next_cache_version
    Balances.rebuilt Balances.source_version Balances.write_back merged Transactions.before
    Transactions.in_range Transactions.insert_sorted of_account IdMap.insert_or_assign ◌+ℤ◌ bytes_eq
balance_of-IsCoherent_example =
    balance_of-IsCoherent (pos 10) (pos 10) (pos 30) household after_reading wallet_balance
      (uncached-IsCoherent (pos 10) household refl) refl

write-IsCoherent_example : IsCoherent (pos 10) (committed with_lunch)
unfolding save_single Save.save_checked Checks.check_single begin Transaction.is_deleted
    Checks.validate_amount_for_storage Money.is_zero Decimal.is_zero Decimal.fits_numeric_20_8
    Checks.ensure_account_matches_transaction Checks.account_matches Checks.staged_first IdMap.find
    no_staging bytes_eq Checks.ensure_category_matches_transaction Checks.storage_amount
    Money.is_positive Decimal.fits_numeric Decimal.fractional_digits_used Decimal.is_positive
    Decimal.negated Decimal.power_loop Decimal.trailing_zeros Money.negated Save.invalidate
    Save.next_transaction stage_transaction Save.stored IdMap.elem IdMap.erase
    IdMap.insert_or_assign ◌+ℤ◌
write-IsCoherent_example =
    write-IsCoherent lunch lunch_stored (pos 20) (pos 1) (pos 9) running with_lunch (inl refl)
