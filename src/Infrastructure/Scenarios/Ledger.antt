-- ===== src/Infrastructure/Scenarios/Ledger.antt =====
-- Runs of the transaction repository at concrete values.
use personal_finance_hub.Prelude.{◌≡◌, refl, true, false, none, some, List, [], ◌∷◌, bytes_eq}
use personal_finance_hub.Prelude.Int.{pos, negsuc, ◌+ℤ◌}
use personal_finance_hub.Prelude.IdMap
use personal_finance_hub.Domain.Transaction.{
  Transaction, TransactionType, income, expense, transfer,
}
use personal_finance_hub.Infrastructure.Repository.{success}
use personal_finance_hub.Infrastructure.Store.{InMemoryStore, no_staging}
use personal_finance_hub.Domain.Decimal
use personal_finance_hub.Domain.Money
use personal_finance_hub.Domain.Transfer.{TransferAggregate, outgoing_and_incoming}
use personal_finance_hub.Infrastructure.Transactions
use personal_finance_hub.Infrastructure.Transactions.{
  find_by_account, filter, of_account, merge_transactions,
}
use personal_finance_hub.Infrastructure.Transactions.Query.{find_by_id-commit}
use personal_finance_hub.Infrastructure.Transactions.Ranges.{
  IsWanted, IsAnswer, find_in_range-IsAnswer,
}
use personal_finance_hub.Infrastructure.Transactions.Save.{stage_transaction, save_single}
use personal_finance_hub.Infrastructure.Transactions.Save.Stored.{save_single-ok}
use personal_finance_hub.Infrastructure.Transactions.Save.Signs.{HasSigns}
use personal_finance_hub.Infrastructure.Transactions.Ledger.{
  LedgerWork, single, delete, run_ledger, run_ledger-HasSigns,
}
use personal_finance_hub.Infrastructure.Transactions.Transfers.{
  save_transfer, TransferPersistResult,
}
use personal_finance_hub.Infrastructure.Transactions.Transfers.Legs.{IsLeg, save_transfer-legs}
use personal_finance_hub.Infrastructure.UnitOfWork.{begin, finish, commit, stage_events}
use personal_finance_hub.Domain.Transaction
use personal_finance_hub.Infrastructure.Transactions.Checks
use personal_finance_hub.Infrastructure.Transactions.Save
use personal_finance_hub.Infrastructure.Transactions.Transfers
use personal_finance_hub.Infrastructure.Scenarios.{cny, twelve, salary, lunch, household}

abbrev running : InMemoryStore
running = begin household

-- A unit of work that stores the lunch and deletes the salary, and one that throws.
abbrev works : List LedgerWork
works =
    record {
      tenant = some (pos 1);
      writes = single lunch ∷ delete (pos 20) (pos 1) (pos 9) ∷ [];
      throws = false;
    }
    ∷ record { tenant = some (pos 1); writes = single lunch ∷ []; throws = true }
    ∷ []

run_ledger-HasSigns_example : HasSigns (run_ledger works household)
unfolding Money.is_positive Decimal.is_positive no_staging
run_ledger-HasSigns_example = run_ledger-HasSigns works household (((refl, refl), tt), tt)

abbrev with_salary : InMemoryStore
with_salary = stage_transaction salary running

find_by_id-commit_example :
    Transactions.find_by_id (pos 20) (finish (commit (stage_events with_salary)))
    ≡ Transactions.find_by_id (pos 20) with_salary
unfolding begin stage_transaction no_staging IdMap.insert_or_assign
find_by_id-commit_example = find_by_id-commit (pos 20) with_salary refl (tt, tt)

abbrev with_lunch : InMemoryStore
with_lunch = (save_single lunch running).0

abbrev lunch_stored : Transaction
lunch_stored = record lunch {
  id = pos 21;
  amount = record { amount = negsuc 119999999999; currency = cny };
}

save_single-ok_example : Transactions.find_by_id (pos 21) with_lunch ≡ success lunch_stored
unfolding save_single Save.save_checked Checks.check_single begin Transaction.is_deleted
    Checks.validate_amount_for_storage Money.is_zero Decimal.is_zero Decimal.fits_numeric_20_8
    Checks.ensure_account_matches_transaction Checks.account_matches Checks.staged_first IdMap.find
    no_staging bytes_eq Checks.ensure_category_matches_transaction Checks.storage_amount
    Money.is_positive Decimal.fits_numeric Decimal.fractional_digits_used Decimal.is_positive
    Decimal.negated Decimal.power_loop Decimal.trailing_zeros Money.negated Save.invalidate
    Save.next_transaction stage_transaction Save.stored IdMap.elem IdMap.erase
    IdMap.insert_or_assign ◌+ℤ◌
save_single-ok_example = (save_single-ok lunch running with_lunch lunch_stored refl refl).3

find_in_range-IsAnswer_example :
    IsAnswer
      (λ tx. IsWanted (pos 10) tx.account_id (some (pos 5)) (some (pos 7)) false tx)
      (IdMap.values (merge_transactions household))
      (find_by_account (pos 10) (some (pos 5)) (some (pos 7)) false household)
find_in_range-IsAnswer_example =
    (find_in_range-IsAnswer (pos 10) (some (pos 5)) (some (pos 7)) false household).0

abbrev saving : TransferAggregate
saving = record {
  mode = outgoing_and_incoming;
  outgoing = record lunch { type = transfer };
  incoming = record lunch { type = transfer; account_id = pos 11 };
  rate = none;
  adjustments = [];
}

abbrev with_transfer : InMemoryStore
with_transfer = (save_transfer saving running).0

abbrev transfer_ids : TransferPersistResult
transfer_ids = record {
  group_id = pos 1;
  outgoing_id = pos 21;
  incoming_id = pos 22;
  adjustment_ids = [];
}

save_transfer-legs_example :
    IsLeg (pos 22) with_transfer (record { amount = twelve; currency = cny }) (pos 11) (pos 1)
unfolding save_transfer Transfers.save_transfer_checked Transfers.check_transfer Transfers.has_group
    Transfers.are_legs Transfers.rate_fits Transfers.check_adjustments Transfers.stage_adjustments
    Transfers.stage_legs Transfers.stage_member Transfers.stage_group Transfers.member begin
    Transaction.is_deleted Checks.validate_amount_for_storage Money.is_zero Decimal.is_zero
    Decimal.fits_numeric_20_8 Checks.ensure_account_matches_transaction Checks.account_matches
    Checks.staged_first IdMap.find no_staging bytes_eq Checks.ensure_category_matches_transaction
    Money.is_positive Decimal.fits_numeric Decimal.fractional_digits_used Decimal.is_positive
    Decimal.negated Decimal.power_loop Decimal.trailing_zeros Money.negated Save.invalidate
    Save.next_transaction stage_transaction IdMap.elem IdMap.erase IdMap.insert_or_assign ◌+ℤ◌
save_transfer-legs_example = (save_transfer-legs saving running with_transfer transfer_ids refl).2
