-- ===== src/Infrastructure/Transactions/Save/Stored.antt =====
-- What is known of a transaction after it is stored, and the invariant of the stored ones.
use personal_finance_hub.Prelude.{
  ◌≡◌, refl, sym, ap, true, false, not, ◌||◌, Option, none, some, not-false, arith,
}
use personal_finance_hub.Prelude.Int.{eqb_ℤ_refl}
use personal_finance_hub.Prelude.IdMap
use personal_finance_hub.Prelude.IdMap.{IdMap, has_value, or_else, elem}
use personal_finance_hub.Domain.Account.{Account}
use personal_finance_hub.Domain.Currency.{same_currency}
use personal_finance_hub.Domain.Decimal
use personal_finance_hub.Domain.Ids.{is_valid, same_id}
use personal_finance_hub.Domain.Money
use personal_finance_hub.Domain.Money.{Money}
use personal_finance_hub.Domain.Transaction.{
  Transaction, TransactionType, income, expense, transfer, adjustment, is_deleted,
}
use personal_finance_hub.Domain.Transfer.{is_transfer}
use personal_finance_hub.Infrastructure.Repository.{
  RepositoryResult, success, failure, validation_error, failure-ne-success, success-injective,
  guard-eq-success, >>-eq-success, checked-success, reject_if-eq-success,
}
use personal_finance_hub.Infrastructure.Store.{InMemoryStore}
use personal_finance_hub.Infrastructure.Transactions.{find_by_id, is_staged_deleted_tx}
use personal_finance_hub.Infrastructure.Transactions.Checks.{
  validate_amount_for_storage, storage_amount, check_single, ensure_account_matches_transaction,
  ensure_category_matches_transaction, account_matches, staged_first,
}
use personal_finance_hub.Infrastructure.Transactions.Save.{
  save_single, save_checked, stored, stage_transaction, next_transaction, invalidate,
}

-- An income is stored as a positive amount and an expense as a negative one; no amount is zero.
abbrev pub HasSign : TransactionType → Money → Type 0
HasSign income m = Money.is_positive m ≡ true
HasSign expense m = Money.is_negative m ≡ true
HasSign transfer m = Money.is_zero m ≡ false
HasSign adjustment m = Money.is_zero m ≡ false

negated-is_negative :
    (m : Money) → Money.is_positive m ≡ true → Money.is_negative (Money.negated m) ≡ true
unfolding Money.is_positive Money.is_negative Money.negated Decimal.is_positive Decimal.is_negative
    Decimal.negated
negated-is_negative m h = ground arith

pub storage_amount-HasSign :
    (type : TransactionType) (m : Money) {amount : Money}
    → validate_amount_for_storage m ≡ success tt
    → storage_amount type m ≡ success amount
    → HasSign type amount
unfolding storage_amount validate_amount_for_storage
storage_amount-HasSign income m v e =
    let (p, same) = checked-success (not (Money.is_positive m)) validation_error (success m) e in
    rw (sym (success-injective same)) (not-false (Money.is_positive m) p)
storage_amount-HasSign expense m v e =
    let (p, same) =
      checked-success (not (Money.is_positive m)) validation_error (success (Money.negated m)) e in
    rw (sym (success-injective same)) (negated-is_negative m (not-false (Money.is_positive m) p))
storage_amount-HasSign transfer m v e = rw (sym (success-injective e)) (guard-eq-success _ _ _ v).0
storage_amount-HasSign adjustment m v e =
    rw (sym (success-injective e)) (guard-eq-success _ _ _ v).0

storage_amount-currency :
    (type : TransactionType) (m : Money) {amount : Money}
    → storage_amount type m ≡ success amount
    → amount.currency ≡ m.currency
unfolding storage_amount Money.negated
storage_amount-currency income m e =
    ap (λ a. a.currency)
      (sym (success-injective (checked-success (not (Money.is_positive m)) validation_error _ e).1))
storage_amount-currency expense m e =
    ap (λ a. a.currency)
      (sym (success-injective (checked-success (not (Money.is_positive m)) validation_error _ e).1))
storage_amount-currency transfer m e = ap (λ a. a.currency) (sym (success-injective e))
storage_amount-currency adjustment m e = ap (λ a. a.currency) (sym (success-injective e))

-- A transaction passes all checks.
pub check_single-passed :
    (tx : Transaction) (s : InMemoryStore) {amount : Money}
    → check_single tx s ≡ success amount
    → (s.in_transaction ≡ true)
      × (validate_amount_for_storage tx.amount ≡ success tt)
      × (ensure_account_matches_transaction tx s ≡ success tt)
      × (ensure_category_matches_transaction tx s ≡ success tt)
      × (storage_amount tx.type tx.amount ≡ success amount)
unfolding check_single
check_single-passed tx s e =
    let (running, e1) = guard-eq-success _ _ _ e in
    let (new, e2) = guard-eq-success (is_valid tx.id || is_deleted tx) validation_error _ e1 in
    let (single, e3) = guard-eq-success (has_value tx.transfer_group_id) validation_error _ e2 in
    let (plain, e4) = guard-eq-success (is_transfer tx.type) validation_error _ e3 in
    let (amount_ok, e5) = >>-eq-success _ _ e4 in
    let (account_ok, e6) = >>-eq-success _ _ e5 in
    let (category_ok, e7) = >>-eq-success _ _ e6 in
    (not-false s.in_transaction running, amount_ok, account_ok, category_ok, e7)

account_matches-success :
    (tx : Transaction) (found : Option Account)
    → account_matches tx found ≡ success tt
    → (a : Account) × (found ≡ some a)
      × (same_id a.owner tx.user_id ≡ true)
      × (same_currency a.currency tx.amount.currency ≡ true)
unfolding account_matches
account_matches-success tx none e = absurd (failure-ne-success e)
account_matches-success tx (some a) e =
    let (mine, e1) = guard-eq-success (not (same_id a.owner tx.user_id)) validation_error _ e in
    (a, refl, not-false _ mine, not-false _ (reject_if-eq-success _ _ e1))

-- The account that a transaction is checked against.
abbrev pub account_of : Transaction → InMemoryStore → Option Account
account_of tx s =
    staged_first s.in_transaction tx.account_id s.staging.staged_accounts s.tables.accounts

pub save_checked-success :
    (tx : Transaction) (r : RepositoryResult Money) (s : InMemoryStore) {t : InMemoryStore}
    {saved : Transaction}
    → save_checked tx r s ≡ (t, success saved)
    → (amount : Money) × (r ≡ success amount)
      × (saved ≡ stored tx amount s)
      × (t ≡ invalidate tx.account_id (stage_transaction (stored tx amount s) (next_transaction s)))
unfolding save_checked
save_checked-success tx (failure e) s h = absurd (failure-ne-success (ap (λ y. y.1) h))
save_checked-success tx (success amount) s h =
    (amount, refl, sym (success-injective (ap (λ y. y.1) h)), sym (ap (λ y. y.0) h))

find-saved :
    (tx : Transaction) (amount : Money) (s : InMemoryStore)
    → s.in_transaction ≡ true
    → elem s.next_transaction_id s.staging.staged_deleted_transactions ≡ false
    → find_by_id s.next_transaction_id
        (invalidate tx.account_id (stage_transaction (stored tx amount s) (next_transaction s)))
      ≡ success (stored tx amount s)
unfolding find_by_id is_staged_deleted_tx invalidate stage_transaction next_transaction stored
find-saved tx amount s running kept =
    rw
      (
        find_by_id,
        is_staged_deleted_tx,
        running,
        kept,
        IdMap.find-insert_or_assign s.next_transaction_id s.next_transaction_id (stored tx amount s)
            s.staging.staged_transactions,
        eqb_ℤ_refl s.next_transaction_id,
      )
      refl

-- A transaction is only stored under the next id, with the sign of its type, in the currency of an
-- account of its user; and it is found again, if its id was not already deleted.
pub save_single-ok :
    (tx : Transaction) (s t : InMemoryStore) (saved : Transaction)
    → save_single tx s ≡ (t, success saved)
    → elem s.next_transaction_id s.staging.staged_deleted_transactions ≡ false
    → (saved.id ≡ s.next_transaction_id)
      × HasSign saved.type saved.amount
      × ((a : Account) × (account_of tx s ≡ some a)
          × (same_id a.owner saved.user_id ≡ true)
          × (same_currency a.currency saved.amount.currency ≡ true))
      × (find_by_id saved.id t ≡ success saved)
unfolding save_single stored ensure_account_matches_transaction
save_single-ok tx s t saved e kept =
    let (amount, passed, is_stored, is_after) = save_checked-success tx (check_single tx s) s e in
    let (running, amount_ok, account_ok, category_ok, sign) = check_single-passed tx s passed in
    let (a, here, mine, currency) = account_matches-success tx (account_of tx s) account_ok in
    rw (is_stored, is_after)
      (
        refl,
        storage_amount-HasSign tx.type tx.amount amount_ok sign,
        (a, here, mine, rw (storage_amount-currency tx.type tx.amount sign) currency),
        find-saved tx amount s running kept,
      )
