-- ===== src/Infrastructure/Transactions/Save/Signs.antt =====
-- The stored transactions keep the sign of their types, staged and committed.
use personal_finance_hub.Prelude.{
  ◌≡◌, refl, sym, ◌∙◌, inl, inr, Bool, true, false, not, Option, none, some, List, Bool-cases,
  not-false, Option-cases,
}
use personal_finance_hub.Prelude.Int.{ℤ}
use personal_finance_hub.Prelude.IdMap
use personal_finance_hub.Prelude.IdMap.{IdMap, elem, or_else}
use personal_finance_hub.Prelude.IdMap.Each.{
  Each, find-Each, insert_or_assign-Each, insert_all-Each, erase_all-Each,
}
use personal_finance_hub.Domain.ExchangeRate.{TimePoint}
use personal_finance_hub.Domain.Ids.{TypedId, same_id}
use personal_finance_hub.Domain.Money.{Money}
use personal_finance_hub.Domain.Transaction.{Transaction, mark_deleted}
use personal_finance_hub.Infrastructure.Repository.{
  RepositoryResult, success, failure, not_found, database_error, failure-ne-success,
  success-injective, guard-eq-success, >>=-eq-success,
}
use personal_finance_hub.Infrastructure.Store.{InMemoryStore, no_staging}
use personal_finance_hub.Infrastructure.Action.{Keeps, keeps_rules, required}
use personal_finance_hub.Infrastructure.Merged.{visible}
use personal_finance_hub.Infrastructure.UnitOfWork.{
  TransactionContext, Outcome, begin, finish, commit, commit_tables, stage_events, close,
  run_transaction,
}
use personal_finance_hub.Infrastructure.UnitOfWork.Atomicity.{
  run_transaction-close, run_transaction-nested, opened,
}
use personal_finance_hub.Infrastructure.Transactions.{find_by_id}
use personal_finance_hub.Infrastructure.Transactions.Query.{find_by_id-visible}
use personal_finance_hub.Infrastructure.Transactions.Checks.{check_single, find_deletable}
use personal_finance_hub.Infrastructure.Transactions.Save.{
  save_single, save_checked, stored, stage_transaction, next_transaction, invalidate, soft_delete,
  delete_found, stage_correction, save_correction,
}
use personal_finance_hub.Infrastructure.Transactions.Save.Stored.{
  HasSign, check_single-passed, storage_amount-HasSign,
}

-- A transaction is stored under its id, with the sign of its type.
abbrev pub IsSigned : ℤ → Transaction → Type 0
IsSigned key tx = (key ≡ tx.id) × HasSign tx.type tx.amount

abbrev pub HasSigns : InMemoryStore → Type 0
HasSigns s = Each IsSigned s.tables.transactions × Each IsSigned s.staging.staged_transactions

pub stage-HasSigns :
    (tx : Transaction) (s : InMemoryStore)
    → HasSign tx.type tx.amount
    → HasSigns s
    → HasSigns (stage_transaction tx s)
unfolding stage_transaction
stage-HasSigns tx s h (committed, staged) = (
  committed,
  insert_or_assign-Each IsSigned tx.id tx s.staging.staged_transactions (refl, h) staged,
)

pub invalidate-HasSigns :
    (account_id : TypedId) (s : InMemoryStore) → HasSigns s → HasSigns (invalidate account_id s)
unfolding invalidate
invalidate-HasSigns account_id s h = h

pub next-HasSigns : (s : InMemoryStore) → HasSigns s → HasSigns (next_transaction s)
unfolding next_transaction
next-HasSigns s h = h

save_checked-HasSigns :
    (tx : Transaction) (r : RepositoryResult Money) (s : InMemoryStore)
    → check_single tx s ≡ r
    → HasSigns s
    → HasSigns (save_checked tx r s).0
unfolding save_checked stored
save_checked-HasSigns tx (failure e) s passed h = h
save_checked-HasSigns tx (success amount) s passed h =
    let (running, amount_ok, account_ok, category_ok, sign) = check_single-passed tx s passed in
    invalidate-HasSigns tx.account_id _ (
      stage-HasSigns (stored tx amount s) (next_transaction s)
        (storage_amount-HasSign tx.type tx.amount amount_ok sign) (next-HasSigns s h))

pub save_single-Keeps : (tx : Transaction) → Keeps HasSigns (save_single tx)
unfolding save_single
save_single-Keeps tx = record { at = λ s h. save_checked-HasSigns tx (check_single tx s) s refl h }

required-IsSigned :
    (id : ℤ) (o : Option Transaction) {tx : Transaction}
    → ((t : Transaction) → o ≡ some t → IsSigned id t)
    → required o not_found ≡ success tx
    → IsSigned id tx
required-IsSigned id none h e = absurd (failure-ne-success e)
required-IsSigned id (some t) h e = rw (sym (success-injective e)) (h t refl)

visible-IsSigned :
    (id : ℤ) (in_transaction : Bool) (staged : IdMap Transaction) (deleted : List ℤ)
    (committed : IdMap Transaction) {tx : Transaction}
    → Each IsSigned staged
    → Each IsSigned committed
    → visible id in_transaction staged deleted committed ≡ some tx
    → IsSigned id tx
unfolding visible
visible-IsSigned id false staged deleted committed hs hc = λ e. find-Each IsSigned id committed hc e
visible-IsSigned id true staged deleted committed hs hc = elim (Bool-cases (elem id deleted)) [
  | inl gone ↦ rw gone λ e. absurd cc
  | inr kept ↦ rw kept (elim (Option-cases (IdMap.find id staged)) [
    | inl absent ↦ rw absent λ e. find-Each IsSigned id committed hc e
    | inr (t, there) ↦ rw there λ e. find-Each IsSigned id staged hs (there ∙ e)
  ])
]

-- A transaction that is found has the sign of its type.
found-IsSigned :
    (id : TypedId) (s : InMemoryStore) {tx : Transaction}
    → HasSigns s
    → find_by_id id s ≡ success tx
    → IsSigned id tx
found-IsSigned id s h e =
    required-IsSigned id _
      (λ t.
        visible-IsSigned id s.in_transaction s.staging.staged_transactions
          s.staging.staged_deleted_transactions s.tables.transactions h.1 h.0)
      (sym (find_by_id-visible id s) ∙ e)

pub found_deletable :
    (id user_id : TypedId) (s : InMemoryStore) {tx : Transaction}
    → find_deletable id user_id s ≡ success tx
    → (find_by_id id s ≡ success tx) × (same_id tx.user_id user_id ≡ true)
unfolding find_deletable
found_deletable id user_id s e =
    let (running, e1) = guard-eq-success (not s.in_transaction) database_error _ e in
    let (tx, found, e2) = >>=-eq-success (find_by_id id s) _ e1 in
    let (mine, e3) = guard-eq-success (not (same_id tx.user_id user_id)) not_found _ e2 in
    rw (sym (success-injective e3)) (found, not-false _ mine)

delete_found-HasSigns :
    (id : TypedId) (at : TimePoint) (r : RepositoryResult Transaction) (s : InMemoryStore)
    → ((tx : Transaction) → r ≡ success tx → find_by_id id s ≡ success tx)
    → HasSigns s
    → HasSigns (delete_found id at r s).0
unfolding delete_found mark_deleted
delete_found-HasSigns id at (failure e) s found h = h
delete_found-HasSigns id at (success tx) s found h = invalidate-HasSigns tx.account_id _ (
  h.0,
  insert_or_assign-Each IsSigned id _ s.staging.staged_transactions
      (found-IsSigned id s h (found tx refl)) h.1,
)

pub soft_delete-Keeps :
    (id user_id : TypedId) (at : TimePoint) → Keeps HasSigns (soft_delete id user_id at)
unfolding soft_delete
soft_delete-Keeps id user_id at = record {
  at = λ s h.
      delete_found-HasSigns id at (find_deletable id user_id s) s
        (λ tx e. (found_deletable id user_id s e).0) h;
}

pub save_correction-Keeps :
    (original_id : TypedId) (replacement : Transaction) (at : TimePoint)
    → Keeps HasSigns (save_correction original_id replacement at)
unfolding save_correction stage_correction
save_correction-Keeps original_id replacement at =
    search (keeps_rules, save_single-Keeps, soft_delete-Keeps)

begin-HasSigns : (s : InMemoryStore) → HasSigns s → HasSigns (begin s)
unfolding begin no_staging
begin-HasSigns s h = (h.0, tt)

close-HasSigns :
    (s : InMemoryStore) (r : RepositoryResult (Unit {0})) → HasSigns s → HasSigns (close s r).0
unfolding close finish commit commit_tables stage_events no_staging
close-HasSigns s (failure e) h = (h.0, tt)
close-HasSigns s (success u) h = (
  erase_all-Each IsSigned s.staging.staged_deleted_transactions _
      (insert_all-Each IsSigned s.staging.staged_transactions s.tables.transactions h.1 h.0),
  tt,
)

-- A unit of work whose action is made of the writes of the repository, in any order, keeps the
-- invariant of the stored transactions: each is under its own id, an income is positive, an
-- expense negative and no amount zero. It does so whether it commits, is rolled back or throws.
pub run_transaction-HasSigns :
    (tenant : Option TypedId)
    (action : TransactionContext → InMemoryStore → InMemoryStore × Outcome)
    → ((tx : TransactionContext) (s : InMemoryStore) → HasSigns s → HasSigns (action tx s).0)
    → (s : InMemoryStore) → HasSigns s
    → HasSigns (run_transaction tenant action s).0
run_transaction-HasSigns tenant action keeps s h = elim (Bool-cases s.in_transaction) [
  | inl running ↦ rw (run_transaction-nested tenant action s running) h
  | inr shut ↦ rw (run_transaction-close tenant action s shut) (
      close-HasSigns (action (opened tenant s) (begin s)).0 _
        (keeps (opened tenant s) (begin s) (begin-HasSigns s h)))
]
