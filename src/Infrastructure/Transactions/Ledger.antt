-- ===== src/Infrastructure/Transactions/Ledger.antt =====
-- Any sequence of units of work over the writes of the transaction repository.
use personal_finance_hub.Prelude.{
  inl, inr, Bool, true, false, not, ◌&&◌, Option, List, [], ◌∷◌, if◌then◌else◌, Bool-cases,
}
use personal_finance_hub.Prelude.Int.{ℤ}
use personal_finance_hub.Prelude.IdMap.{IdMap}
use personal_finance_hub.Prelude.IdMap.Each.{erase-Each}
use personal_finance_hub.Domain.ExchangeRate.{TimePoint}
use personal_finance_hub.Domain.Ids.{TypedId, same_id}
use personal_finance_hub.Domain.Transaction.{Transaction}
use personal_finance_hub.Domain.Transfer.{TransferAggregate, is_transfer}
use personal_finance_hub.Infrastructure.Store.{InMemoryStore}
use personal_finance_hub.Infrastructure.Action.{
  Action, pure, Keeps, Keeps-bind, Keeps-pure, ◌>>=◌, ◌>>◌,
}
use personal_finance_hub.Infrastructure.UnitOfWork.{
  TransactionContext, Outcome, returned, threw, run_transaction,
}
use personal_finance_hub.Infrastructure.Transactions.Save.{
  save_single, soft_delete, save_correction,
}
use personal_finance_hub.Infrastructure.Transactions.Save.Signs.{
  IsSigned, HasSigns, invalidate-HasSigns, save_single-Keeps, soft_delete-Keeps,
  save_correction-Keeps, run_transaction-HasSigns,
}
use personal_finance_hub.Infrastructure.Transactions.Transfers.{save_transfer}
use personal_finance_hub.Infrastructure.Transactions.Transfers.Saved.{save_transfer-Keeps}
use personal_finance_hub.Infrastructure.Transactions.Transfers.Signs.{
  soft_delete_transfer-Keeps, save_transfer_correction-Keeps,
}
use personal_finance_hub.Infrastructure.Transactions.Transfers.Delete.{
  soft_delete_transfer, save_transfer_correction,
}
use personal_finance_hub.Infrastructure.Transactions.Transfers.Physical.{
  stage_correction_deletions_for, stage_transfer_correction_deletions_for, remove_transaction,
  plain_loop, physical_delete_by_account, in_groups, member_loop, remove_group, group_loop,
  physical_delete_transfers_touching_account,
}

-- One call of the repository that writes.
pub data LedgerWrite : Type 0 where
  single : Transaction → LedgerWrite
  delete : TypedId → TypedId → TimePoint → LedgerWrite
  correction : TypedId → Transaction → TimePoint → LedgerWrite
  new_transfer : TransferAggregate → LedgerWrite
  delete_transfer : TypedId → TypedId → TimePoint → LedgerWrite
  transfer_correction : TypedId → TransferAggregate → TimePoint → LedgerWrite
  remove_account_rows : TypedId → LedgerWrite
  remove_account_transfers : TypedId → LedgerWrite

-- The call, whose value is not used.
unfoldable pub perform : LedgerWrite → Action (Unit {0})
perform (single tx) = save_single tx >>= λ _. pure tt
perform (delete id user_id at) = soft_delete id user_id at
perform (correction id tx at) = save_correction id tx at >>= λ _. pure tt
perform (new_transfer a) = save_transfer a >>= λ _. pure tt
perform (delete_transfer group user_id at) = soft_delete_transfer group user_id at
perform (transfer_correction group a at) = save_transfer_correction group a at >>= λ _. pure tt
perform (remove_account_rows id) = physical_delete_by_account id
perform (remove_account_transfers id) = physical_delete_transfers_touching_account id

unfoldable pub perform_all : List LedgerWrite → Action (Unit {0})
perform_all [] = pure tt
perform_all (w ∷ ws) = perform w >> perform_all ws

-- A unit of work: its tenant, its writes, and whether it throws after them.
pub record LedgerWork : Type 0 where
  pub tenant : Option TypedId
  pub writes : List LedgerWrite
  pub throws : Bool

unfoldable pub work_action :
    LedgerWork → TransactionContext → InMemoryStore → InMemoryStore × Outcome
work_action w tx s =
    let (t, r) = perform_all w.writes s in (t, if w.throws then threw else returned r)

-- The units of work in their order; an error of one does not stop the next.
unfoldable pub run_ledger : List LedgerWork → InMemoryStore → InMemoryStore
run_ledger [] s = s
run_ledger (w ∷ ws) s = run_ledger ws (run_transaction w.tenant (work_action w) s).0

remove_transaction-HasSigns :
    (id : ℤ) (s : InMemoryStore) → HasSigns s → HasSigns (remove_transaction id s)
unfolding remove_transaction stage_correction_deletions_for
remove_transaction-HasSigns id s (h, k) =
    (h, erase-Each IsSigned id s.staging.staged_transactions k)

choose-HasSigns :
    (b : Bool) (s t : InMemoryStore) → HasSigns s → HasSigns t → HasSigns (if b then s else t)
choose-HasSigns true s t h k = h
choose-HasSigns false s t h k = k

plain_loop-HasSigns :
    (account_id : TypedId) (rows : IdMap Transaction) (s : InMemoryStore)
    → HasSigns s
    → HasSigns (plain_loop account_id rows s)
unfolding plain_loop
plain_loop-HasSigns account_id [] s h = h
plain_loop-HasSigns account_id ((id, tx) ∷ rows) s h = plain_loop-HasSigns account_id rows _ (
    choose-HasSigns (same_id tx.account_id account_id && not (is_transfer tx.type)) _ s
      (remove_transaction-HasSigns id s h) h)

member_loop-HasSigns :
    (groups : List ℤ) (rows : IdMap Transaction) (s : InMemoryStore)
    → HasSigns s
    → HasSigns (member_loop groups rows s)
unfolding member_loop
member_loop-HasSigns groups [] s h = h
member_loop-HasSigns groups ((id, tx) ∷ rows) s h = member_loop-HasSigns groups rows _ (
    choose-HasSigns (in_groups groups tx) _ s
      (invalidate-HasSigns tx.account_id _ (remove_transaction-HasSigns id s h)) h)

group_loop-HasSigns :
    (groups : List ℤ) (s : InMemoryStore) → HasSigns s → HasSigns (group_loop groups s)
unfolding group_loop remove_group stage_transfer_correction_deletions_for
group_loop-HasSigns [] s h = h
group_loop-HasSigns (group ∷ groups) s h = group_loop-HasSigns groups _ h

physical_delete_by_account-Keeps :
    (account_id : TypedId) → Keeps HasSigns (physical_delete_by_account account_id)
unfolding physical_delete_by_account
physical_delete_by_account-Keeps account_id = record {
  at = λ s h. elim (Bool-cases (not s.in_transaction)) [
    | inl e ↦ rw (physical_delete_by_account, e) h
    | inr e ↦ rw (physical_delete_by_account, e) (plain_loop-HasSigns account_id _ s h)
  ];
}

physical_delete_transfers-Keeps :
    (account_id : TypedId) → Keeps HasSigns (physical_delete_transfers_touching_account account_id)
unfolding physical_delete_transfers_touching_account
physical_delete_transfers-Keeps account_id = record {
  at = λ s h. elim (Bool-cases (not s.in_transaction)) [
    | inl e ↦ rw (physical_delete_transfers_touching_account, e) h
    | inr e ↦
        rw (physical_delete_transfers_touching_account, e)
          (group_loop-HasSigns _ _ (member_loop-HasSigns _ _ s h))
  ];
}

then-pure : {A : Type 0} (m : Action A) → Keeps HasSigns m → Keeps HasSigns (m >>= λ _. pure tt)
then-pure m k = Keeps-bind m _ k (λ _. Keeps-pure tt)

perform-Keeps : (w : LedgerWrite) → Keeps HasSigns (perform w)
unfolding perform
perform-Keeps (single tx) = then-pure _ (save_single-Keeps tx)
perform-Keeps (delete id user_id at) = soft_delete-Keeps id user_id at
perform-Keeps (correction id tx at) = then-pure _ (save_correction-Keeps id tx at)
perform-Keeps (new_transfer a) = then-pure _ (save_transfer-Keeps a)
perform-Keeps (delete_transfer group user_id at) = soft_delete_transfer-Keeps group user_id at
perform-Keeps (transfer_correction group a at) =
    then-pure _ (save_transfer_correction-Keeps group a at)
perform-Keeps (remove_account_rows id) = physical_delete_by_account-Keeps id
perform-Keeps (remove_account_transfers id) = physical_delete_transfers-Keeps id

perform_all-Keeps : (ws : List LedgerWrite) → Keeps HasSigns (perform_all ws)
unfolding perform_all
perform_all-Keeps [] = Keeps-pure tt
perform_all-Keeps (w ∷ ws) = Keeps-bind _ _ (perform-Keeps w) (λ _. perform_all-Keeps ws)

-- Whatever units of work are run, of whatever writes in whatever order, and whether each of them
-- commits, ends with an error or throws: every stored transaction is under its own id, an income is
-- stored as a positive amount, an expense as a negative one, and no amount is zero, if it was so
-- before.
pub run_ledger-HasSigns :
    (ws : List LedgerWork) (s : InMemoryStore) → HasSigns s → HasSigns (run_ledger ws s)
unfolding run_ledger work_action
run_ledger-HasSigns [] s h = h
run_ledger-HasSigns (w ∷ ws) s h = run_ledger-HasSigns ws _ (
    run_transaction-HasSigns w.tenant (work_action w)
      (λ tx t k. (perform_all-Keeps w.writes).at t k) s h)
