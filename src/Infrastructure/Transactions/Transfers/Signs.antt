-- ===== src/Infrastructure/Transactions/Transfers/Signs.antt =====
-- Deleting and correcting transfers keeps the signs of the stored transactions.
use personal_finance_hub.Prelude.{
  ◌≡◌, sym, inl, inr, Bool, true, false, not, Option, none, some, List, [], ◌∷◌, All, Bool-cases,
}
use personal_finance_hub.Prelude.Int.{ℤ, ltb_ℤ}
use personal_finance_hub.Prelude.IdMap
use personal_finance_hub.Prelude.IdMap.{IdMap, has_value}
use personal_finance_hub.Prelude.IdMap.Each.{Each, insert_all-Each, erase_all-Each}
use personal_finance_hub.Domain.ExchangeRate.{TimePoint}
use personal_finance_hub.Domain.Ids.{TypedId, same_id}
use personal_finance_hub.Domain.Transaction.{Transaction, mark_deleted, is_deleted}
use personal_finance_hub.Domain.Transfer.{TransferAggregate}
use personal_finance_hub.Infrastructure.Repository.{
  success, not_found, conflict, database_error, failure-ne-success, success-injective,
  checked-success,
}
use personal_finance_hub.Infrastructure.Store.{InMemoryStore, InMemoryTransferGroup}
use personal_finance_hub.Infrastructure.Action.{
  Keeps, keeps_rules, Keeps-bind, Keeps-bind-reads, Keeps-modify, Keeps-reads, Keeps-reject_when,
  reads, modify, reject_when, ◌>>=◌, ◌>>◌,
}
use personal_finance_hub.Infrastructure.Merged.{merged}
use personal_finance_hub.Infrastructure.Transactions.{merge_transactions, filter}
use personal_finance_hub.Infrastructure.Transactions.Save.Stored.{HasSign}
use personal_finance_hub.Infrastructure.Transactions.Save.Signs.{
  IsSigned, HasSigns, stage-HasSigns, invalidate-HasSigns,
}
use personal_finance_hub.Infrastructure.Transactions.Transfers.Saved.{save_transfer-Keeps}
use personal_finance_hub.Infrastructure.Transactions.Transfers.Snapshot.{
  TransferSnapshot, members, in_group, insert_by_id, sort_by_id, snapshot_of, group_found,
  make_transfer_snapshot,
}
use personal_finance_hub.Infrastructure.Transactions.Transfers.Delete.{
  delete_member, delete_members, soft_delete_transfer, stage_transfer_correction,
  save_transfer_correction,
}

abbrev pub AreSigned : List Transaction → Type 0
AreSigned txs = All (λ tx. HasSign tx.type tx.amount) txs

merged-Each :
    (in_transaction : Bool) (staged : IdMap Transaction) (deleted : List ℤ)
    (committed : IdMap Transaction)
    → Each IsSigned staged
    → Each IsSigned committed
    → Each IsSigned (merged in_transaction staged deleted committed)
unfolding merged
merged-Each true staged deleted committed h k =
    erase_all-Each IsSigned deleted _ (insert_all-Each IsSigned staged committed h k)
merged-Each false staged deleted committed h k = k

values-AreSigned : (m : IdMap Transaction) → Each IsSigned m → AreSigned (IdMap.values m)
unfolding IdMap.values
values-AreSigned [] h = tt
values-AreSigned ((k, tx) ∷ m) (h, hs) = (h.1, values-AreSigned m hs)

filter-AreSigned :
    (keep : Transaction → Bool) (txs : List Transaction)
    → AreSigned txs
    → AreSigned (filter keep txs)
unfolding filter
filter-AreSigned keep [] h = tt
filter-AreSigned keep (tx ∷ txs) (h, hs) = elim (Bool-cases (keep tx)) [
  | inl e ↦ rw e (h, filter-AreSigned keep txs hs)
  | inr e ↦ rw e (filter-AreSigned keep txs hs)
]

insert_by_id-AreSigned :
    (tx : Transaction) (txs : List Transaction)
    → HasSign tx.type tx.amount
    → AreSigned txs
    → AreSigned (insert_by_id tx txs)
unfolding insert_by_id
insert_by_id-AreSigned tx [] p h = (p, tt)
insert_by_id-AreSigned tx (t ∷ txs) p (h, hs) = elim (Bool-cases (ltb_ℤ t.id tx.id)) [
  | inl e ↦ rw e (h, insert_by_id-AreSigned tx txs p hs)
  | inr e ↦ rw e (p, (h, hs))
]

sort_by_id-AreSigned : (txs : List Transaction) → AreSigned txs → AreSigned (sort_by_id txs)
unfolding sort_by_id
sort_by_id-AreSigned [] h = tt
sort_by_id-AreSigned (tx ∷ txs) (h, hs) =
    insert_by_id-AreSigned tx (sort_by_id txs) h (sort_by_id-AreSigned txs hs)

-- The rows of the view of a transaction have the signs of their types.
pub members-AreSigned :
    (group : TypedId) (s : InMemoryStore) → HasSigns s → AreSigned (members group s)
unfolding members merge_transactions
members-AreSigned group s h = filter-AreSigned (in_group group) _ (
    values-AreSigned _ (
      merged-Each s.in_transaction s.staging.staged_transactions
        s.staging.staged_deleted_transactions s.tables.transactions h.1 h.0))

snapshot_of-AreSigned :
    (group user_id : TypedId) (g : InMemoryTransferGroup) (txs : List Transaction)
    (s : InMemoryStore) {snapshot : TransferSnapshot}
    → AreSigned txs
    → snapshot_of group user_id g txs s ≡ success snapshot
    → AreSigned snapshot.transactions
unfolding snapshot_of
snapshot_of-AreSigned group user_id g [] s h e = absurd (failure-ne-success e)
snapshot_of-AreSigned group user_id g (tx ∷ txs) s h e =
    rw (sym (success-injective e)) (sort_by_id-AreSigned (tx ∷ txs) h)

group_found-AreSigned :
    (group user_id : TypedId) (found : Option InMemoryTransferGroup) (s : InMemoryStore)
    {snapshot : TransferSnapshot}
    → HasSigns s
    → group_found group user_id found s ≡ success snapshot
    → AreSigned snapshot.transactions
unfolding group_found
group_found-AreSigned group user_id none s h e = absurd (failure-ne-success e)
group_found-AreSigned group user_id (some g) s h e =
    snapshot_of-AreSigned group user_id g (members group s) s (members-AreSigned group s h)
      (checked-success (not (same_id g.user_id user_id)) not_found _ e).1

delete_member-HasSigns :
    (at : TimePoint) (tx : Transaction) (s : InMemoryStore)
    → HasSign tx.type tx.amount
    → HasSigns s
    → HasSigns (delete_member at tx s)
unfolding delete_member mark_deleted
delete_member-HasSigns at tx s p h =
    invalidate-HasSigns tx.account_id _ (stage-HasSigns (mark_deleted at tx) s p h)

delete_members-Keeps :
    (at : TimePoint) (txs : List Transaction)
    → AreSigned txs
    → Keeps HasSigns (delete_members at txs)
unfolding delete_members
delete_members-Keeps at [] h = search keeps_rules
delete_members-Keeps at (tx ∷ txs) (h, hs) =
    let first : Keeps HasSigns (modify (delete_member at tx)) =
      Keeps-modify (delete_member at tx) (λ s k. delete_member-HasSigns at tx s h k) in
    Keeps-bind _ _ (Keeps-reject_when (is_deleted tx) database_error)
      (λ _. Keeps-bind _ _ first (λ _. delete_members-Keeps at txs hs))

checked_snapshot-Keeps :
    (group user_id : TypedId) (at : TimePoint)
    → Keeps HasSigns (
        reads (make_transfer_snapshot group user_id) >>= λ snapshot.
        reject_when (has_value snapshot.deleted_at) conflict
        >> delete_members at snapshot.transactions)
unfolding make_transfer_snapshot
checked_snapshot-Keeps group user_id at =
    Keeps-bind-reads (make_transfer_snapshot group user_id) _ λ s snapshot h e.
      (Keeps-bind (reject_when (has_value snapshot.deleted_at) conflict) _
          (Keeps-reject_when (has_value snapshot.deleted_at) conflict)
          (λ _.
            delete_members-Keeps at snapshot.transactions
              (group_found-AreSigned group user_id _ s h e))).at
        s h

pub soft_delete_transfer-Keeps :
    (group user_id : TypedId) (at : TimePoint)
    → Keeps HasSigns (soft_delete_transfer group user_id at)
unfolding soft_delete_transfer
soft_delete_transfer-Keeps group user_id at = Keeps-bind _ _ (Keeps-reads _) (λ running.
    Keeps-bind _ _ (Keeps-reject_when (not running) database_error)
      (λ _. checked_snapshot-Keeps group user_id at))

pub save_transfer_correction-Keeps :
    (original : TypedId) (replacement : TransferAggregate) (at : TimePoint)
    → Keeps HasSigns (save_transfer_correction original replacement at)
unfolding save_transfer_correction stage_transfer_correction
save_transfer_correction-Keeps original replacement at =
    search (keeps_rules, save_transfer-Keeps, soft_delete_transfer-Keeps) depth 15
