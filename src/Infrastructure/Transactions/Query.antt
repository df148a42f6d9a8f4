-- ===== src/Infrastructure/Transactions/Query.antt =====
-- What the queries for transactions find.
use personal_finance_hub.Prelude.{◌≡◌, refl, ap, ◌∙◌, inl, inr, true, Bool-cases, Option-cases}
use personal_finance_hub.Prelude.IdMap
use personal_finance_hub.Prelude.IdMap.{IdMap, or_else, elem}
use personal_finance_hub.Prelude.IdMap.Order.{IsOrdered}
use personal_finance_hub.Domain.Ids.{TypedId}
use personal_finance_hub.Infrastructure.Repository.{not_found}
use personal_finance_hub.Infrastructure.Store.{InMemoryStore}
use personal_finance_hub.Infrastructure.Action.{required}
use personal_finance_hub.Infrastructure.Merged.{merged, visible, find-merged}
use personal_finance_hub.Infrastructure.UnitOfWork.{commit, commit_tables, finish, stage_events}
use personal_finance_hub.Infrastructure.Transactions.{is_staged_deleted_tx, find_by_id}

-- The code's lookup in three places finds the entry of the view.
pub find_by_id-visible :
    (id : TypedId) (s : InMemoryStore)
    → find_by_id id s
      ≡ required
          (visible id s.in_transaction s.staging.staged_transactions
            s.staging.staged_deleted_transactions s.tables.transactions)
          not_found
unfolding find_by_id is_staged_deleted_tx visible
find_by_id-visible id s = elim (Bool-cases s.in_transaction) [
  | inr shut ↦ rw shut refl
  | inl running ↦ rw running (elim (Bool-cases (elem id s.staging.staged_deleted_transactions)) [
    | inl gone ↦ rw gone refl
    | inr kept ↦ rw kept (elim (Option-cases (IdMap.find id s.staging.staged_transactions)) [
      | inl e ↦ rw e refl
      | inr (tx, e) ↦ rw e refl
    ])
  ])
]

-- What a running transaction reads of its own writes is what everyone reads after its commit: the
-- lookup of an id gives the same answer before and after, if the staged rows are ordered by id.
pub find_by_id-commit :
    (id : TypedId) (s : InMemoryStore)
    → s.in_transaction ≡ true
    → IsOrdered s.staging.staged_transactions
    → find_by_id id (finish (commit (stage_events s))) ≡ find_by_id id s
unfolding finish commit commit_tables stage_events merged visible
find_by_id-commit id s running h =
    find_by_id-visible id (finish (commit (stage_events s)))
    ∙ rw (find_by_id-visible id s, running)
        (ap (λ o. required o not_found)
          (find-merged id true s.staging.staged_transactions s.staging.staged_deleted_transactions
            s.tables.transactions h))
