-- ===== src/Infrastructure/Accounts/Balances/Invalidated.antt =====
-- A write to the transactions of an account makes its balance be replayed, once it is committed.
use personal_finance_hub.Prelude.{
  ◌≡◌, refl, sym, ap, ◌∙◌, ◌⊎◌, inl, inr, true, none, List, [], ◌∷◌, ◌++◌, Bool-cases,
}
use personal_finance_hub.Prelude.Int.{ℤ, eqb_ℤ, eqb_ℤ_refl}
use personal_finance_hub.Prelude.IdMap
use personal_finance_hub.Prelude.IdMap.{elem}
use personal_finance_hub.Domain.ExchangeRate.{TimePoint}
use personal_finance_hub.Domain.Ids.{TypedId}
use personal_finance_hub.Domain.Transaction.{Transaction}
use personal_finance_hub.Infrastructure.Repository.{
  RepositoryResult, success, failure, failure-ne-success, success-injective,
}
use personal_finance_hub.Infrastructure.Store.{InMemoryStore}
use personal_finance_hub.Infrastructure.UnitOfWork.{finish, commit, commit_tables, stage_events}
use personal_finance_hub.Infrastructure.Transactions
use personal_finance_hub.Infrastructure.Transactions.Checks.{
  staged_first, check_single, find_deletable,
}
use personal_finance_hub.Infrastructure.Transactions.Save.{
  invalidate, save_single, soft_delete, delete_found,
}
use personal_finance_hub.Infrastructure.Transactions.Save.Stored.{save_checked-success}
use personal_finance_hub.Infrastructure.Transactions.Save.Signs.{found_deletable}
use personal_finance_hub.Infrastructure.Accounts.Balances.{cache_of}
use personal_finance_hub.Infrastructure.Accounts.Balances.Coherence.{IsCoherent}

elem-append_last : (id : ℤ) (ids : List ℤ) → elem id (ids ++ id ∷ []) ≡ true
unfolding elem
elem-append_last id [] = rw (eqb_ℤ_refl id) refl
elem-append_last id (x ∷ ids) = elim (Bool-cases (eqb_ℤ x id)) [
  | inl e ↦ rw e refl
  | inr e ↦ rw e (elem-append_last id ids)
]

-- The store after the commit.
abbrev pub committed : InMemoryStore → InMemoryStore
committed t = finish (commit (stage_events t))

deleted-uncached :
    (id : TypedId) (t : InMemoryStore)
    → elem id t.staging.staged_deleted_balance_cache ≡ true
    → cache_of id (committed t) ≡ none
unfolding cache_of staged_first finish commit commit_tables stage_events
deleted-uncached id t gone =
    IdMap.find-erase_all t.staging.staged_deleted_balance_cache id _ ∙ rw gone refl

invalidate-uncached :
    (id : TypedId) (s : InMemoryStore) → cache_of id (committed (invalidate id s)) ≡ none
unfolding invalidate
invalidate-uncached id s =
    deleted-uncached id (invalidate id s)
      (elem-append_last id s.staging.staged_deleted_balance_cache)

pub uncached-IsCoherent :
    (id : TypedId) (s : InMemoryStore) → cache_of id s ≡ none → IsCoherent id s
uncached-IsCoherent id s h c account txs cached = absurd cc

delete_found-success :
    (id : TypedId) (at : TimePoint) (r : RepositoryResult Transaction) (s : InMemoryStore)
    {t : InMemoryStore}
    → delete_found id at r s ≡ (t, success tt)
    → (tx : Transaction) × (r ≡ success tx) × (cache_of tx.account_id (committed t) ≡ none)
unfolding delete_found
delete_found-success id at (failure e) s h = absurd (failure-ne-success (ap (λ y. y.1) h))
delete_found-success id at (success tx) s h =
    (tx, refl, rw (sym (ap (λ y. y.0) h)) (invalidate-uncached tx.account_id _))

-- The transaction was stored by `save_single`, or was the one that `soft_delete` deleted.
abbrev pub IsWritten :
    Transaction
    → Transaction
    → TypedId
    → TypedId
    → TimePoint
    → InMemoryStore
    → InMemoryStore
    → Type 0
IsWritten tx saved id user_id at s t =
    (save_single tx s ≡ (t, success saved))
    ⊎ ((Transactions.find_by_id id s ≡ success tx)
        × (soft_delete id user_id at s ≡ (t, success tt)))

-- Whatever the cache of an account said before, and even if it was not coherent, it is coherent
-- once a transaction of the account was stored or deleted and the unit of work is committed.
pub write-IsCoherent :
    (tx saved : Transaction) (id user_id : TypedId) (at : TimePoint) (s t : InMemoryStore)
    → IsWritten tx saved id user_id at s t
    → IsCoherent tx.account_id (committed t)
unfolding save_single soft_delete
write-IsCoherent tx saved id user_id at s t (inl h) =
    let (amount, passed, is_stored, is_after) = save_checked-success tx (check_single tx s) s h in
    uncached-IsCoherent tx.account_id (committed t)
      (rw is_after (invalidate-uncached tx.account_id _))
write-IsCoherent tx saved id user_id at s t (inr (there, h)) =
    let (found, is_found, uncached) =
      delete_found-success id at (find_deletable id user_id s) s h in
    let (here, mine) = found_deletable id user_id s is_found in
    uncached-IsCoherent tx.account_id (committed t)
      (rw (success-injective (sym there ∙ here)) uncached)
