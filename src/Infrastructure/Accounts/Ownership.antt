-- ===== src/Infrastructure/Accounts/Ownership.antt =====
-- Who may see an account.
use personal_finance_hub.Prelude.{
  ◌≡◌, refl, sym, inl, inr, true, false, not, Option, none, some, Bool-cases, not-false,
}
use personal_finance_hub.Domain.Account.{Account}
use personal_finance_hub.Domain.Ids.{TypedId, same_id}
use personal_finance_hub.Infrastructure.Repository.{
  RepositoryStatus, RepositoryResult, success, failure, not_found, failure-ne-success,
  checked-success, success-injective,
}
use personal_finance_hub.Infrastructure.Store.{InMemoryStore}
use personal_finance_hub.Infrastructure.Action.{required}
use personal_finance_hub.Infrastructure.Accounts.{
  is_staged_deleted_account, find_by_id, owned, find_by_id_for_user,
}

owned-success :
    (user_id : TypedId) (r : RepositoryResult Account) {a : Account}
    → owned user_id r ≡ success a
    → (r ≡ success a) × (same_id a.owner user_id ≡ true)
unfolding owned
owned-success user_id (failure e) h = absurd (failure-ne-success h)
owned-success user_id (success a) h =
    let (mine, same) = checked-success (not (same_id a.owner user_id)) not_found (success a) h in
    rw (sym (success-injective same)) (refl, not-false _ mine)

owned-missing :
    (user_id : TypedId) (r : RepositoryResult Account)
    → ((e : RepositoryStatus) → r ≡ failure e → e ≡ not_found)
    → ((a : Account) → r ≡ success a → same_id a.owner user_id ≡ false)
    → owned user_id r ≡ failure not_found
unfolding owned
owned-missing user_id (failure e) missing other = rw (missing e refl) refl
owned-missing user_id (success a) missing other = rw (other a refl) refl

required-missing :
    (o : Option Account) {e : RepositoryStatus} → required o not_found ≡ failure e → e ≡ not_found
required-missing none h = cc
required-missing (some a) h = absurd cc

find_by_id-missing :
    (id : TypedId) (s : InMemoryStore) {e : RepositoryStatus}
    → find_by_id id s ≡ failure e
    → e ≡ not_found
unfolding find_by_id
find_by_id-missing id s = elim (Bool-cases (is_staged_deleted_account id s)) [
  | inl gone ↦ rw (find_by_id, gone) λ h. cc
  | inr kept ↦ rw (find_by_id, kept) λ h. required-missing _ h
]

-- A user is given an account exactly if it exists and is the user's own; an account of someone
-- else is answered exactly as one that does not exist.
pub find_by_id_for_user-owned :
    (id user_id : TypedId) (s : InMemoryStore)
    → ((a : Account)
        → find_by_id_for_user id user_id s ≡ success a
        → (find_by_id id s ≡ success a) × (same_id a.owner user_id ≡ true))
      × (((a : Account) → find_by_id id s ≡ success a → same_id a.owner user_id ≡ false)
          → find_by_id_for_user id user_id s ≡ failure not_found)
unfolding find_by_id_for_user
find_by_id_for_user-owned id user_id s = (
  λ a h. owned-success user_id (find_by_id id s) h,
  λ other. owned-missing user_id (find_by_id id s) (λ e h. find_by_id-missing id s h) other,
)
