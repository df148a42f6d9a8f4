-- ===== src/Infrastructure/Accounts/Locking.antt =====
-- The optimistic lock of an account: of two writers that read the same version one wins.
use personal_finance_hub.Prelude.{
  ◌≡◌, refl, sym, ap, ◌∙◌, Bool, true, false, not, Option, none, some, if◌then◌else◌, not-false,
  arith,
}
use personal_finance_hub.Prelude.Int.{ℤ, pos, ◌+ℤ◌, eqb_ℤ, eqb_ℤ→eq, eqb_ℤ_refl, +ℤ_parts}
use personal_finance_hub.Prelude.IdMap
use personal_finance_hub.Prelude.IdMap.{elem, or_else}
use personal_finance_hub.Prelude.IdMap.Order.{IsOrdered}
use personal_finance_hub.Domain.Account.{Account}
use personal_finance_hub.Domain.Ids.{TypedId, is_valid, same_id}
use personal_finance_hub.Infrastructure.Repository.{
  success, failure, conflict, validation_error, database_error, not_found, failure-ne-success,
}
use personal_finance_hub.Infrastructure.Store.{InMemoryStore, no_staging}
use personal_finance_hub.Infrastructure.Action.{unless-success}
use personal_finance_hub.Infrastructure.Merged.{merged, visible, find-merged}
use personal_finance_hub.Infrastructure.UnitOfWork.{
  begin, finish, commit, commit_tables, stage_events,
}
use personal_finance_hub.Infrastructure.Transactions.Checks.{staged_first}
use personal_finance_hub.Infrastructure.Accounts.{
  save, update, existing, user_exists, with_version, stage_account,
}

-- An update that ends well had the stored version and owner, and raises the version by one.
update-success :
    (a : Account) (found : Option Account) (s : InMemoryStore) {t : InMemoryStore} {id : TypedId}
    → update a found s ≡ (t, success id)
    → (old : Account) × (found ≡ some old)
      × (same_id a.owner old.owner ≡ true)
      × (a.version ≡ old.version)
      × (t ≡ stage_account a.id (with_version a.id (a.version +ℤ pos 1) a) s)
unfolding update
update-success a none s = λ h. absurd (failure-ne-success (ap (λ y. y.1) h))
update-success a (some old) s = λ h.
    let (mine, h1) = unless-success (not (same_id a.owner old.owner)) s validation_error _ h in
    let (current, h2) = unless-success (not (eqb_ℤ a.version old.version)) s conflict _ h1 in
    (
      old,
      refl,
      not-false _ mine,
      eqb_ℤ→eq a.version old.version (not-false _ current),
      sym (ap (λ y. y.0) h2),
    )

-- The store that the next transaction starts with, after this one is committed.
abbrev pub next : InMemoryStore → InMemoryStore
next t = begin (finish (commit (stage_events t)))

if-false {ℓ} :
    {A : Type ℓ} (b : Bool) (x y : A) {z : A} → b ≡ false → (if b then x else y) ≡ z → y ≡ z
if-false true x y e h = cc
if-false false x y e h = h

save-update :
    (a : Account) (s : InMemoryStore) {t : InMemoryStore} {id : TypedId}
    → is_valid a.id ≡ true
    → save a s ≡ (t, success id)
    → (s.in_transaction ≡ true) × (update a (existing a.id s) s ≡ (t, success id))
unfolding save
save-update a s valid h =
    let (running, h1) = unless-success (not s.in_transaction) s database_error _ h in
    let (somebody, h2) = unless-success (not (user_exists a.owner s)) s not_found _ h1 in
    (not-false _ running, if-false (not (is_valid a.id)) _ _ (rw valid refl) h2)

update-stale :
    (b old : Account) (s : InMemoryStore)
    → same_id b.owner old.owner ≡ true
    → eqb_ℤ b.version old.version ≡ false
    → update b (some old) s ≡ (s, failure conflict)
unfolding update
update-stale b old s mine stale = rw (mine, stale) refl

save-stale :
    (b old : Account) (s : InMemoryStore)
    → s.in_transaction ≡ true
    → user_exists b.owner s ≡ true
    → is_valid b.id ≡ true
    → existing b.id s ≡ some old
    → same_id b.owner old.owner ≡ true
    → eqb_ℤ b.version old.version ≡ false
    → save b s ≡ (s, failure conflict)
unfolding save
save-stale b old s running somebody valid found mine stale =
    simp (save, running, somebody, valid, found) (update-stale b old s mine stale)

-- The next transaction finds the account that this one staged.
existing-next :
    (id : TypedId) (s : InMemoryStore) {a : Account}
    → IsOrdered s.staging.staged_accounts
    → elem id s.staging.staged_deleted_accounts ≡ false
    → IdMap.find id s.staging.staged_accounts ≡ some a
    → existing id (next s) ≡ some a
unfolding existing staged_first begin finish commit commit_tables stage_events no_staging IdMap.find
    merged visible
existing-next id s h kept found =
    find-merged id true s.staging.staged_accounts s.staging.staged_deleted_accounts
      s.tables.accounts h
    ∙ rw (kept, found) refl

next-in_transaction : (t : InMemoryStore) → (next t).in_transaction ≡ true
unfolding begin
next-in_transaction t = refl

find-staged :
    (id : TypedId) (a : Account) (s : InMemoryStore)
    → IdMap.find id (stage_account id a s).staging.staged_accounts ≡ some a
unfolding stage_account
find-staged id a s =
    IdMap.find-insert_or_assign id id a s.staging.staged_accounts ∙ rw (eqb_ℤ_refl id) refl

plus_one-differs : (v : ℤ) → eqb_ℤ v (v +ℤ pos 1) ≡ false
plus_one-differs v = ground (arith, +ℤ_parts v (pos 1))

-- Of two writers that read one version of an account, the second is refused: after the first has
-- stored its change and its transaction is committed, the other's change of the same version, which
-- its user may make, ends with a conflict and writes nothing.
pub save-conflict :
    (a b : Account) (s t : InMemoryStore) (id : TypedId)
    → is_valid a.id ≡ true
    → save a s ≡ (t, success id)
    → IsOrdered t.staging.staged_accounts
    → elem a.id t.staging.staged_deleted_accounts ≡ false
    → b.id ≡ a.id
    → b.owner ≡ a.owner
    → b.version ≡ a.version
    → user_exists b.owner (next t) ≡ true
    → save b (next t) ≡ (next t, failure conflict)
unfolding stage_account with_version
save-conflict a b s t id valid saved ordered kept same_account same_owner same_version somebody =
    let (running, updated) = save-update a s valid saved in
    let (old, found, mine, current, is_after) = update-success a (existing a.id s) s updated in
    save-stale b (with_version a.id (a.version +ℤ pos 1) a) (next t) (next-in_transaction t)
      somebody (rw same_account valid)
      (rw same_account (existing-next a.id t ordered kept (rw is_after (find-staged a.id _ s))))
      (rw same_owner (eqb_ℤ_refl a.owner)) (rw same_version (plus_one-differs a.version))
