-- ===== src/Infrastructure/Categories/Saved.antt =====
-- What `save` leaves in the store.
use mathlib.Core.Option.{none-ne-some}
use personal_finance_hub.Prelude.{
  ◌≡◌, refl, sym, ap, ◌∙◌, inl, inr, true, false, not, ◌&&◌, Option, none, some, if◌then◌else◌,
  Bool-cases, not-false, arith,
}
use personal_finance_hub.Prelude.Int.{ℤ, eqb_ℤ, eqb_ℤ→eq, eqb_ℤ_refl}
use personal_finance_hub.Prelude.IdMap
use personal_finance_hub.Prelude.IdMap.{elem, or_else, find-insert_or_assign}
use personal_finance_hub.Domain.Category.{Category}
use personal_finance_hub.Domain.Ids.{TypedId, is_valid, same_id}
use personal_finance_hub.Infrastructure.Repository.{
  RepositoryResult, success, failure, not_found, validation_error, database_error,
  failure-ne-success, success-injective, guard-eq-success, >>-eq-success,
}
use personal_finance_hub.Infrastructure.Store.{InMemoryStore}
use personal_finance_hub.Infrastructure.Action.{unless-success}
use personal_finance_hub.Infrastructure.Merged.{visible}
use personal_finance_hub.Infrastructure.Categories.{
  lookup, kept, same_board, check_parent, stage_category, check_category, created, update, create,
  save_checked,
}

-- Every category lies under its own id.
abbrev pub IsWellKeyed : InMemoryStore → Type 0
IsWellKeyed s = (id : ℤ) (c : Category) → lookup id s ≡ some c → c.id ≡ id

-- The category that `save` leaves under the id that it returns.
abbrev pub IsSaved : Category → InMemoryStore → InMemoryStore → TypedId → Type 0
IsSaved c s t id =
    (node : Category) × (lookup id t ≡ some node)
    × (node.parent_id ≡ c.parent_id)
    × (node.owner ≡ c.owner)
    × ((other : ℤ) → eqb_ℤ id other ≡ false → lookup other t ≡ lookup other s)
    × ((other : ℤ) (a : Category)
        → lookup other s ≡ some a
        → (is_valid c.id && same_id a.id c.id) ≡ false
        → eqb_ℤ id other ≡ false)

lookup-staged :
    (key other : ℤ) (node : Category) (s : InMemoryStore)
    → s.in_transaction ≡ true
    → lookup other (stage_category key node s) ≡ (
        if eqb_ℤ key other
        then (if elem other s.staging.staged_deleted_categories then none else some node)
        else lookup other s)
unfolding lookup visible stage_category
lookup-staged key other node s running =
    ground (arith, running, find-insert_or_assign key other node s.staging.staged_categories)

staged-IsSaved :
    (c node : Category) (key : ℤ) (s t : InMemoryStore)
    → ((other : ℤ) → lookup other t ≡ lookup other (stage_category key node s))
    → s.in_transaction ≡ true
    → elem key s.staging.staged_deleted_categories ≡ false
    → node.parent_id ≡ c.parent_id
    → node.owner ≡ c.owner
    → ((other : ℤ) (a : Category)
        → lookup other s ≡ some a
        → (is_valid c.id && same_id a.id c.id) ≡ false
        → eqb_ℤ key other ≡ false)
    → IsSaved c s t key
staged-IsSaved c node key s t after running kept parent owner apart = (
  node,
  after key ∙ lookup-staged key key node s running ∙ rw (eqb_ℤ_refl key, kept) refl,
  parent,
  owner,
  λ other far. after other ∙ lookup-staged key other node s running ∙ rw far refl,
  apart,
)

-- A category that is there is not staged as deleted.
found-kept :
    (id : ℤ) (s : InMemoryStore) {c : Category}
    → s.in_transaction ≡ true
    → lookup id s ≡ some c
    → elem id s.staging.staged_deleted_categories ≡ false
unfolding lookup visible
found-kept id s running found = ground arith

update-IsSaved :
    (c : Category) (found : Option Category) (s t : InMemoryStore) (id : TypedId)
    → s.in_transaction ≡ true
    → is_valid c.id ≡ true
    → IsWellKeyed s
    → lookup c.id s ≡ found
    → update c found s ≡ (t, success id)
    → IsSaved c s t id
unfolding update
update-IsSaved c none s t id running valid keyed found h =
    absurd (failure-ne-success (ap (λ y. y.1) h))
update-IsSaved c (some old) s t id running valid keyed found h =
    let (mine, h1) = unless-success (not (same_id old.owner c.owner)) s validation_error _ h in
    let (board, h2) = unless-success (not (same_board old.board c.board)) s validation_error _ h1 in
    rw (sym (ap (λ y. y.0) h2), sym (success-injective (ap (λ y. y.1) h2)))
      (staged-IsSaved c c c.id s (stage_category c.id c s) (λ other. refl) running
        (found-kept c.id s running found) refl refl
        (λ other a here test. other-key other a (keyed other a here) test))
  where
    other-key :
        (other : ℤ) (a : Category)
        → a.id ≡ other
        → (is_valid c.id && same_id a.id c.id) ≡ false
        → eqb_ℤ c.id other ≡ false
    other-key other a same test = ground (arith, eqb_ℤ→eq c.id other)

create-lookup :
    (c : Category) (s : InMemoryStore) (other : ℤ)
    → IdMap.contains s.next_category_id s.staging.staged_categories ≡ false
    → lookup other (create c s).0 ≡ lookup other (stage_category s.next_category_id (created c s) s)
unfolding create lookup visible stage_category IdMap.emplace
create-lookup c s other fresh = rw fresh refl

none-unstaged :
    (id : ℤ) (s : InMemoryStore)
    → s.in_transaction ≡ true
    → lookup id s ≡ none
    → elem id s.staging.staged_deleted_categories ≡ false
    → IdMap.contains id s.staging.staged_categories ≡ false
unfolding lookup visible IdMap.contains
none-unstaged id s running new unstaged = ground arith

create-IsSaved :
    (c : Category) (s : InMemoryStore)
    → s.in_transaction ≡ true
    → lookup s.next_category_id s ≡ none
    → elem s.next_category_id s.staging.staged_deleted_categories ≡ false
    → IsSaved c s (create c s).0 s.next_category_id
unfolding created
create-IsSaved c s running new unstaged =
    staged-IsSaved c (created c s) s.next_category_id s (create c s).0
      (λ other. create-lookup c s other (none-unstaged s.next_category_id s running new unstaged))
      running unstaged refl refl
      (λ other a here test. elim (Bool-cases (eqb_ℤ s.next_category_id other)) [
        | inl hit ↦
            absurd (none-ne-some _ (sym new ∙ ap (λ i. lookup i s) (eqb_ℤ→eq _ _ hit) ∙ here))
        | inr miss ↦ miss
      ])

check_category-success :
    (c : Category) (s : InMemoryStore)
    → check_category c s ≡ success tt
    → (s.in_transaction ≡ true) × (check_parent c s ≡ success tt)
unfolding check_category
check_category-success c s h =
    let (running, h1) = guard-eq-success _ database_error _ h in
    let (somebody, h2) = guard-eq-success _ not_found _ h1 in
    let (named, h3) = guard-eq-success _ validation_error _ h2 in
    let (fitting, h4) = >>-eq-success (check_parent c s) _ h3 in (not-false _ running, fitting)

pub save_checked-IsSaved :
    (c : Category) (check : RepositoryResult (Unit {0})) (s t : InMemoryStore) (id : TypedId)
    → check_category c s ≡ check
    → IsWellKeyed s
    → lookup s.next_category_id s ≡ none
    → elem s.next_category_id s.staging.staged_deleted_categories ≡ false
    → save_checked c check s ≡ (t, success id)
    → (check_parent c s ≡ success tt) × IsSaved c s t id
unfolding save_checked create
save_checked-IsSaved c (failure e) s t id is keyed new unstaged h =
    absurd (failure-ne-success (ap (λ y. y.1) h))
save_checked-IsSaved c (success u) s t id is keyed new unstaged h =
    let (running, fitting) = check_category-success c s is in
    (
      fitting,
      elim (Bool-cases (is_valid c.id)) [
        | inl valid ↦
            update-IsSaved c (lookup c.id s) s t id running valid keyed refl (rw valid at h)
        | inr invalid ↦
            rw
              (
                sym (ap (λ y. y.0) (rw invalid at h)),
                sym (success-injective (ap (λ y. y.1) (rw (invalid) at h))),
              )
              (create-IsSaved c s running new unstaged)
      ],
    )
