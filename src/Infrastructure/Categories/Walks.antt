-- ===== src/Infrastructure/Categories/Walks.antt =====
-- The walks over the ancestors of a category: where that of `save` ends well, that of
-- `resolve_root_id_for_user` finds the root.
use mathlib.Core.Option.{some-injective}
use personal_finance_hub.Prelude.{
  ◌≡◌, refl, sym, ◌∙◌, ℕ, zero, suc, inl, inr, Bool, true, false, not, ◌&&◌, ◌||◌, Option, none,
  some, List, [], ◌∷◌, Option-cases, not-false,
}
use personal_finance_hub.Prelude.Int.{ℤ, eqb_ℤ}
use personal_finance_hub.Prelude.IdMap.{elem}
use personal_finance_hub.Domain.Category.{Category, max_category_tree_depth}
use personal_finance_hub.Domain.Ids.{TypedId, is_valid, same_id}
use personal_finance_hub.Infrastructure.Repository.{
  RepositoryResult, success, not_found, validation_error, ◌>>=◌, failure-ne-success,
  success-injective, guard-eq-success, >>=-eq-success, checked-success,
}
use personal_finance_hub.Infrastructure.Store.{InMemoryStore}
use personal_finance_hub.Infrastructure.Categories.{
  lookup, kept, find_by_id_for_user, find_by_id_for_user_including_deleted, walk, climb, same_board,
  fits_below, check_parent,
}

pub kept-success :
    (keep : Category → Bool) (o : Option Category) {c : Category}
    → kept keep o ≡ success c
    → (o ≡ some c) × (keep c ≡ true)
kept-success keep none h = absurd (failure-ne-success h)
kept-success keep (some c) h =
    let (good, same) = checked-success (not (keep c)) not_found (success c) h in
    rw (sym (success-injective same)) (refl, not-false _ good)

and-left : (a b : Bool) → (a && b) ≡ true → a ≡ true
and-left true b h = refl
and-left false b h = h

-- A category that its user finds in one store is found in another that has the same under its id.
found-in :
    (id user_id : TypedId) (s t : InMemoryStore) {c : Category}
    → find_by_id_for_user id user_id s ≡ success c
    → lookup id t ≡ lookup id s
    → (lookup id s ≡ some c) × (find_by_id_for_user_including_deleted id user_id t ≡ success c)
unfolding find_by_id_for_user find_by_id_for_user_including_deleted
found-in id user_id s t {c} h same =
    let (here, good) = kept-success _ (lookup id s) h in
    (here, rw (same, here, and-left (same_id c.owner user_id) _ good) refl)

climb-passed :
    (n : ℕ) (c : Category) (visited : List ℤ) (s : InMemoryStore) (a : Category)
    → climb n c visited s a ≡ success tt
    → (is_valid c.id && same_id a.id c.id) ≡ false
unfolding climb
climb-passed zero c visited s a h = absurd (failure-ne-success h)
climb-passed (suc n) c visited s a h = or-left _ _ (guard-eq-success _ validation_error _ h).0
  where
    or-left : (a b : Bool) → (a || b) ≡ false → a ≡ false
    or-left true b h = h
    or-left false b h = refl

-- A check that ends well has done what it does for the parent that is there.
above-success :
    (o : Option TypedId) (k : TypedId → RepositoryResult (Unit {0})) {p : TypedId}
    → (elim o as (λ _. RepositoryResult (Unit {0})) [ none ↦ success tt | some q ↦ k q ])
      ≡ success tt
    → o ≡ some p
    → k p ≡ success tt
above-success none k h e = absurd cc
above-success (some q) k h e = rw (sym (some-injective _ _ e)) h

walk-top :
    (n : ℕ) (user_id : TypedId) (t : InMemoryStore) (node : Category)
    → node.parent_id ≡ none
    → walk (suc n) user_id t node ≡ success node.id
unfolding walk
walk-top n user_id t node top = rw top refl

walk-step :
    (n : ℕ) (user_id : TypedId) (t : InMemoryStore) (node : Category) {p : TypedId}
    {parent : Category} {root : TypedId}
    → node.parent_id ≡ some p
    → find_by_id_for_user_including_deleted p user_id t ≡ success parent
    → walk n user_id t parent ≡ success root
    → walk (suc n) user_id t node ≡ success root
unfolding walk
walk-step n user_id t node below found e = rw (walk, below, found) e

-- `t` has the categories of `s` everywhere but under `key`, where the stored category `c` lies.
module _ (c : Category) (key : ℤ) (s t : InMemoryStore)
    (elsewhere : (id : ℤ) → eqb_ℤ key id ≡ false → lookup id t ≡ lookup id s)
    (apart : (id : ℤ) (a : Category)
      → lookup id s ≡ some a
      → (is_valid c.id && same_id a.id c.id) ≡ false
      → eqb_ℤ key id ≡ false) where
  ancestor-found :
      (n : ℕ) (p : TypedId) (visited : List ℤ) {a : Category}
      → find_by_id_for_user p c.owner s ≡ success a
      → climb n c visited s a ≡ success tt
      → find_by_id_for_user_including_deleted p c.owner t ≡ success a
  unfolding find_by_id_for_user
  ancestor-found n p visited {a} h k =
      let here = (kept-success _ (lookup p s) h).0 in
      (found-in p c.owner s t h (elsewhere p (apart p a here (climb-passed n c visited s a k)))).1

  -- Where the walk of `save` ends well, that of `resolve_root_id_for_user` finds the root.
  pub climb-walk :
      (n : ℕ) (visited : List ℤ) (a : Category)
      → climb n c visited s a ≡ success tt
      → (root : TypedId) × (walk n c.owner t a ≡ success root)
  unfolding climb
  climb-walk zero visited a h = absurd (failure-ne-success h)
  climb-walk (suc n) visited a h = elim (Option-cases a.parent_id) [
    | inl top ↦ (a.id, walk-top n c.owner t a top)
    | inr (p, below) ↦
        let k =
          above-success a.parent_id
            (λ q. find_by_id_for_user q c.owner s >>= climb n c (a.id ∷ visited) s)
            (guard-eq-success (is_valid c.id && same_id a.id c.id || elem a.id visited)
              validation_error _ h).1
            below in
        let (parent, found, k1) = >>=-eq-success (find_by_id_for_user p c.owner s) _ k in
        let (root, e) = climb-walk n (a.id ∷ visited) parent k1 in
        (root, walk-step n c.owner t a below (ancestor-found n p (a.id ∷ visited) found k1) e)
  ]

  -- So does the walk from the category itself.
  pub check_parent-walk :
      (node : Category)
      → node.parent_id ≡ c.parent_id
      → check_parent c s ≡ success tt
      → (root : TypedId) × (walk max_category_tree_depth c.owner t node ≡ success root)
  unfolding check_parent fits_below
  check_parent-walk node same h = elim (Option-cases c.parent_id) [
    | inl top ↦ (node.id, walk-top 63 c.owner t node (same ∙ top))
    | inr (p, below) ↦
        let k = above-success c.parent_id (fits_below c s) h below in
        let k1 = (guard-eq-success (is_valid c.id && same_id p c.id) validation_error _ k).1 in
        let (parent, found, k2) = >>=-eq-success (find_by_id_for_user p c.owner s) _ k1 in
        let k3 =
          (guard-eq-success (not (same_board parent.board c.board)) validation_error _ k2).1 in
        let (root, e) = climb-walk 63 [] parent k3 in
        (root, walk-step 63 c.owner t node (same ∙ below) (ancestor-found 63 p [] found k3) e)
  ]
