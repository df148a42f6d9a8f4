-- ===== src/Infrastructure/Categories.antt =====
-- include/pfh/infrastructure/persistence/in_memory_category_repository.h: the categories of a user,
-- a forest in each of two boards.
pub mod Lists
pub mod Walks
pub mod Saved
pub mod Rooted
use personal_finance_hub.Prelude.{
  ℕ, zero, suc, Bool, true, false, not, ◌&&◌, ◌||◌, Option, none, some, List, [], ◌∷◌, Bytes, bytes,
  bytes_eq, ◌-◌, if◌then◌else◌,
}
use personal_finance_hub.Prelude.Int.{ℤ, pos, ◌+ℤ◌, eqb_ℤ, ltb_ℤ}
use personal_finance_hub.Prelude.IdMap
use personal_finance_hub.Prelude.IdMap.{IdMap, elem}
use personal_finance_hub.Domain.Category.{
  Category, SystemCategoryTemplate, category_is_deleted, max_category_tree_depth,
}
use personal_finance_hub.Domain.ExchangeRate.{TimePoint}
use personal_finance_hub.Domain.Ids.{TypedId, is_valid, same_id}
use personal_finance_hub.Domain.Transaction.{CategoryBoard, income_board, expense_board}
use personal_finance_hub.Domain.Transfer.{same_optional}
use personal_finance_hub.Infrastructure.Repository.{
  RepositoryResult, success, failure, not_found, validation_error, conflict, database_error,
  reject_if, ◌>>=◌, ◌>>◌,
}
use personal_finance_hub.Infrastructure.Store.{InMemoryStore}
use personal_finance_hub.Infrastructure.Action.{Action, required}
use personal_finance_hub.Infrastructure.Merged.{merged, visible}
use personal_finance_hub.Infrastructure.Accounts.{user_exists}

abbrev pub same_board : CategoryBoard → CategoryBoard → Bool
same_board income_board income_board = true
same_board income_board expense_board = false
same_board expense_board income_board = false
same_board expense_board expense_board = true

unfoldable pub merged_categories : InMemoryStore → IdMap Category
merged_categories s =
    merged s.in_transaction s.staging.staged_categories s.staging.staged_deleted_categories
      s.tables.categories

unfoldable pub lookup : ℤ → InMemoryStore → Option Category
lookup id s =
    visible id s.in_transaction s.staging.staged_categories s.staging.staged_deleted_categories
      s.tables.categories

-- A category, if `keep` holds of it.
abbrev pub kept : (Category → Bool) → Option Category → RepositoryResult Category
kept keep none = failure not_found
kept keep (some c) = if not (keep c) then failure not_found else success c

unfoldable pub find_by_id_for_user : TypedId → TypedId → InMemoryStore → RepositoryResult Category
find_by_id_for_user id user_id s =
    kept (λ c. same_id c.owner user_id && not (category_is_deleted c)) (lookup id s)

unfoldable pub find_by_id_for_user_including_deleted :
    TypedId → TypedId → InMemoryStore → RepositoryResult Category
find_by_id_for_user_including_deleted id user_id s =
    kept (λ c. same_id c.owner user_id) (lookup id s)

unfoldable pub find_by_id_for_user_for_update :
    TypedId → TypedId → InMemoryStore → RepositoryResult Category
find_by_id_for_user_for_update id user_id s =
    if not s.in_transaction then failure database_error else find_by_id_for_user id user_id s

unfoldable pub find_by_id_for_user_including_deleted_for_update :
    TypedId → TypedId → InMemoryStore → RepositoryResult Category
find_by_id_for_user_including_deleted_for_update id user_id s =
    if not s.in_transaction
    then failure database_error
    else find_by_id_for_user_including_deleted id user_id s

unfoldable pub first_of : (Category → Bool) → List Category → Option Category
first_of keep [] = none
first_of keep (c ∷ cs) = if keep c then some c else first_of keep cs

-- The same template, or without one the same name, in the same place of the same board.
unfoldable pub has_identity :
    TypedId → CategoryBoard → Option TypedId → Bytes → Option ℤ → Category → Bool
has_identity user_id board parent_id name template_id c =
    same_id c.owner user_id && (elim template_id [
      | some t ↦
          same_optional c.template_id (some t)
          && same_board c.board board
          && same_optional c.parent_id parent_id
      | none ↦
          same_board c.board board && same_optional c.parent_id parent_id && bytes_eq c.name name
    ])

unfoldable pub find_identity_for_update :
    TypedId
    → CategoryBoard
    → Option TypedId
    → Bytes
    → Option ℤ
    → InMemoryStore
    → RepositoryResult Category
find_identity_for_update user_id board parent_id name template_id s =
    if not s.in_transaction
    then failure database_error
    else required
        (first_of (has_identity user_id board parent_id name template_id)
          (IdMap.values (merged_categories s)))
        not_found

-- The locale whose templates everyone may use.
abbrev pub fallback_locale : Bytes
fallback_locale = bytes "zh-CN"

unfoldable pub find_template_by_id :
    ℤ → Bytes → InMemoryStore → RepositoryResult SystemCategoryTemplate
find_template_by_id template_id locale s =
    elim (IdMap.find template_id s.tables.category_templates) [
      | none ↦ failure not_found
      | some t ↦
          if not (bytes_eq t.locale locale) && not (bytes_eq t.locale fallback_locale)
          then failure not_found
          else success t
    ]

-- The walk of `resolve_root_id_for_user` from a category up to its root.
unfoldable pub walk : ℕ → TypedId → InMemoryStore → Category → RepositoryResult TypedId
walk zero user_id s node = failure database_error
walk (suc n) user_id s node = elim node.parent_id [
  | none ↦ success node.id
  | some p ↦ elim (find_by_id_for_user_including_deleted p user_id s) [
    | failure e ↦ failure database_error
    | success parent ↦ walk n user_id s parent
  ]
]

unfoldable pub resolve_root_id_for_user :
    TypedId → TypedId → InMemoryStore → RepositoryResult TypedId
resolve_root_id_for_user id user_id s =
    find_by_id_for_user_including_deleted id user_id s >>= walk max_category_tree_depth user_id s

-- The walk of `save` over the ancestors of the category that it stores: it ends with an error when
-- it meets the category itself, an ancestor for the second time, or no root on its way.
unfoldable pub climb :
    ℕ → Category → List ℤ → InMemoryStore → Category → RepositoryResult (Unit {0})
climb zero c visited s ancestor = failure validation_error
climb (suc n) c visited s ancestor = do
  reject_if (is_valid c.id && same_id ancestor.id c.id || elem ancestor.id visited) validation_error
  elim ancestor.parent_id [
    | none ↦ success tt
    | some p ↦ find_by_id_for_user p c.owner s >>= climb n c (ancestor.id ∷ visited) s
  ]

-- Of max_category_tree_depth nodes the category itself is the last.
unfoldable pub fits_below : Category → InMemoryStore → TypedId → RepositoryResult (Unit {0})
fits_below c s p = do
  reject_if (is_valid c.id && same_id p c.id) validation_error
  parent ← find_by_id_for_user p c.owner s
  reject_if (not (same_board parent.board c.board)) validation_error
  climb (max_category_tree_depth - 1) c [] s parent

unfoldable pub check_parent : Category → InMemoryStore → RepositoryResult (Unit {0})
check_parent c s = elim c.parent_id [ none ↦ success tt | some p ↦ fits_below c s p ]

unfoldable pub is_duplicate : Category → IdMap Category → Bool
is_duplicate c [] = false
is_duplicate c ((id, other) ∷ rest) =
    not (is_valid c.id && eqb_ℤ id c.id)
      && same_id other.owner c.owner
      && same_board other.board c.board
      && same_optional other.parent_id c.parent_id
      && bytes_eq other.name c.name
    || is_duplicate c rest

unfoldable pub has_no_name : Category → Bool
has_no_name c = elim c.name [ [] ↦ true | _ ∷ _ ↦ false ]

unfoldable pub check_category : Category → InMemoryStore → RepositoryResult (Unit {0})
check_category c s = do
  reject_if (not s.in_transaction) database_error
  reject_if (not (user_exists c.owner s)) not_found
  reject_if (has_no_name c) validation_error
  check_parent c s
  reject_if (is_duplicate c (merged_categories s)) conflict

unfoldable pub created : Category → InMemoryStore → Category
created c s = record c { id = s.next_category_id }

unfoldable pub create : Category → Action TypedId
create c s = (
  record s {
    next_category_id = s.next_category_id +ℤ pos 1;
    staging = record s.staging {
      staged_categories =
          IdMap.emplace s.next_category_id (created c s) s.staging.staged_categories;
    };
  },
  success s.next_category_id,
)

unfoldable pub stage_category : TypedId → Category → InMemoryStore → InMemoryStore
stage_category id c s = record s {
  staging = record s.staging {
    staged_categories = IdMap.insert_or_assign id c s.staging.staged_categories;
  };
}

unfoldable pub update : Category → Option Category → Action TypedId
update c none s = (s, failure not_found)
update c (some existing) s =
    if not (same_id existing.owner c.owner)
    then (s, failure validation_error)
    else if not (same_board existing.board c.board)
    then (s, failure validation_error)
    else (stage_category c.id c s, success c.id)

unfoldable pub save_checked : Category → RepositoryResult (Unit {0}) → Action TypedId
save_checked c (failure e) s = (s, failure e)
save_checked c (success u) s =
    if not (is_valid c.id) then create c s else update c (lookup c.id s) s

unfoldable pub save : Category → Action TypedId
save c s = save_checked c (check_category c s) s

unfoldable pub has_child : TypedId → List Category → Bool
has_child id [] = false
has_child id (c ∷ cs) =
    not (category_is_deleted c) && same_optional c.parent_id (some id) || has_child id cs

unfoldable pub check_deletion : TypedId → TypedId → InMemoryStore → RepositoryResult Category
check_deletion id user_id s = do
  reject_if (not s.in_transaction) database_error
  c ← find_by_id_for_user id user_id s
  reject_if (has_child id (IdMap.values (merged_categories s))) conflict
  success c

unfoldable pub delete_checked : TypedId → TimePoint → RepositoryResult Category → Action (Unit {0})
delete_checked id at (failure e) s = (s, failure e)
delete_checked id at (success c) s =
    (stage_category id (record c { deleted_at = some at; updated_at = at }) s, success tt)

unfoldable pub soft_delete : TypedId → TypedId → TimePoint → Action (Unit {0})
soft_delete id user_id at s = delete_checked id at (check_deletion id user_id s) s
