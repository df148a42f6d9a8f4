-- ===== src/Infrastructure/Categories/Rooted.antt =====
-- A category that is stored hangs on a root: the walk of `resolve_root_id_for_user` finds it.
use personal_finance_hub.Prelude.{◌≡◌, refl, false, none}
use personal_finance_hub.Prelude.Int.{eqb_ℤ_refl}
use personal_finance_hub.Prelude.IdMap.{elem}
use personal_finance_hub.Domain.Category.{Category}
use personal_finance_hub.Domain.Ids.{TypedId}
use personal_finance_hub.Infrastructure.Repository.{success}
use personal_finance_hub.Infrastructure.Store.{InMemoryStore}
use personal_finance_hub.Infrastructure.Categories.{
  lookup, find_by_id_for_user_including_deleted, resolve_root_id_for_user, check_category, save,
}
use personal_finance_hub.Infrastructure.Categories.Walks.{check_parent-walk}
use personal_finance_hub.Infrastructure.Categories.Saved.{IsWellKeyed, save_checked-IsSaved}

-- After a category is stored, its root is found: the bound of `save` on the ancestors, and its test
-- for cycles, are those that the walk of `resolve_root_id_for_user` needs. The categories of the
-- store lie under their own ids, and the next id is neither used nor staged as deleted.
pub save-rooted :
    (c : Category) (s t : InMemoryStore) (id : TypedId)
    → IsWellKeyed s
    → lookup s.next_category_id s ≡ none
    → elem s.next_category_id s.staging.staged_deleted_categories ≡ false
    → save c s ≡ (t, success id)
    → (root : TypedId) × (resolve_root_id_for_user id c.owner t ≡ success root)
unfolding save resolve_root_id_for_user find_by_id_for_user_including_deleted
save-rooted c s t id keyed new unstaged h =
    let (passed, (node, here, parent, owner, elsewhere, apart)) =
      save_checked-IsSaved c (check_category c s) s t id refl keyed new unstaged h in
    let (root, e) = check_parent-walk c id s t elsewhere apart node parent passed in
    (root, rw (here, owner, eqb_ℤ_refl c.owner) e)
