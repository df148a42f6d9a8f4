-- ===== src/Infrastructure/Categories/Lists.antt =====
-- The lists of categories that a user is shown, each in its order.
use personal_finance_hub.Prelude.{Bool, true, false, not, ◌&&◌, List, [], ◌∷◌, if◌then◌else◌}
use personal_finance_hub.Prelude.Int.{eqb_ℤ, ltb_ℤ}
use personal_finance_hub.Prelude.IdMap
use personal_finance_hub.Domain.Category.{Category, category_is_deleted}
use personal_finance_hub.Domain.Ids.{TypedId, same_id}
use personal_finance_hub.Domain.Transaction.{CategoryBoard, income_board, expense_board}
use personal_finance_hub.Infrastructure.Repository.{RepositoryResult, success}
use personal_finance_hub.Infrastructure.Store.{InMemoryStore}
use personal_finance_hub.Infrastructure.Categories.{same_board, merged_categories}

unfoldable pub filter : (Category → Bool) → List Category → List Category
filter keep [] = []
filter keep (c ∷ cs) = let rest = filter keep cs in if keep c then c ∷ rest else rest

unfoldable pub insert_sorted :
    (Category → Category → Bool) → Category → List Category → List Category
insert_sorted before c [] = c ∷ []
insert_sorted before c (x ∷ xs) =
    let rest = insert_sorted before c xs in if before x c then x ∷ rest else c ∷ x ∷ xs

unfoldable pub sort : (Category → Category → Bool) → List Category → List Category
sort before [] = []
sort before (c ∷ cs) = insert_sorted before c (sort before cs)

abbrev pub by_id : Category → Category → Bool
by_id a b = ltb_ℤ a.id b.id

abbrev pub by_sort_order : Category → Category → Bool
by_sort_order a b =
    if not (eqb_ℤ a.sort_order b.sort_order) then ltb_ℤ a.sort_order b.sort_order else by_id a b

-- Income is the first board.
abbrev pub board_before : CategoryBoard → CategoryBoard → Bool
board_before income_board income_board = false
board_before income_board expense_board = true
board_before expense_board income_board = false
board_before expense_board expense_board = false

abbrev pub by_board : Category → Category → Bool
by_board a b =
    if not (same_board a.board b.board) then board_before a.board b.board else by_sort_order a b

unfoldable pub find_by_board :
    TypedId → CategoryBoard → InMemoryStore → RepositoryResult (List Category)
find_by_board user_id board s = success (
    sort by_sort_order (
      filter
        (λ c. same_id c.owner user_id && not (category_is_deleted c) && same_board c.board board)
        (IdMap.values (merged_categories s))))

unfoldable pub find_all_for_user : TypedId → InMemoryStore → RepositoryResult (List Category)
find_all_for_user user_id s = success (
    sort by_board (
      filter (λ c. same_id c.owner user_id && not (category_is_deleted c))
        (IdMap.values (merged_categories s))))

unfoldable pub find_all_for_user_including_deleted :
    TypedId → InMemoryStore → RepositoryResult (List Category)
find_all_for_user_including_deleted user_id s =
    success
      (sort by_id (filter (λ c. same_id c.owner user_id) (IdMap.values (merged_categories s))))
