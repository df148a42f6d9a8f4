-- ===== src/Domain/Category.antt =====
-- include/pfh/domain/category.h: the categories of a user, and the templates that they start from.
use personal_finance_hub.Prelude.{ℕ, Bool, true, false, Option, none, some, Bytes}
use personal_finance_hub.Prelude.Int.{ℤ}
use personal_finance_hub.Domain.ExchangeRate.{TimePoint}
use personal_finance_hub.Domain.Ids.{TypedId}
use personal_finance_hub.Domain.Transaction.{CategoryBoard}

pub data CategorySource : Type 0 where
  system user : CategorySource

pub record SystemCategoryTemplate : Type 0 where
  pub id : ℤ
  pub name : Bytes
  pub locale : Bytes
  pub group_name : Bytes
  pub parent_id : Option ℤ
  pub default_board : Option CategoryBoard
  pub sort_order : ℤ
  pub is_selectable : Bool

pub record Category : Type 0 where
  pub id : TypedId
  pub owner : TypedId
  pub name : Bytes
  pub board : CategoryBoard
  pub parent_id : Option TypedId
  pub source : CategorySource
  pub template_id : Option ℤ
  pub sort_order : ℤ
  pub deleted_at : Option TimePoint
  pub created_at : TimePoint
  pub updated_at : TimePoint

unfoldable pub category_is_deleted : Category → Bool
category_is_deleted c = elim c.deleted_at [ none ↦ false | some _ ↦ true ]

-- The longest path from a category to its root, in nodes.
abbrev pub max_category_tree_depth : ℕ
max_category_tree_depth = 64
