-- ===== src/Domain/Transaction.antt =====
-- include/pfh/domain/transaction.h and include/pfh/domain/category.h: the financial event, and
-- which categories it may use.
use personal_finance_hub.Prelude.{Bool, true, false, Option, none, some, Bytes, not}
use personal_finance_hub.Domain.Error.{DomainResult, reject_if, invalid_operation}
use personal_finance_hub.Domain.ExchangeRate.{TimePoint}
use personal_finance_hub.Domain.Ids.{TypedId}
use personal_finance_hub.Domain.Money.{Money}

pub data TransactionType : Type 0 where
  income expense transfer adjustment : TransactionType

pub record Transaction : Type 0 where
  pub id : TypedId
  pub user_id : TypedId
  pub account_id : TypedId
  pub amount : Money
  pub type : TransactionType
  pub occurred_at : TimePoint
  pub description : Bytes
  pub category_id : Option TypedId
  pub transfer_group_id : Option TypedId
  pub created_at : TimePoint
  pub deleted_at : Option TimePoint

unfoldable pub is_deleted : Transaction → Bool
is_deleted tx = elim tx.deleted_at [ none ↦ false | some _ ↦ true ]

unfoldable pub mark_deleted : TimePoint → Transaction → Transaction
mark_deleted at tx = record tx { deleted_at = some at }

pub data CategoryBoard : Type 0 where
  income_board expense_board : CategoryBoard

-- Category::is_valid_for, on the category's board.
unfoldable pub is_valid_for : CategoryBoard → TransactionType → Bool
is_valid_for income_board income = true
is_valid_for income_board expense = false
is_valid_for income_board adjustment = false
is_valid_for income_board transfer = false
is_valid_for expense_board income = false
is_valid_for expense_board expense = true
is_valid_for expense_board adjustment = true
is_valid_for expense_board transfer = false

unfoldable pub validate_category_board : TransactionType → CategoryBoard → DomainResult (Unit {0})
unfolding is_valid_for
validate_category_board type board = reject_if (not (is_valid_for board type)) invalid_operation
