-- ===== src/Domain/Account.antt =====
-- include/pfh/domain/account.h: the account entity, its category and its archive flag.
use personal_finance_hub.Prelude.{◌≡◌, Bool, true, false, Option, none, some, Bytes}
use personal_finance_hub.Prelude.Int.{ℤ}
use personal_finance_hub.Domain.Currency.{Currency}
use personal_finance_hub.Domain.ExchangeRate.{TimePoint}
use personal_finance_hub.Domain.Ids.{TypedId}

pub data AccountType : Type 0 where
  cash savings credit digital_wallet investment crypto other : AccountType

pub data AccountCategory : Type 0 where
  asset liability : AccountCategory

pub record Account : Type 0 where
  pub id : TypedId
  pub owner : TypedId
  pub name : Bytes
  pub type : AccountType
  pub subtype : Bytes
  pub currency : Currency
  pub description : Bytes
  pub is_archived : Bool
  pub archived_at : Option TimePoint
  pub created_at : TimePoint
  pub updated_at : TimePoint
  pub version : ℤ
  pub category_override : Option AccountCategory

unfoldable pub default_category_for : AccountType → AccountCategory
default_category_for AccountType.credit = liability
default_category_for _ = asset

unfoldable pub category : Account → AccountCategory
category a = elim a.category_override [ none ↦ default_category_for a.type | some c ↦ c ]

unfoldable pub archive : TimePoint → Account → Account
archive at a = record a { is_archived = true; archived_at = some at; updated_at = at }

unfoldable pub unarchive : TimePoint → Account → Account
unarchive at a = record a { is_archived = false; archived_at = none; updated_at = at }

-- An account is archived exactly if it has the time of its archiving.
abbrev pub IsConsistent : Account → Type 0
IsConsistent a = a.is_archived ≡ (elim a.archived_at [ none ↦ false | some t ↦ true ])
