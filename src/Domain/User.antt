-- ===== src/Domain/User.antt =====
-- include/pfh/domain/user.h and include/pfh/domain/user_preference.h: who a user is, and what the
-- user prefers.
use personal_finance_hub.Prelude.{Bytes}
use personal_finance_hub.Domain.Currency.{Currency}
use personal_finance_hub.Domain.Ids.{TypedId}

pub data UserRole : Type 0 where
  user operator : UserRole

pub record User : Type 0 where
  pub id : TypedId
  pub username : Bytes
  pub role : UserRole

pub data ThemeMode : Type 0 where
  system light dark : ThemeMode

pub data HomePage : Type 0 where
  dashboard transactions reports accounts : HomePage

pub data ReportPeriod : Type 0 where
  current_month last_month last_3_months current_year custom : ReportPeriod

pub record UserPreference : Type 0 where
  pub user_id : TypedId
  pub base_currency : Currency
  pub locale : Bytes
  pub timezone : Bytes
  pub date_format : Bytes
  pub number_format : Bytes
  pub theme : ThemeMode
  pub default_home_page : HomePage
  pub default_report_period : ReportPeriod
