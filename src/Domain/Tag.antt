-- ===== src/Domain/Tag.antt =====
-- include/pfh/domain/tag.h: the labels that a user puts on transactions.
use personal_finance_hub.Prelude.{Option, Bytes}
use personal_finance_hub.Domain.ExchangeRate.{TimePoint}
use personal_finance_hub.Domain.Ids.{TypedId}

pub record Tag : Type 0 where
  pub id : TypedId
  pub owner : TypedId
  pub name : Bytes
  pub deleted_at : Option TimePoint
  pub created_at : TimePoint
  pub updated_at : TimePoint
