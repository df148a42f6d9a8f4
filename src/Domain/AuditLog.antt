-- ===== src/Domain/AuditLog.antt =====
-- include/pfh/domain/audit_log.h: the entries of the audit log.
use personal_finance_hub.Prelude.{Option, Bytes}
use personal_finance_hub.Prelude.Int.{ℤ}
use personal_finance_hub.Domain.ExchangeRate.{TimePoint}
use personal_finance_hub.Domain.Ids.{TypedId}

pub data AuditAction : Type 0 where
  create update archive delete dangerous_delete sync_import refresh register login logout :
      AuditAction
  token_refresh security_event retry : AuditAction

pub data AuditActorType : Type 0 where
  user operator system : AuditActorType

pub record AuditLogEntry : Type 0 where
  pub id : ℤ
  pub operator_user_id : Option TypedId
  pub actor_type : AuditActorType
  pub action : AuditAction
  pub resource_type : Bytes
  pub resource_id : Bytes
  pub before_value_json : Bytes
  pub after_value_json : Bytes
  pub metadata_json : Bytes
  pub trace_id : Bytes
  pub occurred_at : TimePoint
