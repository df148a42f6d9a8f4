-- ===== src/Application/AuthModels.antt =====
-- include/pfh/application/security/auth_models.h: refresh tokens, and what an access token claims.
use personal_finance_hub.Prelude.{Option, Bytes}
use personal_finance_hub.Prelude.Int.{ℤ}
use personal_finance_hub.Domain.ExchangeRate.{TimePoint}
use personal_finance_hub.Domain.Ids.{TypedId}
use personal_finance_hub.Domain.User.{UserRole}

pub record AccessTokenClaims : Type 0 where
  pub issuer : Bytes
  pub audience : Bytes
  pub user_id : TypedId
  pub session_id : Bytes
  pub token_id : Bytes
  pub role : UserRole
  pub issued_at : TimePoint
  pub not_before : TimePoint
  pub expires_at : TimePoint

pub record RefreshTokenRecord : Type 0 where
  pub id : ℤ
  pub user_id : TypedId
  pub token_hash : Bytes
  pub session_id : Bytes
  pub expires_at : TimePoint
  pub created_at : TimePoint
  pub revoked_at : Option TimePoint
