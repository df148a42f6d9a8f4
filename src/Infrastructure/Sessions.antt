-- ===== src/Infrastructure/Sessions.antt =====
-- include/pfh/infrastructure/persistence/in_memory_auth_session_repository.h and
-- in_memory_session_cleanup_repository.h: refresh tokens, and the sessions and access tokens that
-- are revoked.
pub mod Revoked
pub mod Matching
pub mod Ended
use personal_finance_hub.Prelude.{
  ℕ, zero, suc, ◌+◌, ◌==◌, Bool, true, false, not, ◌&&◌, ◌||◌, Option, none, some, List, [], ◌∷◌,
  ◌++◌, Bytes, bytes_eq, if◌then◌else◌,
}
use personal_finance_hub.Prelude.Int.{ℤ, pos, ◌+ℤ◌, ltb_ℤ, leb_ℤ}
use personal_finance_hub.Prelude.Dict
use personal_finance_hub.Prelude.IdMap.{or_else}
use personal_finance_hub.Domain.ExchangeRate.{TimePoint}
use personal_finance_hub.Domain.Ids.{TypedId, is_valid, same_id}
use personal_finance_hub.Application.AuthModels.{AccessTokenClaims, RefreshTokenRecord}
use personal_finance_hub.Infrastructure.Repository.{
  RepositoryResult, success, failure, not_found, validation_error, conflict, database_error,
  reject_if, ◌>>=◌, ◌>>◌,
}
use personal_finance_hub.Infrastructure.Store.{
  InMemoryStore, InMemoryRevokedAccessToken, InMemoryRevokedSession,
}
use personal_finance_hub.Infrastructure.Action.{Action, required}
use personal_finance_hub.Infrastructure.UnitOfWork.{TransactionContext}
use personal_finance_hub.Infrastructure.Idempotency.{has_tenant}

-- A write that follows its checks.
unfoldable pub written :
    (InMemoryStore → InMemoryStore) → RepositoryResult (Unit {0}) → Action (Unit {0})
written write (failure e) s = (s, failure e)
written write (success u) s = (write s, success tt)

abbrev pub has_no_text : Bytes → Bool
has_no_text [] = true
has_no_text (b ∷ rest) = false

unfoldable pub find_refresh_token : Bytes → InMemoryStore → RepositoryResult RefreshTokenRecord
find_refresh_token token_hash s =
    required
      (or_else
        (if s.in_transaction then Dict.find token_hash s.staging.staged_refresh_tokens else none)
        (Dict.find token_hash s.tables.refresh_tokens))
      not_found

unfoldable pub require_active_transaction : InMemoryStore → RepositoryResult (Unit {0})
require_active_transaction s = reject_if (not s.in_transaction) database_error

unfoldable pub require_tenant : TransactionContext → TypedId → RepositoryResult (Unit {0})
require_tenant tx expected = reject_if (not (has_tenant expected tx)) validation_error

unfoldable pub find_refresh_token_for_update :
    TransactionContext → Bytes → InMemoryStore → RepositoryResult RefreshTokenRecord
find_refresh_token_for_update tx token_hash s = do
  require_active_transaction s
  token ← find_refresh_token token_hash s
  require_tenant tx token.user_id
  success token

unfoldable pub check_refresh_token :
    TransactionContext → RefreshTokenRecord → InMemoryStore → RepositoryResult (Unit {0})
check_refresh_token tx token s = do
  require_active_transaction s
  reject_if
      (not (is_valid token.user_id)
        || has_no_text token.token_hash
        || has_no_text token.session_id
        || leb_ℤ token.expires_at token.created_at)
      validation_error
  require_tenant tx token.user_id
  reject_if
      (Dict.contains token.token_hash s.tables.refresh_tokens
        || Dict.contains token.token_hash s.staging.staged_refresh_tokens)
      conflict

unfoldable pub stage_new_token : RefreshTokenRecord → InMemoryStore → InMemoryStore
stage_new_token token s =
    let is_new = leb_ℤ token.id (pos 0) in
    record s {
      next_refresh_token_id =
          if is_new then s.next_refresh_token_id +ℤ pos 1 else s.next_refresh_token_id;
      staging = record s.staging {
        staged_refresh_tokens =
            Dict.emplace token.token_hash
              (record token { id = if is_new then s.next_refresh_token_id else token.id })
              s.staging.staged_refresh_tokens;
      };
    }

unfoldable pub save_refresh_token : TransactionContext → RefreshTokenRecord → Action (Unit {0})
save_refresh_token tx token s = written (stage_new_token token) (check_refresh_token tx token s) s

abbrev pub revoked_token : TimePoint → RefreshTokenRecord → RefreshTokenRecord
revoked_token at token = record token { revoked_at = some at }

unfoldable pub revoke_found : TimePoint → RepositoryResult RefreshTokenRecord → Action (Unit {0})
revoke_found at (failure e) s = (s, failure e)
revoke_found at (success token) s = (
  record s {
    staging = record s.staging {
      staged_refresh_tokens =
          Dict.insert_or_assign token.token_hash (revoked_token at token)
            s.staging.staged_refresh_tokens;
    };
  },
  success tt,
)

unfoldable pub revoke_refresh_token : TransactionContext → Bytes → TimePoint → Action (Unit {0})
revoke_refresh_token tx token_hash at s =
    revoke_found at (find_refresh_token_for_update tx token_hash s) s

unfoldable pub is_of_session : TypedId → Bytes → RefreshTokenRecord → Bool
is_of_session user_id session_id token =
    same_id token.user_id user_id && bytes_eq token.session_id session_id

-- stage_matching: the tokens of the session among `tokens` are staged as revoked.
unfoldable pub stage_matching :
    TypedId
    → Bytes
    → TimePoint
    → List (Bytes × RefreshTokenRecord)
    → List (Bytes × RefreshTokenRecord)
    → List (Bytes × RefreshTokenRecord)
stage_matching user_id session_id at [] staged = staged
stage_matching user_id session_id at ((hash, token) ∷ tokens) staged =
    stage_matching user_id session_id at tokens (
      if is_of_session user_id session_id token
      then Dict.insert_or_assign hash (revoked_token at token) staged
      else staged)

unfoldable pub check_session :
    TransactionContext
    → TypedId
    → Bytes
    → TimePoint
    → TimePoint
    → InMemoryStore
    → RepositoryResult (Unit {0})
check_session tx user_id session_id revoked_at expires_at s = do
  require_active_transaction s
  require_tenant tx user_id
  reject_if (has_no_text session_id || leb_ℤ expires_at revoked_at) validation_error

-- The committed tokens first, then those that are staged by then.
unfoldable pub stage_session : InMemoryRevokedSession → InMemoryStore → InMemoryStore
stage_session r s =
    let staged =
      stage_matching r.user_id r.session_id r.revoked_at s.tables.refresh_tokens
        s.staging.staged_refresh_tokens in
    record s {
      staging = record s.staging {
        staged_refresh_tokens = stage_matching r.user_id r.session_id r.revoked_at staged staged;
        staged_revoked_sessions =
            Dict.insert_or_assign r.session_id r s.staging.staged_revoked_sessions;
      };
    }

unfoldable pub revoke_session : TransactionContext → InMemoryRevokedSession → Action (Unit {0})
revoke_session tx r s =
    written (stage_session r) (check_session tx r.user_id r.session_id r.revoked_at r.expires_at s)
      s

-- The issuer and the token's id on lines of their own.
abbrev pub access_key : Bytes → Bytes → Bytes
access_key issuer token_id = issuer ++ 10 ∷ token_id

unfoldable pub check_access_token :
    TransactionContext → AccessTokenClaims → TimePoint → InMemoryStore → RepositoryResult (Unit {0})
check_access_token tx claims revoked_at s = do
  require_active_transaction s
  require_tenant tx claims.user_id
  reject_if
      (has_no_text claims.issuer
        || has_no_text claims.token_id
        || leb_ℤ claims.expires_at revoked_at)
      validation_error

unfoldable pub stage_access_token : AccessTokenClaims → TimePoint → InMemoryStore → InMemoryStore
stage_access_token claims at s = record s {
  staging = record s.staging {
    staged_revoked_access_tokens =
        Dict.insert_or_assign (access_key claims.issuer claims.token_id)
          (record {
            issuer = claims.issuer;
            token_id = claims.token_id;
            session_id = claims.session_id;
            expires_at = claims.expires_at;
            revoked_at = at;
          })
          s.staging.staged_revoked_access_tokens;
  };
}

unfoldable pub revoke_access_token :
    TransactionContext → AccessTokenClaims → TimePoint → Action (Unit {0})
revoke_access_token tx claims at s =
    written (stage_access_token claims at) (check_access_token tx claims at s) s
