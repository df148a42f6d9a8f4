-- ===== src/Infrastructure/Sessions/Ended.antt =====
-- include/pfh/infrastructure/persistence/in_memory_auth_session_repository.h: what can be read once
-- a session is revoked.
use personal_finance_hub.Prelude.{
  ◌||◌, ◌≡◌, refl, sym, ap, ◌∙◌, ◌⊎◌, inl, inr, true, false, not, Option, none, some, List, Bytes,
  bytes_eq, Bool-cases, not-false,
}
use personal_finance_hub.Prelude.Int.{ltb_ℤ}
use personal_finance_hub.Prelude.Dict
use personal_finance_hub.Prelude.Dict.{find-insert_or_assign}
use personal_finance_hub.Prelude.IdMap.{or_else}
use personal_finance_hub.Domain.ExchangeRate.{TimePoint}
use personal_finance_hub.Domain.Ids.{same_id}
use personal_finance_hub.Application.AuthModels.{RefreshTokenRecord}
use personal_finance_hub.Infrastructure.Repository.{
  RepositoryResult, success, failure, not_found, failure-ne-success, success-injective,
  database_error, guard-eq-success,
}
use personal_finance_hub.Infrastructure.Store.{InMemoryStore, InMemoryRevokedSession}
use personal_finance_hub.Infrastructure.Action.{required}
use personal_finance_hub.Infrastructure.UnitOfWork.{TransactionContext}
use personal_finance_hub.Infrastructure.Sessions.{
  written, find_refresh_token, is_of_session, stage_matching, check_session, stage_session,
  revoke_session, require_active_transaction,
}
use personal_finance_hub.Infrastructure.Sessions.Revoked.{holds, is_session_revoked}
use personal_finance_hub.Infrastructure.Sessions.Matching.{stage_matching-ended}

written-success :
    (write : InMemoryStore → InMemoryStore) (check : RepositoryResult (Unit {0}))
    (s t : InMemoryStore)
    → written write check s ≡ (t, success tt)
    → (check ≡ success tt) × (t ≡ write s)
unfolding written
written-success write (failure e) s t h = absurd (failure-ne-success (ap (λ y. y.1) h))
written-success write (success u) s t h = (refl, sym (ap (λ y. y.0) h))

required-success :
    (o : Option RefreshTokenRecord) {x : RefreshTokenRecord}
    → required o not_found ≡ success x
    → o ≡ some x
required-success none h = absurd (failure-ne-success h)
required-success (some y) h = ap (λ z. some z) (success-injective h)

check_session-active :
    (tx : TransactionContext) (r : InMemoryRevokedSession) (s : InMemoryStore)
    → check_session tx r.user_id r.session_id r.revoked_at r.expires_at s ≡ success tt
    → s.in_transaction ≡ true
unfolding check_session require_active_transaction
check_session-active tx r s h =
    not-false _ (guard-eq-success (not s.in_transaction) database_error _ h).0

-- What is read after a session is staged as revoked.
find-stage_session :
    (r : InMemoryRevokedSession) (s : InMemoryStore) (hash : Bytes)
    → s.in_transaction ≡ true
    → (let first =
          stage_matching r.user_id r.session_id r.revoked_at s.tables.refresh_tokens
            s.staging.staged_refresh_tokens in
        find_refresh_token hash (stage_session r s)
        ≡ required
            (or_else
              (Dict.find hash (stage_matching r.user_id r.session_id r.revoked_at first first))
              (Dict.find hash s.tables.refresh_tokens))
            not_found)
unfolding find_refresh_token stage_session
find-stage_session r s hash running = rw running refl

holds-assigned :
    (key : Bytes) (r : InMemoryRevokedSession) (d : List (Bytes × InMemoryRevokedSession))
    (now : TimePoint)
    → holds (λ x. x.expires_at) key now (Dict.insert_or_assign key r d) ≡ ltb_ℤ now r.expires_at
unfolding holds
holds-assigned key r d now = rw (holds, find-insert_or_assign key r d) refl

stage_session-revoked :
    (r : InMemoryRevokedSession) (s : InMemoryStore) (now : TimePoint)
    → is_session_revoked r.session_id now (stage_session r s) ≡ (
        ltb_ℤ now r.expires_at
        || holds (λ x. x.expires_at) r.session_id now s.tables.revoked_sessions)
unfolding stage_session is_session_revoked
stage_session-revoked r s now =
    rw (holds-assigned r.session_id r s.staging.staged_revoked_sessions now) refl

-- Of what is read under a hash: nothing, a token of another user or session, or a token that was
-- revoked at the time.
abbrev pub IsEnded : InMemoryRevokedSession → RepositoryResult RefreshTokenRecord → Type 0
IsEnded r (failure e) = Unit
IsEnded r (success token) =
    (same_id token.user_id r.user_id ≡ false)
    ⊎ (bytes_eq token.session_id r.session_id ≡ false)
    ⊎ (token.revoked_at ≡ some r.revoked_at)

read-IsEnded :
    (r : InMemoryRevokedSession) (s : InMemoryStore) (hash : Bytes)
    (found : RepositoryResult RefreshTokenRecord)
    → s.in_transaction ≡ true
    → find_refresh_token hash (stage_session r s) ≡ found
    → IsEnded r found
unfolding is_of_session
read-IsEnded r s hash (failure e) running h = tt
read-IsEnded r s hash (success token) running h =
    elim (Bool-cases (same_id token.user_id r.user_id)) [
      | inr other ↦ inl other
      | inl mine ↦ elim (Bool-cases (bytes_eq token.session_id r.session_id)) [
        | inr elsewhere ↦ inr (inl elsewhere)
        | inl here ↦ inr (
            inr (
              stage_matching-ended r.user_id r.session_id r.revoked_at s.tables.refresh_tokens
                s.staging.staged_refresh_tokens hash token
                (required-success _ (sym (find-stage_session r s hash running) ∙ h))
                (rw (is_of_session, mine, here) refl)))
      ]
    ]

-- Once a session is revoked, every refresh token of its user and session that can be read in the
-- transaction is revoked at that time. And whether or not there is such a token, the session counts
-- as revoked at exactly the times before it expires, and as long as an earlier, committed
-- revocation of it lasts.
pub revoke_session-IsEnded :
    (tx : TransactionContext) (r : InMemoryRevokedSession) (s t : InMemoryStore)
    → revoke_session tx r s ≡ (t, success tt)
    → (hash : Bytes) (now : TimePoint)
    → IsEnded r (find_refresh_token hash t)
      × (is_session_revoked r.session_id now t ≡ (
          ltb_ℤ now r.expires_at
          || holds (λ x. x.expires_at) r.session_id now s.tables.revoked_sessions))
unfolding revoke_session
revoke_session-IsEnded tx r s t h hash now =
    let (passed, after) = written-success (stage_session r) _ s t h in
    let running = check_session-active tx r s passed in
    rw after (read-IsEnded r s hash _ running refl, stage_session-revoked r s now)
