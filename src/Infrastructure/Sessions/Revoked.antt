-- ===== src/Infrastructure/Sessions/Revoked.antt =====
-- The lookups of what is revoked, and the deletion of what has expired.
use personal_finance_hub.Prelude.{
  ℕ, zero, suc, ◌==◌, Bool, true, false, ◌||◌, ◌&&◌, ltb, none, some, List, [], ◌∷◌, Bytes,
  if◌then◌else◌,
}
use personal_finance_hub.Prelude.Int.{ltb_ℤ}
use personal_finance_hub.Prelude.Dict
use personal_finance_hub.Domain.ExchangeRate.{TimePoint}
use personal_finance_hub.Infrastructure.Repository.{
  RepositoryResult, success, failure, validation_error,
}
use personal_finance_hub.Infrastructure.Store.{InMemoryStore}
use personal_finance_hub.Infrastructure.Action.{Action}
use personal_finance_hub.Infrastructure.Sessions.{access_key, require_active_transaction}

-- A row is under the key, and has not expired.
unfoldable pub holds : {V : Type 0} → (V → TimePoint) → Bytes → TimePoint → List (Bytes × V) → Bool
holds expiry key now rows = elim (Dict.find key rows) [
  | none ↦ false
  | some r ↦ ltb_ℤ now (expiry r)
]

-- Both look into the staged rows whether a transaction runs or not.
unfoldable pub is_access_token_revoked : Bytes → Bytes → TimePoint → InMemoryStore → Bool
is_access_token_revoked issuer token_id now s =
    holds (λ r. r.expires_at) (access_key issuer token_id) now
      s.staging.staged_revoked_access_tokens
    || holds (λ r. r.expires_at) (access_key issuer token_id) now s.tables.revoked_access_tokens

unfoldable pub is_session_revoked : Bytes → TimePoint → InMemoryStore → Bool
is_session_revoked session_id now s =
    holds (λ r. r.expires_at) session_id now s.staging.staged_revoked_sessions
    || holds (λ r. r.expires_at) session_id now s.tables.revoked_sessions

unfoldable pub is_session_revoked_in : Bytes → TimePoint → InMemoryStore → RepositoryResult Bool
is_session_revoked_in session_id now s = elim (require_active_transaction s) [
  | failure e ↦ failure e
  | success u ↦ success (is_session_revoked session_id now s)
]

unfoldable pub is_access_or_session_revoked :
    Bytes → Bytes → Bytes → TimePoint → InMemoryStore → Bool
is_access_or_session_revoked issuer token_id session_id now s =
    is_access_token_revoked issuer token_id now s || is_session_revoked session_id now s

pub record SessionCleanupSummary : Type 0 where
  pub refresh_tokens_deleted : ℕ
  pub revoked_access_tokens_deleted : ℕ
  pub revoked_sessions_deleted : ℕ

-- The order of std::string, by unsigned bytes.
unfoldable pub bytes_less : Bytes → Bytes → Bool
bytes_less cs [] = false
bytes_less [] (d ∷ ds) = true
bytes_less (c ∷ cs) (d ∷ ds) = ltb c d || c == d && bytes_less cs ds

unfoldable pub insert_key : {V : Type 0} → Bytes → V → List (Bytes × V) → List (Bytes × V)
insert_key key r [] = (key, r) ∷ []
insert_key key r ((k, v) ∷ rows) =
    if bytes_less key k then (key, r) ∷ (k, v) ∷ rows else (k, v) ∷ insert_key key r rows

-- The rows of a map in the order in which it is walked, that of its keys.
unfoldable pub in_key_order : {V : Type 0} → List (Bytes × V) → List (Bytes × V)
in_key_order [] = []
in_key_order ((key, r) ∷ rows) = insert_key key r (in_key_order rows)

-- The rows that stay, and how many are gone: at most `limit` of those that have expired.
unfoldable pub erase_loop :
    {V : Type 0} → (V → TimePoint) → TimePoint → ℕ → List (Bytes × V) → List (Bytes × V) × ℕ
erase_loop expiry now zero rows = (rows, 0)
erase_loop expiry now (suc limit) [] = ([], 0)
erase_loop expiry now (suc limit) ((key, r) ∷ rows) =
    let kept = erase_loop expiry now (suc limit) rows in
    let erased = erase_loop expiry now limit rows in
    if ltb_ℤ now (expiry r) then ((key, r) ∷ kept.0, kept.1) else (erased.0, suc erased.1)

unfoldable pub erase_expired :
    {V : Type 0} → (V → TimePoint) → TimePoint → ℕ → List (Bytes × V) → List (Bytes × V) × ℕ
erase_expired expiry now limit rows = erase_loop expiry now limit (in_key_order rows)

unfoldable pub delete_expired : TimePoint → ℕ → Action SessionCleanupSummary
delete_expired now batch_size s =
    let tokens = erase_expired (λ r. r.expires_at) now batch_size s.tables.refresh_tokens in
    let access = erase_expired (λ r. r.expires_at) now batch_size s.tables.revoked_access_tokens in
    let sessions = erase_expired (λ r. r.expires_at) now batch_size s.tables.revoked_sessions in
    if batch_size == 0 then (s, failure validation_error) else (
      record s {
        tables = record s.tables {
          refresh_tokens = tokens.0;
          revoked_access_tokens = access.0;
          revoked_sessions = sessions.0;
        };
      },
      success (record {
        refresh_tokens_deleted = tokens.1;
        revoked_access_tokens_deleted = access.1;
        revoked_sessions_deleted = sessions.1;
      }),
    )
