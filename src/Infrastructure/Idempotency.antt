-- ===== src/Infrastructure/Idempotency.antt =====
-- include/pfh/infrastructure/persistence/in_memory_idempotency_repository.h: a request that carries
-- a key is run once, and its response is kept for those that repeat it.
pub mod Visible
pub mod Once
pub mod Repeated
use personal_finance_hub.Prelude.{
  Bool, true, false, not, ◌||◌, Option, none, some, List, [], ◌∷◌, ◌++◌, Bytes, bytes_eq,
  if◌then◌else◌,
}
use personal_finance_hub.Prelude.Int.{ℤ, leb_ℤ}
use personal_finance_hub.Prelude.Dict
use personal_finance_hub.Prelude.IdMap.{or_else}
use personal_finance_hub.Domain.ExchangeRate.{TimePoint}
use personal_finance_hub.Domain.Ids.{TypedId, same_id, to_string}
use personal_finance_hub.Infrastructure.Repository.{
  RepositoryResult, success, failure, validation_error, conflict,
}
use personal_finance_hub.Infrastructure.Store.{InMemoryStore, InMemoryIdempotencyRecord}
use personal_finance_hub.Infrastructure.Action.{Action}
use personal_finance_hub.Infrastructure.UnitOfWork.{TransactionContext}

pub record IdempotencyBeginResult : Type 0 where
  pub replay : Bool
  pub response_values : List (Bytes × Bytes)

-- The user's id, the operation and the key on lines of their own.
unfoldable pub make_key : TypedId → Bytes → Bytes → Bytes
make_key user_id operation key = to_string user_id ++ 10 ∷ operation ++ 10 ∷ key

-- context->tenant_user_id() == user_id
unfoldable pub has_tenant : TypedId → TransactionContext → Bool
has_tenant user_id tx = elim tx.tenant_user_id [ none ↦ false | some t ↦ same_id t user_id ]

-- The record that a transaction sees under a key.
unfoldable pub visible : Bytes → InMemoryStore → Option InMemoryIdempotencyRecord
visible composite s = or_else (Dict.find composite s.staging.staged_idempotency) (
    if Dict.elem composite s.staging.staged_deleted_idempotency
    then none
    else Dict.find composite s.tables.idempotency)

unfoldable pub drop_expired : Bytes → InMemoryStore → InMemoryStore
drop_expired composite s = record s {
  staging = record s.staging {
    staged_idempotency = Dict.erase composite s.staging.staged_idempotency;
    staged_deleted_idempotency = Dict.insert composite s.staging.staged_deleted_idempotency;
  };
}

unfoldable pub stage_record : Bytes → InMemoryIdempotencyRecord → InMemoryStore → InMemoryStore
stage_record composite inserted s = record s {
  staging = record s.staging {
    staged_idempotency = Dict.emplace composite inserted s.staging.staged_idempotency;
  };
}

-- What the caller is told of a record that has not expired.
unfoldable pub answer : Bytes → InMemoryIdempotencyRecord → RepositoryResult IdempotencyBeginResult
answer request_fingerprint r =
    if not (bytes_eq r.request_fingerprint request_fingerprint)
    then failure conflict
    else if not r.completed
    then failure conflict
    else success (record { replay = true; response_values = r.response_values })

unfoldable pub fresh : IdempotencyBeginResult
fresh = record { replay = false; response_values = [] }

-- A request of a user: its operation, its key, and the fingerprint of what it asks for.
pub record Request : Type 0 where
  pub user_id : TypedId
  pub operation : Bytes
  pub key : Bytes
  pub request_fingerprint : Bytes

abbrev pub composite_of : Request → Bytes
composite_of q = make_key q.user_id q.operation q.key

-- The record of a request that is in progress.
unfoldable pub pending_record : Request → TimePoint → TimePoint → InMemoryIdempotencyRecord
pending_record q created_at expires_at = record {
  user_id = q.user_id;
  operation = q.operation;
  key = q.key;
  request_fingerprint = q.request_fingerprint;
  completed = false;
  response_values = [];
  created_at = created_at;
  expires_at = expires_at;
}

-- `begin`, on the record that it finds.
unfoldable pub begin_found :
    Request
    → TimePoint
    → TimePoint
    → Option InMemoryIdempotencyRecord
    → Action IdempotencyBeginResult
begin_found q created_at expires_at none s =
    (stage_record (composite_of q) (pending_record q created_at expires_at) s, success fresh)
begin_found q created_at expires_at (some r) s =
    if leb_ℤ r.expires_at created_at
    then (
      stage_record (composite_of q) (pending_record q created_at expires_at)
          (drop_expired (composite_of q) s),
      success fresh,
    )
    else (s, answer q.request_fingerprint r)

unfoldable pub begin :
    TransactionContext → Request → TimePoint → TimePoint → Action IdempotencyBeginResult
begin tx q created_at expires_at s =
    if not s.in_transaction || not (has_tenant q.user_id tx)
    then (s, failure validation_error)
    else begin_found q created_at expires_at (visible (composite_of q) s) s

-- `complete`, on the record that is staged.
unfoldable pub complete_found :
    Bytes → List (Bytes × Bytes) → Option InMemoryIdempotencyRecord → Action (Unit {0})
complete_found composite response_values none s = (s, failure conflict)
complete_found composite response_values (some r) s =
    if r.completed then (s, failure conflict) else (
      record s {
        staging = record s.staging {
          staged_idempotency =
              Dict.insert_or_assign composite
                (record r { response_values = response_values; completed = true })
                s.staging.staged_idempotency;
        };
      },
      success tt,
    )

unfoldable pub complete : TransactionContext → Request → List (Bytes × Bytes) → Action (Unit {0})
complete tx q response_values s =
    if not s.in_transaction || not (has_tenant q.user_id tx)
    then (s, failure validation_error)
    else complete_found (composite_of q) response_values
        (Dict.find (composite_of q) s.staging.staged_idempotency) s
