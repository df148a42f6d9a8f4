-- ===== src/Infrastructure/Lease.antt =====
-- include/pfh/infrastructure/persistence/in_memory_job_lease_repository.h: the leases by which the
-- instances of the program agree who runs a scheduled job.
pub mod Exclusion
pub mod Tokens
use personal_finance_hub.Prelude.{
  ℕ, ◌+◌, ◌%◌, ◌^◌, Bool, true, false, not, ◌&&◌, ◌||◌, Option, none, some, List, ◌++◌, length,
  Bytes, bytes, bytes_eq, ltb, ◌==◌, if◌then◌else◌, find, insert_or_assign,
}
use personal_finance_hub.Prelude.Int.{ℤ, pos, ◌+ℤ◌, ltb_ℤ}
use personal_finance_hub.Domain.Decimal.Text.{u128_to_string}
use personal_finance_hub.Domain.ExchangeRate.{TimePoint}
use personal_finance_hub.Infrastructure.Repository.{
  RepositoryResult, success, failure, validation_error,
}

pub record JobLease : Type 0 where
  pub token : Bytes
  pub lease_until : TimePoint

pub record InMemoryJobLeaseRecord : Type 0 where
  pub owner_id : Bytes
  pub lease_token : Bytes
  pub lease_until : TimePoint
  pub updated_at : TimePoint

-- The part of InMemoryStore that the leases use.
pub record LeaseStore : Type 0 where
  pub scheduled_job_leases : List (Bytes × InMemoryJobLeaseRecord)
  pub next_job_lease_token : ℕ

unfoldable pub valid_identity : Bytes → Bool
valid_identity value = not (length value == 0) && not (ltb 128 (length value))

-- The text of the counter's value.
unfoldable pub token_text : ℕ → Bytes
token_text n = bytes "job-lease-" ++ u128_to_string n

-- Whether the record found for a job is a lease that is still held.
unfoldable pub is_held : Option InMemoryJobLeaseRecord → TimePoint → Bool
is_held none now = false
is_held (some r) now = ltb_ℤ now r.lease_until

unfoldable pub granted :
    LeaseStore → Bytes → Bytes → TimePoint → TimePoint → Option JobLease × LeaseStore
granted store job_name owner_id now lease_until = (
  some (record { token = token_text store.next_job_lease_token; lease_until = lease_until }),
  record {
    scheduled_job_leases =
        insert_or_assign job_name
          (record {
            owner_id = owner_id;
            lease_token = token_text store.next_job_lease_token;
            lease_until = lease_until;
            updated_at = now;
          })
          store.scheduled_job_leases;
    next_job_lease_token = (store.next_job_lease_token + 1) % 2 ^ 64;
  },
)

unfoldable pub try_acquire :
    Bytes → Bytes → TimePoint → ℤ → LeaseStore → RepositoryResult (Option JobLease × LeaseStore)
try_acquire job_name owner_id now lease_duration store =
    if not (valid_identity job_name)
      || not (valid_identity owner_id)
      || not (ltb_ℤ (pos 0) lease_duration)
    then failure validation_error
    else if is_held (find job_name store.scheduled_job_leases) now
    then success (none, store)
    else success (granted store job_name owner_id now (now +ℤ lease_duration))

-- Whether the record found for a job is the lease of this owner and token.
unfoldable pub is_owned : Option InMemoryJobLeaseRecord → Bytes → Bytes → Bool
is_owned none owner_id lease_token = false
is_owned (some r) owner_id lease_token =
    bytes_eq r.owner_id owner_id && bytes_eq r.lease_token lease_token

unfoldable pub ended : LeaseStore → Bytes → Option InMemoryJobLeaseRecord → TimePoint → LeaseStore
ended store job_name none released_at = store
ended store job_name (some r) released_at = record store {
  scheduled_job_leases =
      insert_or_assign job_name (record r { lease_until = released_at; updated_at = released_at })
        store.scheduled_job_leases;
}

unfoldable pub release :
    Bytes → Bytes → Bytes → TimePoint → LeaseStore → RepositoryResult (Bool × LeaseStore)
release job_name owner_id lease_token released_at store =
    let found = find job_name store.scheduled_job_leases in
    if not (valid_identity job_name) || not (valid_identity owner_id) || length lease_token == 0
    then failure validation_error
    else if not (is_owned found owner_id lease_token)
    then success (false, store)
    else success (true, ended store job_name found released_at)
