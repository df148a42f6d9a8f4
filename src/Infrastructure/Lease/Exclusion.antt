-- ===== src/Infrastructure/Lease/Exclusion.antt =====
-- include/pfh/infrastructure/persistence/in_memory_job_lease_repository.h: a job has one holder at
-- a time.
use personal_finance_hub.Prelude.{
  ◌+◌, ◌%◌, ◌^◌, ◌≡◌, refl, sym, ap, ◌∙◌, ◌⊎◌, inl, inr, Bool, true, false, not, ◌&&◌, ◌||◌, Option,
  none, some, Bytes, bytes_eq, arith, find, find-insert_or_assign, find-insert_or_assign_other,
  length, ◌==◌, if◌then◌else◌,
}
use personal_finance_hub.Prelude.Int.{ℤ, pos, ◌+ℤ◌, ltb_ℤ, leb_ℤ}
use personal_finance_hub.Domain.ExchangeRate.{TimePoint}
use personal_finance_hub.Infrastructure.Repository.{
  success, checked-success, either-success, validation_error,
}
use personal_finance_hub.Infrastructure.Lease.{
  JobLease, InMemoryJobLeaseRecord, LeaseStore, valid_identity, token_text, is_held, granted,
  try_acquire, is_owned, ended, release,
}

-- The lease record of a job, if it has one.
abbrev pub record_of : LeaseStore → Bytes → Option InMemoryJobLeaseRecord
record_of store job = find job store.scheduled_job_leases

-- Whether a request to acquire is well formed.
abbrev pub valid_request : Bytes → Bytes → ℤ → Bool
valid_request job owner duration =
    valid_identity job && valid_identity owner && ltb_ℤ (pos 0) duration

-- What a granted request leaves: the record of the new holder.
abbrev pub held_by : Bytes → LeaseStore → TimePoint → TimePoint → InMemoryJobLeaseRecord
held_by owner store now until = record {
  owner_id = owner;
  lease_token = token_text store.next_job_lease_token;
  lease_until = until;
  updated_at = now;
}

granted-eq :
    (job owner : Bytes) (now until : TimePoint) (store : LeaseStore)
    → let g = granted store job owner now until in
      (g.0 ≡ some (record { token = token_text store.next_job_lease_token; lease_until = until }))
      × (record_of g.1 job ≡ some (held_by owner store now until))
      × ((other : Bytes) → bytes_eq job other ≡ false → record_of g.1 other ≡ record_of store other)
      × (g.1.next_job_lease_token ≡ (store.next_job_lease_token + 1) % 2 ^ 64)
unfolding granted
granted-eq job owner now until store =
    let r = held_by owner store now until in
    let leases = store.scheduled_job_leases in
    (
      refl,
      find-insert_or_assign job r leases,
      λ other h. find-insert_or_assign_other job other r leases h,
      refl,
    )

-- A request that is answered is well formed, and gets a lease exactly if nobody holds one: then it
-- runs for the duration, is recorded for the owner with the token, the counter of tokens advances,
-- and no other job changes.
-- Otherwise the store is as before.
pub try_acquire-ok :
    (job owner : Bytes) (now : TimePoint) (duration : ℤ) (store after : LeaseStore)
    (lease : Option JobLease)
    → try_acquire job owner now duration store ≡ success (lease, after)
    → (valid_request job owner duration ≡ true)
      × (((is_held (record_of store job) now ≡ true) × (lease ≡ none) × (after ≡ store))
          ⊎ ((is_held (record_of store job) now ≡ false)
              × (lease
                  ≡ some (record {
                    token = token_text store.next_job_lease_token;
                    lease_until = now +ℤ duration;
                  }))
              × (after.next_job_lease_token ≡ (store.next_job_lease_token + 1) % 2 ^ 64)
              × (record_of after job ≡ some (held_by owner store now (now +ℤ duration)))
              × ((other : Bytes)
                  → bytes_eq job other ≡ false
                  → record_of after other ≡ record_of store other)))
unfolding try_acquire
try_acquire-ok job owner now duration store after lease e =
    let held = is_held (record_of store job) now in
    let grant = granted store job owner now (now +ℤ duration) in
    let invalid =
      not (valid_identity job) || not (valid_identity owner) || not (ltb_ℤ (pos 0) duration) in
    let (valid, e1) =
      checked-success invalid validation_error
        (if held then success (none, store) else success grant) e in
    let kept = granted-eq job owner now (now +ℤ duration) store in
    (
      ground (arith, valid),
      elim (either-success held (none, store) grant e1) [
        | inl (busy, same) ↦ inl (busy, ap (λ p. p.0) same, ap (λ p. p.1) same)
        | inr (free, same) ↦ inr (
          free,
          ap (λ p. p.0) same ∙ kept.0,
          ap (λ p. p.1.next_job_lease_token) same ∙ kept.3,
          ap (λ p. record_of p.1 job) same ∙ kept.1,
          λ other h. ap (λ p. record_of p.1 other) same ∙ kept.2 other h,
        )
      ],
    )

-- While a lease runs, every well-formed request for its job is refused, whoever asks, and changes
-- nothing.
pub try_acquire-refused :
    (job owner : Bytes) (now : TimePoint) (duration : ℤ) (store : LeaseStore)
    (r : InMemoryJobLeaseRecord)
    → valid_request job owner duration ≡ true
    → record_of store job ≡ some r
    → ltb_ℤ now r.lease_until ≡ true
    → try_acquire job owner now duration store ≡ success (none, store)
unfolding try_acquire is_held
try_acquire-refused job owner now duration store r valid found live =
    rw (found, live) (ground (arith, valid))

true-ne-false : true ≡ false → ⊥
true-ne-false e = cc

ended-free :
    (store : LeaseStore) (job : Bytes) (found : Option InMemoryJobLeaseRecord) (owner token : Bytes)
    (at now : TimePoint)
    → is_owned found owner token ≡ true
    → leb_ℤ at now ≡ true
    → is_held (record_of (ended store job found at) job) now ≡ false
unfolding is_owned is_held ended
ended-free store job none owner token at now h later = cc
ended-free store job (some r) owner token at now h later =
    rw
      (find-insert_or_assign job (record r { lease_until = at; updated_at = at })
        store.scheduled_job_leases)
      (ground (arith, later))

ended-counter :
    (store : LeaseStore) (job : Bytes) (found : Option InMemoryJobLeaseRecord) (at : TimePoint)
    → (ended store job found at).next_job_lease_token ≡ store.next_job_lease_token
unfolding ended
ended-counter store job none at = refl
ended-counter store job (some r) at = refl

-- An answered release is done exactly for the holder with its token, and afterwards the job does not
-- count as held at the time of the release or later. Otherwise the store is as before; no token is
-- handed out.
pub release-ok :
    (job owner token : Bytes) (at : TimePoint) (store after : LeaseStore) (done : Bool)
    → release job owner token at store ≡ success (done, after)
    → (done ≡ is_owned (record_of store job) owner token)
      × (after.next_job_lease_token ≡ store.next_job_lease_token)
      × (done ≡ false → after ≡ store)
      × (done ≡ true
          → (now : TimePoint) → leb_ℤ at now ≡ true
          → is_held (record_of after job) now ≡ false)
unfolding release
release-ok job owner token at store after done e =
    let found = record_of store job in
    let owned = is_owned found owner token in
    let invalid = not (valid_identity job) || not (valid_identity owner) || length token == 0 in
    let (_, e1) =
      checked-success invalid validation_error
        (if not owned then success (false, store) else success (true, ended store job found at))
        e in
    elim (either-success (not owned) (false, store) (true, ended store job found at) e1) [
      | inl (other, same) ↦ (
        ap (λ p. p.0) same ∙ ground (arith, other),
        ap (λ p. p.1.next_job_lease_token) same,
        λ _. ap (λ p. p.1) same,
        λ yes. absurd (true-ne-false (sym yes ∙ ap (λ p. p.0) same)),
      )
      | inr (holder, same) ↦ (
        ap (λ p. p.0) same ∙ ground (arith, holder),
        ap (λ p. p.1.next_job_lease_token) same ∙ ended-counter store job found at,
        λ no. absurd (true-ne-false (sym (ap (λ p. p.0) same) ∙ no)),
        λ _ now later.
            ap (λ p. is_held (record_of p.1 job) now) same
            ∙ ended-free store job found owner token at now (ground (arith, holder)) later,
      )
    ]
