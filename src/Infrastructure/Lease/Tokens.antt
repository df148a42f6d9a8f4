-- ===== src/Infrastructure/Lease/Tokens.antt =====
-- include/pfh/infrastructure/persistence/in_memory_job_lease_repository.h: tokens are never reused,
-- so a holder whose lease ran out cannot end the lease of its successor.
use personal_finance_hub.Prelude.{
  ℕ, suc, ◌^◌, ◌≤◌, ◌<◌, ◌≡◌, refl, sym, ap, ◌∙◌, inl, inr, Bool, false, Option, none, some, Bytes,
  bytes_eq, bytes_eq→eq, arith, Bool-cases,
}
use personal_finance_hub.Prelude.Int.{ℤ}
use personal_finance_hub.Domain.Decimal.Text.{u128_to_string}
use personal_finance_hub.Domain.Decimal.Text.Digits.{value_from-u128_to_string, value_from}
use personal_finance_hub.Domain.ExchangeRate.{TimePoint}
use personal_finance_hub.Infrastructure.Repository.{success}
use personal_finance_hub.Infrastructure.Lease.{
  JobLease, InMemoryJobLeaseRecord, LeaseStore, token_text, try_acquire, is_owned, release,
}
use personal_finance_hub.Infrastructure.Lease.Exclusion.{try_acquire-ok, release-ok}

some-injective {ℓ} : {A : Type ℓ} {x y : A} → some x ≡ some y → x ≡ y
some-injective e = cc

some-ne-none {ℓ} : {A : Type ℓ} {x : A} → some x ≡ none → ⊥
some-ne-none e = cc

-- Different counter values have different tokens.
token_text-injective : (m n : ℕ) → m < 2 ^ 64 → n < 2 ^ 64 → token_text m ≡ token_text n → m ≡ n
unfolding token_text
token_text-injective m n hm hn e =
    let digits : u128_to_string m ≡ u128_to_string n = cc in
    sym (value_from-u128_to_string m (omega arith))
    ∙ ap (value_from 0) digits
    ∙ value_from-u128_to_string n (omega arith)

-- Some other work on the leases, in which the counter does not wrap around.
pub data Work : LeaseStore → LeaseStore → Type 0 where
  done : {s : LeaseStore} → Work s s
  acquire_then :
      {a b c : LeaseStore} (job owner : Bytes) (now : TimePoint) (duration : ℤ)
      (lease : Option JobLease)
      → suc a.next_job_lease_token < 2 ^ 64
      → try_acquire job owner now duration a ≡ success (lease, b)
      → Work b c
      → Work a c
  release_then :
      {a b c : LeaseStore} (job owner token : Bytes) (at : TimePoint) (answer : Bool)
      → release job owner token at a ≡ success (answer, b)
      → Work b c
      → Work a c

Work-le : {a b : LeaseStore} → Work a b → a.next_job_lease_token ≤ b.next_job_lease_token
Work-le done = omega arith
Work-le {a = a} (acquire_then {b = b} job owner now duration lease small e rest) =
    let later = Work-le rest in
    elim (try_acquire-ok job owner now duration a b lease e).1 [
      | inl (_, _, same) ↦ rw (ap (λ s. s.next_job_lease_token) same) at later
      | inr (_, _, next, _, _) ↦ omega (arith, later, next)
    ]
Work-le {a = a} (release_then {b = b} job owner token at answer e rest) =
    let (_, next, _, _) = release-ok job owner token at a b answer e in
    let later = Work-le rest in omega (arith, later, next)

-- An issued token is not the one of the record that a later grant writes.
issued-other :
    (owner token : Bytes) (r : InMemoryJobLeaseRecord) (n m : ℕ)
    → token ≡ token_text n
    → n < m
    → m < 2 ^ 64
    → r.lease_token ≡ token_text m
    → is_owned (some r) owner token ≡ false
unfolding is_owned
issued-other owner token r n m et h small er = elim (Bool-cases (bytes_eq r.lease_token token)) [
  | inl same ↦
      let text = sym (bytes_eq→eq r.lease_token token same ∙ et) ∙ er in
      absurd (omega (arith, token_text-injective n m (omega arith) small text))
  | inr other ↦ ground (arith, other)
]

-- Whoever got a lease cannot end a later lease of the same job with its token, whatever happened
-- in between, as long as the counter of tokens has not wrapped around: the release is refused and
-- changes nothing.
pub release-stale :
    (job owner owner' anyone : Bytes) (now now' at : TimePoint) (duration duration' : ℤ)
    (a b c d e : LeaseStore) (old new : JobLease) (answer : Bool)
    → suc a.next_job_lease_token < 2 ^ 64
    → try_acquire job owner now duration a ≡ success (some old, b)
    → Work b c
    → suc c.next_job_lease_token < 2 ^ 64
    → try_acquire job owner' now' duration' c ≡ success (some new, d)
    → release job anyone old.token at d ≡ success (answer, e)
    → (answer ≡ false) × (e ≡ d)
release-stale job owner owner' anyone now now' at duration duration' a b c d e old new answer small
      got work small' got' freed =
    let (decided, _, unchanged, _) = release-ok job anyone old.token at d e answer freed in
    let later = Work-le work in
    elim (try_acquire-ok job owner now duration a b (some old) got).1 [
      | inl (_, none_, _) ↦ absurd (some-ne-none none_)
      | inr (_, lease, next, _, _) ↦
          elim (try_acquire-ok job owner' now' duration' c d (some new) got').1 [
            | inl (_, none_, _) ↦ absurd (some-ne-none none_)
            | inr (_, _, _, written, _) ↦
                let no : answer ≡ false =
                  decided
                  ∙ ap (λ r. is_owned r anyone old.token) written
                  ∙ issued-other anyone old.token _ a.next_job_lease_token c.next_job_lease_token
                      (ap (λ l. l.token) (some-injective lease)) (omega (arith, next, later))
                      (omega arith) refl in
                (no, unchanged no)
          ]
    ]
