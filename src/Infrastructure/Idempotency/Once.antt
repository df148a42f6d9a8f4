-- ===== src/Infrastructure/Idempotency/Once.antt =====
-- The way in which the use cases guard their writes (src/application/correct_transaction_use_case.cpp
-- and others): what happens when a request is repeated.
use personal_finance_hub.Prelude.{
  ◌≡◌, refl, sym, ap, ◌∙◌, inl, inr, true, false, not, ◌||◌, none, some, List,
  find-insert_or_assign, Bytes, bytes_eq, if◌then◌else◌, Bool-cases, arith,
}
use personal_finance_hub.Prelude.Int.{leb_ℤ, ltb_ℤ}
use personal_finance_hub.Prelude.Dict
use personal_finance_hub.Prelude.Dict.Merge.{insert_or_assign-HasDistinctKeys}
use personal_finance_hub.Domain.ExchangeRate.{TimePoint}
use personal_finance_hub.Infrastructure.Repository.{
  RepositoryResult, success, failure, conflict, failure-ne-success, success-injective,
}
use personal_finance_hub.Infrastructure.Store.{InMemoryStore, InMemoryIdempotencyRecord}
use personal_finance_hub.Infrastructure.Action.{Action, pure, ◌>>=◌, ◌>>◌, >>=-eq-success}
use personal_finance_hub.Infrastructure.UnitOfWork.{TransactionContext}
use personal_finance_hub.Infrastructure.Idempotency.{
  IdempotencyBeginResult, visible, stage_record, begin, begin_found, complete, complete_found,
  pending_record, Request, composite_of, answer, fresh, has_tenant,
}
use personal_finance_hub.Infrastructure.Idempotency.Visible.{
  IsWellKeyed, visible-staged, visible-none, stage_record-find, stage_record-IsWellKeyed,
}

-- A response that is stored is returned again; else the work is done and its response stored.
unfoldable pub idempotent :
    Request
    → TimePoint
    → TimePoint
    → (TransactionContext → Action (List (Bytes × Bytes)))
    → TransactionContext
    → Action (List (Bytes × Bytes))
idempotent q created_at expires_at work tx = do
  started ← begin tx q created_at expires_at
  if started.replay
      then pure started.response_values
      else do response_values ← work tx; complete tx q response_values; pure response_values

-- Work that leaves the bookkeeping of requests alone.
pub record IsApart (m : Action (List (Bytes × Bytes))) : Type 0 where
  pub staged :
      (s : InMemoryStore) → (m s).0.staging.staged_idempotency ≡ s.staging.staged_idempotency

-- The record of a request that is done.
abbrev pub done_record :
    Request → TimePoint → TimePoint → List (Bytes × Bytes) → InMemoryIdempotencyRecord
done_record q c x values = record (pending_record q c x) {
  response_values = values;
  completed = true;
}

-- A new request is recorded as pending.
begin-new :
    (tx : TransactionContext) (q : Request) (c x : TimePoint) (s : InMemoryStore)
    {r : IdempotencyBeginResult}
    → visible (composite_of q) s ≡ none
    → (begin tx q c x s).1 ≡ success r
    → ((begin tx q c x s).0 ≡ stage_record (composite_of q) (pending_record q c x) s) × (r ≡ fresh)
unfolding begin begin_found
begin-new tx q c x s h = elim (Bool-cases (not s.in_transaction || not (has_tenant q.user_id tx))) [
  | inl bad ↦ rw (begin, bad) λ e. absurd (failure-ne-success e)
  | inr good ↦ rw (begin, good, h) λ e. (refl, cc)
]

complete-pending :
    (tx : TransactionContext) (q : Request) (values : List (Bytes × Bytes)) (s : InMemoryStore)
    {r : InMemoryIdempotencyRecord}
    → Dict.find (composite_of q) s.staging.staged_idempotency ≡ some r
    → r.completed ≡ false
    → IsWellKeyed s
    → (complete tx q values s).1 ≡ success tt
    → (visible (composite_of q) (complete tx q values s).0
        ≡ some (record r { response_values = values; completed = true }))
      × IsWellKeyed (complete tx q values s).0
unfolding complete complete_found
complete-pending tx q values s {r} h p k =
    elim (Bool-cases (not s.in_transaction || not (has_tenant q.user_id tx))) [
      | inl bad ↦ rw (complete, bad) λ e. absurd (failure-ne-success e)
      | inr good ↦
          rw (complete, good, h, complete_found, p)
            λ e. (
              visible-staged (composite_of q) _
                  (find-insert_or_assign (composite_of q) _ s.staging.staged_idempotency),
              insert_or_assign-HasDistinctKeys (composite_of q) _ s.staging.staged_idempotency k,
            )
    ]

fresh-branch :
    (r : IdempotencyBeginResult) (s t : InMemoryStore) (m : Action (List (Bytes × Bytes)))
    {y : InMemoryStore × RepositoryResult (List (Bytes × Bytes))}
    → r ≡ fresh
    → s ≡ t
    → (if r.replay then pure r.response_values else m) s ≡ y
    → m t ≡ y
unfolding fresh
fresh-branch r s t m e f = rw (e, f) λ h. h

module _ (q : Request) (c x : TimePoint) (work : TransactionContext → Action (List (Bytes × Bytes)))
    (apart : (tx : TransactionContext) → IsApart (work tx)) where
  -- The work and the completion, after a new request was recorded.
  work-done :
      (tx : TransactionContext) (s : InMemoryStore) {t : InMemoryStore}
      {values : List (Bytes × Bytes)}
      → Dict.find (composite_of q) s.staging.staged_idempotency ≡ some (pending_record q c x)
      → IsWellKeyed s
      → (work tx >>= λ v. complete tx q v >> pure v) s ≡ (t, success values)
      → (visible (composite_of q) t ≡ some (done_record q c x values)) × IsWellKeyed t
  unfolding pending_record
  work-done tx s {t} {values} h k e =
      let (v, worked, later) = >>=-eq-success (work tx) (λ v. complete tx q v >> pure v) s e in
      let (u, completed', ended) =
        >>=-eq-success (complete tx q v) (λ _. pure v) (work tx s).0 later in
      let (seen, keyed) =
        complete-pending tx q v (work tx s).0
          (ap (λ d. Dict.find (composite_of q) d) ((apart tx).staged s) ∙ h) refl
          (rw ((apart tx).staged s) k) completed' in
      rw (sym (ap (λ y. y.0) ended), sym (success-injective (ap (λ y. y.1) ended))) (seen, keyed)

  -- A new request that ends well leaves its response in the records.
  pub idempotent-new :
      (tx : TransactionContext) (s : InMemoryStore) {t : InMemoryStore}
      {values : List (Bytes × Bytes)}
      → visible (composite_of q) s ≡ none
      → IsWellKeyed s
      → idempotent q c x work tx s ≡ (t, success values)
      → (visible (composite_of q) t ≡ some (done_record q c x values)) × IsWellKeyed t
  unfolding idempotent
  idempotent-new tx s h k e =
      let (r, started, later) =
        >>=-eq-success (begin tx q c x)
          (λ started.
            if started.replay
            then pure started.response_values
            else (work tx >>= λ v. complete tx q v >> pure v))
          s e in
      let (staged, new) = begin-new tx q c x s h started in
      work-done tx (stage_record (composite_of q) (pending_record q c x) s)
        (stage_record-find (composite_of q) _ s (visible-none (composite_of q) s h))
        (stage_record-IsWellKeyed (composite_of q) _ s k)
        (fresh-branch r (begin tx q c x s).0 _ _ new staged later)

answer-done :
    (fingerprint : Bytes) (r : InMemoryIdempotencyRecord)
    → r.completed ≡ true
    → answer fingerprint r ≡ (
        if bytes_eq r.request_fingerprint fingerprint
        then success (record { replay = true; response_values = r.response_values })
        else failure conflict)
unfolding answer
answer-done fingerprint r done = elim (Bool-cases (bytes_eq r.request_fingerprint fingerprint)) [
  | inl f ↦ rw (f, done) refl
  | inr f ↦ rw f refl
]

begin-kept :
    (tx : TransactionContext) (q : Request) (c x : TimePoint) (s : InMemoryStore)
    (r : InMemoryIdempotencyRecord)
    → visible (composite_of q) s ≡ some r
    → ltb_ℤ c r.expires_at ≡ true
    → s.in_transaction ≡ true
    → has_tenant q.user_id tx ≡ true
    → begin tx q c x s ≡ (s, answer q.request_fingerprint r)
unfolding begin begin_found
begin-kept tx q c x s r seen live running tenant =
    let in_time : leb_ℤ r.expires_at c ≡ false = ground arith in
    simp (begin, running, tenant, seen, begin_found, in_time) refl

-- A request whose response is kept is answered from the records and nothing is written: with the
-- response if it asks for the same, with a conflict if it asks for something else.
pub idempotent-again :
    (q : Request) (c x : TimePoint) (work : TransactionContext → Action (List (Bytes × Bytes)))
    (tx : TransactionContext) (s : InMemoryStore) (r : InMemoryIdempotencyRecord)
    → visible (composite_of q) s ≡ some r
    → r.completed ≡ true
    → ltb_ℤ c r.expires_at ≡ true
    → s.in_transaction ≡ true
    → has_tenant q.user_id tx ≡ true
    → idempotent q c x work tx s ≡ (
      s,
      if bytes_eq r.request_fingerprint q.request_fingerprint
          then success r.response_values
          else failure conflict,
    )
unfolding idempotent ◌>>=◌
idempotent-again q c x work tx s r seen done live running tenant =
    rw
      (
        idempotent,
        ◌>>=◌,
        begin-kept tx q c x s r seen live running tenant,
        answer-done q.request_fingerprint r done,
      )
      (elim (Bool-cases (bytes_eq r.request_fingerprint q.request_fingerprint)) [
        | inl f ↦ rw f refl
        | inr f ↦ rw f refl
      ])
