-- ===== src/Infrastructure/Idempotency/Repeated.antt =====
-- Two requests with one key, in transactions of their own.
use personal_finance_hub.Prelude.{◌≡◌, refl, ◌∙◌, true, none, List, Bytes, bytes_eq, if◌then◌else◌}
use personal_finance_hub.Prelude.Int.{ltb_ℤ}
use personal_finance_hub.Domain.ExchangeRate.{TimePoint}
use personal_finance_hub.Infrastructure.Repository.{success, failure, conflict}
use personal_finance_hub.Infrastructure.Store.{InMemoryStore}
use personal_finance_hub.Infrastructure.Action.{Action}
use personal_finance_hub.Infrastructure.UnitOfWork
use personal_finance_hub.Infrastructure.UnitOfWork.{
  TransactionContext, commit, finish, stage_events,
}
use personal_finance_hub.Infrastructure.Idempotency.{
  Request, composite_of, has_tenant, visible, pending_record,
}
use personal_finance_hub.Infrastructure.Idempotency.Visible.{IsWellKeyed, visible-commit}
use personal_finance_hub.Infrastructure.Idempotency.Once.{
  idempotent, IsApart, done_record, idempotent-new, idempotent-again,
}

-- The store that the next transaction starts with, after this one is committed.
abbrev pub next : InMemoryStore → InMemoryStore
next t = UnitOfWork.begin (finish (commit (stage_events t)))

staged_events-visible :
    (composite : Bytes) (t : InMemoryStore)
    → visible composite (stage_events t) ≡ visible composite t
unfolding visible stage_events
staged_events-visible composite t = refl

staged_events-IsWellKeyed : (t : InMemoryStore) → IsWellKeyed t → IsWellKeyed (stage_events t)
unfolding stage_events
staged_events-IsWellKeyed t k = k

reopened-visible :
    (composite : Bytes) (t : InMemoryStore)
    → visible composite (UnitOfWork.begin (finish t)) ≡ visible composite (finish t)
unfolding visible UnitOfWork.begin finish
reopened-visible composite t = refl

-- The next transaction sees the records that this one saw.
pub next-visible :
    (composite : Bytes) (t : InMemoryStore)
    → IsWellKeyed t
    → visible composite (next t) ≡ visible composite t
next-visible composite t k =
    reopened-visible composite (commit (stage_events t))
    ∙ visible-commit composite (stage_events t) (staged_events-IsWellKeyed t k)
    ∙ staged_events-visible composite t

next-in_transaction : (t : InMemoryStore) → (next t).in_transaction ≡ true
unfolding UnitOfWork.begin
next-in_transaction t = refl

module _ (q : Request) (c x : TimePoint) (work : TransactionContext → Action (List (Bytes × Bytes)))
    (apart : (tx : TransactionContext) → IsApart (work tx)) where
  -- Once a new request has ended well and its transaction is committed, a request of the user with
  -- the same operation and key that arrives before the expiry writes nothing, whatever its own
  -- work: it is answered with the same response if its fingerprint is the same, and with a
  -- conflict if it is another. The work of the first leaves the records of requests alone.
  pub idempotent-once :
      (tx : TransactionContext) (s t : InMemoryStore) (values : List (Bytes × Bytes))
      → visible (composite_of q) s ≡ none
      → IsWellKeyed s
      → idempotent q c x work tx s ≡ (t, success values)
      → (later until : TimePoint) (fingerprint : Bytes)
        (again : TransactionContext → Action (List (Bytes × Bytes))) (tx' : TransactionContext)
      → ltb_ℤ later x ≡ true
      → has_tenant q.user_id tx' ≡ true
      → idempotent (record q { request_fingerprint = fingerprint }) later until again tx' (next t)
        ≡ (
          next t,
          if bytes_eq q.request_fingerprint fingerprint then success values else failure conflict,
        )
  unfolding pending_record
  idempotent-once tx s t values h k e later until fingerprint again tx' live tenant =
      let (seen, keyed) = idempotent-new q c x work apart tx s h k e in
      idempotent-again (record q { request_fingerprint = fingerprint }) later until again tx'
        (next t) (done_record q c x values) (next-visible (composite_of q) t keyed ∙ seen) refl live
        (next-in_transaction t) tenant
