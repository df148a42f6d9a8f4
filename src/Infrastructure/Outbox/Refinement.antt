-- ===== src/Infrastructure/Outbox/Refinement.antt =====
-- include/pfh/infrastructure/persistence/in_memory_outbox_repository.h: its operations implement
-- the life of the messages.
use personal_finance_hub.Prelude.{
  ℕ, ◌+◌, ◌≤◌, ◌≡◌, refl, sym, ap, ◌∙◌, inl, inr, true, not, ◌||◌, none, some, length, Bytes,
  Bool-cases, Option-cases, ltb, leb, ◌==◌, if◌then◌else◌,
}
use personal_finance_hub.Prelude.Int.{ℤ, pos, ◌-ℤ◌, ltb_ℤ}
use personal_finance_hub.Application.Outbox.{
  OutboxMessage, retry_scheduled, dead_lettered, OutboxClaimBatch, OutboxFailureTransition,
  is_processing,
}
use personal_finance_hub.Domain.ExchangeRate.{TimePoint}
use personal_finance_hub.Infrastructure.Repository.{
  success, failure, success-injective, failure-ne-success, checked-success, validation_error,
  conflict,
}
use personal_finance_hub.Infrastructure.Outbox.{
  OutboxStore, clear_claim, record_failure, settle, recover_loop, claim_loop, claim_due,
  find_claimed, update_claimed, publish, mark_published, fail, transition_of, mark_failed,
}
use personal_finance_hub.Infrastructure.Outbox.Moves.{
  publish-Advances, settle-Advances, recover_loop-AllAdvance, claim_loop-AllAdvance,
  claim_loop-length, update_claimed-AllAdvance,
}
use personal_finance_hub.Infrastructure.Outbox.Lifecycle.{Advances, AllAdvance, AllAdvance-trans}

-- A batch takes every message some way along its life, keeps their order, and claims at most as
-- many as asked for.
pub claim_due-refines :
    (now : TimePoint) (timeout : ℤ) (batch_size : ℕ) (worker_id : Bytes) (store after : OutboxStore)
    (batch : OutboxClaimBatch)
    → claim_due now timeout batch_size worker_id store ≡ success (batch, after)
    → AllAdvance store.outbox after.outbox × (length batch.claimed ≤ batch_size)
unfolding claim_due
claim_due-refines now timeout batch_size worker_id store after batch e =
    let rec = recover_loop now (now -ℤ timeout) store.outbox in
    let loop = claim_loop now worker_id batch_size store.next_outbox_claim_token rec.0 in
    let result : OutboxClaimBatch × OutboxStore = (
      record { claimed = loop.claimed; recovered_dead_letters = rec.1 },
      record store { outbox = loop.outbox; next_outbox_claim_token = loop.next_token },
    ) in
    let invalid =
      not (ltb_ℤ (pos 0) timeout)
      || batch_size == 0
      || length worker_id == 0
      || ltb 128 (length worker_id) in
    let (_, done) = checked-success invalid validation_error (success result) e in
    let same = success-injective done in
    (
      rw (← ap (λ p. p.1.outbox) same) (
          AllAdvance-trans store.outbox rec.0 loop.outbox
            (recover_loop-AllAdvance now (now -ℤ timeout) store.outbox)
            (claim_loop-AllAdvance now worker_id batch_size store.next_outbox_claim_token rec.0)),
      rw (← ap (λ p. length p.0.claimed) same)
          (claim_loop-length now worker_id batch_size store.next_outbox_claim_token rec.0),
    )

-- Only the worker that still owns the claim publishes, and publishing is a step of the life of
-- its message; the other messages stay.
pub mark_published-refines :
    (id token : Bytes) (at : TimePoint) (store after : OutboxStore)
    → mark_published id token at store ≡ success (tt, after)
    → AllAdvance store.outbox after.outbox
      × ((m : OutboxMessage) × (find_claimed id token store.outbox ≡ some m))
unfolding mark_published
mark_published-refines id token at store after e =
    elim (Option-cases (find_claimed id token store.outbox)) [
      | inl missing ↦ absurd (failure-ne-success (rw (mark_published, missing) at e))
      | inr (m, found) ↦
          let same = success-injective (rw (mark_published, found) at e) in
          (
            rw (← ap (λ p. p.1.outbox) same) (
                update_claimed-AllAdvance id token (publish at) store.outbox (publish-Advances at)),
            (m, found),
          )
    ]

fail-Advances :
    (handler error : Bytes) (at later : TimePoint) (m : OutboxMessage)
    → is_processing m.status ≡ true
    → Advances m (fail handler error at later m)
unfolding fail
fail-Advances handler error at later m h = settle-Advances error handler at later m h

-- What `mark_failed` reports of a message: one more attempt, and a dead letter exactly if that
-- reaches the limit.
transition_of-fail :
    (handler error : Bytes) (at later : TimePoint) (m : OutboxMessage)
    → transition_of (fail handler error at later m) ≡ record {
      disposition =
          if leb m.max_retry_count (m.retry_count + 1) then dead_lettered else retry_scheduled;
      retry_count = m.retry_count + 1;
    }
unfolding transition_of fail settle record_failure clear_claim
transition_of-fail handler error at later m =
    elim (Bool-cases (leb m.max_retry_count (m.retry_count + 1))) [
      | inl spent ↦ rw spent refl
      | inr left ↦ rw left refl
    ]

-- Only the worker that still owns the claim records a failure. It is a step of the life of its
-- message, and the answer says how often that message has failed now, and that it is a dead letter
-- exactly if this reaches its limit.
pub mark_failed-refines :
    (id token handler error : Bytes) (at later : TimePoint) (store after : OutboxStore)
    (t : OutboxFailureTransition)
    → mark_failed id token handler error at later store ≡ success (t, after)
    → AllAdvance store.outbox after.outbox
      × ((m : OutboxMessage) × (find_claimed id token store.outbox ≡ some m)
          × (t ≡ record {
            disposition =
                if leb m.max_retry_count (m.retry_count + 1)
                then dead_lettered
                else retry_scheduled;
            retry_count = m.retry_count + 1;
          }))
unfolding mark_failed
mark_failed-refines id token handler error at later store after t e =
    let change = fail handler error at later in
    let invalid =
      length id == 0
      || length token == 0
      || length handler == 0
      || ltb 128 (length handler)
      || length error == 0
      || ltb 1024 (length error) in
    let answer : OutboxMessage → OutboxFailureTransition × OutboxStore = λ m. (
      transition_of (change m),
      record store { outbox = update_claimed id token change store.outbox },
    ) in
    let (_, e1) =
      checked-success invalid validation_error
        (elim (find_claimed id token store.outbox) [
          | none ↦ failure conflict
          | some m ↦ success (answer m)
        ])
        e in
    elim (Option-cases (find_claimed id token store.outbox)) [
      | inl missing ↦ absurd (failure-ne-success (rw missing at e1))
      | inr (m, found) ↦
          let same : answer m ≡ (t, after) = success-injective (rw found at e1) in
          (
            rw (← ap (λ p. p.1.outbox) same) (
                update_claimed-AllAdvance id token change store.outbox
                  (fail-Advances handler error at later)),
            (m, found, sym (ap (λ p. p.0) same) ∙ transition_of-fail handler error at later m),
          )
    ]
