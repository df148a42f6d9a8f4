-- ===== src/Application/Publisher/Delivery.antt =====
-- src/application/outbox_publisher.cpp: what a run does to the outbox, and what it counts.
use personal_finance_hub.Prelude.{
  ℕ, ◌+◌, ◌*◌, ◌≡◌, refl, inl, inr, not, ◌||◌, Option, List, [], ◌∷◌, length, Bytes, Bool-cases,
  Option-cases, ◌==◌,
}
use personal_finance_hub.Prelude.Int.{pos, ◌+ℤ◌, ltb_ℤ}
use personal_finance_hub.Application.Outbox.{
  OutboxMessage, OutboxClaimBatch, OutboxFailureTransition,
}
use personal_finance_hub.Application.Publisher.{
  OutboxPublisherConfig, OutboxPublishSummary, PublishOutcome, error_of, DeadLetterHandler,
  PublisherRun, no_summary, audit_unhandled_dead_letters, count_dead_letter, audit_recovered,
  after_publish, after_failure, deliver, deliver_each, process, run_once, is_dead_lettered,
  retry_delay,
}
use personal_finance_hub.Application.Publisher.Texts.{safe_error_summary, safe_handler_name}
use personal_finance_hub.Application.Publisher.Audit.{
  audit_dead_letter-outbox, audit_recovered-outbox, audit_unhandled-outbox,
}
use personal_finance_hub.Domain.ExchangeRate.{TimePoint}
use personal_finance_hub.Infrastructure.Repository.{RepositoryResult, success, failure}
use personal_finance_hub.Infrastructure.Outbox.{OutboxStore, claim_due, mark_published}
use personal_finance_hub.Infrastructure.Outbox.Lifecycle.{
  AllAdvance, AllAdvance-refl, AllAdvance-trans,
}
use personal_finance_hub.Infrastructure.Outbox.Refinement.{
  claim_due-refines, mark_published-refines, mark_failed-refines,
}

after_publish-AllAdvance :
    (xs : List OutboxMessage) (r : RepositoryResult (Unit {0} × OutboxStore)) (run : PublisherRun)
    → AllAdvance xs run.store.outbox
    → ((s : OutboxStore) → r ≡ success (tt, s) → AllAdvance xs s.outbox)
    → AllAdvance xs (after_publish r run).1.store.outbox
unfolding after_publish
after_publish-AllAdvance xs (failure e) run before step = before
after_publish-AllAdvance xs (success (_, s)) run before step = step s refl

after_failure-AllAdvance :
    (handler : Option DeadLetterHandler) (dead : ℕ → OutboxMessage) (xs : List OutboxMessage)
    (r : RepositoryResult (OutboxFailureTransition × OutboxStore)) (run : PublisherRun)
    → AllAdvance xs run.store.outbox
    → ((t : OutboxFailureTransition) (s : OutboxStore)
        → r ≡ success (t, s)
        → AllAdvance xs s.outbox)
    → AllAdvance xs (after_failure handler dead r run).1.store.outbox
unfolding after_failure
after_failure-AllAdvance handler dead xs (failure e) run before step = before
after_failure-AllAdvance handler dead xs (success (t, s)) run before step =
    let moved = step t s refl in
    elim (Bool-cases (is_dead_lettered t.disposition)) [
      | inl gone ↦ rw gone (
          rw
            (audit_dead_letter-outbox handler (dead t.retry_count)
              (count_dead_letter (record run { store = s })))
            moved)
      | inr kept ↦ rw kept moved
    ]

module _
    (publish_event : OutboxMessage → List (Bytes × Bytes) → PublishOutcome × List (Bytes × Bytes))
    (clock : ℕ → TimePoint) (ticks_per_second : ℕ) (config : OutboxPublisherConfig)
    (handler : Option DeadLetterHandler) where
  deliver-AllAdvance :
      (m : OutboxMessage) (run : PublisherRun)
      → AllAdvance run.store.outbox
          (deliver publish_event clock ticks_per_second config handler m run).1.store.outbox
  unfolding deliver
  deliver-AllAdvance m run =
      let xs = run.store.outbox in
      let answer = publish_event m run.store.outbox_handler_receipts in
      let store : OutboxStore = record run.store { outbox_handler_receipts = answer.1 } in
      let at = clock run.readings in
      let later : PublisherRun = record run { store = store; readings = run.readings + 1 } in
      elim (Option-cases (error_of answer.0)) [
        | inl fine ↦
            rw (deliver, fine)
              (after_publish-AllAdvance xs (mark_published m.id m.claim_token at store) later
                (AllAdvance-refl xs)
                (λ s e. (mark_published-refines m.id m.claim_token at store s e).0))
        | inr (e, bad) ↦
            rw (deliver, bad)
              (after_failure-AllAdvance handler _ xs _ later (AllAdvance-refl xs) (λ t s done.
                (mark_failed-refines m.id m.claim_token (safe_handler_name e.handler_name)
                  (safe_error_summary e.summary) at
                  (at +ℤ pos (retry_delay (m.retry_count + 1) * ticks_per_second)) store s t
                  done).0))
      ]

  -- The loop, once the first message has its result.
  continue-AllAdvance :
      (ms xs : List OutboxMessage) (result : RepositoryResult (Unit {0})) (later : PublisherRun)
      → AllAdvance xs later.store.outbox
      → ((run : PublisherRun)
          → AllAdvance run.store.outbox
              (deliver_each publish_event clock ticks_per_second config handler ms
                run).1.store.outbox)
      → AllAdvance xs
          (elim result as (λ _. RepositoryResult (Unit {0}) × PublisherRun) [
            | failure e ↦ (failure e, later)
            | success _ ↦ deliver_each publish_event clock ticks_per_second config handler ms later
          ]).1.store.outbox
  continue-AllAdvance ms xs (failure e) later before rest = before
  continue-AllAdvance ms xs (success u) later before rest =
      AllAdvance-trans xs later.store.outbox
        (deliver_each publish_event clock ticks_per_second config handler ms later).1.store.outbox
        before (rest later)

  deliver_each-AllAdvance :
      (ms : List OutboxMessage) (run : PublisherRun)
      → AllAdvance run.store.outbox
          (deliver_each publish_event clock ticks_per_second config handler ms run).1.store.outbox
  unfolding deliver_each
  deliver_each-AllAdvance [] run = AllAdvance-refl run.store.outbox
  deliver_each-AllAdvance (m ∷ ms) run =
      let first = deliver publish_event clock ticks_per_second config handler m run in
      continue-AllAdvance ms run.store.outbox first.0 first.1 (deliver-AllAdvance m run)
        (deliver_each-AllAdvance ms)

  process-AllAdvance :
      (xs : List OutboxMessage) (r : RepositoryResult (OutboxClaimBatch × OutboxStore))
      (run : PublisherRun)
      → AllAdvance xs run.store.outbox
      → ((batch : OutboxClaimBatch) (s : OutboxStore)
          → r ≡ success (batch, s)
          → AllAdvance xs s.outbox)
      → AllAdvance xs
          (process publish_event clock ticks_per_second config handler r run).1.store.outbox
  unfolding process
  process-AllAdvance xs (failure e) run before step = before
  process-AllAdvance xs (success (batch, s)) run before step =
      let audited =
        audit_recovered handler batch.recovered_dead_letters (record run { store = s }) in
      let counted : PublisherRun = record audited {
        summary = record audited.summary { claimed = length batch.claimed };
      } in
      let last =
        deliver_each publish_event clock ticks_per_second config handler batch.claimed counted in
      let moved : AllAdvance xs last.1.store.outbox =
        AllAdvance-trans xs counted.store.outbox last.1.store.outbox
          (rw
            (audit_recovered-outbox handler batch.recovered_dead_letters (record run { store = s }))
            (step batch s refl))
          (deliver_each-AllAdvance batch.claimed counted) in
      finish last.0 last.1 moved
    where
      finish :
          (result : RepositoryResult (Unit {0})) (last : PublisherRun)
          → AllAdvance xs last.store.outbox
          → AllAdvance xs
              (elim result as (λ _. RepositoryResult OutboxPublishSummary × PublisherRun) [
                | failure e ↦ (failure e, last)
                | success _ ↦ (success last.summary, last)
              ]).1.store.outbox
      finish (failure e) last moved = moved
      finish (success u) last moved = moved

  -- Whatever the event bus, the clock and the handler of dead letters do, and whether the run ends
  -- well or with an error half-way, every message of the outbox is where it was, with its event,
  -- and only further in its life.
  pub run_once-refines :
      (worker_id : Bytes) (store : OutboxStore) (readings : ℕ)
      → AllAdvance store.outbox
          (run_once publish_event clock ticks_per_second config handler worker_id store
            readings).1.store.outbox
  unfolding run_once
  run_once-refines worker_id store readings =
      let run : PublisherRun = record {
        store = store;
        summary = no_summary;
        readings = readings;
      } in
      let audited = audit_unhandled_dead_letters handler config run in
      let same = audit_unhandled-outbox handler config run in
      let later : PublisherRun = record audited { readings = audited.readings + 1 } in
      let before : AllAdvance store.outbox audited.store.outbox =
        rw same (AllAdvance-refl store.outbox) in
      let invalid =
        length worker_id == 0
        || config.batch_size == 0
        || not (ltb_ℤ (pos 0) config.processing_timeout) in
      elim (Bool-cases invalid) [
        | inl bad ↦ rw bad (AllAdvance-refl store.outbox)
        | inr good ↦ rw good (
            process-AllAdvance store.outbox
              (claim_due (clock audited.readings) config.processing_timeout config.batch_size
                worker_id audited.store)
              later before
              (λ batch s e.
                AllAdvance-trans store.outbox audited.store.outbox s.outbox before
                  (claim_due-refines (clock audited.readings) config.processing_timeout
                    config.batch_size worker_id audited.store s batch e).0))
      ]
