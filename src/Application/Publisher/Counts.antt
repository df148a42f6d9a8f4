-- ===== src/Application/Publisher/Counts.antt =====
-- src/application/outbox_publisher.cpp: what the summary of a run counts.
use personal_finance_hub.Prelude.{
  ℕ, suc, ◌+◌, ◌≡◌, refl, ◌∙◌, inl, inr, not, ◌||◌, Option, List, [], ◌∷◌, length, Bytes, arith,
  Bool-cases, Option-cases, ◌==◌,
}
use personal_finance_hub.Prelude.Int.{pos, ltb_ℤ}
use personal_finance_hub.Application.Outbox.{
  OutboxMessage, OutboxClaimBatch, OutboxFailureTransition,
}
use personal_finance_hub.Application.Publisher.{
  OutboxPublisherConfig, OutboxPublishSummary, PublishOutcome, error_of, DeadLetterHandler,
  PublisherRun, no_summary, audit_unhandled_dead_letters, count_dead_letter, audit_recovered,
  after_publish, after_failure, deliver, deliver_each, process, run_once, is_dead_lettered,
}
use personal_finance_hub.Application.Publisher.Audit.{
  settled, settled-audit_dead_letter, settled-audit_recovered, settled-audit_unhandled,
  claimed-audit_dead_letter, audit_unhandled-IsAudited, claim_due-receipts,
}
use personal_finance_hub.Domain.ExchangeRate.{TimePoint}
use personal_finance_hub.Infrastructure.Repository.{
  RepositoryResult, success, failure, failure-ne-success, success-injective,
}
use personal_finance_hub.Infrastructure.Outbox.{OutboxStore, claim_due, mark_published}

-- A result is an error, or one more message is settled and the number of claims stays.
abbrev Counts : ℕ → RepositoryResult (Unit {0}) × PublisherRun → PublisherRun → Type 0
Counts n after run =
    after.0 ≡ success tt
    → (settled after.1.summary ≡ settled run.summary + n)
      × (after.1.summary.claimed ≡ run.summary.claimed)

after_publish-Counts :
    (r : RepositoryResult (Unit {0} × OutboxStore)) (run : PublisherRun)
    → Counts 1 (after_publish r run) run
unfolding after_publish
after_publish-Counts (failure e) run h = absurd (failure-ne-success h)
after_publish-Counts (success (u, s)) run h = (omega arith, refl)

after_failure-Counts :
    (handler : Option DeadLetterHandler) (dead : ℕ → OutboxMessage)
    (r : RepositoryResult (OutboxFailureTransition × OutboxStore)) (run : PublisherRun)
    → Counts 1 (after_failure handler dead r run) run
unfolding after_failure
after_failure-Counts handler dead (failure e) run h = absurd (failure-ne-success h)
after_failure-Counts handler dead (success (t, s)) run h =
    let counted = count_dead_letter (record run { store = s }) in
    elim (Bool-cases (is_dead_lettered t.disposition)) [
      | inl gone ↦ rw gone (
        omega (arith, settled-audit_dead_letter handler (dead t.retry_count) counted),
        claimed-audit_dead_letter handler (dead t.retry_count) counted,
      )
      | inr kept ↦ rw kept (omega arith, refl)
    ]

module _
    (publish_event : OutboxMessage → List (Bytes × Bytes) → PublishOutcome × List (Bytes × Bytes))
    (clock : ℕ → TimePoint) (ticks_per_second : ℕ) (config : OutboxPublisherConfig)
    (handler : Option DeadLetterHandler) where
  deliver-Counts :
      (m : OutboxMessage) (run : PublisherRun)
      → Counts 1 (deliver publish_event clock ticks_per_second config handler m run) run
  unfolding deliver
  deliver-Counts m run =
      let answer = publish_event m run.store.outbox_handler_receipts in
      let store : OutboxStore = record run.store { outbox_handler_receipts = answer.1 } in
      let at = clock run.readings in
      let later : PublisherRun = record run { store = store; readings = run.readings + 1 } in
      elim (Option-cases (error_of answer.0)) [
        | inl fine ↦
            rw (deliver, fine)
              (after_publish-Counts (mark_published m.id m.claim_token at store) later)
        | inr (e, bad) ↦ rw (deliver, bad) (after_failure-Counts handler _ _ later)
      ]

  continue-Counts :
      (ms : List OutboxMessage) (result : RepositoryResult (Unit {0})) (later run : PublisherRun)
      → Counts 1 (result, later) run
      → ((r : PublisherRun)
          → Counts
              (length ms)
              (deliver_each publish_event clock ticks_per_second config handler ms r)
              r)
      → Counts
          (suc (length ms))
          (elim result as (λ _. RepositoryResult (Unit {0}) × PublisherRun) [
            | failure e ↦ (failure e, later)
            | success _ ↦ deliver_each publish_event clock ticks_per_second config handler ms later
          ])
          run
  continue-Counts ms (failure e) later run one rest h = absurd (failure-ne-success h)
  continue-Counts ms (success tt) later run one rest h =
      let (first, kept) = one refl in
      let (more, kept') = rest later h in (omega (arith, first, more), kept' ∙ kept)

  deliver_each-Counts :
      (ms : List OutboxMessage) (run : PublisherRun)
      → Counts
          (length ms)
          (deliver_each publish_event clock ticks_per_second config handler ms run)
          run
  unfolding deliver_each
  deliver_each-Counts [] run h = (omega arith, refl)
  deliver_each-Counts (m ∷ ms) run h =
      let first = deliver publish_event clock ticks_per_second config handler m run in
      continue-Counts ms first.0 first.1 run (deliver-Counts m run) (deliver_each-Counts ms) h

  process-counts :
      (r : RepositoryResult (OutboxClaimBatch × OutboxStore)) (run : PublisherRun)
      (s : OutboxPublishSummary)
      → (process publish_event clock ticks_per_second config handler r run).0 ≡ success s
      → (batch : OutboxClaimBatch) × (after : OutboxStore) × (r ≡ success (batch, after))
        × (s.claimed ≡ length batch.claimed)
        × (settled s
            ≡ settled run.summary + length batch.recovered_dead_letters + length batch.claimed)
  unfolding process
  process-counts (failure e) run s h = absurd (failure-ne-success h)
  process-counts (success (batch, after)) run s h =
      let start : PublisherRun = record run { store = after } in
      let audited = audit_recovered handler batch.recovered_dead_letters start in
      let counted : PublisherRun = record audited {
        summary = record audited.summary { claimed = length batch.claimed };
      } in
      let last =
        deliver_each publish_event clock ticks_per_second config handler batch.claimed counted in
      let (sum, kept) =
        finish last.0 last.1 counted (deliver_each-Counts batch.claimed counted) h in
      (
        batch,
        after,
        refl,
        kept,
        omega (arith, sum, settled-audit_recovered handler batch.recovered_dead_letters start),
      )
    where
      finish :
          (result : RepositoryResult (Unit {0})) (last counted : PublisherRun)
          → Counts (length batch.claimed) (result, last) counted
          → (elim result as (λ _. RepositoryResult OutboxPublishSummary × PublisherRun) [
            | failure e ↦ (failure e, last)
            | success _ ↦ (success last.summary, last)
          ]).0
            ≡ success s
          → (settled s ≡ settled counted.summary + length batch.claimed)
            × (s.claimed ≡ counted.summary.claimed)
      finish (failure e) last counted one g = absurd (failure-ne-success g)
      finish (success tt) last counted one g = rw (← success-injective g) (one refl)

  -- A run that ends well has claimed the batch that is due in its outbox at its first reading of
  -- the clock, and every message of that batch, claimed or recovered as a dead letter, is counted
  -- exactly once as published, failed or dead-lettered.
  pub run_once-counts :
      (worker_id : Bytes) (store : OutboxStore) (readings : ℕ) (s : OutboxPublishSummary)
      → (run_once publish_event clock ticks_per_second config handler worker_id store readings).0
        ≡ success s
      → (batch : OutboxClaimBatch) × (after : OutboxStore) × (claim_due
            (clock readings)
            config.processing_timeout
            config.batch_size
            worker_id
            store
          ≡ success (batch, after))
        × (s.claimed ≡ length batch.claimed)
        × (s.published + s.failed + s.dead_lettered
            ≡ length batch.recovered_dead_letters + length batch.claimed)
  unfolding run_once
  run_once-counts worker_id store readings s h =
      let run : PublisherRun = record {
        store = store;
        summary = no_summary;
        readings = readings;
      } in
      let audited = audit_unhandled_dead_letters handler config run in
      let later : PublisherRun = record audited { readings = audited.readings + 1 } in
      let invalid =
        length worker_id == 0
        || config.batch_size == 0
        || not (ltb_ℤ (pos 0) config.processing_timeout) in
      let claim =
        claim_due (clock audited.readings) config.processing_timeout config.batch_size worker_id
          audited.store in
      elim (Bool-cases invalid) [
        | inl bad ↦ absurd (failure-ne-success (rw (run_once, bad) at h))
        | inr good ↦
            let (batch, after, e, claims, sum) =
              process-counts claim later s (rw (run_once, good) at h) in
            let (receipts, same, clocks) = audit_unhandled-IsAudited handler config run in
            let (after', claimed) =
              claim_due-receipts (clock readings) config.processing_timeout config.batch_size
                worker_id store receipts batch (rw (same, clocks) at e) in
            (
              batch,
              after',
              claimed,
              claims,
              omega (arith, sum, settled-audit_unhandled handler config run),
            )
      ]
