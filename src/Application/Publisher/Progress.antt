-- ===== src/Application/Publisher/Progress.antt =====
-- src/application/outbox_publisher.cpp: a run on its own never loses a claim half-way.
use mathlib.Core.Path.{subst}
use personal_finance_hub.Prelude.{
  ℕ, ◌+◌, ◌*◌, ◌≤◌, ◌<◌, ◌≡◌, refl, sym, ◌∙◌, inl, inr, true, false, not, ◌||◌, Option, List, [],
  ◌∷◌, length, Bytes, bytes_eq, arith, All, Bool-cases, Option-cases, ◌==◌,
}
use personal_finance_hub.Prelude.Int.{pos, ◌+ℤ◌, ltb_ℤ}
use personal_finance_hub.Application.Outbox.{
  OutboxMessage, OutboxClaimBatch, OutboxFailureTransition,
}
use personal_finance_hub.Application.Publisher.{
  OutboxPublisherConfig, OutboxPublishSummary, PublishOutcome, error_of, DeadLetterHandler,
  PublisherRun, no_summary, audit_unhandled_dead_letters, count_dead_letter, audit_recovered,
  after_publish, after_failure, deliver, deliver_each, process, run_once, is_dead_lettered,
  retry_delay, dead_copy,
}
use personal_finance_hub.Application.Publisher.Audit.{
  audit_dead_letter-outbox, audit_recovered-outbox, audit_unhandled-outbox,
}
use personal_finance_hub.Application.Publisher.Texts.{
  safe_error_summary, safe_handler_name, safe_error_summary-IsSafe,
}
use personal_finance_hub.Domain.ExchangeRate.{TimePoint}
use personal_finance_hub.Infrastructure.Repository.{RepositoryResult, success}
use personal_finance_hub.Infrastructure.Outbox.{OutboxStore, publish, fail, mark_published}
use personal_finance_hub.Infrastructure.Outbox.Batch.{claim_due-IsReady}
use personal_finance_hub.Infrastructure.Outbox.Claims.{
  owns, IsFresh, Distinct, HasId, IsReady, owns-update_claimed, mark_published-owned,
  mark_failed-owned, id-publish, id-fail,
}

-- A message was recorded, and the claims of the others are as they were.
abbrev Progress : OutboxMessage → RepositoryResult (Unit {0}) × PublisherRun → PublisherRun → Type 0
Progress m after run =
    (after.0 ≡ success tt)
    × ((x : OutboxMessage)
        → bytes_eq m.id x.id ≡ false
        → owns x run.store.outbox ≡ true
        → owns x after.1.store.outbox ≡ true)

after_publish-Progress :
    (m : OutboxMessage) (r : RepositoryResult (Unit {0} × OutboxStore)) (s : OutboxStore)
    (run : PublisherRun)
    → r ≡ success (tt, s)
    → ((x : OutboxMessage)
        → bytes_eq m.id x.id ≡ false
        → owns x run.store.outbox ≡ true
        → owns x s.outbox ≡ true)
    → Progress m (after_publish r run) run
unfolding after_publish
after_publish-Progress m r s run e keeps = rw (after_publish, e) (refl, keeps)

after_failure-Progress :
    (handler : Option DeadLetterHandler) (dead : ℕ → OutboxMessage) (m : OutboxMessage)
    (t : OutboxFailureTransition) (s : OutboxStore) (run : PublisherRun)
    → ((x : OutboxMessage)
        → bytes_eq m.id x.id ≡ false
        → owns x run.store.outbox ≡ true
        → owns x s.outbox ≡ true)
    → Progress m (after_failure handler dead (success (t, s)) run) run
unfolding after_failure
after_failure-Progress handler dead m t s run keeps =
    elim (Bool-cases (is_dead_lettered t.disposition)) [
      | inl gone ↦
          let same =
            audit_dead_letter-outbox handler (dead t.retry_count)
              (count_dead_letter (record run { store = s })) in
          rw gone
            (refl, λ x other own. subst (λ xs. owns x xs ≡ true) (sym same) (keeps x other own))
      | inr kept ↦ rw kept (refl, keeps)
    ]

-- What is still to do stays ready.
All-IsReady :
    (id : Bytes) (xs ys ms : List OutboxMessage)
    → IsFresh id ms
    → ((x : OutboxMessage) → bytes_eq id x.id ≡ false → owns x xs ≡ true → owns x ys ≡ true)
    → All (IsReady xs) ms
    → All (IsReady ys) ms
All-IsReady id xs ys [] fresh keeps h = tt
All-IsReady id xs ys (m ∷ ms) fresh keeps h =
    ((keeps m fresh.0 h.0.0, h.0.1, h.0.2), All-IsReady id xs ys ms fresh.1 keeps h.1)

module _
    (publish_event : OutboxMessage → List (Bytes × Bytes) → PublishOutcome × List (Bytes × Bytes))
    (clock : ℕ → TimePoint) (ticks_per_second : ℕ) (config : OutboxPublisherConfig)
    (handler : Option DeadLetterHandler) where
  deliver-Progress :
      (m : OutboxMessage) (run : PublisherRun)
      → IsReady run.store.outbox m
      → Progress m (deliver publish_event clock ticks_per_second config handler m run) run
  unfolding deliver
  deliver-Progress m run ready =
      let xs = run.store.outbox in
      let answer = publish_event m run.store.outbox_handler_receipts in
      let store : OutboxStore = record run.store { outbox_handler_receipts = answer.1 } in
      let at = clock run.readings in
      let later : PublisherRun = record run { store = store; readings = run.readings + 1 } in
      elim (Option-cases (error_of answer.0)) [
        | inl fine ↦
            rw (deliver, fine)
              (after_publish-Progress m (mark_published m.id m.claim_token at store) _ later
                (mark_published-owned m at store ready.0)
                (λ x other own.
                  owns-update_claimed m.id m.claim_token (publish at) x xs (id-publish at) other
                  ∙ own))
        | inr (e, bad) ↦
            let name = safe_handler_name e.handler_name in
            let error = safe_error_summary e.summary in
            let (safe_error, safe_name) = safe_error_summary-IsSafe e.summary e.handler_name in
            let again = at +ℤ pos (retry_delay (m.retry_count + 1) * ticks_per_second) in
            let (t, done) =
              mark_failed-owned m name error at again store ready safe_name.non_empty
                safe_name.short safe_error.non_empty safe_error.short in
            rw (deliver, bad, done)
              (after_failure-Progress handler (λ retries. dead_copy error name at retries m) m t _
                later
                (λ x other own.
                  owns-update_claimed m.id m.claim_token (fail name error at again) x xs
                    (id-fail name error at again) other
                  ∙ own))
      ]

  deliver_each-succeeds :
      (ms : List OutboxMessage) (run : PublisherRun)
      → Distinct ms
      → All (IsReady run.store.outbox) ms
      → (deliver_each publish_event clock ticks_per_second config handler ms run).0 ≡ success tt
  unfolding deliver_each
  deliver_each-succeeds [] run distinct ready = refl
  deliver_each-succeeds (m ∷ ms) run distinct ready =
      let first = deliver publish_event clock ticks_per_second config handler m run in
      let (done, keeps) = deliver-Progress m run ready.0 in
      rw (deliver_each, done)
        (deliver_each-succeeds ms first.1 distinct.1
          (All-IsReady m.id run.store.outbox first.1.store.outbox ms distinct.0 keeps ready.1))

  process-succeeds :
      (batch : OutboxClaimBatch) (s : OutboxStore) (run : PublisherRun)
      → Distinct batch.claimed
      → All (IsReady s.outbox) batch.claimed
      → (sum : OutboxPublishSummary) × ((process publish_event clock ticks_per_second config handler
            (success (batch, s))
            run).0
          ≡ success sum)
  unfolding process
  process-succeeds batch s run distinct ready =
      let start : PublisherRun = record run { store = s } in
      let audited = audit_recovered handler batch.recovered_dead_letters start in
      let counted : PublisherRun = record audited {
        summary = record audited.summary { claimed = length batch.claimed };
      } in
      let same = audit_recovered-outbox handler batch.recovered_dead_letters start in
      let done =
        deliver_each-succeeds batch.claimed counted distinct
          (subst (λ xs. All (IsReady xs) batch.claimed) (sym same) ready) in
      (
        (deliver_each publish_event clock ticks_per_second config handler batch.claimed
            counted).1.summary,
        rw (process, done) refl,
      )

  -- With a valid configuration and worker, and an outbox of messages with distinct, non-empty ids,
  -- a run always ends well, whatever the event bus and the handler of dead letters do.
  pub run_once-succeeds :
      (worker_id : Bytes) (store : OutboxStore) (readings : ℕ)
      → 0 < length worker_id
      → length worker_id ≤ 128
      → 0 < config.batch_size
      → ltb_ℤ (pos 0) config.processing_timeout ≡ true
      → Distinct store.outbox
      → All HasId store.outbox
      → (s : OutboxPublishSummary) × ((run_once publish_event clock ticks_per_second config handler
            worker_id store readings).0
          ≡ success s)
  unfolding run_once
  run_once-succeeds worker_id store readings h1 h2 h3 h4 distinct ids =
      let run : PublisherRun = record {
        store = store;
        summary = no_summary;
        readings = readings;
      } in
      let audited = audit_unhandled_dead_letters handler config run in
      let same = audit_unhandled-outbox handler config run in
      let later : PublisherRun = record audited { readings = audited.readings + 1 } in
      let valid : (length worker_id == 0
            || config.batch_size == 0
            || not (ltb_ℤ (pos 0) config.processing_timeout))
          ≡ false =
        ground (arith, h4) in
      let (batch, after, claimed, batch_distinct, ready) =
        claim_due-IsReady (clock audited.readings) config.processing_timeout config.batch_size
          worker_id audited.store h4 h3 h1 h2 (subst Distinct (sym same) distinct)
          (subst (All HasId) (sym same) ids) in
      let (s, done) = process-succeeds batch after later batch_distinct ready in
      (s, rw (run_once, valid, claimed) done)
