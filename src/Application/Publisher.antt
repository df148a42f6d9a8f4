-- ===== src/Application/Publisher.antt =====
-- include/pfh/application/events/outbox_publisher.h and src/application/outbox_publisher.cpp: one
-- run of the publisher over the in-memory outbox. The event bus, the handler of dead letters and
-- the clock are parameters.
pub mod Delivery
pub mod Texts
pub mod Counts
pub mod Audit
pub mod Progress
use personal_finance_hub.Prelude.{
  ℕ, zero, suc, ◌+◌, ◌*◌, Bool, true, false, not, ◌&&◌, ◌||◌, Option, none, some, List, [], ◌∷◌,
  length, Bytes, bytes, ltb, leb, ◌==◌, if◌then◌else◌,
}
use personal_finance_hub.Prelude.Int.{ℤ, pos, ◌+ℤ◌, ltb_ℤ}
use personal_finance_hub.Application.Outbox.{
  OutboxMessage, dead_letter, OutboxFailureTransition, dead_lettered, retry_scheduled, epoch,
  OutboxFailureDisposition, OutboxClaimBatch,
}
use personal_finance_hub.Application.Publisher.Texts.{safe_error_summary, safe_handler_name}
use personal_finance_hub.Domain.ExchangeRate.{TimePoint}
use personal_finance_hub.Infrastructure.Repository.{
  RepositoryResult, success, failure, RepositoryStatus, validation_error,
}
use personal_finance_hub.Infrastructure.Outbox.{
  OutboxStore, claim_due, mark_published, mark_failed, list_unhandled_dead_letters,
}

pub record OutboxPublisherConfig : Type 0 where
  pub batch_size : ℕ
  pub processing_timeout : ℤ
  pub dead_letter_audit_batch_size : ℕ

pub record OutboxPublishSummary : Type 0 where
  pub claimed : ℕ
  pub published : ℕ
  pub failed : ℕ
  pub dead_lettered : ℕ
  pub dead_letters_audited : ℕ
  pub audit_failures : ℕ

pub record EventHandlingError : Type 0 where
  pub summary : Bytes
  pub handler_name : Bytes

-- What the event bus does with a message: it handles it, returns an error, or raises a standard or
-- another exception.
pub data PublishOutcome : Type 0 where
  handled : PublishOutcome
  refused : EventHandlingError → PublishOutcome
  raised_standard raised_unknown : PublishOutcome

-- The error of an attempt, if it failed: the `try` block of `run_once`.
unfoldable pub error_of : PublishOutcome → Option EventHandlingError
error_of handled = none
error_of (refused e) = some e
error_of raised_standard =
    some
      (record { summary = bytes "event bus raised an exception"; handler_name = bytes "IEventBus" })
error_of raised_unknown = some (record {
  summary = bytes "event bus raised an unknown exception";
  handler_name = bytes "IEventBus";
})

-- A handler of dead letters: whether it succeeds, and the receipts after it. An exception counts
-- as an error.
pub record DeadLetterHandler : Type 0 where
  pub name : Bytes
  pub handle : OutboxMessage → List (Bytes × Bytes) → Bool × List (Bytes × Bytes)

-- What a run reads and writes: the store, its summary, and how often it has read the clock.
pub record PublisherRun : Type 0 where
  pub store : OutboxStore
  pub summary : OutboxPublishSummary
  pub readings : ℕ

abbrev pub no_summary : OutboxPublishSummary
no_summary = record {
  claimed = 0;
  published = 0;
  failed = 0;
  dead_lettered = 0;
  dead_letters_audited = 0;
  audit_failures = 0;
}

-- Seconds until the next attempt.
unfoldable pub retry_delay : ℕ → ℕ
retry_delay zero = 60
retry_delay (suc zero) = 60
retry_delay (suc (suc zero)) = 300
retry_delay (suc (suc (suc zero))) = 900
retry_delay (suc (suc (suc (suc zero)))) = 3600
retry_delay (suc (suc (suc (suc (suc n))))) = 21600

-- The message that `run_once` hands to the handler of dead letters after a failure.
unfoldable pub dead_copy : Bytes → Bytes → TimePoint → ℕ → OutboxMessage → OutboxMessage
dead_copy error handler at retries m = record m {
  status = dead_letter;
  retry_count = retries;
  last_error = error;
  last_failed_handler = handler;
  last_failed_at = at;
  locked_at = epoch;
  locked_by = [];
  claim_token = [];
}

abbrev pub count_audit : Bool → OutboxPublishSummary → OutboxPublishSummary
count_audit true s = record s { dead_letters_audited = s.dead_letters_audited + 1 }
count_audit false s = record s { audit_failures = s.audit_failures + 1 }

abbrev pub is_dead_lettered : OutboxFailureDisposition → Bool
is_dead_lettered dead_lettered = true
is_dead_lettered retry_scheduled = false

unfoldable pub audit_dead_letter :
    Option DeadLetterHandler → OutboxMessage → PublisherRun → PublisherRun
audit_dead_letter none m run = run
audit_dead_letter (some h) m run =
    let answer = h.handle m run.store.outbox_handler_receipts in
    record run {
      store = record run.store { outbox_handler_receipts = answer.1 };
      summary = count_audit answer.0 run.summary;
    }

-- The loop of `audit_unhandled_dead_letters`.
unfoldable pub audit_each :
    Option DeadLetterHandler → List OutboxMessage → PublisherRun → PublisherRun
audit_each handler [] run = run
audit_each handler (m ∷ ms) run = audit_each handler ms (audit_dead_letter handler m run)

unfoldable pub audit_unhandled_dead_letters :
    Option DeadLetterHandler → OutboxPublisherConfig → PublisherRun → PublisherRun
audit_unhandled_dead_letters none config run = run
audit_unhandled_dead_letters (some h) config run =
    if config.dead_letter_audit_batch_size == 0
    then run
    else audit_each (some h)
        (list_unhandled_dead_letters h.name config.dead_letter_audit_batch_size run.store) run

abbrev pub count_dead_letter : PublisherRun → PublisherRun
count_dead_letter run = record run {
  summary = record run.summary { dead_lettered = run.summary.dead_lettered + 1 };
}

-- The loop over the recovered dead letters.
unfoldable pub audit_recovered :
    Option DeadLetterHandler → List OutboxMessage → PublisherRun → PublisherRun
audit_recovered handler [] run = run
audit_recovered handler (m ∷ ms) run =
    audit_recovered handler ms (audit_dead_letter handler m (count_dead_letter run))

-- A message that was handled.
unfoldable pub after_publish :
    RepositoryResult (Unit {0} × OutboxStore)
    → PublisherRun
    → RepositoryResult (Unit {0}) × PublisherRun
after_publish (failure e) run = (failure e, run)
after_publish (success (_, store)) run = (
  success tt,
  record run {
    store = store;
    summary = record run.summary { published = run.summary.published + 1 };
  },
)

-- A message that was not; `dead` makes the copy that is audited.
unfoldable pub after_failure :
    Option DeadLetterHandler
    → (ℕ → OutboxMessage)
    → RepositoryResult (OutboxFailureTransition × OutboxStore)
    → PublisherRun
    → RepositoryResult (Unit {0}) × PublisherRun
after_failure handler dead (failure e) run = (failure e, run)
after_failure handler dead (success (t, store)) run =
    if is_dead_lettered t.disposition
    then (
      success tt,
      audit_dead_letter handler (dead t.retry_count)
          (count_dead_letter (record run { store = store })),
    )
    else (
      success tt,
      record run {
        store = store;
        summary = record run.summary { failed = run.summary.failed + 1 };
      },
    )

module _
    (publish_event : OutboxMessage → List (Bytes × Bytes) → PublishOutcome × List (Bytes × Bytes))
    (clock : ℕ → TimePoint) (ticks_per_second : ℕ) (config : OutboxPublisherConfig)
    (handler : Option DeadLetterHandler) where
  -- One message of the batch. Handling it may add receipts; both ways then read the clock once.
  unfoldable pub deliver : OutboxMessage → PublisherRun → RepositoryResult (Unit {0}) × PublisherRun
  deliver m run =
      let answer = publish_event m run.store.outbox_handler_receipts in
      let store = record run.store { outbox_handler_receipts = answer.1 } in
      let at = clock run.readings in
      let later = record run { store = store; readings = run.readings + 1 } in
      elim (error_of answer.0) [
        | none ↦ after_publish (mark_published m.id m.claim_token at store) later
        | some e ↦
            let error = safe_error_summary e.summary in
            let name = safe_handler_name e.handler_name in
            let again = at +ℤ pos (retry_delay (m.retry_count + 1) * ticks_per_second) in
            after_failure handler (λ retries. dead_copy error name at retries m)
              (mark_failed m.id m.claim_token name error at again store) later
      ]

  -- The loop over the batch, which an error ends.
  unfoldable pub deliver_each :
      List OutboxMessage → PublisherRun → RepositoryResult (Unit {0}) × PublisherRun
  deliver_each [] run = (success tt, run)
  deliver_each (m ∷ ms) run =
      let (result, later) = deliver m run in
      elim result [ failure e ↦ (failure e, later) | success _ ↦ deliver_each ms later ]

  -- What follows the claim.
  unfoldable pub process :
      RepositoryResult (OutboxClaimBatch × OutboxStore)
      → PublisherRun
      → RepositoryResult OutboxPublishSummary × PublisherRun
  process (failure e) run = (failure e, run)
  process (success (batch, store)) run =
      let audited =
        audit_recovered handler batch.recovered_dead_letters (record run { store = store }) in
      let counted = record audited {
        summary = record audited.summary { claimed = length batch.claimed };
      } in
      let (result, last) = deliver_each batch.claimed counted in
      elim result [ failure e ↦ (failure e, last) | success _ ↦ (success last.summary, last) ]

  unfoldable pub run_once :
      Bytes → OutboxStore → ℕ → RepositoryResult OutboxPublishSummary × PublisherRun
  run_once worker_id store readings =
      let run : PublisherRun = record {
        store = store;
        summary = no_summary;
        readings = readings;
      } in
      let audited = audit_unhandled_dead_letters handler config run in
      let later = record audited { readings = audited.readings + 1 } in
      if length worker_id == 0
        || config.batch_size == 0
        || not (ltb_ℤ (pos 0) config.processing_timeout)
      then (failure validation_error, run)
      else process
          (claim_due (clock audited.readings) config.processing_timeout config.batch_size worker_id
            audited.store)
          later
