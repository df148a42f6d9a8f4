-- ===== src/Application/Tests.antt =====
-- Runs of src/application/outbox_publisher.cpp at concrete values, and its theorems at concrete
-- inputs.
use personal_finance_hub.Prelude.{
  ℕ, ◌+◌, ◌≡◌, refl, none, List, [], ◌∷◌, length, Bytes, bytes, bytes_eq, arith,
}
use personal_finance_hub.Prelude.Int.{pos, ◌-ℤ◌}
use personal_finance_hub.Application.Outbox.{OutboxMessage, OutboxClaimBatch, pending, epoch}
use personal_finance_hub.Application.Publisher.{
  OutboxPublisherConfig, OutboxPublishSummary, PublishOutcome, handled, raised_standard, error_of,
  no_summary, audit_unhandled_dead_letters, audit_recovered, after_publish, deliver, deliver_each,
  process, run_once,
}
use personal_finance_hub.Application.Publisher.Counts.{run_once-counts}
use personal_finance_hub.Application.Publisher.Delivery.{run_once-refines}
use personal_finance_hub.Application.Publisher.Progress.{run_once-succeeds}
use personal_finance_hub.Application.Publisher.Texts.{
  IsSafe, safe_error_summary, safe_error_summary-IsSafe,
}
use personal_finance_hub.Domain.Decimal.Text.{u128_to_string, digits_loop}
use personal_finance_hub.Domain.ExchangeRate.{TimePoint}
use personal_finance_hub.Infrastructure.Repository.{success}
use personal_finance_hub.Infrastructure.Outbox.{
  OutboxStore, recover_loop, is_stale, claim_loop, is_due, claim, claim_text, claim_due, is_claimed,
  find_claimed, update_claimed, mark_published,
}
use personal_finance_hub.Infrastructure.Outbox.Lifecycle.{AllAdvance}

abbrev message : OutboxMessage
message = record {
  id = bytes "1";
  event_name = bytes "TransferCreated";
  aggregate_type = bytes "transfer";
  aggregate_id = bytes "12";
  payload_json = bytes "{}";
  status = pending;
  retry_count = 0;
  max_retry_count = 5;
  next_retry_at = epoch;
  last_error = [];
  last_failed_handler = [];
  last_failed_at = epoch;
  occurred_at = epoch;
  created_at = epoch;
  published_at = epoch;
  locked_at = epoch;
  locked_by = [];
  claim_token = [];
}

abbrev store : OutboxStore
store = record { outbox = message ∷ []; outbox_handler_receipts = []; next_outbox_claim_token = 1 }

abbrev clock : ℕ → TimePoint
clock n = pos (100 + n)

abbrev config : OutboxPublisherConfig
config = record { batch_size = 10; processing_timeout = pos 300; dead_letter_audit_batch_size = 10 }

abbrev worker : Bytes
worker = bytes "w"

-- The bus raises an exception for every message.
abbrev failing : OutboxMessage → List (Bytes × Bytes) → PublishOutcome × List (Bytes × Bytes)
failing m receipts = (raised_standard, receipts)

abbrev working : OutboxMessage → List (Bytes × Bytes) → PublishOutcome × List (Bytes × Bytes)
working m receipts = (handled, receipts)

run_once-refines_example :
    AllAdvance store.outbox (run_once failing clock 1 config none worker store 0).1.store.outbox
run_once-refines_example = run_once-refines failing clock 1 config none worker store 0

run_once-counts_example : (batch : OutboxClaimBatch) × (1 ≡ length batch.claimed)
unfolding run_once audit_unhandled_dead_letters process audit_recovered deliver_each deliver
    error_of after_publish claim_due recover_loop is_stale claim_loop is_due claim claim_text
    mark_published find_claimed is_claimed update_claimed u128_to_string digits_loop bytes_eq ◌-ℤ◌
run_once-counts_example =
    let counts =
      run_once-counts working clock 1 config none worker store 0
        (record no_summary { claimed = 1; published = 1 }) refl in
    (counts.0, counts.3)

safe_error_summary-IsSafe_example : IsSafe 32 1024 (safe_error_summary [])
safe_error_summary-IsSafe_example = (safe_error_summary-IsSafe [] (bytes "bus")).0

run_once-succeeds_example :
    (s : OutboxPublishSummary) × ((run_once failing clock 1 config none worker store 0).0
      ≡ success s)
run_once-succeeds_example =
    run_once-succeeds failing clock 1 config none worker store 0 (omega arith) (omega arith)
      (omega arith) refl (tt, tt) (refl, tt)
