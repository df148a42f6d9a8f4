-- ===== src/Infrastructure/Tests.antt =====
-- Runs of the in-memory repositories at concrete values, and their theorems at concrete inputs.
use personal_finance_hub.Prelude.{
  ℕ, ◌≤◌, ◌≡◌, refl, false, some, [], ◌∷◌, Bytes, bytes, bytes_eq, arith, find, insert_or_assign,
}
use personal_finance_hub.Prelude.Int.{pos, ◌+ℤ◌}
use personal_finance_hub.Application.Outbox.{
  OutboxMessage, OutboxStatus, pending, published, dead_lettered, epoch,
}
use personal_finance_hub.Domain.Decimal.Text.{u128_to_string, digits_loop}
use personal_finance_hub.Domain.ExchangeRate.{TimePoint}
use personal_finance_hub.Infrastructure.Repository.{success}
use personal_finance_hub.Infrastructure.Lease.{
  JobLease, LeaseStore, valid_identity, token_text, is_held, granted, try_acquire, is_owned,
  release,
}
use personal_finance_hub.Infrastructure.Lease.Tokens.{done, release-stale}
use personal_finance_hub.Infrastructure.Outbox.{
  OutboxStore, clear_claim, record_failure, settle, is_stale, recover_loop, is_due, claim_text,
  claim, claim_loop, claim_due, is_claimed, find_claimed, update_claimed, publish, fail,
  transition_of, mark_failed,
}
use personal_finance_hub.Infrastructure.Outbox.Lifecycle.{AllAdvance}
use personal_finance_hub.Infrastructure.Outbox.History.{
  History, start, claimed_due, marked_failed, get_elem?, History-refines, History-final,
  History-bound,
}

abbrev rates : Bytes
rates = bytes "rates"

abbrev alice : Bytes
alice = bytes "node-a"

abbrev bob : Bytes
bob = bytes "node-b"

abbrev no_leases : LeaseStore
no_leases = record { scheduled_job_leases = []; next_job_lease_token = 1 }

-- The first node holds the lease from 100 to 150, the second one from 200 to 250.
abbrev by_alice : LeaseStore
by_alice = (granted no_leases rates alice (pos 100) (pos 150)).1

abbrev by_bob : LeaseStore
by_bob = (granted by_alice rates bob (pos 200) (pos 250)).1

abbrev lease : ℕ → TimePoint → JobLease
lease n until = record { token = token_text n; lease_until = until }

-- The first node cannot end the second one's lease.
release-stale_example : (false ≡ false) × (by_bob ≡ by_bob)
unfolding release try_acquire is_held granted find insert_or_assign bytes_eq valid_identity is_owned
    token_text u128_to_string digits_loop ◌+ℤ◌
release-stale_example =
    release-stale rates alice bob alice (pos 100) (pos 200) (pos 210) (pos 50) (pos 50) no_leases
      by_alice by_alice by_bob by_bob (lease 1 (pos 150)) (lease 2 (pos 250)) false (omega arith)
      refl done (omega arith) refl refl

abbrev message : Bytes → OutboxStatus → ℕ → OutboxMessage
message id status retries = record {
  id = id;
  event_name = bytes "TransferCreated";
  aggregate_type = bytes "transfer";
  aggregate_id = bytes "12";
  payload_json = bytes "{}";
  status = status;
  retry_count = retries;
  max_retry_count = 5;
  next_retry_at = epoch;
  last_error = [];
  last_failed_handler = [];
  last_failed_at = epoch;
  occurred_at = epoch;
  created_at = epoch;
  published_at = epoch;
  locked_at = epoch;
  locked_by = [];
  claim_token = [];
}

-- One message waits, one is published.
abbrev waiting : OutboxStore
waiting = record {
  outbox = message (bytes "1") pending 4 ∷ message (bytes "2") published 0 ∷ [];
  outbox_handler_receipts = [];
  next_outbox_claim_token = 1;
}

abbrev first_claimed : OutboxMessage
first_claimed = claim (pos 100) alice 1 (message (bytes "1") pending 4)

abbrev taken : OutboxStore
taken = record waiting {
  outbox = first_claimed ∷ message (bytes "2") published 0 ∷ [];
  next_outbox_claim_token = 2;
}

claim_due-taken :
    claim_due (pos 100) (pos 60) 10 alice waiting
    ≡ success (record { claimed = first_claimed ∷ []; recovered_dead_letters = [] }, taken)
unfolding claim_due recover_loop is_stale claim_loop is_due
claim_due-taken = refl

-- The message fails for the fifth time.
abbrev spent : OutboxStore
spent = record taken {
  outbox =
      fail (bytes "audit") (bytes "down") (pos 110) (pos 400) first_claimed
      ∷ message (bytes "2") published 0
      ∷ [];
}

mark_failed-spent :
    mark_failed (bytes "1") (claim_text 1) (bytes "audit") (bytes "down") (pos 110) (pos 400) taken
    ≡ success (record { disposition = dead_lettered; retry_count = 5 }, spent)
unfolding mark_failed find_claimed update_claimed is_claimed claim claim_text u128_to_string
    digits_loop bytes_eq fail settle record_failure clear_claim transition_of
mark_failed-spent = refl

abbrev delivered_store : OutboxStore
delivered_store = record taken {
  outbox = publish (pos 105) first_claimed ∷ message (bytes "2") published 0 ∷ [];
}

-- The message is claimed and fails for the last time.
spent-History : History waiting spent
spent-History =
    claimed_due (pos 100) (pos 60) 10 alice
      (record { claimed = first_claimed ∷ []; recovered_dead_letters = [] }) claim_due-taken
      (marked_failed (bytes "1") (claim_text 1) (bytes "audit") (bytes "down") (pos 110) (pos 400)
        (record { disposition = dead_lettered; retry_count = 5 }) mark_failed-spent start)

History-refines_example : AllAdvance waiting.outbox spent.outbox
History-refines_example = History-refines spent-History

History-final_example :
    (m : OutboxMessage) × (get_elem? spent.outbox 1 ≡ some m) × (m.status ≡ published)
History-final_example =
    let (m, at, _, status, _) =
      History-final 1 (message (bytes "2") published 0) spent-History refl refl in
    (m, at, status)

History-bound_example :
    (m : OutboxMessage) × (get_elem? spent.outbox 0 ≡ some m) × (m.retry_count ≤ m.max_retry_count)
History-bound_example =
    History-bound 0 (message (bytes "1") pending 4) spent-History refl (omega arith)
