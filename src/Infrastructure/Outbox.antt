-- ===== src/Infrastructure/Outbox.antt =====
-- include/pfh/infrastructure/persistence/in_memory_outbox_repository.h: claiming messages of the
-- transactional outbox, and recording what became of them. Durations are in the ticks of the clock.
pub mod Lifecycle
pub mod Moves
pub mod Refinement
pub mod History
pub mod Claims
pub mod Batch
use personal_finance_hub.Prelude.{
  ℕ, zero, suc, ◌+◌, ◌%◌, ◌^◌, Bool, true, false, not, ◌&&◌, ◌||◌, Option, none, some, List, [],
  ◌∷◌, ◌++◌, length, Bytes, bytes, bytes_eq, ltb, leb, ◌==◌, if◌then◌else◌,
}
use personal_finance_hub.Prelude.Int.{ℤ, pos, ◌-ℤ◌, ltb_ℤ, leb_ℤ}
use personal_finance_hub.Application.Outbox.{
  OutboxMessage, OutboxStatus, processing, published, failed, dead_letter, OutboxClaimBatch,
  OutboxFailureTransition, retry_scheduled, dead_lettered, is_processing, is_dead_letter,
  is_waiting, epoch,
}
use personal_finance_hub.Domain.Decimal.Text.{u128_to_string}
use personal_finance_hub.Domain.ExchangeRate.{TimePoint}
use personal_finance_hub.Infrastructure.Repository.{
  RepositoryResult, success, failure, validation_error, conflict,
}

-- The part of InMemoryStore that the outbox uses.
pub record OutboxStore : Type 0 where
  pub outbox : List OutboxMessage
  pub outbox_handler_receipts : List (Bytes × Bytes)
  pub next_outbox_claim_token : ℕ

unfoldable pub clear_claim : OutboxMessage → OutboxMessage
clear_claim m = record m { locked_at = epoch; locked_by = []; claim_token = [] }

-- A failed attempt: counted, its error recorded, the claim given up.
unfoldable pub record_failure : Bytes → Bytes → TimePoint → OutboxMessage → OutboxMessage
record_failure error handler at m = clear_claim (record m {
  retry_count = m.retry_count + 1;
  last_error = error;
  last_failed_handler = handler;
  last_failed_at = at;
})

-- After a failed attempt: a dead letter at the limit, else another attempt later.
unfoldable pub settle : TimePoint → OutboxMessage → OutboxMessage
settle next_retry_at m =
    if leb m.max_retry_count m.retry_count
    then record m { status = dead_letter }
    else record m { status = failed; next_retry_at = next_retry_at }

unfoldable pub is_stale : TimePoint → OutboxMessage → Bool
is_stale stale_before m = is_processing m.status && not (ltb_ℤ stale_before m.locked_at)

unfoldable pub expire : TimePoint → OutboxMessage → OutboxMessage
expire now m =
    settle now (record_failure (bytes "processing lease expired") (bytes "outbox-lease") now m)

-- The first loop of `claim_due`: the outbox after it, and the dead letters that it recovered.
unfoldable pub recover_loop :
    TimePoint → TimePoint → List OutboxMessage → List OutboxMessage × List OutboxMessage
recover_loop now stale_before [] = ([], [])
recover_loop now stale_before (m ∷ ms) =
    let (rest, dead) = recover_loop now stale_before ms in
    if is_stale stale_before m
    then (if is_dead_letter (expire now m).status
        then (expire now m ∷ rest, expire now m ∷ dead)
        else (expire now m ∷ rest, dead))
    else (m ∷ rest, dead)

unfoldable pub is_due : TimePoint → OutboxMessage → Bool
is_due now m = is_waiting m.status && leb_ℤ m.next_retry_at now

unfoldable pub claim_text : ℕ → Bytes
claim_text n = bytes "claim-" ++ u128_to_string n

unfoldable pub claim : TimePoint → Bytes → ℕ → OutboxMessage → OutboxMessage
claim now worker_id token m = record m {
  status = processing;
  locked_at = now;
  locked_by = worker_id;
  claim_token = claim_text token;
}

pub record ClaimLoop : Type 0 where
  pub outbox : List OutboxMessage
  pub claimed : List OutboxMessage
  pub next_token : ℕ

-- The second loop of `claim_due`, with the places left in the batch.
unfoldable pub claim_loop : TimePoint → Bytes → ℕ → ℕ → List OutboxMessage → ClaimLoop
claim_loop now worker_id left token [] = record { outbox = []; claimed = []; next_token = token }
claim_loop now worker_id zero token (m ∷ ms) = record {
  outbox = m ∷ ms;
  claimed = [];
  next_token = token;
}
claim_loop now worker_id (suc left) token (m ∷ ms) =
    let taken = claim_loop now worker_id left ((token + 1) % 2 ^ 64) ms in
    let passed = claim_loop now worker_id (suc left) token ms in
    if is_due now m
    then record taken {
      outbox = claim now worker_id token m ∷ taken.outbox;
      claimed = claim now worker_id token m ∷ taken.claimed;
    }
    else record passed { outbox = m ∷ passed.outbox }

unfoldable pub claim_due :
    TimePoint → ℤ → ℕ → Bytes → OutboxStore → RepositoryResult (OutboxClaimBatch × OutboxStore)
claim_due now processing_timeout batch_size worker_id store =
    let (recovered, dead) = recover_loop now (now -ℤ processing_timeout) store.outbox in
    let loop = claim_loop now worker_id batch_size store.next_outbox_claim_token recovered in
    if not (ltb_ℤ (pos 0) processing_timeout)
      || batch_size == 0
      || length worker_id == 0
      || ltb 128 (length worker_id)
    then failure validation_error
    else success (
      record { claimed = loop.claimed; recovered_dead_letters = dead },
      record store { outbox = loop.outbox; next_outbox_claim_token = loop.next_token },
    )

-- The test of `find_claimed`.
unfoldable pub is_claimed : Bytes → Bytes → OutboxMessage → Bool
is_claimed outbox_id claim_token m =
    bytes_eq m.id outbox_id && is_processing m.status && bytes_eq m.claim_token claim_token

unfoldable pub find_claimed : Bytes → Bytes → List OutboxMessage → Option OutboxMessage
find_claimed outbox_id claim_token [] = none
find_claimed outbox_id claim_token (m ∷ ms) =
    if is_claimed outbox_id claim_token m then some m else find_claimed outbox_id claim_token ms

-- Writing through the pointer that `find_claimed` returns.
unfoldable pub update_claimed :
    Bytes → Bytes → (OutboxMessage → OutboxMessage) → List OutboxMessage → List OutboxMessage
update_claimed outbox_id claim_token change [] = []
update_claimed outbox_id claim_token change (m ∷ ms) =
    if is_claimed outbox_id claim_token m
    then change m ∷ ms
    else m ∷ update_claimed outbox_id claim_token change ms

unfoldable pub publish : TimePoint → OutboxMessage → OutboxMessage
publish published_at m = clear_claim (record m { status = published; published_at = published_at })

unfoldable pub mark_published :
    Bytes → Bytes → TimePoint → OutboxStore → RepositoryResult (Unit {0} × OutboxStore)
mark_published outbox_id claim_token published_at store =
    elim (find_claimed outbox_id claim_token store.outbox) [
      | none ↦ failure conflict
      | some m ↦ success (
        tt,
        record store {
          outbox = update_claimed outbox_id claim_token (publish published_at) store.outbox;
        },
      )
    ]

-- The failure of an attempt, with the time of the next one.
unfoldable pub fail : Bytes → Bytes → TimePoint → TimePoint → OutboxMessage → OutboxMessage
fail handler error failed_at next_retry_at m =
    settle next_retry_at (record_failure error handler failed_at m)

unfoldable pub transition_of : OutboxMessage → OutboxFailureTransition
transition_of m = record {
  disposition = if is_dead_letter m.status then dead_lettered else retry_scheduled;
  retry_count = m.retry_count;
}

unfoldable pub mark_failed :
    Bytes
    → Bytes
    → Bytes
    → Bytes
    → TimePoint
    → TimePoint
    → OutboxStore
    → RepositoryResult (OutboxFailureTransition × OutboxStore)
mark_failed outbox_id claim_token handler error failed_at next_retry_at store =
    if length outbox_id == 0
      || length claim_token == 0
      || length handler == 0
      || ltb 128 (length handler)
      || length error == 0
      || ltb 1024 (length error)
    then failure validation_error
    else elim (find_claimed outbox_id claim_token store.outbox) [
      | none ↦ failure conflict
      | some m ↦ success (
        transition_of (fail handler error failed_at next_retry_at m),
        record store {
          outbox =
              update_claimed outbox_id claim_token (fail handler error failed_at next_retry_at)
                store.outbox;
        },
      )
    ]

unfoldable pub has_receipt : Bytes → Bytes → List (Bytes × Bytes) → Bool
has_receipt id handler [] = false
has_receipt id handler ((i, h) ∷ rest) =
    (bytes_eq i id && bytes_eq h handler) || has_receipt id handler rest

-- The loop of `list_unhandled_dead_letters`, with the places left.
unfoldable pub unhandled_loop :
    Bytes → List (Bytes × Bytes) → ℕ → List OutboxMessage → List OutboxMessage
unhandled_loop handler receipts left [] = []
unhandled_loop handler receipts zero (m ∷ ms) = []
unhandled_loop handler receipts (suc left) (m ∷ ms) =
    if not (is_dead_letter m.status) || has_receipt m.id handler receipts
    then unhandled_loop handler receipts (suc left) ms
    else m ∷ unhandled_loop handler receipts left ms

unfoldable pub list_unhandled_dead_letters : Bytes → ℕ → OutboxStore → List OutboxMessage
list_unhandled_dead_letters handler limit store =
    if length handler == 0 || ltb 128 (length handler) || limit == 0
    then []
    else unhandled_loop handler store.outbox_handler_receipts limit store.outbox
