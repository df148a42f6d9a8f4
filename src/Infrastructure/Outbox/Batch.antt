-- ===== src/Infrastructure/Outbox/Batch.antt =====
-- include/pfh/infrastructure/persistence/in_memory_outbox_repository.h: the batch that a
-- well-formed claim gets.
use personal_finance_hub.Prelude.{
  ℕ, ◌≤◌, ◌<◌, ◌≡◌, refl, true, false, not, ◌||◌, length, Bytes, arith, All, ltb, ◌==◌,
}
use personal_finance_hub.Prelude.Int.{ℤ, pos, ◌-ℤ◌, ltb_ℤ}
use personal_finance_hub.Application.Outbox.{OutboxClaimBatch}
use personal_finance_hub.Domain.ExchangeRate.{TimePoint}
use personal_finance_hub.Infrastructure.Repository.{success}
use personal_finance_hub.Infrastructure.Outbox.{OutboxStore, recover_loop, claim_loop, claim_due}
use personal_finance_hub.Infrastructure.Outbox.Claims.{
  Distinct, HasId, IsReady, AllAdvance-Distinct, AllAdvance-HasId, claim_loop-IsReady,
  claim_loop-Distinct,
}
use personal_finance_hub.Infrastructure.Outbox.Moves.{recover_loop-AllAdvance}

-- Of an outbox whose messages have distinct, non-empty ids, a well-formed claim gets a batch of
-- distinct messages that the worker then owns.
pub claim_due-IsReady :
    (now : TimePoint) (timeout : ℤ) (batch_size : ℕ) (worker_id : Bytes) (store : OutboxStore)
    → ltb_ℤ (pos 0) timeout ≡ true
    → 0 < batch_size
    → 0 < length worker_id
    → length worker_id ≤ 128
    → Distinct store.outbox
    → All HasId store.outbox
    → (batch : OutboxClaimBatch) × (after : OutboxStore) × (claim_due now timeout batch_size
          worker_id store
        ≡ success (batch, after))
      × Distinct batch.claimed
      × All (IsReady after.outbox) batch.claimed
unfolding claim_due
claim_due-IsReady now timeout batch_size worker_id store h1 h2 h3 h4 distinct ids =
    let rec = recover_loop now (now -ℤ timeout) store.outbox in
    let token = store.next_outbox_claim_token in
    let loop = claim_loop now worker_id batch_size token rec.0 in
    let moved = recover_loop-AllAdvance now (now -ℤ timeout) store.outbox in
    let valid : (not (ltb_ℤ (pos 0) timeout)
          || batch_size == 0
          || length worker_id == 0
          || ltb 128 (length worker_id))
        ≡ false =
      ground (arith, h1) in
    (
      record { claimed = loop.claimed; recovered_dead_letters = rec.1 },
      record store { outbox = loop.outbox; next_outbox_claim_token = loop.next_token },
      rw (claim_due, valid) refl,
      claim_loop-Distinct now worker_id batch_size token rec.0
          (AllAdvance-Distinct store.outbox rec.0 moved distinct),
      claim_loop-IsReady now worker_id batch_size token rec.0
          (AllAdvance-HasId store.outbox rec.0 moved ids),
    )
