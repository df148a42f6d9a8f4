-- ===== src/Infrastructure/Outbox/Moves.antt =====
-- include/pfh/infrastructure/persistence/in_memory_outbox_repository.h: what its loops do to each
-- message.
use personal_finance_hub.Prelude.{
  ℕ, zero, suc, ◌+◌, ◌%◌, ◌^◌, ◌≤◌, ◌≡◌, refl, inl, inr, true, List, [], ◌∷◌, length, Bytes, bytes,
  arith, Bool-cases, leb,
}
use personal_finance_hub.Application.Outbox.{
  OutboxMessage, OutboxStatus, pending, processing, published, failed, dead_letter, is_processing,
  is_dead_letter, is_waiting,
}
use personal_finance_hub.Domain.ExchangeRate.{TimePoint}
use personal_finance_hub.Infrastructure.Outbox.{
  clear_claim, record_failure, settle, is_stale, expire, recover_loop, is_due, claim, claim_loop,
  is_claimed, update_claimed, publish,
}
use personal_finance_hub.Infrastructure.Outbox.Lifecycle.{
  claimed, delivered, retried, exhausted, still, next, Advances, Advances-refl, AllAdvance,
  AllAdvance-refl,
}

processing_of : (s : OutboxStatus) → is_processing s ≡ true → s ≡ processing
processing_of pending h = cc
processing_of processing h = refl
processing_of published h = cc
processing_of failed h = cc
processing_of dead_letter h = cc

claim-Advances :
    (now : TimePoint) (worker_id : Bytes) (token : ℕ) (m : OutboxMessage)
    → is_waiting m.status ≡ true
    → Advances m (claim now worker_id token m)
unfolding claim
claim-Advances now worker_id token m h = record { event = refl; life = next (claimed h) still }

pub publish-Advances :
    (at : TimePoint) (m : OutboxMessage) → is_processing m.status ≡ true → Advances m (publish at m)
unfolding publish clear_claim
publish-Advances at m h = record {
  event = refl;
  life = rw (processing_of m.status h) (next delivered still);
}

pub settle-Advances :
    (error handler : Bytes) (at later : TimePoint) (m : OutboxMessage)
    → is_processing m.status ≡ true
    → Advances m (settle later (record_failure error handler at m))
unfolding settle record_failure clear_claim
settle-Advances error handler at later m h =
    let st = processing_of m.status h in
    elim (Bool-cases (leb m.max_retry_count (m.retry_count + 1))) [
      | inl spent ↦
          rw spent
            (record { event = refl; life = rw st (next (exhausted (ground (arith, spent))) still) })
      | inr left ↦
          rw left
            (record { event = refl; life = rw st (next (retried (ground (arith, left))) still) })
    ]

pub recover_loop-AllAdvance :
    (now stale_before : TimePoint) (ms : List OutboxMessage)
    → AllAdvance ms (recover_loop now stale_before ms).0
unfolding recover_loop is_stale expire
recover_loop-AllAdvance now stale_before [] = tt
recover_loop-AllAdvance now stale_before (m ∷ ms) =
    let rest = recover_loop-AllAdvance now stale_before ms in
    elim (Bool-cases (is_stale stale_before m)) [
      | inl stale ↦
          let e = expire now m in
          let moved : Advances m e =
            settle-Advances (bytes "processing lease expired") (bytes "outbox-lease") now now m
              (ground (arith, stale)) in
          elim (Bool-cases (is_dead_letter e.status)) [
            | inl dead ↦ rw (stale, dead) (moved, rest)
            | inr alive ↦ rw (stale, alive) (moved, rest)
          ]
      | inr fresh ↦ rw fresh (Advances-refl m, rest)
    ]

pub claim_loop-AllAdvance :
    (now : TimePoint) (worker_id : Bytes) (left token : ℕ) (ms : List OutboxMessage)
    → AllAdvance ms (claim_loop now worker_id left token ms).outbox
unfolding claim_loop is_due
claim_loop-AllAdvance now worker_id left token [] = tt
claim_loop-AllAdvance now worker_id zero token (m ∷ ms) = AllAdvance-refl (m ∷ ms)
claim_loop-AllAdvance now worker_id (suc left) token (m ∷ ms) = elim (Bool-cases (is_due now m)) [
  | inl due ↦ rw due (
    claim-Advances now worker_id token m (ground (arith, due)),
    claim_loop-AllAdvance now worker_id left ((token + 1) % 2 ^ 64) ms,
  )
  | inr idle ↦ rw idle (Advances-refl m, claim_loop-AllAdvance now worker_id (suc left) token ms)
]

pub claim_loop-length :
    (now : TimePoint) (worker_id : Bytes) (left token : ℕ) (ms : List OutboxMessage)
    → length (claim_loop now worker_id left token ms).claimed ≤ left
unfolding claim_loop
claim_loop-length now worker_id left token [] = omega arith
claim_loop-length now worker_id zero token (m ∷ ms) = omega arith
claim_loop-length now worker_id (suc left) token (m ∷ ms) = elim (Bool-cases (is_due now m)) [
  | inl due ↦ rw due (omega (arith, claim_loop-length now worker_id left ((token + 1) % 2 ^ 64) ms))
  | inr idle ↦ rw idle (claim_loop-length now worker_id (suc left) token ms)
]

pub update_claimed-AllAdvance :
    (id token : Bytes) (change : OutboxMessage → OutboxMessage) (ms : List OutboxMessage)
    → ((m : OutboxMessage) → is_processing m.status ≡ true → Advances m (change m))
    → AllAdvance ms (update_claimed id token change ms)
unfolding update_claimed is_claimed
update_claimed-AllAdvance id token change [] moves = tt
update_claimed-AllAdvance id token change (m ∷ ms) moves =
    elim (Bool-cases (is_claimed id token m)) [
      | inl hit ↦ rw hit (moves m (ground (arith, hit)), AllAdvance-refl ms)
      | inr miss ↦ rw miss (Advances-refl m, update_claimed-AllAdvance id token change ms moves)
    ]
