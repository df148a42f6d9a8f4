-- ===== src/Infrastructure/Outbox/History.antt =====
-- include/pfh/infrastructure/persistence/in_memory_outbox_repository.h: any sequence of
-- claim_due, mark_published and mark_failed, by any workers in any order. The operator's way back
-- for a dead letter, retry_dead_letter of in_memory_operations_repository.h, is not part of it.
use personal_finance_hub.Prelude.{
  ℕ, zero, suc, ◌≤◌, ◌<◌, ◌≡◌, refl, ap, true, List, [], ◌∷◌, Bytes, Option, none, some,
}
use personal_finance_hub.Prelude.Int.{ℤ}
use personal_finance_hub.Application.Outbox.{
  OutboxMessage, OutboxClaimBatch, OutboxFailureTransition,
}
use personal_finance_hub.Domain.ExchangeRate.{TimePoint}
use personal_finance_hub.Infrastructure.Repository.{success}
use personal_finance_hub.Infrastructure.Outbox.{OutboxStore, claim_due, mark_published, mark_failed}
use personal_finance_hub.Infrastructure.Outbox.Lifecycle.{
  Advances, AllAdvance, AllAdvance-refl, AllAdvance-trans, event_of, is_final, Life-final,
  Life-bound,
}
use personal_finance_hub.Infrastructure.Outbox.Refinement.{
  claim_due-refines, mark_published-refines, mark_failed-refines,
}

-- The store after some of these operations succeeded; a refused one leaves it as it is.
pub data History : OutboxStore → OutboxStore → Type 0 where
  start : {a : OutboxStore} → History a a
  claimed_due :
      {a b c : OutboxStore} (now : TimePoint) (timeout : ℤ) (size : ℕ) (worker : Bytes)
      (batch : OutboxClaimBatch)
      → claim_due now timeout size worker a ≡ success (batch, b)
      → History b c
      → History a c
  marked_published :
      {a b c : OutboxStore} (id token : Bytes) (at : TimePoint)
      → mark_published id token at a ≡ success (tt, b)
      → History b c
      → History a c
  marked_failed :
      {a b c : OutboxStore} (id token handler error : Bytes) (at later : TimePoint)
      (t : OutboxFailureTransition)
      → mark_failed id token handler error at later a ≡ success (t, b)
      → History b c
      → History a c

-- Whatever the workers do, no message is lost, added or moved, its event stays the same, and it
-- only goes forward in its life.
pub History-refines : {a b : OutboxStore} → History a b → AllAdvance a.outbox b.outbox
History-refines {a = a} start = AllAdvance-refl a.outbox
History-refines {a = a} {b = c} (claimed_due {b = b} now timeout size worker batch e rest) =
    AllAdvance-trans a.outbox b.outbox c.outbox
      (claim_due-refines now timeout size worker a b batch e).0 (History-refines rest)
History-refines {a = a} {b = c} (marked_published {b = b} id token at e rest) =
    AllAdvance-trans a.outbox b.outbox c.outbox (mark_published-refines id token at a b e).0
      (History-refines rest)
History-refines {a = a} {b = c} (marked_failed {b = b} id token handler error at later t e rest) =
    AllAdvance-trans a.outbox b.outbox c.outbox
      (mark_failed-refines id token handler error at later a b t e).0 (History-refines rest)

-- The message at a position.
abbrev pub get_elem? {ℓ} : {A : Type ℓ} → List A → ℕ → Option A
get_elem? [] n = none
get_elem? (x ∷ xs) zero = some x
get_elem? (x ∷ xs) (suc n) = get_elem? xs n

AllAdvance-at :
    (xs ys : List OutboxMessage) (n : ℕ) (m : OutboxMessage)
    → AllAdvance xs ys
    → get_elem? xs n ≡ some m
    → (m' : OutboxMessage) × (get_elem? ys n ≡ some m') × Advances m m'
AllAdvance-at [] ys n m f e = cc
AllAdvance-at (x ∷ xs) [] n m f e = absurd f
AllAdvance-at (x ∷ xs) (y ∷ ys) zero m f e = let same : x ≡ m = cc in (y, refl, rw (← same) f.0)
AllAdvance-at (x ∷ xs) (y ∷ ys) (suc n) m f e = AllAdvance-at xs ys n m f.1 e

-- A message that is published or a dead letter stays so, with the same event and the same count of
-- failures, through any sequence of claim_due, mark_published and mark_failed. The operator's
-- retry_dead_letter, which gives a dead letter new attempts, is not among them.
pub History-final :
    {a b : OutboxStore} (n : ℕ) (m : OutboxMessage)
    → History a b
    → get_elem? a.outbox n ≡ some m
    → is_final m.status ≡ true
    → (m' : OutboxMessage) × (get_elem? b.outbox n ≡ some m')
      × (event_of m' ≡ event_of m)
      × (m'.status ≡ m.status)
      × (m'.retry_count ≡ m.retry_count)
History-final {a = a} {b = b} n m work at final =
    let (m', at', moved) = AllAdvance-at a.outbox b.outbox n m (History-refines work) at in
    let (status, count) = Life-final final moved.life in (m', at', moved.event, status, count)

-- However often a message is claimed, by whatever workers, it fails at most as often as its limit,
-- if it had attempts left before.
pub History-bound :
    {a b : OutboxStore} (n : ℕ) (m : OutboxMessage)
    → History a b
    → get_elem? a.outbox n ≡ some m
    → m.retry_count < m.max_retry_count
    → (m' : OutboxMessage) × (get_elem? b.outbox n ≡ some m')
      × (m'.retry_count ≤ m'.max_retry_count)
History-bound {a = a} {b = b} n m work at left =
    let (m', at', moved) = AllAdvance-at a.outbox b.outbox n m (History-refines work) at in
    let limit = ap (λ v. v.max_retry_count) moved.event in
    (m', at', rw limit (Life-bound left moved.life))
