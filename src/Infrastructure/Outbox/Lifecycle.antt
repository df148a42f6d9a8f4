-- ===== src/Infrastructure/Outbox/Lifecycle.antt =====
-- The life of an outbox message as an abstract state machine: what
-- include/pfh/application/events/i_outbox_repository.h promises of every operation.
use personal_finance_hub.Prelude.{
  ℕ, ◌+◌, ◌≤◌, ◌<◌, ◌≡◌, refl, ap, ◌∙◌, Bool, true, false, List, [], ◌∷◌, Bytes, arith,
}
use personal_finance_hub.Application.Outbox.{
  OutboxMessage, OutboxStatus, pending, processing, published, failed, dead_letter, is_waiting,
}
use personal_finance_hub.Domain.ExchangeRate.{TimePoint}

-- One event in the life of a message with this limit of attempts: its status and the number of
-- failed attempts, before and after.
pub data Step (limit : ℕ) : OutboxStatus → ℕ → OutboxStatus → ℕ → Type 0 where
  claimed : {s : OutboxStatus} {n : ℕ} → is_waiting s ≡ true → Step limit s n processing n
  delivered : {n : ℕ} → Step limit processing n published n
  retried : {n : ℕ} → n + 1 < limit → Step limit processing n failed (n + 1)
  exhausted : {n : ℕ} → limit ≤ n + 1 → Step limit processing n dead_letter (n + 1)

-- A sequence of events.
pub data Life (limit : ℕ) : OutboxStatus → ℕ → OutboxStatus → ℕ → Type 0 where
  still : {s : OutboxStatus} {n : ℕ} → Life limit s n s n
  next :
      {s t u : OutboxStatus} {n m k : ℕ}
      → Step limit s n t m
      → Life limit t m u k
      → Life limit s n u k

pub Life-append :
    {limit : ℕ} {s t u : OutboxStatus} {n m k : ℕ}
    → Life limit s n t m
    → Life limit t m u k
    → Life limit s n u k
Life-append still later = later
Life-append (next step rest) later = next step (Life-append rest later)

-- What no operation changes: the event itself and its limit of attempts.
pub record OutboxEvent : Type 0 where
  pub id : Bytes
  pub event_name : Bytes
  pub aggregate_type : Bytes
  pub aggregate_id : Bytes
  pub payload_json : Bytes
  pub max_retry_count : ℕ
  pub occurred_at : TimePoint
  pub created_at : TimePoint

abbrev pub event_of : OutboxMessage → OutboxEvent
event_of m = record {
  id = m.id;
  event_name = m.event_name;
  aggregate_type = m.aggregate_type;
  aggregate_id = m.aggregate_id;
  payload_json = m.payload_json;
  max_retry_count = m.max_retry_count;
  occurred_at = m.occurred_at;
  created_at = m.created_at;
}

-- The first message became the second: the same event, further in its life.
pub record Advances (m m' : OutboxMessage) : Type 0 where
  pub event : event_of m' ≡ event_of m
  pub life : Life m.max_retry_count m.status m.retry_count m'.status m'.retry_count

pub Advances-refl : (m : OutboxMessage) → Advances m m
Advances-refl m = record { event = refl; life = still }

pub Advances-trans : (a b c : OutboxMessage) → Advances a b → Advances b c → Advances a c
Advances-trans a b c f g =
    let same : b.max_retry_count ≡ a.max_retry_count = ap (λ v. v.max_retry_count) f.event in
    record { event = g.event ∙ f.event; life = Life-append f.life (rw (← same) g.life) }

-- Message by message, in the same order.
abbrev pub AllAdvance : List OutboxMessage → List OutboxMessage → Type 0
AllAdvance [] [] = Unit
AllAdvance [] (y ∷ ys) = ⊥
AllAdvance (x ∷ xs) [] = ⊥
AllAdvance (x ∷ xs) (y ∷ ys) = Advances x y × AllAdvance xs ys

pub AllAdvance-refl : (xs : List OutboxMessage) → AllAdvance xs xs
AllAdvance-refl [] = tt
AllAdvance-refl (x ∷ xs) = (Advances-refl x, AllAdvance-refl xs)

pub AllAdvance-trans :
    (xs ys zs : List OutboxMessage) → AllAdvance xs ys → AllAdvance ys zs → AllAdvance xs zs
AllAdvance-trans [] [] [] f g = tt
AllAdvance-trans [] [] (z ∷ zs) f g = absurd g
AllAdvance-trans [] (y ∷ ys) zs f g = absurd f
AllAdvance-trans (x ∷ xs) [] zs f g = absurd f
AllAdvance-trans (x ∷ xs) (y ∷ ys) [] f g = absurd g
AllAdvance-trans (x ∷ xs) (y ∷ ys) (z ∷ zs) f g =
    (Advances-trans x y z f.0 g.0, AllAdvance-trans xs ys zs f.1 g.1)

-- A published message and a dead letter are final.
abbrev pub is_final : OutboxStatus → Bool
is_final published = true
is_final dead_letter = true
is_final _ = false

pub Life-final :
    {limit : ℕ} {s t : OutboxStatus} {n m : ℕ}
    → is_final s ≡ true
    → Life limit s n t m
    → (t ≡ s) × (m ≡ n)
Life-final h still = (refl, refl)
Life-final h (next step rest) = absurd (no_step h step)
  where
    no_step :
        {limit : ℕ} {s t : OutboxStatus} {n m : ℕ} → is_final s ≡ true → Step limit s n t m → ⊥
    no_step {s = pending} h step = cc
    no_step {s = failed} h step = cc
    no_step {s = processing} h step = cc
    no_step {s = published} h (claimed w) = cc
    no_step {s = dead_letter} h (claimed w) = cc

-- No message fails more often than its limit: a message with attempts left stays within it.
pub Life-bound :
    {limit : ℕ} {s t : OutboxStatus} {n m : ℕ} → n < limit → Life limit s n t m → m ≤ limit
Life-bound h still = omega arith
Life-bound h (next (claimed w) rest) = Life-bound h rest
Life-bound h (next delivered rest) = Life-bound h rest
Life-bound h (next (retried below) rest) = Life-bound below rest
Life-bound h (next (exhausted above) rest) =
    let (_, same) = Life-final refl rest in omega (arith, same)
