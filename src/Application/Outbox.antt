-- ===== src/Application/Outbox.antt =====
-- include/pfh/application/events/outbox_message.h: the messages of the transactional outbox.
use personal_finance_hub.Prelude.{ℕ, Bool, true, false, List, Bytes}
use personal_finance_hub.Prelude.Int.{pos}
use personal_finance_hub.Domain.ExchangeRate.{TimePoint}

pub data OutboxStatus : Type 0 where
  pending processing published failed dead_letter : OutboxStatus

-- The counts of retries start at 0 and 5 and never decrease.
pub record OutboxMessage : Type 0 where
  pub id : Bytes
  pub event_name : Bytes
  pub aggregate_type : Bytes
  pub aggregate_id : Bytes
  pub payload_json : Bytes
  pub status : OutboxStatus
  pub retry_count : ℕ
  pub max_retry_count : ℕ
  pub next_retry_at : TimePoint
  pub last_error : Bytes
  pub last_failed_handler : Bytes
  pub last_failed_at : TimePoint
  pub occurred_at : TimePoint
  pub created_at : TimePoint
  pub published_at : TimePoint
  pub locked_at : TimePoint
  pub locked_by : Bytes
  pub claim_token : Bytes

pub record OutboxClaimBatch : Type 0 where
  pub claimed : List OutboxMessage
  pub recovered_dead_letters : List OutboxMessage

pub data OutboxFailureDisposition : Type 0 where
  retry_scheduled dead_lettered : OutboxFailureDisposition

pub record OutboxFailureTransition : Type 0 where
  pub disposition : OutboxFailureDisposition
  pub retry_count : ℕ

abbrev pub is_processing : OutboxStatus → Bool
is_processing processing = true
is_processing _ = false

abbrev pub is_dead_letter : OutboxStatus → Bool
is_dead_letter dead_letter = true
is_dead_letter _ = false

-- Pending or Failed: a message that waits for its next attempt.
abbrev pub is_waiting : OutboxStatus → Bool
is_waiting pending = true
is_waiting failed = true
is_waiting _ = false

-- The default time point.
abbrev pub epoch : TimePoint
epoch = pos 0
