-- ===== src/Infrastructure/Store.antt =====
-- include/pfh/infrastructure/persistence/in_memory_store.h: the store that the in-memory
-- repositories share, and the writes staged by the transaction that runs. The signed counters are
-- unbounded; the job leases are in Infrastructure/Lease.antt.
use personal_finance_hub.Prelude.{ℕ, Bool, Option, List, [], Bytes}
use personal_finance_hub.Prelude.Int.{ℤ}
use personal_finance_hub.Prelude.IdMap.{IdMap}
use personal_finance_hub.Domain.Account.{Account}
use personal_finance_hub.Domain.AuditLog.{AuditLogEntry}
use personal_finance_hub.Domain.Category.{Category, SystemCategoryTemplate}
use personal_finance_hub.Domain.Currency.{Currency}
use personal_finance_hub.Domain.ExchangeRate.{TimePoint, ExchangeRate}
use personal_finance_hub.Domain.Ids.{TypedId}
use personal_finance_hub.Domain.Money.{Money}
use personal_finance_hub.Domain.Tag.{Tag}
use personal_finance_hub.Domain.Transaction.{Transaction}
use personal_finance_hub.Domain.User.{User, UserPreference}
use personal_finance_hub.Application.AuthModels.{RefreshTokenRecord}
use personal_finance_hub.Application.Outbox.{OutboxMessage}

pub record InMemoryUserRecord : Type 0 where
  pub user : User
  pub password_hash : Bytes
  pub base_currency : Currency
  pub categories_initialized : Bool

pub record InMemoryBalanceCache : Type 0 where
  pub balance : Money
  pub last_transaction_id : TypedId
  pub source_version : ℤ
  pub cache_version : ℤ
  pub updated_at : TimePoint

pub record InMemoryTransferGroup : Type 0 where
  pub id : TypedId
  pub user_id : TypedId
  pub transfer_mode : ℤ
  pub rate : Option ExchangeRate
  pub note : Bytes
  pub created_at : TimePoint

pub record InMemoryRevokedAccessToken : Type 0 where
  pub issuer : Bytes
  pub token_id : Bytes
  pub session_id : Bytes
  pub expires_at : TimePoint
  pub revoked_at : TimePoint

pub record InMemoryRevokedSession : Type 0 where
  pub user_id : TypedId
  pub session_id : Bytes
  pub expires_at : TimePoint
  pub revoked_at : TimePoint
  pub reason : Bytes

pub record InMemoryTransactionCorrection : Type 0 where
  pub user_id : TypedId
  pub original_transaction_id : TypedId
  pub replacement_transaction_id : TypedId
  pub corrected_at : TimePoint

pub record InMemoryTransferCorrection : Type 0 where
  pub user_id : TypedId
  pub original_group_id : TypedId
  pub replacement_group_id : TypedId
  pub corrected_at : TimePoint

pub record InMemoryIdempotencyRecord : Type 0 where
  pub user_id : TypedId
  pub operation : Bytes
  pub key : Bytes
  pub request_fingerprint : Bytes
  pub completed : Bool
  pub response_values : List (Bytes × Bytes)
  pub created_at : TimePoint
  pub expires_at : TimePoint

pub record InMemoryOutboxRetryCommand : Type 0 where
  pub operator_user_id : TypedId
  pub idempotency_key : Bytes
  pub outbox_id : Bytes
  pub trace_id : Bytes
  pub created_at : TimePoint

-- The members that are permanent: what is committed.
pub record Tables : Type 0 where
  pub users : IdMap InMemoryUserRecord
  pub preferences : IdMap UserPreference
  pub accounts : IdMap Account
  pub transactions : IdMap Transaction
  pub categories : IdMap Category
  pub category_templates : IdMap SystemCategoryTemplate
  pub tags : IdMap Tag
  pub transaction_tag_relations : IdMap (List ℤ)
  pub transfer_groups : IdMap InMemoryTransferGroup
  pub transfer_corrections : IdMap InMemoryTransferCorrection
  pub transaction_corrections : IdMap InMemoryTransactionCorrection
  pub balance_cache : IdMap InMemoryBalanceCache
  pub exchange_rates : IdMap ExchangeRate
  pub outbox : List OutboxMessage
  pub refresh_tokens : List (Bytes × RefreshTokenRecord)
  pub revoked_access_tokens : List (Bytes × InMemoryRevokedAccessToken)
  pub revoked_sessions : List (Bytes × InMemoryRevokedSession)
  pub audit_logs : List AuditLogEntry
  pub outbox_handler_receipts : List (Bytes × Bytes)
  pub idempotency : List (Bytes × InMemoryIdempotencyRecord)
  pub outbox_retry_commands : List (Bytes × InMemoryOutboxRetryCommand)

-- The members whose names begin with `staged_`.
pub record Staging : Type 0 where
  pub staged_users : IdMap InMemoryUserRecord
  pub staged_preferences : IdMap UserPreference
  pub staged_accounts : IdMap Account
  pub staged_transactions : IdMap Transaction
  pub staged_categories : IdMap Category
  pub staged_tags : IdMap Tag
  pub staged_transaction_tag_relations : IdMap (List ℤ)
  pub staged_transfer_groups : IdMap InMemoryTransferGroup
  pub staged_transfer_corrections : IdMap InMemoryTransferCorrection
  pub staged_transaction_corrections : IdMap InMemoryTransactionCorrection
  pub staged_balance_cache : IdMap InMemoryBalanceCache
  pub staged_exchange_rates : IdMap ExchangeRate
  pub staged_outbox : List OutboxMessage
  pub staged_refresh_tokens : List (Bytes × RefreshTokenRecord)
  pub staged_revoked_access_tokens : List (Bytes × InMemoryRevokedAccessToken)
  pub staged_revoked_sessions : List (Bytes × InMemoryRevokedSession)
  pub staged_audit_logs : List AuditLogEntry
  pub staged_idempotency : List (Bytes × InMemoryIdempotencyRecord)
  pub staged_deleted_idempotency : List Bytes
  pub staged_deleted_accounts : List ℤ
  pub staged_deleted_transactions : List ℤ
  pub staged_deleted_balance_cache : List ℤ
  pub staged_deleted_transfer_groups : List ℤ
  pub staged_deleted_transfer_corrections : List ℤ
  pub staged_deleted_transaction_corrections : List ℤ
  pub staged_deleted_categories : List ℤ
  pub staged_deleted_tags : List ℤ

-- An event of the domain, as the outbox sees it.
pub record DomainEvent : Type 0 where
  pub event_name : Bytes
  pub occurred_at : TimePoint
  pub aggregate_type : Bytes
  pub aggregate_id : Bytes
  pub payload_json : Bytes

-- The store, with the pending events of the unit of work that runs on it.
pub record InMemoryStore : Type 0 where
  pub next_user_id : ℤ
  pub next_account_id : ℤ
  pub next_transaction_id : ℤ
  pub next_transfer_group_id : ℤ
  pub next_exchange_rate_id : ℤ
  pub next_tx_context_id : ℕ
  pub next_outbox_id : ℤ
  pub next_outbox_claim_token : ℕ
  pub next_refresh_token_id : ℤ
  pub next_audit_log_id : ℤ
  pub next_category_id : ℤ
  pub next_tag_id : ℤ
  pub tables : Tables
  pub in_transaction : Bool
  pub staging : Staging
  pub pending_events : List DomainEvent

-- Every staging area after `clear()`.
unfoldable pub no_staging : Staging
no_staging = record {
  staged_users = [];
  staged_preferences = [];
  staged_accounts = [];
  staged_transactions = [];
  staged_categories = [];
  staged_tags = [];
  staged_transaction_tag_relations = [];
  staged_transfer_groups = [];
  staged_transfer_corrections = [];
  staged_transaction_corrections = [];
  staged_balance_cache = [];
  staged_exchange_rates = [];
  staged_outbox = [];
  staged_refresh_tokens = [];
  staged_revoked_access_tokens = [];
  staged_revoked_sessions = [];
  staged_audit_logs = [];
  staged_idempotency = [];
  staged_deleted_idempotency = [];
  staged_deleted_accounts = [];
  staged_deleted_transactions = [];
  staged_deleted_balance_cache = [];
  staged_deleted_transfer_groups = [];
  staged_deleted_transfer_corrections = [];
  staged_deleted_transaction_corrections = [];
  staged_deleted_categories = [];
  staged_deleted_tags = [];
}
