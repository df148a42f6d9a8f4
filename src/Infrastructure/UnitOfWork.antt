-- ===== src/Infrastructure/UnitOfWork.antt =====
-- include/pfh/infrastructure/persistence/in_memory_unit_of_work.h and
-- include/pfh/infrastructure/persistence/in_memory_transaction_context.h: an action runs as one
-- transaction, whose staged writes and events are committed together or discarded.
pub mod Atomicity
use personal_finance_hub.Prelude.{
  ℕ, ◌+◌, ◌%◌, ◌^◌, Bool, true, false, not, Option, none, some, List, [], ◌∷◌, ◌++◌, Bytes, bytes,
  if◌then◌else◌,
}
use personal_finance_hub.Prelude.Int.{ℤ, pos, ◌+ℤ◌}
use personal_finance_hub.Prelude.IdMap
use personal_finance_hub.Prelude.IdMap.{IdMap}
use personal_finance_hub.Prelude.Dict
use personal_finance_hub.Domain.Ids.{TypedId, is_valid, to_string}
use personal_finance_hub.Application.Outbox.{OutboxMessage, pending, epoch}
use personal_finance_hub.Infrastructure.Repository.{
  RepositoryResult, success, failure, validation_error, conflict, database_error,
}
use personal_finance_hub.Infrastructure.Store.{
  InMemoryStore, Tables, Staging, DomainEvent, no_staging,
}
use personal_finance_hub.Infrastructure.Action.{Action}

pub record TransactionContext : Type 0 where
  pub id : ℕ
  pub tenant_user_id : Option TypedId

-- The tenant of a transaction is bound at most once.
unfoldable pub bind_tenant_once : TypedId → TransactionContext → RepositoryResult TransactionContext
bind_tenant_once user_id tx =
    if not (is_valid user_id)
    then failure validation_error
    else if IdMap.has_value tx.tenant_user_id
    then failure conflict
    else success (record tx { tenant_user_id = some user_id })

-- How an action ends: it returns a result, or throws.
pub data Outcome : Type 0 where
  returned : RepositoryResult (Unit {0}) → Outcome
  threw : Outcome

-- The handler of `catch (...)`.
unfoldable pub caught : Outcome → RepositoryResult (Unit {0})
caught (returned r) = r
caught threw = failure database_error

unfoldable pub register_event : DomainEvent → InMemoryStore → InMemoryStore
register_event event s = record s { pending_events = s.pending_events ++ event ∷ [] }

unfoldable pub begin : InMemoryStore → InMemoryStore
begin s = record s {
  pending_events = [];
  in_transaction = true;
  staging = no_staging;
  next_tx_context_id = (s.next_tx_context_id + 1) % 2 ^ 64;
}

-- The end of a transaction, whichever way it went.
unfoldable pub finish : InMemoryStore → InMemoryStore
finish s = record s { in_transaction = false; staging = no_staging; pending_events = [] }

-- The outbox row of an event.
unfoldable pub outbox_record : ℤ → DomainEvent → OutboxMessage
outbox_record n event = record {
  id = bytes "outbox-" ++ to_string n;
  event_name = event.event_name;
  aggregate_type = event.aggregate_type;
  aggregate_id = event.aggregate_id;
  payload_json = event.payload_json;
  status = pending;
  retry_count = 0;
  max_retry_count = 5;
  next_retry_at = event.occurred_at;
  last_error = [];
  last_failed_handler = [];
  last_failed_at = epoch;
  occurred_at = event.occurred_at;
  created_at = event.occurred_at;
  published_at = epoch;
  locked_at = epoch;
  locked_by = [];
  claim_token = [];
}

-- The rows of the pending events, numbered from `next_outbox_id`.
unfoldable pub outbox_records : ℤ → List DomainEvent → List OutboxMessage
outbox_records n [] = []
outbox_records n (event ∷ events) = outbox_record n event ∷ outbox_records (n +ℤ pos 1) events

unfoldable pub advance : ℤ → List DomainEvent → ℤ
advance n [] = n
advance n (event ∷ events) = advance (n +ℤ pos 1) events

unfoldable pub stage_events : InMemoryStore → InMemoryStore
stage_events s = record s {
  next_outbox_id = advance s.next_outbox_id s.pending_events;
  staging = record s.staging {
    staged_outbox = s.staging.staged_outbox ++ outbox_records s.next_outbox_id s.pending_events;
  };
}

-- An empty set of tags erases the relations of its transaction.
unfoldable pub merge_relations : IdMap (List ℤ) → IdMap (List ℤ) → IdMap (List ℤ)
merge_relations [] m = m
merge_relations ((id, []) ∷ staged) m = merge_relations staged (IdMap.erase id m)
merge_relations ((id, t ∷ tags) ∷ staged) m =
    merge_relations staged (IdMap.insert_or_assign id (t ∷ tags) m)

-- The staged writes, then the staged deletions; of idempotency records the deletions come first.
unfoldable pub commit_tables : Staging → Tables → Tables
commit_tables g t = record t {
  users = IdMap.insert_all g.staged_users t.users;
  preferences = IdMap.insert_all g.staged_preferences t.preferences;
  accounts =
      IdMap.erase_all g.staged_deleted_accounts (IdMap.insert_all g.staged_accounts t.accounts);
  transactions =
      IdMap.erase_all g.staged_deleted_transactions
        (IdMap.insert_all g.staged_transactions t.transactions);
  categories =
      IdMap.erase_all g.staged_deleted_categories
        (IdMap.insert_all g.staged_categories t.categories);
  tags = IdMap.erase_all g.staged_deleted_tags (IdMap.insert_all g.staged_tags t.tags);
  transaction_tag_relations =
      merge_relations g.staged_transaction_tag_relations t.transaction_tag_relations;
  transfer_groups =
      IdMap.erase_all g.staged_deleted_transfer_groups
        (IdMap.insert_all g.staged_transfer_groups t.transfer_groups);
  transfer_corrections =
      IdMap.erase_all g.staged_deleted_transfer_corrections
        (IdMap.insert_all g.staged_transfer_corrections t.transfer_corrections);
  transaction_corrections =
      IdMap.erase_all g.staged_deleted_transaction_corrections
        (IdMap.insert_all g.staged_transaction_corrections t.transaction_corrections);
  balance_cache =
      IdMap.erase_all g.staged_deleted_balance_cache
        (IdMap.insert_all g.staged_balance_cache t.balance_cache);
  exchange_rates = IdMap.insert_all g.staged_exchange_rates t.exchange_rates;
  outbox = t.outbox ++ g.staged_outbox;
  refresh_tokens = Dict.insert_all g.staged_refresh_tokens t.refresh_tokens;
  revoked_access_tokens = Dict.insert_all g.staged_revoked_access_tokens t.revoked_access_tokens;
  revoked_sessions = Dict.insert_all g.staged_revoked_sessions t.revoked_sessions;
  audit_logs = t.audit_logs ++ g.staged_audit_logs;
  idempotency =
      Dict.insert_all g.staged_idempotency
        (Dict.erase_all g.staged_deleted_idempotency t.idempotency);
}

unfoldable pub commit : InMemoryStore → InMemoryStore
commit s = record s { tables = commit_tables s.staging s.tables }

unfoldable pub close :
    InMemoryStore → RepositoryResult (Unit {0}) → InMemoryStore × RepositoryResult (Unit {0})
close s (failure e) = (finish s, failure e)
close s (success u) = (finish (commit (stage_events s)), success tt)

unfoldable pub run_transaction :
    Option TypedId
    → (TransactionContext → InMemoryStore → InMemoryStore × Outcome)
    → Action (Unit {0})
run_transaction tenant_user_id action s =
    let (s', outcome) =
      action (record { id = s.next_tx_context_id; tenant_user_id = tenant_user_id }) (begin s) in
    if s.in_transaction then (s, failure database_error) else close s' (caught outcome)

-- An action that returns, as the argument of `run_transaction`.
abbrev pub returning :
    (TransactionContext → Action (Unit {0}))
    → TransactionContext
    → InMemoryStore
    → InMemoryStore × Outcome
returning action tx s = let (s', r) = action tx s in (s', returned r)

unfoldable pub execute_in_transaction :
    Option TypedId
    → (TransactionContext → InMemoryStore → InMemoryStore × Outcome)
    → Action (Unit {0})
execute_in_transaction tenant_user_id action = run_transaction tenant_user_id action

-- A bootstrap transaction starts without a tenant.
unfoldable pub execute_bootstrap_transaction :
    Option TypedId
    → (TransactionContext → InMemoryStore → InMemoryStore × Outcome)
    → Action (Unit {0})
execute_bootstrap_transaction tenant_user_id action s =
    if IdMap.has_value tenant_user_id
    then (s, failure validation_error)
    else run_transaction tenant_user_id action s
