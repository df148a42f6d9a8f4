-- ===== src/Infrastructure/Scenarios.antt =====
-- Runs of units of work over the in-memory store at concrete values, and the data of those of the
-- repositories.
mod Ledger
mod Wallets
mod Services
use personal_finance_hub.Prelude.{
  ◌≡◌, refl, Bool, true, false, Option, none, some, List, [], ◌∷◌, Bytes, bytes, bytes_eq, find,
  insert_or_assign, arith,
}
use personal_finance_hub.Prelude.Int.{ℤ, pos, negsuc, ◌+ℤ◌}
use personal_finance_hub.Prelude.Dict
use personal_finance_hub.Prelude.IdMap
use personal_finance_hub.Domain.Account.{Account, AccountType, cash}
use personal_finance_hub.Domain.Decimal.Text.{u128_to_string, digits_loop}
use personal_finance_hub.Domain.Ids.{TypedId, no_id, to_string}
use personal_finance_hub.Domain.Transaction.{
  Transaction, TransactionType, income, expense, transfer,
}
use personal_finance_hub.Domain.User.{User, UserRole}
use personal_finance_hub.Application.Outbox.{OutboxMessage}
use personal_finance_hub.Infrastructure.Repository.{
  RepositoryResult, success, failure, conflict, not_found, database_error,
}
use personal_finance_hub.Infrastructure.Store.{
  InMemoryStore, Tables, DomainEvent, InMemoryUserRecord, no_staging,
}
use personal_finance_hub.Infrastructure.Action.{Action, pure, ◌>>=◌, ◌>>◌}
use personal_finance_hub.Domain.Balance.{BalanceSnapshot}
use personal_finance_hub.Domain.Decimal
use personal_finance_hub.Domain.Money
use personal_finance_hub.Domain.Transfer.{TransferAggregate, outgoing_and_incoming}
use personal_finance_hub.Infrastructure.Accounts
use personal_finance_hub.Infrastructure.Accounts.{find_by_id_for_user}
use personal_finance_hub.Infrastructure.Accounts.Locking
use personal_finance_hub.Infrastructure.Accounts.Locking.{save-conflict}
use personal_finance_hub.Infrastructure.Accounts.Ownership.{find_by_id_for_user-owned}
use personal_finance_hub.Infrastructure.Accounts.Balances.{balance_of, last_tx_id}
use personal_finance_hub.Infrastructure.Accounts.Balances.Coherence.{IsCoherent}
use personal_finance_hub.Infrastructure.Accounts.Balances.Exact.{
  balance_of-exact, balance_of-IsCoherent,
}
use personal_finance_hub.Infrastructure.Accounts.Balances.Invalidated.{
  committed, uncached-IsCoherent, write-IsCoherent,
}
use personal_finance_hub.Infrastructure.Transactions
use personal_finance_hub.Infrastructure.Transactions.{
  find_by_account, filter, of_account, merge_transactions,
}
use personal_finance_hub.Infrastructure.Transactions.Query.{find_by_id-commit}
use personal_finance_hub.Infrastructure.Transactions.Save.{stage_transaction, save_single}
use personal_finance_hub.Infrastructure.Transactions.Save.Stored.{save_single-ok}
use personal_finance_hub.Infrastructure.Transactions.Save.Signs.{HasSigns}
use personal_finance_hub.Infrastructure.Transactions.Ledger.{
  LedgerWork, LedgerWrite, single, delete, run_ledger, run_ledger-HasSigns,
}
use personal_finance_hub.Infrastructure.Transactions.Transfers.{
  save_transfer, TransferPersistResult,
}
use personal_finance_hub.Infrastructure.Transactions.Transfers.Legs.{IsLeg, save_transfer-legs}
use personal_finance_hub.Infrastructure.UnitOfWork
use personal_finance_hub.Infrastructure.UnitOfWork.{
  TransactionContext, Outcome, returned, threw, begin, finish, commit, commit_tables, stage_events,
  run_transaction, register_event, close, caught, outbox_record, outbox_records,
}
use personal_finance_hub.Infrastructure.UnitOfWork.Atomicity.{
  IsIdle, TellOf, run_transaction-failed, run_transaction-outbox, run_transaction-IsIdle,
}
use personal_finance_hub.Infrastructure.Idempotency
use personal_finance_hub.Infrastructure.Idempotency.{
  Request, make_key, has_tenant, visible, begin_found, complete, complete_found, stage_record,
  pending_record, fresh, answer,
}
use personal_finance_hub.Infrastructure.Idempotency.Once.{idempotent, IsApart}
use personal_finance_hub.Infrastructure.Idempotency.Repeated.{next, idempotent-once}

abbrev pub cny : Bytes
cny = bytes "CNY"

-- Amounts are in units of 10^-10: twelve yuan.
abbrev pub twelve : ℤ
twelve = pos 120000000000

abbrev pub wallet : Account
wallet = record {
  id = pos 10;
  owner = pos 1;
  name = bytes "wallet";
  type = cash;
  subtype = [];
  currency = cny;
  description = [];
  is_archived = false;
  archived_at = none;
  created_at = pos 5;
  updated_at = pos 5;
  version = pos 1;
  category_override = none;
}

abbrev pub savings_account : Account
savings_account = record wallet { id = pos 11; name = bytes "savings" }

abbrev pub salary : Transaction
salary = record {
  id = pos 20;
  user_id = pos 1;
  account_id = pos 10;
  amount = record { amount = twelve; currency = cny };
  type = income;
  occurred_at = pos 6;
  description = bytes "salary";
  category_id = none;
  transfer_group_id = none;
  created_at = pos 6;
  deleted_at = none;
}

-- A new expense, as a client sends it.
abbrev pub lunch : Transaction
lunch = record salary {
  id = no_id;
  type = expense;
  description = bytes "lunch";
  occurred_at = pos 7;
}

abbrev pub owner : InMemoryUserRecord
owner = record {
  user = record { id = pos 1; username = bytes "ann"; role = UserRole.user };
  password_hash = [];
  base_currency = cny;
  categories_initialized = true;
}

abbrev pub tables : Tables
tables = record {
  users = (pos 1, owner) ∷ [];
  preferences = [];
  accounts = (pos 10, wallet) ∷ (pos 11, savings_account) ∷ [];
  transactions = (pos 20, salary) ∷ [];
  categories = [];
  category_templates = [];
  tags = [];
  transaction_tag_relations = [];
  transfer_groups = [];
  transfer_corrections = [];
  transaction_corrections = [];
  balance_cache = [];
  exchange_rates = [];
  outbox = [];
  refresh_tokens = [];
  revoked_access_tokens = [];
  revoked_sessions = [];
  audit_logs = [];
  outbox_handler_receipts = [];
  idempotency = [];
  outbox_retry_commands = [];
}

abbrev pub household : InMemoryStore
household = record {
  next_user_id = pos 2;
  next_account_id = pos 12;
  next_transaction_id = pos 21;
  next_transfer_group_id = pos 1;
  next_exchange_rate_id = pos 1;
  next_tx_context_id = 1;
  next_outbox_id = pos 1;
  next_outbox_claim_token = 1;
  next_refresh_token_id = pos 1;
  next_audit_log_id = pos 1;
  next_category_id = pos 1;
  next_tag_id = pos 1;
  tables = tables;
  in_transaction = false;
  staging = no_staging;
  pending_events = [];
}

abbrev pub ann : TransactionContext
ann = record { id = 1; tenant_user_id = some (pos 1) }

abbrev pub created : DomainEvent
created = record {
  event_name = bytes "TransactionCreated";
  occurred_at = pos 7;
  aggregate_type = bytes "Transaction";
  aggregate_id = bytes "21";
  payload_json = bytes "{}";
}

-- An action that registers an event and throws.
abbrev pub throwing : TransactionContext → InMemoryStore → InMemoryStore × Outcome
throwing tx s = (register_event created s, threw)

run_transaction-failed_example :
    ((run_transaction (some (pos 1)) throwing household).0.tables ≡ tables)
    × ((run_transaction (some (pos 1)) throwing household).0.in_transaction ≡ false)
unfolding run_transaction register_event close caught begin
run_transaction-failed_example =
    run_transaction-failed (some (pos 1)) throwing (λ tx s. refl) household database_error refl

-- Two events: the one above and one with another name.
abbrev pub announcing_both : TransactionContext → InMemoryStore → InMemoryStore × Outcome
announcing_both tx s = (
  register_event (record created { event_name = bytes "Renamed" }) (register_event created s),
  returned (success tt),
)

run_transaction-outbox_example :
    (added : List OutboxMessage) × ((run_transaction
        (some (pos 1))
        announcing_both
        household).0.tables.outbox
      ≡ added)
    × TellOf (pos 1) (created ∷ record created { event_name = bytes "Renamed" } ∷ []) added
unfolding run_transaction register_event close caught begin
run_transaction-outbox_example =
    run_transaction-outbox (some (pos 1)) announcing_both (λ tx s. refl) (λ tx s. refl) household
      refl

abbrev pub payment : Request
payment = record {
  user_id = pos 1;
  operation = bytes "create";
  key = bytes "k1";
  request_fingerprint = bytes "f1";
}

abbrev pub response : List (Bytes × Bytes)
response = (bytes "id", bytes "21") ∷ []

abbrev pub responding : TransactionContext → Action (List (Bytes × Bytes))
responding tx = pure response

abbrev pub idle_work : TransactionContext → Action (List (Bytes × Bytes))
idle_work tx = pure []

abbrev pub first_run : InMemoryStore
first_run = (idempotent payment (pos 100) (pos 200) responding ann (begin household)).0

idempotent-once_example :
    idempotent payment (pos 150) (pos 250) idle_work ann (next first_run)
    ≡ (next first_run, success response)
unfolding idempotent ◌>>=◌ Idempotency.begin begin_found complete complete_found visible has_tenant
    make_key to_string u128_to_string digits_loop bytes_eq stage_record pending_record fresh begin
    no_staging Dict.find Dict.contains Dict.emplace Dict.insert_or_assign Dict.elem
idempotent-once_example =
    idempotent-once payment (pos 100) (pos 200) responding (λ tx. record { staged = λ s. refl }) ann
      (begin household) first_run response refl tt refl (pos 150) (pos 250) (bytes "f1") idle_work
      ann refl refl
