-- ===== src/Lib.antt =====
-- Verification library of Personal Finance Hub.
--
-- The program keeps the accounts, transactions and transfers of its users, in several currencies.
-- Its domain layer computes with fixed-point decimals (value * 10^10 in a signed 128-bit integer),
-- with amounts in a currency and with exchange rates; it builds the two legs of a transfer with its
-- fee, checks that an aggregate is consistent, and replays the transactions of an account to a
-- balance. The layers above store what the domain accepts.
--
-- Files and code (paths from the repository's root):
--   Prelude and its children: numbers, lists, texts, integers over the native numbers, and maps
--     ordered by an integer (IdMap) or keyed by a text (Dict).
--   Domain/Error: include/pfh/domain/domain_error.h. An error is its DomainErrorCode; the messages
--     are not modelled. `reject_if` is an early return, `>>=` the test of a std::expected.
--   Domain/Decimal: include/pfh/domain/decimal.h and src/domain/decimal.cpp (arithmetic, rounding,
--     the NUMERIC column tests); Domain/Decimal/Text: parse, to_string and the strict parsers.
--   Domain/Currency: include/pfh/domain/currency.h, src/domain/currency.cpp.
--   Domain/Money: include/pfh/domain/money.h, src/domain/money.cpp.
--   Domain/ExchangeRate: include/pfh/domain/exchange_rate.h, src/domain/exchange_rate.cpp and
--     src/domain/currency_conversion_service.cpp.
--   Domain/Ids, Domain/Account, Domain/Transaction: include/pfh/domain/typed_id.h, account.h,
--     transaction.h and the board rule of category.h.
--   Domain/Category, Domain/User, Domain/Tag, Domain/AuditLog: category.h, user.h,
--     user_preference.h, tag.h and audit_log.h of include/pfh/domain; Application/AuthModels:
--     include/pfh/application/security/auth_models.h. They are the data that the store keeps.
--   Domain/Balance: src/domain/balance_calculation_service.cpp.
--   Domain/Transfer: include/pfh/domain/transfer_aggregate.h and `validate` of
--     src/domain/transfer_domain_service.cpp; Domain/Transfer/Build: the three builders;
--     Booked: what they have to book, said without their code.
--   Application/Outbox: include/pfh/application/events/outbox_message.h.
--   Application/Publisher: include/pfh/application/events/outbox_publisher.h and
--     src/application/outbox_publisher.cpp, run_once over the in-memory outbox. The event bus and
--     the handler of dead letters are parameters that may add receipts; so is the clock.
--   Infrastructure/Repository: include/pfh/domain/repositories/repository_error.h.
--   Infrastructure/Outbox: include/pfh/infrastructure/persistence/in_memory_outbox_repository.h;
--     Lifecycle is the abstract state machine of a message, History any sequence of claim_due,
--     mark_published and mark_failed.
--   Infrastructure/Lease: include/pfh/infrastructure/persistence/in_memory_job_lease_repository.h.
--   The other files of Infrastructure are about include/pfh/infrastructure/persistence:
--   Store: in_memory_store.h, its tables and its staging areas. Action: the calls on the store.
--   UnitOfWork: in_memory_unit_of_work.h and in_memory_transaction_context.h.
--   Idempotency: in_memory_idempotency_repository.h; Once: the use of begin and complete in
--     src/application/correct_transaction_use_case.cpp.
--   Transactions: in_memory_transaction_repository.h. Checks and Save: single transactions and
--     their corrections; Transfers: aggregates, their snapshots and their deletion; Merged: the
--     view of a transaction that the repositories share; Ledger: any sequence of units of work.
--   Accounts: in_memory_account_repository.h; Balances: the balance cache and its rebuilding.
--   Categories: in_memory_category_repository.h. Rates: in_memory_exchange_rate_repository.h.
--   Sessions: in_memory_auth_session_repository.h and in_memory_session_cleanup_repository.h.
--   Scenarios: a household with accounts and transactions, on which the theorems are tried.
--
-- Modelling: a Decimal is its scaled value, an integer; the wrap-around of unsigned __int128 is
-- `% 2 ^ 128`, and the casts to and from __int128 are `to_unsigned` and `to_signed`. The negation
-- of the least value, undefined in the source, gives 2^127 here. A Currency, a typed id and a time
-- point are their one field. Texts are lists of bytes. A map
-- keyed by texts is an association list; the cleanup of sessions, the one loop over such a map that
-- stops early, sorts it by key first. Member functions take the object first. The
-- default argument `system_clock::now()` of a transaction's created_at is the clock reading
-- `now n` of the n-th transaction built. Loops run over their lists; the loops over digits run on
-- fuel that the digits of a 128-bit number do not exceed. A repository call takes the store, or
-- the part that it uses, and returns it with its answer: the store's mutex makes each call one
-- step. A call that fails half-way has written what it wrote; `run_transaction` drops it. The
-- action of a unit of work is a function of the context and the store that returns a result or
-- throws. Counters of tokens wrap at 2^64; durations are in clock ticks.
--
-- Not modelled: error messages, HTTP and JSON presentation, the PostgreSQL repositories, the
-- external rate providers, password hashing and tokens, configuration and wiring, which only call
-- third-party code or move data. The operator's retry_dead_letter of
-- in_memory_operations_repository.h, which puts a dead letter back to Failed with no failures, is not
-- among the operations of the outbox here. The bodies of the use cases, reports, the authentication service,
-- the scheduler's threads, the paged read models of transactions, and the in-memory repositories of
-- tags, users, audit entries and operations lie outside this library: nothing here depends on them.
pub mod Prelude
pub mod Domain
pub mod Application
pub mod Infrastructure
