-- ===== src/Infrastructure/UnitOfWork/Atomicity.antt =====
-- What a transaction leaves behind: all of its writes and events, or none.
use mathlib.Core.List.{append-nil}
use personal_finance_hub.Prelude.{
  ◌≡◌, refl, sym, ap, ◌∙◌, inl, inr, true, false, Option, List, [], ◌∷◌, ◌++◌, Bool-cases, bytes,
}
use personal_finance_hub.Prelude.Int.{ℤ, pos, ◌+ℤ◌}
use personal_finance_hub.Application.Outbox.{OutboxMessage, pending}
use personal_finance_hub.Domain.Ids.{TypedId, to_string}
use personal_finance_hub.Infrastructure.Repository.{
  RepositoryStatus, RepositoryResult, success, failure, database_error, failure-ne-success,
}
use personal_finance_hub.Infrastructure.Store.{InMemoryStore, Tables, DomainEvent, no_staging}
use personal_finance_hub.Infrastructure.UnitOfWork.{
  TransactionContext, Outcome, caught, begin, finish, stage_events, commit_tables, commit, close,
  run_transaction, outbox_record, outbox_records,
}

-- No transaction runs, and nothing is staged.
abbrev pub IsIdle : InMemoryStore → Type 0
IsIdle s = (s.in_transaction ≡ false) × (s.staging ≡ no_staging)

-- What the action finds, whatever was left in the store.
abbrev pub opened : Option TypedId → InMemoryStore → TransactionContext
opened tenant s = record { id = s.next_tx_context_id; tenant_user_id = tenant }

-- The two ends of a transaction, told by its result.
close-failure :
    (s : InMemoryStore) (r : RepositoryResult (Unit {0})) {e : RepositoryStatus}
    → (close s r).1 ≡ failure e
    → (close s r).0 ≡ finish s
unfolding close
close-failure s (failure e) h = refl
close-failure s (success u) h = absurd (failure-ne-success (sym h))

close-success :
    (s : InMemoryStore) (r : RepositoryResult (Unit {0}))
    → (close s r).1 ≡ success tt
    → (r ≡ success tt) × ((close s r).0 ≡ finish (commit (stage_events s)))
unfolding close
close-success s (failure e) h = absurd (failure-ne-success h)
close-success s (success u) h = (refl, refl)

close-IsIdle : (s : InMemoryStore) (r : RepositoryResult (Unit {0})) → IsIdle (close s r).0
unfolding close finish
close-IsIdle s (failure e) = (refl, refl)
close-IsIdle s (success u) = (refl, refl)

begin-tables : (s : InMemoryStore) → (begin s).tables ≡ s.tables
unfolding begin
begin-tables s = refl

begin-staged_outbox : (s : InMemoryStore) → (begin s).staging.staged_outbox ≡ []
unfolding begin no_staging
begin-staged_outbox s = refl

-- A message tells of an event: it carries the event, numbered `n`, and waits for its first attempt.
pub record TellsOf (n : ℤ) (event : DomainEvent) (m : OutboxMessage) : Type 0 where
  pub numbered : m.id ≡ bytes "outbox-" ++ to_string n
  pub named : m.event_name ≡ event.event_name
  pub of_type : m.aggregate_type ≡ event.aggregate_type
  pub of_aggregate : m.aggregate_id ≡ event.aggregate_id
  pub payload : m.payload_json ≡ event.payload_json
  pub at_time : m.occurred_at ≡ event.occurred_at
  pub waiting : m.status ≡ pending
  pub untried : m.retry_count ≡ 0

-- Message by message and event by event, numbered upwards from `n`.
abbrev pub TellOf : ℤ → List DomainEvent → List OutboxMessage → Type 0
TellOf n [] [] = Unit
TellOf n [] (m ∷ ms) = ⊥
TellOf n (event ∷ events) [] = ⊥
TellOf n (event ∷ events) (m ∷ ms) = TellsOf n event m × TellOf (n +ℤ pos 1) events ms

outbox_records-TellOf :
    (n : ℤ) (events : List DomainEvent) → TellOf n events (outbox_records n events)
unfolding outbox_records outbox_record
outbox_records-TellOf n [] = tt
outbox_records-TellOf n (event ∷ events) = (
  record {
    numbered = refl;
    named = refl;
    of_type = refl;
    of_aggregate = refl;
    payload = refl;
    at_time = refl;
    waiting = refl;
    untried = refl;
  },
  outbox_records-TellOf (n +ℤ pos 1) events,
)

-- What a transaction adds to the outbox: the messages of its events if it ends well, else nothing.
abbrev pub IsAnnounced :
    RepositoryResult (Unit {0}) → ℤ → List DomainEvent → List OutboxMessage → Type 0
IsAnnounced (failure e) n events added = added ≡ []
IsAnnounced (success u) n events added = TellOf n events added

close-outbox :
    (a : InMemoryStore) (r : RepositoryResult (Unit {0})) (t : Tables)
    → a.tables ≡ t
    → a.staging.staged_outbox ≡ []
    → (added : List OutboxMessage) × ((close a r).0.tables.outbox ≡ t.outbox ++ added)
      × IsAnnounced r a.next_outbox_id a.pending_events added
unfolding close finish commit commit_tables stage_events
close-outbox a (failure e) t h k = ([], ap (λ x. x.outbox) h ∙ sym (append-nil t.outbox), refl)
close-outbox a (success u) t h k = (
  outbox_records a.next_outbox_id a.pending_events,
  rw (h, k) refl,
  outbox_records-TellOf a.next_outbox_id a.pending_events,
)

module _ (tenant : Option TypedId)
    (action : TransactionContext → InMemoryStore → InMemoryStore × Outcome) where
  abbrev pub after : InMemoryStore → InMemoryStore × Outcome
  after s = action (opened tenant s) (begin s)

  -- Without an enclosing transaction, the action runs and the transaction is closed.
  pub run_transaction-close :
      (s : InMemoryStore)
      → s.in_transaction ≡ false
      → run_transaction tenant action s ≡ close (after s).0 (caught (after s).1)
  unfolding run_transaction
  run_transaction-close s h = rw h refl

  pub run_transaction-nested :
      (s : InMemoryStore)
      → s.in_transaction ≡ true
      → run_transaction tenant action s ≡ (s, failure database_error)
  unfolding run_transaction
  run_transaction-nested s h = rw h refl

  -- A transaction that ends with an error, whether its action returned one, threw, or was refused
  -- because another transaction runs, leaves what is committed as it was, if the action itself
  -- writes to the staging areas only.
  pub run_transaction-failed :
      ((tx : TransactionContext) (s : InMemoryStore) → (action tx s).0.tables ≡ s.tables)
      → (s : InMemoryStore) (e : RepositoryStatus) → (run_transaction tenant action s).1 ≡ failure e
      → ((run_transaction tenant action s).0.tables ≡ s.tables)
        × ((run_transaction tenant action s).0.in_transaction ≡ s.in_transaction)
  unfolding finish begin
  run_transaction-failed keeps s e = elim (Bool-cases s.in_transaction) [
    | inl running ↦ rw (run_transaction-nested s running) λ h. (refl, refl)
    | inr shut ↦ rw (run_transaction-close s shut) λ h.
        rw (close-failure (after s).0 (caught (after s).1) h)
          (keeps (opened tenant s) (begin s), sym shut)
  ]

  -- Whatever the action did, no transaction runs afterwards and nothing stays staged.
  pub run_transaction-IsIdle :
      (s : InMemoryStore) → IsIdle s → IsIdle (run_transaction tenant action s).0
  run_transaction-IsIdle s h =
      rw (run_transaction-close s h.0) (close-IsIdle (after s).0 (caught (after s).1))

  -- A transaction that ends well has committed what its action staged.
  pub run_transaction-committed :
      (s : InMemoryStore)
      → s.in_transaction ≡ false
      → (run_transaction tenant action s).1 ≡ success tt
      → (caught (after s).1 ≡ success tt)
        × ((run_transaction tenant action s).0 ≡ finish (commit (stage_events (after s).0)))
  run_transaction-committed s shut =
      rw (run_transaction-close s shut) (close-success (after s).0 (caught (after s).1))

  -- The events that a committed action registered follow the outbox as messages, one for each
  -- event, in the order of the events and numbered upwards; an action that ends otherwise adds
  -- none. The action itself leaves the tables and the staged messages alone, and no other
  -- transaction runs.
  pub run_transaction-outbox :
      ((tx : TransactionContext) (s : InMemoryStore) → (action tx s).0.tables ≡ s.tables)
      → ((tx : TransactionContext) (s : InMemoryStore)
          → (action tx s).0.staging.staged_outbox ≡ s.staging.staged_outbox)
      → (s : InMemoryStore) → s.in_transaction ≡ false
      → (added : List OutboxMessage) × ((run_transaction tenant action s).0.tables.outbox
          ≡ s.tables.outbox ++ added)
        × IsAnnounced
            (caught (after s).1)
            (after s).0.next_outbox_id
            (after s).0.pending_events
            added
  run_transaction-outbox keeps unstaged s shut = rw (run_transaction-close s shut) (
      close-outbox (after s).0 (caught (after s).1) s.tables
        (keeps (opened tenant s) (begin s) ∙ begin-tables s)
        (unstaged (opened tenant s) (begin s) ∙ begin-staged_outbox s))
