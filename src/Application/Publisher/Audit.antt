-- ===== src/Application/Publisher/Audit.antt =====
-- src/application/outbox_publisher.cpp: auditing a dead letter changes neither the outbox nor the
-- counts of what became of the messages.
use personal_finance_hub.Prelude.{
  ℕ, ◌+◌, ◌≡◌, refl, ◌∙◌, inl, inr, Bool, true, false, Option, none, some, List, [], ◌∷◌, length,
  arith, Bool-cases, ◌==◌, ap, if◌then◌else◌, Bytes,
}
use personal_finance_hub.Prelude.Int.{ℤ}
use personal_finance_hub.Application.Outbox.{OutboxMessage, OutboxClaimBatch}
use personal_finance_hub.Domain.ExchangeRate.{TimePoint}
use personal_finance_hub.Infrastructure.Repository.{
  RepositoryResult, success, failure, validation_error, failure-ne-success, success-injective,
}
use personal_finance_hub.Application.Publisher.{
  OutboxPublisherConfig, OutboxPublishSummary, DeadLetterHandler, PublisherRun, audit_dead_letter,
  audit_each, audit_unhandled_dead_letters, count_dead_letter, count_audit, audit_recovered,
}
use personal_finance_hub.Infrastructure.Outbox.{OutboxStore, claim_due, list_unhandled_dead_letters}

pub audit_dead_letter-outbox :
    (handler : Option DeadLetterHandler) (m : OutboxMessage) (run : PublisherRun)
    → (audit_dead_letter handler m run).store.outbox ≡ run.store.outbox
unfolding audit_dead_letter
audit_dead_letter-outbox none m run = refl
audit_dead_letter-outbox (some h) m run = refl

audit_each-outbox :
    (handler : Option DeadLetterHandler) (ms : List OutboxMessage) (run : PublisherRun)
    → (audit_each handler ms run).store.outbox ≡ run.store.outbox
unfolding audit_each
audit_each-outbox handler [] run = refl
audit_each-outbox handler (m ∷ ms) run =
    audit_each-outbox handler ms (audit_dead_letter handler m run)
    ∙ audit_dead_letter-outbox handler m run

pub audit_recovered-outbox :
    (handler : Option DeadLetterHandler) (ms : List OutboxMessage) (run : PublisherRun)
    → (audit_recovered handler ms run).store.outbox ≡ run.store.outbox
unfolding audit_recovered
audit_recovered-outbox handler [] run = refl
audit_recovered-outbox handler (m ∷ ms) run =
    audit_recovered-outbox handler ms (audit_dead_letter handler m (count_dead_letter run))
    ∙ audit_dead_letter-outbox handler m (count_dead_letter run)

pub audit_unhandled-outbox :
    (handler : Option DeadLetterHandler) (config : OutboxPublisherConfig) (run : PublisherRun)
    → (audit_unhandled_dead_letters handler config run).store.outbox ≡ run.store.outbox
unfolding audit_unhandled_dead_letters
audit_unhandled-outbox none config run = refl
audit_unhandled-outbox (some h) config run =
    elim (Bool-cases (config.dead_letter_audit_batch_size == 0)) [
      | inl off ↦ rw off refl
      | inr on ↦ rw on (
          audit_each-outbox (some h)
            (list_unhandled_dead_letters h.name config.dead_letter_audit_batch_size run.store) run)
    ]

-- The messages that a summary counts by what became of them.
abbrev pub settled : OutboxPublishSummary → ℕ
settled s = s.published + s.failed + s.dead_lettered

settled-count_audit : (b : Bool) (s : OutboxPublishSummary) → settled (count_audit b s) ≡ settled s
settled-count_audit true s = refl
settled-count_audit false s = refl

pub settled-audit_dead_letter :
    (handler : Option DeadLetterHandler) (m : OutboxMessage) (run : PublisherRun)
    → settled (audit_dead_letter handler m run).summary ≡ settled run.summary
unfolding audit_dead_letter
settled-audit_dead_letter none m run = refl
settled-audit_dead_letter (some h) m run =
    settled-count_audit (h.handle m run.store.outbox_handler_receipts).0 run.summary

settled-audit_each :
    (handler : Option DeadLetterHandler) (ms : List OutboxMessage) (run : PublisherRun)
    → settled (audit_each handler ms run).summary ≡ settled run.summary
unfolding audit_each
settled-audit_each handler [] run = refl
settled-audit_each handler (m ∷ ms) run =
    settled-audit_each handler ms (audit_dead_letter handler m run)
    ∙ settled-audit_dead_letter handler m run

pub settled-audit_recovered :
    (handler : Option DeadLetterHandler) (ms : List OutboxMessage) (run : PublisherRun)
    → settled (audit_recovered handler ms run).summary ≡ settled run.summary + length ms
unfolding audit_recovered
settled-audit_recovered handler [] run = omega arith
settled-audit_recovered handler (m ∷ ms) run =
    let counted = count_dead_letter run in
    omega (
      arith,
      settled-audit_recovered handler ms (audit_dead_letter handler m counted),
      settled-audit_dead_letter handler m counted,
    )

pub settled-audit_unhandled :
    (handler : Option DeadLetterHandler) (config : OutboxPublisherConfig) (run : PublisherRun)
    → settled (audit_unhandled_dead_letters handler config run).summary ≡ settled run.summary
unfolding audit_unhandled_dead_letters
settled-audit_unhandled none config run = refl
settled-audit_unhandled (some h) config run =
    elim (Bool-cases (config.dead_letter_audit_batch_size == 0)) [
      | inl off ↦ rw off refl
      | inr on ↦ rw on (
          settled-audit_each (some h)
            (list_unhandled_dead_letters h.name config.dead_letter_audit_batch_size run.store) run)
    ]

pub claimed-audit_dead_letter :
    (handler : Option DeadLetterHandler) (m : OutboxMessage) (run : PublisherRun)
    → (audit_dead_letter handler m run).summary.claimed ≡ run.summary.claimed
unfolding audit_dead_letter
claimed-audit_dead_letter none m run = refl
claimed-audit_dead_letter (some h) m run =
    elim (Bool-cases (h.handle m run.store.outbox_handler_receipts).0) [
      | inl ok ↦ rw ok refl
      | inr bad ↦ rw bad refl
    ]

abbrev with_receipts : List (Bytes × Bytes) → OutboxStore → OutboxStore
with_receipts receipts store = record store { outbox_handler_receipts = receipts }

-- Auditing changes the receipts of the store only, and does not read the clock.
abbrev pub IsAudited : PublisherRun → PublisherRun → Type 0
IsAudited run after =
    (receipts : List (Bytes × Bytes)) × (after.store ≡ with_receipts receipts run.store)
    × (after.readings ≡ run.readings)

audit_dead_letter-IsAudited :
    (handler : Option DeadLetterHandler) (m : OutboxMessage) (run : PublisherRun)
    → IsAudited run (audit_dead_letter handler m run)
unfolding audit_dead_letter
audit_dead_letter-IsAudited none m run = (run.store.outbox_handler_receipts, refl, refl)
audit_dead_letter-IsAudited (some h) m run = (_, refl, refl)

audit_each-IsAudited :
    (handler : Option DeadLetterHandler) (ms : List OutboxMessage) (run : PublisherRun)
    → IsAudited run (audit_each handler ms run)
unfolding audit_each
audit_each-IsAudited handler [] run = (run.store.outbox_handler_receipts, refl, refl)
audit_each-IsAudited handler (m ∷ ms) run =
    let (r1, store1, clock1) = audit_dead_letter-IsAudited handler m run in
    let (r2, store2, clock2) = audit_each-IsAudited handler ms (audit_dead_letter handler m run) in
    (r2, store2 ∙ ap (with_receipts r2) store1, clock2 ∙ clock1)

pub audit_unhandled-IsAudited :
    (handler : Option DeadLetterHandler) (config : OutboxPublisherConfig) (run : PublisherRun)
    → IsAudited run (audit_unhandled_dead_letters handler config run)
unfolding audit_unhandled_dead_letters
audit_unhandled-IsAudited none config run = (run.store.outbox_handler_receipts, refl, refl)
audit_unhandled-IsAudited (some h) config run =
    let each =
      audit_each (some h)
        (list_unhandled_dead_letters h.name config.dead_letter_audit_batch_size run.store) run in
    choose (config.dead_letter_audit_batch_size == 0) each (audit_each-IsAudited (some h) _ run)
  where
    choose :
        (off : Bool) (audited : PublisherRun)
        → IsAudited run audited
        → IsAudited run (if off then run else audited)
    choose true audited k = (run.store.outbox_handler_receipts, refl, refl)
    choose false audited k = k

abbrev unless_invalid :
    Bool → OutboxClaimBatch → OutboxStore → RepositoryResult (OutboxClaimBatch × OutboxStore)
unless_invalid bad claims store = if bad then failure validation_error else success (claims, store)

unless_invalid-batch :
    (bad : Bool) (claims : OutboxClaimBatch) (a b : OutboxStore) {batch : OutboxClaimBatch}
    {after : OutboxStore}
    → unless_invalid bad claims b ≡ success (batch, after)
    → (after' : OutboxStore) × (unless_invalid bad claims a ≡ success (batch, after'))
unless_invalid-batch true claims a b h = absurd (failure-ne-success h)
unless_invalid-batch false claims a b h =
    (a, ap (λ (c : OutboxClaimBatch). success (c, a)) (ap (λ x. x.0) (success-injective h)))

-- Which messages are claimed does not depend on the receipts.
pub claim_due-receipts :
    (now : TimePoint) (timeout : ℤ) (size : ℕ) (worker : Bytes) (store : OutboxStore)
    (receipts : List (Bytes × Bytes)) (batch : OutboxClaimBatch) {after : OutboxStore}
    → claim_due now timeout size worker (record store { outbox_handler_receipts = receipts })
      ≡ success (batch, after)
    → (after' : OutboxStore) × (claim_due now timeout size worker store ≡ success (batch, after'))
unfolding claim_due
claim_due-receipts now timeout size worker store receipts batch h = unless_invalid-batch _ _ _ _ h
