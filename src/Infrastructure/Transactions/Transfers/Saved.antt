-- ===== src/Infrastructure/Transactions/Transfers/Saved.antt =====
-- What is stored of a transfer.
use personal_finance_hub.Prelude.{
  ◌≡◌, refl, true, false, not, ◌||◌, List, [], ◌∷◌, All, not-false, arith,
}
use personal_finance_hub.Domain.Decimal
use personal_finance_hub.Domain.Ids.{TypedId, is_valid}
use personal_finance_hub.Domain.Money
use personal_finance_hub.Domain.Money.{Money}
use personal_finance_hub.Domain.Transaction.{
  Transaction, TransactionType, income, expense, transfer, adjustment, is_deleted,
}
use personal_finance_hub.Domain.Transfer.{TransferAggregate, is_transfer, is_adjustment}
use personal_finance_hub.Infrastructure.Repository.{
  RepositoryResult, success, failure, validation_error, database_error, guard-eq-success,
  >>-eq-success,
}
use personal_finance_hub.Infrastructure.Store.{InMemoryStore}
use personal_finance_hub.Infrastructure.Action.{Keeps}
use personal_finance_hub.Infrastructure.Transactions.Checks.{
  validate_amount_for_storage, ensure_account_matches_transaction,
  ensure_category_matches_transaction,
}
use personal_finance_hub.Infrastructure.Transactions.Save.{next_transaction}
use personal_finance_hub.Infrastructure.Transactions.Save.Stored.{HasSign}
use personal_finance_hub.Infrastructure.Transactions.Save.Signs.{
  HasSigns, stage-HasSigns, invalidate-HasSigns, next-HasSigns,
}
use personal_finance_hub.Infrastructure.Transactions.Transfers.{
  are_legs, is_fee_of, has_group, check_adjustments, check_transfer, member, stage_member,
  stage_adjustments, stage_group, stage_legs, rate_fits, save_transfer_checked, save_transfer,
}

is_transfer-HasSign :
    (type : TransactionType) (m : Money)
    → is_transfer type ≡ true
    → Money.is_zero m ≡ false
    → HasSign type m
is_transfer-HasSign income m t h = absurd cc
is_transfer-HasSign expense m t h = absurd cc
is_transfer-HasSign transfer m t h = h
is_transfer-HasSign adjustment m t h = h

is_adjustment-HasSign :
    (type : TransactionType) (m : Money)
    → is_adjustment type ≡ true
    → Money.is_zero m ≡ false
    → HasSign type m
is_adjustment-HasSign income m t h = absurd cc
is_adjustment-HasSign expense m t h = absurd cc
is_adjustment-HasSign transfer m t h = h
is_adjustment-HasSign adjustment m t h = h

valid_amount-is_zero :
    (m : Money) → validate_amount_for_storage m ≡ success tt → Money.is_zero m ≡ false
unfolding validate_amount_for_storage
valid_amount-is_zero m h = (guard-eq-success (Money.is_zero m) validation_error _ h).0

negated-is_zero : (m : Money) → Money.is_zero m ≡ false → Money.is_zero (Money.negated m) ≡ false
unfolding Money.is_zero Money.negated Decimal.is_zero Decimal.negated
negated-is_zero m h = ground arith

fee-is_adjustment :
    (out adj : Transaction) → is_fee_of out adj ≡ true → is_adjustment adj.type ≡ true
unfolding is_fee_of
fee-is_adjustment out adj h = ground arith

legs-is_transfer :
    (out inc : Transaction)
    → are_legs out inc ≡ true
    → (is_transfer out.type ≡ true) × (is_transfer inc.type ≡ true)
unfolding are_legs
legs-is_transfer out inc h = (ground arith, ground arith)

-- Every adjustment that is accepted has the sign of its type.
check_adjustments-HasSign :
    (out : Transaction) (adjs : List Transaction) (s : InMemoryStore)
    → check_adjustments out adjs s ≡ success tt
    → All (λ adj. HasSign adj.type adj.amount) adjs
unfolding check_adjustments
check_adjustments-HasSign out [] s h = tt
check_adjustments-HasSign out (adj ∷ adjs) s h =
    let (fee, h1) = guard-eq-success (not (is_fee_of out adj)) validation_error _ h in
    let (amount_ok, h2) = >>-eq-success (validate_amount_for_storage adj.amount) _ h1 in
    let (account_ok, h3) = >>-eq-success (ensure_account_matches_transaction adj s) _ h2 in
    let (category_ok, h4) = >>-eq-success (ensure_category_matches_transaction adj s) _ h3 in
    (
      is_adjustment-HasSign adj.type adj.amount (fee-is_adjustment out adj (not-false _ fee))
          (valid_amount-is_zero adj.amount amount_ok),
      check_adjustments-HasSign out adjs s h4,
    )

stage_member-HasSigns :
    (group : TypedId) (amount : Money) (tx : Transaction) (s : InMemoryStore)
    → HasSign tx.type amount
    → HasSigns s
    → HasSigns (stage_member group amount tx s)
unfolding stage_member member
stage_member-HasSigns group amount tx s h k =
    stage-HasSigns (member group amount tx s) (next_transaction s) h (next-HasSigns s k)

stage_adjustments-HasSigns :
    (group : TypedId) (adjs : List Transaction) (s : InMemoryStore)
    → All (λ adj. HasSign adj.type adj.amount) adjs
    → HasSigns s
    → HasSigns (stage_adjustments group adjs s).0
unfolding stage_adjustments
stage_adjustments-HasSigns group [] s h k = k
stage_adjustments-HasSigns group (adj ∷ adjs) s (h, hs) k =
    stage_adjustments-HasSigns group adjs _ hs
      (invalidate-HasSigns adj.account_id _ (stage_member-HasSigns group adj.amount adj s h k))

stage_group-HasSigns :
    (a : TransferAggregate) (s : InMemoryStore) → HasSigns s → HasSigns (stage_group a s)
unfolding stage_group
stage_group-HasSigns a s h = h

-- What is known of a transfer that passes the checks.
check_transfer-passed :
    (a : TransferAggregate) (s : InMemoryStore)
    → check_transfer a s ≡ success tt
    → (s.in_transaction ≡ true)
      × (are_legs a.outgoing a.incoming ≡ true)
      × (validate_amount_for_storage a.outgoing.amount ≡ success tt)
      × (validate_amount_for_storage a.incoming.amount ≡ success tt)
      × (check_adjustments a.outgoing a.adjustments s ≡ success tt)
unfolding check_transfer
check_transfer-passed a s h =
    let (running, h1) = guard-eq-success (not s.in_transaction) database_error _ h in
    let (new, h2) =
      guard-eq-success
        (is_valid a.outgoing.id
          || is_valid a.incoming.id
          || is_deleted a.outgoing
          || is_deleted a.incoming)
        validation_error _ h1 in
    let (ungrouped, h3) =
      guard-eq-success (has_group a.outgoing || has_group a.incoming) validation_error _ h2 in
    let (legs, h4) =
      guard-eq-success (not (are_legs a.outgoing a.incoming)) validation_error _ h3 in
    let (out_ok, h5) = >>-eq-success (validate_amount_for_storage a.outgoing.amount) _ h4 in
    let (inc_ok, h6) = >>-eq-success (validate_amount_for_storage a.incoming.amount) _ h5 in
    let (rate_ok, h7) = guard-eq-success (not (rate_fits a.rate)) validation_error _ h6 in
    let (adjs_ok, h8) = >>-eq-success (check_adjustments a.outgoing a.adjustments s) _ h7 in
    (not-false _ running, not-false _ legs, out_ok, inc_ok, adjs_ok)

save_transfer_checked-HasSigns :
    (a : TransferAggregate) (r : RepositoryResult (Unit {0})) (s : InMemoryStore)
    → check_transfer a s ≡ r
    → HasSigns s
    → HasSigns (save_transfer_checked a r s).0
unfolding save_transfer_checked stage_legs
save_transfer_checked-HasSigns a (failure e) s passed h = h
save_transfer_checked-HasSigns a (success u) s passed h =
    let (running, legs, out_ok, inc_ok, adjs_ok) = check_transfer-passed a s passed in
    invalidate-HasSigns a.incoming.account_id _ (
      invalidate-HasSigns a.outgoing.account_id _ (
        stage_adjustments-HasSigns s.next_transfer_group_id a.adjustments _
          (check_adjustments-HasSign a.outgoing a.adjustments s adjs_ok)
          (stage_member-HasSigns _ a.incoming.amount a.incoming _
            (is_transfer-HasSign a.incoming.type a.incoming.amount
              (legs-is_transfer a.outgoing a.incoming legs).1
              (valid_amount-is_zero a.incoming.amount inc_ok))
            (stage_member-HasSigns _ (Money.negated a.outgoing.amount) a.outgoing _
              (is_transfer-HasSign a.outgoing.type _ (legs-is_transfer a.outgoing a.incoming legs).0
                (negated-is_zero a.outgoing.amount (valid_amount-is_zero a.outgoing.amount out_ok)))
              (stage_group-HasSigns a s h)))))

pub save_transfer-Keeps : (a : TransferAggregate) → Keeps HasSigns (save_transfer a)
unfolding save_transfer
save_transfer-Keeps a = record {
  at = λ s h. save_transfer_checked-HasSigns a (check_transfer a s) s refl h;
}
