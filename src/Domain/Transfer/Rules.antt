-- ===== src/Domain/Transfer/Rules.antt =====
-- src/domain/transfer_domain_service.cpp: what `validate` guarantees of an aggregate it accepts.
use personal_finance_hub.Prelude.{
  ◌≡◌, refl, inl, inr, ◌⊎◌, ◌↔◌, true, false, none, some, List, [], ◌∷◌, All, arith, Bool-cases,
}
use personal_finance_hub.Prelude.Int.{ltb_ℤ, eqb_ℤ}
use personal_finance_hub.Domain.Error.{
  ok, ◌>>=◌, ◌>>◌, reject_if, or_fail, invalid_operation, reject_if-eq-ok, >>=-eq-ok,
}
use personal_finance_hub.Domain.Decimal
use personal_finance_hub.Domain.Decimal.{Decimal}
use personal_finance_hub.Domain.ExchangeRate
use personal_finance_hub.Domain.ExchangeRate.{ExchangeRate}
use personal_finance_hub.Domain.Ids.{same_id}
use personal_finance_hub.Domain.Money
use personal_finance_hub.Domain.Money.{Money}
use personal_finance_hub.Domain.Transaction.{Transaction}
use personal_finance_hub.Domain.Transfer.{
  TransferAggregate, is_same_currency, same_optional, is_transfer, is_adjustment, fits,
  validate_legs, validate_adjustment, validate_adjustments, tolerance_for, validate_cross,
  validate_amounts, validate,
}

-- Two transfer legs of one user in one group, on two accounts, with positive amounts that fit the
-- column.
pub record LegsAgree (out inc : Transaction) : Type 0 where
  pub outgoing_type : is_transfer out.type ≡ true
  pub incoming_type : is_transfer inc.type ≡ true
  pub group : same_optional out.transfer_group_id inc.transfer_group_id ≡ true
  pub accounts_differ : same_id out.account_id inc.account_id ≡ false
  pub user : same_id out.user_id inc.user_id ≡ true
  pub outgoing_positive : Money.is_positive out.amount ≡ true
  pub incoming_positive : Money.is_positive inc.amount ≡ true
  pub outgoing_fits : fits out.amount ≡ true
  pub incoming_fits : fits inc.amount ≡ true

-- A signed effect of the transfer: an adjustment of its user, group and time, not zero.
pub record AdjustmentAgrees (out adj : Transaction) : Type 0 where
  pub adjustment_type : is_adjustment adj.type ≡ true
  pub user : same_id adj.user_id out.user_id ≡ true
  pub group : same_optional adj.transfer_group_id out.transfer_group_id ≡ true
  pub time : eqb_ℤ adj.occurred_at out.occurred_at ≡ true
  pub nonzero : Money.is_zero adj.amount ≡ false
  pub fits_column : fits adj.amount ≡ true

-- The incoming amount is the outgoing one at the rate, up to the tolerance.
pub record WithinTolerance (out inc : Money) (rate : ExchangeRate) : Type 0 where
  pub expected : Money
  pub converted : ExchangeRate.convert rate out ≡ ok expected
  pub diff : Money
  pub subtracted : Money.subtract inc expected ≡ ok diff
  pub tolerance : Decimal
  pub tolerated : tolerance_for out.amount rate.rate ≡ ok tolerance
  pub close : ltb_ℤ tolerance (Decimal.abs diff.amount) ≡ false

-- In one currency equal amounts and no rate; otherwise a rate that explains the amounts.
abbrev pub AmountsAgree : TransferAggregate → Type 0
AmountsAgree a =
    ((is_same_currency a ≡ true)
      × (Money.equal a.outgoing.amount a.incoming.amount ≡ true)
      × (a.rate ≡ none))
    ⊎ ((is_same_currency a ≡ false)
        × (r : ExchangeRate) × (a.rate ≡ some r)
        × WithinTolerance a.outgoing.amount a.incoming.amount r)

pub record IsConsistent (a : TransferAggregate) : Type 0 where
  pub legs : LegsAgree a.outgoing a.incoming
  pub adjustments : All (AdjustmentAgrees a.outgoing) a.adjustments
  pub amounts : AmountsAgree a

legs-LegsAgree : (out inc : Transaction) → validate_legs out inc ≡ ok tt → LegsAgree out inc
unfolding validate_legs
legs-LegsAgree out inc e = ground arith

LegsAgree-legs : (out inc : Transaction) → LegsAgree out inc → validate_legs out inc ≡ ok tt
unfolding validate_legs
LegsAgree-legs out inc v = ground arith

adjustment-AdjustmentAgrees :
    (out adj : Transaction) → validate_adjustment out adj ≡ ok tt → AdjustmentAgrees out adj
unfolding validate_adjustment
adjustment-AdjustmentAgrees out adj e = ground arith

AdjustmentAgrees-adjustment :
    (out adj : Transaction) → AdjustmentAgrees out adj → validate_adjustment out adj ≡ ok tt
unfolding validate_adjustment
AdjustmentAgrees-adjustment out adj v = ground arith

adjustments-All :
    (out : Transaction) (adjs : List Transaction)
    → validate_adjustments out adjs ≡ ok tt
    → All (AdjustmentAgrees out) adjs
unfolding validate_adjustments
adjustments-All out [] e = tt
adjustments-All out (adj ∷ adjs) e =
    let (u, e1, e2) =
      >>=-eq-ok (validate_adjustment out adj) (λ _. validate_adjustments out adjs) e in
    (adjustment-AdjustmentAgrees out adj e1, adjustments-All out adjs e2)

All-adjustments :
    (out : Transaction) (adjs : List Transaction)
    → All (AdjustmentAgrees out) adjs
    → validate_adjustments out adjs ≡ ok tt
unfolding validate_adjustments
All-adjustments out [] v = refl
All-adjustments out (adj ∷ adjs) v =
    rw (AdjustmentAgrees-adjustment out adj v.0) (All-adjustments out adjs v.1)

cross-WithinTolerance :
    (out inc : Money) (rate : ExchangeRate)
    → validate_cross out inc rate ≡ ok tt
    → WithinTolerance out inc rate
unfolding validate_cross
cross-WithinTolerance out inc rate e =
    let check = λ (diff : Money) (tolerance : Decimal).
      reject_if (ltb_ℤ tolerance (Decimal.abs diff.amount)) invalid_operation in
    let weigh = λ (diff : Money). tolerance_for out.amount rate.rate >>= check diff in
    let compare = λ (expected : Money). Money.subtract inc expected >>= weigh in
    let (expected, e1, k1) = >>=-eq-ok (ExchangeRate.convert rate out) compare e in
    let (diff, e2, k2) = >>=-eq-ok (Money.subtract inc expected) weigh k1 in
    let (tolerance, e3, k3) = >>=-eq-ok (tolerance_for out.amount rate.rate) (check diff) k2 in
    record {
      expected = expected;
      converted = e1;
      diff = diff;
      subtracted = e2;
      tolerance = tolerance;
      tolerated = e3;
      close = reject_if-eq-ok _ invalid_operation k3;
    }

WithinTolerance-cross :
    (out inc : Money) (rate : ExchangeRate)
    → WithinTolerance out inc rate
    → validate_cross out inc rate ≡ ok tt
unfolding validate_cross
WithinTolerance-cross out inc rate w = rw (w.converted, w.subtracted, w.tolerated, w.close)

amounts-AmountsAgree : (a : TransferAggregate) → validate_amounts a ≡ ok tt → AmountsAgree a
unfolding validate_amounts
amounts-AmountsAgree a e = elim (Bool-cases (is_same_currency a)) [
  | inl same ↦ inl (same, ground arith, ground arith)
  | inr other ↦
      let (r, e1, e2) =
        >>=-eq-ok (or_fail a.rate invalid_operation)
          (validate_cross a.outgoing.amount a.incoming.amount) (rw other at e) in
      inr (other, r, ground arith, cross-WithinTolerance a.outgoing.amount a.incoming.amount r e2)
]

AmountsAgree-amounts : (a : TransferAggregate) → AmountsAgree a → validate_amounts a ≡ ok tt
unfolding validate_amounts
AmountsAgree-amounts a (inl (same, equal, no_rate)) = rw (same, equal, no_rate)
AmountsAgree-amounts a (inr (other, r, e, w)) =
    rw (other, e) (WithinTolerance-cross a.outgoing.amount a.incoming.amount r w)

-- The rules accept an aggregate exactly if its legs, its adjustments and its amounts agree.
pub validate_iff : (a : TransferAggregate) → (validate a ≡ ok tt) ↔ IsConsistent a
unfolding validate
validate_iff a = (to, from)
  where
    to : validate a ≡ ok tt → IsConsistent a
    to e =
        let rest = validate_adjustments a.outgoing a.adjustments >> validate_amounts a in
        let (_, e1, k1) = >>=-eq-ok (validate_legs a.outgoing a.incoming) (λ _. rest) e in
        let (_, e2, e3) =
          >>=-eq-ok (validate_adjustments a.outgoing a.adjustments) (λ _. validate_amounts a) k1 in
        record {
          legs = legs-LegsAgree a.outgoing a.incoming e1;
          adjustments = adjustments-All a.outgoing a.adjustments e2;
          amounts = amounts-AmountsAgree a e3;
        }

    from : IsConsistent a → validate a ≡ ok tt
    from v = rw (
      LegsAgree-legs a.outgoing a.incoming v.legs,
      All-adjustments a.outgoing a.adjustments v.adjustments,
      AmountsAgree-amounts a v.amounts,
    )
