-- ===== src/Domain/Transfer/Assembled.antt =====
-- src/domain/transfer_domain_service.cpp: the end that the three builders share, its fee and its
-- aggregate.
use mathlib.Core.Path.{subst}
use personal_finance_hub.Prelude.{
  ℕ, ◌≡◌, refl, sym, true, false, not, not-false, Bool, arith, ◌||◌, Option, none, some, List, [],
  ◌∷◌, Bytes,
}
use personal_finance_hub.Domain.Error.{
  DomainResult, ok, ◌>>◌, reject_if, invalid_operation, invalid_amount, currency_mismatch,
  guard-eq-ok, >>=-eq-ok, reject_if-eq-ok, ok-injective,
}
use personal_finance_hub.Domain.Currency.{Currency, same_currency}
use personal_finance_hub.Domain.Decimal
use personal_finance_hub.Domain.Decimal.{Decimal}
use personal_finance_hub.Domain.ExchangeRate.{ExchangeRate, TimePoint}
use personal_finance_hub.Domain.Ids.{TypedId, is_valid, same_id}
use personal_finance_hub.Domain.Money
use personal_finance_hub.Domain.Money.{Money}
use personal_finance_hub.Domain.Transaction.{Transaction}
use personal_finance_hub.Domain.Transfer.{
  TransferMode, TransferFee, FeeSource, source_account_fee, target_account_fee, third_party_fee,
  TransferAggregate, fits, validate,
}
use personal_finance_hub.Domain.Transfer.Build.{
  make_transfer_transaction, make_fee_adjustments, check_fee_source, fee_transaction, aggregate_of,
  assemble,
}
use personal_finance_hub.Domain.Transfer.Booked.{IsPayer, IsFee, AreFees, IsBuilt}
use personal_finance_hub.Domain.Transfer.Rules.{IsConsistent, validate_iff}

or-false : (a b : Bool) → (a || b) ≡ false → (a ≡ false) × (b ≡ false)
or-false true b h = absurd cc
or-false false b h = (refl, h)

module _ (source_account target_account user_id : TypedId) (occurred_at : TimePoint)
    (description : Bytes) (transfer_group_id : TypedId) (now : ℕ → TimePoint) where
  abbrev aggregate :
      TransferMode → Money → Money → Option ExchangeRate → List Transaction → TransferAggregate
  aggregate =
      aggregate_of source_account target_account user_id occurred_at description transfer_group_id
        now

  abbrev pub BuiltWith :
      TransferMode
      → Money
      → Money
      → Option ExchangeRate
      → Option TransferFee
      → TransferAggregate
      → Type 0
  BuiltWith =
      IsBuilt source_account target_account user_id occurred_at description transfer_group_id

  abbrev fees : Option TransferFee → Currency → Currency → DomainResult (List Transaction)
  fees =
      make_fee_adjustments source_account target_account user_id occurred_at description
        transfer_group_id now

  IsPayer-ok :
      (source : FeeSource) (fee : TransferFee) (c d : Currency)
      → check_fee_source source_account target_account user_id occurred_at description
          transfer_group_id now fee source c d
        ≡ ok tt
      → IsPayer source_account target_account user_id occurred_at description transfer_group_id
          source fee.account_id fee.amount.currency c d
  unfolding check_fee_source
  IsPayer-ok source_account_fee fee c d e =
      let (payer, e1) =
        guard-eq-ok (not (same_id fee.account_id source_account)) invalid_operation
          (reject_if (not (same_currency fee.amount.currency c)) currency_mismatch) e in
      (
        not-false _ payer,
        not-false _
            (reject_if-eq-ok (not (same_currency fee.amount.currency c)) currency_mismatch e1),
      )
  IsPayer-ok target_account_fee fee c d e =
      let (payer, e1) =
        guard-eq-ok (not (same_id fee.account_id target_account)) invalid_operation
          (reject_if (not (same_currency fee.amount.currency d)) currency_mismatch) e in
      (
        not-false _ payer,
        not-false _
            (reject_if-eq-ok (not (same_currency fee.amount.currency d)) currency_mismatch e1),
      )
  IsPayer-ok third_party_fee fee c d e =
      or-false (same_id fee.account_id source_account) _ (reject_if-eq-ok _ invalid_operation e)

  fee_transaction-IsFee :
      (fee : TransferFee) (c d : Currency)
      → Decimal.is_positive fee.amount.amount ≡ true
      → IsPayer source_account target_account user_id occurred_at description transfer_group_id
          fee.source fee.account_id fee.amount.currency c d
      → IsFee source_account target_account user_id occurred_at description transfer_group_id fee c
          d
          (fee_transaction source_account target_account user_id occurred_at description
            transfer_group_id now fee)
  unfolding fee_transaction Money.negated Decimal.negated Decimal.is_positive
  fee_transaction-IsFee fee c d positive payer = record {
    adjusts = refl;
    on_payer = refl;
    taken = ground arith;
    size = ground arith;
    in_currency = refl;
    payer = payer;
    member = record {
      same_user = refl;
      same_time = refl;
      same_group = refl;
      active = refl;
      plain = refl;
    };
  }

  fees-AreFees :
      (fee : Option TransferFee) (c d : Currency) (adjs : List Transaction)
      → fees fee c d ≡ ok adjs
      → AreFees source_account target_account user_id occurred_at description transfer_group_id fee
          c d adjs
  unfolding make_fee_adjustments
  fees-AreFees none c d adjs e = sym (ok-injective e)
  fees-AreFees (some fee) c d adjs e =
      let booked =
        fee_transaction source_account target_account user_id occurred_at description
          transfer_group_id now fee in
      let whole : DomainResult (List Transaction) = ok (booked ∷ []) in
      let source =
        check_fee_source source_account target_account user_id occurred_at description
          transfer_group_id now fee fee.source c d in
      let k2 = source >> whole in
      let k1 = reject_if (not (fits fee.amount)) invalid_amount >> k2 in
      let k0 = reject_if (not (Decimal.is_positive fee.amount.amount)) invalid_amount >> k1 in
      let (_, e0) = guard-eq-ok (not (is_valid fee.account_id)) invalid_operation k0 e in
      let (positive, e1) =
        guard-eq-ok (not (Decimal.is_positive fee.amount.amount)) invalid_amount k1 e0 in
      let (_, e2) = guard-eq-ok (not (fits fee.amount)) invalid_amount k2 e1 in
      let (_, paid, e3) = >>=-eq-ok source (λ _. whole) e2 in
      (
        booked,
        sym (ok-injective e3),
        fee_transaction-IsFee fee c d (not-false _ positive) (IsPayer-ok fee.source fee c d paid),
      )

  sides :
      (mode : TransferMode) (out inc : Money) (rate : Option ExchangeRate)
      (fee : Option TransferFee) (adjs : List Transaction)
      → AreFees source_account target_account user_id occurred_at description transfer_group_id fee
          out.currency inc.currency adjs
      → IsConsistent (aggregate mode out inc rate adjs)
      → BuiltWith mode out inc rate fee (aggregate mode out inc rate adjs)
  unfolding make_transfer_transaction
  sides mode out inc rate fee adjs paid valid = record {
    in_mode = refl;
    outgoing_side = record {
      moves = refl;
      on_account = refl;
      whole_amount = refl;
      described = refl;
      member = record {
        same_user = refl;
        same_time = refl;
        same_group = refl;
        active = refl;
        plain = refl;
      };
    };
    incoming_side = record {
      moves = refl;
      on_account = refl;
      whole_amount = refl;
      described = refl;
      member = record {
        same_user = refl;
        same_time = refl;
        same_group = refl;
        active = refl;
        plain = refl;
      };
    };
    at_rate = refl;
    with_fee = paid;
    consistent = valid;
  }

  pub assemble-ok :
      (mode : TransferMode) (out inc : Money) (rate : Option ExchangeRate)
      (fee : Option TransferFee) (a : TransferAggregate)
      → assemble source_account target_account user_id occurred_at description transfer_group_id now
          mode out inc rate fee
        ≡ ok a
      → BuiltWith mode out inc rate fee a
  unfolding assemble
  assemble-ok mode out inc rate fee a e =
      let finish = λ (adjs : List Transaction).
        validate (aggregate mode out inc rate adjs) >> ok (aggregate mode out inc rate adjs) in
      let (adjs, e1, k) = >>=-eq-ok (fees fee out.currency inc.currency) finish e in
      let (u, valid, whole) =
        >>=-eq-ok (validate (aggregate mode out inc rate adjs))
          (λ _. ok (aggregate mode out inc rate adjs)) k in
      let same = ok-injective whole in
      subst (BuiltWith mode out inc rate fee) same (
        sides mode out inc rate fee adjs (fees-AreFees fee out.currency inc.currency adjs e1)
          ((validate_iff (aggregate mode out inc rate adjs)).0 valid))
