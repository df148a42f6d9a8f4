-- ===== src/Infrastructure/Transactions/Transfers/Staged.antt =====
-- include/pfh/infrastructure/persistence/in_memory_transaction_repository.h: the staged rows of the two
-- legs of a transfer, through all that is staged after them.
use personal_finance_hub.Prelude.{
  ◌≡◌, refl, ◌∙◌, Bool, true, false, Option, some, List, [], ◌∷◌, if◌then◌else◌, arith,
}
use personal_finance_hub.Prelude.Int.{ℤ, pos, ◌+ℤ◌, eqb_ℤ, eqb_ℤ_refl, ltb_ℤ, +ℤ_parts}
use personal_finance_hub.Prelude.IdMap
use personal_finance_hub.Domain.Ids.{TypedId}
use personal_finance_hub.Domain.Money
use personal_finance_hub.Domain.Money.{Money}
use personal_finance_hub.Domain.Transaction.{Transaction}
use personal_finance_hub.Domain.Transfer.{TransferAggregate}
use personal_finance_hub.Infrastructure.Store.{InMemoryStore}
use personal_finance_hub.Infrastructure.Transactions.Save.{
  stage_transaction, next_transaction, invalidate,
}
use personal_finance_hub.Infrastructure.Transactions.Transfers.{
  member, stage_member, stage_adjustments, stage_group, stage_legs,
}

abbrev pub staged : TypedId → InMemoryStore → Option Transaction
staged id s = IdMap.find id s.staging.staged_transactions

-- A member is staged under the next id, and nothing else changes.
find-stage_member :
    (id group : TypedId) (amount : Money) (tx : Transaction) (s : InMemoryStore)
    → staged id (stage_member group amount tx s)
      ≡ (if eqb_ℤ s.next_transaction_id id then some (member group amount tx s) else staged id s)
unfolding stage_member stage_transaction next_transaction member
find-stage_member id group amount tx s =
    IdMap.find-insert_or_assign s.next_transaction_id id _ s.staging.staged_transactions

next-stage_member :
    (group : TypedId) (amount : Money) (tx : Transaction) (s : InMemoryStore)
    → (stage_member group amount tx s).next_transaction_id ≡ s.next_transaction_id +ℤ pos 1
unfolding stage_member stage_transaction next_transaction
next-stage_member group amount tx s = refl

less-differs : (a b : ℤ) → ltb_ℤ a b ≡ true → eqb_ℤ b a ≡ false
less-differs a b h = ground arith

pub less-plus_one : (a b : ℤ) → ltb_ℤ a b ≡ true → ltb_ℤ a (b +ℤ pos 1) ≡ true
less-plus_one a b h = ground (arith, +ℤ_parts b (pos 1))

pub self-plus_one : (a : ℤ) → ltb_ℤ a (a +ℤ pos 1) ≡ true
self-plus_one a = ground (arith, +ℤ_parts a (pos 1))

invalidate-staged :
    (id account_id : TypedId) (s : InMemoryStore)
    → staged id (invalidate account_id s) ≡ staged id s
unfolding invalidate
invalidate-staged id account_id s = refl

less-next_member :
    (id group : TypedId) (adj : Transaction) (s : InMemoryStore)
    → ltb_ℤ id s.next_transaction_id ≡ true
    → ltb_ℤ id (invalidate adj.account_id (stage_member group adj.amount adj s)).next_transaction_id
      ≡ true
unfolding invalidate stage_member stage_transaction next_transaction
less-next_member id group adj s h = less-plus_one id s.next_transaction_id h

-- The adjustments go under later ids than what is staged already.
find-stage_adjustments :
    (id group : TypedId) (adjs : List Transaction) (s : InMemoryStore)
    → ltb_ℤ id s.next_transaction_id ≡ true
    → staged id (stage_adjustments group adjs s).0 ≡ staged id s
unfolding stage_adjustments
find-stage_adjustments id group [] s h = refl
find-stage_adjustments id group (adj ∷ adjs) s h =
    let t = stage_member group adj.amount adj s in
    find-stage_adjustments id group adjs (invalidate adj.account_id t)
      (less-next_member id group adj s h)
    ∙ invalidate-staged id adj.account_id t
    ∙ find-stage_member id group adj.amount adj s
    ∙ rw (less-differs id s.next_transaction_id h) refl

pub legs-next :
    (a : TransferAggregate) (s : InMemoryStore)
    → (stage_legs a s).next_transaction_id ≡ s.next_transaction_id +ℤ pos 1 +ℤ pos 1
unfolding stage_legs stage_member stage_transaction next_transaction stage_group
legs-next a s = refl

-- The store after the outgoing leg, and the incoming leg that is staged on it.
abbrev after_out : TransferAggregate → InMemoryStore → InMemoryStore
after_out a s =
    stage_member s.next_transfer_group_id (Money.negated a.outgoing.amount) a.outgoing
      (stage_group a s)

abbrev pub out_leg : TransferAggregate → InMemoryStore → Transaction
out_leg a s =
    member s.next_transfer_group_id (Money.negated a.outgoing.amount) a.outgoing (stage_group a s)

abbrev pub inc_leg : TransferAggregate → InMemoryStore → Transaction
inc_leg a s = member s.next_transfer_group_id a.incoming.amount a.incoming (after_out a s)

choose-false {ℓ} : {A : Type ℓ} (b : Bool) (x y : A) → b ≡ false → (if b then x else y) ≡ y
choose-false b x y h = rw h refl

pub choose-true {ℓ} : {A : Type ℓ} (b : Bool) (x y : A) → b ≡ true → (if b then x else y) ≡ x
choose-true b x y h = rw h refl

pub stage_legs-out :
    (a : TransferAggregate) (s : InMemoryStore)
    → staged s.next_transaction_id (stage_legs a s) ≡ some (out_leg a s)
unfolding stage_legs stage_member stage_transaction next_transaction stage_group
stage_legs-out a s =
    find-stage_member s.next_transaction_id s.next_transfer_group_id a.incoming.amount a.incoming
      (after_out a s)
    ∙ choose-false _ _ _ (
        less-differs s.next_transaction_id (s.next_transaction_id +ℤ pos 1)
          (self-plus_one s.next_transaction_id))
    ∙ find-stage_member s.next_transaction_id s.next_transfer_group_id _ a.outgoing
        (stage_group a s)
    ∙ choose-true _ _ _ (eqb_ℤ_refl s.next_transaction_id)

pub stage_legs-inc :
    (a : TransferAggregate) (s : InMemoryStore)
    → staged (s.next_transaction_id +ℤ pos 1) (stage_legs a s) ≡ some (inc_leg a s)
unfolding stage_legs stage_member stage_transaction next_transaction stage_group
stage_legs-inc a s =
    find-stage_member (s.next_transaction_id +ℤ pos 1) s.next_transfer_group_id a.incoming.amount
      a.incoming (after_out a s)
    ∙ choose-true _ _ _ (eqb_ℤ_refl (s.next_transaction_id +ℤ pos 1))

-- Both legs are still there after the adjustments and the invalidated balances.
pub legs-kept :
    (id : TypedId) (a : TransferAggregate) (s : InMemoryStore)
    → ltb_ℤ id (stage_legs a s).next_transaction_id ≡ true
    → staged id (
        invalidate a.incoming.account_id (
          invalidate a.outgoing.account_id
            (stage_adjustments s.next_transfer_group_id a.adjustments (stage_legs a s)).0))
      ≡ staged id (stage_legs a s)
legs-kept id a s h =
    invalidate-staged id a.incoming.account_id _
    ∙ invalidate-staged id a.outgoing.account_id _
    ∙ find-stage_adjustments id s.next_transfer_group_id a.adjustments (stage_legs a s) h
