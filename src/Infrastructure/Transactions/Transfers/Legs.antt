-- ===== src/Infrastructure/Transactions/Transfers/Legs.antt =====
-- include/pfh/infrastructure/persistence/in_memory_transaction_repository.h: where the legs of a stored
-- transfer are found.
use personal_finance_hub.Prelude.{◌≡◌, refl, sym, ap, ◌∙◌, true, Option, some, List, [], ◌∷◌}
use personal_finance_hub.Prelude.Int.{pos, ◌+ℤ◌, eqb_ℤ_refl, ltb_ℤ}
use personal_finance_hub.Prelude.IdMap
use personal_finance_hub.Domain.ExchangeRate.{ExchangeRate}
use personal_finance_hub.Domain.Ids.{TypedId}
use personal_finance_hub.Domain.Money
use personal_finance_hub.Domain.Money.{Money}
use personal_finance_hub.Domain.Transaction.{Transaction}
use personal_finance_hub.Domain.Transfer.{TransferAggregate}
use personal_finance_hub.Infrastructure.Repository.{
  RepositoryResult, success, failure, failure-ne-success, success-injective,
}
use personal_finance_hub.Infrastructure.Store.{InMemoryStore, InMemoryTransferGroup}
use personal_finance_hub.Infrastructure.Transactions.Save.{
  stage_transaction, next_transaction, invalidate,
}
use personal_finance_hub.Infrastructure.Transactions.Transfers.{
  check_transfer, member, stage_member, stage_adjustments, stage_group, stage_legs,
  save_transfer_checked, save_transfer, mode_value, TransferPersistResult,
}
use personal_finance_hub.Infrastructure.Transactions.Transfers.Staged.{
  staged, less-plus_one, self-plus_one, legs-next, out_leg, inc_leg, choose-true, stage_legs-out,
  stage_legs-inc, legs-kept,
}

-- What the caller is told of a leg.
abbrev pub IsLeg : TypedId → InMemoryStore → Money → TypedId → TypedId → Type 0
IsLeg id t amount account group =
    (leg : Transaction) × (staged id t ≡ some leg)
    × (leg.amount ≡ amount)
    × (leg.account_id ≡ account)
    × (leg.transfer_group_id ≡ some group)

-- The counters after the legs do not depend on the adjustments and the balances.
group-stage_adjustments :
    (group : TypedId) (adjs : List Transaction) (s : InMemoryStore)
    → ((stage_adjustments group adjs s).0.next_transfer_group_id ≡ s.next_transfer_group_id)
      × ((stage_adjustments group adjs s).0.staging.staged_transfer_groups
          ≡ s.staging.staged_transfer_groups)
unfolding stage_adjustments stage_member stage_transaction next_transaction invalidate
group-stage_adjustments group [] s = (refl, refl)
group-stage_adjustments group (adj ∷ adjs) s = group-stage_adjustments group adjs _

-- `group` was the next free group of `s` and is taken in `t`: its row is there, for the user of the
-- transfer, and the next free group comes after it.
pub record IsNewGroup (group user_id : TypedId) (rate : Option ExchangeRate) (s t : InMemoryStore)
    : Type 0 where
  pub was_next : group ≡ s.next_transfer_group_id
  pub is_past : ltb_ℤ group t.next_transfer_group_id ≡ true
  pub row : InMemoryTransferGroup
  pub found : IdMap.find group t.staging.staged_transfer_groups ≡ some row
  pub row_id : row.id ≡ group
  pub row_user : row.user_id ≡ user_id
  pub row_rate : row.rate ≡ rate

stage_legs-IsNewGroup :
    (a : TransferAggregate) (s t : InMemoryStore)
    → t.next_transfer_group_id ≡ (stage_legs a s).next_transfer_group_id
    → t.staging.staged_transfer_groups ≡ (stage_legs a s).staging.staged_transfer_groups
    → IsNewGroup s.next_transfer_group_id a.outgoing.user_id a.rate s t
unfolding stage_legs stage_member stage_transaction next_transaction stage_group
stage_legs-IsNewGroup a s t counter groups = record {
  was_next = refl;
  is_past = rw counter (self-plus_one s.next_transfer_group_id);
  row = record {
    id = s.next_transfer_group_id;
    user_id = a.outgoing.user_id;
    transfer_mode = mode_value a.mode;
    rate = a.rate;
    note = a.outgoing.description;
    created_at = a.outgoing.created_at;
  };
  found = rw groups (
      IdMap.find-insert_or_assign s.next_transfer_group_id s.next_transfer_group_id _
        s.staging.staged_transfer_groups
      ∙ choose-true _ _ _ (eqb_ℤ_refl s.next_transfer_group_id));
  row_id = refl;
  row_user = refl;
  row_rate = refl;
}

save_transfer_checked-legs :
    (a : TransferAggregate) (checked : RepositoryResult (Unit {0})) (s t : InMemoryStore)
    (r : TransferPersistResult)
    → save_transfer_checked a checked s ≡ (t, success r)
    → IsNewGroup r.group_id a.outgoing.user_id a.rate s t
      × IsLeg r.outgoing_id t (Money.negated a.outgoing.amount) a.outgoing.account_id r.group_id
      × IsLeg r.incoming_id t a.incoming.amount a.incoming.account_id r.group_id
unfolding save_transfer_checked member invalidate
save_transfer_checked-legs a (failure e) s t r h = absurd (failure-ne-success (ap (λ y. y.1) h))
save_transfer_checked-legs a (success u) s t r h =
    rw (sym (ap (λ y. y.0) h), sym (success-injective (ap (λ y. y.1) h)))
      (
        (let (counter, groups) =
              group-stage_adjustments s.next_transfer_group_id a.adjustments (stage_legs a s) in
            stage_legs-IsNewGroup a s _ counter groups),
        (
          out_leg a s,
          legs-kept s.next_transaction_id a s (
                rw (legs-next a s)
                  (less-plus_one s.next_transaction_id _ (self-plus_one s.next_transaction_id)))
              ∙ stage_legs-out a s,
          refl,
          refl,
          refl,
        ),
        (
          inc_leg a s,
          legs-kept (s.next_transaction_id +ℤ pos 1) a s
                (rw (legs-next a s) (self-plus_one (s.next_transaction_id +ℤ pos 1)))
              ∙ stage_legs-inc a s,
          refl,
          refl,
          refl,
        ),
      )

-- A transfer that is stored takes the next free group, whose row is staged for its user with its
-- rate, and which is no longer free afterwards. Its two legs lie in that group, the outgoing amount
-- with the opposite sign and the incoming one as it is, each under the id that the caller is told,
-- whatever adjustments are stored with them.
pub save_transfer-legs :
    (a : TransferAggregate) (s t : InMemoryStore) (r : TransferPersistResult)
    → save_transfer a s ≡ (t, success r)
    → IsNewGroup r.group_id a.outgoing.user_id a.rate s t
      × IsLeg r.outgoing_id t (Money.negated a.outgoing.amount) a.outgoing.account_id r.group_id
      × IsLeg r.incoming_id t a.incoming.amount a.incoming.account_id r.group_id
unfolding save_transfer
save_transfer-legs a s t r h = save_transfer_checked-legs a (check_transfer a s) s t r h
