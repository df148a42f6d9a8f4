-- ===== src/Infrastructure/Transactions/Transfers.antt =====
-- include/pfh/infrastructure/persistence/in_memory_transaction_repository.h: transfers are written
-- and deleted as wholes, the group with its two legs and its adjustments.
pub mod Snapshot
pub mod Delete
pub mod Physical
pub mod Saved
pub mod Staged
pub mod Legs
pub mod Signs
use personal_finance_hub.Prelude.{
  Bool, true, false, not, ◌&&◌, ◌||◌, Option, none, some, List, [], ◌∷◌, if◌then◌else◌,
}
use personal_finance_hub.Prelude.Int.{ℤ, pos, ◌+ℤ◌, eqb_ℤ}
use personal_finance_hub.Prelude.IdMap
use personal_finance_hub.Domain.Decimal
use personal_finance_hub.Domain.ExchangeRate.{ExchangeRate}
use personal_finance_hub.Domain.Ids.{TypedId, is_valid, same_id}
use personal_finance_hub.Domain.Money
use personal_finance_hub.Domain.Money.{Money}
use personal_finance_hub.Domain.Transaction.{Transaction, transfer, is_deleted}
use personal_finance_hub.Domain.Transfer.{
  TransferAggregate, TransferMode, outgoing_and_rate, outgoing_and_incoming, incoming_and_rate,
  is_transfer, is_adjustment, same_optional,
}
use personal_finance_hub.Infrastructure.Repository.{
  RepositoryResult, success, failure, validation_error, database_error, reject_if, ◌>>=◌, ◌>>◌,
}
use personal_finance_hub.Infrastructure.Store.{InMemoryStore, InMemoryTransferGroup}
use personal_finance_hub.Infrastructure.Action.{Action}
use personal_finance_hub.Infrastructure.Transactions.Checks.{
  validate_amount_for_storage, ensure_account_matches_transaction,
  ensure_category_matches_transaction,
}
use personal_finance_hub.Infrastructure.Transactions.Save.{
  stage_transaction, next_transaction, invalidate,
}

pub record TransferPersistResult : Type 0 where
  pub group_id : TypedId
  pub outgoing_id : TypedId
  pub incoming_id : TypedId
  pub adjustment_ids : List TypedId

-- static_cast<int>(mode)
unfoldable pub mode_value : TransferMode → ℤ
mode_value outgoing_and_rate = pos 1
mode_value outgoing_and_incoming = pos 2
mode_value incoming_and_rate = pos 3

unfoldable pub has_group : Transaction → Bool
has_group tx = elim tx.transfer_group_id [ none ↦ false | some g ↦ is_valid g ]

unfoldable pub rate_fits : Option ExchangeRate → Bool
rate_fits none = true
rate_fits (some r) = Decimal.fits_numeric_20_10 r.rate

-- Whether two legs are the new, active legs of a transfer.
unfoldable pub are_legs : Transaction → Transaction → Bool
are_legs out inc =
    is_transfer out.type
    && is_transfer inc.type
    && not (same_id out.account_id inc.account_id)
    && same_id out.user_id inc.user_id
    && Money.is_positive out.amount
    && Money.is_positive inc.amount

unfoldable pub is_fee_of : Transaction → Transaction → Bool
is_fee_of out adj =
    same_id adj.user_id out.user_id
    && is_adjustment adj.type
    && not (is_valid adj.id)
    && not (is_deleted adj)
    && eqb_ℤ adj.occurred_at out.occurred_at
    && same_optional adj.transfer_group_id out.transfer_group_id

unfoldable pub check_adjustments :
    Transaction → List Transaction → InMemoryStore → RepositoryResult (Unit {0})
check_adjustments out [] s = success tt
check_adjustments out (adj ∷ adjs) s = do
  reject_if (not (is_fee_of out adj)) validation_error
  validate_amount_for_storage adj.amount
  ensure_account_matches_transaction adj s
  ensure_category_matches_transaction adj s
  check_adjustments out adjs s

-- The checks of `save_transfer`.
unfoldable pub check_transfer : TransferAggregate → InMemoryStore → RepositoryResult (Unit {0})
check_transfer a s = do
  reject_if (not s.in_transaction) database_error
  reject_if
      (is_valid a.outgoing.id
        || is_valid a.incoming.id
        || is_deleted a.outgoing
        || is_deleted a.incoming)
      validation_error
  reject_if (has_group a.outgoing || has_group a.incoming) validation_error
  reject_if (not (are_legs a.outgoing a.incoming)) validation_error
  validate_amount_for_storage a.outgoing.amount
  validate_amount_for_storage a.incoming.amount
  reject_if (not (rate_fits a.rate)) validation_error
  check_adjustments a.outgoing a.adjustments s
  ensure_account_matches_transaction a.outgoing s
  ensure_account_matches_transaction a.incoming s
  ensure_category_matches_transaction a.outgoing s
  ensure_category_matches_transaction a.incoming s

-- A member of the group as it is stored.
unfoldable pub member : TypedId → Money → Transaction → InMemoryStore → Transaction
member group amount tx s = record tx {
  id = s.next_transaction_id;
  amount = amount;
  transfer_group_id = some group;
}

unfoldable pub stage_member : TypedId → Money → Transaction → InMemoryStore → InMemoryStore
stage_member group amount tx s = stage_transaction (member group amount tx s) (next_transaction s)

-- The loop over the adjustments: the store after it, and their ids.
unfoldable pub stage_adjustments :
    TypedId → List Transaction → InMemoryStore → InMemoryStore × List TypedId
stage_adjustments group [] s = (s, [])
stage_adjustments group (adj ∷ adjs) s =
    let (t, ids) =
      stage_adjustments group adjs
        (invalidate adj.account_id (stage_member group adj.amount adj s)) in
    (t, s.next_transaction_id ∷ ids)

unfoldable pub stage_group : TransferAggregate → InMemoryStore → InMemoryStore
stage_group a s = record s {
  next_transfer_group_id = s.next_transfer_group_id +ℤ pos 1;
  staging = record s.staging {
    staged_transfer_groups =
        IdMap.insert_or_assign s.next_transfer_group_id
          (record {
            id = s.next_transfer_group_id;
            user_id = a.outgoing.user_id;
            transfer_mode = mode_value a.mode;
            rate = a.rate;
            note = a.outgoing.description;
            created_at = a.outgoing.created_at;
          })
          s.staging.staged_transfer_groups;
  };
}

-- The group and the two legs, the outgoing one with the opposite sign.
unfoldable pub stage_legs : TransferAggregate → InMemoryStore → InMemoryStore
stage_legs a s = stage_member s.next_transfer_group_id a.incoming.amount a.incoming (
    stage_member s.next_transfer_group_id (Money.negated a.outgoing.amount) a.outgoing
      (stage_group a s))

unfoldable pub save_transfer_checked :
    TransferAggregate → RepositoryResult (Unit {0}) → Action TransferPersistResult
save_transfer_checked a (failure e) s = (s, failure e)
save_transfer_checked a (success u) s =
    let (t, ids) = stage_adjustments s.next_transfer_group_id a.adjustments (stage_legs a s) in
    (
      invalidate a.incoming.account_id (invalidate a.outgoing.account_id t),
      success (record {
        group_id = s.next_transfer_group_id;
        outgoing_id = s.next_transaction_id;
        incoming_id = s.next_transaction_id +ℤ pos 1;
        adjustment_ids = ids;
      }),
    )

unfoldable pub save_transfer : TransferAggregate → Action TransferPersistResult
save_transfer a s = save_transfer_checked a (check_transfer a s) s
