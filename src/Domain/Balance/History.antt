-- ===== src/Domain/Balance/History.antt =====
-- src/domain/balance_calculation_service.cpp: which transactions a balance depends on.
use mathlib.Core.Path.{fun_ext}
use personal_finance_hub.Prelude.{◌≡◌, refl, ap, inl, inr, List, [], ◌∷◌, if◌then◌else◌, Bool-cases}
use personal_finance_hub.Prelude.Int.{ltb_ℤ}
use personal_finance_hub.Domain.Error.{DomainResult, ◌>>=◌}
use personal_finance_hub.Domain.Currency.{Currency}
use personal_finance_hub.Domain.ExchangeRate.{TimePoint}
use personal_finance_hub.Domain.Ids.{TypedId}
use personal_finance_hub.Domain.Money.{Money}
use personal_finance_hub.Domain.Transaction.{Transaction, is_deleted}
use personal_finance_hub.Domain.Balance.{
  apply_to, balance_loop, balance_at_loop, calculate_balance, calculate_balance_at,
}

-- The transactions that occurred by the cutoff.
abbrev pub up_to : TimePoint → List Transaction → List Transaction
up_to cutoff [] = []
up_to cutoff (tx ∷ txs) =
    let rest = up_to cutoff txs in if ltb_ℤ cutoff tx.occurred_at then rest else tx ∷ rest

-- The transactions that are not deleted.
abbrev pub live : List Transaction → List Transaction
live [] = []
live (tx ∷ txs) = let rest = live txs in if is_deleted tx then rest else tx ∷ rest

loop-up_to :
    (txs : List Transaction) (currency : Currency) (cutoff : TimePoint) (running : Money)
    → balance_at_loop txs currency cutoff running ≡ balance_loop (up_to cutoff txs) currency running
unfolding balance_loop balance_at_loop
loop-up_to [] currency cutoff running = refl
loop-up_to (tx ∷ txs) currency cutoff running = elim (Bool-cases (ltb_ℤ cutoff tx.occurred_at)) [
  | inl later ↦ elim (Bool-cases (is_deleted tx)) [
    | inl gone ↦ rw (gone, later) (loop-up_to txs currency cutoff running)
    | inr kept ↦ rw (kept, later) (loop-up_to txs currency cutoff running)
  ]
  | inr by_then ↦ elim (Bool-cases (is_deleted tx)) [
    | inl gone ↦ rw (by_then, gone) (loop-up_to txs currency cutoff running)
    | inr kept ↦
        rw (by_then, kept)
          (ap (λ (k : Money → DomainResult Money). apply_to running tx currency >>= k)
            (fun_ext (loop-up_to txs currency cutoff)))
  ]
]

loop-live :
    (txs : List Transaction) (currency : Currency) (running : Money)
    → balance_loop (live txs) currency running ≡ balance_loop txs currency running
unfolding balance_loop
loop-live [] currency running = refl
loop-live (tx ∷ txs) currency running = elim (Bool-cases (is_deleted tx)) [
  | inl gone ↦ rw gone (loop-live txs currency running)
  | inr kept ↦ rw kept (
      rw kept (
        ap (λ (k : Money → DomainResult Money). apply_to running tx currency >>= k)
          (fun_ext (loop-live txs currency))))
]

-- The balance at a cutoff is the balance of the transactions that occurred by then.
pub calculate_balance_at-up_to :
    (id : TypedId) (txs : List Transaction) (currency : Currency) (cutoff : TimePoint)
    → calculate_balance_at id txs currency cutoff
      ≡ calculate_balance id (up_to cutoff txs) currency cutoff
unfolding calculate_balance calculate_balance_at
calculate_balance_at-up_to id txs currency cutoff = rw (fun_ext (loop-up_to txs currency cutoff))

-- Deleted transactions do not matter, neither to the balance nor to its errors.
pub calculate_balance-live :
    (id : TypedId) (txs : List Transaction) (currency : Currency) (as_of : TimePoint)
    → calculate_balance id (live txs) currency as_of ≡ calculate_balance id txs currency as_of
unfolding calculate_balance
calculate_balance-live id txs currency as_of = rw (fun_ext (loop-live txs currency))
