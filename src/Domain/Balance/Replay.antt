-- ===== src/Domain/Balance/Replay.antt =====
-- src/domain/balance_calculation_service.cpp: the replayed balance is the exact sum of the live
-- transactions' effects, and the historical balance is the replay of an earlier prefix in time.
use personal_finance_hub.Prelude.{
  ℕ, ◌+◌, ◌≤◌, ◌≡◌, refl, sym, ap, ◌∙◌, inl, inr, true, false, List, [], ◌∷◌, All, arith,
  if◌then◌else◌, Bool-cases,
}
use personal_finance_hub.Prelude.Int.{ℤ, pos, negsuc, magnitude, negate, ltb_ℤ, ◌+ℤ◌, int_laws}
use personal_finance_hub.Domain.Error.{
  ok, err, currency_mismatch, overflow, >>=-eq-ok, ok-injective, err-ne-ok,
}
use personal_finance_hub.Domain.Currency.{Currency, same_currency}
use personal_finance_hub.Domain.Decimal
use personal_finance_hub.Domain.Decimal.{storage_max}
use personal_finance_hub.Domain.Decimal.Checked.{InStorage, in_storage}
use personal_finance_hub.Domain.Decimal.Checked
use personal_finance_hub.Domain.Decimal.Sums
use personal_finance_hub.Domain.ExchangeRate.{TimePoint}
use personal_finance_hub.Domain.Ids.{TypedId}
use personal_finance_hub.Domain.Money
use personal_finance_hub.Domain.Money.{Money}
use personal_finance_hub.Domain.Money.Arithmetic
use personal_finance_hub.Domain.Transaction.{
  Transaction, TransactionType, income, expense, transfer, adjustment, is_deleted,
}
use personal_finance_hub.Domain.Balance.{
  BalanceSnapshot, signed_delta, apply_transaction, apply_to, balance_loop, snapshot,
  calculate_balance,
}

-- What an amount of each type does to a balance: income raises it and an expense lowers it by the
-- magnitude, whatever the stored sign; a transfer leg and an adjustment count as stored.
abbrev pub effect : TransactionType → ℤ → ℤ
effect income v = pos (magnitude v)
effect expense v = negate (pos (magnitude v))
effect transfer v = v
effect adjustment v = v

-- The exact sum of the effects of the transactions that are not deleted.
abbrev pub total : List Transaction → ℤ
total [] = pos 0
total (tx ∷ txs) =
    let rest = total txs in if is_deleted tx then rest else effect tx.type tx.amount.amount +ℤ rest

-- How far the running balance can stray.
abbrev pub weight : List Transaction → ℕ
weight [] = 0
weight (tx ∷ txs) = magnitude tx.amount.amount + weight txs

-- Every live transaction is in the currency.
abbrev pub InCurrency : Currency → List Transaction → Type 0
InCurrency currency [] = Unit
InCurrency currency (tx ∷ txs) =
    (is_deleted tx ≡ false → same_currency tx.amount.currency currency ≡ true)
    × InCurrency currency txs

effect-magnitude : (type : TransactionType) (v : ℤ) → magnitude (effect type v) ≡ magnitude v
effect-magnitude income v = ground arith
effect-magnitude expense (pos n) = ground arith
effect-magnitude expense (negsuc n) = ground arith
effect-magnitude transfer v = refl
effect-magnitude adjustment v = refl

abbrev with_amount : ℤ → Currency → Money
with_amount v c = record { amount = v; currency = c }

income_amount :
    (v : ℤ) (c : Currency)
    → (if ltb_ℤ v (pos 0) then with_amount (negate v) c else with_amount v c)
      ≡ with_amount (pos (magnitude v)) c
income_amount (pos n) c = ground arith
income_amount (negsuc n) c = ground arith

expense_amount :
    (v : ℤ) (c : Currency)
    → (if ltb_ℤ v (pos 0) then with_amount v c else with_amount (negate v) c)
      ≡ with_amount (negate (pos (magnitude v))) c
expense_amount (pos n) c = ground arith
expense_amount (negsuc n) c = ground arith

signed_delta-eq :
    (type : TransactionType) (m : Money)
    → signed_delta type m ≡ record { amount = effect type m.amount; currency = m.currency }
unfolding signed_delta Money.is_negative Money.negated Decimal.is_negative Decimal.negated
signed_delta-eq income m = income_amount m.amount m.currency
signed_delta-eq expense m = expense_amount m.amount m.currency
signed_delta-eq transfer m = refl
signed_delta-eq adjustment m = refl

magnitude-InStorage : (v : ℤ) → magnitude v ≤ storage_max → InStorage v
magnitude-InStorage v h = (ground arith, ground arith)

in_storage_of : (v : ℤ) → magnitude v ≤ storage_max → in_storage v ≡ true
in_storage_of v h = ground arith

add-eq :
    (v w : ℤ) (c d : Currency)
    → same_currency c d ≡ true
    → InStorage v
    → InStorage w
    → Money.add (with_amount v c) (with_amount w d)
      ≡ (if in_storage (v +ℤ w) then ok (with_amount (v +ℤ w) c) else err overflow)
unfolding Money.add
add-eq v w c d same hv hw = rw (same, Checked.add-eq v w hv hw) (ground arith)

-- One step of the replay, on a live transaction in the currency.
apply_to-eq :
    (v : ℤ) (tx : Transaction) (currency : Currency)
    → InStorage v
    → magnitude tx.amount.amount ≤ storage_max
    → same_currency tx.amount.currency currency ≡ true
    → apply_to (with_amount v currency) tx currency ≡ (
        let sum = v +ℤ effect tx.type tx.amount.amount in
        if in_storage sum then ok (with_amount sum currency) else err overflow)
unfolding apply_to apply_transaction
apply_to-eq v tx currency hv hm same =
    let bound : InStorage (effect tx.type tx.amount.amount) =
      magnitude-InStorage _ (omega (arith, effect-magnitude tx.type tx.amount.amount)) in
    rw (same, signed_delta-eq tx.type tx.amount)
      (add-eq v (effect tx.type tx.amount.amount) currency tx.amount.currency
        (sym (Arithmetic.same_currency_comm tx.amount.currency currency) ∙ same) hv bound)

assoc_step : (v e t : ℤ) → v +ℤ e +ℤ t ≡ v +ℤ (e +ℤ t)
assoc_step v e t = omega int_laws

skip_step : (v : ℤ) → v +ℤ pos 0 ≡ v
skip_step v = omega int_laws

magnitude-+ℤ : (a b : ℤ) → magnitude (a +ℤ b) ≤ magnitude a + magnitude b
unfolding ◌+ℤ◌
magnitude-+ℤ a b = ground arith

zero_left : (v : ℤ) → pos 0 +ℤ v ≡ v
zero_left v = omega int_laws

-- Within the bound the loop never overflows, and adds the total.
balance_loop-exact :
    (txs : List Transaction) (currency : Currency) (v : ℤ)
    → InCurrency currency txs
    → magnitude v + weight txs ≤ storage_max
    → balance_loop txs currency (with_amount v currency)
      ≡ ok (with_amount (v +ℤ total txs) currency)
unfolding balance_loop
balance_loop-exact [] currency v h bound = rw (skip_step v)
balance_loop-exact (tx ∷ txs) currency v h bound = elim (Bool-cases (is_deleted tx)) [
  | inl gone ↦ rw gone (balance_loop-exact txs currency v h.1 (omega arith))
  | inr live ↦
      let e = effect tx.type tx.amount.amount in
      let m = effect-magnitude tx.type tx.amount.amount in
      let near = magnitude-+ℤ v e in
      let fits : in_storage (v +ℤ e) ≡ true = in_storage_of (v +ℤ e) (omega arith) in
      rw
        (
          live,
          apply_to-eq v tx currency (magnitude-InStorage v (omega arith)) (omega arith) (h.0 live),
          fits,
        )
        (balance_loop-exact txs currency (v +ℤ e) h.1 (omega arith)
          ∙ ap (λ t. ok (with_amount t currency)) (assoc_step v e (total txs)))
]

from_integer-zero : Decimal.from_integer (pos 0) ≡ ok (pos 0)
unfolding Decimal.from_integer
from_integer-zero = refl

-- If every live transaction is in the account's currency and the magnitudes of all amounts add up
-- within 128 bits, the balance is returned, and it is the exact sum of the live effects.
pub calculate_balance-exact :
    (id : TypedId) (txs : List Transaction) (currency : Currency) (as_of : TimePoint)
    → InCurrency currency txs
    → weight txs ≤ storage_max
    → calculate_balance id txs currency as_of
      ≡ ok (snapshot id (record { amount = total txs; currency = currency }) as_of)
unfolding calculate_balance
calculate_balance-exact id txs currency as_of h bound =
    rw (from_integer-zero, balance_loop-exact txs currency (pos 0) h (omega arith))
      (ap (λ t. ok (snapshot id (with_amount t currency) as_of)) (zero_left (total txs)))

-- No amount is the least 128-bit value.
abbrev pub AreSmall : List Transaction → Type 0
AreSmall = All (λ tx. magnitude tx.amount.amount ≤ storage_max)

other_currency :
    (v : ℤ) (tx : Transaction) (currency : Currency)
    → same_currency tx.amount.currency currency ≡ false
    → apply_to (with_amount v currency) tx currency ≡ err currency_mismatch
unfolding apply_to apply_transaction
other_currency v tx currency other = rw other

balance_loop-ok :
    (txs : List Transaction) (currency : Currency) (v : ℤ) (b : Money)
    → AreSmall txs
    → InStorage v
    → balance_loop txs currency (with_amount v currency) ≡ ok b
    → InCurrency currency txs × (b ≡ with_amount (v +ℤ total txs) currency)
unfolding balance_loop
balance_loop-ok [] currency v b small hv e = (tt, rw (skip_step v) (sym (ok-injective e)))
balance_loop-ok (tx ∷ txs) currency v b small hv e = elim (Bool-cases (is_deleted tx)) [
  | inl gone ↦
      let (cur, eq) = balance_loop-ok txs currency v b small.1 hv (rw gone at e) in
      ((λ live. absurd (cc), cur), rw gone eq)
  | inr live ↦ elim (Bool-cases (same_currency tx.amount.currency currency)) [
    | inl same ↦
        let x = effect tx.type tx.amount.amount in
        let e' = rw (live, apply_to-eq v tx currency hv small.0 same) at e in
        elim (Bool-cases (in_storage (v +ℤ x))) [
          | inl fits ↦
              let (cur, eq) =
                balance_loop-ok txs currency (v +ℤ x) b small.1
                  (Sums.in_storage→InStorage (v +ℤ x) fits) (rw fits at e') in
              (
                ((λ _. same), cur),
                rw live (eq ∙ ap (λ t. with_amount t currency) (assoc_step v x (total txs))),
              )
          | inr over ↦ absurd (err-ne-ok (rw over at e'))
        ]
    | inr other ↦ absurd (err-ne-ok (rw (live, other_currency v tx currency other) at e))
  ]
]

-- A balance that is returned is right: every live transaction is in its currency, and its amount
-- is the exact sum of their effects.
pub calculate_balance-ok :
    (id : TypedId) (txs : List Transaction) (currency : Currency) (as_of : TimePoint)
    (s : BalanceSnapshot)
    → AreSmall txs
    → calculate_balance id txs currency as_of ≡ ok s
    → InCurrency currency txs
      × (s ≡ snapshot id (record { amount = total txs; currency = currency }) as_of)
unfolding calculate_balance
calculate_balance-ok id txs currency as_of s small e =
    let finish = λ (b : Money). ok (snapshot id b as_of) in
    let (b, eb, es) =
      >>=-eq-ok (balance_loop txs currency (with_amount (pos 0) currency)) finish
        (rw from_integer-zero at e) in
    let (cur, eq) = balance_loop-ok txs currency (pos 0) b small (omega arith, omega arith) eb in
    (
      cur,
      sym (ok-injective es)
          ∙ ap (λ t. snapshot id t as_of)
              (eq ∙ ap (λ t. with_amount t currency) (zero_left (total txs))),
    )
