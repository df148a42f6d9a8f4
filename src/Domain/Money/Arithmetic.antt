-- ===== src/Domain/Money/Arithmetic.antt =====
-- src/domain/money.cpp: sums of money, their order and their inverse.
use mathlib.Core.Path.{subst}
use personal_finance_hub.Prelude.{
  ◌≡◌, refl, sym, ap, ◌∙◌, inl, inr, true, false, not, bytes_eq, bytes_eq_refl, bytes_eq→eq,
  bytes_eq-cons_comm, [], ◌∷◌, arith, Bool-cases,
}
use personal_finance_hub.Prelude.Int.{negsuc, ◌+ℤ◌, eqb_ℤ}
use personal_finance_hub.Domain.Error.{
  ok, ◌>>=◌, currency_mismatch, >>=-eq-ok, guard-eq-ok, ok-injective,
}
use personal_finance_hub.Domain.Decimal
use personal_finance_hub.Domain.Decimal.{Decimal, storage_max}
use personal_finance_hub.Domain.Decimal.Checked.{InStorage}
use personal_finance_hub.Domain.Decimal.Sums
use personal_finance_hub.Domain.Currency.{Currency, same_currency}
use personal_finance_hub.Domain.Money.{Money, add, subtract}

pub same_currency_comm : (a b : Currency) → same_currency a b ≡ same_currency b a
same_currency_comm [] [] = refl
same_currency_comm [] (y ∷ ys) = unfold bytes_eq in refl
same_currency_comm (x ∷ xs) [] = unfold bytes_eq in refl
same_currency_comm (x ∷ xs) (y ∷ ys) = bytes_eq-cons_comm x y xs ys (same_currency_comm xs ys)

-- The sum of two amounts, or the error, does not depend on their order.
pub add_comm : (a b : Money) → InStorage a.amount → InStorage b.amount → add a b ≡ add b a
unfolding add
add_comm a b ha hb = elim (Bool-cases (same_currency a.currency b.currency)) [
  | inl same ↦
      let code = bytes_eq→eq a.currency b.currency same in
      rw
        (
          same,
          sym (same_currency_comm a.currency b.currency) ∙ same,
          Sums.add_comm a.amount b.amount ha hb,
        )
        (ap (λ c. Decimal.add b.amount a.amount >>= λ s. ok (record { amount = s; currency = c }))
          code)
  | inr other ↦ rw (other, sym (same_currency_comm a.currency b.currency) ∙ other)
]

-- A sum that is returned keeps the currency of both, and its amount is the exact sum.
pub add-ok :
    (a b c : Money)
    → InStorage a.amount
    → InStorage b.amount
    → add a b ≡ ok c
    → (a.currency ≡ b.currency)
      × (c.currency ≡ a.currency)
      × (Decimal.add a.amount b.amount ≡ ok c.amount)
      × (c.amount ≡ a.amount +ℤ b.amount)
      × InStorage c.amount
unfolding add
add-ok a b c ha hb e =
    let build =
      λ (s : Decimal). ok (let m : Money = record { amount = s; currency = a.currency } in m) in
    let (same, e') =
      guard-eq-ok (not (same_currency a.currency b.currency)) currency_mismatch
        (Decimal.add a.amount b.amount >>= build) e in
    let (s, es, e'') = >>=-eq-ok (Decimal.add a.amount b.amount) build e' in
    let whole = ok-injective e'' in
    let amount : s ≡ c.amount = ap (λ (m : Money). m.amount) whole in
    let (exact, fits) = Sums.add-ok a.amount b.amount s ha hb es in
    (
      bytes_eq→eq a.currency b.currency (ground arith),
      ap (λ (m : Money). m.currency) (sym whole),
      es ∙ ap ok amount,
      sym amount ∙ exact,
      subst InStorage amount fits,
    )

-- Subtracting what was added gives the first amount back, unless it was the least 128-bit value.
pub subtract-add :
    (a b c : Money)
    → InStorage a.amount
    → InStorage b.amount
    → eqb_ℤ b.amount (negsuc storage_max) ≡ false
    → add a b ≡ ok c
    → subtract c b ≡ ok a
unfolding subtract
subtract-add a b c ha hb nb e =
    let (code, kept, sum, _, _) = add-ok a b c ha hb e in
    let same : same_currency c.currency b.currency ≡ true =
      subst (λ t. same_currency t b.currency ≡ true) (sym (kept ∙ code))
        (bytes_eq_refl b.currency) in
    rw (same, Sums.subtract-add a.amount b.amount c.amount ha hb nb sum)
      (ap (λ t. ok (record { amount = a.amount; currency = t })) kept)
