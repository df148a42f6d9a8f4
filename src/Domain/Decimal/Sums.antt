-- ===== src/Domain/Decimal/Sums.antt =====
-- src/domain/decimal.cpp: laws of Decimal::add and Decimal::subtract, over their exact results.
use personal_finance_hub.Prelude.{◌≡◌, sym, ap, ◌∙◌, inl, inr, true, false, arith, Bool-cases}
use personal_finance_hub.Prelude.Int.{ℤ, negsuc, ◌+ℤ◌, ◌-ℤ◌, eqb_ℤ, int_laws}
use personal_finance_hub.Domain.Error.{ok, ok-injective, err-ne-ok}
use personal_finance_hub.Domain.Decimal.{Decimal, storage_max, add, subtract}
use personal_finance_hub.Domain.Decimal.Checked.{InStorage, in_storage, add-eq, subtract-eq}

pub +ℤ_comm : (a b : ℤ) → a +ℤ b ≡ b +ℤ a
+ℤ_comm a b = omega int_laws

pub +ℤ_cancel : (a b : ℤ) → a +ℤ b -ℤ b ≡ a
+ℤ_cancel a b = omega int_laws

pub add_comm : (a b : Decimal) → InStorage a → InStorage b → add a b ≡ add b a
add_comm a b ha hb = add-eq a b ha hb ∙ (rw (+ℤ_comm a b) (sym (add-eq b a hb ha)))

pub in_storage→InStorage : (v : ℤ) → in_storage v ≡ true → InStorage v
in_storage→InStorage v h = (ground arith, ground arith)

pub InStorage→in_storage : (v : ℤ) → InStorage v → in_storage v ≡ true
InStorage→in_storage v h = ground arith

-- A sum that is returned is the exact one, and a value of the storage type.
pub add-ok :
    (a b s : Decimal) → InStorage a → InStorage b → add a b ≡ ok s → (s ≡ a +ℤ b) × InStorage s
add-ok a b s ha hb e = elim (Bool-cases (in_storage (a +ℤ b))) [
  | inl fits ↦
      let same : a +ℤ b ≡ s = ok-injective (rw fits at (sym (add-eq a b ha hb) ∙ e)) in
      (sym same, rw same at (in_storage→InStorage (a +ℤ b) fits))
  | inr over ↦ absurd (err-ne-ok (rw over at (sym (add-eq a b ha hb) ∙ e)))
]

pub subtract-add :
    (a b s : Decimal)
    → InStorage a
    → InStorage b
    → eqb_ℤ b (negsuc storage_max) ≡ false
    → add a b ≡ ok s
    → subtract s b ≡ ok a
subtract-add a b s ha hb nb e =
    let (exact, hs) = add-ok a b s ha hb e in
    subtract-eq s b hs hb
    ∙ (let back : s -ℤ b ≡ a = ap (λ t. t -ℤ b) exact ∙ +ℤ_cancel a b in
        rw (back, InStorage→in_storage a ha, nb))
