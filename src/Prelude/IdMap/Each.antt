-- ===== src/Prelude/IdMap/Each.antt =====
-- What holds of every entry of a std::map stays so when entries are added and erased.
use mathlib.Core.Path.{◌≡◌, sym}
use mathlib.Core.Logic.{inl, inr}
use mathlib.Core.Option.{some, some-injective, none-ne-some}
use mathlib.Core.List.{List, [], ◌∷◌}
use personal_finance_hub.Prelude.Tests.{Bool-cases}
use personal_finance_hub.Prelude.Int.{ℤ, eqb_ℤ, ltb_ℤ, eqb_ℤ→eq}
use personal_finance_hub.Prelude.IdMap.{IdMap, find, insert_or_assign, erase, insert_all, erase_all}

module _ {ℓ κ} {V : Type ℓ} (P : ℤ → V → Type κ) where
  abbrev pub Each : IdMap V → Type κ
  Each [] = Unit
  Each ((k, v) ∷ m) = P k v × Each m

  pub find-Each : (key : ℤ) (m : IdMap V) {v : V} → Each m → find key m ≡ some v → P key v
  unfolding find
  find-Each key [] h = λ e. absurd (none-ne-some _ e)
  find-Each key ((k, v) ∷ m) (h, hs) = elim (Bool-cases (eqb_ℤ k key)) [
    | inl same ↦ rw same λ e. rw (sym (some-injective _ _ e), sym (eqb_ℤ→eq k key same)) h
    | inr other ↦ rw other λ e. find-Each key m hs e
  ]

  pub insert_or_assign-Each :
      (key : ℤ) (value : V) (m : IdMap V)
      → P key value
      → Each m
      → Each (insert_or_assign key value m)
  unfolding insert_or_assign
  insert_or_assign-Each key value [] p h = (p, tt)
  insert_or_assign-Each key value ((k, v) ∷ m) p (h, hs) = elim (Bool-cases (eqb_ℤ k key)) [
    | inl same ↦ rw same (p, hs)
    | inr other ↦ rw other (elim (Bool-cases (ltb_ℤ key k)) [
      | inl less ↦ rw less (p, (h, hs))
      | inr more ↦ rw more (h, insert_or_assign-Each key value m p hs)
    ])
  ]

  pub erase-Each : (key : ℤ) (m : IdMap V) → Each m → Each (erase key m)
  unfolding erase
  erase-Each key [] h = tt
  erase-Each key ((k, v) ∷ m) (h, hs) = elim (Bool-cases (eqb_ℤ k key)) [
    | inl same ↦ rw same (erase-Each key m hs)
    | inr other ↦ rw other (h, erase-Each key m hs)
  ]

  pub insert_all-Each : (entries m : IdMap V) → Each entries → Each m → Each (insert_all entries m)
  unfolding insert_all
  insert_all-Each [] m h k = k
  insert_all-Each ((id, v) ∷ entries) m (h, hs) k =
      insert_all-Each entries (insert_or_assign id v m) hs (insert_or_assign-Each id v m h k)

  pub erase_all-Each : (ids : List ℤ) (m : IdMap V) → Each m → Each (erase_all ids m)
  unfolding erase_all
  erase_all-Each [] m h = h
  erase_all-Each (id ∷ ids) m h = erase_all-Each ids (erase id m) (erase-Each id m h)
