-- ===== src/Prelude/IdMap/Order.antt =====
-- The order of the keys of a std::map, which every operation keeps, and what a merge of two maps
-- finds.
use mathlib.Core.Path.{◌≡◌, refl, sym}
use mathlib.Core.Logic.{inl, inr}
use mathlib.Core.Bool.{true}
use mathlib.Core.Option.{none}
use mathlib.Core.List.{List, [], ◌∷◌}
use native.Mathlib.Omega.{arith}
use personal_finance_hub.Prelude.Tests.{Bool-cases}
use personal_finance_hub.Prelude.Int.{ℤ, eqb_ℤ, ltb_ℤ, eqb_ℤ→eq}
use personal_finance_hub.Prelude.IdMap.{
  IdMap, or_else, contains, find, insert_or_assign, emplace, erase, insert_all, erase_all,
  find-insert_or_assign,
}

module _ {ℓ} {V : Type ℓ} where
  -- Every key of the map is greater.
  abbrev pub Above : ℤ → IdMap V → Type 0
  Above key [] = Unit
  Above key ((k, v) ∷ rest) = (ltb_ℤ key k ≡ true) × Above key rest

  abbrev pub IsOrdered : IdMap V → Type 0
  IsOrdered [] = Unit
  IsOrdered ((k, v) ∷ rest) = Above k rest × IsOrdered rest

  pub find-Above : (key : ℤ) (m : IdMap V) → Above key m → find key m ≡ none
  unfolding find
  find-Above key [] h = refl
  find-Above key ((k, v) ∷ rest) (h, hs) = ground (arith, find-Above key rest hs)

  Above-trans : (a b : ℤ) (m : IdMap V) → ltb_ℤ a b ≡ true → Above b m → Above a m
  Above-trans a b [] h k = tt
  Above-trans a b ((c, v) ∷ rest) h (k, ks) = (ground arith, Above-trans a b rest h ks)

  insert_or_assign-Above :
      (a key : ℤ) (value : V) (m : IdMap V)
      → ltb_ℤ a key ≡ true
      → Above a m
      → Above a (insert_or_assign key value m)
  unfolding insert_or_assign
  insert_or_assign-Above a key value [] h k = (h, tt)
  insert_or_assign-Above a key value ((c, v) ∷ rest) h (k, ks) = elim (Bool-cases (eqb_ℤ c key)) [
    | inl e ↦ rw e (h, ks)
    | inr e ↦ rw e (elim (Bool-cases (ltb_ℤ key c)) [
      | inl l ↦ rw l (h, (k, ks))
      | inr l ↦ rw l (k, insert_or_assign-Above a key value rest h ks)
    ])
  ]

  pub insert_or_assign-IsOrdered :
      (key : ℤ) (value : V) (m : IdMap V) → IsOrdered m → IsOrdered (insert_or_assign key value m)
  unfolding insert_or_assign
  insert_or_assign-IsOrdered key value [] h = (tt, tt)
  insert_or_assign-IsOrdered key value ((c, v) ∷ rest) (h, hs) = elim (Bool-cases (eqb_ℤ c key)) [
    | inl e ↦ rw e (rw (sym (eqb_ℤ→eq c key e)) h, hs)
    | inr e ↦ rw e (elim (Bool-cases (ltb_ℤ key c)) [
      | inl l ↦ rw l ((l, Above-trans key c rest l h), (h, hs))
      | inr l ↦ rw l (
        insert_or_assign-Above c key value rest (ground arith) h,
        insert_or_assign-IsOrdered key value rest hs,
      )
    ])
  ]

  erase-Above : (a key : ℤ) (m : IdMap V) → Above a m → Above a (erase key m)
  unfolding erase
  erase-Above a key [] h = tt
  erase-Above a key ((c, v) ∷ rest) (h, hs) = elim (Bool-cases (eqb_ℤ c key)) [
    | inl e ↦ rw e (erase-Above a key rest hs)
    | inr e ↦ rw e (h, erase-Above a key rest hs)
  ]

  pub erase-IsOrdered : (key : ℤ) (m : IdMap V) → IsOrdered m → IsOrdered (erase key m)
  unfolding erase
  erase-IsOrdered key [] h = tt
  erase-IsOrdered key ((c, v) ∷ rest) (h, hs) = elim (Bool-cases (eqb_ℤ c key)) [
    | inl e ↦ rw e (erase-IsOrdered key rest hs)
    | inr e ↦ rw e (erase-Above c key rest h, erase-IsOrdered key rest hs)
  ]

  pub emplace-IsOrdered :
      (key : ℤ) (value : V) (m : IdMap V) → IsOrdered m → IsOrdered (emplace key value m)
  unfolding emplace
  emplace-IsOrdered key value m h = elim (Bool-cases (contains key m)) [
    | inl e ↦ rw e h
    | inr e ↦ rw e (insert_or_assign-IsOrdered key value m h)
  ]

  pub insert_all-IsOrdered : (entries m : IdMap V) → IsOrdered m → IsOrdered (insert_all entries m)
  unfolding insert_all
  insert_all-IsOrdered [] m h = h
  insert_all-IsOrdered ((k, v) ∷ entries) m h =
      insert_all-IsOrdered entries (insert_or_assign k v m) (insert_or_assign-IsOrdered k v m h)

  pub erase_all-IsOrdered : (ids : List ℤ) (m : IdMap V) → IsOrdered m → IsOrdered (erase_all ids m)
  unfolding erase_all
  erase_all-IsOrdered [] m h = h
  erase_all-IsOrdered (id ∷ ids) m h = erase_all-IsOrdered ids (erase id m) (erase-IsOrdered id m h)

  -- The entries that are written over a map hide its own.
  pub find-insert_all :
      (entries : IdMap V) (key : ℤ) (m : IdMap V)
      → IsOrdered entries
      → find key (insert_all entries m) ≡ or_else (find key entries) (find key m)
  unfolding insert_all find
  find-insert_all [] key m h = refl
  find-insert_all ((k, v) ∷ entries) key m (h, hs) = elim (Bool-cases (eqb_ℤ k key)) [
    | inl e ↦
        rw
          (
            find-insert_all entries key (insert_or_assign k v m) hs,
            find-insert_or_assign k key v m,
            e,
            sym (eqb_ℤ→eq k key e),
            find-Above k entries h,
          )
          refl
    | inr e ↦
        rw
          (
            find-insert_all entries key (insert_or_assign k v m) hs,
            find-insert_or_assign k key v m,
            e,
          )
          refl
  ]
