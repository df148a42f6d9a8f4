-- ===== src/Prelude/Dict.antt =====
-- A std::map with text keys, as an association list without order: the code looks keys up, and the
-- one loop that stops early, the cleanup of sessions, sorts the rows by key before it walks them.
pub mod Merge
use mathlib.Core.Path.{◌≡◌, refl}
use mathlib.Core.Logic.{inl, inr}
use mathlib.Core.Bool.{Bool, true, false}
use mathlib.Core.Option.{Option, none, some}
use mathlib.Core.List.{List, [], ◌∷◌}
use personal_finance_hub.Prelude.Tests.{if◌then◌else◌, Bool-cases}
use personal_finance_hub.Prelude.Text.{Bytes, bytes_eq, bytes_eq_refl, bytes_eq→eq}

module _ {ℓ} {V : Type ℓ} where
  unfoldable pub find : Bytes → List (Bytes × V) → Option V
  find key [] = none
  find key ((k, v) ∷ rest) = if bytes_eq k key then some v else find key rest

  unfoldable pub insert_or_assign : Bytes → V → List (Bytes × V) → List (Bytes × V)
  insert_or_assign key value [] = (key, value) ∷ []
  insert_or_assign key value ((k, v) ∷ rest) =
      if bytes_eq k key then (k, value) ∷ rest else (k, v) ∷ insert_or_assign key value rest

  -- The key that was written has the new value.
  pub find-insert_or_assign :
      (key : Bytes) (value : V) (d : List (Bytes × V))
      → find key (insert_or_assign key value d) ≡ some value
  unfolding find insert_or_assign
  find-insert_or_assign key value [] = rw (bytes_eq_refl key) refl
  find-insert_or_assign key value ((k, v) ∷ rest) = elim (Bool-cases (bytes_eq k key)) [
    | inl same ↦ rw (same, same) refl
    | inr other ↦ rw (other, other) (find-insert_or_assign key value rest)
  ]

  -- Every other key keeps its value.
  pub find-insert_or_assign_other :
      (key other : Bytes) (value : V) (d : List (Bytes × V))
      → bytes_eq key other ≡ false
      → find other (insert_or_assign key value d) ≡ find other d
  unfolding find insert_or_assign
  find-insert_or_assign_other key other value [] h = rw h refl
  find-insert_or_assign_other key other value ((k, v) ∷ rest) h =
      elim (Bool-cases (bytes_eq k key)) [
        | inl same ↦ rw (same, bytes_eq→eq k key same, h) refl
        | inr new ↦ rw new (elim (Bool-cases (bytes_eq k other)) [
          | inl hit ↦ rw hit refl
          | inr miss ↦ rw miss (find-insert_or_assign_other key other value rest h)
        ])
      ]

  unfoldable pub contains : Bytes → List (Bytes × V) → Bool
  contains key d = elim (find key d) [ none ↦ false | some _ ↦ true ]

  unfoldable pub emplace : Bytes → V → List (Bytes × V) → List (Bytes × V)
  emplace key value d = if contains key d then d else insert_or_assign key value d

  unfoldable pub erase : Bytes → List (Bytes × V) → List (Bytes × V)
  erase key [] = []
  erase key ((k, v) ∷ rest) =
      let others = erase key rest in if bytes_eq k key then others else (k, v) ∷ others

  unfoldable pub insert_all : List (Bytes × V) → List (Bytes × V) → List (Bytes × V)
  insert_all [] d = d
  insert_all ((k, v) ∷ entries) d = insert_all entries (insert_or_assign k v d)

  unfoldable pub erase_all : List Bytes → List (Bytes × V) → List (Bytes × V)
  erase_all [] d = d
  erase_all (key ∷ keys) d = erase_all keys (erase key d)

unfoldable pub elem : Bytes → List Bytes → Bool
elem key [] = false
elem key (k ∷ ks) = if bytes_eq k key then true else elem key ks

-- std::set::insert
unfoldable pub insert : Bytes → List Bytes → List Bytes
insert key keys = if elem key keys then keys else key ∷ keys
