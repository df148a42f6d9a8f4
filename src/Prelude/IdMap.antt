-- ===== src/Prelude/IdMap.antt =====
-- A std::map with integer keys: an association list in the order of its keys.
pub mod Order
pub mod Each
use mathlib.Core.Path.{◌≡◌, refl}
use mathlib.Core.Logic.{inl, inr}
use mathlib.Core.Bool.{Bool, true, false}
use mathlib.Core.Option.{Option, none, some}
use mathlib.Core.List.{List, [], ◌∷◌, map}
use native.Mathlib.Omega.{arith}
use personal_finance_hub.Prelude.Tests.{if◌then◌else◌, Bool-cases}
use personal_finance_hub.Prelude.Int.{ℤ, eqb_ℤ, ltb_ℤ, eqb_ℤ→eq, eqb_ℤ_refl}

abbrev pub IdMap {ℓ} : Type ℓ → Type ℓ
IdMap V = List (ℤ × V)

abbrev pub has_value {ℓ} : {A : Type ℓ} → Option A → Bool
has_value none = false
has_value (some a) = true

-- The first of two optional values that is there.
abbrev pub or_else {ℓ} : {A : Type ℓ} → Option A → Option A → Option A
or_else none b = b
or_else (some a) b = some a

module _ {ℓ} {V : Type ℓ} where
  unfoldable pub find : ℤ → IdMap V → Option V
  find key [] = none
  find key ((k, v) ∷ rest) = if eqb_ℤ k key then some v else find key rest

  unfoldable pub contains : ℤ → IdMap V → Bool
  contains key m = has_value (find key m)

  unfoldable pub insert_or_assign : ℤ → V → IdMap V → IdMap V
  insert_or_assign key value [] = (key, value) ∷ []
  insert_or_assign key value ((k, v) ∷ rest) =
      let later = insert_or_assign key value rest in
      if eqb_ℤ k key
      then (key, value) ∷ rest
      else if ltb_ℤ key k
      then (key, value) ∷ (k, v) ∷ rest
      else (k, v) ∷ later

  -- `emplace` keeps a value that is there already.
  unfoldable pub emplace : ℤ → V → IdMap V → IdMap V
  emplace key value m = if contains key m then m else insert_or_assign key value m

  unfoldable pub erase : ℤ → IdMap V → IdMap V
  erase key [] = []
  erase key ((k, v) ∷ rest) =
      let rest' = erase key rest in if eqb_ℤ k key then rest' else (k, v) ∷ rest'

  -- for (auto& [k, v] : entries) m.insert_or_assign(k, v)
  unfoldable pub insert_all : IdMap V → IdMap V → IdMap V
  insert_all [] m = m
  insert_all ((k, v) ∷ entries) m = insert_all entries (insert_or_assign k v m)

  -- for (id : ids) m.erase(id)
  unfoldable pub erase_all : List ℤ → IdMap V → IdMap V
  erase_all [] m = m
  erase_all (id ∷ ids) m = erase_all ids (erase id m)

  unfoldable pub values : IdMap V → List V
  values [] = []
  values ((k, v) ∷ rest) = v ∷ values rest

unfoldable pub elem : ℤ → List ℤ → Bool
elem id [] = false
elem id (x ∷ xs) = if eqb_ℤ x id then true else elem id xs

module _ {ℓ} {V : Type ℓ} where
  pub find-insert_or_assign :
      (key other : ℤ) (value : V) (m : IdMap V)
      → find other (insert_or_assign key value m)
        ≡ (if eqb_ℤ key other then some value else find other m)
  unfolding find insert_or_assign
  find-insert_or_assign key other value [] = refl
  find-insert_or_assign key other value ((k, v) ∷ rest) = ground (
    arith,
    find-insert_or_assign key other value rest,
    eqb_ℤ→eq k key,
    eqb_ℤ→eq k other,
    eqb_ℤ→eq key other,
  )

  pub find-erase :
      (key other : ℤ) (m : IdMap V)
      → find other (erase key m) ≡ (if eqb_ℤ key other then none else find other m)
  unfolding find erase
  find-erase key other [] = ground arith
  find-erase key other ((k, v) ∷ rest) =
      ground
        (arith, find-erase key other rest, eqb_ℤ→eq k key, eqb_ℤ→eq k other, eqb_ℤ→eq key other)

  pub find-erase_all :
      (ids : List ℤ) (key : ℤ) (m : IdMap V)
      → find key (erase_all ids m) ≡ (if elem key ids then none else find key m)
  unfolding erase_all elem
  find-erase_all [] key m = refl
  find-erase_all (id ∷ ids) key m =
      ground (arith, find-erase_all ids key (erase id m), find-erase id key m)
