-- ===== src/Prelude/Dict/Merge.antt =====
-- What is found in a map with text keys after its entries are erased, or others written over them.
use mathlib.Core.Path.{◌≡◌, refl, sym, ap, ◌∙◌}
use mathlib.Core.Logic.{inl, inr}
use mathlib.Core.Bool.{false}
use mathlib.Core.Option.{none, some}
use mathlib.Core.List.{List, [], ◌∷◌}
use native.Mathlib.Omega.{arith}
use personal_finance_hub.Prelude.Tests.{if◌then◌else◌, Bool-cases}
use personal_finance_hub.Prelude.Text.{Bytes, bytes_eq, bytes_eq_refl, bytes_eq→eq}
use personal_finance_hub.Prelude.IdMap.{or_else}
use personal_finance_hub.Prelude.Dict.{
  find, contains, insert_or_assign, emplace, erase, insert_all, erase_all, elem,
  find-insert_or_assign, find-insert_or_assign_other,
}

different : (k key : Bytes) → bytes_eq k key ≡ false → k ≡ key → ⊥
different k key e same = cc (bytes_eq_refl key, ap (λ x. bytes_eq x key) same)

not-same : (k key : Bytes) → (k ≡ key → ⊥) → bytes_eq k key ≡ false
not-same k key h = elim (Bool-cases (bytes_eq k key)) [
  | inl e ↦ absurd (h (bytes_eq→eq k key e))
  | inr e ↦ e
]

module _ {ℓ} {V : Type ℓ} where
  pub find-assign :
      (key other : Bytes) (value : V) (d : List (Bytes × V))
      → find other (insert_or_assign key value d)
        ≡ (if bytes_eq key other then some value else find other d)
  find-assign key other value d = elim (Bool-cases (bytes_eq key other)) [
    | inl e ↦ rw (e, sym (bytes_eq→eq key other e), find-insert_or_assign key value d) refl
    | inr e ↦ rw (e, find-insert_or_assign_other key other value d e) refl
  ]

  pub find-erase :
      (key other : Bytes) (d : List (Bytes × V))
      → find other (erase key d) ≡ (if bytes_eq key other then none else find other d)
  unfolding find erase
  find-erase key other [] = ground arith
  find-erase key other ((k, v) ∷ rest) = elim (Bool-cases (bytes_eq k key)) [
    | inl e ↦
        rw (e, bytes_eq→eq k key e, find-erase key other rest)
          (elim (Bool-cases (bytes_eq key other)) [ inl f ↦ rw f refl | inr f ↦ rw f refl ])
    | inr e ↦
        rw (e, find-erase key other rest)
          (elim (Bool-cases (bytes_eq k other)) [
            | inl f ↦ elim (Bool-cases (bytes_eq key other)) [
              | inl g ↦
                  absurd (different k key e (bytes_eq→eq k other f ∙ sym (bytes_eq→eq key other g)))
              | inr g ↦ rw (f, g) refl
            ]
            | inr f ↦ rw f refl
          ])
  ]

  pub find-erase_all :
      (keys : List Bytes) (key : Bytes) (d : List (Bytes × V))
      → find key (erase_all keys d) ≡ (if elem key keys then none else find key d)
  unfolding erase_all elem
  find-erase_all [] key d = refl
  find-erase_all (k ∷ ks) key d =
      rw (find-erase_all ks key (erase k d), find-erase k key d)
        (elim (Bool-cases (bytes_eq k key)) [
          | inl e ↦ rw e (elim (Bool-cases (elem key ks)) [ inl f ↦ rw f refl | inr f ↦ rw f refl ])
          | inr e ↦ rw e refl
        ])

  -- No two entries have the same key.
  abbrev pub HasDistinctKeys : List (Bytes × V) → Type ℓ
  HasDistinctKeys [] = Unit
  HasDistinctKeys ((k, v) ∷ rest) = (find k rest ≡ none) × HasDistinctKeys rest

  pub insert_or_assign-HasDistinctKeys :
      (key : Bytes) (value : V) (d : List (Bytes × V))
      → HasDistinctKeys d
      → HasDistinctKeys (insert_or_assign key value d)
  unfolding insert_or_assign find
  insert_or_assign-HasDistinctKeys key value [] h = (refl, tt)
  insert_or_assign-HasDistinctKeys key value ((k, v) ∷ rest) (h, hs) =
      elim (Bool-cases (bytes_eq k key)) [
        | inl e ↦ rw e (h, hs)
        | inr e ↦ rw e (
          find-assign key k value rest
              ∙ rw (not-same key k (λ q. different k key e (sym q)), h) refl,
          insert_or_assign-HasDistinctKeys key value rest hs,
        )
      ]

  pub erase-HasDistinctKeys :
      (key : Bytes) (d : List (Bytes × V)) → HasDistinctKeys d → HasDistinctKeys (erase key d)
  unfolding erase find
  erase-HasDistinctKeys key [] h = tt
  erase-HasDistinctKeys key ((k, v) ∷ rest) (h, hs) = elim (Bool-cases (bytes_eq k key)) [
    | inl e ↦ rw e (erase-HasDistinctKeys key rest hs)
    | inr e ↦ rw e (
      find-erase key k rest ∙ rw (not-same key k (λ q. different k key e (sym q)), h) refl,
      erase-HasDistinctKeys key rest hs,
    )
  ]

  -- The entries that are written over a map hide its own.
  pub find-insert_all :
      (entries : List (Bytes × V)) (key : Bytes) (d : List (Bytes × V))
      → HasDistinctKeys entries
      → find key (insert_all entries d) ≡ or_else (find key entries) (find key d)
  unfolding insert_all find
  find-insert_all [] key d h = refl
  find-insert_all ((k, v) ∷ entries) key d (h, hs) =
      rw (find-insert_all entries key (insert_or_assign k v d) hs, find-assign k key v d)
        (elim (Bool-cases (bytes_eq k key)) [
          | inl e ↦ rw (e, sym (bytes_eq→eq k key e), h) refl
          | inr e ↦ rw e refl
        ])

  pub emplace-new :
      (key : Bytes) (value : V) (d : List (Bytes × V))
      → find key d ≡ none
      → emplace key value d ≡ insert_or_assign key value d
  unfolding emplace contains
  emplace-new key value d h = rw (contains, h) refl
