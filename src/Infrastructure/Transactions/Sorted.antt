-- ===== src/Infrastructure/Transactions/Sorted.antt =====
-- include/pfh/infrastructure/persistence/in_memory_transaction_repository.h: the sort of the queries by
-- time.
use mathlib.Core.List.{Permᴰ}
use mathlib.Core.List.Permᴰ
use personal_finance_hub.Prelude.{
  ◌≡◌, refl, inl, inr, true, false, List, [], ◌∷◌, All, Bool-cases, arith,
}
use personal_finance_hub.Domain.Transaction.{Transaction}
use personal_finance_hub.Infrastructure.Transactions.{before, insert_sorted, sort}

-- No transaction comes before one to its left.
abbrev pub IsSorted : List Transaction → Type 0
IsSorted [] = Unit
IsSorted (t ∷ txs) = All (λ u. before u t ≡ false) txs × IsSorted txs

before_trans : (a b c : Transaction) → before b a ≡ false → before c b ≡ false → before c a ≡ false
unfolding before
before_trans a b c h k = ground arith

before-asym : (a b : Transaction) → before a b ≡ true → before b a ≡ false
unfolding before
before-asym a b h = ground arith

All-before :
    (a b : Transaction) (txs : List Transaction)
    → before b a ≡ false
    → All (λ u. before u b ≡ false) txs
    → All (λ u. before u a ≡ false) txs
All-before a b [] h k = tt
All-before a b (u ∷ txs) h (k, ks) = (before_trans a b u h k, All-before a b txs h ks)

insert_sorted-All :
    (t tx : Transaction) (txs : List Transaction)
    → before tx t ≡ false
    → All (λ u. before u t ≡ false) txs
    → All (λ u. before u t ≡ false) (insert_sorted tx txs)
unfolding insert_sorted
insert_sorted-All t tx [] h k = (h, tt)
insert_sorted-All t tx (u ∷ txs) h (k, ks) = elim (Bool-cases (before u tx)) [
  | inl less ↦ rw less (k, insert_sorted-All t tx txs h ks)
  | inr more ↦ rw more (h, (k, ks))
]

insert_sorted-IsSorted :
    (tx : Transaction) (txs : List Transaction) → IsSorted txs → IsSorted (insert_sorted tx txs)
unfolding insert_sorted
insert_sorted-IsSorted tx [] h = (tt, tt)
insert_sorted-IsSorted tx (t ∷ txs) (h, hs) = elim (Bool-cases (before t tx)) [
  | inl less ↦
      rw less
        (insert_sorted-All t tx txs (before-asym t tx less) h, insert_sorted-IsSorted tx txs hs)
  | inr more ↦ rw more ((more, All-before tx t txs more h), (h, hs))
]

pub sort-IsSorted : (txs : List Transaction) → IsSorted (sort txs)
unfolding sort
sort-IsSorted [] = tt
sort-IsSorted (tx ∷ txs) = insert_sorted-IsSorted tx (sort txs) (sort-IsSorted txs)

insert_sorted-perm :
    (tx : Transaction) (txs : List Transaction) → Permᴰ (insert_sorted tx txs) (tx ∷ txs)
unfolding insert_sorted
insert_sorted-perm tx [] = Permᴰ.refl (tx ∷ [])
insert_sorted-perm tx (t ∷ txs) = elim (Bool-cases (before t tx)) [
  | inl less ↦
      rw less (Permᴰ.trans (Permᴰ.cons refl (insert_sorted-perm tx txs)) (Permᴰ.swap refl refl))
  | inr more ↦ rw more (Permᴰ.refl (tx ∷ t ∷ txs))
]

pub sort-perm : (txs : List Transaction) → Permᴰ (sort txs) txs
unfolding sort
sort-perm [] = Permᴰ.nil
sort-perm (tx ∷ txs) =
    Permᴰ.trans (insert_sorted-perm tx (sort txs)) (Permᴰ.cons refl (sort-perm txs))
