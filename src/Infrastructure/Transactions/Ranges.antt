-- ===== src/Infrastructure/Transactions/Ranges.antt =====
-- include/pfh/infrastructure/persistence/in_memory_transaction_repository.h: the lists of transactions
-- that the queries by time return.
use mathlib.Core.List.{Permᴰ}
use personal_finance_hub.Prelude.{
  ◌≡◌, refl, ◌⊎◌, ◌↔◌, inl, inr, Bool, true, false, not, ◌||◌, ◌&&◌, Option, none, some, List, [],
  ◌∷◌, All, All-weaken, Bool-cases, Option-cases, arith,
}
use personal_finance_hub.Prelude.Int.{◌≤ℤ◌, ◌<ℤ◌, eqb_ℤ→eq, eqb_ℤ_refl}
use personal_finance_hub.Prelude.IdMap
use personal_finance_hub.Domain.ExchangeRate.{TimePoint}
use personal_finance_hub.Domain.Ids.{TypedId, same_id}
use personal_finance_hub.Domain.Transaction.{Transaction, is_deleted}
use personal_finance_hub.Infrastructure.Repository.{RepositoryResult, success}
use personal_finance_hub.Infrastructure.Store.{InMemoryStore}
use personal_finance_hub.Infrastructure.Transactions.{
  in_range, before, sort, filter, of_account, of_user, find_by_account, find_by_user_in_range,
  merge_transactions,
}
use personal_finance_hub.Infrastructure.Transactions.Sorted.{IsSorted, sort-IsSorted, sort-perm}

-- `a` occurred earlier, or at the same time under an id that is not greater.
abbrev pub Precedes : Transaction → Transaction → Type 0
Precedes a b = (a.occurred_at <ℤ b.occurred_at) ⊎ ((a.occurred_at ≡ b.occurred_at) × (a.id ≤ℤ b.id))

-- Each transaction precedes all that follow it.
abbrev pub IsChronological : List Transaction → Type 0
IsChronological [] = Unit
IsChronological (t ∷ txs) = All (Precedes t) txs × IsChronological txs

before-Precedes : (a b : Transaction) → before b a ≡ false → Precedes a b
unfolding before
before-Precedes a b h = ground (arith, eqb_ℤ→eq a.occurred_at b.occurred_at)

IsSorted-IsChronological : (txs : List Transaction) → IsSorted txs → IsChronological txs
IsSorted-IsChronological [] h = tt
IsSorted-IsChronological (t ∷ txs) (h, hs) = (
  All-weaken (λ u. before u t ≡ false) (Precedes t) (before-Precedes t) txs h,
  IsSorted-IsChronological txs hs,
)

-- The start of a range belongs to it, its end does not; a missing bound does not bound.
abbrev pub NotBefore : Option TimePoint → TimePoint → Type 0
NotBefore none at = Unit
NotBefore (some from) at = from ≤ℤ at

abbrev pub Before : Option TimePoint → TimePoint → Type 0
Before none at = Unit
Before (some to) at = at <ℤ to

-- What a query asks of a transaction; `whose` is its account or its user.
pub record IsWanted (id whose : TypedId) (from to : Option TimePoint) (include_deleted : Bool)
    (tx : Transaction) : Type 0 where
  pub same : whose ≡ id
  pub not_early : NotBefore from tx.occurred_at
  pub not_late : Before to tx.occurred_at
  pub shown : (include_deleted ≡ true) ⊎ (tx.deleted_at ≡ none)

-- `kept` are the entries of `rows` with `P`, in their order, each as often as it is there.
pub data Selects (P : Transaction → Type 0) : List Transaction → List Transaction → Type 0 where
  none_left : Selects P [] []
  taken :
      {tx : Transaction} {rows kept : List Transaction}
      → P tx
      → Selects P rows kept
      → Selects P (tx ∷ rows) (tx ∷ kept)
  left_out :
      {tx : Transaction} {rows kept : List Transaction}
      → (P tx → ⊥)
      → Selects P rows kept
      → Selects P (tx ∷ rows) kept

absurd-bool : (b : Bool) → b ≡ true → b ≡ false → ⊥
absurd-bool true h k = cc
absurd-bool false h k = cc

and_iff : (a b : Bool) → ((a && b) ≡ true) ↔ ((a ≡ true) × (b ≡ true))
and_iff true b = (λ h. (refl, h), λ h. h.1)
and_iff false b = (λ h. absurd cc, λ h. h.0)

filter-Selects :
    (P : Transaction → Type 0) (test : Transaction → Bool)
    → ((tx : Transaction) → (test tx ≡ true) ↔ P tx)
    → (rows : List Transaction) → Selects P rows (filter test rows)
unfolding filter
filter-Selects P test exact [] = none_left
filter-Selects P test exact (tx ∷ rows) = elim (Bool-cases (test tx)) [
  | inl passed ↦ rw passed (taken ((exact tx).0 passed) (filter-Selects P test exact rows))
  | inr failed ↦
      rw failed
        (left_out (λ p. absurd-bool _ ((exact tx).1 p) failed) (filter-Selects P test exact rows))
]

in_range-exact :
    (from to : Option TimePoint) (at : TimePoint)
    → (in_range from to at ≡ true) ↔ (NotBefore from at × Before to at)
unfolding in_range
in_range-exact none none at = (λ h. (tt, tt), λ h. refl)
in_range-exact none (some to) at = (λ h. (tt, ground arith), λ h. let (l, r) = h in ground arith)
in_range-exact (some from) none at = (λ h. (ground arith, tt), λ h. let (l, r) = h in ground arith)
in_range-exact (some from) (some to) at =
    (λ h. (ground arith, ground arith), λ h. let (l, r) = h in ground arith)

shown-exact :
    (include_deleted : Bool) (tx : Transaction)
    → ((include_deleted || not (is_deleted tx)) ≡ true)
      ↔ ((include_deleted ≡ true) ⊎ (tx.deleted_at ≡ none))
unfolding is_deleted
shown-exact true tx = (λ h. inl refl, λ h. refl)
shown-exact false tx = elim (Option-cases tx.deleted_at) [
  | inl live ↦ (λ h. inr live, λ h. rw live refl)
  | inr (at, gone) ↦ (
    λ h. absurd (absurd-bool _ h (rw gone refl)),
    λ h. elim h [ inl never ↦ absurd cc | inr live ↦ rw live refl ],
  )
]

IsWanted-exact :
    (id whose : TypedId) (from to : Option TimePoint) (include_deleted : Bool) (tx : Transaction)
    → ((same_id whose id
          && (include_deleted || not (is_deleted tx))
          && in_range from to tx.occurred_at)
        ≡ true)
      ↔ IsWanted id whose from to include_deleted tx
IsWanted-exact id whose from to include_deleted tx =
    let shown = shown-exact include_deleted tx in
    let range = in_range-exact from to tx.occurred_at in
    (
      λ h.
          let (first, in_time) = (and_iff _ (in_range from to tx.occurred_at)).0 h in
          let (mine, visible) =
            (and_iff (same_id whose id) (include_deleted || not (is_deleted tx))).0 first in
          let (early, late) = range.0 in_time in
          record {
            same = eqb_ℤ→eq whose id mine;
            not_early = early;
            not_late = late;
            shown = shown.0 visible;
          },
      λ w. (and_iff _ (in_range from to tx.occurred_at)).1 (
        (and_iff (same_id whose id) (include_deleted || not (is_deleted tx))).1
            (rw w.same (eqb_ℤ_refl id), shown.1 w.shown),
        range.1 (w.not_early, w.not_late),
      ),
    )

-- The answer to a query: a list in order of time, and within one time of ids, of exactly the rows
-- with `P`.
abbrev pub IsAnswer :
    (Transaction → Type 0) → List Transaction → RepositoryResult (List Transaction) → Type 0
IsAnswer P rows r =
    (txs : List Transaction) × (kept : List Transaction) × (r ≡ success txs)
    × IsChronological txs
    × Selects P rows kept
    × Permᴰ txs kept

sorted-IsAnswer :
    (P : Transaction → Type 0) (test : Transaction → Bool)
    → ((tx : Transaction) → (test tx ≡ true) ↔ P tx)
    → (rows : List Transaction) → IsAnswer P rows (success (sort (filter test rows)))
sorted-IsAnswer P test exact rows = (
  sort (filter test rows),
  filter test rows,
  refl,
  IsSorted-IsChronological _ (sort-IsSorted (filter test rows)),
  filter-Selects P test exact rows,
  sort-perm (filter test rows),
)

-- The transactions of an account, or of a user, in a range of time are exactly those rows of the
-- transaction's view that belong to it, occurred at the start of the range or later and before its
-- end, and are not deleted unless deleted ones are asked for; each once, by time and then by id.
pub find_in_range-IsAnswer :
    (id : TypedId) (from to : Option TimePoint) (include_deleted : Bool) (s : InMemoryStore)
    → IsAnswer
        (λ tx. IsWanted id tx.account_id from to include_deleted tx)
        (IdMap.values (merge_transactions s))
        (find_by_account id from to include_deleted s)
      × IsAnswer
          (λ tx. IsWanted id tx.user_id from to include_deleted tx)
          (IdMap.values (merge_transactions s))
          (find_by_user_in_range id from to include_deleted s)
unfolding find_by_account find_by_user_in_range of_account of_user
find_in_range-IsAnswer id from to include_deleted s = (
  sorted-IsAnswer _ (of_account id from to include_deleted)
      (λ tx. IsWanted-exact id tx.account_id from to include_deleted tx) _,
  sorted-IsAnswer _ (of_user id from to include_deleted)
      (λ tx. IsWanted-exact id tx.user_id from to include_deleted tx) _,
)
