-- ===== src/Infrastructure/Merged.antt =====
-- The view of a table that the repositories have in a transaction: what is committed, under what
-- is staged, without what is deleted.
use personal_finance_hub.Prelude.{
  ◌≡◌, refl, ◌∙◌, Bool, true, false, Option, none, List, if◌then◌else◌,
}
use personal_finance_hub.Prelude.Int.{ℤ}
use personal_finance_hub.Prelude.IdMap
use personal_finance_hub.Prelude.IdMap.{IdMap, or_else, elem}
use personal_finance_hub.Prelude.IdMap.Order.{
  IsOrdered, find-insert_all, insert_all-IsOrdered, erase_all-IsOrdered,
}

module _ {V : Type 0} where
  unfoldable pub merged : Bool → IdMap V → List ℤ → IdMap V → IdMap V
  merged in_transaction staged deleted committed =
      if in_transaction
      then IdMap.erase_all deleted (IdMap.insert_all staged committed)
      else committed

  -- One entry of the view, looked up without building it.
  unfoldable pub visible : ℤ → Bool → IdMap V → List ℤ → IdMap V → Option V
  visible id in_transaction staged deleted committed =
      if in_transaction
      then (if elem id deleted
          then none
          else or_else (IdMap.find id staged) (IdMap.find id committed))
      else IdMap.find id committed

  pub find-merged :
      (id : ℤ) (in_transaction : Bool) (staged : IdMap V) (deleted : List ℤ) (committed : IdMap V)
      → IsOrdered staged
      → IdMap.find id (merged in_transaction staged deleted committed)
        ≡ visible id in_transaction staged deleted committed
  unfolding merged visible
  find-merged id true staged deleted committed h =
      IdMap.find-erase_all deleted id (IdMap.insert_all staged committed)
      ∙ rw (find-insert_all staged id committed h) refl
  find-merged id false staged deleted committed h = refl

  pub merged-IsOrdered :
      (in_transaction : Bool) (staged : IdMap V) (deleted : List ℤ) (committed : IdMap V)
      → IsOrdered committed
      → IsOrdered (merged in_transaction staged deleted committed)
  unfolding merged
  merged-IsOrdered true staged deleted committed h =
      erase_all-IsOrdered deleted _ (insert_all-IsOrdered staged committed h)
  merged-IsOrdered false staged deleted committed h = h
