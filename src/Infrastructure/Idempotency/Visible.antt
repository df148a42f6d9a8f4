-- ===== src/Infrastructure/Idempotency/Visible.antt =====
-- Which record a transaction sees after it began or completed a request, and after its commit.
use personal_finance_hub.Prelude.{
  ◌≡◌, refl, ◌∙◌, inl, inr, none, some, Bytes, bytes_eq_refl, Bool-cases, Option-cases,
}
use personal_finance_hub.Prelude.Dict
use personal_finance_hub.Prelude.Dict.Merge.{
  HasDistinctKeys, find-assign, emplace-new, find-erase_all, find-insert_all,
  insert_or_assign-HasDistinctKeys,
}
use personal_finance_hub.Infrastructure.Store.{InMemoryStore, InMemoryIdempotencyRecord, no_staging}
use personal_finance_hub.Infrastructure.UnitOfWork.{commit_tables, commit, finish}
use personal_finance_hub.Infrastructure.Idempotency.{visible, stage_record}

abbrev pub IsWellKeyed : InMemoryStore → Type 0
IsWellKeyed s = HasDistinctKeys s.staging.staged_idempotency

-- After the commit every transaction sees what this one saw.
pub visible-commit :
    (composite : Bytes) (s : InMemoryStore)
    → IsWellKeyed s
    → visible composite (finish (commit s)) ≡ visible composite s
unfolding visible finish commit commit_tables no_staging Dict.find Dict.elem
visible-commit composite s h =
    find-insert_all s.staging.staged_idempotency composite
      (Dict.erase_all s.staging.staged_deleted_idempotency s.tables.idempotency) h
    ∙ rw (find-erase_all s.staging.staged_deleted_idempotency composite s.tables.idempotency) refl

-- A record that is staged is seen.
pub visible-staged :
    (composite : Bytes) (s : InMemoryStore) {r : InMemoryIdempotencyRecord}
    → Dict.find composite s.staging.staged_idempotency ≡ some r
    → visible composite s ≡ some r
unfolding visible
visible-staged composite s h = rw h refl

pub visible-none :
    (composite : Bytes) (s : InMemoryStore)
    → visible composite s ≡ none
    → Dict.find composite s.staging.staged_idempotency ≡ none
unfolding visible
visible-none composite s = elim (Option-cases (Dict.find composite s.staging.staged_idempotency)) [
  | inl e ↦ λ h. e
  | inr (r, e) ↦ rw e λ h. absurd cc
]

-- A record that is staged under a new key is found.
pub stage_record-find :
    (composite : Bytes) (r : InMemoryIdempotencyRecord) (s : InMemoryStore)
    → Dict.find composite s.staging.staged_idempotency ≡ none
    → Dict.find composite (stage_record composite r s).staging.staged_idempotency ≡ some r
unfolding stage_record
stage_record-find composite r s h =
    rw
      (
        emplace-new composite r s.staging.staged_idempotency h,
        find-assign composite composite r s.staging.staged_idempotency,
        bytes_eq_refl composite,
      )
      refl

pub stage_record-IsWellKeyed :
    (composite : Bytes) (r : InMemoryIdempotencyRecord) (s : InMemoryStore)
    → IsWellKeyed s
    → IsWellKeyed (stage_record composite r s)
unfolding stage_record Dict.emplace
stage_record-IsWellKeyed composite r s h =
    elim (Bool-cases (Dict.contains composite s.staging.staged_idempotency)) [
      | inl e ↦ rw e h
      | inr e ↦ rw e (insert_or_assign-HasDistinctKeys composite r s.staging.staged_idempotency h)
    ]
