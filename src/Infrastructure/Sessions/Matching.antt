-- ===== src/Infrastructure/Sessions/Matching.antt =====
-- include/pfh/infrastructure/persistence/in_memory_auth_session_repository.h: the refresh
-- tokens of a session after `stage_matching` went over them.
use mathlib.Core.Option.{some-injective, none-ne-some}
use personal_finance_hub.Prelude.{
  ◌≡◌, refl, sym, ap, ◌∙◌, ◌⊎◌, inl, inr, Bool, true, false, some, List, [], ◌∷◌, Bytes, bytes_eq,
  if◌then◌else◌, Bool-cases, Option-cases,
}
use personal_finance_hub.Prelude.Dict
use personal_finance_hub.Prelude.Dict.{find-insert_or_assign}
use personal_finance_hub.Prelude.Dict.Merge.{find-assign}
use personal_finance_hub.Prelude.IdMap.{or_else}
use personal_finance_hub.Domain.ExchangeRate.{TimePoint}
use personal_finance_hub.Domain.Ids.{TypedId}
use personal_finance_hub.Application.AuthModels.{RefreshTokenRecord}
use personal_finance_hub.Infrastructure.Sessions.{is_of_session, stage_matching, revoked_token}

module _ (user_id : TypedId) (session_id : Bytes) (at : TimePoint) where
  -- The row under `hash` is revoked at the time.
  abbrev IsRevoked : Bytes → List (Bytes × RefreshTokenRecord) → Type 0
  IsRevoked hash d =
      (x : RefreshTokenRecord) × (Dict.find hash d ≡ some x) × (x.revoked_at ≡ some at)

  abbrev staged_if :
      Bool
      → Bytes
      → RefreshTokenRecord
      → List (Bytes × RefreshTokenRecord)
      → List (Bytes × RefreshTokenRecord)
  staged_if b key token d = if b then Dict.insert_or_assign key (revoked_token at token) d else d

  staged_if-keeps :
      (b : Bool) (key hash : Bytes) (token : RefreshTokenRecord)
      (d : List (Bytes × RefreshTokenRecord))
      → IsRevoked hash d
      → IsRevoked hash (staged_if b key token d)
  staged_if-keeps false key hash token d h = h
  staged_if-keeps true key hash token d (x, found, revoked) =
      elim (Bool-cases (bytes_eq key hash)) [
        | inl same ↦ (revoked_token at token, find-assign key hash _ d ∙ rw same refl, refl)
        | inr other ↦ (x, find-assign key hash _ d ∙ rw other found, revoked)
      ]

  staged_if-revokes :
      (b : Bool) (key hash : Bytes) (token : RefreshTokenRecord)
      (d : List (Bytes × RefreshTokenRecord))
      → b ≡ true
      → bytes_eq key hash ≡ true
      → IsRevoked hash (staged_if b key token d)
  staged_if-revokes true key hash token d h same =
      (revoked_token at token, find-assign key hash _ d ∙ rw same refl, refl)
  staged_if-revokes false key hash token d h same = absurd cc

  stage_matching-keeps :
      (tokens d : List (Bytes × RefreshTokenRecord)) (hash : Bytes)
      → IsRevoked hash d
      → IsRevoked hash (stage_matching user_id session_id at tokens d)
  unfolding stage_matching
  stage_matching-keeps [] d hash h = h
  stage_matching-keeps ((key, token) ∷ tokens) d hash h =
      stage_matching-keeps tokens _ hash
        (staged_if-keeps (is_of_session user_id session_id token) key hash token d h)

  -- A token of the session among those that are gone through is revoked afterwards.
  stage_matching-revokes :
      (tokens d : List (Bytes × RefreshTokenRecord)) (hash : Bytes) (token : RefreshTokenRecord)
      → Dict.find hash tokens ≡ some token
      → is_of_session user_id session_id token ≡ true
      → IsRevoked hash (stage_matching user_id session_id at tokens d)
  unfolding stage_matching Dict.find
  stage_matching-revokes [] d hash token h k = absurd (none-ne-some _ h)
  stage_matching-revokes ((key, first) ∷ tokens) d hash token h k =
      elim (Bool-cases (bytes_eq key hash)) [
        | inl same ↦ stage_matching-keeps tokens _ hash (
            staged_if-revokes (is_of_session user_id session_id first) key hash first d
              (ap (is_of_session user_id session_id) (some-injective _ _ (rw same at h)) ∙ k) same)
        | inr other ↦ stage_matching-revokes tokens _ hash token (rw other at h) k
      ]

  -- What it leaves is revoked, or was there before.
  stage_matching-old :
      (tokens d : List (Bytes × RefreshTokenRecord)) (hash : Bytes) {x : RefreshTokenRecord}
      → Dict.find hash (stage_matching user_id session_id at tokens d) ≡ some x
      → (x.revoked_at ≡ some at) ⊎ (Dict.find hash d ≡ some x)
  unfolding stage_matching
  stage_matching-old [] d hash h = inr h
  stage_matching-old ((key, token) ∷ tokens) d hash h = elim (stage_matching-old tokens _ hash h) [
    | inl revoked ↦ inl revoked
    | inr found ↦ old (is_of_session user_id session_id token) found
  ]
    where
      assigned :
          bytes_eq key hash ≡ true
          → some (revoked_token at token)
            ≡ Dict.find hash (Dict.insert_or_assign key (revoked_token at token) d)
      assigned same = sym (find-assign key hash (revoked_token at token) d ∙ rw same refl)

      old :
          (b : Bool) {x : RefreshTokenRecord}
          → Dict.find hash (staged_if b key token d) ≡ some x
          → (x.revoked_at ≡ some at) ⊎ (Dict.find hash d ≡ some x)
      old false found = inr found
      old true found = elim (Bool-cases (bytes_eq key hash)) [
        | inl same ↦ inl (sym (ap (λ y. y.revoked_at) (some-injective _ _ (assigned same ∙ found))))
        | inr other ↦ inr (
            rw other at (
              sym (find-assign {V = RefreshTokenRecord} key hash (revoked_token at token) d)
              ∙ found))
      ]

  -- Every token of the session that a transaction reads after both loops is revoked.
  pub stage_matching-ended :
      (committed staged : List (Bytes × RefreshTokenRecord)) (hash : Bytes)
      (token : RefreshTokenRecord)
      → (let first = stage_matching user_id session_id at committed staged in
          or_else
            (Dict.find hash (stage_matching user_id session_id at first first))
            (Dict.find hash committed)
          ≡ some token)
      → is_of_session user_id session_id token ≡ true
      → token.revoked_at ≡ some at
  stage_matching-ended committed staged hash token h k =
      let first = stage_matching user_id session_id at committed staged in
      let second = stage_matching user_id session_id at first first in
      elim (Option-cases (Dict.find hash second)) [
        | inl missing ↦
            let before = rw missing at h in
            let (x, found, revoked) =
              stage_matching-keeps first first hash
                (stage_matching-revokes committed staged hash token before k) in
            absurd (none-ne-some _ (sym missing ∙ found))
        | inr (x, found) ↦
            let same = some-injective _ _ (rw found at h) in
            rw (sym same) (elim (stage_matching-old first first hash found) [
              | inl revoked ↦ revoked
              | inr there ↦
                  let (y, there2, revoked) =
                    stage_matching-revokes first first hash x there (rw same k) in
                  ap (λ z. z.revoked_at) (some-injective _ _ (sym found ∙ there2)) ∙ revoked
            ])
      ]
