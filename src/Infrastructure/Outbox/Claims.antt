-- ===== src/Infrastructure/Outbox/Claims.antt =====
-- include/pfh/infrastructure/persistence/in_memory_outbox_repository.h: the worker that claimed a
-- batch owns its messages until it has recorded what became of them.
use mathlib.Core.Path.{subst}
use personal_finance_hub.Prelude.{
  ℕ, zero, suc, ◌+◌, ◌%◌, ◌^◌, ◌≤◌, ◌<◌, ◌≡◌, refl, sym, ap, ◌∙◌, inl, inr, Bool, true, false, ◌||◌,
  some, List, [], ◌∷◌, length, Bytes, bytes_eq, bytes_eq_refl, bytes_eq→eq, arith, All, All-weaken,
  Bool-cases, ltb, leb, ◌==◌,
}
use personal_finance_hub.Application.Outbox.{OutboxMessage, OutboxFailureTransition}
use personal_finance_hub.Domain.ExchangeRate.{TimePoint}
use personal_finance_hub.Infrastructure.Repository.{success}
use personal_finance_hub.Infrastructure.Outbox.{
  OutboxStore, is_due, claim_text, claim, claim_loop, is_claimed, find_claimed, update_claimed,
  publish, mark_published, fail, transition_of, mark_failed, settle, record_failure, clear_claim,
}
use personal_finance_hub.Infrastructure.Outbox.Lifecycle.{AllAdvance}

-- Whether some message is claimed with this id and token.
abbrev owned : Bytes → Bytes → List OutboxMessage → Bool
owned id token [] = false
owned id token (x ∷ xs) = is_claimed id token x || owned id token xs

-- Whether the claim that a message carries is found in the outbox.
abbrev pub owns : OutboxMessage → List OutboxMessage → Bool
owns m xs = owned m.id m.claim_token xs

find_claimed-owned :
    (id token : Bytes) (xs : List OutboxMessage)
    → owned id token xs ≡ true
    → (m : OutboxMessage) × (find_claimed id token xs ≡ some m)
unfolding find_claimed
find_claimed-owned id token [] h = cc
find_claimed-owned id token (x ∷ xs) h = elim (Bool-cases (is_claimed id token x)) [
  | inl hit ↦ (x, rw hit refl)
  | inr miss ↦ let (m, found) = find_claimed-owned id token xs (rw miss at h) in (m, rw miss found)
]

abbrev pub IsFresh : Bytes → List OutboxMessage → Type 0
IsFresh id ms = All (λ m. bytes_eq id m.id ≡ false) ms

-- No two messages have the same id.
abbrev pub Distinct : List OutboxMessage → Type 0
Distinct [] = Unit
Distinct (m ∷ ms) = IsFresh m.id ms × Distinct ms

abbrev pub HasId : OutboxMessage → Type 0
HasId m = (length m.id == 0) ≡ false

-- A claimed message that `mark_published` and `mark_failed` accept.
abbrev pub IsReady : List OutboxMessage → OutboxMessage → Type 0
IsReady xs m = (owns m xs ≡ true) × HasId m × ((length m.claim_token == 0) ≡ false)

AllAdvance-IsFresh :
    (id : Bytes) (xs ys : List OutboxMessage) → AllAdvance xs ys → IsFresh id xs → IsFresh id ys
AllAdvance-IsFresh id [] [] f h = tt
AllAdvance-IsFresh id [] (y ∷ ys) f h = absurd f
AllAdvance-IsFresh id (x ∷ xs) [] f h = absurd f
AllAdvance-IsFresh id (x ∷ xs) (y ∷ ys) f h =
    (rw (ap (λ v. v.id) f.0.event) h.0, AllAdvance-IsFresh id xs ys f.1 h.1)

pub AllAdvance-Distinct :
    (xs ys : List OutboxMessage) → AllAdvance xs ys → Distinct xs → Distinct ys
AllAdvance-Distinct [] [] f h = tt
AllAdvance-Distinct [] (y ∷ ys) f h = absurd f
AllAdvance-Distinct (x ∷ xs) [] f h = absurd f
AllAdvance-Distinct (x ∷ xs) (y ∷ ys) f h = (
  rw (ap (λ v. v.id) f.0.event) (AllAdvance-IsFresh x.id xs ys f.1 h.0),
  AllAdvance-Distinct xs ys f.1 h.1,
)

pub AllAdvance-HasId : (xs ys : List OutboxMessage) → AllAdvance xs ys → All HasId xs → All HasId ys
AllAdvance-HasId [] [] f h = tt
AllAdvance-HasId [] (y ∷ ys) f h = absurd f
AllAdvance-HasId (x ∷ xs) [] f h = absurd f
AllAdvance-HasId (x ∷ xs) (y ∷ ys) f h =
    (rw (ap (λ v. v.id) f.0.event) h.0, AllAdvance-HasId xs ys f.1 h.1)

owns-cons :
    (x m : OutboxMessage) (xs : List OutboxMessage) → owns m xs ≡ true → owns m (x ∷ xs) ≡ true
owns-cons x m xs h = ground (arith, h)

IsReady-cons : (x m : OutboxMessage) (xs : List OutboxMessage) → IsReady xs m → IsReady (x ∷ xs) m
IsReady-cons x m xs h = (owns-cons x m xs h.0, h.1, h.2)

claim-IsReady :
    (now : TimePoint) (worker : Bytes) (token : ℕ) (m : OutboxMessage) (xs : List OutboxMessage)
    → HasId m
    → IsReady (claim now worker token m ∷ xs) (claim now worker token m)
unfolding claim is_claimed
claim-IsReady now worker token m xs h = (
  ground (arith, bytes_eq_refl m.id, bytes_eq_refl (claim_text token)),
  h,
  unfold claim_text in ground arith,
)

pub claim_loop-IsReady :
    (now : TimePoint) (worker : Bytes) (left token : ℕ) (ms : List OutboxMessage)
    → All HasId ms
    → let loop = claim_loop now worker left token ms in All (IsReady loop.outbox) loop.claimed
unfolding claim_loop
claim_loop-IsReady now worker left token [] h = tt
claim_loop-IsReady now worker zero token (m ∷ ms) h = tt
claim_loop-IsReady now worker (suc left) token (m ∷ ms) h =
    let taken = claim_loop now worker left ((token + 1) % 2 ^ 64) ms in
    let passed = claim_loop now worker (suc left) token ms in
    let c = claim now worker token m in
    elim (Bool-cases (is_due now m)) [
      | inl due ↦ rw due (
        claim-IsReady now worker token m taken.outbox h.0,
        All-weaken (IsReady taken.outbox) (IsReady (c ∷ taken.outbox))
            (λ x. IsReady-cons c x taken.outbox) taken.claimed
            (claim_loop-IsReady now worker left ((token + 1) % 2 ^ 64) ms h.1),
      )
      | inr idle ↦ rw idle (
          All-weaken (IsReady passed.outbox) (IsReady (m ∷ passed.outbox))
            (λ x. IsReady-cons m x passed.outbox) passed.claimed
            (claim_loop-IsReady now worker (suc left) token ms h.1))
    ]

claim_loop-IsFresh :
    (id : Bytes) (now : TimePoint) (worker : Bytes) (left token : ℕ) (ms : List OutboxMessage)
    → IsFresh id ms
    → IsFresh id (claim_loop now worker left token ms).claimed
unfolding claim_loop claim
claim_loop-IsFresh id now worker left token [] h = tt
claim_loop-IsFresh id now worker zero token (m ∷ ms) h = tt
claim_loop-IsFresh id now worker (suc left) token (m ∷ ms) h = elim (Bool-cases (is_due now m)) [
  | inl due ↦ rw due (h.0, claim_loop-IsFresh id now worker left ((token + 1) % 2 ^ 64) ms h.1)
  | inr idle ↦ rw idle (claim_loop-IsFresh id now worker (suc left) token ms h.1)
]

pub claim_loop-Distinct :
    (now : TimePoint) (worker : Bytes) (left token : ℕ) (ms : List OutboxMessage)
    → Distinct ms
    → Distinct (claim_loop now worker left token ms).claimed
unfolding claim_loop claim
claim_loop-Distinct now worker left token [] h = tt
claim_loop-Distinct now worker zero token (m ∷ ms) h = tt
claim_loop-Distinct now worker (suc left) token (m ∷ ms) h = elim (Bool-cases (is_due now m)) [
  | inl due ↦ rw due (
    claim_loop-IsFresh m.id now worker left ((token + 1) % 2 ^ 64) ms h.0,
    claim_loop-Distinct now worker left ((token + 1) % 2 ^ 64) ms h.1,
  )
  | inr idle ↦ rw idle (claim_loop-Distinct now worker (suc left) token ms h.1)
]

is_claimed-other :
    (id token : Bytes) (change : OutboxMessage → OutboxMessage) (m x : OutboxMessage)
    → ((y : OutboxMessage) → (change y).id ≡ y.id)
    → bytes_eq id m.id ≡ false
    → is_claimed id token x ≡ true
    → (is_claimed m.id m.claim_token x ≡ false) × (is_claimed m.id m.claim_token (change x) ≡ false)
unfolding is_claimed
is_claimed-other id token change m x keeps other hit =
    let named : x.id ≡ id = bytes_eq→eq x.id id (ground (arith, hit)) in
    let apart : bytes_eq x.id m.id ≡ false =
      subst (λ t. bytes_eq t m.id ≡ false) (sym named) other in
    let apart' : bytes_eq (change x).id m.id ≡ false =
      subst (λ t. bytes_eq t m.id ≡ false) (sym (keeps x)) apart in
    (ground (arith, apart), ground (arith, apart'))

-- Recording one message leaves the claims of the others.
pub owns-update_claimed :
    (id token : Bytes) (change : OutboxMessage → OutboxMessage) (m : OutboxMessage)
    (xs : List OutboxMessage)
    → ((x : OutboxMessage) → (change x).id ≡ x.id)
    → bytes_eq id m.id ≡ false
    → owns m (update_claimed id token change xs) ≡ owns m xs
unfolding update_claimed
owns-update_claimed id token change m [] keeps other = refl
owns-update_claimed id token change m (x ∷ xs) keeps other =
    elim (Bool-cases (is_claimed id token x)) [
      | inl hit ↦
          let (before, after) = is_claimed-other id token change m x keeps other hit in
          rw hit (ap (λ b. b || owns m xs) (after ∙ sym before))
      | inr miss ↦ rw miss (
          ap (λ b. is_claimed m.id m.claim_token x || b)
            (owns-update_claimed id token change m xs keeps other))
    ]

-- The holder of a claim can publish.
pub mark_published-owned :
    (m : OutboxMessage) (at : TimePoint) (store : OutboxStore)
    → owns m store.outbox ≡ true
    → mark_published m.id m.claim_token at store
      ≡ success (
        tt,
        record store { outbox = update_claimed m.id m.claim_token (publish at) store.outbox },
      )
unfolding mark_published
mark_published-owned m at store h =
    let (_, found) = find_claimed-owned m.id m.claim_token store.outbox h in
    rw (mark_published, found) refl

-- The holder of a claim can record a failure with a handler and an error that fit.
pub mark_failed-owned :
    (m : OutboxMessage) (handler error : Bytes) (at later : TimePoint) (store : OutboxStore)
    → IsReady store.outbox m
    → 0 < length handler
    → length handler ≤ 128
    → 0 < length error
    → length error ≤ 1024
    → (t : OutboxFailureTransition) × (mark_failed m.id m.claim_token handler error at later store
        ≡ success (
          t,
          record store {
            outbox = update_claimed m.id m.claim_token (fail handler error at later) store.outbox;
          },
        ))
unfolding mark_failed
mark_failed-owned m handler error at later store h h1 h2 h3 h4 =
    let (x, found) = find_claimed-owned m.id m.claim_token store.outbox h.0 in
    let valid : (length m.id == 0
          || length m.claim_token == 0
          || length handler == 0
          || ltb 128 (length handler)
          || length error == 0
          || ltb 1024 (length error))
        ≡ false =
      let has = h.1 in let token = h.2 in ground (arith, has, token) in
    (transition_of (fail handler error at later x), rw (mark_failed, valid, found) refl)

pub id-publish : (at : TimePoint) (x : OutboxMessage) → (publish at x).id ≡ x.id
unfolding publish clear_claim
id-publish at x = refl

pub id-fail :
    (handler error : Bytes) (at later : TimePoint) (x : OutboxMessage)
    → (fail handler error at later x).id ≡ x.id
unfolding fail settle record_failure clear_claim
id-fail handler error at later x = elim (Bool-cases (leb x.max_retry_count (x.retry_count + 1))) [
  | inl spent ↦ rw spent refl
  | inr left ↦ rw left refl
]
