-- ===== src/Infrastructure/Repository.antt =====
-- include/pfh/domain/repositories/repository_error.h: the result of a repository call. An error is
-- its status; the message is left out.
use personal_finance_hub.Prelude.{◌≡◌, refl, sym, ◌⊎◌, inl, inr, Bool, true, false, if◌then◌else◌}

pub data RepositoryStatus : Type 0 where
  not_found validation_error conflict database_error : RepositoryStatus

-- RepositoryResult<T>. A call on the leases or the outbox that changes the store returns the new
-- store with its value, an error leaving it as it was.
pub data RepositoryResult {ℓ} (A : Type ℓ) : Type ℓ where
  success : A → RepositoryResult A
  failure : RepositoryStatus → RepositoryResult A

infixl 5 ◌>>=◌ ◌>>◌
-- The caller's test of a result: an error is handed on.
abbrev pub ◌>>=◌ {κ ℓ} :
    {A : Type κ} {B : Type ℓ} → RepositoryResult A → (A → RepositoryResult B) → RepositoryResult B
failure e >>= next = failure e
success a >>= next = next a

abbrev pub ◌>>◌ {ℓ} :
    {B : Type ℓ} → RepositoryResult (Unit {0}) → RepositoryResult B → RepositoryResult B
check >> rest = check >>= (λ _. rest)

abbrev pub reject_if : Bool → RepositoryStatus → RepositoryResult (Unit {0})
reject_if true e = failure e
reject_if false e = success tt

pub success-injective {ℓ} : {A : Type ℓ} {a b : A} → success a ≡ success b → a ≡ b
success-injective e = cc

pub failure-ne-success {ℓ} : {A : Type ℓ} {e : RepositoryStatus} {a : A} → failure e ≡ success a → ⊥
failure-ne-success e = cc

-- A call that succeeded is past the check of its arguments.
pub checked-success {ℓ} :
    {A : Type ℓ} (bad : Bool) (e : RepositoryStatus) (r : RepositoryResult A) {a : A}
    → (if bad then failure e else r) ≡ success a
    → (bad ≡ false) × (r ≡ success a)
checked-success true e r h = absurd (failure-ne-success h)
checked-success false e r h = (refl, h)

-- The two ways in which a call with one test succeeds.
pub either-success {ℓ} :
    {A : Type ℓ} (b : Bool) (x y : A) {a : A}
    → (if b then success x else success y) ≡ success a
    → ((b ≡ true) × (a ≡ x)) ⊎ ((b ≡ false) × (a ≡ y))
either-success true x y h = inl (refl, sym (success-injective h))
either-success false x y h = inr (refl, sym (success-injective h))

-- A guarded call succeeds only past its guard.
pub guard-eq-success {ℓ} :
    {A : Type ℓ} (b : Bool) (e : RepositoryStatus) (k : RepositoryResult A) {a : A}
    → (reject_if b e >> k) ≡ success a
    → (b ≡ false) × (k ≡ success a)
guard-eq-success true e k h = absurd (failure-ne-success h)
guard-eq-success false e k h = (refl, h)

pub >>-eq-success {ℓ} :
    {A : Type ℓ} (r : RepositoryResult (Unit {0})) (k : RepositoryResult A) {a : A}
    → (r >> k) ≡ success a
    → (r ≡ success tt) × (k ≡ success a)
>>-eq-success (failure e) k h = absurd (failure-ne-success h)
>>-eq-success (success u) k h = (refl, h)

pub reject_if-eq-success :
    (b : Bool) (e : RepositoryStatus) → reject_if b e ≡ success tt → b ≡ false
reject_if-eq-success true e h = absurd (failure-ne-success h)
reject_if-eq-success false e h = refl

-- A chain that succeeds is one of calls that succeed.
pub >>=-eq-success {κ ℓ} :
    {A : Type κ} {B : Type ℓ} (r : RepositoryResult A) (next : A → RepositoryResult B) {b : B}
    → (r >>= next) ≡ success b
    → (a : A) × (r ≡ success a) × (next a ≡ success b)
>>=-eq-success (failure e) next h = absurd (failure-ne-success h)
>>=-eq-success (success a) next h = (a, refl, h)
