-- ===== src/Domain/Error.antt =====
-- include/pfh/domain/domain_error.h: the error codes of the domain layer, and its result type.
-- A DomainError is modelled by its code; the message, a text for people, is left out.
use personal_finance_hub.Prelude.{Bool, true, false, Option, none, some, ◌≡◌, refl}

pub data DomainErrorCode : Type 0 where
  invalid_amount invalid_currency currency_mismatch : DomainErrorCode
  invalid_exchange_rate exchange_rate_not_found : DomainErrorCode
  overflow division_by_zero parse_error : DomainErrorCode
  invalid_account_type account_archived : DomainErrorCode
  invalid_transaction_type invalid_transfer_structure transfer_amount_mismatch : DomainErrorCode
  category_board_mismatch invalid_category_hierarchy : DomainErrorCode
  negative_amount zero_amount insufficient_balance : DomainErrorCode
  invalid_operation precondition_failed : DomainErrorCode

-- DomainResult<T>, and DomainVoidResult at the unit type.
pub data DomainResult {ℓ} (A : Type ℓ) : Type ℓ where
  ok : A → DomainResult A
  err : DomainErrorCode → DomainResult A

infixl 5 ◌>>=◌ ◌>>◌
-- The caller's test of a std::expected: an error is handed on.
abbrev pub ◌>>=◌ {κ ℓ} :
    {T : Type κ} {U : Type ℓ} → DomainResult T → (T → DomainResult U) → DomainResult U
err code >>= next = err code
ok value >>= next = next value

abbrev pub ◌>>◌ {κ} : {U : Type κ} → DomainResult (Unit {0}) → DomainResult U → DomainResult U
check >> rest = check >>= (λ _. rest)

-- An early return of an error when the test holds.
abbrev pub reject_if : Bool → DomainErrorCode → DomainResult (Unit {0})
reject_if true e = err e
reject_if false e = ok tt

-- An `std::optional` whose absence is an error.
abbrev pub or_fail {ℓ} : {A : Type ℓ} → Option A → DomainErrorCode → DomainResult A
or_fail none e = err e
or_fail (some a) e = ok a

pub ok-injective {ℓ} : {A : Type ℓ} {a b : A} → ok a ≡ ok b → a ≡ b
ok-injective e = cc

pub err-ne-ok {ℓ} : {A : Type ℓ} {e : DomainErrorCode} {a : A} → err e ≡ ok a → ⊥
err-ne-ok e = cc

pub >>=-eq-ok {κ ℓ} :
    {T : Type κ} {U : Type ℓ} (r : DomainResult T) (next : T → DomainResult U) {u : U}
    → (r >>= next) ≡ ok u
    → (t : T) × (r ≡ ok t) × (next t ≡ ok u)
>>=-eq-ok (err code) next e = cc
>>=-eq-ok (ok t) next e = (t, refl, e)

pub reject_if-eq-ok : (b : Bool) (e : DomainErrorCode) → reject_if b e ≡ ok tt → b ≡ false
reject_if-eq-ok true e h = cc
reject_if-eq-ok false e h = refl

-- A guarded computation succeeds only past its guard.
pub guard-eq-ok {ℓ} :
    {A : Type ℓ} (b : Bool) (e : DomainErrorCode) (k : DomainResult A) {a : A}
    → (reject_if b e >> k) ≡ ok a
    → (b ≡ false) × (k ≡ ok a)
guard-eq-ok true e k h = absurd (err-ne-ok h)
guard-eq-ok false e k h = (refl, h)
