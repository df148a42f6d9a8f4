-- ===== src/Infrastructure/Action.antt =====
-- How the repositories and the actions of a unit of work run: on the store, which they leave
-- changed even if they end with an error, and with a repository result.
use personal_finance_hub.Prelude.{
  ◌≡◌, refl, ap, Bool, true, false, Option, none, some, if◌then◌else◌,
}
use personal_finance_hub.Infrastructure.Repository.{
  RepositoryStatus, RepositoryResult, success, failure, failure-ne-success,
}
use personal_finance_hub.Infrastructure.Store.{InMemoryStore}

abbrev pub Action : Type 0 → Type 0
Action A = InMemoryStore → InMemoryStore × RepositoryResult A

module _ {A : Type 0} where
  abbrev pub pure : A → Action A
  pure a s = (s, success a)

  abbrev pub fail : RepositoryStatus → Action A
  fail e s = (s, failure e)

  -- A call that does not write.
  abbrev pub reads : (InMemoryStore → RepositoryResult A) → Action A
  reads f s = (s, f s)

abbrev pub modify : (InMemoryStore → InMemoryStore) → Action (Unit {0})
modify f s = (f s, success tt)

-- An early return of an error when the test holds.
unfoldable pub reject_when : Bool → RepositoryStatus → Action (Unit {0})
reject_when true e s = (s, failure e)
reject_when false e s = (s, success tt)

abbrev pub required {ℓ} : {A : Type ℓ} → Option A → RepositoryStatus → RepositoryResult A
required none e = failure e
required (some a) e = success a

module _ {A B : Type 0} where
  abbrev pub continue :
      (A → Action B) → InMemoryStore × RepositoryResult A → InMemoryStore × RepositoryResult B
  continue next (s, failure e) = (s, failure e)
  continue next (s, success a) = next a s

  infixl 5 ◌>>=◌ ◌>>◌
  unfoldable pub ◌>>=◌ : Action A → (A → Action B) → Action B
  (m >>= next) s = continue next (m s)

  abbrev pub ◌>>◌ : Action A → Action B → Action B
  m >> n = m >>= λ _. n

module _ {A B : Type 0} where
  continue-eq-success :
      (next : A → Action B) (r : RepositoryResult A) (s : InMemoryStore) {t : InMemoryStore} {b : B}
      → continue next (s, r) ≡ (t, success b)
      → (a : A) × (r ≡ success a) × (next a s ≡ (t, success b))
  continue-eq-success next (failure e) s h = absurd (failure-ne-success (ap (λ x. x.1) h))
  continue-eq-success next (success a) s h = (a, refl, h)

  -- A chain that ends well is one of calls that end well.
  pub >>=-eq-success :
      (m : Action A) (next : A → Action B) (s : InMemoryStore) {t : InMemoryStore} {b : B}
      → (m >>= next) s ≡ (t, success b)
      → (a : A) × ((m s).1 ≡ success a) × (next a (m s).0 ≡ (t, success b))
  unfolding ◌>>=◌
  >>=-eq-success m next s h = continue-eq-success next (m s).1 (m s).0 h

-- An action that ends well is past each of its tests.
pub unless-success :
    {A : Type 0} (bad : Bool) (s : InMemoryStore) (e : RepositoryStatus)
    (rest : InMemoryStore × RepositoryResult A) {t : InMemoryStore} {a : A}
    → (if bad then (s, failure e) else rest) ≡ (t, success a)
    → (bad ≡ false) × (rest ≡ (t, success a))
unless-success true s e rest h = absurd (failure-ne-success (ap (λ y. y.1) h))
unless-success false s e rest h = (refl, h)

-- `m` keeps `P`, whether it ends well or with an error.
pub record Keeps {A : Type 0} (P : InMemoryStore → Type 0) (m : Action A) : Type 0 where
  pub at : (s : InMemoryStore) → P s → P (m s).0

module _ {P : InMemoryStore → Type 0} where
  pub Keeps-pure : {A : Type 0} (a : A) → Keeps P (pure a)
  Keeps-pure a = record { at = λ s h. h }

  pub Keeps-fail : {A : Type 0} (e : RepositoryStatus) → Keeps P (fail {A = A} e)
  Keeps-fail e = record { at = λ s h. h }

  pub Keeps-reads : {A : Type 0} (f : InMemoryStore → RepositoryResult A) → Keeps P (reads f)
  Keeps-reads f = record { at = λ s h. h }

  pub Keeps-modify :
      (f : InMemoryStore → InMemoryStore)
      → ((s : InMemoryStore) → P s → P (f s))
      → Keeps P (modify f)
  Keeps-modify f k = record { at = k }

  pub Keeps-reject_when : (b : Bool) (e : RepositoryStatus) → Keeps P (reject_when b e)
  unfolding reject_when
  Keeps-reject_when true e = record { at = λ s h. h }
  Keeps-reject_when false e = record { at = λ s h. h }

module _ {A B : Type 0} (P : InMemoryStore → Type 0) where
  reads-keeps :
      (r : RepositoryResult A) (next : A → Action B) (s : InMemoryStore)
      → ((a : A) → r ≡ success a → P (next a s).0)
      → P s
      → P (continue next (s, r)).0
  reads-keeps (failure e) next s k h = h
  reads-keeps (success a) next s k h = k a refl

module _ {A B : Type 0} {P : InMemoryStore → Type 0} where
  continue-keeps :
      (next : A → Action B)
      → ((a : A) → Keeps P (next a))
      → (r : RepositoryResult A) (s : InMemoryStore) → P s
      → P (continue next (s, r)).0
  continue-keeps next k (failure e) s h = h
  continue-keeps next k (success a) s h = (k a).at s h

  pub Keeps-bind :
      (m : Action A) (next : A → Action B)
      → Keeps P m
      → ((a : A) → Keeps P (next a))
      → Keeps P (m >>= next)
  unfolding ◌>>=◌
  Keeps-bind m next km kn = record {
    at = λ s h. continue-keeps next kn (m s).1 (m s).0 (km.at s h);
  }

  -- What follows a reading may use what was read.
  pub Keeps-bind-reads :
      (f : InMemoryStore → RepositoryResult A) (next : A → Action B)
      → ((s : InMemoryStore) (a : A) → P s → f s ≡ success a → P (next a s).0)
      → Keeps P (reads f >>= next)
  unfolding ◌>>=◌
  Keeps-bind-reads f next k = record { at = λ s h. reads-keeps P (f s) next s (λ a e. k s a h e) h }

pub ruleset keeps_rules =
    (Keeps-pure, Keeps-fail, Keeps-reads, Keeps-modify, Keeps-reject_when, Keeps-bind)
