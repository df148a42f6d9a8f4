-- ===== src/Infrastructure/Accounts/Balances/Coherence.antt =====
-- The cached balances are those that a replay of the transactions gives.
use personal_finance_hub.Prelude.{
  ◌≡◌, refl, sym, ap, ◌⊎◌, inl, inr, false, Option, none, some, List, Bool-cases,
}
use personal_finance_hub.Prelude.Int.{pos, eqb_ℤ, eqb_ℤ→eq}
use personal_finance_hub.Domain.Account.{Account}
use personal_finance_hub.Domain.Balance.{BalanceSnapshot, snapshot, calculate_balance, balance_loop}
use personal_finance_hub.Domain.Currency.{Currency}
use personal_finance_hub.Domain.Decimal
use personal_finance_hub.Domain.Decimal.{Decimal}
use personal_finance_hub.Domain.Error.{DomainResult, ok, err, ◌>>=◌}
use personal_finance_hub.Domain.ExchangeRate.{TimePoint}
use personal_finance_hub.Domain.Ids.{TypedId, no_id}
use personal_finance_hub.Domain.Money.{Money}
use personal_finance_hub.Domain.Transaction.{Transaction}
use personal_finance_hub.Infrastructure.Repository.{success, failure-ne-success, success-injective}
use personal_finance_hub.Infrastructure.Store.{InMemoryStore, InMemoryBalanceCache}
use personal_finance_hub.Infrastructure.Action.{reads, >>=-eq-success}
use personal_finance_hub.Infrastructure.Transactions.{find_by_account}
use personal_finance_hub.Infrastructure.Accounts.{find_by_id}
use personal_finance_hub.Infrastructure.Accounts.Balances.{
  source_version, last_tx_id, cache_of, write_back, rebuilt, rebuild, cached_snapshot, is_current,
  from_cache, balance_of,
}

-- The balance of a replay, without its time.
abbrev pub balance_part : DomainResult BalanceSnapshot → DomainResult Money
balance_part (err e) = err e
balance_part (ok snapshot) = ok snapshot.balance

snapshot-as_of :
    (id : TypedId) (r : DomainResult Money) (now later : TimePoint)
    → balance_part (r >>= λ b. ok (snapshot id b now))
      ≡ balance_part (r >>= λ b. ok (snapshot id b later))
snapshot-as_of id (err e) now later = refl
snapshot-as_of id (ok b) now later = refl

zero-as_of :
    (id : TypedId) (z : DomainResult Decimal) (replay : Decimal → DomainResult Money)
    (now later : TimePoint)
    → balance_part (z >>= λ a. replay a >>= λ b. ok (snapshot id b now))
      ≡ balance_part (z >>= λ a. replay a >>= λ b. ok (snapshot id b later))
zero-as_of id (err e) replay now later = refl
zero-as_of id (ok a) replay now later = snapshot-as_of id (replay a) now later

-- The time of a replay does not matter to its balance.
pub calculate_balance-as_of :
    (id : TypedId) (txs : List Transaction) (currency : Currency) (now later : TimePoint)
    → balance_part (calculate_balance id txs currency now)
      ≡ balance_part (calculate_balance id txs currency later)
unfolding calculate_balance
calculate_balance-as_of id txs currency now later =
    zero-as_of id (Decimal.from_integer (pos 0))
      (λ a. balance_loop txs currency (record { amount = a; currency = currency })) now later

-- What the cache says of an account, if its version is that of the transactions.
abbrev pub IsCoherent : TypedId → InMemoryStore → Type 0
IsCoherent id s =
    (c : InMemoryBalanceCache) (account : Account) (txs : List Transaction)
    → cache_of id s ≡ some c
    → find_by_id id s ≡ success account
    → find_by_account id none none false s ≡ success txs
    → c.source_version ≡ source_version txs
    → (c.last_transaction_id ≡ last_tx_id no_id txs)
      × ((now : TimePoint)
          → balance_part (calculate_balance id txs account.currency now) ≡ ok c.balance)

-- The steps of a reading that ends well.
pub balance_of-steps :
    (id : TypedId) (now : TimePoint) (s : InMemoryStore) {t : InMemoryStore}
    {snap : BalanceSnapshot}
    → balance_of id now s ≡ (t, success snap)
    → (account : Account) × (txs : List Transaction) × (find_by_id id s ≡ success account)
      × (find_by_account id none none false s ≡ success txs)
      × (from_cache id txs (cache_of id s) (calculate_balance id txs account.currency now) s
          ≡ (t, success snap))
unfolding balance_of
balance_of-steps id now s e =
    let (account, found, e1) = >>=-eq-success (reads (find_by_id id)) _ s e in
    let (txs, listed, e2) = >>=-eq-success (reads (find_by_account id none none false)) _ s e1 in
    let (cache, cached, e3) = >>=-eq-success (reads (λ s. success (cache_of id s))) _ s e2 in
    (account, txs, found, listed, rw (success-injective cached) e3)

rebuild-success :
    (id : TypedId) (txs : List Transaction) (cache : Option InMemoryBalanceCache)
    (r : DomainResult BalanceSnapshot) (s : InMemoryStore) {t : InMemoryStore}
    {snap : BalanceSnapshot}
    → rebuild id txs cache r s ≡ (t, success snap)
    → (replayed : BalanceSnapshot) × (r ≡ ok replayed)
      × (snap ≡ record replayed { last_transaction_id = last_tx_id no_id txs })
      × (t ≡ write_back id (rebuilt txs cache replayed) s)
unfolding rebuild
rebuild-success id txs cache (err e) s h = absurd (failure-ne-success (ap (λ y. y.1) h))
rebuild-success id txs cache (ok replayed) s h =
    (replayed, refl, sym (success-injective (ap (λ y. y.1) h)), sym (ap (λ y. y.0) h))

-- A reading is answered from a current cache, or replayed and written back.
pub from_cache-success :
    (id : TypedId) (txs : List Transaction) (cache : Option InMemoryBalanceCache)
    (r : DomainResult BalanceSnapshot) (s : InMemoryStore) {t : InMemoryStore}
    {snap : BalanceSnapshot}
    → from_cache id txs cache r s ≡ (t, success snap)
    → ((c : InMemoryBalanceCache) × (cache ≡ some c)
        × (c.source_version ≡ source_version txs)
        × (snap ≡ cached_snapshot id c)
        × (t ≡ s))
      ⊎ ((replayed : BalanceSnapshot) × (r ≡ ok replayed)
          × (snap ≡ record replayed { last_transaction_id = last_tx_id no_id txs })
          × (t ≡ write_back id (rebuilt txs cache replayed) s))
unfolding from_cache is_current
from_cache-success id txs none r s = λ h. inr (rebuild-success id txs none r s h)
from_cache-success id txs (some c) r s =
    elim (Bool-cases (eqb_ℤ c.source_version (source_version txs))) [
      | inl current ↦ rw current λ h. inl (
        c,
        refl,
        eqb_ℤ→eq c.source_version (source_version txs) current,
        sym (success-injective (ap (λ y. y.1) h)),
        sym (ap (λ y. y.0) h),
      )
      | inr old ↦ rw old λ h. inr (rebuild-success id txs (some c) r s h)
    ]
