-- ===== src/Infrastructure/Accounts/Balances/Exact.antt =====
-- What a reading of a balance returns and leaves in the cache.
use mathlib.Core.Option.{some-injective}
use personal_finance_hub.Prelude.{
  ◌≡◌, refl, sym, ◌∙◌, inl, inr, false, Option, none, some, List, if◌then◌else◌, Bool-cases,
}
use personal_finance_hub.Prelude.Int.{eqb_ℤ, eqb_ℤ→eq}
use personal_finance_hub.Prelude.IdMap
use personal_finance_hub.Domain.Account.{Account}
use personal_finance_hub.Domain.Balance.{BalanceSnapshot, calculate_balance}
use personal_finance_hub.Domain.Error.{ok}
use personal_finance_hub.Domain.ExchangeRate.{TimePoint}
use personal_finance_hub.Domain.Ids.{TypedId, no_id}
use personal_finance_hub.Domain.Transaction.{Transaction}
use personal_finance_hub.Infrastructure.Repository.{success, success-injective}
use personal_finance_hub.Infrastructure.Store.{InMemoryStore, InMemoryBalanceCache}
use personal_finance_hub.Infrastructure.Transactions.{find_by_account, merge_transactions}
use personal_finance_hub.Infrastructure.Transactions.Checks.{staged_first}
use personal_finance_hub.Infrastructure.Accounts.{find_by_id, is_staged_deleted_account}
use personal_finance_hub.Infrastructure.Accounts.Balances.{
  last_tx_id, cache_of, write_back, rebuilt, cached_snapshot, balance_of,
}
use personal_finance_hub.Infrastructure.Accounts.Balances.Coherence.{
  IsCoherent, balance_part, balance_of-steps, from_cache-success, calculate_balance-as_of,
}

-- The balance is the one that a replay of the account's transactions gives.
abbrev pub IsReplayed : TypedId → TimePoint → InMemoryStore → BalanceSnapshot → Type 0
IsReplayed id now s snap =
    (account : Account) × (txs : List Transaction) × (find_by_id id s ≡ success account)
    × (find_by_account id none none false s ≡ success txs)
    × (balance_part (calculate_balance id txs account.currency now) ≡ ok snap.balance)
    × (snap.last_transaction_id ≡ last_tx_id no_id txs)

-- A balance that is read is that of the replayed transactions of the account, whether it comes from
-- the cache or not, and so is the id of the last transaction: provided that the cache is coherent.
pub balance_of-exact :
    (id : TypedId) (now : TimePoint) (s t : InMemoryStore) (snap : BalanceSnapshot)
    → IsCoherent id s
    → balance_of id now s ≡ (t, success snap)
    → IsReplayed id now s snap
unfolding cached_snapshot
balance_of-exact id now s t snap coherent e =
    let (account, txs, found, listed, e1) = balance_of-steps id now s e in
    elim (from_cache-success id txs (cache_of id s) _ s e1) as (λ _. IsReplayed id now s snap) [
      | inl (c, cached, current, same, kept) ↦
          let (last, replayed) = coherent c account txs cached found listed current in
          (account, txs, found, listed, replayed now ∙ rw same refl, rw same last)
      | inr (replayed, is_ok, same, written) ↦
          (account, txs, found, listed, rw (is_ok, same) refl, rw same refl)
    ]

write_back-same :
    (id : TypedId) (c : InMemoryBalanceCache) (s : InMemoryStore)
    → ((j : TypedId) → find_by_id j (write_back id c s) ≡ find_by_id j s)
      × ((j : TypedId)
          → find_by_account j none none false (write_back id c s)
            ≡ find_by_account j none none false s)
unfolding write_back find_by_id is_staged_deleted_account find_by_account merge_transactions
write_back-same id c s = elim (Bool-cases s.in_transaction) [
  | inl running ↦ rw running ((λ j. refl), (λ j. refl))
  | inr shut ↦ rw shut ((λ j. refl), (λ j. refl))
]

cache_of-write_back :
    (id j : TypedId) (c : InMemoryBalanceCache) (s : InMemoryStore)
    → cache_of j (write_back id c s) ≡ (if eqb_ℤ id j then some c else cache_of j s)
unfolding write_back cache_of staged_first
cache_of-write_back id j c s = elim (Bool-cases s.in_transaction) [
  | inl running ↦ rw running (
      rw (IdMap.find-insert_or_assign id j c s.staging.staged_balance_cache)
        (elim (Bool-cases (eqb_ℤ id j)) [ inl e ↦ rw e refl | inr e ↦ rw e refl ]))
  | inr shut ↦ rw shut (
      rw (IdMap.find-insert_or_assign id j c s.tables.balance_cache)
        (elim (Bool-cases (eqb_ℤ id j)) [ inl e ↦ rw e refl | inr e ↦ rw e refl ]))
]

rebuilt-says :
    (id : TypedId) (now : TimePoint) (txs : List Transaction) (replayed : BalanceSnapshot)
    (cache : Option InMemoryBalanceCache) (account : Account)
    → calculate_balance id txs account.currency now ≡ ok replayed
    → (c : InMemoryBalanceCache) (a : Account) (ts : List Transaction)
    → rebuilt txs cache replayed ≡ c
    → account ≡ a
    → txs ≡ ts
    → (c.last_transaction_id ≡ last_tx_id no_id ts)
      × ((later : TimePoint)
          → balance_part (calculate_balance id ts a.currency later) ≡ ok c.balance)
unfolding rebuilt
rebuilt-says id now txs replayed cache account is_ok c a ts same_c same_a same_ts =
    rw (sym same_c, sym same_a, sym same_ts)
      (refl, λ later. calculate_balance-as_of id txs account.currency later now ∙ rw is_ok refl)

written-IsCoherent :
    (id j : TypedId) (now : TimePoint) (s : InMemoryStore) (account : Account)
    (txs : List Transaction) (replayed : BalanceSnapshot) (cache : Option InMemoryBalanceCache)
    → find_by_id id s ≡ success account
    → find_by_account id none none false s ≡ success txs
    → calculate_balance id txs account.currency now ≡ ok replayed
    → IsCoherent j s
    → IsCoherent j (write_back id (rebuilt txs cache replayed) s)
unfolding rebuilt
written-IsCoherent id j now s account txs replayed cache found listed is_ok coherent c a ts =
    let (accounts, lists) = write_back-same id (rebuilt txs cache replayed) s in
    rw (accounts j, lists j, cache_of-write_back id j (rebuilt txs cache replayed) s)
      (elim (Bool-cases (eqb_ℤ id j)) [
        | inr other ↦ rw other (coherent c a ts)
        | inl same ↦
            rw (same, sym (eqb_ℤ→eq id j same))
              λ cached found' listed' current.
                rebuilt-says id now txs replayed cache account is_ok c a ts
                  (some-injective _ _ cached) (success-injective (sym found ∙ found'))
                  (success-injective (sym listed ∙ listed'))
      ])

-- A reading keeps the caches of all accounts coherent, and leaves its own account's so.
pub balance_of-IsCoherent :
    (id j : TypedId) (now : TimePoint) (s t : InMemoryStore) (snap : BalanceSnapshot)
    → IsCoherent j s
    → balance_of id now s ≡ (t, success snap)
    → IsCoherent j t
balance_of-IsCoherent id j now s t snap coherent e =
    let (account, txs, found, listed, e1) = balance_of-steps id now s e in
    elim (from_cache-success id txs (cache_of id s) _ s e1) as (λ _. IsCoherent j t) [
      | inl (c, cached, current, same, kept) ↦ rw kept coherent
      | inr (replayed, is_ok, same, written) ↦ rw written (
          written-IsCoherent id j now s account txs replayed (cache_of id s) found listed is_ok
            coherent)
    ]
