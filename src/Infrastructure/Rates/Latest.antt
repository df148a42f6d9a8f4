-- ===== src/Infrastructure/Rates/Latest.antt =====
-- The rate that a query picks from the history.
use personal_finance_hub.Prelude.{
  ◌≡◌, ◌⊎◌, Bool, true, false, not, ◌&&◌, Option, none, some, List, [], ◌∷◌, All,
}
use personal_finance_hub.Prelude.Int.{ltb_ℤ, leb_ℤ}
use personal_finance_hub.Prelude.IdMap
use personal_finance_hub.Domain.Currency.{Currency}
use personal_finance_hub.Domain.ExchangeRate.{ExchangeRate}
use personal_finance_hub.Infrastructure.Repository.{RepositoryResult, success, failure, not_found}

-- `r` is one of the rates.
abbrev pub IsAmong : ExchangeRate → List ExchangeRate → Type 0
IsAmong r [] = ⊥
IsAmong r (x ∷ xs) = (r ≡ x) ⊎ IsAmong r xs

module _ (keep : ExchangeRate → Bool) where
  -- `x` does not count, or the best rate is as new.
  abbrev covers : Option ExchangeRate → ExchangeRate → Bool
  covers none x = not (keep x)
  covers (some r) x = not (keep x && ltb_ℤ r.fetched_at x.fetched_at)

  -- What is said of a query: a rate that counts and is the newest that does, or that there is none.
  abbrev pub IsLatest : List ExchangeRate → RepositoryResult ExchangeRate → Type 0
  IsLatest rates (success r) =
      (keep r ≡ true)
      × IsAmong r rates
      × All (λ x. keep x ≡ true → leb_ℤ x.fetched_at r.fetched_at ≡ true) rates
  IsLatest rates (failure e) = (e ≡ not_found) × All (λ x. keep x ≡ false) rates
