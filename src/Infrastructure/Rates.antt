-- ===== src/Infrastructure/Rates.antt =====
-- include/pfh/infrastructure/persistence/in_memory_exchange_rate_repository.h: the history of the
-- exchange rates, to which rates are only ever added.
pub mod Latest
pub mod History
use personal_finance_hub.Prelude.{
  Bool, true, false, not, ◌&&◌, Option, none, some, List, [], ◌∷◌, if◌then◌else◌,
}
use personal_finance_hub.Prelude.Int.{ℤ, pos, ◌+ℤ◌, ltb_ℤ, leb_ℤ}
use personal_finance_hub.Prelude.IdMap
use personal_finance_hub.Prelude.IdMap.{IdMap}
use personal_finance_hub.Domain.Currency.{Currency, same_currency}
use personal_finance_hub.Domain.Decimal
use personal_finance_hub.Domain.ExchangeRate.{TimePoint, ExchangeRate}
use personal_finance_hub.Domain.Ids.{TypedId}
use personal_finance_hub.Infrastructure.Repository.{
  RepositoryResult, success, failure, not_found, validation_error, database_error, reject_if, ◌>>=◌,
  ◌>>◌,
}
use personal_finance_hub.Infrastructure.Store.{InMemoryStore}
use personal_finance_hub.Infrastructure.Action.{Action, required}

unfoldable pub check_rate : ExchangeRate → InMemoryStore → RepositoryResult (Unit {0})
check_rate r s = do
  reject_if (not s.in_transaction) database_error
  reject_if (not (Decimal.is_positive r.rate)) validation_error
  reject_if (same_currency r.base r.target) validation_error
  reject_if (not (Decimal.fits_numeric_20_10 r.rate)) validation_error

unfoldable pub append_checked : ExchangeRate → RepositoryResult (Unit {0}) → Action TypedId
append_checked r (failure e) s = (s, failure e)
append_checked r (success u) s = (
  record s {
    next_exchange_rate_id = s.next_exchange_rate_id +ℤ pos 1;
    staging = record s.staging {
      staged_exchange_rates =
          IdMap.emplace s.next_exchange_rate_id r s.staging.staged_exchange_rates;
    };
  },
  success s.next_exchange_rate_id,
)

unfoldable pub append : ExchangeRate → Action TypedId
append r s = append_checked r (check_rate r s) s

unfoldable pub merge_rates : InMemoryStore → IdMap ExchangeRate
merge_rates s =
    if s.in_transaction
    then IdMap.insert_all s.staging.staged_exchange_rates s.tables.exchange_rates
    else s.tables.exchange_rates

unfoldable pub of_pair : Currency → Currency → ExchangeRate → Bool
of_pair base target r = same_currency r.base base && same_currency r.target target

-- A rate of the pair that was known at a time.
unfoldable pub known_at : Currency → Currency → TimePoint → ExchangeRate → Bool
known_at base target time r = of_pair base target r && not (ltb_ℤ time r.fetched_at)

unfoldable pub is_newer : ExchangeRate → Option ExchangeRate → Bool
is_newer r none = true
is_newer r (some best) = ltb_ℤ best.fetched_at r.fetched_at

-- The loop over the rates: of those that `keep` lets pass, the first of the newest.
unfoldable pub newest :
    (ExchangeRate → Bool) → List ExchangeRate → Option ExchangeRate → Option ExchangeRate
newest keep [] best = best
newest keep (r ∷ rates) best =
    newest keep rates (if keep r && is_newer r best then some r else best)

unfoldable pub find_latest : Currency → Currency → InMemoryStore → RepositoryResult ExchangeRate
find_latest base target s =
    required (newest (of_pair base target) (IdMap.values (merge_rates s)) none) not_found

unfoldable pub find_historical :
    Currency → Currency → TimePoint → InMemoryStore → RepositoryResult ExchangeRate
find_historical base target target_time s =
    required (newest (known_at base target target_time) (IdMap.values (merge_rates s)) none)
      not_found

unfoldable pub filter : (ExchangeRate → Bool) → List ExchangeRate → List ExchangeRate
filter keep [] = []
filter keep (r ∷ rates) = let rest = filter keep rates in if keep r then r ∷ rest else rest

unfoldable pub find_all_for_pair :
    Currency → Currency → InMemoryStore → RepositoryResult (List ExchangeRate)
find_all_for_pair base target s =
    success (filter (of_pair base target) (IdMap.values (merge_rates s)))

-- The sort by time; rates of one time keep their order here, which the source leaves open.
unfoldable pub insert_sorted : ExchangeRate → List ExchangeRate → List ExchangeRate
insert_sorted r [] = r ∷ []
insert_sorted r (x ∷ xs) =
    let rest = insert_sorted r xs in
    if ltb_ℤ x.fetched_at r.fetched_at then x ∷ rest else r ∷ x ∷ xs

unfoldable pub sort : List ExchangeRate → List ExchangeRate
sort [] = []
sort (r ∷ rates) = insert_sorted r (sort rates)

-- The last rate of the range's start or before, then the rates of the range.
unfoldable pub anchor_of : TimePoint → List ExchangeRate → Option ExchangeRate → Option ExchangeRate
anchor_of from [] anchor = anchor
anchor_of from (r ∷ rates) anchor =
    anchor_of from rates (if leb_ℤ r.fetched_at from then some r else anchor)

unfoldable pub within : TimePoint → TimePoint → ExchangeRate → Bool
within from to r = not (leb_ℤ r.fetched_at from) && leb_ℤ r.fetched_at to

unfoldable pub with_anchor : Option ExchangeRate → List ExchangeRate → List ExchangeRate
with_anchor none rates = rates
with_anchor (some r) rates = r ∷ rates

unfoldable pub find_history_for_pair :
    Currency
    → Currency
    → TimePoint
    → TimePoint
    → InMemoryStore
    → RepositoryResult (List ExchangeRate)
find_history_for_pair base target from to s = do
  reject_if (ltb_ℤ to from) validation_error
  all ← find_all_for_pair base target s
  success (with_anchor (anchor_of from (sort all) none) (filter (within from to) (sort all)))
