-- ===== src/Domain/ExchangeRate.antt =====
-- include/pfh/domain/exchange_rate.h and src/domain/exchange_rate.cpp, with
-- src/domain/currency_conversion_service.cpp: directed rates between two currencies. A time point
-- is an integer, the ticks of the clock.
pub mod Source
pub mod Rates
use personal_finance_hub.Prelude.{
  ◌-◌, Bool, not, ◌&&◌, ◌||◌, ◌++◌, length, take, drop, Bytes, bytes, bytes_eq, leb, if◌then◌else◌,
}
use personal_finance_hub.Prelude.Int.{ℤ, pos, ltb_ℤ}
use personal_finance_hub.Domain.Error.{
  DomainResult, ok, err, ◌>>=◌, ◌>>◌, reject_if, invalid_exchange_rate, currency_mismatch,
}
use personal_finance_hub.Domain.Decimal
use personal_finance_hub.Domain.Decimal.{Decimal}
use personal_finance_hub.Domain.Currency.{Currency, same_currency, pivot_code}
use personal_finance_hub.Domain.Money.{Money}

abbrev pub TimePoint : Type 0
TimePoint = ℤ

pub record ExchangeRate : Type 0 where
  pub base : Currency
  pub target : Currency
  pub rate : Decimal
  pub fetched_at : TimePoint
  pub source : Bytes

unfoldable pub create :
    Currency → Currency → Decimal → TimePoint → Bytes → DomainResult ExchangeRate
create base target rate fetched_at source = do
  reject_if (same_currency base target) invalid_exchange_rate
  reject_if (not (Decimal.is_positive rate)) invalid_exchange_rate
  reject_if (not (Decimal.fits_numeric_20_10 rate)) invalid_exchange_rate
  ok (record {
    base = base;
    target = target;
    rate = rate;
    fetched_at = fetched_at;
    source = source;
  })

abbrev pub suffix : Bytes
suffix = bytes "+inverse"

unfoldable pub ends_with : Bytes → Bytes → Bool
ends_with text tail =
    leb (length tail) (length text) && bytes_eq (drop (length text - length tail) text) tail

unfoldable pub inverted_source : Bytes → Bytes
inverted_source source =
    if ends_with source suffix
    then take (length source - length suffix) source
    else source ++ suffix

unfoldable pub inverse : ExchangeRate → DomainResult ExchangeRate
inverse r = do
  one ← Decimal.from_integer (pos 1)
  inv ← Decimal.divide one r.rate
  create r.target r.base inv r.fetched_at (inverted_source r.source)

unfoldable pub convert : ExchangeRate → Money → DomainResult Money
convert r amount = do
  reject_if (not (same_currency amount.currency r.base)) currency_mismatch
  converted ← Decimal.multiply amount.amount r.rate
  ok (record { amount = converted; currency = r.target })

abbrev latest : TimePoint → TimePoint → TimePoint
latest a b = if ltb_ℤ a b then b else a

-- CurrencyConversionService::cross_rate
unfoldable pub cross_rate : ExchangeRate → ExchangeRate → DomainResult ExchangeRate
cross_rate pivot_to_base pivot_to_target = do
  reject_if
      (not (bytes_eq pivot_to_base.base pivot_code)
        || not (bytes_eq pivot_to_target.base pivot_code))
      invalid_exchange_rate
  cross ← Decimal.divide pivot_to_target.rate pivot_to_base.rate
  create pivot_to_base.target pivot_to_target.target cross
      (latest pivot_to_base.fetched_at pivot_to_target.fetched_at) (bytes "TriangularCalculation")
