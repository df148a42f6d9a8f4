-- ===== src/Domain/Money.antt =====
-- include/pfh/domain/money.h and src/domain/money.cpp: an amount bound to a currency.
pub mod Arithmetic
use personal_finance_hub.Prelude.{Bool, not, ◌&&◌, Bytes, bytes, ◌++◌, ltb, if◌then◌else◌}
use personal_finance_hub.Prelude.Int.{ltb_ℤ, eqb_ℤ}
use personal_finance_hub.Domain.Error.{
  DomainResult, ok, err, ◌>>=◌, ◌>>◌, reject_if, currency_mismatch,
}
use personal_finance_hub.Domain.Decimal
use personal_finance_hub.Domain.Decimal.{Decimal}
use personal_finance_hub.Domain.Decimal.Text
use personal_finance_hub.Domain.Currency.{Currency, same_currency}

pub record Money : Type 0 where
  pub amount : Decimal
  pub currency : Currency

-- `require_same_currency`, as the guard of what follows.
abbrev pub require_same_currency : Currency → Currency → DomainResult (Unit {0})
require_same_currency a b = reject_if (not (same_currency a b)) currency_mismatch

unfoldable pub is_zero : Money → Bool
is_zero m = Decimal.is_zero m.amount

unfoldable pub is_negative : Money → Bool
is_negative m = Decimal.is_negative m.amount

unfoldable pub is_positive : Money → Bool
is_positive m = Decimal.is_positive m.amount

unfoldable pub negated : Money → Money
negated m = record m { amount = Decimal.negated m.amount }

unfoldable pub add : Money → Money → DomainResult Money
add a b = do
  require_same_currency a.currency b.currency
  sum ← Decimal.add a.amount b.amount
  ok (record { amount = sum; currency = a.currency })

unfoldable pub subtract : Money → Money → DomainResult Money
subtract a b = do
  require_same_currency a.currency b.currency
  diff ← Decimal.subtract a.amount b.amount
  ok (record { amount = diff; currency = a.currency })

unfoldable pub multiply : Money → Decimal → DomainResult Money
multiply a factor = do
  product ← Decimal.multiply a.amount factor
  ok (record { amount = product; currency = a.currency })

unfoldable pub equal : Money → Money → Bool
equal a b = same_currency a.currency b.currency && eqb_ℤ a.amount b.amount

-- std::strong_ordering
pub data StrongOrdering : Type 0 where
  less equivalent greater : StrongOrdering

unfoldable pub compare : Money → Money → DomainResult StrongOrdering
compare a b = do
  require_same_currency a.currency b.currency
  ok (
      if ltb_ℤ a.amount b.amount
      then less
      else if eqb_ℤ a.amount b.amount
      then equivalent
      else greater)

unfoldable pub to_string : Money → Bytes
to_string m = Decimal.Text.to_string m.amount ++ bytes " " ++ m.currency
