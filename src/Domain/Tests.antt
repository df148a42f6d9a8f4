-- ===== src/Domain/Tests.antt =====
-- Runs of the domain services at concrete values, and their theorems at concrete inputs.
use personal_finance_hub.Prelude.{
  inl, inr, ℕ, ◌+◌, ◌≡◌, refl, Option, some, none, List, [], ◌∷◌, bytes, bytes_eq, arith,
}
use personal_finance_hub.Prelude.Int.{ℤ, pos, negsuc, ◌+ℤ◌}
use personal_finance_hub.Domain.Error.{ok}
use personal_finance_hub.Domain.Balance
use personal_finance_hub.Domain.Balance.{BalanceSnapshot, calculate_balance, calculate_balance_at}
use personal_finance_hub.Domain.Balance.History.{up_to, calculate_balance_at-up_to}
use personal_finance_hub.Domain.Balance.Replay.{
  InCurrency, calculate_balance-exact, calculate_balance-ok,
}
use personal_finance_hub.Domain.Currency
use personal_finance_hub.Domain.Currency.{Currency}
use personal_finance_hub.Domain.Currency.Codes.{find_in-IsListed, create_iff}
use personal_finance_hub.Domain.Decimal
use personal_finance_hub.Domain.Decimal.Text
use personal_finance_hub.Domain.ExchangeRate
use personal_finance_hub.Domain.ExchangeRate.{
  ExchangeRate, TimePoint, inverse, cross_rate, inverted_source,
}
use personal_finance_hub.Domain.ExchangeRate.Rates.{IsRate, inverse-eq, cross_rate-IsRate}
use personal_finance_hub.Domain.ExchangeRate.Source.{inverted_source-twice}
use personal_finance_hub.Domain.Money
use personal_finance_hub.Domain.Money.{Money}
use personal_finance_hub.Domain.Transaction.{
  Transaction, TransactionType, income, expense, transfer, is_deleted,
}
use personal_finance_hub.Domain.Transfer.{
  TransferAggregate, TransferMode, outgoing_and_rate, outgoing_and_incoming, incoming_and_rate,
  TransferFee, source_account_fee, validate, validate_legs, validate_adjustment,
  validate_adjustments, validate_amounts, validate_cross, tolerance_for, is_same_currency,
}
use personal_finance_hub.Domain.Transfer.Build
use personal_finance_hub.Domain.Transfer.Built.{
  build_from_outgoing_and_rate-ok, build_from_incoming_and_rate-ok, build_from_both_amounts-ok,
}
use personal_finance_hub.Domain.Transfer.Complete.{plain, build_from_outgoing_and_rate_complete}
use personal_finance_hub.Domain.Transfer.Rules.{IsConsistent, validate_iff}

abbrev usd : Currency
usd = bytes "USD"

abbrev cny : Currency
cny = bytes "CNY"

abbrev eur : Currency
eur = bytes "EUR"

abbrev money : ℤ → Currency → Money
money v c = record { amount = v; currency = c }

abbrev record_of : TransactionType → ℤ → TimePoint → Option TimePoint → Transaction
record_of type v at gone = record {
  id = pos 1;
  user_id = pos 1;
  account_id = pos 7;
  amount = money v usd;
  type = type;
  occurred_at = at;
  description = [];
  category_id = none;
  transfer_group_id = none;
  created_at = at;
  deleted_at = gone;
}

-- A salary, an expense, a deleted expense and a later outgoing transfer.
abbrev history : List Transaction
history =
    record_of income (pos 500) (pos 10) none
    ∷ record_of expense (pos 120) (pos 20) none
    ∷ record_of expense (pos 30) (pos 25) (some (pos 26))
    ∷ record_of transfer (negsuc 99) (pos 30) none
    ∷ []

calculate_balance-exact_example :
    calculate_balance (pos 7) history usd (pos 40)
    ≡ ok (Balance.snapshot (pos 7) (money (pos 280) usd) (pos 40))
unfolding ◌+ℤ◌ is_deleted bytes_eq
calculate_balance-exact_example =
    calculate_balance-exact (pos 7) history usd (pos 40)
      ((λ _. refl), ((λ _. refl), ((λ _. refl), ((λ _. refl), tt)))) (omega arith)

calculate_balance-ok_example : InCurrency usd history
unfolding calculate_balance Balance.balance_loop Balance.apply_to Balance.apply_transaction
    Balance.signed_delta is_deleted Money.add Money.is_negative Money.negated Decimal.is_negative
    Decimal.negated Decimal.add Decimal.from_integer bytes_eq
calculate_balance-ok_example =
    (calculate_balance-ok (pos 7) history usd (pos 40)
      (Balance.snapshot (pos 7) (money (pos 280) usd) (pos 40)) (omega arith) refl).0

calculate_balance_at-up_to_example :
    calculate_balance_at (pos 7) history usd (pos 20)
    ≡ calculate_balance (pos 7) (up_to (pos 20) history) usd (pos 20)
calculate_balance_at-up_to_example = calculate_balance_at-up_to (pos 7) history usd (pos 20)

create_iff_example : Currency.create (bytes "nZd") ≡ ok (bytes "NZD")
unfolding Currency.catalog Currency.find_in bytes_eq
create_iff_example =
    (create_iff (bytes "nZd") (bytes "NZD")).1
      (find_in-IsListed Currency.catalog (bytes "NZD") refl, (inr refl, (inl refl, (inr refl, tt))))

-- 1 USD = 7.18 CNY
abbrev usd_cny : ExchangeRate
usd_cny = record {
  base = usd;
  target = cny;
  rate = pos 71800000000;
  fetched_at = pos 5;
  source = bytes "FreeCurrencyAPI";
}

abbrev usd_eur : ExchangeRate
usd_eur = record usd_cny { target = eur; rate = pos 9000000000 }

usd_cny-IsRate : IsRate usd_cny
unfolding bytes_eq Decimal.is_positive Decimal.fits_numeric_20_10
usd_cny-IsRate = record { distinct = refl; positive = refl; fits = refl }

inverse-eq_example :
    inverse usd_cny
    ≡ ok (record {
      base = cny;
      target = usd;
      rate = pos 1392757660;
      fetched_at = pos 5;
      source = inverted_source (bytes "FreeCurrencyAPI");
    })
inverse-eq_example = inverse-eq usd_cny usd_cny-IsRate

inverted_source-twice_example :
    inverted_source (inverted_source (bytes "FreeCurrencyAPI")) ≡ bytes "FreeCurrencyAPI"
unfolding ExchangeRate.ends_with bytes_eq
inverted_source-twice_example = inverted_source-twice (bytes "FreeCurrencyAPI") refl

cross_rate-IsRate_example : IsRate (record {
  base = cny;
  target = eur;
  rate = pos 1253481894;
  fetched_at = pos 5;
  source = bytes "TriangularCalculation";
})
unfolding cross_rate bytes_eq Decimal.divide ExchangeRate.create Decimal.is_positive
    Decimal.fits_numeric_20_10
cross_rate-IsRate_example = (cross_rate-IsRate usd_cny usd_eur _ refl).5

abbrev clock : ℕ → TimePoint
clock n = pos (100 + n)

abbrev paid : TransferFee
paid = record { source = source_account_fee; account_id = pos 7; amount = money (pos 100) usd }

abbrev fee : Option TransferFee
fee = some paid

-- 100 USD to 718 CNY, with a fee of 0.00000001 USD.
abbrev sample : TransferMode → Option ExchangeRate → TransferAggregate
sample mode rate =
    Build.aggregate_of (pos 7) (pos 8) (pos 1) (pos 50) [] (pos 3) clock mode
      (money (pos 1000000000000) usd) (money (pos 7180000000000) cny) rate
      (Build.fee_transaction (pos 7) (pos 8) (pos 1) (pos 50) [] (pos 3) clock paid ∷ [])

build_from_outgoing_and_rate-ok_example : IsConsistent (sample outgoing_and_rate (some usd_cny))
unfolding Build.build_from_outgoing_and_rate Build.make_fee_adjustments Build.check_fee_source
    Build.assemble Build.fee_transaction Build.make_transfer_transaction validate validate_legs
    validate_adjustments validate_adjustment validate_amounts is_same_currency validate_cross
    tolerance_for bytes_eq ExchangeRate.convert Decimal.multiply Decimal.round_to_scale
    Decimal.fits_numeric_20_8 Decimal.is_positive Decimal.is_zero Decimal.negated Decimal.abs
    Decimal.add Decimal.subtract Decimal.from_integer Decimal.checked_add Decimal.checked_mul
    Money.subtract Money.is_positive Money.is_zero Money.negated Decimal.Text.parse
    Decimal.Text.trim Decimal.Text.parse_trimmed Decimal.Text.parse_unsigned Decimal.Text.scan
    Decimal.Text.scan_char Decimal.Text.build Decimal.Text.push_digits Decimal.Text.push_digit
    Decimal.Text.rounds_up Decimal.Text.fit_fraction
build_from_outgoing_and_rate-ok_example =
    (build_from_outgoing_and_rate-ok (pos 7) (pos 8) (pos 1) (pos 50) [] (pos 3) clock
      (money (pos 1000000000000) usd) usd_cny fee (sample outgoing_and_rate (some usd_cny))
      refl).4.consistent

build_from_incoming_and_rate-ok_example : IsConsistent (sample incoming_and_rate (some usd_cny))
unfolding Build.build_from_incoming_and_rate Build.make_fee_adjustments Build.check_fee_source
    Build.assemble Build.fee_transaction Build.make_transfer_transaction validate validate_legs
    validate_adjustments validate_adjustment validate_amounts is_same_currency validate_cross
    tolerance_for bytes_eq ExchangeRate.convert Decimal.multiply Decimal.round_to_scale
    Decimal.divide Decimal.fits_numeric_20_8 Decimal.is_positive Decimal.is_zero Decimal.negated
    Decimal.abs Decimal.add Decimal.subtract Decimal.from_integer Decimal.checked_add
    Decimal.checked_mul Money.subtract Money.is_positive Money.is_zero Money.negated
    Decimal.Text.parse Decimal.Text.trim Decimal.Text.parse_trimmed Decimal.Text.parse_unsigned
    Decimal.Text.scan Decimal.Text.scan_char Decimal.Text.build Decimal.Text.push_digits
    Decimal.Text.push_digit Decimal.Text.rounds_up Decimal.Text.fit_fraction
build_from_incoming_and_rate-ok_example =
    (build_from_incoming_and_rate-ok (pos 7) (pos 8) (pos 1) (pos 50) [] (pos 3) clock
      (money (pos 7180000000000) cny) usd_cny fee (sample incoming_and_rate (some usd_cny))
      refl).4.consistent

build_from_outgoing_and_rate_complete_example :
    Build.build_from_outgoing_and_rate
      (pos 7)
      (pos 8)
      (pos 1)
      (pos 50)
      []
      (pos 3)
      clock
      (money (pos 1000000000000) usd)
      usd_cny
      none
    ≡ ok (
        plain
          (pos 7)
          (pos 8)
          (pos 1)
          (pos 50)
          []
          (pos 3)
          clock
          (money (pos 1000000000000) usd)
          (money (pos 7180000000000) cny)
          usd_cny)
unfolding ExchangeRate.convert bytes_eq Decimal.multiply Decimal.round_to_scale Decimal.is_positive
    Decimal.fits_numeric_20_8
build_from_outgoing_and_rate_complete_example =
    build_from_outgoing_and_rate_complete (pos 7) (pos 8) (pos 1) (pos 50) [] (pos 3) clock usd_cny
      (money (pos 1000000000000) usd) (money (pos 7180000000000) cny) (pos 7180000000000)
      usd_cny-IsRate refl refl refl refl refl refl refl

abbrev derived : ExchangeRate
derived = record usd_cny { fetched_at = pos 50; source = bytes "DerivedFromAmounts" }

build_from_both_amounts-ok_example : IsConsistent (sample outgoing_and_incoming (some derived))
unfolding Build.build_from_both_amounts Build.derived_rate Build.make_fee_adjustments
    Build.check_fee_source Build.assemble Build.fee_transaction Build.make_transfer_transaction
    validate validate_legs validate_adjustments validate_adjustment validate_amounts
    is_same_currency validate_cross tolerance_for bytes_eq ExchangeRate.convert ExchangeRate.create
    Decimal.multiply Decimal.divide Decimal.fits_numeric_20_8 Decimal.fits_numeric_20_10
    Decimal.is_positive Decimal.is_zero Decimal.negated Decimal.abs Decimal.add Decimal.subtract
    Decimal.from_integer Decimal.checked_add Decimal.checked_mul Money.subtract Money.is_positive
    Money.is_zero Money.negated Decimal.Text.parse Decimal.Text.trim Decimal.Text.parse_trimmed
    Decimal.Text.parse_unsigned Decimal.Text.scan Decimal.Text.scan_char Decimal.Text.build
    Decimal.Text.push_digits Decimal.Text.push_digit Decimal.Text.rounds_up
    Decimal.Text.fit_fraction
build_from_both_amounts-ok_example =
    (build_from_both_amounts-ok (pos 7) (pos 8) (pos 1) (pos 50) [] (pos 3) clock
      (money (pos 1000000000000) usd) (money (pos 7180000000000) cny) fee
      (sample outgoing_and_incoming (some derived)) refl).2.consistent

sample-IsConsistent : IsConsistent (sample outgoing_and_rate (some usd_cny))
unfolding Build.build_from_outgoing_and_rate Build.make_fee_adjustments Build.check_fee_source
    Build.assemble Build.fee_transaction Build.make_transfer_transaction validate validate_legs
    validate_adjustments validate_adjustment validate_amounts is_same_currency validate_cross
    tolerance_for bytes_eq ExchangeRate.convert Decimal.multiply Decimal.round_to_scale
    Decimal.fits_numeric_20_8 Decimal.is_positive Decimal.is_zero Decimal.negated Decimal.abs
    Decimal.add Decimal.subtract Decimal.from_integer Decimal.checked_add Decimal.checked_mul
    Money.subtract Money.is_positive Money.is_zero Money.negated Decimal.Text.parse
    Decimal.Text.trim Decimal.Text.parse_trimmed Decimal.Text.parse_unsigned Decimal.Text.scan
    Decimal.Text.scan_char Decimal.Text.build Decimal.Text.push_digits Decimal.Text.push_digit
    Decimal.Text.rounds_up Decimal.Text.fit_fraction
sample-IsConsistent =
    (build_from_outgoing_and_rate-ok (pos 7) (pos 8) (pos 1) (pos 50) [] (pos 3) clock
      (money (pos 1000000000000) usd) usd_cny fee (sample outgoing_and_rate (some usd_cny))
      refl).4.consistent

validate_iff_example : validate (sample outgoing_and_rate (some usd_cny)) ≡ ok tt
validate_iff_example =
    (validate_iff (sample outgoing_and_rate (some usd_cny))).1 sample-IsConsistent
