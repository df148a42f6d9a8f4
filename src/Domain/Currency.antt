-- ===== src/Domain/Currency.antt =====
-- include/pfh/domain/currency.h and src/domain/currency.cpp: the currency catalog and Currency.
-- A Currency is its one field, the code.
pub mod Codes
use personal_finance_hub.Prelude.{
  ℕ, ◌+◌, ◌-◌, Bool, true, false, ◌&&◌, ◌||◌, Option, none, some, List, [], ◌∷◌, length, Bytes,
  bytes, bytes_eq, String, ltb, leb, if◌then◌else◌,
}
use personal_finance_hub.Domain.Error.{
  DomainResult, ok, err, ◌>>=◌, ◌>>◌, reject_if, invalid_currency,
}

pub record CurrencyMetadata : Type 0 where
  pub code : Bytes
  pub symbol : String
  pub display_name : String
  pub precision : ℕ
  pub is_crypto : Bool

abbrev entry : Bytes → String → String → ℕ → Bool → CurrencyMetadata
entry code symbol name precision crypto = record {
  code = code;
  symbol = symbol;
  display_name = name;
  precision = precision;
  is_crypto = crypto;
}

unfoldable pub catalog : List CurrencyMetadata
catalog =
    entry (bytes "USD") "$" "US Dollar" 2 false
    ∷ entry (bytes "CNY") "¥" "Chinese Yuan" 2 false
    ∷ entry (bytes "EUR") "€" "Euro" 2 false
    ∷ entry (bytes "GBP") "£" "British Pound" 2 false
    ∷ entry (bytes "JPY") "¥" "Japanese Yen" 0 false
    ∷ entry (bytes "HKD") "HK$" "Hong Kong Dollar" 2 false
    ∷ entry (bytes "AUD") "A$" "Australian Dollar" 2 false
    ∷ entry (bytes "CAD") "C$" "Canadian Dollar" 2 false
    ∷ entry (bytes "CHF") "CHF" "Swiss Franc" 2 false
    ∷ entry (bytes "SGD") "S$" "Singapore Dollar" 2 false
    ∷ entry (bytes "KRW") "₩" "South Korean Won" 0 false
    ∷ entry (bytes "INR") "₹" "Indian Rupee" 2 false
    ∷ entry (bytes "RUB") "₽" "Russian Ruble" 2 false
    ∷ entry (bytes "BRL") "R$" "Brazilian Real" 2 false
    ∷ entry (bytes "ZAR") "R" "South African Rand" 2 false
    ∷ entry (bytes "MXN") "Mex$" "Mexican Peso" 2 false
    ∷ entry (bytes "NZD") "NZ$" "New Zealand Dollar" 2 false
    ∷ entry (bytes "SEK") "kr" "Swedish Krona" 2 false
    ∷ entry (bytes "NOK") "kr" "Norwegian Krone" 2 false
    ∷ entry (bytes "TWD") "NT$" "Taiwan Dollar" 2 false
    ∷ entry (bytes "BTC") "₿" "Bitcoin" 8 true
    ∷ entry (bytes "ETH") "Ξ" "Ethereum" 8 true
    ∷ entry (bytes "USDT") "USDT" "Tether" 8 true
    ∷ entry (bytes "USDC") "USDC" "USD Coin" 8 true
    ∷ entry (bytes "BNB") "BNB" "Binance Coin" 8 true
    ∷ entry (bytes "XRP") "XRP" "Ripple" 6 true
    ∷ entry (bytes "ADA") "ADA" "Cardano" 6 true
    ∷ entry (bytes "DOGE") "Ð" "Dogecoin" 8 true
    ∷ entry (bytes "SOL") "SOL" "Solana" 8 true
    ∷ entry (bytes "TRX") "TRX" "TRON" 6 true
    ∷ entry (bytes "MATIC") "MATIC" "Polygon" 8 true
    ∷ entry (bytes "DOT") "DOT" "Polkadot" 8 true
    ∷ entry (bytes "WBTC") "WBTC" "Wrapped Bitcoin" 8 true
    ∷ []

abbrev crypto_min_len : ℕ
crypto_min_len = 3

abbrev crypto_max_len : ℕ
crypto_max_len = 5

unfoldable pub find_in : List CurrencyMetadata → Bytes → Option CurrencyMetadata
find_in [] code = none
find_in (m ∷ ms) code = if bytes_eq m.code code then some m else find_in ms code

unfoldable pub find_metadata : Bytes → Option CurrencyMetadata
find_metadata code = find_in catalog code

abbrev pub Currency : Type 0
Currency = Bytes

unfoldable pub upper_letter : ℕ → DomainResult ℕ
upper_letter c =
    if leb b'a' c && leb c b'z'
    then ok (c - b'a' + b'A')
    else if leb b'A' c && leb c b'Z'
    then ok c
    else err invalid_currency

-- The loop that upcases the letters of a code and refuses anything else.
unfoldable pub upper_code : Bytes → DomainResult Bytes
upper_code [] = ok []
upper_code (c ∷ cs) = do letter ← upper_letter c; rest ← upper_code cs; ok (letter ∷ rest)

abbrev pub known : Bytes → Option CurrencyMetadata → DomainResult Currency
known upper none = err invalid_currency
known upper (some m) = ok upper

unfoldable pub create : Bytes → DomainResult Currency
create code = do
  reject_if (ltb (length code) crypto_min_len || ltb crypto_max_len (length code)) invalid_currency
  upper ← upper_code code
  known upper (find_metadata upper)

unfoldable pub is_crypto : Currency → Bool
is_crypto code = elim (find_metadata code) [ none ↦ false | some m ↦ m.is_crypto ]

abbrev pub same_currency : Currency → Currency → Bool
same_currency a b = bytes_eq a b

abbrev pub pivot_code : Bytes
pivot_code = bytes "USD"
