-- ===== src/Infrastructure/Rates/History.antt =====
-- The history of the rates only grows.
use personal_finance_hub.Prelude.IdMap
use personal_finance_hub.Domain.ExchangeRate.{ExchangeRate}
use personal_finance_hub.Infrastructure.Store.{InMemoryStore}

-- The staged rates after one more.
abbrev with_rate : ExchangeRate → InMemoryStore → IdMap.IdMap ExchangeRate
with_rate r s = IdMap.insert_or_assign s.next_exchange_rate_id r s.staging.staged_exchange_rates
