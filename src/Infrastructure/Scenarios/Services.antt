-- ===== src/Infrastructure/Scenarios/Services.antt =====
-- Categories, stored rates and sessions of the household.
use mathlib.Core.Option.{some-injective}
use personal_finance_hub.Prelude.{
  ◌≡◌, refl, sym, ap, ◌∙◌, Bool, true, false, none, some, [], ◌∷◌, Bytes, bytes, bytes_eq,
  if◌then◌else◌,
}
use personal_finance_hub.Prelude.Int.{ℤ, pos, ◌+ℤ◌, eqb_ℤ, eqb_ℤ→eq}
use personal_finance_hub.Prelude.Dict
use personal_finance_hub.Prelude.IdMap
use personal_finance_hub.Domain.Category.{Category, CategorySource, category_is_deleted}
use personal_finance_hub.Domain.Decimal
use personal_finance_hub.Domain.ExchangeRate.{ExchangeRate}
use personal_finance_hub.Domain.Ids.{TypedId, no_id}
use personal_finance_hub.Domain.Transaction.{expense_board}
use personal_finance_hub.Application.AuthModels.{RefreshTokenRecord}
use personal_finance_hub.Infrastructure.Repository.{success}
use personal_finance_hub.Infrastructure.Store.{InMemoryStore, InMemoryRevokedSession, no_staging}
use personal_finance_hub.Infrastructure.Merged.{merged, visible}
use personal_finance_hub.Infrastructure.UnitOfWork.{TransactionContext, begin}
use personal_finance_hub.Infrastructure.Idempotency.{has_tenant}
use personal_finance_hub.Infrastructure.Accounts
use personal_finance_hub.Infrastructure.Categories
use personal_finance_hub.Infrastructure.Categories.{lookup, resolve_root_id_for_user}
use personal_finance_hub.Infrastructure.Categories.Saved.{IsWellKeyed}
use personal_finance_hub.Infrastructure.Categories.Rooted.{save-rooted}
use personal_finance_hub.Infrastructure.Rates
use personal_finance_hub.Infrastructure.Sessions
use personal_finance_hub.Infrastructure.Sessions.{revoke_session, revoked_token}
use personal_finance_hub.Infrastructure.Sessions.Revoked.{holds, is_session_revoked}
use personal_finance_hub.Infrastructure.Sessions.Ended.{IsEnded, revoke_session-IsEnded}
use personal_finance_hub.Infrastructure.Scenarios.{household, cny}

abbrev food : Category
food = record {
  id = pos 1;
  owner = pos 1;
  name = bytes "food";
  board = expense_board;
  parent_id = none;
  source = CategorySource.user;
  template_id = none;
  sort_order = pos 0;
  deleted_at = none;
  created_at = pos 5;
  updated_at = pos 5;
}

-- A new category below it.
abbrev snacks : Category
snacks = record food { id = no_id; name = bytes "snacks"; parent_id = some (pos 1) }

abbrev usd : Bytes
usd = bytes "USD"

abbrev monday : ExchangeRate
monday = record {
  base = usd;
  target = cny;
  rate = pos 70000000000;
  fetched_at = pos 10;
  source = bytes "bank";
}

abbrev tuesday : ExchangeRate
tuesday = record monday { rate = pos 71000000000; fetched_at = pos 20 }

abbrev wednesday : ExchangeRate
wednesday = record monday { rate = pos 69000000000; fetched_at = pos 30 }

abbrev token : RefreshTokenRecord
token = record {
  id = pos 1;
  user_id = pos 1;
  token_hash = bytes "hash";
  session_id = bytes "phone";
  expires_at = pos 100;
  created_at = pos 5;
  revoked_at = none;
}

abbrev furnished : InMemoryStore
furnished = record household {
  next_category_id = pos 2;
  next_exchange_rate_id = pos 3;
  tables = record household.tables {
    categories = (pos 1, food) ∷ [];
    exchange_rates = (pos 1, monday) ∷ (pos 2, tuesday) ∷ [];
    refresh_tokens = (bytes "hash", token) ∷ [];
  };
}

abbrev running : InMemoryStore
running = begin furnished

food-keyed :
    (id : ℤ) (b : Bool) (c : Category)
    → eqb_ℤ (pos 1) id ≡ b
    → (if b then some food else none) ≡ some c
    → c.id ≡ id
food-keyed id true c same h = ap (λ x. x.id) (sym (some-injective _ _ h)) ∙ eqb_ℤ→eq (pos 1) id same
food-keyed id false c same h = absurd cc

running-IsWellKeyed : IsWellKeyed running
unfolding lookup visible begin no_staging IdMap.find IdMap.elem
running-IsWellKeyed id c h = food-keyed id _ c refl h

save-rooted_example :
    (root : TypedId) × (resolve_root_id_for_user (pos 2) (pos 1) (Categories.save snacks running).0
      ≡ success root)
unfolding lookup visible begin no_staging IdMap.find IdMap.elem Categories.save
    Categories.save_checked Categories.check_category Accounts.user_exists IdMap.contains
    Categories.has_no_name Categories.check_parent Categories.fits_below
    Categories.find_by_id_for_user Categories.climb category_is_deleted Categories.is_duplicate
    Categories.merged_categories merged IdMap.insert_all IdMap.erase_all Categories.create bytes_eq
    ◌+ℤ◌
save-rooted_example =
    save-rooted snacks running (Categories.save snacks running).0 (pos 2) running-IsWellKeyed refl
      refl refl

abbrev of_ann : TransactionContext
of_ann = record { id = 1; tenant_user_id = some (pos 1) }

abbrev lost_phone : InMemoryRevokedSession
lost_phone = record {
  user_id = pos 1;
  session_id = bytes "phone";
  expires_at = pos 100;
  revoked_at = pos 50;
  reason = bytes "lost";
}

abbrev after_loss : InMemoryStore
after_loss = (revoke_session of_ann lost_phone running).0

revoke_session-IsEnded_example :
    IsEnded lost_phone (Sessions.find_refresh_token (bytes "hash") after_loss)
    × (is_session_revoked (bytes "phone") (pos 60) after_loss ≡ true)
unfolding revoke_session Sessions.written Sessions.check_session Sessions.require_active_transaction
    Sessions.require_tenant has_tenant begin holds Dict.find
revoke_session-IsEnded_example =
    revoke_session-IsEnded of_ann lost_phone running after_loss refl (bytes "hash") (pos 60)
