-- ===== src/Domain/Ids.antt =====
-- include/pfh/domain/typed_id.h: strongly typed identifiers, as the integers that they wrap.
use personal_finance_hub.Prelude.{◌∷◌, ◌+◌, Bool, Bytes}
use personal_finance_hub.Prelude.Int.{ℤ, pos, negsuc, ltb_ℤ, eqb_ℤ}
use personal_finance_hub.Domain.Decimal.Text.{u128_to_string}

abbrev pub TypedId : Type 0
TypedId = ℤ

abbrev pub is_valid : TypedId → Bool
is_valid id = ltb_ℤ (pos 0) id

abbrev pub same_id : TypedId → TypedId → Bool
same_id a b = eqb_ℤ a b

-- The default constructor: the invalid id.
abbrev pub no_id : TypedId
no_id = pos 0

-- The integer in decimal.
unfoldable pub to_string : TypedId → Bytes
to_string (pos n) = u128_to_string n
to_string (negsuc n) = 45 ∷ u128_to_string (n + 1)
