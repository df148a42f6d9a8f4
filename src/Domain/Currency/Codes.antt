-- ===== src/Domain/Currency/Codes.antt =====
-- src/domain/currency.cpp: the texts that Currency::create accepts.
use mathlib.Core.Path.{subst}
use personal_finance_hub.Prelude.{
  ℕ, suc, ◌+◌, ◌≡◌, ◌↔◌, ◌⊎◌, inl, inr, refl, sym, ap, ◌∙◌, Bool, true, false, ◌||◌, ◌&&◌, Option,
  none, some, List, [], ◌∷◌, length, all, Bytes, bytes_eq, bytes_eq→eq, bytes_eq_refl, Bool-cases,
  arith, ltb, leb,
}
use personal_finance_hub.Domain.Error.{
  ok, ◌>>=◌, >>=-eq-ok, guard-eq-ok, invalid_currency, ok-injective, err-ne-ok,
}
use personal_finance_hub.Domain.Currency.{
  CurrencyMetadata, Currency, catalog, find_in, find_metadata, upper_letter, upper_code, known,
  create,
}

and-both : (a b : Bool) → (a && b) ≡ true → (a ≡ true) × (b ≡ true)
and-both true b h = (refl, h)
and-both false b h = absurd cc

-- `text` spells `code`: letter by letter the same, or its lower case, which is 32 above.
abbrev pub Spells : Bytes → Bytes → Type 0
Spells [] [] = Unit
Spells [] (l ∷ ls) = ⊥
Spells (c ∷ cs) [] = ⊥
Spells (c ∷ cs) (l ∷ ls) = ((c ≡ l) ⊎ (c ≡ l + 32)) × Spells cs ls

-- `code` is that of an entry.
abbrev pub IsListed : Currency → List CurrencyMetadata → Type 0
IsListed code [] = ⊥
IsListed code (m ∷ ms) = (m.code ≡ code) ⊎ IsListed code ms

upper_code-cons :
    (c : ℕ) (cs : Bytes) {upper : Bytes}
    → upper_code (c ∷ cs) ≡ ok upper
    → (l : ℕ) × (ls : Bytes) × (upper_letter c ≡ ok l) × (upper_code cs ≡ ok ls) × (l ∷ ls ≡ upper)
unfolding upper_code
upper_code-cons c cs e =
    let (l, el, e') = >>=-eq-ok (upper_letter c) _ e in
    let (ls, els, e'') = >>=-eq-ok (upper_code cs) _ e' in (l, ls, el, els, ok-injective e'')

abbrev is_capital : ℕ → Bool
is_capital c = leb 65 c && leb c 90

upper_letter-case : (c l : ℕ) → upper_letter c ≡ ok l → (c ≡ l) ⊎ (c ≡ l + 32)
unfolding upper_letter
upper_letter-case c l e = ground arith

capital-upper_letter :
    (c l : ℕ) → is_capital l ≡ true → (c ≡ l) ⊎ (c ≡ l + 32) → upper_letter c ≡ ok l
unfolding upper_letter
capital-upper_letter c l h k = ground arith

upper_code-nil : {upper : Bytes} → upper_code [] ≡ ok upper → [] ≡ upper
unfolding upper_code
upper_code-nil e = ok-injective e

upper_code-Spells : (cs : Bytes) {upper : Bytes} → upper_code cs ≡ ok upper → Spells cs upper
upper_code-Spells [] e = subst (Spells []) (upper_code-nil e) tt
upper_code-Spells (c ∷ cs) e =
    let (l, ls, el, els, eq) = upper_code-cons c cs e in
    subst (Spells (c ∷ cs)) eq (upper_letter-case c l el, upper_code-Spells cs els)

upper_code-step :
    (c : ℕ) (cs : Bytes) {l : ℕ} {ls : Bytes}
    → upper_letter c ≡ ok l
    → upper_code cs ≡ ok ls
    → upper_code (c ∷ cs) ≡ ok (l ∷ ls)
unfolding upper_code
upper_code-step c cs el els = rw (el, els)

known-eq-ok :
    (upper : Bytes) (o : Option CurrencyMetadata) {code : Currency}
    → known upper o ≡ ok code
    → (m : CurrencyMetadata) × (o ≡ some m) × (upper ≡ code)
known-eq-ok upper none e = absurd (err-ne-ok e)
known-eq-ok upper (some m) e = (m, refl, ok-injective e)

pub find_in-IsListed :
    (ms : List CurrencyMetadata) (code : Currency) {m : CurrencyMetadata}
    → find_in ms code ≡ some m
    → IsListed code ms
unfolding find_in
find_in-IsListed [] code e = absurd cc
find_in-IsListed (first ∷ ms) code e = elim (Bool-cases (bytes_eq first.code code)) [
  | inl same ↦ inl (bytes_eq→eq first.code code same)
  | inr other ↦ inr (find_in-IsListed ms code (rw other at e))
]

IsListed-find_in :
    (ms : List CurrencyMetadata) (code : Currency)
    → IsListed code ms
    → (m : CurrencyMetadata) × (find_in ms code ≡ some m)
unfolding find_in
IsListed-find_in [] code h = absurd h
IsListed-find_in (first ∷ ms) code (inl same) = (first, rw (same, bytes_eq_refl code) refl)
IsListed-find_in (first ∷ ms) code (inr later) = elim (Bool-cases (bytes_eq first.code code)) [
  | inl same ↦ (first, rw same refl)
  | inr other ↦ let (m, found) = IsListed-find_in ms code later in (m, rw other found)
]

-- A code as the catalog has them: three to five upper-case letters.
abbrev is_code : Bytes → Bool
is_code code = all is_capital code && leb 3 (length code) && leb (length code) 5

catalog_codes : all (λ m. is_code m.code) catalog ≡ true
unfolding catalog
catalog_codes = refl

IsListed-is_code :
    (ms : List CurrencyMetadata) (code : Currency)
    → all (λ m. is_code m.code) ms ≡ true
    → IsListed code ms
    → is_code code ≡ true
IsListed-is_code [] code h k = absurd k
IsListed-is_code (m ∷ ms) code h (inl same) = rw (sym same) ((and-both (is_code m.code) _ h).0)
IsListed-is_code (m ∷ ms) code h (inr later) =
    IsListed-is_code ms code ((and-both (is_code m.code) _ h).1) later

Spells-upper_code :
    (cs code : Bytes) → all is_capital code ≡ true → Spells cs code → upper_code cs ≡ ok code
Spells-upper_code [] [] h k = unfold upper_code in refl
Spells-upper_code [] (l ∷ ls) h k = absurd k
Spells-upper_code (c ∷ cs) [] h k = absurd k
Spells-upper_code (c ∷ cs) (l ∷ ls) h (k, ks) =
    let (capital, rest) = and-both (is_capital l) _ h in
    upper_code-step c cs (capital-upper_letter c l capital k) (Spells-upper_code cs ls rest ks)

length-Spells : (cs code : Bytes) → Spells cs code → length cs ≡ length code
length-Spells [] [] k = refl
length-Spells [] (l ∷ ls) k = absurd k
length-Spells (c ∷ cs) [] k = absurd k
length-Spells (c ∷ cs) (l ∷ ls) (k, ks) = ap suc (length-Spells cs ls ks)

create-Spells :
    (text : Bytes) (code : Currency)
    → create text ≡ ok code
    → IsListed code catalog × Spells text code
unfolding create find_metadata
create-Spells text code e =
    let continue = λ (u : Bytes). known u (find_metadata u) in
    let wrong_size = ltb (length text) 3 || ltb 5 (length text) in
    let (sized, e') = guard-eq-ok wrong_size invalid_currency (upper_code text >>= continue) e in
    let (upper, eu, e'') = >>=-eq-ok (upper_code text) continue e' in
    let (m, em, same) = known-eq-ok upper (find_metadata upper) e'' in
    (
      find_in-IsListed catalog code (ap (find_in catalog) (sym same) ∙ em),
      upper_code-Spells text (eu ∙ ap ok same),
    )

Spells-create :
    (text : Bytes) (code : Currency)
    → IsListed code catalog
    → Spells text code
    → create text ≡ ok code
unfolding create find_metadata
Spells-create text code listed spelt =
    let proper = IsListed-is_code catalog code catalog_codes listed in
    let (m, found) = IsListed-find_in catalog code listed in
    let (lettered, high) = and-both (all is_capital code && leb 3 (length code)) _ proper in
    let (capitals, low) = and-both (all is_capital code) _ lettered in
    let same = length-Spells text code spelt in
    let sized : (ltb (length text) 3 || ltb 5 (length text)) ≡ false = ground arith in
    rw (sized, Spells-upper_code text code capitals spelt, found)

-- Currency::create accepts a text, and gives a code for it, exactly if the code is one of the
-- catalog and the text spells it letter by letter, each in upper or lower case.
pub create_iff :
    (text : Bytes) (code : Currency)
    → (create text ≡ ok code) ↔ (IsListed code catalog × Spells text code)
create_iff text code = (create-Spells text code, λ h. Spells-create text code h.0 h.1)
