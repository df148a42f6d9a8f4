-- ===== src/Domain/Decimal/Rounding.antt =====
-- Round-half-even as a specification, and the arithmetic of wrapped products and of division.
use mathlib.Core.Path.{subst}
use native.Mathlib.Nat.{mod-eq_of_lt, mod-lt, div-add-mod, mul_comm}
use personal_finance_hub.Prelude.{
  ℕ, ◌+◌, ◌*◌, ◌/◌, ◌%◌, ◌≤◌, ◌<◌, ◌≡◌, ◌≢◌, arith, ap, inl, inr, Bool-cases, ltb, ◌==◌,
}
use personal_finance_hub.Domain.Decimal.{round_at_twice}

-- `q` is `n / d` rounded to the nearest integer, and to the even one at a tie.
pub record HalfEven (n d q : ℕ) : Type 0 where
  pub above : 2 * n ≤ (2 * q + 1) * d
  pub below : 2 * q * d ≤ 2 * n + d
  pub tie_up : 2 * n ≡ (2 * q + 1) * d → q % 2 ≡ 0
  pub tie_down : 2 * q * d ≡ 2 * n + d → q % 2 ≡ 0

-- The half-even step of the source on an exact quotient.
abbrev pub half_even : ℕ → ℕ → ℕ
half_even n d = round_at_twice (n / d) (n % d * 2) d

pub mul-div_cancel : (a b : ℕ) → 0 < b → a * b / b ≡ a
mul-div_cancel a b h = grind arith

pub div-mul-le : (n d : ℕ) → n / d * d ≤ n
div-mul-le n d = omega (arith, div-add-mod n d, mul_comm d (n / d))

-- Dividing a wrapped product by one factor gives back the other exactly if nothing wrapped.
pub wrapped_product_fits :
    (a b m : ℕ) → 0 < b → a * b < m → (a * b % m ≡ a * b) × (a * b % m / b ≡ a)
wrapped_product_fits a b m h lt = let e = mod-eq_of_lt lt in (e, rw e (mul-div_cancel a b h))

pub wrapped_product_overflows : (a b m : ℕ) → 0 < m → m ≤ a * b → a * b % m / b ≢ a
wrapped_product_overflows a b m h le e =
    omega (arith, div-mul-le (a * b % m) b, ap (λ (t : ℕ). t * b) e, mod-lt (a * b) h)

rounds_up :
    (q r d : ℕ) → r < d → d ≤ r * 2 → (r * 2 ≡ d → q % 2 ≡ 1) → HalfEven (q * d + r) d (q + 1)
rounds_up q r d h up odd = record {
  above = grind arith;
  below = grind arith;
  tie_up = λ e. absurd (grind arith);
  tie_down = λ e. omega (arith, odd (grind arith));
}

rounds_down : (q r d : ℕ) → r < d → r * 2 ≤ d → (r * 2 ≡ d → q % 2 ≡ 0) → HalfEven (q * d + r) d q
rounds_down q r d h down even = record {
  above = grind arith;
  below = grind arith;
  tie_up = λ e. even (grind arith);
  tie_down = λ e. absurd (grind arith);
}

-- Over the quotient and the remainder.
half_even_parts : (q r d : ℕ) → r < d → HalfEven (q * d + r) d (round_at_twice q (r * 2) d)
half_even_parts q r d h = elim (Bool-cases (ltb d (r * 2))) [
  | inl up ↦ rw up (rounds_up q r d h (ground arith) (λ e. absurd (ground arith)))
  | inr down ↦ rw down (elim (Bool-cases (r * 2 == d)) [
    | inl tie ↦ rw tie (elim (Bool-cases (q % 2 == 0)) [
      | inl even ↦ rw even (rounds_down q r d h (ground arith) (λ _. ground arith))
      | inr odd ↦ rw odd (rounds_up q r d h (ground arith) (λ _. ground arith))
    ])
    | inr off ↦ rw off (rounds_down q r d h (ground arith) (λ e. absurd (ground arith)))
  ])
]

pub half_even-HalfEven : (n d : ℕ) → 0 < d → HalfEven n d (half_even n d)
half_even-HalfEven n d h =
    subst (λ t. HalfEven t d (half_even n d)) (omega (arith, div-add-mod n d))
      (half_even_parts (n / d) (n % d) d (mod-lt n h))
