-- ===== src/Application/Publisher/Texts.antt =====
-- src/application/outbox_publisher.cpp: the texts that a failed attempt stores.
use personal_finance_hub.Prelude.{
  ℕ, zero, suc, ◌≤◌, ◌<◌, inl, inr, ◌&&◌, [], ◌∷◌, length, Bytes, bytes, All, arith, Bool-cases,
  leb, if◌then◌else◌,
}

-- The printable bytes of a text from `low` on, at most `left` of them.
unfoldable pub printable : ℕ → ℕ → Bytes → Bytes
printable low left [] = []
printable low zero (c ∷ cs) = []
printable low (suc left) (c ∷ cs) =
    if leb low c && leb c 126 then c ∷ printable low left cs else printable low (suc left) cs

unfoldable pub non_empty_or : Bytes → Bytes → Bytes
non_empty_or default [] = default
non_empty_or default (c ∷ cs) = c ∷ cs

unfoldable pub safe_error_summary : Bytes → Bytes
safe_error_summary summary =
    non_empty_or (bytes "event handling failed") (printable 32 1024 summary)

unfoldable pub safe_handler_name : Bytes → Bytes
safe_handler_name name = non_empty_or (bytes "IEventBus") (printable 33 128 name)

-- A text that `mark_failed` accepts: not empty, not too long, and printable from `low` on.
pub record IsSafe (low limit : ℕ) (text : Bytes) : Type 0 where
  pub non_empty : 0 < length text
  pub short : length text ≤ limit
  pub clean : All (λ c. (low ≤ c) × (c ≤ 126)) text

printable-short : (low left : ℕ) (text : Bytes) → length (printable low left text) ≤ left
unfolding printable
printable-short low left [] = omega arith
printable-short low zero (c ∷ cs) = omega arith
printable-short low (suc left) (c ∷ cs) = elim (Bool-cases (leb low c && leb c 126)) [
  | inl ok ↦ rw ok (omega (arith, printable-short low left cs))
  | inr bad ↦ rw bad (printable-short low (suc left) cs)
]

printable-clean :
    (low left : ℕ) (text : Bytes) → All (λ c. (low ≤ c) × (c ≤ 126)) (printable low left text)
unfolding printable
printable-clean low left [] = tt
printable-clean low zero (c ∷ cs) = tt
printable-clean low (suc left) (c ∷ cs) = elim (Bool-cases (leb low c && leb c 126)) [
  | inl ok ↦ rw ok (ground (arith, ok), printable-clean low left cs)
  | inr bad ↦ rw bad (printable-clean low (suc left) cs)
]

non_empty_or-IsSafe :
    (low limit : ℕ) (default text : Bytes)
    → IsSafe low limit default
    → length text ≤ limit
    → All (λ c. (low ≤ c) × (c ≤ 126)) text
    → IsSafe low limit (non_empty_or default text)
unfolding non_empty_or
non_empty_or-IsSafe low limit default [] safe short clean = safe
non_empty_or-IsSafe low limit default (c ∷ cs) safe short clean = record {
  non_empty = omega arith;
  short = short;
  clean = clean;
}

-- Whatever the event bus reports, the stored summary and handler name are not empty, printable
-- ASCII (the name without blanks), and within 1024 and 128 bytes.
pub safe_error_summary-IsSafe :
    (summary name : Bytes)
    → IsSafe 32 1024 (safe_error_summary summary) × IsSafe 33 128 (safe_handler_name name)
unfolding safe_error_summary safe_handler_name
safe_error_summary-IsSafe summary name = (
  non_empty_or-IsSafe 32 1024 (bytes "event handling failed") (printable 32 1024 summary)
      (record { non_empty = omega arith; short = omega arith; clean = ground arith })
      (printable-short 32 1024 summary) (printable-clean 32 1024 summary),
  non_empty_or-IsSafe 33 128 (bytes "IEventBus") (printable 33 128 name)
      (record { non_empty = omega arith; short = omega arith; clean = ground arith })
      (printable-short 33 128 name) (printable-clean 33 128 name),
)
