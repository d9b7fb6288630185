-- ===== src/Ids/Generated.antt =====
-- The identifiers that `claimID` and `findingID` make are valid, and are compared by their numbers.
use Prim.Native.Nat.{compare}
use route_doc.Common.{
  ℕ, zero, suc, ◌-◌, ◌^◌, ◌≤◌, ◌<◌, ◌≡◌, ◌≢◌, refl, true, false, [], ◌∷◌, ◌++◌, none, some, arith,
  Text, all, any, All, All-append, length, length-append, length-replicate, ◌∙◌, ap, replicate,
  drop-append, starts_with-append, lt→ltb, eq_number,
}
use route_doc.Utf8.{valid_string-ascii}
use route_doc.Decimal.{itoa}
use route_doc.Decimal.Value.{IsDigit, value, value-itoa}
use route_doc.Ids.{
  is_digit, is_bad_rune, parse_uint, valid_id, generated_number, compare_uint_ids, padded,
  finding_id, claim_id, compare_finding_id, compare_claim_id, finding_prefix, claim_prefix,
}

all-is_digit : (s : Text) → All IsDigit s → all is_digit s ≡ true
unfolding all is_digit
all-is_digit [] h = refl
all-is_digit (c ∷ s) (d, h) = ground (arith, all-is_digit s h)

no_bad_rune : (s : Text) → All IsDigit s → any is_bad_rune s ≡ false
unfolding any is_bad_rune
no_bad_rune [] h = refl
no_bad_rune (c ∷ s) (d, h) = ground (arith, no_bad_rune s h)

digits-ascii : (s : Text) → All IsDigit s → All (λ b. b < 0x80) s
digits-ascii [] h = tt
digits-ascii (c ∷ s) (d, h) = (omega arith, digits-ascii s h)

zeros-IsDigit : (k : ℕ) → All IsDigit (replicate k b'0')
zeros-IsDigit zero = tt
zeros-IsDigit (suc k) = ((omega arith, omega arith), zeros-IsDigit k)

value-zeros : (k : ℕ) (s : Text) → value 0 (replicate k b'0' ++ s) ≡ value 0 s
unfolding value
value-zeros zero s = refl
value-zeros (suc k) s = value-zeros k s

parse_uint-digits :
    (s : Text) → s ≢ [] → All IsDigit s → value 0 s < 2 ^ 64 → parse_uint s ≡ some (value 0 s)
unfolding parse_uint
parse_uint-digits [] n d h = absurd (n refl)
parse_uint-digits (c ∷ s) n d h =
    ground (arith, all-is_digit (c ∷ s) d, lt→ltb (value 0 (c ∷ s)) (2 ^ 64) h)

padded-IsDigit : (n : ℕ) → All IsDigit (padded n)
unfolding padded
padded-IsDigit n =
    All-append IsDigit (replicate (6 - length (itoa n)) b'0') (itoa n) (zeros-IsDigit _)
      (value-itoa n).0

value-padded : (n : ℕ) → value 0 (padded n) ≡ n
unfolding padded
value-padded n = value-zeros (6 - length (itoa n)) (itoa n) ∙ (value-itoa n).1

length-padded : (n : ℕ) → 6 ≤ length (padded n)
unfolding padded
length-padded n = omega (
  arith,
  length-append (replicate (6 - length (itoa n)) b'0') (itoa n),
  length-replicate {A = ℕ} (6 - length (itoa n)) b'0',
)

parse_uint-padded : (n : ℕ) → n < 2 ^ 64 → parse_uint (padded n) ≡ some n
parse_uint-padded n h =
    let long = length-padded n in
    let full : padded n ≢ [] = λ e. ground (arith, ap (length {A = ℕ}) e) in
    parse_uint-digits (padded n) full (padded-IsDigit n) (rw value-padded h)
    ∙ ap some (value-padded n)

module _ (prefix : Text) (ascii : All (λ b. b < 0x80) prefix) where
  valid_id-padded : (n : ℕ) → 0 < n → n < 2 ^ 64 → valid_id (prefix ++ padded n) prefix true ≡ none
  unfolding valid_id
  valid_id-padded n pos fits =
      let v = valid_string-ascii (prefix ++ padded n) (
        All-append (λ b. b < 0x80) prefix (padded n) ascii
          (digits-ascii (padded n) (padded-IsDigit n))) in
      rw (v, starts_with-append, drop-append, no_bad_rune (padded n) (padded-IsDigit n))
        (ground (
          arith,
          length-append prefix (padded n),
          length-padded n,
          all-is_digit (padded n) (padded-IsDigit n),
          parse_uint-padded n fits,
        ))

  generated_number-padded :
      (n : ℕ) → 0 < n → n < 2 ^ 64 → generated_number (prefix ++ padded n) prefix ≡ some n
  unfolding generated_number
  generated_number-padded n pos fits =
      rw (valid_id-padded n pos fits, generated_number, drop-append) (parse_uint-padded n fits)

  compare-padded :
      (m n : ℕ)
      → 0 < m
      → m < 2 ^ 64
      → 0 < n
      → n < 2 ^ 64
      → compare_uint_ids (prefix ++ padded m) (prefix ++ padded n) prefix ≡ compare m n
  unfolding compare_uint_ids
  compare-padded m n pm fm pn fn =
      rw (generated_number-padded m pm fm, generated_number-padded n pn fn)

-- For a positive number below 2 ^ 64, `claimID` makes a valid claim identifier and `findingID` a
-- valid finding identifier, and the number is read back from both.
pub generated_ids-valid :
    (n : ℕ)
    → 0 < n
    → n < 2 ^ 64
    → (valid_id (claim_id n) claim_prefix true ≡ none)
      × (generated_number (claim_id n) claim_prefix ≡ some n)
      × (valid_id (finding_id n) finding_prefix true ≡ none)
      × (generated_number (finding_id n) finding_prefix ≡ some n)
unfolding claim_id finding_id
generated_ids-valid n pos fits = (
  valid_id-padded claim_prefix (omega arith) n pos fits,
  generated_number-padded claim_prefix (omega arith) n pos fits,
  valid_id-padded finding_prefix (omega arith) n pos fits,
  generated_number-padded finding_prefix (omega arith) n pos fits,
)

-- Two generated identifiers with positive numbers below 2 ^ 64 are compared as their numbers are,
-- also where padding ends and the order of the texts is another.
pub compare-generated_ids :
    (m n : ℕ)
    → 0 < m
    → m < 2 ^ 64
    → 0 < n
    → n < 2 ^ 64
    → (compare_claim_id (claim_id m) (claim_id n) ≡ compare m n)
      × (compare_finding_id (finding_id m) (finding_id n) ≡ compare m n)
unfolding claim_id finding_id compare_claim_id compare_finding_id
compare-generated_ids m n pm fm pn fn = (
  compare-padded claim_prefix (omega arith) m n pm fm pn fn,
  compare-padded finding_prefix (omega arith) m n pm fm pn fn,
)
