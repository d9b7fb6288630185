-- ===== src/Ids.antt =====
-- internal/model/ids.go: which strings are identifiers, and how generated ones are compared; and
-- internal/rules/ids.go, which makes them.
pub mod Generated
pub mod Kinds
use Prim.Native.Nat.{compare, Ordering}
use route_doc.Common.{
  ℕ, zero, suc, ◌+◌, ◌-◌, ◌*◌, ◌^◌, Bool, true, false, not, ◌&&◌, ◌||◌, List, [], ◌∷◌, ◌++◌, Option,
  none, some, Text, codes, all, any, length, ltb, leb, ◌==◌, eq_number, text_lt, text_eq,
  if◌then◌else◌, replicate, drop, starts_with,
}
use route_doc.Decimal.{itoa}
use route_doc.Decimal.Value.{value}
use route_doc.Utf8.{valid_string}

pub data IdError : Type 0 where
  invalid_id invalid_character not_padded not_numeric not_positive leading_zero : IdError

unfoldable pub is_digit : ℕ → Bool
is_digit c = leb b'0' c && leb c b'9'

-- `r < 0x21 || r > 0x7e || strings.ContainsRune("\"'\\/", r)`. A byte of a longer UTF-8 sequence
-- is above 0x7e, and so is the character that it belongs to.
unfoldable pub is_bad_rune : ℕ → Bool
is_bad_rune r = ltb r 0x21 || (ltb 0x7e r || any (λ c. c == r) (codes "\"'\\/"))

-- `strconv.ParseUint(s, 10, 64)`, without the kind of its error
unfoldable pub parse_uint : Text → Option ℕ
unfolding is_digit
parse_uint [] = none
parse_uint (c ∷ s) =
    if all is_digit (c ∷ s) && ltb (value 0 (c ∷ s)) (2 ^ 64) then some (value 0 (c ∷ s)) else none

abbrev is_zero_or_error : Option ℕ → Bool
is_zero_or_error none = true
is_zero_or_error (some n) = n == 0

starts_with_zero : Text → Bool
starts_with_zero [] = false
starts_with_zero (c ∷ s) = c == b'0'

-- `validID`; `none` is its nil error.
unfoldable pub valid_id : Text → Text → Bool → Option IdError
unfolding is_digit is_bad_rune parse_uint starts_with_zero
valid_id s prefix generated =
    if not (valid_string s) || (not (starts_with prefix s) || length s == length prefix)
    then some IdError.invalid_id
    else let rest = drop (length prefix) s in
      if any is_bad_rune rest
      then some IdError.invalid_character
      else if generated
      then (if ltb (length rest) 6
          then some IdError.not_padded
          else if not (all is_digit rest)
          then some IdError.not_numeric
          else if is_zero_or_error (parse_uint rest)
          then some IdError.not_positive
          else none)
      else if all is_digit rest
          && (ltb 1 (length rest) && (starts_with_zero rest && ltb (length rest) 6))
      then some IdError.leading_zero
      else none

-- `generatedNumber`; `none` is a non-nil error.
unfoldable pub generated_number : Text → Text → Option ℕ
generated_number s prefix = elim (valid_id s prefix true) [
  | some e ↦ none
  | none ↦ parse_uint (drop (length prefix) s)
]

-- `strings.Compare`
unfoldable pub text_compare : Text → Text → Ordering
text_compare a b =
    if text_eq a b then Ordering.eq else if text_lt a b then Ordering.lt else Ordering.gt

abbrev compare_numbers : Text → Text → Option ℕ → Option ℕ → Ordering
compare_numbers a b (some m) (some n) = compare m n
compare_numbers a b _ _ = text_compare a b

-- `compareUintIDs`; -1, 0 and 1 are `lt`, `eq` and `gt`.
unfoldable pub compare_uint_ids : Text → Text → Text → Ordering
compare_uint_ids a b prefix =
    compare_numbers a b (generated_number a prefix) (generated_number b prefix)

abbrev pub claim_prefix : Text
claim_prefix = codes "claim-"

abbrev pub finding_prefix : Text
finding_prefix = codes "finding-"

unfoldable pub compare_claim_id : Text → Text → Ordering
compare_claim_id a b = compare_uint_ids a b claim_prefix

unfoldable pub compare_finding_id : Text → Text → Ordering
compare_finding_id a b = compare_uint_ids a b finding_prefix

-- `fmt.Sprintf("%06d", n)` for n ≥ 0
unfoldable pub padded : ℕ → Text
padded n = replicate (6 - length (itoa n)) b'0' ++ itoa n

-- `claimID` and `findingID` of internal/rules/ids.go
unfoldable pub claim_id : ℕ → Text
unfolding padded
claim_id n = claim_prefix ++ padded n

unfoldable pub finding_id : ℕ → Text
unfolding padded
finding_id n = finding_prefix ++ padded n
