-- ===== src/Validation/Texts.antt =====
-- The validators of single strings: `ValidateScalar`, `validateHostname`, `validateReasonCode`,
-- `validateFingerprint`, `validateSafeIdentifier`, `validateDisplayLabel`, `validateSafeToken` and
-- `validateHeaderName` of internal/model/validation.go, and `ParseRuleID` of internal/model/ids.go.
-- `none` is a nil error, and `some m` the error with the message `m`.
use route_doc.Common.{
  ℕ, ◌+◌, ◌-◌, ◌/◌, ◌%◌, Bool, true, false, not, ◌&&◌, ◌||◌, List, [], ◌∷◌, ◌++◌, Option, none,
  some, Text, codes, all, any, length, leb, ltb, ◌==◌, eq_number, eq_text, text_eq, starts_with,
  drop, if◌then◌else◌,
}
use route_doc.Utf8.{valid_string}
use route_doc.Validation.Runes.{runes}

-- What the validators use of the packages unicode, strings and net/netip: the classes of
-- characters, `strings.TrimSpace`, `strings.ToLower`, and the text form of the address that
-- `netip.ParseAddr` reads.
pub record TextLibrary : Type 0 where
  pub is_letter : ℕ → Bool
  pub is_digit : ℕ → Bool
  pub trim_space : Text → Text
  pub to_lower : Text → Text
  pub reparse_addr : Text → Option Text

abbrev between : ℕ → ℕ → ℕ → Bool
between lo hi r = leb lo r && leb r hi

abbrev is_empty : Text → Bool
is_empty [] = true
is_empty (b ∷ s) = false

abbrev is_one_of : Text → ℕ → Bool
is_one_of chars r = any (λ c. c == r) chars

-- `unicode.IsControl`
unfoldable pub is_control : ℕ → Bool
is_control r = leb r 0x1f || between 0x7f 0x9f r

abbrev upper_hex_digit : ℕ → ℕ
upper_hex_digit d = if ltb d 10 then b'0' + d else b'A' + (d - 10)

-- `fmt.Errorf("control character %U", r)`, for a control character, which has two digits
unfoldable pub control_message : ℕ → Text
control_message r =
    codes "control character U+00" ++ upper_hex_digit (r / 16) ∷ upper_hex_digit (r % 16) ∷ []

first_control : List ℕ → Option Text
unfolding is_control control_message
first_control [] = none
first_control (r ∷ rs) = if is_control r then some (control_message r) else first_control rs

unfoldable pub validate_scalar : Text → Option Text
unfolding first_control
validate_scalar s =
    if not (valid_string s) then some (codes "invalid UTF-8") else first_control (runes s)

abbrev lower_or_digit : ℕ → Bool
lower_or_digit r = between b'a' b'z' r || between b'0' b'9' r

-- `some m` when not every character passes.
abbrev all_or : (ℕ → Bool) → Text → List ℕ → Option Text
all_or p m rs = if all p rs then none else some m

unfoldable pub reason_code_message : Text
reason_code_message = codes "reason code must be bounded lowercase snake case"

unfoldable pub validate_reason_code : Text → Option Text
unfolding reason_code_message
validate_reason_code [] = none
validate_reason_code (b ∷ s) =
    if ltb 64 (length (b ∷ s)) || (ltb b b'a' || ltb b'z' b)
    then some reason_code_message
    else all_or (λ r. lower_or_digit r || (r == b'_')) reason_code_message (runes s)

unfoldable pub fingerprint_message : Text
fingerprint_message = codes "fingerprint must be a SHA-256 hex fingerprint"

unfoldable pub validate_fingerprint : Text → Option Text
unfolding fingerprint_message
validate_fingerprint s =
    if not (length s == 71) || not (starts_with (codes "sha256:") s)
    then some fingerprint_message
    else all_or (λ r. between b'0' b'9' r || between b'a' b'f' r) fingerprint_message
        (runes (drop 7 s))

-- A test on the first character, and one on every later one.
abbrev all_after_first : (ℕ → Bool) → (ℕ → Bool) → List ℕ → Bool
all_after_first first later [] = true
all_after_first first later (r ∷ rs) = first r && all later rs

unfoldable pub validate_safe_identifier : Text → Option Text
validate_safe_identifier s =
    if is_empty s || ltb 128 (length s)
    then some (codes "identifier must be bounded")
    else if all_after_first lower_or_digit
        (λ r. lower_or_digit r || ((r == b'-') || ((r == b'_') || (r == b'.')))) (runes s)
    then none
    else some (codes "identifier has an invalid character")

unfoldable pub validate_header_name : Text → Option Text
validate_header_name s =
    if is_empty s || ltb 128 (length s)
    then some (codes "header name must be bounded")
    else all_or
        (λ r. lower_or_digit r || (between b'A' b'Z' r || is_one_of (codes "!#$%&'*+-.^_`|~") r))
        (codes "header name contains an unsafe character") (runes s)

module _ (lib : TextLibrary) where
  abbrev letter_or_digit : ℕ → Bool
  letter_or_digit r = lib.is_letter r || lib.is_digit r

  unfoldable pub validate_display_label : Text → Option Text
  validate_display_label s =
      if is_empty s || (ltb 128 (length s) || not (text_eq (lib.trim_space s) s))
      then some (codes "display label must be bounded and sanitized")
      else all_or (λ r. letter_or_digit r || is_one_of (codes " ._-()") r)
          (codes "display label contains an unsafe character") (runes s)

  unfoldable pub validate_safe_token : Text → ℕ → Option Text
  validate_safe_token s max =
      if is_empty s || ltb max (length s)
      then some (codes "token must be bounded")
      else if all_after_first letter_or_digit
          (λ r. letter_or_digit r || is_one_of (codes "_.:+/-") r) (runes s)
      then none
      else some (codes "token contains an unsafe character")

-- `strings.Split(s, ".")`
abbrev extend_first : ℕ → List Text → List Text
extend_first b [] = (b ∷ []) ∷ []
extend_first b (l ∷ ls) = (b ∷ l) ∷ ls

unfoldable pub split_dots : Text → List Text
split_dots [] = [] ∷ []
split_dots (b ∷ s) = let rest = split_dots s in if b == b'.' then [] ∷ rest else extend_first b rest

abbrev last_is : ℕ → Text → Bool
last_is c [] = false
last_is c (b ∷ []) = b == c
last_is c (b ∷ d ∷ s) = last_is c (d ∷ s)

-- The loop of `validateHostname` over the labels.
unfoldable pub label_issue : List Text → Option Text
label_issue [] = none
label_issue (l ∷ ls) =
    let rest = label_issue ls in
    if is_empty l || (ltb 63 (length l) || (starts_with (b'-' ∷ []) l || last_is b'-' l))
    then some (codes "hostname has an invalid label")
    else if all (λ r. lower_or_digit r || (r == b'-')) (runes l)
    then rest
    else some (codes "hostname has an invalid character")

unfoldable pub validate_hostname : TextLibrary → Text → Option Text
unfolding label_issue split_dots
validate_hostname lib s = elim (lib.reparse_addr s) [
  | some t ↦ if text_eq t s then none else some (codes "IP literal must be normalized")
  | none ↦
      if is_empty s || (ltb 253 (length s) || not (text_eq (lib.to_lower s) s))
      then some (codes "hostname must be a normalized lowercase hostname")
      else label_issue (split_dots s)
]

-- `strings.Split(s, "/v")`
unfoldable pub split_version : Text → List Text
split_version [] = [] ∷ []
split_version (b ∷ []) = (b ∷ []) ∷ []
split_version (b ∷ c ∷ s) =
    let next = split_version (c ∷ s) in
    let after = split_version s in
    if (b == b'/') && (c == b'v') then [] ∷ after else extend_first b next

abbrev is_version : Text → Bool
is_version [] = false
is_version (b ∷ s) = not (b == b'0') && all (λ r. between b'0' b'9' r) (runes (b ∷ s))

abbrev is_rule_parts : List Text → Bool
is_rule_parts (name ∷ version ∷ []) =
    not (is_empty name)
    && (is_version version && all (λ r. lower_or_digit r || is_one_of (codes "_.-") r) (runes name))
is_rule_parts _ = false

-- `RuleID.Valid`
unfoldable pub rule_id_valid : Text → Bool
unfolding split_version
rule_id_valid s = valid_string s && (not (is_empty s) && is_rule_parts (split_version s))
