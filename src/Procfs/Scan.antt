-- ===== src/Procfs/Scan.antt =====
-- The functions of Go's bytes, strings, strconv and encoding/hex that procfs.go calls.
use route_doc.Common.{
  ℕ, zero, suc, ◌+◌, ◌-◌, ◌*◌, ◌^◌, ◌&&◌, ◌||◌, List, [], ◌∷◌, ◌++◌, Option, none, some, Text, any,
  ltb, leb, ◌==◌, eq_number, eq_text, starts_with, if◌then◌else◌,
}

-- `bytes.Split(data, []byte{'\n'})`, with the bytes of the current line first
split_from : Text → Text → List Text
split_from line [] = line ∷ []
split_from line (c ∷ s) =
    let ended = split_from [] s in
    let longer = split_from (line ++ c ∷ []) s in if c == b'\n' then line ∷ ended else longer

unfoldable pub split_lines : Text → List Text
unfolding split_from
split_lines = split_from []

-- How many bytes a white space character (`unicode.IsSpace`) at the front has; 0 if there is none.
-- The multi-byte ones are U+0085, U+00A0, U+1680, U+2000 to U+200A, U+2028, U+2029, U+202F, U+205F
-- and U+3000.
unfoldable pub space_width : Text → ℕ
space_width [] = 0
space_width (c ∷ s) =
    if (leb 9 c && leb c 13) || (c == 0x20)
    then 1
    else if (c == 0xc2) && (starts_with (0x85 ∷ []) s || starts_with (0xa0 ∷ []) s)
    then 2
    else if (c == 0xe1) && starts_with (0x9a ∷ 0x80 ∷ []) s
    then 3
    else if (c == 0xe2)
        && (any (λ d. starts_with (0x80 ∷ d ∷ []) s)
              (0x80 ∷ 0x81 ∷ 0x82 ∷ 0x83 ∷ 0x84 ∷ 0x85 ∷ 0x86 ∷ 0x87 ∷ 0x88 ∷ 0x89 ∷ 0x8a ∷ 0xa8
                ∷ 0xa9 ∷ 0xaf ∷ [])
            || starts_with (0x81 ∷ 0x9f ∷ []) s)
    then 3
    else if (c == 0xe3) && starts_with (0x80 ∷ 0x80 ∷ []) s
    then 3
    else 0

-- `strings.Fields`: `skip` bytes of a white space character are left, and `field` is the current
-- field.
fields_from : ℕ → Text → Text → List Text
fields_from skip field [] = if field == [] then [] else field ∷ []
fields_from (suc skip) field (c ∷ s) = fields_from skip field s
fields_from zero field (c ∷ s) =
    let width = space_width (c ∷ s) in
    let longer = fields_from 0 (field ++ c ∷ []) s in
    let ended = fields_from (width - 1) [] s in
    if width == 0 then longer else if field == [] then ended else field ∷ ended

unfoldable pub fields : Text → List Text
unfolding fields_from
fields = fields_from 0 []

-- `strings.HasSuffix(s, ":")` and `strings.TrimSuffix(s, ":")`: the text before a final colon
unfoldable pub before_colon : Text → Option Text
before_colon [] = none
before_colon (c ∷ []) = if c == b':' then some [] else none
before_colon (c ∷ d ∷ s) = elim (before_colon (d ∷ s)) [ none ↦ none | some t ↦ some (c ∷ t) ]

-- The parts before and after the last colon, by `strings.LastIndexByte`
unfoldable pub cut_last_colon : Text → Option (Text × Text)
cut_last_colon [] = none
cut_last_colon (c ∷ s) = elim (cut_last_colon s) [
  | some (a, b) ↦ some (c ∷ a, b)
  | none ↦ if c == b':' then some ([], s) else none
]

-- The value of a hexadecimal digit
unfoldable pub hex_digit : ℕ → Option ℕ
hex_digit c =
    if leb b'0' c && leb c b'9'
    then some (c - b'0')
    else if leb b'a' c && leb c b'f'
    then some (c - b'a' + 10)
    else if leb b'A' c && leb c b'F'
    then some (c - b'A' + 10)
    else none

-- The number that hexadecimal digits spell after `n`
unfoldable pub hex_value : ℕ → Text → Option ℕ
hex_value n [] = some n
hex_value n (c ∷ s) = elim (hex_digit c) [ none ↦ none | some d ↦ hex_value (n * 16 + d) s ]

-- `strconv.ParseUint(s, 16, 64)`, which rejects the empty string too
unfoldable pub parse_hex : Text → Option ℕ
parse_hex [] = none
parse_hex (c ∷ s) = elim (hex_value 0 (c ∷ s)) [
  | none ↦ none
  | some n ↦ if ltb n (2 ^ 64) then some n else none
]

-- `hex.Decode`; the text has an even length where it is called.
unfoldable pub hex_decode : Text → Option (List ℕ)
hex_decode [] = some []
hex_decode (c ∷ []) = none
hex_decode (c ∷ d ∷ s) = elim (hex_digit c) [
  | none ↦ none
  | some h ↦ elim (hex_digit d) [
    | none ↦ none
    | some l ↦ elim (hex_decode s) [ none ↦ none | some rest ↦ some ((h * 16 + l) ∷ rest) ]
  ]
]
