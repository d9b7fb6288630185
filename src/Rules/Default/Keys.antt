-- ===== src/Rules/Default/Keys.antt =====
-- Keys of candidates that are made of identifiers: `validID` of internal/model/ids.go against
-- `validCandidateKey` of internal/rules/candidate.go.
use route_doc.Common.{
  ℕ, ◌≡◌, ◌<◌, refl, true, false, Bool, not, ◌&&◌, ◌||◌, [], ◌∷◌, ◌++◌, none, Text, codes, all, any,
  leb, starts_with, drop, length, arith, All, Bool-cases, inl, inr, ◌==◌, ==_iff, eq_number,
  eq_text,
}
use route_doc.Ids.{valid_id, is_bad_rune}
use route_doc.Utf8.{valid_string, valid_string-ascii}
use route_doc.Rules.Templates.{valid_candidate_key}

-- A byte that a key may have.
unfoldable pub key_byte : ℕ → Bool
key_byte c = not (any (λ d. d == c) (codes "/\\\r\n\t")) && (leb b'!' c && leb c b'~')

key_byte-rune : (c : ℕ) → is_bad_rune c ≡ false → key_byte c ≡ true
unfolding is_bad_rune key_byte any
key_byte-rune c h = ground arith

all_key_bytes-Ascii : (s : Text) → all key_byte s ≡ true → All (λ b. b < 0x80) s
unfolding all key_byte
all_key_bytes-Ascii [] h = tt
all_key_bytes-Ascii (c ∷ s) h = (ground arith, all_key_bytes-Ascii s (ground arith))

no_separator :
    (s : Text) → all key_byte s ≡ true → any (λ c. any (λ d. d == c) (codes "/\\\r\n\t")) s ≡ false
unfolding all any key_byte
no_separator [] h = refl
no_separator (c ∷ s) h = let rest = no_separator s (ground arith) in ground arith

all_printable : (s : Text) → all key_byte s ≡ true → all (λ c. leb b'!' c && leb c b'~') s ≡ true
unfolding all key_byte
all_printable [] h = refl
all_printable (c ∷ s) h = let rest = all_printable s (ground arith) in ground arith

all-append :
    (s t : Text) → all key_byte s ≡ true → all key_byte t ≡ true → all key_byte (s ++ t) ≡ true
unfolding all
all-append [] t h k = k
all-append (c ∷ s) t h k = let rest = all-append s t (ground arith) k in ground arith

-- A text that starts with bytes of keys and goes on without a bad rune.
all_after_prefix :
    (p s : Text)
    → starts_with p s ≡ true
    → all key_byte p ≡ true
    → any is_bad_rune (drop (length p) s) ≡ false
    → all key_byte s ≡ true
unfolding starts_with all any
all_after_prefix [] [] h k e = refl
all_after_prefix [] (c ∷ s) h k e =
    let here = key_byte-rune c (ground arith) in
    let rest = all_after_prefix [] s refl refl (ground arith) in ground arith
all_after_prefix (a ∷ p) [] h k e = cc
all_after_prefix (a ∷ p) (c ∷ s) h k e =
    let same : a ≡ c = ground arith in
    let rest = all_after_prefix p s (ground arith) (ground arith) e in
    let here : key_byte c ≡ true = ground (arith, same) in ground arith

-- A valid identifier has bytes of keys.
pub all_id_bytes :
    (id prefix : Text)
    → valid_id id prefix false ≡ none
    → all key_byte prefix ≡ true
    → all key_byte id ≡ true
unfolding valid_id
all_id_bytes id prefix h k =
    elim (Bool-cases
      (not (valid_string id) || (not (starts_with prefix id) || length id == length prefix))) [
        | inl e ↦ absurd (let x = rw (e, valid_id) at h in cc)
        | inr e ↦ elim (Bool-cases (any is_bad_rune (drop (length prefix) id))) [
          | inl b ↦ absurd (let x = rw (e, b, valid_id) at h in cc)
          | inr b ↦ all_after_prefix prefix id (ground arith) k b
        ]
      ]

-- A key of a prefix and an identifier is valid.
pub key-valid :
    (c : ℕ) (prefix id : Text)
    → all key_byte (c ∷ prefix) ≡ true
    → all key_byte id ≡ true
    → valid_candidate_key ((c ∷ prefix) ++ id) ≡ true
unfolding valid_candidate_key
key-valid c prefix id h k =
    let s = (c ∷ prefix) ++ id in
    let bytes = all-append (c ∷ prefix) id h k in
    let some_byte : (s == []) ≡ false = ground (arith, (==_iff s []).0) in
    let valid = valid_string-ascii s (all_key_bytes-Ascii s bytes) in
    let plain = no_separator s bytes in
    let printable = all_printable s bytes in
    rw (some_byte, valid, plain, printable, valid_candidate_key) refl
