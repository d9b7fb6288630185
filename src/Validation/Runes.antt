-- ===== src/Validation/Runes.antt =====
-- `for _, r := range s` of Go: the characters of a string, and U+FFFD for a byte at which no
-- valid UTF-8 sequence starts.
use route_doc.Common.{
  ℕ, zero, suc, ◌+◌, ◌-◌, ◌*◌, ◌≡◌, refl, Bool, ◌&&◌, List, [], ◌∷◌, Text, leb, ltb, ◌==◌,
  eq_number, if◌then◌else◌, All, ◌<◌, arith,
}

-- A character and the number of bytes after its first one.
abbrev pub Rune : Type 0
Rune = ℕ × ℕ

abbrev pub replacement : Rune
replacement = (0xfffd, 0)

-- Whether a byte continues a sequence, and the six bits that it adds.
abbrev is_tail : ℕ → Bool
is_tail b = leb 0x80 b && leb b 0xbf

abbrev shift : ℕ → ℕ → ℕ
shift high b = 64 * high + (b - 0x80)

-- `utf8.DecodeRuneInString`, on a first byte and the bytes after it
unfoldable pub decode_two : ℕ → Text → Rune
decode_two b [] = replacement
decode_two b (c ∷ s) = if is_tail c then (shift (b - 0xc0) c, 1) else replacement

unfoldable pub decode_three : ℕ → ℕ → ℕ → Text → Rune
decode_three lo hi b [] = replacement
decode_three lo hi b (c ∷ []) = replacement
decode_three lo hi b (c ∷ d ∷ s) =
    if leb lo c && (leb c hi && is_tail d) then (shift (shift (b - 0xe0) c) d, 2) else replacement

unfoldable pub decode_four : ℕ → ℕ → ℕ → Text → Rune
decode_four lo hi b [] = replacement
decode_four lo hi b (c ∷ []) = replacement
decode_four lo hi b (c ∷ d ∷ []) = replacement
decode_four lo hi b (c ∷ d ∷ e ∷ s) =
    if leb lo c && (leb c hi && (is_tail d && is_tail e))
    then (shift (shift (shift (b - 0xf0) c) d) e, 3)
    else replacement

unfoldable pub decode_rune : ℕ → Text → Rune
unfolding decode_two decode_three decode_four
decode_rune b s =
    if ltb b 0x80
    then (b, 0)
    else if ltb b 0xc2
    then replacement
    else if ltb b 0xe0
    then decode_two b s
    else if b == 0xe0
    then decode_three 0xa0 0xbf b s
    else if b == 0xed
    then decode_three 0x80 0x9f b s
    else if ltb b 0xf0
    then decode_three 0x80 0xbf b s
    else if b == 0xf0
    then decode_four 0x90 0xbf b s
    else if ltb b 0xf4
    then decode_four 0x80 0xbf b s
    else if b == 0xf4
    then decode_four 0x80 0x8f b s
    else replacement

-- The characters of a string, after so many bytes that belong to the character before.
unfoldable pub runes_after : ℕ → Text → List ℕ
unfolding decode_rune
runes_after n [] = []
runes_after zero (b ∷ s) = let (r, more) = decode_rune b s in r ∷ runes_after more s
runes_after (suc n) (b ∷ s) = runes_after n s

unfoldable pub runes : Text → List ℕ
runes s = runes_after 0 s

-- The characters of an ASCII string are its bytes.
pub runes_ascii : (s : Text) → All (λ b. b < 0x80) s → runes s ≡ s
unfolding runes runes_after decode_rune
runes_ascii [] h = refl
runes_ascii (b ∷ s) (lt, h) = ground (arith, runes_ascii s h)
