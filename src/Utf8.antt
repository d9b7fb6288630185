-- ===== src/Utf8.antt =====
-- `utf8.ValidString` of Go's standard library, as a machine over the bytes.
use route_doc.Common.{
  ℕ, zero, suc, Bool, true, false, ◌&&◌, [], ◌∷◌, Text, leb, ltb, ◌==◌, eq_number, if◌then◌else◌,
  All, ◌<◌, ◌≡◌, refl, arith,
}

-- Between characters, or with so many bytes of a character to come, the next of which lies between
-- two bounds; `bad` after a byte that fits nowhere.
pub data Utf8State : Type 0 where
  start : Utf8State
  inside : (lo hi more : ℕ) → Utf8State
  bad : Utf8State

-- The first byte of a character says how many follow, and bounds the second byte.
lead : ℕ → Utf8State
lead b =
    if ltb b 0x80
    then start
    else if ltb b 0xc2
    then bad
    else if ltb b 0xe0
    then inside 0x80 0xbf 0
    else if b == 0xe0
    then inside 0xa0 0xbf 1
    else if b == 0xed
    then inside 0x80 0x9f 1
    else if ltb b 0xf0
    then inside 0x80 0xbf 1
    else if b == 0xf0
    then inside 0x90 0xbf 2
    else if ltb b 0xf4
    then inside 0x80 0xbf 2
    else if b == 0xf4
    then inside 0x80 0x8f 2
    else bad

unfoldable pub utf8_step : Utf8State → ℕ → Utf8State
unfolding lead
utf8_step start b = lead b
utf8_step bad b = bad
utf8_step (inside lo hi zero) b = if leb lo b && leb b hi then start else bad
utf8_step (inside lo hi (suc more)) b = if leb lo b && leb b hi then inside 0x80 0xbf more else bad

abbrev is_start : Utf8State → Bool
is_start start = true
is_start _ = false

unfoldable pub utf8_from : Utf8State → Text → Bool
unfolding utf8_step
utf8_from st [] = is_start st
utf8_from st (b ∷ s) = utf8_from (utf8_step st b) s

unfoldable pub valid_string : Text → Bool
valid_string s = utf8_from start s

-- ASCII text is valid.
pub valid_string-ascii : (s : Text) → All (λ b. b < 0x80) s → valid_string s ≡ true
unfolding valid_string utf8_from
valid_string-ascii [] h = refl
valid_string-ascii (b ∷ s) (lt, h) = ground (arith, valid_string-ascii s h)
