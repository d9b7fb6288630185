-- ===== src/Procfs/Words.antt =====
-- `decodeProcAddress` of internal/localdiagnosis/procfs.go reads what the kernel prints.
use route_doc.Common.{
  ℕ, suc, ◌+◌, ◌-◌, ◌*◌, ◌/◌, ◌%◌, ◌<◌, ◌≡◌, refl, List, [], ◌∷◌, some, Text, All, arith, length,
  zero, inl, inr, Bool-cases, ◌==◌, ltb, eq_number, if◌then◌else◌, ap, ==_iff,
}
use route_doc.Model.Enums.{AddressFamily, eq_address_family}
use route_doc.Procfs.Scan.{hex_digit, hex_decode}
use route_doc.Procfs.Endpoint.{reverse_words, address_of, address_width, decode_proc_address}

abbrev IsByte : ℕ → Type 0
IsByte b = b < 256

-- The hexadecimal digit of a number below 16, in upper case as in `%X`
abbrev pub digit_of : ℕ → ℕ
digit_of n = if ltb n 10 then b'0' + n else b'A' + (n - 10)

abbrev pub print_bytes : List ℕ → Text
print_bytes [] = []
print_bytes (b ∷ bs) = digit_of (b / 16) ∷ digit_of (b % 16) ∷ print_bytes bs

hex_digit-digit_of : (n : ℕ) → n < 16 → hex_digit (digit_of n) ≡ some n
unfolding hex_digit
hex_digit-digit_of n h = ground arith

hex_decode-print_bytes : (bs : List ℕ) → All IsByte bs → hex_decode (print_bytes bs) ≡ some bs
unfolding hex_decode
hex_decode-print_bytes [] h = refl
hex_decode-print_bytes (b ∷ bs) (p, h) =
    let high : b / 16 < 16 = omega arith in
    let low : b % 16 < 16 = omega arith in
    let whole : b / 16 * 16 + b % 16 ≡ b = omega arith in
    rw
      (
        hex_decode,
        hex_digit-digit_of (b / 16) high,
        hex_digit-digit_of (b % 16) low,
        hex_decode-print_bytes bs h,
      )
      (ap (λ x. some (x ∷ bs)) whole)

length-print_bytes : (bs : List ℕ) → length (print_bytes bs) ≡ 2 * length bs
length-print_bytes [] = refl
length-print_bytes (b ∷ bs) = omega (arith, length-print_bytes bs)

-- Reversing the words twice changes nothing.
reverse_words-reverse_words : (bs : List ℕ) → reverse_words (reverse_words bs) ≡ bs
unfolding reverse_words
reverse_words-reverse_words [] = refl
reverse_words-reverse_words (a ∷ []) = refl
reverse_words-reverse_words (a ∷ b ∷ []) = refl
reverse_words-reverse_words (a ∷ b ∷ c ∷ []) = refl
reverse_words-reverse_words (a ∷ b ∷ c ∷ d ∷ bs) =
    ap (λ x. a ∷ b ∷ c ∷ d ∷ x) (reverse_words-reverse_words bs)

length-reverse_words : (bs : List ℕ) → length (reverse_words bs) ≡ length bs
unfolding reverse_words
length-reverse_words [] = refl
length-reverse_words (a ∷ []) = refl
length-reverse_words (a ∷ b ∷ []) = refl
length-reverse_words (a ∷ b ∷ c ∷ []) = refl
length-reverse_words (a ∷ b ∷ c ∷ d ∷ bs) =
    ap (λ n. suc (suc (suc (suc n)))) (length-reverse_words bs)

All-reverse_words : (bs : List ℕ) → All IsByte bs → All IsByte (reverse_words bs)
unfolding reverse_words
All-reverse_words [] h = h
All-reverse_words (a ∷ []) h = h
All-reverse_words (a ∷ b ∷ []) h = h
All-reverse_words (a ∷ b ∷ c ∷ []) h = h
All-reverse_words (a ∷ b ∷ c ∷ d ∷ bs) (ha, (hb, (hc, (hd, h)))) =
    (hd, (hc, (hb, (ha, All-reverse_words bs h))))

-- Decoding the bytes of an address printed in the order that `reverse_words` gives them.
decode_reversed :
    (family : AddressFamily) (bs : List ℕ)
    → 2 * length bs ≡ address_width family
    → All IsByte bs
    → decode_proc_address (print_bytes (reverse_words bs)) family ≡ some (address_of family bs)
unfolding decode_proc_address
decode_reversed family bs w h =
    let n = length-print_bytes (reverse_words bs) in
    let m = length-reverse_words bs in
    let full : length (print_bytes (reverse_words bs)) ≡ address_width family = omega arith in
    let wide = (==_iff (length (print_bytes (reverse_words bs))) (address_width family)).1 full in
    rw
      (
        wide,
        hex_decode-print_bytes (reverse_words bs) (All-reverse_words bs h),
        reverse_words-reverse_words bs,
      )
      refl

-- The kernel prints an address word by word, with `%08X`: each word of four bytes as one number, of
-- which the first byte in memory is the lowest, and of which the highest digit comes first.
abbrev pub word : ℕ → ℕ → ℕ → ℕ → ℕ
word a b c d = a + 256 * b + 65536 * c + 16777216 * d

abbrev pub print_words : List ℕ → Text
print_words (a ∷ b ∷ c ∷ d ∷ bs) =
    let n = word a b c d in
    digit_of (n / 268435456 % 16)
    ∷ digit_of (n / 16777216 % 16)
    ∷ digit_of (n / 1048576 % 16)
    ∷ digit_of (n / 65536 % 16)
    ∷ digit_of (n / 4096 % 16)
    ∷ digit_of (n / 256 % 16)
    ∷ digit_of (n / 16 % 16)
    ∷ digit_of (n % 16)
    ∷ print_words bs
print_words _ = []

-- The digits of the byte at a place of a word.
word_digits :
    (a b c d : ℕ)
    → IsByte a
    → IsByte b
    → IsByte c
    → IsByte d
    → (word a b c d / 268435456 % 16 ≡ d / 16)
      × (word a b c d / 16777216 % 16 ≡ d % 16)
      × (word a b c d / 1048576 % 16 ≡ c / 16)
      × (word a b c d / 65536 % 16 ≡ c % 16)
      × (word a b c d / 4096 % 16 ≡ b / 16)
      × (word a b c d / 256 % 16 ≡ b % 16)
      × (word a b c d / 16 % 16 ≡ a / 16)
      × (word a b c d % 16 ≡ a % 16)
word_digits a b c d p q r s = (
  omega arith,
  omega arith,
  omega arith,
  omega arith,
  omega arith,
  omega arith,
  omega arith,
  omega arith,
)

-- The list is one of whole words.
abbrev Whole : List ℕ → Type 0
Whole [] = Unit
Whole (a ∷ b ∷ c ∷ d ∷ bs) = Whole bs
Whole _ = ⊥

print_words-reverse_words :
    (bs : List ℕ) → Whole bs → All IsByte bs → print_words bs ≡ print_bytes (reverse_words bs)
unfolding reverse_words
print_words-reverse_words [] w h = refl
print_words-reverse_words (a ∷ []) w h = absurd w
print_words-reverse_words (a ∷ b ∷ []) w h = absurd w
print_words-reverse_words (a ∷ b ∷ c ∷ []) w h = absurd w
print_words-reverse_words (a ∷ b ∷ c ∷ d ∷ bs) w (p, (q, (r, (s, h)))) =
    let (e1, e2, e3, e4, e5, e6, e7, e8) = word_digits a b c d p q r s in
    rw (e1, e2, e3, e4, e5, e6, e7, e8, print_words-reverse_words bs w h, reverse_words) refl

-- Lists of `4 * n` elements are of whole words.
Whole-length : (n : ℕ) (bs : List ℕ) → length bs ≡ 4 * n → Whole bs
Whole-length n [] e = tt
Whole-length n (a ∷ []) e = absurd (omega arith)
Whole-length n (a ∷ b ∷ []) e = absurd (omega arith)
Whole-length n (a ∷ b ∷ c ∷ []) e = absurd (omega arith)
Whole-length zero (a ∷ b ∷ c ∷ d ∷ bs) e = absurd (omega arith)
Whole-length (suc n) (a ∷ b ∷ c ∷ d ∷ bs) e = Whole-length n bs (omega arith)

Whole-width :
    (family : AddressFamily) (bs : List ℕ) → 2 * length bs ≡ address_width family → Whole bs
unfolding address_width
Whole-width family bs w = elim (Bool-cases (family == AddressFamily.ipv6)) [
  | inl e ↦ Whole-length 4 bs (ground arith)
  | inr e ↦ Whole-length 1 bs (ground arith)
]

-- Decoding what the kernel prints for the bytes of an address, as many as the family has, gives the
-- address of these bytes. The kernel prints each word of four bytes as one little-endian number in
-- eight hexadecimal digits, the highest first.
pub decode_proc_address-print_words :
    (family : AddressFamily) (bs : List ℕ)
    → 2 * length bs ≡ address_width family
    → All IsByte bs
    → decode_proc_address (print_words bs) family ≡ some (address_of family bs)
decode_proc_address-print_words family bs w h =
    rw (print_words-reverse_words bs (Whole-width family bs w) h) (decode_reversed family bs w h)
