-- ===== src/Decimal/Value.antt =====
-- The number that a list of decimal digits spells, and what `itoa` spells.
use route_doc.Common.{
  ℕ, zero, suc, ◌+◌, ◌-◌, ◌*◌, ◌/◌, ◌%◌, ◌≤◌, ◌≡◌, [], ◌∷◌, Text, All, arith, ◌==◌, eq_number, inl,
  inr, Bool-cases,
}
use route_doc.Decimal.{digits, itoa}

abbrev pub IsDigit : ℕ → Type 0
IsDigit byte = (48 ≤ byte) × (byte ≤ 57)

-- Reads decimal digits from the left, starting from the number `n` read so far.
unfoldable pub value : ℕ → Text → ℕ
value n [] = n
value n (c ∷ s) = value (n * 10 + (c - b'0')) s

value-digits : (fuel i : ℕ) (b : Text) → i ≤ fuel → value 0 (digits fuel i b) ≡ value i b
unfolding digits value
value-digits zero i b h = let e : i ≡ 0 = omega arith in rw e
value-digits (suc fuel) i b h = elim (Bool-cases (i == 0)) [
  | inl e ↦ let z : i ≡ 0 = ground arith in rw z
  | inr e ↦
      let back : (i / 10) * 10 + (b'0' + i % 10 - b'0') ≡ i = omega arith in
      let ih : value 0 (digits fuel (i / 10) ((b'0' + i % 10) ∷ b))
          ≡ value (i / 10) ((b'0' + i % 10) ∷ b) =
        value-digits fuel (i / 10) ((b'0' + i % 10) ∷ b) (ground arith) in
      ground arith
]

digits-IsDigit : (fuel i : ℕ) (b : Text) → All IsDigit b → All IsDigit (digits fuel i b)
unfolding digits
digits-IsDigit zero i b h = h
digits-IsDigit (suc fuel) i b h = elim (Bool-cases (i == 0)) [
  | inl e ↦ rw (e, All) h
  | inr e ↦
      rw (e, All)
        (digits-IsDigit fuel (i / 10) ((b'0' + i % 10) ∷ b) ((omega arith, omega arith), h))
]

-- The text of an index is digits only, and spells the index.
pub value-itoa : (i : ℕ) → All IsDigit (itoa i) × (value 0 (itoa i) ≡ i)
unfolding itoa value
value-itoa i = elim (Bool-cases (i == 0)) [
  | inl e ↦ (rw e ((omega arith, omega arith), tt), rw e (ground arith))
  | inr e ↦ (rw e (digits-IsDigit i i [] tt), rw e (value-digits i i [] (omega arith)))
]
