-- ===== src/Decimal.antt =====
-- `itoa` of internal/model/validate_selection.go: decimal digits of an index.
pub mod Value
use route_doc.Common.{
  ℕ, zero, suc, ◌+◌, ◌/◌, ◌%◌, ◌==◌, eq_number, List, [], ◌∷◌, Text, if◌then◌else◌, true, false,
}

-- `for i > 0 { b = append([]byte{byte('0' + i%10)}, b...); i /= 10 }`, with at most `fuel` rounds
unfoldable pub digits : ℕ → ℕ → Text → Text
digits zero i b = b
digits (suc fuel) i b = elim (i == 0) [
  | true ↦ b
  | false ↦ digits fuel (i / 10) ((b'0' + i % 10) ∷ b)
]

unfoldable pub itoa : ℕ → Text
itoa i = if i == 0 then b'0' ∷ [] else digits i i []
