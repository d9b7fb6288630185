-- ===== src/Tests/Naming.antt =====
-- Identifiers and decimal numbers at concrete inputs.
use Prim.Native.Nat.{compare}
use route_doc.Common.{◌≡◌, refl, none, some, codes, arith, true}
use route_doc.Decimal.{itoa, digits}
use route_doc.Ids.{
  claim_id, finding_id, claim_prefix, finding_prefix, valid_id, generated_number, compare_claim_id,
  compare_finding_id,
}
use route_doc.Ids.Generated.{generated_ids-valid, compare-generated_ids}

finding_id_pads : finding_id 42 ≡ codes "finding-000042"
unfolding finding_id itoa digits
finding_id_pads = refl

generated_ids-valid_example :
    (valid_id (claim_id 42) claim_prefix true ≡ none)
    × (generated_number (claim_id 42) claim_prefix ≡ some 42)
    × (valid_id (finding_id 42) finding_prefix true ≡ none)
    × (generated_number (finding_id 42) finding_prefix ≡ some 42)
generated_ids-valid_example = generated_ids-valid 42 (omega arith) (omega arith)

compare-generated_ids_example :
    (compare_claim_id (claim_id 1_000_000) (claim_id 999_999) ≡ compare 1_000_000 999_999)
    × (compare_finding_id (finding_id 1_000_000) (finding_id 999_999) ≡ compare 1_000_000 999_999)
compare-generated_ids_example =
    compare-generated_ids 1_000_000 999_999 (omega arith) (omega arith) (omega arith) (omega arith)
