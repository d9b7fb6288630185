-- ===== src/Canonical/Asymmetry.antt =====
-- Comparisons of internal/model/canonicalize.go that never have two values both ways: those of
-- identifiers, limitations, evidence references and branches.
use route_doc.Common.{
  ◌≡◌, refl, arith, eq_number, Bool, List, Text, text_lt-IsAsymmetric, IsAsymmetric, ◌<◌,
  Bool-cases, ℕ, true, false, text_eq_iff, inl, inr, Option-cases,
}
use route_doc.Model.Paths.{Branch}
use route_doc.Canonical.Compare.{less_limitation, less_evidence_ref, evidence_ref_id}
use route_doc.Canonical.Runs.{less_by, is_less, less_branch_index}
use native.Mathlib.Omega.{compare-lt}
use Prim.Native.Nat.{compare, Ordering}
use route_doc.Ids.{
  compare_uint_ids, compare_claim_id, compare_finding_id, text_compare, claim_prefix,
  finding_prefix, generated_number,
}

pub less_by-IsAsymmetric : {A : Type 0} (key : A → Text) → IsAsymmetric (less_by key)
unfolding less_by
less_by-IsAsymmetric key a b = text_lt-IsAsymmetric (key a) (key b)

pub less_limitation-IsAsymmetric : IsAsymmetric less_limitation
unfolding less_limitation
less_limitation-IsAsymmetric a b = text_lt-IsAsymmetric a.limitation_id b.limitation_id

pub less_evidence_ref-IsAsymmetric : IsAsymmetric less_evidence_ref
unfolding less_evidence_ref
less_evidence_ref-IsAsymmetric a b h =
    let ids = text_lt-IsAsymmetric (evidence_ref_id a) (evidence_ref_id b) in ground arith

pub less_branch_index-IsAsymmetric :
    (branches : List Branch) → IsAsymmetric (less_branch_index branches)
unfolding less_branch_index
less_branch_index-IsAsymmetric branches a b h = ground arith

-- The order of generated identifiers, by their numbers, of claims and of findings.
abbrev pub less_claim_id : Text → Text → Bool
less_claim_id a b = is_less (compare_claim_id a b)

abbrev pub less_finding_id : Text → Text → Bool
less_finding_id a b = is_less (compare_finding_id a b)

is_less-lt : (m n : ℕ) (o : Ordering) → compare m n ≡ o → is_less o ≡ true → m < n
is_less-lt m n Ordering.lt e h = compare-lt m n e
is_less-lt m n Ordering.eq e h = cc
is_less-lt m n Ordering.gt e h = cc

is_less-IsAsymmetric : (m n : ℕ) → is_less (compare m n) ≡ true → is_less (compare n m) ≡ false
is_less-IsAsymmetric m n h = elim (Bool-cases (is_less (compare n m))) [
  | inl e ↦
      let a = is_less-lt m n (compare m n) refl h in
      let b = is_less-lt n m (compare n m) refl e in absurd (omega arith)
  | inr e ↦ e
]

text_compare-IsAsymmetric : IsAsymmetric (λ a b. is_less (text_compare a b))
unfolding text_compare
text_compare-IsAsymmetric a b h =
    let less = text_lt-IsAsymmetric a b in
    let ab = text_eq_iff a b in let ba = text_eq_iff b a in ground arith

compare_uint_ids-IsAsymmetric :
    (prefix : Text) → IsAsymmetric (λ a b. is_less (compare_uint_ids a b prefix))
unfolding compare_uint_ids
compare_uint_ids-IsAsymmetric prefix a b h =
    let texts = text_compare-IsAsymmetric a b in
    elim (Option-cases (generated_number a prefix)) [
      | inl x ↦ elim (Option-cases (generated_number b prefix)) [
        | inl y ↦ rw y (texts (rw x at h))
        | inr (n, y) ↦ rw (y, x) (texts (rw x at h))
      ]
      | inr (m, x) ↦ elim (Option-cases (generated_number b prefix)) [
        | inl y ↦ rw y (texts (rw (x, y) at h))
        | inr (n, y) ↦ rw (y, x) (is_less-IsAsymmetric m n (rw (x, y) at h))
      ]
    ]

pub less_claim_id-IsAsymmetric : IsAsymmetric less_claim_id
unfolding compare_claim_id
less_claim_id-IsAsymmetric = compare_uint_ids-IsAsymmetric claim_prefix

pub less_finding_id-IsAsymmetric : IsAsymmetric less_finding_id
unfolding compare_finding_id
less_finding_id-IsAsymmetric = compare_uint_ids-IsAsymmetric finding_prefix
