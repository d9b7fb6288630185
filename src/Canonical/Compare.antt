-- ===== src/Canonical/Compare.antt =====
-- The comparisons of internal/model/canonicalize.go; -1, 0 and 1 are `lt`, `eq` and `gt`.
use Prim.Native.Nat.{compare, Ordering}
use route_doc.Common.{
  ℕ, Bool, true, false, not, ◌||◌, List, [], ◌∷◌, Option, none, some, Text, text_eq, text_lt, sort,
  ltb, ◌==◌, eq_number, if◌then◌else◌, ◌≡◌, ◌≢◌, refl,
}
use route_doc.Model.Limitations.{Limitation}
use route_doc.Model.Paths.{EvidenceRef}
use route_doc.Model.Visibility.{VisibilityScope, ListenerVisibilityScope}
use route_doc.Model.Claims.{MissingEvidenceRequirement}
use route_doc.Model.Enums.{
  EvidenceKind, MissingEvidenceKind, observation_kind_text, visibility_subject_kind_text,
  transport_text, address_family_text, bind_semantics_text,
}

unfoldable pub missing_evidence_kind_order : MissingEvidenceKind → ℕ
missing_evidence_kind_order MissingEvidenceKind.observation_required = 0
missing_evidence_kind_order MissingEvidenceKind.visibility_required = 1
missing_evidence_kind_order MissingEvidenceKind.vantage_required = 2
missing_evidence_kind_order (MissingEvidenceKind.invalid s) = 99

-- `compareOptionalString`
unfoldable pub compare_optional_string : Text → Text → Ordering
compare_optional_string a b =
    if text_eq a b
    then Ordering.eq
    else if text_eq a []
    then Ordering.lt
    else if text_eq b [] || text_lt a b
    then Ordering.lt
    else Ordering.gt

unfoldable pub compare_bool : Bool → Bool → Ordering
compare_bool true true = Ordering.eq
compare_bool false false = Ordering.eq
compare_bool false true = Ordering.lt
compare_bool true false = Ordering.gt

-- `if x := first; x != 0 { return x }`, and then the second comparison
unfoldable pub and_then : Ordering → Ordering → Ordering
and_then Ordering.eq next = next
and_then Ordering.lt next = Ordering.lt
and_then Ordering.gt next = Ordering.gt

unfoldable pub compare_listener_scope : ListenerVisibilityScope → ListenerVisibilityScope → Ordering
compare_listener_scope x y =
    and_then (compare_optional_string x.namespace_entity_id y.namespace_entity_id) (
      and_then (compare_optional_string (transport_text x.protocol) (transport_text y.protocol)) (
        and_then
          (compare_optional_string (address_family_text x.address_family)
            (address_family_text y.address_family))
          (and_then
            (compare_optional_string (bind_semantics_text x.bind_semantics)
              (bind_semantics_text y.bind_semantics))
            (and_then (compare x.port_start y.port_start) (
              and_then (compare x.port_end y.port_end)
                (compare_bool x.process_ownership_required y.process_ownership_required))))))

-- A nil pointer comes first. Two pointers that are not nil are compared by `next`.
compare_nil : {A : Type 0} → (A → A → Ordering) → Option A → Option A → Ordering
compare_nil next none none = Ordering.eq
compare_nil next none (some b) = Ordering.lt
compare_nil next (some a) none = Ordering.gt
compare_nil next (some a) (some b) = next a b

unfoldable pub compare_visibility_scope : Option VisibilityScope → Option VisibilityScope → Ordering
unfolding compare_nil
compare_visibility_scope = compare_nil (λ a b.
    and_then (compare_optional_string a.kind b.kind)
      (compare_nil compare_listener_scope a.listener b.listener))

-- The empty string for a nil pointer
unfoldable pub or_empty : {A : Type 0} → (A → Text) → Option A → Text
or_empty text none = []
or_empty text (some a) = text a

unfoldable pub compare_missing_evidence :
    MissingEvidenceRequirement → MissingEvidenceRequirement → Ordering
compare_missing_evidence a b =
    and_then (compare (missing_evidence_kind_order a.kind) (missing_evidence_kind_order b.kind)) (
      and_then
        (compare_optional_string (or_empty observation_kind_text a.observation_kind)
          (or_empty observation_kind_text b.observation_kind))
        (and_then
          (compare_optional_string (or_empty visibility_subject_kind_text a.visibility_subject_kind)
            (or_empty visibility_subject_kind_text b.visibility_subject_kind))
          (and_then (compare_visibility_scope a.visibility_scope b.visibility_scope) (
            compare_optional_string (or_empty (λ x. x) a.vantage_id)
              (or_empty (λ x. x) b.vantage_id)))))

unfoldable pub evidence_kind_order : EvidenceKind → ℕ
evidence_kind_order EvidenceKind.observation = 0
evidence_kind_order EvidenceKind.claim = 1
evidence_kind_order EvidenceKind.visibility = 2
evidence_kind_order EvidenceKind.assertion = 3
evidence_kind_order (EvidenceKind.invalid s) = 99

-- `evidenceRefID`: the first pointer that is not nil
unfoldable pub evidence_ref_id : EvidenceRef → Text
evidence_ref_id r = elim r.observation_id [
  | some id ↦ id
  | none ↦ elim r.claim_id [
    | some id ↦ id
    | none ↦ elim r.visibility_id [
      | some id ↦ id
      | none ↦ elim r.assertion_id [ some id ↦ id | none ↦ [] ]
    ]
  ]
]

unfoldable pub less_evidence_ref : EvidenceRef → EvidenceRef → Bool
less_evidence_ref a b =
    if not (evidence_kind_order a.kind == evidence_kind_order b.kind)
    then ltb (evidence_kind_order a.kind) (evidence_kind_order b.kind)
    else text_lt (evidence_ref_id a) (evidence_ref_id b)

unfoldable pub sort_evidence_refs : List EvidenceRef → List EvidenceRef
sort_evidence_refs = sort less_evidence_ref

unfoldable pub less_limitation : Limitation → Limitation → Bool
less_limitation a b = text_lt a.limitation_id b.limitation_id

unfoldable pub sort_limitations : List Limitation → List Limitation
sort_limitations = sort less_limitation

-- The empty string and any other string are each reported as less than the other.
pub compare_optional_string_both_ways :
    (a : Text)
    → a ≢ []
    → (compare_optional_string a [] ≡ Ordering.lt) × (compare_optional_string [] a ≡ Ordering.lt)
unfolding compare_optional_string text_eq text_lt
compare_optional_string_both_ways [] h = absurd (h refl)
compare_optional_string_both_ways (c ∷ a) h = (refl, refl)
