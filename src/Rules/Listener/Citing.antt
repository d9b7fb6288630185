-- ===== src/Rules/Listener/Citing.antt =====
-- The references of a claim of internal/rules/listener/no_matching_listener.go, as
-- `validateListenerAbsenceClaim` of internal/model/validate_evaluated.go reads them.
use route_doc.Common.{
  ◌≡◌, ◌≢◌, refl, sym, true, false, List, [], ◌∷◌, none, some, Text, Table, arith, All, Exists, now,
  later, contains, any, map, ◌==◌, ==_iff, eq_text, eq_number,
}
use mathlib.Core.Path.{subst}
use route_doc.Model.Ids.{ClaimId, VisibilityId, ObservationId}
use route_doc.Model.Visibility.{VisibilityAssessment}
use route_doc.Model.Runs.{EvidenceRun}
use route_doc.Model.Enums.{
  EvidenceKind, eq_evidence_kind, eq_claim_level, eq_transport, eq_address_family,
  eq_bind_semantics,
}
use route_doc.Rules.Templates.{evidence_from_template}
use route_doc.Rules.Listener.{basis_evidence, assessment_evidence}
use route_doc.Validation.Shared.Loops.{NoRepeat}
use route_doc.Validation.AbsenceClaims.{Cited, cite, cite_all, cite_ref, cite_refs}

-- An assessment that is not cited changes nothing.
cite_all-none :
    (vs : List VisibilityAssessment) (id : VisibilityId) (prefix : Text) (s : Cited)
    → All (λ v. v.visibility_id ≢ id) vs
    → cite_all vs id prefix s ≡ s
unfolding cite_all
cite_all-none [] id prefix s h = refl
cite_all-none (v ∷ vs) id prefix s h =
    let e : (v.visibility_id == id) ≡ false = ground (arith, (==_iff v.visibility_id id).0) in
    rw e (cite_all-none vs id prefix s h.1)

All-at :
    (P : VisibilityAssessment → Type 0) (xs : List VisibilityAssessment) (v : VisibilityAssessment)
    → All P xs
    → Exists (λ w. v ≡ w) xs
    → P v
All-at P [] v h x = elim x [ ]
All-at P (w ∷ ws) v h (now e) = subst P (sym e) h.0
All-at P (w ∷ ws) v h (later x) = All-at P ws v h.1 x

-- Where no two assessments share an identifier, the one that is cited is found once.
pub cite_all-once :
    (vs : List VisibilityAssessment) (v : VisibilityAssessment) (prefix : Text) (s : Cited)
    → NoRepeat (λ w. w.visibility_id) vs
    → Exists (λ w. v ≡ w) vs
    → s.visibility ≡ none
    → cite_all vs v.visibility_id prefix s ≡ record s { visibility = some v }
unfolding cite_all cite
cite_all-once [] v prefix s n x h = elim x [ ]
cite_all-once (w ∷ ws) v prefix s n (now e) h =
    let t : (w.visibility_id == w.visibility_id) ≡ true = (==_iff w.visibility_id _).1 refl in
    subst (λ u. cite_all (w ∷ ws) u.visibility_id prefix s ≡ record s { visibility = some u })
      (sym e)
      (rw (t, h, cite)
        (cite_all-none ws w.visibility_id prefix (record s { visibility = some w }) n.0))
cite_all-once (w ∷ ws) v prefix s n (later x) h =
    let ne : v.visibility_id ≢ w.visibility_id = All-at _ ws v n.0 x in
    let f : (w.visibility_id == v.visibility_id) ≡ false =
      ground (arith, (==_iff w.visibility_id v.visibility_id).0) in
    rw f (cite_all-once ws v prefix s n.1 x h)

cite_ref-observation :
    (r : EvidenceRun) (local : Table ClaimId) (id : ObservationId) (prefix : Text) (s : Cited)
    → cite_ref r (evidence_from_template local (basis_evidence id)) prefix s
      ≡ record s { observations = id ∷ s.observations }
unfolding cite_ref evidence_from_template
cite_ref-observation r local id prefix s =
    let a : (EvidenceKind.observation == EvidenceKind.visibility) ≡ false =
      ground (arith, (==_iff EvidenceKind.observation EvidenceKind.visibility).0) in
    let b : (EvidenceKind.observation == EvidenceKind.observation) ≡ true =
      (==_iff EvidenceKind.observation EvidenceKind.observation).1 refl in
    rw (a, b) refl

pub cite_ref-visibility :
    (r : EvidenceRun) (local : Table ClaimId) (id : VisibilityId) (prefix : Text) (s : Cited)
    → cite_ref r (evidence_from_template local (assessment_evidence id)) prefix s
      ≡ cite_all r.visibility_assessments id prefix s
unfolding cite_ref evidence_from_template
cite_ref-visibility r local id prefix s =
    let a : (EvidenceKind.visibility == EvidenceKind.visibility) ≡ true =
      (==_iff EvidenceKind.visibility EvidenceKind.visibility).1 refl in
    rw a refl

contains_head : (id : Text) (ids : List Text) → contains (id ∷ ids) id ≡ true
unfolding contains any
contains_head id ids = rw ((==_iff id id).1 refl) refl

contains_tail :
    (o id : Text) (ids : List Text) → contains ids o ≡ true → contains (id ∷ ids) o ≡ true
unfolding contains any
contains_tail o id ids h = ground arith

-- Citing the basis enters its observations and changes nothing else.
pub record Enters (before after : Cited) (ids : List ObservationId) : Type 0 where
  pub issues : after.issues ≡ before.issues
  pub visibility : after.visibility ≡ before.visibility
  pub kept :
      (o : ObservationId)
      → contains before.observations o ≡ true
      → contains after.observations o ≡ true
  pub entered : All (λ o. contains after.observations o ≡ true) ids

pub cite_basis :
    (r : EvidenceRun) (local : Table ClaimId) (prefix : Text) (ids : List ObservationId) (s : Cited)
    → Enters s
        (cite_refs r (map (evidence_from_template local) (map basis_evidence ids)) prefix s)
        ids
unfolding cite_refs
cite_basis r local prefix [] s = record {
  issues = refl;
  visibility = refl;
  kept = λ o h. h;
  entered = tt;
}
cite_basis r local prefix (id ∷ ids) s =
    let next : Cited = record s { observations = id ∷ s.observations } in
    let more = cite_basis r local prefix ids next in
    let here : contains (id ∷ s.observations) id ≡ true = contains_head id s.observations in
    let refs = map (evidence_from_template local) (map basis_evidence ids) in
    let done : Enters s (cite_refs r refs prefix next) (id ∷ ids) = record {
      issues = more.issues;
      visibility = more.visibility;
      kept = λ o h. more.kept o (contains_tail o id s.observations h);
      entered = (more.kept id here, more.entered);
    } in
    subst (λ t. Enters s (cite_refs r refs prefix t) (id ∷ ids))
      (sym (cite_ref-observation r local id prefix s)) done
