-- ===== src/Rules/Default/Usable.antt =====
-- What `ValidateEvidenceRun` of internal/model/validate_evidence.go gives the rules of internal/rules:
-- identifiers that are distinct and of which keys can be made.
use route_doc.Common.{
  ◌≡◌, refl, true, false, not, Bool, List, [], some, Text, codes, arith, All, any, all,
  Option-cases, inl, inr,
}
use route_doc.Model.Runs.{EvidenceRun}
use route_doc.Ids.{valid_id}
use route_doc.Ids.Kinds.{observation_id_valid, visibility_id_valid}
use route_doc.Rules.Default.Keys.{key_byte, all_id_bytes}
use route_doc.Validation.Shared.{append-nil, issue_if-nil, identifier_issues}
use route_doc.Validation.Shared.Loops.{NoRepeat, All-values, each_seen-AllFrom, each_seen-NoRepeat}
use route_doc.Validation.Texts.{TextLibrary}
use route_doc.Validation.Paths.{validate_path, branch_issues}
use route_doc.Validation.Evidence.{
  accepted, validate_evidence_run, observations_issues, visibilities_issues,
}
use route_doc.Validation.Evidence.Parts.{validate_evidence_run-Parts}
use route_doc.Validation.Evidence.Sound.{identifier-new, accepted_evidence-IsSoundEvidence}

-- What the rules rely on: distinct branches, observations and assessments, with identifiers of which
-- a prefix and a dash make a valid key.
pub record IsUsable (r : EvidenceRun) : Type 0 where
  pub branches : NoRepeat (λ b. b.branch_id) r.service_path.branches
  pub observations : NoRepeat (λ o. o.observation_id) r.observations
  pub assessments : NoRepeat (λ v. v.visibility_id) r.visibility_assessments
  pub observation_bytes : All (λ o. all key_byte o.observation_id ≡ true) r.observations
  pub assessment_bytes : All (λ v. all key_byte v.visibility_id ≡ true) r.visibility_assessments

identifier-IsValid :
    (valid : Bool) (seen : List Text) (id p m n : Text)
    → identifier_issues valid seen id p m n ≡ []
    → valid ≡ true
unfolding identifier_issues
identifier-IsValid valid seen id p m n h =
    let e = (issue_if-nil (not valid) _ _ _).0 ((append-nil _ _).0 h).0 in ground arith

observation_bytes_of : (id : Text) → observation_id_valid id ≡ true → all key_byte id ≡ true
unfolding observation_id_valid all key_byte any
observation_bytes_of id h = elim (Option-cases (valid_id id (codes "observation-") false)) [
  | inl n ↦ all_id_bytes id (codes "observation-") n refl
  | inr (e, n) ↦ absurd (let x = rw (n, observation_id_valid) at h in cc)
]

assessment_bytes_of : (id : Text) → visibility_id_valid id ≡ true → all key_byte id ≡ true
unfolding visibility_id_valid all key_byte any
assessment_bytes_of id h = elim (Option-cases (valid_id id (codes "visibility-") false)) [
  | inl n ↦ all_id_bytes id (codes "visibility-") n refl
  | inr (e, n) ↦ absurd (let x = rw (n, visibility_id_valid) at h in cc)
]

pub IsUsable-accepted :
    (lib : TextLibrary) (r v : EvidenceRun)
    → validate_evidence_run lib r ≡ some (accepted v)
    → IsUsable r
unfolding validate_path branch_issues observations_issues visibilities_issues
IsUsable-accepted lib r v h =
    let (_, parts) = validate_evidence_run-Parts lib r v h in
    let sound = (accepted_evidence-IsSoundEvidence lib r v h).distinct in
    let (rest, _) = (append-nil _ _).0 parts.path in
    let (_, branches) = (append-nil _ _).0 rest in
    record {
      branches =
          each_seen-NoRepeat _ _
            (λ seen i b e. identifier-new _ seen b.branch_id _ _ _ ((append-nil _ _).0 e).0) 0
            r.service_path.branches branches;
      observations = sound.observations;
      assessments = sound.assessments;
      observation_bytes =
          All-values (λ o. all key_byte o.observation_id ≡ true) 0 r.observations
            (each_seen-AllFrom _ _ (λ i o. all key_byte o.observation_id ≡ true)
              (λ seen i o e. observation_bytes_of o.observation_id (
                identifier-IsValid _ seen o.observation_id _ _ _
                  ((append-nil _ _).0 ((append-nil _ _).0 e).0).0))
              [] 0 r.observations parts.observations);
      assessment_bytes =
          All-values (λ o. all key_byte o.visibility_id ≡ true) 0 r.visibility_assessments
            (each_seen-AllFrom _ _ (λ i o. all key_byte o.visibility_id ≡ true)
              (λ seen i o e.
                assessment_bytes_of o.visibility_id
                  (identifier-IsValid _ seen o.visibility_id _ _ _ ((append-nil _ _).0 e).0))
              [] 0 r.visibility_assessments parts.visibilities);
    }
