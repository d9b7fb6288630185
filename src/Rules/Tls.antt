-- ===== src/Rules/Tls.antt =====
-- internal/rules/tls/hostname_mismatch.go
use route_doc.Common.{
  Bool, false, not, ◌&&◌, List, [], ◌∷◌, ◌++◌, Option, none, some, codes, ◌==◌, eq_text, eq_number,
  if◌then◌else◌,
}
use route_doc.Model.Observations.{Observation, CertificateVerificationResultPayload}
use route_doc.Model.Runs.{EvidenceRun}
use route_doc.Model.Enums.{
  ObservationKind, CertificateVerificationResult, EvidenceKind, ClaimStatementCode, ClaimLevel,
  FindingKind, FindingTitleCode, Selection, eq_observation_kind, eq_certificate_verification_result,
  trust_source_valid,
}
use route_doc.Rules.Templates.{
  EvidenceTemplate, ClaimTemplate, FindingTemplate, RuleCandidate, Rule,
}
use route_doc.Rules.Positions.{branches_for, is_observation_ref}

-- The verification that an observation of that kind carries.
unfoldable pub verification_of : Observation → Option CertificateVerificationResultPayload
verification_of o =
    if not (o.kind == ObservationKind.certificate_verification_result)
    then none
    else o.payload.certificate_verification

-- The guards on a mismatch; the time is zero where `IsZero` holds.
unfoldable pub is_mismatch_claim : CertificateVerificationResultPayload → Bool
is_mismatch_claim p =
    (p.result == CertificateVerificationResult.hostname_mismatch)
    && (not (p.verified_hostname == [])
        && (trust_source_valid p.trust_source && not (p.verification_time == 0)))

abbrev observation_evidence : Observation → EvidenceTemplate
observation_evidence o = record {
  kind = EvidenceKind.observation;
  observation_id = o.observation_id;
  claim_local_key = [];
  visibility_id = [];
  assertion_id = [];
}

-- `other.VantageID != nil && o.VantageID != nil && *other.VantageID == *o.VantageID`
unfoldable pub same_vantage : Observation → Observation → Bool
same_vantage other o = elim other.vantage_id [
  | none ↦ false
  | some a ↦ elim o.vantage_id [ none ↦ false | some b ↦ a == b ]
]

-- The round that looks for contradicting evidence.
unfoldable pub contradicts_mismatch :
    Observation → CertificateVerificationResultPayload → Observation → Bool
contradicts_mismatch o p other = elim (verification_of other) [
  | none ↦ false
  | some q ↦
      not (other.observation_id == o.observation_id)
      && ((q.result == CertificateVerificationResult.verified)
          && ((q.peer_entity_id == p.peer_entity_id) && same_vantage other o))
]

unfoldable pub contradicting :
    Observation → CertificateVerificationResultPayload → List Observation → List EvidenceTemplate
contradicting o p [] = []
contradicting o p (other ∷ os) =
    let rest = contradicting o p os in
    if contradicts_mismatch o p other then observation_evidence other ∷ rest else rest

unfoldable pub mismatch_candidate :
    EvidenceRun → Observation → CertificateVerificationResultPayload → RuleCandidate
mismatch_candidate r o p =
    let (branches, positions) = branches_for (is_observation_ref o.observation_id) r.service_path in
    let claim : ClaimTemplate = record {
      local_key = codes "mismatch";
      statement_code = ClaimStatementCode.tls_certificate_hostname_mismatch;
      level = ClaimLevel.observed;
      subject_entity_ids = p.peer_entity_id ∷ [];
      branch_ids = branches;
      parameters = record {
        kind = ClaimStatementCode.tls_certificate_hostname_mismatch;
        hostname_mismatch = some (record {
          peer_entity_id = p.peer_entity_id;
          hostname = p.verified_hostname;
          verification_time = p.verification_time;
          trust_source = p.trust_source;
        });
        tcp_refused = none;
        listener_absent = none;
      };
      supporting_evidence = observation_evidence o ∷ [];
      contradicting_evidence = contradicting o p r.observations;
      required_missing_evidence = [];
    } in
    let finding : FindingTemplate = record {
      kind = FindingKind.blocker;
      title_code = FindingTitleCode.tls_certificate_hostname_mismatch;
      level = ClaimLevel.observed;
      branch_ids = branches;
      path_positions = positions;
      claim_local_keys = codes "mismatch" ∷ [];
      limitations = [];
      suggested_experiments = codes "inspect the certificate hostname" ∷ [];
      selection = Selection.none;
    } in
    record {
      candidate_key = codes "tls-" ++ o.observation_id;
      claims = claim ∷ [];
      findings = finding ∷ [];
    }

-- One round of the loop over the observations.
unfoldable pub mismatch_at : EvidenceRun → Observation → List RuleCandidate
mismatch_at r o = elim (verification_of o) [
  | none ↦ []
  | some p ↦ if is_mismatch_claim p then mismatch_candidate r o p ∷ [] else []
]

unfoldable pub mismatch_rounds : EvidenceRun → List Observation → List RuleCandidate
mismatch_rounds r [] = []
mismatch_rounds r (o ∷ os) = mismatch_at r o ++ mismatch_rounds r os

unfoldable pub hostname_mismatch : Rule
hostname_mismatch = record {
  id = codes "tls.certificate_hostname_mismatch/v1";
  evaluate = λ r. mismatch_rounds r r.observations;
}
