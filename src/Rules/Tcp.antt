-- ===== src/Rules/Tcp.antt =====
-- internal/rules/tcp/connection_refused.go
use route_doc.Common.{
  Bool, false, not, ◌&&◌, List, [], ◌∷◌, ◌++◌, Option, none, some, codes, any, ◌==◌, eq_text,
  if◌then◌else◌,
}
use route_doc.Model.Ids.{VantageId, EntityId}
use route_doc.Model.Observations.{Observation, TcpConnectionResult}
use route_doc.Model.Runs.{EvidenceRun}
use route_doc.Model.Enums.{
  ObservationKind, TcpResult, EvidenceKind, ClaimStatementCode, ClaimLevel, FindingKind,
  FindingTitleCode, Selection, eq_observation_kind, eq_tcp_result,
}
use route_doc.Rules.Templates.{ClaimTemplate, FindingTemplate, RuleCandidate, Rule}
use route_doc.Rules.Positions.{branches_for, is_observation_ref}

-- The result of a TCP observation that is the given one, seen from a vantage.
unfoldable pub tcp_with : TcpResult → Observation → Option (TcpConnectionResult × VantageId)
tcp_with result o =
    if not (o.kind == ObservationKind.tcp_connection_result) then none else elim o.payload.tcp [
      | none ↦ none
      | some p ↦
          if not (p.result == result)
          then none
          else elim o.vantage_id [ none ↦ none | some v ↦ some (p, v) ]
    ]

-- The round that looks for a contradiction: the endpoint was accepted from the vantage.
unfoldable pub accepts : EntityId → VantageId → Observation → Bool
accepts endpoint vantage o = elim (tcp_with TcpResult.accepted o) [
  | none ↦ false
  | some (q, v) ↦ (q.endpoint_entity_id == endpoint) && (v == vantage)
]

unfoldable pub refused_candidate :
    EvidenceRun → Observation → TcpConnectionResult → VantageId → RuleCandidate
refused_candidate r o p v =
    let (branches, positions) = branches_for (is_observation_ref o.observation_id) r.service_path in
    let claim : ClaimTemplate = record {
      local_key = codes "refused";
      statement_code = ClaimStatementCode.tcp_connection_refused;
      level = ClaimLevel.observed;
      subject_entity_ids = p.endpoint_entity_id ∷ [];
      branch_ids = branches;
      parameters = record {
        kind = ClaimStatementCode.tcp_connection_refused;
        hostname_mismatch = none;
        tcp_refused = some (record {
          endpoint_entity_id = p.endpoint_entity_id;
          vantage_id = v;
          observed_at = o.observed_at;
        });
        listener_absent = none;
      };
      supporting_evidence =
          record {
            kind = EvidenceKind.observation;
            observation_id = o.observation_id;
            claim_local_key = [];
            visibility_id = [];
            assertion_id = [];
          }
          ∷ [];
      contradicting_evidence = [];
      required_missing_evidence = [];
    } in
    let finding : FindingTemplate = record {
      kind = FindingKind.blocker;
      title_code = FindingTitleCode.tcp_connection_refused;
      level = ClaimLevel.observed;
      branch_ids = branches;
      path_positions = positions;
      claim_local_keys = codes "refused" ∷ [];
      limitations = [];
      suggested_experiments = codes "compare the endpoint from the same vantage" ∷ [];
      selection = Selection.none;
    } in
    record {
      candidate_key = codes "tcp-" ++ o.observation_id;
      claims = claim ∷ [];
      findings = finding ∷ [];
    }

-- One round of the loop over the observations.
unfoldable pub refused_at : EvidenceRun → Observation → List RuleCandidate
refused_at r o = elim (tcp_with TcpResult.refused o) [
  | none ↦ []
  | some (p, v) ↦
      if any (accepts p.endpoint_entity_id v) r.observations
      then []
      else refused_candidate r o p v ∷ []
]

unfoldable pub refused_rounds : EvidenceRun → List Observation → List RuleCandidate
refused_rounds r [] = []
refused_rounds r (o ∷ os) = refused_at r o ++ refused_rounds r os

unfoldable pub connection_refused : Rule
connection_refused = record {
  id = codes "tcp.connection_refused/v1";
  evaluate = λ r. refused_rounds r r.observations;
}
