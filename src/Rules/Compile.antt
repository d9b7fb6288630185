-- ===== src/Rules/Compile.antt =====
-- The loops of `Evaluate` in internal/rules/evaluate.go: the candidates of the rules, and the claims
-- and findings that are made of them.
use route_doc.Common.{
  ℕ, ◌+◌, Bool, true, false, not, ◌&&◌, ◌||◌, List, [], ◌∷◌, ◌++◌, Text, codes, Table, insert,
  contains, text_lt, ◌==◌, eq_text, if◌then◌else◌, map,
}
use route_doc.Model.Ids.{RuleId, ClaimId}
use route_doc.Model.Claims.{Claim, Finding}
use route_doc.Model.Runs.{EvidenceRun}
use route_doc.Model.Issues.{ValidationCode, ValidationIssue}
use route_doc.Model.Enums.{EvidenceKind, Selection, eq_evidence_kind}
use route_doc.Ids.{claim_id, finding_id}
use route_doc.Rules.Templates.{
  EvidenceTemplate, ClaimTemplate, FindingTemplate, RuleCandidate, Rule, valid_candidate_key,
  local_id, evidence_from_template,
}

pub record CompiledCandidate : Type 0 where
  pub rule : RuleId
  pub key : Text
  pub candidate : RuleCandidate

abbrev issue : ValidationCode → Text → ValidationIssue
issue code message = record { code = code; pointer = codes "/evaluation"; message = message }

-- The loop over the candidates of a rule; the keys in `seen` are taken.
unfoldable pub collect_raw :
    RuleId → List Text → List RuleCandidate → List CompiledCandidate × List ValidationIssue
collect_raw rule seen [] = ([], [])
collect_raw rule seen (c ∷ cs) = elim (valid_candidate_key c.candidate_key) [
  | false ↦
      let (rest, is) = collect_raw rule seen cs in
      (
        rest,
        issue ValidationCode.duplicate_candidate_key (codes "candidate key is invalid or sensitive")
            ∷ is,
      )
  | true ↦ elim (contains seen c.candidate_key) [
    | true ↦
        let (rest, is) = collect_raw rule seen cs in
        (rest, issue ValidationCode.duplicate_candidate_key (codes "duplicate candidate key") ∷ is)
    | false ↦
        let (rest, is) = collect_raw rule (c.candidate_key ∷ seen) cs in
        (record { rule = rule; key = c.candidate_key; candidate = c } ∷ rest, is)
  ]
]

unfoldable pub collect_candidates :
    List Rule → EvidenceRun → List CompiledCandidate × List ValidationIssue
collect_candidates [] r = ([], [])
collect_candidates (rule ∷ rules) r =
    let (cs, is) = collect_raw rule.id [] (rule.evaluate r) in
    let (rest, js) = collect_candidates rules r in (cs ++ rest, is ++ js)

-- The order of the candidates: by rule, then by key.
unfoldable pub less_candidate : CompiledCandidate → CompiledCandidate → Bool
less_candidate a b = if not (a.rule == b.rule) then text_lt a.rule b.rule else text_lt a.key b.key

-- What the loop over the candidates changes while it makes claims.
pub record ClaimState : Type 0 where
  pub claim_number : ℕ
  pub claims : List Claim
  pub issues : List ValidationIssue

unfoldable pub forward_issues : Table ClaimId → List EvidenceTemplate → List ValidationIssue
forward_issues local [] = []
forward_issues local (x ∷ xs) =
    let rest = forward_issues local xs in
    if (x.kind == EvidenceKind.claim) && (local_id local x.claim_local_key == [])
    then issue ValidationCode.reference_forward_claim
        (codes "template claim reference is not earlier in candidate")
      ∷ rest
    else rest

unfoldable pub claim_from : RuleId → ClaimId → Table ClaimId → ClaimTemplate → Claim
claim_from rule id local t = record {
  claim_id = id;
  statement_code = t.statement_code;
  level = t.level;
  subject_entity_ids = t.subject_entity_ids;
  branch_ids = t.branch_ids;
  parameters = t.parameters;
  supporting_evidence = map (evidence_from_template local) t.supporting_evidence;
  contradicting_evidence = map (evidence_from_template local) t.contradicting_evidence;
  required_missing_evidence = t.required_missing_evidence;
  rule_id = rule;
}

-- The claim of a template whose key is free, and the key's entry in `local`.
unfoldable pub add_claim :
    RuleId → ClaimTemplate → ClaimState → Table ClaimId → ClaimState × Table ClaimId
add_claim rule t s local =
    let id = claim_id s.claim_number in
    let local' = insert t.local_key id local in
    (
      record {
        claim_number = s.claim_number + 1;
        claims = s.claims ++ claim_from rule id local' t ∷ [];
        issues =
            s.issues
            ++ forward_issues local' t.supporting_evidence
            ++ forward_issues local' t.contradicting_evidence;
      },
      local',
    )

-- `t.LocalKey == "" || candidates[i].local[t.LocalKey] != ""`
unfoldable pub key_taken : Table ClaimId → Text → Bool
key_taken local key = (key == []) || not (local_id local key == [])

-- The loop over the claim templates of a candidate.
unfoldable pub make_claims :
    RuleId → List ClaimTemplate → ClaimState → Table ClaimId → ClaimState × Table ClaimId
make_claims rule [] s local = (s, local)
make_claims rule (t ∷ ts) s local = elim (key_taken local t.local_key) [
  | true ↦
      make_claims rule ts
        (record s {
          issues =
              s.issues
              ++ issue ValidationCode.invalid_value (codes "duplicate or empty local claim key")
                ∷ [];
        })
        local
  | false ↦ let (s', local') = add_claim rule t s local in make_claims rule ts s' local'
]

-- The loop over the candidates: the state, and each candidate with its `local`.
unfoldable pub make_all_claims :
    List CompiledCandidate → ClaimState → ClaimState × List (CompiledCandidate × Table ClaimId)
make_all_claims [] s = (s, [])
make_all_claims (c ∷ cs) s =
    let (s', local) = make_claims c.rule c.candidate.claims s [] in
    let (s'', rest) = make_all_claims cs s' in (s'', (c, local) ∷ rest)

pub record FindingState : Type 0 where
  pub finding_number : ℕ
  pub findings : List Finding
  pub issues : List ValidationIssue

unfoldable pub missing_issues : Table ClaimId → List Text → List ValidationIssue
missing_issues local [] = []
missing_issues local (key ∷ keys) =
    let rest = missing_issues local keys in
    if local_id local key == []
    then issue ValidationCode.reference_missing (codes "finding local claim key missing") ∷ rest
    else rest

unfoldable pub add_finding : RuleId → Table ClaimId → FindingTemplate → FindingState → FindingState
add_finding rule local t s = record {
  finding_number = s.finding_number + 1;
  findings =
      s.findings
      ++ record {
        finding_id = finding_id s.finding_number;
        kind = t.kind;
        title_code = t.title_code;
        level = t.level;
        branch_ids = t.branch_ids;
        path_positions = t.path_positions;
        claim_ids = map (local_id local) t.claim_local_keys;
        rule_id = rule;
        limitations = t.limitations;
        suggested_experiments = t.suggested_experiments;
        selection = Selection.none;
      }
        ∷ [];
  issues = s.issues ++ missing_issues local t.claim_local_keys;
}

unfoldable pub make_findings :
    RuleId → Table ClaimId → List FindingTemplate → FindingState → FindingState
make_findings rule local [] s = s
make_findings rule local (t ∷ ts) s = make_findings rule local ts (add_finding rule local t s)

unfoldable pub make_all_findings :
    List (CompiledCandidate × Table ClaimId) → FindingState → FindingState
make_all_findings [] s = s
make_all_findings ((c, local) ∷ cs) s =
    make_all_findings cs (make_findings c.rule local c.candidate.findings s)
