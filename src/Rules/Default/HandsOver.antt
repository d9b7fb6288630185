-- ===== src/Rules/Default/HandsOver.antt =====
-- That `Evaluate` of internal/rules/evaluate.go with the registry of internal/rules/default_registry.go
-- comes to a run, for evidence that the validation accepts.
use route_doc.Common.{
  ◌≡◌, refl, sym, ap, true, false, List, [], ◌∷◌, ◌++◌, Option, some, Text, codes, All, All-map,
  All-sort, sort, contains, contains-nil, any, all,
}
use mathlib.Core.Path.{subst}
use route_doc.Model.Ids.{Time}
use route_doc.Model.Entities.{Addr}
use route_doc.Model.Visibility.{VisibilityAssessment}
use route_doc.Model.Observations.{Observation}
use route_doc.Model.Runs.{EvidenceRun, EvaluatedRun}
use route_doc.Rules.Templates.{RuleCandidate, Rule, valid_candidate_key}
use route_doc.Rules.Compile.{collect_raw, collect_candidates, less_candidate}
use route_doc.Rules.Evaluate.{
  Evaluated, exact_version, findings_made, compiled, select_or_reject, evaluate,
}
use route_doc.Rules.Provenance.{collect_candidates-All}
use route_doc.Rules.Provenance.Findings.{findings_made-Titled}
use route_doc.Rules.Quiet.{IsPlain, findings_made-quiet}
use route_doc.Rules.Registry.{less_rule, new_registry}
use route_doc.Rules.Listener.{absent_at, absent_rounds, no_matching_listener_visible}
use route_doc.Rules.Tcp.{refused_at, refused_rounds, connection_refused}
use route_doc.Rules.Tls.{mismatch_at, mismatch_rounds, hostname_mismatch}
use route_doc.Rules.Default.{default_registry}
use route_doc.Rules.Default.Keys.{key_byte, key-valid}
use route_doc.Rules.Default.Shapes.{
  IsBelow, AllBelow, HasOne, refused_at-HasOne, mismatch_at-HasOne, absent_at-HasOne,
}
use route_doc.Rules.Default.Rounds.{rounds, rounds-All, collect_rounds-quiet}
use route_doc.Selection.Apply.{apply}
use route_doc.Selection.Issues.{IsInRange, apply-quiet}
use route_doc.Validation.Shared.Loops.{NoRepeat}
use route_doc.Validation.Texts.{TextLibrary}
use route_doc.Validation.Evidence.{accepted, validate_evidence_run}
use route_doc.Rules.Default.Usable.{IsUsable, IsUsable-accepted}

refused-rounds :
    (r : EvidenceRun) (os : List Observation) → refused_rounds r os ≡ rounds (refused_at r) os
unfolding refused_rounds rounds
refused-rounds r [] = refl
refused-rounds r (o ∷ os) = ap (λ cs. refused_at r o ++ cs) (refused-rounds r os)

mismatch-rounds :
    (r : EvidenceRun) (os : List Observation) → mismatch_rounds r os ≡ rounds (mismatch_at r) os
unfolding mismatch_rounds rounds
mismatch-rounds r [] = refl
mismatch-rounds r (o ∷ os) = ap (λ cs. mismatch_at r o ++ cs) (mismatch-rounds r os)

absent-rounds :
    (parse_addr : Text → Option Addr) (r : EvidenceRun) (vs : List VisibilityAssessment)
    → absent_rounds parse_addr r vs ≡ rounds (absent_at parse_addr r) vs
unfolding absent_rounds rounds
absent-rounds parse_addr r [] = refl
absent-rounds parse_addr r (v ∷ vs) =
    ap (λ cs. absent_at parse_addr r v ++ cs) (absent-rounds parse_addr r vs)

-- The rule's candidates are plain and placed, and are collected without an issue.
record IsQuietRule (r : EvidenceRun) (rule : Rule) : Type 0 where
  shapes : All (λ c. IsPlain c × AllBelow r.service_path.branches c) (rule.evaluate r)
  quiet : (collect_raw rule.id [] (rule.evaluate r)).1 ≡ []

none_taken : {A : Type 0} (key : A → Text) (xs : List A) → All (λ x. contains [] (key x) ≡ false) xs
none_taken key [] = tt
none_taken key (x ∷ xs) = (contains-nil (key x), none_taken key xs)

module _ (r : EvidenceRun) where
  IsQuietRule-rounds :
      {A : Type 0} (at : A → List RuleCandidate) (id : A → Text) (prefix : Text)
      → ((x : A) → HasOne r.service_path.branches (prefix ++ id x) (at x))
      → (xs : List A) → NoRepeat id xs
      → All (λ x. valid_candidate_key (prefix ++ id x) ≡ true) xs
      → (rule : Rule) → rule.evaluate r ≡ rounds at xs
      → IsQuietRule r rule
  IsQuietRule-rounds at id prefix one xs distinct valid rule is = record {
    shapes =
        subst (All (λ c. IsPlain c × AllBelow r.service_path.branches c)) (sym is)
          (rounds-All at id prefix r.service_path.branches one xs);
    quiet =
        subst (λ cs. (collect_raw rule.id [] cs).1 ≡ []) (sym is)
          (collect_rounds-quiet at id prefix r.service_path.branches one rule.id [] xs distinct
            valid (none_taken (λ x. prefix ++ id x) xs));
  }

  collect_candidates-quiet :
      (rules : List Rule) → All (IsQuietRule r) rules → (collect_candidates rules r).1 ≡ []
  unfolding collect_candidates
  collect_candidates-quiet [] h = refl
  collect_candidates-quiet (rule ∷ rules) (q, h) =
      rw (q.quiet, collect_candidates) (collect_candidates-quiet rules h)

  default_registry-IsQuietRule :
      (parse_addr : Text → Option Addr)
      → IsUsable r
      → All (IsQuietRule r) (default_registry parse_addr)
  unfolding default_registry new_registry key_byte all any
  default_registry-IsQuietRule parse_addr u =
      let listener : IsQuietRule r (no_matching_listener_visible parse_addr) =
        IsQuietRule-rounds (absent_at parse_addr r) (λ v. v.visibility_id) (codes "listener-")
          (absent_at-HasOne r u.branches parse_addr) r.visibility_assessments u.assessments
          (All-map _ _ r.visibility_assessments
            (λ v k. key-valid b'l' (codes "istener-") v.visibility_id refl k) u.assessment_bytes)
          (no_matching_listener_visible parse_addr)
          (unfold no_matching_listener_visible in
            (absent-rounds parse_addr r r.visibility_assessments)) in
      let tcp : IsQuietRule r connection_refused =
        IsQuietRule-rounds (refused_at r) (λ o. o.observation_id) (codes "tcp-")
          (refused_at-HasOne r u.branches) r.observations u.observations
          (All-map _ _ r.observations (λ o k. key-valid b't' (codes "cp-") o.observation_id refl k)
            u.observation_bytes)
          connection_refused (unfold connection_refused in (refused-rounds r r.observations)) in
      let tls : IsQuietRule r hostname_mismatch =
        IsQuietRule-rounds (mismatch_at r) (λ o. o.observation_id) (codes "tls-")
          (mismatch_at-HasOne r u.branches) r.observations u.observations
          (All-map _ _ r.observations (λ o k. key-valid b't' (codes "ls-") o.observation_id refl k)
            u.observation_bytes)
          hostname_mismatch (unfold hostname_mismatch in (mismatch-rounds r r.observations)) in
      All-sort _ less_rule _ (listener, (tcp, (tls, tt)))

-- For evidence of the exact version that the validation accepts, `Evaluate` with the default registry
-- reports nothing before the validation of its result: it hands over a run.
pub evaluate-hands_over :
    (parse_addr : Text → Option Addr) (lib : TextLibrary) (r v : EvidenceRun) (clock : Time)
    → validate_evidence_run lib r ≡ some (accepted v)
    → exact_version r.report_schema_version ≡ true
    → (e : EvaluatedRun) × (evaluate (default_registry parse_addr) r clock
        ≡ Evaluated.handed_over e)
unfolding evaluate select_or_reject compiled
evaluate-hands_over parse_addr lib r v clock valid exact =
    let registry = default_registry parse_addr in
    let bs = r.service_path.branches in
    let rules = default_registry-IsQuietRule r parse_addr (IsUsable-accepted lib r v valid) in
    let cs = sort less_candidate (collect_candidates registry r).0 in
    let run = compiled r clock registry cs in
    let collected : (collect_candidates registry r).1 ≡ [] =
      collect_candidates-quiet r registry rules in
    let plain : All (λ c. IsPlain c.candidate) cs = All-sort _ less_candidate _ (
      collect_candidates-All (λ rule c. IsPlain c) registry r
        (All-map _ _ registry (λ rule q. All-map _ _ (rule.evaluate r) (λ c s. s.0) q.shapes)
          rules)) in
    let made : (findings_made cs).issues ≡ [] = findings_made-quiet cs plain in
    let in_range : All (IsInRange bs) run.findings =
      findings_made-Titled (λ title branches positions. All (IsBelow bs) positions) registry r
        (All-map _ _ registry (λ rule q. All-map _ _ (rule.evaluate r) (λ c s. s.1) q.shapes)
          rules) in
    let applied : (apply run).1 ≡ [] = apply-quiet run in_range in
    ((apply run).0, rw (exact, collected, made, applied, evaluate, select_or_reject) refl)
