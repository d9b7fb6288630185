-- ===== src/Rules/Default/Absence.antt =====
-- The claims that no listener is visible in what `Evaluate` makes with the registry of
-- internal/rules/default_registry.go, against the validation of evaluated runs.
use route_doc.Common.{
  ℕ, ◌≡◌, List, [], ◌∷◌, Option, some, Text, All, All-append, All-map, All-sort, All-members, any,
  Bool-cases, Option-cases, inl, inr,
}
use route_doc.Model.Ids.{Time}
use route_doc.Model.Entities.{Addr}
use route_doc.Model.Claims.{Claim}
use route_doc.Model.Observations.{Observation}
use route_doc.Model.Runs.{EvidenceRun, EvaluatedRun}
use route_doc.Model.Enums.{ClaimStatementCode, TcpResult}
use route_doc.Rules.Compile.{claim_from}
use route_doc.Rules.Evaluate.{Evaluated, evaluate}
use route_doc.Rules.Laws.{evaluate-IsEvaluation}
use route_doc.Rules.Provenance.{Makes, MakesAll, evaluate-All}
use route_doc.Rules.Registry.{less_rule, new_registry}
use route_doc.Rules.Default.{default_registry}
use route_doc.Rules.Listener.{no_matching_listener_visible}
use route_doc.Rules.Listener.Accepted.{no_matching_listener-accepted}
use route_doc.Rules.Tcp.{
  tcp_with, accepts, refused_candidate, refused_at, refused_rounds, connection_refused,
}
use route_doc.Rules.Tls.{
  verification_of, is_mismatch_claim, mismatch_candidate, mismatch_at, mismatch_rounds,
  hostname_mismatch,
}
use route_doc.Validation.Texts.{TextLibrary}
use route_doc.Validation.Shared.Loops.{NoRepeat}
use route_doc.Validation.Evidence.{accepted, validate_evidence_run}
use route_doc.Validation.Evidence.Sound.{accepted_evidence-IsSoundEvidence}
use route_doc.Validation.AbsenceClaims.{validate_listener_absence_claim}

-- A claim that no listener is visible passes the validation in every run with the evidence.
abbrev IsQuiet : EvidenceRun → Claim → Type 0
IsQuiet r c =
    c.statement_code ≡ ClaimStatementCode.no_matching_listener_visible
    → (run : EvaluatedRun) (i : ℕ) → run.evidence ≡ r
    → validate_listener_absence_claim run i c ≡ []

module _ (r : EvidenceRun) where
  refused_at-Makes :
      (o : Observation) → All (Makes (IsQuiet r) connection_refused.id) (refused_at r o)
  unfolding refused_at refused_candidate claim_from
  refused_at-Makes o = elim (Option-cases (tcp_with TcpResult.refused o)) [
    | inl n ↦ rw (n, refused_at) tt
    | inr ((p, v), n) ↦ elim (Bool-cases (any (accepts p.endpoint_entity_id v) r.observations)) [
      | inl e ↦ rw (n, e, refused_at) tt
      | inr e ↦ rw (n, e, refused_at) ((λ id local code. cc, tt), tt)
    ]
  ]

  refused_rounds-Makes :
      (os : List Observation) → All (Makes (IsQuiet r) connection_refused.id) (refused_rounds r os)
  unfolding refused_rounds
  refused_rounds-Makes [] = tt
  refused_rounds-Makes (o ∷ os) = All-append _ _ _ (refused_at-Makes o) (refused_rounds-Makes os)

  mismatch_at-Makes :
      (o : Observation) → All (Makes (IsQuiet r) hostname_mismatch.id) (mismatch_at r o)
  unfolding mismatch_at mismatch_candidate claim_from
  mismatch_at-Makes o = elim (Option-cases (verification_of o)) [
    | inl n ↦ rw (n, mismatch_at) tt
    | inr (p, n) ↦ elim (Bool-cases (is_mismatch_claim p)) [
      | inl e ↦ rw (n, e, mismatch_at) ((λ id local code. cc, tt), tt)
      | inr e ↦ rw (n, e, mismatch_at) tt
    ]
  ]

  mismatch_rounds-Makes :
      (os : List Observation) → All (Makes (IsQuiet r) hostname_mismatch.id) (mismatch_rounds r os)
  unfolding mismatch_rounds
  mismatch_rounds-Makes [] = tt
  mismatch_rounds-Makes (o ∷ os) = All-append _ _ _ (mismatch_at-Makes o) (mismatch_rounds-Makes os)

default_registry-MakesAll :
    (parse_addr : Text → Option Addr) (r : EvidenceRun)
    → NoRepeat (λ v. v.visibility_id) r.visibility_assessments
    → All (MakesAll (IsQuiet r) r) (default_registry parse_addr)
unfolding default_registry new_registry
default_registry-MakesAll parse_addr r distinct =
    let listener : MakesAll (IsQuiet r) r (no_matching_listener_visible parse_addr) =
      All-members _ _ (λ c m.
        All-map _ _ c.claims (λ t quiet id local code run i same. quiet _ id local run i same)
          (no_matching_listener-accepted parse_addr r c distinct m)) in
    let tcp : MakesAll (IsQuiet r) r connection_refused =
      unfold connection_refused in (refused_rounds-Makes r r.observations) in
    let tls : MakesAll (IsQuiet r) r hostname_mismatch =
      unfold hostname_mismatch in (mismatch_rounds-Makes r r.observations) in
    All-sort _ less_rule _ (listener, (tcp, (tls, tt)))

-- For evidence that the validation accepts, every claim that no listener is visible of the run that
-- `Evaluate` hands over with the default registry passes `validateListenerAbsenceClaim`.
pub evaluate-absence_accepted :
    (parse_addr : Text → Option Addr) (lib : TextLibrary) (r v : EvidenceRun) (clock : Time)
    → (e : EvaluatedRun) → validate_evidence_run lib r ≡ some (accepted v)
    → evaluate (default_registry parse_addr) r clock ≡ Evaluated.handed_over e
    → All
        (λ c.
          c.statement_code ≡ ClaimStatementCode.no_matching_listener_visible
          → (i : ℕ) → validate_listener_absence_claim e i c ≡ [])
        e.claims
evaluate-absence_accepted parse_addr lib r v clock e valid made =
    let sound = accepted_evidence-IsSoundEvidence lib r v valid in
    let same = (evaluate-IsEvaluation (default_registry parse_addr) r clock e made).evidence in
    All-map (IsQuiet r) _ e.claims (λ c quiet code i. quiet code e i same)
      (evaluate-All (IsQuiet r) (default_registry parse_addr) r clock e made
        (default_registry-MakesAll parse_addr r sound.distinct.assessments))
