-- ===== src/Canonical/Ordered.antt =====
-- What `CanonicalizeEvaluated` of internal/model/canonicalize.go gives: a run whose lists are in order.
use route_doc.Common.{
  ◌≡◌, refl, ◌∙◌, Bool, List, [], ◌∷◌, Text, All, map, text_lt, text_lt-IsAsymmetric, Sorted,
  Sorted-sort,
}
use route_doc.Model.Paths.{Branch}
use route_doc.Model.Claims.{Claim, Finding}
use route_doc.Model.Runs.{EvidenceRun, EvaluatedRun}
use route_doc.Canonical.Compare.{
  less_limitation, less_evidence_ref, sort_limitations, sort_evidence_refs,
}
use route_doc.Canonical.Runs.{
  less_by, sort_ids, less_branch_index, canonical_claim, canonical_finding, canonicalize_evidence,
  canonicalize_evaluated,
}
use route_doc.Canonical.Order.{Pairwise, Arranged, canonicalize_evidence-ArrangedRun}
use route_doc.Canonical.Asymmetry.{
  less_limitation-IsAsymmetric, less_evidence_ref-IsAsymmetric, less_branch_index-IsAsymmetric,
  less_claim_id, less_finding_id, less_claim_id-IsAsymmetric, less_finding_id-IsAsymmetric,
}

-- The list is in the order of the keys, and `P` holds of its entries.
pub record IsOrdered {A : Type 0} (key : A → Text) (P : A → Type 0) (xs : List A) : Type 0 where
  pub in_order : Sorted (less_by key) xs
  pub entries : All P xs

abbrev IsAny : {A : Type 0} → A → Type 0
IsAny x = Unit {0}

-- The lists of the evidence are in order, and so are those inside their entries.
pub record IsOrderedEvidence (r : EvidenceRun) : Type 0 where
  pub vantages :
      IsOrdered (λ v. v.vantage_id) (λ v. Sorted less_limitation v.limitations) r.vantage_points
  pub capabilities : IsOrdered (λ v. v.capability_id) IsAny r.capabilities
  pub assertions : IsOrdered (λ v. v.assertion_id) IsAny r.operator_assertions
  pub entities : IsOrdered (λ v. v.entity_id) IsAny r.entities
  pub nodes : IsOrdered (λ v. v.entity_id) IsAny r.service_path.nodes
  pub edges :
      IsOrdered
        (λ v. v.edge_id)
        (λ e. Sorted less_evidence_ref e.evidence_refs)
        r.service_path.edges
  pub definitions :
      IsOrdered
        (λ v. v.check_id)
        (λ d. Sorted text_lt d.dependency_check_ids × Sorted text_lt d.required_capability_ids)
        r.check_definitions
  pub executions :
      IsOrdered
        (λ v. v.execution_id)
        (λ e. Sorted text_lt e.observation_ids × Sorted text_lt e.visibility_assessment_ids)
        r.check_executions
  pub observations :
      IsOrdered
        (λ v. v.observation_id)
        (λ o. Sorted text_lt o.subject_entity_ids × Sorted less_limitation o.limitations)
        r.observations
  pub assessments :
      IsOrdered
        (λ v. v.visibility_id)
        (λ v. Sorted text_lt v.basis_observation_ids × Sorted less_limitation v.limitations)
        r.visibility_assessments
  pub limitations : Sorted less_limitation r.limitations

-- The lists of the claim are in order, its branches in that of the service path.
pub record IsOrderedClaim (branches : List Branch) (c : Claim) : Type 0 where
  pub subjects : Sorted text_lt c.subject_entity_ids
  pub on_branches : Sorted (less_branch_index branches) c.branch_ids
  pub supporting : Sorted less_evidence_ref c.supporting_evidence
  pub contradicting : Sorted less_evidence_ref c.contradicting_evidence

pub record IsOrderedFinding (branches : List Branch) (f : Finding) : Type 0 where
  pub on_branches : Sorted (less_branch_index branches) f.branch_ids
  pub positions :
      Sorted (λ a b. less_branch_index branches a.branch_id b.branch_id) f.path_positions
  pub claims : Sorted less_claim_id f.claim_ids
  pub limitations : Sorted less_limitation f.limitations

pub record IsOrderedRun (r : EvaluatedRun) : Type 0 where
  pub evidence : IsOrderedEvidence r.evidence
  pub claim_order : Sorted (λ a b. less_claim_id a.claim_id b.claim_id) r.claims
  pub claims : All (IsOrderedClaim r.evidence.service_path.branches) r.claims
  pub finding_order : Sorted (λ a b. less_finding_id a.finding_id b.finding_id) r.findings
  pub findings : All (IsOrderedFinding r.evidence.service_path.branches) r.findings

Pairwise-All :
    {A : Type 0} (R : A → A → Type 0) (P : A → Type 0) (xs ys : List A)
    → ((x y : A) → R x y → P y)
    → Pairwise R xs ys
    → All P ys
Pairwise-All R P [] [] h p = tt
Pairwise-All R P [] (y ∷ ys) h p = absurd p
Pairwise-All R P (x ∷ xs) [] h p = absurd p
Pairwise-All R P (x ∷ xs) (y ∷ ys) h (r, p) = (h x y r, Pairwise-All R P xs ys h p)

ordered :
    {A : Type 0} {key : A → Text} {R : A → A → Type 0} {xs ys : List A} (P : A → Type 0)
    → ((x y : A) → R x y → P y)
    → Arranged key R xs ys
    → IsOrdered key P ys
ordered P h a = record { in_order = a.in_order; entries = Pairwise-All _ P a.arranged _ h a.made }

All-made :
    {A : Type 0} (P : A → Type 0) (f : A → A) (xs : List A) → ((x : A) → P (f x)) → All P (map f xs)
All-made P f [] h = tt
All-made P f (x ∷ xs) h = (h x, All-made P f xs h)

canonicalize_evidence-IsOrdered : (r : EvidenceRun) → IsOrderedEvidence (canonicalize_evidence r).0
canonicalize_evidence-IsOrdered r =
    let a = canonicalize_evidence-ArrangedRun r in
    record {
      vantages = ordered _ (λ x y h. h.1.in_order) a.vantages;
      capabilities = ordered _ (λ x y h. tt) a.capabilities;
      assertions = ordered _ (λ x y h. tt) a.assertions;
      entities = ordered _ (λ x y h. tt) a.entities;
      nodes = ordered _ (λ x y h. tt) a.nodes;
      edges = ordered _ (λ x y h. h.1.in_order) a.edges;
      definitions = ordered _ (λ x y (s, p, q). (p.in_order, q.in_order)) a.definitions;
      executions = ordered _ (λ x y (s, p, q). (p.in_order, q.in_order)) a.executions;
      observations = ordered _ (λ x y (s, p, q). (p.in_order, q.in_order)) a.observations;
      assessments = ordered _ (λ x y (s, p, q). (p.in_order, q.in_order)) a.assessments;
      limitations = unfold less_by less_limitation in a.limitations.in_order;
    }

-- Changing what the order does not read leaves a list in order.
Sorted-made :
    {A : Type 0} (less : A → A → Bool) (f : A → A) (xs : List A)
    → ((x y : A) → less (f x) (f y) ≡ less x y)
    → Sorted less xs
    → Sorted less (map f xs)
Sorted-made less f [] k h = tt
Sorted-made less f (x ∷ []) k h = tt
Sorted-made less f (x ∷ y ∷ ys) k (h, rest) = (k y x ∙ h, Sorted-made less f (y ∷ ys) k rest)

-- The canonical form of a run has its lists in order.
pub canonicalize_evaluated-IsOrderedRun :
    (r : EvaluatedRun) → IsOrderedRun (canonicalize_evaluated r).0
unfolding canonicalize_evaluated canonical_claim canonical_finding sort_limitations
canonicalize_evaluated-IsOrderedRun r =
    let branches = (canonicalize_evidence r.evidence).0.service_path.branches in
    let by_branch = less_branch_index-IsAsymmetric branches in
    let first = canonicalize_evidence-IsOrdered r.evidence in
    record {
      evidence = record {
        vantages = first.vantages;
        capabilities = first.capabilities;
        assertions = first.assertions;
        entities = first.entities;
        nodes = first.nodes;
        edges = first.edges;
        definitions = first.definitions;
        executions = first.executions;
        observations = first.observations;
        assessments = first.assessments;
        limitations =
            Sorted-sort less_limitation (canonicalize_evidence r.evidence).0.limitations
              less_limitation-IsAsymmetric;
      };
      claim_order =
          Sorted-made _ (canonical_claim branches) _ (λ x y. refl)
            (Sorted-sort (λ a b. less_claim_id a.claim_id b.claim_id) r.claims
              (λ a b. less_claim_id-IsAsymmetric a.claim_id b.claim_id));
      finding_order =
          Sorted-made _ (canonical_finding branches) _ (λ x y. refl)
            (Sorted-sort (λ a b. less_finding_id a.finding_id b.finding_id) r.findings
              (λ a b. less_finding_id-IsAsymmetric a.finding_id b.finding_id));
      claims = All-made (IsOrderedClaim branches) (canonical_claim branches) _ (λ c. record {
        subjects = unfold sort_ids in Sorted-sort text_lt c.subject_entity_ids text_lt-IsAsymmetric;
        on_branches = Sorted-sort (less_branch_index branches) c.branch_ids by_branch;
        supporting =
            unfold sort_evidence_refs in
            Sorted-sort less_evidence_ref c.supporting_evidence less_evidence_ref-IsAsymmetric;
        contradicting =
            unfold sort_evidence_refs in
            Sorted-sort less_evidence_ref c.contradicting_evidence less_evidence_ref-IsAsymmetric;
      });
      findings = All-made (IsOrderedFinding branches) (canonical_finding branches) _ (λ f. record {
        on_branches = Sorted-sort (less_branch_index branches) f.branch_ids by_branch;
        positions =
            Sorted-sort (λ a b. less_branch_index branches a.branch_id b.branch_id) f.path_positions
              (λ a b. by_branch a.branch_id b.branch_id);
        claims = Sorted-sort less_claim_id f.claim_ids less_claim_id-IsAsymmetric;
        limitations = Sorted-sort less_limitation f.limitations less_limitation-IsAsymmetric;
      });
    }
