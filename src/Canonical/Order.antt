-- ===== src/Canonical/Order.antt =====
-- internal/model/canonicalize.go: the order of the lists of a canonical run.
use route_doc.Common.{
  ◌≡◌, refl, ap, eq_number, text_lt, Bool, List, [], ◌∷◌, Text, sort, map, text_lt-IsAsymmetric,
  IsAsymmetric, count, count-sort, Sorted, Sorted-sort,
}
use mathlib.Core.Path.{subst}
use route_doc.Model.Runs.{EvidenceRun}
use route_doc.Model.Paths.{PathEdge, EvidenceRef}
use route_doc.Model.Visibility.{VantagePoint, VisibilityAssessment}
use route_doc.Model.Checks.{CheckDefinition, CheckExecution}
use route_doc.Model.Observations.{Observation}
use route_doc.Model.Limitations.{Limitation}
use route_doc.Canonical.Compare.{
  less_limitation, sort_limitations, less_evidence_ref, sort_evidence_refs,
}
use route_doc.Canonical.Runs.{
  less_by, sort_by, sort_ids, canonical_vantage, canonical_edge, canonical_definition,
  canonical_execution, canonical_observation, canonical_assessment, canonical_path,
  canonicalize_evidence,
}
use route_doc.Canonical.Asymmetry.{
  less_by-IsAsymmetric, less_limitation-IsAsymmetric, less_evidence_ref-IsAsymmetric,
}

-- The lists are as long as one another and their elements correspond in order.
abbrev pub Pairwise : {A : Type 0} → (A → A → Type 0) → List A → List A → Type 0
Pairwise R [] [] = Unit
Pairwise R (x ∷ xs) (y ∷ ys) = R x y × Pairwise R xs ys
Pairwise R _ _ = ⊥

-- `ys` holds the elements of `xs`, each as often, in the order `less`.
pub record Reordered {A : Type 0} (less : A → A → Bool) (xs ys : List A) : Type 0 where
  pub same_elements : (p : A → Bool) → count p ys ≡ count p xs
  pub in_order : Sorted less ys

-- `ys` holds one element for each of `xs`, related to it by `R`, in the order of their keys.
pub record Arranged {A : Type 0} (key : A → Text) (R : A → A → Type 0) (xs ys : List A)
    : Type 0 where
  pub arranged : List A
  pub made : Pairwise R arranged ys
  pub same_elements : (p : A → Bool) → count p arranged ≡ count p xs
  pub in_order : Sorted (less_by key) ys

Sorted-map :
    {A : Type 0} (key : A → Text) (f : A → A) (xs : List A)
    → ((x : A) → key (f x) ≡ key x)
    → Sorted (less_by key) xs
    → Sorted (less_by key) (map f xs)
unfolding less_by
Sorted-map key f [] k h = tt
Sorted-map key f (x ∷ []) k h = tt
Sorted-map key f (x ∷ y ∷ ys) k (h, rest) = (rw (k x, k y) h, Sorted-map key f (y ∷ ys) k rest)

Pairwise-map :
    {A : Type 0} (R : A → A → Type 0) (f : A → A) (xs : List A)
    → ((x : A) → R x (f x))
    → Pairwise R xs (map f xs)
Pairwise-map R f [] h = tt
Pairwise-map R f (x ∷ xs) h = (h x, Pairwise-map R f xs h)

arrange :
    {A : Type 0} (key : A → Text) (f : A → A) (R : A → A → Type 0) (xs : List A)
    → ((x : A) → key (f x) ≡ key x)
    → ((x : A) → R x (f x))
    → Arranged key R xs (map f (sort_by key xs))
unfolding sort_by
arrange key f R xs k h = record {
  arranged = sort (less_by key) xs;
  made = Pairwise-map R f (sort (less_by key) xs) h;
  same_elements = λ p. count-sort p (less_by key) xs;
  in_order =
      Sorted-map key f (sort (less_by key) xs) k
        (Sorted-sort (less_by key) xs (less_by-IsAsymmetric key));
}

map-id : {A : Type 0} (xs : List A) → map (λ x. x) xs ≡ xs
map-id [] = refl
map-id (x ∷ xs) = ap (λ ys. x ∷ ys) (map-id xs)

-- The entry is the same.
abbrev pub IsSame : {A : Type 0} → A → A → Type 0
IsSame x y = y ≡ x

arrange_as_is :
    {A : Type 0} (key : A → Text) (xs : List A) → Arranged key IsSame xs (sort_by key xs)
arrange_as_is key xs =
    subst (λ ys. Arranged key IsSame xs ys) (map-id (sort_by key xs))
      (arrange key (λ x. x) IsSame xs (λ x. refl) (λ x. refl))

reorder :
    {A : Type 0} (less : A → A → Bool) (xs : List A)
    → IsAsymmetric less
    → Reordered less xs (sort less xs)
reorder less xs a = record {
  same_elements = λ p. count-sort p less xs;
  in_order = Sorted-sort less xs a;
}

-- Each of these says that an entry `y` of the canonical run is the entry `x` of the run but for the
-- order of the lists inside it.
abbrev pub IsVantageOf : VantagePoint → VantagePoint → Type 0
IsVantageOf x y =
    (y ≡ record x { limitations = y.limitations })
    × Reordered less_limitation x.limitations y.limitations

abbrev pub IsEdgeOf : PathEdge → PathEdge → Type 0
IsEdgeOf x y =
    (y ≡ record x { evidence_refs = y.evidence_refs })
    × Reordered less_evidence_ref x.evidence_refs y.evidence_refs

abbrev pub IsDefinitionOf : CheckDefinition → CheckDefinition → Type 0
IsDefinitionOf x y =
    (y ≡ record x {
      dependency_check_ids = y.dependency_check_ids;
      required_capability_ids = y.required_capability_ids;
    })
    × Reordered text_lt x.dependency_check_ids y.dependency_check_ids
    × Reordered text_lt x.required_capability_ids y.required_capability_ids

abbrev pub IsExecutionOf : CheckExecution → CheckExecution → Type 0
IsExecutionOf x y =
    (y ≡ record x {
      observation_ids = y.observation_ids;
      visibility_assessment_ids = y.visibility_assessment_ids;
    })
    × Reordered text_lt x.observation_ids y.observation_ids
    × Reordered text_lt x.visibility_assessment_ids y.visibility_assessment_ids

abbrev pub IsObservationOf : Observation → Observation → Type 0
IsObservationOf x y =
    (y ≡ record x { subject_entity_ids = y.subject_entity_ids; limitations = y.limitations })
    × Reordered text_lt x.subject_entity_ids y.subject_entity_ids
    × Reordered less_limitation x.limitations y.limitations

abbrev pub IsAssessmentOf : VisibilityAssessment → VisibilityAssessment → Type 0
IsAssessmentOf x y =
    (y ≡ record x { basis_observation_ids = y.basis_observation_ids; limitations = y.limitations })
    × Reordered text_lt x.basis_observation_ids y.basis_observation_ids
    × Reordered less_limitation x.limitations y.limitations

-- The lists of the canonical run, but the branches of the service path, hold the entries of the run
-- but for the order inside them, in the order of identifiers, and all else is kept.
pub record ArrangedRun (r c : EvidenceRun) : Type 0 where
  pub vantages : Arranged (λ v. v.vantage_id) IsVantageOf r.vantage_points c.vantage_points
  pub capabilities : Arranged (λ v. v.capability_id) IsSame r.capabilities c.capabilities
  pub assertions : Arranged (λ v. v.assertion_id) IsSame r.operator_assertions c.operator_assertions
  pub entities : Arranged (λ v. v.entity_id) IsSame r.entities c.entities
  pub nodes : Arranged (λ v. v.entity_id) IsSame r.service_path.nodes c.service_path.nodes
  pub edges : Arranged (λ v. v.edge_id) IsEdgeOf r.service_path.edges c.service_path.edges
  pub definitions :
      Arranged (λ v. v.check_id) IsDefinitionOf r.check_definitions c.check_definitions
  pub executions :
      Arranged (λ v. v.execution_id) IsExecutionOf r.check_executions c.check_executions
  pub observations : Arranged (λ v. v.observation_id) IsObservationOf r.observations c.observations
  pub assessments :
      Arranged
        (λ v. v.visibility_id)
        IsAssessmentOf
        r.visibility_assessments
        c.visibility_assessments
  pub limitations : Arranged (λ v. v.limitation_id) IsSame r.limitations c.limitations
  pub others_kept :
      record c {
        vantage_points = r.vantage_points;
        capabilities = r.capabilities;
        operator_assertions = r.operator_assertions;
        entities = r.entities;
        service_path = r.service_path;
        check_definitions = r.check_definitions;
        check_executions = r.check_executions;
        observations = r.observations;
        visibility_assessments = r.visibility_assessments;
        limitations = r.limitations;
      }
      ≡ r

by_text : (xs : List Text) → Reordered text_lt xs (sort_ids xs)
unfolding sort_ids
by_text xs = reorder text_lt xs text_lt-IsAsymmetric

by_limitation : (xs : List Limitation) → Reordered less_limitation xs (sort_limitations xs)
unfolding sort_limitations
by_limitation xs = reorder less_limitation xs less_limitation-IsAsymmetric

by_reference : (xs : List EvidenceRef) → Reordered less_evidence_ref xs (sort_evidence_refs xs)
unfolding sort_evidence_refs
by_reference xs = reorder less_evidence_ref xs less_evidence_ref-IsAsymmetric

pub canonicalize_evidence-ArrangedRun :
    (r : EvidenceRun) → ArrangedRun r (canonicalize_evidence r).0
unfolding canonicalize_evidence canonical_path canonical_vantage canonical_edge canonical_definition
    canonical_execution canonical_observation canonical_assessment
canonicalize_evidence-ArrangedRun r = record {
  vantages =
      arrange _ _ IsVantageOf r.vantage_points (λ x. refl)
        (λ x. (refl, by_limitation x.limitations));
  capabilities = arrange_as_is _ r.capabilities;
  assertions = arrange_as_is _ r.operator_assertions;
  entities = arrange_as_is _ r.entities;
  nodes = arrange_as_is _ r.service_path.nodes;
  edges =
      arrange _ _ IsEdgeOf r.service_path.edges (λ x. refl)
        (λ x. (refl, by_reference x.evidence_refs));
  definitions =
      arrange _ _ IsDefinitionOf r.check_definitions (λ x. refl)
        (λ x. (refl, by_text x.dependency_check_ids, by_text x.required_capability_ids));
  executions =
      arrange _ _ IsExecutionOf r.check_executions (λ x. refl)
        (λ x. (refl, by_text x.observation_ids, by_text x.visibility_assessment_ids));
  observations =
      arrange _ _ IsObservationOf r.observations (λ x. refl)
        (λ x. (refl, by_text x.subject_entity_ids, by_limitation x.limitations));
  assessments =
      arrange _ _ IsAssessmentOf r.visibility_assessments (λ x. refl)
        (λ x. (refl, by_text x.basis_observation_ids, by_limitation x.limitations));
  limitations =
      unfold sort_limitations less_limitation sort_by less_by in arrange_as_is _ r.limitations;
  others_kept = refl;
}
