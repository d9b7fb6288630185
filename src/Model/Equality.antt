-- ===== src/Model/Equality.antt =====
-- `reflect.DeepEqual` on evaluated runs, which `ValidatePersistedEvaluatedRun` of
-- internal/model/validate_evaluated.go calls: it decides whether two runs are equal.
use native.Mathlib.Decide.{ℕ_discrete}
use route_doc.Common.{Bool, Text-discrete, ℤ, same, same_iff, true, ◌≡◌, ◌↔◌}
use route_doc.Model.Limitations.{Limitation, Capability}
use route_doc.Model.Entities.{Entity, Addr}
use route_doc.Model.Paths.{ServicePath}
use route_doc.Model.Visibility.{VantagePoint, VisibilityScope, VisibilityAssessment}
use route_doc.Model.Claims.{Claim, Finding}
use route_doc.Model.Checks.{CheckDefinition, CheckExecution}
use route_doc.Model.Observations.{Observation, Target}
use route_doc.Model.Assertions.{OperatorAssertion}
use route_doc.Model.Runs.{EvaluatedRun, EvidenceRun}

ℤ-discrete : Discrete ℤ
ℤ-discrete = hlevel ℕ_discrete

Limitation-discrete : Discrete Limitation
Limitation-discrete = hlevel Text-discrete

Capability-discrete : Discrete Capability
Capability-discrete = hlevel Text-discrete

Addr-discrete : Discrete Addr
Addr-discrete = hlevel (Text-discrete, ℕ_discrete)

Entity-discrete : Discrete Entity
Entity-discrete = hlevel (Text-discrete, ℕ_discrete, Addr-discrete)

ServicePath-discrete : Discrete ServicePath
ServicePath-discrete = hlevel Text-discrete

VantagePoint-discrete : Discrete VantagePoint
VantagePoint-discrete = hlevel (Text-discrete, ℕ_discrete, Limitation-discrete)

VisibilityScope-discrete : Discrete VisibilityScope
VisibilityScope-discrete = hlevel (Text-discrete, ℕ_discrete)

VisibilityAssessment-discrete : Discrete VisibilityAssessment
VisibilityAssessment-discrete =
    hlevel (Text-discrete, ℕ_discrete, Limitation-discrete, VisibilityScope-discrete)

Claim-discrete : Discrete Claim
Claim-discrete = hlevel (Text-discrete, ℕ_discrete, VisibilityScope-discrete)

Finding-discrete : Discrete Finding
Finding-discrete = hlevel (Text-discrete, ℕ_discrete, Limitation-discrete)

CheckDefinition-discrete : Discrete CheckDefinition
CheckDefinition-discrete = hlevel (Text-discrete, ℕ_discrete, ℤ-discrete)

CheckExecution-discrete : Discrete CheckExecution
CheckExecution-discrete = hlevel (Text-discrete, ℕ_discrete)

Target-discrete : Discrete Target
Target-discrete = hlevel (Text-discrete, ℕ_discrete)

Observation-discrete : Discrete Observation
Observation-discrete =
    hlevel (Text-discrete, ℕ_discrete, ℤ-discrete, Limitation-discrete, Target-discrete)

OperatorAssertion-discrete : Discrete OperatorAssertion
OperatorAssertion-discrete = hlevel (Text-discrete, ℕ_discrete)

EvidenceRun-discrete : Discrete EvidenceRun
EvidenceRun-discrete = hlevel (
  Text-discrete, ℕ_discrete, ℤ-discrete, Limitation-discrete, Capability-discrete, Entity-discrete,
  ServicePath-discrete, VantagePoint-discrete, VisibilityAssessment-discrete,
  CheckDefinition-discrete, CheckExecution-discrete, Target-discrete, Observation-discrete,
  OperatorAssertion-discrete,
)

pub EvaluatedRun-discrete : Discrete EvaluatedRun
EvaluatedRun-discrete =
    hlevel (Text-discrete, ℕ_discrete, EvidenceRun-discrete, Claim-discrete, Finding-discrete)

unfoldable pub deep_equal : EvaluatedRun → EvaluatedRun → Bool
deep_equal = same EvaluatedRun-discrete

pub deep_equal_iff : (r s : EvaluatedRun) → (deep_equal r s ≡ true) ↔ (r ≡ s)
unfolding deep_equal
deep_equal_iff = same_iff EvaluatedRun-discrete
