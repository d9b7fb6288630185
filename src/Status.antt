-- ===== src/Status.antt =====
-- internal/clientprobe/status.go: whether a report says that the service is reachable, blocked, or
-- neither.
pub mod Coverage
pub mod Executions
pub mod Tested
pub mod Answers
pub mod HttpLeaves
pub mod Verdict
pub mod Explained
use route_doc.Common.{
  ℕ, suc, Bool, true, false, not, ◌&&◌, ◌||◌, List, [], ◌∷◌, ◌++◌, Option, none, some, Text, codes,
  Table, insert, lookup, index_into, keys, climb, is_hit, any, all, keep, contains, length, leb,
  ◌==◌, eq_text, if◌then◌else◌,
}
use route_doc.Model.Ids.{BranchId, CheckId, ObservationId}
use route_doc.Model.Paths.{Branch}
use route_doc.Model.Claims.{Finding}
use route_doc.Model.Checks.{CheckDefinition, CheckExecution}
use route_doc.Model.Observations.{Observation}
use route_doc.Model.Limitations.{Limitation}
use route_doc.Model.Runs.{EvaluatedRun}
use route_doc.Model.Enums.{
  CheckKind, CheckLifecycle, CheckVerdict, CertificateVerificationResult, GoalKind, LimitationCode,
  LimitationScopeKind, Selection, eq_check_lifecycle, eq_check_verdict,
  eq_certificate_verification_result, eq_goal_kind, eq_limitation_code, eq_limitation_scope_kind,
  eq_selection, http_result_kind_valid,
}
use route_doc.Branches.{index_branches, parent_ids, parent_in}
use route_doc.GlobalPrimary.{is_strong_blocker}

pub data ReportStatus : Type 0 where
  indeterminate satisfied blocked : ReportStatus

abbrev pub address_attempt_cap : Text
address_attempt_cap = codes "address_attempt_cap"

abbrev pub probe_pending : Text
probe_pending = codes "probe_pending"

pub leaves_for_http : List BranchId → List Branch → List BranchId
leaves_for_http children [] = []
leaves_for_http children (b ∷ bs) =
    let rest = leaves_for_http children bs in
    if not (contains children b.branch_id) && (b.goal == GoalKind.http_response)
    then b.branch_id ∷ rest
    else rest

-- The first result of `leafBranches`; the second is `index_branches`.
unfoldable pub leaf_branches : List Branch → List BranchId
unfolding leaves_for_http
leaf_branches bs = leaves_for_http (parent_ids bs) bs

-- The parent of `c`, if it is `candidate`.
unfoldable pub parent_is : Table Branch → BranchId → BranchId → Option (Unit {0})
parent_is by_id candidate c = elim (parent_in by_id c) [
  | none ↦ none
  | some p ↦ if p == candidate then some tt else none
]

-- `isAncestor`; the fuel never runs out.
unfoldable pub is_ancestor : BranchId → BranchId → Table Branch → Bool
is_ancestor candidate leaf by_id =
    is_hit (climb (parent_in by_id) (parent_is by_id candidate) (suc (length (keys by_id))) [] leaf)

-- The keys of the maps `certPass`, `httpPass` and `incomplete`.
pub record Passes : Type 0 where
  pub cert : List BranchId
  pub http : List BranchId
  pub incomplete : List BranchId

unfoldable pub check_kinds : List CheckDefinition → Table CheckKind → Table CheckKind
check_kinds [] m = m
check_kinds (d ∷ ds) m = check_kinds ds (insert d.check_id d.kind m)

-- `o, ok := observations[id]; ok && o.Payload.CertificateVerification != nil && ... == CertVerified`
unfoldable pub is_verified : Table Observation → ObservationId → Bool
is_verified observations id = elim (lookup id observations) [
  | none ↦ false
  | some o ↦ elim o.payload.certificate_verification [
    | none ↦ false
    | some p ↦ p.result == CertificateVerificationResult.verified
  ]
]

unfoldable pub is_http_response : Table Observation → ObservationId → Bool
is_http_response observations id = elim (lookup id observations) [
  | none ↦ false
  | some o ↦ elim o.payload.http [ none ↦ false | some p ↦ http_result_kind_valid p.result_kind ]
]

-- The last part of a round over the executions, by the kind of the check that passed.
pub record_pass : Table Observation → CheckExecution → BranchId → Option CheckKind → Passes → Passes
record_pass observations e branch (some CheckKind.certificate_verification) p =
    if any (is_verified observations) e.observation_ids
    then record p { cert = branch ∷ p.cert }
    else p
record_pass observations e branch (some CheckKind.http) p =
    if any (is_http_response observations) e.observation_ids
    then record p { http = branch ∷ p.http }
    else p
record_pass observations e branch _ p = p

pub is_cut_short : CheckExecution → Bool
is_cut_short e = (e.lifecycle == CheckLifecycle.not_run) && elim e.reason_code [
  | none ↦ false
  | some reason ↦ (reason == address_attempt_cap) || (reason == probe_pending)
]

unfoldable pub scan_execution :
    Table CheckKind → Table Observation → CheckExecution → Passes → Passes
unfolding record_pass is_cut_short
scan_execution kinds observations e p = elim e.branch_id [
  | none ↦ p
  | some branch ↦
      let q : Passes =
        if is_cut_short e then record p { incomplete = branch ∷ p.incomplete } else p in
      if (e.lifecycle == CheckLifecycle.completed) && (e.verdict == CheckVerdict.pass)
      then record_pass observations e branch (lookup e.check_id kinds) q
      else q
]

unfoldable pub scan_executions :
    Table CheckKind → Table Observation → List CheckExecution → Passes → Passes
scan_executions kinds observations [] p = p
scan_executions kinds observations (e ∷ es) p =
    scan_executions kinds observations es (scan_execution kinds observations e p)

unfoldable pub passes : EvaluatedRun → Passes
passes r =
    scan_executions (check_kinds r.evidence.check_definitions [])
      (index_into (λ o. o.observation_id) r.evidence.observations []) r.evidence.check_executions
      (record { cert = []; http = []; incomplete = [] })

unfoldable pub is_run_partial : Limitation → Bool
is_run_partial l =
    (l.code == LimitationCode.partial_visibility) && (l.scope.kind == LimitationScopeKind.run)

-- The leaves that the round for one branch of a finding covers.
unfoldable pub covered_from : Table Branch → List BranchId → List BranchId → List BranchId
covered_from by_id leaves [] = []
covered_from by_id leaves (b ∷ bs) =
    keep (λ leaf. (b == leaf) || is_ancestor b leaf by_id) leaves ++ covered_from by_id leaves bs

-- The leaves that the round for one finding covers.
unfoldable pub covered_by : Table Branch → List BranchId → Finding → List BranchId
covered_by by_id leaves f =
    if not (is_strong_blocker f)
    then []
    else if f.selection == Selection.global_primary
    then leaves
    else if not (f.selection == Selection.branch_primary)
    then []
    else covered_from by_id leaves f.branch_ids

-- The keys of the map `covered`.
unfoldable pub covered : Table Branch → List BranchId → List Finding → List BranchId
covered by_id leaves [] = []
covered by_id leaves (f ∷ fs) = covered_by by_id leaves f ++ covered by_id leaves fs

unfoldable pub reaches_http : EvaluatedRun → BranchId → Bool
reaches_http r leaf =
    contains (passes r).http leaf
    && ((r.evidence.target.scheme == codes "http") || contains (passes r).cert leaf)

unfoldable pub status : EvaluatedRun → ReportStatus
status r =
    let bs = r.evidence.service_path.branches in
    let leaves = leaf_branches bs in
    if leb (length leaves) 0
    then ReportStatus.indeterminate
    else if any (reaches_http r) leaves
    then ReportStatus.satisfied
    else if any is_run_partial r.evidence.limitations
    then ReportStatus.indeterminate
    else if any (contains (passes r).incomplete) leaves
    then ReportStatus.indeterminate
    else if all (contains (covered (index_branches bs) leaves r.findings)) leaves
    then ReportStatus.blocked
    else ReportStatus.indeterminate
