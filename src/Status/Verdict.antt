-- ===== src/Status/Verdict.antt =====
-- When a report is satisfied and when it is blocked.
use route_doc.Common.{
  ◌≡◌, ◌↔◌, refl, Bool, any_iff, ==_iff, true, false, List, [], ◌∷◌, arith, contains, any,
  any-contains, contains-nil, any-false, all-contains, length, leb, Exists,
}
use route_doc.Model.Ids.{BranchId}
use route_doc.Model.Runs.{EvaluatedRun}
use route_doc.Model.Limitations.{Limitation}
use route_doc.Model.Enums.{
  LimitationCode, LimitationScopeKind, eq_limitation_code, eq_limitation_scope_kind,
}
use route_doc.Branches.{index_branches}
use route_doc.Status.{
  ReportStatus, leaf_branches, passes, reaches_http, is_run_partial, covered, status,
}
use route_doc.Status.Answers.{Answers, IsCutShortOn, reaches_http_iff, cut_short_iff}
use route_doc.Status.HttpLeaves.{IsHttpLeaf, leaf_branches_iff, leaf_branches_ne_nil}
use route_doc.Status.Coverage.{CoversLeaf, covered_iff}

abbrev leaves_of : EvaluatedRun → List BranchId
leaves_of r = leaf_branches r.evidence.service_path.branches

some_leaf :
    (leaves : List BranchId) (leaf : BranchId)
    → contains leaves leaf ≡ true
    → leb (length leaves) 0 ≡ false
some_leaf [] leaf h = cc (h, contains-nil leaf)
some_leaf (l ∷ ls) leaf h = ground arith

-- The leaf has no answer over HTTP, no check of it was cut short by the cap on addresses or a pending
-- probe, and a finding covers it.
pub record IsBlockedLeaf (r : EvaluatedRun) (leaf : BranchId) : Type 0 where
  pub silent : ¬ (Answers r.evidence leaf)
  pub finished : ¬ (Exists (IsCutShortOn leaf) r.evidence.check_executions)
  pub explained :
      Exists (CoversLeaf (index_branches r.evidence.service_path.branches) leaf) r.findings

-- The limitation is one of partial visibility of the whole run.
abbrev pub IsRunPartial : Limitation → Type 0
IsRunPartial l =
    (l.code ≡ LimitationCode.partial_visibility) × (l.scope.kind ≡ LimitationScopeKind.run)

is_run_partial_iff :
    (ls : List Limitation) → (any is_run_partial ls ≡ true) ↔ Exists IsRunPartial ls
unfolding is_run_partial
is_run_partial_iff = any_iff is_run_partial IsRunPartial (λ l.
    let a = ==_iff l.code LimitationCode.partial_visibility in
    let b = ==_iff l.scope.kind LimitationScopeKind.run in
    (λ h. (a.0 (ground arith), b.0 (ground arith)), λ h. ground arith))

-- Of a test that decides a statement, `false` says that it does not hold.
false_iff : {P : Type 0} (b : Bool) → (b ≡ true) ↔ P → (b ≡ false) ↔ (¬ P)
false_iff true h = (λ f. cc, λ n. absurd (n (h.0 refl)))
false_iff false h = (λ f p. cc (h.1 p), λ n. refl)

-- A report is satisfied exactly when some leaf that should answer over HTTP has an HTTP check that
-- completed with a pass and shows a response, and, unless the target is plain HTTP, a check of the
-- certificate that completed with a pass and shows that it was verified; findings play no part.
pub status_satisfied_iff :
    (r : EvaluatedRun)
    → (status r ≡ ReportStatus.satisfied) ↔ (
        (leaf : BranchId) × IsHttpLeaf r.evidence.service_path.branches leaf
        × Answers r.evidence leaf)
unfolding status
status_satisfied_iff r =
    let bs = r.evidence.service_path.branches in
    let found = any-contains (reaches_http r) (leaves_of r) in
    (
      λ h.
          let (leaf, k, a) = found.0 (ground arith) in
          (leaf, (leaf_branches_iff bs leaf).0 k, (reaches_http_iff r leaf).0 a),
      λ (leaf, k, a).
          let k' = (leaf_branches_iff bs leaf).1 k in
          let x = found.1 (leaf, k', (reaches_http_iff r leaf).1 a) in
          let n = some_leaf (leaves_of r) leaf k' in ground arith,
    )

-- A report is blocked exactly when there is a leaf that should answer over HTTP, visibility is not
-- partial for the whole run, and every such leaf has no answer, was not cut short by the cap on
-- addresses or a pending probe, and is covered by a selected observed or inferred blocker: one
-- selected for the run, or for the leaf's branch or a branch above it. A leaf that was cut short
-- thus keeps a report from being blocked even if a blocker is selected for the run.
pub status_blocked_iff :
    (r : EvaluatedRun)
    → (status r ≡ ReportStatus.blocked) ↔ (
        ((leaf : BranchId) × IsHttpLeaf r.evidence.service_path.branches leaf)
        × (¬ (Exists IsRunPartial r.evidence.limitations))
        × ((leaf : BranchId)
            → IsHttpLeaf r.evidence.service_path.branches leaf
            → IsBlockedLeaf r leaf))
unfolding status
status_blocked_iff r =
    let bs = r.evidence.service_path.branches in
    let by_id = index_branches bs in
    let leaves = leaves_of r in
    let is_leaf = leaf_branches_iff bs in
    let silent = any-false (reaches_http r) leaves in
    let finished = any-false (contains (passes r).incomplete) leaves in
    let explained = all-contains (contains (covered by_id leaves r.findings)) leaves in
    let partial = false_iff _ (is_run_partial_iff r.evidence.limitations) in
    let answer = λ (leaf : BranchId). false_iff _ (reaches_http_iff r leaf) in
    let cut = λ (leaf : BranchId). false_iff _ (cut_short_iff r leaf) in
    (
      λ h. (
        (leaf_branches_ne_nil bs).0 (λ e. ground arith),
        partial.0 (ground arith),
        λ leaf l.
            let k = (is_leaf leaf).1 l in
            record {
              silent = (answer leaf).0 (silent.0 (ground arith) leaf k);
              finished = (cut leaf).0 (finished.0 (ground arith) leaf k);
              explained =
                  (covered_iff by_id leaves leaf k r.findings).0
                    (explained.0 (ground arith) leaf k);
            },
      ),
      λ (n, p, b).
          let n' = (leaf_branches_ne_nil bs).1 n in
          let p' = partial.1 p in
          let s = silent.1 (λ leaf k. (answer leaf).1 (b leaf ((is_leaf leaf).0 k)).silent) in
          let f = finished.1 (λ leaf k. (cut leaf).1 (b leaf ((is_leaf leaf).0 k)).finished) in
          let e = explained.1 (λ leaf k.
            (covered_iff by_id leaves leaf k r.findings).1
              (b leaf ((is_leaf leaf).0 k)).explained) in
          ground arith,
    )
