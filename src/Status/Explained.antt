-- ===== src/Status/Explained.antt =====
-- The selection and the status together: a primary finding of the run explains every leaf.
use route_doc.Common.{Table, ◌≡◌, ◌≢◌, List, [], ◌∷◌, inl, All, Exists, now, later}
use route_doc.Model.Ids.{BranchId}
use route_doc.Model.Paths.{Branch}
use route_doc.Model.Claims.{Finding}
use route_doc.Model.Runs.{EvaluatedRun}
use route_doc.Model.Enums.{Selection}
use route_doc.Branches.{index_branches}
use route_doc.Selection.Apply.{apply}
use route_doc.Selection.Invariant.{IsEligible}
use route_doc.Selection.Laws.{apply_selects_strong}
use route_doc.Status.{ReportStatus, status}
use route_doc.Status.Answers.{Answers, IsCutShortOn}
use route_doc.Status.HttpLeaves.{IsHttpLeaf}
use route_doc.Status.Coverage.{CoversLeaf}
use route_doc.Status.Verdict.{IsRunPartial, status_blocked_iff}

-- The leaf has no answer over HTTP, and no check of it was cut short.
pub record IsSilent (r : EvaluatedRun) (leaf : BranchId) : Type 0 where
  pub silent : ¬ (Answers r.evidence leaf)
  pub finished : ¬ (Exists (IsCutShortOn leaf) r.evidence.check_executions)

covering :
    (by_id : Table Branch) (leaf : BranchId) (fs : List Finding)
    → All (λ f. f.selection ≢ Selection.none → IsEligible f) fs
    → Exists (λ f. f.selection ≡ Selection.global_primary) fs
    → Exists (CoversLeaf by_id leaf) fs
covering by_id leaf [] h e = elim e [ ]
covering by_id leaf (f ∷ fs) (h, hs) (now g) =
    now (record { strong = (h (λ n. cc (g, n))).0; chosen = inl g })
covering by_id leaf (f ∷ fs) (h, hs) (later e) = later (covering by_id leaf fs hs e)

-- A run that has a leaf that should answer over HTTP, in which no such leaf has an answer or was cut
-- short, and which is not partial as a whole, is blocked once the selection has chosen a primary
-- finding of the run.
pub status-apply :
    (r : EvaluatedRun)
    → (leaf : BranchId) × IsHttpLeaf r.evidence.service_path.branches leaf
    → ¬ (Exists IsRunPartial r.evidence.limitations)
    → ((leaf : BranchId) → IsHttpLeaf r.evidence.service_path.branches leaf → IsSilent r leaf)
    → Exists (λ f. f.selection ≡ Selection.global_primary) (apply r).0.findings
    → status (apply r).0 ≡ ReportStatus.blocked
unfolding apply
status-apply r some_leaf complete silent global = (status_blocked_iff (apply r).0).1 (
  some_leaf,
  complete,
  λ leaf k. record {
    silent = (silent leaf k).silent;
    finished = (silent leaf k).finished;
    explained =
        covering (index_branches r.evidence.service_path.branches) leaf (apply r).0.findings
          (apply_selects_strong r) global;
  },
)
