-- ===== src/GlobalPrimary/Validation.antt =====
-- What `validate_selection` accepts.
use route_doc.Common.{
  ℕ, ◌+◌, ◌≤◌, ◌≡◌, ◌≢◌, ◌↔◌, refl, true, List, [], ◌∷◌, ◌++◌, arith, All, ltb, ◌==◌, ==_iff,
  if◌then◌else◌, Bool-cases, inl, inr,
}
use route_doc.Model.Paths.{Branch}
use route_doc.Model.Claims.{Finding}
use route_doc.Model.Runs.{EvaluatedRun}
use route_doc.Model.Issues.{ValidationIssue}
use route_doc.Model.Enums.{Selection, eq_selection}
use route_doc.GlobalPrimary.{
  global_primary_proof, global_loop, global_missing, many_globals, validate_selection,
}

unfoldable pub global_count : List Finding → ℕ
global_count [] = 0
global_count (f ∷ fs) = (if f.selection == Selection.global_primary then 1 else 0) + global_count fs

-- A finding that is the primary one of the run has the proof for it.
abbrev pub IsProved : List Branch → Finding → Type 0
IsProved bs f = f.selection ≡ Selection.global_primary → global_primary_proof f bs ≡ true

append-cons-ne-nil : (is : List ValidationIssue) (x : ValidationIssue) → is ++ x ∷ [] ≢ []
append-cons-ne-nil [] x h = cc
append-cons-ne-nil (i ∷ is) x h = cc

global_loop_count :
    (bs : List Branch) (i : ℕ) (fs : List Finding) (global : ℕ) (is : List ValidationIssue)
    → (global_loop bs i fs global is).1 ≡ global + global_count fs
unfolding global_loop global_count
global_loop_count bs i [] global is = omega arith
global_loop_count bs i (f ∷ fs) global is =
    let grown = if global_primary_proof f bs then is else is ++ global_missing i ∷ [] in
    ground (
      arith,
      global_loop_count bs (i + 1) fs (global + 1) grown,
      global_loop_count bs (i + 1) fs global is,
    )

global_loop_issues :
    (bs : List Branch) (i : ℕ) (fs : List Finding) (global : ℕ) (is : List ValidationIssue)
    → ((global_loop bs i fs global is).0 ≡ []) ↔ ((is ≡ []) × All (IsProved bs) fs)
unfolding global_loop
global_loop_issues bs i [] global is = (λ h. (h, tt), λ h. h.0)
global_loop_issues bs i (f ∷ fs) global is =
    elim (Bool-cases (f.selection == Selection.global_primary)) [
      | inl e ↦
          let chosen = (==_iff f.selection Selection.global_primary).0 e in
          elim (Bool-cases (global_primary_proof f bs)) [
            | inl p ↦
                let rest = global_loop_issues bs (i + 1) fs (global + 1) is in
                rw (e, global_loop, p)
                  (λ h. ((rest.0 h).0, (λ _. refl, (rest.0 h).1)), λ h. rest.1 (h.0, h.1.1))
            | inr p ↦
                let rest =
                  global_loop_issues bs (i + 1) fs (global + 1) (is ++ global_missing i ∷ []) in
                rw (e, global_loop, p)
                  (
                    λ h. absurd (append-cons-ne-nil is (global_missing i) (rest.0 h).0),
                    λ h. absurd (cc (h.1.0 chosen)),
                  )
          ]
      | inr e ↦
          let rest = global_loop_issues bs (i + 1) fs global is in
          let other : f.selection ≢ Selection.global_primary =
            λ q. cc ((==_iff f.selection Selection.global_primary).1 q, e) in
          rw (e, global_loop)
            (λ h. ((rest.0 h).0, (λ q. absurd (other q), (rest.0 h).1)), λ h. rest.1 (h.0, h.1.1))
    ]

-- The validation of the selection reports nothing exactly when at most one finding is the primary
-- one of the run and each such finding has the proof for it.
pub validate_selection_iff :
    (r : EvaluatedRun)
    → (validate_selection r ≡ [])
      ↔ ((global_count r.findings ≤ 1) × All (IsProved r.evidence.service_path.branches) r.findings)
unfolding validate_selection
validate_selection_iff r =
    let bs = r.evidence.service_path.branches in
    let many = global_loop_count bs 0 r.findings 0 [] in
    let rest = global_loop_issues bs 0 r.findings 0 [] in
    elim (Bool-cases (ltb 1 (global_loop bs 0 r.findings 0 []).1)) [
      | inl e ↦ rw e (
        λ h. absurd (append-cons-ne-nil (global_loop bs 0 r.findings 0 []).0 many_globals h),
        λ h. absurd (ground arith),
      )
      | inr e ↦ rw e (λ h. (ground arith, (rest.0 h).1), λ h. rest.1 (refl, h.1))
    ]
