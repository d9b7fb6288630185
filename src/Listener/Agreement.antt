-- ===== src/Listener/Agreement.antt =====
-- internal/model/listener_absence.go: the code that is reported for absence evidence agrees with the
-- test that the listener rule applies.
use route_doc.Common.{
  ℕ, ◌≡◌, ◌↔◌, ◌≢◌, inl, inr, Bool, true, false, not, ◌&&◌, [], List, ◌∷◌, Option, none, some,
  arith, Bool-cases, Option-cases, refl, lookup, ◌==◌, codes, eq_text,
}
use route_doc.Model.Ids.{ObservationId}
use route_doc.Model.Visibility.{ListenerVisibilityScope, VisibilityAssessment}
use route_doc.Model.Observations.{Observation}
use route_doc.Model.Runs.{EvidenceRun}
use route_doc.Model.Issues.{ValidationCode}
use route_doc.Model.Enums.{ObservationKind, eq_observation_kind}
use route_doc.Listener.{Basis, collect, usable, collect_basis, observations_by_id, vantage_is}
use route_doc.Listener.Complete.{
  basis_result_issue, basis_loop_issue, basis_issue_code, complete_for, empty_basis,
  listener_visibility_complete, is_listener_assessment,
}
use route_doc.Listener.Absence.{absence_evidence_valid, absence_evidence_issue_code, is_mismatch}

module _ (r : EvidenceRun) (v : VisibilityAssessment) (s : ListenerVisibilityScope) where
  -- A result that the completeness loop takes has no issue.
  taken_result :
      (o : Observation) (b c : Basis)
      → v.scope.listener ≡ some s
      → usable r v o ≡ true
      → (o.kind == ObservationKind.listener_inventory_result) ≡ true
      → collect s o b ≡ some c
      → basis_result_issue r v o ≡ none
  unfolding usable collect basis_result_issue
  taken_result o b c e u k h = ground arith

  usable-vantage_is :
      (o : Observation) → usable r v o ≡ true → vantage_is o.vantage_id v.vantage_id ≡ true
  unfolding usable
  usable-vantage_is o u = ground arith

  collected :
      (ids : List ObservationId) (b c : Basis) (has_result same_vantage : Bool)
      → v.scope.listener ≡ some s
      → collect_basis r v s ids b ≡ some c
      → (has_result && not same_vantage) ≡ false
      → is_mismatch (basis_loop_issue r v has_result same_vantage ids) ≡ false
  unfolding collect_basis basis_loop_issue is_mismatch
  collected [] b c hr sv e h k = ground arith
  collected (id ∷ ids) b c hr sv e h k =
      elim (Option-cases (lookup id (observations_by_id r.observations))) [
        | inl n ↦ ground arith
        | inr (o, n) ↦ elim (Bool-cases (usable r v o)) [
          | inl u ↦ elim (Option-cases (collect s o (record b { seen = id ∷ b.seen }))) [
            | inl m ↦ ground arith
            | inr (d, m) ↦
                let rest : collect_basis r v s ids d ≡ some c = ground arith in
                let same = usable-vantage_is o u in
                elim (Bool-cases (o.kind == ObservationKind.listener_inventory_result)) [
                  | inl q ↦
                      rw (n, q, same, taken_result o _ d e u q m, basis_loop_issue)
                        (collected ids d c true true e rest (ground arith))
                  | inr q ↦ rw (n, q, basis_loop_issue) (collected ids d c hr sv e rest k)
                ]
          ]
          | inr u ↦ ground arith
        ]
      ]

  mismatch_complete :
      v.scope.listener ≡ some s
      → complete_for r v s ≡ true
      → is_mismatch (basis_issue_code r v) ≡ false
  unfolding complete_for basis_issue_code is_mismatch
  mismatch_complete e h =
      elim (Option-cases (collect_basis r v s v.basis_observation_ids empty_basis)) [
        | inl n ↦ ground arith
        | inr (c, n) ↦
            let k = collected v.basis_observation_ids empty_basis c false false e n refl in
            ground arith
      ]

mismatch-ne-none : (c : Option ValidationCode) → is_mismatch c ≡ true → c ≢ none
unfolding is_mismatch
mismatch-ne-none none h e = cc
mismatch-ne-none (some c) h e = cc

pub complete_scope :
    (r : EvidenceRun) (v : VisibilityAssessment) (s : ListenerVisibilityScope)
    → v.scope.listener ≡ some s
    → listener_visibility_complete r v ≡ complete_for r v s
unfolding listener_visibility_complete
complete_scope r v s e = ground arith

complete_kind :
    (r : EvidenceRun) (v : VisibilityAssessment) (s : ListenerVisibilityScope)
    → complete_for r v s ≡ true
    → (v.scope.kind == codes "LISTENER") ≡ true
unfolding complete_for is_listener_assessment
complete_kind r v s h = ground arith

-- No code is reported for the absence evidence of an assessment exactly when the evidence is valid
-- for the listener rule. This holds for every run, assessment and port.
pub absence_evidence_issue_code_iff :
    (r : EvidenceRun) (v : VisibilityAssessment) (target_port : ℕ)
    → (absence_evidence_issue_code r v target_port ≡ none)
      ↔ (absence_evidence_valid r v target_port ≡ true)
unfolding absence_evidence_valid absence_evidence_issue_code
absence_evidence_issue_code_iff r v t = elim (Option-cases v.scope.listener) [
  | inl n ↦ ground arith
  | inr (s, n) ↦
      let c = complete_scope r v s n in
      let k = complete_kind r v s in
      let m = mismatch_complete r v s n in
      let some_code = mismatch-ne-none (basis_issue_code r v) in ground arith
]
