-- ===== src/Listener/Meaning.antt =====
-- internal/model/listener_absence.go: what valid absence evidence says.
use route_doc.Common.{
  ℕ, ◌≤◌, ◌≡◌, inl, inr, Bool, true, false, [], List, ◌∷◌, some, arith, Bool-cases, Option-cases,
  refl, lookup, length, any-none, ◌==◌, ==_iff, eq_number, All, All-map, Exists, now, later,
}
use route_doc.Model.Ids.{ObservationId}
use route_doc.Model.Visibility.{ListenerVisibilityScope, VisibilityAssessment}
use route_doc.Model.Observations.{Observation, ListenerInventoryEntry, ListenerInventoryResult}
use route_doc.Model.Runs.{EvidenceRun}
use route_doc.Model.Enums.{ObservationKind, eq_observation_kind}
use route_doc.Listener.{
  Basis, collect, usable, collect_basis, observations_by_id, vantage_is, result_matches,
  result_class, entry_class,
}
use route_doc.Listener.Times.{time_coherent}
use route_doc.Listener.Complete.{complete_for, empty_basis}
use route_doc.Listener.Agreement.{complete_scope}
use route_doc.Listener.Absence.{
  absence_evidence_valid, zero_results, has_only_zero_results, outside_scope, contradicts,
  tells_of_listener,
}

-- A completed inventory of the basis: taken from the assessment's vantage at the time of the
-- assessment, of the scope's socket class, over at least the scope's ports, with no listener.
pub record EmptyInventory (r : EvidenceRun) (v : VisibilityAssessment) (s : ListenerVisibilityScope)
    (id : ObservationId) : Type 0 where
  pub observation : Observation
  pub result : ListenerInventoryResult
  pub recorded : lookup id (observations_by_id r.observations) ≡ some observation
  pub same_vantage : vantage_is observation.vantage_id v.vantage_id ≡ true
  pub unlimited : length observation.limitations ≡ 0
  pub coherent : time_coherent r.policy observation.observed_at v.assessed_at ≡ true
  pub carries : observation.payload.listener_inventory_result ≡ some result
  pub same_class : result_class result s ≡ true
  pub from_start : result.port_start ≤ s.port_start
  pub to_end : s.port_end ≤ result.port_end
  pub no_listener : result.matching_listener_count ≡ 0

-- The observation records a listener of the scope's socket class on the port, seen from the
-- assessment's vantage at the time of the assessment.
pub record ListensOn (r : EvidenceRun) (v : VisibilityAssessment) (s : ListenerVisibilityScope)
    (port : ℕ) (o : Observation) : Type 0 where
  pub entry : ListenerInventoryEntry
  pub kind : o.kind ≡ ObservationKind.listener_inventory_entry
  pub same_vantage : vantage_is o.vantage_id v.vantage_id ≡ true
  pub coherent : time_coherent r.policy o.observed_at v.assessed_at ≡ true
  pub carries : o.payload.listener ≡ some entry
  pub same_class : entry_class entry s ≡ true
  pub on_port : entry.port ≡ port

module _ (r : EvidenceRun) (v : VisibilityAssessment) (s : ListenerVisibilityScope) where
  empty_inventory :
      (id : ObservationId) (o : Observation) (p : ListenerInventoryResult) (b c : Basis)
      → lookup id (observations_by_id r.observations) ≡ some o
      → usable r v o ≡ true
      → (o.kind == ObservationKind.listener_inventory_result) ≡ true
      → collect s o b ≡ some c
      → o.payload.listener_inventory_result ≡ some p
      → (p.matching_listener_count == 0) ≡ true
      → EmptyInventory r v s id
  unfolding usable collect result_matches
  empty_inventory id o p b c n u k h e z = record {
    observation = o;
    result = p;
    recorded = n;
    same_vantage = ground arith;
    unlimited = ground arith;
    coherent = ground arith;
    carries = e;
    same_class = ground arith;
    from_start = ground arith;
    to_end = ground arith;
    no_listener = ground arith;
  }

  find_empty :
      (ids : List ObservationId) (b c : Basis) (has_zero : Bool)
      → collect_basis r v s ids b ≡ some c
      → zero_results r has_zero ids ≡ some true
      → has_zero ≡ false
      → Exists (EmptyInventory r v s) ids
  unfolding collect_basis zero_results
  find_empty [] b c hz h z e = cc
  find_empty (id ∷ ids) b c hz h z e =
      elim (Option-cases (lookup id (observations_by_id r.observations))) [
        | inl n ↦ absurd (ground arith)
        | inr (o, n) ↦ elim (Bool-cases (usable r v o)) [
          | inr u ↦ absurd (ground arith)
          | inl u ↦ elim (Option-cases (collect s o (record b { seen = id ∷ b.seen }))) [
            | inl m ↦ absurd (ground arith)
            | inr (d, m) ↦
                let rest : collect_basis r v s ids d ≡ some c = ground arith in
                elim (Bool-cases (o.kind == ObservationKind.listener_inventory_result)) [
                  | inr q ↦ later (find_empty ids d c hz rest (ground arith) e)
                  | inl q ↦ elim (Option-cases o.payload.listener_inventory_result) [
                    | inl f ↦ later (find_empty ids d c hz rest (ground arith) e)
                    | inr (p, f) ↦ elim (Bool-cases (p.matching_listener_count == 0)) [
                      | inr w ↦ absurd (ground arith)
                      | inl w ↦ now (empty_inventory id o p _ d n u q m f w)
                    ]
                  ]
                ]
          ]
        ]
      ]

  silent_on :
      (port : ℕ) (o : Observation) → contradicts r v s port o ≡ false → ¬ ListensOn r v s port o
  unfolding contradicts tells_of_listener
  silent_on port o h l =
      let k = (==_iff o.kind ObservationKind.listener_inventory_entry).1 l.kind in
      let a = l.same_vantage in
      let b = l.coherent in
      let c = l.carries in let d = l.same_class in let e = l.on_port in ground arith

-- Valid absence evidence for a port has a listener scope that contains the port; its basis has a
-- completed inventory of the scope that counts no listener; and no observation of the run records
-- a listener of that socket class on the port, seen from the same vantage in the coherence window.
pub absence_evidence_valid_sound :
    (r : EvidenceRun) (v : VisibilityAssessment) (target_port : ℕ)
    → absence_evidence_valid r v target_port ≡ true
    → (s : ListenerVisibilityScope) × (v.scope.listener ≡ some s)
      × (s.port_start ≤ target_port)
      × (target_port ≤ s.port_end)
      × Exists (EmptyInventory r v s) v.basis_observation_ids
      × All (λ o. ¬ ListensOn r v s target_port o) r.observations
unfolding absence_evidence_valid complete_for outside_scope has_only_zero_results
absence_evidence_valid_sound r v t h = elim (Option-cases v.scope.listener) [
  | inl n ↦ absurd (ground arith)
  | inr (s, n) ↦
      let c = complete_scope r v s n in
      elim (Option-cases (collect_basis r v s v.basis_observation_ids empty_basis)) [
        | inl m ↦ absurd (ground arith)
        | inr (b, m) ↦ (
          s,
          n,
          ground arith,
          ground arith,
          find_empty r v s v.basis_observation_ids empty_basis b false m (ground arith) refl,
          All-map (λ o. contradicts r v s t o ≡ false) _ r.observations (silent_on r v s t)
              (any-none (contradicts r v s t) r.observations (ground arith)),
        )
      ]
]
