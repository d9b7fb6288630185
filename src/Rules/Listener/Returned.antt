-- ===== src/Rules/Listener/Returned.antt =====
-- Which candidates the rule of internal/rules/listener/no_matching_listener.go returns.
use route_doc.Common.{
  ◌≡◌, ◌≢◌, ◌↔◌, ◌⊎◌, true, false, not, ◌&&◌, List, [], ◌∷◌, inl, inr, Option, some, Text, arith,
  Exists, Exists-append, now, later, Bool-cases, Option-cases, ◌==◌, ==_iff,
}
use route_doc.Model.Entities.{Addr}
use route_doc.Model.Visibility.{ListenerVisibilityScope, VisibilityAssessment}
use route_doc.Model.Runs.{EvidenceRun}
use route_doc.Model.Enums.{ScopeKind, eq_scope_kind}
use route_doc.Listener.Absence.{absence_evidence_valid}
use route_doc.Rules.Templates.{RuleCandidate}
use route_doc.Rules.Coverage.{has_compatible_listener}
use route_doc.Rules.Listener.{
  absence_candidate, is_left_out, absent_at, absent_rounds, no_matching_listener_visible,
}
use route_doc.Rules.Coverage.Applies.{IsApplicable, scope_applies_to_target_iff}
use route_doc.Rules.Coverage.Covers.{Covers, has_compatible_listener_iff}

-- The run is no local diagnosis, or the scope applies to its target and no recorded listener covers
-- a destination of the target.
abbrev pub IsKept : (Text → Option Addr) → EvidenceRun → ListenerVisibilityScope → Type 0
IsKept parse_addr r s =
    (r.requested_scope.kind ≢ ScopeKind.local_origin)
    ⊎ (IsApplicable parse_addr r s.address_family × ¬ Exists (Covers parse_addr r s) r.observations)

-- The candidate is that for an assessment with valid absence evidence for the target's port.
pub record Concludes (parse_addr : Text → Option Addr) (r : EvidenceRun) (c : RuleCandidate)
    (v : VisibilityAssessment) : Type 0 where
  pub scope : ListenerVisibilityScope
  pub scoped : v.scope.listener ≡ some scope
  pub valid : absence_evidence_valid r v r.target.effective_port ≡ true
  pub kept : IsKept parse_addr r scope
  pub candidate : c ≡ absence_candidate r v scope

module _ (parse_addr : Text → Option Addr) (r : EvidenceRun) where
  is_left_out_iff :
      (s : ListenerVisibilityScope) → (is_left_out parse_addr r s ≡ false) ↔ IsKept parse_addr r s
  unfolding is_left_out
  is_left_out_iff s =
      let local = ==_iff r.requested_scope.kind ScopeKind.local_origin in
      let applies = scope_applies_to_target_iff parse_addr r s.address_family in
      let compatible = has_compatible_listener_iff parse_addr r s in
      (
        λ h. elim (Bool-cases (r.requested_scope.kind == ScopeKind.local_origin)) [
          | inr k ↦ inl (λ e. let t = local.1 e in cc)
          | inl k ↦ inr (applies.0 (ground arith), λ x. let t = compatible.1 x in ground arith)
        ],
        λ kept. elim kept [
          | inl n ↦ elim (Bool-cases (r.requested_scope.kind == ScopeKind.local_origin)) [
            | inl k ↦ absurd (n (local.0 k))
            | inr k ↦ ground arith
          ]
          | inr (a, n) ↦
              let t = applies.1 a in
              elim (Bool-cases (has_compatible_listener parse_addr r s)) [
                | inl k ↦ absurd (n (compatible.0 k))
                | inr k ↦ ground arith
              ]
        ],
      )

  absent_at_iff :
      (c : RuleCandidate) (v : VisibilityAssessment)
      → Exists (λ d. c ≡ d) (absent_at parse_addr r v) ↔ Concludes parse_addr r c v
  unfolding absent_at
  absent_at_iff c v = (
    λ x. elim (Option-cases v.scope.listener) [
      | inl n ↦ elim (rw (n, absent_at) at x) [ ]
      | inr (s, n) ↦
          elim (Bool-cases (
            absence_evidence_valid r v r.target.effective_port
            && not (is_left_out parse_addr r s))) [
              | inr e ↦ elim (rw (n, e, absent_at) at x) [ ]
              | inl e ↦ record {
                scope = s;
                scoped = n;
                valid = ground arith;
                kept = (is_left_out_iff s).0 (ground arith);
                candidate = elim (rw (n, e, absent_at) at x) [ now k ↦ k | later k ↦ elim k [ ] ];
              }
            ]
    ],
    λ k.
        let n = k.scoped in
        let out = (is_left_out_iff k.scope).1 k.kept in
        let e : (absence_evidence_valid r v r.target.effective_port
              && not (is_left_out parse_addr r k.scope))
            ≡ true =
          ground (arith, k.valid) in
        rw (n, e, absent_at) (now k.candidate),
  )

  absent_rounds_iff :
      (c : RuleCandidate) (vs : List VisibilityAssessment)
      → Exists (λ d. c ≡ d) (absent_rounds parse_addr r vs) ↔ Exists (Concludes parse_addr r c) vs
  unfolding absent_rounds
  absent_rounds_iff c [] = (λ e. elim e [ ], λ e. elim e [ ])
  absent_rounds_iff c (v ∷ vs) =
      let one = absent_at_iff c v in
      let rest = absent_rounds_iff c vs in
      let parts =
        Exists-append (λ d. c ≡ d) (absent_at parse_addr r v) (absent_rounds parse_addr r vs) in
      (
        λ e. elim (parts.0 e) [ inl a ↦ now (one.0 a) | inr b ↦ later (rest.0 b) ],
        λ e. elim e [ now f ↦ parts.1 (inl (one.1 f)) | later k ↦ parts.1 (inr (rest.1 k)) ],
      )

-- The listener rule returns a candidate exactly when it is the one for some assessment of the run:
-- with valid evidence that no listener is on the target's port, and, in a local diagnosis, with a
-- scope that applies to the target and no recorded listener in it that covers a destination.
pub no_matching_listener_iff :
    (parse_addr : Text → Option Addr) (r : EvidenceRun) (c : RuleCandidate)
    → Exists (λ d. c ≡ d) ((no_matching_listener_visible parse_addr).evaluate r)
      ↔ Exists (Concludes parse_addr r c) r.visibility_assessments
unfolding no_matching_listener_visible
no_matching_listener_iff parse_addr r c = absent_rounds_iff parse_addr r c r.visibility_assessments
