-- ===== src/Rules/Default/Shapes.antt =====
-- The candidates of the three rules of internal/rules: an observation or an assessment gives one at
-- most, with one claim and one finding on it.
use route_doc.Common.{
  Bool, ◌<◌, ◌≡◌, ◌≢◌, refl, sym, false, not, ◌&&◌, List, [], ◌∷◌, ◌++◌, Option, Text, codes, arith,
  map, All, All-map, now, later, any, Bool-cases, Option-cases, inl, inr, ◌⊎◌, ◌==◌, ==_iff,
  eq_text,
}
use mathlib.Core.Path.{subst}
use route_doc.Model.Ids.{ObservationId}
use route_doc.Model.Entities.{Addr}
use route_doc.Model.Paths.{Branch, EvidenceRef}
use route_doc.Model.Claims.{PathPosition}
use route_doc.Model.Visibility.{VisibilityAssessment}
use route_doc.Model.Observations.{Observation, CertificateVerificationResultPayload}
use route_doc.Model.Runs.{EvidenceRun}
use route_doc.Model.Enums.{TcpResult}
use route_doc.Listener.Absence.{absence_evidence_valid}
use route_doc.Rules.Templates.{ClaimTemplate, FindingTemplate, RuleCandidate}
use route_doc.Rules.Positions.{branches_for, branches_for-OnBranch, OnBranch, is_observation_ref}
use route_doc.Rules.Quiet.{IsPlain, NamesNoClaim}
use route_doc.Rules.Listener.{
  is_visibility_ref, basis_evidence, absence_claim, absence_candidate, is_left_out, absent_at,
}
use route_doc.Rules.Tcp.{tcp_with, accepts, refused_candidate, refused_at}
use route_doc.Rules.Tls.{
  verification_of, is_mismatch_claim, contradicts_mismatch, contradicting, mismatch_candidate,
  mismatch_at,
}
use route_doc.Selection.Leaf.{branch_edge_count}
use route_doc.Validation.Shared.Loops.{NoRepeat}

-- The position is below the number of edges of its branch.
abbrev pub IsBelow : List Branch → PathPosition → Type 0
IsBelow bs p = p.position < branch_edge_count bs p.branch_id

abbrev pub AllBelow : List Branch → RuleCandidate → Type 0
AllBelow bs c = All (λ t. All (IsBelow bs) t.path_positions) c.findings

pub record HasShape (bs : List Branch) (key : Text) (c : RuleCandidate) : Type 0 where
  pub plain : IsPlain c
  pub key_is : c.candidate_key ≡ key
  pub below : AllBelow bs c

-- No candidate, or one of the shape.
abbrev pub HasOne : List Branch → Text → List RuleCandidate → Type 0
HasOne bs key cs = (cs ≡ []) ⊎ ((c : RuleCandidate) × (cs ≡ c ∷ []) × HasShape bs key c)

other_branch :
    (bs : List Branch) (b : Branch) (p : PathPosition)
    → All (λ c. c.branch_id ≢ b.branch_id) bs
    → OnBranch bs p
    → b.branch_id ≢ p.branch_id
other_branch [] b p h e = elim e [ ]
other_branch (c ∷ bs) b p (n, h) (now e) = λ same. n (cc (e.0, same))
other_branch (c ∷ bs) b p (n, h) (later e) = other_branch bs b p h e

-- Where no two branches share an identifier, a position on an edge of a branch is below its edges.
OnBranch-IsBelow :
    (bs : List Branch) (p : PathPosition)
    → NoRepeat (λ b. b.branch_id) bs
    → OnBranch bs p
    → IsBelow bs p
unfolding branch_edge_count
OnBranch-IsBelow [] p distinct e = elim e [ ]
OnBranch-IsBelow (b ∷ bs) p (n, distinct) (now e) =
    let here = (==_iff b.branch_id p.branch_id).1 e.0 in rw (here, branch_edge_count) e.1
OnBranch-IsBelow (b ∷ bs) p (n, distinct) (later e) =
    let below = OnBranch-IsBelow bs p distinct e in
    let other = other_branch bs b p n e in
    let f : (b.branch_id == p.branch_id) ≡ false =
      ground (arith, (==_iff b.branch_id p.branch_id).0) in
    rw (f, branch_edge_count) below

contradicting-NamesNoClaim :
    (o : Observation) (p : CertificateVerificationResultPayload) (os : List Observation)
    → NamesNoClaim (contradicting o p os)
unfolding contradicting
contradicting-NamesNoClaim o p [] = tt
contradicting-NamesNoClaim o p (x ∷ os) =
    let rest = contradicting-NamesNoClaim o p os in
    elim (Bool-cases (contradicts_mismatch o p x)) [
      | inl e ↦ rw (e, contradicting) ((λ k. cc k), rest)
      | inr e ↦ rw (e, contradicting) rest
    ]

basis-NamesNoClaim : (ids : List ObservationId) → NamesNoClaim (map basis_evidence ids)
basis-NamesNoClaim [] = tt
basis-NamesNoClaim (id ∷ ids) = ((λ k. cc k), basis-NamesNoClaim ids)

module _ (r : EvidenceRun) (distinct : NoRepeat (λ b. b.branch_id) r.service_path.branches) where
  -- One claim and one finding on it, with the positions of `branchesFor`.
  shape_of :
      (key : Text) (t : ClaimTemplate) (f : FindingTemplate) (test : EvidenceRef → Bool)
      → t.local_key ≢ []
      → f.claim_local_keys ≡ t.local_key ∷ []
      → f.path_positions ≡ (branches_for test r.service_path).1
      → NamesNoClaim t.supporting_evidence
      → NamesNoClaim t.contradicting_evidence
      → HasShape r.service_path.branches key
          (record { candidate_key = key; claims = t ∷ []; findings = f ∷ [] })
  shape_of key t f test keyed named placed supporting contradicts =
      let below : All (IsBelow r.service_path.branches) (branches_for test r.service_path).1 =
        All-map (OnBranch r.service_path.branches) _ _
          (λ q. OnBranch-IsBelow r.service_path.branches q distinct)
          (branches_for-OnBranch test r.service_path) in
      record {
        plain = record {
          claim = t;
          finding = f;
          claims = refl;
          findings = refl;
          keyed = keyed;
          named = named;
          supporting = supporting;
          contradicting = contradicts;
        };
        key_is = refl;
        below = (subst (All (IsBelow r.service_path.branches)) (sym placed) below, tt);
      }

  pub refused_at-HasOne :
      (o : Observation)
      → HasOne r.service_path.branches (codes "tcp-" ++ o.observation_id) (refused_at r o)
  unfolding refused_at refused_candidate
  refused_at-HasOne o = elim (Option-cases (tcp_with TcpResult.refused o)) [
    | inl n ↦ inl (rw (n, refused_at) refl)
    | inr ((p, v), n) ↦ elim (Bool-cases (any (accepts p.endpoint_entity_id v) r.observations)) [
      | inl e ↦ inl (rw (n, e, refused_at) refl)
      | inr e ↦ inr (
        refused_candidate r o p v,
        rw (n, e, refused_at) refl,
        shape_of (codes "tcp-" ++ o.observation_id) _ _ (is_observation_ref o.observation_id)
            (λ k. cc k) refl refl ((λ k. cc k), tt) tt,
      )
    ]
  ]

  pub mismatch_at-HasOne :
      (o : Observation)
      → HasOne r.service_path.branches (codes "tls-" ++ o.observation_id) (mismatch_at r o)
  unfolding mismatch_at mismatch_candidate
  mismatch_at-HasOne o = elim (Option-cases (verification_of o)) [
    | inl n ↦ inl (rw (n, mismatch_at) refl)
    | inr (p, n) ↦ elim (Bool-cases (is_mismatch_claim p)) [
      | inr e ↦ inl (rw (n, e, mismatch_at) refl)
      | inl e ↦ inr (
        mismatch_candidate r o p,
        rw (n, e, mismatch_at) refl,
        shape_of (codes "tls-" ++ o.observation_id) _ _ (is_observation_ref o.observation_id)
            (λ k. cc k) refl refl ((λ k. cc k), tt) (contradicting-NamesNoClaim o p r.observations),
      )
    ]
  ]

  pub absent_at-HasOne :
      (parse_addr : Text → Option Addr) (v : VisibilityAssessment)
      → HasOne r.service_path.branches
          (codes "listener-" ++ v.visibility_id)
          (absent_at parse_addr r v)
  unfolding absent_at absence_candidate absence_claim
  absent_at-HasOne parse_addr v = elim (Option-cases v.scope.listener) [
    | inl n ↦ inl (rw (n, absent_at) refl)
    | inr (s, n) ↦
        elim (Bool-cases (
          absence_evidence_valid r v r.target.effective_port && not (is_left_out parse_addr r s))) [
            | inr e ↦ inl (rw (n, e, absent_at) refl)
            | inl e ↦ inr (
              absence_candidate r v s,
              rw (n, e, absent_at) refl,
              shape_of (codes "listener-" ++ v.visibility_id) _ _
                  (is_visibility_ref v.visibility_id) (λ k. cc k) refl refl
                  ((λ k. cc k), basis-NamesNoClaim v.basis_observation_ids) tt,
            )
          ]
  ]
