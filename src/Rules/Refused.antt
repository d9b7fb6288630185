-- ===== src/Rules/Refused.antt =====
-- internal/rules/tcp/connection_refused.go: which candidates the rule returns.
use route_doc.Common.{
  ◌≡◌, ◌↔◌, inl, inr, any_fails, All-map, refl, sym, true, false, List, [], ◌∷◌, some, arith, any,
  any-none, All, Exists, Exists-append, now, later, Bool-cases, Option-cases, ==_iff, eq_text,
}
use route_doc.Model.Ids.{VantageId, EntityId}
use route_doc.Model.Observations.{Observation, TcpConnectionResult}
use route_doc.Model.Runs.{EvidenceRun}
use route_doc.Model.Enums.{ObservationKind, TcpResult, eq_observation_kind, eq_tcp_result}
use route_doc.Rules.Templates.{RuleCandidate}
use route_doc.Rules.Tcp.{
  tcp_with, accepts, refused_candidate, refused_at, refused_rounds, connection_refused,
}

-- A TCP observation with the result, seen from the vantage.
pub record Connects (result : TcpResult) (o : Observation) (p : TcpConnectionResult) (v : VantageId)
    : Type 0 where
  pub kind : o.kind ≡ ObservationKind.tcp_connection_result
  pub carries : o.payload.tcp ≡ some p
  pub result_is : p.result ≡ result
  pub vantage : o.vantage_id ≡ some v

tcp_with_sound :
    (result : TcpResult) (o : Observation) (p : TcpConnectionResult) (v : VantageId)
    → tcp_with result o ≡ some (p, v)
    → Connects result o p v
unfolding tcp_with
tcp_with_sound result o p v h =
    let k = ==_iff o.kind ObservationKind.tcp_connection_result in
    elim (Option-cases o.payload.tcp) [
      | inl n ↦ absurd (ground arith)
      | inr (q, n) ↦
          let t = ==_iff q.result result in
          elim (Option-cases o.vantage_id) [
            | inl m ↦ absurd (ground arith)
            | inr (w, m) ↦
                let same_p : q ≡ p = ground arith in
                let same_v : w ≡ v = ground arith in
                record {
                  kind = ground arith;
                  carries = rw (sym same_p) n;
                  result_is = rw (sym same_p) ground arith;
                  vantage = rw (sym same_v) m;
                }
          ]
    ]

tcp_with_complete :
    (result : TcpResult) (o : Observation) (p : TcpConnectionResult) (v : VantageId)
    → Connects result o p v
    → tcp_with result o ≡ some (p, v)
unfolding tcp_with
tcp_with_complete result o p v c =
    let k = (==_iff o.kind ObservationKind.tcp_connection_result).1 c.kind in
    let t = (==_iff p.result result).1 c.result_is in
    let a = c.carries in let b = c.vantage in ground arith

-- The observation says that the endpoint accepted a connection from the vantage.
pub record Accepts (endpoint : EntityId) (v : VantageId) (o : Observation) : Type 0 where
  pub result : TcpConnectionResult
  pub connects : Connects TcpResult.accepted o result v
  pub endpoint_is : result.endpoint_entity_id ≡ endpoint

accepts_iff :
    (endpoint : EntityId) (v : VantageId) (o : Observation)
    → (accepts endpoint v o ≡ true) ↔ Accepts endpoint v o
unfolding accepts
accepts_iff endpoint v o = (
  λ h. elim (Option-cases (tcp_with TcpResult.accepted o)) [
    | inl n ↦ absurd (ground arith)
    | inr ((q, w), n) ↦
        let e = ==_iff q.endpoint_entity_id endpoint in
        let t = ==_iff w v in
        let same : w ≡ v = ground arith in
        record {
          result = q;
          connects = tcp_with_sound TcpResult.accepted o q v (rw (sym same) n);
          endpoint_is = ground arith;
        }
  ],
  λ a.
      let n = tcp_with_complete TcpResult.accepted o a.result v a.connects in
      let e = (==_iff a.result.endpoint_entity_id endpoint).1 a.endpoint_is in
      let t = (==_iff v v).1 refl in ground arith,
)

-- The candidate is the one for an observation of a refused connection whose endpoint accepted none
-- from the same vantage.
pub record Refuses (r : EvidenceRun) (c : RuleCandidate) (o : Observation) : Type 0 where
  pub result : TcpConnectionResult
  pub vantage : VantageId
  pub connects : Connects TcpResult.refused o result vantage
  pub uncontradicted :
      All (λ other. ¬ Accepts result.endpoint_entity_id vantage other) r.observations
  pub candidate : c ≡ refused_candidate r o result vantage

abbrev Returned : RuleCandidate → List RuleCandidate → Type 0
Returned c = Exists (λ d. c ≡ d)

uncontradicted_iff :
    (endpoint : EntityId) (v : VantageId) (os : List Observation)
    → (any (accepts endpoint v) os ≡ false) ↔ All (λ o. ¬ Accepts endpoint v o) os
uncontradicted_iff endpoint v os = (
  λ h.
      All-map (λ o. accepts endpoint v o ≡ false) _ os
        (λ o f a. let t = (accepts_iff endpoint v o).1 a in cc (t, f)) (any-none _ os h),
  λ h. any_fails _ os (
      All-map (λ o. ¬ Accepts endpoint v o) _ os
        (λ o n. elim (Bool-cases (accepts endpoint v o)) [
          | inl t ↦ absurd (n ((accepts_iff endpoint v o).0 t))
          | inr f ↦ f
        ])
        h),
)

refused_at_iff :
    (r : EvidenceRun) (c : RuleCandidate) (o : Observation)
    → Returned c (refused_at r o) ↔ Refuses r c o
unfolding refused_at
refused_at_iff r c o = (
  λ h. elim (Option-cases (tcp_with TcpResult.refused o)) [
    | inl n ↦ elim (rw (n, refused_at) at h) [ ]
    | inr ((p, v), n) ↦ elim (Bool-cases (any (accepts p.endpoint_entity_id v) r.observations)) [
      | inl e ↦ elim (rw (n, e, refused_at) at h) [ ]
      | inr e ↦ record {
        result = p;
        vantage = v;
        connects = tcp_with_sound TcpResult.refused o p v n;
        uncontradicted = (uncontradicted_iff p.endpoint_entity_id v r.observations).0 e;
        candidate = elim (rw (n, e, refused_at) at h) [ now q ↦ q | later k ↦ elim k [ ] ];
      }
    ]
  ],
  λ f.
      let n = tcp_with_complete TcpResult.refused o f.result f.vantage f.connects in
      let e =
        (uncontradicted_iff f.result.endpoint_entity_id f.vantage r.observations).1
          f.uncontradicted in
      rw (n, e, refused_at) (now f.candidate),
)

refused_rounds_iff :
    (r : EvidenceRun) (c : RuleCandidate) (os : List Observation)
    → Returned c (refused_rounds r os) ↔ Exists (Refuses r c) os
unfolding refused_rounds
refused_rounds_iff r c [] = (λ e. elim e [ ], λ e. elim e [ ])
refused_rounds_iff r c (o ∷ os) =
    let one = refused_at_iff r c o in
    let rest = refused_rounds_iff r c os in
    let parts = Exists-append (λ d. c ≡ d) (refused_at r o) (refused_rounds r os) in
    (
      λ e. elim (parts.0 e) [ inl a ↦ now (one.0 a) | inr b ↦ later (rest.0 b) ],
      λ e. elim e [ now f ↦ parts.1 (inl (one.1 f)) | later k ↦ parts.1 (inr (rest.1 k)) ],
    )

-- The rule for refused connections returns a candidate exactly when it is the one for some
-- observation of the run: of a TCP connection that was refused, seen from a vantage, where no
-- observation says that the same endpoint accepted a connection from the same vantage.
pub connection_refused_iff :
    (r : EvidenceRun) (c : RuleCandidate)
    → Exists (λ d. c ≡ d) (connection_refused.evaluate r) ↔ Exists (Refuses r c) r.observations
unfolding connection_refused
connection_refused_iff r c = refused_rounds_iff r c r.observations
