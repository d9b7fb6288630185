-- ===== src/Status/Answers.antt =====
-- What the maps of `Status` of internal/clientprobe/status.go say of a branch, in terms of the
-- executions, definitions and observations of the run alone.
use route_doc.Common.{
  Bool, Bool-cases, Option-cases, inl, inr, ◌≡◌, ◌↔◌, ◌⊎◌, refl, true, ◌&&◌, [], some, codes, Table,
  lookup, index_into, any, any_iff, contains, arith, Exists, ◌==◌, ==_iff, eq_text,
}
use route_doc.Model.Ids.{BranchId}
use route_doc.Model.Checks.{CheckDefinition, CheckExecution}
use route_doc.Model.Observations.{Observation}
use route_doc.Model.Runs.{EvidenceRun, EvaluatedRun}
use route_doc.Model.Enums.{
  CheckKind, CheckLifecycle, CheckVerdict, eq_check_lifecycle, eq_check_verdict,
  eq_certificate_verification_result,
}
use route_doc.Status.{
  check_kinds, is_verified, is_http_response, is_cut_short, passes, reaches_http,
}
use route_doc.Status.Executions.{is_done, on_branch, cert_of, http_of, cut_of, scan_executions-adds}
use route_doc.Status.Tested.{
  ShowsVerified, ShowsHttp, kind_of, lookup-check_kinds, is_verified_iff, is_http_response_iff,
  on_branch_iff, of_kind_certificate, of_kind_http, is_done_iff, is_cut_short_iff,
}

-- The execution, of a check of the kind, completed on the branch with a pass, and one of the
-- observations that it names shows what is asked for.
pub record PassesOn (r : EvidenceRun) (branch : BranchId) (kind : CheckKind)
    (Shows : Observation → Type 0) (e : CheckExecution) : Type 0 where
  pub definition : CheckDefinition
  pub on_branch : e.branch_id ≡ some branch
  pub completed : e.lifecycle ≡ CheckLifecycle.completed
  pub passed : e.verdict ≡ CheckVerdict.pass
  pub defined :
      lookup e.check_id (index_into (λ d. d.check_id) r.check_definitions []) ≡ some definition
  pub of_kind : definition.kind ≡ kind
  pub shown :
      Exists
        (λ id.
          (o : Observation) × (lookup id (index_into (λ x. x.observation_id) r.observations [])
            ≡ some o)
          × Shows o)
        e.observation_ids

-- The execution did not run on the branch, because of the cap on addresses or of a pending probe.
pub record IsCutShortOn (branch : BranchId) (e : CheckExecution) : Type 0 where
  pub on_branch : e.branch_id ≡ some branch
  pub not_run : e.lifecycle ≡ CheckLifecycle.not_run
  pub reason :
      (e.reason_code ≡ some (codes "address_attempt_cap"))
      ⊎ (e.reason_code ≡ some (codes "probe_pending"))

-- The branch has an answer over HTTP and, unless the target is plain HTTP, a verified certificate.
abbrev pub Answers : EvidenceRun → BranchId → Type 0
Answers r branch =
    Exists (PassesOn r branch CheckKind.http ShowsHttp) r.check_executions
    × ((r.target.scheme ≡ codes "http")
        ⊎ Exists (PassesOn r branch CheckKind.certificate_verification ShowsVerified)
            r.check_executions)

module _ (r : EvaluatedRun) (leaf : BranchId) where
  kinds : Table CheckKind
  kinds = check_kinds r.evidence.check_definitions []

  observations : Table Observation
  observations = index_into (λ o. o.observation_id) r.evidence.observations []

  kind_at :
      (e : CheckExecution) (kind : CheckKind)
      → (lookup e.check_id kinds ≡ some kind) ↔ (
          (d : CheckDefinition) × (lookup e.check_id
              (index_into (λ d. d.check_id) r.evidence.check_definitions [])
            ≡ some d)
          × (d.kind ≡ kind))
  unfolding kinds kind_of lookup
  kind_at e kind =
      let found = index_into (λ d. d.check_id) r.evidence.check_definitions [] in
      let same = lookup-check_kinds r.evidence.check_definitions [] [] (λ k. refl) e.check_id in
      elim (Option-cases (lookup e.check_id found)) [
        | inl n ↦ (λ h. ground arith, λ (d, q, k). ground arith)
        | inr (d, n) ↦ (λ h. (d, n, ground arith), λ (x, q, k). ground arith)
      ]

  -- The test of the loop for one kind, `picked`, in terms of the test of the observations, `shows`.
  passes_on :
      (kind : CheckKind) (Shows : Observation → Type 0) (e : CheckExecution) (shows picked : Bool)
      → (shows ≡ true)
        ↔ Exists
            (λ id. (o : Observation) × (lookup id observations ≡ some o) × Shows o)
            e.observation_ids
      → (picked ≡ true) ↔ ((shows ≡ true) × (lookup e.check_id kinds ≡ some kind))
      → (on_branch leaf (is_done e && picked) e.branch_id ≡ true)
        ↔ PassesOn r.evidence leaf kind Shows e
  unfolding observations
  passes_on kind Shows e shows picked shown pick =
      let done = is_done_iff e in
      let on = on_branch_iff leaf (is_done e && picked) e.branch_id in
      (
        λ h.
            let (x, b) = on.0 h in
            let (s, k) = pick.0 (ground arith) in
            let (l, v) = done.0 (ground arith) in
            let (d, q, m) = (kind_at e kind).0 k in
            record {
              definition = d;
              on_branch = x;
              completed = l;
              passed = v;
              defined = q;
              of_kind = m;
              shown = shown.0 s;
            },
        λ p.
            let k =
              pick.1 (shown.1 p.shown, (kind_at e kind).1 (p.definition, p.defined, p.of_kind)) in
            let d = done.1 (p.completed, p.passed) in on.1 (p.on_branch, ground arith),
      )

  http_of_iff :
      (e : CheckExecution)
      → (http_of kinds observations leaf e ≡ true)
        ↔ PassesOn r.evidence leaf CheckKind.http ShowsHttp e
  unfolding http_of
  http_of_iff e =
      passes_on CheckKind.http ShowsHttp e (any (is_http_response observations) e.observation_ids) _
        (any_iff (is_http_response observations) _ (is_http_response_iff observations)
          e.observation_ids)
        (of_kind_http _ (lookup e.check_id kinds))

  cert_of_iff :
      (e : CheckExecution)
      → (cert_of kinds observations leaf e ≡ true)
        ↔ PassesOn r.evidence leaf CheckKind.certificate_verification ShowsVerified e
  unfolding cert_of
  cert_of_iff e =
      passes_on CheckKind.certificate_verification ShowsVerified e
        (any (is_verified observations) e.observation_ids) _
        (any_iff (is_verified observations) _ (is_verified_iff observations) e.observation_ids)
        (of_kind_certificate _ (lookup e.check_id kinds))

  cut_of_iff :
      (e : CheckExecution) → (cut_of kinds observations leaf e ≡ true) ↔ IsCutShortOn leaf e
  unfolding cut_of
  cut_of_iff e =
      let on = on_branch_iff leaf (is_cut_short e) e.branch_id in
      let cut = is_cut_short_iff e in
      (
        λ h.
            let (x, b) = on.0 h in
            let (l, q) = cut.0 b in record { on_branch = x; not_run = l; reason = q },
        λ c. on.1 (c.on_branch, cut.1 (c.not_run, c.reason)),
      )

  pub reaches_http_iff : (reaches_http r leaf ≡ true) ↔ Answers r.evidence leaf
  unfolding reaches_http passes kinds observations contains any
  reaches_http_iff =
      let es = r.evidence.check_executions in
      let (cert, http, cut) =
        scan_executions-adds kinds observations leaf es
          (record { cert = []; http = []; incomplete = [] }) in
      let answered = any_iff (http_of kinds observations leaf) _ http_of_iff es in
      let certified = any_iff (cert_of kinds observations leaf) _ cert_of_iff es in
      let plain = ==_iff r.evidence.target.scheme (codes "http") in
      (
        λ h. (
          answered.0 (ground arith),
          elim (Bool-cases (r.evidence.target.scheme == codes "http")) [
            | inl q ↦ inl (plain.0 q)
            | inr q ↦ inr (certified.0 (ground arith))
          ],
        ),
        λ (a, b).
            let x = answered.1 a in
            elim b [
              | inl q ↦ let y = plain.1 q in ground arith
              | inr q ↦ let y = certified.1 q in ground arith
            ],
      )

  pub cut_short_iff :
      (contains (passes r).incomplete leaf ≡ true)
      ↔ Exists (IsCutShortOn leaf) r.evidence.check_executions
  unfolding passes kinds observations contains any
  cut_short_iff =
      let es = r.evidence.check_executions in
      let (cert, http, cut) =
        scan_executions-adds kinds observations leaf es
          (record { cert = []; http = []; incomplete = [] }) in
      let some_cut = any_iff (cut_of kinds observations leaf) _ cut_of_iff es in
      (λ h. some_cut.0 (ground arith), λ h. let x = some_cut.1 h in ground arith)
