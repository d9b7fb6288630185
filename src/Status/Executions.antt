-- ===== src/Status/Executions.antt =====
-- The round over the executions of checks in `Status` of internal/clientprobe/status.go: when it
-- enters a branch in one of its maps.
use route_doc.Common.{
  Bool, Bool-cases, Option-cases, inl, inr, ◌≡◌, refl, false, ◌&&◌, ◌||◌, List, [], ◌∷◌, Option,
  none, some, Table, lookup, any, contains, arith, ◌==◌, eq_text, text_eq,
}
use route_doc.Model.Ids.{BranchId}
use route_doc.Model.Checks.{CheckExecution}
use route_doc.Model.Observations.{Observation}
use route_doc.Model.Enums.{
  CheckKind, CheckLifecycle, CheckVerdict, eq_check_lifecycle, eq_check_verdict,
  eq_certificate_verification_result,
}
use route_doc.Status.{
  Passes, is_verified, is_http_response, record_pass, is_cut_short, scan_execution, scan_executions,
}

unfoldable pub is_done : CheckExecution → Bool
is_done e = (e.lifecycle == CheckLifecycle.completed) && (e.verdict == CheckVerdict.pass)

unfoldable pub of_kind : Bool → Bool → Option CheckKind → Bool
of_kind cert http (some CheckKind.certificate_verification) = cert
of_kind cert http (some CheckKind.http) = http
of_kind cert http _ = false

unfoldable pub on_branch : BranchId → Bool → Option BranchId → Bool
on_branch leaf b none = false
on_branch leaf b (some x) = text_eq x leaf && b

module _ (kinds : Table CheckKind) (observations : Table Observation) (branch : BranchId) where
  unfoldable pub cert_of : CheckExecution → Bool
  cert_of e =
      on_branch branch
        (is_done e
          && of_kind (any (is_verified observations) e.observation_ids) false
              (lookup e.check_id kinds))
        e.branch_id

  unfoldable pub http_of : CheckExecution → Bool
  http_of e =
      on_branch branch
        (is_done e
          && of_kind false (any (is_http_response observations) e.observation_ids)
              (lookup e.check_id kinds))
        e.branch_id

  unfoldable pub cut_of : CheckExecution → Bool
  cut_of e = on_branch branch (is_cut_short e) e.branch_id

  record_pass-adds :
      (e : CheckExecution) (b : BranchId) (k : Option CheckKind) (p : Passes)
      → (contains (record_pass observations e b k p).cert branch ≡ (
          text_eq b branch && of_kind (any (is_verified observations) e.observation_ids) false k
          || contains p.cert branch))
        × (contains (record_pass observations e b k p).http branch ≡ (
            text_eq b branch
              && of_kind false (any (is_http_response observations) e.observation_ids) k
            || contains p.http branch))
        × ((record_pass observations e b k p).incomplete ≡ p.incomplete)
  unfolding record_pass of_kind contains any
  record_pass-adds e b (some CheckKind.certificate_verification) p =
      elim (Bool-cases (any (is_verified observations) e.observation_ids)) [
        | inl c ↦ (ground arith, ground arith, ground arith)
        | inr c ↦ (ground arith, ground arith, ground arith)
      ]
  record_pass-adds e b (some CheckKind.http) p =
      elim (Bool-cases (any (is_http_response observations) e.observation_ids)) [
        | inl c ↦ (ground arith, ground arith, ground arith)
        | inr c ↦ (ground arith, ground arith, ground arith)
      ]
  record_pass-adds e b _ p = (ground arith, ground arith, refl)

  -- What one round adds to the three lists.
  scan_execution-adds :
      (e : CheckExecution) (p : Passes)
      → (contains (scan_execution kinds observations e p).cert branch
          ≡ (cert_of e || contains p.cert branch))
        × (contains (scan_execution kinds observations e p).http branch
            ≡ (http_of e || contains p.http branch))
        × (contains (scan_execution kinds observations e p).incomplete branch
            ≡ (cut_of e || contains p.incomplete branch))
  unfolding scan_execution cert_of http_of cut_of on_branch is_done contains any
  scan_execution-adds e p = elim (Option-cases e.branch_id) [
    | inl n ↦ (ground arith, ground arith, ground arith)
    | inr (b, n) ↦
        let k = lookup e.check_id kinds in
        let (plain_cert, plain_http, plain_cut) = record_pass-adds e b k p in
        let (cut_cert, cut_http, cut_cut) =
          record_pass-adds e b k (record p { incomplete = b ∷ p.incomplete }) in
        elim (Bool-cases (is_cut_short e)) [
          | inl c ↦ elim (Bool-cases (is_done e)) [
            | inl d ↦ (
              ground arith,
              ground arith,
              rw (n, c, d, cut_cut, scan_execution, on_branch) (ground arith),
            )
            | inr d ↦ (ground arith, ground arith, ground arith)
          ]
          | inr c ↦ elim (Bool-cases (is_done e)) [
            | inl d ↦ (
              ground arith,
              ground arith,
              rw (n, c, d, plain_cut, scan_execution, on_branch) (ground arith),
            )
            | inr d ↦ (ground arith, ground arith, ground arith)
          ]
        ]
  ]

  -- What the round over all executions adds.
  pub scan_executions-adds :
      (es : List CheckExecution) (p : Passes)
      → (contains (scan_executions kinds observations es p).cert branch
          ≡ (any cert_of es || contains p.cert branch))
        × (contains (scan_executions kinds observations es p).http branch
            ≡ (any http_of es || contains p.http branch))
        × (contains (scan_executions kinds observations es p).incomplete branch
            ≡ (any cut_of es || contains p.incomplete branch))
  unfolding scan_executions any
  scan_executions-adds [] p = (refl, refl, refl)
  scan_executions-adds (e ∷ es) p =
      let (a, b, c) = scan_execution-adds e p in
      let (x, y, z) = scan_executions-adds es (scan_execution kinds observations e p) in
      (ground (arith, a, x), ground (arith, b, y), ground (arith, c, z))
