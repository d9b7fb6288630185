-- ===== src/Status/Tested.antt =====
-- The tests that `Status` of internal/clientprobe/status.go makes on one execution and on its
-- observations, in terms of what they find.
use route_doc.Common.{
  Bool, Bool-cases, Option-cases, inl, inr, ◌≡◌, ◌↔◌, ◌⊎◌, refl, ◌∙◌, ap, true, false, List, [],
  ◌∷◌, Option, none, some, Table, insert, lookup, lookup-insert, index_into, arith, ◌==◌, ==_iff,
  eq_text, text_eq, text_eq_iff, text_eq_sound,
}
use route_doc.Model.Ids.{BranchId, CheckId, ObservationId}
use route_doc.Model.Checks.{CheckDefinition, CheckExecution}
use route_doc.Model.Observations.{Observation, CertificateVerificationResultPayload, HttpResult}
use route_doc.Model.Enums.{
  CheckKind, CheckLifecycle, CheckVerdict, CertificateVerificationResult, eq_check_lifecycle,
  eq_check_verdict, eq_certificate_verification_result, http_result_kind_valid,
}
use route_doc.Status.{
  address_attempt_cap, probe_pending, check_kinds, is_verified, is_http_response, is_cut_short,
}
use route_doc.Status.Executions.{is_done, of_kind, on_branch}

-- The observation is of a certificate that was verified.
abbrev pub ShowsVerified : Observation → Type 0
ShowsVerified o =
    (p : CertificateVerificationResultPayload) × (o.payload.certificate_verification ≡ some p)
    × (p.result ≡ CertificateVerificationResult.verified)

-- The observation is of an HTTP response.
abbrev pub ShowsHttp : Observation → Type 0
ShowsHttp o =
    (p : HttpResult) × (o.payload.http ≡ some p) × (http_result_kind_valid p.result_kind ≡ true)

unfoldable pub kind_of : Option CheckDefinition → Option CheckKind
kind_of none = none
kind_of (some d) = some d.kind

-- The map of kinds has the kind of the definition that the map of definitions has.
pub lookup-check_kinds :
    (ds : List CheckDefinition) (m : Table CheckKind) (n : Table CheckDefinition)
    → ((k : CheckId) → lookup k m ≡ kind_of (lookup k n))
    → (k : CheckId)
    → lookup k (check_kinds ds m) ≡ kind_of (lookup k (index_into (λ d. d.check_id) ds n))
unfolding check_kinds index_into
lookup-check_kinds [] m n h k = h k
lookup-check_kinds (d ∷ ds) m n h k =
    lookup-check_kinds ds (insert d.check_id d.kind m) (insert d.check_id d n)
      (λ j.
        let a = lookup-insert d.check_id j d.kind m in
        let b = lookup-insert d.check_id j d n in
        unfold kind_of in
        elim (Bool-cases (text_eq d.check_id j)) [
          | inl e ↦ rw (a, b, e) refl
          | inr e ↦ rw (a, b, e) (h j)
        ])
      k

pub is_verified_iff :
    (observations : Table Observation) (id : ObservationId)
    → (is_verified observations id ≡ true)
      ↔ ((o : Observation) × (lookup id observations ≡ some o) × ShowsVerified o)
unfolding is_verified
is_verified_iff observations id = elim (Option-cases (lookup id observations)) [
  | inl n ↦ (λ h. ground arith, λ (o, e, s). ground arith)
  | inr (o, n) ↦ elim (Option-cases o.payload.certificate_verification) [
    | inl q ↦ (λ h. ground arith, λ (x, e, (p, r, s)). ground arith)
    | inr (p, q) ↦ (
      λ h. (o, n, (p, q, ground (arith, ==_iff p.result CertificateVerificationResult.verified))),
      λ (x, e, (y, r, s)). ground (arith, ==_iff p.result CertificateVerificationResult.verified),
    )
  ]
]

pub is_http_response_iff :
    (observations : Table Observation) (id : ObservationId)
    → (is_http_response observations id ≡ true)
      ↔ ((o : Observation) × (lookup id observations ≡ some o) × ShowsHttp o)
unfolding is_http_response
is_http_response_iff observations id = elim (Option-cases (lookup id observations)) [
  | inl n ↦ (λ h. ground arith, λ (o, e, s). ground arith)
  | inr (o, n) ↦ elim (Option-cases o.payload.http) [
    | inl q ↦ (λ h. ground arith, λ (x, e, (p, r, s)). ground arith)
    | inr (p, q) ↦ (λ h. (o, n, (p, q, ground arith)), λ (x, e, (y, r, s)). ground arith)
  ]
]

pub on_branch_iff :
    (leaf : BranchId) (b : Bool) (x : Option BranchId)
    → (on_branch leaf b x ≡ true) ↔ ((x ≡ some leaf) × (b ≡ true))
unfolding on_branch
on_branch_iff leaf b none = (λ h. ground arith, λ h. ground arith)
on_branch_iff leaf b (some x) = (
  λ h. (ap some (text_eq_sound x leaf (ground arith)), ground arith),
  λ h. ground (arith, text_eq_iff x leaf),
)

pub of_kind_certificate :
    (b : Bool) (k : Option CheckKind)
    → (of_kind b false k ≡ true) ↔ ((b ≡ true) × (k ≡ some CheckKind.certificate_verification))
unfolding of_kind
of_kind_certificate b (some CheckKind.certificate_verification) = (λ h. (h, refl), λ h. h.0)
of_kind_certificate b _ = (λ h. ground arith, λ h. ground arith)

pub of_kind_http :
    (b : Bool) (k : Option CheckKind)
    → (of_kind false b k ≡ true) ↔ ((b ≡ true) × (k ≡ some CheckKind.http))
unfolding of_kind
of_kind_http b (some CheckKind.http) = (λ h. (h, refl), λ h. h.0)
of_kind_http b _ = (λ h. ground arith, λ h. ground arith)

pub is_done_iff :
    (e : CheckExecution)
    → (is_done e ≡ true)
      ↔ ((e.lifecycle ≡ CheckLifecycle.completed) × (e.verdict ≡ CheckVerdict.pass))
unfolding is_done
is_done_iff e =
    let a = ==_iff e.lifecycle CheckLifecycle.completed in
    let b = ==_iff e.verdict CheckVerdict.pass in
    (λ h. (ground arith, ground arith), λ h. ground arith)

pub is_cut_short_iff :
    (e : CheckExecution)
    → (is_cut_short e ≡ true) ↔ (
        (e.lifecycle ≡ CheckLifecycle.not_run)
        × ((e.reason_code ≡ some address_attempt_cap) ⊎ (e.reason_code ≡ some probe_pending)))
unfolding is_cut_short
is_cut_short_iff e =
    let a = ==_iff e.lifecycle CheckLifecycle.not_run in
    elim (Option-cases e.reason_code) [
      | inl n ↦
          (λ h. ground arith, λ (l, x). elim x [ inl q ↦ ground arith | inr q ↦ ground arith ])
      | inr (t, n) ↦
          let b = ==_iff t address_attempt_cap in
          let c = ==_iff t probe_pending in
          (
            λ h. (
              ground arith,
              elim (Bool-cases (t == address_attempt_cap)) [
                | inl q ↦ inl (n ∙ ap some (b.0 q))
                | inr q ↦ inr (n ∙ ap some (c.0 (ground arith)))
              ],
            ),
            λ (l, x). elim x [ inl q ↦ ground arith | inr q ↦ ground arith ],
          )
    ]
