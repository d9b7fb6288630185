-- ===== src/Selection/Statements.antt =====
-- When two findings say the same, and the order of findings: `sameStatement`, `claimByID`,
-- `sameClaimProposition` and `lessFinding` of internal/selection/selection.go.
use Prim.Native.Nat.{Ordering}
use route_doc.Common.{
  Bool, true, false, not, ◌&&◌, List, [], ◌∷◌, Option, none, some, ◌==◌, eq_text, eq_number,
  text_lt, length, if◌then◌else◌,
}
use route_doc.Model.Ids.{ClaimId}
use route_doc.Model.Claims.{
  Claim, Finding, ListenerAbsentClaimParameters, TcpRefusedClaimParameters,
  HostnameMismatchClaimParameters,
}
use route_doc.Model.Enums.{
  ClaimStatementCode, eq_claim_statement_code, eq_finding_kind, eq_finding_title_code,
  eq_trust_source, eq_transport, eq_address_family, eq_bind_semantics,
}
use route_doc.Ids.{compare_finding_id}

unfoldable pub claim_by_id : List Claim → ClaimId → Option Claim
claim_by_id [] id = none
claim_by_id (c ∷ cs) id = if c.claim_id == id then some c else claim_by_id cs id

same_refused : Option TcpRefusedClaimParameters → Option TcpRefusedClaimParameters → Bool
same_refused (some a) (some b) =
    (a.endpoint_entity_id == b.endpoint_entity_id) && (a.vantage_id == b.vantage_id)
same_refused _ _ = false

same_mismatch :
    Option HostnameMismatchClaimParameters → Option HostnameMismatchClaimParameters → Bool
same_mismatch (some a) (some b) =
    (a.peer_entity_id == b.peer_entity_id)
    && ((a.hostname == b.hostname) && (a.trust_source == b.trust_source))
same_mismatch _ _ = false

-- `*a == *b` compares all fields of the two structs.
same_absence : Option ListenerAbsentClaimParameters → Option ListenerAbsentClaimParameters → Bool
same_absence (some a) (some b) =
    (a.namespace_entity_id == b.namespace_entity_id)
    && ((a.vantage_id == b.vantage_id)
        && ((a.protocol == b.protocol)
            && ((a.address_family == b.address_family)
                && ((a.bind_semantics == b.bind_semantics) && (a.port == b.port)))))
same_absence _ _ = false

same_parameters : ClaimStatementCode → Claim → Claim → Bool
unfolding same_refused same_mismatch same_absence
same_parameters ClaimStatementCode.tcp_connection_refused a b =
    same_refused a.parameters.tcp_refused b.parameters.tcp_refused
same_parameters ClaimStatementCode.tls_certificate_hostname_mismatch a b =
    same_mismatch a.parameters.hostname_mismatch b.parameters.hostname_mismatch
same_parameters ClaimStatementCode.no_matching_listener_visible a b =
    same_absence a.parameters.listener_absent b.parameters.listener_absent
same_parameters (ClaimStatementCode.invalid s) a b = a.claim_id == b.claim_id

unfoldable pub same_claim_proposition : Claim → Claim → Bool
unfolding same_parameters
same_claim_proposition a b =
    (a.statement_code == b.statement_code)
    && ((a.parameters.kind == b.parameters.kind) && same_parameters a.parameters.kind a b)

same_found : Option Claim → Option Claim → Bool
same_found (some a) (some b) = same_claim_proposition a b
same_found _ _ = false

-- The loop over `a.ClaimIDs` and, at the same indices, `b.ClaimIDs`, which is as long.
same_claims : List Claim → List ClaimId → List ClaimId → Bool
unfolding same_found
same_claims claims (x ∷ xs) (y ∷ ys) =
    same_found (claim_by_id claims x) (claim_by_id claims y) && same_claims claims xs ys
same_claims claims _ _ = true

unfoldable pub same_statement : Finding → Finding → List Claim → Bool
unfolding same_claims
same_statement a b claims =
    (a.kind == b.kind)
    && ((a.title_code == b.title_code)
        && ((length a.claim_ids == length b.claim_ids)
            && same_claims claims a.claim_ids b.claim_ids))

abbrev is_less : Ordering → Bool
is_less Ordering.lt = true
is_less _ = false

unfoldable pub less_finding : Finding → Finding → Bool
less_finding a b =
    if not (a.rule_id == b.rule_id)
    then text_lt a.rule_id b.rule_id
    else is_less (compare_finding_id a.finding_id b.finding_id)
