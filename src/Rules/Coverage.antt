-- ===== src/Rules/Coverage.antt =====
-- Which destinations the target of a run has, and whether a recorded listener covers one of them:
-- internal/rules/listener/no_matching_listener.go below `Evaluate`. `netip.ParseAddr` is a parameter.
pub mod Destinations
pub mod Applies
pub mod Covers
use route_doc.Common.{
  ℕ, Bool, true, false, not, ◌&&◌, ◌||◌, List, [], ◌∷◌, ◌++◌, Option, none, some, Text, codes,
  Table, lookup, index_into, any, length, map, ◌==◌, eq_number, eq_text, by_discrete, Comparable,
  Text-discrete, if◌then◌else◌,
}
use native.Mathlib.Decide.{ℕ_discrete}
use route_doc.Model.Ids.{BranchId, VisibilityId, ObservationId}
use route_doc.Model.Entities.{Addr, no_addr, v4, v6, Entity, EndpointIdentity}
use route_doc.Model.Paths.{EvidenceRef}
use route_doc.Model.Visibility.{ListenerVisibilityScope, VisibilityAssessment}
use route_doc.Model.Observations.{Observation, ListenerInventoryEntry}
use route_doc.Model.Runs.{EvidenceRun}
use route_doc.Model.Enums.{
  ObservationKind, EntityKind, EvidenceKind, ScopeKind, Transport, AddressFamily, BindSemantics,
  ClaimStatementCode, ClaimLevel, FindingKind, FindingTitleCode, Selection, eq_observation_kind,
  eq_entity_kind, eq_evidence_kind, eq_scope_kind, eq_transport, eq_address_family,
}
use route_doc.Listener.Absence.{absence_evidence_valid}
use route_doc.Rules.Templates.{
  EvidenceTemplate, ClaimTemplate, FindingTemplate, RuleCandidate, Rule,
}
use route_doc.Rules.Positions.{branches_for}

pub Addr-discrete : Discrete Addr
Addr-discrete = hlevel (ℕ_discrete, Text-discrete)

instance abbrev pub eq_addr : Comparable Addr
eq_addr = by_discrete Addr-discrete

-- `addressFamily`; `Is6` holds of every IPv6 address, those mapped from IPv4 included.
unfoldable pub address_family : Addr → AddressFamily
address_family (v6 n zone) = AddressFamily.ipv6
address_family (v4 n) = AddressFamily.ipv4
address_family no_addr = AddressFamily.ipv4

unfoldable pub append_unique_address : List Addr → Addr → List Addr
append_unique_address addresses a =
    if any (λ x. x == a) addresses then addresses else addresses ++ a ∷ []

-- The address of a socket endpoint of the target's port and of the family.
unfoldable pub endpoint_address : ℕ → AddressFamily → Entity → Option Addr
unfolding address_family
endpoint_address port family e =
    if not (e.kind == EntityKind.socket_endpoint) then none else elim e.identity.endpoint [
      | none ↦ none
      | some p ↦
          if (p.transport == Transport.tcp)
            && ((p.port == port) && (address_family p.address == family))
          then some p.address
          else none
    ]

-- The loop of `targetDestinations` over the entities.
unfoldable pub add_endpoints : ℕ → AddressFamily → List Addr → List Entity → List Addr
add_endpoints port family result [] = result
add_endpoints port family result (e ∷ es) = elim (endpoint_address port family e) [
  | none ↦ add_endpoints port family result es
  | some a ↦ add_endpoints port family (append_unique_address result a) es
]

-- `IsUnspecified`
unfoldable pub is_unspecified : Addr → Bool
is_unspecified a = (a == v4 0) || (a == v6 0 [])

unfoldable pub binding_covers : BindSemantics → Addr → Addr → Bool
unfolding is_unspecified
binding_covers BindSemantics.exact listener destination = listener == destination
binding_covers BindSemantics.wildcard listener destination = is_unspecified listener
binding_covers BindSemantics.loopback listener destination =
    (destination == v4 0x7f000001) || (destination == v6 1 [])
binding_covers (BindSemantics.invalid s) listener destination = false

-- The endpoint of the listener of an entry, where the entities have it.
unfoldable pub listener_endpoint : Table Entity → ListenerInventoryEntry → Option EndpointIdentity
listener_endpoint entities p = elim (lookup p.listener_entity_id entities) [
  | none ↦ none
  | some e ↦ elim e.identity.listener [ none ↦ none | some l ↦ some l.endpoint ]
]

-- Whether the entry passes the tests of `hasCompatibleListener` on its namespace and port.
unfoldable pub entry_in_scope : ListenerVisibilityScope → ListenerInventoryEntry → Bool
entry_in_scope s p =
    (p.namespace_entity_id == s.namespace_entity_id)
    && ((p.protocol == s.protocol) && (p.port == s.port_start))

unfoldable pub endpoint_in_scope : ListenerVisibilityScope → EndpointIdentity → Bool
unfolding address_family
endpoint_in_scope s e =
    (e.transport == Transport.tcp)
    && ((e.port == s.port_start) && (address_family e.address == s.address_family))

unfoldable pub entry_covers :
    Table Entity → ListenerVisibilityScope → List Addr → ListenerInventoryEntry → Bool
unfolding listener_endpoint entry_in_scope endpoint_in_scope binding_covers
entry_covers entities s destinations p = entry_in_scope s p && elim (listener_endpoint entities p) [
  | none ↦ false
  | some e ↦
      endpoint_in_scope s e && any (λ d. binding_covers p.bind_semantics e.address d) destinations
]

-- One round of the loop of `hasCompatibleListener` over the observations.
unfoldable pub observation_covers :
    Table Entity → ListenerVisibilityScope → List Addr → Observation → Bool
unfolding entry_covers
observation_covers entities s destinations o =
    (o.kind == ObservationKind.listener_inventory_entry)
    && elim o.payload.listener [ none ↦ false | some p ↦ entry_covers entities s destinations p ]

-- A socket endpoint of the target's port, of whatever family.
unfoldable pub is_target_endpoint : ℕ → Entity → Bool
is_target_endpoint port e = (e.kind == EntityKind.socket_endpoint) && elim e.identity.endpoint [
  | none ↦ false
  | some p ↦ (p.transport == Transport.tcp) && (p.port == port)
]

-- The last test of `targetDestinations`, on the address that the host name spells.
unfoldable pub add_named : AddressFamily → List Addr → Option Addr → List Addr
unfolding address_family append_unique_address
add_named family found none = found
add_named family found (some a) =
    if address_family a == family then append_unique_address found a else found

module _ (parse_addr : Text → Option Addr) where
  unfoldable pub target_destinations : EvidenceRun → AddressFamily → List Addr
  unfolding add_endpoints add_named
  target_destinations r family =
      add_named family (add_endpoints r.target.effective_port family [] r.entities)
        (parse_addr r.target.hostname)

  unfoldable pub has_compatible_listener : EvidenceRun → ListenerVisibilityScope → Bool
  unfolding target_destinations observation_covers
  has_compatible_listener r s =
      let destinations = target_destinations r s.address_family in
      not (length destinations == 0)
      && any (observation_covers (index_into (λ e. e.entity_id) r.entities []) s destinations)
          r.observations

  unfoldable pub scope_applies_to_target : EvidenceRun → AddressFamily → Bool
  unfolding target_destinations address_family is_target_endpoint
  scope_applies_to_target r family =
      if not (length (target_destinations r family) == 0)
      then true
      else elim (parse_addr r.target.hostname) [
        | some a ↦ address_family a == family
        | none ↦ not (any (is_target_endpoint r.target.effective_port) r.entities)
      ]
