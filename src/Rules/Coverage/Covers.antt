-- ===== src/Rules/Coverage/Covers.antt =====
-- `hasCompatibleListener` of internal/rules/listener/no_matching_listener.go: which recorded
-- listeners count as compatible.
use route_doc.Common.{
  ◌≡◌, ◌↔◌, true, List, [], inl, inr, Option, some, Text, Table, arith, Exists, any, index_into,
  Bool-cases, Option-cases, ◌==◌, ==_iff, eq_number, eq_text, any_iff, Exists-witness,
  witness_Exists,
}
use route_doc.Model.Entities.{Addr, Entity, EndpointIdentity}
use route_doc.Model.Visibility.{ListenerVisibilityScope}
use route_doc.Model.Observations.{Observation, ListenerInventoryEntry}
use route_doc.Model.Runs.{EvidenceRun}
use route_doc.Model.Enums.{
  ObservationKind, Transport, eq_observation_kind, eq_transport, eq_address_family,
}
use route_doc.Rules.Coverage.{
  eq_addr, address_family, binding_covers, listener_endpoint, entry_in_scope, endpoint_in_scope,
  entry_covers, observation_covers, target_destinations, has_compatible_listener,
}
use route_doc.Rules.Coverage.Destinations.{IsDestination, target_destinations_iff, some_destination}

-- The entry has the namespace and the protocol of the scope and its first port, as has the endpoint
-- of its listener.
pub record InScope (entities : Table Entity) (s : ListenerVisibilityScope)
    (p : ListenerInventoryEntry) (e : EndpointIdentity) : Type 0 where
  pub namespace : p.namespace_entity_id ≡ s.namespace_entity_id
  pub protocol : p.protocol ≡ s.protocol
  pub port : p.port ≡ s.port_start
  pub found : listener_endpoint entities p ≡ some e
  pub transport : e.transport ≡ Transport.tcp
  pub endpoint_port : e.port ≡ s.port_start
  pub family : address_family e.address ≡ s.address_family

module _ (entities : Table Entity) (s : ListenerVisibilityScope) where
  entry_in_scope_iff :
      (p : ListenerInventoryEntry) (e : EndpointIdentity)
      → ((entry_in_scope s p ≡ true)
          × (listener_endpoint entities p ≡ some e)
          × (endpoint_in_scope s e ≡ true))
        ↔ InScope entities s p e
  unfolding entry_in_scope endpoint_in_scope
  entry_in_scope_iff p e =
      let a = ==_iff p.namespace_entity_id s.namespace_entity_id in
      let b = ==_iff p.protocol s.protocol in
      let c = ==_iff p.port s.port_start in
      let d = ==_iff e.transport Transport.tcp in
      let f = ==_iff e.port s.port_start in
      let g = ==_iff (address_family e.address) s.address_family in
      (
        λ (h, k, l). record {
          namespace = ground arith;
          protocol = ground arith;
          port = ground arith;
          found = k;
          transport = ground arith;
          endpoint_port = ground arith;
          family = ground arith;
        },
        λ i.
            let a' = a.1 i.namespace in
            let b' = b.1 i.protocol in
            let c' = c.1 i.port in
            let d' = d.1 i.transport in
            let f' = f.1 i.endpoint_port in
            let g' = g.1 i.family in (ground arith, i.found, ground arith),
      )

  -- The observation is of a listener in scope that is bound so that it covers a destination.
  pub record CoversOne (destinations : List Addr) (o : Observation) : Type 0 where
    pub entry : ListenerInventoryEntry
    pub endpoint : EndpointIdentity
    pub kind : o.kind ≡ ObservationKind.listener_inventory_entry
    pub carries : o.payload.listener ≡ some entry
    pub in_scope : InScope entities s entry endpoint
    pub covers :
        Exists (λ d. binding_covers entry.bind_semantics endpoint.address d ≡ true) destinations

  observation_covers_iff :
      (destinations : List Addr) (o : Observation)
      → (observation_covers entities s destinations o ≡ true) ↔ CoversOne destinations o
  unfolding observation_covers entry_covers
  observation_covers_iff destinations o = (
    λ h. elim (Bool-cases (o.kind == ObservationKind.listener_inventory_entry)) [
      | inr k ↦ absurd (ground arith)
      | inl k ↦ elim (Option-cases o.payload.listener) [
        | inl n ↦ absurd (ground arith)
        | inr (p, n) ↦ elim (Option-cases (listener_endpoint entities p)) [
          | inl m ↦ absurd (ground arith)
          | inr (e, m) ↦ record {
            entry = p;
            endpoint = e;
            kind = (==_iff o.kind ObservationKind.listener_inventory_entry).0 k;
            carries = n;
            in_scope = (entry_in_scope_iff p e).0 (ground arith, m, ground arith);
            covers = (any_iff _ _ (λ d. (λ t. t, λ t. t)) destinations).0 (ground arith);
          }
        ]
      ]
    ],
    λ c.
        let k = (==_iff o.kind ObservationKind.listener_inventory_entry).1 c.kind in
        let n = c.carries in
        let (a, m, b) = (entry_in_scope_iff c.entry c.endpoint).1 c.in_scope in
        let t : any (λ d. binding_covers c.entry.bind_semantics c.endpoint.address d) destinations
            ≡ true =
          (any_iff _ _ (λ d. (λ t. t, λ t. t)) destinations).1 c.covers in
        ground arith,
  )

-- The observation is of a listener in scope whose binding covers a destination of the target.
pub record Covers (parse_addr : Text → Option Addr) (r : EvidenceRun) (s : ListenerVisibilityScope)
    (o : Observation) : Type 0 where
  pub entry : ListenerInventoryEntry
  pub endpoint : EndpointIdentity
  pub destination : Addr
  pub kind : o.kind ≡ ObservationKind.listener_inventory_entry
  pub carries : o.payload.listener ≡ some entry
  pub in_scope : InScope (index_into (λ e. e.entity_id) r.entities []) s entry endpoint
  pub is_destination : IsDestination parse_addr r s.address_family destination
  pub covers : binding_covers entry.bind_semantics endpoint.address destination ≡ true

module _ (parse_addr : Text → Option Addr) (r : EvidenceRun) (s : ListenerVisibilityScope) where
  round_iff :
      (o : Observation)
      → (observation_covers
            (index_into (λ e. e.entity_id) r.entities [])
            s
            (target_destinations parse_addr r s.address_family)
            o
          ≡ true)
        ↔ Covers parse_addr r s o
  round_iff o =
      let entities = index_into (λ e. e.entity_id) r.entities [] in
      let destinations = target_destinations parse_addr r s.address_family in
      let one = observation_covers_iff entities s destinations o in
      let is = target_destinations_iff parse_addr r s.address_family in
      (
        λ h.
            let c = one.0 h in
            let (d, m, t) = Exists-witness c.covers in
            record {
              entry = c.entry;
              endpoint = c.endpoint;
              destination = d;
              kind = c.kind;
              carries = c.carries;
              in_scope = c.in_scope;
              is_destination = (is d).0 m;
              covers = t;
            },
        λ c. one.1 (record {
          entry = c.entry;
          endpoint = c.endpoint;
          kind = c.kind;
          carries = c.carries;
          in_scope = c.in_scope;
          covers =
              witness_Exists _ destinations c.destination ((is c.destination).1 c.is_destination)
                c.covers;
        }),
      )

  -- `hasCompatibleListener` accepts exactly when an observation is of a listener with the namespace,
  -- the protocol, the address family and the first port of the scope whose binding covers a
  -- destination of the target in that family.
  pub has_compatible_listener_iff :
      (has_compatible_listener parse_addr r s ≡ true)
      ↔ Exists (Covers parse_addr r s) r.observations
  unfolding has_compatible_listener
  has_compatible_listener_iff =
      let entities = index_into (λ e. e.entity_id) r.entities [] in
      let destinations = target_destinations parse_addr r s.address_family in
      let all_of =
        any_iff (observation_covers entities s destinations) _ round_iff r.observations in
      (
        λ h. all_of.0 (ground arith),
        λ x.
            let t = all_of.1 x in
            let (o, m, c) = Exists-witness x in
            let n = some_destination parse_addr r s.address_family c.destination (
              (target_destinations_iff parse_addr r s.address_family c.destination).1
                c.is_destination) in
            ground arith,
      )
