-- ===== src/Rules/Coverage/Applies.antt =====
-- `scopeAppliesToTarget` of internal/rules/listener/no_matching_listener.go.
use route_doc.Common.{
  ℕ, ◌≡◌, ◌↔◌, ◌⊎◌, refl, true, List, [], ◌∷◌, inl, inr, Option, none, Text, arith, Exists, now,
  any, length, Bool-cases, Option-cases, ◌==◌, ==_iff, eq_number, any_iff,
}
use route_doc.Model.Entities.{Addr, Entity}
use route_doc.Model.Runs.{EvidenceRun}
use route_doc.Model.Enums.{
  EntityKind, Transport, AddressFamily, eq_entity_kind, eq_transport, eq_address_family,
}
use route_doc.Rules.Coverage.{
  address_family, is_target_endpoint, target_destinations, scope_applies_to_target,
}
use route_doc.Rules.Coverage.Destinations.{
  Among, HasAddress, IsDestination, target_destinations_iff, some_destination,
}

-- The entity is a TCP endpoint with the port, of whatever address.
abbrev pub IsEndpoint : ℕ → Entity → Type 0
IsEndpoint port e = (a : Addr) × HasAddress port (address_family a) a e

is_target_endpoint_iff :
    (port : ℕ) (e : Entity) → (is_target_endpoint port e ≡ true) ↔ IsEndpoint port e
unfolding is_target_endpoint
is_target_endpoint_iff port e = (
  λ h. elim (Bool-cases (e.kind == EntityKind.socket_endpoint)) [
    | inr k ↦ absurd (ground arith)
    | inl k ↦ elim (Option-cases e.identity.endpoint) [
      | inl n ↦ absurd (ground arith)
      | inr (p, n) ↦
          let t = ==_iff p.transport Transport.tcp in
          let q = ==_iff p.port port in
          (
            p.address,
            record {
              endpoint = p;
              kind = (==_iff e.kind EntityKind.socket_endpoint).0 k;
              carries = n;
              transport = ground arith;
              port_is = ground arith;
              family_is = refl;
              address_is = refl;
            },
          )
    ]
  ],
  λ (a, c).
      let k = (==_iff e.kind EntityKind.socket_endpoint).1 c.kind in
      let n = c.carries in
      let t = (==_iff c.endpoint.transport Transport.tcp).1 c.transport in
      let q = (==_iff c.endpoint.port port).1 c.port_is in ground arith,
)

-- The target has a destination in the family; or neither does its host name spell an address, nor is
-- any of its endpoints known.
abbrev pub IsApplicable : (Text → Option Addr) → EvidenceRun → AddressFamily → Type 0
IsApplicable parse_addr r family =
    ((a : Addr) × IsDestination parse_addr r family a)
    ⊎ ((parse_addr r.target.hostname ≡ none)
        × ¬ Exists (IsEndpoint r.target.effective_port) r.entities)

list_cases : (xs : List Addr) → ((length xs == 0) ≡ true) ⊎ ((a : Addr) × Among a xs)
list_cases [] = inl (ground arith)
list_cases (x ∷ xs) = inr (x, now refl)

module _ (parse_addr : Text → Option Addr) (r : EvidenceRun) (family : AddressFamily) where
  pub scope_applies_to_target_iff :
      (scope_applies_to_target parse_addr r family ≡ true) ↔ IsApplicable parse_addr r family
  unfolding scope_applies_to_target
  scope_applies_to_target_iff =
      let is = target_destinations_iff parse_addr r family in
      let ends =
        any_iff (is_target_endpoint r.target.effective_port) _
          (is_target_endpoint_iff r.target.effective_port) r.entities in
      (
        λ h. elim (list_cases (target_destinations parse_addr r family)) [
          | inr (a, m) ↦ inl (a, (is a).0 m)
          | inl n ↦ elim (Option-cases (parse_addr r.target.hostname)) [
            | inr (a, e) ↦
                let f : (address_family a == family) ≡ true = ground arith in
                inl (a, inr (e, (==_iff (address_family a) family).0 f))
            | inl e ↦ inr (e, λ x. let t = ends.1 x in ground arith)
          ]
        ],
        λ s. elim s [
          | inl (a, d) ↦ let n = some_destination parse_addr r family a ((is a).1 d) in ground arith
          | inr (e, no_end) ↦ elim (list_cases (target_destinations parse_addr r family)) [
            | inr (a, m) ↦ let n = some_destination parse_addr r family a m in ground arith
            | inl n ↦
                elim (Bool-cases (any (is_target_endpoint r.target.effective_port) r.entities)) [
                  | inl t ↦ absurd (no_end (ends.0 t))
                  | inr t ↦ ground arith
                ]
          ]
        ],
      )
