-- ===== src/Rules/Coverage/Destinations.antt =====
-- `targetDestinations` of internal/rules/listener/no_matching_listener.go: which addresses it finds.
use route_doc.Common.{
  ℕ, ◌≡◌, ◌↔◌, ◌⊎◌, sym, ap, true, false, List, [], ◌∷◌, ◌++◌, inl, inr, Option, none, some, Text,
  arith, Exists, now, later, any, length, Bool-cases, Option-cases, ◌==◌, ==_iff, eq_number,
}
use mathlib.Core.Path.{subst}
use route_doc.Model.Entities.{Addr, Entity, EndpointIdentity}
use route_doc.Model.Runs.{EvidenceRun}
use route_doc.Model.Enums.{
  EntityKind, Transport, AddressFamily, eq_entity_kind, eq_transport, eq_address_family,
}
use route_doc.Rules.Coverage.{
  eq_addr, address_family, append_unique_address, endpoint_address, add_endpoints, add_named,
  target_destinations,
}

-- The entity is a TCP endpoint with the port and the address, which is of the family.
pub record HasAddress (port : ℕ) (family : AddressFamily) (a : Addr) (e : Entity) : Type 0 where
  pub endpoint : EndpointIdentity
  pub kind : e.kind ≡ EntityKind.socket_endpoint
  pub carries : e.identity.endpoint ≡ some endpoint
  pub transport : endpoint.transport ≡ Transport.tcp
  pub port_is : endpoint.port ≡ port
  pub family_is : address_family endpoint.address ≡ family
  pub address_is : endpoint.address ≡ a

endpoint_address_iff :
    (port : ℕ) (family : AddressFamily) (a : Addr) (e : Entity)
    → (endpoint_address port family e ≡ some a) ↔ HasAddress port family a e
unfolding endpoint_address
endpoint_address_iff port family a e = (
  λ h. elim (Bool-cases (e.kind == EntityKind.socket_endpoint)) [
    | inr k ↦ absurd (ground arith)
    | inl k ↦ elim (Option-cases e.identity.endpoint) [
      | inl n ↦ absurd (ground arith)
      | inr (p, n) ↦
          let t = ==_iff p.transport Transport.tcp in
          let q = ==_iff p.port port in
          let f = ==_iff (address_family p.address) family in
          record {
            endpoint = p;
            kind = (==_iff e.kind EntityKind.socket_endpoint).0 k;
            carries = n;
            transport = ground arith;
            port_is = ground arith;
            family_is = ground arith;
            address_is = ground arith;
          }
    ]
  ],
  λ c.
      let k = (==_iff e.kind EntityKind.socket_endpoint).1 c.kind in
      let n = c.carries in
      let t = (==_iff c.endpoint.transport Transport.tcp).1 c.transport in
      let q = (==_iff c.endpoint.port port).1 c.port_is in
      let f = (==_iff (address_family c.endpoint.address) family).1 c.family_is in
      let a_is = c.address_is in ground arith,
)

abbrev pub Among : Addr → List Addr → Type 0
Among a = Exists (λ b. a ≡ b)

any_equal_iff : (a : Addr) (xs : List Addr) → (any (λ x. x == a) xs ≡ true) ↔ Among a xs
unfolding any
any_equal_iff a [] = (λ h. cc, λ x. elim x [ ])
any_equal_iff a (x ∷ xs) =
    let here = ==_iff x a in
    let rest = any_equal_iff a xs in
    (
      λ h. elim (Bool-cases (x == a)) [
        | inl e ↦ now (sym (here.0 e))
        | inr e ↦ later (rest.0 (ground arith))
      ],
      λ m. elim m [
        | now e ↦ let t = here.1 (sym e) in ground arith
        | later k ↦ let t = rest.1 k in ground arith
      ],
    )

Among-append : (a b : Addr) (xs : List Addr) → Among a (xs ++ b ∷ []) ↔ (Among a xs ⊎ (a ≡ b))
Among-append a b [] = (
  λ m. elim m [ now e ↦ inr e | later k ↦ elim k [ ] ],
  λ s. elim s [ inl k ↦ elim k [ ] | inr e ↦ now e ],
)
Among-append a b (x ∷ xs) =
    let rest = Among-append a b xs in
    (
      λ m. elim m [
        | now e ↦ inl (now e)
        | later k ↦ elim (rest.0 k) [ inl y ↦ inl (later y) | inr e ↦ inr e ]
      ],
      λ s. elim s [
        | inl (now e) ↦ now e
        | inl (later k) ↦ later (rest.1 (inl k))
        | inr e ↦ later (rest.1 (inr e))
      ],
    )

append_unique_iff :
    (a b : Addr) (xs : List Addr) → Among a (append_unique_address xs b) ↔ (Among a xs ⊎ (a ≡ b))
unfolding append_unique_address
append_unique_iff a b xs = elim (Bool-cases (any (λ x. x == b) xs)) [
  | inr k ↦ rw (k, append_unique_address) (Among-append a b xs)
  | inl k ↦
      rw (k, append_unique_address)
        (
          λ m. inl m,
          λ s. elim s [
            | inl m ↦ m
            | inr e ↦ subst (λ c. Among c xs) (sym e) ((any_equal_iff b xs).0 k)
          ],
        )
]

add_endpoints_iff :
    (port : ℕ) (family : AddressFamily) (a : Addr) (result : List Addr) (es : List Entity)
    → Among a (add_endpoints port family result es)
      ↔ (Among a result ⊎ Exists (HasAddress port family a) es)
unfolding add_endpoints
add_endpoints_iff port family a result [] =
    (λ m. inl m, λ s. elim s [ inl m ↦ m | inr k ↦ elim k [ ] ])
add_endpoints_iff port family a result (e ∷ es) =
    elim (Option-cases (endpoint_address port family e)) [
      | inl n ↦
          let rest = add_endpoints_iff port family a result es in
          rw (n, add_endpoints)
            (
              λ m. elim (rest.0 m) [ inl x ↦ inl x | inr x ↦ inr (later x) ],
              λ s. elim s [
                | inl x ↦ rest.1 (inl x)
                | inr (later x) ↦ rest.1 (inr x)
                | inr (now x) ↦
                    let c = (endpoint_address_iff port family a e).1 x in absurd (ground arith)
              ],
            )
      | inr (b, n) ↦
          let rest = add_endpoints_iff port family a (append_unique_address result b) es in
          let one = append_unique_iff a b result in
          rw (n, add_endpoints)
            (
              λ m. elim (rest.0 m) [
                | inr x ↦ inr (later x)
                | inl x ↦ elim (one.0 x) [
                  | inl y ↦ inl y
                  | inr same ↦ inr (now ((endpoint_address_iff port family a e).0 (ground arith)))
                ]
              ],
              λ s. elim s [
                | inl x ↦ rest.1 (inl (one.1 (inl x)))
                | inr (later x) ↦ rest.1 (inr x)
                | inr (now x) ↦
                    let c = (endpoint_address_iff port family a e).1 x in
                    rest.1 (inl (one.1 (inr (ground arith))))
              ],
            )
    ]

not_empty : (a : Addr) (xs : List Addr) → Among a xs → (length xs == 0) ≡ false
not_empty a [] m = elim m [ ]
not_empty a (x ∷ xs) m = ground arith

add_named_iff :
    (family : AddressFamily) (a : Addr) (found : List Addr) (o : Option Addr)
    → Among a (add_named family found o)
      ↔ (Among a found ⊎ ((o ≡ some a) × (address_family a ≡ family)))
unfolding add_named
add_named_iff family a found none =
    (λ m. inl m, λ s. elim s [ inl m ↦ m | inr (e, f) ↦ absurd (ground arith) ])
add_named_iff family a found (some b) =
    let t = ==_iff (address_family b) family in
    elim (Bool-cases (address_family b == family)) [
      | inr k ↦
          rw (k, add_named)
            (
              λ m. inl m,
              λ s. elim s [
                | inl m ↦ m
                | inr (e, f) ↦
                    let same : b ≡ a = ground arith in
                    let is_family : address_family b ≡ family = rw same f in absurd (ground arith)
              ],
            )
      | inl k ↦
          let one = append_unique_iff a b found in
          let is_family = t.0 k in
          rw (k, add_named)
            (
              λ m. elim (one.0 m) [
                | inl x ↦ inl x
                | inr e ↦
                    inr (ap some (sym e), subst (λ c. address_family c ≡ family) (sym e) is_family)
              ],
              λ s. elim s [ inl m ↦ one.1 (inl m) | inr (e, f) ↦ one.1 (inr (ground arith)) ],
            )
    ]

-- The address is that of a TCP endpoint with the target's port, or the one that the target's host
-- name spells; it is of the family.
abbrev pub IsDestination : (Text → Option Addr) → EvidenceRun → AddressFamily → Addr → Type 0
IsDestination parse_addr r family a =
    Exists (HasAddress r.target.effective_port family a) r.entities
    ⊎ ((parse_addr r.target.hostname ≡ some a) × (address_family a ≡ family))

module _ (parse_addr : Text → Option Addr) (r : EvidenceRun) (family : AddressFamily) where
  pub target_destinations_iff :
      (a : Addr)
      → Among a (target_destinations parse_addr r family) ↔ IsDestination parse_addr r family a
  unfolding target_destinations
  target_destinations_iff a =
      let found = add_endpoints r.target.effective_port family [] r.entities in
      let ends = add_endpoints_iff r.target.effective_port family a [] r.entities in
      let named = add_named_iff family a found (parse_addr r.target.hostname) in
      (
        λ m. elim (named.0 m) [
          | inr x ↦ inr x
          | inl x ↦ elim (ends.0 x) [ inl y ↦ elim y [ ] | inr y ↦ inl y ]
        ],
        λ d. elim d [ inl x ↦ named.1 (inl (ends.1 (inr x))) | inr x ↦ named.1 (inr x) ],
      )

  -- There is a destination only when the list is not empty.
  pub some_destination :
      (a : Addr)
      → Among a (target_destinations parse_addr r family)
      → (length (target_destinations parse_addr r family) == 0) ≡ false
  some_destination a m = not_empty a (target_destinations parse_addr r family) m
