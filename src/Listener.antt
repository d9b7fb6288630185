-- ===== src/Listener.antt =====
-- internal/model/listener_absence.go: when a listener inventory is complete for its scope.
pub mod Times
pub mod Absence
pub mod Complete
pub mod Agreement
pub mod Meaning
use route_doc.Common.{
  ℕ, suc, Bool, true, false, not, ◌&&◌, ◌||◌, List, [], ◌∷◌, ◌++◌, Option, none, some, Text, codes,
  Table, lookup, index_into, any, all, contains, length, ltb, leb, ◌==◌, eq_number, eq_text,
  if◌then◌else◌,
}
use route_doc.Model.Ids.{EntityId, VantageId, ObservationId}
use route_doc.Model.Entities.{Entity, NamespaceIdentity}
use route_doc.Model.Visibility.{VantagePoint, ListenerVisibilityScope, VisibilityAssessment}
use route_doc.Model.Observations.{
  Observation, ListenerInventoryEntry, ListenerInventoryResult, ProcessOwnershipEntry,
}
use route_doc.Model.Runs.{EvidenceRun}
use route_doc.Model.Enums.{
  EntityKind, VantageKind, ObservationKind, OwnershipResult, VisibilitySubjectKind, VisibilityLevel,
  eq_entity_kind, eq_vantage_kind, eq_observation_kind, eq_ownership_result,
  eq_visibility_subject_kind, eq_visibility_level, eq_transport, eq_address_family,
  eq_bind_semantics, transport_valid, address_family_valid, bind_semantics_valid,
}
use route_doc.Ids.{valid_id}
use route_doc.Listener.Times.{time_coherent}

unfoldable pub entity_id_valid : EntityId → Bool
entity_id_valid id = elim (valid_id id (codes "entity-") false) [ none ↦ true | some e ↦ false ]

unfoldable pub scope_valid : ListenerVisibilityScope → Bool
scope_valid s =
    entity_id_valid s.namespace_entity_id
    && (transport_valid s.protocol
        && (address_family_valid s.address_family
            && (bind_semantics_valid s.bind_semantics && leb s.port_start s.port_end)))

-- The socket class of a result: the same namespace, protocol, family and binding as the scope.
unfoldable pub result_class : ListenerInventoryResult → ListenerVisibilityScope → Bool
result_class p s =
    (p.namespace_entity_id == s.namespace_entity_id)
    && ((p.protocol == s.protocol)
        && ((p.address_family == s.address_family) && (p.bind_semantics == s.bind_semantics)))

unfoldable pub entry_class : ListenerInventoryEntry → ListenerVisibilityScope → Bool
entry_class p s =
    (p.namespace_entity_id == s.namespace_entity_id)
    && ((p.protocol == s.protocol)
        && ((p.address_family == s.address_family) && (p.bind_semantics == s.bind_semantics)))

-- `listenerInventoryResultMatchesVisibility`, for an assessment with the listener scope `s`
unfoldable pub result_matches : ListenerInventoryResult → ListenerVisibilityScope → Bool
result_matches p s =
    result_class p s && (leb p.port_start s.port_start && leb s.port_end p.port_end)

unfoldable pub entry_matches : ListenerInventoryEntry → ListenerVisibilityScope → Bool
entry_matches p s = entry_class p s && (leb s.port_start p.port && leb p.port s.port_end)

unfoldable pub observations_by_id : List Observation → Table Observation
observations_by_id all_of_run = index_into (λ o. o.observation_id) all_of_run []

first_namespace : List Entity → EntityId → Option NamespaceIdentity
first_namespace [] id = none
first_namespace (e ∷ es) id =
    if (e.entity_id == id) && (e.kind == EntityKind.network_namespace)
    then e.identity.namespace
    else first_namespace es id

first_vantage_matches : List VantagePoint → VantageId → NamespaceIdentity → Bool
first_vantage_matches [] id n = false
first_vantage_matches (v ∷ vs) id n =
    if v.vantage_id == id
    then (v.kind == VantageKind.host_namespace) && elim v.identity.host_namespace [
      | none ↦ false
      | some h ↦ h.namespace_inode == n.namespace_inode
    ]
    else first_vantage_matches vs id n

unfoldable pub namespace_matches_vantage : EvidenceRun → EntityId → VantageId → Bool
unfolding first_namespace first_vantage_matches
namespace_matches_vantage r namespace_id vantage_id =
    elim (first_namespace r.entities namespace_id) [
      | none ↦ false
      | some n ↦ first_vantage_matches r.vantage_points vantage_id n
    ]

first_listener : List Entity → EntityId → Option EntityId
first_listener [] id = none
first_listener (e ∷ es) id =
    let rest = first_listener es id in
    if not (e.entity_id == id) || not (e.kind == EntityKind.listener)
    then rest
    else elim e.identity.listener [ none ↦ rest | some l ↦ some e.entity_id ]

-- `concreteListenerKey`, which reads only the entry's listener
unfoldable pub concrete_listener_key : EvidenceRun → EntityId → Option EntityId
unfolding first_listener
concrete_listener_key r id = first_listener r.entities id

-- `*o.VantageID == v.VantageID`, where there is one
unfoldable pub vantage_is : Option VantageId → VantageId → Bool
vantage_is none id = false
vantage_is (some v) id = v == id

-- What the loop over the basis has collected: the keys of `seen`, and three lists.
pub record Basis : Type 0 where
  pub seen : List ObservationId
  pub results : List ListenerInventoryResult
  pub entries : List ListenerInventoryEntry
  pub ownership : List ProcessOwnershipEntry

-- The switch of the loop on the kind of an observation.
unfoldable pub collect : ListenerVisibilityScope → Observation → Basis → Option Basis
collect s o b =
    if o.kind == ObservationKind.listener_inventory_result
    then elim o.payload.listener_inventory_result [
      | none ↦ none
      | some p ↦
          if result_matches p s then some (record b { results = b.results ++ p ∷ [] }) else none
    ]
    else if o.kind == ObservationKind.listener_inventory_entry
    then elim o.payload.listener [
      | none ↦ none
      | some p ↦
          if entry_matches p s then some (record b { entries = b.entries ++ p ∷ [] }) else none
    ]
    else if o.kind == ObservationKind.process_ownership_entry
    then (if not s.process_ownership_required then none else elim o.payload.process_ownership [
      | none ↦ none
      | some p ↦ some (record b { ownership = b.ownership ++ p ∷ [] })
    ])
    else none

-- The guards of the loop on an observation of the basis.
unfoldable pub usable : EvidenceRun → VisibilityAssessment → Observation → Bool
usable r v o =
    vantage_is o.vantage_id v.vantage_id
    && (leb (length o.limitations) 0 && time_coherent r.policy o.observed_at v.assessed_at)

-- The loop over the basis; `none` is `return false`.
unfoldable pub collect_basis :
    EvidenceRun
    → VisibilityAssessment
    → ListenerVisibilityScope
    → List ObservationId
    → Basis
    → Option Basis
collect_basis r v s [] b = some b
collect_basis r v s (id ∷ ids) b =
    if contains b.seen id then none else elim (lookup id (observations_by_id r.observations)) [
      | none ↦ none
      | some o ↦
          if not (usable r v o)
          then none
          else elim (collect s o (record b { seen = id ∷ b.seen })) [
            | none ↦ none
            | some b' ↦ collect_basis r v s ids b'
          ]
    ]
