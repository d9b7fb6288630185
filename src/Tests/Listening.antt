-- ===== src/Tests/Listening.antt =====
-- Absence evidence for a listener at concrete inputs: a run with one empty inventory.
use route_doc.Common.{
  ◌≡◌, ◌↔◌, ◌⊎◌, ◌≤◌, ◌+◌, ◌^◌, refl, [], ◌∷◌, Option, none, some, codes, true, false, pos, arith,
  Exists, All, Text, List, ℕ, contains, any, all, text_eq, lookup, insert, index_into, starts_with,
}
use route_doc.Model.Entities.{Entity, EntityIdentity}
use route_doc.Model.Visibility.{VantagePoint, ListenerVisibilityScope, VisibilityAssessment}
use route_doc.Model.Observations.{Observation, Sensitivity}
use route_doc.Model.Runs.{EvidenceRun}
use route_doc.Model.Enums.{
  EntityKind, VantageKind, VantageRole, VantageEstablishment, Transport, AddressFamily,
  BindSemantics, VisibilitySubjectKind, VisibilityLevel, ObservationKind, AcquisitionMethod,
  SourceComponent, transport_valid, address_family_valid, bind_semantics_valid,
}
use route_doc.Listener.Times.{time_coherent, time_coherent_iff}
use route_doc.Listener.Absence.{absence_evidence_valid, absence_evidence_issue_code}
use route_doc.Listener.Agreement.{absence_evidence_issue_code_iff}
use route_doc.Listener.Meaning.{absence_evidence_valid_sound, EmptyInventory, ListensOn}
use route_doc.Tests.Samples.{evidence}

abbrev pub namespace_id : Text
namespace_id = codes "entity-1"

abbrev pub vantage_id : Text
vantage_id = codes "vantage-1"

abbrev no_identity : EntityKind → EntityIdentity
no_identity kind = record {
  kind = kind;
  url_target = none;
  hostname = none;
  ip_address = none;
  endpoint = none;
  tls_peer = none;
  http_exchange = none;
  opaque = none;
  listener = none;
  process = none;
  container = none;
  namespace = none;
}

abbrev pub host : Entity
host = record {
  entity_id = namespace_id;
  kind = EntityKind.network_namespace;
  display_label = [];
  identity = record (no_identity EntityKind.network_namespace) {
    namespace = some (record { namespace_inode = 7 });
  };
}

abbrev pub host_vantage : VantagePoint
host_vantage = record {
  vantage_id = vantage_id;
  kind = VantageKind.host_namespace;
  role = VantageRole.origin_host;
  display_label = [];
  identity = record {
    kind = VantageKind.host_namespace;
    client_network = none;
    host_namespace = some (record { namespace_inode = 7 });
    container_namespace = none;
    unknown_namespace = none;
  };
  parent_vantage_id = none;
  establishment = VantageEstablishment.directly_observed;
  limitations = [];
}

abbrev pub inventory : Observation
inventory = record {
  observation_id = codes "observation-1";
  kind = ObservationKind.listener_inventory_result;
  subject_entity_ids = [];
  vantage_id = some vantage_id;
  observed_at = 100;
  payload = record {
    kind = ObservationKind.listener_inventory_result;
    resolution = none;
    tcp = none;
    tls_transport = none;
    tls_peer = none;
    certificate_verification = none;
    http = none;
    active_proxy_route = none;
    configured_proxy_route = none;
    upstream_selection = none;
    listener = none;
    listener_inventory_result = some (record {
      namespace_entity_id = namespace_id;
      protocol = Transport.tcp;
      address_family = AddressFamily.ipv4;
      bind_semantics = BindSemantics.wildcard;
      port_start = 1;
      port_end = 65535;
      matching_listener_count = 0;
    });
    process_ownership = none;
    docker = none;
    capability = none;
  };
  acquisition_method = AcquisitionMethod.system_inspection;
  source_component = SourceComponent.socket_inspector;
  sensitivity = Sensitivity.sanitized_derived;
  limitations = [];
}

abbrev listener_run : EvidenceRun
listener_run = record evidence {
  entities = host ∷ [];
  vantage_points = host_vantage ∷ [];
  observations = inventory ∷ [];
}

abbrev pub assessment : VisibilityAssessment
assessment = record {
  visibility_id = codes "visibility-1";
  subject_kind = VisibilitySubjectKind.listener;
  vantage_id = vantage_id;
  scope = record {
    kind = codes "LISTENER";
    listener = some (record {
      namespace_entity_id = namespace_id;
      protocol = Transport.tcp;
      address_family = AddressFamily.ipv4;
      bind_semantics = BindSemantics.wildcard;
      port_start = 8080;
      port_end = 8080;
      process_ownership_required = false;
    });
  };
  level = VisibilityLevel.complete_for_scope;
  basis_observation_ids = codes "observation-1" ∷ [];
  limitations = [];
  assessed_at = 200;
}

port_is_free : absence_evidence_valid listener_run assessment 8080 ≡ true
unfolding absence_evidence_valid route_doc.Listener.Complete.listener_visibility_complete
    route_doc.Listener.Complete.complete_for route_doc.Listener.Complete.is_listener_assessment
    route_doc.Common.same route_doc.Model.Enums.VisibilitySubjectKind-discrete
    route_doc.Model.Enums.VisibilityLevel-discrete text_eq route_doc.Listener.scope_valid
    route_doc.Listener.entity_id_valid route_doc.Ids.valid_id route_doc.Utf8.valid_string
    route_doc.Utf8.utf8_from starts_with any all transport_valid native.Mathlib.Decide.ℕ_discrete
    route_doc.Common.is_negative index_into insert lookup route_doc.Common.Text-discrete contains
    route_doc.Decimal.Value.value route_doc.Ids.is_bad_rune route_doc.Ids.is_digit
    route_doc.Ids.parse_uint route_doc.Listener.Absence.contradicts
    route_doc.Listener.Absence.has_only_zero_results route_doc.Listener.Absence.outside_scope
    route_doc.Listener.Absence.tells_of_listener route_doc.Listener.Absence.zero_results
    route_doc.Listener.Complete.add_key route_doc.Listener.Complete.basis_complete
    route_doc.Listener.Complete.listener_keys route_doc.Listener.Complete.owned_keys
    route_doc.Listener.Complete.owners_complete route_doc.Listener.Complete.same_result
    route_doc.Listener.Times.duration_le route_doc.Listener.Times.negate time_coherent
    route_doc.Listener.Times.time_sub route_doc.Listener.collect route_doc.Listener.collect_basis
    route_doc.Listener.concrete_listener_key route_doc.Listener.entry_class
    route_doc.Listener.entry_matches route_doc.Listener.namespace_matches_vantage
    route_doc.Listener.observations_by_id route_doc.Listener.result_class
    route_doc.Listener.result_matches route_doc.Listener.usable route_doc.Listener.vantage_is
    route_doc.Model.Enums.ObservationKind-discrete route_doc.Model.Enums.OwnershipResult-discrete
    route_doc.Model.Enums.AddressFamily-discrete route_doc.Model.Enums.BindSemantics-discrete
    route_doc.Model.Enums.EntityKind-discrete route_doc.Model.Enums.Transport-discrete
    route_doc.Model.Enums.VantageKind-discrete address_family_valid bind_semantics_valid
    route_doc.Utf8.utf8_step
port_is_free = refl

absence_evidence_issue_code_iff_example :
    (absence_evidence_issue_code listener_run assessment 8080 ≡ none)
    ↔ (absence_evidence_valid listener_run assessment 8080 ≡ true)
absence_evidence_issue_code_iff_example =
    absence_evidence_issue_code_iff listener_run assessment 8080

absence_evidence_valid_sound_example :
    (s : ListenerVisibilityScope) × (assessment.scope.listener ≡ some s)
    × (s.port_start ≤ 8080)
    × (8080 ≤ s.port_end)
    × Exists (EmptyInventory listener_run assessment s) assessment.basis_observation_ids
    × All (λ o. ¬ ListensOn listener_run assessment s 8080 o) listener_run.observations
absence_evidence_valid_sound_example =
    absence_evidence_valid_sound listener_run assessment 8080 port_is_free

time_coherent_iff_example :
    (time_coherent (record { coherence_window_ns = pos 60 }) 100 150 ≡ true)
    ↔ (((100 ≤ 150 + 60) × (150 ≤ 100 + 60)) ⊎ (100 + 2 ^ 63 ≤ 150))
time_coherent_iff_example = time_coherent_iff 60 100 150 (omega arith)
