-- ===== src/Model/Enums/Routes.antt =====
-- The string types of internal/model/enums.go for entities, the service path and sockets. A constructor stands for each constant,
-- and `invalid s` for a string `s` that is none of them.
use mathlib.Core.Bool.{Bool, true, false}
use route_doc.Common.{Text, Text-discrete, Comparable, by_discrete}

pub data EntityKind : Type 0 where
  url_target hostname ip_address socket_endpoint tls_peer http_exchange : EntityKind
  proxy_instance proxy_route upstream_endpoint listener process container : EntityKind
  network_namespace : EntityKind
  invalid : Text → EntityKind

unfoldable pub entity_kind_valid : EntityKind → Bool
entity_kind_valid EntityKind.url_target = true
entity_kind_valid EntityKind.hostname = true
entity_kind_valid EntityKind.ip_address = true
entity_kind_valid EntityKind.socket_endpoint = true
entity_kind_valid EntityKind.tls_peer = true
entity_kind_valid EntityKind.http_exchange = true
entity_kind_valid EntityKind.proxy_instance = true
entity_kind_valid EntityKind.proxy_route = true
entity_kind_valid EntityKind.upstream_endpoint = true
entity_kind_valid EntityKind.listener = true
entity_kind_valid EntityKind.process = true
entity_kind_valid EntityKind.container = true
entity_kind_valid EntityKind.network_namespace = true
entity_kind_valid (EntityKind.invalid s) = false

unfoldable pub EntityKind-discrete : Discrete EntityKind
EntityKind-discrete = hlevel Text-discrete

instance abbrev pub eq_entity_kind : Comparable EntityKind
eq_entity_kind = by_discrete EntityKind-discrete

pub data PathProvenance : Type 0 where
  operator_asserted directly_observed active_runtime_config configured_intent : PathProvenance
  invalid : Text → PathProvenance

unfoldable pub path_provenance_valid : PathProvenance → Bool
path_provenance_valid PathProvenance.operator_asserted = true
path_provenance_valid PathProvenance.directly_observed = true
path_provenance_valid PathProvenance.active_runtime_config = true
path_provenance_valid PathProvenance.configured_intent = true
path_provenance_valid (PathProvenance.invalid s) = false

unfoldable pub PathProvenance-discrete : Discrete PathProvenance
PathProvenance-discrete = hlevel Text-discrete

instance abbrev pub eq_path_provenance : Comparable PathProvenance
eq_path_provenance = by_discrete PathProvenance-discrete

pub data PathRelation : Type 0 where
  resolves_to connects_to negotiates_tls_with verifies requests_http_from : PathRelation
  redirects_to routes_to selects_upstream listens_on owned_by associated_with : PathRelation
  invalid : Text → PathRelation

unfoldable pub path_relation_valid : PathRelation → Bool
path_relation_valid PathRelation.resolves_to = true
path_relation_valid PathRelation.connects_to = true
path_relation_valid PathRelation.negotiates_tls_with = true
path_relation_valid PathRelation.verifies = true
path_relation_valid PathRelation.requests_http_from = true
path_relation_valid PathRelation.redirects_to = true
path_relation_valid PathRelation.routes_to = true
path_relation_valid PathRelation.selects_upstream = true
path_relation_valid PathRelation.listens_on = true
path_relation_valid PathRelation.owned_by = true
path_relation_valid PathRelation.associated_with = true
path_relation_valid (PathRelation.invalid s) = false

pub data AddressFamily : Type 0 where
  ipv4 ipv6 : AddressFamily
  invalid : Text → AddressFamily

unfoldable pub address_family_valid : AddressFamily → Bool
address_family_valid AddressFamily.ipv4 = true
address_family_valid AddressFamily.ipv6 = true
address_family_valid (AddressFamily.invalid s) = false

unfoldable pub AddressFamily-discrete : Discrete AddressFamily
AddressFamily-discrete = hlevel Text-discrete

instance abbrev pub eq_address_family : Comparable AddressFamily
eq_address_family = by_discrete AddressFamily-discrete

pub data Transport : Type 0 where
  tcp udp : Transport
  invalid : Text → Transport

unfoldable pub transport_valid : Transport → Bool
transport_valid Transport.tcp = true
transport_valid Transport.udp = true
transport_valid (Transport.invalid s) = false

unfoldable pub Transport-discrete : Discrete Transport
Transport-discrete = hlevel Text-discrete

instance abbrev pub eq_transport : Comparable Transport
eq_transport = by_discrete Transport-discrete

pub data BindSemantics : Type 0 where
  exact wildcard loopback : BindSemantics
  invalid : Text → BindSemantics

unfoldable pub bind_semantics_valid : BindSemantics → Bool
bind_semantics_valid BindSemantics.exact = true
bind_semantics_valid BindSemantics.wildcard = true
bind_semantics_valid BindSemantics.loopback = true
bind_semantics_valid (BindSemantics.invalid s) = false

unfoldable pub BindSemantics-discrete : Discrete BindSemantics
BindSemantics-discrete = hlevel Text-discrete

instance abbrev pub eq_bind_semantics : Comparable BindSemantics
eq_bind_semantics = by_discrete BindSemantics-discrete
