-- ===== src/Model/Enums/Strings.antt =====
-- `string(v)` for the values `v` of some of the string types of internal/model/enums.go.
use route_doc.Common.{Text, codes}
use route_doc.Model.Enums.Outcomes.{ObservationKind}
use route_doc.Model.Enums.Reports.{VisibilitySubjectKind}
use route_doc.Model.Enums.Routes.{Transport}
use route_doc.Model.Enums.Routes.{AddressFamily}
use route_doc.Model.Enums.Routes.{BindSemantics}

unfoldable pub observation_kind_text : ObservationKind → Text
observation_kind_text ObservationKind.system_resolution_result = codes "SYSTEM_RESOLUTION_RESULT"
observation_kind_text ObservationKind.tcp_connection_result = codes "TCP_CONNECTION_RESULT"
observation_kind_text ObservationKind.tls_transport_result = codes "TLS_TRANSPORT_RESULT"
observation_kind_text ObservationKind.tls_peer_summary = codes "TLS_PEER_SUMMARY"
observation_kind_text ObservationKind.certificate_verification_result =
    codes "CERTIFICATE_VERIFICATION_RESULT"
observation_kind_text ObservationKind.http_result = codes "HTTP_RESULT"
observation_kind_text ObservationKind.active_proxy_route_summary =
    codes "ACTIVE_PROXY_ROUTE_SUMMARY"
observation_kind_text ObservationKind.configured_proxy_route_summary =
    codes "CONFIGURED_PROXY_ROUTE_SUMMARY"
observation_kind_text ObservationKind.upstream_selection_summary =
    codes "UPSTREAM_SELECTION_SUMMARY"
observation_kind_text ObservationKind.listener_inventory_entry = codes "LISTENER_INVENTORY_ENTRY"
observation_kind_text ObservationKind.listener_inventory_result = codes "LISTENER_INVENTORY_RESULT"
observation_kind_text ObservationKind.process_ownership_entry = codes "PROCESS_OWNERSHIP_ENTRY"
observation_kind_text ObservationKind.docker_runtime_summary = codes "DOCKER_RUNTIME_SUMMARY"
observation_kind_text ObservationKind.capability_permission_result =
    codes "CAPABILITY_PERMISSION_RESULT"
observation_kind_text (ObservationKind.invalid s) = s

unfoldable pub visibility_subject_kind_text : VisibilitySubjectKind → Text
visibility_subject_kind_text VisibilitySubjectKind.listener = codes "LISTENER"
visibility_subject_kind_text (VisibilitySubjectKind.invalid s) = s

unfoldable pub transport_text : Transport → Text
transport_text Transport.tcp = codes "TCP"
transport_text Transport.udp = codes "UDP"
transport_text (Transport.invalid s) = s

unfoldable pub address_family_text : AddressFamily → Text
address_family_text AddressFamily.ipv4 = codes "IPV4"
address_family_text AddressFamily.ipv6 = codes "IPV6"
address_family_text (AddressFamily.invalid s) = s

unfoldable pub bind_semantics_text : BindSemantics → Text
bind_semantics_text BindSemantics.exact = codes "EXACT"
bind_semantics_text BindSemantics.wildcard = codes "WILDCARD"
bind_semantics_text BindSemantics.loopback = codes "LOOPBACK"
bind_semantics_text (BindSemantics.invalid s) = s
