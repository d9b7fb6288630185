-- ===== src/Model/Enums/Outcomes.antt =====
-- The string types of internal/model/enums.go for checks and observations. A constructor stands for each constant,
-- and `invalid s` for a string `s` that is none of them.
use mathlib.Core.Bool.{Bool, true, false}
use route_doc.Common.{Text, Text-discrete, Comparable, by_discrete}

pub data CheckLifecycle : Type 0 where
  not_run completed unavailable denied timed_out error : CheckLifecycle
  invalid : Text → CheckLifecycle

unfoldable pub check_lifecycle_valid : CheckLifecycle → Bool
check_lifecycle_valid CheckLifecycle.not_run = true
check_lifecycle_valid CheckLifecycle.completed = true
check_lifecycle_valid CheckLifecycle.unavailable = true
check_lifecycle_valid CheckLifecycle.denied = true
check_lifecycle_valid CheckLifecycle.timed_out = true
check_lifecycle_valid CheckLifecycle.error = true
check_lifecycle_valid (CheckLifecycle.invalid s) = false

unfoldable pub CheckLifecycle-discrete : Discrete CheckLifecycle
CheckLifecycle-discrete = hlevel Text-discrete

instance abbrev pub eq_check_lifecycle : Comparable CheckLifecycle
eq_check_lifecycle = by_discrete CheckLifecycle-discrete

pub data CheckVerdict : Type 0 where
  pass fail unknown skipped : CheckVerdict
  invalid : Text → CheckVerdict

unfoldable pub check_verdict_valid : CheckVerdict → Bool
check_verdict_valid CheckVerdict.pass = true
check_verdict_valid CheckVerdict.fail = true
check_verdict_valid CheckVerdict.unknown = true
check_verdict_valid CheckVerdict.skipped = true
check_verdict_valid (CheckVerdict.invalid s) = false

unfoldable pub CheckVerdict-discrete : Discrete CheckVerdict
CheckVerdict-discrete = hlevel Text-discrete

instance abbrev pub eq_check_verdict : Comparable CheckVerdict
eq_check_verdict = by_discrete CheckVerdict-discrete

pub data CheckKind : Type 0 where
  system_resolution tcp_connection tls_transport tls_peer certificate_verification : CheckKind
  http active_proxy_route configured_proxy_route upstream_selection : CheckKind
  listener_inventory process_ownership docker_runtime capability_permission : CheckKind
  invalid : Text → CheckKind

unfoldable pub check_kind_valid : CheckKind → Bool
check_kind_valid CheckKind.system_resolution = true
check_kind_valid CheckKind.tcp_connection = true
check_kind_valid CheckKind.tls_transport = true
check_kind_valid CheckKind.tls_peer = true
check_kind_valid CheckKind.certificate_verification = true
check_kind_valid CheckKind.http = true
check_kind_valid CheckKind.active_proxy_route = true
check_kind_valid CheckKind.configured_proxy_route = true
check_kind_valid CheckKind.upstream_selection = true
check_kind_valid CheckKind.listener_inventory = true
check_kind_valid CheckKind.process_ownership = true
check_kind_valid CheckKind.docker_runtime = true
check_kind_valid CheckKind.capability_permission = true
check_kind_valid (CheckKind.invalid s) = false

pub data CheckInputKind : Type 0 where
  subject network with_assertion : CheckInputKind
  invalid : Text → CheckInputKind

unfoldable pub check_input_kind_valid : CheckInputKind → Bool
check_input_kind_valid CheckInputKind.subject = true
check_input_kind_valid CheckInputKind.network = true
check_input_kind_valid CheckInputKind.with_assertion = true
check_input_kind_valid (CheckInputKind.invalid s) = false

pub data ExpectedConditionKind : Type 0 where
  result family port hostname status_range matcher_result capability_state : ExpectedConditionKind
  invalid : Text → ExpectedConditionKind

unfoldable pub expected_condition_kind_valid : ExpectedConditionKind → Bool
expected_condition_kind_valid ExpectedConditionKind.result = true
expected_condition_kind_valid ExpectedConditionKind.family = true
expected_condition_kind_valid ExpectedConditionKind.port = true
expected_condition_kind_valid ExpectedConditionKind.hostname = true
expected_condition_kind_valid ExpectedConditionKind.status_range = true
expected_condition_kind_valid ExpectedConditionKind.matcher_result = true
expected_condition_kind_valid ExpectedConditionKind.capability_state = true
expected_condition_kind_valid (ExpectedConditionKind.invalid s) = false

pub data ObservationKind : Type 0 where
  system_resolution_result tcp_connection_result tls_transport_result : ObservationKind
  tls_peer_summary certificate_verification_result http_result : ObservationKind
  active_proxy_route_summary configured_proxy_route_summary : ObservationKind
  upstream_selection_summary listener_inventory_entry : ObservationKind
  listener_inventory_result process_ownership_entry docker_runtime_summary : ObservationKind
  capability_permission_result : ObservationKind
  invalid : Text → ObservationKind

unfoldable pub observation_kind_valid : ObservationKind → Bool
observation_kind_valid ObservationKind.system_resolution_result = true
observation_kind_valid ObservationKind.tcp_connection_result = true
observation_kind_valid ObservationKind.tls_transport_result = true
observation_kind_valid ObservationKind.tls_peer_summary = true
observation_kind_valid ObservationKind.certificate_verification_result = true
observation_kind_valid ObservationKind.http_result = true
observation_kind_valid ObservationKind.active_proxy_route_summary = true
observation_kind_valid ObservationKind.configured_proxy_route_summary = true
observation_kind_valid ObservationKind.upstream_selection_summary = true
observation_kind_valid ObservationKind.listener_inventory_entry = true
observation_kind_valid ObservationKind.listener_inventory_result = true
observation_kind_valid ObservationKind.process_ownership_entry = true
observation_kind_valid ObservationKind.docker_runtime_summary = true
observation_kind_valid ObservationKind.capability_permission_result = true
observation_kind_valid (ObservationKind.invalid s) = false

unfoldable pub ObservationKind-discrete : Discrete ObservationKind
ObservationKind-discrete = hlevel Text-discrete

instance abbrev pub eq_observation_kind : Comparable ObservationKind
eq_observation_kind = by_discrete ObservationKind-discrete

pub data AcquisitionMethod : Type 0 where
  direct_probe active_runtime_api configured_intent_source system_inspection : AcquisitionMethod
  synthetic_fixture : AcquisitionMethod
  invalid : Text → AcquisitionMethod

unfoldable pub acquisition_method_valid : AcquisitionMethod → Bool
acquisition_method_valid AcquisitionMethod.direct_probe = true
acquisition_method_valid AcquisitionMethod.active_runtime_api = true
acquisition_method_valid AcquisitionMethod.configured_intent_source = true
acquisition_method_valid AcquisitionMethod.system_inspection = true
acquisition_method_valid AcquisitionMethod.synthetic_fixture = true
acquisition_method_valid (AcquisitionMethod.invalid s) = false

pub data SourceComponent : Type 0 where
  system_resolver tcp_probe tls_probe certificate_verifier http_probe : SourceComponent
  caddy_adapter socket_inspector process_inspector docker_adapter : SourceComponent
  synthetic_fixture : SourceComponent
  invalid : Text → SourceComponent

unfoldable pub source_component_valid : SourceComponent → Bool
source_component_valid SourceComponent.system_resolver = true
source_component_valid SourceComponent.tcp_probe = true
source_component_valid SourceComponent.tls_probe = true
source_component_valid SourceComponent.certificate_verifier = true
source_component_valid SourceComponent.http_probe = true
source_component_valid SourceComponent.caddy_adapter = true
source_component_valid SourceComponent.socket_inspector = true
source_component_valid SourceComponent.process_inspector = true
source_component_valid SourceComponent.docker_adapter = true
source_component_valid SourceComponent.synthetic_fixture = true
source_component_valid (SourceComponent.invalid s) = false
