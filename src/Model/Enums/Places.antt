-- ===== src/Model/Enums/Places.antt =====
-- The string types of internal/model/enums.go for vantages, assertions, goals and capabilities. A constructor stands for each constant,
-- and `invalid s` for a string `s` that is none of them.
use mathlib.Core.Bool.{Bool, true, false}
use route_doc.Common.{Text, Text-discrete, Comparable, by_discrete}

pub data VantageKind : Type 0 where
  client_network host_namespace container_namespace unknown_namespace : VantageKind
  invalid : Text → VantageKind

unfoldable pub vantage_kind_valid : VantageKind → Bool
vantage_kind_valid VantageKind.client_network = true
vantage_kind_valid VantageKind.host_namespace = true
vantage_kind_valid VantageKind.container_namespace = true
vantage_kind_valid VantageKind.unknown_namespace = true
vantage_kind_valid (VantageKind.invalid s) = false

unfoldable pub VantageKind-discrete : Discrete VantageKind
VantageKind-discrete = hlevel Text-discrete

instance abbrev pub eq_vantage_kind : Comparable VantageKind
eq_vantage_kind = by_discrete VantageKind-discrete

pub data VantageRole : Type 0 where
  client origin_host proxy upstream unspecified : VantageRole
  invalid : Text → VantageRole

unfoldable pub vantage_role_valid : VantageRole → Bool
vantage_role_valid VantageRole.client = true
vantage_role_valid VantageRole.origin_host = true
vantage_role_valid VantageRole.proxy = true
vantage_role_valid VantageRole.upstream = true
vantage_role_valid VantageRole.unspecified = true
vantage_role_valid (VantageRole.invalid s) = false

pub data VantageEstablishment : Type 0 where
  directly_observed operator_supplied runtime_correlated unknown : VantageEstablishment
  invalid : Text → VantageEstablishment

unfoldable pub vantage_establishment_valid : VantageEstablishment → Bool
vantage_establishment_valid VantageEstablishment.directly_observed = true
vantage_establishment_valid VantageEstablishment.operator_supplied = true
vantage_establishment_valid VantageEstablishment.runtime_correlated = true
vantage_establishment_valid VantageEstablishment.unknown = true
vantage_establishment_valid (VantageEstablishment.invalid s) = false

pub data AssertionKind : Type 0 where
  local_origin_participation expected_path_edge http_expectation : AssertionKind
  config_source_selection private_redirect_transition_allowed : AssertionKind
  invalid : Text → AssertionKind

unfoldable pub assertion_kind_valid : AssertionKind → Bool
assertion_kind_valid AssertionKind.local_origin_participation = true
assertion_kind_valid AssertionKind.expected_path_edge = true
assertion_kind_valid AssertionKind.http_expectation = true
assertion_kind_valid AssertionKind.config_source_selection = true
assertion_kind_valid AssertionKind.private_redirect_transition_allowed = true
assertion_kind_valid (AssertionKind.invalid s) = false

unfoldable pub AssertionKind-discrete : Discrete AssertionKind
AssertionKind-discrete = hlevel Text-discrete

instance abbrev pub eq_assertion_kind : Comparable AssertionKind
eq_assertion_kind = by_discrete AssertionKind-discrete

pub data AssertionSource : Type 0 where
  command_line explicit_config synthetic_fixture : AssertionSource
  invalid : Text → AssertionSource

unfoldable pub assertion_source_valid : AssertionSource → Bool
assertion_source_valid AssertionSource.command_line = true
assertion_source_valid AssertionSource.explicit_config = true
assertion_source_valid AssertionSource.synthetic_fixture = true
assertion_source_valid (AssertionSource.invalid s) = false

pub data ExpectationKind : Type 0 where
  status_range header_present : ExpectationKind
  invalid : Text → ExpectationKind

unfoldable pub expectation_kind_valid : ExpectationKind → Bool
expectation_kind_valid ExpectationKind.status_range = true
expectation_kind_valid ExpectationKind.header_present = true
expectation_kind_valid (ExpectationKind.invalid s) = false

unfoldable pub ExpectationKind-discrete : Discrete ExpectationKind
ExpectationKind-discrete = hlevel Text-discrete

instance abbrev pub eq_expectation_kind : Comparable ExpectationKind
eq_expectation_kind = by_discrete ExpectationKind-discrete

pub data ComponentKind : Type 0 where
  caddy docker : ComponentKind
  invalid : Text → ComponentKind

unfoldable pub component_kind_valid : ComponentKind → Bool
component_kind_valid ComponentKind.caddy = true
component_kind_valid ComponentKind.docker = true
component_kind_valid (ComponentKind.invalid s) = false

pub data ConfigSourceKind : Type 0 where
  active_api explicit_file engine_endpoint : ConfigSourceKind
  invalid : Text → ConfigSourceKind

unfoldable pub config_source_kind_valid : ConfigSourceKind → Bool
config_source_kind_valid ConfigSourceKind.active_api = true
config_source_kind_valid ConfigSourceKind.explicit_file = true
config_source_kind_valid ConfigSourceKind.engine_endpoint = true
config_source_kind_valid (ConfigSourceKind.invalid s) = false

pub data ScopeKind : Type 0 where
  client_only local_origin : ScopeKind
  invalid : Text → ScopeKind

unfoldable pub scope_kind_valid : ScopeKind → Bool
scope_kind_valid ScopeKind.client_only = true
scope_kind_valid ScopeKind.local_origin = true
scope_kind_valid (ScopeKind.invalid s) = false

unfoldable pub ScopeKind-discrete : Discrete ScopeKind
ScopeKind-discrete = hlevel Text-discrete

instance abbrev pub eq_scope_kind : Comparable ScopeKind
eq_scope_kind = by_discrete ScopeKind-discrete

pub data GoalKind : Type 0 where
  http_response http_expectation origin_path_diagnosis : GoalKind
  invalid : Text → GoalKind

unfoldable pub goal_kind_valid : GoalKind → Bool
goal_kind_valid GoalKind.http_response = true
goal_kind_valid GoalKind.http_expectation = true
goal_kind_valid GoalKind.origin_path_diagnosis = true
goal_kind_valid (GoalKind.invalid s) = false

unfoldable pub GoalKind-discrete : Discrete GoalKind
GoalKind-discrete = hlevel Text-discrete

instance abbrev pub eq_goal_kind : Comparable GoalKind
eq_goal_kind = by_discrete GoalKind-discrete

pub data CapabilityKind : Type 0 where
  system_resolution tcp_probe tls_probe http_probe listener_inventory : CapabilityKind
  process_ownership active_caddy configured_caddy docker : CapabilityKind
  invalid : Text → CapabilityKind

unfoldable pub capability_kind_valid : CapabilityKind → Bool
capability_kind_valid CapabilityKind.system_resolution = true
capability_kind_valid CapabilityKind.tcp_probe = true
capability_kind_valid CapabilityKind.tls_probe = true
capability_kind_valid CapabilityKind.http_probe = true
capability_kind_valid CapabilityKind.listener_inventory = true
capability_kind_valid CapabilityKind.process_ownership = true
capability_kind_valid CapabilityKind.active_caddy = true
capability_kind_valid CapabilityKind.configured_caddy = true
capability_kind_valid CapabilityKind.docker = true
capability_kind_valid (CapabilityKind.invalid s) = false

pub data CapabilityState : Type 0 where
  available unavailable denied unknown : CapabilityState
  invalid : Text → CapabilityState

unfoldable pub capability_state_valid : CapabilityState → Bool
capability_state_valid CapabilityState.available = true
capability_state_valid CapabilityState.unavailable = true
capability_state_valid CapabilityState.denied = true
capability_state_valid CapabilityState.unknown = true
capability_state_valid (CapabilityState.invalid s) = false
