-- ===== src/Model/Enums/Results.antt =====
-- The string types of internal/model/enums.go for the results that observations hold. A constructor stands for each constant,
-- and `invalid s` for a string `s` that is none of them.
use mathlib.Core.Bool.{Bool, true, false}
use route_doc.Common.{Text, Text-discrete, Comparable, by_discrete}

pub data ResolutionResult : Type 0 where
  resolved no_result failed : ResolutionResult
  invalid : Text → ResolutionResult

unfoldable pub resolution_result_valid : ResolutionResult → Bool
resolution_result_valid ResolutionResult.resolved = true
resolution_result_valid ResolutionResult.no_result = true
resolution_result_valid ResolutionResult.failed = true
resolution_result_valid (ResolutionResult.invalid s) = false

pub data TcpResult : Type 0 where
  accepted refused timed_out failed : TcpResult
  invalid : Text → TcpResult

unfoldable pub tcp_result_valid : TcpResult → Bool
tcp_result_valid TcpResult.accepted = true
tcp_result_valid TcpResult.refused = true
tcp_result_valid TcpResult.timed_out = true
tcp_result_valid TcpResult.failed = true
tcp_result_valid (TcpResult.invalid s) = false

unfoldable pub TcpResult-discrete : Discrete TcpResult
TcpResult-discrete = hlevel Text-discrete

instance abbrev pub eq_tcp_result : Comparable TcpResult
eq_tcp_result = by_discrete TcpResult-discrete

pub data TlsTransportResult : Type 0 where
  completed failed timed_out : TlsTransportResult
  invalid : Text → TlsTransportResult

unfoldable pub tls_transport_result_valid : TlsTransportResult → Bool
tls_transport_result_valid TlsTransportResult.completed = true
tls_transport_result_valid TlsTransportResult.failed = true
tls_transport_result_valid TlsTransportResult.timed_out = true
tls_transport_result_valid (TlsTransportResult.invalid s) = false

pub data CertificateVerificationResult : Type 0 where
  verified hostname_mismatch expired not_yet_valid : CertificateVerificationResult
  untrusted_issuer invalid_usage verifier_unavailable : CertificateVerificationResult
  invalid : Text → CertificateVerificationResult

unfoldable pub certificate_verification_result_valid : CertificateVerificationResult → Bool
certificate_verification_result_valid CertificateVerificationResult.verified = true
certificate_verification_result_valid CertificateVerificationResult.hostname_mismatch = true
certificate_verification_result_valid CertificateVerificationResult.expired = true
certificate_verification_result_valid CertificateVerificationResult.not_yet_valid = true
certificate_verification_result_valid CertificateVerificationResult.untrusted_issuer = true
certificate_verification_result_valid CertificateVerificationResult.invalid_usage = true
certificate_verification_result_valid CertificateVerificationResult.verifier_unavailable = true
certificate_verification_result_valid (CertificateVerificationResult.invalid s) = false

unfoldable pub CertificateVerificationResult-discrete : Discrete CertificateVerificationResult
CertificateVerificationResult-discrete = hlevel Text-discrete

instance abbrev pub eq_certificate_verification_result : Comparable CertificateVerificationResult
eq_certificate_verification_result = by_discrete CertificateVerificationResult-discrete

pub data HttpResultKind : Type 0 where
  response redirect : HttpResultKind
  invalid : Text → HttpResultKind

unfoldable pub http_result_kind_valid : HttpResultKind → Bool
http_result_kind_valid HttpResultKind.response = true
http_result_kind_valid HttpResultKind.redirect = true
http_result_kind_valid (HttpResultKind.invalid s) = false

pub data MatcherResult : Type 0 where
  matched not_matched unknown : MatcherResult
  invalid : Text → MatcherResult

unfoldable pub matcher_result_valid : MatcherResult → Bool
matcher_result_valid MatcherResult.matched = true
matcher_result_valid MatcherResult.not_matched = true
matcher_result_valid MatcherResult.unknown = true
matcher_result_valid (MatcherResult.invalid s) = false

pub data UpstreamResult : Type 0 where
  selected ambiguous unavailable : UpstreamResult
  invalid : Text → UpstreamResult

unfoldable pub upstream_result_valid : UpstreamResult → Bool
upstream_result_valid UpstreamResult.selected = true
upstream_result_valid UpstreamResult.ambiguous = true
upstream_result_valid UpstreamResult.unavailable = true
upstream_result_valid (UpstreamResult.invalid s) = false

pub data OwnershipResult : Type 0 where
  owned unresolved : OwnershipResult
  invalid : Text → OwnershipResult

unfoldable pub ownership_result_valid : OwnershipResult → Bool
ownership_result_valid OwnershipResult.owned = true
ownership_result_valid OwnershipResult.unresolved = true
ownership_result_valid (OwnershipResult.invalid s) = false

unfoldable pub OwnershipResult-discrete : Discrete OwnershipResult
OwnershipResult-discrete = hlevel Text-discrete

instance abbrev pub eq_ownership_result : Comparable OwnershipResult
eq_ownership_result = by_discrete OwnershipResult-discrete

pub data DockerFactKind : Type 0 where
  container_state network_membership published_port : DockerFactKind
  invalid : Text → DockerFactKind

unfoldable pub docker_fact_kind_valid : DockerFactKind → Bool
docker_fact_kind_valid DockerFactKind.container_state = true
docker_fact_kind_valid DockerFactKind.network_membership = true
docker_fact_kind_valid DockerFactKind.published_port = true
docker_fact_kind_valid (DockerFactKind.invalid s) = false

pub data RuntimeState : Type 0 where
  running stopped unknown : RuntimeState
  invalid : Text → RuntimeState

unfoldable pub runtime_state_valid : RuntimeState → Bool
runtime_state_valid RuntimeState.running = true
runtime_state_valid RuntimeState.stopped = true
runtime_state_valid RuntimeState.unknown = true
runtime_state_valid (RuntimeState.invalid s) = false

pub data SanType : Type 0 where
  dns ip other : SanType
  invalid : Text → SanType

unfoldable pub san_type_valid : SanType → Bool
san_type_valid SanType.dns = true
san_type_valid SanType.ip = true
san_type_valid SanType.other = true
san_type_valid (SanType.invalid s) = false

pub data TrustSource : Type 0 where
  system explicit unknown : TrustSource
  invalid : Text → TrustSource

unfoldable pub trust_source_valid : TrustSource → Bool
trust_source_valid TrustSource.system = true
trust_source_valid TrustSource.explicit = true
trust_source_valid TrustSource.unknown = true
trust_source_valid (TrustSource.invalid s) = false

unfoldable pub TrustSource-discrete : Discrete TrustSource
TrustSource-discrete = hlevel Text-discrete

instance abbrev pub eq_trust_source : Comparable TrustSource
eq_trust_source = by_discrete TrustSource-discrete
