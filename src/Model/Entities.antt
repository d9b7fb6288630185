-- ===== src/Model/Entities.antt =====
-- internal/model/entity.go, and `netip.Addr`, which identities hold.
use route_doc.Common.{ℕ, Text, Bool, Option}
use route_doc.Model.Ids.{EntityId}
use route_doc.Model.Enums.{EntityKind, Transport}

-- An address of package `net/netip`: the zero `Addr`, an IPv4 address, or an IPv6 address with its
-- zone, which is empty for most.
pub data Addr : Type 0 where
  no_addr : Addr
  v4 : ℕ → Addr
  v6 : ℕ → Text → Addr

pub record UrlTargetIdentity : Type 0 where
  pub marker : Bool

pub record HostnameIdentity : Type 0 where
  pub hostname : Text

pub record IpAddressIdentity : Type 0 where
  pub address : Addr

pub record EndpointIdentity : Type 0 where
  pub address : Addr
  pub port : ℕ
  pub transport : Transport

pub record TlsPeerIdentity : Type 0 where
  pub fingerprint : Text

pub record HttpExchangeIdentity : Type 0 where
  pub ordinal : ℕ

pub record OpaqueEntityIdentity : Type 0 where
  pub synthetic_id : Text

pub record ListenerIdentity : Type 0 where
  pub endpoint : EndpointIdentity

pub record ProcessIdentity : Type 0 where
  pub pid : ℕ

pub record ContainerIdentity : Type 0 where
  pub runtime_id : Text
  pub container_id : Text

pub record NamespaceIdentity : Type 0 where
  pub namespace_inode : ℕ

pub record EntityIdentity : Type 0 where
  pub kind : EntityKind
  pub url_target : Option UrlTargetIdentity
  pub hostname : Option HostnameIdentity
  pub ip_address : Option IpAddressIdentity
  pub endpoint : Option EndpointIdentity
  pub tls_peer : Option TlsPeerIdentity
  pub http_exchange : Option HttpExchangeIdentity
  pub opaque : Option OpaqueEntityIdentity
  pub listener : Option ListenerIdentity
  pub process : Option ProcessIdentity
  pub container : Option ContainerIdentity
  pub namespace : Option NamespaceIdentity

pub record Entity : Type 0 where
  pub entity_id : EntityId
  pub kind : EntityKind
  pub display_label : Text
  pub identity : EntityIdentity
