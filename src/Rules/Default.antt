-- ===== src/Rules/Default.antt =====
-- internal/rules/default_registry.go
pub mod Absence
pub mod Unselected
pub mod Keys
pub mod Shapes
pub mod Rounds
pub mod Usable
pub mod HandsOver
use route_doc.Common.{List, [], ◌∷◌, Option, Text}
use route_doc.Model.Entities.{Addr}
use route_doc.Rules.Templates.{Rule}
use route_doc.Rules.Registry.{new_registry}
use route_doc.Rules.Listener.{no_matching_listener_visible}
use route_doc.Rules.Tcp.{connection_refused}
use route_doc.Rules.Tls.{hostname_mismatch}

-- `DefaultRegistry`, which drops the issues
unfoldable pub default_registry : (Text → Option Addr) → List Rule
unfolding new_registry
default_registry parse_addr =
    (new_registry
      (no_matching_listener_visible parse_addr ∷ connection_refused ∷ hostname_mismatch ∷ [])).0
