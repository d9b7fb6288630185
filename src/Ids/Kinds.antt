-- ===== src/Ids/Kinds.antt =====
-- The methods `Valid` of the identifier types of internal/model/ids.go.
use route_doc.Common.{Bool, true, false, Text, Option, none, some, codes}
use route_doc.Ids.{IdError, valid_id, claim_prefix, finding_prefix}

-- `err == nil`
abbrev is_nil : Option IdError → Bool
is_nil none = true
is_nil (some e) = false

unfoldable pub run_id_valid : Text → Bool
run_id_valid id = is_nil (valid_id id (codes "run-") false)

unfoldable pub vantage_id_valid : Text → Bool
vantage_id_valid id = is_nil (valid_id id (codes "vantage-") false)

unfoldable pub capability_id_valid : Text → Bool
capability_id_valid id = is_nil (valid_id id (codes "capability-") false)

unfoldable pub assertion_id_valid : Text → Bool
assertion_id_valid id = is_nil (valid_id id (codes "assertion-") false)

unfoldable pub edge_id_valid : Text → Bool
edge_id_valid id = is_nil (valid_id id (codes "edge-") false)

unfoldable pub branch_id_valid : Text → Bool
branch_id_valid id = is_nil (valid_id id (codes "branch-") false)

unfoldable pub check_id_valid : Text → Bool
check_id_valid id = is_nil (valid_id id (codes "check-") false)

unfoldable pub execution_id_valid : Text → Bool
execution_id_valid id = is_nil (valid_id id (codes "execution-") false)

unfoldable pub observation_id_valid : Text → Bool
observation_id_valid id = is_nil (valid_id id (codes "observation-") false)

unfoldable pub visibility_id_valid : Text → Bool
visibility_id_valid id = is_nil (valid_id id (codes "visibility-") false)

unfoldable pub claim_id_valid : Text → Bool
claim_id_valid id = is_nil (valid_id id claim_prefix true)

unfoldable pub finding_id_valid : Text → Bool
finding_id_valid id = is_nil (valid_id id finding_prefix true)

unfoldable pub limitation_id_valid : Text → Bool
limitation_id_valid id = is_nil (valid_id id (codes "limitation-") false)
