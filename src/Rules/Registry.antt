-- ===== src/Rules/Registry.antt =====
-- internal/rules/registry.go
use route_doc.Common.{List, [], ◌∷◌, codes, sort, text_lt, ◌==◌, eq_text, if◌then◌else◌, map}
use route_doc.Common.{Bool}
use route_doc.Model.Ids.{RuleId}
use route_doc.Model.Issues.{ValidationCode, ValidationIssue}
use route_doc.Rules.Templates.{Rule}

unfoldable pub less_rule : Rule → Rule → Bool
less_rule a b = text_lt a.id b.id

unfoldable pub duplicate_rule : ValidationIssue
duplicate_rule = record {
  code = ValidationCode.registry_duplicate;
  pointer = codes "/rules";
  message = codes "duplicate rule ID";
}

-- The loop over neighbours of the sorted rules, after a rule with the identifier `before`.
duplicates_after : RuleId → List Rule → List ValidationIssue
duplicates_after before [] = []
duplicates_after before (r ∷ rs) =
    let rest = duplicates_after r.id rs in if before == r.id then duplicate_rule ∷ rest else rest

unfoldable pub duplicate_rules : List Rule → List ValidationIssue
unfolding duplicates_after
duplicate_rules [] = []
duplicate_rules (r ∷ rs) = duplicates_after r.id rs

-- `NewRegistry`; a registry is its sorted rules.
unfoldable pub new_registry : List Rule → List Rule × List ValidationIssue
new_registry rules = (sort less_rule rules, duplicate_rules (sort less_rule rules))

unfoldable pub rule_ids : List Rule → List RuleId
rule_ids rules = map (λ r. r.id) rules
