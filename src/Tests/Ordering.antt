-- ===== src/Tests/Ordering.antt =====
-- The canonical order of a run at concrete inputs.
use Prim.Native.Nat.{Ordering}
use route_doc.Common.{
  ◌≡◌, ◌≢◌, refl, [], ◌∷◌, List, some, none, true, false, Bool, codes, count, contains, any,
  text_eq, keep, sort, insert_sorted, text_lt,
}
use route_doc.Model.Paths.{Branch}
use route_doc.Canonical.Compare.{compare_optional_string, compare_optional_string_both_ways}
use route_doc.Canonical.Tree.{
  canonical_branches, branch_rounds, ready, is_candidate, mark_done, less_branch,
}
use route_doc.Canonical.Rounds.{canonical_branches-ParentsFirst, ParentsFirst}
use route_doc.Tests.Samples.{root, left, right, branch, tree, cyclic_tree}

abbrev shuffled : List Branch
shuffled = branch right (some root) ∷ branch left (some root) ∷ branch root none ∷ []

parents_before_children : canonical_branches shuffled ≡ (tree, true)
unfolding canonical_branches branch_rounds ready is_candidate mark_done less_branch contains any
    text_eq keep sort insert_sorted text_lt
parents_before_children = refl

cyclic_tree_stays : canonical_branches cyclic_tree ≡ (cyclic_tree, false)
unfolding canonical_branches branch_rounds ready is_candidate mark_done less_branch contains any
    text_eq keep sort insert_sorted text_lt
cyclic_tree_stays = refl

compare_optional_string_both_ways_example :
    (compare_optional_string (codes "TCP") [] ≡ Ordering.lt)
    × (compare_optional_string [] (codes "TCP") ≡ Ordering.lt)
compare_optional_string_both_ways_example =
    compare_optional_string_both_ways (codes "TCP") (λ e. cc)

canonical_branches-ParentsFirst_example :
    (branch_rounds 3 shuffled [] [] ≢ none)
    × ((p : Branch → Bool) → count p (canonical_branches shuffled).0 ≡ count p shuffled)
    × ((canonical_branches shuffled).1 ≡ true → ParentsFirst [] (canonical_branches shuffled).0)
    × ((canonical_branches shuffled).1 ≡ false → (canonical_branches shuffled).0 ≡ shuffled)
canonical_branches-ParentsFirst_example = canonical_branches-ParentsFirst shuffled
