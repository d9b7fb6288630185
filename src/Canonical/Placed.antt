-- ===== src/Canonical/Placed.antt =====
-- One round of `canonicalBranches` of internal/model/canonicalize.go: what it places was open before.
use route_doc.Common.{
  ℕ, ◌+◌, ◌≤◌, ◌<◌, ◌≡◌, Bool, true, not, ◌||◌, List, [], ◌∷◌, arith, contains, any, text_eq,
  text_eq_refl, keep, sort, ltb, ◌==◌, eq_text, All, All-map, count, count-sort,
}
use route_doc.Model.Ids.{BranchId}
use route_doc.Model.Paths.{Branch}
use route_doc.Canonical.Tree.{is_candidate, less_branch, mark_done}

abbrev pub Within : List BranchId → List BranchId → Type 0
Within seen wider = (k : BranchId) → contains seen k ≡ true → contains wider k ≡ true

pub Within-more : (seen : List BranchId) (id : BranchId) → Within seen (id ∷ seen)
unfolding contains any
Within-more seen id k h = ground arith

abbrev id_is : BranchId → Branch → Bool
id_is k b = b.branch_id == k

-- What `done` holds after a round.
contains-mark_done :
    (done : List BranchId) (cs : List Branch) (k : BranchId)
    → contains (mark_done done cs) k ≡ (contains done k || ltb 0 (count (id_is k) cs))
unfolding mark_done contains any
contains-mark_done done [] k = ground arith
contains-mark_done done (c ∷ cs) k =
    let rest = contains-mark_done (c.branch_id ∷ done) cs k in ground arith

abbrev pub open_after : List BranchId → Branch → Bool
open_after done b = not (contains done b.branch_id)

-- Every candidate of `bs` is placed, whatever stands in `more`.
placed :
    (done : List BranchId) (bs : List Branch) (more : ℕ)
    → All
        (λ b.
          is_candidate done b ≡ true
          → 0 < more + count (id_is b.branch_id) (keep (is_candidate done) bs))
        bs
unfolding keep text_eq
placed done [] more = tt
placed done (b ∷ bs) more = (
  λ h. rw (h, keep) (ground (arith, text_eq_refl b.branch_id)),
  All-map
      (λ c.
        is_candidate done c ≡ true
        → 0 < more + count (id_is c.branch_id) (keep (is_candidate done) bs))
      _ bs (λ c h e. let q = h e in ground arith) (placed done bs more),
)

-- The candidates and the branches that are open after the round are open before it.
count-round :
    (p : Branch → Bool) (done after : List BranchId) (xs : List Branch)
    → Within done after
    → All (λ b. is_candidate done b ≡ true → contains after b.branch_id ≡ true) xs
    → count p (keep (is_candidate done) xs) + count p (keep (open_after after) xs)
      ≤ count p (keep (open_after done) xs)
unfolding keep is_candidate
count-round p done after [] w h = omega arith
count-round p done after (b ∷ xs) w (i, h) =
    let rest = count-round p done after xs w h in let wider = w b.branch_id in ground arith

Within-mark_done : (done : List BranchId) (cs : List Branch) → Within done (mark_done done cs)
Within-mark_done done cs k h = let iff = contains-mark_done done cs k in ground arith

-- The branches that a round places and those that are open after it are open before it, each as
-- often.
pub count-next :
    (p : Branch → Bool) (done : List BranchId) (bs : List Branch)
    → count p (sort less_branch (keep (is_candidate done) bs))
        + count p
            (keep (open_after (mark_done done (sort less_branch (keep (is_candidate done) bs)))) bs)
      ≤ count p (keep (open_after done) bs)
count-next p done bs =
    let cs = keep (is_candidate done) bs in
    let round =
      count-round p done (mark_done done (sort less_branch cs)) bs
        (Within-mark_done done (sort less_branch cs))
        (All-map (λ b. is_candidate done b ≡ true → 0 < 0 + count (id_is b.branch_id) cs) _ bs
          (λ b h e.
            let iff = contains-mark_done done (sort less_branch cs) b.branch_id in
            let alike = count-sort (id_is b.branch_id) less_branch cs in
            let some_one = h e in ground arith)
          (placed done bs 0)) in
    let alike = count-sort p less_branch cs in omega arith
