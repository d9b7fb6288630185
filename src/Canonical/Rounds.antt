-- ===== src/Canonical/Rounds.antt =====
-- `canonicalBranches` of internal/model/canonicalize.go: it ends, keeps the branches and puts parents
-- first.
use route_doc.Common.{
  ℕ, zero, suc, ◌+◌, ◌≤◌, ◌≡◌, ◌≢◌, inl, inr, refl, sym, ap, length-sort, count-keep, ◌∙◌, Bool,
  true, false, not, List, [], ◌∷◌, ◌++◌, none, some, arith, Bool-cases, contains, any, keep, sort,
  length, leb, eq_text, All, All-map, All-sort, keep-passes, count, count-append, count_both,
  length-append,
}
use mathlib.Core.Path.{subst}
use route_doc.Model.Ids.{BranchId}
use route_doc.Model.Paths.{Branch}
use route_doc.Canonical.Tree.{
  ready, is_candidate, less_branch, mark_done, branch_rounds, canonical_branches,
}
use route_doc.Canonical.Placed.{Within, Within-more, open_after, count-next}

-- The parent of the branch, if it has one, is in `seen`.
abbrev pub HasParentIn : List BranchId → Branch → Type 0
HasParentIn seen b = (p : BranchId) → b.parent_branch_id ≡ some p → contains seen p ≡ true

-- Every branch has no parent, or its parent is in `seen` or stands before it.
abbrev pub ParentsFirst : List BranchId → List Branch → Type 0
ParentsFirst seen [] = Unit
ParentsFirst seen (b ∷ bs) = HasParentIn seen b × ParentsFirst (b.branch_id ∷ seen) bs

ready_mono :
    (seen wider : List BranchId) (b : Branch)
    → Within seen wider
    → ready seen b ≡ true
    → ready wider b ≡ true
unfolding ready
ready_mono seen wider b w h =
    elim b.parent_branch_id
        as (λ x.
          (elim x [ none ↦ true | some p ↦ contains seen p ] ≡ true)
          → elim x [ none ↦ true | some p ↦ contains wider p ] ≡ true) [
            | none ↦ λ h. refl
            | some p ↦ λ h. w p h
          ]
      h

ready-HasParentIn : (seen : List BranchId) (b : Branch) → ready seen b ≡ true → HasParentIn seen b
unfolding ready
ready-HasParentIn seen b h p e = ground arith

ParentsFirst-ready :
    (seen wider : List BranchId) (cs : List Branch)
    → Within seen wider
    → All (λ b. ready seen b ≡ true) cs
    → ParentsFirst wider cs
ParentsFirst-ready seen wider [] w h = tt
ParentsFirst-ready seen wider (c ∷ cs) w (r, h) = (
  ready-HasParentIn wider c (ready_mono seen wider c w r),
  ParentsFirst-ready seen (c.branch_id ∷ wider) cs (λ k e. Within-more wider c.branch_id k (w k e))
      h,
)

ParentsFirst-append :
    (seen : List BranchId) (out cs : List Branch)
    → ParentsFirst seen out
    → All (λ b. ready (mark_done seen out) b ≡ true) cs
    → ParentsFirst seen (out ++ cs)
unfolding mark_done
ParentsFirst-append seen [] cs h r = ParentsFirst-ready seen seen cs (λ k e. e) r
ParentsFirst-append seen (b ∷ out) cs (p, h) r =
    (p, ParentsFirst-append (b.branch_id ∷ seen) out cs h r)

mark_done-append :
    (seen : List BranchId) (out cs : List Branch)
    → mark_done seen (out ++ cs) ≡ mark_done (mark_done seen out) cs
unfolding mark_done
mark_done-append seen [] cs = refl
mark_done-append seen (b ∷ out) cs = mark_done-append (b.branch_id ∷ seen) out cs

candidates-ready :
    (done : List BranchId) (bs : List Branch)
    → All (λ b. ready done b ≡ true) (sort less_branch (keep (is_candidate done) bs))
unfolding is_candidate
candidates-ready done bs = All-sort _ less_branch _ (
    All-map (λ b. is_candidate done b ≡ true) _ (keep (is_candidate done) bs) (λ b h. ground arith)
      (keep-passes (is_candidate done) bs))

-- What the rounds return: all branches with parents first, or the branches as they were.
abbrev Outcome : List Branch → List Branch × Bool → Type 0
Outcome bs result =
    ((p : Branch → Bool) → count p result.0 ≡ count p bs)
    × (result.1 ≡ true → ParentsFirst [] result.0)
    × (result.1 ≡ false → result.0 ≡ bs)

record Placing (fuel : ℕ) (bs : List Branch) (done : List BranchId) (out : List Branch)
    : Type 0 where
  marked : done ≡ mark_done [] out
  ordered : ParentsFirst [] out
  counted : (p : Branch → Bool) → count p out + count p (keep (open_after done) bs) ≤ count p bs
  fueled : length bs ≤ fuel + length out

all_placed :
    (fuel : ℕ) (bs : List Branch) (done : List BranchId) (out : List Branch)
    → Placing fuel bs done out
    → length bs ≤ length out
    → Outcome bs (out, true)
all_placed fuel bs done out i h = (
  λ p.
      let a = i.counted p in
      let b = i.counted (λ x. not (p x)) in
      let c = count_both p out in let d = count_both p bs in omega arith,
  λ e. i.ordered,
  λ e. cc,
)

Placing-next :
    (fuel : ℕ) (bs : List Branch) (done : List BranchId) (out : List Branch)
    → Placing (suc fuel) bs done out
    → leb (length (keep (is_candidate done) bs)) 0 ≡ false
    → Placing fuel bs
        (mark_done done (sort less_branch (keep (is_candidate done) bs)))
        (out ++ sort less_branch (keep (is_candidate done) bs))
Placing-next fuel bs done out i h =
    let next = sort less_branch (keep (is_candidate done) bs) in
    record {
      marked = ap (λ d. mark_done d next) i.marked ∙ sym (mark_done-append [] out next);
      ordered =
          ParentsFirst-append [] out next i.ordered
            (subst (λ d. All (λ b. ready d b ≡ true) next) i.marked (candidates-ready done bs));
      counted = λ p.
          let a = i.counted p in
          let b = count-next p done bs in let c = count-append p out next in omega arith;
      fueled =
          let a = i.fueled in
          let b = length-append out next in
          let c = length-sort less_branch (keep (is_candidate done) bs) in ground arith;
    }

branch_rounds-Outcome :
    (fuel : ℕ) (bs : List Branch) (done : List BranchId) (out : List Branch)
    → Placing fuel bs done out
    → (result : List Branch × Bool) × (branch_rounds fuel bs done out ≡ some result)
      × Outcome bs result
unfolding branch_rounds
branch_rounds-Outcome zero bs done out i = (
  (out, true),
  let a = i.fueled in ground arith,
  all_placed zero bs done out i (omega (arith, i.fueled)),
)
branch_rounds-Outcome (suc fuel) bs done out i = elim (Bool-cases (leb (length bs) (length out))) [
  | inl e ↦ ((out, true), rw e refl, all_placed (suc fuel) bs done out i (ground arith))
  | inr e ↦ elim (Bool-cases (leb (length (keep (is_candidate done) bs)) 0)) [
    | inl k ↦ ((bs, false), rw (e, k) refl, (λ p. refl, λ q. cc, λ q. refl))
    | inr k ↦
        let (result, q, o) =
          branch_rounds-Outcome fuel bs _ _ (Placing-next fuel bs done out i k) in
        (result, rw (e, k) q, o)
  ]
]

rounds_of :
    (bs : List Branch)
    → (result : List Branch × Bool) × (branch_rounds (length bs) bs [] [] ≡ some result)
      × Outcome bs result
unfolding mark_done contains any
rounds_of bs = branch_rounds-Outcome (length bs) bs [] [] (record {
  marked = refl;
  ordered = tt;
  counted = λ p. omega (arith, count-keep p (open_after []) bs);
  fueled = omega arith;
})

-- The rounds end for any branches, also with duplicate IDs and with cyclic or missing parents. They
-- return the same branches, each as often; with the flag every branch has no parent or stands after
-- its parent, and without it the branches are as they were.
pub canonical_branches-ParentsFirst :
    (bs : List Branch)
    → (branch_rounds (length bs) bs [] [] ≢ none)
      × ((p : Branch → Bool) → count p (canonical_branches bs).0 ≡ count p bs)
      × ((canonical_branches bs).1 ≡ true → ParentsFirst [] (canonical_branches bs).0)
      × ((canonical_branches bs).1 ≡ false → (canonical_branches bs).0 ≡ bs)
unfolding canonical_branches
canonical_branches-ParentsFirst bs =
    let (result, q, o) = rounds_of bs in
    let same : canonical_branches bs ≡ result = rw (q, canonical_branches) refl in
    rw same (λ n. cc (q, n), o.0, o.1, o.2)
