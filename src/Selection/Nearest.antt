-- ===== src/Selection/Nearest.antt =====
-- The candidates with the least position, and what the round for one leaf selects among them.
use mathlib.Core.Path.{subst}
use route_doc.Common.{
  keep-passes, ℕ, ◌≤◌, ◌≡◌, ◌≢◌, ◌⊎◌, inl, inr, refl, sym, ◌∙◌, Exists, now, later, Bool, true,
  List, [], ◌∷◌, arith, All, All-map, any, keep, sort, insert_sorted-ne-nil, All-sort, Bool-cases,
  ◌==◌, eq_number, ==_iff, if◌then◌else◌, ltb,
}
use route_doc.Model.Ids.{BranchId}
use route_doc.Model.Paths.{Branch}
use route_doc.Model.Claims.{Finding, Claim}
use route_doc.Selection.Leaf.{
  Candidate, same_at, observed_at, less_at, min_pos, nearest_candidates, select_leaf,
  leaf_candidates,
}
use route_doc.Selection.Invariant.{nearest-All}
use route_doc.Selection.Marked.{IsPrimaryIn, select_leaf-IsPrimaryIn}
use route_doc.Selection.Primaries.{
  choose, select_loop-choose, choose-ne-nil, choose-Distinct, choose-All, Distinct,
}

min_pos-le : (m : ℕ) (cs : List Candidate) → (min_pos m cs ≤ m) × All (λ d. min_pos m cs ≤ d.pos) cs
unfolding min_pos
min_pos-le m [] = (omega arith, tt)
min_pos-le m (c ∷ cs) =
    let n = if ltb c.pos m then c.pos else m in
    let (le, rest) = min_pos-le n cs in (ground (arith, le), (ground (arith, le), rest))

min_pos_attained :
    (m : ℕ) (cs : List Candidate)
    → (min_pos m cs ≡ m) ⊎ (any (λ x. x.pos == min_pos m cs) cs ≡ true)
unfolding min_pos any
min_pos_attained m [] = inl refl
min_pos_attained m (c ∷ cs) = elim (Bool-cases (ltb c.pos m)) [
  | inl e ↦ elim (min_pos_attained c.pos cs) [
    | inl q ↦ inr (ground arith)
    | inr q ↦ inr (ground arith)
  ]
  | inr e ↦ elim (min_pos_attained m cs) [ inl q ↦ inl (ground arith) | inr q ↦ inr (ground arith) ]
]

keep-ne-nil : (p : Candidate → Bool) (xs : List Candidate) → any p xs ≡ true → keep p xs ≢ []
unfolding keep any
keep-ne-nil p [] h = cc
keep-ne-nil p (x ∷ xs) h = ground (arith, keep-ne-nil p xs)

sort-ne-nil :
    (less : Candidate → Candidate → Bool) (xs : List Candidate) → xs ≢ [] → sort less xs ≢ []
unfolding sort
sort-ne-nil less [] n = n
sort-ne-nil less (x ∷ xs) n = insert_sorted-ne-nil less x (sort less xs)

nearest-ne-nil : (fs : List Finding) (cs : List Candidate) → cs ≢ [] → nearest_candidates fs cs ≢ []
unfolding nearest_candidates
nearest-ne-nil fs [] n = n
nearest-ne-nil fs (c ∷ cs) n =
    sort-ne-nil (less_at fs) _ (keep-ne-nil (λ x. x.pos == min_pos c.pos cs) (c ∷ cs) found)
  where
    found : any (λ (x : Candidate). x.pos == min_pos c.pos cs) (c ∷ cs) ≡ true
    found =
        unfold any in
        elim (min_pos_attained c.pos cs) [ inl e ↦ ground arith | inr e ↦ ground arith ]

-- No candidate of `cs` lies before `c`.
abbrev pub IsLeast : List Candidate → Candidate → Type 0
IsLeast cs c = All (λ d. c.pos ≤ d.pos) cs

nearest-IsLeast :
    (fs : List Finding) (cs : List Candidate) → All (IsLeast cs) (nearest_candidates fs cs)
unfolding nearest_candidates
nearest-IsLeast fs [] = tt
nearest-IsLeast fs (c ∷ cs) =
    let m = min_pos c.pos cs in
    let (le, rest) = min_pos-le c.pos cs in
    let bound : All (λ d. m ≤ d.pos) (c ∷ cs) = (le, rest) in
    All-sort (IsLeast (c ∷ cs)) (less_at fs) _ (
      All-map (λ x. (x.pos == m) ≡ true) (IsLeast (c ∷ cs)) _
        (λ x e.
          let same : m ≡ x.pos = sym ((==_iff x.pos m).0 e) in
          All-map (λ d. m ≤ d.pos) (λ d. x.pos ≤ d.pos) (c ∷ cs) (λ d h. omega arith) bound)
        (keep-passes (λ x. x.pos == m) (c ∷ cs)))

-- Which candidates the round selects does not depend on its marks.
selected-choose :
    (bs : List Branch) (claims : List Claim) (leaf : BranchId) (fs : List Finding)
    → (select_leaf bs claims leaf fs).1
      ≡ choose
          (observed_at fs)
          (same_at fs claims)
          (nearest_candidates fs (leaf_candidates bs leaf 0 fs).0)
          (nearest_candidates fs (leaf_candidates bs leaf 0 fs).0)
          []
unfolding select_leaf
selected-choose bs claims leaf fs =
    let near = nearest_candidates fs (leaf_candidates bs leaf 0 fs).0 in
    select_loop-choose claims near near fs []

-- Each of the candidates is one of them.
All-members : (cs : List Candidate) → All (λ c. Exists (λ d. d ≡ c) cs) cs
All-members [] = tt
All-members (c ∷ cs) =
    (now refl, All-map (λ x. Exists (λ d. d ≡ x) cs) _ cs (λ x h. later h) (All-members cs))

-- For a leaf that has candidates the round selects at least one. Those that it selects are among the
-- candidates of the leaf, each lies at the least position of all of them, no two of them state the
-- same, and after the round the finding of each is marked as a primary one of its branch.
pub select_leaf_primaries :
    (bs : List Branch) (claims : List Claim) (leaf : BranchId) (fs : List Finding)
    → ((leaf_candidates bs leaf 0 fs).0 ≢ [] → (select_leaf bs claims leaf fs).1 ≢ [])
      × All
          (λ c. Exists (λ d. d ≡ c) (leaf_candidates bs leaf 0 fs).0)
          (select_leaf bs claims leaf fs).1
      × All (IsLeast (leaf_candidates bs leaf 0 fs).0) (select_leaf bs claims leaf fs).1
      × Distinct (same_at fs claims) (select_leaf bs claims leaf fs).1
      × All (IsPrimaryIn (select_leaf bs claims leaf fs).0) (select_leaf bs claims leaf fs).1
select_leaf_primaries bs claims leaf fs =
    let cs = (leaf_candidates bs leaf 0 fs).0 in
    let near = nearest_candidates fs cs in
    let chosen = selected-choose bs claims leaf fs in
    (
      λ n e.
          choose-ne-nil (observed_at fs) (same_at fs claims) near near (nearest-ne-nil fs cs n)
            (Bool-cases (any (observed_at fs) near)) (sym chosen ∙ e),
      subst (All (λ c. Exists (λ d. d ≡ c) cs)) (sym chosen) (
          choose-All (observed_at fs) (same_at fs claims) near _ near []
            (nearest-All (λ c. Exists (λ d. d ≡ c) cs) fs cs (All-members cs)) tt),
      subst (All (IsLeast cs)) (sym chosen) (
          choose-All (observed_at fs) (same_at fs claims) near (IsLeast cs) near []
            (nearest-IsLeast fs cs) tt),
      subst (Distinct (same_at fs claims)) (sym chosen)
          (choose-Distinct (observed_at fs) (same_at fs claims) near near [] tt),
      select_leaf-IsPrimaryIn bs claims leaf fs,
    )
