-- ===== src/Selection/Marked.antt =====
-- What the round for one leaf in `Apply` of internal/selection/selection.go leaves on the findings that
-- it selects: they are marked as primary, and no later mark of the round undoes that.
use route_doc.Common.{
  ℕ, zero, suc, ◌≡◌, ◌≢◌, inl, inr, refl, sym, not, ◌&&◌, List, [], ◌∷◌, ◌++◌, some, arith, All,
  All-map, All-append, any, Bool-cases, get_elem?, ap, ◌∙◌, eq_number,
}
use mathlib.Core.Path.{subst}
use route_doc.Model.Ids.{BranchId}
use route_doc.Model.Paths.{Branch}
use route_doc.Model.Claims.{Finding, Claim}
use route_doc.Model.Enums.{Selection}
use route_doc.Selection.Invariant.{nearest-All}
use route_doc.Selection.Leaf.{
  Candidate, mark, same_at, observed_at, nearest_candidates, select_loop, select_leaf,
  leaf_candidates,
}
use route_doc.Selection.Apart.{Apart, Listed, leaf_candidates-Listed, nearest-Apart}

-- The finding of the candidate is there.
abbrev pub IsThere : List Finding → Candidate → Type 0
IsThere fs c = (f : Finding) × (get_elem? fs c.index ≡ some f)

-- The finding of the candidate is there and is a primary one of its branch.
abbrev pub IsPrimaryIn : List Finding → Candidate → Type 0
IsPrimaryIn fs c =
    (f : Finding) × (get_elem? fs c.index ≡ some f) × (f.selection ≡ Selection.branch_primary)

get_elem?-mark :
    (fs : List Finding) (i : ℕ) (s : Selection) (f : Finding)
    → get_elem? fs i ≡ some f
    → get_elem? (mark fs i s) i ≡ some (record f { selection = s })
unfolding mark
get_elem?-mark [] i s f h = cc
get_elem?-mark (g ∷ fs) zero s f h = ground arith
get_elem?-mark (g ∷ fs) (suc i) s f h = get_elem?-mark fs i s f h

get_elem?-mark_other :
    (fs : List Finding) (i j : ℕ) (s : Selection)
    → i ≢ j
    → get_elem? (mark fs i s) j ≡ get_elem? fs j
unfolding mark
get_elem?-mark_other [] i j s n = refl
get_elem?-mark_other (g ∷ fs) zero zero s n = absurd (n refl)
get_elem?-mark_other (g ∷ fs) zero (suc j) s n = refl
get_elem?-mark_other (g ∷ fs) (suc i) zero s n = refl
get_elem?-mark_other (g ∷ fs) (suc i) (suc j) s n =
    get_elem?-mark_other fs i j s (λ e. n (ap suc e))

IsThere-mark :
    (fs : List Finding) (i : ℕ) (s : Selection) (j : ℕ)
    → (f : Finding) × (get_elem? fs j ≡ some f)
    → (f : Finding) × (get_elem? (mark fs i s) j ≡ some f)
unfolding mark
IsThere-mark [] i s j h = h
IsThere-mark (g ∷ fs) zero s zero h = (record g { selection = s }, refl)
IsThere-mark (g ∷ fs) zero s (suc j) h = h
IsThere-mark (g ∷ fs) (suc i) s zero h = h
IsThere-mark (g ∷ fs) (suc i) s (suc j) h = IsThere-mark fs i s j h

-- What holds during the loop: those selected are marked, and are not among those to come.
IsKept : List Candidate → List Finding → Candidate → Type 0
IsKept cs fs c = IsPrimaryIn fs c × All (λ d. d.index ≢ c.index) cs

IsKept-mark :
    (c : Candidate) (cs : List Candidate) (fs : List Finding) (s : Selection) (p : Candidate)
    → IsKept (c ∷ cs) fs p
    → IsKept cs (mark fs c.index s) p
unfolding IsKept
IsKept-mark c cs fs s p ((f, e, q), (n, h)) =
    ((f, get_elem?-mark_other fs c.index p.index s n ∙ e, q), h)

-- One step selects the candidate.
IsKept-here :
    (c : Candidate) (cs : List Candidate) (fs : List Finding)
    → IsThere fs c
    → All (λ d. c.index ≢ d.index) cs
    → IsKept cs (mark fs c.index Selection.branch_primary) c
unfolding IsKept
IsKept-here c cs fs (f, e) h = (
  (
    record f { selection = Selection.branch_primary },
    get_elem?-mark fs c.index Selection.branch_primary f e,
    refl,
  ),
  All-map (λ d. c.index ≢ d.index) (λ d. d.index ≢ c.index) cs (λ d n q. n (sym q)) h,
)

select_loop-IsPrimaryIn :
    (claims : List Claim) (all_at cs : List Candidate) (fs : List Finding)
    (selected : List Candidate)
    → Apart cs
    → All (IsThere fs) cs
    → All (IsKept cs fs) selected
    → All
        (IsPrimaryIn (select_loop claims all_at cs fs selected).0)
        (select_loop claims all_at cs fs selected).1
unfolding select_loop IsKept
select_loop-IsPrimaryIn claims all_at [] fs selected a t k =
    All-map _ (IsPrimaryIn fs) selected (λ c h. h.0) k
select_loop-IsPrimaryIn claims all_at (c ∷ cs) fs selected (n, a) (t, ts) k =
    let there = λ (s : Selection).
      All-map (IsThere fs) (IsThere (mark fs c.index s)) cs
        (λ d h. IsThere-mark fs c.index s d.index h) ts in
    let kept = λ (s : Selection).
      All-map (IsKept (c ∷ cs) fs) (IsKept cs (mark fs c.index s)) selected
        (λ p h. IsKept-mark c cs fs s p h) k in
    let added = λ (u : Unit {0}).
      select_loop-IsPrimaryIn claims all_at cs (mark fs c.index Selection.additional) selected a
        (there Selection.additional) (kept Selection.additional) in
    elim (Bool-cases
      (any (λ o. observed_at fs o && same_at fs claims c o) all_at && not (observed_at fs c))) [
        | inl e ↦ rw (e, select_loop) (added tt)
        | inr e ↦ elim (Bool-cases (any (λ p. same_at fs claims c p) selected)) [
          | inl d ↦ rw (e, d, select_loop) (added tt)
          | inr d ↦
              rw (e, d, select_loop)
                (select_loop-IsPrimaryIn claims all_at cs (mark fs c.index Selection.branch_primary)
                  (selected ++ c ∷ []) a (there Selection.branch_primary)
                  (All-append _ selected (c ∷ []) (kept Selection.branch_primary)
                    (IsKept-here c cs fs t n, tt)))
        ]
      ]

-- What the round selects is marked as primary when it ends.
pub select_leaf-IsPrimaryIn :
    (bs : List Branch) (claims : List Claim) (leaf : BranchId) (fs : List Finding)
    → All (IsPrimaryIn (select_leaf bs claims leaf fs).0) (select_leaf bs claims leaf fs).1
unfolding select_leaf Listed
select_leaf-IsPrimaryIn bs claims leaf fs =
    let cs = (leaf_candidates bs leaf 0 fs).0 in
    let (listed, apart) = leaf_candidates-Listed bs leaf 0 fs in
    let there : All (IsThere fs) cs =
      All-map (Listed 0 fs) (IsThere fs) cs
        (λ c h. (h.1.0, subst (λ j. get_elem? fs j ≡ some h.1.0) (omega arith) h.1.1)) listed in
    let near = nearest_candidates fs cs in
    select_loop-IsPrimaryIn claims near near fs [] (nearest-Apart fs cs apart)
      (nearest-All (IsThere fs) fs cs there) tt
