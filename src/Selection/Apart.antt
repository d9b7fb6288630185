-- ===== src/Selection/Apart.antt =====
-- The candidates of one leaf in `Apply` of internal/selection/selection.go are of different findings of
-- the run.
use route_doc.Common.{
  ℕ, suc, ◌+◌, ◌≤◌, ◌≡◌, ◌≢◌, inl, inr, refl, sym, Bool, List, [], ◌∷◌, some, arith, All, All-map,
  All-keep, All-sort, All-insert_sorted, keep, sort, insert_sorted, Bool-cases, Option-cases,
  get_elem?, ◌-◌, ◌==◌, eq_number, leb,
}
use mathlib.Core.Path.{subst}
use route_doc.Model.Ids.{BranchId}
use route_doc.Model.Paths.{Branch}
use route_doc.Model.Claims.{Finding}
use route_doc.Branches.{index_branches}
use route_doc.GlobalPrimary.{is_strong_blocker}
use route_doc.Selection.Leaf.{
  Candidate, less_at, min_pos, nearest_candidates, leaf_candidates, finding_branch_position,
  branch_edge_count,
}

-- The candidates are of different findings.
abbrev pub Apart : List Candidate → Type 0
Apart [] = Unit
Apart (c ∷ cs) = All (λ d. c.index ≢ d.index) cs × Apart cs

-- The index of the candidate is that of a finding of `fs`, which starts at index `i`.
unfoldable pub Listed : ℕ → List Finding → Candidate → Type 0
Listed i fs c = (i ≤ c.index) × ((f : Finding) × (get_elem? fs (c.index - i) ≡ some f))

Listed-next :
    (i : ℕ) (g : Finding) (fs : List Finding) (c : Candidate)
    → Listed (i + 1) fs c
    → Listed i (g ∷ fs) c
unfolding Listed
Listed-next i g fs c (le, (f, e)) =
    let one : suc (c.index - (i + 1)) ≡ c.index - i = omega arith in
    (omega arith, (f, subst (λ j. get_elem? (g ∷ fs) j ≡ some f) one e))

Listed-first :
    (i pos : ℕ) (g : Finding) (fs : List Finding)
    → Listed i (g ∷ fs) (record { index = i; pos = pos })
unfolding Listed
Listed-first i pos g fs =
    let none_before : 0 ≡ i - i = omega arith in
    (omega arith, (g, subst (λ j. get_elem? (g ∷ fs) j ≡ some g) none_before refl))

pub leaf_candidates-Listed :
    (bs : List Branch) (leaf : BranchId) (i : ℕ) (fs : List Finding)
    → All (Listed i fs) (leaf_candidates bs leaf i fs).0 × Apart (leaf_candidates bs leaf i fs).0
unfolding leaf_candidates
leaf_candidates-Listed bs leaf i [] = (tt, tt)
leaf_candidates-Listed bs leaf i (f ∷ fs) =
    let (listed, apart) = leaf_candidates-Listed bs leaf (i + 1) fs in
    let cs = (leaf_candidates bs leaf (i + 1) fs).0 in
    let more = All-map (Listed (i + 1) fs) (Listed i (f ∷ fs)) cs (Listed-next i f fs) listed in
    let new : All (λ d. i ≢ d.index) cs =
      All-map (Listed (i + 1) fs) (λ d. i ≢ d.index) cs
        (λ d h e. unfold Listed in let le : i + 1 ≤ d.index = h.0 in omega arith) listed in
    elim (Bool-cases (is_strong_blocker f)) [
      | inr e ↦ rw (e, leaf_candidates) (more, apart)
      | inl e ↦ elim (Option-cases (finding_branch_position f leaf (index_branches bs))) [
        | inl n ↦ rw (e, n, leaf_candidates) (more, apart)
        | inr (a, n) ↦ elim (Bool-cases (leb (branch_edge_count bs a.0) a.1)) [
          | inl out ↦ rw (e, n, out, leaf_candidates) (more, apart)
          | inr fits ↦
              rw (e, n, fits, leaf_candidates) ((Listed-first i a.1 f fs, more), (new, apart))
        ]
      ]
    ]

Apart-keep : (p : Candidate → Bool) (cs : List Candidate) → Apart cs → Apart (keep p cs)
unfolding keep
Apart-keep p [] h = tt
Apart-keep p (c ∷ cs) (n, h) = elim (Bool-cases (p c)) [
  | inl e ↦ rw (e, keep) (All-keep (λ d. c.index ≢ d.index) p cs n, Apart-keep p cs h)
  | inr e ↦ rw (e, keep) (Apart-keep p cs h)
]

Apart-insert_sorted :
    (less : Candidate → Candidate → Bool) (c : Candidate) (cs : List Candidate)
    → All (λ d. c.index ≢ d.index) cs
    → Apart cs
    → Apart (insert_sorted less c cs)
unfolding insert_sorted
Apart-insert_sorted less c [] n h = (tt, tt)
Apart-insert_sorted less c (d ∷ ds) (n, ns) (m, h) = elim (Bool-cases (less d c)) [
  | inl e ↦
      rw (e, insert_sorted)
        (
          All-insert_sorted (λ x. d.index ≢ x.index) less c ds (λ q. n (sym q)) m,
          Apart-insert_sorted less c ds ns h,
        )
  | inr e ↦ rw (e, insert_sorted) ((n, ns), (m, h))
]

Apart-sort :
    (less : Candidate → Candidate → Bool) (cs : List Candidate) → Apart cs → Apart (sort less cs)
unfolding sort
Apart-sort less [] h = tt
Apart-sort less (c ∷ cs) (n, h) =
    Apart-insert_sorted less c (sort less cs) (All-sort (λ d. c.index ≢ d.index) less cs n)
      (Apart-sort less cs h)

pub nearest-Apart :
    (fs : List Finding) (cs : List Candidate) → Apart cs → Apart (nearest_candidates fs cs)
unfolding nearest_candidates
nearest-Apart fs [] h = tt
nearest-Apart fs (c ∷ cs) h =
    Apart-sort (less_at fs) _ (Apart-keep (λ x. x.pos == min_pos c.pos cs) (c ∷ cs) h)
