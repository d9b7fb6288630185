-- ===== src/Status/Coverage.antt =====
-- Which leaves the findings cover.
use mathlib.Core.Path.{subst}
use route_doc.Common.{
  Exists, now, later, is_hit_iff, contains-nil, contains_first, contains_later, contains_rest,
  contains-append, contains-keep, suc, ◌≡◌, ◌↔◌, ◌⊎◌, inl, inr, sym, Bool, true, false, ◌||◌, List,
  [], ◌∷◌, some, arith, Table, keys, length, climb, climb_iff, Nearest, found, up, Reaches, here,
  step, contains, keep, text_eq, text_eq_iff, text_eq_sound, text_eq_refl, ◌==◌, ==_iff, eq_text,
  Bool-cases, Option-cases,
}
use route_doc.Model.Ids.{BranchId}
use route_doc.Model.Paths.{Branch}
use route_doc.Model.Claims.{Finding}
use route_doc.Model.Enums.{Selection, eq_selection}
use route_doc.Branches.{parent_in, parent_in-keys}
use route_doc.GlobalPrimary.{is_strong_blocker}
use route_doc.Status.{parent_is, is_ancestor, covered_from, covered_by, covered}

-- `candidate` is a proper ancestor of `c`.
abbrev pub IsAbove : Table Branch → BranchId → BranchId → Type 0
IsAbove by_id candidate c =
    (p : BranchId) × (parent_in by_id c ≡ some p) × Reaches (parent_in by_id) candidate p

module _ (by_id : Table Branch) (candidate : BranchId) where
  Nearest-IsAbove :
      {c : BranchId}
      → Nearest (parent_in by_id) (parent_is by_id candidate) tt c
      → IsAbove by_id candidate c
  unfolding parent_is
  Nearest-IsAbove (found {c = c} s) = elim (Option-cases (parent_in by_id c)) [
    | inl e ↦ absurd (ground arith)
    | inr (p, e) ↦
        let same : p ≡ candidate = ground (arith, text_eq_iff p candidate) in
        (p, e, subst (Reaches (parent_in by_id) candidate) (sym same) here)
  ]
  Nearest-IsAbove (up s n r) = let (q, m, rest) = Nearest-IsAbove r in (_, n, step m rest)

  IsAbove-Nearest :
      {c p : BranchId}
      → parent_in by_id c ≡ some p
      → Reaches (parent_in by_id) candidate p
      → Nearest (parent_in by_id) (parent_is by_id candidate) tt c
  unfolding parent_is
  IsAbove-Nearest {c} n here = found (rw (n, parent_is) (rw (text_eq_refl candidate)))
  IsAbove-Nearest {c} {p} n (step m r) = elim (Bool-cases (text_eq p candidate)) [
    | inl e ↦ found (rw (n, parent_is) (rw e))
    | inr e ↦ up (rw (n, parent_is) (rw e)) n (IsAbove-Nearest m r)
  ]

  -- The walk of `isAncestor` ends, and answers whether `candidate` is properly above `leaf`, for any
  -- parents.
  pub is_ancestor_iff :
      (leaf : BranchId) → (is_ancestor candidate leaf by_id ≡ true) ↔ IsAbove by_id candidate leaf
  unfolding is_ancestor
  is_ancestor_iff leaf =
      let walk =
        climb (parent_in by_id) (parent_is by_id candidate) (suc (length (keys by_id))) [] leaf in
      let iff = is_hit_iff walk in
      let near =
        climb_iff (parent_in by_id) (parent_is by_id candidate) (keys by_id) (parent_in-keys by_id)
          leaf tt in
      (λ h. Nearest-IsAbove (near.0 (iff.0 h)), λ a. iff.1 (near.1 (IsAbove-Nearest a.1 a.2)))

in_either :
    {P : Finding → Type 0} {a b : Bool} (f : Finding) (fs : List Finding)
    → (P f → a ≡ true)
    → (Exists P fs → b ≡ true)
    → Exists P (f ∷ fs)
    → (a || b) ≡ true
in_either f fs h k (now p) = let q = h p in ground arith
in_either f fs h k (later e) = let q = k e in ground arith

other_selection :
    (s : Selection) → s ≡ Selection.branch_primary → (s == Selection.global_primary) ≡ false
other_selection s e = ground (arith, ==_iff s Selection.global_primary)

-- A finding covers a leaf if it is an observed or inferred blocker that was selected for the run, or
-- for a branch that is the leaf or above it.
pub record CoversLeaf (by_id : Table Branch) (leaf : BranchId) (f : Finding) : Type 0 where
  pub strong : is_strong_blocker f ≡ true
  pub chosen :
      (f.selection ≡ Selection.global_primary)
      ⊎ ((f.selection ≡ Selection.branch_primary)
          × ((b : BranchId) × (contains f.branch_ids b ≡ true)
              × ((b ≡ leaf) ⊎ IsAbove by_id b leaf)))

module _ (by_id : Table Branch) (leaves : List BranchId) (leaf : BranchId)
    (is_leaf : contains leaves leaf ≡ true) where
  at_or_IsAbove :
      (b : BranchId)
      → (((b == leaf) || is_ancestor b leaf by_id) ≡ true) ↔ ((b ≡ leaf) ⊎ IsAbove by_id b leaf)
  at_or_IsAbove b =
      let same = text_eq_iff b leaf in
      let above = is_ancestor_iff by_id b leaf in
      (
        λ h. elim (Bool-cases (b == leaf)) [
          | inl e ↦ inl (same.0 e)
          | inr e ↦ inr (above.0 (ground arith))
        ],
        λ h. elim h [
          | inl e ↦ let k = same.1 e in ground arith
          | inr a ↦ let k = above.1 a in ground arith
        ],
      )

  covered_from_iff :
      (bs : List BranchId)
      → (contains (covered_from by_id leaves bs) leaf ≡ true)
        ↔ ((b : BranchId) × (contains bs b ≡ true) × ((b ≡ leaf) ⊎ IsAbove by_id b leaf))
  unfolding covered_from
  covered_from_iff [] = (λ h. cc (h, contains-nil leaf), λ h. cc (h.1, contains-nil h.0))
  covered_from_iff (b ∷ bs) =
      let kept = contains-keep (λ l. (b == l) || is_ancestor b l by_id) leaves leaf in
      let here = at_or_IsAbove b in
      let rest = covered_from_iff bs in
      rw contains-append (
        λ h.
            elim (Bool-cases
              (contains (keep (λ l. (b == l) || is_ancestor b l by_id) leaves) leaf)) [
                | inl e ↦ (b, contains_first b bs, here.0 (kept.0 e).1)
                | inr e ↦ let (c, k, a) = rest.0 (ground arith) in (c, contains_later b c bs k, a)
              ],
        λ (c, k, a). elim (Bool-cases (text_eq b c)) [
          | inl e ↦
              let same = text_eq_sound b c e in
              let q =
                kept.1
                  (is_leaf, here.1 (subst (λ x. (x ≡ leaf) ⊎ IsAbove by_id x leaf) (sym same) a)) in
              ground arith
          | inr e ↦ let q = rest.1 (c, contains_rest b c bs e k, a) in ground arith
        ],
      )

  covered_by_iff :
      (f : Finding) → (contains (covered_by by_id leaves f) leaf ≡ true) ↔ CoversLeaf by_id leaf f
  unfolding covered_by
  covered_by_iff f =
      let global = ==_iff f.selection Selection.global_primary in
      let primary = ==_iff f.selection Selection.branch_primary in
      let from = covered_from_iff f.branch_ids in
      let none_covered = contains-nil leaf in
      (
        λ h. elim (Bool-cases (is_strong_blocker f)) [
          | inr s ↦ absurd (ground arith)
          | inl s ↦ elim (Bool-cases (f.selection == Selection.global_primary)) [
            | inl g ↦ record { strong = s; chosen = inl (global.0 g) }
            | inr g ↦ elim (Bool-cases (f.selection == Selection.branch_primary)) [
              | inr p ↦ absurd (ground arith)
              | inl p ↦ record { strong = s; chosen = inr (primary.0 p, from.0 (ground arith)) }
            ]
          ]
        ],
        λ c.
            let s = c.strong in
            elim c.chosen [
              | inl g ↦ let k = global.1 g in ground arith
              | inr (p, a) ↦
                  let k = primary.1 p in
                  let n : (f.selection == Selection.global_primary) ≡ false =
                    other_selection f.selection p in
                  let q = from.1 a in ground arith
            ],
      )

  -- A leaf is marked as covered exactly when some finding covers it.
  pub covered_iff :
      (fs : List Finding)
      → (contains (covered by_id leaves fs) leaf ≡ true) ↔ Exists (CoversLeaf by_id leaf) fs
  unfolding covered
  covered_iff [] = (λ h. cc (h, contains-nil leaf), λ e. elim e [ ])
  covered_iff (f ∷ fs) =
      let first = covered_by_iff f in
      let rest = covered_iff fs in
      rw contains-append (
        λ h. elim (Bool-cases (contains (covered_by by_id leaves f) leaf)) [
          | inl e ↦ now (first.0 e)
          | inr e ↦ later (rest.0 (ground arith))
        ],
        in_either f fs first.1 rest.1,
      )
