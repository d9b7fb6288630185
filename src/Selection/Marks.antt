-- ===== src/Selection/Marks.antt =====
-- What marking findings keeps: everything but `selection`, and which findings are strong blockers.
use mathlib.Core.Path.{subst}
use route_doc.Common.{ℕ, zero, suc, ◌≤◌, ◌≡◌, ◌≢◌, refl, ap, List, [], ◌∷◌, arith, All, ==_iff}
use route_doc.Model.Claims.{Finding}
use route_doc.Model.Enums.{Selection, eq_selection}
use route_doc.GlobalPrimary.Validation.{global_count}
use route_doc.Selection.Leaf.{mark}

-- A finding without its selection.
abbrev pub unselected : Finding → Finding
unselected f = record f { selection = Selection.none }

abbrev pub unselected_all : List Finding → List Finding
unselected_all [] = []
unselected_all (f ∷ fs) = unselected f ∷ unselected_all fs

pub mark-unselected :
    (fs : List Finding) (i : ℕ) (s : Selection) → unselected_all (mark fs i s) ≡ unselected_all fs
unfolding mark
mark-unselected [] i s = refl
mark-unselected (f ∷ fs) zero s = refl
mark-unselected (f ∷ fs) (suc i) s = ap (◌∷◌ (unselected f)) (mark-unselected fs i s)

-- `Q` of the finding at an index, if there is one.
abbrev pub At {ℓ} : (Finding → Type ℓ) → List Finding → ℕ → Type ℓ
At Q [] i = Unit
At Q (f ∷ fs) zero = Q f
At Q (f ∷ fs) (suc i) = At Q fs i

-- A predicate that does not read the selection holds at the same indices of two lists that differ
-- in selections only.
pub At-unselected :
    (Q : Finding → Type 0)
    → (fs gs : List Finding) (i : ℕ) → unselected_all fs ≡ unselected_all gs
    → At (λ f. Q (unselected f)) fs i
    → At (λ f. Q (unselected f)) gs i
At-unselected Q fs [] i h q = tt
At-unselected Q [] (g ∷ gs) i h q = absurd (cc h)
At-unselected Q (f ∷ fs) (g ∷ gs) zero h q =
    let same : unselected f ≡ unselected g = ground arith in subst Q same q
At-unselected Q (f ∷ fs) (g ∷ gs) (suc i) h q = At-unselected Q fs gs i (ground arith) q

-- Marking keeps a predicate that the new selection makes no worse, at the index that it marks.
pub All-mark :
    (Q : Finding → Type 0) (fs : List Finding) (i : ℕ) (s : Selection)
    → At (λ f. Q (record f { selection = s })) fs i
    → All Q fs
    → All Q (mark fs i s)
unfolding mark
All-mark Q [] i s q h = tt
All-mark Q (f ∷ fs) zero s q (p, h) = (q, h)
All-mark Q (f ∷ fs) (suc i) s q (p, h) = (p, All-mark Q fs i s q h)

pub global_count-mark :
    (fs : List Finding) (i : ℕ) (s : Selection)
    → s ≢ Selection.global_primary
    → global_count (mark fs i s) ≤ global_count fs
unfolding mark global_count
global_count-mark [] i s n = omega arith
global_count-mark (f ∷ fs) zero s n = ground (arith, ==_iff s Selection.global_primary)
global_count-mark (f ∷ fs) (suc i) s n = omega (arith, global_count-mark fs i s n)

pub global_count-mark_global :
    (fs : List Finding) (i : ℕ)
    → global_count (mark fs i Selection.global_primary) ≤ suc (global_count fs)
unfolding mark global_count
global_count-mark_global [] i = omega arith
global_count-mark_global (f ∷ fs) zero = ground arith
global_count-mark_global (f ∷ fs) (suc i) = omega (arith, global_count-mark_global fs i)

pub At-map {ℓ κ} :
    {Q : Finding → Type ℓ} {R : Finding → Type κ} (fs : List Finding) (i : ℕ)
    → ((f : Finding) → Q f → R f)
    → At Q fs i
    → At R fs i
At-map [] i h q = tt
At-map (f ∷ fs) zero h q = h f q
At-map (f ∷ fs) (suc i) h q = At-map fs i h q
