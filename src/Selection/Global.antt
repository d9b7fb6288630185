-- ===== src/Selection/Global.antt =====
-- The choice of the primary finding of the run, the last part of `Apply`, and what holds of the whole.
use route_doc.Common.{
  ℕ, suc, ◌+◌, ◌≤◌, ◌≡◌, ◌≢◌, inl, inr, refl, sym, ◌∙◌, true, List, [], ◌∷◌, arith, All, All-map,
  ◌||◌, not, leb, length, Bool-cases, ==_iff, any, false,
}
use mathlib.Core.Path.{subst}
use route_doc.Model.Ids.{BranchId}
use route_doc.Model.Paths.{Branch}
use route_doc.Model.Claims.{Finding}
use route_doc.Model.Enums.{Selection, eq_selection}
use route_doc.GlobalPrimary.{
  is_strong_blocker, global_primary_proof, proves_global, finding_has_position, position_for_branch,
}
use route_doc.GlobalPrimary.Validation.{global_count, IsProved}
use route_doc.Selection.Leaf.{Candidate, mark}
use route_doc.Selection.Apply.{global_candidates, mark_all, mark_global}
use route_doc.Selection.Marks.{
  unselected, unselected_all, mark-unselected, At, At-unselected, At-map, All-mark,
  global_count-mark, global_count-mark_global,
}
use route_doc.Selection.Sound.{IsMarking}
use route_doc.Selection.Invariant.{IsEligible}
use route_doc.Branches.{index_branches, leaf_ids}

-- The finding has the proof for the whole run, and is a blocker that is observed or inferred; it is
-- written for the finding without its selection, which neither reads.
abbrev pub IsGlobal : List Branch → Finding → Type 0
IsGlobal bs f =
    (global_primary_proof (unselected f) bs ≡ true) × (is_strong_blocker (unselected f) ≡ true)

abbrev pub GlobalAt : List Branch → List Finding → Candidate → Type 0
GlobalAt bs fs c = At (IsGlobal bs) fs c.index

proof-unselected :
    (f : Finding) (s : Selection) (bs : List Branch)
    → (global_primary_proof (record f { selection = s }) bs ≡ global_primary_proof f bs)
      × (is_strong_blocker (record f { selection = s }) ≡ is_strong_blocker f)
unfolding global_primary_proof proves_global finding_has_position position_for_branch
    is_strong_blocker
proof-unselected f s bs = (refl, refl)

proof-placed :
    (f : Finding) (bs : List Branch) → global_primary_proof f bs ≡ true → f.branch_ids ≢ []
unfolding global_primary_proof any
proof-placed f bs h e =
    let none_proves : any (proves_global f (index_branches bs) (leaf_ids bs)) f.branch_ids ≡ false =
      rw (e, any) refl in
    ground arith

module _ (bs : List Branch) (leaves : List BranchId) (all_fs : List Finding) where
  pub global_candidates_from :
      (i : ℕ) (fs : List Finding)
      → ((j : ℕ) → At (IsGlobal bs) fs j → At (IsGlobal bs) all_fs (i + j))
      → All (GlobalAt bs all_fs) (global_candidates bs leaves i fs)
  unfolding global_candidates
  global_candidates_from i [] link = tt
  global_candidates_from i (f ∷ fs) link =
      let rest : All (GlobalAt bs all_fs) (global_candidates bs leaves (i + 1) fs) =
        global_candidates_from (i + 1) fs
          (λ j h. subst (At (IsGlobal bs) all_fs) (omega arith) (link (suc j) h)) in
      elim (Bool-cases (not (is_strong_blocker f) || leb (length leaves) 0)) [
        | inl e ↦ rw (e, global_candidates) rest
        | inr e ↦ elim (Bool-cases (global_primary_proof f bs)) [
          | inr p ↦ rw (e, p, global_candidates) rest
          | inl p ↦
              let strong : is_strong_blocker f ≡ true = ground arith in
              let same = proof-unselected f Selection.none bs in
              let first : GlobalAt bs all_fs (record { index = i; pos = 0 }) =
                subst (At (IsGlobal bs) all_fs) (omega arith)
                  (link 0 (same.0 ∙ p, same.1 ∙ strong)) in
              rw (e, p, global_candidates) (first, rest)
        ]
      ]

-- What holds while the candidates are marked.
pub record IsChoice (bs : List Branch) (fs₀ fs : List Finding) : Type 0 where
  pub alike : unselected_all fs₀ ≡ unselected_all fs
  pub strong : All (λ f. f.selection ≢ Selection.none → IsEligible f) fs
  pub proved : All (IsProved bs) fs
  pub unique : global_count fs ≤ 1

module _ (bs : List Branch) (fs₀ : List Finding) where
  -- Marking a candidate with any selection keeps all but the count.
  keeps_strong :
      (fs : List Finding) (c : Candidate) (s : Selection)
      → GlobalAt bs fs₀ c
      → unselected_all fs₀ ≡ unselected_all fs
      → All (λ f. f.selection ≢ Selection.none → IsEligible f) fs
      → All (λ f. f.selection ≢ Selection.none → IsEligible f) (mark fs c.index s)
  keeps_strong fs c s g a h =
      let here : At (IsGlobal bs) fs c.index =
        At-unselected (λ f. (global_primary_proof f bs ≡ true) × (is_strong_blocker f ≡ true)) fs₀
          fs c.index a g in
      All-mark (λ f. f.selection ≢ Selection.none → IsEligible f) fs c.index s
        (At-map fs c.index
          (λ f p _. (
            (proof-unselected f s bs).1 ∙ sym (proof-unselected f Selection.none bs).1 ∙ p.1,
            proof-placed (unselected f) bs p.0,
          ))
          here)
        h

  keeps_IsProved :
      (fs : List Finding) (c : Candidate) (s : Selection)
      → GlobalAt bs fs₀ c
      → unselected_all fs₀ ≡ unselected_all fs
      → All (IsProved bs) fs
      → All (IsProved bs) (mark fs c.index s)
  keeps_IsProved fs c s g a h =
      let here : At (IsGlobal bs) fs c.index =
        At-unselected (λ f. (global_primary_proof f bs ≡ true) × (is_strong_blocker f ≡ true)) fs₀
          fs c.index a g in
      All-mark (IsProved bs) fs c.index s
        (At-map fs c.index
          (λ f p _.
            (proof-unselected f s bs).0 ∙ sym (proof-unselected f Selection.none bs).0 ∙ p.0)
          here)
        h

  IsChoice-mark_all :
      (cs : List Candidate) (fs : List Finding)
      → All (GlobalAt bs fs₀) cs
      → IsChoice bs fs₀ fs
      → IsChoice bs fs₀ (mark_all cs Selection.additional fs)
  unfolding mark_all
  IsChoice-mark_all [] fs g h = h
  IsChoice-mark_all (c ∷ cs) fs (g, gs) h =
      IsChoice-mark_all cs (mark fs c.index Selection.additional) gs (record {
        alike = h.alike ∙ sym (mark-unselected fs c.index Selection.additional);
        strong = keeps_strong fs c Selection.additional g h.alike h.strong;
        proved = keeps_IsProved fs c Selection.additional g h.alike h.proved;
        unique =
            omega (arith, h.unique, global_count-mark fs c.index Selection.additional (λ e. cc e));
      })

global_count-local :
    (fs : List Finding) → All (λ f. f.selection ≢ Selection.global_primary) fs → global_count fs ≡ 0
unfolding global_count
global_count-local [] h = refl
global_count-local (f ∷ fs) (n, h) =
    ground (arith, ==_iff f.selection Selection.global_primary, global_count-local fs h)

IsProved-local :
    (bs : List Branch) (fs : List Finding)
    → All (λ f. f.selection ≢ Selection.global_primary) fs
    → All (IsProved bs) fs
IsProved-local bs fs h =
    All-map (λ f. f.selection ≢ Selection.global_primary) (IsProved bs) fs (λ f n e. absurd (n e)) h

pub IsChoice-mark_global :
    (bs : List Branch) (fs₀ fs : List Finding) (cs : List Candidate)
    → All (GlobalAt bs fs₀) cs
    → IsMarking fs₀ fs
    → IsChoice bs fs₀ (mark_global cs fs)
unfolding mark_global
IsChoice-mark_global bs fs₀ fs [] g h = record {
  alike = h.alike;
  strong = h.strong;
  proved = IsProved-local bs fs h.local;
  unique = omega (arith, global_count-local fs h.local);
}
IsChoice-mark_global bs fs₀ fs (c ∷ cs) (g, gs) h =
    IsChoice-mark_all bs fs₀ cs (mark fs c.index Selection.global_primary) gs (record {
      alike = h.alike ∙ sym (mark-unselected fs c.index Selection.global_primary);
      strong = keeps_strong bs fs₀ fs c Selection.global_primary g h.alike h.strong;
      proved =
          keeps_IsProved bs fs₀ fs c Selection.global_primary g h.alike
            (IsProved-local bs fs h.local);
      unique = omega (arith, global_count-local fs h.local, global_count-mark_global fs c.index);
    })
