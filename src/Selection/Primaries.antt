-- ===== src/Selection/Primaries.antt =====
-- Which candidates of a leaf the loop over them selects.
use mathlib.Core.Path.{fun_ext, ap₂, ap}
use route_doc.Common.{
  ℕ, zero, suc, ◌≡◌, ◌≢◌, ◌⊎◌, inl, inr, refl, ◌∙◌, Bool, true, false, not, ◌&&◌, List, [], ◌∷◌,
  ◌++◌, arith, All, All-append, any, Bool-cases, ◌==◌, Option-cases, get_elem?,
}
use route_doc.Model.Claims.{Finding, Claim}
use route_doc.Model.Enums.{Selection, ClaimLevel, eq_claim_level}
use route_doc.Selection.Statements.{same_statement}
use route_doc.Selection.Leaf.{Candidate, mark, test_at, same_at, observed_at, select_loop}

test_at-cong :
    (fs : List Finding) (p q : Finding → Bool) (c : Candidate)
    → ((f : Finding) → p f ≡ q f)
    → test_at fs p c ≡ test_at fs q c
unfolding test_at
test_at-cong fs p q c h = elim (Option-cases (get_elem? fs c.index)) [
  | inl e ↦ rw (e, test_at)
  | inr (f, e) ↦ rw (e, test_at) (h f)
]

-- A test that does not read the selection has one answer before and after a mark.
test_at-mark :
    (fs : List Finding) (p : Finding → Bool) (i : ℕ) (s : Selection) (j k : ℕ)
    → ((f : Finding) → p (record f { selection = s }) ≡ p f)
    → test_at (mark fs i s) p (record { index = j; pos = k })
      ≡ test_at fs p (record { index = j; pos = k })
unfolding test_at mark
test_at-mark [] p i s j k h = refl
test_at-mark (f ∷ fs) p zero s zero k h = h f
test_at-mark (f ∷ fs) p zero s (suc j) k h = refl
test_at-mark (f ∷ fs) p (suc i) s zero k h = refl
test_at-mark (f ∷ fs) p (suc i) s (suc j) k h = test_at-mark fs p i s j k h

observed_at-mark :
    (fs : List Finding) (i : ℕ) (s : Selection) (c : Candidate)
    → observed_at (mark fs i s) c ≡ observed_at fs c
unfolding observed_at
observed_at-mark fs i s c =
    test_at-mark fs (λ f. f.level == ClaimLevel.observed) i s c.index c.pos (λ f. refl)

same_statement-mark :
    (f g : Finding) (s : Selection) (claims : List Claim)
    → (same_statement (record f { selection = s }) g claims ≡ same_statement f g claims)
      × (same_statement f (record g { selection = s }) claims ≡ same_statement f g claims)
unfolding same_statement
same_statement-mark f g s claims = (refl, refl)

same_at-mark :
    (fs : List Finding) (claims : List Claim) (i : ℕ) (s : Selection) (a b : Candidate)
    → same_at (mark fs i s) claims a b ≡ same_at fs claims a b
unfolding same_at
same_at-mark fs claims i s a b =
    test_at-mark fs (λ f. test_at (mark fs i s) (λ g. same_statement f g claims) b) i s a.index
      a.pos (λ f. test_at-cong (mark fs i s) _ _ b (λ g. (same_statement-mark f g s claims).0))
    ∙ test_at-cong fs _ _ a (λ f.
      test_at-mark fs (λ g. same_statement f g claims) i s b.index b.pos
        (λ g. (same_statement-mark f g s claims).1))

-- The choice of the loop without the marks: which candidates are selected.
unfoldable pub choose :
    (Candidate → Bool)
    → (Candidate → Candidate → Bool)
    → List Candidate
    → List Candidate
    → List Candidate
    → List Candidate
choose observed alike all_at [] selected = selected
choose observed alike all_at (c ∷ cs) selected =
    elim (any (λ o. observed o && alike c o) all_at && not (observed c)) [
      | true ↦ choose observed alike all_at cs selected
      | false ↦ elim (any (λ p. alike c p) selected) [
        | true ↦ choose observed alike all_at cs selected
        | false ↦ choose observed alike all_at cs (selected ++ c ∷ [])
      ]
    ]

-- Marks do not disturb the choice.
pub select_loop-choose :
    (claims : List Claim) (all_at cs : List Candidate) (fs : List Finding)
    (selected : List Candidate)
    → (select_loop claims all_at cs fs selected).1
      ≡ choose (observed_at fs) (same_at fs claims) all_at cs selected
unfolding select_loop choose
select_loop-choose claims all_at [] fs selected = refl
select_loop-choose claims all_at (c ∷ cs) fs selected =
    let after = λ (s : Selection) (x : List Candidate).
      select_loop-choose claims all_at cs (mark fs c.index s) x
      ∙ ap₂ (λ o a. choose o a all_at cs x) (fun_ext (observed_at-mark fs c.index s))
          (fun_ext (λ a. fun_ext (same_at-mark fs claims c.index s a))) in
    elim (Bool-cases
      (any (λ o. observed_at fs o && same_at fs claims c o) all_at && not (observed_at fs c))) [
        | inl e ↦ rw (e, select_loop, choose) (after Selection.additional selected)
        | inr e ↦ elim (Bool-cases (any (λ p. same_at fs claims c p) selected)) [
          | inl d ↦ rw (e, d, select_loop, choose) (after Selection.additional selected)
          | inr d ↦
              rw (e, d, select_loop, choose) (after Selection.branch_primary (selected ++ c ∷ []))
        ]
      ]

-- Of two candidates in the list, the later one is not like the earlier one.
abbrev pub Distinct : (Candidate → Candidate → Bool) → List Candidate → Type 0
Distinct alike [] = Unit
Distinct alike (x ∷ xs) = All (λ y. alike y x ≡ false) xs × Distinct alike xs

append-ne-nil : (xs : List Candidate) (c : Candidate) → xs ++ c ∷ [] ≢ []
append-ne-nil [] c h = cc
append-ne-nil (x ∷ xs) c h = cc

module _ (observed : Candidate → Bool) (alike : Candidate → Candidate → Bool)
    (all_at : List Candidate) where
  choose-grows :
      (cs selected : List Candidate) → selected ≢ [] → choose observed alike all_at cs selected ≢ []
  unfolding choose
  choose-grows [] selected n = n
  choose-grows (c ∷ cs) selected n =
      elim (Bool-cases (any (λ o. observed o && alike c o) all_at && not (observed c))) [
        | inl e ↦ rw (e, choose) (choose-grows cs selected n)
        | inr e ↦ elim (Bool-cases (any (λ p. alike c p) selected)) [
          | inl d ↦ rw (e, d, choose) (choose-grows cs selected n)
          | inr d ↦
              rw (e, d, choose) (choose-grows cs (selected ++ c ∷ []) (append-ne-nil selected c))
        ]
      ]

  observed_alike :
      (c : Candidate) (xs : List Candidate)
      → any (λ o. observed o && alike c o) xs ≡ true
      → any observed xs ≡ true
  unfolding any
  observed_alike c [] h = cc
  observed_alike c (x ∷ xs) h = ground (arith, observed_alike c xs)

  -- Something is selected, if an observed candidate is still to come or there is none at all.
  pub choose-ne-nil :
      (cs : List Candidate)
      → cs ≢ []
      → (any observed cs ≡ true) ⊎ (any observed all_at ≡ false)
      → choose observed alike all_at cs [] ≢ []
  unfolding choose any
  choose-ne-nil [] n h = absurd (n refl)
  choose-ne-nil (c ∷ cs) n h =
      elim (Bool-cases (any (λ o. observed o && alike c o) all_at && not (observed c))) [
        | inl e ↦
            let some_observed : any observed all_at ≡ true =
              observed_alike c all_at (ground arith) in
            let later : any observed cs ≡ true = ground arith in
            let more : cs ≢ [] = λ q. ground (arith, ap (any observed) q) in
            rw (e, choose) (choose-ne-nil cs more (inl later))
        | inr e ↦ rw (e, choose) (choose-grows cs (c ∷ []) (λ q. cc q))
      ]

  none_alike :
      (c : Candidate) (xs : List Candidate)
      → any (λ p. alike c p) xs ≡ false
      → All (λ x. alike c x ≡ false) xs
  unfolding any
  none_alike c [] h = tt
  none_alike c (x ∷ xs) h = (ground arith, none_alike c xs (ground arith))

  Distinct-append :
      (xs : List Candidate) (c : Candidate)
      → Distinct alike xs
      → All (λ x. alike c x ≡ false) xs
      → Distinct alike (xs ++ c ∷ [])
  Distinct-append [] c d h = (tt, tt)
  Distinct-append (x ∷ xs) c (a, d) (p, h) =
      (All-append (λ y. alike y x ≡ false) xs (c ∷ []) a (p, tt), Distinct-append xs c d h)

  pub choose-Distinct :
      (cs selected : List Candidate)
      → Distinct alike selected
      → Distinct alike (choose observed alike all_at cs selected)
  unfolding choose
  choose-Distinct [] selected d = d
  choose-Distinct (c ∷ cs) selected d =
      elim (Bool-cases (any (λ o. observed o && alike c o) all_at && not (observed c))) [
        | inl e ↦ rw (e, choose) (choose-Distinct cs selected d)
        | inr e ↦ elim (Bool-cases (any (λ p. alike c p) selected)) [
          | inl a ↦ rw (e, a, choose) (choose-Distinct cs selected d)
          | inr a ↦
              rw (e, a, choose)
                (choose-Distinct cs (selected ++ c ∷ [])
                  (Distinct-append selected c d (none_alike c selected a)))
        ]
      ]

  pub choose-All :
      (P : Candidate → Type 0) (cs selected : List Candidate)
      → All P cs
      → All P selected
      → All P (choose observed alike all_at cs selected)
  unfolding choose
  choose-All P [] selected h k = k
  choose-All P (c ∷ cs) selected (p, h) k =
      elim (Bool-cases (any (λ o. observed o && alike c o) all_at && not (observed c))) [
        | inl e ↦ rw (e, choose) (choose-All P cs selected h k)
        | inr e ↦ elim (Bool-cases (any (λ p. alike c p) selected)) [
          | inl a ↦ rw (e, a, choose) (choose-All P cs selected h k)
          | inr a ↦
              rw (e, a, choose)
                (choose-All P cs (selected ++ c ∷ []) h (All-append P selected (c ∷ []) k (p, tt)))
        ]
      ]
