-- ===== src/Rules/Default/Rounds.antt =====
-- The rounds of the three rules of internal/rules over the elements of a run, and the loop of
-- internal/rules/evaluate.go over the candidates that they return.
use route_doc.Common.{
  ◌≡◌, ◌≢◌, refl, sym, true, false, List, [], ◌∷◌, ◌++◌, Text, arith, All, All-append, contains,
  any, inl, inr, text_eq_iff,
}
use mathlib.Core.Path.{subst}
use route_doc.Model.Ids.{RuleId}
use route_doc.Model.Paths.{Branch}
use route_doc.Rules.Templates.{RuleCandidate, valid_candidate_key}
use route_doc.Rules.Compile.{collect_raw}
use route_doc.Rules.Quiet.{IsPlain}
use route_doc.Rules.Default.Shapes.{AllBelow, HasOne}
use route_doc.Validation.Shared.Loops.{NoRepeat}

append_same : (p a b : Text) → p ++ a ≡ p ++ b → a ≡ b
append_same [] a b h = h
append_same (c ∷ p) a b h = append_same p a b (ground arith)

module _ {A : Type 0} (at : A → List RuleCandidate) where
  -- The candidates of all elements.
  unfoldable pub rounds : List A → List RuleCandidate
  rounds [] = []
  rounds (x ∷ xs) = at x ++ rounds xs

module _ {A : Type 0} (at : A → List RuleCandidate) (id : A → Text) (prefix : Text)
    (bs : List Branch) (one : (x : A) → HasOne bs (prefix ++ id x) (at x)) where
  one-All : (x : A) → All (λ c. IsPlain c × AllBelow bs c) (at x)
  one-All x = elim (one x) [
    | inl e ↦ subst (All (λ c. IsPlain c × AllBelow bs c)) (sym e) tt
    | inr (c, e, s) ↦ subst (All (λ c. IsPlain c × AllBelow bs c)) (sym e) ((s.plain, s.below), tt)
  ]

  pub rounds-All : (xs : List A) → All (λ c. IsPlain c × AllBelow bs c) (rounds at xs)
  unfolding rounds
  rounds-All [] = tt
  rounds-All (x ∷ xs) = All-append _ (at x) _ (one-All x) (rounds-All xs)

  -- One element's candidate, if there is one, has a valid key that is not taken.
  collect_one-quiet :
      (rule : RuleId) (seen : List Text) (x : A) (rest : List RuleCandidate)
      → valid_candidate_key (prefix ++ id x) ≡ true
      → contains seen (prefix ++ id x) ≡ false
      → (collect_raw rule seen rest).1 ≡ []
      → (collect_raw rule ((prefix ++ id x) ∷ seen) rest).1 ≡ []
      → (collect_raw rule seen (at x ++ rest)).1 ≡ []
  unfolding collect_raw
  collect_one-quiet rule seen x rest valid free a b = elim (one x) [
    | inl e ↦ subst (λ cs. (collect_raw rule seen (cs ++ rest)).1 ≡ []) (sym e) a
    | inr (c, e, s) ↦
        let v : valid_candidate_key c.candidate_key ≡ true =
          subst (λ k. valid_candidate_key k ≡ true) (sym s.key_is) valid in
        let f : contains seen c.candidate_key ≡ false =
          subst (λ k. contains seen k ≡ false) (sym s.key_is) free in
        let next : (collect_raw rule (c.candidate_key ∷ seen) rest).1 ≡ [] =
          subst (λ k. (collect_raw rule (k ∷ seen) rest).1 ≡ []) (sym s.key_is) b in
        subst (λ cs. (collect_raw rule seen (cs ++ rest)).1 ≡ []) (sym e)
          (rw (v, f, collect_raw) next)
  ]

  -- Elements with distinct identifiers give keys that are all valid and distinct.
  pub collect_rounds-quiet :
      (rule : RuleId) (seen : List Text) (xs : List A)
      → NoRepeat id xs
      → All (λ x. valid_candidate_key (prefix ++ id x) ≡ true) xs
      → All (λ x. contains seen (prefix ++ id x) ≡ false) xs
      → (collect_raw rule seen (rounds at xs)).1 ≡ []
  unfolding rounds collect_raw contains any
  collect_rounds-quiet rule seen [] distinct valid free = refl
  collect_rounds-quiet rule seen (x ∷ xs) (new, distinct) (v, valid) (f, free) =
      let key = prefix ++ id x in
      let still : All (λ y. contains (key ∷ seen) (prefix ++ id y) ≡ false) xs =
        All-both xs new free in
      collect_one-quiet rule seen x (rounds at xs) v f
        (collect_rounds-quiet rule seen xs distinct valid free)
        (collect_rounds-quiet rule (key ∷ seen) xs distinct valid still)
    where
      All-both :
          (ys : List A)
          → All (λ y. id y ≢ id x) ys
          → All (λ y. contains seen (prefix ++ id y) ≡ false) ys
          → All (λ y. contains ((prefix ++ id x) ∷ seen) (prefix ++ id y) ≡ false) ys
      All-both [] n f = tt
      All-both (y ∷ ys) (n, ns) (f, fs) =
          let other : prefix ++ id x ≢ prefix ++ id y =
            λ e. n (sym (append_same prefix (id x) (id y) e)) in
          let k = (text_eq_iff (prefix ++ id x) (prefix ++ id y)).0 in
          (ground (arith, other, k), All-both ys ns fs)
