-- ===== src/Validation/Shared/Loops.antt =====
-- What the loops of the validation show of the elements when they report nothing.
use route_doc.Common.{
  ℕ, zero, suc, ◌+◌, ◌≡◌, ◌≢◌, sym, false, List, [], ◌∷◌, Text, arith, All, All-map, contains,
  get_elem?, some, text_eq_iff, any,
}
use mathlib.Core.Path.{subst}
use route_doc.Model.Issues.{ValidationIssue}
use route_doc.Validation.Shared.{append-nil, each, each_seen}

module _ {A : Type 0} where
  -- `P` of each element and its index, from index `i` on.
  abbrev pub AllFrom : (ℕ → A → Type 0) → ℕ → List A → Type 0
  AllFrom P i [] = Unit
  AllFrom P i (x ∷ xs) = P i x × AllFrom P (i + 1) xs

  -- No two elements have the same key.
  abbrev pub NoRepeat : (A → Text) → List A → Type 0
  NoRepeat key [] = Unit
  NoRepeat key (x ∷ xs) = All (λ y. key y ≢ key x) xs × NoRepeat key xs

  pub AllFrom-at :
      (P : ℕ → A → Type 0) (i k : ℕ) (xs : List A) (x : A)
      → AllFrom P i xs
      → get_elem? xs k ≡ some x
      → P (k + i) x
  AllFrom-at P i k [] x h e = cc
  AllFrom-at P i zero (y ∷ xs) x h e =
      let at : i ≡ 0 + i = omega arith in
      let here : y ≡ x = ground arith in subst (λ z. P (0 + i) z) here (subst (λ j. P j y) at h.0)
  AllFrom-at P i (suc k) (y ∷ xs) x h e =
      let at : k + (i + 1) ≡ suc k + i = omega arith in
      subst (λ j. P j x) at (AllFrom-at P (i + 1) k xs x h.1 e)

  pub All-values : (P : A → Type 0) (i : ℕ) (xs : List A) → AllFrom (λ j x. P x) i xs → All P xs
  All-values P i [] h = tt
  All-values P i (x ∷ xs) h = (h.0, All-values P (i + 1) xs h.1)

  pub each-AllFrom :
      (f : ℕ → A → List ValidationIssue) (P : ℕ → A → Type 0)
      → ((i : ℕ) (x : A) → f i x ≡ [] → P i x)
      → (i : ℕ) (xs : List A) → each f i xs ≡ []
      → AllFrom P i xs
  unfolding each
  each-AllFrom f P one i [] h = tt
  each-AllFrom f P one i (x ∷ xs) h =
      let (a, b) = (append-nil (f i x) (each f (i + 1) xs)).0 h in
      (one i x a, each-AllFrom f P one (i + 1) xs b)

module _ {A : Type 0} (key : A → Text) (f : List Text → ℕ → A → List ValidationIssue) where
  each_seen-split :
      (seen : List Text) (i : ℕ) (x : A) (xs : List A)
      → each_seen key f seen i (x ∷ xs) ≡ []
      → (f seen i x ≡ []) × (each_seen key f (key x ∷ seen) (i + 1) xs ≡ [])
  unfolding each_seen
  each_seen-split seen i x xs h =
      (append-nil (f seen i x) (each_seen key f (key x ∷ seen) (i + 1) xs)).0 h

  pub each_seen-AllFrom :
      (P : ℕ → A → Type 0)
      → ((seen : List Text) (i : ℕ) (x : A) → f seen i x ≡ [] → P i x)
      → (seen : List Text) (i : ℕ) (xs : List A) → each_seen key f seen i xs ≡ []
      → AllFrom P i xs
  each_seen-AllFrom P one seen i [] h = tt
  each_seen-AllFrom P one seen i (x ∷ xs) h =
      let (a, b) = each_seen-split seen i x xs h in
      (one seen i x a, each_seen-AllFrom P one (key x ∷ seen) (i + 1) xs b)

  -- A loop that reports a key that it has seen, and reports nothing, has met no key twice.
  NoRepeat-unseen :
      ((seen : List Text) (i : ℕ) (x : A) → f seen i x ≡ [] → contains seen (key x) ≡ false)
      → (seen : List Text) (i : ℕ) (xs : List A) → each_seen key f seen i xs ≡ []
      → All (λ x. contains seen (key x) ≡ false) xs × NoRepeat key xs
  unfolding contains any
  NoRepeat-unseen one seen i [] h = (tt, tt)
  NoRepeat-unseen one seen i (x ∷ xs) h =
      let (a, b) = each_seen-split seen i x xs h in
      let (later, rest) = NoRepeat-unseen one (key x ∷ seen) (i + 1) xs b in
      (
        (one seen i x a, All-map _ _ xs (λ y e. ground arith) later),
        (
          All-map _ _ xs
              (λ y e same. let t = (text_eq_iff (key x) (key y)).1 (sym same) in ground arith)
              later,
          rest,
        ),
      )

  pub each_seen-NoRepeat :
      ((seen : List Text) (i : ℕ) (x : A) → f seen i x ≡ [] → contains seen (key x) ≡ false)
      → (i : ℕ) (xs : List A) → each_seen key f [] i xs ≡ []
      → NoRepeat key xs
  each_seen-NoRepeat one i xs h = (NoRepeat-unseen one [] i xs h).1
