-- ===== src/Validation/Shared.antt =====
-- How issues are made and collected: `addIssue` of internal/model/validate_evidence.go, and the
-- loops over the lists of a run, some of which remember the identifiers they have met.
pub mod Loops
use route_doc.Common.{
  ℕ, suc, ◌+◌, ◌≡◌, ◌↔◌, refl, ap, Bool, true, false, not, Option, none, some, List, [], ◌∷◌, ◌++◌,
  Text, length, All, contains, arith,
}
use route_doc.Model.Issues.{ValidationCode, ValidationIssue}
use route_doc.Decimal.{itoa}

-- `if condition { addIssue(is, code, pointer, message) }`
unfoldable pub issue_if : Bool → ValidationCode → Text → Text → List ValidationIssue
issue_if false c p m = []
issue_if true c p m = record { code = c; pointer = p; message = m } ∷ []

-- `if err := ...; err != nil { addIssue(is, code, pointer, err.Error()) }`
unfoldable pub issue_of : Option Text → ValidationCode → Text → List ValidationIssue
issue_of none c p = []
issue_of (some m) c p = record { code = c; pointer = p; message = m } ∷ []

-- `fmt.Sprintf(base + "%d", i)`
unfoldable pub indexed : Text → ℕ → Text
indexed base i = base ++ itoa i

module _ {A : Type 0} where
  -- `for i, x := range xs`, from index `i` on
  unfoldable pub each : (ℕ → A → List ValidationIssue) → ℕ → List A → List ValidationIssue
  each f i [] = []
  each f i (x ∷ xs) = f i x ++ each f (i + 1) xs

  -- Such a loop that enters the identifier of every element into the set `seen`.
  unfoldable pub each_seen :
      (A → Text)
      → (List Text → ℕ → A → List ValidationIssue)
      → List Text
      → ℕ
      → List A
      → List ValidationIssue
  each_seen key f seen i [] = []
  each_seen key f seen i (x ∷ xs) = f seen i x ++ each_seen key f (key x ∷ seen) (i + 1) xs

  -- The set of the identifiers of a whole list.
  unfoldable pub ids_of_all : (A → Text) → List A → List Text
  ids_of_all key [] = []
  ids_of_all key (x ∷ xs) = key x ∷ ids_of_all key xs

-- The two tests on an identifier: that it is valid, and that it is new.
unfoldable pub identifier_issues :
    Bool → List Text → Text → Text → Text → Text → List ValidationIssue
unfolding issue_if
identifier_issues valid seen id p malformed repeated =
    issue_if (not valid) ValidationCode.invalid_value p malformed
    ++ issue_if (contains seen id) ValidationCode.duplicate_id p repeated

pub issue_if-nil :
    (b : Bool) (c : ValidationCode) (p m : Text) → (issue_if b c p m ≡ []) ↔ (b ≡ false)
unfolding issue_if
issue_if-nil false c p m = (λ _. refl, λ _. refl)
issue_if-nil true c p m = (λ h. cc, λ h. cc)

pub issue_of-nil :
    (o : Option Text) (c : ValidationCode) (p : Text) → (issue_of o c p ≡ []) ↔ (o ≡ none)
unfolding issue_of
issue_of-nil none c p = (λ _. refl, λ _. refl)
issue_of-nil (some m) c p = (λ h. cc, λ h. cc)

pub append-nil : (xs ys : List ValidationIssue) → (xs ++ ys ≡ []) ↔ ((xs ≡ []) × (ys ≡ []))
append-nil [] ys = (λ h. (refl, h), λ h. h.1)
append-nil (x ∷ xs) ys = (λ h. cc, λ h. cc (h.0))

module _ {A : Type 0} where
  pub length-ids_of_all : (key : A → Text) (xs : List A) → length (ids_of_all key xs) ≡ length xs
  unfolding ids_of_all
  length-ids_of_all key [] = refl
  length-ids_of_all key (x ∷ xs) = ap suc (length-ids_of_all key xs)

  -- A loop reports nothing exactly when no round does.
  pub each-nil :
      (f : ℕ → A → List ValidationIssue) (P : A → Type 0)
      → ((i : ℕ) (x : A) → (f i x ≡ []) ↔ P x)
      → (i : ℕ) (xs : List A) → (each f i xs ≡ []) ↔ All P xs
  unfolding each
  each-nil f P one i [] = (λ h. tt, λ h. refl)
  each-nil f P one i (x ∷ xs) = (
    λ h.
        let (e, es) = (append-nil (f i x) (each f (i + 1) xs)).0 h in
        ((one i x).0 e, (each-nil f P one (i + 1) xs).0 es),
    λ h.
        (append-nil (f i x) (each f (i + 1) xs)).1
          ((one i x).1 h.0, (each-nil f P one (i + 1) xs).1 h.1),
  )

-- The test that an identifier is known reports nothing exactly when it is.
pub unknown-nil :
    (known : List Text) (id : Text) (c : ValidationCode) (p m : Text)
    → (issue_if (not (contains known id)) c p m ≡ []) ↔ (contains known id ≡ true)
unknown-nil known id c p m =
    let iff = issue_if-nil (not (contains known id)) c p m in
    (λ h. let e = iff.0 h in ground arith, λ h. iff.1 (ground arith))
