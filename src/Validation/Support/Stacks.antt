-- ===== src/Validation/Support/Stacks.antt =====
-- The stack of `claimGraphHasCycle` of internal/model/validate_evaluated.go.
use route_doc.Common.{
  ℕ, ◌≡◌, ◌⊎◌, refl, sym, ◌∙◌, List, [], ◌∷◌, inl, inr, arith, Exists, now, later, ◌==◌, ==_iff,
  eq_number, Bool-cases,
}
use mathlib.Core.Path.{subst}
use route_doc.Validation.Graph.{fresh, active, done, set_mark, set_mark-other}
use route_doc.Validation.Checks.Visits.{Mark-cases}
use route_doc.Validation.Support.{
  States, Frame, Advance, closes_cycle, descends, is_finished, advance,
}

abbrev pub In : ℕ → List ℕ → Type 0
In t ts = Exists (λ x. x ≡ t) ts

-- What the inner loop has passed is done: it stops at a node that is not, or has passed all.
pub data Advances (st : States) (rest : List ℕ) : Advance → Type 0 where
  at_cycle : (n : ℕ) → In n rest → st n ≡ active → Advances st rest closes_cycle
  at_child :
      (n : ℕ) (rest' : List ℕ)
      → In n rest
      → st n ≡ fresh
      → ((t : ℕ) → In t rest → In t rest' ⊎ ((st t ≡ done) ⊎ (n ≡ t)))
      → ((t : ℕ) → In t rest' → In t rest)
      → Advances st rest (descends n rest')
  at_end : ((t : ℕ) → In t rest → st t ≡ done) → Advances st rest is_finished

Advances-later :
    (st : States) (n : ℕ) (rest : List ℕ) (a : Advance)
    → st n ≡ done
    → Advances st rest a
    → Advances st (n ∷ rest) a
Advances-later st n rest _ e (at_cycle m x k) = at_cycle m (later x) k
Advances-later st n rest _ e (at_child m rest' x k passed kept) =
    at_child m rest' (later x) k
      (λ t y. elim y [ now p ↦ inr (inl (subst (λ z. st z ≡ done) p e)) | later z ↦ passed t z ])
      (λ t y. later (kept t y))
Advances-later st n rest _ e (at_end all_done) =
    at_end (λ t y. elim y [ now p ↦ subst (λ z. st z ≡ done) p e | later z ↦ all_done t z ])

pub advance-Advances : (st : States) (rest : List ℕ) → Advances st rest (advance st rest)
unfolding advance
advance-Advances st [] = at_end (λ t x. elim x [ ])
advance-Advances st (n ∷ rest) = elim (Mark-cases (st n)) [
  | inl e ↦
      rw (e, advance)
        (at_child n rest (now refl) e (λ t x. elim x [ now p ↦ inr (inr p) | later y ↦ inl y ])
          (λ t x. later x))
  | inr (inl e) ↦ rw (e, advance) (at_cycle n (now refl) e)
  | inr (inr e) ↦ rw (e, advance) (Advances-later st n rest _ e (advance-Advances st rest))
]

-- The nodes that are being visited are on the stack.
abbrev pub OnStack : States → List Frame → Type 0
OnStack st stack = (k : ℕ) → st k ≡ active → Exists (λ f. f.0 ≡ k) stack

pub OnStack-push :
    (st : States) (stack stack' : List Frame) (n : ℕ) (ts : List ℕ)
    → ((k : ℕ) → Exists (λ f. f.0 ≡ k) stack → Exists (λ f. f.0 ≡ k) stack')
    → OnStack st stack
    → OnStack (set_mark st n active) ((n, ts) ∷ stack')
OnStack-push st stack stack' n ts more h k e = elim (Bool-cases (n == k)) [
  | inl same ↦ now ((==_iff n k).0 same)
  | inr other ↦ later (more k (h k (sym (set_mark-other st n active k other) ∙ e)))
]

pub OnStack-pop :
    (st : States) (i : ℕ) (rest : List ℕ) (stack : List Frame)
    → OnStack st ((i, rest) ∷ stack)
    → OnStack (set_mark st i done) stack
unfolding set_mark
OnStack-pop st i rest stack h k e = elim (Bool-cases (i == k)) [
  | inl same ↦ absurd (ground arith)
  | inr other ↦ elim (h k (sym (set_mark-other st i done k other) ∙ e)) [
    | now p ↦ absurd (let q = (==_iff i k).1 p in ground arith)
    | later x ↦ x
  ]
]

pub same_index :
    (i : ℕ) (rest rest' : List ℕ) (stack : List Frame) (k : ℕ)
    → Exists (λ f. f.0 ≡ k) ((i, rest) ∷ stack)
    → Exists (λ f. f.0 ≡ k) ((i, rest') ∷ stack)
same_index i rest rest' stack k (now p) = now p
same_index i rest rest' stack k (later x) = later x
