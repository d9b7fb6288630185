-- ===== src/Common/Sorting.antt =====
-- What insertion sort gives: a list with the same elements as often, in order.
use Prim.Native.Nat.{ℕ, ◌+◌, ◌≤◌, suc}
use mathlib.Core.Path.{◌≡◌, refl}
use mathlib.Core.Logic.{inl, inr}
use mathlib.Core.Bool.{Bool, true, false, not}
use mathlib.Core.List.{List, [], ◌∷◌, ◌++◌}
use native.Mathlib.Omega.{arith}
use route_doc.Common.Tests.{if◌then◌else◌, Bool-cases}
use route_doc.Common.Lists.{length, insert_sorted, sort, keep, Exists, now, later}
use route_doc.Common.Texts.{text_lt}

-- An order that never has two values both ways.
abbrev pub IsAsymmetric {ℓ} : {A : Type ℓ} → (A → A → Bool) → Type ℓ
IsAsymmetric {A = A} less = (x y : A) → less x y ≡ true → less y x ≡ false

module _ {ℓ} {A : Type ℓ} where
  abbrev pub count : (A → Bool) → List A → ℕ
  count p [] = 0
  count p (x ∷ xs) = let rest = count p xs in if p x then suc rest else rest

  -- No element is less than the one before it.
  abbrev pub Sorted : (A → A → Bool) → List A → Type 0
  Sorted less [] = Unit
  Sorted less (x ∷ []) = Unit
  Sorted less (x ∷ y ∷ ys) = (less y x ≡ false) × Sorted less (y ∷ ys)

  pub count-append : (p : A → Bool) (xs ys : List A) → count p (xs ++ ys) ≡ count p xs + count p ys
  count-append p [] ys = omega arith
  count-append p (x ∷ xs) ys = ground (arith, count-append p xs ys)

  -- The elements that pass and those that fail are all elements.
  pub count_both : (p : A → Bool) (xs : List A) → count p xs + count (λ x. not (p x)) xs ≡ length xs
  count_both p [] = refl
  count_both p (x ∷ xs) = ground (arith, count_both p xs)

  count-insert_sorted :
      (p : A → Bool) (less : A → A → Bool) (x : A) (xs : List A)
      → count p (insert_sorted less x xs) ≡ count p (x ∷ xs)
  unfolding insert_sorted
  count-insert_sorted p less x [] = refl
  count-insert_sorted p less x (y ∷ ys) = ground (arith, count-insert_sorted p less x ys)

  pub count-sort :
      (p : A → Bool) (less : A → A → Bool) (xs : List A) → count p (sort less xs) ≡ count p xs
  unfolding sort
  count-sort p less [] = refl
  count-sort p less (x ∷ xs) =
      let i = count-insert_sorted p less x (sort less xs) in ground (arith, count-sort p less xs)

  pub count-keep : (p test : A → Bool) (xs : List A) → count p (keep test xs) ≤ count p xs
  unfolding keep
  count-keep p test [] = omega arith
  count-keep p test (x ∷ xs) = ground (arith, count-keep p test xs)

  pub length-sort : (less : A → A → Bool) (xs : List A) → length (sort less xs) ≡ length xs
  length-sort less xs =
      let a = count_both (λ x. true) (sort less xs) in
      let b = count_both (λ x. true) xs in
      let c = count-sort (λ x. true) less xs in
      let d = count-sort (λ x. false) less xs in omega arith

  Sorted-later :
      (less : A → A → Bool) (x y : A) (ys : List A)
      → IsAsymmetric less
      → less y x ≡ true
      → Sorted less (y ∷ ys)
      → Sorted less (insert_sorted less x ys)
      → Sorted less (y ∷ insert_sorted less x ys)
  unfolding insert_sorted
  Sorted-later less x y [] a h s k = (a y x h, tt)
  Sorted-later less x y (z ∷ zs) a h s k = elim (Bool-cases (less z x)) [
    | inl e ↦ rw (e, insert_sorted) (s.0, rw e at k)
    | inr e ↦ rw (e, insert_sorted) (a y x h, rw e at k)
  ]

  Sorted-tail : (less : A → A → Bool) (y : A) (ys : List A) → Sorted less (y ∷ ys) → Sorted less ys
  Sorted-tail less y [] s = tt
  Sorted-tail less y (z ∷ zs) s = s.1

  Sorted-insert_sorted :
      (less : A → A → Bool) (x : A) (ys : List A)
      → IsAsymmetric less
      → Sorted less ys
      → Sorted less (insert_sorted less x ys)
  unfolding insert_sorted
  Sorted-insert_sorted less x [] a s = tt
  Sorted-insert_sorted less x (y ∷ ys) a s = elim (Bool-cases (less y x)) [
    | inl e ↦
        rw (e, insert_sorted)
          (Sorted-later less x y ys a e s
            (Sorted-insert_sorted less x ys a (Sorted-tail less y ys s)))
    | inr e ↦ rw (e, insert_sorted) (e, s)
  ]

  pub Sorted-sort :
      (less : A → A → Bool) (xs : List A) → IsAsymmetric less → Sorted less (sort less xs)
  unfolding sort
  Sorted-sort less [] a = tt
  Sorted-sort less (x ∷ xs) a = Sorted-insert_sorted less x (sort less xs) a (Sorted-sort less xs a)

module _ {ℓ κ} {A : Type ℓ} (P : A → Type κ) where
  Exists-insert_sorted :
      (less : A → A → Bool) (x : A) (ys : List A)
      → Exists P (x ∷ ys)
      → Exists P (insert_sorted less x ys)
  unfolding insert_sorted
  Exists-insert_sorted less x [] e = e
  Exists-insert_sorted less x (y ∷ ys) e = elim (Bool-cases (less y x)) [
    | inr k ↦ rw (k, insert_sorted) e
    | inl k ↦
        rw (k, insert_sorted)
          (elim e [
            | now p ↦ later (Exists-insert_sorted less x ys (now p))
            | later (now p) ↦ now p
            | later (later r) ↦ later (Exists-insert_sorted less x ys (later r))
          ])
  ]

  pub Exists-sort : (less : A → A → Bool) (xs : List A) → Exists P xs → Exists P (sort less xs)
  unfolding sort
  Exists-sort less [] e = e
  Exists-sort less (x ∷ xs) (now p) = Exists-insert_sorted less x (sort less xs) (now p)
  Exists-sort less (x ∷ xs) (later e) =
      Exists-insert_sorted less x (sort less xs) (later (Exists-sort less xs e))

pub text_lt-IsAsymmetric : IsAsymmetric text_lt
unfolding text_lt
text_lt-IsAsymmetric [] [] h = refl
text_lt-IsAsymmetric [] (b ∷ t) h = refl
text_lt-IsAsymmetric (a ∷ s) [] h = cc
text_lt-IsAsymmetric (a ∷ s) (b ∷ t) h = ground (arith, text_lt-IsAsymmetric s t)
