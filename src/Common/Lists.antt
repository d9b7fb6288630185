-- ===== src/Common/Lists.antt =====
-- Lists measured and indexed by native numbers, predicates on all elements, filtering by a Boolean
-- test and insertion sort, which stands for Go's `sort.Slice` and `sort.SliceStable`.
use Prim.Native.Nat.{ℕ, zero, suc, ◌+◌}
use mathlib.Core.Path.{◌≡◌, refl, subst}
use mathlib.Core.Logic.{◌⊎◌, inl, inr, ◌≢◌, ◌↔◌}
use mathlib.Core.Bool.{Bool, true, false, ◌||◌, ◌&&◌}
use mathlib.Core.List.{List, [], ◌∷◌, ◌++◌}
use mathlib.Core.Option.{Option, none, some}
use native.Mathlib.Omega.{arith}
use route_doc.Common.Tests.{if◌then◌else◌, Bool-cases}

module _ {ℓ} {A : Type ℓ} where
  abbrev pub length : List A → ℕ
  length [] = 0
  length (x ∷ xs) = suc (length xs)

  abbrev pub get_elem? : List A → ℕ → Option A
  get_elem? [] i = none
  get_elem? (x ∷ xs) zero = some x
  get_elem? (x ∷ xs) (suc i) = get_elem? xs i

  abbrev pub drop : ℕ → List A → List A
  drop zero xs = xs
  drop (suc n) [] = []
  drop (suc n) (x ∷ xs) = drop n xs

  abbrev pub replicate : ℕ → A → List A
  replicate zero a = []
  replicate (suc n) a = a ∷ replicate n a

  pub length-append : (xs ys : List A) → length (xs ++ ys) ≡ length xs + length ys
  length-append [] ys = omega arith
  length-append (x ∷ xs) ys = omega (arith, length-append xs ys)

  pub length-replicate : (n : ℕ) (a : A) → length (replicate n a) ≡ n
  length-replicate zero a = refl
  length-replicate (suc n) a = omega (arith, length-replicate n a)

  pub drop-append : (xs ys : List A) → drop (length xs) (xs ++ ys) ≡ ys
  drop-append [] ys = refl
  drop-append (x ∷ xs) ys = drop-append xs ys

  -- `for _, x := range xs { if test(x) { return true } }; return false`
  unfoldable pub any : (A → Bool) → List A → Bool
  any p [] = false
  any p (x ∷ xs) = p x || any p xs

  unfoldable pub all : (A → Bool) → List A → Bool
  all p [] = true
  all p (x ∷ xs) = p x && all p xs

  unfoldable pub keep : (A → Bool) → List A → List A
  keep p [] = []
  keep p (x ∷ xs) = let rest = keep p xs in if p x then x ∷ rest else rest

  unfoldable pub insert_sorted : (A → A → Bool) → A → List A → List A
  insert_sorted less x [] = x ∷ []
  insert_sorted less x (y ∷ ys) =
      let later = y ∷ insert_sorted less x ys in if less y x then later else x ∷ y ∷ ys

  unfoldable pub sort : (A → A → Bool) → List A → List A
  unfolding insert_sorted
  sort less [] = []
  sort less (x ∷ xs) = insert_sorted less x (sort less xs)

module _ {ℓ} {A : Type ℓ} where
  pub insert_sorted-ne-nil :
      (less : A → A → Bool) (x : A) (xs : List A) → insert_sorted less x xs ≢ []
  unfolding insert_sorted
  insert_sorted-ne-nil less x [] h = cc
  insert_sorted-ne-nil less x (y ∷ ys) h = ground arith

module _ {ℓ κ} {A : Type ℓ} (P : A → Type κ) where
  abbrev pub All : List A → Type κ
  All [] = Unit
  All (x ∷ xs) = P x × All xs

module _ {ℓ κ} {A : Type ℓ} (P : A → Type κ) where
  pub All-append : (xs ys : List A) → All P xs → All P ys → All P (xs ++ ys)
  All-append [] ys h k = k
  All-append (x ∷ xs) ys (p, h) k = (p, All-append xs ys h k)

  pub All-keep : (test : A → Bool) (xs : List A) → All P xs → All P (keep test xs)
  unfolding keep
  All-keep test [] h = tt
  All-keep test (x ∷ xs) (p, h) = elim (Bool-cases (test x)) [
    | inl e ↦ rw e (p, All-keep test xs h)
    | inr e ↦ rw e (All-keep test xs h)
  ]

  pub All-insert_sorted :
      (less : A → A → Bool) (x : A) (xs : List A) → P x → All P xs → All P (insert_sorted less x xs)
  unfolding insert_sorted
  All-insert_sorted less x [] p h = (p, tt)
  All-insert_sorted less x (y ∷ ys) p (q, h) = elim (Bool-cases (less y x)) [
    | inl e ↦ rw e (q, All-insert_sorted less x ys p h)
    | inr e ↦ rw e (p, (q, h))
  ]

  pub All-sort : (less : A → A → Bool) (xs : List A) → All P xs → All P (sort less xs)
  unfolding sort
  All-sort less [] h = tt
  All-sort less (x ∷ xs) (p, h) = All-insert_sorted less x (sort less xs) p (All-sort less xs h)

module _ {ℓ κ} {A : Type ℓ} where
  pub All-map : (P Q : A → Type κ) (xs : List A) → ((x : A) → P x → Q x) → All P xs → All Q xs
  All-map P Q [] h k = tt
  All-map P Q (x ∷ xs) h (p, k) = (h x p, All-map P Q xs h k)

  pub All-map_both :
      (P Q R : A → Type κ) (xs : List A)
      → ((x : A) → P x → Q x → R x)
      → All P xs
      → All Q xs
      → All R xs
  All-map_both P Q R [] h k l = tt
  All-map_both P Q R (x ∷ xs) h (p, k) (q, l) = (h x p q, All-map_both P Q R xs h k l)

module _ {ℓ} {A : Type ℓ} where
  pub any-none : (p : A → Bool) (xs : List A) → any p xs ≡ false → All (λ x. p x ≡ false) xs
  unfolding any
  any-none p [] h = tt
  any-none p (x ∷ xs) h = (ground arith, any-none p xs (ground arith))

  pub any_fails : (p : A → Bool) (xs : List A) → All (λ x. p x ≡ false) xs → any p xs ≡ false
  unfolding any
  any_fails p [] h = refl
  any_fails p (x ∷ xs) (h, hs) = ground (arith, any_fails p xs hs)

module _ {ℓ} {A : Type ℓ} where
  pub keep-passes : (p : A → Bool) (xs : List A) → All (λ x. p x ≡ true) (keep p xs)
  unfolding keep
  keep-passes p [] = tt
  keep-passes p (x ∷ xs) = elim (Bool-cases (p x)) [
    | inl e ↦ rw (e, All) (e, keep-passes p xs)
    | inr e ↦ rw (e, All) (keep-passes p xs)
  ]

-- Some element of the list satisfies `P`.
pub data Exists {ℓ κ} {A : Type ℓ} (P : A → Type κ) : List A → Type (ℓ ⊔ κ) where
  now : {x : A} {xs : List A} → P x → Exists P (x ∷ xs)
  later : {x : A} {xs : List A} → Exists P xs → Exists P (x ∷ xs)

module _ {ℓ κ} {A : Type ℓ} where
  -- A test by `any` finds an element exactly when one has what the test decides.
  pub any_iff :
      (p : A → Bool) (P : A → Type κ)
      → ((x : A) → (p x ≡ true) ↔ P x)
      → (xs : List A) → (any p xs ≡ true) ↔ Exists P xs
  unfolding any
  any_iff p P one [] = (λ h. cc, λ x. elim x [ ])
  any_iff p P one (x ∷ xs) =
      let here = one x in
      let rest = any_iff p P one xs in
      (
        λ h. elim (Bool-cases (p x)) [
          | inl e ↦ now (here.0 e)
          | inr e ↦ later (rest.0 (ground arith))
        ],
        λ m. elim m [
          | now e ↦ let t = here.1 e in ground arith
          | later k ↦ let t = rest.1 k in ground arith
        ],
      )

  pub Exists-append :
      (P : A → Type κ) (xs ys : List A) → Exists P (xs ++ ys) ↔ (Exists P xs ⊎ Exists P ys)
  Exists-append P [] ys = (λ e. inr e, λ s. elim s [ inl e ↦ elim e [ ] | inr e ↦ e ])
  Exists-append P (x ∷ xs) ys =
      let rest = Exists-append P xs ys in
      (
        λ e. elim e [
          | now p ↦ inl (now p)
          | later k ↦ elim (rest.0 k) [ inl a ↦ inl (later a) | inr b ↦ inr b ]
        ],
        λ s. elim s [
          | inl (now p) ↦ now p
          | inl (later k) ↦ later (rest.1 (inl k))
          | inr b ↦ later (rest.1 (inr b))
        ],
      )

  -- An element with the property, which is in the list.
  pub Exists-witness :
      {P : A → Type κ} {xs : List A} → Exists P xs → (a : A) × Exists (λ b. a ≡ b) xs × P a
  Exists-witness (now {x} p) = (x, now refl, p)
  Exists-witness (later k) = let (a, m, p) = Exists-witness k in (a, later m, p)

  -- What holds of every member holds of all.
  pub All-members :
      (P : A → Type κ) (xs : List A) → ((a : A) → Exists (λ b. a ≡ b) xs → P a) → All P xs
  All-members P [] h = tt
  All-members P (x ∷ xs) h = (h x (now refl), All-members P xs (λ a m. h a (later m)))

  pub witness_Exists :
      (P : A → Type κ) (xs : List A) (a : A) → Exists (λ b. a ≡ b) xs → P a → Exists P xs
  witness_Exists P [] a m p = elim m [ ]
  witness_Exists P (x ∷ xs) a (now e) p = now (subst P e p)
  witness_Exists P (x ∷ xs) a (later k) p = later (witness_Exists P xs a k p)
