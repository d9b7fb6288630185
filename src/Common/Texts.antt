-- ===== src/Common/Texts.antt =====
-- Go strings as lists of bytes, with `==`, `<` and `strings.Compare` on them.
use Prim.Native.Nat.{ℕ}
use Prim.Native.Char.{code}
use Prim.Native.String.{String}
use mathlib.Core.Path.{◌≡◌, refl, sym, subst, ap, ◌∙◌}
use mathlib.Core.Logic.{◌↔◌, inl, inr}
use mathlib.Core.Bool.{Bool, true, false, ◌&&◌, ◌||◌}
use mathlib.Core.List.{List, [], ◌∷◌, ◌++◌}
use native.Mathlib.Decide.{ℕ_discrete}
use native.Mathlib.Omega.{arith}
use route_doc.Common.Tests.{ltb, eqb, Comparable, Bool-cases}
use route_doc.Common.Lists.{any, all, keep}

abbrev pub Text : Type 0
Text = List ℕ

-- A string literal of the source; all of them are ASCII.
abbrev pub codes : String → Text
codes = elim [ String.[] ↦ [] | String.◌∷◌ first (rest → bytes) ↦ code first ∷ bytes ]

unfoldable pub Text-discrete : Discrete Text
Text-discrete = hlevel ℕ_discrete

unfoldable pub text_eq : Text → Text → Bool
text_eq [] [] = true
text_eq (a ∷ s) (b ∷ t) = eqb a b && text_eq s t
text_eq _ _ = false

-- Go's `<` on strings: bytewise, a proper prefix first.
unfoldable pub text_lt : Text → Text → Bool
text_lt [] [] = false
text_lt [] (b ∷ t) = true
text_lt (a ∷ s) [] = false
text_lt (a ∷ s) (b ∷ t) = ltb a b || (eqb a b && text_lt s t)

pub text_eq_refl : (s : Text) → text_eq s s ≡ true
unfolding text_eq
text_eq_refl [] = refl
text_eq_refl (a ∷ s) = ground (arith, text_eq_refl s)

pub text_eq_sound : (s t : Text) → text_eq s t ≡ true → s ≡ t
unfolding text_eq
text_eq_sound [] [] h = refl
text_eq_sound [] (b ∷ t) h = cc
text_eq_sound (a ∷ s) [] h = cc
text_eq_sound (a ∷ s) (b ∷ t) h = ground (arith, text_eq_sound s t)

pub text_eq_iff : (s t : Text) → (text_eq s t ≡ true) ↔ (s ≡ t)
text_eq_iff s t = (text_eq_sound s t, λ e. rw e (text_eq_refl t))

-- `strings.HasPrefix(s, prefix)`, with the prefix first
unfoldable pub starts_with : Text → Text → Bool
starts_with [] s = true
starts_with (a ∷ p) [] = false
starts_with (a ∷ p) (b ∷ s) = eqb a b && starts_with p s

pub starts_with-append : (p s : Text) → starts_with p (p ++ s) ≡ true
unfolding starts_with
starts_with-append [] s = refl
starts_with-append (a ∷ p) s = ground (arith, starts_with-append p s)

instance abbrev pub eq_text : Comparable Text
eq_text = record { equals = text_eq; decides = text_eq_iff }

-- A set of strings, such as a Go `map[K]bool` used as `seen`, is the list of its members.
unfoldable pub contains : List Text → Text → Bool
contains ts k = any (λ t. text_eq t k) ts

-- A loop over strings that looks for one that passes finds it exactly when there is one.
pub any-contains :
    (p : Text → Bool) (ts : List Text)
    → (any p ts ≡ true) ↔ ((t : Text) × (contains ts t ≡ true) × (p t ≡ true))
unfolding any contains
any-contains p [] = (λ h. cc, λ h. cc (h.1))
any-contains p (x ∷ xs) = (
  λ h. elim (Bool-cases (p x)) [
    | inl e ↦ (x, rw (text_eq_refl x), e)
    | inr e ↦ let (t, k, q) = (any-contains p xs).0 (ground arith) in (t, ground arith, q)
  ],
  λ h. elim (Bool-cases (text_eq x h.0)) [
    | inl e ↦
        let here : p x ≡ true = subst (λ t. p t ≡ true) (sym (text_eq_sound x h.0 e)) h.2 in
        ground arith
    | inr e ↦
        let k : any p xs ≡ true = (any-contains p xs).1 (h.0, ground arith, h.2) in ground arith
  ],
)

-- A loop over strings that rejects the first failure accepts exactly when all pass.
pub all-contains :
    (p : Text → Bool) (ts : List Text)
    → (all p ts ≡ true) ↔ ((t : Text) → contains ts t ≡ true → p t ≡ true)
unfolding all any contains
all-contains p [] = (λ h t k. cc, λ h. refl)
all-contains p (x ∷ xs) = (
  λ h t k. elim (Bool-cases (text_eq x t)) [
    | inl e ↦ subst (λ y. p y ≡ true) (text_eq_sound x t e) (ground arith)
    | inr e ↦ (all-contains p xs).0 (ground arith) t (ground arith)
  ],
  λ h.
      let first : p x ≡ true = h x (rw (text_eq_refl x)) in
      let rest : all p xs ≡ true = (all-contains p xs).1 (λ t k. h t (ground arith)) in
      ground arith,
)

pub contains-append :
    (ts us : List Text) (k : Text) → contains (ts ++ us) k ≡ (contains ts k || contains us k)
unfolding contains any
contains-append [] us k = refl
contains-append (t ∷ ts) us k = ground (arith, contains-append ts us k)

pub contains-keep :
    (p : Text → Bool) (ts : List Text) (k : Text)
    → (contains (keep p ts) k ≡ true) ↔ ((contains ts k ≡ true) × (p k ≡ true))
unfolding contains any keep
contains-keep p [] k = (λ h. cc, λ h. cc (h.0))
contains-keep p (t ∷ ts) k =
    let rest = contains-keep p ts k in
    elim (Bool-cases (text_eq t k)) [
      | inl e ↦
          let alike : p t ≡ p k = ap p (text_eq_sound t k e) in
          elim (Bool-cases (p t)) [
            | inl q ↦ rw (q, keep) (λ h. (ground arith, sym alike ∙ q), λ h. ground arith)
            | inr q ↦ rw (q, keep) (λ h. (ground arith, (rest.0 h).1), λ h. absurd (ground arith))
          ]
      | inr e ↦ elim (Bool-cases (p t)) [
        | inl q ↦
            rw (q, keep)
              (
                λ h. let r = rest.0 (ground arith) in (ground arith, r.1),
                λ h. let r = rest.1 (ground arith, h.1) in ground arith,
              )
        | inr q ↦
            rw (q, keep)
              (λ h. let r = rest.0 h in (ground arith, r.1), λ h. rest.1 (ground arith, h.1))
      ]
    ]

pub contains-nil : (k : Text) → contains [] k ≡ false
unfolding contains any
contains-nil k = refl

pub contains_first : (t : Text) (ts : List Text) → contains (t ∷ ts) t ≡ true
unfolding contains any
contains_first t ts = ground (arith, text_eq_refl t)

pub contains_later :
    (t k : Text) (ts : List Text) → contains ts k ≡ true → contains (t ∷ ts) k ≡ true
unfolding contains any
contains_later t k ts h = ground arith

pub contains_rest :
    (t k : Text) (ts : List Text)
    → text_eq t k ≡ false
    → contains (t ∷ ts) k ≡ true
    → contains ts k ≡ true
unfolding contains any
contains_rest t k ts e h = ground arith

-- A loop that looks for a string that passes finds none exactly when all fail.
pub any-false :
    (p : Text → Bool) (ts : List Text)
    → (any p ts ≡ false) ↔ ((t : Text) → contains ts t ≡ true → p t ≡ false)
any-false p ts =
    let iff = any-contains p ts in
    (
      λ h t k. elim (Bool-cases (p t)) [ inl e ↦ cc (iff.1 (t, k, e), h) | inr e ↦ e ],
      λ h. elim (Bool-cases (any p ts)) [
        | inl e ↦ let (t, k, q) = iff.0 e in cc (h t k, q)
        | inr e ↦ e
      ],
    )
