-- ===== src/Common/Climb.antt =====
-- The walk up a parent chain that stops at the first node that passes a test. Three loops of the
-- program are this walk, `for { if seen[c] {...}; seen[c] = true; ...; c = *parent }`.
use Prim.Native.Nat.{ℕ, zero, suc, ◌≤◌, ◌<◌}
use mathlib.Core.Path.{◌≡◌, refl, subst, sym}
use mathlib.Core.Logic.{◌≢◌, ◌⊎◌, inl, inr, ◌↔◌}
use mathlib.Core.Bool.{Bool, true, false}
use mathlib.Core.List.{List, [], ◌∷◌}
use mathlib.Core.Option.{Option, none, some}
use native.Mathlib.Omega.{arith}
use route_doc.Common.Tests.{if◌then◌else◌, Bool-cases, Option-cases}
use route_doc.Common.Lists.{any, length}
use route_doc.Common.Texts.{Text, text_eq, text_eq_iff, text_eq_sound, contains}

-- `exhausted` says that the fuel ran out.
pub data Walk {ℓ} (A : Type ℓ) : Type ℓ where
  hit : A → Walk A
  top : Walk A
  cycle : Walk A
  exhausted : Walk A

-- Whether a walk that looks for one node found it.
abbrev pub is_hit : Walk (Unit {0}) → Bool
is_hit (hit _) = true
is_hit top = false
is_hit cycle = false
is_hit exhausted = false

pub is_hit_iff : (w : Walk (Unit {0})) → (is_hit w ≡ true) ↔ (w ≡ hit tt)
is_hit_iff (hit tt) = (λ h. refl, λ h. refl)
is_hit_iff top = (λ h. cc, λ h. cc)
is_hit_iff cycle = (λ h. cc, λ h. cc)
is_hit_iff exhausted = (λ h. cc, λ h. cc)

module _ {ℓ} {A : Type ℓ} (next : Text → Option Text) (stop : Text → Option A) where
  unfoldable pub climb : ℕ → List Text → Text → Walk A
  climb zero seen c = exhausted
  climb (suc f) seen c = elim (contains seen c) [
    | true ↦ cycle
    | false ↦ elim (stop c) [
      | some a ↦ hit a
      | none ↦ elim (next c) [ none ↦ top | some p ↦ climb f (c ∷ seen) p ]
    ]
  ]

  -- `a` is what the test gives at the nearest node of the chain from the index that passes it.
  pub data Nearest (a : A) : Text → Type ℓ where
    found : {c : Text} → stop c ≡ some a → Nearest a c
    up : {c p : Text} → stop c ≡ none → next c ≡ some p → Nearest a p → Nearest a c

  pub climb-Nearest :
      (f : ℕ) (seen : List Text) (c : Text) (a : A) → climb f seen c ≡ hit a → Nearest a c
  unfolding climb
  climb-Nearest zero seen c a h = cc
  climb-Nearest (suc f) seen c a h = elim (Bool-cases (contains seen c)) [
    | inl e ↦ absurd (ground arith)
    | inr e ↦ elim (Option-cases (stop c)) [
      | inr (b, s) ↦ found (ground arith)
      | inl s ↦ elim (Option-cases (next c)) [
        | inl n ↦ absurd (ground arith)
        | inr (p, n) ↦ up s n (climb-Nearest f (c ∷ seen) p a (ground arith))
      ]
    ]
  ]

-- The nodes of `ids` that are not yet in `seen`: each round of a walk over them lowers their number.
unseen : List Text → List Text → ℕ
unseen [] seen = 0
unseen (i ∷ ids) seen = if contains seen i then unseen ids seen else suc (unseen ids seen)

unseen-le-length : (ids seen : List Text) → unseen ids seen ≤ length ids
unfolding unseen
unseen-le-length [] seen = omega arith
unseen-le-length (i ∷ ids) seen = ground (arith, unseen-le-length ids seen)

unseen-cons-le : (ids seen : List Text) (c : Text) → unseen ids (c ∷ seen) ≤ unseen ids seen
unfolding unseen contains any
unseen-cons-le [] seen c = omega arith
unseen-cons-le (i ∷ ids) seen c = ground (arith, unseen-cons-le ids seen c)

unseen-cons-lt :
    (ids seen : List Text) (c : Text)
    → contains ids c ≡ true
    → contains seen c ≡ false
    → unseen ids (c ∷ seen) < unseen ids seen
unfolding unseen contains any
unseen-cons-lt [] seen c h k = cc
unseen-cons-lt (i ∷ ids) seen c h k = elim (Bool-cases (text_eq i c)) [
  | inl e ↦
      let same : i ≡ c = text_eq_sound i c e in
      let new : contains seen i ≡ false = subst (λ x. contains seen x ≡ false) (sym same) k in
      let here : text_eq c i ≡ true = (text_eq_iff c i).1 (sym same) in
      ground (arith, unseen-cons-le ids seen c)
  | inr e ↦ ground (arith, unseen-cons-lt ids seen c)
]

module _ {ℓ} {A : Type ℓ} (next : Text → Option Text) (stop : Text → Option A) where
  -- With more rounds than there are nodes with a parent, the walk ends by itself.
  climb_bounded :
      (ids : List Text)
      → ((c p : Text) → next c ≡ some p → contains ids c ≡ true)
      → (f : ℕ) (seen : List Text) (c : Text) → unseen ids seen < f
      → climb next stop f seen c ≢ exhausted
  unfolding climb
  climb_bounded ids known zero seen c h = absurd (omega arith)
  climb_bounded ids known (suc f) seen c h = elim (Bool-cases (contains seen c)) [
    | inl e ↦ ground arith
    | inr e ↦ elim (Option-cases (stop c)) [
      | inr (b, s) ↦ ground arith
      | inl s ↦ elim (Option-cases (next c)) [
        | inl n ↦ ground arith
        | inr (p, n) ↦
            let less = unseen-cons-lt ids seen c (known c p n) e in
            ground (arith, climb_bounded ids known f (c ∷ seen) p)
      ]
    ]
  ]

  pub climb_total :
      (ids : List Text)
      → ((c p : Text) → next c ≡ some p → contains ids c ≡ true)
      → (c : Text) → climb next stop (suc (length ids)) [] c ≢ exhausted
  climb_total ids known c =
      climb_bounded ids known (suc (length ids)) [] c (omega (arith, unseen-le-length ids []))

  -- What a walk has seen fails the test, and leads to what it has seen or to where it stands.
  record IsBehind (seen : List Text) (c : Text) : Type ℓ where
    failed : (s : Text) → contains seen s ≡ true → stop s ≡ none
    leads :
        (s p : Text) → contains seen s ≡ true → next s ≡ some p → (p ≡ c) ⊎ (contains seen p ≡ true)

  not-Nearest_in_cycle :
      {a : A} {seen : List Text} {c d : Text}
      → IsBehind seen c
      → contains seen c ≡ true
      → contains seen d ≡ true
      → Nearest next stop a d
      → ⊥
  not-Nearest_in_cycle {d = d} b hc hd (found s) = cc (b.failed d hd)
  not-Nearest_in_cycle {seen} {c} {d} b hc hd (up {p = p} s n r) = elim (b.leads d p hd n) [
    | inl e ↦ not-Nearest_in_cycle b hc (subst (λ x. contains seen x ≡ true) (sym e) hc) r
    | inr k ↦ not-Nearest_in_cycle b hc k r
  ]

  IsBehind-cons :
      {seen : List Text} {c p : Text}
      → IsBehind seen c
      → stop c ≡ none
      → next c ≡ some p
      → IsBehind (c ∷ seen) p
  unfolding contains any
  IsBehind-cons {seen} {c} {p} b s n = record {
    failed = λ x h. elim (Bool-cases (text_eq c x)) [
      | inl e ↦ subst (λ y. stop y ≡ none) (text_eq_sound c x e) s
      | inr e ↦ b.failed x (ground arith)
    ];
    leads = λ x q h k. elim (Bool-cases (text_eq c x)) [
      | inl e ↦
          let same = text_eq_sound c x e in
          let there : next x ≡ some p = subst (λ y. next y ≡ some p) same n in inl (ground arith)
      | inr e ↦ elim (b.leads x q (ground arith) k) [
        | inl y ↦ inr (ground (arith, text_eq_iff c q))
        | inr y ↦ inr (ground arith)
      ]
    ];
  }

  climb_complete :
      (f : ℕ) {seen : List Text} {c : Text} {a : A}
      → IsBehind seen c
      → Nearest next stop a c
      → climb next stop f seen c ≢ exhausted
      → climb next stop f seen c ≡ hit a
  unfolding climb
  climb_complete zero b r h = absurd (h refl)
  climb_complete (suc f) {seen} {c} b (found s) h = elim (Bool-cases (contains seen c)) [
    | inl e ↦ absurd (not-Nearest_in_cycle b e e (found s))
    | inr e ↦ ground arith
  ]
  climb_complete (suc f) {seen} {c} {a} b (up {p = p} s n r) h =
      elim (Bool-cases (contains seen c)) [
        | inl e ↦ absurd (not-Nearest_in_cycle b e e (up s n r))
        | inr e ↦
            ground
              (arith, climb_complete f {seen = c ∷ seen} {c = p} {a = a} (IsBehind-cons b s n) r)
      ]

  IsBehind-nil : (c : Text) → IsBehind [] c
  unfolding contains any
  IsBehind-nil c = record { failed = λ s h. cc; leads = λ s p h. cc }

  -- Over a finite set of nodes the walk from `c` hits exactly what the nearest passing node gives.
  pub climb_iff :
      (ids : List Text)
      → ((c p : Text) → next c ≡ some p → contains ids c ≡ true)
      → (c : Text) (a : A)
      → (climb next stop (suc (length ids)) [] c ≡ hit a) ↔ Nearest next stop a c
  climb_iff ids known c a = (
    climb-Nearest next stop (suc (length ids)) [] c a,
    λ r. climb_complete (suc (length ids)) (IsBehind-nil c) r (climb_total ids known c),
  )
