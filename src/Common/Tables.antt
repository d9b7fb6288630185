-- ===== src/Common/Tables.antt =====
-- Go maps keyed by strings, as association lists in the order of first insertion.
use mathlib.Core.Path.{◌≡◌, refl, subst}
use mathlib.Core.Logic.{inl, inr}
use mathlib.Core.Bool.{true}
use mathlib.Core.List.{List, [], ◌∷◌}
use mathlib.Core.Option.{Option, none, some}
use native.Mathlib.Omega.{arith}
use route_doc.Common.Tests.{if◌then◌else◌, Bool-cases}
use route_doc.Common.Lists.{All, any}
use route_doc.Common.Texts.{Text, text_eq, text_eq_iff, text_eq_sound, contains}

abbrev pub Table {ℓ} : Type ℓ → Type ℓ
Table V = List (Text × V)

module _ {ℓ} {V : Type ℓ} where
  -- `v, ok := m[k]`
  unfoldable pub lookup : Text → Table V → Option V
  lookup k [] = none
  lookup k ((j, v) ∷ m) = if text_eq j k then some v else lookup k m

  -- `m[k] = v`
  unfoldable pub insert : Text → V → Table V → Table V
  insert k v [] = (k, v) ∷ []
  insert k v ((j, w) ∷ m) = if text_eq j k then (j, v) ∷ m else (j, w) ∷ insert k v m

  -- `for _, x := range xs { m[key(x)] = x }`
  unfoldable pub index_into : (V → Text) → List V → Table V → Table V
  index_into key [] m = m
  index_into key (x ∷ xs) m = index_into key xs (insert (key x) x m)

  unfoldable pub keys : Table V → List Text
  keys [] = []
  keys ((k, v) ∷ m) = k ∷ keys m

  pub lookup-insert :
      (at key : Text) (x : V) (m : Table V)
      → lookup key (insert at x m) ≡ (if text_eq at key then some x else lookup key m)
  unfolding lookup insert
  lookup-insert at key x [] = refl
  lookup-insert at key x ((old, y) ∷ m) =
      let below = lookup-insert at key x m in
      let old_at = text_eq_iff old at in
      let old_key = text_eq_iff old key in let at_key = text_eq_iff at key in ground arith

  -- A key that is found is one of the keys.
  pub contains-keys :
      (k : Text) (m : Table V) (v : V) → lookup k m ≡ some v → contains (keys m) k ≡ true
  unfolding lookup keys contains any
  contains-keys k [] v h = cc
  contains-keys k ((j, w) ∷ m) v h = ground (arith, contains-keys k m v)

module _ {ℓ κ} {V : Type ℓ} (P : Text → V → Type κ) where
  -- Every entry of a table satisfies `P`.
  abbrev pub AllEntries : Table V → Type κ
  AllEntries [] = Unit
  AllEntries ((k, v) ∷ m) = P k v × AllEntries m

  pub AllEntries-insert :
      (k : Text) (v : V) (m : Table V) → P k v → AllEntries m → AllEntries (insert k v m)
  unfolding insert
  AllEntries-insert k v [] p h = (p, tt)
  AllEntries-insert k v ((j, w) ∷ m) p (q, h) = elim (Bool-cases (text_eq j k)) [
    | inl e ↦ rw e (rw (text_eq_sound j k e) (p, h))
    | inr e ↦ rw e (q, AllEntries-insert k v m p h)
  ]

  pub AllEntries-lookup :
      (k : Text) (m : Table V) (v : V) → AllEntries m → lookup k m ≡ some v → P k v
  unfolding lookup
  AllEntries-lookup k [] v h e = cc
  AllEntries-lookup k ((j, w) ∷ m) v (q, h) e = elim (Bool-cases (text_eq j k)) [
    | inl t ↦
        let same : w ≡ v = ground arith in
        subst (λ x. P k x) same (subst (λ x. P x w) (text_eq_sound j k t) q)
    | inr t ↦ AllEntries-lookup k m v h (rw t at e)
  ]

  pub AllEntries-index_into :
      (key : V → Text) (xs : List V) (m : Table V)
      → All (λ x. P (key x) x) xs
      → AllEntries m
      → AllEntries (index_into key xs m)
  unfolding index_into
  AllEntries-index_into key [] m h hm = hm
  AllEntries-index_into key (x ∷ xs) m (p, h) hm =
      AllEntries-index_into key xs (insert (key x) x m) h (AllEntries-insert (key x) x m p hm)
