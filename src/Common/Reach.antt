-- ===== src/Common/Reach.antt =====
-- Reachability in a parent chain, and the walk that looks for one node.
use mathlib.Core.Path.{◌≡◌, sym, subst}
use mathlib.Core.Logic.{inl, inr, ◌↔◌}
use mathlib.Core.Bool.{true}
use mathlib.Core.List.{List, []}
use mathlib.Core.Option.{Option, none, some}
use Prim.Native.Nat.{suc}
use native.Mathlib.Omega.{arith}
use route_doc.Common.Tests.{if◌then◌else◌, ◌==◌, Bool-cases}
use route_doc.Common.Lists.{length}
use route_doc.Common.Texts.{Text, text_eq, text_eq_sound, text_eq_refl, contains, eq_text}
use route_doc.Common.Climb.{climb, hit, Nearest, found, up, climb_iff}

-- `d` is the index or one of its ancestors.
pub data Reaches (next : Text → Option Text) (d : Text) : Text → Type 0 where
  here : Reaches next d d
  step : {c p : Text} → next c ≡ some p → Reaches next d p → Reaches next d c

-- The test `c == d` of such a walk.
abbrev pub is_at : Text → Text → Option (Unit {0})
is_at d c = if c == d then some tt else none

Nearest→Reaches :
    (next : Text → Option Text) (d : Text) {c : Text}
    → Nearest next (is_at d) tt c
    → Reaches next d c
Nearest→Reaches next d (found {c = c} s) = elim (Bool-cases (text_eq c d)) [
  | inl e ↦ subst (Reaches next d) (sym (text_eq_sound c d e)) here
  | inr e ↦ absurd (ground arith)
]
Nearest→Reaches next d (up s n r) = step n (Nearest→Reaches next d r)

Reaches→Nearest :
    (next : Text → Option Text) (d : Text) {c : Text}
    → Reaches next d c
    → Nearest next (is_at d) tt c
Reaches→Nearest next d here = found (rw (text_eq_refl d))
Reaches→Nearest next d (step {c = c} n r) = elim (Bool-cases (text_eq c d)) [
  | inl e ↦ found (rw e)
  | inr e ↦ up (rw e) n (Reaches→Nearest next d r)
]

-- The walk that looks for `d` finds it exactly when `d` can be reached.
pub climb-Reaches :
    (next : Text → Option Text) (ids : List Text)
    → ((c p : Text) → next c ≡ some p → contains ids c ≡ true)
    → (d c : Text) → (climb next (is_at d) (suc (length ids)) [] c ≡ hit tt) ↔ Reaches next d c
climb-Reaches next ids known d c =
    let iff = climb_iff next (is_at d) ids known c tt in
    (λ h. Nearest→Reaches next d (iff.0 h), λ r. iff.1 (Reaches→Nearest next d r))
