-- ===== src/Validation/Graph.antt =====
-- The states 0, 1 and 2 that the two searches for a cycle give nodes, and the graphs without one.
use route_doc.Common.{
  ℕ, suc, ◌≤◌, ◌≡◌, refl, sym, ◌∙◌, Bool, true, false, List, [], ◌∷◌, inl, inr, arith, All, Exists,
  now, later, Comparable, ◌==◌, ==_iff, Bool-cases, count, length, if◌then◌else◌,
}
use mathlib.Core.Path.{subst}

-- `state[n]`: 0, 1 while the node is being visited, and 2 afterwards.
pub data Mark : Type 0 where
  fresh active done : Mark

unfoldable pub is_fresh : Mark → Bool
is_fresh fresh = true
is_fresh active = false
is_fresh done = false

module _ {A : Type 0} ⦃c : Comparable A⦄ where
  -- `state[n] = m`
  unfoldable pub set_mark : (A → Mark) → A → Mark → A → Mark
  set_mark st n m k = if n == k then m else st k

  pub set_mark-same : (st : A → Mark) (n : A) (m : Mark) → set_mark st n m n ≡ m
  unfolding set_mark
  set_mark-same st n m = let r = (==_iff n n).1 refl in ground arith

  pub set_mark-other :
      (st : A → Mark) (n : A) (m : Mark) (k : A) → (n == k) ≡ false → set_mark st n m k ≡ st k
  unfolding set_mark
  set_mark-other st n m k h = ground arith

  -- How many of the nodes have not been visited.
  unfoldable pub unvisited : List A → (A → Mark) → ℕ
  unvisited ns st = count (λ n. is_fresh (st n)) ns

  pub unvisited-le-length : (ns : List A) (st : A → Mark) → unvisited ns st ≤ length ns
  unfolding unvisited
  unvisited-le-length [] st = omega arith
  unvisited-le-length (n ∷ ns) st = ground (arith, unvisited-le-length ns st)

  -- Marking a node as visited makes no node fresh,
  pub unvisited-set_mark :
      (ns : List A) (st : A → Mark) (n : A) (m : Mark)
      → is_fresh m ≡ false
      → unvisited ns (set_mark st n m) ≤ unvisited ns st
  unfolding unvisited set_mark
  unvisited-set_mark [] st n m h = omega arith
  unvisited-set_mark (k ∷ ns) st n m h = ground (arith, unvisited-set_mark ns st n m h)

  -- and one fewer is fresh when it was.
  pub unvisited-set_mark-lt :
      (ns : List A) (st : A → Mark) (n : A) (m : Mark)
      → is_fresh m ≡ false
      → Exists (λ k. k ≡ n) ns
      → is_fresh (st n) ≡ true
      → suc (unvisited ns (set_mark st n m)) ≤ unvisited ns st
  unfolding unvisited set_mark
  unvisited-set_mark-lt [] st n m h x f = elim x [ ]
  unvisited-set_mark-lt (k ∷ ns) st n m h (now e) f =
      let rest = unvisited-set_mark ns st n m h in
      let same = (==_iff n k).1 (sym e) in
      let was : is_fresh (st k) ≡ true = subst (λ x. is_fresh (st x) ≡ true) (sym e) f in
      ground (arith, is_fresh)
  unvisited-set_mark-lt (k ∷ ns) st n m h (later x) f =
      let rest = unvisited-set_mark-lt ns st n m h x f in ground (arith, is_fresh)

module _ {A : Type 0} (next : A → List A) where
  -- Every walk along the edges from the node ends: it reaches no cycle.
  pub data Ends : A → Type 0 where
    ends : {c : A} → ((d : A) → Exists (λ t. t ≡ d) (next c) → Ends d) → Ends c

  -- The second node is reached from the first by one edge or more.
  pub data Leads : A → A → Type 0 where
    edge : {c d : A} → Exists (λ t. t ≡ d) (next c) → Leads c d
    through : {c d e : A} → Exists (λ t. t ≡ d) (next c) → Leads d e → Leads c e

module _ {A : Type 0} {next : A → List A} where
  pub Leads-trans : {c d e : A} → Leads next c d → Leads next d e → Leads next c e
  Leads-trans (edge x) r = through x r
  Leads-trans (through x l) r = through x (Leads-trans l r)

  -- Such a node does not lead back to itself.
  pub not-Leads_self : {c : A} → Ends next c → ¬ Leads next c c
  not-Leads_self (ends h) (edge x) = not-Leads_self (h _ x) (edge x)
  not-Leads_self (ends h) (through {d = d} x l) = not-Leads_self (h d x) (Leads-trans l (edge x))

  pub Ends-next : {c d : A} → Ends next c → Exists (λ t. t ≡ d) (next c) → Ends next d
  Ends-next (ends h) x = h _ x

module _ {A : Type 0} (P : A → Type 0) where
  pub All_at : {x : A} (xs : List A) → All P xs → Exists (λ t. t ≡ x) xs → P x
  All_at [] h r = elim r [ ]
  All_at (y ∷ xs) (p, h) (now e) = subst P e p
  All_at (y ∷ xs) (p, h) (later r) = All_at xs h r

  pub All-of : (xs : List A) → ((x : A) → Exists (λ t. t ≡ x) xs → P x) → All P xs
  All-of [] h = tt
  All-of (x ∷ xs) h = (h x (now refl), All-of xs (λ y r. h y (later r)))

module _ {A : Type 0} ⦃c : Comparable A⦄ (next : A → List A) where
  -- Only nodes from which every walk ends are marked as done.
  abbrev pub DoneEnds : (A → Mark) → Type 0
  DoneEnds st = (k : A) → st k ≡ done → Ends next k

  pub DoneEnds-active : (st : A → Mark) (id : A) → DoneEnds st → DoneEnds (set_mark st id active)
  DoneEnds-active st id h k e = elim (Bool-cases (id == k)) [
    | inl same ↦
        let at_id : set_mark st id active k ≡ active =
          subst (λ x. set_mark st id active x ≡ active) ((==_iff id k).0 same)
            (set_mark-same st id active) in
        absurd (ground arith)
    | inr other ↦ h k (sym (set_mark-other st id active k other) ∙ e)
  ]

  pub DoneEnds-done :
      (st : A → Mark) (id : A) → Ends next id → DoneEnds st → DoneEnds (set_mark st id done)
  DoneEnds-done st id n h k e = elim (Bool-cases (id == k)) [
    | inl same ↦ subst (Ends next) ((==_iff id k).0 same) n
    | inr other ↦ h k (sym (set_mark-other st id done k other) ∙ e)
  ]
