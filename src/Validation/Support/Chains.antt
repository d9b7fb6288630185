-- ===== src/Validation/Support/Chains.antt =====
-- When one search of `claimGraphHasCycle` of internal/model/validate_evaluated.go finds no cycle,
-- and how many rounds it takes.
use route_doc.Common.{
  ℕ, zero, suc, ◌+◌, ◌*◌, ◌<◌, ◌≤◌, ◌≡◌, ◌≢◌, refl, Bool, true, false, List, [], ◌∷◌, some, arith,
  All, Exists, now, later, eq_number, length,
}
use mathlib.Core.Path.{subst}
use route_doc.Validation.Graph.{
  active, done, is_fresh, set_mark, unvisited, unvisited-set_mark, unvisited-set_mark-lt, Ends,
  Leads, edge, Leads-trans, not-Leads_self,
}
use route_doc.Validation.Support.{States, Frame, Advance, advance, search_stack}
use route_doc.Validation.Support.Stacks.{
  In, Advances, at_cycle, at_child, at_end, advance-Advances, OnStack, OnStack-push, OnStack-pop,
  same_index,
}

module _ (next : ℕ → List ℕ) where
  -- Each claim on the stack leads to the one above it, and has its own targets to come.
  abbrev pub Chain : List Frame → Type 0
  Chain [] = Unit
  Chain ((i, rest) ∷ []) = (t : ℕ) → In t rest → In t (next i)
  Chain ((i, rest) ∷ (j, r) ∷ fs) =
      ((t : ℕ) → In t rest → In t (next i)) × (In i (next j) × Chain ((j, r) ∷ fs))

  Chain-targets :
      (i : ℕ) (rest : List ℕ) (fs : List Frame)
      → Chain ((i, rest) ∷ fs)
      → (t : ℕ) → In t rest
      → In t (next i)
  Chain-targets i rest [] h = h
  Chain-targets i rest ((j, r) ∷ fs) h = h.0

  Chain-rest :
      (i : ℕ) (rest rest' : List ℕ) (fs : List Frame)
      → ((t : ℕ) → In t rest' → In t rest)
      → Chain ((i, rest) ∷ fs)
      → Chain ((i, rest') ∷ fs)
  Chain-rest i rest rest' [] kept h = λ t x. h t (kept t x)
  Chain-rest i rest rest' ((j, r) ∷ fs) kept (h, hs) = (λ t x. h t (kept t x), hs)

  Chain-pop : (i : ℕ) (rest : List ℕ) (fs : List Frame) → Chain ((i, rest) ∷ fs) → Chain fs
  Chain-pop i rest [] h = tt
  Chain-pop i rest ((j, r) ∷ fs) h = h.1.1

  -- A claim below leads to the claim on top.
  Chain-Leads :
      (i : ℕ) (rest : List ℕ) (fs : List Frame) (k : ℕ)
      → Chain ((i, rest) ∷ fs)
      → Exists (λ f. f.0 ≡ k) fs
      → Leads next k i
  Chain-Leads i rest [] k h x = elim x [ ]
  Chain-Leads i rest ((j, r) ∷ fs) k h (now e) = edge (subst (λ y. In i (next y)) e h.1.0)
  Chain-Leads i rest ((j, r) ∷ fs) k h (later x) =
      Leads-trans (Chain-Leads j r fs k h.1.1 x) (edge h.1.0)

  -- A target of the claim on top that is on the stack leads back to itself.
  Chain-cycle :
      (i n : ℕ) (rest : List ℕ) (fs : List Frame)
      → Chain ((i, rest) ∷ fs)
      → In n rest
      → Exists (λ f. f.0 ≡ n) ((i, rest) ∷ fs)
      → Leads next n n
  Chain-cycle i n rest fs h x (now e) =
      edge (subst (λ y. In n (next y)) e (Chain-targets i rest fs h n x))
  Chain-cycle i n rest fs h x (later y) =
      Leads-trans (Chain-Leads i rest fs n h y) (edge (Chain-targets i rest fs h n x))

  abbrev Quiet : ℕ → Type 0
  Quiet fuel =
      (st : States) (stack : List Frame) (st' : States)
      → Chain stack
      → OnStack st stack
      → search_stack next fuel st stack ≢ some (true, st')

  Quiet-round :
      (all_end : (k : ℕ) → Ends next k) (fuel : ℕ)
      → Quiet fuel
      → (st : States) (i : ℕ) (rest : List ℕ) (fs : List Frame) (st' : States)
      → Chain ((i, rest) ∷ fs)
      → OnStack st ((i, rest) ∷ fs)
      → (a : Advance) → Advances st rest a
      → advance st rest ≡ a
      → search_stack next (suc fuel) st ((i, rest) ∷ fs) ≢ some (true, st')
  unfolding search_stack
  Quiet-round all_end fuel ih st i rest fs st' c o _ (at_cycle n x k) here e =
      not-Leads_self (all_end n) (Chain-cycle i n rest fs c x (o n k))
  Quiet-round all_end fuel ih st i rest fs st' c o _ (at_child n rest' x k passed kept) here e =
      let pushed = OnStack-push st _ ((i, rest') ∷ fs) n (next n) (same_index i rest rest' fs) o in
      ih (set_mark st n active) ((n, next n) ∷ (i, rest') ∷ fs) st'
        (λ t y. y, (Chain-targets i rest fs c n x, Chain-rest i rest rest' fs kept c)) pushed
        (rw (here, search_stack) at e)
  Quiet-round all_end fuel ih st i rest fs st' c o _ (at_end all_done) here e =
      ih (set_mark st i done) fs st' (Chain-pop i rest fs c) (OnStack-pop st i rest fs o)
        (rw (here, search_stack) at e)

  -- When every walk ends, a search finds no cycle.
  pub search_stack-Quiet : ((k : ℕ) → Ends next k) → (fuel : ℕ) → Quiet fuel
  unfolding search_stack
  search_stack-Quiet all_end zero st stack st' c o e = cc
  search_stack-Quiet all_end (suc fuel) st [] st' c o e = absurd (ground arith)
  search_stack-Quiet all_end (suc fuel) st ((i, rest) ∷ fs) st' c o e =
      Quiet-round all_end fuel (search_stack-Quiet all_end fuel) st i rest fs st' c o
        (advance st rest) (advance-Advances st rest) refl e

  -- The targets that the frames have to come are among the nodes.
  abbrev Within : List ℕ → List Frame → Type 0
  Within nodes = All (λ f. (t : ℕ) → In t f.1 → In t nodes)

  -- A result, after which no more nodes are fresh than before.
  abbrev pub Returning : List ℕ → ℕ → Type 0
  Returning nodes fuel =
      (st : States) (stack : List Frame)
      → Within nodes stack
      → 2 * unvisited nodes st + length stack < fuel
      → (ok : Bool) × (st' : States) × (search_stack next fuel st stack ≡ some (ok, st'))
        × (unvisited nodes st' ≤ unvisited nodes st)

  Returning-round :
      (nodes : List ℕ) (known : (i t : ℕ) → In t (next i) → In t nodes) (fuel : ℕ)
      → Returning nodes fuel
      → (st : States) (i : ℕ) (rest : List ℕ) (fs : List Frame) → Within nodes ((i, rest) ∷ fs)
      → 2 * unvisited nodes st + suc (length fs) < suc fuel
      → (a : Advance) → Advances st rest a
      → advance st rest ≡ a
      → (ok : Bool) × (st' : States) × (search_stack next (suc fuel) st ((i, rest) ∷ fs)
          ≡ some (ok, st'))
        × (unvisited nodes st' ≤ unvisited nodes st)
  unfolding search_stack is_fresh
  Returning-round nodes known fuel ih st i rest fs w h _ (at_cycle n x k) here =
      (true, st, rw (here, search_stack) refl, omega arith)
  Returning-round nodes known fuel ih st i rest fs (w, ws) h _ (at_child n rest' x k passed kept)
        here =
      let f : is_fresh (st n) ≡ true = rw (k, is_fresh) refl in
      let less = unvisited-set_mark-lt nodes st n active refl (w n x) f in
      let (ok, st', e, le) =
        ih (set_mark st n active) ((n, next n) ∷ (i, rest') ∷ fs)
          (known n, (λ t y. w t (kept t y), ws)) (omega arith) in
      (ok, st', rw (here, search_stack) e, omega arith)
  Returning-round nodes known fuel ih st i rest fs (w, ws) h _ (at_end all_done) here =
      let less = unvisited-set_mark nodes st i done refl in
      let (ok, st', e, le) = ih (set_mark st i done) fs ws (omega arith) in
      (ok, st', rw (here, search_stack) e, omega arith)

  -- With more than two rounds for each fresh node and one for each frame, a search returns.
  pub search_stack-returns :
      (nodes : List ℕ)
      → ((i t : ℕ) → In t (next i) → In t nodes)
      → (fuel : ℕ) → Returning nodes fuel
  unfolding search_stack
  search_stack-returns nodes known zero st stack w h = absurd (omega arith)
  search_stack-returns nodes known (suc fuel) st [] w h = (false, st, refl, omega arith)
  search_stack-returns nodes known (suc fuel) st ((i, rest) ∷ fs) w h =
      Returning-round nodes known fuel (search_stack-returns nodes known fuel) st i rest fs w h
        (advance st rest) (advance-Advances st rest) refl
