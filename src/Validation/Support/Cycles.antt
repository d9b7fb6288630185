-- ===== src/Validation/Support/Cycles.antt =====
-- What one search of `claimGraphHasCycle` of internal/model/validate_evaluated.go shows when
-- it finds no cycle.
use route_doc.Common.{
  ℕ, zero, suc, ◌≡◌, ◌⊎◌, refl, false, List, [], ◌∷◌, inl, inr, some, arith, All, now, later,
  eq_number,
}
use mathlib.Core.Path.{subst}
use route_doc.Validation.Graph.{
  active, done, set_mark, Ends, ends, DoneEnds, DoneEnds-active, DoneEnds-done,
}
use route_doc.Validation.Support.{States, Frame, Advance, advance, search_stack}
use route_doc.Validation.Support.Stacks.{
  In, Advances, at_cycle, at_child, at_end, advance-Advances, OnStack, OnStack-push, OnStack-pop,
  same_index,
}

module _ (next : ℕ → List ℕ) where
  -- Every target of the frame's claim is still to come, or done, or the claim of the frame above.
  abbrev Pending : List ℕ → ℕ → List ℕ → Type 0
  Pending above i rest = (t : ℕ) → In t (next i) → In t rest ⊎ (Ends next t ⊎ In t above)

  abbrev pub Frames : List ℕ → List Frame → Type 0
  Frames above [] = Unit
  Frames above ((i, rest) ∷ fs) = Pending above i rest × Frames (i ∷ []) fs

  abbrev AllEnd : List Frame → Type 0
  AllEnd = All (λ f. Ends next f.0)

  Frames-pop : (i : ℕ) (fs : List Frame) → Ends next i → Frames (i ∷ []) fs → Frames [] fs
  Frames-pop i [] n h = tt
  Frames-pop i ((j, r) ∷ fs) n (h, hs) = (
    λ t x. elim (h t x) [
      | inl y ↦ inl y
      | inr (inl y) ↦ inr (inl y)
      | inr (inr (now e)) ↦ inr (inl (subst (Ends next) e n))
      | inr (inr (later y)) ↦ elim y [ ]
    ],
    hs,
  )

  abbrev Shows : List Frame → States → Type 0
  Shows stack st' = AllEnd stack × DoneEnds next st' × OnStack st' []

  Ends-when_finished :
      (i : ℕ) (rest : List ℕ) (st : States)
      → DoneEnds next st
      → Pending [] i rest
      → ((t : ℕ) → In t rest → st t ≡ done)
      → Ends next i
  Ends-when_finished i rest st d p all_done = ends (λ t x. elim (p t x) [
    | inl y ↦ d t (all_done t y)
    | inr (inl n) ↦ n
    | inr (inr y) ↦ elim y [ ]
  ])

  Pending-child :
      (i n : ℕ) (rest rest' : List ℕ) (st : States)
      → DoneEnds next st
      → Pending [] i rest
      → ((t : ℕ) → In t rest → In t rest' ⊎ ((st t ≡ done) ⊎ (n ≡ t)))
      → Pending (n ∷ []) i rest'
  Pending-child i n rest rest' st d p passed t x = elim (p t x) [
    | inr (inl e) ↦ inr (inl e)
    | inr (inr y) ↦ elim y [ ]
    | inl y ↦ elim (passed t y) [
      | inl z ↦ inl z
      | inr (inl e) ↦ inr (inl (d t e))
      | inr (inr e) ↦ inr (inr (now e))
    ]
  ]

  -- What a search of so many rounds shows that finds no cycle: every walk ends, from each claim on
  -- the stack and from each claim that is done.
  abbrev Showing : ℕ → Type 0
  Showing fuel =
      (st : States) (stack : List Frame) (st' : States)
      → DoneEnds next st
      → Frames [] stack
      → OnStack st stack
      → search_stack next fuel st stack ≡ some (false, st')
      → Shows stack st'

  Showing-round :
      (fuel : ℕ)
      → Showing fuel
      → (st : States) (i : ℕ) (rest : List ℕ) (fs : List Frame) (st' : States) → DoneEnds next st
      → Frames [] ((i, rest) ∷ fs)
      → OnStack st ((i, rest) ∷ fs)
      → (a : Advance) → Advances st rest a
      → advance st rest ≡ a
      → search_stack next (suc fuel) st ((i, rest) ∷ fs) ≡ some (false, st')
      → Shows ((i, rest) ∷ fs) st'
  unfolding search_stack
  Showing-round fuel ih st i rest fs st' d f o _ (at_cycle n x k) here e =
      absurd (ground (arith, rw (here, search_stack) at e))
  Showing-round fuel ih st i rest fs st' d (p, f) o _ (at_child n rest' x k passed kept) here e =
      let pushed = OnStack-push st _ ((i, rest') ∷ fs) n (next n) (same_index i rest rest' fs) o in
      let frames : Frames [] ((n, next n) ∷ (i, rest') ∷ fs) =
        (λ t y. inl y, (Pending-child i n rest rest' st d p passed, f)) in
      let ((child, others), d1, o1) =
        ih (set_mark st n active) ((n, next n) ∷ (i, rest') ∷ fs) st' (DoneEnds-active next st n d)
          frames pushed (rw (here, search_stack) at e) in
      (others, d1, o1)
  Showing-round fuel ih st i rest fs st' d (p, f) o _ (at_end all_done) here e =
      let n = Ends-when_finished i rest st d p all_done in
      let (others, d1, o1) =
        ih (set_mark st i done) fs st' (DoneEnds-done next st i n d) (Frames-pop i fs n f)
          (OnStack-pop st i rest fs o) (rw (here, search_stack) at e) in
      ((n, others), d1, o1)

  pub search_stack-shows : (fuel : ℕ) → Showing fuel
  unfolding search_stack
  search_stack-shows zero st stack st' d f o e = cc
  search_stack-shows (suc fuel) st [] st' d f o e =
      let same : st ≡ st' = ground arith in
      (tt, subst (DoneEnds next) same d, subst (λ s. OnStack s []) same o)
  search_stack-shows (suc fuel) st ((i, rest) ∷ fs) st' d f o e =
      Showing-round fuel (search_stack-shows fuel) st i rest fs st' d f o (advance st rest)
        (advance-Advances st rest) refl e
