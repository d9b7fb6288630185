-- ===== src/Validation/Checks/Visits.antt =====
-- The recursive search of `validateCheckDAG`: what a call of `visit` that succeeds shows, when it
-- succeeds, and how many calls inside one another it takes.
use route_doc.Common.{
  ℕ, zero, suc, ◌≡◌, ◌≢◌, ◌⊎◌, refl, sym, ◌∙◌, Bool, true, false, List, [], ◌∷◌, inl, inr, Option,
  none, some, arith, All, Exists, ◌==◌, ==_iff, eq_text, Bool-cases, Option-cases,
}
use mathlib.Core.Path.{subst}
use route_doc.Model.Ids.{CheckId}
use route_doc.Validation.Graph.{
  Mark, fresh, active, done, set_mark, set_mark-other, Ends, ends, DoneEnds, DoneEnds-active,
  DoneEnds-done, Leads, edge, through, not-Leads_self, All_at, All-of,
}
use route_doc.Validation.Checks.{Marks, visit_all, visit}

pub Mark-cases : (m : Mark) → (m ≡ fresh) ⊎ ((m ≡ active) ⊎ (m ≡ done))
Mark-cases fresh = inl refl
Mark-cases active = inr (inl refl)
Mark-cases done = inr (inr refl)

abbrev pub Step : Type 0
Step = CheckId → Marks → Option (Bool × Marks)

-- A loop that succeeds has first succeeded on the first dependency.
visit_all-split :
    (step : Step) (d : CheckId) (ds : List CheckId) (st st' : Marks)
    → visit_all step (d ∷ ds) st ≡ some (true, st')
    → (st1 : Marks) × (step d st ≡ some (true, st1)) × (visit_all step ds st1 ≡ some (true, st'))
unfolding visit_all
visit_all-split step d ds st st' h = elim (Option-cases (step d st)) [
  | inl e ↦ absurd (ground arith)
  | inr ((false, st1), e) ↦ absurd (ground arith)
  | inr ((true, st1), e) ↦ (st1, e, rw (e, visit_all) at h)
]

module _ (deps : CheckId → List CheckId) where
  -- A call of `visit` that succeeds found the node done, or visited all of its dependencies.
  visit-split :
      (fuel : ℕ) (id : CheckId) (st st' : Marks)
      → visit deps (suc fuel) id st ≡ some (true, st')
      → ((st id ≡ done) × (st ≡ st'))
        ⊎ ((st1 : Marks) × (visit_all (visit deps fuel) (deps id) (set_mark st id active)
              ≡ some (true, st1))
            × (set_mark st1 id done ≡ st'))
  unfolding visit
  visit-split fuel id st st' h = elim (Mark-cases (st id)) [
    | inr (inl e) ↦ absurd (ground arith)
    | inr (inr e) ↦ inl (e, ground arith)
    | inl e ↦ elim (Option-cases (visit_all (visit deps fuel) (deps id) (set_mark st id active))) [
      | inl n ↦ absurd (ground arith)
      | inr ((false, st1), n) ↦ absurd (ground arith)
      | inr ((true, st1), n) ↦ inr (st1, n, ground arith)
    ]
  ]

  visit_all-Ends :
      (step : Step)
      → ((id : CheckId) (st st' : Marks)
          → DoneEnds deps st
          → step id st ≡ some (true, st')
          → Ends deps id × DoneEnds deps st')
      → (ds : List CheckId) (st st' : Marks) → DoneEnds deps st
      → visit_all step ds st ≡ some (true, st')
      → All (Ends deps) ds × DoneEnds deps st'
  unfolding visit_all
  visit_all-Ends step one [] st st' h e =
      let same : st ≡ st' = ground arith in (tt, subst (DoneEnds deps) same h)
  visit_all-Ends step one (d ∷ ds) st st' h e =
      let (st1, e1, e2) = visit_all-split step d ds st st' e in
      let (n, h1) = one d st st1 h e1 in
      let (ns, h2) = visit_all-Ends step one ds st1 st' h1 e2 in ((n, ns), h2)

  -- When `visit` succeeds, every walk from the node ends.
  pub visit-Ends :
      (fuel : ℕ) (id : CheckId) (st st' : Marks)
      → DoneEnds deps st
      → visit deps fuel id st ≡ some (true, st')
      → Ends deps id × DoneEnds deps st'
  unfolding visit
  visit-Ends zero id st st' h e = cc
  visit-Ends (suc fuel) id st st' h e = elim (visit-split fuel id st st' e) [
    | inl (d, same) ↦ (h id d, subst (DoneEnds deps) same h)
    | inr (st1, e1, same) ↦
        let (ns, h1) =
          visit_all-Ends (visit deps fuel) (visit-Ends fuel) (deps id) (set_mark st id active) st1
            (DoneEnds-active deps st id h) e1 in
        let n : Ends deps id = ends (λ d x. All_at (Ends deps) (deps id) ns x) in
        (n, subst (DoneEnds deps) same (DoneEnds-done deps st1 id n h1))
  ]

  -- No node that is reached from here is being visited.
  abbrev pub Clear : CheckId → Marks → Type 0
  Clear id st = (k : CheckId) → ((k ≡ id) ⊎ Leads deps id k) → st k ≢ active

  -- The fuel ran out, or the call succeeds and leaves no further node active.
  abbrev pub Succeeds : Marks → Option (Bool × Marks) → Type 0
  Succeeds st o =
      (o ≡ none)
      ⊎ ((st' : Marks) × (o ≡ some (true, st')) × ((k : CheckId) → st' k ≡ active → st k ≡ active))

  -- Later states that leave no further node active stay clear.
  Clear-keeps :
      (st st1 : Marks) (ds : List CheckId)
      → ((k : CheckId) → st1 k ≡ active → st k ≡ active)
      → All (λ d. Clear d st) ds
      → All (λ d. Clear d st1) ds
  Clear-keeps st st1 [] keeps h = tt
  Clear-keeps st st1 (d ∷ ds) keeps (h, hs) =
      (λ k r a. h k r (keeps k a), Clear-keeps st st1 ds keeps hs)

  visit_all-Succeeds :
      (step : Step) (ds : List CheckId)
      → All (λ d. (st : Marks) → Clear d st → Succeeds st (step d st)) ds
      → (st : Marks) → All (λ d. Clear d st) ds
      → Succeeds st (visit_all step ds st)
  unfolding visit_all
  visit_all-Succeeds step [] hs st cs = inr (st, refl, λ k a. a)
  visit_all-Succeeds step (d ∷ ds) (h, hs) st (c, cs) = elim (h st c) [
    | inl n ↦ inl (rw (n, visit_all) refl)
    | inr (st1, e, keeps) ↦
        elim (visit_all-Succeeds step ds hs st1 (Clear-keeps st st1 ds keeps cs)) [
          | inl n ↦ inl (rw (e, visit_all) n)
          | inr (st2, e2, keeps2) ↦ inr (st2, rw (e, visit_all) e2, λ k a. keeps k (keeps2 k a))
        ]
  ]

  -- A node from which every walk ends is not reached from its own dependencies.
  Clear-active :
      (id d : CheckId) (st : Marks)
      → Ends deps id
      → Exists (λ t. t ≡ d) (deps id)
      → Clear id st
      → Clear d (set_mark st id active)
  Clear-active id d st n x c k r a = elim (Bool-cases (id == k)) [
    | inl same ↦
        let at_k : id ≡ k = (==_iff id k).0 same in
        elim r [
          | inl e ↦
              not-Leads_self n
                (edge (subst (λ y. Exists (λ t. t ≡ y) (deps id)) (sym e ∙ sym at_k) x))
          | inr l ↦ not-Leads_self n (through x (subst (Leads deps d) (sym at_k) l))
        ]
    | inr other ↦ c k (inr (reached r)) (sym (set_mark-other st id active k other) ∙ a)
  ]
    where
      reached : ((k ≡ d) ⊎ Leads deps d k) → Leads deps id k
      reached (inl e) = edge (subst (λ y. Exists (λ t. t ≡ y) (deps id)) (sym e) x)
      reached (inr l) = through x l

  -- What is active after a visit was active before it.
  active_before :
      (st st1 : Marks) (id k : CheckId)
      → ((j : CheckId) → st1 j ≡ active → set_mark st id active j ≡ active)
      → set_mark st1 id done k ≡ active
      → st k ≡ active
  unfolding set_mark
  active_before st st1 id k keeps a = elim (Bool-cases (id == k)) [
    | inl same ↦ absurd (ground arith)
    | inr other ↦
        let before : set_mark st id active k ≡ active = keeps k (ground arith) in
        sym (set_mark-other st id active k other) ∙ before
  ]

  -- When every walk from the node ends, `visit` finds no cycle.
  pub visit-Succeeds :
      (fuel : ℕ) {id : CheckId} (st : Marks)
      → Ends deps id
      → Clear id st
      → Succeeds st (visit deps fuel id st)
  unfolding visit
  visit-Succeeds zero st n c = inl refl
  visit-Succeeds (suc fuel) {id} st (ends h) c = elim (Mark-cases (st id)) [
    | inr (inl e) ↦ absurd (c id (inl refl) e)
    | inr (inr e) ↦ inr (st, rw (e, visit) refl, λ k a. a)
    | inl e ↦
        let below = All-of _ (deps id) (λ d x st0 c0. visit-Succeeds fuel st0 (h d x) c0) in
        let clear = All-of _ (deps id) (λ d x. Clear-active id d st (ends h) x c) in
        elim (visit_all-Succeeds (visit deps fuel) (deps id) below (set_mark st id active) clear) [
          | inl n ↦ inl (rw (e, n, visit) refl)
          | inr (st1, e1, keeps) ↦ inr (
            set_mark st1 id done,
            rw (e, e1, visit) refl,
            λ k a. active_before st st1 id k keeps a,
          )
        ]
  ]
