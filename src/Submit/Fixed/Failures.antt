-- ===== src/Submit/Fixed/Failures.antt =====
-- What the leaves of a fixed run of submit/engine.py lead to, and where a failure comes from.
use graphed_executors.Prelude.{
  ℕ, zero, suc, ◌+◌, ◌≡◌, refl, ap, ap₂, arith, ◌⊎◌, leb, List, [], ◌∷◌, map, length, range_from,
  inl, inr, ◌==◌, Bool-cases,
}
use graphed_executors.Reduce.Plan.{Combine, run_combines}
use graphed_executors.Submit.Futures.{
  Task, Outcome, returned, raised, sort_tasks, insert_task, combine_task, AnyRaised,
}
use graphed_executors.Submit.Fixed.{leaf_outcome}

module _ {P E A : Type 0} (process : P → Outcome E A) (combine : A → A → Outcome E A)
    (empty : A) where
  -- What the leaves lead to, in leaf order.
  abbrev pub outcomes : List (Task P) → List (Outcome E A)
  outcomes ts = map (λ t. process t.partition) ts

  pub map-leaf_outcome :
      (ts : List (Task P)) (start : ℕ) (f : ℕ → Outcome E A)
      → ((i : ℕ) → f (start + i) ≡ leaf_outcome process combine empty ts i)
      → map f (range_from start (length ts)) ≡ outcomes ts
  unfolding leaf_outcome
  map-leaf_outcome [] start f same = refl
  map-leaf_outcome (t ∷ ts) start f same =
      let e : start + 0 ≡ start = omega arith in
      ap₂ ◌∷◌ (rw e at (same 0)) (
        map-leaf_outcome ts (suc start) f
          (λ i. let e' : start + suc i ≡ suc start + i = omega arith in rw e' at (same (suc i))))

  pub leaf_outcomes :
      (ts : List (Task P))
      → map (leaf_outcome process combine empty ts) (range_from 0 (length ts)) ≡ outcomes ts
  leaf_outcomes ts =
      map-leaf_outcome ts 0 (leaf_outcome process combine empty ts)
        (λ i. ap (leaf_outcome process combine empty ts) (omega arith))

  -- Some task fails with this.
  abbrev pub FailsWith : E → List (Task P) → Type 0
  FailsWith e [] = ⊥
  FailsWith e (t ∷ ts) = (process t.partition ≡ raised e) ⊎ FailsWith e ts

  FailsWith-insert_task :
      (e : E) (t : Task P) (ts : List (Task P))
      → FailsWith e (insert_task t ts)
      → FailsWith e (t ∷ ts)
  unfolding insert_task
  FailsWith-insert_task e t [] h = h
  FailsWith-insert_task e t (u ∷ us) h = elim (Bool-cases (leb t.key u.key)) [
    | inl before ↦ rw before at h
    | inr after ↦ later (FailsWith-insert_task e t us) (rw after at h)
  ]
    where
      later :
          (FailsWith e (insert_task t us) → FailsWith e (t ∷ us))
          → FailsWith e (u ∷ insert_task t us)
          → FailsWith e (t ∷ u ∷ us)
      later back (inl here) = inr (inl here)
      later back (inr there) = elim (back there) [
        | inl first ↦ inl first
        | inr rest ↦ inr (inr rest)
      ]

  pub FailsWith-sort_tasks :
      (e : E) (ts : List (Task P)) → FailsWith e (sort_tasks ts) → FailsWith e ts
  unfolding sort_tasks
  FailsWith-sort_tasks e [] h = h
  FailsWith-sort_tasks e (t ∷ ts) h = elim (FailsWith-insert_task e t (sort_tasks ts) h) [
    | inl first ↦ inl first
    | inr rest ↦ inr (FailsWith-sort_tasks e ts rest)
  ]

  insert_task-FailsWith :
      (e : E) (t : Task P) (ts : List (Task P))
      → FailsWith e (t ∷ ts)
      → FailsWith e (insert_task t ts)
  unfolding insert_task
  insert_task-FailsWith e t [] h = h
  insert_task-FailsWith e t (u ∷ us) h = elim (Bool-cases (leb t.key u.key)) [
    | inl before ↦ rw before h
    | inr after ↦ rw after (later (insert_task-FailsWith e t us) h)
  ]
    where
      later :
          (FailsWith e (t ∷ us) → FailsWith e (insert_task t us))
          → FailsWith e (t ∷ u ∷ us)
          → FailsWith e (u ∷ insert_task t us)
      later on (inl first) = inr (on (inl first))
      later on (inr (inl here)) = inl here
      later on (inr (inr rest)) = inr (on (inr rest))

  pub sort_tasks-FailsWith :
      (e : E) (ts : List (Task P)) → FailsWith e ts → FailsWith e (sort_tasks ts)
  unfolding sort_tasks
  sort_tasks-FailsWith e [] h = h
  sort_tasks-FailsWith e (t ∷ ts) (inl first) =
      insert_task-FailsWith e t (sort_tasks ts) (inl first)
  sort_tasks-FailsWith e (t ∷ ts) (inr rest) =
      insert_task-FailsWith e t (sort_tasks ts) (inr (sort_tasks-FailsWith e ts rest))

  pub AnyRaised-outcomes :
      (e : E) (ts : List (Task P)) → FailsWith e ts → AnyRaised combine (outcomes ts)
  AnyRaised-outcomes e (t ∷ ts) (inl first) = rw first tt
  AnyRaised-outcomes e (t ∷ ts) (inr rest) =
      past (process t.partition) (AnyRaised-outcomes e ts rest)
    where
      past :
          (o : Outcome E A) → AnyRaised combine (outcomes ts) → AnyRaised combine (o ∷ outcomes ts)
      past (returned v) h = h
      past (raised e') h = tt
  AnyRaised-outcomes e [] h = absurd h

  -- A failure of some task, or of the plan's combine on two values.
  abbrev pub Blamed : E → List (Task P) → Type 0
  Blamed e ts = FailsWith e ts ⊎ ((a b : A) × (combine a b ≡ raised e))

  -- Every failure of a future is some task's or a combine's.
  abbrev pub Attributed : List (Task P) → (ℕ → Outcome E A) → Type 0
  Attributed ts futs = (x : ℕ) (e : E) → futs x ≡ raised e → Blamed e ts

  pub leaf_outcome-Attributed :
      (ts : List (Task P)) → Attributed ts (leaf_outcome process combine empty ts)
  unfolding leaf_outcome
  leaf_outcome-Attributed [] x e h = cc
  leaf_outcome-Attributed (t ∷ ts) zero e h = inl (inl h)
  leaf_outcome-Attributed (t ∷ ts) (suc x) e h = elim (leaf_outcome-Attributed ts x e h) [
    | inl task ↦ inl (inr task)
    | inr combined ↦ inr combined
  ]

  combine_task-raised :
      (a b : Outcome E A) (e : E)
      → combine_task combine a b ≡ raised e
      → (a ≡ raised e) ⊎ (b ≡ raised e) ⊎ ((x y : A) × (combine x y ≡ raised e))
  unfolding combine_task
  combine_task-raised (returned x) (returned y) e h = inr (inr (x, y, h))
  combine_task-raised (returned x) (raised e') e h = inr (inl h)
  combine_task-raised (raised e') b e h = inl h

  pub run_combines-Attributed :
      (ts : List (Task P)) (combines : List Combine) (futs : ℕ → Outcome E A)
      → Attributed ts futs
      → Attributed ts (run_combines (combine_task combine) combines futs)
  unfolding run_combines
  run_combines-Attributed ts [] futs all = all
  run_combines-Attributed ts (c ∷ combines) futs all =
      run_combines-Attributed ts combines _ (λ x e h. elim (Bool-cases (x == c.out)) [
        | inl new ↦ elim (combine_task-raised (futs c.a) (futs c.b) e (rw new at h)) [
          | inl left ↦ all c.a e left
          | inr (inl right) ↦ all c.b e right
          | inr (inr combined) ↦ inr combined
        ]
        | inr old ↦ all x e (rw old at h)
      ])
