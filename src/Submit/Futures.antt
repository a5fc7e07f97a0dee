-- ===== src/Submit/Futures.antt =====
-- What the runs of submit/engine.py share: tasks, the outcome of a future, the result of a run. A
-- future of the backend is what its task leads to, and a combine task fails with its first failed
-- input, or as the plan's combine does.
use graphed_executors.Prelude.{
  ℕ, zero, suc, ◌<◌, ◌≡◌, ◌∙◌, refl, ap, ap₂, arith, length, length-map, List, [], ◌∷◌, map, leb,
  if◌then◌else◌,
}
use graphed_executors.Reduce.Fold.{pair_up, level_values, tree_fold, length-level_values}
use graphed_executors.Reduce.Tree.{level_size_top}

-- A plan's task: its key and its partition.
pub record Task (P : Type 0) : Type 0 where
  pub key : ℕ
  pub partition : P

-- future.result(): a value, or what it raises.
pub data Outcome (E A : Type 0) : Type 0 where
  returned : A → Outcome E A
  raised : E → Outcome E A

-- graphed.core's StopReason; a plan's own stop rule has its reasons.
pub data StopReason : Type 0 where
  exhausted cancelled : StopReason
  met : ℕ → StopReason

pub record ExecResult (A : Type 0) : Type 0 where
  pub value : A
  pub n_partitions : ℕ
  pub n_combines : ℕ
  pub stopped : StopReason

-- sorted(plan.tasks, key=lambda t: t.key), which is stable.
unfoldable pub insert_task : {P : Type 0} → Task P → List (Task P) → List (Task P)
insert_task t [] = t ∷ []
insert_task t (u ∷ us) =
    let rest = insert_task t us in if leb t.key u.key then t ∷ u ∷ us else u ∷ rest

unfoldable pub sort_tasks : {P : Type 0} → List (Task P) → List (Task P)
unfolding insert_task
sort_tasks [] = []
sort_tasks (t ∷ ts) = insert_task t (sort_tasks ts)

module _ {E A : Type 0} (combine : A → A → Outcome E A) where
  -- A combine task.
  unfoldable pub combine_task : Outcome E A → Outcome E A → Outcome E A
  combine_task (returned x) (returned y) = combine x y
  combine_task (returned x) (raised e) = raised e
  combine_task (raised e) b = raised e

  module _ (join : A → A → A) (works : (a b : A) → combine a b ≡ returned (join a b)) where
    pair_up-returned :
        (xs : List A) → pair_up combine_task (map returned xs) ≡ map returned (pair_up join xs)
    unfolding pair_up combine_task
    pair_up-returned [] = refl
    pair_up-returned (x ∷ []) = refl
    pair_up-returned (x ∷ y ∷ xs) = ap₂ ◌∷◌ (works x y) (pair_up-returned xs)

    level_values-returned :
        (k : ℕ) (xs : List A)
        → level_values combine_task k (map returned xs) ≡ map returned (level_values join k xs)
    unfolding level_values
    level_values-returned zero xs = refl
    level_values-returned (suc k) xs =
        rw (pair_up-returned xs) (level_values-returned k (pair_up join xs))

    abbrev first_or : Outcome E A → List (Outcome E A) → Outcome E A
    first_or base xs = elim xs [ [] ↦ base | x ∷ _ ↦ x ]

    head_returned :
        (empty : A) (xs : List A)
        → first_or (returned empty) (map returned xs)
          ≡ returned (elim xs [ [] ↦ empty | x ∷ _ ↦ x ])
    head_returned empty [] = refl
    head_returned empty (x ∷ xs) = refl

    -- Over values, the fold of the outcomes is that of the values.
    pub tree_fold-returned :
        (empty : A) (xs : List A)
        → tree_fold combine_task (returned empty) (map returned xs)
          ≡ returned (tree_fold join empty xs)
    unfolding tree_fold
    tree_fold-returned empty xs =
        let size : length (map {B = Outcome E A} (λ x. returned x) xs) ≡ length xs =
          length-map _ xs in
        ap (first_or (returned empty)) (
          ap (λ k. level_values combine_task k (map returned xs)) size
          ∙ level_values-returned (length xs) xs)
        ∙ head_returned empty (level_values join (length xs) xs)

  -- One of the outcomes is a failure.
  abbrev pub AnyRaised : List (Outcome E A) → Type 0
  AnyRaised [] = ⊥
  AnyRaised (returned x ∷ xs) = AnyRaised xs
  AnyRaised (raised e ∷ xs) = Unit

  past_outcome : (o : Outcome E A) (xs : List (Outcome E A)) → AnyRaised xs → AnyRaised (o ∷ xs)
  past_outcome (returned x) xs h = h
  past_outcome (raised e) xs h = tt

  pair_up-AnyRaised : (xs : List (Outcome E A)) → AnyRaised xs → AnyRaised (pair_up combine_task xs)
  unfolding pair_up combine_task
  pair_up-AnyRaised (returned x ∷ []) h = h
  pair_up-AnyRaised (raised e ∷ []) h = tt
  pair_up-AnyRaised (returned x ∷ returned y ∷ xs) h =
      past_outcome (combine x y) (pair_up combine_task xs) (pair_up-AnyRaised xs h)
  pair_up-AnyRaised (returned x ∷ raised e ∷ xs) h = tt
  pair_up-AnyRaised (raised e ∷ y ∷ xs) h = tt
  pair_up-AnyRaised [] h = h

  level_values-AnyRaised :
      (k : ℕ) (xs : List (Outcome E A)) → AnyRaised xs → AnyRaised (level_values combine_task k xs)
  unfolding level_values
  level_values-AnyRaised zero xs h = h
  level_values-AnyRaised (suc k) xs h =
      level_values-AnyRaised k (pair_up combine_task xs) (pair_up-AnyRaised xs h)

  single_raised :
      (base : Outcome E A) (xs : List (Outcome E A))
      → length xs ≡ 1
      → AnyRaised xs
      → (e : E) × ((elim xs [ [] ↦ base | x ∷ _ ↦ x ]) ≡ raised e)
  single_raised base [] one h = absurd h
  single_raised base (returned x ∷ []) one h = absurd h
  single_raised base (raised e ∷ []) one h = (e, refl)
  single_raised base (x ∷ y ∷ xs) one h = absurd (omega (arith, one))

  -- A failure among the outcomes makes the fold of all a failure.
  pub tree_fold-AnyRaised :
      (base : Outcome E A) (xs : List (Outcome E A))
      → AnyRaised xs
      → (e : E) × (tree_fold combine_task base xs ≡ raised e)
  unfolding tree_fold
  tree_fold-AnyRaised base xs h =
      single_raised base (level_values combine_task (length xs) xs)
        (length-level_values combine_task (length xs) (length xs) xs refl
          ∙ level_size_top (length xs) (some_outcome xs h))
        (level_values-AnyRaised (length xs) xs h)
    where
      some_outcome : (xs : List (Outcome E A)) → AnyRaised xs → 0 < length xs
      some_outcome [] h = absurd h
      some_outcome (x ∷ xs) h = omega arith
