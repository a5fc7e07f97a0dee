-- ===== src/Submit/Fixed.antt =====
-- _run_fixed of submit/engine.py: plan_tree as the graph of futures.
pub mod Failures
pub mod Value
pub mod Order
use graphed_executors.Prelude.{
  ℕ, zero, suc, ◌+◌, ◌-◌, ◌<◌, ◌≡◌, ◌∙◌, refl, sym, ap, ap₂, arith, ◌⊎◌, leb, List, [], ◌∷◌, Option,
  none, some, map, length, Bool, true, false, get_elem?, range_from, Option-cases, inl, inr, ◌==◌,
  Bool-cases, if◌then◌else◌, length-map,
}
use graphed_executors.Reduce.Fold.{tree_fold}
use graphed_executors.Reduce.Plan.{Combine, plan_tree, run_combines, set_node, plan_tree-tree_fold}
use graphed_executors.Submit.Futures.{
  Task, Outcome, returned, raised, ExecResult, exhausted, sort_tasks, insert_task, combine_task,
  tree_fold-returned, tree_fold-AnyRaised, AnyRaised,
}

-- A round finds the root done.
abbrev pub RootDone : List (Bool × ℕ) → Type 0
RootDone [] = ⊥
RootDone ((true, fut) ∷ rounds) = Unit
RootDone ((false, fut) ∷ rounds) = RootDone rounds

module _ {E A : Type 0} where
  -- while not futs[root].done(): each round with whether the root was done, and the future that the
  -- queue gives; none while it still waits.
  unfoldable pub wait_root : (ℕ → Outcome E A) → ℕ → List (Bool × ℕ) → Option (Outcome E A)
  wait_root futs root [] = none
  wait_root futs root ((true, fut) ∷ rounds) = some (futs root)
  wait_root futs root ((false, fut) ∷ rounds) =
      let rest = wait_root futs root rounds in
      elim (futs fut) [ raised e ↦ some (raised e) | returned v ↦ rest ]

  unfoldable pub exec_result : ℕ → ℕ → Outcome E A → Outcome E (ExecResult A)
  exec_result n n_combines (raised e) = raised e
  exec_result n n_combines (returned v) =
      returned
        (record { value = v; n_partitions = n; n_combines = n_combines; stopped = exhausted })

  unfoldable pub await_root :
      ℕ
      → List Combine
      → Option ℕ
      → (ℕ → Outcome E A)
      → List (Bool × ℕ)
      → Option (Outcome E (ExecResult A))
  unfolding wait_root exec_result
  await_root n combines none futs rounds = none
  await_root n combines (some root) futs rounds = elim (wait_root futs root rounds) [
    | none ↦ none
    | some outcome ↦ some (exec_result n (length combines) outcome)
  ]

module _ {P E A : Type 0} (process : P → Outcome E A) (combine : A → A → Outcome E A)
    (empty : A) where
  -- What the leaf future of node i leads to; no node from the number of tasks on is a leaf.
  unfoldable pub leaf_outcome : List (Task P) → ℕ → Outcome E A
  leaf_outcome [] i = returned empty
  leaf_outcome (t ∷ ts) zero = process t.partition
  leaf_outcome (t ∷ ts) (suc i) = leaf_outcome ts i

  -- The run over its tasks in leaf order.
  unfoldable pub run_sorted : List (Task P) → List (Bool × ℕ) → Option (Outcome E (ExecResult A))
  unfolding await_root leaf_outcome
  run_sorted [] rounds =
      some
        (returned (record { value = empty; n_partitions = 0; n_combines = 0; stopped = exhausted }))
  run_sorted (t ∷ ts) rounds =
      let n = length (t ∷ ts) in
      let plan = plan_tree n in
      await_root n plan.0 plan.1
        (run_combines (combine_task combine) plan.0 (leaf_outcome (t ∷ ts))) rounds

  unfoldable pub run_fixed : List (Task P) → List (Bool × ℕ) → Option (Outcome E (ExecResult A))
  unfolding run_sorted
  run_fixed tasks rounds = run_sorted (sort_tasks tasks) rounds
