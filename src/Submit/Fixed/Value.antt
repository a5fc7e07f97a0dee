-- ===== src/Submit/Fixed/Value.antt =====
-- What a fixed run of submit/engine.py returns or raises.
use graphed_executors.Prelude.{
  ℕ, suc, ◌-◌, ◌≡◌, ◌∙◌, refl, sym, ap, ap₂, arith, ◌⊎◌, List, [], ◌∷◌, some, map, length, Bool,
  true, false, inl, inr,
}
use graphed_executors.Reduce.Fold.{tree_fold, tree_fold-nil}
use graphed_executors.Reduce.Plan.{Combine, plan_tree, run_combines, plan_tree-tree_fold}
use graphed_executors.Submit.Futures.{
  Task, Outcome, returned, raised, ExecResult, exhausted, sort_tasks, insert_task, combine_task,
  tree_fold-returned, tree_fold-AnyRaised,
}
use graphed_executors.Submit.Fixed.{
  leaf_outcome, wait_root, exec_result, await_root, run_sorted, run_fixed, RootDone,
}
use graphed_executors.Submit.Fixed.Failures.{
  outcomes, leaf_outcomes, FailsWith, Blamed, FailsWith-sort_tasks, sort_tasks-FailsWith,
  AnyRaised-outcomes, Attributed, leaf_outcome-Attributed, run_combines-Attributed,
}

module _ {P E A : Type 0} (process : P → Outcome E A) (combine : A → A → Outcome E A)
    (empty : A) where
  -- A wait that finds the root done gives its outcome, or an earlier failure.
  wait_root_ends :
      (ts : List (Task P)) (futs : ℕ → Outcome E A) (root : ℕ) (rounds : List (Bool × ℕ))
      → Attributed process combine empty ts futs
      → RootDone rounds
      → (wait_root futs root rounds ≡ some (futs root))
        ⊎ ((e : E) × (wait_root futs root rounds ≡ some (raised e))
            × Blamed process combine empty e ts)
  unfolding wait_root
  wait_root_ends ts futs root [] all found = absurd found
  wait_root_ends ts futs root ((true, fut) ∷ rounds) all found = inl refl
  wait_root_ends ts futs root ((false, fut) ∷ rounds) all found =
      at_outcome (futs fut) refl (wait_root_ends ts futs root rounds all found)
    where
      at_outcome :
          (o : Outcome E A)
          → futs fut ≡ o
          → (wait_root futs root rounds ≡ some (futs root))
            ⊎ ((e : E) × (wait_root futs root rounds ≡ some (raised e))
                × Blamed process combine empty e ts)
          → (wait_root futs root ((false, fut) ∷ rounds) ≡ some (futs root))
            ⊎ ((e : E) × (wait_root futs root ((false, fut) ∷ rounds) ≡ some (raised e))
                × Blamed process combine empty e ts)
      at_outcome (returned v) same rest = rw (same, wait_root) rest
      at_outcome (raised e) same rest = rw (same, wait_root) (inr (e, refl, all fut e same))

  await_root_ends :
      (ts : List (Task P)) (n : ℕ) (combines : List Combine) (root : ℕ) (futs : ℕ → Outcome E A)
      (rounds : List (Bool × ℕ))
      → Attributed process combine empty ts futs
      → RootDone rounds
      → (await_root n combines (some root) futs rounds
          ≡ some (exec_result n (length combines) (futs root)))
        ⊎ ((e : E) × (await_root n combines (some root) futs rounds ≡ some (raised e))
            × Blamed process combine empty e ts)
  unfolding await_root exec_result
  await_root_ends ts n combines root futs rounds all found =
      elim (wait_root_ends ts futs root rounds all found) [
        | inl ok ↦ inl (rw (ok, await_root) refl)
        | inr (e, failed, whose) ↦ inr (e, rw (failed, await_root) refl, whose)
      ]

  -- The fold of what the tasks lead to.
  abbrev folded : List (Task P) → Outcome E A
  folded ts = tree_fold (combine_task combine) (returned empty) (outcomes process combine empty ts)

  -- The run over a list that has a task.
  run_sorted_ends :
      (t : Task P) (ts : List (Task P)) (rounds : List (Bool × ℕ))
      → RootDone rounds
      → ((run_sorted process combine empty (t ∷ ts) rounds
            ≡ some (exec_result (length (t ∷ ts)) (length (t ∷ ts) - 1) (folded (t ∷ ts))))
          × ((e : E) → folded (t ∷ ts) ≡ raised e → Blamed process combine empty e (t ∷ ts)))
        ⊎ ((e : E) × (run_sorted process combine empty (t ∷ ts) rounds ≡ some (raised e))
            × Blamed process combine empty e (t ∷ ts))
  unfolding run_sorted
  run_sorted_ends t ts rounds found =
      let n : ℕ = length (t ∷ ts) in
      let futs : ℕ → Outcome E A =
        run_combines (combine_task combine) (plan_tree n).0
          (leaf_outcome process combine empty (t ∷ ts)) in
      let (root, is_root, value, size) =
        plan_tree-tree_fold (combine_task {E = E} combine) (returned empty) n
          (leaf_outcome process combine empty (t ∷ ts)) (omega arith) in
      let value' : futs root ≡ folded (t ∷ ts) =
        value
        ∙ ap (tree_fold (combine_task combine) (returned empty))
            (leaf_outcomes process combine empty (t ∷ ts)) in
      let whose : Attributed process combine empty (t ∷ ts) futs =
        run_combines-Attributed process combine empty (t ∷ ts) (plan_tree n).0 _
          (leaf_outcome-Attributed process combine empty (t ∷ ts)) in
      elim (await_root_ends (t ∷ ts) n (plan_tree n).0 root futs rounds whose found) [
        | inl ok ↦ inl (
          rw (is_root, run_sorted) (ok ∙ ap some (ap₂ (exec_result n) size value')),
          λ e failed. whose root e (value' ∙ failed),
        )
        | inr (e, failed, by) ↦ inr (e, rw (is_root, run_sorted) failed, by)
      ]

  length-insert_task :
      (t : Task P) (ts : List (Task P)) → length (insert_task t ts) ≡ suc (length ts)
  unfolding insert_task
  length-insert_task t [] = refl
  length-insert_task t (u ∷ us) = ground (arith, length-insert_task t us)

  length-sort_tasks : (ts : List (Task P)) → length (sort_tasks ts) ≡ length ts
  unfolding sort_tasks
  length-sort_tasks [] = refl
  length-sort_tasks (t ∷ ts) = length-insert_task t (sort_tasks ts) ∙ ap suc (length-sort_tasks ts)

  module _ (value : P → A) (join : A → A → A) (works : (p : P) → process p ≡ returned (value p))
      (joins : (a b : A) → combine a b ≡ returned (join a b)) where
    outcomes_returned :
        (ts : List (Task P))
        → outcomes process combine empty ts ≡ map returned (map (λ t. value t.partition) ts)
    outcomes_returned [] = refl
    outcomes_returned (t ∷ ts) = ap₂ ◌∷◌ (works t.partition) (outcomes_returned ts)

    none_fails : (e : E) (ts : List (Task P)) → FailsWith process combine empty e ts → ⊥
    none_fails e [] h = h
    none_fails e (t ∷ ts) (inl h) = let ok = works t.partition in cc
    none_fails e (t ∷ ts) (inr h) = none_fails e ts h

    none-Blamed : (e : E) (ts : List (Task P)) → Blamed process combine empty e ts → ⊥
    none-Blamed e ts (inl task) = none_fails e ts task
    none-Blamed e ts (inr (a, b, h)) = let ok = joins a b in cc

    -- The result over tasks in leaf order.
    abbrev value_of : List (Task P) → ExecResult A
    value_of ts = record {
      value = tree_fold join empty (map (λ t. value t.partition) ts);
      n_partitions = length ts;
      n_combines = length ts - 1;
      stopped = exhausted;
    }

    run_sorted-value :
        (ts : List (Task P)) (rounds : List (Bool × ℕ))
        → RootDone rounds
        → run_sorted process combine empty ts rounds ≡ some (returned (value_of ts))
    unfolding run_sorted exec_result
    run_sorted-value [] rounds found = rw (tree_fold-nil join empty) refl
    run_sorted-value (t ∷ ts) rounds found = elim (run_sorted_ends t ts rounds found) [
      | inl (ok, whose) ↦
          ok
          ∙ ap (λ o. some (exec_result (length (t ∷ ts)) (length (t ∷ ts) - 1) o))
              (ap (tree_fold (combine_task combine) (returned empty)) (outcomes_returned (t ∷ ts))
                ∙ tree_fold-returned combine join joins empty
                    (map (λ t. value t.partition) (t ∷ ts)))
      | inr (e, failed, whose) ↦ absurd (none-Blamed e (t ∷ ts) whose)
    ]

  -- Where every task's `process` and every combine returns a value, a run that finds its root done in
  -- some round returns, whatever the order in which the futures completed, the fold of the fixed tree
  -- over the values in key order, with a combine less than there are tasks.
  pub run_fixed_value :
      (value : P → A) (join : A → A → A) (tasks : List (Task P)) (rounds : List (Bool × ℕ))
      → ((p : P) → process p ≡ returned (value p))
      → ((a b : A) → combine a b ≡ returned (join a b))
      → RootDone rounds
      → run_fixed process combine empty tasks rounds
        ≡ some (
            returned (record {
              value = tree_fold join empty (map (λ t. value t.partition) (sort_tasks tasks));
              n_partitions = length tasks;
              n_combines = length tasks - 1;
              stopped = exhausted;
            }))
  unfolding run_fixed
  run_fixed_value value join tasks rounds works joins found =
      rw (sym (length-sort_tasks tasks))
        (run_sorted-value value join works joins (sort_tasks tasks) rounds found)

  run_sorted_failure :
      (e : E) (ts : List (Task P)) (rounds : List (Bool × ℕ))
      → FailsWith process combine empty e ts
      → RootDone rounds
      → (e' : E) × (run_sorted process combine empty ts rounds ≡ some (raised e'))
        × Blamed process combine empty e' ts
  unfolding exec_result
  run_sorted_failure e [] rounds fails found = absurd fails
  run_sorted_failure e (t ∷ ts) rounds fails found = elim (run_sorted_ends t ts rounds found) [
    | inl (ok, whose) ↦
        let (e', root_failed) =
          tree_fold-AnyRaised combine (returned empty) (outcomes process combine empty (t ∷ ts))
            (AnyRaised-outcomes process combine empty e (t ∷ ts) fails) in
        (
          e',
          ok ∙ ap (λ o. some (exec_result (length (t ∷ ts)) (length (t ∷ ts) - 1) o)) root_failed,
          whose e' root_failed,
        )
    | inr ended ↦ ended
  ]

  -- Where the `process` of a task fails, a run that finds its root done in some round raises what some
  -- task of the plan, or the plan's combine on two values, fails with.
  pub run_fixed_failure :
      (e : E) (tasks : List (Task P)) (rounds : List (Bool × ℕ))
      → FailsWith process combine empty e tasks
      → RootDone rounds
      → (e' : E) × (run_fixed process combine empty tasks rounds ≡ some (raised e'))
        × Blamed process combine empty e' tasks
  unfolding run_fixed
  run_fixed_failure e tasks rounds fails found =
      let (e', ran, whose) =
        run_sorted_failure e (sort_tasks tasks) rounds
          (sort_tasks-FailsWith process combine empty e tasks fails) found in
      (
        e',
        ran,
        elim whose [
          | inl task ↦ inl (FailsWith-sort_tasks process combine empty e' tasks task)
          | inr combined ↦ inr combined
        ],
      )
