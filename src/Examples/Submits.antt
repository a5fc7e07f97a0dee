-- ===== src/Examples/Submits.antt =====
-- Runs of submit/engine.py: two tasks, out of key order, with subtraction as the combine.
use mathlib.Core.List.{Permᴰ}
use graphed_executors.Prelude.{
  ℕ, zero, suc, ◌+◌, ◌-◌, ◌≡◌, ◌≢◌, ◌⊎◌, refl, List, [], ◌∷◌, Option, none, some, map, Bool, true,
  false, inl, inr, arith, length,
}
use graphed_executors.Prelude.Dict.{get, put, pop}
use graphed_executors.Reduce.Fold.{tree_fold}
use graphed_executors.Reduce.Eager.{discard}
use graphed_executors.Submit.Futures.{
  Task, Outcome, returned, raised, ExecResult, StopReason, exhausted, cancelled, sort_tasks,
}
use graphed_executors.Submit.Fixed.{run_fixed}
use graphed_executors.Submit.Fixed.Failures.{Blamed}
use graphed_executors.Submit.Fixed.Value.{run_fixed_value, run_fixed_failure}
use graphed_executors.Submit.Fixed.Order.{run_fixed_any_order}
use graphed_executors.Submit.Adaptive.{ExecContext, Finished, run_adaptive}
use graphed_executors.Submit.Adaptive.Counts.{run_adaptive_counts, Accounted}
use graphed_executors.Submit.Stages.{Stage, Output, run_stages}
use graphed_executors.Submit.Stages.Counts.{run_stages_counts, n_tasks}

abbrev minus : ℕ → ℕ → ℕ
minus a b = a - b

-- A combine of submit/engine.py may fail.
abbrev less : ℕ → ℕ → Outcome ℕ ℕ
less a b = returned (a - b)

abbrev fine : ℕ → Outcome ℕ ℕ
fine p = returned p

-- A partition of zero entries fails.
abbrev picky : ℕ → Outcome ℕ ℕ
picky zero = raised 7
picky (suc p) = returned p

abbrev late : Task ℕ
late = record { key = 5; partition = 3 }

abbrev early : Task ℕ
early = record { key = 2; partition = 9 }

abbrev bad : Task ℕ
bad = record { key = 3; partition = 0 }

abbrev in_turn : List (Bool × ℕ)
in_turn = (false, 1) ∷ (false, 0) ∷ (true, 2) ∷ []

run_fixed_value_example :
    run_fixed fine less 0 (late ∷ early ∷ []) in_turn
    ≡ some (
        returned (record {
          value = tree_fold minus 0 (map (λ t. t.partition) (sort_tasks (late ∷ early ∷ [])));
          n_partitions = 2;
          n_combines = 1;
          stopped = exhausted;
        }))
run_fixed_value_example =
    run_fixed_value fine less 0 (λ p. p) minus (late ∷ early ∷ []) in_turn (λ p. refl) (λ a b. refl)
      tt

run_fixed_failure_example :
    (e : ℕ) × (run_fixed picky less 0 (late ∷ bad ∷ []) in_turn ≡ some (raised e))
    × Blamed picky less 0 e (late ∷ bad ∷ [])
run_fixed_failure_example =
    run_fixed_failure picky less 0 7 (late ∷ bad ∷ []) in_turn (inr (inl refl)) tt

late_differs : late.key ≢ early.key
late_differs same = omega (arith, same)

run_fixed_any_order_example :
    run_fixed fine less 0 (late ∷ early ∷ []) in_turn
    ≡ run_fixed fine less 0 (early ∷ late ∷ []) in_turn
run_fixed_any_order_example =
    run_fixed_any_order fine less 0 (late ∷ early ∷ []) (early ∷ late ∷ []) in_turn
      ((late_differs, tt), (tt, tt)) (Permᴰ.swap refl refl)

abbrev first_batch : ExecContext → List (Task ℕ)
first_batch ctx = batch ctx.n_done
  where
    batch : ℕ → List (Task ℕ)
    batch zero = late ∷ early ∷ []
    batch (suc n) = []

abbrev never : ExecContext → Option StopReason
never ctx = none

abbrev all_consumed : Finished ℕ ℕ
all_consumed = record {
  result = record { value = 6; n_partitions = 2; n_combines = 1; stopped = exhausted };
  cancelled = [];
  futs = returned 3 ∷ returned 9 ∷ [];
}

-- The second future first, and twice.
adaptive_ran :
    run_adaptive fine (λ v. false) minus 0 first_batch never (λ p. p) (λ v. 0) (1 ∷ 1 ∷ 0 ∷ [])
    ≡ some (returned all_consumed)
unfolding run_adaptive get put pop
adaptive_ran = refl

run_adaptive_counts_example : Accounted (λ v. false) minus 0 never all_consumed
run_adaptive_counts_example =
    run_adaptive_counts fine (λ v. false) minus 0 first_batch never (λ p. p) (λ v. 0)
      (1 ∷ 1 ∷ 0 ∷ []) all_consumed adaptive_ran

-- Two map tasks, and a gather of both.
abbrev two_stages : List (Stage ℕ)
two_stages =
    record { is_map = true; inputs = []; tasks = late ∷ early ∷ [] }
    ∷ record { is_map = false; inputs = 0 ∷ []; tasks = record { key = 0; partition = 0 } ∷ [] }
    ∷ []

abbrev add_up : ℕ → Task ℕ → List ℕ → Outcome ℕ ℕ
add_up at task [] = returned task.partition
add_up at task (x ∷ xs) = elim (add_up at task xs) [
  | raised e ↦ raised e
  | returned v ↦ returned (x + v)
]

abbrev sum_out : List (Output ℕ ℕ) → ℕ
sum_out outs = length outs

abbrev staged_result : ExecResult (Option ℕ)
staged_result = record { value = some 1; n_partitions = 2; n_combines = 1; stopped = exhausted }

stages_ran :
    run_stages
      (λ b. b)
      (λ m key. m)
      add_up
      sum_out
      false
      two_stages
      (λ at. false)
      ((1, false) ∷ (0, false) ∷ (2, false) ∷ [])
    ≡ some (returned staged_result)
unfolding run_stages get put pop discard
stages_ran = refl

run_stages_counts_example :
    ((staged_result.stopped ≡ cancelled) × (staged_result.value ≡ none))
    ⊎ ((staged_result.stopped ≡ exhausted)
        × (staged_result.n_partitions + staged_result.n_combines ≡ n_tasks two_stages))
run_stages_counts_example =
    run_stages_counts (λ b. b) (λ m key. m) add_up sum_out false two_stages (λ at. false)
      ((1, false) ∷ (0, false) ∷ (2, false) ∷ []) staged_result stages_ran
