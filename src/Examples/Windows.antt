-- ===== src/Examples/Windows.antt =====
-- A run of _run_adaptive_windowed of submit/engine.py: two tasks through a window of one.
use graphed_executors.Prelude.{
  ℕ, zero, suc, ◌-◌, ◌≡◌, false, refl, ap, arith, nat_eq, List, [], ◌∷◌, Option, none, some,
}
use graphed_executors.Prelude.Dict.{get, put, pop}
use graphed_executors.Window.{running, paused, fill_take}
use graphed_executors.Submit.Futures.{Task, Outcome, returned, StopReason, exhausted}
use graphed_executors.Submit.Adaptive.{ExecContext, Finished}
use graphed_executors.Submit.Windowed.{Wake, run_adaptive_windowed}
use graphed_executors.Submit.Adaptive.Counts.{Accounted}
use graphed_executors.Submit.Keys.{Text, NoDash, task_key_collision}
use graphed_executors.Submit.Windowed.Counts.{run_adaptive_windowed_counts}

abbrev minus : ℕ → ℕ → ℕ
minus a b = a - b

abbrev fine : ℕ → Outcome ℕ ℕ
fine p = returned p

abbrev batch_at : ℕ → List (Task ℕ)
batch_at zero = record { key = 5; partition = 9 } ∷ record { key = 2; partition = 3 } ∷ []
batch_at (suc n) = []

abbrev first_batch : ExecContext → List (Task ℕ)
first_batch ctx = batch_at ctx.n_done

abbrev never : ExecContext → Option StopReason
never ctx = none

-- A full window, a pause, a resume, and the second task.
abbrev wakes : List Wake
wakes =
    record { polls = (running, 1) ∷ []; got = some 0; state = running }
    ∷ record { polls = (paused, 1) ∷ []; got = none; state = paused }
    ∷ record { polls = (running, 1) ∷ []; got = some 1; state = running }
    ∷ record { polls = []; got = none; state = running }
    ∷ []

abbrev both_done : Finished ℕ ℕ
both_done = record {
  result = record { value = 6; n_partitions = 2; n_combines = 1; stopped = exhausted };
  cancelled = [];
  futs = returned 9 ∷ returned 3 ∷ [];
}

windowed_ran :
    run_adaptive_windowed fine (λ v. false) minus 0 first_batch never (λ p. p) (λ v. 0) 100 1 wakes
    ≡ some (returned both_done)
unfolding run_adaptive_windowed get put pop fill_take
windowed_ran = refl

run_adaptive_windowed_counts_example : Accounted (λ v. false) minus 0 never both_done
run_adaptive_windowed_counts_example =
    run_adaptive_windowed_counts fine (λ v. false) minus 0 first_batch never (λ p. p) (λ v. 0) 100 1
      wakes both_done windowed_ran

-- A number as so many strokes.
abbrev strokes : ℕ → Text
strokes zero = []
strokes (suc k) = 49 ∷ strokes k

strokes-NoDash : (k : ℕ) → NoDash (strokes k)
strokes-NoDash zero = tt
strokes-NoDash (suc k) = (λ same. omega (arith, same), strokes-NoDash k)

strokes_tell : (k k' : ℕ) → strokes k ≡ strokes k' → k ≡ k'
strokes_tell zero zero same = refl
strokes_tell zero (suc k') same = cc
strokes_tell (suc k) zero same = cc
strokes_tell (suc k) (suc k') same = ap suc (strokes_tell k k' cc)

-- "leaf"
abbrev leaf_kind : Text
leaf_kind = 108 ∷ 101 ∷ 97 ∷ 102 ∷ []

task_key_collision_example : (leaf_kind ≡ leaf_kind) × ◌≡◌ {A = ℕ} 3 3
task_key_collision_example =
    task_key_collision strokes (97 ∷ 45 ∷ []) (98 ∷ []) leaf_kind leaf_kind 3 3 strokes-NoDash
      strokes_tell refl
