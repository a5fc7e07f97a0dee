-- ===== src/Submit/Adaptive.antt =====
-- _run_adaptive of submit/engine.py: a plan that gives its next tasks as results come. A future is
-- its number among the run's submits; the done queue is the list of the futures it gives.
pub mod Counts
use graphed_executors.Prelude.{
  ℕ, ◌+◌, List, [], ◌∷◌, ◌++◌, Option, none, some, map, Bool, true, false, if◌then◌else◌, get_elem?,
  nat_eq, length,
}
use graphed_executors.Prelude.Dict.{Dict, get, put, pop}
use graphed_executors.Reduce.Chain.{running_fold}
use graphed_executors.Submit.Futures.{
  Task, Outcome, returned, raised, ExecResult, StopReason, exhausted,
}

-- graphed.core's ExecContext, as far as the run writes it.
pub record ExecContext : Type 0 where
  pub errors : ℕ
  pub n_done : ℕ
  pub events_done : ℕ

-- `futs` has the outcome of every future submitted, `outstanding` the key and the entries of each
-- that the run still waits for.
pub record Adaptive (E A : Type 0) : Type 0 where
  pub futs : List (Outcome E A)
  pub outstanding : Dict ℕ (ℕ × ℕ)
  pub results : List (ℕ × A)
  pub exec_ctx : ExecContext
  pub seq : ℕ

-- A run that returns, with the futures it submitted and those it cancelled.
pub record Finished (E A : Type 0) : Type 0 where
  pub result : ExecResult A
  pub cancelled : List ℕ
  pub futs : List (Outcome E A)

-- A turn of the loop ends the run or goes on.
pub data Turn (E A : Type 0) : Type 0 where
  over : Outcome E (Finished E A) → Turn E A
  go : Adaptive E A → Turn E A

unfoldable pub no_futures : {E A : Type 0} → Adaptive E A
no_futures = record {
  futs = [];
  outstanding = [];
  results = [];
  exec_ctx = record { errors = 0; n_done = 0; events_done = 0 };
  seq = 0;
}

module _ {P E A : Type 0} (process : P → Outcome E A) (is_none : A → Bool) (combine : A → A → A)
    (empty : A) (next_tasks : ExecContext → List (Task P)) (stop : ExecContext → Option StopReason)
    (n_entries : P → ℕ) (n_failed : A → ℕ) where
  abbrev pub submit_task : Adaptive E A → Task P → Adaptive E A
  submit_task s t = record {
    futs = s.futs ++ process t.partition ∷ [];
    outstanding = put s.outstanding s.seq (t.key, n_entries t.partition);
    results = s.results;
    exec_ctx = s.exec_ctx;
    seq = s.seq + 1;
  }

  unfoldable pub submit_batch : Adaptive E A → List (Task P) → Adaptive E A
  submit_batch s [] = s
  submit_batch s (t ∷ batch) = submit_batch (submit_task s t) batch

  unfoldable pub refill : Adaptive E A → Adaptive E A
  unfolding submit_batch
  refill s = submit_batch s (next_tasks s.exec_ctx)

  -- stopped or StopReason.EXHAUSTED
  abbrev pub stopped_or : Option StopReason → StopReason
  stopped_or none = exhausted
  stopped_or (some reason) = reason

  unfoldable pub finish : Adaptive E A → List ℕ → Option StopReason → Finished E A
  unfolding running_fold
  finish s cancelled reason =
      let (value, n_combines) = running_fold is_none combine empty s.results in
      record {
        result = record {
          value = value;
          n_partitions = s.exec_ctx.n_done;
          n_combines = n_combines;
          stopped = stopped_or reason;
        };
        cancelled = cancelled;
        futs = s.futs;
      }

  -- A completed future, with its key and its entries.
  abbrev pub consume : Adaptive E A → ℕ → ℕ × ℕ → A → Adaptive E A
  consume s fut of_task partial = record {
    futs = s.futs;
    outstanding = pop s.outstanding fut;
    results = s.results ++ (of_task.0, partial) ∷ [];
    exec_ctx = record {
      errors = s.exec_ctx.errors + n_failed partial;
      n_done = s.exec_ctx.n_done + 1;
      events_done = s.exec_ctx.events_done + of_task.1;
    };
    seq = s.seq;
  }

  unfoldable pub after_stop : Option StopReason → Adaptive E A → Turn E A
  unfolding refill finish
  after_stop none s = go (refill s)
  after_stop (some reason) s =
      over (returned (finish s (map (λ p. p.0) s.outstanding) (some reason)))

  -- fut.result(), of a future that the run waits for.
  unfoldable pub take_result : Option (Outcome E A) → Adaptive E A → ℕ → ℕ × ℕ → Turn E A
  unfolding after_stop
  take_result none s fut of_task = go s
  take_result (some (raised e)) s fut of_task = over (raised e)
  take_result (some (returned partial)) s fut of_task =
      let s' = consume s fut of_task partial in after_stop (stop s'.exec_ctx) s'

  -- if fut not in outstanding: a cancelled or duplicate callback
  unfoldable pub take_future : Option (ℕ × ℕ) → Adaptive E A → ℕ → Turn E A
  unfolding take_result
  take_future none s fut = go s
  take_future (some of_task) s fut = take_result (get_elem? s.futs fut) s fut of_task

  -- while outstanding
  unfoldable pub turn : Dict ℕ (ℕ × ℕ) → Adaptive E A → ℕ → Turn E A
  unfolding take_future finish
  turn [] s fut = over (returned (finish s [] none))
  turn (p ∷ ps) s fut = take_future (get s.outstanding fut) s fut

  unfoldable pub at_end : Dict ℕ (ℕ × ℕ) → Adaptive E A → Option (Outcome E (Finished E A))
  unfolding finish
  at_end [] s = some (returned (finish s [] none))
  at_end (p ∷ ps) s = none

  -- The loop over what the done queue gives; none while it waits.
  unfoldable pub adapt : List ℕ → Adaptive E A → Option (Outcome E (Finished E A))
  unfolding turn at_end
  adapt [] s = at_end s.outstanding s
  adapt (fut ∷ arrivals) s = elim (turn s.outstanding s fut) [
    | over outcome ↦ some outcome
    | go s' ↦ adapt arrivals s'
  ]

  unfoldable pub run_adaptive : List ℕ → Option (Outcome E (Finished E A))
  unfolding adapt refill no_futures
  run_adaptive arrivals = adapt arrivals (refill no_futures)
