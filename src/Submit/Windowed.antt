-- ===== src/Submit/Windowed.antt =====
-- _run_adaptive_windowed of submit/engine.py, with _completions: each batch is held in a Window.
pub mod Counts
use graphed_executors.Prelude.{
  ℕ, ◌+◌, List, [], ◌∷◌, ◌++◌, Option, none, some, map, Bool, true, false, get_elem?, nat_eq,
  length,
}
use graphed_executors.Prelude.Dict.{Dict, get}
use graphed_executors.Window.{RunState, Window, new_window, check_cancelled, Filled, fill}
use graphed_executors.Submit.Futures.{
  Task, Outcome, returned, raised, ExecResult, StopReason, exhausted, cancelled,
}
use graphed_executors.Submit.Adaptive.{
  ExecContext, Adaptive, Finished, no_futures, submit_batch, finish, consume,
}

-- The run with its window.
pub record Windowed (P E A : Type 0) : Type 0 where
  pub run : Adaptive E A
  pub window : Window (Task P)

-- A round of _completions: what the checks of `_fill` see and the slots read, the future that the
-- queue gives, if any, and the state that the check after a completion sees.
pub record Wake : Type 0 where
  pub polls : List (RunState × ℕ)
  pub got : Option ℕ
  pub state : RunState

pub data Round (P E A : Type 0) : Type 0 where
  over : Outcome E (Finished E A) → Round P E A
  go : Windowed P E A → Round P E A
  unread : Round P E A

module _ {P E A : Type 0} (process : P → Outcome E A) (is_none : A → Bool) (combine : A → A → A)
    (empty : A) (next_tasks : ExecContext → List (Task P)) (stop : ExecContext → Option StopReason)
    (n_entries : P → ℕ) (n_failed : A → ℕ) where
  abbrev pub hold : Windowed P E A → Windowed P E A
  hold w = record {
    run = w.run;
    window = record w.window { held = w.window.held ++ next_tasks w.run.exec_ctx };
  }

  -- StopReason.CANCELLED if window.stopped
  abbrev pub if_stopped : Bool → Option StopReason
  if_stopped true = some cancelled
  if_stopped false = none

  abbrev pub finish_windowed : Windowed P E A → Finished E A
  finish_windowed w =
      finish process is_none combine empty next_tasks stop n_entries n_failed w.run []
        (if_stopped w.window.stopped)

  unfoldable pub after_check : Bool → Option StopReason → Windowed P E A → Round P E A
  unfolding finish
  after_check true reason w = go w
  after_check false none w = go (hold w)
  after_check false (some reason) w = over (
      returned (
        finish process is_none combine empty next_tasks stop n_entries n_failed w.run
          (map (λ p. p.0) w.run.outstanding) (some reason)))

  unfoldable pub take_completion :
      Option (Outcome E A) → Windowed P E A → ℕ → ℕ × ℕ → RunState → Round P E A
  unfolding after_check check_cancelled
  take_completion none w fut of_task state = go w
  take_completion (some (raised e)) w fut of_task state = over (raised e)
  take_completion (some (returned partial)) w fut of_task state =
      let run =
        consume process is_none combine empty next_tasks stop n_entries n_failed w.run fut of_task
          partial in
      let (window, is_cancelled) = check_cancelled w.window state in
      after_check is_cancelled (stop run.exec_ctx) (record { run = run; window = window })

  -- if fut in outstanding: yield fut
  unfoldable pub take_got : Option ℕ → Windowed P E A → RunState → Round P E A
  unfolding take_completion
  take_got none w state = go w
  take_got (some fut) w state = elim (get w.run.outstanding fut) [
    | none ↦ go w
    | some of_task ↦ take_completion (get_elem? w.run.futs fut) w fut of_task state
  ]

  unfoldable pub after_fill : Dict ℕ (ℕ × ℕ) → List (Task P) → Windowed P E A → Wake → Round P E A
  unfolding take_got finish
  after_fill [] [] w wake = over (returned (finish_windowed w))
  after_fill [] (t ∷ held) w wake = go w
  after_fill (p ∷ ps) held w wake = take_got wake.got w wake.state

  -- if window.held: self._fill(window, in_flight(), start)
  unfoldable pub fill_held : List (Task P) → Windowed P E A → Wake → Option (Windowed P E A)
  unfolding fill submit_batch
  fill_held [] w wake = some w
  fill_held (t ∷ held) w wake =
      elim (fill wake.polls
        (record { window = w.window; started = []; in_flight = length w.run.outstanding })) [
          | none ↦ none
          | some f ↦ some (record {
            run =
                submit_batch process is_none combine empty next_tasks stop n_entries n_failed w.run
                  f.started;
            window = f.window;
          })
        ]

  unfoldable pub windowed_round : Windowed P E A → Wake → Round P E A
  unfolding fill_held after_fill
  windowed_round w wake = elim (fill_held w.window.held w wake) [
    | none ↦ unread
    | some w' ↦ after_fill w'.run.outstanding w'.window.held w' wake
  ]

  -- None while the run goes on at the end of the rounds, or a round's polls run out.
  unfoldable pub run_rounds : List Wake → Windowed P E A → Option (Outcome E (Finished E A))
  unfolding windowed_round
  run_rounds [] w = none
  run_rounds (wake ∷ wakes) w = elim (windowed_round w wake) [
    | over outcome ↦ some outcome
    | go w' ↦ run_rounds wakes w'
    | unread ↦ none
  ]

  unfoldable pub run_adaptive_windowed : ℕ → ℕ → List Wake → Option (Outcome E (Finished E A))
  unfolding run_rounds new_window no_futures
  run_adaptive_windowed maxsize slots wakes =
      run_rounds wakes
        (hold (record { run = no_futures; window = new_window maxsize true slots [] }))
