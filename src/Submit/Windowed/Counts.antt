-- ===== src/Submit/Windowed/Counts.antt =====
-- What a windowed adaptive run of submit/engine.py consumes of what it submits.
use graphed_executors.Prelude.{
  ℕ, ◌≡◌, refl, sym, ap, List, [], ◌∷◌, Option, none, some, map, Bool, true, false, get_elem?,
  nat_eq, length, inl, inr,
}
use graphed_executors.Prelude.Dict.{Dict, get}
use graphed_executors.Window.{RunState, Filled, fill}
use graphed_executors.Submit.Futures.{Task, Outcome, returned, raised, StopReason}
use graphed_executors.Submit.Adaptive.{ExecContext, Finished, submit_batch, finish}
use graphed_executors.Submit.Adaptive.Counts.{
  IsCounted, submit_batch-IsCounted, consume-IsCounted, finish-Accounted, Accounted,
  no_futures-IsCounted,
}
use graphed_executors.Submit.Windowed.{
  Windowed, Wake, Round, over, go, unread, if_stopped, after_check, take_completion, take_got,
  after_fill, fill_held, windowed_round, run_rounds, run_adaptive_windowed,
}

module _ {P E A : Type 0} (process : P → Outcome E A) (is_none : A → Bool) (combine : A → A → A)
    (empty : A) (next_tasks : ExecContext → List (Task P)) (stop : ExecContext → Option StopReason)
    (n_entries : P → ℕ) (n_failed : A → ℕ) where
  abbrev Counted : Windowed P E A → Type 0
  Counted w = IsCounted process is_none combine empty next_tasks stop n_entries n_failed w.run

  abbrev Fine : Outcome E (Finished E A) → Type 0
  Fine (raised e) = Unit
  Fine (returned f) = Accounted is_none combine empty stop f

  abbrev FineRound : Round P E A → Type 0
  FineRound (over outcome) = Fine outcome
  FineRound (go w) = Counted w
  FineRound unread = Unit

  abbrev FineRun : Option (Outcome E (Finished E A)) → Type 0
  FineRun none = Unit
  FineRun (some outcome) = Fine outcome

  after_check-Fine :
      (is_cancelled : Bool) (reason : Option StopReason) (w : Windowed P E A)
      → Counted w
      → stop w.run.exec_ctx ≡ reason
      → FineRound (
          after_check process is_none combine empty next_tasks stop n_entries n_failed is_cancelled
            reason w)
  unfolding after_check finish
  after_check-Fine true reason w c e = c
  after_check-Fine false none w c e = c
  after_check-Fine false (some reason) w c e =
      finish-Accounted process is_none combine empty next_tasks stop n_entries n_failed w.run
        (map (λ p. p.0) w.run.outstanding) (some reason) c refl (inr (w.run.exec_ctx, e))

  take_completion-Fine :
      (o : Option (Outcome E A)) (w : Windowed P E A) (fut : ℕ) (of_task : ℕ × ℕ) (state : RunState)
      → Counted w
      → get w.run.outstanding fut ≡ some of_task
      → get_elem? w.run.futs fut ≡ o
      → FineRound (
          take_completion process is_none combine empty next_tasks stop n_entries n_failed o w fut
            of_task state)
  unfolding take_completion
  take_completion-Fine none w fut of_task state c found result = c
  take_completion-Fine (some (raised e)) w fut of_task state c found result = tt
  take_completion-Fine (some (returned partial)) w fut of_task state c found result =
      after_check-Fine _ _ _
        (consume-IsCounted process is_none combine empty next_tasks stop n_entries n_failed w.run
          fut of_task partial c found result)
        refl

  take_got-Fine :
      (got : Option ℕ) (w : Windowed P E A) (state : RunState)
      → Counted w
      → FineRound
          (take_got process is_none combine empty next_tasks stop n_entries n_failed got w state)
  unfolding take_got
  take_got-Fine none w state c = c
  take_got-Fine (some fut) w state c = of_found (get w.run.outstanding fut) refl
    where
      of_found :
          (o : Option (ℕ × ℕ))
          → get w.run.outstanding fut ≡ o
          → FineRound (elim o [
            | none ↦ go w
            | some of_task ↦
                take_completion process is_none combine empty next_tasks stop n_entries n_failed
                  (get_elem? w.run.futs fut)
                  w
                  fut
                  of_task
                  state
          ])
      of_found none e = c
      of_found (some of_task) e = take_completion-Fine _ w fut of_task state c e refl

  after_fill-Fine :
      (d : Dict ℕ (ℕ × ℕ)) (held : List (Task P)) (w : Windowed P E A) (wake : Wake)
      → Counted w
      → w.run.outstanding ≡ d
      → FineRound (
          after_fill process is_none combine empty next_tasks stop n_entries n_failed d held w wake)
  unfolding after_fill finish
  after_fill-Fine [] [] w wake c e =
      finish-Accounted process is_none combine empty next_tasks stop n_entries n_failed w.run []
        (if_stopped process is_none combine empty next_tasks stop n_entries n_failed
          w.window.stopped)
        c (ap (map (λ p. p.0)) e) (inl refl)
  after_fill-Fine [] (t ∷ held) w wake c e = c
  after_fill-Fine (p ∷ ps) held w wake c e = take_got-Fine wake.got w wake.state c

  abbrev CountedAll : Option (Windowed P E A) → Type 0
  CountedAll none = Unit
  CountedAll (some w) = Counted w

  fill_held-Counted :
      (held : List (Task P)) (w : Windowed P E A) (wake : Wake)
      → Counted w
      → CountedAll
          (fill_held process is_none combine empty next_tasks stop n_entries n_failed held w wake)
  unfolding fill_held
  fill_held-Counted [] w wake c = c
  fill_held-Counted (t ∷ held) w wake c = of_fill (
      fill wake.polls
        (record { window = w.window; started = []; in_flight = length w.run.outstanding }))
    where
      of_fill :
          (o : Option (Filled (Task P)))
          → CountedAll (elim o [
            | none ↦ none
            | some f ↦ some (record {
              run =
                  submit_batch process is_none combine empty next_tasks stop n_entries n_failed
                    w.run f.started;
              window = f.window;
            })
          ])
      of_fill none = tt
      of_fill (some f) =
          submit_batch-IsCounted process is_none combine empty next_tasks stop n_entries n_failed
            w.run f.started c

  windowed_round-Fine :
      (w : Windowed P E A) (wake : Wake)
      → Counted w
      → FineRound
          (windowed_round process is_none combine empty next_tasks stop n_entries n_failed w wake)
  unfolding windowed_round
  windowed_round-Fine w wake c =
      of_filled
        (fill_held process is_none combine empty next_tasks stop n_entries n_failed w.window.held w
          wake)
        (fill_held-Counted w.window.held w wake c)
    where
      of_filled :
          (o : Option (Windowed P E A))
          → CountedAll o
          → FineRound (elim o [
            | none ↦ unread
            | some w' ↦
                after_fill process is_none combine empty next_tasks stop n_entries n_failed
                  w'.run.outstanding w'.window.held w' wake
          ])
      of_filled none c' = tt
      of_filled (some w') c' = after_fill-Fine w'.run.outstanding w'.window.held w' wake c' refl

  run_rounds-Fine :
      (wakes : List Wake) (w : Windowed P E A)
      → Counted w
      → FineRun
          (run_rounds process is_none combine empty next_tasks stop n_entries n_failed wakes w)
  unfolding run_rounds
  run_rounds-Fine [] w c = tt
  run_rounds-Fine (wake ∷ wakes) w c =
      next (windowed_round process is_none combine empty next_tasks stop n_entries n_failed w wake)
        (windowed_round-Fine w wake c) (λ w' c'. run_rounds-Fine wakes w' c')
    where
      next :
          (r : Round P E A)
          → FineRound r
          → ((w' : Windowed P E A)
              → Counted w'
              → FineRun (
                  run_rounds process is_none combine empty next_tasks stop n_entries n_failed wakes
                    w'))
          → FineRun (elim r [
            | over outcome ↦ some outcome
            | go w' ↦
                run_rounds process is_none combine empty next_tasks stop n_entries n_failed wakes w'
            | unread ↦ none
          ])
      next (over outcome) fine on = fine
      next (go w') fine on = on w' fine
      next unread fine on = tt

  of_run :
      (run : Option (Outcome E (Finished E A))) (f : Finished E A)
      → FineRun run
      → run ≡ some (returned f)
      → Accounted is_none combine empty stop f
  of_run none f fine e = cc
  of_run (some (raised x)) f fine e = cc
  of_run (some (returned g)) f fine e = let same : g ≡ f = cc in rw (sym same) fine

  -- A windowed run that returns, whatever it is paused, resumed and cancelled, has consumed distinct
  -- futures of those that it submitted, each with what it led to, and cancelled the others: none is
  -- both, and together they are as many as it submitted. Its partition count is that of the consumed
  -- ones, its value and its combines those of running_fold over their values, and it cancels futures
  -- only where the plan's stop rule met the reason that it gives.
  pub run_adaptive_windowed_counts :
      (maxsize slots : ℕ) (wakes : List Wake) (f : Finished E A)
      → run_adaptive_windowed process is_none combine empty next_tasks stop n_entries n_failed
          maxsize slots wakes
        ≡ some (returned f)
      → Accounted is_none combine empty stop f
  unfolding run_adaptive_windowed
  run_adaptive_windowed_counts maxsize slots wakes f ran =
      of_run _ f
        (run_rounds-Fine wakes _
          (no_futures-IsCounted process is_none combine empty next_tasks stop n_entries n_failed))
        ran
