-- ===== src/Examples/Dispatch.antt =====
-- Runs of _window.py, of _fill of submit/engine.py, and of _plan_queue.py.
use graphed_executors.Prelude.{
  ℕ, ◌≤◌, ◌≡◌, ◌↔◌, refl, [], ◌∷◌, ◌++◌, some, none, true, false, arith,
}
use graphed_executors.Window.{Window, running, Filled, fill, fill_keeps}
use graphed_executors.PlanQueue.{
  PlanQueue, Reach, opened, then_step, submitted, started, closed, start, close, submit, unfinished,
  submit_bound, new_queue,
}

abbrev three_held : Window ℕ
three_held = record {
  control = true;
  size = 2;
  held = 7 ∷ 8 ∷ 9 ∷ [];
  stopped = false;
  was_paused = false;
}

abbrev nothing_started : Filled ℕ
nothing_started = record { window = three_held; started = []; in_flight = 0 }

fill_keeps_example :
    (g : Filled ℕ) × (fill ((running, 3) ∷ (running, 3) ∷ []) nothing_started ≡ some g)
    × (g.started ++ g.window.held ≡ 7 ∷ 8 ∷ 9 ∷ [])
fill_keeps_example =
    fill_keeps 3 ((running, 3) ∷ (running, 3) ∷ []) nothing_started
      (((λ e. cc), omega arith), (((λ e. cc), omega arith), tt)) (omega arith) (omega arith)

abbrev fresh : PlanQueue
fresh = record { max_in_flight = 2; slots = 2; driver = none; closing = [] }

abbrev one_submitted : PlanQueue
one_submitted = record {
  max_in_flight = 2;
  slots = 1;
  driver = some (record { queued = 42 ∷ []; active = none });
  closing = [];
}

-- The first plan runs on while a second driver has another.
abbrev two_drivers : PlanQueue
two_drivers = record {
  max_in_flight = 2;
  slots = 0;
  driver = some (record { queued = 43 ∷ []; active = none });
  closing = record { queued = []; active = some 42 } ∷ [];
}

abbrev closed_queue : PlanQueue
closed_queue = record {
  max_in_flight = 2;
  slots = 1;
  driver = none;
  closing = record { queued = []; active = some 42 } ∷ [];
}

abbrev one_running : PlanQueue
one_running = record {
  max_in_flight = 2;
  slots = 1;
  driver = some (record { queued = []; active = some 42 });
  closing = [];
}

fresh-opened : new_queue 2 ≡ some fresh
unfolding new_queue
fresh-opened = refl

submitted-one : submit fresh 42 ≡ some one_submitted
unfolding submit
submitted-one = refl

started-one : start one_submitted none ≡ some one_running
unfolding start
started-one = refl

closed-one : close one_running ≡ closed_queue
unfolding close
closed-one = refl

submitted-two : submit closed_queue 43 ≡ some two_drivers
unfolding submit
submitted-two = refl

two_drivers-Reach : Reach 2 two_drivers
two_drivers-Reach =
    then_step
      (then_step
        (then_step (then_step (opened fresh-opened) (submitted 42 submitted-one))
          (started none started-one))
        (closed closed-one))
      (submitted 43 submitted-two)

submit_bound_example :
    (unfinished two_drivers ≤ 2) × ((submit two_drivers 44 ≡ none) ↔ (unfinished two_drivers ≡ 2))
submit_bound_example = submit_bound 44 two_drivers-Reach
