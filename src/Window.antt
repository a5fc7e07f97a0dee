-- ===== src/Window.antt =====
-- src/graphed_executors/_window.py: the dispatch window, and the loop that fills it (_fill of
-- submit/engine.py). A held deque is a list from its left end.
use mathlib.Core.List.{append_assoc}
use graphed_executors.Prelude.{
  ℕ, ◌+◌, ◌-◌, ◌<◌, ◌≤◌, ◌≡◌, ◌≢◌, refl, ap, ◌∙◌, All, Bool-cases, inl, inr, List, [], ◌∷◌, ◌++◌,
  Option, none, some, length, min, max, arith, Bool, true, false, not, ◌&&◌, ◌||◌, ltb,
  if◌then◌else◌, take, drop, take-append-drop,
}

-- graphed.core's RunState.
pub data RunState : Type 0 where
  running paused cancelled : RunState

-- `control` says whether the run has a control; a check reads its state then.
pub record Window {ℓ} (A : Type ℓ) : Type ℓ where
  pub control : Bool
  pub size : ℕ
  pub held : List A
  pub stopped : Bool
  pub was_paused : Bool

abbrev is_empty {ℓ} : {A : Type ℓ} → List A → Bool
is_empty [] = true
is_empty (x ∷ xs) = false

abbrev is_cancelled : RunState → Bool
is_cancelled cancelled = true
is_cancelled _ = false

module _ {ℓ} {A : Type ℓ} where
  -- sys.maxsize bounds a window without a control.
  unfoldable pub new_window : ℕ → Bool → ℕ → List A → Window A
  new_window maxsize control size items = record {
    control = control;
    size = if control then size else maxsize;
    held = items;
    stopped = false;
    was_paused = false;
  }

  -- Window.cancelled: the window after the check, and its answer.
  unfoldable pub check_cancelled : Window A → RunState → Window A × Bool
  check_cancelled w state =
      if w.control && is_cancelled state
      then (record w { stopped = true; held = [] }, true)
      else (w, false)

  -- Window.take when the state that counts is `state`.
  unfoldable pub take_in : Window A → RunState → ℕ → Window A × List A
  take_in w running in_flight =
      let k = min (length w.held) (w.size - in_flight) in
      (record w { held = drop k w.held; was_paused = false }, take k w.held)
  take_in w paused in_flight = (record w { was_paused = true }, [])
  take_in w cancelled in_flight =
      (record w { held = []; stopped = w.stopped || not (is_empty w.held); was_paused = false }, [])

  unfoldable pub take_items : Window A → RunState → ℕ → Window A × List A
  unfolding take_in
  take_items w state in_flight = take_in w (if w.control then state else running) in_flight

-- _fill of submit/engine.py. `polls` are the states that the checks of one call see and the slots
-- read after each; `started` collects the items started. none: the polls ran out.
pub record Filled {ℓ} (A : Type ℓ) : Type ℓ where
  pub window : Window A
  pub started : List A
  pub in_flight : ℕ

-- _task_slots: task_slots() where the backend has it, else n_workers().
unfoldable pub read_slots : Option ℕ → ℕ → ℕ
read_slots none n_workers = max 1 n_workers
read_slots (some slots) n_workers = max 1 slots

-- What one take of the loop starts.
unfoldable pub fill_take {ℓ} : {A : Type ℓ} → Filled A → RunState → Filled A
unfolding take_items
fill_take f state =
    let (w, items) = take_items f.window state f.in_flight in
    record { window = w; started = f.started ++ items; in_flight = f.in_flight + length items }

abbrev pub resize {ℓ} : {A : Type ℓ} → Filled A → ℕ → Filled A
resize f slots = record {
  window = record (f.window) { size = slots };
  started = f.started;
  in_flight = f.in_flight;
}

unfoldable pub fill {ℓ} : {A : Type ℓ} → List (RunState × ℕ) → Filled A → Option (Filled A)
fill [] f = none
fill ((state, slots) ∷ polls) f =
    let g = fill_take f state in
    let rest = fill polls (resize g slots) in
    if is_empty g.window.held || ltb g.in_flight g.window.size
    then some g
    else if ltb g.window.size slots
    then rest
    else some (resize g slots)

module _ {A : Type 0} where
  take_items-keeps :
      (w : Window A) (state : RunState) (in_flight : ℕ)
      → state ≢ cancelled
      → (take_items w state in_flight).1 ++ (take_items w state in_flight).0.held ≡ w.held
  unfolding take_items
  take_items-keeps w state in_flight live = elim (Bool-cases w.control) [
    | inl has ↦ rw (has, take_in) (kept state live)
    | inr free ↦ rw (free, take_in) (take-append-drop _ w.held)
  ]
    where
      kept :
          (state : RunState)
          → state ≢ cancelled
          → (take_in w state in_flight).1 ++ (take_in w state in_flight).0.held ≡ w.held
      kept running live = take-append-drop _ w.held
      kept paused live = refl
      kept cancelled live = absurd (live refl)

  fill_take-keeps :
      (f : Filled A) (state : RunState)
      → state ≢ cancelled
      → (fill_take f state).started ++ (fill_take f state).window.held ≡ f.started ++ f.window.held
  unfolding fill_take
  fill_take-keeps f state live =
      append_assoc f.started _ _
      ∙ ap (λ l. f.started ++ l) (take_items-keeps f.window state f.in_flight live)

  take_items-size :
      (w : Window A) (state : RunState) (in_flight : ℕ)
      → (take_items w state in_flight).0.size ≡ w.size
  unfolding take_items
  take_items-size w state in_flight = elim (Bool-cases w.control) [
    | inl has ↦ rw (has, take_in) (kept state)
    | inr free ↦ rw (free, take_in) refl
  ]
    where
      kept : (state : RunState) → (take_in w state in_flight).0.size ≡ w.size
      kept running = refl
      kept paused = refl
      kept cancelled = refl

  -- While the slots that it reads stay within `most` and the run is not cancelled, a call of _fill
  -- ends, starts held work from the left in order, and keeps all the rest held.
  pub fill_keeps :
      (most : ℕ) (polls : List (RunState × ℕ)) (f : Filled A)
      → All (λ poll. (poll.0 ≢ cancelled) × (poll.1 ≤ most)) polls
      → 0 < length polls
      → most < length polls + f.window.size
      → (g : Filled A) × (fill polls f ≡ some g)
        × (g.started ++ g.window.held ≡ f.started ++ f.window.held)
  unfolding fill
  fill_keeps most [] f ok some_poll enough = absurd (omega arith)
  fill_keeps most ((state, slots) ∷ polls) f ok some_poll enough =
      let g : Filled A = fill_take f state in
      let keeps : g.started ++ g.window.held ≡ f.started ++ f.window.held =
        fill_take-keeps f state ok.0.0 in
      let size : g.window.size ≡ f.window.size =
        unfold fill_take in take_items-size f.window state f.in_flight in
      elim (Bool-cases (is_empty g.window.held || ltb g.in_flight g.window.size)) [
        | inl done ↦ (g, rw (done, fill) refl, keeps)
        | inr full ↦ elim (Bool-cases (ltb g.window.size slots)) [
          | inl grew ↦
              let below : f.window.size < slots = ground (arith, size) in
              let (h, run, kept) =
                fill_keeps most polls (resize g slots) ok.1 (omega (arith, ok.0.1)) (omega arith) in
              (h, rw (full, grew, fill) run, kept ∙ keeps)
          | inr same ↦ (resize g slots, rw (full, same, fill) refl, keeps)
        ]
      ]
