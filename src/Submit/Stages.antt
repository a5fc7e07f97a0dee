-- ===== src/Submit/Stages.antt =====
-- _run_stages of submit/engine.py: the stages of a plan, each submitted once the stages that it
-- reads have finished. A future is its number among the stage tasks.
pub mod Settle
pub mod Counts
pub mod Waited
pub mod Edges
use graphed_executors.Prelude.{
  ℕ, suc, ◌+◌, List, [], ◌∷◌, ◌++◌, Option, none, some, map, Bool, true, false, if◌then◌else◌,
  get_elem?, nat_eq, length,
}
use graphed_executors.Prelude.Dict.{Dict, get, put, pop}
use graphed_executors.Reduce.Eager.{discard}
use graphed_executors.Submit.Futures.{
  Task, Outcome, returned, raised, ExecResult, StopReason, exhausted, cancelled,
}

pub record Stage (P : Type 0) : Type 0 where
  pub is_map : Bool
  pub inputs : List ℕ
  pub tasks : List (Task P)

-- What a stage task leads to: a map_write task's payload split by destination, or a payload.
pub data Output (M B : Type 0) : Type 0 where
  sliced : M → Output M B
  whole : B → Output M B

-- `outstanding` has, of each task not yet seen done, whether its stage has inputs; `ran` counts the
-- tasks of stages with no inputs, `ran_on` the others.
pub record Staged (E M B : Type 0) : Type 0 where
  pub futs : List (Outcome E (Output M B))
  pub outstanding : Dict ℕ Bool
  pub stage_futs : List (List ℕ)
  pub ran : ℕ
  pub ran_on : ℕ

-- bool(stage.inputs)
abbrev pub has_inputs : List ℕ → Bool
has_inputs [] = false
has_inputs (i ∷ is) = true

unfoldable pub none_staged : {E M B : Type 0} → Staged E M B
none_staged = record { futs = []; outstanding = []; stage_futs = []; ran = 0; ran_on = 0 }

-- How `settle` ends: with what the queue still gives, by a cancel, by a failure, or not yet. A
-- future that is not outstanding is a KeyError.
pub data Settled (E M B : Type 0) : Type 0 where
  settled : Staged E M B → List (ℕ × Bool) → Settled E M B
  stopped_at : Staged E M B → Settled E M B
  failed : E → Settled E M B
  waiting key_error : Settled E M B

-- [f for i in stage.inputs for f in stage_futs[i]]; none is an IndexError.
unfoldable pub upstream_of : List (List ℕ) → List ℕ → Option (List ℕ)
upstream_of stage_futs [] = some []
upstream_of stage_futs (i ∷ inputs) = elim (get_elem? stage_futs i) [
  | none ↦ none
  | some futs ↦ elim (upstream_of stage_futs inputs) [
    | none ↦ none
    | some rest ↦ some (futs ++ rest)
  ]
]

-- stage_futs[-1]; none is an IndexError.
unfoldable pub last_futs : List (List ℕ) → Option (List ℕ)
last_futs [] = none
last_futs (futs ∷ []) = some futs
last_futs (futs ∷ next ∷ rest) = last_futs (next ∷ rest)

module _ {E M B : Type 0} where
  -- ran[outstanding.pop(fut)] += 1
  unfoldable pub count_done : Staged E M B → ℕ → Option Bool → Staged E M B
  count_done s fut none = s
  count_done s fut (some false) = record s { outstanding = pop s.outstanding fut; ran = s.ran + 1 }
  count_done s fut (some true) = record s {
    outstanding = pop s.outstanding fut;
    ran_on = s.ran_on + 1;
  }

  -- {f for f in needed if f in outstanding}
  unfoldable pub remaining_of : Staged E M B → List ℕ → List ℕ
  remaining_of s [] = []
  remaining_of s (fut ∷ needed) =
      let rest = remaining_of s needed in
      elim (get s.outstanding fut) [ none ↦ rest | some has_inputs ↦ fut ∷ rest ]

  -- What follows the pop of a completed future.
  unfoldable pub after_done :
      Option (Outcome E (Output M B)) → Bool → Staged E M B → Settled E M B → Settled E M B
  after_done (some (raised e)) is_cancelled s rest = failed e
  after_done (some (returned v)) true s rest = stopped_at s
  after_done (some (returned v)) false s rest = rest
  after_done none is_cancelled s rest = key_error

  unfoldable pub settle_at : Option Bool → Staged E M B → ℕ → Bool → Settled E M B → Settled E M B
  unfolding after_done count_done
  settle_at none s fut is_cancelled rest = key_error
  settle_at (some has_inputs) s fut is_cancelled rest =
      after_done (get_elem? s.futs fut) is_cancelled (count_done s fut (some has_inputs)) rest

  -- while remaining: each completion with whether the control is cancelled after it.
  unfoldable pub settle_loop : List (ℕ × Bool) → List ℕ → Staged E M B → Settled E M B
  unfolding settle_at count_done discard
  settle_loop queue [] s = settled s queue
  settle_loop [] (r ∷ remaining) s = waiting
  settle_loop ((fut, is_cancelled) ∷ queue) (r ∷ remaining) s =
      let rest =
        settle_loop queue (discard (r ∷ remaining) fut)
          (count_done s fut (get s.outstanding fut)) in
      settle_at (get s.outstanding fut) s fut is_cancelled rest

  unfoldable pub settle : List (ℕ × Bool) → List ℕ → Staged E M B → Settled E M B
  unfolding settle_loop remaining_of
  settle queue needed s = settle_loop queue (remaining_of s needed) s

  -- The outcomes of futures, or the first failure; none is a future that is not there.
  unfoldable pub gather_results :
      List (Outcome E (Output M B)) → List ℕ → Option (Outcome E (List (Output M B)))
  gather_results futs [] = some (returned [])
  gather_results futs (f ∷ fs) = elim (get_elem? futs f) [
    | none ↦ none
    | some (raised e) ↦ some (raised e)
    | some (returned v) ↦ elim (gather_results futs fs) [
      | none ↦ none
      | some (raised e) ↦ some (raised e)
      | some (returned vs) ↦ some (returned (v ∷ vs))
    ]
  ]

  -- The outcomes of futures; none is a future that is not there.
  unfoldable pub outcomes_of :
      List (Outcome E (Output M B)) → List ℕ → Option (List (Outcome E (Output M B)))
  outcomes_of futs [] = some []
  outcomes_of futs (f ∷ fs) = elim (get_elem? futs f) [
    | none ↦ none
    | some o ↦ elim (outcomes_of futs fs) [ none ↦ none | some os ↦ some (o ∷ os) ]
  ]

-- The values of the inputs of a task, or its first failed input's failure.
unfoldable pub all_of : {E X : Type 0} → List (Outcome E X) → Outcome E (List X)
all_of [] = returned []
all_of (raised e ∷ os) = raised e
all_of (returned x ∷ os) = elim (all_of os) [
  | raised e ↦ raised e
  | returned xs ↦ returned (x ∷ xs)
]

-- plan.stages[i].kind == "map_write"
abbrev pub is_map_at : {P : Type 0} → Option (Stage P) → Bool
is_map_at none = false
is_map_at (some stage) = stage.is_map

-- The inputs that are map stages.
abbrev pub map_inputs : {P : Type 0} → List (Stage P) → List ℕ → List ℕ
map_inputs stages [] = []
map_inputs stages (i ∷ is) =
    let rest = map_inputs stages is in if is_map_at (get_elem? stages i) then i ∷ rest else rest

module _ {P E A M B : Type 0} (split : B → M) (pick : M → ℕ → B)
    (process : ℕ → Task P → List B → Outcome E B) (value : List (Output M B) → A) where
  -- Driver edge: pick(m, task.key) of a fetched map result, a payload as it is.
  abbrev pub input_for : ℕ → Output M B → B
  input_for key (sliced m) = pick m key
  input_for key (whole b) = b

  abbrev pub inputs_here : ℕ → Outcome E (List (Output M B)) → Outcome E (List B)
  inputs_here key (raised e) = raised e
  inputs_here key (returned outputs) = returned (map (input_for key) outputs)

  -- Worker edge: the task that picks from a map result beside it, another stage's future as it is.
  unfoldable pub pick_task : ℕ → Outcome E (Output M B) → Outcome E B
  pick_task key (raised e) = raised e
  pick_task key (returned (sliced m)) = returned (pick m key)
  pick_task key (returned (whole b)) = returned b

  -- What the inputs of the task with a key lead to, by the edge.
  unfoldable pub args : Bool → List (Outcome E (Output M B)) → ℕ → Outcome E (List B)
  unfolding pick_task all_of
  args true outcomes key = all_of (map (pick_task key) outcomes)
  args false outcomes key = inputs_here key (all_of outcomes)

  abbrev pub output_as : Bool → Outcome E B → Outcome E (Output M B)
  output_as is_map (raised e) = raised e
  output_as true (returned b) = returned (sliced (split b))
  output_as false (returned b) = returned (whole b)

  -- _map_task or _stage_task on what the inputs lead to.
  unfoldable pub stage_task : ℕ → Bool → Task P → Outcome E (List B) → Outcome E (Output M B)
  stage_task at is_map task (raised e) = raised e
  stage_task at is_map task (returned inputs) = output_as is_map (process at task inputs)

  unfoldable pub submit_one :
      ℕ → Stage P → (ℕ → Outcome E (List B)) → Staged E M B → Task P → Staged E M B
  unfolding stage_task
  submit_one at stage inputs s t = record {
    futs = s.futs ++ stage_task at stage.is_map t (inputs t.key) ∷ [];
    outstanding = put s.outstanding (length s.futs) (has_inputs stage.inputs);
    stage_futs = s.stage_futs;
    ran = s.ran;
    ran_on = s.ran_on;
  }

  -- The submits of one stage, each with its number.
  unfoldable pub submit_stage :
      ℕ → Stage P → (ℕ → Outcome E (List B)) → Staged E M B → List (Task P) → List ℕ → Staged E M B
  unfolding submit_one
  submit_stage at stage inputs s [] futs = record s { stage_futs = s.stage_futs ++ futs ∷ [] }
  submit_stage at stage inputs s (t ∷ tasks) futs =
      submit_stage at stage inputs (submit_one at stage inputs s t) tasks
        (futs ++ length s.futs ∷ [])

  -- A run that has ended: a value, or what it raises; none while it waits, or a key or an index that
  -- is not there.
  abbrev pub Ended : Type 0
  Ended = Option (Outcome E (ExecResult (Option A)))

  abbrev pub cancelled_run : Staged E M B → Ended
  cancelled_run s = some (
      returned
        (record { value = none; n_partitions = s.ran; n_combines = s.ran_on; stopped = cancelled }))

  -- The map results that the driver fetches, of the stages that a stage reads.
  unfoldable pub fetched :
      List (Stage P) → Staged E M B → List ℕ → Option (Outcome E (List (Output M B)))
  unfolding gather_results upstream_of
  fetched stages s inputs = elim (upstream_of s.stage_futs (map_inputs stages inputs)) [
    | none ↦ none
    | some futs ↦ gather_results s.futs futs
  ]

  -- The submits of a stage, once its inputs are there: the driver's fetch raises a failed one.
  unfoldable pub submit_after :
      Bool
      → Option (Outcome E (List (Output M B)))
      → Option (List (Outcome E (Output M B)))
      → ℕ
      → Stage P
      → Staged E M B
      → (Staged E M B → Ended)
      → Ended
  unfolding submit_stage args
  submit_after peer none outcomes at stage s on = none
  submit_after peer (some (raised e)) outcomes at stage s on = some (raised e)
  submit_after peer (some (returned fetch)) none at stage s on = none
  submit_after peer (some (returned fetch)) (some outcomes) at stage s on =
      on (submit_stage at stage (args peer outcomes) s stage.tasks [])

  unfoldable pub finish_stages : Option (Outcome E (List (Output M B))) → Staged E M B → Ended
  finish_stages none s = none
  finish_stages (some (raised e)) s = some (raised e)
  finish_stages (some (returned last)) s = some (
      returned (record {
        value = some (value last);
        n_partitions = s.ran;
        n_combines = s.ran_on;
        stopped = exhausted;
      }))

  unfoldable pub last_results : Settled E M B → Ended
  unfolding finish_stages last_futs
  last_results waiting = none
  last_results key_error = none
  last_results (failed e) = some (raised e)
  last_results (stopped_at s) = cancelled_run s
  last_results (settled s queue) = elim (last_futs s.stage_futs) [
    | none ↦ none
    | some futs ↦ finish_stages (gather_results s.futs futs) s
  ]

module _ {P E A M B : Type 0} (split : B → M) (pick : M → ℕ → B)
    (process : ℕ → Task P → List B → Outcome E B) (value : List (Output M B) → A)
    (peer : Bool) where
  -- A stage whose upstream is settled, unless the control's wait finds the run cancelled.
  unfoldable pub enter :
      List (Stage P)
      → Settled E M B
      → Bool
      → ℕ
      → Stage P
      → List ℕ
      → (List (ℕ × Bool) → Staged E M B → Ended split pick process value)
      → Ended split pick process value
  unfolding submit_after fetched outcomes_of
  enter stages waiting is_cancelled at stage upstream on = none
  enter stages key_error is_cancelled at stage upstream on = none
  enter stages (failed e) is_cancelled at stage upstream on = some (raised e)
  enter stages (stopped_at s) is_cancelled at stage upstream on =
      cancelled_run split pick process value s
  enter stages (settled s queue) true at stage upstream on =
      cancelled_run split pick process value s
  enter stages (settled s queue) false at stage upstream on =
      submit_after split pick process value peer
        (if peer
          then some (returned [])
          else fetched split pick process value stages s stage.inputs)
        (outcomes_of s.futs upstream) at stage s (on queue)

  -- From stage `at` on; `waits` says of each stage whether its control.wait() finds a cancel.
  unfoldable pub run_from :
      List (Stage P)
      → (ℕ → Bool)
      → ℕ
      → List (Stage P)
      → List (ℕ × Bool)
      → Staged E M B
      → Ended split pick process value
  unfolding enter last_results settle
  run_from stages waits at [] queue s =
      last_results split pick process value (settle queue (map (λ p. p.0) s.outstanding) s)
  run_from stages waits at (stage ∷ later) queue s = elim (upstream_of s.stage_futs stage.inputs) [
    | none ↦ none
    | some upstream ↦
        enter stages (settle queue upstream s) (waits at) at stage upstream
          (run_from stages waits (suc at) later)
  ]

  unfoldable pub run_stages :
      List (Stage P) → (ℕ → Bool) → List (ℕ × Bool) → Ended split pick process value
  unfolding run_from none_staged
  run_stages stages waits queue = run_from stages waits 0 stages queue none_staged
