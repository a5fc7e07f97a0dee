-- ===== src/Submit/Stages/Edges.antt =====
-- The two ways in which a map result reaches a gather in a staged run of submit/engine.py: picked in a
-- task beside it, or fetched by the driver.
use graphed_executors.Prelude.{ℕ, ◌≡◌, List, Option, some, get_elem?, nat_eq}
use graphed_executors.Submit.Futures.{Task, Outcome, returned, raised}
use graphed_executors.Submit.Stages.{
  Output, Settled, settled, stopped_at, failed, waiting, key_error,
}
use graphed_executors.Submit.Stages.Waited.{Waited}

module _ {E M B : Type 0} where
  abbrev Unfailed : List (Outcome E (Output M B)) → ℕ → Type 0
  Unfailed futs f = (e : E) → get_elem? futs f ≡ some (raised e) → ⊥

  abbrev Landed : List (Outcome E (Output M B)) → ℕ → Type 0
  Landed futs f = (v : Output M B) × (get_elem? futs f ≡ some (returned v))

module _ {E M B : Type 0} where
  -- A settle submits nothing.
  abbrev KeepsStages : List (List ℕ) → Settled E M B → Type 0
  KeepsStages stage_futs (settled s queue) = s.stage_futs ≡ stage_futs
  KeepsStages stage_futs (stopped_at s) = Unit
  KeepsStages stage_futs (failed e) = Unit
  KeepsStages stage_futs waiting = Unit
  KeepsStages stage_futs key_error = Unit

module _ {P E A M B : Type 0} (split : B → M) (pick : M → ℕ → B)
    (process : ℕ → Task P → List B → Outcome E B) (value : List (Output M B) → A) where
  abbrev Got : Option (Outcome E (List (Output M B))) → Type 0
  Got fetch = (vs : List (Output M B)) × (fetch ≡ some (returned vs))
