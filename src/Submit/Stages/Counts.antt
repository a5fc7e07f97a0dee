-- ===== src/Submit/Stages/Counts.antt =====
-- What a staged run of submit/engine.py counts.
use graphed_executors.Prelude.{
  ℕ, suc, ◌+◌, ◌≡◌, ◌⊎◌, refl, sym, ap, arith, List, [], ◌∷◌, ◌++◌, Option, none, some, Bool, true,
  false, nat_eq, length, length-append, inl, inr,
}
use graphed_executors.Prelude.Dict.{get, Unique-put, get-put, length-put_new}
use graphed_executors.Submit.Futures.{
  Task, Outcome, returned, raised, ExecResult, exhausted, cancelled,
}
use graphed_executors.Submit.Stages.{
  Stage, Output, Staged, none_staged, Settled, settled, stopped_at, failed, waiting, key_error,
  settle, upstream_of, gather_results, submit_stage, submit_one, has_inputs, submit_after, enter,
  last_futs, finish_stages, last_results, run_from, run_stages,
}
use graphed_executors.Submit.Stages.Settle.{
  IsTallied, FineSettled, AllSettled, settle-Fine, settle-AllSettled,
}

-- The tasks of all stages.
abbrev pub n_tasks : {P : Type 0} → List (Stage P) → ℕ
n_tasks [] = 0
n_tasks (stage ∷ stages) = length stage.tasks + n_tasks stages

module _ {P E A M B : Type 0} (split : B → M) (pick : M → ℕ → B)
    (process : ℕ → Task P → List B → Outcome E B) (value : List (Output M B) → A)
    (peer : Bool) where
  fresh : {s : Staged E M B} → IsTallied s → get s.outstanding (length s.futs) ≡ none
  fresh {s} t = at (get s.outstanding (length s.futs)) refl
    where
      at : (o : Option Bool) → get s.outstanding (length s.futs) ≡ o → o ≡ none
      at none e = refl
      at (some v) e = absurd (omega (arith, t.low (length s.futs) v e))

  submit_one-IsTallied :
      (at : ℕ) (stage : Stage P) (inputs : ℕ → Outcome E (List B)) (s : Staged E M B)
      (task : Task P)
      → IsTallied s
      → IsTallied (submit_one split pick process value at stage inputs s task)
        × (length (submit_one split pick process value at stage inputs s task).futs
            ≡ length s.futs + 1)
  unfolding submit_one
  submit_one-IsTallied at stage inputs s task t =
      let size : length (submit_one split pick process value at stage inputs s task).futs
          ≡ length s.futs + 1 =
        length-append s.futs _ in
      (
        record {
          unique = Unique-put s.outstanding (length s.futs) (has_inputs stage.inputs) t.unique;
          low = λ k v e. ground (
            arith,
            size,
            get-put s.outstanding (length s.futs) k (has_inputs stage.inputs),
            t.low k v,
          );
          count = omega (
            arith,
            size,
            t.count,
            length-put_new s.outstanding (length s.futs) (has_inputs stage.inputs) (fresh t),
          );
        },
        size,
      )

  submit_stage-IsTallied :
      (at : ℕ) (stage : Stage P) (inputs : ℕ → Outcome E (List B)) (s : Staged E M B)
      (tasks : List (Task P)) (futs : List ℕ)
      → IsTallied s
      → IsTallied (submit_stage split pick process value at stage inputs s tasks futs)
        × (length (submit_stage split pick process value at stage inputs s tasks futs).futs
            ≡ length s.futs + length tasks)
  unfolding submit_stage
  submit_stage-IsTallied at stage inputs s [] futs t =
      (record { unique = t.unique; low = t.low; count = t.count }, omega arith)
  submit_stage-IsTallied at stage inputs s (task ∷ tasks) futs t =
      let (t', one) = submit_one-IsTallied at stage inputs s task t in
      let (t'', more) =
        submit_stage-IsTallied at stage inputs
          (submit_one split pick process value at stage inputs s task) tasks
          (futs ++ length s.futs ∷ []) t' in
      (t'', omega (arith, one, more))

  -- How a run over so many tasks ends.
  abbrev IsCounted : ℕ → ExecResult (Option A) → Type 0
  IsCounted total r =
      ((r.stopped ≡ cancelled) × (r.value ≡ none))
      ⊎ ((r.stopped ≡ exhausted) × (r.n_partitions + r.n_combines ≡ total))

  abbrev FineEnd : ℕ → Option (Outcome E (ExecResult (Option A))) → Type 0
  FineEnd total none = Unit
  FineEnd total (some (raised e)) = Unit
  FineEnd total (some (returned r)) = IsCounted total r

  finish_stages-Fine :
      (total : ℕ) (o : Option (Outcome E (List (Output M B)))) (s : Staged E M B)
      → s.ran + s.ran_on ≡ total
      → FineEnd total (finish_stages split pick process value o s)
  unfolding finish_stages
  finish_stages-Fine total none s all = tt
  finish_stages-Fine total (some (raised e)) s all = tt
  finish_stages-Fine total (some (returned last)) s all = inr (refl, all)

  last_results-Fine :
      (total : ℕ) (s0 : Staged E M B) (end : Settled E M B)
      → length s0.futs ≡ total
      → FineSettled s0 end
      → AllSettled end
      → FineEnd total (last_results split pick process value end)
  unfolding last_results
  last_results-Fine total s0 waiting size fine empty = tt
  last_results-Fine total s0 key_error size fine empty = tt
  last_results-Fine total s0 (failed e) size fine empty = tt
  last_results-Fine total s0 (stopped_at s) size fine empty = inl (refl, refl)
  last_results-Fine total s0 (settled s queue) size fine empty = of_last (last_futs s.stage_futs)
    where
      none_left : length s.outstanding ≡ 0
      none_left = ap length empty

      of_last :
          (o : Option (List ℕ))
          → FineEnd total (elim o [
            | none ↦ none
            | some futs ↦ finish_stages split pick process value (gather_results s.futs futs) s
          ])
      of_last none = tt
      of_last (some futs) =
          finish_stages-Fine total (gather_results s.futs futs) s
            (omega (arith, size, fine.1, fine.0.count, none_left))

  submit_after-Fine :
      (peer : Bool) (total : ℕ) (fetch : Option (Outcome E (List (Output M B))))
      (outcomes : Option (List (Outcome E (Output M B)))) (at : ℕ) (stage : Stage P)
      (s : Staged E M B) (on : Staged E M B → Option (Outcome E (ExecResult (Option A))))
      → IsTallied s
      → ((s' : Staged E M B)
          → IsTallied s'
          → length s'.futs ≡ length s.futs + length stage.tasks
          → FineEnd total (on s'))
      → FineEnd total (submit_after split pick process value peer fetch outcomes at stage s on)
  unfolding submit_after
  submit_after-Fine peer total none outcomes at stage s on t fine = tt
  submit_after-Fine peer total (some (raised e)) outcomes at stage s on t fine = tt
  submit_after-Fine peer total (some (returned v)) none at stage s on t fine = tt
  submit_after-Fine peer total (some (returned v)) (some outcomes) at stage s on t fine =
      let (t', size) = submit_stage-IsTallied at stage _ s stage.tasks [] t in fine _ t' size

  enter-Fine :
      (total : ℕ) (stages : List (Stage P)) (s0 : Staged E M B) (end : Settled E M B) (c : Bool)
      (at : ℕ) (stage : Stage P) (upstream : List ℕ)
      (on : List (ℕ × Bool) → Staged E M B → Option (Outcome E (ExecResult (Option A))))
      → FineSettled s0 end
      → ((queue : List (ℕ × Bool)) (s' : Staged E M B)
          → IsTallied s'
          → length s'.futs ≡ length s0.futs + length stage.tasks
          → FineEnd total (on queue s'))
      → FineEnd total (enter split pick process value peer stages end c at stage upstream on)
  unfolding enter
  enter-Fine total stages s0 waiting c at stage upstream on fine next = tt
  enter-Fine total stages s0 key_error c at stage upstream on fine next = tt
  enter-Fine total stages s0 (failed e) c at stage upstream on fine next = tt
  enter-Fine total stages s0 (stopped_at s) c at stage upstream on fine next = inl (refl, refl)
  enter-Fine total stages s0 (settled s queue) true at stage upstream on fine next =
      inl (refl, refl)
  enter-Fine total stages s0 (settled s queue) false at stage upstream on fine next =
      submit_after-Fine peer total _ _ at stage s (on queue) fine.0
        (λ s' t' size. next queue s' t' (omega (arith, size, fine.1)))

  run_from-Fine :
      (total : ℕ) (stages : List (Stage P)) (waits : ℕ → Bool) (at : ℕ) (later : List (Stage P))
      (queue : List (ℕ × Bool)) (s : Staged E M B)
      → IsTallied s
      → length s.futs + n_tasks later ≡ total
      → FineEnd total (run_from split pick process value peer stages waits at later queue s)
  unfolding run_from
  run_from-Fine total stages waits at [] queue s t size =
      last_results-Fine total s _ (omega (arith, size)) (settle-Fine queue _ s t)
        (settle-AllSettled queue s)
  run_from-Fine total stages waits at (stage ∷ later) queue s t size =
      of_upstream (upstream_of s.stage_futs stage.inputs) (λ queue' s' t' size'.
        run_from-Fine total stages waits (suc at) later queue' s' t' (omega (arith, size, size')))
    where
      of_upstream :
          (o : Option (List ℕ))
          → ((queue' : List (ℕ × Bool)) (s' : Staged E M B)
              → IsTallied s'
              → length s'.futs ≡ length s.futs + length stage.tasks
              → FineEnd total
                  (run_from split pick process value peer stages waits (suc at) later queue' s'))
          → FineEnd total (elim o [
            | none ↦ none
            | some upstream ↦
                enter split pick process value peer stages
                  (settle queue upstream s)
                  (waits at)
                  at
                  stage
                  upstream
                  (run_from split pick process value peer stages waits (suc at) later)
          ])
      of_upstream none next = tt
      of_upstream (some upstream) next =
          enter-Fine total stages s (settle queue upstream s) (waits at) at stage upstream _
            (settle-Fine queue upstream s t) next

  of_end :
      (total : ℕ) (run : Option (Outcome E (ExecResult (Option A)))) (r : ExecResult (Option A))
      → FineEnd total run
      → run ≡ some (returned r)
      → IsCounted total r
  of_end total none r fine e = cc
  of_end total (some (raised x)) r fine e = cc
  of_end total (some (returned q)) r fine e = let same : q ≡ r = cc in rw (sym same) fine

  -- A staged run that returns was cancelled and has no value, or is exhausted and has counted every
  -- task of every stage once, whatever the order of the completions.
  pub run_stages_counts :
      (stages : List (Stage P)) (waits : ℕ → Bool) (queue : List (ℕ × Bool))
      (r : ExecResult (Option A))
      → run_stages split pick process value peer stages waits queue ≡ some (returned r)
      → ((r.stopped ≡ cancelled) × (r.value ≡ none))
        ⊎ ((r.stopped ≡ exhausted) × (r.n_partitions + r.n_combines ≡ n_tasks stages))
  unfolding run_stages none_staged
  run_stages_counts stages waits queue r ran =
      of_end (n_tasks stages) _ r
        (run_from-Fine (n_tasks stages) stages waits 0 stages queue none_staged
          (record { unique = tt; low = λ k v e. absurd (unfold get in cc); count = refl })
          (omega arith))
        ran
