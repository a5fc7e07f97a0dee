-- ===== src/Submit/Adaptive/Counts.antt =====
-- What an adaptive run of submit/engine.py consumes of what it submits.
use graphed_executors.Prelude.{
  ℕ, zero, suc, ◌+◌, ◌<◌, ◌≤◌, ◌≡◌, ◌⊎◌, refl, sym, ap, ◌∙◌, arith, List, [], ◌∷◌, ◌++◌, Option,
  none, some, map, nat_eq, length, length-append, length-map, inl, inr, Bool, false, ◌==◌, contains,
  All, All-map, get_elem?, get_elem?_beyond, Option-cases, Bool-cases, map-snoc,
}
use graphed_executors.Prelude.Dict.{
  Dict, get, Unique, Unique-put, Unique-pop, get-put, get-pop, length-pop, length-put_new, put, pop,
  All-get, All-put,
}
use graphed_executors.Reduce.Chain.{running_fold, running_fold-values}
use graphed_executors.Submit.Futures.{Task, Outcome, returned, raised, StopReason}
use graphed_executors.Submit.Adaptive.{
  ExecContext, Adaptive, Finished, Turn, over, go, stopped_or, no_futures, submit_task, consume,
  submit_batch, refill, finish, after_stop, take_result, take_future, turn, at_end, adapt,
  run_adaptive,
}

-- The future of a consumed partial led to it and is no longer outstanding.
abbrev pub Theirs : {E A : Type 0} → List (Outcome E A) → Dict ℕ (ℕ × ℕ) → ℕ × A → Type 0
Theirs futs outstanding p =
    (get_elem? futs p.0 ≡ some (returned p.1)) × (get outstanding p.0 ≡ none)

-- What holds of a run that returns, of the futures that it consumed, by number.
abbrev pub Accounted :
    {E A : Type 0} (is_none : A → Bool) (combine : A → A → A) (empty : A)
    (stop : ExecContext → Option StopReason)
    → Finished E A
    → Type 0
Accounted {A = A} is_none combine empty stop f =
    (consumed : Dict ℕ A) × Unique consumed
    × All (λ p. (get_elem? f.futs p.0 ≡ some (returned p.1)) × (contains f.cancelled p.0 ≡ false))
        consumed
    × (length consumed + length f.cancelled ≡ length f.futs)
    × (f.result.n_partitions ≡ length consumed)
    × (running_fold is_none combine empty consumed ≡ (f.result.value, f.result.n_combines))
    × ((f.cancelled ≡ []) ⊎ ((ctx : ExecContext) × (stop ctx ≡ some f.result.stopped)))

not_below :
    {V : Type 0} (d : Dict ℕ V) (k n : ℕ)
    → ((j : ℕ) (v : V) → get d j ≡ some v → j < n)
    → n ≤ k
    → get d k ≡ none
not_below d k n low beyond = elim (Option-cases (get d k)) [
  | inl gone ↦ gone
  | inr (v, found) ↦ absurd (omega (arith, low k v found))
]

get_elem?-append :
    {X : Type 0} (xs : List X) (x : X) (i : ℕ) {y : X}
    → get_elem? xs i ≡ some y
    → get_elem? (xs ++ x ∷ []) i ≡ some y
get_elem?-append [] x i found = cc
get_elem?-append (z ∷ xs) x zero found = found
get_elem?-append (z ∷ xs) x (suc i) found = get_elem?-append xs x i found

apart :
    {X : Type 0} (xs : List X) (i seq : ℕ) {y : X}
    → get_elem? xs i ≡ some y
    → seq ≡ length xs
    → (seq == i) ≡ false
apart xs i seq found size = elim (Bool-cases (seq == i)) [
  | inl same ↦
      let beyond : get_elem? xs i ≡ none = get_elem?_beyond xs i (ground (arith, size)) in
      absurd (cc)
  | inr differ ↦ differ
]

not_consumed :
    {E A : Type 0} (futs : List (Outcome E A)) (outstanding : Dict ℕ (ℕ × ℕ)) (consumed : Dict ℕ A)
    (fut : ℕ) {of_task : ℕ × ℕ}
    → All (Theirs futs outstanding) consumed
    → get outstanding fut ≡ some of_task
    → get consumed fut ≡ none
not_consumed futs outstanding consumed fut theirs found = elim (Option-cases (get consumed fut)) [
  | inl gone ↦ gone
  | inr (v, held) ↦
      let (result, gone) = All-get (Theirs futs outstanding) consumed fut v theirs held in
      absurd (cc)
]

map-put_new :
    {A : Type 0} (d : Dict ℕ A) (k : ℕ) (v : A)
    → get d k ≡ none
    → map (λ p. p.1) (put d k v) ≡ map (λ p. p.1) d ++ v ∷ []
unfolding get put
map-put_new [] k v new = refl
map-put_new ((j, w) ∷ d) k v new = ground (arith, map-put_new d k v)

contains-keys :
    {V : Type 0} (d : Dict ℕ V) (k : ℕ) → get d k ≡ none → contains (map (λ p. p.0) d) k ≡ false
unfolding get
contains-keys [] k gone = refl
contains-keys ((j, w) ∷ d) k gone = ground (arith, contains-keys d k)

module _ {P E A : Type 0} (process : P → Outcome E A) (is_none : A → Bool) (combine : A → A → A)
    (empty : A) (next_tasks : ExecContext → List (Task P)) (stop : ExecContext → Option StopReason)
    (n_entries : P → ℕ) (n_failed : A → ℕ) where
  -- Every future submitted is consumed or outstanding, once; `consumed` has the number of each future
  -- that was consumed, with its partial.
  pub record IsCounted (s : Adaptive E A) : Type 0 where
    pub unique : Unique s.outstanding
    pub low : (k : ℕ) (v : ℕ × ℕ) → get s.outstanding k ≡ some v → k < length s.futs
    pub numbered : s.seq ≡ length s.futs
    pub consumed : Dict ℕ A
    pub once : Unique consumed
    pub theirs : All (Theirs s.futs s.outstanding) consumed
    pub partials : map (λ p. p.1) s.results ≡ map (λ p. p.1) consumed
    pub count : length s.outstanding + length consumed ≡ length s.futs
    pub done : s.exec_ctx.n_done ≡ length consumed

  pub no_futures-IsCounted : IsCounted no_futures
  unfolding no_futures
  no_futures-IsCounted = record {
    unique = tt;
    low = λ k v e. absurd (unfold get in cc);
    numbered = refl;
    consumed = [];
    once = tt;
    theirs = tt;
    partials = refl;
    count = refl;
    done = refl;
  }

  submit_task-IsCounted :
      (s : Adaptive E A) (t : Task P)
      → IsCounted s
      → IsCounted (submit_task process is_none combine empty next_tasks stop n_entries n_failed s t)
  submit_task-IsCounted s t c =
      let fresh : get s.outstanding s.seq ≡ none =
        not_below s.outstanding s.seq (length s.futs) c.low (omega (arith, c.numbered)) in
      let size : length (s.futs ++ process t.partition ∷ []) ≡ length s.futs + 1 =
        length-append s.futs (process t.partition ∷ []) in
      record {
        unique = Unique-put s.outstanding s.seq (t.key, n_entries t.partition) c.unique;
        low = λ k v e. ground (
          arith,
          get-put s.outstanding s.seq k (t.key, n_entries t.partition),
          c.low k v,
          c.numbered,
          size,
        );
        numbered = omega (arith, c.numbered, size);
        consumed = c.consumed;
        once = c.once;
        theirs =
            All-map _ _ c.consumed
              (λ p (result, gone). (
                get_elem?-append s.futs (process t.partition) p.0 result,
                get-put s.outstanding s.seq p.0 (t.key, n_entries t.partition)
                    ∙ rw (apart s.futs p.0 s.seq result c.numbered) gone,
              ))
              c.theirs;
        partials = c.partials;
        count = omega (
          arith,
          length-put_new s.outstanding s.seq (t.key, n_entries t.partition) fresh,
          c.count,
          size,
        );
        done = c.done;
      }

  pub submit_batch-IsCounted :
      (s : Adaptive E A) (batch : List (Task P))
      → IsCounted s
      → IsCounted
          (submit_batch process is_none combine empty next_tasks stop n_entries n_failed s batch)
  unfolding submit_batch
  submit_batch-IsCounted s [] c = c
  submit_batch-IsCounted s (t ∷ batch) c =
      submit_batch-IsCounted
        (submit_task process is_none combine empty next_tasks stop n_entries n_failed s t) batch
        (submit_task-IsCounted s t c)

  pub consume-IsCounted :
      (s : Adaptive E A) (fut : ℕ) (of_task : ℕ × ℕ) (partial : A)
      → IsCounted s
      → get s.outstanding fut ≡ some of_task
      → get_elem? s.futs fut ≡ some (returned partial)
      → IsCounted (
          consume process is_none combine empty next_tasks stop n_entries n_failed s fut of_task
            partial)
  consume-IsCounted s fut of_task partial c found result =
      let new : get c.consumed fut ≡ none =
        not_consumed s.futs s.outstanding c.consumed fut c.theirs found in
      record {
        unique = Unique-pop s.outstanding fut c.unique;
        low = λ k v e. ground (arith, get-pop s.outstanding fut k, c.low k v);
        numbered = c.numbered;
        consumed = put c.consumed fut partial;
        once = Unique-put c.consumed fut partial c.once;
        theirs =
            All-put (Theirs s.futs (pop s.outstanding fut)) c.consumed fut partial
              (All-map _ _ c.consumed
                (λ p (theirs, gone). (theirs, ground (arith, get-pop s.outstanding fut p.0, gone)))
                c.theirs)
              (result, ground (arith, get-pop s.outstanding fut fut));
        partials =
            map-snoc (λ p. p.1) s.results (of_task.0, partial)
            ∙ ap (λ l. l ++ partial ∷ []) c.partials
            ∙ sym (map-put_new c.consumed fut partial new);
        count = omega (
          arith,
          length-pop s.outstanding fut c.unique found,
          length-put_new c.consumed fut partial new,
          c.count,
        );
        done = omega (arith, length-put_new c.consumed fut partial new, c.done);
      }

  -- A run that ends with what it still waits for cancelled.
  pub finish-Accounted :
      (s : Adaptive E A) (cancelled : List ℕ) (reason : Option StopReason)
      → IsCounted s
      → map (λ p. p.0) s.outstanding ≡ cancelled
      → (cancelled ≡ [])
        ⊎ ((ctx : ExecContext) × (stop ctx
              ≡ some (
                  stopped_or process is_none combine empty next_tasks stop n_entries n_failed
                    reason)))
      → Accounted is_none combine empty stop (
          finish process is_none combine empty next_tasks stop n_entries n_failed s cancelled
            reason)
  unfolding finish
  finish-Accounted s cancelled reason c keys why = (
    c.consumed,
    c.once,
    All-map _ _ c.consumed
        (λ p (result, gone).
          (result, ap (λ l. contains l p.0) (sym keys) ∙ contains-keys s.outstanding p.0 gone))
        c.theirs,
    let size : length s.outstanding ≡ length cancelled =
          sym (length-map (λ p. p.0) s.outstanding) ∙ ap length keys in
        omega (arith, c.count, size),
    c.done,
    running_fold-values is_none combine empty c.consumed s.results (sym c.partials),
    why,
  )

  abbrev Fine : Outcome E (Finished E A) → Type 0
  Fine (raised e) = Unit
  Fine (returned f) = Accounted is_none combine empty stop f

  abbrev FineTurn : Turn E A → Type 0
  FineTurn (over outcome) = Fine outcome
  FineTurn (go s) = IsCounted s

  abbrev FineRun : Option (Outcome E (Finished E A)) → Type 0
  FineRun none = Unit
  FineRun (some outcome) = Fine outcome

  -- Nothing is outstanding.
  finished-Fine :
      (s : Adaptive E A)
      → IsCounted s
      → s.outstanding ≡ []
      → Accounted is_none combine empty stop
          (finish process is_none combine empty next_tasks stop n_entries n_failed s [] none)
  finished-Fine s c none_left =
      finish-Accounted s [] none c (ap (map (λ p. p.0)) none_left) (inl refl)

  after_stop-Fine :
      (reason : Option StopReason) (s : Adaptive E A)
      → IsCounted s
      → stop s.exec_ctx ≡ reason
      → FineTurn
          (after_stop process is_none combine empty next_tasks stop n_entries n_failed reason s)
  unfolding after_stop refill finish
  after_stop-Fine none s c e = submit_batch-IsCounted s (next_tasks s.exec_ctx) c
  after_stop-Fine (some reason) s c e =
      finish-Accounted s (map (λ p. p.0) s.outstanding) (some reason) c refl (inr (s.exec_ctx, e))

  take_result-Fine :
      (o : Option (Outcome E A)) (s : Adaptive E A) (fut : ℕ) (of_task : ℕ × ℕ)
      → IsCounted s
      → get s.outstanding fut ≡ some of_task
      → get_elem? s.futs fut ≡ o
      → FineTurn (
          take_result process is_none combine empty next_tasks stop n_entries n_failed o s fut
            of_task)
  unfolding take_result
  take_result-Fine none s fut of_task c found result = c
  take_result-Fine (some (raised e)) s fut of_task c found result = tt
  take_result-Fine (some (returned partial)) s fut of_task c found result =
      after_stop-Fine _
        (consume process is_none combine empty next_tasks stop n_entries n_failed s fut of_task
          partial)
        (consume-IsCounted s fut of_task partial c found result) refl

  take_future-Fine :
      (o : Option (ℕ × ℕ)) (s : Adaptive E A) (fut : ℕ)
      → IsCounted s
      → get s.outstanding fut ≡ o
      → FineTurn
          (take_future process is_none combine empty next_tasks stop n_entries n_failed o s fut)
  unfolding take_future
  take_future-Fine none s fut c found = c
  take_future-Fine (some of_task) s fut c found = take_result-Fine _ s fut of_task c found refl

  turn-Fine :
      (d : Dict ℕ (ℕ × ℕ)) (s : Adaptive E A) (fut : ℕ)
      → IsCounted s
      → s.outstanding ≡ d
      → FineTurn (turn process is_none combine empty next_tasks stop n_entries n_failed d s fut)
  unfolding turn
  turn-Fine [] s fut c e = finished-Fine s c e
  turn-Fine (p ∷ ps) s fut c e = take_future-Fine _ s fut c refl

  at_end-Fine :
      (d : Dict ℕ (ℕ × ℕ)) (s : Adaptive E A)
      → IsCounted s
      → s.outstanding ≡ d
      → FineRun (at_end process is_none combine empty next_tasks stop n_entries n_failed d s)
  unfolding at_end
  at_end-Fine [] s c e = finished-Fine s c e
  at_end-Fine (p ∷ ps) s c e = tt

  adapt-Fine :
      (arrivals : List ℕ) (s : Adaptive E A)
      → IsCounted s
      → FineRun (adapt process is_none combine empty next_tasks stop n_entries n_failed arrivals s)
  unfolding adapt
  adapt-Fine [] s c = at_end-Fine s.outstanding s c refl
  adapt-Fine (fut ∷ arrivals) s c =
      next
        (turn process is_none combine empty next_tasks stop n_entries n_failed s.outstanding s fut)
        (turn-Fine s.outstanding s fut c refl) (λ s' c'. adapt-Fine arrivals s' c')
    where
      next :
          (t : Turn E A)
          → FineTurn t
          → ((s' : Adaptive E A)
              → IsCounted s'
              → FineRun (
                  adapt process is_none combine empty next_tasks stop n_entries n_failed arrivals
                    s'))
          → FineRun (elim t [
            | over outcome ↦ some outcome
            | go s' ↦
                adapt process is_none combine empty next_tasks stop n_entries n_failed arrivals s'
          ])
      next (over outcome) fine on = fine
      next (go s') fine on = on s' fine

  of_run :
      (run : Option (Outcome E (Finished E A))) (f : Finished E A)
      → FineRun run
      → run ≡ some (returned f)
      → Accounted is_none combine empty stop f
  of_run none f fine e = cc
  of_run (some (raised x)) f fine e = cc
  of_run (some (returned g)) f fine e = let same : g ≡ f = cc in rw (sym same) fine

  -- A run that returns, whatever futures the queue gives, with duplicates and strangers among them,
  -- has consumed distinct futures of those that it submitted, each with what it led to, and cancelled
  -- the others: none is both, and together they are as many as it submitted. Its partition count is
  -- that of the consumed ones, its value and its combines those of running_fold over their values,
  -- and it cancels only where the plan's stop rule met the reason that it gives.
  pub run_adaptive_counts :
      (arrivals : List ℕ) (f : Finished E A)
      → run_adaptive process is_none combine empty next_tasks stop n_entries n_failed arrivals
        ≡ some (returned f)
      → Accounted is_none combine empty stop f
  unfolding run_adaptive refill no_futures
  run_adaptive_counts arrivals f ran =
      of_run _ f
        (adapt-Fine arrivals
          (refill process is_none combine empty next_tasks stop n_entries n_failed no_futures)
          (submit_batch-IsCounted no_futures (next_tasks _) no_futures-IsCounted))
        ran
