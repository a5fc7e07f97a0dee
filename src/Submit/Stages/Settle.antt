-- ===== src/Submit/Stages/Settle.antt =====
-- The wait of a staged run of submit/engine.py on its stage tasks.
use graphed_executors.Prelude.{
  ℕ, suc, ◌+◌, ◌<◌, ◌≡◌, refl, ap, ◌∙◌, arith, List, [], ◌∷◌, Option, none, some, map, Bool, true,
  false, get_elem?, nat_eq, length, ◌==◌, contains,
}
use graphed_executors.Prelude.Dict.{Dict, get, pop, Unique, Unique-pop, get-pop, length-pop}
use graphed_executors.Reduce.Eager.{discard}
use graphed_executors.Submit.Futures.{Outcome, returned, raised}
use graphed_executors.Submit.Stages.{
  Output, Staged, Settled, settled, stopped_at, failed, waiting, key_error, count_done,
  remaining_of, after_done, settle_at, settle_loop, settle,
}

pub contains-discard :
    (xs : List ℕ) (x k : ℕ)
    → (x == k) ≡ false
    → contains xs k ≡ true
    → contains (discard xs x) k ≡ true
unfolding discard
contains-discard [] x k differ h = cc
contains-discard (y ∷ ys) x k differ h = ground (arith, contains-discard ys x k differ)

no_keys : (d : Dict ℕ Bool) → ((k : ℕ) (v : Bool) → get d k ≡ some v → ⊥) → d ≡ []
unfolding get
no_keys [] none_there = refl
no_keys ((k, v) ∷ d) none_there = absurd (none_there k v (ground arith))

contains-keys :
    (d : Dict ℕ Bool) (k : ℕ) (v : Bool) → get d k ≡ some v → contains (map (λ p. p.0) d) k ≡ true
unfolding get
contains-keys [] k v found = cc
contains-keys ((j, w) ∷ d) k v found = ground (arith, contains-keys d k v)

module _ {E M B : Type 0} where
  -- Every stage task is outstanding or counted, once.
  pub record IsTallied (s : Staged E M B) : Type 0 where
    pub unique : Unique s.outstanding
    pub low : (k : ℕ) (v : Bool) → get s.outstanding k ≡ some v → k < length s.futs
    pub count : length s.outstanding + (s.ran + s.ran_on) ≡ length s.futs

  popped :
      (s : Staged E M B) (fut : ℕ) {v : Bool}
      → IsTallied s
      → get s.outstanding fut ≡ some v
      → Unique (pop s.outstanding fut)
        × ((k : ℕ) (w : Bool) → get (pop s.outstanding fut) k ≡ some w → k < length s.futs)
        × (suc (length (pop s.outstanding fut)) ≡ length s.outstanding)
  popped s fut t found = (
    Unique-pop s.outstanding fut t.unique,
    λ k w e. ground (arith, get-pop s.outstanding fut k, t.low k w),
    length-pop s.outstanding fut t.unique found,
  )

  count_done-IsTallied :
      (s : Staged E M B) (fut : ℕ) (o : Option Bool)
      → IsTallied s
      → get s.outstanding fut ≡ o
      → IsTallied (count_done s fut o)
  unfolding count_done
  count_done-IsTallied s fut none t found = t
  count_done-IsTallied s fut (some false) t found =
      let (unique, low, size) = popped s fut t found in
      record { unique = unique; low = low; count = omega (arith, size, t.count) }
  count_done-IsTallied s fut (some true) t found =
      let (unique, low, size) = popped s fut t found in
      record { unique = unique; low = low; count = omega (arith, size, t.count) }

  count_done-futs :
      (s : Staged E M B) (fut : ℕ) (o : Option Bool) → (count_done s fut o).futs ≡ s.futs
  unfolding count_done
  count_done-futs s fut none = refl
  count_done-futs s fut (some false) = refl
  count_done-futs s fut (some true) = refl

  -- A settle that ends has the tasks that it had; with `all`, none is outstanding.
  abbrev pub FineSettled : Staged E M B → Settled E M B → Type 0
  FineSettled s0 (settled s queue) = IsTallied s × (length s.futs ≡ length s0.futs)
  FineSettled s0 (stopped_at s) = Unit
  FineSettled s0 (failed e) = Unit
  FineSettled s0 waiting = Unit
  FineSettled s0 key_error = Unit

  abbrev pub AllSettled : Settled E M B → Type 0
  AllSettled (settled s queue) = s.outstanding ≡ []
  AllSettled (stopped_at s) = Unit
  AllSettled (failed e) = Unit
  AllSettled waiting = Unit
  AllSettled key_error = Unit

  -- Both hold of an end that is no `settled`.
  pub settle_at-holds :
      (Q : Settled E M B → Type 0) (o : Option Bool) (s : Staged E M B) (fut : ℕ) (c : Bool)
      (rest : Settled E M B)
      → ((s' : Staged E M B) → Q (stopped_at s'))
      → ((e : E) → Q (failed e))
      → Q key_error
      → Q rest
      → Q (settle_at o s fut c rest)
  unfolding settle_at
  settle_at-holds Q none s fut c rest on_stop on_fail on_key holds = on_key
  settle_at-holds Q (some v) s fut c rest on_stop on_fail on_key holds =
      after (get_elem? s.futs fut) c
    where
      after :
          (o : Option (Outcome E (Output M B))) (c : Bool)
          → Q (after_done o c (count_done s fut (some v)) rest)
      after none c = on_key
      after (some (raised e)) c = on_fail e
      after (some (returned x)) true = on_stop _
      after (some (returned x)) false = holds

  settle_loop-Fine :
      (queue : List (ℕ × Bool)) (remaining : List ℕ) (s : Staged E M B)
      → IsTallied s
      → FineSettled s (settle_loop queue remaining s)
  unfolding settle_loop
  settle_loop-Fine queue [] s t = (t, refl)
  settle_loop-Fine [] (r ∷ remaining) s t = tt
  settle_loop-Fine ((fut, c) ∷ queue) (r ∷ remaining) s t =
      settle_at-holds (FineSettled s) (get s.outstanding fut) s fut c _ (λ s'. tt) (λ e. tt) tt
        (same_size _ (
          settle_loop-Fine queue (discard (r ∷ remaining) fut)
            (count_done s fut (get s.outstanding fut))
            (count_done-IsTallied s fut (get s.outstanding fut) t refl)))
    where
      same_size :
          (end : Settled E M B)
          → FineSettled (count_done s fut (get s.outstanding fut)) end
          → FineSettled s end
      same_size (settled s' q) (t', size) =
          (t', size ∙ ap length (count_done-futs s fut (get s.outstanding fut)))
      same_size (stopped_at s') fine = tt
      same_size (failed e) fine = tt
      same_size waiting fine = tt
      same_size key_error fine = tt

  -- Every outstanding future is still to be waited for.
  abbrev Covers : List ℕ → Staged E M B → Type 0
  Covers remaining s =
      (k : ℕ) (v : Bool) → get s.outstanding k ≡ some v → contains remaining k ≡ true

  count_done-Covers :
      (remaining : List ℕ) (s : Staged E M B) (fut : ℕ) (o : Option Bool)
      → Covers remaining s
      → get s.outstanding fut ≡ o
      → Covers (discard remaining fut) (count_done s fut o)
  unfolding count_done
  count_done-Covers remaining s fut none covers found k v e =
      contains-discard remaining fut k (ground (arith, found, e)) (covers k v e)
  count_done-Covers remaining s fut (some false) covers found k v e =
      contains-discard remaining fut k (ground (arith, get-pop s.outstanding fut k, e))
        (covers k v (ground (arith, get-pop s.outstanding fut k, e)))
  count_done-Covers remaining s fut (some true) covers found k v e =
      contains-discard remaining fut k (ground (arith, get-pop s.outstanding fut k, e))
        (covers k v (ground (arith, get-pop s.outstanding fut k, e)))

  settle_loop-AllSettled :
      (queue : List (ℕ × Bool)) (remaining : List ℕ) (s : Staged E M B)
      → Covers remaining s
      → AllSettled (settle_loop queue remaining s)
  unfolding settle_loop
  settle_loop-AllSettled queue [] s covers =
      no_keys s.outstanding (λ k v e. let h : contains [] k ≡ true = covers k v e in absurd (cc))
  settle_loop-AllSettled [] (r ∷ remaining) s covers = tt
  settle_loop-AllSettled ((fut, c) ∷ queue) (r ∷ remaining) s covers =
      settle_at-holds AllSettled (get s.outstanding fut) s fut c _ (λ s'. tt) (λ e. tt) tt
        (settle_loop-AllSettled queue (discard (r ∷ remaining) fut)
          (count_done s fut (get s.outstanding fut))
          (count_done-Covers (r ∷ remaining) s fut (get s.outstanding fut) covers refl))

  pub settle-Fine :
      (queue : List (ℕ × Bool)) (needed : List ℕ) (s : Staged E M B)
      → IsTallied s
      → FineSettled s (settle queue needed s)
  unfolding settle
  settle-Fine queue needed s t = settle_loop-Fine queue (remaining_of s needed) s t

  contains-remaining_of :
      (s : Staged E M B) (needed : List ℕ) (k : ℕ) (v : Bool)
      → get s.outstanding k ≡ some v
      → contains needed k ≡ true
      → contains (remaining_of s needed) k ≡ true
  unfolding remaining_of
  contains-remaining_of s [] k v found h = h
  contains-remaining_of s (fut ∷ needed) k v found h =
      ground (arith, contains-remaining_of s needed k v found)

  -- A settle on all outstanding futures leaves none.
  pub settle-AllSettled :
      (queue : List (ℕ × Bool)) (s : Staged E M B)
      → AllSettled (settle queue (map (λ p. p.0) s.outstanding) s)
  unfolding settle
  settle-AllSettled queue s =
      settle_loop-AllSettled queue _ s
        (λ k v found. contains-remaining_of s _ k v found (contains-keys s.outstanding k v found))
