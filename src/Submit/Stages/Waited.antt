-- ===== src/Submit/Stages/Waited.antt =====
-- After a settle of submit/engine.py's staged run, no future that was waited for has failed.
use graphed_executors.Prelude.{
  ℕ, ◌≡◌, refl, ◌∙◌, arith, List, [], ◌∷◌, Option, none, some, Bool, true, false, get_elem?, nat_eq,
  ◌==◌, contains, Bool-cases, inl, inr,
}
use graphed_executors.Prelude.Dict.{get, pop, get-pop}
use graphed_executors.Reduce.Eager.{discard}
use graphed_executors.Submit.Futures.{Outcome, returned, raised}
use graphed_executors.Submit.Stages.{
  Output, Staged, Settled, settled, stopped_at, failed, waiting, key_error, count_done,
  remaining_of, after_done, settle_at, settle_loop, settle,
}
use graphed_executors.Submit.Stages.Settle.{contains-discard}

module _ {E M B : Type 0} where
  -- A failed future is still outstanding.
  pub record IsWatched (s : Staged E M B) : Type 0 where
    pub watched :
        (f : ℕ) (e : E)
        → get_elem? s.futs f ≡ some (raised e)
        → (v : Bool) × (get s.outstanding f ≡ some v)

  -- What of `needed` is outstanding is still to be waited for.
  abbrev Covers : List ℕ → List ℕ → Staged E M B → Type 0
  Covers needed remaining s =
      (f : ℕ) (v : Bool)
      → contains needed f ≡ true
      → get s.outstanding f ≡ some v
      → contains remaining f ≡ true

  -- A settle that ends leaves the failed ones outstanding, and none of `needed`.
  abbrev pub Waited : List ℕ → Settled E M B → Type 0
  Waited needed (settled s queue) =
      IsWatched s
      × ((f : ℕ) (v : Bool) → contains needed f ≡ true → get s.outstanding f ≡ some v → ⊥)
  Waited needed (stopped_at s) = Unit
  Waited needed (failed e) = Unit
  Waited needed waiting = Unit
  Waited needed key_error = Unit

  still_watched :
      (s : Staged E M B) (fut : ℕ) (x : Output M B)
      → IsWatched s
      → get_elem? s.futs fut ≡ some (returned x)
      → (f : ℕ) (e : E) → get_elem? s.futs f ≡ some (raised e)
      → (v : Bool) × (get (pop s.outstanding fut) f ≡ some v)
  still_watched s fut x w ok f e h =
      let (v, held) = w.watched f e h in
      elim (Bool-cases (fut == f)) [
        | inl same ↦
            let eq : fut ≡ f = ground arith in
            let both : get_elem? s.futs f ≡ some (returned x) = rw eq at ok in absurd (cc)
        | inr differ ↦ (v, get-pop s.outstanding fut f ∙ rw differ held)
      ]

  count_done-IsWatched :
      (s : Staged E M B) (fut : ℕ) (x : Output M B) (has_inputs : Bool)
      → IsWatched s
      → get_elem? s.futs fut ≡ some (returned x)
      → IsWatched (count_done s fut (some has_inputs))
  unfolding count_done
  count_done-IsWatched s fut x true w ok = record { watched = still_watched s fut x w ok }
  count_done-IsWatched s fut x false w ok = record { watched = still_watched s fut x w ok }

  count_done-Covers :
      (needed remaining : List ℕ) (s : Staged E M B) (fut : ℕ) (has_inputs : Bool)
      → Covers needed remaining s
      → Covers needed (discard remaining fut) (count_done s fut (some has_inputs))
  unfolding count_done
  count_done-Covers needed remaining s fut false covers f v wanted e =
      contains-discard remaining fut f (ground (arith, get-pop s.outstanding fut f, e))
        (covers f v wanted (ground (arith, get-pop s.outstanding fut f, e)))
  count_done-Covers needed remaining s fut true covers f v wanted e =
      contains-discard remaining fut f (ground (arith, get-pop s.outstanding fut f, e))
        (covers f v wanted (ground (arith, get-pop s.outstanding fut f, e)))

  settle_loop-Waited :
      (queue : List (ℕ × Bool)) (needed remaining : List ℕ) (s : Staged E M B)
      → IsWatched s
      → Covers needed remaining s
      → Waited needed (settle_loop queue remaining s)
  unfolding settle_loop settle_at
  settle_loop-Waited queue needed [] s w covers =
      (w, λ f v wanted e. let h : contains [] f ≡ true = covers f v wanted e in absurd (cc))
  settle_loop-Waited [] needed (r ∷ remaining) s w covers = tt
  settle_loop-Waited ((fut, c) ∷ queue) needed (r ∷ remaining) s w covers =
      at_future (get s.outstanding fut) refl (get_elem? s.futs fut) refl c (λ has_inputs w' covers'.
        settle_loop-Waited queue needed (discard (r ∷ remaining) fut)
          (count_done s fut (some has_inputs)) w' covers')
    where
      at_future :
          (o : Option Bool)
          → get s.outstanding fut ≡ o
          → (out : Option (Outcome E (Output M B))) → get_elem? s.futs fut ≡ out
          → (c' : Bool)
          → ((has_inputs : Bool)
              → IsWatched (count_done s fut (some has_inputs))
              → Covers needed (discard (r ∷ remaining) fut) (count_done s fut (some has_inputs))
              → Waited needed (
                  settle_loop queue
                    (discard (r ∷ remaining) fut)
                    (count_done s fut (some has_inputs))))
          → Waited needed (
              settle_at o s fut c'
                (settle_loop queue (discard (r ∷ remaining) fut) (count_done s fut o)))
      at_future none found out result c' on = tt
      at_future (some v) found none result c' on = rw (result, after_done) tt
      at_future (some v) found (some (raised e)) result c' on = rw (result, after_done) tt
      at_future (some v) found (some (returned x)) result true on = rw (result, after_done) tt
      at_future (some v) found (some (returned x)) result false on =
          rw (result, after_done)
            (on v (count_done-IsWatched s fut x v w result)
              (count_done-Covers needed (r ∷ remaining) s fut v covers))

  Covers-remaining_of :
      (s : Staged E M B) (needed : List ℕ) (f : ℕ) (v : Bool)
      → contains needed f ≡ true
      → get s.outstanding f ≡ some v
      → contains (remaining_of s needed) f ≡ true
  unfolding remaining_of
  Covers-remaining_of s [] f v wanted e = wanted
  Covers-remaining_of s (fut ∷ needed) f v wanted e =
      ground (arith, Covers-remaining_of s needed f v)

  pub settle-Waited :
      (queue : List (ℕ × Bool)) (needed : List ℕ) (s : Staged E M B)
      → IsWatched s
      → Waited needed (settle queue needed s)
  unfolding settle
  settle-Waited queue needed s w =
      settle_loop-Waited queue needed (remaining_of s needed) s w (Covers-remaining_of s needed)
