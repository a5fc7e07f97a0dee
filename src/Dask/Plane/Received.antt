-- ===== src/Dask/Plane/Received.antt =====
-- What _on_recv of dask_backend/transport.py does to the inbox of an epoch.
use graphed_executors.Prelude.{
  ℕ, ◌+◌, ◌<◌, ◌≤◌, ◌≡◌, ◌⊎◌, refl, ap, [], ◌∷◌, ◌++◌, none, some, Bool, true, false, Eq, nat_eq,
  length, length-append, contains, Bool-cases, inl, inr, arith, if◌then◌else◌,
}
use graphed_executors.Prelude.Dict.{get, get-put}
use graphed_executors.Dask.Plane.{
  PlaneRun, Plugin, is_full, put_nowait, dropped_or, note_payload, receive_in, receive_held,
  on_recv,
}

module _ {M W D R : Type 0} ⦃e : Eq D⦄ (digest : R → D) (loads : R → M) where
  -- How a receive ends: with the message at the end of the inbox, or refused by a full one.
  abbrev Received : PlaneRun M W D → ℕ → R → PlaneRun M W D → Bool → Type 0
  Received run src raw run' took =
      (((took ≡ true) × (run'.inbox ≡ run.inbox ++ (src, loads raw) ∷ []))
        ⊎ ((took ≡ false) × (run'.inbox ≡ run.inbox) × (run.inbox_maxsize ≤ length run.inbox)))
      × (length run'.inbox ≤ run.inbox_maxsize)

  put_nowait-Received :
      (run noted : PlaneRun M W D) (src : ℕ) (raw : R)
      → noted.inbox ≡ run.inbox
      → noted.inbox_maxsize ≡ run.inbox_maxsize
      → 0 < run.inbox_maxsize
      → length run.inbox ≤ run.inbox_maxsize
      → Received run src raw
          (dropped_or noted (put_nowait noted src (loads raw))).0
          (dropped_or noted (put_nowait noted src (loads raw))).1
  unfolding put_nowait dropped_or
  put_nowait-Received run noted src raw inbox maxsize bounded fits =
      let size : length noted.inbox ≡ length run.inbox = ap length inbox in
      elim (Bool-cases (is_full noted)) [
        | inl full ↦
            rw (full, dropped_or)
              (inr (refl, inbox, ground (arith, size, maxsize)), ground (arith, size))
        | inr room ↦
            rw (room, dropped_or)
              (
                inl (refl, ap (λ l. l ++ (src, loads raw) ∷ []) inbox),
                ground (arith, size, maxsize, length-append noted.inbox ((src, loads raw) ∷ [])),
              )
      ]

  -- The record of a payload leaves the inbox.
  note_payload-same :
      (run : PlaneRun M W D) (d : D)
      → ((note_payload digest loads run d).inbox ≡ run.inbox)
        × ((note_payload digest loads run d).inbox_maxsize ≡ run.inbox_maxsize)
  unfolding note_payload
  note_payload-same run d = noted (contains run.seen_payload d)
    where
      noted :
          (seen : Bool)
          → ((if seen
                then record run { duplicates = run.duplicates + 1 }
                else record run { seen_payload = d ∷ run.seen_payload }).inbox
              ≡ run.inbox)
            × ((if seen
                  then record run { duplicates = run.duplicates + 1 }
                  else record run { seen_payload = d ∷ run.seen_payload }).inbox_maxsize
                ≡ run.inbox_maxsize)
      noted true = (refl, refl)
      noted false = (refl, refl)

  receive_in-Received :
      (run : PlaneRun M W D) (src : ℕ) (raw : R)
      → 0 < run.inbox_maxsize
      → length run.inbox ≤ run.inbox_maxsize
      → Received run src raw
          (receive_in digest loads run src raw).0
          (receive_in digest loads run src raw).1
  unfolding receive_in
  receive_in-Received run src raw bounded fits =
      let counted : PlaneRun M W D = record run { recv_invocations = run.recv_invocations + 1 } in
      let (inbox, maxsize) = note_payload-same counted (digest raw) in
      put_nowait-Received run _ src raw inbox maxsize bounded fits

  -- A message that comes, with no failure injected, for an epoch with a bounded inbox is put at its end and accepted, or is refused
  -- by the full inbox, which stays as it is; the inbox stays within its bound.
  pub on_recv_inbox :
      (p : Plugin M W D) (src epoch : ℕ) (raw : R) (run : PlaneRun M W D)
      → get p.runs epoch ≡ some run
      → get p.inject_recv_failures src ≡ none
      → 0 < run.inbox_maxsize
      → length run.inbox ≤ run.inbox_maxsize
      → (run' : PlaneRun M W D) × (get (on_recv digest loads p src epoch raw).0.runs epoch
          ≡ some run')
        × ((((on_recv digest loads p src epoch raw).1.accepted ≡ true)
              × (run'.inbox ≡ run.inbox ++ (src, loads raw) ∷ []))
            ⊎ (((on_recv digest loads p src epoch raw).1.accepted ≡ false)
                × (run'.inbox ≡ run.inbox)
                × (run.inbox_maxsize ≤ length run.inbox)))
        × (length run'.inbox ≤ run.inbox_maxsize)
  unfolding on_recv
  on_recv_inbox p src epoch raw run held unharmed bounded fits =
      let (how, bound) = receive_in-Received run src raw bounded fits in
      rw (held, on_recv)
        (rw (unharmed, receive_held)
          (
            (receive_in digest loads run src raw).0,
            ground (arith, get-put p.runs epoch epoch (receive_in digest loads run src raw).0),
            how,
            bound,
          ))
