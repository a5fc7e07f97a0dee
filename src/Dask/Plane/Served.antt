-- ===== src/Dask/Plane/Served.antt =====
-- A block stored in a worker's plane of dask_backend/transport.py and pulled from it.
use graphed_executors.Prelude.{
  ℕ, ◌+◌, ◌≡◌, ◌⊎◌, inl, inr, List, ap, ◌∙◌, refl, [], ◌∷◌, none, some, Bool, true, false, Eq,
  nat_eq, arith,
}
use graphed_executors.Prelude.Dict.{Dict, get, put, pop, get-put, get-pop}
use graphed_executors.Dask.Plane.{
  PlaneRun, Plugin, wires, hold_block, store_block, or_disk, Opened, open_in, open_pull, read_files,
  files_now, pull_wires, evict, serve, finish_pull, pull_rest, on_block_pull, key_error,
  served_bytes,
}

get-pop_self : {D W : Type 0} ⦃e : Eq D⦄ (d : D) (m : Dict D W) → get (pop m d) d ≡ none
get-pop_self ⦃e⦄ d m =
    let self : e.beq d d ≡ true = (e.beq_iff d d).1 refl in get-pop m d d ∙ rw self refl

module _ {W D : Type 0} ⦃e : Eq D⦄ where
  wires_one :
      (ram disk : Dict D W) (d : D) (wire : W)
      → or_disk (get ram d) (get disk d) ≡ some wire
      → pull_wires ram disk (d ∷ []) ≡ some (wire ∷ [])
  unfolding pull_wires
  wires_one ram disk d wire held = rw (held, pull_wires) refl

  read_one :
      (files : Dict D W) (d : D) (wire : W)
      → get files d ≡ some wire
      → read_files files (d ∷ []) ≡ some (put [] d wire)
  unfolding read_files
  read_one files d wire held = rw (held, read_files) refl

  get-put_self : (m : Dict D W) (d : D) (wire : W) → get (put m d wire) d ≡ some wire
  get-put_self m d wire =
      let self : e.beq d d ≡ true = (e.beq_iff d d).1 refl in get-put m d d wire ∙ rw self refl

module _ {M W D : Type 0} ⦃e : Eq D⦄ (size : W → ℕ) where
  open_in-ram :
      (run : PlaneRun M W D) (d : D) (wire : W)
      → get run.blocks d ≡ some wire
      → open_in run (d ∷ []) ≡ record { ram = put [] d wire; paths = [] }
  unfolding open_in
  open_in-ram run d wire held = rw (held, open_in) refl

  open_in-disk :
      (run : PlaneRun M W D) (d : D) (wire : W)
      → get run.blocks d ≡ none
      → get run.spilled d ≡ some wire
      → open_in run (d ∷ []) ≡ record { ram = []; paths = d ∷ [] }
  unfolding open_in
  open_in-disk run d wire no_block held = rw (no_block, open_in) (rw (held, open_in) refl)

  open_in-gone :
      (run : PlaneRun M W D) (d : D)
      → get run.blocks d ≡ none
      → get run.spilled d ≡ none
      → open_in run (d ∷ []) ≡ record { ram = []; paths = [] }
  unfolding open_in
  open_in-gone run d no_block no_file = rw (no_block, open_in) (rw (no_file, open_in) refl)

  open_pull-held :
      (p : Plugin M W D) (epoch : ℕ) (run : PlaneRun M W D) (digests : List D)
      → get p.runs epoch ≡ some run
      → open_pull p epoch digests ≡ (p, some (open_in run digests))
  unfolding open_pull
  open_pull-held p epoch run digests held = rw (held, open_pull) refl

  on_block_pull-held :
      (p : Plugin M W D) (epoch : ℕ) (run : PlaneRun M W D) (digests : List D) (o : Opened W D)
      → get p.runs epoch ≡ some run
      → open_in run digests ≡ o
      → on_block_pull size p epoch digests
        ≡ finish_pull size p epoch digests o (read_files run.spilled o.paths)
  unfolding on_block_pull pull_rest
  on_block_pull-held p epoch run digests o held opened =
      let opens : open_pull p epoch digests ≡ (p, some o) =
        open_pull-held p epoch run digests held ∙ ap (λ t. (p, some t)) opened in
      let files : files_now p epoch ≡ run.spilled = rw (held, files_now) refl in
      ap (pull_rest size epoch digests) opens
      ∙ ap (λ t. finish_pull size p epoch digests o (read_files t o.paths)) files

  -- Of a digest that is not held, a pull finds nothing.
  pull_gone :
      (p : Plugin M W D) (epoch : ℕ) (run : PlaneRun M W D) (d : D)
      → get p.runs epoch ≡ some run
      → get run.blocks d ≡ none
      → get run.spilled d ≡ none
      → (on_block_pull size p epoch (d ∷ [])).1 ≡ key_error
  unfolding finish_pull read_files pull_wires get
  pull_gone p epoch run d held no_block no_file =
      ap (λ t. t.1)
        (on_block_pull-held p epoch run (d ∷ []) (record { ram = []; paths = [] }) held
          (open_in-gone run d no_block no_file))

  -- A pull of one digest, by what it opens.
  pull_one :
      (p : Plugin M W D) (epoch : ℕ) (run : PlaneRun M W D) (d : D) (wire : W) (o : Opened W D)
      (disk : Dict D W)
      → get p.runs epoch ≡ some run
      → open_in run (d ∷ []) ≡ o
      → read_files run.spilled o.paths ≡ some disk
      → or_disk (get o.ram d) (get disk d) ≡ some wire
      → (p' : Plugin M W D) × (open_pull p epoch (d ∷ []) ≡ (p, some o))
        × (on_block_pull size p epoch (d ∷ []) ≡ (p', wires (wire ∷ [])))
        × ((on_block_pull size p' epoch (d ∷ [])).1 ≡ key_error)
  unfolding finish_pull serve evict
  pull_one p epoch run d wire o disk held opened files block =
      let run' : PlaneRun M W D = record run {
        blocks = pop run.blocks d;
        spilled = pop run.spilled d;
        bytes_served = run.bytes_served + served_bytes size (wire ∷ []);
      } in
      let p' : Plugin M W D = record p { runs = put p.runs epoch run' } in
      let held' : get p'.runs epoch ≡ some run' = ground (arith, get-put p.runs epoch epoch run') in
      (
        p',
        open_pull-held p epoch run (d ∷ []) held ∙ ap (λ t. (p, some t)) opened,
        on_block_pull-held p epoch run (d ∷ []) o held opened
            ∙ ap (finish_pull size p epoch (d ∷ []) o) files
            ∙ rw (wires_one o.ram disk d wire block, finish_pull) (rw (held, serve) refl),
        pull_gone p' epoch run' d held' (get-pop_self d run.blocks) (get-pop_self d run.spilled),
      )

  -- What a pull of a block just stored opens, and reads.
  store_opened :
      (run : PlaneRun M W D) (d : D) (wire : W) (to_disk : Bool)
      → (to_disk ≡ false) ⊎ (get run.blocks d ≡ none)
      → (o : Opened W D) × (disk : Dict D W) × (open_in
            (hold_block size run d wire to_disk)
            (d ∷ [])
          ≡ o)
        × (read_files (hold_block size run d wire to_disk).spilled o.paths ≡ some disk)
        × (or_disk (get o.ram d) (get disk d) ≡ some wire)
        × ((to_disk ≡ true) ⊎ ((o.paths ≡ []) × (get o.ram d ≡ some wire)))
  unfolding hold_block read_files
  store_opened run d wire false new = (
    record { ram = put [] d wire; paths = [] },
    [],
    open_in-ram _ d wire (get-put_self run.blocks d wire),
    refl,
    rw (get-put_self [] d wire) refl,
    inr (refl, get-put_self [] d wire),
  )
  store_opened run d wire true (inl memory) = absurd (cc)
  store_opened run d wire true (inr new) = (
    record { ram = []; paths = d ∷ [] },
    put [] d wire,
    open_in-disk _ d wire new (get-put_self run.spilled d wire),
    read_one (put run.spilled d wire) d wire (get-put_self run.spilled d wire),
    unfold get in get-put_self [] d wire,
    inl refl,
  )

  -- What was in memory when the pull opened is served when it ends.
  still_served :
      (p2 : Plugin M W D) (epoch : ℕ) (d : D) (wire : W) (o : Opened W D)
      → o.paths ≡ []
      → get o.ram d ≡ some wire
      → (finish_pull size p2 epoch (d ∷ []) o (read_files (files_now p2 epoch) o.paths)).1
        ≡ wires (wire ∷ [])
  unfolding finish_pull read_files
  still_served p2 epoch d wire o no_paths in_ram =
      let read : read_files (files_now p2 epoch) o.paths ≡ some [] =
        ap (read_files (files_now p2 epoch)) no_paths in
      let held : or_disk (get o.ram d) (get {V = W} [] d) ≡ some wire = rw in_ram refl in
      rw read (rw (wires_one o.ram [] d wire held, finish_pull) refl)

  -- A block stored for an epoch, in memory, or on disk under a digest that memory does not hold, is what
  -- a pull of the digest serves; once that pull has ended, the next finds nothing. A pull that opened
  -- while the block was in memory is served it whatever the plane has become (p2) when it ends.
  pub store-pull :
      (p p2 : Plugin M W D) (epoch : ℕ) (run : PlaneRun M W D) (d : D) (wire : W) (to_disk : Bool)
      → get p.runs epoch ≡ some run
      → (to_disk ≡ false) ⊎ (get run.blocks d ≡ none)
      → (p' p'' : Plugin M W D) × (o : Opened W D) × (store_block size p epoch d wire to_disk
          ≡ some p')
        × (open_pull p' epoch (d ∷ []) ≡ (p', some o))
        × (on_block_pull size p' epoch (d ∷ []) ≡ (p'', wires (wire ∷ [])))
        × ((on_block_pull size p'' epoch (d ∷ [])).1 ≡ key_error)
        × ((to_disk ≡ true)
            ⊎ ((finish_pull size p2 epoch (d ∷ []) o (read_files (files_now p2 epoch) o.paths)).1
                ≡ wires (wire ∷ [])))
  unfolding store_block finish_pull
  store-pull p p2 epoch run d wire to_disk held new =
      let run' : PlaneRun M W D = hold_block size run d wire to_disk in
      let p' : Plugin M W D = record p { runs = put p.runs epoch run' } in
      let held' : get p'.runs epoch ≡ some run' = ground (arith, get-put p.runs epoch epoch run') in
      let (o, disk, opened, files, block, overlap) = store_opened run d wire to_disk new in
      let (p'', opens, served, gone) =
        pull_one p' epoch run' d wire o disk held' opened files block in
      (
        p',
        p'',
        o,
        rw (held, store_block) refl,
        opens,
        served,
        gone,
        elim overlap [
          | inl on_disk ↦ inl on_disk
          | inr (no_paths, in_ram) ↦ inr (still_served p2 epoch d wire o no_paths in_ram)
        ],
      )
