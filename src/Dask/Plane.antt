-- ===== src/Dask/Plane.antt =====
-- GraphedTransportPlugin of dask_backend/transport.py: per epoch a bounded inbox and the blocks that
-- the worker serves. A spill file is its content under its digest. The locks and the counters of
-- threads and processes are left out.
pub mod Served
pub mod Received
use graphed_executors.Prelude.{
  ℕ, zero, suc, ◌+◌, ◌-◌, List, [], ◌∷◌, ◌++◌, Option, none, some, Bool, true, false, leb, ltb,
  ◌&&◌, Eq, nat_eq, length, contains, if◌then◌else◌,
}
use graphed_executors.Prelude.Dict.{Dict, get, put, pop}

-- One epoch's state: messages of type M, blocks of type W under digests of type D.
pub record PlaneRun (M W D : Type 0) : Type 0 where
  pub inbox_maxsize : ℕ
  pub inbox : List (ℕ × M)
  pub blocks : Dict D W
  pub spilled : Dict D W
  pub seen_payload : List D
  pub recv_invocations : ℕ
  pub duplicates : ℕ
  pub sends_dropped : ℕ
  pub bytes_served : ℕ

pub record Plugin (M W D : Type 0) : Type 0 where
  pub runs : Dict ℕ (PlaneRun M W D)
  pub stale_epoch_rejects : ℕ
  pub inject_recv_failures : Dict ℕ ℕ

-- The answer to a message, or an exception raised on the sender.
pub record Reply : Type 0 where
  pub accepted : Bool
  pub stale : Bool
  pub raised : Bool

-- What a pull answers; a digest that is not held is a KeyError, a spill file that is gone by the time
-- it is read a FileNotFoundError.
pub data Pull (W : Type 0) : Type 0 where
  stale_epoch key_error file_not_found : Pull W
  wires : List W → Pull W

-- What a pull has after its first lock: the wires that are in memory, and the digests whose spill files
-- it is to read.
pub record Opened (W D : Type 0) : Type 0 where
  pub ram : Dict D W
  pub paths : List D

module _ {M W D : Type 0} where
  unfoldable pub new_run : ℕ → PlaneRun M W D
  new_run inbox_maxsize = record {
    inbox_maxsize = inbox_maxsize;
    inbox = [];
    blocks = [];
    spilled = [];
    seen_payload = [];
    recv_invocations = 0;
    duplicates = 0;
    sends_dropped = 0;
    bytes_served = 0;
  }

  -- ensure_run: an epoch has its state once.
  unfoldable pub ensure_run : Plugin M W D → ℕ → ℕ → Plugin M W D
  unfolding new_run
  ensure_run p epoch inbox_maxsize = elim (get p.runs epoch) [
    | none ↦ record p { runs = put p.runs epoch (new_run inbox_maxsize) }
    | some run ↦ p
  ]

  unfoldable pub purge : Plugin M W D → ℕ → Plugin M W D
  purge p epoch = record p { runs = pop p.runs epoch }

  -- queue.Queue.full
  abbrev pub is_full : PlaneRun M W D → Bool
  is_full run = ltb 0 run.inbox_maxsize && leb run.inbox_maxsize (length run.inbox)

  -- put_nowait; none is queue.Full.
  unfoldable pub put_nowait : PlaneRun M W D → ℕ → M → Option (PlaneRun M W D)
  put_nowait run src message =
      if is_full run then none else some (record run { inbox = run.inbox ++ (src, message) ∷ [] })

  -- The inbox after a put, with whether it took the message.
  unfoldable pub dropped_or : PlaneRun M W D → Option (PlaneRun M W D) → PlaneRun M W D × Bool
  dropped_or run none = (record run { sends_dropped = run.sends_dropped + 1 }, false)
  dropped_or run (some run') = (run', true)

-- self.inject_recv_failures.get(src, 0)
abbrev pub injected : Option ℕ → ℕ
injected none = 0
injected (some k) = k

module _ {M W D R : Type 0} ⦃e : Eq D⦄ (digest : R → D) (loads : R → M) where
  unfoldable pub note_payload : PlaneRun M W D → D → PlaneRun M W D
  note_payload run d =
      if contains run.seen_payload d
      then record run { duplicates = run.duplicates + 1 }
      else record run { seen_payload = d ∷ run.seen_payload }

  -- _on_recv with _deliver, of an epoch that is held.
  unfoldable pub receive_in : PlaneRun M W D → ℕ → R → PlaneRun M W D × Bool
  unfolding note_payload put_nowait dropped_or
  receive_in run src raw =
      let run' =
        note_payload (record run { recv_invocations = run.recv_invocations + 1 }) (digest raw) in
      dropped_or run' (put_nowait run' src (loads raw))

  -- The injected failure, with so many left: the message is delivered, then an exception is raised; a
  -- full inbox raises before the count goes down.
  unfoldable pub receive_injected :
      Plugin M W D → ℕ → ℕ → R → ℕ → PlaneRun M W D → Plugin M W D × Reply
  unfolding note_payload put_nowait
  receive_injected p src epoch raw inject run =
      let run' =
        note_payload (record run { recv_invocations = run.recv_invocations + 1 }) (digest raw) in
      let error : Reply = record { accepted = false; stale = false; raised = true } in
      elim (put_nowait run' src (loads raw)) [
        | none ↦ (record p { runs = put p.runs epoch run' }, error)
        | some run'' ↦ (
          record p {
            runs = put p.runs epoch run'';
            inject_recv_failures = put p.inject_recv_failures src (inject - 1);
          },
          error,
        )
      ]

  unfoldable pub receive_held : Plugin M W D → ℕ → ℕ → R → ℕ → PlaneRun M W D → Plugin M W D × Reply
  unfolding receive_in receive_injected
  receive_held p src epoch raw (suc k) run = receive_injected p src epoch raw (suc k) run
  receive_held p src epoch raw zero run =
      let (run', took) = receive_in run src raw in
      (
        record p { runs = put p.runs epoch run' },
        record { accepted = took; stale = false; raised = false },
      )

  unfoldable pub on_recv : Plugin M W D → ℕ → ℕ → R → Plugin M W D × Reply
  unfolding receive_held
  on_recv p src epoch raw = elim (get p.runs epoch) [
    | none ↦ (
      record p { stale_epoch_rejects = p.stale_epoch_rejects + 1 },
      record { accepted = false; stale = true; raised = false },
    )
    | some run ↦ receive_held p src epoch raw (injected (get p.inject_recv_failures src)) run
  ]

abbrev pub or_disk : {W : Type 0} → Option W → Option W → Option W
or_disk (some wire) disk = some wire
or_disk none disk = disk

abbrev pub served_bytes : {W : Type 0} → (W → ℕ) → List W → ℕ
served_bytes size [] = 0
served_bytes size (wire ∷ rest) = size wire + served_bytes size rest

module _ {W D : Type 0} ⦃e : Eq D⦄ where
  -- _read_spill_files; none is a FileNotFoundError.
  unfoldable pub read_files : Dict D W → List D → Option (Dict D W)
  read_files files [] = some []
  read_files files (d ∷ paths) = elim (get files d) [
    | none ↦ none
    | some wire ↦ elim (read_files files paths) [ none ↦ none | some rest ↦ some (put rest d wire) ]
  ]

  -- Each digest's wire, from memory before disk; none is a KeyError.
  unfoldable pub pull_wires : Dict D W → Dict D W → List D → Option (List W)
  pull_wires ram disk [] = some []
  pull_wires ram disk (d ∷ digests) = elim (or_disk (get ram d) (get disk d)) [
    | none ↦ none
    | some wire ↦ elim (pull_wires ram disk digests) [
      | none ↦ none
      | some rest ↦ some (wire ∷ rest)
    ]
  ]

module _ {M W D : Type 0} ⦃e : Eq D⦄ where
  unfoldable pub open_in : PlaneRun M W D → List D → Opened W D
  open_in run [] = record { ram = []; paths = [] }
  open_in run (d ∷ digests) =
      let rest = open_in run digests in
      elim (get run.blocks d) [
        | some wire ↦ record { ram = put rest.ram d wire; paths = rest.paths }
        | none ↦ elim (get run.spilled d) [
          | none ↦ rest
          | some wire ↦ record { ram = rest.ram; paths = d ∷ rest.paths }
        ]
      ]

  -- The first step of a pull, up to its await; none is a stale epoch.
  unfoldable pub open_pull : Plugin M W D → ℕ → List D → Plugin M W D × Option (Opened W D)
  unfolding open_in
  open_pull p epoch digests = elim (get p.runs epoch) [
    | none ↦ (record p { stale_epoch_rejects = p.stale_epoch_rejects + 1 }, none)
    | some run ↦ (p, some (open_in run digests))
  ]

  -- The spill files of an epoch that are there.
  abbrev pub files_now : Plugin M W D → ℕ → Dict D W
  files_now p epoch = elim (get p.runs epoch) [ none ↦ [] | some run ↦ run.spilled ]

module _ {M W D : Type 0} ⦃e : Eq D⦄ (size : W → ℕ) where
  -- Hold a wire in memory, or in a spill file.
  unfoldable pub hold_block : PlaneRun M W D → D → W → Bool → PlaneRun M W D
  hold_block run d wire true = record run { spilled = put run.spilled d wire }
  hold_block run d wire false = record run { blocks = put run.blocks d wire }

  -- none is a KeyError.
  unfoldable pub store_block : Plugin M W D → ℕ → D → W → Bool → Option (Plugin M W D)
  unfolding hold_block
  store_block p epoch d wire to_disk = elim (get p.runs epoch) [
    | none ↦ none
    | some run ↦ some (record p { runs = put p.runs epoch (hold_block run d wire to_disk) })
  ]

  -- evict-after-serve
  unfoldable pub evict : PlaneRun M W D → List D → PlaneRun M W D
  evict run [] = run
  evict run (d ∷ digests) =
      evict (record run { blocks = pop run.blocks d; spilled = pop run.spilled d }) digests

  -- An epoch that was purged meanwhile is left alone.
  unfoldable pub serve : Plugin M W D → ℕ → List D → List W → Plugin M W D
  unfolding evict
  serve p epoch digests out = elim (get p.runs epoch) [
    | none ↦ p
    | some run ↦
        let run' = evict run digests in
        record p {
          runs =
              put p.runs epoch
                (record run' { bytes_served = run'.bytes_served + served_bytes size out });
        }
  ]

  -- The last step of a pull, with what the await gave.
  unfoldable pub finish_pull :
      Plugin M W D → ℕ → List D → Opened W D → Option (Dict D W) → Plugin M W D × Pull W
  unfolding serve pull_wires
  finish_pull p epoch digests o none = (p, file_not_found)
  finish_pull p epoch digests o (some disk) = elim (pull_wires o.ram disk digests) [
    | none ↦ (p, key_error)
    | some out ↦ (serve p epoch digests out, wires out)
  ]

  unfoldable pub pull_rest : ℕ → List D → Plugin M W D × Option (Opened W D) → Plugin M W D × Pull W
  unfolding finish_pull read_files
  pull_rest epoch digests (p, none) = (p, stale_epoch)
  pull_rest epoch digests (p, some o) =
      finish_pull p epoch digests o (read_files (files_now p epoch) o.paths)

  -- A pull that no other step comes into.
  unfoldable pub on_block_pull : Plugin M W D → ℕ → List D → Plugin M W D × Pull W
  unfolding open_pull pull_rest
  on_block_pull p epoch digests = pull_rest epoch digests (open_pull p epoch digests)
