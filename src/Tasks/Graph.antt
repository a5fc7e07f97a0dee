-- ===== src/Tasks/Graph.antt =====
-- The tasks of common/tasks_engine.py and the tiers that submit them.
use graphed_executors.Prelude.{
  ℕ, zero, suc, ◌+◌, List, [], ◌∷◌, Option, none, some, length, map, take, drop, Bool, true, false,
  get_elem?, range_from, node_eq, nat_eq, max,
}
use Prim.Native.String.{String}
use graphed_executors.Prelude.Dict.{Dict, get, put, values}
use graphed_executors.Kernels.Backend.{Backend, How}
use graphed_executors.Kernels.Assign.{assign}
use graphed_executors.Kernels.Coalesce.{coalesce_task, sum}
use graphed_executors.Kernels.Budget.{JoinResult, address}
use graphed_executors.Kernels.Join.{join_dest, join_probe_block}

-- (pid, worker address)
abbrev pub Site : Type 0
Site = ℕ × String

-- What the engine reads of a runner's backend, and where its tasks run.
pub record Cluster : Type 0 where
  pub n_workers : ℕ
  pub peer_data_movement : Bool
  pub map_site : ℕ → Site
  pub gather_site : ℕ → Site

pub record MapOut (b : Backend) : Type 0 where
  pub payload : Dict ℕ b.Wire
  pub blocks : ℕ
  pub peak : ℕ
  pub site : Site

pub record GatherOut (b : Backend) : Type 0 where
  pub dest : ℕ
  pub block : b.Block
  pub hash : b.Digest
  pub site : Site

-- `dest` is none for the -1 of a broadcast part.
pub record JoinOut (b : Backend) : Type 0 where
  pub dest : Option ℕ
  pub joined : JoinResult b
  pub site : Site
  pub matched : Option (List ℕ)

-- [blocks[s] for s in owned]: none where an index is out of range.
unfoldable pub select {ℓ} : {A : Type ℓ} → List A → List ℕ → Option (List A)
select blocks [] = some []
select blocks (s ∷ owned) = elim (get_elem? blocks s) [
  | none ↦ none
  | some block ↦ elim (select blocks owned) [ none ↦ none | some rest ↦ some (block ∷ rest) ]
]

-- [x for x in xs if x is not None]
unfoldable pub present {ℓ} : {A : Type ℓ} → List (Option A) → List A
present [] = []
present (none ∷ xs) = present xs
present (some x ∷ xs) = x ∷ present xs

module _ (b : Backend) where
  unfoldable pub wire_each : Dict ℕ b.Block → Dict ℕ b.Wire
  wire_each [] = []
  wire_each ((dest, block) ∷ rest) = (dest, b.to_wire block) ∷ wire_each rest

  unfoldable pub map_write : List b.Block → ℕ → ℕ → Site → MapOut b
  unfolding wire_each
  map_write owned parts salt site =
      let (per_dest, peak) = coalesce_task b owned parts salt in
      record { payload = wire_each per_dest; blocks = length per_dest; peak = peak; site = site }

  unfoldable pub pick : MapOut b → ℕ → Option b.Wire
  pick map_out dest = get map_out.payload dest

  unfoldable pub gather_blocks : ℕ → List b.Block → Site → Option (GatherOut b)
  gather_blocks dest [] site = none
  gather_blocks dest (x ∷ blocks) site =
      let gathered = b.concat (x ∷ blocks) in
      some (record { dest = dest; block = gathered; hash = address b gathered; site = site })

  unfoldable pub gather : ℕ → List (Option b.Wire) → Site → Option (GatherOut b)
  unfolding gather_blocks present
  gather dest picks site = gather_blocks dest (map b.from_wire (present picks)) site

  -- The store of a task starts empty and is dropped with it. The outer option is for what raises.
  unfoldable pub gather_join :
      ℕ
      → List String
      → How
      → Option ℕ
      → Option b.Block
      → Option b.Block
      → ℕ
      → List (Option b.Wire)
      → Site
      → Option (Option (JoinOut b))
  gather_join dest on how mem_budget left_carrier right_carrier n_left picks site =
      let build_side = map b.from_wire (present (take n_left picks)) in
      let probe_side = map b.from_wire (present (drop n_left picks)) in
      elim (join_dest b build_side probe_side on how mem_budget left_carrier right_carrier []) [
        | none ↦ none
        | some (none, store) ↦ some none
        | some (some joined, store) ↦
            some (some (record { dest = some dest; joined = joined; site = site; matched = none }))
      ]

  -- The build side, restricted to the rows of the tail.
  unfoldable pub build_rows : b.Wire → Option (List ℕ) → b.Block
  build_rows build_wire none = b.from_wire build_wire
  build_rows build_wire (some indices) = b.take (b.from_wire build_wire) indices

  unfoldable pub broadcast_join_part :
      b.Wire
      → b.Block
      → List String
      → How
      → Option ℕ
      → Bool
      → Option (List ℕ)
      → Site
      → Option (JoinOut b)
  unfolding build_rows
  broadcast_join_part build_wire probe_block on how mem_budget track_unmatched take_indices site =
      elim (join_probe_block b (build_rows build_wire take_indices) probe_block on how mem_budget []
        track_unmatched) [
          | none ↦ none
          | some (matched, joined, store) ↦
              some (record { dest = none; joined = joined; site = site; matched = matched })
        ]

  -- The producer of task i gets the blocks of the i-th range.
  unfoldable pub submit_each :
      List b.Block → ℕ → ℕ → (ℕ → Site) → ℕ → List (List ℕ) → Option (List (MapOut b))
  unfolding map_write select
  submit_each blocks parts salt site i [] = some []
  submit_each blocks parts salt site i (owned ∷ ranges) = elim (select blocks owned) [
    | none ↦ none
    | some mine ↦ elim (submit_each blocks parts salt site (suc i) ranges) [
      | none ↦ none
      | some outs ↦ some (map_write mine parts salt (site i) ∷ outs)
    ]
  ]

  unfoldable pub submit_maps : List b.Block → ℕ → ℕ → ℕ → (ℕ → Site) → Option (List (MapOut b))
  unfolding submit_each
  submit_maps [] parts salt zero site = some []
  submit_maps blocks parts salt t site = elim (assign (length blocks) t) [
    | none ↦ none
    | some ranges ↦ submit_each blocks parts salt site 0 ranges
  ]

  -- The dict {(i, dest): pick} of the peer engine: one row, then all rows from task i on.
  unfoldable pub pick_row :
      Dict (ℕ × ℕ) (Option b.Wire) → ℕ → MapOut b → List ℕ → Dict (ℕ × ℕ) (Option b.Wire)
  unfolding pick
  pick_row picks i mo [] = picks
  pick_row picks i mo (dest ∷ dests) = pick_row (put picks (i, dest) (pick mo dest)) i mo dests

  unfoldable pub pick_rows :
      Dict (ℕ × ℕ) (Option b.Wire) → ℕ → List (MapOut b) → ℕ → Dict (ℕ × ℕ) (Option b.Wire)
  unfolding pick_row
  pick_rows picks i [] parts = picks
  pick_rows picks i (mo ∷ outs) parts =
      pick_rows (pick_row picks i mo (range_from 0 parts)) (suc i) outs parts

  -- picks[(i, dest)] for each task: none where a key is missing.
  unfoldable pub column : Dict (ℕ × ℕ) (Option b.Wire) → ℕ → List ℕ → Option (List (Option b.Wire))
  column picks dest [] = some []
  column picks dest (i ∷ tasks) = elim (get picks (i, dest)) [
    | none ↦ none
    | some wire ↦ elim (column picks dest tasks) [ none ↦ none | some rest ↦ some (wire ∷ rest) ]
  ]

  -- The bytes of all the payloads, which a relay moves through the driver.
  unfoldable pub payload_bytes : List (MapOut b) → ℕ
  unfolding sum
  payload_bytes [] = 0
  payload_bytes (mo ∷ outs) = sum (map b.wire_bytes (values mo.payload)) + payload_bytes outs

  -- The picks for a destination on the peer engine (relay = false) and on the relay.
  unfoldable pub picks_for : Bool → List (MapOut b) → ℕ → ℕ → Option (List (Option b.Wire))
  unfolding pick pick_rows column
  picks_for true outs parts dest = some (map (λ mo. pick mo dest) outs)
  picks_for false outs parts dest =
      column (pick_rows [] 0 outs parts) dest (range_from 0 (length outs))

  unfoldable pub relayed : Bool → List (MapOut b) → ℕ
  unfolding payload_bytes
  relayed true outs = payload_bytes outs
  relayed false outs = 0

  unfoldable pub max_peak : List (MapOut b) → ℕ
  max_peak [] = 0
  max_peak (mo ∷ outs) = max mo.peak (max_peak outs)
