-- ===== src/Tasks/Join.antt =====
-- _join, _shuffle_join, _broadcast_join and dask_run_join of common/tasks_engine.py.
pub mod Engines
use graphed_executors.Prelude.{
  ℕ, zero, suc, ◌+◌, List, [], ◌∷◌, ◌++◌, Option, none, some, length, map, min, max, Bool, true,
  false, range_from, nat_eq,
}
use Prim.Native.String.{String}
use graphed_executors.Prelude.Dict.{Dict, put}
use graphed_executors.Kernels.Backend.{Backend, How}
use graphed_executors.Kernels.Join.{choose_broadcast, per_block_how, keeps_build, empty_build_join}
use graphed_executors.Kernels.Tally.{JoinTally, new_tally, add, unmatched}
use graphed_executors.Tasks.Graph.{
  Site, Cluster, MapOut, JoinOut, submit_maps, picks_for, relayed, gather_join, broadcast_join_part,
}
use graphed_executors.Tasks.Repartition.{ShuffleResult, Witness, witness_bytes}

pub record JoinSpec : Type 0 where
  pub on : List String
  pub how : How
  pub salt : ℕ
  pub mem_budget : Option ℕ

abbrev pub head {ℓ} : {A : Type ℓ} → List A → Option A
head [] = none
head (x ∷ xs) = some x

-- min(n_workers, len(blocks)) if blocks else 0
abbrev pub side_tasks {ℓ} : {A : Type ℓ} → Cluster → List A → ℕ
side_tasks cluster [] = 0
side_tasks cluster (x ∷ xs) = min cluster.n_workers (length (x ∷ xs))

-- len(blocks) or 1
abbrev pub length_or_one {ℓ} : {A : Type ℓ} → List A → ℕ
length_or_one [] = 1
length_or_one (x ∷ xs) = length (x ∷ xs)

abbrev pub members : Option (List ℕ) → List ℕ
members none = []
members (some rows) = rows

module _ (b : Backend) where
  -- The tally and the sites of the tasks.
  pub record Filing : Type 0 where
    pub tally : JoinTally b
    pub sites : Dict ℕ Site

  unfoldable pub add_out : JoinTally b → Option ℕ → JoinOut b → Option (JoinTally b)
  add_out t key out = add b (record t { matched = t.matched ++ members out.matched }) key out.joined

  -- for dest, fut in enumerate(gather_futs)
  unfoldable pub add_outs : Filing → ℕ → List (Option (JoinOut b)) → Option Filing
  unfolding add_out
  add_outs f dest [] = some f
  add_outs f dest (none ∷ outs) = add_outs f (suc dest) outs
  add_outs f dest (some out ∷ outs) = elim (add_out f.tally (some dest) out) [
    | none ↦ none
    | some t ↦ add_outs (record { tally = t; sites = put f.sites dest out.site }) (suc dest) outs
  ]

  -- Either raises.
  unfoldable pub append_picks :
      Option (List (Option b.Wire)) → Option (List (Option b.Wire)) → Option (List (Option b.Wire))
  append_picks (some left_picks) (some right_picks) = some (left_picks ++ right_picks)
  append_picks (some left_picks) none = none
  append_picks none right_picks = none

  unfoldable pub cons_out :
      Option (Option (JoinOut b))
      → Option (List (Option (JoinOut b)))
      → Option (List (Option (JoinOut b)))
  cons_out (some out) (some outs) = some (out ∷ outs)
  cons_out (some out) none = none
  cons_out none outs = none

  unfoldable pub join_picks :
      Bool → List (MapOut b) → List (MapOut b) → ℕ → ℕ → Option (List (Option b.Wire))
  unfolding append_picks
  join_picks relay left right parts dest =
      append_picks (picks_for b relay left parts dest) (picks_for b relay right parts dest)

  -- The gather-join task of one destination.
  unfoldable pub gather_dest :
      JoinSpec
      → Option b.Block
      → Option b.Block
      → ℕ
      → Cluster
      → ℕ
      → Option (List (Option b.Wire))
      → Option (Option (JoinOut b))
  gather_dest spec left_carrier right_carrier n_left cluster dest none = none
  gather_dest spec left_carrier right_carrier n_left cluster dest (some picks) =
      gather_join b dest spec.on spec.how spec.mem_budget left_carrier right_carrier n_left picks
        (cluster.gather_site dest)

  unfoldable pub gather_joins :
      Bool
      → List (MapOut b)
      → List (MapOut b)
      → ℕ
      → JoinSpec
      → Option b.Block
      → Option b.Block
      → Cluster
      → List ℕ
      → Option (List (Option (JoinOut b)))
  unfolding join_picks gather_dest cons_out
  gather_joins relay left right parts spec lc rc cluster [] = some []
  gather_joins relay left right parts spec lc rc cluster (dest ∷ dests) =
      cons_out
        (gather_dest spec lc rc (length left) cluster dest (join_picks relay left right parts dest))
        (gather_joins relay left right parts spec lc rc cluster dests)

  abbrev pub join_witness : Bool → ℕ → ℕ → Bool → Filing → Witness
  join_witness relay bytes n_tasks broadcast f = record {
    n_producer_tasks = n_tasks;
    blocks_per_producer_task = [];
    peak_writer_buffer_bytes = 0;
    broadcast_chosen = broadcast;
    peak_join_bytes = f.tally.peak;
    join_spilled_partitions = f.tally.spilled;
    join_output_rows = f.tally.rows;
    producer_sites = [];
    gather_sites = f.sites;
    driver_relay_bytes = witness_bytes relay bytes;
  }

  abbrev pub join_result : Filing → Witness → ShuffleResult b
  join_result f witness = record {
    dest_block_hashes = f.tally.hashes;
    value = f.tally.value;
    witness = witness;
  }

  -- The result of a join, when its tasks are filed.
  unfoldable pub file_join : Bool → ℕ → ℕ → Bool → Option Filing → Option (ShuffleResult b)
  file_join relay bytes n_tasks broadcast none = none
  file_join relay bytes n_tasks broadcast (some f) =
      some (join_result f (join_witness relay bytes n_tasks broadcast f))

  unfoldable pub file_outs : ℕ → Option (List (Option (JoinOut b))) → Option Filing
  unfolding add_outs
  file_outs next_key none = none
  file_outs next_key (some outs) =
      add_outs (record { tally = new_tally b next_key; sites = [] }) 0 outs

  -- What follows the maps of both sides.
  unfoldable pub join_maps :
      List b.Block
      → List b.Block
      → ℕ
      → JoinSpec
      → Cluster
      → Bool
      → List (MapOut b)
      → List (MapOut b)
      → Option (ShuffleResult b)
  unfolding gather_joins file_join file_outs
  join_maps left_blocks right_blocks parts spec cluster relay left right =
      file_join relay (relayed b relay left + relayed b relay right)
        (max (side_tasks cluster left_blocks) (side_tasks cluster right_blocks)) false
        (file_outs parts (
          gather_joins relay left right parts spec (head left_blocks) (head right_blocks) cluster
            (range_from 0 parts)))

  unfoldable pub join_both :
      List b.Block
      → List b.Block
      → ℕ
      → JoinSpec
      → Cluster
      → Bool
      → Option (List (MapOut b))
      → Option (List (MapOut b))
      → Option (ShuffleResult b)
  unfolding join_maps
  join_both left_blocks right_blocks parts spec cluster relay (some left) (some right) =
      join_maps left_blocks right_blocks parts spec cluster relay left right
  join_both left_blocks right_blocks parts spec cluster relay (some left) none = none
  join_both left_blocks right_blocks parts spec cluster relay none right = none

  unfoldable pub shuffle_join :
      List b.Block → List b.Block → ℕ → JoinSpec → Cluster → Bool → Option (ShuffleResult b)
  unfolding join_both
  shuffle_join left_blocks right_blocks parts spec cluster relay =
      join_both left_blocks right_blocks parts spec cluster relay
        (submit_maps b left_blocks parts spec.salt (side_tasks cluster left_blocks)
          cluster.map_site)
        (submit_maps b right_blocks parts spec.salt (side_tasks cluster right_blocks)
          cluster.map_site)

  -- The parts of the probe blocks from number `pidx` on.
  unfoldable pub join_parts :
      b.Wire → JoinSpec → Cluster → ℕ → List b.Block → Option (List (Option (JoinOut b)))
  join_parts build_wire spec cluster pidx [] = some []
  join_parts build_wire spec cluster pidx (probe_block ∷ right_blocks) =
      elim (broadcast_join_part b build_wire probe_block spec.on (per_block_how spec.how)
        spec.mem_budget (keeps_build spec.how) none (cluster.gather_site pidx)) [
          | none ↦ none
          | some out ↦ elim (join_parts build_wire spec cluster (suc pidx) right_blocks) [
            | none ↦ none
            | some outs ↦ some (some out ∷ outs)
          ]
        ]

  -- unmatched = tally.unmatched(len(build_concat)) if track_unmatched else ()
  unfoldable pub tail_rows : JoinTally b → JoinSpec → ℕ → List ℕ
  tail_rows t spec n_build = elim (keeps_build spec.how) [
    | true ↦ unmatched b t n_build
    | false ↦ []
  ]

  -- The build rows that no block matched, once.
  unfoldable pub add_tail :
      Filing → b.Wire → JoinSpec → Cluster → List b.Block → List ℕ → Option Filing
  add_tail f build_wire spec cluster [] rows = some f
  add_tail f build_wire spec cluster (first ∷ right_blocks) [] = some f
  add_tail f build_wire spec cluster (first ∷ right_blocks) (row ∷ rows) =
      elim (broadcast_join_part b build_wire first spec.on How.left spec.mem_budget false
        (some (row ∷ rows)) (cluster.gather_site 0)) [
          | none ↦ none
          | some out ↦ elim (add_out f.tally none out) [
            | none ↦ none
            | some t ↦ some (record { tally = t; sites = f.sites })
          ]
        ]

  unfoldable pub file_tail :
      Option Filing → b.Block → List b.Block → JoinSpec → Cluster → Option Filing
  unfolding tail_rows add_tail
  file_tail none build right_blocks spec cluster = none
  file_tail (some f) build right_blocks spec cluster =
      add_tail f (b.to_wire build) spec cluster right_blocks (tail_rows f.tally spec (b.rows build))

  -- With a build side.
  unfoldable pub broadcast_build :
      b.Block → List b.Block → JoinSpec → Cluster → Bool → Option (ShuffleResult b)
  unfolding join_parts file_join file_outs file_tail
  broadcast_build build right_blocks spec cluster relay =
      file_join relay (b.wire_bytes (b.to_wire build)) (length_or_one right_blocks) true (
        file_tail
          (file_outs (length right_blocks)
            (join_parts (b.to_wire build) spec cluster 0 right_blocks))
          build right_blocks spec cluster)

  -- Without one.
  unfoldable pub file_kept : Bool → Option (JoinTally b) → Option (ShuffleResult b)
  file_kept relay none = none
  file_kept relay (some kept) =
      let f : Filing = record { tally = kept; sites = [] } in
      let witness : Witness = join_witness relay 0 1 true f in
      some (join_result f (record witness { peak_join_bytes = 0; join_spilled_partitions = 0 }))

  unfoldable pub broadcast_join :
      List b.Block → List b.Block → JoinSpec → Cluster → Bool → Option (ShuffleResult b)
  unfolding broadcast_build file_kept
  broadcast_join [] right_blocks spec cluster relay =
      file_kept relay (empty_build_join b right_blocks spec.how)
  broadcast_join (x ∷ left_blocks) right_blocks spec cluster relay =
      broadcast_build (b.concat (x ∷ left_blocks)) right_blocks spec cluster relay

  unfoldable pub join_as :
      Bool → List b.Block → List b.Block → ℕ → JoinSpec → Cluster → Bool → Option (ShuffleResult b)
  unfolding broadcast_join shuffle_join
  join_as true left_blocks right_blocks parts spec cluster relay =
      broadcast_join left_blocks right_blocks spec cluster relay
  join_as false left_blocks right_blocks parts spec cluster relay =
      shuffle_join left_blocks right_blocks parts spec cluster relay

  unfoldable pub join :
      List b.Block
      → List b.Block
      → ℕ
      → JoinSpec
      → Cluster
      → Option Bool
      → Bool
      → Option (ShuffleResult b)
  unfolding join_as
  join left_blocks right_blocks parts spec cluster broadcast relay =
      join_as (choose_broadcast b left_blocks right_blocks parts broadcast) left_blocks right_blocks
        parts spec cluster relay

  -- _require_peer refuses a backend without peer data movement.
  unfoldable pub run_join :
      List b.Block → List b.Block → ℕ → JoinSpec → Cluster → Option Bool → Option (ShuffleResult b)
  unfolding join
  run_join left_blocks right_blocks parts spec cluster broadcast = elim cluster.peer_data_movement [
    | false ↦ none
    | true ↦ join left_blocks right_blocks parts spec cluster broadcast false
  ]
