-- ===== src/Tasks/Repartition.antt =====
-- _repartition and dask_run_repartition of common/tasks_engine.py.
pub mod Picks
pub mod Content
use graphed_executors.Prelude.{
  ℕ, zero, suc, List, [], ◌∷◌, Option, none, some, length, map, min, Bool, true, false, range_from,
  nat_eq,
}
use graphed_executors.Prelude.Dict.{Dict, put}
use graphed_executors.Kernels.Backend.{Backend}
use graphed_executors.Tasks.Graph.{
  Site, Cluster, MapOut, GatherOut, gather, submit_maps, picks_for, relayed, max_peak,
}

-- DaskShuffleWitness; `driver_relay_bytes` is there on the relay only (RelayShuffleWitness).
pub record Witness : Type 0 where
  pub n_producer_tasks : ℕ
  pub blocks_per_producer_task : List ℕ
  pub peak_writer_buffer_bytes : ℕ
  pub broadcast_chosen : Bool
  pub peak_join_bytes : ℕ
  pub join_spilled_partitions : ℕ
  pub join_output_rows : ℕ
  pub producer_sites : List Site
  pub gather_sites : Dict ℕ Site
  pub driver_relay_bytes : Option ℕ

pub record ShuffleResult (b : Backend) : Type 0 where
  pub dest_block_hashes : Dict ℕ b.Digest
  pub value : Dict ℕ b.Block
  pub witness : Witness

pub record Gathered (b : Backend) : Type 0 where
  pub value : Dict ℕ b.Block
  pub hashes : Dict ℕ b.Digest
  pub sites : Dict ℕ Site

abbrev pub witness_bytes : Bool → ℕ → Option ℕ
witness_bytes true bytes = some bytes
witness_bytes false bytes = none

module _ (b : Backend) where
  -- The gather tasks of the destinations.
  unfoldable pub gather_dests :
      Bool → List (MapOut b) → ℕ → Cluster → List ℕ → Option (List (Option (GatherOut b)))
  unfolding gather picks_for
  gather_dests relay outs parts cluster [] = some []
  gather_dests relay outs parts cluster (dest ∷ dests) = elim (picks_for b relay outs parts dest) [
    | none ↦ none
    | some picks ↦ elim (gather_dests relay outs parts cluster dests) [
      | none ↦ none
      | some rest ↦ some (gather b dest picks (cluster.gather_site dest) ∷ rest)
    ]
  ]

  -- The loop over their results.
  unfoldable pub file_gathered : Gathered b → List (Option (GatherOut b)) → Gathered b
  file_gathered g [] = g
  file_gathered g (none ∷ outs) = file_gathered g outs
  file_gathered g (some out ∷ outs) =
      file_gathered
        (record {
          value = put g.value out.dest out.block;
          hashes = put g.hashes out.dest out.hash;
          sites = put g.sites out.dest out.site;
        })
        outs

  abbrev pub none_gathered : Gathered b
  none_gathered = record { value = []; hashes = []; sites = [] }

  -- t = min(n_workers, n_src) if n_src else 1
  abbrev pub producers : Cluster → List b.Block → ℕ
  producers cluster [] = 1
  producers cluster (x ∷ xs) = min cluster.n_workers (length (x ∷ xs))

  abbrev pub repartition_witness : Bool → ℕ → List (MapOut b) → Gathered b → Witness
  repartition_witness relay t outs g = record {
    n_producer_tasks = t;
    blocks_per_producer_task = map (λ mo. mo.blocks) outs;
    peak_writer_buffer_bytes = max_peak b outs;
    broadcast_chosen = false;
    peak_join_bytes = 0;
    join_spilled_partitions = 0;
    join_output_rows = 0;
    producer_sites = map (λ mo. mo.site) outs;
    gather_sites = g.sites;
    driver_relay_bytes = witness_bytes relay (relayed b relay outs);
  }

  unfoldable pub finish_repartition :
      Bool → ℕ → List (MapOut b) → Option (List (Option (GatherOut b))) → Option (ShuffleResult b)
  unfolding file_gathered
  finish_repartition relay t outs none = none
  finish_repartition relay t outs (some gathers) =
      let g = file_gathered none_gathered gathers in
      some (record {
        dest_block_hashes = g.hashes;
        value = g.value;
        witness = repartition_witness relay t outs g;
      })

  unfoldable pub repartition : List b.Block → ℕ → ℕ → Cluster → Bool → Option (ShuffleResult b)
  unfolding submit_maps gather_dests finish_repartition
  repartition src_blocks parts salt cluster relay =
      let t = producers cluster src_blocks in
      elim (submit_maps b src_blocks parts salt t cluster.map_site) [
        | none ↦ none
        | some outs ↦
            finish_repartition relay t outs
              (gather_dests relay outs parts cluster (range_from 0 parts))
      ]

  -- _require_peer refuses a backend without peer data movement.
  unfoldable pub run_repartition : List b.Block → ℕ → Cluster → ℕ → Option (ShuffleResult b)
  unfolding repartition
  run_repartition src_blocks parts cluster salt = elim cluster.peer_data_movement [
    | false ↦ none
    | true ↦ repartition src_blocks parts salt cluster false
  ]
