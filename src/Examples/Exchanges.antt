-- ===== src/Examples/Exchanges.antt =====
-- Runs of common/tasks_engine.py.
use graphed_executors.Prelude.{◌≡◌, List, [], ◌∷◌, some, true, false, range_from, arith}
use graphed_executors.Examples.Rows.{row_backend, row_wire, row_concat}
use graphed_executors.Kernels.Backend.{How}
use graphed_executors.Tasks.Graph.{Cluster, MapOut, picks_for}
use graphed_executors.Tasks.Repartition.{ShuffleResult, repartition}
use graphed_executors.Tasks.Repartition.Picks.{picks_for_same}
use graphed_executors.Tasks.Repartition.Content.{blocks_for, hashes_for, repartition_content}
use graphed_executors.Tasks.Join.{JoinSpec, join}
use graphed_executors.Tasks.Join.Engines.{blocks_of, join_same}

abbrev two_workers : Cluster
two_workers = record {
  n_workers = 2;
  peer_data_movement = true;
  map_site = λ i. (i, "map");
  gather_site = λ i. (i, "gather");
}

abbrev maps : List (MapOut row_backend)
maps =
    record { payload = (0, 4) ∷ (1, 3) ∷ []; blocks = 2; peak = 700; site = (0, "map") }
    ∷ record { payload = (1, 5) ∷ []; blocks = 1; peak = 500; site = (1, "map") }
    ∷ []

abbrev inner_join : JoinSpec
inner_join = record { on = "key" ∷ []; how = How.inner; salt = 0; mem_budget = some 200 }

picks_for_same_example : picks_for row_backend false maps 2 1 ≡ picks_for row_backend true maps 2 1
picks_for_same_example = picks_for_same row_backend maps 2 1 (omega arith)

repartition_content_example :
    (out : ShuffleResult row_backend) × (repartition row_backend
        (3 ∷ 4 ∷ 5 ∷ [])
        2
        0
        two_workers
        true
      ≡ some out)
    × (out.value
        ≡ blocks_for row_backend row_concat row_wire (3 ∷ 4 ∷ 5 ∷ []) 2 0 [] (range_from 0 2))
    × (out.dest_block_hashes
        ≡ hashes_for row_backend row_concat row_wire (3 ∷ 4 ∷ 5 ∷ []) 2 0 [] (range_from 0 2))
repartition_content_example =
    repartition_content row_backend row_concat row_wire (3 ∷ 4 ∷ 5 ∷ []) 2 0 two_workers true
      (omega arith)

join_same_example :
    blocks_of row_backend
      (join row_backend (2 ∷ 3 ∷ []) (4 ∷ 5 ∷ []) 2 inner_join two_workers (some false) false)
    ≡ blocks_of row_backend
        (join row_backend (2 ∷ 3 ∷ []) (4 ∷ 5 ∷ []) 2 inner_join two_workers (some false) true)
join_same_example =
    join_same row_backend (2 ∷ 3 ∷ []) (4 ∷ 5 ∷ []) 2 inner_join two_workers (some false)
