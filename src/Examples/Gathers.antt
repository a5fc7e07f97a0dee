-- ===== src/Examples/Gathers.antt =====
-- A run of stage2_gather of local/_shuffle_kernels.py: two tasks, two nodes, every fetch spilled.
use graphed_executors.Prelude.{ℕ, ◌≡◌, refl, List, [], ◌∷◌, Option, none, some}
use graphed_executors.Examples.Rows.{row_backend}
use graphed_executors.Prelude.Dict.{get, put}
use graphed_executors.Kernels.Gather.{GatherWitness}
use graphed_executors.Kernels.Stage2.{Gathering, stage2_gather}

abbrev no_counts : GatherWitness
no_counts = record {
  manifest_bytes = 0;
  peak_fetch_bytes = 0;
  fetch_spilled_bytes = 0;
  fetch_spill_count = 0;
  bulk_fetch_count = 0;
  cross_node_fetches = 0;
  bytes_transferred = 0;
  per_node_disk_bytes = [];
  disk_backpressure_events = 0;
}

abbrev value_of : Option (Gathering row_backend) → Option (List (ℕ × ℕ))
value_of none = none
value_of (some g) = some g.value

stage2_gather_test :
    value_of (
      stage2_gather row_backend
        (λ holder digest. some digest)
        (some 1)
        (some 100)
        2
        2
        2
        ((0, (0, (3, 0)) ∷ (1, (4, 0)) ∷ []) ∷ (1, (0, (5, 1)) ∷ []) ∷ [])
        no_counts)
    ≡ some ((0, 8) ∷ (1, 4) ∷ [])
unfolding stage2_gather get put
stage2_gather_test = refl
