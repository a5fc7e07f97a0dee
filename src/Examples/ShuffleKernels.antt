-- ===== src/Examples/ShuffleKernels.antt =====
-- Runs of local/_shuffle_kernels.py.
use mathlib.Core.List.{flatten}
use graphed_executors.Prelude.{
  ℕ, ◌+◌, ◌*◌, ◌/◌, ◌≤◌, ◌≡◌, refl, List, [], ◌∷◌, length, map, some, range_from, arith, All,
  nat_eq, Option, none, true, false, ◌↔◌, ◌⊎◌,
}
use graphed_executors.Prelude.Dict.{get, values}
use graphed_executors.Kernels.Join.{join_dest}
use graphed_executors.Kernels.Join.Total.{join_dest_keeps, keeps_rows}
use graphed_executors.Kernels.Tally.{JoinTally, new_tally, add_all}
use graphed_executors.Kernels.Tally.Filed.{all_chunks, all_hashes, add_all_files}
use graphed_executors.Kernels.Backend.{How}
use graphed_executors.Examples.Rows.{row_backend, row_wire}
use graphed_executors.Kernels.Gather.{GatherWitness, disk_bytes, spill_node}
use graphed_executors.Kernels.Gather.Spill.{IsFull, spill_node_budget}
use graphed_executors.Kernels.Assign.{assign, assign_partition}
use graphed_executors.Kernels.Coalesce.{coalesce_task, pieces, block_of, row_group_bytes}
use graphed_executors.Kernels.Coalesce.Content.{get-coalesce_task}
use graphed_executors.Kernels.Coalesce.Bound.{coalesce_task_peak}
use graphed_executors.Kernels.Budget.{JoinResult, Store, address, join_with_budget}
use graphed_executors.Kernels.Budget.Spans.{chunk_of, InBudget, Contiguous, join_with_budget_chunks}

abbrev sources : List ℕ
sources = 3 ∷ 4 ∷ 5 ∷ []

assign_partition_example :
    (ranges : List (List ℕ)) × (assign 7 3 ≡ some ranges)
    × (length ranges ≡ 3)
    × (flatten ranges ≡ range_from 0 7)
    × All (λ range. (7 / 3 ≤ length range) × (length range ≤ 7 / 3 + 1)) ranges
assign_partition_example = assign_partition 7 3 (omega arith)

get-coalesce_task_example :
    get (coalesce_task row_backend sources 2 0).0 1
    ≡ block_of row_backend (pieces row_backend sources 2 0 1)
get-coalesce_task_example = get-coalesce_task row_backend sources 2 0 1 (omega arith)

coalesce_task_peak_example : (coalesce_task row_backend sources 2 0).1 + 2 ≤ 2 * row_group_bytes
coalesce_task_peak_example = coalesce_task_peak row_backend sources 2 0

join_with_budget_chunks_example :
    (spans : List (ℕ × ℕ)) × (out : JoinResult row_backend) × (store' : Store row_backend)
    × (join_with_budget row_backend 2 5 [] How.inner (some 200) [] ≡ some (out, store'))
    × (out.chunks ≡ map (chunk_of row_backend row_wire (λ v w e. e) 2 5 [] How.inner 200) spans)
    × (out.hashes
        ≡ map
            (λ span.
              address row_backend
                (chunk_of row_backend row_wire (λ v w e. e) 2 5 [] How.inner 200 span))
            spans)
    × Contiguous 0 spans 5
    × All (InBudget row_backend row_wire (λ v w e. e) 2 5 [] How.inner 200) spans
    × (out.spilled ≡ out.read)
join_with_budget_chunks_example =
    join_with_budget_chunks row_backend row_wire (λ v w e. e) 2 5 [] How.inner 200 [] (omega arith)

abbrev two_chunks : JoinResult row_backend
two_chunks = record {
  chunks = 2 ∷ 3 ∷ [];
  hashes = 2 ∷ 3 ∷ [];
  peak = 300;
  spilled = 2;
  rows = 5;
  read = 2;
}

abbrev one_chunk : JoinResult row_backend
one_chunk = record { chunks = 4 ∷ []; hashes = 4 ∷ []; peak = 400; spilled = 0; rows = 4; read = 0 }

add_all_files_example :
    (t : JoinTally row_backend) × (add_all row_backend
        (new_tally row_backend 3)
        0
        (some two_chunks ∷ none ∷ some one_chunk ∷ [])
      ≡ some t)
    × (values t.value ≡ all_chunks row_backend (some two_chunks ∷ none ∷ some one_chunk ∷ []))
    × (values t.hashes ≡ all_hashes row_backend (some two_chunks ∷ none ∷ some one_chunk ∷ []))
add_all_files_example =
    add_all_files row_backend 3 (some two_chunks ∷ none ∷ some one_chunk ∷ []) (omega arith)
      (refl, (tt, (refl, tt)))

abbrev one_matched : JoinTally row_backend
one_matched = record {
  next_key = 1;
  value = [];
  hashes = [];
  peak = 0;
  spilled = 0;
  rows = 0;
  read = 0;
  matched = 1 ∷ [];
}

join_dest_keeps_example :
    (joined : Option (JoinResult row_backend)) × (store' : Store row_backend) × (join_dest
        row_backend
        (2 ∷ [])
        []
        []
        How.left
        (some 200)
        (some 2)
        (some 5)
        []
      ≡ some (joined, store'))
    × ((joined ≡ none) ↔ (keeps_rows How.left true false ≡ false))
join_dest_keeps_example =
    join_dest_keeps row_backend row_wire (λ v w e. e) (2 ∷ []) [] [] How.left (some 200) (some 2)
      (some 5) []

abbrev some_disk_used : GatherWitness
some_disk_used = record {
  manifest_bytes = 0;
  peak_fetch_bytes = 0;
  fetch_spilled_bytes = 90;
  fetch_spill_count = 1;
  bulk_fetch_count = 1;
  cross_node_fetches = 0;
  bytes_transferred = 90;
  per_node_disk_bytes = (0, 90) ∷ [];
  disk_backpressure_events = 0;
}

spill_node_budget_example :
    (disk_bytes some_disk_used (spill_node some_disk_used (some 100) 2 0 20).1 + 20 ≤ 100)
    ⊎ (((spill_node some_disk_used (some 100) 2 0 20).1 ≡ 0)
        × IsFull some_disk_used 100 20 0
        × All (IsFull some_disk_used 100 20) (range_from 0 2))
spill_node_budget_example = spill_node_budget some_disk_used 100 2 0 20

abbrev pulls : List ((ℕ × ℕ) × ℕ)
pulls = ((0, 1), 7) ∷ ((0, 0), 8) ∷ ((0, 2), 9) ∷ []
