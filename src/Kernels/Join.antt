-- ===== src/Kernels/Join.antt =====
-- The joins of local/_shuffle_kernels.py around join_with_budget: of one destination, of one probe
-- block of a broadcast join, and against a build side with no partitions.
pub mod Total
use graphed_executors.Prelude.{
  ℕ, zero, suc, List, [], ◌∷◌, Option, none, some, length, map, Bool, true, false,
}
use Prim.Native.String.{String}
use graphed_executors.Kernels.Backend.{Backend, How}
use graphed_executors.Kernels.Coalesce.{sum}
use graphed_executors.Kernels.Budget.{JoinResult, Store, address, join_with_budget}
use graphed_executors.Kernels.Tally.{JoinTally, new_tally, add}

-- BROADCAST_PER_BLOCK_HOW
unfoldable pub per_block_how : How → How
per_block_how How.inner = How.inner
per_block_how How.left = How.inner
per_block_how How.right = How.right
per_block_how How.outer = How.right

-- how in ("left", "outer"), how in ("right", "outer")
abbrev pub keeps_build : How → Bool
keeps_build How.left = true
keeps_build How.outer = true
keeps_build _ = false

abbrev pub keeps_probe : How → Bool
keeps_probe How.right = true
keeps_probe How.outer = true
keeps_probe _ = false

module _ (b : Backend) where
  unfoldable pub choose_broadcast : List b.Block → List b.Block → ℕ → Option Bool → Bool
  choose_broadcast left_blocks right_blocks parts (some broadcast) = broadcast
  choose_broadcast left_blocks right_blocks parts none =
      b.broadcast_join_choice (sum (map b.estimated_bytes left_blocks))
        (sum (map b.estimated_bytes right_blocks)) parts

  unfoldable pub pass_through : List b.Block → JoinResult b
  pass_through blocks =
      let blk = b.concat blocks in
      record {
        chunks = blk ∷ [];
        hashes = address b blk ∷ [];
        peak = 0;
        spilled = 0;
        rows = b.rows blk;
        read = 0;
      }

  -- A join whose result the caller keeps.
  abbrev pub kept_join : Option (JoinResult b × Store b) → Option (Option (JoinResult b) × Store b)
  kept_join none = none
  kept_join (some (joined, store)) = some (some joined, store)

  -- The last branches of join_dest. The outer option is for what raises.
  unfoldable pub join_sides :
      List b.Block
      → List b.Block
      → List String
      → How
      → Option ℕ
      → Option b.Block
      → Option b.Block
      → Store b
      → Option (Option (JoinResult b) × Store b)
  join_sides (x ∷ xs) (y ∷ ys) on how budget left_carrier right_carrier store =
      kept_join (join_with_budget b (b.concat (x ∷ xs)) (b.concat (y ∷ ys)) on how budget store)
  join_sides (x ∷ xs) [] on how budget left_carrier none store =
      some (some (pass_through (x ∷ xs)), store)
  join_sides (x ∷ xs) [] on how budget left_carrier (some carrier) store =
      kept_join (join_with_budget b (b.concat (x ∷ xs)) carrier on How.left budget store)
  join_sides [] probe_side on how budget none right_carrier store =
      some (some (pass_through probe_side), store)
  join_sides [] probe_side on how budget (some carrier) right_carrier store =
      kept_join (join_with_budget b carrier (b.concat probe_side) on How.right budget store)

  unfoldable pub join_dest :
      List b.Block
      → List b.Block
      → List String
      → How
      → Option ℕ
      → Option b.Block
      → Option b.Block
      → Store b
      → Option (Option (JoinResult b) × Store b)
  join_dest [] [] on how budget left_carrier right_carrier store = some (none, store)
  join_dest [] (y ∷ ys) on how budget left_carrier right_carrier store = elim (keeps_probe how) [
    | false ↦ some (none, store)
    | true ↦ join_sides [] (y ∷ ys) on how budget left_carrier right_carrier store
  ]
  join_dest (x ∷ xs) [] on how budget left_carrier right_carrier store = elim (keeps_build how) [
    | false ↦ some (none, store)
    | true ↦ join_sides (x ∷ xs) [] on how budget left_carrier right_carrier store
  ]
  join_dest (x ∷ xs) (y ∷ ys) on how budget left_carrier right_carrier store =
      join_sides (x ∷ xs) (y ∷ ys) on how budget left_carrier right_carrier store

  -- The build rows that the block matched, where they are tracked, and the join.
  unfoldable pub join_probe_block :
      b.Block
      → b.Block
      → List String
      → How
      → Option ℕ
      → Store b
      → Bool
      → Option (Option (List ℕ) × JoinResult b × Store b)
  join_probe_block build probe on how mem_budget store track_unmatched =
      let matched : Option (List ℕ) = elim track_unmatched [
        | true ↦ some (b.match_indices build probe on)
        | false ↦ none
      ] in
      elim (join_with_budget b build probe on how mem_budget store) [
        | none ↦ none
        | some (joined, store') ↦ some (matched, joined, store')
      ]

  -- The loop over enumerate(right_blocks).
  unfoldable pub add_each : JoinTally b → ℕ → List b.Block → Option (JoinTally b)
  unfolding pass_through
  add_each t pidx [] = some t
  add_each t pidx (block ∷ blocks) = elim (add b t (some pidx) (pass_through (block ∷ []))) [
    | none ↦ none
    | some t' ↦ add_each t' (suc pidx) blocks
  ]

  unfoldable pub empty_build_join : List b.Block → How → Option (JoinTally b)
  unfolding add_each
  empty_build_join right_blocks how = elim (keeps_probe how) [
    | true ↦ add_each (new_tally b (length right_blocks)) 0 right_blocks
    | false ↦ some (new_tally b (length right_blocks))
  ]
