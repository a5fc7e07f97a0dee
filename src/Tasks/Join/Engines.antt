-- ===== src/Tasks/Join/Engines.antt =====
-- A join gives the same blocks on the peer engine and on the relay.
use graphed_executors.Prelude.{
  ℕ, zero, suc, ◌+◌, ◌<◌, ◌≤◌, ◌≡◌, refl, ap, ap₂, ◌∙◌, List, [], ◌∷◌, Option, none, some, length,
  max, Bool, true, false, range_from, arith, nat_eq,
}
use graphed_executors.Prelude.Dict.{Dict}
use graphed_executors.Kernels.Backend.{Backend}
use graphed_executors.Kernels.Tally.{JoinTally}
use graphed_executors.Kernels.Join.{choose_broadcast, empty_build_join}
use graphed_executors.Tasks.Graph.{Cluster, MapOut, relayed}
use graphed_executors.Tasks.Repartition.{ShuffleResult}
use graphed_executors.Tasks.Repartition.Picks.{picks_for_same}
use graphed_executors.Tasks.Join.{
  JoinSpec, Filing, join_picks, gather_joins, gather_dest, join_maps, shuffle_join, broadcast_build,
  broadcast_join, append_picks, cons_out, join, join_as, join_both, file_kept, file_join, file_outs,
  length_or_one, head, side_tasks,
}

module _ (b : Backend) where
  -- What the caller gets of a result besides the counters; none where the join raises.
  abbrev pub blocks_of : Option (ShuffleResult b) → Option (Dict ℕ b.Block × Dict ℕ b.Digest)
  blocks_of none = none
  blocks_of (some r) = some (r.value, r.dest_block_hashes)

  file_join_same :
      (bytes bytes' n_tasks : ℕ) (broadcast : Bool) (f : Option (Filing b))
      → blocks_of (file_join b false bytes n_tasks broadcast f)
        ≡ blocks_of (file_join b true bytes' n_tasks broadcast f)
  unfolding file_join
  file_join_same bytes bytes' n_tasks broadcast none = refl
  file_join_same bytes bytes' n_tasks broadcast (some f) = refl

  join_picks_same :
      (left right : List (MapOut b)) (parts dest : ℕ)
      → dest < parts
      → join_picks b false left right parts dest ≡ join_picks b true left right parts dest
  unfolding join_picks
  join_picks_same left right parts dest h =
      ap₂ (append_picks b) (picks_for_same b left parts dest h)
        (picks_for_same b right parts dest h)

  gather_joins_same :
      (left right : List (MapOut b)) (parts : ℕ) (spec : JoinSpec) (lc rc : Option b.Block)
      (cluster : Cluster) (n start : ℕ)
      → start + n ≤ parts
      → gather_joins b false left right parts spec lc rc cluster (range_from start n)
        ≡ gather_joins b true left right parts spec lc rc cluster (range_from start n)
  unfolding gather_joins
  gather_joins_same left right parts spec lc rc cluster zero start fits = refl
  gather_joins_same left right parts spec lc rc cluster (suc n) start fits =
      ap₂
        (λ picks outs. cons_out b (gather_dest b spec lc rc (length left) cluster start picks) outs)
        (join_picks_same left right parts start (omega arith))
        (gather_joins_same left right parts spec lc rc cluster n (suc start) (omega arith))

  join_maps_same :
      (left_blocks right_blocks : List b.Block) (parts : ℕ) (spec : JoinSpec) (cluster : Cluster)
      (left right : List (MapOut b))
      → blocks_of (join_maps b left_blocks right_blocks parts spec cluster false left right)
        ≡ blocks_of (join_maps b left_blocks right_blocks parts spec cluster true left right)
  unfolding join_maps
  join_maps_same left_blocks right_blocks parts spec cluster left right =
      file_join_same (relayed b false left + relayed b false right)
        (relayed b true left + relayed b true right)
        (max (side_tasks cluster left_blocks) (side_tasks cluster right_blocks)) false
        (gathers false)
      ∙ ap
          (λ outs. blocks_of (
            file_join b true (relayed b true left + relayed b true right)
              (max (side_tasks cluster left_blocks) (side_tasks cluster right_blocks)) false
              (file_outs b parts outs)))
          (gather_joins_same left right parts spec (head left_blocks) (head right_blocks) cluster
            parts 0 (omega arith))
    where
      gathers : Bool → Option (Filing b)
      gathers relay = file_outs b parts (
          gather_joins b relay left right parts spec (head left_blocks) (head right_blocks) cluster
            (range_from 0 parts))

  join_both_same :
      (left_blocks right_blocks : List b.Block) (parts : ℕ) (spec : JoinSpec) (cluster : Cluster)
      (left right : Option (List (MapOut b)))
      → blocks_of (join_both b left_blocks right_blocks parts spec cluster false left right)
        ≡ blocks_of (join_both b left_blocks right_blocks parts spec cluster true left right)
  unfolding join_both
  join_both_same left_blocks right_blocks parts spec cluster (some left) (some right) =
      join_maps_same left_blocks right_blocks parts spec cluster left right
  join_both_same left_blocks right_blocks parts spec cluster (some left) none = refl
  join_both_same left_blocks right_blocks parts spec cluster none right = refl

  shuffle_join_same :
      (left_blocks right_blocks : List b.Block) (parts : ℕ) (spec : JoinSpec) (cluster : Cluster)
      → blocks_of (shuffle_join b left_blocks right_blocks parts spec cluster false)
        ≡ blocks_of (shuffle_join b left_blocks right_blocks parts spec cluster true)
  unfolding shuffle_join
  shuffle_join_same left_blocks right_blocks parts spec cluster =
      join_both_same left_blocks right_blocks parts spec cluster _ _

  file_kept_same :
      (kept : Option (JoinTally b))
      → blocks_of (file_kept b false kept) ≡ blocks_of (file_kept b true kept)
  unfolding file_kept
  file_kept_same none = refl
  file_kept_same (some kept) = refl

  broadcast_join_same :
      (left_blocks right_blocks : List b.Block) (spec : JoinSpec) (cluster : Cluster)
      → blocks_of (broadcast_join b left_blocks right_blocks spec cluster false)
        ≡ blocks_of (broadcast_join b left_blocks right_blocks spec cluster true)
  unfolding broadcast_join broadcast_build
  broadcast_join_same [] right_blocks spec cluster =
      file_kept_same (empty_build_join b right_blocks spec.how)
  broadcast_join_same (x ∷ left_blocks) right_blocks spec cluster =
      let bytes : ℕ = b.wire_bytes (b.to_wire (b.concat (x ∷ left_blocks))) in
      file_join_same bytes bytes (length_or_one right_blocks) true _

  join_as_same :
      (chosen : Bool) (left_blocks right_blocks : List b.Block) (parts : ℕ) (spec : JoinSpec)
      (cluster : Cluster)
      → blocks_of (join_as b chosen left_blocks right_blocks parts spec cluster false)
        ≡ blocks_of (join_as b chosen left_blocks right_blocks parts spec cluster true)
  unfolding join_as
  join_as_same true left_blocks right_blocks parts spec cluster =
      broadcast_join_same left_blocks right_blocks spec cluster
  join_as_same false left_blocks right_blocks parts spec cluster =
      shuffle_join_same left_blocks right_blocks parts spec cluster

  -- The peer engine and the relay give the same blocks and the same addresses for a join, or both
  -- raise.
  pub join_same :
      (left_blocks right_blocks : List b.Block) (parts : ℕ) (spec : JoinSpec) (cluster : Cluster)
      (broadcast : Option Bool)
      → blocks_of (join b left_blocks right_blocks parts spec cluster broadcast false)
        ≡ blocks_of (join b left_blocks right_blocks parts spec cluster broadcast true)
  unfolding join
  join_same left_blocks right_blocks parts spec cluster broadcast =
      join_as_same (choose_broadcast b left_blocks right_blocks parts broadcast) left_blocks
        right_blocks parts spec cluster
