-- ===== src/Tasks/Repartition/Content.antt =====
-- What a repartition returns: for every destination its rows, in the order of the source blocks.
mod Maps
use mathlib.Core.List.{append_assoc, flatten}
use graphed_executors.Prelude.{
  ℕ, zero, suc, ◌+◌, ◌<◌, ◌≤◌, ◌≡◌, refl, sym, ap, ◌∙◌, List, [], ◌∷◌, ◌++◌, Option, none, some,
  length, map, min, Bool, true, false, range_from, nat_eq, arith,
}
use graphed_executors.Prelude.Dict.{Dict, get, put}
use graphed_executors.Kernels.Backend.{Backend, ConcatLaws, WireLaws}
use graphed_executors.Kernels.Coalesce.{pieces, block_of}
use graphed_executors.Kernels.Budget.{address}
use graphed_executors.Tasks.Graph.{
  Cluster, MapOut, GatherOut, pick, gather, gather_blocks, present, submit_maps, picks_for,
}
use graphed_executors.Tasks.Repartition.{
  ShuffleResult, Gathered, gather_dests, file_gathered, finish_repartition, repartition, producers,
  none_gathered, repartition_witness,
}
use graphed_executors.Tasks.Repartition.Picks.{picks_for_same}
use graphed_executors.Tasks.Repartition.Content.Maps.{
  Produced, submit_maps-Produced, present-picks, block_of-present, pieces_of, flatten-pieces,
}

module _ (b : Backend) (laws : ConcatLaws b) (wire : WireLaws b) where
  abbrev pub put_block : Dict ℕ b.Block → ℕ → Option b.Block → Dict ℕ b.Block
  put_block d dest none = d
  put_block d dest (some block) = put d dest block

  abbrev pub put_address : Dict ℕ b.Digest → ℕ → Option b.Block → Dict ℕ b.Digest
  put_address d dest none = d
  put_address d dest (some block) = put d dest (address b block)

  -- The block of every destination in turn, where it has one.
  unfoldable pub blocks_for : List b.Block → ℕ → ℕ → Dict ℕ b.Block → List ℕ → Dict ℕ b.Block
  blocks_for src parts salt d [] = d
  blocks_for src parts salt d (dest ∷ dests) =
      blocks_for src parts salt (put_block d dest (block_of b (pieces b src parts salt dest))) dests

  -- Its address.
  unfoldable pub hashes_for : List b.Block → ℕ → ℕ → Dict ℕ b.Digest → List ℕ → Dict ℕ b.Digest
  hashes_for src parts salt d [] = d
  hashes_for src parts salt d (dest ∷ dests) =
      hashes_for src parts salt (put_address d dest (block_of b (pieces b src parts salt dest)))
        dests

  module _ (src : List b.Block) (parts salt : ℕ) (cluster : Cluster) (relay : Bool) where
    -- The result of the gather task of a destination.
    abbrev gathered_as : ℕ → Option b.Block → Option (GatherOut b)
    gathered_as dest none = none
    gathered_as dest (some block) = some (record {
      dest = dest;
      block = block;
      hash = address b block;
      site = cluster.gather_site dest;
    })

    abbrev gathered : ℕ → Option (GatherOut b)
    gathered dest = gathered_as dest (block_of b (pieces b src parts salt dest))

    gather_blocks-block_of :
        (dest : ℕ) (xs : List b.Block)
        → gather_blocks b dest xs (cluster.gather_site dest) ≡ gathered_as dest (block_of b xs)
    unfolding gather_blocks
    gather_blocks-block_of dest [] = refl
    gather_blocks-block_of dest (x ∷ xs) = refl

    picks_for-map :
        (outs : List (MapOut b)) (dest : ℕ)
        → dest < parts
        → picks_for b relay outs parts dest ≡ some (map (λ mo. pick b mo dest) outs)
    unfolding picks_for
    picks_for-map outs dest h = of relay
      where
        of : (r : Bool) → picks_for b r outs parts dest ≡ some (map (λ mo. pick b mo dest) outs)
        of true = refl
        of false = picks_for_same b outs parts dest h

    gather-gathered :
        (outs : List (MapOut b)) (groups : List (List b.Block)) (dest : ℕ)
        → Produced b parts salt outs groups
        → flatten groups ≡ src
        → dest < parts
        → gather b dest (map (λ mo. pick b mo dest) outs) (cluster.gather_site dest) ≡ gathered dest
    unfolding gather
    gather-gathered outs groups dest made all h =
        ap (λ xs. gather_blocks b dest xs (cluster.gather_site dest))
          (present-picks b parts salt wire outs groups dest made h)
        ∙ gather_blocks-block_of dest _
        ∙ ap (gathered_as dest) (
            block_of-present b laws (pieces_of b parts salt dest groups)
            ∙ ap (block_of b) (
                flatten-pieces b parts salt dest groups ∙ ap (λ s. pieces b s parts salt dest) all))

    gather_dests-gathered :
        (outs : List (MapOut b)) (groups : List (List b.Block)) (n start : ℕ)
        → Produced b parts salt outs groups
        → flatten groups ≡ src
        → start + n ≤ parts
        → gather_dests b relay outs parts cluster (range_from start n)
          ≡ some (map gathered (range_from start n))
    unfolding gather_dests
    gather_dests-gathered outs groups zero start made all fits = refl
    gather_dests-gathered outs groups (suc n) start made all fits =
        rw (picks_for-map outs start (omega arith), gather_dests)
          (rw (gather_dests-gathered outs groups n (suc start) made all (omega arith), gather_dests)
            (ap (λ o. some (o ∷ map gathered (range_from (suc start) n)))
              (gather-gathered outs groups start made all (omega arith))))

    abbrev file_one : Gathered b → ℕ → Option b.Block → Gathered b
    file_one g dest none = g
    file_one g dest (some block) = record {
      value = put g.value dest block;
      hashes = put g.hashes dest (address b block);
      sites = put g.sites dest (cluster.gather_site dest);
    }

    file_gathered-one :
        (g : Gathered b) (dest : ℕ) (o : Option b.Block) (outs : List (Option (GatherOut b)))
        → file_gathered b g (gathered_as dest o ∷ outs) ≡ file_gathered b (file_one g dest o) outs
    unfolding file_gathered
    file_gathered-one g dest none outs = refl
    file_gathered-one g dest (some block) outs = refl

    file_one-value :
        (g : Gathered b) (dest : ℕ) (o : Option b.Block)
        → (file_one g dest o).value ≡ put_block g.value dest o
    file_one-value g dest none = refl
    file_one-value g dest (some block) = refl

    file_one-hashes :
        (g : Gathered b) (dest : ℕ) (o : Option b.Block)
        → (file_one g dest o).hashes ≡ put_address g.hashes dest o
    file_one-hashes g dest none = refl
    file_one-hashes g dest (some block) = refl

    file_gathered-blocks_for :
        (g : Gathered b) (dests : List ℕ)
        → ((file_gathered b g (map gathered dests)).value ≡ blocks_for src parts salt g.value dests)
          × ((file_gathered b g (map gathered dests)).hashes
              ≡ hashes_for src parts salt g.hashes dests)
    unfolding file_gathered blocks_for hashes_for
    file_gathered-blocks_for g [] = (refl, refl)
    file_gathered-blocks_for g (dest ∷ dests) =
        let o : Option b.Block = block_of b (pieces b src parts salt dest) in
        let g' : Gathered b = file_one g dest o in
        let (values, addresses) = file_gathered-blocks_for g' dests in
        let step : file_gathered b g (gathered_as dest o ∷ map gathered dests)
            ≡ file_gathered b g' (map gathered dests) =
          file_gathered-one g dest o (map gathered dests) in
        (
          ap (λ r. r.value) step
              ∙ values
              ∙ ap (λ d. blocks_for src parts salt d dests) (file_one-value g dest o),
          ap (λ r. r.hashes) step
              ∙ addresses
              ∙ ap (λ d. hashes_for src parts salt d dests) (file_one-hashes g dest o),
        )

  producers_pos :
      (src : List b.Block) (cluster : Cluster) → 0 < cluster.n_workers → 0 < producers b cluster src
  producers_pos [] cluster workers = omega arith
  producers_pos (x ∷ src) cluster workers = omega (arith, workers)

  -- With at least one worker a repartition returns, on the peer engine and on the relay, whatever
  -- the number of workers, and its value has for every destination the concatenation of the
  -- non-empty pieces of the source blocks in source order, under the address of that block.
  pub repartition_content :
      (src : List b.Block) (parts salt : ℕ) (cluster : Cluster) (relay : Bool)
      → 0 < cluster.n_workers
      → (out : ShuffleResult b) × (repartition b src parts salt cluster relay ≡ some out)
        × (out.value ≡ blocks_for src parts salt [] (range_from 0 parts))
        × (out.dest_block_hashes ≡ hashes_for src parts salt [] (range_from 0 parts))
  unfolding repartition
  repartition_content src parts salt cluster relay workers =
      let t : ℕ = producers b cluster src in
      let (outs, groups, run, made, all) =
        submit_maps-Produced b parts salt src t cluster.map_site
          (producers_pos src cluster workers) in
      let gathers : gather_dests b relay outs parts cluster (range_from 0 parts)
          ≡ some (map (gathered src parts salt cluster relay) (range_from 0 parts)) =
        gather_dests-gathered src parts salt cluster relay outs groups parts 0 made all
          (omega arith) in
      let g : Gathered b =
        file_gathered b (none_gathered b)
          (map (gathered src parts salt cluster relay) (range_from 0 parts)) in
      let (values, addresses) =
        file_gathered-blocks_for src parts salt cluster relay (none_gathered b)
          (range_from 0 parts) in
      (
        record {
          dest_block_hashes = g.hashes;
          value = g.value;
          witness = repartition_witness b relay t outs g;
        },
        rw (run, repartition) (rw (gathers, repartition) (unfold finish_repartition in refl)),
        values,
        addresses,
      )
