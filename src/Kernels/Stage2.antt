-- ===== src/Kernels/Stage2.antt =====
-- stage2_gather of local/_shuffle_kernels.py: the loops over the gather nodes, their holders and
-- their destinations. What a holder has is a parameter; the evictions are a trace. The mean
-- bytes_per_fetch, a float, and the two fields that echo the call are left out.
use graphed_executors.Prelude.{
  ℕ, ◌+◌, ◌%◌, List, [], ◌∷◌, ◌++◌, Option, none, some, map, Bool, true, false, leb, ◌==◌, contains,
  nat_eq, range_from, if◌then◌else◌,
}
use graphed_executors.Prelude.Dict.{Dict, get, put}
use graphed_executors.Kernels.Backend.{Backend}
use graphed_executors.Kernels.Coalesce.{get_or_else}
use graphed_executors.Kernels.Budget.{address}
use graphed_executors.Kernels.Gather.{
  GatherWitness, Fetched, Manifests, fetch, reassemble, manifest_entry_bytes,
}

-- sorted(keys)
unfoldable pub insert_key : ℕ → List ℕ → List ℕ
insert_key k [] = k ∷ []
insert_key k (x ∷ xs) = let rest = insert_key k xs in if leb k x then k ∷ x ∷ xs else x ∷ rest

unfoldable pub sort_keys : List ℕ → List ℕ
unfolding insert_key
sort_keys [] = []
sort_keys (x ∷ xs) = insert_key x (sort_keys xs)

-- [d for d in range(parts) if d % k == gather_i]
unfoldable pub dests_here : ℕ → ℕ → List ℕ → List ℕ
dests_here k gather_i [] = []
dests_here k gather_i (d ∷ dests) =
    let rest = dests_here k gather_i dests in if d % k == gather_i then d ∷ rest else rest

module _ (b : Backend) where
  -- (dest, task, digest) by holder, and the manifest bytes counted.
  pub record Holders : Type 0 where
    pub blocks : Dict ℕ (List (ℕ × ℕ × b.Digest))
    pub witness : GatherWitness

  unfoldable pub note_entry : Holders → ℕ → ℕ → Option (b.Digest × ℕ) → Holders
  note_entry h dest t none = h
  note_entry h dest t (some (digest, holder)) =
      let w = h.witness in
      record {
        blocks =
            put h.blocks holder (get_or_else (get h.blocks holder) [] ++ (dest, t, digest) ∷ []);
        witness = record w { manifest_bytes = w.manifest_bytes + manifest_entry_bytes };
      }

  -- for t in range(n_tasks): none where manifests[t] raises.
  unfoldable pub note_tasks : Manifests b → Holders → ℕ → List ℕ → Option Holders
  unfolding note_entry
  note_tasks manifests h dest [] = some h
  note_tasks manifests h dest (t ∷ tasks) = elim (get manifests t) [
    | none ↦ none
    | some manifest ↦ note_tasks manifests (note_entry h dest t (get manifest dest)) dest tasks
  ]

  unfoldable pub blocks_by_holder : Manifests b → Holders → List ℕ → ℕ → Option Holders
  unfolding note_tasks
  blocks_by_holder manifests h [] n_tasks = some h
  blocks_by_holder manifests h (dest ∷ dests) n_tasks =
      elim (note_tasks manifests h dest (range_from 0 n_tasks)) [
        | none ↦ none
        | some h' ↦ blocks_by_holder manifests h' dests n_tasks
      ]

  -- The evictions made so far, and what one node has fetched.
  pub record Pulled : Type 0 where
    pub fetched : Fetched b
    pub billed : List b.Digest
    pub evicted : List (ℕ × b.Digest)

  abbrev pub bill : GatherWitness → Bool → ℕ → GatherWitness
  bill w true bytes = w
  bill w false bytes = record w { bytes_transferred = w.bytes_transferred + bytes }

  abbrev pub cross_node : GatherWitness → Bool → GatherWitness
  cross_node w true = w
  cross_node w false = record w { cross_node_fetches = w.cross_node_fetches + 1 }

  -- One block of _pull_holder, and what stage2_gather does with its wire.
  unfoldable pub pull_one :
      Option ℕ → Option ℕ → ℕ → ℕ → ℕ → Pulled → ℕ × ℕ → b.Digest → b.Wire → Pulled
  unfolding fetch
  pull_one fetch_budget disk_budget k gather_i holder_i p key digest wire =
      let old = contains ⦃e = b.digest_eq⦄ p.billed digest in
      let billed = bill p.fetched.witness old (b.wire_bytes wire) in
      let f = record (p.fetched) { witness = cross_node billed (holder_i == gather_i) } in
      record {
        fetched = fetch b fetch_budget disk_budget k gather_i f key wire;
        billed = if old then p.billed else digest ∷ p.billed;
        evicted = p.evicted;
      }

  unfoldable pub pull_blocks :
      (ℕ → b.Digest → Option b.Wire)
      → Option ℕ
      → Option ℕ
      → ℕ
      → ℕ
      → ℕ
      → Pulled
      → List (ℕ × ℕ × b.Digest)
      → Option Pulled
  unfolding pull_one
  pull_blocks cluster_get fetch_budget disk_budget k gather_i holder_i p [] = some p
  pull_blocks cluster_get fetch_budget disk_budget k gather_i holder_i p
        ((dest, t, digest) ∷ blocks) =
      elim (cluster_get holder_i digest) [
        | none ↦ none
        | some wire ↦
            pull_blocks cluster_get fetch_budget disk_budget k gather_i holder_i
              (pull_one fetch_budget disk_budget k gather_i holder_i p (dest, t) digest wire) blocks
      ]

  -- A bulk fetch of one holder: its billed digests are evicted at the end.
  unfoldable pub pull_holder :
      (ℕ → b.Digest → Option b.Wire)
      → Option ℕ
      → Option ℕ
      → ℕ
      → ℕ
      → ℕ
      → Pulled
      → List (ℕ × ℕ × b.Digest)
      → Option Pulled
  unfolding pull_blocks
  pull_holder cluster_get fetch_budget disk_budget k gather_i holder_i p blocks =
      let w = p.fetched.witness in
      let begun : Pulled = record {
        fetched = record (p.fetched) {
          witness = record w { bulk_fetch_count = w.bulk_fetch_count + 1 };
        };
        billed = [];
        evicted = p.evicted;
      } in
      elim (pull_blocks cluster_get fetch_budget disk_budget k gather_i holder_i begun blocks) [
        | none ↦ none
        | some q ↦
            some (record q { evicted = q.evicted ++ map (λ digest. (holder_i, digest)) q.billed })
      ]

  unfoldable pub pull_holders :
      (ℕ → b.Digest → Option b.Wire)
      → Option ℕ
      → Option ℕ
      → ℕ
      → ℕ
      → Dict ℕ (List (ℕ × ℕ × b.Digest))
      → Pulled
      → List ℕ
      → Option Pulled
  unfolding pull_holder
  pull_holders cluster_get fetch_budget disk_budget k gather_i by_holder p [] = some p
  pull_holders cluster_get fetch_budget disk_budget k gather_i by_holder p (holder_i ∷ holders) =
      elim (pull_holder cluster_get fetch_budget disk_budget k gather_i holder_i p
        (get_or_else (get by_holder holder_i) [])) [
          | none ↦ none
          | some q ↦
              pull_holders cluster_get fetch_budget disk_budget k gather_i by_holder q holders
        ]

  -- The result so far, and what the gather nodes share.
  pub record Gathering : Type 0 where
    pub value : Dict ℕ b.Block
    pub hashes : Dict ℕ b.Digest
    pub spill_seq : ℕ
    pub files : Dict (ℕ × ℕ) b.Wire
    pub evicted : List (ℕ × b.Digest)
    pub witness : GatherWitness

  unfoldable pub file_dest : Gathering → ℕ → Option b.Block → Gathering
  file_dest g dest none = g
  file_dest g dest (some gathered) = record g {
    value = put g.value dest gathered;
    hashes = put g.hashes dest (address b gathered);
  }

  unfoldable pub file_dests : Gathering → Fetched b → ℕ → List ℕ → Gathering
  unfolding file_dest reassemble
  file_dests g f n_tasks [] = g
  file_dests g f n_tasks (dest ∷ dests) =
      file_dests (file_dest g dest (reassemble b f dest n_tasks)) f n_tasks dests

  -- One gather node.
  unfoldable pub gather_node :
      (ℕ → b.Digest → Option b.Wire)
      → Option ℕ
      → Option ℕ
      → ℕ
      → ℕ
      → ℕ
      → Manifests b
      → Gathering
      → ℕ
      → Option Gathering
  unfolding blocks_by_holder pull_holders file_dests sort_keys dests_here
  gather_node cluster_get fetch_budget disk_budget k parts n_tasks manifests g gather_i =
      let dests = dests_here k gather_i (range_from 0 parts) in
      elim (blocks_by_holder manifests (record { blocks = []; witness = g.witness }) dests
        n_tasks) [
          | none ↦ none
          | some h ↦
              let fresh : Fetched b = record {
                resident = [];
                spilled = [];
                files = g.files;
                live_bytes = 0;
                spill_seq = g.spill_seq;
                witness = h.witness;
              } in
              elim (pull_holders cluster_get fetch_budget disk_budget k gather_i h.blocks
                (record { fetched = fresh; billed = []; evicted = g.evicted })
                (sort_keys (map (λ p. p.0) h.blocks))) [
                  | none ↦ none
                  | some p ↦ some (
                      file_dests
                        (record g {
                          spill_seq = p.fetched.spill_seq;
                          files = p.fetched.files;
                          evicted = p.evicted;
                          witness = p.fetched.witness;
                        })
                        p.fetched n_tasks dests)
                ]
        ]

  unfoldable pub gather_nodes :
      (ℕ → b.Digest → Option b.Wire)
      → Option ℕ
      → Option ℕ
      → ℕ
      → ℕ
      → ℕ
      → Manifests b
      → Gathering
      → List ℕ
      → Option Gathering
  unfolding gather_node
  gather_nodes cluster_get fetch_budget disk_budget k parts n_tasks manifests g [] = some g
  gather_nodes cluster_get fetch_budget disk_budget k parts n_tasks manifests g (gather_i ∷ nodes) =
      elim (gather_node cluster_get fetch_budget disk_budget k parts n_tasks manifests g gather_i) [
        | none ↦ none
        | some g' ↦
            gather_nodes cluster_get fetch_budget disk_budget k parts n_tasks manifests g' nodes
      ]

  unfoldable pub stage2_gather :
      (ℕ → b.Digest → Option b.Wire)
      → Option ℕ
      → Option ℕ
      → ℕ
      → ℕ
      → ℕ
      → Manifests b
      → GatherWitness
      → Option Gathering
  unfolding gather_nodes
  stage2_gather cluster_get fetch_budget disk_budget k parts n_tasks manifests witness =
      gather_nodes cluster_get fetch_budget disk_budget k parts n_tasks manifests
        (record {
          value = [];
          hashes = [];
          spill_seq = 0;
          files = [];
          evicted = [];
          witness = witness;
        })
        (range_from 0 k)
