-- ===== src/Kernels/Gather.antt =====
-- stage2_gather of local/_shuffle_kernels.py and its helpers: the fetches from the holders, the
-- spills of the fetched wires, and the reassembly. A spill file is named by its node and its
-- sequence number.
pub mod Spill
pub mod Order
use graphed_executors.Prelude.{
  ℕ, zero, suc, ◌+◌, ◌%◌, List, [], ◌∷◌, ◌++◌, Option, none, some, max, map, Bool, true, false, not,
  leb, ◌==◌, ◌||◌, ◌&&◌, ltb, contains, nat_eq, node_eq, range_from, if◌then◌else◌,
}
use graphed_executors.Prelude.Dict.{Dict, get, put}
use graphed_executors.Kernels.Backend.{Backend}
use graphed_executors.Kernels.Coalesce.{get_or_else}
use graphed_executors.Kernels.Budget.{address}

abbrev pub manifest_entry_bytes : ℕ
manifest_entry_bytes = 80

-- What stage2_gather counts of ShuffleWitness. A node's address is its number.
pub record GatherWitness : Type 0 where
  pub manifest_bytes : ℕ
  pub peak_fetch_bytes : ℕ
  pub fetch_spilled_bytes : ℕ
  pub fetch_spill_count : ℕ
  pub bulk_fetch_count : ℕ
  pub cross_node_fetches : ℕ
  pub bytes_transferred : ℕ
  pub per_node_disk_bytes : Dict ℕ ℕ
  pub disk_backpressure_events : ℕ

abbrev pub disk_bytes : GatherWitness → ℕ → ℕ
disk_bytes w node = get_or_else (get w.per_node_disk_bytes node) 0

abbrev pub backpressure : GatherWitness → GatherWitness
backpressure w = record w { disk_backpressure_events = w.disk_backpressure_events + 1 }

-- for j in range(k): the first node with room.
unfoldable pub first_with_room : GatherWitness → ℕ → ℕ → List ℕ → Option ℕ
first_with_room w budget nbytes [] = none
first_with_room w budget nbytes (j ∷ nodes) =
    let rest = first_with_room w budget nbytes nodes in
    if leb (disk_bytes w j + nbytes) budget then some j else rest

unfoldable pub spill_node : GatherWitness → Option ℕ → ℕ → ℕ → ℕ → GatherWitness × ℕ
unfolding first_with_room
spill_node w none k gather_i nbytes = (w, gather_i)
spill_node w (some budget) k gather_i nbytes =
    if leb (disk_bytes w gather_i + nbytes) budget
    then (w, gather_i)
    else (backpressure w, get_or_else (first_with_room w budget nbytes (range_from 0 k)) gather_i)

module _ (b : Backend) where
  -- manifests[t].get(dest): the digest and its holder; none where the task has no manifest.
  abbrev pub Manifests : Type 0
  Manifests = Dict ℕ (Dict ℕ (b.Digest × ℕ))

  -- The wires in RAM and the paths of the spilled ones, by (dest, task), and the spill files of the
  -- nodes' stores by path.
  pub record Fetched : Type 0 where
    pub resident : Dict (ℕ × ℕ) b.Wire
    pub spilled : Dict (ℕ × ℕ) (ℕ × ℕ)
    pub files : Dict (ℕ × ℕ) b.Wire
    pub live_bytes : ℕ
    pub spill_seq : ℕ
    pub witness : GatherWitness

  -- One buffered wire.
  unfoldable pub spill_one : Option ℕ → ℕ → ℕ → Fetched → ℕ × ℕ → b.Wire → Fetched
  unfolding spill_node
  spill_one disk_budget k gather_i f key wire =
      let (w, node) = spill_node f.witness disk_budget k gather_i (b.wire_bytes wire) in
      record f {
        files = put f.files (node, f.spill_seq) wire;
        spilled = put f.spilled key (node, f.spill_seq);
        spill_seq = f.spill_seq + 1;
        witness = record w {
          fetch_spilled_bytes = w.fetch_spilled_bytes + b.wire_bytes wire;
          per_node_disk_bytes =
              put w.per_node_disk_bytes node (disk_bytes w node + b.wire_bytes wire);
        };
      }

  -- The loop of _spill_resident.
  unfoldable pub spill_each : Option ℕ → ℕ → ℕ → Fetched → Dict (ℕ × ℕ) b.Wire → Fetched
  unfolding spill_one
  spill_each disk_budget k gather_i f [] = f
  spill_each disk_budget k gather_i f ((key, wire) ∷ rest) =
      spill_each disk_budget k gather_i (spill_one disk_budget k gather_i f key wire) rest

  unfoldable pub spill_resident : Option ℕ → ℕ → ℕ → Fetched → Fetched
  unfolding spill_each
  spill_resident disk_budget k gather_i f =
      let g = spill_each disk_budget k gather_i f f.resident in
      record g {
        resident = [];
        witness = record (g.witness) { fetch_spill_count = g.witness.fetch_spill_count + 1 };
      }

  -- live_bytes >= fetch_budget_bytes
  abbrev pub over_budget : Option ℕ → ℕ → Bool
  over_budget none bytes = false
  over_budget (some budget) bytes = leb budget bytes

  -- The body of the loop over the pulled wires.
  unfoldable pub fetch : Option ℕ → Option ℕ → ℕ → ℕ → Fetched → ℕ × ℕ → b.Wire → Fetched
  unfolding spill_resident
  fetch fetch_budget disk_budget k gather_i f key wire =
      let bytes = f.live_bytes + b.wire_bytes wire in
      let w = f.witness in
      let held = record f {
        resident = put f.resident key wire;
        live_bytes = bytes;
        witness = record w { peak_fetch_bytes = max w.peak_fetch_bytes bytes };
      } in
      let spilled = spill_resident disk_budget k gather_i held in
      if over_budget fetch_budget bytes then record spilled { live_bytes = 0 } else held

  abbrev pub first_of : Option b.Wire → Option b.Wire → Option b.Wire
  first_of none other = other
  first_of (some wire) other = some wire

  -- path.read_bytes(); every path in `spilled` has its file.
  abbrev pub read_path : Dict (ℕ × ℕ) b.Wire → Option (ℕ × ℕ) → Option b.Wire
  read_path files none = none
  read_path files (some path) = get files path

  abbrev pub read_back : Fetched → ℕ × ℕ → Option b.Wire
  read_back f key = read_path f.files (get f.spilled key)

  -- Nothing fetched yet.
  abbrev pub none_fetched : GatherWitness → Fetched
  none_fetched w = record {
    resident = [];
    spilled = [];
    files = [];
    live_bytes = 0;
    spill_seq = 0;
    witness = w;
  }

  -- resident first, then spilled.
  abbrev pub wire_at : Fetched → ℕ × ℕ → Option b.Wire
  wire_at f key = first_of (get f.resident key) (read_back f key)

  -- The loop of _reassemble.
  unfoldable pub blocks_at : (ℕ × ℕ → Option b.Wire) → ℕ → List ℕ → List b.Block
  blocks_at at dest [] = []
  blocks_at at dest (t ∷ tasks) = elim (at (dest, t)) [
    | none ↦ blocks_at at dest tasks
    | some wire ↦ b.from_wire wire ∷ blocks_at at dest tasks
  ]

  abbrev pub concat_any : List b.Block → Option b.Block
  concat_any [] = none
  concat_any (x ∷ xs) = some (b.concat (x ∷ xs))

  unfoldable pub reassemble : Fetched → ℕ → ℕ → Option b.Block
  unfolding blocks_at
  reassemble f dest n_tasks = concat_any (blocks_at (wire_at f) dest (range_from 0 n_tasks))

  -- The loop over every pulled wire, in the order of the pulls.
  unfoldable pub fetch_all :
      Option ℕ → Option ℕ → ℕ → ℕ → Fetched → List ((ℕ × ℕ) × b.Wire) → Fetched
  unfolding fetch
  fetch_all fetch_budget disk_budget k gather_i f [] = f
  fetch_all fetch_budget disk_budget k gather_i f ((key, wire) ∷ pulls) =
      fetch_all fetch_budget disk_budget k gather_i
        (fetch fetch_budget disk_budget k gather_i f key wire) pulls
