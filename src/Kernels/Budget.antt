-- ===== src/Kernels/Budget.antt =====
-- join_with_budget of local/_shuffle_kernels.py: the gather-join of one destination, in chunks that
-- are spilled to the node's store and read back.
pub mod Spans
use graphed_executors.Prelude.{
  ℕ, zero, suc, ◌+◌, ◌-◌, ◌*◌, ◌/◌, ◌<◌, ◌≤◌, ◌≡◌, List, [], ◌∷◌, ◌++◌, Option, none, some, length,
  min, max, arith, Bool, true, false, ltb, leb, ◌==◌, ◌&&◌, if◌then◌else◌,
}
use Prim.Native.String.{String}
use graphed_executors.Prelude.Dict.{Dict, get, put}
use graphed_executors.Kernels.Backend.{Backend, How}

-- (chunks, chunk_hashes, peak_output_bytes, spilled_partitions, output_rows, chunks_read)
pub record JoinResult (b : Backend) : Type 0 where
  pub chunks : List b.Block
  pub hashes : List b.Digest
  pub peak : ℕ
  pub spilled : ℕ
  pub rows : ℕ
  pub read : ℕ

-- The files of a node's store, by content address.
abbrev pub Store : Backend → Type 0
Store b = Dict b.Digest b.Wire

-- The variables of the loop, and the store.
pub record Spill (b : Backend) : Type 0 where
  pub off : ℕ
  pub chunk : ℕ
  pub hashes : List b.Digest
  pub peak : ℕ
  pub spilled : ℕ
  pub rows : ℕ
  pub store : Store b

module _ (b : Backend) where
  abbrev pub put_file : Store b → b.Digest → b.Wire → Store b
  put_file = put ⦃e = b.digest_eq⦄

  abbrev pub get_file : Store b → b.Digest → Option b.Wire
  get_file = get ⦃e = b.digest_eq⦄

  -- The join of probe rows off to off + c.
  abbrev pub join_slice : b.Block → b.Block → List String → How → ℕ → ℕ → b.Block
  join_slice build probe on how off c =
      b.join_blocks build (b.slice_rows probe off (off + c)) on how

  abbrev pub address : b.Block → b.Digest
  address block = b.sha256_hex (b.to_wire block)

  -- One round of the loop.
  unfoldable pub spill_round : b.Block → b.Block → List String → How → ℕ → Spill b → Spill b
  spill_round build probe on how budget s =
      let c = min s.chunk (b.rows probe - s.off) in
      let joined = join_slice build probe on how s.off c in
      let jb = b.estimated_bytes joined in
      if leb budget jb && ltb 1 c then record s { chunk = max 1 (c / 2) } else record {
        off = s.off + c;
        chunk = s.chunk;
        hashes = s.hashes ++ address joined ∷ [];
        peak = max s.peak jb;
        spilled = s.spilled + 1;
        rows = s.rows + b.rows joined;
        store = put_file s.store (address joined) (b.to_wire joined);
      }

  -- while off < n_probe, on fuel: none if the fuel runs out.
  unfoldable pub spill_loop :
      b.Block → b.Block → List String → How → ℕ → ℕ → Spill b → Option (Spill b)
  spill_loop build probe on how budget zero s = none
  spill_loop build probe on how budget (suc fuel) s =
      let rest =
        spill_loop build probe on how budget fuel (spill_round build probe on how budget s) in
      if ltb s.off (b.rows probe) then rest else some s

  -- The spilled chunks read back; a missing file raises.
  unfoldable pub read_back : Store b → List b.Digest → Option (List b.Block)
  read_back store [] = some []
  read_back store (digest ∷ hashes) = elim (get_file store digest) [
    | none ↦ none
    | some wire ↦ elim (read_back store hashes) [
      | none ↦ none
      | some blocks ↦ some (b.from_wire wire ∷ blocks)
    ]
  ]

  unfoldable pub first_chunk : b.Block → b.Block → List String → How → ℕ → ℕ
  first_chunk build probe on how budget =
      let sample = b.join_blocks build (b.slice_rows probe 0 1) on how in
      max 1 (budget / max 1 (b.estimated_bytes sample))

  abbrev pub first_spill : Store b → ℕ → Spill b
  first_spill store chunk = record {
    off = 0;
    chunk = chunk;
    hashes = [];
    peak = 0;
    spilled = 0;
    rows = 0;
    store = store;
  }

  unfoldable pub whole : b.Block → JoinResult b
  whole joined = record {
    chunks = joined ∷ [];
    hashes = address joined ∷ [];
    peak = b.estimated_bytes joined;
    spilled = 0;
    rows = b.rows joined;
    read = 0;
  }

  -- The result, with the store after it.
  unfoldable pub in_chunks :
      b.Block → b.Block → List String → How → ℕ → Store b → Option (JoinResult b × Store b)
  in_chunks build probe on how budget store =
      let chunk = first_chunk build probe on how budget in
      elim (spill_loop build probe on how budget (suc (b.rows probe + chunk))
        (first_spill store chunk)) [
          | none ↦ none
          | some s ↦ elim (read_back s.store s.hashes) [
            | none ↦ none
            | some chunks ↦ some (
              record {
                chunks = chunks;
                hashes = s.hashes;
                peak = s.peak;
                spilled = s.spilled;
                rows = s.rows;
                read = length s.hashes;
              },
              s.store,
            )
          ]
        ]

  unfoldable pub join_with_budget :
      b.Block → b.Block → List String → How → Option ℕ → Store b → Option (JoinResult b × Store b)
  join_with_budget build probe on how none store =
      some (whole (b.join_blocks build probe on how), store)
  join_with_budget build probe on how (some budget) store =
      if b.rows probe == 0
      then some (whole (b.join_blocks build probe on how), store)
      else in_chunks build probe on how budget store
