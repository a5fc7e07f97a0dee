-- ===== src/Kernels/Gather/Order.antt =====
-- The spills change neither the content nor the order of what a destination gets.
use graphed_executors.Prelude.{
  ℕ, ◌+◌, ◌<◌, ◌≡◌, Option, some, max, if◌then◌else◌, node_eq, node_beq,
}
use graphed_executors.Prelude.Dict.{Dict, get, put}
use graphed_executors.Kernels.Backend.{Backend}
use graphed_executors.Kernels.Gather.{Fetched, wire_at}

module _ (b : Backend) (k gather_i : ℕ) where
  -- The numbers of the spilled paths are used up.
  abbrev Numbered : Fetched b → Type 0
  Numbered f = (key path : ℕ × ℕ) → get f.spilled key ≡ some path → path.1 < f.spill_seq

  -- A key's wire after a fetch.
  abbrev after_fetch : Fetched b → ℕ × ℕ → b.Wire → ℕ × ℕ → Option b.Wire
  after_fetch f j wire key = if node_beq j key then some wire else wire_at b f key

  -- What is held before a spill; its counts are beside the point.
  abbrev held_of : Fetched b → ℕ × ℕ → b.Wire → Fetched b
  held_of f j wire = record f {
    resident = put f.resident j wire;
    live_bytes = f.live_bytes + b.wire_bytes wire;
    witness = record (f.witness) {
      peak_fetch_bytes = max f.witness.peak_fetch_bytes (f.live_bytes + b.wire_bytes wire);
    };
  }
