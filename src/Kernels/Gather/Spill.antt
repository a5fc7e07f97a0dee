-- ===== src/Kernels/Gather/Spill.antt =====
-- The disk budget of the spills.
use graphed_executors.Prelude.{
  ℕ, ◌+◌, ◌≤◌, ◌<◌, ◌≡◌, ◌⊎◌, inl, inr, refl, List, [], ◌∷◌, none, some, leb, Bool-cases, arith,
  range_from, All,
}
use graphed_executors.Kernels.Gather.{GatherWitness, disk_bytes, first_with_room, spill_node}

-- A node is over the budget with nbytes more.
abbrev pub IsFull : GatherWitness → ℕ → ℕ → ℕ → Type 0
IsFull w budget nbytes node = budget < disk_bytes w node + nbytes

first_with_room_lem :
    (w : GatherWitness) (budget nbytes : ℕ) (nodes : List ℕ)
    → ((j : ℕ) × (first_with_room w budget nbytes nodes ≡ some j)
        × (disk_bytes w j + nbytes ≤ budget))
      ⊎ ((first_with_room w budget nbytes nodes ≡ none) × All (IsFull w budget nbytes) nodes)
unfolding first_with_room
first_with_room_lem w budget nbytes [] = inr (refl, tt)
first_with_room_lem w budget nbytes (j ∷ nodes) =
    elim (Bool-cases (leb (disk_bytes w j + nbytes) budget)) [
      | inl room ↦ inl (j, rw (room, first_with_room) refl, ground (arith, room))
      | inr full ↦
          rw (full, first_with_room)
            (elim (first_with_room_lem w budget nbytes nodes) [
              | inl found ↦ inl found
              | inr (gone, all) ↦ inr (gone, (ground (arith, full), all))
            ])
    ]

-- With a disk budget the node that a spilled block lands on has room for it, or the gather node
-- and every other node are full and it lands on the gather node.
pub spill_node_budget :
    (w : GatherWitness) (budget k gather_i nbytes : ℕ)
    → (disk_bytes w (spill_node w (some budget) k gather_i nbytes).1 + nbytes ≤ budget)
      ⊎ (((spill_node w (some budget) k gather_i nbytes).1 ≡ gather_i)
          × IsFull w budget nbytes gather_i
          × All (IsFull w budget nbytes) (range_from 0 k))
unfolding spill_node
spill_node_budget w budget k gather_i nbytes =
    elim (Bool-cases (leb (disk_bytes w gather_i + nbytes) budget)) [
      | inl room ↦ rw (room, spill_node) (inl (ground (arith, room)))
      | inr full ↦
          rw (full, spill_node)
            (elim (first_with_room_lem w budget nbytes (range_from 0 k)) [
              | inl (j, found, room) ↦ rw found (inl room)
              | inr (gone, all) ↦ rw gone (inr (refl, ground (arith, full), all))
            ])
    ]
