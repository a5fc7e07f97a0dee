-- ===== src/Peer/Reducer.antt =====
-- PeerReducer of local/_peer_tree.py, run_peer_worker, and the workers and their messages as a step
-- relation. A worker is its index; `Out` is what it sends.
pub mod Rounds
pub mod Safe
pub mod Kept
use graphed_executors.Prelude.{
  ℕ, zero, suc, ◌+◌, ◌-◌, ◌*◌, ◌/◌, ◌%◌, ◌^◌, List, [], ◌∷◌, ◌++◌, Option, none, some, map, Bool,
  true, false, leb, ◌==◌, if◌then◌else◌, node_eq, contains,
}
use graphed_executors.Prelude.Dict.{Dict, get, put, pop}
use graphed_executors.Reduce.Tree.{level_size}
use graphed_executors.Peer.Bounds.{worker_of}

-- ("item", level, pos, value) and ("root", value) go to the driver, ("node", level, pos, value) to a
-- worker.
pub data Out (A : Type 0) : Type 0 where
  item : ℕ → ℕ → A → Out A
  root : A → Out A
  node : ℕ → ℕ → ℕ → A → Out A

pub record PeerReducer (A : Type 0) : Type 0 where
  pub address : ℕ
  pub present : Dict (ℕ × ℕ) A
  pub n_combines : ℕ
  pub peer_sends : ℕ
  pub peer_recvs : ℕ
  pub final : Option A
  pub forward : Bool

-- What the transport delivers to a worker; a poll that times out is no message.
pub data Message (A : Type 0) : Type 0 where
  handed : ℕ → ℕ → A → Message A
  done ignored : Message A

-- A round of `settle`: it returns, perhaps with a message, or goes on with the parent.
pub data Round (A : Type 0) : Type 0 where
  stop : PeerReducer A → List (Out A) → Round A
  up : PeerReducer A → A → Round A

module _ {A : Type 0} where
  unfoldable pub new_peer : ℕ → PeerReducer A
  new_peer address = record {
    address = address;
    present = [];
    n_combines = 0;
    peer_sends = 0;
    peer_recvs = 0;
    final = none;
    forward = false;
  }

  -- (level, pos, value) of every parked node
  unfoldable pub hand_in : PeerReducer A → PeerReducer A × List (ℕ × ℕ × A)
  hand_in r = (record r { forward = true; present = [] }, map (λ p. (p.0.0, p.0.1, p.1)) r.present)

-- The worker that holds the leftmost leaf of a node.
abbrev pub owner : List ℕ → ℕ → ℕ → ℕ
owner bounds level pos = worker_of (pos * 2 ^ level) bounds

module _ {A : Type 0} (combine : A → A → A) (n : ℕ) (bounds : List ℕ) where
  abbrev pub combined : PeerReducer A → ℕ → ℕ → PeerReducer A
  combined r level sib = record r {
    present = pop r.present (level, sib);
    n_combines = r.n_combines + 1;
  }

  abbrev pub parked : PeerReducer A → ℕ → ℕ → A → PeerReducer A
  parked r level pos value = record r { present = put r.present (level, pos) value }

  -- An even node that has a sibling.
  unfoldable pub meet_right : PeerReducer A → ℕ → ℕ → A → Option A → Round A
  meet_right r level pos value none = stop (parked r level pos value) []
  meet_right r level pos value (some other) = up (combined r level (pos + 1)) (combine value other)

  -- An odd node of this worker's.
  unfoldable pub meet_left : PeerReducer A → ℕ → ℕ → A → Option A → Round A
  meet_left r level pos value none = stop (parked r level pos value) []
  meet_left r level pos value (some other) = up (combined r level (pos - 1)) (combine other value)

  unfoldable pub round : PeerReducer A → ℕ → ℕ → A → Round A
  unfolding meet_right meet_left
  round r level pos value =
      if level_size n level == 1
      then stop (record r { final = some value }) (root value ∷ [])
      else if pos % 2 == 0
      then (if leb (level_size n level) (pos + 1)
          then up r value
          else meet_right r level pos value (get r.present (level, pos + 1)))
      else if owner bounds level (pos - 1) == r.address
      then meet_left r level pos value (get r.present (level, pos - 1))
      else stop (record r { peer_sends = r.peer_sends + 1 })
          (node (owner bounds level (pos - 1)) level pos value ∷ [])

  -- The loop of `settle`, on fuel: none if the fuel runs out.
  unfoldable pub climb : ℕ → PeerReducer A → ℕ → ℕ → A → Option (PeerReducer A × List (Out A))
  climb zero r level pos value = none
  climb (suc fuel) r level pos value = elim (round r level pos value) [
    | stop r' outs ↦ some (r', outs)
    | up r' value' ↦ climb fuel r' (suc level) (pos / 2) value'
  ]

  -- if self.forward
  unfoldable pub settle_when :
      Bool → PeerReducer A → ℕ → ℕ → A → Option (PeerReducer A × List (Out A))
  unfolding climb
  settle_when true r level pos value = some (r, item level pos value ∷ [])
  settle_when false r level pos value = climb (suc n) r level pos value

  unfoldable pub settle : PeerReducer A → ℕ → ℕ → A → Option (PeerReducer A × List (Out A))
  unfolding settle_when
  settle r level pos value = settle_when r.forward r level pos value

  -- The first loop of run_peer_worker.
  unfoldable pub settle_locals :
      PeerReducer A → List (ℕ × A) → Option (PeerReducer A × List (Out A))
  unfolding settle
  settle_locals r [] = some (r, [])
  settle_locals r ((leaf, partial) ∷ items) = elim (settle r 0 leaf partial) [
    | none ↦ none
    | some (r', outs) ↦ elim (settle_locals r' items) [
      | none ↦ none
      | some (r'', rest) ↦ some (r'', outs ++ rest)
    ]
  ]

  -- One node of the transport: a duplicate is dropped.
  unfoldable pub receive :
      PeerReducer A → List (ℕ × ℕ) → ℕ → ℕ → A → Option (PeerReducer A × List (Out A))
  unfolding settle
  receive r seen level pos value =
      let run = settle (record r { peer_recvs = r.peer_recvs + 1 }) level pos value in
      if contains seen (level, pos) then some (r, []) else run

  -- The second loop, until `done`; none while it still waits for it.
  unfoldable pub drain :
      PeerReducer A → List (ℕ × ℕ) → List (Message A) → Option (PeerReducer A × List (Out A))
  unfolding receive
  drain r seen [] = none
  drain r seen (done ∷ messages) = some (r, [])
  drain r seen (ignored ∷ messages) = drain r seen messages
  drain r seen (handed level pos value ∷ messages) = elim (receive r seen level pos value) [
    | none ↦ none
    | some (r', outs) ↦ elim (drain r' ((level, pos) ∷ seen) messages) [
      | none ↦ none
      | some (r'', rest) ↦ some (r'', outs ++ rest)
    ]
  ]

  unfoldable pub run_peer_worker :
      PeerReducer A → List (ℕ × A) → List (Message A) → Option (PeerReducer A × List (Out A))
  unfolding settle_locals drain
  run_peer_worker r local_items messages = elim (settle_locals r local_items) [
    | none ↦ none
    | some (r', outs) ↦ elim (drain r' [] messages) [
      | none ↦ none
      | some (r'', rest) ↦ some (r'', outs ++ rest)
    ]
  ]
