-- ===== src/Peer/Overlay.antt =====
-- The communication overlay of local/_peer_tree.py: the lifelines, and the edges of the reduction
-- from a replay of it without values. A set is a list of its members; a worker is its index.
use native.Mathlib.Nat.{add-div_right, div-eq_of_lt}
use graphed_executors.Prelude.{
  contains, ap, sym, ◌∙◌, ℕ, zero, suc, ◌+◌, ◌-◌, ◌*◌, ◌/◌, ◌%◌, ◌<◌, ◌≤◌, ◌≡◌, List, [], ◌∷◌, ◌++◌,
  Option, none, some, Bool, true, false, ltb, ◌==◌, if◌then◌else◌, nat_eq, arith, range_from, map,
  refl, Bool-cases, inl, inr,
}
use graphed_executors.Prelude.Dict.{Dict, get, put, pop}
use graphed_executors.Reduce.Tree.{level_size}
use graphed_executors.Peer.Bounds.{worker_of, make_bounds}
use graphed_executors.Peer.Reducer.{PeerReducer, Out, item, root, node, new_peer, settle, round}

-- idx ^ k for a power of two k: its bit flipped.
unfoldable pub flip : ℕ → ℕ → ℕ
flip idx k = if idx / k % 2 == 0 then idx + k else idx - k

-- while k < w, on fuel: w rounds are enough, as k doubles.
unfoldable pub lifelines_from : ℕ → ℕ → ℕ → ℕ → List ℕ
unfolding flip
lifelines_from zero idx w k = []
lifelines_from (suc fuel) idx w k =
    let rest = lifelines_from fuel idx w (k * 2) in
    if ltb k w then (if ltb (flip idx k) w then flip idx k ∷ rest else rest) else []

unfoldable pub lifeline_neighbors : ℕ → ℕ → List ℕ
unfolding lifelines_from
lifeline_neighbors idx w = lifelines_from w idx w 1

pub data Address : Type 0 where
  driver : Address
  worker : ℕ → Address

abbrev pub same_address : Address → Address → Bool
same_address driver driver = true
same_address (worker i) (worker j) = i == j
same_address driver (worker j) = false
same_address (worker i) driver = false

-- set.add
unfoldable pub add_address : List Address → Address → List Address
add_address [] a = a ∷ []
add_address (x ∷ xs) a =
    let rest = add_address xs a in if same_address x a then x ∷ xs else x ∷ rest

-- set.discard
unfoldable pub discard_address : List Address → Address → List Address
discard_address [] a = []
discard_address (x ∷ xs) a =
    let rest = discard_address xs a in if same_address x a then rest else x ∷ rest

abbrev pub edges_at : Dict ℕ (List Address) → ℕ → List Address
edges_at edges i = elim (get edges i) [ none ↦ [] | some xs ↦ xs ]

-- The replay: its reducers, the edges so far, and the queue of hand-offs.
pub record Replay : Type 0 where
  pub reducers : Dict ℕ (PeerReducer ℕ)
  pub edges : Dict ℕ (List Address)
  pub pending : List (ℕ × ℕ × ℕ × ℕ)

-- _EdgeRecorder.send
unfoldable pub record_send : Dict ℕ (List Address) → ℕ → Address → Dict ℕ (List Address)
unfolding add_address
record_send edges from to = put edges from (add_address (edges_at edges from) to)

unfoldable pub record_out : ℕ → Replay → Out ℕ → Replay
unfolding record_send
record_out from s (item level pos value) = record s { edges = record_send s.edges from driver }
record_out from s (root value) = record s { edges = record_send s.edges from driver }
record_out from s (node dest level pos value) = record s {
  edges = record_send s.edges from (worker dest);
  pending = s.pending ++ (dest, level, pos, value) ∷ [];
}

unfoldable pub record_outs : ℕ → Replay → List (Out ℕ) → Replay
unfolding record_out
record_outs from s [] = s
record_outs from s (out ∷ outs) = record_outs from (record_out from s out) outs

module _ (n : ℕ) (bounds : List ℕ) where
  -- reducers[dest].settle(...): none where there is no such worker.
  unfoldable pub replay_settle : Replay → ℕ → ℕ → ℕ → ℕ → Option Replay
  unfolding settle record_outs
  replay_settle s i level pos value = elim (get s.reducers i) [
    | none ↦ none
    | some r ↦ elim (settle (λ x y. 1) n bounds r level pos value) [
      | none ↦ none
      | some (r', outs) ↦ some (record_outs i (record s { reducers = put s.reducers i r' }) outs)
    ]
  ]

  unfoldable pub replay_leaves : Replay → List ℕ → Option Replay
  unfolding replay_settle worker_of
  replay_leaves s [] = some s
  replay_leaves s (leaf ∷ leaves) = elim (replay_settle s (worker_of leaf bounds) 0 leaf 1) [
    | none ↦ none
    | some s' ↦ replay_leaves s' leaves
  ]

  -- while pending, on fuel: none if the fuel runs out.
  unfoldable pub replay_pending : ℕ → Replay → Option Replay
  unfolding replay_settle
  replay_pending zero s = none
  replay_pending (suc fuel) s = elim s.pending [
    | [] ↦ some s
    | (dest, level, pos, value) ∷ pending ↦
        elim (replay_settle (record s { pending = pending }) dest level pos value) [
          | none ↦ none
          | some s' ↦ replay_pending fuel s'
        ]
  ]

  -- Each of the n leaves enters a hand-off chain, so that at most n nodes for each level are
  -- handed off.
  unfoldable pub reduction_edges : ℕ → Option (Dict ℕ (List Address))
  unfolding replay_leaves replay_pending
  reduction_edges n_workers =
      let start : Replay = record {
        reducers = map (λ i. (i, new_peer i)) (range_from 0 n_workers);
        edges = [];
        pending = [];
      } in
      elim (replay_leaves start (range_from 0 n)) [
        | none ↦ none
        | some s ↦ elim (replay_pending (suc (n * n)) s) [ none ↦ none | some s' ↦ some s'.edges ]
      ]

  -- |= and add, of the lifelines and the driver.
  unfoldable pub add_lifelines : List Address → List ℕ → List Address
  unfolding add_address
  add_lifelines peers [] = peers
  add_lifelines peers (j ∷ js) = add_lifelines (add_address peers (worker j)) js

  unfoldable pub outbox_of : Dict ℕ (List Address) → ℕ → ℕ → List Address
  unfolding add_lifelines discard_address lifeline_neighbors
  outbox_of edges n_workers i =
      discard_address
        (add_address (add_lifelines (edges_at edges i) (lifeline_neighbors i n_workers)) driver)
        (worker i)

  unfoldable pub worker_outbox_addresses : ℕ → Option (Dict ℕ (List Address))
  unfolding reduction_edges outbox_of
  worker_outbox_addresses n_workers = elim (reduction_edges n_workers) [
    | none ↦ none
    | some edges ↦ some (map (λ i. (i, outbox_of edges n_workers i)) (range_from 0 n_workers))
  ]

reduction_edges_test :
    reduction_edges 5 (make_bounds 5 2) 2 ≡ some ((1, worker 0 ∷ []) ∷ (0, driver ∷ []) ∷ [])
unfolding reduction_edges make_bounds get put pop new_peer level_size round
reduction_edges_test = refl

flip_involutive : (idx k : ℕ) → 0 < k → flip (flip idx k) k ≡ idx
unfolding flip
flip_involutive idx k pos = elim (Bool-cases (idx / k % 2 == 0)) [
  | inl even ↦
      let up : (idx + k) / k ≡ idx / k + 1 = add-div_right idx pos in
      let odd : (idx + k) / k % 2 == 0 ≡ false = ground (arith, up, even) in
      let back : idx + k - k ≡ idx = omega arith in rw (even, flip) (rw (odd, flip) back)
  | inr odd ↦
      let some_k : k ≤ idx = elim (Bool-cases (ltb idx k)) [
        | inl small ↦
            let zero_div : idx / k ≡ 0 = div-eq_of_lt (ground (arith, small)) in
            absurd (ground (arith, zero_div, odd))
        | inr big ↦ ground (arith, big)
      ] in
      let down : (idx - k + k) / k ≡ (idx - k) / k + 1 = add-div_right (idx - k) pos in
      let back : idx - k + k ≡ idx = omega arith in
      let down' : idx / k ≡ (idx - k) / k + 1 = rw back at down in
      let even : (idx - k) / k % 2 == 0 ≡ true = ground (arith, down', odd) in
      rw (odd, flip) (rw (even, flip) back)
]

flip_differs : (idx nb k : ℕ) → flip idx k ≡ nb → 0 < k → flip nb k ≡ idx
flip_differs idx nb k same pos = ap (λ i. flip i k) (sym same) ∙ flip_involutive idx k pos

lifelines_from_symmetric :
    (fuel idx nb w k : ℕ)
    → idx < w
    → 0 < k
    → contains (lifelines_from fuel idx w k) nb ≡ true
    → (nb < w) × (contains (lifelines_from fuel nb w k) idx ≡ true)
unfolding lifelines_from
lifelines_from_symmetric zero idx nb w k inside pos there = cc
lifelines_from_symmetric (suc fuel) idx nb w k inside pos there =
    elim (Bool-cases (contains (lifelines_from fuel idx w (k * 2)) nb)) [
      | inl later ↦
          let (low, back) =
            lifelines_from_symmetric fuel idx nb w (k * 2) inside (omega (arith, pos)) later in
          (low, ground (arith, back, there))
      | inr absent ↦
          let here : (flip idx k == nb) ≡ true = ground (arith, absent, there) in
          let low : nb < w = ground (arith, absent, there) in
          let back : flip nb k ≡ idx = flip_differs idx nb k (ground (arith, here)) pos in
          (low, ground (arith, back, inside, there))
    ]

-- Lifelines go both ways: a lifeline of a worker is a worker, and the first is a lifeline of it.
pub lifeline_neighbors_symmetric :
    (idx nb w : ℕ)
    → idx < w
    → contains (lifeline_neighbors idx w) nb ≡ true
    → (nb < w) × (contains (lifeline_neighbors nb w) idx ≡ true)
unfolding lifeline_neighbors
lifeline_neighbors_symmetric idx nb w inside there =
    lifelines_from_symmetric w idx nb w 1 inside (omega arith) there
