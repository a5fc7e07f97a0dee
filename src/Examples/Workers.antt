-- ===== src/Examples/Workers.antt =====
-- Runs of local/_peer_tree.py: five leaves over two workers, with subtraction as the combine.
use graphed_executors.Prelude.{
  inl, inr, nat_eq, contains, true, ℕ, suc, ◌-◌, ◌<◌, ◌≤◌, ◌≡◌, refl, List, [], ◌∷◌, some, All,
  Bool, false, arith,
}
use graphed_executors.Peer.Overlay.{lifeline_neighbors, lifeline_neighbors_symmetric}
use graphed_executors.Peer.Driver.{
  Got, nothing, other_message, root_message, collected, collect_peer_root,
  collect_peer_root_releases,
}
use graphed_executors.Peer.Bounds.{bound, make_bounds, worker_of, worker_of-make_bounds}
use graphed_executors.Peer.Reducer.{
  PeerReducer, Out, Message, handed, done, new_peer, run_peer_worker,
}
use graphed_executors.Reduce.Tree.{level_size, node_value}
use graphed_executors.Peer.Reducer.Rounds.{IsTrue}
use graphed_executors.Peer.Reducer.Kept.{IsKept}
use graphed_executors.Peer.Reducer.Kept.Run.{run_peer_worker_keeps}

worker_of-make_bounds_example :
    (worker_of 3 (make_bounds 5 2) < 2)
    × (bound 5 2 (worker_of 3 (make_bounds 5 2)) ≤ 3)
    × (3 < bound 5 2 (suc (worker_of 3 (make_bounds 5 2))))
worker_of-make_bounds_example = worker_of-make_bounds 5 2 3 (omega arith) (omega arith)

abbrev minus : ℕ → ℕ → ℕ
minus a b = a - b

abbrev leaf_value : ℕ → ℕ
leaf_value i = 10 - i

abbrev own_leaves : List (ℕ × ℕ)
own_leaves = (1, 9) ∷ (0, 10) ∷ []

-- A hand-off and its duplicate.
abbrev hand_offs : List (Message ℕ)
hand_offs = handed 0 3 7 ∷ handed 0 3 7 ∷ done ∷ []

handed_node : (0 ≤ 5) × (3 < level_size 5 0) × (7 ≡ node_value minus 5 leaf_value 0 3)
unfolding level_size node_value
handed_node = (omega arith, omega arith, refl)

run_peer_worker_keeps_example :
    (r : PeerReducer ℕ) × (outs : List (Out ℕ)) × (run_peer_worker minus 5
        (make_bounds 5 2)
        (new_peer 0)
        own_leaves
        hand_offs
      ≡ some (r, outs))
    × All (IsTrue minus 5 leaf_value 0 (make_bounds 5 2)) outs
    × IsKept 3 r outs
run_peer_worker_keeps_example =
    run_peer_worker_keeps minus 5 leaf_value 0 (make_bounds 5 2) 0 own_leaves hand_offs 3
      (omega arith) ((omega arith, refl), ((omega arith, refl), tt))
      (handed_node, (handed_node, (tt, tt))) tt (inr (inl (omega arith)))

seven_linked : contains (lifeline_neighbors 5 8) 7 ≡ true
unfolding lifeline_neighbors
seven_linked = refl

lifeline_neighbors_symmetric_example : (7 < 8) × (contains (lifeline_neighbors 7 8) 5 ≡ true)
lifeline_neighbors_symmetric_example = lifeline_neighbors_symmetric 5 7 8 (omega arith) seven_linked

abbrev late_root : List (Got ℕ × Bool)
late_root = (nothing, false) ∷ (other_message, false) ∷ (root_message 8, false) ∷ []

collect-late_root : collect_peer_root 0 5 late_root ≡ some (collected 8, 1)
unfolding collect_peer_root
collect-late_root = refl

collect_peer_root_releases_example : ◌≡◌ {A = ℕ} 1 1
collect_peer_root_releases_example =
    collect_peer_root_releases 0 5 late_root (collected 8) 1 collect-late_root
