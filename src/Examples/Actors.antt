-- ===== src/Examples/Actors.antt =====
-- Runs of local/_peer.py: two workers of one leaf each, with subtraction as the combine.
use graphed_executors.Prelude.{
  ℕ, ◌-◌, ◌*◌, ◌≤◌, ◌≡◌, refl, sym, List, [], ◌∷◌, Option, none, some, map, true, All, arith,
  range_from, get_elem?, zero, suc,
}
use graphed_executors.Reduce.Fold.{tree_fold}
use graphed_executors.Peer.Bounds.{make_bounds, worker_of}
use graphed_executors.Peer.Reducer.{Out, new_peer, settle, round}
use graphed_executors.Reduce.Tree.{level_size}
use graphed_executors.Prelude.Dict.{get, put}
use graphed_executors.Peer.Actor.{
  PeerActor, Payload, node, Send, reduced, drain, step, new_actor, slice_items, max_steal_backoff,
}
use graphed_executors.Peer.System.{
  System, Reach, started, onward, drained, stepped, delivered, peer_run, peer_run_root,
  peer_run_turns, after, routed, Available,
}

abbrev minus : ℕ → ℕ → ℕ
minus a b = a - b

abbrev read : ℕ → Option ℕ
read part = some part

abbrev partial_of : ℕ → ℕ
partial_of x = 9 - 5 * x

abbrev others : ℕ → List ℕ
others i = (1 - i) ∷ []

abbrev two_parts : List ℕ
two_parts = 9 ∷ 4 ∷ []

abbrev begun : System ℕ ℕ
begun = peer_run minus 2 (make_bounds 2 2) read true others two_parts

read_right : (x part : ℕ) → get_elem? two_parts x ≡ some part → read part ≡ some (partial_of x)
read_right zero part at = sym at
read_right (suc zero) part at = sym at
read_right (suc (suc x)) part at = cc

abbrev ends_of : Option (PeerActor ℕ ℕ × List (Send ℕ ℕ)) → PeerActor ℕ ℕ × List (Send ℕ ℕ)
ends_of none = (new_actor 0 [] [], [])
ends_of (some ran) = ran

abbrev turn : System ℕ ℕ → ℕ → PeerActor ℕ ℕ × List (Send ℕ ℕ)
turn sys i = ends_of (step minus 2 (make_bounds 2 2) read true (others i) (sys.workers i) 0 none)

abbrev next : System ℕ ℕ → ℕ → System ℕ ℕ
next sys i = after minus 2 (make_bounds 2 2) read true others sys i (turn sys i).0 (turn sys i).1

abbrev next_drain : System ℕ ℕ → ℕ → Payload ℕ ℕ → System ℕ ℕ
next_drain sys i payload =
    let ran =
      ends_of
        (drain minus 2 (make_bounds 2 2) read true (others i) (sys.workers i) (payload ∷ [])) in
    after minus 2 (make_bounds 2 2) read true others sys i ran.0 ran.1

abbrev joined : System ℕ ℕ
joined = next_drain (next (next begun 0) 1) 0 (node 0 1 4)

hand_off-Available : All (Available (next (next begun 0) 1).sent 0) (node 0 1 4 ∷ [])
unfolding peer_run step drain routed new_actor slice_items worker_of make_bounds new_peer settle
    round level_size get put
hand_off-Available = (delivered 0 _ _ refl refl, tt)

joined-Reach : Reach minus 2 (make_bounds 2 2) read true others begun joined
unfolding peer_run step drain routed new_actor slice_items worker_of make_bounds new_peer settle
    round level_size get put
joined-Reach =
    onward _ _
      (onward _ _ (onward _ _ started (stepped 0 0 none _ _ tt refl))
        (stepped 1 0 none _ _ tt refl))
      (drained 0 (node 0 1 4 ∷ []) _ _ hand_off-Available refl)

root_sent : get_elem? joined.sent 1 ≡ some (reduced (Out.root 5))
unfolding peer_run step drain routed new_actor slice_items worker_of make_bounds new_peer settle
    round level_size get put
root_sent = refl

peer_run_root_example : 5 ≡ tree_fold minus 0 (map partial_of (range_from 0 2))
peer_run_root_example =
    peer_run_root minus 2 (make_bounds 2 2) read true others partial_of 0 two_parts joined 1 5
      (omega arith) refl read_right joined-Reach root_sent

peer_run_turns_example :
    ((ran : PeerActor ℕ ℕ × List (Send ℕ ℕ)) × (drain minus 2
          (make_bounds 2 2)
          read
          true
          (others 0)
          (joined.workers 0)
          []
        ≡ some ran))
    × ((ran : PeerActor ℕ ℕ × List (Send ℕ ℕ)) × (step minus 2
            (make_bounds 2 2)
            read
            true
            (others 0)
            (joined.workers 0)
            7
            none
          ≡ some ran))
    × ((joined.workers 0).backoff ≤ max_steal_backoff)
peer_run_turns_example =
    peer_run_turns minus 2 (make_bounds 2 2) read true others partial_of 0 two_parts joined 0 7 []
      none (omega arith) refl read_right joined-Reach tt tt
