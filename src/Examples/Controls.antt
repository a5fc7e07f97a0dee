-- ===== src/Examples/Controls.antt =====
-- Runs of PeerControl of local/_peer_tree.py: two workers that hand in a leaf each.
use graphed_executors.Prelude.{ℕ, ◌-◌, ◌≡◌, node_eq, nat_eq, List, [], ◌∷◌}
use graphed_executors.Window.{RunState, running, paused, cancelled}
use graphed_executors.Peer.Control.{HandIn, cancelled_with, new_control, file_payload, relay_all}
use graphed_executors.Peer.Control.Filed.{file_payload_again}
use graphed_executors.Peer.Control.Relay.{relay_all-changes, tell_all, changes, until_cancel}

abbrev minus : ℕ → ℕ → ℕ
minus a b = a - b

abbrev two_workers : List ℕ
two_workers = 0 ∷ 1 ∷ []

abbrev first_in : HandIn ℕ
first_in = cancelled_with 0 1 ((0, 0, 9) ∷ [])

abbrev second_in : HandIn ℕ
second_in = cancelled_with 1 1 ((0, 1, 4) ∷ [])

file_payload_again_example :
    file_payload (file_payload (new_control two_workers 2) first_in) first_in
    ≡ file_payload (new_control two_workers 2) first_in
file_payload_again_example = file_payload_again (new_control two_workers 2) first_in

abbrev polled : List RunState
polled = running ∷ paused ∷ paused ∷ cancelled ∷ running ∷ []

relay_all-changes_example :
    relay_all (new_control {A = ℕ} two_workers 2) polled
    ≡ tell_all two_workers (changes running (until_cancel polled))
relay_all-changes_example = relay_all-changes ℕ two_workers 2 polled
