-- ===== src/Peer/Driver.antt =====
-- collect_peer_root of local/_peer_tree.py: the driver waits for the root and releases the workers.
use graphed_executors.Prelude.{
  ℕ, zero, suc, ◌+◌, ◌≡◌, List, [], ◌∷◌, Option, none, some, Bool, true, false, arith,
}

-- What a poll gives: nothing, a root, or another message.
pub data Got (A : Type 0) : Type 0 where
  nothing other_message : Got A
  root_message : A → Got A

pub data Collected (A : Type 0) : Type 0 where
  collected : A → Collected A
  timed_out : Collected A

module _ {A : Type 0} where
  -- Each poll with whether the deadline has passed after it, and the `done` broadcasts so far; none
  -- while the driver still waits.
  unfoldable pub wait_root : ℕ → List (Got A × Bool) → Option (Collected A × ℕ)
  wait_root done [] = none
  wait_root done ((root_message value, late) ∷ polls) = some (collected value, done + 1)
  wait_root done ((nothing, true) ∷ polls) = some (timed_out, done + 1)
  wait_root done ((nothing, false) ∷ polls) = wait_root done polls
  wait_root done ((other_message, true) ∷ polls) = some (timed_out, done + 1)
  wait_root done ((other_message, false) ∷ polls) = wait_root done polls

  unfoldable pub collect_peer_root : A → ℕ → List (Got A × Bool) → Option (Collected A × ℕ)
  unfolding wait_root
  collect_peer_root empty zero polls = some (collected empty, 1)
  collect_peer_root empty (suc n) polls = wait_root 0 polls

  wait_root_once :
      (done : ℕ) (polls : List (Got A × Bool)) (out : Collected A) (broadcasts : ℕ)
      → wait_root done polls ≡ some (out, broadcasts)
      → broadcasts ≡ done + 1
  unfolding wait_root
  wait_root_once done [] out broadcasts e = cc
  wait_root_once done ((root_message value, late) ∷ polls) out broadcasts e = ground arith
  wait_root_once done ((nothing, true) ∷ polls) out broadcasts e = ground arith
  wait_root_once done ((nothing, false) ∷ polls) out broadcasts e =
      wait_root_once done polls out broadcasts e
  wait_root_once done ((other_message, true) ∷ polls) out broadcasts e = ground arith
  wait_root_once done ((other_message, false) ∷ polls) out broadcasts e =
      wait_root_once done polls out broadcasts e

  -- However it ends, with a root, without leaves or by the deadline, the driver has released the
  -- workers exactly once.
  pub collect_peer_root_releases :
      (empty : A) (n : ℕ) (polls : List (Got A × Bool)) (out : Collected A) (broadcasts : ℕ)
      → collect_peer_root empty n polls ≡ some (out, broadcasts)
      → broadcasts ≡ 1
  unfolding collect_peer_root
  collect_peer_root_releases empty zero polls out broadcasts e = ground arith
  collect_peer_root_releases empty (suc n) polls out broadcasts e =
      wait_root_once 0 polls out broadcasts e
