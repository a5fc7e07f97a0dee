-- ===== src/Peer/Control/Relay.antt =====
-- What PeerControl.relay of local/_peer_tree.py tells the workers over a run's polls.
use graphed_executors.Prelude.{ℕ, ◌≡◌, refl, ap, List, [], ◌∷◌, ◌++◌, map, if◌then◌else◌}
use graphed_executors.Window.{RunState, running, paused, cancelled}
use graphed_executors.Peer.Control.{
  Tag, tag_of, same_state, PeerControl, new_control, relay, relay_all,
}

-- The states up to the first cancel.
abbrev pub until_cancel : List RunState → List RunState
until_cancel [] = []
until_cancel (cancelled ∷ states) = cancelled ∷ []
until_cancel (running ∷ states) = running ∷ until_cancel states
until_cancel (paused ∷ states) = paused ∷ until_cancel states

-- The states that differ from the one before.
abbrev pub changes : RunState → List RunState → List RunState
changes before [] = []
changes before (state ∷ states) =
    let rest = changes state states in if same_state state before then rest else state ∷ rest

-- One tag to every worker, for each state.
abbrev pub tell_all : List ℕ → List RunState → List (ℕ × Tag)
tell_all workers [] = []
tell_all workers (state ∷ states) =
    map (λ dest. (dest, tag_of state)) workers ++ tell_all workers states

-- What is still to be told after a state.
abbrev still_told : List ℕ → List RunState → RunState → List (ℕ × Tag)
still_told workers states cancelled = []
still_told workers states running = tell_all workers (changes running (until_cancel states))
still_told workers states paused = tell_all workers (changes paused (until_cancel states))

module _ {A : Type 0} where
  relay_all-from :
      (c : PeerControl A) (states : List RunState) (told : RunState)
      → relay_all (record c { told = told }) states ≡ still_told c.workers states told
  unfolding relay_all relay
  relay_all-from c [] running = refl
  relay_all-from c [] paused = refl
  relay_all-from c [] cancelled = refl
  relay_all-from c (running ∷ states) running = relay_all-from c states running
  relay_all-from c (paused ∷ states) running =
      ap (λ l. map (λ dest. (dest, tag_of paused)) c.workers ++ l) (relay_all-from c states paused)
  relay_all-from c (cancelled ∷ states) running =
      ap (λ l. map (λ dest. (dest, tag_of cancelled)) c.workers ++ l)
        (relay_all-from c states cancelled)
  relay_all-from c (running ∷ states) paused =
      ap (λ l. map (λ dest. (dest, tag_of running)) c.workers ++ l)
        (relay_all-from c states running)
  relay_all-from c (paused ∷ states) paused = relay_all-from c states paused
  relay_all-from c (cancelled ∷ states) paused =
      ap (λ l. map (λ dest. (dest, tag_of cancelled)) c.workers ++ l)
        (relay_all-from c states cancelled)
  relay_all-from c (running ∷ states) cancelled = relay_all-from c states cancelled
  relay_all-from c (paused ∷ states) cancelled = relay_all-from c states cancelled
  relay_all-from c (cancelled ∷ states) cancelled = relay_all-from c states cancelled

-- Over the polls of a run every worker is told each change of the control's state once, in order, from
-- running on, and nothing after a cancel.
pub relay_all-changes :
    (A : Type 0) (workers : List ℕ) (n : ℕ) (states : List RunState)
    → relay_all (new_control {A = A} workers n) states
      ≡ tell_all workers (changes running (until_cancel states))
unfolding new_control
relay_all-changes A workers n states = relay_all-from (new_control workers n) states running
