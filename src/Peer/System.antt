-- ===== src/Peer/System.antt =====
-- The workers of local/_peer.py on an at-least-once transport: any worker may take its next turn,
-- and a message sent may be delivered at any later time and again.
use graphed_executors.Prelude.{
  ℕ, zero, suc, ◌+◌, ◌<◌, ◌≤◌, ◌≡◌, refl, sym, ◌∙◌, List, [], ◌∷◌, ◌++◌, Option, none, some, map,
  Bool, true, false, ◌==◌, if◌then◌else◌, get_elem?, length, arith, All, All-append, range_from,
  Bool-cases, inl, inr,
}
use graphed_executors.Reduce.Fold.{tree_fold}
use graphed_executors.Peer.Bounds.{worker_of}
use graphed_executors.Peer.Reducer.{Out, new_peer}
use graphed_executors.Peer.Actor.{
  PeerActor, Payload, node, pause, resume, cancel, done, Send, reduced, post, cancelled, new_actor,
  slice_items, Call, drain, step, max_steal_backoff,
}
use graphed_executors.Peer.Actor.Sound.{
  IsWork, IsHonest, IsHonestSend, IsHonestGot, IsSoundActor, Keeps,
}
use graphed_executors.Peer.Actor.Turns.{drain-Keeps, step-Keeps}

-- The worker that a send goes to; none is the driver.
unfoldable pub routed : {A P : Type 0} → Send A P → Option (ℕ × Payload A P)
routed (reduced (Out.item level pos v)) = none
routed (reduced (Out.root v)) = none
routed (reduced (Out.node dest level pos v)) = some (dest, node level pos v)
routed (post dest payload) = some (dest, payload)
routed (cancelled address count parked) = none

pub record System (A P : Type 0) : Type 0 where
  pub workers : ℕ → PeerActor A P
  pub sent : List (Send A P)

-- What worker i may find in its inbox: a tag of the driver's, or what was sent to it.
pub data Available {A P : Type 0} (sent : List (Send A P)) (i : ℕ) : Payload A P → Type 0 where
  pausing : Available sent i pause
  resuming : Available sent i resume
  cancelling : Available sent i cancel
  releasing : Available sent i done
  delivered :
      (k : ℕ) (send : Send A P) (payload : Payload A P)
      → get_elem? sent k ≡ some send
      → routed send ≡ some (i, payload)
      → Available sent i payload

abbrev pub AvailableGot : {A P : Type 0} → List (Send A P) → ℕ → Option (Payload A P) → Type 0
AvailableGot sent i none = Unit
AvailableGot sent i (some payload) = Available sent i payload

module _ {A P : Type 0} (combine : A → A → A) (n : ℕ) (bounds : List ℕ) (process : P → Option A)
    (steal : Bool) (peers : ℕ → List ℕ) where
  abbrev pub after : System A P → ℕ → PeerActor A P → List (Send A P) → System A P
  after sys i a sends = record {
    workers = λ j. if j == i then a else sys.workers j;
    sent = sys.sent ++ sends;
  }

  pub data Step (sys : System A P) : System A P → Type 0 where
    drained :
        (i : ℕ) (polled : List (Payload A P)) (a : PeerActor A P) (sends : List (Send A P))
        → All (Available sys.sent i) polled
        → drain combine n bounds process steal (peers i) (sys.workers i) polled ≡ some (a, sends)
        → Step sys (after sys i a sends)
    stepped :
        (i now : ℕ) (got : Option (Payload A P)) (a : PeerActor A P) (sends : List (Send A P))
        → AvailableGot sys.sent i got
        → step combine n bounds process steal (peers i) (sys.workers i) now got ≡ some (a, sends)
        → Step sys (after sys i a sends)

  pub data Reach (start : System A P) : System A P → Type 0 where
    started : Reach start start
    onward : (sys sys' : System A P) → Reach start sys → Step sys sys' → Reach start sys'

  -- Each worker with its own leaves.
  unfoldable pub peer_run : List P → System A P
  peer_run partitions = record {
    workers = λ i. new_actor i (slice_items bounds i 0 partitions) [];
    sent = [];
  }

module _ {A P : Type 0} (combine : A → A → A) (n : ℕ) (bounds : List ℕ) (process : P → Option A)
    (steal : Bool) (peers : ℕ → List ℕ) (leaf_of : ℕ → A) (empty : A) where
  abbrev Honest : Send A P → Type 0
  Honest = IsHonestSend combine n leaf_of empty bounds process

  abbrev Sound : PeerActor A P → Type 0
  Sound = IsSoundActor combine n leaf_of empty bounds process

  abbrev Kept : Call A P → Type 0
  Kept = Keeps combine n leaf_of empty bounds process

  abbrev True : Payload A P → Type 0
  True = IsHonest combine n leaf_of empty bounds process

  record IsSafe (sys : System A P) : Type 0 where
    sound : (i : ℕ) → Sound (sys.workers i)
    honest : All Honest sys.sent

  All-at :
      (sent : List (Send A P)) (k : ℕ) {send : Send A P}
      → All Honest sent
      → get_elem? sent k ≡ some send
      → Honest send
  All-at [] k all e = cc
  All-at (x ∷ sent) zero {send} all e = let same : x ≡ send = cc in rw (sym same) all.0
  All-at (x ∷ sent) (suc k) all e = All-at sent k all.1 e

  routed-Honest :
      (send : Send A P) {i : ℕ} {payload : Payload A P}
      → Honest send
      → routed send ≡ some (i, payload)
      → True payload
  unfolding routed
  routed-Honest (reduced (Out.item level pos v)) h e = cc
  routed-Honest (reduced (Out.root v)) h e = cc
  routed-Honest (reduced (Out.node dest level pos v)) {i} {payload} h e =
      let same : node level pos v ≡ payload = cc in rw (sym same) h
  routed-Honest (post dest x) {i} {payload} h e = let same : x ≡ payload = cc in rw (sym same) h
  routed-Honest (cancelled address count parked) h e = cc

  Available-Honest :
      (sent : List (Send A P)) (i : ℕ) (payload : Payload A P)
      → All Honest sent
      → Available sent i payload
      → True payload
  Available-Honest sent i pause all pausing = tt
  Available-Honest sent i resume all resuming = tt
  Available-Honest sent i cancel all cancelling = tt
  Available-Honest sent i done all releasing = tt
  Available-Honest sent i _ all (delivered k send payload at to) =
      routed-Honest send (All-at sent k all at) to

  all-Available :
      (sent : List (Send A P)) (i : ℕ) (polled : List (Payload A P))
      → All Honest sent
      → All (Available sent i) polled
      → All True polled
  all-Available sent i [] all h = tt
  all-Available sent i (payload ∷ polled) all h =
      (Available-Honest sent i payload all h.0, all-Available sent i polled all h.1)

  got-Available :
      (sent : List (Send A P)) (i : ℕ) (got : Option (Payload A P))
      → All Honest sent
      → AvailableGot sent i got
      → IsHonestGot combine n leaf_of empty bounds process got
  got-Available sent i none all h = tt
  got-Available sent i (some payload) all h = Available-Honest sent i payload all h

  if_Sound : (test : Bool) {a b : PeerActor A P} → Sound a → Sound b → Sound (if test then a else b)
  if_Sound true s s' = s
  if_Sound false s s' = s'

  after-IsSafe :
      (sys : System A P) (i : ℕ) (a : PeerActor A P) (sends : List (Send A P)) (run : Call A P)
      → IsSafe sys
      → Kept run
      → run ≡ some (a, sends)
      → IsSafe (after combine n bounds process steal peers sys i a sends)
  after-IsSafe sys i a sends run s k e =
      let ran : ◌≡◌ {A = Call A P} (some (k.after, k.sends)) (some (a, sends)) = sym k.ends ∙ e in
      let same : k.after ≡ a = cc in
      let same' : k.sends ≡ sends = cc in
      record {
        sound = λ j. if_Sound (j == i) (rw (sym same) k.sound) (s.sound j);
        honest = All-append Honest sys.sent sends s.honest (rw (sym same') k.honest);
      }

  Step-IsSafe :
      (sys sys' : System A P)
      → 0 < n
      → IsSafe sys
      → Step combine n bounds process steal peers sys sys'
      → IsSafe sys'
  Step-IsSafe sys sys' some_leaf s (drained i polled a sends available ran) =
      after-IsSafe sys i a sends _ s
        (drain-Keeps combine n leaf_of empty bounds process steal (peers i) (sys.workers i) polled
          (s.sound i) (all-Available sys.sent i polled s.honest available) some_leaf)
        ran
  Step-IsSafe sys sys' some_leaf s (stepped i now got a sends available ran) =
      after-IsSafe sys i a sends _ s
        (step-Keeps combine n leaf_of empty bounds process steal (peers i) (sys.workers i) now got
          (s.sound i) (got-Available sys.sent i got s.honest available) some_leaf)
        ran

  Reach-IsSafe :
      (start sys : System A P)
      → 0 < n
      → IsSafe start
      → Reach combine n bounds process steal peers start sys
      → IsSafe sys
  Reach-IsSafe start sys some_leaf s started = s
  Reach-IsSafe start _ some_leaf s (onward mid sys r st) =
      Step-IsSafe mid sys some_leaf (Reach-IsSafe start mid some_leaf s r) st

  -- A worker's share of the partitions is work for it.
  slice_items-IsWork :
      (address first : ℕ) (partitions : List P)
      → first + length partitions ≤ n
      → ((x : ℕ) (part : P)
          → get_elem? partitions x ≡ some part
          → process part ≡ some (leaf_of (first + x)))
      → All
          (IsWork combine n leaf_of empty bounds process)
          (slice_items bounds address first partitions)
  unfolding slice_items
  slice_items-IsWork address first [] fits works = tt
  slice_items-IsWork address first (part ∷ parts) fits works =
      let e : first + 0 ≡ first = omega arith in
      let head : process part ≡ some (leaf_of first) = rw e at (works 0 part refl) in
      let rest = slice_items-IsWork address (suc first) parts (omega (arith, fits)) (λ x other at.
        let e' : first + suc x ≡ suc first + x = omega arith in
        rw e' at (works (suc x) other at)) in
      elim (Bool-cases (worker_of first bounds == address)) [
        | inl own ↦ rw (own, slice_items) ((omega (arith, fits), head), rest)
        | inr others ↦ rw (others, slice_items) rest
      ]

  peer_run-IsSafe :
      (partitions : List P)
      → length partitions ≡ n
      → ((x : ℕ) (part : P) → get_elem? partitions x ≡ some part → process part ≡ some (leaf_of x))
      → IsSafe (peer_run combine n bounds process steal peers partitions)
  unfolding peer_run new_actor new_peer
  peer_run-IsSafe partitions all works = record {
    sound = λ i. record {
      held = record { held = tt };
      work =
          slice_items-IsWork i 0 partitions (omega (arith, all))
            (λ x part at. let e : 0 + x ≡ x = omega arith in rw e (works x part at));
      waiting = tt;
      patient = omega arith;
    };
    honest = tt;
  }

  -- In every state that the workers reach, on any interleaving of their turns, with leaves stolen,
  -- messages delivered late, twice or never and run-control tags at any time, a root that a worker
  -- has sent is the fold of the fixed tree over the partials of all partitions.
  pub peer_run_root :
      (partitions : List P) (sys : System A P) (k : ℕ) (v : A)
      → 0 < n
      → length partitions ≡ n
      → ((x : ℕ) (part : P) → get_elem? partitions x ≡ some part → process part ≡ some (leaf_of x))
      → Reach combine n bounds process steal peers
          (peer_run combine n bounds process steal peers partitions)
          sys
      → get_elem? sys.sent k ≡ some (reduced (Out.root v))
      → v ≡ tree_fold combine empty (map leaf_of (range_from 0 n))
  peer_run_root partitions sys k v some_leaf all works reached at =
      All-at sys.sent k
        (Reach-IsSafe _ sys some_leaf (peer_run-IsSafe partitions all works) reached).honest at

  -- Where `process` succeeds on every partition of a plan that has one, and with a combine that does not
  -- fail, in every state that the workers reach, the next drain of a worker returns on what it may poll, its
  -- next step returns on what it may receive, and its steal backoff is within max_steal_backoff.
  pub peer_run_turns :
      (partitions : List P) (sys : System A P) (i now : ℕ) (polled : List (Payload A P))
      (got : Option (Payload A P))
      → 0 < n
      → length partitions ≡ n
      → ((x : ℕ) (part : P) → get_elem? partitions x ≡ some part → process part ≡ some (leaf_of x))
      → Reach combine n bounds process steal peers
          (peer_run combine n bounds process steal peers partitions)
          sys
      → All (Available sys.sent i) polled
      → AvailableGot sys.sent i got
      → ((ran : PeerActor A P × List (Send A P)) × (drain combine n bounds process steal
              (peers i)
              (sys.workers i)
              polled
            ≡ some ran))
        × ((ran : PeerActor A P × List (Send A P)) × (step combine n bounds process steal
                (peers i)
                (sys.workers i)
                now
                got
              ≡ some ran))
        × ((sys.workers i).backoff ≤ max_steal_backoff)
  peer_run_turns partitions sys i now polled got some_leaf all works reached inbox received =
      let safe : IsSafe sys =
        Reach-IsSafe _ sys some_leaf (peer_run-IsSafe partitions all works) reached in
      let k : Kept (drain combine n bounds process steal (peers i) (sys.workers i) polled) =
        drain-Keeps combine n leaf_of empty bounds process steal (peers i) (sys.workers i) polled
          (safe.sound i) (all-Available sys.sent i polled safe.honest inbox) some_leaf in
      let k' : Kept (step combine n bounds process steal (peers i) (sys.workers i) now got) =
        step-Keeps combine n leaf_of empty bounds process steal (peers i) (sys.workers i) now got
          (safe.sound i) (got-Available sys.sent i got safe.honest received) some_leaf in
      (((k.after, k.sends), k.ends), ((k'.after, k'.sends), k'.ends), (safe.sound i).patient)
