-- ===== src/Peer/Actor.antt =====
-- slice_items and _PeerActor of local/_peer.py: one worker's leaves, steals and run control. Times
-- are milliseconds. The transport is what a call is given: the polled payloads, the received one
-- and the clock. The task events, the profiler and the witness counters of telemetry are left out.
pub mod Sound
pub mod Turns
use graphed_executors.Prelude.{
  ℕ, zero, suc, ◌+◌, ◌*◌, List, [], ◌∷◌, ◌++◌, Option, none, some, map, Bool, true, false, not,
  ◌&&◌, ◌||◌, ltb, leb, ◌==◌, if◌then◌else◌, node_eq, contains, length, get_elem?, min, ◌%◌,
}
use graphed_executors.Peer.Bounds.{worker_of}
use graphed_executors.Peer.Reducer.{PeerReducer, Out, settle, new_peer, hand_in}

abbrev pub steal_delay : ℕ
steal_delay = 10

abbrev pub max_steal_backoff : ℕ
max_steal_backoff = 100

-- A worker's own share of the partitions from a leaf on.
unfoldable pub slice_items : {P : Type 0} → List ℕ → ℕ → ℕ → List P → List (ℕ × P)
slice_items bounds address leaf [] = []
slice_items bounds address leaf (part ∷ parts) =
    let rest = slice_items bounds address (suc leaf) parts in
    if worker_of leaf bounds == address then (leaf, part) ∷ rest else rest

-- What a worker is told; a steal response carries the leaves granted, the victim and its number.
pub data Payload (A P : Type 0) : Type 0 where
  node : ℕ → ℕ → A → Payload A P
  leaf : ℕ → A → Payload A P
  steal_req : ℕ → Payload A P
  steal_resp : List (ℕ × P) → ℕ × ℕ → Payload A P
  pause resume cancel done : Payload A P

-- What it puts into its outbox: the reducer's messages, a payload for a worker, and the hand-in of a
-- cancelled worker, with its address, its count and its parked nodes.
pub data Send (A P : Type 0) : Type 0 where
  reduced : Out A → Send A P
  post : ℕ → Payload A P → Send A P
  cancelled : ℕ → ℕ → List (ℕ × ℕ × A) → Send A P

-- `seen` is in two parts: the nodes, and the grants with their negative level -1 - me written me.
pub record PeerActor (A P : Type 0) : Type 0 where
  pub reducer : PeerReducer A
  pub mine : List (ℕ × P)
  pub seen : List (ℕ × ℕ)
  pub grants : List (ℕ × ℕ)
  pub steals : ℕ
  pub given : ℕ
  pub asked : ℕ
  pub processed : ℕ
  pub victim : ℕ
  pub idle_since : Option ℕ
  pub backoff : ℕ
  pub next_steal_at : ℕ
  pub pending : List (Payload A P)
  pub is_done : Bool
  pub is_paused : Bool
  pub is_cancelled : Bool

-- A call that returns, with the actor after it and what it sends; none is an exception.
abbrev pub Call : Type 0 → Type 0 → Type 0
Call A P = Option (PeerActor A P × List (Send A P))

-- mine[-1], with what pop() leaves.
unfoldable pub behind : {X : Type 0} → X → Option (List X × X) → List X × X
behind x none = ([], x)
behind x (some (front, last)) = (x ∷ front, last)

unfoldable pub split_last : {X : Type 0} → List X → Option (List X × X)
unfolding behind
split_last [] = none
split_last (x ∷ xs) = some (behind x (split_last xs))

module _ {A P : Type 0} where
  unfoldable pub new_actor : ℕ → List (ℕ × P) → List (Payload A P) → PeerActor A P
  new_actor address items prebuffered = record {
    reducer = new_peer address;
    mine = items;
    seen = [];
    grants = [];
    steals = 0;
    given = 0;
    asked = 0;
    processed = 0;
    victim = 0;
    idle_since = none;
    backoff = steal_delay;
    next_steal_at = 0;
    pending = prebuffered;
    is_done = false;
    is_paused = false;
    is_cancelled = false;
  }

  -- One call, then another on the actor that it leaves.
  unfoldable pub followed : Call A P → (PeerActor A P → Call A P) → Call A P
  followed none rest = none
  followed (some (a, sends)) rest = elim (rest a) [
    | none ↦ none
    | some (a', sends') ↦ some (a', sends ++ sends')
  ]

  -- A call of the reducer's, by the actor.
  unfoldable pub by_reducer : PeerActor A P → Option (PeerReducer A × List (Out A)) → Call A P
  by_reducer a none = none
  by_reducer a (some (r, outs)) = some (record a { reducer = r }, map reduced outs)

  -- The branch of "steal_resp".
  unfoldable pub take_grant_when : Bool → PeerActor A P → List (ℕ × P) → ℕ × ℕ → Call A P
  take_grant_when true a granted grant = some (a, [])
  take_grant_when false a granted grant = some (
    record a {
      grants = grant ∷ a.grants;
      mine = a.mine ++ granted;
      steals = a.steals + length granted;
    },
    [],
  )

  -- The branch of "cancel".
  unfoldable pub cancel_when : Bool → PeerActor A P → Call A P
  unfolding hand_in
  cancel_when true a = some (a, [])
  cancel_when false a = some (
    record a { is_cancelled = true; mine = []; reducer = (hand_in a.reducer).0 },
    cancelled a.reducer.address a.processed (hand_in a.reducer).1 ∷ [],
  )

  unfoldable pub deny : PeerActor A P → ℕ → Call A P
  deny a thief = some (a, post thief (steal_resp [] (a.reducer.address, 0)) ∷ [])

  unfoldable pub give : PeerActor A P → ℕ → List (ℕ × P) → ℕ × P → Call A P
  give a thief front last = some (
    record a { given = a.given + 1; mine = front },
    post thief (steal_resp (last ∷ []) (a.reducer.address, a.given + 1)) ∷ [],
  )

  -- self.peers[self.victim % len(self.peers)], of the peers there are
  unfoldable pub ask_at : PeerActor A P → ℕ → Option ℕ → PeerActor A P × List (Send A P)
  ask_at a now none = (a, [])
  ask_at a now (some peer) = (
    record a {
      asked = a.asked + 1;
      victim = a.victim + 1;
      next_steal_at = now + a.backoff;
      backoff = min (a.backoff * 2) max_steal_backoff;
    },
    post peer (steal_req a.reducer.address) ∷ [],
  )

  unfoldable pub idle_from : PeerActor A P → ℕ → Option ℕ → PeerActor A P
  idle_from a now none = record a {
    idle_since = some now;
    next_steal_at = now + steal_delay;
    backoff = steal_delay;
  }
  idle_from a now (some since) = a

module _ {A P : Type 0} (combine : A → A → A) (n : ℕ) (bounds : List ℕ) where
  unfoldable pub settle_leaf_when : Bool → PeerActor A P → ℕ → A → Call A P
  unfolding by_reducer
  settle_leaf_when true a x value = some (a, [])
  settle_leaf_when false a x value =
      by_reducer (record a { seen = (0, x) ∷ a.seen }) (settle combine n bounds a.reducer 0 x value)

  unfoldable pub settle_leaf : PeerActor A P → ℕ → A → Call A P
  unfolding settle_leaf_when
  settle_leaf a x value = settle_leaf_when (contains a.seen (0, x)) a x value

  unfoldable pub take_node_when : Bool → PeerActor A P → ℕ → ℕ → A → Call A P
  unfolding by_reducer
  take_node_when true a level pos value = some (a, [])
  take_node_when false a level pos value =
      by_reducer (record a { seen = (level, pos) ∷ a.seen })
        (settle combine n bounds (record a.reducer { peer_recvs = a.reducer.peer_recvs + 1 }) level
          pos value)

module _ {A P : Type 0} (combine : A → A → A) (n : ℕ) (bounds : List ℕ) (process : P → Option A)
    (steal : Bool) (peers : List ℕ) where
  unfoldable pub grant_last : PeerActor A P → ℕ → Option (List (ℕ × P) × (ℕ × P)) → Call A P
  unfolding deny give
  grant_last a thief none = deny a thief
  grant_last a thief (some (front, last)) =
      if steal && (ltb 1 (length a.mine) && (worker_of last.0 bounds == a.reducer.address))
      then give a thief front last
      else deny a thief

  unfoldable pub grant : PeerActor A P → ℕ → Call A P
  unfolding grant_last split_last
  grant a thief = grant_last a thief (split_last a.mine)

  unfoldable pub handle : PeerActor A P → Payload A P → Call A P
  unfolding take_node_when settle_leaf grant take_grant_when cancel_when
  handle a (node level pos value) =
      take_node_when combine n bounds (contains a.seen (level, pos)) a level pos value
  handle a (leaf x value) = settle_leaf combine n bounds a x value
  handle a (steal_req thief) = grant a thief
  handle a (steal_resp granted id) = take_grant_when (contains a.grants id) a granted id
  handle a pause = some (record a { is_paused = true }, [])
  handle a resume = some (record a { is_paused = false }, [])
  handle a cancel = cancel_when a.is_cancelled a
  handle a done = some (record a { is_done = true }, [])

  -- The first loop of `drain`, until `done`.
  unfoldable pub drain_pending : PeerActor A P → List (Payload A P) → Call A P
  unfolding handle followed
  drain_pending a [] = some (record a { pending = [] }, [])
  drain_pending a (payload ∷ rest) =
      if a.is_done
      then some (record a { pending = payload ∷ rest }, [])
      else followed (handle (record a { pending = rest }) payload) (λ a'. drain_pending a' rest)

  -- The second, which looks at `done` after each payload.
  unfoldable pub drain_polled : PeerActor A P → List (Payload A P) → Call A P
  unfolding handle followed
  drain_polled a [] = some (a, [])
  drain_polled a (payload ∷ rest) =
      followed (handle a payload)
        (λ a'. let on = drain_polled a' rest in if a'.is_done then some (a', []) else on)

  unfoldable pub drain : PeerActor A P → List (Payload A P) → Call A P
  unfolding drain_pending drain_polled followed
  drain a polled = followed (drain_pending a a.pending) (λ a'. drain_polled a' polled)

  -- What follows `_process`.
  unfoldable pub place : PeerActor A P → ℕ → Option A → Call A P
  unfolding settle_leaf
  place a x none = none
  place a x (some partial) =
      let a' = record a { processed = a.processed + 1 } in
      if worker_of x bounds == a.reducer.address
      then settle_leaf combine n bounds a' x partial
      else some (a', post (worker_of x bounds) (leaf x partial) ∷ [])

  unfoldable pub process_leaf : PeerActor A P → ℕ × P → List (ℕ × P) → Call A P
  unfolding place
  process_leaf a item rest = place (record a { mine = rest }) item.0 (process item.1)

  unfoldable pub ask : PeerActor A P → ℕ → PeerActor A P × List (Send A P)
  unfolding ask_at
  ask a now =
      if leb a.next_steal_at now
      then ask_at a now (get_elem? peers (a.victim % length peers))
      else (a, [])

  unfoldable pub receive_one : PeerActor A P → Option (Payload A P) → Call A P
  unfolding handle
  receive_one a none = some (a, [])
  receive_one a (some payload) = handle a payload

  -- `step` without a leaf to process.
  unfoldable pub step_idle : PeerActor A P → ℕ → Option (Payload A P) → Call A P
  unfolding followed receive_one ask idle_from
  step_idle a now got =
      if steal && (ltb 0 (length peers) && not (a.is_paused || a.is_cancelled))
      then followed (some (ask (idle_from a now a.idle_since) now)) (λ a'. receive_one a' got)
      else receive_one a got

  unfoldable pub step_on : PeerActor A P → List (ℕ × P) → ℕ → Option (Payload A P) → Call A P
  unfolding step_idle process_leaf
  step_on a [] now got = step_idle a now got
  step_on a (item ∷ rest) now got =
      if not (a.is_paused || a.is_cancelled)
      then process_leaf (record a { idle_since = none; backoff = steal_delay }) item rest
      else step_idle a now got

  unfoldable pub step : PeerActor A P → ℕ → Option (Payload A P) → Call A P
  unfolding step_on
  step a now got = step_on a a.mine now got
