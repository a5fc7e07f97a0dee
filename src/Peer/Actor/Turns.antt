-- ===== src/Peer/Actor/Turns.antt =====
-- The turns of _PeerActor in local/_peer.py: every payload handled, every step and every drain
-- returns and keeps the worker sound.
use graphed_executors.Prelude.{
  if◌then◌else◌, ℕ, ◌+◌, ◌<◌, ◌≡◌, refl, List, [], ◌∷◌, Option, none, some, Bool, true, false, leb,
  node_eq, contains, length, get_elem?, arith, All, ◌%◌,
}
use graphed_executors.Peer.Bounds.{worker_of}
use graphed_executors.Peer.Actor.{
  PeerActor, Payload, node, leaf, steal_req, steal_resp, pause, resume, cancel, done, post, Call,
  split_last, grant_last, grant, handle, drain_pending, drain_polled, drain, place, process_leaf,
  ask_at, ask, idle_from, receive_one, step_idle, step_on, step, steal_delay,
}
use graphed_executors.Peer.Actor.Sound.{
  BothAll, IsHonestGot, split_last-BothAll, IsWork, IsHonest, IsSoundActor, Keeps, if_Keeps,
  quietly, followed-Keeps, settle_leaf-Keeps, take_node-Keeps, take_grant-Keeps, cancel-Keeps,
  deny-Keeps, give-Keeps,
}

module _ {A P : Type 0} (combine : A → A → A) (n : ℕ) (leaf_of : ℕ → A) (empty : A)
    (bounds : List ℕ) (process : P → Option A) (steal : Bool) (peers : List ℕ) where
  abbrev Work : ℕ × P → Type 0
  Work = IsWork combine n leaf_of empty bounds process

  abbrev Honest : Payload A P → Type 0
  Honest = IsHonest combine n leaf_of empty bounds process

  abbrev HonestGot : Option (Payload A P) → Type 0
  HonestGot = IsHonestGot combine n leaf_of empty bounds process

  abbrev Sound : PeerActor A P → Type 0
  Sound = IsSoundActor combine n leaf_of empty bounds process

  abbrev Kept : Call A P → Type 0
  Kept = Keeps combine n leaf_of empty bounds process

  grant_last-Keeps :
      (a : PeerActor A P) (thief : ℕ) (o : Option (List (ℕ × P) × (ℕ × P)))
      → Sound a
      → BothAll Work o
      → Kept (grant_last combine n bounds process steal peers a thief o)
  unfolding grant_last
  grant_last-Keeps a thief none s all = deny-Keeps combine n leaf_of empty bounds process a thief s
  grant_last-Keeps a thief (some (front, last)) s all =
      if_Keeps combine n leaf_of empty bounds process _
        (give-Keeps combine n leaf_of empty bounds process a thief front last s all.0 all.1)
        (deny-Keeps combine n leaf_of empty bounds process a thief s)

  pub handle-Keeps :
      (a : PeerActor A P) (payload : Payload A P)
      → Sound a
      → Honest payload
      → 0 < n
      → Kept (handle combine n bounds process steal peers a payload)
  unfolding handle grant
  handle-Keeps a (node level pos v) s h some_leaf =
      take_node-Keeps combine n leaf_of empty bounds process (contains a.seen (level, pos)) a level
        pos v s h some_leaf
  handle-Keeps a (leaf x v) s h some_leaf =
      settle_leaf-Keeps combine n leaf_of empty bounds process a x v s h.0 h.1
  handle-Keeps a (steal_req thief) s h some_leaf =
      grant_last-Keeps a thief (split_last a.mine) s (split_last-BothAll Work a.mine s.work)
  handle-Keeps a (steal_resp granted id) s h some_leaf =
      take_grant-Keeps combine n leaf_of empty bounds process (contains a.grants id) a granted id s
        h
  handle-Keeps a pause s h some_leaf =
      quietly combine n leaf_of empty bounds process _
        (record { held = s.held; work = s.work; waiting = s.waiting; patient = s.patient })
  handle-Keeps a resume s h some_leaf =
      quietly combine n leaf_of empty bounds process _
        (record { held = s.held; work = s.work; waiting = s.waiting; patient = s.patient })
  handle-Keeps a cancel s h some_leaf =
      cancel-Keeps combine n leaf_of empty bounds process a.is_cancelled a s
  handle-Keeps a done s h some_leaf =
      quietly combine n leaf_of empty bounds process _
        (record { held = s.held; work = s.work; waiting = s.waiting; patient = s.patient })

  place-Keeps :
      (a : PeerActor A P) (x : ℕ) (v : A)
      → Sound a
      → x < n
      → v ≡ leaf_of x
      → Kept (place combine n bounds process steal peers a x (some v))
  unfolding place
  place-Keeps a x v s inside right =
      let s' : Sound (record a { processed = a.processed + 1 }) = record {
        held = s.held;
        work = s.work;
        waiting = s.waiting;
        patient = s.patient;
      } in
      if_Keeps combine n leaf_of empty bounds process _
        (settle_leaf-Keeps combine n leaf_of empty bounds process
          (record a { processed = a.processed + 1 }) x v s' inside right)
        (record {
          after = record a { processed = a.processed + 1 };
          sends = post (worker_of x bounds) (leaf x v) ∷ [];
          ends = refl;
          sound = s';
          honest = ((inside, right), tt);
        })

  process_leaf-Keeps :
      (a : PeerActor A P) (item : ℕ × P) (rest : List (ℕ × P))
      → Sound a
      → Work item
      → All Work rest
      → Kept (process_leaf combine n bounds process steal peers a item rest)
  unfolding process_leaf
  process_leaf-Keeps a item rest s w more =
      rw (w.1, process_leaf)
        (place-Keeps (record a { mine = rest }) item.0 (leaf_of item.0)
          (record { held = s.held; work = more; waiting = s.waiting; patient = s.patient }) w.0
          refl)

  ask_at-Keeps :
      (a : PeerActor A P) (now : ℕ) (peer : Option ℕ) → Sound a → Kept (some (ask_at a now peer))
  unfolding ask_at
  ask_at-Keeps a now none s = quietly combine n leaf_of empty bounds process a s
  ask_at-Keeps a now (some peer) s = record {
    after = _;
    sends = _;
    ends = refl;
    sound = record { held = s.held; work = s.work; waiting = s.waiting; patient = omega arith };
    honest = (tt, tt);
  }

  ask-Keeps :
      (a : PeerActor A P) (now : ℕ)
      → Sound a
      → Kept (some (ask combine n bounds process steal peers a now))
  unfolding ask
  ask-Keeps a now s = when_due (leb a.next_steal_at now)
    where
      when_due :
          (due : Bool)
          → Kept (
              some
                (if due then ask_at a now (get_elem? peers (a.victim % length peers)) else (a, [])))
      when_due true = ask_at-Keeps a now _ s
      when_due false = quietly combine n leaf_of empty bounds process a s

  idle_from-Sound :
      (a : PeerActor A P) (now : ℕ) (since : Option ℕ) → Sound a → Sound (idle_from a now since)
  unfolding idle_from
  idle_from-Sound a now none s = record {
    held = s.held;
    work = s.work;
    waiting = s.waiting;
    patient = omega arith;
  }
  idle_from-Sound a now (some since) s = s

  receive_one-Keeps :
      (a : PeerActor A P) (got : Option (Payload A P))
      → Sound a
      → HonestGot got
      → 0 < n
      → Kept (receive_one combine n bounds process steal peers a got)
  unfolding receive_one
  receive_one-Keeps a none s h some_leaf = quietly combine n leaf_of empty bounds process a s
  receive_one-Keeps a (some payload) s h some_leaf = handle-Keeps a payload s h some_leaf

  step_idle-Keeps :
      (a : PeerActor A P) (now : ℕ) (got : Option (Payload A P))
      → Sound a
      → HonestGot got
      → 0 < n
      → Kept (step_idle combine n bounds process steal peers a now got)
  unfolding step_idle
  step_idle-Keeps a now got s h some_leaf =
      if_Keeps combine n leaf_of empty bounds process _
        (followed-Keeps combine n leaf_of empty bounds process _ _
          (ask-Keeps (idle_from a now a.idle_since) now (idle_from-Sound a now a.idle_since s))
          (λ a' s'. receive_one-Keeps a' got s' h some_leaf))
        (receive_one-Keeps a got s h some_leaf)

  step_on-Keeps :
      (a : PeerActor A P) (items : List (ℕ × P)) (now : ℕ) (got : Option (Payload A P))
      → Sound a
      → All Work items
      → HonestGot got
      → 0 < n
      → Kept (step_on combine n bounds process steal peers a items now got)
  unfolding step_on
  step_on-Keeps a [] now got s w h some_leaf = step_idle-Keeps a now got s h some_leaf
  step_on-Keeps a (item ∷ rest) now got s w h some_leaf =
      if_Keeps combine n leaf_of empty bounds process _
        (process_leaf-Keeps (record a { idle_since = none; backoff = steal_delay }) item rest
          (record { held = s.held; work = s.work; waiting = s.waiting; patient = omega arith }) w.0
          w.1)
        (step_idle-Keeps a now got s h some_leaf)

  pub step-Keeps :
      (a : PeerActor A P) (now : ℕ) (got : Option (Payload A P))
      → Sound a
      → HonestGot got
      → 0 < n
      → Kept (step combine n bounds process steal peers a now got)
  unfolding step
  step-Keeps a now got s h some_leaf = step_on-Keeps a a.mine now got s s.work h some_leaf

  drain_pending-Keeps :
      (a : PeerActor A P) (pending : List (Payload A P))
      → Sound a
      → All Honest pending
      → 0 < n
      → Kept (drain_pending combine n bounds process steal peers a pending)
  unfolding drain_pending
  drain_pending-Keeps a [] s h some_leaf =
      quietly combine n leaf_of empty bounds process _
        (record { held = s.held; work = s.work; waiting = tt; patient = s.patient })
  drain_pending-Keeps a (payload ∷ rest) s h some_leaf =
      if_Keeps combine n leaf_of empty bounds process a.is_done
        (quietly combine n leaf_of empty bounds process _
          (record { held = s.held; work = s.work; waiting = h; patient = s.patient }))
        (followed-Keeps combine n leaf_of empty bounds process _ _
          (handle-Keeps (record a { pending = rest }) payload
            (record { held = s.held; work = s.work; waiting = h.1; patient = s.patient }) h.0
            some_leaf)
          (λ a' s'. drain_pending-Keeps a' rest s' h.1 some_leaf))

  drain_polled-Keeps :
      (a : PeerActor A P) (polled : List (Payload A P))
      → Sound a
      → All Honest polled
      → 0 < n
      → Kept (drain_polled combine n bounds process steal peers a polled)
  unfolding drain_polled
  drain_polled-Keeps a [] s h some_leaf = quietly combine n leaf_of empty bounds process a s
  drain_polled-Keeps a (payload ∷ rest) s h some_leaf =
      followed-Keeps combine n leaf_of empty bounds process _ _
        (handle-Keeps a payload s h.0 some_leaf)
        (λ a' s'.
          if_Keeps combine n leaf_of empty bounds process a'.is_done
            (quietly combine n leaf_of empty bounds process a' s')
            (drain_polled-Keeps a' rest s' h.1 some_leaf))

  pub drain-Keeps :
      (a : PeerActor A P) (polled : List (Payload A P))
      → Sound a
      → All Honest polled
      → 0 < n
      → Kept (drain combine n bounds process steal peers a polled)
  unfolding drain
  drain-Keeps a polled s h some_leaf =
      followed-Keeps combine n leaf_of empty bounds process _ _
        (drain_pending-Keeps a a.pending s s.waiting some_leaf)
        (λ a' s'. drain_polled-Keeps a' polled s' h some_leaf)
