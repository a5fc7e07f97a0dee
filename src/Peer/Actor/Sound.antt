-- ===== src/Peer/Actor/Sound.antt =====
-- Every call of _PeerActor returns, and the worker only holds leaves to process, values of the fixed
-- tree and true messages.
use graphed_executors.Prelude.{
  if◌then◌else◌, ℕ, ◌+◌, ◌<◌, ◌≤◌, ◌≡◌, refl, List, [], ◌∷◌, ◌++◌, Option, none, some, map, Bool,
  true, false, node_eq, contains, arith, All, All-append, Bool-cases, inl, inr,
}
use graphed_executors.Peer.Reducer.{PeerReducer, Out, hand_in}
use graphed_executors.Peer.Reducer.Rounds.{IsValue, IsSound, IsTrue}
use graphed_executors.Peer.Reducer.Safe.{Ends, settle-Ends}
use graphed_executors.Reduce.Tree.{node_value, level_size-zero}
use graphed_executors.Prelude.Dict.{Dict}
use graphed_executors.Peer.Actor.{
  PeerActor, Payload, node, leaf, steal_req, steal_resp, pause, resume, cancel, done, Send, reduced,
  post, cancelled, Call, split_last, behind, followed, by_reducer, settle_leaf_when, settle_leaf,
  take_node_when, take_grant_when, cancel_when, deny, give, max_steal_backoff,
}

-- A predicate of the rest of a list and of its last element.
abbrev pub BothAll : {X : Type 0} → (X → Type 0) → Option (List X × X) → Type 0
BothAll Q none = Unit
BothAll Q (some (front, last)) = All Q front × Q last

behind-BothAll :
    {X : Type 0} (Q : X → Type 0) (x : X) (o : Option (List X × X))
    → Q x
    → BothAll Q o
    → BothAll Q (some (behind x o))
unfolding behind
behind-BothAll Q x none q all = (tt, q)
behind-BothAll Q x (some (front, last)) q all = ((q, all.0), all.1)

pub split_last-BothAll :
    {X : Type 0} (Q : X → Type 0) (xs : List X) → All Q xs → BothAll Q (split_last xs)
unfolding split_last
split_last-BothAll Q [] all = tt
split_last-BothAll Q (x ∷ xs) all =
    behind-BothAll Q x (split_last xs) all.0 (split_last-BothAll Q xs all.1)

module _ {A P : Type 0} (combine : A → A → A) (n : ℕ) (leaf_of : ℕ → A) (empty : A)
    (bounds : List ℕ) (process : P → Option A) where
  -- A leaf of the plan with its partition, which `process` does not fail on.
  abbrev pub IsWork : ℕ × P → Type 0
  IsWork item = (item.0 < n) × (process item.1 ≡ some (leaf_of item.0))

  -- What a true payload says.
  abbrev pub IsHonest : Payload A P → Type 0
  IsHonest (node level pos v) = IsValue combine n leaf_of empty bounds level pos v
  IsHonest (leaf x v) = (x < n) × (v ≡ leaf_of x)
  IsHonest (steal_resp granted id) = All IsWork granted
  IsHonest (steal_req thief) = Unit
  IsHonest pause = Unit
  IsHonest resume = Unit
  IsHonest cancel = Unit
  IsHonest done = Unit

  abbrev pub IsHonestSend : Send A P → Type 0
  IsHonestSend (reduced out) = IsTrue combine n leaf_of empty bounds out
  IsHonestSend (post dest payload) = IsHonest payload
  IsHonestSend (cancelled address count parked) =
      All {A = ℕ × ℕ × A} (λ t. IsValue combine n leaf_of empty bounds t.0 t.1 t.2) parked

  -- What a poll gives, if it gives anything.
  abbrev pub IsHonestGot : Option (Payload A P) → Type 0
  IsHonestGot none = Unit
  IsHonestGot (some payload) = IsHonest payload

  pub record IsSoundActor (a : PeerActor A P) : Type 0 where
    pub held : IsSound combine n leaf_of empty bounds a.reducer
    pub work : All IsWork a.mine
    pub waiting : All IsHonest a.pending
    pub patient : a.backoff ≤ max_steal_backoff

  -- A call that returns, with a sound actor and true messages.
  pub record Keeps (run : Call A P) : Type 0 where
    pub after : PeerActor A P
    pub sends : List (Send A P)
    pub ends : run ≡ some (after, sends)
    pub sound : IsSoundActor after
    pub honest : All IsHonestSend sends

  pub if_Keeps :
      (test : Bool) {run run' : Call A P}
      → Keeps run
      → Keeps run'
      → Keeps (if test then run else run')
  if_Keeps true k k' = k
  if_Keeps false k k' = k'

  -- A call that sends nothing.
  pub quietly : (a : PeerActor A P) → IsSoundActor a → Keeps (some (a, []))
  quietly a s = record { after = a; sends = []; ends = refl; sound = s; honest = tt }

  pub followed-Keeps :
      (run : Call A P) (rest : PeerActor A P → Call A P)
      → Keeps run
      → ((a : PeerActor A P) → IsSoundActor a → Keeps (rest a))
      → Keeps (followed run rest)
  unfolding followed
  followed-Keeps run rest k on =
      let k' : Keeps (rest k.after) = on k.after k.sound in
      record {
        after = k'.after;
        sends = k.sends ++ k'.sends;
        ends = rw (k.ends, followed) (rw (k'.ends, followed) refl);
        sound = k'.sound;
        honest = All-append IsHonestSend k.sends k'.sends k.honest k'.honest;
      }

  all_reduced :
      (outs : List (Out A))
      → All (IsTrue combine n leaf_of empty bounds) outs
      → All IsHonestSend (map reduced outs)
  all_reduced [] h = tt
  all_reduced (out ∷ outs) h = (h.0, all_reduced outs h.1)

  by_reducer-Keeps :
      (a : PeerActor A P) (run : Option (PeerReducer A × List (Out A)))
      → IsSoundActor a
      → Ends combine n leaf_of empty bounds run
      → Keeps (by_reducer a run)
  unfolding by_reducer
  by_reducer-Keeps a run s e = record {
    after = record a { reducer = e.after };
    sends = map reduced e.outs;
    ends = rw (e.ends, by_reducer) refl;
    sound = record { held = e.sound; work = s.work; waiting = s.waiting; patient = s.patient };
    honest = all_reduced e.outs e.true_outs;
  }

  pub settle_leaf-Keeps :
      (a : PeerActor A P) (x : ℕ) (value : A)
      → IsSoundActor a
      → x < n
      → value ≡ leaf_of x
      → Keeps (settle_leaf combine n bounds a x value)
  unfolding settle_leaf settle_leaf_when node_value
  settle_leaf-Keeps a x value s inside right = elim (Bool-cases (contains a.seen (0, x))) [
    | inl old ↦ rw (old, settle_leaf) (quietly a s)
    | inr new ↦
        rw (new, settle_leaf)
          (by_reducer-Keeps (record a { seen = (0, x) ∷ a.seen }) _
            (record { held = s.held; work = s.work; waiting = s.waiting; patient = s.patient })
            (settle-Ends combine n leaf_of empty bounds a.reducer 0 x value s.held
              (omega arith, omega (arith, level_size-zero n, inside), right) (omega arith)))
  ]

  pub take_node-Keeps :
      (seen : Bool) (a : PeerActor A P) (level pos : ℕ) (v : A)
      → IsSoundActor a
      → IsValue combine n leaf_of empty bounds level pos v
      → 0 < n
      → Keeps (take_node_when combine n bounds seen a level pos v)
  unfolding take_node_when
  take_node-Keeps true a level pos v s right some_leaf = quietly a s
  take_node-Keeps false a level pos v s right some_leaf =
      by_reducer-Keeps (record a { seen = (level, pos) ∷ a.seen }) _
        (record { held = s.held; work = s.work; waiting = s.waiting; patient = s.patient })
        (settle-Ends combine n leaf_of empty bounds
          (record a.reducer { peer_recvs = a.reducer.peer_recvs + 1 }) level pos v
          (record { held = s.held.held }) right some_leaf)

  pub take_grant-Keeps :
      (seen : Bool) (a : PeerActor A P) (granted : List (ℕ × P)) (id : ℕ × ℕ)
      → IsSoundActor a
      → All IsWork granted
      → Keeps (take_grant_when seen a granted id)
  unfolding take_grant_when
  take_grant-Keeps true a granted id s right = quietly a s
  take_grant-Keeps false a granted id s right = quietly _ (record {
    held = s.held;
    work = All-append IsWork a.mine granted s.work right;
    waiting = s.waiting;
    patient = s.patient;
  })

  parked_true :
      (d : Dict (ℕ × ℕ) A)
      → All (λ p. IsValue combine n leaf_of empty bounds p.0.0 p.0.1 p.1) d
      → All {A = ℕ × ℕ × A}
          (λ t. IsValue combine n leaf_of empty bounds t.0 t.1 t.2)
          (map (λ p. (p.0.0, p.0.1, p.1)) d)
  parked_true [] h = tt
  parked_true (p ∷ d) h = (h.0, parked_true d h.1)

  pub cancel-Keeps :
      (already : Bool) (a : PeerActor A P) → IsSoundActor a → Keeps (cancel_when already a)
  unfolding cancel_when hand_in
  cancel-Keeps true a s = quietly a s
  cancel-Keeps false a s = record {
    after = _;
    sends = _;
    ends = refl;
    sound = record {
      held = record { held = tt };
      work = tt;
      waiting = s.waiting;
      patient = s.patient;
    };
    honest = (parked_true a.reducer.present s.held.held, tt);
  }

  pub deny-Keeps : (a : PeerActor A P) (thief : ℕ) → IsSoundActor a → Keeps (deny a thief)
  unfolding deny
  deny-Keeps a thief s = record { after = a; sends = _; ends = refl; sound = s; honest = (tt, tt) }

  pub give-Keeps :
      (a : PeerActor A P) (thief : ℕ) (front : List (ℕ × P)) (last : ℕ × P)
      → IsSoundActor a
      → All IsWork front
      → IsWork last
      → Keeps (give a thief front last)
  unfolding give
  give-Keeps a thief front last s rest right = record {
    after = _;
    sends = _;
    ends = refl;
    sound = record { held = s.held; work = rest; waiting = s.waiting; patient = s.patient };
    honest = ((right, tt), tt);
  }
