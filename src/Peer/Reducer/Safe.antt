-- ===== src/Peer/Reducer/Safe.antt =====
-- Whatever the order in which its nodes come, a worker only ever holds and sends the nodes' values
-- in the fixed tree.
use graphed_executors.Prelude.{
  ℕ, zero, suc, ◌+◌, ◌/◌, ◌<◌, ◌≡◌, contains, refl, List, [], ◌∷◌, ◌++◌, Option, some, Bool, true,
  false, ltb, node_eq, arith, All, All-append, Bool-cases, inl, inr,
}
use graphed_executors.Reduce.Tree.{
  level_size, node_value, level_size-zero, level_size-suc, level_size_top, level_size_one_above,
}
use graphed_executors.Peer.Reducer.{
  PeerReducer, Out, item, climb, settle, Message, handed, done, ignored, settle_when, settle_locals,
  receive, drain, run_peer_worker, new_peer,
}
use graphed_executors.Peer.Reducer.Rounds.{IsValue, IsSound, IsTrue, round-Sound}

module _ {A : Type 0} (combine : A → A → A) (n : ℕ) (leaf : ℕ → A) (empty : A)
    (bounds : List ℕ) where
  abbrev Value : ℕ → ℕ → A → Type 0
  Value = IsValue combine n leaf empty bounds

  abbrev Sound : PeerReducer A → Type 0
  Sound = IsSound combine n leaf empty bounds

  abbrev Honest : Out A → Type 0
  Honest = IsTrue combine n leaf empty bounds

  abbrev value_at : ℕ → ℕ → A
  value_at = node_value combine n leaf

  -- A run that returns, with a sound worker and true messages.
  pub record Ends (run : Option (PeerReducer A × List (Out A))) : Type 0 where
    pub after : PeerReducer A
    pub outs : List (Out A)
    pub ends : run ≡ some (after, outs)
    pub sound : Sound after
    pub true_outs : All Honest outs

  below_top : (level : ℕ) → 0 < n → 1 < level_size n level → level < n
  below_top level some_leaf more = elim (Bool-cases (ltb level n)) [
    | inl low ↦ ground arith
    | inr high ↦
        let one : level_size n level ≡ 1 =
          level_size_one_above n n level (level_size_top n some_leaf) (ground arith) in
        absurd (omega (arith, one))
  ]

  climb-Ends :
      (fuel : ℕ) (r : PeerReducer A) (level pos : ℕ) (value : A)
      → Sound r
      → Value level pos value
      → 0 < n
      → n < fuel + level
      → Ends (climb combine n bounds fuel r level pos value)
  unfolding climb
  climb-Ends zero r level pos value s right some_leaf enough = absurd (omega arith)
  climb-Ends (suc fuel) r level pos value s right some_leaf enough =
      elim (round-Sound combine n leaf empty bounds r level pos value s right some_leaf) [
        | inl st ↦ record {
          after = st.after;
          outs = st.outs;
          ends = rw (st.ends, climb) refl;
          sound = st.sound;
          true_outs = st.true_outs;
        }
        | inr (go, more) ↦
            rw (go.goes, climb)
              (climb-Ends fuel go.after (suc level) (pos / 2) go.value go.sound
                (
                  below_top level some_leaf more,
                  omega (arith, level_size-suc n level, right.1),
                  go.right,
                )
                some_leaf (omega arith))
      ]

  settle_when-Ends :
      (forward : Bool) (r : PeerReducer A) (level pos : ℕ) (value : A)
      → Sound r
      → Value level pos value
      → 0 < n
      → Ends (settle_when combine n bounds forward r level pos value)
  unfolding settle_when
  settle_when-Ends true r level pos value s right some_leaf = record {
    after = r;
    outs = item level pos value ∷ [];
    ends = refl;
    sound = s;
    true_outs = (right, tt);
  }
  settle_when-Ends false r level pos value s right some_leaf =
      climb-Ends (suc n) r level pos value s right some_leaf (omega arith)

  pub settle-Ends :
      (r : PeerReducer A) (level pos : ℕ) (value : A)
      → Sound r
      → Value level pos value
      → 0 < n
      → Ends (settle combine n bounds r level pos value)
  unfolding settle
  settle-Ends r level pos value s right some_leaf =
      settle_when-Ends r.forward r level pos value s right some_leaf

  -- The run of one, then of the rest.
  followed-Ends :
      (run rest : Option (PeerReducer A × List (Out A)))
      (both : Option (PeerReducer A × List (Out A))) (e : Ends run) (e' : Ends rest)
      → both ≡ some (e'.after, e.outs ++ e'.outs)
      → Ends both
  followed-Ends run rest both e e' same = record {
    after = e'.after;
    outs = e.outs ++ e'.outs;
    ends = same;
    sound = e'.sound;
    true_outs = All-append Honest e.outs e'.outs e.true_outs e'.true_outs;
  }

  -- A leaf of the plan with its value; a node of the tree with its value.
  abbrev pub IsLeaf : ℕ × A → Type 0
  IsLeaf p = (p.0 < n) × (p.1 ≡ leaf p.0)

  abbrev pub IsNode : Message A → Type 0
  IsNode (handed level pos v) = Value level pos v
  IsNode done = Unit
  IsNode ignored = Unit

  settle_locals-Ends :
      (r : PeerReducer A) (items : List (ℕ × A))
      → Sound r
      → All IsLeaf items
      → 0 < n
      → Ends (settle_locals combine n bounds r items)
  unfolding settle_locals node_value
  settle_locals-Ends r [] s ok some_leaf = record {
    after = r;
    outs = [];
    ends = refl;
    sound = s;
    true_outs = tt;
  }
  settle_locals-Ends r ((x, v) ∷ items) s ok some_leaf =
      let e : Ends (settle combine n bounds r 0 x v) =
        settle-Ends r 0 x v s (omega arith, omega (arith, level_size-zero n, ok.0.0), ok.0.1)
          some_leaf in
      let e' : Ends (settle_locals combine n bounds e.after items) =
        settle_locals-Ends e.after items e.sound ok.1 some_leaf in
      followed-Ends _ _ _ e e' (rw (e.ends, settle_locals) (rw (e'.ends, settle_locals) refl))

  receive-Ends :
      (r : PeerReducer A) (seen : List (ℕ × ℕ)) (level pos : ℕ) (v : A)
      → Sound r
      → IsNode (handed level pos v)
      → 0 < n
      → Ends (receive combine n bounds r seen level pos v)
  unfolding receive
  receive-Ends r seen level pos v s ok some_leaf = elim (Bool-cases (contains seen (level, pos))) [
    | inl old ↦
        rw (old, receive) (record { after = r; outs = []; ends = refl; sound = s; true_outs = tt })
    | inr new ↦
        rw (new, receive)
          (settle-Ends (record r { peer_recvs = r.peer_recvs + 1 }) level pos v
            (record { held = s.held }) ok some_leaf)
  ]

  -- The driver's `done` is among the messages.
  abbrev pub HasDone : List (Message A) → Type 0
  HasDone [] = ⊥
  HasDone (done ∷ messages) = Unit
  HasDone (ignored ∷ messages) = HasDone messages
  HasDone (handed level pos v ∷ messages) = HasDone messages

  drain-Ends :
      (r : PeerReducer A) (seen : List (ℕ × ℕ)) (messages : List (Message A))
      → Sound r
      → All IsNode messages
      → HasDone messages
      → 0 < n
      → Ends (drain combine n bounds r seen messages)
  unfolding drain
  drain-Ends r seen [] s ok has_done some_leaf = absurd has_done
  drain-Ends r seen (done ∷ messages) s ok has_done some_leaf = record {
    after = r;
    outs = [];
    ends = refl;
    sound = s;
    true_outs = tt;
  }
  drain-Ends r seen (ignored ∷ messages) s ok has_done some_leaf =
      drain-Ends r seen messages s ok.1 has_done some_leaf
  drain-Ends r seen (handed level pos v ∷ messages) s ok has_done some_leaf =
      let e : Ends (receive combine n bounds r seen level pos v) =
        receive-Ends r seen level pos v s ok.0 some_leaf in
      let e' : Ends (drain combine n bounds e.after ((level, pos) ∷ seen) messages) =
        drain-Ends e.after ((level, pos) ∷ seen) messages e.sound ok.1 has_done some_leaf in
      followed-Ends _ _ _ e e' (rw (e.ends, drain) (rw (e'.ends, drain) refl))

  -- A worker that starts with no parked node and is given leaves and nodes of the tree with their
  -- values, in any order and with duplicates, and then `done`, returns, and every node that it sends
  -- has its value in the tree, a root that of the fold of the fixed tree over all leaves.
  pub run_peer_worker_sound :
      (address : ℕ) (local_items : List (ℕ × A)) (messages : List (Message A))
      → 0 < n
      → All IsLeaf local_items
      → All IsNode messages
      → HasDone messages
      → (r : PeerReducer A) × (outs : List (Out A)) × (run_peer_worker combine n bounds
            (new_peer address)
            local_items
            messages
          ≡ some (r, outs))
        × All Honest outs
  unfolding run_peer_worker
  run_peer_worker_sound address local_items messages some_leaf leaves nodes has_done =
      let start : Sound (new_peer address) = record { held = unfold new_peer in tt } in
      let e : Ends (settle_locals combine n bounds (new_peer address) local_items) =
        settle_locals-Ends (new_peer address) local_items start leaves some_leaf in
      let e' : Ends (drain combine n bounds e.after [] messages) =
        drain-Ends e.after [] messages e.sound nodes has_done some_leaf in
      let both : Ends (run_peer_worker combine n bounds (new_peer address) local_items messages) =
        followed-Ends _ _ _ e e'
          (rw (e.ends, run_peer_worker) (rw (e'.ends, run_peer_worker) refl)) in
      (both.after, both.outs, both.ends, both.true_outs)
