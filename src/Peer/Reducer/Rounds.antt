-- ===== src/Peer/Reducer/Rounds.antt =====
-- One round of PeerReducer.settle in local/_peer_tree.py: what the worker holds and sends.
use graphed_executors.Prelude.{
  ℕ, zero, suc, ◌+◌, ◌-◌, ◌*◌, ◌/◌, ◌%◌, ◌<◌, ◌≤◌, ◌≡◌, ◌⊎◌, refl, sym, ap, ap₂, ◌∙◌, List, [], ◌∷◌,
  Option, none, some, map, true, false, ltb, leb, ◌==◌, node_eq, arith, All, Bool-cases, inl, inr,
  range_from,
}
use graphed_executors.Prelude.Dict.{get, put, pop, All-get, All-put, All-pop}
use graphed_executors.Reduce.Tree.{level_size, node_value, level_size_one_above}
use graphed_executors.Reduce.Fold.{tree_fold, tree_fold-eq-node_value}
use graphed_executors.Peer.Reducer.{
  PeerReducer, Out, item, root, node, Round, stop, up, round, meet_left, meet_right, owner,
}

module _ {A : Type 0} (combine : A → A → A) (n : ℕ) (leaf : ℕ → A) (empty : A)
    (bounds : List ℕ) where
  abbrev value_at : ℕ → ℕ → A
  value_at = node_value combine n leaf

  -- A node of the tree with its value.
  abbrev pub IsValue : ℕ → ℕ → A → Type 0
  IsValue level pos v = (level ≤ n) × (pos < level_size n level) × (v ≡ value_at level pos)

  -- Every parked node has its value in the tree.
  pub record IsSound (r : PeerReducer A) : Type 0 where
    pub held : All (λ p. IsValue p.0.0 p.0.1 p.1) r.present

  held_at :
      (r : PeerReducer A) (level pos : ℕ) {v : A}
      → IsSound r
      → get r.present (level, pos) ≡ some v
      → v ≡ value_at level pos
  held_at r level pos {v} s found =
      (All-get (λ p. IsValue p.0.0 p.0.1 p.1) r.present (level, pos) v s.held found).2

  -- So has every message; a root is that of the whole tree.
  abbrev pub IsTrue : Out A → Type 0
  IsTrue (item level pos v) = IsValue level pos v
  IsTrue (root v) = v ≡ tree_fold combine empty (map leaf (range_from 0 n))
  IsTrue (node dest level pos v) = IsValue level pos v

  join_pair :
      (level pos : ℕ)
      → pos % 2 ≡ 0
      → pos + 1 < level_size n level
      → value_at (suc level) (pos / 2) ≡ combine (value_at level pos) (value_at level (pos + 1))
  unfolding node_value
  join_pair level pos even inside =
      let e : 2 * (pos / 2) ≡ pos = omega arith in
      let t : ltb (pos + 1) (level_size n level) ≡ true = ground arith in rw e (rw t refl)

  carry_up :
      (level pos : ℕ)
      → pos % 2 ≡ 0
      → level_size n level ≤ pos + 1
      → value_at (suc level) (pos / 2) ≡ value_at level pos
  unfolding node_value
  carry_up level pos even last =
      let e : 2 * (pos / 2) ≡ pos = omega arith in
      let t : ltb (pos + 1) (level_size n level) ≡ false = ground arith in rw e (rw t refl)

  join_odd :
      (level pos : ℕ)
      → pos % 2 ≡ 1
      → pos < level_size n level
      → value_at (suc level) (pos / 2) ≡ combine (value_at level (pos - 1)) (value_at level pos)
  unfolding node_value
  join_odd level pos odd inside =
      let e : 2 * (pos / 2) ≡ pos - 1 = omega arith in
      let e' : pos - 1 + 1 ≡ pos = omega arith in
      let t : ltb pos (level_size n level) ≡ true = ground arith in rw e (rw e' (rw t refl))

  -- Above the root the one node is carried up.
  root_same : (k level : ℕ) → level_size n level ≡ 1 → value_at (level + k) 0 ≡ value_at level 0
  root_same zero level one = let e : level + 0 ≡ level = omega arith in rw e refl
  root_same (suc k) level one =
      let e : level + suc k ≡ suc (level + k) = omega arith in
      let top : level_size n (level + k) ≡ 1 =
        level_size_one_above n level (level + k) one (omega arith) in
      rw e (carry_up (level + k) 0 (omega arith) (omega (arith, top)) ∙ root_same k level one)

  parked-IsSound :
      (r : PeerReducer A) (level pos : ℕ) (value : A)
      → IsSound r
      → IsValue level pos value
      → IsSound (record r { present = put r.present (level, pos) value })
  parked-IsSound r level pos value s right = record {
    held = All-put (λ p. IsValue p.0.0 p.0.1 p.1) r.present (level, pos) value s.held right;
  }

  popped-IsSound :
      (r : PeerReducer A) (level sib : ℕ)
      → IsSound r
      → IsSound (record r { present = pop r.present (level, sib); n_combines = r.n_combines + 1 })
  popped-IsSound r level sib s = record {
    held = All-pop (λ p. IsValue p.0.0 p.0.1 p.1) r.present (level, sib) s.held;
  }

  -- How a round ends, soundly.
  pub record Stops (level pos : ℕ) (run : Round A) : Type 0 where
    pub after : PeerReducer A
    pub outs : List (Out A)
    pub ends : run ≡ stop after outs
    pub sound : IsSound after
    pub true_outs : All IsTrue outs

  pub record Goes (level pos : ℕ) (run : Round A) : Type 0 where
    pub after : PeerReducer A
    pub value : A
    pub goes : run ≡ up after value
    pub sound : IsSound after
    pub right : value ≡ value_at (suc level) (pos / 2)

  meet_right-Sound :
      (r : PeerReducer A) (level pos : ℕ) (value : A) (other : Option A)
      → IsSound r
      → get r.present (level, pos + 1) ≡ other
      → IsValue level pos value
      → pos % 2 ≡ 0
      → pos + 1 < level_size n level
      → Stops level pos (meet_right combine n bounds r level pos value other)
        ⊎ Goes level pos (meet_right combine n bounds r level pos value other)
  unfolding meet_right
  meet_right-Sound r level pos value none s found right even inside = inl (record {
    after = record r { present = put r.present (level, pos) value };
    outs = [];
    ends = refl;
    sound = parked-IsSound r level pos value s right;
    true_outs = tt;
  })
  meet_right-Sound r level pos value (some other) s found right even inside = inr (record {
    after = record r { present = pop r.present (level, pos + 1); n_combines = r.n_combines + 1 };
    value = combine value other;
    goes = refl;
    sound = popped-IsSound r level (pos + 1) s;
    right =
        ap₂ combine right.2 (held_at r level (pos + 1) s found)
        ∙ sym (join_pair level pos even inside);
  })

  meet_left-Sound :
      (r : PeerReducer A) (level pos : ℕ) (value : A) (other : Option A)
      → IsSound r
      → get r.present (level, pos - 1) ≡ other
      → IsValue level pos value
      → pos % 2 ≡ 1
      → pos < level_size n level
      → Stops level pos (meet_left combine n bounds r level pos value other)
        ⊎ Goes level pos (meet_left combine n bounds r level pos value other)
  unfolding meet_left
  meet_left-Sound r level pos value none s found right odd inside = inl (record {
    after = record r { present = put r.present (level, pos) value };
    outs = [];
    ends = refl;
    sound = parked-IsSound r level pos value s right;
    true_outs = tt;
  })
  meet_left-Sound r level pos value (some other) s found right odd inside = inr (record {
    after = record r { present = pop r.present (level, pos - 1); n_combines = r.n_combines + 1 };
    value = combine other value;
    goes = refl;
    sound = popped-IsSound r level (pos - 1) s;
    right =
        ap₂ combine (held_at r level (pos - 1) s found) right.2
        ∙ sym (join_odd level pos odd inside);
  })

  root_value :
      (level pos : ℕ)
      → 0 < n
      → level_size n level ≡ 1
      → pos < level_size n level
      → level ≤ n
      → value_at level pos ≡ value_at n 0
  root_value level pos some_leaf one inside low =
      let e : pos ≡ 0 = omega (arith, one) in
      let e' : level + (n - level) ≡ n = omega arith in
      rw e (sym (root_same (n - level) level one) ∙ ap (λ l. value_at l 0) e')

  or_more :
      (level pos : ℕ) {run : Round A}
      → 1 < level_size n level
      → Stops level pos run ⊎ Goes level pos run
      → Stops level pos run ⊎ (Goes level pos run × (1 < level_size n level))
  or_more level pos more (inl st) = inl st
  or_more level pos more (inr go) = inr (go, more)

  pub round-Sound :
      (r : PeerReducer A) (level pos : ℕ) (value : A)
      → IsSound r
      → IsValue level pos value
      → 0 < n
      → Stops level pos (round combine n bounds r level pos value)
        ⊎ (Goes level pos (round combine n bounds r level pos value) × (1 < level_size n level))
  unfolding round
  round-Sound r level pos value s (low, inside, right) some_leaf =
      elim (Bool-cases (level_size n level == 1)) [
        | inl one ↦
            rw (one, round)
              (inl (record {
                after = record r { final = some value };
                outs = root value ∷ [];
                ends = refl;
                sound = record { held = s.held };
                true_outs = (
                  right
                      ∙ root_value level pos some_leaf (ground arith) inside low
                      ∙ sym (tree_fold-eq-node_value combine n leaf empty some_leaf),
                  tt,
                );
              }))
        | inr more ↦
            rw (more, round)
              (elim (Bool-cases (pos % 2 == 0)) [
                | inl even ↦
                    rw (even, round)
                      (elim (Bool-cases (leb (level_size n level) (pos + 1))) [
                        | inl last ↦
                            rw (last, round)
                              (inr (
                                record {
                                  after = r;
                                  value = value;
                                  goes = refl;
                                  sound = s;
                                  right =
                                      right
                                      ∙ sym (carry_up level pos (ground arith) (ground arith));
                                },
                                ground arith,
                              ))
                        | inr pair ↦
                            rw (pair, round)
                              (or_more level pos (ground arith) (
                                meet_right-Sound r level pos value (get r.present (level, pos + 1))
                                  s refl (low, inside, right) (ground arith) (ground arith)))
                      ])
                | inr odd ↦
                    rw (odd, round)
                      (elim (Bool-cases (owner bounds level (pos - 1) == r.address)) [
                        | inl mine ↦
                            rw (mine, round)
                              (or_more level pos (ground arith) (
                                meet_left-Sound r level pos value (get r.present (level, pos - 1)) s
                                  refl (low, inside, right) (ground arith) inside))
                        | inr theirs ↦
                            rw (theirs, round)
                              (inl (record {
                                after = record r { peer_sends = r.peer_sends + 1 };
                                outs = node (owner bounds level (pos - 1)) level pos value ∷ [];
                                ends = refl;
                                sound = record { held = s.held };
                                true_outs = ((low, inside, right), tt);
                              }))
                      ])
              ])
      ]
