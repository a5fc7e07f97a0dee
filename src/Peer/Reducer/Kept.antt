-- ===== src/Peer/Reducer/Kept.antt =====
-- What a worker of local/_peer_tree.py settles is not lost: it is under a node that the worker holds
-- or sends.
pub mod Run
use native.Mathlib.Nat.{div-div-eq-div-mul, pow-suc}
use graphed_executors.Prelude.{
  ℕ, zero, suc, ◌+◌, ◌-◌, ◌*◌, ◌/◌, ◌%◌, ◌^◌, ◌<◌, ◌≤◌, ◌≡◌, ◌⊎◌, refl, sym, ap, ◌∙◌, List, [], ◌∷◌,
  ◌++◌, Option, none, some, Bool, true, false, leb, contains, ◌==◌, node_eq, node_beq, node_beq_iff,
  arith, Bool-cases, Option-cases, inl, inr,
}
use graphed_executors.Prelude.Dict.{get, put, pop, get-put, get-pop}
use graphed_executors.Reduce.Tree.{level_size}
use graphed_executors.Peer.Reducer.{
  PeerReducer, Out, item, root, node, Round, stop, up, round, meet_left, meet_right, owner, climb,
  settle_when, settle, settle_locals, Message, handed, done, ignored, receive, drain,
  run_peer_worker, new_peer, combined,
}

-- Leaf x is under the node.
abbrev pub IsUnder : ℕ → ℕ → ℕ → Type 0
IsUnder x level pos = x / 2 ^ level ≡ pos

IsUnder-suc : (x level pos : ℕ) → IsUnder x level pos → IsUnder x (suc level) (pos / 2)
IsUnder-suc x level pos under =
    ap (λ d. x / d) (pow-suc 2 level)
    ∙ sym (div-div-eq-div-mul x (2 ^ level) 2)
    ∙ ap (λ p. p / 2) under

module _ {A : Type 0} where
  abbrev pub IsHeld : PeerReducer A → ℕ → Type 0
  IsHeld r x =
      (level : ℕ) × (pos : ℕ) × (v : A) × (get r.present (level, pos) ≡ some v)
      × IsUnder x level pos

  -- A root is over every leaf.
  abbrev pub IsOver : ℕ → Out A → Type 0
  IsOver x (item level pos v) = IsUnder x level pos
  IsOver x (root v) = Unit
  IsOver x (node dest level pos v) = IsUnder x level pos

  abbrev pub IsSent : ℕ → List (Out A) → Type 0
  IsSent x [] = ⊥
  IsSent x (o ∷ outs) = IsOver x o ⊎ IsSent x outs

  -- Leaf x is under a node that is held or sent.
  abbrev pub IsKept : ℕ → PeerReducer A → List (Out A) → Type 0
  IsKept x r outs = IsHeld r x ⊎ IsSent x outs

  put-IsHeld :
      (r : PeerReducer A) (level pos : ℕ) (value : A) (x : ℕ)
      → IsHeld r x ⊎ IsUnder x level pos
      → IsHeld (record r { present = put r.present (level, pos) value }) x
  put-IsHeld r level pos value x (inr under) =
      let self : node_beq (level, pos) (level, pos) ≡ true =
        (node_beq_iff (level, pos) (level, pos)).1 refl in
      (level, pos, value, get-put r.present (level, pos) (level, pos) value ∙ rw self refl, under)
  put-IsHeld r level pos value x (inl (l, p, v, held, under)) =
      elim (Bool-cases (node_beq (level, pos) (l, p))) [
        | inl same ↦
            (l, p, value, get-put r.present (level, pos) (l, p) value ∙ rw same refl, under)
        | inr apart ↦ (l, p, v, get-put r.present (level, pos) (l, p) value ∙ rw apart held, under)
      ]

  pop-IsHeld :
      (r r' : PeerReducer A) (level sib x : ℕ)
      → r'.present ≡ pop r.present (level, sib)
      → IsHeld r x
      → IsHeld r' x ⊎ IsUnder x level sib
  pop-IsHeld r r' level sib x popped (l, p, v, held, under) =
      elim (Bool-cases (node_beq (level, sib) (l, p))) [
        | inl same ↦
            let eq : (level, sib) ≡ (l, p) = (node_beq_iff (level, sib) (l, p)).0 same in
            let eq_level : level ≡ l = ap (λ q. q.0) eq in
            let eq_sib : sib ≡ p = ap (λ q. q.1) eq in inr (rw eq_level (rw eq_sib under))
        | inr apart ↦
            let held' : get (pop r.present (level, sib)) (l, p) ≡ some v =
              get-pop r.present (level, sib) (l, p) ∙ rw apart held in
            inl (l, p, v, ap (λ d. get d (l, p)) popped ∙ held', under)
      ]

module _ {A : Type 0} (combine : A → A → A) (n : ℕ) (bounds : List ℕ) (x : ℕ) where
  -- What a round does with the leaves that are held or under its node.
  abbrev Follows : ℕ → ℕ → Round A → Type 0
  Follows level pos (stop r outs) = IsKept x r outs
  Follows level pos (up r value) = IsHeld r x ⊎ IsUnder x (suc level) (pos / 2)

  meet_right-Follows :
      (r : PeerReducer A) (level pos : ℕ) (value : A) (other : Option A)
      → pos % 2 ≡ 0
      → IsHeld r x ⊎ IsUnder x level pos
      → Follows level pos (meet_right combine n bounds r level pos value other)
  unfolding meet_right
  meet_right-Follows r level pos value none even at = inl (put-IsHeld r level pos value x at)
  meet_right-Follows r level pos value (some other) even (inr under) =
      inr (IsUnder-suc x level pos under)
  meet_right-Follows r level pos value (some other) even (inl held) =
      elim (pop-IsHeld r (combined combine n bounds r level (pos + 1)) level (pos + 1) x refl
        held) [
          | inl still ↦ inl still
          | inr under ↦
              let same : (pos + 1) / 2 ≡ pos / 2 = omega (arith, even) in
              inr (IsUnder-suc x level (pos + 1) under ∙ same)
        ]

  meet_left-Follows :
      (r : PeerReducer A) (level pos : ℕ) (value : A) (other : Option A)
      → pos % 2 ≡ 1
      → IsHeld r x ⊎ IsUnder x level pos
      → Follows level pos (meet_left combine n bounds r level pos value other)
  unfolding meet_left
  meet_left-Follows r level pos value none odd at = inl (put-IsHeld r level pos value x at)
  meet_left-Follows r level pos value (some other) odd (inr under) =
      inr (IsUnder-suc x level pos under)
  meet_left-Follows r level pos value (some other) odd (inl held) =
      elim (pop-IsHeld r (combined combine n bounds r level (pos - 1)) level (pos - 1) x refl
        held) [
          | inl still ↦ inl still
          | inr under ↦
              let same : (pos - 1) / 2 ≡ pos / 2 = omega (arith, odd) in
              inr (IsUnder-suc x level (pos - 1) under ∙ same)
        ]

  carried :
      (r : PeerReducer A) (level pos : ℕ)
      → IsHeld r x ⊎ IsUnder x level pos
      → IsHeld r x ⊎ IsUnder x (suc level) (pos / 2)
  carried r level pos (inl held) = inl held
  carried r level pos (inr under) = inr (IsUnder-suc x level pos under)

  -- What is sent in full.
  sent_off :
      (r : PeerReducer A) (level pos : ℕ) (value : A) (o : Out A)
      → (IsUnder x level pos → IsOver x o)
      → IsHeld r x ⊎ IsUnder x level pos
      → IsHeld r x ⊎ IsSent x (o ∷ [])
  sent_off r level pos value o over (inl held) = inl held
  sent_off r level pos value o over (inr under) = inr (inl (over under))

  round-Follows :
      (r : PeerReducer A) (level pos : ℕ) (value : A)
      → IsHeld r x ⊎ IsUnder x level pos
      → Follows level pos (round combine n bounds r level pos value)
  unfolding round
  round-Follows r level pos value at = elim (Bool-cases (level_size n level == 1)) [
    | inl one ↦ rw (one, round) (sent_off r level pos value (root value) (λ under. tt) at)
    | inr more ↦
        rw (more, round)
          (elim (Bool-cases (pos % 2 == 0)) [
            | inl even ↦
                rw (even, round)
                  (elim (Bool-cases (leb (level_size n level) (pos + 1))) [
                    | inl last ↦ rw (last, round) (carried r level pos at)
                    | inr pair ↦
                        rw (pair, round)
                          (meet_right-Follows r level pos value (get r.present (level, pos + 1))
                            (ground arith) at)
                  ])
            | inr odd ↦
                rw (odd, round)
                  (elim (Bool-cases (owner bounds level (pos - 1) == r.address)) [
                    | inl mine ↦
                        rw (mine, round)
                          (meet_left-Follows r level pos value (get r.present (level, pos - 1))
                            (ground arith) at)
                    | inr theirs ↦
                        rw (theirs, round)
                          (sent_off r level pos value
                            (node (owner bounds level (pos - 1)) level pos value) (λ under. under)
                            at)
                  ])
          ])
  ]

  -- A run that returns keeps the leaf.
  abbrev pub Keeps : Option (PeerReducer A × List (Out A)) → Type 0
  Keeps none = Unit
  Keeps (some (r, outs)) = IsKept x r outs

  climb-Keeps :
      (fuel : ℕ) (r : PeerReducer A) (level pos : ℕ) (value : A)
      → IsHeld r x ⊎ IsUnder x level pos
      → Keeps (climb combine n bounds fuel r level pos value)
  unfolding climb
  climb-Keeps zero r level pos value at = tt
  climb-Keeps (suc fuel) r level pos value at =
      after (round combine n bounds r level pos value) (round-Follows r level pos value at)
        (λ r' value' at'. climb-Keeps fuel r' (suc level) (pos / 2) value' at')
    where
      after :
          (ran : Round A)
          → Follows level pos ran
          → ((r' : PeerReducer A) (value' : A)
              → IsHeld r' x ⊎ IsUnder x (suc level) (pos / 2)
              → Keeps (climb combine n bounds fuel r' (suc level) (pos / 2) value'))
          → Keeps (elim ran [
            | stop r' outs ↦ some (r', outs)
            | up r' value' ↦ climb combine n bounds fuel r' (suc level) (pos / 2) value'
          ])
      after (stop r' outs) kept on = kept
      after (up r' value') at' on = on r' value' at'

  pub settle-Keeps :
      (r : PeerReducer A) (level pos : ℕ) (value : A)
      → IsHeld r x ⊎ IsUnder x level pos
      → Keeps (settle combine n bounds r level pos value)
  unfolding settle settle_when
  settle-Keeps r level pos value at = by_forward r.forward
    where
      by_forward : (f : Bool) → Keeps (settle_when combine n bounds f r level pos value)
      by_forward true = sent_off r level pos value (item level pos value) (λ under. under) at
      by_forward false = climb-Keeps (suc n) r level pos value at
