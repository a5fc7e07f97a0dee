-- ===== src/Peer/Reducer/Kept/Run.antt =====
-- The run of one worker of local/_peer_tree.py: it returns, and every leaf that it is given is under
-- a node that it holds or has sent.
use graphed_executors.Prelude.{
  ℕ, ◌+◌, ◌<◌, ◌≡◌, ◌⊎◌, sym, ap, List, [], ◌∷◌, ◌++◌, Option, none, some, true, contains, node_eq,
  node_beq, node_beq_iff, arith, Bool-cases, inl, inr, All, Option-cases,
}
use graphed_executors.Peer.Reducer.{
  PeerReducer, Out, settle, settle_locals, Message, handed, done, ignored, receive, drain,
  run_peer_worker, new_peer,
}
use graphed_executors.Peer.Reducer.Safe.{IsLeaf, IsNode, HasDone, run_peer_worker_sound}
use graphed_executors.Peer.Reducer.Rounds.{IsTrue}
use graphed_executors.Peer.Reducer.Kept.{IsUnder, IsHeld, IsSent, IsKept, Keeps, settle-Keeps}

module _ {A : Type 0} (combine : A → A → A) (n : ℕ) (bounds : List ℕ) (x : ℕ) where
  -- Leaf x is among the local ones.
  abbrev pub IsLocal : List (ℕ × A) → Type 0
  IsLocal [] = ⊥
  IsLocal ((leaf, partial) ∷ items) = (leaf ≡ x) ⊎ IsLocal items

  -- Leaf x is under a node that is handed before `done`.
  abbrev pub IsHanded : List (Message A) → Type 0
  IsHanded [] = ⊥
  IsHanded (done ∷ messages) = ⊥
  IsHanded (ignored ∷ messages) = IsHanded messages
  IsHanded (handed level pos v ∷ messages) = IsUnder x level pos ⊎ IsHanded messages

  IsSent-left : (outs rest : List (Out A)) → IsSent x outs → IsSent x (outs ++ rest)
  IsSent-left [] rest h = absurd h
  IsSent-left (o ∷ outs) rest (inl over) = inl over
  IsSent-left (o ∷ outs) rest (inr later) = inr (IsSent-left outs rest later)

  IsSent-right : (outs rest : List (Out A)) → IsSent x rest → IsSent x (outs ++ rest)
  IsSent-right [] rest h = h
  IsSent-right (o ∷ outs) rest h = inr (IsSent-right outs rest h)

  IsKept-right :
      (r : PeerReducer A) (outs rest : List (Out A)) → IsKept x r rest → IsKept x r (outs ++ rest)
  IsKept-right r outs rest (inl held) = inl held
  IsKept-right r outs rest (inr sent) = inr (IsSent-right outs rest sent)

  settled_locals :
      (items : List (ℕ × A)) (r r' : PeerReducer A) (outs : List (Out A))
      → settle_locals combine n bounds r items ≡ some (r', outs)
      → IsHeld r x ⊎ IsLocal items
      → IsKept x r' outs
  unfolding settle_locals
  settled_locals [] r r' outs ran (inl held) = let same : r ≡ r' = cc in inl (rw same at held)
  settled_locals [] r r' outs ran (inr given) = absurd given
  settled_locals ((leaf, partial) ∷ items) r r' outs ran at =
      first (settle combine n bounds r 0 leaf partial)
        (settle-Keeps combine n bounds x r 0 leaf partial) ran at
        (λ r1 rest run1 at1. settled_locals items r1 r' rest run1 at1)
    where
      under_leaf : leaf ≡ x → IsUnder x 0 leaf
      under_leaf same = omega (arith, same)

      last :
          (r1 : PeerReducer A) (outs1 : List (Out A)) (more : Option (PeerReducer A × List (Out A)))
          → IsKept x r1 outs1 ⊎ IsLocal items
          → ((rest : List (Out A))
              → more ≡ some (r', rest)
              → IsHeld r1 x ⊎ IsLocal items
              → IsKept x r' rest)
          → ◌≡◌ {A = Option (PeerReducer A × List (Out A))}
              (elim more [ none ↦ none | some (r'', rest) ↦ some (r'', outs1 ++ rest) ])
              (some (r', outs))
          → IsKept x r' outs
      last r1 outs1 none at on ran = cc
      last r1 outs1 (some (r'', rest)) at on ran =
          let same_r : r'' ≡ r' = cc in
          let same_outs : outs1 ++ rest ≡ outs = cc in
          let on' : IsHeld r1 x ⊎ IsLocal items → IsKept x r' rest =
            on rest (ap (λ q. some (q, rest)) same_r) in
          rw (sym same_outs) (elim at [
            | inl (inl held) ↦ IsKept-right r' outs1 rest (on' (inl held))
            | inl (inr sent) ↦ inr (IsSent-left outs1 rest sent)
            | inr given ↦ IsKept-right r' outs1 rest (on' (inr given))
          ])

      first :
          (ran1 : Option (PeerReducer A × List (Out A)))
          → (IsHeld r x ⊎ IsUnder x 0 leaf → Keeps combine n bounds x ran1)
          → ◌≡◌ {A = Option (PeerReducer A × List (Out A))}
              (elim ran1 [
                | none ↦ none
                | some (r1, outs1) ↦ elim (settle_locals combine n bounds r1 items) [
                  | none ↦ none
                  | some (r'', rest) ↦ some (r'', outs1 ++ rest)
                ]
              ])
              (some (r', outs))
          → IsHeld r x ⊎ ((leaf ≡ x) ⊎ IsLocal items)
          → ((r1 : PeerReducer A) (rest : List (Out A))
              → settle_locals combine n bounds r1 items ≡ some (r', rest)
              → IsHeld r1 x ⊎ IsLocal items
              → IsKept x r' rest)
          → IsKept x r' outs
      first none keeps ran at on = cc
      first (some (r1, outs1)) keeps ran (inl held) on =
          last r1 outs1 (settle_locals combine n bounds r1 items) (inl (keeps (inl held)))
            (λ rest. on r1 rest) ran
      first (some (r1, outs1)) keeps ran (inr (inl same)) on =
          last r1 outs1 (settle_locals combine n bounds r1 items)
            (inl (keeps (inr (under_leaf same)))) (λ rest. on r1 rest) ran
      first (some (r1, outs1)) keeps ran (inr (inr given)) on =
          last r1 outs1 (settle_locals combine n bounds r1 items) (inr given) (λ rest. on r1 rest)
            ran

  -- What a received node's worker keeps; a duplicate's leaves were kept before.
  abbrev Receives :
      List (ℕ × ℕ) → PeerReducer A → ℕ → ℕ → Option (PeerReducer A × List (Out A)) → Type 0
  Receives seen r level pos none = Unit
  Receives seen r level pos (some (r', outs)) =
      (IsHeld r x → IsKept x r' outs)
      × (IsUnder x level pos → (contains seen (level, pos) ≡ true) ⊎ IsKept x r' outs)

  receive-Receives :
      (r : PeerReducer A) (seen : List (ℕ × ℕ)) (level pos : ℕ) (value : A)
      → Receives seen r level pos (receive combine n bounds r seen level pos value)
  unfolding receive
  receive-Receives r seen level pos value = elim (Bool-cases (contains seen (level, pos))) [
    | inl again ↦ rw (again, receive) ((λ held. inl held), (λ under. inl again))
    | inr new ↦
        rw (new, receive)
          (settled (settle combine n bounds counted level pos value)
            (settle-Keeps combine n bounds x counted level pos value))
  ]
    where
      counted : PeerReducer A
      counted = record r { peer_recvs = r.peer_recvs + 1 }

      settled :
          (ran : Option (PeerReducer A × List (Out A)))
          → (IsHeld r x ⊎ IsUnder x level pos → Keeps combine n bounds x ran)
          → Receives seen r level pos ran
      settled none keeps = tt
      settled (some (r', outs)) keeps =
          ((λ held. keeps (inl held)), (λ under. inr (keeps (inr under))))

  -- P says that leaf x was sent before.
  drained :
      (P : Type 0) (messages : List (Message A)) (seen : List (ℕ × ℕ)) (r r' : PeerReducer A)
      (outs : List (Out A))
      → ((l p : ℕ) → contains seen (l, p) ≡ true → IsUnder x l p → P ⊎ IsHeld r x)
      → drain combine n bounds r seen messages ≡ some (r', outs)
      → (P ⊎ IsHeld r x) ⊎ IsHanded messages
      → P ⊎ IsKept x r' outs
  unfolding drain
  drained P [] seen r r' outs old ran at = cc
  drained P (done ∷ messages) seen r r' outs old ran (inl (inl sent)) = inl sent
  drained P (done ∷ messages) seen r r' outs old ran (inl (inr held)) =
      let same : r ≡ r' = cc in inr (inl (rw same at held))
  drained P (done ∷ messages) seen r r' outs old ran (inr given) = absurd given
  drained P (ignored ∷ messages) seen r r' outs old ran at =
      drained P messages seen r r' outs old ran at
  drained P (handed level pos value ∷ messages) seen r r' outs old ran at =
      first (receive combine n bounds r seen level pos value)
        (receive-Receives r seen level pos value) ran
        (λ r1 o rest. drained (P ⊎ IsSent x o) messages ((level, pos) ∷ seen) r1 r' rest)
    where
      filed :
          (r1 : PeerReducer A) (o : List (Out A)) → IsKept x r1 o → (P ⊎ IsSent x o) ⊎ IsHeld r1 x
      filed r1 o (inl held) = inr held
      filed r1 o (inr sent) = inl (inr sent)

      moved :
          (r1 : PeerReducer A) (o : List (Out A))
          → (IsHeld r x → IsKept x r1 o)
          → P ⊎ IsHeld r x
          → (P ⊎ IsSent x o) ⊎ IsHeld r1 x
      moved r1 o on (inl sent) = inl (inl sent)
      moved r1 o on (inr held) = filed r1 o (on held)

      under_node :
          (r1 : PeerReducer A) (o : List (Out A))
          → Receives seen r level pos (some (r1, o))
          → IsUnder x level pos
          → (P ⊎ IsSent x o) ⊎ IsHeld r1 x
      under_node r1 o (on, new) under = elim (new under) [
        | inl again ↦ moved r1 o on (old level pos again under)
        | inr kept ↦ filed r1 o kept
      ]

      old_or_new :
          (r1 : PeerReducer A) (o : List (Out A))
          → Receives seen r level pos (some (r1, o))
          → (l p : ℕ) → contains ((level, pos) ∷ seen) (l, p) ≡ true
          → IsUnder x l p
          → (P ⊎ IsSent x o) ⊎ IsHeld r1 x
      old_or_new r1 o received l p there under = elim (Bool-cases (node_beq (level, pos) (l, p))) [
        | inl same ↦
            let eq : (level, pos) ≡ (l, p) = (node_beq_iff (level, pos) (l, p)).0 same in
            let eq_level : level ≡ l = ap (λ q. q.0) eq in
            let eq_pos : pos ≡ p = ap (λ q. q.1) eq in
            under_node r1 o received (rw eq_level (rw eq_pos under))
        | inr apart ↦ moved r1 o received.0 (old l p (rw apart at there) under)
      ]

      ahead :
          (r1 : PeerReducer A) (o : List (Out A))
          → Receives seen r level pos (some (r1, o))
          → (P ⊎ IsHeld r x) ⊎ (IsUnder x level pos ⊎ IsHanded messages)
          → ((P ⊎ IsSent x o) ⊎ IsHeld r1 x) ⊎ IsHanded messages
      ahead r1 o received (inl before) = inl (moved r1 o received.0 before)
      ahead r1 o received (inr (inl under)) = inl (under_node r1 o received under)
      ahead r1 o received (inr (inr later)) = inr later

      ended :
          (o rest : List (Out A))
          → (P ⊎ IsSent x o) ⊎ IsKept x r' rest
          → P ⊎ IsKept x r' (o ++ rest)
      ended o rest (inl (inl sent)) = inl sent
      ended o rest (inl (inr sent)) = inr (inr (IsSent-left o rest sent))
      ended o rest (inr kept) = inr (IsKept-right r' o rest kept)

      last :
          (r1 : PeerReducer A) (o : List (Out A)) (more : Option (PeerReducer A × List (Out A)))
          → ((rest : List (Out A)) → more ≡ some (r', rest) → (P ⊎ IsSent x o) ⊎ IsKept x r' rest)
          → ◌≡◌ {A = Option (PeerReducer A × List (Out A))}
              (elim more [ none ↦ none | some (r'', rest) ↦ some (r'', o ++ rest) ])
              (some (r', outs))
          → P ⊎ IsKept x r' outs
      last r1 o none on ran = cc
      last r1 o (some (r'', rest)) on ran =
          let same_r : r'' ≡ r' = cc in
          let same_outs : o ++ rest ≡ outs = cc in
          rw (sym same_outs) (ended o rest (on rest (ap (λ q. some (q, rest)) same_r)))

      first :
          (ran1 : Option (PeerReducer A × List (Out A)))
          → Receives seen r level pos ran1
          → ◌≡◌ {A = Option (PeerReducer A × List (Out A))}
              (elim ran1 [
                | none ↦ none
                | some (r1, o) ↦ elim (drain combine n bounds r1 ((level, pos) ∷ seen) messages) [
                  | none ↦ none
                  | some (r'', rest) ↦ some (r'', o ++ rest)
                ]
              ])
              (some (r', outs))
          → ((r1 : PeerReducer A) (o rest : List (Out A))
              → ((l p : ℕ)
                  → contains ((level, pos) ∷ seen) (l, p) ≡ true
                  → IsUnder x l p
                  → (P ⊎ IsSent x o) ⊎ IsHeld r1 x)
              → drain combine n bounds r1 ((level, pos) ∷ seen) messages ≡ some (r', rest)
              → ((P ⊎ IsSent x o) ⊎ IsHeld r1 x) ⊎ IsHanded messages
              → (P ⊎ IsSent x o) ⊎ IsKept x r' rest)
          → P ⊎ IsKept x r' outs
      first none received ran on = cc
      first (some (r1, o)) received ran on =
          last r1 o (drain combine n bounds r1 ((level, pos) ∷ seen) messages)
            (λ rest ran'. on r1 o rest (old_or_new r1 o received) ran' (ahead r1 o received at)) ran

  started :
      (r r1 : PeerReducer A) (items : List (ℕ × A)) (messages : List (Message A)) (o : List (Out A))
      → settle_locals combine n bounds r items ≡ some (r1, o)
      → IsLocal items ⊎ IsHanded messages
      → (IsSent x o ⊎ IsHeld r1 x) ⊎ IsHanded messages
  started r r1 items messages o locals (inr later) = inr later
  started r r1 items messages o locals (inl here) =
      elim (settled_locals items r r1 o locals (inr here)) [
        | inl held ↦ inl (inr held)
        | inr sent ↦ inl (inl sent)
      ]

  run_peer_worker-IsKept :
      (r r' : PeerReducer A) (items : List (ℕ × A)) (messages : List (Message A))
      (outs : List (Out A))
      → run_peer_worker combine n bounds r items messages ≡ some (r', outs)
      → IsLocal items ⊎ IsHanded messages
      → IsKept x r' outs
  unfolding run_peer_worker
  run_peer_worker-IsKept r r' items messages outs ran given =
      elim (Option-cases (settle_locals combine n bounds r items)) [
        | inl gone ↦
            let ran' : ◌≡◌ {A = Option (PeerReducer A × List (Out A))} none (some (r', outs)) =
              rw (gone, run_peer_worker) at ran in
            absurd (cc)
        | inr ((r1, o), locals) ↦ elim (Option-cases (drain combine n bounds r1 [] messages)) [
          | inl gone ↦
              let ran' : ◌≡◌ {A = Option (PeerReducer A × List (Out A))} none (some (r', outs)) =
                rw (locals, run_peer_worker, gone) at ran in
              absurd (cc)
          | inr ((r2, rest), drain_ran) ↦
              let ran' : some (r2, o ++ rest) ≡ some (r', outs) =
                rw (locals, run_peer_worker, drain_ran) at ran in
              let same_r : r2 ≡ r' = cc in
              let same_outs : o ++ rest ≡ outs = cc in
              let start : (IsSent x o ⊎ IsHeld r1 x) ⊎ IsHanded messages =
                started r r1 items messages o locals given in
              let kept : IsSent x o ⊎ IsKept x r2 rest =
                drained (IsSent x o) messages [] r1 r2 rest (λ l p there. cc) drain_ran start in
              rw (sym same_r) (
                rw (sym same_outs) (elim kept [
                  | inl sent ↦ inr (IsSent-left o rest sent)
                  | inr later ↦ IsKept-right r2 o rest later
                ]))
        ]
      ]

-- A worker that starts with no parked node and is given leaves and nodes of the tree with their values,
-- in any order and with duplicates, and then `done`, returns. Every node that it sends has its value
-- in the tree, a root that of the fold of the fixed tree over all leaves, and none is lost: each leaf
-- that was local, or under a node handed before `done`, is under a node that it holds or has sent.
pub run_peer_worker_keeps :
    {A : Type 0} (combine : A → A → A) (n : ℕ) (leaf : ℕ → A) (empty : A) (bounds : List ℕ)
    (address : ℕ) (local_items : List (ℕ × A)) (messages : List (Message A)) (x : ℕ)
    → 0 < n
    → All (IsLeaf combine n leaf empty bounds) local_items
    → All (IsNode combine n leaf empty bounds) messages
    → HasDone combine n leaf empty bounds messages
    → IsLocal combine n bounds x local_items ⊎ IsHanded combine n bounds x messages
    → (r : PeerReducer A) × (outs : List (Out A)) × (run_peer_worker combine n bounds
          (new_peer address)
          local_items
          messages
        ≡ some (r, outs))
      × All (IsTrue combine n leaf empty bounds) outs
      × IsKept x r outs
run_peer_worker_keeps combine n leaf empty bounds address items messages x some_leaf leaves nodes
      has_done given =
    let (r, outs, ran, honest) =
      run_peer_worker_sound combine n leaf empty bounds address items messages some_leaf leaves
        nodes has_done in
    (
      r,
      outs,
      ran,
      honest,
      run_peer_worker-IsKept combine n bounds x (new_peer address) r items messages outs ran given,
    )
