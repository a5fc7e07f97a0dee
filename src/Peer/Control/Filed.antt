-- ===== src/Peer/Control/Filed.antt =====
-- What PeerControl.take of local/_peer_tree.py has filed: each node once.
use graphed_executors.Prelude.{
  ℕ, ◌+◌, ◌≡◌, refl, sym, ap, ◌∙◌, List, [], ◌∷◌, Option, none, some, true, nat_eq, node_eq, arith,
  Bool-cases, inl, inr, Eq,
}
use graphed_executors.Prelude.Dict.{Dict, get, put, get-put, Unique}
use graphed_executors.Peer.Control.{
  HandIn, cancelled_with, item_of, other_payload, PeerControl, size_of, add_when, add, add_parked,
  file_payload,
}

module _ {K V : Type 0} ⦃e : Eq K⦄ where
  put-put : (d : Dict K V) (k : K) (v : V) → put (put d k v) k v ≡ put d k v
  unfolding put
  put-put [] k v = let self : e.beq k k ≡ true = (e.beq_iff k k).1 refl in rw self refl
  put-put ((j, w) ∷ d) k v =
      let self : e.beq k k ≡ true = (e.beq_iff k k).1 refl in
      elim (Bool-cases (e.beq j k)) [
        | inl same ↦ rw same (rw self refl)
        | inr differ ↦ rw differ (rw differ (ap (λ l. (j, w) ∷ l) (put-put d k v)))
      ]

module _ {A : Type 0} where
  -- The leaves that the nodes of a dict cover.
  abbrev pub leaves_of : ℕ → Dict (ℕ × ℕ) A → ℕ
  leaves_of n [] = 0
  leaves_of n (((level, pos), value) ∷ d) = size_of n level pos + leaves_of n d

  record IsFiled (n : ℕ) (c : PeerControl A) : Type 0 where
    same : c.n ≡ n
    unique : Unique c.items
    covers : c.covered ≡ leaves_of n c.items

  -- A node that is in hand stays in hand.
  abbrev IsHeld : PeerControl A → ℕ → ℕ → Type 0
  IsHeld c level pos = (v : A) × (get c.items (level, pos) ≡ some v)

  add-IsHeld :
      (c : PeerControl A) (level pos : ℕ) (value : A) (o : Option A) (l p : ℕ)
      → get c.items (level, pos) ≡ o
      → IsHeld c l p
      → IsHeld (add_when o c level pos value) l p
  unfolding add_when
  add-IsHeld c level pos value (some old) l p found h = h
  add-IsHeld c level pos value none l p found (v, h) =
      (v, ground (arith, get-put c.items (level, pos) (l, p) value, found, h))

  added-IsHeld :
      (c : PeerControl A) (level pos : ℕ) (value : A) (o : Option A)
      → get c.items (level, pos) ≡ o
      → IsHeld (add_when o c level pos value) level pos
  unfolding add_when
  added-IsHeld c level pos value (some old) found = (old, found)
  added-IsHeld c level pos value none found =
      (value, ground (arith, get-put c.items (level, pos) (level, pos) value))

  add_parked-IsHeld :
      (c : PeerControl A) (parked : List (ℕ × ℕ × A)) (l p : ℕ)
      → IsHeld c l p
      → IsHeld (add_parked c parked) l p
  unfolding add_parked add
  add_parked-IsHeld c [] l p h = h
  add_parked-IsHeld c ((level, pos, value) ∷ parked) l p h =
      add_parked-IsHeld (add c level pos value) parked l p
        (add-IsHeld c level pos value _ l p refl h)

  abbrev AllHeld : PeerControl A → List (ℕ × ℕ × A) → Type 0
  AllHeld c [] = Unit
  AllHeld c ((level, pos, value) ∷ parked) = IsHeld c level pos × AllHeld c parked

  add_parked-AllHeld :
      (c : PeerControl A) (parked : List (ℕ × ℕ × A)) → AllHeld (add_parked c parked) parked
  unfolding add_parked add
  add_parked-AllHeld c [] = tt
  add_parked-AllHeld c ((level, pos, value) ∷ parked) = (
    add_parked-IsHeld (add c level pos value) parked level pos
        (added-IsHeld c level pos value _ refl),
    add_parked-AllHeld (add c level pos value) parked,
  )

  -- Nodes in hand are not filed again.
  add_parked_held :
      (c : PeerControl A) (parked : List (ℕ × ℕ × A)) → AllHeld c parked → add_parked c parked ≡ c
  unfolding add_parked add add_when
  add_parked_held c [] h = refl
  add_parked_held c ((level, pos, value) ∷ parked) ((v, held), rest) =
      rw (held, add_when) (add_parked_held c parked rest)

  -- The count of a worker touches nothing else.
  add_parked-processed :
      (c : PeerControl A) (parked : List (ℕ × ℕ × A))
      → (add_parked c parked).processed ≡ c.processed
  unfolding add_parked add add_when
  add_parked-processed c [] = refl
  add_parked-processed c ((level, pos, value) ∷ parked) =
      add_parked-processed (add c level pos value) parked ∙ added (get c.items (level, pos))
    where
      added : (o : Option A) → (add_when o c level pos value).processed ≡ c.processed
      added none = refl
      added (some old) = refl

  -- A payload that comes again, from a transport that retries, changes nothing.
  pub file_payload_again :
      (c : PeerControl A) (payload : HandIn A)
      → file_payload (file_payload c payload) payload ≡ file_payload c payload
  unfolding file_payload add add_when
  file_payload_again c other_payload = refl
  file_payload_again c (item_of level pos value) =
      let (v, held) = added-IsHeld c level pos value (get c.items (level, pos)) refl in
      rw (held, add_when) refl
  file_payload_again c (cancelled_with address count parked) =
      let c' : PeerControl A =
        add_parked (record c { processed = put c.processed address count }) parked in
      let same : put c'.processed address count ≡ c'.processed =
        ap (λ d. put d address count) (add_parked-processed _ parked)
        ∙ put-put c.processed address count
        ∙ sym (add_parked-processed _ parked) in
      ap (λ d. add_parked (record c' { processed = d }) parked) same
      ∙ add_parked_held c' parked (add_parked-AllHeld _ parked)
