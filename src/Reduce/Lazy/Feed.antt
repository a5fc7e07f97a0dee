-- ===== src/Reduce/Lazy/Feed.antt =====
-- `feed` and a sequence of calls of it: the frontier depends on the set of leaves only.
use graphed_executors.Prelude.{
  List, [], ◌∷◌, ℕ, zero, suc, ◌+◌, ◌/◌, ◌<◌, ◌≡◌, inl, inr, refl, Bool, false, ◌||◌, arith, ltb,
  ◌==◌, Bool-cases, some, node_eq, ◌⊎◌, map, length,
}
use graphed_executors.Prelude.Dict.{get}
use graphed_executors.Reduce.Tree.{level_size, node_value, level_size-zero, level_size_top}
use graphed_executors.Reduce.Lazy.{
  LazyReducer, Round, stop, up, new, round, note_frontier, feed_at, bubble, feed, feed_all,
}
use graphed_executors.Reduce.Lazy.Parked.{is_parked_none}
use graphed_executors.Reduce.Lazy.Climb.{Climbs, Settled, round_After}

Round-cases :
    {A : Type 0} (x : Round A)
    → ((r : LazyReducer A) × (x ≡ stop r)) ⊎ ((r : LazyReducer A) × (v : A) × (x ≡ up r v))
Round-cases (stop r) = inl (r, refl)
Round-cases (up r v) = inr (r, v, refl)

-- One more leaf.
abbrev pub add_leaf : ℕ → (ℕ → Bool) → ℕ → Bool
add_leaf l fed x = (x == l) || fed x

-- The leaves of `order` are below n and new, each once.
abbrev pub IsDelivery : ℕ → (ℕ → Bool) → List ℕ → Type 0
IsDelivery n fed [] = Unit
IsDelivery n fed (l ∷ order) = (l < n) × (fed l ≡ false) × IsDelivery n (add_leaf l fed) order

abbrev pub delivered_by : (ℕ → Bool) → List ℕ → ℕ → Bool
delivered_by fed [] = fed
delivered_by fed (l ∷ order) = delivered_by (add_leaf l fed) order

abbrev pub deliveries {ℓ} : {A : Type ℓ} → (ℕ → A) → List ℕ → List (ℕ × A)
deliveries leaf order = map (λ l. (l, leaf l)) order

module _ {A : Type 0} (combine : A → A → A) (n : ℕ) (leaf : ℕ → A) where
  -- The loop ends within the fuel, with the new leaf's nodes in place.
  bubble-Settled :
      {fed fed' : ℕ → Bool} {count : ℕ} (fuel : ℕ) (r : LazyReducer A) (level pos : ℕ) (value : A)
      → level_size n (level + fuel) ≡ 1
      → Climbs combine n leaf fed fed' count r level pos value
      → (r' : LazyReducer A) × (bubble combine (suc fuel) r level pos value ≡ some r')
        × Settled combine n leaf fed' count r'
  unfolding bubble
  bubble-Settled zero r level pos value top c =
      elim (Round-cases (round combine r level pos value)) [
        | inl (r', e) ↦ (r', rw (e, bubble), rw e at (round_After r level pos value c))
        | inr (r', v, e) ↦
            let e' : level + 0 ≡ level = omega arith in
            absurd ((rw e at (round_After r level pos value c)).1 (rw e' at top))
      ]
  bubble-Settled (suc fuel) r level pos value top c =
      elim (Round-cases (round combine r level pos value)) [
        | inl (r', e) ↦ (r', rw (e, bubble), rw e at (round_After r level pos value c))
        | inr (r', v, e) ↦
            let e' : level + suc fuel ≡ suc level + fuel = omega arith in
            rw (e, bubble)
              (bubble-Settled fuel r' (suc level) (pos / 2) v (rw e' at top)
                (rw e at (round_After r level pos value c)).0)
      ]

  start_Climbs :
      (fed : ℕ → Bool) {count : ℕ} (r : LazyReducer A) (l : ℕ)
      → Settled combine n leaf fed count r
      → l < n
      → fed l ≡ false
      → Climbs combine n leaf fed
          (add_leaf l fed)
          (count + 1)
          (record r { delivered = r.delivered + 1 })
          0
          l
          (leaf l)
  unfolding node_value
  start_Climbs fed r l s inside fresh = record {
    size = s.size;
    rising = record { below = λ j q h. absurd (omega arith); here = λ j q h. s.holds.at j q };
    reaches = record { fresh = fresh; grown = λ q. refl };
    inside = omega (arith, level_size-zero n);
    first = refl;
    good = refl;
    unique = s.unique;
    pieces = omega (arith, s.pieces);
    delivered = omega (arith, s.delivered);
  }

  note_frontier-Settled :
      (fed : ℕ → Bool) {count : ℕ} (r : LazyReducer A)
      → Settled combine n leaf fed count r
      → Settled combine n leaf fed count (note_frontier combine r)
  note_frontier-Settled fed r s = elim (Bool-cases (ltb r.max_frontier (length r.present))) [
    | inl more ↦ rw more (record {
      size = s.size;
      holds = s.holds;
      unique = s.unique;
      pieces = s.pieces;
      delivered = s.delivered;
    })
    | inr same ↦ rw same s
  ]

  pub feed-Settled :
      (fed : ℕ → Bool) {count : ℕ} (r : LazyReducer A) (l : ℕ)
      → Settled combine n leaf fed count r
      → l < n
      → fed l ≡ false
      → (r' : LazyReducer A) × (feed combine r l (leaf l) ≡ some r')
        × Settled combine n leaf (add_leaf l fed) (count + 1) r'
  unfolding feed
  feed-Settled fed r l s inside fresh =
      let top : 0 + r.n ≡ n = omega (arith, s.size) in
      let (r', e, s') =
        bubble-Settled r.n (record r { delivered = r.delivered + 1 }) 0 l (leaf l)
          (rw top (level_size_top n (omega arith))) (start_Climbs fed r l s inside fresh) in
      (note_frontier combine r', rw (e, feed_at), note_frontier-Settled (add_leaf l fed) r' s')

  pub feed_all-Settled :
      (fed : ℕ → Bool) (count : ℕ) (order : List ℕ) (r : LazyReducer A)
      → Settled combine n leaf fed count r
      → IsDelivery n fed order
      → (r' : LazyReducer A) × (feed_all combine r (deliveries leaf order) ≡ some r')
        × Settled combine n leaf (delivered_by fed order) (length order + count) r'
  unfolding feed_all
  feed_all-Settled fed count [] r s h = (r, refl, let e : 0 + count ≡ count = omega arith in rw e s)
  feed_all-Settled fed count (l ∷ order) r s (inside, fresh, later) =
      let (r', e, s') = feed-Settled fed r l s inside fresh in
      let (r'', e', s'') = feed_all-Settled (add_leaf l fed) (count + 1) order r' s' later in
      let total : suc (length order) + count ≡ length order + (count + 1) = omega arith in
      (r'', rw (e, feed_all) e', rw total s'')

  pub new-Settled : Settled combine n leaf (λ x. false) 0 (new n)
  unfolding new get
  new-Settled = record {
    size = refl;
    holds = record { at = λ level pos. ground (arith, is_parked_none n level pos) };
    unique = tt;
    pieces = omega arith;
    delivered = refl;
  }
