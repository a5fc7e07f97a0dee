-- ===== src/Reduce/Lazy/Climb.antt =====
-- One round of the loop of `feed`, and the whole loop.
use graphed_executors.Prelude.{
  [], ◌∷◌, ◌++◌, ℕ, suc, ◌+◌, ◌-◌, ◌/◌, ◌%◌, ◌*◌, ◌<◌, ◌≤◌, ◌≡◌, ◌≢◌, inl, inr, Bool, true, false,
  arith, leb, ◌==◌, Bool-cases, none, some, if◌then◌else◌, node_eq, length,
}
use graphed_executors.Prelude.Dict.{
  get, put, pop, Unique, Unique-put, Unique-pop, length-put_new, length-pop,
}
use graphed_executors.Reduce.Tree.{level_size, node_value, level_size-suc}
use graphed_executors.Reduce.Lazy.{LazyReducer, Round, stop, up, park, meet, round}
use graphed_executors.Reduce.Lazy.Formed.{
  formed, Reaches, Reaches-carry, Reaches-join_even, Reaches-join_odd, stays_even, stays_odd,
  same_above,
}
use graphed_executors.Reduce.Lazy.Parked.{
  first_root, is_parked, is_parked_above, is_parked_over_root, is_parked_root, is_parked_carry,
  is_parked_join_even, is_parked_join_odd, is_parked_wait_even, is_parked_wait_odd,
  is_parked_sibling_even, is_parked_sibling_odd,
}
use graphed_executors.Reduce.Lazy.Frontier.{Holds, Rising, Rising-carry, Rising-pop, Holds-put}

module _ {A : Type 0} (combine : A → A → A) (n : ℕ) (leaf : ℕ → A) where
  abbrev value_at : ℕ → ℕ → A
  value_at = node_value combine n leaf

  value_carry :
      (level pos : ℕ)
      → pos % 2 ≡ 0
      → level_size n level ≤ pos + 1
      → value_at (suc level) (pos / 2) ≡ value_at level pos
  unfolding node_value
  value_carry level pos even last = let e : 2 * (pos / 2) ≡ pos = omega arith in rw e (ground arith)

  value_join_even :
      (level pos : ℕ)
      → pos % 2 ≡ 0
      → pos + 1 < level_size n level
      → value_at (suc level) (pos / 2) ≡ combine (value_at level pos) (value_at level (pos + 1))
  unfolding node_value
  value_join_even level pos even paired =
      let e : 2 * (pos / 2) ≡ pos = omega arith in rw e (ground arith)

  value_join_odd :
      (level pos : ℕ)
      → pos % 2 ≡ 1
      → pos < level_size n level
      → value_at (suc level) (pos / 2) ≡ combine (value_at level (pos - 1)) (value_at level pos)
  unfolding node_value
  value_join_odd level pos odd inside =
      let e : 2 * (pos / 2) ≡ pos - 1 = omega arith in
      let e' : pos - 1 + 1 ≡ pos = omega arith in rw (e, e') (ground arith)

  -- Where the loop stands: the node (level, pos) is complete, with the value `value`.
  -- `count` leaves are delivered, and all pieces but the one in hand are parked.
  pub record Climbs (fed fed' : ℕ → Bool) (count : ℕ) (r : LazyReducer A) (level pos : ℕ)
      (value : A) : Type 0 where
    pub size : r.n ≡ n
    pub rising : Rising combine n leaf fed fed' level r.present
    pub reaches : Reaches n fed fed' level pos
    pub inside : pos < level_size n level
    pub first : first_root n level ≡ true
    pub good : value ≡ value_at level pos
    pub unique : Unique r.present
    pub pieces : r.n_combines + length r.present + 1 ≡ count
    pub delivered : r.delivered ≡ count

  pub record Settled (fed : ℕ → Bool) (count : ℕ) (r : LazyReducer A) : Type 0 where
    pub size : r.n ≡ n
    pub holds : Holds combine n leaf fed r.present
    pub unique : Unique r.present
    pub pieces : r.n_combines + length r.present ≡ count
    pub delivered : r.delivered ≡ count

  abbrev pub After : (ℕ → Bool) → (ℕ → Bool) → ℕ → ℕ → ℕ → Round A → Type 0
  After fed fed' count level pos (stop r) = Settled fed' count r
  After fed fed' count level pos (up r value) =
      Climbs fed fed' count r (suc level) (pos / 2) value × (level_size n level ≢ 1)

module _ {A : Type 0} {combine : A → A → A} {n : ℕ} {leaf : ℕ → A} {fed fed' : ℕ → Bool} {count : ℕ}
    (r : LazyReducer A) (level pos : ℕ) (value : A)
    (c : Climbs combine n leaf fed fed' count r level pos value) where
  -- The place of the new node is free.
  free : get r.present (level, pos) ≡ none
  unfolding is_parked
  free = ground (arith, c.rising.here level pos, c.reaches.fresh)

  put_pieces : (r.n_combines + length (put r.present (level, pos) value) ≡ count)
  put_pieces = omega (arith, length-put_new r.present (level, pos) value free, c.pieces)

  root_After :
      level_size n level ≡ 1
      → After combine n leaf fed fed' count level pos (stop (park r level pos value))
  root_After one = record {
    size = c.size;
    holds =
        Holds-put level c.rising pos value c.good
          (is_parked_root n level pos c.reaches c.inside one c.first)
          (λ j q h. ground (
            arith,
            is_parked_over_root n fed level j q one h,
            is_parked_over_root n fed' level j q one h,
          ));
    unique = Unique-put r.present (level, pos) value c.unique;
    pieces = put_pieces;
    delivered = c.delivered;
  }

  carry_After :
      level_size n level ≢ 1
      → pos % 2 ≡ 0
      → level_size n level ≤ pos + 1
      → After combine n leaf fed fed' count level pos (up r value)
  carry_After many even last = (
    record {
      size = c.size;
      rising =
          Rising-carry level c.rising
            (is_parked_carry n level pos c.reaches c.inside many even last);
      reaches = Reaches-carry level pos c.reaches even last;
      inside = omega (arith, level_size-suc n level, c.inside);
      first = ground arith;
      good = ground (arith, c.good, value_carry combine n leaf level pos even last);
      unique = c.unique;
      pieces = c.pieces;
      delivered = c.delivered;
    },
    many,
  )

  abbrev pub Ends : Round A → Type 0
  Ends = After combine n leaf fed fed' count level pos

  -- What `present.pop((level, sib), _MISSING)` finds.
  there :
      (sib : ℕ)
      → is_parked n fed level sib ≡ formed n fed level sib
      → formed n fed level sib ≡ true
      → get r.present (level, sib) ≡ some (node_value combine n leaf level sib)
  there sib e here = ground (arith, c.rising.here level sib)

  missing :
      (sib : ℕ)
      → is_parked n fed level sib ≡ formed n fed level sib
      → formed n fed level sib ≡ false
      → get r.present (level, sib) ≡ none
  missing sib e gone = ground (arith, c.rising.here level sib)

  -- The node parks, since its sibling is missing.
  wait_After :
      ((q : ℕ) → formed n fed' (suc level) q ≡ formed n fed (suc level) q)
      → ((q : ℕ) → is_parked n fed' level q ≡ (if pos == q then true else is_parked n fed level q))
      → Ends (stop (park r level pos value))
  wait_After same change = record {
    size = c.size;
    holds = Holds-put level c.rising pos value c.good change (λ j q h.
        is_parked_above n fed fed' j q (λ p. same_above n fed fed' (suc level) same j p h));
    unique = Unique-put r.present (level, pos) value c.unique;
    pieces = put_pieces;
    delivered = c.delivered;
  }

  -- The node meets its sibling.
  join_After :
      (sib : ℕ) (total : A) {other : A}
      → get r.present (level, sib) ≡ some other
      → level_size n level ≢ 1
      → ((q : ℕ) → is_parked n fed' level q ≡ (if sib == q then false else is_parked n fed level q))
      → Reaches n fed fed' (suc level) (pos / 2)
      → total ≡ node_value combine n leaf (suc level) (pos / 2)
      → Ends (
          up
            (record r {
              present = pop r.present (level, sib);
              n_combines = r.n_combines + 1;
              calls = r.calls ++ r.delivered ∷ [];
            })
            total)
  join_After sib total found many change reaches good = (
    record {
      size = c.size;
      rising = Rising-pop level c.rising sib change;
      reaches = reaches;
      inside = omega (arith, level_size-suc n level, c.inside);
      first = ground arith;
      good = good;
      unique = Unique-pop r.present (level, sib) c.unique;
      pieces = omega (arith, length-pop r.present (level, sib) c.unique found, c.pieces);
      delivered = c.delivered;
    },
    many,
  )

  meet_even :
      level_size n level ≢ 1
      → pos % 2 ≡ 0
      → pos + 1 < level_size n level
      → Ends (meet combine r level pos value (pos + 1))
  unfolding meet
  meet_even many even paired = elim (Bool-cases (formed n fed level (pos + 1))) [
    | inl here ↦
        rw (there (pos + 1) sees here, meet)
          (join_After (pos + 1) _ (there (pos + 1) sees here) many
            (is_parked_join_even n level pos c.reaches c.inside many even paired here)
            (Reaches-join_even level pos c.reaches even paired here)
            (ground (arith, c.good, value_join_even combine n leaf level pos even paired)))
    | inr gone ↦
        rw (missing (pos + 1) sees gone, meet)
          (wait_After (stays_even level pos c.reaches even paired gone)
            (is_parked_wait_even n level pos c.reaches c.inside many even paired gone))
  ]
    where
      sees : is_parked n fed level (pos + 1) ≡ formed n fed level (pos + 1)
      sees = is_parked_sibling_even n level pos c.reaches c.inside many even paired

  meet_odd : level_size n level ≢ 1 → pos % 2 ≡ 1 → Ends (meet combine r level pos value (pos - 1))
  unfolding meet
  meet_odd many odd = elim (Bool-cases (formed n fed level (pos - 1))) [
    | inl here ↦
        rw (there (pos - 1) sees here, meet)
          (join_After (pos - 1) _ (there (pos - 1) sees here) many
            (is_parked_join_odd n level pos c.reaches c.inside many odd here)
            (Reaches-join_odd level pos c.reaches odd c.inside here)
            (ground (arith, c.good, value_join_odd combine n leaf level pos odd c.inside)))
    | inr gone ↦
        rw (missing (pos - 1) sees gone, meet)
          (wait_After (stays_odd level pos c.reaches odd c.inside gone)
            (is_parked_wait_odd n level pos c.reaches c.inside many odd gone))
  ]
    where
      sees : is_parked n fed level (pos - 1) ≡ formed n fed level (pos - 1)
      sees = is_parked_sibling_odd n level pos c.reaches c.inside many odd

  pub round_After : Ends (round combine r level pos value)
  unfolding round
  round_After = elim (Bool-cases (level_size r.n level == 1)) [
    | inl one ↦ rw (one, round) (root_After (ground (arith, c.size)))
    | inr many ↦ elim (Bool-cases (pos % 2 == 0)) [
      | inl even ↦ elim (Bool-cases (leb (level_size r.n level) (pos + 1))) [
        | inl last ↦
            rw (many, even, last, round)
              (carry_After (ground (arith, c.size)) (ground arith) (ground (arith, c.size)))
        | inr paired ↦
            rw (many, even, paired, round)
              (meet_even (ground (arith, c.size)) (ground arith) (ground (arith, c.size)))
      ]
      | inr odd ↦ rw (many, odd, round) (meet_odd (ground (arith, c.size)) (ground arith))
    ]
  ]
