-- ===== src/Reduce/Lazy/Parked.antt =====
-- Which nodes the frontier holds when a set of leaves is in: the complete ones whose sibling is not.
use graphed_executors.Prelude.{
  ℕ, zero, suc, ◌+◌, ◌-◌, ◌%◌, ◌≤◌, ◌<◌, ◌≡◌, ◌≢◌, Bool, true, false, not, ◌&&◌, arith, ◌==◌, leb,
  if◌then◌else◌,
}
use graphed_executors.Reduce.Tree.{level_size, level_size_one_above}
use graphed_executors.Reduce.Lazy.Formed.{formed, Reaches, formed_none}

-- No level below has size one, so `level` is the root's if its size is one.
abbrev pub first_root : ℕ → ℕ → Bool
first_root n zero = true
first_root n (suc level) = not (level_size n level == 1)

module _ (n : ℕ) where
  unfoldable pub is_parked : (ℕ → Bool) → ℕ → ℕ → Bool
  is_parked fed level pos =
      let complete = formed n fed level in
      if level_size n level == 1
      then first_root n level && (pos == 0 && complete 0)
      else if pos % 2 == 0
      then not (leb (level_size n level) (pos + 1)) && (complete pos && not (complete (pos + 1)))
      else not (leb (level_size n level) pos) && (complete pos && not (complete (pos - 1)))

  pub is_parked_none : (level pos : ℕ) → is_parked (λ x. false) level pos ≡ false
  unfolding is_parked
  is_parked_none level pos = ground (arith, formed_none n level pos, formed_none n level 0)

  -- Above the root, and above levels that agree, nothing changes.
  pub is_parked_above :
      (fed fed' : ℕ → Bool) (level q : ℕ)
      → ((p : ℕ) → formed n fed' level p ≡ formed n fed level p)
      → is_parked fed' level q ≡ is_parked fed level q
  unfolding is_parked
  is_parked_above fed fed' level q same = ground (arith, same q, same (q + 1), same (q - 1), same 0)

  pub is_parked_over_root :
      (fed : ℕ → Bool) (level above q : ℕ)
      → level_size n level ≡ 1
      → level < above
      → is_parked fed above q ≡ false
  unfolding is_parked
  is_parked_over_root fed level zero q one h = absurd (omega arith)
  is_parked_over_root fed level (suc above) q one h = ground (
    arith,
    level_size_one_above n level above one (omega arith),
    level_size_one_above n level (suc above) one (omega arith),
  )

  module _ {fed fed' : ℕ → Bool} (level pos : ℕ) (r : Reaches n fed fed' level pos)
      (inside : pos < level_size n level) where
    pub is_parked_root :
        level_size n level ≡ 1
        → first_root n level ≡ true
        → (q : ℕ) → is_parked fed' level q ≡ (if pos == q then true else is_parked fed level q)
    unfolding is_parked
    is_parked_root one first q = ground (arith, r.fresh, r.grown q, r.grown 0)

    pub is_parked_carry :
        level_size n level ≢ 1
        → pos % 2 ≡ 0
        → level_size n level ≤ pos + 1
        → (q : ℕ) → is_parked fed' level q ≡ is_parked fed level q
    unfolding is_parked
    is_parked_carry many even last q =
        ground (arith, r.fresh, r.grown q, r.grown (q + 1), r.grown (q - 1))

    pub is_parked_join_even :
        level_size n level ≢ 1
        → pos % 2 ≡ 0
        → pos + 1 < level_size n level
        → formed n fed level (pos + 1) ≡ true
        → (q : ℕ) → is_parked fed' level q ≡ (if pos + 1 == q then false else is_parked fed level q)
    unfolding is_parked
    is_parked_join_even many even paired sibling q =
        ground (arith, r.fresh, r.grown q, r.grown (q + 1), r.grown (q - 1))

    pub is_parked_join_odd :
        level_size n level ≢ 1
        → pos % 2 ≡ 1
        → formed n fed level (pos - 1) ≡ true
        → (q : ℕ) → is_parked fed' level q ≡ (if pos - 1 == q then false else is_parked fed level q)
    unfolding is_parked
    is_parked_join_odd many odd sibling q =
        ground (arith, r.fresh, r.grown q, r.grown (q + 1), r.grown (q - 1))

    pub is_parked_wait_even :
        level_size n level ≢ 1
        → pos % 2 ≡ 0
        → pos + 1 < level_size n level
        → formed n fed level (pos + 1) ≡ false
        → (q : ℕ) → is_parked fed' level q ≡ (if pos == q then true else is_parked fed level q)
    unfolding is_parked
    is_parked_wait_even many even paired sibling q =
        ground (arith, r.fresh, r.grown q, r.grown (q + 1), r.grown (q - 1))

    pub is_parked_wait_odd :
        level_size n level ≢ 1
        → pos % 2 ≡ 1
        → formed n fed level (pos - 1) ≡ false
        → (q : ℕ) → is_parked fed' level q ≡ (if pos == q then true else is_parked fed level q)
    unfolding is_parked
    is_parked_wait_odd many odd sibling q =
        ground (arith, r.fresh, r.grown q, r.grown (q + 1), r.grown (q - 1))

    -- A paired node finds its sibling on the frontier exactly when the sibling is complete.
    pub is_parked_sibling_even :
        level_size n level ≢ 1
        → pos % 2 ≡ 0
        → pos + 1 < level_size n level
        → is_parked fed level (pos + 1) ≡ formed n fed level (pos + 1)
    unfolding is_parked
    is_parked_sibling_even many even paired = ground (arith, r.fresh)

    pub is_parked_sibling_odd :
        level_size n level ≢ 1
        → pos % 2 ≡ 1
        → is_parked fed level (pos - 1) ≡ formed n fed level (pos - 1)
    unfolding is_parked
    is_parked_sibling_odd many odd = ground (arith, r.fresh)
