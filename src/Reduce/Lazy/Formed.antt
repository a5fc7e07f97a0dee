-- ===== src/Reduce/Lazy/Formed.antt =====
-- Which nodes of the tree are complete when a set of leaves is in, and how one more leaf changes it.
use graphed_executors.Prelude.{
  ℕ, zero, suc, ◌+◌, ◌-◌, ◌/◌, ◌%◌, ◌*◌, ◌≤◌, ◌<◌, ◌≡◌, refl, Bool, true, false, ◌&&◌, ◌||◌, arith,
  ◌==◌, ==_iff, Bool-cases, inl, inr,
}
use graphed_executors.Reduce.Tree.{level_size, node_value, level_size-zero, level_size-suc}

abbrev pub formed : ℕ → (ℕ → Bool) → ℕ → ℕ → Bool
formed n fed = node_value ◌&&◌ n fed

pub formed_none : (n level pos : ℕ) → formed n (λ x. false) level pos ≡ false
unfolding node_value
formed_none n zero pos = refl
formed_none n (suc level) pos =
    ground (arith, formed_none n level (2 * pos), formed_none n level (2 * pos + 1))

-- Where every leaf is in, every node is complete.
pub formed_all :
    (n : ℕ) (fed : ℕ → Bool)
    → ((x : ℕ) → x < n → fed x ≡ true)
    → (level pos : ℕ) → pos < level_size n level
    → formed n fed level pos ≡ true
unfolding node_value
formed_all n fed all zero pos h = all pos (omega (arith, level_size-zero n))
formed_all n fed all (suc level) pos h = ground (
  arith,
  level_size-suc n level,
  formed_all n fed all level (2 * pos),
  formed_all n fed all level (2 * pos + 1),
)

-- `pos` is the node of the level above the new leaf, and it is complete with the new leaf only.
pub record Reaches (n : ℕ) (fed fed' : ℕ → Bool) (level pos : ℕ) : Type 0 where
  pub fresh : formed n fed level pos ≡ false
  pub grown : (q : ℕ) → formed n fed' level q ≡ (q == pos) || formed n fed level q

module _ {n : ℕ} {fed fed' : ℕ → Bool} (level pos : ℕ) (r : Reaches n fed fed' level pos) where
  pub Reaches-carry :
      pos % 2 ≡ 0 → level_size n level ≤ pos + 1 → Reaches n fed fed' (suc level) (pos / 2)
  unfolding node_value
  Reaches-carry even last = record {
    fresh = ground (arith, r.fresh);
    grown = λ q. ground (arith, r.fresh, r.grown (2 * q), r.grown (2 * q + 1));
  }

  pub Reaches-join_even :
      pos % 2 ≡ 0
      → pos + 1 < level_size n level
      → formed n fed level (pos + 1) ≡ true
      → Reaches n fed fed' (suc level) (pos / 2)
  unfolding node_value
  Reaches-join_even even inside sibling = record {
    fresh = ground (arith, r.fresh);
    grown = λ q. ground (arith, r.fresh, r.grown (2 * q), r.grown (2 * q + 1));
  }

  pub Reaches-join_odd :
      pos % 2 ≡ 1
      → pos < level_size n level
      → formed n fed level (pos - 1) ≡ true
      → Reaches n fed fed' (suc level) (pos / 2)
  unfolding node_value
  Reaches-join_odd odd inside sibling = record {
    fresh = ground (arith, r.fresh);
    grown = λ q. ground (arith, r.fresh, r.grown (2 * q), r.grown (2 * q + 1));
  }

  -- With the sibling missing the parents keep what they were.
  pub stays_even :
      pos % 2 ≡ 0
      → pos + 1 < level_size n level
      → formed n fed level (pos + 1) ≡ false
      → (q : ℕ) → formed n fed' (suc level) q ≡ formed n fed (suc level) q
  unfolding node_value
  stays_even even inside sibling q = ground (arith, r.fresh, r.grown (2 * q), r.grown (2 * q + 1))

  pub stays_odd :
      pos % 2 ≡ 1
      → pos < level_size n level
      → formed n fed level (pos - 1) ≡ false
      → (q : ℕ) → formed n fed' (suc level) q ≡ formed n fed (suc level) q
  unfolding node_value
  stays_odd odd inside sibling q = ground (arith, r.fresh, r.grown (2 * q), r.grown (2 * q + 1))

-- Levels that agree make all levels above them agree.
pub same_above :
    (n : ℕ) (fed fed' : ℕ → Bool) (level : ℕ)
    → ((q : ℕ) → formed n fed' level q ≡ formed n fed level q)
    → (above q : ℕ) → level ≤ above
    → formed n fed' above q ≡ formed n fed above q
unfolding node_value
same_above n fed fed' level same zero q h = let e : level ≡ 0 = omega arith in rw e at (same q)
same_above n fed fed' level same (suc above) q h = elim (Bool-cases (level == suc above)) [
  | inl e ↦ let e' : level ≡ suc above = (==_iff _ _).0 e in rw e' at (same q)
  | inr lower ↦ ground (
    arith,
    same_above n fed fed' level same above (2 * q),
    same_above n fed fed' level same above (2 * q + 1),
  )
]
