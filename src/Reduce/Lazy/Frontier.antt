-- ===== src/Reduce/Lazy/Frontier.antt =====
-- The frontier as a table: what it holds while a leaf bubbles up, and the two writes to it.
use graphed_executors.Prelude.{
  ℕ, suc, ◌<◌, ◌≤◌, ◌≡◌, Bool, true, false, arith, ◌==◌, Option, none, some, if◌then◌else◌, node_eq,
}
use graphed_executors.Prelude.Dict.{Dict, get, put, pop, get-put, get-pop}
use graphed_executors.Reduce.Tree.{node_value}
use graphed_executors.Reduce.Lazy.Parked.{is_parked}

module _ {A : Type 0} (combine : A → A → A) (n : ℕ) (leaf : ℕ → A) where
  abbrev pub parked_value : (ℕ → Bool) → ℕ → ℕ → Option A
  parked_value fed level pos =
      if is_parked n fed level pos then some (node_value combine n leaf level pos) else none

  -- The frontier when the leaves `fed` are in.
  pub record Holds (fed : ℕ → Bool) (d : Dict (ℕ × ℕ) A) : Type 0 where
    pub at : (level pos : ℕ) → get d (level, pos) ≡ parked_value fed level pos

  -- The frontier when the new leaf has reached `level`: the levels below are those of `fed'`.
  pub record Rising (fed fed' : ℕ → Bool) (level : ℕ) (d : Dict (ℕ × ℕ) A) : Type 0 where
    pub below : (j q : ℕ) → j < level → get d (j, q) ≡ parked_value fed' j q
    pub here : (j q : ℕ) → level ≤ j → get d (j, q) ≡ parked_value fed j q

module _ {A : Type 0} {combine : A → A → A} {n : ℕ} {leaf : ℕ → A} {fed fed' : ℕ → Bool} (level : ℕ)
    {d : Dict (ℕ × ℕ) A} (r : Rising combine n leaf fed fed' level d) where
  pub Rising-carry :
      ((q : ℕ) → is_parked n fed' level q ≡ is_parked n fed level q)
      → Rising combine n leaf fed fed' (suc level) d
  Rising-carry same = record {
    below = λ j q h. ground (arith, r.below j q, r.here j q, same q);
    here = λ j q h. r.here j q (omega arith);
  }

  pub Rising-pop :
      (sib : ℕ)
      → ((q : ℕ) → is_parked n fed' level q ≡ (if sib == q then false else is_parked n fed level q))
      → Rising combine n leaf fed fed' (suc level) (pop d (level, sib))
  Rising-pop sib change = record {
    below =
        λ j q h. ground (arith, get-pop d (level, sib) (j, q), r.below j q, r.here j q, change q);
    here = λ j q h. ground (arith, get-pop d (level, sib) (j, q), r.here j q);
  }

  pub Holds-put :
      (pos : ℕ) (value : A)
      → value ≡ node_value combine n leaf level pos
      → ((q : ℕ) → is_parked n fed' level q ≡ (if pos == q then true else is_parked n fed level q))
      → ((j q : ℕ) → level < j → is_parked n fed' j q ≡ is_parked n fed j q)
      → Holds combine n leaf fed' (put d (level, pos) value)
  Holds-put pos value good change above = record {
    at = λ j q.
        ground (
          arith,
          get-put d (level, pos) (j, q) value,
          r.below j q,
          r.here j q,
          change q,
          above j q,
        );
  }
