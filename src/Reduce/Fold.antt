-- ===== src/Reduce/Fold.antt =====
-- The value that the reducers promise, by lists: neighbours are combined level by level, the last
-- one of an odd level carries up. `running_fold` of local/_reduce.py is the chain.
use graphed_executors.Prelude.{
  ℕ, zero, suc, ◌+◌, ◌*◌, ◌/◌, ◌<◌, ◌≡◌, refl, ap, ◌∙◌, List, [], ◌∷◌, Option, none, some, length,
  get_elem?, get_elem?_beyond, get_elem?-map-range_from, map, range_from, length-range_from,
  length-map, arith, ltb, Bool-cases, inl, inr, ltb→lt,
}
use graphed_executors.Reduce.Tree.{
  level_size, node_value, level_size-suc, level_size-zero, level_size_top,
}

module _ {ℓ} {A : Type ℓ} (combine : A → A → A) where
  unfoldable pub pair_up : List A → List A
  pair_up (x ∷ y ∷ xs) = combine x y ∷ pair_up xs
  pair_up (x ∷ []) = x ∷ []
  pair_up [] = []

  unfoldable pub level_values : ℕ → List A → List A
  level_values zero xs = xs
  level_values (suc k) xs = level_values k (pair_up xs)

  -- As many levels as there are leaves are enough: a level of one value stays.
  unfoldable pub tree_fold : A → List A → A
  tree_fold empty xs = elim (level_values (length xs) xs) [ [] ↦ empty | x ∷ _ ↦ x ]

  pub tree_fold-nil : (empty : A) → tree_fold empty [] ≡ empty
  unfolding tree_fold level_values
  tree_fold-nil empty = refl

  pub level_values-suc :
      (k : ℕ) (xs : List A) → level_values (suc k) xs ≡ pair_up (level_values k xs)
  unfolding level_values
  level_values-suc zero xs = refl
  level_values-suc (suc k) xs = level_values-suc k (pair_up xs)

  pub length-pair_up : (xs : List A) → length (pair_up xs) ≡ (length xs + 1) / 2
  unfolding pair_up
  length-pair_up [] = omega arith
  length-pair_up (x ∷ []) = omega arith
  length-pair_up (x ∷ y ∷ xs) = omega (arith, length-pair_up xs)

  pub length-level_values :
      (n k : ℕ) (xs : List A) → length xs ≡ n → length (level_values k xs) ≡ level_size n k
  unfolding level_values
  length-level_values n zero xs h = omega (arith, level_size-zero n)
  length-level_values n (suc k) xs h =
      ap length (level_values-suc k xs)
      ∙ omega (
        arith,
        length-pair_up (level_values k xs),
        length-level_values n k xs h,
        level_size-suc n k,
      )

-- What the level above holds over two neighbours.
abbrev pair_of {ℓ} : {A : Type ℓ} → (A → A → A) → Option A → Option A → Option A
pair_of combine none _ = none
pair_of combine (some x) none = some x
pair_of combine (some x) (some y) = some (combine x y)

module _ {A : Type 0} (combine : A → A → A) where
  get_elem?-pair_up :
      (xs : List A) (p : ℕ)
      → get_elem? (pair_up combine xs) p
        ≡ pair_of combine (get_elem? xs (2 * p)) (get_elem? xs (2 * p + 1))
  unfolding pair_up
  get_elem?-pair_up [] p = refl
  get_elem?-pair_up (x ∷ []) zero = refl
  get_elem?-pair_up (x ∷ []) (suc p) =
      let e : 2 * suc p ≡ suc (suc (2 * p)) = omega arith in rw e refl
  get_elem?-pair_up (x ∷ y ∷ xs) zero = refl
  get_elem?-pair_up (x ∷ y ∷ xs) (suc p) =
      let e : 2 * suc p ≡ suc (suc (2 * p)) = omega arith in
      let e' : suc (suc (2 * p)) + 1 ≡ suc (suc (2 * p + 1)) = omega arith in
      rw (e, e') (get_elem?-pair_up xs p)

  -- Node (level, pos) is what the reference holds at place `pos` of its level.
  get_elem?-level_values :
      (n : ℕ) (leaf : ℕ → A) (xs : List A)
      → length xs ≡ n
      → ((i : ℕ) → i < n → get_elem? xs i ≡ some (leaf i))
      → (k p : ℕ) → p < level_size n k
      → get_elem? (level_values combine k xs) p ≡ some (node_value combine n leaf k p)
  unfolding node_value
  get_elem?-level_values n leaf xs len each zero p h =
      unfold level_values in each p (omega (arith, level_size-zero n))
  get_elem?-level_values n leaf xs len each (suc k) p h =
      let level : List A = level_values combine k xs in
      let size : length level ≡ level_size n k = length-level_values combine n k xs len in
      let left : get_elem? level (2 * p) ≡ some (node_value combine n leaf k (2 * p)) =
        get_elem?-level_values n leaf xs len each k (2 * p) (omega (arith, level_size-suc n k)) in
      ap (λ l. get_elem? l p) (level_values-suc combine k xs)
      ∙ get_elem?-pair_up level p
      ∙ elim (Bool-cases (ltb (2 * p + 1) (level_size n k))) [
        | inl paired ↦
            let right : get_elem? level (2 * p + 1)
                ≡ some (node_value combine n leaf k (2 * p + 1)) =
              get_elem?-level_values n leaf xs len each k (2 * p + 1) (ltb→lt _ _ paired) in
            rw (paired, left, right) refl
        | inr last ↦
            let gone : get_elem? level (2 * p + 1) ≡ none =
              get_elem?_beyond level (2 * p + 1) (ground (arith, size)) in
            rw (last, left, gone) refl
      ]

  head_of :
      (ys : List A) {y : A} (empty : A)
      → get_elem? ys 0 ≡ some y
      → ◌≡◌ {A = A} (elim ys [ [] ↦ empty | x ∷ _ ↦ x ]) y
  head_of [] empty h = cc
  head_of (x ∷ ys) empty h = cc

  -- The reference at the root.
  pub tree_fold-eq-node_value :
      (n : ℕ) (leaf : ℕ → A) (empty : A)
      → 0 < n
      → tree_fold combine empty (map leaf (range_from 0 n)) ≡ node_value combine n leaf n 0
  unfolding tree_fold
  tree_fold-eq-node_value n leaf empty h =
      let size : length (map leaf (range_from 0 n)) ≡ n =
        length-map leaf (range_from 0 n) ∙ length-range_from n 0 in
      rw (size, tree_fold)
        (head_of (level_values combine n (map leaf (range_from 0 n))) empty (
          get_elem?-level_values n leaf (map leaf (range_from 0 n)) size
            (λ i below.
              get_elem?-map-range_from leaf n 0 i below ∙ ap (λ j. some (leaf j)) (omega arith))
            n 0 (omega (arith, level_size_top n h))))
