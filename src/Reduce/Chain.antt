-- ===== src/Reduce/Chain.antt =====
-- running_fold of local/_reduce.py: the chain in completion order, against the fixed tree.
use mathlib.Core.List.{Perm, Permᴰ}
use mathlib.Core.Logic.{∥∥₁_elim}
use graphed_executors.Prelude.{
  ℕ, zero, suc, ◌+◌, ◌-◌, ◌≡◌, refl, sym, ap, ap₂, ◌∙◌, List, [], ◌∷◌, length, length-map,
  length-perm, map, arith, Option, none, some, Bool, false, if◌then◌else◌, All,
}
use graphed_executors.Reduce.Fold.{
  pair_up, level_values, tree_fold, tree_fold-nil, length-level_values,
}
use graphed_executors.Reduce.Tree.{level_size_top}

module _ {ℓ} {A : Type ℓ} (is_none : A → Bool) (combine : A → A → A) where
  -- The loop, with `is_none` the test `is None` on a value; the option is the None before any value.
  unfoldable pub fold_from : Option A → ℕ → List (ℕ × A) → Option A × ℕ
  fold_from acc n_combines [] = (acc, n_combines)
  fold_from none n_combines ((key, value) ∷ completed) = fold_from (some value) n_combines completed
  fold_from (some acc) n_combines ((key, value) ∷ completed) =
      fold_from (some (if is_none acc then value else combine acc value))
        (if is_none acc then n_combines else n_combines + 1) completed

  -- empty() if acc is None else acc
  unfoldable pub or_empty : A → Option A → A
  or_empty empty none = empty
  or_empty empty (some acc) = if is_none acc then empty else acc

  unfoldable pub running_fold : A → List (ℕ × A) → A × ℕ
  unfolding fold_from or_empty
  running_fold empty completed =
      let (acc, n_combines) = fold_from none 0 completed in (or_empty empty acc, n_combines)

  -- The keys of the partials do not matter.
  pub fold_from-values :
      (acc : Option A) (k : ℕ) (completed completed' : List (ℕ × A))
      → map (λ p. p.1) completed ≡ map (λ p. p.1) completed'
      → fold_from acc k completed ≡ fold_from acc k completed'
  unfolding fold_from
  fold_from-values acc k [] [] same = refl
  fold_from-values acc k [] (p ∷ ps) same = cc
  fold_from-values acc k (p ∷ ps) [] same = cc
  fold_from-values none k ((i, v) ∷ ps) ((j, w) ∷ qs) same =
      let head : v ≡ w = cc in
      let tail : map (λ p. p.1) ps ≡ map (λ p. p.1) qs = cc in
      rw head (fold_from-values (some w) k ps qs tail)
  fold_from-values (some acc) k ((i, v) ∷ ps) ((j, w) ∷ qs) same =
      let head : v ≡ w = cc in
      let tail : map (λ p. p.1) ps ≡ map (λ p. p.1) qs = cc in
      rw head (fold_from-values _ _ ps qs tail)

  pub running_fold-values :
      (empty : A) (completed completed' : List (ℕ × A))
      → map (λ p. p.1) completed ≡ map (λ p. p.1) completed'
      → running_fold empty completed ≡ running_fold empty completed'
  unfolding running_fold
  running_fold-values empty completed completed' same =
      ap (λ r. (or_empty empty r.0, r.1)) (fold_from-values none 0 completed completed' same)

  abbrev chain : A → List A → A
  chain acc [] = acc
  chain acc (x ∷ xs) = chain (combine acc x) xs

  abbrev chain_of : A → List A → A
  chain_of empty [] = empty
  chain_of empty (x ∷ xs) = chain x xs

  -- No partial is None.
  abbrev pub AllSet : List (ℕ × A) → Type 0
  AllSet completed = All (λ p. is_none p.1 ≡ false) completed

  module _
      (keeps : (a b : A)
        → is_none a ≡ false
        → is_none b ≡ false
        → is_none (combine a b) ≡ false) where
    fold_from-chain :
        (acc : A) (k : ℕ) (completed : List (ℕ × A))
        → is_none acc ≡ false
        → AllSet completed
        → (fold_from (some acc) k completed
            ≡ (some (chain acc (map (λ p. p.1) completed)), length completed + k))
          × (is_none (chain acc (map (λ p. p.1) completed)) ≡ false)
    unfolding fold_from
    fold_from-chain acc k [] set all = (ap (λ t. (some acc, t)) (omega arith), set)
    fold_from-chain acc k ((key, value) ∷ completed) set all =
        let (same, set') =
          fold_from-chain (combine acc value) (k + 1) completed (keeps acc value set all.0) all.1 in
        let size : length completed + (k + 1) ≡ suc (length completed) + k = omega arith in
        (
          rw set (
              same
              ∙ ap (λ t. (some (chain (combine acc value) (map (λ p. p.1) completed)), t)) size),
          set',
        )

    running_fold-chain_of :
        (empty : A) (completed : List (ℕ × A))
        → AllSet completed
        → running_fold empty completed
          ≡ (chain_of empty (map (λ p. p.1) completed), length completed - 1)
    unfolding running_fold fold_from or_empty
    running_fold-chain_of empty [] all = ap (λ t. (empty, t)) (omega arith)
    running_fold-chain_of empty ((key, value) ∷ completed) all =
        let (same, set) = fold_from-chain value 0 completed all.0 all.1 in
        let size : length completed + 0 ≡ suc (length completed) - 1 = omega arith in
        ap (λ p. (or_empty empty p.0, p.1)) same ∙ ap₂ (λ v k. (v, k)) (rw set refl) size

  module _ (assoc : (a b c : A) → combine (combine a b) c ≡ combine a (combine b c)) where
    chain-pair_up : (acc : A) (xs : List A) → chain acc (pair_up combine xs) ≡ chain acc xs
    unfolding pair_up
    chain-pair_up acc [] = refl
    chain-pair_up acc (x ∷ []) = refl
    chain-pair_up acc (x ∷ y ∷ xs) =
        rw (← assoc acc x y) (chain-pair_up (combine (combine acc x) y) xs)

    chain_of-pair_up :
        (empty : A) (xs : List A) → chain_of empty (pair_up combine xs) ≡ chain_of empty xs
    unfolding pair_up
    chain_of-pair_up empty [] = refl
    chain_of-pair_up empty (x ∷ []) = refl
    chain_of-pair_up empty (x ∷ y ∷ xs) = chain-pair_up (combine x y) xs

    chain_of-level_values :
        (empty : A) (k : ℕ) (xs : List A)
        → chain_of empty (level_values combine k xs) ≡ chain_of empty xs
    unfolding level_values
    chain_of-level_values empty zero xs = refl
    chain_of-level_values empty (suc k) xs =
        chain_of-level_values empty k (pair_up combine xs) ∙ chain_of-pair_up empty xs

    single-chain_of :
        (empty : A) (ys : List A)
        → length ys ≡ 1
        → ◌≡◌ {A = A} (elim ys [ [] ↦ empty | x ∷ _ ↦ x ]) (chain_of empty ys)
    single-chain_of empty [] h = refl
    single-chain_of empty (x ∷ []) h = refl
    single-chain_of empty (x ∷ y ∷ ys) h = absurd (omega arith)

    tree_fold-chain_of : (empty : A) (xs : List A) → tree_fold combine empty xs ≡ chain_of empty xs
    unfolding tree_fold
    tree_fold-chain_of empty [] = tree_fold-nil combine empty
    tree_fold-chain_of empty (x ∷ xs) =
        let n : ℕ = length (x ∷ xs) in
        let top : length (level_values combine n (x ∷ xs)) ≡ 1 =
          length-level_values combine n n (x ∷ xs) refl ∙ level_size_top n (omega arith) in
        single-chain_of empty (level_values combine n (x ∷ xs)) top
        ∙ chain_of-level_values empty n (x ∷ xs)

    -- For an associative combine the fixed tree and the chain over the same partials agree, where no
    -- partial is None and combine gives none.
    pub tree_fold-running_fold :
        (keeps : (a b : A) → is_none a ≡ false → is_none b ≡ false → is_none (combine a b) ≡ false)
        (empty : A) (completed : List (ℕ × A))
        → AllSet completed
        → tree_fold combine empty (map (λ p. p.1) completed) ≡ (running_fold empty completed).0
    tree_fold-running_fold keeps empty completed all =
        tree_fold-chain_of empty (map (λ p. p.1) completed)
        ∙ ap (λ p. p.0) (sym (running_fold-chain_of keeps empty completed all))

    module _ (comm : (a b : A) → combine a b ≡ combine b a) where
      chain-Permᴰ : {xs ys : List A} → Permᴰ xs ys → (acc : A) → chain acc xs ≡ chain acc ys
      chain-Permᴰ Permᴰ.nil acc = refl
      chain-Permᴰ (Permᴰ.cons {l₂ = l₂} e p) acc =
          chain-Permᴰ p _ ∙ ap (λ t. chain (combine acc t) l₂) e
      chain-Permᴰ (Permᴰ.swap {a = x} {b = y} {l = l} e e') acc =
          ap (λ t. chain t l) (assoc acc x y ∙ ap (combine acc) (comm x y) ∙ sym (assoc acc y x))
          ∙ ap₂ (λ s t. chain (combine (combine acc s) t) l) e' e
      chain-Permᴰ (Permᴰ.trans p q) acc = chain-Permᴰ p acc ∙ chain-Permᴰ q acc

      chain_of-Permᴰ :
          {xs ys : List A} (empty : A) → Permᴰ xs ys → chain_of empty xs ≡ chain_of empty ys
      chain_of-Permᴰ empty Permᴰ.nil = refl
      chain_of-Permᴰ empty (Permᴰ.cons {b = b} {l₁ = l₁} e p) =
          ap (λ t. chain t l₁) e ∙ chain-Permᴰ p b
      chain_of-Permᴰ empty (Permᴰ.swap {a = x} {b = y} {l = l} e e') =
          ap (λ t. chain t l) (comm x y) ∙ ap₂ (λ s t. chain (combine s t) l) e' e
      chain_of-Permᴰ empty (Permᴰ.trans p q) = chain_of-Permᴰ empty p ∙ chain_of-Permᴰ empty q

      -- For an associative and commutative combine the order of completion does not matter, where no
      -- partial is None and combine gives none.
      pub running_fold_any_order :
          (set : IsSet A)
          (keeps : (a b : A)
            → is_none a ≡ false
            → is_none b ≡ false
            → is_none (combine a b) ≡ false)
          (empty : A) (completed completed' : List (ℕ × A))
          → AllSet completed
          → AllSet completed'
          → Perm (map (λ p. p.1) completed) (map (λ p. p.1) completed')
          → running_fold empty completed ≡ running_fold empty completed'
      running_fold_any_order set keeps empty completed completed' all all' p =
          let value : chain_of empty (map (λ p. p.1) completed)
              ≡ chain_of empty (map (λ p. p.1) completed') =
            ∥∥₁_elim p (set _ _) (chain_of-Permᴰ empty) in
          let size : length completed ≡ length completed' =
            sym (length-map _ completed) ∙ length-perm p ∙ length-map _ completed' in
          running_fold-chain_of keeps empty completed all
          ∙ ap₂ (λ v k. (v, k - 1)) value size
          ∙ sym (running_fold-chain_of keeps empty completed' all')
