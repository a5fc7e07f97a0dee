-- ===== src/Examples/Reduction.antt =====
-- Runs of local/_reduce.py over three leaves, with subtraction, which is not associative, for the
-- fixed tree, and addition for the chain.
use mathlib.Core.List.Perm
use native.Mathlib.Nat.{ℕ_set}
use graphed_executors.Prelude.{
  Bool, false, ℕ, ◌+◌, ◌-◌, ◌≡◌, refl, List, [], ◌∷◌, ◌++◌, length, map, some, range_from, arith,
}
use graphed_executors.Reduce.Fold.{tree_fold}
use graphed_executors.Reduce.Lazy.{lazy_tree_reduce, round, meet, bubble, feed}
use graphed_executors.Reduce.Tree.{level_size}
use graphed_executors.Prelude.Dict.{get, put, pop}
use graphed_executors.Reduce.Lazy.Feed.{deliveries}
use graphed_executors.Reduce.Lazy.Order.{lazy_tree_reduce_any_order}
use graphed_executors.Reduce.Plan.{plan_tree, run_combines, plan_tree-tree_fold}
use graphed_executors.Reduce.Chain.{running_fold, tree_fold-running_fold, running_fold_any_order}

abbrev minus : ℕ → ℕ → ℕ
minus a b = a - b

abbrev plus : ℕ → ℕ → ℕ
plus a b = a + b

abbrev leaf_value : ℕ → ℕ
leaf_value i = 10 - i

abbrev arrivals : List ℕ
arrivals = 1 ∷ 0 ∷ 2 ∷ []

abbrev completions : List (ℕ × ℕ)
completions = (1, 7) ∷ (0, 4) ∷ (2, 5) ∷ []

abbrev later_completions : List (ℕ × ℕ)
later_completions = (0, 4) ∷ (1, 7) ∷ (2, 5) ∷ []

lazy_tree_reduce_any_order_example :
    lazy_tree_reduce 3 (deliveries leaf_value arrivals) minus 0
    ≡ some (tree_fold minus 0 (map leaf_value (range_from 0 3)), 3 - 1)
lazy_tree_reduce_any_order_example =
    lazy_tree_reduce_any_order minus 0 3 leaf_value arrivals (Perm.swap 0 1 (2 ∷ []))

plan_tree-tree_fold_example :
    (root : ℕ) × ((plan_tree 3).1 ≡ some root)
    × (run_combines minus (plan_tree 3).0 leaf_value root
        ≡ tree_fold minus 0 (map leaf_value (range_from 0 3)))
    × (length (plan_tree 3).0 ≡ 3 - 1)
plan_tree-tree_fold_example = plan_tree-tree_fold minus 0 3 leaf_value (omega arith)

-- No number is None.
abbrev never_none : ℕ → Bool
never_none v = false

tree_fold-running_fold_example :
    tree_fold plus 0 (map (λ p. p.1) completions) ≡ (running_fold never_none plus 0 completions).0
tree_fold-running_fold_example =
    tree_fold-running_fold never_none plus (λ a b c. omega arith) (λ a b x y. refl) 0 completions
      (refl, (refl, (refl, tt)))

running_fold_any_order_example :
    running_fold never_none plus 0 completions ≡ running_fold never_none plus 0 later_completions
running_fold_any_order_example =
    running_fold_any_order never_none plus (λ a b c. omega arith) (λ a b. omega arith) ℕ_set
      (λ a b x y. refl) 0 completions later_completions (refl, (refl, (refl, tt)))
      (refl, (refl, (refl, tt))) (Perm.swap 4 7 (5 ∷ []))

lazy_test :
    lazy_tree_reduce {A = List ℕ} 5
      ((3, 4 ∷ []) ∷ (0, 1 ∷ []) ∷ (4, 5 ∷ []) ∷ (2, 3 ∷ []) ∷ (1, 2 ∷ []) ∷ [])
      ◌++◌
      []
    ≡ some (1 ∷ 2 ∷ 3 ∷ 4 ∷ 5 ∷ [], 4)
unfolding lazy_tree_reduce round meet bubble feed level_size get put pop
lazy_test = refl
