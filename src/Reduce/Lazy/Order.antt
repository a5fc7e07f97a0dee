-- ===== src/Reduce/Lazy/Order.antt =====
-- The value of a run does not depend on the order in which the leaves complete.
use mathlib.Core.List.{
  Mem, Nodup, Nodup-nil, Perm, Nodup-cons, mem-cons, mem-cons_self, not-mem-nil, mem-cons_of_mem,
}
use mathlib.Core.List.Perm
use mathlib.Core.Logic.Or
use mathlib.Core.Bool.{Bool-set}
use native.Mathlib.Bridge.{le_prop}
use native.Mathlib.Nat.{zero-add}
use graphed_executors.Prelude.{
  List, [], ◌∷◌, ℕ, zero, suc, ◌+◌, ◌-◌, ◌<◌, ◌≤◌, ◌≡◌, ◌≢◌, ◌↔◌, inl, inr, refl, sym, ◌∙◌, ap, ap₂,
  Bool, true, false, arith, ltb, ◌==◌, ==_iff, Bool-cases, some, node_eq, length, map, range_from,
  length-perm, length-range_from,
}
use graphed_executors.Prelude.Dict.{length-single, get}
use graphed_executors.Reduce.Tree.{
  level_size, node_value, level_size_top, level_size_pos, level_size_one_above,
}
use graphed_executors.Reduce.Fold.{tree_fold-nil, tree_fold, tree_fold-eq-node_value}
use graphed_executors.Reduce.Lazy.{LazyReducer, new, root_level, result, feed_all, lazy_tree_reduce}
use graphed_executors.Reduce.Lazy.Formed.{formed_all}
use graphed_executors.Reduce.Lazy.Parked.{is_parked, first_root}
use graphed_executors.Reduce.Lazy.Climb.{Settled}
use graphed_executors.Reduce.Lazy.Feed.{
  IsDelivery, delivered_by, deliveries, add_leaf, feed_all-Settled, new-Settled,
}

-- An order of distinct leaves below n, none of them in yet, is a delivery.
Nodup→IsDelivery :
    (n : ℕ) (fed : ℕ → Bool) (order : List ℕ)
    → ((x : ℕ) → Mem x order → (x < n) × (fed x ≡ false))
    → Nodup order
    → IsDelivery n fed order
Nodup→IsDelivery n fed [] h distinct = tt
Nodup→IsDelivery n fed (l ∷ order) h distinct = (
  (h l mem-cons_self).0,
  (h l mem-cons_self).1,
  Nodup→IsDelivery n (add_leaf l fed) order
      (λ x m.
        let other : x ≢ l = λ e. (Nodup-cons.0 distinct).0 (rw e at m) in
        let (inside, fresh) = h x (mem-cons_of_mem l m) in (inside, ground (arith, fresh)))
      (Nodup-cons.0 distinct).1,
)

delivered_by_mem :
    (fed : ℕ → Bool) (order : List ℕ) (x : ℕ) → fed x ≡ true → delivered_by fed order x ≡ true
delivered_by_mem fed [] x h = h
delivered_by_mem fed (l ∷ order) x h = delivered_by_mem (add_leaf l fed) order x (ground arith)

delivered_by-mem :
    (fed : ℕ → Bool) (order : List ℕ) (x : ℕ) → Mem x order → delivered_by fed order x ≡ true
delivered_by-mem fed [] x m = absurd (not-mem-nil m)
delivered_by-mem fed (l ∷ order) x m =
    Or.elim (Bool-set _ _) (mem-cons.0 m)
      (λ e. delivered_by_mem (add_leaf l fed) order x (ground arith))
      (delivered_by-mem (add_leaf l fed) order x)

-- range(n) holds exactly the numbers below n.
mem-range_from : (n start x : ℕ) → Mem x (range_from start n) ↔ ((start ≤ x) × (x < start + n))
mem-range_from zero start x = (λ m. absurd (not-mem-nil m), λ h. absurd (omega arith))
mem-range_from (suc n) start x = (
  λ m.
      Or.elim (hlevel le_prop) (mem-cons.0 m) (λ e. omega arith)
        (λ later.
          let h : (suc start ≤ x) × (x < suc start + n) =
            (mem-range_from n (suc start) x).0 later in
          omega arith),
  λ h. elim (Bool-cases (x == start)) [
    | inl e ↦ mem-cons.1 (Or.inl ((==_iff x start).0 e))
    | inr ne ↦
        mem-cons_of_mem start ((mem-range_from n (suc start) x).1 (ground arith, omega arith))
  ],
)

Nodup-range_from : (n start : ℕ) → Nodup (range_from start n)
Nodup-range_from zero start = Nodup-nil
Nodup-range_from (suc n) start = Nodup-cons.1 (
  λ m. absurd (omega (arith, ((mem-range_from n (suc start) start).0 m).0)),
  Nodup-range_from n (suc start),
)

-- Every leaf once, in any order, is a delivery, and brings all leaves in.
module _ (n : ℕ) (order : List ℕ) (all : Perm order (range_from 0 n)) where
  pub Perm→IsDelivery : IsDelivery n (λ x. false) order
  Perm→IsDelivery =
      Nodup→IsDelivery n (λ x. false) order
        (λ x m. (omega (arith, ((mem-range_from n 0 x).0 (Perm.subset all x m)).1), refl))
        (Perm.nodup (Perm.symm all) (Nodup-range_from n 0))

  pub Perm→delivered : (x : ℕ) → x < n → delivered_by (λ x. false) order x ≡ true
  Perm→delivered x h =
      delivered_by-mem (λ x. false) order x
        (Perm.subset (Perm.symm all) x ((mem-range_from n 0 x).1 (omega arith, omega arith)))

root_level-root :
    (n fuel level : ℕ)
    → 0 < n
    → level_size n (level + fuel) ≡ 1
    → first_root n level ≡ true
    → (level_size n (root_level fuel n level) ≡ 1) × (first_root n (root_level fuel n level) ≡ true)
unfolding root_level
root_level-root n zero level pos top first =
    let e : level + 0 ≡ level = omega arith in (rw e at top, first)
root_level-root n (suc fuel) level pos top first =
    let e : level + suc fuel ≡ suc level + fuel = omega arith in
    elim (Bool-cases (ltb 1 (level_size n level))) [
      | inl more ↦ rw more (root_level-root n fuel (suc level) pos (rw e at top) (ground arith))
      | inr done ↦ rw done (ground (arith, level_size_pos n level pos), first)
    ]

root_below : (n level : ℕ) → 0 < n → first_root n level ≡ true → level ≤ n
root_below n zero pos first = omega arith
root_below n (suc level) pos first =
    ground (arith, level_size_one_above n n level (level_size_top n pos))

root_above_root :
    (n low high : ℕ) → level_size n low ≡ 1 → first_root n high ≡ true → low < high → ⊥
root_above_root n low zero one first h = omega arith
root_above_root n low (suc high) one first h = ground (arith, level_size_one_above n low high one)

-- There is one root.
root_unique :
    (n a b : ℕ)
    → level_size n a ≡ 1
    → first_root n a ≡ true
    → level_size n b ≡ 1
    → first_root n b ≡ true
    → a ≡ b
root_unique n a b one_a first_a one_b first_b = grind (
  arith,
  λ (h : a < b). root_above_root n a b one_a first_b h,
  λ (h : b < a). root_above_root n b a one_b first_a h,
)

module _ {A : Type 0} (combine : A → A → A) (n : ℕ) (leaf : ℕ → A) where
  -- Above the root the value only carries up.
  node_value_above :
      (level above : ℕ)
      → level_size n level ≡ 1
      → level ≤ above
      → node_value combine n leaf above 0 ≡ node_value combine n leaf level 0
  unfolding node_value
  node_value_above level zero one h = let e : level ≡ 0 = omega arith in rw e
  node_value_above level (suc above) one h = elim (Bool-cases (level == suc above)) [
    | inl e ↦ let e' : level ≡ suc above = (==_iff _ _).0 e in rw e'
    | inr lower ↦
        ground (arith, level_size_one_above n level above one, node_value_above level above one)
  ]

  -- With every leaf in, the root stands on the frontier.
  root_value :
      (fed : ℕ → Bool) {count : ℕ} (r : LazyReducer A) (level : ℕ)
      → Settled combine n leaf fed count r
      → ((x : ℕ) → x < n → fed x ≡ true)
      → 0 < n
      → (level_size n level ≡ 1) × (first_root n level ≡ true)
      → get r.present (level, 0) ≡ some (node_value combine n leaf n 0)
  unfolding is_parked
  root_value fed r level s all pos (one, first) = ground (
    arith,
    s.holds.at level 0,
    formed_all n fed all level 0 (omega arith),
    node_value_above level n one,
    root_below n level pos first,
  )

  pub result-Settled :
      (fed : ℕ → Bool) {count : ℕ} (empty : A) (r : LazyReducer A)
      → Settled combine n leaf fed count r
      → ((x : ℕ) → x < n → fed x ≡ true)
      → 0 < n
      → result empty r ≡ some (node_value combine n leaf n 0)
  unfolding result
  result-Settled fed empty r s all pos =
      let some_leaf : (r.n == 0) ≡ false = ground (arith, s.size) in
      rw (some_leaf, result)
        (ap (λ t. get r.present (root_level t t 0, 0)) s.size
          ∙ root_value fed r (root_level n n 0) s all pos
              (root_level-root n n 0 pos (rw zero-add (level_size_top n pos)) refl))

  -- Nothing else stands there.
  alone :
      (fed : ℕ → Bool) {count : ℕ} (r : LazyReducer A)
      → Settled combine n leaf fed count r
      → ((x : ℕ) → x < n → fed x ≡ true)
      → 0 < n
      → (level pos : ℕ) {v : A} → get r.present (level, pos) ≡ some v
      → (level_size n level ≡ 1) × (first_root n level ≡ true) × (pos ≡ 0)
  unfolding is_parked
  alone fed r s all pos0 level pos found = ground (
    arith,
    s.holds.at level pos,
    formed_all n fed all level (pos + 1),
    formed_all n fed all level (pos - 1),
    level_size_pos n level pos0,
  )

  present_one :
      (fed : ℕ → Bool) {count : ℕ} (r : LazyReducer A)
      → Settled combine n leaf fed count r
      → ((x : ℕ) → x < n → fed x ≡ true)
      → 0 < n
      → length r.present ≡ 1
  present_one fed r s all pos =
      let root : (level_size n (root_level n n 0) ≡ 1) × (first_root n (root_level n n 0) ≡ true) =
        root_level-root n n 0 pos (rw zero-add (level_size_top n pos)) refl in
      length-single r.present (root_level n n 0, 0) s.unique
        (root_value fed r (root_level n n 0) s all pos root)
        λ (level, p) w found.
          let (one, first, zeroth) = alone fed r s all pos level p found in
          ap₂ (λ a b. (a, b)) (root_unique n level (root_level n n 0) one first root.0 root.1)
            zeroth

returns :
    {A : Type 0} (combine : A → A → A) (empty : A) (n : ℕ) (completed : List (ℕ × A))
    (r : LazyReducer A) (v : A)
    → 0 < n
    → feed_all combine (new n) completed ≡ some r
    → result empty r ≡ some v
    → lazy_tree_reduce n completed combine empty ≡ some (v, r.n_combines)
unfolding lazy_tree_reduce
returns combine empty n completed r v pos run value = ground arith

-- Whatever the order in which the leaves complete, the run returns the fold of the fixed tree, and
-- makes one combine less than there are leaves.
pub lazy_tree_reduce_any_order :
    {A : Type 0} (combine : A → A → A) (empty : A) (n : ℕ) (leaf : ℕ → A) (order : List ℕ)
    → Perm order (range_from 0 n)
    → lazy_tree_reduce n (deliveries leaf order) combine empty
      ≡ some (tree_fold combine empty (map leaf (range_from 0 n)), n - 1)
unfolding lazy_tree_reduce
lazy_tree_reduce_any_order combine empty zero leaf order all =
    rw (Perm.eq-nil all, tree_fold-nil combine empty) (unfold feed_all new in refl)
lazy_tree_reduce_any_order combine empty (suc m) leaf order all =
    let n : ℕ = suc m in
    let fed : ℕ → Bool = delivered_by (λ x. false) order in
    let (r, run, s) =
      feed_all-Settled combine n leaf (λ x. false) 0 order (new n) (new-Settled combine n leaf)
        (Perm→IsDelivery n order all) in
    let every : (x : ℕ) → x < n → fed x ≡ true = Perm→delivered n order all in
    let size : length order ≡ n = length-perm all ∙ length-range_from n 0 in
    let total : r.n_combines ≡ suc m - 1 =
      omega (arith, s.pieces, present_one combine n leaf fed r s every (omega arith), size) in
    let value : result empty r ≡ some (tree_fold combine empty (map leaf (range_from 0 n))) =
      result-Settled combine n leaf fed empty r s every (omega arith)
      ∙ ap some (sym (tree_fold-eq-node_value combine n leaf empty (omega arith))) in
    returns combine empty n (deliveries leaf order) r _ (omega arith) run value
    ∙ ap (λ k. some (tree_fold combine empty (map leaf (range_from 0 n)), k)) total
