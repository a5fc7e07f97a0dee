-- ===== src/Reduce/Plan.antt =====
-- plan_tree of local/_reduce.py, and what running its combines in order computes.
use graphed_executors.Prelude.{
  ℕ, zero, suc, ◌+◌, ◌-◌, ◌/◌, ◌<◌, ◌≤◌, ◌≡◌, refl, sym, ap, ap₂, ◌∙◌, List, [], ◌∷◌, ◌++◌, Option,
  none, some, length, map, range_from, length-range_from, length-append, length-map, All, arith,
  ◌==◌, if◌then◌else◌,
}
use graphed_executors.Reduce.Fold.{pair_up, level_values, tree_fold}

-- One combine: the result node, and its left and right inputs.
pub record Combine : Type 0 where
  pub out : ℕ
  pub a : ℕ
  pub b : ℕ

pub record Paired : Type 0 where
  pub combines : List Combine
  pub nxt : List ℕ
  pub next_id : ℕ

-- The inner loop, from level[i:] on.
unfoldable pub pair_level : ℕ → List ℕ → Paired
pair_level next_id (a ∷ b ∷ level) =
    let rest = pair_level (suc next_id) level in
    record {
      combines = record { out = next_id; a = a; b = b } ∷ rest.combines;
      nxt = next_id ∷ rest.nxt;
      next_id = rest.next_id;
    }
pair_level next_id (a ∷ []) = record { combines = []; nxt = a ∷ []; next_id = next_id }
pair_level next_id [] = record { combines = []; nxt = []; next_id = next_id }

-- The outer loop, on fuel: the root is none if the fuel runs out, or there is no leaf.
unfoldable pub plan_levels : ℕ → ℕ → List ℕ → List Combine × Option ℕ
plan_levels fuel next_id [] = ([], none)
plan_levels fuel next_id (root ∷ []) = ([], some root)
plan_levels zero next_id (a ∷ b ∷ level) = ([], none)
plan_levels (suc fuel) next_id (a ∷ b ∷ level) =
    let paired = pair_level next_id (a ∷ b ∷ level) in
    let rest = plan_levels fuel paired.next_id paired.nxt in (paired.combines ++ rest.0, rest.1)

unfoldable pub plan_tree : ℕ → List Combine × Option ℕ
unfolding plan_levels pair_level
plan_tree zero = ([], none)
plan_tree (suc m) = plan_levels (suc m) (suc m) (range_from 0 (suc m))

plan_tree_five :
    plan_tree 3 ≡ (record { out = 3; a = 0; b = 1 } ∷ record { out = 4; a = 3; b = 2 } ∷ [], some 4)
unfolding plan_tree
plan_tree_five = refl

-- A value for each node.
module _ {ℓ} {A : Type ℓ} (combine : A → A → A) where
  abbrev pub set_node : (ℕ → A) → ℕ → A → ℕ → A
  set_node env out v x = if x == out then v else env x

  -- futs[out] = combine(futs[a], futs[b]), in the order of the list.
  unfoldable pub run_combines : List Combine → (ℕ → A) → ℕ → A
  run_combines [] env = env
  run_combines (c ∷ cs) env = run_combines cs (set_node env c.out (combine (env c.a) (env c.b)))

  run_combines-append :
      (cs ds : List Combine) (env : ℕ → A)
      → run_combines (cs ++ ds) env ≡ run_combines ds (run_combines cs env)
  unfolding run_combines
  run_combines-append [] ds env = refl
  run_combines-append (c ∷ cs) ds env = run_combines-append cs ds _

abbrev Below : ℕ → List ℕ → Type 0
Below next_id level = All (λ x. x < next_id) level

Below-mono : (m n : ℕ) (level : List ℕ) → m ≤ n → Below m level → Below n level
Below-mono m n [] h b = tt
Below-mono m n (x ∷ level) h (x_below, b) = (omega arith, Below-mono m n level h b)

pair_level-next_id-le :
    (next_id : ℕ) (level : List ℕ) → next_id ≤ (pair_level next_id level).next_id
unfolding pair_level
pair_level-next_id-le next_id [] = omega arith
pair_level-next_id-le next_id (a ∷ []) = omega arith
pair_level-next_id-le next_id (a ∷ b ∷ level) =
    omega (arith, pair_level-next_id-le (suc next_id) level)

pair_level-Below :
    (m next_id : ℕ) (level : List ℕ)
    → m ≤ next_id
    → Below m level
    → Below ((pair_level next_id level).next_id) ((pair_level next_id level).nxt)
unfolding pair_level
pair_level-Below m next_id [] le h = tt
pair_level-Below m next_id (a ∷ []) le h = omega arith
pair_level-Below m next_id (a ∷ b ∷ level) le h = (
  omega (arith, pair_level-next_id-le (suc next_id) level),
  pair_level-Below m (suc next_id) level (omega arith) h.1.1,
)

module _ {A : Type 0} (combine : A → A → A) where
  -- Nodes below the next id keep their values, and the new level's values are those of the pairs.
  pair_level_old :
      (next_id : ℕ) (level : List ℕ) (env : ℕ → A) (x : ℕ)
      → x < next_id
      → run_combines combine (pair_level next_id level).combines env x ≡ env x
  unfolding pair_level run_combines
  pair_level_old next_id [] env x h = refl
  pair_level_old next_id (a ∷ []) env x h = refl
  pair_level_old next_id (a ∷ b ∷ level) env x h =
      pair_level_old (suc next_id) level _ x (omega arith) ∙ ground arith

  map_agree :
      (m : ℕ) (level : List ℕ) (env env' : ℕ → A)
      → ((x : ℕ) → x < m → env' x ≡ env x)
      → Below m level
      → map env' level ≡ map env level
  map_agree m [] env env' same h = refl
  map_agree m (x ∷ level) env env' same h =
      ap₂ ◌∷◌ (same x h.0) (map_agree m level env env' same h.1)

  pair_level_values :
      (m next_id : ℕ) (level : List ℕ) (env : ℕ → A)
      → m ≤ next_id
      → Below m level
      → map
          (run_combines combine (pair_level next_id level).combines env)
          (pair_level next_id level).nxt
        ≡ pair_up combine (map env level)
  unfolding pair_level run_combines pair_up
  pair_level_values m next_id [] env le h = refl
  pair_level_values m next_id (a ∷ []) env le h = refl
  pair_level_values m next_id (a ∷ b ∷ level) env le h =
      let env' : ℕ → A = set_node combine env next_id (combine (env a) (env b)) in
      ap₂ ◌∷◌ (pair_level_old (suc next_id) level env' next_id (omega arith) ∙ ground arith) (
        pair_level_values m (suc next_id) level env' (omega arith) h.1.1
        ∙ ap (pair_up combine) (map_agree m level env env' (λ x below. ground arith) h.1.1))

length-pair_level :
    (next_id : ℕ) (level : List ℕ)
    → length (pair_level next_id level).combines + length (pair_level next_id level).nxt
      ≡ length level
unfolding pair_level
length-pair_level next_id [] = omega arith
length-pair_level next_id (a ∷ []) = omega arith
length-pair_level next_id (a ∷ b ∷ level) = omega (arith, length-pair_level (suc next_id) level)

length-nxt :
    (next_id : ℕ) (level : List ℕ) → length (pair_level next_id level).nxt ≡ (length level + 1) / 2
unfolding pair_level
length-nxt next_id [] = omega arith
length-nxt next_id (a ∷ []) = omega arith
length-nxt next_id (a ∷ b ∷ level) = omega (arith, length-nxt (suc next_id) level)

level_values-single {ℓ} :
    {A : Type ℓ} (combine : A → A → A) (k : ℕ) (x : A) → level_values combine k (x ∷ []) ≡ x ∷ []
unfolding level_values pair_up
level_values-single combine zero x = refl
level_values-single combine (suc k) x = level_values-single combine k x

-- What a plan is to do: its root's value is the only one left of the level's.
record Plans {A : Type 0} (combine : A → A → A) (fuel : ℕ) (level : List ℕ) (env : ℕ → A)
    (plan : List Combine × Option ℕ) : Type 0 where
  root : ℕ
  root_is : plan.1 ≡ some root
  value : level_values combine fuel (map env level) ≡ run_combines combine plan.0 env root ∷ []
  size : length plan.0 + 1 ≡ length level

module _ {A : Type 0} (combine : A → A → A) where
  plan_levels-Plans :
      (fuel next_id : ℕ) (level : List ℕ) (env : ℕ → A)
      → 0 < length level
      → length level ≤ suc fuel
      → Below next_id level
      → Plans combine fuel level env (plan_levels fuel next_id level)
  unfolding plan_levels run_combines level_values
  plan_levels-Plans fuel next_id [] env pos enough h = absurd (omega arith)
  plan_levels-Plans fuel next_id (root ∷ []) env pos enough h = record {
    root = root;
    root_is = refl;
    value = level_values-single combine fuel (env root);
    size = refl;
  }
  plan_levels-Plans zero next_id (a ∷ b ∷ level) env pos enough h = absurd (omega arith)
  plan_levels-Plans (suc fuel) next_id (a ∷ b ∷ level) env pos enough h =
      let paired : Paired = pair_level next_id (a ∷ b ∷ level) in
      let env' : ℕ → A = run_combines combine paired.combines env in
      let rest : Plans combine fuel paired.nxt env' (plan_levels fuel paired.next_id paired.nxt) =
        plan_levels-Plans fuel paired.next_id paired.nxt env'
          (omega (arith, length-nxt next_id (a ∷ b ∷ level)))
          (omega (arith, length-nxt next_id (a ∷ b ∷ level)))
          (pair_level-Below next_id next_id (a ∷ b ∷ level) (omega arith) h) in
      record {
        root = rest.root;
        root_is = rest.root_is;
        value =
            ap (level_values combine fuel)
              (sym (pair_level_values combine next_id next_id (a ∷ b ∷ level) env (omega arith) h))
            ∙ rest.value
            ∙ ap (λ (end : ℕ → A). end rest.root ∷ [])
                (sym (
                  run_combines-append combine paired.combines
                    (plan_levels fuel paired.next_id paired.nxt).0 env));
        size = omega (
          arith,
          length-append paired.combines (plan_levels fuel paired.next_id paired.nxt).0,
          length-pair_level next_id (a ∷ b ∷ level),
          rest.size,
        );
      }

range_from-Below : (m n start : ℕ) → start + n ≤ m → Below m (range_from start n)
range_from-Below m zero start h = tt
range_from-Below m (suc n) start h = (omega arith, range_from-Below m n (suc start) (omega arith))

root_of :
    {A : Type 0} (x : A) (xs : List A) (empty : A)
    → xs ≡ x ∷ []
    → ◌≡◌ {A = A} x (elim xs [ [] ↦ empty | y ∷ _ ↦ y ])
root_of x [] empty h = cc
root_of x (y ∷ xs) empty h = cc

-- A plan over n > 0 leaves has a root and n - 1 combines, and running them in order leaves the
-- tree's fold of the leaves at the root.
pub plan_tree-tree_fold :
    {A : Type 0} (combine : A → A → A) (empty : A) (n : ℕ) (leaf : ℕ → A)
    → 0 < n
    → (root : ℕ) × ((plan_tree n).1 ≡ some root)
      × (run_combines combine (plan_tree n).0 leaf root
          ≡ tree_fold combine empty (map leaf (range_from 0 n)))
      × (length (plan_tree n).0 ≡ n - 1)
unfolding plan_tree tree_fold
plan_tree-tree_fold combine empty (suc m) leaf pos =
    let n : ℕ = suc m in
    let leaves : List ℕ = range_from 0 n in
    let size : length leaves ≡ n = length-range_from n 0 in
    let plan : Plans combine n leaves leaf (plan_levels n n leaves) =
      plan_levels-Plans combine n n leaves leaf (omega (arith, size)) (omega (arith, size))
        (range_from-Below n n 0 (omega arith)) in
    (
      plan.root,
      plan.root_is,
      rw (length-map leaf leaves ∙ size, tree_fold)
          (root_of (run_combines combine (plan_levels n n leaves).0 leaf plan.root)
            (level_values combine n (map leaf leaves)) empty plan.value),
      omega (arith, plan.size, size),
    )
plan_tree-tree_fold combine empty zero leaf pos = absurd (omega arith)
