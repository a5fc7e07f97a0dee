-- ===== src/Reduce/Eager.antt =====
-- TreeProgress and tree_reduce of local/_reduce.py: the tree with its combine list built first.
use graphed_executors.Prelude.{
  ℕ, zero, suc, ◌+◌, List, [], ◌∷◌, ◌++◌, Option, none, some, length, get_elem?, range_from, ◌==◌,
  if◌then◌else◌, nat_eq, ◌≡◌, refl,
}
use graphed_executors.Prelude.Dict.{Dict, get, put, pop}
use graphed_executors.Reduce.Plan.{Combine, plan_tree}

-- `waiting` and `remaining`: the combines that a node goes into, and what a combine still needs.
pub record Needs : Type 0 where
  pub waiting : Dict ℕ (List ℕ)
  pub remaining : Dict ℕ (List ℕ)

abbrev pub list_at : Dict ℕ (List ℕ) → ℕ → List ℕ
list_at d k = elim (get d k) [ none ↦ [] | some xs ↦ xs ]

-- waiting.setdefault(node, []).append(ci)
abbrev pub await_node : Dict ℕ (List ℕ) → ℕ → ℕ → Dict ℕ (List ℕ)
await_node waiting node ci = put waiting node (list_at waiting node ++ ci ∷ [])

-- for ci, (_out, a, b) in enumerate(combines)
unfoldable pub needs_from : Needs → ℕ → List Combine → Needs
needs_from s ci [] = s
needs_from s ci (c ∷ combines) =
    needs_from
      (record {
        waiting = await_node (await_node s.waiting c.a ci) c.b ci;
        remaining = put s.remaining ci (c.a ∷ c.b ∷ []);
      })
      (suc ci) combines

-- remaining[ci].discard(node)
unfoldable pub discard : List ℕ → ℕ → List ℕ
discard [] node = []
discard (x ∷ xs) node = let rest = discard xs node in if x == node then rest else x ∷ rest

-- The combines of `cis` that the node completes, in order, and what remains.
unfoldable pub fire_ready : Dict ℕ (List ℕ) → ℕ → List ℕ → Dict ℕ (List ℕ) × List ℕ
unfolding discard
fire_ready remaining node [] = (remaining, [])
fire_ready remaining node (ci ∷ cis) =
    let left = discard (list_at remaining ci) node in
    let (after, fired) = fire_ready (put remaining ci left) node cis in
    (after, elim left [ [] ↦ ci ∷ fired | _ ∷ _ ↦ fired ])

-- work.append of each, with the end of `work` first.
abbrev pub push_all : List ℕ → List ℕ → List ℕ
push_all [] work = work
push_all (ci ∷ fired) work = push_all fired (ci ∷ work)

pub record Eager (A : Type 0) : Type 0 where
  pub ready : Dict ℕ A
  pub remaining : Dict ℕ (List ℕ)
  pub n_combines : ℕ
  pub calls : List ℕ

module _ {A : Type 0} (combine : A → A → A) (combines : List Combine)
    (waiting : Dict ℕ (List ℕ)) where
  -- combine(ready[a], ready[b]): none where one is not ready.
  abbrev pub both_ready : Option A → Option A → Option A
  both_ready (some x) (some y) = some (combine x y)
  both_ready (some x) none = none
  both_ready none y = none

  -- while work, on fuel: none if the fuel runs out, or an input is not ready.
  unfoldable pub work_loop : ℕ → Eager A → ℕ → List ℕ → Option (Eager A)
  unfolding fire_ready
  work_loop fuel s delivered [] = some s
  work_loop zero s delivered (ci ∷ work) = none
  work_loop (suc fuel) s delivered (ci ∷ work) = elim (get_elem? combines ci) [
    | none ↦ none
    | some c ↦ elim (both_ready (get s.ready c.a) (get s.ready c.b)) [
      | none ↦ none
      | some value ↦
          let (remaining, fired) = fire_ready s.remaining c.out (list_at waiting c.out) in
          work_loop fuel
            (record {
              ready = put s.ready c.out value;
              remaining = remaining;
              n_combines = s.n_combines + 1;
              calls = s.calls ++ delivered ∷ [];
            })
            delivered (push_all fired work)
    ]
  ]

  -- for leaves_delivered, (leaf, value) in enumerate(completed, start=1)
  unfoldable pub deliver_all : Eager A → ℕ → List (ℕ × A) → Option (Eager A)
  unfolding work_loop
  deliver_all s delivered [] = some s
  deliver_all s delivered ((leaf, value) ∷ completed) =
      let (remaining, fired) = fire_ready s.remaining leaf (list_at waiting leaf) in
      elim (work_loop (length combines)
        (record s { ready = put s.ready leaf value; remaining = remaining }) delivered
        (push_all fired [])) [ none ↦ none | some s' ↦ deliver_all s' (suc delivered) completed ]

-- The value of the root, the number of combines and the trace of on_combine.
unfoldable pub tree_reduce :
    {A : Type 0} → ℕ → List (ℕ × A) → (A → A → A) → A → Option (A × ℕ × List ℕ)
unfolding deliver_all needs_from
tree_reduce {A} n completed combine empty =
    let (combines, top) = plan_tree n in
    let needs = needs_from (record { waiting = []; remaining = [] }) 0 combines in
    let start : Eager A = record {
      ready = [];
      remaining = needs.remaining;
      n_combines = 0;
      calls = [];
    } in
    elim top [
      | none ↦ some (empty, 0, [])
      | some root ↦ elim (deliver_all combine combines needs.waiting start 1 completed) [
        | none ↦ none
        | some s ↦ elim (get s.ready root) [
          | none ↦ none
          | some value ↦ some (value, s.n_combines, s.calls)
        ]
      ]
    ]

tree_reduce_test :
    tree_reduce {A = List ℕ} 3 ((2, 3 ∷ []) ∷ (0, 1 ∷ []) ∷ (1, 2 ∷ []) ∷ []) ◌++◌ []
    ≡ some (1 ∷ 2 ∷ 3 ∷ [], 2, 3 ∷ 3 ∷ [])
unfolding tree_reduce plan_tree get put
tree_reduce_test = refl

pub record TreeProgress (A : Type 0) : Type 0 where
  pub combines : List Combine
  pub first : List ℕ
  pub ready : Dict ℕ A
  pub waiting : Dict ℕ (List ℕ)
  pub remaining : Dict ℕ (List ℕ)

-- self.first.append(self.first[a]): none where it raises.
unfoldable pub first_leaves : List ℕ → List Combine → Option (List ℕ)
first_leaves first [] = some first
first_leaves first (c ∷ combines) = elim (get_elem? first c.a) [
  | none ↦ none
  | some leaf ↦ first_leaves (first ++ leaf ∷ []) combines
]

module _ {A : Type 0} where
  unfoldable pub new_progress : ℕ → Option (TreeProgress A)
  unfolding needs_from first_leaves
  new_progress n =
      let combines = (plan_tree n).0 in
      let needs = needs_from (record { waiting = []; remaining = [] }) 0 combines in
      elim (first_leaves (range_from 0 n) combines) [
        | none ↦ none
        | some first ↦ some (record {
          combines = combines;
          first = first;
          ready = [];
          waiting = needs.waiting;
          remaining = needs.remaining;
        })
      ]

  -- (out, left, right) of the fired combines, whose inputs leave `ready`.
  unfoldable pub take_inputs :
      List Combine → Dict ℕ A → List ℕ → Option (Dict ℕ A × List (ℕ × A × A))
  take_inputs combines ready [] = some (ready, [])
  take_inputs combines ready (ci ∷ fired) = elim (get_elem? combines ci) [
    | none ↦ none
    | some c ↦ elim (get ready c.a) [
      | none ↦ none
      | some left ↦ elim (get (pop ready c.a) c.b) [
        | none ↦ none
        | some right ↦ elim (take_inputs combines (pop (pop ready c.a) c.b) fired) [
          | none ↦ none
          | some (after, readied) ↦ some (after, (c.out, left, right) ∷ readied)
        ]
      ]
    ]
  ]

  unfoldable pub complete : TreeProgress A → ℕ → A → Option (TreeProgress A × List (ℕ × A × A))
  unfolding fire_ready take_inputs
  complete p node value =
      let (remaining, fired) = fire_ready p.remaining node (list_at p.waiting node) in
      elim (take_inputs p.combines (put p.ready node value) fired) [
        | none ↦ none
        | some (ready, readied) ↦ some (record p { ready = ready; remaining = remaining }, readied)
      ]
