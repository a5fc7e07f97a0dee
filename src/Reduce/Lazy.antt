-- ===== src/Reduce/Lazy.antt =====
-- LazyReducer and lazy_tree_reduce of local/_reduce.py. `calls` is the trace of on_combine.
mod Formed
mod Parked
mod Frontier
mod Climb
pub mod Feed
pub mod Order
use graphed_executors.Prelude.{
  ℕ, zero, suc, ◌+◌, ◌-◌, ◌*◌, ◌^◌, ◌/◌, ◌%◌, Option, none, some, List, [], ◌∷◌, ◌++◌, length, ltb,
  leb, ◌==◌, if◌then◌else◌, ◌≡◌, refl, node_eq,
}
use graphed_executors.Prelude.Dict.{Dict, get, put, pop}
use graphed_executors.Reduce.Tree.{level_size}

pub record LazyReducer {ℓ} (A : Type ℓ) : Type ℓ where
  pub n : ℕ
  pub present : Dict (ℕ × ℕ) A
  pub n_combines : ℕ
  pub delivered : ℕ
  pub max_frontier : ℕ
  pub calls : List ℕ

-- How one round of the loop of `feed` ends: by `break`, or with the value of the parent node.
pub data Round {ℓ} (A : Type ℓ) : Type ℓ where
  stop : LazyReducer A → Round A
  up : LazyReducer A → A → Round A

module _ {ℓ} {A : Type ℓ} where
  unfoldable pub new : ℕ → LazyReducer A
  new n = record {
    n = n;
    present = [];
    n_combines = 0;
    delivered = 0;
    max_frontier = 0;
    calls = [];
  }

  abbrev pub park : LazyReducer A → ℕ → ℕ → A → LazyReducer A
  park r level pos value = record r { present = put r.present (level, pos) value }

module _ {ℓ} {A : Type ℓ} (combine : A → A → A) where
  -- present.pop((level, sib), _MISSING), and what follows it
  unfoldable pub meet : LazyReducer A → ℕ → ℕ → A → ℕ → Round A
  meet r level pos value sib = elim (get r.present (level, sib)) [
    | none ↦ stop (park r level pos value)
    | some other ↦
        up
          (record r {
            present = pop r.present (level, sib);
            n_combines = r.n_combines + 1;
            calls = r.calls ++ r.delivered ∷ [];
          })
          (if pos % 2 == 0 then combine value other else combine other value)
  ]

  unfoldable pub round : LazyReducer A → ℕ → ℕ → A → Round A
  round r level pos value =
      if level_size r.n level == 1
      then stop (park r level pos value)
      else if pos % 2 == 0
      then (if leb (level_size r.n level) (pos + 1)
          then up r value
          else meet r level pos value (pos + 1))
      else meet r level pos value (pos - 1)

  -- The loop of `feed`, on fuel: none if the fuel runs out.
  unfoldable pub bubble : ℕ → LazyReducer A → ℕ → ℕ → A → Option (LazyReducer A)
  bubble zero r level pos value = none
  bubble (suc fuel) r level pos value = elim (round r level pos value) [
    | stop r' ↦ some r'
    | up r' value' ↦ bubble fuel r' (suc level) (pos / 2) value'
  ]

  abbrev note_frontier : LazyReducer A → LazyReducer A
  note_frontier r =
      if ltb r.max_frontier (length r.present)
      then record r { max_frontier = length r.present }
      else r

  unfoldable pub feed_at : LazyReducer A → ℕ → A → ℕ → Option (LazyReducer A)
  feed_at r leaf value level =
      elim (bubble (suc r.n) (record r { delivered = r.delivered + 1 }) level leaf value) [
        | none ↦ none
        | some r' ↦ some (note_frontier r')
      ]

  unfoldable pub feed : LazyReducer A → ℕ → A → Option (LazyReducer A)
  unfolding feed_at
  feed r leaf value = feed_at r leaf value 0

  -- for leaf, value in completed: reducer.feed(leaf, value)
  unfoldable pub feed_all : LazyReducer A → List (ℕ × A) → Option (LazyReducer A)
  feed_all r [] = some r
  feed_all r ((leaf, value) ∷ completed) = elim (feed r leaf value) [
    | none ↦ none
    | some r' ↦ feed_all r' completed
  ]

-- The loop of `result`: the first level of size one, from `level` on.
unfoldable pub root_level : ℕ → ℕ → ℕ → ℕ
root_level zero n level = level
root_level (suc fuel) n level =
    let next = root_level fuel n (suc level) in if ltb 1 (level_size n level) then next else level

-- sorted(..., key=first leaf), which is stable.
unfoldable pub insert_leaf {ℓ} : {A : Type ℓ} → ℕ × A → List (ℕ × A) → List (ℕ × A)
insert_leaf p [] = p ∷ []
insert_leaf p (q ∷ qs) = let rest = insert_leaf p qs in if leb p.0 q.0 then p ∷ q ∷ qs else q ∷ rest

unfoldable pub frontier_from {ℓ} : {A : Type ℓ} → Dict (ℕ × ℕ) A → List (ℕ × A)
unfolding insert_leaf
frontier_from [] = []
frontier_from (((level, pos), value) ∷ present) =
    insert_leaf (pos * 2 ^ level, value) (frontier_from present)

unfoldable pub frontier {ℓ} : {A : Type ℓ} → LazyReducer A → List (ℕ × A)
unfolding frontier_from
frontier r = frontier_from r.present

module _ {ℓ} {A : Type ℓ} (empty : A) where
  unfoldable pub result : LazyReducer A → Option A
  unfolding root_level
  result r = if r.n == 0 then some empty else get r.present (root_level r.n r.n 0, 0)

unfoldable pub lazy_tree_reduce {ℓ} :
    {A : Type ℓ} → ℕ → List (ℕ × A) → (A → A → A) → A → Option (A × ℕ)
unfolding feed_all result new
lazy_tree_reduce n completed combine empty = elim (feed_all combine (new n) completed) [
  | none ↦ none
  | some r ↦ elim (if n == 0 then some empty else result empty r) [
    | none ↦ none
    | some v ↦ some (v, r.n_combines)
  ]
]
