-- ===== src/Tasks/Repartition/Content/Maps.antt =====
-- What the producers of a repartition write, put together again.
use mathlib.Core.List.{append_assoc, flatten}
use graphed_executors.Prelude.{
  ℕ, zero, suc, ◌<◌, ◌≡◌, refl, sym, ap, ◌∙◌, List, [], ◌∷◌, ◌++◌, Option, none, some, length, map,
  range_from, nat_eq, arith, get_elem?, Option-cases, inl, inr, Bool-cases, ◌==◌,
}
use graphed_executors.Prelude.Dict.{Dict, get}
use graphed_executors.Kernels.Backend.{Backend, ConcatLaws, WireLaws}
use graphed_executors.Kernels.Assign.{assign_partition}
use graphed_executors.Kernels.Coalesce.{pieces, block_of, coalesce_task}
use graphed_executors.Kernels.Coalesce.Content.{get-coalesce_task}
use graphed_executors.Tasks.Graph.{
  Site, MapOut, pick, present, select, wire_each, map_write, submit_each, submit_maps,
}

select-append :
    {A : Type 0} (blocks : List A) (xs ys : List ℕ) (zs : List A)
    → select blocks (xs ++ ys) ≡ some zs
    → (us : List A) × (vs : List A) × (select blocks xs ≡ some us)
      × (select blocks ys ≡ some vs)
      × (us ++ vs ≡ zs)
unfolding select
select-append blocks [] ys zs e = ([], zs, refl, e, refl)
select-append {A} blocks (x ∷ xs) ys zs e = elim (Option-cases (get_elem? blocks x)) [
  | inl out ↦ absurd (no_block out)
  | inr (block, here) ↦ elim (Option-cases (select blocks (xs ++ ys))) [
    | inl out ↦ absurd (no_rest out)
    | inr (rest, there) ↦
        let (us, vs, first, second, joined) = select-append blocks xs ys rest there in
        (
          block ∷ us,
          vs,
          rw (here, select) (rw (first, select) refl),
          second,
          ap (λ l. block ∷ l) joined ∙ all block rest here there,
        )
  ]
]
  where
    no_block : get_elem? blocks x ≡ none → ⊥
    no_block out = ground arith

    no_rest : select blocks (xs ++ ys) ≡ none → ⊥
    no_rest out = elim (Option-cases (get_elem? blocks x)) [
      | inl out' ↦ no_block out'
      | inr (block, here) ↦ ground arith
    ]

    all :
        (block : A) (rest : List A)
        → get_elem? blocks x ≡ some block
        → select blocks (xs ++ ys) ≡ some rest
        → block ∷ rest ≡ zs
    all block rest here there = ground arith

get_elem?-middle {ℓ} :
    {A : Type ℓ} (xs : List A) (y : A) (ys : List A) → get_elem? (xs ++ y ∷ ys) (length xs) ≡ some y
get_elem?-middle [] y ys = refl
get_elem?-middle (x ∷ xs) y ys = get_elem?-middle xs y ys

length-snoc {ℓ} : {A : Type ℓ} (xs : List A) (y : A) → length (xs ++ y ∷ []) ≡ suc (length xs)
length-snoc [] y = refl
length-snoc (x ∷ xs) y = ap suc (length-snoc xs y)

select-range :
    {A : Type 0} (before blocks : List A)
    → select (before ++ blocks) (range_from (length before) (length blocks)) ≡ some blocks
unfolding select
select-range before [] = refl
select-range {A} before (x ∷ blocks) =
    let here : get_elem? (before ++ x ∷ blocks) (length before) ≡ some x =
      get_elem?-middle before x blocks in
    let rest : select (before ++ x ∷ blocks) (range_from (suc (length before)) (length blocks))
        ≡ some blocks =
      rw (← length-snoc before x, ← append_assoc before (x ∷ []) blocks)
        (select-range {A = A} (before ++ x ∷ []) blocks) in
    rw (here, select) (rw (rest, select) refl)

abbrev wire_of : (b : Backend) → Option b.Block → Option b.Wire
wire_of b none = none
wire_of b (some block) = some (b.to_wire block)

module _ (b : Backend) (parts salt : ℕ) where
  -- The maps of the groups of blocks, in order.
  abbrev pub Produced : List (MapOut b) → List (List b.Block) → Type 0
  Produced [] [] = Unit
  Produced (mo ∷ outs) (mine ∷ groups) =
      ((site : Site) × (mo ≡ map_write b mine parts salt site)) × Produced outs groups
  Produced _ _ = ⊥

  none_left : {bs : List b.Block} → ◌≡◌ {A = Option (List b.Block)} (some []) (some bs) → [] ≡ bs
  none_left e = cc

  submit_each-Produced :
      (blocks bs : List b.Block) (site : ℕ → Site) (i : ℕ) (ranges : List (List ℕ))
      → select blocks (flatten ranges) ≡ some bs
      → (outs : List (MapOut b)) × (groups : List (List b.Block)) × (submit_each b blocks parts salt
            site i ranges
          ≡ some outs)
        × Produced outs groups
        × (flatten groups ≡ bs)
  unfolding submit_each flatten select
  submit_each-Produced blocks bs site i [] e = ([], [], refl, tt, none_left e)
  submit_each-Produced blocks bs site i (owned ∷ ranges) e =
      let (us, vs, first, rest, joined) = select-append blocks owned (flatten ranges) bs e in
      let (outs, groups, run, made, all) =
        submit_each-Produced blocks vs site (suc i) ranges rest in
      (
        map_write b us parts salt (site i) ∷ outs,
        us ∷ groups,
        rw (first, submit_each) (rw (run, submit_each) refl),
        ((site i, refl), made),
        ap (λ l. us ++ l) all ∙ joined,
      )

  get-wire_each :
      (d : Dict ℕ b.Block) (dest : ℕ) → get (wire_each b d) dest ≡ wire_of b (get d dest)
  unfolding wire_each get
  get-wire_each [] dest = refl
  get-wire_each ((k, v) ∷ d) dest = elim (Bool-cases (k == dest)) [
    | inl same ↦ rw same refl
    | inr other ↦ rw other (get-wire_each d dest)
  ]

  abbrev pub pieces_of : ℕ → List (List b.Block) → List (List b.Block)
  pieces_of dest groups = map (λ mine. pieces b mine parts salt dest) groups

  pieces-append :
      (dest : ℕ) (xs ys : List b.Block)
      → pieces b (xs ++ ys) parts salt dest
        ≡ pieces b xs parts salt dest ++ pieces b ys parts salt dest
  unfolding pieces
  pieces-append dest [] ys = refl
  pieces-append dest (x ∷ xs) ys = ground (arith, pieces-append dest xs ys)

  pub flatten-pieces :
      (dest : ℕ) (groups : List (List b.Block))
      → flatten (pieces_of dest groups) ≡ pieces b (flatten groups) parts salt dest
  unfolding flatten pieces
  flatten-pieces dest [] = refl
  flatten-pieces dest (mine ∷ groups) =
      ap (λ l. pieces b mine parts salt dest ++ l) (flatten-pieces dest groups)
      ∙ sym (pieces-append dest mine (flatten groups))

module _ (b : Backend) (laws : ConcatLaws b) where
  concat-present :
      (xs : List b.Block) (pss : List (List b.Block))
      → b.concat (xs ++ present (map (block_of b) pss)) ≡ b.concat (xs ++ flatten pss)
  unfolding present flatten
  concat-present xs [] = refl
  concat-present xs ([] ∷ pss) = concat-present xs pss
  concat-present xs ((p ∷ ps) ∷ pss) =
      laws.concat-append xs (p ∷ ps) (present (map (block_of b) pss))
      ∙ ap b.concat (sym (append_assoc xs (p ∷ ps) (present (map (block_of b) pss))))
      ∙ concat-present (xs ++ p ∷ ps) pss
      ∙ ap b.concat (append_assoc xs (p ∷ ps) (flatten pss))

  -- A concatenation of the groups that are there is that of all of them.
  pub block_of-present :
      (pss : List (List b.Block))
      → block_of b (present (map (block_of b) pss)) ≡ block_of b (flatten pss)
  unfolding present flatten
  block_of-present [] = refl
  block_of-present ([] ∷ pss) = block_of-present pss
  block_of-present ((p ∷ ps) ∷ pss) = ap some (
      laws.concat-append [] (p ∷ ps) (present (map (block_of b) pss)) ∙ concat-present (p ∷ ps) pss)

from_pick :
    (b : Backend) (wire : WireLaws b) (o : Option b.Block) (ws : List (Option b.Wire))
    (xs : List (Option b.Block))
    → map b.from_wire (present ws) ≡ present xs
    → map b.from_wire (present (wire_of b o ∷ ws)) ≡ present (o ∷ xs)
unfolding present
from_pick b wire none ws xs e = e
from_pick b wire (some block) ws xs e =
    ap (λ x. x ∷ map b.from_wire (present ws)) (wire.from-to block) ∙ ap (λ l. block ∷ l) e

pick-map_write :
    (b : Backend) (parts salt : ℕ) (mine : List b.Block) (site : Site) (dest : ℕ)
    → dest < parts
    → pick b (map_write b mine parts salt site) dest
      ≡ wire_of b (block_of b (pieces b mine parts salt dest))
unfolding pick map_write
pick-map_write b parts salt mine site dest h =
    get-wire_each b parts salt (coalesce_task b mine parts salt).0 dest
    ∙ ap (wire_of b) (get-coalesce_task b mine parts salt dest h)

-- The picks for a destination, off the wire, are the blocks of the groups that have one.
pub present-picks :
    (b : Backend) (parts salt : ℕ) (wire : WireLaws b) (outs : List (MapOut b))
    (groups : List (List b.Block)) (dest : ℕ)
    → Produced b parts salt outs groups
    → dest < parts
    → map b.from_wire (present (map (λ mo. pick b mo dest) outs))
      ≡ present (map (block_of b) (pieces_of b parts salt dest groups))
unfolding present
present-picks b parts salt wire [] [] dest made h = refl
present-picks b parts salt wire (mo ∷ outs) (mine ∷ groups) dest ((site, e), made) h =
    ap (λ w. map b.from_wire (present (w ∷ map (λ mo. pick b mo dest) outs)))
      (ap (λ mo. pick b mo dest) e ∙ pick-map_write b parts salt mine site dest h)
    ∙ from_pick b wire (block_of b (pieces b mine parts salt dest)) _ _
        (present-picks b parts salt wire outs groups dest made h)
present-picks b parts salt wire [] (mine ∷ groups) dest made h = absurd made
present-picks b parts salt wire (mo ∷ outs) [] dest made h = absurd made

-- The producers cover the source blocks in order.
pub submit_maps-Produced :
    (b : Backend) (parts salt : ℕ) (blocks : List b.Block) (t : ℕ) (site : ℕ → Site)
    → 0 < t
    → (outs : List (MapOut b)) × (groups : List (List b.Block)) × (submit_maps b blocks parts salt t
          site
        ≡ some outs)
      × Produced b parts salt outs groups
      × (flatten groups ≡ blocks)
unfolding submit_maps
submit_maps-Produced b parts salt blocks (suc t) site pos =
    let (ranges, run, count, cover, sizes) = assign_partition (length blocks) (suc t) pos in
    let e : select blocks (flatten ranges) ≡ some blocks =
      ap (select blocks) cover ∙ select-range [] blocks in
    let (outs, groups, runs, made, all) =
      submit_each-Produced b parts salt blocks blocks site 0 ranges e in
    (outs, groups, ground (arith, run, runs), made, all)
submit_maps-Produced b parts salt blocks zero site pos = absurd (omega arith)
