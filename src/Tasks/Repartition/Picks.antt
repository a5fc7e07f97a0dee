-- ===== src/Tasks/Repartition/Picks.antt =====
-- The two engines hand the same picks to every gather.
use graphed_executors.Prelude.{
  ℕ, zero, suc, ◌+◌, ◌<◌, ◌≤◌, ◌≡◌, ◌≢◌, refl, ◌∙◌, List, [], ◌∷◌, Option, some, length, map, true,
  false, range_from, node_eq, nat_eq, arith, ◌==◌, ==_iff, Bool-cases, inl, inr,
}
use graphed_executors.Prelude.Dict.{Dict, get, put, get-put}
use graphed_executors.Kernels.Backend.{Backend}
use graphed_executors.Tasks.Graph.{MapOut, pick, pick_row, pick_rows, column, picks_for}

module _ (b : Backend) where
  abbrev Picks : Type 0
  Picks = Dict (ℕ × ℕ) (Option b.Wire)

  pick_row-keeps :
      (picks : Picks) (i j dest : ℕ) (mo : MapOut b) (dests : List ℕ)
      → j ≢ i
      → get (pick_row b picks i mo dests) (j, dest) ≡ get picks (j, dest)
  unfolding pick_row
  pick_row-keeps picks i j dest mo [] ne = refl
  pick_row-keeps picks i j dest mo (d ∷ dests) ne =
      pick_row-keeps (put picks (i, d) (pick b mo d)) i j dest mo dests ne
      ∙ ground (arith, get-put picks (i, d) (j, dest) (pick b mo d), ne)

  pick_row-below :
      (picks : Picks) (i dest : ℕ) (mo : MapOut b) (n start : ℕ)
      → dest < start
      → get (pick_row b picks i mo (range_from start n)) (i, dest) ≡ get picks (i, dest)
  unfolding pick_row
  pick_row-below picks i dest mo zero start low = refl
  pick_row-below picks i dest mo (suc n) start low =
      pick_row-below (put picks (i, start) (pick b mo start)) i dest mo n (suc start) (omega arith)
      ∙ ground (arith, get-put picks (i, start) (i, dest) (pick b mo start))

  get-pick_row :
      (picks : Picks) (i dest : ℕ) (mo : MapOut b) (n start : ℕ)
      → start ≤ dest
      → dest < start + n
      → get (pick_row b picks i mo (range_from start n)) (i, dest) ≡ some (pick b mo dest)
  unfolding pick_row
  get-pick_row picks i dest mo zero start lo hi = absurd (omega arith)
  get-pick_row picks i dest mo (suc n) start lo hi = elim (Bool-cases (start == dest)) [
    | inl same ↦
        let eq : start ≡ dest = (==_iff start dest).0 same in
        pick_row-below (put picks (i, start) (pick b mo start)) i dest mo n (suc start)
          (omega arith)
        ∙ get-put picks (i, start) (i, dest) (pick b mo start)
        ∙ rw (← eq) (ground arith)
    | inr other ↦
        get-pick_row (put picks (i, start) (pick b mo start)) i dest mo n (suc start) (ground arith)
          (omega arith)
  ]

  pick_rows-keeps :
      (picks : Picks) (i j dest : ℕ) (outs : List (MapOut b)) (parts : ℕ)
      → j < i
      → get (pick_rows b picks i outs parts) (j, dest) ≡ get picks (j, dest)
  unfolding pick_rows
  pick_rows-keeps picks i j dest [] parts low = refl
  pick_rows-keeps picks i j dest (mo ∷ outs) parts low =
      pick_rows-keeps (pick_row b picks i mo (range_from 0 parts)) (suc i) j dest outs parts
        (omega arith)
      ∙ pick_row-keeps picks i j dest mo (range_from 0 parts) (λ e. omega (arith, e))

  column-pick_rows :
      (picks : Picks) (i dest : ℕ) (outs : List (MapOut b)) (parts : ℕ)
      → dest < parts
      → column b (pick_rows b picks i outs parts) dest (range_from i (length outs))
        ≡ some (map (λ mo. pick b mo dest) outs)
  unfolding pick_rows column
  column-pick_rows picks i dest [] parts h = refl
  column-pick_rows picks i dest (mo ∷ outs) parts h =
      let first : get (pick_rows b picks i (mo ∷ outs) parts) (i, dest) ≡ some (pick b mo dest) =
        pick_rows-keeps (pick_row b picks i mo (range_from 0 parts)) (suc i) i dest outs parts
          (omega arith)
        ∙ get-pick_row picks i dest mo parts 0 (omega arith) (omega arith) in
      rw (first, column)
        (rw
          (
            column-pick_rows (pick_row b picks i mo (range_from 0 parts)) (suc i) dest outs parts h,
            column,
          )
          refl)

  -- For a destination below `parts` the peer engine, which submits a pick for each producer and
  -- destination, and the relay, which picks on the driver, give a gather the same picks.
  pub picks_for_same :
      (outs : List (MapOut b)) (parts dest : ℕ)
      → dest < parts
      → picks_for b false outs parts dest ≡ picks_for b true outs parts dest
  unfolding picks_for
  picks_for_same outs parts dest h = column-pick_rows [] 0 dest outs parts h
