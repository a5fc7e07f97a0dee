-- ===== src/Kernels/Join/Total.antt =====
-- The joins return, and keep the rows that their kind keeps.
use graphed_executors.Prelude.{
  ℕ, ◌≡◌, ◌↔◌, refl, List, [], ◌∷◌, Option, none, some, Bool, true, false, arith, ◌==◌, ◌&&◌, ◌||◌,
  Bool-cases, inl, inr,
}
use Prim.Native.String.{String}
use graphed_executors.Kernels.Backend.{Backend, How, WireLaws}
use graphed_executors.Kernels.Budget.{JoinResult, Store, whole, join_with_budget}
use graphed_executors.Kernels.Budget.Spans.{join_with_budget_chunks}
use graphed_executors.Kernels.Join.{join_dest, join_sides, kept_join, pass_through}

-- Whether a join of this kind has rows where the build side, or the probe side, has rows: an outer
-- join keeps the rows of either side, a left join those of the build side, a right join those of the
-- probe side, and an inner join wants both.
unfoldable pub keeps_rows : How → Bool → Bool → Bool
keeps_rows How.inner build probe = build && probe
keeps_rows How.left build probe = build
keeps_rows How.right build probe = probe
keeps_rows How.outer build probe = build || probe

abbrev pub has_any {ℓ} : {A : Type ℓ} → List A → Bool
has_any [] = false
has_any (x ∷ xs) = true

module _ (b : Backend) (wire : WireLaws b)
    (injective : (v w : b.Wire) → b.sha256_hex v ≡ b.sha256_hex w → v ≡ w) where
  abbrev Returns : Option (JoinResult b × Store b) → Type 0
  Returns run = (out : JoinResult b) × (store : Store b) × (run ≡ some (out, store))

  join_with_budget-Returns :
      (build probe : b.Block) (on : List String) (how : How) (budget : Option ℕ) (store : Store b)
      → Returns (join_with_budget b build probe on how budget store)
  unfolding join_with_budget
  join_with_budget-Returns build probe on how none store =
      (whole b (b.join_blocks build probe on how), store, refl)
  join_with_budget-Returns build probe on how (some budget) store =
      elim (Bool-cases (b.rows probe == 0)) [
        | inl empty ↦ (whole b (b.join_blocks build probe on how), store, rw empty refl)
        | inr some_rows ↦
            let (spans, out, store', run, _, _, _, _, _) =
              join_with_budget_chunks b wire injective build probe on how budget store
                (ground arith) in
            (out, store', run)
      ]

  abbrev Keeps : Option (Option (JoinResult b) × Store b) → Type 0
  Keeps run = (joined : JoinResult b) × (store : Store b) × (run ≡ some (some joined, store))

  kept_join-Keeps : (run : Option (JoinResult b × Store b)) → Returns run → Keeps (kept_join b run)
  kept_join-Keeps none (out, store, e) = absurd cc
  kept_join-Keeps (some (joined, store')) r = (joined, store', refl)

  join_sides-Keeps :
      (build_side probe_side : List b.Block) (on : List String) (how : How) (budget : Option ℕ)
      (left_carrier right_carrier : Option b.Block) (store : Store b)
      → Keeps (join_sides b build_side probe_side on how budget left_carrier right_carrier store)
  unfolding join_sides
  join_sides-Keeps (x ∷ xs) (y ∷ ys) on how budget l r store =
      kept_join-Keeps _ (join_with_budget-Returns _ _ on how budget store)
  join_sides-Keeps (x ∷ xs) [] on how budget l none store = (pass_through b (x ∷ xs), store, refl)
  join_sides-Keeps (x ∷ xs) [] on how budget l (some carrier) store =
      kept_join-Keeps _ (join_with_budget-Returns _ carrier on How.left budget store)
  join_sides-Keeps [] probe_side on how budget none r store =
      (pass_through b probe_side, store, refl)
  join_sides-Keeps [] probe_side on how budget (some carrier) r store =
      kept_join-Keeps _ (join_with_budget-Returns carrier _ on How.right budget store)

  Kept : Option (Option (JoinResult b) × Store b) → Bool → Type 0
  Kept run kept =
      (joined : Option (JoinResult b)) × (store : Store b) × (run ≡ some (joined, store))
      × ((joined ≡ none) ↔ (kept ≡ false))

  Keeps→Kept : (run : Option (Option (JoinResult b) × Store b)) → Keeps run → Kept run true
  unfolding Kept
  Keeps→Kept run (joined, store, e) =
      (some joined, store, e, ((λ no. absurd cc), (λ no. absurd cc)))

  dropped : (store : Store b) → Kept (some (none, store)) false
  unfolding Kept
  dropped store = (none, store, refl, ((λ e. refl), (λ e. refl)))

  -- The join of a destination returns, and has no result exactly where its kind keeps none of the
  -- rows of the sides that are there.
  pub join_dest_keeps :
      (build_side probe_side : List b.Block) (on : List String) (how : How) (budget : Option ℕ)
      (left_carrier right_carrier : Option b.Block) (store : Store b)
      → (joined : Option (JoinResult b)) × (store' : Store b) × (join_dest b build_side probe_side
            on how budget left_carrier right_carrier store
          ≡ some (joined, store'))
        × ((joined ≡ none) ↔ (keeps_rows how (has_any build_side) (has_any probe_side) ≡ false))
  unfolding join_dest keeps_rows Kept
  join_dest_keeps [] [] on How.inner budget l r store = dropped store
  join_dest_keeps [] [] on How.left budget l r store = dropped store
  join_dest_keeps [] [] on How.right budget l r store = dropped store
  join_dest_keeps [] [] on How.outer budget l r store = dropped store
  join_dest_keeps [] (y ∷ ys) on How.inner budget lc rc store = dropped store
  join_dest_keeps [] (y ∷ ys) on How.left budget lc rc store = dropped store
  join_dest_keeps [] (y ∷ ys) on How.right budget lc rc store =
      Keeps→Kept _ (join_sides-Keeps [] (y ∷ ys) on How.right budget lc rc store)
  join_dest_keeps [] (y ∷ ys) on How.outer budget lc rc store =
      Keeps→Kept _ (join_sides-Keeps [] (y ∷ ys) on How.outer budget lc rc store)
  join_dest_keeps (x ∷ xs) [] on How.inner budget lc rc store = dropped store
  join_dest_keeps (x ∷ xs) [] on How.left budget lc rc store =
      Keeps→Kept _ (join_sides-Keeps (x ∷ xs) [] on How.left budget lc rc store)
  join_dest_keeps (x ∷ xs) [] on How.right budget lc rc store = dropped store
  join_dest_keeps (x ∷ xs) [] on How.outer budget lc rc store =
      Keeps→Kept _ (join_sides-Keeps (x ∷ xs) [] on How.outer budget lc rc store)
  join_dest_keeps (x ∷ xs) (y ∷ ys) on How.inner budget l r store =
      Keeps→Kept _ (join_sides-Keeps (x ∷ xs) (y ∷ ys) on How.inner budget l r store)
  join_dest_keeps (x ∷ xs) (y ∷ ys) on How.left budget l r store =
      Keeps→Kept _ (join_sides-Keeps (x ∷ xs) (y ∷ ys) on How.left budget l r store)
  join_dest_keeps (x ∷ xs) (y ∷ ys) on How.right budget l r store =
      Keeps→Kept _ (join_sides-Keeps (x ∷ xs) (y ∷ ys) on How.right budget l r store)
  join_dest_keeps (x ∷ xs) (y ∷ ys) on How.outer budget l r store =
      Keeps→Kept _ (join_sides-Keeps (x ∷ xs) (y ∷ ys) on How.outer budget l r store)
