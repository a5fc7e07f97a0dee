-- ===== src/Kernels/Coalesce/Content.antt =====
-- Which block each destination gets from one producer task.
use graphed_executors.Prelude.{
  ℕ, zero, suc, ◌+◌, ◌<◌, ◌≡◌, ◌≢◌, refl, sym, ap, ◌∙◌, List, [], ◌∷◌, ◌++◌, Option, none, some,
  range_from, arith, ltb, leb, ◌==◌, if◌then◌else◌, nat_eq,
}
use mathlib.Core.List.{append-nil, append_assoc}
use graphed_executors.Prelude.Dict.{Dict, get, get-put}
use graphed_executors.Kernels.Backend.{Backend}
use graphed_executors.Kernels.Coalesce.{
  Writers, no_writers, get_or_else, write_sub, write_dests, write_all, concat_each, coalesce_task,
  pieces, block_of,
}

snoc-ne-nil {ℓ} : {A : Type ℓ} (xs : List A) (x : A) → xs ++ x ∷ [] ≢ []
snoc-ne-nil [] x e = cc
snoc-ne-nil (y ∷ xs) x e = cc

module _ (b : Backend) where
  -- What a destination's writer holds.
  abbrev held : Writers b → ℕ → List b.Block
  held w dest = get_or_else (get w.subs dest) []

  -- A writer is there only once it holds a block.
  NoEmpty : Dict ℕ (List b.Block) → Type 0
  NoEmpty subs = (dest : ℕ) → get subs dest ≢ some []

  abbrev piece : b.Block → List b.Block
  piece sub = if b.rows sub == 0 then [] else sub ∷ []

  held-write_sub :
      (w : Writers b) (dest d : ℕ) (sub : b.Block)
      → held (write_sub b w dest sub) d ≡ (if dest == d then held w d ++ piece sub else held w d)
  unfolding write_sub
  held-write_sub w dest d sub =
      ground (arith, append-nil (held w d), get-put w.subs dest d (held w dest ++ sub ∷ []))

  -- One source writes its piece for every destination of the range, and to no other.
  held-write_dests :
      (subs : ℕ → b.Block) (n start : ℕ) (w : Writers b) (d : ℕ)
      → held (write_dests b w subs (range_from start n)) d ≡ (
          if leb start d
          then (if ltb d (start + n) then held w d ++ piece (subs d) else held w d)
          else held w d)
  unfolding write_dests
  held-write_dests subs zero start w d = ground arith
  held-write_dests subs (suc n) start w d =
      held-write_dests subs n (suc start) (write_sub b w start (subs start)) d
      ∙ ground (arith, held-write_sub w start d (subs start))

  held-write_all :
      (owned : List b.Block) (parts salt : ℕ) (w : Writers b) (d : ℕ)
      → d < parts
      → held (write_all b w owned parts salt) d ≡ held w d ++ pieces b owned parts salt d
  unfolding write_all pieces
  held-write_all [] parts salt w d h = sym (append-nil (held w d))
  held-write_all (src ∷ owned) parts salt w d h =
      let subs : ℕ → b.Block = b.partition src parts salt in
      let rest : List b.Block = pieces b owned parts salt d in
      held-write_all owned parts salt (write_dests b w subs (range_from 0 parts)) d h
      ∙ ap (λ l. l ++ rest) (held-write_dests subs parts 0 w d)
      ∙ ground (arith, append_assoc (held w d) (subs d ∷ []) rest, append-nil (held w d))

  get-concat_each :
      (subs : Dict ℕ (List b.Block)) (d : ℕ)
      → get (concat_each b subs) d ≡ elim (get subs d) [ none ↦ none | some l ↦ some (b.concat l) ]
  unfolding get concat_each
  get-concat_each [] d = refl
  get-concat_each ((j, l) ∷ subs) d = ground (arith, get-concat_each subs d)

  write_sub-NoEmpty :
      (w : Writers b) (dest : ℕ) (sub : b.Block)
      → NoEmpty w.subs
      → NoEmpty (write_sub b w dest sub).subs
  unfolding NoEmpty write_sub
  write_sub-NoEmpty w dest sub h d =
      ground
        (arith, h d, get-put w.subs dest d (held w dest ++ sub ∷ []), snoc-ne-nil (held w dest) sub)

  write_dests-NoEmpty :
      (w : Writers b) (subs : ℕ → b.Block) (dests : List ℕ)
      → NoEmpty w.subs
      → NoEmpty (write_dests b w subs dests).subs
  unfolding write_dests
  write_dests-NoEmpty w subs [] h = h
  write_dests-NoEmpty w subs (dest ∷ dests) h =
      write_dests-NoEmpty (write_sub b w dest (subs dest)) subs dests
        (write_sub-NoEmpty w dest (subs dest) h)

  write_all-NoEmpty :
      (w : Writers b) (owned : List b.Block) (parts salt : ℕ)
      → NoEmpty w.subs
      → NoEmpty (write_all b w owned parts salt).subs
  unfolding write_all
  write_all-NoEmpty w [] parts salt h = h
  write_all-NoEmpty w (src ∷ owned) parts salt h =
      let subs : ℕ → b.Block = b.partition src parts salt in
      write_all-NoEmpty (write_dests b w subs (range_from 0 parts)) owned parts salt
        (write_dests-NoEmpty w subs (range_from 0 parts) h)

  block_of_held :
      (o : Option (List b.Block)) (l : List b.Block)
      → o ≢ some []
      → get_or_else o [] ≡ l
      → ◌≡◌ {A = Option b.Block}
          (elim o [ none ↦ none | some k ↦ some (b.concat k) ])
          (block_of b l)
  block_of_held none l ne e = rw (← e)
  block_of_held (some []) l ne e = absurd (ne refl)
  block_of_held (some (x ∷ xs)) l ne e = rw (← e)

  -- Every destination below `parts` gets the concatenation of the non-empty pieces of the owned
  -- source blocks, in source order, and no block where there is no such piece.
  pub get-coalesce_task :
      (owned : List b.Block) (parts salt dest : ℕ)
      → dest < parts
      → get (coalesce_task b owned parts salt).0 dest ≡ block_of b (pieces b owned parts salt dest)
  unfolding coalesce_task NoEmpty
  get-coalesce_task owned parts salt dest h =
      let w : Writers b = write_all b (no_writers b) owned parts salt in
      get-concat_each w.subs dest
      ∙ block_of_held (get w.subs dest) (pieces b owned parts salt dest)
          (write_all-NoEmpty (no_writers b) owned parts salt (λ d. unfold get in (λ e. cc)) dest)
          (held-write_all owned parts salt (no_writers b) dest h ∙ unfold get in refl)
