-- ===== src/Kernels/Coalesce.antt =====
-- coalesce_task of local/_shuffle_kernels.py: one writer per destination, flushed at a row group.
pub mod Content
pub mod Bound
use graphed_executors.Prelude.{
  ℕ, zero, suc, ◌+◌, ◌-◌, ◌*◌, ◌^◌, ◌<◌, ◌≤◌, ◌≡◌, ◌≢◌, refl, sym, ap, ap₂, ◌∙◌, List, [], ◌∷◌,
  ◌++◌, Option, none, some, length, map, max, range_from, All, arith, Bool, true, false, ltb, leb,
  ◌==◌, ==_iff, if◌then◌else◌, Bool-cases, inl, inr, nat_eq,
}
use graphed_executors.Prelude.Dict.{
  Dict, get, put, pop, values, get-put, get-pop, Unique, Unique-put, Unique-pop, length-pop,
  length-pop_absent,
}
use graphed_executors.Kernels.Backend.{Backend}

abbrev pub row_group_bytes : ℕ
row_group_bytes = 2 ^ 20

-- d.get(k, default)
abbrev pub get_or_else {ℓ} : {A : Type ℓ} → Option A → A → A
get_or_else none a = a
get_or_else (some b) a = b

unfoldable pub sum : List ℕ → ℕ
sum [] = 0
sum (x ∷ xs) = x + sum xs

module _ (b : Backend) where
  pub record Writers : Type 0 where
    pub subs : Dict ℕ (List b.Block)
    pub live : Dict ℕ ℕ
    pub peak : ℕ

  abbrev pub no_writers : Writers
  no_writers = record { subs = []; live = []; peak = 0 }

  -- live[dest] = live.get(dest, 0) + estimated_bytes(sub), or 0 once a row group is flushed.
  unfoldable pub buffered : Dict ℕ ℕ → ℕ → b.Block → ℕ
  buffered live dest sub =
      let bytes = get_or_else (get live dest) 0 + b.estimated_bytes sub in
      if leb row_group_bytes bytes then 0 else bytes

  -- The body of the inner loop.
  unfoldable pub write_sub : Writers → ℕ → b.Block → Writers
  unfolding buffered sum
  write_sub w dest sub =
      let live = put w.live dest (buffered w.live dest sub) in
      if b.rows sub == 0 then w else record {
        subs = put w.subs dest (get_or_else (get w.subs dest) [] ++ sub ∷ []);
        live = live;
        peak = max w.peak (sum (values live));
      }

  -- for dest in range(parts)
  unfoldable pub write_dests : Writers → (ℕ → b.Block) → List ℕ → Writers
  write_dests w subs [] = w
  write_dests w subs (dest ∷ dests) = write_dests (write_sub w dest (subs dest)) subs dests

  -- for src in owned
  unfoldable pub write_all : Writers → List b.Block → ℕ → ℕ → Writers
  write_all w [] parts salt = w
  write_all w (src ∷ owned) parts salt =
      write_all (write_dests w (b.partition src parts salt) (range_from 0 parts)) owned parts salt

  unfoldable pub concat_each : Dict ℕ (List b.Block) → Dict ℕ b.Block
  concat_each [] = []
  concat_each ((dest, subs) ∷ rest) = (dest, b.concat subs) ∷ concat_each rest

  unfoldable pub coalesce_task : List b.Block → ℕ → ℕ → Dict ℕ b.Block × ℕ
  coalesce_task owned parts salt =
      let w = write_all no_writers owned parts salt in (concat_each w.subs, w.peak)

  -- What a destination is to get: the non-empty pieces of the owned blocks, in their order.
  unfoldable pub pieces : List b.Block → ℕ → ℕ → ℕ → List b.Block
  pieces [] parts salt dest = []
  pieces (src ∷ owned) parts salt dest =
      let sub = b.partition src parts salt dest in
      let rest = pieces owned parts salt dest in if b.rows sub == 0 then rest else sub ∷ rest

  -- A destination with no pieces has no block.
  abbrev pub block_of : List b.Block → Option b.Block
  block_of [] = none
  block_of (x ∷ xs) = some (b.concat (x ∷ xs))
