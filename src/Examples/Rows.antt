-- ===== src/Examples/Rows.antt =====
-- A small backend: a block is its number of rows, every row takes 100 estimated bytes, and the rows
-- of a block go to a destination by the size of the block.
use graphed_executors.Prelude.{
  ℕ, ◌+◌, ◌-◌, ◌*◌, ◌%◌, ◌≡◌, refl, List, [], ◌∷◌, ◌++◌, length, min, range_from, arith, ◌==◌,
  if◌then◌else◌, nat_eq, leb,
}
use graphed_executors.Kernels.Backend.{Backend, ConcatLaws, WireLaws}

abbrev pub total : List ℕ → ℕ
total [] = 0
total (x ∷ xs) = x + total xs

abbrev pub row_backend : Backend
row_backend = record {
  Block = ℕ;
  Wire = ℕ;
  Digest = ℕ;
  concat = total;
  to_wire = λ x. x;
  from_wire = λ x. x;
  wire_bytes = λ x. x;
  rows = λ x. x;
  estimated_bytes = λ x. x * 100;
  partition = λ src parts salt dest. if src % parts == dest then src else 0;
  slice_rows = λ x start stop. min stop x - start;
  take = λ x rows. length rows;
  match_indices = λ build probe on. range_from 0 (min build probe);
  join_blocks = λ build probe on how. probe;
  broadcast_join_choice = λ build probe parts. leb build probe;
  sha256_hex = λ x. x;
  digest_eq = nat_eq;
}

abbrev pub row_wire : WireLaws row_backend
row_wire = record { from-to = λ x. refl }

total-append : (xs ys : List ℕ) → total (xs ++ ys) ≡ total xs + total ys
total-append [] ys = omega arith
total-append (x ∷ xs) ys = omega (arith, total-append xs ys)

pub row_concat : ConcatLaws row_backend
row_concat = record {
  concat-append = λ xs ys zs.
      omega
        (arith, total-append xs (total ys ∷ zs), total-append xs (ys ++ zs), total-append ys zs);
}
