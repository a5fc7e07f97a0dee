-- ===== src/Kernels/Backend.antt =====
-- What the kernels use of graphed.core's ShuffleBackend and JoinBackend, of graphed.shuffle's
-- join_blocks and broadcast_join_choice, and of hashlib's sha256: parameters of the model.
use graphed_executors.Prelude.{ℕ, ◌≡◌, List, ◌∷◌, ◌++◌, Bool, Eq}
use Prim.Native.String.{String}

-- The join kinds.
pub data How : Type 0 where
  inner left right outer : How

pub record Backend : Type 1 where
  pub Block : Type 0
  pub Wire : Type 0
  pub Digest : Type 0
  pub concat : List Block → Block
  pub to_wire : Block → Wire
  pub from_wire : Wire → Block
  -- len(wire), len(block)
  pub wire_bytes : Wire → ℕ
  pub rows : Block → ℕ
  pub estimated_bytes : Block → ℕ
  -- partition(src, "__joinkey__", parts, salt=salt)[dest]
  pub partition : Block → ℕ → ℕ → ℕ → Block
  pub slice_rows : Block → ℕ → ℕ → Block
  pub take : Block → List ℕ → Block
  -- match_indices(build, probe, on=on, how="inner")[0]
  pub match_indices : Block → Block → List String → List ℕ
  pub join_blocks : Block → Block → List String → How → Block
  pub broadcast_join_choice : ℕ → ℕ → ℕ → Bool
  pub sha256_hex : Wire → Digest
  pub digest_eq : Eq Digest

-- A concatenation of concatenations is that of all the blocks in order.
pub record ConcatLaws (b : Backend) : Type 0 where
  pub concat-append :
      (xs ys zs : List b.Block) → b.concat (xs ++ b.concat ys ∷ zs) ≡ b.concat (xs ++ (ys ++ zs))

-- The wire format gives a block back.
pub record WireLaws (b : Backend) : Type 0 where
  pub from-to : (x : b.Block) → b.from_wire (b.to_wire x) ≡ x
