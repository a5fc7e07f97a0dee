-- ===== src/Kernels/Tally.antt =====
-- JoinTally of local/_shuffle_kernels.py: join results filed under block keys. The set `matched` is
-- a list of its members.
pub mod Filed
use graphed_executors.Prelude.{
  ℕ, zero, suc, ◌+◌, List, [], ◌∷◌, ◌++◌, Option, none, some, max, Bool, true, false, contains,
  nat_eq, range_from, if◌then◌else◌,
}
use graphed_executors.Prelude.Dict.{Dict, put}
use graphed_executors.Kernels.Backend.{Backend}
use graphed_executors.Kernels.Budget.{JoinResult}

pub record JoinTally (b : Backend) : Type 0 where
  pub next_key : ℕ
  pub value : Dict ℕ b.Block
  pub hashes : Dict ℕ b.Digest
  pub peak : ℕ
  pub spilled : ℕ
  pub rows : ℕ
  pub read : ℕ
  pub matched : List ℕ

-- (peak_join_bytes, join_spilled_partitions, join_chunks_read, join_output_rows)
pub record JoinCounters : Type 0 where
  pub peak_join_bytes : ℕ
  pub join_spilled_partitions : ℕ
  pub join_chunks_read : ℕ
  pub join_output_rows : ℕ

-- The members of xs that are not in ys.
unfoldable pub minus : List ℕ → List ℕ → List ℕ
minus [] ys = []
minus (x ∷ xs) ys = let rest = minus xs ys in if contains ys x then rest else x ∷ rest

module _ (b : Backend) where
  unfoldable pub new_tally : ℕ → JoinTally b
  new_tally next_key = record {
    next_key = next_key;
    value = [];
    hashes = [];
    peak = 0;
    spilled = 0;
    rows = 0;
    read = 0;
    matched = [];
  }

  -- The loop over zip(chunks, hashes, strict=True): none where it raises.
  unfoldable pub file_fresh : JoinTally b → List b.Block → List b.Digest → Option (JoinTally b)
  file_fresh t [] [] = some t
  file_fresh t (chunk ∷ chunks) (h ∷ hs) =
      file_fresh
        (record t {
          value = put t.value t.next_key chunk;
          hashes = put t.hashes t.next_key h;
          next_key = t.next_key + 1;
        })
        chunks hs
  file_fresh t [] (h ∷ hs) = none
  file_fresh t (chunk ∷ chunks) [] = none

  abbrev pub count : JoinTally b → JoinResult b → JoinTally b
  count t joined = record t {
    peak = max t.peak joined.peak;
    spilled = t.spilled + joined.spilled;
    rows = t.rows + joined.rows;
    read = t.read + joined.read;
  }

  -- A lone chunk under its key; hashes[0] raises where there is none.
  unfoldable pub file_chunks :
      JoinTally b → Option ℕ → List b.Block → List b.Digest → Option (JoinTally b)
  file_chunks t (some key) (chunk ∷ []) (h ∷ hs) =
      some (record t { value = put t.value key chunk; hashes = put t.hashes key h })
  file_chunks t (some key) (chunk ∷ []) [] = none
  file_chunks t (some key) [] hs = file_fresh t [] hs
  file_chunks t (some key) (chunk ∷ next ∷ chunks) hs = file_fresh t (chunk ∷ next ∷ chunks) hs
  file_chunks t none chunks hs = file_fresh t chunks hs

  unfoldable pub add : JoinTally b → Option ℕ → JoinResult b → Option (JoinTally b)
  unfolding file_chunks file_fresh
  add t key joined = file_chunks (count t joined) key joined.chunks joined.hashes

  abbrev pub counters : JoinTally b → JoinCounters
  counters t = record {
    peak_join_bytes = t.peak;
    join_spilled_partitions = t.spilled;
    join_chunks_read = t.read;
    join_output_rows = t.rows;
  }

  unfoldable pub unmatched : JoinTally b → ℕ → List ℕ
  unfolding minus
  unmatched t n_build = minus (range_from 0 n_build) t.matched

  -- The results of the blocks from number `start` on, each under its number: the loops of
  -- _shuffle_join and _broadcast_join of common/tasks_engine.py.
  unfoldable pub add_all : JoinTally b → ℕ → List (Option (JoinResult b)) → Option (JoinTally b)
  add_all t start [] = some t
  add_all t start (none ∷ outs) = add_all t (suc start) outs
  add_all t start (some joined ∷ outs) = elim (add t (some start) joined) [
    | none ↦ none
    | some t' ↦ add_all t' (suc start) outs
  ]
