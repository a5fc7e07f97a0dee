-- ===== src/Kernels/Coalesce/Bound.antt =====
-- The writer buffers of one producer task stay within parts row groups.
use graphed_executors.Prelude.{
  ℕ, zero, suc, ◌+◌, ◌*◌, ◌<◌, ◌≤◌, ◌≡◌, List, [], ◌∷◌, some, length, range_from, arith, ◌==◌,
  Bool-cases, inl, inr, nat_eq, Option-cases,
}
use graphed_executors.Prelude.Dict.{
  Dict, get, put, pop, values, get-put, get-pop, Unique, Unique-put, Unique-pop, length-pop,
  length-pop_absent,
}
use graphed_executors.Kernels.Backend.{Backend}
use graphed_executors.Kernels.Coalesce.{
  row_group_bytes, Writers, no_writers, sum, buffered, write_sub, write_dests, write_all,
  coalesce_task,
}

-- Keys below n that stand once each are at most n.
length-le_keys :
    {V : Type 0} (n : ℕ) (d : Dict ℕ V)
    → Unique d
    → ((k : ℕ) (v : V) → get d k ≡ some v → k < n)
    → length d ≤ n
length-le_keys zero [] u below = omega arith
length-le_keys zero ((k, v) ∷ d) u below =
    absurd (omega (arith, below k v (unfold get in ground arith)))
length-le_keys (suc n) d u below =
    let rest : length (pop d n) ≤ n =
      length-le_keys n (pop d n) (Unique-pop d n u)
        (λ k v found. ground (arith, get-pop d n k, below k v)) in
    elim (Option-cases (get d n)) [
      | inl absent ↦ omega (arith, length-pop_absent d n absent, rest)
      | inr (v, there) ↦ omega (arith, length-pop d n u there, rest)
    ]

-- The sum of values below a bound.
sum-values-le :
    (bound : ℕ) (d : Dict ℕ ℕ)
    → Unique d
    → ((k v : ℕ) → get d k ≡ some v → v < bound)
    → sum (values d) + length d ≤ length d * bound
unfolding sum get
sum-values-le bound [] u small = omega arith
sum-values-le bound ((k, v) ∷ d) (new, u) small = omega (
  arith,
  small k v (ground arith),
  sum-values-le bound d u (λ j w found. small j w (ground (arith, new, found))),
)

module _ (b : Backend) (parts : ℕ) where
  -- Every live buffer is below a row group, and belongs to a destination below `parts`.
  record IsBounded (w : Writers b) : Type 0 where
    unique : Unique w.live
    small : (k v : ℕ) → get w.live k ≡ some v → (k < parts) × (v < row_group_bytes)
    peak : w.peak + parts ≤ parts * row_group_bytes

  live_bound :
      (live : Dict ℕ ℕ)
      → Unique live
      → ((k v : ℕ) → get live k ≡ some v → (k < parts) × (v < row_group_bytes))
      → sum (values live) + parts ≤ parts * row_group_bytes
  live_bound live u small = omega (
    arith,
    sum-values-le row_group_bytes live u (λ k v found. (small k v found).1),
    length-le_keys parts live u (λ k v found. (small k v found).0),
  )

  write_sub-IsBounded :
      (w : Writers b) (dest : ℕ) (sub : b.Block)
      → dest < parts
      → IsBounded w
      → IsBounded (write_sub b w dest sub)
  unfolding write_sub
  write_sub-IsBounded w dest sub inside h = elim (Bool-cases (b.rows sub == 0)) [
    | inl empty ↦ rw (empty, write_sub) h
    | inr full ↦
        rw (full, write_sub)
          (record {
            unique = Unique-put w.live dest bytes h.unique;
            small = small;
            peak = ground (
              arith,
              h.peak,
              live_bound (put w.live dest bytes) (Unique-put w.live dest bytes h.unique) small,
            );
          })
  ]
    where
      bytes : ℕ
      bytes = buffered b w.live dest sub

      bytes_small : bytes < row_group_bytes
      bytes_small = unfold buffered in ground arith

      small :
          (k v : ℕ) → get (put w.live dest bytes) k ≡ some v → (k < parts) × (v < row_group_bytes)
      small k v found = ground (arith, get-put w.live dest k bytes, h.small k v, bytes_small)

  write_dests-IsBounded :
      (n start : ℕ) (w : Writers b) (subs : ℕ → b.Block)
      → start + n ≤ parts
      → IsBounded w
      → IsBounded (write_dests b w subs (range_from start n))
  unfolding write_dests
  write_dests-IsBounded zero start w subs fits h = h
  write_dests-IsBounded (suc n) start w subs fits h =
      write_dests-IsBounded n (suc start) (write_sub b w start (subs start)) subs (omega arith)
        (write_sub-IsBounded w start (subs start) (omega arith) h)

  write_all-IsBounded :
      (w : Writers b) (owned : List b.Block) (salt : ℕ)
      → IsBounded w
      → IsBounded (write_all b w owned parts salt)
  unfolding write_all
  write_all-IsBounded w [] salt h = h
  write_all-IsBounded w (src ∷ owned) salt h =
      let subs : ℕ → b.Block = b.partition src parts salt in
      write_all-IsBounded (write_dests b w subs (range_from 0 parts)) owned salt
        (write_dests-IsBounded parts 0 w subs (omega arith) h)

-- The peak of the live writer buffers stays below one row group for each destination, whatever
-- the sizes of the blocks.
pub coalesce_task_peak :
    (b : Backend) (owned : List b.Block) (parts salt : ℕ)
    → (coalesce_task b owned parts salt).1 + parts ≤ parts * row_group_bytes
unfolding coalesce_task
coalesce_task_peak b owned parts salt =
    (write_all-IsBounded b parts (no_writers b) owned salt (record {
      unique = tt;
      small = λ k v found. absurd (unfold get in cc);
      peak = omega arith;
    })).peak
