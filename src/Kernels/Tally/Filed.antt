-- ===== src/Kernels/Tally/Filed.antt =====
-- No join result is lost in a tally: every chunk is filed under a key of its own.
use mathlib.Core.List.{append_assoc, append-nil}
use graphed_executors.Prelude.{
  ℕ, suc, ◌+◌, ◌<◌, ◌≤◌, ◌≡◌, refl, sym, ap, ◌∙◌, List, [], ◌∷◌, ◌++◌, Option, none, some, length,
  arith, nat_eq, All, inl, inr, Bool-cases, ◌==◌,
}
use graphed_executors.Prelude.Dict.{Dict, get, put, get-put, values}
use graphed_executors.Kernels.Backend.{Backend}
use graphed_executors.Kernels.Budget.{JoinResult}
use graphed_executors.Kernels.Tally.{
  JoinTally, new_tally, file_fresh, file_chunks, add, add_all, count,
}

values-put_new {ℓ} :
    {V : Type ℓ} (d : Dict ℕ V) (k : ℕ) (v : V)
    → get d k ≡ none
    → values (put d k v) ≡ values d ++ v ∷ []
unfolding get put
values-put_new [] k v h = refl
values-put_new ((j, w) ∷ d) k v h = elim (Bool-cases (j == k)) [
  | inl same ↦ absurd (ground (arith, same))
  | inr other ↦ rw other (ap (λ l. w ∷ l) (values-put_new d k v (rw other at h)))
]

module _ (b : Backend) where
  -- Blocks from number `start` up to `parts`, and the fresh keys, are not taken.
  record Room (parts start : ℕ) (t : JoinTally b) : Type 0 where
    above : parts ≤ t.next_key
    value_free : (k : ℕ) → start ≤ k → k < parts → get t.value k ≡ none
    hashes_free : (k : ℕ) → start ≤ k → k < parts → get t.hashes k ≡ none
    value_fresh : (k : ℕ) → t.next_key ≤ k → get t.value k ≡ none
    hashes_fresh : (k : ℕ) → t.next_key ≤ k → get t.hashes k ≡ none

  -- t' has filed these chunks and hashes after those of t.
  record After (t t' : JoinTally b) (chunks : List b.Block) (hs : List b.Digest) : Type 0 where
    chunks_after : values t'.value ≡ values t.value ++ chunks
    hashes_after : values t'.hashes ≡ values t.hashes ++ hs

  abbrev filed : JoinTally b → b.Block → b.Digest → JoinTally b
  filed t chunk h = record t {
    value = put t.value t.next_key chunk;
    hashes = put t.hashes t.next_key h;
    next_key = t.next_key + 1;
  }

  filed-Room :
      (parts start : ℕ) (t : JoinTally b) (chunk : b.Block) (h : b.Digest)
      → Room parts start t
      → Room parts start (filed t chunk h)
  filed-Room parts start t chunk h r = record {
    above = omega (arith, r.above);
    value_free = λ k lo hi.
        ground (arith, get-put t.value t.next_key k chunk, r.value_free k lo hi, r.above);
    hashes_free =
        λ k lo hi. ground (arith, get-put t.hashes t.next_key k h, r.hashes_free k lo hi, r.above);
    value_fresh =
        λ k lo. ground (arith, get-put t.value t.next_key k chunk, r.value_fresh k (omega arith));
    hashes_fresh =
        λ k lo. ground (arith, get-put t.hashes t.next_key k h, r.hashes_fresh k (omega arith));
  }

  file_fresh-Room :
      (parts start : ℕ) (t : JoinTally b) (chunks : List b.Block) (hs : List b.Digest)
      → Room parts start t
      → length chunks ≡ length hs
      → (t' : JoinTally b) × (file_fresh b t chunks hs ≡ some t')
        × Room parts start t'
        × After t t' chunks hs
  unfolding file_fresh
  file_fresh-Room parts start t [] [] r same =
      (t, refl, r, record { chunks_after = sym (append-nil _); hashes_after = sym (append-nil _) })
  file_fresh-Room parts start t (chunk ∷ chunks) (h ∷ hs) r same =
      let (t', run, r', a) =
        file_fresh-Room parts start (filed t chunk h) chunks hs (filed-Room parts start t chunk h r)
          (omega (arith, same)) in
      (
        t',
        run,
        r',
        record {
          chunks_after =
              a.chunks_after
              ∙ ap (λ l. l ++ chunks)
                  (values-put_new t.value t.next_key chunk (r.value_fresh _ (omega arith)))
              ∙ append_assoc (values t.value) (chunk ∷ []) chunks;
          hashes_after =
              a.hashes_after
              ∙ ap (λ l. l ++ hs)
                  (values-put_new t.hashes t.next_key h (r.hashes_fresh _ (omega arith)))
              ∙ append_assoc (values t.hashes) (h ∷ []) hs;
        },
      )
  file_fresh-Room parts start t [] (h ∷ hs) r same = absurd (omega arith)
  file_fresh-Room parts start t (chunk ∷ chunks) [] r same = absurd (omega arith)

  Room-suc : (parts start : ℕ) (t : JoinTally b) → Room parts start t → Room parts (suc start) t
  Room-suc parts start t r = record {
    above = r.above;
    value_free = λ k lo hi. r.value_free k (omega arith) hi;
    hashes_free = λ k lo hi. r.hashes_free k (omega arith) hi;
    value_fresh = r.value_fresh;
    hashes_fresh = r.hashes_fresh;
  }

  file_chunks-Room :
      (parts start : ℕ) (t : JoinTally b) (chunks : List b.Block) (hs : List b.Digest)
      → Room parts start t
      → start < parts
      → length chunks ≡ length hs
      → (t' : JoinTally b) × (file_chunks b t (some start) chunks hs ≡ some t')
        × Room parts (suc start) t'
        × After t t' chunks hs
  unfolding file_chunks
  file_chunks-Room parts start t (chunk ∷ []) (h ∷ []) r low same = (
    record t { value = put t.value start chunk; hashes = put t.hashes start h },
    refl,
    record {
      above = r.above;
      value_free = λ k lo hi. ground (arith, get-put t.value start k chunk, r.value_free k);
      hashes_free = λ k lo hi. ground (arith, get-put t.hashes start k h, r.hashes_free k);
      value_fresh =
          λ k lo. ground (arith, get-put t.value start k chunk, r.value_fresh k lo, r.above);
      hashes_fresh =
          λ k lo. ground (arith, get-put t.hashes start k h, r.hashes_fresh k lo, r.above);
    },
    record {
      chunks_after = values-put_new t.value start chunk (r.value_free start (omega arith) low);
      hashes_after = values-put_new t.hashes start h (r.hashes_free start (omega arith) low);
    },
  )
  file_chunks-Room parts start t (chunk ∷ []) [] r low same = absurd (omega arith)
  file_chunks-Room parts start t (chunk ∷ []) (h ∷ h' ∷ hs) r low same = absurd (omega arith)
  file_chunks-Room parts start t [] hs r low same =
      let (t', run, r', a) = file_fresh-Room parts start t [] hs r same in
      (t', run, Room-suc parts start t' r', a)
  file_chunks-Room parts start t (chunk ∷ next ∷ chunks) hs r low same =
      let (t', run, r', a) = file_fresh-Room parts start t (chunk ∷ next ∷ chunks) hs r same in
      (t', run, Room-suc parts start t' r', a)

  -- A result names as many hashes as it has chunks.
  abbrev pub IsPaired : Option (JoinResult b) → Type 0
  IsPaired none = Unit
  IsPaired (some joined) = length joined.chunks ≡ length joined.hashes

  unfoldable pub all_chunks : List (Option (JoinResult b)) → List b.Block
  all_chunks [] = []
  all_chunks (none ∷ outs) = all_chunks outs
  all_chunks (some joined ∷ outs) = joined.chunks ++ all_chunks outs

  unfoldable pub all_hashes : List (Option (JoinResult b)) → List b.Digest
  all_hashes [] = []
  all_hashes (none ∷ outs) = all_hashes outs
  all_hashes (some joined ∷ outs) = joined.hashes ++ all_hashes outs

  add_all-Room :
      (parts start : ℕ) (t : JoinTally b) (outs : List (Option (JoinResult b)))
      → Room parts start t
      → start + length outs ≤ parts
      → All IsPaired outs
      → (t' : JoinTally b) × (add_all b t start outs ≡ some t')
        × (values t'.value ≡ values t.value ++ all_chunks outs)
        × (values t'.hashes ≡ values t.hashes ++ all_hashes outs)
  unfolding add_all all_chunks all_hashes add
  add_all-Room parts start t [] r fits paired = (t, refl, sym (append-nil _), sym (append-nil _))
  add_all-Room parts start t (none ∷ outs) r fits paired =
      add_all-Room parts (suc start) t outs (Room-suc parts start t r) (omega arith) paired.1
  add_all-Room parts start t (some joined ∷ outs) r fits paired =
      let counted : Room parts start (count b t joined) = record {
        above = r.above;
        value_free = r.value_free;
        hashes_free = r.hashes_free;
        value_fresh = r.value_fresh;
        hashes_fresh = r.hashes_fresh;
      } in
      let (t₁, run₁, r₁, a) =
        file_chunks-Room parts start (count b t joined) joined.chunks joined.hashes counted
          (omega arith) paired.0 in
      let (t', run, chunks, hs) =
        add_all-Room parts (suc start) t₁ outs r₁ (omega arith) paired.1 in
      (
        t',
        rw (run₁, add_all) run,
        chunks
            ∙ ap (λ l. l ++ all_chunks outs) a.chunks_after
            ∙ append_assoc (values t.value) joined.chunks (all_chunks outs),
        hs
            ∙ ap (λ l. l ++ all_hashes outs) a.hashes_after
            ∙ append_assoc (values t.hashes) joined.hashes (all_hashes outs),
      )

  -- When the results of at most `parts` blocks, each with a hash for every chunk, are filed in a
  -- new tally, all their chunks stand in it in order, and so do all their hashes: none is
  -- overwritten.
  pub add_all_files :
      (parts : ℕ) (outs : List (Option (JoinResult b)))
      → length outs ≤ parts
      → All IsPaired outs
      → (t : JoinTally b) × (add_all b (new_tally b parts) 0 outs ≡ some t)
        × (values t.value ≡ all_chunks outs)
        × (values t.hashes ≡ all_hashes outs)
  unfolding new_tally
  add_all_files parts outs fits paired =
      add_all-Room parts 0 (new_tally b parts) outs
        (record {
          above = omega arith;
          value_free = λ k lo hi. unfold get in refl;
          hashes_free = λ k lo hi. unfold get in refl;
          value_fresh = λ k lo. unfold get in refl;
          hashes_fresh = λ k lo. unfold get in refl;
        })
        (omega (arith, fits)) paired
