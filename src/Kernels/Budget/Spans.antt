-- ===== src/Kernels/Budget/Spans.antt =====
-- The chunks of a budgeted join cover the probe rows in order, each within the budget.
use graphed_executors.Prelude.{
  ℕ, zero, suc, ◌+◌, ◌-◌, ◌<◌, ◌≤◌, ◌≡◌, ◌⊎◌, inl, inr, refl, sym, ap, ◌∙◌, List, [], ◌∷◌, ◌++◌,
  Option, some, length, length-append, length-map, min, map, arith, ltb, leb, ◌&&◌, Bool-cases, All,
  All-snoc, All-map, map-snoc,
}
use Prim.Native.String.{String}
use graphed_executors.Prelude.Dict.{get-put}
use graphed_executors.Kernels.Backend.{Backend, How, WireLaws}
use graphed_executors.Kernels.Budget.{
  JoinResult, Store, Spill, put_file, get_file, join_slice, address, spill_round, spill_loop,
  read_back, first_chunk, first_spill, in_chunks, join_with_budget,
}

-- Chunks (off, c) that follow one another from `start` to `end`.
abbrev pub Contiguous : ℕ → List (ℕ × ℕ) → ℕ → Type 0
Contiguous start [] end = start ≡ end
Contiguous start ((off, c) ∷ spans) end = (off ≡ start) × (0 < c) × Contiguous (start + c) spans end

Contiguous-snoc :
    (start : ℕ) (spans : List (ℕ × ℕ)) (mid c : ℕ)
    → Contiguous start spans mid
    → 0 < c
    → Contiguous start (spans ++ (mid, c) ∷ []) (mid + c)
Contiguous-snoc start [] mid c h pos = (sym h, pos, ap (λ (t : ℕ). t + c) h)
Contiguous-snoc start ((off, d) ∷ spans) mid c h pos =
    (h.0, h.1, Contiguous-snoc (start + d) spans mid c h.2 pos)

module _ (b : Backend) (wire : WireLaws b)
    (injective : (v w : b.Wire) → b.sha256_hex v ≡ b.sha256_hex w → v ≡ w) (build probe : b.Block)
    (on : List String) (how : How) (budget : ℕ) where
  abbrev pub chunk_of : ℕ × ℕ → b.Block
  chunk_of span = join_slice b build probe on how span.0 span.1

  -- A chunk of more than one probe row is below the budget.
  abbrev pub InBudget : ℕ × ℕ → Type 0
  InBudget span = (b.estimated_bytes (chunk_of span) < budget) ⊎ (span.1 ≤ 1)

  abbrev Stored : Store b → ℕ × ℕ → Type 0
  Stored store span =
      get_file b store (address b (chunk_of span)) ≡ some (b.to_wire (chunk_of span))

  record Inv (s : Spill b) (spans : List (ℕ × ℕ)) : Type 0 where
    covered : Contiguous 0 spans s.off
    inside : s.off ≤ b.rows probe
    named : s.hashes ≡ map (λ span. address b (chunk_of span)) spans
    stored : All (Stored s.store) spans
    fits : All InBudget spans
    counted : s.spilled ≡ length spans
    progress : 0 < s.chunk

  -- Writing a file leaves the other files, and those of the same content, as they were.
  Stored-put :
      (store : Store b) (block : b.Block) (span : ℕ × ℕ)
      → Stored store span
      → Stored (put_file b store (address b block) (b.to_wire block)) span
  Stored-put store block span h =
      get-put ⦃e = b.digest_eq⦄ store (address b block) (address b (chunk_of span))
        (b.to_wire block)
      ∙ elim (Bool-cases (b.digest_eq.beq (address b block) (address b (chunk_of span)))) [
        | inl same ↦ rw same (ap some (injective _ _ ((b.digest_eq.beq_iff _ _).0 same)))
        | inr other ↦ rw other h
      ]

  Stored-put_self :
      (store : Store b) (span : ℕ × ℕ)
      → Stored (put_file b store (address b (chunk_of span)) (b.to_wire (chunk_of span))) span
  Stored-put_self store span =
      get-put ⦃e = b.digest_eq⦄ store _ _ _
      ∙ rw ((b.digest_eq.beq_iff (address b (chunk_of span)) (address b (chunk_of span))).1 refl)
          refl

  -- What is left to do.
  abbrev measure : Spill b → ℕ
  measure s = b.rows probe - s.off + s.chunk

  abbrev round : Spill b → Spill b
  round = spill_round b build probe on how budget

  round-Inv :
      (s : Spill b) (spans : List (ℕ × ℕ))
      → Inv s spans
      → s.off < b.rows probe
      → (spans' : List (ℕ × ℕ)) × Inv (round s) spans' × (measure (round s) < measure s)
  unfolding spill_round
  round-Inv s spans h more =
      let c : ℕ = min s.chunk (b.rows probe - s.off) in
      let span : ℕ × ℕ = (s.off, c) in
      elim (Bool-cases (leb budget (b.estimated_bytes (chunk_of span)) && ltb 1 c)) [
        | inl dense ↦
            rw (dense, spill_round)
              (
                spans,
                record {
                  covered = h.covered;
                  inside = h.inside;
                  named = h.named;
                  stored = h.stored;
                  fits = h.fits;
                  counted = h.counted;
                  progress = omega arith;
                },
                ground (arith, h.progress),
              )
        | inr small ↦
            rw (small, spill_round)
              (
                spans ++ span ∷ [],
                record {
                  covered = Contiguous-snoc 0 spans s.off c h.covered (omega (arith, h.progress));
                  inside = omega arith;
                  named =
                      ap (λ l. l ++ address b (chunk_of span) ∷ []) h.named
                      ∙ sym (map-snoc (λ span. address b (chunk_of span)) spans span);
                  stored =
                      All-snoc _ spans span
                        (All-map (Stored s.store) _ spans (Stored-put s.store (chunk_of span))
                          h.stored)
                        (Stored-put_self s.store span);
                  fits = All-snoc InBudget spans span h.fits (ground arith);
                  counted = omega (arith, h.counted, length-append spans (span ∷ []));
                  progress = h.progress;
                },
                omega (arith, h.progress),
              )
      ]

  abbrev loop : ℕ → Spill b → Option (Spill b)
  loop = spill_loop b build probe on how budget

  -- The loop ends within its fuel, with every probe row joined.
  loop-Inv :
      (fuel : ℕ) (s : Spill b) (spans : List (ℕ × ℕ))
      → Inv s spans
      → measure s < fuel
      → (s' : Spill b) × (spans' : List (ℕ × ℕ)) × (loop fuel s ≡ some s')
        × Inv s' spans'
        × (s'.off ≡ b.rows probe)
  unfolding spill_loop
  loop-Inv zero s spans h enough = absurd (omega arith)
  loop-Inv (suc fuel) s spans h enough = elim (Bool-cases (ltb s.off (b.rows probe))) [
    | inl more ↦
        let (spans', h', less) = round-Inv s spans h (ground arith) in
        rw (more, spill_loop) (loop-Inv fuel (round s) spans' h' (omega arith))
    | inr done ↦ (s, spans, rw (done, spill_loop) refl, h, ground (arith, h.inside))
  ]

  read_back-cons :
      (store : Store b) (digest : b.Digest) (hashes : List b.Digest) (w : b.Wire)
      (blocks : List b.Block)
      → get_file b store digest ≡ some w
      → read_back b store hashes ≡ some blocks
      → read_back b store (digest ∷ hashes) ≡ some (b.from_wire w ∷ blocks)
  unfolding read_back
  read_back-cons store digest hashes w blocks found rest = ground (arith, found, rest)

  read_back-Stored :
      (store : Store b) (spans : List (ℕ × ℕ))
      → All (Stored store) spans
      → read_back b store (map (λ span. address b (chunk_of span)) spans)
        ≡ some (map chunk_of spans)
  unfolding read_back
  read_back-Stored store [] h = refl
  read_back-Stored store (span ∷ spans) h =
      read_back-cons store (address b (chunk_of span)) _ (b.to_wire (chunk_of span))
        (map chunk_of spans) h.0 (read_back-Stored store spans h.1)
      ∙ ap (λ x. some (x ∷ map chunk_of spans)) (wire.from-to (chunk_of span))

  -- A budgeted join of a destination with probe rows ends, and returns the joins of chunks of the
  -- probe rows that cover all of them in order, as they were before they were spilled; each chunk
  -- is below the budget or a single probe row, and every spilled chunk is read back once.
  pub join_with_budget_chunks :
      (store : Store b)
      → 0 < b.rows probe
      → (spans : List (ℕ × ℕ)) × (out : JoinResult b) × (store' : Store b) × (join_with_budget b
            build probe on how
            (some budget)
            store
          ≡ some (out, store'))
        × (out.chunks ≡ map chunk_of spans)
        × (out.hashes ≡ map (λ span. address b (chunk_of span)) spans)
        × Contiguous 0 spans (b.rows probe)
        × All InBudget spans
        × (out.spilled ≡ out.read)
  unfolding join_with_budget in_chunks
  join_with_budget_chunks store some_rows =
      let chunk : ℕ = first_chunk b build probe on how budget in
      let start : Inv (first_spill b store chunk) [] = record {
        covered = refl;
        inside = omega arith;
        named = refl;
        stored = tt;
        fits = tt;
        counted = refl;
        progress = unfold first_chunk in omega arith;
      } in
      let (s, spans, run, h, all) =
        loop-Inv (suc (b.rows probe + chunk)) (first_spill b store chunk) [] start (omega arith) in
      let back : read_back b s.store s.hashes ≡ some (map chunk_of spans) =
        ap (read_back b s.store) h.named ∙ read_back-Stored s.store spans h.stored in
      (
        spans,
        record {
          chunks = map chunk_of spans;
          hashes = s.hashes;
          peak = s.peak;
          spilled = s.spilled;
          rows = s.rows;
          read = length s.hashes;
        },
        s.store,
        ground (arith, run, back),
        refl,
        h.named,
        rw all at h.covered,
        h.fits,
        h.counted ∙ sym (ap length h.named ∙ length-map _ spans),
      )
