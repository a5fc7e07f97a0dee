-- ===== src/Prelude/Dict.antt =====
-- Python's `dict`: an association list in insertion order. Writing an old key keeps its place.
use mathlib.Core.Path.{◌≡◌, refl, sym, ap}
use mathlib.Core.Logic.{inl, inr}
use mathlib.Core.Bool.{true, false}
use mathlib.Core.Option.{Option, none, some}
use mathlib.Core.List.{List, [], ◌∷◌, map}
use native.Mathlib.Omega.{arith}
use Prim.Native.Nat.{suc}
use graphed_executors.Prelude.Lists.{length, All}
use graphed_executors.Prelude.Tests.{Eq, if◌then◌else◌, Bool-cases}

abbrev pub Dict {ℓ κ} : Type ℓ → Type κ → Type (ℓ ⊔ κ)
Dict K V = List (K × V)

module _ {ℓ κ} {K : Type ℓ} {V : Type κ} ⦃e : Eq K⦄ where
  -- d.get(k)
  unfoldable pub get : Dict K V → K → Option V
  get [] k = none
  get ((j, v) ∷ d) k = if e.beq j k then some v else get d k

  -- d[k] = v
  unfoldable pub put : Dict K V → K → V → Dict K V
  put [] k v = (k, v) ∷ []
  put ((j, w) ∷ d) k v = if e.beq j k then (k, v) ∷ d else (j, w) ∷ put d k v

  -- d.pop(k, None)
  unfoldable pub pop : Dict K V → K → Dict K V
  pop [] k = []
  pop ((j, w) ∷ d) k = let rest = pop d k in if e.beq j k then rest else (j, w) ∷ rest

  pub get-put :
      (d : Dict K V) (k j : K) (v : V) → get (put d k v) j ≡ (if e.beq k j then some v else get d j)
  unfolding get put
  get-put [] k j v = refl
  get-put ((i, w) ∷ d) k j v =
      ground (arith, e.beq_iff k j, e.beq_iff i k, e.beq_iff i j, get-put d k j v)

  pub get-pop : (d : Dict K V) (k j : K) → get (pop d k) j ≡ (if e.beq k j then none else get d j)
  unfolding get pop
  get-pop [] k j = ground arith
  get-pop ((i, w) ∷ d) k j =
      ground (arith, e.beq_iff k j, e.beq_iff i k, e.beq_iff i j, get-pop d k j)

  -- Every key stands once.
  abbrev pub Unique : Dict K V → Type κ
  Unique [] = Unit
  Unique ((k, v) ∷ d) = (get d k ≡ none) × Unique d

  pub Unique-put : (d : Dict K V) (k : K) (v : V) → Unique d → Unique (put d k v)
  unfolding get put
  Unique-put [] k v u = (refl, tt)
  Unique-put ((j, w) ∷ d) k v (new, u) = elim (Bool-cases (e.beq j k)) [
    | inl same ↦ let eq : j ≡ k = (e.beq_iff j k).0 same in rw same (rw eq at new, u)
    | inr other ↦ rw other (
      ground (arith, new, other, get-put d k j v, e.beq_iff k j, e.beq_iff j k),
      Unique-put d k v u,
    )
  ]

  pub Unique-pop : (d : Dict K V) (k : K) → Unique d → Unique (pop d k)
  unfolding pop
  Unique-pop [] k u = tt
  Unique-pop ((j, w) ∷ d) k (new, u) = elim (Bool-cases (e.beq j k)) [
    | inl same ↦ rw same (Unique-pop d k u)
    | inr other ↦ rw other (ground (arith, new, get-pop d k j), Unique-pop d k u)
  ]

  pub length-put_new :
      (d : Dict K V) (k : K) (v : V) → get d k ≡ none → length (put d k v) ≡ suc (length d)
  unfolding get put
  length-put_new [] k v h = refl
  length-put_new ((j, w) ∷ d) k v h = ground (arith, length-put_new d k v)

  pub length-pop_absent : (d : Dict K V) (k : K) → get d k ≡ none → length (pop d k) ≡ length d
  unfolding get pop
  length-pop_absent [] k h = refl
  length-pop_absent ((j, w) ∷ d) k h = ground (arith, length-pop_absent d k)

  pub length-pop :
      (d : Dict K V) (k : K) {v : V}
      → Unique d
      → get d k ≡ some v
      → suc (length (pop d k)) ≡ length d
  unfolding get pop
  length-pop [] k u h = cc
  length-pop ((j, w) ∷ d) k (new, u) h = elim (Bool-cases (e.beq j k)) [
    | inl same ↦
        let eq : j ≡ k = (e.beq_iff j k).0 same in
        rw same (ap suc (length-pop_absent d k (rw eq at new)))
    | inr other ↦ rw other (ap suc (length-pop d k u (rw other at h)))
  ]

  -- A dict with one key.
  pub length-single :
      (d : Dict K V) (k : K) {v : V}
      → Unique d
      → get d k ≡ some v
      → ((j : K) (w : V) → get d j ≡ some w → j ≡ k)
      → length d ≡ 1
  unfolding get
  length-single [] k u found only = cc
  length-single ((j, w) ∷ []) k u found only = refl
  length-single ((j, w) ∷ (i, x) ∷ d) k (new, u) found only =
      let self : e.beq j j ≡ true = (e.beq_iff j j).1 refl in
      let self' : e.beq i i ≡ true = (e.beq_iff i i).1 refl in
      let apart : e.beq i j ≡ false = ground (arith, new) in
      let apart' : e.beq j i ≡ false = ground (arith, apart, e.beq_iff i j, e.beq_iff j i) in
      let first : j ≡ k = only j w (rw self) in
      let second : i ≡ k = only i x (rw (apart', self')) in ground (arith, first, second, self)

  pub All-get {μ} :
      (P : K × V → Type μ) (d : Dict K V) (k : K) (v : V) → All P d → get d k ≡ some v → P (k, v)
  unfolding get
  All-get P [] k v all found = cc
  All-get P ((j, w) ∷ d) k v all found = elim (Bool-cases (e.beq j k)) [
    | inl same ↦
        let eq : j ≡ k = (e.beq_iff j k).0 same in
        let val : some w ≡ some v = rw same at found in
        let val' : w ≡ v = cc in rw (sym eq, sym val') all.0
    | inr other ↦ All-get P d k v all.1 (rw other at found)
  ]

  pub All-put {μ} :
      (P : K × V → Type μ) (d : Dict K V) (k : K) (v : V) → All P d → P (k, v) → All P (put d k v)
  unfolding put
  All-put P [] k v all p = (p, tt)
  All-put P ((j, w) ∷ d) k v all p = elim (Bool-cases (e.beq j k)) [
    | inl same ↦ rw same (p, all.1)
    | inr other ↦ rw other (all.0, All-put P d k v all.1 p)
  ]

  pub All-pop {μ} : (P : K × V → Type μ) (d : Dict K V) (k : K) → All P d → All P (pop d k)
  unfolding pop
  All-pop P [] k all = tt
  All-pop P ((j, w) ∷ d) k all = elim (Bool-cases (e.beq j k)) [
    | inl same ↦ rw same (All-pop P d k all.1)
    | inr other ↦ rw other (all.0, All-pop P d k all.1)
  ]

-- d.values()
abbrev pub values {ℓ κ} : {K : Type ℓ} {V : Type κ} → Dict K V → List V
values d = map (λ p. p.1) d

pub ruleset dict_laws = (get-put, get-pop)
