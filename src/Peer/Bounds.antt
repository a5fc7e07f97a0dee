-- ===== src/Peer/Bounds.antt =====
-- make_bounds and worker_of of local/_peer_tree.py: who owns which leaves.
use native.Mathlib.Nat.{zero-div, mul-div_right}
use graphed_executors.Prelude.{
  ℕ, zero, suc, ◌+◌, ◌-◌, ◌*◌, ◌/◌, ◌<◌, ◌≤◌, ◌≡◌, refl, ap, ◌∙◌, List, [], ◌∷◌, length, length-map,
  length-range_from, map, min, max, range_from, arith, leb, true, if◌then◌else◌, Bool-cases, inl,
  inr,
}

-- The boundary of worker i.
abbrev pub bound : ℕ → ℕ → ℕ → ℕ
bound n n_workers i = i * n / n_workers

unfoldable pub make_bounds : ℕ → ℕ → List ℕ
make_bounds n n_workers = map (bound n n_workers) (range_from 0 (suc n_workers))

-- bisect.bisect_right on an ascending list.
unfoldable pub bisect_right : List ℕ → ℕ → ℕ
bisect_right [] x = 0
bisect_right (y ∷ ys) x = let rest = bisect_right ys x in if leb y x then suc rest else 0

unfoldable pub worker_of : ℕ → List ℕ → ℕ
unfolding bisect_right
worker_of leaf bounds = max 0 (min (length bounds - 2) (bisect_right bounds leaf - 1))

bisect_right_lem :
    (f : ℕ → ℕ) (x m start : ℕ)
    → f start ≤ x
    → x < f (start + m)
    → (r : ℕ) × (bisect_right (map f (range_from start (suc m))) x ≡ suc r)
      × (r < m)
      × (f (start + r) ≤ x)
      × (x < f (start + suc r))
unfolding bisect_right
bisect_right_lem f x zero start lo hi =
    let e : start + 0 ≡ start = omega arith in absurd (omega (arith, lo, rw e at hi))
bisect_right_lem f x (suc m) start lo hi =
    let head_in : leb (f start) x ≡ true = ground arith in
    elim (Bool-cases (leb (f (suc start)) x)) [
      | inl more ↦
          let e : start + suc m ≡ suc start + m = omega arith in
          let (r, count, small, below, above) =
            bisect_right_lem f x m (suc start) (ground arith) (rw e at hi) in
          let e₁ : start + suc r ≡ suc start + r = omega arith in
          let e₂ : start + suc (suc r) ≡ suc start + suc r = omega arith in
          (
            suc r,
            rw (head_in, bisect_right) (ap suc count),
            omega (arith, small),
            rw e₁ below,
            rw e₂ above,
          )
      | inr stop ↦
          let e₁ : start + 0 ≡ start = omega arith in
          let e₂ : start + 1 ≡ suc start = omega arith in
          (
            0,
            rw (head_in, bisect_right) (rw (stop, bisect_right) refl),
            omega arith,
            rw e₁ lo,
            rw e₂ (ground arith),
          )
    ]

-- With at least one worker, worker_of gives every leaf of the plan to a worker below n_workers
-- whose range of the boundaries holds it.
pub worker_of-make_bounds :
    (n n_workers leaf : ℕ)
    → leaf < n
    → 0 < n_workers
    → (worker_of leaf (make_bounds n n_workers) < n_workers)
      × (bound n n_workers (worker_of leaf (make_bounds n n_workers)) ≤ leaf)
      × (leaf < bound n n_workers (suc (worker_of leaf (make_bounds n n_workers))))
unfolding worker_of make_bounds
worker_of-make_bounds n n_workers leaf h pos =
    let f : ℕ → ℕ = bound n n_workers in
    let first : f 0 ≡ 0 =
      let e : 0 * n ≡ 0 = omega arith in ap (λ t. t / n_workers) e ∙ zero-div n_workers in
    let last : f (0 + n_workers) ≡ n =
      let e : 0 + n_workers ≡ n_workers = omega arith in ap f e ∙ mul-div_right n pos in
    let (r, count, small, below, above) =
      bisect_right_lem f leaf n_workers 0 (omega (arith, first)) (omega (arith, last)) in
    let size : length (map f (range_from 0 (suc n_workers))) ≡ suc n_workers =
      length-map f (range_from 0 (suc n_workers)) ∙ length-range_from (suc n_workers) 0 in
    let worker : worker_of leaf (make_bounds n n_workers) ≡ r = omega (arith, count, size) in
    let e : 0 + r ≡ r = omega arith in
    let e' : 0 + suc r ≡ suc r = omega arith in rw worker (small, rw e at below, rw e' at above)
