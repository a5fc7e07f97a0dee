-- ===== src/Reduce/Tree.antt =====
-- The tree of local/_reduce.py by levels: node (level, pos) covers the leaves from pos << level on.
use native.Mathlib.Nat.{one-le-pow, div-div-eq-div-mul, add-div_right, pow-suc}
use graphed_executors.Prelude.{
  ℕ, zero, suc, ◌+◌, ◌-◌, ◌*◌, ◌/◌, ◌^◌, ◌≤◌, ◌<◌, ◌≡◌, ap, ◌∙◌, sym, arith, ltb, ◌⊎◌, inl, inr,
  ◌==◌, ==_iff, Bool-cases, if◌then◌else◌,
}

-- (self.n + (1 << level) - 1) >> level
unfoldable pub level_size : ℕ → ℕ → ℕ
level_size n level = (n + 2 ^ level - 1) / 2 ^ level

pub level_size-zero : (n : ℕ) → level_size n 0 ≡ n
unfolding level_size
level_size-zero n = omega arith

pow_pos : (k : ℕ) → 0 < 2 ^ k
pow_pos k = one-le-pow k 2 (omega arith)

ceil_div-double : (n d : ℕ) → 0 < d → (n + d * 2 - 1) / (d * 2) ≡ ((n + d - 1) / d + 1) / 2
ceil_div-double n d h =
    sym (div-div-eq-div-mul (n + d * 2 - 1) d 2)
    ∙ ap (λ (t : ℕ). t / 2) (ap (λ (t : ℕ). t / d) regroup ∙ add-div_right (n + d - 1) h)
  where
    regroup : n + d * 2 - 1 ≡ n + d - 1 + d
    regroup = omega arith

pub level_size-suc : (n k : ℕ) → level_size n (suc k) ≡ (level_size n k + 1) / 2
unfolding level_size
level_size-suc n k = rw (pow-suc 2 k) (ceil_div-double n (2 ^ k) (pow_pos k))

-- A level of a tree with leaves is not empty, and n halvings reach the root.
pub level_size_pos : (n k : ℕ) → 0 < n → 0 < level_size n k
level_size_pos n zero h = omega (arith, level_size-zero n)
level_size_pos n (suc k) h = omega (arith, level_size-suc n k, level_size_pos n k h)

level_size-le : (n k : ℕ) → level_size n k + k ≤ n + 1 ⊎ (level_size n k ≤ 1)
level_size-le n zero = inl (omega (arith, level_size-zero n))
level_size-le n (suc k) = omega (arith, level_size-suc n k, level_size-le n k)

pub level_size_top : (n : ℕ) → 0 < n → level_size n n ≡ 1
level_size_top n h = omega (arith, level_size-le n n, level_size_pos n n h)

pub level_size_one_above :
    (n level above : ℕ) → level_size n level ≡ 1 → level ≤ above → level_size n above ≡ 1
level_size_one_above n level zero one h = let e : level ≡ 0 = omega arith in rw e at one
level_size_one_above n level (suc above) one h = elim (Bool-cases (level == suc above)) [
  | inl e ↦ let e' : level ≡ suc above = (==_iff _ _).0 e in rw e' at one
  | inr lower ↦
      let below : level_size n above ≡ 1 = level_size_one_above n level above one (ground arith) in
      omega (arith, level_size-suc n above)
]

-- The value of a node: the fold of its leaves, the even child on the left; a node with no sibling
-- is its child.
module _ {ℓ} {A : Type ℓ} (combine : A → A → A) (n : ℕ) (leaf : ℕ → A) where
  unfoldable pub node_value : ℕ → ℕ → A
  node_value zero pos = leaf pos
  node_value (suc level) pos =
      let left = node_value level (2 * pos) in
      let right = node_value level (2 * pos + 1) in
      if ltb (2 * pos + 1) (level_size n level) then combine left right else left
