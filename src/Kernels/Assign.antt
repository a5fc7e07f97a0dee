-- ===== src/Kernels/Assign.antt =====
-- assign of local/_shuffle_kernels.py: contiguous ascending ranges of source ids.
use native.Mathlib.Nat.{mod-lt, div-add-mod}
use graphed_executors.Prelude.{
  ℕ, zero, suc, ◌+◌, ◌-◌, ◌*◌, ◌/◌, ◌%◌, ◌<◌, ◌≤◌, ◌≡◌, refl, ap, ◌∙◌, List, [], ◌∷◌, ◌++◌, Option,
  none, some, length, range_from, length-range_from, All, arith, ltb, ◌==◌, if◌then◌else◌,
}
use mathlib.Core.List.{flatten}

-- size = base + (1 if t < rem else 0)
unfoldable pub task_size : ℕ → ℕ → ℕ → ℕ
task_size base rem t = base + (if ltb t rem then 1 else 0)

-- The loop: `left` tasks from `t` on, the first of them from `start` on.
unfoldable pub assign_from : ℕ → ℕ → ℕ → ℕ → ℕ → List (List ℕ)
unfolding task_size
assign_from base rem zero t start = []
assign_from base rem (suc left) t start =
    range_from start (task_size base rem t)
    ∷ assign_from base rem left (suc t) (start + task_size base rem t)

-- divmod raises on n_tasks = 0.
unfoldable pub assign : ℕ → ℕ → Option (List (List ℕ))
unfolding assign_from
assign n_src n_tasks =
    if n_tasks == 0
    then none
    else some (assign_from (n_src / n_tasks) (n_src % n_tasks) n_tasks 0 0)

assign_test : assign 7 3 ≡ some ((0 ∷ 1 ∷ 2 ∷ []) ∷ (3 ∷ 4 ∷ []) ∷ (5 ∷ 6 ∷ []) ∷ [])
unfolding assign
assign_test = refl

range_from-append :
    (m n start : ℕ) → range_from start m ++ range_from (start + m) n ≡ range_from start (m + n)
range_from-append zero n start =
    let e : start + 0 ≡ start = omega arith in let e' : 0 + n ≡ n = omega arith in rw (e, e') refl
range_from-append (suc m) n start =
    let e : start + suc m ≡ suc start + m = omega arith in
    let e' : suc m + n ≡ suc (m + n) = omega arith in
    rw (e, e') (ap (λ l. start ∷ l) (range_from-append m n (suc start)))

-- The sources that `left` tasks from `t` on get.
abbrev total_size : ℕ → ℕ → ℕ → ℕ → ℕ
total_size base rem zero t = 0
total_size base rem (suc left) t = task_size base rem t + total_size base rem left (suc t)

assign_from-flatten :
    (base rem left t start : ℕ)
    → flatten (assign_from base rem left t start) ≡ range_from start (total_size base rem left t)
unfolding assign_from flatten
assign_from-flatten base rem zero t start = refl
assign_from-flatten base rem (suc left) t start =
    ap (λ l. range_from start (task_size base rem t) ++ l)
      (assign_from-flatten base rem left (suc t) (start + task_size base rem t))
    ∙ range_from-append (task_size base rem t) (total_size base rem left (suc t)) start

total_size_lem :
    (base rem left t : ℕ) → rem ≤ left + t → total_size base rem left t ≡ left * base + (rem - t)
unfolding task_size
total_size_lem base rem zero t h = omega arith
total_size_lem base rem (suc left) t h =
    ground (arith, total_size_lem base rem left (suc t) (omega arith))

length-assign_from : (base rem left t start : ℕ) → length (assign_from base rem left t start) ≡ left
unfolding assign_from
length-assign_from base rem zero t start = refl
length-assign_from base rem (suc left) t start = ap suc (length-assign_from base rem left (suc t) _)

assign_from-Balanced :
    (base rem left t start : ℕ)
    → All
        (λ range. (base ≤ length range) × (length range ≤ base + 1))
        (assign_from base rem left t start)
unfolding assign_from task_size
assign_from-Balanced base rem zero t start = tt
assign_from-Balanced base rem (suc left) t start = (
  (
    ground (arith, length-range_from (task_size base rem t) start),
    ground (arith, length-range_from (task_size base rem t) start),
  ),
  assign_from-Balanced base rem left (suc t) _,
)

-- With at least one task there are exactly n_tasks ranges, joined in order they are all the source
-- ids in ascending order, and no two of them differ in size by more than one.
pub assign_partition :
    (n_src n_tasks : ℕ)
    → 0 < n_tasks
    → (ranges : List (List ℕ)) × (assign n_src n_tasks ≡ some ranges)
      × (length ranges ≡ n_tasks)
      × (flatten ranges ≡ range_from 0 n_src)
      × All
          (λ range. (n_src / n_tasks ≤ length range) × (length range ≤ n_src / n_tasks + 1))
          ranges
unfolding assign
assign_partition n_src n_tasks pos =
    let base : ℕ = n_src / n_tasks in
    let rem : ℕ = n_src % n_tasks in
    let all : total_size base rem n_tasks 0 ≡ n_src =
      grind
        (arith, total_size_lem base rem n_tasks 0, mod-lt n_src pos, div-add-mod n_src n_tasks) in
    (
      assign_from base rem n_tasks 0 0,
      ground arith,
      length-assign_from base rem n_tasks 0 0,
      assign_from-flatten base rem n_tasks 0 0 ∙ ap (range_from 0) all,
      assign_from-Balanced base rem n_tasks 0 0,
    )
