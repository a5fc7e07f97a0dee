-- ===== src/Submit/Fixed/Order.antt =====
-- The leaf order of a fixed run of submit/engine.py is that of the keys, not of the plan's list.
use mathlib.Core.List.{Permᴰ}
use graphed_executors.Prelude.{
  ℕ, ◌≡◌, ◌≢◌, refl, sym, ap, ap₂, ◌∙◌, arith, List, [], ◌∷◌, Bool, All, All-map,
}
use graphed_executors.Submit.Futures.{Task, Outcome, sort_tasks, insert_task}
use graphed_executors.Submit.Fixed.{run_fixed}

module _ {P : Type 0} where
  -- No two tasks have the same key.
  abbrev pub KeysApart : List (Task P) → Type 0
  KeysApart [] = Unit
  KeysApart (t ∷ ts) = All (λ u. t.key ≢ u.key) ts × KeysApart ts

  insert_task_comm :
      (t u : Task P) (ts : List (Task P))
      → t.key ≢ u.key
      → insert_task t (insert_task u ts) ≡ insert_task u (insert_task t ts)
  unfolding insert_task
  insert_task_comm t u [] apart = ground arith
  insert_task_comm t u (v ∷ vs) apart = ground (arith, insert_task_comm t u vs apart)

  All-Permᴰ : (Q : Task P → Type 0) {ts us : List (Task P)} → Permᴰ ts us → All Q ts → All Q us
  All-Permᴰ Q Permᴰ.nil all = tt
  All-Permᴰ Q (Permᴰ.cons e p) all = (rw (sym e) all.0, All-Permᴰ Q p all.1)
  All-Permᴰ Q (Permᴰ.swap e e') (q, (q', all)) = (rw (sym e') q', (rw (sym e) q, all))
  All-Permᴰ Q (Permᴰ.trans p p') all = All-Permᴰ Q p' (All-Permᴰ Q p all)

  far_from :
      {t u : Task P} (l : List (Task P))
      → t ≡ u
      → All (λ v. t.key ≢ v.key) l
      → All (λ v. u.key ≢ v.key) l
  far_from l e far = All-map _ _ l (λ v differ same. differ (ap (λ t. t.key) e ∙ same)) far

  KeysApart-Permᴰ : {ts us : List (Task P)} → Permᴰ ts us → KeysApart ts → KeysApart us
  KeysApart-Permᴰ Permᴰ.nil apart = tt
  KeysApart-Permᴰ (Permᴰ.cons {l₂ = l} e p) apart =
      (far_from l e (All-Permᴰ _ p apart.0), KeysApart-Permᴰ p apart.1)
  KeysApart-Permᴰ (Permᴰ.swap {l = l} e e') ((differ, far), (far', apart)) = (
    (λ same. differ (ap (λ t. t.key) e ∙ sym same ∙ ap (λ t. t.key) (sym e')), far_from l e' far'),
    (far_from l e far, apart),
  )
  KeysApart-Permᴰ (Permᴰ.trans p p') apart = KeysApart-Permᴰ p' (KeysApart-Permᴰ p apart)

  sort_tasks-Permᴰ :
      {ts us : List (Task P)} → Permᴰ ts us → KeysApart ts → sort_tasks ts ≡ sort_tasks us
  unfolding sort_tasks
  sort_tasks-Permᴰ Permᴰ.nil apart = refl
  sort_tasks-Permᴰ (Permᴰ.cons e p) apart = ap₂ insert_task e (sort_tasks-Permᴰ p apart.1)
  sort_tasks-Permᴰ (Permᴰ.swap {a = t} {b = u} {l = l} e e') ((differ, far), (far', apart)) =
      insert_task_comm t u (sort_tasks l) differ
      ∙ ap₂ (λ v w. insert_task v (insert_task w (sort_tasks l))) e' e
  sort_tasks-Permᴰ (Permᴰ.trans p p') apart =
      sort_tasks-Permᴰ p apart ∙ sort_tasks-Permᴰ p' (KeysApart-Permᴰ p apart)

-- Where no two tasks have the same key, the run, its value, its counts and what it raises, does not
-- depend on the order in which the plan lists its tasks.
pub run_fixed_any_order :
    {P E A : Type 0} (process : P → Outcome E A) (combine : A → A → Outcome E A) (empty : A)
    (tasks tasks' : List (Task P)) (rounds : List (Bool × ℕ))
    → KeysApart tasks
    → Permᴰ tasks tasks'
    → run_fixed process combine empty tasks rounds ≡ run_fixed process combine empty tasks' rounds
unfolding run_fixed
run_fixed_any_order process combine empty tasks tasks' rounds apart p =
    rw (sort_tasks-Permᴰ p apart) refl
