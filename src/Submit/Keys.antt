-- ===== src/Submit/Keys.antt =====
-- _key of submit/engine.py: the keys of a run's backend tasks. A text is the list of its characters'
-- codes, and `show` is str of a number.
use graphed_executors.Prelude.{ℕ, ◌≡◌, ◌≢◌, refl, List, [], ◌∷◌, ◌++◌, All}

abbrev pub Text : Type 0
Text = List ℕ

abbrev pub dash : ℕ
dash = 45

-- "graphed-"
abbrev pub key_prefix : Text
key_prefix = 103 ∷ 114 ∷ 97 ∷ 112 ∷ 104 ∷ 101 ∷ 100 ∷ 45 ∷ []

-- f"graphed-{plan_fp}-{run_nonce}-{kind}-{idx}"
unfoldable pub task_key : (ℕ → Text) → Text → Text → Text → ℕ → Text
task_key show plan_fp run_nonce kind idx =
    key_prefix ++ (plan_fp ++ dash ∷ (run_nonce ++ dash ∷ (kind ++ dash ∷ show idx)))

-- No character is a dash.
abbrev pub NoDash : Text → Type 0
NoDash t = All (λ c. c ≢ dash) t

append_cancel : (xs : Text) {ys zs : Text} → xs ++ ys ≡ xs ++ zs → ys ≡ zs
append_cancel [] e = e
append_cancel (x ∷ xs) e = append_cancel xs (cc)

a_dash_inside : (xs t : Text) → NoDash (xs ++ dash ∷ t) → ⊥
a_dash_inside [] t plain = plain.0 refl
a_dash_inside (x ∷ xs) t plain = a_dash_inside xs t plain.1

NoDash-inside : (xs s t : Text) → NoDash s → s ≡ xs ++ dash ∷ t → ⊥
NoDash-inside xs s t plain e = a_dash_inside xs t (rw e at plain)

-- A text ends after its last dash in one way.
last_dash :
    (xs ys : Text) {s t : Text}
    → NoDash s
    → NoDash t
    → xs ++ dash ∷ s ≡ ys ++ dash ∷ t
    → (xs ≡ ys) × (s ≡ t)
last_dash [] [] plain plain' e = (refl, cc)
last_dash [] (y ∷ ys) {s} {t} plain plain' e =
    let rest : s ≡ ys ++ dash ∷ t = cc in absurd (NoDash-inside ys s t plain rest)
last_dash (x ∷ xs) [] {s} {t} plain plain' e =
    let rest : t ≡ xs ++ dash ∷ s = cc in absurd (NoDash-inside xs t s plain' rest)
last_dash (x ∷ xs) (y ∷ ys) {s} {t} plain plain' e =
    let head : x ≡ y = cc in
    let tail : xs ++ dash ∷ s ≡ ys ++ dash ∷ t = cc in
    let (same, ends) = last_dash xs ys plain plain' tail in (rw (head, same) refl, ends)

-- Within a run, two tasks whose kinds or numbers differ have different keys, where the text of a
-- number has no dash and tells the number.
pub task_key_collision :
    (show : ℕ → Text) (plan_fp run_nonce kind kind' : Text) (idx idx' : ℕ)
    → ((k : ℕ) → NoDash (show k))
    → ((k k' : ℕ) → show k ≡ show k' → k ≡ k')
    → task_key show plan_fp run_nonce kind idx ≡ task_key show plan_fp run_nonce kind' idx'
    → (kind ≡ kind') × (idx ≡ idx')
unfolding task_key
task_key_collision show plan_fp run_nonce kind kind' idx idx' plain tells same =
    let after_fp : dash ∷ (run_nonce ++ dash ∷ (kind ++ dash ∷ show idx))
        ≡ dash ∷ (run_nonce ++ dash ∷ (kind' ++ dash ∷ show idx')) =
      append_cancel plan_fp (append_cancel key_prefix same) in
    let after_nonce : dash ∷ (kind ++ dash ∷ show idx) ≡ dash ∷ (kind' ++ dash ∷ show idx') =
      append_cancel run_nonce (append_cancel (dash ∷ []) after_fp) in
    let (kinds, ends) =
      last_dash kind kind' (plain idx) (plain idx') (append_cancel (dash ∷ []) after_nonce) in
    (kinds, tells idx idx' ends)
