-- ===== src/PlanQueue.antt =====
-- src/graphed_executors/_plan_queue.py: a one-thread driver in front of `run`. Its threads are
-- steps: a client submits or closes, a driver starts and finishes a plan, a queued plan is cancelled,
-- the wait of a close ends. A submit past its semaphore and a finish with its callback are one step.
use graphed_executors.Prelude.{
  ℕ, zero, suc, ◌+◌, ◌-◌, ◌≤◌, ◌≡◌, refl, List, [], ◌∷◌, ◌++◌, Option, none, some, length,
  length-append, arith, ltb, ◌==◌, Option-cases, inl, inr, ◌↔◌, if◌then◌else◌,
}

-- A driver thread: the plans that it has not started, and the one that it runs.
pub record Driver : Type 0 where
  pub queued : List ℕ
  pub active : Option ℕ

-- `slots` is the semaphore's value; `closing` has the drivers that a close has let go and that still
-- run.
pub record PlanQueue : Type 0 where
  pub max_in_flight : ℕ
  pub slots : ℕ
  pub driver : Option Driver
  pub closing : List Driver

-- ValueError below one.
unfoldable pub new_queue : ℕ → Option PlanQueue
new_queue max_in_flight =
    if ltb max_in_flight 1
    then none
    else some (record {
      max_in_flight = max_in_flight;
      slots = max_in_flight;
      driver = none;
      closing = [];
    })

-- The driver's queue with one plan more; without a driver, a new one.
abbrev pub with_plan : Option Driver → ℕ → Driver
with_plan none plan = record { queued = plan ∷ []; active = none }
with_plan (some d) plan = record { queued = d.queued ++ plan ∷ []; active = d.active }

-- submit once the semaphore lets it through: none while it blocks.
unfoldable pub submit : PlanQueue → ℕ → Option PlanQueue
submit q plan =
    if q.slots == 0
    then none
    else some (record q { slots = q.slots - 1; driver = some (with_plan q.driver plan) })

-- A driver takes its oldest queued plan, one at a time.
unfoldable pub start_in : Driver → Option Driver
start_in d = elim d.active [
  | some _ ↦ none
  | none ↦ elim d.queued [
    | [] ↦ none
    | plan ∷ rest ↦ some (record { queued = rest; active = some plan })
  ]
]

unfoldable pub finish_in : Driver → Option Driver
finish_in d = elim d.active [
  | none ↦ none
  | some plan ↦ some (record { queued = d.queued; active = none })
]

unfoldable pub remove_at : {X : Type 0} → ℕ → List X → Option (List X)
remove_at i [] = none
remove_at zero (x ∷ xs) = some xs
remove_at (suc i) (x ∷ xs) = elim (remove_at i xs) [ none ↦ none | some ys ↦ some (x ∷ ys) ]

-- A queued plan's future is cancelled; `i` is its place in the queue.
unfoldable pub cancel_in : ℕ → Driver → Option Driver
cancel_in i d = elim (remove_at i d.queued) [
  | none ↦ none
  | some rest ↦ some (record { queued = rest; active = d.active })
]

unfoldable pub update_at : (Driver → Option Driver) → ℕ → List Driver → Option (List Driver)
update_at f i [] = none
update_at f zero (d ∷ ds) = elim (f d) [ none ↦ none | some d' ↦ some (d' ∷ ds) ]
update_at f (suc i) (d ∷ ds) = elim (update_at f i ds) [ none ↦ none | some es ↦ some (d ∷ es) ]

-- A step of the current driver, or of the i-th that is closing.
unfoldable pub on_driver : (Driver → Option Driver) → PlanQueue → Option ℕ → Option PlanQueue
unfolding update_at
on_driver f q none = elim q.driver [
  | none ↦ none
  | some d ↦ elim (f d) [ none ↦ none | some d' ↦ some (record q { driver = some d' }) ]
]
on_driver f q (some i) = elim (update_at f i q.closing) [
  | none ↦ none
  | some ds ↦ some (record q { closing = ds })
]

-- The callback of a future that is done or cancelled.
abbrev pub release : Option PlanQueue → Option PlanQueue
release none = none
release (some q) = some (record q { slots = q.slots + 1 })

unfoldable pub start : PlanQueue → Option ℕ → Option PlanQueue
unfolding on_driver start_in
start q which = on_driver start_in q which

unfoldable pub finish : PlanQueue → Option ℕ → Option PlanQueue
unfolding on_driver finish_in
finish q which = release (on_driver finish_in q which)

unfoldable pub cancel : PlanQueue → Option ℕ → ℕ → Option PlanQueue
unfolding on_driver cancel_in
cancel q which i = release (on_driver (cancel_in i) q which)

-- close first lets the driver go, so that a submit from now on starts another.
unfoldable pub close : PlanQueue → PlanQueue
close q = elim q.driver [ none ↦ q | some d ↦ record q { driver = none; closing = d ∷ q.closing } ]

-- The plans of a driver that are not finished.
abbrev pub load : Driver → ℕ
load d = length d.queued + elim d.active [ none ↦ 0 | some _ ↦ 1 ]

-- driver.shutdown(wait=True) returns: the driver has no plan left.
unfoldable pub drop_idle : ℕ → List Driver → Option (List Driver)
drop_idle i [] = none
drop_idle zero (d ∷ ds) = if load d == 0 then some ds else none
drop_idle (suc i) (d ∷ ds) = elim (drop_idle i ds) [ none ↦ none | some es ↦ some (d ∷ es) ]

unfoldable pub shut_down : PlanQueue → ℕ → Option PlanQueue
unfolding drop_idle
shut_down q i = elim (drop_idle i q.closing) [
  | none ↦ none
  | some ds ↦ some (record q { closing = ds })
]

pub data Step (q : PlanQueue) (q' : PlanQueue) : Type 0 where
  submitted : (plan : ℕ) → submit q plan ≡ some q' → Step q q'
  started : (which : Option ℕ) → start q which ≡ some q' → Step q q'
  ended : (which : Option ℕ) → finish q which ≡ some q' → Step q q'
  dropped : (which : Option ℕ) (i : ℕ) → cancel q which i ≡ some q' → Step q q'
  closed : close q ≡ q' → Step q q'
  shut : (i : ℕ) → shut_down q i ≡ some q' → Step q q'

pub data Reach (max_in_flight : ℕ) : PlanQueue → Type 0 where
  opened : {q : PlanQueue} → new_queue max_in_flight ≡ some q → Reach max_in_flight q
  then_step : {q q' : PlanQueue} → Reach max_in_flight q → Step q q' → Reach max_in_flight q'

abbrev pub loads : List Driver → ℕ
loads [] = 0
loads (d ∷ ds) = load d + loads ds

abbrev pub unfinished : PlanQueue → ℕ
unfinished q = elim q.driver [ none ↦ 0 | some d ↦ load d ] + loads q.closing

record IsValid (max_in_flight : ℕ) (q : PlanQueue) : Type 0 where
  counted : q.slots + unfinished q ≡ max_in_flight

length-remove_at :
    {X : Type 0} (i : ℕ) (xs : List X) {ys : List X}
    → remove_at i xs ≡ some ys
    → suc (length ys) ≡ length xs
unfolding remove_at
length-remove_at i [] h = cc
length-remove_at zero (x ∷ xs) h = ground arith
length-remove_at (suc i) (x ∷ xs) h = elim (Option-cases (remove_at i xs)) [
  | inl gone ↦ absurd (no_rest gone)
  | inr (rest, e) ↦ ground (arith, length-remove_at i xs e)
]
  where
    no_rest : remove_at i xs ≡ none → ⊥
    no_rest gone = ground arith

-- A step of a driver takes so many plans from it.
abbrev Takes : ℕ → (Driver → Option Driver) → Type 0
Takes k f = (d d' : Driver) → f d ≡ some d' → load d' + k ≡ load d

start_in-Takes : Takes 0 start_in
unfolding start_in
start_in-Takes d d' e = ground arith

finish_in-Takes : Takes 1 finish_in
unfolding finish_in
finish_in-Takes d d' e = ground arith

cancel_in-Takes : (i : ℕ) → Takes 1 (cancel_in i)
unfolding cancel_in
cancel_in-Takes i d d' e = elim (Option-cases (remove_at i d.queued)) [
  | inl gone ↦ absurd (ground arith)
  | inr (rest, e') ↦ ground (arith, length-remove_at i d.queued e')
]

loads-update_at :
    (k : ℕ) (f : Driver → Option Driver) (i : ℕ) (ds es : List Driver)
    → Takes k f
    → update_at f i ds ≡ some es
    → loads es + k ≡ loads ds
unfolding update_at
loads-update_at k f i [] es takes e = cc
loads-update_at k f zero (d ∷ ds) es takes e = elim (Option-cases (f d)) [
  | inl gone ↦ absurd (ground arith)
  | inr (d', e') ↦ ground (arith, takes d d' e')
]
loads-update_at k f (suc i) (d ∷ ds) es takes e = elim (Option-cases (update_at f i ds)) [
  | inl gone ↦ absurd (ground arith)
  | inr (rest, e') ↦ ground (arith, loads-update_at k f i ds rest takes e')
]

unfinished-on_driver :
    (k : ℕ) (f : Driver → Option Driver) (q q' : PlanQueue) (which : Option ℕ)
    → Takes k f
    → on_driver f q which ≡ some q'
    → (unfinished q' + k ≡ unfinished q) × (q'.slots ≡ q.slots)
unfolding on_driver
unfinished-on_driver k f q q' (some i) takes e = elim (Option-cases (update_at f i q.closing)) [
  | inl gone ↦ absurd (ground arith)
  | inr (ds, e') ↦ ground (arith, loads-update_at k f i q.closing ds takes e')
]
unfinished-on_driver k f q q' none takes e = elim (Option-cases q.driver) [
  | inl gone ↦ absurd (ground arith)
  | inr (d, driven) ↦ elim (Option-cases (f d)) [
    | inl gone ↦ absurd (ground arith)
    | inr (d', e') ↦ ground (arith, takes d d' e')
  ]
]

loads-drop_idle : (i : ℕ) (ds es : List Driver) → drop_idle i ds ≡ some es → loads es ≡ loads ds
unfolding drop_idle
loads-drop_idle i [] es e = cc
loads-drop_idle zero (d ∷ ds) es e = ground arith
loads-drop_idle (suc i) (d ∷ ds) es e = elim (Option-cases (drop_idle i ds)) [
  | inl gone ↦ absurd (ground arith)
  | inr (rest, e') ↦ ground (arith, loads-drop_idle i ds rest e')
]

release-IsValid :
    {max_in_flight : ℕ} {q q' : PlanQueue} (ran : Option PlanQueue)
    → IsValid max_in_flight q
    → ((r : PlanQueue) → ran ≡ some r → (unfinished r + 1 ≡ unfinished q) × (r.slots ≡ q.slots))
    → release ran ≡ some q'
    → IsValid max_in_flight q'
release-IsValid none v freed e = cc
release-IsValid (some r) v freed e = ground (arith, freed r refl, v.counted)

Step-IsValid :
    {max_in_flight : ℕ} {q q' : PlanQueue}
    → IsValid max_in_flight q
    → Step q q'
    → IsValid max_in_flight q'
unfolding submit start finish cancel close shut_down
Step-IsValid {q} v (submitted plan e) = elim (Option-cases q.driver) [
  | inl fresh ↦ ground arith
  | inr (d, driven) ↦ ground (arith, length-append d.queued (plan ∷ []))
]
Step-IsValid {q} {q'} v (started which e) =
    ground (arith, unfinished-on_driver 0 start_in q q' which start_in-Takes e, v.counted)
Step-IsValid {q} v (ended which e) =
    release-IsValid (on_driver finish_in q which) v
      (λ r. unfinished-on_driver 1 finish_in q r which finish_in-Takes) e
Step-IsValid {q} v (dropped which i e) =
    release-IsValid (on_driver (cancel_in i) q which) v
      (λ r. unfinished-on_driver 1 (cancel_in i) q r which (cancel_in-Takes i)) e
Step-IsValid {q} v (closed e) = elim (Option-cases q.driver) [
  | inl idle ↦ ground arith
  | inr (d, driven) ↦ ground arith
]
Step-IsValid {q} v (shut i e) = elim (Option-cases (drop_idle i q.closing)) [
  | inl gone ↦ absurd (ground arith)
  | inr (ds, e') ↦ ground (arith, loads-drop_idle i q.closing ds e', v.counted)
]

Reach-IsValid :
    {max_in_flight : ℕ} {q : PlanQueue} → Reach max_in_flight q → IsValid max_in_flight q
unfolding new_queue
Reach-IsValid (opened e) = ground arith
Reach-IsValid (then_step r st) = Step-IsValid (Reach-IsValid r) st

-- In every state that a queue can reach, with plans of closed drivers still running, at most
-- max_in_flight submitted plans are unfinished, the running ones included, and submit blocks exactly
-- while that many are.
pub submit_bound :
    {max_in_flight : ℕ} {q : PlanQueue} (plan : ℕ)
    → Reach max_in_flight q
    → (unfinished q ≤ max_in_flight) × ((submit q plan ≡ none) ↔ (unfinished q ≡ max_in_flight))
unfolding submit
submit_bound {q} plan r =
    let v : IsValid _ q = Reach-IsValid r in
    (omega (arith, v.counted), (λ h. ground (arith, v.counted), λ h. ground (arith, v.counted)))
