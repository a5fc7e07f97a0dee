-- ===== src/Peer/Control.antt =====
-- PeerControl of local/_peer_tree.py: the driver's side of a controlled peer run. Which thread sends
-- a tag is left out; a send is a worker and its tag.
pub mod Filed
pub mod Relay
use graphed_executors.Prelude.{
  ℕ, zero, suc, ◌+◌, ◌-◌, ◌*◌, ◌^◌, ◌≡◌, refl, sym, ap, ap₂, ◌∙◌, List, [], ◌∷◌, ◌++◌, Option, none,
  some, map, Bool, true, false, min, ltb, ◌==◌, not, ◌&&◌, ◌||◌, if◌then◌else◌, nat_eq, node_eq,
  length, arith, Bool-cases, inl, inr,
}
use graphed_executors.Prelude.Dict.{Dict, get, put, values, get-put}
use graphed_executors.Kernels.Coalesce.{sum}
use graphed_executors.Reduce.Lazy.{LazyReducer, new, feed_at, frontier}
use graphed_executors.Reduce.Chain.{running_fold}
use graphed_executors.Window.{RunState, running, paused, cancelled}

-- _TAGS
pub data Tag : Type 0 where
  resume pause cancel : Tag

unfoldable pub tag_of : RunState → Tag
tag_of running = resume
tag_of paused = pause
tag_of cancelled = cancel

abbrev pub same_state : RunState → RunState → Bool
same_state running running = true
same_state paused paused = true
same_state cancelled cancelled = true
same_state a b = false

-- What take reads; another payload changes nothing.
pub data HandIn (A : Type 0) : Type 0 where
  cancelled_with : ℕ → ℕ → List (ℕ × ℕ × A) → HandIn A
  item_of : ℕ → ℕ → A → HandIn A
  other_payload : HandIn A

pub record PeerControl (A : Type 0) : Type 0 where
  pub workers : List ℕ
  pub n : ℕ
  pub told : RunState
  pub processed : Dict ℕ ℕ
  pub items : Dict (ℕ × ℕ) A
  pub covered : ℕ

-- How many leaves a node covers. A node of the tree begins below n, so the difference does not stop
-- at zero.
abbrev pub size_of : ℕ → ℕ → ℕ → ℕ
size_of n level pos = min ((pos + 1) * 2 ^ level) n - pos * 2 ^ level

module _ {A : Type 0} where
  unfoldable pub new_control : List ℕ → ℕ → PeerControl A
  new_control workers n = record {
    workers = workers;
    n = n;
    told = running;
    processed = [];
    items = [];
    covered = 0;
  }

  -- The control after a poll that finds `state`, the sends, and whether it is paused.
  unfoldable pub relay : PeerControl A → RunState → PeerControl A × List (ℕ × Tag) × Bool
  unfolding tag_of
  relay c state =
      if not (same_state state c.told) && not (same_state c.told cancelled)
      then (
        record c { told = state },
        map (λ dest. (dest, tag_of state)) c.workers,
        same_state state paused,
      )
      else (c, [], same_state state paused)

  unfoldable pub add_when : Option A → PeerControl A → ℕ → ℕ → A → PeerControl A
  add_when (some old) c level pos value = c
  add_when none c level pos value = record c {
    items = put c.items (level, pos) value;
    covered = c.covered + size_of c.n level pos;
  }

  unfoldable pub add : PeerControl A → ℕ → ℕ → A → PeerControl A
  unfolding add_when
  add c level pos value = add_when (get c.items (level, pos)) c level pos value

  unfoldable pub add_parked : PeerControl A → List (ℕ × ℕ × A) → PeerControl A
  unfolding add
  add_parked c [] = c
  add_parked c ((level, pos, value) ∷ parked) = add_parked (add c level pos value) parked

  -- The state after a payload.
  unfoldable pub file_payload : PeerControl A → HandIn A → PeerControl A
  unfolding add_parked
  file_payload c (cancelled_with address count parked) =
      add_parked (record c { processed = put c.processed address count }) parked
  file_payload c (item_of level pos value) = add c level pos value
  file_payload c other_payload = c

  -- for (level, pos), value in self._items.items(): tree.feed(pos, value, level)
  unfoldable pub feed_items : (A → A → A) → LazyReducer A → Dict (ℕ × ℕ) A → Option (LazyReducer A)
  unfolding feed_at
  feed_items combine tree [] = some tree
  feed_items combine tree (((level, pos), value) ∷ items) =
      elim (feed_at combine tree pos value level) [
        | none ↦ none
        | some tree' ↦ feed_items combine tree' items
      ]

  -- Whether the hand-ins are all there and cover the processed leaves.
  unfoldable pub is_complete : PeerControl A → Bool
  unfolding sum
  is_complete c =
      not (ltb (length c.processed) (length c.workers)) && (c.covered == sum (values c.processed))

  -- The fold of what is in hand with its count, none if a feed does not end.
  unfoldable pub fold_items : (A → Bool) → (A → A → A) → A → PeerControl A → Option (A × ℕ)
  unfolding feed_items new frontier running_fold
  fold_items is_none combine empty c = elim (feed_items combine (new c.n) c.items) [
    | none ↦ none
    | some tree ↦ some ((running_fold is_none combine empty (frontier tree)).0, c.covered)
  ]

  unfoldable pub take :
      (A → Bool) → (A → A → A) → A → PeerControl A → HandIn A → PeerControl A × Option (A × ℕ)
  unfolding file_payload is_complete fold_items
  take is_none combine empty c payload =
      let c' = file_payload c payload in
      (c', if is_complete c' then fold_items is_none combine empty c' else none)

  -- The payloads of several polls.
  unfoldable pub file_all : PeerControl A → List (HandIn A) → PeerControl A
  unfolding file_payload
  file_all c [] = c
  file_all c (payload ∷ payloads) = file_all (file_payload c payload) payloads

  -- The sends of several polls.
  unfoldable pub relay_all : PeerControl A → List RunState → List (ℕ × Tag)
  unfolding relay
  relay_all c [] = []
  relay_all c (state ∷ states) =
      let (c', sends, is_paused) = relay c state in sends ++ relay_all c' states
