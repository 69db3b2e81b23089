-- ===== src/Watcher/Seen.antt =====
-- What the lines of native_watcher_queue.py observe.
use causpan.Prelude.{
  ℕ, ◌+◌, ℤ, ◌≡◌, refl, inl, inr, Option, none, some, List, [], ◌∷◌, ◌++◌, Dict, get, put, nat_eq,
  int_eq, Bool, true, false, ◌==◌, Bool-cases, Option-cases, arith, if◌then◌else◌,
}
use causpan.Watcher.{
  Action, Item, Queue, Line, key_of, key_eq, leave, end_canceled, end_removed, replace_pending,
  enqueue_item, update_item, observe_item, item_at,
}
use causpan.Watcher.Balance.{total}

abbrev pub same_action : Action → Action → Bool
same_action Action.enqueue Action.enqueue = true
same_action Action.dequeue Action.dequeue = true
same_action Action.update Action.update = true
same_action Action.cancel Action.cancel = true
same_action _ _ = false

-- the thread and the contexts after a line
abbrev pub tid_after : Option ℕ → Line → Option ℕ
tid_after tid (Line.thread t) = some t
tid_after tid _ = tid

unfoldable pub contexts_after : Dict ℕ ℕ → Line → Dict ℕ ℕ
unfolding put
contexts_after contexts (Line.marker_write tid (some request)) = put tid request contexts
contexts_after contexts _ = contexts

-- an observation, of an action or not
unfoldable seen_by : Bool → ℕ → ℤ × ℤ × ℤ × ℤ × ℤ → Dict ℕ ℕ → Option ℕ → List Item
unfolding item_at
seen_by same number values contexts none = []
seen_by same number values contexts (some tid) =
    if same then item_at number tid values contexts ∷ [] else []

-- what a line observes with an action
unfoldable pub seen : Action → ℕ → Option ℕ → Dict ℕ ℕ → Line → List Item
unfolding seen_by
seen a number tid contexts (Line.observation b (some values)) =
    seen_by (same_action a b) number values contexts tid
seen a number tid contexts _ = []

-- the observations of an action in a log, each with the thread and the context before it
unfoldable pub observed : Action → ℕ → Option ℕ → Dict ℕ ℕ → List Line → List Item
unfolding seen contexts_after
observed a number tid contexts [] = []
observed a number tid contexts (line ∷ lines) =
    seen a number tid contexts line
    ++ observed a (number + 1) (tid_after tid line) (contexts_after contexts line) lines

module _ (f : Item → ℕ) where
  abbrev pub weight_of : Action → Action → Item → ℕ
  weight_of a b item = if same_action a b then f item else 0

  pub total-seen :
      (a b : Action) (number tid : ℕ) (values : ℤ × ℤ × ℤ × ℤ × ℤ) (contexts : Dict ℕ ℕ)
      (t : Option ℕ)
      → t ≡ some tid
      → total f (seen a number t contexts (Line.observation b (some values)))
        ≡ weight_of a b (item_at number tid values contexts)
  unfolding seen
  total-seen a b number tid values contexts t p = elim (Bool-cases (same_action a b)) [
    | inl q ↦ rw (p, q, seen, seen_by) (omega arith)
    | inr q ↦ rw (p, q, seen, seen_by) refl
  ]

-- an observation changes neither the thread nor the contexts
pub unchanged :
    (a : Action) (item : Item) (q : Queue)
    → ((observe_item a item q).tid ≡ q.tid) × ((observe_item a item q).contexts ≡ q.contexts)
unfolding observe_item enqueue_item update_item end_canceled end_removed leave replace_pending
unchanged Action.enqueue item q = elim (Option-cases (get (key_of item) q.pending)) [
  | inl p ↦ rw (p, observe_item, enqueue_item, replace_pending) (refl, refl)
  | inr (previous, p) ↦ rw (p, observe_item, enqueue_item, replace_pending) (refl, refl)
]
unchanged Action.update item q = ground arith
unchanged Action.dequeue item q = elim (Option-cases (get (key_of item) q.pending)) [
  | inl p ↦ rw (p, observe_item, end_removed) (refl, refl)
  | inr (previous, p) ↦ elim (Bool-cases (previous.fd == item.fd)) [
    | inl k ↦ rw (p, k, observe_item, end_removed) (refl, refl)
    | inr k ↦ rw (p, k, observe_item, end_removed) (refl, refl)
  ]
]
unchanged Action.cancel item q = elim (Option-cases (get (key_of item) q.pending)) [
  | inl p ↦ rw (p, observe_item, end_canceled) (refl, refl)
  | inr (previous, p) ↦ elim (Bool-cases (previous.fd == item.fd)) [
    | inl k ↦ rw (p, k, observe_item, end_canceled) (refl, refl)
    | inr k ↦ rw (p, k, observe_item, end_canceled) (refl, refl)
  ]
]
