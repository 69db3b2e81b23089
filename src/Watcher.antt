-- ===== src/Watcher.antt =====
-- `join` of experiments/mcp/native_watcher_queue.py: the episodes of watchers in the queue, from
-- their insertion to their removal. The lines are parsed before: a line is a marker with its thread,
-- the thread of what follows, or an observation of a watcher.
pub mod Balance
pub mod Updates
pub mod Seen
pub mod Episodes
pub mod Account
use causpan.Prelude.{
  ℕ, ◌+◌, ℤ, pos, Option, none, some, List, [], ◌∷◌, ◌++◌, Dict, get, has, put, remove, Bool, true,
  false, ◌&&◌, not, ◌==◌, nat_eq, Eq, int_eq, ◌≡◌, ◌↔◌, arith, map, if◌then◌else◌,
}

abbrev pub key_beq : ℤ × ℤ → ℤ × ℤ → Bool
key_beq (a, b) (c, d) = a == c && b == d

pub key_beq_iff : (j k : ℤ × ℤ) → (key_beq j k ≡ true) ↔ (j ≡ k)
key_beq_iff (a, b) (c, d) = ground (arith, int_eq.same_iff a c, int_eq.same_iff b d)

instance abbrev pub key_eq : Eq (ℤ × ℤ)
key_eq = record { same = key_beq; same_iff = key_beq_iff }

-- WATCHER_ENQUEUE, WATCHER_DEQUEUE, WATCHER_UPDATE and WATCHER_CANCEL
pub data Action : Type 0 where
  enqueue dequeue update cancel : Action

-- an observation, with its line, its thread and the context of that thread
pub record Item : Type 0 where
  pub loop : ℤ
  pub watcher : ℤ
  pub fd : ℤ
  pub pevents : ℤ
  pub events : ℤ
  pub line : ℕ
  pub tid : ℕ
  pub context : Option ℕ

-- `dict(reason=..., event=..., insertion=...)`
pub data Unmatched : Type 0 where
  cancel_descriptor_changed : Item → Item → Unmatched
  replacement_without_observed_removal : Item → Unmatched
  no_observed_insertion : Item → Unmatched
  descriptor_changed : Item → Item → Unmatched
  no_observed_removal : Item → Unmatched

pub record Match : Type 0 where
  pub insertion : Item
  pub removal : Item
  pub observed_updates : List Item
  pub masks_unchanged : Bool

pub record Canceled : Type 0 where
  pub insertion : Item
  pub cancellation : Item
  pub observed_updates : List Item

-- the locals of `join`
pub record Queue : Type 0 where
  pub contexts : Dict ℕ ℕ
  pub tid : Option ℕ
  pub pending : Dict (ℤ × ℤ) Item
  pub updates : Dict (ℤ × ℤ) (List Item)
  pub matches : List Match
  pub unmatched : List Unmatched
  pub canceled : List Canceled
  pub idle_stops : List Item
  pub outside_updates : List Item

abbrev pub key_of : Item → ℤ × ℤ
key_of item = (item.loop, item.watcher)

-- `updates.pop(key, [])`, the list
unfoldable pub episode : ℤ × ℤ → Queue → List Item
episode key q = elim (get key q.updates) [ none ↦ [] | some items ↦ items ]

-- `pending.pop(key, None)` and `updates.pop(key, [])`, the state
unfoldable pub leave : ℤ × ℤ → Queue → Queue
leave key q = record q { pending = remove key q.pending; updates = remove key q.updates }

unfoldable pub end_canceled : Item → List Item → Option Item → Queue → Queue
end_canceled item items none q = record q { idle_stops = q.idle_stops ++ item ∷ [] }
end_canceled item items (some previous) q =
    if previous.fd == item.fd
    then record q {
      canceled =
          q.canceled
          ++ record { insertion = previous; cancellation = item; observed_updates = items } ∷ [];
    }
    else record q {
      unmatched = q.unmatched ++ Unmatched.cancel_descriptor_changed item previous ∷ [];
    }

unfoldable pub end_removed : Item → List Item → Option Item → Queue → Queue
end_removed item items none q = record q {
  unmatched = q.unmatched ++ Unmatched.no_observed_insertion item ∷ [];
}
end_removed item items (some previous) q =
    if previous.fd == item.fd
    then record q {
      matches =
          q.matches
          ++ record {
            insertion = previous;
            removal = item;
            observed_updates = items;
            masks_unchanged = previous.pevents == item.pevents && previous.events == item.events;
          }
            ∷ [];
    }
    else record q { unmatched = q.unmatched ++ Unmatched.descriptor_changed item previous ∷ [] }

unfoldable pub replace_pending : ℤ × ℤ → Option Item → Queue → Queue
replace_pending key none q = q
replace_pending key (some previous) q = record q {
  unmatched = q.unmatched ++ Unmatched.replacement_without_observed_removal previous ∷ [];
  pending = remove key q.pending;
}

unfoldable pub enqueue_item : Item → Queue → Queue
unfolding replace_pending
enqueue_item item q =
    let key = key_of item in
    let replaced = replace_pending key (get key q.pending) q in
    record replaced {
      pending = put key item replaced.pending;
      updates = put key [] replaced.updates;
    }

unfoldable pub update_item : Item → Queue → Queue
unfolding episode
update_item item q =
    let key = key_of item in
    if has key q.pending
    then record q { updates = put key (episode key q ++ item ∷ []) q.updates }
    else record q { outside_updates = q.outside_updates ++ item ∷ [] }

-- the branches on an observation
unfoldable pub observe_item : Action → Item → Queue → Queue
unfolding enqueue_item update_item end_canceled end_removed leave episode
observe_item Action.enqueue item q = enqueue_item item q
observe_item Action.update item q = update_item item q
observe_item Action.cancel item q =
    let key = key_of item in end_canceled item (episode key q) (get key q.pending) (leave key q)
observe_item Action.dequeue item q =
    let key = key_of item in end_removed item (episode key q) (get key q.pending) (leave key q)

-- A line: MARKER_WRITE of a thread, with the request if the kind is one of the contexts,
-- WATCHER_THREAD, or an observation with its values, `none` where they are not the five names.
pub data Line : Type 0 where
  marker_write : ℕ → Option ℕ → Line
  thread : ℕ → Line
  observation : Action → Option (ℤ × ℤ × ℤ × ℤ × ℤ) → Line
  unrelated : Line

unfoldable pub item_at : ℕ → ℕ → ℤ × ℤ × ℤ × ℤ × ℤ → Dict ℕ ℕ → Item
item_at number tid (loop, watcher, fd, pevents, events) contexts = record {
  loop = loop;
  watcher = watcher;
  fd = fd;
  pevents = pevents;
  events = events;
  line = number;
  tid = tid;
  context = get tid contexts;
}

-- one round of the loop over the lines; `none` is the ValueError
unfoldable pub read_line : ℕ → Line → Queue → Option Queue
unfolding observe_item item_at
read_line number (Line.marker_write tid none) q = some q
read_line number (Line.marker_write tid (some request)) q =
    some (record q { contexts = put tid request q.contexts })
read_line number (Line.thread tid) q = some (record q { tid = some tid })
read_line number Line.unrelated q = some q
read_line number (Line.observation action none) q = none
read_line number (Line.observation action (some values)) q = elim q.tid [
  | none ↦ none
  | some tid ↦ some (observe_item action (item_at number tid values q.contexts) q)
]

unfoldable pub read_lines : ℕ → List Line → Queue → Option Queue
unfolding read_line
read_lines number [] q = some q
read_lines number (line ∷ lines) q = elim (read_line number line q) [
  | none ↦ none
  | some next ↦ read_lines (number + 1) lines next
]

-- what is pending at the end has no observed removal
unfoldable pub finish : Queue → Queue
finish q = record q {
  unmatched = q.unmatched ++ map (λ entry. Unmatched.no_observed_removal entry.1) q.pending;
}

abbrev pub empty_queue : Queue
empty_queue = record {
  contexts = [];
  tid = none;
  pending = [];
  updates = [];
  matches = [];
  unmatched = [];
  canceled = [];
  idle_stops = [];
  outside_updates = [];
}

-- `join`
unfoldable pub join : List Line → Option Queue
unfolding read_lines finish
join lines = elim (read_lines 1 lines empty_queue) [ none ↦ none | some q ↦ some (finish q) ]
