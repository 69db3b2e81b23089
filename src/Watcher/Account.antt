-- ===== src/Watcher/Account.antt =====
-- `join` of native_watcher_queue.py over a whole log.
use causpan.Prelude.{
  ℕ, ◌+◌, ℤ, ◌≡◌, refl, sym, ◌∙◌, inl, inr, subst, Option, none, some, none≢some, some_injective,
  List, [], ◌∷◌, Dict, get, nat_eq, int_eq, map, total_of, All, Option-cases, arith,
}
use causpan.Watcher.{
  Action, Item, Unmatched, Match, Canceled, Queue, Line, key_eq, observe_item, item_at, read_line,
  read_lines, finish, empty_queue, join,
}
use causpan.Watcher.Balance.{
  Balance, IsPair, insertion, removal, stop, insertions, removals, stops, total, total-append,
  enqueue_item-Balance, update_item-Balance, end_removed-Balance, end_canceled-Balance,
}
use causpan.Watcher.Seen.{
  tid_after, contexts_after, seen, observed, weight_of, total-seen, unchanged,
}
use causpan.Watcher.Updates.{updates_of}
use causpan.Watcher.Episodes.{join-updates}

module _ (f : Item → ℕ) where
  -- to state a balance of other numbers that are the same
  recount :
      {e d c e' d' c' : ℕ} {q : Queue}
      → e ≡ e'
      → d ≡ d'
      → c ≡ c'
      → Balance f e d c q
      → Balance f e' d' c' q
  recount p r s h = record {
    distinct = h.distinct;
    named = h.named;
    match_pairs = h.match_pairs;
    cancel_pairs = h.cancel_pairs;
    inserted = sym p ∙ h.inserted;
    removed = sym r ∙ h.removed;
    stopped = sym s ∙ h.stopped;
  }

  observe_item-Balance :
      (e d c : ℕ) (a : Action) (item : Item) (q : Queue)
      → Balance f e d c q
      → Balance f
          (e + weight_of f Action.enqueue a item)
          (d + weight_of f Action.dequeue a item)
          (c + weight_of f Action.cancel a item)
          (observe_item a item q)
  unfolding observe_item
  observe_item-Balance e d c Action.enqueue item q h =
      recount refl (omega arith) (omega arith) (enqueue_item-Balance f e d c item q h)
  observe_item-Balance e d c Action.dequeue item q h =
      recount (omega arith) refl (omega arith) (end_removed-Balance f e d c item q h)
  observe_item-Balance e d c Action.update item q h =
      recount (omega arith) (omega arith) (omega arith) (update_item-Balance f e d c item q h)
  observe_item-Balance e d c Action.cancel item q h =
      recount (omega arith) (omega arith) refl (end_canceled-Balance f e d c item q h)

module _ (f : Item → ℕ) where
  -- a line that changes no report
  quiet-Balance :
      {e d c : ℕ} {q : Queue} (contexts : Dict ℕ ℕ) (tid : Option ℕ)
      → Balance f e d c q
      → Balance f (e + 0) (d + 0) (c + 0) (record q { contexts = contexts; tid = tid })
  quiet-Balance contexts tid h = record {
    distinct = h.distinct;
    named = h.named;
    match_pairs = h.match_pairs;
    cancel_pairs = h.cancel_pairs;
    inserted = omega (arith, h.inserted);
    removed = omega (arith, h.removed);
    stopped = omega (arith, h.stopped);
  }

  -- what holds after a line
  record Step (e d c number : ℕ) (line : Line) (q s : Queue) : Type 0 where
    balance :
        Balance f
          (e + total f (seen Action.enqueue number q.tid q.contexts line))
          (d + total f (seen Action.dequeue number q.tid q.contexts line))
          (c + total f (seen Action.cancel number q.tid q.contexts line))
          s
    tid : s.tid ≡ tid_after q.tid line
    contexts : s.contexts ≡ contexts_after q.contexts line

  observation-Step :
      (e d c number tid : ℕ) (a : Action) (values : ℤ × ℤ × ℤ × ℤ × ℤ) (q : Queue)
      → Balance f e d c q
      → q.tid ≡ some tid
      → Step e d c number
          (Line.observation a (some values))
          q
          (observe_item a (item_at number tid values q.contexts) q)
  unfolding seen contexts_after
  observation-Step e d c number tid a values q h k =
      let item = item_at number tid values q.contexts in
      let b = observe_item-Balance f e d c a item q h in
      record {
        balance =
            recount f
              (omega (arith, total-seen f Action.enqueue a number tid values q.contexts q.tid k))
              (omega (arith, total-seen f Action.dequeue a number tid values q.contexts q.tid k))
              (omega (arith, total-seen f Action.cancel a number tid values q.contexts q.tid k)) b;
        tid = (unchanged a item q).0;
        contexts = (unchanged a item q).1;
      }

  read_line-Step :
      (e d c number : ℕ) (line : Line) (q s : Queue)
      → Balance f e d c q
      → read_line number line q ≡ some s
      → Step e d c number line q s
  unfolding read_line seen contexts_after
  read_line-Step e d c number (Line.marker_write tid none) q s h p =
      subst (Step e d c number (Line.marker_write tid none) q) (some_injective p)
        (record { balance = quiet-Balance _ _ h; tid = refl; contexts = refl })
  read_line-Step e d c number (Line.marker_write tid (some request)) q s h p =
      subst (Step e d c number (Line.marker_write tid (some request)) q) (some_injective p)
        (record { balance = quiet-Balance _ _ h; tid = refl; contexts = refl })
  read_line-Step e d c number (Line.thread tid) q s h p =
      subst (Step e d c number (Line.thread tid) q) (some_injective p)
        (record { balance = quiet-Balance _ _ h; tid = refl; contexts = refl })
  read_line-Step e d c number Line.unrelated q s h p =
      subst (Step e d c number Line.unrelated q) (some_injective p)
        (record { balance = quiet-Balance _ _ h; tid = refl; contexts = refl })
  read_line-Step e d c number (Line.observation a none) q s h p = absurd (none≢some p)
  read_line-Step e d c number (Line.observation a (some values)) q s h p =
      elim (Option-cases q.tid) [
        | inl k ↦ absurd (none≢some (rw (k, read_line) at p))
        | inr (tid, k) ↦
            subst (Step e d c number (Line.observation a (some values)) q)
              (some_injective (rw (k, read_line) at p))
              (observation-Step e d c number tid a values q h k)
      ]

  read_lines-Balance :
      (lines : List Line) (e d c number : ℕ) (q s : Queue)
      → Balance f e d c q
      → read_lines number lines q ≡ some s
      → Balance f
          (e + total f (observed Action.enqueue number q.tid q.contexts lines))
          (d + total f (observed Action.dequeue number q.tid q.contexts lines))
          (c + total f (observed Action.cancel number q.tid q.contexts lines))
          s
  unfolding read_lines observed
  read_lines-Balance [] e d c number q s h p =
      subst (Balance f (e + 0) (d + 0) (c + 0)) (some_injective p)
        (quiet-Balance q.contexts q.tid h)
  read_lines-Balance (line ∷ lines) e d c number q s h p =
      elim (Option-cases (read_line number line q)) [
        | inl k ↦ absurd (none≢some (rw (k, read_lines) at p))
        | inr (next, k) ↦
            let first = read_line-Step e d c number line q next h k in
            let more =
              read_lines-Balance lines _ _ _ (number + 1) next s first.balance
                (rw (k, read_lines) at p) in
            let sums = λ (a : Action). total-append f (seen a number q.tid q.contexts line) (
              observed a (number + 1) (tid_after q.tid line) (contexts_after q.contexts line)
                lines) in
            recount f (omega (arith, sums Action.enqueue)) (omega (arith, sums Action.dequeue))
              (omega (arith, sums Action.cancel)) (rw (first.tid, first.contexts) at more)
      ]

-- what is pending at the end is of insertions alone
abbrev left_over : Dict (ℤ × ℤ) Item → List Unmatched
left_over d = map (λ entry. Unmatched.no_observed_removal entry.1) d

module _ (f : Item → ℕ) where
  total-left_insertions : (d : Dict (ℤ × ℤ) Item) → total (insertion f) (left_over d) ≡ total_of f d
  total-left_insertions [] = refl
  total-left_insertions (x ∷ d) = omega (arith, total-left_insertions d)

  total-left_removals : (d : Dict (ℤ × ℤ) Item) → total (removal f) (left_over d) ≡ 0
  total-left_removals [] = refl
  total-left_removals (x ∷ d) = omega (arith, total-left_removals d)

  total-left_stops : (d : Dict (ℤ × ℤ) Item) → total (stop f) (left_over d) ≡ 0
  total-left_stops [] = refl
  total-left_stops (x ∷ d) = omega (arith, total-left_stops d)

-- What is true of the report of a log, for a weight of observations.
pub record IsBalanced (f : Item → ℕ) (lines : List Line) (q : Queue) : Type 0 where
  pub inserted : total f (observed Action.enqueue 1 none [] lines) ≡ insertions f q
  pub removed : total f (observed Action.dequeue 1 none [] lines) ≡ removals f q
  pub stopped : total f (observed Action.cancel 1 none [] lines) ≡ stops f q
  pub updated : q.unmatched ≡ [] → total f (observed Action.update 1 none [] lines) ≡ updates_of f q
  pub match_pairs : All (λ (m : Match). IsPair m.insertion m.removal) q.matches
  pub cancel_pairs : All (λ (c : Canceled). IsPair c.insertion c.cancellation) q.canceled

-- In the report of a log that `join` accepts, the insertions that the log observes, each with its line,
-- thread and context, are those of the matches, the cancellations and the unmatched reports together,
-- each as often as the log has it (every weight has the same sum over both); the removals those of
-- the matches and the unmatched reports; and the stops those of the cancellations, the idle stops and
-- the unmatched reports. A match and a cancellation are of two observations of one watcher of one
-- loop with one descriptor. If nothing is unmatched, the updates are those of the matches, the
-- cancellations and the ones outside an episode.
pub join-IsBalanced :
    (f : Item → ℕ) (lines : List Line) (q : Queue) → join lines ≡ some q → IsBalanced f lines q
unfolding join finish get
join-IsBalanced f lines q h = elim (Option-cases (read_lines 1 lines empty_queue)) [
  | inl p ↦ absurd (none≢some (rw (p, join) at h))
  | inr (s, p) ↦
      let start : Balance f 0 0 0 empty_queue = record {
        distinct = tt;
        named = λ k item g. absurd (none≢some g);
        match_pairs = tt;
        cancel_pairs = tt;
        inserted = refl;
        removed = refl;
        stopped = refl;
      } in
      let b = read_lines-Balance f lines 0 0 0 1 empty_queue s start p in
      let left = left_over s.pending in
      subst (IsBalanced f lines) (some_injective (rw (p, join) at h)) (record {
        inserted = omega (
          arith,
          b.inserted,
          total-append (insertion f) s.unmatched left,
          total-left_insertions f s.pending,
        );
        removed = omega (
          arith,
          b.removed,
          total-append (removal f) s.unmatched left,
          total-left_removals f s.pending,
        );
        stopped = omega (
          arith,
          b.stopped,
          total-append (stop f) s.unmatched left,
          total-left_stops f s.pending,
        );
        updated = join-updates f lines s p;
        match_pairs = b.match_pairs;
        cancel_pairs = b.cancel_pairs;
      })
]
