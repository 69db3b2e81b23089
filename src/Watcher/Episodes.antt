-- ===== src/Watcher/Episodes.antt =====
-- The updates of native_watcher_queue.py over a whole log.
use causpan.Prelude.{
  has, ==_refl, ℕ, ◌+◌, ℤ, ◌≡◌, refl, ◌∙◌, inl, inr, subst, Option, none, some, none≢some,
  some_injective, List, [], ◌∷◌, ◌++◌, Dict, get, nat_eq, int_eq, map, total_of, false,
  Option-cases, arith,
}
use causpan.Watcher.{
  Action, Item, Unmatched, Queue, Line, key_eq, observe_item, item_at, read_line, read_lines,
  finish, empty_queue,
}
use causpan.Watcher.Balance.{total, total-append}
use causpan.Watcher.Seen.{
  tid_after, contexts_after, seen, observed, weight_of, total-seen, unchanged,
}
use causpan.Watcher.Updates.{
  Tracked, updates_of, update_item-Tracked, enqueue_item-Tracked, end_removed-Tracked,
  end_canceled-Tracked,
}

module _ (f : Item → ℕ) where
  recount : {u v : ℕ} {q : Queue} → u ≡ v → Tracked f u q → Tracked f v q
  recount {u} {v} {q} p h = subst (λ n. Tracked f n q) p h

  observe_item-Tracked :
      (u : ℕ) (a : Action) (item : Item) (q : Queue)
      → Tracked f u q
      → Tracked f (u + weight_of f Action.update a item) (observe_item a item q)
  unfolding observe_item
  observe_item-Tracked u Action.enqueue item q h =
      recount (omega arith) (enqueue_item-Tracked f u item q h)
  observe_item-Tracked u Action.dequeue item q h =
      recount (omega arith) (end_removed-Tracked f u item q h)
  observe_item-Tracked u Action.update item q h = update_item-Tracked f u item q h
  observe_item-Tracked u Action.cancel item q h =
      recount (omega arith) (end_canceled-Tracked f u item q h)

  -- a line that changes no report
  quiet-Tracked :
      {u : ℕ} {q : Queue} (contexts : Dict ℕ ℕ) (tid : Option ℕ)
      → Tracked f u q
      → Tracked f (u + 0) (record q { contexts = contexts; tid = tid })
  quiet-Tracked contexts tid h = record {
    lost = h.lost;
    counted = omega (arith, h.counted);
    found = h.found;
    distinct = h.distinct;
    open_ones = h.open_ones;
  }

  -- what holds after a line
  record Step (u number : ℕ) (line : Line) (q s : Queue) : Type 0 where
    tracked : Tracked f (u + total f (seen Action.update number q.tid q.contexts line)) s
    tid : s.tid ≡ tid_after q.tid line
    contexts : s.contexts ≡ contexts_after q.contexts line

  read_line-Step :
      (u number : ℕ) (line : Line) (q s : Queue)
      → Tracked f u q
      → read_line number line q ≡ some s
      → Step u number line q s
  unfolding read_line seen contexts_after
  read_line-Step u number (Line.marker_write tid none) q s h p =
      subst (Step u number (Line.marker_write tid none) q) (some_injective p)
        (record { tracked = quiet-Tracked _ _ h; tid = refl; contexts = refl })
  read_line-Step u number (Line.marker_write tid (some request)) q s h p =
      subst (Step u number (Line.marker_write tid (some request)) q) (some_injective p)
        (record { tracked = quiet-Tracked _ _ h; tid = refl; contexts = refl })
  read_line-Step u number (Line.thread tid) q s h p =
      subst (Step u number (Line.thread tid) q) (some_injective p)
        (record { tracked = quiet-Tracked _ _ h; tid = refl; contexts = refl })
  read_line-Step u number Line.unrelated q s h p =
      subst (Step u number Line.unrelated q) (some_injective p)
        (record { tracked = quiet-Tracked _ _ h; tid = refl; contexts = refl })
  read_line-Step u number (Line.observation a none) q s h p = absurd (none≢some p)
  read_line-Step u number (Line.observation a (some values)) q s h p = elim (Option-cases q.tid) [
    | inl k ↦ absurd (none≢some (rw (k, read_line) at p))
    | inr (tid, k) ↦
        let item = item_at number tid values q.contexts in
        subst (Step u number (Line.observation a (some values)) q)
          (some_injective (rw (k, read_line) at p))
          (record {
            tracked =
                recount
                  (omega (arith, total-seen f Action.update a number tid values q.contexts q.tid k))
                  (observe_item-Tracked u a item q h);
            tid = (unchanged a item q).0;
            contexts = (unchanged a item q).1;
          })
  ]

  read_lines-Tracked :
      (lines : List Line) (u number : ℕ) (q s : Queue)
      → Tracked f u q
      → read_lines number lines q ≡ some s
      → Tracked f (u + total f (observed Action.update number q.tid q.contexts lines)) s
  unfolding read_lines observed
  read_lines-Tracked [] u number q s h p =
      subst (Tracked f (u + 0)) (some_injective p) (quiet-Tracked q.contexts q.tid h)
  read_lines-Tracked (line ∷ lines) u number q s h p =
      elim (Option-cases (read_line number line q)) [
        | inl k ↦ absurd (none≢some (rw (k, read_lines) at p))
        | inr (next, k) ↦
            let first = read_line-Step u number line q next h k in
            let more =
              read_lines-Tracked lines _ (number + 1) next s first.tracked
                (rw (k, read_lines) at p) in
            recount
              (omega (
                arith,
                total-append f (seen Action.update number q.tid q.contexts line) (
                    observed Action.update (number + 1) (tid_after q.tid line)
                      (contexts_after q.contexts line) lines),
              ))
              (rw (first.tid, first.contexts) at more)
      ]

  no_updates :
      (d : Dict (ℤ × ℤ) (List Item)) → ((k : ℤ × ℤ) → has k d ≡ false) → total_of (total f) d ≡ 0
  unfolding get
  no_updates [] h = refl
  no_updates ((k, v) ∷ d) h = absurd (ground (arith, h k, ==_refl k))

  nothing_left :
      (xs : List Unmatched) (d : Dict (ℤ × ℤ) Item)
      → xs ++ map (λ entry. Unmatched.no_observed_removal entry.1) d ≡ []
      → (xs ≡ []) × (d ≡ [])
  nothing_left [] [] h = (refl, refl)
  nothing_left [] (x ∷ d) h = absurd cc
  nothing_left (x ∷ xs) d h = absurd cc

  -- The updates of a log are in the report, if nothing is unmatched.
  pub join-updates :
      (lines : List Line) (s : Queue)
      → read_lines 1 lines empty_queue ≡ some s
      → (finish s).unmatched ≡ []
      → total f (observed Action.update 1 none [] lines) ≡ updates_of f (finish s)
  unfolding finish get
  join-updates lines s p none_left =
      let start : Tracked f 0 empty_queue = record {
        lost = 0;
        counted = refl;
        found = λ h. refl;
        distinct = tt;
        open_ones = λ k. refl;
      } in
      let t = read_lines-Tracked lines 0 1 empty_queue s start p in
      let (empty, closed) = nothing_left s.unmatched s.pending none_left in
      let all_closed : (k : ℤ × ℤ) → has k s.updates ≡ false =
        λ k. t.open_ones k ∙ rw closed refl in
      omega (arith, t.counted, t.found empty, no_updates s.updates all_closed)
