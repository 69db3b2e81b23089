-- ===== src/Watcher/Updates.antt =====
-- Where the updates of a log of native_watcher_queue.py are in the report.
use causpan.Prelude.{
  ℕ, ◌+◌, ℤ, ◌≡◌, inl, inr, subst, none, some, none≢some, some_injective, List, [], ◌∷◌, ◌++◌, Dict,
  get, has, put, remove, get-put, get-remove, IsDistinct, put-IsDistinct, remove-IsDistinct,
  total_of, total_of-put, total_of-remove-none, total_of-remove-some, int_eq, true, false, ◌==◌,
  Bool-cases, Option-cases, arith,
}
use causpan.Watcher.{
  Item, Match, Canceled, Queue, key_of, key_eq, episode, leave, end_canceled, end_removed,
  replace_pending, enqueue_item, update_item,
}
use causpan.Watcher.Balance.{total, total-append}

-- the updates of the reports, and the ones outside an episode
abbrev pub updates_of : (Item → ℕ) → Queue → ℕ
updates_of f q =
    total (λ (m : Match). total f m.observed_updates) q.matches
    + (total (λ (c : Canceled). total f c.observed_updates) q.canceled + total f q.outside_updates)

total_of-replace :
    (f : List Item → ℕ) (k : ℤ × ℤ) (old new : List Item) (d : Dict (ℤ × ℤ) (List Item))
    → get k d ≡ some old
    → total_of f (put k new d) + f old ≡ total_of f d + f new
unfolding get put
total_of-replace f k old new [] h = absurd (none≢some h)
total_of-replace f k old new ((j, w) ∷ d) h = elim (Bool-cases (j == k)) [
  | inl p ↦
      let same : w ≡ old = some_injective (rw p at h) in
      rw p (subst (λ z. f new + total_of f d + f z ≡ f w + total_of f d + f new) same (omega arith))
  | inr p ↦ rw p (omega (arith, total_of-replace f k old new d (rw p at h)))
]

-- Every update so far is reported, in an open episode, or lost with an unmatched report.
pub record Tracked (f : Item → ℕ) (u : ℕ) (q : Queue) : Type 0 where
  pub lost : ℕ
  pub counted : u ≡ updates_of f q + total_of (total f) q.updates + lost
  pub found : q.unmatched ≡ [] → lost ≡ 0
  pub distinct : IsDistinct q.updates
  pub open_ones : (k : ℤ × ℤ) → has k q.updates ≡ has k q.pending

not_empty : {A : Type 0} (xs : List A) (x : A) (n : ℕ) → xs ++ x ∷ [] ≡ [] → n ≡ 0
not_empty [] x n h = absurd cc
not_empty (y ∷ xs) x n h = absurd cc

module _ (f : Item → ℕ) (u : ℕ) (item : Item) (q : Queue) (h : Tracked f u q) where
  no_episode : get (key_of item) q.pending ≡ none → get (key_of item) q.updates ≡ none
  no_episode p = ground (arith, h.open_ones (key_of item))

  some_episode :
      (previous : Item)
      → get (key_of item) q.pending ≡ some previous
      → (items : List Item) × (get (key_of item) q.updates ≡ some items)
  some_episode previous p = elim (Option-cases (get (key_of item) q.updates)) [
    | inl r ↦ absurd (ground (arith, h.open_ones (key_of item)))
    | inr found ↦ found
  ]

  put_both :
      (k : ℤ × ℤ)
      → has k (put (key_of item) [] q.updates) ≡ has k (put (key_of item) item q.pending)
  put_both k = ground (
    arith,
    h.open_ones k,
    get-put (key_of item) k [] q.updates,
    get-put (key_of item) k item q.pending,
  )

  remove_both :
      (k : ℤ × ℤ) → has k (remove (key_of item) q.updates) ≡ has k (remove (key_of item) q.pending)
  remove_both k = ground (
    arith,
    h.open_ones k,
    get-remove (key_of item) k q.updates,
    get-remove (key_of item) k q.pending,
  )

  replace_both :
      (k : ℤ × ℤ)
      → has k (put (key_of item) [] q.updates)
        ≡ has k (put (key_of item) item (remove (key_of item) q.pending))
  replace_both k = ground (
    arith,
    h.open_ones k,
    get-put (key_of item) k [] q.updates,
    get-put (key_of item) k item (remove (key_of item) q.pending),
    get-remove (key_of item) k q.pending,
  )

  pub enqueue_item-Tracked : Tracked f u (enqueue_item item q)
  unfolding enqueue_item replace_pending
  enqueue_item-Tracked = elim (Option-cases (get (key_of item) q.pending)) [
    | inl p ↦
        rw (p, enqueue_item, replace_pending)
          (record {
            lost = h.lost;
            counted = omega (
              arith,
              h.counted,
              total_of-put (total f) (key_of item) [] q.updates (no_episode p),
            );
            found = h.found;
            distinct = put-IsDistinct (key_of item) [] q.updates h.distinct;
            open_ones = put_both;
          })
    | inr (previous, p) ↦
        let (items, r) = some_episode previous p in
        rw (p, enqueue_item, replace_pending)
          (record {
            lost = h.lost + total f items;
            counted =
                omega
                  (arith, h.counted, total_of-replace (total f) (key_of item) items [] q.updates r);
            found = not_empty q.unmatched _ (h.lost + total f items);
            distinct = put-IsDistinct (key_of item) [] q.updates h.distinct;
            open_ones = replace_both;
          })
  ]

  pub update_item-Tracked : Tracked f (u + f item) (update_item item q)
  unfolding update_item episode
  update_item-Tracked = elim (Option-cases (get (key_of item) q.pending)) [
    | inl p ↦
        let absent : has (key_of item) q.pending ≡ false = ground arith in
        rw (absent, update_item)
          (record {
            lost = h.lost;
            counted = omega (arith, h.counted, total-append f q.outside_updates (item ∷ []));
            found = h.found;
            distinct = h.distinct;
            open_ones = h.open_ones;
          })
    | inr (previous, p) ↦
        let (items, r) = some_episode previous p in
        let there : has (key_of item) q.pending ≡ true = ground arith in
        rw (there, r, update_item, episode)
          (record {
            lost = h.lost;
            counted = omega (
              arith,
              h.counted,
              total_of-replace (total f) (key_of item) items (items ++ item ∷ []) q.updates r,
              total-append f items (item ∷ []),
            );
            found = h.found;
            distinct = put-IsDistinct (key_of item) (items ++ item ∷ []) q.updates h.distinct;
            open_ones = λ k. ground (
              arith,
              h.open_ones k,
              h.open_ones (key_of item),
              there,
              get-put (key_of item) k (items ++ item ∷ []) q.updates,
              key_eq.same_iff (key_of item) k,
            );
          })
  ]

  abbrev pub removed_queue : Queue
  removed_queue =
      end_removed item (episode (key_of item) q) (get (key_of item) q.pending)
        (leave (key_of item) q)

  abbrev pub canceled_queue : Queue
  canceled_queue =
      end_canceled item (episode (key_of item) q) (get (key_of item) q.pending)
        (leave (key_of item) q)

  pub end_removed-Tracked : Tracked f u removed_queue
  unfolding leave end_removed episode
  end_removed-Tracked = elim (Option-cases (get (key_of item) q.pending)) [
    | inl p ↦
        rw (p, end_removed)
          (record {
            lost = h.lost;
            counted = omega (
              arith,
              h.counted,
              total_of-remove-none (total f) (key_of item) q.updates (no_episode p),
            );
            found = not_empty q.unmatched _ h.lost;
            distinct = remove-IsDistinct (key_of item) q.updates h.distinct;
            open_ones = remove_both;
          })
    | inr (previous, p) ↦
        let (items, r) = some_episode previous p in
        let gone = total_of-remove-some (total f) (key_of item) items q.updates h.distinct r in
        elim (Bool-cases (previous.fd == item.fd)) [
          | inl k ↦
              rw (p, r, k, end_removed, episode)
                (record {
                  lost = h.lost;
                  counted = omega (
                    arith,
                    h.counted,
                    gone,
                    total-append (λ (m : Match). total f m.observed_updates) q.matches (_ ∷ []),
                  );
                  found = h.found;
                  distinct = remove-IsDistinct (key_of item) q.updates h.distinct;
                  open_ones = remove_both;
                })
          | inr k ↦
              rw (p, r, k, end_removed, episode)
                (record {
                  lost = h.lost + total f items;
                  counted = omega (arith, h.counted, gone);
                  found = not_empty q.unmatched _ (h.lost + total f items);
                  distinct = remove-IsDistinct (key_of item) q.updates h.distinct;
                  open_ones = remove_both;
                })
        ]
  ]

  pub end_canceled-Tracked : Tracked f u canceled_queue
  unfolding leave end_canceled episode
  end_canceled-Tracked = elim (Option-cases (get (key_of item) q.pending)) [
    | inl p ↦
        rw (p, end_canceled)
          (record {
            lost = h.lost;
            counted = omega (
              arith,
              h.counted,
              total_of-remove-none (total f) (key_of item) q.updates (no_episode p),
            );
            found = h.found;
            distinct = remove-IsDistinct (key_of item) q.updates h.distinct;
            open_ones = remove_both;
          })
    | inr (previous, p) ↦
        let (items, r) = some_episode previous p in
        let gone = total_of-remove-some (total f) (key_of item) items q.updates h.distinct r in
        elim (Bool-cases (previous.fd == item.fd)) [
          | inl k ↦
              rw (p, r, k, end_canceled, episode)
                (record {
                  lost = h.lost;
                  counted = omega (
                    arith,
                    h.counted,
                    gone,
                    total-append (λ (c : Canceled). total f c.observed_updates) q.canceled (_ ∷ []),
                  );
                  found = h.found;
                  distinct = remove-IsDistinct (key_of item) q.updates h.distinct;
                  open_ones = remove_both;
                })
          | inr k ↦
              rw (p, r, k, end_canceled, episode)
                (record {
                  lost = h.lost + total f items;
                  counted = omega (arith, h.counted, gone);
                  found = not_empty q.unmatched _ (h.lost + total f items);
                  distinct = remove-IsDistinct (key_of item) q.updates h.distinct;
                  open_ones = remove_both;
                })
        ]
  ]
