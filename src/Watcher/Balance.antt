-- ===== src/Watcher/Balance.antt =====
-- The reports of `join` in native_watcher_queue.py account for every insertion, removal and stop.
use causpan.Prelude.{
  total_of, total_of-put, total_of-remove-none, total_of-remove-some, All, All-append, some, ℤ,
  get-put, ℕ, ◌+◌, ◌≡◌, inl, inr, none, List, [], ◌∷◌, ◌++◌, get, has, remove, IsDistinct,
  put-IsDistinct, remove-IsDistinct, get-remove, ◌==◌, ==_refl, int_eq, Bool-cases, Option-cases,
  arith,
}
use causpan.Watcher.{
  Item, Unmatched, Match, Canceled, Queue, key_of, key_eq, episode, leave, end_canceled,
  end_removed, replace_pending, enqueue_item, update_item,
}

-- the sum of a weight
abbrev pub total {ℓ} : {A : Type ℓ} → (A → ℕ) → List A → ℕ
total f [] = 0
total f (x ∷ xs) = f x + total f xs

pub total-append {ℓ} :
    {A : Type ℓ} (f : A → ℕ) (xs ys : List A) → total f (xs ++ ys) ≡ total f xs + total f ys
total-append f [] ys = omega arith
total-append f (x ∷ xs) ys = omega (arith, total-append f xs ys)

-- the weight of the insertion, the removal or the stop that a report names
module _ (f : Item → ℕ) where
  abbrev pub insertion : Unmatched → ℕ
  insertion (Unmatched.cancel_descriptor_changed _ previous) = f previous
  insertion (Unmatched.replacement_without_observed_removal previous) = f previous
  insertion (Unmatched.no_observed_insertion _) = 0
  insertion (Unmatched.descriptor_changed _ previous) = f previous
  insertion (Unmatched.no_observed_removal item) = f item

  abbrev pub removal : Unmatched → ℕ
  removal (Unmatched.no_observed_insertion item) = f item
  removal (Unmatched.descriptor_changed item _) = f item
  removal _ = 0

  abbrev pub stop : Unmatched → ℕ
  stop (Unmatched.cancel_descriptor_changed item _) = f item
  stop _ = 0

  -- the reports of a queue
  abbrev pub insertions : Queue → ℕ
  insertions q =
      total (λ (m : Match). f m.insertion) q.matches
      + (total (λ (c : Canceled). f c.insertion) q.canceled + total insertion q.unmatched)

  abbrev pub removals : Queue → ℕ
  removals q = total (λ (m : Match). f m.removal) q.matches + total removal q.unmatched

  abbrev pub stops : Queue → ℕ
  stops q =
      total (λ (c : Canceled). f c.cancellation) q.canceled
      + (total f q.idle_stops + total stop q.unmatched)

-- Two observations are of one watcher of one loop, with one descriptor.
abbrev pub IsPair : Item → Item → Type 0
IsPair i j = (key_of i ≡ key_of j) × (i.fd ≡ j.fd)

-- Every observation so far is in one report, or its watcher is pending, under its own key; what is
-- reported together is of one watcher.
pub record Balance (f : Item → ℕ) (enqueued dequeued canceled : ℕ) (q : Queue) : Type 0 where
  pub distinct : IsDistinct q.pending
  pub named : (k : ℤ × ℤ) (item : Item) → get k q.pending ≡ some item → key_of item ≡ k
  pub match_pairs : All (λ (m : Match). IsPair m.insertion m.removal) q.matches
  pub cancel_pairs : All (λ (c : Canceled). IsPair c.insertion c.cancellation) q.canceled
  pub inserted : enqueued ≡ total_of f q.pending + insertions f q
  pub removed : dequeued ≡ removals f q
  pub stopped : canceled ≡ stops f q

module _ (f : Item → ℕ) (e d c : ℕ) (item : Item) (q : Queue) (h : Balance f e d c q) where
  pub enqueue_item-Balance : Balance f (e + f item) d c (enqueue_item item q)
  unfolding enqueue_item replace_pending
  enqueue_item-Balance = elim (Option-cases (get (key_of item) q.pending)) [
    | inl p ↦
        rw (p, enqueue_item, replace_pending)
          (record {
            distinct = put-IsDistinct (key_of item) item q.pending h.distinct;
            named = λ k v g. ground (
              arith,
              get-put (key_of item) k item q.pending,
              key_eq.same_iff (key_of item) k,
              h.named k v,
              g,
            );
            match_pairs = h.match_pairs;
            cancel_pairs = h.cancel_pairs;
            inserted = omega (arith, h.inserted, total_of-put f (key_of item) item q.pending p);
            removed = h.removed;
            stopped = h.stopped;
          })
    | inr (previous, p) ↦
        let key = key_of item in
        let gone : get key (remove key q.pending) ≡ none =
          ground (arith, get-remove key key q.pending, ==_refl key) in
        let report = Unmatched.replacement_without_observed_removal previous ∷ [] in
        rw (p, enqueue_item, replace_pending)
          (record {
            distinct =
                put-IsDistinct key item (remove key q.pending)
                  (remove-IsDistinct key q.pending h.distinct);
            named = λ k v g. ground (
              arith,
              get-put key k item (remove key q.pending),
              get-remove key k q.pending,
              key_eq.same_iff key k,
              h.named k v,
              g,
            );
            match_pairs = h.match_pairs;
            cancel_pairs = h.cancel_pairs;
            inserted = omega (
              arith,
              h.inserted,
              total_of-put f key item (remove key q.pending) gone,
              total_of-remove-some f key previous q.pending h.distinct p,
              total-append (insertion f) q.unmatched report,
            );
            removed = omega (arith, h.removed, total-append (removal f) q.unmatched report);
            stopped = omega (arith, h.stopped, total-append (stop f) q.unmatched report);
          })
  ]

  pub update_item-Balance : Balance f e d c (update_item item q)
  unfolding update_item
  update_item-Balance = elim (Bool-cases (has (key_of item) q.pending)) [
    | inl p ↦
        rw (p, update_item)
          (record {
            distinct = h.distinct;
            named = h.named;
            match_pairs = h.match_pairs;
            cancel_pairs = h.cancel_pairs;
            inserted = h.inserted;
            removed = h.removed;
            stopped = h.stopped;
          })
    | inr p ↦
        rw (p, update_item)
          (record {
            distinct = h.distinct;
            named = h.named;
            match_pairs = h.match_pairs;
            cancel_pairs = h.cancel_pairs;
            inserted = h.inserted;
            removed = h.removed;
            stopped = h.stopped;
          })
  ]

  pub end_removed-Balance : Balance f e (d + f item) c (
      end_removed item
        (episode (key_of item) q)
        (get (key_of item) q.pending)
        (leave (key_of item) q))
  unfolding leave end_removed
  end_removed-Balance =
      let key = key_of item in
      let still = remove-IsDistinct key q.pending h.distinct in
      elim (Option-cases (get key q.pending)) [
        | inl p ↦
            let report = Unmatched.no_observed_insertion item ∷ [] in
            rw (p, end_removed)
              (record {
                distinct = still;
                named = λ k v g. ground (arith, get-remove key k q.pending, h.named k v, g);
                match_pairs = h.match_pairs;
                cancel_pairs = h.cancel_pairs;
                inserted = omega (
                  arith,
                  h.inserted,
                  total_of-remove-none f key q.pending p,
                  total-append (insertion f) q.unmatched report,
                );
                removed = omega (arith, h.removed, total-append (removal f) q.unmatched report);
                stopped = omega (arith, h.stopped, total-append (stop f) q.unmatched report);
              })
        | inr (previous, p) ↦
            let gone = total_of-remove-some f key previous q.pending h.distinct p in
            elim (Bool-cases (previous.fd == item.fd)) [
              | inl k ↦
                  rw (p, k, end_removed)
                    (record {
                      distinct = still;
                      named = λ k v g. ground (arith, get-remove key k q.pending, h.named k v, g);
                      match_pairs =
                          All-append (λ (m : Match). IsPair m.insertion m.removal) q.matches
                            (_ ∷ []) h.match_pairs
                            (
                              (h.named key previous p, (int_eq.same_iff previous.fd item.fd).0 k),
                              tt,
                            );
                      cancel_pairs = h.cancel_pairs;
                      inserted = omega (
                        arith,
                        h.inserted,
                        gone,
                        total-append (λ (m : Match). f m.insertion) q.matches (_ ∷ []),
                      );
                      removed = omega (
                        arith,
                        h.removed,
                        total-append (λ (m : Match). f m.removal) q.matches (_ ∷ []),
                      );
                      stopped = h.stopped;
                    })
              | inr k ↦
                  let report = Unmatched.descriptor_changed item previous ∷ [] in
                  rw (p, k, end_removed)
                    (record {
                      distinct = still;
                      named = λ k v g. ground (arith, get-remove key k q.pending, h.named k v, g);
                      match_pairs = h.match_pairs;
                      cancel_pairs = h.cancel_pairs;
                      inserted =
                          omega (
                            arith,
                            h.inserted,
                            gone,
                            total-append (insertion f) q.unmatched report,
                          );
                      removed =
                          omega (arith, h.removed, total-append (removal f) q.unmatched report);
                      stopped = omega (arith, h.stopped, total-append (stop f) q.unmatched report);
                    })
            ]
      ]

  pub end_canceled-Balance : Balance f e d (c + f item) (
      end_canceled item
        (episode (key_of item) q)
        (get (key_of item) q.pending)
        (leave (key_of item) q))
  unfolding leave end_canceled
  end_canceled-Balance =
      let key = key_of item in
      let still = remove-IsDistinct key q.pending h.distinct in
      elim (Option-cases (get key q.pending)) [
        | inl p ↦
            rw (p, end_canceled)
              (record {
                distinct = still;
                named = λ k v g. ground (arith, get-remove key k q.pending, h.named k v, g);
                match_pairs = h.match_pairs;
                cancel_pairs = h.cancel_pairs;
                inserted = omega (arith, h.inserted, total_of-remove-none f key q.pending p);
                removed = h.removed;
                stopped = omega (arith, h.stopped, total-append f q.idle_stops (item ∷ []));
              })
        | inr (previous, p) ↦
            let gone = total_of-remove-some f key previous q.pending h.distinct p in
            elim (Bool-cases (previous.fd == item.fd)) [
              | inl k ↦
                  rw (p, k, end_canceled)
                    (record {
                      distinct = still;
                      named = λ k v g. ground (arith, get-remove key k q.pending, h.named k v, g);
                      match_pairs = h.match_pairs;
                      cancel_pairs =
                          All-append (λ (m : Canceled). IsPair m.insertion m.cancellation)
                            q.canceled (_ ∷ []) h.cancel_pairs
                            (
                              (h.named key previous p, (int_eq.same_iff previous.fd item.fd).0 k),
                              tt,
                            );
                      inserted = omega (
                        arith,
                        h.inserted,
                        gone,
                        total-append (λ (m : Canceled). f m.insertion) q.canceled (_ ∷ []),
                      );
                      removed = h.removed;
                      stopped = omega (
                        arith,
                        h.stopped,
                        total-append (λ (m : Canceled). f m.cancellation) q.canceled (_ ∷ []),
                      );
                    })
              | inr k ↦
                  let report = Unmatched.cancel_descriptor_changed item previous ∷ [] in
                  rw (p, k, end_canceled)
                    (record {
                      distinct = still;
                      named = λ k v g. ground (arith, get-remove key k q.pending, h.named k v, g);
                      match_pairs = h.match_pairs;
                      cancel_pairs = h.cancel_pairs;
                      inserted =
                          omega (
                            arith,
                            h.inserted,
                            gone,
                            total-append (insertion f) q.unmatched report,
                          );
                      removed =
                          omega (arith, h.removed, total-append (removal f) q.unmatched report);
                      stopped = omega (arith, h.stopped, total-append (stop f) q.unmatched report);
                    })
            ]
      ]
