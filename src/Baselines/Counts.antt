-- ===== src/Baselines/Counts.antt =====
-- What the counts of `evaluate_strategy` in compare_baselines.py count.
use causpan.Prelude.{
  ◌&&◌, Bool, true, false, ℕ, ◌+◌, ◌-◌, ◌≡◌, inl, inr, none, some, List, [], ◌∷◌, ◌==◌, member, not,
  refl, length, Bool-cases, arith,
}
use causpan.Attribution.Types.{RpcId, Event}
use causpan.Attribution.RpcIds.{rpc_eq}
use causpan.Oracle.{one_if}
use causpan.Baselines.{
  Tally, Labelled, tally_candidates, tally_event, tally, no_tally, evaluate_strategy,
}

-- the sum of a value over the labelled events, of the label and the candidates of each
abbrev pub total : (RpcId → List RpcId → ℕ) → (Event → List RpcId) → List Labelled → ℕ
total f strategy [] = 0
total f strategy ((e, none) ∷ es) = total f strategy es
total f strategy ((e, some truth) ∷ es) = f truth (strategy e) + total f strategy es

abbrev pub always : RpcId → List RpcId → ℕ
always truth ids = 1

abbrev pub is_empty : List RpcId → Bool
is_empty [] = true
is_empty (_ ∷ _) = false

abbrev pub is_missed : RpcId → List RpcId → ℕ
is_missed truth [] = 1
is_missed truth (_ ∷ _) = 0

-- equality of lists of ids
abbrev pub same_ids : List RpcId → List RpcId → Bool
same_ids [] [] = true
same_ids [] (_ ∷ _) = false
same_ids (_ ∷ _) [] = false
same_ids (a ∷ as_) (b ∷ bs) = a == b && same_ids as_ bs

-- the candidates are the label alone
abbrev pub is_right : RpcId → List RpcId → ℕ
is_right truth ids = one_if (same_ids ids (truth ∷ []))

abbrev pub is_found : RpcId → List RpcId → ℕ
is_found truth ids = one_if (member truth ids)

-- there are candidates, and the label is none of them
abbrev pub is_wrong : RpcId → List RpcId → ℕ
is_wrong truth ids = one_if (not (is_empty ids) && not (member truth ids))

abbrev pub surplus : RpcId → List RpcId → ℕ
surplus truth ids = length ids - 1

-- The counts grow by these from `n` to `t`. Each event is in one of the four that are split.
record Grows (labelled missed right found extra : ℕ) (n t : Tally) : Type 0 where
  labelled_sum : t.oracle_labelled ≡ n.oracle_labelled + labelled
  missed_sum : t.unattributed ≡ n.unattributed + missed
  right_sum : t.correct_singleton ≡ n.correct_singleton + right
  found_sum :
      t.correct_singleton + t.truth_in_candidates
      ≡ n.correct_singleton + n.truth_in_candidates + found
  extra_sum : t.extra_candidates ≡ n.extra_candidates + extra
  split :
      t.oracle_labelled
        + (n.unattributed + n.correct_singleton + n.truth_in_candidates + n.wrong_candidates)
      ≡ n.oracle_labelled
        + (t.unattributed + t.correct_singleton + t.truth_in_candidates + t.wrong_candidates)

Grows-step :
    (a b c d e a' b' c' d' e' : ℕ) (n m t : Tally)
    → Grows a b c d e n m
    → Grows a' b' c' d' e' m t
    → Grows (a + a') (b + b') (c + c') (d + d') (e + e') n t
Grows-step a b c d e a' b' c' d' e' n m t g h = ground arith

module _ (truth : RpcId) (n : Tally) where
  GrowsFor : List RpcId → Type 0
  GrowsFor ids =
      Grows (always truth ids) (is_missed truth ids) (is_right truth ids) (is_found truth ids)
        (surplus truth ids) n (tally_event truth ids n)

  tally_event-Grows : (ids : List RpcId) → GrowsFor ids
  unfolding GrowsFor tally_event tally_candidates member
  tally_event-Grows [] = ground arith
  tally_event-Grows (id ∷ []) = elim (Bool-cases (id == truth)) [
    | inl p ↦ rw (p, GrowsFor, tally_event, tally_candidates) (ground arith)
    | inr p ↦ rw (p, GrowsFor, tally_event, tally_candidates) (ground arith)
  ]
  tally_event-Grows (id ∷ other ∷ ids) = elim (Bool-cases (member truth (id ∷ other ∷ ids))) [
    | inl p ↦ rw (p, GrowsFor, tally_event, tally_candidates) (ground arith)
    | inr p ↦ rw (p, GrowsFor, tally_event, tally_candidates) (ground arith)
  ]

module _ (strategy : Event → List RpcId) where
  tally-Grows :
      (es : List Labelled) (n : Tally)
      → Grows
          (total always strategy es)
          (total is_missed strategy es)
          (total is_right strategy es)
          (total is_found strategy es)
          (total surplus strategy es)
          n
          (tally strategy es n)
  unfolding tally GrowsFor
  tally-Grows [] n = ground arith
  tally-Grows ((e, none) ∷ es) n = tally-Grows es n
  tally-Grows ((e, some truth) ∷ es) n =
      let ids = strategy e in
      Grows-step (always truth ids) (is_missed truth ids) (is_right truth ids) (is_found truth ids)
        (surplus truth ids) (total always strategy es) (total is_missed strategy es)
        (total is_right strategy es) (total is_found strategy es) (total surplus strategy es) n
        (tally_event truth ids n) (tally strategy es (tally_event truth ids n))
        (tally_event-Grows truth n ids) (tally-Grows es (tally_event truth ids n))

-- every labelled event is missed, found or wrong
one_of_three :
    (truth : RpcId) (ids : List RpcId)
    → is_missed truth ids + is_found truth ids + is_wrong truth ids ≡ 1
unfolding member
one_of_three truth [] = refl
one_of_three truth (id ∷ ids) = elim (Bool-cases (member truth (id ∷ ids))) [
  | inl p ↦ ground arith
  | inr p ↦ ground arith
]

total-one_of_three :
    (strategy : Event → List RpcId) (es : List Labelled)
    → total is_missed strategy es + total is_found strategy es + total is_wrong strategy es
      ≡ total always strategy es
total-one_of_three strategy [] = refl
total-one_of_three strategy ((e, none) ∷ es) = total-one_of_three strategy es
total-one_of_three strategy ((e, some truth) ∷ es) =
    omega (arith, one_of_three truth (strategy e), total-one_of_three strategy es)

-- The counts over the labelled events, each by its own definition.
pub record Counted (strategy : Event → List RpcId) (es : List Labelled) (t : Tally) : Type 0 where
  pub labelled : t.oracle_labelled ≡ total always strategy es
  pub missed : t.unattributed ≡ total is_missed strategy es
  pub split : t.oracle_labelled ≡ t.attributed + t.unattributed
  pub right : t.correct_singleton ≡ total is_right strategy es
  pub found : t.correct_singleton + t.truth_in_candidates ≡ total is_found strategy es
  pub wrong : t.wrong_candidates ≡ total is_wrong strategy es
  pub extra : t.extra_candidates ≡ total surplus strategy es

-- For any strategy and events, of what `evaluate_strategy` returns: `oracle_labelled` counts the
-- labelled events and is the sum of `attributed` and `unattributed`; `unattributed` counts those
-- without candidates, `correct_singleton` those whose one candidate is the label, and with
-- `truth_in_candidates` it counts those with the label among the candidates; `wrong_candidates` counts
-- those that have candidates, the label not among them; `extra_candidates` sums the candidates past
-- the first.
pub evaluate_strategy-Counted :
    (strategy : Event → List RpcId) (es : List Labelled)
    → Counted strategy es (evaluate_strategy strategy es)
unfolding evaluate_strategy
evaluate_strategy-Counted strategy es =
    let g = tally-Grows strategy es no_tally in
    record {
      labelled = omega (arith, g.labelled_sum);
      missed = omega (arith, g.missed_sum);
      split = omega (arith, g.split);
      right = omega (arith, g.right_sum);
      found = omega (arith, g.found_sum);
      wrong = omega (
        arith,
        g.labelled_sum,
        g.missed_sum,
        g.found_sum,
        g.split,
        total-one_of_three strategy es,
      );
      extra = omega (arith, g.extra_sum);
    }
