-- ===== src/Rings/Conserved.antt =====
-- `join_observations` of ring_observations.py pairs each submission with one later completion.
use causpan.Prelude.{
  ◌+◌, ◌*◌, ◌≡◌, refl, sym, inl, inr, subst, ap, ℤ, int_eq, none, some, none≢some, List, [], ◌∷◌,
  ◌++◌, append_assoc, append-nil, ok_injective, get, put, remove, IsDistinct, put-IsDistinct,
  remove-IsDistinct, get-remove, get-put, length-put, length-remove-some, member, add, member-add,
  IsUnique, add-IsUnique, false, ◌==◌, length, length-append, In, In-append_left, In-append_right,
  All, All-append, All_map, Bool-cases, Result-cases, err≢ok, ok, arith,
}
use causpan.Rings.{
  Observation, Operation, Submission, Joining, operation_of, join_row, join_rows, no_operations,
  all_completed, join_observations,
}
use causpan.Rings.Rows.{IsSubmission, IsCompletion, join_row-ok}

abbrev pub requested : Operation → Submission
requested o = record { opcode = o.opcode; fd = o.fd; offset = o.offset; length = o.requested_bytes }

-- The operation is of a row among those seen, and of one before it.
pub record Observed (seen : List Observation) (o : Operation) : Type 0 where
  pub before : List Observation
  pub submission : Observation
  pub completion : Observation
  pub after : List Observation
  pub placed : seen ≡ before ++ completion ∷ after
  pub earlier : In submission before
  pub submitted : IsSubmission submission o.user_data (requested o)
  pub completed : IsCompletion completion o.user_data o.requested_bytes o.result

pub record Submitted (seen : List Observation) (k : ℤ) (s : Submission) : Type 0 where
  pub submission : Observation
  pub earlier : In submission seen
  pub submitted : IsSubmission submission k s

abbrev pub identities : List Operation → List ℤ
identities [] = []
identities (o ∷ os) = o.user_data ∷ identities os

pub record Joined (seen : List Observation) (s : Joining) : Type 0 where
  pub distinct : IsDistinct s.pending
  pub counted : length seen ≡ length s.pending + 2 * length s.operations
  pub unique : IsUnique s.completed
  pub named : s.completed ≡ identities s.operations
  pub apart : (k : ℤ) (x : Submission) → get k s.pending ≡ some x → member k s.completed ≡ false
  pub observed : All (Observed seen) s.operations
  pub waiting : (k : ℤ) (x : Submission) → get k s.pending ≡ some x → Submitted seen k x

Observed-more :
    (seen : List Observation) (row : Observation) (o : Operation)
    → Observed seen o
    → Observed (seen ++ row ∷ []) o
Observed-more seen row o h = record {
  before = h.before;
  submission = h.submission;
  completion = h.completion;
  after = h.after ++ row ∷ [];
  placed =
      subst (λ l. l ++ row ∷ [] ≡ h.before ++ h.completion ∷ (h.after ++ row ∷ [])) (sym h.placed)
        (append_assoc h.before (h.completion ∷ h.after) (row ∷ []));
  earlier = h.earlier;
  submitted = h.submitted;
  completed = h.completed;
}

Submitted-more :
    (seen : List Observation) (row : Observation) (k : ℤ) (x : Submission)
    → Submitted seen k x
    → Submitted (seen ++ row ∷ []) k x
Submitted-more seen row k x h = record {
  submission = h.submission;
  earlier = In-append_left h.submission seen (row ∷ []) h.earlier;
  submitted = h.submitted;
}

identities-append :
    (os : List Operation) (o : Operation)
    → identities (os ++ o ∷ []) ≡ identities os ++ o.user_data ∷ []
identities-append [] o = refl
identities-append (p ∷ os) o = ap (λ l. p.user_data ∷ l) (identities-append os o)

module _ (seen : List Observation) (row : Observation) (k : ℤ) (s : Joining) where
  submit-Joined :
      (x : Submission)
      → Joined seen s
      → get k s.pending ≡ none
      → member k s.completed ≡ false
      → IsSubmission row k x
      → Joined (seen ++ row ∷ []) (record s { pending = put k x s.pending })
  submit-Joined x h fresh unused is = record {
    distinct = put-IsDistinct k x s.pending h.distinct;
    counted =
        omega (arith, h.counted, length-put k x s.pending fresh, length-append seen (row ∷ []));
    unique = h.unique;
    named = h.named;
    apart = λ j y g. elim (Bool-cases (k == j)) [
      | inl p ↦ subst (λ i. member i s.completed ≡ false) ((int_eq.same_iff k j).0 p) unused
      | inr p ↦ h.apart j y (ground (arith, get-put k j x s.pending))
    ];
    observed =
        All_map (Observed seen) (Observed (seen ++ row ∷ [])) s.operations (Observed-more seen row)
          h.observed;
    waiting = λ j y g. elim (Bool-cases (k == j)) [
      | inl p ↦
          let e : x ≡ y = ground (arith, get-put k j x s.pending) in
          record {
            submission = row;
            earlier = In-append_right row seen (row ∷ []) (inl refl);
            submitted =
                subst (λ z. IsSubmission row j z) e
                  (subst (λ i. IsSubmission row i x) ((int_eq.same_iff k j).0 p) is);
          }
      | inr p ↦
          Submitted-more seen row j y (h.waiting j y (ground (arith, get-put k j x s.pending)))
    ];
  }

  complete-Joined :
      (x : Submission) (n : ℤ)
      → Joined seen s
      → get k s.pending ≡ some x
      → IsCompletion row k x.length n
      → Joined (seen ++ row ∷ []) (record {
        pending = remove k s.pending;
        completed = add k s.completed;
        operations = s.operations ++ operation_of k x n ∷ [];
      })
  unfolding add
  complete-Joined x n h g is =
      let o = operation_of k x n in
      let unused = h.apart k x g in
      let source = h.waiting k x g in
      record {
        distinct = remove-IsDistinct k s.pending h.distinct;
        counted = omega (
          arith,
          h.counted,
          length-remove-some k x s.pending h.distinct g,
          length-append seen (row ∷ []),
          length-append s.operations (o ∷ []),
        );
        unique = add-IsUnique k s.completed h.unique;
        named =
            rw (add, unused)
              (rw (identities-append s.operations o) (ap (λ l. l ++ k ∷ []) h.named));
        apart = λ j y q.
            ground (arith, get-remove k j s.pending, member-add k j s.completed, h.apart j y);
        observed =
            All-append (Observed (seen ++ row ∷ [])) s.operations (o ∷ [])
              (All_map (Observed seen) (Observed (seen ++ row ∷ [])) s.operations
                (Observed-more seen row) h.observed)
              (
                record {
                  before = seen;
                  submission = source.submission;
                  completion = row;
                  after = [];
                  placed = refl;
                  earlier = source.earlier;
                  submitted = source.submitted;
                  completed = is;
                },
                tt,
              );
        waiting = λ j y q.
            Submitted-more seen row j y (h.waiting j y (ground (arith, get-remove k j s.pending)));
      }

join_row-Joined :
    (seen : List Observation) (row : Observation) (s t : Joining)
    → join_row row s ≡ ok t
    → Joined seen s
    → Joined (seen ++ row ∷ []) t
join_row-Joined seen row s t e h = elim (join_row-ok row s t e) [
  | inl (k, x, is, fresh, unused, p) ↦
      subst (Joined (seen ++ row ∷ [])) (sym p) (submit-Joined seen row k s x h fresh unused is)
  | inr (k, x, n, is, g, p) ↦
      subst (Joined (seen ++ row ∷ [])) (sym p) (complete-Joined seen row k s x n h g is)
]

join_rows-Joined :
    (rows seen : List Observation) (s t : Joining)
    → join_rows rows s ≡ ok t
    → Joined seen s
    → Joined (seen ++ rows) t
unfolding join_rows
join_rows-Joined [] seen s t e h =
    rw (append-nil seen) (subst (Joined seen) (ok_injective refl e) h)
join_rows-Joined (row ∷ rows) seen s t e h = elim (Result-cases (join_row row s)) [
  | inl (x, p) ↦ absurd (err≢ok (rw (p, join_rows) at e))
  | inr (next, p) ↦
      subst (λ l. Joined l t) (append_assoc seen (row ∷ []) rows)
        (join_rows-Joined rows (seen ++ row ∷ []) next t (rw (p, join_rows) at e)
          (join_row-Joined seen row s next p h))
]

no_operations-Joined : Joined [] no_operations
unfolding member get
no_operations-Joined = record {
  distinct = tt;
  counted = omega arith;
  unique = tt;
  named = refl;
  apart = λ k x g. refl;
  observed = tt;
  waiting = λ k x g. absurd (none≢some g);
}

-- What a batch that is accepted says.
pub record Conserved (rows : List Observation) (os : List Operation) : Type 0 where
  pub counted : length rows ≡ 2 * length os
  pub unique : IsUnique (identities os)
  pub observed : All (Observed rows) os

all_completed-ok :
    (s : Joining) (os : List Operation)
    → all_completed s ≡ ok os
    → (s.pending ≡ []) × (s.operations ≡ os)
unfolding all_completed
all_completed-ok s os h = ground arith

-- If `join_observations` accepts a batch, the batch has two rows for each operation, no identity
-- stands in two operations, and each operation is of a completion in the batch and of a submission
-- before it: the identity, the opcode 22 or 23, the descriptor, the offset, the length and the
-- result are integer fields of these rows, within their bounds, and the result is at most the length.
pub join_observations-Conserved :
    (rows : List Observation) (os : List Operation)
    → join_observations rows ≡ ok os
    → Conserved rows os
unfolding join_observations
join_observations-Conserved rows os h = elim (Result-cases (join_rows rows no_operations)) [
  | inl (x, p) ↦ absurd (err≢ok (rw (p, join_observations) at h))
  | inr (s, p) ↦
      let j = join_rows-Joined rows [] no_operations s p no_operations-Joined in
      let (empty, same) = all_completed-ok s os (rw (p, join_observations) at h) in
      subst (Conserved rows) same (record {
        counted = omega (arith, j.counted, ap (λ l. length l) empty);
        unique = subst (λ l. IsUnique l) j.named j.unique;
        observed = j.observed;
      })
]
