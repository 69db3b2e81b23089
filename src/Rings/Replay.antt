-- ===== src/Rings/Replay.antt =====
-- `join_observations` of ring_observations.py reads back what a runtime writes of its operations.
use causpan.Prelude.{
  ◌≡◌, ◌↔◌, refl, sym, ◌∙◌, inl, inr, subst, ap, ℤ, pos, int_eq, leb_ℤ, string_eq, none, some,
  none≢some, List, [], ◌∷◌, ◌++◌, append_assoc, append-nil, map, Dict, get, put, remove, get-remove,
  get-put, member, add, IsUnique, true, false, ◌&&◌, ◌||◌, ◌==◌, ==_refl, In, All, Json, Bool-cases,
  ok, ◌>>=◌, arith,
}
use mathlib.Core.Bool.{true≢false, false≢true}
use causpan.Rings.{
  Observation, Operation, Submission, Joining, in_range, two_31, minus_two_31, two_32, two_64,
  int_field, has_kind, identity_of, no_flags, opcode_of, submission_of, submit, result_of, complete,
  join_row, join_rows, no_operations, all_completed, join_observations,
}
use causpan.Rings.Conserved.{requested, identities}

-- the rows of an operation
unfoldable pub submission_row : Operation → Observation
submission_row o =
    ("kind", Json.text "sqe")
    ∷ ("user_data", Json.integer o.user_data)
    ∷ ("flags", Json.integer (pos 0))
    ∷ ("opcode", Json.integer o.opcode)
    ∷ ("fd", Json.integer o.fd)
    ∷ ("offset", Json.integer o.offset)
    ∷ ("length", Json.integer o.requested_bytes)
    ∷ []

unfoldable pub completion_row : Operation → Observation
completion_row o =
    ("kind", Json.text "cqe")
    ∷ ("user_data", Json.integer o.user_data)
    ∷ ("flags", Json.integer (pos 0))
    ∷ ("result", Json.integer o.result)
    ∷ []

-- The values are within the bounds of the fields.
pub record IsWritable (o : Operation) : Type 0 where
  pub supported : (o.opcode == pos 22 || o.opcode == pos 23) ≡ true
  pub identity : in_range (pos 0) two_64 o.user_data ≡ true
  pub in_bounds :
      (in_range minus_two_31 two_31 o.fd
        && (in_range (pos 0) two_64 o.offset && in_range (pos 0) two_32 o.requested_bytes))
      ≡ true
  pub result : in_range minus_two_31 two_31 o.result ≡ true
  pub within : leb_ℤ o.result o.requested_bytes ≡ true

module _ (o : Operation) (w : IsWritable o) where
  identity_submission : identity_of (submission_row o) ≡ ok o.user_data
  unfolding identity_of int_field get submission_row
  identity_submission = rw w.identity refl

  submission_of-row : submission_of (submission_row o) ≡ ok (requested o)
  unfolding submission_of opcode_of int_field get submission_row
  submission_of-row = rw (w.supported, w.in_bounds) refl

  submission_unflagged : no_flags (submission_row o) ≡ true
  unfolding no_flags int_field get submission_row
  submission_unflagged = refl

  completion_unflagged : no_flags (completion_row o) ≡ true
  unfolding no_flags int_field get completion_row
  completion_unflagged = refl

  identity_completion : identity_of (completion_row o) ≡ ok o.user_data
  unfolding identity_of int_field get completion_row
  identity_completion = rw w.identity refl

  result_of-row : result_of (completion_row o) ≡ ok o.result
  unfolding result_of int_field get completion_row
  result_of-row = rw w.result refl

  submit-row :
      (s : Joining)
      → get o.user_data s.pending ≡ none
      → member o.user_data s.completed ≡ false
      → submit o.user_data (submission_row o) s
        ≡ ok (record s { pending = put o.user_data (requested o) s.pending })
  unfolding submit
  submit-row s p q = ground (arith, submission_unflagged, submission_of-row)

  complete-row :
      (s : Joining)
      → get o.user_data s.pending ≡ some (requested o)
      → complete o.user_data (completion_row o) s
        ≡ ok (record {
          pending = remove o.user_data s.pending;
          completed = add o.user_data s.completed;
          operations = s.operations ++ o ∷ [];
        })
  unfolding complete
  complete-row s p = rw (p, completion_unflagged, result_of-row, w.within) refl

  join_row-submission :
      (s : Joining)
      → get o.user_data s.pending ≡ none
      → member o.user_data s.completed ≡ false
      → join_row (submission_row o) s
        ≡ ok (record s { pending = put o.user_data (requested o) s.pending })
  unfolding join_row has_kind get submission_row
  join_row-submission s p q = rw (identity_submission, join_row) (submit-row s p q)

  join_row-completion :
      (s : Joining)
      → get o.user_data s.pending ≡ some (requested o)
      → join_row (completion_row o) s
        ≡ ok (record {
          pending = remove o.user_data s.pending;
          completed = add o.user_data s.completed;
          operations = s.operations ++ o ∷ [];
        })
  unfolding join_row has_kind get completion_row
  join_row-completion s p = rw (identity_completion, join_row) (complete-row s p)

-- the dict after these submissions
abbrev pub entered : List Operation → Dict ℤ Submission → Dict ℤ Submission
entered [] d = d
entered (o ∷ os) d = entered os (put o.user_data (requested o) d)

get-entered_other :
    (k : ℤ) (os : List Operation) (d : Dict ℤ Submission)
    → member k (identities os) ≡ false
    → get k (entered os d) ≡ get k d
unfolding member
get-entered_other k [] d h = refl
get-entered_other k (o ∷ os) d h =
    get-entered_other k os (put o.user_data (requested o) d) (ground arith)
    ∙ ground (arith, get-put o.user_data k (requested o) d)

get-entered :
    (os : List Operation) (d : Dict ℤ Submission) (o : Operation)
    → IsUnique (identities os)
    → In o os
    → get o.user_data (entered os d) ≡ some (requested o)
get-entered [] d o u i = absurd i
get-entered (x ∷ os) d o u (inl p) =
    subst (λ z. get z.user_data (entered os (put x.user_data (requested x) d)) ≡ some (requested z))
      p
      (get-entered_other x.user_data os (put x.user_data (requested x) d) u.0
        ∙ ground (arith, get-put x.user_data x.user_data (requested x) d, ==_refl x.user_data))
get-entered (x ∷ os) d o u (inr i) = get-entered os (put x.user_data (requested x) d) o u.1 i

In-identities :
    (os : List Operation) (x : Operation) → In x os → member x.user_data (identities os) ≡ true
unfolding member
In-identities [] x i = absurd i
In-identities (o ∷ os) x (inl p) =
    let same : o.user_data ≡ x.user_data = ap (λ (z : Operation). z.user_data) p in
    ground (arith, int_eq.same_iff o.user_data x.user_data)
In-identities (o ∷ os) x (inr i) = ground (arith, In-identities os x i)

differs :
    (os : List Operation) (o x : Operation)
    → member o.user_data (identities os) ≡ false
    → In x os
    → (o.user_data == x.user_data) ≡ false
differs os o x h i = elim (Bool-cases (o.user_data == x.user_data)) [
  | inl p ↦
      let found = In-identities os x i in
      absurd (
        true≢false (
          sym found
          ∙ subst (λ k. member k (identities os) ≡ false)
              ((int_eq.same_iff o.user_data x.user_data).0 p) h))
  | inr p ↦ p
]

join_rows-submissions :
    (os : List Operation) (s : Joining)
    → All IsWritable os
    → IsUnique (identities os)
    → s.completed ≡ []
    → ((o : Operation) → In o os → get o.user_data s.pending ≡ none)
    → (rows : List Observation)
    → join_rows (map submission_row os ++ rows) s
      ≡ join_rows rows (record s { pending = entered os s.pending })
unfolding join_rows member
join_rows-submissions [] s w u c fresh rows = refl
join_rows-submissions (o ∷ os) s w u c fresh rows =
    rw (join_row-submission o w.0 s (fresh o (inl refl)) (rw c refl), join_rows)
      (join_rows-submissions os (record s { pending = put o.user_data (requested o) s.pending }) w.1
        u.1 c
        (λ x i. ground (
          arith,
          get-put o.user_data x.user_data (requested o) s.pending,
          differs os o x u.0 i,
          fresh x (inr i),
        ))
        rows)

is_empty : (d : Dict ℤ Submission) → ((k : ℤ) (x : Submission) → get k d ≡ some x → ⊥) → d ≡ []
unfolding get
is_empty [] h = refl
is_empty ((k, x) ∷ d) h = absurd (h k x (rw (==_refl k) refl))

join_rows-completions :
    (os : List Operation) (s : Joining)
    → All IsWritable os
    → IsUnique (identities os)
    → ((o : Operation) → In o os → get o.user_data s.pending ≡ some (requested o))
    → ((k : ℤ) (x : Submission) → get k s.pending ≡ some x → member k (identities os) ≡ true)
    → join_rows (map completion_row os) s >>= all_completed ≡ ok (s.operations ++ os)
unfolding join_rows all_completed member
join_rows-completions [] s w u found only =
    let p = is_empty s.pending (λ k x g. false≢true (only k x g)) in
    rw (p, append-nil s.operations) refl
join_rows-completions (o ∷ os) s w u found only =
    rw (join_row-completion o w.0 s (found o (inl refl)), join_rows)
      (join_rows-completions os
          (record {
            pending = remove o.user_data s.pending;
            completed = add o.user_data s.completed;
            operations = s.operations ++ o ∷ [];
          })
          w.1 u.1
          (λ x i. ground (
            arith,
            get-remove o.user_data x.user_data s.pending,
            differs os o x u.0 i,
            found x (inr i),
          ))
          (λ k x g. ground (arith, get-remove o.user_data k s.pending, only k x))
        ∙ ap ok (append_assoc s.operations (o ∷ []) os))

identities-In :
    (os : List Operation) (k : ℤ)
    → member k (identities os) ≡ true
    → (o : Operation) × In o os × (o.user_data ≡ k)
unfolding member
identities-In [] k h = absurd (false≢true h)
identities-In (o ∷ os) k h = elim (Bool-cases (o.user_data == k)) [
  | inl p ↦ (o, inl refl, (int_eq.same_iff o.user_data k).0 p)
  | inr p ↦ let (x, i, e) = identities-In os k (rw p at h) in (x, inr i, e)
]

-- If the values of the operations are within the bounds of the fields and no two have one identity,
-- then `join_observations` accepts the rows of all their submissions followed by those of their
-- completions, in any order of the completions, and returns the operations in the order of the
-- completions.
pub join_observations-replay :
    (os done : List Operation)
    → All IsWritable os
    → All IsWritable done
    → IsUnique (identities os)
    → IsUnique (identities done)
    → ((o : Operation) → In o os ↔ In o done)
    → join_observations (map submission_row os ++ map completion_row done) ≡ ok done
unfolding join_observations member get
join_observations-replay os done w v u t same =
    rw
      (
        join_rows-submissions os no_operations w u refl (λ o i. refl) (map completion_row done),
        join_observations,
      )
      (join_rows-completions done (record no_operations { pending = entered os [] }) v t
        (λ o i. get-entered os [] o u ((same o).1 i))
        (λ k x g. elim (Bool-cases (member k (identities os))) [
          | inl p ↦
              let (o, i, e) = identities-In os k p in
              subst (λ j. member j (identities done) ≡ true) e (In-identities done o ((same o).0 i))
          | inr p ↦ absurd (none≢some (sym (get-entered_other k os [] p) ∙ g))
        ]))
