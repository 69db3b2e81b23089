-- ===== src/Rings/Rows.antt =====
-- What the checks of `join_observations` in ring_observations.py ask of a row.
use causpan.Prelude.{
  ◌≡◌, refl, inl, inr, ◌⊎◌, string_eq, ℤ, pos, int_eq, leb_ℤ, Option, none, some, [], ◌∷◌, ◌++◌,
  get, put, remove, member, add, true, false, ◌&&◌, ◌||◌, ◌==◌, Json, Bool-cases, Option-cases, ok,
  Result-cases, or_raise, arith,
}
use causpan.Rings.{
  Observation, Error, Submission, Joining, int_value, int_field, in_range, two_31, minus_two_31,
  two_32, two_64, has_kind, identity_of, no_flags, opcode_value, opcode_of, submission_of, submit,
  result_of, operation_of, complete, join_row,
}

-- what is asked of a submission
pub record IsSubmission (row : Observation) (identity : ℤ) (s : Submission) : Type 0 where
  pub sqe : has_kind "sqe" row ≡ true
  pub identified : int_field "user_data" row ≡ some identity
  pub unflagged : no_flags row ≡ true
  pub has_opcode : int_field "opcode" row ≡ some s.opcode
  pub has_fd : int_field "fd" row ≡ some s.fd
  pub has_offset : int_field "offset" row ≡ some s.offset
  pub has_length : int_field "length" row ≡ some s.length
  pub supported : (s.opcode == pos 22 || s.opcode == pos 23) ≡ true
  pub in_bounds :
      (in_range (pos 0) two_64 identity
        && (in_range minus_two_31 two_31 s.fd
            && (in_range (pos 0) two_64 s.offset && in_range (pos 0) two_32 s.length)))
      ≡ true

-- and of its completion
pub record IsCompletion (row : Observation) (identity : ℤ) (length result : ℤ) : Type 0 where
  pub cqe : has_kind "cqe" row ≡ true
  pub identified : int_field "user_data" row ≡ some identity
  pub unflagged : no_flags row ≡ true
  pub has_result : int_field "result" row ≡ some result
  pub in_bounds : (in_range minus_two_31 two_31 result && leb_ℤ result length) ≡ true

or_raise-ok : {A : Type 0} (o : Option A) (e : Error) (a : A) → or_raise o e ≡ ok a → o ≡ some a
or_raise-ok none e a h = absurd cc
or_raise-ok (some b) e a h = cc

opcode_value-ok :
    (v : Json) (n : ℤ)
    → opcode_value v ≡ ok n
    → (int_value v ≡ some n) × ((n == pos 22 || n == pos 23) ≡ true)
opcode_value-ok (Json.integer m) n h = ground arith
opcode_value-ok Json.null n h = absurd cc
opcode_value-ok (Json.boolean _) n h = absurd cc
opcode_value-ok (Json.real _) n h = absurd cc
opcode_value-ok (Json.text _) n h = absurd cc
opcode_value-ok (Json.array _) n h = absurd cc
opcode_value-ok (Json.object _) n h = absurd cc

pub opcode_of-ok :
    (row : Observation) (n : ℤ)
    → opcode_of row ≡ ok n
    → (int_field "opcode" row ≡ some n) × ((n == pos 22 || n == pos 23) ≡ true)
unfolding opcode_of int_field
opcode_of-ok row n h = elim (Option-cases (get "opcode" row)) [
  | inl p ↦ absurd (let q = rw (p, opcode_of) at h in cc)
  | inr (v, p) ↦ rw (p, int_field) (opcode_value-ok v n (rw (p, opcode_of) at h))
]

pub identity_of-ok :
    (row : Observation) (n : ℤ)
    → identity_of row ≡ ok n
    → (int_field "user_data" row ≡ some n) × (in_range (pos 0) two_64 n ≡ true)
unfolding identity_of
identity_of-ok row n h = ground arith

pub submission_of-ok :
    (row : Observation) (s : Submission)
    → submission_of row ≡ ok s
    → (opcode_of row ≡ ok s.opcode)
      × (int_field "fd" row ≡ some s.fd)
      × (int_field "offset" row ≡ some s.offset)
      × (int_field "length" row ≡ some s.length)
      × ((in_range minus_two_31 two_31 s.fd
            && (in_range (pos 0) two_64 s.offset && in_range (pos 0) two_32 s.length))
          ≡ true)
unfolding submission_of
submission_of-ok row s h = ground arith

pub result_of-ok :
    (row : Observation) (n : ℤ)
    → result_of row ≡ ok n
    → (int_field "result" row ≡ some n) × (in_range minus_two_31 two_31 n ≡ true)
unfolding result_of
result_of-ok row n h = ground arith

pub submit-ok :
    (k : ℤ) (row : Observation) (s t : Joining)
    → submit k row s ≡ ok t
    → (sub : Submission) × (submission_of row ≡ ok sub)
      × (no_flags row ≡ true)
      × (get k s.pending ≡ none)
      × (member k s.completed ≡ false)
      × (t ≡ record s { pending = put k sub s.pending })
unfolding submit
submit-ok k row s t h = elim (Result-cases (submission_of row)) [
  | inl (e, p) ↦ absurd (ground arith)
  | inr (sub, p) ↦ (sub, p, ground arith, ground arith, ground arith, ground arith)
]

pub complete-ok :
    (k : ℤ) (row : Observation) (s t : Joining)
    → complete k row s ≡ ok t
    → (sub : Submission) × (n : ℤ) × (get k s.pending ≡ some sub)
      × (no_flags row ≡ true)
      × (result_of row ≡ ok n)
      × (leb_ℤ n sub.length ≡ true)
      × (t ≡ record {
        pending = remove k s.pending;
        completed = add k s.completed;
        operations = s.operations ++ operation_of k sub n ∷ [];
      })
unfolding complete
complete-ok k row s t h = elim (Option-cases (get k s.pending)) [
  | inl p ↦ absurd (ground arith)
  | inr (sub, p) ↦ elim (Result-cases (result_of row)) [
    | inl (e, q) ↦ absurd (ground arith)
    | inr (n, q) ↦ (sub, n, p, ground arith, q, ground arith, ground arith)
  ]
]

pub join_row-ok :
    (row : Observation) (s t : Joining)
    → join_row row s ≡ ok t
    → ((k : ℤ) × (x : Submission) × IsSubmission row k x
        × (get k s.pending ≡ none)
        × (member k s.completed ≡ false)
        × (t ≡ record s { pending = put k x s.pending }))
      ⊎ ((k : ℤ) × (x : Submission) × (n : ℤ) × IsCompletion row k x.length n
          × (get k s.pending ≡ some x)
          × (t ≡ record {
            pending = remove k s.pending;
            completed = add k s.completed;
            operations = s.operations ++ operation_of k x n ∷ [];
          }))
unfolding join_row
join_row-ok row s t h = elim (Result-cases (identity_of row)) [
  | inl (e, p) ↦ absurd (ground arith)
  | inr (k, p) ↦
      let (named, ranged) = identity_of-ok row k p in
      elim (Bool-cases (has_kind "sqe" row)) [
        | inl q ↦
            let (x, a, b, c, d, e) = submit-ok k row s t (ground arith) in
            let (code, f, g, i, j) = submission_of-ok row x a in
            let (o, supported) = opcode_of-ok row x.opcode code in
            inl (
              k,
              x,
              record {
                sqe = q;
                identified = named;
                unflagged = b;
                has_opcode = o;
                has_fd = f;
                has_offset = g;
                has_length = i;
                supported = supported;
                in_bounds = rw (ranged, j) refl;
              },
              c,
              d,
              e,
            )
        | inr q ↦ elim (Bool-cases (has_kind "cqe" row)) [
          | inl r ↦
              let (x, n, a, b, c, d, e) = complete-ok k row s t (ground arith) in
              let (f, g) = result_of-ok row n c in
              inr (
                k,
                x,
                n,
                record {
                  cqe = r;
                  identified = named;
                  unflagged = b;
                  has_result = f;
                  in_bounds = rw (g, d) refl;
                },
                a,
                e,
              )
          | inr r ↦ absurd (ground arith)
        ]
      ]
]
