-- ===== src/Attribution/Validate/Complete.antt =====
-- What it means that `_validate_invariants` of attribute.py finds nothing.
use causpan.Prelude.{
  ℕ, ℤ, pos, negsuc, int_eq, ◌≡◌, refl, inl, inr, Option, some, List, [], ◌∷◌, ◌++◌, Dict, nat_eq,
  string_eq, Bool, true, false, ◌==◌, ◌&&◌, not, any, keep, All, All_map, cons≢nil, length,
  Bool-cases, List-cases, arith,
}
use mathlib.Core.Bool.{true≢false}
use causpan.Attribution.Types.{Marker, Operation, Error}
use causpan.Attribution.Runtime.{Runtime}
use causpan.Attribution.Validate.{
  Quality, group_from, same_stream, complain, check_parser, has_status, check_operation_end,
  check_operations, has_unfinished_jobs, has_open_work, incomplete, check_completions, validate,
}

-- an operation that ended: completed, and run if it succeeded, and never run if it was cancelled
pub record IsEnded (w : Operation) : Type 0 where
  pub completed : w.completed ≡ true
  pub observed : w.status ≡ some (pos 0) → (w.started ≡ true) × (w.finished ≡ true)
  pub cancelled : w.status ≡ some (negsuc 124) → w.started ≡ false

-- A capture with nothing lost and nothing left open.
pub record IsComplete (q : Quality) (log : List Marker) (seen : Dict ℕ (List Marker)) (r : Runtime)
    : Type 0 where
  pub stream : same_stream (group_from [] log) seen ≡ true
  pub unparsed : q.unparsed ≡ 0
  pub orphan_resumed : q.orphan_resumed ≡ 0
  pub incomplete_at_eof : q.incomplete_at_eof ≡ 0
  pub non_timestamp_lines : q.non_timestamp_lines ≡ 0
  pub operations : All (λ entry. IsEnded entry.1) r.operations
  pub jobs : All (λ entry. entry.1.finished ≡ true) r.ipc_jobs
  pub active : r.ipc_active ≡ []
  pub work : All (λ entry. entry.1 ≡ []) r.active_work

module _ {ℓ} {A : Type ℓ} where
  pub append-empty : (xs ys : List A) → xs ++ ys ≡ [] → (xs ≡ []) × (ys ≡ [])
  append-empty [] ys h = (refl, h)
  append-empty (x ∷ xs) ys h = absurd (cons≢nil h)

complain_empty : (b : Bool) (e : Error) → complain b e ≡ [] → b ≡ false
unfolding complain
complain_empty false e h = refl
complain_empty true e h = absurd (cons≢nil h)

pub is_true : (b : Bool) → not b ≡ false → b ≡ true
is_true b h = ground arith

has_status_iff : (s : Option ℤ) (v : ℤ) → s ≡ some v → has_status s v ≡ true
has_status_iff s v h = rw h (ground arith)

both : (a b : Bool) → not (a && b) ≡ false → (a ≡ true) × (b ≡ true)
both a b h = (ground arith, ground arith)

check_operation_end-IsEnded :
    (op : ℕ) (w : Operation) → check_operation_end op w ≡ [] → w.completed ≡ true → IsEnded w
unfolding check_operation_end
check_operation_end-IsEnded op w h done =
    let parts = append-empty _ _ h in
    let observed : has_status w.status (pos 0) && not (w.started && w.finished) ≡ false =
      complain_empty _ _ parts.0 in
    let cancelled : has_status w.status (negsuc 124) && w.started ≡ false =
      complain_empty _ _ parts.1 in
    record {
      completed = done;
      observed = λ p.
          let q = has_status_iff w.status (pos 0) p in both w.started w.finished (rw q at observed);
      cancelled = λ p. let q = has_status_iff w.status (negsuc 124) p in rw q at cancelled;
    }

check_operations-IsEnded :
    (d : Dict ℕ Operation)
    → check_operations d ≡ []
    → keep (λ entry. not entry.1.completed) d ≡ []
    → All (λ entry. IsEnded entry.1) d
unfolding check_operations
check_operations-IsEnded [] h k = tt
check_operations-IsEnded ((op, w) ∷ rest) h k =
    let (first, second) = append-empty _ _ h in
    elim (Bool-cases w.completed) [
      | inl p ↦ (
        check_operation_end-IsEnded op w first p,
        check_operations-IsEnded rest second (rw p at k),
      )
      | inr p ↦ absurd (cons≢nil (rw p at k))
    ]

module _ {ℓ} {A : Type ℓ} where
  any-All : (p : A → Bool) (xs : List A) → any p xs ≡ false → All (λ x. p x ≡ false) xs
  any-All p [] h = tt
  any-All p (x ∷ xs) h = (ground arith, any-All p xs (ground arith))

module _ {ℓ} {A : Type ℓ} where
  length-zero : (xs : List A) → length xs ≡ 0 → xs ≡ []
  length-zero [] h = refl
  length-zero (x ∷ xs) h = absurd (omega arith)

-- a counter that is reported when it is not 0
complain_zero : (n : ℕ) (e : Error) → complain (not (n == 0)) e ≡ [] → n ≡ 0
complain_zero n e h = let p = complain_empty _ e h in ground arith

check_completions_empty : (d : Dict ℕ Operation) → check_completions d ≡ [] → d ≡ []
unfolding check_completions
check_completions_empty [] h = refl
check_completions_empty (o ∷ os) h = absurd (cons≢nil h)

has_unfinished_jobs-All :
    (r : Runtime)
    → has_unfinished_jobs r ≡ false
    → (r.ipc_active ≡ []) × All (λ entry. entry.1.finished ≡ true) r.ipc_jobs
unfolding has_unfinished_jobs
has_unfinished_jobs-All r h = elim (List-cases r.ipc_active) [
  | inl p ↦ (
    p,
    All_map _ _ r.ipc_jobs (λ entry q. is_true entry.1.finished q)
        (any-All (λ entry. not entry.1.finished) r.ipc_jobs (rw (p, has_unfinished_jobs) at h)),
  )
  | inr (x, xs, p) ↦ absurd (true≢false (rw (p, has_unfinished_jobs) at h))
]

has_open_work-All :
    (r : Runtime) → has_open_work r ≡ false → All (λ entry. entry.1 ≡ []) r.active_work
unfolding has_open_work
has_open_work-All r h =
    All_map _ _ r.active_work
      (λ entry q. elim (List-cases entry.1) [
        | inl p ↦ p
        | inr (x, xs, p) ↦ absurd (true≢false (rw p at q))
      ])
      (any-All (λ entry. elim entry.1 [ [] ↦ false | _ ∷ _ ↦ true ]) r.active_work h)

-- Where the validation finds nothing, the capture is complete: the markers are those of the native
-- log, the parser lost nothing, every operation is completed, run if it succeeded and not run if it
-- was cancelled, every job is finished and no thread is inside a job or a unit of work.
pub validate-IsComplete :
    (q : Quality) (log : List Marker) (seen : Dict ℕ (List Marker)) (r : Runtime)
    → validate q log seen r ≡ []
    → IsComplete q log seen r
unfolding validate check_parser incomplete
validate-IsComplete q log seen r h =
    let (stream, h1) = append-empty _ _ h in
    let (parser, h2) = append-empty _ _ h1 in
    let (operations, h3) = append-empty _ _ h2 in
    let (jobs, h4) = append-empty _ _ h3 in
    let (work, completions) = append-empty _ _ h4 in
    let (u, p1) = append-empty _ _ parser in
    let (o, p2) = append-empty _ _ p1 in
    let (i, n) = append-empty _ _ p2 in
    let unfinished = has_unfinished_jobs-All r (complain_empty _ _ jobs) in
    record {
      stream = is_true _ (complain_empty _ _ stream);
      unparsed = complain_zero q.unparsed _ u;
      orphan_resumed = complain_zero q.orphan_resumed _ o;
      incomplete_at_eof = complain_zero q.incomplete_at_eof _ i;
      non_timestamp_lines = complain_zero q.non_timestamp_lines _ n;
      operations =
          check_operations-IsEnded r.operations operations
            (check_completions_empty (incomplete r) completions);
      jobs = unfinished.1;
      active = unfinished.0;
      work = has_open_work-All r (complain_empty _ _ work);
    }
