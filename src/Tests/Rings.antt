-- ===== src/Tests/Rings.antt =====
-- The theorems on the ring observations, on concrete inputs: two reads that complete in the other
-- order, and a descriptor that a helper opens, closes and opens again.
use causpan.Prelude.{
  ℕ, ◌≡◌, ◌↔◌, refl, inl, inr, String, pos, int_eq, none, some, List, [], ◌∷◌, ◌++◌, map, false,
  codes, ltb_ℤ, ok, err, get, put, remove, add, member, In, ℤ,
}
use causpan.Attribution.Types.{Event, Syscall}
use causpan.Rings.{Observation, Operation, Error, join_observations}
use causpan.Rings.Conserved.{Conserved, join_observations-Conserved}
use causpan.Rings.Replay.{submission_row, completion_row, IsWritable, join_observations-replay}
use causpan.Rings.Resource.{
  Resource, observed_file_resource, validate_waiting_enter, validate_scoped_ring, Refusal,
}
use causpan.Rings.Resolved.{ResolvedBy, observed_file_resource-ResolvedBy}

abbrev first : Operation
first = record {
  user_data = pos 1;
  opcode = pos 22;
  fd = pos 5;
  offset = pos 0;
  requested_bytes = pos 4096;
  result = pos 100;
}

abbrev second : Operation
second = record {
  user_data = pos 2;
  opcode = pos 23;
  fd = pos 5;
  offset = pos 0;
  requested_bytes = pos 10;
  result = pos 10;
}

abbrev rows : List Observation
rows = map submission_row (first ∷ second ∷ []) ++ map completion_row (second ∷ first ∷ [])

joined : join_observations rows ≡ ok (second ∷ first ∷ [])
unfolding join_observations submission_row completion_row get put remove add
joined = refl

join_observations-Conserved_example : Conserved rows (second ∷ first ∷ [])
join_observations-Conserved_example = join_observations-Conserved rows (second ∷ first ∷ []) joined

-- a completion alone, and one that is missing
lone_completion : join_observations (completion_row first ∷ []) ≡ err Error.no_pending_submission
unfolding join_observations completion_row get
lone_completion = refl

missing_completion : join_observations (submission_row first ∷ []) ≡ err Error.lacks_completions
unfolding join_observations submission_row get put
missing_completion = refl

first-IsWritable : IsWritable first
first-IsWritable = record {
  supported = refl;
  identity = refl;
  in_bounds = refl;
  result = refl;
  within = refl;
}

second-IsWritable : IsWritable second
second-IsWritable = record {
  supported = refl;
  identity = refl;
  in_bounds = refl;
  result = refl;
  within = refl;
}

same_operations : (o : Operation) → In o (first ∷ second ∷ []) ↔ In o (second ∷ first ∷ [])
same_operations o = (swap first second o, swap second first o)
  where
    swap : (a b o : Operation) → In o (a ∷ b ∷ []) → In o (b ∷ a ∷ [])
    swap a b o (inl p) = inr (inl p)
    swap a b o (inr (inl p)) = inl p
    swap a b o (inr (inr h)) = absurd h

join_observations-replay_example :
    join_observations
      (map submission_row (first ∷ second ∷ []) ++ map completion_row (second ∷ first ∷ []))
    ≡ ok (second ∷ first ∷ [])
unfolding member
join_observations-replay_example =
    join_observations-replay (first ∷ second ∷ []) (second ∷ first ∷ [])
      (first-IsWritable, (second-IsWritable, tt)) (second-IsWritable, (first-IsWritable, tt))
      (refl, (refl, tt)) (refl, (refl, tt)) same_operations

abbrev call : String → String → ℤ → List String → ℕ → Event
call name args result paths time = record {
  source = "t:1";
  pid = 9;
  tid = 9;
  syscall = Syscall.other name;
  args = codes args;
  return_value = some result;
  paths = paths;
  timestamp_ns = time;
  duration_ns = some 1;
  completion_ns = some time;
  descriptor_rights = none;
}

abbrev reopened : Event
reopened = call "openat" "AT_FDCWD, \"/b\"" (pos 3) ("/b" ∷ []) 30

abbrev calls : List Event
calls = call "open" "\"/a\"" (pos 3) ("/a" ∷ []) 10 ∷ call "close" "3" (pos 0) [] 20 ∷ reopened ∷ []

reopens : observed_file_resource 9 (pos 3) 40 calls ≡ Resource.observed_absolute_open reopened
unfolding observed_file_resource member
reopens = refl

observed_file_resource-ResolvedBy_example :
    (observed_file_resource 9 (pos 3) 40 calls ≡ Resource.observed_absolute_open reopened)
    ↔ ((ltb_ℤ (pos 3) (pos 0) ≡ false) × ResolvedBy 9 (pos 3) 40 calls reopened)
observed_file_resource-ResolvedBy_example =
    observed_file_resource-ResolvedBy 9 (pos 3) 40 calls reopened

enters :
    validate_waiting_enter
      (call "io_uring_enter" "5<anon_inode:[io_uring]>, 1, 1, IORING_ENTER_GETEVENTS, NULL, 0"
        (pos 1)
        []
        50)
      (pos 1)
    ≡ ok 5
unfolding validate_waiting_enter
enters = refl

sets_up :
    validate_scoped_ring
      (call "io_uring_setup" "8, {flags=0, sq_thread_cpu=0}" (pos 5) [] 5)
      (call "clone3" "{flags=0}" (pos 12) [] 6 ∷ [])
    ≡ err Refusal.changed_scope
unfolding validate_scoped_ring member
sets_up = refl
