-- ===== src/Rings.antt =====
-- experiments/mcp/ring_observations.py: the observations of a runtime on its ring, joined into
-- operations, and the checks on the traced calls of the ring. A row is a dict of JSON values, since
-- the code checks the type of what it reads.
pub mod Rows
pub mod Resource
pub mod Resolved
pub mod Conserved
pub mod Replay
use causpan.Prelude.{
  ℕ, ◌^◌, String, ℤ, pos, negsuc, leb_ℤ, ltb_ℤ, int_eq, string_eq, Option, none, some, List, [],
  ◌∷◌, ◌++◌, Dict, get, has, put, remove, Bool, true, false, ◌&&◌, ◌||◌, not, ◌==◌, Json, member,
  add, Result, ok, err, ◌>>=◌, ◌>>◌, guard, or_raise, if◌then◌else◌,
}

abbrev pub Observation : Type 0
Observation = Dict String Json

-- one for each `raise ValueError`, and the TypeError of a list or a dict as a member of a set
pub data Error : Type 0 where
  invalid_identity unsupported_submission_flags duplicate_identity : Error
  unhashable_opcode unsupported_opcode noninteger_field out_of_range_field : Error
  no_pending_submission unsupported_completion_flags invalid_result exceeds_request : Error
  unknown_kind lacks_completions : Error

-- `dict(user_data=..., ...)`; the evidence is the same text for all, and `succeeded` is computed
pub record Operation : Type 0 where
  pub user_data : ℤ
  pub opcode : ℤ
  pub fd : ℤ
  pub offset : ℤ
  pub requested_bytes : ℤ
  pub result : ℤ

abbrev pub succeeded : Operation → Bool
succeeded o = leb_ℤ (pos 0) o.result

-- the fields that the code reads of a pending row
pub record Submission : Type 0 where
  pub opcode : ℤ
  pub fd : ℤ
  pub offset : ℤ
  pub length : ℤ

abbrev pub int_value : Json → Option ℤ
int_value (Json.integer n) = some n
int_value _ = none

-- `type(row.get(field)) is int`, with the value
unfoldable pub int_field : String → Observation → Option ℤ
unfolding get
int_field name row = elim (get name row) [ none ↦ none | some value ↦ int_value value ]

-- `low <= n < high`
abbrev pub in_range : ℤ → ℤ → ℤ → Bool
in_range low high n = leb_ℤ low n && ltb_ℤ n high

-- 2**31, 2**32 and 2**64, and -(2**31)
abbrev pub two_31 : ℤ
two_31 = pos 2147483648

abbrev pub minus_two_31 : ℤ
minus_two_31 = negsuc 2147483647

abbrev pub two_32 : ℤ
two_32 = pos 4294967296

abbrev pub two_64 : ℤ
two_64 = pos 18446744073709551616

-- `row.get('kind') == text`
unfoldable pub has_kind : String → Observation → Bool
unfolding get
has_kind text row = elim (get "kind" row) [
  | none ↦ false
  | some value ↦ elim value [ Json.text t ↦ t == text | _ ↦ false ]
]

unfoldable pub identity_of : Observation → Result Error ℤ
unfolding int_field
identity_of row = do
  n ← or_raise (int_field "user_data" row) Error.invalid_identity
  guard (in_range (pos 0) two_64 n) Error.invalid_identity
  ok n

-- `type(row.get('flags')) is int and row['flags'] == 0`
unfoldable pub no_flags : Observation → Bool
unfolding int_field
no_flags row = elim (int_field "flags" row) [ none ↦ false | some n ↦ n == pos 0 ]

-- the test of the opcode; a number that is no int may be in the set, but has another type
abbrev pub opcode_value : Json → Result Error ℤ
opcode_value (Json.integer n) =
    if n == pos 22 || n == pos 23 then ok n else err Error.unsupported_opcode
opcode_value (Json.array _) = err Error.unhashable_opcode
opcode_value (Json.object _) = err Error.unhashable_opcode
opcode_value _ = err Error.unsupported_opcode

unfoldable pub opcode_of : Observation → Result Error ℤ
unfolding get
opcode_of row = elim (get "opcode" row) [
  | none ↦ err Error.unsupported_opcode
  | some value ↦ opcode_value value
]

-- the locals of the loop
pub record Joining : Type 0 where
  pub pending : Dict ℤ Submission
  pub completed : List ℤ
  pub operations : List Operation

unfoldable pub submission_of : Observation → Result Error Submission
unfolding opcode_of int_field
submission_of row = do
  code ← opcode_of row
  fd ← or_raise (int_field "fd" row) Error.noninteger_field
  offset ← or_raise (int_field "offset" row) Error.noninteger_field
  length ← or_raise (int_field "length" row) Error.noninteger_field
  guard
      (in_range minus_two_31 two_31 fd
        && (in_range (pos 0) two_64 offset && in_range (pos 0) two_32 length))
      Error.out_of_range_field
  ok (record { opcode = code; fd = fd; offset = offset; length = length })

-- the branch on `sqe`
unfoldable pub submit : ℤ → Observation → Joining → Result Error Joining
unfolding no_flags submission_of member get put
submit identity row s = do
  guard (no_flags row) Error.unsupported_submission_flags
  guard (not (has identity s.pending || member identity s.completed)) Error.duplicate_identity
  submission ← submission_of row
  ok (record s { pending = put identity submission s.pending })

unfoldable pub result_of : Observation → Result Error ℤ
unfolding int_field
result_of row = do
  n ← or_raise (int_field "result" row) Error.invalid_result
  guard (in_range minus_two_31 two_31 n) Error.invalid_result
  ok n

abbrev pub operation_of : ℤ → Submission → ℤ → Operation
operation_of identity submission result = record {
  user_data = identity;
  opcode = submission.opcode;
  fd = submission.fd;
  offset = submission.offset;
  requested_bytes = submission.length;
  result = result;
}

-- the branch on `cqe`; nothing of the state is read after a raise
unfoldable pub complete : ℤ → Observation → Joining → Result Error Joining
unfolding no_flags result_of get remove add
complete identity row s = do
  submission ← or_raise (get identity s.pending) Error.no_pending_submission
  guard (no_flags row) Error.unsupported_completion_flags
  result ← result_of row
  guard (leb_ℤ result submission.length) Error.exceeds_request
  ok (record {
    pending = remove identity s.pending;
    completed = add identity s.completed;
    operations = s.operations ++ operation_of identity submission result ∷ [];
  })

-- one round of the loop
unfoldable pub join_row : Observation → Joining → Result Error Joining
unfolding identity_of has_kind submit complete
join_row row s = do
  identity ← identity_of row
  if has_kind "sqe" row
      then submit identity row s
      else if has_kind "cqe" row
      then complete identity row s
      else err Error.unknown_kind

unfoldable pub join_rows : List Observation → Joining → Result Error Joining
unfolding join_row
join_rows [] s = ok s
join_rows (row ∷ rows) s = join_row row s >>= λ next. join_rows rows next

abbrev pub no_operations : Joining
no_operations = record { pending = []; completed = []; operations = [] }

-- `if pending: raise`, and the operations
unfoldable pub all_completed : Joining → Result Error (List Operation)
all_completed s = elim s.pending [ [] ↦ ok s.operations | _ ∷ _ ↦ err Error.lacks_completions ]

unfoldable pub join_observations : List Observation → Result Error (List Operation)
unfolding join_rows all_completed
join_observations rows = join_rows rows no_operations >>= all_completed
