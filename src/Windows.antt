-- ===== src/Windows.antt =====
-- `inspect` of experiments/mcp/inspect_native_windows.py: the batches of a debugger log of a ring, from
-- the window of submissions to that of completions. A line comes with the numbers that the code
-- reads in it; their count is checked here. The check of the setups is an argument.
pub mod Complete
use causpan.Prelude.{
  ℕ, ◌+◌, ◌-◌, ◌%◌, String, ℤ, pos, negsuc, pos_part, neg_part, leb_ℤ, ltb_ℤ, int_eq, Option, none,
  some, List, [], ◌∷◌, ◌++◌, Dict, get, has, put, Bool, true, false, ◌&&◌, ◌||◌, not, ◌==◌, nat_eq,
  length, leb, ltb, all, Result, ok, err, ◌>>=◌, ◌>>◌, guard, or_raise, if◌then◌else◌,
}
use causpan.Rings.{in_range, two_31, minus_two_31, two_64}

-- the tests of the loop that raise, and the end
pub data Error : Type 0 where
  malformed_line interleaved invalid_window no_setup late_setup gap : Error
  outside_submission unsupported_entry invalid_entry unsupported_epoll unsupported_flags : Error
  outside_return outside_completion window_mismatch early_completion : Error
  completion_flags completion_range unknown_completion no_batch incomplete_batch : Error
  missing_end : Error

-- `batch['sq'][uid]`, without its index
pub record Entry : Type 0 where
  pub opcode : ℤ
  pub fd : ℤ
  pub index : ℤ
  pub target : Option (ℤ × ℤ)
  pub flags : Option ℤ

-- `batch`; a completion is its result, since its flags are 0
pub record Batch : Type 0 where
  pub fd : ℕ
  pub head : ℕ
  pub tail : ℕ
  pub count : ℕ
  pub sq : Dict ℤ Entry
  pub cq : Dict ℤ ℤ
  pub submitter : Option (ℕ × ℕ)
  pub returned : Option ℤ
  pub cq_window : Bool

-- `dict(**op,**batch['cq'][uid])`
pub record Operation : Type 0 where
  pub user_data : ℤ
  pub entry : Entry
  pub result : ℤ

pub record Report : Type 0 where
  pub submitter : Option (ℕ × ℕ)
  pub ring_fd : ℕ
  pub sq_head : ℕ
  pub sq_tail : ℕ
  pub operations : List Operation

-- the locals of the loop
pub record Inspecting : Type 0 where
  pub batch : Option Batch
  pub result : List Report
  pub last_tail : Dict ℕ ℕ
  pub submitter : Option (ℕ × ℕ)

-- the prefixes of a line, with its numbers; `RETURN` with the text after `=` read as a number
pub data Line : Type 0 where
  submitter_line batch_line completions_line : List ℕ → Line
  sqe_line cqe_line : List ℤ → Line
  return_line : Option ℤ → Line
  batch_end unrelated : Line

abbrev pub two_32 : ℕ
two_32 = 4294967296

-- `(tail-head)&0xffffffff`
unfoldable pub distance : ℕ → ℕ → ℕ
distance head tail = (tail % two_32 + two_32 - head % two_32) % two_32

-- where the setups were observed, by the descriptor of the ring
abbrev pub Setups : Type 0
Setups = Option (Dict ℕ ℕ)

unfoldable pub check_setup : Setups → ℕ → ℕ → Result Error (Unit {0})
unfolding get
check_setup none fd position = ok tt
check_setup (some setups) fd position = elim (get fd setups) [
  | none ↦ err Error.no_setup
  | some at ↦ guard (ltb at position) Error.late_setup
]

abbrev pub follows : ℕ → ℕ → Dict ℕ ℕ → Bool
follows fd head tails = elim (get fd tails) [ none ↦ true | some tail ↦ head == tail ]

unfoldable pub open_batch : Setups → ℕ → ℕ → ℕ → ℕ → ℕ → Inspecting → Result Error Inspecting
unfolding distance check_setup get
open_batch setups position fd head tail mask s = elim s.batch [
  | some _ ↦ err Error.interleaved
  | none ↦ do
    let count = distance head tail
    guard (mask == 255 && (ltb 0 count && leb count (mask + 1))) Error.invalid_window
    check_setup setups fd position
    guard (follows fd head s.last_tail) Error.gap
    ok (record s {
      batch = some (record {
        fd = fd;
        head = head;
        tail = tail;
        count = count;
        sq = [];
        cq = [];
        submitter = s.submitter;
        returned = none;
        cq_window = false;
      });
      submitter = none;
    })
]

abbrev pub is_absent : {A : Type 0} → Option A → Bool
is_absent none = true
is_absent (some _) = false

-- the entry of the values after the first four
unfoldable pub extend_entry : Entry → List ℤ → Result Error Entry
extend_entry entry [] = ok entry
extend_entry entry (_ ∷ []) = err Error.unsupported_entry
extend_entry entry (target ∷ control ∷ more) = do
  guard
      (entry.opcode == pos 29
        && (leb_ℤ target (pos 2147483647)
            && (control == pos 1 || (control == pos 2 || control == pos 3))))
      Error.unsupported_epoll
  extend_flags (record entry { target = some (target, control) }) more
  where
    extend_flags : Entry → List ℤ → Result Error Entry
    extend_flags known [] = ok known
    extend_flags known (flags ∷ []) =
        guard (flags == pos 0) Error.unsupported_flags >> ok (record known { flags = some flags })
    extend_flags known (_ ∷ _ ∷ _) = err Error.unsupported_entry

-- an entry of the submission queue
unfoldable pub add_entry : List ℤ → Batch → Result Error Batch
unfolding get put extend_entry
add_entry (index ∷ opcode ∷ fd ∷ uid ∷ more) b = do
  guard (is_absent b.returned) Error.outside_submission
  guard (has_length more) Error.unsupported_entry
  guard (leb_ℤ (pos 0) index && (leb_ℤ index (pos 255) && not (has uid b.sq))) Error.invalid_entry
  entry ←
      extend_entry (record { opcode = opcode; fd = fd; index = index; target = none; flags = none })
        more
  ok (record b { sq = put uid entry b.sq })
  where
    has_length : List ℤ → Bool
    has_length [] = true
    has_length (_ ∷ []) = false
    has_length (_ ∷ _ ∷ []) = true
    has_length (_ ∷ _ ∷ _ ∷ []) = true
    has_length (_ ∷ _ ∷ _ ∷ _ ∷ _) = false
add_entry values b = do
  guard (is_absent b.returned) Error.outside_submission
  err Error.unsupported_entry

unfoldable pub return_batch : Option ℤ → Batch → Result Error Batch
return_batch value b = do
  guard (is_absent b.returned && length b.sq == b.count) Error.outside_return
  n ← or_raise value Error.malformed_line
  ok (record b { returned = some n })

unfoldable pub open_completions : List ℕ → Batch → Result Error Batch
unfolding distance
open_completions (fd ∷ head ∷ tail ∷ mask ∷ []) b = do
  guard (not (is_absent b.returned) && not b.cq_window) Error.outside_completion
  guard (fd == b.fd && (mask == 511 && (head == b.head && distance head tail == b.count)))
      Error.window_mismatch
  ok (record b { cq_window = true })
open_completions numbers b = do
  guard (not (is_absent b.returned) && not b.cq_window) Error.outside_completion
  err Error.malformed_line

unfoldable pub add_completion : List ℤ → Batch → Result Error Batch
unfolding get put
add_completion (uid ∷ value ∷ flags ∷ []) b = do
  guard b.cq_window Error.early_completion
  guard (flags == pos 0) Error.completion_flags
  guard (in_range minus_two_31 two_31 value && in_range (pos 0) two_64 uid) Error.completion_range
  guard (not (has uid b.cq) && has uid b.sq) Error.unknown_completion
  ok (record b { cq = put uid value b.cq })
add_completion values b = do guard b.cq_window Error.early_completion; err Error.malformed_line

-- `set(batch['sq'])==set(batch['cq'])`
abbrev pub same_keys : Dict ℤ Entry → Dict ℤ ℤ → Bool
same_keys sq cq = all (λ entry. has entry.0 cq) sq && all (λ completion. has completion.0 sq) cq

abbrev pub is_count : ℕ → Option ℤ → Bool
is_count count returned = elim returned [ none ↦ false | some n ↦ n == pos count ]

-- the operations, in the order of the submissions; after the check of the keys each has its result
unfoldable pub operations_of : Dict ℤ Entry → Dict ℤ ℤ → List Operation
unfolding get
operations_of [] cq = []
operations_of ((uid, entry) ∷ sq) cq =
    let rest = operations_of sq cq in
    elim (get uid cq) [
      | none ↦ rest
      | some value ↦ record { user_data = uid; entry = entry; result = value } ∷ rest
    ]

unfoldable pub end_batch : Batch → Inspecting → Result Error Inspecting
unfolding get put operations_of
end_batch b s = do
  guard
      (b.cq_window
        && (is_count b.count b.returned && (length b.sq == b.count && same_keys b.sq b.cq)))
      Error.incomplete_batch
  ok (record s {
    result =
        s.result
        ++ record {
          submitter = b.submitter;
          ring_fd = b.fd;
          sq_head = b.head;
          sq_tail = b.tail;
          operations = operations_of b.sq b.cq;
        }
          ∷ [];
    last_tail = put b.fd b.tail s.last_tail;
    batch = none;
  })

-- a line of an open batch, with what is raised where there is none
unfoldable pub in_batch :
    Error → (Batch → Result Error Batch) → Inspecting → Result Error Inspecting
in_batch e step s = elim s.batch [
  | none ↦ err e
  | some b ↦ step b >>= λ next. ok (record s { batch = some next })
]

-- one line at a position
unfoldable pub inspect_line : Setups → ℕ → Line → Inspecting → Result Error Inspecting
unfolding open_batch in_batch add_entry return_batch open_completions add_completion end_batch
inspect_line setups position (Line.submitter_line (pid ∷ tid ∷ [])) s =
    ok (record s { submitter = some (pid, tid) })
inspect_line setups position (Line.submitter_line _) s = err Error.malformed_line
inspect_line setups position (Line.batch_line (fd ∷ head ∷ tail ∷ mask ∷ [])) s =
    open_batch setups position fd head tail mask s
inspect_line setups position (Line.batch_line _) s = elim s.batch [
  | some _ ↦ err Error.interleaved
  | none ↦ err Error.malformed_line
]
inspect_line setups position (Line.sqe_line values) s =
    in_batch Error.outside_submission (add_entry values) s
inspect_line setups position (Line.return_line value) s =
    in_batch Error.outside_return (return_batch value) s
inspect_line setups position (Line.completions_line numbers) s =
    in_batch Error.outside_completion (open_completions numbers) s
inspect_line setups position (Line.cqe_line values) s =
    in_batch Error.early_completion (add_completion values) s
inspect_line setups position Line.batch_end s = elim s.batch [
  | none ↦ err Error.no_batch
  | some b ↦ end_batch b s
]
inspect_line setups position Line.unrelated s = ok s

-- the lines, each with its position
unfoldable pub inspect_lines : Setups → List (ℕ × Line) → Inspecting → Result Error Inspecting
unfolding inspect_line
inspect_lines setups [] s = ok s
inspect_lines setups ((position, line) ∷ lines) s =
    inspect_line setups position line s >>= λ next. inspect_lines setups lines next

abbrev pub no_batches : Inspecting
no_batches = record { batch = none; result = []; last_tail = []; submitter = none }

abbrev pub is_empty : {A : Type 0} → List A → Bool
is_empty [] = true
is_empty (_ ∷ _) = false

-- `result`
unfoldable pub inspect : Setups → List (ℕ × Line) → Result Error (List Report)
unfolding inspect_lines
inspect setups lines = do
  s ← inspect_lines setups lines no_batches
  guard (is_absent s.batch && not (is_empty s.result)) Error.missing_end
  ok s.result
