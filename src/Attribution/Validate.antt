-- ===== src/Attribution/Validate.antt =====
-- `_validate_invariants` of attribute.py: the captured markers against the native log, and what is
-- left unfinished at the end of the capture.
pub mod Complete
use causpan.Prelude.{
  ℕ, ℤ, pos, negsuc, String, Option, none, some, List, [], ◌∷◌, ◌++◌, Dict, get, put, Bool, true,
  false, ◌&&◌, ◌||◌, not, ◌==◌, nat_eq, string_eq, int_eq, length, all, any, keep,
}
use causpan.Attribution.Types.{Kind, Marker, Operation, Error}
use causpan.Attribution.Runtime.{Runtime}

-- the counters of the parser that the attributor reads
pub record Quality : Type 0 where
  pub unparsed : ℕ
  pub orphan_resumed : ℕ
  pub incomplete_at_eof : ℕ
  pub non_timestamp_lines : ℕ

abbrev pub kind_number : Kind → ℕ
kind_number Kind.js_context = 0
kind_number Kind.work_enter = 1
kind_number Kind.work_leave = 2
kind_number Kind.done_enter = 3
kind_number Kind.done_leave = 4
kind_number Kind.install = 5
kind_number Kind.install_queue = 6
kind_number Kind.submit = 7
kind_number Kind.complete = 8
kind_number Kind.invariant_failure = 9
kind_number Kind.duplicate_work = 10
kind_number Kind.ipc_send = 11
kind_number Kind.ipc_enter = 12
kind_number Kind.ipc_leave = 13
kind_number Kind.ipc_cancel = 14

abbrev pub same_text : Option String → Option String → Bool
same_text none none = true
same_text (some a) (some b) = a == b
same_text _ _ = false

unfoldable pub same_marker : Marker → Marker → Bool
same_marker m n =
    kind_number m.kind == kind_number n.kind
    && (m.tid == n.tid
        && (m.request == n.request
            && (m.operation == n.operation
                && (m.pointer == n.pointer
                    && (m.status == n.status
                        && (same_text m.job n.job && same_text m.unit n.unit))))))

unfoldable pub same_markers : List Marker → List Marker → Bool
unfolding same_marker
same_markers [] [] = true
same_markers (m ∷ ms) (n ∷ ns) = same_marker m n && same_markers ms ns
same_markers _ _ = false

-- `d[note['tid']].append(note)` on a defaultdict of lists
unfoldable pub record_marker : Marker → Dict ℕ (List Marker) → Dict ℕ (List Marker)
record_marker m d = put m.tid ((elim (get m.tid d) [ none ↦ [] | some ms ↦ ms ]) ++ m ∷ []) d

unfoldable pub group_from : Dict ℕ (List Marker) → List Marker → Dict ℕ (List Marker)
unfolding record_marker
group_from d [] = d
group_from d (m ∷ ms) = group_from (record_marker m d) ms

-- every entry of the one dict is in the other
unfoldable pub includes : Dict ℕ (List Marker) → Dict ℕ (List Marker) → Bool
unfolding same_markers
includes d e =
    all (λ entry. elim (get entry.0 e) [ none ↦ false | some ms ↦ same_markers entry.1 ms ]) d

-- `dict(expected) == dict(self.seen)`
unfoldable pub same_stream : Dict ℕ (List Marker) → Dict ℕ (List Marker) → Bool
unfolding includes
same_stream d e = includes d e && includes e d

unfoldable pub complain : Bool → Error → List Error
complain true e = e ∷ []
complain false e = []

unfoldable pub check_parser : Quality → List Error
unfolding complain
check_parser q =
    complain (not (q.unparsed == 0)) (Error.parser_quality "unparsed" q.unparsed)
    ++ (complain (not (q.orphan_resumed == 0))
          (Error.parser_quality "orphan_resumed" q.orphan_resumed)
        ++ (complain (not (q.incomplete_at_eof == 0))
              (Error.parser_quality "incomplete_at_eof" q.incomplete_at_eof)
            ++ complain (not (q.non_timestamp_lines == 0))
                (Error.parser_quality "non_timestamp_lines" q.non_timestamp_lines)))

abbrev pub has_status : Option ℤ → ℤ → Bool
has_status none v = false
has_status (some s) v = s == v

unfoldable pub check_operation_end : ℕ → Operation → List Error
unfolding complain
check_operation_end op w =
    complain (has_status w.status (pos 0) && not (w.started && w.finished))
      (Error.completed_unobserved op)
    ++ complain (has_status w.status (negsuc 124) && w.started) (Error.cancelled_executed op)

unfoldable pub check_operations : Dict ℕ Operation → List Error
unfolding check_operation_end
check_operations [] = []
check_operations ((op, w) ∷ rest) = check_operation_end op w ++ check_operations rest

unfoldable pub has_unfinished_jobs : Runtime → Bool
has_unfinished_jobs r =
    elim r.ipc_active [ [] ↦ false | _ ∷ _ ↦ true ]
    || any (λ entry. not entry.1.finished) r.ipc_jobs

unfoldable pub has_open_work : Runtime → Bool
has_open_work r = any (λ entry. elim entry.1 [ [] ↦ false | _ ∷ _ ↦ true ]) r.active_work

-- the operations without a completion
unfoldable pub incomplete : Runtime → Dict ℕ Operation
incomplete r = keep (λ entry. not entry.1.completed) r.operations

unfoldable pub check_completions : Dict ℕ Operation → List Error
check_completions [] = []
check_completions (o ∷ os) = Error.lack_completion (length (o ∷ os)) ∷ []

-- `_validate_invariants`: the diagnostics that it appends
unfoldable pub validate : Quality → List Marker → Dict ℕ (List Marker) → Runtime → List Error
unfolding same_stream group_from check_parser check_operations has_unfinished_jobs has_open_work
    incomplete check_completions complain
validate q log seen r =
    complain (not (same_stream (group_from [] log) seen)) Error.marker_stream_differs
    ++ (check_parser q
        ++ (check_operations r.operations
            ++ (complain (has_unfinished_jobs r) Error.unfinished_ipc_jobs
                ++ (complain (has_open_work r) Error.unclosed_work_context
                    ++ check_completions (incomplete r)))))
