-- ===== src/Tests/Epochs.antt =====
-- The theorem on close epochs, on a concrete log: a descriptor that is used, closed and used again,
-- and a close that fails.
use causpan.Prelude.{
  ◌≡◌, refl, pos, negsuc, int_eq, nat_eq, none, some, List, [], ◌∷◌, get, put, remove, add, true,
  false, All,
}
use causpan.Closes.{Line, Report, report}
use causpan.Closes.Epochs.{IsCounted, report-IsCounted}

abbrev lines : List Line
lines =
    Line.sqe (some (7, 1))
    ∷ Line.close_stop 9 (pos 7)
    ∷ Line.other
    ∷ Line.sqe (some (7, 3))
    ∷ Line.close_stop 9 (pos 0)
    ∷ Line.sqe (some (7, 1))
    ∷ Line.close_stop 9 (pos 7)
    ∷ Line.close_stop 9 (negsuc 0)
    ∷ Line.sqe (some (7, 2))
    ∷ []

abbrev reported : Report
reported = record {
  references =
      record { target_fd = 7; close_epoch = 0; control = 1; line = 1; unresolved_close = false }
      ∷ record { target_fd = 7; close_epoch = 0; control = 3; line = 4; unresolved_close = true }
      ∷ record { target_fd = 7; close_epoch = 1; control = 1; line = 6; unresolved_close = false }
      ∷ record { target_fd = 7; close_epoch = 1; control = 2; line = 9; unresolved_close = false }
      ∷ [];
  closes =
      record { fd = pos 7; result = pos 0; entry_line = 2; return_line = 5 }
      ∷ record { fd = pos 7; result = negsuc 0; entry_line = 7; return_line = 8 }
      ∷ [];
  crossings = (7, 0 ∷ 1 ∷ []) ∷ [];
}

report_of : report lines ≡ some reported
unfolding report get put remove add
report_of = refl

report-IsCounted_example : All (IsCounted reported.closes) reported.references
report-IsCounted_example = report-IsCounted lines reported report_of

-- a close that never returns
rejected : report (Line.close_stop 9 (pos 7) ∷ []) ≡ none
unfolding report get put
rejected = refl
