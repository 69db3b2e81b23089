-- ===== src/Tests/Batches.antt =====
-- The theorem on debugger batches, on concrete inputs: two batches of a ring, the second of which
-- begins where the first ended.
use causpan.Prelude.{
  ℕ, ◌≡◌, refl, ℤ, pos, int_eq, nat_eq, Option, none, some, List, [], ◌∷◌, get, put, All, ok, err,
}
use causpan.Windows.{Line, Report, Entry, Error, inspect}
use causpan.Windows.Complete.{IsFull, IsContiguous, inspect-IsContiguous}

abbrev lines : List (ℕ × Line)
lines =
    (0, Line.submitter_line (9 ∷ 10 ∷ []))
    ∷ (20, Line.batch_line (5 ∷ 0 ∷ 1 ∷ 255 ∷ []))
    ∷ (40, Line.sqe_line (pos 0 ∷ pos 22 ∷ pos 7 ∷ pos 77 ∷ []))
    ∷ (60, Line.return_line (some (pos 1)))
    ∷ (80, Line.completions_line (5 ∷ 0 ∷ 1 ∷ 511 ∷ []))
    ∷ (90, Line.cqe_line (pos 77 ∷ pos 4 ∷ pos 0 ∷ []))
    ∷ (95, Line.batch_end)
    ∷ (100, Line.batch_line (5 ∷ 1 ∷ 2 ∷ 255 ∷ []))
    ∷ (110, Line.sqe_line (pos 1 ∷ pos 29 ∷ pos 7 ∷ pos 78 ∷ pos 6 ∷ pos 1 ∷ []))
    ∷ (120, Line.return_line (some (pos 1)))
    ∷ (130, Line.completions_line (5 ∷ 1 ∷ 2 ∷ 511 ∷ []))
    ∷ (140, Line.cqe_line (pos 78 ∷ pos 0 ∷ pos 0 ∷ []))
    ∷ (150, Line.batch_end)
    ∷ []

abbrev entry : ℤ → ℤ → Option (ℤ × ℤ) → Entry
entry opcode index target = record {
  opcode = opcode;
  fd = pos 7;
  index = index;
  target = target;
  flags = none;
}

abbrev reports : List Report
reports =
    record {
      submitter = some (9, 10);
      ring_fd = 5;
      sq_head = 0;
      sq_tail = 1;
      operations =
          record { user_data = pos 77; entry = entry (pos 22) (pos 0) none; result = pos 4 } ∷ [];
    }
    ∷ record {
      submitter = none;
      ring_fd = 5;
      sq_head = 1;
      sq_tail = 2;
      operations =
          record {
            user_data = pos 78;
            entry = entry (pos 29) (pos 1) (some (pos 6, pos 1));
            result = pos 0;
          }
          ∷ [];
    }
    ∷ []

inspected : inspect (some ((5, 3) ∷ [])) lines ≡ ok reports
unfolding inspect get put
inspected = refl

inspect-IsContiguous_example : All IsFull reports × IsContiguous [] reports
inspect-IsContiguous_example = inspect-IsContiguous (some ((5, 3) ∷ [])) lines reports inspected

-- a batch that skips an entry of the ring
abbrev gap : List (ℕ × Line)
gap =
    (20, Line.batch_line (5 ∷ 0 ∷ 1 ∷ 255 ∷ []))
    ∷ (40, Line.sqe_line (pos 0 ∷ pos 22 ∷ pos 7 ∷ pos 77 ∷ []))
    ∷ (60, Line.return_line (some (pos 1)))
    ∷ (80, Line.completions_line (5 ∷ 0 ∷ 1 ∷ 511 ∷ []))
    ∷ (90, Line.cqe_line (pos 77 ∷ pos 4 ∷ pos 0 ∷ []))
    ∷ (95, Line.batch_end)
    ∷ (100, Line.batch_line (5 ∷ 2 ∷ 3 ∷ 255 ∷ []))
    ∷ []

rejected : inspect none gap ≡ err Error.gap
unfolding inspect get put
rejected = refl
