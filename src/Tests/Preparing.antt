-- ===== src/Tests/Preparing.antt =====
-- The theorem on preparations, on a concrete log: two entries that are prepared in one order and
-- entered in the other.
use causpan.Prelude.{
  ℕ, ◌≡◌, refl, pos, nat_eq, int_eq, none, some, List, [], ◌∷◌, get, put, remove, true,
}
use causpan.Preparations.{Values, Line, Join, key_eq, report}
use causpan.Preparations.Joined.{
  entries, preparations, joins_of, Record, weight, weight_of, report-Joined,
}

abbrev first : Values
first = record { fd = pos 5; target = pos 7; control = pos 1 }

abbrev second : Values
second = record { fd = pos 5; target = pos 8; control = pos 3 }

abbrev lines : List Line
lines =
    Line.marker 9 true 3
    ∷ Line.preparer 9
    ∷ Line.prep (pos 4) (pos 70) first
    ∷ Line.prep (pos 4) (pos 80) second
    ∷ Line.batch (pos 4)
    ∷ Line.sqe (pos 80) second
    ∷ Line.sqe (pos 70) first
    ∷ []

abbrev joins : List Join
joins =
    record {
      preparation = record {
        key = record { ring = some (pos 4); user_data = pos 80 };
        values = second;
        line = 4;
        tid = some 9;
        context = some 3;
      };
      sqe_line = 6;
    }
    ∷ record {
      preparation = record {
        key = record { ring = some (pos 4); user_data = pos 70 };
        values = first;
        line = 3;
        tid = some 9;
        context = some 3;
      };
      sqe_line = 7;
    }
    ∷ []

joined : report lines ≡ some joins
unfolding report get put remove
joined = refl

report-Joined_example :
    (joins_of joins ≡ entries 1 none lines)
    × ((f : Record → ℕ) → weight_of f joins ≡ weight f (preparations 1 lines))
report-Joined_example = report-Joined lines joins joined

-- an entry that nothing prepared
rejected : report (Line.batch (pos 4) ∷ Line.sqe (pos 70) first ∷ []) ≡ none
unfolding report get
rejected = refl
