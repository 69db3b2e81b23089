-- ===== src/Closes.antt =====
-- `report` of experiments/mcp/native_close_epochs.py: how many closes of a descriptor came before an
-- epoll operation that targets it. `inspect` has accepted the log before, and what the regular
-- expressions match in a line is read already.
pub mod Epochs
use causpan.Prelude.{
  ℕ, ◌+◌, ℤ, pos, int_eq, Option, none, some, List, [], ◌∷◌, ◌++◌, Dict, get, put, remove, Bool,
  true, false, ◌==◌, nat_eq, if◌then◌else◌, add, ltb, length,
}

-- a stop with its thread and value, or an entry with its target and control, if it has them
pub data Line : Type 0 where
  close_stop : ℕ → ℤ → Line
  sqe : Option (ℕ × ℕ) → Line
  other : Line

pub record Reference : Type 0 where
  pub target_fd : ℕ
  pub close_epoch : ℕ
  pub control : ℕ
  pub line : ℕ
  pub unresolved_close : Bool

pub record Close : Type 0 where
  pub fd : ℤ
  pub result : ℤ
  pub entry_line : ℕ
  pub return_line : ℕ

pub record Closing : Type 0 where
  pub pending : Dict ℕ (ℤ × ℕ)
  pub epochs : Dict ℤ ℕ
  pub references : List Reference
  pub closes : List Close

-- a Counter has 0 for a missing key
unfoldable pub epoch : ℤ → Dict ℤ ℕ → ℕ
unfolding get
epoch fd epochs = elim (get fd epochs) [ none ↦ 0 | some n ↦ n ]

abbrev pub is_closing : ℤ → Dict ℕ (ℤ × ℕ) → Bool
is_closing fd [] = false
is_closing fd ((_, (f, _)) ∷ pending) = if fd == f then true else is_closing fd pending

-- the second stop of a thread is the return of its close
unfoldable pub stop : ℕ → ℕ → ℤ → Closing → Closing
unfolding get put remove epoch
stop number thread value s = elim (get thread s.pending) [
  | none ↦ record s { pending = put thread (value, number) s.pending }
  | some (fd, start) ↦ record s {
    pending = remove thread s.pending;
    epochs = if value == pos 0 then put fd (epoch fd s.epochs + 1) s.epochs else s.epochs;
    closes =
        s.closes
        ++ record { fd = fd; result = value; entry_line = start; return_line = number } ∷ [];
  }
]

unfoldable pub refer : ℕ → ℕ → ℕ → Closing → Closing
unfolding epoch
refer number fd control s = record s {
  references =
      s.references
      ++ record {
        target_fd = fd;
        close_epoch = epoch (pos fd) s.epochs;
        control = control;
        line = number;
        unresolved_close = is_closing (pos fd) s.pending;
      }
        ∷ [];
}

-- `none` is the ValueError of a target that is missing
unfoldable pub read_line : ℕ → Line → Closing → Option Closing
unfolding stop refer
read_line number (Line.close_stop thread value) s = some (stop number thread value s)
read_line number (Line.sqe none) s = none
read_line number (Line.sqe (some (fd, control))) s = some (refer number fd control s)
read_line number Line.other s = some s

unfoldable pub read_lines : ℕ → List Line → Closing → Option Closing
unfolding read_line
read_lines number [] s = some s
read_lines number (line ∷ lines) s = elim (read_line number line s) [
  | none ↦ none
  | some t ↦ read_lines (number + 1) lines t
]

abbrev pub no_closes : Closing
no_closes = record { pending = []; epochs = []; references = []; closes = [] }

-- `groups`
unfoldable pub group : List Reference → Dict ℕ (List ℕ) → Dict ℕ (List ℕ)
unfolding get put add
group [] groups = groups
group (r ∷ rs) groups = group rs (
    put r.target_fd
      (add r.close_epoch (elim (get r.target_fd groups) [ none ↦ [] | some found ↦ found ])) groups)

-- `targets_crossing_successful_closes`, with the epochs in the order of their references
abbrev pub crossing : Dict ℕ (List ℕ) → Dict ℕ (List ℕ)
crossing [] = []
crossing ((fd, found) ∷ groups) =
    if ltb 1 (length found) then (fd, found) ∷ crossing groups else crossing groups

pub record Report : Type 0 where
  pub references : List Reference
  pub closes : List Close
  pub crossings : Dict ℕ (List ℕ)

unfoldable pub report : List Line → Option Report
unfolding read_lines group
report lines = elim (read_lines 1 lines no_closes) [
  | none ↦ none
  | some s ↦ elim s.pending [
    | [] ↦ some (record {
      references = s.references;
      closes = s.closes;
      crossings = crossing (group s.references []);
    })
    | _ ∷ _ ↦ none
  ]
]
