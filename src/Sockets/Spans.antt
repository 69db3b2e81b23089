-- ===== src/Sockets/Spans.antt =====
-- The closes of a log of native_socket_lifetimes.py, and what holds of them and the installations at
-- each line.
use causpan.Prelude.{
  ℕ, ◌+◌, ◌<◌, ◌≤◌, ◌≡◌, ◌≢◌, ◌⊎◌, ℤ, pos, none, some, List, [], ◌∷◌, ◌++◌, Dict, get, put, remove,
  All, All_map, nat_eq, pair_eq, int_eq, arith,
}
use causpan.Sockets.{Installation, Reference, Links, Line, last_close}

-- a close of a number, from the line where it starts to the line where it returns
pub record Span : Type 0 where
  pub fd : ℤ
  pub starts : ℕ
  pub ends : ℕ

abbrev pub Opened : Type 0
Opened = Dict ℕ (ℤ × ℕ)

-- the close that a line ends: the second stop of a thread is the return of its close
unfoldable pub closed_by : ℕ → Opened → Line → List Span
unfolding get
closed_by number opened (Line.close_stop thread value) = elim (get thread opened) [
  | none ↦ []
  | some begun ↦ record { fd = begun.0; starts = begun.1; ends = number } ∷ []
]
closed_by number opened _ = []

unfoldable pub opened_after : ℕ → Opened → Line → Opened
unfolding get put remove
opened_after number opened (Line.close_stop thread value) = elim (get thread opened) [
  | none ↦ put thread (value, number) opened
  | some _ ↦ remove thread opened
]
opened_after number opened _ = opened

-- the closes of a log
unfoldable pub closes_of : ℕ → Opened → List Line → List Span
unfolding closed_by opened_after
closes_of number opened [] = []
closes_of number opened (line ∷ lines) =
    closed_by number opened line ++ closes_of (number + 1) (opened_after number opened line) lines

-- A close of the installed number starts before the installation and returns before it does.
abbrev pub IsEarlier : Installation → Span → Type 0
IsEarlier i c = c.fd ≡ i.fd → (c.starts < i.entry_line) × (c.ends < i.return_line)

-- It does so, or starts after a line.
abbrev pub IsSeparate : ℕ → Installation → Span → Type 0
IsSeparate line i c =
    c.fd ≡ i.fd → ((c.starts < i.entry_line) × (c.ends < i.return_line)) ⊎ (line < c.starts)

-- A link goes to an installation of the number that the entry names, returned before the entry, and
-- each close of that number is before the installation or after the entry.
abbrev pub IsUnclosed : List Span → Reference → Type 0
IsUnclosed closes r =
    (i : Installation)
    → r.installation ≡ some i
    → (i.fd ≡ pos r.target_fd) × (i.return_line < r.line) × All (IsSeparate r.line i) closes

-- no close of the number is open, or only one that started after a line
abbrev pub IsFree : ℤ → Opened → Type 0
IsFree v opened = (thread : ℕ) (b : ℤ × ℕ) → get thread opened ≡ some b → b.0 ≢ v

abbrev pub IsAfter : ℕ → ℤ → Opened → Type 0
IsAfter line v opened = (thread : ℕ) (b : ℤ × ℕ) → get thread opened ≡ some b → b.0 ≡ v → line < b.1

pub record IsActive (number : ℕ) (closes : List Span) (opened : Opened) (v : ℤ) (i : Installation)
    : Type 0 where
  pub fd : i.fd ≡ v
  pub returned : i.return_line < number
  pub free : IsFree v opened
  pub earlier : All (IsEarlier i) closes

pub record IsReferred (number : ℕ) (closes : List Span) (opened : Opened) (r : Reference)
    : Type 0 where
  pub unclosed : IsUnclosed closes r
  pub past : r.line < number
  pub later : (i : Installation) → r.installation ≡ some i → IsAfter r.line i.fd opened

-- what holds before the line of a number, with the closes so far
pub record Holds (number : ℕ) (closes : List Span) (s : Links) : Type 0 where
  pub active :
      (v : ℤ) (i : Installation) → get v s.active ≡ some i → IsActive number closes s.closing v i
  pub latest : All (λ (c : Span). (c.starts ≤ last_close c.fd s) × (c.ends < number)) closes
  pub opened : (thread : ℕ) (b : ℤ × ℕ) → get thread s.closing ≡ some b → b.1 ≤ last_close b.0 s
  pub bounded : (v : ℤ) → last_close v s < number
  pub references : All (IsReferred number closes s.closing) s.references

pub IsActive-next :
    (number : ℕ) (closes : List Span) (opened : Opened) (v : ℤ) (i : Installation)
    → IsActive number closes opened v i
    → IsActive (number + 1) closes opened v i
IsActive-next number closes opened v i h = record {
  fd = h.fd;
  returned = omega (arith, h.returned);
  free = h.free;
  earlier = h.earlier;
}

pub IsReferred-next :
    (number : ℕ) (closes : List Span) (opened : Opened) (r : Reference)
    → IsReferred number closes opened r
    → IsReferred (number + 1) closes opened r
IsReferred-next number closes opened r h = record {
  unclosed = h.unclosed;
  past = omega (arith, h.past);
  later = h.later;
}

-- the next line, where closes play no part and nothing new is active
pub Holds-next :
    (number : ℕ) (closes : List Span) (s : Links) (installing : Dict (ℕ × ℕ) (ℤ × ℕ))
    (active : Dict ℤ Installation) (installations : List Installation)
    → Holds number closes s
    → ((v : ℤ) (i : Installation)
        → get v active ≡ some i
        → IsActive (number + 1) closes s.closing v i)
    → Holds
        (number + 1)
        closes
        (record s { installing = installing; active = active; installations = installations })
unfolding last_close
Holds-next number closes s installing active installations h a = record {
  active = a;
  latest = All_map _ _ closes (λ c k. (k.0, omega (arith, k.1))) h.latest;
  opened = h.opened;
  bounded = λ v. omega (arith, h.bounded v);
  references =
      All_map (IsReferred number closes s.closing) (IsReferred (number + 1) closes s.closing)
        s.references (IsReferred-next number closes s.closing) h.references;
}
