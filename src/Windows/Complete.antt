-- ===== src/Windows/Complete.antt =====
-- The batches that `inspect` of inspect_native_windows.py accepts.
use causpan.Prelude.{
  ℕ, suc, ◌≡◌, ◌≤◌, ◌<◌, refl, sym, ◌∙◌, inl, inr, subst, ap, ℤ, int_eq, Option, none, some,
  none≢some, some_injective, List, [], ◌∷◌, ◌++◌, append_assoc, append-nil, Dict, get, has, put,
  get-put, IsDistinct, put-IsDistinct, true, false, ◌==◌, nat_eq, nat_beq_iff, length, all, member,
  IsUnique, All, All-append, Bool-cases, Option-cases, Result-cases, err≢ok, ok_injective, Result,
  ok, arith, if◌then◌else◌,
}
use mathlib.Core.Bool.{false≢true}
use causpan.Windows.{
  Error, Entry, Batch, Operation, Report, Inspecting, Line, distance, Setups, check_setup, follows,
  open_batch, extend_entry, add_entry, return_batch, open_completions, add_completion,
  operations_of, end_batch, in_batch, inspect_line, inspect_lines, no_batches, inspect,
}

abbrev pub ids : List Operation → List ℤ
ids [] = []
ids (o ∷ os) = o.user_data ∷ ids os

-- A report has as many operations as its window has places, which are some and at most 256, and no
-- user data twice.
pub record IsFull (r : Report) : Type 0 where
  pub as_many : length r.operations ≡ distance r.sq_head r.sq_tail
  pub some_place : 0 < distance r.sq_head r.sq_tail
  pub within_ring : distance r.sq_head r.sq_tail ≤ 256
  pub different : IsUnique (ids r.operations)

-- where the last batch of a ring ended
abbrev pub last_of : ℕ → List Report → Option ℕ
last_of fd [] = none
last_of fd (r ∷ rs) = elim (last_of fd rs) [
  | none ↦ if r.ring_fd == fd then some r.sq_tail else none
  | some tail ↦ some tail
]

-- Each batch begins where the one before it on its ring ended.
abbrev pub IsContiguous : List Report → List Report → Type 0
IsContiguous before [] = Unit
IsContiguous before (r ∷ rs) =
    ((tail : ℕ) → last_of r.ring_fd before ≡ some tail → r.sq_head ≡ tail)
    × IsContiguous (before ++ r ∷ []) rs

-- an open batch
record IsOpen (tails : Dict ℕ ℕ) (b : Batch) : Type 0 where
  distinct : IsDistinct b.sq
  counted : b.count ≡ distance b.head b.tail
  some_place : 0 < b.count
  within_ring : b.count ≤ 256
  continues : follows b.fd b.head tails ≡ true

record Inspected (s : Inspecting) : Type 0 where
  open_batch_kept : (b : Batch) → s.batch ≡ some b → IsOpen s.last_tail b
  full : All IsFull s.result
  contiguous : IsContiguous [] s.result
  tails : (fd : ℕ) → get fd s.last_tail ≡ last_of fd s.result

last_of-append :
    (fd : ℕ) (rs : List Report) (r : Report)
    → last_of fd (rs ++ r ∷ []) ≡ (if r.ring_fd == fd then some r.sq_tail else last_of fd rs)
last_of-append fd [] r = refl
last_of-append fd (q ∷ rs) r = elim (Bool-cases (r.ring_fd == fd)) [
  | inl p ↦ rw (last_of-append fd rs r, p) refl
  | inr p ↦ rw (last_of-append fd rs r, p) refl
]

IsContiguous-append :
    (rs before : List Report) (r : Report)
    → IsContiguous before rs
    → ((tail : ℕ) → last_of r.ring_fd (before ++ rs) ≡ some tail → r.sq_head ≡ tail)
    → IsContiguous before (rs ++ r ∷ [])
IsContiguous-append [] before r h k = (
  subst (λ l. (tail : ℕ) → last_of r.ring_fd l ≡ some tail → r.sq_head ≡ tail) (append-nil before)
      k,
  tt,
)
IsContiguous-append (q ∷ rs) before r h k = (
  h.0,
  IsContiguous-append rs (before ++ q ∷ []) r h.1 (
      subst (λ l. (tail : ℕ) → last_of r.ring_fd l ≡ some tail → r.sq_head ≡ tail)
        (sym (append_assoc before (q ∷ []) rs)) k),
)

-- the operations are the submissions
module _ (cq : Dict ℤ ℤ) where
  length-operations_of :
      (sq : Dict ℤ Entry)
      → all (λ entry. has entry.0 cq) sq ≡ true
      → length (operations_of sq cq) ≡ length sq
  unfolding operations_of
  length-operations_of [] h = refl
  length-operations_of ((uid, entry) ∷ sq) h = elim (Option-cases (get uid cq)) [
    | inl p ↦ absurd (false≢true (rw (p, has) at h))
    | inr (value, p) ↦
        rw (p, operations_of) (ap (λ n. suc n) (length-operations_of sq (rw (p, has) at h)))
  ]

  absent-operations_of :
      (k : ℤ) (sq : Dict ℤ Entry) → get k sq ≡ none → member k (ids (operations_of sq cq)) ≡ false
  unfolding operations_of get member
  absent-operations_of k [] h = refl
  absent-operations_of k ((uid, entry) ∷ sq) h = elim (Bool-cases (uid == k)) [
    | inl q ↦ absurd (none≢some (sym (rw q at h)))
    | inr q ↦ elim (Option-cases (get uid cq)) [
      | inl p ↦ rw (p, operations_of) (absent-operations_of k sq (rw q at h))
      | inr (value, p) ↦ rw (p, operations_of) (rw q (absent-operations_of k sq (rw q at h)))
    ]
  ]

  operations_of-IsUnique :
      (sq : Dict ℤ Entry) → IsDistinct sq → IsUnique (ids (operations_of sq cq))
  unfolding operations_of
  operations_of-IsUnique [] d = tt
  operations_of-IsUnique ((uid, entry) ∷ sq) d = elim (Option-cases (get uid cq)) [
    | inl p ↦ rw (p, operations_of) (operations_of-IsUnique sq d.1)
    | inr (value, p) ↦
        rw (p, operations_of) (absent-operations_of uid sq d.0, operations_of-IsUnique sq d.1)
  ]

-- what each line leaves of a batch: its window, and entries that are different
record Kept (b c : Batch) : Type 0 where
  same_fd : c.fd ≡ b.fd
  same_head : c.head ≡ b.head
  same_tail : c.tail ≡ b.tail
  same_count : c.count ≡ b.count
  still_distinct : IsDistinct b.sq → IsDistinct c.sq

IsOpen-Kept : (tails : Dict ℕ ℕ) (b c : Batch) → Kept b c → IsOpen tails b → IsOpen tails c
IsOpen-Kept tails b c k o = record {
  distinct = k.still_distinct o.distinct;
  counted =
      k.same_count
      ∙ (o.counted
          ∙ (ap (λ n. distance n b.tail) (sym k.same_head)
              ∙ ap (λ n. distance c.head n) (sym k.same_tail)));
  some_place = omega (arith, k.same_count, o.some_place);
  within_ring = omega (arith, k.same_count, o.within_ring);
  continues =
      subst (λ n. follows n c.head tails ≡ true) (sym k.same_fd)
        (subst (λ n. follows b.fd n tails ≡ true) (sym k.same_head) o.continues);
}

AreKept : (Batch → Result Error Batch) → Type 0
AreKept step = (b c : Batch) → step b ≡ ok c → Kept b c

add_entry-AreKept : (values : List ℤ) → AreKept (add_entry values)
unfolding AreKept add_entry
add_entry-AreKept (index ∷ opcode ∷ fd ∷ uid ∷ more) b c h =
    let bare : Entry = record {
      opcode = opcode;
      fd = fd;
      index = index;
      target = none;
      flags = none;
    } in
    elim (Result-cases (extend_entry bare more)) [
      | inl (e, p) ↦ absurd (ground arith)
      | inr (entry, p) ↦
          let same : record b { sq = put uid entry b.sq } ≡ c = ground arith in
          subst (Kept b) same (record {
            same_fd = refl;
            same_head = refl;
            same_tail = refl;
            same_count = refl;
            still_distinct = put-IsDistinct uid entry b.sq;
          })
    ]
add_entry-AreKept [] b c h = absurd (ground arith)
add_entry-AreKept (_ ∷ []) b c h = absurd (ground arith)
add_entry-AreKept (_ ∷ _ ∷ []) b c h = absurd (ground arith)
add_entry-AreKept (_ ∷ _ ∷ _ ∷ []) b c h = absurd (ground arith)

return_batch-AreKept : (value : Option ℤ) → AreKept (return_batch value)
unfolding AreKept return_batch
return_batch-AreKept value b c h = ground arith

open_completions-AreKept : (numbers : List ℕ) → AreKept (open_completions numbers)
unfolding AreKept open_completions
open_completions-AreKept (fd ∷ head ∷ tail ∷ mask ∷ []) b c h = ground arith
open_completions-AreKept [] b c h = absurd (ground arith)
open_completions-AreKept (_ ∷ []) b c h = absurd (ground arith)
open_completions-AreKept (_ ∷ _ ∷ []) b c h = absurd (ground arith)
open_completions-AreKept (_ ∷ _ ∷ _ ∷ []) b c h = absurd (ground arith)
open_completions-AreKept (_ ∷ _ ∷ _ ∷ _ ∷ _ ∷ _) b c h = absurd (ground arith)

add_completion-AreKept : (values : List ℤ) → AreKept (add_completion values)
unfolding AreKept add_completion
add_completion-AreKept (uid ∷ value ∷ flags ∷ []) b c h = ground arith
add_completion-AreKept [] b c h = absurd (ground arith)
add_completion-AreKept (_ ∷ []) b c h = absurd (ground arith)
add_completion-AreKept (_ ∷ _ ∷ []) b c h = absurd (ground arith)
add_completion-AreKept (_ ∷ _ ∷ _ ∷ _ ∷ _) b c h = absurd (ground arith)

in_batch-Inspected :
    (e : Error) (step : Batch → Result Error Batch) (s t : Inspecting)
    → AreKept step
    → in_batch e step s ≡ ok t
    → Inspected s
    → Inspected t
unfolding in_batch AreKept
in_batch-Inspected e step s t k h i = elim (Option-cases s.batch) [
  | inl p ↦ absurd (err≢ok (rw (p, in_batch) at h))
  | inr (b, p) ↦ elim (Result-cases (step b)) [
    | inl (x, q) ↦ absurd (err≢ok (rw (p, q, in_batch) at h))
    | inr (c, q) ↦ subst Inspected (ok_injective refl (rw (p, q, in_batch) at h)) (record {
      open_batch_kept = λ d g.
          subst (IsOpen s.last_tail) (some_injective g)
            (IsOpen-Kept s.last_tail b c (k b c q) (i.open_batch_kept b p));
      full = i.full;
      contiguous = i.contiguous;
      tails = i.tails;
    })
  ]
]

-- what the tests of a new batch let through
opened :
    (setups : Setups) (position fd head tail mask : ℕ) (s t : Inspecting)
    → s.batch ≡ none
    → open_batch setups position fd head tail mask s ≡ ok t
    → (0 < distance head tail)
      × (distance head tail ≤ 256)
      × (follows fd head s.last_tail ≡ true)
      × (record s {
        batch = some (record {
          fd = fd;
          head = head;
          tail = tail;
          count = distance head tail;
          sq = [];
          cq = [];
          submitter = s.submitter;
          returned = none;
          cq_window = false;
        });
        submitter = none;
      }
          ≡ t)
unfolding open_batch
opened setups position fd head tail mask s t p h =
    elim (Result-cases (check_setup setups fd position)) [
      | inl (e, q) ↦ absurd (ground arith)
      | inr (_, q) ↦ (ground arith, ground arith, ground arith, ground arith)
    ]

open_batch-Inspected :
    (setups : Setups) (position fd head tail mask : ℕ) (s t : Inspecting)
    → open_batch setups position fd head tail mask s ≡ ok t
    → Inspected s
    → Inspected t
unfolding open_batch
open_batch-Inspected setups position fd head tail mask s t h i = elim (Option-cases s.batch) [
  | inr (b, p) ↦ absurd (err≢ok (rw (p, open_batch) at h))
  | inl p ↦
      let (window, bounds, kept, same) = opened setups position fd head tail mask s t p h in
      subst Inspected same (record {
        open_batch_kept = λ d g. subst (IsOpen s.last_tail) (some_injective g) (record {
          distinct = tt;
          counted = refl;
          some_place = window;
          within_ring = bounds;
          continues = kept;
        });
        full = i.full;
        contiguous = i.contiguous;
        tails = i.tails;
      })
]

last_report : (s : Inspecting) (b : Batch) → Report
last_report s b = record {
  submitter = b.submitter;
  ring_fd = b.fd;
  sq_head = b.head;
  sq_tail = b.tail;
  operations = operations_of b.sq b.cq;
}

head_follows :
    (fd head tail : ℕ) (tails : Dict ℕ ℕ)
    → follows fd head tails ≡ true
    → get fd tails ≡ some tail
    → head ≡ tail
head_follows fd head tail tails f g = (nat_beq_iff head tail).0 (rw (g, follows) at f)

end_batch-Inspected :
    (b : Batch) (s t : Inspecting)
    → s.batch ≡ some b
    → end_batch b s ≡ ok t
    → Inspected s
    → Inspected t
unfolding end_batch last_report
end_batch-Inspected b s t p h i =
    let o = i.open_batch_kept b p in
    let r = last_report s b in
    let ended : Inspecting = record s {
      result = s.result ++ r ∷ [];
      last_tail = put b.fd b.tail s.last_tail;
      batch = none;
    } in
    let same : ended ≡ t = ground arith in
    let here_all : (length b.sq == b.count) ≡ true = ground arith in
    let answered : all (λ (entry : ℤ × Entry). has entry.0 b.cq) b.sq ≡ true = ground arith in
    let number = (nat_beq_iff (length b.sq) b.count).0 here_all in
    let as_many = length-operations_of b.cq b.sq answered in
    let report_full : IsFull r = record {
      as_many = as_many ∙ (number ∙ o.counted);
      some_place = subst (λ n. 0 < n) o.counted o.some_place;
      within_ring = subst (λ n. n ≤ 256) o.counted o.within_ring;
      different = operations_of-IsUnique b.cq b.sq o.distinct;
    } in
    subst Inspected same (record {
      open_batch_kept = λ d g. absurd (none≢some g);
      full = All-append IsFull s.result (r ∷ []) i.full (report_full, tt);
      contiguous =
          IsContiguous-append s.result [] r i.contiguous
            (λ tail g. head_follows b.fd b.head tail s.last_tail o.continues (i.tails b.fd ∙ g));
      tails = λ fd. elim (Bool-cases (b.fd == fd)) [
        | inl q ↦ rw (get-put b.fd fd b.tail s.last_tail, last_of-append fd s.result r, q) refl
        | inr q ↦
            rw (get-put b.fd fd b.tail s.last_tail, last_of-append fd s.result r, q) (i.tails fd)
      ];
    })

inspect_line-Inspected :
    (setups : Setups) (position : ℕ) (line : Line) (s t : Inspecting)
    → inspect_line setups position line s ≡ ok t
    → Inspected s
    → Inspected t
unfolding inspect_line AreKept
inspect_line-Inspected setups position (Line.submitter_line (pid ∷ tid ∷ [])) s t h i =
    subst Inspected (ok_injective refl h) (record {
      open_batch_kept = i.open_batch_kept;
      full = i.full;
      contiguous = i.contiguous;
      tails = i.tails;
    })
inspect_line-Inspected setups position (Line.submitter_line []) s t h i = absurd (err≢ok h)
inspect_line-Inspected setups position (Line.submitter_line (_ ∷ [])) s t h i = absurd (err≢ok h)
inspect_line-Inspected setups position (Line.submitter_line (_ ∷ _ ∷ _ ∷ _)) s t h i =
    absurd (err≢ok h)
inspect_line-Inspected setups position (Line.batch_line (fd ∷ head ∷ tail ∷ mask ∷ [])) s t h i =
    open_batch-Inspected setups position fd head tail mask s t h i
inspect_line-Inspected setups position (Line.batch_line []) s t h i = absurd (ground arith)
inspect_line-Inspected setups position (Line.batch_line (_ ∷ [])) s t h i = absurd (ground arith)
inspect_line-Inspected setups position (Line.batch_line (_ ∷ _ ∷ [])) s t h i =
    absurd (ground arith)
inspect_line-Inspected setups position (Line.batch_line (_ ∷ _ ∷ _ ∷ [])) s t h i =
    absurd (ground arith)
inspect_line-Inspected setups position (Line.batch_line (_ ∷ _ ∷ _ ∷ _ ∷ _ ∷ _)) s t h i =
    absurd (ground arith)
inspect_line-Inspected setups position (Line.sqe_line values) s t h i =
    in_batch-Inspected Error.outside_submission (add_entry values) s t (add_entry-AreKept values) h
      i
inspect_line-Inspected setups position (Line.return_line value) s t h i =
    in_batch-Inspected Error.outside_return (return_batch value) s t (return_batch-AreKept value) h
      i
inspect_line-Inspected setups position (Line.completions_line numbers) s t h i =
    in_batch-Inspected Error.outside_completion (open_completions numbers) s t
      (open_completions-AreKept numbers) h i
inspect_line-Inspected setups position (Line.cqe_line values) s t h i =
    in_batch-Inspected Error.early_completion (add_completion values) s t
      (add_completion-AreKept values) h i
inspect_line-Inspected setups position Line.batch_end s t h i = elim (Option-cases s.batch) [
  | inl p ↦ absurd (err≢ok (rw (p, inspect_line) at h))
  | inr (b, p) ↦ end_batch-Inspected b s t p (rw (p, inspect_line) at h) i
]
inspect_line-Inspected setups position Line.unrelated s t h i =
    subst Inspected (ok_injective refl h) i

inspect_lines-Inspected :
    (setups : Setups) (lines : List (ℕ × Line)) (s t : Inspecting)
    → inspect_lines setups lines s ≡ ok t
    → Inspected s
    → Inspected t
unfolding inspect_lines
inspect_lines-Inspected setups [] s t h i = subst Inspected (ok_injective refl h) i
inspect_lines-Inspected setups ((position, line) ∷ lines) s t h i =
    elim (Result-cases (inspect_line setups position line s)) [
      | inl (e, p) ↦ absurd (err≢ok (rw (p, inspect_lines) at h))
      | inr (next, p) ↦
          inspect_lines-Inspected setups lines next t (rw (p, inspect_lines) at h)
            (inspect_line-Inspected setups position line s next p i)
    ]

no_batches-Inspected : Inspected no_batches
unfolding get
no_batches-Inspected = record {
  open_batch_kept = λ b g. absurd (none≢some g);
  full = tt;
  contiguous = tt;
  tails = λ fd. refl;
}

-- If `inspect` accepts a log, with or without setups, each of its batches has as many operations as
-- its window of submissions has places, which are some and at most 256, no two of them with the same
-- user data, and each batch begins where the one before it on its ring ended. Which place of the
-- ring an operation names is no part of this.
pub inspect-IsContiguous :
    (setups : Setups) (lines : List (ℕ × Line)) (reports : List Report)
    → inspect setups lines ≡ ok reports
    → All IsFull reports × IsContiguous [] reports
unfolding inspect
inspect-IsContiguous setups lines reports h =
    elim (Result-cases (inspect_lines setups lines no_batches)) [
      | inl (e, p) ↦ absurd (err≢ok (rw (p, inspect) at h))
      | inr (s, p) ↦
          let i = inspect_lines-Inspected setups lines no_batches s p no_batches-Inspected in
          let same : s.result ≡ reports = ground arith in
          subst (λ l. All IsFull l × IsContiguous [] l) same (i.full, i.contiguous)
    ]
