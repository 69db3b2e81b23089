-- ===== src/Closes/Epochs.antt =====
-- What the epochs of native_close_epochs.py count.
use causpan.Prelude.{
  ℕ, ◌+◌, ◌≡◌, ◌≤◌, refl, sym, ap, inl, inr, subst, ℤ, pos, int_eq, none, some, none≢some,
  some_injective, List, [], ◌∷◌, ◌++◌, Dict, get, put, get-put, ◌&&◌, ◌==◌, nat_eq, ltb, All,
  All-append, All_map, Option-cases, arith, if◌then◌else◌,
}
use causpan.Closes.{
  Line, Reference, Close, Closing, epoch, stop, refer, read_line, read_lines, no_closes, Report,
  report,
}

-- how many closes of a descriptor succeeded before a line
abbrev pub closed_before : ℕ → ℤ → List Close → ℕ
closed_before line fd [] = 0
closed_before line fd (c ∷ cs) =
    (if ltb c.return_line line && (c.fd == fd && c.result == pos 0) then 1 else 0)
    + closed_before line fd cs

closed_before-append :
    (line : ℕ) (fd : ℤ) (cs : List Close) (c : Close)
    → closed_before line fd (cs ++ c ∷ [])
      ≡ closed_before line fd cs + closed_before line fd (c ∷ [])
closed_before-append line fd [] c = omega arith
closed_before-append line fd (d ∷ cs) c = ground (arith, closed_before-append line fd cs c)

-- The epoch of a reference is the number of the closes before it.
abbrev pub IsCounted : List Close → Reference → Type 0
IsCounted cs r = r.close_epoch ≡ closed_before r.line (pos r.target_fd) cs

abbrev IsBefore : ℕ → List Close → Reference → Type 0
IsBefore number cs r = IsCounted cs r × (r.line + 1 ≤ number)

-- what holds before the line of a number
record Counts (number : ℕ) (s : Closing) : Type 0 where
  epochs_count : (n : ℕ) (fd : ℤ) → number ≤ n → epoch fd s.epochs ≡ closed_before n fd s.closes
  references_count : All (IsBefore number s.closes) s.references

IsBefore-append :
    (number : ℕ) (cs : List Close) (c : Close) (r : Reference)
    → c.return_line ≡ number
    → IsBefore number cs r
    → IsBefore (number + 1) (cs ++ c ∷ []) r
IsBefore-append number cs c r p h =
    ground (arith, closed_before-append r.line (pos r.target_fd) cs c)

epoch-put :
    (fd g : ℤ) (n : ℕ) (d : Dict ℤ ℕ) → epoch g (put fd n d) ≡ (if fd == g then n else epoch g d)
unfolding epoch
epoch-put fd g n d = ground (arith, get-put fd g n d)

later :
    (number : ℕ) (s t : Closing)
    → Counts number s
    → t.epochs ≡ s.epochs
    → t.closes ≡ s.closes
    → t.references ≡ s.references
    → Counts (number + 1) t
later number s t h p q r = record {
  epochs_count = λ n fd l. ground (arith, h.epochs_count n fd);
  references_count =
      rw (q, r)
        (All_map (IsBefore number s.closes) (IsBefore (number + 1) s.closes) s.references
          (λ a k. (k.0, omega arith)) h.references_count);
}

closed :
    (number : ℕ) (s t : Closing) (c : Close)
    → Counts number s
    → c.return_line ≡ number
    → t.epochs
      ≡ (if c.result == pos 0 then put c.fd (epoch c.fd s.epochs + 1) s.epochs else s.epochs)
    → t.closes ≡ s.closes ++ c ∷ []
    → t.references ≡ s.references
    → Counts (number + 1) t
closed number s t c h line p q r = record {
  epochs_count = λ n fd l. ground (
    arith,
    h.epochs_count n fd,
    h.epochs_count n c.fd,
    int_eq.same_iff c.fd fd,
    closed_before-append n fd s.closes c,
    epoch-put c.fd fd (epoch c.fd s.epochs + 1) s.epochs,
  );
  references_count =
      rw (q, r)
        (All_map (IsBefore number s.closes) (IsBefore (number + 1) (s.closes ++ c ∷ []))
          s.references (λ a k. IsBefore-append number s.closes c a line k) h.references_count);
}

stop-Counts :
    (number thread : ℕ) (value : ℤ) (s : Closing)
    → Counts number s
    → Counts (number + 1) (stop number thread value s)
unfolding stop
stop-Counts number thread value s h = elim (Option-cases (get thread s.pending)) [
  | inl p ↦
      later number s (stop number thread value s) h (rw (p, stop) refl) (rw (p, stop) refl)
        (rw (p, stop) refl)
  | inr ((fd, start), p) ↦
      closed number s (stop number thread value s)
        (record { fd = fd; result = value; entry_line = start; return_line = number }) h refl
        (rw (p, stop) refl) (rw (p, stop) refl) (rw (p, stop) refl)
]

refer-Counts :
    (number fd control : ℕ) (s : Closing)
    → Counts number s
    → Counts (number + 1) (refer number fd control s)
unfolding refer
refer-Counts number fd control s h = record {
  epochs_count = λ n g l. h.epochs_count n g (omega arith);
  references_count =
      All-append (IsBefore (number + 1) s.closes) s.references _
        (All_map (IsBefore number s.closes) (IsBefore (number + 1) s.closes) s.references
          (λ a k. (k.0, omega arith)) h.references_count)
        ((h.epochs_count number (pos fd) (omega arith), omega arith), tt);
}

read_line-Counts :
    (number : ℕ) (line : Line) (s t : Closing)
    → read_line number line s ≡ some t
    → Counts number s
    → Counts (number + 1) t
unfolding read_line
read_line-Counts number (Line.close_stop thread value) s t p h =
    subst (Counts (number + 1)) (some_injective p) (stop-Counts number thread value s h)
read_line-Counts number (Line.sqe none) s t p h = absurd (none≢some p)
read_line-Counts number (Line.sqe (some (fd, control))) s t p h =
    subst (Counts (number + 1)) (some_injective p) (refer-Counts number fd control s h)
read_line-Counts number Line.other s t p h =
    later number s t h (ap (λ a. a.epochs) (sym (some_injective p)))
      (ap (λ a. a.closes) (sym (some_injective p)))
      (ap (λ a. a.references) (sym (some_injective p)))

read_lines-Counts :
    (number : ℕ) (lines : List Line) (s t : Closing)
    → read_lines number lines s ≡ some t
    → Counts number s
    → All (IsCounted t.closes) t.references
unfolding read_lines
read_lines-Counts number [] s t p h =
    subst (λ a. All (IsCounted a.closes) a.references) (some_injective p)
      (All_map (IsBefore number s.closes) (IsCounted s.closes) s.references (λ r k. k.0)
        h.references_count)
read_lines-Counts number (line ∷ lines) s t p h = elim (Option-cases (read_line number line s)) [
  | inl q ↦ absurd (none≢some (rw (q, read_lines) at p))
  | inr (a, q) ↦
      read_lines-Counts (number + 1) lines a t (rw (q, read_lines) at p)
        (read_line-Counts number line s a q h)
]

epoch-none : (fd : ℤ) → epoch fd [] ≡ 0
unfolding epoch get
epoch-none fd = refl

-- In a report, the epoch of each reference is the number of the closes of its target that succeeded
-- and returned on an earlier line.
pub report-IsCounted :
    (lines : List Line) (r : Report) → report lines ≡ some r → All (IsCounted r.closes) r.references
unfolding report
report-IsCounted lines r p = elim (Option-cases (read_lines 1 lines no_closes)) [
  | inl q ↦ absurd (none≢some (rw (q, report) at p))
  | inr (s, q) ↦
      let counted =
        read_lines-Counts 1 lines no_closes s q
          (record { epochs_count = λ n fd l. epoch-none fd; references_count = tt }) in
      ground (arith, counted)
]
