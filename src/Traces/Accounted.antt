-- ===== src/Traces/Accounted.antt =====
-- Every line of a trace is counted by `parse_traces` of analyze.py, or an event.
use causpan.Prelude.{
  ℕ, suc, ◌+◌, ◌≤◌, ◌≡◌, refl, ap, inl, inr, Option, none, some, none≢some, some_injective, List,
  [], ◌∷◌, ◌++◌, subst, length, length-append, leb, Text, codes, contains, starts_with, Bool-cases,
  Option-cases, arith,
}
use causpan.Attribution.Types.{Event}
use causpan.Traces.{
  Matchers, Quality, Pending, Reading, text_after, event_of, is_lifecycle_line, ends_thread,
  interrupt, read_body, resume, read_line, read_lines, end_file, read_files, nothing_read,
  insert_event, sort_events, Parents, parents_from, tgid, with_pids, parse_traces,
}

abbrev pub waiting : Option Pending → ℕ
waiting none = 0
waiting (some _) = 1

-- The counts of `lines` lines.
pub record Counts (lines : ℕ) (r : Reading) : Type 0 where
  pub counted :
      r.quality.non_timestamp_lines
        + r.quality.unfinished
        + r.quality.orphan_resumed
        + r.quality.lifecycle_lines
        + r.quality.unparsed
        + length r.events
      ≡ lines
  pub closed :
      r.quality.rejoined
        + r.quality.terminal_interrupted
        + r.quality.incomplete_at_eof
        + waiting r.pending
      ≤ r.quality.unfinished

module _ (match : Matchers) (tid : ℕ) where
  interrupt-Counts :
      (body : Text) (n : ℕ) (r : Reading) → Counts n r → Counts n (interrupt match body r)
  unfolding interrupt
  interrupt-Counts body n r c = elim (Option-cases r.pending) [
    | inl p ↦ rw (p, interrupt) c
    | inr (x, p) ↦ elim (Bool-cases (ends_thread match body)) [
      | inl e ↦
          let one : waiting r.pending ≡ 1 = ap (λ o. waiting o) p in
          rw (p, e, interrupt)
            (record { counted = omega (arith, c.counted); closed = omega (arith, c.closed, one) })
      | inr e ↦ simp (p, e, interrupt) c
    ]
  ]

  read_body-Counts :
      (ns line_no : ℕ) (body : Text) (n : ℕ) (r : Reading)
      → Counts n r
      → Counts (n + 1) (read_body match tid ns line_no body r)
  unfolding read_body
  read_body-Counts ns line_no body n r c = elim (Bool-cases (is_lifecycle_line match body)) [
    | inl p ↦
        let d = interrupt-Counts body n r c in
        rw (p, read_body)
          (record { counted = omega (arith, d.counted); closed = omega (arith, d.closed) })
    | inr p ↦ elim (Option-cases (match.call body)) [
      | inl q ↦
          rw (p, q, read_body)
            (record { counted = omega (arith, c.counted); closed = omega (arith, c.closed) })
      | inr (g, q) ↦
          rw (p, q, read_body)
            (record {
              counted =
                  omega (
                    arith,
                    c.counted,
                    length-append r.events (event_of match tid ns line_no g ∷ []),
                  );
              closed = omega (arith, c.closed);
            })
    ]
  ]

  resume-Counts :
      (body : Text) (n : ℕ) (r t : Reading)
      → resume match tid body r ≡ some t
      → Counts n r
      → Counts (n + 1) t
  unfolding resume
  resume-Counts body n r t h c = elim (Option-cases r.pending) [
    | inl p ↦
        subst (Counts (n + 1)) (some_injective (rw (p, resume) at h))
          (record { counted = omega (arith, c.counted); closed = omega (arith, c.closed) })
    | inr (x, p) ↦ elim (Option-cases (text_after (codes " resumed>") body)) [
      | inl q ↦ absurd (none≢some (rw (p, q, resume) at h))
      | inr (rest, q) ↦
          let one : waiting r.pending ≡ 1 = ap (λ o. waiting o) p in
          let s : Reading = record r {
            pending = none;
            quality = record r.quality { rejoined = r.quality.rejoined + 1 };
          } in
          let d : Counts n s = record {
            counted = omega (arith, c.counted);
            closed = omega (arith, c.closed, one);
          } in
          subst (Counts (n + 1)) (some_injective (rw (p, q, resume) at h))
            (read_body-Counts x.ns x.line_no (x.prefix ++ rest) n s d)
    ]
  ]

  read_line-Counts :
      (line_no : ℕ) (raw : Text) (n : ℕ) (r t : Reading)
      → read_line match tid line_no raw r ≡ some t
      → Counts n r
      → Counts (n + 1) t
  unfolding read_line
  read_line-Counts line_no raw n r t h c = elim (Option-cases (match.line raw)) [
    | inl p ↦
        subst (Counts (n + 1)) (some_injective (rw (p, read_line) at h))
          (record { counted = omega (arith, c.counted); closed = omega (arith, c.closed) })
    | inr ((ns, body), p) ↦ elim (Bool-cases (contains (codes "<unfinished ...>") body)) [
      | inl q ↦
          subst (Counts (n + 1)) (some_injective (rw (p, q, read_line) at h))
            (record { counted = omega (arith, c.counted); closed = omega (arith, c.closed) })
      | inr q ↦ elim (Bool-cases (starts_with (codes "<... ") body)) [
        | inl u ↦ resume-Counts body n r t (rw (p, q, u, read_line) at h) c
        | inr u ↦
            subst (Counts (n + 1)) (some_injective (rw (p, q, u, read_line) at h))
              (read_body-Counts ns line_no body n r c)
      ]
    ]
  ]

  read_lines-Counts :
      (lines : List Text) (line_no n : ℕ) (r t : Reading)
      → read_lines match tid line_no lines r ≡ some t
      → Counts n r
      → Counts (n + length lines) t
  unfolding read_lines
  read_lines-Counts [] line_no n r t h c =
      let d = subst (Counts n) (some_injective h) c in
      record { counted = omega (arith, d.counted); closed = omega (arith, d.closed) }
  read_lines-Counts (raw ∷ lines) line_no n r t h c =
      elim (Option-cases (read_line match tid line_no raw r)) [
        | inl p ↦ absurd (none≢some (rw (p, read_lines) at h))
        | inr (next, p) ↦
            let d =
              read_lines-Counts lines (line_no + 1) (n + 1) next t (rw (p, read_lines) at h)
                (read_line-Counts line_no raw n r next p c) in
            record { counted = omega (arith, d.counted); closed = omega (arith, d.closed) }
      ]

abbrev pub line_count : List (ℕ × List Text) → ℕ
line_count [] = 0
line_count ((_, lines) ∷ files) = length lines + line_count files

end_file-Counts :
    (match : Matchers) (n : ℕ) (r : Reading)
    → Counts n r
    → Counts n (record (end_file match r) { pending = none })
unfolding end_file
end_file-Counts match n r c = elim (Option-cases r.pending) [
  | inl p ↦ rw (p, end_file) (record { counted = c.counted; closed = omega (arith, c.closed) })
  | inr (x, p) ↦
      let one : waiting r.pending ≡ 1 = ap (λ o. waiting o) p in
      rw (p, end_file)
        (record { counted = omega (arith, c.counted); closed = omega (arith, c.closed, one) })
]

read_files-Counts :
    (match : Matchers) (files : List (ℕ × List Text)) (n : ℕ) (r t : Reading)
    → read_files match files r ≡ some t
    → Counts n (record r { pending = none })
    → Counts (n + line_count files) (record t { pending = none })
unfolding read_files
read_files-Counts match [] n r t h c =
    let d = subst (λ s. Counts n (record s { pending = none })) (some_injective h) c in
    record { counted = omega (arith, d.counted); closed = omega (arith, d.closed) }
read_files-Counts match ((tid, lines) ∷ files) n r t h c =
    elim (Option-cases (read_lines match tid 1 lines (record r { pending = none }))) [
      | inl p ↦ absurd (none≢some (rw (p, read_files) at h))
      | inr (next, p) ↦
          let d =
            read_files-Counts match files (n + length lines) (end_file match next) t
              (rw (p, read_files) at h)
              (end_file-Counts match (n + length lines) next
                (read_lines-Counts match tid lines 1 n (record r { pending = none }) next p c)) in
          record { counted = omega (arith, d.counted); closed = omega (arith, d.closed) }
    ]

length-insert_event : (e : Event) (es : List Event) → length (insert_event e es) ≡ suc (length es)
unfolding insert_event
length-insert_event e [] = refl
length-insert_event e (x ∷ es) = ground (arith, length-insert_event e es)

length-sort_events : (es : List Event) → length (sort_events es) ≡ length es
unfolding sort_events
length-sort_events [] = refl
length-sort_events (e ∷ es) =
    omega (arith, length-insert_event e (sort_events es), length-sort_events es)

-- The times do not decrease.
abbrev pub IsAfter : ℕ → List Event → Type 0
IsAfter at [] = Unit
IsAfter at (e ∷ es) = (at ≤ e.timestamp_ns) × IsAfter at es

abbrev pub IsInOrder : List Event → Type 0
IsInOrder [] = Unit
IsInOrder (e ∷ es) = IsAfter e.timestamp_ns es × IsInOrder es

IsAfter-less : (a b : ℕ) (es : List Event) → a ≤ b → IsAfter b es → IsAfter a es
IsAfter-less a b [] h o = tt
IsAfter-less a b (e ∷ es) h o = (omega (arith, h, o.0), IsAfter-less a b es h o.1)

insert_event-IsAfter :
    (at : ℕ) (e : Event) (es : List Event)
    → at ≤ e.timestamp_ns
    → IsAfter at es
    → IsAfter at (insert_event e es)
unfolding insert_event
insert_event-IsAfter at e [] h o = (h, tt)
insert_event-IsAfter at e (x ∷ es) h o = elim (Bool-cases (leb e.timestamp_ns x.timestamp_ns)) [
  | inl p ↦ rw p (h, o)
  | inr p ↦ rw p (o.0, insert_event-IsAfter at e es h o.1)
]

insert_event-IsInOrder :
    (e : Event) (es : List Event) → IsInOrder es → IsInOrder (insert_event e es)
unfolding insert_event
insert_event-IsInOrder e [] o = (tt, tt)
insert_event-IsInOrder e (x ∷ es) o = elim (Bool-cases (leb e.timestamp_ns x.timestamp_ns)) [
  | inl p ↦
      let h : e.timestamp_ns ≤ x.timestamp_ns = ground arith in
      rw p ((h, IsAfter-less e.timestamp_ns x.timestamp_ns es h o.0), o)
  | inr p ↦
      let h : x.timestamp_ns ≤ e.timestamp_ns = ground arith in
      rw p (insert_event-IsAfter x.timestamp_ns e es h o.0, insert_event-IsInOrder e es o.1)
]

sort_events-IsInOrder : (es : List Event) → IsInOrder (sort_events es)
unfolding sort_events
sort_events-IsInOrder [] = tt
sort_events-IsInOrder (e ∷ es) =
    insert_event-IsInOrder e (sort_events es) (sort_events-IsInOrder es)

-- `with_pids` keeps the number and the times.
with_pids-keeps :
    (parents : Parents) (es out : List Event)
    → with_pids parents es ≡ some out
    → (length out ≡ length es)
      × ((at : ℕ) → IsAfter at es → IsAfter at out)
      × (IsInOrder es → IsInOrder out)
unfolding with_pids
with_pids-keeps parents [] out h =
    subst
      (λ l.
        (length l ≡ 0) × ((at : ℕ) → IsAfter at [] → IsAfter at l) × (IsInOrder [] → IsInOrder l))
      (some_injective h) (refl, λ at o. o, λ o. o)
with_pids-keeps parents (e ∷ es) out h = elim (Option-cases (tgid parents e.tid)) [
  | inl p ↦ absurd (none≢some (rw (p, with_pids) at h))
  | inr (pid, p) ↦ elim (Option-cases (with_pids parents es)) [
    | inl q ↦ absurd (none≢some (rw (p, q, with_pids) at h))
    | inr (rest, q) ↦
        let (a, b, c) = with_pids-keeps parents es rest q in
        subst
          (λ l.
            (length l ≡ suc (length es))
            × ((at : ℕ) → IsAfter at (e ∷ es) → IsAfter at l)
            × (IsInOrder (e ∷ es) → IsInOrder l))
          (some_injective (rw (p, q, with_pids) at h))
          (ap (λ n. suc n) a, λ at o. (o.0, b at o.1), λ o. (b e.timestamp_ns o.0, c o.1))
  ]
]

-- What a trace that is read says.
pub record Accounted (files : List (ℕ × List Text)) (events : List Event) (q : Quality)
    : Type 0 where
  pub counted :
      q.non_timestamp_lines
        + q.unfinished
        + q.orphan_resumed
        + q.lifecycle_lines
        + q.unparsed
        + length events
      ≡ line_count files
  pub closed : q.rejoined + q.terminal_interrupted + q.incomplete_at_eof ≤ q.unfinished
  pub in_order : IsInOrder events

nothing-Counts : Counts 0 (record nothing_read { pending = none })
nothing-Counts = record { counted = refl; closed = omega arith }

-- For any matching of lines and calls, if `parse_traces` reads the files, each line is an event or
-- is counted once, as a line without a time, unfinished, resumed without a call before it, of the
-- life of a thread, or unparsed; no more calls are joined again, interrupted by the end of a thread
-- or left at the end of a file than are unfinished; and the events are in the order of their times.
pub parse_traces-Accounted :
    (match : Matchers) (files : List (ℕ × List Text)) (events : List Event) (q : Quality)
    → parse_traces match files ≡ some (events, q)
    → Accounted files events q
unfolding parse_traces
parse_traces-Accounted match files events q h =
    elim (Option-cases (read_files match files nothing_read)) [
      | inl p ↦ absurd (none≢some (rw (p, parse_traces) at h))
      | inr (r, p) ↦
          let inside = sort_events r.events in
          elim (Option-cases (with_pids (parents_from inside []) inside)) [
            | inl w ↦ absurd (none≢some (rw (p, w, parse_traces) at h))
            | inr (out, w) ↦
                let same = some_injective (rw (p, w, parse_traces) at h) in
                let c = read_files-Counts match files 0 nothing_read r p nothing-Counts in
                let (a, _, o) = with_pids-keeps (parents_from inside []) inside out w in
                subst (λ (z : List Event × Quality). Accounted files z.0 z.1) same
                  (record {
                    counted = omega (arith, c.counted, a, length-sort_events r.events);
                    closed = omega (arith, c.closed);
                    in_order = o (sort_events-IsInOrder r.events);
                  })
          ]
    ]
