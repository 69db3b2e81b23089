-- ===== src/Sockets/Unclosed.antt =====
-- What the closes and the entries of native_socket_lifetimes.py keep, and what a link of `link_lines`
-- goes to.
use causpan.Prelude.{
  ℕ, ◌+◌, ◌<◌, ◌≤◌, ◌≡◌, ◌⊎◌, refl, sym, ◌∙◌, ap, inl, inr, subst, ℤ, pos, none, some, none≢some,
  some_injective, List, [], ◌∷◌, ◌++◌, append_assoc, append-nil, get, put, remove, get-put,
  get-remove, All, All-append, All_map, Bool, false, ◌==◌, nat_eq, pair_eq, int_eq, ◌||◌,
  Bool-cases, Option-cases, arith, if◌then◌else◌,
}
use mathlib.Core.Bool.{true≢false}
use causpan.Sockets.{
  Links, Line, last_close, install, install_step, close_step, refer, link_line, link_from, no_links,
  is_settled, link_lines,
}
use causpan.Sockets.Spans.{
  Span, Opened, closed_by, opened_after, closes_of, IsEarlier, IsSeparate, IsUnclosed, IsReferred,
  Holds, IsActive-next, IsReferred-next, Holds-next,
}
use causpan.Sockets.Installs.{install_step-Holds}

-- a close that starts
unfoldable pub begun_at : ℕ → ℕ → ℤ → Links → Links
begun_at number thread value s = record s {
  closing = put thread (value, number) s.closing;
  last_close_start = put value number s.last_close_start;
  active = remove value s.active;
}

pub last_close-begun_at :
    (number thread : ℕ) (value v : ℤ) (s : Links)
    → last_close v (begun_at number thread value s)
      ≡ (if value == v then number else last_close v s)
unfolding last_close begun_at
last_close-begun_at number thread value v s =
    ground (arith, get-put value v number s.last_close_start)

pub get-begun :
    (number thread t : ℕ) (value : ℤ) (b : ℤ × ℕ) (opened : Opened)
    → get t (put thread (value, number) opened) ≡ some b
    → ((b.0 ≡ value) × (b.1 ≡ number)) ⊎ (get t opened ≡ some b)
get-begun number thread t value b opened p = elim (Bool-cases (thread == t)) [
  | inl same ↦
      let e : (value, number) ≡ b =
        some_injective (ground (arith, p, get-put thread t (value, number) opened)) in
      inl (ap (λ (z : ℤ × ℕ). z.0) (sym e), ap (λ (z : ℤ × ℕ). z.1) (sym e))
  | inr other ↦ inr (ground (arith, p, get-put thread t (value, number) opened))
]

the_last :
    (number thread : ℕ) (value v : ℤ) (n : ℕ) (s : Links)
    → last_close v s < number
    → n ≤ last_close v s
    → n ≤ last_close v (begun_at number thread value s)
the_last number thread value v n s b le =
    ground (arith, last_close-begun_at number thread value v s)

pub begun_at-Holds :
    (number thread : ℕ) (value : ℤ) (closes : List Span) (s : Links)
    → Holds number closes s
    → Holds (number + 1) closes (begun_at number thread value s)
unfolding begun_at
begun_at-Holds number thread value closes s h =
    let last = λ (v : ℤ). last_close-begun_at number thread value v s in
    let grows = λ (v : ℤ) (n : ℕ) (le : n ≤ last_close v s).
      the_last number thread value v n s (h.bounded v) le in
    record {
      active = λ v i g.
          let found : get v s.active ≡ some i = ground (arith, g, get-remove value v s.active) in
          let other : (value == v) ≡ false = ground (arith, g, get-remove value v s.active) in
          let a = h.active v i found in
          record {
            fd = a.fd;
            returned = omega (arith, a.returned);
            free = λ t b p. elim (get-begun number thread t value b s.closing p) [
              | inl (e, _) ↦
                  λ q. absurd (true≢false (sym ((int_eq.same_iff value v).1 (sym e ∙ q)) ∙ other))
              | inr old ↦ a.free t b old
            ];
            earlier = a.earlier;
          };
      latest = All_map _ _ closes (λ c k. (grows c.fd c.starts k.0, omega (arith, k.1))) h.latest;
      opened = λ t b p. elim (get-begun number thread t value b s.closing p) [
        | inl (e, n) ↦ ground (arith, last b.0, int_eq.same_iff value b.0)
        | inr old ↦ grows b.0 b.1 (h.opened t b old)
      ];
      bounded = λ v. ground (arith, last v, h.bounded v);
      references =
          All_map (IsReferred number closes s.closing) _ s.references
            (λ r k. record {
              unclosed = k.unclosed;
              past = omega (arith, k.past);
              later = λ i e t b p q. elim (get-begun number thread t value b s.closing p) [
                | inl (_, n) ↦ omega (arith, n, k.past)
                | inr old ↦ k.later i e t b old q
              ];
            })
            h.references;
    }

-- a close that returns
unfoldable pub returned_at : ℕ → Links → Links
returned_at thread s = record s { closing = remove thread s.closing }

pub still_open :
    (thread t : ℕ) (b : ℤ × ℕ) (opened : Opened)
    → get t (remove thread opened) ≡ some b
    → get t opened ≡ some b
still_open thread t b opened g = ground (arith, get-remove thread t opened, g)

pub returned_at-Holds :
    (number thread : ℕ) (begun : ℤ × ℕ) (closes : List Span) (s : Links)
    → get thread s.closing ≡ some begun
    → Holds number closes s
    → Holds
        (number + 1)
        (closes ++ record { fd = begun.0; starts = begun.1; ends = number } ∷ [])
        (returned_at thread s)
unfolding returned_at last_close
returned_at-Holds number thread begun closes s p h =
    let c : Span = record { fd = begun.0; starts = begun.1; ends = number } in
    let kept = λ (t : ℕ) (b : ℤ × ℕ) (g : get t (remove thread s.closing) ≡ some b).
      still_open thread t b s.closing g in
    record {
      active = λ v i g.
          let a = h.active v i g in
          record {
            fd = a.fd;
            returned = omega (arith, a.returned);
            free = λ t b q. a.free t b (kept t b q);
            earlier =
                All-append (IsEarlier i) closes (c ∷ []) a.earlier
                  (λ e. absurd (a.free thread begun p (e ∙ a.fd)), tt);
          };
      latest =
          All-append _ closes (c ∷ [])
            (All_map (λ (c : Span). (c.starts ≤ last_close c.fd s) × (c.ends < number)) _ closes
              (λ c k. (k.0, omega (arith, k.1))) h.latest)
            ((h.opened thread begun p, omega arith), tt);
      opened = λ t b q. h.opened t b (kept t b q);
      bounded = λ v. omega (arith, h.bounded v);
      references =
          All_map (IsReferred number closes s.closing) _ s.references
            (λ r k. record {
              unclosed = λ i e.
                  let (fd, returned, separate) = k.unclosed i e in
                  (
                    fd,
                    returned,
                    All-append (IsSeparate r.line i) closes (c ∷ []) separate
                        (λ q. inr (k.later i e thread begun p q), tt),
                  );
              past = omega (arith, k.past);
              later = λ i e t b q. k.later i e t b (kept t b q);
            })
            h.references;
    }

pub close_step-Holds :
    (number thread : ℕ) (value : ℤ) (closes : List Span) (s : Links)
    → Holds number closes s
    → Holds
        (number + 1)
        (closes ++ closed_by number s.closing (Line.close_stop thread value))
        (close_step number thread value s)
      × ((close_step number thread value s).closing
          ≡ opened_after number s.closing (Line.close_stop thread value))
unfolding close_step closed_by opened_after begun_at returned_at
close_step-Holds number thread value closes s h = elim (Option-cases (get thread s.closing)) [
  | inl k ↦
      rw (k, close_step, closed_by, opened_after, append-nil closes)
        (begun_at-Holds number thread value closes s h, refl)
  | inr (begun, k) ↦
      rw (k, close_step, closed_by, opened_after)
        (returned_at-Holds number thread begun closes s k h, refl)
]

pub refer-Holds :
    (number target : ℕ) (closes : List Span) (s : Links)
    → Holds number closes s
    → Holds (number + 1) closes (refer number target s)
unfolding refer last_close
refer-Holds number target closes s h = record {
  active = λ v i g. IsActive-next number closes s.closing v i (h.active v i g);
  latest = All_map _ _ closes (λ c k. (k.0, omega (arith, k.1))) h.latest;
  opened = h.opened;
  bounded = λ v. omega (arith, h.bounded v);
  references =
      All-append (IsReferred (number + 1) closes s.closing) s.references _
        (All_map (IsReferred number closes s.closing) (IsReferred (number + 1) closes s.closing)
          s.references (IsReferred-next number closes s.closing) h.references)
        (
          record {
            unclosed = λ i e.
                let a = h.active (pos target) i e in
                (
                  a.fd,
                  a.returned,
                  All_map (IsEarlier i) (IsSeparate number i) closes (λ c k q. inl (k q)) a.earlier,
                );
            past = omega arith;
            later = λ i e t b p q.
                let a = h.active (pos target) i e in absurd (a.free t b p (q ∙ a.fd));
          },
          tt,
        );
}

pub install_step-closing :
    (number thread syscall : ℕ) (value : ℤ) (s t : Links)
    → install_step number thread syscall value s ≡ some t
    → t.closing ≡ s.closing
unfolding install_step install
install_step-closing number thread syscall value s t p = ground arith

pub unchanged-Holds :
    (number : ℕ) (closes : List Span) (s : Links)
    → Holds number closes s
    → Holds (number + 1) closes s
unchanged-Holds number closes s h =
    Holds-next number closes s s.installing s.active s.installations h
      (λ v i g. IsActive-next number closes s.closing v i (h.active v i g))

pub link_line-Holds :
    (include_controls : Bool) (number : ℕ) (line : Line) (closes : List Span) (s t : Links)
    → link_line include_controls number line s ≡ some t
    → Holds number closes s
    → Holds (number + 1) (closes ++ closed_by number s.closing line) t
      × (t.closing ≡ opened_after number s.closing line)
unfolding link_line closed_by opened_after refer
link_line-Holds include_controls number (Line.close_stop thread value) closes s t p h =
    subst
      (λ z.
        Holds (number + 1) (closes ++ closed_by number s.closing (Line.close_stop thread value)) z
        × (z.closing ≡ opened_after number s.closing (Line.close_stop thread value)))
      (some_injective p) (close_step-Holds number thread value closes s h)
link_line-Holds include_controls number (Line.install_stop is_socket thread syscall value) closes s
      t p h =
    elim (Bool-cases (include_controls || is_socket)) [
      | inl k ↦
          let q : install_step number thread syscall value s ≡ some t = rw (k, link_line) at p in
          (
            rw (append-nil closes) (install_step-Holds number thread syscall value closes s t h q),
            install_step-closing number thread syscall value s t q,
          )
      | inr k ↦
          subst (λ z. Holds (number + 1) (closes ++ []) z × (z.closing ≡ s.closing))
            (some_injective (rw (k, link_line) at p))
            (rw (append-nil closes) (unchanged-Holds number closes s h), refl)
    ]
link_line-Holds include_controls number (Line.entry none) closes s t p h = absurd (none≢some p)
link_line-Holds include_controls number (Line.entry (some target)) closes s t p h =
    subst (λ z. Holds (number + 1) (closes ++ []) z × (z.closing ≡ s.closing)) (some_injective p)
      (rw (append-nil closes) (refer-Holds number target closes s h), refl)
link_line-Holds include_controls number Line.unrelated closes s t p h =
    subst (λ z. Holds (number + 1) (closes ++ []) z × (z.closing ≡ s.closing)) (some_injective p)
      (rw (append-nil closes) (unchanged-Holds number closes s h), refl)

pub link_from-IsUnclosed :
    (lines : List Line) (include_controls : Bool) (number : ℕ) (closes : List Span) (s t : Links)
    → link_from include_controls number lines s ≡ some t
    → Holds number closes s
    → All (IsUnclosed (closes ++ closes_of number s.closing lines)) t.references
unfolding link_from closes_of
link_from-IsUnclosed [] include_controls number closes s t p h =
    subst (λ z. All (IsUnclosed (closes ++ [])) z.references) (some_injective p)
      (rw (append-nil closes) (
        All_map (IsReferred number closes s.closing) (IsUnclosed closes) s.references
          (λ r k. k.unclosed) h.references))
link_from-IsUnclosed (line ∷ lines) include_controls number closes s t p h =
    elim (Option-cases (link_line include_controls number line s)) [
      | inl k ↦ absurd (none≢some (rw (k, link_from) at p))
      | inr (next, k) ↦
          let (held, opened) = link_line-Holds include_controls number line closes s next k h in
          let more =
            link_from-IsUnclosed lines include_controls (number + 1)
              (closes ++ closed_by number s.closing line) next t (rw (k, link_from) at p) held in
          subst (λ l. All (IsUnclosed l) t.references)
            (append_assoc closes (closed_by number s.closing line)
              (closes_of (number + 1) (opened_after number s.closing line) lines))
            (subst
              (λ o.
                All
                  (IsUnclosed
                    ((closes ++ closed_by number s.closing line) ++ closes_of (number + 1) o lines))
                  t.references)
              opened more)
    ]

pub link_lines-IsUnclosed :
    (include_controls : Bool) (lines : List Line) (s : Links)
    → link_lines include_controls lines ≡ some s
    → All (IsUnclosed (closes_of 1 [] lines)) s.references
unfolding link_lines get last_close
link_lines-IsUnclosed include_controls lines s p =
    elim (Option-cases (link_from include_controls 1 lines no_links)) [
      | inl k ↦ absurd (none≢some (rw (k, link_lines) at p))
      | inr (t, k) ↦
          let start : Holds 1 [] no_links = record {
            active = λ v i g. absurd (none≢some g);
            latest = tt;
            opened = λ t b g. absurd (none≢some g);
            bounded = λ v. omega arith;
            references = tt;
          } in
          let unclosed = link_from-IsUnclosed lines include_controls 1 [] no_links t k start in
          elim (Bool-cases (is_settled t)) [
            | inl o ↦
                subst (λ z. All (IsUnclosed (closes_of 1 [] lines)) z.references)
                  (some_injective (rw (k, o, link_lines) at p)) unclosed
            | inr o ↦ absurd (none≢some (rw (k, o, link_lines) at p))
          ]
    ]
