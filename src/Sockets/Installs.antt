-- ===== src/Sockets/Installs.antt =====
-- What the installations of native_socket_lifetimes.py keep.
use causpan.Prelude.{
  ℕ, ◌+◌, ◌<◌, ◌≤◌, ◌≡◌, refl, sym, ◌∙◌, ap, inl, inr, subst, ℤ, pos, some, none≢some,
  some_injective, List, [], ◌∷◌, get, put, remove, get-put, get-remove, All_map, any, false, ◌==◌,
  nat_eq, pair_eq, int_eq, leb_ℤ, Bool-cases, Option-cases, arith,
}
use mathlib.Core.Bool.{true≢false}
use causpan.Sockets.{Installation, Links, kind_of, last_close, overlaps, install, install_step}
use causpan.Sockets.Spans.{
  Span, Opened, IsEarlier, IsFree, IsActive, Holds, IsActive-next, Holds-next,
}

pub any-get :
    (v : ℤ) (opened : Opened) → any (λ item. item.1.0 == v) opened ≡ false → IsFree v opened
unfolding get
any-get v [] h thread b p = absurd (none≢some p)
any-get v ((t, (f, n)) ∷ opened) h thread b p =
    let other_fd : (f == v) ≡ false = ground arith in
    let rest : any (λ item. item.1.0 == v) opened ≡ false = ground arith in
    elim (Bool-cases (t == thread)) [
      | inl same ↦ λ q.
          let e : f ≡ v = ap (λ (z : ℤ × ℕ). z.0) (some_injective (rw same at p)) ∙ q in
          absurd (true≢false (sym ((int_eq.same_iff f v).1 e) ∙ other_fd))
      | inr other ↦ any-get v opened rest thread b (rw other at p)
    ]

pub installed-IsActive :
    (number : ℕ) (closes : List Span) (s : Links) (i : Installation)
    → Holds number closes s
    → overlaps i.fd i.entry_line s ≡ false
    → i.return_line ≡ number
    → IsActive (number + 1) closes s.closing i.fd i
unfolding overlaps
installed-IsActive number closes s i h o r =
    let free : any (λ item. item.1.0 == i.fd) s.closing ≡ false = ground arith in
    let before : last_close i.fd s < i.entry_line = ground arith in
    record {
      fd = refl;
      returned = omega arith;
      free = any-get i.fd s.closing free;
      earlier =
          All_map (λ (c : Span). (c.starts ≤ last_close c.fd s) × (c.ends < number)) (IsEarlier i)
            closes
            (λ c k e.
              let at : c.starts ≤ last_close i.fd s =
                subst (λ v. c.starts ≤ last_close v s) e k.0 in
              (omega (arith, at, before), omega (arith, k.1, r)))
            h.latest;
    }

pub install-Holds :
    (number syscall : ℕ) (value : ℤ) (start : ℕ) (closes : List Span) (s t : Links)
    → Holds number closes s
    → install number syscall value start s ≡ some t
    → Holds (number + 1) closes t
unfolding install
install-Holds number syscall value start closes s t h p = elim (Option-cases (kind_of syscall)) [
  | inl k ↦ absurd (none≢some (rw (k, install) at p))
  | inr (kind, k) ↦ elim (Bool-cases (overlaps value start s)) [
    | inl o ↦ subst (Holds (number + 1) closes) (some_injective (rw (k, o, install) at p)) (
        Holds-next number closes s s.installing (remove value s.active) _ h (λ v i g.
          IsActive-next number closes s.closing v i
            (h.active v i (ground (arith, get-remove value v s.active, g)))))
    | inr o ↦
        let made : Installation = record {
          kind = kind;
          fd = value;
          syscall = syscall;
          entry_line = start;
          return_line = number;
          projection_rejected = false;
        } in
        subst (Holds (number + 1) closes) (some_injective (rw (k, o, install) at p)) (
          Holds-next number closes s s.installing (put value made s.active) _ h (λ v i g.
            elim (Bool-cases (value == v)) [
              | inl same ↦
                  let e : made ≡ i =
                    some_injective (ground (arith, g, get-put value v made s.active)) in
                  let at : value ≡ v = (int_eq.same_iff value v).0 same in
                  subst (IsActive (number + 1) closes s.closing v) e (
                    subst (λ z. IsActive (number + 1) closes s.closing z made) at
                      (installed-IsActive number closes s made h o refl))
              | inr other ↦
                  IsActive-next number closes s.closing v i
                    (h.active v i (ground (arith, g, get-put value v made s.active)))
            ]))
  ]
]

pub install_step-Holds :
    (number thread syscall : ℕ) (value : ℤ) (closes : List Span) (s t : Links)
    → Holds number closes s
    → install_step number thread syscall value s ≡ some t
    → Holds (number + 1) closes t
unfolding install_step
install_step-Holds number thread syscall value closes s t h p =
    let next = λ (v : ℤ) (i : Installation) (g : get v s.active ≡ some i).
      IsActive-next number closes s.closing v i (h.active v i g) in
    elim (Option-cases (get (thread, syscall) s.installing)) [
      | inl k ↦
          subst (Holds (number + 1) closes) (some_injective (rw (k, install_step) at p))
            (Holds-next number closes s _ s.active s.installations h next)
      | inr (begun, k) ↦
          let installing = remove (thread, syscall) s.installing in
          elim (Bool-cases (leb_ℤ (pos 0) value)) [
            | inl o ↦
                install-Holds number syscall value begun.1 closes
                  (record s { installing = installing }) t
                  (record {
                    active = h.active;
                    latest = unfold last_close in h.latest;
                    opened = unfold last_close in h.opened;
                    bounded = unfold last_close in h.bounded;
                    references = h.references;
                  })
                  (rw (k, o, install_step) at p)
            | inr o ↦
                subst (Holds (number + 1) closes) (some_injective (rw (k, o, install_step) at p))
                  (Holds-next number closes s installing s.active s.installations h next)
          ]
    ]
