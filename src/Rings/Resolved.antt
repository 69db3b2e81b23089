-- ===== src/Rings/Resolved.antt =====
-- The descriptor that `observed_file_resource` of ring_observations.py resolves.
use causpan.Prelude.{
  ℕ, ◌≡◌, refl, sym, ◌∙◌, ◌↔◌, ◌⊎◌, inl, inr, subst, ap, String, string_eq, ℤ, pos, leb_ℤ, ltb_ℤ,
  int_eq, Option, none, some, none≢some, some_injective, List, [], ◌∷◌, ◌++◌, Bool, true, false,
  ◌&&◌, ◌||◌, not, ◌==◌, nat_eq, member, all, All-member, Bool-cases, Option-cases, arith,
  if◌then◌else◌,
}
use mathlib.Core.Bool.{false≢true}
use causpan.Attribution.Types.{Event, syscall_name}
use causpan.Rings.Resource.{
  Resource, replacing_when_unknown, opening, replacing_all, installing_more, concerns, closes,
  replaces, resolves, closes_range, after_return, track, track_all, observed_file_resource,
}

-- what an open is not
abbrev IsOther : String → Type 0
IsOther name =
    ((name == "close") ≡ false)
    × ((name == "close_range") ≡ false)
    × (member name replacing_all ≡ false)
    × (member name installing_more ≡ false)

opening-IsOther : (name : String) → member name opening ≡ true → IsOther name
unfolding member
opening-IsOther name h =
    All-member IsOther name opening
      ((refl, refl, refl, refl), ((refl, refl, refl, refl), ((refl, refl, refl, refl), tt))) h

-- the tests of the body, in its order
module _ (e : Event) (current : Option Event) where
  returned :
      (p c r x m : Bool)
      → (if m
          then none
          else if x
          then none
          else if r
          then none
          else if c
          then none
          else if p
          then none
          else current)
        ≡ (if p && false then some e else if p || (c || (r || (x || m))) then none else current)
  returned p c r x m = ground arith

  unknown_result :
      (c m q : Bool)
      → (if m then none else if c then none else current)
        ≡ (if q && false then some e else if c || m then none else current)
  unknown_result c m q = ground arith

  known_result :
      (p q c r : Bool)
      → (if p && q then some e else if p || (c || r) then none else if c then none else current)
        ≡ (if q && p then some e else if c || (p || r) then none else current)
  known_result p q c r = ground arith

  failed_result :
      (c q : Bool)
      → (if c then none else current)
        ≡ (if q && false then some e else if c || false then none else current)
  failed_result c q = ground arith

ends :
    (o : Option ℤ) (k q c m : Bool) (p : ℤ → Bool) (r : Bool)
    → (k && (c || elim o [ none ↦ m | some n ↦ leb_ℤ (pos 0) n && (p n || r) ])) ≡ false
    → (k && (q && elim o [ none ↦ false | some n ↦ leb_ℤ (pos 0) n && p n ])) ≡ false
ends none k q c m p r h = ground arith
ends (some n) k q c m p r h = ground arith

both : (a b : Bool) → (not a && b) ≡ true → (a ≡ false) × (b ≡ true)
both a b h = ground arith

resolved_to :
    {x e : Event} → Resource.observed_absolute_open x ≡ Resource.observed_absolute_open e → x ≡ e
resolved_to p = cc

module _ (pid : ℕ) (fd : ℤ) (before_ns : ℕ) where
  -- The event is a call of the process, before that time, that opened one absolute path as this
  -- descriptor and completed in time.
  unfoldable pub opens : Event → Bool
  unfolding resolves
  opens e =
      concerns pid fd before_ns e
      && (resolves pid fd before_ns e && elim e.return_value [
        | none ↦ false
        | some n ↦ leb_ℤ (pos 0) n && replaces pid fd before_ns e n
      ])

  -- The event may have ended what the descriptor was: a close of it, a call whose result is not
  -- known and that may return descriptors, or a call that returned and replaces or closes this or
  -- any descriptor.
  unfoldable pub may_end : Event → Bool
  unfolding closes replaces closes_range member
  may_end e =
      concerns pid fd before_ns e
      && (closes pid fd before_ns e || elim e.return_value [
        | none ↦ member (syscall_name e.syscall) replacing_when_unknown
        | some n ↦
            leb_ℤ (pos 0) n
            && (replaces pid fd before_ns e n
                || (closes_range pid fd before_ns e
                    || (member (syscall_name e.syscall) replacing_all
                        || member (syscall_name e.syscall) installing_more)))
      ])

  resolves-IsOther :
      (e : Event) → resolves pid fd before_ns e ≡ true → IsOther (syscall_name e.syscall)
  unfolding resolves
  resolves-IsOther e h = elim (Bool-cases (member (syscall_name e.syscall) opening)) [
    | inl p ↦ opening-IsOther (syscall_name e.syscall) p
    | inr p ↦ absurd (false≢true (rw (p, resolves) at h))
  ]

  after_return_lem :
      (e : Event) (n : ℤ) (current : Option Event)
      → after_return pid fd before_ns e n current ≡ (
          if replaces pid fd before_ns e n && resolves pid fd before_ns e
          then some e
          else if replaces pid fd before_ns e n
              || (closes pid fd before_ns e
                  || (closes_range pid fd before_ns e
                      || (member (syscall_name e.syscall) replacing_all
                          || member (syscall_name e.syscall) installing_more)))
          then none
          else current)
  unfolding after_return closes closes_range
  after_return_lem e n current = elim (Bool-cases (resolves pid fd before_ns e)) [
    | inl p ↦
        let (a, b, c, d) = resolves-IsOther e p in
        rw (p, a, b, c, d)
          (elim (Bool-cases (replaces pid fd before_ns e n)) [
            | inl k ↦ rw k refl
            | inr k ↦ rw k refl
          ])
    | inr p ↦ rw p (
        returned e current (replaces pid fd before_ns e n) (closes pid fd before_ns e)
          (closes_range pid fd before_ns e) (member (syscall_name e.syscall) replacing_all)
          (member (syscall_name e.syscall) installing_more))
  ]

  -- what one event does
  track_lem :
      (e : Event) (current : Option Event)
      → track pid fd before_ns e current
        ≡ (if opens e then some e else if may_end e then none else current)
  unfolding track opens may_end
  track_lem e current =
      let c = closes pid fd before_ns e in
      let q = resolves pid fd before_ns e in
      elim (Bool-cases (concerns pid fd before_ns e)) [
        | inr k ↦ rw k refl
        | inl k ↦ elim (Option-cases e.return_value) [
          | inl r ↦
              simp (k, r)
                (unknown_result e current c (member (syscall_name e.syscall) replacing_when_unknown)
                  q)
          | inr (n, r) ↦ elim (Bool-cases (leb_ℤ (pos 0) n)) [
            | inl l ↦
                simp (k, r, l)
                  (after_return_lem e n (if c then none else current)
                    ∙ known_result e current (replaces pid fd before_ns e n) q c (
                        closes_range pid fd before_ns e
                        || (member (syscall_name e.syscall) replacing_all
                            || member (syscall_name e.syscall) installing_more)))
            | inr l ↦ simp (k, r, l) (failed_result e current c q)
          ]
        ]
      ]

  opens-may_end : (e : Event) → may_end e ≡ false → opens e ≡ false
  unfolding opens may_end
  opens-may_end e h =
      ends e.return_value (concerns pid fd before_ns e) (resolves pid fd before_ns e)
        (closes pid fd before_ns e) (member (syscall_name e.syscall) replacing_when_unknown)
        (λ n. replaces pid fd before_ns e n)
        (closes_range pid fd before_ns e
          || (member (syscall_name e.syscall) replacing_all
              || member (syscall_name e.syscall) installing_more))
        h

  -- The event stands among the others, and nothing after it may have ended what it opened.
  pub record ResolvedBy (events : List Event) (e : Event) : Type 0 where
    pub before : List Event
    pub after : List Event
    pub placed : events ≡ before ++ e ∷ after
    pub opened : opens e ≡ true
    pub kept : all (λ x. not (may_end x)) after ≡ true

  track_all-kept :
      (events : List Event) (current : Option Event)
      → all (λ x. not (may_end x)) events ≡ true
      → track_all pid fd before_ns events current ≡ current
  unfolding track_all
  track_all-kept [] current h = refl
  track_all-kept (e ∷ es) current h =
      let (a, b) = both (may_end e) (all (λ x. not (may_end x)) es) h in
      rw (track_lem e current) (rw (opens-may_end e a, a) (track_all-kept es current b))

  track_all-opened :
      (before after : List Event) (e : Event) (current : Option Event)
      → opens e ≡ true
      → all (λ x. not (may_end x)) after ≡ true
      → track_all pid fd before_ns (before ++ e ∷ after) current ≡ some e
  unfolding track_all
  track_all-opened [] after e current o h =
      rw (track_lem e current, track_all) (rw o (track_all-kept after (some e) h))
  track_all-opened (x ∷ before) after e current o h =
      track_all-opened before after e (track pid fd before_ns x current) o h

  ResolvedBy-more :
      (x : Event) (es : List Event) (e : Event) → ResolvedBy es e → ResolvedBy (x ∷ es) e
  ResolvedBy-more x es e r = record {
    before = x ∷ r.before;
    after = r.after;
    placed = ap (λ l. x ∷ l) r.placed;
    opened = r.opened;
    kept = r.kept;
  }

  track_all-some :
      (events : List Event) (current : Option Event) (e : Event)
      → track_all pid fd before_ns events current ≡ some e
      → ((current ≡ some e) × (all (λ x. not (may_end x)) events ≡ true)) ⊎ ResolvedBy events e
  unfolding track_all
  track_all-some [] current e h = inl (h, refl)
  track_all-some (x ∷ es) current e h =
      elim (track_all-some es (track pid fd before_ns x current) e h) [
        | inr r ↦ inr (ResolvedBy-more x es e r)
        | inl (p, kept) ↦
            let q = sym (track_lem x current) ∙ p in
            elim (Bool-cases (opens x)) [
              | inl o ↦
                  let same : x ≡ e = some_injective (rw o at q) in
                  inr (record {
                    before = [];
                    after = es;
                    placed = ap (λ y. y ∷ es) same;
                    opened = subst (λ y. opens y ≡ true) same o;
                    kept = kept;
                  })
              | inr o ↦ elim (Bool-cases (may_end x)) [
                | inl m ↦ absurd (none≢some (rw (o, m) at q))
                | inr m ↦ inl (rw (o, m) at q, rw (m, kept) refl)
              ]
            ]
      ]

  -- `observed_file_resource` resolves a descriptor to a call exactly if the descriptor is no
  -- negative number, the call is one of the process that opened one absolute path as this descriptor
  -- before that time and completed by then, and no later call of the process before that time may
  -- have ended what the descriptor was.
  pub observed_file_resource-ResolvedBy :
      (events : List Event) (e : Event)
      → (observed_file_resource pid fd before_ns events ≡ Resource.observed_absolute_open e)
        ↔ ((ltb_ℤ fd (pos 0) ≡ false) × ResolvedBy events e)
  unfolding observed_file_resource
  observed_file_resource-ResolvedBy events e = (
    λ h. elim (Bool-cases (ltb_ℤ fd (pos 0))) [
      | inl n ↦ absurd (let q = rw (n, observed_file_resource) at h in cc)
      | inr n ↦ elim (Option-cases (track_all pid fd before_ns events none)) [
        | inl t ↦ absurd (let q = rw (n, t, observed_file_resource) at h in cc)
        | inr (x, t) ↦
            let same : x ≡ e = resolved_to (rw (n, t, observed_file_resource) at h) in
            (
              n,
              elim (track_all-some events none e (t ∙ ap some same)) [
                | inl (p, _) ↦ absurd (none≢some p)
                | inr r ↦ r
              ],
            )
      ]
    ],
    λ (n, r).
        rw (n, observed_file_resource)
          (subst
            (λ l.
              elim (track_all pid fd before_ns l none) [
                | none ↦ Resource.unresolved_descriptor
                | some y ↦ Resource.observed_absolute_open y
              ]
              ≡ Resource.observed_absolute_open e)
            (sym r.placed) (rw (track_all-opened r.before r.after e none r.opened r.kept) refl)),
  )
