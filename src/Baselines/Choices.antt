-- ===== src/Baselines/Choices.antt =====
-- The candidates of the strategies of compare_baselines.py.
use causpan.Prelude.{
  ℕ, ◌≡◌, refl, sym, ◌∙◌, ◌↔◌, inl, inr, subst, ap, string_eq, ℤ, pos, int_eq, Option, none, some,
  none≢some, some_injective, List, [], ◌∷◌, Dict, get, has, true, ◌==◌, nat_eq, nat_beq_iff, In,
  leb, ◌≤◌, ◌&&◌, put, get-put, false, Bool-cases, Option-cases, arith, if◌then◌else◌,
}
use mathlib.Core.Bool.{false≢true}
use causpan.Attribution.Types.{RpcId, Event}
use causpan.Attribution.RpcIds.{rpc_eq}
use causpan.Oracle.{Call, covers, covering}
use causpan.Baselines.{
  strategy_camflow, strategy_otel, annotated_fd, strategy_tetragon_fd, strategy_tetragon_best,
  is_open, is_dup, new_descriptor, search_descriptor, note_epoch, fd_epoch_from, build_fd_epoch,
}

-- The call has ended, and the time is from its start to its end, both included.
abbrev pub IsOpenAt : ℕ → Call → Type 0
IsOpenAt at c = (ends : ℕ) × (c.end_ns ≡ some ends) × (c.start_ns ≤ at) × (at ≤ ends)

covers_iff : (at : ℕ) (c : Call) → (covers at c ≡ true) ↔ IsOpenAt at c
unfolding covers
covers_iff at c = elim (Option-cases c.end_ns) [
  | inl p ↦ (
    λ h. absurd (false≢true (rw (p, covers) at h)),
    λ (_, q, _, _). absurd (none≢some (sym p ∙ q)),
  )
  | inr (ends, p) ↦ (
    λ h.
        let k : (leb c.start_ns at && leb at ends) ≡ true = rw (p, covers) at h in
        (ends, p, ground arith, ground arith),
    λ (n, q, a, b).
        let same : ends ≡ n = some_injective (sym p ∙ q) in rw (p, covers) (ground arith),
  )
]

-- A call of this id was open at that time.
abbrev pub IsCovering : ℕ → Dict RpcId Call → RpcId → Type 0
IsCovering at calls id = (k : RpcId) × (c : Call) × In (k, c) calls × (c.id ≡ id) × IsOpenAt at c

covering-In :
    (at : ℕ) (calls : Dict RpcId Call) (id : RpcId)
    → In id (covering at calls) ↔ IsCovering at calls id
unfolding covering
covering-In at [] id = (λ h. absurd h, λ (k, c, i, _, _). absurd i)
covering-In at ((k, c) ∷ calls) id = elim (Bool-cases (covers at c)) [
  | inl p ↦ rw p (
    λ h. elim h [
      | inl e ↦ (k, c, inl refl, e, (covers_iff at c).0 p)
      | inr i ↦ let (j, d, a, b, q) = (covering-In at calls id).0 i in (j, d, inr a, b, q)
    ],
    λ (j, d, a, b, q). elim a [
      | inl e ↦ inl (ap (λ (z : RpcId × Call). z.1.id) e ∙ b)
      | inr i ↦ inr ((covering-In at calls id).1 (j, d, i, b, q))
    ],
  )
  | inr p ↦ rw p (
    λ i. let (j, d, a, b, q) = (covering-In at calls id).0 i in (j, d, inr a, b, q),
    λ (j, d, a, b, q). elim a [
      | inl e ↦
          let here : IsOpenAt at c = subst (λ (z : RpcId × Call). IsOpenAt at z.1) (sym e) q in
          absurd (false≢true (sym p ∙ (covers_iff at c).1 here))
      | inr i ↦ (covering-In at calls id).1 (j, d, i, b, q)
    ],
  )
]

-- How the events made a descriptor: by an open at that time, or by a dup of one that was made so.
pub data IsMade (es : List Event) : ℤ → ℕ → Type 0 where
  opened :
      (e : Event) (fd : ℤ)
      → In e es
      → is_open e ≡ true
      → new_descriptor e ≡ some fd
      → IsMade es fd e.timestamp_ns
  copied :
      (e : Event) (fd : ℤ) (source at : ℕ)
      → In e es
      → is_dup e ≡ true
      → new_descriptor e ≡ some fd
      → search_descriptor false e.args ≡ some source
      → IsMade es (pos source) at
      → IsMade es fd at

abbrev AreMade : List Event → Dict ℤ ℕ → Type 0
AreMade es epochs = (fd : ℤ) (at : ℕ) → get fd epochs ≡ some at → IsMade es fd at

put-AreMade :
    (es : List Event) (epochs : Dict ℤ ℕ) (fd : ℤ) (at : ℕ)
    → AreMade es epochs
    → IsMade es fd at
    → AreMade es (put fd at epochs)
put-AreMade es epochs fd at h made v n p = elim (Bool-cases (fd == v)) [
  | inl same ↦
      let e : at ≡ n = some_injective (ground (arith, p, get-put fd v at epochs)) in
      subst (IsMade es v) e (subst (λ z. IsMade es z at) ((int_eq.same_iff fd v).0 same) made)
  | inr other ↦ h v n (ground (arith, p, get-put fd v at epochs))
]

note_epoch-AreMade :
    (es : List Event) (e : Event) (epochs : Dict ℤ ℕ)
    → In e es
    → AreMade es epochs
    → AreMade es (note_epoch e epochs)
unfolding note_epoch
note_epoch-AreMade es e epochs there h = elim (Option-cases (new_descriptor e)) [
  | inl p ↦ rw (p, note_epoch) h
  | inr (fd, p) ↦ elim (Bool-cases (has fd epochs)) [
    | inl q ↦ rw (p, q, note_epoch) h
    | inr q ↦ elim (Bool-cases (is_open e)) [
      | inl o ↦
          rw (p, q, o, note_epoch)
            (put-AreMade es epochs fd e.timestamp_ns h (IsMade.opened e fd there o p))
      | inr o ↦ elim (Bool-cases (is_dup e)) [
        | inr d ↦ rw (p, q, o, d, note_epoch) h
        | inl d ↦ elim (Option-cases (search_descriptor false e.args)) [
          | inl f ↦ rw (p, q, o, d, f, note_epoch) h
          | inr (source, f) ↦ elim (Option-cases (get (pos source) epochs)) [
            | inl g ↦ rw (p, q, o, d, f, g, note_epoch) h
            | inr (at, g) ↦
                rw (p, q, o, d, f, g, note_epoch)
                  (put-AreMade es epochs fd at h
                    (IsMade.copied e fd source at there d p f (h (pos source) at g)))
          ]
        ]
      ]
    ]
  ]
]

fd_epoch_from-AreMade :
    (all more : List Event) (epochs : Dict ℤ ℕ)
    → ((e : Event) → In e more → In e all)
    → AreMade all epochs
    → AreMade all (fd_epoch_from more epochs)
unfolding fd_epoch_from
fd_epoch_from-AreMade all [] epochs there h = h
fd_epoch_from-AreMade all (e ∷ more) epochs there h =
    fd_epoch_from-AreMade all more (note_epoch e epochs) (λ x i. there x (inr i))
      (note_epoch-AreMade all e epochs (there e (inl refl)) h)

-- the time at which the descriptor of a call was made, as far as it is known
abbrev pub epoch_of : Event → Dict ℤ ℕ → Option ℕ
epoch_of e epochs = elim (annotated_fd e.args) [ none ↦ none | some fd ↦ get (pos fd) epochs ]

-- the time of the descriptor, or of the call
abbrev pub best_time : Event → Dict ℤ ℕ → ℕ
best_time e epochs = elim (epoch_of e epochs) [ none ↦ e.timestamp_ns | some at ↦ at ]

module _ (e : Event) (calls : Dict RpcId Call) (pid : ℕ) (epochs : Dict ℤ ℕ) where
  server_candidates :
      (id : RpcId) (at : ℕ)
      → In id (if e.pid == pid then covering at calls else [])
        ↔ ((e.pid ≡ pid) × IsCovering at calls id)
  server_candidates id at = elim (Bool-cases (e.pid == pid)) [
    | inl p ↦ rw p (
      λ h. ((nat_beq_iff e.pid pid).0 p, (covering-In at calls id).0 h),
      λ (_, h). (covering-In at calls id).1 h,
    )
    | inr p ↦
        rw p (λ h. absurd h, λ (q, _). absurd (false≢true (sym p ∙ (nat_beq_iff e.pid pid).1 q)))
  ]

  abbrev pick : Option ℕ → List RpcId → List RpcId
  pick fd otel = elim fd [
    | none ↦ otel
    | some n ↦ elim (get (pos n) epochs) [ none ↦ otel | some at ↦ covering at calls ]
  ]

  abbrev time_by : Option ℕ → ℕ
  time_by fd = elim (elim fd as (λ _. Option ℕ) [ none ↦ none | some n ↦ get (pos n) epochs ]) [
    | none ↦ e.timestamp_ns
    | some at ↦ at
  ]

  -- what the fall back chooses, by the descriptor
  best_cases :
      (fd : Option ℕ) (otel : List RpcId)
      → otel ≡ covering e.timestamp_ns calls
      → pick fd otel ≡ covering (time_by fd) calls
  best_cases none otel h = h
  best_cases (some n) otel h = elim (Option-cases (get (pos n) epochs)) [
    | inl r ↦ rw (r, pick, time_by) h
    | inr (at, r) ↦ rw (r, pick, time_by) refl
  ]

  own_time : (e.pid == pid) ≡ true → strategy_otel e calls pid ≡ covering e.timestamp_ns calls
  unfolding strategy_otel strategy_camflow
  own_time p = rw p refl

  best_lem :
      strategy_tetragon_best e calls pid epochs
      ≡ (if e.pid == pid then covering (best_time e epochs) calls else [])
  unfolding strategy_tetragon_best
  best_lem = elim (Bool-cases (e.pid == pid)) [
    | inr p ↦ rw p refl
    | inl p ↦
        let otel = own_time p in
        let best = best_cases (annotated_fd e.args) (strategy_otel e calls pid) otel in rw p best
  ]

  fd_candidates :
      (id : RpcId)
      → In id (strategy_tetragon_fd e calls pid epochs)
        ↔ ((e.pid ≡ pid) × (at : ℕ) × (epoch_of e epochs ≡ some at) × IsCovering at calls id)
  unfolding strategy_tetragon_fd
  fd_candidates id = elim (Bool-cases (e.pid == pid)) [
    | inr p ↦
        rw p
          (λ h. absurd h, λ (q, _, _, _). absurd (false≢true (sym p ∙ (nat_beq_iff e.pid pid).1 q)))
    | inl p ↦ elim (Option-cases (annotated_fd e.args)) [
      | inl a ↦
          rw (p, a, strategy_tetragon_fd, epoch_of)
            (λ h. absurd h, λ (_, at, q, _). absurd (none≢some q))
      | inr (fd, a) ↦ elim (Option-cases (get (pos fd) epochs)) [
        | inl g ↦
            rw (p, a, g, strategy_tetragon_fd, epoch_of)
              (λ h. absurd h, λ (_, at, q, _). absurd (none≢some q))
        | inr (at, g) ↦
            rw (p, a, g, strategy_tetragon_fd, epoch_of)
              (
                λ h. ((nat_beq_iff e.pid pid).0 p, at, refl, (covering-In at calls id).0 h),
                λ (_, n, q, h).
                    (covering-In at calls id).1
                      (subst (λ t. IsCovering t calls id) (sym (some_injective q)) h),
              )
      ]
    ]
  ]

pub strategies-AreCovering :
    (es : List Event) (e : Event) (calls : Dict RpcId Call) (pid : ℕ) (id : RpcId)
    → let epochs = build_fd_epoch es in
      (In id (strategy_camflow e calls pid) ↔ ((e.pid ≡ pid) × IsCovering e.timestamp_ns calls id))
      × (In id (strategy_otel e calls pid) ↔ ((e.pid ≡ pid) × IsCovering e.timestamp_ns calls id))
      × (In id (strategy_tetragon_fd e calls pid epochs)
          ↔ ((e.pid ≡ pid) × (at : ℕ) × (epoch_of e epochs ≡ some at) × IsCovering at calls id))
      × (In id (strategy_tetragon_best e calls pid epochs)
          ↔ ((e.pid ≡ pid) × IsCovering (best_time e epochs) calls id))
      × ((fd : ℤ) (at : ℕ) → get fd epochs ≡ some at → IsMade es fd at)
unfolding strategy_otel strategy_camflow build_fd_epoch get
strategies-AreCovering es e calls pid id =
    let epochs = build_fd_epoch es in
    (
      server_candidates e calls pid epochs id e.timestamp_ns,
      server_candidates e calls pid epochs id e.timestamp_ns,
      fd_candidates e calls pid epochs id,
      subst (λ l. In id l ↔ ((e.pid ≡ pid) × IsCovering (best_time e epochs) calls id))
          (sym (best_lem e calls pid epochs))
          (server_candidates e calls pid epochs id (best_time e epochs)),
      fd_epoch_from-AreMade es es [] (λ x i. i) (λ fd at p. absurd (none≢some p)),
    )
