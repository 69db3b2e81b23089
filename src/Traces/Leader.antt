-- ===== src/Traces/Leader.antt =====
-- The loop of `tgid` in analyze.py ends, in the process of the task.
use causpan.Prelude.{
  ℕ, zero, suc, ◌+◌, ◌≤◌, ◌<◌, ◌≡◌, refl, sym, ◌∙◌, inl, inr, ◌⊎◌, subst, ℤ, pos, negsuc, int_eq,
  nat_eq, nat_beq_iff, Option, none, some, none≢some, List, [], ◌∷◌, get, Bool, true, false, not,
  ◌==◌, member, add, member-add, length, Bool-cases, Option-cases, Text, arith, if◌then◌else◌,
}
use mathlib.Core.Bool.{false≢true}
use causpan.Attribution.Types.{Event}
use causpan.Traces.{
  Matchers, Reading, Parents, thread_parent, leader, tgid, with_pids, sort_events, parents_from,
  read_files, nothing_read, parse_traces,
}

abbrev is_unseen : ℤ → List ℕ → Bool
is_unseen (pos n) seen = not (member n seen)
is_unseen (negsuc n) seen = true

abbrev one_if : Bool → ℕ
one_if true = 1
one_if false = 0

-- the entries of tasks that are not passed yet
unseen : Parents → List ℕ → ℕ
unseen [] seen = 0
unseen ((k, _) ∷ parents) seen = one_if (is_unseen k seen) + unseen parents seen

unseen-bound : (parents : Parents) (seen : List ℕ) → unseen parents seen ≤ length parents
unfolding unseen
unseen-bound [] seen = omega arith
unseen-bound ((k, _) ∷ parents) seen = ground (arith, unseen-bound parents seen)

one_less :
    (k : ℤ) (tid : ℕ) (seen : List ℕ)
    → one_if (is_unseen k (add tid seen)) ≤ one_if (is_unseen k seen)
one_less (pos n) tid seen = ground (arith, member-add tid n seen)
one_less (negsuc n) tid seen = omega arith

unseen-add :
    (parents : Parents) (tid : ℕ) (seen : List ℕ)
    → unseen parents (add tid seen) ≤ unseen parents seen
unfolding unseen
unseen-add [] tid seen = omega arith
unseen-add ((k, v) ∷ parents) tid seen =
    omega (arith, one_less k tid seen, unseen-add parents tid seen)

unseen-less :
    (parents : Parents) (tid : ℕ) (v : ℕ × Bool) (seen : List ℕ)
    → get (pos tid) parents ≡ some v
    → member tid seen ≡ false
    → unseen parents (add tid seen) < unseen parents seen
unfolding unseen get
unseen-less [] tid v seen h fresh = absurd (none≢some h)
unseen-less ((k, w) ∷ parents) tid v seen h fresh = elim (Bool-cases (k == pos tid)) [
  | inl p ↦
      let e : k ≡ pos tid = (int_eq.same_iff k (pos tid)).0 p in
      let now : is_unseen k (add tid seen) ≡ false =
        subst (λ j. is_unseen j (add tid seen) ≡ false) (sym e)
          (ground (arith, member-add tid tid seen, nat_beq_iff tid tid)) in
      let was : is_unseen k seen ≡ true =
        subst (λ j. is_unseen j seen ≡ true) (sym e) (ground arith) in
      rw (now, was) (omega (arith, unseen-add parents tid seen))
  | inr p ↦ omega (arith, one_less k tid seen, unseen-less parents tid v seen (rw p at h) fresh)
]

module _ (parents : Parents) where
  -- From one task to another through the tasks that made each as a thread.
  pub data Leads : ℕ → ℕ → Type 0 where
    here : (a : ℕ) → Leads a a
    up : (a b c : ℕ) → thread_parent parents a ≡ some b → Leads b c → Leads a c

  Leads-snoc : (a b c : ℕ) → Leads a b → thread_parent parents b ≡ some c → Leads a c
  Leads-snoc a b c (here d) h = up d c c h (here c)
  Leads-snoc a b c (up d e f p l) h = up a e c p (Leads-snoc e f c l h)

  -- a task that is its own ancestor
  abbrev pub IsCircular : ℕ → Type 0
  IsCircular t = (b : ℕ) × (thread_parent parents t ≡ some b) × Leads b t

  thread_parent-known :
      (tid parent : ℕ)
      → thread_parent parents tid ≡ some parent
      → (v : ℕ × Bool) × (get (pos tid) parents ≡ some v)
  unfolding thread_parent
  thread_parent-known tid parent h = elim (Option-cases (get (pos tid) parents)) [
    | inl p ↦ absurd (none≢some (rw (p, thread_parent) at h))
    | inr (v, p) ↦ (v, p)
  ]

  -- the tasks that were passed lead here
  abbrev Passed : ℕ → List ℕ → Type 0
  Passed tid seen =
      (s : ℕ) → member s seen ≡ true → (b : ℕ) × (thread_parent parents s ≡ some b) × Leads b tid

  Passed-add :
      (tid parent : ℕ) (seen : List ℕ)
      → thread_parent parents tid ≡ some parent
      → Passed tid seen
      → Passed parent (add tid seen)
  Passed-add tid parent seen h passed s m = elim (Bool-cases (tid == s)) [
    | inl p ↦
        let e : tid ≡ s = (nat_beq_iff tid s).0 p in
        (parent, subst (λ k. thread_parent parents k ≡ some parent) e h, here parent)
    | inr p ↦
        let (b, q, l) = passed s (ground (arith, member-add tid s seen)) in
        (b, q, Leads-snoc b tid parent l h)
  ]

  not_passed :
      (tid : ℕ) (seen : List ℕ) (x : Option ℕ)
      → member tid seen ≡ false
      → (if member tid seen then some tid else x) ≡ x
  not_passed tid seen x m = rw m refl

  leader-up :
      (n tid parent t : ℕ) (seen : List ℕ)
      → thread_parent parents tid ≡ some parent
      → member tid seen ≡ false
      → leader n parents parent (add tid seen) ≡ some t
      → leader (suc n) parents tid seen ≡ some t
  unfolding leader
  leader-up n tid parent t seen p m e =
      rw (p, leader) (not_passed tid seen (leader n parents parent (add tid seen)) m ∙ e)

  leader-ends :
      (n tid : ℕ) (seen : List ℕ)
      → unseen parents seen < n
      → Passed tid seen
      → (t : ℕ) × (leader n parents tid seen ≡ some t)
        × Leads tid t
        × ((thread_parent parents t ≡ none) ⊎ IsCircular t)
  unfolding leader
  leader-ends zero tid seen h passed = absurd (omega (arith, h))
  leader-ends (suc n) tid seen h passed = elim (Option-cases (thread_parent parents tid)) [
    | inl p ↦ (tid, rw (p, leader) refl, here tid, inl p)
    | inr (parent, p) ↦ elim (Bool-cases (member tid seen)) [
      | inl m ↦ (tid, rw (p, m, leader) refl, here tid, inr (passed tid m))
      | inr m ↦
          let (v, k) = thread_parent-known tid parent p in
          let less = unseen-less parents tid v seen k m in
          let (t, e, l, o) =
            leader-ends n parent (add tid seen) (omega (arith, h, less))
              (Passed-add tid parent seen p passed) in
          (t, leader-up n tid parent t seen p m e, up tid parent t p l, o)
    ]
  ]

  -- The loop of `tgid` ends for any task within a step for each known task and one more, in the task
  -- itself or one that it was made under through threads only; that one was made as no thread,
  -- or is its own ancestor.
  pub tgid-Leads :
      (tid : ℕ)
      → (t : ℕ) × (tgid parents tid ≡ some t)
        × Leads tid t
        × ((thread_parent parents t ≡ none) ⊎ IsCircular t)
  unfolding tgid member
  tgid-Leads tid =
      leader-ends (suc (length parents)) tid [] (omega (arith, unseen-bound parents []))
        (λ s m. absurd (false≢true m))

  with_pids-total : (es : List Event) → (out : List Event) × (with_pids parents es ≡ some out)
  unfolding with_pids
  with_pids-total [] = ([], refl)
  with_pids-total (e ∷ es) =
      let (t, p, _, _) = tgid-Leads e.tid in
      let (rest, q) = with_pids-total es in (record e { pid = t } ∷ rest, rw (p, q, with_pids) refl)

-- For any matching of lines and calls, `parse_traces` gives events wherever `read_files` reads the
-- lines of the files.
pub parse_traces-total :
    (match : Matchers) (files : List (ℕ × List Text)) (r : Reading)
    → read_files match files nothing_read ≡ some r
    → (out : List Event) × (parse_traces match files ≡ some (out, r.quality))
unfolding parse_traces
parse_traces-total match files r h =
    let inside = sort_events r.events in
    let (out, p) = with_pids-total (parents_from inside []) inside in
    (out, rw (h, p, parse_traces) refl)
