-- ===== src/Preparations/Joined.antt =====
-- What `report` of native_preparation.py joins.
use causpan.Prelude.{
  Option, ◌∙◌, none, ℕ, ◌+◌, ◌≡◌, refl, sym, ap, inl, inr, subst, ℤ, int_eq, some, none≢some,
  some_injective, List, [], ◌∷◌, ◌++◌, append_assoc, append-nil, get, IsDistinct, put-IsDistinct,
  remove-IsDistinct, get-put, get-remove, total_of, total_of-put, total_of-remove-some,
  Option-cases, Bool-cases, arith, true,
}
use causpan.Preparations.{
  Key, key_eq, Values, Line, Preparation, Join, Preparing, prepare, enter, read_line, read_lines,
  nothing_prepared, report, same_values, context_of,
}

-- the ring of the last batch after a line
abbrev pub ring_after : Option ℤ → Line → Option ℤ
ring_after ring (Line.batch fd) = some fd
ring_after ring _ = ring

-- an entry or a preparation: its line, its ring, its user data and its values
abbrev pub Record : Type 0
Record = ℕ × Option ℤ × ℤ × Values

-- the entries of a log from the line of a number, each on the ring of the last batch
abbrev pub entries : ℕ → Option ℤ → List Line → List Record
entries number ring [] = []
entries number ring (Line.sqe user_data values ∷ lines) =
    (number, ring, user_data, values) ∷ entries (number + 1) ring lines
entries number ring (line ∷ lines) = entries (number + 1) (ring_after ring line) lines

-- the preparations, each on the ring that it names
abbrev pub preparations : ℕ → List Line → List Record
preparations number [] = []
preparations number (Line.prep ring_fd user_data values ∷ lines) =
    (number, some ring_fd, user_data, values) ∷ preparations (number + 1) lines
preparations number (_ ∷ lines) = preparations (number + 1) lines

-- a preparation with another line
abbrev pub record_at : ℕ → Preparation → Record
record_at number p = (number, p.key.ring, p.key.user_data, p.values)

-- where a join found its entry, with the ring, the user data and the values of its preparation
abbrev pub joins_of : List Join → List Record
joins_of [] = []
joins_of (j ∷ js) = record_at j.sqe_line j.preparation ∷ joins_of js

-- the sum of a weight over records, and over the preparations of joins
abbrev pub weight : (Record → ℕ) → List Record → ℕ
weight f [] = 0
weight f (r ∷ rs) = f r + weight f rs

abbrev pub record_of : Preparation → Record
record_of p = record_at p.line p

abbrev pub weight_of : (Record → ℕ) → List Join → ℕ
weight_of f [] = 0
weight_of f (j ∷ js) = f (record_of j.preparation) + weight_of f js

joins_of-append :
    (js : List Join) (j : Join)
    → joins_of (js ++ j ∷ []) ≡ joins_of js ++ record_at j.sqe_line j.preparation ∷ []
joins_of-append [] j = refl
joins_of-append (i ∷ js) j = ap (λ l. record_at i.sqe_line i.preparation ∷ l) (joins_of-append js j)

weight_of-append :
    (f : Record → ℕ) (js : List Join) (j : Join)
    → weight_of f (js ++ j ∷ []) ≡ weight_of f js + f (record_of j.preparation)
weight_of-append f [] j = omega arith
weight_of-append f (i ∷ js) j = omega (arith, weight_of-append f js j)

weight-append :
    (f : Record → ℕ) (rs qs : List Record) → weight f (rs ++ qs) ≡ weight f rs + weight f qs
weight-append f [] qs = omega arith
weight-append f (r ∷ rs) qs = omega (arith, weight-append f rs qs)

same_values_lem : (a b : Values) → same_values a b ≡ true → a ≡ b
same_values_lem a b h = ground (
  arith,
  int_eq.same_iff a.fd b.fd,
  int_eq.same_iff a.target b.target,
  int_eq.same_iff a.control b.control,
)

-- what is pending stands once, under its own key
record IsKeyed (s : Preparing) : Type 0 where
  distinct : IsDistinct s.pending
  named : (k : Key) (p : Preparation) → get k s.pending ≡ some p → p.key ≡ k

abbrev waiting : (Record → ℕ) → Preparing → ℕ
waiting f s = total_of (λ p. f (record_of p)) s.pending

-- what lines with these entries and these preparations do
record Follows (s t : Preparing) (es ps : List Record) : Type 0 where
  keyed : IsKeyed t
  entered : joins_of t.joined ≡ joins_of s.joined ++ es
  counted :
      (f : Record → ℕ)
      → weight_of f t.joined + waiting f t ≡ weight_of f s.joined + waiting f s + weight f ps

Follows-none :
    (s t : Preparing) → IsKeyed s → t.pending ≡ s.pending → t.joined ≡ s.joined → Follows s t [] []
Follows-none s t d p q = record {
  keyed = record { distinct = rw p d.distinct; named = λ k v h. d.named k v (rw p at h) };
  entered = rw q (sym (append-nil (joins_of s.joined)));
  counted = λ f. rw (p, q) (omega arith);
}

Follows-trans :
    (s t u : Preparing) (es fs ps qs : List Record)
    → Follows s t es ps
    → Follows t u fs qs
    → Follows s u (es ++ fs) (ps ++ qs)
Follows-trans s t u es fs ps qs a b = record {
  keyed = b.keyed;
  entered = cc (a.entered, b.entered, append_assoc (joins_of s.joined) es fs);
  counted = λ f. omega (arith, a.counted f, b.counted f, weight-append f ps qs);
}

prepare-Follows :
    (number : ℕ) (ring_fd user_data : ℤ) (values : Values) (s t : Preparing)
    → prepare number ring_fd user_data values s ≡ some t
    → IsKeyed s
    → Follows s t [] ((number, some ring_fd, user_data, values) ∷ [])
unfolding prepare
prepare-Follows number ring_fd user_data values s t h d =
    let key : Key = record { ring = some ring_fd; user_data = user_data } in
    let p : Preparation = record {
      key = key;
      values = values;
      line = number;
      tid = s.tid;
      context = context_of s.tid s.contexts;
    } in
    let ps : List Record = (number, some ring_fd, user_data, values) ∷ [] in
    elim (Option-cases (get key s.pending)) [
      | inl q ↦
          subst (λ u. Follows s u [] ps) (some_injective (rw (q, prepare) at h))
            (record {
              keyed = record {
                distinct = put-IsDistinct key p s.pending d.distinct;
                named = λ k v e.
                    ground
                      (arith, get-put key k p s.pending, key_eq.same_iff key k, d.named k v, e);
              };
              entered = sym (append-nil (joins_of s.joined));
              counted = λ f. omega (arith, total_of-put (λ v. f (record_of v)) key p s.pending q);
            })
      | inr (old, q) ↦ absurd (none≢some (rw (q, prepare) at h))
    ]

enter-Follows :
    (number : ℕ) (user_data : ℤ) (values : Values) (s t : Preparing)
    → enter number user_data values s ≡ some t
    → IsKeyed s
    → Follows s t ((number, s.ring, user_data, values) ∷ []) []
unfolding enter
enter-Follows number user_data values s t h d =
    let key : Key = record { ring = s.ring; user_data = user_data } in
    elim (Option-cases (get key s.pending)) [
      | inl q ↦ absurd (none≢some (simp (q, enter) at h))
      | inr (p, q) ↦ elim (Bool-cases (same_values p.values values)) [
        | inr u ↦ absurd (none≢some (simp (q, u, enter) at h))
        | inl u ↦
            let j : Join = record { preparation = p; sqe_line = number } in
            let entry : record_at number p ≡ (number, s.ring, user_data, values) =
              ground (arith, d.named key p q, same_values_lem p.values values u) in
            subst (λ a. Follows s a ((number, s.ring, user_data, values) ∷ []) [])
              (some_injective (simp (q, u, enter) at h))
              (record {
                keyed = record {
                  distinct = remove-IsDistinct key s.pending d.distinct;
                  named = λ k v e. ground (arith, get-remove key k s.pending, d.named k v, e);
                };
                entered = joins_of-append s.joined j ∙ ap (λ r. joins_of s.joined ++ r ∷ []) entry;
                counted = λ f. omega (
                  arith,
                  weight_of-append f s.joined j,
                  total_of-remove-some (λ v. f (record_of v)) key p s.pending d.distinct q,
                );
              })
      ]
    ]

read_line-Follows :
    (number : ℕ) (line : Line) (s t : Preparing)
    → read_line number line s ≡ some t
    → IsKeyed s
    → Follows s t (entries number s.ring (line ∷ [])) (preparations number (line ∷ []))
      × (t.ring ≡ ring_after s.ring line)
unfolding read_line prepare enter
read_line-Follows number (Line.marker tid is_context request) s t h d =
    (Follows-none s t d (ground arith) (ground arith), ground arith)
read_line-Follows number (Line.preparer tid) s t h d =
    (Follows-none s t d (ground arith) (ground arith), ground arith)
read_line-Follows number (Line.prep ring_fd user_data values) s t h d =
    (prepare-Follows number ring_fd user_data values s t h d, ground arith)
read_line-Follows number (Line.batch fd) s t h d =
    (Follows-none s t d (ground arith) (ground arith), ground arith)
read_line-Follows number (Line.sqe user_data values) s t h d =
    (enter-Follows number user_data values s t h d, ground arith)
read_line-Follows number Line.other s t h d =
    (Follows-none s t d (ground arith) (ground arith), ground arith)

-- the first line, and the others
first_line :
    (number : ℕ) (ring : Option ℤ) (line : Line) (lines : List Line)
    → (entries number ring (line ∷ lines)
        ≡ entries number ring (line ∷ []) ++ entries (number + 1) (ring_after ring line) lines)
      × (preparations number (line ∷ lines)
          ≡ preparations number (line ∷ []) ++ preparations (number + 1) lines)
first_line number ring (Line.marker tid is_context request) lines = (refl, refl)
first_line number ring (Line.preparer tid) lines = (refl, refl)
first_line number ring (Line.prep ring_fd user_data values) lines = (refl, refl)
first_line number ring (Line.batch fd) lines = (refl, refl)
first_line number ring (Line.sqe user_data values) lines = (refl, refl)
first_line number ring Line.other lines = (refl, refl)

read_lines-Follows :
    (number : ℕ) (lines : List Line) (s t : Preparing)
    → read_lines number lines s ≡ some t
    → IsKeyed s
    → Follows s t (entries number s.ring lines) (preparations number lines)
unfolding read_lines
read_lines-Follows number [] s t h d =
    subst (λ a. Follows s a [] []) (some_injective h) (Follows-none s s d refl refl)
read_lines-Follows number (line ∷ lines) s t h d = elim (Option-cases (read_line number line s)) [
  | inl q ↦ absurd (none≢some (rw (q, read_lines) at h))
  | inr (a, q) ↦
      let (one, ring) = read_line-Follows number line s a q d in
      let more = read_lines-Follows (number + 1) lines a t (rw (q, read_lines) at h) one.keyed in
      let (p, n) = first_line number s.ring line lines in
      rw (p, n)
        (Follows-trans s a t (entries number s.ring (line ∷ []))
          (entries (number + 1) (ring_after s.ring line) lines) (preparations number (line ∷ []))
          (preparations (number + 1) lines) one
          (subst (λ r. Follows a t (entries (number + 1) r lines) (preparations (number + 1) lines))
            ring more))
]

-- If `report` gives joins, they are the entries of the log in its order, each with a preparation that has
-- the ring of the last batch before the entry, its user data and its values; and the preparations of
-- the joins are those of the log, each as often as it stands there (every weight has the same sum
-- over both).
pub report-Joined :
    (lines : List Line) (js : List Join)
    → report lines ≡ some js
    → (joins_of js ≡ entries 1 none lines)
      × ((f : Record → ℕ) → weight_of f js ≡ weight f (preparations 1 lines))
unfolding report get
report-Joined lines js h = elim (Option-cases (read_lines 1 lines nothing_prepared)) [
  | inl q ↦ absurd (none≢some (rw (q, report) at h))
  | inr (s, q) ↦
      let start : IsKeyed nothing_prepared = record {
        distinct = tt;
        named = λ k p e. absurd (none≢some e);
      } in
      let l = read_lines-Follows 1 lines nothing_prepared s q start in
      let found : (s.pending ≡ []) × (s.joined ≡ js) = ground arith in
      (
        subst (λ l. joins_of l ≡ entries 1 none lines) found.1 l.entered,
        λ f. omega (
          arith,
          ap (weight_of f) found.1,
          ap (total_of (λ p. f (record_of p))) found.0,
          l.counted f,
        ),
      )
]
