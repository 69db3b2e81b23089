-- ===== src/Attribution/Mapping/Load.antt =====
-- What `load_request_mapping` of attribute.py accepts.
use causpan.Prelude.{
  ℕ, ◌^◌, ◌<◌, pos, String, ◌≡◌, refl, sym, ◌∙◌, inl, inr, subst, Option, none, some, none≢some,
  some_injective, List, [], ◌∷◌, Dict, get, All, All_map, Bool, true, false, ◌==◌, ◌&&◌, not,
  nat_eq, string_eq, ltb, Json, items, member, add, member-add, Bool-cases, Option-cases,
  List-cases, cons≢nil, ltb→lt, arith,
}
use causpan.Attribution.Types.{MapRecord}
use causpan.Attribution.Initialize.{context_of}
use causpan.Attribution.Initialize.Owners.{ParentsIn, IsOrdered}
use causpan.Attribution.Mapping.{
  read_object, seen_int, seen_parents, all_different, check_parents, new_context, join_record,
  load_kind, load_record, load_line, load_from, load_request_mapping,
}

-- a context that a line may have
record IsNewContext (seen : List ℕ) (c : ℕ) : Type 0 where
  fresh : member c seen ≡ false
  positive : (c == 0) ≡ false
  bounded : ltb c (2 ^ 64) ≡ true

new_context-IsNewContext :
    (seen : List ℕ) (v : Option Json) (c : ℕ) → new_context seen v ≡ some c → IsNewContext seen c
unfolding new_context
new_context-IsNewContext seen none c h = absurd (none≢some h)
new_context-IsNewContext seen (some (Json.integer (pos n))) c h =
    elim (Bool-cases (ltb 0 n && (ltb n (2 ^ 64) && not (member n seen)))) [
      | inr p ↦ absurd (none≢some (rw (p, new_context) at h))
      | inl p ↦
          let e : n ≡ c = some_injective (rw (p, new_context) at h) in
          subst (IsNewContext seen) e
            (record { fresh = ground arith; positive = ground arith; bounded = ground arith })
    ]
new_context-IsNewContext seen (some _) c h = absurd (none≢some h)

seen_int-member :
    (seen : List ℕ) (v : Json) (n : ℕ) → seen_int seen v ≡ some n → member n seen ≡ true
unfolding seen_int
seen_int-member seen (Json.integer (pos k)) n h = elim (Bool-cases (member k seen)) [
  | inr p ↦ absurd (none≢some (rw (p, seen_int) at h))
  | inl p ↦
      let e : k ≡ n = some_injective (rw (p, seen_int) at h) in
      subst (λ z. member z seen ≡ true) e p
]
seen_int-member seen v n h = absurd (none≢some h)

seen_parents-All :
    (seen : List ℕ) (vs : List Json) (ns : List ℕ)
    → seen_parents seen vs ≡ some ns
    → All (λ q. member q seen ≡ true) ns
unfolding seen_parents
seen_parents-All seen [] ns h = subst (All (λ q. member q seen ≡ true)) (some_injective h) tt
seen_parents-All seen (v ∷ vs) ns h = elim (Option-cases (seen_int seen v)) [
  | inl p ↦ absurd (none≢some (rw (p, seen_parents) at h))
  | inr (n, p) ↦ elim (Option-cases (seen_parents seen vs)) [
    | inl q ↦ absurd (none≢some (rw (p, q, seen_parents) at h))
    | inr (rest, q) ↦
        let e : n ∷ rest ≡ ns = some_injective (rw (p, q, seen_parents) at h) in
        subst (All (λ z. member z seen ≡ true)) e
          (seen_int-member seen v n p, seen_parents-All seen vs rest q)
  ]
]

-- a parent list with a parent
joined-ParentsIn :
    (seen : ℕ → Bool) (c n : ℕ) (rest ns : List ℕ)
    → n ∷ rest ≡ ns
    → All (λ q. seen q ≡ true) ns
    → ParentsIn seen (MapRecord.join c ns)
joined-ParentsIn seen c n rest [] e h = absurd (cons≢nil e)
joined-ParentsIn seen c n rest (m ∷ ms) e h = h

seen_parents-nonempty :
    (seen : List ℕ) (v : Json) (vs : List Json) (ns : List ℕ)
    → seen_parents seen (v ∷ vs) ≡ some ns
    → (n : ℕ) × (rest : List ℕ) × (n ∷ rest ≡ ns)
unfolding seen_parents
seen_parents-nonempty seen v vs ns h = elim (Option-cases (seen_int seen v)) [
  | inl p ↦ absurd (none≢some (rw (p, seen_parents) at h))
  | inr (n, p) ↦ elim (Option-cases (seen_parents seen vs)) [
    | inl q ↦ absurd (none≢some (rw (p, q, seen_parents) at h))
    | inr (rest, q) ↦ (n, rest, some_injective (rw (p, q, seen_parents) at h))
  ]
]

check_parents-ParentsIn :
    (seen : List ℕ) (v : Option Json) (c : ℕ) (ns : List ℕ)
    → check_parents seen v ≡ some ns
    → ParentsIn (λ q. member q seen) (MapRecord.join c ns)
unfolding check_parents
check_parents-ParentsIn seen none c ns h = absurd (none≢some h)
check_parents-ParentsIn seen (some (Json.array vs)) c ns h = elim (List-cases (items vs)) [
  | inl p ↦ absurd (none≢some (rw (p, check_parents) at h))
  | inr (x, xs, p) ↦ elim (Option-cases (seen_parents seen (x ∷ xs))) [
    | inl q ↦ absurd (none≢some (rw (p, q, check_parents) at h))
    | inr (ms, q) ↦ elim (Bool-cases (all_different ms)) [
      | inr r ↦ absurd (none≢some (rw (p, q, r, check_parents) at h))
      | inl r ↦
          let e : ms ≡ ns = some_injective (rw (p, q, r, check_parents) at h) in
          let (n, rest, made) = seen_parents-nonempty seen x xs ms q in
          joined-ParentsIn (λ z. member z seen) c n rest ns (made ∙ e)
            (subst (All (λ z. member z seen ≡ true)) e (seen_parents-All seen (x ∷ xs) ms q))
    ]
  ]
]
check_parents-ParentsIn seen (some _) c ns h = absurd (none≢some h)

-- the record of a context, with seen parents
abbrev IsRecordOf : List ℕ → ℕ → MapRecord → Type 0
IsRecordOf seen c r = (context_of r ≡ c) × ParentsIn (λ q. member q seen) r

join_record-IsRecordOf :
    (seen : List ℕ) (v : Option Json) (c : ℕ) (r : MapRecord)
    → join_record c (check_parents seen v) ≡ some r
    → IsRecordOf seen c r
join_record-IsRecordOf seen v c r h = elim (Option-cases (check_parents seen v)) [
  | inl p ↦ absurd (none≢some (rw p at h))
  | inr (ns, p) ↦
      let e : MapRecord.join c ns ≡ r = some_injective (rw p at h) in
      subst (IsRecordOf seen c) e (refl, check_parents-ParentsIn seen v c ns p)
]

load_kind-IsRecordOf :
    (seen : List ℕ) (record_ : Dict String Json) (c : ℕ) (v : Option Json) (r : MapRecord)
    → load_kind seen record_ c v ≡ some r
    → IsRecordOf seen c r
unfolding load_kind
load_kind-IsRecordOf seen record_ c none r h =
    subst (IsRecordOf seen c) (some_injective h) (refl, tt)
load_kind-IsRecordOf seen record_ c (some (Json.text kind)) r h =
    elim (Bool-cases (kind == "join")) [
      | inl p ↦ join_record-IsRecordOf seen (get "parents" record_) c r (rw (p, load_kind) at h)
      | inr p ↦ elim (Bool-cases (kind == "request")) [
        | inl q ↦ subst (IsRecordOf seen c) (some_injective (rw (p, q, load_kind) at h)) (refl, tt)
        | inr q ↦ absurd (none≢some (rw (p, q, load_kind) at h))
      ]
    ]
load_kind-IsRecordOf seen record_ c (some _) r h = absurd (none≢some h)

-- a line that is accepted
abbrev IsAccepted : List ℕ → ℕ × MapRecord → Type 0
IsAccepted seen (c, r) = IsNewContext seen c × IsRecordOf seen c r

load_line-IsAccepted :
    (seen : List ℕ) (line : Option (List (String × Json))) (found : ℕ × MapRecord)
    → load_line seen line ≡ some found
    → IsAccepted seen found
unfolding load_line load_record
load_line-IsAccepted seen none found h = absurd (none≢some h)
load_line-IsAccepted seen (some pairs) found h = elim (Option-cases (read_object pairs)) [
  | inl p ↦ absurd (none≢some (rw (p, load_line) at h))
  | inr (record_, p) ↦ elim (Option-cases (new_context seen (get "context" record_))) [
    | inl q ↦ absurd (none≢some (rw (p, q, load_line, load_record) at h))
    | inr (c, q) ↦ elim (Option-cases (load_kind seen record_ c (get "kind" record_))) [
      | inl k ↦ absurd (none≢some (rw (p, q, k, load_line, load_record) at h))
      | inr (r, k) ↦
          subst (IsAccepted seen) (some_injective (rw (p, q, k, load_line, load_record) at h)) (
            new_context-IsNewContext seen (get "context" record_) c q,
            load_kind-IsRecordOf seen record_ c (get "kind" record_) r k,
          )
    ]
  ]
]

ParentsIn-transport :
    (seen others : ℕ → Bool) (r : MapRecord)
    → ((c : ℕ) → seen c ≡ others c)
    → ParentsIn seen r
    → ParentsIn others r
ParentsIn-transport seen others (MapRecord.request c id) same h = h
ParentsIn-transport seen others (MapRecord.join c []) same h = h
ParentsIn-transport seen others (MapRecord.join c (p ∷ ps)) same h =
    All_map _ _ (p ∷ ps) (λ q k. sym (same q) ∙ k) h

IsOrdered-transport :
    (seen others : List ℕ) (rs : List MapRecord)
    → ((c : ℕ) → member c seen ≡ member c others)
    → IsOrdered seen rs
    → IsOrdered others rs
IsOrdered-transport seen others [] same h = tt
IsOrdered-transport seen others (r ∷ rs) same h = (
  sym (same (context_of r)) ∙ h.0,
  h.1,
  ParentsIn-transport (λ q. member q seen) (λ q. member q others) r same h.2,
  IsOrdered-transport (context_of r ∷ seen) (context_of r ∷ others) rs
      (λ c. unfold member in ground (arith, same c)) h.3,
)

-- the contexts are 64-bit numbers
abbrev pub IsBounded : MapRecord → Type 0
IsBounded r = context_of r < 2 ^ 64

load_from-IsOrdered :
    (seen : List ℕ) (lines : List (Option (List (String × Json)))) (rs : List MapRecord)
    → load_from seen lines ≡ some rs
    → IsOrdered seen rs × All IsBounded rs
unfolding load_from
load_from-IsOrdered seen [] rs h =
    subst (λ z. IsOrdered seen z × All IsBounded z) (some_injective h) (tt, tt)
load_from-IsOrdered seen (line ∷ lines) rs h = elim (Option-cases (load_line seen line)) [
  | inl p ↦ absurd (none≢some (rw (p, load_from) at h))
  | inr ((c, r), p) ↦ elim (Option-cases (load_from (add c seen) lines)) [
    | inl q ↦ absurd (none≢some (rw (p, q, load_from) at h))
    | inr (rest, q) ↦
        let e : r ∷ rest ≡ rs = some_injective (rw (p, q, load_from) at h) in
        let (new, (named, parents)) = load_line-IsAccepted seen line (c, r) p in
        let (ordered, bounded) = load_from-IsOrdered (add c seen) lines rest q in
        let tail : IsOrdered (context_of r ∷ seen) rest =
          IsOrdered-transport (add c seen) (context_of r ∷ seen) rest
            (λ d. rw named (member-add c d seen ∙ sym (unfold member in refl))) ordered in
        subst (λ z. IsOrdered seen z × All IsBounded z) e
          (
            (rw named new.fresh, rw named new.positive, parents, tail),
            (rw named (ltb→lt c (2 ^ 64) new.bounded), bounded),
          )
  ]
]

-- Of a request map that is accepted, the contexts are new one by one, above 0 and below 2 ^ 64, and
-- each join names at least one parent and only contexts of earlier lines.
pub load_request_mapping-IsOrdered :
    (lines : List (Option (List (String × Json)))) (rs : List MapRecord)
    → load_request_mapping lines ≡ some rs
    → IsOrdered [] rs × All IsBounded rs
unfolding load_request_mapping
load_request_mapping-IsOrdered lines rs h = load_from-IsOrdered [] lines rs h
