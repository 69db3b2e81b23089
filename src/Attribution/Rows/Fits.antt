-- ===== src/Attribution/Rows/Fits.antt =====
-- What the attribution of a row says of its request ids (`_process_trace` of attribute.py).
use causpan.Prelude.{
  ℕ, ◌≤◌, ◌≡◌, refl, inl, inr, Option-cases, subst, Option, none, some, none≢some, some_injective,
  List, [], ◌∷◌, length, Bool-cases, sorted, arith,
}
use causpan.Attribution.Types.{Event, RpcId, Attribution, Connection, Row, Setup}
use causpan.Attribution.Rows.{
  Scope, rpc_ids, known_owners, candidates, row_of, make_row, is_unowned,
}

-- A bound row has one request id and names it. A row of several names none of them. Any other
-- attribution comes with no request at all.
abbrev pub Fits : Attribution → List RpcId → Option RpcId → Type 0
Fits Attribution.bound ids id = (r : RpcId) × (ids ≡ r ∷ []) × (id ≡ some r)
Fits Attribution.multi_parent ids id = (2 ≤ length ids) × (id ≡ none)
Fits _ ids id = (ids ≡ []) × (id ≡ none)

abbrev pub IsClassified : Row → Type 0
IsClassified row = Fits row.attribution row.request_ids row.request_id

row_of-IsClassified :
    (e : Event) (s : Scope) (socket : Option ℕ) (ids others : List RpcId)
    → IsClassified (row_of e s socket ids others)
unfolding row_of
row_of-IsClassified e s socket [] others = elim (Bool-cases (is_unowned s.context)) [
  | inl p ↦ rw (p, row_of) (refl, refl)
  | inr p ↦ rw (p, row_of) (refl, refl)
]
row_of-IsClassified e s socket (id ∷ []) others = (id, refl, refl)
row_of-IsClassified e s socket (id ∷ _ ∷ _) others = (omega arith, refl)

-- Every row that a traced call makes is classified.
pub make_row-IsClassified :
    (setup : Setup) (e : Event) (s : Scope) (socket : Option ℕ) (c : Option Connection) {row : Row}
    → make_row setup e s socket c ≡ some row
    → IsClassified row
unfolding make_row
make_row-IsClassified setup e s socket c {row} h =
    elim (Option-cases (rpc_ids setup (sorted (known_owners setup s.request)))) [
      | inl p ↦ absurd (none≢some (rw (p, make_row) at h))
      | inr (ids, p) ↦ elim (Option-cases (rpc_ids setup (candidates s c))) [
        | inl q ↦ absurd (none≢some (rw (p, q, make_row) at h))
        | inr (others, q) ↦
            let made : row_of e s socket ids others ≡ row =
              some_injective (rw (p, q, make_row) at h) in
            subst IsClassified made (row_of-IsClassified e s socket ids others)
      ]
    ]
