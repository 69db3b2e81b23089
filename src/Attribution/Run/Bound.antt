-- ===== src/Attribution/Run/Bound.antt =====
-- The late binding of reads (`_bind_socket_reads` of attribute.py): what it does to each row.
use causpan.Prelude.{
  ℕ, ◌+◌, ◌≤◌, ◌≡◌, refl, sym, ◌∙◌, ap, ◌⊎◌, inl, inr, subst, Option, none, some, none≢some,
  some_injective, List, [], ◌∷◌, Dict, get, All, Bool, true, false, Bool-cases, Option-cases,
  List-cases, sorted, insert_sorted, length, nat_eq, arith,
}
use causpan.Attribution.Types.{Connection, Evidence, RpcId, Origin, Attribution, Row, Setup}
use causpan.Attribution.Rows.{rpc_ids}
use causpan.Attribution.Rows.Fits.{IsClassified}
use causpan.Attribution.Syscalls.Owned.{HasId, IsOwned}
use causpan.Attribution.Trace.Total.{All-sorted, rpc_ids_total}
use causpan.Attribution.Bind.{is_bindable, bind_to, owned, bind_row, tally, bind_socket_reads}

length-insert_sorted : (x : ℕ) (s : List ℕ) → length (insert_sorted x s) ≡ length s + 1
unfolding insert_sorted
length-insert_sorted x [] = refl
length-insert_sorted x (y ∷ s) = ground (arith, length-insert_sorted x s)

length-sorted : (s : List ℕ) → length (sorted s) ≡ length s
unfolding sorted
length-sorted [] = refl
length-sorted (x ∷ s) = omega (arith, length-insert_sorted x (sorted s), length-sorted s)

length-rpc_ids :
    (setup : Setup) (s : List ℕ) (ids : List RpcId)
    → rpc_ids setup s ≡ some ids
    → length ids ≡ length s
unfolding rpc_ids
length-rpc_ids setup [] ids h = subst (λ x. length x ≡ 0) (some_injective h) refl
length-rpc_ids setup (x ∷ s) ids h = elim (Option-cases (get x setup.roots)) [
  | inl p ↦ absurd (none≢some (rw (p, rpc_ids) at h))
  | inr (none, p) ↦ absurd (none≢some (rw (p, rpc_ids) at h))
  | inr (some id, p) ↦ elim (Option-cases (rpc_ids setup s)) [
    | inl q ↦ absurd (none≢some (rw (p, q, rpc_ids) at h))
    | inr (rest, q) ↦
        let made : id ∷ rest ≡ ids = some_injective (rw (p, q, rpc_ids) at h) in
        subst (λ z. length z ≡ length (x ∷ s)) made (omega (arith, length-rpc_ids setup s rest q))
  ]
]

-- What the loop does to a row, `before` and `after` it: a row that it skips stays as it is, a read on
-- a connection of one request is bound to that request, and a read on a connection of several is
-- ambiguous and names none of them.
pub data LateBinding (setup : Setup) (connections : Dict ℕ Connection) (before after : Row)
    : Type 0 where
  skipped :
      (is_bindable before ≡ false) ⊎ (owned connections before.connection_id ≡ none)
      → after ≡ before
      → LateBinding setup connections before after
  resolved :
      (g : ℕ) (c : Connection) (request : ℕ) (id : RpcId)
      → is_bindable before ≡ true
      → before.connection_id ≡ some g
      → get g connections ≡ some c
      → c.requests ≡ request ∷ []
      → get request setup.roots ≡ some (some id)
      → after ≡ record before {
        context_evidence = some (Evidence.lifecycle c.id);
        origin = Origin.socket_lifecycle;
        context = some request;
        request_ids = id ∷ [];
        request_id = some id;
        attribution = Attribution.bound;
      }
      → LateBinding setup connections before after
  shared :
      (g : ℕ) (c : Connection) (ids : List RpcId)
      → is_bindable before ≡ true
      → before.connection_id ≡ some g
      → get g connections ≡ some c
      → 2 ≤ length c.requests
      → rpc_ids setup (sorted c.requests) ≡ some ids
      → after ≡ record before {
        context_evidence = some (Evidence.lifecycle c.id);
        origin = Origin.socket_lifecycle;
        context = some 0;
        request_ids = [];
        request_id = none;
        candidate_request_ids = ids;
        attribution = Attribution.ambiguous_resource;
      }
      → LateBinding setup connections before after

-- `owned` looks the connection up and sorts its requests
pub record OwnedBy (connections : Dict ℕ Connection) (key : Option ℕ) (c : Connection) (s : List ℕ)
    : Type 0 where
  pub generation : ℕ
  pub key_is : key ≡ some generation
  pub found : get generation connections ≡ some c
  pub requests : sorted c.requests ≡ s
  pub nonempty : 1 ≤ length s

at_least_one : (x : ℕ) (xs : List ℕ) → 1 ≤ length (x ∷ xs)
at_least_one x xs = omega arith

owned-OwnedBy :
    (connections : Dict ℕ Connection) (key : Option ℕ) (c : Connection) (s : List ℕ)
    → owned connections key ≡ some (c, s)
    → OwnedBy connections key c s
unfolding owned
owned-OwnedBy connections none c s h = absurd (none≢some h)
owned-OwnedBy connections (some g) c s h = elim (Option-cases (get g connections)) [
  | inl p ↦ absurd (none≢some (rw (p, owned) at h))
  | inr (v, p) ↦ elim (List-cases (sorted v.requests)) [
    | inl q ↦ absurd (none≢some (rw (p, q, owned) at h))
    | inr (x, xs, q) ↦
        let e : (v, x ∷ xs) ≡ (c, s) = some_injective (rw (p, q, owned) at h) in
        let first : v ≡ c = ap (λ (z : Connection × List ℕ). z.0) e in
        let second : x ∷ xs ≡ s = ap (λ (z : Connection × List ℕ). z.1) e in
        record {
          generation = g;
          key_is = refl;
          found = p ∙ ap some first;
          requests = subst (λ z. sorted z.requests ≡ s) first (q ∙ second);
          nonempty = subst (λ z. 1 ≤ length z) second (at_least_one x xs);
        }
  ]
]

sorted_one : (x : ℕ) (s : List ℕ) → sorted s ≡ x ∷ [] → s ≡ x ∷ []
unfolding sorted insert_sorted
sorted_one x [] h = absurd (omega (arith, ap length h))
sorted_one x (y ∷ []) h = h
sorted_one x (y ∷ z ∷ s) h = absurd (omega (arith, ap length h, length-sorted (y ∷ z ∷ s)))

rpc_ids_one :
    (setup : Setup) (x : ℕ) (ids : List RpcId)
    → rpc_ids setup (x ∷ []) ≡ some ids
    → (id : RpcId) × (get x setup.roots ≡ some (some id)) × (ids ≡ id ∷ [])
unfolding rpc_ids
rpc_ids_one setup x ids h = elim (Option-cases (get x setup.roots)) [
  | inl p ↦ absurd (none≢some (rw (p, rpc_ids) at h))
  | inr (none, p) ↦ absurd (none≢some (rw (p, rpc_ids) at h))
  | inr (some id, p) ↦
      let made : id ∷ [] ≡ ids = some_injective (rw (p, rpc_ids) at h) in (id, p, sym made)
]

module _ (setup : Setup) (connections : Dict ℕ Connection) (row : Row) where
  -- a row that the loop resolves, with the requests of its connection in order
  bind_to-LateBinding :
      (c : Connection) (s : List ℕ) (ids : List RpcId)
      → is_bindable row ≡ true
      → OwnedBy connections row.connection_id c s
      → rpc_ids setup s ≡ some ids
      → LateBinding setup connections row (bind_to c s ids row)
  unfolding bind_to
  bind_to-LateBinding c [] ids b o h = absurd (omega (arith, o.nonempty))
  bind_to-LateBinding c (x ∷ []) ids b o h =
      let (id, p, q) = rpc_ids_one setup x ids h in
      rw q (
        LateBinding.resolved o.generation c x id b o.key_is o.found
          (sorted_one x c.requests o.requests) p refl)
  bind_to-LateBinding c (x ∷ y ∷ s) ids b o h =
      LateBinding.shared o.generation c ids b o.key_is o.found
        (omega (arith, length-sorted c.requests, ap length o.requests)) (rw o.requests h) refl

  bind_row-LateBinding :
      (after : Row) (counted : Bool)
      → bind_row setup connections row ≡ some (after, counted)
      → LateBinding setup connections row after
  unfolding bind_row
  bind_row-LateBinding after counted h = elim (Bool-cases (is_bindable row)) [
    | inr p ↦
        let e : (row, false) ≡ (after, counted) = some_injective (rw (p, bind_row) at h) in
        LateBinding.skipped (inl p) (ap (λ z. z.0) (sym e))
    | inl p ↦ elim (Option-cases (owned connections row.connection_id)) [
      | inl q ↦
          let e : (row, false) ≡ (after, counted) = some_injective (rw (p, q, bind_row) at h) in
          LateBinding.skipped (inr q) (ap (λ z. z.0) (sym e))
      | inr ((c, s), q) ↦ elim (Option-cases (rpc_ids setup s)) [
        | inl r ↦ absurd (none≢some (rw (p, q, r, bind_row) at h))
        | inr (ids, r) ↦
            let e : (bind_to c s ids row, true) ≡ (after, counted) =
              some_injective (rw (p, q, r, bind_row) at h) in
            let owner = owned-OwnedBy connections row.connection_id c s q in
            subst (LateBinding setup connections row) (ap (λ z. z.0) e)
              (bind_to-LateBinding c s ids p owner r)
      ]
    ]
  ]

  bind_row_total :
      IsOwned setup connections
      → (after : Row) × (n : Bool) × (bind_row setup connections row ≡ some (after, n))
  unfolding bind_row
  bind_row_total ok = elim (Bool-cases (is_bindable row)) [
    | inr p ↦ (row, false, rw (p, bind_row))
    | inl p ↦ elim (Option-cases (owned connections row.connection_id)) [
      | inl q ↦ (row, false, rw (p, q, bind_row))
      | inr ((c, s), q) ↦
          let owner = owned-OwnedBy connections row.connection_id c s q in
          let known : All (HasId setup) s =
            subst (All (HasId setup)) owner.requests
              (All-sorted (HasId setup) c.requests (ok.at owner.generation c owner.found)) in
          let (ids, r) = rpc_ids_total setup s known in
          (bind_to c s ids row, true, rw (p, q, r, bind_row))
    ]
  ]

-- the two lists have the same length and their elements are related one by one
abbrev pub Pairwise : (Row → Row → Type 0) → List Row → List Row → Type 0
Pairwise R [] [] = Unit
Pairwise R (x ∷ xs) (y ∷ ys) = R x y × Pairwise R xs ys
Pairwise R [] (y ∷ ys) = ⊥
Pairwise R (x ∷ xs) [] = ⊥

-- Where every connection is of requests that have ids, the binding of the rows raises nothing, keeps
-- their number and order, and each row is left as it is, bound to the only request of its
-- connection, or marked as ambiguous.
pub bind_socket_reads-LateBinding :
    (setup : Setup) (connections : Dict ℕ Connection) (rows : List Row)
    → IsOwned setup connections
    → (after : List Row) × (n : ℕ) × (bind_socket_reads setup connections rows ≡ some (after, n))
      × Pairwise (LateBinding setup connections) rows after
unfolding bind_socket_reads
bind_socket_reads-LateBinding setup connections [] ok = ([], 0, refl, tt)
bind_socket_reads-LateBinding setup connections (row ∷ rows) ok =
    let (after, counted, p) = bind_row_total setup connections row ok in
    let (rest, n, q, pairs) = bind_socket_reads-LateBinding setup connections rows ok in
    (
      after ∷ rest,
      tally counted n,
      rw (p, q, bind_socket_reads),
      (bind_row-LateBinding setup connections row after counted p, pairs),
    )

LateBinding-IsClassified :
    (setup : Setup) (connections : Dict ℕ Connection) (before after : Row)
    → LateBinding setup connections before after
    → IsClassified before
    → IsClassified after
LateBinding-IsClassified setup connections b a (LateBinding.skipped _ p) h = rw p h
LateBinding-IsClassified setup connections b a (LateBinding.resolved _ _ _ id _ _ _ _ _ p) h =
    rw p (id, refl, refl)
LateBinding-IsClassified setup connections b a (LateBinding.shared _ _ _ _ _ _ _ _ p) h =
    rw p (refl, refl)

-- classified rows stay so
pub Pairwise-IsClassified :
    (setup : Setup) (connections : Dict ℕ Connection) (rows after : List Row)
    → Pairwise (LateBinding setup connections) rows after
    → All IsClassified rows
    → All IsClassified after
Pairwise-IsClassified setup connections [] [] p h = tt
Pairwise-IsClassified setup connections [] (y ∷ ys) p h = absurd p
Pairwise-IsClassified setup connections (x ∷ xs) [] p h = absurd p
Pairwise-IsClassified setup connections (x ∷ xs) (y ∷ ys) p h = (
  LateBinding-IsClassified setup connections x y p.0 h.0,
  Pairwise-IsClassified setup connections xs ys p.1 h.1,
)
