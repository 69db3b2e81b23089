-- ===== src/Attribution/Initialize/Closure.antt =====
-- Whose requests a context stands for (`_initialize` of attribute.py): the owners that the loop
-- computes, against the joins of the map.
use causpan.Prelude.{
  ℕ, ◌≡◌, refl, sym, ◌∙◌, ◌⊎◌, inl, inr, ◌↔◌, subst, Option, none, some, none≢some, some_injective,
  List, [], ◌∷◌, Dict, get, has, true, ◌==◌, nat_eq, member, get-put, member-union, Bool-cases,
  Option-cases, arith,
}
use mathlib.Core.Bool.{false≢true}
use causpan.Attribution.Types.{RpcId, MapRecord, Error}
use causpan.Attribution.Initialize.{context_of, parents_owners, owners_from}
use causpan.Attribution.Initialize.Owners.{
  ParentsIn, IsOrdered, SameKeys, entry, grown, put-SameKeys, owners_from-step, owners_from-stable,
  ParentsIn-same, ParentsIn-has,
}

-- the record is one of the map
abbrev pub Among : MapRecord → List MapRecord → Type 0
Among r [] = ⊥
Among r (q ∷ qs) = (q ≡ r) ⊎ Among r qs

-- A request belongs to a context if it is that context, or belongs to a parent of that join.
pub data Owns (records : List MapRecord) : ℕ → ℕ → Type 0 where
  itself : (c : ℕ) (id : Option RpcId) → Among (MapRecord.request c id) records → Owns records c c
  inherited :
      (c p x : ℕ) (parents : List ℕ)
      → Among (MapRecord.join c parents) records
      → member p parents ≡ true
      → Owns records p x
      → Owns records c x

-- a parent that gives x to a join
pub record Gives (owners : Dict ℕ (List ℕ)) (ps : List ℕ) (x : ℕ) : Type 0 where
  pub parent : ℕ
  pub set : List ℕ
  pub among : member parent ps ≡ true
  pub found : get parent owners ≡ some set
  pub contains : member x set ≡ true

abbrev found_owners : Dict ℕ (List ℕ) → ℕ → List ℕ
found_owners owners p = elim (get p owners) [ none ↦ [] | some s ↦ s ]

found_owners-some :
    (owners : Dict ℕ (List ℕ)) (p : ℕ) (s : List ℕ)
    → get p owners ≡ some s
    → found_owners owners p ≡ s
found_owners-some owners p s h = rw (h, found_owners) refl

found_owners-none :
    (owners : Dict ℕ (List ℕ)) (p : ℕ) → get p owners ≡ none → found_owners owners p ≡ []
found_owners-none owners p h = rw (h, found_owners) refl

member-parents_owners :
    (owners : Dict ℕ (List ℕ)) (ps : List ℕ) (x : ℕ)
    → member x (parents_owners owners ps) ≡ true
    → Gives owners ps x
unfolding parents_owners member
member-parents_owners owners [] x h = absurd (false≢true h)
member-parents_owners owners (p ∷ ps) x h = elim (Bool-cases (member x (found_owners owners p))) [
  | inr k ↦
      let rest =
        member-parents_owners owners ps x (
          ground
            (arith, k, h, member-union x (found_owners owners p) (parents_owners owners ps))) in
      record {
        parent = rest.parent;
        set = rest.set;
        among = ground (arith, rest.among);
        found = rest.found;
        contains = rest.contains;
      }
  | inl k ↦ elim (Option-cases (get p owners)) [
    | inl q ↦ absurd (false≢true (subst (λ s. member x s ≡ true) (found_owners-none owners p q) k))
    | inr (s, q) ↦ record {
      parent = p;
      set = s;
      among = ground arith;
      found = q;
      contains = subst (λ z. member x z ≡ true) (found_owners-some owners p s q) k;
    }
  ]
]

parents_owners-member :
    (owners : Dict ℕ (List ℕ)) (ps : List ℕ) (x p : ℕ) (s : List ℕ)
    → member p ps ≡ true
    → get p owners ≡ some s
    → member x s ≡ true
    → member x (parents_owners owners ps) ≡ true
unfolding parents_owners member
parents_owners-member owners [] x p s m g k = absurd (false≢true m)
parents_owners-member owners (q ∷ ps) x p s m g k = elim (Bool-cases (q == p)) [
  | inl here ↦
      let e : q ≡ p = ground arith in
      rw e (ground (arith, g, k, member-union x s (parents_owners owners ps)))
  | inr there ↦ ground (
    arith,
    parents_owners-member owners ps x p s (ground arith) g k,
    member-union x (found_owners owners q) (parents_owners owners ps),
  )
]

-- every owner that the dict gives is one by the map
abbrev AllOwn : List MapRecord → Dict ℕ (List ℕ) → Type 0
AllOwn records owners =
    (c : ℕ) (s : List ℕ) (x : ℕ) → get c owners ≡ some s → member x s ≡ true → Owns records c x

entry-Owns :
    (records : List MapRecord) (owners : Dict ℕ (List ℕ)) (r : MapRecord) (x : ℕ)
    → Among r records
    → AllOwn records owners
    → member x (entry owners r) ≡ true
    → Owns records (context_of r) x
unfolding member
entry-Owns records owners (MapRecord.request c id) x among own h =
    let e : c ≡ x = ground arith in subst (Owns records c) e (Owns.itself c id among)
entry-Owns records owners (MapRecord.join c ps) x among own h =
    let g = member-parents_owners owners ps x h in
    Owns.inherited c g.parent x ps among g.among (own g.parent g.set x g.found g.contains)

grown-AllOwn :
    (records : List MapRecord) (owners : Dict ℕ (List ℕ)) (r : MapRecord)
    → Among r records
    → AllOwn records owners
    → AllOwn records (grown owners r)
grown-AllOwn records owners r among own c s x h m = elim (Bool-cases (context_of r == c)) [
  | inl here ↦
      let e : entry owners r ≡ s =
        some_injective (ground (arith, get-put (context_of r) c (entry owners r) owners)) in
      let place : context_of r ≡ c = ground arith in
      subst (λ d. Owns records d x) place
        (entry-Owns records owners r x among own (subst (λ z. member x z ≡ true) (sym e) m))
  | inr there ↦ own c s x (ground (arith, get-put (context_of r) c (entry owners r) owners)) m
]

owners_from-AllOwn :
    (records : List MapRecord) (seen : List ℕ) (owners : Dict ℕ (List ℕ)) (errors : List Error)
    (rs : List MapRecord)
    → SameKeys seen owners
    → IsOrdered seen rs
    → ((r : MapRecord) → Among r rs → Among r records)
    → AllOwn records owners
    → AllOwn records (owners_from (owners, errors) rs).0
unfolding owners_from
owners_from-AllOwn records seen owners errors [] same h sub own = own
owners_from-AllOwn records seen owners errors (r ∷ rs) same h sub own =
    rw (owners_from-step seen owners errors r rs same h) (
      owners_from-AllOwn records (context_of r ∷ seen) (grown owners r) errors rs
        (put-SameKeys seen owners (context_of r) (entry owners r) same) h.3
        (λ q among. sub q (inr among)) (grown-AllOwn records owners r (sub r (inl refl)) own))

-- What the whole loop leaves of a record: its entry, made of parents that stay as they were.
record Settled (final : Dict ℕ (List ℕ)) (r : MapRecord) : Type 0 where
  owners : Dict ℕ (List ℕ)
  at : get (context_of r) final ≡ some (entry owners r)
  parents_kept : (p : ℕ) → has p owners ≡ true → get p final ≡ get p owners
  parents_in : ParentsIn (λ q. has q owners) r

first_settled :
    (seen : List ℕ) (owners : Dict ℕ (List ℕ)) (errors : List Error) (q : MapRecord)
    (qs : List MapRecord)
    → SameKeys seen owners
    → IsOrdered seen (q ∷ qs)
    → get (context_of q) (owners_from (owners, errors) (q ∷ qs)).0 ≡ some (entry owners q)
first_settled seen owners errors q qs same h =
    let kept =
      owners_from-stable (context_of q ∷ seen) (grown owners q) errors qs (context_of q)
        (put-SameKeys seen owners (context_of q) (entry owners q) same) h.3
        (unfold member in ground arith) in
    rw (owners_from-step seen owners errors q qs same h)
      (ground (arith, kept, get-put (context_of q) (context_of q) (entry owners q) owners))

owners_from-Settled :
    (seen : List ℕ) (owners : Dict ℕ (List ℕ)) (errors : List Error) (rs : List MapRecord)
    (r : MapRecord)
    → SameKeys seen owners
    → IsOrdered seen rs
    → Among r rs
    → Settled (owners_from (owners, errors) rs).0 r
owners_from-Settled seen owners errors [] r same h among = absurd among
owners_from-Settled seen owners errors (q ∷ qs) r same h (inr among) =
    rw (owners_from-step seen owners errors q qs same h) (
      owners_from-Settled (context_of q ∷ seen) (grown owners q) errors qs r
        (put-SameKeys seen owners (context_of q) (entry owners q) same) h.3 among)
owners_from-Settled seen owners errors (q ∷ qs) r same h (inl e) =
    subst (Settled (owners_from (owners, errors) (q ∷ qs)).0) e (record {
      owners = owners;
      at = first_settled seen owners errors q qs same h;
      parents_kept = λ p k. owners_from-stable seen owners errors (q ∷ qs) p same h (same p ∙ k);
      parents_in = ParentsIn-same seen owners q same h.2;
    })

no_owners-SameKeys : SameKeys [] []
unfolding member get
no_owners-SameKeys c = refl

Owns-member :
    (records : List MapRecord) (c x : ℕ)
    → IsOrdered [] records
    → Owns records c x
    → (s : List ℕ) × (get c (owners_from ([], []) records).0 ≡ some s) × (member x s ≡ true)
unfolding member
Owns-member records c x h (Owns.itself _ id among) =
    let settled =
      owners_from-Settled [] [] [] records (MapRecord.request c id) no_owners-SameKeys h among in
    (c ∷ [], settled.at, ground arith)
Owns-member records c x h (Owns.inherited _ p _ ps among m own) =
    let settled =
      owners_from-Settled [] [] [] records (MapRecord.join c ps) no_owners-SameKeys h among in
    let (s, g, k) = Owns-member records p x h own in
    let known = ParentsIn-has (λ q. has q settled.owners) c p ps settled.parents_in m in
    (
      parents_owners settled.owners ps,
      settled.at,
      parents_owners-member settled.owners ps x p s m (sym (settled.parents_kept p known) ∙ g) k,
    )

-- Of an ordered map, whose contexts are new one by one and whose joins name only parents before
-- them, the computed owners of a context are exactly the requests that belong to it.
pub owners_from-Owns :
    (records : List MapRecord) (c x : ℕ)
    → IsOrdered [] records
    → ((s : List ℕ) × (get c (owners_from ([], []) records).0 ≡ some s) × (member x s ≡ true))
      ↔ Owns records c x
unfolding get
owners_from-Owns records c x h = (
  λ (s, g, m).
      owners_from-AllOwn records [] [] [] records no_owners-SameKeys h (λ r among. among)
        (λ d t y k n. absurd (none≢some k)) c s x g m,
  λ own. Owns-member records c x h own,
)
