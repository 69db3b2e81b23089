-- ===== src/Attribution/Initialize/Owners.antt =====
-- The owners of the contexts of an accepted request map (`_initialize` of attribute.py).
use causpan.Prelude.{
  ℕ, ◌≡◌, refl, sym, ◌∙◌, ap, List, [], ◌∷◌, Dict, get, put, has, All, All_map, All-member, Bool,
  true, false, ◌==◌, not, nat_eq, member, any, get-put, has-put, arith,
}
use causpan.Attribution.Types.{MapRecord, Error}
use causpan.Attribution.Initialize.{
  context_of, parents_owners, is_bad_join, add_owners, owners_from,
}

-- A record whose parents were seen.
abbrev pub ParentsIn : (ℕ → Bool) → MapRecord → Type 0
ParentsIn seen (MapRecord.request context id) = Unit
ParentsIn seen (MapRecord.join context []) = ⊥
ParentsIn seen (MapRecord.join context (p ∷ ps)) = All (λ q. seen q ≡ true) (p ∷ ps)

-- Each record has a new context above 0 and the parents of a join come before it.
abbrev pub IsOrdered : List ℕ → List MapRecord → Type 0
IsOrdered seen [] = Unit
IsOrdered seen (r ∷ rs) =
    (member (context_of r) seen ≡ false)
    × ((context_of r == 0) ≡ false)
    × ParentsIn (λ q. member q seen) r
    × IsOrdered (context_of r ∷ seen) rs

pub ParentsIn-has :
    (seen : ℕ → Bool) (c p : ℕ) (ps : List ℕ)
    → ParentsIn seen (MapRecord.join c ps)
    → member p ps ≡ true
    → seen p ≡ true
unfolding member
ParentsIn-has seen c p [] h m = absurd h
ParentsIn-has seen c p (q ∷ qs) h m = All-member (λ r. seen r ≡ true) p (q ∷ qs) h m

-- what the loop gives an ordered record
abbrev pub entry : Dict ℕ (List ℕ) → MapRecord → List ℕ
entry owners (MapRecord.request context id) = context ∷ []
entry owners (MapRecord.join context parents) = parents_owners owners parents

no_bad_parent :
    (owners : Dict ℕ (List ℕ)) (ps : List ℕ)
    → All (λ q. has q owners ≡ true) ps
    → any (λ q. not (has q owners)) ps ≡ false
no_bad_parent owners [] h = refl
no_bad_parent owners (p ∷ ps) h = ground (arith, h.0, no_bad_parent owners ps h.1)

add_owners-entry :
    (owners : Dict ℕ (List ℕ)) (errors : List Error) (r : MapRecord)
    → ParentsIn (λ q. has q owners) r
    → add_owners r (owners, errors) ≡ (put (context_of r) (entry owners r) owners, errors)
unfolding add_owners is_bad_join
add_owners-entry owners errors (MapRecord.request c id) h = refl
add_owners-entry owners errors (MapRecord.join c []) h = absurd h
add_owners-entry owners errors (MapRecord.join c (p ∷ ps)) h =
    rw (no_bad_parent owners (p ∷ ps) h, add_owners) refl

-- the contexts seen are those that have owners
abbrev pub SameKeys : List ℕ → Dict ℕ (List ℕ) → Type 0
SameKeys seen owners = (c : ℕ) → member c seen ≡ has c owners

pub put-SameKeys :
    (seen : List ℕ) (owners : Dict ℕ (List ℕ)) (c : ℕ) (s : List ℕ)
    → SameKeys seen owners
    → SameKeys (c ∷ seen) (put c s owners)
unfolding member
put-SameKeys seen owners c s same d = ground (arith, has-put c d s owners, same d)

All-same :
    (seen : List ℕ) (owners : Dict ℕ (List ℕ)) (ps : List ℕ)
    → SameKeys seen owners
    → All (λ q. member q seen ≡ true) ps
    → All (λ q. has q owners ≡ true) ps
All-same seen owners ps same h = All_map _ _ ps (λ q k. sym (same q) ∙ k) h

pub ParentsIn-same :
    (seen : List ℕ) (owners : Dict ℕ (List ℕ)) (r : MapRecord)
    → SameKeys seen owners
    → ParentsIn (λ q. member q seen) r
    → ParentsIn (λ q. has q owners) r
ParentsIn-same seen owners (MapRecord.request c id) same h = h
ParentsIn-same seen owners (MapRecord.join c []) same h = h
ParentsIn-same seen owners (MapRecord.join c (p ∷ ps)) same h = All-same seen owners (p ∷ ps) same h

-- the owners after one ordered record
abbrev pub grown : Dict ℕ (List ℕ) → MapRecord → Dict ℕ (List ℕ)
grown owners r = put (context_of r) (entry owners r) owners

pub owners_from-step :
    (seen : List ℕ) (owners : Dict ℕ (List ℕ)) (errors : List Error) (r : MapRecord)
    (rs : List MapRecord)
    → SameKeys seen owners
    → IsOrdered seen (r ∷ rs)
    → owners_from (owners, errors) (r ∷ rs) ≡ owners_from (grown owners r, errors) rs
unfolding owners_from
owners_from-step seen owners errors r rs same h =
    ap (λ state. owners_from state rs)
      (add_owners-entry owners errors r (ParentsIn-same seen owners r same h.2))

-- Of an ordered map no record is refused: the loop adds no diagnostic.
pub owners_from-errors :
    (seen : List ℕ) (owners : Dict ℕ (List ℕ)) (errors : List Error) (rs : List MapRecord)
    → SameKeys seen owners
    → IsOrdered seen rs
    → (owners_from (owners, errors) rs).1 ≡ errors
unfolding owners_from
owners_from-errors seen owners errors [] same h = refl
owners_from-errors seen owners errors (r ∷ rs) same h =
    rw (owners_from-step seen owners errors r rs same h) (
      owners_from-errors (context_of r ∷ seen) (grown owners r) errors rs
        (put-SameKeys seen owners (context_of r) (entry owners r) same) h.3)

-- the owners of a context that was seen do not change any more
pub owners_from-stable :
    (seen : List ℕ) (owners : Dict ℕ (List ℕ)) (errors : List Error) (rs : List MapRecord) (c : ℕ)
    → SameKeys seen owners
    → IsOrdered seen rs
    → member c seen ≡ true
    → get c (owners_from (owners, errors) rs).0 ≡ get c owners
unfolding owners_from member
owners_from-stable seen owners errors [] c same h old = refl
owners_from-stable seen owners errors (r ∷ rs) c same h old =
    let kept =
      owners_from-stable (context_of r ∷ seen) (grown owners r) errors rs c
        (put-SameKeys seen owners (context_of r) (entry owners r) same) h.3 (ground arith) in
    let apart : (context_of r == c) ≡ false = ground (arith, h.0) in
    rw (owners_from-step seen owners errors r rs same h)
      (ground (arith, kept, get-put (context_of r) c (entry owners r) owners))
