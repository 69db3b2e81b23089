-- ===== src/Oracle/Owners.antt =====
-- The label that the path oracle of analyze.py gives an event.
use causpan.Prelude.{
  ◌≡◌, refl, sym, ◌∙◌, ◌↔◌, inl, inr, subst, ap, String, string_eq, string_eq_iff, none, some,
  none≢some, some_injective, List, [], ◌∷◌, Dict, get, put, get-put, Bool, true, false, ◌&&◌, ◌||◌,
  ◌==◌, member, add, member-add, member-union, IsUnique, add-IsUnique, union-IsUnique, one_member,
  List-cases, any, Bool-cases, Option-cases, arith, if◌then◌else◌,
}
use causpan.Attribution.Types.{RpcId, Event}
use causpan.Attribution.RpcIds.{rpc_eq}
use causpan.Oracle.{Call, own, own_all, call_paths, owners_of, possible_owners, truth_of}

-- the id owns the path
abbrev pub owns : RpcId → String → Dict String (List RpcId) → Bool
owns id path owners = elim (get path owners) [ none ↦ false | some ids ↦ member id ids ]

-- a call of the id names the path
abbrev pub names : RpcId → String → Dict RpcId Call → Bool
names id path [] = false
names id path ((_, c) ∷ calls) = (c.id == id && member path (call_paths c)) || names id path calls

owns-put :
    (j : RpcId) (path p : String) (ids : List RpcId) (owners : Dict String (List RpcId))
    → owns j p (put path ids owners) ≡ (if path == p then member j ids else owns j p owners)
owns-put j path p ids owners = ground (arith, get-put path p ids owners)

owns_same :
    (j : RpcId) (path p : String) (owners : Dict String (List RpcId))
    → (path == p) ≡ true
    → owns j p owners ≡ owns j path owners
owns_same j path p owners e = ap (λ k. owns j k owners) (sym ((string_eq_iff path p).0 e))

owns-own :
    (id j : RpcId) (path p : String) (owners : Dict String (List RpcId))
    → owns j p (own id path owners) ≡ ((path == p && id == j) || owns j p owners)
unfolding own member
owns-own id j path p owners = elim (Option-cases (get path owners)) [
  | inl q ↦
      rw (q, own)
        (ground (
          arith,
          owns-put j path p (add id []) owners,
          owns_same j path p owners,
          member-add id j [],
          q,
        ))
  | inr (ids, q) ↦
      rw (q, own)
        (ground (
          arith,
          owns-put j path p (add id ids) owners,
          owns_same j path p owners,
          member-add id j ids,
          q,
        ))
]

owns-own_all :
    (id j : RpcId) (paths : List String) (p : String) (owners : Dict String (List RpcId))
    → owns j p (own_all id paths owners) ≡ ((member p paths && id == j) || owns j p owners)
unfolding own_all member
owns-own_all id j [] p owners = refl
owns-own_all id j (path ∷ paths) p owners =
    ground (arith, owns-own_all id j paths p (own id path owners), owns-own id j path p owners)

owns-owners_of :
    (j : RpcId) (calls : Dict RpcId Call) (p : String) (owners : Dict String (List RpcId))
    → owns j p (owners_of calls owners) ≡ (names j p calls || owns j p owners)
unfolding owners_of
owns-owners_of j [] p owners = refl
owns-owners_of j ((_, c) ∷ calls) p owners = ground (
  arith,
  owns-owners_of j calls p (own_all c.id (call_paths c) owners),
  owns-own_all c.id j (call_paths c) p owners,
)

member-possible_owners :
    (j : RpcId) (owners : Dict String (List RpcId)) (paths : List String)
    → member j (possible_owners owners paths) ≡ any (λ p. owns j p owners) paths
unfolding possible_owners member
member-possible_owners j owners [] = refl
member-possible_owners j owners (p ∷ paths) = elim (Option-cases (get p owners)) [
  | inl q ↦ rw (q, possible_owners) (ground (arith, member-possible_owners j owners paths))
  | inr (ids, q) ↦
      rw (q, possible_owners)
        (ground (
          arith,
          member-possible_owners j owners paths,
          member-union j ids (possible_owners owners paths),
        ))
]

-- each set of owners is a set
abbrev AreSets : Dict String (List RpcId) → Type 0
AreSets owners = (p : String) (ids : List RpcId) → get p owners ≡ some ids → IsUnique ids

put-AreSets :
    (path : String) (ids : List RpcId) (owners : Dict String (List RpcId))
    → IsUnique ids
    → AreSets owners
    → AreSets (put path ids owners)
put-AreSets path ids owners u s p js g = elim (Bool-cases (path == p)) [
  | inl e ↦
      subst (λ l. IsUnique l) (some_injective (rw e at (sym (get-put path p ids owners) ∙ g))) u
  | inr e ↦ s p js (rw e at (sym (get-put path p ids owners) ∙ g))
]

own-AreSets :
    (id : RpcId) (path : String) (owners : Dict String (List RpcId))
    → AreSets owners
    → AreSets (own id path owners)
unfolding own
own-AreSets id path owners s = elim (Option-cases (get path owners)) [
  | inl q ↦ rw (q, own) (put-AreSets path (add id []) owners (add-IsUnique id [] tt) s)
  | inr (ids, q) ↦
      rw (q, own) (put-AreSets path (add id ids) owners (add-IsUnique id ids (s path ids q)) s)
]

own_all-AreSets :
    (id : RpcId) (paths : List String) (owners : Dict String (List RpcId))
    → AreSets owners
    → AreSets (own_all id paths owners)
unfolding own_all
own_all-AreSets id [] owners s = s
own_all-AreSets id (path ∷ paths) owners s =
    own_all-AreSets id paths (own id path owners) (own-AreSets id path owners s)

owners_of-AreSets :
    (calls : Dict RpcId Call) (owners : Dict String (List RpcId))
    → AreSets owners
    → AreSets (owners_of calls owners)
unfolding owners_of
owners_of-AreSets [] owners s = s
owners_of-AreSets ((_, c) ∷ calls) owners s =
    owners_of-AreSets calls (own_all c.id (call_paths c) owners)
      (own_all-AreSets c.id (call_paths c) owners s)

possible_owners-IsUnique :
    (owners : Dict String (List RpcId)) (paths : List String)
    → AreSets owners
    → IsUnique (possible_owners owners paths)
unfolding possible_owners
possible_owners-IsUnique owners [] s = tt
possible_owners-IsUnique owners (p ∷ paths) s = elim (Option-cases (get p owners)) [
  | inl q ↦ rw (q, possible_owners) (possible_owners-IsUnique owners paths s)
  | inr (ids, q) ↦
      rw (q, possible_owners) (union-IsUnique ids (possible_owners owners paths) (s p ids q))
]

-- a call of the id names a path of the event
abbrev pub names_any : RpcId → Dict RpcId Call → List String → Bool
names_any id calls [] = false
names_any id calls (p ∷ paths) = names id p calls || names_any id calls paths

any-owns :
    (id : RpcId) (calls : Dict RpcId Call) (paths : List String)
    → any (λ p. owns id p (owners_of calls [])) paths ≡ names_any id calls paths
unfolding get
any-owns id calls [] = refl
any-owns id calls (p ∷ paths) =
    ground (arith, any-owns id calls paths, owns-owners_of id calls p [])

possible-names :
    (id : RpcId) (calls : Dict RpcId Call) (paths : List String)
    → member id (possible_owners (owners_of calls []) paths) ≡ names_any id calls paths
possible-names id calls paths =
    member-possible_owners id (owners_of calls []) paths ∙ any-owns id calls paths

no_owners-AreSets : AreSets []
unfolding get
no_owners-AreSets p ids g = absurd (none≢some g)

-- The path oracle gives an event a label exactly if a call of that id names a path of the event and
-- no call of another id names any of them.
pub truth_of-only :
    (calls : Dict RpcId Call) (e : Event) (id : RpcId)
    → (truth_of (owners_of calls []) e ≡ some id) ↔ (
        (names_any id calls e.paths ≡ true)
        × ((j : RpcId) → names_any j calls e.paths ≡ true → j ≡ id))
unfolding truth_of member
truth_of-only calls e id = (
  λ h.
      let owners = owners_of calls [] in
      elim (List-cases (possible_owners owners e.paths)) [
        | inl p ↦ absurd (none≢some (rw (p, truth_of) at h))
        | inr (x, [], p) ↦
            let same : x ≡ id = some_injective (rw (p, truth_of) at h) in
            (
              sym (possible-names id calls e.paths)
                  ∙ (ap (λ l. member id l) p ∙ ground (arith, rpc_eq.same_iff x id)),
              λ j k.
                  let found : member j (x ∷ []) ≡ true =
                    subst (λ l. member j l ≡ true) p (possible-names j calls e.paths ∙ k) in
                  ground (arith, rpc_eq.same_iff x j),
            )
        | inr (x, y ∷ more, p) ↦ absurd (none≢some (rw (p, truth_of) at h))
      ],
  λ (m, only).
      let owners = owners_of calls [] in
      let one =
        one_member id (possible_owners owners e.paths)
          (possible_owners-IsUnique owners e.paths (owners_of-AreSets calls [] no_owners-AreSets))
          (possible-names id calls e.paths ∙ m)
          (λ y k. only y (sym (possible-names y calls e.paths) ∙ k)) in
      rw (one, truth_of) refl,
)
