-- ===== src/Attribution/Initialize/Start.antt =====
-- The start of a run on an accepted request map (`_initialize` of attribute.py), and the whole of
-- `attribute` from it.
use causpan.Prelude.{
  ℕ, String, ◌≡◌, refl, ◌∙◌, ap, inl, inr, subst, Option, some, none≢some, List, [], ◌∷◌, Dict, get,
  put, has, All, true, false, ◌==◌, nat_eq, pair_eq, string_eq, member, get-put, Json, ==_refl,
  Bool-cases, arith,
}
use causpan.Attribution.Types.{RpcId, MapRecord}
use causpan.Attribution.Syscalls.Owned.{HasId, IsSetup}
use causpan.Attribution.Rows.Fits.{IsClassified}
use causpan.Attribution.Trace.Total.{IsWell}
use causpan.Attribution.Run.{Observed, Sources, Output, attribute}
use causpan.Attribution.Run.Well.{IsKnownNote}
use causpan.Attribution.Run.Closed.{attribute-IsClassified}
use causpan.Attribution.Mapping.{load_request_mapping}
use causpan.Attribution.Mapping.Load.{load_request_mapping-IsOrdered}
use causpan.Attribution.Initialize.{
  context_of, mapping_from, roots_of, Config, setup_of, initial_runtime, initialize,
}
use causpan.Attribution.Initialize.Owners.{IsOrdered}
use causpan.Attribution.Initialize.Closure.{Among, Owns, owners_from-Owns}

mapping_from-stable :
    (seen : List ℕ) (d : Dict ℕ MapRecord) (rs : List MapRecord) (c : ℕ)
    → IsOrdered seen rs
    → member c seen ≡ true
    → get c (mapping_from d rs) ≡ get c d
unfolding mapping_from member
mapping_from-stable seen d [] c h old = refl
mapping_from-stable seen d (r ∷ rs) c h old =
    let kept =
      mapping_from-stable (context_of r ∷ seen) (put (context_of r) r d) rs c h.3 (ground arith) in
    let apart : (context_of r == c) ≡ false = ground (arith, h.0) in
    ground (arith, kept, get-put (context_of r) c r d)

-- the mapping has every record under its context
mapping_from-get :
    (seen : List ℕ) (d : Dict ℕ MapRecord) (rs : List MapRecord) (r : MapRecord)
    → IsOrdered seen rs
    → Among r rs
    → get (context_of r) (mapping_from d rs) ≡ some r
unfolding mapping_from member
mapping_from-get seen d [] r h among = absurd among
mapping_from-get seen d (q ∷ qs) r h (inr among) =
    mapping_from-get (context_of q ∷ seen) (put (context_of q) q d) qs r h.3 among
mapping_from-get seen d (q ∷ qs) r h (inl e) =
    subst (λ z. get (context_of z) (mapping_from d (q ∷ qs)) ≡ some z) e
      (let kept =
          mapping_from-stable (context_of q ∷ seen) (put (context_of q) q d) qs (context_of q) h.3
            (ground arith) in
        ground (arith, kept, get-put (context_of q) (context_of q) q d))

roots_of-get :
    (m : Dict ℕ MapRecord) (x c : ℕ) (id : Option RpcId)
    → get x m ≡ some (MapRecord.request c id)
    → get x (roots_of m) ≡ some id
unfolding get roots_of
roots_of-get [] x c id h = absurd (none≢some h)
roots_of-get ((k, MapRecord.request d i) ∷ m) x c id h = elim (Bool-cases (k == x)) [
  | inl p ↦
      let e : some (MapRecord.request d i) ≡ some (MapRecord.request c id) = rw p at h in
      let same : i ≡ id = cc in rw p (ap some same)
  | inr p ↦ rw p (roots_of-get m x c id (rw p at h))
]
roots_of-get ((k, MapRecord.join d ps) ∷ m) x c id h = elim (Bool-cases (k == x)) [
  | inl p ↦
      let e : some (MapRecord.join d ps) ≡ some (MapRecord.request c id) = rw p at h in absurd cc
  | inr p ↦ roots_of-get m x c id (rw p at h)
]

-- every request of the map names its id
abbrev pub IsIdentified : MapRecord → Type 0
IsIdentified (MapRecord.request c id) = (i : RpcId) × (id ≡ some i)
IsIdentified (MapRecord.join c parents) = Unit

All-Among :
    (records : List MapRecord) (r : MapRecord)
    → All IsIdentified records
    → Among r records
    → IsIdentified r
All-Among [] r h among = absurd among
All-Among (q ∷ qs) r h (inl e) = subst IsIdentified e h.0
All-Among (q ∷ qs) r h (inr among) = All-Among qs r h.1 among

-- what belongs to a context is a request of the map
Owns-request :
    (records : List MapRecord) (c x : ℕ)
    → Owns records c x
    → (id : Option RpcId) × Among (MapRecord.request x id) records
Owns-request records c x (Owns.itself _ id among) = (id, among)
Owns-request records c x (Owns.inherited _ p _ ps among m own) = Owns-request records p x own

All-of_member : (P : ℕ → Type 0) (s : List ℕ) → ((x : ℕ) → member x s ≡ true → P x) → All P s
unfolding member
All-of_member P [] h = tt
All-of_member P (x ∷ s) h =
    (h x (ground (arith, ==_refl x)), All-of_member P s (λ y k. h y (ground arith)))

-- Of an ordered map whose requests name their ids, every owner of a context is a request that names
-- its id and has owners.
pub setup_of-IsSetup :
    (config : Config) (records : List MapRecord)
    → IsOrdered [] records
    → All IsIdentified records
    → IsSetup (setup_of config records)
unfolding setup_of
setup_of-IsSetup config records h ids = record {
  owned = λ r s g. All-of_member (HasId (setup_of config records)) s (λ x m.
      let own = (owners_from-Owns records r x h).0 (s, g, m) in
      let (id, among) = Owns-request records r x own in
      let (i, e) = All-Among records (MapRecord.request x id) ids among in
      let root =
        roots_of-get (mapping_from [] records) x x id
          (mapping_from-get [] [] records (MapRecord.request x id) h among) in
      let (t, k, _) = (owners_from-Owns records x x h).1 (Owns.itself x id among) in
      (i, root ∙ ap some e, rw (k, has) refl));
}

-- The attributor starts well formed.
pub initialize-IsWell :
    (config : Config) (records : List MapRecord)
    → IsWell (setup_of config records) (initialize config records)
unfolding initialize initial_runtime get member
initialize-IsWell config records = record {
  sound = record {
    distinct = tt;
    sockets_allocated = λ t n p. refl;
    marks_allocated = λ t n p. refl;
    tables_allocated = λ pid t p. absurd (none≢some p);
    connected = λ t n g p. absurd (none≢some p);
    fresh = λ g p. refl;
  };
  owned = record { at = λ g c p. absurd (none≢some p) };
  consistent = record {
    phased = λ j w p. absurd (none≢some p);
    active_runs = λ tid j p. absurd (none≢some p);
    running_active = λ j w tid p. absurd (none≢some p);
  };
  state_known = λ t c p. absurd (none≢some p);
  inherited_known = λ t c p. absurd (none≢some p);
  classified = tt;
}

-- On an accepted request map whose requests name their ids, and over any trace whose markers name no
-- request or one of the map, `attribute` comes to an output from its initial state, and each row
-- of it is classified: a bound row has one request id and names it, one of several parents has at
-- least two and names none, and any other row has none.
pub initialize-attribute :
    (config : Config) (sources : Sources) (lines : List (Option (List (String × Json))))
    (records : List MapRecord) (os : List Observed)
    → load_request_mapping lines ≡ some records
    → All IsIdentified records
    → All (IsKnownNote (setup_of config records)) os
    → (o : Output) × (attribute (setup_of config records) sources os (initialize config records)
        ≡ some o)
      × All IsClassified o.rows
initialize-attribute config sources lines records os h ids known =
    attribute-IsClassified (setup_of config records) sources os (initialize config records)
      (setup_of-IsSetup config records (load_request_mapping-IsOrdered lines records h).0 ids) known
      (initialize-IsWell config records)
