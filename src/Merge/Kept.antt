-- ===== src/Merge/Kept.antt =====
-- What `merge` of merge_graphs.py keeps of the nodes of the trace.
use causpan.Prelude.{
  Bool, Option, String, string_eq, Json, get-put, ◌&&◌, if◌then◌else◌, ◌≡◌, refl, sym, ◌∙◌, inl,
  inr, subst, ap, none, some, none≢some, some_injective, List, [], ◌∷◌, Dict, get, has, put, true,
  false, member, Text, Bool-cases, Option-cases, arith,
}
use causpan.Attribution.Types.{RpcId}
use causpan.Attribution.RpcIds.{rpc_eq}
use causpan.Merge.{
  Item, text_eq, edge_key_eq, key_of, is_node, is_edge, prefix_id, remap_ids, Merging, add_edge,
  merge_strace, fill_node, merge_nodes, merge_edges, or_else, fill_others, option_beq, text_beq,
  text_beq_iff,
}

-- the record of a native one in the merged graph
abbrev pub in_merged : Dict Text Text → Item → Item
in_merged id_map r = remap_ids id_map (prefix_id r)

-- The second record has every field of the first, with the same value.
pub record IsExtended (r q : Item) : Type 0 where
  pub type : (v : String) → r.type ≡ some v → q.type ≡ some v
  pub kind : (v : String) → r.kind ≡ some v → q.kind ≡ some v
  pub id : (v : Text) → r.id ≡ some v → q.id ≡ some v
  pub source : (v : Text) → r.source ≡ some v → q.source ≡ some v
  pub target : (v : Text) → r.target ≡ some v → q.target ≡ some v
  pub rpc_id : (v : RpcId) → r.rpc_id ≡ some v → q.rpc_id ≡ some v
  pub others : (k : String) (v : Json) → get k r.others ≡ some v → get k q.others ≡ some v

IsExtended-refl : (r : Item) → IsExtended r r
IsExtended-refl r = record {
  type = λ v h. h;
  kind = λ v h. h;
  id = λ v h. h;
  source = λ v h. h;
  target = λ v h. h;
  rpc_id = λ v h. h;
  others = λ k v h. h;
}

IsExtended-trans : (a b c : Item) → IsExtended a b → IsExtended b c → IsExtended a c
IsExtended-trans a b c f g = record {
  type = λ v h. g.type v (f.type v h);
  kind = λ v h. g.kind v (f.kind v h);
  id = λ v h. g.id v (f.id v h);
  source = λ v h. g.source v (f.source v h);
  target = λ v h. g.target v (f.target v h);
  rpc_id = λ v h. g.rpc_id v (f.rpc_id v h);
  others = λ k v h. g.others k v (f.others k v h);
}

or_else-some : {A : Type 0} (a b : Option A) (v : A) → a ≡ some v → or_else a b ≡ some v
or_else-some none b v h = absurd (none≢some h)
or_else-some (some a) b v h = h

fill_others-kept :
    (more others : Dict String Json) (k : String) (v : Json)
    → get k others ≡ some v
    → get k (fill_others others more) ≡ some v
unfolding fill_others
fill_others-kept [] others k v h = h
fill_others-kept ((j, w) ∷ more) others k v h =
    fill_others-kept more (if has j others then others else put j w others) k v
      (ground (arith, get-put j k w others, string_eq.same_iff j k, h))

fill_node-IsExtended : (known r : Item) → IsExtended known (fill_node known r)
unfolding fill_node
fill_node-IsExtended known r = record {
  type = or_else-some known.type r.type;
  kind = or_else-some known.kind r.kind;
  id = or_else-some known.id r.id;
  source = or_else-some known.source r.source;
  target = or_else-some known.target r.target;
  rpc_id = or_else-some known.rpc_id r.rpc_id;
  others = fill_others-kept r.others known.others;
}

-- the last node of an id in the trace
abbrev pub last_node : Text → List Item → Option Item
last_node id [] = none
last_node id (r ∷ rs) =
    or_else (last_node id rs)
      (if is_node r && option_beq text_beq r.id (some id) then some r else none)

later_first :
    (l : Option Item) (b : Bool) (r : Item) (g : Option Item)
    → or_else l (if b then some r else g) ≡ or_else (or_else l (if b then some r else none)) g
later_first (some a) b r g = refl
later_first none true r g = refl
later_first none false r g = refl

at_id :
    (r : Item) (j id : Text)
    → is_node r ≡ true
    → r.id ≡ some j
    → (is_node r && option_beq text_beq r.id (some id)) ≡ text_beq j id
at_id r j id p q = simp (p, q) refl

add_edge-nodes : (r : Item) (m : Merging) → (add_edge r m).nodes ≡ m.nodes
unfolding add_edge
add_edge-nodes r m = elim (Bool-cases (member (key_of r) m.seen)) [
  | inl p ↦ rw (p, add_edge) refl
  | inr p ↦ rw (p, add_edge) refl
]

pub merge_strace-last_node :
    (rs : List Item) (m n : Merging)
    → merge_strace rs m ≡ some n
    → (id : Text) → get id n.nodes ≡ or_else (last_node id rs) (get id m.nodes)
unfolding merge_strace add_edge
merge_strace-last_node [] m n h id = ap (λ a. get id a.nodes) (sym (some_injective h))
merge_strace-last_node (r ∷ rs) m n h id = elim (Bool-cases (is_node r)) [
  | inl p ↦ elim (Option-cases r.id) [
    | inl q ↦ absurd (none≢some (simp (p, q, merge_strace) at h))
    | inr (j, q) ↦
        let more =
          merge_strace-last_node rs (record m { nodes = put j r m.nodes }) n
            (simp (p, q, merge_strace) at h) id in
        more
        ∙ rw (at_id r j id p q, get-put j id r m.nodes)
            (later_first (last_node id rs) (text_beq j id) r (get id m.nodes))
  ]
  | inr p ↦ elim (Bool-cases (is_edge r)) [
    | inl q ↦
        let more = merge_strace-last_node rs (add_edge r m) n (simp (p, q, merge_strace) at h) id in
        more ∙ rw (p, add_edge-nodes r m) (later_first (last_node id rs) false r (get id m.nodes))
    | inr q ↦
        let more = merge_strace-last_node rs m n (simp (p, q, merge_strace) at h) id in
        more ∙ rw p (later_first (last_node id rs) false r (get id m.nodes))
  ]
]

-- every node of the first is in the second, extended
abbrev pub Extends : Merging → Merging → Type 0
Extends m n =
    (id : Text) (r : Item)
    → get id m.nodes ≡ some r
    → (q : Item) × (get id n.nodes ≡ some q) × IsExtended r q

pub merge_nodes-Extends :
    (rs : List Item) (id_map : Dict Text Text) (m n : Merging)
    → merge_nodes id_map rs m ≡ some n
    → Extends m n
unfolding merge_nodes
merge_nodes-Extends [] id_map m n h id r e =
    (r, subst (λ a. get id a.nodes ≡ some r) (some_injective h) e, IsExtended-refl r)
merge_nodes-Extends (x ∷ xs) id_map m n h id r e = elim (Option-cases (in_merged id_map x).id) [
  | inl q ↦ absurd (none≢some (simp (q, merge_nodes) at h))
  | inr (j, q) ↦
      let item = in_merged id_map x in
      let known : Item = elim (get j m.nodes) [ none ↦ item | some old ↦ fill_node old item ] in
      let next : Merging = record m { nodes = put j known m.nodes } in
      let more = merge_nodes-Extends xs id_map next n (simp (q, merge_nodes) at h) id in
      elim (Bool-cases (text_beq j id)) [
        | inr other ↦ more r (ground (arith, get-put j id known m.nodes, e))
        | inl same ↦
            let at : get j m.nodes ≡ some r =
              subst (λ k. get k m.nodes ≡ some r) (sym ((text_beq_iff j id).0 same)) e in
            let filled : known ≡ fill_node r item = rw at refl in
            let found : get id next.nodes ≡ some (fill_node r item) =
              ground (arith, get-put j id known m.nodes, same, filled) in
            let (w, there, ext) = more (fill_node r item) found in
            (w, there, IsExtended-trans r (fill_node r item) w (fill_node-IsExtended r item) ext)
      ]
]

pub merge_edges-nodes :
    (rs : List Item) (id_map : Dict Text Text) (m : Merging)
    → (merge_edges id_map rs m).nodes ≡ m.nodes
unfolding merge_edges add_edge
merge_edges-nodes [] id_map m = refl
merge_edges-nodes (r ∷ rs) id_map m =
    merge_edges-nodes rs id_map (add_edge (in_merged id_map r) m)
    ∙ add_edge-nodes (in_merged id_map r) m
