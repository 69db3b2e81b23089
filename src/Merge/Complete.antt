-- ===== src/Merge/Complete.antt =====
-- `merge` of merge_graphs.py loses no node and no edge, and has none twice.
use causpan.Prelude.{
  string_eq, ◌≡◌, refl, sym, ◌∙◌, inl, inr, subst, ap, none, some, none≢some, some_injective, List,
  [], ◌∷◌, ◌++◌, Dict, get, has, put, has-put, IsDistinct, put-IsDistinct, true, false, ==_refl,
  member, add, member-add, IsUnique, append_one-IsUnique, All, All_map, Text, Bool-cases,
  Option-cases, arith,
}
use mathlib.Core.Bool.{true≢false}
use causpan.Attribution.RpcIds.{rpc_eq}
use causpan.Merge.{
  Item, text_eq, EdgeKey, edge_key_eq, key_of, is_node, is_edge, Merging, build_id_map, add_edge,
  merge_strace, fill_node, merge_nodes, merge_edges, no_items, merge,
}
use causpan.Merge.Kept.{
  in_merged, IsExtended, last_node, merge_strace-last_node, merge_nodes-Extends, merge_edges-nodes,
}

abbrev pub edge_keys : List Item → List EdgeKey
edge_keys [] = []
edge_keys (r ∷ rs) = key_of r ∷ edge_keys rs

edge_keys-append :
    (rs : List Item) (r : Item) → edge_keys (rs ++ r ∷ []) ≡ edge_keys rs ++ key_of r ∷ []
edge_keys-append [] r = refl
edge_keys-append (q ∷ rs) r = ap (λ l. key_of q ∷ l) (edge_keys-append rs r)

-- no node and no edge twice
record IsKeyed (m : Merging) : Type 0 where
  distinct : IsDistinct m.nodes
  named : m.seen ≡ edge_keys m.edges
  unique : IsUnique m.seen

record Grows (m n : Merging) : Type 0 where
  nodes_stay : (id : Text) → has id m.nodes ≡ true → has id n.nodes ≡ true
  edges_stay : (k : EdgeKey) → member k m.seen ≡ true → member k n.seen ≡ true

-- the node or the edge is in the graph
abbrev pub HasNode : Merging → Item → Type 0
HasNode m r = (id : Text) → r.id ≡ some id → has id m.nodes ≡ true

abbrev pub HasEdge : Merging → Item → Type 0
HasEdge m r = member (key_of r) m.seen ≡ true

-- what a record of the trace asks for
abbrev pub Holds : Merging → Item → Type 0
Holds m r = (is_node r ≡ true → HasNode m r) × (is_node r ≡ false → is_edge r ≡ true → HasEdge m r)

Grows-refl : (m : Merging) → Grows m m
Grows-refl m = record { nodes_stay = λ id h. h; edges_stay = λ k h. h }

Grows-trans : (a b c : Merging) → Grows a b → Grows b c → Grows a c
Grows-trans a b c g h = record {
  nodes_stay = λ id p. h.nodes_stay id (g.nodes_stay id p);
  edges_stay = λ k p. h.edges_stay k (g.edges_stay k p);
}

Holds-Grows : (m n : Merging) → Grows m n → (r : Item) → Holds m r → Holds n r
Holds-Grows m n g r h =
    (λ p id q. g.nodes_stay id (h.0 p id q), λ p q. g.edges_stay (key_of r) (h.1 p q))

module _ (r : Item) (m : Merging) where
  add_edge-IsKeyed : IsKeyed m → IsKeyed (add_edge r m)
  unfolding add_edge add
  add_edge-IsKeyed s = elim (Bool-cases (member (key_of r) m.seen)) [
    | inl p ↦ rw (p, add_edge) s
    | inr p ↦
        rw (p, add_edge)
          (record {
            distinct = s.distinct;
            named = ap (λ l. l ++ key_of r ∷ []) s.named ∙ sym (edge_keys-append m.edges r);
            unique = append_one-IsUnique (key_of r) m.seen p s.unique;
          })
  ]

  add_edge-Grows : Grows m (add_edge r m)
  unfolding add_edge
  add_edge-Grows = elim (Bool-cases (member (key_of r) m.seen)) [
    | inl p ↦ rw (p, add_edge) (Grows-refl m)
    | inr p ↦
        rw (p, add_edge)
          (record {
            nodes_stay = λ id h. h;
            edges_stay = λ k h. ground (arith, member-add (key_of r) k m.seen);
          })
  ]

  add_edge-HasEdge : HasEdge (add_edge r m) r
  unfolding add_edge
  add_edge-HasEdge = elim (Bool-cases (member (key_of r) m.seen)) [
    | inl p ↦ rw (p, add_edge) p
    | inr p ↦
        rw (p, add_edge)
          (ground (arith, member-add (key_of r) (key_of r) m.seen, ==_refl (key_of r)))
  ]

  put_node-IsKeyed : (id : Text) → IsKeyed m → IsKeyed (record m { nodes = put id r m.nodes })
  put_node-IsKeyed id s = record {
    distinct = put-IsDistinct id r m.nodes s.distinct;
    named = s.named;
    unique = s.unique;
  }

  put_node-Grows : (id : Text) → Grows m (record m { nodes = put id r m.nodes })
  put_node-Grows id = record {
    nodes_stay = λ j h. ground (arith, has-put id j r m.nodes);
    edges_stay = λ k h. h;
  }

  put_node-HasNode :
      (id : Text) (q : Item) → q.id ≡ some id → HasNode (record m { nodes = put id r m.nodes }) q
  put_node-HasNode id q e j h =
      let same : id ≡ j = some_injective (sym e ∙ h) in
      subst (λ k. has k (put id r m.nodes) ≡ true) same
        (ground (arith, has-put id id r m.nodes, ==_refl id))

merge_strace-Holds :
    (rs : List Item) (m n : Merging)
    → merge_strace rs m ≡ some n
    → IsKeyed m
    → IsKeyed n × Grows m n × All (Holds n) rs
unfolding merge_strace
merge_strace-Holds [] m n h s =
    subst (λ k. IsKeyed k × Grows m k × All (Holds k) []) (some_injective h) (s, Grows-refl m, tt)
merge_strace-Holds (r ∷ rs) m n h s = elim (Bool-cases (is_node r)) [
  | inl p ↦ elim (Option-cases r.id) [
    | inl q ↦ absurd (none≢some (simp (p, q, merge_strace) at h))
    | inr (id, q) ↦
        let (t, g, k) =
          merge_strace-Holds rs (record m { nodes = put id r m.nodes }) n
            (simp (p, q, merge_strace) at h) (put_node-IsKeyed r m id s) in
        (
          t,
          Grows-trans m (record m { nodes = put id r m.nodes }) n (put_node-Grows r m id) g,
          (
            (
              λ _ j e. g.nodes_stay j (put_node-HasNode r m id r q j e),
              λ no e. absurd (true≢false (sym p ∙ no)),
            ),
            k,
          ),
        )
  ]
  | inr p ↦ elim (Bool-cases (is_edge r)) [
    | inl q ↦
        let (t, g, k) =
          merge_strace-Holds rs (add_edge r m) n (simp (p, q, merge_strace) at h)
            (add_edge-IsKeyed r m s) in
        (
          t,
          Grows-trans m (add_edge r m) n (add_edge-Grows r m) g,
          (
            (
              λ yes. absurd (true≢false (sym yes ∙ p)),
              λ _ _. g.edges_stay (key_of r) (add_edge-HasEdge r m),
            ),
            k,
          ),
        )
    | inr q ↦
        let (t, g, k) = merge_strace-Holds rs m n (simp (p, q, merge_strace) at h) s in
        (
          t,
          g,
          (
            (λ yes. absurd (true≢false (sym yes ∙ p)), λ _ yes. absurd (true≢false (sym yes ∙ q))),
            k,
          ),
        )
  ]
]

merge_nodes-Holds :
    (rs : List Item) (id_map : Dict Text Text) (m n : Merging)
    → merge_nodes id_map rs m ≡ some n
    → IsKeyed m
    → IsKeyed n × Grows m n × All (λ r. HasNode n (in_merged id_map r)) rs
unfolding merge_nodes
merge_nodes-Holds [] id_map m n h s =
    subst (λ k. IsKeyed k × Grows m k × All (λ r. HasNode k (in_merged id_map r)) [])
      (some_injective h) (s, Grows-refl m, tt)
merge_nodes-Holds (r ∷ rs) id_map m n h s = elim (Option-cases (in_merged id_map r).id) [
  | inl q ↦ absurd (none≢some (simp (q, merge_nodes) at h))
  | inr (id, q) ↦
      let q_item = in_merged id_map r in
      let known : Item = elim (get id m.nodes) [
        | none ↦ q_item
        | some old ↦ fill_node old q_item
      ] in
      let next : Merging = record m { nodes = put id known m.nodes } in
      let (t, g, k) =
        merge_nodes-Holds rs id_map next n (simp (q, merge_nodes) at h)
          (put_node-IsKeyed known m id s) in
      (
        t,
        Grows-trans m next n (put_node-Grows known m id) g,
        (λ j e. g.nodes_stay j (put_node-HasNode known m id q_item q j e), k),
      )
]

merge_edges-Holds :
    (rs : List Item) (id_map : Dict Text Text) (m : Merging)
    → IsKeyed m
    → IsKeyed (merge_edges id_map rs m)
      × Grows m (merge_edges id_map rs m)
      × All (λ r. HasEdge (merge_edges id_map rs m) (in_merged id_map r)) rs
unfolding merge_edges
merge_edges-Holds [] id_map m s = (s, Grows-refl m, tt)
merge_edges-Holds (r ∷ rs) id_map m s =
    let q = in_merged id_map r in
    let next = add_edge q m in
    let (t, g, k) = merge_edges-Holds rs id_map next (add_edge-IsKeyed q m s) in
    (
      t,
      Grows-trans m next (merge_edges id_map rs next) (add_edge-Grows q m) g,
      (g.edges_stay (key_of q) (add_edge-HasEdge q m), k),
    )

-- What the merged graph is.
pub record IsMerged (strace native_nodes native_edges : List Item) (id_map : Dict Text Text)
    (m : Merging) : Type 0 where
  pub distinct : IsDistinct m.nodes
  pub unique : IsUnique (edge_keys m.edges)
  pub named : m.seen ≡ edge_keys m.edges
  pub trace_held : All (Holds m) strace
  pub trace_kept :
      (id : Text) (r : Item)
      → last_node id strace ≡ some r
      → (q : Item) × (get id m.nodes ≡ some q) × IsExtended r q
  pub nodes_held : All (λ r. HasNode m (in_merged id_map r)) native_nodes
  pub edges_held : All (λ r. HasEdge m (in_merged id_map r)) native_edges

no_items-IsKeyed : IsKeyed no_items
no_items-IsKeyed = record { distinct = tt; named = refl; unique = tt }

pub merge-IsMerged :
    (strace native_nodes native_edges : List Item) (m : Merging)
    → merge strace native_nodes native_edges ≡ some m
    → (id_map : Dict Text Text) × (build_id_map native_nodes strace ≡ some id_map)
      × IsMerged strace native_nodes native_edges id_map m
unfolding merge
merge-IsMerged strace native_nodes native_edges m h =
    elim (Option-cases (build_id_map native_nodes strace)) [
      | inl p ↦ absurd (none≢some (rw (p, merge) at h))
      | inr (id_map, p) ↦ elim (Option-cases (merge_strace strace no_items)) [
        | inl q ↦ absurd (none≢some (rw (p, q, merge) at h))
        | inr (a, q) ↦ elim (Option-cases (merge_nodes id_map native_nodes a)) [
          | inl u ↦ absurd (none≢some (rw (p, q, u, merge) at h))
          | inr (b, u) ↦
              let (s1, _, k1) = merge_strace-Holds strace no_items a q no_items-IsKeyed in
              let (s2, g2, k2) = merge_nodes-Holds native_nodes id_map a b u s1 in
              let (s3, g3, k3) = merge_edges-Holds native_edges id_map b s2 in
              let c = merge_edges id_map native_edges b in
              let built : IsMerged strace native_nodes native_edges id_map c = record {
                distinct = s3.distinct;
                unique = subst (λ l. IsUnique l) s3.named s3.unique;
                named = s3.named;
                trace_held =
                    All_map (Holds a) (Holds c) strace (Holds-Grows a c (Grows-trans a b c g2 g3))
                      k1;
                trace_kept = λ id r e.
                    let start = merge_strace-last_node strace no_items a q id in
                    let at : get id a.nodes ≡ some r = start ∙ rw e refl in
                    let (w, there, ext) = merge_nodes-Extends native_nodes id_map a b u id r at in
                    (w, rw (merge_edges-nodes native_edges id_map b) there, ext);
                nodes_held =
                    All_map (λ r. HasNode b (in_merged id_map r))
                      (λ r. HasNode c (in_merged id_map r)) native_nodes
                      (λ r f id e. g3.nodes_stay id (f id e)) k2;
                edges_held = k3;
              } in
              (
                id_map,
                p,
                subst (IsMerged strace native_nodes native_edges id_map)
                    (some_injective (rw (p, q, u, merge) at h)) built,
              )
        ]
      ]
    ]
