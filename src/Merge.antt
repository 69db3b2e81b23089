-- ===== src/Merge.antt =====
-- `merge` of experiments/mcp/merge_graphs.py: the graph of the trace and the graph of the native ring
-- in one. Ids are texts, as lists of codes; a record has the fields that the code reads, and the
-- others by name. The files are read before, and written after.
pub mod Kept
pub mod Complete
use causpan.Prelude.{
  ℕ, ◌+◌, ◌≡◌, ◌↔◌, refl, ap, inl, inr, String, string_eq, Option, none, some, some_injective, List,
  [], ◌∷◌, ◌++◌, Dict, get, has, put, Bool, true, false, ◌&&◌, ◌||◌, not, ◌==◌, Eq, nat_eq, nat_beq,
  nat_beq_iff, member, add, Text, codes, starts_with, Json, length, arith, if◌then◌else◌,
}
use causpan.Attribution.Types.{RpcId}
use causpan.Attribution.RpcIds.{rpc_eq}

abbrev pub text_beq : Text → Text → Bool
text_beq [] [] = true
text_beq [] (_ ∷ _) = false
text_beq (_ ∷ _) [] = false
text_beq (c ∷ s) (d ∷ t) = nat_beq c d && text_beq s t

pub text_beq_iff : (s t : Text) → (text_beq s t ≡ true) ↔ (s ≡ t)
text_beq_iff [] [] = (λ h. refl, λ h. refl)
text_beq_iff [] (_ ∷ _) = (λ h. absurd cc, λ h. absurd cc)
text_beq_iff (_ ∷ _) [] = (λ h. absurd cc, λ h. absurd cc)
text_beq_iff (c ∷ s) (d ∷ t) = ground (arith, text_beq_iff s t)

instance abbrev pub text_eq : Eq Text
text_eq = record { same = text_beq; same_iff = text_beq_iff }

-- a line of a graph
pub record Item : Type 0 where
  pub type : Option String
  pub kind : Option String
  pub id : Option Text
  pub source : Option Text
  pub target : Option Text
  pub rpc_id : Option RpcId
  pub others : Dict String Json

abbrev pub prefix : Text
prefix = codes "native_"

abbrev pub map_option : {A : Type 0} → (A → A) → Option A → Option A
map_option f none = none
map_option f (some a) = some (f a)

-- `prefix + val`, but for a value that has the prefix
unfoldable pub prefix_text : Text → Text
unfolding starts_with
prefix_text t = if starts_with prefix t then t else prefix ++ t

unfoldable pub prefix_id : Item → Item
unfolding prefix_text
prefix_id r = record r {
  id = map_option prefix_text r.id;
  source = map_option prefix_text r.source;
  target = map_option prefix_text r.target;
}

abbrev pub is_text : String → Option String → Bool
is_text name none = false
is_text name (some t) = t == name

abbrev pub is_node : Item → Bool
is_node r = is_text "node" r.type

abbrev pub is_edge : Item → Bool
is_edge r = is_text "edge" r.type

-- `strace_by_rpc`; `none` is the KeyError of a node with no id
unfoldable pub requests_by_rpc : List Item → Dict RpcId Text → Option (Dict RpcId Text)
unfolding put
requests_by_rpc [] found = some found
requests_by_rpc (r ∷ rs) found =
    if is_node r && (is_text "mcp_request" r.kind || is_text "causal_join" r.kind)
    then elim r.rpc_id [
      | none ↦ requests_by_rpc rs found
      | some rpc ↦ elim r.id [ none ↦ none | some id ↦ requests_by_rpc rs (put rpc id found) ]
    ]
    else requests_by_rpc rs found

-- `id_map`
unfoldable pub map_requests : Dict RpcId Text → List Item → Dict Text Text → Option (Dict Text Text)
unfolding get put prefix_text
map_requests found [] id_map = some id_map
map_requests found (r ∷ rs) id_map =
    if is_node r && is_text "request" r.kind
    then elim r.rpc_id [
      | none ↦ map_requests found rs id_map
      | some rpc ↦ elim (get rpc found) [
        | none ↦ map_requests found rs id_map
        | some id ↦ elim r.id [
          | none ↦ none
          | some native ↦ map_requests found rs (put (prefix_text native) id id_map)
        ]
      ]
    ]
    else map_requests found rs id_map

unfoldable pub build_id_map : List Item → List Item → Option (Dict Text Text)
unfolding requests_by_rpc map_requests
build_id_map native_nodes strace_nodes = elim (requests_by_rpc strace_nodes []) [
  | none ↦ none
  | some found ↦ map_requests found native_nodes []
]

unfoldable pub remap_text : Dict Text Text → Text → Text
unfolding get
remap_text id_map t = elim (get t id_map) [ none ↦ t | some other ↦ other ]

unfoldable pub remap_ids : Dict Text Text → Item → Item
unfolding remap_text
remap_ids id_map r = record r {
  id = map_option (remap_text id_map) r.id;
  source = map_option (remap_text id_map) r.source;
  target = map_option (remap_text id_map) r.target;
}

-- the source, the target and the kind of an edge
pub record EdgeKey : Type 0 where
  pub from : Option Text
  pub to : Option Text
  pub of_kind : Option String

abbrev pub option_beq : {A : Type 0} → (A → A → Bool) → Option A → Option A → Bool
option_beq f none none = true
option_beq f none (some _) = false
option_beq f (some _) none = false
option_beq f (some a) (some b) = f a b

option_beq_iff :
    {A : Type 0} (f : A → A → Bool)
    → ((a b : A) → (f a b ≡ true) ↔ (a ≡ b))
    → (a b : Option A) → (option_beq f a b ≡ true) ↔ (a ≡ b)
option_beq_iff f h none none = (λ p. refl, λ p. refl)
option_beq_iff f h none (some _) = (λ p. absurd cc, λ p. absurd cc)
option_beq_iff f h (some _) none = (λ p. absurd cc, λ p. absurd cc)
option_beq_iff f h (some a) (some b) =
    (λ p. ap some ((h a b).0 p), λ p. (h a b).1 (some_injective p))

abbrev pub edge_key_beq : EdgeKey → EdgeKey → Bool
edge_key_beq j k =
    option_beq text_beq j.from k.from
    && (option_beq text_beq j.to k.to && option_beq string_eq.same j.of_kind k.of_kind)

pub edge_key_beq_iff : (j k : EdgeKey) → (edge_key_beq j k ≡ true) ↔ (j ≡ k)
edge_key_beq_iff j k = ground (
  arith,
  option_beq_iff text_beq text_beq_iff j.from k.from,
  option_beq_iff text_beq text_beq_iff j.to k.to,
  option_beq_iff string_eq.same string_eq.same_iff j.of_kind k.of_kind,
)

instance abbrev pub edge_key_eq : Eq EdgeKey
edge_key_eq = record { same = edge_key_beq; same_iff = edge_key_beq_iff }

abbrev pub key_of : Item → EdgeKey
key_of r = record { from = r.source; to = r.target; of_kind = r.kind }

-- `merged_nodes`, `merged_edges` and `seen_edge_keys`
pub record Merging : Type 0 where
  pub nodes : Dict Text Item
  pub edges : List Item
  pub seen : List EdgeKey

unfoldable pub add_edge : Item → Merging → Merging
unfolding member add
add_edge r m =
    if member (key_of r) m.seen
    then m
    else record m { edges = m.edges ++ r ∷ []; seen = add (key_of r) m.seen }

-- the first loop
unfoldable pub merge_strace : List Item → Merging → Option Merging
unfolding put add_edge
merge_strace [] m = some m
merge_strace (r ∷ rs) m =
    if is_node r
    then elim r.id [
      | none ↦ none
      | some id ↦ merge_strace rs (record m { nodes = put id r m.nodes })
    ]
    else if is_edge r
    then merge_strace rs (add_edge r m)
    else merge_strace rs m

abbrev pub or_else : {A : Type 0} → Option A → Option A → Option A
or_else none b = b
or_else (some a) b = some a

unfoldable pub fill_others : Dict String Json → Dict String Json → Dict String Json
unfolding get put
fill_others others [] = others
fill_others others ((k, v) ∷ more) =
    fill_others (if has k others then others else put k v others) more

-- the keys that the node does not have
unfoldable pub fill_node : Item → Item → Item
unfolding fill_others
fill_node known r = record {
  type = or_else known.type r.type;
  kind = or_else known.kind r.kind;
  id = or_else known.id r.id;
  source = or_else known.source r.source;
  target = or_else known.target r.target;
  rpc_id = or_else known.rpc_id r.rpc_id;
  others = fill_others known.others r.others;
}

-- the second loop
unfoldable pub merge_nodes : Dict Text Text → List Item → Merging → Option Merging
unfolding prefix_id remap_ids get put fill_node
merge_nodes id_map [] m = some m
merge_nodes id_map (node ∷ nodes) m =
    let r = remap_ids id_map (prefix_id node) in
    elim r.id [
      | none ↦ none
      | some id ↦ merge_nodes id_map nodes (record m {
        nodes =
            put id (elim (get id m.nodes) [ none ↦ r | some known ↦ fill_node known r ]) m.nodes;
      })
    ]

-- the third loop
unfoldable pub merge_edges : Dict Text Text → List Item → Merging → Merging
unfolding prefix_id remap_ids add_edge
merge_edges id_map [] m = m
merge_edges id_map (edge ∷ edges) m =
    merge_edges id_map edges (add_edge (remap_ids id_map (prefix_id edge)) m)

abbrev pub no_items : Merging
no_items = record { nodes = []; edges = []; seen = [] }

abbrev pub values : Dict Text Item → List Item
values [] = []
values ((_, r) ∷ nodes) = r ∷ values nodes

-- `merge`, on the records of the trace and the nodes and edges of the native graph
unfoldable pub merge : List Item → List Item → List Item → Option Merging
unfolding build_id_map merge_strace merge_nodes merge_edges
merge strace native_nodes native_edges = elim (build_id_map native_nodes strace) [
  | none ↦ none
  | some id_map ↦ elim (merge_strace strace no_items) [
    | none ↦ none
    | some m ↦ elim (merge_nodes id_map native_nodes m) [
      | none ↦ none
      | some n ↦ some (merge_edges id_map native_edges n)
    ]
  ]
]

-- the records that are written
unfoldable pub merged : Merging → List Item
merged m = values m.nodes ++ m.edges
