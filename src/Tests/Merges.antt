-- ===== src/Tests/Merges.antt =====
-- The theorem on merged graphs, on concrete inputs: a request and a read of the trace, and the same
-- request with a ring operation of the native graph.
use causpan.Prelude.{
  ◌≡◌, refl, pos, String, Option, none, some, List, [], ◌∷◌, Dict, get, put, member, add, nat_eq,
  codes, starts_with, Text,
}
use causpan.Attribution.Types.{RpcId}
use causpan.Merge.{Item, Merging, text_eq, edge_key_eq, build_id_map, merge, merged}
use causpan.Merge.Complete.{IsMerged, merge-IsMerged}

abbrev node : String → String → Option RpcId → Item
node kind id rpc_id = record {
  type = some "node";
  kind = some kind;
  id = some (codes id);
  source = none;
  target = none;
  rpc_id = rpc_id;
  others = [];
}

abbrev edge : String → String → String → Item
edge kind source target = record {
  type = some "edge";
  kind = some kind;
  id = none;
  source = some (codes source);
  target = some (codes target);
  rpc_id = none;
  others = [];
}

abbrev seven : Option RpcId
seven = some (RpcId.number (pos 7))

abbrev strace : List Item
strace =
    node "mcp_request" "r7" seven
    ∷ node "syscall" "c" none
    ∷ edge "caused" "r7" "c"
    ∷ edge "caused" "r7" "c"
    ∷ []

abbrev native_nodes : List Item
native_nodes = node "request" "ctx" seven ∷ node "operation" "op" none ∷ []

abbrev native_edges : List Item
native_edges = edge "caused" "ctx" "op" ∷ edge "caused" "native_ctx" "native_op" ∷ []

abbrev expected : List Item
expected =
    node "mcp_request" "r7" seven
    ∷ node "syscall" "c" none
    ∷ node "operation" "native_op" none
    ∷ edge "caused" "r7" "c"
    ∷ edge "caused" "r7" "native_op"
    ∷ []

abbrev graph : Merging
graph = record {
  nodes =
      (codes "r7", node "mcp_request" "r7" seven)
      ∷ (codes "c", node "syscall" "c" none)
      ∷ (codes "native_op", node "operation" "native_op" none)
      ∷ [];
  edges = edge "caused" "r7" "c" ∷ edge "caused" "r7" "native_op" ∷ [];
  seen =
      record { from = some (codes "r7"); to = some (codes "c"); of_kind = some "caused" }
      ∷ record { from = some (codes "r7"); to = some (codes "native_op"); of_kind = some "caused" }
      ∷ [];
}

merged_graph : merge strace native_nodes native_edges ≡ some graph
unfolding merge get put add member starts_with
merged_graph = refl

written : merged graph ≡ expected
unfolding merged
written = refl

merge-IsMerged_example :
    (id_map : Dict Text Text) × (build_id_map native_nodes strace ≡ some id_map)
    × IsMerged strace native_nodes native_edges id_map graph
merge-IsMerged_example = merge-IsMerged strace native_nodes native_edges graph merged_graph
