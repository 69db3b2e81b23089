-- ===== src/Attribution/Initialize.antt =====
-- `_initialize` of attribute.py: the owners of each context, the state at the start and the first
-- records of the graph. The comparison of the map with the dispatched calls is an argument, the
-- diagnostics that it leaves.
pub mod Owners
pub mod Closure
pub mod Start
use causpan.Prelude.{
  ℕ, String, Option, none, some, List, [], ◌∷◌, ◌++◌, Dict, get, put, has, Bool, true, false, ◌==◌,
  nat_eq, union, length, any, all, not, ◌||◌, if◌then◌else◌,
}
use causpan.Attribution.Types.{
  RpcId, MapRecord, Error, Setup, NodeId, NodeKind, EdgeKind, GraphRecord,
}
use causpan.Attribution.Runtime.{Runtime, context_node}
use causpan.Attribution.Descriptors.{Descriptors}
use causpan.Attribution.Trace.{Attributor}

abbrev pub context_of : MapRecord → ℕ
context_of (MapRecord.request context id) = context
context_of (MapRecord.join context parents) = context

-- `{r['context']: r for r in self.raw_mapping}`
unfoldable pub mapping_from : Dict ℕ MapRecord → List MapRecord → Dict ℕ MapRecord
mapping_from d [] = d
mapping_from d (r ∷ rs) = mapping_from (put (context_of r) r d) rs

-- the records of kind `request` among the items of the mapping
unfoldable pub roots_of : Dict ℕ MapRecord → Dict ℕ (Option RpcId)
roots_of [] = []
roots_of ((context, MapRecord.request _ id) ∷ d) = (context, id) ∷ roots_of d
roots_of ((context, MapRecord.join _ _) ∷ d) = roots_of d

-- the others
unfoldable pub joins_of : Dict ℕ MapRecord → Dict ℕ (List ℕ)
joins_of [] = []
joins_of ((context, MapRecord.request _ _) ∷ d) = joins_of d
joins_of ((context, MapRecord.join _ parents) ∷ d) = (context, parents) ∷ joins_of d

-- `set().union(*(self.owners[p] for p in parents))`
unfoldable pub parents_owners : Dict ℕ (List ℕ) → List ℕ → List ℕ
parents_owners owners [] = []
parents_owners owners (p ∷ ps) =
    union (elim (get p owners) [ none ↦ [] | some s ↦ s ]) (parents_owners owners ps)

-- `not parents or any(parent not in self.owners for parent in parents)`
unfoldable pub is_bad_join : Dict ℕ (List ℕ) → List ℕ → Bool
is_bad_join owners [] = true
is_bad_join owners (p ∷ ps) = any (λ q. not (has q owners)) (p ∷ ps)

-- one round of the loop that computes the owners, with the diagnostics
unfoldable pub add_owners : MapRecord → Dict ℕ (List ℕ) × List Error → Dict ℕ (List ℕ) × List Error
unfolding is_bad_join parents_owners
add_owners (MapRecord.request context id) (owners, errors) =
    (put context (context ∷ []) owners, errors)
add_owners (MapRecord.join context parents) (owners, errors) =
    if is_bad_join owners parents
    then (put context [] owners, errors ++ Error.unknown_join_parent context ∷ [])
    else (put context (parents_owners owners parents) owners, errors)

unfoldable pub owners_from :
    Dict ℕ (List ℕ) × List Error → List MapRecord → Dict ℕ (List ℕ) × List Error
unfolding add_owners
owners_from state [] = state
owners_from state (r ∷ rs) = owners_from (add_owners r state) rs

-- the context identities, checked again
unfoldable pub check_identities : List MapRecord → Dict ℕ MapRecord → List Error
check_identities records mapping =
    if not (length records == length mapping) || any (λ entry. entry.0 == 0) mapping
    then Error.invalid_context_identity ∷ []
    else []

unfoldable pub joined_edges : Setup → ℕ → List ℕ → List GraphRecord
unfolding context_node
joined_edges setup context [] = []
joined_edges setup context (p ∷ ps) =
    GraphRecord.edge (context_node setup p) (context_node setup context) EdgeKind.joined none
    ∷ joined_edges setup context ps

-- the node of each context and the edges of a join from its parents
unfoldable pub context_records : Setup → Dict ℕ MapRecord → List GraphRecord
unfolding context_node joined_edges
context_records setup [] = []
context_records setup ((context, r) ∷ d) =
    GraphRecord.node (context_node setup context)
      (if has context setup.roots then NodeKind.mcp_request else NodeKind.causal_join)
    ∷ ((elim r [
      | MapRecord.request _ _ ↦ []
      | MapRecord.join _ parents ↦
          if has context setup.roots then [] else joined_edges setup context parents
    ])
        ++ context_records setup d)

-- the paths that the attributor compares with, and the diagnostics of the dispatch check
pub record Config : Type 0 where
  pub request_map_path : String
  pub native_events_path : String
  pub dispatch_errors : List Error

unfoldable pub setup_of : Config → List MapRecord → Setup
unfolding mapping_from roots_of joins_of owners_from
setup_of config records =
    let mapping = mapping_from [] records in
    record {
      roots = roots_of mapping;
      owners = (owners_from ([], []) records).0;
      joins = joins_of mapping;
      request_map_path = config.request_map_path;
      native_events_path = config.native_events_path;
    }

abbrev pub no_descriptors : Descriptors
no_descriptors = record {
  sockets = [];
  close_on_exec = [];
  fd_tables = [];
  fd_table_serial = 0;
  socket_generation = 0;
  connections = [];
}

unfoldable pub initial_runtime : List Error → List GraphRecord → Runtime
initial_runtime errors graph = record {
  state = [];
  inherited = [];
  operations = [];
  ipc_jobs = [];
  ipc_active = [];
  active_work = [];
  runtime_spans = [];
  span_threads = [];
  errors = errors;
  graph = graph;
}

-- `_initialize`
unfoldable pub initialize : Config → List MapRecord → Attributor
unfolding setup_of owners_from check_identities context_records initial_runtime mapping_from
initialize config records =
    let mapping = mapping_from [] records in
    record {
      runtime =
          initial_runtime
            ((owners_from ([], []) records).1
              ++ (check_identities records mapping ++ config.dispatch_errors))
            (context_records (setup_of config records) mapping);
      descriptors = no_descriptors;
      socket_nodes = [];
      socket_parent_edges = [];
      executed_syscalls = [];
      tagged = [];
      seen = [];
    }
