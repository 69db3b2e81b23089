-- ===== src/Attribution/Rows.antt =====
-- The row of one traced call: the rest of `_process_trace` of attribute.py that computes what the
-- attribution says, with no state.
pub mod Fits
use causpan.Prelude.{
  ℕ, Option, none, some, List, [], ◌∷◌, get, Bool, true, false, ◌&&◌, ◌==◌, nat_eq, ltb, length,
  sorted, if◌then◌else◌, String,
}
use causpan.Attribution.Types.{
  Syscall, Event, Context, Connection, Origin, NodeId, Evidence, RpcId, Attribution, Row, Setup,
}
use causpan.Attribution.Runtime.{context_node, shown}

abbrev pub is_read : Syscall → Bool
is_read Syscall.read = true
is_read Syscall.readv = true
is_read Syscall.recvfrom = true
is_read Syscall.recvmsg = true
is_read _ = false

abbrev pub is_write : Syscall → Bool
is_write Syscall.write = true
is_write Syscall.writev = true
is_write Syscall.sendto = true
is_write Syscall.sendmsg = true
is_write _ = false

abbrev pub is_clone : Syscall → Bool
is_clone Syscall.clone = true
is_clone Syscall.clone3 = true
is_clone Syscall.fork = true
is_clone Syscall.vfork = true
is_clone _ = false

-- `context.get('request', 0)`
abbrev pub request_of : Option Context → ℕ
request_of none = 0
request_of (some c) = c.request

-- `context.get('request') == 0`
abbrev pub is_unowned : Option Context → Bool
is_unowned none = false
is_unowned (some c) = c.request == 0

abbrev pub origin_of : Option Context → Origin
origin_of none = Origin.unobserved
origin_of (some c) = c.origin

abbrev pub operation_of : Option Context → ℕ
operation_of none = 0
operation_of (some c) = c.operation

abbrev pub job_of : Option Context → Option String
job_of none = none
job_of (some c) = c.ipc_job

abbrev pub evidence_of : Option Context → Option Evidence
evidence_of none = none
evidence_of (some c) = some c.marker_source

-- `[self.roots[c]['rpc_id'] for c in contexts]`; `none` is the KeyError
unfoldable pub rpc_ids : Setup → List ℕ → Option (List RpcId)
rpc_ids setup [] = some []
rpc_ids setup (c ∷ cs) = elim (get c setup.roots) [
  | none ↦ none
  | some r ↦ elim r [
    | none ↦ none
    | some id ↦ elim (rpc_ids setup cs) [ none ↦ none | some ids ↦ some (id ∷ ids) ]
  ]
]

-- `self.owners.get(request, set())`
unfoldable pub known_owners : Setup → ℕ → List ℕ
known_owners setup request = elim (get request setup.owners) [ none ↦ [] | some s ↦ s ]

-- The request and the context of a call. A read outside any request on a connection of one request
-- is read for that request.
pub record Scope : Type 0 where
  pub request : ℕ
  pub context : Option Context

unfoldable pub read_scope : Scope → Syscall → Connection → Scope
read_scope s call c = elim c.requests [
  | [] ↦ s
  | owner ∷ others ↦ elim others [
    | [] ↦
        if s.request == 0 && is_read call
        then record {
          request = owner;
          context = some (record {
            request = owner;
            operation = 0;
            origin = Origin.socket_lifecycle;
            ipc_job = none;
            marker_source = Evidence.lifecycle c.id;
          });
        }
        else s
    | _ ∷ _ ↦ s
  ]
]

unfoldable pub attribution_of : List RpcId → Option Context → Attribution
attribution_of [] context =
    if is_unowned context then Attribution.no_request_context else Attribution.unknown
attribution_of (id ∷ []) context = Attribution.bound
attribution_of (id ∷ _ ∷ _) context = Attribution.multi_parent

-- `request_ids[0] if len(request_ids) == 1 else None`
unfoldable pub only_id : List RpcId → Option RpcId
only_id (id ∷ []) = some id
only_id _ = none

-- the requests of a shared connection that a call outside any request may serve
unfoldable pub candidates : Scope → Option Connection → List ℕ
unfolding sorted
candidates s none = []
candidates s (some c) =
    if ltb 1 (length c.requests) && request_of s.context == 0 then sorted c.requests else []

unfoldable pub row_of : Event → Scope → Option ℕ → List RpcId → List RpcId → Row
unfolding attribution_of only_id
row_of e s socket ids candidate_ids = record {
  event = e;
  context = some s.request;
  request_ids = ids;
  request_id = only_id ids;
  ipc_job = job_of s.context;
  operation = operation_of s.context;
  origin = origin_of s.context;
  context_evidence = evidence_of s.context;
  connection_id = socket;
  candidate_request_ids = candidate_ids;
  attribution = attribution_of ids s.context;
}

unfoldable pub make_row : Setup → Event → Scope → Option ℕ → Option Connection → Option Row
unfolding rpc_ids known_owners sorted candidates row_of
make_row setup e s socket connection =
    elim (rpc_ids setup (sorted (known_owners setup s.request))) [
      | none ↦ none
      | some ids ↦ elim (rpc_ids setup (candidates s connection)) [
        | none ↦ none
        | some candidate_ids ↦ some (row_of e s socket ids candidate_ids)
      ]
    ]

-- the node that executed a call
unfoldable pub executor : Setup → Row → ℕ → NodeId
executor setup row request = elim row.origin [
  | Origin.ipc_worker ↦ NodeId.ipc (shown row.ipc_job)
  | Origin.process_inheritance ↦ NodeId.process row.event.pid
  | _ ↦ if row.operation == 0 then context_node setup request else NodeId.work row.operation
]

-- the node that spawned a process
unfoldable pub spawner : Setup → ℕ → Context → NodeId
spawner setup pid c = elim c.origin [
  | Origin.ipc_worker ↦ NodeId.ipc (shown c.ipc_job)
  | Origin.process_inheritance ↦ NodeId.process pid
  | _ ↦ if c.operation == 0 then context_node setup c.request else NodeId.work c.operation
]
