-- ===== src/Attribution/Trace.antt =====
-- `_process_trace` of attribute.py: one traced system call that is no marker.
pub mod Quiet
pub mod Total
pub mod Well
use causpan.Prelude.{
  true, false, ℕ, Option, none, some, List, [], ◌∷◌, ◌++◌, Dict, get, put, Bool, ◌&&◌, ◌||◌, not,
  ◌==◌, nat_eq, string_eq, pair_eq, member, add, sorted, any, String, if◌then◌else◌,
}
use causpan.Attribution.Types.{
  Syscall, Marker, Event, Context, Connection, Origin, NodeId, NodeKind, EdgeKind, GraphRecord,
  Evidence, Row, Setup,
}
use causpan.Attribution.Runtime.{Runtime, emit, current_context, context_node}
use causpan.Attribution.Args.{fd_number, CloneFlag, clone_has_flag}
use causpan.Attribution.Descriptors.{Descriptors, fd_table, drop_descriptor}
use causpan.Attribution.Syscalls.{Call, Touched, touch, claim, child_of, is_zero}
use causpan.Attribution.Rows.{
  Scope, is_read, is_write, is_clone, request_of, read_scope, make_row, executor, spawner,
}

-- The state of the attributor.
pub record Attributor : Type 0 where
  pub runtime : Runtime
  pub descriptors : Descriptors
  pub socket_nodes : List ℕ
  pub socket_parent_edges : List (ℕ × ℕ)
  pub executed_syscalls : List String
  pub tagged : List Row
  pub seen : Dict ℕ (List Marker)

unfoldable pub add_records : List GraphRecord → Attributor → Attributor
unfolding emit
add_records records a = record a { runtime = emit records a.runtime }

-- Instrumentation output is no effect of the program.
unfoldable pub is_excluded : Setup → Event → Bool
is_excluded setup e =
    any (λ path. path == setup.request_map_path || path == setup.native_events_path) e.paths

-- `self.sockets.get(key) if key else None`
unfoldable pub socket_at : ℕ → Option ℕ → Descriptors → Option ℕ
socket_at table none d = none
socket_at table (some fd) d = get (table, fd) d.sockets

unfoldable pub find_connection : Option ℕ → Descriptors → Option Connection
find_connection none d = none
find_connection (some g) d = get g d.connections

abbrev pub is_socket_io : Syscall → Bool
is_socket_io s = is_read s || is_write s

abbrev pub is_close : Syscall → Bool
is_close Syscall.close = true
is_close _ = false

-- the close of a socket's descriptor
unfoldable pub close_socket : Call → Descriptors → Descriptors
unfolding drop_descriptor
close_socket c d = elim c.fd [
  | none ↦ d
  | some fd ↦
      if is_close c.event.syscall && is_zero c.event.return_value
      then drop_descriptor (c.table, fd) d
      else d
]

-- ownership by input and output, then the close
unfoldable pub use_socket : Setup → Call → Option ℕ → Descriptors → Descriptors
unfolding claim close_socket
use_socket setup c none d = d
use_socket setup c (some g) d =
    close_socket c (if is_socket_io c.event.syscall then claim setup c.request (some g) d else d)

-- the node of a connection, once
unfoldable pub show_connection : Event → Option ℕ → ℕ → Connection → Attributor → Attributor
unfolding add_records
show_connection e fd g c a =
    if member g a.socket_nodes
    then a
    else add_records (GraphRecord.node c.id (NodeKind.network_connection e.pid fd) ∷ [])
        (record a { socket_nodes = add g a.socket_nodes })

-- the edges from the owners of a connection, each once
unfoldable pub show_owners : Setup → Event → ℕ → Connection → List ℕ → Attributor → Attributor
unfolding add_records context_node
show_owners setup e g c [] a = a
show_owners setup e g c (parent ∷ parents) a = show_owners setup e g c parents (
    if member (parent, g) a.socket_parent_edges
    then a
    else add_records
        (GraphRecord.edge (context_node setup parent) c.id EdgeKind.connected
            (some (Evidence.trace e.source))
          ∷ [])
        (record a { socket_parent_edges = add (parent, g) a.socket_parent_edges }))

unfoldable pub show_effect : Event → Connection → Attributor → Attributor
unfolding add_records
show_effect e c a =
    if is_socket_io e.syscall
    then add_records
        (GraphRecord.edge c.id (NodeId.syscall_at e.source) EdgeKind.socket_effect
            (some (Evidence.trace e.source))
          ∷ [])
        a
    else a

unfoldable pub show_socket :
    Setup → Event → Option ℕ → Option ℕ → Option Connection → Attributor → Attributor
unfolding show_connection show_owners show_effect sorted
show_socket setup e fd (some g) (some c) a =
    show_effect e c (show_owners setup e g c (sorted c.requests) (show_connection e fd g c a))
show_socket setup e fd _ _ a = a

unfoldable pub scope_of : ℕ → Option Context → Syscall → Option Connection → Scope
unfolding read_scope
scope_of request context call none = record { request = request; context = context }
scope_of request context call (some c) =
    read_scope (record { request = request; context = context }) call c

unfoldable pub spawn_edge : Setup → Event → ℕ → Option Context → List GraphRecord
unfolding spawner
spawn_edge setup e child none = []
spawn_edge setup e child (some c) =
    if c.request == 0
    then []
    else GraphRecord.edge (spawner setup e.pid c) (NodeId.process child) EdgeKind.spawned
        (some (Evidence.trace e.source))
      ∷ []

-- a child process inherits the request of its parent; a new thread does not
unfoldable pub inherit : Setup → Event → Option Context → Attributor → Attributor
unfolding emit spawn_edge clone_has_flag
inherit setup e context a = elim (child_of e.return_value) [
  | none ↦ a
  | some child ↦
      if is_clone e.syscall && not (clone_has_flag e.args CloneFlag.thread)
      then (let inherited : Context = record {
        request = request_of context;
        operation = 0;
        origin = Origin.process_inheritance;
        ipc_job = none;
        marker_source = Evidence.trace e.source;
      } in
          let r = a.runtime in
          record a {
            runtime =
                emit
                  (GraphRecord.node (NodeId.process child) (NodeKind.child_process child)
                    ∷ spawn_edge setup e child context)
                  (record r { inherited = put child inherited r.inherited });
          })
      else a
]

-- the edge from what executed the call, once for a source
unfoldable pub show_executed : Setup → Event → ℕ → Row → Attributor → Attributor
unfolding add_records executor
show_executed setup e request row a =
    if request == 0 || member e.source a.executed_syscalls
    then a
    else add_records
        (GraphRecord.edge (executor setup row request) (NodeId.syscall_at e.source)
            EdgeKind.executed row.context_evidence
          ∷ [])
        (record a { executed_syscalls = add e.source a.executed_syscalls })

unfoldable pub show_row : Setup → Event → ℕ → Option Connection → Row → Attributor → Attributor
unfolding add_records show_executed
show_row setup e request connection row a =
    let shown = show_executed setup e request row (
      add_records (GraphRecord.node (NodeId.syscall_at e.source) (NodeKind.syscall_event e) ∷ [])
        a) in
    elim connection [ some _ ↦ shown | none ↦ if request == 0 then a else shown ]

-- `self.tagged.append(row)`, and the records of the row
unfoldable pub tag_row :
    Setup → Event → Scope → Option Connection → Option Row → Attributor → Option Attributor
unfolding show_row
tag_row setup e s connection none a = none
tag_row setup e s connection (some row) a =
    some (show_row setup e s.request connection row (record a { tagged = a.tagged ++ row ∷ [] }))

-- an accepted connection has its node already
unfoldable pub settled_nodes : Touched → List ℕ → List ℕ
settled_nodes t nodes = elim t.accepted [
  | [] ↦ nodes
  | _ ∷ _ ↦ elim t.socket [ none ↦ nodes | some g ↦ add g nodes ]
]

-- the state after the branches on the name of the call, the use of the socket and its close
unfoldable pub settle : Setup → Call → Touched → Attributor → Attributor
unfolding add_records use_socket settled_nodes
settle setup c t a = add_records t.accepted (record a {
  descriptors = use_socket setup c t.socket t.descriptors;
  socket_nodes = settled_nodes t a.socket_nodes;
})

-- the records and the row of a call
unfoldable pub tag_call :
    Setup → Call → Option Context → Touched → Option Connection → Attributor → Option Attributor
unfolding show_socket scope_of inherit make_row tag_row
tag_call setup c context t connection a =
    let s = scope_of c.request context c.event.syscall connection in
    tag_row setup c.event s connection (make_row setup c.event s t.socket connection)
      (inherit setup c.event s.context (show_socket setup c.event t.fd t.socket connection a))

-- what follows the branches on the name of the call
unfoldable pub finish_trace :
    Setup → Call → Option Context → Touched → Attributor → Option Attributor
unfolding settle find_connection tag_call
finish_trace setup c context t a =
    let settled = settle setup c t a in
    tag_call setup c context t (find_connection t.socket settled.descriptors) settled

unfoldable pub trace_call : Setup → Event → Attributor → Option Attributor
unfolding current_context fd_table fd_number socket_at touch finish_trace
trace_call setup e a =
    let context = current_context e.tid e.pid a.runtime in
    let (table, d) = fd_table e.tid a.descriptors in
    let fd = fd_number e.args in
    let c : Call = record {
      event = e;
      request = request_of context;
      table = table;
      fd = fd;
      socket = socket_at table fd d;
    } in
    finish_trace setup c context (touch setup e.syscall c d) a

-- `_process_trace`; `none` is a KeyError on a request without an id
unfoldable pub process_trace : Setup → Event → Attributor → Option Attributor
unfolding is_excluded trace_call
process_trace setup e a = if is_excluded setup e then some a else trace_call setup e a
