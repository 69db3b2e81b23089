-- ===== src/Attribution/Syscalls.antt =====
-- What each system call does to descriptors and connections: the branches of `_process_trace` of
-- attribute.py, up to the update of ownership by socket input and output.
pub mod Steps
pub mod Sound
pub mod Touch
pub mod Effects
pub mod Owned
use causpan.Prelude.{
  ℕ, ◌+◌, ℤ, pos, negsuc, Option, none, some, List, [], ◌∷◌, map, get, put, Bool, true, false, ◌&&◌,
  ◌==◌, nat_eq, pair_eq, int_eq, union, keep, leb, codes, contains, String, if◌then◌else◌,
}
use causpan.Attribution.Types.{
  Syscall, Event, NodeId, NodeKind, EdgeKind, GraphRecord, Evidence, Setup,
}
use causpan.Attribution.Args.{
  number_pair, RangeFlag, close_range_has_flag, CloneFlag, clone_has_flag, unshares_files,
}
use causpan.Attribution.Descriptors.{
  Descriptors, assign_table, copy_fd_table, drop_descriptor, drop_descriptors, set_close_on_exec,
}

-- The locals of `_process_trace` that the branches read.
pub record Call : Type 0 where
  pub event : Event
  pub request : ℕ
  pub table : ℕ
  pub fd : Option ℕ
  pub socket : Option ℕ

-- What a branch leaves: the descriptors, the socket state and the `fd` of the call, and for an
-- accepted connection the records that it adds to the graph.
pub record Touched : Type 0 where
  pub descriptors : Descriptors
  pub socket : Option ℕ
  pub fd : Option ℕ
  pub accepted : List GraphRecord

-- `event['return_value'] is not None and event['return_value'] >= 0`, the value
abbrev pub nonnegative : Option ℤ → Option ℕ
nonnegative none = none
nonnegative (some (pos n)) = some n
nonnegative (some (negsuc n)) = none

-- `event['return_value'] == 0`
abbrev pub is_zero : Option ℤ → Bool
is_zero v = elim v [ none ↦ false | some n ↦ n == pos 0 ]

-- `(event['return_value'] or 0) > 0`, the value
abbrev pub child_of : Option ℤ → Option ℕ
child_of v = elim (nonnegative v) [ none ↦ none | some n ↦ if n == 0 then none else some n ]

-- `self.owners.get(request, {request})`
unfoldable pub owners_of : Setup → ℕ → List ℕ
owners_of setup request = elim (get request setup.owners) [ none ↦ request ∷ [] | some s ↦ s ]

-- `socket_state['requests'].update(...)` under `if request`
unfoldable pub claim : Setup → ℕ → Option ℕ → Descriptors → Descriptors
unfolding owners_of
claim setup request none d = d
claim setup request (some g) d = if request == 0 then d else elim (get g d.connections) [
  | none ↦ d
  | some c ↦ record d {
    connections =
        put g (record c { requests = union c.requests (owners_of setup request) }) d.connections;
  }
]

-- a new socket state at (table, fd); its generation is the one of the result
unfoldable pub new_socket : ℕ → ℕ → ℕ → Descriptors → Descriptors
new_socket pid table fd d =
    let generation = d.socket_generation + 1 in
    record d {
      socket_generation = generation;
      sockets = put (table, fd) generation d.sockets;
      connections =
          put generation (record { requests = []; id = NodeId.connection pid fd generation })
            d.connections;
    }

-- socket, accept and accept4: a new state whose close-on-exec mark is as the arguments say
unfoldable pub open_socket : Setup → Call → ℕ → Bool → Descriptors → Touched
unfolding new_socket claim set_close_on_exec
open_socket setup c fd marked d =
    let opened = set_close_on_exec marked (c.table, fd) (new_socket c.event.pid c.table fd d) in
    record {
      descriptors = claim setup c.request (some opened.socket_generation) opened;
      socket = some opened.socket_generation;
      fd = some fd;
      accepted = [];
    }

unfoldable pub untouched : Call → Descriptors → Touched
untouched c d = record { descriptors = d; socket = c.socket; fd = c.fd; accepted = [] }

abbrev pub has_word : Event → String → Bool
has_word e word = contains (codes word) e.args

unfoldable pub accept_socket : Setup → Call → Bool → Descriptors → Touched
unfolding open_socket untouched
accept_socket setup c marked d = elim (nonnegative c.event.return_value) [
  | none ↦ untouched c d
  | some fd ↦
      let opened = open_socket setup c fd marked d in
      let id = NodeId.connection c.event.pid fd (d.socket_generation + 1) in
      elim c.socket [
        | none ↦ opened
        | some g ↦ elim (get g d.connections) [
          | none ↦ opened
          | some listener ↦ record opened {
            accepted =
                GraphRecord.node id (NodeKind.network_connection c.event.pid (some fd))
                ∷ GraphRecord.edge listener.id id EdgeKind.accepted_connection
                    (some (Evidence.trace c.event.source))
                ∷ GraphRecord.edge (NodeId.syscall_at c.event.source) id EdgeKind.accepted none
                ∷ [];
          }
        ]
      ]
]

unfoldable pub connect_socket : Setup → Call → Descriptors → Touched
unfolding untouched claim new_socket
connect_socket setup c d = elim c.fd [
  | none ↦ untouched c d
  | some fd ↦ elim c.socket [
    | some g ↦ untouched c (claim setup c.request (some g) d)
    | none ↦
        let made = new_socket c.event.pid c.table fd d in
        record {
          descriptors = claim setup c.request (some made.socket_generation) made;
          socket = some made.socket_generation;
          fd = c.fd;
          accepted = [];
        }
  ]
]

-- the destination takes the socket of the source, with its own close-on-exec mark
unfoldable pub duplicate : ℕ × ℕ → Option ℕ → Bool → Descriptors → Descriptors
unfolding drop_descriptor set_close_on_exec
duplicate destination none marked d = drop_descriptor destination d
duplicate destination (some g) marked d =
    let dropped = drop_descriptor destination d in
    let shared = record dropped { sockets = put destination g dropped.sockets } in
    if marked then set_close_on_exec true destination shared else shared

-- dup, dup2 and dup3; `onto` tells that the call is dup2 or dup3, which do nothing on one descriptor
unfoldable pub dup_call : Call → Bool → Bool → Descriptors → Touched
unfolding untouched duplicate
dup_call c onto marked d = elim c.fd [
  | none ↦ untouched c d
  | some fd ↦ elim (nonnegative c.event.return_value) [
    | none ↦ untouched c d
    | some target ↦
        if onto && fd == target
        then untouched c d
        else untouched c (duplicate (c.table, target) c.socket marked d)
  ]
]

unfoldable pub fcntl_call : Call → Descriptors → Touched
unfolding untouched duplicate set_close_on_exec contains
fcntl_call c d = elim c.fd [
  | none ↦ untouched c d
  | some fd ↦ elim (nonnegative c.event.return_value) [
    | none ↦ untouched c d
    | some target ↦
        if has_word c.event "F_DUPFD"
        then untouched c
            (duplicate (c.table, target) c.socket (has_word c.event "F_DUPFD_CLOEXEC") d)
        else if has_word c.event "F_SETFD"
        then untouched c (set_close_on_exec (has_word c.event "FD_CLOEXEC") (c.table, fd) d)
        else untouched c d
  ]
]

-- the descriptors of a table with numbers from first to last
unfoldable pub descriptors_in : ℕ → ℕ → ℕ → Descriptors → List (ℕ × ℕ)
descriptors_in table first last d =
    keep (λ key. key.0 == table && (leb first key.1 && leb key.1 last))
      (map (λ item. item.0) d.sockets)

unfoldable pub mark_all : List (ℕ × ℕ) → Descriptors → Descriptors
mark_all keys d = record d { close_on_exec = union d.close_on_exec keys }

unfoldable pub close_numbers : Event → ℕ → Descriptors → Descriptors
unfolding number_pair close_range_has_flag descriptors_in mark_all drop_descriptors
close_numbers e table d = elim (number_pair e.args) [
  | none ↦ d
  | some (first, last, _) ↦
      let keys = descriptors_in table first last d in
      if close_range_has_flag e.args RangeFlag.cloexec
      then mark_all keys d
      else drop_descriptors keys d
]

-- a private copy of the table for the calling thread
unfoldable pub privatise : ℕ → ℕ → Descriptors → Descriptors
unfolding copy_fd_table assign_table
privatise tid table d =
    let copied = copy_fd_table table d in assign_table tid copied.fd_table_serial copied

unfoldable pub close_range_call : Call → Descriptors → Touched
unfolding untouched privatise close_numbers close_range_has_flag
close_range_call c d =
    if is_zero c.event.return_value
    then if close_range_has_flag c.event.args RangeFlag.unshare
      then (let own = privatise c.event.tid c.table d in
          record {
            descriptors = close_numbers c.event own.fd_table_serial own;
            socket = none;
            fd = c.fd;
            accepted = [];
          })
      else record {
        descriptors = close_numbers c.event c.table d;
        socket = none;
        fd = c.fd;
        accepted = [];
      }
    else untouched c d

unfoldable pub clone_call : Call → Descriptors → Touched
unfolding untouched assign_table copy_fd_table clone_has_flag
clone_call c d = elim (child_of c.event.return_value) [
  | none ↦ untouched c d
  | some child ↦
      if clone_has_flag c.event.args CloneFlag.files
      then untouched c (assign_table child c.table d)
      else untouched c (privatise child c.table d)
]

unfoldable pub unshare_call : Call → Descriptors → Touched
unfolding untouched privatise unshares_files
unshare_call c d =
    if is_zero c.event.return_value && unshares_files c.event.args
    then untouched c (privatise c.event.tid c.table d)
    else untouched c d

-- the descriptors of a table that an exec closes
unfoldable pub marked_in : ℕ → Descriptors → List (ℕ × ℕ)
marked_in table d = keep (λ key. key.0 == table) d.close_on_exec

unfoldable pub exec_call : Call → Descriptors → Touched
unfolding untouched privatise marked_in drop_descriptors
exec_call c d =
    if is_zero c.event.return_value
    then (let own = privatise c.event.tid c.table d in
        untouched c (drop_descriptors (marked_in own.fd_table_serial own) own))
    else untouched c d

-- the chain of branches on the name of the call
unfoldable pub touch : Setup → Syscall → Call → Descriptors → Touched
unfolding open_socket untouched contains
touch setup Syscall.socket c d = elim (nonnegative c.event.return_value) [
  | none ↦ untouched c d
  | some fd ↦ open_socket setup c fd (has_word c.event "SOCK_CLOEXEC") d
]
touch setup Syscall.accept c d = accept_socket setup c false d
touch setup Syscall.accept4 c d = accept_socket setup c (has_word c.event "SOCK_CLOEXEC") d
touch setup Syscall.connect c d = connect_socket setup c d
touch setup Syscall.dup c d = dup_call c false false d
touch setup Syscall.dup2 c d = dup_call c true false d
touch setup Syscall.dup3 c d = dup_call c true (has_word c.event "O_CLOEXEC") d
touch setup Syscall.fcntl c d = fcntl_call c d
touch setup Syscall.close_range c d = close_range_call c d
touch setup Syscall.clone c d = clone_call c d
touch setup Syscall.clone3 c d = clone_call c d
touch setup Syscall.fork c d = clone_call c d
touch setup Syscall.vfork c d = clone_call c d
touch setup Syscall.unshare c d = unshare_call c d
touch setup Syscall.execve c d = exec_call c d
touch setup Syscall.execveat c d = exec_call c d
touch setup _ c d = untouched c d
