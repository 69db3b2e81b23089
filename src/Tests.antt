-- ===== src/Tests.antt =====
-- The theorems on concrete inputs: a map of two requests and their join, a job that is sent, entered
-- and left, and the system calls of a client that connects, duplicates its descriptor and runs
-- another program.
mod Inputs
mod Graphs
mod Rings
mod Scores
mod Files
mod Batches
mod Datagrams
mod Merges
mod Epochs
mod Preparing
use causpan.Prelude.{
  ℕ, Bool-cases, ◌+◌, ◌≡◌, ◌≢◌, ◌⊎◌, ◌↔◌, refl, inl, inr, String, Option, none, some, none≢some,
  some_injective, List, [], ◌∷◌, get, has, put, add, union, sorted, subst, All, nat_eq, pair_eq,
  string_eq, member, ℤ, pos, Json, ◌&&◌, ◌==◌, not, if◌then◌else◌, true, false, arith,
}
use causpan.Attribution.Types.{Kind, Marker, Syscall, Row, RpcId, Setup}
use causpan.Attribution.Markers.{transition, process_marker}
use causpan.Attribution.Trace.{Attributor, process_trace}
use causpan.Attribution.Syscalls.Owned.{HasId, IsOwned, IsKnown, IsSetup}
use causpan.Attribution.Initialize.Owners.{IsOrdered}
use causpan.Attribution.Run.Well.{IsKnownNote}
use causpan.Attribution.Run.{attribute, observe_all, published, Output}
use causpan.Attribution.Types.{Event}
use causpan.Attribution.Runtime.{Runtime}
use causpan.Attribution.Ipc.Invariant.{IsConsistent}
use causpan.Attribution.Markers.Jobs.{process_marker-IsConsistent}
use causpan.Attribution.Markers.Lifecycle.{Advances, process_marker-JobStep}
use causpan.Attribution.Descriptors.{Descriptors, fd_table, copy_fd_table, set_close_on_exec}
use causpan.Attribution.Descriptors.Copy.{copy_of, copy_fd_table_lem}
use causpan.Attribution.Descriptors.Sound.{
  IsSound, IsSound-IsAllocated, fd_table-IsSound, set_close_on_exec-IsSound,
}
use causpan.Attribution.Syscalls.{new_socket, touch, has_word, exec_call}
use causpan.Attribution.Syscalls.Steps.{new_socket-IsSound}
use causpan.Attribution.Syscalls.Sound.{IsSoundCall, IsSoundTouch}
use causpan.Attribution.Syscalls.Touch.{touch-IsSoundTouch}
use causpan.Attribution.Syscalls.Effects.{IsDuplicate, dup_call_lem, exec_call_lem}
use causpan.Attribution.Trace.Total.{IsWell}
use causpan.Attribution.Trace.Well.{process_trace-IsWell}
use causpan.Attribution.Run.Well.{observe_all-IsWell}
use causpan.Attribution.Bind.{bind_socket_reads}
use causpan.Attribution.Run.Bound.{LateBinding, Pairwise, bind_socket_reads-LateBinding}
use causpan.Attribution.Validate.{validate}
use causpan.Attribution.Validate.Complete.{IsComplete, validate-IsComplete}
use causpan.Attribution.Rows.{Scope, make_row, row_of}
use causpan.Attribution.Rows.Fits.{IsClassified, make_row-IsClassified}
use causpan.Attribution.Initialize.{no_descriptors, setup_of, initialize, owners_from}
use causpan.Attribution.Initialize.Start.{
  IsIdentified, initialize-attribute, initialize-IsWell, setup_of-IsSetup,
}
use causpan.Attribution.Initialize.Closure.{Owns, owners_from-Owns}
use causpan.Attribution.Run.Closed.{IsValidRun, attribute-IsValidRun}
use causpan.Attribution.Mapping.{load_request_mapping}
use causpan.Attribution.Mapping.Load.{IsBounded, load_request_mapping-IsOrdered}
use Inputs.{
  connections, late_row, socket_state, caller, call_of, note_event, read_event, exec_caller,
  dup_caller, config, sources, lines, records, events, loaded, marker_of,
}

abbrev setup : Setup
setup = setup_of config records

abbrev start : Attributor
start = initialize config records

records-IsOrdered : IsOrdered [] records
records-IsOrdered = (load_request_mapping-IsOrdered lines records loaded).0

records-IsIdentified : All IsIdentified records
records-IsIdentified = ((RpcId.number (pos 7), refl), ((RpcId.text "b", refl), (tt, tt)))

setup-IsSetup : IsSetup setup
setup-IsSetup = setup_of-IsSetup config records records-IsOrdered records-IsIdentified

join_known : has 3 setup.owners ≡ true
unfolding setup_of get put union
join_known = refl

no_note : (m : Marker) → none ≡ some m → IsKnown setup m.request
no_note m p = absurd (none≢some p)

join_note :
    (m : Marker) → some (marker_of Kind.js_context 3 none) ≡ some m → IsKnown setup m.request
join_note m p = subst (λ n. IsKnown setup n.request) (some_injective p) (inr join_known)

events_known : All (IsKnownNote setup) events
events_known = (join_note, (no_note, (no_note, tt)))

initialize-attribute_example :
    (o : Output) × (attribute (setup_of config records) sources events (initialize config records)
      ≡ some o)
    × All IsClassified o.rows
initialize-attribute_example =
    initialize-attribute config sources lines records events loaded records-IsIdentified
      events_known

attribute-IsValidRun_example :
    (published (attribute setup sources events start)
      ≡ record { valid = false; rows = []; graph = [] })
    ⊎ ((published (attribute setup sources events start)).valid ≡ true
        × IsValidRun setup sources events start (published (attribute setup sources events start)))
attribute-IsValidRun_example = attribute-IsValidRun setup sources events start

-- the run of these inputs is valid
run_valid : (published (attribute setup sources events start)).valid ≡ true
unfolding attribute published get put add union sorted setup_of transition initialize
run_valid = refl

start-IsWell : IsWell setup start
start-IsWell = initialize-IsWell config records

observe_all-IsWell_example :
    (b : Attributor) × (observe_all setup events start ≡ some b) × IsWell setup b
observe_all-IsWell_example =
    observe_all-IsWell setup events start setup-IsSetup events_known start-IsWell

process_trace-IsWell_example :
    (b : Attributor) × (process_trace setup read_event start ≡ some b) × IsWell setup b
process_trace-IsWell_example =
    process_trace-IsWell setup read_event start setup-IsSetup start-IsWell

abbrev sent : Runtime
unfolding process_marker
sent =
    process_marker setup Kind.ipc_send (marker_of Kind.ipc_send 0 (some "j")) note_event
      start.runtime

sent-IsConsistent : IsConsistent sent
unfolding sent
sent-IsConsistent =
    process_marker-IsConsistent setup Kind.ipc_send (marker_of Kind.ipc_send 0 (some "j"))
      note_event start.runtime start-IsWell.consistent

abbrev enter_marker : Marker
enter_marker = marker_of Kind.ipc_enter 0 (some "j")

process_marker-IsConsistent_example :
    IsConsistent (process_marker setup Kind.ipc_enter enter_marker note_event sent)
process_marker-IsConsistent_example =
    process_marker-IsConsistent setup Kind.ipc_enter enter_marker note_event sent sent-IsConsistent

process_marker-JobStep_example :
    Advances sent.ipc_jobs
      (process_marker setup Kind.ipc_enter enter_marker note_event sent).ipc_jobs
process_marker-JobStep_example =
    process_marker-JobStep setup Kind.ipc_enter enter_marker note_event sent sent-IsConsistent

owners_from-Owns_example :
    ((s : List ℕ) × (get 3 (owners_from ([], []) records).0 ≡ some s) × (member 2 s ≡ true))
    ↔ Owns records 3 2
owners_from-Owns_example = owners_from-Owns records 3 2 records-IsOrdered

load_request_mapping-IsOrdered_example : IsOrdered [] records × All IsBounded records
load_request_mapping-IsOrdered_example = load_request_mapping-IsOrdered lines records loaded

unfoldable opened : Descriptors
opened = set_close_on_exec true (1, 4) (new_socket 5 1 4 (fd_table 5 no_descriptors).1)

opened_is : opened ≡ socket_state
unfolding opened fd_table new_socket set_close_on_exec get put add
opened_is = refl

opened-IsSound : IsSound opened
unfolding opened initialize fd_table get new_socket
opened-IsSound =
    let tables = fd_table-IsSound 5 no_descriptors start-IsWell.sound in
    set_close_on_exec-IsSound true 1 4 _ (new_socket-IsSound 5 1 4 _ tables.0 tables.1) tables.1

socket_state-IsSound : IsSound socket_state
socket_state-IsSound = subst IsSound opened_is opened-IsSound

caller-IsSoundCall : (e : Event) → IsSoundCall (caller e (some 1)) socket_state
unfolding get
caller-IsSoundCall e = record {
  allocated = omega arith;
  known = λ g p. subst (λ h. has h socket_state.connections ≡ true) (some_injective p) refl;
}

exec_call_lem_example :
    (get 5 (exec_call exec_caller socket_state).descriptors.fd_tables
      ≡ some (socket_state.fd_table_serial + 1))
    × ((n : ℕ)
        → get
            (socket_state.fd_table_serial + 1, n)
            (exec_call exec_caller socket_state).descriptors.sockets
          ≡ (if member (1, n) socket_state.close_on_exec
              then none
              else get (1, n) socket_state.sockets))
    × ((t n : ℕ)
        → t ≢ socket_state.fd_table_serial + 1
        → get (t, n) (exec_call exec_caller socket_state).descriptors.sockets
          ≡ get (t, n) socket_state.sockets)
exec_call_lem_example =
    exec_call_lem exec_caller socket_state socket_state-IsSound
      (caller-IsSoundCall (call_of "t:4" Syscall.execve "4" (pos 0))) refl

copy_fd_table_lem_example :
    ((n : ℕ)
      → get (copy_of socket_state, n) (copy_fd_table 1 socket_state).sockets
        ≡ get (1, n) socket_state.sockets)
    × ((n : ℕ)
        → member (copy_of socket_state, n) (copy_fd_table 1 socket_state).close_on_exec
          ≡ (has (1, n) socket_state.sockets && member (1, n) socket_state.close_on_exec))
    × ((t n : ℕ)
        → t ≢ copy_of socket_state
        → (get (t, n) (copy_fd_table 1 socket_state).sockets ≡ get (t, n) socket_state.sockets)
          × (member (t, n) (copy_fd_table 1 socket_state).close_on_exec
              ≡ member (t, n) socket_state.close_on_exec))
copy_fd_table_lem_example =
    copy_fd_table_lem 1 socket_state (IsSound-IsAllocated socket_state-IsSound)
      (caller-IsSoundCall note_event).allocated

touch-IsSoundTouch_example : IsSoundTouch (touch setup Syscall.execve exec_caller socket_state)
touch-IsSoundTouch_example =
    touch-IsSoundTouch setup Syscall.execve exec_caller socket_state socket_state-IsSound
      (caller-IsSoundCall (call_of "t:4" Syscall.execve "4" (pos 0)))

abbrev target : ℕ
target = 6

abbrev source : ℕ
source = 4

source_held : dup_caller.socket ≡ get (dup_caller.table, source) socket_state.sockets
unfolding get
source_held = refl

dup_call_lem_example :
    IsDuplicate dup_caller socket_state source target false false
      (touch setup Syscall.dup dup_caller socket_state).descriptors
    × IsDuplicate dup_caller socket_state source target
        (source == target)
        false
        (touch setup Syscall.dup2 dup_caller socket_state).descriptors
    × IsDuplicate dup_caller socket_state source target
        (source == target)
        (has_word dup_caller.event "O_CLOEXEC")
        (touch setup Syscall.dup3 dup_caller socket_state).descriptors
dup_call_lem_example =
    dup_call_lem setup dup_caller socket_state source target refl source_held refl

no_diagnostic : validate sources.quality [] [] start.runtime ≡ []
unfolding validate initialize
no_diagnostic = refl

validate-IsComplete_example : IsComplete sources.quality [] [] start.runtime
validate-IsComplete_example = validate-IsComplete sources.quality [] [] start.runtime no_diagnostic

abbrev join_scope : Scope
join_scope = record { request = 3; context = none }

abbrev join_ids : List RpcId
join_ids = RpcId.number (pos 7) ∷ RpcId.text "b" ∷ []

made :
    make_row setup read_event join_scope none none
    ≡ some (row_of read_event join_scope none join_ids [])
unfolding make_row setup_of get put union sorted
made = refl

one-IsOwned : IsOwned setup connections
unfolding get setup_of put
one-IsOwned = record {
  at = λ g c p. elim (Bool-cases (1 == g)) [
    | inl q ↦
        subst (λ v. All (HasId setup) v.requests) (some_injective (rw q at p))
          ((RpcId.number (pos 7), refl, refl), tt)
    | inr q ↦ absurd (none≢some (rw q at p))
  ];
}

bind_socket_reads-LateBinding_example :
    (after : List Row) × (n : ℕ) × (bind_socket_reads setup connections (late_row ∷ [])
      ≡ some (after, n))
    × Pairwise (LateBinding setup connections) (late_row ∷ []) after
bind_socket_reads-LateBinding_example =
    bind_socket_reads-LateBinding setup connections (late_row ∷ []) one-IsOwned
