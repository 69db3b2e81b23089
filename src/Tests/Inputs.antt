-- ===== src/Tests/Inputs.antt =====
-- The inputs of the tests.
use causpan.Prelude.{
  ℕ, Dict, ◌≡◌, refl, String, Option, none, some, List, [], ◌∷◌, ℤ, pos, Json, item_list, codes,
  get, put, add, nat_eq, string_eq,
}
use causpan.Attribution.Types.{
  Kind, Marker, Syscall, Event, RpcId, NodeId, MapRecord, Connection, Row, Origin, Attribution,
}
use causpan.Attribution.Run.{Observed, Sources}
use causpan.Attribution.Initialize.{Config}
use causpan.Attribution.Descriptors.{Descriptors}
use causpan.Attribution.Syscalls.{Call}
use causpan.Attribution.Mapping.{load_request_mapping}

abbrev pub config : Config
config = record {
  request_map_path = "/run/request-map.jsonl";
  native_events_path = "/run/native-events.jsonl";
  dispatch_errors = [];
}

abbrev pub lines : List (Option (List (String × Json)))
lines =
    some (("context", Json.integer (pos 1)) ∷ ("rpc_id", Json.integer (pos 7)) ∷ [])
    ∷ some (("context", Json.integer (pos 2)) ∷ ("rpc_id", Json.text "b") ∷ [])
    ∷ some (
        ("context", Json.integer (pos 3))
        ∷ ("kind", Json.text "join")
        ∷ ("parents", Json.array (item_list (Json.integer (pos 1) ∷ Json.integer (pos 2) ∷ [])))
        ∷ [])
    ∷ []

abbrev pub records : List MapRecord
records =
    MapRecord.request 1 (some (RpcId.number (pos 7)))
    ∷ MapRecord.request 2 (some (RpcId.text "b"))
    ∷ MapRecord.join 3 (1 ∷ 2 ∷ [])
    ∷ []

pub loaded : load_request_mapping lines ≡ some records
unfolding load_request_mapping get put add
loaded = refl

abbrev pub marker_of : Kind → ℕ → Option String → Marker
marker_of kind request job = record {
  kind = kind;
  tid = 5;
  request = request;
  operation = 0;
  pointer = 0;
  status = pos 0;
  job = job;
  unit = none;
}

abbrev pub call_of : String → Syscall → String → ℤ → Event
call_of source syscall args value = record {
  source = source;
  pid = 5;
  tid = 5;
  syscall = syscall;
  args = codes args;
  return_value = some value;
  paths = [];
  timestamp_ns = 1;
  duration_ns = some 1;
  completion_ns = some 2;
  descriptor_rights = none;
}

abbrev pub note_event : Event
note_event = call_of "t:1" Syscall.write "9, \"\", 0" (pos 0)

abbrev pub read_event : Event
read_event = call_of "t:6" Syscall.read "4, \"x\", 1" (pos 1)

abbrev pub events : List Observed
events =
    record { event = note_event; note = some (marker_of Kind.js_context 3 none) }
    ∷ record { event = call_of "t:2" Syscall.socket "AF_INET, SOCK_STREAM" (pos 4); note = none }
    ∷ record { event = call_of "t:3" Syscall.write "4, \"x\", 1" (pos 1); note = none }
    ∷ []

abbrev pub sources : Sources
sources = record {
  quality = record {
    unparsed = 0;
    orphan_resumed = 0;
    incomplete_at_eof = 0;
    non_timestamp_lines = 0;
  };
  native_log = marker_of Kind.js_context 3 none ∷ [];
  oracle = [];
  added_records = [];
  adapter_errors = [];
}

-- the descriptors of a thread with a connected socket that an exec closes
abbrev pub socket_state : Descriptors
socket_state = record {
  sockets = ((1, 4), 1) ∷ [];
  close_on_exec = (1, 4) ∷ [];
  fd_tables = (5, 1) ∷ [];
  fd_table_serial = 1;
  socket_generation = 1;
  connections = (1, record { requests = []; id = NodeId.connection 5 4 1 }) ∷ [];
}

abbrev pub caller : Event → Option ℕ → Call
caller e socket = record { event = e; request = 1; table = 1; fd = some 4; socket = socket }

abbrev pub exec_caller : Call
exec_caller = caller (call_of "t:4" Syscall.execve "4" (pos 0)) (some 1)

abbrev pub dup_caller : Call
dup_caller = caller (call_of "t:5" Syscall.dup2 "4, 6" (pos 6)) (some 1)

-- a connection of the first request, and a read on it outside any request
abbrev pub connections : Dict ℕ Connection
connections = (1, record { requests = 1 ∷ []; id = NodeId.connection 5 4 1 }) ∷ []

abbrev pub late_row : Row
late_row = record {
  event = read_event;
  context = some 0;
  request_ids = [];
  request_id = none;
  ipc_job = none;
  operation = 0;
  origin = Origin.unobserved;
  context_evidence = none;
  connection_id = some 1;
  candidate_request_ids = [];
  attribution = Attribution.unknown;
}
