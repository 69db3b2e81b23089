-- ===== src/Attribution/Types.antt =====
-- The data of attribute.py: markers, trace events, contexts, jobs, operations, graph records, rows
-- and diagnostics. Python dicts with fixed keys are records, strings that the code only builds and
-- compares by their prefix (node ids) are data.
use causpan.Prelude.{ℕ, String, ℤ, Option, List, Dict, Text, Bool}

-- MARKER_KINDS
pub data Kind : Type 0 where
  js_context work_enter work_leave done_enter done_leave : Kind
  install install_queue submit complete invariant_failure duplicate_work : Kind
  ipc_send ipc_enter ipc_leave ipc_cancel : Kind

-- A validated marker. `job` and `unit` are optional fields: `none` for a job that is no text.
pub record Marker : Type 0 where
  pub kind : Kind
  pub tid : ℕ
  pub request : ℕ
  pub operation : ℕ
  pub pointer : ℕ
  pub status : ℤ
  pub job : Option String
  pub unit : Option String

-- The system calls that the attribution names; `other` is any other.
pub data Syscall : Type 0 where
  socket accept accept4 connect dup dup2 dup3 fcntl close_range : Syscall
  clone clone3 fork vfork unshare execve execveat : Syscall
  read readv recvfrom recvmsg write writev sendto sendmsg close : Syscall
  pread64 pwrite64 : Syscall
  other : String → Syscall

-- the name that the trace has for a call
abbrev pub syscall_name : Syscall → String
syscall_name Syscall.socket = "socket"
syscall_name Syscall.accept = "accept"
syscall_name Syscall.accept4 = "accept4"
syscall_name Syscall.connect = "connect"
syscall_name Syscall.dup = "dup"
syscall_name Syscall.dup2 = "dup2"
syscall_name Syscall.dup3 = "dup3"
syscall_name Syscall.fcntl = "fcntl"
syscall_name Syscall.close_range = "close_range"
syscall_name Syscall.clone = "clone"
syscall_name Syscall.clone3 = "clone3"
syscall_name Syscall.fork = "fork"
syscall_name Syscall.vfork = "vfork"
syscall_name Syscall.unshare = "unshare"
syscall_name Syscall.execve = "execve"
syscall_name Syscall.execveat = "execveat"
syscall_name Syscall.read = "read"
syscall_name Syscall.readv = "readv"
syscall_name Syscall.recvfrom = "recvfrom"
syscall_name Syscall.recvmsg = "recvmsg"
syscall_name Syscall.write = "write"
syscall_name Syscall.writev = "writev"
syscall_name Syscall.sendto = "sendto"
syscall_name Syscall.sendmsg = "sendmsg"
syscall_name Syscall.close = "close"
syscall_name Syscall.pread64 = "pread64"
syscall_name Syscall.pwrite64 = "pwrite64"
syscall_name (Syscall.other name) = name

-- the result of `descriptor_rights` in analyze.py
pub record Rights : Type 0 where
  pub fds : List ℕ
  pub decoded : Bool
  pub succeeded : Bool
  pub control_truncated : Bool

pub record Event : Type 0 where
  pub source : String
  pub pid : ℕ
  pub tid : ℕ
  pub syscall : Syscall
  pub args : Text
  pub return_value : Option ℤ
  pub paths : List String
  pub timestamp_ns : ℕ
  pub duration_ns : Option ℕ
  pub completion_ns : Option ℕ
  pub descriptor_rights : Option Rights

pub data Origin : Type 0 where
  async_context worker completion ipc_worker process_inheritance socket_lifecycle unobserved :
      Origin

-- The id of a graph node, one constructor for each prefix that the code writes.
pub data NodeId : Type 0 where
  request join work task process resource : ℕ → NodeId
  ipc ipc_cancelled syscall_at : String → NodeId
  connection : ℕ → ℕ → ℕ → NodeId

-- What supports a record: a trace source, or the session's name for a connection.
pub data Evidence : Type 0 where
  trace : String → Evidence
  lifecycle : NodeId → Evidence

-- `self.state[tid]`, `self.inherited[pid]`
pub record Context : Type 0 where
  pub request : ℕ
  pub operation : ℕ
  pub origin : Origin
  pub ipc_job : Option String
  pub marker_source : Evidence

-- `self.ipc_jobs[job]`
pub record IpcJob : Type 0 where
  pub request : ℕ
  pub started : Bool
  pub finished : Bool
  pub cancelled : Bool
  pub sender_pid : ℕ
  pub sender_tid : ℕ
  pub worker_tid : Option ℕ

-- `self.operations[op]`
pub record Operation : Type 0 where
  pub request : ℕ
  pub started : Bool
  pub finished : Bool
  pub completed : Bool
  pub worker_tid : Option ℕ
  pub status : Option ℤ

-- A socket state, which several descriptors may share.
pub record Connection : Type 0 where
  pub requests : List ℕ
  pub id : NodeId

pub data NodeKind : Type 0 where
  mcp_request causal_join : NodeKind
  ipc_job : ℕ → ℕ → ℕ → String → NodeKind
  ipc_cancellation : ℕ → String → NodeKind
  async_work : String → ℕ → NodeKind
  execution_interval : ℕ → NodeKind
  runtime_span : ℕ → NodeKind
  network_connection : ℕ → Option ℕ → NodeKind
  child_process : ℕ → NodeKind
  syscall_event : Event → NodeKind
  observed_resource : String → NodeKind

pub data EdgeKind : Type 0 where
  joined ipc_sent cancelled_before_execution created_task polled submitted : EdgeKind
  accepted_connection accepted connected socket_effect spawned executed : EdgeKind
  read_from wrote_to referenced attempted_access : EdgeKind

pub data GraphRecord : Type 0 where
  node : NodeId → NodeKind → GraphRecord
  edge : NodeId → NodeId → EdgeKind → Option Evidence → GraphRecord

-- a JSON-RPC id
pub data RpcId : Type 0 where
  number : ℤ → RpcId
  text : String → RpcId

pub data Attribution : Type 0 where
  bound multi_parent no_request_context unknown ambiguous_resource invalid_capture : Attribution

pub record Row : Type 0 where
  pub event : Event
  pub context : Option ℕ
  pub request_ids : List RpcId
  pub request_id : Option RpcId
  pub ipc_job : Option String
  pub operation : ℕ
  pub origin : Origin
  pub context_evidence : Option Evidence
  pub connection_id : Option ℕ
  pub candidate_request_ids : List RpcId
  pub attribution : Attribution

-- The diagnostics of `self.errors`, one constructor for each message.
pub data Error : Type 0 where
  sender_mismatch invalid_job invalid_cancellation invalid_entry invalid_leave :
      Option String → Error
  duplicate_operation span_changed_identity invalid_work_entry : ℕ → Error
  leave_without_enter invalid_completion unknown_request : ℕ → Error
  invariant_failure duplicate_work : Error
  transition_inside_job : String → Error
  unknown_join_parent : ℕ → Error
  invalid_context_identity dispatch_mismatch marker_stream_differs : Error
  parser_quality : String → ℕ → Error
  completed_unobserved cancelled_executed lack_completion : ℕ → Error
  unfinished_ipc_jobs unclosed_work_context : Error
  ring_evidence_invalid : String → Error
  oracle_disagreements : ℕ → Error

-- One line of the request map that the loader accepts.
pub data MapRecord : Type 0 where
  request : ℕ → Option RpcId → MapRecord
  join : ℕ → List ℕ → MapRecord

-- What `_initialize` computes once and nothing changes afterwards.
pub record Setup : Type 0 where
  pub roots : Dict ℕ (Option RpcId)
  pub owners : Dict ℕ (List ℕ)
  pub joins : Dict ℕ (List ℕ)
  pub request_map_path : String
  pub native_events_path : String
