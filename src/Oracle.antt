-- ===== src/Oracle.antt =====
-- `analyze` of experiments/mcp/analyze.py after the traces are read: the tool calls of a protocol
-- log, the requests that own a path, and the scores of two baselines. What is written to files and
-- the report of the parser are left. A line of the log has the fields that the code reads.
pub mod Owners
use causpan.Prelude.{
  ℕ, ◌+◌, String, string_eq, ℤ, pos, int_eq, Option, none, some, List, [], ◌∷◌, ◌++◌, Dict, get,
  has, put, Bool, true, false, ◌&&◌, ◌||◌, not, ◌==◌, nat_eq, member, add, union, any, keep, map,
  length, leb, ltb, codes, starts_with, contains, Result, ok, err, ◌>>=◌, ◌>>◌, or_raise,
  if◌then◌else◌,
}
use causpan.Attribution.Types.{RpcId, Event, Syscall}
use causpan.Attribution.RpcIds.{rpc_eq}

-- `'id' in m`, and the id. An id of another type names no call.
pub data MessageId : Type 0 where
  absent other_type : MessageId
  valid : RpcId → MessageId

-- the keys of `params['arguments']` that name paths
pub record Arguments : Type 0 where
  pub path : Option String
  pub source : Option String
  pub destination : Option String
  pub paths : List String

-- `row['message']`; `failed` is `'error' in m or m.get('result',{}).get('isError',False)`
pub record Message : Type 0 where
  pub id : MessageId
  pub method : Option String
  pub tool : String
  pub arguments : Arguments
  pub failed : Bool

pub data Direction : Type 0 where
  request response other : Direction

pub record Line : Type 0 where
  pub direction : Direction
  pub message : Message
  pub wall_ns : ℕ

-- `calls[id]`; `failed` is the key `error`, which a response adds
pub record Call : Type 0 where
  pub id : RpcId
  pub start_ns : ℕ
  pub end_ns : Option ℕ
  pub tool : String
  pub arguments : Arguments
  pub failed : Option Bool

pub data Error : Type 0 where
  invalid_request_id call_without_id unknown_server_pid : Error

-- the locals of the first loop
pub record Protocol : Type 0 where
  pub calls : Dict RpcId Call
  pub seen_ids : List RpcId

abbrev pub is_request : Line → Bool
is_request line = elim line.direction [ Direction.request ↦ true | _ ↦ false ]

abbrev pub is_response : Line → Bool
is_response line = elim line.direction [ Direction.response ↦ true | _ ↦ false ]

-- `m.get('method') == 'tools/call'`
abbrev pub is_tool_call : Message → Bool
is_tool_call m = elim m.method [ none ↦ false | some name ↦ name == "tools/call" ]

abbrev pub has_method : Message → Bool
has_method m = elim m.method [ none ↦ false | some _ ↦ true ]

-- the check that no id is used twice
unfoldable pub check_id : Line → List RpcId → Result Error (List RpcId)
unfolding member add
check_id line seen =
    if is_request line && has_method line.message
    then elim line.message.id [
      | MessageId.absent ↦ ok seen
      | MessageId.other_type ↦ err Error.invalid_request_id
      | MessageId.valid id ↦
          if member id seen then err Error.invalid_request_id else ok (add id seen)
    ]
    else ok seen

abbrev pub started_call : RpcId → Line → Call
started_call id line = record {
  id = id;
  start_ns = line.wall_ns;
  end_ns = none;
  tool = line.message.tool;
  arguments = line.message.arguments;
  failed = none;
}

-- the response to a call
unfoldable pub end_call : RpcId → Line → Dict RpcId Call → Dict RpcId Call
unfolding get put
end_call id line calls = elim (get id calls) [
  | none ↦ calls
  | some c ↦
      put id (record c { end_ns = some line.wall_ns; failed = some line.message.failed }) calls
]

-- A tool call of another type of id was refused before; one with no id is the KeyError.
unfoldable pub note_call : Line → Dict RpcId Call → Result Error (Dict RpcId Call)
unfolding put end_call
note_call line calls =
    if is_request line && is_tool_call line.message
    then elim line.message.id [
      | MessageId.valid id ↦ ok (put id (started_call id line) calls)
      | _ ↦ err Error.call_without_id
    ]
    else if is_response line
    then elim line.message.id [ MessageId.valid id ↦ ok (end_call id line calls) | _ ↦ ok calls ]
    else ok calls

-- one round
unfoldable pub read_line : Line → Protocol → Result Error Protocol
unfolding check_id note_call
read_line line p = do
  seen ← check_id line p.seen_ids
  calls ← note_call line p.calls
  ok (record { calls = calls; seen_ids = seen })

unfoldable pub read_protocol : List Line → Protocol → Result Error Protocol
unfolding read_line
read_protocol [] p = ok p
read_protocol (line ∷ lines) p = read_line line p >>= λ next. read_protocol lines next

abbrev pub no_calls : Protocol
no_calls = record { calls = []; seen_ids = [] }

-- `owners[path].add(id)` on a defaultdict
unfoldable pub own : RpcId → String → Dict String (List RpcId) → Dict String (List RpcId)
unfolding get put add
own id path owners = elim (get path owners) [
  | none ↦ put path (add id []) owners
  | some ids ↦ put path (add id ids) owners
]

unfoldable pub own_all : RpcId → List String → Dict String (List RpcId) → Dict String (List RpcId)
unfolding own
own_all id [] owners = owners
own_all id (path ∷ paths) owners = own_all id paths (own id path owners)

abbrev pub optional_path : Option String → List String
optional_path none = []
optional_path (some path) = path ∷ []

-- the paths of a call, in the order of the loop
unfoldable pub call_paths : Call → List String
call_paths c =
    optional_path c.arguments.path
    ++ (optional_path c.arguments.source
        ++ (optional_path c.arguments.destination ++ c.arguments.paths))

unfoldable pub owners_of : Dict RpcId Call → Dict String (List RpcId) → Dict String (List RpcId)
unfolding own_all call_paths
owners_of [] owners = owners
owners_of ((_, c) ∷ calls) owners = owners_of calls (own_all c.id (call_paths c) owners)

-- `any(p.startswith(root) for p in e['paths'])`
unfoldable pub in_sandbox : String → Event → Bool
unfolding starts_with
in_sandbox root e = any (λ p. starts_with (codes root) (codes p)) e.paths

-- `set().union(*(owners.get(path,set()) for path in e['paths']))`
unfoldable pub possible_owners : Dict String (List RpcId) → List String → List RpcId
unfolding get union
possible_owners owners [] = []
possible_owners owners (path ∷ paths) =
    let rest = possible_owners owners paths in
    elim (get path owners) [ none ↦ rest | some ids ↦ union ids rest ]

-- `truth`
unfoldable pub truth_of : Dict String (List RpcId) → Event → Option RpcId
unfolding possible_owners
truth_of owners e = elim (possible_owners owners e.paths) [
  | [] ↦ none
  | id ∷ more ↦ elim more [ [] ↦ some id | _ ∷ _ ↦ none ]
]

-- the execution of one of the servers
unfoldable pub is_server_start : Event → Bool
unfolding contains
is_server_start e = elim e.syscall [
  | Syscall.execve ↦
      (contains (codes "server-filesystem/dist/index.js") e.args
        || (contains (codes "control-server.mjs") e.args
            || contains (codes "causpan-tokio-server") e.args))
      && elim e.return_value [ none ↦ false | some n ↦ n == pos 0 ]
  | _ ↦ false
]

-- `len(set(roots)) == 1`, with the first
unfoldable pub only_pid : List ℕ → Option ℕ
unfolding union
only_pid [] = none
only_pid (pid ∷ pids) = if length (union [] (pid ∷ pids)) == 1 then some pid else none

unfoldable pub server_pid : List Event → Option ℕ
unfolding is_server_start only_pid
server_pid events = only_pid (map (λ (e : Event). e.pid) (keep is_server_start events))

-- `c['end_ns'] is not None and c['start_ns'] <= at <= c['end_ns']`
unfoldable pub covers : ℕ → Call → Bool
covers at c = elim c.end_ns [ none ↦ false | some end_ns ↦ leb c.start_ns at && leb at end_ns ]

-- `[c['id'] for c in calls.values() if ...]`
unfoldable pub covering : ℕ → Dict RpcId Call → List RpcId
unfolding covers
covering at [] = []
covering at ((_, c) ∷ calls) =
    let rest = covering at calls in if covers at c then c.id ∷ rest else rest

abbrev pub call_ids : Dict RpcId Call → List RpcId
call_ids [] = []
call_ids ((id, _) ∷ calls) = id ∷ call_ids calls

pub data Strategy : Type 0 where
  by_pid by_request_window : Strategy

unfoldable pub candidates_of : Strategy → ℕ → Dict RpcId Call → Event → List RpcId
unfolding covering
candidates_of Strategy.by_pid pid calls e = if e.pid == pid then call_ids calls else []
candidates_of Strategy.by_request_window pid calls e =
    if e.pid == pid then covering e.timestamp_ns calls else []

-- `counts[strategy]`
pub record Counts : Type 0 where
  pub events : ℕ
  pub ambiguous : ℕ
  pub singleton : ℕ
  pub unattributed : ℕ
  pub oracle_labelled : ℕ
  pub correct_singleton : ℕ
  pub wrong_singleton : ℕ
  pub truth_in_candidates : ℕ

-- the counters that a list of candidates adds to
unfoldable pub count_candidates : List RpcId → Counts → Counts
count_candidates [] n = record n { events = n.events + 1; unattributed = n.unattributed + 1 }
count_candidates (_ ∷ []) n = record n { events = n.events + 1; singleton = n.singleton + 1 }
count_candidates (_ ∷ _ ∷ _) n = record n { events = n.events + 1; ambiguous = n.ambiguous + 1 }

abbrev pub one_if : Bool → ℕ
one_if true = 1
one_if false = 0

-- `ids == [truth]`
abbrev pub is_exactly : RpcId → List RpcId → Bool
is_exactly truth [] = false
is_exactly truth (id ∷ []) = id == truth
is_exactly truth (_ ∷ _ ∷ _) = false

-- `len(ids) == 1 and ids[0] != truth`
abbrev pub is_other_one : RpcId → List RpcId → Bool
is_other_one truth [] = false
is_other_one truth (id ∷ []) = not (id == truth)
is_other_one truth (_ ∷ _ ∷ _) = false

-- and those of the oracle
unfoldable pub count_truth : Option RpcId → List RpcId → Counts → Counts
unfolding member
count_truth none ids n = n
count_truth (some truth) ids n = record n {
  oracle_labelled = n.oracle_labelled + 1;
  correct_singleton = n.correct_singleton + one_if (is_exactly truth ids);
  wrong_singleton = n.wrong_singleton + one_if (is_other_one truth ids);
  truth_in_candidates = n.truth_in_candidates + one_if (member truth ids);
}

-- the loop over the events of the sandbox, for one strategy
unfoldable pub score :
    Strategy → ℕ → Dict RpcId Call → Dict String (List RpcId) → List Event → Counts → Counts
unfolding candidates_of truth_of count_candidates count_truth
score strategy pid calls owners [] n = n
score strategy pid calls owners (e ∷ es) n =
    let ids = candidates_of strategy pid calls e in
    score strategy pid calls owners es
      (count_truth (truth_of owners e) ids (count_candidates ids n))

abbrev pub no_counts : Counts
no_counts = record {
  events = 0;
  ambiguous = 0;
  singleton = 0;
  unattributed = 0;
  oracle_labelled = 0;
  correct_singleton = 0;
  wrong_singleton = 0;
  truth_in_candidates = 0;
}

-- What `analyze` says of a session: its calls, the process of the server, and the scores.
pub record Analysis : Type 0 where
  pub calls : Dict RpcId Call
  pub pid : ℕ
  pub by_pid : Counts
  pub by_request_window : Counts

unfoldable pub analyze : List Line → List Event → String → Result Error Analysis
unfolding read_protocol server_pid owners_of in_sandbox score
analyze lines events root = do
  p ← read_protocol lines no_calls
  pid ← or_raise (server_pid events) Error.unknown_server_pid
  let owners = owners_of p.calls []
  let data_ = keep (in_sandbox root) events
  ok (record {
    calls = p.calls;
    pid = pid;
    by_pid = score Strategy.by_pid pid p.calls owners data_ no_counts;
    by_request_window = score Strategy.by_request_window pid p.calls owners data_ no_counts;
  })
