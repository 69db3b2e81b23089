-- ===== src/Tests/Scores.antt =====
-- The theorems on the path oracle and on the compared strategies, on concrete inputs: two calls that
-- overlap, and the events of a server that opens and reads a file of each.
use causpan.Prelude.{
  ℕ, ◌≡◌, ◌↔◌, refl, String, string_eq, ℤ, pos, int_eq, Option, none, some, List, [], ◌∷◌, Bool,
  true, false, codes, get, put, add, union, member, ok, err, Dict, In,
}
use causpan.Attribution.Types.{RpcId, Event, Syscall}
use causpan.Attribution.RpcIds.{rpc_eq}
use causpan.Oracle.{
  Direction, Line, MessageId, Arguments, Call, Protocol, Error, read_protocol, no_calls, truth_of,
  owners_of,
}
use causpan.Oracle.Owners.{names_any, truth_of-only}
use causpan.Baselines.{
  Tally, Labelled, annotate, build_fd_epoch, evaluate_strategy, strategy_otel,
  strategy_tetragon_best, strategy_camflow, strategy_tetragon_fd, map_lines, no_call_map,
  load_causal_map, Claim,
}
use causpan.Baselines.Counts.{Counted, evaluate_strategy-Counted}
use causpan.Baselines.Choices.{IsCovering, IsMade, epoch_of, best_time, strategies-AreCovering}
use causpan.Baselines.Agrees.{without_errors, map_lines-read_protocol}

abbrev a_id : RpcId
a_id = RpcId.number (pos 1)

abbrev b_id : RpcId
b_id = RpcId.text "b"

abbrev on_path : String → Arguments
on_path p = record { path = some p; source = none; destination = none; paths = [] }

abbrev asked : RpcId → String → ℕ → Line
asked id p wall = record {
  direction = Direction.request;
  message = record {
    id = MessageId.valid id;
    method = some "tools/call";
    tool = "read_file";
    arguments = on_path p;
    failed = false;
  };
  wall_ns = wall;
}

abbrev answered : RpcId → Bool → ℕ → Line
answered id failed wall = record {
  direction = Direction.response;
  message = record {
    id = MessageId.valid id;
    method = none;
    tool = "";
    arguments = on_path "";
    failed = failed;
  };
  wall_ns = wall;
}

abbrev log : List Line
log =
    asked a_id "/s/a" 10
    ∷ asked b_id "/s/b" 20
    ∷ answered a_id false 40
    ∷ answered b_id true 50
    ∷ []

abbrev call_of : RpcId → String → ℕ → ℕ → Bool → Call
call_of id p start end_ failed = record {
  id = id;
  start_ns = start;
  end_ns = some end_;
  tool = "read_file";
  arguments = on_path p;
  failed = some failed;
}

abbrev calls : Dict RpcId Call
calls = (a_id, call_of a_id "/s/a" 10 40 false) ∷ (b_id, call_of b_id "/s/b" 20 50 true) ∷ []

abbrev read_log : Protocol
read_log = record { calls = calls; seen_ids = a_id ∷ b_id ∷ [] }

reads : read_protocol log no_calls ≡ ok read_log
unfolding read_protocol get put add
reads = refl

-- an id that is used again
reuse :
    read_protocol (asked a_id "/s/a" 10 ∷ asked a_id "/s/b" 20 ∷ []) no_calls
    ≡ err Error.invalid_request_id
unfolding read_protocol get put add
reuse = refl

map_lines-read_protocol_example : (map_lines log no_call_map).calls ≡ without_errors calls
map_lines-read_protocol_example = map_lines-read_protocol log read_log reads

abbrev event : Syscall → String → ℤ → String → ℕ → Event
event name args result path time = record {
  source = "t:1";
  pid = 9;
  tid = 9;
  syscall = name;
  args = codes args;
  return_value = some result;
  paths = path ∷ [];
  timestamp_ns = time;
  duration_ns = some 1;
  completion_ns = some time;
  descriptor_rights = none;
}

abbrev opens_a : Event
opens_a = event (Syscall.other "openat") "AT_FDCWD, \"/s/a\"" (pos 3) "/s/a" 15

abbrev reads_a : Event
reads_a = event Syscall.read "3</s/a>, \"\", 10" (pos 0) "/s/a" 30

abbrev events : List Event
events =
    event Syscall.execve "\"node\", [\"server-filesystem/dist/index.js\"]" (pos 0) "/bin/node" 5
    ∷ opens_a
    ∷ reads_a
    ∷ []

truth_of-only_example : (truth_of (owners_of calls []) reads_a ≡ some a_id) ↔ (
    (names_any a_id calls ("/s/a" ∷ []) ≡ true)
    × ((j : RpcId) → names_any j calls ("/s/a" ∷ []) ≡ true → j ≡ a_id))
truth_of-only_example = truth_of-only calls reads_a a_id

abbrev labelled : List Labelled
labelled = (opens_a, some a_id) ∷ (reads_a, some a_id) ∷ []

annotates : annotate "/s/" calls events ≡ labelled
unfolding annotate get put add union
annotates = refl

-- the windows overlap at the read, but not at the open
evaluate_strategy-Counted_example :
    Counted
      (λ e. strategy_otel e calls 9)
      labelled
      (evaluate_strategy (λ e. strategy_otel e calls 9) labelled)
evaluate_strategy-Counted_example =
    evaluate_strategy-Counted (λ e. strategy_otel e calls 9) labelled

abbrev otel_tally : Tally
otel_tally = record {
  oracle_labelled = 2;
  unattributed = 0;
  attributed = 2;
  extra_candidates = 1;
  correct_singleton = 1;
  truth_in_candidates = 1;
  wrong_candidates = 0;
}

evaluates : evaluate_strategy (λ e. strategy_otel e calls 9) labelled ≡ otel_tally
unfolding evaluate_strategy strategy_otel member
evaluates = refl

strategies-AreCovering_example :
    let epochs = build_fd_epoch events in
    (In a_id (strategy_camflow reads_a calls 9) ↔ ((reads_a.pid ≡ 9) × IsCovering 30 calls a_id))
    × (In a_id (strategy_otel reads_a calls 9) ↔ ((reads_a.pid ≡ 9) × IsCovering 30 calls a_id))
    × (In a_id (strategy_tetragon_fd reads_a calls 9 epochs) ↔ (
        (reads_a.pid ≡ 9)
        × (at : ℕ) × (epoch_of reads_a epochs ≡ some at)
        × IsCovering at calls a_id))
    × (In a_id (strategy_tetragon_best reads_a calls 9 epochs)
        ↔ ((reads_a.pid ≡ 9) × IsCovering (best_time reads_a epochs) calls a_id))
    × ((fd : ℤ) (at : ℕ) → get fd epochs ≡ some at → IsMade events fd at)
strategies-AreCovering_example = strategies-AreCovering events reads_a calls 9 a_id

-- the descriptor was made when only the first call was open
chooses : strategy_tetragon_best reads_a calls 9 (build_fd_epoch events) ≡ a_id ∷ []
unfolding strategy_tetragon_best build_fd_epoch get put
chooses = refl

abbrev causal : Dict String (Option RpcId)
causal = ("t:1", some a_id) ∷ []

loads :
    load_causal_map (("t:1", Claim.several (a_id ∷ b_id ∷ [])) ∷ ("", Claim.nothing) ∷ []) []
    ≡ causal
unfolding load_causal_map put
loads = refl
