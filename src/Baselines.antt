-- ===== src/Baselines.antt =====
-- experiments/mcp/compare_baselines.py: the strategies that are compared with the attribution, and
-- their counts. The ratios (floats) and the output are left; the trace is read by analyze.py.
pub mod Counts
pub mod Choices
pub mod Agrees
use causpan.Prelude.{
  ℕ, ◌+◌, ◌-◌, String, string_eq, ℤ, pos, int_eq, Option, none, some, List, [], ◌∷◌, ◌++◌, Dict,
  get, has, put, Bool, true, false, ◌&&◌, ◌||◌, not, ◌==◌, nat_eq, nat_beq, member, add, any, keep,
  map, length, leb, ltb_ℤ, Text, codes, is_digit, skip_spaces, number, starts_with, if◌then◌else◌,
}
use causpan.Attribution.Types.{RpcId, Event, Syscall, syscall_name}
use causpan.Attribution.RpcIds.{rpc_eq}
use causpan.Attribution.Args.{is_word}
use causpan.Oracle.{
  MessageId, Line, Call, is_request, is_response, is_tool_call, started_call, owners_of, truth_of,
  in_sandbox, server_pid, covering,
}

-- `strategy_camflow`
unfoldable pub strategy_camflow : Event → Dict RpcId Call → ℕ → List RpcId
unfolding covering
strategy_camflow e calls pid = if e.pid == pid then covering e.timestamp_ns calls else []

-- `strategy_otel`
unfoldable pub strategy_otel : Event → Dict RpcId Call → ℕ → List RpcId
unfolding strategy_camflow
strategy_otel e calls pid = strategy_camflow e calls pid

-- `re.search(r'\b(\d+)\s*<', args)`, the number; the first argument tells whether the character
-- before is a `\w`
unfoldable pub search_descriptor : Bool → Text → Option ℕ
unfolding is_digit is_word number skip_spaces
search_descriptor after_word [] = none
search_descriptor after_word (c ∷ t) =
    let later = search_descriptor (is_word c) t in
    if is_digit c && not after_word
    then elim (number (c ∷ t)) [
      | none ↦ later
      | some (n, rest) ↦ elim (skip_spaces rest) [
        | [] ↦ later
        | d ∷ _ ↦ if nat_beq d b'<' then some n else later
      ]
    ]
    else later

abbrev pub is_open : Event → Bool
is_open e = syscall_name e.syscall == "openat" || syscall_name e.syscall == "open"

abbrev pub is_dup : Event → Bool
is_dup e = syscall_name e.syscall == "dup"

-- `e['return_value'] and e['return_value'] > 0`, with the value
abbrev pub new_descriptor : Event → Option ℤ
new_descriptor e = elim e.return_value [
  | none ↦ none
  | some n ↦ if ltb_ℤ (pos 0) n then some n else none
]

-- one round of the loop of `build_fd_epoch`
unfoldable pub note_epoch : Event → Dict ℤ ℕ → Dict ℤ ℕ
unfolding search_descriptor get put
note_epoch e epochs = elim (new_descriptor e) [
  | none ↦ epochs
  | some fd ↦
      if has fd epochs
      then epochs
      else if is_open e
      then put fd e.timestamp_ns epochs
      else if is_dup e
      then elim (search_descriptor false e.args) [
        | none ↦ epochs
        | some source ↦ elim (get (pos source) epochs) [
          | none ↦ epochs
          | some at ↦ put fd at epochs
        ]
      ]
      else epochs
]

unfoldable pub fd_epoch_from : List Event → Dict ℤ ℕ → Dict ℤ ℕ
unfolding note_epoch
fd_epoch_from [] epochs = epochs
fd_epoch_from (e ∷ es) epochs = fd_epoch_from es (note_epoch e epochs)

unfoldable pub build_fd_epoch : List Event → Dict ℤ ℕ
unfolding fd_epoch_from
build_fd_epoch events = fd_epoch_from events []

-- `re.match(r'\s*(\d+)<', args)`, the number
unfoldable pub annotated_fd : Text → Option ℕ
unfolding skip_spaces number
annotated_fd args = elim (number (skip_spaces args)) [
  | none ↦ none
  | some (n, rest) ↦ elim rest [ [] ↦ none | c ∷ _ ↦ if nat_beq c b'<' then some n else none ]
]

-- `strategy_tetragon_fd`
unfoldable pub strategy_tetragon_fd : Event → Dict RpcId Call → ℕ → Dict ℤ ℕ → List RpcId
unfolding annotated_fd get covering
strategy_tetragon_fd e calls pid epochs =
    if e.pid == pid
    then elim (annotated_fd e.args) [
      | none ↦ []
      | some fd ↦ elim (get (pos fd) epochs) [ none ↦ [] | some at ↦ covering at calls ]
    ]
    else []

-- `strategy_tetragon_best`
unfoldable pub strategy_tetragon_best : Event → Dict RpcId Call → ℕ → Dict ℤ ℕ → List RpcId
unfolding annotated_fd get covering strategy_otel
strategy_tetragon_best e calls pid epochs =
    if e.pid == pid
    then elim (annotated_fd e.args) [
      | none ↦ strategy_otel e calls pid
      | some fd ↦ elim (get (pos fd) epochs) [
        | none ↦ strategy_otel e calls pid
        | some at ↦ covering at calls
      ]
    ]
    else []

-- `_make_causpan_fn(call_map)`; an event always has a source
unfoldable pub strategy_causpan : Dict RpcId Call → Event → Dict String (Option RpcId) → List RpcId
unfolding get
strategy_causpan call_map e causal = elim (get e.source causal) [
  | none ↦ []
  | some request ↦ elim request [ none ↦ [] | some id ↦ if has id call_map then id ∷ [] else [] ]
]

-- `row.get('request_id')`: none, one, or a list
pub data Claim : Type 0 where
  nothing : Claim
  one : RpcId → Claim
  several : List RpcId → Claim

-- `req[0] if req else None` for a list
abbrev pub first_claim : Claim → Option RpcId
first_claim Claim.nothing = none
first_claim (Claim.one id) = some id
first_claim (Claim.several []) = none
first_claim (Claim.several (id ∷ _)) = some id

-- `load_causal_map`, on the source and the request of each row; an empty source is passed over
unfoldable pub load_causal_map :
    List (String × Claim) → Dict String (Option RpcId) → Dict String (Option RpcId)
unfolding put
load_causal_map [] causal = causal
load_causal_map ((source, claim) ∷ rows) causal =
    load_causal_map rows (if source == "" then causal else put source (first_claim claim) causal)

-- `counts`
pub record Tally : Type 0 where
  pub oracle_labelled : ℕ
  pub unattributed : ℕ
  pub attributed : ℕ
  pub extra_candidates : ℕ
  pub correct_singleton : ℕ
  pub truth_in_candidates : ℕ
  pub wrong_candidates : ℕ

-- an event with its label
abbrev pub Labelled : Type 0
Labelled = Event × Option RpcId

-- `len(candidates) == 1 and candidates[0] == truth`
abbrev pub is_correct : RpcId → List RpcId → Bool
is_correct truth [] = false
is_correct truth (id ∷ []) = id == truth
is_correct truth (_ ∷ _ ∷ _) = false

-- one labelled event that has candidates
unfoldable pub tally_candidates : RpcId → List RpcId → Tally → Tally
unfolding member
tally_candidates truth ids n =
    let m : Tally = record n {
      attributed = n.attributed + 1;
      extra_candidates = n.extra_candidates + (length ids - 1);
    } in
    if is_correct truth ids
    then record m { correct_singleton = m.correct_singleton + 1 }
    else if member truth ids
    then record m { truth_in_candidates = m.truth_in_candidates + 1 }
    else record m { wrong_candidates = m.wrong_candidates + 1 }

-- one labelled event
unfoldable pub tally_event : RpcId → List RpcId → Tally → Tally
unfolding tally_candidates
tally_event truth [] n = record n {
  oracle_labelled = n.oracle_labelled + 1;
  unattributed = n.unattributed + 1;
}
tally_event truth (id ∷ ids) n =
    tally_candidates truth (id ∷ ids) (record n { oracle_labelled = n.oracle_labelled + 1 })

module _ (strategy : Event → List RpcId) where
  -- the loop of `evaluate_strategy`
  unfoldable pub tally : List Labelled → Tally → Tally
  unfolding tally_event
  tally [] n = n
  tally ((e, none) ∷ es) n = tally es n
  tally ((e, some truth) ∷ es) n = tally es (tally_event truth (strategy e) n)

abbrev pub no_tally : Tally
no_tally = record {
  oracle_labelled = 0;
  unattributed = 0;
  attributed = 0;
  extra_candidates = 0;
  correct_singleton = 0;
  truth_in_candidates = 0;
  wrong_candidates = 0;
}

-- the counts that `evaluate_strategy` returns, where `attributed` is a sum
unfoldable pub evaluate_strategy : (Event → List RpcId) → List Labelled → Tally
unfolding tally
evaluate_strategy strategy events =
    let n = tally strategy events no_tally in
    record n { attributed = n.correct_singleton + n.truth_in_candidates + n.wrong_candidates }

-- the locals of the first loop of `main`
pub record CallMap : Type 0 where
  pub calls : Dict RpcId Call
  pub seen : List RpcId

-- one round; a response to a call ends it. A line of an id that is no number and no text is left out.
unfoldable pub map_line : Line → CallMap → CallMap
unfolding member add get put
map_line line m = elim line.message.id [
  | MessageId.valid id ↦
      if is_request line && is_tool_call line.message
      then (if member id m.seen
          then m
          else record { calls = put id (started_call id line) m.calls; seen = add id m.seen })
      else if is_response line
      then elim (get id m.calls) [
        | none ↦ m
        | some c ↦ record m { calls = put id (record c { end_ns = some line.wall_ns }) m.calls }
      ]
      else m
  | _ ↦ m
]

unfoldable pub map_lines : List Line → CallMap → CallMap
unfolding map_line
map_lines [] m = m
map_lines (line ∷ lines) m = map_lines lines (map_line line m)

abbrev pub no_call_map : CallMap
no_call_map = record { calls = []; seen = [] }

-- `server_pid`, 0 where it is not known
unfoldable pub server_pid_or_0 : List Event → ℕ
unfolding server_pid
server_pid_or_0 events = elim (server_pid events) [ none ↦ 0 | some pid ↦ pid ]

-- `annotated`
unfoldable pub annotate : String → Dict RpcId Call → List Event → List Labelled
unfolding in_sandbox owners_of truth_of
annotate root calls events =
    let owners = owners_of calls [] in
    map (λ (e : Event). (e, truth_of owners e)) (keep (in_sandbox root) events)
