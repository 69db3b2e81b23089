-- ===== src/Attribution/Run.antt =====
-- `Attributor.attribute` of attribute.py: the loop over the events, the late binding of reads, the
-- validation, the oracle and the outputs, which an invalid capture empties. The records that the
-- descriptor transfers and the ring adapters add to the graph, and the error of an adapter, are
-- arguments.
pub mod Well
pub mod Bound
pub mod Closed
use causpan.Prelude.{
  ℕ, ◌+◌, String, Option, none, some, List, [], ◌∷◌, ◌++◌, Dict, get, has, Bool, true, false, ◌&&◌,
  ◌||◌, not, ◌==◌, nat_eq, string_eq, int_eq, any, keep, map, if◌then◌else◌,
}
use causpan.Attribution.Types.{
  Marker, Event, NodeId, EdgeKind, GraphRecord, RpcId, Attribution, Row, Error, Setup,
}
use causpan.Attribution.Runtime.{Runtime, report}
use causpan.Attribution.Markers.{process_marker}
use causpan.Attribution.Trace.{Attributor, process_trace}
use causpan.Attribution.Bind.{is_lifecycle, bind_socket_reads}
use causpan.Attribution.Validate.{Quality, record_marker, validate}

-- An event of the trace with the marker that it writes, if it is one.
pub record Observed : Type 0 where
  pub event : Event
  pub note : Option Marker

-- `req in self.mapping`
unfoldable pub is_mapped : Setup → ℕ → Bool
is_mapped setup request = has request setup.roots || has request setup.joins

unfoldable pub check_request : Setup → ℕ → Runtime → Runtime
unfolding is_mapped report
check_request setup request r =
    if request == 0 || is_mapped setup request then r else report (Error.unknown_request request) r

unfoldable pub observe_marker : Setup → Marker → Event → Attributor → Attributor
unfolding check_request process_marker record_marker
observe_marker setup m e a = record a {
  seen = record_marker m a.seen;
  runtime = process_marker setup m.kind m e (check_request setup m.request a.runtime);
}

-- one round of the loop over the events
unfoldable pub observe : Setup → Observed → Attributor → Option Attributor
unfolding observe_marker process_trace
observe setup o a = elim o.note [
  | some m ↦ some (observe_marker setup m o.event a)
  | none ↦ process_trace setup o.event a
]

unfoldable pub observe_all : Setup → List Observed → Attributor → Option Attributor
unfolding observe
observe_all setup [] a = some a
observe_all setup (o ∷ os) a = elim (observe setup o a) [
  | none ↦ none
  | some b ↦ observe_all setup os b
]

-- the sources of the rows that were bound by their connection
unfoldable pub is_lifecycle_event : List Row → NodeId → Bool
is_lifecycle_event rows (NodeId.syscall_at source) =
    any (λ row. is_lifecycle row.origin && row.event.source == source) rows
is_lifecycle_event rows id = false

unfoldable pub is_stale_edge : List Row → GraphRecord → Bool
unfolding is_lifecycle_event
is_stale_edge rows (GraphRecord.edge from to EdgeKind.executed evidence) =
    is_lifecycle_event rows to
is_stale_edge rows record_ = false

unfoldable pub drop_stale_edges : List Row → List GraphRecord → List GraphRecord
unfolding is_stale_edge
drop_stale_edges rows graph = keep (λ g. not (is_stale_edge rows g)) graph

abbrev pub same_rpc : Option RpcId → Option RpcId → Bool
same_rpc none none = true
same_rpc (some (RpcId.number a)) (some (RpcId.number b)) = a == b
same_rpc (some (RpcId.text a)) (some (RpcId.text b)) = a == b
same_rpc _ _ = false

-- a row that the oracle labels with another request than the row has
unfoldable pub is_oracle_wrong : Dict String (Option RpcId) → Row → Bool
is_oracle_wrong oracle row = elim (get row.event.source oracle) [
  | none ↦ false
  | some truth ↦ elim truth [ none ↦ false | some id ↦ not (same_rpc row.request_id (some id)) ]
]

unfoldable pub count_wrong : Dict String (Option RpcId) → List Row → ℕ
unfolding is_oracle_wrong
count_wrong oracle [] = 0
count_wrong oracle (row ∷ rows) =
    (if is_oracle_wrong oracle row then 1 else 0) + count_wrong oracle rows

-- What the run has beside its trace.
pub record Sources : Type 0 where
  pub quality : Quality
  pub native_log : List Marker
  pub oracle : Dict String (Option RpcId)
  pub added_records : List GraphRecord
  pub adapter_errors : List Error

-- The report and the two output files.
pub record Output : Type 0 where
  pub valid : Bool
  pub errors : List Error
  pub rows : List Row
  pub graph : List GraphRecord
  pub retroactive : ℕ

-- a row of a capture that failed: `attribution`, `request_id`, `request_ids` and `context` cleared
unfoldable pub invalidate : Row → Row
invalidate row = record row {
  attribution = Attribution.invalid_capture;
  request_id = none;
  request_ids = [];
  context = none;
}

unfoldable pub publish : List Error → List Row → List GraphRecord → ℕ → Output
unfolding invalidate
publish [] rows graph n = record {
  valid = true;
  errors = [];
  rows = rows;
  graph = graph;
  retroactive = n;
}
publish (e ∷ es) rows graph n = record {
  valid = false;
  errors = e ∷ es;
  rows = map invalidate rows;
  graph = [];
  retroactive = n;
}

unfoldable pub oracle_errors : ℕ → List Error
oracle_errors n = if n == 0 then [] else Error.oracle_disagreements n ∷ []

-- every diagnostic of the run, in order
unfoldable pub all_errors : Sources → Attributor → List Row → List Error
unfolding validate count_wrong oracle_errors
all_errors sources a rows =
    a.runtime.errors
    ++ (sources.adapter_errors
        ++ (validate sources.quality sources.native_log a.seen a.runtime
            ++ oracle_errors (count_wrong sources.oracle rows)))

unfoldable pub conclude : Setup → Sources → Attributor → Option Output
unfolding bind_socket_reads drop_stale_edges all_errors publish
conclude setup sources a = elim (bind_socket_reads setup a.descriptors.connections a.tagged) [
  | none ↦ none
  | some (rows, n) ↦ some (
      publish (all_errors sources a rows) rows
        (drop_stale_edges rows a.runtime.graph ++ sources.added_records) n)
]

-- `Attributor.attribute`; `none` is an exception, on which the wrapper publishes nothing
unfoldable pub attribute : Setup → Sources → List Observed → Attributor → Option Output
unfolding observe_all conclude
attribute setup sources events start = elim (observe_all setup events start) [
  | none ↦ none
  | some a ↦ conclude setup sources a
]

-- What the run leaves on disk: `valid` of causal-report.json, and the other two files.
pub record Files : Type 0 where
  pub valid : Bool
  pub rows : List Row
  pub graph : List GraphRecord

-- The wrapper `attribute(run)`: on any exception, the one that `Attributor.attribute` raises on a run
-- with diagnostics included, both files are emptied and the report is not valid.
unfoldable pub published : Option Output → Files
published none = record { valid = false; rows = []; graph = [] }
published (some o) =
    if o.valid
    then record { valid = true; rows = o.rows; graph = o.graph }
    else record { valid = false; rows = []; graph = [] }
