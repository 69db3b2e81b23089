-- ===== src/Lib.antt =====
-- Causpan: the attribution of system calls to the requests that caused them.
--
-- The program reads a trace of system calls, in which the instrumented runtime writes markers, and a
-- map of requests. It rebuilds from the markers alone which request each thread works for, follows
-- descriptors and connections through the calls, and says for each call which request it belongs
-- to, or that it cannot say. A run with any diagnostic publishes no attribution at all.
--
-- The model, by file (paths from experiments/mcp/ of the repository):
--   Prelude: Boolean tests, lists, dicts as association lists in insertion order, sets as lists,
--     integers, texts as lists of character codes, JSON values.
--   Attribution/Types: the records and enumerations of attribute.py; node ids and diagnostics are
--     data where the code builds strings.
--   Attribution/Mapping: unique_json_object, on nested objects too, and load_request_mapping.
--   Attribution/Initialize: _initialize, the owners of each context and the first graph records.
--   Attribution/Runtime, Ipc, Work, Markers: _process_marker, one function for each kind of marker.
--   Attribution/Args: fd_number, close_range_has_flag and clone_has_flag (of analyze.py), with the
--     regular expressions written out as scanners.
--   Attribution/Descriptors: _new_fd_table, _fd_table, _copy_fd_table and the close-on-exec marks.
--   Attribution/Syscalls: the branches of _process_trace on the name of the call.
--   Attribution/Rows, Trace: the rest of _process_trace, with the row and the graph records.
--   Attribution/Bind: _bind_socket_reads. Attribution/Validate: _validate_invariants.
--   Attribution/Run: Attributor.attribute and the wrapper attribute.
--   Query: evidence_chain of query.py; the loops run on fuel, a round for each record of the graph and
--     one more, which is enough since each round but the last adds the end of an edge.
--   Preparations: report of native_preparation.py, on lines whose values are read already.
--   Closes: report of native_close_epochs.py, on lines whose numbers are read already.
--   Merge: merge of merge_graphs.py, on records with the fields that the code reads.
--   Windows: inspect of inspect_native_windows.py, on lines whose numbers are read already.
--   Watcher: join of native_watcher_queue.py, on lines whose values are read already.
--   Sockets: link_lines of native_socket_lifetimes.py, on lines whose values are read already.
--   Rings: join_observations of ring_observations.py, on rows of JSON values; Rings/Resource:
--     observed_file_resource, validate_waiting_enter and validate_scoped_ring of the same file.
--   Traces: parse_traces of analyze.py; what its regular expressions match is an argument. The loop of
--     tgid runs on fuel, a step for each known task and one more, since no task is passed twice.
--   Transfers: pair_transfers of descriptor_transfers.py up to its last loop, which is in
--     Transfers/Pairs; Transfers/Graph: transfer_graph. What the regular expressions match is an
--     argument, and the reasons of a rejected channel are a list.
--   Oracle: analyze of analyze.py after the traces are read, on protocol lines with the fields that
--     the code reads.
--   Baselines: the strategies and the counts of compare_baselines.py, and what its main builds.
--   Tests: the theorems on concrete inputs.
--
-- How state is modelled. The attributor is a record that each step takes and returns. A socket state
-- is a mutable object that several descriptors share, so descriptors hold the number of a
-- connection and the connections are a store of their own. The lists of active work hold the
-- newest entry first. A KeyError or a ValueError is `none`, or a named error where the code raises several. The
-- other loops are recursion on the list that the code walks.
--
-- What stands outside. The texts of the markers are parsed before the model starts: an event comes
-- with its marker. The native log holds markers of the same shape. The comparison of the map with
-- the dispatched calls, the records of descriptor transfers and of the ring adapters, and the
-- errors of the adapters are arguments. Not modelled are the counts of the report, the
-- resource nodes that the output files get, the other scores, the runners and the probes, and the
-- code in other languages. An id of a request is a number or a text, as JSON-RPC has it; a line of
-- another id, which main of compare_baselines.py records too, is no call in the model. The job of a
-- marker is a text or none: a list there, which raises a TypeError, is not in the model.
pub mod Prelude
pub mod Attribution
pub mod Query
pub mod Rings
pub mod Traces
pub mod Transfers
pub mod Oracle
pub mod Baselines
pub mod Merge
pub mod Windows
pub mod Watcher
pub mod Preparations
pub mod Closes
pub mod Sockets
pub mod Tests
