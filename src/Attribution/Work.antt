-- ===== src/Attribution/Work.antt =====
-- The markers of asynchronous work in `_process_marker` of attribute.py: submitted, entered, left and
-- completed, with the runtime spans that a poll belongs to.
use causpan.Prelude.{
  ℕ, String, Option, none, some, List, [], ◌∷◌, Dict, get, has, put, true, false, ◌||◌, not, ◌==◌,
  nat_eq, string_eq, pair_eq, add, if◌then◌else◌,
}
use causpan.Attribution.Types.{
  Marker, Event, Operation, NodeId, NodeKind, GraphRecord, EdgeKind, Error, Setup,
}
use causpan.Attribution.Runtime.{Runtime, report, emit, context_node}

-- `self.span_threads[(req, span)].add(tid)` on a defaultdict of sets
unfoldable pub add_span_thread : ℕ × ℕ → ℕ → Dict (ℕ × ℕ) (List ℕ) → Dict (ℕ × ℕ) (List ℕ)
add_span_thread key tid d = put key (add tid (elim (get key d) [ none ↦ [] | some s ↦ s ])) d

unfoldable pub poll_span : Setup → Marker → ℕ → Option ℕ → Runtime → Runtime
unfolding report emit context_node
poll_span setup m span none r =
    emit
      (GraphRecord.node (NodeId.task span) (NodeKind.runtime_span m.request)
        ∷ (if m.request == 0
            then []
            else GraphRecord.edge (context_node setup m.request) (NodeId.task span)
                EdgeKind.created_task none
              ∷ []))
      (record r { runtime_spans = put span m.request r.runtime_spans })
poll_span setup m span (some owner) r =
    if owner == m.request then r else report (Error.span_changed_identity span) r

abbrev pub new_operation : ℕ → Operation
new_operation req = record {
  request = req;
  started = false;
  finished = false;
  completed = false;
  worker_tid = none;
  status = none;
}

abbrev pub unit_name : Option String → String
unit_name none = "libuv_work"
unit_name (some u) = u

unfoldable pub check_operation : ℕ → Runtime → Runtime
unfolding report
check_operation op r = if has op r.operations then report (Error.duplicate_operation op) r else r

unfoldable pub submit_span : Setup → Marker → Event → Runtime → Runtime
unfolding poll_span add_span_thread emit
submit_span setup m e r =
    let spanned = record r {
      span_threads = add_span_thread (m.request, m.pointer) e.tid r.span_threads;
    } in
    emit
      (GraphRecord.edge (NodeId.task m.pointer) (NodeId.work m.operation) EdgeKind.polled none ∷ [])
      (poll_span setup m m.pointer (get m.pointer r.runtime_spans) spanned)

unfoldable pub submit : Setup → Marker → Event → Runtime → Runtime
unfolding check_operation submit_span emit context_node
submit setup m e r =
    let checked = check_operation m.operation r in
    let stored = record checked {
      operations = put m.operation (new_operation m.request) checked.operations;
    } in
    if unit_name m.unit == "span_poll"
    then submit_span setup m e (
        emit
          (GraphRecord.node (NodeId.work m.operation) (NodeKind.execution_interval m.request) ∷ [])
          stored)
    else emit
        (GraphRecord.node (NodeId.work m.operation)
            (NodeKind.async_work (unit_name m.unit) m.request)
          ∷ (if m.request == 0
              then []
              else GraphRecord.edge (context_node setup m.request) (NodeId.work m.operation)
                  EdgeKind.submitted none
                ∷ []))
        stored

-- `self.active_work[tid]` on a defaultdict of lists, the last entry first
unfoldable pub working : ℕ → Runtime → List ℕ
working tid r = elim (get tid r.active_work) [ none ↦ [] | some ops ↦ ops ]

unfoldable pub start_operation : Marker → ℕ → Option Operation → Runtime → Runtime
unfolding report
start_operation m tid none r = report (Error.invalid_work_entry m.operation) r
start_operation m tid (some w) r =
    if not (w.request == m.request) || w.started
    then report (Error.invalid_work_entry m.operation) r
    else record r {
      operations =
          put m.operation (record w { started = true; worker_tid = some tid }) r.operations;
    }

unfoldable pub work_enter : Marker → Event → Runtime → Runtime
unfolding start_operation working
work_enter m e r =
    let entered = start_operation m e.tid (get m.operation r.operations) r in
    record entered { active_work = put e.tid (m.operation ∷ working e.tid r) entered.active_work }

unfoldable pub finish_operation : ℕ → Option Operation → Dict ℕ Operation → Dict ℕ Operation
finish_operation op none d = d
finish_operation op (some w) d = put op (record w { finished = true }) d

unfoldable pub leave_work : ℕ → List ℕ → Runtime → Runtime
unfolding report finish_operation
leave_work tid [] r = report (Error.leave_without_enter tid) r
leave_work tid (op ∷ rest) r = record r {
  active_work = put tid rest r.active_work;
  operations = finish_operation op (get op r.operations) r.operations;
}

unfoldable pub work_leave : Event → Runtime → Runtime
unfolding leave_work working
work_leave e r = leave_work e.tid (working e.tid r) r

unfoldable pub complete_operation : Marker → Option Operation → Runtime → Runtime
unfolding report
complete_operation m none r = report (Error.invalid_completion m.operation) r
complete_operation m (some w) r =
    if w.completed || not (w.request == m.request)
    then report (Error.invalid_completion m.operation) r
    else record r {
      operations =
          put m.operation (record w { completed = true; status = some m.status }) r.operations;
    }
