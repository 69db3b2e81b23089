-- ===== src/Attribution/Markers.antt =====
-- `_process_marker` of attribute.py: the dispatch on the kind of a marker.
pub mod Jobs
pub mod Lifecycle
pub mod Contexts
use causpan.Prelude.{none, some, get, nat_eq}
use causpan.Attribution.Types.{Kind, Marker, Event, Origin, Error, Setup}
use causpan.Attribution.Runtime.{Runtime, report, set_state}
use causpan.Attribution.Ipc.{ipc_send, ipc_cancel, ipc_enter, ipc_leave}
use causpan.Attribution.Work.{submit, work_enter, work_leave, complete_operation}

-- the tail that every kind in TRANSITIONS runs
unfoldable pub transition : Marker → Origin → Event → Runtime → Runtime
unfolding report set_state
transition m origin e r =
    set_state e.tid m.request m.operation origin none e (elim (get e.tid r.ipc_active) [
      | none ↦ r
      | some j ↦ report (Error.transition_inside_job j) r
    ])

-- `_process_marker`
unfoldable pub process_marker : Setup → Kind → Marker → Event → Runtime → Runtime
process_marker setup Kind.ipc_send m e r = ipc_send setup m e r
process_marker setup Kind.ipc_cancel m e r = ipc_cancel m e r
process_marker setup Kind.ipc_enter m e r = ipc_enter m e r
process_marker setup Kind.ipc_leave m e r = ipc_leave m e r
process_marker setup Kind.submit m e r = submit setup m e r
process_marker setup Kind.work_enter m e r = transition m Origin.worker e (work_enter m e r)
process_marker setup Kind.work_leave m e r = transition m Origin.async_context e (work_leave e r)
process_marker setup Kind.complete m e r = complete_operation m (get m.operation r.operations) r
process_marker setup Kind.invariant_failure m e r = report Error.invariant_failure r
process_marker setup Kind.duplicate_work m e r = report Error.duplicate_work r
process_marker setup Kind.js_context m e r = transition m Origin.async_context e r
process_marker setup Kind.done_enter m e r = transition m Origin.completion e r
process_marker setup Kind.done_leave m e r = transition m Origin.async_context e r
process_marker setup Kind.install m e r = r
process_marker setup Kind.install_queue m e r = r
