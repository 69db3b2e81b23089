-- ===== src/Attribution/Ipc.antt =====
-- The markers of inter-process jobs in `_process_marker` of attribute.py: sent, cancelled, entered
-- and left.
pub mod Invariant
use causpan.Prelude.{
  ℕ, String, Option, none, some, [], ◌∷◌, get, has, put, remove, Bool, true, false, ◌&&◌, ◌||◌, not,
  ◌==◌, nat_eq, string_eq, if◌then◌else◌,
}
use causpan.Attribution.Types.{
  Marker, Event, Context, IpcJob, Origin, NodeId, NodeKind, GraphRecord, Evidence, EdgeKind, Error,
  Setup,
}
use causpan.Attribution.Runtime.{
  Runtime, report, emit, current_context, context_node, shown, set_state,
}

abbrev pub is_ipc_worker : Option Context → Bool
is_ipc_worker none = false
is_ipc_worker (some c) = elim c.origin [ Origin.ipc_worker ↦ true | _ ↦ false ]

-- the parent of a sent job in the graph: the sender's own job, or the request
unfoldable pub sent_from : Setup → Option Context → ℕ → NodeId
sent_from setup none req = context_node setup req
sent_from setup (some c) req =
    if is_ipc_worker (some c) then NodeId.ipc (shown c.ipc_job) else context_node setup req

-- `self.ipc_jobs.get(job)`
unfoldable pub find_job : Option String → Runtime → Option IpcJob
find_job none r = none
find_job (some j) r = get j r.ipc_jobs

unfoldable pub check_sender : Marker → Option Context → Runtime → Runtime
check_sender m none r = report (Error.sender_mismatch m.job) r
check_sender m (some c) r =
    if c.request == m.request then r else report (Error.sender_mismatch m.job) r

abbrev pub new_job : Marker → Event → IpcJob
new_job m e = record {
  request = m.request;
  started = false;
  finished = false;
  cancelled = false;
  sender_pid = e.pid;
  sender_tid = e.tid;
  worker_tid = none;
}

unfoldable pub register_job :
    Setup → Marker → Event → Option Context → Option String → Runtime → Runtime
unfolding report emit sent_from
register_job setup m e sender none r = report (Error.invalid_job none) r
register_job setup m e sender (some j) r =
    if j == "" || has j r.ipc_jobs
    then report (Error.invalid_job (some j)) r
    else emit
        (GraphRecord.node (NodeId.ipc j) (NodeKind.ipc_job m.request e.pid e.tid e.source)
          ∷ (if m.request == 0
              then []
              else GraphRecord.edge (sent_from setup sender m.request) (NodeId.ipc j)
                  EdgeKind.ipc_sent (some (Evidence.trace e.source))
                ∷ []))
        (record r { ipc_jobs = put j (new_job m e) r.ipc_jobs })

unfoldable pub ipc_send : Setup → Marker → Event → Runtime → Runtime
unfolding current_context check_sender register_job
ipc_send setup m e r =
    let sender = current_context e.tid e.pid r in
    register_job setup m e sender m.job (check_sender m sender r)

-- `work['started'] or work['finished'] or work['request'] != req`
abbrev pub not_pending : IpcJob → ℕ → Bool
not_pending w req = w.started || (w.finished || not (w.request == req))

unfoldable pub cancel_job : Marker → Event → Option String → Option IpcJob → Runtime → Runtime
unfolding report emit
cancel_job m e (some j) (some w) r =
    if not_pending w m.request
    then report (Error.invalid_cancellation (some j)) r
    else emit
        (GraphRecord.node (NodeId.ipc_cancelled j) (NodeKind.ipc_cancellation e.tid e.source)
          ∷ GraphRecord.edge (NodeId.ipc j) (NodeId.ipc_cancelled j)
              EdgeKind.cancelled_before_execution none
          ∷ [])
        (record r { ipc_jobs = put j (record w { finished = true; cancelled = true }) r.ipc_jobs })
cancel_job m e j w r = report (Error.invalid_cancellation j) r

unfoldable pub ipc_cancel : Marker → Event → Runtime → Runtime
unfolding cancel_job find_job
ipc_cancel m e r = cancel_job m e m.job (find_job m.job r) r

unfoldable pub enter_job : Marker → ℕ → Option String → Option IpcJob → Runtime → Runtime
unfolding report
enter_job m tid (some j) (some w) r =
    if not_pending w m.request || has tid r.ipc_active
    then report (Error.invalid_entry (some j)) r
    else record r {
      ipc_jobs = put j (record w { started = true; worker_tid = some tid }) r.ipc_jobs;
      ipc_active = put tid j r.ipc_active;
    }
enter_job m tid j w r = report (Error.invalid_entry j) r

unfoldable pub ipc_enter : Marker → Event → Runtime → Runtime
unfolding enter_job find_job set_state
ipc_enter m e r =
    set_state e.tid m.request 0 Origin.ipc_worker m.job e
      (enter_job m e.tid m.job (find_job m.job r) r)

-- `self.state.get(tid, {}).get('request') == req`
unfoldable pub runs_request : ℕ → ℕ → Runtime → Bool
runs_request tid req r = elim (get tid r.state) [ none ↦ false | some c ↦ c.request == req ]

unfoldable pub runs_job : ℕ → String → Runtime → Bool
runs_job tid j r = elim (get tid r.ipc_active) [ none ↦ false | some i ↦ i == j ]

unfoldable pub leave_job : Marker → ℕ → Option String → Option IpcJob → Runtime → Runtime
unfolding report runs_request runs_job
leave_job m tid (some j) (some w) r =
    if runs_job tid j r && runs_request tid m.request r
    then record r {
      ipc_jobs = put j (record w { finished = true }) r.ipc_jobs;
      ipc_active = remove tid r.ipc_active;
    }
    else report (Error.invalid_leave (some j)) r
leave_job m tid j w r = report (Error.invalid_leave j) r

unfoldable pub ipc_leave : Marker → Event → Runtime → Runtime
unfolding leave_job find_job set_state
ipc_leave m e r =
    set_state e.tid 0 0 Origin.async_context none e (leave_job m e.tid m.job (find_job m.job r) r)
