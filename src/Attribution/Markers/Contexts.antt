-- ===== src/Attribution/Markers/Contexts.antt =====
-- The contexts of threads across a whole marker: what `_process_marker` of attribute.py does to
-- `state` and `inherited`.
use causpan.Prelude.{
  ℕ, String, string_eq, ◌≡◌, refl, inl, inr, List, Option, none, some, get, nat_eq, Option-cases,
  arith,
}
use causpan.Attribution.Types.{Kind, Marker, Event, Operation, Origin, IpcJob, Context, Setup}
use causpan.Attribution.Runtime.{Runtime, report, set_state}
use causpan.Attribution.Ipc.{
  ipc_send, ipc_cancel, ipc_enter, ipc_leave, check_sender, register_job, cancel_job, enter_job,
  leave_job, find_job,
}
use causpan.Attribution.Work.{
  submit, work_enter, work_leave, leave_work, working, complete_operation,
}
use causpan.Attribution.Markers.{transition, process_marker}
use causpan.Attribution.Syscalls.Owned.{IsKnown}
use causpan.Attribution.Trace.Total.{AllKnown, put-AllKnown}

-- both fields are as they were
pub record SameContexts (r s : Runtime) : Type 0 where
  pub state : s.state ≡ r.state
  pub inherited : s.inherited ≡ r.inherited

-- every context names no request, or one of the map
pub record IsKnownRuntime (setup : Setup) (r : Runtime) : Type 0 where
  pub state : AllKnown setup r.state
  pub inherited : AllKnown setup r.inherited

module _ (setup : Setup) (m : Marker) (e : Event) (r : Runtime) where
  submit-SameContexts : SameContexts r (submit setup m e r)
  unfolding submit
  submit-SameContexts = ground arith

  work_enter-SameContexts : SameContexts r (work_enter m e r)
  unfolding work_enter
  work_enter-SameContexts = ground arith

  leave_work-SameContexts : (ops : List ℕ) → SameContexts r (leave_work e.tid ops r)
  unfolding leave_work
  leave_work-SameContexts ops = ground arith

  work_leave-SameContexts : SameContexts r (work_leave e r)
  unfolding work_leave
  work_leave-SameContexts = leave_work-SameContexts (working e.tid r)

  complete-SameContexts : (o : Option Operation) → SameContexts r (complete_operation m o r)
  unfolding complete_operation
  complete-SameContexts o = ground arith

  check_sender-SameContexts : (c : Option Context) → SameContexts r (check_sender m c r)
  unfolding check_sender report
  check_sender-SameContexts none = record { state = refl; inherited = refl }
  check_sender-SameContexts (some c) = ground arith

  register_job-SameContexts :
      (c : Option Context) (j : Option String) → SameContexts r (register_job setup m e c j r)
  unfolding register_job
  register_job-SameContexts c none = ground arith
  register_job-SameContexts c (some j) = ground arith

  cancel_job-SameContexts :
      (j : Option String) (w : Option IpcJob) → SameContexts r (cancel_job m e j w r)
  unfolding cancel_job
  cancel_job-SameContexts none w = ground arith
  cancel_job-SameContexts (some j) none = ground arith
  cancel_job-SameContexts (some j) (some w) = ground arith

  enter_job-SameContexts :
      (j : Option String) (w : Option IpcJob) → SameContexts r (enter_job m e.tid j w r)
  unfolding enter_job
  enter_job-SameContexts none w = ground arith
  enter_job-SameContexts (some j) none = ground arith
  enter_job-SameContexts (some j) (some w) = ground arith

  leave_job-SameContexts :
      (j : Option String) (w : Option IpcJob) → SameContexts r (leave_job m e.tid j w r)
  unfolding leave_job
  leave_job-SameContexts none w = ground arith
  leave_job-SameContexts (some j) none = ground arith
  leave_job-SameContexts (some j) (some w) = ground arith

module _ (setup : Setup) {r s : Runtime} where
  same-IsKnownRuntime : SameContexts r s → IsKnownRuntime setup r → IsKnownRuntime setup s
  same-IsKnownRuntime same h = record {
    state = rw same.state h.state;
    inherited = rw same.inherited h.inherited;
  }

module _ (setup : Setup) (m : Marker) (e : Event) where
  set_state-IsKnownRuntime :
      (req op : ℕ) (origin : Origin) (job : Option String) (r : Runtime)
      → IsKnown setup req
      → IsKnownRuntime setup r
      → IsKnownRuntime setup (set_state e.tid req op origin job e r)
  unfolding set_state
  set_state-IsKnownRuntime req op origin job r known h = record {
    state = put-AllKnown setup e.tid _ r.state known h.state;
    inherited = h.inherited;
  }

  transition-IsKnownRuntime :
      (origin : Origin) (r : Runtime)
      → IsKnown setup m.request
      → IsKnownRuntime setup r
      → IsKnownRuntime setup (transition m origin e r)
  unfolding transition report
  transition-IsKnownRuntime origin r known h = elim (Option-cases (get e.tid r.ipc_active)) [
    | inl p ↦
        rw (p, transition) (set_state-IsKnownRuntime m.request m.operation origin none r known h)
    | inr (j, p) ↦
        rw (p, transition)
          (set_state-IsKnownRuntime m.request m.operation origin none _ known
            (record { state = h.state; inherited = h.inherited }))
  ]

  -- A marker whose request is of the map leaves every context with such a request.
  pub process_marker-IsKnownRuntime :
      (k : Kind) (r : Runtime)
      → IsKnown setup m.request
      → IsKnownRuntime setup r
      → IsKnownRuntime setup (process_marker setup k m e r)
  unfolding process_marker ipc_send ipc_cancel ipc_enter ipc_leave report
  process_marker-IsKnownRuntime Kind.ipc_send r known h =
      same-IsKnownRuntime setup (register_job-SameContexts setup m e _ _ m.job)
        (same-IsKnownRuntime setup (check_sender-SameContexts setup m e r _) h)
  process_marker-IsKnownRuntime Kind.ipc_cancel r known h =
      same-IsKnownRuntime setup (cancel_job-SameContexts setup m e r m.job _) h
  process_marker-IsKnownRuntime Kind.ipc_enter r known h =
      set_state-IsKnownRuntime m.request 0 Origin.ipc_worker m.job _ known
        (same-IsKnownRuntime setup (enter_job-SameContexts setup m e r m.job (find_job m.job r)) h)
  process_marker-IsKnownRuntime Kind.ipc_leave r known h =
      set_state-IsKnownRuntime 0 0 Origin.async_context none _ (inl refl)
        (same-IsKnownRuntime setup (leave_job-SameContexts setup m e r m.job (find_job m.job r)) h)
  process_marker-IsKnownRuntime Kind.submit r known h =
      same-IsKnownRuntime setup (submit-SameContexts setup m e r) h
  process_marker-IsKnownRuntime Kind.work_enter r known h =
      transition-IsKnownRuntime Origin.worker _ known
        (same-IsKnownRuntime setup (work_enter-SameContexts setup m e r) h)
  process_marker-IsKnownRuntime Kind.work_leave r known h =
      transition-IsKnownRuntime Origin.async_context _ known
        (same-IsKnownRuntime setup (work_leave-SameContexts setup m e r) h)
  process_marker-IsKnownRuntime Kind.complete r known h =
      same-IsKnownRuntime setup (complete-SameContexts setup m e r _) h
  process_marker-IsKnownRuntime Kind.js_context r known h =
      transition-IsKnownRuntime Origin.async_context r known h
  process_marker-IsKnownRuntime Kind.done_enter r known h =
      transition-IsKnownRuntime Origin.completion r known h
  process_marker-IsKnownRuntime Kind.done_leave r known h =
      transition-IsKnownRuntime Origin.async_context r known h
  process_marker-IsKnownRuntime Kind.invariant_failure r known h = record {
    state = h.state;
    inherited = h.inherited;
  }
  process_marker-IsKnownRuntime Kind.duplicate_work r known h = record {
    state = h.state;
    inherited = h.inherited;
  }
  process_marker-IsKnownRuntime Kind.install r known h = h
  process_marker-IsKnownRuntime Kind.install_queue r known h = h
