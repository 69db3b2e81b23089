-- ===== src/Attribution/Markers/Jobs.antt =====
-- Inter-process jobs across a whole marker: what `_process_marker` of attribute.py does to
-- `ipc_jobs` and `ipc_active`, whatever the kind.
use causpan.Prelude.{ℕ, ◌≡◌, refl, List, Option, get, nat_eq, arith, Bool, true, false, ◌∙◌}
use mathlib.Core.Bool.{true≢false}
use causpan.Attribution.Types.{Kind, Marker, Event, Operation, Origin, Setup}
use causpan.Attribution.Runtime.{Runtime, report}
use causpan.Attribution.Ipc.{ipc_send, ipc_cancel, ipc_enter, ipc_leave}
use causpan.Attribution.Ipc.Invariant.{
  IsConsistent, check_sender-IsConsistent, register_job-IsConsistent, cancel_job-IsConsistent,
  enter_job-IsConsistent, leave_job-IsConsistent,
}
use causpan.Attribution.Work.{
  submit, work_enter, work_leave, leave_work, working, complete_operation,
}
use causpan.Attribution.Markers.{transition, process_marker}

-- both fields are as they were
pub record SameJobs (r s : Runtime) : Type 0 where
  pub jobs : s.ipc_jobs ≡ r.ipc_jobs
  pub active : s.ipc_active ≡ r.ipc_active

module _ (setup : Setup) (m : Marker) (e : Event) (r : Runtime) where
  submit-SameJobs : SameJobs r (submit setup m e r)
  unfolding submit
  submit-SameJobs = ground arith

  work_enter-SameJobs : SameJobs r (work_enter m e r)
  unfolding work_enter
  work_enter-SameJobs = ground arith

  leave_work-SameJobs : (ops : List ℕ) → SameJobs r (leave_work e.tid ops r)
  unfolding leave_work
  leave_work-SameJobs ops = ground arith

  work_leave-SameJobs : SameJobs r (work_leave e r)
  unfolding work_leave
  work_leave-SameJobs = leave_work-SameJobs (working e.tid r)

  complete-SameJobs : (o : Option Operation) → SameJobs r (complete_operation m o r)
  unfolding complete_operation
  complete-SameJobs o = ground arith

  transition-SameJobs : (origin : Origin) → SameJobs r (transition m origin e r)
  unfolding transition
  transition-SameJobs origin = ground arith

module _ {r s t : Runtime} where
  SameJobs-trans : SameJobs r s → SameJobs s t → SameJobs r t
  SameJobs-trans p q = record { jobs = q.jobs ∙ p.jobs; active = q.active ∙ p.active }

abbrev pub is_ipc : Kind → Bool
is_ipc Kind.ipc_send = true
is_ipc Kind.ipc_cancel = true
is_ipc Kind.ipc_enter = true
is_ipc Kind.ipc_leave = true
is_ipc _ = false

module _ (setup : Setup) (m : Marker) (e : Event) (r : Runtime) where
  pub other_kind-SameJobs :
      (k : Kind) → is_ipc k ≡ false → SameJobs r (process_marker setup k m e r)
  unfolding process_marker report
  other_kind-SameJobs Kind.submit h = submit-SameJobs setup m e r
  other_kind-SameJobs Kind.work_enter h =
      SameJobs-trans (work_enter-SameJobs setup m e r)
        (transition-SameJobs setup m e (work_enter m e r) Origin.worker)
  other_kind-SameJobs Kind.work_leave h =
      SameJobs-trans (work_leave-SameJobs setup m e r)
        (transition-SameJobs setup m e (work_leave e r) Origin.async_context)
  other_kind-SameJobs Kind.complete h = complete-SameJobs setup m e r (get m.operation r.operations)
  other_kind-SameJobs Kind.js_context h = transition-SameJobs setup m e r Origin.async_context
  other_kind-SameJobs Kind.done_enter h = transition-SameJobs setup m e r Origin.completion
  other_kind-SameJobs Kind.done_leave h = transition-SameJobs setup m e r Origin.async_context
  other_kind-SameJobs Kind.install h = record { jobs = refl; active = refl }
  other_kind-SameJobs Kind.install_queue h = record { jobs = refl; active = refl }
  other_kind-SameJobs Kind.invariant_failure h = record { jobs = refl; active = refl }
  other_kind-SameJobs Kind.duplicate_work h = record { jobs = refl; active = refl }
  other_kind-SameJobs _ h = absurd (true≢false h)

same-IsConsistent : {r s : Runtime} → SameJobs r s → IsConsistent r → IsConsistent s
same-IsConsistent same ok = rw (same.jobs, same.active) ok

-- What `_process_marker` keeps, for a marker of any kind: the threads listed as active are exactly
-- those that run a job which was entered and not left, one job to a thread and one thread to a
-- job; only entered jobs name a worker; only jobs never entered are cancelled.
pub process_marker-IsConsistent :
    (setup : Setup) (k : Kind) (m : Marker) (e : Event) (r : Runtime)
    → IsConsistent r
    → IsConsistent (process_marker setup k m e r)
unfolding process_marker ipc_send ipc_cancel ipc_enter ipc_leave
process_marker-IsConsistent setup Kind.ipc_send m e r ok =
    register_job-IsConsistent setup m e _ m.job _ (check_sender-IsConsistent setup m e _ r ok)
process_marker-IsConsistent setup Kind.ipc_cancel m e r ok =
    cancel_job-IsConsistent setup m e m.job r ok
process_marker-IsConsistent setup Kind.ipc_enter m e r ok =
    enter_job-IsConsistent setup m e m.job r ok
process_marker-IsConsistent setup Kind.ipc_leave m e r ok =
    leave_job-IsConsistent setup m e m.job r ok
process_marker-IsConsistent setup k m e r ok =
    same-IsConsistent (other_kind-SameJobs setup m e r k refl) ok
