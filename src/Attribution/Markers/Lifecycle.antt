-- ===== src/Attribution/Markers/Lifecycle.antt =====
-- The life of one inter-process job under the markers of attribute.py.
use causpan.Prelude.{
  ℕ, String, ◌≡◌, refl, subst, inl, inr, Bool-cases, Option-cases, has, ◌&&◌, ◌||◌, ◌==◌, Dict,
  Option, none, some, get, put, nat_eq, string_eq, string_eq_iff, get-put, arith, true, false,
}
use causpan.Attribution.Types.{Kind, Marker, Event, Context, IpcJob, Setup}
use causpan.Attribution.Runtime.{Runtime, report, current_context}
use causpan.Attribution.Ipc.{
  ipc_send, ipc_cancel, ipc_enter, ipc_leave, find_job, check_sender, new_job, register_job,
  cancel_job, enter_job, leave_job, runs_job, runs_request, not_pending,
}
use causpan.Attribution.Ipc.Invariant.{IsConsistent, runs_job_active}
use causpan.Attribution.Markers.{process_marker}
use causpan.Attribution.Markers.Jobs.{other_kind-SameJobs}

-- What one marker may do to a job that exists: nothing, or the next step of its life. A finished
-- job has no next step, and the request and the sender are in no step.
pub data JobStep (w v : IpcJob) : Type 0 where
  stay : v ≡ w → JobStep w v
  enter :
      (tid : ℕ)
      → w.started ≡ false
      → w.finished ≡ false
      → v ≡ record w { started = true; worker_tid = some tid }
      → JobStep w v
  leave : w.started ≡ true → w.finished ≡ false → v ≡ record w { finished = true } → JobStep w v
  cancel :
      w.started ≡ false
      → w.finished ≡ false
      → v ≡ record w { finished = true; cancelled = true }
      → JobStep w v

abbrev pub Advances : Dict String IpcJob → Dict String IpcJob → Type 0
Advances before after =
    (j : String) (w : IpcJob)
    → get j before ≡ some w
    → (v : IpcJob) × (get j after ≡ some v) × JobStep w v

Advances-refl : (jobs : Dict String IpcJob) → Advances jobs jobs
Advances-refl jobs j w p = (w, p, JobStep.stay refl)

Advances-put :
    (jobs : Dict String IpcJob) (i : String) (u v : IpcJob)
    → get i jobs ≡ some u
    → JobStep u v
    → Advances jobs (put i v jobs)
Advances-put jobs i u v known step j w p = elim (Bool-cases (i == j)) [
  | inl same ↦
      let e : w ≡ u = ground (arith, string_eq_iff i j) in
      (v, ground (arith, get-put i j v jobs), rw e step)
  | inr other ↦ (w, ground (arith, get-put i j v jobs), JobStep.stay refl)
]

Advances-new :
    (jobs : Dict String IpcJob) (i : String) (v : IpcJob)
    → get i jobs ≡ none
    → Advances jobs (put i v jobs)
Advances-new jobs i v fresh j w p =
    (w, ground (arith, get-put i j v jobs, string_eq_iff i j), JobStep.stay refl)

module _ (setup : Setup) (m : Marker) (e : Event) where
  check_sender-jobs :
      (c : Option Context) (r : Runtime) → (check_sender m c r).ipc_jobs ≡ r.ipc_jobs
  unfolding check_sender report
  check_sender-jobs c r = ground arith

  register_job-Advances :
      (c : Option Context) (j : Option String) (r : Runtime)
      → Advances r.ipc_jobs (register_job setup m e c j r).ipc_jobs
  unfolding register_job
  register_job-Advances c none r = Advances-refl r.ipc_jobs
  register_job-Advances c (some j) r = elim (Bool-cases (j == "" || has j r.ipc_jobs)) [
    | inl p ↦ rw p (Advances-refl r.ipc_jobs)
    | inr p ↦ rw p (Advances-new r.ipc_jobs j (new_job m e) (ground arith))
  ]

  cancel_job-Advances :
      (j : Option String) (r : Runtime)
      → Advances r.ipc_jobs (cancel_job m e j (find_job j r) r).ipc_jobs
  unfolding cancel_job find_job
  cancel_job-Advances none r = Advances-refl r.ipc_jobs
  cancel_job-Advances (some j) r = elim (Option-cases (get j r.ipc_jobs)) [
    | inl p ↦ rw p (Advances-refl r.ipc_jobs)
    | inr (w, p) ↦ rw p (elim (Bool-cases (not_pending w m.request)) [
      | inl q ↦ rw q (Advances-refl r.ipc_jobs)
      | inr q ↦
          rw q (Advances-put r.ipc_jobs j w _ p (JobStep.cancel (ground arith) (ground arith) refl))
    ])
  ]

  enter_job-Advances :
      (j : Option String) (r : Runtime)
      → Advances r.ipc_jobs (enter_job m e.tid j (find_job j r) r).ipc_jobs
  unfolding enter_job find_job
  enter_job-Advances none r = Advances-refl r.ipc_jobs
  enter_job-Advances (some j) r = elim (Option-cases (get j r.ipc_jobs)) [
    | inl p ↦ rw p (Advances-refl r.ipc_jobs)
    | inr (w, p) ↦ rw p (elim (Bool-cases (not_pending w m.request || has e.tid r.ipc_active)) [
      | inl q ↦ rw q (Advances-refl r.ipc_jobs)
      | inr q ↦
          rw q (
            Advances-put r.ipc_jobs j w _ p
              (JobStep.enter e.tid (ground arith) (ground arith) refl))
    ])
  ]

  leave_job-Advances :
      (j : Option String) (r : Runtime)
      → IsConsistent r
      → Advances r.ipc_jobs (leave_job m e.tid j (find_job j r) r).ipc_jobs
  unfolding leave_job find_job
  leave_job-Advances none r ok = Advances-refl r.ipc_jobs
  leave_job-Advances (some j) r ok = elim (Option-cases (get j r.ipc_jobs)) [
    | inl p ↦ rw p (Advances-refl r.ipc_jobs)
    | inr (w, p) ↦ rw p (elim (Bool-cases (runs_job e.tid j r && runs_request e.tid m.request r)) [
      | inl q ↦
          let (u, known, runs) =
            ok.active_runs e.tid j (runs_job_active e.tid j r (ground arith)) in
          rw q (
            Advances-put r.ipc_jobs j w _ p
              (JobStep.leave (ground (arith, runs.started)) (ground (arith, runs.unfinished)) refl))
      | inr q ↦ rw q (Advances-refl r.ipc_jobs)
    ])
  ]

-- In a state whose jobs and threads agree, a marker of any kind leaves every known job in the table
-- and takes it at most one step along sent, entered, left or sent, cancelled. So a finished job
-- never changes again, no job is entered twice, and none is entered after it was cancelled.
pub process_marker-JobStep :
    (setup : Setup) (k : Kind) (m : Marker) (e : Event) (r : Runtime)
    → IsConsistent r
    → Advances r.ipc_jobs (process_marker setup k m e r).ipc_jobs
unfolding process_marker ipc_send ipc_cancel ipc_enter ipc_leave
process_marker-JobStep setup Kind.ipc_send m e r ok =
    let sender = current_context e.tid e.pid r in
    let checked = check_sender m sender r in
    subst (λ jobs. Advances jobs (register_job setup m e sender m.job checked).ipc_jobs)
      (check_sender-jobs setup m e sender r) (register_job-Advances setup m e sender m.job checked)
process_marker-JobStep setup Kind.ipc_cancel m e r ok = cancel_job-Advances setup m e m.job r
process_marker-JobStep setup Kind.ipc_enter m e r ok = enter_job-Advances setup m e m.job r
process_marker-JobStep setup Kind.ipc_leave m e r ok = leave_job-Advances setup m e m.job r ok
process_marker-JobStep setup k m e r ok =
    rw ((other_kind-SameJobs setup m e r k refl).jobs) (Advances-refl r.ipc_jobs)
