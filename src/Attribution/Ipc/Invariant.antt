-- ===== src/Attribution/Ipc/Invariant.antt =====
-- Inter-process jobs and the threads that run them (`ipc_jobs`, `ipc_active` of attribute.py).
use causpan.Prelude.{
  ℕ, String, ◌≡◌, refl, inl, inr, Bool-cases, Option-cases, has, ◌&&◌, ◌||◌, Option, none, some,
  Dict, get, put, remove, true, false, ◌==◌, nat_eq, string_eq, string_eq_iff, get-put, get-remove,
  arith,
}
use mathlib.Core.Bool.{false≢true}
use causpan.Attribution.Types.{Marker, Event, Context, IpcJob, Setup}
use causpan.Attribution.Runtime.{Runtime, report}
use causpan.Attribution.Ipc.{
  find_job, check_sender, new_job, register_job, cancel_job, enter_job, leave_job, runs_job,
  runs_request, not_pending,
}

-- A job that runs on a thread.
pub record Runs (w : IpcJob) (tid : ℕ) : Type 0 where
  pub started : w.started ≡ true
  pub unfinished : w.finished ≡ false
  pub on : w.worker_tid ≡ some tid

-- Only a job that was entered names a worker, and only a job that was not is cancelled.
pub record IsPhased (w : IpcJob) : Type 0 where
  pub entered : w.started ≡ false → w.worker_tid ≡ none
  pub cancelled_unstarted : w.cancelled ≡ true → w.started ≡ false
  pub finished_unstarted : w.started ≡ false → w.finished ≡ w.cancelled

-- The active threads are exactly those of the running jobs.
pub record JobsAreConsistent (jobs : Dict String IpcJob) (active : Dict ℕ String) : Type 0 where
  pub phased : (j : String) (w : IpcJob) → get j jobs ≡ some w → IsPhased w
  pub active_runs :
      (tid : ℕ) (j : String)
      → get tid active ≡ some j
      → (w : IpcJob) × (get j jobs ≡ some w) × Runs w tid
  pub running_active :
      (j : String) (w : IpcJob) (tid : ℕ)
      → get j jobs ≡ some w
      → Runs w tid
      → get tid active ≡ some j

module _ {jobs : Dict String IpcJob} {active : Dict ℕ String}
    (ok : JobsAreConsistent jobs active) where
  JobsAreConsistent-sent :
      (j : String) (m : Marker) (e : Event)
      → get j jobs ≡ none
      → JobsAreConsistent (put j (new_job m e) jobs) active
  JobsAreConsistent-sent j m e fresh = record {
    phased =
        λ i v p. ground (arith, get-put j i (new_job m e) jobs, string_eq_iff j i, ok.phased i v);
    active_runs = λ tid i p.
        let (w, q, runs) = ok.active_runs tid i p in
        (w, ground (arith, get-put j i (new_job m e) jobs, string_eq_iff j i), runs);
    running_active = λ i v tid p q.
        ground
          (arith, get-put j i (new_job m e) jobs, string_eq_iff j i, ok.running_active i v tid);
  }

  JobsAreConsistent-cancelled :
      (j : String) (w : IpcJob)
      → get j jobs ≡ some w
      → w.started ≡ false
      → JobsAreConsistent (put j (record w { finished = true; cancelled = true }) jobs) active
  JobsAreConsistent-cancelled j w known idle =
      let done : IpcJob = record w { finished = true; cancelled = true } in
      record {
        phased = λ i v p.
            ground (arith, get-put j i done jobs, string_eq_iff j i, ok.phased i v, ok.phased j w);
        active_runs = λ tid i p.
            let (u, q, runs) = ok.active_runs tid i p in
            (u, ground (arith, get-put j i done jobs, string_eq_iff j i), runs);
        running_active = λ i v tid p q.
            ground (arith, get-put j i done jobs, string_eq_iff j i, ok.running_active i v tid);
      }

  JobsAreConsistent-entered :
      (j : String) (w : IpcJob) (tid : ℕ)
      → get j jobs ≡ some w
      → w.started ≡ false
      → w.finished ≡ false
      → get tid active ≡ none
      → JobsAreConsistent
          (put j (record w { started = true; worker_tid = some tid }) jobs)
          (put tid j active)
  JobsAreConsistent-entered j w tid known idle unfinished free =
      let busy : IpcJob = record w { started = true; worker_tid = some tid } in
      record {
        phased = λ i v p.
            ground (arith, get-put j i busy jobs, string_eq_iff j i, ok.phased i v, ok.phased j w);
        active_runs = λ t i p. elim (Bool-cases (tid == t)) [
          | inl here ↦ (
            busy,
            ground (arith, get-put j i busy jobs, get-put tid t j active, string_eq_iff j i),
            record { started = refl; unfinished = unfinished; on = ground arith },
          )
          | inr there ↦
              let (u, q, runs) = ok.active_runs t i (ground (arith, get-put tid t j active)) in
              (u, ground (arith, get-put j i busy jobs, string_eq_iff j i), runs)
        ];
        running_active = λ i v t p q. ground (
          arith,
          get-put j i busy jobs,
          get-put tid t j active,
          string_eq_iff j i,
          ok.running_active i v t,
        );
      }

  JobsAreConsistent-left :
      (j : String) (w : IpcJob) (tid : ℕ)
      → get j jobs ≡ some w
      → get tid active ≡ some j
      → JobsAreConsistent (put j (record w { finished = true }) jobs) (remove tid active)
  JobsAreConsistent-left j w tid known running =
      let done : IpcJob = record w { finished = true } in
      record {
        phased = λ i v p. ground (
          arith,
          get-put j i done jobs,
          string_eq_iff j i,
          ok.phased i v,
          ok.phased j w,
          ok.active_runs tid j running,
        );
        active_runs = λ t i p.
            let (u, q, runs) = ok.active_runs t i (ground (arith, get-remove tid t active)) in
            let (v, r, first) = ok.active_runs tid j running in
            (
              u,
              ground (arith, get-put j i done jobs, get-remove tid t active, string_eq_iff j i),
              runs,
            );
        running_active = λ i v t p q. ground (
          arith,
          get-put j i done jobs,
          get-remove tid t active,
          string_eq_iff j i,
          ok.running_active i v t,
          ok.active_runs tid j running,
        );
      }

pub runs_job_active :
    (tid : ℕ) (j : String) (r : Runtime) → runs_job tid j r ≡ true → get tid r.ipc_active ≡ some j
unfolding runs_job
runs_job_active tid j r h = elim (Option-cases (get tid r.ipc_active)) [
  | inl p ↦ absurd (false≢true (rw (p, runs_job) at h))
  | inr (i, p) ↦ ground (arith, string_eq_iff i j)
]

-- the pair of fields that the invariant reads
abbrev pub IsConsistent : Runtime → Type 0
IsConsistent r = JobsAreConsistent r.ipc_jobs r.ipc_active

module _ (setup : Setup) (m : Marker) (e : Event) where
  pub check_sender-IsConsistent :
      (c : Option Context) (r : Runtime) → IsConsistent r → IsConsistent (check_sender m c r)
  unfolding check_sender report
  check_sender-IsConsistent none r ok = ok
  check_sender-IsConsistent (some c) r ok = elim (Bool-cases (c.request == m.request)) [
    | inl p ↦ rw p ok
    | inr p ↦ rw p ok
  ]

  pub register_job-IsConsistent :
      (c : Option Context) (j : Option String) (r : Runtime)
      → IsConsistent r
      → IsConsistent (register_job setup m e c j r)
  unfolding register_job
  register_job-IsConsistent c none r ok = ok
  register_job-IsConsistent c (some j) r ok = elim (Bool-cases (j == "" || has j r.ipc_jobs)) [
    | inl p ↦ rw p ok
    | inr p ↦ rw p (JobsAreConsistent-sent ok j m e (ground arith))
  ]

  pub cancel_job-IsConsistent :
      (j : Option String) (r : Runtime)
      → IsConsistent r
      → IsConsistent (cancel_job m e j (find_job j r) r)
  unfolding cancel_job find_job
  cancel_job-IsConsistent none r ok = ok
  cancel_job-IsConsistent (some j) r ok = elim (Option-cases (get j r.ipc_jobs)) [
    | inl p ↦ rw p ok
    | inr (w, p) ↦ rw p (elim (Bool-cases (not_pending w m.request)) [
      | inl q ↦ rw q ok
      | inr q ↦ rw q (JobsAreConsistent-cancelled ok j w p (ground arith))
    ])
  ]

  pub enter_job-IsConsistent :
      (j : Option String) (r : Runtime)
      → IsConsistent r
      → IsConsistent (enter_job m e.tid j (find_job j r) r)
  unfolding enter_job find_job
  enter_job-IsConsistent none r ok = ok
  enter_job-IsConsistent (some j) r ok = elim (Option-cases (get j r.ipc_jobs)) [
    | inl p ↦ rw p ok
    | inr (w, p) ↦ rw p (elim (Bool-cases (not_pending w m.request || has e.tid r.ipc_active)) [
      | inl q ↦ rw q ok
      | inr q ↦
          rw q
            (JobsAreConsistent-entered ok j w e.tid p (ground arith) (ground arith) (ground arith))
    ])
  ]

  pub leave_job-IsConsistent :
      (j : Option String) (r : Runtime)
      → IsConsistent r
      → IsConsistent (leave_job m e.tid j (find_job j r) r)
  unfolding leave_job find_job
  leave_job-IsConsistent none r ok = ok
  leave_job-IsConsistent (some j) r ok = elim (Option-cases (get j r.ipc_jobs)) [
    | inl p ↦ rw p ok
    | inr (w, p) ↦ rw p (elim (Bool-cases (runs_job e.tid j r && runs_request e.tid m.request r)) [
      | inl q ↦
          rw q (JobsAreConsistent-left ok j w e.tid p (runs_job_active e.tid j r (ground arith)))
      | inr q ↦ rw q ok
    ])
  ]
