-- ===== src/Attribution/Trace/Well.antt =====
-- `_process_trace` of attribute.py never raises on a well-formed state, and keeps it well formed.
use causpan.Prelude.{
  ℕ, ◌≡◌, inl, inr, Bool-cases, Option-cases, Option, none, some, none≢some, [], ◌∷◌, ◌++◌, has,
  All, All-append, nat_eq, pair_eq, true, ◌&&◌, not, arith,
}
use causpan.Attribution.Types.{Event, Context, Connection, Row, Setup}
use causpan.Attribution.Runtime.{current_context}
use causpan.Attribution.Args.{fd_number, CloneFlag, clone_has_flag}
use causpan.Attribution.Descriptors.{Descriptors, fd_table}
use causpan.Attribution.Descriptors.Sound.{IsSound, fd_table-IsSound, drop_descriptor-IsSound}
use causpan.Attribution.Syscalls.{Call, Touched, touch, claim, child_of, is_zero}
use causpan.Attribution.Syscalls.Steps.{claim-IsSound}
use causpan.Attribution.Syscalls.Sound.{IsSoundCall, IsSoundTouch}
use causpan.Attribution.Syscalls.Touch.{touch-IsSoundTouch}
use causpan.Attribution.Syscalls.Owned.{
  HasId, IsSetup, IsKnown, IsOwned, claim-IsOwned, touch-IsOwned,
}
use causpan.Attribution.Rows.{request_of, is_clone}
use causpan.Attribution.Rows.Fits.{IsClassified, make_row-IsClassified}
use causpan.Attribution.Trace.{
  Attributor, add_records, is_excluded, socket_at, find_connection, is_socket_io, is_close,
  close_socket, use_socket, show_socket, scope_of, inherit, show_row, tag_row, settle, tag_call,
  finish_trace, trace_call, process_trace,
}
use causpan.Attribution.Trace.Quiet.{IsQuiet, show_socket-IsQuiet, show_row-IsQuiet}
use causpan.Attribution.Trace.Total.{
  IsWell, current_context-IsKnown, make_row_total, scope_of-IsKnownScope, put-AllKnown,
}

module _ (setup : Setup) where
  quiet-IsWell : {a b : Attributor} → IsQuiet a b → IsWell setup a → IsWell setup b
  quiet-IsWell q h = record {
    sound = rw q.descriptors h.sound;
    owned = rw q.descriptors h.owned;
    consistent = rw (q.ipc_jobs, q.ipc_active) h.consistent;
    state_known = rw q.state h.state_known;
    inherited_known = rw q.inherited h.inherited_known;
    classified = rw q.tagged h.classified;
  }

  inherit-IsWell :
      (e : Event) (context : Option Context) (a : Attributor)
      → IsKnown setup (request_of context)
      → IsWell setup a
      → IsWell setup (inherit setup e context a)
  unfolding inherit
  inherit-IsWell e context a known h = elim (Option-cases (child_of e.return_value)) [
    | inl p ↦ rw (p, inherit) h
    | inr (child, p) ↦
        elim (Bool-cases (is_clone e.syscall && not (clone_has_flag e.args CloneFlag.thread))) [
          | inr q ↦ rw (p, q, inherit) h
          | inl q ↦
              rw (p, q, inherit)
                (record {
                  sound = h.sound;
                  owned = h.owned;
                  consistent = h.consistent;
                  state_known = h.state_known;
                  inherited_known =
                      put-AllKnown setup child _ a.runtime.inherited known h.inherited_known;
                  classified = h.classified;
                })
        ]
  ]

  close_socket-IsSound : (c : Call) (d : Descriptors) → IsSound d → IsSound (close_socket c d)
  unfolding close_socket
  close_socket-IsSound c d h = elim (Option-cases c.fd) [
    | inl p ↦ rw (p, close_socket) h
    | inr (fd, p) ↦ elim (Bool-cases (is_close c.event.syscall && is_zero c.event.return_value)) [
      | inl q ↦ rw (p, q, close_socket) (drop_descriptor-IsSound c.table fd d h)
      | inr q ↦ rw (p, q, close_socket) h
    ]
  ]

  close_socket-connections :
      (c : Call) (d : Descriptors) → (close_socket c d).connections ≡ d.connections
  unfolding close_socket
  close_socket-connections c d = elim (Option-cases c.fd) [
    | inl p ↦ rw (p, close_socket)
    | inr (fd, p) ↦ elim (Bool-cases (is_close c.event.syscall && is_zero c.event.return_value)) [
      | inl q ↦ rw (p, q, close_socket)
      | inr q ↦ rw (p, q, close_socket)
    ]
  ]

  use_socket-IsSound :
      (c : Call) (socket : Option ℕ) (d : Descriptors)
      → IsSound d
      → IsSound (use_socket setup c socket d)
  unfolding use_socket
  use_socket-IsSound c none d h = h
  use_socket-IsSound c (some g) d h = elim (Bool-cases (is_socket_io c.event.syscall)) [
    | inl p ↦
        rw (p, use_socket)
          (close_socket-IsSound c (claim setup c.request (some g) d)
            (claim-IsSound setup c.request (some g) d h))
    | inr p ↦ rw (p, use_socket) (close_socket-IsSound c d h)
  ]

  use_socket-IsOwned :
      (c : Call) (socket : Option ℕ) (d : Descriptors)
      → IsSetup setup
      → IsKnown setup c.request
      → IsOwned setup d.connections
      → IsOwned setup (use_socket setup c socket d).connections
  unfolding use_socket
  use_socket-IsOwned c none d good known h = h
  use_socket-IsOwned c (some g) d good known h = elim (Bool-cases (is_socket_io c.event.syscall)) [
    | inl p ↦
        rw (p, use_socket)
          (rw (close_socket-connections c (claim setup c.request (some g) d))
            (claim-IsOwned setup good c.request (some g) d known h))
    | inr p ↦ rw (p, use_socket) (rw (close_socket-connections c d) h)
  ]

  show_row-IsWell :
      (e : Event) (request : ℕ) (c : Option Connection) (row : Row) (a : Attributor)
      → IsClassified row
      → IsWell setup a
      → IsWell setup (show_row setup e request c row (record a { tagged = a.tagged ++ row ∷ [] }))
  show_row-IsWell e request c row a fits h =
      quiet-IsWell
        (show_row-IsQuiet setup e request c row (record a { tagged = a.tagged ++ row ∷ [] }))
        (record {
          sound = h.sound;
          owned = h.owned;
          consistent = h.consistent;
          state_known = h.state_known;
          inherited_known = h.inherited_known;
          classified = All-append IsClassified a.tagged (row ∷ []) h.classified (fits, tt);
        })

  settle-IsWell :
      (c : Call) (t : Touched) (a : Attributor)
      → IsSetup setup
      → IsKnown setup c.request
      → IsSoundTouch t
      → IsOwned setup t.descriptors.connections
      → IsWell setup a
      → IsWell setup (settle setup c t a)
  unfolding add_records
  settle-IsWell c t a good known sound owned h =
      unfold settle in
      record {
        sound = use_socket-IsSound c t.socket t.descriptors sound.sound;
        owned = use_socket-IsOwned c t.socket t.descriptors good known owned;
        consistent = h.consistent;
        state_known = h.state_known;
        inherited_known = h.inherited_known;
        classified = h.classified;
      }

  tag_call-IsWell :
      (c : Call) (context : Option Context) (t : Touched) (v : Option Connection) (a : Attributor)
      → IsSetup setup
      → IsKnown setup c.request
      → IsKnown setup (request_of context)
      → ((w : Connection) → v ≡ some w → All (HasId setup) w.requests)
      → IsWell setup a
      → (b : Attributor) × (tag_call setup c context t v a ≡ some b) × IsWell setup b
  unfolding tag_call
  tag_call-IsWell c context t v a good known context_known owners h =
      let e = c.event in
      let s = scope_of c.request context e.syscall v in
      let scope =
        scope_of-IsKnownScope setup c.request context e.syscall v known context_known owners in
      let (row, p) = make_row_total setup e s t.socket v good owners in
      let shown = show_socket setup e t.fd t.socket v a in
      let spawned = inherit setup e s.context shown in
      (
        show_row setup e s.request v row (record spawned { tagged = spawned.tagged ++ row ∷ [] }),
        rw (p, tag_row),
        show_row-IsWell e s.request v row spawned (make_row-IsClassified setup e s t.socket v p) (
            inherit-IsWell e s.context shown scope.context
              (quiet-IsWell (show_socket-IsQuiet setup e t.fd t.socket v a) h)),
      )

  found :
      (socket : Option ℕ) (d : Descriptors) (w : Connection)
      → IsOwned setup d.connections
      → find_connection socket d ≡ some w
      → All (HasId setup) w.requests
  unfolding find_connection
  found none d w h p = absurd (none≢some p)
  found (some g) d w h p = h.at g w p

  finish_trace-IsWell :
      (c : Call) (context : Option Context) (t : Touched) (a : Attributor)
      → IsSetup setup
      → IsKnown setup c.request
      → IsKnown setup (request_of context)
      → IsSoundTouch t
      → IsOwned setup t.descriptors.connections
      → IsWell setup a
      → (b : Attributor) × (finish_trace setup c context t a ≡ some b) × IsWell setup b
  finish_trace-IsWell c context t a good known context_known sound owned h =
      let settled = settle setup c t a in
      let well = settle-IsWell c t a good known sound owned h in
      let v = find_connection t.socket settled.descriptors in
      unfold finish_trace in
      tag_call-IsWell c context t v settled good known context_known
        (λ w p. found t.socket settled.descriptors w well.owned p) well

  socket_at-known :
      (table : ℕ) (fd : Option ℕ) (d : Descriptors) (g : ℕ)
      → IsSound d
      → socket_at table fd d ≡ some g
      → has g d.connections ≡ true
  unfolding socket_at
  socket_at-known table none d g h p = absurd (none≢some p)
  socket_at-known table (some fd) d g h p = h.connected table fd g p

  fd_table-connections :
      (pid : ℕ) (d : Descriptors) → (fd_table pid d).1.connections ≡ d.connections
  unfolding fd_table
  fd_table-connections pid d = ground arith

  trace_call-IsWell :
      (e : Event) (a : Attributor)
      → IsSetup setup
      → IsWell setup a
      → (b : Attributor) × (trace_call setup e a ≡ some b) × IsWell setup b
  trace_call-IsWell e a good h =
      let context = current_context e.tid e.pid a.runtime in
      let table = (fd_table e.tid a.descriptors).0 in
      let d = (fd_table e.tid a.descriptors).1 in
      let (sound, allocated) = fd_table-IsSound e.tid a.descriptors h.sound in
      let fd = fd_number e.args in
      let c : Call = record {
        event = e;
        request = request_of context;
        table = table;
        fd = fd;
        socket = socket_at table fd d;
      } in
      let known =
        current_context-IsKnown setup e.tid e.pid a.runtime h.state_known h.inherited_known in
      let call : IsSoundCall c d = record {
        allocated = allocated;
        known = λ g p. socket_at-known table fd d g sound p;
      } in
      unfold trace_call in
      finish_trace-IsWell c context (touch setup e.syscall c d) a good known known
        (touch-IsSoundTouch setup e.syscall c d sound call)
        (touch-IsOwned setup good c d known (rw (fd_table-connections e.tid a.descriptors) h.owned)
          e.syscall)
        h

-- On a run whose request map gives every owner an id, in a well-formed state whose contexts name
-- mapped requests, a traced call of any name and arguments raises nothing, and the state after it
-- is well formed again.
pub process_trace-IsWell :
    (setup : Setup) (e : Event) (a : Attributor)
    → IsSetup setup
    → IsWell setup a
    → (b : Attributor) × (process_trace setup e a ≡ some b) × IsWell setup b
unfolding process_trace
process_trace-IsWell setup e a good h = elim (Bool-cases (is_excluded setup e)) [
  | inl p ↦ (a, rw (p, process_trace), h)
  | inr p ↦
      let (b, q, well) = trace_call-IsWell setup e a good h in (b, rw (p, process_trace) q, well)
]
