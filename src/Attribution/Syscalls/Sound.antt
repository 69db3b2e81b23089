-- ===== src/Attribution/Syscalls/Sound.antt =====
-- Every system call keeps descriptors and connections sound (the branches of `_process_trace` of
-- attribute.py).
use causpan.Prelude.{
  ℕ, ◌+◌, ◌≤◌, ◌≡◌, refl, inl, inr, Bool-cases, Option-cases, Option, none, some, List, [], ◌∷◌,
  get, has, Bool, true, false, ◌&&◌, ◌==◌, nat_eq, pair_eq, get-put, union, arith, int_eq,
}
use causpan.Attribution.Types.{Connection, NodeId, Setup}
use causpan.Attribution.Descriptors.{
  Descriptors, drop_descriptor, drop_descriptors, set_close_on_exec,
}
use causpan.Attribution.Descriptors.Sound.{IsSound, set_close_on_exec-IsSound}
use causpan.Attribution.Descriptors.Private.{copy_fd_table-SameRest}
use causpan.Attribution.Syscalls.{
  Call, Touched, nonnegative, owners_of, has_word, claim, new_socket, open_socket, untouched,
  accept_socket, connect_socket, duplicate, dup_call, fcntl_call, privatise,
}
use causpan.Attribution.Syscalls.Steps.{new_socket-IsSound, claim-IsSound, duplicate-IsSound}

-- Connections are never lost.
abbrev pub KeepsConnections : Descriptors → Descriptors → Type 0
KeepsConnections d d' = (g : ℕ) → has g d.connections ≡ true → has g d'.connections ≡ true

pub set_close_on_exec-connections :
    (on : Bool) (key : ℕ × ℕ) (d : Descriptors)
    → (set_close_on_exec on key d).connections ≡ d.connections
unfolding set_close_on_exec
set_close_on_exec-connections true key d = refl
set_close_on_exec-connections false key d = refl

set_close_on_exec-generation :
    (on : Bool) (key : ℕ × ℕ) (d : Descriptors)
    → (set_close_on_exec on key d).socket_generation ≡ d.socket_generation
unfolding set_close_on_exec
set_close_on_exec-generation true key d = refl
set_close_on_exec-generation false key d = refl

pub drop_descriptors-connections :
    (keys : List (ℕ × ℕ)) (d : Descriptors) → (drop_descriptors keys d).connections ≡ d.connections
unfolding drop_descriptors
drop_descriptors-connections [] d = refl
drop_descriptors-connections (key ∷ keys) d =
    drop_descriptors-connections keys (drop_descriptor key d)

pub duplicate-connections :
    (key : ℕ × ℕ) (socket : Option ℕ) (marked : Bool) (d : Descriptors)
    → (duplicate key socket marked d).connections ≡ d.connections
unfolding duplicate
duplicate-connections key none marked d = refl
duplicate-connections key (some g) true d = refl
duplicate-connections key (some g) false d = refl

pub privatise-connections :
    (tid table : ℕ) (d : Descriptors) → (privatise tid table d).connections ≡ d.connections
unfolding privatise
privatise-connections tid table d = (copy_fd_table-SameRest table d).connections

claim-KeepsConnections :
    (setup : Setup) (request : ℕ) (socket : Option ℕ) (d : Descriptors)
    → KeepsConnections d (claim setup request socket d)
unfolding claim
claim-KeepsConnections setup request none d i h = h
claim-KeepsConnections setup request (some g) d i h = elim (Bool-cases (request == 0)) [
  | inl p ↦ rw p h
  | inr p ↦ elim (Option-cases (get g d.connections)) [
    | inl q ↦ rw (p, q, claim) h
    | inr (c, q) ↦
        let owned : Connection = record c {
          requests = union c.requests (owners_of setup request);
        } in
        rw (p, q, claim) (ground (arith, get-put g i owned d.connections))
  ]
]

-- What the locals of a call satisfy: its table was allocated, and its socket exists.
pub record IsSoundCall (c : Call) (d : Descriptors) : Type 0 where
  pub allocated : c.table ≤ d.fd_table_serial
  pub known : (g : ℕ) → c.socket ≡ some g → has g d.connections ≡ true

-- A sound result: the descriptors are, and the socket state of the call exists.
pub record IsSoundTouch (t : Touched) : Type 0 where
  pub sound : IsSound t.descriptors
  pub known : (g : ℕ) → t.socket ≡ some g → has g t.descriptors.connections ≡ true

module _ (setup : Setup) (c : Call) (d : Descriptors) (h : IsSound d) (ok : IsSoundCall c d) where
  -- a branch that keeps the socket of the call
  pub touched :
      (d' : Descriptors) → IsSound d' → KeepsConnections d d' → IsSoundTouch (untouched c d')
  unfolding untouched
  touched d' sound keeps = record { sound = sound; known = λ g p. keeps g (ok.known g p) }

  pub untouched-IsSoundTouch : IsSoundTouch (untouched c d)
  untouched-IsSoundTouch = touched d h (λ g p. p)

  made_known :
      (fd : ℕ) (marked : Bool) (g : ℕ)
      → some (d.socket_generation + 1) ≡ some g
      → has g
          (set_close_on_exec marked (c.table, fd) (new_socket c.event.pid c.table fd d)).connections
        ≡ true
  unfolding new_socket
  made_known fd marked g p =
      let id = NodeId.connection c.event.pid fd (d.socket_generation + 1) in
      let fresh : Connection = record { requests = []; id = id } in
      rw (set_close_on_exec-connections marked (c.table, fd) (new_socket c.event.pid c.table fd d))
        (ground (arith, get-put (d.socket_generation + 1) g fresh d.connections))

  pub open_socket-IsSoundTouch :
      (fd : ℕ) (marked : Bool) → IsSoundTouch (open_socket setup c fd marked d)
  unfolding open_socket
  open_socket-IsSoundTouch fd marked =
      let made = new_socket c.event.pid c.table fd d in
      let opened = set_close_on_exec marked (c.table, fd) made in
      record {
        sound = claim-IsSound setup c.request (some opened.socket_generation) opened (
            set_close_on_exec-IsSound marked c.table fd made
              (new_socket-IsSound c.event.pid c.table fd d h ok.allocated) ok.allocated);
        known = λ g p.
            claim-KeepsConnections setup c.request (some opened.socket_generation) opened g
              (made_known fd marked g (rw (set_close_on_exec-generation marked _ made) at p));
      }

  duplicated :
      (key : ℕ × ℕ) (marked : Bool)
      → key.0 ≤ d.fd_table_serial
      → IsSoundTouch (untouched c (duplicate key c.socket marked d))
  duplicated key marked le =
      touched (duplicate key c.socket marked d)
        (duplicate-IsSound key.0 key.1 c.socket marked d h le ok.known)
        (λ g p. rw (duplicate-connections key c.socket marked d) p)

  pub dup_call-IsSoundTouch : (onto marked : Bool) → IsSoundTouch (dup_call c onto marked d)
  unfolding dup_call
  dup_call-IsSoundTouch onto marked = elim (Option-cases c.fd) [
    | inl p ↦ rw (p, dup_call) untouched-IsSoundTouch
    | inr (fd, p) ↦ elim (Option-cases (nonnegative c.event.return_value)) [
      | inl q ↦ rw (p, q, dup_call) untouched-IsSoundTouch
      | inr (target, q) ↦ elim (Bool-cases (onto && fd == target)) [
        | inl r ↦ rw (p, q, r, dup_call) untouched-IsSoundTouch
        | inr r ↦ rw (p, q, r, dup_call) (duplicated (c.table, target) marked ok.allocated)
      ]
    ]
  ]

  pub accept_socket-IsSoundTouch : (marked : Bool) → IsSoundTouch (accept_socket setup c marked d)
  unfolding accept_socket
  accept_socket-IsSoundTouch marked = elim (Option-cases (nonnegative c.event.return_value)) [
    | inl p ↦ rw (p, accept_socket) untouched-IsSoundTouch
    | inr (fd, p) ↦
        let opened = open_socket-IsSoundTouch fd marked in
        elim (Option-cases c.socket) [
          | inl q ↦ rw (p, q, accept_socket) opened
          | inr (g, q) ↦ elim (Option-cases (get g d.connections)) [
            | inl r ↦ rw (p, q, r, accept_socket) opened
            | inr (listener, r) ↦
                rw (p, q, r, accept_socket) (record { sound = opened.sound; known = opened.known })
          ]
        ]
  ]

  pub connect_socket-IsSoundTouch : IsSoundTouch (connect_socket setup c d)
  unfolding connect_socket
  connect_socket-IsSoundTouch = elim (Option-cases c.fd) [
    | inl p ↦ rw (p, connect_socket) untouched-IsSoundTouch
    | inr (fd, p) ↦ elim (Option-cases c.socket) [
      | inr (g, q) ↦
          rw (p, q, connect_socket)
            (touched (claim setup c.request (some g) d) (claim-IsSound setup c.request (some g) d h)
              (claim-KeepsConnections setup c.request (some g) d))
      | inl q ↦
          let made = new_socket c.event.pid c.table fd d in
          rw (p, q, connect_socket)
            (record {
              sound =
                  claim-IsSound setup c.request (some made.socket_generation) made
                    (new_socket-IsSound c.event.pid c.table fd d h ok.allocated);
              known = λ g r.
                  claim-KeepsConnections setup c.request (some made.socket_generation) made g (
                    rw (set_close_on_exec-connections false (c.table, fd) made) at
                      (made_known fd false g r));
            })
    ]
  ]

  pub fcntl_call-IsSoundTouch : IsSoundTouch (fcntl_call c d)
  unfolding fcntl_call
  fcntl_call-IsSoundTouch = elim (Option-cases c.fd) [
    | inl p ↦ rw (p, fcntl_call) untouched-IsSoundTouch
    | inr (fd, p) ↦ elim (Option-cases (nonnegative c.event.return_value)) [
      | inl q ↦ rw (p, q, fcntl_call) untouched-IsSoundTouch
      | inr (target, q) ↦ elim (Bool-cases (has_word c.event "F_DUPFD")) [
        | inl r ↦
            rw (p, q, r, fcntl_call)
              (duplicated (c.table, target) (has_word c.event "F_DUPFD_CLOEXEC") ok.allocated)
        | inr r ↦ elim (Bool-cases (has_word c.event "F_SETFD")) [
          | inl s ↦
              let on = has_word c.event "FD_CLOEXEC" in
              rw (p, q, r, s, fcntl_call)
                (touched (set_close_on_exec on (c.table, fd) d)
                  (set_close_on_exec-IsSound on c.table fd d h ok.allocated)
                  (λ g t. rw (set_close_on_exec-connections on (c.table, fd) d) t))
          | inr s ↦ rw (p, q, r, s, fcntl_call) untouched-IsSoundTouch
        ]
      ]
    ]
  ]
