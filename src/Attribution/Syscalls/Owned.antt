-- ===== src/Attribution/Syscalls/Owned.antt =====
-- Whose requests a connection carries (`socket_state['requests']` of attribute.py): only requests
-- with an id ever get there.
use causpan.Prelude.{
  ℕ, ◌+◌, ◌≡◌, ◌⊎◌, inl, inr, ◌∙◌, subst, Bool-cases, Option-cases, Option, none, some, List, [],
  ◌∷◌, Dict, get, has, All, All-append, member, add, union, nat_eq, pair_eq, ◌==◌, Bool, true,
  false, ◌&&◌, get-put, arith, some_injective,
}
use causpan.Attribution.Types.{Syscall, Event, Connection, RpcId, NodeId, Setup}
use causpan.Attribution.Args.{
  RangeFlag, close_range_has_flag, CloneFlag, clone_has_flag, unshares_files, number_pair,
}
use causpan.Attribution.Descriptors.{Descriptors, set_close_on_exec}
use causpan.Attribution.Syscalls.{
  Call, nonnegative, is_zero, child_of, has_word, owners_of, claim, new_socket, open_socket,
  accept_socket, connect_socket, dup_call, fcntl_call, descriptors_in, close_numbers, privatise,
  close_range_call, clone_call, unshare_call, marked_in, exec_call, touch,
}
use causpan.Attribution.Syscalls.Sound.{
  set_close_on_exec-connections, drop_descriptors-connections, privatise-connections,
}

-- a request of the map that names its id, with owners of its own
abbrev pub HasId : Setup → ℕ → Type 0
HasId setup r = (id : RpcId) × (get r setup.roots ≡ some (some id)) × (has r setup.owners ≡ true)

-- every owner that the map gives has an id
pub record IsSetup (setup : Setup) : Type 0 where
  pub owned : (r : ℕ) (s : List ℕ) → get r setup.owners ≡ some s → All (HasId setup) s

-- no request, or one of the map
abbrev pub IsKnown : Setup → ℕ → Type 0
IsKnown setup r = (r ≡ 0) ⊎ (has r setup.owners ≡ true)

pub record IsOwned (setup : Setup) (connections : Dict ℕ Connection) : Type 0 where
  pub at : (g : ℕ) (c : Connection) → get g connections ≡ some c → All (HasId setup) c.requests

All-add : (P : ℕ → Type 0) (a : ℕ) (s : List ℕ) → P a → All P s → All P (add a s)
unfolding add
All-add P a s p h = elim (Bool-cases (member a s)) [
  | inl q ↦ rw (q, add) h
  | inr q ↦ rw (q, add) (All-append P s (a ∷ []) h (p, tt))
]

pub All-union : (P : ℕ → Type 0) (s t : List ℕ) → All P s → All P t → All P (union s t)
unfolding union
All-union P s [] h k = h
All-union P s (a ∷ t) h k = All-union P (add a s) t (All-add P a s k.0 h) k.1

module _ (setup : Setup) (good : IsSetup setup) where
  All-owners_of :
      (r : ℕ) → IsKnown setup r → (r == 0) ≡ false → All (HasId setup) (owners_of setup r)
  unfolding owners_of
  All-owners_of r known nonzero = elim (Option-cases (get r setup.owners)) [
    | inl p ↦ absurd (ground arith)
    | inr (s, p) ↦ rw (p, owners_of) (good.owned r s p)
  ]

  pub claim-IsOwned :
      (r : ℕ) (socket : Option ℕ) (d : Descriptors)
      → IsKnown setup r
      → IsOwned setup d.connections
      → IsOwned setup (claim setup r socket d).connections
  unfolding claim
  claim-IsOwned r none d known h = h
  claim-IsOwned r (some g) d known h = elim (Bool-cases (r == 0)) [
    | inl p ↦ rw (p, claim) h
    | inr p ↦ elim (Option-cases (get g d.connections)) [
      | inl q ↦ rw (p, q, claim) h
      | inr (c, q) ↦
          let owned : Connection = record c { requests = union c.requests (owners_of setup r) } in
          rw (p, q, claim)
            (record {
              at = λ i v t. elim (Bool-cases (g == i)) [
                | inl here ↦
                    let e : owned ≡ v =
                      some_injective (ground (arith, get-put g i owned d.connections)) in
                    subst (λ x. All (HasId setup) x.requests) e
                      (All-union (HasId setup) c.requests (owners_of setup r) (h.at g c q)
                        (All-owners_of r known p))
                | inr there ↦ h.at i v (ground (arith, get-put g i owned d.connections))
              ];
            })
    ]
  ]

  new_socket-IsOwned :
      (pid table fd : ℕ) (d : Descriptors)
      → IsOwned setup d.connections
      → IsOwned setup (new_socket pid table fd d).connections
  unfolding new_socket
  new_socket-IsOwned pid table fd d h =
      let g = d.socket_generation + 1 in
      let fresh : Connection = record { requests = []; id = NodeId.connection pid fd g } in
      record {
        at = λ i v t. elim (Bool-cases (g == i)) [
          | inl here ↦
              let e : fresh ≡ v =
                some_injective (ground (arith, get-put g i fresh d.connections)) in
              subst (λ x. All (HasId setup) x.requests) e tt
          | inr there ↦ h.at i v (ground (arith, get-put g i fresh d.connections))
        ];
      }

module _ (c : Call) (d : Descriptors) where
  dup_call-connections :
      (onto marked : Bool) → (dup_call c onto marked d).descriptors.connections ≡ d.connections
  unfolding dup_call
  dup_call-connections onto marked = ground arith

  fcntl_call-connections : (fcntl_call c d).descriptors.connections ≡ d.connections
  unfolding fcntl_call
  fcntl_call-connections = ground arith

  clone_call-connections : (clone_call c d).descriptors.connections ≡ d.connections
  unfolding clone_call
  clone_call-connections = elim (Option-cases (child_of c.event.return_value)) [
    | inl p ↦ rw (p, clone_call)
    | inr (child, p) ↦ elim (Bool-cases (clone_has_flag c.event.args CloneFlag.files)) [
      | inl q ↦ rw (p, q, clone_call)
      | inr q ↦ rw (p, q, clone_call) (privatise-connections child c.table d)
    ]
  ]

  unshare_call-connections : (unshare_call c d).descriptors.connections ≡ d.connections
  unfolding unshare_call
  unshare_call-connections =
      elim (Bool-cases (is_zero c.event.return_value && unshares_files c.event.args)) [
        | inl p ↦ rw (p, unshare_call) (privatise-connections c.event.tid c.table d)
        | inr p ↦ rw (p, unshare_call)
      ]

  exec_call-connections : (exec_call c d).descriptors.connections ≡ d.connections
  unfolding exec_call
  exec_call-connections = elim (Bool-cases (is_zero c.event.return_value)) [
    | inr p ↦ rw (p, exec_call)
    | inl p ↦
        let own = privatise c.event.tid c.table d in
        rw (p, exec_call)
          (drop_descriptors-connections (marked_in own.fd_table_serial own) own
            ∙ privatise-connections c.event.tid c.table d)
  ]

close_numbers-connections :
    (e : Event) (table : ℕ) (d : Descriptors)
    → (close_numbers e table d).connections ≡ d.connections
unfolding close_numbers
close_numbers-connections e table d = elim (Option-cases (number_pair e.args)) [
  | inl p ↦ rw (p, close_numbers)
  | inr ((first, last, rest), p) ↦
      elim (Bool-cases (close_range_has_flag e.args RangeFlag.cloexec)) [
        | inl q ↦ rw (p, q, close_numbers)
        | inr q ↦
            rw (p, q, close_numbers)
              (drop_descriptors-connections (descriptors_in table first last d) d)
      ]
]

close_range_call-connections :
    (c : Call) (d : Descriptors) → (close_range_call c d).descriptors.connections ≡ d.connections
unfolding close_range_call
close_range_call-connections c d = elim (Bool-cases (is_zero c.event.return_value)) [
  | inr p ↦ rw (p, close_range_call)
  | inl p ↦ elim (Bool-cases (close_range_has_flag c.event.args RangeFlag.unshare)) [
    | inl q ↦
        let own = privatise c.event.tid c.table d in
        rw (p, q, close_range_call)
          (close_numbers-connections c.event own.fd_table_serial own
            ∙ privatise-connections c.event.tid c.table d)
    | inr q ↦ rw (p, q, close_range_call) (close_numbers-connections c.event c.table d)
  ]
]

module _ (setup : Setup) (good : IsSetup setup) (c : Call) (d : Descriptors)
    (known : IsKnown setup c.request) (h : IsOwned setup d.connections) where
  open_socket-IsOwned :
      (fd : ℕ) (marked : Bool)
      → IsOwned setup (open_socket setup c fd marked d).descriptors.connections
  unfolding open_socket
  open_socket-IsOwned fd marked =
      let made = new_socket c.event.pid c.table fd d in
      let opened = set_close_on_exec marked (c.table, fd) made in
      claim-IsOwned setup good c.request (some opened.socket_generation) opened known (
        rw (set_close_on_exec-connections marked (c.table, fd) made)
          (new_socket-IsOwned setup good c.event.pid c.table fd d h))

  accept_socket-IsOwned :
      (marked : Bool) → IsOwned setup (accept_socket setup c marked d).descriptors.connections
  unfolding accept_socket
  accept_socket-IsOwned marked = elim (Option-cases (nonnegative c.event.return_value)) [
    | inl p ↦ rw (p, accept_socket) h
    | inr (fd, p) ↦ elim (Option-cases c.socket) [
      | inl q ↦ rw (p, q, accept_socket) (open_socket-IsOwned fd marked)
      | inr (g, q) ↦ elim (Option-cases (get g d.connections)) [
        | inl r ↦ rw (p, q, r, accept_socket) (open_socket-IsOwned fd marked)
        | inr (l, r) ↦ rw (p, q, r, accept_socket) (open_socket-IsOwned fd marked)
      ]
    ]
  ]

  connect_socket-IsOwned : IsOwned setup (connect_socket setup c d).descriptors.connections
  unfolding connect_socket
  connect_socket-IsOwned = elim (Option-cases c.fd) [
    | inl p ↦ rw (p, connect_socket) h
    | inr (fd, p) ↦ elim (Option-cases c.socket) [
      | inr (g, q) ↦
          rw (p, q, connect_socket) (claim-IsOwned setup good c.request (some g) d known h)
      | inl q ↦
          let made = new_socket c.event.pid c.table fd d in
          rw (p, q, connect_socket)
            (claim-IsOwned setup good c.request (some made.socket_generation) made known
              (new_socket-IsOwned setup good c.event.pid c.table fd d h))
    ]
  ]

  pub touch-IsOwned : (s : Syscall) → IsOwned setup (touch setup s c d).descriptors.connections
  unfolding touch
  touch-IsOwned Syscall.socket = elim (Option-cases (nonnegative c.event.return_value)) [
    | inl p ↦ rw (p, touch) h
    | inr (fd, p) ↦ rw (p, touch) (open_socket-IsOwned fd (has_word c.event "SOCK_CLOEXEC"))
  ]
  touch-IsOwned Syscall.accept = accept_socket-IsOwned false
  touch-IsOwned Syscall.accept4 = accept_socket-IsOwned (has_word c.event "SOCK_CLOEXEC")
  touch-IsOwned Syscall.connect = connect_socket-IsOwned
  touch-IsOwned Syscall.dup = rw (dup_call-connections c d false false) h
  touch-IsOwned Syscall.dup2 = rw (dup_call-connections c d true false) h
  touch-IsOwned Syscall.dup3 = rw (dup_call-connections c d true (has_word c.event "O_CLOEXEC")) h
  touch-IsOwned Syscall.fcntl = rw (fcntl_call-connections c d) h
  touch-IsOwned Syscall.close_range = rw (close_range_call-connections c d) h
  touch-IsOwned Syscall.clone = rw (clone_call-connections c d) h
  touch-IsOwned Syscall.clone3 = rw (clone_call-connections c d) h
  touch-IsOwned Syscall.fork = rw (clone_call-connections c d) h
  touch-IsOwned Syscall.vfork = rw (clone_call-connections c d) h
  touch-IsOwned Syscall.unshare = rw (unshare_call-connections c d) h
  touch-IsOwned Syscall.execve = rw (exec_call-connections c d) h
  touch-IsOwned Syscall.execveat = rw (exec_call-connections c d) h
  touch-IsOwned s = h
