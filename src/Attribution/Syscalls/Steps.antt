-- ===== src/Attribution/Syscalls/Steps.antt =====
-- The steps that system calls are made of keep descriptors and connections sound (attribute.py,
-- `_process_trace`).
use causpan.Prelude.{
  ℕ, ◌+◌, ◌<◌, ◌≤◌, ◌≡◌, refl, inl, inr, Bool-cases, Option-cases, Option, none, some, List, [],
  ◌∷◌, ◌∙◌, subst, pair_beq_iff, get, has, keep, union, Bool, true, false, ◌&&◌, ◌==◌, nat_eq,
  pair_eq, leb, member, member-union, get-put, put-IsDistinct, arith,
}
use mathlib.Core.Bool.{false≢true}
use causpan.Attribution.Types.{Event, NodeId, Connection, Setup}
use causpan.Attribution.Descriptors.{Descriptors, copy_fd_table, drop_descriptor}
use causpan.Attribution.Descriptors.Sound.{
  IsSound, hold, assign_table-IsSound, drop_descriptor-IsSound, set_close_on_exec-IsSound,
  hold-IsSound,
}
use causpan.Attribution.Descriptors.Private.{copy_fd_table-IsSound}
use causpan.Attribution.Syscalls.{
  owners_of, claim, new_socket, duplicate, descriptors_in, mark_all, privatise,
}

pub new_socket-IsSound :
    (pid table fd : ℕ) (d : Descriptors)
    → IsSound d
    → table ≤ d.fd_table_serial
    → IsSound (new_socket pid table fd d)
unfolding new_socket
new_socket-IsSound pid table fd d h le =
    let g = d.socket_generation + 1 in
    let c : Connection = record { requests = []; id = NodeId.connection pid fd g } in
    record {
      distinct = put-IsDistinct (table, fd) g d.sockets h.distinct;
      sockets_allocated =
          λ u m p. ground (arith, get-put (table, fd) (u, m) g d.sockets, h.sockets_allocated u m);
      marks_allocated = h.marks_allocated;
      tables_allocated = h.tables_allocated;
      connected = λ u m i p. ground (
        arith,
        get-put (table, fd) (u, m) g d.sockets,
        get-put g i c d.connections,
        h.connected u m i,
      );
      fresh = λ i p. ground (arith, get-put g i c d.connections, h.fresh i);
    }

pub claim-IsSound :
    (setup : Setup) (request : ℕ) (socket : Option ℕ) (d : Descriptors)
    → IsSound d
    → IsSound (claim setup request socket d)
unfolding claim
claim-IsSound setup request none d h = h
claim-IsSound setup request (some g) d h = elim (Bool-cases (request == 0)) [
  | inl p ↦ rw p h
  | inr p ↦ elim (Option-cases (get g d.connections)) [
    | inl q ↦ rw (p, q, claim) h
    | inr (c, q) ↦
        let owned : Connection = record c {
          requests = union c.requests (owners_of setup request);
        } in
        rw (p, q, claim)
          (record {
            distinct = h.distinct;
            sockets_allocated = h.sockets_allocated;
            marks_allocated = h.marks_allocated;
            tables_allocated = h.tables_allocated;
            connected =
                λ u m i r. ground (arith, get-put g i owned d.connections, h.connected u m i);
            fresh = λ i r. ground (arith, get-put g i owned d.connections, h.fresh i);
          })
  ]
]

pub duplicate-IsSound :
    (t n : ℕ) (socket : Option ℕ) (marked : Bool) (d : Descriptors)
    → IsSound d
    → t ≤ d.fd_table_serial
    → ((g : ℕ) → socket ≡ some g → has g d.connections ≡ true)
    → IsSound (duplicate (t, n) socket marked d)
unfolding duplicate
duplicate-IsSound t n none marked d h le known = drop_descriptor-IsSound t n d h
duplicate-IsSound t n (some g) true d h le known =
    set_close_on_exec-IsSound true t n (hold (t, n) g (drop_descriptor (t, n) d))
      (hold-IsSound t n g (drop_descriptor (t, n) d) (drop_descriptor-IsSound t n d h) le
        (known g refl))
      le
duplicate-IsSound t n (some g) false d h le known =
    hold-IsSound t n g (drop_descriptor (t, n) d) (drop_descriptor-IsSound t n d h) le
      (known g refl)

pub privatise-IsSound :
    (tid table : ℕ) (d : Descriptors)
    → IsSound d
    → table ≤ d.fd_table_serial
    → IsSound (privatise tid table d)
unfolding privatise
privatise-IsSound tid table d h le =
    assign_table-IsSound tid (copy_fd_table table d).fd_table_serial (copy_fd_table table d)
      (copy_fd_table-IsSound table d h le) (omega arith)

member-keep :
    (p : ℕ × ℕ → Bool) (key : ℕ × ℕ) (keys : List (ℕ × ℕ))
    → member key (keep p keys) ≡ true
    → p key ≡ true
unfolding member
member-keep p key [] h = absurd (false≢true h)
member-keep p key (k ∷ keys) h = elim (Bool-cases (p k)) [
  | inl q ↦ elim (Bool-cases (k == key)) [
    | inl same ↦ subst (λ i. p i ≡ true) ((pair_beq_iff k key).0 same) q
    | inr other ↦ member-keep p key keys (ground arith)
  ]
  | inr q ↦ member-keep p key keys (ground arith)
]

not_in_range :
    (t first last : ℕ) (d : Descriptors) (u m : ℕ)
    → t < u
    → ¬ (member (u, m) (descriptors_in t first last d) ≡ true)
unfolding descriptors_in
not_in_range t first last d u m p q =
    let r = member-keep (λ key. key.0 == t && (leb first key.1 && leb key.1 last)) (u, m) _ q in
    ground arith

pub mark_all-IsSound :
    (e : Event) (t first last : ℕ) (d : Descriptors)
    → IsSound d
    → t ≤ d.fd_table_serial
    → IsSound (mark_all (descriptors_in t first last d) d)
unfolding mark_all
mark_all-IsSound e t first last d h le = record {
  distinct = h.distinct;
  sockets_allocated = h.sockets_allocated;
  marks_allocated = λ u m p.
      let keys = descriptors_in t first last d in
      member-union (u, m) d.close_on_exec keys
      ∙ ground (arith, h.marks_allocated u m, outside u m p);
  tables_allocated = h.tables_allocated;
  connected = h.connected;
  fresh = h.fresh;
}
  where
    outside :
        (u m : ℕ) → d.fd_table_serial < u → member (u, m) (descriptors_in t first last d) ≡ false
    outside u m p = elim (Bool-cases (member (u, m) (descriptors_in t first last d))) [
      | inl q ↦ absurd (not_in_range t first last d u m (omega arith) q)
      | inr q ↦ q
    ]
