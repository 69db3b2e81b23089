-- ===== src/Attribution/Descriptors/Sound.antt =====
-- The state of descriptors and connections in attribute.py, and the operations that keep it sound.
use causpan.Prelude.{
  ℕ, ◌<◌, ◌≤◌, ◌≡◌, inl, inr, Option-cases, none, some, List, [], ◌∷◌, get, put, has, IsDistinct,
  put-IsDistinct, remove-IsDistinct, Bool, true, false, nat_eq, pair_eq, member, member-add,
  member-discard, get-put, get-remove, arith,
}
use causpan.Attribution.Descriptors.{
  Descriptors, new_fd_table, assign_table, fd_table, drop_descriptor, drop_descriptors,
  set_close_on_exec,
}
use causpan.Attribution.Descriptors.Copy.{IsAllocated}

-- Tables in use were allocated, a descriptor holds a connection that exists, and the numbers of new
-- tables and new connections are free.
pub record IsSound (d : Descriptors) : Type 0 where
  pub distinct : IsDistinct d.sockets
  pub sockets_allocated : (t n : ℕ) → d.fd_table_serial < t → get (t, n) d.sockets ≡ none
  pub marks_allocated : (t n : ℕ) → d.fd_table_serial < t → member (t, n) d.close_on_exec ≡ false
  pub tables_allocated : (pid t : ℕ) → get pid d.fd_tables ≡ some t → t ≤ d.fd_table_serial
  pub connected : (t n g : ℕ) → get (t, n) d.sockets ≡ some g → has g d.connections ≡ true
  pub fresh : (g : ℕ) → d.socket_generation < g → get g d.connections ≡ none

pub IsSound-IsAllocated : {d : Descriptors} → IsSound d → IsAllocated d
IsSound-IsAllocated h = record {
  distinct = h.distinct;
  sockets = h.sockets_allocated;
  marks = h.marks_allocated;
}

new_fd_table-IsSound : (d : Descriptors) → IsSound d → IsSound (new_fd_table d)
unfolding new_fd_table
new_fd_table-IsSound d h = record {
  distinct = h.distinct;
  sockets_allocated = λ t n p. h.sockets_allocated t n (omega arith);
  marks_allocated = λ t n p. h.marks_allocated t n (omega arith);
  tables_allocated = λ pid t p. omega (arith, h.tables_allocated pid t p);
  connected = h.connected;
  fresh = h.fresh;
}

pub assign_table-IsSound :
    (pid table : ℕ) (d : Descriptors)
    → IsSound d
    → table ≤ d.fd_table_serial
    → IsSound (assign_table pid table d)
unfolding assign_table
assign_table-IsSound pid table d h le = record {
  distinct = h.distinct;
  sockets_allocated = h.sockets_allocated;
  marks_allocated = h.marks_allocated;
  tables_allocated =
      λ p t q. ground (arith, get-put pid p table d.fd_tables, h.tables_allocated p t);
  connected = h.connected;
  fresh = h.fresh;
}

-- the table that a process has, or the one that it gets
pub fd_table-IsSound :
    (pid : ℕ) (d : Descriptors)
    → IsSound d
    → IsSound (fd_table pid d).1 × ((fd_table pid d).0 ≤ (fd_table pid d).1.fd_table_serial)
unfolding fd_table
fd_table-IsSound pid d h = elim (Option-cases (get pid d.fd_tables)) [
  | inl p ↦
      rw (p, fd_table)
        (
          assign_table-IsSound pid _ (new_fd_table d) (new_fd_table-IsSound d h) (omega arith),
          omega arith,
        )
  | inr (t, p) ↦ rw (p, fd_table) (h, h.tables_allocated pid t p)
]

pub drop_descriptor-IsSound :
    (t n : ℕ) (d : Descriptors) → IsSound d → IsSound (drop_descriptor (t, n) d)
unfolding drop_descriptor
drop_descriptor-IsSound t n d h = record {
  distinct = remove-IsDistinct (t, n) d.sockets h.distinct;
  sockets_allocated =
      λ u m p. ground (arith, get-remove (t, n) (u, m) d.sockets, h.sockets_allocated u m);
  marks_allocated =
      λ u m p. ground (arith, member-discard (t, n) (u, m) d.close_on_exec, h.marks_allocated u m);
  tables_allocated = h.tables_allocated;
  connected = λ u m g p. ground (arith, get-remove (t, n) (u, m) d.sockets, h.connected u m g);
  fresh = h.fresh;
}

pub drop_descriptors-IsSound :
    (keys : List (ℕ × ℕ)) (d : Descriptors) → IsSound d → IsSound (drop_descriptors keys d)
unfolding drop_descriptors
drop_descriptors-IsSound [] d h = h
drop_descriptors-IsSound ((t, n) ∷ keys) d h =
    drop_descriptors-IsSound keys (drop_descriptor (t, n) d) (drop_descriptor-IsSound t n d h)

pub set_close_on_exec-IsSound :
    (on : Bool) (t n : ℕ) (d : Descriptors)
    → IsSound d
    → t ≤ d.fd_table_serial
    → IsSound (set_close_on_exec on (t, n) d)
unfolding set_close_on_exec
set_close_on_exec-IsSound true t n d h le = record {
  distinct = h.distinct;
  sockets_allocated = h.sockets_allocated;
  marks_allocated =
      λ u m p. ground (arith, member-add (t, n) (u, m) d.close_on_exec, h.marks_allocated u m);
  tables_allocated = h.tables_allocated;
  connected = h.connected;
  fresh = h.fresh;
}
set_close_on_exec-IsSound false t n d h le = record {
  distinct = h.distinct;
  sockets_allocated = h.sockets_allocated;
  marks_allocated =
      λ u m p. ground (arith, member-discard (t, n) (u, m) d.close_on_exec, h.marks_allocated u m);
  tables_allocated = h.tables_allocated;
  connected = h.connected;
  fresh = h.fresh;
}

-- one more descriptor for a connection that exists
abbrev pub hold : ℕ × ℕ → ℕ → Descriptors → Descriptors
hold key g d = record d { sockets = put key g d.sockets }

pub hold-IsSound :
    (t n g : ℕ) (d : Descriptors)
    → IsSound d
    → t ≤ d.fd_table_serial
    → has g d.connections ≡ true
    → IsSound (hold (t, n) g d)
hold-IsSound t n g d h le known = record {
  distinct = put-IsDistinct (t, n) g d.sockets h.distinct;
  sockets_allocated =
      λ u m p. ground (arith, get-put (t, n) (u, m) g d.sockets, h.sockets_allocated u m);
  marks_allocated = h.marks_allocated;
  tables_allocated = h.tables_allocated;
  connected = λ u m i p. ground (arith, get-put (t, n) (u, m) g d.sockets, h.connected u m i);
  fresh = h.fresh;
}
