-- ===== src/Attribution/Descriptors.antt =====
-- Descriptor tables, sockets and the connections that descriptors share (attribute.py,
-- `_new_fd_table`, `_fd_table`, `_copy_fd_table` and the socket state). A socket state is an object
-- that several descriptors hold, so descriptors map to the number of a connection, its generation,
-- and the connections are a store of their own. A table is its serial number.
pub mod Copy
pub mod Sound
pub mod Private
use causpan.Prelude.{
  ℕ, ◌+◌, none, some, List, [], ◌∷◌, Dict, get, put, remove, Bool, ◌==◌, nat_eq, pair_eq, member,
  add, discard, if◌then◌else◌,
}
use causpan.Attribution.Types.{Connection}

pub record Descriptors : Type 0 where
  pub sockets : Dict (ℕ × ℕ) ℕ
  pub close_on_exec : List (ℕ × ℕ)
  pub fd_tables : Dict ℕ ℕ
  pub fd_table_serial : ℕ
  pub socket_generation : ℕ
  pub connections : Dict ℕ Connection

-- `_new_fd_table`: the new table is the new serial
unfoldable pub new_fd_table : Descriptors → Descriptors
new_fd_table d = record d { fd_table_serial = d.fd_table_serial + 1 }

-- `self.fd_tables[pid] = table`
unfoldable pub assign_table : ℕ → ℕ → Descriptors → Descriptors
assign_table pid table d = record d { fd_tables = put pid table d.fd_tables }

-- `_fd_table`: the table, and the state
unfoldable pub fd_table : ℕ → Descriptors → ℕ × Descriptors
unfolding new_fd_table assign_table
fd_table pid d = elim (get pid d.fd_tables) [
  | some table ↦ (table, d)
  | none ↦
      let fresh = new_fd_table d in
      (fresh.fd_table_serial, assign_table pid fresh.fd_table_serial fresh)
]

-- one round of the loop in `_copy_fd_table`
unfoldable pub copy_entry : ℕ → ℕ → ℕ → ℕ → Descriptors → Descriptors
copy_entry table copied number owner d = record d {
  sockets = put (copied, number) owner d.sockets;
  close_on_exec =
      if member (table, number) d.close_on_exec
      then add (copied, number) d.close_on_exec
      else d.close_on_exec;
}

unfoldable pub copy_entries : ℕ → ℕ → List ((ℕ × ℕ) × ℕ) → Descriptors → Descriptors
unfolding copy_entry
copy_entries table copied [] d = d
copy_entries table copied (((t, n), owner) ∷ items) d =
    copy_entries table copied items (if t == table then copy_entry table copied n owner d else d)

-- `_copy_fd_table`: the new table is the serial of the result
unfoldable pub copy_fd_table : ℕ → Descriptors → Descriptors
unfolding copy_entries new_fd_table
copy_fd_table table d = copy_entries table (d.fd_table_serial + 1) d.sockets (new_fd_table d)

-- `self.sockets.pop(descriptor, None); self.close_on_exec.discard(descriptor)`
unfoldable pub drop_descriptor : ℕ × ℕ → Descriptors → Descriptors
drop_descriptor key d = record d {
  sockets = remove key d.sockets;
  close_on_exec = discard key d.close_on_exec;
}

unfoldable pub drop_descriptors : List (ℕ × ℕ) → Descriptors → Descriptors
unfolding drop_descriptor
drop_descriptors [] d = d
drop_descriptors (key ∷ keys) d = drop_descriptors keys (drop_descriptor key d)

unfoldable pub set_close_on_exec : Bool → ℕ × ℕ → Descriptors → Descriptors
set_close_on_exec on key d =
    if on
    then record d { close_on_exec = add key d.close_on_exec }
    else record d { close_on_exec = discard key d.close_on_exec }
