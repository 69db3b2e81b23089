-- ===== src/Attribution/Descriptors/Private.antt =====
-- Copying a whole table keeps the state of descriptors sound (`_copy_fd_table` of attribute.py).
use causpan.Prelude.{
  ℕ, ◌<◌, ◌≤◌, ◌≡◌, refl, inl, inr, ne_of_eq_false, ◌∙◌, Bool-cases, [], ◌∷◌, Dict, IsDistinct,
  put-IsDistinct, ◌==◌, nat_eq, pair_eq, nat_beq_iff, arith,
}
use causpan.Attribution.Descriptors.{
  Descriptors, new_fd_table, copy_entry, copy_entries, copy_fd_table,
}
use causpan.Attribution.Descriptors.Copy.{copy_of, copy_fd_table_lem}
use causpan.Attribution.Descriptors.Sound.{IsSound, IsSound-IsAllocated}

-- what copying leaves alone
pub record SameRest (d d' : Descriptors) : Type 0 where
  pub fd_tables : d'.fd_tables ≡ d.fd_tables
  pub serial : d'.fd_table_serial ≡ d.fd_table_serial
  pub generation : d'.socket_generation ≡ d.socket_generation
  pub connections : d'.connections ≡ d.connections

module _ (table copied : ℕ) where
  copy_entries-SameRest :
      (items : Dict (ℕ × ℕ) ℕ) (d : Descriptors) → SameRest d (copy_entries table copied items d)
  unfolding copy_entries
  copy_entries-SameRest [] d = record {
    fd_tables = refl;
    serial = refl;
    generation = refl;
    connections = refl;
  }
  copy_entries-SameRest (((t, n), owner) ∷ items) d = elim (Bool-cases (t == table)) [
    | inl p ↦
        let rest = copy_entries-SameRest items (copy_entry table copied n owner d) in
        rw (p, copy_entries)
          (record {
            fd_tables = rest.fd_tables;
            serial = rest.serial;
            generation = rest.generation;
            connections = rest.connections;
          })
    | inr p ↦ rw (p, copy_entries) (copy_entries-SameRest items d)
  ]

  copy_entries-IsDistinct :
      (items : Dict (ℕ × ℕ) ℕ) (d : Descriptors)
      → IsDistinct d.sockets
      → IsDistinct (copy_entries table copied items d).sockets
  unfolding copy_entries
  copy_entries-IsDistinct [] d h = h
  copy_entries-IsDistinct (((t, n), owner) ∷ items) d h = elim (Bool-cases (t == table)) [
    | inl p ↦
        rw (p, copy_entries)
          (copy_entries-IsDistinct items (copy_entry table copied n owner d)
            (put-IsDistinct (copied, n) owner d.sockets h))
    | inr p ↦ rw (p, copy_entries) (copy_entries-IsDistinct items d h)
  ]

module _ (table : ℕ) (d : Descriptors) where
  pub copy_fd_table-SameRest : SameRest (new_fd_table d) (copy_fd_table table d)
  unfolding copy_fd_table
  copy_fd_table-SameRest = copy_entries-SameRest table (copy_of d) d.sockets (new_fd_table d)

  pub serial-copy_fd_table : (copy_fd_table table d).fd_table_serial ≡ copy_of d
  unfolding new_fd_table
  serial-copy_fd_table = copy_fd_table-SameRest.serial

  copy_fd_table-IsDistinct : IsDistinct d.sockets → IsDistinct (copy_fd_table table d).sockets
  unfolding copy_fd_table
  copy_fd_table-IsDistinct = copy_entries-IsDistinct table (copy_of d) d.sockets (new_fd_table d)

  pub copy_fd_table-IsSound :
      IsSound d → table ≤ d.fd_table_serial → IsSound (copy_fd_table table d)
  unfolding new_fd_table
  copy_fd_table-IsSound h le =
      let (same_sockets, same_marks, others) =
        copy_fd_table_lem table d (IsSound-IsAllocated h) le in
      let rest = copy_fd_table-SameRest in
      record {
        distinct = copy_fd_table-IsDistinct h.distinct;
        sockets_allocated = λ t n p.
            let q : copy_of d < t = rw (serial-copy_fd_table) at p in
            (others t n (omega arith)).0 ∙ h.sockets_allocated t n (omega arith);
        marks_allocated = λ t n p.
            let q : copy_of d < t = rw (serial-copy_fd_table) at p in
            (others t n (omega arith)).1 ∙ h.marks_allocated t n (omega arith);
        tables_allocated = λ pid t p.
            let le' = h.tables_allocated pid t (rw rest.fd_tables at p) in
            omega (arith, serial-copy_fd_table);
        connected = λ t n g p. rw rest.connections (elim (Bool-cases (t == copy_of d)) [
          | inl here ↦
              h.connected table n g (ground (arith, same_sockets n, nat_beq_iff t (copy_of d)))
          | inr there ↦
              h.connected t n g (ground (arith, others t n (ne_of_eq_false t (copy_of d) there)))
        ]);
        fresh = λ g p. rw rest.connections (h.fresh g (rw rest.generation at p));
      }
