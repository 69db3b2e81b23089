-- ===== src/Attribution/Descriptors/Copy.antt =====
-- What a copied descriptor table holds (`_copy_fd_table` of attribute.py).
use causpan.Prelude.{
  ℕ, ◌+◌, ◌<◌, ◌≤◌, ◌≡◌, ◌≢◌, inl, inr, Bool-cases, Option, none, some, [], ◌∷◌, Dict, get, has,
  IsDistinct, false, ◌&&◌, ◌||◌, ◌==◌, nat_eq, pair_eq, member, member-add, get-put, if◌then◌else◌,
  arith,
}
use causpan.Attribution.Descriptors.{
  Descriptors, new_fd_table, copy_entry, copy_entries, copy_fd_table,
}

abbrev or_else : Option ℕ → Option ℕ → Option ℕ
or_else (some a) b = some a
or_else none b = b

module _ (table copied : ℕ) (apart : table ≢ copied) where
  copy_entries-sockets :
      (items : Dict (ℕ × ℕ) ℕ) (d : Descriptors) (t n : ℕ)
      → IsDistinct items
      → get (t, n) (copy_entries table copied items d).sockets ≡ (
          if t == copied
          then or_else (get (table, n) items) (get (copied, n) d.sockets)
          else get (t, n) d.sockets)
  unfolding copy_entries get
  copy_entries-sockets [] d t n h = ground arith
  copy_entries-sockets (((t0, n0), owner) ∷ items) d t n h = elim (Bool-cases (t0 == table)) [
    | inl p ↦ rw p (
        ground (
          arith,
          copy_entries-sockets items (copy_entry table copied n0 owner d) t n h.1,
          get-put (copied, n0) (t, n) owner d.sockets,
          get-put (copied, n0) (copied, n) owner d.sockets,
          h.0,
        ))
    | inr p ↦ rw p (ground (arith, copy_entries-sockets items d t n h.1))
  ]

  copy_entries-marks :
      (items : Dict (ℕ × ℕ) ℕ) (d : Descriptors) (t n : ℕ)
      → member (t, n) (copy_entries table copied items d).close_on_exec ≡ (
          if t == copied
          then member (copied, n) d.close_on_exec
            || (has (table, n) items && member (table, n) d.close_on_exec)
          else member (t, n) d.close_on_exec)
  unfolding copy_entries get
  copy_entries-marks [] d t n = ground arith
  copy_entries-marks (((t0, n0), owner) ∷ items) d t n = elim (Bool-cases (t0 == table)) [
    | inl p ↦
        rw (p, copy_entries)
          (ground (
            arith,
            copy_entries-marks items (copy_entry table copied n0 owner d) t n,
            member-add (copied, n0) (t, n) d.close_on_exec,
            member-add (copied, n0) (copied, n) d.close_on_exec,
            member-add (copied, n0) (table, n) d.close_on_exec,
          ))
    | inr p ↦ rw (p, copy_entries) (ground (arith, copy_entries-marks items d t n))
  ]

-- Every table that the state names was allocated: its number is at most the serial.
pub record IsAllocated (d : Descriptors) : Type 0 where
  pub distinct : IsDistinct d.sockets
  pub sockets : (t n : ℕ) → d.fd_table_serial < t → get (t, n) d.sockets ≡ none
  pub marks : (t n : ℕ) → d.fd_table_serial < t → member (t, n) d.close_on_exec ≡ false

abbrev pub copy_of : Descriptors → ℕ
copy_of d = d.fd_table_serial + 1

-- In a state whose tables are all allocated, the copy of an allocated table holds under each number
-- the same connection as the original; a number of the copy is marked close-on-exec exactly when the
-- original holds a connection there and marks it; and every other table keeps its connections and
-- its marks.
pub copy_fd_table_lem :
    (table : ℕ) (d : Descriptors)
    → IsAllocated d
    → table ≤ d.fd_table_serial
    → ((n : ℕ) → get (copy_of d, n) (copy_fd_table table d).sockets ≡ get (table, n) d.sockets)
      × ((n : ℕ)
          → member (copy_of d, n) (copy_fd_table table d).close_on_exec
            ≡ (has (table, n) d.sockets && member (table, n) d.close_on_exec))
      × ((t n : ℕ)
          → t ≢ copy_of d
          → (get (t, n) (copy_fd_table table d).sockets ≡ get (t, n) d.sockets)
            × (member (t, n) (copy_fd_table table d).close_on_exec ≡ member (t, n) d.close_on_exec))
unfolding copy_fd_table
copy_fd_table_lem table d ok h =
    let apart : table ≢ copy_of d = omega arith in
    let fresh = new_fd_table d in
    (
      λ n. ground (
        arith,
        copy_entries-sockets table (copy_of d) apart d.sockets fresh (copy_of d) n ok.distinct,
        ok.sockets (copy_of d) n,
      ),
      λ n. ground (
        arith,
        copy_entries-marks table (copy_of d) apart d.sockets fresh (copy_of d) n,
        ok.marks (copy_of d) n,
      ),
      λ t n other. (
        ground
            (arith, copy_entries-sockets table (copy_of d) apart d.sockets fresh t n ok.distinct),
        ground (arith, copy_entries-marks table (copy_of d) apart d.sockets fresh t n),
      ),
    )
