-- ===== src/Attribution/Syscalls/Effects.antt =====
-- Which descriptors a call leaves open, and on what (`_process_trace` of attribute.py: dup, exec and
-- close_range).
use causpan.Prelude.{
  ℕ, ◌+◌, ◌≡◌, ◌≢◌, refl, ap, Option, none, some, List, [], ◌∷◌, get, has, map, keep, Dict, Bool,
  true, false, ◌&&◌, not, remove, ◌==◌, nat_eq, pair_eq, member, get-put, get-remove, nat_beq_iff,
  discard, member-discard, member-add, if◌then◌else◌, inl, inr, Bool-cases, pair_beq_iff, arith,
}
use causpan.Attribution.Types.{Setup, Syscall}
use causpan.Attribution.Descriptors.{Descriptors, copy_fd_table, drop_descriptor, drop_descriptors}
use causpan.Attribution.Descriptors.Copy.{copy_fd_table_lem}
use causpan.Attribution.Descriptors.Sound.{IsSound, IsSound-IsAllocated}
use causpan.Attribution.Descriptors.Private.{serial-copy_fd_table}
use causpan.Attribution.Syscalls.{
  Call, nonnegative, is_zero, has_word, untouched, duplicate, dup_call, privatise, marked_in,
  exec_call, touch,
}
use causpan.Attribution.Syscalls.Sound.{IsSoundCall}

module _ (key : ℕ × ℕ) where
  get-drop_descriptors :
      (keys : List (ℕ × ℕ)) (d : Descriptors)
      → get key (drop_descriptors keys d).sockets
        ≡ (if member key keys then none else get key d.sockets)
  unfolding drop_descriptors member
  get-drop_descriptors [] d = refl
  get-drop_descriptors (k ∷ keys) d =
      ground (arith, get-drop_descriptors keys (drop_descriptor k d), get-remove k key d.sockets)

  member-keep_eq :
      (p : ℕ × ℕ → Bool) (keys : List (ℕ × ℕ))
      → member key (keep p keys) ≡ (p key && member key keys)
  unfolding member
  member-keep_eq p [] = ground arith
  member-keep_eq p (k ∷ keys) = elim (Bool-cases (k == key)) [
    | inl same ↦
        let e = ap p ((pair_beq_iff k key).0 same) in ground (arith, e, member-keep_eq p keys)
    | inr other ↦ ground (arith, member-keep_eq p keys)
  ]

  member-keys : (d : Dict (ℕ × ℕ) ℕ) → member key (map (λ item. item.0) d) ≡ has key d
  unfolding member get
  member-keys [] = refl
  member-keys ((k, v) ∷ d) = ground (arith, member-keys d)

  get-duplicate :
      (target : ℕ × ℕ) (socket : Option ℕ) (marked : Bool) (d : Descriptors)
      → get key (duplicate target socket marked d).sockets
        ≡ (if target == key then socket else get key d.sockets)
  unfolding duplicate
  get-duplicate target none marked d = get-remove target key d.sockets
  get-duplicate target (some g) true d =
      ground
        (arith, get-put target key g (remove target d.sockets), get-remove target key d.sockets)
  get-duplicate target (some g) false d =
      ground
        (arith, get-put target key g (remove target d.sockets), get-remove target key d.sockets)

-- the target is the source
kept_source :
    (table fd target s n : ℕ) (d : Descriptors)
    → fd ≡ target
    → get (s, n) d.sockets
      ≡ (if table == s && target == n then get (table, fd) d.sockets else get (s, n) d.sockets)
kept_source table fd target s n d e = elim (Bool-cases (table == s && target == n)) [
  | inr r ↦ rw r refl
  | inl r ↦
      let a : table ≡ s = ground (arith, nat_beq_iff table s) in
      let b : fd ≡ n = ground (arith, nat_beq_iff target n, e) in rw r (rw (a, b) refl)
]

abbrev is_some : Option ℕ → Bool
is_some none = false
is_some (some _) = true

module _ (key : ℕ × ℕ) where
  member-duplicate :
      (target : ℕ × ℕ) (socket : Option ℕ) (marked : Bool) (d : Descriptors)
      → member key (duplicate target socket marked d).close_on_exec
        ≡ (if target == key then marked && is_some socket else member key d.close_on_exec)
  unfolding duplicate
  member-duplicate target none true d = ground (arith, member-discard target key d.close_on_exec)
  member-duplicate target none false d = ground (arith, member-discard target key d.close_on_exec)
  member-duplicate target (some g) true d = ground (
    arith,
    member-add target key (discard target d.close_on_exec),
    member-discard target key d.close_on_exec,
  )
  member-duplicate target (some g) false d =
      ground (arith, member-discard target key d.close_on_exec)

-- What a dup of `fd` to `target` leaves: the target holds what the source held, with a mark of its own
-- if the source held a connection, but where the call does nothing; all else is as it was.
pub record IsDuplicate (c : Call) (d : Descriptors) (fd target : ℕ) (is_nothing marked : Bool)
    (t : Descriptors) : Type 0 where
  pub holds :
      (s n : ℕ)
      → get (s, n) t.sockets ≡ (
          if c.table == s && target == n then get (c.table, fd) d.sockets else get (s, n) d.sockets)
  pub marks :
      (s n : ℕ)
      → member (s, n) t.close_on_exec ≡ (
          if (c.table == s && target == n) && not is_nothing
          then marked && has (c.table, fd) d.sockets
          else member (s, n) d.close_on_exec)

dup_call-IsDuplicate :
    (c : Call) (onto marked : Bool) (d : Descriptors) (fd target : ℕ)
    → c.fd ≡ some fd
    → c.socket ≡ get (c.table, fd) d.sockets
    → nonnegative c.event.return_value ≡ some target
    → IsDuplicate c d fd target (onto && fd == target) marked (dup_call c onto marked d).descriptors
unfolding dup_call
dup_call-IsDuplicate c onto marked d fd target p held q = elim (Bool-cases (onto && fd == target)) [
  | inl r ↦
      let same : (fd == target) ≡ true = ground arith in
      let e : fd ≡ target = (nat_beq_iff fd target).0 same in
      rw (p, q, r, dup_call)
        (record {
          holds = λ s n. kept_source c.table fd target s n d e;
          marks = λ s n. ground arith;
        })
  | inr r ↦
      rw (p, q, r, held, dup_call)
        (record {
          holds =
              λ s n. get-duplicate (s, n) (c.table, target) (get (c.table, fd) d.sockets) marked d;
          marks = λ s n. ground (
            arith,
            member-duplicate (s, n) (c.table, target) (get (c.table, fd) d.sockets) marked d,
          );
        })
]

-- After a dup, dup2 or dup3 of `fd` that returned `target`, the target of the caller's table holds
-- what the source held, and no other number of any table has changed. The target is marked
-- close-on-exec if the call is a dup3 with O_CLOEXEC and the source held a connection, and not
-- otherwise, but a dup2 or dup3 of a number onto itself leaves the marks alone; all other marks are as
-- they were.
pub dup_call_lem :
    (setup : Setup) (c : Call) (d : Descriptors) (fd target : ℕ)
    → c.fd ≡ some fd
    → c.socket ≡ get (c.table, fd) d.sockets
    → nonnegative c.event.return_value ≡ some target
    → IsDuplicate c d fd target false false (touch setup Syscall.dup c d).descriptors
      × IsDuplicate c d fd target (fd == target) false (touch setup Syscall.dup2 c d).descriptors
      × IsDuplicate c d fd target
          (fd == target)
          (has_word c.event "O_CLOEXEC")
          (touch setup Syscall.dup3 c d).descriptors
unfolding touch
dup_call_lem setup c d fd target p held q = (
  dup_call-IsDuplicate c false false d fd target p held q,
  dup_call-IsDuplicate c true false d fd target p held q,
  dup_call-IsDuplicate c true (has_word c.event "O_CLOEXEC") d fd target p held q,
)

module _ (c : Call) (d : Descriptors) (h : IsSound d) (ok : IsSoundCall c d) where
  get-privatise :
      (n : ℕ)
      → get (d.fd_table_serial + 1, n) (privatise c.event.tid c.table d).sockets
        ≡ get (c.table, n) d.sockets
  unfolding privatise
  get-privatise n = (copy_fd_table_lem c.table d (IsSound-IsAllocated h) ok.allocated).0 n

  member-privatise :
      (n : ℕ)
      → member (d.fd_table_serial + 1, n) (privatise c.event.tid c.table d).close_on_exec
        ≡ (has (c.table, n) d.sockets && member (c.table, n) d.close_on_exec)
  unfolding privatise
  member-privatise n = (copy_fd_table_lem c.table d (IsSound-IsAllocated h) ok.allocated).1 n

  get-privatise_ne :
      (t n : ℕ)
      → t ≢ d.fd_table_serial + 1
      → get (t, n) (privatise c.event.tid c.table d).sockets ≡ get (t, n) d.sockets
  unfolding privatise
  get-privatise_ne t n ne =
      ((copy_fd_table_lem c.table d (IsSound-IsAllocated h) ok.allocated).2 t n ne).0

  table-privatise : (privatise c.event.tid c.table d).fd_table_serial ≡ d.fd_table_serial + 1
  unfolding privatise
  table-privatise = serial-copy_fd_table c.table d

  get_table-privatise :
      get c.event.tid (privatise c.event.tid c.table d).fd_tables ≡ some (d.fd_table_serial + 1)
  unfolding privatise
  get_table-privatise =
      let table = (copy_fd_table c.table d).fd_table_serial in
      let tables = (copy_fd_table c.table d).fd_tables in
      ground (arith, get-put c.event.tid c.event.tid table tables, serial-copy_fd_table c.table d)

drop_descriptors-fd_tables :
    (keys : List (ℕ × ℕ)) (d : Descriptors) → (drop_descriptors keys d).fd_tables ≡ d.fd_tables
unfolding drop_descriptors
drop_descriptors-fd_tables [] d = refl
drop_descriptors-fd_tables (k ∷ keys) d = drop_descriptors-fd_tables keys (drop_descriptor k d)

member-marked_in :
    (table t n : ℕ) (d : Descriptors)
    → member (t, n) (marked_in table d) ≡ (t == table && member (t, n) d.close_on_exec)
unfolding marked_in
member-marked_in table t n d = member-keep_eq (t, n) (λ key. key.0 == table) d.close_on_exec

abbrev own_copy : Call → Descriptors → Descriptors
own_copy c d = privatise c.event.tid c.table d

exec_call-descriptors :
    (c : Call) (d : Descriptors)
    → is_zero c.event.return_value ≡ true
    → (exec_call c d).descriptors
      ≡ drop_descriptors (marked_in (own_copy c d).fd_table_serial (own_copy c d)) (own_copy c d)
unfolding exec_call untouched
exec_call-descriptors c d z = rw (z, exec_call)

pub exec_call_lem :
    (c : Call) (d : Descriptors)
    → IsSound d
    → IsSoundCall c d
    → is_zero c.event.return_value ≡ true
    → (get c.event.tid (exec_call c d).descriptors.fd_tables ≡ some (d.fd_table_serial + 1))
      × ((n : ℕ)
          → get (d.fd_table_serial + 1, n) (exec_call c d).descriptors.sockets
            ≡ (if member (c.table, n) d.close_on_exec then none else get (c.table, n) d.sockets))
      × ((t n : ℕ)
          → t ≢ d.fd_table_serial + 1
          → get (t, n) (exec_call c d).descriptors.sockets ≡ get (t, n) d.sockets)
exec_call_lem c d h ok z =
    let own = own_copy c d in
    let keys = marked_in own.fd_table_serial own in
    let fresh = d.fd_table_serial + 1 in
    rw (exec_call-descriptors c d z) (
      rw (drop_descriptors-fd_tables keys own) (get_table-privatise c d h ok),
      λ n. ground (
        arith,
        get-drop_descriptors (fresh, n) keys own,
        member-marked_in own.fd_table_serial fresh n own,
        table-privatise c d h ok,
        get-privatise c d h ok n,
        member-privatise c d h ok n,
      ),
      λ t n ne. ground (
        arith,
        get-drop_descriptors (t, n) keys own,
        member-marked_in own.fd_table_serial t n own,
        table-privatise c d h ok,
        get-privatise_ne c d h ok t n ne,
      ),
    )
