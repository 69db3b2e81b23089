-- ===== src/Attribution/Syscalls/Touch.antt =====
-- The calls that change whole tables, and every call together: what the chain of branches in
-- `_process_trace` of attribute.py keeps.
use causpan.Prelude.{ℕ, ◌+◌, ◌≤◌, ◌≡◌, inl, inr, Bool-cases, Option-cases, true, false, ◌&&◌, arith}
use causpan.Attribution.Types.{Syscall, Event, Setup}
use causpan.Attribution.Args.{
  number_pair, RangeFlag, close_range_has_flag, CloneFlag, clone_has_flag, unshares_files,
}
use causpan.Attribution.Descriptors.{Descriptors, drop_descriptors}
use causpan.Attribution.Descriptors.Sound.{IsSound, assign_table-IsSound, drop_descriptors-IsSound}
use causpan.Attribution.Descriptors.Private.{serial-copy_fd_table}
use causpan.Attribution.Syscalls.{
  Call, nonnegative, is_zero, child_of, has_word, untouched, descriptors_in, close_numbers,
  privatise, close_range_call, clone_call, unshare_call, marked_in, exec_call, touch,
}
use causpan.Attribution.Syscalls.Steps.{privatise-IsSound, mark_all-IsSound}
use causpan.Attribution.Syscalls.Sound.{
  IsSoundCall, IsSoundTouch, touched, untouched-IsSoundTouch, open_socket-IsSoundTouch,
  accept_socket-IsSoundTouch, connect_socket-IsSoundTouch, dup_call-IsSoundTouch,
  fcntl_call-IsSoundTouch, privatise-connections, drop_descriptors-connections,
}

close_numbers-IsSound :
    (e : Event) (table : ℕ) (d : Descriptors)
    → IsSound d
    → table ≤ d.fd_table_serial
    → IsSound (close_numbers e table d)
unfolding close_numbers
close_numbers-IsSound e table d h le = elim (Option-cases (number_pair e.args)) [
  | inl p ↦ rw (p, close_numbers) h
  | inr ((first, last, rest), p) ↦
      elim (Bool-cases (close_range_has_flag e.args RangeFlag.cloexec)) [
        | inl q ↦ rw (p, q, close_numbers) (mark_all-IsSound e table first last d h le)
        | inr q ↦
            rw (p, q, close_numbers)
              (drop_descriptors-IsSound (descriptors_in table first last d) d h)
      ]
]

module _ (tid table : ℕ) (d : Descriptors) where
  table-privatise : (privatise tid table d).fd_table_serial ≡ d.fd_table_serial + 1
  unfolding privatise
  table-privatise = serial-copy_fd_table table d

module _ (setup : Setup) (c : Call) (d : Descriptors) (h : IsSound d) (ok : IsSoundCall c d) where
  private_copy : (tid : ℕ) → IsSoundTouch (untouched c (privatise tid c.table d))
  private_copy tid =
      touched setup c d h ok (privatise tid c.table d)
        (privatise-IsSound tid c.table d h ok.allocated)
        (λ g p. rw (privatise-connections tid c.table d) p)

  close_range_call-IsSoundTouch : IsSoundTouch (close_range_call c d)
  unfolding close_range_call
  close_range_call-IsSoundTouch = elim (Bool-cases (is_zero c.event.return_value)) [
    | inr p ↦ rw (p, close_range_call) (untouched-IsSoundTouch setup c d h ok)
    | inl p ↦ elim (Bool-cases (close_range_has_flag c.event.args RangeFlag.unshare)) [
      | inl q ↦
          let own = privatise c.event.tid c.table d in
          rw (p, q, close_range_call)
            (record {
              sound =
                  close_numbers-IsSound c.event own.fd_table_serial own
                    (privatise-IsSound c.event.tid c.table d h ok.allocated) (omega arith);
              known = λ g r. cc r;
            })
      | inr q ↦
          rw (p, q, close_range_call)
            (record {
              sound = close_numbers-IsSound c.event c.table d h ok.allocated;
              known = λ g r. cc r;
            })
    ]
  ]

  clone_call-IsSoundTouch : IsSoundTouch (clone_call c d)
  unfolding clone_call
  clone_call-IsSoundTouch = elim (Option-cases (child_of c.event.return_value)) [
    | inl p ↦ rw (p, clone_call) (untouched-IsSoundTouch setup c d h ok)
    | inr (child, p) ↦ elim (Bool-cases (clone_has_flag c.event.args CloneFlag.files)) [
      | inl q ↦
          rw (p, q, clone_call)
            (touched setup c d h ok _ (assign_table-IsSound child c.table d h ok.allocated)
              (λ g r. r))
      | inr q ↦ rw (p, q, clone_call) (private_copy child)
    ]
  ]

  unshare_call-IsSoundTouch : IsSoundTouch (unshare_call c d)
  unfolding unshare_call
  unshare_call-IsSoundTouch =
      elim (Bool-cases (is_zero c.event.return_value && unshares_files c.event.args)) [
        | inl p ↦ rw (p, unshare_call) (private_copy c.event.tid)
        | inr p ↦ rw (p, unshare_call) (untouched-IsSoundTouch setup c d h ok)
      ]

  exec_call-IsSoundTouch : IsSoundTouch (exec_call c d)
  unfolding exec_call
  exec_call-IsSoundTouch = elim (Bool-cases (is_zero c.event.return_value)) [
    | inr p ↦ rw (p, exec_call) (untouched-IsSoundTouch setup c d h ok)
    | inl p ↦
        let own = privatise c.event.tid c.table d in
        let keys = marked_in own.fd_table_serial own in
        rw (p, exec_call)
          (touched setup c d h ok (drop_descriptors keys own)
            (drop_descriptors-IsSound keys own
              (privatise-IsSound c.event.tid c.table d h ok.allocated))
            (λ g r.
              rw (drop_descriptors-connections keys own)
                (rw (privatise-connections c.event.tid c.table d) r)))
  ]

-- A system call of any name keeps the descriptors sound, and leaves a socket state that exists: the
-- tables in use were allocated, every descriptor holds a connection that exists, and the numbers of
-- the next table and the next connection are free.
pub touch-IsSoundTouch :
    (setup : Setup) (s : Syscall) (c : Call) (d : Descriptors)
    → IsSound d
    → IsSoundCall c d
    → IsSoundTouch (touch setup s c d)
unfolding touch
touch-IsSoundTouch setup Syscall.socket c d h ok =
    elim (Option-cases (nonnegative c.event.return_value)) [
      | inl p ↦ rw (p, touch) (untouched-IsSoundTouch setup c d h ok)
      | inr (fd, p) ↦
          rw (p, touch)
            (open_socket-IsSoundTouch setup c d h ok fd (has_word c.event "SOCK_CLOEXEC"))
    ]
touch-IsSoundTouch setup Syscall.accept c d h ok = accept_socket-IsSoundTouch setup c d h ok false
touch-IsSoundTouch setup Syscall.accept4 c d h ok =
    accept_socket-IsSoundTouch setup c d h ok (has_word c.event "SOCK_CLOEXEC")
touch-IsSoundTouch setup Syscall.connect c d h ok = connect_socket-IsSoundTouch setup c d h ok
touch-IsSoundTouch setup Syscall.dup c d h ok = dup_call-IsSoundTouch setup c d h ok false false
touch-IsSoundTouch setup Syscall.dup2 c d h ok = dup_call-IsSoundTouch setup c d h ok true false
touch-IsSoundTouch setup Syscall.dup3 c d h ok =
    dup_call-IsSoundTouch setup c d h ok true (has_word c.event "O_CLOEXEC")
touch-IsSoundTouch setup Syscall.fcntl c d h ok = fcntl_call-IsSoundTouch setup c d h ok
touch-IsSoundTouch setup Syscall.close_range c d h ok = close_range_call-IsSoundTouch setup c d h ok
touch-IsSoundTouch setup Syscall.clone c d h ok = clone_call-IsSoundTouch setup c d h ok
touch-IsSoundTouch setup Syscall.clone3 c d h ok = clone_call-IsSoundTouch setup c d h ok
touch-IsSoundTouch setup Syscall.fork c d h ok = clone_call-IsSoundTouch setup c d h ok
touch-IsSoundTouch setup Syscall.vfork c d h ok = clone_call-IsSoundTouch setup c d h ok
touch-IsSoundTouch setup Syscall.unshare c d h ok = unshare_call-IsSoundTouch setup c d h ok
touch-IsSoundTouch setup Syscall.execve c d h ok = exec_call-IsSoundTouch setup c d h ok
touch-IsSoundTouch setup Syscall.execveat c d h ok = exec_call-IsSoundTouch setup c d h ok
touch-IsSoundTouch setup s c d h ok = untouched-IsSoundTouch setup c d h ok
