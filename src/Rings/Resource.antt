-- ===== src/Rings/Resource.antt =====
-- The checks of ring_observations.py on the traced calls of a helper: `observed_file_resource`,
-- `validate_waiting_enter` and `validate_scoped_ring`. Their regular expressions are read by hand:
-- each has one way to match, since what follows a run of digits is no digit.
use causpan.Prelude.{
  ℕ, String, string_eq, ℤ, pos, leb_ℤ, ltb_ℤ, int_eq, Option, none, some, List, [], ◌∷◌, Bool, true,
  false, ◌&&◌, ◌||◌, not, ◌==◌, nat_eq, leb, ltb, nat_beq, member, any, Text, codes, starts_with,
  contains, skip_spaces, number, Result, ok, err, ◌>>◌, guard, if◌then◌else◌,
}
use causpan.Attribution.Types.{Event, syscall_name}
use causpan.Attribution.Args.{number_pair, drop_text}

-- `resource_status`, with the event that resolves the descriptor
pub data Resource : Type 0 where
  invalid_descriptor unresolved_descriptor : Resource
  observed_absolute_open : Event → Resource

abbrev pub replacing_when_unknown : List String
replacing_when_unknown =
    "open" ∷ "openat" ∷ "openat2" ∷ "socket" ∷ "accept" ∷ "accept4" ∷ "dup" ∷ "dup2" ∷ "dup3"
    ∷ "fcntl" ∷ "io_uring_setup" ∷ "close_range" ∷ "execve" ∷ "execveat" ∷ "unshare" ∷ "recvmsg"
    ∷ "recvmmsg" ∷ "socketpair" ∷ "pipe" ∷ "pipe2" ∷ []

abbrev pub returning_descriptor : List String
returning_descriptor =
    "open" ∷ "openat" ∷ "openat2" ∷ "socket" ∷ "accept" ∷ "accept4" ∷ "dup" ∷ "dup2" ∷ "dup3"
    ∷ "io_uring_setup" ∷ []

abbrev pub opening : List String
opening = "open" ∷ "openat" ∷ "openat2" ∷ []

abbrev pub replacing_all : List String
replacing_all = "execve" ∷ "execveat" ∷ "unshare" ∷ []

abbrev pub installing_more : List String
installing_more = "recvmsg" ∷ "recvmmsg" ∷ "socketpair" ∷ "pipe" ∷ "pipe2" ∷ []

module _ (pid : ℕ) (fd : ℤ) (before_ns : ℕ) where
  -- the events that the loop does not pass over
  abbrev pub concerns : Event → Bool
  concerns e = e.pid == pid && ltb e.timestamp_ns before_ns

  -- `name == 'close' and first_fd == fd`
  unfoldable pub closes : Event → Bool
  unfolding skip_spaces number
  closes e =
      syscall_name e.syscall == "close"
      && elim (number (skip_spaces e.args)) [ none ↦ false | some (n, _) ↦ pos n == fd ]

  -- `replacement`, of a call that returned a number
  unfoldable pub replaces : Event → ℤ → Bool
  unfolding member contains
  replaces e result =
      (member (syscall_name e.syscall) returning_descriptor && result == fd)
      || (syscall_name e.syscall == "fcntl" && (contains (codes "F_DUPFD") e.args && result == fd))

  -- an open of one absolute path that completed in time
  unfoldable pub resolves : Event → Bool
  unfolding member starts_with
  resolves e =
      member (syscall_name e.syscall) opening
      && (elim e.paths [
        | [] ↦ false
        | path ∷ more ↦ elim more [ [] ↦ starts_with (codes "/") (codes path) | _ ∷ _ ↦ false ]
      ]
          && elim e.completion_ns [ none ↦ false | some done ↦ leb done before_ns ])

  -- a `close_range` over the descriptor, or with bounds that are no literals
  unfoldable pub closes_range : Event → Bool
  unfolding number_pair
  closes_range e = syscall_name e.syscall == "close_range" && elim (number_pair e.args) [
    | none ↦ true
    | some (first, last, _) ↦ leb_ℤ (pos first) fd && leb_ℤ fd (pos last)
  ]

  -- the part of the body after a call has returned a number
  unfoldable pub after_return : Event → ℤ → Option Event → Option Event
  unfolding replaces resolves closes closes_range member
  after_return e result current =
      let replaced = if replaces e result then (if resolves e then some e else none) else current in
      let closed = if closes e then none else replaced in
      let ranged = if closes_range e then none else closed in
      let executed = if member (syscall_name e.syscall) replacing_all then none else ranged in
      if member (syscall_name e.syscall) installing_more then none else executed

  -- one round of the loop
  unfoldable pub track : Event → Option Event → Option Event
  unfolding closes member after_return
  track e current =
      if concerns e
      then (let closed = if closes e then none else current in
          elim e.return_value [
            | none ↦ if member (syscall_name e.syscall) replacing_when_unknown then none else closed
            | some result ↦ if leb_ℤ (pos 0) result then after_return e result closed else closed
          ])
      else current

  unfoldable pub track_all : List Event → Option Event → Option Event
  unfolding track
  track_all [] current = current
  track_all (e ∷ es) current = track_all es (track e current)

  unfoldable pub observed_file_resource : List Event → Resource
  unfolding track_all
  observed_file_resource events =
      if ltb_ℤ fd (pos 0) then Resource.invalid_descriptor else elim (track_all events none) [
        | none ↦ Resource.unresolved_descriptor
        | some e ↦ Resource.observed_absolute_open e
      ]

-- what `raise ValueError` says
pub data Refusal : Type 0 where
  no_full_waiting_batch unsupported_setup_flags changed_scope : Refusal

-- `(?:<[^>]*>)?` after the digits
unfoldable pub skip_annotation : Text → Text
skip_annotation [] = []
skip_annotation (c ∷ t) = let rest = skip_annotation t in if nat_beq c b'>' then t else rest

-- a literal part of a pattern
unfoldable pub literal : Text → Text → Option Text
unfolding starts_with drop_text
literal p t = if starts_with p t then some (drop_text p t) else none

unfoldable pub same_text : Text → Text → Bool
same_text [] [] = true
same_text [] (_ ∷ _) = false
same_text (_ ∷ _) [] = false
same_text (c ∷ s) (d ∷ t) = nat_beq c d && same_text s t

-- `(?:IORING_ENTER_GETEVENTS|1|0x1), NULL, 0` up to the end
unfoldable pub is_waiting : Text → Bool
unfolding same_text
is_waiting t =
    same_text t (codes "IORING_ENTER_GETEVENTS, NULL, 0")
    || (same_text t (codes "1, NULL, 0") || same_text t (codes "0x1, NULL, 0"))

unfoldable pub after_descriptor : Text → Text
unfolding skip_annotation
after_descriptor [] = []
after_descriptor (c ∷ t) = let rest = skip_annotation t in if nat_beq c b'<' then rest else c ∷ t

-- the groups of the pattern: the descriptor, and the two counts
unfoldable pub enter_groups : Text → Option (ℕ × ℕ × ℕ)
unfolding number after_descriptor literal is_waiting
enter_groups args = elim (number args) [
  | none ↦ none
  | some (fd, r) ↦ elim (literal (codes ", ") (after_descriptor r)) [
    | none ↦ none
    | some s ↦ elim (number s) [
      | none ↦ none
      | some (submitted, t) ↦ elim (literal (codes ", ") t) [
        | none ↦ none
        | some u ↦ elim (number u) [
          | none ↦ none
          | some (awaited, v) ↦ elim (literal (codes ", ") v) [
            | none ↦ none
            | some w ↦ if is_waiting w then some (fd, submitted, awaited) else none
          ]
        ]
      ]
    ]
  ]
]

unfoldable pub validate_waiting_enter : Event → ℤ → Result Refusal ℕ
unfolding enter_groups
validate_waiting_enter e operation_count = elim (enter_groups e.args) [
  | none ↦ err Refusal.no_full_waiting_batch
  | some (fd, submitted, awaited) ↦
      if leb_ℤ (pos 1) operation_count
        && (pos submitted == operation_count
            && (pos awaited == operation_count
                && elim e.return_value [ none ↦ false | some n ↦ n == operation_count ]))
      then ok fd
      else err Refusal.no_full_waiting_batch
]

-- `re.match(r'\d+, \{flags=(?:0|0x0)(?:,|\})', args)`
unfoldable pub has_plain_flags : Text → Bool
unfolding number literal starts_with
has_plain_flags args = elim (number args) [
  | none ↦ false
  | some (_, r) ↦ elim (literal (codes ", {flags=") r) [
    | none ↦ false
    | some s ↦
        any (λ p. starts_with p s) (codes "0," ∷ codes "0}" ∷ codes "0x0," ∷ codes "0x0}" ∷ [])
  ]
]

abbrev pub scope_changing : List String
scope_changing = "clone" ∷ "clone3" ∷ "fork" ∷ "vfork" ∷ "io_uring_register" ∷ []

unfoldable pub changes_scope : Event → Bool
unfolding member
changes_scope e =
    member (syscall_name e.syscall) scope_changing
    && elim e.return_value [ none ↦ true | some result ↦ leb_ℤ (pos 0) result ]

unfoldable pub check_scope : List Event → Result Refusal (Unit {0})
unfolding changes_scope
check_scope [] = ok tt
check_scope (e ∷ es) = do guard (not (changes_scope e)) Refusal.changed_scope; check_scope es

unfoldable pub validate_scoped_ring : Event → List Event → Result Refusal (Unit {0})
unfolding has_plain_flags check_scope
validate_scoped_ring setup local = do
  guard (has_plain_flags setup.args) Refusal.unsupported_setup_flags
  check_scope local
