-- ===== src/Traces.antt =====
-- `parse_traces` of experiments/mcp/analyze.py: the files of a trace, one for each thread, read into
-- events. A call that strace splits into two lines is joined again. The groups that the regular
-- expressions of the file capture, and what `descriptor_rights` says, are arguments.
pub mod Accounted
pub mod Leader
use causpan.Prelude.{
  ℕ, zero, suc, ◌+◌, ◌-◌, ◌*◌, String, string_eq, ℤ, pos, negsuc, int_eq, Option, none, some, List,
  [], ◌∷◌, ◌++◌, Dict, get, put, Bool, true, false, ◌&&◌, ◌||◌, not, ◌==◌, nat_eq, nat_beq, member,
  add, length, leb, ltb, ltb_ℤ, Text, codes, starts_with, contains, number, hex_number,
  if◌then◌else◌,
}
use causpan.Attribution.Types.{Event, Syscall, Rights, syscall_name}
use causpan.Attribution.Args.{drop_text, CloneFlag, clone_has_flag}

-- the groups of CALL: name, arguments, return value and tail; the name is that of a system call
pub record Groups : Type 0 where
  pub name : Syscall
  pub args : Text
  pub ret : Text
  pub tail : Text

-- What the regular expressions of the file match: a line with its time in nanoseconds, an exit, a
-- call, the elapsed time at the end of a tail, the annotation of the first descriptor, the quoted
-- arguments; and the name of a line, as `file.name:line_no`.
pub record Matchers : Type 0 where
  pub line : Text → Option (ℕ × Text)
  pub is_exit : Text → Bool
  pub call : Text → Option Groups
  pub duration : Text → Option ℕ
  pub annotation : Text → Option String
  pub quoted : Text → List String
  pub rights : Syscall → Text → Option ℤ → Option Rights
  pub source : ℕ → ℕ → String

-- `quality`
pub record Quality : Type 0 where
  pub non_timestamp_lines : ℕ
  pub unfinished : ℕ
  pub orphan_resumed : ℕ
  pub rejoined : ℕ
  pub terminal_interrupted : ℕ
  pub lifecycle_lines : ℕ
  pub unparsed : ℕ
  pub incomplete_at_eof : ℕ

-- a call that is not finished: its time, the text before the mark, and its line
pub record Pending : Type 0 where
  pub ns : ℕ
  pub prefix : Text
  pub line_no : ℕ

-- the locals of the loops
pub record Reading : Type 0 where
  pub events : List Event
  pub quality : Quality
  pub pending : Option Pending

abbrev pub fd_ops : List String
fd_ops =
    "read" ∷ "write" ∷ "readv" ∷ "writev" ∷ "pread64" ∷ "pwrite64" ∷ "close" ∷ "fstat" ∷ "fchmod"
    ∷ "fchown" ∷ "ftruncate" ∷ "fsync" ∷ "fdatasync" ∷ "getdents64" ∷ "fcntl" ∷ "dup" ∷ "dup2"
    ∷ "dup3" ∷ "recvfrom" ∷ "recvmsg" ∷ "sendto" ∷ "sendmsg" ∷ []

abbrev pub path_ops : List String
path_ops =
    "openat" ∷ "open" ∷ "stat" ∷ "lstat" ∷ "newfstatat" ∷ "statx" ∷ "access" ∷ "faccessat"
    ∷ "faccessat2" ∷ "chmod" ∷ "fchmodat" ∷ "fchownat" ∷ "mkdir" ∷ "mkdirat" ∷ "rmdir" ∷ "link"
    ∷ "linkat" ∷ "symlink" ∷ "symlinkat" ∷ "utimensat" ∷ "readlink" ∷ "readlinkat" ∷ "rename"
    ∷ "renameat" ∷ "renameat2" ∷ "unlink" ∷ "unlinkat" ∷ []

-- `text.split(mark)[0]`
unfoldable pub text_before : Text → Text → Text
unfolding starts_with
text_before mark [] = []
text_before mark (c ∷ t) =
    let rest = text_before mark t in if starts_with mark (c ∷ t) then [] else c ∷ rest

-- `text.split(mark,1)[1]`; `none` is the IndexError
unfoldable pub text_after : Text → Text → Option Text
unfolding starts_with drop_text
text_after mark [] = none
text_after mark (c ∷ t) =
    let rest = text_after mark t in
    if starts_with mark (c ∷ t) then some (drop_text mark (c ∷ t)) else rest

-- the number of `ret`, as CALL captures it: `?`, hexadecimal, or decimal with a sign
unfoldable pub return_of : Text → Option ℤ
unfolding starts_with number hex_number
return_of [] = none
return_of (c ∷ t) =
    if nat_beq c b'?'
    then none
    else if starts_with (codes "0x") (c ∷ t)
    then elim (hex_number (drop_text (codes "0x") (c ∷ t))) [
      | none ↦ none
      | some (n, _) ↦ some (pos n)
    ]
    else if nat_beq c b'-'
    then elim (number t) [ none ↦ none | some (n, _) ↦ some (minus n) ]
    else elim (number (c ∷ t)) [ none ↦ none | some (n, _) ↦ some (pos n) ]
  where
    minus : ℕ → ℤ
    minus zero = pos 0
    minus (suc n) = negsuc n

-- `ret == '?'`
unfoldable pub is_unknown : Text → Bool
is_unknown [] = false
is_unknown (c ∷ t) = elim t [ [] ↦ nat_beq c b'?' | _ ∷ _ ↦ false ]

abbrev pub option_list : Option String → List String
option_list none = []
option_list (some s) = s ∷ []

module _ (match : Matchers) where
  unfoldable pub paths_of : Groups → List String
  unfolding member
  paths_of g =
      if member (syscall_name g.name) fd_ops
      then option_list (match.annotation g.args)
      else if member (syscall_name g.name) path_ops
      then match.quoted g.args
      else []

  -- the event of a call, whose process is not known yet
  unfoldable pub event_of : ℕ → ℕ → ℕ → Groups → Event
  unfolding paths_of return_of is_unknown
  event_of tid ns line_no g =
      let elapsed = match.duration g.tail in
      record {
        source = match.source tid line_no;
        pid = tid;
        tid = tid;
        syscall = g.name;
        args = g.args;
        return_value = return_of g.ret;
        paths = paths_of g;
        timestamp_ns = ns;
        duration_ns = elapsed;
        completion_ns = elim elapsed [
          | none ↦ none
          | some d ↦ if is_unknown g.ret then none else some (ns + d)
        ];
        descriptor_rights = match.rights g.name g.args (return_of g.ret);
      }

  -- `body.startswith(('+++', '---'))` or an exit
  unfoldable pub is_lifecycle_line : Text → Bool
  unfolding starts_with
  is_lifecycle_line body =
      starts_with (codes "+++") body || (starts_with (codes "---") body || match.is_exit body)

  unfoldable pub ends_thread : Text → Bool
  unfolding starts_with
  ends_thread body =
      starts_with (codes "+++ exited with") body || starts_with (codes "+++ killed by") body

  -- what a thread was in when it ended
  unfoldable pub interrupt : Text → Reading → Reading
  unfolding ends_thread
  interrupt body r = elim r.pending [
    | none ↦ r
    | some _ ↦
        let q = r.quality in
        if ends_thread body
        then record r {
          pending = none;
          quality = record q { terminal_interrupted = q.terminal_interrupted + 1 };
        }
        else r
  ]

  -- the rest of the body of the loop, on a whole line
  unfoldable pub read_body : ℕ → ℕ → ℕ → Text → Reading → Reading
  unfolding is_lifecycle_line interrupt event_of
  read_body tid ns line_no body r =
      if is_lifecycle_line body
      then (let s = interrupt body r in
          let q = s.quality in
          record s { quality = record q { lifecycle_lines = q.lifecycle_lines + 1 } })
      else elim (match.call body) [
        | none ↦ let q = r.quality in record r { quality = record q { unparsed = q.unparsed + 1 } }
        | some g ↦ record r { events = r.events ++ event_of tid ns line_no g ∷ [] }
      ]

  -- a line that resumes a call
  unfoldable pub resume : ℕ → Text → Reading → Option Reading
  unfolding text_after read_body
  resume tid body r =
      let q = r.quality in
      elim r.pending [
        | none ↦ some (record r { quality = record q { orphan_resumed = q.orphan_resumed + 1 } })
        | some p ↦ elim (text_after (codes " resumed>") body) [
          | none ↦ none
          | some rest ↦ some (
              read_body tid p.ns p.line_no (p.prefix ++ rest)
                (record r { pending = none; quality = record q { rejoined = q.rejoined + 1 } }))
        ]
      ]

  -- one line
  unfoldable pub read_line : ℕ → ℕ → Text → Reading → Option Reading
  unfolding contains text_before starts_with resume read_body
  read_line tid line_no raw r =
      let q = r.quality in
      elim (match.line raw) [
        | none ↦
            some
              (record r { quality = record q { non_timestamp_lines = q.non_timestamp_lines + 1 } })
        | some (ns, body) ↦
            if contains (codes "<unfinished ...>") body
            then some (record r {
              pending = some (record {
                ns = ns;
                prefix = text_before (codes "<unfinished ...>") body;
                line_no = line_no;
              });
              quality = record q { unfinished = q.unfinished + 1 };
            })
            else if starts_with (codes "<... ") body
            then resume tid body r
            else some (read_body tid ns line_no body r)
      ]

  unfoldable pub read_lines : ℕ → ℕ → List Text → Reading → Option Reading
  unfolding read_line
  read_lines tid line_no [] r = some r
  read_lines tid line_no (raw ∷ lines) r = elim (read_line tid line_no raw r) [
    | none ↦ none
    | some next ↦ read_lines tid (line_no + 1) lines next
  ]

  -- `if pending: quality['incomplete_at_eof'] += 1`
  unfoldable pub end_file : Reading → Reading
  end_file r = elim r.pending [
    | none ↦ r
    | some _ ↦
        let q = r.quality in
        record r { quality = record q { incomplete_at_eof = q.incomplete_at_eof + 1 } }
  ]

  -- the files, each with the thread that its suffix names
  unfoldable pub read_files : List (ℕ × List Text) → Reading → Option Reading
  unfolding read_lines end_file
  read_files [] r = some r
  read_files ((tid, lines) ∷ files) r =
      elim (read_lines tid 1 lines (record r { pending = none })) [
        | none ↦ none
        | some next ↦ read_files files (end_file next)
      ]

abbrev pub nothing_read : Reading
nothing_read = record {
  events = [];
  quality = record {
    non_timestamp_lines = 0;
    unfinished = 0;
    orphan_resumed = 0;
    rejoined = 0;
    terminal_interrupted = 0;
    lifecycle_lines = 0;
    unparsed = 0;
    incomplete_at_eof = 0;
  };
  pending = none;
}

-- `events.sort(key=...)`, which keeps the order of equal times
unfoldable pub insert_event : Event → List Event → List Event
insert_event e [] = e ∷ []
insert_event e (x ∷ es) =
    let rest = insert_event e es in
    if leb e.timestamp_ns x.timestamp_ns then e ∷ x ∷ es else x ∷ rest

unfoldable pub sort_events : List Event → List Event
unfolding insert_event
sort_events [] = []
sort_events (e ∷ es) = insert_event e (sort_events es)

-- `parents`: who made a task, and whether as a thread
abbrev pub Parents : Type 0
Parents = Dict ℤ (ℕ × Bool)

unfoldable pub parents_from : List Event → Parents → Parents
unfolding put clone_has_flag
parents_from [] parents = parents
parents_from (e ∷ es) parents =
    let is_clone = syscall_name e.syscall == "clone" || syscall_name e.syscall == "clone3" in
    let child : ℤ = elim e.return_value [ none ↦ pos 0 | some n ↦ n ] in
    parents_from es (
      if is_clone && ltb_ℤ (pos 0) child
      then put child (e.tid, clone_has_flag e.args CloneFlag.thread) parents
      else parents)

-- the task that made this one as a thread
unfoldable pub thread_parent : Parents → ℕ → Option ℕ
unfolding get
thread_parent parents tid = elim (get (pos tid) parents) [
  | none ↦ none
  | some (parent, is_thread) ↦ if is_thread then some parent else none
]

-- the loop of `tgid`, on fuel: a step for each known task and one more, since no task is passed twice
unfoldable pub leader : ℕ → Parents → ℕ → List ℕ → Option ℕ
unfolding thread_parent member add
leader zero parents tid seen = none
leader (suc n) parents tid seen = elim (thread_parent parents tid) [
  | none ↦ some tid
  | some parent ↦
      let rest = leader n parents parent (add tid seen) in
      if member tid seen then some tid else rest
]

unfoldable pub tgid : Parents → ℕ → Option ℕ
unfolding leader
tgid parents tid = leader (suc (length parents)) parents tid []

unfoldable pub with_pids : Parents → List Event → Option (List Event)
unfolding tgid
with_pids parents [] = some []
with_pids parents (e ∷ es) = elim (tgid parents e.tid) [
  | none ↦ none
  | some pid ↦ elim (with_pids parents es) [
    | none ↦ none
    | some rest ↦ some (record e { pid = pid } ∷ rest)
  ]
]

-- `parse_traces`: the events and the quality
unfoldable pub parse_traces : Matchers → List (ℕ × List Text) → Option (List Event × Quality)
unfolding read_files sort_events parents_from with_pids
parse_traces match files = elim (read_files match files nothing_read) [
  | none ↦ none
  | some r ↦
      let sorted_events = sort_events r.events in
      elim (with_pids (parents_from sorted_events []) sorted_events) [
        | none ↦ none
        | some events ↦ some (events, r.quality)
      ]
]
