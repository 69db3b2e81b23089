-- ===== src/Tests/Files.antt =====
-- The theorems on the trace parser, on concrete inputs: a call that is split into two lines, the exit
-- of its thread, and a thread that another one made.
use causpan.Prelude.{
  ℕ, ◌≡◌, refl, ◌⊎◌, pos, int_eq, string_eq, none, some, List, [], ◌∷◌, true, false, Text, codes,
  starts_with, get, add, member, if◌then◌else◌,
}
use causpan.Attribution.Types.{Event, Syscall}
use causpan.Traces.{
  Matchers, Groups, Quality, Reading, Parents, parse_traces, read_files, nothing_read,
  thread_parent, tgid,
}
use causpan.Traces.Accounted.{Accounted, parse_traces-Accounted}
use causpan.Traces.Leader.{Leads, IsCircular, tgid-Leads, parse_traces-total}

abbrev groups : Groups
groups = record {
  name = Syscall.other "fsync";
  args = codes "3</s/a>";
  ret = codes "0";
  tail = codes " <0.1>";
}

-- a matching for the lines below
abbrev matchers : Matchers
matchers = record {
  line = λ t. if starts_with (codes "#") t then none else some (7, t);
  is_exit = λ t. starts_with (codes "exit") t;
  call = λ t. if starts_with (codes "fsync") t then some groups else none;
  duration = λ t. some 5;
  annotation = λ t. some "/s/a";
  quoted = λ t. [];
  rights = λ name args result. none;
  source = λ tid line. "strace.9:1";
}

abbrev files : List (ℕ × List Text)
files =
    (
      9,
      codes "fsync(3</s/a> <unfinished ...>"
          ∷ codes "<... fsync resumed>) = 0 <0.1>"
          ∷ codes "#"
          ∷ codes "+++ exited with 0 +++"
          ∷ [],
    )
    ∷ []

abbrev parsed : Event
parsed = record {
  source = "strace.9:1";
  pid = 9;
  tid = 9;
  syscall = Syscall.other "fsync";
  args = codes "3</s/a>";
  return_value = some (pos 0);
  paths = "/s/a" ∷ [];
  timestamp_ns = 7;
  duration_ns = some 5;
  completion_ns = some 12;
  descriptor_rights = none;
}

abbrev quality : Quality
quality = record {
  non_timestamp_lines = 1;
  unfinished = 1;
  orphan_resumed = 0;
  rejoined = 1;
  terminal_interrupted = 0;
  lifecycle_lines = 1;
  unparsed = 0;
  incomplete_at_eof = 0;
}

parses : parse_traces matchers files ≡ some (parsed ∷ [], quality)
unfolding parse_traces get member
parses = refl

parse_traces-Accounted_example : Accounted files (parsed ∷ []) quality
parse_traces-Accounted_example = parse_traces-Accounted matchers files (parsed ∷ []) quality parses

abbrev reading : Reading
reading = record { events = parsed ∷ []; quality = quality; pending = none }

reads : read_files matchers files nothing_read ≡ some reading
unfolding read_files member
reads = refl

parse_traces-total_example :
    (out : List Event) × (parse_traces matchers files ≡ some (out, quality))
parse_traces-total_example = parse_traces-total matchers files reading reads

-- 12 is a thread of 11, which is a child process of 9
abbrev parents : Parents
parents = (pos 11, (9, false)) ∷ (pos 12, (11, true)) ∷ []

leads : tgid parents 12 ≡ some 11
unfolding tgid get add member
leads = refl

tgid-Leads_example :
    (t : ℕ) × (tgid parents 12 ≡ some t)
    × Leads parents 12 t
    × ((thread_parent parents t ≡ none) ⊎ IsCircular parents t)
tgid-Leads_example = tgid-Leads parents 12
