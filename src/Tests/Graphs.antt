-- ===== src/Tests/Graphs.antt =====
-- The theorems on the graph queries and on the watcher queue, on concrete inputs.
use causpan.Prelude.{
  All, In, String, string_eq, pos, ◌≡◌, ◌↔◌, refl, none, some, List, [], ◌∷◌, Bool, true, false,
  member, get, put, remove, ◌==◌,
}
use causpan.Attribution.Types.{RpcId}
use causpan.Query.{Record, close, forward, handoff_kinds, evidence_chain}
use causpan.Query.Closure.{Reached, close-Reached}
use causpan.Query.Chain.{Explains, evidence_chain-Explains}
use causpan.Sockets
use causpan.Sockets.{Links, link_lines}
use causpan.Sockets.Spans.{closes_of, IsUnclosed}
use causpan.Sockets.Unclosed.{link_lines-IsUnclosed}
use causpan.Watcher.{Action, Item, Queue, Line, Unmatched, join}
use causpan.Watcher.Account.{IsBalanced, join-IsBalanced}

-- a request that submits to a ring, and the completion that is handed over
abbrev graph : List Record
graph =
    Record.node "r:request:1" "mcp_request" (some (RpcId.number (pos 7)))
    ∷ Record.node "r:syscall:t:1" "syscall" none
    ∷ Record.node "r:op:1" "ring_operation" none
    ∷ Record.edge "r:request:1" "r:syscall:t:1" "executed"
    ∷ Record.edge "r:syscall:t:1" "r:op:1" "ring_submitted"
    ∷ []

close-Reached_example :
    (member "r:op:1" (close (forward handoff_kinds) graph ("r:syscall:t:1" ∷ [])) ≡ true)
    ↔ Reached (forward handoff_kinds) graph ("r:syscall:t:1" ∷ []) "r:op:1"
close-Reached_example = close-Reached (forward handoff_kinds) graph ("r:syscall:t:1" ∷ []) "r:op:1"

abbrev is_first : String → Bool
is_first id = id == "r:syscall:t:1"

abbrev request_node : Record
request_node = Record.node "r:request:1" "mcp_request" (some (RpcId.number (pos 7)))

evidence_chain-Explains_example :
    In request_node (evidence_chain graph is_first none [])
    ↔ (In request_node graph × Explains graph is_first none [] request_node)
evidence_chain-Explains_example = evidence_chain-Explains graph is_first none [] request_node

-- every record of that graph is in the chain of the call
chain_whole : evidence_chain graph is_first none [] ≡ graph
unfolding evidence_chain
chain_whole = refl

-- one watcher that is inserted and removed, and one that is removed only
abbrev lines : List Line
lines =
    Line.thread 9
    ∷ Line.observation Action.enqueue (some (pos 1, pos 2, pos 5, pos 1, pos 0))
    ∷ Line.observation Action.dequeue (some (pos 1, pos 2, pos 5, pos 1, pos 1))
    ∷ Line.observation Action.dequeue (some (pos 1, pos 3, pos 6, pos 1, pos 1))
    ∷ []

abbrev first : Item
first = record {
  loop = pos 1;
  watcher = pos 2;
  fd = pos 5;
  pevents = pos 1;
  events = pos 0;
  line = 2;
  tid = 9;
  context = none;
}

abbrev second : Item
second = record {
  loop = pos 1;
  watcher = pos 2;
  fd = pos 5;
  pevents = pos 1;
  events = pos 1;
  line = 3;
  tid = 9;
  context = none;
}

abbrev third : Item
third = record {
  loop = pos 1;
  watcher = pos 3;
  fd = pos 6;
  pevents = pos 1;
  events = pos 1;
  line = 4;
  tid = 9;
  context = none;
}

abbrev joined_queue : Queue
joined_queue = record {
  contexts = [];
  tid = some 9;
  pending = [];
  updates = [];
  matches =
      record { insertion = first; removal = second; observed_updates = []; masks_unchanged = false }
      ∷ [];
  unmatched = Unmatched.no_observed_insertion third ∷ [];
  canceled = [];
  idle_stops = [];
  outside_updates = [];
}

joined : join lines ≡ some joined_queue
unfolding join get put remove
joined = refl

join-IsBalanced_example : IsBalanced (λ item. item.line) lines joined_queue
join-IsBalanced_example = join-IsBalanced (λ item. item.line) lines joined_queue joined

-- a socket that is installed, referred to, closed, and referred to again
abbrev log : List Sockets.Line
log =
    Sockets.Line.install_stop true 8 198 (pos 0)
    ∷ Sockets.Line.install_stop true 8 198 (pos 5)
    ∷ Sockets.Line.entry (some 5)
    ∷ Sockets.Line.close_stop 8 (pos 5)
    ∷ Sockets.Line.close_stop 8 (pos 0)
    ∷ Sockets.Line.entry (some 5)
    ∷ []

abbrev socket_five : Sockets.Installation
socket_five = record {
  kind = Sockets.Kind.socket;
  fd = pos 5;
  syscall = 198;
  entry_line = 1;
  return_line = 2;
  projection_rejected = false;
}

abbrev links : Links
links = record {
  installing = [];
  closing = [];
  active = [];
  references =
      record { line = 3; target_fd = 5; installation = some socket_five }
      ∷ record { line = 6; target_fd = 5; installation = none }
      ∷ [];
  installations = socket_five ∷ [];
  last_close_start = (pos 5, 4) ∷ [];
}

linked : link_lines false log ≡ some links
unfolding link_lines get put remove
linked = refl

link_lines-IsUnclosed_example : All (IsUnclosed (closes_of 1 [] log)) links.references
link_lines-IsUnclosed_example = link_lines-IsUnclosed false log links linked

-- the close of that log
closes : closes_of 1 [] log ≡ record { fd = pos 5; starts = 4; ends = 5 } ∷ []
unfolding closes_of get put remove
closes = refl
