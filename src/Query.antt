-- ===== src/Query.antt =====
-- `evidence_chain` of experiments/mcp/query.py: the part of a published graph that explains selected
-- system calls, or a request. Ids are texts, as the published graph has them.
pub mod Closure
pub mod Chain
use causpan.Prelude.{
  ℕ, zero, suc, ◌+◌, String, Option, none, some, List, [], ◌∷◌, ◌++◌, Bool, true, false, ◌&&◌, ◌||◌,
  not, ◌==◌, string_eq, any, keep, map, length, member, add, union, if◌then◌else◌,
}
use causpan.Attribution.Types.{RpcId}
use causpan.Attribution.Run.{same_rpc}

-- A line of provenance.jsonl, with the fields that the query reads: a node with its id, its kind,
-- its request id and the source of its system call, or an edge.
pub data Record : Type 0 where
  node : String → String → Option RpcId → Record
  edge : String → String → String → Record

-- one round of a `while changed` loop: the set, and whether it changed
module _ (ends : Record → Option (String × String)) where
  unfoldable pub pass : List Record → List String → List String × Bool
  unfolding member add
  pass [] wanted = (wanted, false)
  pass (r ∷ rs) wanted = elim (ends r) [
    | none ↦ pass rs wanted
    | some (from, to) ↦
        let kept = pass rs wanted in
        let grown = pass rs (add to wanted) in
        if member from wanted && not (member to wanted) then (grown.0, true) else kept
  ]

  -- the loop, on fuel
  unfoldable pub repeat : ℕ → List Record → List String → List String
  unfolding pass
  repeat zero graph wanted = wanted
  repeat (suc n) graph wanted =
      let next = pass graph wanted in
      let rest = repeat n graph next.0 in if next.1 then rest else next.0

  -- each round but the last adds the end of an edge, so a round for each record and one more suffice
  unfoldable pub close : List Record → List String → List String
  unfolding repeat
  close graph wanted = repeat (suc (length graph)) graph wanted

abbrev pub native_kinds : List String
native_kinds =
    "prepared_as" ∷ "observed_queue_episode" ∷ "poll_prepared" ∷ "observed_update_while_queued"
    ∷ "canceled_before_poll" ∷ "triggered_retry" ∷ []

abbrev pub causal_kinds : List String
causal_kinds =
    "ring_memory_observed" ∷ "ring_snapshot_written" ∷ "ring_resource_observed" ∷ "ring_submitted"
    ∷ "ring_submission_observed" ∷ "ring_completion_observed" ∷ "descriptor_sent"
    ∷ "descriptor_received" ∷ "cancelled_before_execution" ∷ "ipc_sent" ∷ "submitted" ∷ "executed"
    ∷ "spawned" ∷ "joined" ∷ "created_task" ∷ "polled" ∷ "connected" ∷ "socket_effect" ∷ "accepted"
    ∷ "accepted_connection" ∷ native_kinds

abbrev pub handoff_kinds : List String
handoff_kinds =
    "ring_submitted" ∷ "ring_submission_observed" ∷ "ring_completion_observed" ∷ "descriptor_sent"
    ∷ "descriptor_received" ∷ native_kinds

abbrev pub descendant_kinds : List String
descendant_kinds = "joined" ∷ "ipc_sent" ∷ "cancelled_before_execution" ∷ []

-- the ends of an edge of these kinds, from its source to its target
unfoldable pub forward : List String → Record → Option (String × String)
unfolding member
forward kinds (Record.node id kind rpc) = none
forward kinds (Record.edge source target kind) =
    if member kind kinds then some (source, target) else none

-- and from its target to its source
unfoldable pub backward : List String → Record → Option (String × String)
unfolding member
backward kinds (Record.node id kind rpc) = none
backward kinds (Record.edge source target kind) =
    if member kind kinds then some (target, source) else none

-- the ids of the nodes that a test selects
unfoldable pub ids_where : (String → String → Option RpcId → Bool) → List Record → List String
ids_where test [] = []
ids_where test (Record.node id kind rpc ∷ rs) =
    let rest = ids_where test rs in if test id kind rpc then id ∷ rest else rest
ids_where test (Record.edge source target kind ∷ rs) = ids_where test rs

-- the nodes of the request and their descendants, where one is asked for
unfoldable pub request_ids : List Record → Option RpcId → List String
unfolding ids_where close forward
request_ids graph none = []
request_ids graph (some request) = close (forward descendant_kinds) graph (
    ids_where
      (λ id kind rpc. (kind == "mcp_request" || kind == "request") && same_rpc rpc (some request))
      graph)

-- The nodes that the chain starts at. `is_selected` tells of a node id whether it ends with the
-- source of a selected system call, and the operations are ids.
unfoldable pub wanted_ids : List Record → (String → Bool) → Option RpcId → List String → List String
unfolding ids_where request_ids union
wanted_ids graph is_selected request operations =
    union (union (ids_where (λ id kind rpc. kind == "syscall" && is_selected id) graph) operations)
      (request_ids graph request)

-- with what was handed over, and everything that leads there
unfoldable pub ancestors : List Record → (String → Bool) → Option RpcId → List String → List String
unfolding wanted_ids close forward backward
ancestors graph is_selected request operations =
    close (backward causal_kinds) graph
      (close (forward handoff_kinds) graph (wanted_ids graph is_selected request operations))

unfoldable pub is_evidence : List String → Record → Bool
unfolding member
is_evidence found (Record.node id kind rpc) = member id found
is_evidence found (Record.edge source target kind) =
    member kind causal_kinds && (member source found && member target found)

-- `evidence_chain`
unfoldable pub evidence_chain :
    List Record → (String → Bool) → Option RpcId → List String → List Record
unfolding ancestors is_evidence
evidence_chain graph is_selected request operations =
    keep (is_evidence (ancestors graph is_selected request operations)) graph
