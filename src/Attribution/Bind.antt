-- ===== src/Attribution/Bind.antt =====
-- `_bind_socket_reads` of attribute.py: reads outside any request are bound once the owners of
-- their connection are all known.
use causpan.Prelude.{
  ℕ, ◌+◌, Option, none, some, List, [], ◌∷◌, Dict, get, Bool, true, false, ◌&&◌, ◌||◌, not, ◌==◌,
  nat_eq, sorted, if◌then◌else◌,
}
use causpan.Attribution.Types.{Connection, Evidence, Origin, RpcId, Attribution, Row, Setup}
use causpan.Attribution.Rows.{is_read, rpc_ids}

abbrev pub is_lifecycle : Origin → Bool
is_lifecycle Origin.socket_lifecycle = true
is_lifecycle _ = false

abbrev pub is_open : Attribution → Bool
is_open Attribution.no_request_context = true
is_open Attribution.unknown = true
is_open Attribution.ambiguous_resource = true
is_open _ = false

-- `row['context']` as a truth value
abbrev pub has_context : Row → Bool
has_context row = elim row.context [ none ↦ false | some c ↦ not (c == 0) ]

-- the rows that the loop does not skip by their own fields
unfoldable pub is_bindable : Row → Bool
is_bindable row =
    is_read row.event.syscall
    && ((is_lifecycle row.origin || not (has_context row))
        && (is_open row.attribution || is_lifecycle row.origin))

-- the row of a read on a connection of these requests, which are one or more
unfoldable pub bind_to : Connection → List ℕ → List RpcId → Row → Row
bind_to c (context ∷ []) (id ∷ []) row = record row {
  context_evidence = some (Evidence.lifecycle c.id);
  origin = Origin.socket_lifecycle;
  context = some context;
  request_ids = id ∷ [];
  request_id = some id;
  attribution = Attribution.bound;
}
bind_to c contexts ids row = record row {
  context_evidence = some (Evidence.lifecycle c.id);
  origin = Origin.socket_lifecycle;
  context = some 0;
  request_ids = [];
  request_id = none;
  candidate_request_ids = ids;
  attribution = Attribution.ambiguous_resource;
}

-- `sorted(connection['requests']) if connection else []`, with the connection
unfoldable pub owned : Dict ℕ Connection → Option ℕ → Option (Connection × List ℕ)
unfolding sorted
owned connections none = none
owned connections (some g) = elim (get g connections) [
  | none ↦ none
  | some c ↦ elim (sorted c.requests) [ [] ↦ none | x ∷ xs ↦ some (c, x ∷ xs) ]
]

-- one round of the loop: the row, and whether it was resolved; `none` is the KeyError
unfoldable pub bind_row : Setup → Dict ℕ Connection → Row → Option (Row × Bool)
unfolding is_bindable owned rpc_ids bind_to
bind_row setup connections row =
    if is_bindable row
    then elim (owned connections row.connection_id) [
      | none ↦ some (row, false)
      | some (c, contexts) ↦ elim (rpc_ids setup contexts) [
        | none ↦ none
        | some ids ↦ some (bind_to c contexts ids row, true)
      ]
    ]
    else some (row, false)

abbrev pub tally : Bool → ℕ → ℕ
tally true n = n + 1
tally false n = n

unfoldable pub bind_socket_reads : Setup → Dict ℕ Connection → List Row → Option (List Row × ℕ)
unfolding bind_row
bind_socket_reads setup connections [] = some ([], 0)
bind_socket_reads setup connections (row ∷ rows) = elim (bind_row setup connections row) [
  | none ↦ none
  | some (bound, resolved) ↦ elim (bind_socket_reads setup connections rows) [
    | none ↦ none
    | some (rest, n) ↦ some (bound ∷ rest, tally resolved n)
  ]
]
