-- ===== src/Attribution/Mapping.antt =====
-- `unique_json_object` and `load_request_mapping` of attribute.py: the request map. `json.loads` and
-- the split of the file into lines are the library's, so a line is the pairs of an object, or
-- `none` for a line that is no object.
pub mod Load
use causpan.Prelude.{
  ℕ, ◌^◌, ℤ, pos, negsuc, String, Option, none, some, List, [], ◌∷◌, ◌++◌, Dict, get, put, has,
  Bool, true, false, ◌&&◌, ◌||◌, not, ◌==◌, nat_eq, string_eq, ltb, Json, Items, Fields, fields,
  all, items, member, add, if◌then◌else◌,
}
use causpan.Attribution.Types.{RpcId, MapRecord}

-- one round of the loop over the pairs; `none` is the ValueError on a key that stands twice
unfoldable pub unique_from {ℓ} :
    {V : Type ℓ} → Dict String V → List (String × V) → Option (Dict String V)
unique_from result [] = some result
unique_from result ((key, value) ∷ pairs) =
    let rest = unique_from (put key value result) pairs in if has key result then none else rest

-- `unique_json_object`
unfoldable pub unique_json_object {ℓ} : {V : Type ℓ} → List (String × V) → Option (Dict String V)
unfolding unique_from
unique_json_object pairs = unique_from [] pairs

abbrev has_pairs : Option (Dict String Json) → Bool
has_pairs none = false
has_pairs (some _) = true

-- `json.loads` calls `object_pairs_hook` on every object, the nested ones too
unfoldable mutual
  unfolding unique_json_object

  is_accepted : Json → Bool
  is_accepted (Json.array xs) = are_accepted xs
  is_accepted (Json.object fs) = has_pairs (unique_json_object (fields fs)) && all_accepted fs
  is_accepted _ = true

  are_accepted : Items → Bool
  are_accepted Items.nil = true
  are_accepted (Items.cons x xs) = is_accepted x && are_accepted xs

  all_accepted : Fields → Bool
  all_accepted Fields.end = true
  all_accepted (Fields.field key value rest) = is_accepted value && all_accepted rest

-- `json.loads(line, object_pairs_hook=unique_json_object)` of an object
unfoldable pub read_object : List (String × Json) → Option (Dict String Json)
unfolding is_accepted unique_json_object
read_object pairs =
    if all (λ (pair : String × Json). is_accepted pair.1) pairs
    then unique_json_object pairs
    else none

-- `type(v) is int and v in seen`, the number
unfoldable pub seen_int : List ℕ → Json → Option ℕ
seen_int seen (Json.integer (pos n)) = if member n seen then some n else none
seen_int seen v = none

-- every parent is an int that was seen
unfoldable pub seen_parents : List ℕ → List Json → Option (List ℕ)
unfolding seen_int
seen_parents seen [] = some []
seen_parents seen (v ∷ vs) = elim (seen_int seen v) [
  | none ↦ none
  | some n ↦ elim (seen_parents seen vs) [ none ↦ none | some ns ↦ some (n ∷ ns) ]
]

-- `len(parents) == len(set(parents))`
unfoldable pub all_different : List ℕ → Bool
unfolding member
all_different [] = true
all_different (n ∷ ns) = not (member n ns) && all_different ns

-- the checks of a `join` record
unfoldable pub check_parents : List ℕ → Option Json → Option (List ℕ)
unfolding seen_parents all_different
check_parents seen (some (Json.array vs)) = elim (items vs) [
  | [] ↦ none
  | x ∷ xs ↦ elim (seen_parents seen (x ∷ xs)) [
    | none ↦ none
    | some ns ↦ if all_different ns then some ns else none
  ]
]
check_parents seen v = none

-- `record['rpc_id']`: a JSON-RPC id is a number or a text
abbrev pub rpc_id_of : Option Json → Option RpcId
rpc_id_of (some (Json.integer n)) = some (RpcId.number n)
rpc_id_of (some (Json.text s)) = some (RpcId.text s)
rpc_id_of _ = none

-- `type(context) is int and 0 < context < 2**64 and context not in seen`, the number
unfoldable pub new_context : List ℕ → Option Json → Option ℕ
new_context seen (some (Json.integer (pos n))) =
    if ltb 0 n && (ltb n (2 ^ 64) && not (member n seen)) then some n else none
new_context seen v = none

abbrev pub join_record : ℕ → Option (List ℕ) → Option MapRecord
join_record context none = none
join_record context (some parents) = some (MapRecord.join context parents)

-- the branches on `record.get('kind', 'request')`
unfoldable pub load_kind : List ℕ → Dict String Json → ℕ → Option Json → Option MapRecord
unfolding check_parents
load_kind seen record_ context none =
    some (MapRecord.request context (rpc_id_of (get "rpc_id" record_)))
load_kind seen record_ context (some (Json.text kind)) =
    if kind == "join"
    then join_record context (check_parents seen (get "parents" record_))
    else if kind == "request"
    then some (MapRecord.request context (rpc_id_of (get "rpc_id" record_)))
    else none
load_kind seen record_ context (some _) = none

unfoldable pub load_record : List ℕ → Dict String Json → Option (ℕ × MapRecord)
unfolding new_context load_kind
load_record seen record_ = elim (new_context seen (get "context" record_)) [
  | none ↦ none
  | some context ↦ elim (load_kind seen record_ context (get "kind" record_)) [
    | none ↦ none
    | some r ↦ some (context, r)
  ]
]

unfoldable pub load_line : List ℕ → Option (List (String × Json)) → Option (ℕ × MapRecord)
unfolding read_object load_record
load_line seen none = none
load_line seen (some pairs) = elim (read_object pairs) [
  | none ↦ none
  | some record_ ↦ load_record seen record_
]

-- the loop over the lines, with the contexts seen before
unfoldable pub load_from : List ℕ → List (Option (List (String × Json))) → Option (List MapRecord)
unfolding load_line
load_from seen [] = some []
load_from seen (line ∷ lines) = elim (load_line seen line) [
  | none ↦ none
  | some (context, r) ↦ elim (load_from (add context seen) lines) [
    | none ↦ none
    | some records ↦ some (r ∷ records)
  ]
]

-- `load_request_mapping`; `none` is the ValueError
unfoldable pub load_request_mapping : List (Option (List (String × Json))) → Option (List MapRecord)
unfolding load_from
load_request_mapping lines = load_from [] lines
