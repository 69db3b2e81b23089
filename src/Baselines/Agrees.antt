-- ===== src/Baselines/Agrees.antt =====
-- The calls of compare_baselines.py are those of analyze.py.
use causpan.Prelude.{
  ℕ, ◌≡◌, String, string_eq, refl, sym, ◌∙◌, inl, inr, subst, ap, Option, none, some, List, [], ◌∷◌,
  Dict, get, put, Bool, true, false, ◌==◌, member, add, member-add, Bool-cases, Option-cases,
  Result-cases, err≢ok, ok_injective, Result, ok, arith, if◌then◌else◌,
}
use causpan.Attribution.Types.{RpcId}
use causpan.Attribution.RpcIds.{rpc_eq}
use mathlib.Core.Bool.{true≢false}
use causpan.Oracle.{
  Error, Direction, Arguments, MessageId, Line, Call, Protocol, check_id, started_call, end_call,
  note_call, read_line, read_protocol, no_calls,
}
use causpan.Baselines.{CallMap, map_line, map_lines, no_call_map}

abbrev pub unanswered : Call → Call
unanswered c = record c { failed = none }

-- the calls without the key `error`
abbrev pub without_errors : Dict RpcId Call → Dict RpcId Call
without_errors [] = []
without_errors ((id, c) ∷ calls) = (id, unanswered c) ∷ without_errors calls

get-without_errors :
    (id : RpcId) (calls : Dict RpcId Call)
    → get id (without_errors calls)
      ≡ elim (get id calls) [ none ↦ none | some c ↦ some (unanswered c) ]
unfolding get
get-without_errors id [] = refl
get-without_errors id ((k, c) ∷ calls) = elim (Bool-cases (k == id)) [
  | inl p ↦ rw p refl
  | inr p ↦ rw p (get-without_errors id calls)
]

put-without_errors :
    (id : RpcId) (c : Call) (calls : Dict RpcId Call)
    → without_errors (put id c calls) ≡ put id (unanswered c) (without_errors calls)
unfolding put
put-without_errors id c [] = refl
put-without_errors id c ((k, d) ∷ calls) = elim (Bool-cases (k == id)) [
  | inl p ↦ rw p refl
  | inr p ↦ rw p (ap (λ l. (k, unanswered d) ∷ l) (put-without_errors id c calls))
]

-- The two loops agree so far, and every id that `main` has seen is one that `analyze` has.
record Agree (p : Protocol) (m : CallMap) : Type 0 where
  same_calls : m.calls ≡ without_errors p.calls
  seen_before : (id : RpcId) → member id m.seen ≡ true → member id p.seen_ids ≡ true

kept :
    (p q : Protocol) (m : CallMap)
    → ◌≡◌ {A = Result Error Protocol} (ok p) (ok q)
    → Agree p m
    → Agree q m
kept p q m e a = subst (λ r. Agree r m) (ok_injective refl e) a

module _ (p : Protocol) (m : CallMap) (a : Agree p m) (id : RpcId) where
  -- a tool call with an id that `analyze` has not seen is new to both
  new_call :
      (c : Call)
      → unanswered c ≡ c
      → member id p.seen_ids ≡ false
      → Agree
          (record { calls = put id c p.calls; seen_ids = add id p.seen_ids })
          (if member id m.seen
            then m
            else record { calls = put id c m.calls; seen = add id m.seen })
  new_call c clean fresh = elim (Bool-cases (member id m.seen)) [
    | inl q ↦ absurd (true≢false (sym (a.seen_before id q) ∙ fresh))
    | inr q ↦ rw q (record {
      same_calls =
          subst (λ (d : Call). put id d m.calls ≡ without_errors (put id c p.calls)) clean
            (subst (λ l. put id (unanswered c) l ≡ without_errors (put id c p.calls))
              (sym a.same_calls) (sym (put-without_errors id c p.calls)));
      seen_before = λ j s.
          ground (arith, member-add id j p.seen_ids, member-add id j m.seen, a.seen_before j);
    })
  ]

  -- a request that is no tool call adds its id to those that `analyze` has seen
  other_request : Agree (record p { seen_ids = add id p.seen_ids }) m
  other_request = record {
    same_calls = a.same_calls;
    seen_before = λ j s. ground (arith, member-add id j p.seen_ids, a.seen_before j);
  }

  ended :
      (line : Line)
      → Agree
          (record p { calls = end_call id line p.calls })
          (elim (get id m.calls) [
            | none ↦ m
            | some c ↦ record m { calls = put id (record c { end_ns = some line.wall_ns }) m.calls }
          ])
  unfolding end_call
  ended line = elim (Option-cases (get id p.calls)) [
    | inl q ↦
        let r : get id m.calls ≡ none =
          subst (λ l. get id l ≡ none) (sym a.same_calls)
            (get-without_errors id p.calls ∙ rw q refl) in
        rw (q, r, end_call) a
    | inr (c, q) ↦
        let r : get id m.calls ≡ some (unanswered c) =
          subst (λ l. get id l ≡ some (unanswered c)) (sym a.same_calls)
            (get-without_errors id p.calls ∙ rw q refl) in
        rw (q, r, end_call)
          (record {
            same_calls =
                subst
                  (λ l.
                    put id (record c { end_ns = some line.wall_ns; failed = none }) l
                    ≡ without_errors (
                        put id
                          (record c {
                            end_ns = some line.wall_ns;
                            failed = some line.message.failed;
                          })
                          p.calls))
                  (sym a.same_calls)
                  (sym (
                    put-without_errors id
                      (record c { end_ns = some line.wall_ns; failed = some line.message.failed })
                      p.calls));
            seen_before = a.seen_before;
          })
  ]

-- a line by its fields
abbrev line_of : Direction → MessageId → Option String → String → Arguments → Bool → ℕ → Line
line_of d i method tool arguments failed wall = record {
  direction = d;
  message = record { id = i; method = method; tool = tool; arguments = arguments; failed = failed };
  wall_ns = wall;
}

module _ (p q : Protocol) (m : CallMap) (tool : String) (arguments : Arguments) (failed : Bool)
    (wall : ℕ) where
  new_id :
      (id : RpcId) (name : String)
      → member id p.seen_ids ≡ false
      → check_id
          (line_of Direction.request (MessageId.valid id) (some name) tool arguments failed wall)
          p.seen_ids
        ≡ ok (add id p.seen_ids)
  unfolding check_id
  new_id id name s = rw (s, check_id) refl

  request_line :
      (i : MessageId) (name : String)
      → read_line (line_of Direction.request i (some name) tool arguments failed wall) p ≡ ok q
      → Agree p m
      → Agree q (map_line (line_of Direction.request i (some name) tool arguments failed wall) m)
  unfolding read_line check_id note_call map_line
  request_line MessageId.absent name h a = elim (Bool-cases (name == "tools/call")) [
    | inl t ↦ absurd (err≢ok (rw (t, read_line, check_id, note_call) at h))
    | inr t ↦ kept p q m (rw (t, read_line, check_id, note_call) at h) a
  ]
  request_line MessageId.other_type name h a = absurd (err≢ok h)
  request_line (MessageId.valid id) name h a = elim (Bool-cases (member id p.seen_ids)) [
    | inl s ↦ absurd (err≢ok (rw (s, read_line, check_id) at h))
    | inr s ↦ elim (Bool-cases (name == "tools/call")) [
      | inl t ↦
          let line =
            line_of Direction.request (MessageId.valid id) (some name) tool arguments failed wall in
          rw (t, map_line)
            (subst
              (λ r. Agree r (
                if member id m.seen then m else record {
                  calls = put id (started_call id line) m.calls;
                  seen = add id m.seen;
                }))
              (ok_injective refl (rw (new_id id name s, t, read_line, note_call) at h))
              (new_call p m a id (started_call id line) refl s))
      | inr t ↦
          rw (t, map_line)
            (kept (record p { seen_ids = add id p.seen_ids }) q m
              (rw (new_id id name s, t, read_line, note_call) at h) (other_request p m a id))
    ]
  ]

  -- a request with no method, a response, and a line of another direction
  other_line :
      (d : Direction) (i : MessageId) (method : Option String)
      → read_line (line_of d i method tool arguments failed wall) p ≡ ok q
      → Agree p m
      → Agree q (map_line (line_of d i method tool arguments failed wall) m)
  unfolding read_line check_id note_call map_line
  other_line Direction.request i (some name) h a = request_line i name h a
  other_line Direction.request MessageId.absent none h a = kept p q m h a
  other_line Direction.request MessageId.other_type none h a = kept p q m h a
  other_line Direction.request (MessageId.valid id) none h a = kept p q m h a
  other_line Direction.response MessageId.absent method h a = kept p q m h a
  other_line Direction.response MessageId.other_type method h a = kept p q m h a
  other_line Direction.response (MessageId.valid id) method h a =
      let line =
        line_of Direction.response (MessageId.valid id) method tool arguments failed wall in
      subst
        (λ r. Agree r (elim (get id m.calls) [
          | none ↦ m
          | some c ↦ record m { calls = put id (record c { end_ns = some line.wall_ns }) m.calls }
        ]))
        (ok_injective refl h) (ended p m a id line)
  other_line Direction.other MessageId.absent method h a = kept p q m h a
  other_line Direction.other MessageId.other_type method h a = kept p q m h a
  other_line Direction.other (MessageId.valid id) method h a = kept p q m h a

read_protocol-Agree :
    (lines : List Line) (p q : Protocol) (m : CallMap)
    → read_protocol lines p ≡ ok q
    → Agree p m
    → Agree q (map_lines lines m)
unfolding read_protocol map_lines
read_protocol-Agree [] p q m h a = kept p q m h a
read_protocol-Agree (line ∷ lines) p q m h a = elim (Result-cases (read_line line p)) [
  | inl (e, r) ↦ absurd (err≢ok (rw (r, read_protocol) at h))
  | inr (next, r) ↦
      read_protocol-Agree lines next q (map_line line m) (rw (r, read_protocol) at h) (
        other_line p next m line.message.tool line.message.arguments line.message.failed
          line.wall_ns line.direction line.message.id line.message.method r a)
]

-- If `analyze` accepts the ids of a protocol log, then `main` of compare_baselines.py makes the same
-- calls of it, in the same order, except that it does not note which of them failed.
pub map_lines-read_protocol :
    (lines : List Line) (p : Protocol)
    → read_protocol lines no_calls ≡ ok p
    → (map_lines lines no_call_map).calls ≡ without_errors p.calls
unfolding member
map_lines-read_protocol lines p h =
    let a =
      read_protocol-Agree lines no_calls p no_call_map h
        (record { same_calls = refl; seen_before = λ id s. s }) in
    a.same_calls
