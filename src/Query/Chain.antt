-- ===== src/Query/Chain.antt =====
-- What `evidence_chain` of query.py returns.
use causpan.Prelude.{
  In, String, ◌≡◌, sym, ◌∙◌, some, inl, inr, ◌↔◌, subst, Option, List, [], ◌∷◌, Bool, true, false,
  ◌&&◌, string_eq, keep, member, Bool-cases, arith,
}
use mathlib.Core.Bool.{true≢false}
use causpan.Attribution.Types.{RpcId}
use causpan.Query.{
  Record, close, forward, backward, causal_kinds, handoff_kinds, wanted_ids, ancestors, is_evidence,
  evidence_chain,
}
use causpan.Query.Closure.{Reached, close-Reached}

three_true : (a b c : Bool) → a && (b && c) ≡ true → (a ≡ true) × (b ≡ true) × (c ≡ true)
three_true a b c h = ground arith

all_true : (a b c : Bool) → a ≡ true → b ≡ true → c ≡ true → a && (b && c) ≡ true
all_true a b c p q r = ground arith

In-keep :
    (p : Record → Bool) (rs : List Record) (r : Record)
    → In r (keep p rs) ↔ (In r rs × (p r ≡ true))
In-keep p [] r = (λ h. absurd h, λ (h, _). h)
In-keep p (q ∷ qs) r = elim (Bool-cases (p q)) [
  | inl k ↦ rw k (
    λ i. elim i [
      | inl e ↦ (inl e, subst (λ z. p z ≡ true) e k)
      | inr j ↦ let (a, b) = (In-keep p qs r).0 j in (inr a, b)
    ],
    λ (i, h). elim i [ inl e ↦ inl e | inr j ↦ inr ((In-keep p qs r).1 (j, h)) ],
  )
  | inr k ↦ rw k (
    λ i. let (a, b) = (In-keep p qs r).0 i in (inr a, b),
    λ (i, h). elim i [
      | inl e ↦ absurd (true≢false (sym h ∙ subst (λ z. p z ≡ false) e k))
      | inr j ↦ (In-keep p qs r).1 (j, h)
    ],
  )
]

module _ (graph : List Record) (is_selected : String → Bool) (request : Option RpcId)
    (operations : List String) where
  -- A node is handed over if hand-offs lead to it from a node that is asked for.
  abbrev pub Handed : String → Type 0
  Handed x =
      Reached (forward handoff_kinds) graph (wanted_ids graph is_selected request operations) x

  -- A node is relevant if causal edges lead from it to one that is handed over.
  pub data Relevant : String → Type 0 where
    handed : (x : String) → Handed x → Relevant x
    cause :
        (r : Record) (x y : String)
        → In r graph
        → backward causal_kinds r ≡ some (y, x)
        → Relevant y
        → Relevant x

  -- a relevant node, or a causal edge between relevant nodes
  abbrev pub Explains : Record → Type 0
  Explains (Record.node id kind rpc) = Relevant id
  Explains (Record.edge source target kind) =
      (member kind causal_kinds ≡ true) × Relevant source × Relevant target

  abbrev handed_set : List String
  handed_set = close (forward handoff_kinds) graph (wanted_ids graph is_selected request operations)

  Relevant-Reached : (x : String) → Relevant x → Reached (backward causal_kinds) graph handed_set x
  Relevant-Reached x (Relevant.handed _ h) =
      Reached.wanted_node x ((close-Reached (forward handoff_kinds) graph _ x).1 h)
  Relevant-Reached x (Relevant.cause r _ y i p h) = Reached.along r y x i p (Relevant-Reached y h)

  Reached-Relevant : (x : String) → Reached (backward causal_kinds) graph handed_set x → Relevant x
  Reached-Relevant x (Reached.wanted_node _ h) =
      Relevant.handed x ((close-Reached (forward handoff_kinds) graph _ x).0 h)
  Reached-Relevant y (Reached.along r x _ i p h) = Relevant.cause r y x i p (Reached-Relevant x h)

  ancestors-Relevant :
      (x : String) → (member x (ancestors graph is_selected request operations) ≡ true) ↔ Relevant x
  unfolding ancestors
  ancestors-Relevant x =
      let c = close-Reached (backward causal_kinds) graph handed_set x in
      (λ h. Reached-Relevant x (c.0 h), λ h. c.1 (Relevant-Reached x h))

  is_evidence-Explains :
      (r : Record)
      → (is_evidence (ancestors graph is_selected request operations) r ≡ true) ↔ Explains r
  unfolding is_evidence
  is_evidence-Explains (Record.node id kind rpc) = ancestors-Relevant id
  is_evidence-Explains (Record.edge source target kind) =
      let s = ancestors-Relevant source in
      let t = ancestors-Relevant target in
      (
        λ h. let (k, a, b) = three_true _ _ _ h in (k, s.0 a, t.0 b),
        λ (k, a, b). all_true _ _ _ k (s.1 a) (t.1 b),
      )

-- A record of the graph is in the evidence chain exactly if it is a relevant node or a causal edge
-- between relevant nodes: one from which causal edges lead to a node that is asked for, or that
-- hand-offs reach from such a node.
pub evidence_chain-Explains :
    (graph : List Record) (is_selected : String → Bool) (request : Option RpcId)
    (operations : List String) (r : Record)
    → In r (evidence_chain graph is_selected request operations)
      ↔ (In r graph × Explains graph is_selected request operations r)
unfolding evidence_chain
evidence_chain-Explains graph is_selected request operations r =
    let kept = In-keep (is_evidence (ancestors graph is_selected request operations)) graph r in
    let test = is_evidence-Explains graph is_selected request operations r in
    (λ i. let (a, b) = kept.0 i in (a, test.0 b), λ (i, h). kept.1 (i, test.1 h))
