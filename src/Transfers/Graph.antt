-- ===== src/Transfers/Graph.antt =====
-- `transfer_graph` of descriptor_transfers.py: the records that the transfers add to a graph. Node ids
-- are data where the code builds strings.
use causpan.Prelude.{
  ℕ, ◌+◌, ◌≡◌, refl, ap, ◌↔◌, inl, inr, String, string_eq, string_eq_iff, Option, none, some,
  none≢some, some_injective, List, [], ◌∷◌, ◌++◌, Dict, get, put, Bool, true, false, ◌||◌, ◌==◌, Eq,
  nat_eq, nat_beq_iff, subst, member, add, member-add, any, All, All-append, All_map, Bool-cases,
  Option-cases, arith, if◌then◌else◌,
}
use causpan.Attribution.Types.{Event}
use causpan.Transfers.Pairs.{Transfer}

-- `syscall:<source>` and `descriptor-transfer:<index>`
pub data TransferId : Type 0 where
  syscall : String → TransferId
  descriptor_transfer : ℕ → TransferId

abbrev pub id_beq : TransferId → TransferId → Bool
id_beq (TransferId.syscall a) (TransferId.syscall b) = a == b
id_beq (TransferId.descriptor_transfer a) (TransferId.descriptor_transfer b) = a == b
id_beq (TransferId.syscall _) (TransferId.descriptor_transfer _) = false
id_beq (TransferId.descriptor_transfer _) (TransferId.syscall _) = false

syscall_injective : {a b : String} → TransferId.syscall a ≡ TransferId.syscall b → a ≡ b
syscall_injective p = cc

transfer_injective :
    {a b : ℕ} → TransferId.descriptor_transfer a ≡ TransferId.descriptor_transfer b → a ≡ b
transfer_injective p = cc

pub id_beq_iff : (a b : TransferId) → (id_beq a b ≡ true) ↔ (a ≡ b)
id_beq_iff (TransferId.syscall a) (TransferId.syscall b) = (
  λ h. ap TransferId.syscall ((string_eq_iff a b).0 h),
  λ p. (string_eq_iff a b).1 (syscall_injective p),
)
id_beq_iff (TransferId.descriptor_transfer a) (TransferId.descriptor_transfer b) = (
  λ h. ap TransferId.descriptor_transfer ((nat_beq_iff a b).0 h),
  λ p. (nat_beq_iff a b).1 (transfer_injective p),
)
id_beq_iff (TransferId.syscall a) (TransferId.descriptor_transfer b) =
    (λ h. absurd cc, λ h. absurd cc)
id_beq_iff (TransferId.descriptor_transfer a) (TransferId.syscall b) =
    (λ h. absurd cc, λ h. absurd cc)

instance abbrev pub id_eq : Eq TransferId
id_eq = record { same = id_beq; same_iff = id_beq_iff }

pub data TransferRecord : Type 0 where
  syscall_node : TransferId → Event → TransferRecord
  transfer_node : TransferId → Transfer → TransferRecord
  descriptor_sent descriptor_received : TransferId → TransferId → String → TransferRecord

-- `graph` and `seen`
pub record Building : Type 0 where
  pub graph : List TransferRecord
  pub seen : List TransferId

-- `{e['source']:e for e in events}`
unfoldable pub by_source : List Event → Dict String Event → Dict String Event
unfolding put
by_source [] sources = sources
by_source (e ∷ es) sources = by_source es (put e.source e sources)

-- the call of a transfer; `none` is the KeyError
unfoldable pub add_syscall : Dict String Event → String → Building → Option Building
unfolding get member add
add_syscall sources source b =
    let id = TransferId.syscall source in
    if member id b.seen then some b else elim (get source sources) [
      | none ↦ none
      | some e ↦ some (record {
        graph = b.graph ++ TransferRecord.syscall_node id e ∷ [];
        seen = add id b.seen;
      })
    ]

unfoldable pub add_transfer : Dict String Event → ℕ → Transfer → Building → Option Building
unfolding add_syscall
add_transfer sources index t b = elim (add_syscall sources t.send b) [
  | none ↦ none
  | some c ↦ elim (add_syscall sources t.receive c) [
    | none ↦ none
    | some d ↦
        let id = TransferId.descriptor_transfer index in
        some (record d {
          graph =
              d.graph
              ++ TransferRecord.transfer_node id t
                ∷ TransferRecord.descriptor_sent (TransferId.syscall t.send) id t.send
                ∷ TransferRecord.descriptor_received id (TransferId.syscall t.receive) t.receive
                ∷ [];
        })
  ]
]

unfoldable pub add_transfers : Dict String Event → ℕ → List Transfer → Building → Option Building
unfolding add_transfer
add_transfers sources index [] b = some b
add_transfers sources index (t ∷ ts) b = elim (add_transfer sources index t b) [
  | none ↦ none
  | some next ↦ add_transfers sources (index + 1) ts next
]

unfoldable pub transfer_graph :
    List Transfer → List Event → List TransferId → Option (List TransferRecord)
unfolding by_source add_transfers
transfer_graph pairs events existing =
    elim (add_transfers (by_source events []) 0 pairs (record { graph = []; seen = existing })) [
      | none ↦ none
      | some b ↦ some b.graph
    ]

-- The id is of a node of the graph, or of one that was there.
abbrev pub is_node_of : TransferId → TransferRecord → Bool
is_node_of id (TransferRecord.syscall_node n _) = n == id
is_node_of id (TransferRecord.transfer_node n _) = n == id
is_node_of id (TransferRecord.descriptor_sent _ _ _) = false
is_node_of id (TransferRecord.descriptor_received _ _ _) = false

abbrev pub is_there : List TransferId → List TransferRecord → TransferId → Bool
is_there existing graph id = member id existing || any (is_node_of id) graph

-- the ends of an edge are there
abbrev pub HasEnds : (TransferId → Bool) → TransferRecord → Type 0
HasEnds there (TransferRecord.syscall_node _ _) = Unit
HasEnds there (TransferRecord.transfer_node _ _) = Unit
HasEnds there (TransferRecord.descriptor_sent a b _) = (there a ≡ true) × (there b ≡ true)
HasEnds there (TransferRecord.descriptor_received a b _) = (there a ≡ true) × (there b ≡ true)

any-append :
    (f : TransferRecord → Bool) (xs ys : List TransferRecord)
    → any f (xs ++ ys) ≡ (any f xs || any f ys)
any-append f [] ys = refl
any-append f (x ∷ xs) ys = ground (arith, any-append f xs ys)

record Closed (existing : List TransferId) (b : Building) : Type 0 where
  ends : All (HasEnds (is_there existing b.graph)) b.graph
  seen_there : (id : TransferId) → member id b.seen ≡ true → is_there existing b.graph id ≡ true

HasEnds-more :
    (p q : TransferId → Bool)
    → ((id : TransferId) → p id ≡ true → q id ≡ true)
    → (r : TransferRecord) → HasEnds p r
    → HasEnds q r
HasEnds-more p q f (TransferRecord.syscall_node _ _) h = tt
HasEnds-more p q f (TransferRecord.transfer_node _ _) h = tt
HasEnds-more p q f (TransferRecord.descriptor_sent a b _) h = (f a h.0, f b h.1)
HasEnds-more p q f (TransferRecord.descriptor_received a b _) h = (f a h.0, f b h.1)

module _ (existing : List TransferId) where
  there-append :
      (g more : List TransferRecord) (id : TransferId)
      → is_there existing g id ≡ true
      → is_there existing (g ++ more) id ≡ true
  there-append g more id h = ground (arith, any-append (is_node_of id) g more)

  ends-append :
      (g more : List TransferRecord)
      → All (HasEnds (is_there existing g)) g
      → All (HasEnds (is_there existing (g ++ more))) g
  ends-append g more h =
      All_map (HasEnds (is_there existing g)) (HasEnds (is_there existing (g ++ more))) g
        (HasEnds-more (is_there existing g) (is_there existing (g ++ more)) (there-append g more)) h

  -- the building is closed, the id is there, and what was there still is
  Grown : Building → Building → TransferId → Type 0
  Grown b c id =
      Closed existing c
      × (is_there existing c.graph id ≡ true)
      × ((j : TransferId) → is_there existing b.graph j ≡ true → is_there existing c.graph j ≡ true)

  add_syscall-Grown :
      (sources : Dict String Event) (source : String) (b c : Building)
      → add_syscall sources source b ≡ some c
      → Closed existing b
      → Grown b c (TransferId.syscall source)
  unfolding add_syscall Grown
  add_syscall-Grown sources source b c h k =
      let id = TransferId.syscall source in
      elim (Bool-cases (member id b.seen)) [
        | inl p ↦
            subst (λ d. Grown b d id) (some_injective (rw (p, add_syscall) at h))
              (k, k.seen_there id p, λ j t. t)
        | inr p ↦ elim (Option-cases (get source sources)) [
          | inl q ↦ absurd (none≢some (rw (p, q, add_syscall) at h))
          | inr (e, q) ↦
              let more = TransferRecord.syscall_node id e ∷ [] in
              let now : is_there existing (b.graph ++ more) id ≡ true =
                ground (arith, any-append (is_node_of id) b.graph more, id_beq_iff id id) in
              let built : Closed existing
                  (record { graph = b.graph ++ more; seen = add id b.seen }) =
                record {
                  ends =
                      All-append (HasEnds (is_there existing (b.graph ++ more))) b.graph more
                        (ends-append b.graph more k.ends) (tt, tt);
                  seen_there = λ j m. elim (Bool-cases (id_beq id j)) [
                    | inl same ↦
                        subst (λ i. is_there existing (b.graph ++ more) i ≡ true)
                          ((id_beq_iff id j).0 same) now
                    | inr other ↦
                        there-append b.graph more j
                          (k.seen_there j (ground (arith, member-add id j b.seen)))
                  ];
                } in
              subst (λ d. Grown b d id) (some_injective (rw (p, q, add_syscall) at h))
                (built, now, λ j t. there-append b.graph more j t)
        ]
      ]

  add_transfer-Closed :
      (sources : Dict String Event) (index : ℕ) (t : Transfer) (b c : Building)
      → add_transfer sources index t b ≡ some c
      → Closed existing b
      → Closed existing c
  unfolding add_transfer Grown
  add_transfer-Closed sources index t b c h k = elim (Option-cases (add_syscall sources t.send b)) [
    | inl p ↦ absurd (none≢some (rw (p, add_transfer) at h))
    | inr (sent, p) ↦ elim (Option-cases (add_syscall sources t.receive sent)) [
      | inl q ↦ absurd (none≢some (rw (p, q, add_transfer) at h))
      | inr (both, q) ↦
          let (k1, sent_there, _) = add_syscall-Grown sources t.send b sent p k in
          let (k2, received_there, still) = add_syscall-Grown sources t.receive sent both q k1 in
          let id = TransferId.descriptor_transfer index in
          let from = TransferId.syscall t.send in
          let to = TransferId.syscall t.receive in
          let more =
            TransferRecord.transfer_node id t
            ∷ TransferRecord.descriptor_sent from id t.send
            ∷ TransferRecord.descriptor_received id to t.receive
            ∷ [] in
          let now : is_there existing (both.graph ++ more) id ≡ true =
            ground (arith, any-append (is_node_of id) both.graph more, id_beq_iff id id) in
          let keeps = there-append both.graph more in
          subst (Closed existing) (some_injective (rw (p, q, add_transfer) at h)) (record {
            ends =
                All-append (HasEnds (is_there existing (both.graph ++ more))) both.graph more
                  (ends-append both.graph more k2.ends)
                  (
                    tt,
                    (
                      (keeps from (still from sent_there), now),
                      ((now, keeps to received_there), tt),
                    ),
                  );
            seen_there = λ j m. keeps j (k2.seen_there j m);
          })
    ]
  ]

  add_transfers-Closed :
      (ts : List Transfer) (sources : Dict String Event) (index : ℕ) (b c : Building)
      → add_transfers sources index ts b ≡ some c
      → Closed existing b
      → Closed existing c
  unfolding add_transfers
  add_transfers-Closed [] sources index b c h k = subst (Closed existing) (some_injective h) k
  add_transfers-Closed (t ∷ ts) sources index b c h k =
      elim (Option-cases (add_transfer sources index t b)) [
        | inl p ↦ absurd (none≢some (rw (p, add_transfers) at h))
        | inr (next, p) ↦
            add_transfers-Closed ts sources (index + 1) next c (rw (p, add_transfers) at h)
              (add_transfer-Closed sources index t b next p k)
      ]

-- If `transfer_graph` gives a graph, each edge of it goes between nodes of it, or nodes that were there
-- before.
pub transfer_graph-HasEnds :
    (pairs : List Transfer) (events : List Event) (existing : List TransferId)
    (graph : List TransferRecord)
    → transfer_graph pairs events existing ≡ some graph
    → All (HasEnds (is_there existing graph)) graph
unfolding transfer_graph
transfer_graph-HasEnds pairs events existing graph h =
    let start : Building = record { graph = []; seen = existing } in
    let open_start : Closed existing start = record {
      ends = tt;
      seen_there = λ id m. ground arith;
    } in
    elim (Option-cases (add_transfers (by_source events []) 0 pairs start)) [
      | inl p ↦ absurd (none≢some (rw (p, transfer_graph) at h))
      | inr (b, p) ↦
          let k =
            add_transfers-Closed existing pairs (by_source events []) 0 start b p open_start in
          subst (λ g. All (HasEnds (is_there existing g)) g)
            (some_injective (rw (p, transfer_graph) at h)) k.ends
    ]
