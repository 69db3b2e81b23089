-- ===== src/Transfers/Paired.antt =====
-- The transfers that `pair_transfers` of descriptor_transfers.py reports.
use causpan.Prelude.{
  ℕ, ◌≡◌, refl, inl, inr, int_eq, Option, none, some, List, [], ◌∷◌, ◌++◌, Dict, Bool, true, false,
  ◌&&◌, not, ◌==◌, nat_eq, length, In, All, All-append, All_map, cons≢nil, List-cases, Bool-cases,
}
use causpan.Attribution.Types.{Event, Rights}
use causpan.Traces.{sort_events}
use causpan.Transfers.{Key, Matchers, Reason, Flow, Channel, Channels, reason_if}
use causpan.Transfers.Pairs.{
  Transfer, precedes, order_reasons, is_later, same_result, is_complete, transfers_of, rights_pair,
  message_pair, message_pairs, flow_pairs, flows_pairs, settle_channels, channels_of,
  pair_transfers,
}

-- the pairs of two lists, as far as the shorter one goes
abbrev pub zip : {A B : Type 0} → List A → List B → List (A × B)
zip [] bs = []
zip (_ ∷ _) [] = []
zip (a ∷ as_) (b ∷ bs) = (a, b) ∷ zip as_ bs

-- each message completes before the next one begins
abbrev pub IsSerial : List Event → Type 0
IsSerial [] = Unit
IsSerial (_ ∷ []) = Unit
IsSerial (a ∷ b ∷ es) = (precedes a b ≡ true) × IsSerial (b ∷ es)

append-nil_left : {A : Type 0} (xs ys : List A) → xs ++ ys ≡ [] → xs ≡ []
append-nil_left [] ys h = refl
append-nil_left (x ∷ xs) ys h = absurd (cons≢nil h)

append-nil_right : {A : Type 0} (xs ys : List A) → xs ++ ys ≡ [] → ys ≡ []
append-nil_right [] ys h = h
append-nil_right (x ∷ xs) ys h = absurd (cons≢nil h)

no_reason : (b : Bool) (r : Reason) → reason_if (not b) r ≡ [] → b ≡ true
no_reason true r h = refl
no_reason false r h = absurd (cons≢nil h)

order_reasons-IsSerial : (es : List Event) → order_reasons es ≡ [] → IsSerial es
unfolding order_reasons
order_reasons-IsSerial [] h = tt
order_reasons-IsSerial (_ ∷ []) h = tt
order_reasons-IsSerial (a ∷ b ∷ es) h = (
  no_reason (precedes a b) Reason.overlapping_order (
      append-nil_left (reason_if (not (precedes a b)) Reason.overlapping_order)
        (order_reasons (b ∷ es)) h),
  order_reasons-IsSerial (b ∷ es) (
      append-nil_right (reason_if (not (precedes a b)) Reason.overlapping_order)
        (order_reasons (b ∷ es)) h),
)

-- A transfer is of one descriptor of a send and its receive.
pub record Carried (c : Channel) (flow : Key) (send receive : Event) (t : Transfer) : Type 0 where
  pub left : Rights
  pub right : Rights
  pub sent_rights : send.descriptor_rights ≡ some left
  pub received_rights : receive.descriptor_rights ≡ some right
  pub complete : (is_complete left && is_complete right) ≡ true
  pub as_many : length left.fds ≡ length right.fds
  pub descriptors : In (t.sender_fd, t.receiver_fd) (zip left.fds right.fds)
  pub from : (t.send ≡ send.source) × (t.sender_pid ≡ send.pid)
  pub to : (t.receive ≡ receive.source) × (t.receiver_pid ≡ receive.pid)
  pub over : (t.endpoints ≡ flow) × (t.channel_creation ≡ c.creation.source)
  pub later : is_later send receive ≡ true
  pub as_long : same_result send.return_value receive.return_value ≡ true

-- what `transfers_of` says of each
record Named (c : Channel) (flow : Key) (send receive : Event) (fds : List (ℕ × ℕ)) (t : Transfer)
    : Type 0 where
  pub descriptors : In (t.sender_fd, t.receiver_fd) fds
  pub from : (t.send ≡ send.source) × (t.sender_pid ≡ send.pid)
  pub to : (t.receive ≡ receive.source) × (t.receiver_pid ≡ receive.pid)
  pub over : (t.endpoints ≡ flow) × (t.channel_creation ≡ c.creation.source)

module _ (c : Channel) (flow : Key) (send receive : Event) where
  transfers_of-Named :
      (sources targets : List ℕ)
      → All
          (Named c flow send receive (zip sources targets))
          (transfers_of c flow send receive sources targets)
  unfolding transfers_of
  transfers_of-Named [] targets = tt
  transfers_of-Named (_ ∷ _) [] = tt
  transfers_of-Named (s ∷ ss) (t ∷ ts) = (
    record { descriptors = inl refl; from = (refl, refl); to = (refl, refl); over = (refl, refl) },
    All_map (Named c flow send receive (zip ss ts)) (Named c flow send receive ((s, t) ∷ zip ss ts))
        (transfers_of c flow send receive ss ts)
        (λ x n. record { descriptors = inr n.descriptors; from = n.from; to = n.to; over = n.over })
        (transfers_of-Named ss ts),
  )

  -- what `rights_pair` says of each, whatever the two rights are
  record Given (l r : Option Rights) (t : Transfer) : Type 0 where
    left : Rights
    right : Rights
    sent_rights : l ≡ some left
    received_rights : r ≡ some right
    complete : (is_complete left && is_complete right) ≡ true
    as_many : length left.fds ≡ length right.fds
    named : Named c flow send receive (zip left.fds right.fds) t

  rights_pair-Given :
      (l r : Option Rights)
      → (rights_pair c flow send receive l r).0 ≡ []
      → All (Given l r) (rights_pair c flow send receive l r).1
  unfolding rights_pair
  rights_pair-Given none none h = tt
  rights_pair-Given none (some _) h = tt
  rights_pair-Given (some _) none h = tt
  rights_pair-Given (some left) (some right) h =
      elim (Bool-cases (is_complete left && is_complete right)) [
        | inr p ↦ absurd (cons≢nil (rw (p, rights_pair) at h))
        | inl p ↦ elim (Bool-cases (length left.fds == length right.fds)) [
          | inr q ↦ absurd (cons≢nil (rw (p, q, rights_pair) at h))
          | inl q ↦
              rw (p, q, rights_pair)
                (All_map (Named c flow send receive (zip left.fds right.fds))
                  (Given (some left) (some right))
                  (transfers_of c flow send receive left.fds right.fds)
                  (λ t n. record {
                    left = left;
                    right = right;
                    sent_rights = refl;
                    received_rights = refl;
                    complete = p;
                    as_many = (nat_eq.same_iff (length left.fds) (length right.fds)).0 q;
                    named = n;
                  })
                  (transfers_of-Named left.fds right.fds))
        ]
      ]

  message_pair-Carried :
      (message_pair c flow send receive).0 ≡ []
      → All (Carried c flow send receive) (message_pair c flow send receive).1
  unfolding message_pair
  message_pair-Carried h =
      let l = send.descriptor_rights in
      let r = receive.descriptor_rights in
      let late = reason_if (not (is_later send receive)) Reason.received_before_sent in
      let long =
        reason_if (not (same_result send.return_value receive.return_value))
          Reason.length_mismatch in
      let given = (rights_pair c flow send receive l r).0 in
      let rest = append-nil_right late (long ++ given) h in
      All_map (Given l r) (Carried c flow send receive) (rights_pair c flow send receive l r).1
        (λ t g. record {
          left = g.left;
          right = g.right;
          sent_rights = g.sent_rights;
          received_rights = g.received_rights;
          complete = g.complete;
          as_many = g.as_many;
          descriptors = g.named.descriptors;
          from = g.named.from;
          to = g.named.to;
          over = g.named.over;
          later =
              no_reason (is_later send receive) Reason.received_before_sent
                (append-nil_left late (long ++ given) h);
          as_long =
              no_reason (same_result send.return_value receive.return_value) Reason.length_mismatch
                (append-nil_left long given rest);
        })
        (rights_pair-Given l r (append-nil_right long given rest))

-- A transfer is of a send and a receive at the same place of two sequences.
pub record Placed (c : Channel) (flow : Key) (sends receives : List Event) (t : Transfer)
    : Type 0 where
  pub send : Event
  pub receive : Event
  pub paired : In (send, receive) (zip sends receives)
  pub carried : Carried c flow send receive t

message_pairs-Placed :
    (c : Channel) (flow : Key) (sends receives : List Event)
    → (message_pairs c flow sends receives).0 ≡ []
    → All (Placed c flow sends receives) (message_pairs c flow sends receives).1
unfolding message_pairs
message_pairs-Placed c flow [] receives h = tt
message_pairs-Placed c flow (_ ∷ _) [] h = tt
message_pairs-Placed c flow (s ∷ ss) (r ∷ rs) h =
    let first = message_pair c flow s r in
    let rest = message_pairs c flow ss rs in
    All-append (Placed c flow (s ∷ ss) (r ∷ rs)) first.1 rest.1
      (All_map (Carried c flow s r) (Placed c flow (s ∷ ss) (r ∷ rs)) first.1
        (λ t k. record { send = s; receive = r; paired = inl refl; carried = k })
        (message_pair-Carried c flow s r (append-nil_left first.0 rest.0 h)))
      (All_map (Placed c flow ss rs) (Placed c flow (s ∷ ss) (r ∷ rs)) rest.1
        (λ t k. record {
          send = k.send;
          receive = k.receive;
          paired = inr k.paired;
          carried = k.carried;
        })
        (message_pairs-Placed c flow ss rs (append-nil_right first.0 rest.0 h)))

-- A transfer of a flow of the channel, whose messages are balanced and serial in both directions.
pub record Flowed (c : Channel) (flows : Dict Key Flow) (t : Transfer) : Type 0 where
  pub flow : Key
  pub messages : Flow
  pub known : In (flow, messages) flows
  pub balanced : length (sort_events messages.sent) ≡ length (sort_events messages.received)
  pub serial_sent : IsSerial (sort_events messages.sent)
  pub serial_received : IsSerial (sort_events messages.received)
  pub placed : Placed c flow (sort_events messages.sent) (sort_events messages.received) t

flow_pairs-Flowed :
    (c : Channel) (flow : Key) (f : Flow) (flows : Dict Key Flow)
    → In (flow, f) flows
    → (flow_pairs c flow f).0 ≡ []
    → All (Flowed c flows) (flow_pairs c flow f).1
unfolding flow_pairs
flow_pairs-Flowed c flow f flows i h =
    let sends = sort_events f.sent in
    let receives = sort_events f.received in
    let pairs = message_pairs c flow sends receives in
    let uneven = reason_if (not (length sends == length receives)) Reason.unbalanced in
    let a =
      append-nil_right uneven (order_reasons sends ++ (order_reasons receives ++ pairs.0)) h in
    let b = append-nil_right (order_reasons sends) (order_reasons receives ++ pairs.0) a in
    let even =
      no_reason (length sends == length receives) Reason.unbalanced
        (append-nil_left uneven (order_reasons sends ++ (order_reasons receives ++ pairs.0)) h) in
    All_map (Placed c flow sends receives) (Flowed c flows) pairs.1
      (λ t k. record {
        flow = flow;
        messages = f;
        known = i;
        balanced = (nat_eq.same_iff (length sends) (length receives)).0 even;
        serial_sent =
            order_reasons-IsSerial sends
              (append-nil_left (order_reasons sends) (order_reasons receives ++ pairs.0) a);
        serial_received =
            order_reasons-IsSerial receives (append-nil_left (order_reasons receives) pairs.0 b);
        placed = k;
      })
      (message_pairs-Placed c flow sends receives
        (append-nil_right (order_reasons receives) pairs.0 b))

flows_pairs-Flowed :
    (c : Channel) (flows all_flows : Dict Key Flow)
    → ((k : Key × Flow) → In k flows → In k all_flows)
    → (flows_pairs c flows).0 ≡ []
    → All (Flowed c all_flows) (flows_pairs c flows).1
unfolding flows_pairs
flows_pairs-Flowed c [] all_flows inside h = tt
flows_pairs-Flowed c ((flow, f) ∷ flows) all_flows inside h =
    let first = flow_pairs c flow f in
    let rest = flows_pairs c flows in
    All-append (Flowed c all_flows) first.1 rest.1
      (flow_pairs-Flowed c flow f all_flows (inside (flow, f) (inl refl))
        (append-nil_left first.0 rest.0 h))
      (flows_pairs-Flowed c flows all_flows (λ k i. inside k (inr i))
        (append-nil_right first.0 rest.0 h))

-- A transfer of a channel with no errors.
pub record Channelled (channels : Channels) (t : Transfer) : Type 0 where
  pub key : Key
  pub channel : Channel
  pub known : In (key, channel) channels
  pub unblamed : channel.errors ≡ []
  pub flowed : Flowed channel channel.flows t

settle_channels-Channelled :
    (channels : Channels) → All (Channelled channels) (settle_channels channels).0
unfolding settle_channels
settle_channels-Channelled [] = tt
settle_channels-Channelled ((key, c) ∷ channels) =
    let found = flows_pairs c c.flows in
    let rest = settle_channels channels in
    let later =
      All_map (Channelled channels) (Channelled ((key, c) ∷ channels)) rest.0
        (λ t k. record {
          key = k.key;
          channel = k.channel;
          known = inr k.known;
          unblamed = k.unblamed;
          flowed = k.flowed;
        })
        (settle_channels-Channelled channels) in
    elim (List-cases (c.errors ++ found.0)) [
      | inr (reason, reasons, p) ↦ rw (p, settle_channels) later
      | inl p ↦
          rw (p, settle_channels)
            (All-append (Channelled ((key, c) ∷ channels)) found.1 rest.0
              (All_map (Flowed c c.flows) (Channelled ((key, c) ∷ channels)) found.1
                (λ t k. record {
                  key = key;
                  channel = c;
                  known = inl refl;
                  unblamed = append-nil_left c.errors found.0 p;
                  flowed = k;
                })
                (flows_pairs-Flowed c c.flows c.flows (λ k i. i)
                  (append-nil_right c.errors found.0 p)))
              later)
    ]

-- For any matching of the arguments, each pair that `pair_transfers` reports is of a channel with no
-- errors and of a flow on it with as many sends as receives, where each send and each receive
-- completes before the next one begins; it is of one descriptor of a send and of the
-- receive at the same place, which returned the same length and which completed after the send
-- began, and both observe as many descriptors, decoded and in full.
pub pair_transfers-Channelled :
    (match : Matchers) (events : List Event)
    → All (Channelled (channels_of match events)) (pair_transfers match events).pairs
unfolding pair_transfers
pair_transfers-Channelled match events = settle_channels-Channelled (channels_of match events)
