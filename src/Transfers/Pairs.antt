-- ===== src/Transfers/Pairs.antt =====
-- The last loop of `pair_transfers` in descriptor_transfers.py, its result, and `transfer_graph`.
use causpan.Prelude.{
  ℕ, String, string_eq, ℤ, int_eq, Option, none, some, List, [], ◌∷◌, ◌++◌, Dict, Bool, true, false,
  ◌&&◌, ◌||◌, not, ◌==◌, nat_eq, length, leb, ltb, if◌then◌else◌,
}
use causpan.Attribution.Types.{Event, Rights}
use causpan.Traces.{sort_events}
use causpan.Transfers.{
  Key, Matchers, Reason, Flow, Channel, Channels, reason_if, channels_from, keys, by_inode,
  blame_shared, check_events, collect,
}

-- `tentative`; the semantics and the scope are the same texts for all
pub record Transfer : Type 0 where
  pub send : String
  pub receive : String
  pub sender_pid : ℕ
  pub receiver_pid : ℕ
  pub sender_fd : ℕ
  pub receiver_fd : ℕ
  pub channel_creation : String
  pub endpoints : Key

-- a message completed before the next one began
abbrev pub precedes : Event → Event → Bool
precedes a b = elim a.completion_ns [ none ↦ false | some done ↦ ltb done b.timestamp_ns ]

unfoldable pub order_reasons : List Event → List Reason
order_reasons [] = []
order_reasons (_ ∷ []) = []
order_reasons (a ∷ b ∷ es) =
    reason_if (not (precedes a b)) Reason.overlapping_order ++ order_reasons (b ∷ es)

-- `receive.get('completion_ns')` is there, and the send began by then
abbrev pub is_later : Event → Event → Bool
is_later send receive = elim receive.completion_ns [
  | none ↦ false
  | some done ↦ leb send.timestamp_ns done
]

abbrev pub same_result : Option ℤ → Option ℤ → Bool
same_result none none = true
same_result none (some _) = false
same_result (some _) none = false
same_result (some a) (some b) = a == b

abbrev pub is_complete : Rights → Bool
is_complete r = r.decoded && (r.succeeded && not r.control_truncated)

unfoldable pub transfers_of : Channel → Key → Event → Event → List ℕ → List ℕ → List Transfer
transfers_of c flow send receive [] targets = []
transfers_of c flow send receive (_ ∷ _) [] = []
transfers_of c flow send receive (source ∷ sources) (target ∷ targets) =
    record {
      send = send.source;
      receive = receive.source;
      sender_pid = send.pid;
      receiver_pid = receive.pid;
      sender_fd = source;
      receiver_fd = target;
      channel_creation = c.creation.source;
      endpoints = flow;
    }
    ∷ transfers_of c flow send receive sources targets

-- the rights of a send and of its receive
unfoldable pub rights_pair :
    Channel → Key → Event → Event → Option Rights → Option Rights → List Reason × List Transfer
unfolding transfers_of
rights_pair c flow send receive none none = ([], [])
rights_pair c flow send receive none (some _) = (Reason.incomplete_rights ∷ [], [])
rights_pair c flow send receive (some _) none = (Reason.incomplete_rights ∷ [], [])
rights_pair c flow send receive (some left) (some right) =
    if is_complete left && is_complete right
    then (if length left.fds == length right.fds
        then ([], transfers_of c flow send receive left.fds right.fds)
        else (Reason.count_mismatch ∷ [], []))
    else (Reason.incomplete_rights ∷ [], [])

-- a send and its receive
unfoldable pub message_pair : Channel → Key → Event → Event → List Reason × List Transfer
unfolding rights_pair
message_pair c flow send receive =
    let rights = rights_pair c flow send receive send.descriptor_rights receive.descriptor_rights in
    (
      reason_if (not (is_later send receive)) Reason.received_before_sent
          ++ (reason_if (not (same_result send.return_value receive.return_value))
                Reason.length_mismatch
              ++ rights.0),
      rights.1,
    )

-- `zip(sends, receives)`
unfoldable pub message_pairs : Channel → Key → List Event → List Event → List Reason × List Transfer
unfolding message_pair
message_pairs c flow [] receives = ([], [])
message_pairs c flow (_ ∷ _) [] = ([], [])
message_pairs c flow (send ∷ sends) (receive ∷ receives) =
    let first = message_pair c flow send receive in
    let rest = message_pairs c flow sends receives in (first.0 ++ rest.0, first.1 ++ rest.1)

unfoldable pub flow_pairs : Channel → Key → Flow → List Reason × List Transfer
unfolding sort_events order_reasons message_pairs
flow_pairs c flow f =
    let sends = sort_events f.sent in
    let receives = sort_events f.received in
    let pairs = message_pairs c flow sends receives in
    (
      reason_if (not (length sends == length receives)) Reason.unbalanced
          ++ (order_reasons sends ++ (order_reasons receives ++ pairs.0)),
      pairs.1,
    )

unfoldable pub flows_pairs : Channel → Dict Key Flow → List Reason × List Transfer
unfolding flow_pairs
flows_pairs c [] = ([], [])
flows_pairs c ((flow, f) ∷ flows) =
    let first = flow_pairs c flow f in
    let rest = flows_pairs c flows in (first.0 ++ rest.0, first.1 ++ rest.1)

-- `pairs` and `diagnostics`
unfoldable pub settle_channels : Channels → List Transfer × List (Key × List Reason)
unfolding flows_pairs
settle_channels [] = ([], [])
settle_channels ((key, c) ∷ channels) =
    let found = flows_pairs c c.flows in
    let rest = settle_channels channels in
    elim (c.errors ++ found.0) [
      | [] ↦ (found.1 ++ rest.0, rest.1)
      | reason ∷ reasons ↦ (rest.0, (key, reason ∷ reasons) ∷ rest.1)
    ]

-- the channels before the last loop
unfoldable pub channels_of : Matchers → List Event → Channels
unfolding channels_from by_inode blame_shared check_events collect
channels_of match events =
    let created = channels_from match events [] in
    let index = by_inode (keys created) [] in
    collect match events (check_events match index events (blame_shared index created))

abbrev pub names_source : String → Transfer → Bool
names_source source t = t.send == source || t.receive == source

unfoldable pub is_paired_source : String → List Transfer → Bool
is_paired_source source [] = false
is_paired_source source (t ∷ ts) = names_source source t || is_paired_source source ts

unfoldable pub unpaired_of : List Event → List Transfer → List String
unfolding is_paired_source
unpaired_of [] pairs = []
unpaired_of (e ∷ es) pairs =
    let rest = unpaired_of es pairs in
    elim e.descriptor_rights [
      | none ↦ rest
      | some r ↦
          if r.succeeded && not (is_paired_source e.source pairs) then e.source ∷ rest else rest
    ]

-- `dict(pairs=..., ...)`
pub record Result : Type 0 where
  pub pairs : List Transfer
  pub rejected_channels : List (Key × List Reason)
  pub unpaired_observations : List String
  pub observed_datagram_channels : ℕ

unfoldable pub pair_transfers : Matchers → List Event → Result
unfolding channels_of settle_channels unpaired_of
pair_transfers match events =
    let channels = channels_of match events in
    let settled = settle_channels channels in
    record {
      pairs = settled.0;
      rejected_channels = settled.1;
      unpaired_observations = unpaired_of events settled.0;
      observed_datagram_channels = length channels;
    }
