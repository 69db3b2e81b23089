-- ===== src/Transfers.antt =====
-- experiments/mcp/descriptor_transfers.py: the descriptors that datagrams carry between processes. The
-- groups that its regular expressions capture are arguments. The reasons of a rejected channel are
-- the list that the code makes a sorted set of.
pub mod Pairs
pub mod Paired
pub mod Graph
use Prim.Native.String.{compare}
use Prim.Native.Nat.{Ordering}
use causpan.Prelude.{
  ℕ, ◌+◌, ◌≡◌, ◌↔◌, refl, ap, String, string_eq, string_eq_iff, ℤ, pos, int_eq, Option, none, some,
  List, [], ◌∷◌, ◌++◌, Dict, get, has, put, Bool, true, false, ◌&&◌, ◌||◌, not, ◌==◌, Eq, nat_eq,
  member, add, union, map, length, leb, ltb, leb_ℤ, ltb_ℤ, Text, codes, starts_with, arith,
  if◌then◌else◌,
}
use causpan.Attribution.Types.{Event, Rights, syscall_name}

-- the inode numbers of two endpoints, as the trace spells them
abbrev pub Key : Type 0
Key = String × String

abbrev pub key_beq : Key → Key → Bool
key_beq p q = p.0 == q.0 && p.1 == q.1

pub key_beq_iff : (p q : Key) → (key_beq p q ≡ true) ↔ (p ≡ q)
key_beq_iff (a, b) (c, d) = ground (arith, string_eq_iff a c, string_eq_iff b d)

instance abbrev pub key_eq : Eq Key
key_eq = record { same = key_beq; same_iff = key_beq_iff }

-- `tuple(sorted(endpoint))`
abbrev pub ordered : Key → Key
ordered (a, b) = elim (compare a b) [ Ordering.gt ↦ (b, a) | _ ↦ (a, b) ]

-- `endpoint[::-1]`
abbrev pub reversed : Key → Key
reversed (a, b) = (b, a)

-- a descriptor that is annotated with an endpoint: whether it stands first, its inode and its peer
pub record Ref : Type 0 where
  pub first : Bool
  pub inode : String
  pub peer : Option String

-- What the regular expressions match in the arguments of a call: the creation of a pair of datagram
-- sockets, the endpoints, the descriptors outside quoted text, the endpoint of the first
-- descriptor, the absence of flags and addresses, and a flag of a message that is cut or peeked at.
pub record Matchers : Type 0 where
  pub creates_pair : Text → Bool
  pub endpoints : Text → List Key
  pub refs : Text → List Ref
  pub first_endpoint : Text → Option Key
  pub plain : Text → Bool
  pub cut : Text → Bool

pub data Reason : Type 0 where
  endpoint_identity_reused inode_in_multiple_channels secondary_descriptor : Reason
  peer_unresolved_or_changed io_uring_activity unknown_outcome unsupported_flags : Reason
  lacks_completion truncated_or_peeked predates_creation unbalanced : Reason
  overlapping_order received_before_sent length_mismatch : Reason
  incomplete_rights count_mismatch : Reason
  unsupported_operation : String → Reason

-- `flows[flow]`
pub record Flow : Type 0 where
  pub sent : List Event
  pub received : List Event

pub record Channel : Type 0 where
  pub creation : Event
  pub errors : List Reason
  pub flows : Dict Key Flow

abbrev pub Channels : Type 0
Channels = Dict Key Channel

abbrev pub add_error : Reason → Channel → Channel
add_error reason c = record c { errors = c.errors ++ reason ∷ [] }

-- `channels[key]['errors'].append(...)` of a key that is there
unfoldable pub blame : Reason → Key → Channels → Channels
unfolding get put
blame reason key channels = elim (get key channels) [
  | none ↦ channels
  | some c ↦ put key (add_error reason c) channels
]

abbrev pub is_call : String → Event → Bool
is_call name e = syscall_name e.syscall == name

-- `len(endpoints) == 2 and endpoints[0] == endpoints[1][::-1]`, the first
abbrev pub pair_of : List Key → Option Key
pair_of [] = none
pair_of (_ ∷ []) = none
pair_of (a ∷ b ∷ []) = if a == reversed b then some a else none
pair_of (_ ∷ _ ∷ _ ∷ _) = none

abbrev pub send_calls : List String
send_calls = "sendmsg" ∷ "sendto" ∷ "write" ∷ "writev" ∷ []

abbrev pub receive_calls : List String
receive_calls = "recvmsg" ∷ "recvfrom" ∷ "read" ∷ "readv" ∷ []

abbrev pub unsupported_calls : List String
unsupported_calls =
    "connect" ∷ "shutdown" ∷ "setsockopt" ∷ "sendmmsg" ∷ "recvmmsg" ∷ "splice" ∷ "vmsplice"
    ∷ "sendfile" ∷ "copy_file_range" ∷ []

abbrev pub message_calls : List String
message_calls = "sendmsg" ∷ "recvmsg" ∷ "sendto" ∷ "recvfrom" ∷ []

unfoldable pub is_send : Event → Bool
unfolding member
is_send e = member (syscall_name e.syscall) send_calls

unfoldable pub is_message : Event → Bool
unfolding member is_send
is_message e = is_send e || member (syscall_name e.syscall) receive_calls

module _ (match : Matchers) where
  -- the first loop
  unfoldable pub note_creation : Event → Channels → Channels
  unfolding get put blame
  note_creation e channels =
      if is_call "socketpair" e
        && (elim e.return_value [ none ↦ false | some n ↦ n == pos 0 ] && match.creates_pair e.args)
      then elim (pair_of (match.endpoints e.args)) [
        | none ↦ channels
        | some endpoint ↦
            let key = ordered endpoint in
            if has key channels
            then blame Reason.endpoint_identity_reused key channels
            else put key (record { creation = e; errors = []; flows = [] }) channels
      ]
      else channels

  unfoldable pub channels_from : List Event → Channels → Channels
  unfolding note_creation
  channels_from [] channels = channels
  channels_from (e ∷ es) channels = channels_from es (note_creation e channels)

abbrev pub keys : Channels → List Key
keys [] = []
keys ((k, _) ∷ channels) = k ∷ keys channels

-- `by_inode[inode].add(key)`
unfoldable pub index_inode : Key → String → Dict String (List Key) → Dict String (List Key)
unfolding get put add
index_inode key inode index = elim (get inode index) [
  | none ↦ put inode (key ∷ []) index
  | some found ↦ put inode (add key found) index
]

unfoldable pub by_inode : List Key → Dict String (List Key) → Dict String (List Key)
unfolding index_inode
by_inode [] index = index
by_inode (key ∷ more) index = by_inode more (index_inode key key.1 (index_inode key key.0 index))

unfoldable pub blame_all : Reason → List Key → Channels → Channels
unfolding blame
blame_all reason [] channels = channels
blame_all reason (key ∷ more) channels = blame_all reason more (blame reason key channels)

-- the inodes of several channels
unfoldable pub blame_shared : Dict String (List Key) → Channels → Channels
unfolding blame_all
blame_shared [] channels = channels
blame_shared ((_, found) ∷ index) channels = blame_shared index (
    if ltb 1 (length found)
    then blame_all Reason.inode_in_multiple_channels found channels
    else channels)

abbrev pub found_at : Option String → Dict String (List Key) → List Key
found_at none index = []
found_at (some inode) index = elim (get inode index) [ none ↦ [] | some found ↦ found ]

-- what a descriptor of an event says against a channel
unfoldable pub ref_reasons : Event → Ref → Key → List Reason
unfolding member is_message
ref_reasons e ref key =
    let name = syscall_name e.syscall in
    let unsupported : List Reason =
      if member name unsupported_calls then Reason.unsupported_operation name ∷ [] else [] in
    let wrong_peer : Bool = elim ref.peer [
      | none ↦ true
      | some peer ↦ not (ordered (ref.inode, peer) == key)
    ] in
    unsupported
    ++ (if is_message e
        then (if not ref.first
            then Reason.secondary_descriptor ∷ []
            else if wrong_peer
            then Reason.peer_unresolved_or_changed ∷ []
            else [])
        else [])

unfoldable pub blame_each : List Reason → Key → Channels → Channels
unfolding blame
blame_each [] key channels = channels
blame_each (reason ∷ more) key channels = blame_each more key (blame reason key channels)

unfoldable pub check_ref : Event → Ref → List Key → Channels → Channels
unfolding ref_reasons blame_each
check_ref e ref [] channels = channels
check_ref e ref (key ∷ more) channels =
    check_ref e ref more (blame_each (ref_reasons e ref key) key channels)

unfoldable pub check_refs : Event → Dict String (List Key) → List Ref → Channels → Channels
unfolding check_ref union
check_refs e index [] channels = channels
check_refs e index (ref ∷ refs) channels =
    check_refs e index refs
      (check_ref e ref (union (found_at (some ref.inode) index) (found_at ref.peer index)) channels)

-- `syscall.startswith('io_uring_')`, but for a setup that failed
unfoldable pub is_ring_activity : Event → Bool
unfolding starts_with
is_ring_activity e =
    starts_with (codes "io_uring_") (codes (syscall_name e.syscall))
    && not (
        is_call "io_uring_setup" e
        && elim e.return_value [ none ↦ false | some n ↦ ltb_ℤ n (pos 0) ])

module _ (match : Matchers) where
  -- the second loop
  unfoldable pub check_events : Dict String (List Key) → List Event → Channels → Channels
  unfolding check_refs is_ring_activity blame_all
  check_events index [] channels = channels
  check_events index (e ∷ es) channels =
      let checked = check_refs e index (match.refs e.args) channels in
      check_events index es (
        if is_ring_activity e
        then blame_all Reason.io_uring_activity (keys checked) checked
        else checked)

-- `channel['flows'][flow][direction].append(event)`
unfoldable pub add_message : Key → Event → Dict Key Flow → Dict Key Flow
unfolding get put is_send
add_message flow e flows =
    let before : Flow = elim (get flow flows) [
      | none ↦ record { sent = []; received = [] }
      | some f ↦ f
    ] in
    put flow
      (if is_send e
        then record before { sent = before.sent ++ e ∷ [] }
        else record before { received = before.received ++ e ∷ [] })
      flows

abbrev pub reason_if : Bool → Reason → List Reason
reason_if true reason = reason ∷ []
reason_if false reason = []

module _ (match : Matchers) where
  -- what a message that succeeded says against its channel
  unfoldable pub message_reasons : Event → Channel → List Reason
  unfolding member
  message_reasons e c =
      reason_if (member (syscall_name e.syscall) message_calls && not (match.plain e.args))
        Reason.unsupported_flags
      ++ (reason_if (elim e.completion_ns [ none ↦ true | some _ ↦ false ]) Reason.lacks_completion
          ++ (reason_if (match.cut e.args) Reason.truncated_or_peeked
              ++ reason_if (ltb e.timestamp_ns c.creation.timestamp_ns) Reason.predates_creation))

  -- a message on a known channel; a send flows from its endpoint, a receive to it
  unfoldable pub note_message : Event → Key → Channel → Channel
  unfolding message_reasons add_message is_send
  note_message e endpoint c = elim e.return_value [
    | none ↦ add_error Reason.unknown_outcome c
    | some n ↦ if ltb_ℤ n (pos 0) then c else record c {
      errors = c.errors ++ message_reasons e c;
      flows = add_message (if is_send e then endpoint else reversed endpoint) e c.flows;
    }
  ]

  -- the third loop
  unfoldable pub collect : List Event → Channels → Channels
  unfolding get put is_message note_message
  collect [] channels = channels
  collect (e ∷ es) channels = collect es (elim (match.first_endpoint e.args) [
    | none ↦ channels
    | some endpoint ↦
        let key = ordered endpoint in
        elim (get key channels) [
          | none ↦ channels
          | some c ↦ if is_message e then put key (note_message e endpoint c) channels else channels
        ]
  ])
