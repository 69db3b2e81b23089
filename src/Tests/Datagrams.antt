-- ===== src/Tests/Datagrams.antt =====
-- The theorems on descriptor transfers, on concrete inputs: a pair of sockets, one datagram that
-- carries a descriptor, and the graph of it.
use causpan.Prelude.{
  ℕ, ◌≡◌, refl, String, string_eq, ℤ, pos, int_eq, Option, none, some, List, [], ◌∷◌, true, false,
  codes, starts_with, get, put, add, member, All, if◌then◌else◌,
}
use causpan.Attribution.Types.{Event, Syscall, Rights}
use causpan.Transfers.{Matchers, key_eq}
use causpan.Transfers.Pairs.{Transfer, channels_of, pair_transfers}
use causpan.Transfers.Paired.{Channelled, pair_transfers-Channelled}
use causpan.Transfers.Graph.{
  TransferId, TransferRecord, id_eq, is_there, HasEnds, transfer_graph, transfer_graph-HasEnds,
}

-- a matching for the arguments below
abbrev matchers : Matchers
matchers = record {
  creates_pair = λ t. starts_with (codes "AF_UNIX") t;
  endpoints = λ t. ("10", "11") ∷ ("11", "10") ∷ [];
  refs = λ t. [];
  first_endpoint = λ t.
      if starts_with (codes "3") t
      then some ("10", "11")
      else if starts_with (codes "4") t
      then some ("11", "10")
      else none;
  plain = λ t. true;
  cut = λ t. false;
}

abbrev rights : ℕ → Rights
rights fd = record { fds = fd ∷ []; decoded = true; succeeded = true; control_truncated = false }

abbrev call : String → Syscall → String → ℤ → Option Rights → ℕ → Event
call source name args result passed time = record {
  source = source;
  pid = 9;
  tid = 9;
  syscall = name;
  args = codes args;
  return_value = some result;
  paths = [];
  timestamp_ns = time;
  duration_ns = some 1;
  completion_ns = some time;
  descriptor_rights = passed;
}

abbrev events : List Event
events =
    call "t:1" (Syscall.other "socketpair") "AF_UNIX" (pos 0) none 1
    ∷ call "t:2" Syscall.sendmsg "3" (pos 5) (some (rights 7)) 2
    ∷ call "t:3" Syscall.recvmsg "4" (pos 5) (some (rights 8)) 3
    ∷ []

abbrev carried : Transfer
carried = record {
  send = "t:2";
  receive = "t:3";
  sender_pid = 9;
  receiver_pid = 9;
  sender_fd = 7;
  receiver_fd = 8;
  channel_creation = "t:1";
  endpoints = ("10", "11");
}

carries : pair_transfers matchers events ≡ record {
  pairs = carried ∷ [];
  rejected_channels = [];
  unpaired_observations = [];
  observed_datagram_channels = 1;
}
unfolding pair_transfers get put add member
carries = refl

pair_transfers-Channelled_example :
    All (Channelled (channels_of matchers events)) (pair_transfers matchers events).pairs
pair_transfers-Channelled_example = pair_transfers-Channelled matchers events

abbrev graph : List TransferRecord
graph =
    TransferRecord.syscall_node (TransferId.syscall "t:3")
      (call "t:3" Syscall.recvmsg "4" (pos 5) (some (rights 8)) 3)
    ∷ TransferRecord.transfer_node (TransferId.descriptor_transfer 0) carried
    ∷ TransferRecord.descriptor_sent (TransferId.syscall "t:2") (TransferId.descriptor_transfer 0)
        "t:2"
    ∷ TransferRecord.descriptor_received (TransferId.descriptor_transfer 0)
        (TransferId.syscall "t:3") "t:3"
    ∷ []

-- the send is in the graph already
draws : transfer_graph (carried ∷ []) events (TransferId.syscall "t:2" ∷ []) ≡ some graph
unfolding transfer_graph get put add member
draws = refl

transfer_graph-HasEnds_example :
    All (HasEnds (is_there (TransferId.syscall "t:2" ∷ []) graph)) graph
transfer_graph-HasEnds_example =
    transfer_graph-HasEnds (carried ∷ []) events (TransferId.syscall "t:2" ∷ []) graph draws
