-- ===== src/Udp/Tests.antt =====
-- Queries in flight on an example, and the theorems at concrete inputs.
use behind.Base.{◌++◌, to_lower, ℕ, ◌≡◌, refl, some, [], ◌∷◌, codes, true, bytes_eq, arith, Bytes}
use behind.Message.{Question, class_in}
use behind.Misc.{strtolower}
use behind.Message.DnsType
use behind.Udp.{
  Udp, UdpQuery, Waiter, erase_entry, has_entry, count, siblings, pending_find, pending_erase,
  leave_channel, open_channel, enter_channel, is_in_use, draw_txid, remove_txid, release_txid,
  is_udp_query_active, finish_udp_query, finish_udp_transaction,
}
use behind.Udp.Ask.{
  Attempt, Options, register, note_txid, with_channel, forward_over, forward_udp, pending_query_key,
  process_under_key, process_query_udp,
}
use behind.Udp.Valid.{IsValid}
use behind.Udp.Finish.{Finished, finish_udp_transaction-Finished}
use behind.Udp.Handle.{Handled, process_query_udp-Handled}

program : Unit {0}
unfolding erase_entry has_entry count siblings pending_find pending_erase leave_channel
    enter_channel is_in_use draw_txid remove_txid release_txid is_udp_query_active finish_udp_query
    finish_udp_transaction register note_txid with_channel forward_over open_channel forward_udp
    process_query_udp process_under_key pending_query_key strtolower to_lower bytes_eq
program = tt

abbrev no_query : UdpQuery
no_query = record {
  timestamp = 0;
  timeout = 0;
  local_transaction_id = 0;
  upstream_id = 0;
  type = 0;
  clas = 0;
  request_name = [];
  forward_name = [];
  forwarder = [];
  channel_fd = 0;
  pending = 0;
}

-- Two channels, and nothing in flight.
abbrev idle : Udp
idle = record {
  queries = λ i. no_query;
  next_query = 0;
  pendings = λ i. record { key = []; transaction_id = 0; waiters = [] };
  next_pending = 0;
  by_local_txid = [];
  by_socket_txid = [];
  pending_udp = [];
  channels = (5, 0) ∷ (6, 0) ∷ [];
  active_txids = [];
  local_transaction_id = 0;
  task_count = 0;
}

idle-IsValid : IsValid idle
idle-IsValid = record { entries = tt; waiting = tt }

abbrev options : Options
options = record { max_tasks = 10; upstream_timeout_ms = 5000 }

abbrev question : Question
question = record { name = codes "a.lan"; type = DnsType.a; clas = class_in }

abbrev waiter : Waiter
waiter = record {
  address = 10 ∷ 0 ∷ 0 ∷ 9 ∷ [];
  requester_id = 7;
  udp_payload = 512;
  request_name = codes "a.lan";
}

attempt : ℕ → Bytes → Attempt
attempt fd addr = record {
  forwarder = addr;
  channel = some fd;
  draws = 0x10007 ∷ 8 ∷ [];
  query_name = codes "A.lan";
  sent = true;
  now = 100;
}

abbrev asked : Udp
asked =
    (process_query_udp options idle question waiter
      (attempt 5 (8 ∷ []) ∷ attempt 6 (9 ∷ []) ∷ [])).0

-- A question that is asked of two forwarders, and a second client that joins the first.
asked_test :
    (asked.by_local_txid ≡ (0, 1) ∷ (0, 0) ∷ [])
    × (asked.channels ≡ (5, 1) ∷ (6, 1) ∷ [])
    × ((process_query_udp options asked question waiter (attempt 5 (8 ∷ []) ∷ [])).0.by_local_txid
        ≡ (0, 1) ∷ (0, 0) ∷ [])
    × ((finish_udp_transaction asked 0).pending_udp ≡ [])
    × ((finish_udp_transaction asked 0).channels ≡ (5, 0) ∷ (6, 0) ∷ [])
    × ((finish_udp_query asked 0).pending_udp ≡ (pending_query_key question, 0) ∷ [])
unfolding program attempt
asked_test = (refl, refl, refl, refl, refl, refl)

pending_query_key_test :
    pending_query_key (record { name = codes "A.lan"; type = 65; clas = 1 })
    ≡ codes "a.lan" ++ (0 ∷ codes "65/1")
unfolding program
pending_query_key_test = refl

process_query_udp-Handled_example :
    Handled (pending_query_key question) waiter (
      process_query_udp options idle question waiter (attempt 5 (8 ∷ []) ∷ attempt 6 (9 ∷ []) ∷ []))
process_query_udp-Handled_example =
    process_query_udp-Handled options idle question waiter
      (attempt 5 (8 ∷ []) ∷ attempt 6 (9 ∷ []) ∷ []) idle-IsValid (omega arith)

asked-IsValid : IsValid asked
asked-IsValid =
    (process_query_udp-Handled options idle question waiter
      (attempt 5 (8 ∷ []) ∷ attempt 6 (9 ∷ []) ∷ []) idle-IsValid (omega arith)).valid

finish_udp_transaction-Finished_example : Finished 0 asked (finish_udp_transaction asked 0)
finish_udp_transaction-Finished_example = finish_udp_transaction-Finished asked 0 asked-IsValid
