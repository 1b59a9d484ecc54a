-- ===== src/Clean/Tests.antt =====
-- The cleaning of queries on an example, and the theorems at concrete inputs.
use behind.Base.{to_lower, ◌≡◌, refl, some, [], ◌∷◌, length, codes, true, bytes_eq, arith, List}
use behind.Message.{Question, class_in}
use behind.Misc.{strtolower}
use behind.Message.DnsType
use behind.Udp.{
  Udp, UdpQuery, Waiter, erase_entry, has_entry, count, siblings, pending_find, pending_erase,
  leave_channel, open_channel, enter_channel, is_in_use, draw_txid, remove_txid, release_txid,
  is_udp_query_active, finish_udp_query, finish_udp_transaction,
}
use behind.Udp.Ask.{
  Attempt, Options, register, note_txid, with_channel, forward_over, forward_udp, pending_query_key,
  process_under_key, process_query_udp,
}
use behind.Clean.{
  expired_udp_queries, reply_to, expire_udp_query, clean_expired_udp, young_txids,
  clean_active_txids,
}
use behind.Local.{accept_dns_type}
use behind.Clean.Steps.{Step, Reachable, IsSound, Reachable-IsSound}

program : Unit {0}
unfolding erase_entry has_entry count siblings pending_find pending_erase leave_channel
    enter_channel is_in_use draw_txid remove_txid release_txid is_udp_query_active finish_udp_query
    finish_udp_transaction register note_txid with_channel forward_over open_channel forward_udp
    process_query_udp process_under_key pending_query_key strtolower to_lower bytes_eq
    expired_udp_queries reply_to expire_udp_query clean_expired_udp young_txids clean_active_txids
    accept_dns_type
program = tt

abbrev fresh_query : UdpQuery
fresh_query = record {
  timestamp = 0;
  timeout = 0;
  local_transaction_id = 0;
  upstream_id = 0;
  type = 0;
  clas = 0;
  request_name = [];
  forward_name = [];
  forwarder = [];
  channel_fd = 0;
  pending = 0;
}

-- One channel, and nothing in flight.
abbrev quiet : Udp
quiet = record {
  queries = λ i. fresh_query;
  next_query = 0;
  pendings = λ i. record { key = []; transaction_id = 0; waiters = [] };
  next_pending = 0;
  by_local_txid = [];
  by_socket_txid = [];
  pending_udp = [];
  channels = (5, 0) ∷ [];
  active_txids = [];
  local_transaction_id = 0;
  task_count = 0;
}

abbrev limits : Options
limits = record { max_tasks = 10; upstream_timeout_ms = 5000 }

abbrev asked_for : Question
asked_for = record { name = codes "b.lan"; type = DnsType.a; clas = class_in }

abbrev client : Waiter
client = record {
  address = 10 ∷ 0 ∷ 0 ∷ 9 ∷ [];
  requester_id = 7;
  udp_payload = 512;
  request_name = codes "b.lan";
}

-- Two attempts over the one channel, at the time 100.
abbrev tries : List Attempt
tries =
    record {
      forwarder = 8 ∷ [];
      channel = some 5;
      draws = 0x10007 ∷ [];
      query_name = codes "B.lan";
      sent = true;
      now = 100;
    }
    ∷ record {
      forwarder = 9 ∷ [];
      channel = some 5;
      draws = 8 ∷ [];
      query_name = codes "b.LAN";
      sent = true;
      now = 100;
    }
    ∷ []

abbrev waiting_state : Udp
waiting_state = (process_query_udp limits quiet asked_for client tries).0

-- One that waits for two queries is answered once, and nothing that is in time is touched.
clean_test :
    (waiting_state.by_local_txid ≡ (0, 1) ∷ (0, 0) ∷ [])
    × ((clean_expired_udp 1232 10000 waiting_state).udp.by_local_txid ≡ [])
    × ((clean_expired_udp 1232 10000 waiting_state).udp.pending_udp ≡ [])
    × (length (clean_expired_udp 1232 10000 waiting_state).replies ≡ 1)
    × (length (clean_expired_udp 1232 10000 waiting_state).failures ≡ 1)
    × ((clean_expired_udp 1232 5099 waiting_state).udp.by_local_txid ≡ (0, 1) ∷ (0, 0) ∷ [])
    × (length (clean_expired_udp 1232 5099 waiting_state).replies ≡ 0)
    × (length waiting_state.active_txids ≡ 2)
    × (length (clean_active_txids 10000 5000 waiting_state).active_txids ≡ 0)
    × (length (clean_active_txids 5000 5000 waiting_state).active_txids ≡ 2)
unfolding program
clean_test = (refl, refl, refl, refl, refl, refl, refl, refl, refl, refl)

abbrev waiting_state-Reachable : Reachable limits 1232 waiting_state
waiting_state-Reachable =
    Reachable.then_step (Reachable.idle {s = quiet} refl refl)
      (Step.ask asked_for client tries (omega arith))

Reachable-IsSound_example : IsSound waiting_state
Reachable-IsSound_example = Reachable-IsSound waiting_state-Reachable
