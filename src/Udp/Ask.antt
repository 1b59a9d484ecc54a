-- ===== src/Udp/Ask.antt =====
-- The start of queries, of src/Behind.cpp: `forward_udp` and `process_query_udp`.
use behind.Base.{
  ℕ, zero, suc, ltb, ◌/◌, ◌+◌, ◌%◌, ◌^◌, Bool, not, Option, none, some, List, [], ◌∷◌, ◌++◌, Bytes,
  leb, ◌==◌, if◌then◌else◌, length,
}
use behind.Message.{Question}
use behind.Misc.{strtolower}
use behind.Udp.{
  Udp, UdpQuery, PendingQuery, Waiter, set, count, pending_find, pending_erase, enter_channel,
  open_channel, draw_txid, udp_socket_txid_key,
}

-- What the environment brings to an attempt to ask a forwarder: its address, the channel to it, an
-- old one or a new one, if there is any, the random numbers (at most 100), the name as it is spelled, whether the packet
-- was sent, and the time.
pub record Attempt : Type 0 where
  pub forwarder : Bytes
  pub channel : Option ℕ
  pub draws : List ℕ
  pub query_name : Bytes
  pub sent : Bool
  pub now : ℕ

pub record Options : Type 0 where
  pub max_tasks : ℕ
  pub upstream_timeout_ms : ℕ

abbrev pub active_task_count : Udp → ℕ
active_task_count s = s.task_count + length s.by_local_txid

-- `insert` of the new query in both indexes, and its place on the channel.
unfoldable pub register : Udp → UdpQuery → Udp
register s query = record s {
  queries = set s.queries s.next_query query;
  next_query = s.next_query + 1;
  channels = enter_channel query.channel_fd s.channels;
  by_local_txid = (query.local_transaction_id, s.next_query) ∷ s.by_local_txid;
  by_socket_txid =
      (udp_socket_txid_key query.channel_fd query.upstream_id, s.next_query) ∷ s.by_socket_txid;
}

unfoldable pub note_txid : Udp → Bytes → ℕ → ℕ → Udp
note_txid s addr txid now = record s {
  active_txids = record { addr = addr; txid = txid; timestamp = now } ∷ s.active_txids;
}

-- `forward_udp` from the allocation of the id on, over the channel `fd`.
unfoldable pub forward_over : Options → Udp → Question → ℕ → ℕ → Attempt → ℕ → Udp
forward_over o s question local_transaction_id pending a fd =
    elim (draw_txid a.forwarder s.active_txids a.draws) [
      | none ↦ s
      | some upstream_id ↦
          let t = note_txid s a.forwarder upstream_id a.now in
          if not a.sent
          then t
          else register t (record {
            timestamp = a.now;
            timeout = o.upstream_timeout_ms;
            local_transaction_id = local_transaction_id;
            upstream_id = upstream_id;
            type = question.type;
            clas = question.clas;
            request_name = question.name;
            forward_name = a.query_name;
            forwarder = a.forwarder;
            channel_fd = fd;
            pending = pending;
          })
    ]

-- The state with the channel that `get_or_create_udp_channel` returns.
unfoldable pub with_channel : Udp → ℕ → Udp
with_channel s fd = record s { channels = open_channel fd s.channels }

unfoldable pub forward_udp : Options → Udp → Question → ℕ → ℕ → Attempt → Udp
forward_udp o s question local_transaction_id pending a =
    if leb o.max_tasks (active_task_count s) then s else elim a.channel [
      | none ↦ s
      | some fd ↦ forward_over o (with_channel s fd) question local_transaction_id pending a fd
    ]

abbrev pub forward_all : Options → Udp → Question → ℕ → ℕ → List Attempt → Udp
forward_all o s question t p [] = s
forward_all o s question t p (a ∷ rest) =
    forward_all o (forward_udp o s question t p a) question t p rest

-- What the client is told at once.
pub data Outcome : Type 0 where
  waits : Outcome
  fails : Outcome

abbrev pub add_waiter : PendingQuery → Waiter → PendingQuery
add_waiter p w = record p { waiters = p.waiters ++ (w ∷ []) }

-- `std::to_string` of a number of at most `fuel` digits.
abbrev pub decimal : ℕ → ℕ → Bytes
decimal zero n = []
decimal (suc fuel) n =
    if ltb n 10 then (b'0' + n) ∷ [] else decimal fuel (n / 10) ++ ((b'0' + n % 10) ∷ [])

-- The type and the class are of 16 bits, five digits at most.
unfoldable pub pending_query_key : Question → Bytes
pending_query_key question =
    let kind = decimal 5 (question.type % 2 ^ 16) ++ (b'/' ∷ decimal 5 (question.clas % 2 ^ 16)) in
    strtolower question.name ++ (0 ∷ kind)

-- `process_query_udp` from the choice of the forwarders on, which are those of the attempts, under the
-- key of the question.
unfoldable pub process_under_key :
    Options → Udp → Question → Bytes → Waiter → List Attempt → Udp × Outcome
process_under_key o s question key w [] = (s, Outcome.fails)
process_under_key o s question key w (a ∷ rest) = elim (pending_find key s.pending_udp) [
  | some p ↦
      if leb 200 (length (s.pendings p).waiters)
      then (s, Outcome.fails)
      else (record s { pendings = set s.pendings p (add_waiter (s.pendings p) w) }, Outcome.waits)
  | none ↦
      let id = s.local_transaction_id in
      let opened = record s {
        local_transaction_id = (id + 1) % 2 ^ 32;
        pendings =
            set s.pendings s.next_pending
              (record { key = key; transaction_id = id; waiters = w ∷ [] });
        next_pending = s.next_pending + 1;
        pending_udp = (key, s.next_pending) ∷ s.pending_udp;
      } in
      let t = forward_all o opened question id s.next_pending (a ∷ rest) in
      if count id t.by_local_txid == 0
      then (record t { pending_udp = pending_erase key t.pending_udp }, Outcome.fails)
      else (t, Outcome.waits)
]

unfoldable pub process_query_udp : Options → Udp → Question → Waiter → List Attempt → Udp × Outcome
process_query_udp o s question w attempts =
    process_under_key o s question (pending_query_key question) w attempts
