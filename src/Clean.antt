-- ===== src/Clean.antt =====
-- `Behind::clean` of src/Behind.cpp as far as the queries over UDP go: those that are out of time
-- are ended, and who waits for them is told (CLEAN_EXPIRED_UDP); old transaction ids are dropped
-- (CLEAN_ACTIVE_TXIDS). The two other states deal with TCP.
pub mod Answers
pub mod Steps
mod Tests
use behind.Base.{
  ℕ, ◌+◌, ◌-◌, ◌%◌, ◌^◌, Bool, not, List, [], ◌∷◌, ◌++◌, map, Bytes, ltb, leb, if◌then◌else◌,
}
use behind.Message.{Question, Message}
use behind.Response.{set_edns0}
use behind.Local.{has_cache}
use behind.Udp.{Udp, UdpQuery, Waiter, TransactionId, is_udp_query_active, finish_udp_transaction}

-- The difference of two clock readings, uint64_t.
abbrev pub elapsed : ℕ → ℕ → ℕ
elapsed now timestamp = (now + 2 ^ 64 - timestamp) % 2 ^ 64

abbrev pub is_out_of_time : ℕ → UdpQuery → Bool
is_out_of_time now q = leb q.timeout (elapsed now q.timestamp)

-- The first loop, over the queries in flight.
unfoldable pub expired_udp_queries : ℕ → (ℕ → UdpQuery) → List (ℕ × ℕ) → List ℕ
expired_udp_queries now queries [] = []
expired_udp_queries now queries ((k, q) ∷ es) =
    let rest = expired_udp_queries now queries es in
    if is_out_of_time now (queries q) then q ∷ rest else rest

-- SERVFAIL to the question of the query.
abbrev pub failure_of : UdpQuery → Message
failure_of q = record {
  header = record { id = 0; flags = 0x8182; qdcount = 0; ancount = 0; nscount = 0; arcount = 0 };
  questions = record { name = q.request_name; type = q.type; clas = q.clas } ∷ [];
  answers = [];
  authorities = [];
  additionals = [];
}

-- What is handed to `insert_failure` of the cache for the type, if there is one.
pub record StoredFailure : Type 0 where
  pub name : Bytes
  pub type : ℕ
  pub clas : ℕ
  pub failure : Message

abbrev pub stored_of : UdpQuery → StoredFailure
stored_of q = record { name = q.forward_name; type = q.type; clas = q.clas; failure = failure_of q }

-- A message and whom it is sent to; `buffer_size` is the option `edns0_buffer_size`.
abbrev pub Reply : Type 0
Reply = Waiter × Message

-- `sending.questions.front().name = name`
abbrev pub rename_front : Bytes → List Question → List Question
rename_front name [] = []
rename_front name (q ∷ qs) = record q { name = name } ∷ qs

unfoldable pub reply_to : ℕ → Message → Waiter → Reply
reply_to buffer_size failure w = (
  w,
  set_edns0 buffer_size
      (record failure {
        header = record failure.header { id = w.requester_id };
        questions = rename_front w.request_name failure.questions;
      })
      w.udp_payload 0,
)

pub record Cleaned : Type 0 where
  pub udp : Udp
  pub failures : List StoredFailure
  pub replies : List Reply

-- The body of the second loop.
unfoldable pub expire_udp_query : ℕ → Cleaned → ℕ → Cleaned
expire_udp_query buffer_size c q =
    let query = c.udp.queries q in
    let failure = failure_of query in
    if not (is_udp_query_active c.udp q) then c else record {
      udp = finish_udp_transaction c.udp query.local_transaction_id;
      failures = if has_cache query.type then c.failures ++ (stored_of query ∷ []) else c.failures;
      replies =
          c.replies ++ map (reply_to buffer_size failure) (c.udp.pendings query.pending).waiters;
    }

abbrev pub expire_udp_queries : ℕ → Cleaned → List ℕ → Cleaned
expire_udp_queries buffer_size c [] = c
expire_udp_queries buffer_size c (q ∷ qs) =
    expire_udp_queries buffer_size (expire_udp_query buffer_size c q) qs

unfoldable pub clean_expired_udp : ℕ → ℕ → Udp → Cleaned
clean_expired_udp buffer_size now s =
    expire_udp_queries buffer_size (record { udp = s; failures = []; replies = [] })
      (expired_udp_queries now s.queries s.by_local_txid)

-- The ids that are younger than the time that an upstream has.
unfoldable pub young_txids : ℕ → ℕ → List TransactionId → List TransactionId
young_txids now timeout [] = []
young_txids now timeout (i ∷ is) =
    let rest = young_txids now timeout is in
    if ltb (elapsed now i.timestamp) timeout then i ∷ rest else rest

unfoldable pub clean_active_txids : ℕ → ℕ → Udp → Udp
clean_active_txids now timeout s = record s {
  active_txids = young_txids now timeout s.active_txids;
}
