-- ===== src/Clean/Steps.antt =====
-- The queries over UDP as a state machine: what may happen to them, one step after the other.
use behind.Base.{ℕ, ◌+◌, ◌<◌, ◌^◌, ◌≡◌, [], List, All-mono, true}
use behind.Message.{Question}
use behind.Udp.{Udp, Waiter, is_udp_query_active, finish_udp_query, finish_udp_transaction}
use behind.Udp.Ask.{Attempt, Options, process_query_udp}
use behind.Udp.Valid.{IsValid}
use behind.Udp.Finish.{finish_udp_query-IsValid, finish_udp_transaction-Finished}
use behind.Udp.Handle.{process_query_udp-Handled}
use behind.Udp.Linked.{
  AreLinked, process_query_udp-AreLinked, finish_udp_query-AreLinked, finish_udp_transaction-Ended,
}
use behind.Clean.{clean_expired_udp, clean_active_txids}
use behind.Clean.Answers.{clean_expired_udp-IsCleaned}

-- A client asks, a response or an error ends a query or its whole transaction, and the cleaning
-- ends what is out of time and drops old transaction ids. A client asks only while the counter of
-- transactions, of 32 bits, does not wrap: the steps are those of one turn of the counter.
pub data Step (o : Options) (buffer_size : ℕ) : Udp → Udp → Type 0 where
  ask :
      {s : Udp} (question : Question) (w : Waiter) (attempts : List Attempt)
      → s.local_transaction_id + 1 < 2 ^ 32
      → Step o buffer_size s (process_query_udp o s question w attempts).0
  end_query :
      {s : Udp} (q : ℕ)
      → is_udp_query_active s q ≡ true
      → Step o buffer_size s (finish_udp_query s q)
  end_transaction :
      {s : Udp} (local_transaction_id : ℕ)
      → Step o buffer_size s (finish_udp_transaction s local_transaction_id)
  expire : {s : Udp} (now : ℕ) → Step o buffer_size s (clean_expired_udp buffer_size now s).udp
  forget_txids :
      {s : Udp} (now : ℕ) → Step o buffer_size s (clean_active_txids now o.upstream_timeout_ms s)

-- The states that are so reached from one with nothing in flight.
pub data Reachable (o : Options) (buffer_size : ℕ) : Udp → Type 0 where
  idle : {s : Udp} → s.by_local_txid ≡ [] → s.pending_udp ≡ [] → Reachable o buffer_size s
  then_step :
      {s d : Udp} → Reachable o buffer_size s → Step o buffer_size s d → Reachable o buffer_size d

abbrev pub IsSound : Udp → Type 0
IsSound s = IsValid s × AreLinked s

idle-IsSound : (s : Udp) → s.by_local_txid ≡ [] → s.pending_udp ≡ [] → IsSound s
idle-IsSound s e p = (record { entries = rw e tt; waiting = rw p tt }, rw e tt)

forget_txids-IsSound :
    (now timeout : ℕ) (s : Udp) → IsSound s → IsSound (clean_active_txids now timeout s)
unfolding clean_active_txids
forget_txids-IsSound now timeout s (v, links) = (
  record {
    entries =
        All-mono _ _ s.by_local_txid
          (λ e h. record { own_id = h.own_id; old = h.old; before = h.before; owner = h.owner })
          v.entries;
    waiting =
        All-mono _ _ s.pending_udp
          (λ w h. record {
            own_key = h.own_key;
            found = h.found;
            old = h.old;
            before = h.before;
            live = h.live;
          })
          v.waiting;
  },
  All-mono _ _ s.by_local_txid (λ e h. record { old = h.old; known = h.known; linked = h.linked })
      links,
)

Step-IsSound : {o : Options} {b : ℕ} {s d : Udp} → Step o b s d → IsSound s → IsSound d
Step-IsSound {o} {b} {s} (ask question w attempts more) (v, links) = (
  (process_query_udp-Handled o s question w attempts v more).valid,
  process_query_udp-AreLinked o s question w attempts links,
)
Step-IsSound {o} {b} {s} (end_query q active) (v, links) =
    (finish_udp_query-IsValid s q v active, finish_udp_query-AreLinked s q v active links)
Step-IsSound {o} {b} {s} (end_transaction id) (v, links) = (
  (finish_udp_transaction-Finished s id v).valid,
  (finish_udp_transaction-Ended s id v links).links,
)
Step-IsSound {o} {b} {s} (expire now) (v, links) =
    let c = clean_expired_udp-IsCleaned b now s v links in (c.valid, c.links)
Step-IsSound {o} {b} {s} (forget_txids now) h = forget_txids-IsSound now o.upstream_timeout_ms s h

-- In every state that is reached before the counter of transactions wraps, whoever waits does so for
-- a query in flight, under a key that finds the entry, and each query in flight belongs to the entry
-- of its own transaction.
pub Reachable-IsSound : {o : Options} {b : ℕ} {s : Udp} → Reachable o b s → IsSound s
Reachable-IsSound {s = s} (idle e p) = idle-IsSound s e p
Reachable-IsSound (then_step before step) = Step-IsSound step (Reachable-IsSound before)
