-- ===== src/Udp/Valid.antt =====
-- The invariant of the queries in flight: whoever waits, waits for a query that is in flight.
use behind.Base.{ℕ, ◌<◌, ◌≡◌, ◌⊎◌, Option, none, some, Bytes, All}
use behind.Udp.{Udp, count, pending_find}

-- The transaction that a waiting entry stands for.
abbrev pub transaction_of : Udp → ℕ → ℕ
transaction_of s p = (s.pendings p).transaction_id

-- An entry of `udp_queries_by_local_txid`.
pub record IsEntry (s : Udp) (e : ℕ × ℕ) : Type 0 where
  pub own_id : (s.queries e.1).local_transaction_id ≡ e.0
  pub old : e.1 < s.next_query
  pub before : e.0 < s.local_transaction_id
  pub owner : All (λ w. transaction_of s w.1 ≡ e.0 → (s.queries e.1).pending ≡ w.1) s.pending_udp

-- An entry of `pending_udp`: the one of its key, and a query of its transaction is in flight. The
-- transaction `opening` may have none yet.
pub record IsWaiting (opening : Option ℕ) (s : Udp) (w : Bytes × ℕ) : Type 0 where
  pub own_key : (s.pendings w.1).key ≡ w.0
  pub found : pending_find w.0 s.pending_udp ≡ some w.1
  pub old : w.1 < s.next_pending
  pub before : transaction_of s w.1 < s.local_transaction_id
  pub live :
      (opening ≡ some (transaction_of s w.1)) ⊎ (0 < count (transaction_of s w.1) s.by_local_txid)

pub record IsValidBut (opening : Option ℕ) (s : Udp) : Type 0 where
  pub entries : All (IsEntry s) s.by_local_txid
  pub waiting : All (IsWaiting opening s) s.pending_udp

abbrev pub IsValid : Udp → Type 0
IsValid s = IsValidBut none s
