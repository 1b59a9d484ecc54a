-- ===== src/Udp.antt =====
-- The queries in flight over UDP, of src/Behind.cpp: who waits for what (`pending_udp`), the two
-- indexes of the upstream queries (`udp_queries_by_local_txid`, `udp_queries_by_socket_txid`),
-- and the transaction ids in use (`active_txids_`). A shared_ptr is the number of the object in a
-- heap; what the sockets, the clock and the random numbers bring is an argument.
pub mod Ask
pub mod Index
pub mod Valid
pub mod Finish
pub mod Start
pub mod Process
pub mod Handle
pub mod Linked
mod Tests
use behind.Base.{
  ℕ, zero, suc, ◌+◌, ◌-◌, ◌*◌, ◌/◌, ◌%◌, ◌^◌, Bool, true, false, not, ◌&&◌, ◌||◌, Option, none,
  some, List, [], ◌∷◌, ◌++◌, Bytes, ltb, leb, ◌==◌, if◌then◌else◌, length, bytes_eq,
}
use behind.Message.{Question}

pub record Waiter : Type 0 where
  pub address : Bytes
  pub requester_id : ℕ
  pub udp_payload : ℕ
  pub request_name : Bytes

pub record PendingQuery : Type 0 where
  pub key : Bytes
  pub transaction_id : ℕ
  pub waiters : List Waiter

pub record UdpQuery : Type 0 where
  pub timestamp : ℕ
  pub timeout : ℕ
  pub local_transaction_id : ℕ
  pub upstream_id : ℕ
  pub type : ℕ
  pub clas : ℕ
  pub request_name : Bytes
  pub forward_name : Bytes
  pub forwarder : Bytes
  pub channel_fd : ℕ
  pub pending : ℕ

-- A key of `active_txids_`: the address of the forwarder and the id.
pub record TransactionId : Type 0 where
  pub addr : Bytes
  pub txid : ℕ
  pub timestamp : ℕ

-- Objects by their number; `next_query` and `next_pending` are not in use yet. `task_count` is
-- the size of `tasks_by_fd`, and `channels` has the queries in flight of each socket.
pub record Udp : Type 0 where
  pub queries : ℕ → UdpQuery
  pub next_query : ℕ
  pub pendings : ℕ → PendingQuery
  pub next_pending : ℕ
  pub by_local_txid : List (ℕ × ℕ)
  pub by_socket_txid : List (ℕ × ℕ)
  pub pending_udp : List (Bytes × ℕ)
  pub channels : List (ℕ × ℕ)
  pub active_txids : List TransactionId
  pub local_transaction_id : ℕ
  pub task_count : ℕ

abbrev pub set {ℓ} : {A : Type ℓ} → (ℕ → A) → ℕ → A → ℕ → A
set h i a j = if j == i then a else h j

-- ## The indexes

-- The entry of a key and an object, once.
unfoldable pub erase_entry : ℕ → ℕ → List (ℕ × ℕ) → List (ℕ × ℕ)
erase_entry k q [] = []
erase_entry k q ((j, r) ∷ es) = if j == k && r == q then es else (j, r) ∷ erase_entry k q es

unfoldable pub has_entry : ℕ → ℕ → List (ℕ × ℕ) → Bool
has_entry k q [] = false
has_entry k q ((j, r) ∷ es) = (j == k && r == q) || has_entry k q es

unfoldable pub count : ℕ → List (ℕ × ℕ) → ℕ
count k [] = 0
count k ((j, r) ∷ es) = if j == k then suc (count k es) else count k es

-- The objects of a key, `equal_range`.
unfoldable pub siblings : ℕ → List (ℕ × ℕ) → List ℕ
siblings k [] = []
siblings k ((j, r) ∷ es) = if j == k then r ∷ siblings k es else siblings k es

unfoldable pub pending_find : Bytes → List (Bytes × ℕ) → Option ℕ
pending_find k [] = none
pending_find k ((j, p) ∷ es) = if bytes_eq j k then some p else pending_find k es

unfoldable pub pending_erase : Bytes → List (Bytes × ℕ) → List (Bytes × ℕ)
pending_erase k [] = []
pending_erase k ((j, p) ∷ es) =
    if bytes_eq j k then pending_erase k es else (j, p) ∷ pending_erase k es

-- One query less on a channel, if there is one.
unfoldable pub leave_channel : ℕ → List (ℕ × ℕ) → List (ℕ × ℕ)
leave_channel fd [] = []
leave_channel fd ((c, n) ∷ cs) = if c == fd then (c, n - 1) ∷ cs else (c, n) ∷ leave_channel fd cs

unfoldable pub enter_channel : ℕ → List (ℕ × ℕ) → List (ℕ × ℕ)
enter_channel fd [] = []
enter_channel fd ((c, n) ∷ cs) = if c == fd then (c, n + 1) ∷ cs else (c, n) ∷ enter_channel fd cs

-- The channel that is new is put behind the others.
unfoldable pub open_channel : ℕ → List (ℕ × ℕ) → List (ℕ × ℕ)
open_channel fd [] = (fd, 0) ∷ []
open_channel fd ((c, n) ∷ cs) = if c == fd then (c, n) ∷ cs else (c, n) ∷ open_channel fd cs

-- `udp_socket_txid_key`
abbrev pub udp_socket_txid_key : ℕ → ℕ → ℕ
udp_socket_txid_key fd txid = fd % 2 ^ 32 * 2 ^ 32 + txid

-- ## Transaction ids

abbrev pub same_txid : Bytes → ℕ → TransactionId → Bool
same_txid addr txid i = bytes_eq i.addr addr && i.txid == txid

unfoldable pub is_in_use : Bytes → ℕ → List TransactionId → Bool
is_in_use addr txid [] = false
is_in_use addr txid (i ∷ is) = same_txid addr txid i || is_in_use addr txid is

-- The loop of `allocate_txid`, over the random numbers that it draws.
unfoldable pub draw_txid : Bytes → List TransactionId → List ℕ → Option ℕ
draw_txid addr ids [] = none
draw_txid addr ids (r ∷ rs) =
    if is_in_use addr (r % 2 ^ 16) ids then draw_txid addr ids rs else some (r % 2 ^ 16)

unfoldable pub remove_txid : Bytes → ℕ → List TransactionId → List TransactionId
remove_txid addr txid [] = []
remove_txid addr txid (i ∷ is) =
    if same_txid addr txid i then remove_txid addr txid is else i ∷ remove_txid addr txid is

unfoldable pub release_txid : Udp → Bytes → ℕ → Udp
release_txid s addr txid = record s { active_txids = remove_txid addr txid s.active_txids }

-- ## The end of a query

unfoldable pub is_udp_query_active : Udp → ℕ → Bool
is_udp_query_active s q = has_entry (s.queries q).local_transaction_id q s.by_local_txid

-- Whether the query was the last one of its transaction, and its entry waits under its key.
abbrev pub is_orphan : List (ℕ × ℕ) → List (Bytes × ℕ) → UdpQuery → Bytes → Bool
is_orphan entries pendings q key =
    count q.local_transaction_id entries == 0
    && elim (pending_find key pendings) [ none ↦ false | some p ↦ p == q.pending ]

unfoldable pub finish_udp_query : Udp → ℕ → Udp
finish_udp_query s q =
    let query = s.queries q in
    let key = (s.pendings query.pending).key in
    let entries = erase_entry query.local_transaction_id q s.by_local_txid in
    release_txid
      (record s {
        channels = leave_channel query.channel_fd s.channels;
        by_local_txid = entries;
        by_socket_txid =
            erase_entry (udp_socket_txid_key query.channel_fd query.upstream_id) q s.by_socket_txid;
        pending_udp =
            if is_orphan entries s.pending_udp query key
            then pending_erase key s.pending_udp
            else s.pending_udp;
      })
      query.forwarder query.upstream_id

abbrev pub finish_all : Udp → List ℕ → Udp
finish_all s [] = s
finish_all s (q ∷ qs) = finish_all (finish_udp_query s q) qs

unfoldable pub finish_udp_transaction : Udp → ℕ → Udp
finish_udp_transaction s local_transaction_id =
    finish_all s (siblings local_transaction_id s.by_local_txid)
