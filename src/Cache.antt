-- ===== src/Cache.antt =====
-- `dns::Cache` of src/Behind.cpp: a list in the order of use, with an index from keys to the
-- list's nodes. An iterator is the number of its node; the clock is an argument.
pub mod Charge
pub mod Nodes
pub mod Valid
pub mod Evict
pub mod Insert
pub mod Find
pub mod Runs
pub mod Recall
pub mod Negative
mod Tests
use behind.Base.{
  ℕ, zero, suc, ◌+◌, ◌-◌, ◌*◌, ◌/◌, ◌%◌, ◌^◌, min, max, Bool, true, false, not, ◌&&◌, ◌||◌, Option,
  none, some, List, [], ◌∷◌, ◌++◌, Bytes, ltb, leb, ◌==◌, if◌then◌else◌, length, bytes_eq, map,
  get_or,
}
use behind.Message.DnsType
use behind.Misc.{strtolower}
use behind.Message.{
  Rdata, null, cname, ptr, ns, mx, soa, https, Record, Message, Soa, Question, get_soa, rcode,
  is_empty,
}
use behind.Cache.Charge.{
  CacheKey, Sizes, add_size, add_sizes, key_eq, make_key, message_size, questions_size, rdata_sizes,
  record_size, records_size, size_max, wrap,
}

-- ## The state

pub record Item : Type 0 where
  pub node : ℕ
  pub key : CacheKey
  pub expire : ℕ
  pub charge : ℕ
  pub value : Message

-- `next` numbers the node that the list allocates next.
pub record Cache : Type 0 where
  pub items : List Item
  pub index : List (CacheKey × ℕ)
  pub next : ℕ
  pub bytes : ℕ
  pub max_bytes : ℕ
  pub max_entries : ℕ
  pub max_entry_size : ℕ
  pub max_ttl : ℕ

-- ### The list and the index

unfoldable pub item_at : ℕ → List Item → Option Item
item_at n [] = none
item_at n (i ∷ is) = if i.node == n then some i else item_at n is

unfoldable pub remove_node : ℕ → List Item → List Item
remove_node n [] = []
remove_node n (i ∷ is) = if i.node == n then is else i ∷ remove_node n is

unfoldable pub index_find : CacheKey → List (CacheKey × ℕ) → Option ℕ
index_find k [] = none
index_find k ((j, n) ∷ rest) = if key_eq j k then some n else index_find k rest

unfoldable pub index_erase : CacheKey → List (CacheKey × ℕ) → List (CacheKey × ℕ)
index_erase k [] = []
index_erase k ((j, n) ∷ rest) =
    if key_eq j k then index_erase k rest else (j, n) ∷ index_erase k rest

-- `index_[key] = n`
unfoldable pub index_set : CacheKey → ℕ → List (CacheKey × ℕ) → List (CacheKey × ℕ)
index_set k n idx = (k, n) ∷ index_erase k idx

-- The last node, `std::prev(items_.end())`.
unfoldable pub last_node : List Item → Option ℕ
last_node [] = none
last_node (i ∷ []) = some i.node
last_node (i ∷ j ∷ is) = last_node (j ∷ is)

-- ## The operations

-- `erase`; at an iterator of no node, which is undefined in C++, nothing happens.
unfoldable pub erase : Cache → ℕ → Cache
erase c n = elim (item_at n c.items) [
  | none ↦ c
  | some i ↦ record c {
    bytes = if leb i.charge c.bytes then c.bytes - i.charge else 0;
    index = index_erase i.key c.index;
    items = remove_node n c.items;
  }
]

-- `max_bytes_ - bytes_`, of unsigned numbers.
abbrev pub free_bytes : Cache → ℕ
free_bytes c = (c.max_bytes + 2 ^ 64 - c.bytes) % 2 ^ 64

-- The test of the loop that makes room.
unfoldable pub needs_room : Cache → ℕ → Bool
needs_room c charge =
    not (is_empty c.items) && (leb c.max_entries (length c.items) || ltb (free_bytes c) charge)

unfoldable pub erase_last : Cache → Cache
erase_last c = elim (last_node c.items) [ none ↦ c | some n ↦ erase c n ]

-- The loop, with a fuel of one for each entry.
unfoldable pub evict : ℕ → Cache → ℕ → Cache
evict zero c charge = c
evict (suc fuel) c charge = elim (needs_room c charge) [
  | true ↦ evict fuel (erase_last c) charge
  | false ↦ c
]

unfoldable pub age_record : ℕ → Record → Record
age_record now r = record r {
  ttl = if ltb now r.expire then (r.expire - now) / 1000 % 2 ^ 32 else 0;
}

-- `update_ttls`
unfoldable pub update_ttls : List Record → ℕ → List Record
unfolding age_record
update_ttls rs now = map (age_record now) rs

-- The copy that `find` returns.
unfoldable pub aged : ℕ → Message → Message
unfolding update_ttls
aged now m = record m {
  answers = update_ttls m.answers now;
  authorities = update_ttls m.authorities now;
}

unfoldable pub stamp_record : Cache → ℕ → ℕ → Record → Record
stamp_record c now expire r = record r {
  expire = min expire ((now + min r.ttl c.max_ttl * 1000) % 2 ^ 64);
}

-- The copy that `insert_with_ttl` keeps.
unfoldable pub stamped : Cache → ℕ → ℕ → Message → Message
unfolding stamp_record
stamped c now expire m = record m {
  answers = map (stamp_record c now expire) m.answers;
  authorities = map (stamp_record c now expire) m.authorities;
  additionals = [];
}

abbrev pub expiry : Cache → ℕ → ℕ → ℕ
expiry c now ttl = (now + min ttl c.max_ttl * 1000) % 2 ^ 64

unfoldable pub forget : Cache → CacheKey → Cache
forget c key = elim (index_find key c.index) [ none ↦ c | some n ↦ erase c n ]

abbrev pub fits : Cache → ℕ → Bool
fits c charge = not (charge == size_max || ltb c.max_entry_size charge || ltb c.max_bytes charge)

-- The entry at the front of the list and of the index.
unfoldable pub push_entry : Cache → CacheKey → ℕ → ℕ → Message → Cache
push_entry c key expire charge value = record c {
  items =
      record { node = c.next; key = key; expire = expire; charge = charge; value = value }
      ∷ c.items;
  index = index_set key c.next c.index;
  next = c.next + 1;
  bytes = (c.bytes + charge) % 2 ^ 64;
}

unfoldable pub insert_with_ttl : Sizes → Cache → ℕ → CacheKey → Message → ℕ → Cache
insert_with_ttl z c now key m ttl =
    let expire = expiry c now ttl in
    let value = stamped c now expire m in
    let charge = message_size z key value in
    let d = forget c key in
    if ttl == 0
    then c
    else if not (fits c charge)
    then c
    else push_entry (evict (length d.items) d charge) key expire charge value

-- The loop over the authorities, up to the first SOA record that carries its data.
unfoldable pub negative_ttl : List Record → Option ℕ
negative_ttl [] = none
negative_ttl (r ∷ rs) = elim (get_soa r) [
  | none ↦ negative_ttl rs
  | some s ↦ some (min r.ttl s.minimum)
]

-- The loop over the answers; `none` is its early return.
unfoldable pub positive_ttl : ℕ → List Record → Option ℕ
positive_ttl ttl [] = some ttl
positive_ttl ttl (r ∷ rs) = if r.ttl == 0 then none else positive_ttl (min ttl r.ttl) rs

abbrev pub uint32_max : ℕ
uint32_max = 2 ^ 32 - 1

-- The time to live of a message, if it is one to keep.
unfoldable pub message_ttl : Message → Option ℕ
unfolding negative_ttl positive_ttl
message_ttl m =
    if rcode m == 3 || (rcode m == 0 && is_empty m.answers)
    then negative_ttl m.authorities
    else if rcode m == 0 && not (is_empty m.answers)
    then positive_ttl uint32_max m.answers
    else none

unfoldable pub insert : Sizes → Cache → ℕ → Bytes → ℕ → ℕ → Message → Cache
insert z c now name type clas m = elim (message_ttl m) [
  | none ↦ c
  | some ttl ↦
      if ttl == uint32_max || ttl == 0
      then c
      else insert_with_ttl z c now (make_key name type clas) m ttl
]

unfoldable pub insert_failure : Sizes → Cache → ℕ → Bytes → ℕ → ℕ → Message → ℕ → Cache
insert_failure z c now name type clas m ttl =
    insert_with_ttl z c now (make_key name type clas) m (min 300 (max 1 ttl))

-- The node moved to the front, `items_.splice(items_.begin(), items_, item)`.
abbrev pub to_front : Item → List Item → List Item
to_front i is = i ∷ remove_node i.node is

unfoldable pub find_key : Cache → ℕ → CacheKey → Cache × Option Message
find_key c now key = elim (index_find key c.index) [
  | none ↦ (c, none)
  | some n ↦ elim (item_at n c.items) [
    | none ↦ (c, none)
    | some i ↦ if leb i.expire now then (erase c n, none) else (
      record c { items = to_front i c.items; index = index_set key i.node c.index },
      some (aged now i.value),
    )
  ]
]

unfoldable pub find : Cache → ℕ → Bytes → ℕ → ℕ → Cache × Option Message
find c now name type clas = find_key c now (make_key name type clas)

-- ## The settings

abbrev pub max_entries_limit : ℕ
max_entries_limit = 1_000_000

-- A cache as it is declared.
abbrev pub initial : Cache
initial = record {
  items = [];
  index = [];
  next = 0;
  bytes = 0;
  max_bytes = 64 * 1024 * 1024;
  max_entries = max_entries_limit;
  max_entry_size = 65535;
  max_ttl = 86400;
}

unfoldable pub set_max_bytes : Cache → ℕ → Cache
set_max_bytes c value = record c {
  max_bytes = value;
  max_entries = max 4096 (min (value / 512) max_entries_limit);
}

abbrev pub set_max_entry_size : Cache → ℕ → Cache
set_max_entry_size c value = record c { max_entry_size = value }

abbrev pub set_max_ttl : Cache → ℕ → Cache
set_max_ttl c value = record c { max_ttl = value }
