-- ===== src/Local.antt =====
-- Answers that the server knows itself: `Behind::process_local_query` of src/Behind.cpp, with the
-- hosts, the names of addresses, the filter and the cache. The hosts are as `update_hosts_files`
-- left them.
pub mod Query
pub mod Passes
mod Tests
use behind.Base.{
  ℕ, zero, suc, ◌+◌, ◌-◌, ◌*◌, ◌/◌, ◌%◌, ◌^◌, min, max, Bool, true, false, not, ◌&&◌, ◌||◌, Option,
  none, some, List, [], ◌∷◌, Bytes, ltb, leb, ◌==◌, if◌then◌else◌, length, get_or, take, bytes_eq,
  map, codes, is_digit, to_lower,
}
use behind.Message.{Header, Question, Soa, Rdata, Record, Message, class_in, is_empty}
use behind.Message.DnsType
use behind.Misc.{strtolower, back_is, init, ends_with, parse_int}
use behind.Name.{cons_first}
use behind.MinTtl.{MinTtlOverride, min_ttl_override_for}
use behind.Response.{set_edns0, client_edns_payload}
use behind.Cache.{Cache, find as cache_find}
use behind.DomainFilter.{DomainFilter, Kind, find as filter_find}

-- ## Hosts

pub data AddrType : Type 0 where
  unspec : AddrType
  in4 : AddrType
  in6 : AddrType

-- `InetResolver::Addr`
pub record Addr : Type 0 where
  pub type : AddrType
  pub addr : List Bytes

abbrev pub same_type : AddrType → AddrType → Bool
same_type AddrType.unspec AddrType.unspec = true
same_type AddrType.in4 AddrType.in4 = true
same_type AddrType.in6 AddrType.in6 = true
same_type _ _ = false

-- `map_`, in the order of its iteration; each key is there once.
abbrev pub Hosts : Type 0
Hosts = List (Bytes × Addr)

unfoldable pub find_in : Bytes → Hosts → Option Addr
find_in key [] = none
find_in key ((k, a) ∷ es) = if bytes_eq k key then some a else find_in key es

abbrev pub or_host : Option Addr → Option Addr → Option Addr
or_host none rest = rest
or_host (some a) rest = some a

unfoldable pub find_host : List Hosts → Bytes → Option Addr
find_host [] name = none
find_host (h ∷ hs) name = or_host (find_in (strtolower name) h) (find_host hs name)

abbrev pub has_bytes : Bytes → List Bytes → Bool
has_bytes b [] = false
has_bytes b (c ∷ cs) = bytes_eq b c || has_bytes b cs

abbrev pub share_bytes : List Bytes → List Bytes → Bool
share_bytes [] bs = false
share_bytes (a ∷ rest) bs = has_bytes a bs || share_bytes rest bs

unfoldable pub name_in : Addr → Hosts → Option Bytes
name_in addr [] = none
name_in addr ((k, a) ∷ es) =
    if same_type a.type addr.type && share_bytes a.addr addr.addr then some k else name_in addr es

abbrev pub or_name : Option Bytes → Bytes → Bytes
or_name none rest = rest
or_name (some k) rest = k

unfoldable pub find_host_name_by_addr : List Hosts → Addr → Bytes
find_host_name_by_addr [] addr = []
find_host_name_by_addr (h ∷ hs) addr = or_name (name_in addr h) (find_host_name_by_addr hs addr)

-- ## Names of addresses

-- A last label that is empty is none.
unfoldable pub split_domain_labels : Bytes → List Bytes
split_domain_labels [] = []
split_domain_labels (c ∷ cs) =
    let rest = split_domain_labels cs in if c == b'.' then [] ∷ rest else cons_first c rest

abbrev pub or_zero : Option ℕ → ℕ
or_zero none = 0
or_zero (some v) = v

-- The bytes of an address, the last label first, in front of `bytes`.
unfoldable pub ptr_bytes : List Bytes → Bytes → Option Bytes
ptr_bytes [] bytes = some bytes
ptr_bytes (l ∷ ls) bytes =
    let p = parse_int l in
    let v = or_zero p.1 in
    let rest = ptr_bytes ls (v ∷ bytes) in if not (p.0 == length l) || ltb 255 v then none else rest

abbrev pub is_xdigit : ℕ → Bool
is_xdigit c = is_digit c || (leb b'a' (to_lower c) && leb (to_lower c) b'f')

abbrev pub nibble_of : ℕ → ℕ
nibble_of c = if is_digit c then c - b'0' else to_lower c - b'a' + 10

unfoldable pub ptr_nibbles : List Bytes → Bytes → Option Bytes
ptr_nibbles [] nibbles = some nibbles
ptr_nibbles (l ∷ ls) nibbles =
    let c = get_or l 0 0 in
    let rest = ptr_nibbles ls (nibble_of c ∷ nibbles) in
    if not (length l == 1) || not (is_xdigit c) then none else rest

abbrev pub join_nibbles : Bytes → Bytes
join_nibbles [] = []
join_nibbles (h ∷ []) = (h * 16) ∷ []
join_nibbles (h ∷ l ∷ rest) = (h * 16 + l) ∷ join_nibbles rest

abbrev pub addr_of : AddrType → Option Bytes → Option Addr
addr_of t none = none
addr_of t (some b) = some (record { type = t; addr = b ∷ [] })

abbrev pub join_all : Option Bytes → Option Bytes
join_all none = none
join_all (some nibbles) = some (join_nibbles nibbles)

unfoldable pub parse_ptr_query_addr : Bytes → Option Addr
parse_ptr_query_addr name =
    let lower = strtolower name in
    let loname = if back_is b'.' lower then init lower else lower in
    let labels = split_domain_labels loname in
    if length labels == 6
      && bytes_eq (get_or labels 4 []) (codes "in-addr")
      && bytes_eq (get_or labels 5 []) (codes "arpa")
    then addr_of AddrType.in4 (ptr_bytes (take 4 labels) [])
    else if length labels == 34
        && bytes_eq (get_or labels 32 []) (codes "ip6")
        && bytes_eq (get_or labels 33 []) (codes "arpa")
    then addr_of AddrType.in6 (join_all (ptr_nibbles (take 32 labels) []))
    else none

-- ## process_local_query

unfoldable pub accept_dns_type : ℕ → Bool
accept_dns_type t =
    t == DnsType.a
    || t == DnsType.aaaa
    || t == DnsType.cname
    || t == DnsType.https
    || t == DnsType.mx
    || t == DnsType.ns
    || t == DnsType.opt
    || t == DnsType.ptr
    || t == DnsType.soa
    || t == DnsType.txt

-- Whether `get_cache` finds one.
abbrev pub has_cache : ℕ → Bool
has_cache t = not (t == DnsType.opt) && accept_dns_type t

abbrev pub fake_soa : Soa
fake_soa = record {
  nname = codes "ns.example.invalid";
  rname = codes "admin.example.invalid";
  serial = 1;
  refresh = 3600;
  retry = 600;
  expire = 1800;
  minimum = 60;
}

abbrev pub cache_min_ttl : ℕ
cache_min_ttl = 10

-- What the server knows; `edns0_buffer_size` and `max_ttl` are options.
pub record Known (Regex : Type 0) : Type 0 where
  pub hosts : List Hosts
  pub domain_filter : DomainFilter Regex
  pub min_ttl_override : List MinTtlOverride
  pub max_ttl : ℕ
  pub edns0_buffer_size : ℕ

-- `0x8080 | (flags & 0x0100)`
abbrev pub reply_flags : Message → ℕ
reply_flags received = 0x8080 + received.header.flags / 2 ^ 8 % 2 * 2 ^ 8

abbrev pub answer_to : Message → Question → ℕ → List Record → List Record → Message
answer_to received q flags answers authorities = record {
  header = record {
    id = received.header.id;
    flags = flags;
    qdcount = 0;
    ancount = 0;
    nscount = 0;
    arcount = 0;
  };
  questions = q ∷ [];
  answers = answers;
  authorities = authorities;
  additionals = [];
}

-- A record that is made here: no `expire`, not marked as one of the cache.
abbrev pub made_record : Question → ℕ → Bytes → Rdata → Record
made_record q ttl bin sp = record {
  name = q.name;
  type = q.type;
  clas = q.clas;
  ttl = ttl;
  expire = 0;
  bin = bin;
  sp = sp;
  cacheable = true;
}
