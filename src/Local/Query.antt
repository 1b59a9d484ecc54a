-- ===== src/Local/Query.antt =====
-- `Behind::process_local_query` and `Behind::reply_from_cache` of src/Behind.cpp.
use behind.Base.{
  ℕ, ◌+◌, min, max, Bool, not, ◌&&◌, ◌||◌, Option, none, some, [], ◌∷◌, Bytes, ◌==◌, if◌then◌else◌,
  codes, map,
}
use behind.Message.{Question, Rdata, Record, Message, class_in, is_empty}
use behind.Message.DnsType
use behind.Misc.{strtolower, ends_with}
use behind.MinTtl.{min_ttl_override_for}
use behind.Response.{set_edns0, client_edns_payload}
use behind.Cache.{Cache, find as cache_find}
use behind.DomainFilter.{Kind, find as filter_find}
use behind.Local.{
  AddrType, Addr, same_type, find_host, find_host_name_by_addr, parse_ptr_query_addr,
  accept_dns_type, has_cache, fake_soa, cache_min_ttl, Known, reply_flags, answer_to, made_record,
}

-- What is sent from what the server knows, or from the cache, or nothing.
pub data LocalAnswer : Type 0 where
  known : Message → LocalAnswer
  from_cache : Message → LocalAnswer
  not_local : LocalAnswer

module _ {Regex : Type 0} (matches : Regex → Bytes → Option Bool) (o : Known Regex) where
  abbrev pub ttl_or : Option ℕ → ℕ
  ttl_or none = cache_min_ttl
  ttl_or (some ttl) = max cache_min_ttl (min ttl o.max_ttl)

  abbrev pub local_ttl : Bytes → ℕ
  local_ttl name = ttl_or (min_ttl_override_for o.min_ttl_override name)

  -- `Send`
  abbrev pub sent : Message → Message → Message
  sent received m =
      set_edns0 o.edns0_buffer_size m (client_edns_payload o.edns0_buffer_size received) 0

  -- `MakeMessage`, sent: NODATA for the code 0 and NXDOMAIN for 3.
  abbrev pub negative : Message → Question → ℕ → Message
  negative received q code = sent received (
      answer_to received q (reply_flags received + code) []
        (record (made_record q 60 [] (Rdata.soa fake_soa)) { type = DnsType.soa } ∷ []))

  abbrev pub ptr_record : Question → Bytes → Record
  ptr_record q host_name = record (made_record q (local_ttl q.name) [] (Rdata.ptr host_name)) {
    type = DnsType.ptr;
  }

  abbrev pub block_reverse : Message → Question → Option Message
  block_reverse received q =
      if ends_with (strtolower q.name) (codes ".f.ip6.arpa")
      then some (negative received q 3)
      else none

  abbrev pub answer_name : Message → Question → Bytes → Option Message
  answer_name received q host_name =
      if is_empty host_name
      then block_reverse received q
      else some (
          sent received
            (answer_to received q (reply_flags received) (ptr_record q host_name ∷ []) []))

  abbrev pub answer_addr : Message → Question → Option Addr → Option Message
  answer_addr received q none = block_reverse received q
  answer_addr received q (some addr) = answer_name received q (find_host_name_by_addr o.hosts addr)

  unfoldable pub answer_ptr : Message → Question → Option Message
  answer_ptr received q =
      if q.type == DnsType.ptr then answer_addr received q (parse_ptr_query_addr q.name) else none

  abbrev pub addr_record : Question → Bytes → Record
  addr_record q bytes = made_record q (local_ttl q.name) bytes Rdata.null

  abbrev pub addresses : Message → Question → Addr → Message
  addresses received q addr =
      sent received (answer_to received q (reply_flags received) (map (addr_record q) addr.addr) [])

  abbrev pub answer_host : Message → Question → Option Addr → Option Message
  answer_host received q none = none
  answer_host received q (some addr) = some (
      if (q.type == DnsType.a && same_type addr.type AddrType.in4)
        || (q.type == DnsType.aaaa && same_type addr.type AddrType.in6)
      then addresses received q addr
      else negative received q 0)

  abbrev pub answer_kind : Message → Question → Kind → Option Message
  answer_kind received q Kind.nxdomain = some (negative received q 3)
  answer_kind received q Kind.nodata = some (negative received q 0)
  answer_kind received q Kind.nodata_aaaa =
      if q.type == DnsType.aaaa then some (negative received q 0) else none
  answer_kind received q Kind.normal = none

  abbrev pub cached_answer : Message → Question → Cache × Option Message → Cache × LocalAnswer
  cached_answer received q (c, none) = (c, LocalAnswer.not_local)
  cached_answer received q (c, some item) = (
    c,
    LocalAnswer.from_cache
        (sent received (answer_to received q item.header.flags item.answers item.authorities)),
  )

  unfoldable pub reply_from_cache : Cache → ℕ → Message → Question → Cache × LocalAnswer
  reply_from_cache c now received q =
      if has_cache q.type
      then cached_answer received q (cache_find c now q.name q.type q.clas)
      else (c, LocalAnswer.not_local)

  -- The first of these answers that there is, and the cache last.
  abbrev pub first_known :
      Cache
      → Option Message
      → Option Message
      → Option Message
      → Cache × LocalAnswer
      → Cache × LocalAnswer
  first_known c (some m) host kind rest = (c, LocalAnswer.known m)
  first_known c none (some m) kind rest = (c, LocalAnswer.known m)
  first_known c none none (some m) rest = (c, LocalAnswer.known m)
  first_known c none none none rest = rest

  unfoldable pub process_local_query : Cache → ℕ → Message → Question → Cache × LocalAnswer
  process_local_query c now received q =
      if not (q.clas == class_in) || is_empty q.name
      then (c, LocalAnswer.not_local)
      else if not (accept_dns_type q.type)
      then (c, LocalAnswer.known (negative received q 0))
      else first_known c (answer_ptr received q) (answer_host received q (find_host o.hosts q.name))
          (answer_kind received q (filter_find matches o.domain_filter q.name))
          (reply_from_cache c now received q)
