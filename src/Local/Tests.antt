-- ===== src/Local/Tests.antt =====
-- A host, the name of its address, a blocked name, and the theorem at a concrete input.
use behind.Base.{ℕ, ◌≡◌, refl, some, none, Option, Bool, [], ◌∷◌, codes, Bytes, bytes_eq, to_lower}
use behind.Message.{Question, Message, Rdata, class_in}
use behind.Message.DnsType
use behind.Misc.{strtolower, ends_with, parse_int_loop, parse_int}
use behind.MinTtl.{best_override, min_ttl_override_for}
use behind.Name.{cons_first}
use behind.Response.{set_edns0, client_edns_payload, edns_payload, without_opt}
use behind.Cache.{initial}
use behind.DomainFilter.{no_rules}
use behind.Local.{
  AddrType, Addr, find_in, find_host, name_in, find_host_name_by_addr, split_domain_labels,
  ptr_bytes, ptr_nibbles, parse_ptr_query_addr, accept_dns_type, Known, made_record,
}
use behind.Local.Query.{LocalAnswer, answer_ptr, reply_from_cache, process_local_query}
use behind.Local.Passes.{IsLocal, process_local_query-IsLocal}

program : Unit {0}
unfolding strtolower ends_with parse_int_loop parse_int min_ttl_override_for set_edns0
    client_edns_payload edns_payload without_opt find_in find_host name_in find_host_name_by_addr
    split_domain_labels ptr_bytes ptr_nibbles parse_ptr_query_addr accept_dns_type answer_ptr
    reply_from_cache process_local_query bytes_eq to_lower best_override cons_first
program = tt

abbrev printer : Addr
printer = record { type = AddrType.in4; addr = (10 ∷ 0 ∷ 0 ∷ 7 ∷ []) ∷ [] }

abbrev known : Known (Unit {0})
known = record {
  hosts = ((codes "printer.lan", printer) ∷ []) ∷ [];
  domain_filter = no_rules;
  min_ttl_override = [];
  max_ttl = 86400;
  edns0_buffer_size = 1232;
}

abbrev matches : Unit {0} → Bytes → Option Bool
matches r name = none

ask : Bytes → ℕ → Question
ask name type = record { name = name; type = type; clas = class_in }

abbrev query_of : Question → Message
query_of q = record {
  header = record { id = 77; flags = 0x0100; qdcount = 1; ancount = 0; nscount = 0; arcount = 0 };
  questions = q ∷ [];
  answers = [];
  authorities = [];
  additionals = [];
}

abbrev answer_with : Question → Rdata → Bytes → LocalAnswer
answer_with q sp bin = LocalAnswer.known (record {
  header = record { id = 77; flags = 0x8180; qdcount = 0; ancount = 0; nscount = 0; arcount = 0 };
  questions = q ∷ [];
  answers = made_record q 10 bin sp ∷ [];
  authorities = [];
  additionals = [];
})

-- The address of a host, its name, and the address that stands in a name of PTR.
local_test :
    ((process_local_query matches known initial 0
        (query_of (ask (codes "Printer.LAN") DnsType.a))
        (ask (codes "Printer.LAN") DnsType.a)).1
      ≡ answer_with (ask (codes "Printer.LAN") DnsType.a) Rdata.null (10 ∷ 0 ∷ 0 ∷ 7 ∷ []))
    × ((process_local_query matches known initial 0
          (query_of (ask (codes "7.0.0.10.in-addr.arpa") DnsType.ptr))
          (ask (codes "7.0.0.10.in-addr.arpa") DnsType.ptr)).1
        ≡ answer_with
            (ask (codes "7.0.0.10.in-addr.arpa") DnsType.ptr)
            (Rdata.ptr (codes "printer.lan"))
            [])
    × (parse_ptr_query_addr (codes "256.0.0.10.in-addr.arpa") ≡ none)
    × (parse_ptr_query_addr
          (codes "1.0.0.0.0.0.0.0.0.0.0.0.0.0.0.0.0.0.0.0.0.0.0.0.8.B.D.0.1.0.0.2.ip6.arpa")
        ≡ some (record {
          type = AddrType.in6;
          addr = (0x20 ∷ 1 ∷ 0x0d ∷ 0xb8 ∷ 0 ∷ 0 ∷ 0 ∷ 0 ∷ 0 ∷ 0 ∷ 0 ∷ 0 ∷ 0 ∷ 0 ∷ 0 ∷ 1 ∷ []) ∷ [];
        }))
unfolding program ask
local_test = (refl, refl, refl, refl)

process_local_query-IsLocal_example :
    IsLocal matches known
      (query_of (ask (codes "printer.lan") DnsType.aaaa))
      (ask (codes "printer.lan") DnsType.aaaa)
      (process_local_query matches known initial 0
        (query_of (ask (codes "printer.lan") DnsType.aaaa))
        (ask (codes "printer.lan") DnsType.aaaa)).1
process_local_query-IsLocal_example =
    process_local_query-IsLocal matches known initial 0
      (query_of (ask (codes "printer.lan") DnsType.aaaa)) (ask (codes "printer.lan") DnsType.aaaa)
