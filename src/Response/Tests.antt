-- ===== src/Response/Tests.antt =====
-- Responses on an example, and the theorems at concrete inputs.
use behind.Base.{
  ◌≡◌, ◌↔◌, refl, [], ◌∷◌, codes, true, false, bytes_eq, ◌==◌, if◌then◌else◌, min, max, ◌⊎◌, All,
  ◌/◌, ◌%◌, ◌^◌,
}
use behind.Message.{Message, class_in, rcode}
use behind.Message.DnsType
use behind.Udp.{UdpQuery}
use behind.Response.{
  is_question, is_matching_udp_response, is_cacheable_udp_response, without_opt, set_edns0,
  edns_payload, client_edns_payload,
}
use behind.Response.Matching.{
  Answers, IsKept, is_matching_udp_response_iff, is_cacheable_udp_response_iff,
}
use behind.Response.Edns.{client_edns_payload-set_edns0}

program : Unit {0}
unfolding is_question is_matching_udp_response is_cacheable_udp_response without_opt set_edns0
    edns_payload client_edns_payload bytes_eq
program = tt

abbrev query : UdpQuery
query = record {
  timestamp = 0;
  timeout = 1000;
  local_transaction_id = 3;
  upstream_id = 0x1234;
  type = DnsType.a;
  clas = class_in;
  request_name = codes "a.lan";
  forward_name = codes "A.lAn";
  forwarder = [];
  channel_fd = 5;
  pending = 0;
}

abbrev response : Message
response = record {
  header = record {
    id = 0x1234;
    flags = 0x8180;
    qdcount = 1;
    ancount = 0;
    nscount = 0;
    arcount = 0;
  };
  questions = record { name = codes "A.lAn"; type = DnsType.a; clas = class_in } ∷ [];
  answers = [];
  authorities = [];
  additionals = [];
}

-- A response that spells the name in another case is not taken.
response_test :
    (is_matching_udp_response query response ≡ true)
    × (is_cacheable_udp_response query response ≡ true)
    × (is_matching_udp_response (record query { forward_name = codes "a.lan" }) response ≡ false)
    × (client_edns_payload 1232 (set_edns0 1232 response 4096 0) ≡ 1232)
unfolding program
response_test = (refl, refl, refl, refl)

is_matching_udp_response_iff_example :
    (is_matching_udp_response query response ≡ true) ↔ Answers query response
is_matching_udp_response_iff_example = is_matching_udp_response_iff query response

is_cacheable_udp_response_iff_example : (is_cacheable_udp_response query response ≡ true) ↔ (
    Answers query response
    × (response.header.flags / 2 ^ 9 % 2 ≡ 0)
    × ((rcode response ≡ 0) ⊎ (rcode response ≡ 3))
    × All IsKept response.answers
    × All IsKept response.authorities)
is_cacheable_udp_response_iff_example = is_cacheable_udp_response_iff query response

client_edns_payload-set_edns0_example :
    client_edns_payload 1232 (set_edns0 1232 response 4096 0)
    ≡ (if 4096 == 0 then 0 else min (max 512 (min 4096 1232)) 1232)
client_edns_payload-set_edns0_example = client_edns_payload-set_edns0 1232 4096 0 response
