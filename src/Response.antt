-- ===== src/Response.antt =====
-- What comes back from a forwarder, of src/Behind.cpp: whether a response belongs to a query
-- (`is_matching_response`, `is_matching_udp_response`), whether it may be cached, and the OPT
-- record of EDNS (`set_edns0`, `client_edns_payload`). A pointer that is set is its object.
pub mod Matching
pub mod Edns
mod Tests
use behind.Base.{
  ℕ, ◌+◌, ◌*◌, ◌/◌, ◌%◌, ◌^◌, min, max, Bool, true, false, not, ◌&&◌, ◌||◌, List, [], ◌∷◌, ◌++◌,
  Bytes, all, ltb, leb, ◌==◌, if◌then◌else◌, bytes_eq,
}
use behind.Message.DnsType
use behind.Message.{Question, Record, Message, null, rcode, is_empty}
use behind.Udp.{UdpQuery}

-- The fields of Behind::Task that say what was asked over TCP.
pub record Task : Type 0 where
  pub upstream_id : ℕ
  pub forward_name : Bytes
  pub type : ℕ
  pub clas : ℕ

-- The only question of a message is the one that was sent.
unfoldable pub is_question : Bytes → ℕ → ℕ → List Question → Bool
is_question name type clas [] = false
is_question name type clas (q ∷ []) =
    if not (bytes_eq q.name name)
    then false
    else if not (q.type == type) || not (q.clas == clas)
    then false
    else true
is_question name type clas (q ∷ r ∷ qs) = false

-- Bit 15 of the flags, QR; bits 11 to 14, the opcode; and bit 9, TC.
abbrev pub has_qr : Message → Bool
has_qr m = not (m.header.flags / 2 ^ 15 % 2 == 0)

abbrev pub has_opcode : Message → Bool
has_opcode m = not (m.header.flags / 2 ^ 11 % 16 == 0)

abbrev pub has_tc : Message → Bool
has_tc m = not (m.header.flags / 2 ^ 9 % 2 == 0)

unfoldable pub is_matching_response : Task → Message → Bool
is_matching_response task received =
    if not (received.header.id == task.upstream_id)
    then false
    else if not (has_qr received)
    then false
    else if has_opcode received
    then false
    else is_question task.forward_name task.type task.clas received.questions

unfoldable pub is_matching_udp_response : UdpQuery → Message → Bool
is_matching_udp_response query received =
    if not (received.header.id == query.upstream_id)
    then false
    else if not (has_qr received)
    then false
    else if has_opcode received
    then false
    else is_question query.forward_name query.type query.clas received.questions

abbrev pub is_cacheable_record : Record → Bool
is_cacheable_record r = not (not r.cacheable || r.type == DnsType.opt)

unfoldable pub is_cacheable_response : Task → Message → Bool
is_cacheable_response task received =
    if not (is_matching_response task received) || has_tc received
    then false
    else if not (rcode received == 0) && not (rcode received == 3)
    then false
    else all is_cacheable_record received.answers && all is_cacheable_record received.authorities

unfoldable pub is_cacheable_udp_response : UdpQuery → Message → Bool
is_cacheable_udp_response query received =
    if not (is_matching_udp_response query received) || has_tc received
    then false
    else if not (rcode received == 0) && not (rcode received == 3)
    then false
    else all is_cacheable_record received.answers && all is_cacheable_record received.authorities

-- ## EDNS

-- The loop of `set_edns0` that erases the OPT records.
unfoldable pub without_opt : List Record → List Record
without_opt [] = []
without_opt (r ∷ rs) = if r.type == DnsType.opt then without_opt rs else r ∷ without_opt rs

abbrev pub opt_record : ℕ → ℕ → Record
opt_record payload_size extended_rcode = record {
  name = [];
  type = DnsType.opt;
  clas = payload_size;
  ttl = extended_rcode * 2 ^ 24;
  expire = 0;
  bin = [];
  sp = null;
  cacheable = true;
}

-- `buffer_size` is the option `edns0_buffer_size`.
unfoldable pub set_edns0 : ℕ → Message → ℕ → ℕ → Message
set_edns0 buffer_size m payload_size extended_rcode =
    let rest = without_opt m.additionals in
    if payload_size == 0 then record m { additionals = rest } else record m {
      additionals =
          rest ++ (opt_record (max 512 (min payload_size buffer_size)) extended_rcode ∷ []);
    }

-- The loop of `client_edns_payload`; 0 is its early return too.
unfoldable pub edns_payload : ℕ → List Record → ℕ
edns_payload payload [] = payload
edns_payload payload (r ∷ rs) =
    let next = edns_payload payload rs in
    let taken = edns_payload (max 512 r.clas) rs in
    if not (r.type == DnsType.opt)
    then next
    else if not (payload == 0) || not (is_empty r.name)
    then 0
    else if not (r.ttl / 2 ^ 16 % 2 ^ 8 == 0)
    then 0
    else taken

unfoldable pub client_edns_payload : ℕ → Message → ℕ
client_edns_payload buffer_size m =
    let payload = edns_payload 0 m.additionals in
    if payload == 0 then 0 else min payload buffer_size
