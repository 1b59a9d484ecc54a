-- ===== src/Packet/Make.antt =====
-- `Behind::make_dns_packet` of src/Behind.cpp and what it calls: `write_dns_header`,
-- `write_dns_question_rr` and `write_dns_answer_rr`. Buffer and table of names are passed on;
-- `none` is the result false of `write_dns_answer_rr`, after which the only caller drops both.
use behind.Base.{
  ℕ, ◌+◌, ◌-◌, ◌/◌, ◌%◌, min, max, Bool, true, not, ◌&&◌, Option, none, some, List, [], ◌∷◌, ◌++◌,
  Bytes, ltb, ◌==◌, if◌then◌else◌, length, take, drop, bytes_eq,
}
use behind.DomainFilter.{c_str}
use behind.Message.DnsType
use behind.Message.{
  Header, Question, Soa, Record, Message, soa_of, name_of_cname, name_of_ptr, name_of_ns, mx_of,
  https_of, is_empty, class_in,
}
use behind.Misc.{strtolower}
use behind.Name.{NameMap, u16_bytes, write_name}
use behind.Packet.{u16_of, u32_bytes, are_strings, are_options, are_params}

-- The buffer and the table of names.
abbrev pub Output : Type 0
Output = Bytes × Option NameMap

abbrev pub put : Output → Bytes → Output
put o bytes = (o.0 ++ bytes, o.1)

unfoldable pub header_bytes : Header → Bytes
header_bytes h =
    u16_bytes h.id
    ++ (u16_bytes h.flags
        ++ (u16_bytes h.qdcount
            ++ (u16_bytes h.ancount ++ (u16_bytes h.nscount ++ u16_bytes h.arcount))))

-- `write_dns_question_rr`, which does not look at the result of `write_name`.
unfoldable pub write_question : Output → Question → Output
write_question o q = elim (write_name o.0 o.1 q.name) [
  | some p ↦ put p (u16_bytes q.type ++ u16_bytes q.clas)
  | none ↦ put o (u16_bytes q.type ++ u16_bytes q.clas)
]

-- ## RDATA

unfoldable pub write_rdata_name : Output → Option Bytes → Option Output
write_rdata_name o none = none
write_rdata_name o (some name) = write_name o.0 o.1 name

unfoldable pub write_mx : Output → Option (ℕ × Bytes) → Option Output
write_mx o none = none
write_mx o (some (preference, exchange)) = write_name (o.0 ++ u16_bytes preference) o.1 exchange

-- The lambda `WriteSOA`.
unfoldable pub write_soa : Output → Option Soa → Option Output
write_soa o none = none
write_soa o (some s) = elim (write_name o.0 o.1 s.nname) [
  | none ↦ none
  | some p ↦ elim (write_name p.0 p.1 s.rname) [
    | none ↦ none
    | some p' ↦ some (
        put p' (
          u32_bytes s.serial
          ++ (u32_bytes s.refresh
              ++ (u32_bytes s.retry ++ (u32_bytes s.expire ++ u32_bytes s.minimum)))))
  ]
]

unfoldable pub write_https : Output → Option (ℕ × Bytes × Bytes) → Option Output
write_https o none = none
write_https o (some (priority, name, params)) =
    elim (write_name (o.0 ++ u16_bytes priority) o.1 name) [
      | none ↦ none
      | some p ↦
          if is_empty params
          then some p
          else if ltb 65535 (length params)
          then none
          else if are_params (length params) true 0 params
          then some (put p params)
          else none
    ]

-- What a record may copy from its bytes.
unfoldable pub is_valid_bin : Record → Bool
is_valid_bin r =
    if r.type == DnsType.a
    then length r.bin == 4
    else if r.type == DnsType.aaaa
    then length r.bin == 16
    else if r.type == DnsType.txt
    then not (length r.bin == 0) && are_strings (length r.bin) r.bin
    else if r.type == DnsType.opt
    then are_options (length r.bin) r.bin
    else r.cacheable

unfoldable pub write_rdata : Output → Record → Option Output
write_rdata o r =
    if r.type == DnsType.ptr
    then write_rdata_name o (name_of_ptr r.sp)
    else if r.type == DnsType.cname
    then write_rdata_name o (name_of_cname r.sp)
    else if r.type == DnsType.ns
    then write_rdata_name o (name_of_ns r.sp)
    else if r.type == DnsType.mx
    then write_mx o (mx_of r.sp)
    else if r.type == DnsType.soa
    then write_soa o (soa_of r.sp)
    else if r.type == DnsType.https
    then write_https o (https_of r.sp)
    else if ltb 65535 (length r.bin)
    then none
    else if is_valid_bin r
    then some (put o r.bin)
    else none

-- ## Records

-- Two bytes of the buffer are replaced.
abbrev pub patch : ℕ → ℕ → Bytes → Bytes
patch at v out = take at out ++ (u16_bytes v ++ drop (at + 2) out)

unfoldable pub patch_rdlen : ℕ → Option Output → Option Output
patch_rdlen at none = none
patch_rdlen at (some o) =
    let rdlen = length o.0 - at - 2 in
    if ltb 65535 rdlen then none else some (patch at rdlen o.0, o.1)

abbrev pub record_head : Record → Bytes
record_head r = u16_bytes r.type ++ (u16_bytes r.clas ++ u32_bytes r.ttl)

unfoldable pub write_dns_answer_rr : Output → Bytes → Record → Option Output
write_dns_answer_rr o name r = elim (write_name o.0 o.1 name) [
  | none ↦ none
  | some p ↦
      let head = p.0 ++ record_head r in
      patch_rdlen (length head) (write_rdata (head ++ u16_bytes 0, p.1) r)
]

-- ## Messages

-- `WriteRecords` and the loop over the additional section: the offsets are the ends of the
-- records.
unfoldable pub write_records : (Record → Bytes) → Output → List Record → Option (Output × List ℕ)
write_records owner o [] = some (o, [])
write_records owner o (r ∷ rs) = elim (write_dns_answer_rr o (owner r) r) [
  | none ↦ none
  | some p ↦ elim (write_records owner p rs) [
    | none ↦ none
    | some (p', ends) ↦ some (p', length p.0 ∷ ends)
  ]
]

unfoldable pub write_questions : Output → List Question → Output
write_questions o [] = o
write_questions o (q ∷ qs) = write_questions (write_question o q) qs

-- `stricmp(a.c_str(), b.c_str()) == 0`
unfoldable pub is_same_name : Bytes → Bytes → Bool
unfolding strtolower bytes_eq
is_same_name a b = bytes_eq (strtolower (c_str a)) (strtolower (c_str b))

unfoldable pub owner_name : Bytes → Record → Bytes
unfolding strtolower
owner_name question r = if is_same_name question r.name then question else strtolower r.name

unfoldable pub additional_name : Bytes → Record → Bytes
additional_name question r = if r.type == DnsType.opt then [] else owner_name question r

unfoldable pub first_question : List Question → Question
first_question [] = record { name = []; type = DnsType.a; clas = class_in }
first_question (q ∷ qs) = q

abbrev pub limit_count : ℕ → ℕ
limit_count n = min n 100

unfoldable pub counted : Message → Header
counted msg = record msg.header {
  qdcount = limit_count (length msg.questions);
  ancount = limit_count (length msg.answers);
  nscount = limit_count (length msg.authorities);
  arcount = limit_count (length msg.additionals);
}

-- What stands in the buffer, and where its parts end.
pub record Layout : Type 0 where
  pub out : Bytes
  pub question_end : ℕ
  pub answer_ends : List ℕ
  pub authority_ends : List ℕ
  pub additional_ends : List ℕ

-- The sections, from the buffer with the header in it.
unfoldable pub write_sections : Output → Message → Option Layout
write_sections o msg =
    let h = counted msg in
    let question = (first_question msg.questions).name in
    let asked = write_questions o msg.questions in
    elim (write_records (owner_name question) asked (take h.ancount msg.answers)) [
      | none ↦ none
      | some (p, answer_ends) ↦
          elim (write_records (owner_name question) p (take h.nscount msg.authorities)) [
            | none ↦ none
            | some (p', authority_ends) ↦
                elim (write_records (additional_name question) p'
                  (take h.arcount msg.additionals)) [
                    | none ↦ none
                    | some (p'', additional_ends) ↦ some (record {
                      out = p''.0;
                      question_end = length asked.0;
                      answer_ends = answer_ends;
                      authority_ends = authority_ends;
                      additional_ends = additional_ends;
                    })
                  ]
          ]
    ]

-- The last of the ends within the limit, up to the first one that is not.
unfoldable pub last_fit : ℕ → ℕ → List ℕ → ℕ
last_fit limit truncate_to [] = truncate_to
last_fit limit truncate_to (e ∷ ends) =
    let rest = last_fit limit e ends in if ltb limit e then truncate_to else rest

unfoldable pub count_fit : ℕ → List ℕ → ℕ
count_fit truncate_to [] = 0
count_fit truncate_to (e ∷ ends) =
    let rest = count_fit truncate_to ends in if ltb truncate_to e then 0 else 1 + rest

unfoldable pub truncate_end : ℕ → Layout → ℕ
truncate_end limit l =
    last_fit limit (last_fit limit (last_fit limit l.question_end l.answer_ends) l.authority_ends)
      l.additional_ends

-- `flags | 0x0200`
abbrev pub with_tc : ℕ → ℕ
with_tc flags = if flags / 512 % 2 == 0 then flags + 512 else flags

unfoldable pub truncate : ℕ → Layout → Bytes
truncate limit l =
    let to = truncate_end limit l in
    let out = take to l.out in
    patch 10 (count_fit to l.additional_ends) (
      patch 8 (count_fit to l.authority_ends)
        (patch 6 (count_fit to l.answer_ends) (patch 2 (with_tc (u16_of (drop 2 out))) out)))

-- The end of `make_dns_packet`, for TCP and for UDP; `none` is the empty packet.
unfoldable pub finish_tcp : Option Layout → Option Bytes
finish_tcp none = none
finish_tcp (some l) =
    let len = length l.out - 2 in if ltb 65535 len then none else some (patch 0 len l.out)

unfoldable pub finish_udp : ℕ → Option Layout → Option Bytes
finish_udp udp_limit none = none
finish_udp udp_limit (some l) =
    let limit = max 512 udp_limit in
    some (if ltb limit (length l.out) then truncate limit l else l.out)

-- The packet, and the first question beside it.
pub record Packet : Type 0 where
  pub q : Question
  pub buffer : Bytes

unfoldable pub packet_of : Message → Option Bytes → Packet
packet_of msg none = record { q = first_question []; buffer = [] }
packet_of msg (some out) = record { q = first_question msg.questions; buffer = out }

unfoldable pub make_dns_packet : Message → Bool → ℕ → Packet
make_dns_packet msg tcp udp_limit =
    let prefix = if tcp then 0 ∷ 0 ∷ [] else [] in
    let map : NameMap = record { offset = length prefix; entries = [] } in
    let layout = write_sections (prefix ++ header_bytes (counted msg), some map) msg in
    packet_of msg (if tcp then finish_tcp layout else finish_udp udp_limit layout)
