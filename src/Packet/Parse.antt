-- ===== src/Packet/Parse.antt =====
-- `Behind::parse_dns_message` and `Behind::parse_question_section` of src/Behind.cpp. A pointer
-- into the packet is its offset from `begin`; `none` is the result false (or 0), after which the
-- callers do not read the message.
use behind.Base.{
  ℕ, zero, suc, ◌+◌, ◌-◌, ◌*◌, ◌/◌, ◌%◌, Bool, true, false, not, ◌&&◌, ◌||◌, Option, none, some,
  List, [], ◌∷◌, Bytes, ltb, ◌==◌, if◌then◌else◌, length, take, drop,
}
use behind.Message.DnsType
use behind.Message.{
  Header, Question, Record, Message, Rdata, null, cname, ptr, ns, mx, soa, https, is_empty,
}
use behind.Misc.{strtolower}
use behind.Name.{name_ok, decode_name}
use behind.Packet.{u16_of, u32_of, are_strings, are_options, are_params}

-- ## Names

-- `decode_name`, the name and the offset behind it.
unfoldable pub read_name : Bytes → ℕ → Option (Bytes × ℕ)
read_name packet at = elim (decode_name packet at) [
  | name_ok name k ↦ some (name, at + k)
  | _ ↦ none
]

-- `DecodeRdataName`
unfoldable pub decode_rdata_name : Bytes → ℕ → ℕ → Option (Bytes × ℕ)
decode_rdata_name packet rdata_end at = elim (decode_name packet at) [
  | name_ok name k ↦ if ltb (rdata_end - at) k then none else some (name, at + k)
  | _ ↦ none
]

-- A name that fills what is left of the RDATA.
unfoldable pub last_name : Bytes → ℕ → ℕ → Option Bytes
last_name packet rdata_end at = elim (decode_rdata_name packet rdata_end at) [
  | some (name, next) ↦ if next == rdata_end then some (strtolower name) else none
  | none ↦ none
]

-- ## RDATA

-- Raw data may hold a pointer of the protocol: two bytes that refer to an earlier offset.
unfoldable pub has_pointer : ℕ → Bytes → Bool
has_pointer at (a ∷ b ∷ rest) =
    let later = has_pointer (suc at) (b ∷ rest) in
    if a / 64 == 3 && ltb (a % 64 * 256 + b) at then true else later
has_pointer at _ = false

unfoldable pub parse_mx : Bytes → ℕ → ℕ → Option Rdata
parse_mx packet at rdlen =
    if ltb rdlen 3 then none else elim (last_name packet (at + rdlen) (at + 2)) [
      | some name ↦ some (mx (u16_of (drop at packet)) name)
      | none ↦ none
    ]

unfoldable pub parse_soa : Bytes → ℕ → ℕ → Option Rdata
parse_soa packet at rdlen = elim (decode_rdata_name packet (at + rdlen) at) [
  | none ↦ none
  | some (nname, next) ↦ elim (decode_rdata_name packet (at + rdlen) next) [
    | none ↦ none
    | some (rname, numbers) ↦
        let d = drop numbers packet in
        if not (at + rdlen - numbers == 20)
        then none
        else some (
            soa (record {
              nname = strtolower nname;
              rname = strtolower rname;
              serial = u32_of d;
              refresh = u32_of (drop 4 d);
              retry = u32_of (drop 8 d);
              expire = u32_of (drop 12 d);
              minimum = u32_of (drop 16 d);
            }))
  ]
]

unfoldable pub parse_https : Bytes → ℕ → ℕ → Option Rdata
parse_https packet at rdlen =
    if ltb rdlen 3 then none else elim (decode_rdata_name packet (at + rdlen) (at + 2)) [
      | none ↦ none
      | some (name, next) ↦
          let params = take (at + rdlen - next) (drop next packet) in
          if are_params (length params) true 0 params
          then some (https (u16_of (drop at packet)) (strtolower name) params)
          else none
    ]

-- The record with what the pointer `sp` is set to.
unfoldable pub set_sp : Record → Option Rdata → Option Record
set_sp r none = none
set_sp r (some v) = some (record r { sp = v })

unfoldable pub set_name : Record → (Bytes → Rdata) → Option Bytes → Option Record
set_name r kind none = none
set_name r kind (some name) = some (record r { sp = kind name })

-- The branches on the type of a record whose RDATA is at `at`; `seen_opt` is handled by the
-- caller.
unfoldable pub parse_rdata : Bytes → ℕ → ℕ → Bool → Bool → Record → Option Record
parse_rdata packet at rdlen additional_section seen_opt r =
    let raw = take rdlen (drop at packet) in
    let copied = record r { bin = raw } in
    if r.type == DnsType.a
    then (if not (rdlen == 4) then none else some copied)
    else if r.type == DnsType.aaaa
    then (if not (rdlen == 16) then none else some copied)
    else if r.type == DnsType.cname
    then set_name r cname (last_name packet (at + rdlen) at)
    else if r.type == DnsType.ptr
    then set_name r ptr (last_name packet (at + rdlen) at)
    else if r.type == DnsType.ns
    then set_name r ns (last_name packet (at + rdlen) at)
    else if r.type == DnsType.mx
    then set_sp r (parse_mx packet at rdlen)
    else if r.type == DnsType.soa
    then set_sp r (parse_soa packet at rdlen)
    else if r.type == DnsType.https
    then set_sp r (parse_https packet at rdlen)
    else if r.type == DnsType.txt
    then (if rdlen == 0 then none else if are_strings (length raw) raw then some copied else none)
    else if r.type == DnsType.opt
    then (if not additional_section || not (is_empty r.name) || seen_opt
        then none
        else if are_options (length raw) raw
        then some copied
        else none)
    else some (record copied { cacheable = not (has_pointer at raw) })

-- ## Sections

unfoldable pub parse_question_section : Bytes → ℕ → Option (Question × ℕ)
parse_question_section packet at = elim (read_name packet at) [
  | none ↦ none
  | some (name, next) ↦
      let d = drop next packet in
      if ltb (length packet - next) 4
      then none
      else some (record { name = name; type = u16_of d; clas = u16_of (drop 2 d) }, next + 4)
]

unfoldable pub parse_questions : Bytes → ℕ → ℕ → Option (List Question × ℕ)
parse_questions packet zero at = some ([], at)
parse_questions packet (suc count) at = elim (parse_question_section packet at) [
  | none ↦ none
  | some (q, next) ↦ elim (parse_questions packet count next) [
    | none ↦ none
    | some (qs, end) ↦ some (q ∷ qs, end)
  ]
]

-- The body of the loop of `ParseRecord`: the record, the offset behind it, and `seen_opt`.
unfoldable pub parse_record : Bytes → Bool → ℕ → Bool → Option (Record × ℕ × Bool)
parse_record packet additional_section at seen_opt = elim (read_name packet at) [
  | none ↦ none
  | some (name, next) ↦
      let d = drop next packet in
      let rdlen = u16_of (drop 8 d) in
      let r : Record = record {
        name = name;
        type = u16_of d;
        clas = u16_of (drop 2 d);
        ttl = u32_of (drop 4 d);
        expire = 0;
        bin = [];
        sp = null;
        cacheable = true;
      } in
      if ltb (length packet - next) 10
      then none
      else if ltb (length packet - (next + 10)) rdlen
      then none
      else elim (parse_rdata packet (next + 10) rdlen additional_section seen_opt r) [
        | none ↦ none
        | some parsed ↦ some (parsed, next + 10 + rdlen, seen_opt || u16_of d == DnsType.opt)
      ]
]

unfoldable pub parse_records : Bytes → Bool → ℕ → ℕ → Bool → Option (List Record × ℕ × Bool)
parse_records packet additional_section zero at seen_opt = some ([], at, seen_opt)
parse_records packet additional_section (suc count) at seen_opt =
    elim (parse_record packet additional_section at seen_opt) [
      | none ↦ none
      | some (r, next, seen) ↦ elim (parse_records packet additional_section count next seen) [
        | none ↦ none
        | some (rs, end, seen') ↦ some (r ∷ rs, end, seen')
      ]
    ]

-- ## Messages

abbrev pub header_size : ℕ
header_size = 12

abbrev pub max_section_count : ℕ
max_section_count = 100

unfoldable pub parse_header : Bytes → Header
parse_header packet = record {
  id = u16_of packet;
  flags = u16_of (drop 2 packet);
  qdcount = u16_of (drop 4 packet);
  ancount = u16_of (drop 6 packet);
  nscount = u16_of (drop 8 packet);
  arcount = u16_of (drop 10 packet);
}

unfoldable pub has_many : Header → Bool
has_many h =
    ltb max_section_count h.qdcount
    || ltb max_section_count h.ancount
    || ltb max_section_count h.nscount
    || ltb max_section_count h.arcount

-- The sections behind the header, up to the last byte.
unfoldable pub parse_sections : Bytes → Header → Option Message
parse_sections packet h = elim (parse_questions packet h.qdcount header_size) [
  | none ↦ none
  | some (questions, p) ↦ elim (parse_records packet false h.ancount p false) [
    | none ↦ none
    | some (answers, q, seen) ↦ elim (parse_records packet false h.nscount q seen) [
      | none ↦ none
      | some (authorities, r, seen') ↦ elim (parse_records packet true h.arcount r seen') [
        | none ↦ none
        | some (additionals, s, seen'') ↦
            if s == length packet
            then some (record {
              header = h;
              questions = questions;
              answers = answers;
              authorities = authorities;
              additionals = additionals;
            })
            else none
      ]
    ]
  ]
]

unfoldable pub parse_dns_message : Bytes → Option Message
parse_dns_message packet =
    if ltb (length packet) header_size
    then none
    else if has_many (parse_header packet)
    then none
    else parse_sections packet (parse_header packet)
