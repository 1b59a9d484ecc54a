-- ===== src/Packet/Tests.antt =====
-- Runs of the packet codec, and the theorems at concrete messages.
use behind.Base.{
  ℕ, zero, suc, ◌≤◌, ◌≡◌, ◌≢◌, ◌⊎◌, refl, ap, some, none, [], ◌∷◌, ◌++◌, true, false, arith, Bytes,
  codes, length, drop, all, ltb, All, bytes_eq, to_lower, max,
}
use behind.DomainFilter.{c_str}
use behind.Message.DnsType
use behind.Message.{Question, Record, Message, null, cname}
use behind.Misc.{strtolower}
use behind.Name.{
  decode_name, decode_loop, decode_round, read_pointer, read_label, is_bad_label_byte, has_bad_byte,
  dotted, write_name, write_labels, check_labels, split_dots, cons_first, join_dots, find_entry,
  NameMap_set, usable_entry, note_suffix,
}
use behind.Name.RoundTrip.{IsEncodable}
use behind.Packet.{u16_of, u32_of, are_strings, are_options, are_params}
use behind.Packet.Parse.{
  read_name, decode_rdata_name, last_name, has_pointer, parse_mx, parse_soa, parse_https, set_sp,
  set_name, parse_rdata, parse_question_section, parse_questions, parse_record, parse_records,
  parse_header, has_many, parse_sections, parse_dns_message,
}
use behind.Packet.Make.{
  header_bytes, write_question, write_rdata_name, write_mx, write_soa, write_https, is_valid_bin,
  write_rdata, patch_rdlen, write_dns_answer_rr, write_records, write_questions, is_same_name,
  owner_name, additional_name, first_question, counted, write_sections, last_fit, count_fit,
  truncate_end, truncate, finish_tcp, finish_udp, packet_of, make_dns_packet,
}
use behind.Packet.ReadBack.{null_words, cname_words}
use behind.Packet.ReadRecord.{IsWords}
use behind.Packet.Encodable.{IsMessage, sent}
use behind.Packet.RoundTrip.{ReadsAs, IsTcpPacket, make_dns_packet-tcp-parse_dns_message}
use behind.Packet.ReadMessage.{IsCounted}
use behind.Packet.Accepted.{as_sections, parse_dns_message-IsMessage}
use behind.Packet.Accepted.Values.{IsByte}
use behind.Packet.Truncated.{IsCutPacket, make_dns_packet-udp-parse_dns_message}

program : Unit {0}
unfolding decode_name decode_loop decode_round read_pointer read_label has_bad_byte
    is_bad_label_byte dotted write_name write_labels check_labels split_dots cons_first join_dots
    find_entry NameMap_set usable_entry note_suffix bytes_eq to_lower strtolower c_str u16_of u32_of
    are_strings are_options are_params read_name decode_rdata_name last_name has_pointer parse_mx
    parse_soa parse_https set_sp set_name parse_rdata parse_question_section parse_questions
    parse_record parse_records parse_header has_many parse_sections parse_dns_message header_bytes
    write_question write_rdata_name write_mx write_soa write_https is_valid_bin write_rdata
    patch_rdlen write_dns_answer_rr write_records write_questions is_same_name owner_name
    additional_name first_question counted write_sections last_fit count_fit truncate_end truncate
    finish_tcp finish_udp packet_of make_dns_packet
program = tt

abbrev record_of : Bytes → ℕ → Bytes → Record
record_of name type bin = record {
  name = name;
  type = type;
  clas = 1;
  ttl = 300;
  expire = 0;
  bin = bin;
  sp = null;
  cacheable = true;
}

abbrev alias : Record
alias = record (record_of (codes "B.Lan") DnsType.cname []) { sp = cname (codes "a.lan") }

abbrev address : Record
address = record_of (codes "a.lan") DnsType.a (10 ∷ 0 ∷ 0 ∷ 1 ∷ [])

abbrev edns : Record
edns = record (record_of [] DnsType.opt []) { clas = 1232; ttl = 0 }

abbrev asked : Question
asked = record { name = codes "b.lan"; type = DnsType.a; clas = 1 }

abbrev reply : Message
reply = record {
  header = record { id = 7; flags = 0x8180; qdcount = 1; ancount = 2; nscount = 0; arcount = 1 };
  questions = asked ∷ [];
  answers = alias ∷ address ∷ [];
  authorities = [];
  additionals = edns ∷ [];
}

-- The owner of the alias is the question, in its spelling, and all names but the first are
-- pointers at least in part.
reply_made :
    (make_dns_packet reply true 512).buffer
    ≡ (0 ∷ 66 ∷ 0 ∷ 7 ∷ 0x81 ∷ 0x80 ∷ 0 ∷ 1 ∷ 0 ∷ 2 ∷ 0 ∷ 0 ∷ 0 ∷ 1 ∷ [])
      ++ ((1 ∷ b'b' ∷ 3 ∷ b'l' ∷ b'a' ∷ b'n' ∷ 0 ∷ 0 ∷ 1 ∷ 0 ∷ 1 ∷ [])
          ++ ((0xc0 ∷ 12 ∷ 0 ∷ 5 ∷ 0 ∷ 1 ∷ 0 ∷ 0 ∷ 1 ∷ 44 ∷ 0 ∷ 4 ∷ 1 ∷ b'a' ∷ 0xc0 ∷ 14 ∷ [])
              ++ ((0xc0 ∷ 35 ∷ 0 ∷ 1 ∷ 0 ∷ 1 ∷ 0 ∷ 0 ∷ 1 ∷ 44 ∷ 0 ∷ 4 ∷ 10 ∷ 0 ∷ 0 ∷ 1 ∷ [])
                  ++ (0 ∷ 0 ∷ 41 ∷ 4 ∷ 208 ∷ 0 ∷ 0 ∷ 0 ∷ 0 ∷ 0 ∷ 0 ∷ []))))
unfolding program
reply_made = refl

-- The reader has the same message.
reply_read :
    parse_dns_message (make_dns_packet reply false 512).buffer
    ≡ some (record reply { answers = record alias { name = codes "b.lan" } ∷ address ∷ [] })
unfolding program
reply_read = refl

-- A packet with a byte behind its last record is refused, and so is one with a byte missing.
reply_long : parse_dns_message ((make_dns_packet reply false 512).buffer ++ 0 ∷ []) ≡ none
unfolding program
reply_long = refl

header_only : parse_dns_message (0 ∷ 7 ∷ 0 ∷ 0 ∷ 0 ∷ 1 ∷ 0 ∷ 0 ∷ 0 ∷ 0 ∷ 0 ∷ 0 ∷ []) ≡ none
unfolding program
header_only = refl

-- A record whose address has five bytes is not written.
address_long :
    write_dns_answer_rr ([], none) [] (record_of [] DnsType.a (1 ∷ 2 ∷ 3 ∷ 4 ∷ 5 ∷ [])) ≡ none
unfolding program
address_long = refl

lan-IsEncodable : IsEncodable (codes "b.lan")
unfolding program
lan-IsEncodable = record {
  labels = codes "b" ∷ codes "lan" ∷ [];
  are_labels = (
    record { positive = omega arith; short = omega arith; clean = refl },
    (record { positive = omega arith; short = omega arith; clean = refl }, tt),
  );
  name_is = refl;
  room = omega arith;
}

-- ## Text records, three of which are too long for UDP

abbrev fill : ℕ → Bytes
fill zero = []
fill (suc n) = b'x' ∷ fill n

abbrev text : Record
text = record_of (codes "b.lan") DnsType.txt (200 ∷ fill 200)

abbrev texts : Message
texts = record reply { answers = text ∷ text ∷ text ∷ [] }

-- Two of them fit into 512 bytes, and the header says so: TC, and two answers.
texts_cut :
    (length (make_dns_packet texts false 512).buffer ≡ 449)
    × (u16_of (drop 2 (make_dns_packet texts false 512).buffer) ≡ 0x8380)
    × (u16_of (drop 6 (make_dns_packet texts false 512).buffer) ≡ 2)
unfolding program
texts_cut = (refl, refl, refl)

alias-IsWords : IsWords alias
alias-IsWords = record {
  type_fits = omega arith;
  clas_fits = omega arith;
  ttl_fits = omega arith;
  rdata_fits = cname_words;
}

address-IsWords : IsWords address
address-IsWords = record {
  type_fits = omega arith;
  clas_fits = omega arith;
  ttl_fits = omega arith;
  rdata_fits = null_words;
}

edns-IsWords : IsWords edns
edns-IsWords = record {
  type_fits = omega arith;
  clas_fits = omega arith;
  ttl_fits = omega arith;
  rdata_fits = null_words;
}

reply-IsMessage : IsMessage reply
reply-IsMessage = record {
  id_fits = omega arith;
  flags_fits = omega arith;
  few_questions = omega arith;
  questions = (
    record { encodable = lan-IsEncodable; type_fits = omega arith; clas_fits = omega arith },
    tt,
  );
  answers = (alias-IsWords, (address-IsWords, tt));
  authorities = tt;
  additionals = (edns-IsWords, tt);
  answers_opt = refl;
  authorities_opt = refl;
  additionals_opt = omega arith;
}

text-IsWords : IsWords text
text-IsWords = record {
  type_fits = omega arith;
  clas_fits = omega arith;
  ttl_fits = omega arith;
  rdata_fits = null_words;
}

texts-IsMessage : IsMessage texts
texts-IsMessage = record {
  id_fits = omega arith;
  flags_fits = omega arith;
  few_questions = omega arith;
  questions = reply-IsMessage.questions;
  answers = (text-IsWords, (text-IsWords, (text-IsWords, tt)));
  authorities = tt;
  additionals = (edns-IsWords, tt);
  answers_opt = refl;
  authorities_opt = refl;
  additionals_opt = omega arith;
}

reply_made-ne-nil : (make_dns_packet reply true 512).buffer ≢ []
reply_made-ne-nil = λ e. let f = rw reply_made at e in cc

texts_made-ne-nil : (make_dns_packet texts false 512).buffer ≢ []
texts_made-ne-nil = λ e. let n = ap length e in absurd (omega (arith, texts_cut.0))

make_dns_packet-tcp-parse_dns_message_example :
    IsTcpPacket (sent (counted reply) reply) (make_dns_packet reply true 512).buffer
make_dns_packet-tcp-parse_dns_message_example =
    make_dns_packet-tcp-parse_dns_message reply 512 reply-IsMessage reply_made-ne-nil

make_dns_packet-udp-parse_dns_message_example :
    (let out = (make_dns_packet texts false 512).buffer in
      ((length out ≤ max 512 512) × ReadsAs (sent (counted texts) texts) out)
      ⊎ IsCutPacket texts (max 512 512) out)
make_dns_packet-udp-parse_dns_message_example =
    make_dns_packet-udp-parse_dns_message texts 512 texts-IsMessage texts_made-ne-nil

all_bytes : (bs : Bytes) → all (λ b. ltb b 256) bs ≡ true → All IsByte bs
all_bytes [] h = tt
all_bytes (b ∷ bs) h = (ground arith, all_bytes bs (ground arith))

abbrev reply_packet : Bytes
reply_packet =
    (0 ∷ 7 ∷ 0x81 ∷ 0x80 ∷ 0 ∷ 1 ∷ 0 ∷ 0 ∷ 0 ∷ 0 ∷ 0 ∷ 1 ∷ [])
    ++ ((1 ∷ b'b' ∷ 3 ∷ b'l' ∷ b'a' ∷ b'n' ∷ 0 ∷ 0 ∷ 1 ∷ 0 ∷ 1 ∷ [])
        ++ (0 ∷ 0 ∷ 41 ∷ 4 ∷ 208 ∷ 0 ∷ 0 ∷ 0 ∷ 0 ∷ 0 ∷ 0 ∷ []))

abbrev reply_without : Message
reply_without = record reply { header = record reply.header { ancount = 0 }; answers = [] }

reply_packet_read : parse_dns_message reply_packet ≡ some reply_without
unfolding program
reply_packet_read = refl

parse_dns_message-IsMessage_example :
    IsMessage reply_without × IsCounted (as_sections reply_without)
parse_dns_message-IsMessage_example =
    parse_dns_message-IsMessage reply_packet reply_without (all_bytes reply_packet refl)
      reply_packet_read
