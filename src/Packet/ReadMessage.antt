-- ===== src/Packet/ReadMessage.antt =====
-- `parse_dns_message` on a message that stands in the packet, section by section.
use behind.Base.{
  ℕ, ◌≤◌, ◌<◌, ◌≡◌, refl, ap, ◌∙◌, some, List, [], ◌∷◌, ◌++◌, arith, Bytes, length, drop, true,
  false, ltb, ◌==◌, ==_iff, All,
}
use behind.Message.DnsType
use behind.Message.{Header, Question, Record, Message}
use behind.Packet.{u16_of}
use behind.Packet.Make.{header_bytes, owner_name, additional_name}
use behind.Packet.Parse.{
  parse_questions, parse_records, parse_header, has_many, parse_sections, parse_dns_message,
}
use behind.Packet.ReadBack.{u16_of-bytes}
use behind.Packet.ReadRecord.{
  RecordsAt, may_opts, AreReadBack, seen_after, IsWords, parse_records-read,
}
use behind.Packet.Sections.{Then, QuestionsAt, IsQuestion, parse_questions-read}

-- A message in sections, with the name that owners may be given as it is written.
pub record Sections : Type 0 where
  pub header : Header
  pub question : Bytes
  pub questions : List Question
  pub answers : List Record
  pub authorities : List Record
  pub additionals : List Record

abbrev pub SectionsAt : Sections → Bytes → ℕ → ℕ → Type 0
SectionsAt s = Then (QuestionsAt s.questions) (
    Then (λ p a e. RecordsAt p (owner_name s.question) a s.answers e)
      (Then (λ p a e. RecordsAt p (owner_name s.question) a s.authorities e)
        (λ p a e. RecordsAt p (additional_name s.question) a s.additionals e)))

-- The header counts the sections, which are within the limit of the reader.
pub record IsCounted (s : Sections) : Type 0 where
  pub id_fits : s.header.id < 65536
  pub flags_fits : s.header.flags < 65536
  pub qdcount_is : s.header.qdcount ≡ length s.questions
  pub ancount_is : s.header.ancount ≡ length s.answers
  pub nscount_is : s.header.nscount ≡ length s.authorities
  pub arcount_is : s.header.arcount ≡ length s.additionals
  pub few_questions : length s.questions ≤ 100
  pub few_answers : length s.answers ≤ 100
  pub few_authorities : length s.authorities ≤ 100
  pub few_additionals : length s.additionals ≤ 100

-- The values are within their types, the questions' names fit, and there is one OPT record at
-- most, among the additional records.
pub record AreEncodable (s : Sections) : Type 0 where
  pub questions : All IsQuestion s.questions
  pub answers : All IsWords s.answers
  pub authorities : All IsWords s.authorities
  pub additionals : All IsWords s.additionals
  pub answers_opt : may_opts false false (owner_name s.question) s.answers ≡ true
  pub authorities_opt : may_opts false false (owner_name s.question) s.authorities ≡ true
  pub additionals_opt : may_opts true false (additional_name s.question) s.additionals ≡ true

-- The message as the reader has it.
pub record IsRead (s : Sections) (msg : Message) : Type 0 where
  pub header_is : msg.header ≡ s.header
  pub questions_is : msg.questions ≡ s.questions
  pub answers_is : AreReadBack (owner_name s.question) s.answers msg.answers
  pub authorities_is : AreReadBack (owner_name s.question) s.authorities msg.authorities
  pub additionals_is : AreReadBack (additional_name s.question) s.additionals msg.additionals

parse_header-read :
    (h : Header) (rest : Bytes)
    → h.id < 65536
    → h.flags < 65536
    → h.qdcount ≤ 100
    → h.ancount ≤ 100
    → h.nscount ≤ 100
    → h.arcount ≤ 100
    → parse_header (header_bytes h ++ rest) ≡ h
unfolding parse_header header_bytes
parse_header-read h rest i f q a n r =
    let packet = header_bytes h ++ rest in
    let e1 : u16_of packet ≡ h.id = u16_of-bytes h.id _ i in
    let e2 : u16_of (drop 2 packet) ≡ h.flags = u16_of-bytes h.flags _ f in
    let e3 : u16_of (drop 4 packet) ≡ h.qdcount = u16_of-bytes h.qdcount _ (omega arith) in
    let e4 : u16_of (drop 6 packet) ≡ h.ancount = u16_of-bytes h.ancount _ (omega arith) in
    let e5 : u16_of (drop 8 packet) ≡ h.nscount = u16_of-bytes h.nscount _ (omega arith) in
    let e6 : u16_of (drop 10 packet) ≡ h.arcount = u16_of-bytes h.arcount rest (omega arith) in
    λ j. record {
      id = e1 j;
      flags = e2 j;
      qdcount = e3 j;
      ancount = e4 j;
      nscount = e5 j;
      arcount = e6 j;
    }

seen-none :
    (owner : Record → Bytes) (rs : List Record)
    → may_opts false false owner rs ≡ true
    → seen_after false rs ≡ false
seen-none owner [] h = refl
seen-none owner (r ∷ rs) h =
    let e : (r.type == DnsType.opt) ≡ false = ground arith in
    rw e (seen-none owner rs (ground arith))

parse_sections-IsRead :
    (packet : Bytes) (s : Sections)
    → IsCounted s
    → AreEncodable s
    → SectionsAt s packet 12 (length packet)
    → (msg : Message) × (parse_sections packet s.header ≡ some msg) × IsRead s msg
unfolding parse_sections
parse_sections-IsRead packet s c v (p, qs, (q, ans, (r, ns, xs))) =
    let owner = owner_name s.question in
    let e1 = parse_questions-read packet s.questions 12 p v.questions qs in
    let (answers, e2, b2) =
      parse_records-read packet false false owner p q s.answers ans v.answers v.answers_opt in
    let (authorities, e3, b3) =
      parse_records-read packet false false owner q r s.authorities ns v.authorities
        v.authorities_opt in
    let (additionals, e4, b4) =
      parse_records-read packet true false (additional_name s.question) r (length packet)
        s.additionals xs v.additionals v.additionals_opt in
    let n2 = seen-none owner s.answers v.answers_opt in
    let n3 = seen-none owner s.authorities v.authorities_opt in
    let f1 = ap (λ n. parse_questions packet n 12) c.qdcount_is ∙ e1 in
    let f2 =
      ap (λ n. parse_records packet false n p false) c.ancount_is
      ∙ e2
      ∙ ap (λ b. some (answers, q, b)) n2 in
    let f3 =
      ap (λ n. parse_records packet false n q false) c.nscount_is
      ∙ e3
      ∙ ap (λ b. some (authorities, r, b)) n3 in
    let f4 = ap (λ n. parse_records packet true n r false) c.arcount_is ∙ e4 in
    let all_read : (length packet == length packet) ≡ true = (==_iff _ _).1 refl in
    (
      record {
        header = s.header;
        questions = s.questions;
        answers = answers;
        authorities = authorities;
        additionals = additionals;
      },
      rw (f1, parse_sections, f2, f3, f4, all_read) refl,
      record {
        header_is = refl;
        questions_is = refl;
        answers_is = b2;
        authorities_is = b3;
        additionals_is = b4;
      },
    )

-- A message that stands in a packet is read from it.
pub parse_dns_message-IsRead :
    (rest : Bytes) (s : Sections)
    → IsCounted s
    → AreEncodable s
    → SectionsAt s (header_bytes s.header ++ rest) 12 (length (header_bytes s.header ++ rest))
    → (msg : Message) × (parse_dns_message (header_bytes s.header ++ rest) ≡ some msg)
      × IsRead s msg
unfolding parse_dns_message has_many
parse_dns_message-IsRead rest s c v at =
    let packet = header_bytes s.header ++ rest in
    let (msg, e, read) = parse_sections-IsRead packet s c v at in
    let h =
      parse_header-read s.header rest c.id_fits c.flags_fits
        (omega (arith, c.qdcount_is, c.few_questions)) (omega (arith, c.ancount_is, c.few_answers))
        (omega (arith, c.nscount_is, c.few_authorities))
        (omega (arith, c.arcount_is, c.few_additionals)) in
    let long : ltb (length packet) 12 ≡ false = unfold header_bytes in ground arith in
    let few : has_many s.header ≡ false = ground (arith, c) in
    (msg, rw (long, parse_dns_message, h, few) e, read)
